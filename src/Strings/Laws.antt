-- ===== src/Strings/Laws.antt =====
-- What strtok returns.
use network_programming_nctu.Base.{
  ℕ, suc, ◌+◌, ◌*◌, ◌≤◌, ◌≡◌, refl, ◌≢◌, sym, not, List, [], ◌∷◌, ◌++◌, append_assoc, All-append,
  ap, ◌∙◌, length-append, arith, Bytes, ◌==◌, length, keep, All, append-nil,
}
use network_programming_nctu.Strings.{scan_tokens, tokens}

module _ (sep : ℕ) where
  -- A word: it is not empty and does not hold the separator.
  abbrev pub IsWord : Bytes → Type 0
  IsWord w = (w ≢ []) × All (λ c. c ≢ sep) w

  abbrev pub concat : List Bytes → Bytes
  concat [] = []
  concat (w ∷ ws) = w ++ concat ws

  abbrev pub total : List Bytes → ℕ
  total [] = 0
  total (w ∷ ws) = suc (length w) + total ws

  pub scan_tokens-IsWord :
      (cur s : Bytes) → All (λ c. c ≢ sep) cur → All IsWord (scan_tokens sep cur s)
  unfolding scan_tokens
  scan_tokens-IsWord [] [] h = tt
  scan_tokens-IsWord (b ∷ cur) [] h = ((cc, h), tt)
  scan_tokens-IsWord [] (c ∷ s) h =
      ground (arith, scan_tokens-IsWord [] s tt, scan_tokens-IsWord (c ∷ []) s)
  scan_tokens-IsWord (b ∷ cur) (c ∷ s) h = ground (
    arith,
    scan_tokens-IsWord [] s tt,
    scan_tokens-IsWord ((b ∷ cur) ++ c ∷ []) s,
    All-append (λ x. x ≢ sep) (b ∷ cur) (c ∷ []),
  )

  pub concat-scan_tokens :
      (cur s : Bytes) → concat (scan_tokens sep cur s) ≡ cur ++ keep (λ c. not (c == sep)) s
  unfolding scan_tokens
  concat-scan_tokens [] [] = refl
  concat-scan_tokens (b ∷ cur) [] = refl
  concat-scan_tokens [] (c ∷ s) =
      ground (arith, concat-scan_tokens [] s, concat-scan_tokens (c ∷ []) s)
  concat-scan_tokens (b ∷ cur) (c ∷ s) = ground (
    arith,
    concat-scan_tokens [] s,
    concat-scan_tokens ((b ∷ cur) ++ c ∷ []) s,
    append_assoc (b ∷ cur) (c ∷ []) (keep (λ x. not (x == sep)) s),
    append-nil (b ∷ cur),
  )

  -- The tokens of a text are words, and together they are the text without its separators.
  pub tokens_sound :
      (s : Bytes)
      → All IsWord (tokens sep s) × (concat (tokens sep s) ≡ keep (λ c. not (c == sep)) s)
  unfolding tokens
  tokens_sound s = (scan_tokens-IsWord [] s tt, concat-scan_tokens [] s)

  pub total-scan_tokens :
      (cur s : Bytes) → total (scan_tokens sep cur s) ≤ suc (length cur + length s)
  unfolding scan_tokens
  total-scan_tokens [] [] = omega arith
  total-scan_tokens (b ∷ cur) [] = omega arith
  total-scan_tokens [] (c ∷ s) =
      ground (arith, total-scan_tokens [] s, total-scan_tokens (c ∷ []) s)
  total-scan_tokens (b ∷ cur) (c ∷ s) = ground (
    arith,
    total-scan_tokens [] s,
    total-scan_tokens ((b ∷ cur) ++ c ∷ []) s,
    length-append (b ∷ cur) (c ∷ []),
  )

  words-total : (ws : List Bytes) → All IsWord ws → 2 * length ws ≤ total ws
  words-total [] h = omega arith
  words-total ([] ∷ ws) ((n, _), h) = absurd (n refl)
  words-total ((c ∷ w) ∷ ws) (_, h) = omega (arith, words-total ws h)

  -- A text of n bytes has at most (n + 1) / 2 tokens.
  pub tokens_bound : (s : Bytes) → 2 * length (tokens sep s) ≤ suc (length s)
  unfolding tokens
  tokens_bound s = omega (
    arith,
    words-total (scan_tokens sep [] s) (scan_tokens-IsWord [] s tt),
    total-scan_tokens [] s,
  )

  -- The words with one separator between them.
  abbrev pub unwords : List Bytes → Bytes
  unwords [] = []
  unwords (w ∷ []) = w
  unwords (w ∷ v ∷ ws) = w ++ sep ∷ unwords (v ∷ ws)

  pub scan_tokens-append :
      (cur w s : Bytes)
      → All (λ c. c ≢ sep) w
      → scan_tokens sep cur (w ++ s) ≡ scan_tokens sep (cur ++ w) s
  unfolding scan_tokens
  scan_tokens-append cur [] s h = ap (λ x. scan_tokens sep x s) (sym (append-nil cur))
  scan_tokens-append cur (c ∷ w) s (n, h) =
      ground (arith, scan_tokens-append (cur ++ c ∷ []) w s h, append_assoc cur (c ∷ []) w)

  pub scan_tokens-sep :
      (c : ℕ) (w s : Bytes) → scan_tokens sep (c ∷ w) (sep ∷ s) ≡ (c ∷ w) ∷ scan_tokens sep [] s
  unfolding scan_tokens
  scan_tokens-sep c w s = ground arith

  -- Words joined by single separators are read back as they are.
  pub tokens-unwords : (ws : List Bytes) → All IsWord ws → tokens sep (unwords ws) ≡ ws
  unfolding tokens
  tokens-unwords [] h = unfold scan_tokens in refl
  tokens-unwords ([] ∷ ws) ((n, _), h) = absurd (n refl)
  tokens-unwords ((c ∷ w) ∷ []) ((_, k), _) =
      unfold scan_tokens in cc (scan_tokens-append [] (c ∷ w) [] k, append-nil (c ∷ w))
  tokens-unwords ((c ∷ w) ∷ v ∷ ws) ((_, k), h) =
      scan_tokens-append [] (c ∷ w) (sep ∷ unwords (v ∷ ws)) k
      ∙ scan_tokens-sep c w (unwords (v ∷ ws))
      ∙ ap (◌∷◌ (c ∷ w)) (tokens-unwords (v ∷ ws) h)
