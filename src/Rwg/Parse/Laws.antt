-- ===== src/Rwg/Parse/Laws.antt =====
-- The rows that a line of commands is taken apart into.
use network_programming_nctu.Base.{
  ℕ, ◌+◌, ◌<◌, ◌≡◌, ◌≢◌, refl, sym, ap, ◌∙◌, Bool, false, List, [], ◌∷◌, ◌++◌, append_assoc,
  append-nil, length-append, All, Bytes, codes, same, same_iff, Bool-cases, inl, inr, ℤ, length,
  arith,
}
use network_programming_nctu.Rwg.State.{World, System, next}
use network_programming_nctu.Statements.Ends.{bind_next}
use network_programming_nctu.Rwg.Parse.{
  Locals, max_process_in_line, row_size, head_is, store_word, end_row, operator, is_operator,
  parse_token, end_line, parse_tokens, parse_line,
}
use network_programming_nctu.Rwg.Shell.{initial_locals}

-- A token that is neither an operator nor a user pipe to read.
abbrev pub IsPlain : Bytes → Type 0
IsPlain t = (head_is b'<' t ≡ false) × (is_operator t ≡ false)

-- A command of one to nine words: the row's tenth cell is for the NULL behind them.
abbrev pub IsCommand : List Bytes → Type 0
IsCommand row = (row ≢ []) × (length row < row_size) × All IsPlain row

-- The commands with a `|` between them.
abbrev pub pipeline : List (List Bytes) → List Bytes
pipeline [] = []
pipeline (r ∷ []) = r
pipeline (r ∷ s ∷ rs) = r ++ codes "|" ∷ pipeline (s ∷ rs)

-- The variables with this row and these complete rows.
abbrev pub holding : Locals → List Bytes → List (List Bytes) → Locals
holding l row process = record l { row = row; process = process }

store_word_lem :
    (t : Bytes) (l : Locals) (w : World)
    → length l.process < max_process_in_line
    → length l.row < row_size
    → store_word t l w ≡ next (record l { row = l.row ++ t ∷ [] }) w
unfolding store_word
store_word_lem t l w a b = ground arith

end_row_lem :
    (l : Locals) (w : World)
    → length l.process < max_process_in_line
    → length l.row < row_size
    → end_row l w ≡ next (record l { row = []; process = l.process ++ l.row ∷ [] }) w
unfolding end_row
end_row_lem l w a b = ground arith

end_line_lem :
    (row : List Bytes) (l : Locals) (w : World)
    → row ≢ []
    → l.wants_file ≡ false
    → end_line (record l { row = row }) w ≡ end_row (record l { row = row }) w
unfolding end_line
end_line_lem [] l w h e = absurd (h refl)
end_line_lem (t ∷ ts) l w h e = rw e refl

not_same : (s t : Bytes) → s ≢ t → same s t ≡ false
not_same s t h = elim (Bool-cases (same s t)) [
  | inl e ↦ absurd (h ((same_iff s t).0 e))
  | inr e ↦ e
]

module _ (sys : System) (count : ℤ) (ui : ℕ) (command : Bytes) (l : Locals) (w : World)
    (e : l.wants_file ≡ false) where
  parse_word :
      (t : Bytes) (row : List Bytes) (p : List (List Bytes))
      → IsPlain t
      → parse_token sys count ui command t (holding l row p) w ≡ store_word t (holding l row p) w
  unfolding parse_token
  parse_word t row p (a, b) = rw (e, a, b) refl

  parse_words :
      (ts rest row : List Bytes) (p : List (List Bytes))
      → All IsPlain ts
      → length p < max_process_in_line
      → length row + length ts < row_size
      → parse_tokens sys count ui command (ts ++ rest) (holding l row p) w
        ≡ parse_tokens sys count ui command rest (holding l (row ++ ts) p) w
  unfolding parse_tokens
  parse_words [] rest row p h a b =
      ap (λ r. parse_tokens sys count ui command rest (holding l r p) w) (sym (append-nil row))
  parse_words (t ∷ ts) rest row p (h, hs) a b =
      let stored = parse_word t row p h ∙ store_word_lem t (holding l row p) w a (omega arith) in
      bind_next (parse_token sys count ui command t (holding l row p))
        (parse_tokens sys count ui command (ts ++ rest)) w w (holding l (row ++ t ∷ []) p) stored
      ∙ parse_words ts rest (row ++ t ∷ []) p hs a (omega (arith, length-append row (t ∷ [])))
      ∙ ap (λ r. parse_tokens sys count ui command rest (holding l r p) w)
          (append_assoc row (t ∷ []) ts)

  parse_bar :
      (row : List Bytes) (p : List (List Bytes))
      → length p < max_process_in_line
      → length row < row_size
      → parse_token sys count ui command (codes "|") (holding l row p) w
        ≡ next (holding l [] (p ++ row ∷ [])) w
  unfolding parse_token operator same
  parse_bar row p a b = rw e (
      bind_next (end_row (record (holding l row p) { wants_file = false }))
        (operator sys count ui (codes "|")) w w
        (record (holding l [] (p ++ row ∷ [])) { wants_file = false })
        (end_row_lem (record (holding l row p) { wants_file = false }) w a b))

  parse_pipeline :
      (r : List Bytes) (rs : List (List Bytes)) (p : List (List Bytes))
      → All IsCommand (r ∷ rs)
      → length p + length rs < max_process_in_line
      → parse_tokens sys count ui command (pipeline (r ∷ rs)) (holding l [] p) w
        ≡ next (holding l [] (p ++ r ∷ rs)) w
  unfolding parse_tokens
  parse_pipeline r [] p ((n, b, h), _) a =
      ap (λ ts. parse_tokens sys count ui command ts (holding l [] p) w) (sym (append-nil r))
      ∙ parse_words r [] [] p h (omega arith) (omega arith)
      ∙ end_line_lem r (holding l r p) w n e
      ∙ end_row_lem (holding l r p) w (omega arith) b
  parse_pipeline r (s ∷ rs) p ((n, b, h), hs) a =
      parse_words r (codes "|" ∷ pipeline (s ∷ rs)) [] p h (omega arith) (omega arith)
      ∙ bind_next (parse_token sys count ui command (codes "|") (holding l r p))
          (parse_tokens sys count ui command (pipeline (s ∷ rs))) w w (holding l [] (p ++ r ∷ []))
          (parse_bar r p (omega arith) b)
      ∙ parse_pipeline s rs (p ++ r ∷ []) hs (omega (arith, length-append p (r ∷ [])))
      ∙ ap (λ x. next (holding l [] x) w) (append_assoc p (r ∷ []) (s ∷ rs))

-- A line of fewer than 5,001 commands with a `|` between any two, each of one to nine plain words
-- and the first word neither "tell" nor "yell", is taken apart into exactly these commands, and
-- nothing else is set or done.
pub parse_line-pipeline :
    (sys : System) (count : ℤ) (ui : ℕ) (command : Bytes) (flag : Bool) (w : World)
    → (t : Bytes) (ts : List Bytes) (rs : List (List Bytes)) → All IsCommand ((t ∷ ts) ∷ rs)
    → t ≢ codes "tell"
    → t ≢ codes "yell"
    → length rs < max_process_in_line
    → parse_line sys count ui command (pipeline ((t ∷ ts) ∷ rs)) (initial_locals flag) w
      ≡ next (record (initial_locals flag) { process = (t ∷ ts) ∷ rs }) w
unfolding parse_line
parse_line-pipeline sys count ui command flag w t ts [] h a b c =
    rw (not_same t (codes "tell") a, not_same t (codes "yell") b)
      (parse_pipeline sys count ui command (initial_locals flag) w refl (t ∷ ts) [] [] h
        (omega arith))
parse_line-pipeline sys count ui command flag w t ts (s ∷ rs) h a b c =
    rw (not_same t (codes "tell") a, not_same t (codes "yell") b)
      (parse_pipeline sys count ui command (initial_locals flag) w refl (t ∷ ts) (s ∷ rs) [] h
        (omega arith))
