-- ===== src/Console/Laws.antt =====
-- What the console shows and sends.
use network_programming_nctu.Base.{
  ℕ, zero, suc, ◌+◌, ◌-◌, ◌≤◌, ◌<◌, ◌≡◌, ◌≢◌, refl, sym, ap, ◌∙◌, inl, inr, Bool, true, false, ◌||◌,
  not, List, [], ◌∷◌, ◌++◌, append_assoc, All, All-append, Bytes, ◌==◌, if◌then◌else◌, keep, arith,
  length, Bool-cases, ◌⊎◌, ◌↔◌,
}
use network_programming_nctu.Console.{
  escape, encode, new_lines, one_line, NpShellRun, write_to_console, has_prompt, send_command,
  answer, do_read, run_reads, HostInfo, is_complete, info_of, sessions_from, sessions,
}

-- A character that ends neither a tag nor a string of the page.
abbrev pub IsInert : ℕ → Type 0
IsInert c = (c ≢ b'<') × (c ≢ b'>') × (c ≢ 34) × (c ≢ 39)

escape-IsInert : (c : ℕ) → All IsInert (escape c)
unfolding escape
escape-IsInert c = ground arith

encode-IsInert : (s : Bytes) → All IsInert (encode s)
unfolding encode
encode-IsInert [] = tt
encode-IsInert (c ∷ s) =
    All-append IsInert (escape c) (encode s) (escape-IsInert c) (encode-IsInert s)

-- A character that also ends no line.
abbrev pub IsShown : ℕ → Type 0
IsShown c = IsInert c × (c ≢ 10)

new_lines-IsShown : (s : Bytes) → All IsInert s → All IsShown (new_lines s)
unfolding new_lines
new_lines-IsShown [] h = tt
new_lines-IsShown (c ∷ s) (p, h) = ground (arith, new_lines-IsShown s h)

-- The text that is put into the page's string has no quote, no `<` or `>`, and no line end.
pub one_line-encode_clean : (s : Bytes) → All (λ c. IsShown c × (c ≢ 13)) (one_line (encode s))
unfolding one_line
one_line-encode_clean s =
    drop_returns (new_lines (encode s)) (new_lines-IsShown (encode s) (encode-IsInert s))
  where
    drop_returns :
        (t : Bytes) → All IsShown t → All (λ c. IsShown c × (c ≢ 13)) (keep (λ c. not (c == 13)) t)
    drop_returns [] h = tt
    drop_returns (c ∷ t) (p, h) = ground (arith, drop_returns t h)

-- What the socket gets for each command.
abbrev pub as_sent : List Bytes → Bytes
as_sent [] = []
as_sent (line ∷ rest) = (line ++ 10 ∷ []) ++ as_sent rest

-- The answers that show a prompt.
abbrev pub prompts : List Bytes → ℕ
prompts [] = 0
prompts (r ∷ rs) = if has_prompt r then suc (prompts rs) else prompts rs

has_prompt-append : (s t : Bytes) → has_prompt (s ++ t) ≡ (has_prompt s || has_prompt t)
unfolding has_prompt
has_prompt-append [] t = refl
has_prompt-append (c ∷ s) t = ground (arith, has_prompt-append s t)

has_prompt-escape : (c : ℕ) → has_prompt (escape c) ≡ (c == b'%')
unfolding has_prompt escape
has_prompt-escape c = ground arith

has_prompt-encode : (s : Bytes) → has_prompt (encode s) ≡ has_prompt s
unfolding encode has_prompt
has_prompt-encode [] = refl
has_prompt-encode (c ∷ s) =
    cc (has_prompt-append (escape c) (encode s), has_prompt-escape c, has_prompt-encode s)

answer-sent :
    (b : Bool) (lines : List Bytes) (c : NpShellRun)
    → c.command ≡ lines
    → (answer b lines c).sent ++ as_sent (answer b lines c).command ≡ c.sent ++ as_sent lines
unfolding answer send_command write_to_console
answer-sent false lines c e = ap (λ x. c.sent ++ as_sent x) e
answer-sent true [] c e = ap (λ x. c.sent ++ as_sent x) e
answer-sent true (line ∷ rest) c e = append_assoc c.sent (line ++ 10 ∷ []) (as_sent rest)

answer-command :
    (b : Bool) (lines : List Bytes) (c : NpShellRun)
    → c.command ≡ lines
    → length (answer b lines c).command ≡ (if b then length lines - 1 else length lines)
unfolding answer send_command write_to_console
answer-command false lines c e = ap length e
answer-command true [] c e = ap length e
answer-command true (line ∷ rest) c e = omega arith

do_read_lem :
    (r : Bytes) (c : NpShellRun)
    → ((do_read r c).sent ++ as_sent (do_read r c).command ≡ c.sent ++ as_sent c.command)
      × (length (do_read r c).command
          ≡ (if has_prompt r then length c.command - 1 else length c.command))
unfolding do_read write_to_console
do_read_lem r c =
    let shown = write_to_console (encode r) c in
    (
      answer-sent (has_prompt (encode r)) c.command shown refl,
      answer-command (has_prompt (encode r)) c.command shown refl
          ∙ ap (λ b. if b then length c.command - 1 else length c.command) (has_prompt-encode r),
    )

-- Whatever the shell answers: the commands are sent in order, each once and with a newline, and one
-- for each answer that shows a prompt, as long as there are commands.
pub run_reads_lem :
    (rs : List Bytes) (c : NpShellRun)
    → ((run_reads rs c).sent ++ as_sent (run_reads rs c).command ≡ c.sent ++ as_sent c.command)
      × (length (run_reads rs c).command ≡ length c.command - prompts rs)
unfolding run_reads
run_reads_lem [] c = (refl, omega arith)
run_reads_lem (r ∷ rs) c =
    let (x, y) = run_reads_lem rs (do_read r c) in
    let (x', y') = do_read_lem r c in (x ∙ x', ground (arith, y, y'))

-- A session that main starts.
abbrev pub IsStarted : HostInfo → List HostInfo → Type 0
IsStarted info [] = ⊥
IsStarted info (x ∷ xs) = (info ≡ x) ⊎ IsStarted info xs

sessions_from_sound :
    (n i : ℕ) (query : Bytes → Bytes) (info : HostInfo)
    → IsStarted info (sessions_from n i query)
    → (k : ℕ) × (i ≤ k) × (k < i + n) × (is_complete query k ≡ true) × (info ≡ info_of query k)
unfolding sessions_from
sessions_from_sound zero i query info h = absurd h
sessions_from_sound (suc n) i query info h = elim (Bool-cases (is_complete query i)) [
  | inl c ↦ elim (rw c at h) [
    | inl e ↦ (i, omega arith, omega arith, c, e)
    | inr t ↦
        let (k, a, b, d, e) = sessions_from_sound n (suc i) query info t in
        (k, omega arith, omega arith, d, e)
  ]
  | inr c ↦
      let (k, a, b, d, e) = sessions_from_sound n (suc i) query info (rw c at h) in
      (k, omega arith, omega arith, d, e)
]

ℕ-cases : (a b : ℕ) → (a ≡ b) ⊎ (a ≢ b)
ℕ-cases a b = ground arith

sessions_from_complete :
    (n i : ℕ) (query : Bytes → Bytes) (k : ℕ)
    → i ≤ k
    → k < i + n
    → is_complete query k ≡ true
    → IsStarted (info_of query k) (sessions_from n i query)
unfolding sessions_from
sessions_from_complete zero i query k a b c = absurd (omega arith)
sessions_from_complete (suc n) i query k a b c = elim (ℕ-cases i k) [
  | inl e ↦ rw (ap (is_complete query) e ∙ c) (inl (ap (info_of query) (sym e)))
  | inr d ↦ elim (Bool-cases (is_complete query i)) [
    | inl t ↦ rw t (inr (sessions_from_complete n (suc i) query k (omega arith) (omega arith) c))
    | inr t ↦ rw t (sessions_from_complete n (suc i) query k (omega arith) (omega arith) c)
  ]
]

-- main starts a session exactly for each of the five numbers whose host, port and file are given.
pub sessions_iff :
    (query : Bytes → Bytes) (info : HostInfo)
    → IsStarted info (sessions query)
      ↔ ((k : ℕ) × (k < 5) × (is_complete query k ≡ true) × (info ≡ info_of query k))
unfolding sessions
sessions_iff query info = (
  λ h. let (k, _, b, c, e) = sessions_from_sound 5 0 query info h in (k, omega arith, c, e),
  λ (k, b, c, e). rw e (sessions_from_complete 5 0 query k (omega arith) (omega arith) c),
)
