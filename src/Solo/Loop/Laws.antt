-- ===== src/Solo/Loop/Laws.antt =====
-- The loop once a batch file is through.
use mathlib.Core.Option
use network_programming_nctu.Base.{
  ℕ, zero, suc, ◌<◌, ◌≡◌, ◌≢◌, refl, ap, ◌∙◌, true, false, List, [], ◌∷◌, ◌++◌, Bytes, none, some,
  arith, ◌==◌, ltb, leb, ◌||◌, length, get_elem?, All, append_assoc, if_both,
}
use network_programming_nctu.Statements.{next}
use network_programming_nctu.Statements.Ends.{bind_next}
use network_programming_nctu.Rwg.State.{Event, wrote}
use network_programming_nctu.Rwg.Shell.{clean_line}
use network_programming_nctu.Solo.State.{Shell, System}
use network_programming_nctu.Solo.Batch.{
  newline, fgets, next_command, prompt, typed_line, batch_line, read_line,
}
use network_programming_nctu.Solo.Loop.{obey, round, rounds}

-- A line as it is typed, without its newline.
abbrev pub IsTyped : Bytes → Type 0
IsTyped p = All (λ c. c ≢ newline) p × (length p < 15099)

abbrev pub typed : List Bytes → Bytes → Bytes
typed [] rest = rest
typed (p ∷ ps) rest = p ++ newline ∷ typed ps rest

pub fgets_line :
    (n : ℕ) (p rest : Bytes)
    → All (λ c. c ≢ newline) p
    → length p < n
    → fgets n (p ++ newline ∷ rest) ≡ (p ++ newline ∷ [], rest)
unfolding fgets
fgets_line zero p rest a h = absurd (omega arith)
fgets_line (suc n) [] rest a h = refl
fgets_line (suc n) (c ∷ p) rest (d, a) h = rw (d', fgets_line n p rest a (omega arith)) refl
  where
    d' : (c == newline) ≡ false
    d' = ground arith

clean_some : (p t : Bytes) → (r : Bytes) × (clean_line (p ++ newline ∷ t) ≡ some r)
unfolding clean_line
clean_some [] t = ([], refl)
clean_some (c ∷ p) t =
    if_both (λ o. (r : Bytes) × (o ≡ some r)) (ltb c 20 || leb 128 c) ([], refl)
      (let (r, e) = clean_some p t in (c ∷ r, ap (Option.map (◌∷◌ c)) e))

abbrev pub prompts : ℕ → List Event → List Event
prompts zero t = t
prompts (suc n) t = prompts n (wrote 1 prompt ∷ t)

-- A shell that reads its standard input and runs nothing.
abbrev pub deaf : Bytes → List Event → Shell → Shell
deaf input trace s = record s { input = input; trace = trace; batch_flag = false; ignore = true }

pub ltb_zero-append : (p : Bytes) (c : ℕ) (t : Bytes) → ltb 0 (length (p ++ c ∷ t)) ≡ true
ltb_zero-append [] c t = ground arith
ltb_zero-append (b ∷ p) c t = ground arith

typed_line_lem :
    (p rest : Bytes) (s : Shell)
    → IsTyped p
    → (r : Bytes) × (typed_line (record s { input = p ++ newline ∷ rest })
        ≡ next (some r) (record s { input = rest; trace = wrote 1 prompt ∷ s.trace }))
unfolding typed_line
typed_line_lem p rest s (a, h) =
    let (r, e) = clean_some p (0 ∷ []) in
    (
      r,
      rw
          (
            ltb_zero-append p newline rest,
            fgets_line 15099 p rest a h,
            append_assoc p (newline ∷ []) (0 ∷ []),
            e,
          )
          refl,
    )

round-deaf :
    (sys : System) (p rest : Bytes) (t : List Event) (s : Shell)
    → IsTyped p
    → round sys (deaf (p ++ newline ∷ rest) t s) ≡ next tt (deaf rest (wrote 1 prompt ∷ t) s)
unfolding round read_line obey
round-deaf sys p rest t s a =
    let (r, e) = typed_line_lem p rest (deaf rest t s) a in
    bind_next read_line (obey sys) (deaf (p ++ newline ∷ rest) t s) _ _ e

rounds-deaf :
    (sys : System) (ps : List Bytes) (rest : Bytes) (t : List Event) (s : Shell)
    → All IsTyped ps
    → rounds sys (length ps) (deaf (typed ps rest) t s)
      ≡ next tt (deaf rest (prompts (length ps) t) s)
unfolding rounds
rounds-deaf sys [] rest t s a = refl
rounds-deaf sys (p ∷ ps) rest t s (h, a) =
    bind_next (round sys) (λ _. rounds sys (length ps)) _ _ tt
      (round-deaf sys p (typed ps rest) t s h)
    ∙ rounds-deaf sys ps rest (wrote 1 prompt ∷ t) s a

-- A shell that runs the commands `row ∷ rows` of a batch file, and stands before number `i`.
abbrev pub in_batch : Bytes → List Bytes → ℕ → Bytes → Shell → Shell
in_batch row rows i input s = record s {
  input = input;
  batch_flag = true;
  batch_command = row ∷ rows;
  batch_command_index = i;
}

-- One that has none.
abbrev pub no_batch : Shell → Shell
no_batch s = record s { batch_command = []; batch_command_index = 0 }

round_batch_end :
    (sys : System) (row : Bytes) (rows : List Bytes) (i : ℕ) (input : Bytes) (s : Shell)
    → get_elem? (row ∷ rows) i ≡ none
    → round sys (in_batch row rows i input s) ≡ next tt (deaf input s.trace (no_batch s))
unfolding round read_line batch_line next_command obey
round_batch_end sys row rows i input s e =
    bind_next read_line (obey sys) (in_batch row rows i input s) _ _
      (ap (λ o. next_command o (in_batch row rows i input s)) e)

-- A batch file is through: the shell turns to its standard input again, and `ignore` is set for
-- good. Whatever whole lines of fewer than 15,099 bytes are typed then, a further `batch` or `exit`
-- among them, none is run: the shell reads each, prints a prompt for it, and changes nothing else.
pub nothing_runs_after_batch :
    (sys : System) (row : Bytes) (rows : List Bytes) (i : ℕ) (ps : List Bytes) (rest : Bytes)
    (s : Shell)
    → get_elem? (row ∷ rows) i ≡ none
    → All IsTyped ps
    → rounds sys (suc (length ps)) (in_batch row rows i (typed ps rest) s)
      ≡ next tt (deaf rest (prompts (length ps) s.trace) (no_batch s))
unfolding rounds
nothing_runs_after_batch sys row rows i ps rest s e a =
    bind_next (round sys) (λ _. rounds sys (length ps)) _ _ tt
      (round_batch_end sys row rows i (typed ps rest) s e)
    ∙ rounds-deaf sys ps rest s.trace (no_batch s) a
