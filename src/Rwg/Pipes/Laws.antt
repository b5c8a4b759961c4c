-- ===== src/Rwg/Pipes/Laws.antt =====
-- The number pipes of a user: what a count-down, an attachment and an erasure do to the vector.
use mathlib.Core.List.{reverse, reverse-cons}
use network_programming_nctu.Base.{
  zero, is_some, ==ℤ_comm, ℕ, suc, ◌+◌, ◌≡◌, ◌≢◌, inl, inr, refl, sym, ◌∙◌, ap, true, not,
  Bool-cases, none, some, List, [], ◌∷◌, ◌++◌, append_assoc, map, keep, All, All-append, All-keep,
  ℤ, pos, negsuc, pred_int, pred_int-injective, ◌==ℤ◌, ==ℤ_iff, arith,
}
use network_programming_nctu.Rwg.State.{NumberPipe, World, Event, closed, Step, next}
use network_programming_nctu.Rwg.Users.Laws.{with_trace}
use network_programming_nctu.Rwg.Invariant.{IsDistinct}
use network_programming_nctu.Rwg.Pipes.{
  pipe_dead, close_0_rest_line_pipe_out, close_0_rest_line_pipe_in, decrease, find_pipe, erase_dead,
}

abbrev pub counted : NumberPipe → NumberPipe
counted t = record t { rest_line = pred_int t.rest_line }

-- The count-down reaches every pipe.
pub decrease_lem : (ts : List NumberPipe) → (decrease ts).0 ≡ map counted ts
unfolding decrease
decrease_lem [] = refl
decrease_lem (t ∷ ts) = ap (◌∷◌ (counted t)) (decrease_lem ts)

decrease-All :
    (n : ℤ) (ts : List NumberPipe)
    → All (λ s. n ≢ s.rest_line) ts
    → All (λ s. pred_int n ≢ s.rest_line) (decrease ts).0
unfolding decrease
decrease-All n [] h = tt
decrease-All n (t ∷ ts) (p, h) = (λ e. p (pred_int-injective n t.rest_line e), decrease-All n ts h)

pub decrease-IsDistinct : (ts : List NumberPipe) → IsDistinct ts → IsDistinct (decrease ts).0
unfolding decrease
decrease-IsDistinct [] h = tt
decrease-IsDistinct (t ∷ ts) (p, h) = (decrease-All t.rest_line ts p, decrease-IsDistinct ts h)

pub erase_dead-IsDistinct : (ts : List NumberPipe) → IsDistinct ts → IsDistinct (erase_dead ts)
unfolding erase_dead
erase_dead-IsDistinct [] h = tt
erase_dead-IsDistinct (t ∷ ts) (p, h) = ground (
  arith,
  erase_dead-IsDistinct ts h,
  All-keep (λ s. t.rest_line ≢ s.rest_line) (λ s. not (pipe_dead s)) ts p,
)

-- A search that fails has met no pipe with this count.
pub find_pipe-none :
    (n : ℤ) (ts : List NumberPipe) → find_pipe n ts ≡ none → All (λ s. s.rest_line ≢ n) ts
unfolding find_pipe
find_pipe-none n [] h = tt
find_pipe-none n (t ∷ ts) h = elim (Bool-cases (n ==ℤ t.rest_line)) [
  | inl e ↦ cc (rw e at h)
  | inr e ↦ (λ p. cc ((==ℤ_iff n t.rest_line).1 (sym p), e), find_pipe-none n ts (rw e at h))
]

pub push-IsDistinct :
    (ts : List NumberPipe) (t : NumberPipe)
    → All (λ s. s.rest_line ≢ t.rest_line) ts
    → IsDistinct ts
    → IsDistinct (ts ++ t ∷ [])
push-IsDistinct [] t h d = (tt, tt)
push-IsDistinct (s ∷ ts) t (p, h) (q, d) =
    (All-append (λ x. s.rest_line ≢ x.rest_line) ts (t ∷ []) q (p, tt), push-IsDistinct ts t h d)

-- What a fork closes, the newest first.
abbrev pub closings : (NumberPipe → ℕ) → List NumberPipe → List Event
closings end ts = map (λ t. closed (end t)) (keep pipe_dead ts)

abbrev pub Logs : (World → Step (Unit {0})) → World → List Event → Type 0
Logs m w es = m w ≡ next tt (with_trace w (reverse es ++ w.trace))

logs_cons :
    (w : World) (e : Event) (es : List Event)
    → with_trace w (reverse es ++ (e ∷ w.trace)) ≡ with_trace w (reverse (e ∷ es) ++ w.trace)
logs_cons w e es =
    ap (with_trace w) (
      sym (ap (λ x. x ++ w.trace) (reverse-cons e es) ∙ append_assoc (reverse es) (e ∷ []) w.trace))

-- Before a fork the write ends of the pipes at 0 are closed, and those of no other pipe.
pub close_0_rest_line_pipe_out_lem :
    (ts : List NumberPipe) (w : World)
    → Logs (close_0_rest_line_pipe_out ts) w (closings (λ t. t.write_end) ts)
unfolding close_0_rest_line_pipe_out pipe_dead
close_0_rest_line_pipe_out_lem [] w = refl
close_0_rest_line_pipe_out_lem (t ∷ ts) w = elim (Bool-cases (t.rest_line ==ℤ pos 0)) [
  | inl h ↦
      rw (h, close_0_rest_line_pipe_out_lem ts (with_trace w (closed t.write_end ∷ w.trace)))
        (ap (next tt) (logs_cons w (closed t.write_end) (closings (λ s. s.write_end) ts)))
  | inr h ↦ rw (h, close_0_rest_line_pipe_out_lem ts w)
]

pub close_0_rest_line_pipe_in_lem :
    (ts : List NumberPipe) (w : World)
    → Logs (close_0_rest_line_pipe_in ts) w (closings (λ t. t.read_end) ts)
unfolding close_0_rest_line_pipe_in pipe_dead
close_0_rest_line_pipe_in_lem [] w = refl
close_0_rest_line_pipe_in_lem (t ∷ ts) w = elim (Bool-cases (t.rest_line ==ℤ pos 0)) [
  | inl h ↦
      rw (h, close_0_rest_line_pipe_in_lem ts (with_trace w (closed t.read_end ∷ w.trace)))
        (ap (next tt) (logs_cons w (closed t.read_end) (closings (λ s. s.read_end) ts)))
  | inr h ↦ rw (h, close_0_rest_line_pipe_in_lem ts w)
]

zero_add : (a : ℕ) → 0 + a ≡ a
zero_add a = omega arith

add_suc : (a b : ℕ) → a + suc b ≡ suc a + b
add_suc a b = omega arith

pos-==ℤ-pred_int : (n : ℕ) (r : ℤ) → (pos n ==ℤ pred_int r) ≡ (pos (suc n) ==ℤ r)
unfolding ◌==ℤ◌ pred_int
pos-==ℤ-pred_int n (pos zero) = ground arith
pos-==ℤ-pred_int n (pos (suc m)) = ground arith
pos-==ℤ-pred_int n (negsuc m) = refl

-- One line later.
find_pipe-decrease :
    (n : ℕ) (ts : List NumberPipe) (t : NumberPipe)
    → find_pipe (pos (suc n)) ts ≡ some t
    → find_pipe (pos n) (decrease ts).0 ≡ some (counted t)
unfolding find_pipe decrease
find_pipe-decrease n [] t e = cc
find_pipe-decrease n (x ∷ ts) t e =
    ground (arith, pos-==ℤ-pred_int n x.rest_line, find_pipe-decrease n ts t)

decrease-flag :
    (ts : List NumberPipe) → (decrease ts).1 ≡ is_some (find_pipe (pos 0) (decrease ts).0)
unfolding find_pipe decrease
decrease-flag [] = refl
decrease-flag (t ∷ ts) = ground (arith, decrease-flag ts, ==ℤ_comm (pos 0) (pred_int t.rest_line))

-- The vector after the starts of some lines that attach and read no pipe.
abbrev pub lines_later : ℕ → List NumberPipe → List NumberPipe
lines_later zero ts = ts
lines_later (suc n) ts = (decrease (lines_later n ts)).0

-- The pipe that a search for `n` finds has the ends of `t`.
abbrev pub FindsEnds : ℕ → List NumberPipe → NumberPipe → Type 0
FindsEnds n ts t =
    (s : NumberPipe) × (find_pipe (pos n) ts ≡ some s)
    × (s.read_end ≡ t.read_end)
    × (s.write_end ≡ t.write_end)

find_pipe-lines_later :
    (n m : ℕ) (ts : List NumberPipe) (t : NumberPipe)
    → find_pipe (pos (n + m)) ts ≡ some t
    → FindsEnds m (lines_later n ts) t
find_pipe-lines_later zero m ts t e = (t, rw (zero_add m) at e, refl, refl)
find_pipe-lines_later (suc n) m ts t e =
    let (s, found, r, w) = find_pipe-lines_later n (suc m) ts t (rw (add_suc n m) e) in
    (counted s, find_pipe-decrease m (lines_later n ts) s found, r, w)

-- The pipe that `|N` writes to, N at least 1, is the one that the N-th line after it reads, if those
-- between attach and read no pipe: at that line's start the pipe has come to 0, and
-- num_pipe_in_flag is set.
pub number_pipe_lem :
    (n : ℕ) (ts : List NumberPipe) (t : NumberPipe)
    → find_pipe (pos (suc n)) ts ≡ some t
    → FindsEnds 0 (lines_later (suc n) ts) t × ((decrease (lines_later n ts)).1 ≡ true)
number_pipe_lem n ts t e =
    let h = find_pipe-lines_later (suc n) 0 ts t (rw (add_zero n) e) in
    (h, decrease-flag (lines_later n ts) ∙ ap is_some h.1)
  where
    add_zero : (a : ℕ) → suc a + 0 ≡ suc a
    add_zero a = omega arith
