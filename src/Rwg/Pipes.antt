-- ===== src/Rwg/Pipes.antt =====
-- Number pipes: the vector `num_pipe_vec` of a user, counted down once for each line.
pub mod Laws
pub mod Attach
use network_programming_nctu.Base.{
  ℕ, Bool, true, false, not, ◌||◌, List, [], ◌∷◌, ◌++◌, Option, none, some, ℤ, pos, pred_int, ◌==ℤ◌,
  if◌then◌else◌, keep,
}
use network_programming_nctu.Rwg.State.{
  NumberPipe, User, World, Event, closed, M, ◌>>=◌, ◌>>◌, pure, get, emit, set_user, System,
  make_pipe,
}

unfoldable pub pipe_dead : NumberPipe → Bool
pipe_dead t = t.rest_line ==ℤ pos 0

unfoldable pub close_0_rest_line_pipe_out : List NumberPipe → M (Unit {0})
close_0_rest_line_pipe_out [] = pure tt
close_0_rest_line_pipe_out (t ∷ ts) = do
  if t.rest_line ==ℤ pos 0 then emit (closed t.write_end) else pure tt
  close_0_rest_line_pipe_out ts

unfoldable pub close_0_rest_line_pipe_in : List NumberPipe → M (Unit {0})
close_0_rest_line_pipe_in [] = pure tt
close_0_rest_line_pipe_in (t ∷ ts) = do
  if t.rest_line ==ℤ pos 0 then emit (closed t.read_end) else pure tt
  close_0_rest_line_pipe_in ts

-- The loop that decreases the counts of a line's start; the second part is num_pipe_in_flag.
unfoldable pub decrease : List NumberPipe → List NumberPipe × Bool
decrease [] = ([], false)
decrease (t ∷ ts) =
    let (ts', flag) = decrease ts in
    let t' = record t { rest_line = pred_int t.rest_line } in
    (t' ∷ ts', (t'.rest_line ==ℤ pos 0) || flag)

-- The loop `for (j = 0; …) if (num_pipe_line == num_pipe_vec[j].rest_line) { …; break; }`.
unfoldable pub find_pipe : ℤ → List NumberPipe → Option NumberPipe
find_pipe n [] = none
find_pipe n (t ∷ ts) = if n ==ℤ t.rest_line then some t else find_pipe n ts

-- `num_pipe_vec.erase(remove_if(…, PipeDead), …)`
unfoldable pub erase_dead : List NumberPipe → List NumberPipe
erase_dead ts = keep (λ t. not (pipe_dead t)) ts

abbrev pub set_vec : ℕ → List NumberPipe → M (Unit {0})
set_vec ui ts = do w ← get; set_user ui (record (w.users ui) { num_pipe_vec = ts })

-- `pipe(num_pipe.p)` and `num_pipe_vec.push_back(num_pipe)`
unfoldable pub add_pipe : System → ℕ → ℤ → M ℕ
add_pipe sys ui n = do
  p ← make_pipe sys
  w ← get
  let t : NumberPipe = record { rest_line = n; read_end = p.0; write_end = p.1 }
  set_vec ui ((w.users ui).num_pipe_vec ++ t ∷ [])
  pure p.1

unfoldable pub attach_to : System → ℕ → ℤ → Option NumberPipe → M ℕ
attach_to sys ui n (some t) = pure t.write_end
attach_to sys ui n none = add_pipe sys ui n

-- The end of `|N` and `!N`: the descriptor pipe_out_num.
unfoldable pub attach_pipe : System → ℕ → ℤ → M ℕ
attach_pipe sys ui n = do w ← get; attach_to sys ui n (find_pipe n (w.users ui).num_pipe_vec)

-- The start of a line in npshell: every pipe of the user counts down.
unfoldable pub decrease_pipes : ℕ → M Bool
decrease_pipes ui = do
  w ← get
  set_vec ui (decrease (w.users ui).num_pipe_vec).0
  pure (decrease (w.users ui).num_pipe_vec).1

-- After a fork that read the pipes at 0: they are closed and erased.
unfoldable pub drop_pipes : ℕ → M (Unit {0})
drop_pipes ui = do
  w ← get
  close_0_rest_line_pipe_in (w.users ui).num_pipe_vec
  set_vec ui (erase_dead (w.users ui).num_pipe_vec)
