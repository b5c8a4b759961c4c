-- ===== src/Solo/State.antt =====
-- The variables of npshell that outlive a line, and its number pipes.
use network_programming_nctu.Base.{
  ℕ, suc, Bool, false, List, [], ◌∷◌, ◌++◌, Option, none, some, Bytes, ℤ, pos, ◌==ℤ◌, if◌then◌else◌,
  ◌||◌,
}
use network_programming_nctu.Statements.{M, next, ◌>>=◌, ◌>>◌, pure, get, put}
use network_programming_nctu.Rwg.State.{NumberPipe, Event, closed, piped}
use network_programming_nctu.Rwg.Pipes.{find_pipe, decrease, erase_dead}

-- `batch_command` holds the rows that are in use, its length is batch_count. `env`, `made` and
-- `trace` are as for the server with users; `input` is what is left of the standard input.
pub record Shell : Type 0 where
  pub num_pipe_vec : List NumberPipe
  pub num_pipe_in_flag : Bool
  pub num_pipe_out_flag : Bool
  pub shock_pipe_out_flag : Bool
  pub write_file_flag : Bool
  pub batch_flag : Bool
  pub ignore : Bool
  pub batch_command : List Bytes
  pub batch_command_index : ℕ
  pub input : Bytes
  pub env : List (Bytes × Bytes)
  pub made : ℕ
  pub trace : List Event

-- What the operating system answers: the call number n of `pipe`, the content of a file that can be
-- opened. `leftover` is what the array redirection_file_name holds when a line begins.
pub record System : Type 0 where
  pub pipe_fds : ℕ → ℕ × ℕ
  pub content : Bytes → Option Bytes
  pub leftover : Bytes

abbrev pub Run {ℓ} : Type ℓ → Type ℓ
Run A = M Shell A

abbrev pub emit : Event → Run (Unit {0})
emit e s = next tt (record s { trace = e ∷ s.trace })

abbrev pub set_vec : List NumberPipe → Run (Unit {0})
set_vec ts s = next tt (record s { num_pipe_vec = ts })

unfoldable pub close_0_rest_line_pipe_out : List NumberPipe → Run (Unit {0})
close_0_rest_line_pipe_out [] = pure tt
close_0_rest_line_pipe_out (t ∷ ts) = do
  if t.rest_line ==ℤ pos 0 then emit (closed t.write_end) else pure tt
  close_0_rest_line_pipe_out ts

unfoldable pub close_0_rest_line_pipe_in : List NumberPipe → Run (Unit {0})
close_0_rest_line_pipe_in [] = pure tt
close_0_rest_line_pipe_in (t ∷ ts) = do
  if t.rest_line ==ℤ pos 0 then emit (closed t.read_end) else pure tt
  close_0_rest_line_pipe_in ts

unfoldable pub make_pipe : System → Run (ℕ × ℕ)
make_pipe sys s =
    next (sys.pipe_fds s.made)
      (record s { made = suc s.made; trace = piped (sys.pipe_fds s.made) ∷ s.trace })

-- "decrease line cout": a pipe that comes to 0 sets the flag, and nothing here clears it.
unfoldable pub decrease_pipes : List Bytes → Run (Unit {0})
decrease_pipes [] = pure tt
decrease_pipes (t ∷ ts) = do
  s ← get
  put (record s {
    num_pipe_vec = (decrease s.num_pipe_vec).0;
    num_pipe_in_flag = (decrease s.num_pipe_vec).1 || s.num_pipe_in_flag;
  })

-- `pipe(num_pipe.p)` and `num_pipe_vec.push_back(num_pipe)`
unfoldable pub add_pipe : System → ℤ → Run ℕ
add_pipe sys n = do
  p ← make_pipe sys
  s ← get
  let t : NumberPipe = record { rest_line = n; read_end = p.0; write_end = p.1 }
  set_vec (s.num_pipe_vec ++ t ∷ [])
  pure p.1

unfoldable pub attach_to : System → ℤ → Option NumberPipe → Run ℕ
attach_to sys n (some t) = pure t.write_end
attach_to sys n none = add_pipe sys n

unfoldable pub attach_pipe : System → ℤ → Run ℕ
attach_pipe sys n = do s ← get; attach_to sys n (find_pipe n s.num_pipe_vec)

-- After a fork: the pipes at 0 have been read.
unfoldable pub drop_pipes : Run (Unit {0})
drop_pipes = do
  s ← get
  if s.num_pipe_in_flag
      then (do
        close_0_rest_line_pipe_in s.num_pipe_vec
        v ← get
        put (record v { num_pipe_vec = erase_dead v.num_pipe_vec; num_pipe_in_flag = false }))
      else pure tt
