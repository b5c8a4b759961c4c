-- ===== src/Multi/Client/State.antt =====
-- The variables of npshell, and its number pipes.
use network_programming_nctu.Base.{
  ℕ, suc, Bool, false, ◌||◌, List, [], ◌∷◌, ◌++◌, Option, none, some, Bytes, ℤ, pos, ◌==ℤ◌,
  if◌then◌else◌, ltb, length,
}
use network_programming_nctu.Statements.{overrun}
use network_programming_nctu.Rwg.State.{NumberPipe}
use network_programming_nctu.Rwg.Pipes.{find_pipe, decrease, erase_dead}
use network_programming_nctu.Multi.Program.{
  Source, unset_file, piped, closed, Statement, ◌>>=◌, ◌>>◌, pure, get, put, emit, require,
}

-- The variables that outlive a line come first; `batch_command` holds the rows in use. Of those of
-- a line, `process` holds the complete rows, and `row` the one that is being filled. The file names
-- of the user pipes and the two ids are set by no line but the one that names them.
pub record Vars : Type 0 where
  pub num_pipe_vec : List NumberPipe
  pub num_pipe_in_flag : Bool
  pub num_pipe_out_flag : Bool
  pub shock_pipe_out_flag : Bool
  pub write_file_flag : Bool
  pub name_pipe_out_flag : Bool
  pub name_pipe_in_flag : Bool
  pub batch_flag : Bool
  pub ignore : Bool
  pub batch_command : List Bytes
  pub batch_command_index : ℕ
  pub env : List (Bytes × Bytes)
  pub made : ℕ
  pub line_end_with_pipe : Bool
  pub pipe_out_num : ℕ
  pub redirection_file_name : Bytes
  pub name_pipe_in_file : Source
  pub name_pipe_out_file : Source
  pub name_pipe_out_id : Option ℤ
  pub row : List Bytes
  pub process : List (List Bytes)
  pub wants_file : Bool

-- What the operating system answers: the call number n of `pipe`, and the content of a file.
pub record System : Type 0 where
  pub pipe_fds : ℕ → ℕ × ℕ
  pub content : Bytes → Option Bytes

abbrev pub Run {ℓ} : Type ℓ → Type ℓ
Run A = Statement Vars A

-- `sprintf` into an array of `size` bytes, its NUL included.
abbrev pub fits : ℕ → Bytes → Run (Unit {0})
fits size text = require (ltb (length text) size) overrun

-- The declarations at the head of the loop's body.
unfoldable pub start_line : Run (Unit {0})
start_line = do
  v ← get
  put (record v {
    line_end_with_pipe = false;
    pipe_out_num = 1;
    redirection_file_name = [];
    name_pipe_in_file = unset_file;
    name_pipe_out_file = unset_file;
    name_pipe_out_id = none;
    row = [];
    process = [];
    wants_file = false;
  })

unfoldable pub close_0_rest_line_pipe_out : List NumberPipe → Run (Unit {0})
close_0_rest_line_pipe_out [] = pure tt
close_0_rest_line_pipe_out (t ∷ ts) = do
  if t.rest_line ==ℤ pos 0 then emit (closed t.write_end) else pure tt
  close_0_rest_line_pipe_out ts

unfoldable pub close_0_rest_line_pipe_in : List NumberPipe → Run (Unit {0})
close_0_rest_line_pipe_in [] = pure tt
close_0_rest_line_pipe_in (t ∷ ts) = do
  if t.rest_line ==ℤ pos 0 then emit (closed t.read_end) else pure tt
  close_0_rest_line_pipe_in ts

unfoldable pub make_pipe : System → Run (ℕ × ℕ)
make_pipe sys = do
  v ← get
  emit (piped (sys.pipe_fds v.made))
  put (record v { made = suc v.made })
  pure (sys.pipe_fds v.made)

unfoldable pub decrease_pipes : List Bytes → Run (Unit {0})
decrease_pipes [] = pure tt
decrease_pipes (t ∷ ts) = do
  v ← get
  put (record v {
    num_pipe_vec = (decrease v.num_pipe_vec).0;
    num_pipe_in_flag = (decrease v.num_pipe_vec).1 || v.num_pipe_in_flag;
  })

unfoldable pub add_pipe : System → ℤ → Run ℕ
add_pipe sys n = do
  p ← make_pipe sys
  v ← get
  let t : NumberPipe = record { rest_line = n; read_end = p.0; write_end = p.1 }
  put (record v { num_pipe_vec = v.num_pipe_vec ++ t ∷ [] })
  pure p.1

unfoldable pub attach_to : System → ℤ → Option NumberPipe → Run ℕ
attach_to sys n (some t) = pure t.write_end
attach_to sys n none = add_pipe sys n

unfoldable pub attach_pipe : System → ℤ → Run ℕ
attach_pipe sys n = do v ← get; attach_to sys n (find_pipe n v.num_pipe_vec)

-- After a fork: what the child reads is the parent's no longer.
unfoldable pub drop_inputs : Run (Unit {0})
drop_inputs = do
  v ← get
  if v.num_pipe_in_flag then close_0_rest_line_pipe_in v.num_pipe_vec else pure tt
  put (record v {
    num_pipe_vec = if v.num_pipe_in_flag then erase_dead v.num_pipe_vec else v.num_pipe_vec;
    num_pipe_in_flag = false;
    name_pipe_in_flag = false;
  })
