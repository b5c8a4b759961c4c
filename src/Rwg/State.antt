-- ===== src/Rwg/State.antt =====
-- The server's state (user.h, and the globals of npshell.h), what it asks of the operating system,
-- and the monad of npshell's statements.
use network_programming_nctu.Base.{
  ℕ, suc, List, [], ◌∷◌, Bool, ◌&&◌, Bytes, same, ℤ, ◌==◌, if◌then◌else◌, Option, none, some,
}
pub use network_programming_nctu.Statements.{
  Fault, null_pointer, overrun, bad_format, unset, next, stop, fault, ◌>>=◌, ◌>>◌, pure, return,
  fail, get, put, require, deref,
}
use network_programming_nctu.Statements.{M as StatementOf, Step as StepOf}

-- `struct Number_pipe`; `read_end` and `write_end` are `p[0]` and `p[1]`.
pub record NumberPipe : Type 0 where
  pub rest_line : ℤ
  pub read_end : ℕ
  pub write_end : ℕ

-- `struct User`, with `env` spelled `path`: the user's PATH.
pub record User : Type 0 where
  pub valid : Bool
  pub id : ℕ
  pub sock : ℕ
  pub path : Bytes
  pub addr : Bytes
  pub name : Bytes
  pub port : ℕ
  pub batch_flag : Bool
  pub ignore : Bool
  pub num_pipe_vec : List NumberPipe
  pub name_pipe : ℕ → ℕ × ℕ

-- What a `dup2` duplicates: a descriptor, or the file that the child has just opened.
pub data Source : Type 0 where
  fd : ℕ → Source
  file : Bytes → Source

-- The statements of a forked child between `fork` and `execvp`.
pub data ChildOp : Type 0 where
  -- `open(name, O_TRUNC | O_WRONLY | O_CREAT, 0664)`
  open_file : Bytes → ChildOp
  -- the same, of the array name_pipe_out_file, to which nothing was ever written
  open_unset : ChildOp
  dup_to : Source → ℕ → ChildOp
  close_fd : ℕ → ChildOp
  tell_sock : ℕ → Bytes → ChildOp
  -- a write behind an array: C gives the rest of the child no meaning
  overruns : ChildOp

pub record Child : Type 0 where
  pub ops : List ChildOp
  pub argv : List Bytes

pub data Event : Type 0 where
  -- `write(sock, msg, strlen(msg))`
  wrote : ℕ → Bytes → Event
  -- `printf` to the standard output, which is the user's socket while npshell runs
  printed : Bytes → Event
  piped : ℕ × ℕ → Event
  closed : ℕ → Event
  -- `open(name, O_CREAT, 0664)` and `close`
  touched : Bytes → Event
  forked : Child → Event
  -- `while (wait(NULL) > 0) {}`
  waited : Event
  -- the three `dup2`s of a socket, or of the server's own descriptors, onto 0, 1 and 2
  attached : ℕ → Event
  detached : Event

-- `users` is the array user[30]; `name_pipe_record` is by id, and its entries are 0 or 1.
-- `trace` is what was asked of the system, the newest first; `made` counts the calls of `pipe`.
pub record World : Type 0 where
  pub users : ℕ → User
  pub name_pipe_record : ℕ → ℕ → Bool
  pub env : List (Bytes × Bytes)
  pub made : ℕ
  pub trace : List Event

abbrev pub M {ℓ} : Type ℓ → Type ℓ
M A = StatementOf World A

abbrev pub Step {ℓ} : Type ℓ → Type ℓ
Step A = StepOf World A

abbrev pub emit : Event → M (Unit {0})
emit e w = next tt (record w { trace = e ∷ w.trace })

abbrev pub set_user : ℕ → User → M (Unit {0})
set_user i u w = next tt (record w { users = λ j. if j == i then u else w.users j })

-- `name_pipe_record[i][j] = v`
abbrev pub set_record : ℕ → ℕ → Bool → M (Unit {0})
set_record i j v w = next tt (record w {
  name_pipe_record = λ a b. if (a == i) && (b == j) then v else w.name_pipe_record a b;
})

-- `setenv(key, v, 1)` and `getenv(key)`
unfoldable pub set_env : Bytes → Bytes → List (Bytes × Bytes) → List (Bytes × Bytes)
set_env key v [] = (key, v) ∷ []
set_env key v ((k, x) ∷ m) = if same k key then (key, v) ∷ m else (k, x) ∷ set_env key v m

unfoldable pub get_env : Bytes → List (Bytes × Bytes) → Option Bytes
get_env key [] = none
get_env key ((k, x) ∷ m) = if same k key then some x else get_env key m

-- What the operating system answers. `pipe_fds n` is what the call number n of `pipe` stores in
-- its array (`pipe` is taken to succeed), and `batch_lines name` is how many pieces `fgets` with a
-- size of 20 reads from a file, `none` if it cannot be opened.
pub record System : Type 0 where
  pub pipe_fds : ℕ → ℕ × ℕ
  pub batch_lines : Bytes → Option ℕ

-- `pipe(p)`
unfoldable pub make_pipe : System → M (ℕ × ℕ)
make_pipe sys w =
    next (sys.pipe_fds w.made)
      (record w { made = suc w.made; trace = piped (sys.pipe_fds w.made) ∷ w.trace })

abbrev pub qlen : ℕ
qlen = 30
