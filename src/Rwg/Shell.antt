-- ===== src/Rwg/Shell.antt =====
-- npshell: one line of one user, from `read` to `return`.
pub mod Laws
pub use network_programming_nctu.Statements.{or_fail}
use network_programming_nctu.Base.{
  ℕ, suc, Bool, false, ◌||◌, List, [], ◌∷◌, Option, none, some, Bytes, codes, same, ltb, leb,
  if◌then◌else◌, ℤ, pos, length,
}
use mathlib.Core.Option
use network_programming_nctu.Strings.{tokens, format_line}
use network_programming_nctu.Rwg.State.{
  World, waited, Fault, null_pointer, overrun, bad_format, unset, Step, next, stop, fault, M, ◌>>=◌,
  ◌>>◌, pure, return, get, put, emit, fail, set_env, System,
}
use network_programming_nctu.Rwg.Pipes.{decrease_pipes}
use network_programming_nctu.Rwg.Parse.{Locals, parse_line}
use network_programming_nctu.Rwg.Execute.{Exec, run_process}
use network_programming_nctu.Rwg.Builtins.{
  printenv, setenv, exit_shell, batch, who, tell, yell, name_user,
}

-- The loop that ends the line at the first `char` below 20; a `char` is signed, so the bytes from
-- 128 on are. `none`: the array holds no such byte.
unfoldable pub clean_line : Bytes → Option Bytes
clean_line [] = none
clean_line (c ∷ s) =
    let rest = Option.map (◌∷◌ c) (clean_line s) in if ltb c 20 || leb 128 c then some [] else rest

abbrev pub initial_locals : Bool → Locals
initial_locals flag = record {
  num_pipe_in_flag = flag;
  num_pipe_out_flag = false;
  shock_pipe_out_flag = false;
  write_file_flag = false;
  line_end_with_pipe = false;
  name_pipe_out_flag = false;
  name_pipe_in_flag = false;
  pipe_out_num = 1;
  redirection_file_name = [];
  name_pipe_sender_id = pos 0;
  name_pipe_out_id = pos 0;
  row = [];
  process = [];
  wants_file = false;
}

-- A statement of the loop that keeps the loop's variables.
abbrev pub keeping : Exec → M (Unit {0}) → M Exec
keeping e m = do m; pure e

-- One round of the execution loop: the command's name is compared with each built-in one.
unfoldable pub run_row : System → ℕ → Bytes → ℕ → ℕ → List Bytes → Exec → M Exec
run_row sys ui command n prc [] e = fail null_pointer
run_row sys ui command n prc (name ∷ args) e =
    let argv = name ∷ args in
    if same name (codes "printenv")
    then keeping e (printenv ui argv)
    else if same name (codes "setenv")
    then keeping e (setenv ui argv)
    else if same name (codes "exit")
    then exit_shell ui
    else if same name (codes "batch")
    then keeping e (batch sys argv)
    else if same name (codes "who")
    then keeping e (who ui)
    else if same name (codes "tell")
    then keeping e (tell ui argv)
    else if same name (codes "yell")
    then keeping e (yell ui argv)
    else if same name (codes "name")
    then keeping e (name_user ui argv)
    else run_process sys ui command n prc argv e

-- The rows from number `prc` on.
unfoldable pub run_rows : System → ℕ → Bytes → ℕ → ℕ → List (List Bytes) → Exec → M Exec
run_rows sys ui command n prc [] e = pure e
run_rows sys ui command n prc (argv ∷ rows) e =
    run_row sys ui command n prc argv e >>= run_rows sys ui command n (suc prc) rows

-- "execute process": nothing is run while `ignore` is set.
unfoldable pub execute : System → ℕ → Bytes → Locals → M (Unit {0})
execute sys ui command l = do
  w ← get
  if (w.users ui).ignore then pure tt else (do
    run_rows sys ui command (length l.process) 0 l.process (record { locals = l; fd_in = 0 })
    if l.line_end_with_pipe then pure tt else emit waited)

-- "decrease line count": only for a line with a token.
unfoldable pub count_down : ℕ → List Bytes → M Bool
count_down ui [] = pure false
count_down ui (t ∷ ts) = decrease_pipes ui

unfoldable pub run_line : System → ℕ → ℤ → Bytes → Bytes → M (Unit {0})
run_line sys ui count line command = do
  flag ← count_down ui (tokens 32 line)
  l ← parse_line sys count ui command (tokens 32 line) (initial_locals flag)
  execute sys ui command l

abbrev pub load_path : ℕ → M (Unit {0})
load_path ui = do w ← get; put (record w { env = set_env (codes "PATH") (w.users ui).path w.env })

-- The line is empty in the batch mode of a new call, and what is returned then was never set.
unfoldable pub read_line : ℕ → Bytes → M Bytes
read_line ui buf = do
  w ← get
  if (w.users ui).batch_flag then fail unset else or_fail (clean_line buf) overrun

unfoldable pub line_or_return : System → ℕ → ℤ → Bytes → Bytes → M (Unit {0})
line_or_return sys ui count command [] = return count
line_or_return sys ui count command (c ∷ s) = run_line sys ui count (c ∷ s) command

unfoldable pub shell_body : System → ℕ → ℤ → Bytes → M (Unit {0})
shell_body sys ui count buf = do
  load_path ui
  line ← read_line ui buf
  command ← or_fail (format_line line) bad_format
  line_or_return sys ui count command line

-- What a call of npshell comes to: its result and the state it leaves.
pub data Outcome : Type 0 where
  returned : ℤ → World → Outcome
  crashed : Fault → Outcome

abbrev pub outcome : ℤ → Step (Unit {0}) → Outcome
outcome count (next _ w) = returned count w
outcome count (stop r w) = returned r w
outcome count (fault e) = crashed e

-- `count` is the result of `read`, and `buf` the array `line` after it.
unfoldable pub npshell : System → ℕ → ℤ → Bytes → World → Outcome
npshell sys ui count buf w = outcome count (shell_body sys ui count buf w)
