-- ===== src/Solo/Execute.antt =====
-- The execution loop of npshell, seen from the shell itself: the built-in commands, and what is
-- opened and closed around a fork.
use network_programming_nctu.Base.{
  ℕ, suc, ◌+◌, false, ◌&&◌, ◌||◌, List, [], ◌∷◌, ◌++◌, Option, none, some, Bytes, codes, same, ◌==◌,
  if◌then◌else◌, pos, length, get_elem?,
}
use network_programming_nctu.Statements.{◌>>=◌, ◌>>◌, pure, return, get, put, fail, null_pointer}
use network_programming_nctu.Rwg.State.{printed, closed, forked, waited, ChildOp, set_env, get_env}
use network_programming_nctu.Solo.State.{
  System, Run, emit, close_0_rest_line_pipe_out, make_pipe, drop_pipes,
}
use network_programming_nctu.Solo.Batch.{batch}
use network_programming_nctu.Solo.Parse.{Line}
use network_programming_nctu.Solo.Children.{redirection_child, number_pipe_child, plain_child}

abbrev pub print_value : Option Bytes → Run (Unit {0})
print_value none = pure tt
print_value (some v) = emit (printed (v ++ codes "\n"))

abbrev pub print_variable : Option Bytes → Run (Unit {0})
print_variable none = pure tt
print_variable (some key) = do s ← get; print_value (get_env key s.env)

unfoldable pub printenv : List Bytes → Run (Unit {0})
printenv argv = print_variable (get_elem? argv 1)

abbrev pub set_given : Option Bytes → Option Bytes → Run (Unit {0})
set_given (some key) (some v) = do s ← get; put (record s { env = set_env key v s.env })
set_given _ _ = pure tt

unfoldable pub setenv : List Bytes → Run (Unit {0})
setenv argv = set_given (get_elem? argv 1) (get_elem? argv 2)

abbrev pub fork_child : List ChildOp → List Bytes → Run (Unit {0})
fork_child ops argv = emit (forked (record { ops = ops; argv = argv }))

abbrev pub close_outputs : Run (Unit {0})
close_outputs = do s ← get; close_0_rest_line_pipe_out s.num_pipe_vec

-- The last process of a line: a program of several closes the end that it read from.
unfoldable pub last_parent : ℕ → ℕ → Run (Unit {0})
last_parent n fd_in = do if n == 1 then pure tt else emit (closed fd_in); drop_pipes

unfoldable pub run_redirection : Line → ℕ → List Bytes → ℕ → Run ℕ
run_redirection l n argv fd_in = do
  close_outputs
  s ← get
  fork_child (redirection_child s l fd_in) argv
  last_parent n fd_in
  v ← get
  put (record v { write_file_flag = false })
  pure fd_in

-- The flag of `|N` is cleared; that of `!N` stays.
unfoldable pub run_number_pipe : Line → ℕ → List Bytes → ℕ → Run ℕ
run_number_pipe l n argv fd_in = do
  close_outputs
  s ← get
  fork_child (number_pipe_child s l fd_in) argv
  last_parent n fd_in
  v ← get
  put (record v { num_pipe_out_flag = false })
  pure fd_in

unfoldable pub run_alone : List Bytes → ℕ → Run ℕ
run_alone argv fd_in = do
  close_outputs
  s ← get
  fork_child (plain_child s fd_in (0, 0) 1 0) argv
  drop_pipes
  pure fd_in

unfoldable pub run_piped : System → ℕ → ℕ → List Bytes → ℕ → Run ℕ
run_piped sys n prc argv fd_in = do
  p ← make_pipe sys
  close_outputs
  s ← get
  fork_child (plain_child s fd_in p n prc) argv
  emit (closed p.1)
  if prc + 1 == n then emit (closed p.0) else pure tt
  drop_pipes
  pure p.0

unfoldable pub run_process : System → Line → ℕ → ℕ → List Bytes → ℕ → Run ℕ
run_process sys l n prc argv fd_in = do
  s ← get
  if s.write_file_flag && (prc + 1 == n)
      then run_redirection l n argv fd_in
      else if (s.shock_pipe_out_flag || s.num_pipe_out_flag) && (prc + 1 == n)
      then run_number_pipe l n argv fd_in
      else if n == 1
      then run_alone argv fd_in
      else run_piped sys n prc argv fd_in

-- A built-in command keeps `fd_in`.
abbrev pub keeping : ℕ → Run (Unit {0}) → Run ℕ
keeping fd_in m = do m; pure fd_in

unfoldable pub run_row : System → Line → ℕ → ℕ → List Bytes → ℕ → Run ℕ
run_row sys l n prc [] fd_in = fail null_pointer
run_row sys l n prc (name ∷ args) fd_in =
    let argv = name ∷ args in
    if same name (codes "printenv")
    then keeping fd_in (printenv argv)
    else if same name (codes "setenv")
    then keeping fd_in (setenv argv)
    else if same name (codes "exit")
    then return (pos 0)
    else if same name (codes "batch")
    then keeping fd_in (batch sys argv)
    else run_process sys l n prc argv fd_in

unfoldable pub run_rows : System → Line → ℕ → ℕ → List (List Bytes) → ℕ → Run ℕ
run_rows sys l n prc [] fd_in = pure fd_in
run_rows sys l n prc (argv ∷ rows) fd_in =
    run_row sys l n prc argv fd_in >>= run_rows sys l n (suc prc) rows

unfoldable pub execute : System → Line → Run (Unit {0})
execute sys l = do
  run_rows sys l (length l.process) 0 l.process 0
  if l.line_end_with_pipe then pure tt else emit waited
