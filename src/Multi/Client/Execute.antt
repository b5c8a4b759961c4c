-- ===== src/Multi/Client/Execute.antt =====
-- The execution loop of npshell, seen from the client's process.
pub mod Laws
use network_programming_nctu.Base.{
  ℕ, suc, ◌+◌, Bool, false, ◌&&◌, ◌||◌, List, [], ◌∷◌, Option, Bytes, codes, same, ◌==◌,
  if◌then◌else◌, length,
}
use network_programming_nctu.Statements.{unset, null_pointer}
use network_programming_nctu.Multi.Program.{
  Program, closed, forked, waited, ◌>>=◌, ◌>>◌, pure, get, put, emit, or_fail, fail,
}
use network_programming_nctu.Multi.Client.State.{
  Vars, System, Run, close_0_rest_line_pipe_out, make_pipe, drop_inputs,
}
use network_programming_nctu.Multi.Client.Children.{
  redirection_child, number_pipe_child, user_pipe_child, plain_child,
}
use network_programming_nctu.Multi.Client.Builtins.{
  printenv, setenv, exit_shell, batch, who, tell, yell, name_user,
}

abbrev pub close_outputs : Run (Unit {0})
close_outputs = do v ← get; close_0_rest_line_pipe_out v.num_pipe_vec

unfoldable pub last_parent : ℕ → ℕ → Run (Unit {0})
last_parent n fd_in = do if n == 1 then pure tt else emit (closed fd_in); drop_inputs

unfoldable pub run_redirection : ℕ → List Bytes → ℕ → Run ℕ
run_redirection n argv fd_in = do
  close_outputs
  v ← get
  emit (forked (redirection_child v fd_in) argv)
  last_parent n fd_in
  w ← get
  put (record w { write_file_flag = false })
  pure fd_in

-- The flag of `|N` is cleared; that of `!N` stays.
unfoldable pub run_number_pipe : ℕ → List Bytes → ℕ → Run ℕ
run_number_pipe n argv fd_in = do
  close_outputs
  v ← get
  emit (forked (number_pipe_child v fd_in) argv)
  last_parent n fd_in
  w ← get
  put (record w { num_pipe_out_flag = false })
  pure fd_in

unfoldable pub run_user_pipe : ℕ → Bytes → ℕ → List Bytes → ℕ → Run ℕ
run_user_pipe ui command n argv fd_in = do
  close_outputs
  v ← get
  id ← or_fail v.name_pipe_out_id unset
  emit (forked (user_pipe_child v ui id fd_in command) argv)
  last_parent n fd_in
  w ← get
  put (record w { name_pipe_out_flag = false })
  pure fd_in

unfoldable pub run_alone : List Bytes → ℕ → Run ℕ
run_alone argv fd_in = do
  close_outputs
  v ← get
  emit (forked (plain_child v fd_in (0, 0) 1 0) argv)
  drop_inputs
  pure fd_in

unfoldable pub run_piped : System → ℕ → ℕ → List Bytes → ℕ → Run ℕ
run_piped sys n prc argv fd_in = do
  p ← make_pipe sys
  close_outputs
  v ← get
  emit (forked (plain_child v fd_in p n prc) argv)
  emit (closed p.1)
  if prc + 1 == n then emit (closed p.0) else pure tt
  drop_inputs
  pure p.0

unfoldable pub run_process : System → ℕ → Bytes → ℕ → ℕ → List Bytes → ℕ → Run ℕ
run_process sys ui command n prc argv fd_in = do
  v ← get
  if v.write_file_flag && (prc + 1 == n)
      then run_redirection n argv fd_in
      else if (v.shock_pipe_out_flag || v.num_pipe_out_flag) && (prc + 1 == n)
      then run_number_pipe n argv fd_in
      else if v.name_pipe_out_flag && (prc + 1 == n)
      then run_user_pipe ui command n argv fd_in
      else if n == 1
      then run_alone argv fd_in
      else run_piped sys n prc argv fd_in

-- A built-in command keeps `fd_in`.
abbrev pub keeping : ℕ → Run (Unit {0}) → Run ℕ
keeping fd_in m = do m; pure fd_in

unfoldable pub run_row : System → ℕ → ℕ → Bytes → ℕ → ℕ → List Bytes → ℕ → Run ℕ
run_row sys ui sock command n prc [] fd_in = fail null_pointer
run_row sys ui sock command n prc (name ∷ args) fd_in =
    let argv = name ∷ args in
    if same name (codes "printenv")
    then keeping fd_in (printenv ui argv)
    else if same name (codes "setenv")
    then keeping fd_in (setenv argv)
    else if same name (codes "exit")
    then exit_shell ui
    else if same name (codes "batch")
    then keeping fd_in (batch sys argv)
    else if same name (codes "who")
    then keeping fd_in (who sock)
    else if same name (codes "tell")
    then keeping fd_in (tell ui argv)
    else if same name (codes "yell")
    then keeping fd_in (yell ui argv)
    else if same name (codes "name")
    then keeping fd_in (name_user ui argv)
    else run_process sys ui command n prc argv fd_in

unfoldable pub run_rows : System → ℕ → ℕ → Bytes → ℕ → ℕ → List (List Bytes) → ℕ → Run ℕ
run_rows sys ui sock command n prc [] fd_in = pure fd_in
run_rows sys ui sock command n prc (argv ∷ rows) fd_in =
    run_row sys ui sock command n prc argv fd_in >>= run_rows sys ui sock command n (suc prc) rows

abbrev pub wait_all : Run (Unit {0})
wait_all = do v ← get; if v.line_end_with_pipe then pure tt else emit waited

-- "execute process": a line that was refused clears `ignore` instead.
unfoldable pub execute : System → ℕ → ℕ → Bytes → Run (Unit {0})
execute sys ui sock command = do
  v ← get
  if v.ignore
      then put (record v { ignore = false })
      else (run_rows sys ui sock command (length v.process) 0 v.process 0 >> pure tt)
  wait_all
