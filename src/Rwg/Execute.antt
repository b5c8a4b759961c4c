-- ===== src/Rwg/Execute.antt =====
-- The four branches of npshell that fork a process, seen from the parent: what is opened and
-- closed around the fork, and the flags afterwards. `fork` is repeated until it succeeds.
use network_programming_nctu.Base.{ℕ, ◌+◌, false, ◌&&◌, ◌||◌, List, Bytes, ◌==◌, if◌then◌else◌}
use network_programming_nctu.Rwg.State.{
  closed, forked, ChildOp, M, ◌>>=◌, ◌>>◌, pure, get, emit, System, make_pipe,
}
use network_programming_nctu.Rwg.Pipes.{close_0_rest_line_pipe_out, drop_pipes}
use network_programming_nctu.Rwg.Parse.{Locals}
use network_programming_nctu.Rwg.Children.{
  incoming, redirection_child, number_pipe_child, user_pipe_child, plain_child,
}

-- The variables of the execution loop: those of the line, and `fd_in`.
pub record Exec : Type 0 where
  pub locals : Locals
  pub fd_in : ℕ

-- Before the fork: the write ends of what the child will read are closed.
unfoldable pub close_outputs : ℕ → Locals → M (Unit {0})
close_outputs ui l = do
  w ← get
  close_0_rest_line_pipe_out (w.users ui).num_pipe_vec
  if l.name_pipe_in_flag then emit (closed (incoming (w.users ui) l).1) else pure tt

-- After the fork: the read ends too, and the pipes are gone.
unfoldable pub drop_inputs : ℕ → Locals → M Locals
drop_inputs ui l = do
  if l.num_pipe_in_flag then drop_pipes ui else pure tt
  w ← get
  if l.name_pipe_in_flag then emit (closed (incoming (w.users ui) l).0) else pure tt
  pure (record l { num_pipe_in_flag = false; name_pipe_in_flag = false })

abbrev pub fork_child : List ChildOp → List Bytes → M (Unit {0})
fork_child ops argv = emit (forked (record { ops = ops; argv = argv }))

-- The last process of a line that writes to a file, a number pipe or a user pipe; `n` is
-- process_count.
unfoldable pub last_parent : ℕ → ℕ → Exec → M Locals
last_parent ui n e = do if n == 1 then pure tt else emit (closed e.fd_in); drop_inputs ui e.locals

unfoldable pub run_redirection : ℕ → ℕ → List Bytes → Exec → M Exec
run_redirection ui n argv e = do
  close_outputs ui e.locals
  w ← get
  fork_child (redirection_child (w.users ui) e.locals e.fd_in) argv
  l ← last_parent ui n e
  pure (record e { locals = record l { write_file_flag = false } })

unfoldable pub run_number_pipe : ℕ → ℕ → List Bytes → Exec → M Exec
run_number_pipe ui n argv e = do
  close_outputs ui e.locals
  w ← get
  fork_child (number_pipe_child (w.users ui) e.locals e.fd_in) argv
  l ← last_parent ui n e
  pure (record e { locals = record l { num_pipe_out_flag = false } })

-- `name_pipe_out_flag==1;` at the end of the branch is a comparison: the flag stays.
unfoldable pub run_user_pipe : ℕ → Bytes → ℕ → List Bytes → Exec → M Exec
run_user_pipe ui command n argv e = do
  close_outputs ui e.locals
  w ← get
  fork_child (user_pipe_child w ui e.locals e.fd_in command) argv
  l ← last_parent ui n e
  pure (record e { locals = l })

-- A process with no pipe before or behind it.
unfoldable pub run_alone : ℕ → List Bytes → Exec → M Exec
run_alone ui argv e = do
  close_outputs ui e.locals
  w ← get
  fork_child (plain_child (w.users ui) e.locals e.fd_in (0, 0) 1 0) argv
  l ← drop_inputs ui e.locals
  pure (record e { locals = l })

-- Number `prc` of the `n` processes of a pipeline.
unfoldable pub run_piped : System → ℕ → ℕ → ℕ → List Bytes → Exec → M Exec
run_piped sys ui n prc argv e = do
  p ← make_pipe sys
  close_outputs ui e.locals
  w ← get
  fork_child (plain_child (w.users ui) e.locals e.fd_in p n prc) argv
  emit (closed p.1)
  if prc + 1 == n then emit (closed p.0) else pure tt
  l ← drop_inputs ui e.locals
  pure (record { locals = l; fd_in = p.0 })

unfoldable pub run_process : System → ℕ → Bytes → ℕ → ℕ → List Bytes → Exec → M Exec
run_process sys ui command n prc argv e =
    if e.locals.write_file_flag && (prc + 1 == n)
    then run_redirection ui n argv e
    else if (e.locals.shock_pipe_out_flag || e.locals.num_pipe_out_flag) && (prc + 1 == n)
    then run_number_pipe ui n argv e
    else if e.locals.name_pipe_out_flag && (prc + 1 == n)
    then run_user_pipe ui command n argv e
    else if n == 1
    then run_alone ui argv e
    else run_piped sys ui n prc argv e
