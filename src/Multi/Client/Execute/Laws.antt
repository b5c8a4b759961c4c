-- ===== src/Multi/Client/Execute/Laws.antt =====
-- The sections that a line enters while it is run: only those of its built-in commands.
use network_programming_nctu.Base.{ℕ, suc, List, [], ◌∷◌, Bytes, refl}
use network_programming_nctu.Rwg.State.{NumberPipe}
use network_programming_nctu.Multi.Program.Laws.{
  Brings-get, Brings-bind, Brings-if, Brings-put, Brings-Keeps, calm_rules, Keeps-bind,
}
use network_programming_nctu.Multi.Client.State.{
  Vars, System, close_0_rest_line_pipe_out, close_0_rest_line_pipe_in, drop_inputs, make_pipe,
}
use network_programming_nctu.Multi.Client.Parse.Laws.{EndsCalm, StaysCalm}
use network_programming_nctu.Multi.Client.Builtins.Laws.{
  printenv-StaysCalm, setenv-StaysCalm, exit_shell-StaysCalm, batch-StaysCalm, who-StaysCalm,
  tell-StaysCalm, yell-StaysCalm, name_user-StaysCalm,
}
use network_programming_nctu.Multi.Client.Execute.{
  close_outputs, last_parent, run_redirection, run_number_pipe, run_user_pipe, run_alone, run_piped,
  run_process, run_row, run_rows, wait_all, execute,
}

module _ (ui : ℕ) where
  close_out-StaysCalm : (ts : List NumberPipe) → StaysCalm ui (close_0_rest_line_pipe_out ts)
  unfolding close_0_rest_line_pipe_out
  close_out-StaysCalm [] = search calm_rules
  close_out-StaysCalm (t ∷ ts) = Keeps-bind _ _ (search calm_rules) (λ _. close_out-StaysCalm ts)

  close_in-StaysCalm : (ts : List NumberPipe) → StaysCalm ui (close_0_rest_line_pipe_in ts)
  unfolding close_0_rest_line_pipe_in
  close_in-StaysCalm [] = search calm_rules
  close_in-StaysCalm (t ∷ ts) = Keeps-bind _ _ (search calm_rules) (λ _. close_in-StaysCalm ts)

  make_pipe-StaysCalm : (sys : System) → StaysCalm ui (make_pipe sys)
  unfolding make_pipe
  make_pipe-StaysCalm sys = search calm_rules depth 12

  close_outputs-StaysCalm : StaysCalm ui close_outputs
  close_outputs-StaysCalm = search (calm_rules, close_out-StaysCalm)

  drop_inputs-StaysCalm : StaysCalm ui drop_inputs
  unfolding drop_inputs
  drop_inputs-StaysCalm = search (calm_rules, close_in-StaysCalm) depth 12

  last_parent-StaysCalm : (n fd_in : ℕ) → StaysCalm ui (last_parent n fd_in)
  unfolding last_parent
  last_parent-StaysCalm n fd_in = search (calm_rules, drop_inputs-StaysCalm)

  run_redirection-StaysCalm :
      (n : ℕ) (argv : List Bytes) (fd_in : ℕ) → StaysCalm ui (run_redirection n argv fd_in)
  unfolding run_redirection
  run_redirection-StaysCalm n argv fd_in =
      search (calm_rules, close_outputs-StaysCalm, last_parent-StaysCalm) depth 16

  run_number_pipe-StaysCalm :
      (n : ℕ) (argv : List Bytes) (fd_in : ℕ) → StaysCalm ui (run_number_pipe n argv fd_in)
  unfolding run_number_pipe
  run_number_pipe-StaysCalm n argv fd_in =
      search (calm_rules, close_outputs-StaysCalm, last_parent-StaysCalm) depth 16

  run_user_pipe-StaysCalm :
      (command : Bytes) (n : ℕ) (argv : List Bytes) (fd_in : ℕ)
      → StaysCalm ui (run_user_pipe ui command n argv fd_in)
  unfolding run_user_pipe
  run_user_pipe-StaysCalm command n argv fd_in =
      search (calm_rules, close_outputs-StaysCalm, last_parent-StaysCalm) depth 16

  run_alone-StaysCalm : (argv : List Bytes) (fd_in : ℕ) → StaysCalm ui (run_alone argv fd_in)
  unfolding run_alone
  run_alone-StaysCalm argv fd_in =
      search (calm_rules, close_outputs-StaysCalm, drop_inputs-StaysCalm) depth 12

  run_piped-StaysCalm :
      (sys : System) (n prc : ℕ) (argv : List Bytes) (fd_in : ℕ)
      → StaysCalm ui (run_piped sys n prc argv fd_in)
  unfolding run_piped
  run_piped-StaysCalm sys n prc argv fd_in =
      search (calm_rules, make_pipe-StaysCalm, close_outputs-StaysCalm, drop_inputs-StaysCalm) depth
        16

  run_process-StaysCalm :
      (sys : System) (command : Bytes) (n prc : ℕ) (argv : List Bytes) (fd_in : ℕ)
      → StaysCalm ui (run_process sys ui command n prc argv fd_in)
  unfolding run_process
  run_process-StaysCalm sys command n prc argv fd_in =
      search
        (
          calm_rules, run_redirection-StaysCalm, run_number_pipe-StaysCalm, run_user_pipe-StaysCalm,
          run_alone-StaysCalm, run_piped-StaysCalm,
        )
        depth 12

  run_row-StaysCalm :
      (sys : System) (sock : ℕ) (command : Bytes) (n prc : ℕ) (argv : List Bytes) (fd_in : ℕ)
      → StaysCalm ui (run_row sys ui sock command n prc argv fd_in)
  unfolding run_row
  run_row-StaysCalm sys sock command n prc [] fd_in = search calm_rules
  run_row-StaysCalm sys sock command n prc (name ∷ args) fd_in =
      search
        (
          calm_rules, printenv-StaysCalm, setenv-StaysCalm, exit_shell-StaysCalm, batch-StaysCalm,
          who-StaysCalm, tell-StaysCalm, yell-StaysCalm, name_user-StaysCalm, run_process-StaysCalm,
        )
        depth 16

  run_rows-StaysCalm :
      (sys : System) (sock : ℕ) (command : Bytes) (n prc : ℕ) (rows : List (List Bytes)) (fd_in : ℕ)
      → StaysCalm ui (run_rows sys ui sock command n prc rows fd_in)
  unfolding run_rows
  run_rows-StaysCalm sys sock command n prc [] fd_in = search calm_rules
  run_rows-StaysCalm sys sock command n prc (argv ∷ rows) fd_in =
      Keeps-bind _ _ (run_row-StaysCalm sys sock command n prc argv fd_in)
        (run_rows-StaysCalm sys sock command n (suc prc) rows)

  wait_all-StaysCalm : StaysCalm ui wait_all
  wait_all-StaysCalm = search calm_rules

  -- However it begins, it ends with `ignore` clear.
  pub execute-EndsCalm :
      (sys : System) (sock : ℕ) (command : Bytes) (v : Vars)
      → EndsCalm ui v (execute sys ui sock command)
  unfolding execute
  execute-EndsCalm sys sock command v = Brings-get v _ (
      Brings-bind v _ _
        (Brings-if v v.ignore _ _ (λ e. Brings-put v _ refl)
          (λ e. Brings-Keeps v _ e (search (calm_rules, run_rows-StaysCalm))))
        (λ _. wait_all-StaysCalm))
