-- ===== src/Rwg/Invariant/Serving.antt =====
-- The invariant holds from the start of the server on, whatever arrives.
use network_programming_nctu.Base.{
  ℕ, suc, refl, Option, none, some, List, [], ◌∷◌, Bytes, ℤ, codes, length, same,
}
use network_programming_nctu.Strings.{tokens, format_line}
use network_programming_nctu.Rwg.State.{
  World, waited, Fault, Step, next, stop, fault, M, System, pure, overrun, unset, bad_format, fail,
}
use network_programming_nctu.Rwg.Parse.{Locals, parse_line}
use network_programming_nctu.Rwg.Execute.{Exec, run_process}
use network_programming_nctu.Rwg.Builtins.{
  printenv, setenv, exit_shell, batch, who, tell, yell, name_user,
}
use network_programming_nctu.Rwg.Shell.{
  clean_line, initial_locals, keeping, run_row, run_rows, execute, count_down, run_line, or_fail,
  read_line, line_or_return, shell_body, Outcome, returned, crashed, outcome, npshell,
}
use network_programming_nctu.Rwg.Invariant.{Inv, IsActive}
use network_programming_nctu.Rwg.Invariant.Steps.{
  Keeps, logged-Inv, then-Keeps, decrease_pipes-Keeps,
}
use network_programming_nctu.Rwg.Invariant.Lines.{if-Keeps, parse_line-Keeps}
use network_programming_nctu.Rwg.Invariant.Runs.{emit_unless-Keeps, run_process-Keeps}
use network_programming_nctu.Rwg.Invariant.Commands.{
  printenv-Keeps, setenv-Keeps, exit_shell-Keeps, batch-Keeps, who-Keeps, tell-Keeps, yell-Keeps,
  name_user-Keeps,
}

module _ (sys : System) (ui : ℕ) where
  keeping-Keeps :
      (e : Exec) (m : M (Unit {0})) (w : World) → Keeps ui (m w) → Keeps ui (keeping e m w)
  keeping-Keeps e m w h = then-Keeps ui m _ w h λ _ v iv av. (iv, av)

  run_row-Keeps :
      (command : Bytes) (n prc : ℕ) (argv : List Bytes) (e : Exec) (w : World)
      → Inv w
      → IsActive ui w
      → Keeps ui (run_row sys ui command n prc argv e w)
  unfolding run_row
  run_row-Keeps command n prc [] e w inv act = tt
  run_row-Keeps command n prc (name ∷ args) e w inv act =
      let argv = name ∷ args in
      if-Keeps ui (same name (codes "printenv")) (keeping e (printenv ui argv)) _ w
        (λ _. keeping-Keeps e (printenv ui argv) w (printenv-Keeps ui argv w inv act))
        λ _.
          if-Keeps ui (same name (codes "setenv")) (keeping e (setenv ui argv)) _ w
            (λ _. keeping-Keeps e (setenv ui argv) w (setenv-Keeps ui argv w inv act))
            λ _.
              if-Keeps ui (same name (codes "exit")) (exit_shell ui) _ w
                (λ _. exit_shell-Keeps ui Exec w inv act)
                λ _.
                  if-Keeps ui (same name (codes "batch")) (keeping e (batch sys argv)) _ w
                    (λ _. keeping-Keeps e (batch sys argv) w (batch-Keeps ui sys argv w inv act))
                    λ _.
                      if-Keeps ui (same name (codes "who")) (keeping e (who ui)) _ w
                        (λ _. keeping-Keeps e (who ui) w (who-Keeps ui w inv act))
                        λ _.
                          if-Keeps ui (same name (codes "tell")) (keeping e (tell ui argv)) _ w
                            (λ _. keeping-Keeps e (tell ui argv) w (tell-Keeps ui argv w inv act))
                            λ _.
                              if-Keeps ui (same name (codes "yell")) (keeping e (yell ui argv)) _ w
                                (λ _.
                                  keeping-Keeps e (yell ui argv) w (yell-Keeps ui argv w inv act))
                                λ _.
                                  if-Keeps ui (same name (codes "name"))
                                    (keeping e (name_user ui argv))
                                    (run_process sys ui command n prc argv e) w
                                    (λ _.
                                      keeping-Keeps e (name_user ui argv) w
                                        (name_user-Keeps ui argv w inv act))
                                    (λ _. run_process-Keeps ui sys command n prc argv e w inv act)

  run_rows-Keeps :
      (command : Bytes) (n prc : ℕ) (rows : List (List Bytes)) (e : Exec) (w : World)
      → Inv w
      → IsActive ui w
      → Keeps ui (run_rows sys ui command n prc rows e w)
  unfolding run_rows
  run_rows-Keeps command n prc [] e w inv act = (inv, act)
  run_rows-Keeps command n prc (argv ∷ rows) e w inv act =
      then-Keeps ui (run_row sys ui command n prc argv e) (run_rows sys ui command n (suc prc) rows)
        w (run_row-Keeps command n prc argv e w inv act)
        λ e' v iv av. run_rows-Keeps command n (suc prc) rows e' v iv av

  execute-Keeps :
      (command : Bytes) (l : Locals) (w : World)
      → Inv w
      → IsActive ui w
      → Keeps ui (execute sys ui command l w)
  unfolding execute
  execute-Keeps command l w inv act =
      let e : Exec = record { locals = l; fd_in = 0 } in
      if-Keeps ui (w.users ui).ignore (pure tt) _ w (λ _. (inv, act))
        λ _.
          then-Keeps ui (run_rows sys ui command (length l.process) 0 l.process e) _ w
            (run_rows-Keeps command (length l.process) 0 l.process e w inv act)
            λ _. emit_unless-Keeps ui l.line_end_with_pipe waited

  count_down-Keeps :
      (ts : List Bytes) (w : World) → Inv w → IsActive ui w → Keeps ui (count_down ui ts w)
  unfolding count_down
  count_down-Keeps [] w inv act = (inv, act)
  count_down-Keeps (t ∷ ts) w inv act = decrease_pipes-Keeps ui w inv act

  run_line-Keeps :
      (count : ℤ) (line command : Bytes) (w : World)
      → Inv w
      → IsActive ui w
      → Keeps ui (run_line sys ui count line command w)
  unfolding run_line
  run_line-Keeps count line command w inv act =
      then-Keeps ui (count_down ui (tokens 32 line)) _ w
        (count_down-Keeps (tokens 32 line) w inv act)
        λ flag v iv av.
          then-Keeps ui (parse_line sys count ui command (tokens 32 line) (initial_locals flag)) _ v
            (parse_line-Keeps ui sys count command (tokens 32 line) (initial_locals flag) v iv av)
            λ l. execute-Keeps command l

  or_fail-Keeps :
      (o : Option Bytes) (e : Fault) (w : World) → Inv w → IsActive ui w → Keeps ui (or_fail o e w)
  or_fail-Keeps none e w inv act = tt
  or_fail-Keeps (some s) e w inv act = (inv, act)

  read_line-Keeps :
      (buf : Bytes) (w : World) → Inv w → IsActive ui w → Keeps ui (read_line ui buf w)
  unfolding read_line
  read_line-Keeps buf w inv act =
      if-Keeps ui (w.users ui).batch_flag (fail unset) (or_fail (clean_line buf) overrun) w
        (λ _. tt) (λ _. or_fail-Keeps (clean_line buf) overrun w inv act)

  line_or_return-Keeps :
      (count : ℤ) (command line : Bytes) (w : World)
      → Inv w
      → IsActive ui w
      → Keeps ui (line_or_return sys ui count command line w)
  unfolding line_or_return
  line_or_return-Keeps count command [] w inv act = inv
  line_or_return-Keeps count command (c ∷ s) w inv act =
      run_line-Keeps count (c ∷ s) command w inv act

  shell_body-Keeps :
      (count : ℤ) (buf : Bytes) (w : World)
      → Inv w
      → IsActive ui w
      → Keeps ui (shell_body sys ui count buf w)
  unfolding shell_body
  shell_body-Keeps count buf w inv act =
      then-Keeps ui (read_line ui buf) _ _
        (read_line-Keeps buf _ (logged-Inv w _ refl refl inv) act)
        λ line v iv av.
          then-Keeps ui (or_fail (format_line line) bad_format) _ v
            (or_fail-Keeps (format_line line) bad_format v iv av)
            λ command. line_or_return-Keeps count command line

-- What holds of the state in which a call of npshell returns.
abbrev pub Leaves : (World → Type 0) → Outcome → Type 0
Leaves P (returned r w) = P w
Leaves P (crashed e) = Unit

outcome-Leaves :
    (ui : ℕ) (count : ℤ) (s : Step (Unit {0})) → Keeps ui s → Leaves Inv (outcome count s)
outcome-Leaves ui count (next _ w) h = h.0
outcome-Leaves ui count (stop r w) h = h
outcome-Leaves ui count (fault e) h = tt

-- A line of a user who is there keeps the invariant, wherever npshell returns.
pub npshell-Inv :
    (sys : System) (ui : ℕ) (count : ℤ) (buf : Bytes) (w : World)
    → Inv w
    → IsActive ui w
    → Leaves Inv (npshell sys ui count buf w)
unfolding npshell
npshell-Inv sys ui count buf w inv act =
    outcome-Leaves ui count (shell_body sys ui count buf w)
      (shell_body-Keeps sys ui count buf w inv act)
