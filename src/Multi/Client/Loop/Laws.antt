-- ===== src/Multi/Client/Loop/Laws.antt =====
-- What a client's process may do to the rows of the others, and what a line leaves.
use network_programming_nctu.Base.{
  ℕ, zero, suc, ◌≡◌, false, refl, ◌||◌, List, Bytes, Option, none, some,
}
use network_programming_nctu.Strings.{tokens, format_line}
use network_programming_nctu.Statements.{bad_format}
use network_programming_nctu.Solo.Batch.{is_empty}
use network_programming_nctu.Multi.Program.Laws.{
  Runs, Brings-behind, Brings-get, Brings-if, Brings-put, Brings-bind, Keeps-or_fail, keeps_rules,
  calm_rules, Keeps-bind,
}
use network_programming_nctu.Multi.Client.State.{Vars, System}
use network_programming_nctu.Multi.Client.Parse.Laws.{
  Behaves, StaysCalm, EndsCalm, IsAllowed, IsOwn, parse_line-Behaves, decrease_pipes-Behaves,
  start_line-Behaves,
}
use network_programming_nctu.Multi.Client.Execute.Laws.{execute-EndsCalm}
use network_programming_nctu.Multi.Client.Loop.{
  typed_line, next_command, batch_line, read_line, run_line, obey, round, rounds, initial_vars,
  npshell,
}

module _ (ui : ℕ) where
  typed_line-Behaves : (sock : ℕ) → Behaves ui (typed_line sock)
  unfolding typed_line
  typed_line-Behaves sock = search keeps_rules depth 12

  next_command-Behaves : (o : Option Bytes) → Behaves ui (next_command o)
  unfolding next_command
  next_command-Behaves none = search keeps_rules depth 12
  next_command-Behaves (some row) = search keeps_rules depth 12

  batch_line-Behaves : Behaves ui batch_line
  unfolding batch_line
  batch_line-Behaves = search (keeps_rules, next_command-Behaves)

  read_line-Behaves : (sock : ℕ) → Behaves ui (read_line sock)
  unfolding read_line
  read_line-Behaves sock = search (keeps_rules, batch_line-Behaves, typed_line-Behaves)

  run_line-EndsCalm :
      (sys : System) (sock : ℕ) (line command : Bytes) (v : Vars)
      → EndsCalm ui v (run_line sys ui sock line command)
  unfolding run_line
  run_line-EndsCalm sys sock line command v =
      Brings-behind v _ _ (decrease_pipes-Behaves ui (tokens 32 line)) (λ _ w.
        Brings-behind w _ _ (parse_line-Behaves ui sys command (tokens 32 line))
          (λ _ x. execute-EndsCalm ui sys sock command x))

  obey-EndsCalm :
      (sys : System) (sock : ℕ) (line command : Bytes) (v : Vars)
      → EndsCalm ui v (obey sys ui sock line command)
  unfolding obey
  obey-EndsCalm sys sock line command v = Brings-get v _ (
      Brings-if v (is_empty line || v.ignore) _ _ (λ _. Brings-put v _ refl)
        (λ _. run_line-EndsCalm sys sock line command v))

  round-EndsCalm : (sys : System) (sock : ℕ) (v : Vars) → EndsCalm ui v (round sys ui sock)
  unfolding round
  round-EndsCalm sys sock v = Brings-behind v _ _ (start_line-Behaves ui) (λ _ w.
      Brings-behind w _ _ (read_line-Behaves sock) (λ line x.
        Brings-behind x _ _ (Keeps-or_fail (format_line line) bad_format)
          (λ command y. obey-EndsCalm sys sock line command y)))

  rounds-StaysCalm : (sys : System) (sock n : ℕ) → StaysCalm ui (rounds sys ui sock n)
  unfolding rounds
  rounds-StaysCalm sys sock zero = search calm_rules
  rounds-StaysCalm sys sock (suc n) =
      Keeps-bind _ _ (record { at = λ v h. (round-EndsCalm sys sock v).at })
        (λ _. rounds-StaysCalm sys sock n)

  rounds-EndsCalm :
      (sys : System) (sock n : ℕ) (v : Vars) → EndsCalm ui v (rounds sys ui sock (suc n))
  unfolding rounds
  rounds-EndsCalm sys sock n v =
      Brings-bind v _ _ (round-EndsCalm sys sock v) (λ _. rounds-StaysCalm sys sock n)

-- Whatever a client types, for one or more rounds, and whatever the other processes do to the rows in
-- between: the process of the user with index `ui` renames no row but its own, enters no section of
-- the main process, posts a `tell` to one of the 30 rows, clears and sets only records of user pipes
-- from or to itself, for ids from 1 to 30, and frees no row but its own; and after the last round, if
-- the process has not left, `ignore` is clear.
pub npshell-Behaves :
    (sys : System) (ui : ℕ) (env : List (Bytes × Bytes)) (n : ℕ)
    → Runs
        (IsAllowed ui)
        (IsOwn ui)
        (λ (r : Unit {0} × Vars). r.1.ignore ≡ false)
        (npshell sys ui env (suc n))
unfolding npshell
npshell-Behaves sys ui env n =
    λ m. (rounds-EndsCalm ui sys (m.users ui).sock n (initial_vars (m.users ui) env)).at
