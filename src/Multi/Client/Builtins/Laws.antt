-- ===== src/Multi/Client/Builtins/Laws.antt =====
-- The sections that the built-in commands enter.
use network_programming_nctu.Base.{
  ℕ, zero, suc, ◌-◌, ◌<◌, ◌≡◌, refl, List, Bytes, ℤ, arith, Option, none, some, true,
}
use network_programming_nctu.Rwg.Users.{id_index}
use network_programming_nctu.Multi.Memory.{qlen, Memory, check_id_exist}
use network_programming_nctu.Multi.Sections.{broadcasting, telling, leaving}
use network_programming_nctu.Multi.Program.{section, rename}
use network_programming_nctu.Multi.Program.Laws.{
  calm_rules, Keeps-section, Keeps-rename, Keeps-bind, Keeps-see,
}
use network_programming_nctu.Multi.Client.State.{System}
use network_programming_nctu.Multi.Client.Parse.Laws.{StaysCalm, check_id_exist-range}
use network_programming_nctu.Multi.Client.Builtins.{
  print_value, print_variable, printenv, set_given, setenv, exit_shell, batch, who_from, who,
  tell_user, tell, yell, take_name, name_given, name_user,
}

module _ (ui : ℕ) where
  telling-StaysCalm : (k : ℕ) (msg : Bytes) → k < qlen → StaysCalm ui (section (telling k msg))
  telling-StaysCalm k msg h = Keeps-section _ h

  broadcasting-StaysCalm : (msg : Bytes) → StaysCalm ui (section (broadcasting msg))
  broadcasting-StaysCalm msg = Keeps-section _ tt

  leaving-StaysCalm : StaysCalm ui (section (leaving ui))
  leaving-StaysCalm = Keeps-section _ refl

  rename-StaysCalm : (n : Bytes) → StaysCalm ui (rename ui n)
  rename-StaysCalm n = Keeps-rename ui n refl

  print_value-StaysCalm : (o : Option Bytes) → StaysCalm ui (print_value ui o)
  unfolding print_value
  print_value-StaysCalm none = search calm_rules depth 12
  print_value-StaysCalm (some v) = search calm_rules depth 12

  print_variable-StaysCalm : (o : Option Bytes) → StaysCalm ui (print_variable ui o)
  unfolding print_variable
  print_variable-StaysCalm none = search calm_rules depth 12
  print_variable-StaysCalm (some key) = search (calm_rules, print_value-StaysCalm) depth 12

  pub printenv-StaysCalm : (argv : List Bytes) → StaysCalm ui (printenv ui argv)
  unfolding printenv
  printenv-StaysCalm argv = print_variable-StaysCalm _

  set_given-StaysCalm : (k o : Option Bytes) → StaysCalm ui (set_given k o)
  unfolding set_given
  set_given-StaysCalm none none = search calm_rules depth 12
  set_given-StaysCalm none (some x) = search calm_rules depth 12
  set_given-StaysCalm (some key) none = search calm_rules depth 12
  set_given-StaysCalm (some key) (some x) = search calm_rules depth 12

  pub setenv-StaysCalm : (argv : List Bytes) → StaysCalm ui (setenv argv)
  unfolding setenv
  setenv-StaysCalm argv = set_given-StaysCalm _ _

  pub exit_shell-StaysCalm : {A : Type 0} → StaysCalm ui (exit_shell {A = A} ui)
  unfolding exit_shell
  exit_shell-StaysCalm = search (calm_rules, broadcasting-StaysCalm, leaving-StaysCalm) depth 12

  pub batch-StaysCalm : (sys : System) (argv : List Bytes) → StaysCalm ui (batch sys argv)
  unfolding batch
  batch-StaysCalm sys argv = search calm_rules depth 12

  who_from-StaysCalm : (n i sock : ℕ) → StaysCalm ui (who_from n i sock)
  unfolding who_from
  who_from-StaysCalm zero i sock = search calm_rules depth 12
  who_from-StaysCalm (suc n) i sock =
      Keeps-bind _ _ Keeps-see
        (λ m. Keeps-bind _ _ (search calm_rules) (λ _. who_from-StaysCalm n (suc i) sock))

  pub who-StaysCalm : (sock : ℕ) → StaysCalm ui (who sock)
  unfolding who
  who-StaysCalm sock = search (calm_rules, who_from-StaysCalm) depth 12

  tell_user-StaysCalm : (k : ℕ) (text : Bytes) → k < qlen → StaysCalm ui (tell_user ui k text)
  unfolding tell_user
  tell_user-StaysCalm k text h = search (calm_rules, telling-StaysCalm) depth 12

  tell_found-StaysCalm :
      (m : Memory) (id : ℤ) (text : Bytes)
      → check_id_exist m id ≡ true
      → StaysCalm ui (tell_user ui (id_index id - 1) text)
  tell_found-StaysCalm m id text h =
      let (low, high) = check_id_exist-range m id h in tell_user-StaysCalm _ text (omega arith)

  pub tell-StaysCalm : (argv : List Bytes) → StaysCalm ui (tell ui argv)
  unfolding tell
  tell-StaysCalm argv = search (calm_rules, tell_found-StaysCalm) depth 12

  pub yell-StaysCalm : (argv : List Bytes) → StaysCalm ui (yell ui argv)
  unfolding yell
  yell-StaysCalm argv = search (calm_rules, broadcasting-StaysCalm) depth 12

  take_name-StaysCalm : (n : Bytes) → StaysCalm ui (take_name ui n)
  unfolding take_name
  take_name-StaysCalm n = search (calm_rules, rename-StaysCalm, broadcasting-StaysCalm) depth 12

  name_given-StaysCalm : (o : Option Bytes) → StaysCalm ui (name_given ui o)
  unfolding name_given
  name_given-StaysCalm none = rename-StaysCalm _
  name_given-StaysCalm (some n) = search (calm_rules, take_name-StaysCalm) depth 12

  pub name_user-StaysCalm : (argv : List Bytes) → StaysCalm ui (name_user ui argv)
  unfolding name_user
  name_user-StaysCalm argv = name_given-StaysCalm _
