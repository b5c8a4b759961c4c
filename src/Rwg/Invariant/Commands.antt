-- ===== src/Rwg/Invariant/Commands.antt =====
-- The built-in commands keep the invariant.
use network_programming_nctu.Base.{
  ℕ, zero, suc, ◌-◌, ◌≡◌, refl, inl, inr, Bool, true, false, Option, none, some, List, ◌++◌, Bytes,
  if◌then◌else◌, codes, length, ltb, leb, drop, get_elem?, arith,
}
use network_programming_nctu.Strings.{atoi}
use network_programming_nctu.Rwg.State.{
  World, Fault, wrote, printed, M, ◌>>◌, System, qlen, deref, require, set_user, overrun, pure,
  get_env, set_env, emit,
}
use network_programming_nctu.Rwg.Users.{
  check_id_exist, check_name_exist, broadcast_msg, id_index, fits, no_user_msg, no_name,
}
use network_programming_nctu.Rwg.Users.Laws.{check_name_exist_free}
use network_programming_nctu.Rwg.Builtins.{
  print_value, print_variable, printenv, set_variable, set_given, setenv, left_msg, clear_record,
  exit_shell, batch, who_row, who_from, who, spaced, told_msg, yelled_msg, stars, tell_user, tell,
  yell, taken_msg, named_msg, take_name, name_given, name_user,
}
use network_programming_nctu.Rwg.Invariant.{Inv, IsActive}
use network_programming_nctu.Rwg.Invariant.Updates.{
  with_user, with_user-Inv, with_user-IsActive, rename-Inv, leave-Inv,
}
use network_programming_nctu.Rwg.Invariant.Steps.{
  Keeps, logged-Inv, require-Keeps, deref-Keeps, then-Keeps, broadcast_msg-Keeps,
}
use network_programming_nctu.Rwg.Invariant.Lines.{if-Keeps}
use network_programming_nctu.Rwg.Invariant.Runs.{emit-Keeps, emit_if-Keeps}

module _ (ui : ℕ) where
  fits-Keeps :
      (size : ℕ) (text : Bytes) (w : World) → Inv w → IsActive ui w → Keeps ui (fits size text w)
  fits-Keeps size text w = require-Keeps ui (ltb (length text) size) overrun w

  -- A check changes nothing, so that what was known before it still holds.
  require-then {ℓ} :
      {A : Type ℓ} (b : Bool) (e : Fault) (m : M A) (w : World)
      → Keeps ui (m w)
      → Keeps ui ((require b e >> m) w)
  require-then true e m w h = h
  require-then false e m w h = tt

  pub printenv-Keeps :
      (argv : List Bytes) (w : World) → Inv w → IsActive ui w → Keeps ui (printenv ui argv w)
  unfolding printenv print_variable print_value
  printenv-Keeps argv w inv act = variable (get_elem? argv 1)
    where
      value : (o : Option Bytes) → Keeps ui (print_value ui o w)
      value none = (inv, act)
      value (some v) =
          then-Keeps ui (fits 200 (v ++ codes "\n")) _ w (fits-Keeps 200 _ w inv act)
            λ _ x. emit-Keeps ui (wrote (x.users ui).sock (v ++ codes "\n")) x

      variable : (o : Option Bytes) → Keeps ui (print_variable ui o w)
      variable none = (inv, act)
      variable (some key) = value (get_env key w.env)

  pub setenv-Keeps :
      (argv : List Bytes) (w : World) → Inv w → IsActive ui w → Keeps ui (setenv ui argv w)
  unfolding setenv set_given set_variable
  setenv-Keeps argv w inv act = given (get_elem? argv 1) (get_elem? argv 2)
    where
      given : (a b : Option Bytes) → Keeps ui (set_given ui a b w)
      given (some key) (some v) =
          let x = record w { env = set_env key v w.env } in
          let ix = logged-Inv w x refl refl inv in
          let u = record (w.users ui) { path = v } in
          require-then (ltb (length v) 200) overrun (set_user ui u) x
            (with_user-Inv x ui u refl refl (ix.pipes ui) ix, with_user-IsActive x ui u ui refl act)
      given none b = (inv, act)
      given (some key) none = (inv, act)

  pub exit_shell-Keeps {ℓ} :
      (A : Type ℓ) (w : World) → Inv w → IsActive ui w → Keeps ui (exit_shell {A = A} ui w)
  unfolding exit_shell
  exit_shell-Keeps A w inv act =
      then-Keeps ui (fits 300 (left_msg (w.users ui).name)) _ w (fits-Keeps 300 _ w inv act)
        λ _ v iv av.
          then-Keeps ui (broadcast_msg (left_msg (w.users ui).name)) _ v
            (broadcast_msg-Keeps ui _ v iv av)
            λ _ x ix ax.
              leave-Inv x ui (record (x.users ui) { valid = false })
                (clear_record (suc ui) x.name_pipe_record) refl (ix.pipes ui)
                (λ a b (i, ea, ha, ta) (j, eb, hb, tb) h. ground arith) (λ a b h. ground arith) ix

  pub batch-Keeps :
      (sys : System) (argv : List Bytes) (w : World)
      → Inv w
      → IsActive ui w
      → Keeps ui (batch sys argv w)
  unfolding batch
  batch-Keeps sys argv w inv act =
      then-Keeps ui (deref (get_elem? argv 1)) _ w (deref-Keeps ui _ w inv act) λ name v iv av.
        then-Keeps ui (fits 100 name) _ v (fits-Keeps 100 name v iv av) λ _ u iu au.
          then-Keeps ui (deref (sys.batch_lines name)) _ u (deref-Keeps ui _ u iu au)
            λ n x. require-Keeps ui (leb n 10) overrun x

  who_from-Keeps :
      (n i sock : ℕ) (w : World) → Inv w → IsActive ui w → Keeps ui (who_from n i sock w)
  unfolding who_from
  who_from-Keeps zero i sock w inv act = (inv, act)
  who_from-Keeps (suc n) i sock w inv act =
      then-Keeps ui
        (if (w.users i).valid then emit (printed (who_row (w.users i) i sock)) else pure tt) _ w
        (emit_if-Keeps ui (w.users i).valid (printed (who_row (w.users i) i sock)) w inv act)
        λ _. who_from-Keeps n (suc i) sock

  pub who-Keeps : (w : World) → Inv w → IsActive ui w → Keeps ui (who ui w)
  unfolding who
  who-Keeps w inv act = who_from-Keeps qlen 0 (w.users ui).sock _ (logged-Inv w _ refl refl inv) act

  tell_user-Keeps :
      (target : ℕ) (text : Bytes) (w : World)
      → Inv w
      → IsActive ui w
      → Keeps ui (tell_user ui target text w)
  unfolding tell_user
  tell_user-Keeps target text w inv act =
      then-Keeps ui (fits 200 text) _ w (fits-Keeps 200 text w inv act) λ _ v iv av.
        then-Keeps ui (fits 200 (stars (told_msg (w.users ui).name text))) _ v
          (fits-Keeps 200 (stars (told_msg (w.users ui).name text)) v iv av)
          λ _. emit-Keeps ui (wrote (w.users target).sock (stars (told_msg (w.users ui).name text)))

  pub tell-Keeps :
      (argv : List Bytes) (w : World) → Inv w → IsActive ui w → Keeps ui (tell ui argv w)
  unfolding tell
  tell-Keeps argv w inv act =
      then-Keeps ui (deref (get_elem? argv 1)) _ w (deref-Keeps ui _ w inv act) λ t v iv av.
        if-Keeps ui (check_id_exist v (atoi t))
          (tell_user ui (id_index (atoi t) - 1) (spaced (drop 2 argv))) _ v
          (λ _. tell_user-Keeps (id_index (atoi t) - 1) (spaced (drop 2 argv)) v iv av)
          (λ _. emit-Keeps ui (printed (no_user_msg (atoi t))) v iv av)

  pub yell-Keeps :
      (argv : List Bytes) (w : World) → Inv w → IsActive ui w → Keeps ui (yell ui argv w)
  unfolding yell
  yell-Keeps argv w inv act =
      let text = spaced (drop 1 argv) in
      let msg = stars (yelled_msg (w.users ui).name text) in
      then-Keeps ui (fits 200 text) _ w (fits-Keeps 200 text w inv act) λ _ v iv av.
        then-Keeps ui (fits 200 msg) _ v (fits-Keeps 200 msg v iv av)
          λ _. broadcast_msg-Keeps ui msg

  take_name-Keeps :
      (new : Bytes) (w : World)
      → check_name_exist w new ≡ false
      → Inv w
      → IsActive ui w
      → Keeps ui (take_name ui new w)
  unfolding take_name
  take_name-Keeps new w free inv act =
      let u = record (w.users ui) { name = new } in
      let named =
        rename-Inv w ui u (λ t. t) (inv.pipes ui)
          (λ k b t. inl (check_name_exist_free w new k free b t)) inv in
      let there = with_user-IsActive w ui u ui refl act in
      require-then (ltb (length new) 30) overrun _ w (
        then-Keeps ui (fits 200 (named_msg new)) _ (with_user w ui u)
          (fits-Keeps 200 _ (with_user w ui u) named there)
          λ _. broadcast_msg-Keeps ui (named_msg new))

  pub name_user-Keeps :
      (argv : List Bytes) (w : World) → Inv w → IsActive ui w → Keeps ui (name_user ui argv w)
  unfolding name_user name_given
  name_user-Keeps argv w inv act = given (get_elem? argv 1)
    where
      given : (o : Option Bytes) → Keeps ui (name_given ui o w)
      given none =
          let u = record (w.users ui) { name = no_name } in
          (
            rename-Inv w ui u (λ t. t) (inv.pipes ui) (λ k b t. inr refl) inv,
            with_user-IsActive w ui u ui refl act,
          )
      given (some new) =
          if-Keeps ui (check_name_exist w new) (emit (printed (taken_msg new))) (take_name ui new) w
            (λ _. emit-Keeps ui (printed (taken_msg new)) w inv act)
            (λ free. take_name-Keeps new w free inv act)
