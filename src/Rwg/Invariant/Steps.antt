-- ===== src/Rwg/Invariant/Steps.antt =====
-- The statements that parse a line keep the invariant.
use network_programming_nctu.Base.{
  ℕ, suc, ◌≡◌, refl, sym, ap, ◌∙◌, subst, Bool, true, false, Option, none, some, List, Bytes, ℤ,
}
use network_programming_nctu.Rwg.State.{
  NumberPipe, User, World, Step, M, ◌>>=◌, System, make_pipe, require, deref, set_user, pure, Fault,
}
use network_programming_nctu.Statements.Ends.{Ends, bind-Ends}
use network_programming_nctu.Rwg.Users.{broadcast_msg}
use network_programming_nctu.Rwg.Users.Laws.{broadcast_msg_lem}
use network_programming_nctu.Rwg.Pipes.{
  find_pipe, erase_dead, attach_pipe, attach_to, add_pipe, decrease, decrease_pipes, drop_pipes,
  close_0_rest_line_pipe_in, set_vec,
}
use network_programming_nctu.Rwg.Pipes.Laws.{
  decrease-IsDistinct, erase_dead-IsDistinct, find_pipe-none, push-IsDistinct,
  close_0_rest_line_pipe_in_lem,
}
use network_programming_nctu.Rwg.Invariant.{IsDistinct, Inv, IsActive}
use network_programming_nctu.Rwg.Invariant.Updates.{Inv-same, with_user-Inv, with_user-IsActive}

-- A statement in the line of the user `ui` keeps the invariant, and the user unless it returns.
abbrev pub Keeps {ℓ} : {A : Type ℓ} → ℕ → Step A → Type 0
Keeps ui = Ends (λ _ v. Inv v × IsActive ui v) Inv

-- `Inv` and `IsActive` do not see the trace and the number of pipes made.
pub logged-Inv :
    (w v : World) → v.users ≡ w.users → v.name_pipe_record ≡ w.name_pipe_record → Inv w → Inv v
logged-Inv w v hu hr inv =
    Inv-same w v (λ k. ap (λ (u : ℕ → User). (u k).valid) hu)
      (λ k. ap (λ (u : ℕ → User). (u k).name) hu)
      (λ i j h. ap (λ (r : ℕ → ℕ → Bool). r i j) (sym hr) ∙ h)
      (λ k. subst (λ (u : ℕ → User). IsDistinct (u k).num_pipe_vec) (sym hu) (inv.pipes k)) inv

module _ (ui : ℕ) where
  pub require-Keeps :
      (b : Bool) (e : Fault) (w : World) → Inv w → IsActive ui w → Keeps ui (require b e w)
  require-Keeps true e w inv act = (inv, act)
  require-Keeps false e w inv act = tt

  pub deref-Keeps {ℓ} :
      {A : Type ℓ} (o : Option A) (w : World) → Inv w → IsActive ui w → Keeps ui (deref o w)
  deref-Keeps none w inv act = tt
  deref-Keeps (some a) w inv act = (inv, act)

  -- `>>=` of statements that keep the invariant.
  pub then-Keeps {ℓ κ} :
      {A : Type ℓ} {B : Type κ} (m : M A) (f : A → M B) (w : World)
      → Keeps ui (m w)
      → ((a : A) (v : World) → Inv v → IsActive ui v → Keeps ui (f a v))
      → Keeps ui ((m >>= f) w)
  then-Keeps m f w h k =
      bind-Ends (λ _ v. Inv v × IsActive ui v) (λ _ v. Inv v × IsActive ui v) Inv m f w h
        (λ a v p. k a v p.0 p.1)

  pub pure-Keeps {ℓ} :
      {A : Type ℓ} (a : A) (w : World) → Inv w → IsActive ui w → Keeps ui (pure a w)
  pure-Keeps a w inv act = (inv, act)

  pub broadcast_msg-Keeps :
      (msg : Bytes) (w : World) → Inv w → IsActive ui w → Keeps ui (broadcast_msg msg w)
  broadcast_msg-Keeps msg w inv act =
      rw (broadcast_msg_lem msg w) (logged-Inv w _ refl refl inv, act)

  pub make_pipe-Keeps :
      (sys : System) (w : World) → Inv w → IsActive ui w → Keeps ui (make_pipe sys w)
  unfolding make_pipe
  make_pipe-Keeps sys w inv act = (logged-Inv w _ refl refl inv, act)

  pub set_vec-Keeps :
      (ts : List NumberPipe) (w : World)
      → IsDistinct ts
      → Inv w
      → IsActive ui w
      → Keeps ui (set_user ui (record (w.users ui) { num_pipe_vec = ts }) w)
  set_vec-Keeps ts w d inv act = (
    with_user-Inv w ui (record (w.users ui) { num_pipe_vec = ts }) refl refl d inv,
    with_user-IsActive w ui (record (w.users ui) { num_pipe_vec = ts }) ui refl act,
  )

  pub attach_to-Keeps :
      (sys : System) (n : ℤ) (o : Option NumberPipe) (w : World)
      → find_pipe n (w.users ui).num_pipe_vec ≡ o
      → Inv w
      → IsActive ui w
      → Keeps ui (attach_to sys ui n o w)
  unfolding attach_to add_pipe make_pipe
  attach_to-Keeps sys n (some t) w e inv act = (inv, act)
  attach_to-Keeps sys n none w e inv act =
      set_vec-Keeps _ (record w { made = suc w.made; trace = _ })
        (push-IsDistinct _ _ (find_pipe-none n _ e) (inv.pipes ui)) (logged-Inv w _ refl refl inv)
        act

  pub attach_pipe-Keeps :
      (sys : System) (n : ℤ) (w : World) → Inv w → IsActive ui w → Keeps ui (attach_pipe sys ui n w)
  unfolding attach_pipe
  attach_pipe-Keeps sys n w = attach_to-Keeps sys n _ w refl

  pub decrease_pipes-Keeps : (w : World) → Inv w → IsActive ui w → Keeps ui (decrease_pipes ui w)
  unfolding decrease_pipes
  decrease_pipes-Keeps w inv act =
      set_vec-Keeps (decrease (w.users ui).num_pipe_vec).0 w (decrease-IsDistinct _ (inv.pipes ui))
        inv act

  pub drop_pipes-Keeps : (w : World) → Inv w → IsActive ui w → Keeps ui (drop_pipes ui w)
  unfolding drop_pipes
  drop_pipes-Keeps w inv act =
      then-Keeps (close_0_rest_line_pipe_in (w.users ui).num_pipe_vec)
        (λ _. set_vec ui (erase_dead (w.users ui).num_pipe_vec)) w
        (rw (close_0_rest_line_pipe_in_lem (w.users ui).num_pipe_vec w)
          (logged-Inv w _ refl refl inv, act))
        λ _ v. set_vec-Keeps _ v (erase_dead-IsDistinct _ (inv.pipes ui))
