-- ===== src/Rwg/Invariant/Runs.antt =====
-- Running the rows of a line keeps the invariant.
use network_programming_nctu.Base.{ℕ, ◌+◌, refl, Bool, ◌&&◌, ◌||◌, ◌==◌, List, Bytes, if◌then◌else◌}
use network_programming_nctu.Rwg.State.{World, Event, closed, System, make_pipe, pure, emit}
use network_programming_nctu.Rwg.Pipes.{close_0_rest_line_pipe_out, drop_pipes}
use network_programming_nctu.Rwg.Pipes.Laws.{close_0_rest_line_pipe_out_lem}
use network_programming_nctu.Rwg.Parse.{Locals}
use network_programming_nctu.Rwg.Children.{incoming}
use network_programming_nctu.Rwg.Execute.{
  Exec, close_outputs, drop_inputs, last_parent, run_redirection, run_number_pipe, run_user_pipe,
  run_alone, run_piped, run_process,
}
use network_programming_nctu.Rwg.Invariant.{Inv, IsActive}
use network_programming_nctu.Rwg.Invariant.Steps.{
  Keeps, logged-Inv, then-Keeps, drop_pipes-Keeps, make_pipe-Keeps,
}
use network_programming_nctu.Rwg.Invariant.Lines.{if-Keeps}

module _ (ui : ℕ) where
  pub emit-Keeps : (e : Event) (w : World) → Inv w → IsActive ui w → Keeps ui (emit e w)
  emit-Keeps e w inv act = (logged-Inv w _ refl refl inv, act)

  pub emit_if-Keeps :
      (b : Bool) (e : Event) (w : World)
      → Inv w
      → IsActive ui w
      → Keeps ui ((if b then emit e else pure tt) w)
  emit_if-Keeps b e w inv act =
      if-Keeps ui b (emit e) (pure tt) w (λ _. emit-Keeps e w inv act) (λ _. (inv, act))

  pub emit_unless-Keeps :
      (b : Bool) (e : Event) (w : World)
      → Inv w
      → IsActive ui w
      → Keeps ui ((if b then pure tt else emit e) w)
  emit_unless-Keeps b e w inv act =
      if-Keeps ui b (pure tt) (emit e) w (λ _. (inv, act)) (λ _. emit-Keeps e w inv act)

  close_outputs-Keeps :
      (l : Locals) (w : World) → Inv w → IsActive ui w → Keeps ui (close_outputs ui l w)
  unfolding close_outputs
  close_outputs-Keeps l w inv act =
      then-Keeps ui (close_0_rest_line_pipe_out (w.users ui).num_pipe_vec) _ w
        (rw (close_0_rest_line_pipe_out_lem (w.users ui).num_pipe_vec w)
          (logged-Inv w _ refl refl inv, act))
        λ _ v iv av. emit_if-Keeps l.name_pipe_in_flag (closed (incoming (w.users ui) l).1) v iv av

  drop_inputs-Keeps :
      (l : Locals) (w : World) → Inv w → IsActive ui w → Keeps ui (drop_inputs ui l w)
  unfolding drop_inputs
  drop_inputs-Keeps l w inv act =
      then-Keeps ui (if l.num_pipe_in_flag then drop_pipes ui else pure tt) _ w
        (if-Keeps ui l.num_pipe_in_flag (drop_pipes ui) (pure tt) w
          (λ _. drop_pipes-Keeps ui w inv act) (λ _. (inv, act)))
        λ _ v iv av.
          then-Keeps ui
            (if l.name_pipe_in_flag then emit (closed (incoming (v.users ui) l).0) else pure tt) _ v
            (emit_if-Keeps l.name_pipe_in_flag (closed (incoming (v.users ui) l).0) v iv av)
            λ _ u iu au. (iu, au)

  last_parent-Keeps :
      (n : ℕ) (e : Exec) (w : World) → Inv w → IsActive ui w → Keeps ui (last_parent ui n e w)
  unfolding last_parent
  last_parent-Keeps n e w inv act =
      then-Keeps ui (if n == 1 then pure tt else emit (closed e.fd_in)) _ w
        (emit_unless-Keeps (n == 1) (closed e.fd_in) w inv act) λ _. drop_inputs-Keeps e.locals

  run_redirection-Keeps :
      (n : ℕ) (argv : List Bytes) (e : Exec) (w : World)
      → Inv w
      → IsActive ui w
      → Keeps ui (run_redirection ui n argv e w)
  unfolding run_redirection
  run_redirection-Keeps n argv e w inv act =
      then-Keeps ui (close_outputs ui e.locals) _ w (close_outputs-Keeps e.locals w inv act)
        λ _ v iv av.
          then-Keeps ui (last_parent ui n e) _ _
            (last_parent-Keeps n e _ (logged-Inv v _ refl refl iv) av) λ _ u iu au. (iu, au)

  run_number_pipe-Keeps :
      (n : ℕ) (argv : List Bytes) (e : Exec) (w : World)
      → Inv w
      → IsActive ui w
      → Keeps ui (run_number_pipe ui n argv e w)
  unfolding run_number_pipe
  run_number_pipe-Keeps n argv e w inv act =
      then-Keeps ui (close_outputs ui e.locals) _ w (close_outputs-Keeps e.locals w inv act)
        λ _ v iv av.
          then-Keeps ui (last_parent ui n e) _ _
            (last_parent-Keeps n e _ (logged-Inv v _ refl refl iv) av) λ _ u iu au. (iu, au)

  run_user_pipe-Keeps :
      (command : Bytes) (n : ℕ) (argv : List Bytes) (e : Exec) (w : World)
      → Inv w
      → IsActive ui w
      → Keeps ui (run_user_pipe ui command n argv e w)
  unfolding run_user_pipe
  run_user_pipe-Keeps command n argv e w inv act =
      then-Keeps ui (close_outputs ui e.locals) _ w (close_outputs-Keeps e.locals w inv act)
        λ _ v iv av.
          then-Keeps ui (last_parent ui n e) _ _
            (last_parent-Keeps n e _ (logged-Inv v _ refl refl iv) av) λ _ u iu au. (iu, au)

  run_alone-Keeps :
      (argv : List Bytes) (e : Exec) (w : World)
      → Inv w
      → IsActive ui w
      → Keeps ui (run_alone ui argv e w)
  unfolding run_alone
  run_alone-Keeps argv e w inv act =
      then-Keeps ui (close_outputs ui e.locals) _ w (close_outputs-Keeps e.locals w inv act)
        λ _ v iv av.
          then-Keeps ui (drop_inputs ui e.locals) _ _
            (drop_inputs-Keeps e.locals _ (logged-Inv v _ refl refl iv) av) λ _ u iu au. (iu, au)

  run_piped-Keeps :
      (sys : System) (n prc : ℕ) (argv : List Bytes) (e : Exec) (w : World)
      → Inv w
      → IsActive ui w
      → Keeps ui (run_piped sys ui n prc argv e w)
  unfolding run_piped
  run_piped-Keeps sys n prc argv e w inv act =
      then-Keeps ui (make_pipe sys) _ w (make_pipe-Keeps ui sys w inv act) λ p v iv av.
        then-Keeps ui (close_outputs ui e.locals) _ v (close_outputs-Keeps e.locals v iv av)
          λ _ u iu au.
            then-Keeps ui (if prc + 1 == n then emit (closed p.0) else pure tt) _ _
              (emit_if-Keeps (prc + 1 == n) (closed p.0) _ (logged-Inv u _ refl refl iu) au)
              λ _ x ix ax.
                then-Keeps ui (drop_inputs ui e.locals) _ x (drop_inputs-Keeps e.locals x ix ax)
                  λ _ y iy ay. (iy, ay)

  -- A process of a pipeline, whichever branch forks it.
  pub run_process-Keeps :
      (sys : System) (command : Bytes) (n prc : ℕ) (argv : List Bytes) (e : Exec) (w : World)
      → Inv w
      → IsActive ui w
      → Keeps ui (run_process sys ui command n prc argv e w)
  unfolding run_process
  run_process-Keeps sys command n prc argv e w inv act =
      if-Keeps ui (e.locals.write_file_flag && (prc + 1 == n)) (run_redirection ui n argv e) _ w
        (λ _. run_redirection-Keeps n argv e w inv act)
        λ _.
          if-Keeps ui
            ((e.locals.shock_pipe_out_flag || e.locals.num_pipe_out_flag) && (prc + 1 == n))
            (run_number_pipe ui n argv e) _ w (λ _. run_number_pipe-Keeps n argv e w inv act)
            λ _.
              if-Keeps ui (e.locals.name_pipe_out_flag && (prc + 1 == n))
                (run_user_pipe ui command n argv e) _ w
                (λ _. run_user_pipe-Keeps command n argv e w inv act)
                λ _.
                  if-Keeps ui (n == 1) (run_alone ui argv e) (run_piped sys ui n prc argv e) w
                    (λ _. run_alone-Keeps argv e w inv act)
                    (λ _. run_piped-Keeps sys n prc argv e w inv act)
