-- ===== src/Rwg/Invariant/Reachable.antt =====
-- The invariant from the start of the server on, whatever the environment brings.
use network_programming_nctu.Base.{
  ℕ, zero, suc, ◌≡◌, refl, inl, inr, ◌&&◌, ◌==◌, Bool-cases, some, Option-cases, List, [], ◌∷◌,
  Bytes, ℤ, pos, ◌==ℤ◌, arith, ltb, length, if_both, first_from_hit,
}
use network_programming_nctu.Rwg.State.{World, attached, System, qlen}
use network_programming_nctu.Rwg.Users.{find_fd_user}
use network_programming_nctu.Rwg.Shell.{Outcome, returned, crashed, npshell}
use network_programming_nctu.Rwg.Server.{
  Server, enter, welcome_text, login_text, find_space, say, login_broadcast, admit, Served, serving,
  broken, accept_client, disconnect, prompt_again, after_shell, serve_fd, Arrival, connects,
  delivers, serve, serve_all, start,
}
use network_programming_nctu.Rwg.Invariant.{Inv, IsActive}
use network_programming_nctu.Rwg.Invariant.Updates.{with_user, rename-Inv}
use network_programming_nctu.Rwg.Invariant.Steps.{logged-Inv}
use network_programming_nctu.Rwg.Invariant.Serving.{Leaves, npshell-Inv}

-- What holds of the server after a step, unless C gives the step no meaning.
abbrev pub Serves : (World → Type 0) → Served → Type 0
Serves P (serving s) = P s.world
Serves P (broken e) = Unit

pub login_broadcast_same :
    (n i : ℕ) (w : World)
    → ((login_broadcast n i w).users ≡ w.users)
      × ((login_broadcast n i w).name_pipe_record ≡ w.name_pipe_record)
unfolding login_broadcast say
login_broadcast_same zero i w = (refl, refl)
login_broadcast_same (suc n) i w = elim (Bool-cases (w.users i).valid) [
  | inl h ↦
      rw (h, login_broadcast) (login_broadcast_same n (suc i) (say (w.users i).sock login_text w))
  | inr h ↦ rw (h, login_broadcast) (login_broadcast_same n (suc i) w)
]

admit-Inv :
    (s : Server) (i ssock : ℕ) (addr : Bytes) (port : ℕ)
    → Inv s.world
    → Inv (admit s i ssock addr port).world
unfolding admit say
admit-Inv s i ssock addr port inv =
    let u = enter (s.world.users i) ssock addr port in
    let entered = rename-Inv s.world i u (λ _. refl) (inv.pipes i) (λ _ _ _. inr refl) inv in
    let v = say ssock welcome_text (with_user s.world i u) in
    let (hu, hr) = login_broadcast_same qlen 0 v in
    logged-Inv (with_user s.world i u) _ hu hr entered

accept_client-Inv :
    (s : Server) (ssock : ℕ) (addr : Bytes) (port : ℕ)
    → Inv s.world
    → Serves Inv (accept_client s ssock addr port)
unfolding accept_client
accept_client-Inv s ssock addr port inv = elim (Option-cases (find_space s.world)) [
  | inl e ↦ rw (e, accept_client) tt
  | inr (i, e) ↦
      rw (e, accept_client)
        (if_both (Serves Inv) (ltb (length addr) 15) (admit-Inv s i ssock addr port inv) tt)
]

after_shell-Inv :
    (fd : ℕ) (afds : List ℕ) (o : Outcome) → Leaves Inv o → Serves Inv (after_shell fd afds o)
unfolding disconnect prompt_again
after_shell-Inv fd afds (returned r w) inv = elim (Bool-cases (r ==ℤ pos 0)) [
  | inl e ↦ rw e (logged-Inv w _ refl refl inv)
  | inr e ↦ rw e (logged-Inv w _ refl refl inv)
]
after_shell-Inv fd afds (crashed e) h = tt

find_fd_user-IsActive : (w : World) (fd ui : ℕ) → find_fd_user w fd ≡ some ui → IsActive ui w
unfolding find_fd_user
find_fd_user-IsActive w fd ui h =
    let (t, _, b) =
      first_from_hit qlen 0 (λ i. (w.users i).valid && ((w.users i).sock == fd)) ui h in
    (omega arith, ground arith)

serve_fd-Inv :
    (sys : System) (s : Server) (fd : ℕ) (count : ℤ) (buf : Bytes)
    → Inv s.world
    → Serves Inv (serve_fd sys s fd count buf)
unfolding serve_fd
serve_fd-Inv sys s fd count buf inv = elim (Option-cases (find_fd_user s.world fd)) [
  | inl e ↦ rw (e, serve_fd) tt
  | inr (ui, e) ↦
      let w = record (s.world) { trace = attached fd ∷ s.world.trace } in
      rw (e, serve_fd)
        (after_shell-Inv fd s.afds (npshell sys ui count buf w) (
          npshell-Inv sys ui count buf w (logged-Inv s.world w refl refl inv)
            (find_fd_user-IsActive s.world fd ui e)))
]

serve-Inv : (sys : System) (s : Server) (a : Arrival) → Inv s.world → Serves Inv (serve sys s a)
unfolding serve
serve-Inv sys s (connects ssock addr port) inv = accept_client-Inv s ssock addr port inv
serve-Inv sys s (delivers fd count buf) inv = serve_fd-Inv sys s fd count buf inv

serve_all-Inv :
    (sys : System) (s : Server) (arrivals : List Arrival)
    → Inv s.world
    → Serves Inv (serve_all sys s arrivals)
unfolding serve_all
serve_all-Inv sys s [] inv = inv
serve_all-Inv sys s (a ∷ rest) inv =
    step (serve sys s a) (serve-Inv sys s a inv) (λ s'. serve_all-Inv sys s' rest)
  where
    step :
        (x : Served)
        → Serves Inv x
        → ((s' : Server) → Inv s'.world → Serves Inv (serve_all sys s' rest))
        → Serves Inv (elim x [ serving s' ↦ serve_all sys s' rest | broken e ↦ broken e ])
    step (serving s') h ih = ih s' h
    step (broken e) h ih = tt

start-Inv : (inherited : List (Bytes × Bytes)) → Inv (start inherited).world
unfolding start
start-Inv inherited = record { live = λ i j h. cc; names = λ i j _ _ v _ _. cc; pipes = λ i. tt }

-- Whatever clients connect and type, as long as the server's behaviour is defined: a recorded user
-- pipe joins two users who are there, two users with the same name are called "(no name)", and no
-- user has two number pipes for one line.
pub serve_all-start-Inv :
    (sys : System) (inherited : List (Bytes × Bytes)) (arrivals : List Arrival)
    → Serves Inv (serve_all sys (start inherited) arrivals)
serve_all-start-Inv sys inherited arrivals =
    serve_all-Inv sys (start inherited) arrivals (start-Inv inherited)
