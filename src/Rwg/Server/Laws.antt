-- ===== src/Rwg/Server/Laws.antt =====
-- Which row a new client gets, and what the end of a connection leaves behind.
use network_programming_nctu.Base.{
  ℕ, ◌<◌, length, ltb, ◌≡◌, refl, ap, ◌∙◌, inl, inr, true, false, not, ◌==◌, none, some,
  Option-cases, [], ◌∷◌, Bytes, codes, ◌⊎◌, pos, ◌==ℤ◌, if◌then◌else◌, arith, first_from,
  first_from_hit, first_from_miss, first_from_least, keep,
}
use network_programming_nctu.Strings.{format_line}
use network_programming_nctu.Rwg.State.{
  World, System, unset, qlen, overrun, attached, detached, closed, set_env, next,
}
use network_programming_nctu.Statements.Ends.{bind_next}
use network_programming_nctu.Rwg.Users.{find_fd_user}
use network_programming_nctu.Rwg.Shell.{
  clean_line, read_line, line_or_return, shell_body, npshell, returned, outcome,
}
use network_programming_nctu.Rwg.Server.{
  Server, enter, find_space, admit, say, serving, broken, accept_client, disconnect, serve_fd,
}
use network_programming_nctu.Rwg.Invariant.Reachable.{login_broadcast_same}

find_space_full :
    (w : World) → ((i : ℕ) → i < qlen → (w.users i).valid ≡ true) → find_space w ≡ none
unfolding find_space
find_space_full w full = elim (Option-cases (first_from qlen 0 (λ i. not (w.users i).valid))) [
  | inl e ↦ e
  | inr (i, e) ↦
      let (t, _, b) = first_from_hit qlen 0 (λ j. not (w.users j).valid) i e in
      cc (rw (full i (omega arith)) at t)
]

-- Every row is in use: a further client is given a row number that was never set.
pub accept_client_full :
    (s : Server) (ssock : ℕ) (addr : Bytes) (port : ℕ)
    → ((i : ℕ) → i < qlen → (s.world.users i).valid ≡ true)
    → accept_client s ssock addr port ≡ broken unset
unfolding accept_client
accept_client_full s ssock addr port full = rw (find_space_full s.world full, accept_client) refl

trichotomy : (a b : ℕ) → (a < b) ⊎ ((a ≡ b) ⊎ (b < a))
trichotomy a b = ground arith

find_space_lem :
    (w : World) (i : ℕ)
    → i < qlen
    → (w.users i).valid ≡ false
    → ((j : ℕ) → j < i → (w.users j).valid ≡ true)
    → find_space w ≡ some i
unfolding find_space
find_space_lem w i b free below =
    elim (Option-cases (first_from qlen 0 (λ j. not (w.users j).valid))) [
      | inl e ↦
          let miss =
            first_from_miss qlen 0 (λ j. not (w.users j).valid) i e (omega arith) (omega arith) in
          cc (rw free at miss)
      | inr (k, e) ↦
          let (t, _, c) = first_from_hit qlen 0 (λ j. not (w.users j).valid) k e in
          elim (trichotomy k i) [
            | inl lt ↦ cc (rw (below k lt) at t)
            | inr (inl eq) ↦ e ∙ ap some eq
            | inr (inr gt) ↦
                let early =
                  first_from_least qlen 0 (λ j. not (w.users j).valid) k i e (omega arith) gt in
                cc (rw free at early)
          ]
    ]

admit_users :
    (s : Server) (i ssock : ℕ) (addr : Bytes) (port : ℕ)
    → (admit s i ssock addr port).world.users
      ≡ (λ j. if j == i then enter (s.world.users i) ssock addr port else s.world.users j)
unfolding admit say
admit_users s i ssock addr port = (login_broadcast_same qlen 0 _).0

-- A client that connects gets the lowest row that is free, as "(no name)" with the path "bin:.", if its address fits;
-- the other rows stay, and so do the number pipes of the row, which are those of the user before.
pub accept_client_lem :
    (s : Server) (i ssock : ℕ) (addr : Bytes) (port : ℕ)
    → i < qlen
    → (s.world.users i).valid ≡ false
    → ((j : ℕ) → j < i → (s.world.users j).valid ≡ true)
    → length addr < 15
    → (t : Server) × (accept_client s ssock addr port ≡ serving t)
      × (t.world.users
          ≡ (λ j. if j == i then enter (s.world.users i) ssock addr port else s.world.users j))
      × ((t.world.users i).num_pipe_vec ≡ (s.world.users i).num_pipe_vec)
      × (t.afds ≡ ssock ∷ s.afds)
unfolding accept_client
accept_client_lem s i ssock addr port b free below short = (
  admit s i ssock addr port,
  rw (find_space_lem s.world i b free below, accept_client)
      (ap (λ c. if c then serving (admit s i ssock addr port) else broken overrun) fits),
  admit_users s i ssock addr port,
  ap (λ f. (f i).num_pipe_vec) (admit_users s i ssock addr port) ∙ ground arith,
  unfold admit in refl,
)
  where
    fits : ltb (length addr) 15 ≡ true
    fits = ground arith

read_line_closed :
    (ui : ℕ) (buf : Bytes) (w : World)
    → (w.users ui).batch_flag ≡ false
    → read_line ui (0 ∷ buf) w ≡ next [] w
unfolding read_line clean_line
read_line_closed ui buf w flag = rw flag refl

-- `read` gave nothing: npshell loads the user's PATH and returns 0.
npshell_closed :
    (sys : System) (ui : ℕ) (buf : Bytes) (w : World)
    → (w.users ui).batch_flag ≡ false
    → npshell sys ui (pos 0) (0 ∷ buf) w
      ≡ returned (pos 0) (record w { env = set_env (codes "PATH") (w.users ui).path w.env })
unfolding npshell shell_body line_or_return format_line
npshell_closed sys ui buf w flag =
    let v = record w { env = set_env (codes "PATH") (w.users ui).path w.env } in
    ap (outcome (pos 0))
      (bind_next (read_line ui (0 ∷ buf)) _ v v [] (read_line_closed ui buf v flag))

-- A client that goes away, in no batch file: `read` gives 0 and the line stays empty. The server turns
-- its standard descriptors to the socket and back, closes the descriptor, asks the system for nothing
-- else and selects the descriptor no more; and every row of `user` stays as it was: the user is still
-- there.
pub serve_fd_closed :
    (sys : System) (s : Server) (fd ui : ℕ) (buf : Bytes)
    → find_fd_user s.world fd ≡ some ui
    → (s.world.users ui).batch_flag ≡ false
    → (t : Server) × (serve_fd sys s fd (pos 0) (0 ∷ buf) ≡ serving t)
      × (t.world.users ≡ s.world.users)
      × (t.world.trace ≡ closed fd ∷ detached ∷ attached fd ∷ s.world.trace)
      × (t.afds ≡ keep (λ a. not (a == fd)) s.afds)
unfolding serve_fd disconnect ◌==ℤ◌
serve_fd_closed sys s fd ui buf e flag = (
  disconnect fd s.afds (record (s.world) {
    trace = attached fd ∷ s.world.trace;
    env = set_env (codes "PATH") (s.world.users ui).path s.world.env;
  }),
  rw
      (
        e,
        serve_fd,
        npshell_closed sys ui buf (record (s.world) { trace = attached fd ∷ s.world.trace }) flag,
      )
      refl,
  unfold disconnect in refl,
  unfold disconnect in refl,
  unfold disconnect in refl,
)
