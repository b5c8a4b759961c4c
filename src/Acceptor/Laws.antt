-- ===== src/Acceptor/Laws.antt =====
-- The parent accepts, each child serves one client, and no child that ended is forgotten.
use network_programming_nctu.Base.{
  ℕ, zero, suc, ◌+◌, ◌≡◌, refl, sym, ap, subst, ◌∙◌, Bool, true, false, none, length, arith, ◌⊎◌,
  inl, inr, Bool-cases, if◌then◌else◌,
}
use network_programming_nctu.Acceptor.{
  Process, wait_for_signal, signal_handler, do_accept, Program, parent, accept_handler,
  start_server, Server, accept_client, Reaps, handles, waits_one, waits_none, Step, accepts,
  accept_fails, child_ends, reaps, Reach, begin, later,
}
use network_programming_nctu.Acceptor.Family.{
  IsParent, AreChildren, no_child, one_more, raised, child-IsChild, without-AreChildren,
  length-without,
}

pub record IsInOrder (program : Program) (s : Server) : Type 0 where
  pub process : IsParent s.process
  pub children : AreChildren program s.accepted s.children
  pub counted : length s.children + s.ended + s.refused ≡ s.accepted
  pub noticed : (s.zombies ≡ 0) ⊎ ((s.signalled ≡ true) ⊎ (s.process.reaping ≡ true))

-- Whatever the handlers of the parent leave.
still-IsParent :
    (p q : Process)
    → IsParent p
    → q.is_open ≡ p.is_open
    → q.accepting ≡ true
    → (q.waiting ≡ true) ⊎ (q.reaping ≡ true)
    → q.socket ≡ none
    → q.standard ≡ p.standard
    → q.sessions ≡ p.sessions
    → IsParent q
still-IsParent p q h a b c d e f = record {
  opened = a ∙ h.opened;
  accepting = b;
  listens = c;
  socket = d;
  standard = e ∙ h.standard;
  sessions = f ∙ h.sessions;
}

signal_handler-open :
    (p : Process)
    → p.is_open ≡ true
    → signal_handler p ≡ record p { waiting = false; reaping = true }
unfolding signal_handler
signal_handler-open p h =
    ap
      (λ b.
        if b then record p { waiting = false; reaping = true } else record p { waiting = false })
      h

accept_client-IsInOrder :
    (program : Program) (forks : Bool) (s : Server)
    → IsInOrder program s
    → s.process.reaping ≡ false
    → IsInOrder program (accept_client program forks s)
unfolding accept_handler parent do_accept
accept_client-IsInOrder program true s inv r = record {
  process = still-IsParent s.process _ inv.process refl refl inv.process.listens refl refl refl;
  children =
      one_more s.accepted _ s.children (omega arith)
        (child-IsChild program s.accepted s.process inv.process r) inv.children;
  counted = let e = inv.counted in omega arith;
  noticed = inv.noticed;
}
accept_client-IsInOrder program false s inv r = record {
  process = still-IsParent s.process _ inv.process refl refl inv.process.listens refl refl refl;
  children = raised program s.accepted (suc s.accepted) s.children (omega arith) inv.children;
  counted = let e = inv.counted in omega arith;
  noticed = inv.noticed;
}

-- The process is another, the children are the same.
with-IsInOrder :
    (program : Program) (s : Server) (p : Process) (n : ℕ) (b : Bool)
    → IsInOrder program s
    → IsParent p
    → (n ≡ 0) ⊎ ((b ≡ true) ⊎ (p.reaping ≡ true))
    → IsInOrder program (record s { process = p; zombies = n; signalled = b })
with-IsInOrder program s p n b inv h e = record {
  process = h;
  children = inv.children;
  counted = inv.counted;
  noticed = e;
}

Reaps-IsInOrder :
    (program : Program) (s t : Server) → Reaps s t → IsInOrder program s → IsInOrder program t
unfolding wait_for_signal
Reaps-IsInOrder program s _ (handles w e) inv =
    subst (λ p. IsInOrder program (record s { process = p; signalled = false }))
      (sym (signal_handler-open s.process inv.process.opened))
      (with-IsInOrder program s _ s.zombies false inv
        (still-IsParent s.process _ inv.process refl inv.process.accepting (inr refl)
          inv.process.socket refl refl)
        (inr (inr refl)))
Reaps-IsInOrder program s _ (waits_one n r e) inv =
    with-IsInOrder program s s.process n s.signalled inv inv.process (inr (inr r))
Reaps-IsInOrder program s _ (waits_none r e) inv =
    with-IsInOrder program s _ s.zombies s.signalled inv
      (still-IsParent s.process _ inv.process refl inv.process.accepting (inl refl)
        inv.process.socket refl refl)
      (inl e)

Step-IsInOrder :
    (program : Program) (s t : Server)
    → Step program s t
    → IsInOrder program s
    → IsInOrder program t
unfolding accept_handler do_accept
Step-IsInOrder program s _ (accepts forks a r) inv = accept_client-IsInOrder program forks s inv r
Step-IsInOrder program s _ (accept_fails a r) inv =
    with-IsInOrder program s _ s.zombies s.signalled inv
      (still-IsParent s.process _ inv.process refl refl inv.process.listens inv.process.socket refl
        refl)
      inv.noticed
Step-IsInOrder program s _ (child_ends before c behind e) inv = record {
  process = inv.process;
  children =
      without-AreChildren program s.accepted before c behind
        (subst (AreChildren program s.accepted) e inv.children);
  counted =
      let counted = inv.counted in
      let fewer = ap length e ∙ length-without before c behind in omega arith;
  noticed = inr (inl refl);
}
Step-IsInOrder program s t (reaps step) inv = Reaps-IsInOrder program s t step inv

-- In whatever order clients come, forks fail, children end and SIGCHLD arrives, in both servers: one
-- process accepts, holds no client's socket, and waits for SIGCHLD or is in its loop over `waitpid`.
-- Each of the others serves one client, no two of them the same; it does not accept and leaves SIGCHLD
-- alone, and its standard input and output are the client's socket in the HTTP server. The clients who
-- have a child, those whose child has ended, and those for whom `fork` failed are as many as were
-- accepted. And where a child has ended and was not waited for, SIGCHLD is still to be handled, or the
-- loop goes on.
pub Reach-IsInOrder : (program : Program) (s : Server) → Reach program s → IsInOrder program s
unfolding start_server do_accept wait_for_signal
Reach-IsInOrder program _ begin = record {
  process = record {
    opened = refl;
    accepting = refl;
    listens = inl refl;
    socket = refl;
    standard = refl;
    sessions = refl;
  };
  children = no_child;
  counted = refl;
  noticed = inl refl;
}
Reach-IsInOrder program t (later {s = s} r step) =
    Step-IsInOrder program s t step (Reach-IsInOrder program s r)

-- A number of steps that the parent takes on its own.
pub data ReapsAll : Server → Server → Type 0 where
  enough : {s : Server} → ReapsAll s s
  one_step : {s t u : Server} → Reaps s t → ReapsAll t u → ReapsAll s u

-- It is through with the children that ended, and can accept.
abbrev pub GetsThrough : Server → Type 0
GetsThrough s =
    (t : Server) × ReapsAll s t
    × (t.zombies ≡ 0)
    × (t.process.reaping ≡ false)
    × (t.children ≡ s.children)

-- The loop over `waitpid` ends.
loop_ends : (n : ℕ) (s : Server) → s.process.reaping ≡ true → s.zombies ≡ n → GetsThrough s
unfolding wait_for_signal
loop_ends zero s r e = (_, one_step (waits_none r e) enough, e, refl, refl)
loop_ends (suc n) s r e =
    let (t, steps, z, f, c) = loop_ends n (record s { zombies = n }) r refl in
    (t, one_step (waits_one n r e) steps, z, f, c)

-- Whatever happened before, and however many SIGCHLD came as one: the parent comes, by its own steps, to
-- where no child that ended is left unwaited for and its loop over `waitpid` is over, and it has touched
-- none of the children that run.
pub zombies_end : (program : Program) (s : Server) → Reach program s → GetsThrough s
zombies_end program s r = elim (Bool-cases s.process.reaping) [
  | inl busy ↦ loop_ends s.zombies s busy refl
  | inr free ↦ elim (Reach-IsInOrder program s r).noticed [
    | inl none_left ↦ (s, enough, none_left, free, refl)
    | inr (inl signalled) ↦ signal_reaps signalled free
    | inr (inr busy) ↦ cc
  ]
]
  where
    inv : IsInOrder program s
    inv = Reach-IsInOrder program s r

    waits : s.process.reaping ≡ false → s.process.waiting ≡ true
    waits free = elim inv.process.listens [ inl w ↦ w | inr busy ↦ cc ]

    signal_reaps : s.signalled ≡ true → s.process.reaping ≡ false → GetsThrough s
    signal_reaps signalled free =
        let caught = record s { process = signal_handler s.process; signalled = false } in
        let busy = ap (λ p. p.reaping) (signal_handler-open s.process inv.process.opened) in
        let (t, steps, z, f, c) = loop_ends s.zombies caught busy refl in
        (t, one_step (handles (waits free) signalled) steps, z, f, c)
