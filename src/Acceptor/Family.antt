-- ===== src/Acceptor/Family.antt =====
-- The parent and the children of a server, and how a child comes and goes.
use network_programming_nctu.Base.{
  ℕ, suc, ◌≡◌, ◌<◌, ◌≤◌, refl, sym, ap, subst, Bool, true, false, List, [], ◌∷◌, ◌++◌, Option, none,
  some, length, arith, ◌⊎◌,
}
use network_programming_nctu.Acceptor.{
  Process, signal_handler, cancel_signal, start_session, Program, socks_server, http_server,
  sock_child, http_child, child,
}

-- The one process that accepts; it keeps no client's socket, and sees to SIGCHLD.
pub record IsParent (p : Process) : Type 0 where
  pub opened : p.is_open ≡ true
  pub accepting : p.accepting ≡ true
  pub listens : (p.waiting ≡ true) ⊎ (p.reaping ≡ true)
  pub socket : p.socket ≡ none
  pub standard : p.standard ≡ none
  pub sessions : p.sessions ≡ []

-- What the standard output of a client's process leads to.
abbrev pub output_of : Program → ℕ → Option ℕ
output_of socks_server client = none
output_of http_server client = some client

-- The process of this client, which does not accept, and leaves SIGCHLD alone.
pub record IsChild (program : Program) (client : ℕ) (p : Process) : Type 0 where
  pub closed : p.is_open ≡ false
  pub accepting : p.accepting ≡ false
  pub waiting : p.waiting ≡ false
  pub reaping : p.reaping ≡ false
  pub socket : p.socket ≡ none
  pub standard : p.standard ≡ output_of program client
  pub sessions : p.sessions ≡ client ∷ []

-- The processes of clients with falling numbers, all below `n`.
pub data AreChildren (program : Program) : ℕ → List Process → Type 0 where
  no_child : {n : ℕ} → AreChildren program n []
  one_more :
      {n : ℕ} (client : ℕ) (p : Process) (rest : List Process)
      → client < n
      → IsChild program client p
      → AreChildren program client rest
      → AreChildren program n (p ∷ rest)

pub raised :
    (program : Program) (m n : ℕ) (ps : List Process)
    → m ≤ n
    → AreChildren program m ps
    → AreChildren program n ps
raised program m n [] h no_child = no_child
raised program m n (p ∷ ps) h (one_more client _ _ l i hs) = one_more client p ps (omega arith) i hs

-- Where the acceptor is closed, the handler of the wait does nothing else.
cancel_signal-closed :
    (p : Process)
    → cancel_signal (record p { is_open = false }) ≡ record p { is_open = false; waiting = false }
unfolding cancel_signal signal_handler
cancel_signal-closed p = go p.waiting
  where
    go :
        (w : Bool)
        → cancel_signal (record p { is_open = false; waiting = w })
          ≡ record p { is_open = false; waiting = false }
    go true = refl
    go false = refl

pub child-IsChild :
    (program : Program) (client : ℕ) (p : Process)
    → IsParent p
    → p.reaping ≡ false
    → IsChild program client (child program (record p { accepting = false; socket = some client }))
unfolding sock_child http_child start_session
child-IsChild socks_server client p h r =
    subst (λ q. IsChild socks_server client (start_session q))
      (sym (cancel_signal-closed (record p { accepting = false; socket = some client })))
      (record {
        closed = refl;
        accepting = refl;
        waiting = refl;
        reaping = r;
        socket = refl;
        standard = h.standard;
        sessions = ap (λ ks. client ∷ ks) h.sessions;
      })
child-IsChild http_server client p h r =
    subst (λ q. IsChild http_server client (start_session (record q { standard = q.socket })))
      (sym (cancel_signal-closed (record p { accepting = false; socket = some client })))
      (record {
        closed = refl;
        accepting = refl;
        waiting = refl;
        reaping = r;
        socket = refl;
        standard = refl;
        sessions = ap (λ ks. client ∷ ks) h.sessions;
      })

-- Of the processes of clients, some may be gone.
pub without-AreChildren :
    (program : Program) (n : ℕ) (before : List Process) (c : Process) (behind : List Process)
    → AreChildren program n (before ++ c ∷ behind)
    → AreChildren program n (before ++ behind)
without-AreChildren program n [] c behind (one_more client p rest h i hs) =
    raised program client n behind (omega arith) hs
without-AreChildren program n (b ∷ before) c behind (one_more client p rest h i hs) =
    one_more client b (before ++ behind) h i (without-AreChildren program client before c behind hs)

pub length-without :
    (before : List Process) (c : Process) (behind : List Process)
    → length (before ++ c ∷ behind) ≡ suc (length (before ++ behind))
length-without [] c behind = refl
length-without (b ∷ before) c behind = ap suc (length-without before c behind)
