-- ===== src/Acceptor.antt =====
-- How two servers take their clients: TcpConnection of nctu_np_project3/http_server.cpp and SockServer
-- of nctu_np_project4/socks_server.cpp. Each client is accepted by the parent and served by a child.
pub mod Family
pub mod Laws
use network_programming_nctu.Base.{
  ℕ, zero, suc, ◌≡◌, Bool, true, false, List, [], ◌∷◌, ◌++◌, Option, none, some, if◌then◌else◌,
}

-- A process as asio keeps it. Descriptors are named by the clients that they lead to, who are counted
-- from 0.
pub record Process : Type 0 where
  -- `_acceptor.is_open()`
  pub is_open : Bool
  -- an `async_accept` has not completed
  pub accepting : Bool
  -- an `async_wait` has not completed
  pub waiting : Bool
  -- the handler of SIGCHLD is in its loop
  pub reaping : Bool
  pub socket : Option ℕ
  -- what `dup2` made of the descriptors 0 and 1
  pub standard : Option ℕ
  -- the clients for whom `start` was called
  pub sessions : List ℕ

unfoldable pub wait_for_signal : Process → Process
wait_for_signal p = record p { waiting = true }

-- The handler of `async_wait`, up to its loop over `waitpid`; it does not look at the error code.
unfoldable pub signal_handler : Process → Process
signal_handler p =
    if p.is_open then record p { waiting = false; reaping = true } else record p { waiting = false }

-- `_signal.cancel()`: the handler of a wait that has not completed is called.
unfoldable pub cancel_signal : Process → Process
cancel_signal p = if p.waiting then signal_handler p else p

unfoldable pub do_accept : Process → Process
do_accept p = record p { accepting = true }

-- `make_shared<…>(move(_socket))->start()`
unfoldable pub start_session : Process → Process
start_session p = elim p.socket [
  | none ↦ p
  | some client ↦ record p { socket = none; sessions = client ∷ p.sessions }
]

pub data Program : Type 0 where
  socks_server http_server : Program

-- The child of the SOCKS server.
unfoldable pub sock_child : Process → Process
sock_child p = start_session (cancel_signal (record p { is_open = false }))

-- The child of the HTTP server, whose standard input and output are the socket.
unfoldable pub http_child : Process → Process
http_child p =
    let q = cancel_signal (record p { is_open = false }) in
    start_session (record q { standard = q.socket })

abbrev pub child : Program → Process → Process
child socks_server p = sock_child p
child http_server p = http_child p

-- The other branch: in the parent, and where `fork` fails.
unfoldable pub parent : Process → Process
parent p = do_accept (record p { socket = none })

-- The handler of `async_accept`: `none` stands for an error, `forks` says whether `fork` succeeds. What
-- becomes of the process, and the child.
unfoldable pub accept_handler : Program → Option ℕ → Bool → Process → Process × Option Process
accept_handler program none forks p = (do_accept (record p { accepting = false }), none)
accept_handler program (some client) forks p =
    let q = record p { accepting = false; socket = some client } in
    (parent q, if forks then some (child program q) else none)

-- The constructor.
unfoldable pub start_server : Process
start_server = do_accept (
    wait_for_signal (record {
      is_open = true;
      accepting = false;
      waiting = false;
      reaping = false;
      socket = none;
      standard = none;
      sessions = [];
    }))

-- The server's process, its children, those of them that ended and were not waited for, and whether
-- SIGCHLD has come and has no handler yet. The last three count: who was accepted, whose `fork`
-- failed, and the children that ended.
pub record Server : Type 0 where
  pub process : Process
  pub children : List Process
  pub zombies : ℕ
  pub signalled : Bool
  pub accepted : ℕ
  pub refused : ℕ
  pub ended : ℕ

abbrev pub joined_by : Option Process → List Process → List Process
joined_by none children = children
joined_by (some c) children = c ∷ children

-- A client is accepted.
abbrev pub accept_client : Program → Bool → Server → Server
accept_client program forks s =
    let r = accept_handler program (some s.accepted) forks s.process in
    record s {
      process = r.0;
      children = joined_by r.1 s.children;
      accepted = suc s.accepted;
      refused = if forks then s.refused else suc s.refused;
    }

-- What the server's process does about SIGCHLD; `waitpid` gives a child's number, or none.
pub data Reaps (s : Server) : Server → Type 0 where
  handles :
      s.process.waiting ≡ true
      → s.signalled ≡ true
      → Reaps s (record s { process = signal_handler s.process; signalled = false })
  waits_one :
      (n : ℕ) → s.process.reaping ≡ true → s.zombies ≡ suc n → Reaps s (record s { zombies = n })
  waits_none :
      s.process.reaping ≡ true
      → s.zombies ≡ 0
      → Reaps s (record s { process = wait_for_signal (record s.process { reaping = false }) })

-- The handlers of a process run one at a time; a child may end at any time.
pub data Step (program : Program) (s : Server) : Server → Type 0 where
  accepts :
      (forks : Bool)
      → s.process.accepting ≡ true
      → s.process.reaping ≡ false
      → Step program s (accept_client program forks s)
  accept_fails :
      s.process.accepting ≡ true
      → s.process.reaping ≡ false
      → Step program s (record s { process = (accept_handler program none false s.process).0 })
  child_ends :
      (before : List Process) (c : Process) (behind : List Process)
      → s.children ≡ before ++ c ∷ behind
      → Step program s (record s {
        children = before ++ behind;
        zombies = suc s.zombies;
        signalled = true;
        ended = suc s.ended;
      })
  reaps : {t : Server} → Reaps s t → Step program s t

abbrev pub first : Server
first = record {
  process = start_server;
  children = [];
  zombies = 0;
  signalled = false;
  accepted = 0;
  refused = 0;
  ended = 0;
}

pub data Reach (program : Program) : Server → Type 0 where
  begin : Reach program first
  later : {s t : Server} → Reach program s → Step program s t → Reach program t
