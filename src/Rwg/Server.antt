-- ===== src/Rwg/Server.antt =====
-- server.cpp: the accept branch and the read branch of the main loop, one readable descriptor at a
-- time. Which descriptors are readable, and what they deliver, is the environment's choice.
pub mod Laws
use network_programming_nctu.Base.{
  ℕ, zero, suc, Bool, true, false, not, List, [], ◌∷◌, ◌++◌, Option, none, some, Bytes, codes, ◌==◌,
  ◌==ℤ◌, if◌then◌else◌, first_from, keep, ltb, length, ℤ, pos,
}
use network_programming_nctu.Rwg.State.{
  User, World, Event, wrote, closed, attached, detached, Fault, unset, overrun, System, qlen,
  set_env,
}
use network_programming_nctu.Rwg.Users.{find_fd_user, no_name}
use network_programming_nctu.Rwg.Shell.{Outcome, returned, crashed, npshell}

-- `afds` without the listening socket.
pub record Server : Type 0 where
  pub world : World
  pub afds : List ℕ

abbrev pub new_path : Bytes
new_path = codes "bin:."

unfoldable pub welcome_text : Bytes
welcome_text =
    codes "****************************************\n"
    ++ (codes "** Welcome to the information server. **\n"
        ++ codes "****************************************\n")

abbrev pub login_text : Bytes
login_text = codes "*** User '(no name)' entered from CGILAB/511. ***\n"

abbrev pub prompt : Bytes
prompt = codes "% "

-- The first row that is free.
unfoldable pub find_space : World → Option ℕ
find_space w = first_from qlen 0 (λ i. not (w.users i).valid)

-- The fields that `accept` sets; `id`, num_pipe_vec and name_pipe are not among them.
abbrev pub enter : User → ℕ → Bytes → ℕ → User
enter u sock addr port = record u {
  valid = true;
  sock = sock;
  path = new_path;
  addr = addr;
  name = no_name;
  port = port;
  batch_flag = false;
  ignore = false;
}

unfoldable pub say : ℕ → Bytes → World → World
say sock msg w = record w { trace = wrote sock msg ∷ w.trace }

-- The loop of broadcast_login_msg, which is that of broadcast_msg.
unfoldable pub login_broadcast : ℕ → ℕ → World → World
login_broadcast zero i w = w
login_broadcast (suc n) i w =
    login_broadcast n (suc i) (if (w.users i).valid then say (w.users i).sock login_text w else w)

unfoldable pub admit : Server → ℕ → ℕ → Bytes → ℕ → Server
admit s i ssock addr port = record {
  world = say ssock prompt (
      login_broadcast qlen 0 (
        say ssock welcome_text (record w {
          users = λ j. if j == i then enter (w.users i) ssock addr port else w.users j;
        })));
  afds = ssock ∷ s.afds;
}
  where
    open s use {world as w}

-- The end of a step of the server: it goes on, or C gives it no meaning.
pub data Served : Type 0 where
  serving : Server → Served
  broken : Fault → Served

-- With no free row, space_ind was never set; an address of fifteen characters, with its NUL, does not
-- fit into addr.
unfoldable pub accept_client : Server → ℕ → Bytes → ℕ → Served
accept_client s ssock addr port = elim (find_space s.world) [
  | none ↦ broken unset
  | some i ↦ if ltb (length addr) 15 then serving (admit s i ssock addr port) else broken overrun
]

-- npshell returned 0: the descriptor is closed, and no row of `user` changes.
unfoldable pub disconnect : ℕ → List ℕ → World → Server
disconnect fd afds w = record {
  world = record w { trace = closed fd ∷ detached ∷ w.trace };
  afds = keep (λ a. not (a == fd)) afds;
}

unfoldable pub prompt_again : ℕ → List ℕ → World → Server
prompt_again fd afds w = record {
  world = record w { trace = detached ∷ wrote fd prompt ∷ w.trace };
  afds = afds;
}

abbrev pub after_shell : ℕ → List ℕ → Outcome → Served
after_shell fd afds (returned r w) =
    serving (if r ==ℤ pos 0 then disconnect fd afds w else prompt_again fd afds w)
after_shell fd afds (crashed e) = broken e

-- A readable descriptor; user[-1] where no row has it.
unfoldable pub serve_fd : System → Server → ℕ → ℤ → Bytes → Served
serve_fd sys s fd count buf = elim (find_fd_user s.world fd) [
  | none ↦ broken overrun
  | some ui ↦
      after_shell fd s.afds (npshell sys ui count buf (record w { trace = attached fd ∷ w.trace }))
]
  where
    open s use {world as w}

-- What the environment brings to the loop.
pub data Arrival : Type 0 where
  connects : (ssock : ℕ) (addr : Bytes) (port : ℕ) → Arrival
  delivers : (fd : ℕ) (count : ℤ) (buf : Bytes) → Arrival

unfoldable pub serve : System → Server → Arrival → Served
serve sys s (connects ssock addr port) = accept_client s ssock addr port
serve sys s (delivers fd count buf) = serve_fd sys s fd count buf

-- The loop, over what arrives.
unfoldable pub serve_all : System → Server → List Arrival → Served
serve_all sys s [] = serving s
serve_all sys s (a ∷ rest) = elim (serve sys s a) [
  | serving s' ↦ serve_all sys s' rest
  | broken e ↦ broken e
]

abbrev pub blank_user : ℕ → User
blank_user i = record {
  valid = false;
  id = suc i;
  sock = 0;
  path = [];
  addr = [];
  name = [];
  port = 0;
  batch_flag = false;
  ignore = false;
  num_pipe_vec = [];
  name_pipe = λ _. (0, 0);
}

-- The globals at the head of the loop; the environment that the server was started with stays, but for
-- PATH.
unfoldable pub start : List (Bytes × Bytes) → Server
start inherited = record {
  world = record {
    users = blank_user;
    name_pipe_record = λ _ _. false;
    env = set_env (codes "PATH") new_path inherited;
    made = 0;
    trace = [];
  };
  afds = [];
}
