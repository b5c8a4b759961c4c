-- ===== src/Multi/Server.antt =====
-- np_multi_proc.cpp around its locked sections: main's start, the start of a client's process, and
-- the handlers of SIGCHLD and SIGINT.
use network_programming_nctu.Base.{
  ℕ, zero, suc, false, not, ◌&&◌, Bytes, codes, ◌==◌, if◌then◌else◌, Option, none, some, List, [],
  ◌∷◌, ◌++◌, first_from, ltb, pos,
}
use network_programming_nctu.Strings.Decimal.{decimal}
use network_programming_nctu.Multi.Memory.{qlen, User, Memory}
use network_programming_nctu.Multi.Semaphore.{Values, Outcome, sem_create, sem_close}

-- What a process asks of the system, in order.
pub data Event : Type 0 where
  printed : Bytes → Event
  wrote : ℕ → Bytes → Event
  -- `dup2(newsockfd, …)` onto 0, 1 and 2
  attached : ℕ → Event
  closed : ℕ → Event
  -- `shmdt`, and `shmctl` with IPC_RMID
  detached removed : Event
  -- a call of semaphore.h on clisem
  closes_set : Outcome → Event

-- "initial user": the segment may have been there before, and its other fields stay.
unfoldable pub init_rows : (ℕ → User) → ℕ → User
init_rows users i = if ltb i qlen then record (users i) { valid = false; id = suc i } else users i

-- `sem_create(SEMKEY1, 1)`
unfoldable pub create_clisem : Option Values → Outcome
create_clisem set = sem_create (pos 7891) 1 set

abbrev pub welcome_msg : Bytes
welcome_msg =
    codes "****************************************\n"
    ++ (codes "** Welcome to the information server. **\n"
        ++ codes "****************************************\n")

abbrev pub login_msg : Bytes
login_msg = codes "*** User '(no name)' entered from CGILAB/511. ***\n"

-- The rounds that are left, and the index.
unfoldable pub login_from : ℕ → ℕ → Memory → List Event
login_from zero i m = []
login_from (suc n) i m =
    let rest = login_from n (suc i) m in
    if (m.users i).valid then wrote (m.users i).sock login_msg ∷ rest else rest

unfoldable pub broadcast_login_msg : Memory → List Event
broadcast_login_msg m = login_from qlen 0 m

unfoldable pub close_others : ℕ → ℕ → ℕ → Memory → List Event
close_others space_ind zero i m = []
close_others space_ind (suc n) i m =
    let rest = close_others space_ind n (suc i) m in
    if (m.users i).valid && not (i == space_ind) then closed (m.users i).sock ∷ rest else rest

-- The process of a client up to npshell, behind the section in which it notes its number.
unfoldable pub child_start : ℕ → ℕ → ℕ → Memory → List Event
child_start sockfd newsockfd space_ind m =
    closed sockfd
    ∷ attached newsockfd
    ∷ printed welcome_msg
    ∷ (broadcast_login_msg m ++ close_others space_ind qlen 0 m)

-- Behind npshell, which returns 0 only.
unfoldable pub child_end : ℕ → List Event
child_end newsockfd = closed newsockfd ∷ detached ∷ []

unfoldable pub gone_msg : ℕ → Bytes
gone_msg id = codes "client[" ++ (decimal id ++ codes "]\tis disconnect.\n")

-- The handler of SIGCHLD, where `wait` gave `pid`: no row has this number, and `user[30].id` is
-- what is printed.
unfoldable pub client_exit : ℕ → Memory → List Event
client_exit pid m = elim (first_from qlen 0 (λ i. (m.users i).pid == pid)) [
  | none ↦ printed (gone_msg (m.users qlen).id) ∷ []
  | some i ↦ closed (m.users i).sock ∷ printed (gone_msg (m.users i).id) ∷ []
]

-- The handler of SIGINT.
unfoldable pub server_exit : ℕ → Values → List Event
server_exit sockfd clisem =
    detached
    ∷ removed
    ∷ printed (codes "SEVER QUIT!\n")
    ∷ closed sockfd
    ∷ closes_set (sem_close clisem)
    ∷ []
