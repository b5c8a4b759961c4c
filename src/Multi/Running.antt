-- ===== src/Multi/Running.antt =====
-- The whole server of nctu_np_project2/final: the main process, which fills a row for each client and
-- forks, and the clients' processes, each a Program. Their accesses are interleaved one by one,
-- inside the sections as well, where the lock permits.
pub mod Rows
pub mod Owners
use network_programming_nctu.Base.{
  ℕ, zero, suc, ◌⊎◌, ◌<◌, codes, true, false, not, ◌&&◌, ◌==◌, if◌then◌else◌, ◌≡◌, ◌≢◌, List, [],
  ◌∷◌, Option, none, some, Bytes, update,
}
use network_programming_nctu.Statements.{next, get, ◌>>=◌}
use network_programming_nctu.Multi.Memory.{qlen, User, Memory, Access, set_row}
use network_programming_nctu.Multi.Mailbox.{real_broadcast_msg}
use network_programming_nctu.Multi.Sections.{Section, noting_pid, body}
use network_programming_nctu.Multi.Program.{
  Program, look, locked, renamed, receive, does, Event, wrote, printed, closed,
}
use network_programming_nctu.Multi.Server.{welcome_msg, login_msg}
use network_programming_nctu.Multi.Client.State.{Vars, System}
use network_programming_nctu.Multi.Client.Loop.{npshell}

abbrev pub Rest : Type 0
Rest = Program (Unit {0} × Vars)

-- Where a client's process is: not forked yet, in its program, in a section with these accesses still
-- to do, or at its end.
pub data Phase : Type 0 where
  unborn : Phase
  running : Rest → Phase
  inside : List Access → Rest → Phase
  ended : Phase

-- Where main is in a round of its loop: in `accept`, at a row of its search for a free one, behind that
-- with these writes to a row still to do, or in front of `fork`.
pub data MainPhase : Type 0 where
  awaiting : MainPhase
  searching : (sock : ℕ) (addr : Bytes) (port i : ℕ) → MainPhase
  filling : ℕ → List Access → MainPhase
  forking : ℕ → MainPhase

-- `row` is the index that the process was forked with, and `pid` its number.
pub record Server : Type 0 where
  pub memory : Memory
  pub clisem : ℕ
  pub main : MainPhase
  pub phase : ℕ → Phase
  pub row : ℕ → ℕ
  pub pid : ℕ → ℕ

-- One write of main to a row.
abbrev pub set_field : ℕ → (User → User) → Access
set_field ui f = do m ← get; set_row ui (f (m.users ui))

-- `user[space_ind].valid = 1`
abbrev pub take_row : ℕ → Memory → Memory
take_row i m = record m {
  users = λ j. if j == i then record (m.users i) { valid = true } else m.users j;
}

-- The writes behind the search, one by one.
unfoldable pub fill_writes : ℕ → ℕ → Bytes → ℕ → List Access
fill_writes ui sock addr port =
    set_field ui (λ u. record u { sock = sock })
    ∷ set_field ui (λ u. record u { addr = addr })
    ∷ set_field ui (λ u. record u { name = codes "(no name)" })
    ∷ set_field ui (λ u. record u { port = port })
    ∷ set_field ui (λ u. record u { batch_flag = false })
    ∷ set_field ui (λ u. record u { ignore = false })
    ∷ set_field ui (λ u. record u { receive = false })
    ∷ set_field ui (λ u. record u { msg_count = 0 })
    ∷ []

-- broadcast_login_msg, row by row, without the lock: the rounds that are left, and the index.
unfoldable pub login_rounds : ℕ → ℕ → Rest → Rest
login_rounds zero i k = k
login_rounds (suc n) i k =
    let rest = login_rounds n (suc i) k in
    look (λ m. if (m.users i).valid then does (wrote (m.users i).sock login_msg) rest else rest)

-- The sockets of the other clients.
unfoldable pub close_rounds : ℕ → ℕ → ℕ → Rest → Rest
close_rounds ui zero i k = k
close_rounds ui (suc n) i k =
    let rest = close_rounds ui n (suc i) k in
    look (λ m.
      if (m.users i).valid && not (i == ui) then does (closed (m.users i).sock) rest else rest)

-- The process of a client: it notes its number, greets, and goes into npshell, for so many rounds.
-- The calls of `dup2`, by which it prints to its client, are those of `child_start`.
unfoldable pub client_program : System → ℕ → ℕ → ℕ → List (Bytes × Bytes) → ℕ → Rest
client_program sys sockfd ui pid env n = does (closed sockfd) (
    locked (noting_pid ui pid) (
      does (printed welcome_msg)
        (login_rounds qlen 0 (close_rounds ui qlen 0 (npshell sys ui env n)))))

pub data MainStep (sys : System) (s : Server) : Server → Type 0 where
  accepts :
      (sock : ℕ) (addr : Bytes) (port v : ℕ)
      → s.main ≡ awaiting
      → s.clisem ≡ suc v
      → MainStep sys s (record s { clisem = v; main = searching sock addr port 0 })
  -- the semop that waits fails where a signal comes, sem_op reports it, and main goes on without the lock
  accepts_unlocked :
      (sock : ℕ) (addr : Bytes) (port : ℕ)
      → s.main ≡ awaiting
      → s.clisem ≡ 0
      → MainStep sys s (record s { main = searching sock addr port 0 })
  passes :
      (sock : ℕ) (addr : Bytes) (port i : ℕ)
      → s.main ≡ searching sock addr port i
      → i < qlen
      → (s.memory.users i).valid ≡ true
      → MainStep sys s (record s { main = searching sock addr port (suc i) })
  takes :
      (sock : ℕ) (addr : Bytes) (port i : ℕ)
      → s.main ≡ searching sock addr port i
      → i < qlen
      → (s.memory.users i).valid ≡ false
      → MainStep sys s (record s {
        memory = take_row i s.memory;
        main = filling i (fill_writes i sock addr port);
      })
  -- no row is free: space_ind was never set, and may be anything
  runs_out :
      (sock : ℕ) (addr : Bytes) (port ui : ℕ)
      → s.main ≡ searching sock addr port qlen
      → MainStep sys s (record s { main = filling ui (fill_writes ui sock addr port) })
  fills :
      (ui : ℕ) (a : Access) (rest : List Access) (m : Memory)
      → s.main ≡ filling ui (a ∷ rest)
      → a s.memory ≡ next tt m
      → MainStep sys s (record s { memory = m; main = filling ui rest })
  releases :
      (ui : ℕ)
      → s.main ≡ filling ui []
      → MainStep sys s (record s { clisem = suc s.clisem; main = forking ui })
  forks :
      (p sockfd ui pid : ℕ) (env : List (Bytes × Bytes)) (n : ℕ)
      → s.main ≡ forking ui
      → s.phase p ≡ unborn
      → MainStep sys s (record s {
        main = awaiting;
        phase = update s.phase p (running (client_program sys sockfd ui pid env (suc n)));
        row = update s.row p ui;
        pid = update s.pid p pid;
      })

-- The process goes on with this program.
abbrev pub goes_on : ℕ → Rest → Server → Server
goes_on p k s = record s { phase = update s.phase p (running k) }

pub data ClientStep (p : ℕ) (s : Server) : Server → Type 0 where
  looks :
      (k : Memory → Rest) → s.phase p ≡ running (look k) → ClientStep p s (goes_on p (k s.memory) s)
  waits :
      (section : Section) (k : Rest) (v : ℕ)
      → s.phase p ≡ running (locked section k)
      → s.clisem ≡ suc v
      → ClientStep p s (record s { clisem = v; phase = update s.phase p (inside (body section) k) })
  -- the semop that waits fails where a signal comes, sem_op reports it, and the process goes on without the lock
  enters_unlocked :
      (section : Section) (k : Rest)
      → s.phase p ≡ running (locked section k)
      → s.clisem ≡ 0
      → ClientStep p s (record s { phase = update s.phase p (inside (body section) k) })
  works :
      (a : Access) (rest : List Access) (k : Rest) (m : Memory)
      → s.phase p ≡ inside (a ∷ rest) k
      → a s.memory ≡ next tt m
      → ClientStep p s (record s { memory = m; phase = update s.phase p (inside rest k) })
  signals :
      (k : Rest)
      → s.phase p ≡ inside [] k
      → ClientStep p s (record (goes_on p k s) { clisem = suc s.clisem })
  renames :
      (i : ℕ) (name : Bytes) (k : Rest) (m : Memory)
      → s.phase p ≡ running (renamed i name k)
      → set_row i (record (s.memory.users i) { name = name }) s.memory ≡ next tt m
      → ClientStep p s (record (goes_on p k s) { memory = m })
  receives :
      (k : Bytes → Rest) (bytes : Bytes)
      → s.phase p ≡ running (receive k)
      → ClientStep p s (goes_on p (k bytes) s)
  acts : (e : Event) (k : Rest) → s.phase p ≡ running (does e k) → ClientStep p s (goes_on p k s)
  -- the handler of SIGUSR1
  handles :
      s.phase p ≢ unborn
      → ClientStep p s (record s { memory = (real_broadcast_msg s.memory (s.pid p)).1 })
  -- it returns, or is killed, outside of a section
  ends :
      (k : Rest)
      → s.phase p ≡ running k
      → ClientStep p s (record s { phase = update s.phase p ended })
  -- it is killed inside, and SEM_UNDO gives the semaphore back if the process took it
  undone :
      (rest : List Access) (k : Rest) (v : ℕ)
      → s.phase p ≡ inside rest k
      → (v ≡ s.clisem) ⊎ (v ≡ suc s.clisem)
      → ClientStep p s (record s { clisem = v; phase = update s.phase p ended })

abbrev pub init : Memory → Server
init m = record {
  memory = m;
  clisem = 1;
  main = awaiting;
  phase = λ _. unborn;
  row = λ _. 0;
  pid = λ _. 0;
}

pub data Reach (sys : System) (m : Memory) : Server → Type 0 where
  begin : Reach sys m (init m)
  by_main : {s t : Server} → Reach sys m s → MainStep sys s t → Reach sys m t
  by_client : {s t : Server} (p : ℕ) → Reach sys m s → ClientStep p s t → Reach sys m t

-- Whether main has found a free row in this step, if it looked for one.
abbrev pub HasRoom : {sys : System} {s t : Server} → MainStep sys s t → Type 0
HasRoom (runs_out sock addr port ui e) = ⊥
HasRoom _ = Unit {0}

-- Steps of main, which finds free rows, and of processes that serve another row than `j`.
pub data Others (sys : System) (j : ℕ) (s : Server) : Server → Type 0 where
  nothing : Others sys j s s
  main_too :
      {t u : Server}
      → Others sys j s t
      → (step : MainStep sys t u) → HasRoom step
      → Others sys j s u
  other_too :
      {t u : Server} (p : ℕ) → Others sys j s t → t.row p ≢ j → ClientStep p t u → Others sys j s u
