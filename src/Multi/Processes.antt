-- ===== src/Multi/Processes.antt =====
-- Processes that run their locked sections, interleaved access by access. sem_wait takes the
-- semaphore where it is not 0, sem_signal gives it back, and the kernel does so (SEM_UNDO) for a
-- process that ends inside its section.
pub mod Lock
use network_programming_nctu.Base.{ℕ, suc, ◌≡◌, List, [], ◌∷◌, update, Bytes, ◌==◌, if◌then◌else◌}
use network_programming_nctu.Statements.{next}
use network_programming_nctu.Multi.Memory.{Memory, Access}
use network_programming_nctu.Multi.Mailbox.{put_row, real_broadcast_msg}
use network_programming_nctu.Multi.Sections.{Section, body}

-- A process is outside, or has these accesses of its section still to do.
pub data Pc : Type 0 where
  outside : Pc
  inside : List Access → Pc
  -- the same, but it has not taken the semaphore
  intruding : List Access → Pc

-- `log` holds the sections that were entered, the newest first.
pub record System : Type 0 where
  pub memory : Memory
  pub clisem : ℕ
  pub pc : ℕ → Pc
  pub log : List Section

-- What is written without the lock.
pub data Unlocked (m : Memory) : Memory → Type 0 where
  -- `strcpy(user[user_index].name, …)`
  renames : (i : ℕ) (name : Bytes) → Unlocked m (put_row m i (record (m.users i) { name = name }))
  -- the handler of SIGUSR1 in the process with this number
  prints : (pid : ℕ) → Unlocked m (real_broadcast_msg m pid).1

-- `Dies` is empty where no process ends inside its section, and `Fails` where no semop of sem_wait is
-- ended by a signal.
pub data Step (Dies Fails : Type 0) (s : System) : System → Type 0 where
  sem_wait :
      (i v : ℕ) (section : Section)
      → s.pc i ≡ outside
      → s.clisem ≡ suc v
      → Step Dies Fails s (record s {
        clisem = v;
        pc = update s.pc i (inside (body section));
        log = section ∷ s.log;
      })
  -- a signal ends the semop that waits: sem_op reports the error and returns
  sem_wait_fails :
      (i : ℕ) (section : Section)
      → Fails
      → s.pc i ≡ outside
      → s.clisem ≡ 0
      → Step Dies Fails s
          (record s { pc = update s.pc i (intruding (body section)); log = section ∷ s.log })
  work :
      (i : ℕ) (a : Access) (rest : List Access) (m : Memory)
      → s.pc i ≡ inside (a ∷ rest)
      → a s.memory ≡ next tt m
      → Step Dies Fails s (record s { memory = m; pc = update s.pc i (inside rest) })
  work_unlocked :
      (i : ℕ) (a : Access) (rest : List Access) (m : Memory)
      → s.pc i ≡ intruding (a ∷ rest)
      → a s.memory ≡ next tt m
      → Step Dies Fails s (record s { memory = m; pc = update s.pc i (intruding rest) })
  sem_signal :
      (i : ℕ)
      → s.pc i ≡ inside []
      → Step Dies Fails s (record s { clisem = suc s.clisem; pc = update s.pc i outside })
  sem_signal_unlocked :
      (i : ℕ)
      → s.pc i ≡ intruding []
      → Step Dies Fails s (record s { clisem = suc s.clisem; pc = update s.pc i outside })
  undo :
      (i : ℕ) (rest : List Access)
      → Dies
      → s.pc i ≡ inside rest
      → Step Dies Fails s (record s { clisem = suc s.clisem; pc = update s.pc i outside })
  -- there is nothing to undo
  ends_unlocked :
      (i : ℕ) (rest : List Access)
      → Dies
      → s.pc i ≡ intruding rest
      → Step Dies Fails s (record s { pc = update s.pc i outside })
  elsewhere : (m : Memory) → Unlocked s.memory m → Step Dies Fails s (record s { memory = m })

-- `sem_create(SEMKEY1, 1)`
abbrev pub init : Memory → System
init m = record { memory = m; clisem = 1; pc = λ _. outside; log = [] }

pub data Reach (Dies Fails : Type 0) (m : Memory) : System → Type 0 where
  start : Reach Dies Fails m (init m)
  later : {s t : System} → Reach Dies Fails m s → Step Dies Fails s t → Reach Dies Fails m t
