-- ===== src/Multi/Processes/Lock.antt =====
-- The lock excludes where sem_wait does not fail, and is spoilt where it does.
use network_programming_nctu.Base.{
  ℕ, suc, ◌≡◌, ◌≢◌, refl, sym, ap, ◌∙◌, List, [], ◌∷◌, update, arith,
}
use network_programming_nctu.Statements.{Step as Outcome, next, stop, fault}
use network_programming_nctu.Statements.Ends.{bind_next}
use network_programming_nctu.Multi.Memory.{Memory, Access}
use network_programming_nctu.Multi.Sections.{Section, body, run_all}
use network_programming_nctu.Multi.Processes.{
  Pc, outside, inside, intruding, System, Step, sem_wait, sem_wait_fails, work_unlocked,
  sem_signal_unlocked, init, Reach, start, later,
}

-- Nobody is inside and the semaphore is 1, or one process is and the semaphore is 0.
pub data Holds (s : System) : Type 0 where
  free : s.clisem ≡ 1 → ((i : ℕ) → s.pc i ≡ outside) → Holds s
  held :
      (i : ℕ) (rest : List Access)
      → s.clisem ≡ 0
      → s.pc i ≡ inside rest
      → ((j : ℕ) → j ≢ i → s.pc j ≡ outside)
      → Holds s

update_self : (f : ℕ → Pc) (i : ℕ) (p : Pc) → update f i p i ≡ p
update_self f i p = ground arith

update_other : (f : ℕ → Pc) (i j : ℕ) (p : Pc) → j ≢ i → update f i p j ≡ f j
update_other f i j p h = ground arith

-- The accesses that are left end, one by one.
Finishes : Memory → System → ℕ → Type 0
Finishes m s i =
    (t : System) × Reach ⊥ Unit m t
    × (t.pc i ≡ intruding [])
    × (t.clisem ≡ s.clisem)
    × ((j : ℕ) → j ≢ i → t.pc j ≡ s.pc j)

access_ends :
    (a : Access) (rest : List Access) (m m' : Memory)
    → run_all (a ∷ rest) m ≡ next tt m'
    → (n : Memory) × (a m ≡ next tt n) × (run_all rest n ≡ next tt m')
unfolding run_all
access_ends a rest m m' h = go (a m) refl
  where
    go :
        (o : Outcome Memory (Unit {0}))
        → a m ≡ o
        → (n : Memory) × (a m ≡ next tt n) × (run_all rest n ≡ next tt m')
    go (next tt n) f = (n, f, sym (bind_next a (λ _. run_all rest) m n tt f) ∙ h)
    go (stop x n) f = cc
    go (fault x) f = cc

finishes :
    (m m' : Memory) (rest : List Access) (s : System) (i : ℕ)
    → Reach ⊥ Unit m s
    → s.pc i ≡ intruding rest
    → run_all rest s.memory ≡ next tt m'
    → Finishes m s i
unfolding run_all Finishes
finishes m m' [] s i r e h = (s, r, e, refl, λ j d. refl)
finishes m m' (a ∷ rest) s i r e h =
    let (n, f, g) = access_ends a rest s.memory m' h in
    let (t, reached, done, same, others) =
      finishes m m' rest (record s { memory = n; pc = update s.pc i (intruding rest) }) i
        (later r (work_unlocked i a rest n e f)) (update_self s.pc i _) g in
    (t, reached, done, same, λ j d. others j d ∙ update_other s.pc i j _ d)

-- A signal that ends one waiting semop spoils the lock: while a process is inside its section, another
-- that waits goes into a section that can be run, leaves it, and gives back the semaphore that it did
-- not take; then both can be inside at once, each of them after a semop that took the semaphore.
pub lock_spoilt :
    (m m' : Memory) (first second : Section) (i j : ℕ)
    → i ≢ j
    → run_all (body first) m ≡ next tt m'
    → (t : System) × Reach ⊥ Unit m t
      × (t.pc i ≡ inside (body first))
      × (t.pc j ≡ inside (body second))
unfolding Finishes
lock_spoilt m m' first second i j d h =
    let other = λ (e : j ≡ i). d (sym e) in
    let entered = update (init m).pc j (inside (body second)) in
    let failed = update entered i (intruding (body first)) in
    let (t, reached, done, none, others) =
      finishes m m' (body first) _ i
        (later {s = record (init m) { clisem = 0; pc = entered; log = second ∷ [] }}
          (later start (sem_wait j 0 second refl refl))
          (sem_wait_fails i first tt (update_other (init m).pc j i (inside (body second)) d) refl))
        (update_self entered i (intruding (body first))) h in
    let given = update t.pc i outside in
    (
      _,
      later (later reached (sem_signal_unlocked i done))
          (sem_wait i 0 first (update_self t.pc i outside) (ap suc none)),
      update_self given i (inside (body first)),
      update_other given i j (inside (body first)) other
          ∙ update_other t.pc i j outside other
          ∙ others j other
          ∙ update_other entered i j (intruding (body first)) other
          ∙ update_self (init m).pc j (inside (body second)),
    )
