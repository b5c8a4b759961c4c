-- ===== src/Multi/Semaphore.antt =====
-- semaphore.h: a set of three System V semaphores, of which [0] is the one that is used, [1] counts
-- the processes down from BIGCOUNT, and [2] is a lock on the set. That the kernel takes the changes
-- of a process back at its end (SEM_UNDO) is part of the steps of processes, not of these functions.
use network_programming_nctu.Base.{
  ℕ, zero, suc, ◌+◌, ◌-◌, Bool, ◌==◌, leb, ltb, if◌then◌else◌, ℤ, pos, negsuc, ◌==ℤ◌, ◌||◌, Option,
  none, some, List, [], ◌∷◌, update,
}

abbrev pub Values : Type 0
Values = ℕ → ℕ

-- `struct sembuf`
pub record Sembuf : Type 0 where
  pub sem_num : ℕ
  pub sem_op : ℤ

abbrev sembuf : ℕ → ℤ → Sembuf
sembuf n k = record { sem_num = n; sem_op = k }

abbrev pub big_count : ℕ
big_count = 31

unfoldable pub op_lock : List Sembuf
op_lock = sembuf 2 (pos 0) ∷ sembuf 2 (pos 1) ∷ []

unfoldable pub op_unlock : List Sembuf
op_unlock = sembuf 2 (negsuc 0) ∷ []

unfoldable pub op_endcreate : List Sembuf
op_endcreate = sembuf 1 (negsuc 0) ∷ sembuf 2 (negsuc 0) ∷ []

unfoldable pub op_open : List Sembuf
op_open = sembuf 1 (negsuc 0) ∷ []

unfoldable pub op_close : List Sembuf
op_close = sembuf 2 (pos 0) ∷ sembuf 2 (pos 1) ∷ sembuf 1 (pos 1) ∷ []

-- One operation; `none`: it has to wait.
abbrev pub apply : ℕ → ℤ → Values → Option Values
apply n (pos zero) v = if v n == 0 then some v else none
apply n (pos (suc k)) v = some (update v n (v n + suc k))
apply n (negsuc k) v = if leb (suc k) (v n) then some (update v n (v n - suc k)) else none

-- `semop`: all operations of the array, or none of them and the caller waits.
unfoldable pub semop : List Sembuf → Values → Option Values
semop [] v = some v
semop (b ∷ bs) v = elim (apply b.sem_num b.sem_op v) [ none ↦ none | some v' ↦ semop bs v' ]

-- What a call comes to: it returns -1, or waits, or leaves the set so, `none` where it is removed.
pub data Outcome : Type 0 where
  failed waits : Outcome
  leaves : Option Values → Outcome

abbrev pub after : Option Values → Outcome
after none = waits
after (some v) = leaves (some v)

-- IPC_PRIVATE, and the result of an ftok that failed.
abbrev pub bad_key : ℤ → Bool
bad_key key = (key ==ℤ pos 0) || (key ==ℤ negsuc 0)

-- The set is created with zeros; the first process to count finds [1] at 0.
abbrev pub existing : Option Values → Values
existing none = λ _. 0
existing (some v) = v

abbrev pub initialise : ℕ → Values → Values
initialise initval v = if v 1 == 0 then update (update v 0 initval) 1 big_count else v

unfoldable pub create_locked : ℕ → Option Values → Outcome
create_locked initval none = waits
create_locked initval (some v) = after (semop op_endcreate (initialise initval v))

unfoldable pub sem_create : ℤ → ℕ → Option Values → Outcome
sem_create key initval set =
    if bad_key key then failed else create_locked initval (semop op_lock (existing set))

unfoldable pub sem_open : ℤ → Option Values → Outcome
sem_open key none = failed
sem_open key (some v) = if bad_key key then failed else after (semop op_open v)

-- With [1] above BIGCOUNT, the lock stays.
unfoldable pub close_locked : Option Values → Outcome
close_locked none = waits
close_locked (some v) =
    if ltb big_count (v 1)
    then leaves (some v)
    else if v 1 == big_count
    then leaves none
    else after (semop op_unlock v)

unfoldable pub sem_close : Values → Outcome
sem_close v = close_locked (semop op_close v)

unfoldable pub sem_op : ℤ → Values → Outcome
sem_op value v = after (semop (sembuf 0 value ∷ []) v)

unfoldable pub sem_wait : Values → Outcome
sem_wait v = sem_op (negsuc 0) v

unfoldable pub sem_signal : Values → Outcome
sem_signal v = sem_op (pos 1) v
