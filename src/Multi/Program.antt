-- ===== src/Multi/Program.antt =====
-- What a client's process does, as it meets the others: it looks at the rows without the lock, goes
-- through a section under it, and asks the system. What it sees in the memory may be anything: the
-- other processes work in between.
pub mod Laws
use network_programming_nctu.Base.{
  ℕ, Bool, true, false, List, [], ◌∷◌, Bytes, ℤ, Option, none, some,
}
use network_programming_nctu.Statements.{Fault, null_pointer}
use network_programming_nctu.Multi.Memory.{Memory}
use network_programming_nctu.Multi.Sections.{Section}

-- What a `dup2` duplicates.
pub data Source : Type 0 where
  fd : ℕ → Source
  file : Bytes → Source
  -- the file whose name is an array that nothing has set
  unset_file : Source

-- The statements of a forked child between `fork` and `execvp`.
pub data ChildOp : Type 0 where
  open_write : Source → ChildOp
  open_read : Source → ChildOp
  dup_to : Source → ℕ → ChildOp
  close_fd : ℕ → ChildOp
  -- the message "just piped" of the user with this index to this id, by this command
  announce : ℕ → ℤ → Bytes → ChildOp

pub data Event : Type 0 where
  wrote : ℕ → Bytes → Event
  printed : Bytes → Event
  piped : ℕ × ℕ → Event
  closed : ℕ → Event
  touched : Bytes → Event
  forked : List ChildOp → List Bytes → Event
  waited : Event

pub data Program {ℓ} (A : Type ℓ) : Type ℓ where
  done : A → Program A
  -- npshell returns
  quit : Program A
  crash : Fault → Program A
  look : (Memory → Program A) → Program A
  locked : Section → Program A → Program A
  -- `strcpy(user[user_index].name, …)`, which is done without the lock
  renamed : ℕ → Bytes → Program A → Program A
  -- `read(sock, …)`
  receive : (Bytes → Program A) → Program A
  does : Event → Program A → Program A

abbrev pub and_then {ℓ κ} : {A : Type ℓ} {B : Type κ} → Program A → (A → Program B) → Program B
and_then (done a) f = f a
and_then quit f = quit
and_then (crash e) f = crash e
and_then (look k) f = look (λ m. and_then (k m) f)
and_then (locked s k) f = locked s (and_then k f)
and_then (renamed i n k) f = renamed i n (and_then k f)
and_then (receive k) f = receive (λ b. and_then (k b) f)
and_then (does e k) f = does e (and_then k f)

-- A statement over variables `V`.
abbrev pub Statement {ℓ} : Type 0 → Type ℓ → Type ℓ
Statement V A = V → Program (A × V)

infixl 5 ◌>>=◌ ◌>>◌
unfoldable pub ◌>>=◌ {ℓ κ} :
    {V : Type 0} {A : Type ℓ} {B : Type κ} → Statement V A → (A → Statement V B) → Statement V B
(m >>= f) v = and_then (m v) (λ r. f r.0 r.1)

abbrev pub ◌>>◌ {ℓ κ} :
    {V : Type 0} {A : Type ℓ} {B : Type κ} → Statement V A → Statement V B → Statement V B
m >> k = m >>= λ _. k

unfoldable pub pure {ℓ} : {V : Type 0} {A : Type ℓ} → A → Statement V A
pure a v = done (a, v)

unfoldable pub exit {ℓ} : {V : Type 0} {A : Type ℓ} → Statement V A
exit v = quit

unfoldable pub fail {ℓ} : {V : Type 0} {A : Type ℓ} → Fault → Statement V A
fail e v = crash e

unfoldable pub get : {V : Type 0} → Statement V V
get v = done (v, v)

unfoldable pub put : {V : Type 0} → V → Statement V (Unit {0})
put v' v = done (tt, v')

unfoldable pub see : {V : Type 0} → Statement V Memory
see v = look (λ m. done (m, v))

unfoldable pub section : {V : Type 0} → Section → Statement V (Unit {0})
section s v = locked s (done (tt, v))

unfoldable pub rename : {V : Type 0} → ℕ → Bytes → Statement V (Unit {0})
rename i n v = renamed i n (done (tt, v))

unfoldable pub read_socket : {V : Type 0} → Statement V Bytes
read_socket v = receive (λ b. done (b, v))

unfoldable pub emit : {V : Type 0} → Event → Statement V (Unit {0})
emit e v = does e (done (tt, v))

unfoldable pub require : {V : Type 0} → Bool → Fault → Statement V (Unit {0})
unfolding pure fail
require true e = pure tt
require false e = fail e

unfoldable pub or_fail {ℓ} : {V : Type 0} {A : Type ℓ} → Option A → Fault → Statement V A
unfolding pure fail
or_fail none e = fail e
or_fail (some a) e = pure a

abbrev pub deref {ℓ} : {V : Type 0} {A : Type ℓ} → Option A → Statement V A
deref o = or_fail o null_pointer
