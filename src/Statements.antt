-- ===== src/Statements.antt =====
-- Statements of a C function over a state: a statement ends, or the function returns from within it,
-- or C gives it no meaning.
pub mod Ends
use network_programming_nctu.Base.{ℕ, Bool, true, false, ℤ, Option, none, some}

-- Why C gives the program no meaning from here on.
pub data Fault : Type 0 where
  -- a NULL handed to strcmp, atoi, strlen or strcpy, or a FILE * that is NULL
  null_pointer : Fault
  -- a write behind the end of an array
  overrun : Fault
  -- a `%` directive with no argument for it
  bad_format : Fault
  -- an automatic variable that is read and was never set
  unset : Fault
  -- an object that is used behind the end of its lifetime
  dangling : Fault

-- `W` is the state, and `A` what the statement leaves.
pub data Step {ℓ} (W : Type 0) (A : Type ℓ) : Type ℓ where
  next : A → W → Step W A
  stop : ℤ → W → Step W A
  fault : Fault → Step W A

abbrev pub M {ℓ} : Type 0 → Type ℓ → Type ℓ
M W A = W → Step W A

infixl 5 ◌>>=◌ ◌>>◌
abbrev pub ◌>>=◌ {ℓ κ} : {W : Type 0} {A : Type ℓ} {B : Type κ} → M W A → (A → M W B) → M W B
◌>>=◌ m f w = elim (m w) [ next a w' ↦ f a w' | stop r w' ↦ stop r w' | fault e ↦ fault e ]

abbrev pub ◌>>◌ {ℓ κ} : {W : Type 0} {A : Type ℓ} {B : Type κ} → M W A → M W B → M W B
m >> k = m >>= λ _. k

abbrev pub pure {ℓ} : {W : Type 0} {A : Type ℓ} → A → M W A
pure a w = next a w

abbrev pub return {ℓ} : {W : Type 0} {A : Type ℓ} → ℤ → M W A
return r w = stop r w

abbrev pub fail {ℓ} : {W : Type 0} {A : Type ℓ} → Fault → M W A
fail e w = fault e

abbrev pub get : {W : Type 0} → M W W
get w = next w w

abbrev pub put : {W : Type 0} → W → M W (Unit {0})
put w' w = next tt w'

-- A test that the program does not make: where it fails, C gives no meaning.
abbrev pub require : {W : Type 0} → Bool → Fault → M W (Unit {0})
require true e = pure tt
require false e = fail e

-- The value of a pointer that is not NULL.
abbrev pub deref {ℓ} : {W : Type 0} {A : Type ℓ} → Option A → M W A
deref none = fail null_pointer
deref (some a) = pure a

abbrev pub or_fail {ℓ} : {W : Type 0} {A : Type ℓ} → Option A → Fault → M W A
or_fail none e = fail e
or_fail (some a) e = pure a
