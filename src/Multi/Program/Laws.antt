-- ===== src/Multi/Program/Laws.antt =====
-- What holds of a program whatever it reads, and whatever the other processes do in between: one
-- rule for each way to build a statement.
use network_programming_nctu.Base.{
  ℕ, ◌≡◌, refl, Bool, true, false, Bytes, Option, none, some, if◌then◌else◌,
}
use network_programming_nctu.Statements.{Fault}
use network_programming_nctu.Multi.Memory.{Memory}
use network_programming_nctu.Multi.Sections.{Section}
use network_programming_nctu.Multi.Program.{
  Program, done, quit, crash, look, locked, renamed, receive, does, and_then, Statement, Event,
  ◌>>=◌, pure, exit, fail, get, put, see, section, rename, read_socket, emit, require, or_fail,
}

-- Nothing is said of the variables.
abbrev pub Any : {A : Type 0} → A → Type 0
Any a = Unit {0}

module _ (S : Section → Type 0) (N : ℕ → Type 0) where
  -- Each section that is entered is of `S`, each row that is renamed of `N`, and `P` holds at the end.
  abbrev pub Runs : {A : Type 0} → (A → Type 0) → Program A → Type 0
  Runs P (done a) = P a
  Runs P quit = Unit {0}
  Runs P (crash e) = Unit {0}
  Runs P (look k) = (m : Memory) → Runs P (k m)
  Runs P (locked s k) = S s × Runs P k
  Runs P (renamed i n k) = N i × Runs P k
  Runs P (receive k) = (b : Bytes) → Runs P (k b)
  Runs P (does e k) = Runs P k

  pub Runs-and_then :
      {A B : Type 0} (P : A → Type 0) (Q : B → Type 0) (m : Program A) (f : A → Program B)
      → Runs P m
      → ((a : A) → P a → Runs Q (f a))
      → Runs Q (and_then m f)
  Runs-and_then P Q (done a) f h k = k a h
  Runs-and_then P Q quit f h k = tt
  Runs-and_then P Q (crash e) f h k = tt
  Runs-and_then P Q (look g) f h k = λ m. Runs-and_then P Q (g m) f (h m) k
  Runs-and_then P Q (locked s g) f (o, h) k = (o, Runs-and_then P Q g f h k)
  Runs-and_then P Q (renamed i n g) f (o, h) k = (o, Runs-and_then P Q g f h k)
  Runs-and_then P Q (receive g) f h k = λ b. Runs-and_then P Q (g b) f (h b) k
  Runs-and_then P Q (does e g) f h k = Runs-and_then P Q g f h k

  -- A statement does so, and keeps the property `P` of the variables.
  pub record Keeps {V A : Type 0} (P : V → Type 0) (m : Statement V A) : Type 0 where
    pub at : (v : V) → P v → Runs (λ r. P r.1) (m v)

  -- Run with the variables `v`, it does so and brings about `P`.
  pub record Brings {V A : Type 0} (P : V → Type 0) (v : V) (m : Statement V A) : Type 0 where
    pub at : Runs (λ r. P r.1) (m v)

module _ {S : Section → Type 0} {N : ℕ → Type 0} {V : Type 0} {P : V → Type 0} where
  pub Keeps-pure : {A : Type 0} (a : A) → Keeps S N P (pure a)
  unfolding pure
  Keeps-pure a = record { at = λ v h. h }

  pub Keeps-exit : {A : Type 0} → Keeps S N P (exit {A = A})
  unfolding exit
  Keeps-exit = record { at = λ v h. tt }

  pub Keeps-fail : {A : Type 0} (e : Fault) → Keeps S N P (fail {A = A} e)
  unfolding fail
  Keeps-fail e = record { at = λ v h. tt }

  pub Keeps-get : Keeps S N P get
  unfolding get
  Keeps-get = record { at = λ v h. h }

  pub Keeps-put : (x : V) → P x → Keeps S N P (put x)
  unfolding put
  Keeps-put x p = record { at = λ v h. p }

  pub Keeps-see : Keeps S N P see
  unfolding see
  Keeps-see = record { at = λ v h m. h }

  pub Keeps-section : (s : Section) → S s → Keeps S N P (section s)
  unfolding section
  Keeps-section s o = record { at = λ v h. (o, h) }

  pub Keeps-rename : (i : ℕ) (n : Bytes) → N i → Keeps S N P (rename i n)
  unfolding rename
  Keeps-rename i n o = record { at = λ v h. (o, h) }

  pub Keeps-read_socket : Keeps S N P read_socket
  unfolding read_socket
  Keeps-read_socket = record { at = λ v h b. h }

  pub Keeps-emit : (e : Event) → Keeps S N P (emit e)
  unfolding emit
  Keeps-emit e = record { at = λ v h. h }

  pub Keeps-require : (b : Bool) (e : Fault) → Keeps S N P (require b e)
  unfolding require
  Keeps-require true e = Keeps-pure tt
  Keeps-require false e = Keeps-fail e

  pub Keeps-or_fail : {A : Type 0} (o : Option A) (e : Fault) → Keeps S N P (or_fail o e)
  unfolding or_fail
  Keeps-or_fail none e = Keeps-fail e
  Keeps-or_fail (some a) e = Keeps-pure a

  pub Keeps-if :
      {A : Type 0} (b : Bool) (m n : Statement V A)
      → (b ≡ true → Keeps S N P m)
      → (b ≡ false → Keeps S N P n)
      → Keeps S N P (if b then m else n)
  Keeps-if true m n km kn = km refl
  Keeps-if false m n km kn = kn refl

  pub Keeps-bind :
      {A B : Type 0} (m : Statement V A) (f : A → Statement V B)
      → Keeps S N P m
      → ((a : A) → Keeps S N P (f a))
      → Keeps S N P (m >>= f)
  unfolding ◌>>=◌
  Keeps-bind m f km kf = record {
    at = λ v h. Runs-and_then S N _ _ (m v) _ (km.at v h) (λ r p. (kf r.0).at r.1 p);
  }

  -- Behind `get`, the property is known of the variables that were read.
  pub Keeps-bind_get :
      {B : Type 0} (f : V → Statement V B)
      → ((v : V) → P v → Keeps S N P (f v))
      → Keeps S N P (get >>= f)
  unfolding ◌>>=◌ get
  Keeps-bind_get f kf = record { at = λ v h. (kf v h).at v h }

pub Keeps-put-Any :
    {S : Section → Type 0} {N : ℕ → Type 0} {V : Type 0} (x : V) → Keeps S N Any (put x)
Keeps-put-Any x = Keeps-put x tt

module _ {S : Section → Type 0} {N : ℕ → Type 0} {V : Type 0} {P : V → Type 0} where
  pub Brings-put : (v x : V) → P x → Brings S N P v (put x)
  unfolding put
  Brings-put v x p = record { at = p }

  pub Brings-Keeps :
      {A : Type 0} (v : V) (m : Statement V A) → P v → Keeps S N P m → Brings S N P v m
  Brings-Keeps v m p k = record { at = k.at v p }

  pub Brings-if :
      {A : Type 0} (v : V) (b : Bool) (m n : Statement V A)
      → (b ≡ true → Brings S N P v m)
      → (b ≡ false → Brings S N P v n)
      → Brings S N P v (if b then m else n)
  Brings-if v true m n bm bn = bm refl
  Brings-if v false m n bm bn = bn refl

  pub Brings-get :
      {B : Type 0} (v : V) (f : V → Statement V B)
      → Brings S N P v (f v)
      → Brings S N P v (get >>= f)
  unfolding ◌>>=◌ get
  Brings-get v f b = record { at = b.at }

  -- What comes behind keeps the property.
  pub Brings-bind :
      {A B : Type 0} (v : V) (m : Statement V A) (f : A → Statement V B)
      → Brings S N P v m
      → ((a : A) → Keeps S N P (f a))
      → Brings S N P v (m >>= f)
  unfolding ◌>>=◌
  Brings-bind v m f b k = record {
    at = Runs-and_then S N _ _ (m v) _ b.at (λ r p. (k r.0).at r.1 p);
  }

  -- What comes before may do anything to the variables.
  pub Brings-behind :
      {A B : Type 0} (v : V) (m : Statement V A) (f : A → Statement V B)
      → Keeps S N Any m
      → ((a : A) (w : V) → Brings S N P w (f a))
      → Brings S N P v (m >>= f)
  unfolding ◌>>=◌
  Brings-behind v m f k b = record {
    at = Runs-and_then S N _ _ (m v) _ (k.at v tt) (λ r p. (b r.0 r.1).at);
  }

pub ruleset common_rules = (
  Keeps-pure, Keeps-exit, Keeps-fail, Keeps-see, Keeps-read_socket, Keeps-emit, Keeps-require,
  Keeps-or_fail, Keeps-if, Keeps-bind,
)

pub ruleset keeps_rules = (common_rules, Keeps-get, Keeps-put-Any)

pub ruleset calm_rules = (common_rules, Keeps-bind_get, Keeps-put)
