-- ===== src/Base/Arrays.antt =====
-- Arrays of a fixed size as functions of the index, and the counted loops over them.
use Prim.Native.Nat.{ℕ, zero, suc, ◌+◌, ◌≤◌, ◌<◌}
use mathlib.Core.Path.{◌≡◌, refl, sym, ap, subst}
use mathlib.Core.Logic.{◌⊎◌, inl, inr}
use mathlib.Core.Bool.{Bool, true, false}
use mathlib.Core.Option.{Option, none, some}
use mathlib.Core.List.{List, [], ◌∷◌}
use native.Mathlib.Omega.{arith}
use network_programming_nctu.Base.Tests.{◌==◌, if◌then◌else◌}

abbrev pub update {ℓ} : {A : Type ℓ} → (ℕ → A) → ℕ → A → ℕ → A
update f i v j = if j == i then v else f j

-- `for (int i = from; …; ++i) if (test(i)) { …; break; }` over `count` rounds.
unfoldable pub first_from : ℕ → ℕ → (ℕ → Bool) → Option ℕ
first_from zero i p = none
first_from (suc n) i p = if p i then some i else first_from n (suc i) p

abbrev pub is_some {ℓ} : {A : Type ℓ} → Option A → Bool
is_some none = false
is_some (some a) = true

-- The indices `from`, `from + 1`, … of `count` rounds.
abbrev pub indices : ℕ → ℕ → List ℕ
indices zero i = []
indices (suc n) i = i ∷ indices n (suc i)

-- What a hit of the loop says: it is in range, passes the test, and is the first to pass.
pub first_from_hit :
    (n i : ℕ) (p : ℕ → Bool) (k : ℕ)
    → first_from n i p ≡ some k
    → (p k ≡ true) × (i ≤ k) × (k < i + n)
unfolding first_from
first_from_hit zero i p k h = cc
first_from_hit (suc n) i p k h = ground (arith, first_from_hit n (suc i) p k)

pub first_from_least :
    (n i : ℕ) (p : ℕ → Bool) (k j : ℕ) → first_from n i p ≡ some k → i ≤ j → j < k → p j ≡ false
unfolding first_from
first_from_least zero i p k j h a b = cc
first_from_least (suc n) i p k j h a b = ground (arith, first_from_least n (suc i) p k j)

pub first_from_miss :
    (n i : ℕ) (p : ℕ → Bool) (j : ℕ) → first_from n i p ≡ none → i ≤ j → j < i + n → p j ≡ false
unfolding first_from
first_from_miss zero i p j h a b = absurd (omega arith)
first_from_miss (suc n) i p j h a b = ground (arith, first_from_miss n (suc i) p j)

pub first_from_first :
    (n i : ℕ) (p : ℕ → Bool) (k : ℕ)
    → i ≤ k
    → k < i + n
    → p k ≡ true
    → ((j : ℕ) → i ≤ j → j < k → p j ≡ false)
    → first_from n i p ≡ some k
unfolding first_from
first_from_first zero i p k a b h low = absurd (omega arith)
first_from_first (suc n) i p k a b h low = elim (first-cases i k a) [
  | inl e ↦ rw (subst (λ x. p x ≡ true) (sym e) h) (ap some e)
  | inr l ↦
      rw (low i (omega arith) l)
        (first_from_first n (suc i) p k l (omega arith) h (λ j x y. low j (omega arith) y))
]
  where
    first-cases : (i k : ℕ) → i ≤ k → (i ≡ k) ⊎ (i < k)
    first-cases i k a = ground arith

pub first_from_nowhere :
    (n i : ℕ) (p : ℕ → Bool) → ((j : ℕ) → i ≤ j → j < i + n → p j ≡ false) → first_from n i p ≡ none
unfolding first_from
first_from_nowhere zero i p h = refl
first_from_nowhere (suc n) i p h =
    rw (h i (omega arith) (omega arith))
      (first_from_nowhere n (suc i) p (λ j a b. h j (omega arith) (omega arith)))
