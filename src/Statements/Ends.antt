-- ===== src/Statements/Ends.antt =====
-- How a statement ends: the rule for `>>=`.
use network_programming_nctu.Base.{Bool, true, false, ◌≡◌, ap}
use network_programming_nctu.Statements.{Fault, Step, next, stop, fault, M, ◌>>=◌, ◌>>◌, require}

-- `P` holds where the statement ends, and `Q` where the function returns from within it.
abbrev pub Ends {ℓ} :
    {W : Type 0} {A : Type ℓ} → (A → W → Type 0) → (W → Type 0) → Step W A → Type 0
Ends P Q (next a w) = P a w
Ends P Q (stop r w) = Q w
Ends P Q (fault e) = Unit {0}

module _ {ℓ κ} {W : Type 0} {A : Type ℓ} {B : Type κ} where
  pub bind-Ends :
      (P : A → W → Type 0) (R : B → W → Type 0) (Q : W → Type 0)
      → (m : M W A) (f : A → M W B) (w : W) → Ends P Q (m w)
      → ((a : A) (v : W) → P a v → Ends R Q (f a v))
      → Ends R Q ((m >>= f) w)
  bind-Ends P R Q m f w h k = go (m w) h
    where
      go :
          (s : Step W A)
          → Ends P Q s
          → Ends R Q (elim s [ next a w' ↦ f a w' | stop r w' ↦ stop r w' | fault e ↦ fault e ])
      go (next a v) p = k a v p
      go (stop r v) q = q
      go (fault e) u = tt

module _ {ℓ} {W : Type 0} {A : Type ℓ} where
  pub mono-Ends :
      (P R : A → W → Type 0) (Q : W → Type 0) (s : Step W A)
      → Ends P Q s
      → ((a : A) (v : W) → P a v → R a v)
      → Ends R Q s
  mono-Ends P R Q (next a v) h k = k a v h
  mono-Ends P R Q (stop r v) h k = h
  mono-Ends P R Q (fault e) h k = tt

module _ {ℓ κ} {W : Type 0} {A : Type ℓ} {B : Type κ} where
  pub bind_next :
      (m : M W A) (f : A → M W B) (w v : W) (a : A) → m w ≡ next a v → (m >>= f) w ≡ f a v
  bind_next m f w v a e = ap continue e
    where
      continue : Step W A → Step W B
      continue s = elim s [ next x w' ↦ f x w' | stop r w' ↦ stop r w' | fault x ↦ fault x ]

module _ {ℓ κ} {W : Type 0} {A : Type ℓ} {B : Type κ} where
  pub bind_fault :
      (m : M W A) (f : A → M W B) (w : W) (e : Fault) → m w ≡ fault e → (m >>= f) w ≡ fault e
  bind_fault m f w e h = ap continue h
    where
      continue : Step W A → Step W B
      continue s = elim s [ next x w' ↦ f x w' | stop r w' ↦ stop r w' | fault x ↦ fault x ]

module _ {ℓ} {W : Type 0} {A : Type ℓ} where
  -- A test that holds, and one that fails.
  pub require-true :
      (b : Bool) (e : Fault) (k : M W A) (w : W) → b ≡ true → (require b e >> k) w ≡ k w
  require-true b e k w h = ap (λ c. (require c e >> k) w) h

  pub require-false :
      (b : Bool) (e : Fault) (k : M W A) (w : W) → b ≡ false → (require b e >> k) w ≡ fault e
  require-false b e k w h = ap (λ c. (require c e >> k) w) h
