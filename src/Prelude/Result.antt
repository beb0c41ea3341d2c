-- ===== src/Prelude/Result.antt =====
-- A Go pair `(value, error)` of which one half is in use, and its chaining by `if err != nil`.
use gonc.Prelude.{◌≡◌, refl, ap}

pub data Result {ℓ κ} (E : Type ℓ) (A : Type κ) : Type (ℓ ⊔ κ) where
  ok : A → Result E A
  err : E → Result E A

-- the value goes on to the next step; an error ends the chain
infixl 5 ◌>>=◌
abbrev pub ◌>>=◌ {ℓ κ μ} :
    {E : Type ℓ} {X : Type κ} {Y : Type μ} → Result E X → (X → Result E Y) → Result E Y
err e >>= next = err e
ok x >>= next = next x

-- `fmt.Errorf("...: %w", err)` on the way up
abbrev pub map_err {ℓ κ μ} :
    {E : Type ℓ} {F : Type κ} {A : Type μ} → (E → F) → Result E A → Result F A
map_err f (ok a) = ok a
map_err f (err e) = err (f e)

-- Equal successes have equal values.
pub ok-eq {ℓ κ} : {E : Type ℓ} {A : Type κ} {a b : A} → Path (Result E A) (ok a) (ok b) → a ≡ b
ok-eq h = cc

-- A successful chain has a successful first step.
module _ {ℓ κ μ} {E : Type ℓ} {X : Type κ} {Y : Type μ} where
  pub >>=-eq-ok :
      (first : Result E X) (next : X → Result E Y) {last : Y}
      → (first >>= next) ≡ ok last
      → (x : X) × (first ≡ ok x) × (next x ≡ ok last)
  >>=-eq-ok (err e) next h = absurd (cc)
  >>=-eq-ok (ok x) next h = (x, refl, h)

pub map_err-eq-ok {ℓ κ μ} :
    {E : Type ℓ} {F : Type κ} {A : Type μ} (f : E → F) (m : Result E A) {a : A}
    → map_err f m ≡ ok a
    → m ≡ ok a
map_err-eq-ok f (ok a) h = ap ok (ok-eq h)
map_err-eq-ok f (err e) h = cc
