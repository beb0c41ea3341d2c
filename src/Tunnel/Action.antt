-- ===== src/Tunnel/Action.antt =====
-- Calls that talk to the world outside the program: `(value, error)` together with what the call has
-- changed there. The type of the world is a parameter.
use gonc.Prelude.{◌≡◌, refl, subst, Option, none, some}
use gonc.Prelude.Result.{Result, ok, err}
use gonc.Errors.{Error}

abbrev pub Action : Type 0 → Type 0 → Type 0
Action W A = W → Result Error A × W

module _ {W A : Type 0} where
  abbrev pub pure : A → Action W A
  pure a w = (ok a, w)

  abbrev pub fail : Error → Action W A
  fail e w = (err e, w)

  abbrev pub gets : (W → A) → Action W A
  gets f w = (ok (f w), w)

  unfoldable pub explained : (Error → Error) → Result Error A × W → Result Error A × W
  explained f (ok a, w) = (ok a, w)
  explained f (err e, w) = (err (f e), w)

  -- `fmt.Errorf` with `%w` around the error, on the way up
  abbrev pub explain : (Error → Error) → Action W A → Action W A
  explain f m w = explained f (m w)

  unfoldable pub attempted : Result Error A × W → Result Error (Option A) × W
  attempted (ok a, w) = (ok (some a), w)
  attempted (err e, w) = (ok none, w)

  -- `if a, err := m; err == nil`
  abbrev pub attempt : Action W A → Action W (Option A)
  attempt m w = attempted (m w)

module _ {W A B : Type 0} where
  unfoldable pub continued : (A → Action W B) → Result Error A × W → Result Error B × W
  continued f (ok a, w) = f a w
  continued f (err e, w) = (err e, w)

  -- `if err != nil { return err }` before the next step
  infixl 5 ◌>>=◌
  abbrev pub ◌>>=◌ : Action W A → (A → Action W B) → Action W B
  ◌>>=◌ m f w = continued f (m w)

-- What holds of the value that a call returns, and of the world then.
pub data Post {W A : Type 0} (P : A → W → Type 0) : Result Error A × W → Type 0 where
  returns : {a : A} {w : W} → P a w → Post P (ok a, w)
  fails : {e : Error} {w : W} → Post P (err e, w)

module _ {W A : Type 0} {P : A → W → Type 0} where
  pub Post-explain :
      (f : Error → Error) {p : Result Error A × W} → Post P p → Post P (explained f p)
  unfolding explained
  Post-explain f (returns h) = returns h
  Post-explain f fails = fails

  pub Post-mono :
      {Q : A → W → Type 0} {p : Result Error A × W}
      → ((a : A) (w : W) → P a w → Q a w)
      → Post P p
      → Post Q p
  Post-mono k (returns h) = returns (k _ _ h)
  Post-mono k fails = fails

  -- from the equation of a call that succeeds
  pub Post-ok : {a : A} {w : W} {p : Result Error A × W} → Post P p → p ≡ (ok a, w) → P a w
  Post-ok {a} {w} (returns {a = b} {w = v} h) e =
      let ea : b ≡ a = cc in let ew : v ≡ w = cc in subst (λ x. P a x) ew (subst (λ x. P x v) ea h)
  Post-ok fails e = absurd (cc)

module _ {W A : Type 0} where
  -- nothing but the equation of the call
  pub Post-itself : (p : Result Error A × W) → Post (λ a u. p ≡ (ok a, u)) p
  Post-itself (ok a, u) = returns refl
  Post-itself (err e, u) = fails

module _ {W A : Type 0} {P : Option A → W → Type 0} where
  pub Post-attempt :
      {p : Result Error A × W}
      → Post (λ a v. P (some a) v) p
      → ((v : W) → P none v)
      → Post P (attempted p)
  unfolding attempted
  Post-attempt (returns h) k = returns h
  Post-attempt fails k = returns (k _)

module _ {W A B : Type 0} {P : B → W → Type 0} where
  pub Post-bind :
      {Q : A → W → Type 0} {f : A → Action W B} {p : Result Error A × W}
      → Post Q p
      → ((a : A) (v : W) → Q a v → Post P (f a v))
      → Post P (continued f p)
  unfolding continued
  Post-bind (returns h) k = k _ _ h
  Post-bind fails k = fails

  -- when nothing is needed of the first step
  pub Post-then :
      (f : A → Action W B) (p : Result Error A × W)
      → ((a : A) (v : W) → Post P (f a v))
      → Post P (continued f p)
  unfolding continued
  Post-then f (ok a, v) k = k a v
  Post-then f (err e, v) k = fails
