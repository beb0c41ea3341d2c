-- ===== src/Errors/Inside.antt =====
-- `errors.As` finds an error of a type exactly when one occurs in the tree of causes.
use gonc.Prelude.{◌≡◌, ◌≢◌, refl, ◌⊎◌, inl, inr, Option, none, some, Bool}
use gonc.Prelude.Int.{ℤ}
use gonc.Text.{Str}
use gonc.Errors.{
  Error, Cause, Errors, plain, wrapped, joined, op_error, dns_error, network_error, ssh_error,
  permanent, no_cause, cause, end, also, as_type, as_cause, as_errors, or_first,
}

-- `Inside x e`: the error `x` is `e`, or occurs among the causes of `e`.
mutual
  pub data Inside (x : Error) : Error → Type 0 where
    here : Inside x x
    under_wrapped : (s : Str) {c : Cause} → InCause x c → Inside x (wrapped s c)
    under_joined : {es : Errors} → InErrors x es → Inside x (joined es)
    under_op : (t : Bool) {c : Cause} → InCause x c → Inside x (op_error t c)
    under_network :
        (o a : Str) (r : Bool) {c : Cause} → InCause x c → Inside x (network_error o a r c)
    under_ssh : (o h : Str) (p : ℤ) {c : Cause} → InCause x c → Inside x (ssh_error o h p c)
    under_permanent : {c : Cause} → InCause x c → Inside x (permanent c)

  pub data InCause (x : Error) : Cause → Type 0 where
    in_cause : {e : Error} → Inside x e → InCause x (cause e)

  pub data InErrors (x : Error) : Errors → Type 0 where
    first : {e : Error} {es : Errors} → Inside x e → InErrors x (also e es)
    later : {e : Error} {es : Errors} → InErrors x es → InErrors x (also e es)

module _ {A : Type 0} (probe : Error → Option A) where
  -- what a search that found `a` has found
  abbrev Found : (Error → Type 0) → A → Type 0
  Found P a = (x : Error) × P x × (probe x ≡ some a)

  or_first-cases : (o p : Option A) {a : A} → or_first o p ≡ some a → (o ≡ some a) ⊎ (p ≡ some a)
  or_first-cases none p h = inr h
  or_first-cases (some b) p h = inl h

  layer :
      (e : Error) (P : Error → Type 0) (p : Option A) {a : A}
      → ((x : Error) → P x → Inside x e)
      → (p ≡ some a → Found P a)
      → or_first (probe e) p ≡ some a
      → Found (λ x. Inside x e) a
  layer e P p inner found h = elim (or_first-cases (probe e) p h) [
    | inl at ↦ (e, here, at)
    | inr below ↦ let (x, i, q) = found below in (x, inner x i, q)
  ]

  mutual
    unfolding as_type as_cause as_errors

    Found-type : (e : Error) {a : A} → as_type probe e ≡ some a → Found (λ x. Inside x e) a
    Found-type (plain s) h = (plain s, here, h)
    Found-type (wrapped s c) h =
        layer (wrapped s c) (λ x. InCause x c) _ (λ x i. under_wrapped s i) (Found-cause c) h
    Found-type (joined es) h =
        layer (joined es) (λ x. InErrors x es) _ (λ x i. under_joined i) (Found-errors es) h
    Found-type (op_error t c) h =
        layer (op_error t c) (λ x. InCause x c) _ (λ x i. under_op t i) (Found-cause c) h
    Found-type (dns_error t) h = (dns_error t, here, h)
    Found-type (network_error o a r c) h =
        layer (network_error o a r c) (λ x. InCause x c) _ (λ x i. under_network o a r i)
          (Found-cause c) h
    Found-type (ssh_error o p q c) h =
        layer (ssh_error o p q c) (λ x. InCause x c) _ (λ x i. under_ssh o p q i) (Found-cause c) h
    Found-type (permanent c) h =
        layer (permanent c) (λ x. InCause x c) _ (λ x i. under_permanent i) (Found-cause c) h

    Found-cause : (c : Cause) {a : A} → as_cause probe c ≡ some a → Found (λ x. InCause x c) a
    Found-cause no_cause h = absurd (cc)
    Found-cause (cause e) h = let (x, i, q) = Found-type e h in (x, in_cause i, q)

    Found-errors :
        (es : Errors) {a : A} → as_errors probe es ≡ some a → Found (λ x. InErrors x es) a
    Found-errors end h = absurd (cc)
    Found-errors (also e es) h = elim (or_first-cases (as_type probe e) (as_errors probe es) h) [
      | inl l ↦ let (x, i, q) = Found-type e l in (x, first i, q)
      | inr r ↦ let (x, i, q) = Found-errors es r in (x, later i, q)
    ]

  or_first-ne-none_left : (o p : Option A) → o ≢ none → or_first o p ≢ none
  or_first-ne-none_left none p h = absurd (h refl)
  or_first-ne-none_left (some a) p h = cc

  or_first-ne-none_right : (o p : Option A) → p ≢ none → or_first o p ≢ none
  or_first-ne-none_right none p h = h
  or_first-ne-none_right (some a) p h = cc

  at_top : (e : Error) → probe e ≢ none → as_type probe e ≢ none
  unfolding as_type
  at_top (plain s) h = h
  at_top (wrapped s c) h = or_first-ne-none_left _ _ h
  at_top (joined es) h = or_first-ne-none_left _ _ h
  at_top (op_error t c) h = or_first-ne-none_left _ _ h
  at_top (dns_error t) h = h
  at_top (network_error o a r c) h = or_first-ne-none_left _ _ h
  at_top (ssh_error o p q c) h = or_first-ne-none_left _ _ h
  at_top (permanent c) h = or_first-ne-none_left _ _ h

  module _ (x : Error) (hit : probe x ≢ none) where
    mutual
      unfolding as_type as_cause as_errors

      not_missed : {e : Error} → Inside x e → as_type probe e ≢ none
      not_missed here = at_top x hit
      not_missed (under_wrapped s i) = or_first-ne-none_right _ _ (not_missed_cause i)
      not_missed (under_joined i) = or_first-ne-none_right _ _ (not_missed_errors i)
      not_missed (under_op t i) = or_first-ne-none_right _ _ (not_missed_cause i)
      not_missed (under_network o a r i) = or_first-ne-none_right _ _ (not_missed_cause i)
      not_missed (under_ssh o h p i) = or_first-ne-none_right _ _ (not_missed_cause i)
      not_missed (under_permanent i) = or_first-ne-none_right _ _ (not_missed_cause i)

      not_missed_cause : {c : Cause} → InCause x c → as_cause probe c ≢ none
      not_missed_cause (in_cause i) = not_missed i

      not_missed_errors : {es : Errors} → InErrors x es → as_errors probe es ≢ none
      not_missed_errors (first i) = or_first-ne-none_left _ _ (not_missed i)
      not_missed_errors (later {e} {es} i) =
          or_first-ne-none_right (as_type probe e) (as_errors probe es) (not_missed_errors i)

-- What `errors.As` returns occurs in the error.
pub as_type-Inside :
    {A : Type 0} (probe : Error → Option A) (e : Error) {a : A}
    → as_type probe e ≡ some a
    → (x : Error) × Inside x e × (probe x ≡ some a)
as_type-Inside probe e h = Found-type probe e h

-- `errors.As` finds something if an error of the wanted type occurs in the error.
pub as_type-ne-none :
    {A : Type 0} (probe : Error → Option A) (x : Error) {e : Error}
    → probe x ≢ none
    → Inside x e
    → as_type probe e ≢ none
as_type-ne-none probe x hit i = not_missed probe x hit i

mutual
  -- What occurs in an error that occurs in an error occurs in that one.
  pub Inside-trans : {x y z : Error} → Inside x y → Inside y z → Inside x z
  Inside-trans i here = i
  Inside-trans i (under_wrapped s j) = under_wrapped s (InCause-trans i j)
  Inside-trans i (under_joined j) = under_joined (InErrors-trans i j)
  Inside-trans i (under_op t j) = under_op t (InCause-trans i j)
  Inside-trans i (under_network o a r j) = under_network o a r (InCause-trans i j)
  Inside-trans i (under_ssh o h p j) = under_ssh o h p (InCause-trans i j)
  Inside-trans i (under_permanent j) = under_permanent (InCause-trans i j)

  InCause-trans : {x y : Error} {c : Cause} → Inside x y → InCause y c → InCause x c
  InCause-trans i (in_cause j) = in_cause (Inside-trans i j)

  InErrors-trans : {x y : Error} {es : Errors} → Inside x y → InErrors y es → InErrors x es
  InErrors-trans i (first j) = first (Inside-trans i j)
  InErrors-trans i (later j) = later (InErrors-trans i j)
