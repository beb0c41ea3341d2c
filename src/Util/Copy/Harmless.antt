-- ===== src/Util/Copy/Harmless.antt =====
-- Which errors end a copy without being reported.
use gonc.Prelude.{
  ◌≡◌, ◌≢◌, ◌⊎◌, ◌↔◌, inl, inr, refl, ap, ◌∙◌, Option, none, some, Bool, true, ◌||◌, arith,
  Option-cases, some-eq, if◌then◌else◌,
}
use gonc.Errors.{Error, Cause, cause, no_cause, op_error, plain, as_type, as_cause}
use gonc.Errors.Inside.{
  Inside, InCause, in_cause, under_op, as_type-Inside, as_type-ne-none, Inside-trans,
}
use gonc.Util.Copy.{Sentinels, probe_of, is_in, op_cause, closed_op, is_harmless}

-- An error of a class occurs in a cause.
abbrev Occurs : (Error → Bool) → Error → Type 0
Occurs is e = (x : Error) × Inside x e × (is x ≡ true)

probe_hit : (is : Error → Bool) (x : Error) {u : Unit {0}} → probe_of is x ≡ some u → is x ≡ true
probe_hit is x h = ground arith

probe-ne-none : (is : Error → Bool) (x : Error) → is x ≡ true → probe_of is x ≢ none
probe-ne-none is x h n = ground arith

is_in-Occurs : (is : Error → Bool) (e : Error) → is_in is (cause e) ≡ true → Occurs is e
unfolding is_in as_cause
is_in-Occurs is e h = elim (Option-cases (as_type (probe_of is) e)) [
  | inl n ↦ absurd (ground arith)
  | inr (u, f) ↦ let (x, i, p) = as_type-Inside (probe_of is) e f in (x, i, probe_hit is x p)
]

Occurs-is_in : (is : Error → Bool) (e : Error) → Occurs is e → is_in is (cause e) ≡ true
unfolding is_in as_cause
Occurs-is_in is e (x, i, h) = elim (Option-cases (as_type (probe_of is) e)) [
  | inl n ↦ absurd (as_type-ne-none (probe_of is) x (probe-ne-none is x h) i n)
  | inr (u, f) ↦ rw f refl
]

occurs-InCause :
    (is : Error → Bool) (c : Cause) → is_in is c ≡ true → (x : Error) × InCause x c × (is x ≡ true)
unfolding is_in as_cause
occurs-InCause is no_cause h = absurd (cc)
occurs-InCause is (cause e) h = let (x, i, p) = is_in-Occurs is e h in (x, in_cause i, p)

under_op_cause :
    (is : Error → Bool) (x : Error) (c : Cause)
    → op_cause x ≡ some c
    → is_in is c ≡ true
    → Occurs is x
under_op_cause is (op_error t d) c h f =
    let (x, i, p) = occurs-InCause is d (ap (is_in is) (some-eq h) ∙ f) in (x, under_op t i, p)
under_op_cause is (plain _) c h f = absurd (cc)
under_op_cause is _ c h f = absurd (cc)

one_of_four :
    (a b c d : Bool)
    → (if a || b || c then true else d) ≡ true
    → (a ≡ true) ⊎ ((b ≡ true) ⊎ ((c ≡ true) ⊎ (d ≡ true)))
one_of_four a b c d h = ground arith

one_of_three : (a b c : Bool) → (a || b || c) ≡ true → (a ≡ true) ⊎ ((b ≡ true) ⊎ (c ≡ true))
one_of_three a b c h = ground arith

module _ (sentinels : Sentinels) where
  open sentinels use {is_eof, is_closed, is_closed_pipe}

  -- one of the three sentinels occurs in the tree of causes of an error
  abbrev pub IsHarmless : Error → Type 0
  IsHarmless e = (x : Error) × Inside x e × ((is_eof x || is_closed x || is_closed_pipe x) ≡ true)

  by_op :
      (e : Error) (o : Option Cause)
      → as_type op_cause e ≡ o
      → closed_op sentinels o ≡ true
      → Occurs is_closed e
  unfolding closed_op
  by_op e none q h = absurd (cc)
  by_op e (some c) q h =
      let (y, i, p) = as_type-Inside op_cause e q in
      let (x, j, r) = under_op_cause is_closed y c p h in (x, Inside-trans j i, r)

  -- An error is harmless exactly if `io.EOF`, `net.ErrClosed` or `io.ErrClosedPipe` occurs in its tree
  -- of causes: the last test of `isHarmless`, for errors of package net, adds nothing.
  pub is_harmless_iff :
      (e : Error)
      → (is_harmless sentinels e ≡ true)
        ↔ ((x : Error) × Inside x e × ((is_eof x || is_closed x || is_closed_pipe x) ≡ true))
  unfolding is_harmless
  is_harmless_iff e = (
    λ h.
        elim (one_of_four (is_in is_eof (cause e)) (is_in is_closed (cause e))
          (is_in is_closed_pipe (cause e)) (closed_op sentinels (as_type op_cause e)) h) [
            | inl a ↦ let (x, i, p) = is_in-Occurs is_eof e a in (x, i, ground arith)
            | inr (inl b) ↦ let (x, i, p) = is_in-Occurs is_closed e b in (x, i, ground arith)
            | inr (inr (inl c)) ↦
                let (x, i, p) = is_in-Occurs is_closed_pipe e c in (x, i, ground arith)
            | inr (inr (inr d)) ↦
                let (x, i, p) = by_op e (as_type op_cause e) refl d in (x, i, ground arith)
          ],
    λ (x, i, p). elim (one_of_three (is_eof x) (is_closed x) (is_closed_pipe x) p) [
      | inl a ↦ let k = Occurs-is_in is_eof e (x, i, a) in ground (arith)
      | inr (inl b) ↦ let k = Occurs-is_in is_closed e (x, i, b) in ground (arith)
      | inr (inr c) ↦ let k = Occurs-is_in is_closed_pipe e (x, i, c) in ground (arith)
    ],
  )
