-- ===== src/Util/Copy/Joined.antt =====
-- What `BidirectionalCopy` has done when it returns.
use gonc.Prelude.{
  ℕ, ◌+◌, ◌≡◌, ◌≢◌, ◌⊎◌, inl, inr, refl, sym, ap, subst, ◌∙◌, List, [], ◌∷◌, Option, none, some,
  Bool, true, arith, Option-cases, Bool-cases, some-eq, ◌++◌, All,
}
use gonc.Errors.{Error}
use gonc.Util.Copy.{
  Sentinels, Phase, copying, half_closing, reporting, cancelling, leaving, gone, returned, Copying,
  started, Move, is_harmless, first_harmful, step, run,
}
use gonc.Util.Copy.Kept.{
  Inv, started-Inv, step-Inv, reported, unfinished, Holds, has_closed, Returned,
}
use gonc.Util.Copy.Harmless.{IsHarmless, is_harmless_iff}

module _ (sentinels : Sentinels) (is_tcp : Bool) where
  -- nil, or an error that is not worth reporting
  abbrev pub Passes : Option Error → Type 0
  Passes none = Unit
  Passes (some e) = IsHarmless sentinels e

  -- what the list of sent errors makes the call return: the first of them that is harmful
  abbrev pub FirstHarmful : List (Option Error) → Option Error → Type 0
  FirstHarmful es none = All Passes es
  FirstHarmful es (some e) =
      (before : List (Option Error)) × (after : List (Option Error)) × (es
        ≡ before ++ some e ∷ after)
      × All Passes before
      × ¬ IsHarmless sentinels e

  first_of_more :
      (o : Option Error) (es : List (Option Error)) (r : Option Error)
      → Passes o
      → FirstHarmful es r
      → FirstHarmful (o ∷ es) r
  first_of_more o es none p h = (p, h)
  first_of_more o es (some e) p (before, after, q, all, harmful) =
      (o ∷ before, after, ap (λ z. o ∷ z) q, (p, all), harmful)

  first_harmful-FirstHarmful :
      (es : List (Option Error)) → FirstHarmful es (first_harmful sentinels es)
  unfolding first_harmful
  first_harmful-FirstHarmful [] = tt
  first_harmful-FirstHarmful (none ∷ es) =
      first_of_more none es (first_harmful sentinels es) tt (first_harmful-FirstHarmful es)
  first_harmful-FirstHarmful (some e ∷ es) = elim (Bool-cases (is_harmless sentinels e)) [
    | inl t ↦ rw t (
        first_of_more (some e) es (first_harmful sentinels es) ((is_harmless_iff sentinels e).0 t)
          (first_harmful-FirstHarmful es))
    | inr f ↦ rw f ([], es, refl, tt, λ h. absurd (let t = (is_harmless_iff sentinels e).1 h in cc))
  ]

  pub run-none : (ms : List Move) {t : Copying} → run sentinels is_tcp none ms ≢ some t
  unfolding run
  run-none [] h = absurd (cc)
  run-none (m ∷ ms) h = absurd (cc)

  run-Inv :
      (s : Copying) (ms : List Move) {t : Copying}
      → Inv sentinels s
      → run sentinels is_tcp (some s) ms ≡ some t
      → Inv sentinels t
  unfolding run
  run-Inv s [] v h = subst (Inv sentinels) (some-eq h) v
  run-Inv s (m ∷ ms) v h = elim (Option-cases (step sentinels is_tcp s m)) [
    | inl e ↦ absurd (run-none ms (sym (ap (λ o. run sentinels is_tcp o ms) e) ∙ h))
    | inr (u, e) ↦
        run-Inv u ms (step-Inv sentinels is_tcp s m v e)
          (sym (ap (λ o. run sentinels is_tcp o ms) e) ∙ h)
  ]

  at_end :
      (ph : Phase) (n : ℕ) → unfinished ph + n ≡ 0 → ((a : Option Error) × (ph ≡ gone a)) × (n ≡ 0)
  at_end (gone a) n h = ((a, refl), omega arith)
  at_end copying n h = absurd (omega arith)
  at_end (half_closing a) n h = absurd (omega arith)
  at_end (reporting a) n h = absurd (omega arith)
  at_end (cancelling a) n h = absurd (omega arith)
  at_end (leaving a) n h = absurd (omega arith)

  -- Whatever the schedule: when `BidirectionalCopy` returns, both goroutines have ended, the
  -- connection is closed, the channel holds the errors of the two copies in the order in which they
  -- were sent, and it returns the first of them that is not harmless, or nil if there is none. An
  -- error is harmless if one of the three sentinels occurs in its tree of causes.
  pub run_joined :
      (ms : List Move) {s : Copying} {err : Option Error}
      → run sentinels is_tcp (some started) ms ≡ some s
      → s.caller ≡ returned err
      → (a : Option Error) × (b : Option Error) × (s.from_conn ≡ gone a)
        × (s.from_reader ≡ gone b)
        × ((s.err_ch ≡ a ∷ b ∷ []) ⊎ (s.err_ch ≡ b ∷ a ∷ []))
        × FirstHarmful s.err_ch err
        × (s.conn_closed ≡ true)
  run_joined ms {s} {err} h r =
      let v = run-Inv started ms (started-Inv sentinels) h in
      let (z, e) = subst (Returned sentinels s) r v.at_return in
      let ((a, ga), rest) = at_end s.from_conn (unfinished s.from_reader) (sym v.counted ∙ z) in
      let ((b, gb), _) = at_end s.from_reader 0 (omega arith) in
      (
        a,
        b,
        ga,
        gb,
        both a b ga gb v.held,
        subst (FirstHarmful s.err_ch) (sym e) (first_harmful-FirstHarmful s.err_ch),
        v.closed ∙ ap has_closed r,
      )
    where
      both :
          (a b : Option Error)
          → s.from_conn ≡ gone a
          → s.from_reader ≡ gone b
          → Holds s.err_ch (reported s.from_conn) (reported s.from_reader)
          → (s.err_ch ≡ a ∷ b ∷ []) ⊎ (s.err_ch ≡ b ∷ a ∷ [])
      both a b ga gb held =
          subst (λ p. Holds s.err_ch (some a) (reported p)) gb
            (subst (λ p. Holds s.err_ch (reported p) (reported s.from_reader)) ga held)
