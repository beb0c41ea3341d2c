-- ===== src/Tunnel/Reverse/Bridge/Kept.antt =====
-- What every move of `bridgeConns` and its goroutines keeps.
use gonc.Prelude.{
  ℕ, ◌+◌, ◌≡◌, ◌≢◌, refl, ap, subst, none, some, Bool, true, false, arith, some-eq, if◌then◌else◌,
  ◌==◌,
}
use gonc.Prelude.Int.{ℤ}
use gonc.Tunnel.Reverse.Bridge.{
  Phase, copying, storing, cancelling, leaving, gone, Caller, waiting, closing_a, closing_b,
  joining, returned, Bridging, Move, outer_ends, forth_moves, back_moves, caller_moves,
  forth_copied, back_copied, forth_ends_copy, forth_step, back_ends_copy, back_step, caller_step,
  step,
}

-- 1 for a goroutine that has not called `Done`
abbrev pub unfinished : Phase → ℕ
unfinished (gone n) = 0
unfinished copying = 1
unfinished (storing n) = 1
unfinished (cancelling n) = 1
unfinished (leaving n) = 1

-- the count of a goroutine that has stored it
abbrev pub Stored : Phase → ℤ → Type 0
Stored copying x = Unit
Stored (storing n) x = Unit
Stored (cancelling n) x = x ≡ n
Stored (leaving n) x = x ≡ n
Stored (gone n) x = x ≡ n

abbrev pub Closed : Caller → Bool → Bool → Type 0
Closed waiting a b = Unit
Closed closing_a a b = Unit
Closed closing_b a b = a ≡ true
Closed joining a b = (a ≡ true) × (b ≡ true)
Closed (returned x y) a b = (a ≡ true) × (b ≡ true)

abbrev pub Returned : Caller → ℕ → ℤ → ℤ → Type 0
Returned (returned x y) n a b = (n ≡ 0) × (x ≡ a) × (y ≡ b)
Returned waiting n a b = Unit
Returned closing_a n a b = Unit
Returned closing_b n a b = Unit
Returned joining n a b = Unit

-- a goroutine cancels before it leaves
abbrev pub Cancelled : Phase → Bool → Type 0
Cancelled copying d = Unit
Cancelled (storing n) d = Unit
Cancelled (cancelling n) d = Unit
Cancelled (leaving n) d = d ≡ true
Cancelled (gone n) d = d ≡ true

pub record Inv (s : Bridging) : Type 0 where
  pub counted : s.wait_group ≡ unfinished s.forth + unfinished s.back
  pub forth_stored : Stored s.forth s.a_to_b
  pub cancelled : Cancelled s.forth s.done
  pub back_stored : Stored s.back s.b_to_a
  pub closed : Closed s.caller s.a_closed s.b_closed
  pub at_return : Returned s.caller s.wait_group s.a_to_b s.b_to_a

Cancelled-true : (ph : Phase) → Cancelled ph true
Cancelled-true copying = tt
Cancelled-true (storing n) = tt
Cancelled-true (cancelling n) = tt
Cancelled-true (leaving n) = refl
Cancelled-true (gone n) = refl

-- A goroutine that still moves is waited for, so the call has not returned.
not_yet : (c : Caller) (n m : ℕ) (a b x y : ℤ) → n ≢ 0 → Returned c n a b → Returned c m x y
not_yet (returned u v) n m a b x y k (z, _, _) = absurd (k z)
not_yet waiting n m a b x y k r = tt
not_yet closing_a n m a b x y k r = tt
not_yet closing_b n m a b x y k r = tt
not_yet joining n m a b x y k r = tt

forth_ends_copy-Inv :
    (n : ℤ) (ph : Phase) (s : Bridging) {t : Bridging}
    → s.forth ≡ ph
    → Inv s
    → forth_ends_copy n ph s ≡ some t
    → Inv t
unfolding forth_ends_copy
forth_ends_copy-Inv n copying s e v h = subst Inv (some-eq h) (record {
  counted = omega (arith, v.counted, ap unfinished e);
  forth_stored = tt;
  cancelled = tt;
  back_stored = v.back_stored;
  closed = v.closed;
  at_return = v.at_return;
})
forth_ends_copy-Inv n (storing m) s e v h = absurd (cc)
forth_ends_copy-Inv n (cancelling m) s e v h = absurd (cc)
forth_ends_copy-Inv n (leaving m) s e v h = absurd (cc)
forth_ends_copy-Inv n (gone m) s e v h = absurd (cc)

back_ends_copy-Inv :
    (n : ℤ) (ph : Phase) (s : Bridging) {t : Bridging}
    → s.back ≡ ph
    → Inv s
    → back_ends_copy n ph s ≡ some t
    → Inv t
unfolding back_ends_copy
back_ends_copy-Inv n copying s e v h = subst Inv (some-eq h) (record {
  counted = omega (arith, v.counted, ap unfinished e);
  forth_stored = v.forth_stored;
  cancelled = v.cancelled;
  back_stored = tt;
  closed = v.closed;
  at_return = v.at_return;
})
back_ends_copy-Inv n (storing m) s e v h = absurd (cc)
back_ends_copy-Inv n (cancelling m) s e v h = absurd (cc)
back_ends_copy-Inv n (leaving m) s e v h = absurd (cc)
back_ends_copy-Inv n (gone m) s e v h = absurd (cc)

forth_step-Inv :
    (ph : Phase) (s : Bridging) {t : Bridging}
    → s.forth ≡ ph
    → Inv s
    → forth_step ph s ≡ some t
    → Inv t
unfolding forth_step
forth_step-Inv (storing n) s e v h = subst Inv (some-eq h) (record {
  counted = omega (arith, v.counted, ap unfinished e);
  forth_stored = refl;
  cancelled = tt;
  back_stored = v.back_stored;
  closed = v.closed;
  at_return =
      not_yet s.caller _ _ _ _ _ _ (λ z. absurd (omega (arith, z, v.counted, ap unfinished e)))
        v.at_return;
})
forth_step-Inv (cancelling n) s e v h = subst Inv (some-eq h) (record {
  counted = omega (arith, v.counted, ap unfinished e);
  forth_stored = subst (λ p. Stored p s.a_to_b) e v.forth_stored;
  cancelled = refl;
  back_stored = v.back_stored;
  closed = v.closed;
  at_return = v.at_return;
})
forth_step-Inv (leaving n) s e v h = subst Inv (some-eq h) (record {
  counted = omega (arith, v.counted, ap unfinished e);
  forth_stored = subst (λ p. Stored p s.a_to_b) e v.forth_stored;
  cancelled = subst (λ p. Cancelled p s.done) e v.cancelled;
  back_stored = v.back_stored;
  closed = v.closed;
  at_return =
      not_yet s.caller _ _ _ _ _ _ (λ z. absurd (omega (arith, z, v.counted, ap unfinished e)))
        v.at_return;
})
forth_step-Inv copying s e v h = absurd (cc)
forth_step-Inv (gone n) s e v h = absurd (cc)

back_step-Inv :
    (ph : Phase) (s : Bridging) {t : Bridging}
    → s.back ≡ ph
    → Inv s
    → back_step ph s ≡ some t
    → Inv t
unfolding back_step
back_step-Inv (storing n) s e v h = subst Inv (some-eq h) (record {
  counted = omega (arith, v.counted, ap unfinished e);
  forth_stored = v.forth_stored;
  cancelled = v.cancelled;
  back_stored = refl;
  closed = v.closed;
  at_return =
      not_yet s.caller _ _ _ _ _ _ (λ z. absurd (omega (arith, z, v.counted, ap unfinished e)))
        v.at_return;
})
back_step-Inv (cancelling n) s e v h = subst Inv (some-eq h) (record {
  counted = omega (arith, v.counted, ap unfinished e);
  forth_stored = v.forth_stored;
  cancelled = Cancelled-true s.forth;
  back_stored = subst (λ p. Stored p s.b_to_a) e v.back_stored;
  closed = v.closed;
  at_return = v.at_return;
})
back_step-Inv (leaving n) s e v h = subst Inv (some-eq h) (record {
  counted = omega (arith, v.counted, ap unfinished e);
  forth_stored = v.forth_stored;
  cancelled = v.cancelled;
  back_stored = subst (λ p. Stored p s.b_to_a) e v.back_stored;
  closed = v.closed;
  at_return =
      not_yet s.caller _ _ _ _ _ _ (λ z. absurd (omega (arith, z, v.counted, ap unfinished e)))
        v.at_return;
})
back_step-Inv copying s e v h = absurd (cc)
back_step-Inv (gone n) s e v h = absurd (cc)

if_so : (b : Bool) {u t : Bridging} → (if b then some u else none) ≡ some t → (b ≡ true) × (u ≡ t)
if_so true h = (refl, some-eq h)
if_so false h = absurd (cc)

caller_step-Inv :
    (c : Caller) (s : Bridging) {t : Bridging}
    → s.caller ≡ c
    → Inv s
    → caller_step c s ≡ some t
    → Inv t
unfolding caller_step
caller_step-Inv waiting s e v h =
    let (_, k) = if_so s.done h in
    subst Inv k (record {
      counted = v.counted;
      forth_stored = v.forth_stored;
      cancelled = v.cancelled;
      back_stored = v.back_stored;
      closed = tt;
      at_return = tt;
    })
caller_step-Inv closing_a s e v h = subst Inv (some-eq h) (record {
  counted = v.counted;
  forth_stored = v.forth_stored;
  cancelled = v.cancelled;
  back_stored = v.back_stored;
  closed = refl;
  at_return = tt;
})
caller_step-Inv closing_b s e v h = subst Inv (some-eq h) (record {
  counted = v.counted;
  forth_stored = v.forth_stored;
  cancelled = v.cancelled;
  back_stored = v.back_stored;
  closed = (subst (λ c. Closed c s.a_closed s.b_closed) e v.closed, refl);
  at_return = tt;
})
caller_step-Inv joining s e v h =
    let (z, k) = if_so (s.wait_group == 0) h in
    subst Inv k (record {
      counted = v.counted;
      forth_stored = v.forth_stored;
      cancelled = v.cancelled;
      back_stored = v.back_stored;
      closed = subst (λ c. Closed c s.a_closed s.b_closed) e v.closed;
      at_return = (ground (arith, z), refl, refl);
    })
caller_step-Inv (returned x y) s e v h = absurd (cc)

pub step-Inv : (s : Bridging) (m : Move) {t : Bridging} → Inv s → step s m ≡ some t → Inv t
unfolding step
step-Inv s outer_ends v h = subst Inv (some-eq h) (record {
  counted = v.counted;
  forth_stored = v.forth_stored;
  cancelled = Cancelled-true s.forth;
  back_stored = v.back_stored;
  closed = v.closed;
  at_return = v.at_return;
})
step-Inv s (forth_copied n) v h = forth_ends_copy-Inv n s.forth s refl v h
step-Inv s forth_moves v h = forth_step-Inv s.forth s refl v h
step-Inv s (back_copied n) v h = back_ends_copy-Inv n s.back s refl v h
step-Inv s back_moves v h = back_step-Inv s.back s refl v h
step-Inv s caller_moves v h = caller_step-Inv s.caller s refl v h
