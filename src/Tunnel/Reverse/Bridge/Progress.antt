-- ===== src/Tunnel/Reverse/Bridge/Progress.antt =====
-- `bridgeConns` comes to an end by its own doing, once one of its copies has ended or the outer
-- context is done.
use gonc.Prelude.{
  ℕ, zero, suc, ◌+◌, ◌≡◌, ◌⊎◌, inl, inr, refl, ap, subst, ◌∙◌, List, [], ◌∷◌, Option, none, some,
  Bool, true, false, if◌then◌else◌, arith,
}
use gonc.Prelude.Int.{ℤ, pos}
use gonc.Tunnel.Reverse.Bridge.{
  Phase, copying, storing, cancelling, leaving, gone, Caller, waiting, closing_a, closing_b,
  joining, returned, Bridging, started, Move, outer_ends, forth_moves, back_moves, caller_moves,
  forth_copied, back_copied, forth_ends_copy, forth_step, back_ends_copy, back_step, caller_step,
  step, run,
}
use gonc.Tunnel.Reverse.Bridge.Kept.{unfinished, Closed, Inv, step-Inv}
use gonc.Tunnel.Reverse.Bridge.Joined.{started-Inv, run-Inv}

-- the moves that a goroutine and the call have left
abbrev steps_left : Phase → ℕ
steps_left copying = 4
steps_left (storing n) = 3
steps_left (cancelling n) = 2
steps_left (leaving n) = 1
steps_left (gone n) = 0

abbrev calls_left : Caller → ℕ
calls_left waiting = 4
calls_left closing_a = 3
calls_left closing_b = 2
calls_left joining = 1
calls_left (returned x y) = 0

abbrev left_over : Bridging → ℕ
left_over s = steps_left s.forth + steps_left s.back + calls_left s.caller

-- The moves that need nothing from outside: a copy is ended by the close of the connection that it
-- reads from, and not by what the peers do.
abbrev pub is_own : Bridging → Move → Bool
is_own s outer_ends = false
is_own s (forth_copied n) = s.a_closed
is_own s (back_copied n) = s.b_closed
is_own s forth_moves = true
is_own s back_moves = true
is_own s caller_moves = true

-- a schedule of such moves
abbrev pub own_run : Option Bridging → List Move → Option Bridging
own_run o [] = o
own_run none (m ∷ ms) = none
own_run (some s) (m ∷ ms) = own_run (if is_own s m then step s m else none) ms

abbrev Steps : Bridging → Type 0
Steps s =
    (m : Move) × (t : Bridging) × (step s m ≡ some t)
    × (is_own s m ≡ true)
    × (suc (left_over t) ≡ left_over s)
    × (t.done ≡ true)

abbrev HasReturned : Bridging → Type 0
HasReturned s = (x : ℤ) × (y : ℤ) × (s.caller ≡ returned x y)

joining-Steps :
    (s : Bridging)
    → s.caller ≡ joining
    → unfinished s.forth ≡ 0
    → unfinished s.back ≡ 0
    → s.done ≡ true
    → Inv s
    → Steps s
unfolding step caller_step
joining-Steps s e f b d v =
    let z : s.wait_group ≡ 0 = omega (arith, v.counted) in
    let k : step s caller_moves ≡ some (record s { caller = returned s.a_to_b s.b_to_a }) =
      rw e (rw z refl) in
    (caller_moves, _, k, refl, omega (arith, ap calls_left e), d)

back-Steps :
    (b : Phase) (s : Bridging)
    → s.back ≡ b
    → s.caller ≡ joining
    → s.b_closed ≡ true
    → unfinished s.forth ≡ 0
    → s.done ≡ true
    → Inv s
    → Steps s
unfolding step back_ends_copy back_step
back-Steps copying s e c q z d v = (
  back_copied (pos 0),
  _,
  ap (λ b. back_ends_copy (pos 0) b s) e,
  q,
  omega (arith, ap steps_left e),
  d,
)
back-Steps (storing n) s e c q z d v =
    (back_moves, _, ap (λ b. back_step b s) e, refl, omega (arith, ap steps_left e), d)
back-Steps (cancelling n) s e c q z d v =
    (back_moves, _, ap (λ b. back_step b s) e, refl, omega (arith, ap steps_left e), refl)
back-Steps (leaving n) s e c q z d v =
    (back_moves, _, ap (λ b. back_step b s) e, refl, omega (arith, ap steps_left e), d)
back-Steps (gone n) s e c q z d v = joining-Steps s c z (ap unfinished e) d v

forth-Steps :
    (f : Phase) (s : Bridging)
    → s.forth ≡ f
    → s.caller ≡ joining
    → (s.a_closed ≡ true) × (s.b_closed ≡ true)
    → s.done ≡ true
    → Inv s
    → Steps s
unfolding step forth_ends_copy forth_step
forth-Steps copying s e c (p, q) d v = (
  forth_copied (pos 0),
  _,
  ap (λ f. forth_ends_copy (pos 0) f s) e,
  p,
  omega (arith, ap steps_left e),
  d,
)
forth-Steps (storing n) s e c h d v =
    (forth_moves, _, ap (λ f. forth_step f s) e, refl, omega (arith, ap steps_left e), d)
forth-Steps (cancelling n) s e c h d v =
    (forth_moves, _, ap (λ f. forth_step f s) e, refl, omega (arith, ap steps_left e), refl)
forth-Steps (leaving n) s e c h d v =
    (forth_moves, _, ap (λ f. forth_step f s) e, refl, omega (arith, ap steps_left e), d)
forth-Steps (gone n) s e c (p, q) d v = back-Steps s.back s refl c q (ap unfinished e) d v

-- The call goes on until it waits for the goroutines, which then end.
caller-Steps :
    (c : Caller) (s : Bridging) → s.caller ≡ c → s.done ≡ true → Inv s → HasReturned s ⊎ Steps s
unfolding step caller_step
caller-Steps waiting s e d v =
    let k : step s caller_moves ≡ some (record s { caller = closing_a }) = rw e (rw d refl) in
    inr (caller_moves, _, k, refl, omega (arith, ap calls_left e), d)
caller-Steps closing_a s e d v =
    inr (caller_moves, _, ap (λ c. caller_step c s) e, refl, omega (arith, ap calls_left e), d)
caller-Steps closing_b s e d v =
    inr (caller_moves, _, ap (λ c. caller_step c s) e, refl, omega (arith, ap calls_left e), d)
caller-Steps joining s e d v =
    inr (forth-Steps s.forth s refl e (subst (λ c. Closed c s.a_closed s.b_closed) e v.closed) d v)
caller-Steps (returned x y) s e d v = inl (x, y, e)

Finishes : Bridging → Type 0
Finishes s =
    (ms : List Move) × (t : Bridging) × (own_run (some s) ms ≡ some t)
    × (x : ℤ) × (y : ℤ) × (t.caller ≡ returned x y)

goes_on :
    (s : Bridging) (m : Move) (t : Bridging)
    → step s m ≡ some t
    → is_own s m ≡ true
    → Finishes t
    → Finishes s
unfolding Finishes
goes_on s m t e o (ms, u, f, x, y, r) =
    let k : own_run (some s) (m ∷ ms) ≡ own_run (some t) ms = rw o (rw e refl) in
    (m ∷ ms, u, k ∙ f, x, y, r)

finishes : (n : ℕ) (s : Bridging) → left_over s ≡ n → s.done ≡ true → Inv s → Finishes s
unfolding Finishes
finishes zero s l d v = elim (caller-Steps s.caller s refl d v) [
  | inl (x, y, r) ↦ ([], s, refl, x, y, r)
  | inr (m, t, e, o, less, done) ↦ absurd (omega (arith, less, l))
]
finishes (suc n) s l d v = elim (caller-Steps s.caller s refl d v) [
  | inl (x, y, r) ↦ ([], s, refl, x, y, r)
  | inr (m, t, e, o, less, done) ↦
      goes_on s m t e o (finishes n t (omega (arith, less, l)) done (step-Inv s m v e))
]

-- Once its context is done, because a copy has ended or the outer context is done, `bridgeConns` can
-- return whatever the peers do: from whatever state a schedule has led to, some schedule lets it
-- return in which no copy ends before the connection that it reads from has been closed.
pub run_bridge_returns :
    (ms : List Move) {s : Bridging}
    → run (some started) ms ≡ some s
    → s.done ≡ true
    → (more : List Move) × (t : Bridging) × (own_run (some s) more ≡ some t)
      × (x : ℤ) × (y : ℤ) × (t.caller ≡ returned x y)
unfolding Finishes
run_bridge_returns ms {s} h d =
    let (more, t, e, x, y, r) =
      finishes (left_over s) s refl d (run-Inv started ms started-Inv h) in
    (more, t, e, x, y, r)
