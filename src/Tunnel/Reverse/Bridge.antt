-- ===== src/Tunnel/Reverse/Bridge.antt =====
-- tunnel/reverse_forwarder.go: `bridgeConns`, with its two goroutines. What `io.Copy` has copied comes
-- with the move that ends it; it may end at any time, since its peer may, and Progress is about the
-- ends that the closes force.
pub mod Kept
pub mod Joined
pub mod Progress
use gonc.Prelude.{
  ℕ, ◌-◌, List, [], ◌∷◌, Option, none, some, Bool, true, false, ◌||◌, if◌then◌else◌, ◌==◌,
}
use gonc.Prelude.Int.{ℤ, pos}

-- A goroutine: in `io.Copy`, before it stores the count, before `cancel`, before the deferred `Done`,
-- at its end.
pub data Phase : Type 0 where
  copying : Phase
  storing cancelling leaving gone : ℤ → Phase

-- The call itself: before `<-ctx.Done()`, the two closes and `wg.Wait`, and at its return.
pub data Caller : Type 0 where
  waiting closing_a closing_b joining : Caller
  returned : (a_to_b b_to_a : ℤ) → Caller

pub record Bridging : Type 0 where
  pub forth : Phase
  pub back : Phase
  pub caller : Caller
  pub a_to_b : ℤ
  pub b_to_a : ℤ
  pub done : Bool
  pub a_closed : Bool
  pub b_closed : Bool
  pub wait_group : ℕ

abbrev pub started : Bridging
started = record {
  forth = copying;
  back = copying;
  caller = waiting;
  a_to_b = pos 0;
  b_to_a = pos 0;
  done = false;
  a_closed = false;
  b_closed = false;
  wait_group = 2;
}

pub data Move : Type 0 where
  outer_ends forth_moves back_moves caller_moves : Move
  forth_copied back_copied : ℤ → Move

forth_ends_copy : ℤ → Phase → Bridging → Option Bridging
forth_ends_copy n copying s = some (record s { forth = storing n })
forth_ends_copy n _ s = none

forth_step : Phase → Bridging → Option Bridging
forth_step (storing n) s = some (record s { forth = cancelling n; a_to_b = n })
forth_step (cancelling n) s = some (record s { forth = leaving n; done = true })
forth_step (leaving n) s = some (record s { forth = gone n; wait_group = s.wait_group - 1 })
forth_step _ s = none

back_ends_copy : ℤ → Phase → Bridging → Option Bridging
back_ends_copy n copying s = some (record s { back = storing n })
back_ends_copy n _ s = none

back_step : Phase → Bridging → Option Bridging
back_step (storing n) s = some (record s { back = cancelling n; b_to_a = n })
back_step (cancelling n) s = some (record s { back = leaving n; done = true })
back_step (leaving n) s = some (record s { back = gone n; wait_group = s.wait_group - 1 })
back_step _ s = none

caller_step : Caller → Bridging → Option Bridging
caller_step waiting s = if s.done then some (record s { caller = closing_a }) else none
caller_step closing_a s = some (record s { caller = closing_b; a_closed = true })
caller_step closing_b s = some (record s { caller = joining; b_closed = true })
caller_step joining s =
    if s.wait_group == 0 then some (record s { caller = returned s.a_to_b s.b_to_a }) else none
caller_step (returned x y) s = none

pub step : Bridging → Move → Option Bridging
unfolding forth_ends_copy forth_step back_ends_copy back_step caller_step
step s outer_ends = some (record s { done = true })
step s (forth_copied n) = forth_ends_copy n s.forth s
step s forth_moves = forth_step s.forth s
step s (back_copied n) = back_ends_copy n s.back s
step s back_moves = back_step s.back s
step s caller_moves = caller_step s.caller s

unfoldable pub run : Option Bridging → List Move → Option Bridging
unfolding step
run o [] = o
run none (m ∷ ms) = none
run (some s) (m ∷ ms) = run (step s m) ms
