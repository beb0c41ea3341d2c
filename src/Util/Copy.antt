-- ===== src/Util/Copy.antt =====
-- util/io.go: `BidirectionalCopy`, with its two goroutines, and `isHarmless`. What `io.Copy` returns
-- comes with the move that ends it. Both goroutines stand at their start when the model begins: the
-- first cannot do anything before the second is made that it could not do after.
pub mod Harmless
pub mod Kept
pub mod Joined
pub mod Stopped
use gonc.Prelude.{
  ℕ, suc, ◌-◌, List, [], ◌∷◌, ◌++◌, Option, none, some, Bool, true, false, ◌||◌, if◌then◌else◌, ltb,
  ◌==◌, length,
}
use gonc.Errors.{Error, Cause, no_cause, cause, op_error, as_type, as_cause}

-- The sentinels are pointers: `is_eof`, `is_closed` and `is_closed_pipe` tell whether an error is
-- `io.EOF`, `net.ErrClosed` or `io.ErrClosedPipe` itself.
pub record Sentinels : Type 0 where
  pub is_eof : Error → Bool
  pub is_closed : Error → Bool
  pub is_closed_pipe : Error → Bool

abbrev pub probe_of : (Error → Bool) → Error → Option (Unit {0})
probe_of is e = if is e then some tt else none

abbrev is_found : Option (Unit {0}) → Bool
is_found none = false
is_found (some u) = true

-- `errors.Is`, which searches as `errors.As` does
pub is_in : (Error → Bool) → Cause → Bool
unfolding as_cause
is_in is c = is_found (as_cause (probe_of is) c)

-- `errors.As(err, &opErr)`, with the field `Err` of what is found
abbrev pub op_cause : Error → Option Cause
op_cause (op_error t c) = some c
op_cause _ = none

module _ (sentinels : Sentinels) where
  open sentinels use {is_eof, is_closed, is_closed_pipe}

  closed_op : Option Cause → Bool
  unfolding is_in
  closed_op none = false
  closed_op (some c) = is_in is_closed c

  -- `isHarmless` of an error that is not nil
  pub is_harmless : Error → Bool
  unfolding closed_op is_in as_type
  is_harmless e =
      if is_in is_eof (cause e) || is_in is_closed (cause e) || is_in is_closed_pipe (cause e)
      then true
      else closed_op (as_type op_cause e)

  -- the loop over `errCh`
  pub first_harmful : List (Option Error) → Option Error
  unfolding is_harmless
  first_harmful [] = none
  first_harmful (none ∷ es) = first_harmful es
  first_harmful (some e ∷ es) =
      let rest = first_harmful es in if is_harmless e then rest else some e

-- Where a goroutine is: in `io.Copy`, before `CloseWrite` (the one that reads `r` only), before
-- `errCh <- err`, before the `cancel` that may follow, before `wg.Done`, and at its end. A phase
-- after the copy keeps the error that `io.Copy` has returned.
pub data Phase : Type 0 where
  copying : Phase
  half_closing reporting cancelling leaving gone : Option Error → Phase

-- The call itself: before `<-ctx.Done()`, `conn.Close()` and `wg.Wait()`, and at its return.
pub data Caller : Type 0 where
  waiting closing joining : Caller
  returned : Option Error → Caller

-- `from_conn` copies the connection to the writer, `from_reader` the reader to the connection. The
-- context is done when the outer one is, or `cancel` was called.
pub record Copying : Type 0 where
  pub from_conn : Phase
  pub from_reader : Phase
  pub caller : Caller
  pub outer_done : Bool
  pub cancelled : Bool
  pub conn_closed : Bool
  pub write_closed : Bool
  pub wait_group : ℕ
  pub err_ch : List (Option Error)

abbrev pub started : Copying
started = record {
  from_conn = copying;
  from_reader = copying;
  caller = waiting;
  outer_done = false;
  cancelled = false;
  conn_closed = false;
  write_closed = false;
  wait_group = 2;
  err_ch = [];
}

pub data Move : Type 0 where
  outer_ends : Move
  conn_copied reader_copied : Option Error → Move
  conn_moves reader_moves caller_moves : Move

abbrev pub is_error : Option Error → Bool
is_error none = false
is_error (some e) = true

conn_ends_copy : Option Error → Copying → Phase → Option Copying
conn_ends_copy err s copying = some (record s { from_conn = reporting err })
conn_ends_copy err s _ = none

conn_step : Copying → Phase → Option Copying
conn_step s (reporting err) =
    if ltb (length s.err_ch) 2
    then some (record s { from_conn = cancelling err; err_ch = s.err_ch ++ err ∷ [] })
    else none
conn_step s (cancelling err) = some (record s { from_conn = leaving err; cancelled = true })
conn_step s (leaving err) = some (record s { from_conn = gone err; wait_group = s.wait_group - 1 })
conn_step s _ = none

reader_ends_copy : Option Error → Copying → Phase → Option Copying
reader_ends_copy err s copying = some (record s { from_reader = half_closing err })
reader_ends_copy err s _ = none

module _ (sentinels : Sentinels) (is_tcp : Bool) where
  reader_step : Copying → Phase → Option Copying
  reader_step s (half_closing err) =
      some (record s { from_reader = reporting err; write_closed = s.write_closed || is_tcp })
  reader_step s (reporting err) =
      if ltb (length s.err_ch) 2
      then some (record s { from_reader = cancelling err; err_ch = s.err_ch ++ err ∷ [] })
      else none
  reader_step s (cancelling err) =
      some (record s { from_reader = leaving err; cancelled = s.cancelled || is_error err })
  reader_step s (leaving err) =
      some (record s { from_reader = gone err; wait_group = s.wait_group - 1 })
  reader_step s _ = none

  caller_step : Copying → Caller → Option Copying
  unfolding first_harmful
  caller_step s waiting =
      if s.outer_done || s.cancelled then some (record s { caller = closing }) else none
  caller_step s closing = some (record s { caller = joining; conn_closed = true })
  caller_step s joining =
      if s.wait_group == 0
      then some (record s { caller = returned (first_harmful sentinels s.err_ch) })
      else none
  caller_step s (returned err) = none

  pub step : Copying → Move → Option Copying
  unfolding conn_ends_copy conn_step reader_ends_copy reader_step caller_step
  step s outer_ends = some (record s { outer_done = true })
  step s (conn_copied err) = conn_ends_copy err s s.from_conn
  step s (reader_copied err) = reader_ends_copy err s s.from_reader
  step s conn_moves = conn_step s s.from_conn
  step s reader_moves = reader_step s s.from_reader
  step s caller_moves = caller_step s s.caller

  unfoldable pub run : Option Copying → List Move → Option Copying
  unfolding step
  run o [] = o
  run none (m ∷ ms) = none
  run (some s) (m ∷ ms) = run (step s m) ms
