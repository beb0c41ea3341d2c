-- ===== src/Tunnel/Reverse/Forward/Counted.antt =====
-- What the metrics of a reverse tunnel say of the connections that it has handled.
use gonc.Prelude.{ℕ, suc, ◌+◌, List, [], ◌∷◌, Option, Bool}
use gonc.Prelude.Int.{ℤ}
use gonc.Prelude.Result.{Result, ok, err}
use gonc.Text.{Str}
use gonc.Errors.{Error}
use gonc.Metrics.{Call}
use gonc.Tunnel.Reverse.{ReverseTunnelConfig}
use gonc.Tunnel.Reverse.Recorded.{Round, accept_calls}
use gonc.Tunnel.Reverse.Recorded.Due.{recorded_in, all_unanswered, watched}
use gonc.Tunnel.Reverse.Forward.{
  Event, dials, counts, bridges, closes_local, closes_remote, leaves_group, handle_connection,
}

abbrev pub calls_of : List Event → List Call
calls_of [] = []
calls_of (counts m ∷ es) = m ∷ calls_of es
calls_of (dials t ∷ es) = calls_of es
calls_of (bridges ∷ es) = calls_of es
calls_of (closes_local ∷ es) = calls_of es
calls_of (closes_remote ∷ es) = calls_of es
calls_of (leaves_group ∷ es) = calls_of es

abbrev pub failures : {A : Type 0} → List (Result Error A) → ℕ
failures [] = 0
failures (ok a ∷ rs) = failures rs
failures (err e ∷ rs) = suc (failures rs)

module _ (error_text : Error → Str) (now : ℕ) (cfg : ReverseTunnelConfig) where
  -- the calls of the handlers, one list for each
  abbrev pub handled : List (Result Error (ℤ × ℤ)) → List (List Call)
  handled [] = []
  handled (r ∷ rs) = calls_of (handle_connection error_text now cfg r) ∷ handled rs

  -- the goroutines: the accept loop, the keepalive loops, and the handlers
  abbrev pub all_calls :
      {Client Listener : Type 0}
      → (ℕ → ℕ)
      → (keepalive auto_reconnect : Bool) → List (Round Client Listener)
      → List (List (Option Error))
      → List (Result Error (ℤ × ℤ))
      → List (List Call)
  all_calls clock keepalive auto_reconnect rounds beats rs =
      accept_calls error_text clock keepalive auto_reconnect rounds
      ∷ watched error_text now beats (handled rs)

  module _ {Client Listener : Type 0} (clock : ℕ → ℕ) (keepalive auto_reconnect : Bool)
      (rounds : List (Round Client Listener)) (beats : List (List (Option Error)))
      (rs : List (Result Error (ℤ × ℤ))) where
    -- failed calls of `Accept`, attempts to reconnect, keepalive requests and local dials
    abbrev pub all_failures : ℕ
    all_failures =
        recorded_in error_text clock keepalive auto_reconnect rounds
        + (all_unanswered beats + failures rs)
