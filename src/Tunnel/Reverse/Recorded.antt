-- ===== src/Tunnel/Reverse/Recorded.antt =====
-- tunnel/reverse_tunnel.go (`acceptLoop`) and tunnel/reverse_health.go (`keepaliveLoop`): their calls
-- of the metrics, for what `Accept`, the attempts to reconnect and the keepalive requests give.
pub mod Due
use gonc.Prelude.{ℕ, List, [], ◌∷◌, ◌++◌, Option, none, some, Bool, true, false}
use gonc.Text.{Str, codes}
use gonc.Errors.{Error}
use gonc.Metrics.{Call, connection_opened, record_error, record_health_check}
use gonc.Tunnel.Reverse.Reconnect.{
  Attempt, Event, closes_listener, closes_client, counts, sleeps, starts_keepalive, Reconnected,
  reconnect,
}

-- A round of the accept loop: `Accept` gives a connection; or an error, at some time, with whether the
-- context is done then, and with what an attempt to reconnect meets and tears down if it comes to one.
pub data Round (Client Listener : Type 0) : Type 0 where
  takes : Round Client Listener
  fails :
      (ctx_done : Bool) (time : ℕ)
      → Error
      → (ℕ → Attempt Client Listener)
      → Option Listener
      → Option Client
      → Round Client Listener

-- the calls of a failed round before the next ones, `rest`
goes_on : Option Error → List Call → List Call
goes_on none rest = rest
goes_on (some e) rest = []

module _ {Client Listener : Type 0} where
  calls_then : List (Event Client Listener) → List Call → List Call
  calls_then [] rest = rest
  calls_then (counts m ∷ es) rest = m ∷ calls_then es rest
  calls_then (sleeps d ∷ es) rest = calls_then es rest
  calls_then (closes_listener l ∷ es) rest = calls_then es rest
  calls_then (closes_client c ∷ es) rest = calls_then es rest
  calls_then (starts_keepalive ∷ es) rest = calls_then es rest

  -- what follows an error of `Accept`, by whether the context is done and `AutoReconnect`
  on_failure :
      (ctx_done auto_reconnect : Bool) → Call → Reconnected Client Listener → List Call → List Call
  unfolding calls_then goes_on
  on_failure true auto_reconnect m r rest = []
  on_failure false false m r rest = m ∷ []
  on_failure false true m r rest = m ∷ calls_then r.events (goes_on r.returned rest)

module _ {Client Listener : Type 0} (error_text : Error → Str) (now : ℕ → ℕ)
    (keepalive auto_reconnect : Bool) where
  -- `acceptLoop`
  unfoldable pub accept_calls : List (Round Client Listener) → List Call
  unfolding on_failure reconnect
  accept_calls [] = []
  accept_calls (takes ∷ rounds) = connection_opened ∷ accept_calls rounds
  accept_calls (fails ctx_done time e attempt listener client ∷ rounds) =
      on_failure ctx_done auto_reconnect (record_error time (codes "accept: " ++ error_text e))
        (reconnect attempt error_text now keepalive listener client) (accept_calls rounds)

-- `keepaliveLoop`, for the answers to its requests: an error, or none
unfoldable pub keepalive_calls : (Error → Str) → ℕ → List (Option Error) → List Call
keepalive_calls error_text now [] = []
keepalive_calls error_text now (none ∷ answers) =
    record_health_check now ∷ keepalive_calls error_text now answers
keepalive_calls error_text now (some e ∷ answers) =
    record_error now (codes "keepalive: " ++ error_text e) ∷ []
