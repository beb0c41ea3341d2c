-- ===== src/Tunnel/Reverse/Reconnect.antt =====
-- tunnel/reverse_health.go: `reconnect`. What the calls on the outside give in each attempt is a
-- parameter, as is the clock; what the function does is kept as a list of events,
-- without the goroutine that `dialSSH` starts for each client, which ends with the client.
pub mod Course
pub mod Quiet
use gonc.Prelude.{
  ℕ, zero, suc, ◌*◌, List, [], ◌∷◌, ◌++◌, Option, none, some, Bool, true, false, if◌then◌else◌, leb,
}
use gonc.Prelude.Int.{pos}
use gonc.Text.{Str, codes, itoa}
use gonc.Errors.{Error, plain}
use gonc.Metrics.{Call, tunnel_reconnect, record_error}

-- What an attempt meets: a context that is done, an error of `dialSSH`, one of
-- `listenRemoteForward` on a client, or a client with its listener.
pub data Attempt (Client Listener : Type 0) : Type 0 where
  ctx_done dial_fails : Error → Attempt Client Listener
  listen_fails : Client → Error → Attempt Client Listener
  succeeds : Client → Listener → Attempt Client Listener

-- `sleeps` is `sleepCtx`, with its duration in nanoseconds.
pub data Event (Client Listener : Type 0) : Type 0 where
  closes_listener : Listener → Event Client Listener
  closes_client : Client → Event Client Listener
  counts : Call → Event Client Listener
  sleeps : ℕ → Event Client Listener
  starts_keepalive : Event Client Listener

pub record Reconnected (Client Listener : Type 0) : Type 0 where
  pub returned : Option Error
  pub client : Option Client
  pub listener : Option Listener
  pub events : List (Event Client Listener)

abbrev pub first_backoff : ℕ
first_backoff = 1000000000

abbrev pub max_backoff : ℕ
max_backoff = 60000000000

abbrev pub max_attempts : ℕ
max_attempts = 10

-- `min(backoff*2, maxBackoff)`
pub next_backoff : ℕ → ℕ
next_backoff b = if leb (b * 2) max_backoff then b * 2 else max_backoff

abbrev pub gives_up : Error
gives_up = plain (codes "failed to reconnect after 10 attempts")

module _ {Client Listener : Type 0} (attempt : ℕ → Attempt Client Listener)
    (error_text : Error → Str) (now : ℕ → ℕ) (keepalive : Bool) where
  failed : ℕ → Str → Error → Event Client Listener
  failed n kind e = counts (
      record_error (now n) (
        codes "reconnect "
        ++ kind
        ++ codes " attempt "
        ++ itoa (pos n)
        ++ codes ": "
        ++ error_text e))

  keeps_alive : Bool → List (Event Client Listener)
  keeps_alive true = starts_keepalive ∷ []
  keeps_alive false = []

  -- attempt `n` with its backoff, and what follows it if it fails
  round :
      ℕ → ℕ → Reconnected Client Listener → Attempt Client Listener → Reconnected Client Listener
  unfolding failed keeps_alive
  round n backoff rest (ctx_done e) = record {
    returned = some e;
    client = none;
    listener = none;
    events = [];
  }
  round n backoff rest (dial_fails e) = record rest {
    events = failed n (codes "SSH") e ∷ sleeps backoff ∷ rest.events;
  }
  round n backoff rest (listen_fails client e) = record rest {
    events = failed n (codes "listen") e ∷ closes_client client ∷ sleeps backoff ∷ rest.events;
  }
  round n backoff rest (succeeds client listener) = record {
    returned = none;
    client = some client;
    listener = some listener;
    events = keeps_alive keepalive;
  }

  -- the loop with so many attempts left, of which the first has the number `n`
  attempts : ℕ → ℕ → ℕ → Reconnected Client Listener
  unfolding round next_backoff
  attempts zero n backoff = record {
    returned = some gives_up;
    client = none;
    listener = none;
    events = [];
  }
  attempts (suc left) n backoff =
      round n backoff (attempts left (suc n) (next_backoff backoff)) (attempt n)

  closes_old : Option Listener → Option Client → List (Event Client Listener)
  closes_old none none = []
  closes_old none (some c) = closes_client c ∷ []
  closes_old (some l) none = closes_listener l ∷ []
  closes_old (some l) (some c) = closes_listener l ∷ closes_client c ∷ []

  -- `reconnect`, for the listener and the client that the tunnel has
  unfoldable pub reconnect : Option Listener → Option Client → Reconnected Client Listener
  unfolding closes_old attempts
  reconnect listener client =
      let rest = attempts max_attempts 1 first_backoff in
      record rest { events = counts tunnel_reconnect ∷ (closes_old listener client ++ rest.events) }
