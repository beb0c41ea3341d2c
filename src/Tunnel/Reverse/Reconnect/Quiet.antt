-- ===== src/Tunnel/Reverse/Reconnect/Quiet.antt =====
-- `reconnect` calls the metrics for the reconnection itself and for errors, and for nothing else.
use gonc.Prelude.{ℕ, zero, suc, List, [], ◌∷◌, ◌++◌, Option, none, some, Bool, true, false}
use gonc.Text.{Str}
use gonc.Errors.{Error}
use gonc.Metrics.{Call, tunnel_reconnect, record_error}
use gonc.Tunnel.Reverse.Reconnect.{
  Attempt, ctx_done, dial_fails, listen_fails, succeeds, Event, closes_listener, closes_client,
  counts, sleeps, starts_keepalive, Reconnected, round, attempts, closes_old, reconnect, failed,
  keeps_alive, max_attempts, first_backoff,
}

-- the calls that `reconnect` makes
abbrev pub IsQuiet : Call → Type 0
IsQuiet (record_error t s) = Unit
IsQuiet tunnel_reconnect = Unit
IsQuiet _ = ⊥

module _ {Client Listener : Type 0} where
  abbrev pub AllQuiet : List (Event Client Listener) → Type 0
  AllQuiet [] = Unit
  AllQuiet (counts m ∷ es) = IsQuiet m × AllQuiet es
  AllQuiet (sleeps d ∷ es) = AllQuiet es
  AllQuiet (closes_listener l ∷ es) = AllQuiet es
  AllQuiet (closes_client c ∷ es) = AllQuiet es
  AllQuiet (starts_keepalive ∷ es) = AllQuiet es

module _ {Client Listener : Type 0} (error_text : Error → Str) (now : ℕ → ℕ) (keepalive : Bool)
    (attempt : ℕ → Attempt Client Listener) where
  kept-AllQuiet : (b : Bool) → AllQuiet (keeps_alive attempt error_text now keepalive b)
  unfolding keeps_alive
  kept-AllQuiet true = tt
  kept-AllQuiet false = tt

  round-AllQuiet :
      (n backoff : ℕ) (rest : Reconnected Client Listener) (a : Attempt Client Listener)
      → AllQuiet rest.events
      → AllQuiet (round attempt error_text now keepalive n backoff rest a).events
  unfolding round failed
  round-AllQuiet n backoff rest (ctx_done e) q = tt
  round-AllQuiet n backoff rest (dial_fails e) q = (tt, q)
  round-AllQuiet n backoff rest (listen_fails c e) q = (tt, q)
  round-AllQuiet n backoff rest (succeeds c l) q = kept-AllQuiet keepalive

  attempts-AllQuiet :
      (left n backoff : ℕ)
      → AllQuiet (attempts attempt error_text now keepalive left n backoff).events
  unfolding attempts
  attempts-AllQuiet zero n backoff = tt
  attempts-AllQuiet (suc left) n backoff =
      round-AllQuiet n backoff _ (attempt n) (attempts-AllQuiet left (suc n) _)

  old-AllQuiet :
      (l : Option Listener) (c : Option Client) (es : List (Event Client Listener))
      → AllQuiet es
      → AllQuiet (closes_old attempt error_text now keepalive l c ++ es)
  unfolding closes_old
  old-AllQuiet none none es q = q
  old-AllQuiet none (some c) es q = q
  old-AllQuiet (some l) none es q = q
  old-AllQuiet (some l) (some c) es q = q

  pub reconnect-AllQuiet :
      (l : Option Listener) (c : Option Client)
      → AllQuiet (reconnect attempt error_text now keepalive l c).events
  unfolding reconnect
  reconnect-AllQuiet l c = (tt, old-AllQuiet l c _ (attempts-AllQuiet max_attempts 1 first_backoff))
