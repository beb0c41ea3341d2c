-- ===== src/Metrics/Shown.antt =====
-- What a snapshot shows after calls that come one after the other.
use gonc.Prelude.{ℕ, ◌≡◌, List, [], ◌∷◌, Option, none, some, arith}
use gonc.Text.{Str}
use gonc.Metrics.{
  Collector, Call, connection_opened, connection_closed, tunnel_reconnect, bytes_received,
  bytes_sent, record_error, record_health_check, accesses, call, perform_all, new, snapshot,
  text_of,
}

abbrev pub call_all : Option Collector → List Call → Option Collector
call_all c [] = c
call_all c (m ∷ ms) = call_all (call m c) ms

-- the time and the message of the last recorded error, and the time of the last health check
abbrev pub latest_error : Option (ℕ × Str) → List Call → Option (ℕ × Str)
latest_error e [] = e
latest_error e (record_error t msg ∷ ms) = latest_error (some (t, msg)) ms
latest_error e (m ∷ ms) = latest_error e ms

abbrev pub latest_check : Option ℕ → List Call → Option ℕ
latest_check t [] = t
latest_check t (record_health_check now ∷ ms) = latest_check (some now) ms
latest_check t (m ∷ ms) = latest_check t ms

abbrev pub time_shown : (ℕ → Str) → Option (ℕ × Str) → Str
time_shown rfc3339 none = []
time_shown rfc3339 (some e) = rfc3339 e.0

abbrev pub message_shown : Option (ℕ × Str) → Str
message_shown none = []
message_shown (some e) = e.1

-- what a collector has stored of errors
abbrev stored_with : Str → Option ℕ → Option (ℕ × Str)
stored_with msg none = none
stored_with msg (some t) = some (t, msg)

abbrev stored : Collector → Option (ℕ × Str)
stored c = stored_with c.last_error_msg c.last_error

module _ (since rfc3339 : ℕ → Str) where
  call_all-snapshot :
      (c : Collector) (ms : List Call)
      → ((snapshot since rfc3339 (call_all (some c) ms)).last_error
          ≡ time_shown rfc3339 (latest_error (stored c) ms))
        × ((snapshot since rfc3339 (call_all (some c) ms)).last_error_message
            ≡ message_shown (latest_error (stored c) ms))
        × ((snapshot since rfc3339 (call_all (some c) ms)).last_health_check
            ≡ text_of rfc3339 (latest_check c.last_health_check ms))
        × ((snapshot since rfc3339 (call_all (some c) ms)).uptime ≡ since c.start_time)
  unfolding snapshot call new
  call_all-snapshot c [] = ground arith
  call_all-snapshot c (connection_opened ∷ ms) =
      call_all-snapshot (perform_all (accesses connection_opened) c) ms
  call_all-snapshot c (connection_closed ∷ ms) =
      call_all-snapshot (perform_all (accesses connection_closed) c) ms
  call_all-snapshot c (tunnel_reconnect ∷ ms) =
      call_all-snapshot (perform_all (accesses tunnel_reconnect) c) ms
  call_all-snapshot c (bytes_received n ∷ ms) =
      call_all-snapshot (perform_all (accesses (bytes_received n)) c) ms
  call_all-snapshot c (bytes_sent n ∷ ms) =
      call_all-snapshot (perform_all (accesses (bytes_sent n)) c) ms
  call_all-snapshot c (record_error now msg ∷ ms) =
      call_all-snapshot (perform_all (accesses (record_error now msg)) c) ms
  call_all-snapshot c (record_health_check now ∷ ms) =
      call_all-snapshot (perform_all (accesses (record_health_check now)) c) ms

  -- What a snapshot of a new collector shows after any calls: the time and the message of the last
  -- error recorded, the time of the last health check, each of them empty if there was none, and the
  -- time since the collector was made.
  pub snapshot_latest :
      (now : ℕ) (ms : List Call)
      → ((snapshot since rfc3339 (call_all (some (new now)) ms)).last_error
          ≡ time_shown rfc3339 (latest_error none ms))
        × ((snapshot since rfc3339 (call_all (some (new now)) ms)).last_error_message
            ≡ message_shown (latest_error none ms))
        × ((snapshot since rfc3339 (call_all (some (new now)) ms)).last_health_check
            ≡ text_of rfc3339 (latest_check none ms))
        × ((snapshot since rfc3339 (call_all (some (new now)) ms)).uptime ≡ since now)
  unfolding new
  snapshot_latest now ms = call_all-snapshot (new now) ms
