-- ===== src/Metrics.antt =====
-- internal/metrics/metrics.go: the collector. A method is the list of its accesses to the shared
-- collector, each of them one atomic addition or one section under the mutex, so that calls of
-- several goroutines can interleave. The counters are `atomic.Int64`, as bit patterns below 2 ^ 64.
-- The clock is a parameter: a call carries the time that `time.Now()` gives in it.
pub mod Amounts
pub mod Interleaved
pub mod Shown
use gonc.Prelude.{ℕ, suc, ◌+◌, List, [], ◌∷◌, Option, none, some, ◌++◌, map, get_elem?, set}
use gonc.Prelude.Int.{ℤ, pos, negsuc}
use gonc.Prelude.Int64.{wrap, pattern_of, signed}
use gonc.Text.{Str}

-- `Collector`; a `time.Time` is none while it is zero.
pub record Collector : Type 0 where
  pub connections_active : ℕ
  pub connections_total : ℕ
  pub bytes_in : ℕ
  pub bytes_out : ℕ
  pub tunnel_reconnects : ℕ
  pub errors_total : ℕ
  pub start_time : ℕ
  pub last_health_check : Option ℕ
  pub last_error : Option ℕ
  pub last_error_msg : Str

-- `New`
pub new : ℕ → Collector
new now = record {
  connections_active = 0;
  connections_total = 0;
  bytes_in = 0;
  bytes_out = 0;
  tunnel_reconnects = 0;
  errors_total = 0;
  start_time = now;
  last_health_check = none;
  last_error = none;
  last_error_msg = [];
}

-- The accesses: `Add(n)` of a counter, and the two sections under the mutex.
pub data Access : Type 0 where
  add_active add_total add_bytes_in add_bytes_out add_reconnects add_errors : ℤ → Access
  store_error : ℕ → Str → Access
  store_health_check : ℕ → Access

pub perform : Access → Collector → Collector
perform (add_active n) c = record c {
  connections_active = wrap (c.connections_active + pattern_of n);
}
perform (add_total n) c = record c { connections_total = wrap (c.connections_total + pattern_of n) }
perform (add_bytes_in n) c = record c { bytes_in = wrap (c.bytes_in + pattern_of n) }
perform (add_bytes_out n) c = record c { bytes_out = wrap (c.bytes_out + pattern_of n) }
perform (add_reconnects n) c = record c {
  tunnel_reconnects = wrap (c.tunnel_reconnects + pattern_of n);
}
perform (add_errors n) c = record c { errors_total = wrap (c.errors_total + pattern_of n) }
perform (store_error now msg) c = record c { last_error = some now; last_error_msg = msg }
perform (store_health_check now) c = record c { last_health_check = some now }

-- The methods that write, with their arguments and the time of the call.
pub data Call : Type 0 where
  connection_opened connection_closed tunnel_reconnect : Call
  bytes_received bytes_sent : ℤ → Call
  record_error : ℕ → Str → Call
  record_health_check : ℕ → Call

pub accesses : Call → List Access
accesses connection_opened = add_active (pos 1) ∷ add_total (pos 1) ∷ []
accesses connection_closed = add_active (negsuc 0) ∷ []
accesses tunnel_reconnect = add_reconnects (pos 1) ∷ []
accesses (bytes_received n) = add_bytes_in n ∷ []
accesses (bytes_sent n) = add_bytes_out n ∷ []
accesses (record_error now msg) = add_errors (pos 1) ∷ store_error now msg ∷ []
accesses (record_health_check now) = store_health_check now ∷ []

pub perform_all : List Access → Collector → Collector
unfolding perform
perform_all [] c = c
perform_all (a ∷ rest) c = perform_all rest (perform a c)

-- A call that nothing interrupts; on a nil collector every method returns at once.
pub call : Call → Option Collector → Option Collector
unfolding perform_all accesses
call m none = none
call m (some c) = some (perform_all (accesses m) c)

-- `ActiveConnections`, `TotalConnections`, `TotalBytesIn`, `TotalBytesOut`, `TunnelReconnects` and
-- `ErrorCount`
pub active_connections : Option Collector → ℤ
active_connections none = pos 0
active_connections (some c) = signed c.connections_active

pub total_connections : Option Collector → ℤ
total_connections none = pos 0
total_connections (some c) = signed c.connections_total

pub total_bytes_in : Option Collector → ℤ
total_bytes_in none = pos 0
total_bytes_in (some c) = signed c.bytes_in

pub total_bytes_out : Option Collector → ℤ
total_bytes_out none = pos 0
total_bytes_out (some c) = signed c.bytes_out

pub tunnel_reconnects_of : Option Collector → ℤ
tunnel_reconnects_of none = pos 0
tunnel_reconnects_of (some c) = signed c.tunnel_reconnects

pub error_count : Option Collector → ℤ
error_count none = pos 0
error_count (some c) = signed c.errors_total

-- `Snapshot`
pub record Snapshot : Type 0 where
  pub uptime : Str
  pub connections_active : ℤ
  pub connections_total : ℤ
  pub bytes_in : ℤ
  pub bytes_out : ℤ
  pub tunnel_reconnects : ℤ
  pub errors_total : ℤ
  pub last_health_check : Str
  pub last_error : Str
  pub last_error_message : Str

-- a time that is not zero, as text; the empty text for the zero time
pub text_of : (ℕ → Str) → Option ℕ → Str
text_of rfc3339 none = []
text_of rfc3339 (some t) = rfc3339 t

pub message_of : Option ℕ → Str → Str
message_of none msg = []
message_of (some t) msg = msg

-- The texts of package time are parameters: `since` that of the time since the start, cut to
-- seconds, and `rfc3339` that of a time.
module _ (since rfc3339 : ℕ → Str) where
  pub snapshot : Option Collector → Snapshot
  unfolding text_of message_of
  snapshot none = record {
    uptime = [];
    connections_active = pos 0;
    connections_total = pos 0;
    bytes_in = pos 0;
    bytes_out = pos 0;
    tunnel_reconnects = pos 0;
    errors_total = pos 0;
    last_health_check = [];
    last_error = [];
    last_error_message = [];
  }
  snapshot (some c) = record {
    uptime = since c.start_time;
    connections_active = signed c.connections_active;
    connections_total = signed c.connections_total;
    bytes_in = signed c.bytes_in;
    bytes_out = signed c.bytes_out;
    tunnel_reconnects = signed c.tunnel_reconnects;
    errors_total = signed c.errors_total;
    last_health_check = text_of rfc3339 c.last_health_check;
    last_error = text_of rfc3339 c.last_error;
    last_error_message = message_of c.last_error c.last_error_msg;
  }

-- Goroutines that call methods of one collector: what each has yet to do, and a schedule, which
-- fails on a goroutine that has nothing left.
pub record Shared : Type 0 where
  pub collector : Collector
  pub goroutines : List (List Access)

pub advance : Shared → ℕ → Option (List Access) → Option Shared
advance s i none = none
advance s i (some []) = none
advance s i (some (a ∷ rest)) =
    some (record { collector = perform a s.collector; goroutines = set s.goroutines i rest })

pub step : Shared → ℕ → Option Shared
unfolding advance perform
step s i = advance s i (get_elem? s.goroutines i)

unfoldable pub run : Option Shared → List ℕ → Option Shared
unfolding step
run o [] = o
run none (i ∷ is) = none
run (some s) (i ∷ is) = run (step s i) is

pub accesses_of : List Call → List Access
unfolding accesses
accesses_of [] = []
accesses_of (m ∷ ms) = accesses m ++ accesses_of ms

unfoldable pub share : ℕ → List (List Call) → Shared
unfolding accesses_of new
share now calls = record { collector = new now; goroutines = map accesses_of calls }
