-- ===== src/Examples/Counters.antt =====
-- Metrics of two goroutines.
use gonc.Prelude.{ℕ, ◌≡◌, refl, List, [], ◌∷◌, none, some, All}
use gonc.Prelude.Int.{pos}
use gonc.Prelude.Int64.{signed, pattern_of}
use gonc.Text.{Str, codes, itoa}
use gonc.Metrics.{
  Call, connection_opened, connection_closed, bytes_received, record_error, record_health_check,
  Shared, share, run,
}
use gonc.Metrics.Amounts.{active, due_by}
use gonc.Metrics.Interleaved.{reading, run_counts}

abbrev calls : List (List Call)
calls =
    (connection_opened ∷ bytes_received (pos 100) ∷ [])
    ∷ (connection_opened ∷ connection_closed ∷ [])
    ∷ []

-- the accesses of the two come in turn
abbrev turns : List ℕ
turns = 1 ∷ 0 ∷ 1 ∷ 0 ∷ 1 ∷ 0 ∷ []

abbrev finished : Shared
finished = record {
  collector = record {
    connections_active = 1;
    connections_total = 2;
    bytes_in = 100;
    bytes_out = 0;
    tunnel_reconnects = 0;
    errors_total = 0;
    start_time = 7;
    last_health_check = none;
    last_error = none;
    last_error_msg = [];
  };
  goroutines = [] ∷ [] ∷ [];
}

takes_turns : run (some (share 7 calls)) turns ≡ some finished
unfolding run share
takes_turns = refl

All-done : All (λ g. g ≡ []) finished.goroutines
All-done = (refl, (refl, tt))

run_counts_example :
    reading active (some finished.collector) ≡ signed (pattern_of (due_by active calls))
run_counts_example = run_counts 7 calls turns active takes_turns All-done

-- seconds as text
abbrev seconds : ℕ → Str
seconds t = itoa (pos t)

abbrev history : List Call
history =
    record_error 9 (codes "reset") ∷ record_health_check 10 ∷ record_error 11 (codes "refused") ∷ []
