-- ===== src/Examples/Scans.antt =====
-- A scan of two ports, of which the first answers.
use gonc.Prelude.{
  ℕ, ◌*◌, ◌≤◌, ◌≡◌, refl, List, [], ◌∷◌, Option, none, some, true, false, ◌&&◌, not, length, ◌==◌,
  if◌then◌else◌,
}
use gonc.Prelude.Int.{ℤ, pos, leb_ℤ}
use gonc.Text.{Str, codes}
use gonc.Errors.{Error, plain}
use gonc.Core.{tcp_dialer, ScanMode}
use gonc.Core.Scan.{
  ScanResult, gone, dialing, Scanning, Move, loop, worker, start, run, returns,
  max_concurrent_scans,
}
use gonc.Core.Scan.Bounded.{total}
use gonc.Core.Scan.Progress.{under_way, run_bounded, run-returns}
use gonc.Core.Scan.Filled.{one_by_one}
use gonc.Core.Scan.Complete.{run-one_by_one}
use gonc.Core.Scan.Reported.{
  run_scan, reported_open, says_none_open, answering, is_nil, run_scan-answering,
}

abbrev refusal : Error
refusal = plain (codes "connection refused")

-- the first goroutine gets a connection, the others do not
abbrev first_answers : ℕ → Str → Option Error
first_answers i address = if i == 0 then none else some refusal

abbrev host : Str
host = codes "h"

abbrev ports : List ℤ
ports = pos 80 ∷ pos 81 ∷ []

-- The second goroutine is done before the first one.
abbrev second_first : List Move
second_first =
    loop
    ∷ loop
    ∷ worker 1
    ∷ worker 0
    ∷ worker 1
    ∷ worker 1
    ∷ worker 0
    ∷ worker 1
    ∷ worker 0
    ∷ worker 0
    ∷ []

abbrev finished : Scanning
finished = record {
  to_spawn = [];
  workers = record { port = pos 80; phase = gone } ∷ record { port = pos 81; phase = gone } ∷ [];
  in_channel = 0;
  wait_group = 0;
  results =
      record { port = pos 80; is_open = true; err = none }
      ∷ record { port = pos 81; is_open = false; err = some refusal }
      ∷ [];
}

runs_to_end : run first_answers host (some (start ports)) second_first ≡ some finished
unfolding run start
runs_to_end = refl

returns_then : returns finished ≡ true
unfolding returns
returns_then = refl

run-one_by_one_example : finished.results ≡ one_by_one first_answers host 0 ports
run-one_by_one_example =
    run-one_by_one first_answers host ports second_first runs_to_end returns_then

-- both goroutines dial
abbrev both_dial : List Move
both_dial = loop ∷ loop ∷ worker 1 ∷ worker 0 ∷ []

abbrev halfway : Scanning
halfway = record {
  to_spawn = [];
  workers =
      record { port = pos 80; phase = dialing } ∷ record { port = pos 81; phase = dialing } ∷ [];
  in_channel = 2;
  wait_group = 2;
  results =
      record { port = pos 0; is_open = false; err = none }
      ∷ record { port = pos 0; is_open = false; err = none }
      ∷ [];
}

runs_halfway : run first_answers host (some (start ports)) both_dial ≡ some halfway
unfolding run start
runs_halfway = refl

run_bounded_example :
    (total under_way halfway.workers ≤ max_concurrent_scans) × (length both_dial ≤ 5 * length ports)
run_bounded_example = run_bounded first_answers host ports both_dial runs_halfway

run-returns_example :
    (rest : List Move) × (t : Scanning) × (run first_answers host (some halfway) rest ≡ some t)
    × (returns t ≡ true)
run-returns_example = run-returns first_answers host ports both_dial runs_halfway

abbrev mode : ScanMode
mode = record {
  dialer = tcp_dialer (pos 0) (pos 0);
  host = host;
  ports = ports;
  timeout = pos 0;
  verbose = pos 1;
}

-- a scan that ends well for the arguments that it is meant for alone
abbrev scans : Str → List ℤ → ℤ → List ScanResult
scans h ps timeout = if leb_ℤ timeout (pos 3_000_000_000) then finished.results else []

run_scan-answering_example :
    (reported_open (run_scan scans mode).events ≡ answering first_answers host 0 ports)
    × (says_none_open (run_scan scans mode).events
        ≡ not (is_nil ports)
          && is_nil (answering first_answers host 0 ports)
          && leb_ℤ (pos 1) (pos 1))
    × ((run_scan scans mode).no_ports_error ≡ is_nil ports)
run_scan-answering_example =
    run_scan-answering mode first_answers scans second_first runs_to_end returns_then refl
