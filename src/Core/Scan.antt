-- ===== src/Core/Scan.antt =====
-- internal/core/scan.go: `ScanPorts`, with its goroutines and the two objects that they share, the
-- channel `sem` and the wait group, and `ScanMode.Run`. The dial is a parameter: `dial idx address`
-- is what the call in the goroutine with that index returns, the error or nil.
pub mod Bounded
pub mod Filled
pub mod Complete
pub mod Progress
pub mod Reported
use gonc.Prelude.{
  ℕ, suc, ◌+◌, ◌-◌, List, [], ◌∷◌, ◌++◌, Option, none, some, Bool, true, false, ◌&&◌, not,
  if◌then◌else◌, ltb, leb, ◌==◌, length, get_elem?, set,
}
use gonc.Prelude.Int.{ℤ, pos, leb_ℤ, is_zero}
use gonc.Text.{Str}
use gonc.Errors.{Error}
use gonc.Core.{ScanMode}
use gonc.Core.Builder.{format_addr}

-- `ScanResult`
pub record ScanResult : Type 0 where
  pub port : ℤ
  pub is_open : Bool
  pub err : Option Error

abbrev pub zero_result : ScanResult
zero_result = record { port = pos 0; is_open = false; err = none }

-- `config.DefaultMaxConcurrentScans`, the capacity of `sem`
abbrev pub max_concurrent_scans : ℕ
max_concurrent_scans = 100

-- Where a goroutine is: before `sem <- struct{}{}`, before `dial`, and before the two deferred
-- calls `<-sem` and `wg.Done()`.
pub data Phase : Type 0 where
  acquiring dialing releasing leaving gone : Phase

pub record Worker : Type 0 where
  pub port : ℤ
  pub phase : Phase

-- `to_spawn` are the ports that the loop of `ScanPorts` has not reached, `in_channel` is the number
-- of values in `sem`, `wait_group` the counter of `wg`.
pub record Scanning : Type 0 where
  pub to_spawn : List ℤ
  pub workers : List Worker
  pub in_channel : ℕ
  pub wait_group : ℕ
  pub results : List ScanResult

-- `make([]ScanResult, len(ports))`
pub make_results : List ℤ → List ScanResult
make_results [] = []
make_results (p ∷ ps) = zero_result ∷ make_results ps

unfoldable pub start : List ℤ → Scanning
unfolding make_results
start ports = record {
  to_spawn = ports;
  workers = [];
  in_channel = 0;
  wait_group = 0;
  results = make_results ports;
}

-- what a goroutine writes when the dial has returned
pub result_of : ℤ → Option Error → ScanResult
result_of p (some e) = record { port = p; is_open = false; err = some e }
result_of p none = record { port = p; is_open = true; err = none }

module _ (dial : ℕ → Str → Option Error) (host : Str) where
  -- The next operation of the goroutine `i`, or none if it blocks or has ended.
  pub advance : Scanning → ℕ → ℤ → Phase → Option Scanning
  unfolding result_of
  advance s i p acquiring =
      if ltb s.in_channel max_concurrent_scans
      then some (record s {
        workers = set s.workers i (record { port = p; phase = dialing });
        in_channel = suc s.in_channel;
      })
      else none
  advance s i p dialing = some (record s {
    workers = set s.workers i (record { port = p; phase = releasing });
    results = set s.results i (result_of p (dial i (format_addr host p)));
  })
  advance s i p releasing = some (record s {
    workers = set s.workers i (record { port = p; phase = leaving });
    in_channel = s.in_channel - 1;
  })
  advance s i p leaving = some (record s {
    workers = set s.workers i (record { port = p; phase = gone });
    wait_group = s.wait_group - 1;
  })
  advance s i p gone = none

-- One turn of the loop: `wg.Add(1)` and the `go` statement.
pub spawn : Scanning → List ℤ → Option Scanning
spawn s [] = none
spawn s (p ∷ ps) = some (record s {
  to_spawn = ps;
  workers = s.workers ++ (record { port = p; phase = acquiring }) ∷ [];
  wait_group = suc s.wait_group;
})

-- Who moves next: the loop, or a goroutine.
pub data Move : Type 0 where
  loop : Move
  worker : ℕ → Move

module _ (dial : ℕ → Str → Option Error) (host : Str) where
  pub advance_worker : Scanning → ℕ → Option Worker → Option Scanning
  unfolding advance
  advance_worker s i none = none
  advance_worker s i (some w) = advance dial host s i w.port w.phase

  pub step : Scanning → Move → Option Scanning
  unfolding advance_worker spawn
  step s loop = spawn s s.to_spawn
  step s (worker i) = advance_worker s i (get_elem? s.workers i)

  -- A schedule, which fails on a move that cannot be made.
  unfoldable pub run : Option Scanning → List Move → Option Scanning
  unfolding step
  run o [] = o
  run none (m ∷ ms) = none
  run (some s) (m ∷ ms) = run (step s m) ms

-- what lets the loop end and `wg.Wait()` return
pub no_ports : List ℤ → Bool
no_ports [] = true
no_ports (p ∷ ps) = false

unfoldable pub returns : Scanning → Bool
unfolding no_ports
returns s = no_ports s.to_spawn && s.wait_group == 0
