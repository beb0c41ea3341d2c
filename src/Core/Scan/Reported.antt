-- ===== src/Core/Scan/Reported.antt =====
-- internal/core/scan.go: `ScanMode.Run`. The call of `ScanPorts` is a parameter, so that its
-- results are those of whatever schedule; `open` counts results, and a list of results is shorter
-- than 2 ^ 63.
use gonc.Prelude.{
  ℕ, suc, ◌≡◌, refl, ap, List, [], ◌∷◌, ◌++◌, Option, none, some, Bool, true, false, ◌&&◌, not,
  if◌then◌else◌, ◌==◌, length, arith, ◌∙◌,
}
use gonc.Prelude.Int.{ℤ, pos, leb_ℤ, is_zero}
use gonc.Text.{Str}
use gonc.Errors.{Error}
use gonc.Core.{ScanMode}
use gonc.Core.Builder.{default_scan_timeout, format_addr}
use gonc.Core.Scan.{ScanResult, result_of, Scanning, Move, run, start, returns}
use gonc.Core.Scan.Filled.{one_by_one}
use gonc.Core.Scan.Complete.{run-one_by_one}

-- What a run does that is seen: the calls of the logger, `info` and `verbose` ones, and the close of
-- the dialer.
pub data Event : Type 0 where
  verbose_scanning : Str → ℕ → Event
  info_open : Str → ℤ → Event
  verbose_closed : Str → ℤ → Option Error → Event
  info_none_open : Str → Event
  closes_dialer : Event

-- the body of the loop over the results
report_one : ScanMode → ScanResult → List Event
report_one m r =
    if r.is_open
    then info_open m.host r.port ∷ []
    else if leb_ℤ (pos 2) m.verbose
    then verbose_closed m.host r.port r.err ∷ []
    else []

-- the loop, with the counter `open`, and the line after it
report : ScanMode → ℕ → List ScanResult → List Event
unfolding report_one
report m open_count [] =
    if open_count == 0 && leb_ℤ (pos 1) m.verbose then info_none_open m.host ∷ [] else []
report m open_count (r ∷ rs) =
    report_one m r ++ report m (if r.is_open then suc open_count else open_count) rs

-- `Run`: the error, or none, and what was done
pub record Ended : Type 0 where
  pub no_ports_error : Bool
  pub events : List Event

scan_some : (Str → List ℤ → ℤ → List ScanResult) → ScanMode → List ℤ → Ended
unfolding report
scan_some scan_ports m [] = record { no_ports_error = true; events = closes_dialer ∷ [] }
scan_some scan_ports m (p ∷ ps) = record {
  no_ports_error = false;
  events =
      verbose_scanning m.host (length (p ∷ ps))
        ∷ report m 0 (
            scan_ports m.host (p ∷ ps)
              (if is_zero m.timeout then default_scan_timeout else m.timeout))
      ++ closes_dialer ∷ [];
}

pub run_scan : (Str → List ℤ → ℤ → List ScanResult) → ScanMode → Ended
unfolding scan_some
run_scan scan_ports m = scan_some scan_ports m m.ports

-- the ports that are reported open, in the order of the reports
abbrev pub reported_open : List Event → List ℤ
reported_open [] = []
reported_open (info_open h p ∷ es) = p ∷ reported_open es
reported_open (verbose_scanning h n ∷ es) = reported_open es
reported_open (verbose_closed h p e ∷ es) = reported_open es
reported_open (info_none_open h ∷ es) = reported_open es
reported_open (closes_dialer ∷ es) = reported_open es

abbrev pub says_none_open : List Event → Bool
says_none_open [] = false
says_none_open (info_none_open h ∷ es) = true
says_none_open (info_open h p ∷ es) = says_none_open es
says_none_open (verbose_scanning h n ∷ es) = says_none_open es
says_none_open (verbose_closed h p e ∷ es) = says_none_open es
says_none_open (closes_dialer ∷ es) = says_none_open es

module _ (dial : ℕ → Str → Option Error) (host : Str) where
  abbrev keep_if_nil : ℤ → Option Error → List ℤ → List ℤ
  keep_if_nil p none ps = p ∷ ps
  keep_if_nil p (some e) ps = ps

  -- the ports that the dial succeeds for
  abbrev pub answering : ℕ → List ℤ → List ℤ
  answering i [] = []
  answering i (p ∷ ps) = keep_if_nil p (dial i (format_addr host p)) (answering (suc i) ps)

abbrev pub is_nil {ℓ} : {A : Type ℓ} → List A → Bool
is_nil [] = true
is_nil (x ∷ xs) = false

-- A line on a closed port, if there is one, does not count.
closed_line :
    (b : Bool) (h : Str) (p : ℤ) (e : Option Error) (es fs : List Event)
    → (reported_open (((if b then verbose_closed h p e ∷ [] else []) ++ es) ++ fs)
        ≡ reported_open (es ++ fs))
      × (says_none_open (((if b then verbose_closed h p e ∷ [] else []) ++ es) ++ fs)
          ≡ says_none_open (es ++ fs))
closed_line true h p e es fs = (refl, refl)
closed_line false h p e es fs = (refl, refl)

counted_open : (n : ℕ) (a b : Bool) → (suc n == 0 && a && b) ≡ (n == 0 && false && b)
counted_open n a b = ground arith

module _ (m : ScanMode) (dial : ℕ → Str → Option Error) where
  -- What `report` does with the results of the ports `ps`.
  abbrev Reports : ℕ → List ScanResult → List ℤ → Type 0
  Reports n rs ps =
      (reported_open (report m n rs ++ closes_dialer ∷ []) ≡ ps)
      × (says_none_open (report m n rs ++ closes_dialer ∷ [])
          ≡ n == 0 && is_nil ps && leb_ℤ (pos 1) m.verbose)

  report-Reports :
      (p : ℤ) (o : Option Error) (n : ℕ) (rs : List ScanResult) (ps : List ℤ)
      → ((k : ℕ) → Reports k rs ps)
      → Reports n (result_of p o ∷ rs) (keep_if_nil dial m.host p o ps)
  unfolding report report_one result_of
  report-Reports p none n rs ps h =
      let (a, b) = h (suc n) in
      (ap (λ qs. p ∷ qs) a, b ∙ counted_open n (is_nil ps) (leb_ℤ (pos 1) m.verbose))
  report-Reports p (some e) n rs ps h =
      let (a, b) = h n in
      let (c, d) =
        closed_line (leb_ℤ (pos 2) m.verbose) m.host p (some e) (report m n rs)
          (closes_dialer ∷ []) in
      (c ∙ a, d ∙ b)

  report-one_by_one :
      (n i : ℕ) (ps : List ℤ) → Reports n (one_by_one dial m.host i ps) (answering dial m.host i ps)
  unfolding report
  report-one_by_one n i [] = ground arith
  report-one_by_one n i (p ∷ ps) =
      report-Reports p (dial i (format_addr m.host p)) n (one_by_one dial m.host (suc i) ps)
        (answering dial m.host (suc i) ps) (λ k. report-one_by_one k (suc i) ps)

  -- the timeout of each dial, which is three seconds if none is set
  abbrev pub dial_timeout : ℤ
  dial_timeout = if is_zero m.timeout then pos 3_000_000_000 else m.timeout

  scan_some-answering :
      (scan_ports : Str → List ℤ → ℤ → List ScanResult) (ps : List ℤ)
      → scan_ports m.host ps dial_timeout ≡ one_by_one dial m.host 0 ps
      → (reported_open (scan_some scan_ports m ps).events ≡ answering dial m.host 0 ps)
        × (says_none_open (scan_some scan_ports m ps).events
            ≡ not (is_nil ps) && is_nil (answering dial m.host 0 ps) && leb_ℤ (pos 1) m.verbose)
        × ((scan_some scan_ports m ps).no_ports_error ≡ is_nil ps)
  unfolding scan_some
  scan_some-answering scan_ports [] e = (refl, refl, refl)
  scan_some-answering scan_ports (p ∷ ps) e =
      let (a, b) = report-one_by_one 0 0 (p ∷ ps) in rw e (a, b, refl)

  -- `Run`, whatever the schedule of the goroutines of the call of `ScanPorts` for the host and the
  -- ports of the mode and its timeout, or three seconds if that is zero: it reports as open the ports that the dial
  -- succeeds for, in the order of the ports; it says that none is open exactly if there are ports,
  -- none of them is open and the verbosity is at least 1; and it fails exactly if there is no port.
  pub run_scan-answering :
      (scan_ports : Str → List ℤ → ℤ → List ScanResult) (ms : List Move) {s : Scanning}
      → run dial m.host (some (start m.ports)) ms ≡ some s
      → returns s ≡ true
      → scan_ports m.host m.ports dial_timeout ≡ s.results
      → (reported_open (run_scan scan_ports m).events ≡ answering dial m.host 0 m.ports)
        × (says_none_open (run_scan scan_ports m).events
            ≡ not (is_nil m.ports)
              && is_nil (answering dial m.host 0 m.ports)
              && leb_ℤ (pos 1) m.verbose)
        × ((run_scan scan_ports m).no_ports_error ≡ is_nil m.ports)
  unfolding run_scan
  run_scan-answering scan_ports ms {s} h r q =
      scan_some-answering scan_ports m.ports (q ∙ run-one_by_one dial m.host m.ports ms h r)
