-- ===== src/Metrics/Interleaved.antt =====
-- What the counters hold after the calls of several goroutines, in whatever order their accesses
-- come.
use gonc.Prelude.{
  ℕ, ◌+◌, ◌≡◌, ◌≢◌, refl, sym, ap, subst, ◌∙◌, List, [], ◌∷◌, Option, none, some, Option-cases,
  some-eq, inl, inr, arith, get_elem?, set, All, ◌<◌,
}
use gonc.Prelude.Int.{ℤ, pos, negsuc}
use gonc.Prelude.Int64.{wrap, modulus, pattern_of, signed, sign_bit}
use gonc.Metrics.{
  Collector, Access, perform, Call, new, share, Shared, advance, step, run, active_connections,
  total_connections, total_bytes_in, total_bytes_out, tunnel_reconnects_of, error_count,
}
use gonc.Metrics.Amounts.{
  Counter, active, total, received, sent, reconnects, errors, value, due_by, amounts, amounts_by,
  amounts_by-set, value-perform, amounts_by-due,
}

-- A counter with what is still to be added.
abbrev foreseen : Counter → Shared → ℕ
foreseen k s = wrap (value k s.collector + amounts_by k s.goroutines)

advance-foreseen :
    (k : Counter) (s : Shared) (i : ℕ) (o : Option (List Access)) {t : Shared}
    → get_elem? s.goroutines i ≡ o
    → advance s i o ≡ some t
    → foreseen k t ≡ foreseen k s
unfolding advance
advance-foreseen k s i none at h = absurd (cc)
advance-foreseen k s i (some []) at h = absurd (cc)
advance-foreseen k s i (some (a ∷ rest)) at h =
    let d = amounts_by-set k s.goroutines i a rest at in
    let e = value-perform k a s.collector (amounts_by k (set s.goroutines i rest)) in
    subst (λ t. foreseen k t ≡ foreseen k s) (some-eq h)
      (e ∙ ap (λ n. wrap (value k s.collector + n)) d)

run-none : (is : List ℕ) {t : Shared} → run none is ≢ some t
unfolding run
run-none [] h = absurd (cc)
run-none (i ∷ is) h = absurd (cc)

run-foreseen :
    (k : Counter) (s : Shared) (is : List ℕ) {t : Shared}
    → run (some s) is ≡ some t
    → foreseen k t ≡ foreseen k s
unfolding run step
run-foreseen k s [] h = ap (foreseen k) (sym (some-eq h))
run-foreseen k s (i ∷ is) h = elim (Option-cases (step s i)) [
  | inl e ↦ absurd (run-none is (sym (ap (λ o. run o is) e) ∙ h))
  | inr (u, e) ↦
      run-foreseen k u is (sym (ap (λ o. run o is) e) ∙ h)
      ∙ advance-foreseen k s i (get_elem? s.goroutines i) refl e
]

value-below :
    (k : Counter) (a : Access) (c : Collector)
    → value k c < modulus
    → value k (perform a c) < modulus
unfolding perform
value-below k a c h = ground arith

advance-below :
    (k : Counter) (s : Shared) (i : ℕ) (o : Option (List Access)) {t : Shared}
    → value k s.collector < modulus
    → advance s i o ≡ some t
    → value k t.collector < modulus
unfolding advance
advance-below k s i none l h = absurd (cc)
advance-below k s i (some []) l h = absurd (cc)
advance-below k s i (some (a ∷ rest)) l h =
    subst (λ (t : Shared). value k t.collector < modulus) (some-eq h)
      (value-below k a s.collector l)

run-below :
    (k : Counter) (s : Shared) (is : List ℕ) {t : Shared}
    → value k s.collector < modulus
    → run (some s) is ≡ some t
    → value k t.collector < modulus
unfolding run step
run-below k s [] l h = subst (λ (t : Shared). value k t.collector < modulus) (some-eq h) l
run-below k s (i ∷ is) l h = elim (Option-cases (step s i)) [
  | inl e ↦ absurd (run-none is (sym (ap (λ o. run o is) e) ∙ h))
  | inr (u, e) ↦
      run-below k u is (advance-below k s i (get_elem? s.goroutines i) l e)
        (sym (ap (λ o. run o is) e) ∙ h)
]

new-zero : (k : Counter) (now : ℕ) → value k (new now) ≡ 0
unfolding new
new-zero k now = ground arith

-- what the methods that read give for a counter
abbrev pub reading : Counter → Option Collector → ℤ
reading active = active_connections
reading total = total_connections
reading received = total_bytes_in
reading sent = total_bytes_out
reading reconnects = tunnel_reconnects_of
reading errors = error_count

reading-value : (k : Counter) (c : Collector) → reading k (some c) ≡ signed (value k c)
unfolding active_connections total_connections total_bytes_in total_bytes_out tunnel_reconnects_of
    error_count
reading-value k c = ground arith

-- an integer that an int64 holds
abbrev pub FitsInt64 : ℤ → Type 0
FitsInt64 (pos n) = n < sign_bit
FitsInt64 (negsuc n) = n < sign_bit

signed-pattern_of : (z : ℤ) → FitsInt64 z → signed (pattern_of z) ≡ z
signed-pattern_of (pos n) h = ground arith
signed-pattern_of (negsuc n) h = ground arith

amounts_by_done :
    (k : Counter) (gs : List (List Access)) → All (λ g. g ≡ []) gs → amounts_by k gs ≡ 0
amounts_by_done k [] h = refl
amounts_by_done k (g ∷ gs) (e, h) = omega (arith, ap (amounts k) e, amounts_by_done k gs h)

-- However the calls of several goroutines interleave: once all are done, each counter of a new
-- collector reads the sum of what the calls are to add to it, an opened connection counting one and
-- a closed one minus one for the active ones, wrapped to an int64.
pub run_counts :
    (now : ℕ) (calls : List (List Call)) (is : List ℕ) (k : Counter) {s : Shared}
    → run (some (share now calls)) is ≡ some s
    → All (λ g. g ≡ []) s.goroutines
    → reading k (some s.collector) ≡ signed (pattern_of (due_by k calls))
unfolding share
run_counts now calls is k {s} h done =
    let f = run-foreseen k (share now calls) is h in
    let z = new-zero k now in
    let d = amounts_by_done k s.goroutines done in
    let a = amounts_by-due k calls in
    let l = run-below k (share now calls) is (omega arith) h in
    let v : value k s.collector ≡ pattern_of (due_by k calls) = omega arith in
    reading-value k s.collector ∙ ap signed v

-- However the calls of several goroutines interleave: once all are done, a counter of a new
-- collector reads what the calls were to add to it in all, if an int64 holds that sum.
pub run_counts_exact :
    (now : ℕ) (calls : List (List Call)) (is : List ℕ) (k : Counter) {s : Shared}
    → run (some (share now calls)) is ≡ some s
    → All (λ g. g ≡ []) s.goroutines
    → FitsInt64 (due_by k calls)
    → reading k (some s.collector) ≡ due_by k calls
run_counts_exact now calls is k h done fits =
    run_counts now calls is k h done ∙ signed-pattern_of (due_by k calls) fits
