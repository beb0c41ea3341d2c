-- ===== src/Metrics/Amounts.antt =====
-- What calls are to add to the counters, and what their accesses add.
use gonc.Prelude.{
  ℕ, zero, suc, ◌+◌, ◌≡◌, refl, ap, List, [], ◌∷◌, ◌++◌, map, some, some-eq, arith, get_elem?, set,
}
use gonc.Prelude.Int.{ℤ, pos, negsuc, ◌+ℤ◌}
use gonc.Prelude.Int64.{wrap, pattern_of}
use gonc.Metrics.{
  Collector, Access, add_active, add_total, add_bytes_in, add_bytes_out, add_reconnects, add_errors,
  perform, Call, connection_opened, connection_closed, tunnel_reconnect, bytes_received, bytes_sent,
  record_error, accesses, accesses_of,
}

-- The counters of a collector.
pub data Counter : Type 0 where
  active total received sent reconnects errors : Counter

abbrev pub value : Counter → Collector → ℕ
value active c = c.connections_active
value total c = c.connections_total
value received c = c.bytes_in
value sent c = c.bytes_out
value reconnects c = c.tunnel_reconnects
value errors c = c.errors_total

-- What a call is to add to a counter.
abbrev pub due : Counter → Call → ℤ
due active connection_opened = pos 1
due active connection_closed = negsuc 0
due total connection_opened = pos 1
due received (bytes_received n) = n
due sent (bytes_sent n) = n
due reconnects tunnel_reconnect = pos 1
due errors (record_error now msg) = pos 1
due _ _ = pos 0

abbrev pub due_all : Counter → List Call → ℤ
due_all k [] = pos 0
due_all k (m ∷ ms) = due k m +ℤ due_all k ms

abbrev pub due_by : Counter → List (List Call) → ℤ
due_by k [] = pos 0
due_by k (ms ∷ mss) = due_all k ms +ℤ due_by k mss

-- the pattern that an access adds to a counter
abbrev pub amount : Counter → Access → ℕ
amount active (add_active n) = pattern_of n
amount total (add_total n) = pattern_of n
amount received (add_bytes_in n) = pattern_of n
amount sent (add_bytes_out n) = pattern_of n
amount reconnects (add_reconnects n) = pattern_of n
amount errors (add_errors n) = pattern_of n
amount _ _ = 0

abbrev pub amounts : Counter → List Access → ℕ
amounts k [] = 0
amounts k (a ∷ rest) = amount k a + amounts k rest

abbrev pub amounts_by : Counter → List (List Access) → ℕ
amounts_by k [] = 0
amounts_by k (g ∷ gs) = amounts k g + amounts_by k gs

pub amounts_by-set :
    (k : Counter) (gs : List (List Access)) (i : ℕ) (a : Access) (rest : List Access)
    → get_elem? gs i ≡ some (a ∷ rest)
    → amount k a + amounts_by k (set gs i rest) ≡ amounts_by k gs
amounts_by-set k [] i a rest h = absurd (cc)
amounts_by-set k (g ∷ gs) zero a rest h = omega (arith, ap (amounts k) (some-eq h))
amounts_by-set k (g ∷ gs) (suc i) a rest h = omega (arith, amounts_by-set k gs i a rest h)

wrap-wrap : (a b : ℕ) → wrap (wrap a + b) ≡ wrap (a + b)
wrap-wrap a b = omega arith

pub value-perform :
    (k : Counter) (a : Access) (c : Collector) (n : ℕ)
    → wrap (value k (perform a c) + n) ≡ wrap (value k c + (amount k a + n))
unfolding perform
value-perform k a c n = ground arith

pub pattern_of-+ℤ : (a b : ℤ) → pattern_of (a +ℤ b) ≡ wrap (pattern_of a + pattern_of b)
unfolding ◌+ℤ◌
pattern_of-+ℤ a b = ground arith

amounts-append :
    (k : Counter) (xs ys : List Access) → amounts k (xs ++ ys) ≡ amounts k xs + amounts k ys
amounts-append k [] ys = omega arith
amounts-append k (a ∷ xs) ys = omega (arith, amounts-append k xs ys)

accesses-amount : (k : Counter) (m : Call) → wrap (amounts k (accesses m)) ≡ pattern_of (due k m)
unfolding accesses
accesses-amount k m = ground arith

accesses_of-amount :
    (k : Counter) (ms : List Call) → wrap (amounts k (accesses_of ms)) ≡ pattern_of (due_all k ms)
unfolding accesses_of
accesses_of-amount k [] = refl
accesses_of-amount k (m ∷ ms) =
    let a = accesses-amount k m in
    let b = accesses_of-amount k ms in
    let d = amounts-append k (accesses m) (accesses_of ms) in
    let e = pattern_of-+ℤ (due k m) (due_all k ms) in omega arith

pub amounts_by-due :
    (k : Counter) (mss : List (List Call))
    → wrap (amounts_by k (map accesses_of mss)) ≡ pattern_of (due_by k mss)
amounts_by-due k [] = refl
amounts_by-due k (ms ∷ mss) =
    let a = accesses_of-amount k ms in
    let b = amounts_by-due k mss in
    let e = pattern_of-+ℤ (due_all k ms) (due_by k mss) in omega arith
