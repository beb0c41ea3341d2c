-- ===== src/Tunnel/Reverse/Running/Own.antt =====
-- The moves that a reverse tunnel makes by itself, and bounds on how many are left.
use gonc.Prelude.{
  ℕ, zero, suc, ◌+◌, ◌≡◌, ◌≢◌, ◌⊎◌, refl, ap, List, [], ◌∷◌, Option, none, some, Bool, true, false,
  not, some-eq, get_elem?, set, arith, ℕ_discrete,
}
use gonc.Tunnel.Reverse.Running.{
  Acceptor, looking, tearing_down, reconnecting, cancelling, accepting, Keepalive, ticking, closing,
  asking, Running, Move, ctx_ends, at_end, accepts, closes_listener, ticks, accept_fails,
  acceptor_moves, handler_ends, reconnects, sees_end, keepalive_moves, answers, close_of,
}
use gonc.Tunnel.Reverse.Running.Counted.{accept_pending, pending_all}
use gonc.Tunnel.Reverse.Running.Open.{OpenOnly, close_of-OpenOnly}

-- bounds on the moves that a goroutine has left once the context is done
abbrev pub accept_left : Acceptor → ℕ
accept_left looking = 4
accept_left (accepting l) = 3
accept_left tearing_down = 4
accept_left reconnecting = 3
accept_left cancelling = 2
accept_left Acceptor.leaving = 1
accept_left Acceptor.gone = 0

abbrev pub left : Keepalive → ℕ
left (asking c) = 3
left ticking = 2
left closing = 2
left Keepalive.leaving = 1
left Keepalive.gone = 0

abbrev pub left_in : List Keepalive → ℕ
left_in [] = 0
left_in (k ∷ ks) = left k + left_in ks

abbrev pub waited_for : Running → ℕ
waited_for s = accept_left s.acceptor + left_in s.keepalives + s.handlers

-- the move of the goroutine for the end of the context
abbrev pub watch_left : Bool → ℕ
watch_left true = 0
watch_left false = 1

abbrev pub left_over : Running → ℕ
left_over s = waited_for s + watch_left s.closed_at_end

abbrev pub is_open : Option Bool → Bool
is_open none = false
is_open (some closed) = not closed

-- whether `Accept` waits on an open listener
abbrev pub is_held : Acceptor → List Bool → Bool
is_held (accepting l) closed = is_open (get_elem? closed l)
is_held _ closed = false

-- The moves that need nothing from outside but the end of what is under way: `Accept` fails only if
-- its listener has been closed, no connection comes in, no attempt to reconnect succeeds, no ticker
-- ticks, and nobody calls `Close`.
abbrev pub is_own : Running → Move → Bool
is_own s accept_fails = not (is_held s.acceptor s.closed)
is_own s ctx_ends = false
is_own s accepts = false
is_own s closes_listener = false
is_own s (reconnects ok) = not ok
is_own s (ticks i) = false
is_own s at_end = true
is_own s acceptor_moves = true
is_own s handler_ends = true
is_own s (sees_end i) = true
is_own s (answers i ok) = true
is_own s (keepalive_moves i) = true

abbrev pub NoneOpen : List Bool → Type 0
NoneOpen closed = (l : ℕ) → get_elem? closed l ≢ some false

-- The goroutine for the end of the context is still to run, or leaves nothing to close.
abbrev pub Closable : Running → Type 0
Closable s = (s.closed_at_end ≡ false) ⊎ NoneOpen s.closed

pub close_of-NoneOpen :
    (listener : Option ℕ) (closed : List Bool)
    → OpenOnly closed listener
    → NoneOpen (close_of listener closed)
close_of-NoneOpen listener closed o l h =
    let e : none ≡ some l = close_of-OpenOnly listener closed none o l h in absurd (cc)

pub left_in-set :
    (ks : List Keepalive) (i : ℕ) (k v : Keepalive)
    → get_elem? ks i ≡ some k
    → left k + left_in (set ks i v) ≡ left v + left_in ks
left_in-set [] i k v h = absurd (cc)
left_in-set (x ∷ ks) zero k v h = omega (arith, ap left (some-eq h))
left_in-set (x ∷ ks) (suc i) k v h = omega (arith, left_in-set ks i k v h)

pub pick :
    (ks : List Keepalive)
    → left_in ks ≢ 0
    → (i : ℕ) × (k : Keepalive) × (get_elem? ks i ≡ some k) × (left k ≢ 0)
pick [] h = absurd (h refl)
pick (k ∷ ks) h = elim (ℕ_discrete (left k) 0) [
  | yes z ↦ let (i, v, at, n) = pick ks (λ e. h (omega arith)) in (suc i, v, at, n)
  | no n ↦ (zero, k, refl, n)
]

pub accept-idle : (a : Acceptor) → accept_left a ≡ 0 → accept_pending a ≡ 0
accept-idle Acceptor.gone z = refl
accept-idle looking z = absurd (omega arith)
accept-idle tearing_down z = absurd (omega arith)
accept-idle reconnecting z = absurd (omega arith)
accept-idle cancelling z = absurd (omega arith)
accept-idle Acceptor.leaving z = absurd (omega arith)
accept-idle (accepting l) z = absurd (omega arith)

pub all-idle : (ks : List Keepalive) → left_in ks ≡ 0 → pending_all ks ≡ 0
all-idle [] z = refl
all-idle (Keepalive.gone ∷ ks) z = omega (arith, all-idle ks (omega arith))
all-idle (ticking ∷ ks) z = absurd (omega arith)
all-idle (closing ∷ ks) z = absurd (omega arith)
all-idle (Keepalive.leaving ∷ ks) z = absurd (omega arith)
all-idle (asking c ∷ ks) z = absurd (omega arith)
