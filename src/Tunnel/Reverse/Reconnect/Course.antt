-- ===== src/Tunnel/Reverse/Reconnect/Course.antt =====
-- The course of `reconnect`: how many attempts, the pauses between them, and what is closed.
use gonc.Prelude.{
  ℕ, zero, suc, ◌+◌, ◌*◌, ◌^◌, ◌≤◌, ◌<◌, ◌≡◌, ◌⊎◌, inl, inr, refl, sym, ap, subst, ◌∙◌, List, [],
  ◌∷◌, ◌++◌, Option, none, some, Bool, true, false, arith, if◌then◌else◌, leb,
}
use gonc.Text.{Str}
use gonc.Errors.{Error}
use gonc.Metrics.{Call, record_error}
use gonc.Tunnel.Reverse.Reconnect.{
  Attempt, ctx_done, dial_fails, listen_fails, succeeds, Event, closes_listener, closes_client,
  counts, sleeps, starts_keepalive, Reconnected, first_backoff, max_attempts, next_backoff,
  gives_up, round, attempts, closes_old, reconnect, failed, keeps_alive,
}

-- in nanoseconds
abbrev pub second : ℕ
second = 1000000000

-- the pause after `j` earlier ones
abbrev pub wait : ℕ → ℕ
wait j = if leb (second * 2 ^ j) (60 * second) then second * 2 ^ j else 60 * second

abbrev pub waits : ℕ → ℕ → List ℕ
waits j zero = []
waits j (suc n) = wait j ∷ waits (suc j) n

next_backoff-wait : (j : ℕ) → next_backoff (wait j) ≡ wait (suc j)
unfolding next_backoff
next_backoff-wait j =
    let e : second * 2 ^ suc j ≡ second * 2 ^ j * 2 = omega arith in ground (arith, e)

abbrev pub old : {Client : Type 0} → Option Client → List Client
old none = []
old (some c) = c ∷ []

abbrev pub if_error : Call → ℕ → ℕ
if_error (record_error now text) n = suc n
if_error _ n = n

module _ {Client Listener : Type 0} where
  abbrev pub sleeps_of : List (Event Client Listener) → List ℕ
  sleeps_of [] = []
  sleeps_of (sleeps d ∷ es) = d ∷ sleeps_of es
  sleeps_of (closes_listener l ∷ es) = sleeps_of es
  sleeps_of (closes_client c ∷ es) = sleeps_of es
  sleeps_of (counts m ∷ es) = sleeps_of es
  sleeps_of (starts_keepalive ∷ es) = sleeps_of es

  abbrev pub closed_of : List (Event Client Listener) → List Client
  closed_of [] = []
  closed_of (sleeps d ∷ es) = closed_of es
  closed_of (closes_listener l ∷ es) = closed_of es
  closed_of (closes_client c ∷ es) = c ∷ closed_of es
  closed_of (counts m ∷ es) = closed_of es
  closed_of (starts_keepalive ∷ es) = closed_of es

  -- how many errors are recorded, one for each failed attempt
  abbrev pub recorded : List (Event Client Listener) → ℕ
  recorded [] = 0
  recorded (sleeps d ∷ es) = recorded es
  recorded (closes_listener l ∷ es) = recorded es
  recorded (closes_client c ∷ es) = recorded es
  recorded (counts m ∷ es) = if_error m (recorded es)
  recorded (starts_keepalive ∷ es) = recorded es

  abbrev pub IsFailure : Attempt Client Listener → Type 0
  IsFailure (ctx_done e) = ⊥
  IsFailure (dial_fails e) = Unit
  IsFailure (listen_fails c e) = Unit
  IsFailure (succeeds c l) = ⊥

  -- the client that a failing attempt has made
  abbrev pub made_by : Attempt Client Listener → List Client
  made_by (listen_fails c e) = c ∷ []
  made_by _ = []

module _ {Client Listener : Type 0} (attempt : ℕ → Attempt Client Listener)
    (error_text : Error → Str) (now : ℕ → ℕ) (keepalive : Bool) where
  -- `n` attempts from the one with the number `k` fail
  abbrev pub AllFail : ℕ → ℕ → Type 0
  AllFail k zero = Unit
  AllFail k (suc n) = IsFailure (attempt k) × AllFail (suc k) n

  abbrev pub clients_made : ℕ → ℕ → List Client
  clients_made k zero = []
  clients_made k (suc n) = made_by (attempt k) ++ clients_made (suc k) n

  -- what ends the loop at the attempt with the number `k`, and what the tunnel has then
  abbrev pub EndsBy :
      Attempt Client Listener → Option Error → Option Client → Option Listener → Type 0
  EndsBy (ctx_done e) r c l = (r ≡ some e) × (c ≡ none) × (l ≡ none)
  EndsBy (dial_fails e) r c l = ⊥
  EndsBy (listen_fails client e) r c l = ⊥
  EndsBy (succeeds client listener) r c l = (r ≡ none) × (c ≡ some client) × (l ≡ some listener)

  -- how a loop of `left` attempts, the first with the number `k`, ends after `n` failures
  abbrev pub Ends : (left k n : ℕ) → Option Error → Option Client → Option Listener → Type 0
  Ends left k n r c l =
      ((n ≡ left) × (r ≡ some gives_up) × (c ≡ none) × (l ≡ none))
      ⊎ ((n < left) × EndsBy (attempt (k + n)) r c l)

  Ends-suc :
      (left k n : ℕ) (r : Option Error) (c : Option Client) (l : Option Listener)
      → Ends left (suc k) n r c l
      → Ends (suc left) k (suc n) r c l
  Ends-suc left k n r c l (inl (e, h1, h2, h3)) = inl (ap suc e, h1, h2, h3)
  Ends-suc left k n r c l (inr (few, h)) =
      inr (omega (arith, few), subst (λ a. EndsBy a r c l) (ap attempt (omega arith)) h)

  record Course (left k j : ℕ) (r : Reconnected Client Listener) : Type 0 where
    pub failures : ℕ
    pub few : failures ≤ left
    pub all_fail : AllFail k failures
    pub slept : sleeps_of r.events ≡ waits j failures
    pub errors : recorded r.events ≡ failures
    pub closed : closed_of r.events ≡ clients_made k failures
    pub ends : Ends left k failures r.returned r.client r.listener

  quiet :
      (b : Bool)
      → (sleeps_of (keeps_alive attempt error_text now keepalive b) ≡ [])
        × (recorded (keeps_alive attempt error_text now keepalive b) ≡ 0)
        × (closed_of (keeps_alive attempt error_text now keepalive b) ≡ [])
  unfolding keeps_alive
  quiet true = (refl, refl, refl)
  quiet false = (refl, refl, refl)

  round-Course :
      (left k j : ℕ) (rest : Reconnected Client Listener) (a : Attempt Client Listener)
      → attempt k ≡ a
      → Course left (suc k) (suc j) rest
      → Course (suc left) k j (round attempt error_text now keepalive k (wait j) rest a)
  unfolding round failed
  round-Course left k j rest (ctx_done e) d v = record {
    failures = 0;
    few = omega arith;
    all_fail = tt;
    slept = refl;
    errors = refl;
    closed = refl;
    ends = inr (
      omega arith,
      subst (λ x. EndsBy x (some e) none none) (sym d ∙ ap attempt (omega arith))
          (refl, refl, refl),
    );
  }
  round-Course left k j rest (dial_fails e) d v = record {
    failures = suc v.failures;
    few = omega (arith, v.few);
    all_fail = (subst IsFailure (sym d) tt, v.all_fail);
    slept = ap (λ z. wait j ∷ z) v.slept;
    errors = ap suc v.errors;
    closed = v.closed ∙ ap (λ x. made_by x ++ clients_made (suc k) v.failures) (sym d);
    ends = Ends-suc left k v.failures rest.returned rest.client rest.listener v.ends;
  }
  round-Course left k j rest (listen_fails c e) d v = record {
    failures = suc v.failures;
    few = omega (arith, v.few);
    all_fail = (subst IsFailure (sym d) tt, v.all_fail);
    slept = ap (λ z. wait j ∷ z) v.slept;
    errors = ap suc v.errors;
    closed =
        ap (λ z. c ∷ z) v.closed ∙ ap (λ x. made_by x ++ clients_made (suc k) v.failures) (sym d);
    ends = Ends-suc left k v.failures rest.returned rest.client rest.listener v.ends;
  }
  round-Course left k j rest (succeeds c l) d v = record {
    failures = 0;
    few = omega arith;
    all_fail = tt;
    slept = (quiet keepalive).0;
    errors = (quiet keepalive).1;
    closed = (quiet keepalive).2;
    ends = inr (
      omega arith,
      subst (λ x. EndsBy x none (some c) (some l)) (sym d ∙ ap attempt (omega arith))
          (refl, refl, refl),
    );
  }

  attempts-Course :
      (left k j : ℕ) → Course left k j (attempts attempt error_text now keepalive left k (wait j))
  unfolding attempts
  attempts-Course zero k j = record {
    failures = 0;
    few = omega arith;
    all_fail = tt;
    slept = refl;
    errors = refl;
    closed = refl;
    ends = inl (refl, refl, refl, refl);
  }
  attempts-Course (suc left) k j = round-Course left k j _ (attempt k) refl (
      subst
        (λ b.
          Course left (suc k) (suc j) (attempts attempt error_text now keepalive left (suc k) b))
        (sym (next_backoff-wait j)) (attempts-Course left (suc k) (suc j)))

  torn :
      (listener : Option Listener) (client : Option Client) (es : List (Event Client Listener))
      → let head = closes_old attempt error_text now keepalive listener client in
        (sleeps_of (head ++ es) ≡ sleeps_of es)
        × (recorded (head ++ es) ≡ recorded es)
        × (closed_of (head ++ es) ≡ old client ++ closed_of es)
  unfolding closes_old
  torn none none es = (refl, refl, refl)
  torn none (some c) es = (refl, refl, refl)
  torn (some l) none es = (refl, refl, refl)
  torn (some l) (some c) es = (refl, refl, refl)

  -- `reconnect` makes at most ten attempts. After `n` failures, for each of which an error is
  -- recorded, it has paused for 1, 2, 4, ... seconds, at most 60, and has closed the old client and
  -- every client that did not get a listener, and no other client. After ten failures it gives up with
  -- an error, and the tunnel has neither client nor listener. After fewer it ends by the attempt that
  -- comes next: with the error of a context that is done, or with nil and the client and listener of
  -- an attempt that succeeds.
  pub reconnect-Ends :
      (listener : Option Listener) (client : Option Client)
      → let r = reconnect attempt error_text now keepalive listener client in
        (n : ℕ) × (n ≤ 10)
        × AllFail 1 n
        × (sleeps_of r.events ≡ waits 0 n)
        × (recorded r.events ≡ n)
        × (closed_of r.events ≡ old client ++ clients_made 1 n)
        × Ends 10 1 n r.returned r.client r.listener
  unfolding reconnect
  reconnect-Ends listener client =
      let v = attempts-Course max_attempts 1 0 in
      let (a, q, b) =
        torn listener client
          (attempts attempt error_text now keepalive max_attempts 1 first_backoff).events in
      (
        v.failures,
        v.few,
        v.all_fail,
        a ∙ v.slept,
        q ∙ v.errors,
        b ∙ ap (λ z. old client ++ z) v.closed,
        v.ends,
      )
