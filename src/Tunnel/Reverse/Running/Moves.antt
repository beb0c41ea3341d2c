-- ===== src/Tunnel/Reverse/Running/Moves.antt =====
-- Once its context is done a reverse tunnel always has a move of its own, until all has ended.
use gonc.Prelude.{
  ℕ, zero, suc, ◌<◌, ◌≡◌, ◌≢◌, inl, inr, refl, ap, ◌∙◌, Option, none, some, Bool, true, false, not,
  get_elem?, set, arith, ℕ_discrete, Option-cases, Bool-cases,
}
use gonc.Tunnel.Reverse.Running.{
  Acceptor, looking, tearing_down, reconnecting, cancelling, accepting, Keepalive, ticking, closing,
  asking, Running, Move, at_end, accept_fails, acceptor_moves, handler_ends, reconnects, sees_end,
  keepalive_moves, answers, at_end_step, after_failure, looks, close_of, acceptor_step, reconnected,
  on_end, on_answer, keepalive_step, handler_step, step,
}
use gonc.Tunnel.Reverse.Running.Open.{OpenOnly, close_of-OpenOnly}
use gonc.Tunnel.Reverse.Running.Open
use gonc.Tunnel.Reverse.Running.Own.{
  accept_left, left, left_in, waited_for, watch_left, left_over, is_open, is_own, Closable,
  close_of-NoneOpen, left_in-set, pick,
}

module _ (keepalive auto_reconnect : Bool) where
  abbrev pub Steps : Running → Type 0
  Steps s =
      (m : Move) × (t : Running) × (step keepalive auto_reconnect s m ≡ some t)
      × (is_own s m ≡ true)
      × (left_over t < left_over s)
      × (t.ctx_done ≡ true)
      × Closable t

  looking-Steps :
      (o : Option ℕ) (s : Running)
      → s.listener ≡ o
      → s.acceptor ≡ looking
      → s.ctx_done ≡ true
      → Closable s
      → Steps s
  unfolding step acceptor_step looks
  looking-Steps none s l a d q =
      let k : step keepalive auto_reconnect s acceptor_moves
          ≡ some (record s { acceptor = cancelling }) =
        rw a (rw l refl) in
      (acceptor_moves, _, k, refl, omega (arith, ap accept_left a), d, q)
  looking-Steps (some n) s l a d q =
      let k : step keepalive auto_reconnect s acceptor_moves
          ≡ some (record s { acceptor = accepting n }) =
        rw a (rw l refl) in
      (acceptor_moves, _, k, refl, omega (arith, ap accept_left a), d, q)

  -- in `Accept`: on a listener that is not open it fails, and an open one is closed first
  failing-Steps :
      (l : ℕ) (s : Running)
      → s.acceptor ≡ accepting l
      → is_open (get_elem? s.closed l) ≡ false
      → s.ctx_done ≡ true
      → Closable s
      → Steps s
  unfolding step after_failure
  failing-Steps l s a o d q =
      let k : step keepalive auto_reconnect s accept_fails
          ≡ some (record s { acceptor = cancelling }) =
        rw a (rw d refl) in
      let own : is_own s accept_fails ≡ true = rw a (rw o refl) in
      (accept_fails, _, k, own, omega (arith, ap accept_left a), d, q)

  closing-Steps :
      (l : ℕ) (s : Running)
      → get_elem? s.closed l ≡ some false
      → s.ctx_done ≡ true
      → Open.Inv s
      → Closable s
      → Steps s
  unfolding step at_end_step
  closing-Steps l s o d v (inr none_open) = absurd (none_open l o)
  closing-Steps l s o d v (inl w) =
      let k : step keepalive auto_reconnect s at_end
          ≡ some (record s { closed_at_end = true; closed = close_of s.listener s.closed }) =
        rw d (rw w refl) in
      (
        at_end,
        _,
        k,
        refl,
        omega (arith, ap watch_left w),
        d,
        inr (close_of-NoneOpen s.listener s.closed v.open_only),
      )

  accepting-Steps :
      (l : ℕ) (s : Running)
      → s.acceptor ≡ accepting l
      → s.ctx_done ≡ true
      → Open.Inv s
      → Closable s
      → Steps s
  accepting-Steps l s a d v q = elim (Option-cases (get_elem? s.closed l)) [
    | inl e ↦ failing-Steps l s a (ap is_open e) d q
    | inr (c, e) ↦ elim (Bool-cases c) [
      | inl t ↦ failing-Steps l s a (ap is_open e ∙ ap not t) d q
      | inr f ↦ closing-Steps l s (e ∙ ap some f) d v q
    ]
  ]

  accept-Steps :
      (a : Acceptor) (s : Running)
      → s.acceptor ≡ a
      → s.ctx_done ≡ true
      → Open.Inv s
      → Closable s
      → accept_left a ≢ 0
      → Steps s
  unfolding step acceptor_step reconnected
  accept-Steps looking s a d v q n = looking-Steps s.listener s refl a d q
  accept-Steps (accepting l) s a d v q n = accepting-Steps l s a d v q
  accept-Steps tearing_down s a d v q n = (
    acceptor_moves,
    _,
    ap (λ x. acceptor_step keepalive auto_reconnect x s) a,
    refl,
    omega (arith, ap accept_left a),
    d,
    inr (close_of-NoneOpen s.listener s.closed v.open_only),
  )
  accept-Steps reconnecting s a d v q n = (
    reconnects false,
    _,
    ap (λ x. reconnected keepalive auto_reconnect false x s) a,
    refl,
    omega (arith, ap accept_left a),
    d,
    q,
  )
  accept-Steps cancelling s a d v q n = (
    acceptor_moves,
    _,
    ap (λ x. acceptor_step keepalive auto_reconnect x s) a,
    refl,
    omega (arith, ap accept_left a),
    refl,
    q,
  )
  accept-Steps Acceptor.leaving s a d v q n = (
    acceptor_moves,
    _,
    ap (λ x. acceptor_step keepalive auto_reconnect x s) a,
    refl,
    omega (arith, ap accept_left a),
    d,
    q,
  )
  accept-Steps Acceptor.gone s a d v q n = absurd (n refl)

  keepalive-Steps :
      (i : ℕ) (k : Keepalive) (s : Running)
      → get_elem? s.keepalives i ≡ some k
      → s.ctx_done ≡ true
      → Open.Inv s
      → Closable s
      → left k ≢ 0
      → Steps s
  unfolding step on_end on_answer keepalive_step
  keepalive-Steps i ticking s at d v q n =
      let e : step keepalive auto_reconnect s (sees_end i)
          ≡ some (record s { keepalives = set s.keepalives i Keepalive.leaving }) =
        rw at (rw d refl) in
      (
        sees_end i,
        _,
        e,
        refl,
        omega (arith, left_in-set s.keepalives i ticking Keepalive.leaving at),
        d,
        q,
      )
  keepalive-Steps i (asking c) s at d v q n = (
    answers i true,
    _,
    ap (λ x. on_answer keepalive auto_reconnect i true x s) at,
    refl,
    omega (arith, left_in-set s.keepalives i (asking c) ticking at),
    d,
    q,
  )
  keepalive-Steps i closing s at d v q n = (
    keepalive_moves i,
    _,
    ap (λ x. keepalive_step keepalive auto_reconnect i x s) at,
    refl,
    omega (arith, left_in-set s.keepalives i closing Keepalive.leaving at),
    d,
    inr (close_of-NoneOpen s.listener s.closed v.open_only),
  )
  keepalive-Steps i Keepalive.leaving s at d v q n = (
    keepalive_moves i,
    _,
    ap (λ x. keepalive_step keepalive auto_reconnect i x s) at,
    refl,
    omega (arith, left_in-set s.keepalives i Keepalive.leaving Keepalive.gone at),
    d,
    q,
  )
  keepalive-Steps i Keepalive.gone s at d v q n = absurd (n refl)

  handler-Steps :
      (h : ℕ) (s : Running) → s.handlers ≡ h → s.ctx_done ≡ true → Closable s → h ≢ 0 → Steps s
  unfolding step handler_step
  handler-Steps zero s e d q n = absurd (n refl)
  handler-Steps (suc h) s e d q n = (
    handler_ends,
    _,
    ap (λ x. handler_step keepalive auto_reconnect x s) e,
    refl,
    omega (arith, e),
    d,
    q,
  )

  pub next :
      (s : Running) → s.ctx_done ≡ true → Open.Inv s → Closable s → waited_for s ≢ 0 → Steps s
  next s d v q n = elim (ℕ_discrete (accept_left s.acceptor) 0) [
    | no k ↦ accept-Steps s.acceptor s refl d v q k
    | yes a ↦ elim (ℕ_discrete (left_in s.keepalives) 0) [
      | no k ↦ let (i, u, at, m) = pick s.keepalives k in keepalive-Steps i u s at d v q m
      | yes b ↦ handler-Steps s.handlers s refl d q (λ z. n (omega arith))
    ]
  ]
