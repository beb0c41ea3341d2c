-- ===== src/Tunnel/Reverse/Running/Counted.antt =====
-- The wait group counts the goroutines that have not called `Done`: the moves of the accept loop.
use gonc.Prelude.{
  ℕ, zero, suc, ◌+◌, ◌≡◌, refl, sym, ap, subst, List, [], ◌∷◌, ◌++◌, Option, none, some, Bool, true,
  false, arith, some-eq, if◌then◌else◌, get_elem?, set,
}
use gonc.Tunnel.Reverse.Running.{
  Acceptor, looking, tearing_down, reconnecting, cancelling, accepting, Keepalive, Running,
  at_end_step, after_accept, after_failure, looks, acceptor_step,
}

-- 1 for a goroutine that has not called `Done`
abbrev pub accept_pending : Acceptor → ℕ
accept_pending Acceptor.gone = 0
accept_pending _ = 1

abbrev pub pending : Keepalive → ℕ
pending Keepalive.gone = 0
pending _ = 1

abbrev pub pending_all : List Keepalive → ℕ
pending_all [] = 0
pending_all (k ∷ ks) = pending k + pending_all ks

pub pending_all-set :
    (ks : List Keepalive) (i : ℕ) (k v : Keepalive)
    → get_elem? ks i ≡ some k
    → pending k + pending_all (set ks i v) ≡ pending v + pending_all ks
pending_all-set [] i k v h = absurd (cc)
pending_all-set (x ∷ ks) zero k v h = omega (arith, ap pending (some-eq h))
pending_all-set (x ∷ ks) (suc i) k v h = omega (arith, pending_all-set ks i k v h)

pub pending_all-append :
    (ks : List Keepalive) (k : Keepalive) → pending_all (ks ++ k ∷ []) ≡ pending_all ks + pending k
pending_all-append [] k = omega arith
pending_all-append (x ∷ ks) k = omega (arith, pending_all-append ks k)

-- the accept loop cancels before it leaves
abbrev pub Left : Acceptor → Bool → Type 0
Left Acceptor.leaving d = d ≡ true
Left Acceptor.gone d = d ≡ true
Left _ d = Unit

pub record Inv (s : Running) : Type 0 where
  pub counted : s.wait_group ≡ accept_pending s.acceptor + pending_all s.keepalives + s.handlers
  pub left : Left s.acceptor s.ctx_done

pub Left-true : (a : Acceptor) → Left a true
Left-true looking = tt
Left-true tearing_down = tt
Left-true reconnecting = tt
Left-true cancelling = tt
Left-true Acceptor.leaving = refl
Left-true Acceptor.gone = refl
Left-true (accepting l) = tt

-- a move of a keepalive loop from `k` to `v` that does not call `Done`
pub moved :
    (s : Running) (i : ℕ) (k v : Keepalive) {t : Running}
    → get_elem? s.keepalives i ≡ some k
    → pending k ≡ pending v
    → Inv s
    → t.wait_group ≡ s.wait_group
    → t.acceptor ≡ s.acceptor
    → t.keepalives ≡ set s.keepalives i v
    → t.handlers ≡ s.handlers
    → t.ctx_done ≡ s.ctx_done
    → Inv t
moved s i k v {t} at p inv w a ks n d = record {
  counted = omega (
    arith,
    inv.counted,
    pending_all-set s.keepalives i k v at,
    w,
    p,
    n,
    ap accept_pending a,
    ap pending_all ks,
  );
  left = subst (λ x. Left x t.ctx_done) (sym a) (subst (λ x. Left s.acceptor x) (sym d) inv.left);
}

module _ (keepalive auto_reconnect : Bool) where
  pub at_end_step-Inv :
      (d c : Bool) (s : Running) {t : Running} → Inv s → at_end_step d c s ≡ some t → Inv t
  unfolding at_end_step
  at_end_step-Inv true false s v h =
      subst Inv (some-eq h) (record { counted = v.counted; left = v.left })
  at_end_step-Inv true true s v h = absurd (cc)
  at_end_step-Inv false c s v h = absurd (cc)

  looks-Inv :
      (l : Option ℕ) (s : Running)
      → s.acceptor ≡ looking
      → Inv s
      → Inv (looks keepalive auto_reconnect l s)
  unfolding looks
  looks-Inv none s e v = record {
    counted = omega (arith, v.counted, ap accept_pending e);
    left = tt;
  }
  looks-Inv (some l) s e v = record {
    counted = omega (arith, v.counted, ap accept_pending e);
    left = tt;
  }

  pub after_accept-Inv :
      (a : Acceptor) (s : Running) {t : Running}
      → s.acceptor ≡ a
      → Inv s
      → after_accept keepalive auto_reconnect a s ≡ some t
      → Inv t
  unfolding after_accept
  after_accept-Inv (accepting l) s e v h =
      subst Inv (some-eq h)
        (record { counted = omega (arith, v.counted, ap accept_pending e); left = tt })
  after_accept-Inv looking s e v h = absurd (cc)
  after_accept-Inv tearing_down s e v h = absurd (cc)
  after_accept-Inv reconnecting s e v h = absurd (cc)
  after_accept-Inv cancelling s e v h = absurd (cc)
  after_accept-Inv Acceptor.leaving s e v h = absurd (cc)
  after_accept-Inv Acceptor.gone s e v h = absurd (cc)

  fails-Inv :
      (d r : Bool) (s : Running) {l : ℕ}
      → s.acceptor ≡ accepting l
      → Inv s
      → Inv
          (record s { acceptor = if d then cancelling else if r then tearing_down else cancelling })
  fails-Inv true r s e v = record {
    counted = omega (arith, v.counted, ap accept_pending e);
    left = tt;
  }
  fails-Inv false true s e v = record {
    counted = omega (arith, v.counted, ap accept_pending e);
    left = tt;
  }
  fails-Inv false false s e v = record {
    counted = omega (arith, v.counted, ap accept_pending e);
    left = tt;
  }

  pub after_failure-Inv :
      (a : Acceptor) (s : Running) {t : Running}
      → s.acceptor ≡ a
      → Inv s
      → after_failure keepalive auto_reconnect a s ≡ some t
      → Inv t
  unfolding after_failure
  after_failure-Inv (accepting l) s e v h =
      subst Inv (some-eq h) (fails-Inv s.ctx_done auto_reconnect s e v)
  after_failure-Inv looking s e v h = absurd (cc)
  after_failure-Inv tearing_down s e v h = absurd (cc)
  after_failure-Inv reconnecting s e v h = absurd (cc)
  after_failure-Inv cancelling s e v h = absurd (cc)
  after_failure-Inv Acceptor.leaving s e v h = absurd (cc)
  after_failure-Inv Acceptor.gone s e v h = absurd (cc)

  pub acceptor_step-Inv :
      (a : Acceptor) (s : Running) {t : Running}
      → s.acceptor ≡ a
      → Inv s
      → acceptor_step keepalive auto_reconnect a s ≡ some t
      → Inv t
  unfolding acceptor_step
  acceptor_step-Inv looking s e v h = subst Inv (some-eq h) (looks-Inv s.listener s e v)
  acceptor_step-Inv tearing_down s e v h =
      subst Inv (some-eq h)
        (record { counted = omega (arith, v.counted, ap accept_pending e); left = tt })
  acceptor_step-Inv cancelling s e v h =
      subst Inv (some-eq h)
        (record { counted = omega (arith, v.counted, ap accept_pending e); left = refl })
  acceptor_step-Inv Acceptor.leaving s e v h = subst Inv (some-eq h) (record {
    counted = omega (arith, v.counted, ap accept_pending e);
    left = subst (λ a. Left a s.ctx_done) e v.left;
  })
  acceptor_step-Inv reconnecting s e v h = absurd (cc)
  acceptor_step-Inv Acceptor.gone s e v h = absurd (cc)
  acceptor_step-Inv (accepting l) s e v h = absurd (cc)
