-- ===== src/Transport/Ssh/Lost.antt =====
-- What the dialer does once its tunnel is lost.
use gonc.Prelude.{
  ℕ, ◌≡◌, refl, sym, ap, subst, ◌∙◌, List, [], ◌∷◌, Option, none, some, Bool, true, false, some-eq,
  length, length-set, get_elem?, set,
}
use gonc.Tunnel.Ssh.{gives_up, usable}
use gonc.Transport.Ssh.{
  Monitor, starting, waiting, gone, SshDialer, Move, connects, closes, monitors_on, ends,
  establishes, looks, wakes, monitor, step, run, dials_by, StaysOpen,
}
use gonc.Transport.Ssh.Single.{run-keeps}

record Stuck (n : ℕ) (s : SshDialer) : Type 0 where
  pub up : s.connected ≡ true
  pub dead : s.tunnel.alive ≡ false
  pub made : length s.over ≡ n

module _ (n : ℕ) where
  looks-Stuck : (i : ℕ) (c : Option ℕ) (s : SshDialer) → Stuck n s → Stuck n (looks i c s)
  unfolding looks
  looks-Stuck i none s v = record { up = v.up; dead = v.dead; made = v.made }
  looks-Stuck i (some k) s v = record { up = v.up; dead = v.dead; made = v.made }

  wakes-Stuck :
      (i : ℕ) (b : Option Bool) (s : SshDialer) {t : SshDialer}
      → Stuck n s
      → wakes i b s ≡ some t
      → Stuck n t
  unfolding wakes
  wakes-Stuck i (some true) s v h =
      subst (Stuck n) (some-eq h) (record { up = v.up; dead = refl; made = v.made })
  wakes-Stuck i (some false) s v h = absurd (cc)
  wakes-Stuck i none s v h = absurd (cc)

  monitor-Stuck :
      (i : ℕ) (m : Option Monitor) (s : SshDialer) {t : SshDialer}
      → Stuck n s
      → monitor i m s ≡ some t
      → Stuck n t
  unfolding monitor
  monitor-Stuck i (some starting) s v h =
      subst (Stuck n) (some-eq h) (looks-Stuck i s.tunnel.client s v)
  monitor-Stuck i (some (waiting k)) s v h = wakes-Stuck i (get_elem? s.over k) s v h
  monitor-Stuck i (some gone) s v h = absurd (cc)
  monitor-Stuck i none s v h = absurd (cc)

  step-Stuck :
      (s : SshDialer) (m : Move) (t : SshDialer)
      → StaysOpen (m ∷ [])
      → Stuck n s
      → step s m ≡ some t
      → Stuck n t
  unfolding step establishes
  step-Stuck s (connects r) t o v h =
      subst (Stuck n) (sym (ap (λ b. establishes b r s) v.up) ∙ some-eq h) v
  step-Stuck s closes t o v h = absurd o
  step-Stuck s (monitors_on i) t o v h = monitor-Stuck i (get_elem? s.monitors i) s v h
  step-Stuck s (ends k) t o v h =
      subst (Stuck n) (some-eq h)
        (record { up = v.up; dead = v.dead; made = length-set s.over k true ∙ v.made })

-- A dialer that has connected and lost its tunnel never connects again by itself: until somebody
-- closes it, no schedule makes another connection, and every `Dial` returns `ErrNotConnected`.
pub run-lost :
    (s : SshDialer) (ms : List Move) {t : SshDialer}
    → s.connected ≡ true
    → s.tunnel.alive ≡ false
    → StaysOpen ms
    → run (some s) ms ≡ some t
    → (dials_by t ≡ none) × (length t.over ≡ length s.over)
unfolding dials_by usable
run-lost s ms {t} c d o h =
    let n = length s.over in
    let v =
      run-keeps (Stuck n) (step-Stuck n) s ms o (record { up = c; dead = d; made = refl }) h in
    (rw v.dead refl, v.made)

-- A monitor of a connection that is over says so of the tunnel, which may by then stand on another
-- connection: whatever the state, that one is not used any more.
pub late_monitor :
    (s : SshDialer) (i k : ℕ)
    → get_elem? s.monitors i ≡ some (waiting k)
    → get_elem? s.over k ≡ some true
    → (t : SshDialer) × (step s (monitors_on i) ≡ some t)
      × (dials_by t ≡ none)
      × (t.tunnel.client ≡ s.tunnel.client)
      × (t.over ≡ s.over)
      × (t.connected ≡ s.connected)
unfolding step monitor wakes dials_by gives_up
late_monitor s i k a b =
    let t : SshDialer = record s { tunnel = gives_up s.tunnel; monitors = set s.monitors i gone } in
    let e : step s (monitors_on i) ≡ some t = rw a (rw b refl) in (t, e, refl, refl, refl, refl)
