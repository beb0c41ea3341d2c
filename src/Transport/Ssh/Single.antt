-- ===== src/Transport/Ssh/Single.antt =====
-- A dialer that nobody closes: one connection, and a view of it that is true.
use gonc.Prelude.{
  zero, suc, ◌≡◌, ◌⊎◌, ◌≢◌, inl, inr, refl, sym, ap, subst, ◌∙◌, List, [], ◌∷◌, none, some, Bool,
  true, false, Option-cases, some-eq,
}
use gonc.Tunnel.{SshConfig}
use gonc.Tunnel.Ssh.{new_ssh_tunnel}
use gonc.Transport.Ssh.{
  starting, waiting, gone, SshDialer, new_ssh_dialer, Move, connects, closes, monitors_on, ends,
  establishes, looks, wakes, monitor, step, run, dials_by, StaysOpen,
}

-- The four states of the dialer.
data Stage : Type 0 where
  unconnected down : Stage
  up_unwatched up_watched : Bool → Stage

abbrev at : SshConfig → Stage → SshDialer
at cfg unconnected = record {
  tunnel = record { config = cfg; client = none; alive = false };
  connected = false;
  monitors = [];
  over = [];
}
at cfg (up_unwatched b) = record {
  tunnel = record { config = cfg; client = some 0; alive = true };
  connected = true;
  monitors = starting ∷ [];
  over = b ∷ [];
}
at cfg (up_watched b) = record {
  tunnel = record { config = cfg; client = some 0; alive = true };
  connected = true;
  monitors = waiting 0 ∷ [];
  over = b ∷ [];
}
at cfg down = record {
  tunnel = record { config = cfg; client = some 0; alive = false };
  connected = true;
  monitors = gone ∷ [];
  over = true ∷ [];
}

abbrev Staged : SshConfig → SshDialer → Type 0
Staged cfg s = (g : Stage) × (s ≡ at cfg g)

stage_step :
    (cfg : SshConfig) (g : Stage) (m : Move) {t : SshDialer}
    → StaysOpen (m ∷ [])
    → step (at cfg g) m ≡ some t
    → Staged cfg t
unfolding step establishes monitor looks wakes
stage_step cfg unconnected (connects none) o h = (up_unwatched false, sym (some-eq h))
stage_step cfg unconnected (connects (some e)) o h = (unconnected, sym (some-eq h))
stage_step cfg unconnected (monitors_on i) o h = absurd (cc)
stage_step cfg unconnected (ends k) o h = (unconnected, sym (some-eq h))
stage_step cfg (up_unwatched b) (connects r) o h = (up_unwatched b, sym (some-eq h))
stage_step cfg (up_unwatched b) (monitors_on zero) o h = (up_watched b, sym (some-eq h))
stage_step cfg (up_unwatched b) (monitors_on (suc i)) o h = absurd (cc)
stage_step cfg (up_unwatched b) (ends zero) o h = (up_unwatched true, sym (some-eq h))
stage_step cfg (up_unwatched b) (ends (suc k)) o h = (up_unwatched b, sym (some-eq h))
stage_step cfg (up_watched b) (connects r) o h = (up_watched b, sym (some-eq h))
stage_step cfg (up_watched true) (monitors_on zero) o h = (down, sym (some-eq h))
stage_step cfg (up_watched false) (monitors_on zero) o h = absurd (cc)
stage_step cfg (up_watched b) (monitors_on (suc i)) o h = absurd (cc)
stage_step cfg (up_watched b) (ends zero) o h = (up_watched true, sym (some-eq h))
stage_step cfg (up_watched b) (ends (suc k)) o h = (up_watched b, sym (some-eq h))
stage_step cfg down (connects r) o h = (down, sym (some-eq h))
stage_step cfg down (monitors_on zero) o h = absurd (cc)
stage_step cfg down (monitors_on (suc i)) o h = absurd (cc)
stage_step cfg down (ends zero) o h = (down, sym (some-eq h))
stage_step cfg down (ends (suc k)) o h = (down, sym (some-eq h))
stage_step cfg g closes o h = absurd o

pub run-none : (ms : List Move) {t : SshDialer} → run none ms ≢ some t
unfolding run
run-none [] h = absurd (cc)
run-none (m ∷ ms) h = absurd (cc)

pub StaysOpen-head : (m : Move) (ms : List Move) → StaysOpen (m ∷ ms) → StaysOpen (m ∷ [])
StaysOpen-head (connects r) ms o = tt
StaysOpen-head closes ms o = o
StaysOpen-head (monitors_on i) ms o = tt
StaysOpen-head (ends k) ms o = tt

pub StaysOpen-tail : (m : Move) (ms : List Move) → StaysOpen (m ∷ ms) → StaysOpen ms
StaysOpen-tail (connects r) ms o = o
StaysOpen-tail closes ms o = absurd o
StaysOpen-tail (monitors_on i) ms o = o
StaysOpen-tail (ends k) ms o = o

-- What holds of a dialer and survives every move but `Close` holds after a run without one.
pub run-keeps {ℓ} :
    (P : SshDialer → Type ℓ)
    → ((s : SshDialer) (m : Move) (t : SshDialer)
        → StaysOpen (m ∷ [])
        → P s
        → step s m ≡ some t
        → P t)
    → (s : SshDialer) (ms : List Move) {t : SshDialer} → StaysOpen ms
    → P s
    → run (some s) ms ≡ some t
    → P t
unfolding run
run-keeps P keeps s [] o p h = subst P (some-eq h) p
run-keeps P keeps s (m ∷ ms) o p h = elim (Option-cases (step s m)) [
  | inl e ↦ absurd (run-none ms (sym (ap (λ z. run z ms) e) ∙ h))
  | inr (u, e) ↦
      run-keeps P keeps u ms (StaysOpen-tail m ms o) (keeps s m u (StaysOpen-head m ms o) p e)
        (sym (ap (λ z. run z ms) e) ∙ h)
]

Seen : SshDialer → Type 0
Seen s =
    ((s.connected ≡ false) × (s.over ≡ []) × (dials_by s ≡ none))
    ⊎ ((closed : Bool) × (s.connected ≡ true)
        × (s.over ≡ closed ∷ [])
        × ((dials_by s ≡ some 0) ⊎ ((dials_by s ≡ none) × (closed ≡ true))))

stage-Seen : (cfg : SshConfig) (g : Stage) → Seen (at cfg g)
unfolding Seen dials_by
stage-Seen cfg unconnected = inl (refl, refl, refl)
stage-Seen cfg (up_unwatched b) = inr (b, refl, refl, inl refl)
stage-Seen cfg (up_watched b) = inr (b, refl, refl, inl refl)
stage-Seen cfg down = inr (true, refl, refl, inr (refl, refl))

-- As long as nobody closes the dialer, it makes at most one connection, whatever the schedule of
-- calls and goroutines; once it has one, `Dial` goes through it, or else it is over and `Dial` fails.
pub run-Seen :
    (cfg : SshConfig) (ms : List Move) {s : SshDialer}
    → StaysOpen ms
    → run (some (new_ssh_dialer cfg)) ms ≡ some s
    → ((s.connected ≡ false) × (s.over ≡ []) × (dials_by s ≡ none))
      ⊎ ((closed : Bool) × (s.connected ≡ true)
          × (s.over ≡ closed ∷ [])
          × ((dials_by s ≡ some 0) ⊎ ((dials_by s ≡ none) × (closed ≡ true))))
unfolding new_ssh_tunnel Seen
run-Seen cfg ms o h =
    let full = (new_ssh_dialer cfg).tunnel.config in
    let (g, e) =
      run-keeps (Staged full)
        (λ s m t k (g, e) f. stage_step full g m k (sym (ap (λ z. step z m) e) ∙ f))
        (new_ssh_dialer cfg) ms o (unconnected, refl) h in
    subst Seen (sym e) (stage-Seen full g)
