-- ===== src/Tunnel/Reverse/Started.antt =====
-- What `Start` leaves behind, when it fails and when it succeeds.
use gonc.Prelude.{
  ◌≡◌, ◌⊎◌, inl, inr, refl, ap, [], ◌∷◌, ◌++◌, Option, none, some, Bool, true, false, if◌then◌else◌,
  Bool-cases,
}
use gonc.Prelude.Int.{ℤ, pos, ltb_ℤ}
use gonc.Prelude.Result.{Result, ok, err}
use gonc.Text.{Str}
use gonc.Errors.{Error}
use gonc.Tunnel.{SshConfig}
use gonc.Tunnel.Action.{Action, Post, returns, fails, Post-then, Post-ok}
use gonc.Tunnel.Reverse.{
  SshForwardListener, drains_messages, closes_at_end, keepalive_loop, accept_loop, ReverseTunnel,
  ReverseTunnelConfig, Gateway, if_granted, forwards, listen_remote_forward, saves, drains, cancels,
  with_keepalive, launches, after_listen, after_check, after_dial, start, new_reverse_tunnel,
}

module _ {W Client Incoming TestListener : Type 0}
    (gateway : Gateway W Client Incoming TestListener) (dial : SshConfig → Action W Client) where
  -- Nothing is left open: either `dialSSH` has failed, and no goroutine has been started; or its
  -- client was closed at last, which ends the goroutine that reads the messages of its server, the
  -- only one.
  abbrev pub Cleaned : SshConfig → W → ReverseTunnel Client Incoming → W → Type 0
  Cleaned cfg w s u =
      ((e : Error) × (dial cfg w ≡ (err e, u)) × (s.goroutines ≡ []))
      ⊎ ((client : Client) × (v x : W) × (dial cfg w ≡ (ok client, v))
          × (u ≡ gateway.close_client client x)
          × (s.goroutines ≡ drains_messages ∷ []))

  -- The goroutines that run, and how many of them the wait group waits for.
  abbrev pub Launched : ReverseTunnel Client Incoming → Type 0
  Launched s =
      (s.goroutines
        ≡ drains_messages
          ∷ closes_at_end
          ∷ (if ltb_ℤ (pos 0) s.config.keep_alive_interval
              then keepalive_loop ∷ accept_loop ∷ []
              else accept_loop ∷ []))
      × (s.wait_group ≡ (if ltb_ℤ (pos 0) s.config.keep_alive_interval then 2 else 1))

  -- How `Start` ends. With an error, the tunnel is cancelled, and nothing is left behind. Without one, the client of `dialSSH` and a listener of this client are stored, and
  -- the goroutines run.
  abbrev pub Ended : SshConfig → W → Option Error × ReverseTunnel Client Incoming × W → Type 0
  Ended cfg w (some e, s, u) = (s.cancelled ≡ true) × Cleaned cfg w s u
  Ended cfg w (none, s, u) =
      (client : Client) × (ln : SshForwardListener Client Incoming) × (v : W) × (dial cfg w
        ≡ (ok client, v))
      × (s.client ≡ some client)
      × (s.listener ≡ some ln)
      × (s.cancelled ≡ false)
      × (ln.client ≡ client)
      × Launched s

  granted-client :
      (client : Client) (addr : Str) (port : ℤ) (incoming : Incoming) (granted : Bool) (w : W)
      → Post (λ ln v. ln.client ≡ client) (if_granted gateway client addr port incoming granted w)
  unfolding if_granted
  granted-client client addr port incoming true w = returns refl
  granted-client client addr port incoming false w = fails

  forwards-client :
      (client : Client) (addr : Str) (port : ℤ) (incoming : Option Incoming) (w : W)
      → Post (λ ln v. ln.client ≡ client) (forwards gateway client addr port incoming w)
  unfolding forwards
  forwards-client client addr port none w = fails
  forwards-client client addr port (some incoming) w =
      Post-then _ _ λ granted v. granted-client client addr port incoming granted v

  listener-client :
      (client : Client) (addr : Str) (port : ℤ) (w : W)
      → Post (λ ln v. ln.client ≡ client) (listen_remote_forward gateway client addr port w)
  unfolding listen_remote_forward
  listener-client client addr port w = forwards-client client addr port _ _

  launches-Launched :
      (rt : ReverseTunnel Client Incoming)
      → rt.goroutines ≡ drains_messages ∷ []
      → rt.wait_group ≡ 0
      → Launched (launches gateway rt)
  unfolding launches with_keepalive
  launches-Launched rt g z = elim (Bool-cases (ltb_ℤ (pos 0) rt.config.keep_alive_interval)) [
    | inl e ↦ rw e (rw g (rw z (refl, refl)))
    | inr e ↦ rw e (rw g (rw z (refl, refl)))
  ]

  after_listen-Ended :
      (rt : ReverseTunnel Client Incoming) (client : Client) (w v : W)
      (p : Result Error (SshForwardListener Client Incoming) × W)
      → rt.cancelled ≡ false
      → rt.goroutines ≡ drains_messages ∷ []
      → rt.wait_group ≡ 0
      → rt.client ≡ some client
      → dial rt.config.ssh_config w ≡ (ok client, v)
      → Post (λ ln u. ln.client ≡ client) p
      → Ended rt.config.ssh_config w (after_listen gateway rt client p)
  unfolding after_listen cancels
  after_listen-Ended rt client w v (err e, u) n g z c d h = (refl, inr (client, v, u, d, refl, g))
  after_listen-Ended rt client w v (ok ln, u) n g z c d h = (
    client,
    ln,
    v,
    d,
    c,
    refl,
    n,
    Post-ok h refl,
    launches-Launched (record rt { listener = some ln }) g z,
  )

  after_check-Ended :
      (rt : ReverseTunnel Client Incoming) (client : Client) (w v : W)
      (p : Result Error (Unit {0}) × W)
      → rt.cancelled ≡ false
      → rt.goroutines ≡ drains_messages ∷ []
      → rt.wait_group ≡ 0
      → rt.client ≡ some client
      → dial rt.config.ssh_config w ≡ (ok client, v)
      → Ended rt.config.ssh_config w (after_check gateway rt client p)
  unfolding after_check cancels
  after_check-Ended rt client w v (err e, u) n g z c d = (refl, inr (client, v, u, d, refl, g))
  after_check-Ended rt client w v (ok t, u) n g z c d =
      after_listen-Ended rt client w v _ n g z c d (listener-client client _ _ u)

  after_dial-Ended :
      (rt : ReverseTunnel Client Incoming) (w : W) (p : Result Error Client × W)
      → rt.cancelled ≡ false
      → rt.goroutines ≡ []
      → rt.wait_group ≡ 0
      → dial rt.config.ssh_config w ≡ p
      → Ended rt.config.ssh_config w (after_dial gateway rt p)
  unfolding after_dial cancels saves drains
  after_dial-Ended rt w (err e, u) n g z d = (refl, inl (e, d, g))
  after_dial-Ended rt w (ok client, v) n g z d =
      after_check-Ended (saves gateway client (drains gateway rt)) client w v _ n
        (ap (λ gs. gs ++ drains_messages ∷ []) g) z refl d

  -- However the calls turn out: when `Start` fails the tunnel is cancelled; either `dialSSH` has
  -- failed and no goroutine has been started, or the client that it has made was closed at last and
  -- the goroutine that prints what its server sends is the only one that was started. When it
  -- succeeds the tunnel has this client and a listener of it, and this goroutine, the one for the end
  -- of the context and the accept loop run, with the keepalive loop in between if its interval is positive; the wait group
  -- counts the two loops.
  pub start-Ended :
      (cfg : ReverseTunnelConfig) (w : W)
      → Ended cfg.ssh_config w (start gateway dial (new_reverse_tunnel cfg) w)
  unfolding start new_reverse_tunnel
  start-Ended cfg w = after_dial-Ended (new_reverse_tunnel cfg) w _ refl refl refl refl
