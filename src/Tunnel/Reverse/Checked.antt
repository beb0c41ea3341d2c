-- ===== src/Tunnel/Reverse/Checked.antt =====
-- `Start` with `CheckGatewayPorts`: the check and the listener want the same channels.
use gonc.Prelude.{◌≡◌, refl, Option, none, some, true}
use gonc.Prelude.Int.{ℤ}
use gonc.Prelude.Result.{Result, ok, err}
use gonc.Text.{Str, codes}
use gonc.Errors.{Error}
use gonc.Tunnel.{SshConfig}
use gonc.Tunnel.Action.{Action, Post, returns, fails, Post-bind, Post-then, Post-explain}
use gonc.Tunnel.Reverse.{
  ReverseTunnel, ReverseTunnelConfig, Gateway, forwards, listen_remote_forward,
  validate_gateway_ports, closes_test, saves, drains, after_listen, after_check, check, after_dial,
  start, new_reverse_tunnel,
}

module _ {W Client Incoming TestListener : Type 0}
    (gateway : Gateway W Client Incoming TestListener) (dial : SshConfig → Action W Client) where
  -- What package ssh documents, for the predicate "forwarded-tcpip channels of the client are
  -- handled": `Client.Listen` sees to it, closing its listener does not undo it, and
  -- `HandleChannelOpen` gives nil for channels that are handled already.
  pub record Handling (Handled : Client → W → Type 0) : Type 0 where
    pub listen_handles :
        (c : Client) (a : Str) (w : W) → Post (λ ln v. Handled c v) (gateway.listen c a w)
    pub close_keeps :
        (c : Client) (ln : TestListener) (v : W)
        → Handled c v
        → Handled c (gateway.close_listener ln v)
    pub handled_once :
        (c : Client) (v : W)
        → Handled c v
        → (gateway.handle_channel_open c (codes "forwarded-tcpip") v).0 ≡ none

  module _ (Handled : Client → W → Type 0) (handling : Handling Handled) where
    validate-Handled :
        (host : Str) (c : Client) (w : W)
        → Post (λ u v. Handled c v) (validate_gateway_ports gateway host c w)
    unfolding validate_gateway_ports closes_test
    validate-Handled host c w = Post-then _ _ λ port v.
        Post-bind (Post-explain _ (handling.listen_handles c _ v))
          λ ln u k. returns (handling.close_keeps c ln u k)

    Fails : Option Error × ReverseTunnel Client Incoming × W → Type 0
    Fails p = (e : Error) × (p.0 ≡ some e)

    forwards-fail :
        (rt : ReverseTunnel Client Incoming) (c : Client) (addr : Str) (port : ℤ)
        (incoming : Option Incoming) (w : W)
        → incoming ≡ none
        → Fails (after_listen gateway rt c (forwards gateway c addr port incoming w))
    unfolding Fails after_listen forwards
    forwards-fail rt c addr port none w e = (_, refl)
    forwards-fail rt c addr port (some i) w e = absurd (cc)

    after_check-Fails :
        (rt : ReverseTunnel Client Incoming) (c : Client) {p : Result Error (Unit {0}) × W}
        → Post (λ u v. Handled c v) p
        → Fails (after_check gateway rt c p)
    unfolding after_check listen_remote_forward Fails
    after_check-Fails rt c (returns {a = u} {w = v} k) =
        forwards-fail rt c _ _ _ _ (handling.handled_once c v k)
    after_check-Fails rt c fails = (_, refl)

    after_dial-Fails :
        (rt : ReverseTunnel Client Incoming) (p : Result Error Client × W)
        → rt.config.check_gateway_ports ≡ true
        → Fails (after_dial gateway rt p)
    unfolding after_dial check saves Fails
    after_dial-Fails rt (err e, w) b = (_, refl)
    after_dial-Fails rt (ok c, w) b =
        after_check-Fails (saves gateway c (drains gateway rt)) c
          (rw b (validate-Handled rt.config.ssh_config.host c w))

    -- With `CheckGatewayPorts` the tunnel never comes up, whatever the gateway answers: the check
    -- makes package ssh handle the channels that the tunnel then asks for.
    pub start-checked :
        (cfg : ReverseTunnelConfig) (w : W)
        → cfg.check_gateway_ports ≡ true
        → (e : Error) × ((start gateway dial (new_reverse_tunnel cfg) w).0 ≡ some e)
    unfolding start Fails new_reverse_tunnel
    start-checked cfg w b = after_dial-Fails (new_reverse_tunnel cfg) _ b
