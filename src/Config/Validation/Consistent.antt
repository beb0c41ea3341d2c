-- ===== src/Config/Validation/Consistent.antt =====
-- `Validate` accepts the configurations that are consistent, and no others.
use gonc.Prelude.{◌≡◌, ◌≢◌, ◌⊎◌, [], none, some, ◌↔◌, true, false, arith, if◌then◌else◌}
use gonc.Prelude.Int.{ℤ, pos, is_zero, ◌≤ℤ◌}
use gonc.Config.{Config}
use gonc.Config.Validation.{
  validate, tunnel_and_reverse, listen_without_port, listen_with_zero_io, listen_with_tunnel,
  reverse_without_listen,
}

-- What a listener needs. The local port may be any integer but zero: `Validate` does not check its
-- range.
pub record ListenRules (c : Config) : Type 0 where
  pub local_port : c.local_port ≢ pos 0
  pub no_scan : c.zero_io ≡ false
  pub no_tunnel : c.tunnel_enabled ≡ false

-- What a client needs.
pub record ClientRules (c : Config) : Type 0 where
  pub no_reverse : c.reverse_tunnel_enabled ≡ false
  pub host : c.host ≢ []
  pub port : (c.port ≢ pos 0) ⊎ (c.ports ≢ [])

-- What a reverse tunnel needs.
pub record ReverseRules (c : Config) : Type 0 where
  pub listening : c.listen ≡ true
  pub positive : pos 1 ≤ℤ c.remote_port
  pub bounded : c.remote_port ≤ℤ pos 65535
  pub gateway : c.reverse_tunnel_host ≢ []
  pub no_udp : c.udp ≡ false

-- A configuration that a mode can be built from.
pub record IsConsistent (c : Config) : Type 0 where
  pub listener : c.listen ≡ true → ListenRules c
  pub client : c.listen ≡ false → ClientRules c
  pub reverse : c.reverse_tunnel_enabled ≡ true → ReverseRules c
  pub one_program : (c.execute ≡ []) ⊎ (c.command ≡ [])
  pub tunnel : c.tunnel_enabled ≡ true → (c.udp ≡ false) × (c.tunnel_host ≢ [])

sound : (c : Config) → validate c ≡ none → IsConsistent c
unfolding validate
sound c h = ground arith

complete : (c : Config) → IsConsistent c → validate c ≡ none
unfolding validate
complete c v = ground arith

-- The local port counts by whether it is zero, and by nothing else.
pub validate-local_port :
    (c : Config) (p : ℤ)
    → c.local_port ≢ pos 0
    → p ≢ pos 0
    → validate (record c { local_port = p }) ≡ validate c
unfolding validate
validate-local_port c p l n = ground arith

-- `Validate` returns no error exactly when the configuration is consistent: what its mode needs is
-- there, what excludes one another is not set together, and the remote port of a reverse tunnel is
-- from 1 to 65535. The local port of a listener has to be other than zero, and its range is not
-- checked.
pub validate_iff : (c : Config) → (validate c ≡ none) ↔ IsConsistent c
validate_iff c = (sound c, complete c)

-- The error "-T and -R are mutually exclusive" is never returned: a forward tunnel in listen mode,
-- which -R needs, is refused before.
pub validate-ne-tunnel_and_reverse : (c : Config) → validate c ≢ some tunnel_and_reverse
unfolding validate
validate-ne-tunnel_and_reverse c h = ground arith

-- When -T and -R are both in force in listen mode, the refusal is one of the listen mode's.
pub validate_both_tunnels :
    (c : Config)
    → c.tunnel_enabled ≡ true
    → c.reverse_tunnel_enabled ≡ true
    → validate c ≡ (
        if c.listen
        then (if is_zero c.local_port
            then some listen_without_port
            else if c.zero_io
            then some listen_with_zero_io
            else some listen_with_tunnel)
        else some reverse_without_listen)
unfolding validate
validate_both_tunnels c t r = ground arith
