-- ===== src/Cmd/Implied.antt =====
-- What `Execute` implies and requires: listen mode and the local port of -R, the host of a client.
use gonc.Prelude.{
  ◌≡◌, ◌≢◌, refl, subst, ◌∙◌, List, [], ◌∷◌, true, false, arith, if◌then◌else◌, ◌&&◌,
}
use gonc.Prelude.Int.{pos, is_zero, ltb_ℤ}
use gonc.Prelude.Result.{ok, err, map_err, >>=-eq-ok}
use gonc.Text.{Str}
use gonc.Config.{Config}
use gonc.Config.Ports.{parse_port_spec}
use gonc.Config.Validation.{validate}
use gonc.Cmd.{
  Flags, with_timeout, reverse_spec, parse_positional, positional_listen, tunnel_spec, resolve,
  hostname_required, bad_listen_port,
}
use gonc.Cmd.Checked.{check-eq-ok}

reverse_spec_empty : (u : Str) (c : Config) → c.reverse_tunnel_spec ≡ [] → reverse_spec u c ≡ ok c
unfolding reverse_spec
reverse_spec_empty u c e = ground arith

no_host : (c : Config) → c.listen ≡ false → parse_positional c [] ≡ err hostname_required
unfolding parse_positional
no_host c l = ground arith

-- The timeout is the one field that `with_timeout` changes.
with_timeout_same :
    (f : Flags)
    → ((with_timeout f).listen ≡ f.config.listen)
      × ((with_timeout f).reverse_tunnel_spec ≡ f.config.reverse_tunnel_spec)
      × ((with_timeout f).remote_port ≡ f.config.remote_port)
      × ((with_timeout f).local_port ≡ f.config.local_port)
unfolding with_timeout
with_timeout_same f = ground arith

-- The variable GONC_HOST does not stand in for the host of a client: with no argument left behind
-- the flags a client is refused for want of a hostname, whatever its host is set to.
pub resolve_no_host :
    (u : Str) (f : Flags)
    → f.config.listen ≡ false
    → f.config.reverse_tunnel_spec ≡ []
    → resolve u f [] ≡ err hostname_required
unfolding resolve
resolve_no_host u f l r =
    let (same_listen, same_spec, _, _) = with_timeout_same f in
    rw (
      reverse_spec_empty u (with_timeout f) (same_spec ∙ r),
      no_host (with_timeout f) (same_listen ∙ l),
    )

-- `d` agrees with `c` on what -R sets.
record Agrees (c d : Config) : Type 0 where
  listen : d.listen ≡ c.listen
  enabled : d.reverse_tunnel_enabled ≡ c.reverse_tunnel_enabled
  remote : d.remote_port ≡ c.remote_port
  local : d.local_port ≡ c.local_port

positional_listen-Agrees :
    (c : Config) (args : List Str) {d : Config} → positional_listen c args ≡ ok d → Agrees c d
unfolding positional_listen
positional_listen-Agrees c [] h = ground arith
positional_listen-Agrees c (a ∷ []) h = ground arith
positional_listen-Agrees c (a ∷ p ∷ []) h =
    let (pr, e, next) = >>=-eq-ok (map_err bad_listen_port (parse_port_spec p)) _ h in ground arith
positional_listen-Agrees c (a ∷ p ∷ q ∷ rest) h = absurd (cc)

tunnel_spec-Agrees : (u : Str) (c : Config) {d : Config} → tunnel_spec u c ≡ ok d → Agrees c d
unfolding tunnel_spec
tunnel_spec-Agrees u c h = ground arith

reverse_spec_given :
    (u : Str) (c : Config) {d : Config}
    → c.reverse_tunnel_spec ≢ []
    → reverse_spec u c ≡ ok d
    → (d.listen ≡ true)
      × (d.reverse_tunnel_enabled ≡ true)
      × (d.remote_port ≡ c.remote_port)
      × (d.local_port ≡ (
          if is_zero c.local_port && ltb_ℤ (pos 0) c.remote_port
          then c.remote_port
          else c.local_port))
unfolding reverse_spec
reverse_spec_given u c s h = ground arith

parse_positional-Agrees :
    (c : Config) (args : List Str) {d : Config}
    → c.listen ≡ true
    → parse_positional c args ≡ ok d
    → Agrees c d
unfolding parse_positional
parse_positional-Agrees c args l h = positional_listen-Agrees c args (ground arith)

-- -R implies listen mode: what `Execute` makes of flags and environment with a reverse tunnel is a
-- listening configuration with the reverse tunnel enabled and the remote port that was given. The
-- local port is the one that was given, or the remote port if none was and that is positive.
pub resolve_reverse :
    (u : Str) (f : Flags) (args : List Str) {d : Config}
    → f.config.reverse_tunnel_spec ≢ []
    → resolve u f args ≡ ok d
    → (d.listen ≡ true)
      × (d.reverse_tunnel_enabled ≡ true)
      × (d.remote_port ≡ f.config.remote_port)
      × (d.local_port ≡ (
          if is_zero f.config.local_port && ltb_ℤ (pos 0) f.config.remote_port
          then f.config.remote_port
          else f.config.local_port))
unfolding resolve
resolve_reverse u f args s h =
    let (c, p, h') = >>=-eq-ok (reverse_spec u (with_timeout f)) _ h in
    let (c', q, h'') = >>=-eq-ok (parse_positional c args) _ h' in
    let (c'', r, last) = >>=-eq-ok (tunnel_spec u c') _ h'' in
    let (valid, same) = check-eq-ok c'' (validate c'') last in
    let (same_listen, same_spec, same_remote, same_local) = with_timeout_same f in
    let (l, en, rp, lp) = reverse_spec_given u (with_timeout f) (ground arith) p in
    let a = parse_positional-Agrees c args l q in
    let b = tunnel_spec-Agrees u c' r in
    subst
      (λ e.
        (e.listen ≡ true)
        × (e.reverse_tunnel_enabled ≡ true)
        × (e.remote_port ≡ f.config.remote_port)
        × (e.local_port ≡ (
            if is_zero f.config.local_port && ltb_ℤ (pos 0) f.config.remote_port
            then f.config.remote_port
            else f.config.local_port)))
      same
      (
        b.listen ∙ a.listen ∙ l,
        b.enabled ∙ a.enabled ∙ en,
        b.remote ∙ a.remote ∙ rp ∙ same_remote,
        b.local ∙ a.local ∙ lp ∙ rw (same_local, same_remote) refl,
      )
