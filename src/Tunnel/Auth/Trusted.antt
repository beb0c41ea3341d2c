-- ===== src/Tunnel/Auth/Trusted.antt =====
-- Whose host keys `hostKeyCallback` accepts.
use gonc.Prelude.{
  ◌≡◌, ◌⊎◌, inl, inr, refl, sym, ap, ◌∙◌, ◌∷◌, [], true, false, Bool-cases, if◌then◌else◌,
}
use gonc.Prelude.Result.{ok}
use gonc.Text.{Str, codes, is_empty}
use gonc.Tunnel.{SshConfig}
use gonc.Tunnel.Action.{continued, Post, returns, Post-bind, Post-then, Post-explain, Post-itself}
use gonc.Tunnel.Auth.{
  HostKeyCallback, insecure_ignore_host_key, known_hosts_of, Machine, host_key_callback,
  known_hosts_file,
}

module _ {W Signer AgentConn HostKeys : Type 0}
    (machine : Machine W Signer AgentConn HostKeys) where
  -- the file of the known hosts, for the home directory `home`
  abbrev pub file_for : SshConfig → Str → Str
  file_for cfg home =
      if is_empty cfg.known_hosts
      then machine.join_path (home ∷ codes ".ssh" ∷ codes "known_hosts" ∷ [])
      else cfg.known_hosts

  -- A strict configuration has the keys of the known hosts, any other none to check.
  abbrev pub Trusted : SshConfig → HostKeyCallback HostKeys → Type 0
  Trusted cfg callback =
      ((cfg.strict_host_key ≡ true)
        × (keys : HostKeys) × (home : Str) × (v : W) × (u : W) × (machine.load_known_hosts
              (file_for cfg home) v
            ≡ (ok keys, u))
        × (callback ≡ known_hosts_of keys))
      ⊎ ((cfg.strict_host_key ≡ false) × (callback ≡ insecure_ignore_host_key))

  known_hosts_file-eq :
      (cfg : SshConfig) (w : W)
      → Post
          (λ file v. (home : Str) × (file ≡ file_for cfg home))
          (known_hosts_file machine cfg.known_hosts w)
  unfolding known_hosts_file continued
  known_hosts_file-eq cfg w = elim (Bool-cases (is_empty cfg.known_hosts)) [
    | inl e ↦ rw e (Post-then _ _ λ home v. returns (home, refl))
    | inr e ↦ rw e (returns ([], refl))
  ]

  pub host_key_callback-Trusted :
      (cfg : SshConfig) (w : W)
      → Post (λ callback v. Trusted cfg callback) (host_key_callback machine cfg w)
  unfolding host_key_callback
  host_key_callback-Trusted cfg w = elim (Bool-cases cfg.strict_host_key) [
    | inl e ↦ rw e (
        Post-bind (known_hosts_file-eq cfg w) λ file v (home, k).
          Post-bind (Post-explain _ (Post-itself (machine.load_known_hosts file v))) λ keys u l.
            returns (
              inl
                (refl, keys, home, v, u, sym (ap (λ z. machine.load_known_hosts z v) k) ∙ l, refl)))
    | inr e ↦ rw e (returns (inr (refl, refl)))
  ]
