-- ===== src/Tunnel/Auth/Defaulted.antt =====
-- The methods that `BuildAuthMethods` offers by default, and all that it offers.
use gonc.Prelude.{
  ℕ, suc, ◌≡◌, ◌≢◌, ◌⊎◌, inl, inr, refl, ap, ◌∙◌, List, [], ◌∷◌, ◌++◌, map, sym, append-nil, Bool,
  true, false,
}
use gonc.Prelude.Result.{Result, ok, err}
use gonc.Text.{Str, codes, is_empty}
use gonc.Errors.{Error}
use gonc.Tunnel.{SshConfig}
use gonc.Tunnel.Action.{◌>>=◌, Post, returns, Post-mono, Post-ok, Post-bind, continued, attempted}
use gonc.Tunnel.Auth.{
  AuthMethod, Machine, public_key_auth, agent_auth, default_auth_methods, build_auth_methods,
  default_key, default_keys, keys_in, appended, default_key_names, add_key, add_agent, add_password,
  or_default, add_interactive, some_method, keyboard_interactive_auth,
}
use gonc.Tunnel.Auth.Offered.{
  Kind, by_key, by_agent, by_password, kind, only_if, only_unless, wanted, key_kinds, one_more,
  public_key_auth-OfKind, agent_auth-OfKind, add_interactive-only_if, some_method-returns, Offered,
  build_auth_methods-Offered,
}

nil_or : (ks : List Kind) → (ks ≡ []) ⊎ (ks ≢ [])
nil_or [] = inl refl
nil_or (k ∷ ks) = inr (λ e. absurd (cc))

asks_nothing :
    (k a p : Bool)
    → (only_unless k by_key ++ only_if a by_agent ++ only_if p by_password) ≡ []
    → (k ≡ true) × (a ≡ false) × (p ≡ false)
asks_nothing true false false e = (refl, refl, refl)
asks_nothing true false true e = absurd (cc)
asks_nothing true true p e = absurd (cc)
asks_nothing false a p e = absurd (cc)

module _ {W Signer AgentConn HostKeys : Type 0}
    (machine : Machine W Signer AgentConn HostKeys) where
  open machine use {stat, join_path, user_home_dir}

  abbrev key_path : Str → Str → Str
  key_path home name = join_path (home ∷ codes ".ssh" ∷ name ∷ [])

  -- How many keys the names give, looked up in this order from the world `w` on.
  pub data KeysRead (home : Str) : List Str → W → ℕ → Type 0 where
    no_names : {w : W} → KeysRead home [] w 0
    missing :
        {name : Str} {names : List Str} {w v : W} {n : ℕ} {e : Error}
        → stat (key_path home name) w ≡ (err e, v)
        → KeysRead home names v n
        → KeysRead home (name ∷ names) w n
    unreadable :
        {name : Str} {names : List Str} {w v u : W} {n : ℕ} {t : Unit {0}} {e : Error}
        → stat (key_path home name) w ≡ (ok t, v)
        → public_key_auth machine (key_path home name) v ≡ (err e, u)
        → KeysRead home names u n
        → KeysRead home (name ∷ names) w n
    read :
        {name : Str} {names : List Str} {w v u : W} {n : ℕ} {t : Unit {0}}
        {m : AuthMethod Signer AgentConn}
        → stat (key_path home name) w ≡ (ok t, v)
        → public_key_auth machine (key_path home name) v ≡ (ok m, u)
        → KeysRead home names u n
        → KeysRead home (name ∷ names) w (suc n)

  abbrev pub agent_kinds : Result Error (AuthMethod Signer AgentConn) × W → List Kind
  agent_kinds (ok m, v) = by_agent ∷ []
  agent_kinds (err e, v) = []

  abbrev pub HomeKeys : Result Error Str × W → ℕ → Type 0
  HomeKeys (ok home, v) n = KeysRead home default_key_names v n
  HomeKeys (err e, v) n = n ≡ 0

  -- the agent exactly if it can be reached, and the keys of the home directory that can be read
  abbrev pub Defaulted : W → List Kind → Type 0
  Defaulted w ks =
      (n : ℕ) × (ks ≡ agent_kinds (agent_auth machine w) ++ key_kinds n)
      × HomeKeys (user_home_dir (agent_auth machine w).1) n

  abbrev Keys :
      Str
      → List Str
      → W
      → List (AuthMethod Signer AgentConn)
      → List (AuthMethod Signer AgentConn)
      → W
      → Type 0
  Keys home names w out r v =
      (n : ℕ) × KeysRead home names w n × (map kind r ≡ map kind out ++ key_kinds n)

  abbrev Later : Str → List Str → Type 0
  Later home names =
      (o : List (AuthMethod Signer AgentConn)) (u : W)
      → Post (Keys home names u o) (default_keys machine home names o u)

  after_key-Keys :
      (home name : Str) (names : List Str) (out : List (AuthMethod Signer AgentConn)) (w v : W)
      (t : Unit {0}) (p : Result Error (AuthMethod Signer AgentConn) × W)
      → stat (key_path home name) w ≡ (ok t, v)
      → public_key_auth machine (key_path home name) v ≡ p
      → Later home names
      → Post
          (Keys home (name ∷ names) w out)
          (continued (λ m. default_keys machine home names (appended machine out m)) (attempted p))
  unfolding continued attempted
  after_key-Keys home name names out w v t (err e, u) s k later =
      Post-mono (λ r x (n, l, q). (n, unreadable s k l, q)) (later out u)
  after_key-Keys home name names out w v t (ok m, u) s k later =
      let is_key = Post-ok (public_key_auth-OfKind machine (key_path home name) v) k in
      Post-mono (λ r x (n, l, q). (suc n, read s k l, q ∙ one_more machine out m n is_key))
        (later (out ++ m ∷ []) u)

  after_stat-Keys :
      (home name : Str) (names : List Str) (out : List (AuthMethod Signer AgentConn)) (w : W)
      (p : Result Error (Unit {0}) × W)
      → stat (key_path home name) w ≡ p
      → Later home names
      → Post (Keys home (name ∷ names) w out) (
          continued
            (λ found v.
              continued
                (λ m. default_keys machine home names (appended machine out m))
                (default_key machine (key_path home name) found v))
            (attempted p))
  unfolding continued attempted default_key
  after_stat-Keys home name names out w (err e, v) s later =
      Post-mono (λ r x (n, l, q). (n, missing s l, q)) (later out v)
  after_stat-Keys home name names out w (ok t, v) s later =
      after_key-Keys home name names out w v t _ s refl later

  default_keys-Keys : (home : Str) (names : List Str) → Later home names
  unfolding default_keys
  default_keys-Keys home [] out w = returns (0, no_names, sym (append-nil _))
  default_keys-Keys home (name ∷ names) out w =
      after_stat-Keys home name names out w _ refl (default_keys-Keys home names)

  after_home :
      (w v : W) (out : List (AuthMethod Signer AgentConn)) (p : Result Error Str × W)
      → (agent_auth machine w).1 ≡ v
      → user_home_dir v ≡ p
      → map kind out ≡ agent_kinds (agent_auth machine w)
      → Post
          (λ ms x. Defaulted w (map kind ms))
          (continued (λ home. keys_in machine home out) (attempted p))
  unfolding continued attempted keys_in
  after_home w v out (err e, u) a h k =
      returns (0, sym (append-nil _) ∙ ap (λ z. z ++ []) k, rw a (rw h refl))
  after_home w v out (ok home, u) a h k =
      Post-mono (λ ms x (n, l, q). (n, q ∙ ap (λ z. z ++ key_kinds n) k, rw a (rw h l)))
        (default_keys-Keys home default_key_names out u)

  after_agent :
      (w : W) (p : Result Error (AuthMethod Signer AgentConn) × W)
      → agent_auth machine w ≡ p
      → Post
          (λ ms x. Defaulted w (map kind ms))
          (continued
            (λ agent v.
              continued
                (λ home. keys_in machine home (appended machine [] agent))
                (attempted (user_home_dir v)))
            (attempted p))
  unfolding continued attempted
  after_agent w (err e, v) a = after_home w v [] _ (ap (λ z. z.1) a) refl (sym (ap agent_kinds a))
  after_agent w (ok m, v) a =
      let is_agent = Post-ok (agent_auth-OfKind machine w) a in
      after_home w v (m ∷ []) _ (ap (λ z. z.1) a) refl
        (ap (λ k. k ∷ []) is_agent ∙ sym (ap agent_kinds a))

  default_auth_methods-Defaulted :
      (w : W) → Post (λ ms v. Defaulted w (map kind ms)) (default_auth_methods machine w)
  unfolding default_auth_methods
  default_auth_methods-Defaulted w = after_agent w _ refl

  -- All that is offered, in the world `w` at the call.
  abbrev pub OfferedAt : SshConfig → W → List (AuthMethod Signer AgentConn) → Type 0
  OfferedAt cfg w ms =
      (ms ≢ [])
      × (base : List (AuthMethod Signer AgentConn)) × (ms
          ≡ base ++ only_if cfg.allow_keyboard_interactive keyboard_interactive_auth)
      × (((wanted cfg ≢ []) × (map kind base ≡ wanted cfg))
          ⊎ ((wanted cfg ≡ []) × Defaulted w (map kind base)))

  builds_default :
      (cfg : SshConfig) (w : W)
      → is_empty cfg.key_path ≡ true
      → cfg.use_agent ≡ false
      → cfg.prompt_pass ≡ false
      → build_auth_methods machine cfg w
        ≡ (default_auth_methods machine >>= λ ms.
              some_method machine (add_interactive machine cfg ms))
            w
  unfolding build_auth_methods add_key add_agent add_password or_default continued
  builds_default cfg w k a p = rw k (rw a (rw p refl))

  by_default :
      (cfg : SshConfig) (w : W)
      → wanted cfg ≡ []
      → is_empty cfg.key_path ≡ true
      → cfg.use_agent ≡ false
      → cfg.prompt_pass ≡ false
      → Post (λ ms v. OfferedAt cfg w ms) (build_auth_methods machine cfg w)
  by_default cfg w z k a p = rw (builds_default cfg w k a p) (
      Post-bind (default_auth_methods-Defaulted w) λ base v d.
        some_method-returns machine (λ ms x. OfferedAt cfg w ms) (add_interactive machine cfg base)
          v λ n. (n, base, add_interactive-only_if machine cfg base, inr (z, d)))

  as_wanted :
      (cfg : SshConfig) (w : W) (ms : List (AuthMethod Signer AgentConn))
      → wanted cfg ≢ []
      → Offered machine cfg ms
      → OfferedAt cfg w ms
  as_wanted cfg w ms z (n, base, e, inl b) = (n, base, e, inl b)
  as_wanted cfg w ms z (n, base, e, inr (y, b)) = absurd (z y)

  -- When `BuildAuthMethods` succeeds it offers a method. What the configuration asks for comes in the
  -- order key file, agent, password and is all there. Only if it asks for none of them, the methods
  -- are the defaults: the agent exactly if it can be reached, and then one for each key file in
  -- the home directory, under the three names that are looked up, that exists and can be read. A
  -- keyboard-interactive method with empty answers is at the end exactly if it is allowed.
  pub build_auth_methods-OfferedAt :
      (cfg : SshConfig) (w : W) {u : W} {methods : List (AuthMethod Signer AgentConn)}
      → build_auth_methods machine cfg w ≡ (ok methods, u)
      → OfferedAt cfg w methods
  build_auth_methods-OfferedAt cfg w {methods = methods} h = elim (nil_or (wanted cfg)) [
    | inr z ↦ as_wanted cfg w methods z (build_auth_methods-Offered machine cfg w h)
    | inl z ↦
        let (k, a, p) = asks_nothing (is_empty cfg.key_path) cfg.use_agent cfg.prompt_pass z in
        Post-ok (by_default cfg w z k a p) h
  ]
