-- ===== src/Tunnel/Auth/Offered.antt =====
-- Which authentication methods `BuildAuthMethods` offers, and in which order.
use gonc.Prelude.{
  ℕ, zero, suc, ◌≤◌, ◌≡◌, ◌≢◌, ◌⊎◌, inl, inr, refl, sym, ap, ◌∙◌, List, [], ◌∷◌, ◌++◌, map, Option,
  none, some, Bool, true, false, if◌then◌else◌, arith, append-nil, append_assoc, map-append,
  Bool-cases, length,
}
use gonc.Prelude.Result.{ok}
use gonc.Text.{Str, codes, is_empty}
use gonc.Tunnel.{SshConfig}
use gonc.Tunnel.Action.{
  Action, pure, ◌>>=◌, Post, Post-bind, returns, fails, Post-explain, Post-attempt, Post-ok,
  Post-then, continued, Post-mono,
}
use gonc.Tunnel.Auth.{
  AuthMethod, public_keys, public_keys_callback, password, keyboard_interactive, Machine,
  public_key_auth, agent_auth, password_auth, default_auth_methods, build_auth_methods, add_key,
  password_of, default_key, default_keys, keys_in, appended, default_key_names, add_agent,
  add_password, or_default, add_interactive, some_method, keyboard_interactive_auth,
}

pub data Kind : Type 0 where
  by_key by_agent by_password by_keyboard : Kind

module _ {Signer AgentConn : Type 0} where
  abbrev pub kind : AuthMethod Signer AgentConn → Kind
  kind (public_keys s) = by_key
  kind (public_keys_callback c) = by_agent
  kind (password p) = by_password
  kind (keyboard_interactive f) = by_keyboard

abbrev pub only_if {ℓ} : {A : Type ℓ} → Bool → A → List A
only_if true a = a ∷ []
only_if false a = []

abbrev pub only_unless {ℓ} : {A : Type ℓ} → Bool → A → List A
only_unless true a = []
only_unless false a = a ∷ []

-- what the configuration asks for
abbrev pub wanted : SshConfig → List Kind
wanted cfg =
    only_unless (is_empty cfg.key_path) by_key
    ++ only_if cfg.use_agent by_agent
    ++ only_if cfg.prompt_pass by_password

abbrev pub key_kinds : ℕ → List Kind
key_kinds zero = []
key_kinds (suc n) = by_key ∷ key_kinds n

-- the agent if it answers, and then the keys of the home directory that are read
abbrev pub Defaults : List Kind → Type 0
Defaults ks = (a : Bool) × (n : ℕ) × (n ≤ 3) × (ks ≡ only_if a by_agent ++ key_kinds n)

module _ {W Signer AgentConn HostKeys : Type 0}
    (machine : Machine W Signer AgentConn HostKeys) where
  abbrev Offers : List Kind → List (AuthMethod Signer AgentConn) → W → Type 0
  Offers ks ms v = map kind ms ≡ ks

  abbrev OfKind : Kind → AuthMethod Signer AgentConn → W → Type 0
  OfKind k m v = kind m ≡ k

  pub public_key_auth-OfKind :
      (path : Str) (w : W) → Post (OfKind by_key) (public_key_auth machine path w)
  unfolding public_key_auth
  public_key_auth-OfKind path w = Post-then _ _ λ _ v. Post-then _ _ λ _ _. returns refl

  pub agent_auth-OfKind : (w : W) → Post (OfKind by_agent) (agent_auth machine w)
  unfolding agent_auth
  agent_auth-OfKind w = Post-then _ _ λ _ _. returns refl

  password_auth-OfKind : (w : W) → Post (OfKind by_password) (password_auth machine w)
  unfolding password_auth password_of continued
  password_auth-OfKind w =
      elim (Bool-cases (is_empty (machine.getenv (codes "GONC_SSH_PASSWORD_VALUE") w))) [
        | inl e ↦ rw e (Post-then _ _ λ _ _. returns refl)
        | inr e ↦ rw e (returns refl)
      ]

  -- a step that appends a method if it is asked for
  appending :
      (k : Kind) (b : Bool) (m : Action W (AuthMethod Signer AgentConn))
      (ms : List (AuthMethod Signer AgentConn)) (w : W)
      → Post (OfKind k) (m w)
      → Post
          (Offers (map kind ms ++ only_if b k))
          ((if b then (m >>= λ x. pure (ms ++ x ∷ [])) else pure ms) w)
  appending k true m ms w h =
      Post-bind h λ a v e. returns (rw (map-append kind ms (a ∷ [])) (rw e refl))
  appending k false m ms w h = returns (sym (append-nil (map kind ms)))

  add_key-Offers :
      (cfg : SshConfig) (w : W)
      → Post (Offers (only_unless (is_empty cfg.key_path) by_key)) (add_key machine cfg w)
  unfolding add_key
  add_key-Offers cfg w = elim (Bool-cases (is_empty cfg.key_path)) [
    | inl e ↦ rw e (returns refl)
    | inr e ↦ rw e (
        Post-bind (Post-explain _ (public_key_auth-OfKind cfg.key_path w))
          λ m v k. returns (ap (λ z. z ∷ []) k))
  ]

  add_agent-Offers :
      (cfg : SshConfig) (ms : List (AuthMethod Signer AgentConn)) (w : W)
      → Post (Offers (map kind ms ++ only_if cfg.use_agent by_agent)) (add_agent machine cfg ms w)
  unfolding add_agent
  add_agent-Offers cfg ms w =
      appending by_agent cfg.use_agent _ ms w (Post-explain _ (agent_auth-OfKind w))

  add_password-Offers :
      (cfg : SshConfig) (ms : List (AuthMethod Signer AgentConn)) (w : W)
      → Post
          (Offers (map kind ms ++ only_if cfg.prompt_pass by_password))
          (add_password machine cfg ms w)
  unfolding add_password
  add_password-Offers cfg ms w =
      appending by_password cfg.prompt_pass _ ms w (password_auth-OfKind w)

  MaybeKey : Option (AuthMethod Signer AgentConn) → W → Type 0
  MaybeKey none v = Unit {0}
  MaybeKey (some m) v = kind m ≡ by_key

  default_key-MaybeKey :
      (path : Str) (found : Option (Unit {0})) (w : W)
      → Post MaybeKey (default_key machine path found w)
  unfolding default_key MaybeKey
  default_key-MaybeKey path none w = returns tt
  default_key-MaybeKey path (some f) w = Post-attempt (public_key_auth-OfKind path w) λ v. tt

  abbrev Keys :
      ℕ → List (AuthMethod Signer AgentConn) → List (AuthMethod Signer AgentConn) → W → Type 0
  Keys limit out r v = (n : ℕ) × (n ≤ limit) × (map kind r ≡ map kind out ++ key_kinds n)

  pub one_more :
      (out : List (AuthMethod Signer AgentConn)) (m : AuthMethod Signer AgentConn) (n : ℕ)
      → kind m ≡ by_key
      → map kind (out ++ m ∷ []) ++ key_kinds n ≡ map kind out ++ by_key ∷ key_kinds n
  one_more out m n k =
      rw (map-append kind out (m ∷ [])) (rw k (append_assoc (map kind out) (by_key ∷ []) _))

  -- a round of the loop, given what the later ones do
  round-Keys :
      (home : Str) (names : List Str) (out : List (AuthMethod Signer AgentConn))
      (m : Option (AuthMethod Signer AgentConn)) (w : W)
      → MaybeKey m w
      → ((o : List (AuthMethod Signer AgentConn))
          → Post (Keys (length names) o) (default_keys machine home names o w))
      → Post
          (Keys (suc (length names)) out)
          (default_keys machine home names (appended machine out m) w)
  unfolding MaybeKey
  round-Keys home names out none w k later =
      Post-mono (λ r v (n, l, e). (n, omega arith, e)) (later out)
  round-Keys home names out (some m) w k later =
      Post-mono (λ r v (n, l, e). (suc n, omega arith, e ∙ one_more out m n k))
        (later (out ++ m ∷ []))

  default_keys-Keys :
      (home : Str) (names : List Str) (out : List (AuthMethod Signer AgentConn)) (w : W)
      → Post (Keys (length names) out) (default_keys machine home names out w)
  unfolding default_keys
  default_keys-Keys home [] out w = returns (0, omega arith, sym (append-nil _))
  default_keys-Keys home (name ∷ names) out w = Post-then _ _ λ found v.
      Post-bind {Q = MaybeKey} (default_key-MaybeKey _ found v)
        λ m u k. round-Keys home names out m u k (λ o. default_keys-Keys home names o u)

  keys_in-Keys :
      (home : Option Str) (out : List (AuthMethod Signer AgentConn)) (w : W)
      → Post (Keys 3 out) (keys_in machine home out w)
  unfolding keys_in
  keys_in-Keys none out w = returns (0, omega arith, sym (append-nil _))
  keys_in-Keys (some home) out w = default_keys-Keys home default_key_names out w

  IsAgent : Option (AuthMethod Signer AgentConn) → W → Type 0
  IsAgent m v = (a : Bool) × (map kind (appended machine [] m) ≡ only_if a by_agent)

  default_auth_methods-Defaults :
      (w : W) → Post (λ ms v. Defaults (map kind ms)) (default_auth_methods machine w)
  unfolding default_auth_methods IsAgent
  default_auth_methods-Defaults w =
      Post-bind {Q = IsAgent}
        (Post-attempt (Post-mono (λ m v k. (true, ap (λ z. z ∷ []) k)) (agent_auth-OfKind w))
          λ v. (false, refl))
        λ agent v (a, k). Post-then _ _ λ home u.
          Post-mono (λ ms x (n, l, e). (a, n, l, e ∙ ap (λ z. z ++ key_kinds n) k))
            (keys_in-Keys home (appended machine [] agent) u)

  -- the methods before the keyboard-interactive one
  abbrev pub Base : SshConfig → List (AuthMethod Signer AgentConn) → Type 0
  Base cfg base =
      ((wanted cfg ≢ []) × (map kind base ≡ wanted cfg))
      ⊎ ((wanted cfg ≡ []) × Defaults (map kind base))

  or_default-Base :
      (cfg : SshConfig) (explicit : List (AuthMethod Signer AgentConn)) (w : W)
      → map kind explicit ≡ wanted cfg
      → Post (λ base v. Base cfg base) (or_default machine explicit w)
  unfolding or_default
  or_default-Base cfg [] w e =
      Post-mono (λ ms v d. inr (sym e, d)) (default_auth_methods-Defaults w)
  or_default-Base cfg (m ∷ ms) w e = returns (inl (λ z. absurd (cc), e))

  pub some_method-returns :
      (P : List (AuthMethod Signer AgentConn) → W → Type 0)
      (ms : List (AuthMethod Signer AgentConn)) (w : W)
      → (ms ≢ [] → P ms w)
      → Post P (some_method machine ms w)
  unfolding some_method
  some_method-returns P [] w k = fails
  some_method-returns P (m ∷ ms) w k = returns (k (λ e. absurd (cc)))

  pub add_interactive-only_if :
      (cfg : SshConfig) (ms : List (AuthMethod Signer AgentConn))
      → add_interactive machine cfg ms
        ≡ ms ++ only_if cfg.allow_keyboard_interactive keyboard_interactive_auth
  unfolding add_interactive
  add_interactive-only_if cfg ms = elim (Bool-cases cfg.allow_keyboard_interactive) [
    | inl e ↦ rw e refl
    | inr e ↦ rw e (sym (append-nil ms))
  ]

  abbrev pub Offered : SshConfig → List (AuthMethod Signer AgentConn) → Type 0
  Offered cfg ms =
      (ms ≢ [])
      × (base : List (AuthMethod Signer AgentConn)) × (ms
          ≡ base ++ only_if cfg.allow_keyboard_interactive keyboard_interactive_auth)
      × Base cfg base

  pub build_auth_methods-Post :
      (cfg : SshConfig) (w : W) → Post (λ ms v. Offered cfg ms) (build_auth_methods machine cfg w)
  unfolding build_auth_methods
  build_auth_methods-Post cfg w = Post-bind (add_key-Offers cfg w) λ keys v1 k1.
      Post-bind (add_agent-Offers cfg keys v1) λ ms v2 k2.
        Post-bind (add_password-Offers cfg ms v2) λ explicit v3 k3.
          Post-bind
            (or_default-Base cfg explicit v3 (
              k3
              ∙ ap (λ z. z ++ only_if cfg.prompt_pass by_password)
                  (k2 ∙ ap (λ z. z ++ only_if cfg.use_agent by_agent) k1)))
            λ base v4 b.
              some_method-returns (λ ms v. Offered cfg ms) (add_interactive machine cfg base) v4
                λ n. (n, base, add_interactive-only_if cfg base, b)

  -- When `BuildAuthMethods` succeeds it offers a method. What the configuration asks for comes in the
  -- order key file, agent, password and is all there; only if it asks for none of them, the methods
  -- are the agent, if it can be reached, and at most three keys. A keyboard-interactive method with
  -- empty answers is at the end exactly if it is allowed.
  pub build_auth_methods-Offered :
      (cfg : SshConfig) (w : W) {u : W} {methods : List (AuthMethod Signer AgentConn)}
      → build_auth_methods machine cfg w ≡ (ok methods, u)
      → Offered cfg methods
  build_auth_methods-Offered cfg w h = Post-ok (build_auth_methods-Post cfg w) h
