-- ===== src/Tunnel/Auth.antt =====
-- tunnel/auth.go: `BuildAuthMethods` with the methods it offers, and `hostKeyCallback`. The file
-- system, the environment, the terminal, the agent and the key parsers are parameters: each call of
-- them may change the world, and nothing is assumed of what it returns.
pub mod Offered
pub mod Defaulted
pub mod Trusted
use gonc.Prelude.{
  ◌≡◌, ◌++◌, List, [], ◌∷◌, Option, none, some, map, Bool, true, false, if◌then◌else◌,
}
use gonc.Prelude.Result.{Result, ok, err, map_err}
use gonc.Text.{Str, codes, is_empty}
use gonc.Errors.{Error, plain, wrapped, cause}
use gonc.Tunnel.{SshConfig}
use gonc.Tunnel.Action.{Action, pure, fail, gets, explain, attempt, ◌>>=◌}

-- `ssh.AuthMethod`, by the constructor of package ssh that makes it. A keyboard-interactive method
-- is the answer that it gives to a list of questions.
pub data AuthMethod (Signer AgentConn : Type 0) : Type 0 where
  public_keys : Signer → AuthMethod Signer AgentConn
  public_keys_callback : AgentConn → AuthMethod Signer AgentConn
  password : Str → AuthMethod Signer AgentConn
  keyboard_interactive : (List Str → List Str) → AuthMethod Signer AgentConn

-- `ssh.HostKeyCallback`
pub data HostKeyCallback (HostKeys : Type 0) : Type 0 where
  insecure_ignore_host_key : HostKeyCallback HostKeys
  known_hosts_of : HostKeys → HostKeyCallback HostKeys

-- why `ssh.ParsePrivateKey` fails: with a `PassphraseMissingError` or another error
pub data KeyFault : Type 0 where
  passphrase_missing : KeyFault
  not_a_key : Error → KeyFault

-- What the functions call: packages os, net, term, filepath and ssh.
pub record Machine (W Signer AgentConn HostKeys : Type 0) : Type 0 where
  pub read_file : Str → Action W Str
  pub parse_private_key : Str → Result KeyFault Signer
  pub parse_private_key_with_passphrase : Str → Str → Result Error Signer
  pub print_stderr : Str → W → W
  pub read_password : Action W Str
  pub getenv : Str → W → Str
  pub dial_unix : Str → Action W AgentConn
  pub is_windows : Bool
  pub open_file : Str → Action W AgentConn
  pub user_home_dir : Action W Str
  pub join_path : List Str → Str
  pub stat : Str → Action W (Unit {0})
  pub load_known_hosts : Str → Action W HostKeys

-- `fmt.Errorf(text + ": %w", err)`
abbrev pub saying : Str → Error → Error
saying text e = wrapped text (cause e)

-- the pipe of the OpenSSH agent for Windows
abbrev pipe : Str
pipe = codes "\\\\.\\pipe\\openssh-ssh-agent"

abbrev pub default_key_names : List Str
default_key_names = codes "id_ed25519" ∷ codes "id_rsa" ∷ codes "id_ecdsa" ∷ []

-- the message, with its en dash
abbrev no_methods : Error
no_methods = plain (
    codes "no SSH authentication methods available "
    ++ 226 ∷ 128 ∷ 147 ∷ codes " use --ssh-key, --ssh-password, or --ssh-agent")

-- `make([]string, len(questions))`
pub empty_answers : List Str → List Str
empty_answers [] = []
empty_answers (q ∷ qs) = [] ∷ empty_answers qs

module _ {Signer AgentConn : Type 0} where
  -- `keyboardInteractiveAuth`
  pub keyboard_interactive_auth : AuthMethod Signer AgentConn
  unfolding empty_answers
  keyboard_interactive_auth = keyboard_interactive empty_answers

module _ {W Signer AgentConn HostKeys : Type 0}
    (machine : Machine W Signer AgentConn HostKeys) where
  open machine use {
    read_file, parse_private_key, parse_private_key_with_passphrase, print_stderr, read_password,
    getenv, dial_unix, is_windows, open_file, user_home_dir, join_path, stat, load_known_hosts,
  }

  of_result : (Error → Error) → Result Error Signer → Action W Signer
  of_result f (ok signer) = pure signer
  of_result f (err e) = fail (f e)

  -- `term.ReadPassword` between its prompt and the end of the line, before its error is looked at
  prompt : Str → (Error → Error) → Action W Str
  prompt text f w =
      let (r, v) = read_password (print_stderr text w) in (map_err f r, print_stderr (codes "\n") v)

  signer_of : Str → Str → Result KeyFault Signer → Action W Signer
  unfolding prompt of_result
  signer_of key_path bytes (ok signer) = pure signer
  signer_of key_path bytes (err (not_a_key e)) = fail (saying (codes "parsing key") e)
  signer_of key_path bytes (err passphrase_missing) = do
    pass ←
        prompt (codes "Enter passphrase for " ++ key_path ++ codes ": ")
          (saying (codes "reading passphrase"))
    of_result (saying (codes "decrypting key")) (parse_private_key_with_passphrase bytes pass)

  -- `publicKeyAuth`
  pub public_key_auth : Str → Action W (AuthMethod Signer AgentConn)
  unfolding signer_of
  public_key_auth key_path = do
    bytes ← explain (saying (codes "reading key")) (read_file key_path)
    signer ← signer_of key_path bytes (parse_private_key bytes)
    pure (public_keys signer)

  conn_at : Str → Action W AgentConn
  conn_at sock =
      if is_empty sock
      then (if is_windows
          then explain (saying (codes "connecting to Windows SSH agent at " ++ pipe))
              (open_file pipe)
          else fail (plain (codes "SSH agent not available (SSH_AUTH_SOCK not set)")))
      else dial_unix sock

  -- `agentConn`
  agent_conn : Action W AgentConn
  unfolding conn_at
  agent_conn = do conn_at (← gets (getenv (codes "SSH_AUTH_SOCK")))

  -- `agentAuth`
  pub agent_auth : Action W (AuthMethod Signer AgentConn)
  unfolding agent_conn
  agent_auth = do pure (public_keys_callback (← agent_conn))

  password_of : Str → Action W (AuthMethod Signer AgentConn)
  unfolding prompt
  password_of value =
      if is_empty value
      then (do
        pass ← prompt (codes "SSH password: ") (saying (codes "reading password"))
        pure (password pass))
      else pure (password value)

  -- `passwordAuth`
  password_auth : Action W (AuthMethod Signer AgentConn)
  unfolding password_of
  password_auth = do password_of (← gets (getenv (codes "GONC_SSH_PASSWORD_VALUE")))

  abbrev pub appended :
      List (AuthMethod Signer AgentConn)
      → Option (AuthMethod Signer AgentConn)
      → List (AuthMethod Signer AgentConn)
  appended out none = out
  appended out (some m) = out ++ m ∷ []

  -- one round of the loop over the key names, for the path of the key
  default_key : Str → Option (Unit {0}) → Action W (Option (AuthMethod Signer AgentConn))
  unfolding public_key_auth
  default_key path none = pure none
  default_key path (some found) = attempt (public_key_auth path)

  default_keys :
      Str
      → List Str
      → List (AuthMethod Signer AgentConn)
      → Action W (List (AuthMethod Signer AgentConn))
  unfolding default_key
  default_keys home [] out = pure out
  default_keys home (name ∷ names) out = do
    let path = join_path (home ∷ codes ".ssh" ∷ name ∷ [])
    m ← default_key path (← attempt (stat path))
    default_keys home names (appended out m)

  keys_in :
      Option Str
      → List (AuthMethod Signer AgentConn)
      → Action W (List (AuthMethod Signer AgentConn))
  unfolding default_keys
  keys_in none out = pure out
  keys_in (some home) out = default_keys home default_key_names out

  -- `defaultAuthMethods`, which has no error of its own
  default_auth_methods : Action W (List (AuthMethod Signer AgentConn))
  unfolding keys_in agent_auth
  default_auth_methods = do
    agent ← attempt agent_auth
    home ← attempt user_home_dir
    keys_in home (appended [] agent)

  -- the five steps of `BuildAuthMethods` on `methods`, and its test at the end
  add_key : SshConfig → Action W (List (AuthMethod Signer AgentConn))
  unfolding public_key_auth
  add_key cfg = if is_empty cfg.key_path then pure [] else (do
    m ← explain (saying (codes "key " ++ cfg.key_path)) (public_key_auth cfg.key_path)
    pure (m ∷ []))

  add_agent :
      SshConfig → List (AuthMethod Signer AgentConn) → Action W (List (AuthMethod Signer AgentConn))
  unfolding agent_auth
  add_agent cfg methods =
      if cfg.use_agent
      then (do pure (methods ++ (← explain (saying (codes "ssh-agent")) agent_auth) ∷ []))
      else pure methods

  add_password :
      SshConfig → List (AuthMethod Signer AgentConn) → Action W (List (AuthMethod Signer AgentConn))
  unfolding password_auth
  add_password cfg methods =
      if cfg.prompt_pass then (do pure (methods ++ (← password_auth) ∷ [])) else pure methods

  or_default : List (AuthMethod Signer AgentConn) → Action W (List (AuthMethod Signer AgentConn))
  unfolding default_auth_methods
  or_default [] = default_auth_methods
  or_default (m ∷ ms) = pure (m ∷ ms)

  pub add_interactive :
      SshConfig → List (AuthMethod Signer AgentConn) → List (AuthMethod Signer AgentConn)
  unfolding keyboard_interactive_auth
  add_interactive cfg methods =
      if cfg.allow_keyboard_interactive then methods ++ keyboard_interactive_auth ∷ [] else methods

  pub some_method :
      List (AuthMethod Signer AgentConn) → Action W (List (AuthMethod Signer AgentConn))
  some_method [] = fail no_methods
  some_method (m ∷ ms) = pure (m ∷ ms)

  -- `BuildAuthMethods`
  unfoldable pub build_auth_methods : SshConfig → Action W (List (AuthMethod Signer AgentConn))
  unfolding add_key add_agent add_password or_default add_interactive some_method
  build_auth_methods cfg = do
    keys ← add_key cfg
    with_agent ← add_agent cfg keys
    explicit ← add_password cfg with_agent
    methods ← or_default explicit
    some_method (add_interactive cfg methods)

  known_hosts_file : Str → Action W Str
  known_hosts_file file =
      if is_empty file
      then (do
        home ← explain (saying (codes "locating home directory")) user_home_dir
        pure (join_path (home ∷ codes ".ssh" ∷ codes "known_hosts" ∷ [])))
      else pure file

  -- `hostKeyCallback`
  unfoldable pub host_key_callback : SshConfig → Action W (HostKeyCallback HostKeys)
  unfolding known_hosts_file
  host_key_callback cfg =
      if cfg.strict_host_key
      then (do
        file ← known_hosts_file cfg.known_hosts
        keys ← explain (saying (codes "loading known_hosts from " ++ file)) (load_known_hosts file)
        pure (known_hosts_of keys))
      else pure insecure_ignore_host_key
