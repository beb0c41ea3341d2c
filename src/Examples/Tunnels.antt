-- ===== src/Examples/Tunnels.antt =====
-- A strict tunnel with a key file and an agent, and dialers on it.
use gonc.Prelude.{
  ℕ, ◌+◌, ◌≡◌, ◌⊎◌, refl, List, [], ◌∷◌, ◌++◌, none, some, Bool, true, false, length,
}
use gonc.Prelude.Int.{pos}
use gonc.Prelude.Result.{ok}
use gonc.Text.{Str, codes}
use gonc.Tunnel.{SshConfig}
use gonc.Tunnel.Action.{continued, explained, attempted}
use gonc.Tunnel.Auth.{
  AuthMethod, public_keys, public_keys_callback, keyboard_interactive, empty_answers, Machine,
  build_auth_methods,
}
use gonc.Tunnel.Auth.Defaulted.{OfferedAt, build_auth_methods-OfferedAt}
use gonc.Tunnel.Client.{Library}
use gonc.Tunnel.Ssh.{SshTunnel, new_ssh_tunnel, stores, connect}
use gonc.Tunnel.Ssh.Connected.{Made, connect-Made}
use gonc.Tunnel.Reverse.{
  drains_messages, closes_at_end, accept_loop, ReverseTunnel, ReverseTunnelConfig, Gateway,
  dial_ssh, new_reverse_tunnel, start, listen_remote_forward,
}
use gonc.Tunnel.Reverse.Dialled.{start-Made}
use gonc.Transport.Ssh.{
  gone, SshDialer, new_ssh_dialer, Move, connects, ends, monitors_on, run, dials_by,
}
use gonc.Transport.Ssh.Single.{run-Seen}
use gonc.Transport.Ssh.Lost.{run-lost}

-- The world counts the calls of the agent.
abbrev slashes : List Str → Str
slashes [] = []
slashes (s ∷ ss) = b'/' ∷ (s ++ slashes ss)

abbrev machine : Machine ℕ Str ℕ Str
machine = record {
  read_file = λ path w. (ok path, w);
  parse_private_key = λ bytes. ok bytes;
  parse_private_key_with_passphrase = λ bytes pass. ok bytes;
  print_stderr = λ text w. w;
  read_password = λ w. (ok (codes "secret"), w);
  getenv = λ name w. codes "/tmp/agent";
  dial_unix = λ path w. (ok w, w + 1);
  is_windows = false;
  open_file = λ path w. (ok w, w);
  user_home_dir = λ w. (ok (codes "home"), w);
  join_path = slashes;
  stat = λ path w. (ok tt, w);
  load_known_hosts = λ file w. (ok file, w);
}

abbrev config : SshConfig
config = record {
  user = codes "u";
  host = codes "gw";
  port = pos 0;
  key_path = codes "id";
  prompt_pass = false;
  use_agent = true;
  strict_host_key = true;
  known_hosts = [];
  conn_timeout = pos 0;
  allow_keyboard_interactive = true;
}

abbrev offered : List (AuthMethod Str ℕ)
offered =
    public_keys (codes "id") ∷ public_keys_callback 5 ∷ keyboard_interactive empty_answers ∷ []

offers : build_auth_methods machine config 5 ≡ (ok offered, 6)
unfolding build_auth_methods continued explained
offers = refl

-- Nothing is asked for, and the agent and three keys are there.
abbrev unasked : SshConfig
unasked = record config { key_path = []; use_agent = false }

abbrev key_of : Str → AuthMethod Str ℕ
key_of name = public_keys (slashes (codes "home" ∷ codes ".ssh" ∷ name ∷ []))

abbrev by_default : List (AuthMethod Str ℕ)
by_default =
    public_keys_callback 5
    ∷ key_of (codes "id_ed25519")
    ∷ key_of (codes "id_rsa")
    ∷ key_of (codes "id_ecdsa")
    ∷ keyboard_interactive empty_answers
    ∷ []

offers_defaults : build_auth_methods machine unasked 5 ≡ (ok by_default, 6)
unfolding build_auth_methods continued explained attempted
offers_defaults = refl

build_auth_methods-OfferedAt_example : OfferedAt machine unasked 5 by_default
build_auth_methods-OfferedAt_example =
    build_auth_methods-OfferedAt machine unasked 5 offers_defaults

abbrev library : Library ℕ Str ℕ Str ℕ ℕ
library = record {
  dial_context = λ addr w. (ok 1, w);
  new_client = λ conn addr cfg w. (ok 9, w);
  close_tcp = λ conn w. w;
}

abbrev tunnel : SshTunnel ℕ
tunnel = new_ssh_tunnel config

connects_to : connect machine library tunnel 5 ≡ (ok (stores 9 tunnel), 6)
unfolding connect continued explained new_ssh_tunnel
connects_to = refl

connect-Made_example :
    (client : ℕ) × ((stores 9 tunnel).alive ≡ true)
    × ((stores 9 tunnel).client ≡ some client)
    × ((stores 9 tunnel).config ≡ tunnel.config)
    × Made machine library tunnel.config client 6
connect-Made_example = connect-Made machine library tunnel 5 connects_to

-- It connects, the connection ends, and the monitor sees that.
abbrev loses : List Move
loses = connects none ∷ monitors_on 0 ∷ ends 0 ∷ monitors_on 0 ∷ []

abbrev lost : SshDialer
lost = record {
  tunnel = record { config = tunnel.config; client = some 0; alive = false };
  connected = true;
  monitors = gone ∷ [];
  over = true ∷ [];
}

loses_tunnel : run (some (new_ssh_dialer config)) loses ≡ some lost
unfolding run
loses_tunnel = refl

run-Seen_example :
    ((lost.connected ≡ false) × (lost.over ≡ []) × (dials_by lost ≡ none))
    ⊎ ((closed : Bool) × (lost.connected ≡ true)
        × (lost.over ≡ closed ∷ [])
        × ((dials_by lost ≡ some 0) ⊎ ((dials_by lost ≡ none) × (closed ≡ true))))
run-Seen_example = run-Seen config loses tt loses_tunnel

-- A further `Dial` connects to nothing.
stays_lost : run (some lost) (connects none ∷ []) ≡ some lost
unfolding run
stays_lost = refl

run-lost_example : (dials_by lost ≡ none) × (length lost.over ≡ length lost.over)
run-lost_example = run-lost lost (connects none ∷ []) refl refl tt stays_lost

-- A reverse tunnel by the same configuration.
abbrev gateway : Gateway ℕ ℕ ℕ ℕ
gateway = record {
  handle_channel_open = λ client name w. (some 4, w);
  send_request = λ client name payload w. (ok true, w);
  marshal = λ msg. [];
  listen = λ client addr w. (ok 0, w);
  close_listener = λ ln w. w;
  close_client = λ client w. w;
  listen_local = λ addr w. (ok (pos 4000), w);
}

abbrev exposing : ReverseTunnelConfig
exposing = record {
  ssh_config = config;
  remote_bind_address = [];
  remote_port = pos 9000;
  local_address = codes "127.0.0.1";
  local_port = pos 8080;
  check_gateway_ports = false;
  keep_alive_interval = pos 0;
  auto_reconnect = false;
}

abbrev exposed : ReverseTunnel ℕ ℕ
exposed = record {
  config = exposing;
  client = some 9;
  listener =
      some (record { client = 9; bind_addr = []; bind_port = 9000; incoming = 4; closed = false });
  cancelled = false;
  closed = false;
  wait_group = 1;
  goroutines = drains_messages ∷ closes_at_end ∷ accept_loop ∷ [];
}

exposes :
    start gateway (dial_ssh machine library) (new_reverse_tunnel exposing) 5 ≡ (none, exposed, 6)
unfolding start dial_ssh continued explained new_reverse_tunnel listen_remote_forward
exposes = refl

start-Made_example :
    (client : ℕ) × (v : ℕ) × (exposed.client ≡ some client) × Made machine library config client v
start-Made_example = start-Made machine library gateway exposing 5 exposes
