-- ===== src/Examples/Reverses.antt =====
-- A reverse tunnel: how it comes up, reconnects, forwards and ends.
use gonc.Prelude.{
  ℕ, zero, suc, ◌≡◌, ◌≤◌, refl, List, [], ◌∷◌, ◌++◌, Option, none, some, Bool, true, false,
}
use gonc.Prelude.Int.{ℤ, pos}
use gonc.Prelude.Result.{Result, ok, err}
use gonc.Text.{Str, codes}
use gonc.Errors.{Error, plain}
use gonc.Metrics.{Shared}
use gonc.Metrics
use gonc.Core.{ReverseTunnelMode}
use gonc.Core.Reverse.{run_reverse, run_reverse-checked}
use gonc.Tunnel.{SshConfig}
use gonc.Tunnel.Action.{Action, returns}
use gonc.Tunnel.Reverse.{ReverseTunnel, ReverseTunnelConfig, Gateway, new_reverse_tunnel, start}
use gonc.Tunnel.Reverse.Started.{Ended, start-Ended}
use gonc.Tunnel.Reverse.Checked.{Handling}
use gonc.Tunnel.Reverse.Reconnect.{Attempt, dial_fails, listen_fails, succeeds, reconnect}
use gonc.Tunnel.Reverse.Reconnect.Course.{
  sleeps_of, recorded, closed_of, waits, old, AllFail, clients_made, Ends, reconnect-Ends,
}
use gonc.Tunnel.Reverse.Recorded.{Round, takes, fails}
use gonc.Tunnel.Reverse.Bridge
use gonc.Tunnel.Reverse.Bridge.Joined.{run_bridged}
use gonc.Tunnel.Reverse.Bridge.Progress.{own_run, run_bridge_returns}

-- The world says whether forwarded-tcpip channels are handled already.
abbrev handle_once : Bool → Option ℕ × Bool
handle_once true = (none, true)
handle_once false = (some 4, true)

abbrev gateway : Gateway Bool ℕ ℕ ℕ
gateway = record {
  handle_channel_open = λ client name w. handle_once w;
  send_request = λ client name payload w. (ok true, w);
  marshal = λ msg. [];
  listen = λ client addr w. (ok 0, true);
  close_listener = λ ln w. w;
  close_client = λ client w. w;
  listen_local = λ addr w. (ok (pos 4000), w);
}

abbrev dials : SshConfig → Action Bool ℕ
dials cfg w = (ok 1, w)

abbrev ssh : SshConfig
ssh = record {
  user = codes "u";
  host = codes "gw";
  port = pos 22;
  key_path = [];
  prompt_pass = false;
  use_agent = false;
  strict_host_key = false;
  known_hosts = [];
  conn_timeout = pos 0;
  allow_keyboard_interactive = true;
}

abbrev unchecked : ReverseTunnelConfig
unchecked = record {
  ssh_config = ssh;
  remote_bind_address = [];
  remote_port = pos 9000;
  local_address = [];
  local_port = pos 8080;
  check_gateway_ports = false;
  keep_alive_interval = pos 30;
  auto_reconnect = true;
}

start-Ended_example :
    Ended gateway dials ssh false (start gateway dials (new_reverse_tunnel unchecked) false)
start-Ended_example = start-Ended gateway dials unchecked false

abbrev checked : ReverseTunnelMode
checked = record {
  ssh_config = ssh;
  remote_bind_address = [];
  remote_port = pos 9000;
  local_address = [];
  local_port = pos 8080;
  check_gateway_ports = true;
  keep_alive_interval = pos 30;
  auto_reconnect = true;
}

abbrev Handled : ℕ → Bool → Type 0
Handled client w = w ≡ true

documented : Handling gateway dials Handled
documented = record {
  listen_handles = λ c a w. returns refl;
  close_keeps = λ c ln v h. h;
  handled_once = λ c v h. rw h refl;
}

abbrev leaves : ReverseTunnel ℕ ℕ → Bool → Bool
leaves rt w = w

run_reverse-checked_example :
    (e : Error) × ((run_reverse gateway dials leaves leaves checked false).0 ≡ some e)
run_reverse-checked_example =
    run_reverse-checked gateway dials leaves leaves Handled documented checked false refl

abbrev refusal : Error
refusal = plain (codes "refused")

-- The first attempt fails to dial, the second to listen.
abbrev third_time : ℕ → Attempt ℕ ℕ
third_time zero = dial_fails refusal
third_time (suc zero) = dial_fails refusal
third_time (suc (suc zero)) = listen_fails 7 refusal
third_time (suc (suc (suc n))) = succeeds 8 5

abbrev says : Error → Str
says e = codes "refused"

abbrev clock : ℕ → ℕ
clock n = n

reconnect-Ends_example :
    let r = reconnect third_time says clock true (some 4) (some 1) in
    (n : ℕ) × (n ≤ 10)
    × AllFail third_time says clock true 1 n
    × (sleeps_of r.events ≡ waits 0 n)
    × (recorded r.events ≡ n)
    × (closed_of r.events ≡ old (some 1) ++ clients_made third_time says clock true 1 n)
    × Ends third_time says clock true 10 1 n r.returned r.client r.listener
reconnect-Ends_example = reconnect-Ends third_time says clock true (some 4) (some 1)

-- One connection is bridged, the local dial of another fails.
abbrev dialled : List (Result Error (ℤ × ℤ))
dialled = ok (pos 10, pos 20) ∷ err refusal ∷ []

-- Between the two connections `Accept` fails, and the third attempt to reconnect succeeds.
abbrev rounds : List (Round ℕ ℕ)
rounds = takes ∷ fails false 2 refusal third_time (some 4) (some 1) ∷ takes ∷ []

-- The first keepalive request is answered.
abbrev beats : List (List (Option Error))
beats = (none ∷ some refusal ∷ []) ∷ []

abbrev turns : List ℕ
turns = 0 ∷ 0 ∷ 2 ∷ 0 ∷ 0 ∷ 1 ∷ 0 ∷ 0 ∷ 0 ∷ 0 ∷ 0 ∷ 1 ∷ 1 ∷ 0 ∷ 0 ∷ 3 ∷ 2 ∷ 3 ∷ 2 ∷ 3 ∷ []

abbrev tallied : Shared
tallied = record {
  collector = record {
    connections_active = 0;
    connections_total = 2;
    bytes_in = 10;
    bytes_out = 20;
    tunnel_reconnects = 1;
    errors_total = 5;
    start_time = 0;
    last_health_check = some 3;
    last_error = some 3;
    last_error_msg = codes "local dial :8080: refused";
  };
  goroutines = [] ∷ [] ∷ [] ∷ [] ∷ [];
}

-- The side from a to b ends first.
abbrev forth_first : List Bridge.Move
forth_first =
    Bridge.forth_copied (pos 10)
    ∷ Bridge.forth_moves
    ∷ Bridge.forth_moves
    ∷ Bridge.forth_moves
    ∷ Bridge.caller_moves
    ∷ Bridge.caller_moves
    ∷ Bridge.caller_moves
    ∷ Bridge.back_copied (pos 20)
    ∷ Bridge.back_moves
    ∷ Bridge.back_moves
    ∷ Bridge.back_moves
    ∷ Bridge.caller_moves
    ∷ []

abbrev bridged : Bridge.Bridging
bridged = record {
  forth = Bridge.gone (pos 10);
  back = Bridge.gone (pos 20);
  caller = Bridge.returned (pos 10) (pos 20);
  a_to_b = pos 10;
  b_to_a = pos 20;
  done = true;
  a_closed = true;
  b_closed = true;
  wait_group = 0;
}

bridges : Bridge.run (some Bridge.started) forth_first ≡ some bridged
unfolding Bridge.run
bridges = refl

run_bridged_example :
    (bridged.forth ≡ Bridge.gone (pos 10))
    × (bridged.back ≡ Bridge.gone (pos 20))
    × (bridged.a_closed ≡ true)
    × (bridged.b_closed ≡ true)
run_bridged_example = run_bridged forth_first bridges refl

-- One side has ended, and the other still copies.
abbrev one_sided : Bridge.Bridging
one_sided = record {
  forth = Bridge.gone (pos 10);
  back = Bridge.copying;
  caller = Bridge.waiting;
  a_to_b = pos 10;
  b_to_a = pos 0;
  done = true;
  a_closed = false;
  b_closed = false;
  wait_group = 1;
}

abbrev forth_alone : List Bridge.Move
forth_alone =
    Bridge.forth_copied (pos 10) ∷ Bridge.forth_moves ∷ Bridge.forth_moves ∷ Bridge.forth_moves ∷ []

half_bridges : Bridge.run (some Bridge.started) forth_alone ≡ some one_sided
unfolding Bridge.run
half_bridges = refl

run_bridge_returns_example :
    (more : List Bridge.Move) × (t : Bridge.Bridging) × (own_run (some one_sided) more ≡ some t)
    × (x : ℤ) × (y : ℤ) × (t.caller ≡ Bridge.returned x y)
run_bridge_returns_example = run_bridge_returns forth_alone half_bridges refl
