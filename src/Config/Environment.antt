-- ===== src/Config/Environment.antt =====
-- config/loader.go: `LoadFromEnv`. The environment is a function, `os.Getenv`, on the variables
-- that the loader reads; an unset variable is the empty string.
pub mod Overlay
use gonc.Prelude.{
  ℕ, ◌+◌, ◌*◌, List, [], ◌∷◌, Option, none, some, Bool, true, false, ◌&&◌, ◌||◌, if◌then◌else◌, leb,
  ◌==◌, map,
}
use gonc.Prelude.Int.{ℤ, pos, negsuc, ltb_ℤ}
use gonc.Prelude.Int64.{mul_int64}
use gonc.Text.{Str, codes, is_empty, atoi, str_eq}
use gonc.Config.{Config}

-- The suffixes of the `GONC_` variables.
pub data Variable : Type 0 where
  host port listen udp no_dns keep_open timeout tunnel ssh_key ssh_password : Variable
  ssh_agent strict_hostkey known_hosts reverse_tunnel remote_port : Variable
  remote_bind_address keep_alive auto_reconnect verbose : Variable

abbrev pub Environment : Type 0
Environment = Variable → Str

-- `strings.ToLower`, on the ASCII bytes
to_lower : ℕ → ℕ
to_lower c = if leb b'A' c && leb c b'Z' then c + 32 else c

parsed_or_zero : Option ℤ → ℤ
parsed_or_zero none = pos 0
parsed_or_zero (some n) = n

-- `envInt`
unfoldable pub env_int : Str → ℤ
unfolding parsed_or_zero
env_int v = if is_empty v then pos 0 else parsed_or_zero (atoi v)

is_true_word : Str → Bool
is_true_word v = str_eq v (codes "1") || str_eq v (codes "true") || str_eq v (codes "yes")

-- `envBool`
unfoldable pub env_bool : Str → Bool
unfolding to_lower is_true_word
env_bool v = is_true_word (map to_lower v)

-- `if v := os.Getenv(key); v != "" { field = v }`
pub overlay_text : Str → Str → Str
overlay_text v field = if is_empty v then field else v

-- `if v := envInt(key); v > 0 { field = v }`
pub overlay_int : ℤ → ℤ → ℤ
overlay_int v field = if ltb_ℤ (pos 0) v then v else field

-- `if envBool(key) { field = true }`
pub overlay_flag : Bool → Bool → Bool
overlay_flag v field = if v then true else field

-- `time.Second`, in nanoseconds
abbrev pub second : ℤ
second = pos 1_000_000_000

-- `secondsDuration`
pub seconds_duration : ℤ → ℤ
unfolding mul_int64
seconds_duration v = mul_int64 v second

-- `if v := envInt("GONC_TIMEOUT"); v > 0 { cfg.Timeout = secondsDuration(v) }`
pub overlay_timeout : ℤ → ℤ → ℤ
unfolding seconds_duration
overlay_timeout v field = if ltb_ℤ (pos 0) v then seconds_duration v else field

-- `LoadFromEnv`
unfoldable pub load_from_env : Environment → Config → Config
unfolding overlay_text overlay_int overlay_flag overlay_timeout
load_from_env env c = record c {
  host = overlay_text (env host) c.host;
  local_port = overlay_int (env_int (env port)) c.local_port;
  listen = overlay_flag (env_bool (env listen)) c.listen;
  udp = overlay_flag (env_bool (env udp)) c.udp;
  no_dns = overlay_flag (env_bool (env no_dns)) c.no_dns;
  keep_open = overlay_flag (env_bool (env keep_open)) c.keep_open;
  timeout = overlay_timeout (env_int (env timeout)) c.timeout;
  tunnel_spec = overlay_text (env tunnel) c.tunnel_spec;
  ssh_key_path = overlay_text (env ssh_key) c.ssh_key_path;
  ssh_password = overlay_flag (env_bool (env ssh_password)) c.ssh_password;
  use_ssh_agent = overlay_flag (env_bool (env ssh_agent)) c.use_ssh_agent;
  strict_host_key = overlay_flag (env_bool (env strict_hostkey)) c.strict_host_key;
  known_hosts_path = overlay_text (env known_hosts) c.known_hosts_path;
  reverse_tunnel_spec = overlay_text (env reverse_tunnel) c.reverse_tunnel_spec;
  remote_port = overlay_int (env_int (env remote_port)) c.remote_port;
  remote_bind_address = overlay_text (env remote_bind_address) c.remote_bind_address;
  keep_alive_interval = overlay_int (env_int (env keep_alive)) c.keep_alive_interval;
  auto_reconnect = overlay_flag (env_bool (env auto_reconnect)) c.auto_reconnect;
  verbose = overlay_int (env_int (env verbose)) c.verbose;
}
