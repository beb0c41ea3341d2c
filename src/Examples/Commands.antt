-- ===== src/Examples/Commands.antt =====
-- Command lines, from the flags to the mode.
use gonc.Config.TunnelSpec.{find_submatch, parse_tunnel_spec}
use gonc.Prelude.{◌≡◌, ◌≢◌, inl, refl, List, [], ◌∷◌, Bool, true, false}
use gonc.Prelude.Int.{pos}
use gonc.Prelude.Result.{Result, ok}
use gonc.Text.{Str, codes, str_eq, contains, before, behind}
use gonc.Config.{Config}
use gonc.Config.Environment.{Environment, load_from_env, env_bool, env_int}
use gonc.Config.Validation.{validate}
use gonc.Config.Validation.Consistent.{IsConsistent}
use gonc.Core.Builder.Validated.{ParsedPorts}
use gonc.Cmd.{
  with_timeout, reverse_spec, parse_positional, Flags, Setting, Parsed, registered, resolve,
  execute, usage, failed, hostname_required, check, parse_positional, reverse_spec, tunnel_spec,
  with_timeout,
}
use gonc.Cmd.Checked.{resolve-IsConsistent, Justified, execute-Justified}

abbrev no_environment : Environment
no_environment v = []

-- a parser that finds these settings and arguments
abbrev finds : Parsed → List Str → Result Str Parsed
finds p args = ok p

abbrev no_ip : Str → Bool
no_ip s = false

-- gonc -R ops@gw --remote-port 9000
abbrev reverse_line : Parsed
reverse_line = record {
  settings = Setting.reverse_tunnel (codes "ops@gw") ∷ Setting.remote_port (pos 9000) ∷ [];
  remaining = [];
}

execute-Justified_example :
    Justified (execute no_ip (finds reverse_line) (codes "me") no_environment (codes "-R" ∷ []))
execute-Justified_example =
    execute-Justified no_ip (finds reverse_line) (codes "me") no_environment (codes "-R" ∷ [])

-- gonc -z -v example 80-81
abbrev scan_line : Parsed
scan_line = record {
  settings = Setting.zero_io true ∷ Setting.verbose ∷ [];
  remaining = codes "example" ∷ codes "80-81" ∷ [];
}

shows_usage : execute no_ip (finds scan_line) (codes "me") no_environment [] ≡ usage
unfolding execute
shows_usage = refl

wants_host :
    execute no_ip
      (finds (record { settings = []; remaining = [] }))
      (codes "me")
      no_environment
      (codes "-v" ∷ [])
    ≡ failed hostname_required
unfolding execute reverse_spec with_timeout load_from_env parse_positional env_bool env_int resolve
    str_eq
wants_host = refl

abbrev reverse_flags : Flags
reverse_flags = record {
  config = record registered { reverse_tunnel_spec = codes "ops@gw"; remote_port = pos 9000 };
  timeout_sec = pos 0;
  show_version = false;
  show_help = false;
}

abbrev reverse_config : Config
reverse_config = record registered {
  reverse_tunnel_spec = codes "ops@gw";
  remote_port = pos 9000;
  reverse_tunnel_enabled = true;
  reverse_tunnel_user = codes "ops";
  reverse_tunnel_host = codes "gw";
  reverse_tunnel_port = pos 22;
  listen = true;
  local_port = pos 9000;
}

resolves : resolve (codes "me") reverse_flags [] ≡ ok reverse_config
unfolding resolve reverse_spec with_timeout parse_tunnel_spec find_submatch contains before behind
    parse_positional tunnel_spec check validate
resolves = refl

spec_given : codes "ops@gw" ≢ []
spec_given = cc

flags-ParsedPorts : ParsedPorts reverse_flags.config
flags-ParsedPorts = record { ranges = tt; port = inl refl }

resolve-IsConsistent_example : IsConsistent reverse_config × ParsedPorts reverse_config
resolve-IsConsistent_example =
    resolve-IsConsistent (codes "me") reverse_flags [] flags-ParsedPorts resolves
