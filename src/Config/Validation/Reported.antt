-- ===== src/Config/Validation/Reported.antt =====
-- config/config.go: the `ConfigError` that `Validate` returns at each place, and its text. The flags
-- are those that cmd/root.go registers.
use gonc.Prelude.{
  ◌≡◌, ◌⊎◌, inl, inr, refl, List, [], ◌∷◌, Option, none, some, Bool, true, false, ◌||◌,
}
use gonc.Prelude.Int.{ℤ}
use gonc.Text.{Str, codes, str_eq}
use gonc.Errors.{ConfigError, config_error_text}
use gonc.Config.Validation.{
  Complaint, listen_without_port, listen_with_zero_io, listen_with_tunnel, host_required,
  port_required, reverse_without_listen, remote_port_required, remote_port_out_of_range,
  reverse_host_required, tunnel_and_reverse, reverse_with_udp, exec_and_command, udp_with_tunnel,
  tunnel_host_required,
}

config_error : Str → Option ℤ → Str → Str → ConfigError
config_error field value message hint = record {
  field = field;
  value = value;
  message = message;
  hint = hint;
}

-- The literals `&ncerr.ConfigError{…}`.
pub config_error_of : Complaint → ConfigError
unfolding config_error
config_error_of listen_without_port =
    config_error (codes "port") none (codes "required in listen mode")
      (codes "specify a port with -p <port>, e.g.: gonc -l -p 8080")
config_error_of listen_with_zero_io =
    config_error (codes "zero-io") none
      (codes "listen mode and zero-I/O mode are mutually exclusive")
      (codes "use -z without -l for port scanning")
config_error_of listen_with_tunnel =
    config_error (codes "tunnel") none
      (codes "listen mode through a forward SSH tunnel (-T) is not supported")
      (codes "use -R for reverse tunnels instead")
config_error_of host_required =
    config_error (codes "host") none (codes "hostname is required")
      (codes "usage: gonc [options] <host> <port>")
config_error_of port_required =
    config_error (codes "port") none (codes "destination port is required")
      (codes "usage: gonc <host> <port>, e.g.: gonc example.com 80")
config_error_of reverse_without_listen =
    config_error (codes "reverse-tunnel") none (codes "reverse tunnel requires listen mode")
      (codes "-R implies -l automatically; this is an internal error")
config_error_of remote_port_required =
    config_error (codes "remote-port") none (codes "required with -R")
      (codes "e.g.: gonc -p 3000 -R serveo.net --remote-port 80")
config_error_of (remote_port_out_of_range n) =
    config_error (codes "remote-port") (some n) (codes "out of range 1-65535") []
config_error_of reverse_host_required =
    config_error (codes "reverse-tunnel") none (codes "tunnel host is required")
      (codes "e.g.: gonc -R user@gateway --remote-port 9000 -p 8080")
config_error_of tunnel_and_reverse =
    config_error (codes "tunnel") none (codes "-T and -R are mutually exclusive")
      (codes "use either forward tunnel (-T) or reverse tunnel (-R)")
config_error_of reverse_with_udp =
    config_error (codes "udp") none (codes "reverse tunnel does not support UDP") []
config_error_of exec_and_command =
    config_error (codes "exec") none (codes "-e and -c are mutually exclusive")
      (codes "use -e for a program or -c for a shell command, not both")
config_error_of udp_with_tunnel =
    config_error (codes "udp") none (codes "UDP is not supported through SSH tunnels") []
config_error_of tunnel_host_required =
    config_error (codes "tunnel") none (codes "tunnel host is required")
      (codes "e.g.: gonc -T user@gateway host port")

-- what `Execute` returns for a complaint
complaint_text : Complaint → Str
unfolding config_error_of
complaint_text e = config_error_text (config_error_of e)

-- the long names of the flags that a configuration error may concern
abbrev flag_names : List Str
flag_names =
    codes "port"
    ∷ codes "udp"
    ∷ codes "zero-io"
    ∷ codes "exec"
    ∷ codes "tunnel"
    ∷ codes "reverse-tunnel"
    ∷ codes "remote-port"
    ∷ []

is_flag_in : List Str → Str → Bool
unfolding str_eq
is_flag_in [] name = false
is_flag_in (f ∷ fs) name = str_eq f name || is_flag_in fs name

abbrev IsFlag : Str → Type 0
IsFlag name = is_flag_in flag_names name ≡ true

-- The field that the text of a complaint shows as a flag is a flag, but for that of a missing host.
field-IsFlag : (e : Complaint) → (e ≡ host_required) ⊎ IsFlag (config_error_of e).field
unfolding config_error_of is_flag_in
field-IsFlag host_required = inl refl
field-IsFlag listen_without_port = inr refl
field-IsFlag listen_with_zero_io = inr refl
field-IsFlag listen_with_tunnel = inr refl
field-IsFlag port_required = inr refl
field-IsFlag reverse_without_listen = inr refl
field-IsFlag remote_port_required = inr refl
field-IsFlag (remote_port_out_of_range n) = inr refl
field-IsFlag reverse_host_required = inr refl
field-IsFlag tunnel_and_reverse = inr refl
field-IsFlag reverse_with_udp = inr refl
field-IsFlag exec_and_command = inr refl
field-IsFlag udp_with_tunnel = inr refl
field-IsFlag tunnel_host_required = inr refl
