-- ===== src/Capability.antt =====
-- internal/capability: `Handle` of `Exec` (exec.go) and of `Relay` (relay.go) on a connection. Running
-- a command and copying are parameters; `path_of` and `quote` are the path that os/exec finds for a
-- program, and `%q`.
pub mod Built
use gonc.Prelude.{
  ◌≡◌, refl, List, [], ◌∷◌, ◌++◌, Option, none, some, Bool, true, false, if◌then◌else◌,
}
use gonc.Text.{Str, codes, is_empty}
use gonc.Errors.{Error, plain, wrapped, cause}
use gonc.Core.{Capability, exec, relay}

-- the program and its arguments
abbrev pub shell : Bool → Str → List Str
shell true command = codes "cmd.exe" ∷ codes "/C" ∷ command ∷ []
shell false command = codes "/bin/sh" ∷ codes "-c" ∷ command ∷ []

-- the `switch` of `Exec.Handle`
command_line : Bool → Str → Str → Option (List Str)
command_line is_windows program command =
    if is_empty command
    then (if is_empty program then none else some (program ∷ []))
    else some (shell is_windows command)

module _ {Conn : Type 0} (is_windows : Bool) (run : List Str → Conn → Option Error)
    (path_of : Str → Str) (quote : Str → Str) (bidirectional_copy : Conn → Option Error) where
  first_of : List Str → Str
  first_of [] = []
  first_of (a ∷ args) = a

  pub failed : List Str → Option Error → Option Error
  unfolding first_of
  failed args none = none
  failed args (some e) = some (wrapped (codes "exec " ++ quote (path_of (first_of args))) (cause e))

  run_command : Option (List Str) → Conn → Option Error
  unfolding failed
  run_command none conn = some (plain (codes "no command specified for exec mode"))
  run_command (some args) conn = failed args (run args conn)

  -- `Handle`
  pub handle : Capability → Conn → Option Error
  unfolding run_command command_line
  handle (exec program command) conn = run_command (command_line is_windows program command) conn
  handle relay conn = bidirectional_copy conn
