-- ===== src/Capability/Built.antt =====
-- The capability that `Build` makes, at work.
use gonc.Prelude.{
  ap, ◌∙◌, arith, ◌≡◌, ◌⊎◌, inl, inr, refl, [], ◌∷◌, List, Option, some, Bool, true, false,
  Bool-cases,
}
use gonc.Text.{Str, is_empty}
use gonc.Errors.{Error}
use gonc.Config.{Config}
use gonc.Core.{Capability, exec, relay}
use gonc.Core.Builder.{build_capability}
use gonc.Capability.{shell, command_line, failed, run_command, handle}

built_relay :
    (c : Config)
    → is_empty c.command ≡ true
    → is_empty c.execute ≡ true
    → build_capability c ≡ relay
unfolding build_capability
built_relay c n e = rw n (rw e refl)

built_program :
    (c : Config) → is_empty c.execute ≡ false → build_capability c ≡ exec c.execute c.command
unfolding build_capability
built_program c e = rw e refl

built_command :
    (c : Config) → is_empty c.command ≡ false → build_capability c ≡ exec c.execute c.command
unfolding build_capability
built_command c n = ground (arith, n)

program_line :
    (is_windows : Bool) (c : Config)
    → is_empty c.command ≡ true
    → is_empty c.execute ≡ false
    → command_line is_windows c.execute c.command ≡ some (c.execute ∷ [])
unfolding command_line
program_line is_windows c n e = rw n (rw e refl)

shell_line :
    (is_windows : Bool) (c : Config)
    → is_empty c.command ≡ false
    → command_line is_windows c.execute c.command ≡ some (shell is_windows c.command)
unfolding command_line
shell_line is_windows c n = rw n refl

module _ {Conn : Type 0} (is_windows : Bool) (run : List Str → Conn → Option Error)
    (path_of : Str → Str) (quote : Str → Str) (bidirectional_copy : Conn → Option Error) where
  -- what a connection is for: a command for the shell, a program, or the terminal
  abbrev pub Wanted : Config → List Str → Type 0
  Wanted c args =
      ((is_empty c.command ≡ false) × (args ≡ shell is_windows c.command))
      ⊎ ((is_empty c.command ≡ true) × (is_empty c.execute ≡ false) × (args ≡ c.execute ∷ []))

  -- The capability that `Build` makes always has something to do: it runs the command of -c in the
  -- shell, or else the program of -e, with an error exactly if running it fails, or else it copies.
  pub handle-built :
      (c : Config) (conn : Conn)
      → ((args : List Str) × Wanted c args
          × (handle is_windows run path_of quote bidirectional_copy (build_capability c) conn
              ≡ failed is_windows run path_of quote bidirectional_copy args (run args conn)))
        ⊎ ((is_empty c.command ≡ true)
            × (is_empty c.execute ≡ true)
            × (handle is_windows run path_of quote bidirectional_copy (build_capability c) conn
                ≡ bidirectional_copy conn))
  unfolding handle run_command
  handle-built c conn = elim (Bool-cases (is_empty c.command)) [
    | inl n ↦ elim (Bool-cases (is_empty c.execute)) [
      | inl e ↦ inr (n, e, ap (λ k. does k conn) (built_relay c n e))
      | inr e ↦ inl (
        c.execute ∷ [],
        inr (n, e, refl),
        ap (λ k. does k conn) (built_program c e)
            ∙ ap (λ o. runs o conn) (program_line is_windows c n e),
      )
    ]
    | inr n ↦ inl (
      shell is_windows c.command,
      inl (n, refl),
      ap (λ k. does k conn) (built_command c n) ∙ ap (λ o. runs o conn) (shell_line is_windows c n),
    )
  ]
    where
      does : Capability → Conn → Option Error
      does = handle is_windows run path_of quote bidirectional_copy

      runs : Option (List Str) → Conn → Option Error
      runs = run_command is_windows run path_of quote bidirectional_copy
