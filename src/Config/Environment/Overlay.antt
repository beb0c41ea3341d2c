-- ===== src/Config/Environment/Overlay.antt =====
-- What the environment may change in a configuration.
use gonc.Prelude.{◌≡◌, refl, [], Bool, arith}
use gonc.Prelude.Int.{ℤ}
use gonc.Text.{Str, str_eq}
use gonc.Config.{Config}
use gonc.Config.Environment.{
  Environment, load_from_env, env_int, env_bool, overlay_text, overlay_int, overlay_flag,
  overlay_timeout,
}

-- no variable is set
abbrev unset : Environment
unset v = []

-- With no variable set the configuration stays as it is.
pub load_from_env-unset : (c : Config) → load_from_env unset c ≡ c
unfolding load_from_env env_int env_bool str_eq
load_from_env-unset c = refl

overlay_text_idem : (v f : Str) → overlay_text v (overlay_text v f) ≡ overlay_text v f
unfolding overlay_text
overlay_text_idem v f = ground arith

overlay_int_idem : (v f : ℤ) → overlay_int v (overlay_int v f) ≡ overlay_int v f
unfolding overlay_int
overlay_int_idem v f = ground arith

overlay_timeout_idem : (v f : ℤ) → overlay_timeout v (overlay_timeout v f) ≡ overlay_timeout v f
unfolding overlay_timeout
overlay_timeout_idem v f = ground arith

overlay_flag_idem : (v f : Bool) → overlay_flag v (overlay_flag v f) ≡ overlay_flag v f
unfolding overlay_flag
overlay_flag_idem v f = ground arith

-- Loading the same environment twice is loading it once.
pub load_from_env_idem :
    (env : Environment) (c : Config) → load_from_env env (load_from_env env c) ≡ load_from_env env c
unfolding load_from_env
load_from_env_idem env c =
    simp (overlay_text_idem, overlay_int_idem, overlay_timeout_idem, overlay_flag_idem)
