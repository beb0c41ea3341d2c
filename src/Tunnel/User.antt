-- ===== src/Tunnel/User.antt =====
-- tunnel/auth.go: `DefaultUsername`.
use gonc.Prelude.{ℕ, ◌≡◌, ◌++◌, ◌≢◌, refl, [], ◌∷◌, Option, none, some, arith, if◌then◌else◌, ◌==◌}
use gonc.Text.{Str, contains, is_empty}
use gonc.Text.Split.{Lacks, contains_middle}

-- `name[i+1:]` for `i := strings.LastIndex(name, sep)`, or `name` if `sep` does not occur
behind_last : ℕ → Str → Str
unfolding contains
behind_last sep [] = []
behind_last sep (c ∷ s) =
    let rest = behind_last sep s in if contains s sep then rest else if c == sep then s else c ∷ s

-- What the operating system says: the name of `user.Current()`, or `none` for its error, and the
-- variables USER and USERNAME.
pub record SystemUser : Type 0 where
  pub current : Option Str
  pub user : Str
  pub username : Str

from_environment : SystemUser → Str
from_environment os = if is_empty os.user then os.username else os.user

from_current : SystemUser → Option Str → Str
unfolding from_environment behind_last
from_current os none = from_environment os
from_current os (some name) =
    let plain = behind_last b'\\' name in if is_empty plain then from_environment os else plain

-- `DefaultUsername`
pub default_username : SystemUser → Str
unfolding from_current
default_username os = from_current os os.current

behind_last-Lacks : (sep : ℕ) (s : Str) → Lacks sep (behind_last sep s)
unfolding contains behind_last
behind_last-Lacks sep [] = refl
behind_last-Lacks sep (c ∷ s) = ground (arith, behind_last-Lacks sep s)

behind_last_plain : (sep : ℕ) (s : Str) → Lacks sep s → behind_last sep s ≡ s
unfolding contains behind_last
behind_last_plain sep [] h = refl
behind_last_plain sep (c ∷ s) h = ground (arith, behind_last_plain sep s)

behind_last_middle : (sep : ℕ) (s t : Str) → Lacks sep t → behind_last sep (s ++ sep ∷ t) ≡ t
unfolding contains behind_last
behind_last_middle sep [] t h = ground (arith, behind_last_plain sep t)
behind_last_middle sep (c ∷ s) t h =
    ground (arith, contains_middle sep s t, behind_last_middle sep s t)

-- A Windows account name `DOMAIN\user` is reduced to the user, which is not empty and holds no
-- backslash; the domain may hold backslashes of its own.
pub default_username_domain :
    (os : SystemUser) (domain user : Str)
    → user ≢ []
    → Lacks b'\\' user
    → os.current ≡ some (domain ++ b'\\' ∷ user)
    → default_username os ≡ user
unfolding default_username
default_username_domain os domain user named plain e =
    ground (arith, behind_last_middle b'\\' domain user plain)
