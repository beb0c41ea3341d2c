-- ===== src/Config/TunnelSpec/Grammar.antt =====
-- The matcher of tunnel specifications against the grammar of its regular expression.
use gonc.Prelude.{
  ◌≡◌, ◌≢◌, refl, subst, [], ◌∷◌, ◌++◌, true, false, arith, Bool-cases, inl, inr, some, none,
  Option, append-nil, append_assoc, ◌∙◌, sym, ap, Option-cases,
}
use mathlib.Core.List.{concat-ne-nil}
use gonc.Text.{Str, contains, is_empty, before, behind}
use gonc.Text.Decimal.{AllDigits}
use gonc.Text.Split.{
  Lacks, before-behind, before-Lacks, before_whole, Lacks-append, before_middle, behind_middle,
  contains_middle,
}
use gonc.Config.TunnelSpec.{Match, all_digits, find_submatch, match_host, match_port, or_else}

-- `(?:([^@]+)@)?`: the text of the user group, `@` included
abbrev pub user_text : Str → Str
user_text [] = []
user_text (c ∷ s) = c ∷ s ++ b'@' ∷ []

-- `(?::(\d+))?`
abbrev pub port_text : Str → Str
port_text [] = []
port_text (c ∷ s) = b':' ∷ c ∷ s

-- A match as the expression describes it, its groups put back together.
pub record Spells (spec : Str) (m : Match) : Type 0 where
  pub text : spec ≡ user_text m.user ++ (m.host ++ port_text m.port)
  pub user_class : Lacks b'@' m.user
  pub host_some : m.host ≢ []
  pub host_class : Lacks b':' m.host
  pub port_class : AllDigits m.port

all_digits→AllDigits : (s : Str) → all_digits s ≡ true → AllDigits s
unfolding all_digits
all_digits→AllDigits [] h = tt
all_digits→AllDigits (c ∷ s) h = ground (arith, all_digits→AllDigits s)

-- The part behind the user group.
record Rest (rest u : Str) (m : Match) : Type 0 where
  text : rest ≡ m.host ++ port_text m.port
  same_user : m.user ≡ u
  host_some : m.host ≢ []
  host_class : Lacks b':' m.host
  port_class : AllDigits m.port

match_port-Rest :
    (user host port : Str) {m : Match}
    → host ≢ []
    → Lacks b':' host
    → match_port user host port ≡ some m
    → Rest (host ++ b':' ∷ port) user m
unfolding match_port
match_port-Rest user host [] some_host lacks h = cc
match_port-Rest user host (c ∷ s) some_host lacks h = ground (arith, all_digits→AllDigits (c ∷ s))

is_empty-ne-nil : (s : Str) → is_empty s ≡ false → s ≢ []
is_empty-ne-nil s h = ground arith

ne-nil-is_empty : (s : Str) → s ≢ [] → is_empty s ≡ false
ne-nil-is_empty s h = ground arith

is_empty-eq-nil : (s : Str) → is_empty s ≡ true → s ≡ []
is_empty-eq-nil s h = ground arith

match_host-Rest : (user rest : Str) {m : Match} → match_host user rest ≡ some m → Rest rest user m
unfolding match_host
match_host-Rest user rest {m} h = elim (Bool-cases (contains rest b':')) [
  | inl colon ↦ rw (before-behind b':' rest colon) (
      match_port-Rest user (before b':' rest) (behind b':' rest) (ground arith)
        (before-Lacks b':' rest) (ground arith))
  | inr plain ↦ ground (arith, append-nil rest, before_whole b':' rest plain)
]

Rest-Spells :
    (rest u : Str) {m : Match} → Lacks b'@' u → Rest rest u m → Spells (user_text u ++ rest) m
Rest-Spells rest u {m} lacks r = record {
  text = rw (r.same_user, ← r.text);
  user_class = rw r.same_user lacks;
  host_some = r.host_some;
  host_class = r.host_class;
  port_class = r.port_class;
}

match_host-Spells :
    (u rest : Str) {m : Match}
    → Lacks b'@' u
    → match_host u rest ≡ some m
    → Spells (user_text u ++ rest) m
match_host-Spells u rest lacks h = Rest-Spells rest u lacks (match_host-Rest u rest h)

user_text_lem : (u rest : Str) → is_empty u ≡ false → u ++ b'@' ∷ rest ≡ user_text u ++ rest
user_text_lem [] rest h = cc
user_text_lem (c ∷ u) rest h = ap (λ (t : Str). c ∷ t) (sym (append_assoc u (b'@' ∷ []) rest))

with_user :
    (spec : Str) {m : Match}
    → contains spec b'@' ≡ true
    → is_empty (before b'@' spec) ≡ false
    → match_host (before b'@' spec) (behind b'@' spec) ≡ some m
    → Spells spec m
with_user spec {m} at named h =
    subst (λ (t : Str). Spells t m)
      (sym (before-behind b'@' spec at ∙ user_text_lem (before b'@' spec) (behind b'@' spec) named))
      (match_host-Spells (before b'@' spec) (behind b'@' spec) (before-Lacks b'@' spec) h)

no_user : Lacks b'@' []
unfolding contains
no_user = refl

-- Whatever the matcher finds is a match of the expression.
pub find_submatch-Spells : (spec : Str) {m : Match} → find_submatch spec ≡ some m → Spells spec m
unfolding find_submatch
find_submatch-Spells spec {m} h = elim (Bool-cases (contains spec b'@')) [
  | inr plain ↦ match_host-Spells [] spec no_user (ground arith)
  | inl at ↦ elim (Bool-cases (is_empty (before b'@' spec))) [
    | inl unnamed ↦ match_host-Spells [] spec no_user (ground arith)
    | inr named ↦ elim (Option-cases (match_host (before b'@' spec) (behind b'@' spec))) [
      | inl fails ↦ match_host-Spells [] spec no_user (ground arith)
      | inr (m', found) ↦ with_user spec at named (ground arith)
    ]
  ]
]

AllDigits→all_digits : (s : Str) → AllDigits s → all_digits s ≡ true
unfolding all_digits
AllDigits→all_digits [] h = refl
AllDigits→all_digits (c ∷ s) h = ground (arith, AllDigits→all_digits s)

-- Every host and port that the expression describes are found.
match_host_complete :
    (u host port : Str)
    → host ≢ []
    → Lacks b':' host
    → AllDigits port
    → match_host u (host ++ port_text port) ≡ some (record { user = u; host = host; port = port })
unfolding match_host
match_host_complete u host [] host_some lacks digits =
    ground (arith, append-nil host, before_whole b':' host)
match_host_complete u host (c ∷ s) host_some lacks digits = ground (
  arith,
  before_middle b':' host (c ∷ s) lacks,
  behind_middle b':' host (c ∷ s) lacks,
  contains_middle b':' host (c ∷ s),
  AllDigits→all_digits (c ∷ s) digits,
)

find_named :
    (u rest : Str)
    → Lacks b'@' u
    → is_empty u ≡ false
    → find_submatch (u ++ b'@' ∷ rest)
      ≡ or_else (match_host u rest) (match_host [] (u ++ b'@' ∷ rest))
unfolding find_submatch
find_named u rest lacks named = ground (
  arith,
  contains_middle b'@' u rest,
  before_middle b'@' u rest lacks,
  behind_middle b'@' u rest lacks,
)

find_complete :
    (u host port : Str)
    → Lacks b'@' u
    → is_empty u ≡ false
    → host ≢ []
    → Lacks b':' host
    → AllDigits port
    → find_submatch (user_text u ++ (host ++ port_text port))
      ≡ some (record { user = u; host = host; port = port })
unfolding or_else
find_complete u host port lacks named host_some host_class digits = rw (
  ← user_text_lem u (host ++ port_text port) named,
  find_named u (host ++ port_text port) lacks named,
  match_host_complete u host port host_some host_class digits,
)

-- A match with a user is the one that is found.
pub find_submatch_complete :
    (spec : Str) (m : Match) → Spells spec m → m.user ≢ [] → find_submatch spec ≡ some m
find_submatch_complete spec m s named = rw s.text (
    find_complete m.user m.host m.port s.user_class (ne-nil-is_empty m.user named) s.host_some
      s.host_class s.port_class)

or_else-ne-none : (o : Option Match) (m : Match) → or_else o (some m) ≢ none
unfolding or_else
or_else-ne-none none m h = cc
or_else-ne-none (some m') m h = cc

unnamed-ne-none : (spec : Str) (m : Match) → match_host [] spec ≡ some m → find_submatch spec ≢ none
unfolding find_submatch
unnamed-ne-none spec m e =
    ground (arith, or_else-ne-none (match_host (before b'@' spec) (behind b'@' spec)) m)

-- Whatever matches the expression, some match of it is found.
pub find_submatch-ne-none : (spec : Str) (m : Match) → Spells spec m → find_submatch spec ≢ none
find_submatch-ne-none spec m s = elim (Bool-cases (is_empty m.user)) [
  | inr named ↦ rw (find_submatch_complete spec m s (is_empty-ne-nil m.user named)) (cc)
  | inl unnamed ↦
      unnamed-ne-none spec (record { user = []; host = m.host; port = m.port })
        (rw (s.text, is_empty-eq-nil m.user unnamed)
          (match_host_complete [] m.host m.port s.host_some s.host_class s.port_class))
]

host_missing : (u : Str) → match_host u [] ≡ none
unfolding match_host before
host_missing u = refl

-- With nothing behind the `@` the user group is given up, and the `@` becomes a byte of the host.
pub find_no_host :
    (u : Str)
    → u ≢ []
    → Lacks b'@' u
    → Lacks b':' u
    → find_submatch (u ++ b'@' ∷ []) ≡ some (record { user = []; host = u ++ b'@' ∷ []; port = [] })
unfolding or_else contains
find_no_host u some_user at colon =
    rw (find_named u [] at (ne-nil-is_empty u some_user), host_missing u)
      (rw (append-nil (u ++ b'@' ∷ [])) at (
        match_host_complete [] (u ++ b'@' ∷ []) [] (concat-ne-nil _ u)
          (Lacks-append b':' u (b'@' ∷ []) colon refl) tt))
