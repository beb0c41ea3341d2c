-- ===== src/Text/Split.antt =====
-- Cutting a text at the first occurrence of a byte.
use gonc.Prelude.{ℕ, ◌≡◌, refl, [], ◌∷◌, ◌++◌, true, false, arith}
use gonc.Text.{Str, contains, before, behind}

abbrev pub Lacks : ℕ → Str → Type 0
Lacks sep s = contains s sep ≡ false

pub Lacks-append : (sep : ℕ) (s t : Str) → Lacks sep s → Lacks sep t → Lacks sep (s ++ t)
unfolding contains
Lacks-append sep [] t hs ht = ht
Lacks-append sep (c ∷ s) t hs ht = ground (arith, Lacks-append sep s t)

pub contains_middle : (sep : ℕ) (s t : Str) → contains (s ++ sep ∷ t) sep ≡ true
unfolding contains
contains_middle sep [] t = ground arith
contains_middle sep (c ∷ s) t = ground (arith, contains_middle sep s t)

pub before_middle : (sep : ℕ) (s t : Str) → Lacks sep s → before sep (s ++ sep ∷ t) ≡ s
unfolding contains before
before_middle sep [] t h = ground arith
before_middle sep (c ∷ s) t h = ground (arith, before_middle sep s t)

pub behind_middle : (sep : ℕ) (s t : Str) → Lacks sep s → behind sep (s ++ sep ∷ t) ≡ t
unfolding contains behind
behind_middle sep [] t h = ground arith
behind_middle sep (c ∷ s) t h = ground (arith, behind_middle sep s t)

pub before_whole : (sep : ℕ) (s : Str) → Lacks sep s → before sep s ≡ s
unfolding contains before
before_whole sep [] h = refl
before_whole sep (c ∷ s) h = ground (arith, before_whole sep s)

pub before-Lacks : (sep : ℕ) (s : Str) → Lacks sep (before sep s)
unfolding contains before
before-Lacks sep [] = refl
before-Lacks sep (c ∷ s) = ground (arith, before-Lacks sep s)

-- A text that holds the separator is its two parts round it.
pub before-behind :
    (sep : ℕ) (s : Str) → contains s sep ≡ true → s ≡ before sep s ++ sep ∷ behind sep s
unfolding contains before behind
before-behind sep [] h = cc
before-behind sep (c ∷ s) h = ground (arith, before-behind sep s)
