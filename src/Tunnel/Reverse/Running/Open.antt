-- ===== src/Tunnel/Reverse/Running/Open.antt =====
-- Lists of listeners of which at most one is open.
use gonc.Prelude.{
  ℕ, zero, suc, ◌≡◌, ◌≢◌, ◌⊎◌, inl, inr, refl, ap, List, [], ◌∷◌, ◌++◌, Option, none, some, Bool,
  true, false, some-eq, length, get_elem?, set, arith,
}
use gonc.Tunnel.Reverse.Running.{
  Acceptor, looking, tearing_down, reconnecting, cancelling, accepting, Running, close_of,
}

-- An attempt to reconnect starts without a listener.
abbrev pub Idle : Acceptor → Option ℕ → Type 0
Idle reconnecting l = l ≡ none
Idle looking l = Unit
Idle tearing_down l = Unit
Idle cancelling l = Unit
Idle Acceptor.leaving l = Unit
Idle Acceptor.gone l = Unit
Idle (accepting k) l = Unit

abbrev pub OpenOnly : List Bool → Option ℕ → Type 0
OpenOnly closed listener = (l : ℕ) → get_elem? closed l ≡ some false → listener ≡ some l

pub record Inv (s : Running) : Type 0 where
  pub open_only : OpenOnly s.closed s.listener
  pub idle : Idle s.acceptor s.listener

get_elem?-set :
    (xs : List Bool) (k l : ℕ)
    → get_elem? (set xs k true) l ≡ some false
    → (get_elem? xs l ≡ some false) × (k ≢ l)
get_elem?-set [] k l h = absurd (cc)
get_elem?-set (x ∷ xs) zero zero h = absurd (cc)
get_elem?-set (x ∷ xs) zero (suc l) h = (h, λ e. absurd (omega arith))
get_elem?-set (x ∷ xs) (suc k) zero h = (h, λ e. absurd (omega arith))
get_elem?-set (x ∷ xs) (suc k) (suc l) h =
    let (a, n) = get_elem?-set xs k l h in (a, λ e. n (omega arith))

get_elem?-append :
    (xs : List Bool) (l : ℕ)
    → get_elem? (xs ++ false ∷ []) l ≡ some false
    → (get_elem? xs l ≡ some false) ⊎ (length xs ≡ l)
get_elem?-append [] zero h = inr refl
get_elem?-append [] (suc l) h = absurd (cc)
get_elem?-append (x ∷ xs) zero h = inl h
get_elem?-append (x ∷ xs) (suc l) h = elim (get_elem?-append xs l h) [
  | inl a ↦ inl a
  | inr e ↦ inr (ap suc e)
]

-- Behind a close no listener is open.
pub close_of-OpenOnly :
    (listener : Option ℕ) (closed : List Bool) (other : Option ℕ)
    → OpenOnly closed listener
    → OpenOnly (close_of listener closed) other
unfolding close_of
close_of-OpenOnly none closed other o l h = let e : none ≡ some l = o l h in absurd (cc)
close_of-OpenOnly (some k) closed other o l h =
    let (a, n) = get_elem?-set closed k l h in absurd (n (some-eq (o l a)))

pub renewed-OpenOnly :
    (closed : List Bool)
    → OpenOnly closed none
    → OpenOnly (closed ++ false ∷ []) (some (length closed))
renewed-OpenOnly closed o l h = elim (get_elem?-append closed l h) [
  | inl a ↦ (let e : none ≡ some l = o l a in absurd (cc))
  | inr e ↦ ap some e
]

pub Idle-none : (a : Acceptor) → Idle a none
Idle-none reconnecting = refl
Idle-none looking = tt
Idle-none tearing_down = tt
Idle-none cancelling = tt
Idle-none Acceptor.leaving = tt
Idle-none Acceptor.gone = tt
Idle-none (accepting k) = tt
