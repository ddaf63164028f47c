-- ===== src/Registry/Hosts/Longest.antt =====
-- Which configuration `GetConfigForHostname` of proxy/interceptors/registry_config.go picks.
use pmg.Prelude.{
  ℕ, ◌≤◌, ◌<◌, ◌≡◌, refl, sym, subst, ◌⊎◌, inl, inr, true, false, Option, none, some, Text, List,
  [], ◌∷◌, length, Any, All, ltb, Bool-cases, Option-cases, arith,
}
use pmg.Registry.Hosts.{exact, is_subdomain, best_loop, config_for_hostname}

module _ {C : Type 0} where
  abbrev pub IsEntry : Text → C → List (Text × C) → Type 0
  IsEntry e c m = Any (λ x. x ≡ (e, c)) m

  -- The entry's endpoint is a proper suffix of the hostname behind a dot, and no other such
  -- endpoint is longer.
  abbrev pub IsLongest : Text → List (Text × C) → Text → Type 0
  IsLongest h m e =
      (is_subdomain h e ≡ true)
      × (0 < length e)
      × All (λ x. is_subdomain h (x.0) ≡ true → length (x.0) ≤ length e) m

  -- The answer for a hostname: the entry of the hostname itself, else the longest endpoint, else
  -- none.
  abbrev pub IsAnswer : List (Text × C) → Text → Option C → Type 0
  IsAnswer m h none =
      (exact h m ≡ none) × All (λ x. is_subdomain h (x.0) ≡ true → length (x.0) ≡ 0) m
  IsAnswer m h (some c) =
      (exact h m ≡ some c) ⊎ ((exact h m ≡ none) × ((e : Text) × IsEntry e c m × IsLongest h m e))

  -- What the loop returns: what it began with, where no endpoint is longer, or a longest entry.
  abbrev Best : Text → Option C → ℕ → List (Text × C) → Option C → Type 0
  Best h best len m r =
      ((r ≡ best) × All (λ x. is_subdomain h (x.0) ≡ true → length (x.0) ≤ len) m)
      ⊎ ((e : Text) × (c : C) × (r ≡ some c)
          × IsEntry e c m
          × (is_subdomain h e ≡ true)
          × (len < length e)
          × All (λ x. is_subdomain h (x.0) ≡ true → length (x.0) ≤ length e) m)

  module _ (h : Text) (best : Option C) (len : ℕ) (e : Text) (c : C) (m : List (Text × C)) where
    best_loop-skip :
        is_subdomain h e ≡ false → best_loop h best len m ≡ best_loop h best len ((e, c) ∷ m)
    unfolding best_loop
    best_loop-skip s = rw s refl

    best_loop-pass :
        is_subdomain h e ≡ true
        → ltb len (length e) ≡ false
        → best_loop h best len m ≡ best_loop h best len ((e, c) ∷ m)
    unfolding best_loop
    best_loop-pass s l = rw (s, l) refl

    best_loop-take :
        is_subdomain h e ≡ true
        → ltb len (length e) ≡ true
        → best_loop h (some c) (length e) m ≡ best_loop h best len ((e, c) ∷ m)
    unfolding best_loop
    best_loop-take s l = rw (s, l) refl

    pass-Best :
        (r : Option C)
        → (is_subdomain h e ≡ true → length e ≤ len)
        → Best h best len m r
        → Best h best len ((e, c) ∷ m) r
    pass-Best r n (inl (p, a)) = inl (p, (n, a))
    pass-Best r n (inr (f, d, p, i, s, l, a)) =
        inr (f, d, p, inr i, s, l, (λ t. ground (arith, n t), a))

    take-Best :
        (r : Option C)
        → is_subdomain h e ≡ true
        → len < length e
        → Best h (some c) (length e) m r
        → Best h best len ((e, c) ∷ m) r
    take-Best r s n (inl (p, a)) = inr (e, c, p, inl refl, s, n, (λ t. omega arith, a))
    take-Best r s n (inr (f, d, p, i, t, l, a)) =
        inr (f, d, p, inr i, t, omega arith, (λ u. omega arith, a))

  best_loop-nil : (h : Text) (best : Option C) (len : ℕ) → best_loop h best len [] ≡ best
  unfolding best_loop
  best_loop-nil h best len = refl

  best_loop-Best :
      (h : Text) (best : Option C) (len : ℕ) (m : List (Text × C))
      → Best h best len m (best_loop h best len m)
  best_loop-Best h best len [] = inl (best_loop-nil h best len, tt)
  best_loop-Best h best len ((e, c) ∷ m) = elim (Bool-cases (is_subdomain h e)) [
    | inr s ↦
        subst (Best h best len ((e, c) ∷ m)) (best_loop-skip h best len e c m s)
          (pass-Best h best len e c m _ (λ t. cc (s, t)) (best_loop-Best h best len m))
    | inl s ↦ elim (Bool-cases (ltb len (length e))) [
      | inl l ↦
          subst (Best h best len ((e, c) ∷ m)) (best_loop-take h best len e c m s l)
            (take-Best h best len e c m _ s (ground arith) (best_loop-Best h (some c) (length e) m))
      | inr l ↦
          subst (Best h best len ((e, c) ∷ m)) (best_loop-pass h best len e c m s l)
            (pass-Best h best len e c m _ (λ t. ground arith) (best_loop-Best h best len m))
    ]
  ]

  All-zero :
      (h : Text) (m : List (Text × C))
      → All (λ x. is_subdomain h (x.0) ≡ true → length (x.0) ≤ 0) m
      → All (λ x. is_subdomain h (x.0) ≡ true → length (x.0) ≡ 0) m
  All-zero h [] a = tt
  All-zero h (x ∷ m) (n, a) = (λ s. omega (arith, n s), All-zero h m a)

  Best-IsAnswer :
      (m : List (Text × C)) (h : Text) (r : Option C)
      → exact h m ≡ none
      → Best h none 0 m r
      → IsAnswer m h r
  Best-IsAnswer m h r x (inl (p, a)) = subst (IsAnswer m h) (sym p) (x, All-zero h m a)
  Best-IsAnswer m h r x (inr (e, c, p, i, s, l, a)) =
      subst (IsAnswer m h) (sym p) (inr (x, (e, i, (s, l, a))))

  config_for_hostname-exact :
      (m : List (Text × C)) (h : Text) (c : C)
      → exact h m ≡ some c
      → some c ≡ config_for_hostname m h
  unfolding config_for_hostname
  config_for_hostname-exact m h c x = ground arith

  config_for_hostname-loop :
      (m : List (Text × C)) (h : Text)
      → exact h m ≡ none
      → best_loop h none 0 m ≡ config_for_hostname m h
  unfolding config_for_hostname
  config_for_hostname-loop m h x = ground arith

  -- The configuration found is the one of the hostname itself, and without one that of the longest
  -- endpoint (not empty) of which the hostname is a subdomain; none is found exactly where there is
  -- neither. This holds for every order in which the map is visited.
  pub config_for_hostname-IsAnswer :
      (m : List (Text × C)) (h : Text) → IsAnswer m h (config_for_hostname m h)
  config_for_hostname-IsAnswer m h = elim (Option-cases (exact h m)) [
    | inl x ↦
        subst (IsAnswer m h) (config_for_hostname-loop m h x)
          (Best-IsAnswer m h (best_loop h none 0 m) x (best_loop-Best h none 0 m))
    | inr (c, x) ↦ subst (IsAnswer m h) (config_for_hostname-exact m h c x) (inl x)
  ]
