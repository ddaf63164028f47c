-- ===== src/Registry/Cooldown/Choice.antt =====
-- Which versions proxy/interceptors/cooldown.go picks: the latest eligible one, and the oldest.
use pmg.Prelude.{
  ℕ, ◌≤◌, ◌<◌, ◌≡◌, refl, subst, is_empty, ◌⊎◌, inl, inr, true, false, Text, List, [], ◌∷◌, Any,
  All, ltb, Bool-cases, arith,
}
use pmg.Registry.Cooldown.{Dates, is_member, latest_loop, latest_eligible_version}

-- The pair is an entry of the dates.
abbrev pub IsEntry : Text → ℕ → Dates → Type 0
IsEntry v t ds = Any (λ e. e ≡ (v, t)) ds

-- What the loop returns is the version that it began with, or an entry that is not too new; no
-- entry that is not too new is later.
abbrev Best : List Text → Text → ℕ → Dates → Text → Type 0
Best new latest time ds r =
    (t : ℕ) × (((r ≡ latest) × (t ≡ time)) ⊎ (IsEntry r t ds × (is_member r new ≡ false)))
    × (time ≤ t)
    × All (λ e. (is_member (e.0) new ≡ true) ⊎ (e.1 ≤ t)) ds

module _ (new : List Text) (latest : Text) (time : ℕ) (v : Text) (t : ℕ) (ds : Dates)
    (r : Text) where
  skip-Best :
      is_member v new ≡ true → Best new latest time ds r → Best new latest time ((v, t) ∷ ds) r
  skip-Best m (u, inl e, h, a) = (u, inl e, h, (inl m, a))
  skip-Best m (u, inr (e, n), h, a) = (u, inr (inr e, n), h, (inl m, a))

  pass-Best : t ≤ time → Best new latest time ds r → Best new latest time ((v, t) ∷ ds) r
  pass-Best m (u, inl e, h, a) = (u, inl e, h, (inr (omega arith), a))
  pass-Best m (u, inr (e, n), h, a) = (u, inr (inr e, n), h, (inr (omega arith), a))

  take-Best :
      is_member v new ≡ false → time < t → Best new v t ds r → Best new latest time ((v, t) ∷ ds) r
  take-Best m l (u, inl (p, q), h, a) =
      (u, inr (inl (ground arith), rw p m), omega arith, (inr h, a))
  take-Best m l (u, inr (e, n), h, a) = (u, inr (inr e, n), omega arith, (inr h, a))

latest_loop-nil :
    (new : List Text) (latest : Text) (time : ℕ) → latest_loop new latest time [] ≡ latest
unfolding latest_loop
latest_loop-nil new latest time = refl

module _ (new : List Text) (latest : Text) (time : ℕ) (v : Text) (t : ℕ) (ds : Dates) where
  latest_loop-skip :
      is_member v new ≡ true
      → latest_loop new latest time ds ≡ latest_loop new latest time ((v, t) ∷ ds)
  unfolding latest_loop
  latest_loop-skip m = rw m

  latest_loop-pass :
      ltb time t ≡ false
      → latest_loop new latest time ds ≡ latest_loop new latest time ((v, t) ∷ ds)
  unfolding latest_loop
  latest_loop-pass l = ground arith

  latest_loop-take :
      is_member v new ≡ false
      → ltb time t ≡ true
      → latest_loop new v t ds ≡ latest_loop new latest time ((v, t) ∷ ds)
  unfolding latest_loop
  latest_loop-take m l = rw (m, l)

latest_loop-Best :
    (new : List Text) (latest : Text) (time : ℕ) (ds : Dates)
    → Best new latest time ds (latest_loop new latest time ds)
latest_loop-Best new latest time [] =
    (time, inl (latest_loop-nil new latest time, refl), omega arith, tt)
latest_loop-Best new latest time ((v, t) ∷ ds) = elim (Bool-cases (is_member v new)) [
  | inl m ↦
      subst (Best new latest time ((v, t) ∷ ds)) (latest_loop-skip new latest time v t ds m)
        (skip-Best new latest time v t ds _ m (latest_loop-Best new latest time ds))
  | inr m ↦ elim (Bool-cases (ltb time t)) [
    | inl l ↦
        subst (Best new latest time ((v, t) ∷ ds)) (latest_loop-take new latest time v t ds m l)
          (take-Best new latest time v t ds _ m (ground arith) (latest_loop-Best new v t ds))
    | inr l ↦
        subst (Best new latest time ((v, t) ∷ ds)) (latest_loop-pass new latest time v t ds l)
          (pass-Best new latest time v t ds _ (ground arith) (latest_loop-Best new latest time ds))
  ]
]

-- Where some entry that is not too new has a date, the version returned is such an entry, and no
-- entry that is not too new was published after it, in whatever order the map is visited.
pub latest_eligible_version_lem :
    (ds : Dates) (new : List Text)
    → Any (λ e. (is_member (e.0) new ≡ false) × (0 < e.1)) ds
    → (t : ℕ) × IsEntry (latest_eligible_version ds new) t ds
      × (is_member (latest_eligible_version ds new) new ≡ false)
      × All (λ e. (is_member (e.0) new ≡ true) ⊎ (e.1 ≤ t)) ds
unfolding latest_eligible_version
latest_eligible_version_lem ds new h = go (latest_loop-Best new [] 0 ds)
  where
    positive :
        (t : ℕ) (es : Dates)
        → Any (λ e. (is_member (e.0) new ≡ false) × (0 < e.1)) es
        → All (λ e. (is_member (e.0) new ≡ true) ⊎ (e.1 ≤ t)) es
        → 0 < t
    positive t [] a b = absurd a
    positive t (e ∷ es) (inl (n, p)) (inl m, b) = cc (n, m)
    positive t (e ∷ es) (inl (n, p)) (inr l, b) = omega arith
    positive t (e ∷ es) (inr a) (c, b) = positive t es a b

    go :
        Best new [] 0 ds (latest_loop new [] 0 ds)
        → (t : ℕ) × IsEntry (latest_loop new [] 0 ds) t ds
          × (is_member (latest_loop new [] 0 ds) new ≡ false)
          × All (λ e. (is_member (e.0) new ≡ true) ⊎ (e.1 ≤ t)) ds
    go (t, inl (p, q), l, a) = absurd (omega (arith, positive t ds h a))
    go (t, inr (e, n), l, a) = (t, e, n, a)

-- A version that is returned is not too new.
pub latest_eligible_version-eligible :
    (ds : Dates) (new : List Text)
    → is_empty (latest_eligible_version ds new) ≡ false
    → is_member (latest_eligible_version ds new) new ≡ false
unfolding latest_eligible_version
latest_eligible_version-eligible ds new h = go (latest_loop-Best new [] 0 ds)
  where
    go :
        Best new [] 0 ds (latest_loop new [] 0 ds) → is_member (latest_loop new [] 0 ds) new ≡ false
    go (t, inl (p, q), l, a) = absurd (ground arith)
    go (t, inr (e, n), l, a) = n
