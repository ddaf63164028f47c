-- ===== src/Registry/PypiCooldown/Earliest.antt =====
-- Which versions proxy/interceptors/pypi_cooldown.go finds in the window, by the dates of their files.
use pmg.Prelude.{
  ℕ, ◌≡◌, refl, sym, ap, ◌∙◌, subst, Bool, true, false, not, ◌&&◌, ◌||◌, Option, none, some, Text,
  ◌=ₜ◌, text_eq_iff, text_eq_refl, ltb, List, [], ◌∷◌, any, all, Bool-cases, inl, inr,
  if◌then◌else◌, arith,
}
use pmg.Registry.Cooldown.{
  Dates, days_since, since, is_within_window, within, date_of, too_new, is_member,
}
use pmg.Registry.PypiCooldown.{Layout, keep_earliest, file_date, add_date, dates_loop}

-- Of two times the earlier one is in the window when both are.
within-earlier :
    (now days t u : ℕ)
    → within now (if ltb t u then t else u) days ≡ (within now t days && within now u days)
unfolding is_within_window days_since since
within-earlier now days t u = ground arith

-- No version has two dates.
pub data HasUniqueDates : Dates → Type 0 where
  no_dates : HasUniqueDates []
  one_date :
      {v : Text} {t : ℕ} {ds : Dates}
      → date_of v ds ≡ none
      → HasUniqueDates ds
      → HasUniqueDates ((v, t) ∷ ds)

abbrev earlier_of : ℕ → Option ℕ → ℕ
earlier_of t none = t
earlier_of t (some u) = if ltb t u then t else u

same_version :
    (v w : Text) (t u : ℕ) (ds : Dates)
    → date_of w (keep_earliest v t ((v, u) ∷ ds))
      ≡ (if v =ₜ w then some (earlier_of t (date_of w ((v, u) ∷ ds))) else date_of w ((v, u) ∷ ds))
unfolding keep_earliest date_of
same_version v w t u ds = elim (Bool-cases (v =ₜ w)) [
  | inl e ↦ rw (text_eq_refl v, e) refl
  | inr e ↦ rw (text_eq_refl v, e) refl
]

other_version :
    (x v : Bool) (t u : ℕ) (d d' : Option ℕ)
    → d' ≡ (if v then some (earlier_of t d) else d)
    → (x ≡ true → v ≡ true → ⊥)
    → (if x then some u else d')
      ≡ (if v then some (earlier_of t (if x then some u else d)) else (if x then some u else d))
other_version true true t u d d' h n = absurd (n refl refl)
other_version true false t u d d' h n = refl
other_version false true t u d d' h n = h
other_version false false t u d d' h n = h

date_of-keep_earliest :
    (v w : Text) (t : ℕ) (ds : Dates)
    → date_of w (keep_earliest v t ds)
      ≡ (if v =ₜ w then some (earlier_of t (date_of w ds)) else date_of w ds)
unfolding keep_earliest date_of
date_of-keep_earliest v w t [] = refl
date_of-keep_earliest v w t ((x, u) ∷ ds) = elim (Bool-cases (x =ₜ v)) [
  | inl e ↦
      subst
        (λ y. date_of w (keep_earliest v t ((y, u) ∷ ds)) ≡ (
          if v =ₜ w
          then some (earlier_of t (date_of w ((y, u) ∷ ds)))
          else date_of w ((y, u) ∷ ds)))
        (sym ((text_eq_iff x v).0 e)) (same_version v w t u ds)
  | inr e ↦ rw e (
      other_version (x =ₜ w) (v =ₜ w) t u _ _ (date_of-keep_earliest v w t ds)
        (λ p q. cc (e, text_eq_refl x, (text_eq_iff x w).0 p, (text_eq_iff v w).0 q)))
]

not_same : (x v : Text) → x =ₜ v ≡ false → v =ₜ x ≡ false
not_same x v e = elim (Bool-cases (v =ₜ x)) [
  | inl f ↦ cc (e, text_eq_refl x, (text_eq_iff v x).0 f)
  | inr f ↦ f
]

member_if :
    (w x : Text) (b : Bool) (new : List Text)
    → is_member w (if b then x ∷ new else new) ≡ ((b && x =ₜ w) || is_member w new)
unfolding is_member
member_if w x true new = refl
member_if w x false new = refl

and_or : (b : Bool) → ((b && true) || false) ≡ b
and_or true = refl
and_or false = refl

or_same : (b c : Bool) → ((b && false) || c) ≡ c
or_same true c = refl
or_same false c = refl

-- The map keeps one date for a version.
keep_earliest-HasUniqueDates :
    (v : Text) (t : ℕ) {ds : Dates} → HasUniqueDates ds → HasUniqueDates (keep_earliest v t ds)
unfolding keep_earliest date_of
keep_earliest-HasUniqueDates v t no_dates = one_date refl no_dates
keep_earliest-HasUniqueDates v t (one_date {v = x} {t = u} {ds = ds} n d) =
    elim (Bool-cases (x =ₜ v)) [
      | inl e ↦ rw e (one_date n d)
      | inr e ↦ rw e (
          one_date (date_of-keep_earliest v x t ds ∙ rw (not_same x v e) n)
            (keep_earliest-HasUniqueDates v t d))
    ]

-- The date of a version, tested.
abbrev in_window : ℕ → ℕ → Option ℕ → Bool
in_window now days none = false
in_window now days (some t) = within now t days

is_member-date_of :
    (now days : ℕ) (w : Text) {ds : Dates}
    → HasUniqueDates ds
    → is_member w (too_new now days ds) ≡ in_window now days (date_of w ds)
unfolding is_member too_new date_of
is_member-date_of now days w no_dates = refl
is_member-date_of now days w (one_date {v = x} {t = u} {ds = ds} n d) = elim (Bool-cases (x =ₜ w)) [
  | inl e ↦
      let later : is_member w (too_new now days ds) ≡ false =
        is_member-date_of now days w d
        ∙ ap (in_window now days) (subst (λ y. date_of y ds ≡ none) ((text_eq_iff x w).0 e) n) in
      rw (member_if w x (within now u days) (too_new now days ds), e, later)
        (and_or (within now u days))
  | inr e ↦
      rw
        (member_if w x (within now u days) (too_new now days ds), e, is_member-date_of now days w d)
        (or_same (within now u days) _)
]

abbrev keep_all : List (Text × ℕ) → Dates → Dates
keep_all [] ds = ds
keep_all ((v, t) ∷ es) ds = keep_all es (keep_earliest v t ds)

module _ (now days : ℕ) (w : Text) where
  abbrev pub inside : Option ℕ → Bool
  inside o = in_window now days o

  -- Some date is of the version, and all that are stand in the window.
  abbrev pub is_dated : List (Text × ℕ) → Bool
  is_dated es = any (λ e. e.0 =ₜ w) es

  abbrev pub are_inside : List (Text × ℕ) → Bool
  are_inside es = all (λ e. not (e.0 =ₜ w) || within now e.1 days) es

  -- What the dates that follow make of the one that is kept.
  abbrev so_far : Option ℕ → List (Text × ℕ) → Bool
  so_far none es = is_dated es && are_inside es
  so_far (some t) es = within now t days && are_inside es

  and_assoc : (a b c : Bool) → ((a && b) && c) ≡ (b && (a && c))
  and_assoc true b c = refl
  and_assoc false true c = refl
  and_assoc false false c = refl

  so_far-step :
      (v : Text) (t : ℕ) (o : Option ℕ) (es : List (Text × ℕ))
      → so_far (if v =ₜ w then some (earlier_of t o) else o) es ≡ so_far o ((v, t) ∷ es)
  so_far-step v t none es = elim (Bool-cases (v =ₜ w)) [ inl e ↦ rw e refl | inr e ↦ rw e refl ]
  so_far-step v t (some u) es = elim (Bool-cases (v =ₜ w)) [
    | inl e ↦
        rw (e, within-earlier now days t u)
          (and_assoc (within now t days) (within now u days) (are_inside es))
    | inr e ↦ rw e refl
  ]

  so_far_end : (o : Option ℕ) → inside o ≡ so_far o []
  so_far_end none = refl
  so_far_end (some t) = ground arith

  keep_all-so_far :
      (es : List (Text × ℕ)) {ds : Dates}
      → HasUniqueDates ds
      → is_member w (too_new now days (keep_all es ds)) ≡ so_far (date_of w ds) es
  keep_all-so_far [] {ds} d = is_member-date_of now days w d ∙ so_far_end (date_of w ds)
  keep_all-so_far ((v, t) ∷ es) {ds} d =
      keep_all-so_far es (keep_earliest-HasUniqueDates v t d)
      ∙ ap (λ o. so_far o es) (date_of-keep_earliest v w t ds)
      ∙ so_far-step v t (date_of w ds) es

abbrev on_date : Option (Text × ℕ) → List (Text × ℕ) → List (Text × ℕ)
on_date none es = es
on_date (some e) es = e ∷ es

module _ (lower : ℕ → ℕ) (parse : Layout → Text → Option ℕ) where
  -- The files that are not skipped.
  unfoldable pub dated_files : List (Text × Text) → List (Text × ℕ)
  dated_files [] = []
  dated_files (f ∷ fs) = on_date (file_date lower parse f) (dated_files fs)

  keep_all-on_date :
      (o : Option (Text × ℕ)) (es : List (Text × ℕ)) (ds : Dates)
      → keep_all (on_date o es) ds ≡ keep_all es (add_date lower parse o ds)
  keep_all-on_date none es ds = refl
  keep_all-on_date (some (v, t)) es ds = refl

  dates_loop-keep_all :
      (fs : List (Text × Text)) (ds : Dates)
      → dates_loop lower parse fs ds ≡ keep_all (dated_files fs) ds
  unfolding dates_loop dated_files
  dates_loop-keep_all [] ds = refl
  dates_loop-keep_all (f ∷ fs) ds =
      dates_loop-keep_all fs (add_date lower parse (file_date lower parse f) ds)
      ∙ sym (keep_all-on_date (file_date lower parse f) (dated_files fs) ds)

  -- The versions that are stripped.
  pub is_member-dates_loop :
      (now days : ℕ) (w : Text) (fs : List (Text × Text))
      → is_member w (too_new now days (dates_loop lower parse fs []))
        ≡ (is_dated now days w (dated_files fs) && are_inside now days w (dated_files fs))
  unfolding date_of
  is_member-dates_loop now days w fs =
      ap (λ ds. is_member w (too_new now days ds)) (dates_loop-keep_all fs [])
      ∙ keep_all-so_far now days w (dated_files fs) no_dates
