-- ===== src/Registry/NpmCooldown/Strip.antt =====
-- What is left of a package's metadata after `stripCooldownVersions` of
-- proxy/interceptors/npm_cooldown.go.
use pmg.Prelude.{
  ℕ, ◌≡◌, refl, ◌↔◌, inl, inr, true, false, Option, none, some, Text, ◌=ₜ◌, text_eq_iff, is_empty,
  List, [], ◌∷◌, Any, All, if◌then◌else◌, Bool-cases, arith,
}
use pmg.Registry.Cooldown.{Dates, within, too_new, is_member, latest_eligible_version}
use pmg.Registry.Cooldown.Choice.{latest_eligible_version-eligible}
use pmg.Registry.NpmCooldown.{
  Member, absent, malformed, present, Packument, Body, not_json, document, delete_all, move_tags,
  on_member, strip_document, strip_cooldown_versions,
}

-- The version is published, and still inside the window.
abbrev pub IsTooNew : ℕ → ℕ → Dates → Text → Type 0
IsTooNew now days ds v = Any (λ e. (e.0 ≡ v) × (within now (e.1) days ≡ true)) ds

is_member-too_new :
    (now days : ℕ) (ds : Dates) (v : Text)
    → (is_member v (too_new now days ds) ≡ true) ↔ IsTooNew now days ds v
unfolding is_member too_new
is_member-too_new now days [] v = (λ h. cc, λ h. absurd h)
is_member-too_new now days ((w, t) ∷ ds) v =
    ground (arith, text_eq_iff w v, is_member-too_new now days ds v)

abbrev pub find : Text → List (Text × Text) → Option Text
find v [] = none
find v ((w, x) ∷ es) = if w =ₜ v then some x else find v es

find-delete_all :
    (new : List Text) (es : List (Text × Text)) (v : Text)
    → find v (delete_all new es) ≡ (if is_member v new then none else find v es)
unfolding delete_all
find-delete_all new [] v = ground arith
find-delete_all new ((w, x) ∷ es) v = elim (Bool-cases (is_member w new)) [
  | inl m ↦ ground (arith, text_eq_iff w v, find-delete_all new es v)
  | inr m ↦ ground (arith, text_eq_iff w v, find-delete_all new es v)
]

move_tags-All :
    (ds : Dates) (new : List Text) (es : List (Text × Text))
    → All (λ e. is_member (e.1) new ≡ false) (move_tags ds new es)
unfolding move_tags
move_tags-All ds new [] = tt
move_tags-All ds new ((tag, v) ∷ es) = elim (Bool-cases (is_member v new)) [
  | inl m ↦ elim (Bool-cases (is_empty (latest_eligible_version ds new))) [
    | inl e ↦ rw (m, e) (move_tags-All ds new es)
    | inr e ↦ rw (m, e) (latest_eligible_version-eligible ds new e, move_tags-All ds new es)
  ]
  | inr m ↦ rw m (m, move_tags-All ds new es)
]

-- The entries of a member, where it is an object of the form that is read.
abbrev pub entries : Member (List (Text × Text)) → List (Text × Text)
entries absent = []
entries malformed = []
entries (present es) = es

abbrev pub versions_of : Body → List (Text × Text)
versions_of not_json = []
versions_of (document p) = entries p.versions

abbrev pub tags_of : Body → List (Text × Text)
tags_of not_json = []
tags_of (document p) = entries p.dist_tags

entries-delete_all :
    (new : List Text) (m : Member (List (Text × Text)))
    → entries (on_member (delete_all new) m) ≡ delete_all new (entries m)
unfolding delete_all
entries-delete_all new absent = refl
entries-delete_all new malformed = refl
entries-delete_all new (present es) = refl

entries-move_tags :
    (ds : Dates) (new : List Text) (m : Member (List (Text × Text)))
    → entries (on_member (move_tags ds new) m) ≡ move_tags ds new (entries m)
unfolding move_tags
entries-move_tags ds new absent = refl
entries-move_tags ds new malformed = refl
entries-move_tags ds new (present es) = refl

is_empty-nil : (vs : List Text) → is_empty vs ≡ true → vs ≡ []
is_empty-nil [] h = refl
is_empty-nil (v ∷ vs) h = absurd (ground arith)

too_new-nil :
    (now days : ℕ) (ds : Dates) (v : Text)
    → is_empty (too_new now days ds) ≡ true
    → is_member v (too_new now days ds) ≡ false
unfolding is_member
too_new-nil now days ds v h = rw (is_empty-nil (too_new now days ds) h) refl

-- What holds of the versions that are not in the list, for lists that agree with `IsTooNew`.
module _ (now days : ℕ) (ds : Dates) where
  abbrev new : List Text
  new = too_new now days ds

  not-IsTooNew : (v : Text) → is_member v new ≡ false → ¬ IsTooNew now days ds v
  not-IsTooNew v m n = cc (m, (is_member-too_new now days ds v).1 n)

  All-not-IsTooNew :
      (es : List (Text × Text))
      → All (λ e. is_member (e.1) new ≡ false) es
      → All (λ e. ¬ IsTooNew now days ds (e.1)) es
  All-not-IsTooNew [] a = tt
  All-not-IsTooNew (e ∷ es) (m, a) = (not-IsTooNew (e.1) m, All-not-IsTooNew es a)

  All-nil :
      (es : List (Text × Text)) → is_empty new ≡ true → All (λ e. ¬ IsTooNew now days ds (e.1)) es
  All-nil [] h = tt
  All-nil ((_, v) ∷ es) h = (not-IsTooNew v (too_new-nil now days ds v h), All-nil es h)

  too_new_deleted :
      (es : List (Text × Text)) (v : Text)
      → IsTooNew now days ds v
      → find v (delete_all new es) ≡ none
  too_new_deleted es v n = rw (find-delete_all new es v, (is_member-too_new now days ds v).1 n) refl

  others_kept :
      (es : List (Text × Text)) (v : Text)
      → ¬ IsTooNew now days ds v
      → find v (delete_all new es) ≡ find v es
  others_kept es v n = elim (Bool-cases (is_member v new)) [
    | inl m ↦ absurd (n ((is_member-too_new now days ds v).0 m))
    | inr m ↦ rw (find-delete_all new es v, m) refl
  ]

  -- The three parts for one body and what it becomes.
  abbrev pub IsStripped : Body → Body → Type 0
  IsStripped body stripped =
      ((v : Text) → IsTooNew now days ds v → find v (versions_of stripped) ≡ none)
      × ((v : Text)
          → ¬ IsTooNew now days ds v
          → find v (versions_of stripped) ≡ find v (versions_of body))
      × All (λ e. ¬ IsTooNew now days ds (e.1)) (tags_of stripped)

  IsStripped-document :
      (p : Packument) → IsStripped (document p) (document (strip_document ds new p))
  IsStripped-document p = (
    λ v n. rw (entries-delete_all new p.versions) (too_new_deleted (entries p.versions) v n),
    λ v n. rw (entries-delete_all new p.versions) (others_kept (entries p.versions) v n),
    rw (entries-move_tags ds new p.dist_tags)
        (All-not-IsTooNew _ (move_tags-All ds new (entries p.dist_tags))),
  )

  IsStripped-not_json : IsStripped not_json not_json
  IsStripped-not_json = (λ v n. refl, λ v n. refl, tt)

  IsStripped-nil : (body : Body) → is_empty new ≡ true → IsStripped body body
  IsStripped-nil body h = (
    λ v n. absurd (not-IsTooNew v (too_new-nil now days ds v h) n),
    λ v n. refl,
    All-nil (tags_of body) h,
  )

-- After stripping, the versions of the document are exactly those before that are not published
-- within the window, each with what stood beside it, and no tag points to a version in the window.
-- This holds for every order in which the dates are visited.
pub strip_cooldown_versions_lem :
    (now days : ℕ) (body : Body) (ds : Dates)
    → IsStripped now days ds body ((strip_cooldown_versions now days body ds).0)
unfolding strip_cooldown_versions
strip_cooldown_versions_lem now days not_json ds =
    elim (Bool-cases (is_empty (too_new now days ds))) [
      | inl h ↦ rw h (IsStripped-not_json now days ds)
      | inr h ↦ rw h (IsStripped-not_json now days ds)
    ]
strip_cooldown_versions_lem now days (document p) ds =
    elim (Bool-cases (is_empty (too_new now days ds))) [
      | inl h ↦ rw h (IsStripped-nil now days ds (document p) h)
      | inr h ↦ rw h (IsStripped-document now days ds p)
    ]
