-- ===== src/Registry/NpmCooldown.antt =====
-- proxy/interceptors/npm_cooldown.go: the metadata of an NPM package, stripped of the versions in
-- the cooldown window. The JSON document is a record of the three members that are read; a member
-- that is not an object of the expected form is `malformed`. Encoding a document that was decoded
-- does not fail. The two calls of `time.Parse` are the parameter `parse_date`, tried in turn.
pub mod Strip
use pmg.Prelude.{
  ℕ, ◌+◌, ◌-◌, Bool, true, false, not, ◌||◌, Option, none, some, Text, codes, ◌=ₜ◌, is_empty, List,
  [], ◌∷◌, ◌++◌, map, length, if◌then◌else◌,
}
use pmg.Registry.Cooldown.{Dates, within, too_new, is_member, latest_eligible_version}

pub data Member {ℓ} (A : Type ℓ) : Type ℓ where
  absent malformed : Member A
  present : A → Member A

pub record Packument : Type 0 where
  pub versions : Member (List (Text × Text))
  pub time : Member (List (Text × Text))
  pub dist_tags : Member (List (Text × Text))

pub data Body : Type 0 where
  not_json : Body
  document : Packument → Body

abbrev skip_key : Text → Bool
skip_key v = v =ₜ codes "created" || v =ₜ codes "modified"

-- The loop of `parseMetadataTime`.
unfoldable pub parse_dates : (Text → Option ℕ) → List (Text × Text) → Dates
parse_dates parse_date [] = []
parse_dates parse_date ((v, s) ∷ es) =
    let rest = parse_dates parse_date es in
    if skip_key v then rest else elim (parse_date s) [ none ↦ rest | some t ↦ (v, t) ∷ rest ]

-- `parseMetadataTime`: `none` is an error.
unfoldable pub parse_metadata_time : (Text → Option ℕ) → Body → Option Dates
unfolding parse_dates
parse_metadata_time parse_date not_json = none
parse_metadata_time parse_date (document p) = elim p.time [
  | absent ↦ some []
  | malformed ↦ none
  | present es ↦ some (parse_dates parse_date es)
]

-- `delete(m, v)` for every version of the set.
unfoldable pub delete_all : List Text → List (Text × Text) → List (Text × Text)
delete_all new [] = []
delete_all new ((v, x) ∷ es) =
    let rest = delete_all new es in if is_member v new then rest else (v, x) ∷ rest

-- The loop over the tags: a tag of a stripped version moves to the latest eligible one, or goes.
unfoldable pub move_tags : Dates → List Text → List (Text × Text) → List (Text × Text)
move_tags ds new [] = []
move_tags ds new ((tag, v) ∷ es) =
    let rest = move_tags ds new es in
    let latest = latest_eligible_version ds new in
    if is_member v new
    then (if is_empty latest then rest else (tag, latest) ∷ rest)
    else (tag, v) ∷ rest

abbrev pub on_member {ℓ} : {A : Type ℓ} → (A → A) → Member A → Member A
on_member f absent = absent
on_member f malformed = malformed
on_member f (present a) = present (f a)

abbrev pub strip_document : Dates → List Text → Packument → Packument
strip_document ds new p = record {
  versions = on_member (delete_all new) p.versions;
  time = on_member (delete_all new) p.time;
  dist_tags = on_member (move_tags ds new) p.dist_tags;
}

-- `stripCooldownVersions`: the body, the number of versions stripped, and how many remain.
unfoldable pub strip_cooldown_versions : ℕ → ℕ → Body → Dates → Body × ℕ × ℕ
strip_cooldown_versions now days body ds =
    let new = too_new now days ds in
    let remaining = length ds - length new in
    if is_empty new then (body, 0, remaining) else elim body [
      | not_json ↦ (not_json, 0, remaining)
      | document p ↦ (document (strip_document ds new p), length new, remaining)
    ]
