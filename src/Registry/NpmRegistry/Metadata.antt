-- ===== src/Registry/NpmRegistry/Metadata.antt =====
-- What the client sees of a package's metadata: the modifier of proxy/interceptors/npm_cooldown.go.
use pmg.Prelude.{
  ℕ, ◌≡◌, refl, subst, ◌⊎◌, inl, inr, true, false, Option, none, some, Text, codes, List, [], ◌∷◌,
  length, is_empty, ltb, text_eq_refl, Bool-cases, arith,
}
use pmg.Analysis.{PackageVersion, Outcome}
use pmg.Registry.Cooldown.{Dates, too_new}
use pmg.Registry.NpmCooldown.{
  Body, not_json, document, parse_metadata_time, strip_cooldown_versions,
}
use pmg.Registry.NpmCooldown.Strip.{IsStripped, strip_cooldown_versions_lem}
use pmg.Registry.Cache.{lookup, insert}
use pmg.Registry.Cache.Laws.{lookup-insert}
use pmg.Registry.Interceptor.{Headers}
use pmg.Registry.NpmRegistry.{Modified, modify_metadata}

length-zero : (vs : List Text) → ltb 0 (length vs) ≡ false → is_empty vs ≡ true
length-zero [] h = refl
length-zero (v ∷ vs) h = absurd (ground arith)

lookup-insert_same : (k : Text) (v : List Text) (h : Headers) → lookup k (insert k v h) ≡ some v
lookup-insert_same k v h = ground (arith, text_eq_refl k, lookup-insert k k v h)

-- Nothing was stripped: the body is what it was.
strip_cooldown_versions-none :
    (now days : ℕ) (body : Body) (dates : Dates)
    → ltb 0 ((strip_cooldown_versions now days body dates).1) ≡ false
    → (strip_cooldown_versions now days body dates).0 ≡ body
unfolding strip_cooldown_versions
strip_cooldown_versions-none now days not_json dates h = ground arith
strip_cooldown_versions-none now days (document p) dates h =
    elim (Bool-cases (is_empty (too_new now days dates))) [
      | inl e ↦ ground arith
      | inr e ↦ absurd (ground (arith, length-zero (too_new now days dates)))
    ]

module _ (parse_date : Text → Option ℕ) (check : Option (PackageVersion → Outcome)) (now : ℕ)
    (name : Text) (days : ℕ) (pinned : Text) (m : Modified) where
  abbrev modified : Modified
  modified = modify_metadata parse_date check now name days pinned m

  modified-body :
      (dates : Dates)
      → parse_metadata_time parse_date m.body ≡ some dates
      → (strip_cooldown_versions now days m.body dates).0 ≡ modified.body
  unfolding modify_metadata
  modified-body dates e = ground (arith, strip_cooldown_versions-none now days m.body dates)

  modified-cached :
      (dates : Dates)
      → parse_metadata_time parse_date m.body ≡ some dates
      → (lookup (codes "Cache-Control") modified.headers ≡ some (codes "no-store" ∷ []))
        ⊎ (modified ≡ m)
  unfolding modify_metadata
  modified-cached dates e =
      elim (Bool-cases (ltb 0 ((strip_cooldown_versions now days m.body dates).1))) [
        | inl s ↦ inl (
            ground
              (arith, lookup-insert_same (codes "Cache-Control") (codes "no-store" ∷ []) m.headers))
        | inr s ↦ inr (ground arith)
      ]

  modified-unparsed : parse_metadata_time parse_date m.body ≡ none → modified ≡ m
  unfolding modify_metadata
  modified-unparsed e = ground arith

-- Where the dates of the metadata parse, the client sees no version of the window and every other
-- one as it was, and no tag of a version of the window; and it is told not to store the response,
-- or nothing was changed. Where they do not parse, nothing is changed. The versions and the tags
-- are those that can be decoded: a member `versions` or `dist-tags` of another form counts as
-- having no entries (the code leaves it as it is, so its tags stay).
pub modify_metadata-IsStripped :
    (parse_date : Text → Option ℕ) (check : Option (PackageVersion → Outcome)) (now : ℕ)
    (name : Text) (days : ℕ) (pinned : Text) (m : Modified)
    → let after = modify_metadata parse_date check now name days pinned m in
      ((dates : Dates)
        → parse_metadata_time parse_date m.body ≡ some dates
        → IsStripped now days dates m.body after.body
          × ((lookup (codes "Cache-Control") after.headers ≡ some (codes "no-store" ∷ []))
              ⊎ (after ≡ m)))
      × (parse_metadata_time parse_date m.body ≡ none → after ≡ m)
modify_metadata-IsStripped parse_date check now name days pinned m = (
  λ dates e. (
    subst (IsStripped now days dates m.body)
        (modified-body parse_date check now name days pinned m dates e)
        (strip_cooldown_versions_lem now days m.body dates),
    modified-cached parse_date check now name days pinned m dates e,
  ),
  modified-unparsed parse_date check now name days pinned m,
)
