-- ===== src/Registry/PypiCooldown/Files.antt =====
-- Which files of an index the modifier of proxy/interceptors/pypi_cooldown.go leaves.
use pmg.Prelude.{
  ℕ, ◌≡◌, refl, sym, ap, subst, ◌∙◌, ◌⊎◌, inl, inr, Bool, true, false, ◌&&◌, Option, none, some,
  Text, codes, is_empty, ltb, List, [], ◌∷◌, length, text_eq_refl, if◌then◌else◌, Bool-cases, arith,
}
use pmg.Analysis.{PackageVersion, Outcome}
use pmg.Audit.{Log}
use pmg.Registry.Cache.{lookup, insert}
use pmg.Registry.Cache.Laws.{lookup-insert}
use pmg.Registry.Stats.{StatsCollector}
use pmg.Registry.Cooldown.{Dates, too_new, is_member}
use pmg.Registry.NpmCooldown.{present}
use pmg.Registry.Interceptor.{Headers}
use pmg.Registry.PypiCooldown.{
  Layout, FileEntry, index, entry_version, all_fields, dates_of, dates_loop, parse_pep691_files,
  is_stripped_version, filter_files, strip_cooldown_files, ModifiedIndex, modify_dated,
  modify_parsed, modify_index,
}
use pmg.Registry.PypiCooldown.Earliest.{is_dated, are_inside, dated_files, is_member-dates_loop}

-- The list without what passes a test.
abbrev pub without {ℓ} : {A : Type ℓ} → (A → Bool) → List A → List A
without test [] = []
without test (x ∷ xs) = if test x then without test xs else x ∷ without test xs

abbrev pub fresh_version :
    (ℕ → ℕ) → (Layout → Text → Option ℕ) → (now days : ℕ) → List (Text × Text) → Option Text → Bool
fresh_version lower parse now days es none = false
fresh_version lower parse now days es (some v) =
    is_dated now days v (dated_files lower parse es)
    && are_inside now days v (dated_files lower parse es)

-- Some file of the version has a date, and all that have one have it in the window.
abbrev pub is_fresh_file :
    (ℕ → ℕ) → (Layout → Text → Option ℕ) → (now days : ℕ) → List (Text × Text) → FileEntry → Bool
is_fresh_file lower parse now days es f =
    fresh_version lower parse now days es (entry_version lower f)

abbrev pub with_files : Headers → List FileEntry → Option StatsCollector → Log → ModifiedIndex
with_files h fs c l = record { headers = h; body = index (present fs); collector = c; log = l }

is_empty-nil : (vs : List Text) → is_empty vs ≡ true → vs ≡ []
is_empty-nil [] h = refl
is_empty-nil (v ∷ vs) h = absurd (ground arith)

length-suc : (vs : List Text) → is_empty vs ≡ false → ltb 0 (length vs) ≡ true
length-suc [] h = absurd (ground arith)
length-suc (v ∷ vs) h = ground arith

lookup-no_store :
    (h : Headers)
    → lookup (codes "Cache-Control") (insert (codes "Cache-Control") (codes "no-store" ∷ []) h)
      ≡ some (codes "no-store" ∷ [])
lookup-no_store h = ground (
  arith,
  text_eq_refl (codes "Cache-Control"),
  lookup-insert (codes "Cache-Control") (codes "Cache-Control") (codes "no-store" ∷ []) h,
)

module _ (lower : ℕ → ℕ) where
  stripped_nil : (o : Option Text) → is_stripped_version lower [] o ≡ false
  unfolding is_member
  stripped_nil none = refl
  stripped_nil (some v) = refl

  filter_files-nil : (fs : List FileEntry) → filter_files lower [] fs ≡ fs
  unfolding filter_files
  filter_files-nil [] = refl
  filter_files-nil (f ∷ fs) = rw (stripped_nil (entry_version lower f), filter_files-nil fs) refl

  module _ (parse : Layout → Text → Option ℕ) (now days : ℕ) where
    abbrev new_of : List (Text × Text) → List Text
    new_of es = too_new now days (dates_loop lower parse es [])

    stripped-fresh :
        (es : List (Text × Text)) (o : Option Text)
        → is_stripped_version lower (new_of es) o ≡ fresh_version lower parse now days es o
    stripped-fresh es none = refl
    stripped-fresh es (some v) = is_member-dates_loop lower parse now days v es

    filter_files-without :
        (es : List (Text × Text)) (fs : List FileEntry)
        → filter_files lower (new_of es) fs ≡ without (is_fresh_file lower parse now days es) fs
    unfolding filter_files
    filter_files-without es [] = refl
    filter_files-without es (f ∷ fs) =
        rw (stripped-fresh es (entry_version lower f), filter_files-without es fs) refl

    module _ (check : Option (PackageVersion → Outcome)) (name pinned : Text) (h : Headers)
        (c : Option StatsCollector) (l : Log) where
      abbrev after : List FileEntry → ModifiedIndex
      after fs = modify_index lower parse check now name days pinned (with_files h fs c l)

      -- The index after the dates are known, and whether it may be stored.
      unfoldable IsModified : List FileEntry → List Text → ModifiedIndex → Type 0
      IsModified fs new m =
          (m.body ≡ index (present (filter_files lower new fs)))
          × ((lookup (codes "Cache-Control") m.headers ≡ some (codes "no-store" ∷ []))
              ⊎ (m ≡ with_files h fs c l))

      dated-IsModified :
          (fs : List FileEntry) (dates : Dates)
          → IsModified fs
              (too_new now days dates)
              (modify_dated lower check now name days pinned (with_files h fs c l) dates)
      unfolding modify_dated strip_cooldown_files IsModified
      dated-IsModified fs dates = elim (Bool-cases (is_empty (too_new now days dates))) [
        | inl e ↦ (
          rw (is_empty-nil (too_new now days dates) e, filter_files-nil fs) refl,
          inr (rw e refl),
        )
        | inr e ↦ (
          rw (e, length-suc (too_new now days dates) e) refl,
          inl (rw (e, length-suc (too_new now days dates) e) (lookup-no_store h)),
        )
      ]

      parsed-IsModified :
          (fs : List FileEntry) (es : List (Text × Text))
          → all_fields fs ≡ some es
          → IsModified fs (new_of es) (after fs)
      unfolding modify_index parse_pep691_files
      parsed-IsModified fs es e =
          subst
            (λ o. IsModified fs (new_of es) (
              modify_parsed lower check now name days pinned (with_files h fs c l)
                (dates_of lower parse o)))
            (sym e) (dated-IsModified fs (dates_loop lower parse es []))

      -- Where every file of a PyPI index can be decoded, the client sees the files in their order
      -- without those whose name is read as a version that some file dates and of which every dated
      -- file lies in the window; the version's other files go with them, all other files stay, and
      -- the client is told not to store the response, or nothing was changed.
      pub modify_index-files :
          (fs : List FileEntry) (es : List (Text × Text))
          → all_fields fs ≡ some es
          → ((after fs).body ≡ index (present (without (is_fresh_file lower parse now days es) fs)))
            × ((lookup (codes "Cache-Control") (after fs).headers ≡ some (codes "no-store" ∷ []))
                ⊎ (after fs ≡ with_files h fs c l))
      unfolding IsModified
      modify_index-files fs es e =
          let (b, s) = parsed-IsModified fs es e in
          (b ∙ ap (λ r. index (present r)) (filter_files-without es fs), s)
