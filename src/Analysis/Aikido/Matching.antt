-- ===== src/Analysis/Aikido/Matching.antt =====
-- analyzer/aikido_intel.go: the verdict against the feed as a list.
use pmg.Prelude.{
  ℕ, ◌≡◌, refl, ap, ◌∙◌, Bool, true, false, ◌&&◌, ◌||◌, Option, none, some, is_some, Text, codes,
  ◌=ₜ◌, any, any-append, not, contains_code, List, [], ◌∷◌, ◌++◌, if◌then◌else◌, Bool-cases, inl,
  inr, arith,
}
use pmg.Analysis.{PackageVersion, npm}
use pmg.Analysis.Composite.{is_block}
use pmg.Analysis.Aikido.{
  AikidoEntry, AikidoRangeEntry, AikidoSnapshot, Semver, Load, is_exact_aikido_version, exact_key,
  add_range, add_entry, add_entries, empty_snapshot, lookup_exact, lookup_range, or_range,
  find_entry, judge_snapshot, block_or_allow, built, or_disk, AikidoEcosystem, new_ecosystem,
  aikido_analyze, get_snapshot, load_snapshot,
}

abbrev pub admits : Option (Text → Bool) → Text → Bool
admits none version = false
admits (some check) version = check version

abbrev names : Semver → PackageVersion → AikidoEntry → Bool
names sm pv e =
    if is_exact_aikido_version e.version
    then exact_key e.package_name e.version =ₜ exact_key pv.name pv.version
    else sm.is_version pv.version
      && (e.package_name =ₜ pv.name && admits (sm.new_constraint e.version) pv.version)

abbrev hits : Semver → AikidoSnapshot → PackageVersion → Bool
hits sm s pv = is_some (find_entry sm s pv)

is_some-or_range : (a b : Option AikidoEntry) → is_some (or_range a b) ≡ (is_some a || is_some b)
is_some-or_range none b = refl
is_some-or_range (some e) b = refl

abbrev in_range : PackageVersion → (Text × AikidoRangeEntry) → Bool
in_range pv (n, r) = n =ₜ pv.name && r.check pv.version

is_some-lookup_range :
    (pv : PackageVersion) (rs : List (Text × AikidoRangeEntry))
    → is_some (lookup_range pv.name pv.version rs) ≡ any (in_range pv) rs
unfolding lookup_range
is_some-lookup_range pv [] = refl
is_some-lookup_range pv ((n, r) ∷ rs) = elim (Bool-cases (n =ₜ pv.name && r.check pv.version)) [
  | inl e ↦ rw e refl
  | inr e ↦ rw e (is_some-lookup_range pv rs)
]

abbrev in_exact : PackageVersion → (Text × AikidoEntry) → Bool
in_exact pv (k, e) = k =ₜ exact_key pv.name pv.version

is_some-lookup_exact :
    (pv : PackageVersion) (es : List (Text × AikidoEntry))
    → is_some (lookup_exact (exact_key pv.name pv.version) es) ≡ any (in_exact pv) es
unfolding lookup_exact
is_some-lookup_exact pv [] = refl
is_some-lookup_exact pv ((k, e) ∷ es) = elim (Bool-cases (k =ₜ exact_key pv.name pv.version)) [
  | inl q ↦ rw q refl
  | inr q ↦ rw q (is_some-lookup_exact pv es)
]

is_some-if :
    (b : Bool) (o : Option AikidoEntry) → is_some (if b then o else none) ≡ (b && is_some o)
is_some-if true o = refl
is_some-if false o = refl

hits_lem :
    (sm : Semver) (s : AikidoSnapshot) (pv : PackageVersion)
    → hits sm s pv
      ≡ (any (in_exact pv) s.exact || (sm.is_version pv.version && any (in_range pv) s.ranges))
unfolding find_entry
hits_lem sm s pv =
    is_some-or_range (lookup_exact (exact_key pv.name pv.version) s.exact)
      (if sm.is_version pv.version then lookup_range pv.name pv.version s.ranges else none)
    ∙ rw
        (
          is_some-lookup_exact pv s.exact,
          is_some-if (sm.is_version pv.version) (lookup_range pv.name pv.version s.ranges),
          is_some-lookup_range pv s.ranges,
        )
        refl

abbrev found : Semver → AikidoSnapshot → PackageVersion → Bool
found sm s pv =
    any (in_exact pv) s.exact || (sm.is_version pv.version && any (in_range pv) s.ranges)

or_exact : (a e r : Bool) → ((a || e) || r) ≡ (a || (e || r))
or_exact true e r = refl
or_exact false e r = refl

no_range : (p n e r : Bool) → (e || (p && r)) ≡ ((p && (n && false)) || (e || (p && r)))
no_range true true e r = refl
no_range true false e r = refl
no_range false n e r = refl

one_range : (p n e r : Bool) → (e || (p && (r || (n || false)))) ≡ ((p && n) || (e || (p && r)))
one_range true true true r = refl
one_range true true false true = refl
one_range true true false false = refl
one_range true false e true = refl
one_range true false e false = refl
one_range false n e r = refl

add_range-found :
    (sm : Semver) (s : AikidoSnapshot) (e : AikidoEntry) (pv : PackageVersion)
    (c : Option (Text → Bool))
    → found sm (add_range s e c) pv ≡ (
        (sm.is_version pv.version && (e.package_name =ₜ pv.name && admits c pv.version))
        || found sm s pv)
add_range-found sm s e pv none =
    no_range (sm.is_version pv.version) (e.package_name =ₜ pv.name) (any (in_exact pv) s.exact)
      (any (in_range pv) s.ranges)
add_range-found sm s e pv (some check) =
    ap (λ b. any (in_exact pv) s.exact || (sm.is_version pv.version && b))
      (any-append (in_range pv) s.ranges
        ((e.package_name, record { entry = e; check = check }) ∷ []))
    ∙ one_range (sm.is_version pv.version) (e.package_name =ₜ pv.name && check pv.version)
        (any (in_exact pv) s.exact) (any (in_range pv) s.ranges)

add_entry-found :
    (sm : Semver) (s : AikidoSnapshot) (e : AikidoEntry) (pv : PackageVersion)
    → found sm (add_entry sm s e) pv ≡ (names sm pv e || found sm s pv)
unfolding add_entry
add_entry-found sm s e pv = elim (Bool-cases (is_exact_aikido_version e.version)) [
  | inl q ↦ rw q (
      or_exact (in_exact pv (exact_key e.package_name e.version, e)) (any (in_exact pv) s.exact)
        (sm.is_version pv.version && any (in_range pv) s.ranges))
  | inr q ↦ rw q (add_range-found sm s e pv (sm.new_constraint e.version))
]

swap_or : (a b c : Bool) → (a || (b || c)) ≡ ((b || a) || c)
swap_or true true c = refl
swap_or true false c = refl
swap_or false b c = ground arith

add_entries-found :
    (sm : Semver) (s : AikidoSnapshot) (es : List AikidoEntry) (pv : PackageVersion)
    → found sm (add_entries sm s es) pv ≡ (any (names sm pv) es || found sm s pv)
unfolding add_entries
add_entries-found sm s [] pv = refl
add_entries-found sm s (e ∷ es) pv =
    add_entries-found sm (add_entry sm s e) es pv
    ∙ ap (λ b. any (names sm pv) es || b) (add_entry-found sm s e pv)
    ∙ swap_or (any (names sm pv) es) (names sm pv e) (found sm s pv)

is_block-block_or_allow :
    (pv : PackageVersion) (eco : Text) (o : Option AikidoEntry)
    → is_block (block_or_allow pv eco o) ≡ is_some o
is_block-block_or_allow pv eco none = refl
is_block-block_or_allow pv eco (some e) = refl

or_false : (b : Bool) → (b || (false || (false && false))) ≡ b
or_false true = refl
or_false false = refl

parsed_false : (p b : Bool) → (b || (false || (p && false))) ≡ b
parsed_false true b = or_false b
parsed_false false b = or_false b

is_block-judge_snapshot :
    (sm : Semver) (now : ℕ) (es : List AikidoEntry) (pv : PackageVersion) (eco : Text)
    → is_block (judge_snapshot sm pv eco (built sm now (some es))) ≡ any (names sm pv) es
is_block-judge_snapshot sm now es pv eco =
    let s = add_entries sm (empty_snapshot now) es in
    is_block-block_or_allow pv eco (find_entry sm s pv)
    ∙ hits_lem sm s pv
    ∙ add_entries-found sm (empty_snapshot now) es pv
    ∙ parsed_false (sm.is_version pv.version) (any (names sm pv) es)

abbrev pub npm_package : Text → Text → PackageVersion
npm_package name version = record { ecosystem = npm; name = name; version = version }

-- One of the characters that make a version a range.
abbrev pub has_operator : Text → Bool
has_operator v = any (λ c. contains_code v c) (9 ∷ codes "><^~*| ") || contains_code v 61

-- An entry without an operator names one package and version, which are compared with a colon between
-- them; any other one names the versions of the package that its constraint admits, where both can be
-- parsed.
abbrev pub is_listed : Semver → Text → Text → AikidoEntry → Bool
is_listed sm name version e =
    if has_operator e.version
    then sm.is_version version
      && (e.package_name =ₜ name && admits (sm.new_constraint e.version) version)
    else (e.package_name ++ codes ":" ++ e.version) =ₜ (name ++ codes ":" ++ version)

neither : (a b x y : Bool) → (if not a && not b then x else y) ≡ (if a || b then y else x)
neither true b x y = refl
neither false true x y = refl
neither false false x y = refl

names-is_listed :
    (sm : Semver) (name version : Text) (e : AikidoEntry)
    → names sm (npm_package name version) e ≡ is_listed sm name version e
unfolding is_exact_aikido_version
names-is_listed sm name version e =
    neither (any (λ c. contains_code e.version c) (9 ∷ codes "><^~*| "))
      (contains_code e.version 61) _ _

any-is_listed :
    (sm : Semver) (name version : Text) (es : List AikidoEntry)
    → any (names sm (npm_package name version)) es ≡ any (is_listed sm name version) es
any-is_listed sm name version [] = refl
any-is_listed sm name version (e ∷ es) =
    rw (names-is_listed sm name version e, any-is_listed sm name version es) refl

-- With what the first load finds (the feed, or else the disk cache), a package of NPM is blocked
-- exactly if some entry of that list names it: an entry whose version has no operator if name and
-- version, written with a colon between them, are the package's; any other one if the name is the
-- package's and the version is a constraint that can be parsed and admits the package's version,
-- which can be parsed too.
pub is_block-aikido_analyze :
    (sm : Semver) (ttl : ℕ) (l : Load) (e : AikidoEcosystem) (es : List AikidoEntry)
    (name version : Text)
    → or_disk l.feed l.disk ≡ some es
    → is_block
        (aikido_analyze sm ttl l
          (npm_package name version)
          (record { npm_feed = new_ecosystem; pypi_feed = e })).1
      ≡ any (is_listed sm name version) es
unfolding aikido_analyze get_snapshot load_snapshot
is_block-aikido_analyze sm ttl l e es name version h =
    ap
      (λ o.
        is_block (judge_snapshot sm (npm_package name version) (codes "npm") (built sm l.now o)))
      h
    ∙ is_block-judge_snapshot sm l.now es (npm_package name version) (codes "npm")
    ∙ any-is_listed sm name version es
