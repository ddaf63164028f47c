-- ===== src/Analysis/Aikido.antt =====
-- analyzer/aikido_intel.go: the feed of known malware, its snapshot per ecosystem and the verdicts. The
-- semver library is given; what the network and the disk return at a load is an argument. The writing
-- of the disk cache is not modelled.
pub mod Matching
pub mod Unavailable
use pmg.Prelude.{
  ℕ, ◌+◌, ◌-◌, ltb, Bool, true, false, ◌&&◌, ◌||◌, not, Option, none, some, is_some, Text, codes,
  ◌=ₜ◌, contains_code, any, List, [], ◌∷◌, ◌++◌, if◌then◌else◌,
}
use pmg.Analysis.{
  PackageVersion, Ecosystem, npm, pypi, other, AnalysisResult, with_action, allow, block,
}

pub record AikidoEntry : Type 0 where
  pub package_name : Text
  pub version : Text
  pub reason : Text

-- `semver.NewConstraint`, as the test of a version's text, and whether `semver.NewVersion` succeeds.
pub record Semver : Type 0 where
  pub new_constraint : Text → Option (Text → Bool)
  pub is_version : Text → Bool

pub record AikidoRangeEntry : Type 0 where
  pub entry : AikidoEntry
  pub check : Text → Bool

-- The maps as lists: a later entry for a key of `exact` stands before the earlier ones, and the
-- entries of a name in `ranges` are in their order.
pub record AikidoSnapshot : Type 0 where
  pub exact : List (Text × AikidoEntry)
  pub ranges : List (Text × AikidoRangeEntry)
  pub fetched_at : ℕ

pub record AikidoEcosystem : Type 0 where
  pub snapshot : Option AikidoSnapshot
  pub once_done : Bool
  pub refreshing : Bool

abbrev pub new_ecosystem : AikidoEcosystem
new_ecosystem = record { snapshot = none; once_done = false; refreshing = false }

unfoldable pub is_exact_aikido_version : Text → Bool
unfolding contains_code
is_exact_aikido_version v =
    not (any (λ c. contains_code v c) (9 ∷ codes "><^~*| ")) && not (contains_code v 61)

abbrev pub exact_key : Text → Text → Text
exact_key name version = name ++ codes ":" ++ version

abbrev pub add_range : AikidoSnapshot → AikidoEntry → Option (Text → Bool) → AikidoSnapshot
add_range s e none = s
add_range s e (some check) = record s {
  ranges = s.ranges ++ (e.package_name, record { entry = e; check = check }) ∷ [];
}

-- The body of the loop over the entries.
unfoldable pub add_entry : Semver → AikidoSnapshot → AikidoEntry → AikidoSnapshot
add_entry sm s e =
    if is_exact_aikido_version e.version
    then record s { exact = (exact_key e.package_name e.version, e) ∷ s.exact }
    else add_range s e (sm.new_constraint e.version)

unfoldable pub add_entries : Semver → AikidoSnapshot → List AikidoEntry → AikidoSnapshot
unfolding add_entry
add_entries sm s [] = s
add_entries sm s (e ∷ es) = add_entries sm (add_entry sm s e) es

abbrev pub empty_snapshot : ℕ → AikidoSnapshot
empty_snapshot now = record { exact = []; ranges = []; fetched_at = now }

-- What a load meets: the time, the feed or an error, and the disk cache or an error.
pub record Load : Type 0 where
  pub now : ℕ
  pub feed : Option (List AikidoEntry)
  pub disk : Option (List AikidoEntry)

abbrev pub or_disk :
    Option (List AikidoEntry) → Option (List AikidoEntry) → Option (List AikidoEntry)
or_disk (some es) disk = some es
or_disk none disk = disk

abbrev pub built : Semver → ℕ → Option (List AikidoEntry) → Option AikidoSnapshot
built sm now none = none
built sm now (some es) = some (add_entries sm (empty_snapshot now) es)

unfoldable pub load_snapshot : Semver → Load → Option AikidoSnapshot
unfolding add_entries
load_snapshot sm l = built sm l.now (or_disk l.feed l.disk)

-- `getSnapshot`: a fresh snapshot is served; the first load is waited for, once; a stale snapshot is
-- served and a refresh is started unless one runs.
unfoldable pub get_snapshot :
    Semver → ℕ → Load → AikidoEcosystem → AikidoEcosystem × Option AikidoSnapshot
unfolding load_snapshot
get_snapshot sm ttl l eco = elim eco.snapshot [
  | none ↦
      if eco.once_done
      then (eco, none)
      else (record eco { once_done = true; snapshot = load_snapshot sm l }, load_snapshot sm l)
  | some s ↦
      if ltb (l.now - s.fetched_at) ttl
      then (eco, some s)
      else (record eco { refreshing = true }, some s)
]

abbrev pub or_kept : Option AikidoSnapshot → Option AikidoSnapshot → Option AikidoSnapshot
or_kept (some s) old = some s
or_kept none old = old

-- The end of a refresh in the background.
unfoldable pub finish_refresh : Semver → Load → AikidoEcosystem → AikidoEcosystem
unfolding load_snapshot
finish_refresh sm l eco = record eco {
  refreshing = false;
  snapshot = or_kept (load_snapshot sm l) eco.snapshot;
}

unfoldable pub lookup_exact : Text → List (Text × AikidoEntry) → Option AikidoEntry
lookup_exact key [] = none
lookup_exact key ((k, e) ∷ es) = let rest = lookup_exact key es in if k =ₜ key then some e else rest

-- The loop over the ranges of the name.
unfoldable pub lookup_range : Text → Text → List (Text × AikidoRangeEntry) → Option AikidoEntry
lookup_range name version [] = none
lookup_range name version ((n, r) ∷ rs) =
    let rest = lookup_range name version rs in
    if n =ₜ name && r.check version then some r.entry else rest

abbrev pub or_range : Option AikidoEntry → Option AikidoEntry → Option AikidoEntry
or_range (some e) r = some e
or_range none r = r

unfoldable pub find_entry : Semver → AikidoSnapshot → PackageVersion → Option AikidoEntry
unfolding lookup_exact lookup_range
find_entry sm s pv =
    or_range (lookup_exact (exact_key pv.name pv.version) s.exact)
      (if sm.is_version pv.version then lookup_range pv.name pv.version s.ranges else none)

abbrev pub aikido_block_result : PackageVersion → AikidoEntry → Text → AnalysisResult
aikido_block_result pv e eco = record (with_action pv block) {
  is_malware = true;
  is_verified = true;
  summary = e.reason;
  analysis_id = codes "aikido:" ++ eco ++ codes ":" ++ pv.name ++ codes "@" ++ pv.version;
  reference_url = codes "https://aikido.dev/malware/" ++ pv.name ++ codes "/" ++ pv.version;
}

abbrev pub block_or_allow : PackageVersion → Text → Option AikidoEntry → AnalysisResult
block_or_allow pv eco none = with_action pv allow
block_or_allow pv eco (some e) = aikido_block_result pv e eco

-- Without a snapshot nothing could be checked.
abbrev pub judge_snapshot : Semver → PackageVersion → Text → Option AikidoSnapshot → AnalysisResult
judge_snapshot sm pv eco none = record (with_action pv allow) { degraded = true }
judge_snapshot sm pv eco (some s) = block_or_allow pv eco (find_entry sm s pv)

pub record AikidoAnalyzer : Type 0 where
  pub npm_feed : AikidoEcosystem
  pub pypi_feed : AikidoEcosystem

-- `Analyze`: it never returns an error.
unfoldable pub aikido_analyze :
    Semver → ℕ → Load → PackageVersion → AikidoAnalyzer → AikidoAnalyzer × AnalysisResult
unfolding get_snapshot find_entry
aikido_analyze sm ttl l pv a = elim pv.ecosystem [
  | npm ↦
      let r = get_snapshot sm ttl l a.npm_feed in
      (record a { npm_feed = r.0 }, judge_snapshot sm pv (codes "npm") r.1)
  | pypi ↦
      let r = get_snapshot sm ttl l a.pypi_feed in
      (record a { pypi_feed = r.0 }, judge_snapshot sm pv (codes "pypi") r.1)
  | other _ ↦ (a, with_action pv allow)
]

abbrev pub refreshed : AikidoEcosystem → Option AikidoSnapshot → AikidoEcosystem
refreshed eco none = eco
refreshed eco (some s) = record eco { snapshot = some s; once_done = true }

-- `Refresh`: both feeds; it fails only if both loads fail.
unfoldable pub refresh : Semver → Load → Load → AikidoAnalyzer → AikidoAnalyzer × Bool
unfolding load_snapshot
refresh sm ln lp a = (
  record {
    npm_feed = refreshed a.npm_feed (load_snapshot sm ln);
    pypi_feed = refreshed a.pypi_feed (load_snapshot sm lp);
  },
  is_some (load_snapshot sm ln) || is_some (load_snapshot sm lp),
)
