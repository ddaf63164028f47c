-- ===== src/Registry/PypiCooldown.antt =====
-- proxy/interceptors/pypi_cooldown.go: the index of a PyPI package, stripped of the files of the
-- versions in the cooldown window. The JSON document is its member `files`; of a file the two members
-- that are read stand beside the text of the others, and a member or a file that is not of the
-- expected form is `malformed` or `not_an_object`. Encoding a document that was decoded does not
-- fail. `time.Parse` is the parameter `parse`.
pub mod Earliest
pub mod Files
use pmg.Prelude.{
  ℕ, ◌-◌, Bool, true, false, not, Option, none, some, Text, codes, ◌=ₜ◌, is_empty, ltb, List, [],
  ◌∷◌, length, if◌then◌else◌,
}
use pmg.Prelude.Result.{Result, ok, err}
use pmg.Analysis.{PackageVersion, pypi, Outcome}
use pmg.Audit.{Log}
use pmg.Registry.Cache.{insert}
use pmg.Registry.Stats.{StatsCollector}
use pmg.Registry.Cooldown.{Dates, too_new, is_member}
use pmg.Registry.CooldownReport.{record_cooldown_stats}
use pmg.Registry.NpmCooldown.{Member, absent, malformed, present}
use pmg.Registry.PypiUrl.{PypiPackageInfo, PypiError, parse_filename}
use pmg.Registry.Interceptor.{Headers}

pub data Layout : Type 0 where
  rfc3339_nano rfc3339 : Layout

-- The file's name, its upload time, and the rest of it.
pub data FileEntry : Type 0 where
  not_an_object : FileEntry
  file_entry : (filename upload_time : Member Text) → Text → FileEntry

pub data IndexBody : Type 0 where
  not_an_index : IndexBody
  index : Member (List FileEntry) → IndexBody

unfoldable pub parse_pep691_upload_time : (Layout → Text → Option ℕ) → Text → Option ℕ
parse_pep691_upload_time parse s = elim (parse rfc3339_nano s) [
  | some t ↦ some t
  | none ↦ parse rfc3339 s
]

-- A missing member is the empty text; one of another form is an error of the decoder.
abbrev pub decoded : Member Text → Option Text
decoded absent = some []
decoded malformed = none
decoded (present s) = some s

abbrev pub two_decoded : Option Text → Option Text → Option (Text × Text)
two_decoded none o = none
two_decoded (some n) none = none
two_decoded (some n) (some u) = some (n, u)

abbrev pub entry_fields : FileEntry → Option (Text × Text)
entry_fields not_an_object = none
entry_fields (file_entry n u rest) = two_decoded (decoded n) (decoded u)

abbrev pub and_then :
    Option (Text × Text) → Option (List (Text × Text)) → Option (List (Text × Text))
and_then none rest = none
and_then (some e) none = none
and_then (some e) (some es) = some (e ∷ es)

-- One file that cannot be decoded is an error of the whole.
unfoldable pub all_fields : List FileEntry → Option (List (Text × Text))
all_fields [] = some []
all_fields (f ∷ fs) = and_then (entry_fields f) (all_fields fs)

-- The member of the map that is written where there is none or a later one.
unfoldable pub keep_earliest : Text → ℕ → Dates → Dates
keep_earliest v t [] = (v, t) ∷ []
keep_earliest v t ((w, u) ∷ ds) =
    if w =ₜ v then (w, if ltb t u then t else u) ∷ ds else (w, u) ∷ keep_earliest v t ds

module _ (lower_beyond : ℕ → ℕ) (parse : Layout → Text → Option ℕ) where
  abbrev pub dated_version : Option ℕ → Result PypiError PypiPackageInfo → Option (Text × ℕ)
  dated_version none info = none
  dated_version (some t) (err e) = none
  dated_version (some t) (ok info) = if is_empty info.version then none else some (info.version, t)

  -- The version and the time of one file, where it is not skipped.
  unfoldable pub file_date : Text × Text → Option (Text × ℕ)
  unfolding parse_pep691_upload_time
  file_date (filename, upload_time) =
      if is_empty upload_time
      then none
      else dated_version (parse_pep691_upload_time parse upload_time)
          (parse_filename lower_beyond filename)

  abbrev pub add_date : Option (Text × ℕ) → Dates → Dates
  add_date none ds = ds
  add_date (some (v, t)) ds = keep_earliest v t ds

  -- The loop over the files, with the map so far.
  unfoldable pub dates_loop : List (Text × Text) → Dates → Dates
  unfolding file_date keep_earliest
  dates_loop [] ds = ds
  dates_loop (f ∷ fs) ds = dates_loop fs (add_date (file_date f) ds)

  abbrev pub dates_of : Option (List (Text × Text)) → Option Dates
  dates_of none = none
  dates_of (some fs) = some (dates_loop fs [])

  -- `none` is an error.
  unfoldable pub parse_pep691_files : IndexBody → Option Dates
  unfolding dates_loop all_fields
  parse_pep691_files not_an_index = none
  parse_pep691_files (index absent) = some []
  parse_pep691_files (index malformed) = none
  parse_pep691_files (index (present fs)) = dates_of (all_fields fs)

module _ (lower_beyond : ℕ → ℕ) where
  abbrev pub version_of : Result PypiError PypiPackageInfo → Option Text
  version_of (err e) = none
  version_of (ok info) = some info.version

  abbrev pub name_version : Option Text → Option Text
  name_version none = none
  name_version (some filename) = version_of (parse_filename lower_beyond filename)

  -- The version of a file whose name can be read.
  abbrev pub entry_version : FileEntry → Option Text
  entry_version not_an_object = none
  entry_version (file_entry n u rest) = name_version (decoded n)

  abbrev pub is_stripped_version : List Text → Option Text → Bool
  is_stripped_version new none = false
  is_stripped_version new (some v) = is_member v new

  -- The loop that keeps the files.
  unfoldable pub filter_files : List Text → List FileEntry → List FileEntry
  filter_files new [] = []
  filter_files new (f ∷ fs) =
      let rest = filter_files new fs in
      if is_stripped_version new (entry_version f) then rest else f ∷ rest

  abbrev pub strip_index : List Text → ℕ → IndexBody → IndexBody × ℕ × ℕ
  strip_index new remaining not_an_index = (not_an_index, 0, remaining)
  strip_index new remaining (index absent) = (index absent, 0, remaining)
  strip_index new remaining (index malformed) = (index malformed, 0, remaining)
  strip_index new remaining (index (present fs)) =
      (index (present (filter_files new fs)), length new, remaining)

  -- `stripCooldownFiles`: the body, the number of versions stripped, and how many remain.
  unfoldable pub strip_cooldown_files : ℕ → ℕ → IndexBody → Dates → IndexBody × ℕ × ℕ
  unfolding filter_files
  strip_cooldown_files now days body ds =
      let new = too_new now days ds in
      let remaining = length ds - length new in
      if is_empty new then (body, 0, remaining) else strip_index new remaining body

-- What the modifier of the responses reads and writes.
pub record ModifiedIndex : Type 0 where
  pub headers : Headers
  pub body : IndexBody
  pub collector : Option StatsCollector
  pub log : Log

-- The modifier, after the dates are parsed.
unfoldable pub modify_dated :
    (ℕ → ℕ)
    → Option (PackageVersion → Outcome)
    → (now : ℕ) → (name : Text) → (days : ℕ) → (pinned : Text) → ModifiedIndex
    → Dates
    → ModifiedIndex
unfolding strip_cooldown_files
modify_dated lower check now name days pinned m dates =
    let (stripped_body, stripped, remaining) = strip_cooldown_files lower now days m.body dates in
    let (c, l) =
      record_cooldown_stats pypi name days check now pinned dates remaining m.collector m.log in
    if ltb 0 stripped
    then record {
      headers = insert (codes "Cache-Control") (codes "no-store" ∷ []) m.headers;
      body = stripped_body;
      collector = c;
      log = l;
    }
    else m

abbrev pub modify_parsed :
    (ℕ → ℕ)
    → Option (PackageVersion → Outcome)
    → (now : ℕ) → (name : Text) → (days : ℕ) → (pinned : Text) → ModifiedIndex
    → Option Dates
    → ModifiedIndex
modify_parsed lower check now name days pinned m none = m
modify_parsed lower check now name days pinned m (some dates) =
    modify_dated lower check now name days pinned m dates

unfoldable pub modify_index :
    (ℕ → ℕ)
    → (Layout → Text → Option ℕ)
    → Option (PackageVersion → Outcome)
    → (now : ℕ) → (name : Text) → (days : ℕ) → (pinned : Text) → ModifiedIndex
    → ModifiedIndex
unfolding parse_pep691_files modify_dated
modify_index lower parse check now name days pinned m =
    modify_parsed lower check now name days pinned m (parse_pep691_files lower parse m.body)
