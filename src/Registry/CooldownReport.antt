-- ===== src/Registry/CooldownReport.antt =====
-- `recordCooldownStats` of proxy/interceptors/cooldown.go: what is counted and reported when the
-- metadata of a package was stripped. The iterations over maps follow the order of the dates.
pub mod Exclusive
use pmg.Prelude.{
  ℕ, Bool, true, false, not, ◌==◌, Option, none, some, is_some, Text, is_empty, List, [], ◌∷◌, ◌++◌,
  map, if◌then◌else◌,
}
use pmg.Analysis.{Ecosystem, PackageVersion, AnalysisResult, Outcome}
use pmg.Audit.{AuditEvent, Log, report, malware_blocked, dependency_cooldown}
use pmg.Registry.Cache.{lookup}
use pmg.Registry.Stats.{CooldownBlock, StatsCollector, record_cooldown_blocked}
use pmg.Registry.Cooldown.{Dates, is_within_window, oldest_version, date_of, malware_in_window}

abbrev pub cooldown_pv : Ecosystem → Text → Text → PackageVersion
cooldown_pv eco name v = record { ecosystem = eco; name = name; version = v }

-- The collector and the audit log.
abbrev pub Books : Type 0
Books = StatsCollector × Log

module _ (eco : Ecosystem) (name : Text) (days : ℕ) where
  abbrev pub malware_event : Text × AnalysisResult → AuditEvent
  malware_event (v, r) =
      malware_blocked (some (cooldown_pv eco name v)) r.summary r.analysis_id r.reference_url
        r.is_malware r.is_verified

  abbrev pub cooldown_event : Text → ℕ → ℕ → ℕ → AuditEvent
  cooldown_event v date ago left = dependency_cooldown (cooldown_pv eco name v) date days ago left

  -- The closure `logCooldown`.
  unfoldable pub log_cooldown : List (Text × AnalysisResult) → Text → ℕ → ℕ → ℕ → Books → Books
  log_cooldown malware v date ago left (c, l) = if is_some (lookup v malware) then (c, l) else (
    record_cooldown_blocked
        (record {
          block_name = name;
          block_version = v;
          publish_date = date;
          days_ago = ago;
          days_left = left;
          cooldown_days = days;
        })
        c,
    report (cooldown_event v date ago left) l,
  )

  -- The pinned version, with its date if it has one.
  unfoldable pub log_pinned : List (Text × AnalysisResult) → ℕ → Text → Option ℕ → Books → Books
  log_pinned malware now pinned none b = b
  log_pinned malware now pinned (some date) b =
      let (inside, ago, left) = is_within_window now date days in
      if inside then log_cooldown malware pinned date ago left b else b

  unfoldable pub log_chosen : List (Text × AnalysisResult) → ℕ → Text → Dates → ℕ → Books → Books
  log_chosen malware now pinned dates remaining b =
      let (oldest, oldest_date) = oldest_version dates in
      let (_, oldest_ago, oldest_left) = is_within_window now oldest_date days in
      if remaining == 0
      then (if is_empty oldest
          then b
          else log_cooldown malware oldest oldest_date oldest_ago oldest_left b)
      else if is_empty pinned
      then b
      else log_pinned malware now pinned (date_of pinned dates) b

  unfoldable pub record_cooldown_stats :
      Option (PackageVersion → Outcome)
      → ℕ
      → Text
      → Dates
      → ℕ
      → Option StatsCollector
      → Log
      → Option StatsCollector × Log
  unfolding log_chosen
  record_cooldown_stats check now pinned dates remaining none l = (none, l)
  record_cooldown_stats check now pinned dates remaining (some c) l =
      let malware = malware_in_window check eco name now days dates in
      let (d, m) =
        log_chosen malware now pinned dates remaining (c, l ++ map malware_event malware) in
      (some d, m)
