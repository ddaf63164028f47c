-- ===== src/Guard.antt =====
-- guard/guard.go: the guard around a package manager's command: resolve, analyze, judge, and run the
-- command or not. The resolver, the analyzers, the extraction of manifests and the user are
-- parameters; the order in which the results of the workers arrive is `arrive`. Status lines and
-- warnings on the terminal are left out. `result.Action` of a nil result panics.
pub mod Judgement
pub mod Command
pub mod Running
use pmg.Prelude.{
  ℕ, ◌+◌, ◌==◌, Bool, true, false, not, ◌&&◌, ◌||◌, Option, none, some, is_some, Text, codes, ◌=ₜ◌,
  is_empty, contains_text, List, [], ◌∷◌, ◌++◌, map, length, if◌then◌else◌,
}
use pmg.Analysis.{
  PackageVersion, Action, unknown, allow, confirm, block, AnalysisResult, Outcome, failed, returned,
}
use pmg.Analysis.Composite.{is_block}
use pmg.Trusted.{TrustedPackage, is_trusted}
use pmg.Audit.{
  AuditEvent, Log, report, install_started, install_allowed, malware_blocked, malware_confirmed,
}

pub record GuardConfig : Type 0 where
  pub resolve_dependencies : Bool
  pub max_concurrent_analyzes : ℕ
  pub insecure_installation : Bool

pub record GuardResult : Type 0 where
  pub total_analyzed : ℕ
  pub trusted_skipped : ℕ
  pub allowed_count : ℕ
  pub confirmed_count : ℕ
  pub blocked_count : ℕ
  pub blocked_packages : List AnalysisResult
  pub confirmed_packages : List AnalysisResult
  pub was_user_cancelled : Bool

abbrev pub empty_result : GuardResult
empty_result = record {
  total_analyzed = 0;
  trusted_skipped = 0;
  allowed_count = 0;
  confirmed_count = 0;
  blocked_count = 0;
  blocked_packages = [];
  confirmed_packages = [];
  was_user_cancelled = false;
}

pub data GuardError : Type 0 where
  no_latest_version no_dependencies timed_out no_confirmation no_manifest : GuardError

-- How a run ends: the command is not run, or it is (and its error is returned), or there is an error
-- before it.
pub data Ending : Type 0 where
  stopped continued : GuardResult → Log → Ending
  in_error : GuardError → GuardResult → Log → Ending
  panicked : Ending

abbrev pub is_continued : Ending → Bool
is_continued (stopped r l) = false
is_continued (continued r l) = true
is_continued (in_error e r l) = false
is_continued panicked = false

-- What the guard is given.
pub record World : Type 0 where
  pub latest_version : PackageVersion → Option Text
  pub dependencies : PackageVersion → Option (List PackageVersion)
  pub analyzers : List (PackageVersion → Outcome)
  pub trusted : List TrustedPackage
  pub arrive : List (Option AnalysisResult) → List (Option AnalysisResult)
  pub too_slow : Bool
  pub confirmation : Option (List AnalysisResult → Option Bool)
  pub manifest : Option (List PackageVersion)

pub record ParsedCommand : Type 0 where
  pub install_targets : List PackageVersion
  pub from_manifest : Bool
  pub manifest_files : List Text

-- `logMalwareDetection`
unfoldable pub log_malware_detection : AnalysisResult → Bool → Log → Log
log_malware_detection r blocked l = elim r.package_version [
  | none ↦ l
  | some pv ↦
      if blocked
      then report
          (malware_blocked (some pv) r.summary r.analysis_id r.reference_url r.is_malware
            r.is_verified)
          l
      else report (malware_confirmed (some pv) r.analysis_id r.is_malware r.is_verified) l
]

-- The results of one package's analyzers; an error is skipped.
unfoldable pub results_of :
    List (PackageVersion → Outcome) → PackageVersion → List (Option AnalysisResult)
results_of [] pv = []
results_of (analyzer ∷ more) pv =
    let rest = results_of more pv in elim (analyzer pv) [ failed e ↦ rest | returned r ↦ r ∷ rest ]

-- The packages that are queued, and the results of the workers for them, in some order.
unfoldable pub queued : List TrustedPackage → List PackageVersion → List PackageVersion
queued tps [] = []
queued tps (pv ∷ pvs) =
    let rest = queued tps pvs in if is_trusted tps (some pv) then rest else pv ∷ rest

unfoldable pub all_results :
    List (PackageVersion → Outcome) → List PackageVersion → List (Option AnalysisResult)
unfolding results_of
all_results analyzers [] = []
all_results analyzers (pv ∷ pvs) = results_of analyzers pv ++ all_results analyzers pvs

unfoldable pub trusted_count : List TrustedPackage → List PackageVersion → ℕ
trusted_count tps [] = 0
trusted_count tps (pv ∷ pvs) =
    let rest = trusted_count tps pvs in if is_trusted tps (some pv) then rest + 1 else rest

-- Without a worker nothing is analyzed.
unfoldable pub worker_results :
    GuardConfig → World → List PackageVersion → List (Option AnalysisResult)
unfolding queued all_results
worker_results cfg w pvs =
    if cfg.max_concurrent_analyzes == 0 then [] else all_results w.analyzers (queued w.trusted pvs)

-- `concurrentAnalyzePackages`: `none` is the timeout.
unfoldable pub concurrent_analyze :
    GuardConfig → World → List PackageVersion → Option (List (Option AnalysisResult) × ℕ)
unfolding worker_results trusted_count
concurrent_analyze cfg w pvs =
    if w.too_slow
    then none
    else some (w.arrive (worker_results cfg w pvs), trusted_count w.trusted pvs)

-- The loop over the results, up to the first that blocks; with those that ask for confirmation.
pub data Scan : Type 0 where
  crashed : Scan
  blocked_by : AnalysisResult → GuardResult → Scan
  finished : GuardResult → List AnalysisResult → Scan

abbrev pub is_confirm : AnalysisResult → Bool
is_confirm r = elim r.action [ confirm ↦ true | _ ↦ false ]

unfoldable pub scan : List (Option AnalysisResult) → GuardResult → List AnalysisResult → Scan
scan [] g asks = finished g asks
scan (none ∷ rs) g asks = crashed
scan (some r ∷ rs) g asks =
    let later = scan rs g (asks ++ r ∷ []) in
    let passed = scan rs (record g { allowed_count = g.allowed_count + 1 }) asks in
    if is_block r
    then blocked_by r (record g {
      blocked_count = g.blocked_count + 1;
      blocked_packages = g.blocked_packages ++ r ∷ [];
    })
    else if is_confirm r
    then later
    else passed

-- The two loops over the packages that asked.
unfoldable pub block_all : List AnalysisResult → GuardResult → Log → GuardResult × Log
unfolding log_malware_detection
block_all [] g l = (record g { was_user_cancelled = true }, l)
block_all (r ∷ rs) g l =
    block_all rs
      (record g {
        blocked_count = g.blocked_count + 1;
        blocked_packages = g.blocked_packages ++ r ∷ [];
      })
      (log_malware_detection r true l)

unfoldable pub confirm_all : List AnalysisResult → GuardResult → Log → GuardResult × Log
unfolding log_malware_detection
confirm_all [] g l = (g, l)
confirm_all (r ∷ rs) g l =
    confirm_all rs
      (record g {
        confirmed_count = g.confirmed_count + 1;
        confirmed_packages = g.confirmed_packages ++ r ∷ [];
      })
      (log_malware_detection r false l)

-- `getConfirmationOnMalware`: without a handler the answer is no.
unfoldable pub ask : Option (List AnalysisResult → Option Bool) → List AnalysisResult → Option Bool
ask none rs = some false
ask (some handler) rs = handler rs

-- The answer to the question, with the events that are logged before the command is run.
unfoldable pub after_answer : Option Bool → List AnalysisResult → GuardResult → Log → Log → Ending
unfolding block_all confirm_all
after_answer none asks g l allowed = in_error no_confirmation g l
after_answer (some false) asks g l allowed = let (h, m) = block_all asks g l in stopped h m
after_answer (some true) asks g l allowed =
    let (h, m) = confirm_all asks g l in continued h (m ++ allowed)

unfoldable pub after_scan : World → Scan → Log → Log → Ending
unfolding log_malware_detection ask
after_scan w crashed l allowed = panicked
after_scan w (blocked_by r g) l allowed = stopped g (log_malware_detection r true l)
after_scan w (finished g []) l allowed = continued g (l ++ allowed)
after_scan w (finished g (r ∷ asks)) l allowed =
    after_answer (ask w.confirmation (r ∷ asks)) (r ∷ asks) g l allowed

-- What `Run` and `handleManifestInstallation` do with the packages to analyze.
unfoldable pub judge : GuardConfig → World → List PackageVersion → Log → Log → Ending
unfolding concurrent_analyze scan
judge cfg w pvs l allowed = elim (concurrent_analyze cfg w pvs) [
  | none ↦ in_error timed_out empty_result l
  | some (results, skipped) ↦
      after_scan w
        (scan results
          (record empty_result { total_analyzed = length pvs; trusted_skipped = skipped }) [])
        l allowed
]
