-- ===== src/Registry/Interceptor.antt =====
-- proxy/interceptors/base_registry.go: the analysis of a package behind the cache and a circuit
-- breaker, and what the proxy answers. The breaker belongs to a library: `enter` says whether a call
-- is admitted, `leave` is told whether it succeeded. The analyzer's outcome and the user's reply are
-- arguments of a request. The call of `result.Action` on a nil result panics.
pub mod Downloads
pub mod Overlaps
pub mod Steps
pub mod Runs
pub mod Totals
use pmg.Prelude.{
  ℕ, Bool, true, false, Option, none, some, Text, codes, List, [], ◌∷◌, ◌++◌, if◌then◌else◌,
}
use pmg.Prelude.Result.{Result, ok, err}
use pmg.Analysis.{
  Ecosystem, npm, pypi, other, PackageVersion, Action, unknown, allow, confirm, block,
  AnalysisResult, with_action, AnalyzerError, not_found, failure, Outcome, failed, returned,
}
use pmg.Trusted.{TrustedPackage, is_trusted}
use pmg.Audit.{
  AuditEvent, Log, report, install_insecure_bypass, install_trusted_allowed, install_allowed,
  malware_blocked, malware_confirmed,
}
use pmg.Registry.Cache.{Cache, get, set}
use pmg.Registry.Stats.{StatsCollector, Call, allowed, blocked, user_cancelled, confirmed, perform}

-- The name of the enum's value.
abbrev pub eco_name : Ecosystem → Text
eco_name npm = codes "ECOSYSTEM_NPM"
eco_name pypi = codes "ECOSYSTEM_PYPI"
eco_name (other e) = e

-- The fields of the configuration that are read; the trusted packages are preprocessed.
pub record Config : Type 0 where
  pub insecure : Bool
  pub trusted : List TrustedPackage
  pub cooldown_enabled : Bool
  pub cooldown_days : ℕ

pub record Breaker (B : Type 0) : Type 0 where
  pub enter : B → B × Bool
  pub leave : Bool → B → B

pub record State (B : Type 0) : Type 0 where
  pub cache : Cache (Option AnalysisResult)
  pub collector : Option StatsCollector
  pub log : Log
  pub breaker : B

-- The result of code that may panic.
pub data Run {ℓ} (A : Type ℓ) : Type ℓ where
  panicked : Run A
  done : A → Run A

-- What the confirmation handler does with a request: whether the channel takes it in time, and the
-- reply, if one comes in time.
pub record Prompt : Type 0 where
  pub taken : Bool
  pub reply : Option Bool

pub data PromptError : Type 0 where
  not_taken no_reply : PromptError

unfoldable pub request_user_confirmation : Prompt → Result PromptError Bool
request_user_confirmation p =
    if p.taken then elim p.reply [ none ↦ err no_reply | some b ↦ ok b ] else err not_taken

-- HTTP headers: the values of each name.
abbrev pub Headers : Type 0
Headers = Cache (List Text)

-- A response is modified by the handler of a package's metadata, which holds the package's name, the
-- days of the window and the pinned version; the request's headers are changed too.
pub data Response : Type 0 where
  allow_request : Response
  block_request : (code : ℕ) → (message : Text) → Response
  modify_response : Headers → (name : Text) → (days : ℕ) → (pinned : Text) → Response

abbrev describe : Ecosystem → Text → Text → Text
describe eco name version = eco_name eco ++ codes "/" ++ name ++ codes "@" ++ version

abbrev with_reason : Text → AnalysisResult → Text
with_reason m r =
    m ++ codes "\n\nReason: " ++ r.summary ++ codes "\n\nReference: " ++ r.reference_url

abbrev blocked_event : AnalysisResult → AuditEvent
blocked_event r =
    malware_blocked r.package_version r.summary r.analysis_id r.reference_url r.is_malware
      r.is_verified

-- The function under the breaker: gRPC's NotFound is an allow.
unfoldable pub call_analyzer : PackageVersion → Outcome → Outcome
call_analyzer pv (failed not_found) = returned (some (with_action pv allow))
call_analyzer pv (failed failure) = failed failure
call_analyzer pv (returned r) = returned r

abbrev pub new_version : Ecosystem → Text → Text → PackageVersion
new_version eco name version = record { ecosystem = eco; name = name; version = version }

-- `if b.statsCollector != nil { … }`
abbrev pub tally : Call → Option StatsCollector → Option StatsCollector
tally k none = none
tally k (some c) = some (perform k c)

module _ {B : Type 0} where
  abbrev pub count : Call → State B → State B
  count k s = record s { collector = tally k s.collector }

  abbrev pub audit : AuditEvent → State B → State B
  audit e s = record s { log = report e s.log }

  -- `circuitBreaker.Execute`: a call that is not admitted is an error.
  unfoldable pub execute : Breaker B → Outcome → B → B × Outcome
  execute br (failed e) b =
      let (entered, admitted) = br.enter b in
      if admitted then (br.leave false entered, failed e) else (entered, failed failure)
  execute br (returned r) b =
      let (entered, admitted) = br.enter b in
      if admitted then (br.leave true entered, returned r) else (entered, failed failure)

  -- After the breaker: an error is returned, a result is cached.
  unfoldable pub store : Text → Text → Text → Outcome → State B → State B × Run Outcome
  store eco name version (failed e) s = (s, done (failed e))
  store eco name version (returned none) s =
      (record s { cache = set eco name version none s.cache }, panicked)
  store eco name version (returned (some r)) s =
      (record s { cache = set eco name version (some r) s.cache }, done (returned (some r)))

  unfoldable pub analyze_package :
      Breaker B → Config → Ecosystem → Text → Text → Outcome → State B → State B × Run Outcome
  unfolding execute store call_analyzer
  analyze_package br cfg eco name version outcome s =
      let pv = new_version eco name version in
      let (b, result) = execute br (call_analyzer pv outcome) s.breaker in
      if cfg.insecure
      then (audit (install_insecure_bypass pv) s, done (returned (some (with_action pv allow))))
      else if is_trusted cfg.trusted (some pv)
      then (audit (install_trusted_allowed pv) s, done (returned (some (with_action pv allow))))
      else elim (get (eco_name eco) name version s.cache) [
        | some cached ↦ (s, done (returned cached))
        | none ↦ store (eco_name eco) name version result (record s { breaker = b })
      ]

  -- The case of `ActionConfirm`.
  unfoldable pub handle_confirm :
      Ecosystem
      → Text
      → Text
      → Result PromptError Bool
      → AnalysisResult
      → State B
      → State B × Response
  handle_confirm eco name version (err e) r s = (
    count (blocked (some r)) s,
    block_request 403 (
        codes "Failed to get user confirmation for suspicious package "
        ++ describe eco name version),
  )
  handle_confirm eco name version (ok false) r s = (
    count (user_cancelled (some r)) (audit (blocked_event r) s),
    block_request 403
        (with_reason (codes "Installation blocked by user: " ++ describe eco name version) r),
  )
  handle_confirm eco name version (ok true) r s = (
    count (confirmed (some r)) (
        audit (install_allowed r.package_version 1)
          (audit (malware_confirmed r.package_version r.analysis_id r.is_malware r.is_verified) s)),
    allow_request,
  )

  -- `handleAnalysisResult`; the last two cases of the source do the same.
  unfoldable pub handle_analysis_result :
      Ecosystem → Text → Text → Prompt → AnalysisResult → State B → State B × Response
  unfolding handle_confirm request_user_confirmation
  handle_analysis_result eco name version p r s = elim r.action [
    | block ↦ (
      count (blocked (some r)) (audit (blocked_event r) s),
      block_request 403
          (with_reason (codes "Malicious package blocked: " ++ describe eco name version) r),
    )
    | confirm ↦ handle_confirm eco name version (request_user_confirmation p) r s
    | allow ↦
        (count (allowed (some r)) (audit (install_allowed r.package_version 1) s), allow_request)
    | unknown ↦
        (count (allowed (some r)) (audit (install_allowed r.package_version 1) s), allow_request)
  ]

  -- What `HandleRequest` does after the URL is parsed: an analysis that failed allows the request.
  unfoldable pub answer :
      Ecosystem → Text → Text → Prompt → State B × Run Outcome → State B × Run Response
  answer eco name version p (s, panicked) = (s, panicked)
  answer eco name version p (s, done (failed e)) = (s, done allow_request)
  answer eco name version p (s, done (returned none)) = (s, panicked)
  answer eco name version p (s, done (returned (some r))) =
      let (t, response) = handle_analysis_result eco name version p r s in (t, done response)

  unfoldable pub handle_download :
      Breaker B
      → Config
      → Ecosystem
      → Text
      → Text
      → Outcome
      → Prompt
      → State B
      → State B × Run Response
  unfolding answer
  handle_download br cfg eco name version outcome p s =
      answer eco name version p (analyze_package br cfg eco name version outcome s)

-- One request of a package's file: what the analyzer and the user would say.
pub record Download : Type 0 where
  pub ecosystem : Ecosystem
  pub name : Text
  pub version : Text
  pub outcome : Outcome
  pub prompt : Prompt

module _ {B : Type 0} where
  abbrev pub download : Breaker B → Config → Download → State B → State B × Run Response
  download br cfg d s = handle_download br cfg d.ecosystem d.name d.version d.outcome d.prompt s

  -- Requests that are taken one after the other; those that overlap are not expressed, though the
  -- source holds no lock between the look-up in the cache and the storing of a result.
  unfoldable pub run_all : Breaker B → Config → List Download → State B → State B
  run_all br cfg [] s = s
  run_all br cfg (d ∷ ds) s = run_all br cfg ds ((download br cfg d s).0)
