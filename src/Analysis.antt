-- ===== src/Analysis.antt =====
-- analyzer/analyzer.go and analyzer/malysis_query.go: package versions, what an analysis of one
-- returns, and how the reply of the malware service becomes a verdict.
pub mod Composite
pub mod Aikido
use pmg.Prelude.{ℕ, Bool, true, false, Option, none, some, Text, codes, List, ◌++◌, if◌then◌else◌}

-- The protobuf enum; `other` carries the enum's name.
pub data Ecosystem : Type 0 where
  npm pypi : Ecosystem
  other : Text → Ecosystem

pub record PackageVersion : Type 0 where
  pub ecosystem : Ecosystem
  pub name : Text
  pub version : Text

pub data Action : Type 0 where
  unknown allow confirm block : Action

-- Less the analyzer-specific `Data`.
pub record AnalysisResult : Type 0 where
  pub package_version : Option PackageVersion
  pub analysis_id : Text
  pub reference_url : Text
  pub action : Action
  pub summary : Text
  pub is_malware : Bool
  pub is_verified : Bool
  pub degraded : Bool

-- `&PackageVersionAnalysisResult{PackageVersion: pv, Action: action}`
abbrev pub with_action : PackageVersion → Action → AnalysisResult
with_action pv a = record {
  package_version = some pv;
  analysis_id = codes "";
  reference_url = codes "";
  action = a;
  summary = codes "";
  is_malware = false;
  is_verified = false;
  degraded = false;
}

-- An error of an analyzer: gRPC's NotFound, or any other.
pub data AnalyzerError : Type 0 where
  not_found failure : AnalyzerError

-- What `Analyze` returns: an error, or a result that may be nil.
pub data Outcome : Type 0 where
  failed : AnalyzerError → Outcome
  returned : Option AnalysisResult → Outcome

-- The fields of the reply of QueryPackageAnalysis that are read.
pub record Reply : Type 0 where
  pub reply_id : Text
  pub inference_summary : Text
  pub inference_malware : Bool
  pub verified_malware : Bool

abbrev report_url : Text → Text
report_url id = codes "https://app.safedep.io/community/malysis/" ++ id

-- The verdict of the malware service's reply.
unfoldable pub classify : Bool → PackageVersion → Reply → AnalysisResult
classify paranoid pv r =
    let base = record (with_action pv allow) {
      reference_url = report_url r.reply_id;
      analysis_id = r.reply_id;
      summary = r.inference_summary;
    } in
    let inferred =
      if r.inference_malware
      then record base { is_malware = true; action = if paranoid then block else confirm }
      else base in
    if r.verified_malware
    then record inferred { is_malware = true; is_verified = true; action = block }
    else inferred

-- What querying the service returns.
pub data QueryResult : Type 0 where
  replied : Reply → QueryResult
  query_failed : AnalyzerError → QueryResult

-- `malysisQueryAnalyzer.Analyze`: the service is a parameter. Its error is wrapped, so its kind can
-- still be told.
unfoldable pub malysis_analyze : Bool → (PackageVersion → QueryResult) → PackageVersion → Outcome
unfolding classify
malysis_analyze paranoid query pv = elim (query pv) [
  | query_failed e ↦ failed e
  | replied r ↦ returned (some (classify paranoid pv r))
]
