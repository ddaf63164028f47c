-- ===== src/Analysis/Composite.antt =====
-- analyzer/composite.go: the analyzers run in parallel and one loop reads their outcomes in the
-- order in which they arrive. The order is an argument here; the theorems are about all orders.
pub mod Verdict
pub mod Order
use pmg.Prelude.{
  Bool, true, false, ◌&&◌, ◌||◌, Option, none, some, Text, codes, List, [], ◌∷◌, if◌then◌else◌,
}
use pmg.Analysis.{
  PackageVersion, Action, unknown, allow, confirm, block, AnalysisResult, with_action, Outcome,
  failed, returned,
}

-- The variables of the loop.
pub record Seen : Type 0 where
  pub first_allow : Option AnalysisResult
  pub first_block : Option AnalysisResult
  pub seen_degraded : Bool

abbrev pub nothing_seen : Seen
nothing_seen = record { first_allow = none; first_block = none; seen_degraded = false }

abbrev pub is_block : AnalysisResult → Bool
is_block r = elim r.action [ block ↦ true | _ ↦ false ]

abbrev keep_first : Option AnalysisResult → Option AnalysisResult → Option AnalysisResult
keep_first none r = r
keep_first (some old) r = some old

abbrev degraded_result : Option AnalysisResult → Bool
degraded_result none = false
degraded_result (some r) = r.degraded

-- One round for an outcome that does not return from the function.
abbrev note : Outcome → Seen → Seen
note (failed e) s = record s { seen_degraded = true }
note (returned none) s = s
note (returned (some r)) s =
    if is_block r then record s { first_block = keep_first s.first_block (some r) } else record s {
      seen_degraded = s.seen_degraded || r.degraded;
      first_allow = keep_first s.first_allow (some r);
    }

abbrev pub degraded_summary : Text
degraded_summary =
    codes "malware detection degraded (feed/analyzer unavailable); blocked under paranoid mode"

-- After the loop.
unfoldable pub conclude : Bool → PackageVersion → Seen → AnalysisResult
conclude paranoid pv s = elim s.first_block [
  | some r ↦ r
  | none ↦
      if s.seen_degraded && paranoid
      then record (with_action pv block) { summary = degraded_summary }
      else elim s.first_allow [ some r ↦ r | none ↦ with_action pv allow ]
]

-- `IsMalware` and `ActionBlock`: the function returns at once.
abbrev pub is_malware_block : Outcome → Bool
is_malware_block (failed e) = false
is_malware_block (returned none) = false
is_malware_block (returned (some r)) = is_block r && r.is_malware

-- The loop over the channel.
unfoldable pub collect : Bool → PackageVersion → Seen → List Outcome → AnalysisResult
unfolding conclude
collect paranoid pv s [] = conclude paranoid pv s
collect paranoid pv s (failed e ∷ os) = collect paranoid pv (note (failed e) s) os
collect paranoid pv s (returned none ∷ os) = collect paranoid pv s os
collect paranoid pv s (returned (some r) ∷ os) =
    let rest = collect paranoid pv (note (returned (some r)) s) os in
    if is_block r && r.is_malware then r else rest

-- `Analyze`: no analyzer, one analyzer (its outcome is passed on), or several.
unfoldable pub analyze : Bool → PackageVersion → List Outcome → Outcome
unfolding collect
analyze paranoid pv [] = returned (some (with_action pv allow))
analyze paranoid pv (o ∷ []) = o
analyze paranoid pv (o ∷ p ∷ os) = returned (some (collect paranoid pv nothing_seen (o ∷ p ∷ os)))
