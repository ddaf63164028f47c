-- ===== src/Analysis/Composite/Order.antt =====
-- The order in which the outcomes reach the loop of analyzer/composite.go: what it cannot change,
-- and what it decides.
use mathlib.Core.List.{Perm}
use pmg.Prelude.{
  ◌≡◌, refl, sym, ◌∙◌, ap₂, Bool, true, false, ◌&&◌, ◌||◌, some, List, [], ◌∷◌, any-perm, arith,
}
use pmg.Analysis.{
  PackageVersion, allow, confirm, AnalysisResult, with_action, Outcome, returned, Reply, classify,
}
use pmg.Analysis.Composite.{is_block, is_malware_block, analyze}
use pmg.Analysis.Composite.Verdict.{
  is_blocking, is_partial, is_blocking-analyze, is_malware_block-analyze,
}

-- Whether the composite blocks, and whether it blocks for malware, are the same for every order in
-- which the outcomes of two analyzers or more arrive.
pub analyze-perm :
    (p : Bool) (pv : PackageVersion) {o q o' q' : Outcome} {os os' : List Outcome}
    → Perm (o ∷ q ∷ os) (o' ∷ q' ∷ os')
    → (is_blocking (analyze p pv (o ∷ q ∷ os)) ≡ is_blocking (analyze p pv (o' ∷ q' ∷ os')))
      × (is_malware_block (analyze p pv (o ∷ q ∷ os))
          ≡ is_malware_block (analyze p pv (o' ∷ q' ∷ os')))
analyze-perm p pv {o} {q} {o'} {q'} {os} {os'} h = (
  is_blocking-analyze p pv o q os
      ∙ ap₂ (λ a b. a || (b && p)) (any-perm is_blocking h) (any-perm is_partial h)
      ∙ sym (is_blocking-analyze p pv o' q' os'),
  is_malware_block-analyze p pv o q os
      ∙ any-perm is_malware_block h
      ∙ sym (is_malware_block-analyze p pv o' q' os'),
)

-- Where neither of two results blocks, and paranoid mode is off or neither is degraded, the
-- composite returns whichever arrived first: a request for confirmation is dropped when an allow
-- arrives before it.
pub analyze_race :
    (p : Bool) (pv : PackageVersion) (a b : AnalysisResult)
    → is_block a ≡ false
    → is_block b ≡ false
    → ((a.degraded || b.degraded) && p) ≡ false
    → (analyze p pv (returned (some a) ∷ returned (some b) ∷ []) ≡ returned (some a))
      × (analyze p pv (returned (some b) ∷ returned (some a) ∷ []) ≡ returned (some b))
unfolding analyze
analyze_race p pv a b ha hb hd = (ground arith, ground arith)

-- A reply that suspects malware but is not verified asks for confirmation outside paranoid mode.
classify_suspicious :
    (pv : PackageVersion) (r : Reply)
    → r.inference_malware ≡ true
    → r.verified_malware ≡ false
    → ((classify false pv r).action ≡ confirm) × ((classify false pv r).degraded ≡ false)
unfolding classify
classify_suspicious pv r hi hv = ground arith

-- The case that matters: a reply that suspects malware but is not verified asks for confirmation
-- outside paranoid mode, and the composite still allows the package when another analyzer's plain
-- allow arrives first.
pub analyze-classify_race :
    (pv : PackageVersion) (r : Reply)
    → r.inference_malware ≡ true
    → r.verified_malware ≡ false
    → ((classify false pv r).action ≡ confirm)
      × (analyze false pv
            (returned (some (classify false pv r)) ∷ returned (some (with_action pv allow)) ∷ [])
          ≡ returned (some (classify false pv r)))
      × (analyze false pv
            (returned (some (with_action pv allow)) ∷ returned (some (classify false pv r)) ∷ [])
          ≡ returned (some (with_action pv allow)))
analyze-classify_race pv r hi hv =
    let (asks, whole) = classify_suspicious pv r hi hv in
    let race =
      analyze_race false pv (classify false pv r) (with_action pv allow) (ground arith) refl
        (ground arith) in
    (asks, race.0, race.1)
