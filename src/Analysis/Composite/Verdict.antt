-- ===== src/Analysis/Composite/Verdict.antt =====
-- What the verdict of `compositeAnalyzer.Analyze` in analyzer/composite.go depends on.
use pmg.Prelude.{
  ◌≡◌, Bool, true, false, not, ◌&&◌, ◌||◌, Option, none, some, List, [], ◌∷◌, Bool-cases, is_some,
  any, arith, inl, inr,
}
use pmg.Analysis.{PackageVersion, AnalysisResult, Outcome, failed, returned}
use pmg.Analysis.Composite.{
  Seen, nothing_seen, is_block, is_malware_block, note, collect, conclude, analyze,
}

-- An outcome that asks to block.
abbrev pub is_blocking : Outcome → Bool
is_blocking (failed e) = false
is_blocking (returned none) = false
is_blocking (returned (some r)) = is_block r

-- An outcome that leaves the detection partial: an error, or a degraded result.
abbrev pub is_partial : Outcome → Bool
is_partial (failed e) = true
is_partial (returned none) = false
is_partial (returned (some r)) = not (is_block r) && r.degraded

abbrev Holds : (AnalysisResult → Type 0) → Option AnalysisResult → Type 0
Holds P none = Unit
Holds P (some r) = P r

-- What the loop keeps apart: results that block and results that do not.
abbrev IsSorted : Seen → Type 0
IsSorted s =
    Holds (λ r. is_block r ≡ true) s.first_block × Holds (λ r. is_block r ≡ false) s.first_allow

note-IsSorted : (o : Outcome) (s : Seen) → IsSorted s → IsSorted (note o s)
note-IsSorted (failed e) s h = h
note-IsSorted (returned none) s h = h
note-IsSorted (returned (some r)) s h = ground arith

is_block-conclude :
    (p : Bool) (pv : PackageVersion) (s : Seen)
    → IsSorted s
    → is_block (conclude p pv s) ≡ (is_some s.first_block || (s.seen_degraded && p))
unfolding conclude
is_block-conclude p pv s h = ground arith

is_block-collect :
    (p : Bool) (pv : PackageVersion) (os : List Outcome) (s : Seen)
    → IsSorted s
    → is_block (collect p pv s os) ≡ (
        (is_some s.first_block || any is_blocking os)
        || ((s.seen_degraded || any is_partial os) && p))
unfolding collect
is_block-collect p pv [] s h = ground (arith, is_block-conclude p pv s h)
is_block-collect p pv (failed e ∷ os) s h =
    ground (arith, is_block-collect p pv os (note (failed e) s) h)
is_block-collect p pv (returned none ∷ os) s h = ground (arith, is_block-collect p pv os s h)
is_block-collect p pv (returned (some r) ∷ os) s h = ground (
  arith,
  is_block-collect p pv os (note (returned (some r)) s) (note-IsSorted (returned (some r)) s h),
)

-- With two analyzers or more, the composite blocks exactly when one of them asks to block, or when
-- paranoid mode is on and one of them failed or reports a degraded check.
pub is_blocking-analyze :
    (p : Bool) (pv : PackageVersion) (o q : Outcome) (os : List Outcome)
    → is_blocking (analyze p pv (o ∷ q ∷ os))
      ≡ (any is_blocking (o ∷ q ∷ os) || (any is_partial (o ∷ q ∷ os) && p))
unfolding analyze
is_blocking-analyze p pv o q os = is_block-collect p pv (o ∷ q ∷ os) nothing_seen (tt, tt)

-- A block that the loop keeps is no malware verdict: that one returns at once.
abbrev KeepsNoMalware : Seen → Type 0
KeepsNoMalware s = Holds (λ r. r.is_malware ≡ false) s.first_block

note-KeepsNoMalware :
    (r : AnalysisResult) (s : Seen)
    → (is_block r && r.is_malware) ≡ false
    → KeepsNoMalware s
    → KeepsNoMalware (note (returned (some r)) s)
note-KeepsNoMalware r s e k = ground arith

is_malware_block-collect :
    (p : Bool) (pv : PackageVersion) (os : List Outcome) (s : Seen)
    → IsSorted s
    → KeepsNoMalware s
    → is_malware_block (returned (some (collect p pv s os))) ≡ any is_malware_block os
unfolding collect
is_malware_block-collect p pv [] s h k = ground arith
is_malware_block-collect p pv (failed e ∷ os) s h k =
    is_malware_block-collect p pv os (note (failed e) s) h k
is_malware_block-collect p pv (returned none ∷ os) s h k = is_malware_block-collect p pv os s h k
is_malware_block-collect p pv (returned (some r) ∷ os) s h k =
    elim (Bool-cases (is_block r && r.is_malware)) [
      | inl e ↦ ground arith
      | inr e ↦ rw e (
          is_malware_block-collect p pv os (note (returned (some r)) s)
            (note-IsSorted (returned (some r)) s h) (note-KeepsNoMalware r s e k))
    ]

-- With two analyzers or more, the composite returns a malware block exactly when one of them does:
-- neither a policy block nor an allow, wherever it stands in the order, hides it.
pub is_malware_block-analyze :
    (p : Bool) (pv : PackageVersion) (o q : Outcome) (os : List Outcome)
    → is_malware_block (analyze p pv (o ∷ q ∷ os)) ≡ any is_malware_block (o ∷ q ∷ os)
unfolding analyze
is_malware_block-analyze p pv o q os =
    is_malware_block-collect p pv (o ∷ q ∷ os) nothing_seen (tt, tt) tt
