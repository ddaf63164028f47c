-- ===== src/Tests/AnalysisTests.antt =====
-- Verdicts of analyzer/ on concrete outcomes.
use mathlib.Core.List.{Permᴰ}
use pmg.Prelude.{◌≡◌, refl, true, false, some, [], ◌∷◌, codes}
use pmg.Analysis.{
  npm, PackageVersion, allow, confirm, block, AnalysisResult, with_action, Outcome, failed,
  returned, not_found, Reply, classify,
}
use pmg.Analysis.Composite.{is_malware_block, analyze}
use pmg.Analysis.Composite.Verdict.{is_blocking, is_blocking-analyze, is_malware_block-analyze}
use pmg.Analysis.Composite.Order.{analyze-perm, analyze-classify_race}

abbrev left_pad : PackageVersion
left_pad = record { ecosystem = npm; name = codes "left-pad"; version = codes "1.3.0" }

abbrev malware : AnalysisResult
malware = record (with_action left_pad block) { is_malware = true }

abbrev suspicious : Reply
suspicious = record {
  reply_id = codes "a1";
  inference_summary = codes "odd";
  inference_malware = true;
  verified_malware = false;
}

-- A policy block that arrives before a malware block gives way to it.
malware_after_policy :
    analyze false left_pad
      (returned (some (with_action left_pad block)) ∷ returned (some malware) ∷ [])
    ≡ returned (some malware)
unfolding analyze
malware_after_policy = refl

verified_is_blocked :
    (classify false left_pad (record suspicious { verified_malware = true })).action ≡ block
unfolding classify
verified_is_blocked = refl

is_blocking-analyze_example :
    is_blocking
      (analyze true left_pad (failed not_found ∷ returned (some (with_action left_pad allow)) ∷ []))
    ≡ true
is_blocking-analyze_example =
    is_blocking-analyze true left_pad (failed not_found)
      (returned (some (with_action left_pad allow))) []

is_malware_block-analyze_example :
    is_malware_block (
      analyze false left_pad
        (returned (some (with_action left_pad block)) ∷ returned (some malware) ∷ []))
    ≡ true
is_malware_block-analyze_example =
    is_malware_block-analyze false left_pad (returned (some (with_action left_pad block)))
      (returned (some malware)) []

abbrev one : Outcome
one = returned (some (with_action left_pad allow))

abbrev two : Outcome
two = returned (some malware)

analyze-perm_example :
    (is_blocking (analyze true left_pad (one ∷ two ∷ []))
      ≡ is_blocking (analyze true left_pad (two ∷ one ∷ [])))
    × (is_malware_block (analyze true left_pad (one ∷ two ∷ []))
        ≡ is_malware_block (analyze true left_pad (two ∷ one ∷ [])))
analyze-perm_example = analyze-perm true left_pad ∣ Permᴰ.swap refl refl ∣₁

analyze-classify_race_example :
    ((classify false left_pad suspicious).action ≡ confirm)
    × (analyze false left_pad (
          returned (some (classify false left_pad suspicious))
          ∷ returned (some (with_action left_pad allow))
          ∷ [])
        ≡ returned (some (classify false left_pad suspicious)))
    × (analyze false left_pad (
          returned (some (with_action left_pad allow))
          ∷ returned (some (classify false left_pad suspicious))
          ∷ [])
        ≡ returned (some (with_action left_pad allow)))
analyze-classify_race_example = analyze-classify_race left_pad suspicious refl refl
