-- ===== src/Guard/Judgement.antt =====
-- When the guard of guard/guard.go goes on with the command after the analysis.
use mathlib.Core.List.{Perm}
use pmg.Prelude.{
  ◌≡◌, refl, ap, ap₂, ◌∙◌, Bool, true, false, not, ◌&&◌, ◌||◌, Option, none, some, is_empty, List,
  [], ◌∷◌, ◌++◌, length, any, any-perm, Bool-cases, inl, inr, ◌+◌, arith,
}
use pmg.Analysis.{PackageVersion, AnalysisResult}
use pmg.Analysis.Composite.{is_block}
use pmg.Audit.{Log}
use pmg.Guard.{
  GuardConfig, GuardResult, empty_result, trusted_count, is_continued, World, worker_results,
  concurrent_analyze, is_confirm, Scan, scan, ask, after_answer, after_scan, judge,
}

-- A result that stops the command: it blocks, or it is nil and the guard panics on it.
abbrev pub is_harmful : Option AnalysisResult → Bool
is_harmful none = true
is_harmful (some r) = is_block r

-- A result that asks for confirmation.
abbrev pub is_asking : Option AnalysisResult → Bool
is_asking none = false
is_asking (some r) = is_confirm r

abbrev pub says_yes : Option Bool → Bool
says_yes none = false
says_yes (some b) = b

is_continued-after_answer :
    (o : Option Bool) (rs : List AnalysisResult) (g : GuardResult) (l a : Log)
    → is_continued (after_answer o rs g l a) ≡ says_yes o
unfolding after_answer
is_continued-after_answer none rs g l a = refl
is_continued-after_answer (some true) rs g l a = refl
is_continued-after_answer (some false) rs g l a = refl

module _ (w : World) (reply : Option Bool)
    (same : (rs : List AnalysisResult) → ask w.confirmation rs ≡ reply) (l a : Log) where
  is_continued-finished :
      (g : GuardResult) (asks : List AnalysisResult)
      → is_continued (after_scan w (Scan.finished g asks) l a) ≡ (is_empty asks || says_yes reply)
  unfolding after_scan
  is_continued-finished g [] = refl
  is_continued-finished g (r ∷ asks) =
      is_continued-after_answer (ask w.confirmation (r ∷ asks)) (r ∷ asks) g l a
      ∙ ap says_yes (same (r ∷ asks))

  is_empty-more :
      (asks : List AnalysisResult) (r : AnalysisResult) → is_empty (asks ++ r ∷ []) ≡ false
  is_empty-more [] r = refl
  is_empty-more (x ∷ asks) r = refl

  is_continued-scan :
      (rs : List (Option AnalysisResult)) (g : GuardResult) (asks : List AnalysisResult)
      → is_continued (after_scan w (scan rs g asks) l a)
        ≡ (not (any is_harmful rs) && ((is_empty asks && not (any is_asking rs)) || says_yes reply))
  unfolding scan after_scan
  is_continued-scan [] g asks = is_continued-finished g asks ∙ ground arith
  is_continued-scan (none ∷ rs) g asks = refl
  is_continued-scan (some r ∷ rs) g asks = elim (Bool-cases (is_block r)) [
    | inl b ↦ rw b refl
    | inr b ↦ elim (Bool-cases (is_confirm r)) [
      | inl c ↦
          rw (b, c) (is_continued-scan rs g (asks ++ r ∷ []) ∙ ground (arith, is_empty-more asks r))
      | inr c ↦
          rw (b, c)
            (is_continued-scan rs (record g { allowed_count = g.allowed_count + 1 }) asks
              ∙ ground arith)
    ]
  ]

  is_continued-judge :
      (cfg : GuardConfig) (pvs : List PackageVersion)
      → is_continued (judge cfg w pvs l a) ≡ (
          not w.too_slow
          && (not (any is_harmful (w.arrive (worker_results cfg w pvs)))
              && (not (any is_asking (w.arrive (worker_results cfg w pvs))) || says_yes reply)))
  unfolding judge concurrent_analyze
  is_continued-judge cfg pvs = ground (
    arith,
    is_continued-scan (w.arrive (worker_results cfg w pvs))
        (record empty_result {
          total_analyzed = length pvs;
          trusted_skipped = trusted_count w.trusted pvs;
        })
        [],
  )

-- After the analysis the command goes on exactly if it did not take too long, no result of an
-- analyzer for a queued package blocks (or is nil), and none asks for a confirmation unless the user
-- says yes; in whatever order the workers' results arrive, for a user whose reply does not depend
-- on the packages shown.
pub judge_lem :
    (w : World) (reply : Option Bool)
    → ((rs : List AnalysisResult) → ask w.confirmation rs ≡ reply)
    → ((xs : List (Option AnalysisResult)) → Perm (w.arrive xs) xs)
    → (cfg : GuardConfig) (pvs : List PackageVersion) (l a : Log)
    → is_continued (judge cfg w pvs l a) ≡ (
        not w.too_slow
        && (not (any is_harmful (worker_results cfg w pvs))
            && (not (any is_asking (worker_results cfg w pvs)) || says_yes reply)))
judge_lem w reply same shuffled cfg pvs l a =
    let p = shuffled (worker_results cfg w pvs) in
    is_continued-judge w reply same l a cfg pvs
    ∙ ap₂ (λ h k. not w.too_slow && (not h && (not k || says_yes reply))) (any-perm is_harmful p)
        (any-perm is_asking p)
