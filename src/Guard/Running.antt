-- ===== src/Guard/Running.antt =====
-- When `Run` of guard/guard.go runs the command of a package manager with install targets.
use mathlib.Core.List.{Perm}
use pmg.Prelude.{
  ◌≡◌, refl, ap, ◌∙◌, inl, inr, Bool, true, false, not, ◌&&◌, ◌||◌, Option, some, Text, is_empty,
  List, [], ◌∷◌, ◌++◌, any, Any, ◌==◌, if◌then◌else◌, Bool-cases, arith,
}
use pmg.Analysis.{PackageVersion, block, AnalysisResult, Outcome, returned}
use pmg.Analysis.Composite.{is_block}
use pmg.Trusted.{TrustedPackage, is_trusted}
use pmg.Audit.{Log}
use pmg.Guard.{
  GuardConfig, is_continued, World, ParsedCommand, GuardError, results_of, queued, all_results,
  worker_results, ask,
}
use pmg.Guard.Command.{Resolved, unresolved, resolved, resolve, judge_targets, started, run}
use pmg.Guard.Judgement.{is_harmful, is_asking, says_yes, judge_lem}

-- The packages of a command with install targets, with those that the resolution adds.
abbrev pub packages : GuardConfig → World → ParsedCommand → Resolved
packages cfg w pc =
    if cfg.resolve_dependencies
    then resolve w pc.install_targets
    else resolved pc.install_targets []

module _ (cfg : GuardConfig) (w : World) (pm : Option Text) (args : List Text)
    (pc : ParsedCommand) where
  run-insecure : cfg.insecure_installation ≡ true → is_continued (run cfg w pm args pc) ≡ true
  unfolding run
  run-insecure i = ground arith

  run-judge_targets :
      cfg.insecure_installation ≡ false
      → is_empty pc.install_targets ≡ false
      → run cfg w pm args pc ≡ judge_targets cfg w (packages cfg w pc) (started pm args)
  unfolding run
  run-judge_targets i t = ground arith

judge_targets-unresolved :
    (cfg : GuardConfig) (w : World) (e : GuardError) (l : Log)
    → is_continued (judge_targets cfg w (unresolved e) l) ≡ false
unfolding judge_targets
judge_targets-unresolved cfg w e l = refl

-- The packages are judged together, whatever is logged.
abbrev pub verdict : GuardConfig → World → Option Bool → List PackageVersion → Bool
verdict cfg w reply pvs =
    not w.too_slow
    && (not (any is_harmful (worker_results cfg w pvs))
        && (not (any is_asking (worker_results cfg w pvs)) || says_yes reply))

judge_targets-resolved :
    (cfg : GuardConfig) (w : World) (reply : Option Bool)
    → ((rs : List AnalysisResult) → ask w.confirmation rs ≡ reply)
    → ((xs : List (Option AnalysisResult)) → Perm (w.arrive xs) xs)
    → (ts ds : List PackageVersion) (l : Log)
    → is_continued (judge_targets cfg w (resolved ts ds) l) ≡ verdict cfg w reply (ts ++ ds)
unfolding judge_targets
judge_targets-resolved cfg w reply same shuffled ts ds l =
    judge_lem w reply same shuffled cfg (ts ++ ds) l _

-- An analyzer of the list returns the result for the package.
abbrev pub Returns : List (PackageVersion → Outcome) → PackageVersion → AnalysisResult → Type 0
Returns analyzers pv r = Any (λ analyzer. analyzer pv ≡ returned (some r)) analyzers

results_of-is_harmful :
    (analyzers : List (PackageVersion → Outcome)) (pv : PackageVersion) (r : AnalysisResult)
    → is_block r ≡ true
    → Returns analyzers pv r
    → any is_harmful (results_of analyzers pv) ≡ true
unfolding results_of
results_of-is_harmful [] pv r b h = absurd h
results_of-is_harmful (analyzer ∷ more) pv r b (inl e) = ground arith
results_of-is_harmful (analyzer ∷ more) pv r b (inr h) =
    ground (arith, results_of-is_harmful more pv r b h)

any-append {ℓ} :
    {A : Type ℓ} (test : A → Bool) (xs ys : List A)
    → any test (xs ++ ys) ≡ (any test xs || any test ys)
any-append test [] ys = refl
any-append test (x ∷ xs) ys = ground (arith, any-append test xs ys)

all_results-is_harmful :
    (analyzers : List (PackageVersion → Outcome)) (tps : List TrustedPackage)
    (pvs : List PackageVersion) (pv : PackageVersion) (r : AnalysisResult)
    → is_block r ≡ true
    → Returns analyzers pv r
    → is_trusted tps (some pv) ≡ false
    → Any (λ x. x ≡ pv) pvs
    → any is_harmful (all_results analyzers (queued tps pvs)) ≡ true
unfolding all_results queued
all_results-is_harmful analyzers tps [] pv r b h n m = absurd m
all_results-is_harmful analyzers tps (x ∷ pvs) pv r b h n (inl e) =
    rw (e, n)
      (any-append is_harmful (results_of analyzers pv) (all_results analyzers (queued tps pvs))
        ∙ ground (arith, results_of-is_harmful analyzers pv r b h))
all_results-is_harmful analyzers tps (x ∷ pvs) pv r b h n (inr m) =
    let rest = all_results-is_harmful analyzers tps pvs pv r b h n m in
    elim (Bool-cases (is_trusted tps (some x))) [
      | inl t ↦ rw t rest
      | inr t ↦ rw t (
          any-append is_harmful (results_of analyzers x) (all_results analyzers (queued tps pvs))
          ∙ ground arith)
    ]

-- One bad package stops the whole command: outside insecure mode and with a worker at least, a
-- command whose targets or their dependencies contain a package that is not trusted, and for which
-- some analyzer returns a block, is not run; whatever the other results are, in whatever order they
-- arrive, and for a user whose reply does not depend on the packages shown, whatever it is.
pub run-blocked :
    (cfg : GuardConfig) (w : World) (pm : Option Text) (args : List Text) (pc : ParsedCommand)
    (reply : Option Bool) (ts ds : List PackageVersion) (pv : PackageVersion) (r : AnalysisResult)
    → ((rs : List AnalysisResult) → ask w.confirmation rs ≡ reply)
    → ((xs : List (Option AnalysisResult)) → Perm (w.arrive xs) xs)
    → is_empty pc.install_targets ≡ false
    → cfg.insecure_installation ≡ false
    → (cfg.max_concurrent_analyzes == 0) ≡ false
    → packages cfg w pc ≡ resolved ts ds
    → Any (λ x. x ≡ pv) (ts ++ ds)
    → is_trusted w.trusted (some pv) ≡ false
    → Returns w.analyzers pv r
    → r.action ≡ block
    → is_continued (run cfg w pm args pc) ≡ false
unfolding worker_results
run-blocked cfg w pm args pc reply ts ds pv r same shuffled t i n k m u h b =
    let harm = all_results-is_harmful w.analyzers w.trusted (ts ++ ds) pv r (ground arith) h u m in
    ap is_continued (run-judge_targets cfg w pm args pc i t)
    ∙ ap (λ p. is_continued (judge_targets cfg w p (started pm args))) k
    ∙ judge_targets-resolved cfg w reply same shuffled ts ds (started pm args)
    ∙ ground arith
