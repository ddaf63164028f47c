-- ===== src/Tests/GuardTests.antt =====
-- The guard on a small world: one target, one dependency, two analyzers.
use mathlib.Core.List.{Perm}
use mathlib.Core.List.Permᴰ
use pmg.Prelude.{
  ◌≡◌, refl, inl, inr, true, false, Option, none, some, Text, codes, ◌==◌, List, [], ◌∷◌,
}
use pmg.Analysis.{
  npm, PackageVersion, allow, block, AnalysisResult, with_action, failure, Outcome, failed,
  returned,
}
use pmg.Guard.{GuardConfig, World, ParsedCommand, is_continued, worker_results, judge}
use pmg.Guard.Command.{resolved, unresolved, run}
use pmg.Guard.Running.{packages, run-blocked}

abbrev pv : Text → PackageVersion
pv n = record { ecosystem = npm; name = codes "x"; version = n }

abbrev target : PackageVersion
target = pv (codes "1")

abbrev dependency : PackageVersion
dependency = pv (codes "2")

-- An analyzer that knows nothing, and one that blocks what has a version that begins with `2`.
abbrev blind : PackageVersion → Outcome
blind p = failed failure

abbrev no_two : PackageVersion → Outcome
no_two p = elim p.version [
  | [] ↦ returned (some (with_action p allow))
  | c ∷ s ↦ elim (c == b'2') [
    | true ↦ returned (some (with_action p block))
    | false ↦ returned (some (with_action p allow))
  ]
]

abbrev cfg : GuardConfig
cfg = record {
  resolve_dependencies = true;
  max_concurrent_analyzes = 10;
  insecure_installation = false;
}

abbrev world : World
world = record {
  latest_version = λ p. some (codes "1");
  dependencies = λ p. some (dependency ∷ []);
  analyzers = blind ∷ no_two ∷ [];
  trusted = [];
  arrive = λ xs. xs;
  too_slow = false;
  confirmation = none;
  manifest = none;
}

abbrev command : ParsedCommand
command = record { install_targets = pv [] ∷ []; from_manifest = false; manifest_files = [] }

in_order : (xs : List (Option AnalysisResult)) → Perm xs xs
in_order xs = ∣ Permᴰ.refl xs ∣₁

resolved_packages : packages cfg world command ≡ resolved (target ∷ []) (dependency ∷ [])
unfolding pmg.Guard.Command.resolve
resolved_packages = refl

insecure_mode :
    is_continued (run (record cfg { insecure_installation = true }) world none [] command) ≡ true
unfolding run
insecure_mode = refl

run-blocked_example : is_continued (run cfg world none [] command) ≡ false
unfolding pmg.Guard.ask pmg.Trusted.is_trusted
run-blocked_example =
    run-blocked cfg world none [] command (some false) (target ∷ []) (dependency ∷ []) dependency
      (with_action dependency block) (λ rs. refl) in_order refl refl refl resolved_packages
      (inr (inl refl)) refl (inr (inl refl)) refl
