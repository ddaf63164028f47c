-- ===== src/Guard/Command.antt =====
-- `Run` and `handleManifestInstallation` of guard/guard.go: the resolution of the packages of a command,
-- and the judgement of them.
use pmg.Prelude.{
  ℕ, ◌&&◌, Option, none, some, Text, codes, is_empty, contains_text, List, [], ◌∷◌, ◌++◌, map,
  length, if◌then◌else◌,
}
use pmg.Analysis.{PackageVersion}
use pmg.Audit.{Log, install_started, install_allowed}
use pmg.Guard.{
  GuardConfig, empty_result, GuardError, Ending, World, ParsedCommand, judge, continued, in_error,
  panicked, no_latest_version, no_dependencies, no_manifest,
}

-- The resolution of the targets: the targets with their versions, and the dependencies of all.
pub data Resolved : Type 0 where
  unresolved : GuardError → Resolved
  resolved : (targets dependencies : List PackageVersion) → Resolved

abbrev with_version : World → PackageVersion → Option PackageVersion
with_version w pv =
    if is_empty pv.version
    then elim (w.latest_version pv) [ none ↦ none | some v ↦ some (record pv { version = v }) ]
    else some pv

abbrev add_resolved : PackageVersion → List PackageVersion → Resolved → Resolved
add_resolved pv ds (unresolved e) = unresolved e
add_resolved pv ds (resolved ts es) = resolved (pv ∷ ts) (ds ++ es)

-- The first error ends the loop.
unfoldable pub resolve : World → List PackageVersion → Resolved
resolve w [] = resolved [] []
resolve w (pv ∷ pvs) =
    let rest = resolve w pvs in
    elim (with_version w pv) [
      | none ↦ unresolved no_latest_version
      | some target ↦ elim (w.dependencies target) [
        | none ↦ unresolved no_dependencies
        | some ds ↦ add_resolved target ds rest
      ]
    ]

abbrev pub allowed_events : ℕ → List PackageVersion → Log
allowed_events n pvs = map (λ pv. install_allowed (some pv) n) pvs

-- After the resolution of the install targets.
unfoldable pub judge_targets : GuardConfig → World → Resolved → Log → Ending
unfolding judge
judge_targets cfg w (unresolved e) l = in_error e empty_result l
judge_targets cfg w (resolved ts ds) l =
    judge cfg w (ts ++ ds) l (allowed_events (length (ts ++ ds)) ts)

abbrev first_allowed : ℕ → List PackageVersion → Log
first_allowed n [] = []
first_allowed n (pv ∷ pvs) = install_allowed (some pv) n ∷ []

unfoldable pub judge_manifest : GuardConfig → World → Resolved → Log → Ending
unfolding judge
judge_manifest cfg w (unresolved e) l = in_error e empty_result l
judge_manifest cfg w (resolved ts ds) l =
    judge cfg w (ts ++ ds) l (first_allowed (length (ts ++ ds)) ts)

-- `handleManifestInstallation`, which takes the name of the package manager.
unfoldable pub handle_manifest_installation :
    GuardConfig → World → Option Text → ParsedCommand → Log → Ending
unfolding resolve
handle_manifest_installation cfg w none pc l = panicked
handle_manifest_installation cfg w (some name) pc l = elim w.manifest [
  | none ↦ in_error no_manifest empty_result l
  | some [] ↦ continued empty_result l
  | some (pv ∷ pvs) ↦
      judge_manifest cfg w
        (if cfg.resolve_dependencies && contains_text pc.manifest_files (codes "requirements.txt")
          then resolve w (pv ∷ pvs)
          else resolved (pv ∷ pvs) [])
        l
]

abbrev pub started : Option Text → List Text → Log
started none args = []
started (some name) args = install_started name args ∷ []

-- `Run`
unfoldable pub run : GuardConfig → World → Option Text → List Text → ParsedCommand → Ending
unfolding resolve
run cfg w package_manager args pc =
    let l = started package_manager args in
    if cfg.insecure_installation
    then continued empty_result l
    else if is_empty pc.install_targets
    then (if pc.from_manifest
        then handle_manifest_installation cfg w package_manager pc l
        else continued empty_result l)
    else judge_targets cfg w
        (if cfg.resolve_dependencies
          then resolve w pc.install_targets
          else resolved pc.install_targets [])
        l
