-- ===== src/Analysis/Aikido/Unavailable.antt =====
-- analyzer/aikido_intel.go: what the analyses return when the first load has failed.
use pmg.Prelude.{ℕ, ◌≡◌, refl, ap, true, false, none, Text, List, [], ◌∷◌}
use pmg.Analysis.{PackageVersion, npm, AnalysisResult, with_action, allow}
use pmg.Analysis.Aikido.{
  AikidoEcosystem, AikidoAnalyzer, Semver, Load, new_ecosystem, load_snapshot, get_snapshot,
  aikido_analyze,
}

-- A later analysis of a package of NPM: the time and what a load would meet, and the package.
pub record Query : Type 0 where
  pub load : Load
  pub package_name : Text
  pub package_version : Text

abbrev pub package_of : Query → PackageVersion
package_of q = record { ecosystem = npm; name = q.package_name; version = q.package_version }

-- The results of one analysis after the other.
pub analyze_all : Semver → ℕ → List Query → AikidoAnalyzer → List AnalysisResult
unfolding aikido_analyze
analyze_all sm ttl [] a = []
analyze_all sm ttl (q ∷ qs) a =
    let r = aikido_analyze sm ttl q.load (package_of q) a in r.1 ∷ analyze_all sm ttl qs r.0

abbrev pub degraded_allows : List Query → List AnalysisResult
degraded_allows [] = []
degraded_allows (q ∷ qs) =
    record (with_action (package_of q) allow) { degraded = true } ∷ degraded_allows qs

abbrev exhausted : AikidoEcosystem
exhausted = record { snapshot = none; once_done = true; refreshing = false }

analyze_all-exhausted :
    (sm : Semver) (ttl : ℕ) (qs : List Query) (e : AikidoEcosystem)
    → analyze_all sm ttl qs (record { npm_feed = exhausted; pypi_feed = e }) ≡ degraded_allows qs
unfolding analyze_all aikido_analyze get_snapshot
analyze_all-exhausted sm ttl [] e = refl
analyze_all-exhausted sm ttl (q ∷ qs) e =
    ap (λ rs. record (with_action (package_of q) allow) { degraded = true } ∷ rs)
      (analyze_all-exhausted sm ttl qs e)

nothing_loaded :
    (sm : Semver) (l : Load) → l.feed ≡ none → l.disk ≡ none → load_snapshot sm l ≡ none
unfolding load_snapshot
nothing_loaded sm l f d = rw (f, d) refl

-- A first load that finds neither the feed nor the disk cache is not tried again.
pub analyze_all-degraded :
    (sm : Semver) (ttl : ℕ) (q : Query) (qs : List Query) (e : AikidoEcosystem)
    → q.load.feed ≡ none
    → q.load.disk ≡ none
    → analyze_all sm ttl (q ∷ qs) (record { npm_feed = new_ecosystem; pypi_feed = e })
      ≡ degraded_allows (q ∷ qs)
unfolding analyze_all aikido_analyze get_snapshot
analyze_all-degraded sm ttl q qs e f d = rw (nothing_loaded sm q.load f d) (
    ap (λ rs. record (with_action (package_of q) allow) { degraded = true } ∷ rs)
      (analyze_all-exhausted sm ttl qs e))
