-- ===== src/Tests/AikidoTests.antt =====
-- Runs of the analyzer of the feed of known malware, and witnesses.
use pmg.Prelude.{◌≡◌, refl, true, false, none, some, codes, ◌=ₜ◌, List, [], ◌∷◌}
use pmg.Analysis.{npm}
use pmg.Analysis.Composite.{is_block}
use pmg.Analysis.Aikido.{
  AikidoEntry, AikidoAnalyzer, Semver, Load, new_ecosystem, aikido_analyze, is_exact_aikido_version,
  refresh,
}
use pmg.Analysis.Aikido.Matching.{is_block-aikido_analyze}
use pmg.Analysis.Aikido.Unavailable.{Query, analyze_all, degraded_allows, analyze_all-degraded}

abbrev below_2 : Semver
below_2 = record { new_constraint = λ t. some (λ v. v =ₜ codes "1.0.0"); is_version = λ v. true }

abbrev the_feed : List AikidoEntry
the_feed =
    record { package_name = codes "evil"; version = codes "3.0.0"; reason = codes "r" }
    ∷ record { package_name = codes "bad"; version = codes "<2"; reason = codes "s" }
    ∷ []

abbrev a_load : Load
a_load = record { now = 5; feed = some the_feed; disk = none }

abbrev no_load : Load
no_load = record { now = 5; feed = none; disk = none }

abbrev fresh_analyzer : AikidoAnalyzer
fresh_analyzer = record { npm_feed = new_ecosystem; pypi_feed = new_ecosystem }

exact_runs : is_exact_aikido_version (codes "1.0.0-rc.1") ≡ true
unfolding is_exact_aikido_version
exact_runs = refl

blank_runs : is_exact_aikido_version (codes "1.0 2.0") ≡ false
unfolding is_exact_aikido_version
blank_runs = refl

refresh_runs : (refresh below_2 a_load no_load fresh_analyzer).1 ≡ true
unfolding refresh
refresh_runs = refl

is_block-aikido_analyze_example :
    is_block
      (aikido_analyze below_2 10 a_load
        (record { ecosystem = npm; name = codes "bad"; version = codes "1.0.0" })
        fresh_analyzer).1
    ≡ true
unfolding is_exact_aikido_version
is_block-aikido_analyze_example =
    is_block-aikido_analyze below_2 10 a_load new_ecosystem the_feed (codes "bad") (codes "1.0.0")
      refl

abbrev asked : Load → Query
asked l = record { load = l; package_name = codes "evil"; package_version = codes "3.0.0" }

-- The second analysis would find the feed.
analyze_all-degraded_example :
    analyze_all below_2 10 (asked no_load ∷ asked a_load ∷ []) fresh_analyzer
    ≡ degraded_allows (asked no_load ∷ asked a_load ∷ [])
analyze_all-degraded_example =
    analyze_all-degraded below_2 10 (asked no_load) (asked a_load ∷ []) new_ecosystem refl refl
