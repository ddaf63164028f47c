-- ===== src/Tests/InterceptorTests.antt =====
-- The interceptors of the registries on concrete hosts, packages and verdicts.
use pmg.Prelude.Result.{ok}
use pmg.Prelude.{
  ℕ, ◌*◌, ◌+◌, ltb, ◌≡◌, refl, ◌↔◌, ◌⊎◌, inl, inr, Bool, true, false, Option, none, some, Text,
  codes, List, [], ◌∷◌, ◌++◌, map, join_with, arith,
}
use pmg.Analysis.{
  npm, PackageVersion, allow, block, AnalysisResult, with_action, failure, failed, returned,
}
use pmg.Analysis.Composite.{analyze}
use pmg.Registry.Cache.{cache_key, lookup, get}
use pmg.Registry.Stats.{new_collector}
use pmg.Registry.Cooldown.{day, Dates}
use pmg.Registry.Confirmation.{UserAnswer}
use pmg.Registry.Hosts.{config_for_hostname, contains_hostname}
use pmg.Registry.NpmUrl.Roundtrips.{tarball_name}
use pmg.Registry.NpmUrl.{NpmPackageInfo}
use pmg.Registry.NpmCooldown.{absent, present, document, parse_metadata_time}
use pmg.Registry.NpmCooldown.Strip.{IsStripped}
use pmg.Registry.Interceptor.{
  eco_name, Config, Breaker, State, Prompt, Download, run_all, handle_download, new_version,
}
use pmg.Registry.Interceptor.Downloads.{
  is_refused, IsAnalyzed, Known, Refuses, handle_download-is_refused,
}
use pmg.Registry.Interceptor.Steps.{begins, ends, Flights, run_steps}
use pmg.Registry.Interceptor.Overlaps.{request, run_steps-refuses}
use pmg.Registry.Interceptor.Runs.{run_all-refuses_again}
use pmg.Registry.PypiUrl.{PypiPackageInfo}
use pmg.Registry.PypiRegistry.{PypiRegistryConfig, pypi_domains, pypi_handle_request}
use pmg.Registry.PypiRegistry.Refusals.{IsRefusableFile, pypi_handle_request-is_refused}
use pmg.Registry.NpmRegistry.{
  RegistryConfig, npm_domains, should_mitm, handle_request, Modified, modify_metadata,
}
use pmg.Registry.NpmRegistry.Refusals.{
  npmjs, IsRefusable, handle_request-is_refused, handle_request-analyze,
}
use pmg.Registry.NpmRegistry.Metadata.{modify_metadata-IsStripped}

-- A breaker that counts failures in a row, and is open after three.
abbrev three_strikes : Breaker ℕ
three_strikes = record {
  enter = λ n. (n, ltb n 3);
  leave = λ good n. elim good [ true ↦ 0 | false ↦ n + 1 ];
}

abbrev cfg : Config
cfg = record { insecure = false; trusted = []; cooldown_enabled = true; cooldown_days = 5 }

abbrev start : State ℕ
start = record { cache = []; collector = some new_collector; log = []; breaker = 0 }

abbrev silent : Prompt
silent = record { taken = true; reply = none }

abbrev lodash : PackageVersion
lodash = new_version npm (codes "lodash") (codes "4.17.21")

abbrev bad : AnalysisResult
bad = record (with_action lodash block) { is_malware = true }

mirror_host : should_mitm (codes "mirror.registry.npmjs.org") ≡ true
unfolding should_mitm config_for_hostname pmg.Registry.Hosts.exact pmg.Registry.Hosts.best_loop
    pmg.Prelude.strip_suffix
mirror_host = refl

lookalike_host : contains_hostname npm_domains (codes "evilregistry.npmjs.org") ≡ false
unfolding contains_hostname config_for_hostname pmg.Registry.Hosts.exact
    pmg.Registry.Hosts.best_loop pmg.Prelude.strip_suffix
lookalike_host = refl

handle_download-is_refused_example :
    (is_refused (
        (handle_download three_strikes cfg npm
          (codes "lodash")
          (codes "4.17.21")
          (returned (some bad))
          silent
          start).1)
      ≡ true)
    ↔ (IsAnalyzed cfg npm (codes "lodash") (codes "4.17.21")
        × ((r : AnalysisResult) × Known three_strikes npm
              (codes "lodash")
              (codes "4.17.21")
              (returned (some bad))
              start
              r
            × Refuses silent r))
handle_download-is_refused_example =
    handle_download-is_refused three_strikes cfg npm (codes "lodash") (codes "4.17.21")
      (returned (some bad)) silent start

not_trusted : IsAnalyzed cfg npm (codes "lodash") (codes "4.17.21")
unfolding pmg.Trusted.is_trusted
not_trusted = (refl, refl)

nothing_cached : get (eco_name npm) (codes "lodash") (codes "4.17.21") start.cache ≡ none
unfolding get lookup
nothing_cached = refl

Known-bad :
    Known three_strikes npm (codes "lodash") (codes "4.17.21") (returned (some bad)) start bad
Known-bad = inr (nothing_cached, refl, refl)

abbrev other_request : Download
other_request = record {
  ecosystem = npm;
  name = codes "a";
  version = codes "1";
  outcome = failed failure;
  prompt = silent;
}

run_all-refuses_again_example :
    is_refused (
      (handle_download three_strikes cfg npm
        (codes "lodash")
        (codes "4.17.21")
        (failed failure)
        silent
        (run_all three_strikes cfg (other_request ∷ []) (
          (handle_download three_strikes cfg npm
            (codes "lodash")
            (codes "4.17.21")
            (returned (some bad))
            silent
            start).0))).1)
    ≡ true
run_all-refuses_again_example =
    run_all-refuses_again three_strikes cfg npm (codes "lodash") (codes "4.17.21") bad silent silent
      (failed failure) (other_request ∷ []) start not_trusted Known-bad refl

abbrev asked : AnalysisResult → Download
asked r = request npm (codes "lodash") (codes "4.17.21") silent r

abbrev good : AnalysisResult
good = record bad { action = allow }

abbrev blocked_start : State ℕ
blocked_start = record start {
  cache = (cache_key (codes "ECOSYSTEM_NPM") (codes "lodash") (codes "4.17.21"), some bad) ∷ [];
}

abbrev one_flight : Flights ℕ
one_flight = record { state = blocked_start; under_way = other_request ∷ [] }

run_steps-refuses_example :
    is_refused (
      (handle_download three_strikes cfg npm
        (codes "lodash")
        (codes "4.17.21")
        (failed failure)
        silent
        (run_steps three_strikes cfg
          (begins (asked good) ∷ begins other_request ∷ ends 1 ∷ [])
          one_flight).state).1)
    ≡ true
unfolding cache_key get lookup
run_steps-refuses_example =
    run_steps-refuses three_strikes cfg npm (codes "lodash") (codes "4.17.21") bad silent
      (failed failure) (begins (asked good) ∷ begins other_request ∷ ends 1 ∷ []) one_flight
      not_trusted refl refl (refl, tt)

abbrev dates : Dates
dates = (codes "1.0", 1 * day) ∷ (codes "3.0", 9 * day) ∷ []

-- A parser of dates that takes every text to the ninth day.
abbrev ninth : Text → Option ℕ
ninth s = some (9 * day)

abbrev fetched : Modified
fetched = record {
  headers = [];
  body = document (record {
    versions = present ((codes "3.0", []) ∷ []);
    time = present ((codes "created", codes "x") ∷ (codes "3.0", codes "y") ∷ []);
    dist_tags = absent;
  });
  collector = some new_collector;
  log = [];
}

modify_metadata-IsStripped_example :
    let after = modify_metadata ninth none (10 * day) (codes "a") 5 [] fetched in
    ((ds : Dates)
      → parse_metadata_time ninth fetched.body ≡ some ds
      → IsStripped (10 * day) 5 ds fetched.body after.body
        × ((lookup (codes "Cache-Control") after.headers ≡ some (codes "no-store" ∷ []))
            ⊎ (after ≡ fetched)))
    × (parse_metadata_time ninth fetched.body ≡ none → after ≡ fetched)
modify_metadata-IsStripped_example =
    modify_metadata-IsStripped ninth none (10 * day) (codes "a") 5 [] fetched

abbrev tarball_path : Text
tarball_path =
    b'/'
    ∷ join_with b'/'
        (codes "lodash" ∷ codes "-" ∷ tarball_name (codes "lodash") (codes "4.17.21") ∷ [])

handle_request-is_refused_example :
    (is_refused (
        (handle_request three_strikes cfg [] npmjs tarball_path []
          (returned (some bad))
          silent
          start).1)
      ≡ true)
    ↔ ((c : RegistryConfig) × (config_for_hostname npm_domains npmjs ≡ some c)
        × (c.supported_for_analysis ≡ true)
        × ((info : NpmPackageInfo) × (c.parser tarball_path ≡ ok info)
            × IsRefusable three_strikes cfg [] [] (returned (some bad)) silent start info))
handle_request-is_refused_example =
    handle_request-is_refused three_strikes cfg [] [] (returned (some bad)) silent start npmjs
      tarball_path

abbrev pythonhosted : Text
pythonhosted = codes "files.pythonhosted.org"

abbrev wheel_path : Text
wheel_path = codes "/packages/requests-2.0.0-py3-none-any.whl"

abbrev unchanged : ℕ → ℕ
unchanged c = c

pypi_handle_request-is_refused_example :
    (is_refused (
        (pypi_handle_request unchanged three_strikes cfg [] pythonhosted wheel_path []
          (returned (some bad))
          silent
          start).1)
      ≡ true)
    ↔ ((c : PypiRegistryConfig) × (config_for_hostname (pypi_domains unchanged) pythonhosted
          ≡ some c)
        × (c.supported_for_analysis ≡ true)
        × ((info : PypiPackageInfo) × (c.parser wheel_path ≡ ok info)
            × IsRefusableFile unchanged three_strikes cfg [] []
                (returned (some bad))
                silent
                start
                info))
pypi_handle_request-is_refused_example =
    pypi_handle_request-is_refused unchanged three_strikes cfg [] [] (returned (some bad)) silent
      start pythonhosted wheel_path

handle_request-analyze_example :
    is_refused (
      (handle_request three_strikes cfg [] npmjs tarball_path []
        (analyze false lodash
          (returned (some (with_action lodash allow)) ∷ returned (some bad) ∷ []))
        silent
        start).1)
    ≡ true
handle_request-analyze_example =
    handle_request-analyze three_strikes cfg [] [] false
      (returned (some (with_action lodash allow))) (returned (some bad)) [] silent start b'l'
      (codes "odash") (codes "4.17.21") (omega arith) (omega arith) (omega arith) (λ e. cc)
      not_trusted nothing_cached refl refl

abbrev hesitant : AnalysisResult → UserAnswer
hesitant r = record { says_so = true; has_error = r.is_malware }
