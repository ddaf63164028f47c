-- ===== src/Registry/Interceptor/Runs.antt =====
-- What a sequence of downloads keeps, in the interceptor of proxy/interceptors/base_registry.go.
use pmg.Prelude.{
  ◌≡◌, refl, sym, subst, inl, inr, true, Option, none, some, Text, text_eq_iff, text_eq_refl, List,
  [], ◌∷◌, arith,
}
use pmg.Analysis.{Ecosystem, block, AnalysisResult, Outcome, failed, returned}
use pmg.Registry.Cache.{cache_key, get, set}
use pmg.Registry.Cache.Laws.{lookup-insert}
use pmg.Registry.Interceptor.{
  eco_name, Config, Breaker, State, Run, panicked, done, Prompt, request_user_confirmation,
  new_version, call_analyzer, execute, store, analyze_package, handle_confirm,
  handle_analysis_result, answer, handle_download, Download, download, run_all,
}
use pmg.Registry.Interceptor.Downloads.{is_refused, IsAnalyzed, Known, handle_download-is_refused}

module _ {B : Type 0} where
  handle_analysis_result-cache :
      (eco : Ecosystem) (name version : Text) (p : Prompt) (r : AnalysisResult) (s : State B)
      → (handle_analysis_result eco name version p r s).0.cache ≡ s.cache
  unfolding handle_analysis_result handle_confirm request_user_confirmation
  handle_analysis_result-cache eco name version p r s = ground arith

  pub answer-cache :
      (eco : Ecosystem) (name version : Text) (p : Prompt) (s : State B) (x : Run Outcome)
      → (answer eco name version p (s, x)).0.cache ≡ s.cache
  unfolding answer
  answer-cache eco name version p s panicked = refl
  answer-cache eco name version p s (done (failed e)) = refl
  answer-cache eco name version p s (done (returned none)) = refl
  answer-cache eco name version p s (done (returned (some r))) =
      handle_analysis_result-cache eco name version p r s

  module _ (e n v : Text) (r : Option AnalysisResult) where
    abbrev Caches : State B → Type 0
    Caches s = get e n v s.cache ≡ some r

    store-Caches :
        (e' n' v' : Text) (o : Outcome) (s : State B)
        → get e' n' v' s.cache ≡ none
        → Caches s
        → Caches ((store e' n' v' o s).0)
    unfolding store get set
    store-Caches e' n' v' (failed x) s h g = g
    store-Caches e' n' v' (returned none) s h g = ground (
      arith,
      text_eq_iff (cache_key e' n' v') (cache_key e n v),
      lookup-insert (cache_key e n v) (cache_key e' n' v') none s.cache,
    )
    store-Caches e' n' v' (returned (some x)) s h g = ground (
      arith,
      text_eq_iff (cache_key e' n' v') (cache_key e n v),
      lookup-insert (cache_key e n v) (cache_key e' n' v') (some x) s.cache,
    )

    analyze_package-Caches :
        (br : Breaker B) (cfg : Config) (d : Download) (s : State B)
        → Caches s
        → Caches ((analyze_package br cfg d.ecosystem d.name d.version d.outcome s).0)
    unfolding analyze_package
    analyze_package-Caches br cfg d s g =
        let (b, o) =
          execute br (call_analyzer (new_version d.ecosystem d.name d.version) d.outcome)
            s.breaker in
        ground
          (arith, store-Caches (eco_name d.ecosystem) d.name d.version o (record s { breaker = b }))

    pub download-Caches :
        (br : Breaker B) (cfg : Config) (d : Download) (s : State B)
        → Caches s
        → Caches ((download br cfg d s).0)
    unfolding handle_download
    download-Caches br cfg d s g =
        let (t, x) = analyze_package br cfg d.ecosystem d.name d.version d.outcome s in
        subst (λ c. get e n v c ≡ some r)
          (sym (answer-cache d.ecosystem d.name d.version d.prompt t x))
          (analyze_package-Caches br cfg d s g)

    run_all-Caches :
        (br : Breaker B) (cfg : Config) (ds : List Download) (s : State B)
        → Caches s
        → Caches (run_all br cfg ds s)
    unfolding run_all
    run_all-Caches br cfg [] s g = g
    run_all-Caches br cfg (d ∷ ds) s g =
        run_all-Caches br cfg ds ((download br cfg d s).0) (download-Caches br cfg d s g)

  pub store-Caches_new :
      (e n v : Text) (r : AnalysisResult) (s : State B)
      → Caches e n v (some r) ((store e n v (returned (some r)) s).0)
  unfolding store get set
  store-Caches_new e n v r s = ground (
    arith,
    text_eq_refl (cache_key e n v),
    lookup-insert (cache_key e n v) (cache_key e n v) (some r) s.cache,
  )

  analyze_package-Caches_new :
      (br : Breaker B) (cfg : Config) (eco : Ecosystem) (name version : Text) (r : AnalysisResult)
      (s : State B)
      → IsAnalyzed cfg eco name version
      → Known br eco name version (returned (some r)) s r
      → Caches
          (eco_name eco)
          name
          version
          (some r)
          ((analyze_package br cfg eco name version (returned (some r)) s).0)
  unfolding analyze_package execute call_analyzer
  analyze_package-Caches_new br cfg eco name version r s (h, t) (inl c) = ground arith
  analyze_package-Caches_new br cfg eco name version r s (h, t) (inr (c, a, _)) = ground (
    arith,
    store-Caches_new (eco_name eco) name version r
        (record s { breaker = br.leave true ((br.enter s.breaker).0) }),
  )

  -- For requests that are taken one after the other: once the known analysis of a package that is
  -- not trusted is a block, with analyses not bypassed, every later download of that package is
  -- refused, whatever requests lie between, whatever the analyzer or the user says then, and
  -- whether or not the breaker is open. A request that has missed the cache before and stores its
  -- result afterwards is not covered.
  pub run_all-refuses_again :
      (br : Breaker B) (cfg : Config) (eco : Ecosystem) (name version : Text) (r : AnalysisResult)
      (p q : Prompt) (later : Outcome) (ds : List Download) (s : State B)
      → IsAnalyzed cfg eco name version
      → Known br eco name version (returned (some r)) s r
      → r.action ≡ block
      → is_refused (
          (handle_download br cfg eco name version later q (
            run_all br cfg ds
              ((handle_download br cfg eco name version (returned (some r)) p s).0))).1)
        ≡ true
  unfolding handle_download
  run_all-refuses_again br cfg eco name version r p q later ds s n k b =
      let (t, x) = analyze_package br cfg eco name version (returned (some r)) s in
      let first : Caches (eco_name eco) name version (some r)
          ((answer eco name version p (t, x)).0) =
        subst (λ c. get (eco_name eco) name version c ≡ some (some r))
          (sym (answer-cache eco name version p t x))
          (analyze_package-Caches_new br cfg eco name version r s n k) in
      let kept = run_all-Caches (eco_name eco) name version (some r) br cfg ds _ first in
      (handle_download-is_refused br cfg eco name version later q _).1 (n, (r, inl kept, inl b))
