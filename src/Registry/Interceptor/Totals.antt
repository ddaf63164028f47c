-- ===== src/Registry/Interceptor/Totals.antt =====
-- The statistics of a sequence of downloads, in proxy/interceptors/base_registry.go.
use pmg.Prelude.{
  ◌≡◌, refl, sym, subst, Bool, true, false, Option, none, some, Text, List, [], ◌∷◌, arith,
}
use pmg.Prelude.Result.{Result, ok, err}
use pmg.Analysis.{
  Ecosystem, unknown, allow, confirm, block, AnalysisResult, Outcome, failed, returned,
}
use pmg.Registry.Stats.{StatsCollector, Call, allowed, blocked, confirmed, user_cancelled}
use pmg.Registry.Stats.Counts.{IsConsistent, perform-IsConsistent}
use pmg.Registry.Interceptor.{
  eco_name, Config, Breaker, State, Run, panicked, done, Prompt, request_user_confirmation,
  new_version, call_analyzer, execute, store, analyze_package, handle_confirm,
  handle_analysis_result, answer, handle_download, Download, run_all, tally, PromptError,
}

-- What the collector is told of a result.
abbrev call_of_reply : Result PromptError Bool → AnalysisResult → Call
call_of_reply (err e) r = blocked (some r)
call_of_reply (ok true) r = confirmed (some r)
call_of_reply (ok false) r = user_cancelled (some r)

abbrev call_of : Prompt → AnalysisResult → Call
call_of p r = elim r.action [
  | block ↦ blocked (some r)
  | confirm ↦ call_of_reply (request_user_confirmation p) r
  | allow ↦ allowed (some r)
  | unknown ↦ allowed (some r)
]

-- The collector, if there is one, is consistent.
abbrev pub HasConsistent : Option StatsCollector → Type 0
HasConsistent none = Unit
HasConsistent (some c) = IsConsistent c

tally-HasConsistent :
    (k : Call) (c : Option StatsCollector) → HasConsistent c → HasConsistent (tally k c)
tally-HasConsistent k none h = tt
tally-HasConsistent k (some c) h = perform-IsConsistent k c h

module _ {B : Type 0} where
  handle_confirm-collector :
      (eco : Ecosystem) (name version : Text) (a : Result PromptError Bool) (r : AnalysisResult)
      (s : State B)
      → (handle_confirm eco name version a r s).0.collector ≡ tally (call_of_reply a r) s.collector
  unfolding handle_confirm
  handle_confirm-collector eco name version (err e) r s = refl
  handle_confirm-collector eco name version (ok true) r s = refl
  handle_confirm-collector eco name version (ok false) r s = refl

  handle_analysis_result-collector :
      (eco : Ecosystem) (name version : Text) (p : Prompt) (r : AnalysisResult) (s : State B)
      → (handle_analysis_result eco name version p r s).0.collector
        ≡ tally (call_of p r) s.collector
  unfolding handle_analysis_result
  handle_analysis_result-collector eco name version p r s =
      ground (arith, handle_confirm-collector eco name version (request_user_confirmation p) r s)

  answer-HasConsistent :
      (eco : Ecosystem) (name version : Text) (p : Prompt) (s : State B) (x : Run Outcome)
      → HasConsistent s.collector
      → HasConsistent ((answer eco name version p (s, x)).0.collector)
  unfolding answer
  answer-HasConsistent eco name version p s panicked h = h
  answer-HasConsistent eco name version p s (done (failed e)) h = h
  answer-HasConsistent eco name version p s (done (returned none)) h = h
  answer-HasConsistent eco name version p s (done (returned (some r))) h =
      subst HasConsistent (sym (handle_analysis_result-collector eco name version p r s))
        (tally-HasConsistent (call_of p r) s.collector h)

  store-collector :
      (e n v : Text) (o : Outcome) (s : State B) → (store e n v o s).0.collector ≡ s.collector
  unfolding store
  store-collector e n v (failed x) s = refl
  store-collector e n v (returned none) s = refl
  store-collector e n v (returned (some r)) s = refl

  analyze_package-collector :
      (br : Breaker B) (cfg : Config) (eco : Ecosystem) (name version : Text) (o : Outcome)
      (s : State B)
      → (analyze_package br cfg eco name version o s).0.collector ≡ s.collector
  unfolding analyze_package
  analyze_package-collector br cfg eco name version o s =
      let (b, x) = execute br (call_analyzer (new_version eco name version) o) s.breaker in
      ground (arith, store-collector (eco_name eco) name version x (record s { breaker = b }))

  -- The counters and the lists of the statistics agree after any sequence of downloads, if they did
  -- before.
  pub run_all-HasConsistent :
      (br : Breaker B) (cfg : Config) (ds : List Download) (s : State B)
      → HasConsistent s.collector
      → HasConsistent ((run_all br cfg ds s).collector)
  unfolding run_all handle_download
  run_all-HasConsistent br cfg [] s h = h
  run_all-HasConsistent br cfg (d ∷ ds) s h =
      let (t, x) = analyze_package br cfg d.ecosystem d.name d.version d.outcome s in
      run_all-HasConsistent br cfg ds ((answer d.ecosystem d.name d.version d.prompt (t, x)).0) (
        answer-HasConsistent d.ecosystem d.name d.version d.prompt t x (
          subst HasConsistent
            (sym (analyze_package-collector br cfg d.ecosystem d.name d.version d.outcome s)) h))
