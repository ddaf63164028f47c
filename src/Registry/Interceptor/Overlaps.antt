-- ===== src/Registry/Interceptor/Overlaps.antt =====
-- Requests that overlap, in the interceptor of proxy/interceptors/base_registry.go: no lock is held
-- from the look-up in the cache to the storing of the result.
use pmg.Prelude.{
  ◌≡◌, refl, sym, subst, inl, inr, ℕ, true, false, ◌||◌, Option-cases, ◌==◌, ◌-◌, Option, none,
  some, Text, ◌=ₜ◌, text_eq_iff, All, List, [], ◌∷◌, Bool-cases, arith,
}
use pmg.Analysis.{Ecosystem, block, AnalysisResult, Outcome, failed, returned}
use pmg.Trusted.{is_trusted}
use pmg.Registry.Cache.{cache_key, get, set}
use pmg.Registry.Cache.Laws.{lookup-insert}
use pmg.Registry.Interceptor.{
  eco_name, Config, Breaker, State, Prompt, new_version, call_analyzer, store, handle_download,
  Download, download,
}
use pmg.Registry.Interceptor.Downloads.{is_refused, IsAnalyzed, handle_download-is_refused}
use pmg.Registry.Interceptor.Runs.{answer-cache, download-Caches}
use pmg.Registry.Interceptor.Steps.{
  RequestStep, begins, ends, take_out, leave_breaker, Flights, complete_request, enter_miss,
  begin_request, end_request, run_steps,
}

abbrev key_of : Download → Text
key_of d = cache_key (eco_name d.ecosystem) d.name d.version

-- No analysis of the package is under way.
abbrev pub IsElsewhere : Text → List Download → Type 0
IsElsewhere k ds = All (λ d. key_of d =ₜ k ≡ false) ds

take_out-IsElsewhere :
    (k : Text) (i : ℕ) (ds : List Download) (d : Download) (rest : List Download)
    → IsElsewhere k ds
    → take_out i ds ≡ some (d, rest)
    → (key_of d =ₜ k ≡ false) × IsElsewhere k rest
unfolding take_out
take_out-IsElsewhere k i [] d rest a h = cc h
take_out-IsElsewhere k i (x ∷ ds) d rest (p, a) h = elim (Bool-cases (i == 0)) [
  | inl z ↦ ground (arith, h, z, p, a)
  | inr z ↦ elim (Option-cases (take_out (i - 1) ds)) [
    | inl m ↦ ground (arith, h, z, m)
    | inr ((e', es), m) ↦ ground (arith, h, z, m, p, take_out-IsElsewhere k (i - 1) ds e' es a m)
  ]
]

-- A request whose analysis returns this result.
abbrev pub request : Ecosystem → Text → Text → Prompt → AnalysisResult → Download
request eco name version p r = record {
  ecosystem = eco;
  name = name;
  version = version;
  outcome = returned (some r);
  prompt = p;
}

module _ {B : Type 0} where
  module _ (e n v : Text) (r : AnalysisResult) where
    abbrev Caches : State B → Type 0
    Caches s = get e n v s.cache ≡ some (some r)

    store-Caches_other :
        (e' n' v' : Text) (o : Outcome) (s : State B)
        → cache_key e' n' v' =ₜ cache_key e n v ≡ false
        → Caches s
        → Caches ((store e' n' v' o s).0)
    unfolding store get set
    store-Caches_other e' n' v' (failed x) s h g = g
    store-Caches_other e' n' v' (returned none) s h g =
        ground (arith, lookup-insert (cache_key e n v) (cache_key e' n' v') none s.cache)
    store-Caches_other e' n' v' (returned (some x)) s h g =
        ground (arith, lookup-insert (cache_key e n v) (cache_key e' n' v') (some x) s.cache)

    abbrev Kept : Flights B → Type 0
    Kept f = Caches f.state × IsElsewhere (cache_key e n v) f.under_way

    complete_request-Caches :
        (br : Breaker B) (d : Download) (s : State B)
        → key_of d =ₜ cache_key e n v ≡ false
        → Caches s
        → Caches (complete_request br d s)
    unfolding complete_request
    complete_request-Caches br d s h g =
        let result = call_analyzer (new_version d.ecosystem d.name d.version) d.outcome in
        let (t, x) =
          store (eco_name d.ecosystem) d.name d.version result
            (record s { breaker = leave_breaker br result s.breaker }) in
        subst (λ c. get e n v c ≡ some (some r))
          (sym (answer-cache d.ecosystem d.name d.version d.prompt t x))
          (store-Caches_other (eco_name d.ecosystem) d.name d.version result
            (record s { breaker = leave_breaker br result s.breaker }) h g)

    missed :
        (d : Download) (f : Flights B)
        → get (eco_name d.ecosystem) d.name d.version f.state.cache ≡ none
        → Kept f
        → key_of d =ₜ cache_key e n v ≡ false
    unfolding get
    missed d f m (g, a) = elim (Bool-cases (key_of d =ₜ cache_key e n v)) [
      | inl k ↦ ground (arith, text_eq_iff (key_of d) (cache_key e n v), m, g)
      | inr k ↦ k
    ]

    enter_miss-Kept :
        (br : Breaker B) (d : Download) (f : Flights B)
        → key_of d =ₜ cache_key e n v ≡ false
        → Kept f
        → Kept (enter_miss br d f)
    enter_miss-Kept br d f k (g, a) = elim (Bool-cases ((br.enter f.state.breaker).1)) [
      | inl z ↦ (g, rw z (k, a))
      | inr z ↦ (g, rw z a)
    ]

    begin_request-Kept :
        (br : Breaker B) (cfg : Config) (d : Download) (f : Flights B)
        → Kept f
        → Kept (begin_request br cfg d f)
    unfolding begin_request
    begin_request-Kept br cfg d f (g, a) =
        let answered : Kept (record f { state = (download br cfg d f.state).0 }) =
          (download-Caches e n v (some r) br cfg d f.state g, a) in
        elim (Bool-cases (
          cfg.insecure
          || is_trusted cfg.trusted (some (new_version d.ecosystem d.name d.version)))) [
            | inl z ↦ rw z answered
            | inr z ↦
                elim (Option-cases (get (eco_name d.ecosystem) d.name d.version f.state.cache)) [
                  | inl m ↦ rw (z, m) (enter_miss-Kept br d f (missed d f m (g, a)) (g, a))
                  | inr (c, m) ↦ rw (z, m) answered
                ]
          ]

    end_request-Kept :
        (br : Breaker B) (i : ℕ) (f : Flights B) (o : Option (Download × List Download))
        → take_out i f.under_way ≡ o
        → Kept f
        → Kept (end_request br o f)
    end_request-Kept br i f none h k = k
    end_request-Kept br i f (some (d, ds)) h (g, a) =
        let (k, rest) = take_out-IsElsewhere (cache_key e n v) i f.under_way d ds a h in
        (complete_request-Caches br d f.state k g, rest)

    run_steps-Kept :
        (br : Breaker B) (cfg : Config) (steps : List RequestStep) (f : Flights B)
        → Kept f
        → Kept (run_steps br cfg steps f)
    unfolding run_steps
    run_steps-Kept br cfg [] f k = k
    run_steps-Kept br cfg (begins d ∷ steps) f k =
        run_steps-Kept br cfg steps (begin_request br cfg d f) (begin_request-Kept br cfg d f k)
    run_steps-Kept br cfg (ends i ∷ steps) f k =
        run_steps-Kept br cfg steps (end_request br (take_out i f.under_way) f)
          (end_request-Kept br i f (take_out i f.under_way) refl k)

  -- Once a block is cached for a package that is not trusted, with analyses not bypassed, and
  -- while no analysis of that package is under way, every later download of it is refused, however
  -- the requests that follow overlap (each begins, and its analysis ends at any later time or
  -- never), and whatever the analyzer and the user say then.
  pub run_steps-refuses :
      (br : Breaker B) (cfg : Config) (eco : Ecosystem) (name version : Text) (r : AnalysisResult)
      (q : Prompt) (later : Outcome) (steps : List RequestStep) (f : Flights B)
      → IsAnalyzed cfg eco name version
      → get (eco_name eco) name version f.state.cache ≡ some (some r)
      → r.action ≡ block
      → IsElsewhere (cache_key (eco_name eco) name version) f.under_way
      → is_refused
          ((handle_download br cfg eco name version later q (run_steps br cfg steps f).state).1)
        ≡ true
  run_steps-refuses br cfg eco name version r q later steps f n c b a =
      let (kept, _) = run_steps-Kept (eco_name eco) name version r br cfg steps f (c, a) in
      (handle_download-is_refused br cfg eco name version later q
          (run_steps br cfg steps f).state).1
        (n, (r, inl kept, inl b))
