-- ===== src/Registry/Interceptor/Steps.antt =====
-- The steps of requests that overlap, in the interceptor of proxy/interceptors/base_registry.go: no lock is held
-- from the look-up in the cache to the storing of the result.
use pmg.Prelude.{ℕ, true, false, ◌||◌, ◌==◌, ◌-◌, Option, none, some, List, [], ◌∷◌, if◌then◌else◌}
use pmg.Analysis.{Outcome, failed, returned}
use pmg.Trusted.{is_trusted}
use pmg.Registry.Cache.{get}
use pmg.Registry.Interceptor.{
  eco_name, Config, Breaker, State, new_version, call_analyzer, store, answer, handle_download,
  Download, download,
}

-- A request begins, or the analysis of the request at this place among those under way ends.
pub data RequestStep : Type 0 where
  begins : Download → RequestStep
  ends : ℕ → RequestStep

-- The download at a place, and the other ones.
unfoldable pub take_out : ℕ → List Download → Option (Download × List Download)
take_out i [] = none
take_out i (d ∷ ds) =
    let rest = take_out (i - 1) ds in
    if i == 0 then some (d, ds) else elim rest [ none ↦ none | some (e, es) ↦ some (e, d ∷ es) ]

-- What `Execute` tells the breaker when the call returns.
abbrev pub leave_breaker : {B : Type 0} → Breaker B → Outcome → B → B
leave_breaker br (failed e) b = br.leave false b
leave_breaker br (returned r) b = br.leave true b

pub record Flights (B : Type 0) : Type 0 where
  pub state : State B
  pub under_way : List Download

module _ {B : Type 0} where
  -- From the call under the breaker to the end of the request.
  unfoldable pub complete_request : Breaker B → Download → State B → State B
  unfolding store answer call_analyzer
  complete_request br d s =
      let result = call_analyzer (new_version d.ecosystem d.name d.version) d.outcome in
      (answer d.ecosystem d.name d.version d.prompt (
        store (eco_name d.ecosystem) d.name d.version result
          (record s { breaker = leave_breaker br result s.breaker }))).0

  -- A miss enters the breaker; a call that is not admitted lets the request pass.
  abbrev pub enter_miss : Breaker B → Download → Flights B → Flights B
  enter_miss br d f =
      let (b, admitted) = br.enter f.state.breaker in
      record f {
        state = record f.state { breaker = b };
        under_way = if admitted then d ∷ f.under_way else f.under_way;
      }

  -- Up to the call under the breaker; a request that needs no analysis is answered.
  unfoldable pub begin_request : Breaker B → Config → Download → Flights B → Flights B
  unfolding handle_download
  begin_request br cfg d f =
      if cfg.insecure || is_trusted cfg.trusted (some (new_version d.ecosystem d.name d.version))
      then record f { state = (download br cfg d f.state).0 }
      else elim (get (eco_name d.ecosystem) d.name d.version f.state.cache) [
        | some r ↦ record f { state = (download br cfg d f.state).0 }
        | none ↦ enter_miss br d f
      ]

  abbrev pub end_request : Breaker B → Option (Download × List Download) → Flights B → Flights B
  end_request br none f = f
  end_request br (some (d, ds)) f = record { state = complete_request br d f.state; under_way = ds }

  unfoldable pub run_steps : Breaker B → Config → List RequestStep → Flights B → Flights B
  unfolding begin_request complete_request take_out
  run_steps br cfg [] f = f
  run_steps br cfg (begins d ∷ steps) f = run_steps br cfg steps (begin_request br cfg d f)
  run_steps br cfg (ends i ∷ steps) f =
      run_steps br cfg steps (end_request br (take_out i f.under_way) f)
