-- ===== src/Registry/Interceptor/Downloads.antt =====
-- When the interceptor of proxy/interceptors/base_registry.go refuses the download of a package.
use pmg.Prelude.{
  ◌≡◌, refl, sym, ◌∙◌, ◌⊎◌, inl, inr, ◌↔◌, Bool, true, false, ◌&&◌, Option, none, some, Text,
  Bool-cases, Option-cases, ◌==◌, arith,
}
use pmg.Analysis.{
  Ecosystem, confirm, block, AnalysisResult, not_found, failure, Outcome, failed, returned,
}
use pmg.Trusted.{is_trusted}
use pmg.Registry.Cache.{get, set}
use pmg.Registry.Interceptor.{
  eco_name, Config, Breaker, State, Run, panicked, done, Prompt, request_user_confirmation,
  Response, allow_request, block_request, modify_response, new_version, call_analyzer, execute,
  store, analyze_package, handle_confirm, handle_analysis_result, answer, handle_download,
}

-- The response is an HTTP 403.
abbrev pub is_refused : Run Response → Bool
is_refused panicked = false
is_refused (done allow_request) = false
is_refused (done (block_request code message)) = code == 403
is_refused (done (modify_response headers name days pinned)) = false

-- The user says yes in time.
abbrev pub consents : Prompt → Bool
consents p = p.taken && elim p.reply [ none ↦ false | some b ↦ b ]

-- The analysis is a reason to refuse: it blocks, or it asks and the user does not consent.
abbrev pub Refuses : Prompt → AnalysisResult → Type 0
Refuses p r = (r.action ≡ block) ⊎ ((r.action ≡ confirm) × (consents p ≡ false))

-- The analysis is neither bypassed nor the package trusted.
abbrev pub IsAnalyzed : Config → Ecosystem → Text → Text → Type 0
IsAnalyzed cfg eco name version =
    (cfg.insecure ≡ false) × (is_trusted cfg.trusted (some (new_version eco name version)) ≡ false)

module _ {B : Type 0} where
  handle_analysis_result-is_refused :
      (eco : Ecosystem) (name version : Text) (p : Prompt) (r : AnalysisResult) (s : State B)
      → (is_refused (done ((handle_analysis_result eco name version p r s).1)) ≡ true) ↔ Refuses p r
  unfolding handle_analysis_result handle_confirm request_user_confirmation
  handle_analysis_result-is_refused eco name version p r s = (λ h. ground arith, λ h. ground arith)

  -- What is known of the package: the cached analysis, or else what the analyzer returns, if the
  -- breaker admits the call.
  abbrev pub Known :
      Breaker B → Ecosystem → Text → Text → Outcome → State B → AnalysisResult → Type 0
  Known br eco name version outcome s r =
      (get (eco_name eco) name version s.cache ≡ some (some r))
      ⊎ ((get (eco_name eco) name version s.cache ≡ none)
          × ((br.enter s.breaker).1 ≡ true)
          × (outcome ≡ returned (some r)))

  module _ (br : Breaker B) (cfg : Config) (eco : Ecosystem) (name version : Text)
      (outcome : Outcome) (p : Prompt) (s : State B) where
    abbrev handled : Run Response
    handled = (handle_download br cfg eco name version outcome p s).1

    -- The state after the breaker's call, with the result in the cache.
    abbrev stored : AnalysisResult → State B
    stored r = record s {
      breaker = br.leave true ((br.enter s.breaker).0);
      cache = set (eco_name eco) name version (some r) s.cache;
    }

    handled-bypassed : cfg.insecure ≡ true → is_refused handled ≡ false
    unfolding handle_download analyze_package answer handle_analysis_result
    handled-bypassed h = ground arith

    handled-trusted :
        is_trusted cfg.trusted (some (new_version eco name version)) ≡ true
        → is_refused handled ≡ false
    unfolding handle_download analyze_package answer handle_analysis_result
    handled-trusted t = ground arith

    handled-cached :
        (r : AnalysisResult)
        → IsAnalyzed cfg eco name version
        → get (eco_name eco) name version s.cache ≡ some (some r)
        → is_refused handled ≡ is_refused (done ((handle_analysis_result eco name version p r s).1))
    unfolding handle_download analyze_package answer
    handled-cached r (h, t) c = ground arith

    handled-cached_nil :
        IsAnalyzed cfg eco name version
        → get (eco_name eco) name version s.cache ≡ some none
        → is_refused handled ≡ false
    unfolding handle_download analyze_package answer
    handled-cached_nil (h, t) c = ground arith

    module _ (known : get (eco_name eco) name version s.cache ≡ none)
        (analyzed : IsAnalyzed cfg eco name version) where
      handled-returned :
          (r : AnalysisResult)
          → (br.enter s.breaker).1 ≡ true
          → outcome ≡ returned (some r)
          → is_refused handled
            ≡ is_refused (done ((handle_analysis_result eco name version p r (stored r)).1))
      unfolding handle_download analyze_package answer store execute call_analyzer
      handled-returned r a o = ground arith

      handled-not_admitted : (br.enter s.breaker).1 ≡ false → is_refused handled ≡ false
      unfolding handle_download analyze_package answer store execute call_analyzer
      handled-not_admitted a = ground arith

      handled-failed : outcome ≡ failed failure → is_refused handled ≡ false
      unfolding handle_download analyze_package answer store execute call_analyzer
      handled-failed a = ground arith

      handled-not_found : outcome ≡ failed not_found → is_refused handled ≡ false
      unfolding handle_download analyze_package answer store execute call_analyzer
          handle_analysis_result
      handled-not_found a = ground arith

      handled-returned_nil : outcome ≡ returned none → is_refused handled ≡ false
      unfolding handle_download analyze_package answer store execute call_analyzer
      handled-returned_nil a = ground arith

      refused-Known :
          is_refused handled ≡ true
          → (r : AnalysisResult) × Known br eco name version outcome s r × Refuses p r
      refused-Known h = elim (Bool-cases ((br.enter s.breaker).1)) [
        | inr a ↦ cc (h, handled-not_admitted a)
        | inl a ↦ by_outcome outcome refl a
      ]
        where
          by_outcome :
              (o : Outcome)
              → outcome ≡ o
              → (br.enter s.breaker).1 ≡ true
              → (r : AnalysisResult) × Known br eco name version outcome s r × Refuses p r
          by_outcome (failed not_found) e a = cc (h, handled-not_found e)
          by_outcome (failed failure) e a = cc (h, handled-failed e)
          by_outcome (returned none) e a = cc (h, handled-returned_nil e)
          by_outcome (returned (some r)) e a = (
            r,
            inr (known, a, e),
            (handle_analysis_result-is_refused eco name version p r (stored r)).0
                (sym (handled-returned r a e) ∙ h),
          )

    Known-refused :
        (r : AnalysisResult)
        → IsAnalyzed cfg eco name version
        → Known br eco name version outcome s r
        → Refuses p r
        → is_refused handled ≡ true
    Known-refused r n (inl c) f =
        handled-cached r n c ∙ (handle_analysis_result-is_refused eco name version p r s).1 f
    Known-refused r n (inr (c, a, e)) f =
        handled-returned c n r a e
        ∙ (handle_analysis_result-is_refused eco name version p r (stored r)).1 f

    refused-cached :
        (o : Option AnalysisResult)
        → IsAnalyzed cfg eco name version
        → get (eco_name eco) name version s.cache ≡ some o
        → is_refused handled ≡ true
        → (r : AnalysisResult) × Known br eco name version outcome s r × Refuses p r
    refused-cached none n c h = cc (h, handled-cached_nil n c)
    refused-cached (some r) n c h = (
      r,
      inl c,
      (handle_analysis_result-is_refused eco name version p r s).0 (sym (handled-cached r n c) ∙ h),
    )

  -- A download is refused with a 403 exactly when the analysis is not bypassed, the package is not
  -- trusted, and what is known of it (the cached analysis, and without one what the analyzer
  -- returns behind the breaker) blocks, or asks for a confirmation that the user does not give in
  -- time. In particular an analyzer that fails and a breaker that is open refuse nothing.
  pub handle_download-is_refused :
      (br : Breaker B) (cfg : Config) (eco : Ecosystem) (name version : Text) (outcome : Outcome)
      (p : Prompt) (s : State B)
      → (is_refused ((handle_download br cfg eco name version outcome p s).1) ≡ true) ↔ (
          IsAnalyzed cfg eco name version
          × ((r : AnalysisResult) × Known br eco name version outcome s r × Refuses p r))
  handle_download-is_refused br cfg eco name version outcome p s = (
    λ h. elim (Bool-cases cfg.insecure) [
      | inl i ↦ cc (h, handled-bypassed br cfg eco name version outcome p s i)
      | inr i ↦ elim (Bool-cases (is_trusted cfg.trusted (some (new_version eco name version)))) [
        | inl t ↦ cc (h, handled-trusted br cfg eco name version outcome p s t)
        | inr t ↦ (
          (i, t),
          elim (Option-cases (get (eco_name eco) name version s.cache)) [
            | inl c ↦ refused-Known br cfg eco name version outcome p s c (i, t) h
            | inr (o, c) ↦ refused-cached br cfg eco name version outcome p s o (i, t) c h
          ],
        )
      ]
    ],
    λ (n, (r, k, f)). Known-refused br cfg eco name version outcome p s r n k f,
  )
