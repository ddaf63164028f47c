-- ===== src/Registry/PypiRegistry/Refusals.antt =====
-- Which requests `HandleRequest` of proxy/interceptors/pypi_registry.go refuses.
use pmg.Prelude.{
  ℕ, ◌≡◌, refl, sym, ◌∙◌, ◌↔◌, inl, inr, Bool, true, false, ◌||◌, none, some, Text, is_empty, List,
  Bool-cases, Option-cases, arith,
}
use pmg.Prelude.Result.{Result, ok, err}
use pmg.Analysis.{pypi, AnalysisResult, Outcome}
use pmg.Registry.Hosts.{config_for_hostname}
use pmg.Registry.PypiUrl.{PypiPackageInfo, PypiError}
use pmg.Registry.Interceptor.{Config, Breaker, State, Prompt, Headers}
use pmg.Registry.Interceptor.Downloads.{
  is_refused, IsAnalyzed, Known, Refuses, handle_download-is_refused,
}
use pmg.Registry.PypiRegistry.{
  PypiRegistryConfig, pypi_domains, pypi_metadata_request, pypi_handle_package, pypi_handle_request,
}

module _ {B : Type 0} (lower : ℕ → ℕ) (br : Breaker B) (cfg : Config) (pinned : List (Text × Text))
    (headers : Headers) (outcome : Outcome) (p : Prompt) (s : State B) where
  -- A file is downloaded whose name and version are known, and what is known is a reason to refuse.
  abbrev pub IsRefusableFile : PypiPackageInfo → Type 0
  IsRefusableFile info =
      (info.is_download ≡ true)
      × ((is_empty info.name || is_empty info.version) ≡ false)
      × IsAnalyzed cfg pypi info.name info.version
      × ((r : AnalysisResult) × Known br pypi info.name info.version outcome s r × Refuses p r)

  module _ (hostname path : Text) where
    file-is_refused :
        (info : PypiPackageInfo)
        → (is_refused ((pypi_handle_package br cfg pinned path headers info outcome p s).1) ≡ true)
          ↔ IsRefusableFile info
    unfolding pypi_handle_package pypi_metadata_request
    file-is_refused info = elim (Bool-cases info.is_download) [
      | inl t ↦ elim (Bool-cases (is_empty info.name || is_empty info.version)) [
        | inl n ↦ (λ e. absurd (ground arith), λ (_, m, _, _). cc (n, m))
        | inr n ↦
            let h = handle_download-is_refused br cfg pypi info.name info.version outcome p s in
            (
              λ e. let (a, k) = h.0 (ground arith) in (t, n, a, k),
              λ (_, _, a, k). ground (arith, h.1 (a, k)),
            )
      ]
      | inr t ↦ (λ e. absurd (ground arith), λ (u, _, _, _). cc (t, u))
    ]

    abbrev answered : Bool
    answered =
        is_refused ((pypi_handle_request lower br cfg pinned hostname path headers outcome p s).1)

    answered-none : config_for_hostname (pypi_domains lower) hostname ≡ none → answered ≡ false
    unfolding pypi_handle_request
    answered-none e = ground arith

    module _ (c : PypiRegistryConfig)
        (e : config_for_hostname (pypi_domains lower) hostname ≡ some c) where
      answered-unsupported : c.supported_for_analysis ≡ false → answered ≡ false
      unfolding pypi_handle_request
      answered-unsupported u = ground arith

      answered-unparsed : (x : PypiError) → c.parser path ≡ err x → answered ≡ false
      unfolding pypi_handle_request
      answered-unparsed x f = ground arith

      answered-parsed :
          (info : PypiPackageInfo)
          → c.supported_for_analysis ≡ true
          → c.parser path ≡ ok info
          → answered
            ≡ is_refused ((pypi_handle_package br cfg pinned path headers info outcome p s).1)
      unfolding pypi_handle_request
      answered-parsed info u f = ground arith

      answered-Refusable :
          (x : Result PypiError PypiPackageInfo)
          → c.supported_for_analysis ≡ true
          → c.parser path ≡ x
          → answered ≡ true
          → (info : PypiPackageInfo) × (c.parser path ≡ ok info) × IsRefusableFile info
      answered-Refusable (err x) u f h = cc (h, answered-unparsed x f)
      answered-Refusable (ok info) u f h =
          (info, f, (file-is_refused info).0 (sym (answered-parsed info u f) ∙ h))

    -- A request to a host of PyPI is refused exactly when the host's registry is supported for
    -- analysis, the path parses as a file with a name and a version, the analysis is neither
    -- bypassed nor the package trusted, and what is known of the package is a reason to refuse.
    pub pypi_handle_request-is_refused : (answered ≡ true) ↔ (
        (c : PypiRegistryConfig) × (config_for_hostname (pypi_domains lower) hostname ≡ some c)
        × (c.supported_for_analysis ≡ true)
        × ((info : PypiPackageInfo) × (c.parser path ≡ ok info) × IsRefusableFile info))
    pypi_handle_request-is_refused = (
      λ h. elim (Option-cases (config_for_hostname (pypi_domains lower) hostname)) [
        | inl e ↦ cc (h, answered-none e)
        | inr (c, e) ↦ elim (Bool-cases c.supported_for_analysis) [
          | inr u ↦ cc (h, answered-unsupported c e u)
          | inl u ↦ (c, e, u, answered-Refusable c e (c.parser path) u refl h)
        ]
      ],
      λ (c, e, u, (info, f, n)). answered-parsed c e info u f ∙ (file-is_refused info).1 n,
    )
