-- ===== src/Registry/NpmRegistry/Refusals.antt =====
-- Which requests `HandleRequest` of proxy/interceptors/npm_registry.go refuses, and that the verdict
-- of an analyzer reaches the client.
use pmg.Prelude.{
  ℕ, ◌≡◌, refl, sym, ◌∙◌, ◌≢◌, ◌↔◌, inl, inr, Bool, true, false, none, some, Text, codes, List, [],
  ◌∷◌, Lacks, join_with, any, Bool-cases, Option-cases, arith,
}
use pmg.Prelude.Result.{Result, ok, err}
use pmg.Analysis.{npm, block, AnalysisResult, Outcome, failed, returned}
use pmg.Analysis.Composite.{is_malware_block, analyze}
use pmg.Analysis.Composite.Verdict.{is_malware_block-analyze}
use pmg.Registry.Cache.{get}
use pmg.Registry.Hosts.{config_for_hostname}
use pmg.Registry.NpmUrl.{NpmPackageInfo, UrlError, parse_url}
use pmg.Registry.NpmUrl.Roundtrips.{tarball_name, parse_url-unscoped_tarball}
use pmg.Registry.Interceptor.{Config, Breaker, State, Prompt, Headers, new_version, eco_name}
use pmg.Registry.Interceptor.Downloads.{
  is_refused, IsAnalyzed, Known, Refuses, handle_download-is_refused,
}
use pmg.Registry.NpmRegistry.{
  RegistryConfig, npm_domains, handle_metadata_request, handle_package, handle_request,
}

module _ {B : Type 0} (br : Breaker B) (cfg : Config) (pinned : List (Text × Text))
    (headers : Headers) (outcome : Outcome) (p : Prompt) (s : State B) where
  -- A package's file is downloaded, and what is known of the package is a reason to refuse.
  abbrev pub IsRefusable : NpmPackageInfo → Type 0
  IsRefusable info =
      (info.is_tarball ≡ true)
      × IsAnalyzed cfg npm info.name info.version
      × ((r : AnalysisResult) × Known br npm info.name info.version outcome s r × Refuses p r)

  handle_package-is_refused :
      (info : NpmPackageInfo)
      → (is_refused ((handle_package br cfg pinned headers info outcome p s).1) ≡ true)
        ↔ IsRefusable info
  unfolding handle_package handle_metadata_request
  handle_package-is_refused info = elim (Bool-cases info.is_tarball) [
    | inl t ↦
        let h = handle_download-is_refused br cfg npm info.name info.version outcome p s in
        (λ e. let (n, k) = h.0 (ground arith) in (t, n, k), λ (_, n, k). ground (arith, h.1 (n, k)))
    | inr t ↦ (λ e. absurd (ground arith), λ (u, _, _). cc (t, u))
  ]

  module _ (hostname path : Text) where
    abbrev handled : Bool
    handled = is_refused ((handle_request br cfg pinned hostname path headers outcome p s).1)

    handled-none : config_for_hostname npm_domains hostname ≡ none → handled ≡ false
    unfolding handle_request
    handled-none e = ground arith

    handled-unsupported :
        (c : RegistryConfig)
        → config_for_hostname npm_domains hostname ≡ some c
        → c.supported_for_analysis ≡ false
        → handled ≡ false
    unfolding handle_request
    handled-unsupported c e u = ground arith

    handled-unparsed :
        (c : RegistryConfig) (x : UrlError)
        → config_for_hostname npm_domains hostname ≡ some c
        → c.parser path ≡ err x
        → handled ≡ false
    unfolding handle_request
    handled-unparsed c x e f = ground arith

    handled-parsed :
        (c : RegistryConfig) (info : NpmPackageInfo)
        → config_for_hostname npm_domains hostname ≡ some c
        → c.supported_for_analysis ≡ true
        → c.parser path ≡ ok info
        → handled ≡ is_refused ((handle_package br cfg pinned headers info outcome p s).1)
    unfolding handle_request
    handled-parsed c info e u f = ground arith

  handled-Refusable :
      (hostname path : Text) (c : RegistryConfig) (x : Result UrlError NpmPackageInfo)
      → config_for_hostname npm_domains hostname ≡ some c
      → c.supported_for_analysis ≡ true
      → c.parser path ≡ x
      → handled hostname path ≡ true
      → (info : NpmPackageInfo) × (c.parser path ≡ ok info) × IsRefusable info
  handled-Refusable hostname path c (err x) e u f h = cc (h, handled-unparsed hostname path c x e f)
  handled-Refusable hostname path c (ok info) e u f h = (
    info,
    f,
    (handle_package-is_refused info).0 (sym (handled-parsed hostname path c info e u f) ∙ h),
  )

  -- A request is refused exactly when the hostname's registry is supported for analysis, the path
  -- parses as a tarball, the analysis is neither bypassed nor the package trusted, and what is
  -- known of the package is a reason to refuse.
  pub handle_request-is_refused :
      (hostname path : Text)
      → (is_refused ((handle_request br cfg pinned hostname path headers outcome p s).1) ≡ true) ↔ (
          (c : RegistryConfig) × (config_for_hostname npm_domains hostname ≡ some c)
          × (c.supported_for_analysis ≡ true)
          × ((info : NpmPackageInfo) × (c.parser path ≡ ok info) × IsRefusable info))
  handle_request-is_refused hostname path = (
    λ h. elim (Option-cases (config_for_hostname npm_domains hostname)) [
      | inl e ↦ cc (h, handled-none hostname path e)
      | inr (c, e) ↦ elim (Bool-cases c.supported_for_analysis) [
        | inr u ↦ cc (h, handled-unsupported hostname path c e u)
        | inl u ↦ (c, e, u, handled-Refusable hostname path c (c.parser path) e u refl h)
      ]
    ],
    λ (c, e, u, (info, f, n)).
        handled-parsed hostname path c info e u f ∙ (handle_package-is_refused info).1 n,
  )

-- A malware verdict is a block.
is_malware_block-block :
    (o : Outcome)
    → is_malware_block o ≡ true
    → (r : AnalysisResult) × (o ≡ returned (some r)) × (r.action ≡ block)
is_malware_block-block (failed e) h = cc
is_malware_block-block (returned none) h = cc
is_malware_block-block (returned (some r)) h = (r, refl, ground arith)

abbrev pub npmjs : Text
npmjs = codes "registry.npmjs.org"

npmjs_config :
    config_for_hostname npm_domains npmjs
    ≡ some (record { host = npmjs; supported_for_analysis = true; parser = parse_url })
unfolding config_for_hostname pmg.Registry.Hosts.exact
npmjs_config = refl

-- The whole way of a verdict: two analyzers or more are asked about an unscoped package that is not
-- trusted, with analyses not bypassed, nothing cached and the breaker closed. If any one of them says
-- malware, the download of the package's tarball from registry.npmjs.org is refused, whatever the
-- others say, in whatever order they answer, in paranoid mode or not, and whatever the user replies.
pub handle_request-analyze :
    {B : Type 0} (br : Breaker B) (cfg : Config) (pinned : List (Text × Text)) (headers : Headers)
    (paranoid : Bool) (o o' : Outcome) (os : List Outcome) (p : Prompt) (s : State B) (c : ℕ)
    (n v : Text)
    → Lacks b'/' (c ∷ n)
    → c ≢ b'@'
    → Lacks b'/' v
    → v ≢ []
    → IsAnalyzed cfg npm (c ∷ n) v
    → get (eco_name npm) (c ∷ n) v s.cache ≡ none
    → (br.enter s.breaker).1 ≡ true
    → any is_malware_block (o ∷ o' ∷ os) ≡ true
    → is_refused (
        (handle_request br cfg pinned npmjs
          (b'/' ∷ join_with b'/' ((c ∷ n) ∷ codes "-" ∷ tarball_name (c ∷ n) v ∷ []))
          headers
          (analyze paranoid (new_version npm (c ∷ n) v) (o ∷ o' ∷ os))
          p
          s).1)
      ≡ true
handle_request-analyze br cfg pinned headers paranoid o o' os p s c n v hn hc hv ne fresh
      none_cached closed m =
    let pv = new_version npm (c ∷ n) v in
    let verdict = analyze paranoid pv (o ∷ o' ∷ os) in
    let (r, e, b) =
      is_malware_block-block verdict (is_malware_block-analyze paranoid pv o o' os ∙ m) in
    (handle_request-is_refused br cfg pinned headers verdict p s npmjs _).1 (
      _,
      npmjs_config,
      refl,
      (
        _,
        parse_url-unscoped_tarball c n v hn hc hv ne,
        (refl, fresh, (r, inr (none_cached, closed, e), inl b)),
      ),
    )
