-- ===== src/Registry/NpmRegistry.antt =====
-- proxy/interceptors/npm_registry.go and the handler of npm_cooldown.go: the requests to NPM
-- registries. `time.Parse`, the clock and the local malware feed are arguments.
pub mod Refusals
pub mod Metadata
use pmg.Prelude.{
  ℕ, ◌<◌, Bool, true, false, not, ltb, Option, none, some, is_some, or_else, Text, codes, List, [],
  ◌∷◌, if◌then◌else◌,
}
use pmg.Prelude.Result.{Result, ok, err}
use pmg.Analysis.{npm, PackageVersion, Outcome}
use pmg.Audit.{Log}
use pmg.Registry.Cache.{lookup, insert, erase}
use pmg.Registry.Stats.{StatsCollector}
use pmg.Registry.Hosts.{config_for_hostname, contains_hostname}
use pmg.Registry.NpmUrl.{NpmPackageInfo, UrlError, parse_url, parse_github_url}
use pmg.Registry.NpmCooldown.{Body, parse_metadata_time, strip_cooldown_versions}
use pmg.Registry.CooldownReport.{record_cooldown_stats}
use pmg.Registry.Interceptor.{
  Config, Breaker, State, Run, done, Prompt, Headers, Response, allow_request, modify_response,
  handle_download,
}

pub record RegistryConfig : Type 0 where
  pub host : Text
  pub supported_for_analysis : Bool
  pub parser : Text → Result UrlError NpmPackageInfo

abbrev registry_config :
    Text → Bool → (Text → Result UrlError NpmPackageInfo) → Text × RegistryConfig
registry_config h supported p =
    (h, record { host = h; supported_for_analysis = supported; parser = p })

-- `npmRegistryDomains`
abbrev pub npm_domains : List (Text × RegistryConfig)
npm_domains =
    registry_config (codes "registry.npmjs.org") true parse_url
    ∷ registry_config (codes "registry.yarnpkg.com") true parse_url
    ∷ registry_config (codes "npm.pkg.github.com") false parse_github_url
    ∷ registry_config (codes "pkg-npm.githubusercontent.com") false parse_github_url
    ∷ []

unfoldable pub should_mitm : Text → Bool
should_mitm hostname = elim (config_for_hostname npm_domains hostname) [
  | none ↦ false
  | some c ↦ c.supported_for_analysis
]

unfoldable pub should_intercept : Text → Bool
should_intercept hostname = contains_hostname npm_domains hostname

-- `HandleMetadataRequest`: the headers set and deleted, and the response that is to be modified.
unfoldable pub handle_metadata_request : Headers → Text → ℕ → Text → Response
handle_metadata_request headers name days pinned =
    modify_response
      (erase (codes "If-Modified-Since") (
        erase (codes "If-None-Match") (
          insert (codes "Accept-Encoding") (codes "identity" ∷ [])
            (insert (codes "Accept") (codes "application/json" ∷ []) headers))))
      name days pinned

module _ {B : Type 0} where
  -- After the URL is parsed.
  unfoldable pub handle_package :
      Breaker B
      → Config
      → List (Text × Text)
      → Headers
      → NpmPackageInfo
      → Outcome
      → Prompt
      → State B
      → State B × Run Response
  handle_package br cfg pinned headers info outcome p s =
      if not info.is_tarball
      then (if cfg.cooldown_enabled
          then (
            s,
            done (
                handle_metadata_request headers info.name cfg.cooldown_days
                  (or_else (lookup info.name pinned) [])),
          )
          else (s, done allow_request))
      else handle_download br cfg npm info.name info.version outcome p s

  -- `HandleRequest`
  unfoldable pub handle_request :
      Breaker B
      → Config
      → List (Text × Text)
      → (hostname path : Text) → Headers
      → Outcome
      → Prompt
      → State B
      → State B × Run Response
  handle_request br cfg pinned hostname path headers outcome p s =
      elim (config_for_hostname npm_domains hostname) [
        | none ↦ (s, done allow_request)
        | some c ↦
            if not c.supported_for_analysis then (s, done allow_request) else elim (c.parser path) [
              | err e ↦ (s, done allow_request)
              | ok info ↦ handle_package br cfg pinned headers info outcome p s
            ]
      ]

-- What the response modifier returns, and the books after it.
pub record Modified : Type 0 where
  pub headers : Headers
  pub body : Body
  pub collector : Option StatsCollector
  pub log : Log

-- The response modifier.
unfoldable pub modify_metadata :
    (Text → Option ℕ)
    → Option (PackageVersion → Outcome)
    → (now : ℕ) → (name : Text) → (days : ℕ) → (pinned : Text) → Modified
    → Modified
modify_metadata parse_date check now name days pinned m =
    elim (parse_metadata_time parse_date m.body) [
      | none ↦ m
      | some dates ↦
          let (stripped_body, stripped, remaining) =
            strip_cooldown_versions now days m.body dates in
          let (c, l) =
            record_cooldown_stats npm name days check now pinned dates remaining m.collector
              m.log in
          if ltb 0 stripped
          then record {
            headers = insert (codes "Cache-Control") (codes "no-store" ∷ []) m.headers;
            body = stripped_body;
            collector = c;
            log = l;
          }
          else m
    ]
