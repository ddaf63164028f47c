-- ===== src/Registry/PypiRegistry.antt =====
-- proxy/interceptors/pypi_registry.go and the handler of pypi_cooldown.go: the requests to PyPI's
-- registries.
pub mod Refusals
use pmg.Prelude.{
  ℕ, Bool, true, false, not, ◌||◌, ◌&&◌, Option, none, some, or_else, Text, codes, is_empty,
  has_prefix, List, [], ◌∷◌, if◌then◌else◌,
}
use pmg.Prelude.Result.{Result, ok, err}
use pmg.Analysis.{pypi, Outcome}
use pmg.Registry.Cache.{lookup, insert, erase}
use pmg.Registry.Hosts.{config_for_hostname, contains_hostname}
use pmg.Registry.PypiUrl.{PypiPackageInfo, PypiError, parse_files_url, parse_org_url, denormalize}
use pmg.Registry.Interceptor.{
  Config, Breaker, State, Run, done, Prompt, Headers, Response, allow_request, modify_response,
  handle_download,
}

pub record PypiRegistryConfig : Type 0 where
  pub host : Text
  pub supported_for_analysis : Bool
  pub parser : Text → Result PypiError PypiPackageInfo

module _ (lower_beyond : ℕ → ℕ) where
  abbrev pypi_config :
      Text → Bool → (Text → Result PypiError PypiPackageInfo) → Text × PypiRegistryConfig
  pypi_config h supported p =
      (h, record { host = h; supported_for_analysis = supported; parser = p })

  -- `pypiRegistryDomains`
  abbrev pub pypi_domains : List (Text × PypiRegistryConfig)
  pypi_domains =
      pypi_config (codes "files.pythonhosted.org") true (parse_files_url lower_beyond)
      ∷ pypi_config (codes "pypi.org") true (parse_org_url lower_beyond)
      ∷ pypi_config (codes "test.pypi.org") false (parse_org_url lower_beyond)
      ∷ pypi_config (codes "test-files.pythonhosted.org") false (parse_files_url lower_beyond)
      ∷ []

  unfoldable pub pypi_should_mitm : Text → Bool
  pypi_should_mitm hostname = elim (config_for_hostname pypi_domains hostname) [
    | none ↦ false
    | some c ↦ c.supported_for_analysis
  ]

  unfoldable pub pypi_should_intercept : Text → Bool
  pypi_should_intercept hostname = contains_hostname pypi_domains hostname

  -- The pinned versions by the normalized names: Go's map keeps one of those that are alike, here the
  -- first of the list is found.
  unfoldable pub normalized_pinned : List (Text × Text) → List (Text × Text)
  normalized_pinned [] = []
  normalized_pinned ((name, version) ∷ ps) =
      (denormalize lower_beyond name, version) ∷ normalized_pinned ps

-- `HandleMetadataRequest`: the headers set and deleted, and the response that is to be modified.
unfoldable pub pypi_metadata_request : Headers → Text → ℕ → Text → Response
pypi_metadata_request headers name days pinned =
    modify_response
      (erase (codes "If-Modified-Since") (
        erase (codes "If-None-Match") (
          insert (codes "Accept-Encoding") (codes "identity" ∷ [])
            (insert (codes "Accept") (codes "application/vnd.pypi.simple.v1+json" ∷ []) headers))))
      name days pinned

module _ {B : Type 0} where
  -- After the URL is parsed.
  unfoldable pub pypi_handle_package :
      Breaker B
      → Config
      → List (Text × Text)
      → (path : Text) → Headers
      → PypiPackageInfo
      → Outcome
      → Prompt
      → State B
      → State B × Run Response
  unfolding pypi_metadata_request
  pypi_handle_package br cfg pinned path headers info outcome p s =
      if not info.is_download
      then (if cfg.cooldown_enabled && has_prefix path (codes "/simple/")
          then (
            s,
            done (
                pypi_metadata_request headers info.name cfg.cooldown_days
                  (or_else (lookup info.name pinned) [])),
          )
          else (s, done allow_request))
      else if is_empty info.name || is_empty info.version
      then (s, done allow_request)
      else handle_download br cfg pypi info.name info.version outcome p s

  -- `HandleRequest`
  unfoldable pub pypi_handle_request :
      (ℕ → ℕ)
      → Breaker B
      → Config
      → List (Text × Text)
      → (hostname path : Text) → Headers
      → Outcome
      → Prompt
      → State B
      → State B × Run Response
  unfolding pypi_handle_package
  pypi_handle_request lower br cfg pinned hostname path headers outcome p s =
      elim (config_for_hostname (pypi_domains lower) hostname) [
        | none ↦ (s, done allow_request)
        | some c ↦
            if not c.supported_for_analysis then (s, done allow_request) else elim (c.parser path) [
              | err e ↦ (s, done allow_request)
              | ok info ↦ pypi_handle_package br cfg pinned path headers info outcome p s
            ]
      ]
