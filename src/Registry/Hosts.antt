-- ===== src/Registry/Hosts.antt =====
-- proxy/interceptors/registry_config.go: the configuration of a registry, found by hostname. The map
-- is the list of its entries, in the order in which the loop visits them, which Go does not fix.
pub mod Longest
use pmg.Prelude.{
  ℕ, Bool, Option, none, some, Text, ◌∷◌, [], ◌=ₜ◌, List, length, has_suffix, is_some, ltb,
  if◌then◌else◌,
}

-- `strings.HasSuffix(hostname, "."+endpoint)`
abbrev pub is_subdomain : Text → Text → Bool
is_subdomain hostname endpoint = has_suffix hostname (b'.' ∷ endpoint)

module _ {ℓ} {C : Type ℓ} where
  -- `m[hostname]`
  unfoldable pub exact : Text → List (Text × C) → Option C
  exact hostname [] = none
  exact hostname ((endpoint, c) ∷ m) = if endpoint =ₜ hostname then some c else exact hostname m

  -- The loop, with `bestConfig` and `bestLen`.
  unfoldable pub best_loop : Text → Option C → ℕ → List (Text × C) → Option C
  best_loop hostname best best_len [] = best
  best_loop hostname best best_len ((endpoint, c) ∷ m) =
      let taken = best_loop hostname (some c) (length endpoint) m in
      let passed = best_loop hostname best best_len m in
      if is_subdomain hostname endpoint
      then (if ltb best_len (length endpoint) then taken else passed)
      else passed

  -- `GetConfigForHostname`
  unfoldable pub config_for_hostname : List (Text × C) → Text → Option C
  config_for_hostname m hostname = elim (exact hostname m) [
    | some c ↦ some c
    | none ↦ best_loop hostname none 0 m
  ]

  unfoldable pub contains_hostname : List (Text × C) → Text → Bool
  contains_hostname m hostname = is_some (config_for_hostname m hostname)
