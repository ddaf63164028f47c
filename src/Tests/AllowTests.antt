-- ===== src/Tests/AllowTests.antt =====
-- Runs of the reading of `--sandbox-allow`, and a witness.
use pmg.Prelude.{
  ℕ, ◌≡◌, refl, Bool, true, false, Option, none, some, Text, codes, contains_text, List, [], ◌∷◌,
  ◌++◌, arith,
}
use pmg.Prelude.Result.{err}
use pmg.Tests.PlatformTests.{a_policy}
use pmg.SandboxAllow.{
  SandboxAllowOverride, sandbox_allow_net_connect, sandbox_allow_write, resolve_exec_path,
  parse_sandbox_allow_overrides, ambiguous_net,
}
use pmg.SandboxAllow.Overrides.{apply_runtime_overrides, apply_runtime_overrides_lem}
use pmg.SandboxAllow.Addresses.{accepted}

-- A relative path becomes a pattern where the working directory's name is one.
exec_pattern_runs :
    accepted (resolve_exec_path (some (codes "/w/[a]")) (codes "bin/x"))
    ≡ some (codes "/w/[a]/bin/x")
unfolding resolve_exec_path pmg.Prelude.strip_prefix pmg.Prelude.contains_code pmg.Prelude.join_with
    pmg.Prelude.split_on
exec_pattern_runs = refl

net_runs :
    parse_sandbox_allow_overrides none (codes "net=a:1" ∷ codes "read=/a" ∷ []) ≡ err ambiguous_net
unfolding parse_sandbox_allow_overrides
net_runs = refl

abbrev two_overrides : List SandboxAllowOverride
two_overrides =
    record {
      allow_type = sandbox_allow_write;
      value = codes "${CWD}/src";
      raw = codes "write=${CWD}/src";
    }
    ∷ record {
      allow_type = sandbox_allow_net_connect;
      value = codes "b:1";
      raw = codes "net-connect=b:1";
    }
    ∷ []

apply_runtime_overrides_lem_example :
    (contains_text
        (apply_runtime_overrides two_overrides a_policy).filesystem.deny_write
        (codes "${CWD}/src")
      ≡ false)
    × (contains_text
          (apply_runtime_overrides two_overrides a_policy).filesystem.allow_write
          (codes "${CWD}/src")
        ≡ true)
unfolding contains_text
apply_runtime_overrides_lem_example =
    apply_runtime_overrides_lem two_overrides a_policy (codes "${CWD}/src")
