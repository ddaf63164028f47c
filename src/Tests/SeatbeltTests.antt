-- ===== src/Tests/SeatbeltTests.antt =====
-- The profile of sandbox/platform/seatbelt_translator_darwin.go on one policy.
use pmg.Prelude.{
  ◌≡◌, refl, ◌⊎◌, inl, any, is_empty, true, false, not, none, some, or_else, Text, codes,
  contains_text, strip_prefix, strip_suffix, contains_code, join_with, split_on, List, [], ◌∷◌,
}
use pmg.Sandbox.{SandboxPolicy}
use pmg.SandboxUtil.{expand_variables, contains_glob}
use pmg.SandboxUtil.GlobRegex.{glob_to_regex}
use pmg.SandboxUtil.Dangerous.Secrets.{of_work}
use pmg.Platform.Seatbelt.{ProfileRule}
use pmg.Platform.Seatbelt.Verdicts.{Kernel, permits}
use pmg.Platform.Seatbelt.Translator.{
  SeatbeltPolicyTranslator, Expanded, new_seatbelt_policy_translator, expand_policy, expand_each,
  profile, seatbelt_translate, seatbelt_mandatory,
}
use pmg.Platform.Seatbelt.Denied.{
  seatbelt_translate-denied_write, seatbelt_translate-denied_read,
  seatbelt_translate-mandatory_write,
}
use pmg.Platform.Seatbelt.Granted.{
  InTemp, is_null, is_allowed, is_terminal, seatbelt_translate-permitted_write,
}
use pmg.Platform.Seatbelt.Executions.{denied_exec, seatbelt_translate-exec}
use pmg.Tests.PlatformTests.{a_policy, an_env}

abbrev a_kernel : Kernel
a_kernel = record { matches_regex = λ r q. false; is_char_device = λ q. false }

abbrev nothing_expanded : Expanded
nothing_expanded = record {
  allow_read = [];
  allow_write = [];
  deny_read = [];
  deny_write = [];
  must_deny_write = [];
  must_deny_read = [];
  allow_exec = [];
  deny_exec = [];
}

abbrev an_expansion : Expanded
an_expansion =
    or_else (expand_policy new_seatbelt_policy_translator an_env a_policy) nothing_expanded

abbrev a_profile : List ProfileRule
a_profile = profile new_seatbelt_policy_translator [] a_policy an_expansion

translated_runs :
    seatbelt_translate new_seatbelt_policy_translator an_env [] a_policy ≡ some a_profile
unfolding seatbelt_translate expand_policy expand_each expand_variables seatbelt_mandatory
    contains_text strip_prefix pmg.Paths.join_path pmg.Registry.Cache.lookup
    pmg.Registry.Cache.insert
translated_runs = refl

seatbelt_translate-denied_write_example :
    permits a_kernel (codes "file-write-create") (codes "/w/src/a.c") a_profile ≡ false
unfolding contains_text expand_variables pmg.Paths.clean strip_prefix join_with split_on
    contains_glob contains_code pmg.Platform.Bubblewrap.Mounts.covers
seatbelt_translate-denied_write_example =
    seatbelt_translate-denied_write a_kernel (codes "/w/src/a.c") new_seatbelt_policy_translator
      an_env [] a_policy a_profile (codes "${CWD}/src") (codes "/w/src") (codes "-create")
      translated_runs refl refl refl refl

seatbelt_translate-denied_read_example :
    permits a_kernel (codes "file-read-data") (codes "/w/src/a.c") a_profile ≡ false
unfolding contains_text expand_variables pmg.Paths.clean strip_prefix join_with split_on
    contains_glob contains_code pmg.Platform.Bubblewrap.Mounts.covers
seatbelt_translate-denied_read_example =
    seatbelt_translate-denied_read a_kernel (codes "/w/src/a.c") new_seatbelt_policy_translator
      an_env [] a_policy a_profile (codes "${CWD}/src") (codes "/w/src") (codes "-data")
      translated_runs refl refl refl refl

-- The policy allows all of the working directory.
seatbelt_translate-mandatory_write_example :
    permits a_kernel (codes "file-write-data") (codes "/w/.git/hooks/pre-commit") a_profile ≡ false
unfolding contains_text pmg.Paths.clean pmg.Paths.join_path join_with split_on expand_variables
    strip_prefix contains_glob contains_code pmg.Platform.Bubblewrap.Mounts.covers
seatbelt_translate-mandatory_write_example =
    seatbelt_translate-mandatory_write a_kernel (codes "/w/.git/hooks/pre-commit")
      new_seatbelt_policy_translator an_env [] a_policy a_profile (codes "/w")
      (codes "/w/.git/hooks") (codes "/w/.git/hooks") (codes "-data") translated_runs refl
      (of_work refl) (inl refl) refl refl refl refl

abbrev a_translator : SeatbeltPolicyTranslator
a_translator = record {
  enable_move_blocking_mitigation = true;
  enable_dangerous_file_blocking = false;
}

abbrev exec_policy : SandboxPolicy
exec_policy = record {
  name = codes "p";
  description = [];
  inherits = [];
  package_managers = codes "npm" ∷ [];
  filesystem = record {
    allow_read = [];
    allow_write = codes "${CWD}" ∷ [];
    deny_read = [];
    deny_write = [];
  };
  network = record { allow_outbound = []; deny_outbound = []; allow_bind = [] };
  process = record { allow_exec = codes "/bin/sh" ∷ []; deny_exec = codes "/usr/bin/curl" ∷ [] };
  allow_git_config = none;
  allow_pty = none;
  allow_network_bind = none;
}

abbrev small_expansion : Expanded
small_expansion = record {
  allow_read = [];
  allow_write = codes "/w" ∷ [];
  deny_read = [];
  deny_write = [];
  must_deny_write = [];
  must_deny_read = [];
  allow_exec = codes "/bin/sh" ∷ [];
  deny_exec = codes "/usr/bin/curl" ∷ [];
}

abbrev small_profile : List ProfileRule
small_profile = profile a_translator [] exec_policy small_expansion

small_runs : seatbelt_translate a_translator an_env [] exec_policy ≡ some small_profile
unfolding seatbelt_translate expand_policy expand_each expand_variables strip_prefix
small_runs = refl

abbrev tmpdir : Text
tmpdir = codes "/var/folders/ab/c_d/T/"

abbrev temp_profile : List ProfileRule
temp_profile = profile a_translator tmpdir exec_policy small_expansion

temp_runs : seatbelt_translate a_translator an_env tmpdir exec_policy ≡ some temp_profile
unfolding seatbelt_translate expand_policy expand_each expand_variables strip_prefix
temp_runs = refl

abbrev written : Text
written = codes "/private/var/folders/ab/c_d/x"

-- The parent of TMPDIR may be written, with and without `/private`.
permitted_runs : permits a_kernel (codes "file-write-data") written temp_profile ≡ true
unfolding profile pmg.Platform.Seatbelt.Verdicts.verdict strip_prefix strip_suffix
    pmg.Platform.Bubblewrap.Mounts.covers
permitted_runs = refl

-- A program that no list of the policy names may run.
unnamed_runs : permits a_kernel (codes "process-exec") (codes "/opt/x") small_profile ≡ true
unfolding profile pmg.Platform.Seatbelt.Verdicts.verdict strip_suffix strip_prefix
unnamed_runs = refl

seatbelt_translate-permitted_write_example :
    (es : List Text) × (expand_each an_env exec_policy.filesystem.allow_write ≡ some es)
    × ((is_null a_kernel written (codes "-data") ≡ true)
        ⊎ (((is_empty exec_policy.filesystem.allow_write ≡ false) × InTemp tmpdir written)
            ⊎ ((any (is_allowed a_kernel written (codes "-data")) es ≡ true)
                ⊎ (is_terminal a_kernel written (codes "-data") false ≡ true))))
seatbelt_translate-permitted_write_example =
    seatbelt_translate-permitted_write a_kernel written (codes "-data") a_translator an_env tmpdir
      exec_policy temp_profile temp_runs permitted_runs

seatbelt_translate-exec_example :
    (es : List Text) × (expand_each an_env exec_policy.process.deny_exec ≡ some es)
    × (permits a_kernel (codes "process-exec") (codes "/opt/x") small_profile
        ≡ not (denied_exec a_kernel (codes "/opt/x") es))
seatbelt_translate-exec_example =
    seatbelt_translate-exec a_kernel (codes "/opt/x") a_translator an_env [] exec_policy
      small_profile small_runs

glob_runs : glob_to_regex (codes "/w/**/a*.js") ≡ codes "^/w/(.*/)?a[^/]*\\.js$"
unfolding glob_to_regex strip_prefix
glob_runs = refl
