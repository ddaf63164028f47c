-- ===== src/Tests/PlatformTests.antt =====
-- Runs of the sandbox's utilities and of its translation to bubblewrap and Landlock, and witnesses.
use pmg.Prelude.{
  ℕ, ◌≡◌, refl, Bool, true, false, Option, none, some, ◌⊎◌, contains_text, inl, inr, Text, codes,
  ◌=ₜ◌, List, [], ◌∷◌, ◌++◌, if◌then◌else◌, Any,
}
use pmg.Paths.{clean, dir, join_path}
use pmg.Sandbox.{SandboxPolicy}
use pmg.SandboxUtil.{Env, expand_variables, contains_glob}
use pmg.SandboxUtil.Dangerous.{MandatoryDenyOptions, mandatory_deny_patterns}
use pmg.Platform.{Host, Stat, missing, a_directory, a_file}
use pmg.Platform.Globs.{extract_glob_parent_dir, split_globstar}
use pmg.Platform.Bubblewrap.{default_config, Flag}
use pmg.Platform.Bubblewrap.Rules.{
  process_deny_read, process_deny_read_rule, process_deny_write_rule,
}
use pmg.Platform.Bubblewrap.Translator.{translate_flags, deny_rules}
use pmg.Platform.Bubblewrap.Mounts.{covers, can_write, can_read}
use pmg.Platform.Bubblewrap.Denied.{can_write-denied, can_read-denied}
use pmg.Platform.Bubblewrap.Granted.{IsDevice, IsGranted, can_write-granted, can_write-tmpdir}
use pmg.Platform.Bubblewrap.Ends.{process_deny_read_ends}

abbrev pub an_env : Env
an_env = record { home = some (codes "/h"); cwd = some (codes "/w"); temp_dir = codes "/tmp" }

abbrev pub a_host : Host
a_host = record {
  env = an_env;
  stat = λ p. if p =ₜ codes "/w/src" then a_directory else missing;
  glob = λ p. some [];
  visits = λ p. [];
}

abbrev pub a_policy : SandboxPolicy
a_policy = record {
  name = codes "p";
  description = [];
  inherits = [];
  package_managers = codes "npm" ∷ [];
  filesystem = record {
    allow_read = codes "/" ∷ [];
    allow_write = codes "${CWD}" ∷ [];
    deny_read = codes "${CWD}/src" ∷ [];
    deny_write = codes "${CWD}/src" ∷ [];
  };
  network = record { allow_outbound = []; deny_outbound = []; allow_bind = [] };
  process = record { allow_exec = []; deny_exec = [] };
  allow_git_config = none;
  allow_pty = none;
  allow_network_bind = none;
}

clean_runs : clean (codes "/a/./b//../c/") ≡ codes "/a/c"
unfolding clean pmg.Prelude.join_with pmg.Prelude.split_on
clean_runs = refl

dir_runs : dir (codes "/a/b") ≡ codes "/a"
unfolding dir pmg.Prelude.join_with pmg.Prelude.split_on
dir_runs = refl

join_path_runs : join_path (codes "**") (codes ".env") ≡ codes "**/.env"
unfolding join_path pmg.Prelude.split_on pmg.Prelude.join_with
join_path_runs = refl

expand_variables_runs : expand_variables an_env (codes "${CWD}/x/${HOME}") ≡ some (codes "/w/x/h")
unfolding expand_variables clean pmg.Prelude.strip_prefix pmg.Prelude.join_with pmg.Prelude.split_on
expand_variables_runs = refl

extract_glob_parent_dir_runs : extract_glob_parent_dir (codes "/usr/lib/**/*.so") ≡ codes "/usr/lib"
unfolding extract_glob_parent_dir pmg.Prelude.strip_suffix dir pmg.Prelude.join_with
    pmg.Prelude.split_on
extract_glob_parent_dir_runs = refl

process_deny_read_ends_example :
    process_deny_read a_host default_config 5 (codes "/w/src/**")
    ≡ some (Flag.tmpfs (codes "/w/src") ∷ [])
unfolding process_deny_read_rule contains_glob pmg.Prelude.contains_code
    pmg.Platform.Globs.has_globstar pmg.Prelude.strip_prefix extract_glob_parent_dir
    pmg.Prelude.strip_suffix
process_deny_read_ends_example = process_deny_read_ends a_host default_config 3 (codes "/w/src/**")

can_write-denied_example :
    can_write (translate_flags a_host default_config a_policy) (codes "/w/src/a.c") ≡ false
unfolding pmg.Prelude.contains_text pmg.Platform.expand clean pmg.Prelude.strip_prefix
    pmg.Prelude.join_with pmg.Prelude.split_on contains_glob pmg.Prelude.contains_code covers
can_write-denied_example =
    can_write-denied a_host default_config a_policy (codes "${CWD}/src") (codes "/w/src")
      (codes "/w/src/a.c") refl refl refl refl refl

-- The directory is denied for reading and for writing, and can be read.
can_read-denied_example :
    can_read (translate_flags a_host default_config a_policy) (codes "/w/src/a.c") ≡ true
unfolding pmg.Prelude.contains_text pmg.Platform.expand clean pmg.Prelude.strip_prefix
    pmg.Prelude.join_with pmg.Prelude.split_on contains_glob pmg.Prelude.contains_code covers
    deny_rules pmg.Platform.Bubblewrap.Translator.not_read
    pmg.Platform.Bubblewrap.Translator.mandatory mandatory_deny_patterns pmg.Platform.expand_all
    join_path pmg.Registry.Cache.lookup pmg.Registry.Cache.insert
    pmg.Platform.Bubblewrap.Rules.process_deny_rule pmg.Platform.Globs.has_globstar
    pmg.Platform.Globs.expand_globstar_pattern pmg.Prelude.strip_suffix
    pmg.Platform.Bubblewrap.Translator.hide_loop
    pmg.Platform.Bubblewrap.Translator.intersect_strings
can_read-denied_example =
    can_read-denied a_host default_config a_policy (codes "${CWD}/src") (codes "/w/src")
      (codes "/w/src/a.c") refl refl refl refl refl refl

can_write-granted_example :
    (covers (codes "/tmp") (codes "/tmp/x") ≡ true)
    ⊎ (IsDevice a_host default_config a_policy (codes "/tmp/x")
        ⊎ IsGranted a_host default_config a_policy (codes "/tmp/x"))
unfolding covers pmg.Prelude.strip_prefix
can_write-granted_example =
    can_write-granted a_host default_config a_policy (codes "/tmp/x")
      (can_write-tmpdir a_host default_config a_policy (codes "/tmp/x") refl)

abbrev options : MandatoryDenyOptions
options = record { allow_git_config = true; allow_read = []; allow_write = codes "/w/.env" ∷ [] }
