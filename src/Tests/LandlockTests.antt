-- ===== src/Tests/LandlockTests.antt =====
-- Runs of the translation to Landlock rules and of the supervisor, and witnesses.
use pmg.Prelude.{
  ℕ, ◌==◌, ◌%◌, ◌≡◌, ◌≢◌, ◌↔◌, refl, Bool, true, false, Option, none, some, inl, inr, Text, codes,
  ◌=ₜ◌, List, [], ◌∷◌, ◌++◌, length, arith, if◌then◌else◌,
}
use pmg.Sandbox.{SandboxPolicy}
use pmg.Platform.Landlock.{
  new_landlock_abi, landlock_access_flags_string, landlock_read_access, landlock_usr_bin_alternate,
  deny_read, DenyPathEntry,
}
use pmg.Platform.Landlock.Translator.{deny_entry, landlock_translate_policy}
use pmg.Platform.Landlock.Denied.{is_path_denied-denied}
use pmg.SandboxUtil.Dangerous.Secrets.{of_home}
use pmg.Platform.Landlock.Secrets.{is_path_denied-secret}
use pmg.Platform.Landlock.Supervisor.{is_path_denied, Syscalls, Proc, Notification}
use pmg.Platform.Landlock.Supervisor.Filter.{
  run_filter, landlock_build_bpf_filter, notifies, run_filter_lem,
}
use pmg.Platform.Landlock.Supervisor.Phases.{
  continue, deny, Event, enforce, notified, expired, stop_signalled, supervise, fresh,
}
use pmg.Platform.Landlock.Supervisor.Replies.{
  answered, supervise-answers, IsAudited, supervise-IsAudited,
}
use pmg.Tests.PlatformTests.{a_host, a_policy}

abbrev calls : Syscalls
calls = record { openat = 257; openat2 = 437; execve = 59; execveat = 322 }

-- Every process has one memory, in which the path `/s/k` stands.
abbrev a_proc : Proc
a_proc = record {
  open_mem = λ pid. some pid;
  read_at = λ fd addr n. some (codes "/s/k" ++ 0 ∷ 0 ∷ []);
  cwd_link = λ pid. some (codes "/w");
  fd_link = λ pid fd. none;
}

abbrev an_open : ℕ → Notification
an_open id = record { id = id; pid = 7; nr = 257; arg0 = 0xFFFFFF9C; arg1 = 4_096; arg2 = 0 }

abbrev events : List Event
events =
    notified a_proc (an_open 1)
    ∷ enforce 7 3 (deny_entry deny_read (codes "/s") ∷ []) [] true
    ∷ expired
    ∷ notified a_proc (an_open 2)
    ∷ stop_signalled
    ∷ notified a_proc (an_open 3)
    ∷ []

denied_after_enforce : (supervise calls events fresh).replies ≡ (1, continue) ∷ (2, deny) ∷ []
unfolding supervise pmg.Prelude.strip_suffix pmg.Paths.clean pmg.Prelude.join_with
    pmg.Prelude.split_on pmg.Prelude.strip_prefix
denied_after_enforce = refl

flags_string :
    landlock_access_flags_string landlock_read_access ≡ codes "execute|read_file|read_dir"
unfolding landlock_access_flags_string pmg.Prelude.join_with
flags_string = refl

supervise-answers_example : answered (supervise calls events fresh).replies ≡ 1 ∷ 2 ∷ []
supervise-answers_example = supervise-answers calls events fresh refl

supervise-IsAudited_example : IsAudited (supervise calls events fresh)
supervise-IsAudited_example = supervise-IsAudited calls events fresh refl refl refl

run_filter_lem_example : run_filter (landlock_build_bpf_filter calls) 0 59 0 ≡ some notifies
run_filter_lem_example = run_filter_lem calls 59 0

alternate_runs : landlock_usr_bin_alternate (codes "/bin/sh") ≡ codes "/usr/bin/sh"
unfolding landlock_usr_bin_alternate pmg.Prelude.strip_prefix
alternate_runs = refl

alternate_nonempty : landlock_usr_bin_alternate (codes "/bin/sh") ≢ []
alternate_nonempty h = ground (arith, h, alternate_runs)

is_path_denied-denied_example :
    is_path_denied
      (codes "/w/src/a")
      0
      (landlock_translate_policy a_host a_policy (new_landlock_abi 3)).deny_paths
    ≡ true
unfolding pmg.SandboxUtil.contains_glob pmg.Prelude.contains_code pmg.Prelude.strip_suffix
    pmg.Prelude.strip_prefix pmg.Prelude.contains_text pmg.Platform.expand pmg.Paths.clean
    pmg.Prelude.join_with pmg.Prelude.split_on pmg.Platform.Landlock.landlock_is_proc_path
is_path_denied-denied_example =
    is_path_denied-denied a_host a_policy (new_landlock_abi 3) (codes "/w/src/a") 0 (codes "/w/src")
      refl (inr (codes "a", refl)) (inl (inl refl, (codes "${CWD}/src", refl, refl, refl, refl)))

abbrev bare_policy : SandboxPolicy
bare_policy = record a_policy {
  filesystem = record { allow_read = []; allow_write = []; deny_read = []; deny_write = [] };
}

is_path_denied-secret_example :
    is_path_denied
      (codes "/h/.ssh/id")
      0
      (landlock_translate_policy a_host bare_policy (new_landlock_abi 3)).deny_paths
    ≡ true
unfolding pmg.SandboxUtil.contains_glob pmg.Prelude.contains_code pmg.Prelude.strip_suffix
    pmg.Prelude.strip_prefix pmg.Prelude.contains_text pmg.SandboxUtil.Dangerous.suppressible
    pmg.Paths.clean pmg.Paths.join_path pmg.Prelude.join_with pmg.Prelude.split_on
    pmg.SandboxUtil.Dangerous.to_set pmg.Platform.expand_all pmg.SandboxUtil.Dangerous.globs_named
is_path_denied-secret_example =
    is_path_denied-secret a_host bare_policy (new_landlock_abi 3) (codes "/h/.ssh/id") 0
      (codes "/h") (codes ".ssh") (of_home refl refl) refl refl (inr (codes "id", refl))
      (inl (inl refl, tt))
