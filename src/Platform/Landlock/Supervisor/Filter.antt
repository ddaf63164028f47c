-- ===== src/Platform/Landlock/Supervisor/Filter.antt =====
-- sandbox/platform/landlock_seccomp_linux.go: the filter program that the kernel runs on the number of
-- each system call. A jump counts the instructions that it leaves out; all jumps go forward.
use pmg.Prelude.{ℕ, zero, suc, ◌==◌, ◌≡◌, Option, none, some, List, [], ◌∷◌, arith, if◌then◌else◌}
use pmg.Platform.Landlock.Supervisor.{Syscalls}

pub data SockFilter : Type 0 where
  load_number ret_allow ret_user_notif : SockFilter
  jump_if_equal : ℕ → ℕ → ℕ → SockFilter

pub data FilterVerdict : Type 0 where
  lets_pass notifies : FilterVerdict

-- The program from an instruction on, with the count of those to leave out, and what was loaded. A
-- program that runs off its end has no verdict.
unfoldable pub run_filter : List SockFilter → ℕ → ℕ → ℕ → Option FilterVerdict
run_filter [] skip nr loaded = none
run_filter (i ∷ is) (suc skip) nr loaded = run_filter is skip nr loaded
run_filter (load_number ∷ is) zero nr loaded = run_filter is 0 nr nr
run_filter (jump_if_equal k jt jf ∷ is) zero nr loaded =
    run_filter is (if loaded == k then jt else jf) nr loaded
run_filter (ret_allow ∷ is) zero nr loaded = some lets_pass
run_filter (ret_user_notif ∷ is) zero nr loaded = some notifies

-- `landlockBuildBPFFilter`
unfoldable pub landlock_build_bpf_filter : Syscalls → List SockFilter
landlock_build_bpf_filter sys =
    load_number
    ∷ jump_if_equal sys.openat 4 0
    ∷ jump_if_equal sys.openat2 3 0
    ∷ jump_if_equal sys.execve 2 0
    ∷ jump_if_equal sys.execveat 1 0
    ∷ ret_allow
    ∷ ret_user_notif
    ∷ []

-- The four system calls are notified, every other one passes.
pub run_filter_lem :
    (sys : Syscalls) (nr loaded : ℕ)
    → run_filter (landlock_build_bpf_filter sys) 0 nr loaded
      ≡ some (
          if nr == sys.openat
          then notifies
          else if nr == sys.openat2
          then notifies
          else if nr == sys.execve
          then notifies
          else if nr == sys.execveat
          then notifies
          else lets_pass)
unfolding run_filter landlock_build_bpf_filter
run_filter_lem sys nr loaded = ground arith
