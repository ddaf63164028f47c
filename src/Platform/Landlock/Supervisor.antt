-- ===== src/Platform/Landlock/Supervisor.antt =====
-- sandbox/platform/landlock_seccomp_linux.go: the decisions of the supervisor that answers the
-- kernel's notifications. The file system under /proc is given: what opening a process's memory
-- returns, what the memory holds and where the links of a process lead. The file that is opened for
-- a process is kept in a cache. Writing the audit events is not modelled: they are a list.
pub mod Filter
pub mod Phases
pub mod Replies
use pmg.Prelude.{
  ℕ, zero, suc, ◌+◌, ◌-◌, ◌*◌, ◌%◌, ◌==◌, leb, ltb, Bool, true, false, ◌||◌, ◌&&◌, Option, none,
  some, Text, codes, ◌=ₜ◌, is_empty, has_prefix, has_suffix, length, List, [], ◌∷◌, ◌++◌,
  if◌then◌else◌,
}
use pmg.Paths.{clean, join_path, is_rooted}
use pmg.Platform.Landlock.{DenyMode, deny_read, deny_write, deny_both, DenyPathEntry}

-- `O_RDONLY`, `O_WRONLY` and `O_RDWR` under the mask `O_ACCMODE`.
abbrev pub o_accmode : ℕ → ℕ
o_accmode flags = flags % 4

abbrev pub o_rdonly : ℕ
o_rdonly = 0

abbrev pub o_wronly : ℕ
o_wronly = 1

abbrev pub o_rdwr : ℕ
o_rdwr = 2

-- Whether an entry of a deny list stands for the path.
abbrev pub entry_matches : Text → Text → Bool
entry_matches entry path =
    if has_suffix entry (codes "/")
    then has_prefix path entry
    else path =ₜ entry || has_prefix path (entry ++ codes "/")

abbrev pub mode_denies : DenyMode → ℕ → Bool
mode_denies deny_read access = access == o_rdonly || access == o_rdwr
mode_denies deny_write access = access == o_wronly || access == o_rdwr
mode_denies deny_both access = true

unfoldable pub is_path_denied : Text → ℕ → List DenyPathEntry → Bool
is_path_denied path flags [] = false
is_path_denied path flags (entry ∷ entries) =
    if entry_matches entry.path path && mode_denies entry.mode (o_accmode flags)
    then true
    else is_path_denied path flags entries

unfoldable pub is_exec_denied : Text → List Text → Bool
is_exec_denied path [] = false
is_exec_denied path (entry ∷ entries) =
    if entry_matches entry path then true else is_exec_denied path entries

-- The bytes up to the first 0.
unfoldable pub up_to_null : List ℕ → Text
up_to_null [] = []
up_to_null (b ∷ bs) = if b == 0 then [] else b ∷ up_to_null bs

-- `AT_FDCWD` is -100. A file descriptor of a process is a 32-bit number; one with the sign bit is
-- negative.
pub data DirFd : Type 0 where
  at_fdcwd : DirFd
  descriptor negative : ℕ → DirFd

-- `dirfdFromArgs`: the two spellings of AT_FDCWD, else the lower 32 bits as a signed number.
abbrev pub signed_fd : ℕ → DirFd
signed_fd low =
    if ltb low 0x80000000
    then descriptor low
    else if 0x100000000 - low == 100
    then at_fdcwd
    else negative (0x100000000 - low)

unfoldable pub dirfd_from_args : ℕ → DirFd
dirfd_from_args val =
    if val == 0xFFFFFF9C || val == 0xFFFFFFFFFFFFFF9C
    then at_fdcwd
    else signed_fd (val % 0x100000000)

-- The system calls that the filter lets the supervisor see.
pub record Syscalls : Type 0 where
  pub openat : ℕ
  pub openat2 : ℕ
  pub execve : ℕ
  pub execveat : ℕ

-- What the supervisor reads of a process. `read_at` gives the bytes that could be read, `none` where
-- there is an error and not one byte; fewer bytes than asked for come with an error.
pub record Proc : Type 0 where
  pub open_mem : ℕ → Option ℕ
  pub read_at : ℕ → ℕ → ℕ → Option (List ℕ)
  pub cwd_link : ℕ → Option Text
  pub fd_link : ℕ → DirFd → Option Text

pub record Notification : Type 0 where
  pub id : ℕ
  pub pid : ℕ
  pub nr : ℕ
  pub arg0 : ℕ
  pub arg1 : ℕ
  pub arg2 : ℕ

-- `readPathFromMem`: `none` is an error, an empty path too.
unfoldable pub read_path_from_mem : Proc → ℕ → ℕ → Option Text
unfolding up_to_null
read_path_from_mem w fd addr = elim (w.read_at fd addr 4096) [
  | none ↦ none
  | some bytes ↦ if is_empty (up_to_null bytes) then none else some (up_to_null bytes)
]

abbrev pub base_dir : Proc → ℕ → DirFd → Option Text
base_dir w pid at_fdcwd = w.cwd_link pid
base_dir w pid fd = w.fd_link pid fd

-- `resolveNotifPath`
unfoldable pub resolve_notif_path : Proc → ℕ → DirFd → Text → Option Text
resolve_notif_path w pid fd raw =
    if is_rooted raw
    then some (clean raw)
    else elim (base_dir w pid fd) [ none ↦ none | some base ↦ some (clean (join_path base raw)) ]

-- The first 8 bytes of `open_how`, the lowest first.
unfoldable pub little_endian : List ℕ → ℕ
little_endian [] = 0
little_endian (b ∷ bs) = b + 256 * little_endian bs

-- `classifyOpenFlags`
unfoldable pub classify_open_flags : Syscalls → Proc → Notification → ℕ → ℕ
unfolding little_endian
classify_open_flags sys w n fd =
    if n.nr == sys.openat
    then o_accmode n.arg2
    else if n.nr == sys.openat2
    then elim (w.read_at fd n.arg2 8) [
      | none ↦ o_rdonly
      | some bytes ↦ if length bytes == 8 then o_accmode (little_endian bytes) else o_rdonly
    ]
    else o_rdonly
