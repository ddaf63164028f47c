-- ===== src/Platform/Landlock.antt =====
-- sandbox/platform/landlock_abi_linux.go, landlock_render_linux.go and the rights of
-- landlock_translator_linux.go. A bitmask of access rights is the list of its rights: the constants
-- of go-landlock are one bit each. A version is a natural number; the code treats one below 0 as 0.
pub mod Translator
pub mod Alternates
pub mod Entries
pub mod Denied
pub mod Secrets
pub mod Supervisor
use pmg.Prelude.{
  ℕ, ◌==◌, leb, Bool, true, false, not, ◌||◌, ◌&&◌, Option, none, some, Text, codes, ◌=ₜ◌, is_empty,
  join_with, List, [], ◌∷◌, ◌++◌, has_prefix, trim_prefix, if◌then◌else◌, contains_text,
}
use pmg.Sandbox.{SandboxPolicy}
use pmg.Platform.{Host, Stat, missing, unreadable, a_directory, a_file}

pub record LandlockAbi : Type 0 where
  pub version : ℕ
  pub has_refer : Bool
  pub has_truncate : Bool
  pub has_network : Bool
  pub has_ioctl_dev : Bool
  pub has_scoping : Bool

unfoldable pub new_landlock_abi : ℕ → LandlockAbi
new_landlock_abi version = record {
  version = version;
  has_refer = leb 2 version;
  has_truncate = leb 3 version;
  has_network = leb 4 version;
  has_ioctl_dev = leb 5 version;
  has_scoping = leb 6 version;
}

-- `landlockDetectABI`: what the kernel answers, or no support.
unfoldable pub landlock_detect_abi : Option ℕ → Option LandlockAbi
unfolding new_landlock_abi
landlock_detect_abi none = none
landlock_detect_abi (some version) = if leb version 0 then none else some (new_landlock_abi version)

pub data Right : Type 0 where
  execute read_file read_dir write_file truncate ioctl_dev make_reg make_dir make_sock make_fifo :
      Right
  make_block make_char make_sym remove_file remove_dir refer : Right

abbrev pub Access : Type 0
Access = List Right

-- The order in which the renderer names the rights.
abbrev pub number : Right → ℕ
number execute = 0
number read_file = 1
number read_dir = 2
number write_file = 3
number truncate = 4
number ioctl_dev = 5
number make_reg = 6
number make_dir = 7
number make_sock = 8
number make_fifo = 9
number make_block = 10
number make_char = 11
number make_sym = 12
number remove_file = 13
number remove_dir = 14
number refer = 15

-- `access & right != 0`
unfoldable pub has_right : Access → Right → Bool
has_right [] r = false
has_right (x ∷ xs) r = number x == number r || has_right xs r

-- `access & mask`
unfoldable pub restrict : Access → Access → Access
unfolding has_right
restrict mask [] = []
restrict mask (x ∷ xs) = let rest = restrict mask xs in if has_right mask x then x ∷ rest else rest

abbrev pub landlock_read_access : Access
landlock_read_access = read_file ∷ read_dir ∷ execute ∷ []

abbrev pub landlock_write_access_base : Access
landlock_write_access_base =
    write_file ∷ make_reg ∷ make_dir ∷ make_sock ∷ make_fifo ∷ make_block ∷ make_char ∷ make_sym
    ∷ remove_file ∷ remove_dir ∷ []

abbrev pub landlock_execute_access : Access
landlock_execute_access = execute ∷ read_file ∷ []

abbrev pub landlock_file_access : Access
landlock_file_access = read_file ∷ write_file ∷ execute ∷ truncate ∷ ioctl_dev ∷ []

-- `landlockAdjustAccessForPath`
unfoldable pub landlock_adjust_access_for_path : Host → Text → Access → Access
unfolding restrict
landlock_adjust_access_for_path h path access = elim (h.stat path) [
  | a_file ↦ restrict landlock_file_access access
  | _ ↦ access
]

-- `landlockUsrBinAlternate`: the pairs in their order, each one tried in both directions.
unfoldable pub alternate_loop : List (Text × Text) → Text → Text
alternate_loop [] path = []
alternate_loop ((short, long) ∷ pairs) path =
    if has_prefix path short
    then long ++ trim_prefix path short
    else if has_prefix path long
    then short ++ trim_prefix path long
    else alternate_loop pairs path

abbrev pub merged_prefixes : List (Text × Text)
merged_prefixes =
    (codes "/bin/", codes "/usr/bin/")
    ∷ (codes "/sbin/", codes "/usr/sbin/")
    ∷ (codes "/lib/", codes "/usr/lib/")
    ∷ (codes "/lib64/", codes "/usr/lib64/")
    ∷ []

unfoldable pub landlock_usr_bin_alternate : Text → Text
unfolding alternate_loop
landlock_usr_bin_alternate path = alternate_loop merged_prefixes path

unfoldable pub landlock_is_proc_path : Text → Bool
landlock_is_proc_path path = path =ₜ codes "/proc" || has_prefix path (codes "/proc/")

abbrev pub name_of : Right → Text
name_of execute = codes "execute"
name_of read_file = codes "read_file"
name_of read_dir = codes "read_dir"
name_of write_file = codes "write_file"
name_of truncate = codes "truncate"
name_of ioctl_dev = codes "ioctl_dev"
name_of make_reg = codes "make_reg"
name_of make_dir = codes "make_dir"
name_of make_sock = codes "make_sock"
name_of make_fifo = codes "make_fifo"
name_of make_block = codes "make_block"
name_of make_char = codes "make_char"
name_of make_sym = codes "make_sym"
name_of remove_file = codes "remove_file"
name_of remove_dir = codes "remove_dir"
name_of refer = codes "refer"

abbrev pub all_rights : List Right
all_rights =
    execute ∷ read_file ∷ read_dir ∷ write_file ∷ truncate ∷ ioctl_dev ∷ make_reg ∷ make_dir
    ∷ make_sock ∷ make_fifo ∷ make_block ∷ make_char ∷ make_sym ∷ remove_file ∷ remove_dir ∷ refer
    ∷ []

-- The loop of `landlockAccessFlagsString`.
unfoldable pub flag_names : Access → List Right → List Text
unfolding has_right
flag_names access [] = []
flag_names access (r ∷ rs) =
    let rest = flag_names access rs in if has_right access r then name_of r ∷ rest else rest

unfoldable pub landlock_access_flags_string : Access → Text
unfolding flag_names
landlock_access_flags_string access =
    if is_empty (flag_names access all_rights)
    then codes "(none)"
    else join_with 124 (flag_names access all_rights)

-- `denyMode`
pub data DenyMode : Type 0 where
  deny_read deny_write deny_both : DenyMode

unfoldable pub landlock_deny_mode_string : DenyMode → Text
landlock_deny_mode_string deny_read = codes "read"
landlock_deny_mode_string deny_write = codes "write"
landlock_deny_mode_string deny_both = codes "both"

pub record DenyPathEntry : Type 0 where
  pub path : Text
  pub mode : DenyMode

pub record LandlockPathRule : Type 0 where
  pub path : Text
  pub access : Access

-- `landlockExecPolicy`, as far as the translator fills it in.
pub record LandlockExecPolicy : Type 0 where
  pub filesystem_rules : List LandlockPathRule
  pub deny_paths : List DenyPathEntry
  pub deny_exec_paths : List Text
  pub allow_pty : Bool
  pub skip_pid_namespace : Bool
  pub skip_ipc_namespace : Bool
