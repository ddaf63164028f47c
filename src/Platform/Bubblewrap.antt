-- ===== src/Platform/Bubblewrap.antt =====
-- sandbox/platform/bubblewrap_config_linux.go and the options of bubblewrap that the translator of
-- bubblewrap_translator_linux.go writes. An option with its operands is one value, and `render`
-- gives its words.
pub mod Rules
pub mod Translator
pub mod Mounts
pub mod Denials
pub mod Denied
pub mod Writable
pub mod Granted
pub mod Ends
use pmg.Prelude.{ℕ, Bool, true, false, Text, codes, List, [], ◌∷◌, ◌++◌, if◌then◌else◌}
use pmg.Platform.{Host, exists}

pub record BubblewrapConfig : Type 0 where
  pub essential_system_paths : List Text
  pub essential_devices : List Text
  pub proc_paths : List Text
  pub max_glob_depth : ℕ
  pub max_glob_paths : ℕ
  pub glob_fallback_threshold : ℕ
  pub total_args_limit : ℕ
  pub unshare_network_by_default : Bool
  pub unshare_pid : Bool
  pub unshare_ipc : Bool
  pub new_session : Bool
  pub die_with_parent : Bool
  pub mandatory_deny_scan_depth : ℕ

-- `newDefaultBubblewrapConfig`, without the seccomp settings, which the translator does not read.
abbrev pub default_config : BubblewrapConfig
default_config = record {
  essential_system_paths =
      codes "/usr"
      ∷ codes "/lib"
      ∷ codes "/lib64"
      ∷ codes "/bin"
      ∷ codes "/sbin"
      ∷ codes "/etc"
      ∷ codes "/opt"
      ∷ codes "/var/lib"
      ∷ codes "/sys"
      ∷ [];
  essential_devices =
      codes "/dev/null"
      ∷ codes "/dev/zero"
      ∷ codes "/dev/random"
      ∷ codes "/dev/urandom"
      ∷ codes "/dev/full"
      ∷ codes "/dev/tty"
      ∷ [];
  proc_paths = codes "/proc" ∷ [];
  max_glob_depth = 5;
  max_glob_paths = 10_000;
  glob_fallback_threshold = 100;
  total_args_limit = 8_000;
  unshare_network_by_default = true;
  unshare_pid = true;
  unshare_ipc = true;
  new_session = true;
  die_with_parent = true;
  mandatory_deny_scan_depth = 3;
}

unfoldable pub should_unshare_network : BubblewrapConfig → Bool → Bool → Bool
should_unshare_network cfg has_allow_rules has_deny_all =
    if has_allow_rules then false else if has_deny_all then true else cfg.unshare_network_by_default

-- `getEssentialSystemPaths` and `getEssentialDevices`: those that exist.
unfoldable pub existing : Host → List Text → List Text
existing h [] = []
existing h (p ∷ ps) = let rest = existing h ps in if exists (h.stat p) then p ∷ rest else rest

pub data Flag : Type 0 where
  ro_bind_try dev_bind_try bind_try bind ro_bind_null tmpfs proc : Text → Flag
  unshare_net unshare_pid unshare_ipc new_session die_with_parent : Flag

abbrev pub render : Flag → List Text
render (Flag.ro_bind_try p) = codes "--ro-bind-try" ∷ p ∷ p ∷ []
render (Flag.dev_bind_try p) = codes "--dev-bind-try" ∷ p ∷ p ∷ []
render (Flag.bind_try p) = codes "--bind-try" ∷ p ∷ p ∷ []
render (Flag.bind p) = codes "--bind" ∷ p ∷ p ∷ []
render (Flag.ro_bind_null p) = codes "--ro-bind" ∷ codes "/dev/null" ∷ p ∷ []
render (Flag.tmpfs p) = codes "--tmpfs" ∷ p ∷ []
render (Flag.proc p) = codes "--proc" ∷ p ∷ []
render Flag.unshare_net = codes "--unshare-net" ∷ []
render Flag.unshare_pid = codes "--unshare-pid" ∷ []
render Flag.unshare_ipc = codes "--unshare-ipc" ∷ []
render Flag.new_session = codes "--new-session" ∷ []
render Flag.die_with_parent = codes "--die-with-parent" ∷ []

unfoldable pub render_all : List Flag → List Text
render_all [] = []
render_all (f ∷ fs) = render f ++ render_all fs
