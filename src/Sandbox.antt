-- ===== src/Sandbox.antt =====
-- sandbox/policy.go: the policies of the sandbox, their validation and their inheritance.
pub mod Unions
pub mod Merging
use pmg.Prelude.{
  ℕ, Bool, true, false, not, ◌||◌, Option, none, some, or_else, Text, ◌=ₜ◌, is_empty, List, [], ◌∷◌,
  ◌++◌, if◌then◌else◌,
}
use pmg.OrgPolicy.{to_lower}

pub record FilesystemPolicy : Type 0 where
  pub allow_read : List Text
  pub allow_write : List Text
  pub deny_read : List Text
  pub deny_write : List Text

pub record NetworkPolicy : Type 0 where
  pub allow_outbound : List Text
  pub deny_outbound : List Text
  pub allow_bind : List Text

pub record ProcessPolicy : Type 0 where
  pub allow_exec : List Text
  pub deny_exec : List Text

pub record SandboxPolicy : Type 0 where
  pub name : Text
  pub description : Text
  pub inherits : Text
  pub package_managers : List Text
  pub filesystem : FilesystemPolicy
  pub network : NetworkPolicy
  pub process : ProcessPolicy
  pub allow_git_config : Option Bool
  pub allow_pty : Option Bool
  pub allow_network_bind : Option Bool

pub data PolicyError : Type 0 where
  name_required no_package_manager no_rules : PolicyError

-- An error, or none.
unfoldable pub validate : SandboxPolicy → Option PolicyError
validate p =
    if is_empty p.name
    then some name_required
    else if is_empty p.package_managers
    then some no_package_manager
    else none

abbrev pub has_rules : SandboxPolicy → Bool
has_rules p =
    not (is_empty p.filesystem.allow_read)
    || not (is_empty p.filesystem.allow_write)
    || not (is_empty p.filesystem.deny_read)
    || not (is_empty p.filesystem.deny_write)
    || not (is_empty p.network.allow_outbound)
    || not (is_empty p.network.deny_outbound)
    || not (is_empty p.process.allow_exec)
    || not (is_empty p.process.deny_exec)

unfoldable pub validate_resolved : SandboxPolicy → Option PolicyError
unfolding validate
validate_resolved p = elim (validate p) [
  | some e ↦ some e
  | none ↦ if has_rules p then none else some no_rules
]

-- The loop of `AppliesToPackageManager`.
unfoldable pub applies_loop : (ℕ → ℕ) → Text → List Text → Bool
applies_loop lower_beyond pm_lower [] = false
applies_loop lower_beyond pm_lower (supported ∷ more) =
    if to_lower lower_beyond supported =ₜ pm_lower
    then true
    else applies_loop lower_beyond pm_lower more

unfoldable pub applies_to_package_manager : (ℕ → ℕ) → SandboxPolicy → Text → Bool
unfolding applies_loop
applies_to_package_manager lower_beyond p pm =
    applies_loop lower_beyond (to_lower lower_beyond pm) p.package_managers

-- `seen[item]`, with the set as a list.
unfoldable pub is_seen : List Text → Text → Bool
is_seen [] item = false
is_seen (s ∷ seen) item = s =ₜ item || is_seen seen item

-- One round of a loop of `unionStringSlices`: `seen` and `result`.
abbrev pub union_step : Text → List Text × List Text → List Text × List Text
union_step item (seen, result) =
    if is_seen seen item then (seen, result) else (item ∷ seen, result ++ item ∷ [])

unfoldable pub union_loop : List Text → List Text × List Text → List Text × List Text
union_loop [] st = st
union_loop (item ∷ items) st = union_loop items (union_step item st)

unfoldable pub union : List Text → List Text → List Text
union parent child = (union_loop child (union_loop parent ([], []))).1

-- `utils.PtrTo(utils.SafelyGetValue(parent))` where the child's value is nil.
abbrev pub inherit_bool : Option Bool → Option Bool → Option Bool
inherit_bool parent none = some (or_else parent false)
inherit_bool parent (some b) = some b

-- `child.MergeWithParent(parent)`: the child after it.
unfoldable pub merge_with_parent : SandboxPolicy → SandboxPolicy → SandboxPolicy
merge_with_parent child parent = record child {
  filesystem = record {
    allow_read = union parent.filesystem.allow_read child.filesystem.allow_read;
    allow_write = union parent.filesystem.allow_write child.filesystem.allow_write;
    deny_read = union parent.filesystem.deny_read child.filesystem.deny_read;
    deny_write = union parent.filesystem.deny_write child.filesystem.deny_write;
  };
  network = record {
    allow_outbound = union parent.network.allow_outbound child.network.allow_outbound;
    deny_outbound = union parent.network.deny_outbound child.network.deny_outbound;
    allow_bind = union parent.network.allow_bind child.network.allow_bind;
  };
  process = record {
    allow_exec = union parent.process.allow_exec child.process.allow_exec;
    deny_exec = union parent.process.deny_exec child.process.deny_exec;
  };
  allow_pty = inherit_bool parent.allow_pty child.allow_pty;
  allow_git_config = inherit_bool parent.allow_git_config child.allow_git_config;
  allow_network_bind = inherit_bool parent.allow_network_bind child.allow_network_bind;
}
