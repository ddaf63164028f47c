-- ===== src/PackageManagers.antt =====
-- packagemanager/packagemanager.go: commands of package managers, and what is known of them. A nil
-- list is the empty list.
pub mod Known
pub mod Names
pub mod Npm
pub mod Pypi
use pmg.Prelude.{
  ℕ, Bool, true, false, not, ◌&&◌, ◌||◌, Option, none, some, Text, codes, ◌=ₜ◌, is_empty,
  contains_text, has_prefix, List, [], ◌∷◌, ◌++◌, if◌then◌else◌,
}
use pmg.Analysis.{PackageVersion}

pub record Command : Type 0 where
  pub exe : Text
  pub args : List Text

pub record PackageInstallTarget : Type 0 where
  pub package_version : Option PackageVersion
  pub extras : List Text
  pub is_explicit_version : Bool

unfoldable pub has_version : PackageInstallTarget → Bool
has_version t = elim t.package_version [ none ↦ false | some pv ↦ not (is_empty pv.version) ]

pub record ParsedCommand : Type 0 where
  pub command : Command
  pub install_targets : List PackageInstallTarget
  pub is_manifest_install : Bool
  pub manifest_files : List Text
  pub is_known_non_download_command : Bool

abbrev pub has_install_target : ParsedCommand → Bool
has_install_target pc = not (is_empty pc.install_targets)

abbrev pub has_manifest_install : ParsedCommand → Bool
has_manifest_install pc = pc.is_manifest_install

unfoldable pub is_installation_command : ParsedCommand → Bool
is_installation_command pc = has_install_target pc || has_manifest_install pc

unfoldable pub may_download_packages : ParsedCommand → Bool
may_download_packages pc = not pc.is_known_non_download_command

unfoldable pub should_extract_from_manifest : ParsedCommand → Bool
should_extract_from_manifest pc = pc.is_manifest_install && not (has_install_target pc)

unfoldable pub is_first_non_flag_arg_in_list : List Text → List Text → Bool
is_first_non_flag_arg_in_list [] commands = false
is_first_non_flag_arg_in_list (arg ∷ args) commands =
    let rest = is_first_non_flag_arg_in_list args commands in
    if has_prefix arg (codes "-") then rest else contains_text commands arg

-- `&ParsedCommand{Command: command}`
abbrev pub only_command : Command → ParsedCommand
only_command c = record {
  command = c;
  install_targets = [];
  is_manifest_install = false;
  manifest_files = [];
  is_known_non_download_command = false;
}

abbrev pub non_download : Command → Bool → ParsedCommand
non_download c known = record (only_command c) { is_known_non_download_command = known }

-- The settings that all package managers have.
pub record ManagerConfig : Type 0 where
  pub install_commands : List Text
  pub non_download_commands : List Text
  pub command_name : Text

-- The loop that looks for an install command: the command, and the arguments after it.
unfoldable pub after_install : List Text → List Text → Option (Text × List Text)
after_install commands [] = none
after_install commands (arg ∷ args) =
    let rest = after_install commands args in
    if contains_text commands arg then some (arg, args) else rest

pub data ParseError : Type 0 where
  failed_to_parse_package failed_to_resolve_version : ParseError
