-- ===== src/PackageManagers/Npm.antt =====
-- packagemanager/npm.go: the commands of npm, pnpm, bun and yarn. The flag parser (pflag) is given: the
-- packages and the development packages that it finds, or its error.
use pmg.Prelude.{
  Bool, ◌&&◌, ◌||◌, not, Option, none, some, Text, codes, ◌=ₜ◌, is_empty, cut_last, split_on,
  has_prefix, trim_prefix, trim_space, List, [], ◌∷◌, ◌++◌, if◌then◌else◌,
}
use pmg.Prelude.Result.{Result, ok, err}
use pmg.Analysis.{npm}
use pmg.PackageManagers.{
  Command, PackageInstallTarget, ParsedCommand, only_command, non_download, ManagerConfig,
  is_first_non_flag_arg_in_list, after_install, ParseError, failed_to_parse_package,
}

abbrev pub default_npm : ManagerConfig
default_npm = record {
  install_commands = codes "install" ∷ codes "i" ∷ codes "add" ∷ [];
  non_download_commands =
      codes "uninstall"
      ∷ codes "remove"
      ∷ codes "rm"
      ∷ codes "r"
      ∷ codes "un"
      ∷ codes "unlink"
      ∷ codes "rebuild"
      ∷ codes "prune"
      ∷ codes "link"
      ∷ codes "cache"
      ∷ codes "pack"
      ∷ codes "ls"
      ∷ codes "list"
      ∷ codes "outdated"
      ∷ codes "view"
      ∷ codes "info"
      ∷ codes "show"
      ∷ codes "search"
      ∷ codes "config"
      ∷ codes "ping"
      ∷ codes "whoami"
      ∷ codes "version"
      ∷ codes "help"
      ∷ [];
  command_name = codes "npm";
}

abbrev pub default_pnpm : ManagerConfig
default_pnpm = record {
  install_commands = codes "install" ∷ codes "i" ∷ codes "add" ∷ [];
  non_download_commands =
      codes "remove"
      ∷ codes "rm"
      ∷ codes "uninstall"
      ∷ codes "un"
      ∷ codes "prune"
      ∷ codes "link"
      ∷ codes "unlink"
      ∷ codes "ls"
      ∷ codes "list"
      ∷ codes "outdated"
      ∷ codes "info"
      ∷ codes "view"
      ∷ codes "config"
      ∷ codes "why"
      ∷ [];
  command_name = codes "pnpm";
}

abbrev pub default_bun : ManagerConfig
default_bun = record {
  install_commands = codes "install" ∷ codes "i" ∷ codes "add" ∷ codes "ci" ∷ [];
  non_download_commands = codes "remove" ∷ codes "rm" ∷ [];
  command_name = codes "bun";
}

abbrev pub default_yarn : ManagerConfig
default_yarn = record {
  install_commands = codes "install" ∷ codes "add" ∷ [] ∷ [];
  non_download_commands =
      codes "remove"
      ∷ codes "unlink"
      ∷ codes "ls"
      ∷ codes "list"
      ∷ codes "outdated"
      ∷ codes "info"
      ∷ codes "config"
      ∷ codes "why"
      ∷ [];
  command_name = codes "yarn";
}

-- A scoped package: the last `@` is at the front, or it is before the version.
abbrev pub scoped_parts : Text → Option (Text × Text) → Text × Text
scoped_parts input none = (trim_space input, [])
scoped_parts input (some (name, version)) =
    if is_empty name then (trim_space input, []) else (trim_space name, trim_space version)

abbrev pub plain_parts : List Text → Option (Text × Text)
plain_parts (name ∷ []) = some (trim_space name, [])
plain_parts (name ∷ version ∷ []) = some (trim_space name, trim_space version)
plain_parts _ = none

-- `npmParsePackageInfo`: `none` is an error.
unfoldable pub npm_parse_package_info : Text → Option (Text × Text)
unfolding cut_last split_on trim_space
npm_parse_package_info input =
    if is_empty input
    then none
    else if has_prefix (trim_space input) (codes "@")
    then some (scoped_parts (trim_space input) (cut_last 64 (trim_space input)))
    else plain_parts (split_on 64 (trim_space input))

unfoldable pub npm_clean_version : Text → Text
npm_clean_version version =
    let cleaned = trim_prefix (trim_prefix version (codes "^")) (codes "~") in
    if cleaned =ₜ codes "*" || is_empty cleaned then codes "latest" else cleaned

abbrev pub clean_or_empty : Text → Text
clean_or_empty version = if is_empty version then version else npm_clean_version version

abbrev pub npm_target : Text → Text → PackageInstallTarget
npm_target name version = record {
  package_version = some (record { ecosystem = npm; name = name; version = version });
  extras = [];
  is_explicit_version = not (is_empty version);
}

-- The loop over the packages; the first that cannot be parsed ends it.
unfoldable pub npm_targets : List Text → Result ParseError (List PackageInstallTarget)
unfolding npm_parse_package_info npm_clean_version
npm_targets [] = ok []
npm_targets (pkg ∷ pkgs) = elim (npm_parse_package_info pkg) [
  | none ↦ err failed_to_parse_package
  | some (name, version) ↦ elim (npm_targets pkgs) [
    | err e ↦ err e
    | ok rest ↦ ok (npm_target name (clean_or_empty version) ∷ rest)
  ]
]

-- The install command is there, and the flags are parsed.
abbrev pub with_targets :
    Command → Bool → Result ParseError (List PackageInstallTarget) → Result ParseError ParsedCommand
with_targets c from_manifest (err e) = err e
with_targets c from_manifest (ok targets) =
    ok (record (only_command c) { install_targets = targets; is_manifest_install = from_manifest })

abbrev pub after_flags :
    ManagerConfig
    → Command
    → Text
    → Option (List Text × List Text)
    → Result ParseError ParsedCommand
after_flags cfg c used none = ok (only_command c)
after_flags cfg c used (some (packages, dev)) =
    if cfg.command_name =ₜ codes "yarn" && (used =ₜ codes "install" && not (is_empty packages))
    then ok (only_command c)
    else with_targets c (is_empty packages) (npm_targets (packages ++ dev))

abbrev pub with_install :
    ManagerConfig
    → (List Text → Option (List Text × List Text))
    → Command
    → Option (Text × List Text)
    → Result ParseError ParsedCommand
with_install cfg flags c none =
    ok (non_download c (is_first_non_flag_arg_in_list c.args cfg.non_download_commands))
with_install cfg flags c (some (used, install_args)) = after_flags cfg c used (flags install_args)

abbrev pub drop_own_name : Text → List Text → List Text
drop_own_name name [] = []
drop_own_name name (arg ∷ args) = if arg =ₜ name then args else arg ∷ args

abbrev pub parse_args :
    ManagerConfig
    → (List Text → Option (List Text × List Text))
    → List Text
    → Result ParseError ParsedCommand
parse_args cfg flags [] = ok (record (only_command (record { exe = cfg.command_name; args = [] })) {
  is_manifest_install = cfg.command_name =ₜ codes "yarn";
})
parse_args cfg flags (arg ∷ args) =
    with_install cfg flags (record { exe = cfg.command_name; args = arg ∷ args })
      (after_install cfg.install_commands (arg ∷ args))

-- `npmPackageManager.ParseCommand`. The two returns for no package at all after an install command
-- are not reached: then it is an install from the manifest.
unfoldable pub npm_parse_command :
    ManagerConfig
    → (List Text → Option (List Text × List Text))
    → List Text
    → Result ParseError ParsedCommand
unfolding npm_targets after_install is_first_non_flag_arg_in_list
npm_parse_command cfg flags args = parse_args cfg flags (drop_own_name cfg.command_name args)
