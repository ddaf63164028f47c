-- ===== src/PackageManagers/Pypi/Commands.antt =====
-- packagemanager/pypi.go: the commands of pip, uv and poetry. The flag parser (pflag) is given: the
-- requirement files and the packages that it finds, or its error; and so is the resolution of a
-- version by the registry, `none` where it fails.
use pmg.Prelude.{
  true, ◌&&◌, ◌||◌, not, Option, none, some, Text, codes, ◌=ₜ◌, is_empty, contains_text, List, [],
  ◌∷◌, any, if◌then◌else◌,
}
use pmg.Prelude.Result.{Result, ok, err}
use pmg.Analysis.{pypi}
use pmg.PackageManagers.{
  Command, PackageInstallTarget, ParsedCommand, only_command, non_download, ManagerConfig,
  is_first_non_flag_arg_in_list, after_install, ParseError, failed_to_parse_package,
  failed_to_resolve_version,
}
use pmg.PackageManagers.Pypi.{pypi_parse_package_info}
use pmg.PackageManagers.Pypi.Constraints.{pypi_convert_poetry_version_constraints}

abbrev pub pip_non_download : List Text
pip_non_download =
    codes "uninstall"
    ∷ codes "list"
    ∷ codes "show"
    ∷ codes "check"
    ∷ codes "freeze"
    ∷ codes "config"
    ∷ []

abbrev pub default_pip : ManagerConfig
default_pip = record {
  install_commands = codes "install" ∷ [];
  non_download_commands = pip_non_download;
  command_name = codes "pip";
}

abbrev pub default_pip3 : ManagerConfig
default_pip3 = record {
  install_commands = codes "install" ∷ [];
  non_download_commands = pip_non_download;
  command_name = codes "pip3";
}

abbrev pub default_uv : ManagerConfig
default_uv = record {
  install_commands = codes "add" ∷ codes "install" ∷ [];
  non_download_commands = [];
  command_name = codes "uv";
}

abbrev pub default_poetry : ManagerConfig
default_poetry = record {
  install_commands = codes "add" ∷ [];
  non_download_commands = codes "remove" ∷ codes "show" ∷ codes "config" ∷ codes "check" ∷ [];
  command_name = codes "poetry";
}

-- What the parsers call.
pub record Tools : Type 0 where
  pub flags : List Text → Option (List Text × List Text)
  pub matching_version : Text → Text → Option Text

abbrev pub pypi_target : Text → Text → Text → List Text → PackageInstallTarget
pypi_target name wanted version extras = record {
  package_version = some (record { ecosystem = pypi; name = name; version = version });
  extras = extras;
  is_explicit_version = not (is_empty wanted);
}

-- One package: parsed and its version resolved.
abbrev pub with_resolution :
    Text → Text → List Text → Option Text → Result ParseError PackageInstallTarget
with_resolution name wanted extras none = err failed_to_resolve_version
with_resolution name wanted extras (some version) = ok (pypi_target name wanted version extras)

abbrev pub resolve_spec :
    Tools → Option (Text × Text × List Text) → Result ParseError PackageInstallTarget
resolve_spec t none = err failed_to_parse_package
resolve_spec t (some (name, wanted, extras)) =
    with_resolution name wanted extras (t.matching_version name wanted)

abbrev pub add_target :
    Result ParseError PackageInstallTarget
    → Result ParseError (List PackageInstallTarget)
    → Result ParseError (List PackageInstallTarget)
add_target (err e) rest = err e
add_target (ok target) (err e) = err e
add_target (ok target) (ok targets) = ok (target ∷ targets)

-- The loop over the packages: the first one that fails ends it.
unfoldable pub pypi_targets :
    Tools → (Text → Option Text) → List Text → Result ParseError (List PackageInstallTarget)
unfolding pypi_parse_package_info
pypi_targets t convert [] = ok []
pypi_targets t convert (pkg ∷ pkgs) =
    add_target
      (elim (convert pkg) [
        | none ↦ err failed_to_parse_package
        | some spec ↦ resolve_spec t (pypi_parse_package_info spec)
      ])
      (pypi_targets t convert pkgs)

abbrev pub from_targets :
    Command
    → List Text
    → Result ParseError (List PackageInstallTarget)
    → Result ParseError ParsedCommand
from_targets c files (err e) = err e
from_targets c files (ok targets) = ok (record (only_command c) {
  install_targets = targets;
  is_manifest_install = not (is_empty files);
  manifest_files = files;
})

-- pip and uv take requirement files; Poetry takes none and converts its constraints.
abbrev pub install_packages :
    Tools → Command → Option (List Text × List Text) → Result ParseError ParsedCommand
install_packages t c none = ok (only_command c)
install_packages t c (some (files, packages)) =
    from_targets c files (pypi_targets t (λ p. some p) packages)

abbrev pub install_converted :
    Tools → Command → Option (List Text × List Text) → Result ParseError ParsedCommand
install_converted t c none = ok (only_command c)
install_converted t c (some (files, packages)) =
    from_targets c [] (pypi_targets t pypi_convert_poetry_version_constraints packages)

abbrev pub drop_names : List Text → List Text → List Text
drop_names names [] = []
drop_names names (arg ∷ args) = if contains_text names arg then args else arg ∷ args

abbrev pub command_of : ManagerConfig → List Text → Command
command_of cfg args = record { exe = cfg.command_name; args = args }

abbrev pub manifest_command : Command → Text → ParsedCommand
manifest_command c file = record (only_command c) {
  is_manifest_install = true;
  manifest_files = file ∷ [];
}

abbrev pub first_or_known : ManagerConfig → List Text → ParsedCommand
first_or_known cfg args =
    non_download (command_of cfg args)
      (is_first_non_flag_arg_in_list args cfg.non_download_commands)

-- `pipCommandParser.ParseCommand`
abbrev pub pip_after :
    ManagerConfig → Tools → List Text → Option (Text × List Text) → Result ParseError ParsedCommand
pip_after cfg t args none = ok (first_or_known cfg args)
pip_after cfg t args (some (used, rest)) = install_packages t (command_of cfg args) (t.flags rest)

abbrev pub pip_args : ManagerConfig → Tools → List Text → Result ParseError ParsedCommand
pip_args cfg t args =
    if is_empty args
    then ok (only_command (command_of cfg args))
    else pip_after cfg t args (after_install cfg.install_commands args)

unfoldable pub pip_parse_command :
    ManagerConfig → Tools → List Text → Result ParseError ParsedCommand
unfolding pypi_targets after_install contains_text is_first_non_flag_arg_in_list
pip_parse_command cfg t args = pip_args cfg t (drop_names (codes "pip" ∷ codes "pip3" ∷ []) args)

-- `uvCommandParser.ParseCommand`: `sync` and `pip sync` install from a file.
abbrev pub uv_after :
    ManagerConfig → Tools → List Text → Option (Text × List Text) → Result ParseError ParsedCommand
uv_after cfg t args none = ok (
    non_download (command_of cfg args)
      (any (λ arg. contains_text cfg.non_download_commands arg) args))
uv_after cfg t args (some (used, rest)) = install_packages t (command_of cfg args) (t.flags rest)

abbrev pub pip_sync_file : List Text → Option Text
pip_sync_file (a ∷ b ∷ file ∷ more) =
    if a =ₜ codes "pip" && b =ₜ codes "sync" then some file else none
pip_sync_file _ = none

abbrev pub uv_sync :
    ManagerConfig → Tools → List Text → Option Text → Result ParseError ParsedCommand
uv_sync cfg t args (some file) = ok (manifest_command (command_of cfg args) file)
uv_sync cfg t args none = uv_after cfg t args (after_install cfg.install_commands args)

abbrev pub uv_args : ManagerConfig → Tools → List Text → Result ParseError ParsedCommand
uv_args cfg t [] = ok (only_command (command_of cfg []))
uv_args cfg t (arg ∷ args) =
    if arg =ₜ codes "sync"
    then ok (manifest_command (command_of cfg (arg ∷ args)) (codes "uv.lock"))
    else uv_sync cfg t (arg ∷ args) (pip_sync_file (arg ∷ args))

unfoldable pub uv_parse_command :
    ManagerConfig → Tools → List Text → Result ParseError ParsedCommand
unfolding pypi_targets after_install contains_text
uv_parse_command cfg t args = uv_args cfg t (drop_names (codes "uv" ∷ []) args)

-- `poetryCommandParser.ParseCommand`
abbrev pub poetry_after :
    ManagerConfig → Tools → List Text → Option (Text × List Text) → Result ParseError ParsedCommand
poetry_after cfg t args none = ok (first_or_known cfg args)
poetry_after cfg t args (some (used, rest)) =
    install_converted t (command_of cfg args) (t.flags rest)

abbrev pub poetry_args : ManagerConfig → Tools → List Text → Result ParseError ParsedCommand
poetry_args cfg t [] = ok (only_command (command_of cfg []))
poetry_args cfg t (arg ∷ args) =
    if arg =ₜ codes "install"
    then ok (manifest_command (command_of cfg (arg ∷ args)) (codes "poetry.lock"))
    else poetry_after cfg t (arg ∷ args) (after_install cfg.install_commands (arg ∷ args))

unfoldable pub poetry_parse_command :
    ManagerConfig → Tools → List Text → Result ParseError ParsedCommand
unfolding pypi_targets after_install contains_text is_first_non_flag_arg_in_list
poetry_parse_command cfg t args = poetry_args cfg t (drop_names (codes "poetry" ∷ []) args)

-- `NewPypiPackageManager` and `ParseCommand`: the parser by the name of the command.
unfoldable pub pypi_parse_command :
    ManagerConfig → Tools → List Text → Option (Result ParseError ParsedCommand)
unfolding pip_parse_command uv_parse_command poetry_parse_command
pypi_parse_command cfg t args =
    if cfg.command_name =ₜ codes "pip" || cfg.command_name =ₜ codes "pip3"
    then some (pip_parse_command cfg t args)
    else if cfg.command_name =ₜ codes "uv"
    then some (uv_parse_command cfg t args)
    else if cfg.command_name =ₜ codes "poetry"
    then some (poetry_parse_command cfg t args)
    else none
