-- ===== src/PackageManagers/Known.antt =====
-- packagemanager/npm.go and packagemanager/pypi.go: which commands are known to download nothing.
use pmg.Prelude.{
  ◌≡◌, ◌↔◌, refl, sym, ap, ◌∙◌, subst, Bool, true, false, All, has_prefix, text_eq_refl, arith, not,
  ◌&&◌, Option, none, some, is_some, Text, codes, ◌=ₜ◌, is_empty, contains_text, List, [], ◌∷◌,
  ◌++◌, any, Bool-cases, inl, inr,
}
use pmg.Prelude.Result.{Result, ok, err}
use pmg.PackageManagers.{
  Command, ParsedCommand, PackageInstallTarget, ParseError, ManagerConfig, after_install,
  is_first_non_flag_arg_in_list,
}
use pmg.PackageManagers.Npm.{
  npm_parse_command, npm_targets, drop_own_name, with_targets, after_flags, with_install,
  parse_args,
}
use pmg.PackageManagers.Pypi.Constraints.{pypi_convert_poetry_version_constraints}
use pmg.PackageManagers.Pypi.Commands.{
  Tools, pip_parse_command, poetry_parse_command, drop_names, from_targets, install_packages,
  install_converted, pip_after, pip_args, poetry_after, poetry_args, command_of, pypi_targets,
}

-- Whether a parsed command is known to download nothing; a command that cannot be parsed is not.
abbrev pub is_known : Result ParseError ParsedCommand → Bool
is_known (ok pc) = pc.is_known_non_download_command
is_known (err e) = false

abbrev pub names_install : ManagerConfig → List Text → Bool
names_install cfg args = any (λ arg. contains_text cfg.install_commands arg) args

-- No argument is an install command, and the first one that is not a flag is one that the list names.
abbrev pub expect_known : ManagerConfig → List Text → Bool
expect_known cfg args =
    not (names_install cfg args) && is_first_non_flag_arg_in_list args cfg.non_download_commands

is_some-after_install :
    (cmds args : List Text)
    → is_some (after_install cmds args) ≡ any (λ arg. contains_text cmds arg) args
unfolding after_install
is_some-after_install cmds [] = refl
is_some-after_install cmds (arg ∷ args) = elim (Bool-cases (contains_text cmds arg)) [
  | inl e ↦ rw e refl
  | inr e ↦ rw e (is_some-after_install cmds args)
]

-- What an install command among the arguments comes to.
found-known :
    (cfg : ManagerConfig) (args : List Text)
    → (not (is_some (after_install cfg.install_commands args))
        && is_first_non_flag_arg_in_list args cfg.non_download_commands)
      ≡ expect_known cfg args
found-known cfg args =
    ap (λ b. not b && is_first_non_flag_arg_in_list args cfg.non_download_commands)
      (is_some-after_install cfg.install_commands args)

with_targets-known :
    (c : Command) (b : Bool) (r : Result ParseError (List PackageInstallTarget))
    → is_known (with_targets c b r) ≡ false
with_targets-known c b (ok ts) = refl
with_targets-known c b (err e) = refl

after_flags-known :
    (cfg : ManagerConfig) (c : Command) (used : Text) (o : Option (List Text × List Text))
    → is_known (after_flags cfg c used o) ≡ false
after_flags-known cfg c used none = refl
after_flags-known cfg c used (some (packages, dev)) =
    elim (Bool-cases
      (cfg.command_name =ₜ codes "yarn" && (used =ₜ codes "install" && not (is_empty packages)))) [
        | inl e ↦ rw e refl
        | inr e ↦ rw e (with_targets-known c (is_empty packages) (npm_targets (packages ++ dev)))
      ]

with_install-known :
    (cfg : ManagerConfig) (flags : List Text → Option (List Text × List Text)) (c : Command)
    (o : Option (Text × List Text))
    → is_known (with_install cfg flags c o)
      ≡ (not (is_some o) && is_first_non_flag_arg_in_list c.args cfg.non_download_commands)
with_install-known cfg flags c none = refl
with_install-known cfg flags c (some (used, rest)) = after_flags-known cfg c used (flags rest)

parse_args-known :
    (cfg : ManagerConfig) (flags : List Text → Option (List Text × List Text)) (args : List Text)
    → is_known (parse_args cfg flags args) ≡ expect_known cfg args
unfolding is_first_non_flag_arg_in_list
parse_args-known cfg flags [] = refl
parse_args-known cfg flags (arg ∷ args) =
    with_install-known cfg flags (record { exe = cfg.command_name; args = arg ∷ args })
      (after_install cfg.install_commands (arg ∷ args))
    ∙ found-known cfg (arg ∷ args)

abbrev pub starts_with : Text → List Text → Bool
starts_with word [] = false
starts_with word (arg ∷ args) = arg =ₜ word

-- The first argument that does not start with a dash is one of the list.
pub data FirstIsIn (cmds : List Text) : List Text → Type 0 where
  at_first :
      {arg : Text} {args : List Text}
      → has_prefix arg (codes "-") ≡ false
      → contains_text cmds arg ≡ true
      → FirstIsIn cmds (arg ∷ args)
  behind_flag :
      {arg : Text} {args : List Text}
      → has_prefix arg (codes "-") ≡ true
      → FirstIsIn cmds args
      → FirstIsIn cmds (arg ∷ args)

-- The arguments behind the program's own name, where it is repeated.
pub data IsGiven (name : Text) : List Text → List Text → Type 0 where
  repeated : {args : List Text} → IsGiven name (name ∷ args) args
  unnamed : {args : List Text} → starts_with name args ≡ false → IsGiven name args args

abbrev pub IsHarmless : ManagerConfig → List Text → Type 0
IsHarmless cfg args =
    All (λ arg. contains_text cfg.install_commands arg ≡ false) args
    × FirstIsIn cfg.non_download_commands args

first-FirstIsIn :
    (cmds args : List Text) → is_first_non_flag_arg_in_list args cmds ≡ true → FirstIsIn cmds args
unfolding is_first_non_flag_arg_in_list
first-FirstIsIn cmds [] h = cc h
first-FirstIsIn cmds (arg ∷ args) h = elim (Bool-cases (has_prefix arg (codes "-"))) [
  | inl d ↦ behind_flag d (first-FirstIsIn cmds args (ground (arith, d, h)))
  | inr d ↦ at_first d (ground (arith, d, h))
]

FirstIsIn-first :
    (cmds : List Text) {args : List Text}
    → FirstIsIn cmds args
    → is_first_non_flag_arg_in_list args cmds ≡ true
unfolding is_first_non_flag_arg_in_list
FirstIsIn-first cmds (at_first d m) = rw d m
FirstIsIn-first cmds (behind_flag d f) = rw d (FirstIsIn-first cmds f)

none_installs :
    (cmds args : List Text)
    → any (λ arg. contains_text cmds arg) args ≡ false
    → All (λ arg. contains_text cmds arg ≡ false) args
none_installs cmds [] h = tt
none_installs cmds (arg ∷ args) h = elim (Bool-cases (contains_text cmds arg)) [
  | inl d ↦ absurd (ground (arith, d, h))
  | inr d ↦ (d, none_installs cmds args (ground (arith, d, h)))
]

no_install :
    (cmds args : List Text)
    → All (λ arg. contains_text cmds arg ≡ false) args
    → any (λ arg. contains_text cmds arg) args ≡ false
no_install cmds [] h = refl
no_install cmds (arg ∷ args) (d, h) = rw d (no_install cmds args h)

expect_known-IsHarmless :
    (cfg : ManagerConfig) (args : List Text) → (expect_known cfg args ≡ true) ↔ IsHarmless cfg args
expect_known-IsHarmless cfg args = (
  λ h. (
    none_installs cfg.install_commands args (ground (arith, h)),
    first-FirstIsIn cfg.non_download_commands args (ground (arith, h)),
  ),
  λ (a, f).
      rw (no_install cfg.install_commands args a, FirstIsIn-first cfg.non_download_commands f) refl,
)

drop_own_name-IsGiven :
    (name : Text) {given args : List Text}
    → IsGiven name given args
    → drop_own_name name given ≡ args
drop_own_name-IsGiven name repeated = rw (text_eq_refl name) refl
drop_own_name-IsGiven name (unnamed {args = []} h) = refl
drop_own_name-IsGiven name (unnamed {args = arg ∷ args} h) = rw h refl

-- For npm, pnpm, bun and yarn, whatever the flag parser finds, a command is known to download
-- nothing exactly if none of its arguments (without the program's own name, if it is repeated in
-- front) is an install command, and its first argument that does not begin with a dash exists and
-- is on the manager's list.
pub npm_parse_command-known :
    (cfg : ManagerConfig) (flags : List Text → Option (List Text × List Text))
    (given args : List Text)
    → IsGiven cfg.command_name given args
    → (is_known (npm_parse_command cfg flags given) ≡ true) ↔ IsHarmless cfg args
unfolding npm_parse_command
npm_parse_command-known cfg flags given args g =
    subst (λ b. (b ≡ true) ↔ IsHarmless cfg args)
      (sym (
        parse_args-known cfg flags (drop_own_name cfg.command_name given)
        ∙ ap (expect_known cfg) (drop_own_name-IsGiven cfg.command_name g)))
      (expect_known-IsHarmless cfg args)

from_targets-known :
    (c : Command) (files : List Text) (r : Result ParseError (List PackageInstallTarget))
    → is_known (from_targets c files r) ≡ false
from_targets-known c files (ok ts) = refl
from_targets-known c files (err e) = refl

install_packages-known :
    (t : Tools) (c : Command) (o : Option (List Text × List Text))
    → is_known (install_packages t c o) ≡ false
install_packages-known t c none = refl
install_packages-known t c (some (files, packages)) =
    from_targets-known c files (pypi_targets t (λ p. some p) packages)

install_converted-known :
    (t : Tools) (c : Command) (o : Option (List Text × List Text))
    → is_known (install_converted t c o) ≡ false
install_converted-known t c none = refl
install_converted-known t c (some (files, packages)) =
    from_targets-known c [] (pypi_targets t pypi_convert_poetry_version_constraints packages)

pip_after-known :
    (cfg : ManagerConfig) (t : Tools) (args : List Text) (o : Option (Text × List Text))
    → is_known (pip_after cfg t args o)
      ≡ (not (is_some o) && is_first_non_flag_arg_in_list args cfg.non_download_commands)
pip_after-known cfg t args none = refl
pip_after-known cfg t args (some (used, rest)) =
    install_packages-known t (command_of cfg args) (t.flags rest)

poetry_after-known :
    (cfg : ManagerConfig) (t : Tools) (args : List Text) (o : Option (Text × List Text))
    → is_known (poetry_after cfg t args o)
      ≡ (not (is_some o) && is_first_non_flag_arg_in_list args cfg.non_download_commands)
poetry_after-known cfg t args none = refl
poetry_after-known cfg t args (some (used, rest)) =
    install_converted-known t (command_of cfg args) (t.flags rest)

pip_args-known :
    (cfg : ManagerConfig) (t : Tools) (args : List Text)
    → is_known (pip_args cfg t args) ≡ expect_known cfg args
unfolding is_first_non_flag_arg_in_list
pip_args-known cfg t [] = refl
pip_args-known cfg t (arg ∷ args) =
    pip_after-known cfg t (arg ∷ args) (after_install cfg.install_commands (arg ∷ args))
    ∙ found-known cfg (arg ∷ args)

poetry_args-known :
    (cfg : ManagerConfig) (t : Tools) (args : List Text)
    → is_known (poetry_args cfg t args)
      ≡ (not (starts_with (codes "install") args) && expect_known cfg args)
unfolding is_first_non_flag_arg_in_list
poetry_args-known cfg t [] = refl
poetry_args-known cfg t (arg ∷ args) = elim (Bool-cases (arg =ₜ codes "install")) [
  | inl e ↦ rw e refl
  | inr e ↦ rw e (
      poetry_after-known cfg t (arg ∷ args) (after_install cfg.install_commands (arg ∷ args))
      ∙ found-known cfg (arg ∷ args))
]

pub pip_parse_command-known :
    (cfg : ManagerConfig) (t : Tools) (args : List Text)
    → is_known (pip_parse_command cfg t args)
      ≡ expect_known cfg (drop_names (codes "pip" ∷ codes "pip3" ∷ []) args)
unfolding pip_parse_command
pip_parse_command-known cfg t args =
    pip_args-known cfg t (drop_names (codes "pip" ∷ codes "pip3" ∷ []) args)

abbrev expect_poetry : ManagerConfig → List Text → Bool
expect_poetry cfg args = not (starts_with (codes "install") args) && expect_known cfg args

pub poetry_parse_command-known :
    (cfg : ManagerConfig) (t : Tools) (args : List Text)
    → is_known (poetry_parse_command cfg t args)
      ≡ expect_poetry cfg (drop_names (codes "poetry" ∷ []) args)
unfolding poetry_parse_command
poetry_parse_command-known cfg t args =
    poetry_args-known cfg t (drop_names (codes "poetry" ∷ []) args)
