-- ===== src/Tests/PackageTests.antt =====
-- Runs of the command parsers of the package managers, and witnesses.
use pmg.Prelude.{
  ◌↔◌, ℕ, strip_suffix, ◌≡◌, refl, Bool, true, false, Option, none, some, Text, codes, List, [],
  ◌∷◌, ◌++◌, arith,
}
use pmg.PackageManagers.Npm.{
  npm_parse_command, npm_parse_package_info, npm_clean_version, default_npm,
}
use pmg.PackageManagers.Known.{is_known, IsHarmless, repeated, npm_parse_command-known}
use pmg.PackageManagers.Pypi.{pypi_parse_package_info}
use pmg.PackageManagers.Pypi.Specs.{IsVersion, write_spec, pypi_parse_package_info_lem}
use pmg.PackageManagers.Pypi.Commands.{Tools}
use pmg.PackageManagers.Pypi.Constraints.{
  pypi_convert_caret_constraint, pypi_convert_tilde_constraint, pypi_convert_compatible_release,
  pypi_convert_wildcard_constraint,
}
use pmg.PackageManagers.Pypi.Carets.{Version, IsSmall}

caret_runs : pypi_convert_caret_constraint (codes "0.2.3") ≡ codes ">=0.2.3,<0.3.0"
unfolding pypi_convert_caret_constraint
caret_runs = refl

caret_overflow_runs :
    pypi_convert_caret_constraint (codes "9223372036854775807.0.0")
    ≡ codes ">=9223372036854775807.0.0,<-9223372036854775808.0.0"
unfolding pypi_convert_caret_constraint
caret_overflow_runs = refl

tilde_runs : pypi_convert_tilde_constraint (codes "1.2") ≡ codes ">=1.2.0,<1.3.0"
unfolding pypi_convert_tilde_constraint
tilde_runs = refl

compatible_runs : pypi_convert_compatible_release (codes "~=1.4.2") ≡ codes ">=1.4.2,<1.5.0"
unfolding pypi_convert_compatible_release pmg.Prelude.strip_prefix
compatible_runs = refl

wildcard_runs : pypi_convert_wildcard_constraint (codes "1.*") ≡ codes ">=1.0.0,<2.0.0"
unfolding pypi_convert_wildcard_constraint strip_suffix
wildcard_runs = refl

scoped_runs :
    npm_parse_package_info (codes "@types/node@18.0.0") ≡ some (codes "@types/node", codes "18.0.0")
unfolding npm_parse_package_info pmg.Prelude.strip_prefix
scoped_runs = refl

clean_runs : npm_clean_version (codes "^1.2.3") ≡ codes "1.2.3"
unfolding npm_clean_version pmg.Prelude.strip_prefix
clean_runs = refl

abbrev all_packages : List Text → Option (List Text × List Text)
all_packages args = some (args, [])

abbrev some_tools : Tools
some_tools = record {
  flags = λ args. some ([], args);
  matching_version = λ name wanted. some (codes "1.0.0");
}

npm_parse_command-known_example :
    (is_known
        (npm_parse_command default_npm all_packages (codes "npm" ∷ codes "-s" ∷ codes "ls" ∷ []))
      ≡ true)
    ↔ IsHarmless default_npm (codes "-s" ∷ codes "ls" ∷ [])
npm_parse_command-known_example =
    npm_parse_command-known default_npm all_packages (codes "npm" ∷ codes "-s" ∷ codes "ls" ∷ [])
      (codes "-s" ∷ codes "ls" ∷ []) repeated

-- The value of a flag is taken for the subcommand.
flag_value_runs :
    is_known (
      npm_parse_command default_npm all_packages
        (codes "--loglevel" ∷ codes "info" ∷ codes "exec" ∷ codes "x" ∷ []))
    ≡ true
unfolding npm_parse_command pmg.Prelude.contains_text pmg.Prelude.strip_prefix
flag_value_runs = refl

abbrev v_2 : Text
v_2 = codes "==2.0"

v_2-IsVersion : IsVersion v_2
unfolding pmg.Prelude.is_space pmg.Prelude.strip_prefix
v_2-IsVersion = record {
  no_spaces = (refl, (refl, (refl, (refl, (refl, tt)))));
  no_opening = (
    λ e. omega arith,
    (λ e. omega arith, (λ e. omega arith, (λ e. omega arith, (λ e. omega arith, tt)))),
  );
  no_closing = (
    λ e. omega arith,
    (λ e. omega arith, (λ e. omega arith, (λ e. omega arith, (λ e. omega arith, tt)))),
  );
  starts = refl;
}

pypi_parse_package_info_lem_example :
    pypi_parse_package_info (write_spec (codes "ab") (codes "x" ∷ codes "y" ∷ []) v_2)
    ≡ some (codes "ab", v_2, codes "x" ∷ codes "y" ∷ [])
pypi_parse_package_info_lem_example =
    pypi_parse_package_info_lem (codes "ab") (codes "x" ∷ codes "y" ∷ []) v_2
      (refl, (refl, (refl, tt))) ((refl, (refl, tt)), ((refl, (refl, tt)), tt)) v_2-IsVersion

abbrev v_021 : Version
v_021 = record { major = 0; minor = 2; patch = 1 }

v_021-IsSmall : IsSmall v_021
v_021-IsSmall = record {
  small_major = omega arith;
  small_minor = omega arith;
  small_patch = omega arith;
}
