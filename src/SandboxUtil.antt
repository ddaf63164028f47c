-- ===== src/SandboxUtil.antt =====
-- sandbox/util/variables.go and the test for wildcards of the sandbox's patterns. The process's home,
-- working and temporary directories are given; `none` is the error of asking for one.
pub mod Dangerous
pub mod GlobRegex
use pmg.Prelude.{
  ℕ, zero, suc, ◌==◌, Bool, true, false, ◌||◌, Option, none, some, Text, codes, ◌=ₜ◌, is_empty,
  contains_code, has_prefix, List, [], ◌∷◌, ◌++◌, if◌then◌else◌,
}
use pmg.Paths.{clean}

pub record Env : Type 0 where
  pub home : Option Text
  pub cwd : Option Text
  pub temp_dir : Text

abbrev pub var_home : Text
var_home = codes "${HOME}"

abbrev pub var_cwd : Text
var_cwd = codes "${CWD}"

abbrev pub var_tmp_dir : Text
var_tmp_dir = codes "${TMPDIR}"

abbrev pub supported_variables : List Text
supported_variables = var_home ∷ var_cwd ∷ var_tmp_dir ∷ []

unfoldable pub is_supported_loop : List Text → Text → Bool
is_supported_loop [] tok = false
is_supported_loop (v ∷ vs) tok = if v =ₜ tok then true else is_supported_loop vs tok

unfoldable pub is_supported_variable : Text → Bool
unfolding is_supported_loop
is_supported_variable = is_supported_loop supported_variables

-- `strings.NewReplacer(…).Replace`: the variables are tried at every position, from the left. The
-- number counts what is left of the variable that was replaced.
unfoldable pub replace : Text → Text → Text → ℕ → Text → Text
replace home cwd tmp k [] = []
replace home cwd tmp (suc k) (c ∷ s) = replace home cwd tmp k s
replace home cwd tmp zero (c ∷ s) = elim (has_prefix (c ∷ s) var_home) [
  | true ↦ home ++ replace home cwd tmp 6 s
  | false ↦ elim (has_prefix (c ∷ s) var_cwd) [
    | true ↦ cwd ++ replace home cwd tmp 5 s
    | false ↦ elim (has_prefix (c ∷ s) var_tmp_dir) [
      | true ↦ tmp ++ replace home cwd tmp 8 s
      | false ↦ c ∷ replace home cwd tmp 0 s
    ]
  ]
]

-- An argument that is left empty stands for the process's value.
abbrev pub fall_back : Text → Option Text → Option Text
fall_back given value = if is_empty given then value else some given

unfoldable pub expand_variables_with : Env → Text → Text → Text → Text → Option Text
unfolding replace
expand_variables_with env pattern cwd home tmp = elim (fall_back home env.home) [
  | none ↦ none
  | some h ↦ elim (fall_back cwd env.cwd) [
    | none ↦ none
    | some c ↦ some (clean (replace h c (if is_empty tmp then env.temp_dir else tmp) 0 pattern))
  ]
]

unfoldable pub expand_variables : Env → Text → Option Text
unfolding expand_variables_with
expand_variables env pattern = expand_variables_with env pattern [] [] []

unfoldable pub contains_glob : Text → Bool
contains_glob pattern =
    contains_code pattern 42 || (contains_code pattern 63 || contains_code pattern 91)
