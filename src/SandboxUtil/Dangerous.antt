-- ===== src/SandboxUtil/Dangerous.antt =====
-- sandbox/util/dangerous.go: the paths that every sandbox denies, and how a policy opts out of them.
-- A Go set is the list of its members; `abs_to_dangerous` is a map in which a later entry replaces
-- an earlier one.
pub mod Opting
pub mod Secrets
use pmg.Prelude.{
  Bool, true, false, ◌||◌, Option, none, some, or_else, is_some, Text, codes, is_empty,
  contains_text, List, [], ◌∷◌, ◌++◌, map, if◌then◌else◌,
}
use pmg.Paths.{clean, join_path}
use pmg.SandboxUtil.{Env}
use pmg.Registry.Cache.{Cache, lookup, insert}

abbrev pub dangerous_files : List Text
dangerous_files =
    codes ".env"
    ∷ codes ".env.*"
    ∷ codes ".aws"
    ∷ codes ".azure"
    ∷ codes ".gcloud"
    ∷ codes ".config/gcloud"
    ∷ codes ".kube"
    ∷ codes ".ssh"
    ∷ codes ".gnupg"
    ∷ codes ".docker/config.json"
    ∷ codes ".netrc"
    ∷ codes ".git-credentials"
    ∷ codes ".pgpass"
    ∷ codes ".config/gh"
    ∷ []

pub record MandatoryDenyOptions : Type 0 where
  pub allow_git_config : Bool
  pub allow_read : List Text
  pub allow_write : List Text

pub record MandatoryDenyResult : Type 0 where
  pub deny_read : List Text
  pub deny_write : List Text
  pub suppressed_read : List Text
  pub suppressed_write : List Text

abbrev pub empty_deny : MandatoryDenyResult
empty_deny = record { deny_read = []; deny_write = []; suppressed_read = []; suppressed_write = [] }

unfoldable pub to_set : List Text → List Text
to_set s = map clean s

-- `os.Getwd` and `os.UserHomeDir`, with what stands for them when they fail.
abbrev pub working_dir : Env → Text
working_dir env = or_else env.cwd (codes ".")

abbrev pub home_dir : Env → Text
home_dir env = or_else env.home []

abbrev pub any_glob : Text → Text
any_glob file = join_path (codes "**") file

unfoldable pub abs_loop : Text → Text → List Text → Cache Text → Cache Text
abs_loop cwd home [] m = m
abs_loop cwd home (file ∷ files) m =
    let here = insert (clean (join_path cwd file)) file m in
    abs_loop cwd home files
      (if is_empty home then here else insert (clean (join_path home file)) file here)

-- The `**/<file>` patterns of the dangerous files that the entries name in an absolute form.
unfoldable pub globs_named : Cache Text → List Text → List Text
globs_named m [] = []
globs_named m (entry ∷ entries) = elim (lookup entry m) [
  | none ↦ globs_named m entries
  | some file ↦ clean (any_glob file) ∷ globs_named m entries
]

abbrev pub with_home : Text → List Text → List Text
with_home home ps = if is_empty home then [] else ps

unfoldable pub files_loop : Text → Text → List Text → List Text
files_loop cwd home [] = []
files_loop cwd home (file ∷ files) =
    join_path cwd file
    ∷ any_glob file
    ∷ (with_home home (join_path home file ∷ []) ++ files_loop cwd home files)

unfoldable pub git_config : Text → Text → List Text
git_config cwd home =
    join_path cwd (codes ".git/config") ∷ with_home home (join_path home (codes ".git/config") ∷ [])

unfoldable pub suppressible : Env → Bool → List Text
unfolding files_loop git_config
suppressible env allow_git =
    files_loop (working_dir env) (home_dir env) dangerous_files
    ++ (if allow_git then [] else git_config (working_dir env) (home_dir env))

-- One pattern in one direction: the denied and the suppressed ones.
abbrev pub add_pattern : Bool → Text → List Text × List Text → List Text × List Text
add_pattern named p (denied, suppressed) =
    if named then (denied, suppressed ++ p ∷ []) else (denied ++ p ∷ [], suppressed)

-- What a policy names in one direction: the set of its allow list, and the globs that go with it.
abbrev pub is_named : List Text → List Text → Text → Bool
is_named allowed globs p = contains_text allowed p || contains_text globs p

unfoldable pub deny_loop : (Text → Bool) → List Text → List Text × List Text → List Text × List Text
deny_loop named [] acc = acc
deny_loop named (p ∷ ps) acc = deny_loop named ps (add_pattern (named (clean p)) (clean p) acc)

unfoldable pub git_hooks : Env → List Text
git_hooks env =
    join_path (working_dir env) (codes ".git/hooks")
    ∷ join_path (working_dir env) (codes ".git/hooks/**")
    ∷ with_home (home_dir env) (
        join_path (home_dir env) (codes ".git/hooks")
        ∷ join_path (home_dir env) (codes ".git/hooks/**")
        ∷ [])

abbrev pub named_in : Env → List Text → Text → Bool
named_in env allowed =
    is_named (to_set allowed)
      (globs_named (abs_loop (working_dir env) (home_dir env) dangerous_files []) (to_set allowed))

-- The loop over the suppressible patterns writes to the lists of both directions; neither is read.
unfoldable pub mandatory_deny_patterns : Env → MandatoryDenyOptions → MandatoryDenyResult
unfolding deny_loop to_set abs_loop globs_named suppressible git_hooks
mandatory_deny_patterns env opts =
    let (read, read_off) =
      deny_loop (named_in env opts.allow_read) (suppressible env opts.allow_git_config) ([], []) in
    let (write, write_off) =
      deny_loop (named_in env opts.allow_write) (suppressible env opts.allow_git_config) ([], []) in
    record {
      deny_read = read ++ map clean (git_hooks env);
      deny_write = write ++ map clean (git_hooks env);
      suppressed_read = read_off;
      suppressed_write = write_off;
    }
