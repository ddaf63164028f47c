-- ===== src/Platform.antt =====
-- sandbox/platform: how a policy of the sandbox becomes the arguments of bubblewrap or the rules of
-- Landlock. The file system is given: what stands at a path, what `filepath.Glob` finds, and what
-- `filepath.Walk` visits under a root, in its order.
pub mod Globs
pub mod Bubblewrap
pub mod Landlock
pub mod Seatbelt
use pmg.Prelude.{Bool, true, false, Option, none, some, Text, List, [], ◌∷◌}
use pmg.SandboxUtil.{Env, expand_variables}

-- `os.Stat`: no such path, another error, or what it is.
pub data Stat : Type 0 where
  missing unreadable a_directory a_file : Stat

abbrev pub exists : Stat → Bool
exists missing = false
exists unreadable = false
exists a_directory = true
exists a_file = true

abbrev pub is_missing : Stat → Bool
is_missing missing = true
is_missing unreadable = false
is_missing a_directory = false
is_missing a_file = false

-- One call that `filepath.Walk` makes: the path, whether it is a directory, and whether there is an
-- error.
pub record Visit : Type 0 where
  pub path : Text
  pub is_dir : Bool
  pub failed : Bool

pub record Host : Type 0 where
  pub env : Env
  pub stat : Text → Stat
  pub glob : Text → Option (List Text)
  pub visits : Text → List Visit

unfoldable pub expand : Host → Text → Option Text
unfolding expand_variables
expand h pattern = expand_variables h.env pattern

-- `expandAll`: one pattern that cannot be expanded fails them all.
unfoldable pub expand_all : Host → List Text → Option (List Text)
expand_all h [] = some []
expand_all h (p ∷ ps) = elim (expand h p) [
  | none ↦ none
  | some e ↦ elim (expand_all h ps) [ none ↦ none | some es ↦ some (e ∷ es) ]
]
