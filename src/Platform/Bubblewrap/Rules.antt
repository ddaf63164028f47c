-- ===== src/Platform/Bubblewrap/Rules.antt =====
-- sandbox/platform/bubblewrap_translator_linux.go: one rule of the file system, and the expansion of
-- its wildcards. The set of bound paths that a rule reads and changes is a list; `none` is an error.
use pmg.Prelude.{
  ℕ, zero, suc, ◌-◌, ◌==◌, ltb, Bool, true, false, ◌||◌, Option, none, some, or_else, Text, codes,
  ◌=ₜ◌, is_empty, contains_text, List, [], ◌∷◌, ◌++◌, length, if◌then◌else◌,
}
use pmg.Paths.{dot, dir}
use pmg.SandboxUtil.{contains_glob}
use pmg.Platform.{Host, a_directory, a_file, exists, is_missing}
use pmg.Platform.Globs.{has_globstar, expand_globstar_pattern, extract_glob_parent_dir}
use pmg.Platform.Bubblewrap.{BubblewrapConfig, Flag}

-- The paths or, above the threshold, the parent directory; with the mark of the latter.
abbrev pub or_parent : BubblewrapConfig → Text → List Text → List Text → List Text × Bool
or_parent cfg pattern paths kept =
    if ltb cfg.glob_fallback_threshold (length paths)
    then (extract_glob_parent_dir pattern ∷ [], true)
    else (kept, false)

-- `matches[:maxPaths]`
unfoldable pub take : ℕ → List Text → List Text
take n [] = []
take n (x ∷ xs) = if n == 0 then [] else x ∷ take (n - 1) xs

unfoldable pub expand_glob_pattern :
    Host → BubblewrapConfig → Text → ℕ → ℕ → Option (List Text × Bool)
unfolding take
expand_glob_pattern h cfg pattern max_depth max_paths =
    if has_globstar pattern
    then elim (expand_globstar_pattern h pattern max_depth max_paths) [
      | none ↦ none
      | some paths ↦ some (or_parent cfg pattern paths paths)
    ]
    else elim (h.glob pattern) [
      | none ↦ none
      | some found ↦ some (or_parent cfg pattern found (take max_paths found))
    ]

-- Binds the paths that are not bound yet.
unfoldable pub bind_new : (Text → Flag) → List Text → List Text → List Flag × List Text
bind_new flag [] bound = ([], bound)
bind_new flag (p ∷ ps) bound = elim (contains_text bound p) [
  | true ↦ bind_new flag ps bound
  | false ↦ let (flags, later) = bind_new flag ps (p ∷ bound) in (flag p ∷ flags, later)
]

-- What a pattern of `allow_read` stands for, the fallback included.
unfoldable pub bind_read_only :
    List Text → Option (List Text × Bool) → Option (List Flag × List Text)
unfolding bind_new
bind_read_only bound none = none
bind_read_only bound (some (paths, coarse)) = some (bind_new Flag.ro_bind_try paths bound)

-- `processReadRule`
unfoldable pub process_read_rule :
    Host → BubblewrapConfig → Text → List Text → Option (List Flag × List Text)
unfolding bind_new bind_read_only expand_glob_pattern
process_read_rule h cfg path bound =
    if contains_glob path
    then if contains_text bound (extract_glob_parent_dir path)
      then some ([], bound)
      else bind_read_only bound
          (expand_glob_pattern h cfg path cfg.max_glob_depth cfg.max_glob_paths)
    else some (bind_new Flag.ro_bind_try (path ∷ []) bound)

-- The parent directory in place of a path that does not exist.
unfoldable pub path_to_bind : Host → Text → Text
path_to_bind h p =
    if is_missing (h.stat p)
    then if is_empty (dir p) || (dir p =ₜ dot || dir p =ₜ codes "/") then p else dir p
    else p

-- The paths of a pattern, one by one: bound again where they were bound before.
unfoldable pub bind_each : Host → List Text → List Text → List Flag × List Text
unfolding path_to_bind
bind_each h [] bound = ([], bound)
bind_each h (p ∷ ps) bound =
    let (flags, later) = bind_each h ps (path_to_bind h p ∷ bound) in
    (Flag.bind_try (path_to_bind h p) ∷ flags, later)

-- Both ways to bind what a pattern stands for.
unfoldable pub bind_expansion :
    Host → List Text → Option (List Text × Bool) → Option (List Flag × List Text)
unfolding bind_new bind_each
bind_expansion h bound none = none
bind_expansion h bound (some (paths, true)) = some (bind_new Flag.bind_try paths bound)
bind_expansion h bound (some (paths, false)) = some (bind_each h paths bound)

-- `processWriteRule`
unfoldable pub process_write_rule :
    Host → BubblewrapConfig → Text → List Text → Option (List Flag × List Text)
unfolding bind_new bind_expansion expand_glob_pattern
process_write_rule h cfg path bound =
    if contains_glob path
    then if contains_text bound (extract_glob_parent_dir path)
      then some ([], bound)
      else bind_expansion h bound
          (expand_glob_pattern h cfg path cfg.max_glob_depth cfg.max_glob_paths)
    else some (bind_new Flag.bind_try (path ∷ []) bound)

-- What hides one path from reading, and what keeps it from being written.
abbrev pub hide : Host → Text → List Flag
hide h p = elim (h.stat p) [
  | a_directory ↦ Flag.tmpfs p ∷ []
  | a_file ↦ Flag.ro_bind_null p ∷ []
  | _ ↦ []
]

abbrev pub make_read_only : Host → Text → List Flag
make_read_only h p = if exists (h.stat p) then Flag.ro_bind_try p ∷ [] else []

-- A directory is made read-only, a file is masked.
abbrev pub deny_access : Host → Text → List Flag
deny_access h p = elim (h.stat p) [
  | a_directory ↦ Flag.ro_bind_try p ∷ []
  | a_file ↦ Flag.ro_bind_null p ∷ []
  | _ ↦ []
]

unfoldable pub for_each : (Text → List Flag) → List Text → List Flag
for_each f [] = []
for_each f (p ∷ ps) = f p ++ for_each f ps

-- The paths of an expansion; without one a deny rule does nothing.
abbrev pub paths_of : Option (List Text × Bool) → List Text
paths_of none = []
paths_of (some (paths, coarse)) = paths

unfoldable pub deny_matches : Host → BubblewrapConfig → (Text → List Flag) → Text → List Flag
unfolding for_each expand_glob_pattern
deny_matches h cfg f path =
    for_each f
      (paths_of (expand_glob_pattern h cfg path cfg.mandatory_deny_scan_depth cfg.max_glob_paths))

-- `processDenyReadRule` calls itself on the parent directory of a pattern with `**`: recursion on
-- fuel, where `none` is fuel that has run out.
unfoldable pub process_deny_read : Host → BubblewrapConfig → ℕ → Text → Option (List Flag)
unfolding deny_matches
process_deny_read h cfg zero path = none
process_deny_read h cfg (suc fuel) path =
    let parent = process_deny_read h cfg fuel (extract_glob_parent_dir path) in
    if contains_glob path
    then if has_globstar path
      then if is_empty (extract_glob_parent_dir path) || extract_glob_parent_dir path =ₜ dot
        then some []
        else parent
      else some (deny_matches h cfg (hide h) path)
    else some (hide h path)

unfoldable pub process_deny_read_rule : Host → BubblewrapConfig → Text → List Flag
unfolding process_deny_read
process_deny_read_rule h cfg path = or_else (process_deny_read h cfg 2 path) []

unfoldable pub process_deny_write_rule : Host → BubblewrapConfig → Text → List Flag
unfolding deny_matches
process_deny_write_rule h cfg path =
    if contains_glob path then deny_matches h cfg (make_read_only h) path else make_read_only h path

unfoldable pub process_deny_rule : Host → BubblewrapConfig → Text → List Flag
unfolding deny_matches
process_deny_rule h cfg path =
    if contains_glob path then deny_matches h cfg (deny_access h) path else deny_access h path
