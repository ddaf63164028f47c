-- ===== src/Platform/Globs.antt =====
-- sandbox/platform/glob_linux.go: patterns with `**`, the walk below their base with its limits, and
-- the directory that stands for a pattern.
pub mod Parents
use pmg.Prelude.{
  ℕ, zero, suc, ◌+◌, ◌==◌, ltb, leb, Bool, true, false, not, ◌&&◌, ◌||◌, Option, none, some,
  or_else, Text, codes, ◌=ₜ◌, is_empty, cons_head, split_on, has_prefix, has_suffix, trim_prefix,
  trim_suffix, List, [], ◌∷◌, ◌++◌, length, if◌then◌else◌,
}
use pmg.Paths.{dot, dir, rel}
use pmg.Platform.{Host, Visit, expand, is_missing}

-- `strings.Split(pattern, "**")`
unfoldable pub split_globstar : Text → List Text
split_globstar [] = [] ∷ []
split_globstar (c ∷ []) = (c ∷ []) ∷ []
split_globstar (c ∷ d ∷ s) = elim (c == 42 && d == 42) [
  | true ↦ [] ∷ split_globstar s
  | false ↦ cons_head c (split_globstar (d ∷ s))
]

-- `strings.Contains(pattern, "**")`
unfoldable pub has_globstar : Text → Bool
has_globstar [] = false
has_globstar (c ∷ s) = has_prefix (c ∷ s) (codes "**") || has_globstar s

-- The number of elements of a relative path.
abbrev pub depth_of : Text → ℕ
depth_of relative = if relative =ₜ dot then 0 else length (split_on 47 relative)

-- What the callback of the walk tells it.
pub data Step : Type 0 where
  next skip_dir : Step
  found found_last : Step

unfoldable pub visit : Text → Text → ℕ → ℕ → ℕ → Visit → Step
visit root suffix max_depth max_paths matched v =
    if v.failed then Step.next else elim (rel root v.path) [
      | none ↦ Step.next
      | some relative ↦
          if ltb 0 max_depth && ltb max_depth (depth_of relative)
          then if v.is_dir then Step.skip_dir else Step.next
          else if is_empty suffix || has_suffix v.path suffix
          then if leb max_paths (matched + 1) then Step.found_last else Step.found
          else Step.next
    ]

-- What a skipped directory takes with it.
abbrev pub is_below : Option Text → Text → Bool
is_below none path = false
is_below (some skipped) path = has_prefix path (skipped ++ 47 ∷ [])

-- `filepath.Walk` with this callback: a directory that is skipped takes with it what is below it.
unfoldable pub walk : Text → Text → ℕ → ℕ → ℕ → Option Text → List Visit → List Text
unfolding visit
walk root suffix max_depth max_paths matched skipped [] = []
walk root suffix max_depth max_paths matched skipped (v ∷ vs) = elim (is_below skipped v.path) [
  | true ↦ walk root suffix max_depth max_paths matched skipped vs
  | false ↦ elim (visit root suffix max_depth max_paths matched v) [
    | Step.next ↦ walk root suffix max_depth max_paths matched none vs
    | Step.skip_dir ↦ walk root suffix max_depth max_paths matched (some v.path) vs
    | Step.found ↦ v.path ∷ walk root suffix max_depth max_paths (matched + 1) none vs
    | Step.found_last ↦ v.path ∷ []
  ]
]

unfoldable pub walk_glob_with_depth_limit : Host → Text → Text → ℕ → ℕ → List Text
unfolding walk
walk_glob_with_depth_limit h root suffix max_depth max_paths =
    walk root suffix max_depth max_paths 0 none (h.visits root)

-- The base path with its variables expanded: as it is while it is missing, else what lies below it.
unfoldable pub expand_base : Host → Text → Text → ℕ → ℕ → Option (List Text)
unfolding walk_glob_with_depth_limit
expand_base h base suffix max_depth max_paths = elim (expand h base) [
  | none ↦ none
  | some e ↦
      if is_missing (h.stat e)
      then some (e ∷ [])
      else some (walk_glob_with_depth_limit h e suffix max_depth max_paths)
]

unfoldable pub expand_parts : Host → List Text → ℕ → ℕ → Option (List Text)
unfolding expand_base
expand_parts h (before ∷ after ∷ []) max_depth max_paths =
    if is_empty (trim_suffix before (codes "/"))
    then some []
    else expand_base h (trim_suffix before (codes "/")) (trim_prefix after (codes "/")) max_depth
        max_paths
expand_parts h _ max_depth max_paths = none

-- `expandGlobstarPattern`
unfoldable pub expand_globstar_pattern : Host → Text → ℕ → ℕ → Option (List Text)
unfolding split_globstar expand_parts
expand_globstar_pattern h pattern max_depth max_paths =
    expand_parts h (split_globstar pattern) max_depth max_paths

abbrev pub is_wildcard : ℕ → Bool
is_wildcard c = c == 42 || (c == 63 || c == 91)

-- The text before the first wildcard (`IndexAny(pattern, "*?[")` and the slice).
unfoldable pub before_wildcard : Text → Option Text
before_wildcard [] = none
before_wildcard (c ∷ s) =
    if is_wildcard c
    then some []
    else elim (before_wildcard s) [ none ↦ none | some p ↦ some (c ∷ p) ]

abbrev pub dir_or : Text → Option Text → Text
dir_or pattern none = pattern
dir_or pattern (some p) = dir p

abbrev pub cut_wildcards : Text → Text
cut_wildcards pattern = dir_or pattern (before_wildcard pattern)

abbrev pub or_dot : Text → Text
or_dot p = if is_empty p || p =ₜ codes "/" then dot else p

-- `extractGlobParentDir`
unfoldable pub extract_glob_parent_dir : Text → Text
unfolding before_wildcard
extract_glob_parent_dir pattern = or_dot (
    trim_suffix (cut_wildcards (trim_suffix (trim_suffix pattern (codes "/**")) (codes "/*")))
      (codes "/"))
