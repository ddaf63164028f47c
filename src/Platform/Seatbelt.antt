-- ===== src/Platform/Seatbelt.antt =====
-- sandbox/platform/seatbelt_translator_darwin.go: the profile of a seatbelt sandbox as the list of its
-- rules, in their order. The messages of the rules, comments, blank lines and the text of a rule are
-- left out. The variable TMPDIR is an argument.
pub mod Essential
pub mod Translator
pub mod Expansion
pub mod Verdicts
pub mod Denials
pub mod Denied
pub mod Granted
pub mod Unrelated
pub mod Executions
use pmg.Prelude.{
  ℕ, zero, suc, ◌==◌, Bool, true, false, not, ◌||◌, Text, codes, ◌=ₜ◌, is_empty, has_prefix,
  has_suffix, trim_prefix, trim_suffix, split_on, join_with, length, map, List, [], ◌∷◌, ◌++◌,
  if◌then◌else◌,
}
use pmg.Prelude.Regex.{Regex, one_of, seq, star, maybe, some_of, literal, full_match}
use pmg.Paths.{dir}
use pmg.SandboxUtil.{contains_glob}
use pmg.SandboxUtil.GlobRegex.{glob_to_regex}

-- What a rule asks of the object: a path, the paths below one, a regular expression, a character
-- device, a local address, or anything else, by the kind of the filter and its value.
pub data Filter : Type 0 where
  literal_path subpath regex_of char_device local_ip : Text → Filter
  of_kind : Text → Text → Filter

-- Without a filter a rule is about everything.
pub record ProfileRule : Type 0 where
  pub allows : Bool
  pub operations : List Text
  pub filters : List Filter

abbrev pub allow_rule : Text → List Filter → ProfileRule
allow_rule operation filters = record {
  allows = true;
  operations = operation ∷ [];
  filters = filters;
}

-- `writeSeatbeltDenyRule`, which appends the star.
abbrev pub deny_rule : Text → Filter → ProfileRule
deny_rule operation f = record {
  allows = false;
  operations = (operation ++ codes "*") ∷ [];
  filters = f ∷ [];
}

-- `util.GetTmpdirParent`.
abbrev not_slash : Regex
not_slash = one_of (λ c. not (c == 47))

abbrev tmpdir_pattern : Regex
tmpdir_pattern = seq (literal (codes "/")) (
    seq (maybe (literal (codes "private/"))) (
      seq (literal (codes "var/folders/")) (
        seq (seq not_slash not_slash) (
          seq (literal (codes "/"))
            (seq (some_of not_slash) (seq (literal (codes "/T")) (maybe (literal (codes "/")))))))))

abbrev pub both_versions : Text → List Text
both_versions parent =
    if has_prefix parent (codes "/private/var/")
    then parent ∷ trim_prefix parent (codes "/private") ∷ []
    else if has_prefix parent (codes "/var/")
    then parent ∷ (codes "/private" ++ parent) ∷ []
    else parent ∷ []

unfoldable pub get_tmpdir_parent : Text → List Text
unfolding full_match literal
get_tmpdir_parent tmpdir =
    if is_empty tmpdir || not (full_match tmpdir_pattern tmpdir)
    then []
    else both_versions (trim_suffix (trim_suffix tmpdir (codes "/")) (codes "/T"))

-- The components in front of the first one with a wildcard.
unfoldable pub base_components : List Text → List Text
unfolding contains_glob
base_components [] = []
base_components (c ∷ cs) = if contains_glob c then [] else c ∷ base_components cs

abbrev pub root_or_here : Text → Text → Text
root_or_here pattern base =
    if is_empty base
    then (if has_prefix pattern (codes "/") then codes "/" else codes ".")
    else base

unfoldable pub extract_base_dir : Text → Text
unfolding contains_glob base_components split_on join_with
extract_base_dir pattern =
    if contains_glob pattern
    then root_or_here pattern (join_with 47 (base_components (split_on 47 pattern)))
    else pattern

-- The loop of `getAncestorDirectories`: a directory is shorter than what is in it, so there are at
-- most as many as the path is long.
unfoldable pub ancestors_from : ℕ → Text → List Text
unfolding dir
ancestors_from zero current = []
ancestors_from (suc fuel) current =
    let rest = ancestors_from fuel (dir current) in
    if current =ₜ codes "/" || current =ₜ codes "."
    then []
    else current ∷ (if dir current =ₜ current then [] else rest)

unfoldable pub get_ancestor_directories : Text → List Text
unfolding ancestors_from
get_ancestor_directories path = ancestors_from (length path) (dir path)

abbrev pub no_unlink : Filter → ProfileRule
no_unlink f = record {
  allows = false;
  operations = codes "file-write-unlink" ∷ [];
  filters = f ∷ [];
}

abbrev pub block_move : Text → List ProfileRule
block_move pattern =
    (if contains_glob pattern then no_unlink (regex_of (glob_to_regex pattern)) ∷ [] else [])
    ++ no_unlink (subpath (extract_base_dir pattern))
      ∷ map (λ d. no_unlink (literal_path d)) (get_ancestor_directories (extract_base_dir pattern))

unfoldable pub generate_move_blocking_rules : List Text → List ProfileRule
unfolding glob_to_regex contains_glob extract_base_dir get_ancestor_directories
generate_move_blocking_rules [] = []
generate_move_blocking_rules (p ∷ ps) = block_move p ++ generate_move_blocking_rules ps
