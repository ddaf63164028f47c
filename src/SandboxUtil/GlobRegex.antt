-- ===== src/SandboxUtil/GlobRegex.antt =====
-- sandbox/util/glob.go: a glob as a regular expression of a seatbelt profile.
use pmg.Prelude.{
  ℕ, zero, suc, ◌==◌, ◌-◌, true, false, Text, codes, contains_code, has_prefix, length, [], ◌∷◌,
  ◌++◌, if◌then◌else◌,
}

-- `strings.ReplaceAll` for a text that is not empty: the number counts what is left of the
-- occurrence that was replaced.
unfoldable pub replace_from : Text → Text → ℕ → Text → Text
replace_from old new k [] = []
replace_from old new (suc k) (c ∷ s) = replace_from old new k s
replace_from old new zero (c ∷ s) = elim (has_prefix (c ∷ s) old) [
  | true ↦ new ++ replace_from old new (length old - 1) s
  | false ↦ c ∷ replace_from old new 0 s
]

abbrev pub replace_all : Text → Text → Text → Text
replace_all old new s = replace_from old new 0 s

-- The loop over the special characters: a backslash before each.
unfoldable pub escape_all : Text → Text → Text
unfolding replace_from
escape_all [] s = s
escape_all (c ∷ cs) s = escape_all cs (replace_all (c ∷ []) (92 ∷ c ∷ []) s)

unfoldable pub escape_regex_chars : Text → Text
unfolding escape_all
escape_regex_chars s = escape_all (codes ".^$+{}()|") s

-- `\[([^\]]*?)$`: the first bracket that none closes gets a backslash.
unfoldable pub escape_unclosed_brackets : Text → Text
unfolding contains_code
escape_unclosed_brackets [] = []
escape_unclosed_brackets (c ∷ s) =
    let rest = escape_unclosed_brackets s in
    if c == 91 then (if contains_code s 93 then c ∷ rest else 92 ∷ c ∷ s) else c ∷ rest

unfoldable pub glob_to_regex : Text → Text
unfolding escape_regex_chars escape_unclosed_brackets replace_from
glob_to_regex glob =
    let s0 = escape_unclosed_brackets (escape_regex_chars glob) in
    let s1 = replace_all (codes "**/") (codes "__GLOBSTAR_SLASH__") s0 in
    let s2 = replace_all (codes "**") (codes "__GLOBSTAR__") s1 in
    let s3 = replace_all (codes "*") (codes "[^/]*") s2 in
    let s4 = replace_all (codes "?") (codes "[^/]") s3 in
    let s5 = replace_all (codes "__GLOBSTAR_SLASH__") (codes "(.*/)?") s4 in
    codes "^" ++ replace_all (codes "__GLOBSTAR__") (codes ".*") s5 ++ codes "$"
