-- ===== src/PackageManagers/Pypi/Constraints.antt =====
-- packagemanager/pypi.go: the version constraints of Poetry as ranges. A conversion that fails returns
-- the empty text, as in the code. `.` in a pattern does not match a newline.
use pmg.Prelude.{
  ℕ, ◌==◌, leb, Bool, true, false, ◌&&◌, ◌||◌, Option, none, some, Text, codes, ◌=ₜ◌, is_empty,
  cut_first, split_on, join_with, contains_code, has_prefix, has_suffix, trim_prefix, trim_suffix,
  trim_space, List, [], ◌∷◌, ◌++◌, if◌then◌else◌,
}
use pmg.Prelude.Decimals.{ℤ, increment, is_zero, is_digit, atoi, atoi_value, write_int}

-- `>=low,<high`
abbrev pub range : Text → Text → Text
range low high = codes ">=" ++ low ++ codes ",<" ++ high

abbrev pub dots : List Text → Text
dots parts = join_with 46 parts

abbrev pub zero_text : Text
zero_text = codes "0"

-- Zeros up to three parts.
abbrev pub pad : List Text → List Text
pad [] = zero_text ∷ zero_text ∷ zero_text ∷ []
pad (a ∷ []) = a ∷ zero_text ∷ zero_text ∷ []
pad (a ∷ b ∷ []) = a ∷ b ∷ zero_text ∷ []
pad (a ∷ b ∷ c ∷ more) = a ∷ b ∷ c ∷ more

-- The three cases of a caret, for the numbers of the first three parts.
abbrev pub caret_range : List Text → ℤ → ℤ → ℤ → Text
caret_range parts major minor patch =
    if is_zero major
    then if is_zero minor
      then range (codes "0.0." ++ write_int patch) (codes "0.0." ++ write_int (increment patch))
      else range (codes "0." ++ write_int minor ++ codes "." ++ write_int patch)
          (codes "0." ++ write_int (increment minor) ++ codes ".0")
    else range (dots parts) (write_int (increment major) ++ codes ".0.0")

abbrev pub caret_numbers : List Text → Option ℤ → Option ℤ → Option ℤ → Text
caret_numbers parts (some major) (some minor) (some patch) = caret_range parts major minor patch
caret_numbers parts none minor patch = []
caret_numbers parts (some major) none patch = []
caret_numbers parts (some major) (some minor) none = []

abbrev pub caret_parts : List Text → Text
caret_parts (a ∷ b ∷ c ∷ more) = caret_numbers (a ∷ b ∷ c ∷ more) (atoi a) (atoi b) (atoi c)
caret_parts _ = []

unfoldable pub pypi_convert_caret_constraint : Text → Text
unfolding atoi write_int increment split_on join_with
pypi_convert_caret_constraint version = caret_parts (pad (split_on 46 version))

-- The upper bound of a tilde: the next major or the next minor version.
abbrev pub next_major : Option ℤ → Option Text
next_major none = none
next_major (some major) = some (write_int (increment major) ++ codes ".0.0")

abbrev pub next_minor : Option ℤ → Option ℤ → Option Text
next_minor (some major) (some minor) =
    some (write_int major ++ codes "." ++ write_int (increment minor) ++ codes ".0")
next_minor none minor = none
next_minor (some major) none = none

abbrev pub range_or_empty : Text → Option Text → Text
range_or_empty low none = []
range_or_empty low (some high) = range low high

abbrev pub tilde_parts : Text → List Text → Text
tilde_parts version [] = []
tilde_parts version (a ∷ []) = range_or_empty (version ++ codes ".0.0") (next_major (atoi a))
tilde_parts version (a ∷ b ∷ []) =
    range_or_empty (version ++ codes ".0") (next_minor (atoi a) (atoi b))
tilde_parts version (a ∷ b ∷ c ∷ more) = range_or_empty version (next_minor (atoi a) (atoi b))

unfoldable pub pypi_convert_tilde_constraint : Text → Text
unfolding atoi write_int increment split_on
pypi_convert_tilde_constraint version = tilde_parts version (split_on 46 version)

-- One more than what is read of a part, its error ignored.
abbrev pub next_of : Text → Text
next_of part = write_int (increment (atoi_value part))

-- All parts but the last, the last of them incremented.
unfoldable pub increment_last_but_one : List Text → List Text
unfolding atoi_value write_int increment
increment_last_but_one [] = []
increment_last_but_one (a ∷ []) = []
increment_last_but_one (a ∷ b ∷ []) = next_of a ∷ []
increment_last_but_one (a ∷ b ∷ c ∷ more) = a ∷ increment_last_but_one (b ∷ c ∷ more)

abbrev pub compatible_parts : Text → List Text → Text
compatible_parts version [] = []
compatible_parts version (a ∷ []) = []
compatible_parts version (a ∷ b ∷ []) = range version (next_of a ++ codes ".0")
compatible_parts version (a ∷ b ∷ c ∷ []) =
    range version (a ++ codes "." ++ next_of b ++ codes ".0")
compatible_parts version (a ∷ b ∷ c ∷ d ∷ more) =
    range version (dots (increment_last_but_one (a ∷ b ∷ c ∷ d ∷ more)))

unfoldable pub pypi_convert_compatible_release : Text → Text
unfolding increment_last_but_one split_on join_with
pypi_convert_compatible_release version =
    if has_prefix version (codes "~=")
    then compatible_parts (trim_prefix version (codes "~="))
        (split_on 46 (trim_prefix version (codes "~=")))
    else version

abbrev pub wildcard_major : Option ℤ → Text
wildcard_major none = []
wildcard_major (some major) =
    range (write_int major ++ codes ".0.0") (write_int (increment major) ++ codes ".0.0")

abbrev pub wildcard_minor : Option ℤ → Option ℤ → Text
wildcard_minor (some major) (some minor) =
    range (write_int major ++ codes "." ++ write_int minor ++ codes ".0")
      (write_int major ++ codes "." ++ write_int (increment minor) ++ codes ".0")
wildcard_minor none minor = []
wildcard_minor (some major) none = []

-- More than two parts are not supported; every part must be a number.
abbrev pub wildcard_parts : List Text → Text
wildcard_parts (a ∷ []) = wildcard_major (atoi a)
wildcard_parts (a ∷ b ∷ []) = wildcard_minor (atoi a) (atoi b)
wildcard_parts _ = []

unfoldable pub pypi_convert_wildcard_constraint : Text → Text
unfolding atoi write_int increment split_on
pypi_convert_wildcard_constraint wildcard =
    if wildcard =ₜ codes "*"
    then codes ">=0.0.0"
    else if has_suffix wildcard (codes ".*")
    then wildcard_parts (split_on 46 (trim_suffix wildcard (codes ".*")))
    else []

-- `[a-zA-Z0-9._-]`
abbrev pub is_name_code : ℕ → Bool
is_name_code c =
    (leb 97 c && leb c 122)
    || ((leb 65 c && leb c 90) || (is_digit c || (c == 46 || (c == 95 || c == 45))))

-- `[\d.]+\*` at the front: what it matches, and what follows.
unfoldable pub digits_star : Bool → Text → Option (Text × Text)
digits_star some_seen [] = none
digits_star some_seen (c ∷ s) =
    let rest = digits_star true s in
    if is_digit c || c == 46
    then elim rest [ none ↦ none | some (w, r) ↦ some (c ∷ w, r) ]
    else if c == 42 && some_seen
    then some (c ∷ [], s)
    else none

-- `([~^]|\*|[\d.]+\*)(.*)$`: the operator and the version.
abbrev pub to_the_end : Option (Text × Text) → Option (Text × Text)
to_the_end none = none
to_the_end (some (op, rest)) = if contains_code rest 10 then none else some (op, rest)

unfoldable pub operator_match : Text → Option (Text × Text)
unfolding digits_star contains_code
operator_match [] = none
operator_match (c ∷ s) =
    if c == 126 || (c == 94 || c == 42)
    then to_the_end (some (c ∷ [], s))
    else to_the_end (digits_star false (c ∷ s))

-- `(?:@)?` in front of it: with the sign if it is there, else without.
abbrev pub or_match : Option (Text × Text) → Option (Text × Text) → Option (Text × Text)
or_match (some m) n = some m
or_match none n = n

abbrev pub at_match : Text → Option (Text × Text)
at_match [] = none
at_match (c ∷ s) = or_match (if c == 64 then operator_match s else none) (operator_match (c ∷ s))

-- `(?:\[[^\]]*\])?` in front of it, which belongs to the name.
abbrev pub with_front : Text → Option (Text × Text) → Option (Text × Text × Text)
with_front front none = none
with_front front (some (op, version)) = some (front, op, version)

abbrev pub or_name :
    Option (Text × Text × Text) → Option (Text × Text × Text) → Option (Text × Text × Text)
or_name (some m) n = some m
or_name none n = n

abbrev pub after_bracket : Option (Text × Text) → Option (Text × Text × Text)
after_bracket none = none
after_bracket (some (inside, rest)) = with_front (91 ∷ inside ++ 93 ∷ []) (at_match rest)

abbrev pub extras_match : Text → Option (Text × Text × Text)
extras_match [] = none
extras_match (c ∷ s) =
    or_name (if c == 91 then after_bracket (cut_first 93 s) else none)
      (with_front [] (at_match (c ∷ s)))

abbrev pub longer_name : ℕ → Option (Text × Text × Text) → Option (Text × Text × Text)
longer_name c none = none
longer_name c (some (name, op, version)) = some (c ∷ name, op, version)

-- The whole pattern, the longest run of name characters first: the name with its extras, the
-- operator and the version.
unfoldable pub constraint_match : Text → Option (Text × Text × Text)
unfolding operator_match cut_first
constraint_match [] = none
constraint_match (c ∷ s) =
    let longer = constraint_match s in
    if is_name_code c then longer_name c (or_name longer (extras_match s)) else none

abbrev pub convert : Text → Text → Text
convert op version =
    if op =ₜ codes "^"
    then pypi_convert_caret_constraint version
    else if op =ₜ codes "~"
    then pypi_convert_tilde_constraint version
    else pypi_convert_wildcard_constraint op

abbrev pub converted : Text → Option (Text × Text × Text) → Option Text
converted spec none = some spec
converted spec (some (name, op, version)) =
    if is_empty (convert op version) then none else some (name ++ convert op version)

-- `^[\d.*]`
abbrev pub starts_as_version : Text → Bool
starts_as_version [] = false
starts_as_version (c ∷ s) = is_digit c || (c == 46 || c == 42)

abbrev pub no_name : Text → Bool
no_name spec =
    has_prefix spec (codes "@")
    || (has_prefix spec (codes "^") || (has_prefix spec (codes "~") || starts_as_version spec))

-- `pypiConvertPoetryVersionConstraints`: `none` is an error.
unfoldable pub pypi_convert_poetry_version_constraints : Text → Option Text
unfolding trim_space constraint_match pypi_convert_caret_constraint pypi_convert_tilde_constraint
pypi_convert_poetry_version_constraints spec =
    if is_empty spec
    then none
    else if no_name (trim_space spec)
    then none
    else converted (trim_space spec) (constraint_match (trim_space spec))
