-- ===== src/PackageManagers/Pypi.antt =====
-- packagemanager/pypi.go: the specification of a Python package: its extras, its name and its version.
pub mod Operators
pub mod Specs
pub mod Constraints
pub mod Commands
pub mod Carets
pub mod Poetry
use pmg.Prelude.{
  ℕ, zero, suc, ◌+◌, ◌-◌, ◌==◌, ltb, Bool, true, false, ◌&&◌, ◌||◌, not, Option, none, some, Text,
  codes, ◌=ₜ◌, is_empty, is_some, cut_first, split_on, has_prefix, trim_space, List, [], ◌∷◌, ◌++◌,
  if◌then◌else◌,
}

-- `strings.Index`
unfoldable pub index_of : Text → Text → Option ℕ
index_of [] op = if is_empty op then some 0 else none
index_of (c ∷ s) op =
    let rest = index_of s op in
    if has_prefix (c ∷ s) op then some 0 else elim rest [ none ↦ none | some n ↦ some (n + 1) ]

-- `input[:n]` and `input[n:]`
unfoldable pub take_text : ℕ → Text → Text
take_text zero s = []
take_text (suc n) [] = []
take_text (suc n) (c ∷ s) = c ∷ take_text n s

unfoldable pub drop_text : ℕ → Text → Text
drop_text zero s = s
drop_text (suc n) [] = []
drop_text (suc n) (c ∷ s) = drop_text n s

abbrev pub operators : List Text
operators =
    codes "==" ∷ codes ">=" ∷ codes "<=" ∷ codes "!=" ∷ codes ">" ∷ codes "<" ∷ codes "~=" ∷ []

-- The earlier one of what was found so far and what is found now.
abbrev pub earlier : Option ℕ → Option ℕ → Option ℕ
earlier found none = found
earlier none (some i) = some i
earlier (some index) (some i) = if ltb i index then some i else some index

-- The loop over the operators.
unfoldable pub find_operator : List Text → Text → Option ℕ → Option ℕ
unfolding index_of
find_operator [] input found = found
find_operator (op ∷ ops) input found = find_operator ops input (earlier found (index_of input op))

-- The extras between the brackets: each one trimmed, the empty ones dropped.
unfoldable pub trimmed_extras : List Text → List Text
unfolding trim_space
trimmed_extras [] = []
trimmed_extras (e ∷ es) =
    let rest = trimmed_extras es in if is_empty (trim_space e) then rest else trim_space e ∷ rest

abbrev pub split_extras : Text → List Text
split_extras inside =
    if is_empty (trim_space inside) then [] else trimmed_extras (split_on 44 (trim_space inside))

-- The extras, and the input without them; `none` is an error. The closing bracket is the first one
-- in the whole input: where it comes before the opening one, nothing is taken out.
abbrev pub close_extras : Text → Text → Option (Text × Text) → Text × List Text
close_extras input before none = (input, [])
close_extras input before (some (inside, rest)) = (before ++ rest, split_extras inside)

abbrev pub open_extras : Text → Option (Text × Text) → Bool → Option (Text × List Text)
open_extras input none closes = if closes then none else some (input, [])
open_extras input (some (before, after)) closes =
    if not closes
    then none
    else if is_some (cut_first 93 before)
    then some (input, [])
    else some (close_extras input before (cut_first 93 after))

unfoldable pub take_extras : Text → Option (Text × List Text)
unfolding trimmed_extras cut_first split_on
take_extras input = open_extras input (cut_first 91 input) (is_some (cut_first 93 input))

-- The name and the version, split at the operator.
abbrev pub split_version : Text → List Text → Option ℕ → Option (Text × Text × List Text)
split_version input extras none = some (trim_space input, [], extras)
split_version input extras (some n) =
    if is_empty (trim_space (take_text n input))
    then none
    else some (trim_space (take_text n input), trim_space (drop_text n input), extras)

abbrev pub split_spec : Option (Text × List Text) → Option (Text × Text × List Text)
split_spec none = none
split_spec (some (input, extras)) = split_version input extras (find_operator operators input none)

-- `pypiParsePackageInfo`: the name, the version and the extras.
unfoldable pub pypi_parse_package_info : Text → Option (Text × Text × List Text)
unfolding take_extras find_operator take_text drop_text trim_space
pypi_parse_package_info input =
    if is_empty input then none else split_spec (take_extras (trim_space input))
