-- ===== src/Registry/PypiUrl/Versions.antt =====
-- Where the version begins in a file's name: the two patterns and the two loops of
-- proxy/interceptors/pypi_url_parser.go. The loops from the last part to the second run over the parts in
-- reverse.
use pmg.Prelude.Regex.{Regex, one_of, seq, star, maybe, some_of, any_of, full_match}
use pmg.Prelude.{
  ℕ, Bool, ◌&&◌, ◌||◌, leb, ◌==◌, Text, codes, List, [], ◌∷◌, split_on, join_with, if◌then◌else◌,
}

abbrev pub is_digit : ℕ → Bool
is_digit c = leb b'0' c && leb c b'9'

abbrev is_letter : ℕ → Bool
is_letter c = leb b'a' c && leb c b'z' || leb b'A' c && leb c b'Z'

-- `\d+(\.\d+)*`
abbrev release : Regex
release =
    seq (some_of (one_of is_digit))
      (star (seq (one_of (λ c. c == b'.')) (some_of (one_of is_digit))))

abbrev phases : Regex
phases = any_of (
    codes "a"
    ∷ codes "alpha"
    ∷ codes "b"
    ∷ codes "beta"
    ∷ codes "c"
    ∷ codes "rc"
    ∷ codes "pre"
    ∷ codes "post"
    ∷ codes "dev"
    ∷ codes "final"
    ∷ [])

-- `^\d+(\.\d+)*([._-]?(a|…|final)\.?\d*)*(\+[a-zA-Z0-9._-]+)?$`
unfoldable pub sdist_version : Regex
unfolding any_of
sdist_version = seq release (
    seq
      (star (
        seq (maybe (one_of (λ c. c == b'.' || c == b'_' || c == b'-')))
          (seq phases (seq (maybe (one_of (λ c. c == b'.'))) (star (one_of is_digit))))))
      (maybe (
        seq (one_of (λ c. c == b'+')) (
          some_of
            (one_of (λ c. is_letter c || is_digit c || c == b'.' || c == b'_' || c == b'-'))))))

-- `^\d+(\.\d+)*([._]?(a|…|final)\d*)*(\+[a-zA-Z0-9._]+)?$`
unfoldable pub wheel_version : Regex
unfolding any_of
wheel_version = seq release (
    seq
      (star
        (seq (maybe (one_of (λ c. c == b'.' || c == b'_'))) (seq phases (star (one_of is_digit)))))
      (maybe (
        seq (one_of (λ c. c == b'+'))
          (some_of (one_of (λ c. is_letter c || is_digit c || c == b'.' || c == b'_'))))))

unfoldable pub rev_onto : List Text → List Text → List Text
rev_onto [] acc = acc
rev_onto (x ∷ xs) acc = rev_onto xs (x ∷ acc)

-- The loop of `extractNameVersionFromSdist`: the parts up to the current one in reverse, and those
-- after it.
unfoldable pub sdist_loop : List Text → List Text → Text × Text
unfolding rev_onto
sdist_loop [] after = ([], [])
sdist_loop (part ∷ []) after = ([], [])
sdist_loop (part ∷ prior ∷ before) after =
    let rest = sdist_loop (prior ∷ before) (part ∷ after) in
    let name = join_with b'-' (rev_onto (prior ∷ before) []) in
    let potential = join_with b'-' (part ∷ after) in
    if full_match sdist_version potential
    then (name, potential)
    else if full_match sdist_version part
    then (name, part)
    else rest

unfoldable pub extract_from_sdist : Text → Text × Text
unfolding sdist_loop
extract_from_sdist basename = sdist_loop (rev_onto (split_on b'-' basename) []) []

-- The loop of `extractNameVersionFromParts`, which falls back on the first two parts. The test for a
-- build tag does not change what is returned.
unfoldable pub parts_loop : Text × Text → List Text → Text × Text
unfolding rev_onto
parts_loop fallback [] = fallback
parts_loop fallback (part ∷ []) = fallback
parts_loop fallback (part ∷ prior ∷ before) =
    let rest = parts_loop fallback (prior ∷ before) in
    if full_match wheel_version part
    then (join_with b'_' (rev_onto (prior ∷ before) []), part)
    else rest

unfoldable pub extract_from_parts : List Text → Text × Text
unfolding parts_loop
extract_from_parts [] = ([], [])
extract_from_parts (a ∷ []) = ([], [])
extract_from_parts (a ∷ b ∷ parts) = parts_loop (a, b) (rev_onto (a ∷ b ∷ parts) [])
