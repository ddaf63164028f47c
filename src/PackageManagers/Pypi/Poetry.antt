-- ===== src/PackageManagers/Pypi/Poetry.antt =====
-- packagemanager/pypi.go: a Poetry package with a caret, from its text to the specification that the
-- registry is asked for.
use pmg.Prelude.{
  ℕ, ◌+◌, ◌<◌, ◌≡◌, ◌≢◌, refl, sym, true, false, some, Text, join_with, contains_code, strip_prefix,
  is_space, Lacks, All, All-append, [], ◌∷◌, ◌++◌, arith,
}
use pmg.Prelude.Decimals.{write_nat}
use pmg.Prelude.Decimals.Roundtrip.{write_nat-All}
use pmg.PackageManagers.Names.{NoSpaces, trim_space-NoSpaces}
use pmg.PackageManagers.Pypi.Specs.{
  IsName, NameCodes, NameCodes-Lacks, NameCodes-NoSpaces, other_code,
}
use pmg.PackageManagers.Pypi.Carets.{
  Version, IsSmall, write_version, next_breaking, pypi_convert_caret_constraint_lem,
}
use pmg.PackageManagers.Pypi.Constraints.{
  range, starts_as_version, no_name, constraint_match, is_name_code,
  pypi_convert_poetry_version_constraints,
}

write_version-All :
    (P : ℕ → Type 0)
    → ((d : ℕ) → d < 10 → P (48 + d))
    → P 46
    → (v : Version) → All P (write_version v)
unfolding join_with
write_version-All P f p v =
    All-append P (write_nat v.major) (46 ∷ (write_nat v.minor ++ 46 ∷ write_nat v.patch))
      (write_nat-All P f v.major)
      (
        p,
        All-append P (write_nat v.minor) (46 ∷ write_nat v.patch) (write_nat-All P f v.minor)
            (p, write_nat-All P f v.patch),
      )

write_version-NoSpaces : (v : Version) → NoSpaces (write_version v)
unfolding is_space
write_version-NoSpaces v =
    write_version-All (λ c. is_space c ≡ false) (λ d h. ground (arith, h)) refl v

contains_code-Lacks : (c : ℕ) (s : Text) → Lacks c s → contains_code s c ≡ false
unfolding contains_code
contains_code-Lacks c [] h = refl
contains_code-Lacks c (d ∷ s) (hd, hs) = ground (arith, hd, contains_code-Lacks c s hs)

caret_match :
    (c : ℕ) (name rest : Text)
    → NameCodes (c ∷ name)
    → contains_code rest 10 ≡ false
    → constraint_match (c ∷ (name ++ 94 ∷ rest)) ≡ some (c ∷ name, 94 ∷ [], rest)
unfolding constraint_match
caret_match c [] rest h r = rw (h.0, r) refl
caret_match c (d ∷ name) rest h r = rw (h.0, caret_match d name rest h.1 r) refl

-- A name that does not start as a version does is taken for a name.
no_name-NameCodes :
    (c : ℕ) (s : Text)
    → is_name_code c ≡ true
    → starts_as_version (c ∷ s) ≡ false
    → no_name (c ∷ s) ≡ false
unfolding strip_prefix
no_name-NameCodes c s h w =
    rw
      (
        other_code c 64 (λ q. (NameCodes-Lacks 64 refl (c ∷ []) (h, tt)).0 (sym q)),
        other_code c 94 (λ q. (NameCodes-Lacks 94 refl (c ∷ []) (h, tt)).0 (sym q)),
        other_code c 126 (λ q. (NameCodes-Lacks 126 refl (c ∷ []) (h, tt)).0 (sym q)),
        w,
      )
      refl

spec-NoSpaces :
    (name : Text) (v : Version) → NameCodes name → NoSpaces (name ++ 94 ∷ write_version v)
unfolding is_space
spec-NoSpaces name v h =
    All-append (λ c. is_space c ≡ false) name (94 ∷ write_version v) (NameCodes-NoSpaces name h)
      (refl, write_version-NoSpaces v)

-- `name^v` is asked for as `name>=v,<w`, where w is the next version that may break.
pub pypi_convert_poetry_version_constraints_lem :
    (name : Text) (v : Version)
    → IsName name
    → starts_as_version name ≡ false
    → IsSmall v
    → pypi_convert_poetry_version_constraints (name ++ 94 ∷ write_version v)
      ≡ some (name ++ range (write_version v) (write_version (next_breaking v)))
unfolding pypi_convert_poetry_version_constraints
pypi_convert_poetry_version_constraints_lem [] v n w s = ground (arith, n.0)
pypi_convert_poetry_version_constraints_lem (c ∷ name) v n w s =
    rw
      (
        trim_space-NoSpaces ((c ∷ name) ++ 94 ∷ write_version v) (spec-NoSpaces (c ∷ name) v n.1),
        no_name-NameCodes c (name ++ 94 ∷ write_version v) n.1.0 w,
        caret_match c name (write_version v) n.1 (
            contains_code-Lacks 10 (write_version v)
              (write_version-All (λ d. d ≢ 10) (λ d h e. omega arith) (omega arith) v)),
        pypi_convert_caret_constraint_lem v s,
      )
      refl
