-- ===== src/PackageManagers/Names.antt =====
-- packagemanager/npm.go: a package written with its version, as `npmParsePackageInfo` reads it.
use pmg.Prelude.{
  ℕ, ◌==◌, ◌≡◌, ◌≢◌, ◌⊎◌, refl, sym, subst, Bool, false, Option, some, Text, Lacks, All, All-append,
  trim, trim_left, trim_right, trim_space, is_space, has_prefix, strip_prefix, codes, cut_last,
  cut_last-append, split_on, split_on-append, split_on-Lacks, [], ◌∷◌, ◌++◌, if◌then◌else◌,
  Bool-cases, inl, inr, arith,
}
use pmg.PackageManagers.Npm.{npm_parse_package_info, scoped_parts, plain_parts}

-- No code point of the text satisfies the test.
abbrev pub Fails : (ℕ → Bool) → Text → Type 0
Fails test s = All (λ c. test c ≡ false) s

abbrev pub NoSpaces : Text → Type 0
NoSpaces s = Fails is_space s

trim_right-Fails : (test : ℕ → Bool) (s : Text) → Fails test s → trim_right test s ≡ s
unfolding trim_right
trim_right-Fails test [] h = refl
trim_right-Fails test (c ∷ s) (hc, hs) = rw (hc, trim_right-Fails test s hs) refl

trim_left-Fails : (test : ℕ → Bool) (s : Text) → Fails test s → trim_left test s ≡ s
unfolding trim_left
trim_left-Fails test [] h = refl
trim_left-Fails test (c ∷ s) (hc, hs) = rw hc refl

pub trim_space-NoSpaces : (s : Text) → NoSpaces s → trim_space s ≡ s
unfolding trim_space trim
trim_space-NoSpaces s h = rw (trim_left-Fails is_space s h) (trim_right-Fails is_space s h)

-- A name may start with `@`, but holds no other.
abbrev pub IsNpmName : Text → Type 0
IsNpmName [] = ⊥
IsNpmName (c ∷ s) = Lacks 64 s

at_front : (c : ℕ) (s : Text) → (64 ≡ c) ⊎ (64 ≢ c × (has_prefix (c ∷ s) (codes "@") ≡ false))
unfolding strip_prefix
at_front c s = elim (Bool-cases (64 == c)) [
  | inl e ↦ inl (ground (arith, e))
  | inr e ↦ inr (ground (arith, e), rw e refl)
]

abbrev scoped_or_plain : Text → Option (Text × Text)
scoped_or_plain input =
    if has_prefix input (codes "@")
    then some (scoped_parts input (cut_last 64 input))
    else plain_parts (split_on 64 input)

scoped_lem :
    (name version : Text)
    → Lacks 64 version
    → NoSpaces name
    → NoSpaces version
    → scoped_or_plain (64 ∷ (name ++ 64 ∷ version)) ≡ some (64 ∷ name, version)
unfolding strip_prefix is_space
scoped_lem name version v s w =
    rw
      (
        cut_last-append 64 (64 ∷ name) version v,
        trim_space-NoSpaces (64 ∷ name) (refl, s),
        trim_space-NoSpaces version w,
      )
      refl

scoped_or_plain_lem :
    (name version : Text)
    → IsNpmName name
    → Lacks 64 version
    → NoSpaces name
    → NoSpaces version
    → scoped_or_plain (name ++ 64 ∷ version) ≡ some (name, version)
scoped_or_plain_lem [] version l v s w = absurd l
scoped_or_plain_lem (c ∷ name) version l v s w = elim (at_front c (name ++ 64 ∷ version)) [
  | inl e ↦
      subst (λ d. scoped_or_plain (d ∷ (name ++ 64 ∷ version)) ≡ some (d ∷ name, version)) e
        (scoped_lem name version v s.1 w)
  | inr (d, e) ↦
      rw
        (
          e,
          split_on-append 64 (c ∷ name) version (λ q. d (sym q), l),
          split_on-Lacks 64 version v,
          trim_space-NoSpaces (c ∷ name) s,
          trim_space-NoSpaces version w,
        )
        refl
]

-- Printing a name and a version and reading them again.
pub npm_parse_package_info_lem :
    (name version : Text)
    → IsNpmName name
    → Lacks 64 version
    → NoSpaces name
    → NoSpaces version
    → npm_parse_package_info (name ++ 64 ∷ version) ≡ some (name, version)
unfolding npm_parse_package_info
npm_parse_package_info_lem [] version l v s w = absurd l
npm_parse_package_info_lem (c ∷ name) version l v s w =
    rw
      (trim_space-NoSpaces ((c ∷ name) ++ 64 ∷ version)
        (All-append (λ d. is_space d ≡ false) (c ∷ name) (64 ∷ version) s (refl, w)))
      (scoped_or_plain_lem (c ∷ name) version l v s w)
