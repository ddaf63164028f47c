-- ===== src/PackageManagers/Pypi/Specs.antt =====
-- packagemanager/pypi.go: a package written with its extras and its version, as
-- `pypiParsePackageInfo` reads it.
use pmg.Prelude.{
  ℕ, ◌≤◌, ◌==◌, ◌≡◌, ◌≢◌, refl, sym, ap, ◌∙◌, true, false, none, some, Text, Lacks, All, All-append,
  append_assoc, is_empty, is_space, has_prefix, strip_prefix, cut_first, cut_first-append,
  join_with, split_on-join_with, any, length, List, [], ◌∷◌, ◌++◌, arith,
}
use pmg.PackageManagers.Names.{NoSpaces, trim_space-NoSpaces}
use pmg.PackageManagers.Pypi.{
  operators, take_text, drop_text, trimmed_extras, split_extras, take_extras, split_spec,
  pypi_parse_package_info,
}
use pmg.PackageManagers.Pypi.Operators.{first_at, find_operator_lem}
use pmg.PackageManagers.Pypi.Constraints.{is_name_code}

-- Every code point is one of a name: a letter, a digit, a dot, a dash or an underscore.
abbrev pub NameCodes : Text → Type 0
NameCodes s = All (λ c. is_name_code c ≡ true) s

is_name_code-range : (c : ℕ) → is_name_code c ≡ true → (45 ≤ c) × (c ≤ 122)
is_name_code-range c h = ground (arith, h)

is_name_code-no_space : (c : ℕ) → is_name_code c ≡ true → is_space c ≡ false
unfolding is_space
is_name_code-no_space c h = ground (arith, is_name_code-range c h)

same_code : (d c : ℕ) → d == c ≡ true → d ≡ c
same_code d c e = ground (arith, e)

pub NameCodes-Lacks : (d : ℕ) → is_name_code d ≡ false → (s : Text) → NameCodes s → Lacks d s
NameCodes-Lacks d hd [] h = tt
NameCodes-Lacks d hd (c ∷ s) (hc, hs) =
    (λ q. cc (sym hc ∙ ap is_name_code q ∙ hd), NameCodes-Lacks d hd s hs)

pub NameCodes-NoSpaces : (s : Text) → NameCodes s → NoSpaces s
NameCodes-NoSpaces [] h = tt
NameCodes-NoSpaces (c ∷ s) (hc, hs) = (is_name_code-no_space c hc, NameCodes-NoSpaces s hs)

pub other_code : (c d : ℕ) → d ≢ c → (d == c) ≡ false
other_code c d h = ground (arith, h)

no_operator :
    (c : ℕ) (s : Text) → is_name_code c ≡ true → any (λ op. has_prefix (c ∷ s) op) operators ≡ false
unfolding strip_prefix
no_operator c s h =
    rw
      (
        other_code c 61 (λ q. (NameCodes-Lacks 61 refl (c ∷ []) (h, tt)).0 (sym q)),
        other_code c 62 (λ q. (NameCodes-Lacks 62 refl (c ∷ []) (h, tt)).0 (sym q)),
        other_code c 60 (λ q. (NameCodes-Lacks 60 refl (c ∷ []) (h, tt)).0 (sym q)),
        other_code c 33 (λ q. (NameCodes-Lacks 33 refl (c ∷ []) (h, tt)).0 (sym q)),
        other_code c 126 (λ q. (NameCodes-Lacks 126 refl (c ∷ []) (h, tt)).0 (sym q)),
      )
      refl

-- The name before an operator holds none, so the first one stands at its end.
first_at-behind :
    (name version : Text)
    → NameCodes name
    → any (λ op. has_prefix version op) operators ≡ true
    → first_at operators (name ++ version) ≡ some (length name)
unfolding first_at
first_at-behind [] [] h v = rw v refl
first_at-behind [] (c ∷ version) h v = rw v refl
first_at-behind (c ∷ name) version h v =
    rw (no_operator c (name ++ version) h.0, first_at-behind name version h.1 v)
      (ap some (omega arith))

take_text-length : (s t : Text) → take_text (length s) (s ++ t) ≡ s
unfolding take_text
take_text-length [] t = refl
take_text-length (c ∷ s) t = ap (λ u. c ∷ u) (take_text-length s t)

drop_text-length : (s t : Text) → drop_text (length s) (s ++ t) ≡ t
unfolding drop_text
drop_text-length [] t = refl
drop_text-length (c ∷ s) t = drop_text-length s t

cut_first-Lacks : (c : ℕ) (s : Text) → Lacks c s → cut_first c s ≡ none
unfolding cut_first
cut_first-Lacks c [] h = refl
cut_first-Lacks c (d ∷ s) (hd, hs) = ground (arith, cut_first-Lacks c s hs)

-- A package and an extra are named alike.
abbrev pub IsName : Text → Type 0
IsName e = (is_empty e ≡ false) × NameCodes e

All-join_with :
    (P : ℕ → Type 0) → P 44 → (es : List Text) → All (λ e. All P e) es → All P (join_with 44 es)
unfolding join_with
All-join_with P p [] h = tt
All-join_with P p (e ∷ []) h = h.0
All-join_with P p (e ∷ f ∷ es) h =
    All-append P e (44 ∷ join_with 44 (f ∷ es)) h.0 (p, All-join_with P p (f ∷ es) h.1)

extras-All :
    (P : ℕ → Type 0)
    → ((e : Text) → NameCodes e → All P e)
    → (es : List Text) → All IsName es
    → All (λ e. All P e) es
extras-All P f [] h = tt
extras-All P f (e ∷ es) h = (f e h.0.1, extras-All P f es h.1)

trimmed_extras-IsName : (es : List Text) → All IsName es → trimmed_extras es ≡ es
unfolding trimmed_extras
trimmed_extras-IsName [] h = refl
trimmed_extras-IsName (e ∷ es) h =
    rw (trim_space-NoSpaces e (NameCodes-NoSpaces e h.0.1), h.0.0, trimmed_extras-IsName es h.1)
      refl

join-not_empty :
    (e : Text) (es : List Text) → is_empty e ≡ false → is_empty (join_with 44 (e ∷ es)) ≡ false
unfolding join_with
join-not_empty [] es h = ground (arith, h)
join-not_empty (c ∷ e) [] h = refl
join-not_empty (c ∷ e) (f ∷ es) h = refl

split_extras-join_with :
    (e : Text) (es : List Text)
    → All IsName (e ∷ es)
    → split_extras (join_with 44 (e ∷ es)) ≡ e ∷ es
unfolding is_space
split_extras-join_with e es h =
    rw
      (
        trim_space-NoSpaces (join_with 44 (e ∷ es)) (
            All-join_with (λ c. is_space c ≡ false) refl (e ∷ es)
              (extras-All (λ c. is_space c ≡ false) NameCodes-NoSpaces (e ∷ es) h)),
        join-not_empty e es h.0.0,
        split_on-join_with 44 e es (NameCodes-Lacks 44 refl e h.0.1)
            (extras-All (λ c. c ≢ 44) (NameCodes-Lacks 44 refl) es h.1),
      )
      (trimmed_extras-IsName (e ∷ es) h)

-- A version that follows its operator.
pub record IsVersion (v : Text) : Type 0 where
  pub no_spaces : NoSpaces v
  pub no_opening : Lacks 91 v
  pub no_closing : Lacks 93 v
  pub starts : any (λ op. has_prefix v op) operators ≡ true

abbrev pub write_spec : Text → List Text → Text → Text
write_spec name [] version = name ++ version
write_spec name (e ∷ es) version = name ++ 91 ∷ (join_with 44 (e ∷ es) ++ 93 ∷ version)

closing_bracket :
    (name inside version : Text)
    → NameCodes name
    → Lacks 93 inside
    → cut_first 93 (name ++ 91 ∷ (inside ++ 93 ∷ version)) ≡ some (name ++ 91 ∷ inside, version)
closing_bracket name inside version n l =
    ap (cut_first 93) (sym (append_assoc name (91 ∷ inside) (93 ∷ version)))
    ∙ cut_first-append 93 (name ++ 91 ∷ inside) version (
        All-append (λ d. d ≢ 93) name (91 ∷ inside) (NameCodes-Lacks 93 refl name n)
          (omega arith, l))

take_extras-write_spec :
    (name : Text) (es : List Text) (version : Text)
    → IsName name
    → All IsName es
    → IsVersion version
    → take_extras (write_spec name es version) ≡ some (name ++ version, es)
unfolding take_extras
take_extras-write_spec name [] version n h v =
    rw
      (
        cut_first-Lacks 91 (name ++ version)
            (All-append (λ d. d ≢ 91) name version (NameCodes-Lacks 91 refl name n.1) v.no_opening),
        cut_first-Lacks 93 (name ++ version)
            (All-append (λ d. d ≢ 93) name version (NameCodes-Lacks 93 refl name n.1) v.no_closing),
      )
      refl
take_extras-write_spec name (e ∷ es) version n h v =
    let inside = join_with 44 (e ∷ es) in
    let l =
      All-join_with (λ d. d ≢ 93) (omega arith) (e ∷ es)
        (extras-All (λ d. d ≢ 93) (NameCodes-Lacks 93 refl) (e ∷ es) h) in
    rw
      (
        closing_bracket name inside version n.1 l,
        cut_first-append 91 name (inside ++ 93 ∷ version) (NameCodes-Lacks 91 refl name n.1),
        cut_first-Lacks 93 name (NameCodes-Lacks 93 refl name n.1),
        cut_first-append 93 inside version l,
        split_extras-join_with e es h,
      )
      refl

split_spec-behind :
    (name version : Text) (es : List Text)
    → IsName name
    → IsVersion version
    → split_spec (some (name ++ version, es)) ≡ some (name, version, es)
split_spec-behind name version es n v =
    rw
      (
        find_operator_lem operators (name ++ version),
        first_at-behind name version n.1 v.starts,
        take_text-length name version,
        drop_text-length name version,
        trim_space-NoSpaces name (NameCodes-NoSpaces name n.1),
        n.0,
        trim_space-NoSpaces version v.no_spaces,
      )
      refl

write_spec-NoSpaces :
    (name : Text) (es : List Text) (version : Text)
    → IsName name
    → All IsName es
    → NoSpaces version
    → NoSpaces (write_spec name es version)
unfolding is_space
write_spec-NoSpaces name [] version n h v =
    All-append (λ c. is_space c ≡ false) name version (NameCodes-NoSpaces name n.1) v
write_spec-NoSpaces name (e ∷ es) version n h v =
    let P : ℕ → Type 0 = λ c. is_space c ≡ false in
    All-append P name (91 ∷ (join_with 44 (e ∷ es) ++ 93 ∷ version)) (NameCodes-NoSpaces name n.1) (
      refl,
      All-append P (join_with 44 (e ∷ es)) (93 ∷ version)
          (All-join_with P refl (e ∷ es) (extras-All P NameCodes-NoSpaces (e ∷ es) h)) (refl, v),
    )

write_spec-not_empty :
    (name : Text) (es : List Text) (version : Text)
    → IsName name
    → is_empty (write_spec name es version) ≡ false
write_spec-not_empty [] es version n = ground (arith, n.0)
write_spec-not_empty (c ∷ name) [] version n = refl
write_spec-not_empty (c ∷ name) (e ∷ es) version n = refl

-- Printing a name, its extras and its version and reading them again.
pub pypi_parse_package_info_lem :
    (name : Text) (es : List Text) (version : Text)
    → IsName name
    → All IsName es
    → IsVersion version
    → pypi_parse_package_info (write_spec name es version) ≡ some (name, version, es)
unfolding pypi_parse_package_info
pypi_parse_package_info_lem name es version n h v =
    rw
      (
        write_spec-not_empty name es version n,
        trim_space-NoSpaces (write_spec name es version)
            (write_spec-NoSpaces name es version n h v.no_spaces),
        take_extras-write_spec name es version n h v,
      )
      (split_spec-behind name version es n v)
