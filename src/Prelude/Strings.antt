-- ===== src/Prelude/Strings.antt =====
-- Text as a list of code points (bytes, where it is ASCII), with the functions of Go's `strings`
-- that the program calls: HasPrefix, TrimPrefix, HasSuffix, TrimSuffix, Trim, TrimSpace, IndexByte,
-- LastIndex, Contains, Split, and `==` on strings.
use Prim.Native.Nat.{ℕ}
use Prim.Native.Char.{code}
use Prim.Native.String.{String}
use mathlib.Core.Bool.{Bool, true, false, ◌&&◌, ◌||◌}
use mathlib.Core.Option
use mathlib.Core.Option.{Option, none, some}
use mathlib.Core.List.{List, [], ◌∷◌, ◌++◌}
use pmg.Prelude.Tests.{◌==◌, leb, if◌then◌else◌}

abbrev pub Text : Type 0
Text = List ℕ

abbrev pub codes : String → Text
codes String.[] = []
codes (String.◌∷◌ c s) = code c ∷ codes s

infix 50 ◌=ₜ◌
abbrev pub ◌=ₜ◌ : Text → Text → Bool
[] =ₜ [] = true
[] =ₜ (d ∷ t) = false
(c ∷ s) =ₜ [] = false
(c ∷ s) =ₜ (d ∷ t) = c == d && s =ₜ t

abbrev pub is_empty {ℓ} : {A : Type ℓ} → List A → Bool
is_empty [] = true
is_empty (c ∷ s) = false

abbrev pub is_some {ℓ} : {A : Type ℓ} → Option A → Bool
is_some none = false
is_some (some a) = true

abbrev pub or_else {ℓ} : {A : Type ℓ} → Option A → A → A
or_else none a = a
or_else (some b) a = b

-- What follows the prefix `p` in `s`, if `s` begins with it.
unfoldable pub strip_prefix : Text → Text → Option Text
strip_prefix [] s = some s
strip_prefix (c ∷ p) [] = none
strip_prefix (c ∷ p) (d ∷ s) = if c == d then strip_prefix p s else none

-- What stands before the suffix `t` in `s`, if `s` ends with it.
unfoldable pub strip_suffix : Text → Text → Option Text
strip_suffix t [] = if is_empty t then some [] else none
strip_suffix t (c ∷ s) =
    if (c ∷ s) =ₜ t then some [] else Option.map (λ v. c ∷ v) (strip_suffix t s)

abbrev pub has_prefix : Text → Text → Bool
has_prefix s p = is_some (strip_prefix p s)

abbrev pub trim_prefix : Text → Text → Text
trim_prefix s p = or_else (strip_prefix p s) s

abbrev pub has_suffix : Text → Text → Bool
has_suffix s t = is_some (strip_suffix t s)

abbrev pub trim_suffix : Text → Text → Text
trim_suffix s t = or_else (strip_suffix t s) s

-- `strings.Contains(s, string(c))`
unfoldable pub contains_code : Text → ℕ → Bool
contains_code [] c = false
contains_code (d ∷ s) c = d == c || contains_code s c

-- `slices.Contains`
unfoldable pub contains_text : List Text → Text → Bool
contains_text [] t = false
contains_text (s ∷ ss) t = s =ₜ t || contains_text ss t

-- The text before the first `c` and the text after it (`IndexByte` and the two slices).
unfoldable pub cut_first : ℕ → Text → Option (Text × Text)
cut_first c [] = none
cut_first c (d ∷ s) =
    if d == c then some ([], s) else Option.map (λ (a, b). (d ∷ a, b)) (cut_first c s)

-- The text before the last `c` and the text after it (`LastIndex` and the two slices).
unfoldable pub cut_last : ℕ → Text → Option (Text × Text)
cut_last c [] = none
cut_last c (d ∷ s) = elim (cut_last c s) [
  | some (a, b) ↦ some (d ∷ a, b)
  | none ↦ if d == c then some ([], s) else none
]

-- Puts one more code point in front of the first part.
abbrev pub cons_head : ℕ → List Text → List Text
cons_head c [] = (c ∷ []) ∷ []
cons_head c (p ∷ ps) = (c ∷ p) ∷ ps

-- `strings.Split(s, string(c))`: never empty.
unfoldable pub split_on : ℕ → Text → List Text
split_on c [] = [] ∷ []
split_on c (d ∷ s) = if d == c then [] ∷ split_on c s else cons_head d (split_on c s)

-- `strings.Join(parts, string(c))`
unfoldable pub join_with : ℕ → List Text → Text
join_with c [] = []
join_with c (p ∷ []) = p
join_with c (p ∷ q ∷ ps) = p ++ c ∷ join_with c (q ∷ ps)

unfoldable pub trim_left : (ℕ → Bool) → Text → Text
trim_left test [] = []
trim_left test (c ∷ s) = if test c then trim_left test s else c ∷ s

-- `strings.TrimRight`: a code point stays if it or a later one fails the test.
unfoldable pub trim_right : (ℕ → Bool) → Text → Text
trim_right test [] = []
trim_right test (c ∷ s) =
    let rest = trim_right test s in if test c && is_empty rest then [] else c ∷ rest

unfoldable pub trim : (ℕ → Bool) → Text → Text
unfolding trim_left trim_right
trim test s = trim_right test (trim_left test s)

-- `unicode.IsSpace`
unfoldable pub is_space : ℕ → Bool
is_space c =
    (leb 9 c && leb c 13)
    || (c == 32
        || (c == 0x85
            || (c == 0xa0
                || (c == 0x1680
                    || ((leb 0x2000 c && leb c 0x200a)
                        || (c == 0x2028
                            || (c == 0x2029 || (c == 0x202f || (c == 0x205f || c == 0x3000)))))))))

unfoldable pub trim_space : Text → Text
unfolding trim is_space
trim_space = trim is_space
