-- ===== src/Prelude/Regex.antt =====
-- Regular expressions as Go's `regexp` reads them where a pattern is anchored at both ends: a text
-- matches when the derivative by its code points is nullable.
use pmg.Prelude.Tests.{if◌then◌else◌, ◌==◌}
use pmg.Prelude.Strings.{Text}
use mathlib.Core.Bool.{Bool, true, false, ◌&&◌, ◌||◌}
use mathlib.Core.List.{List, [], ◌∷◌}
use Prim.Native.Nat.{ℕ}

pub data Regex : Type 0 where
  fails epsilon : Regex
  one_of : (ℕ → Bool) → Regex
  seq alt : Regex → Regex → Regex
  star : Regex → Regex

unfoldable pub nullable : Regex → Bool
nullable fails = false
nullable epsilon = true
nullable (one_of f) = false
nullable (seq r s) = nullable r && nullable s
nullable (alt r s) = nullable r || nullable s
nullable (star r) = true

unfoldable pub derivative : ℕ → Regex → Regex
unfolding nullable
derivative c fails = fails
derivative c epsilon = fails
derivative c (one_of f) = if f c then epsilon else fails
derivative c (seq r s) =
    let first = seq (derivative c r) s in
    let second = derivative c s in if nullable r then alt first second else first
derivative c (alt r s) = alt (derivative c r) (derivative c s)
derivative c (star r) = seq (derivative c r) (star r)

unfoldable pub full_match : Regex → Text → Bool
unfolding nullable derivative
full_match r [] = nullable r
full_match r (c ∷ s) = full_match (derivative c r) s

-- `s`, `r?`, `r+` and `(s|t|…)`.
unfoldable pub literal : Text → Regex
literal [] = epsilon
literal (c ∷ s) = seq (one_of (λ d. d == c)) (literal s)

abbrev pub maybe : Regex → Regex
maybe r = alt r epsilon

abbrev pub some_of : Regex → Regex
some_of r = seq r (star r)

unfoldable pub any_of : List Text → Regex
unfolding literal
any_of [] = fails
any_of (s ∷ ss) = alt (literal s) (any_of ss)
