-- ===== src/PackageManagers/Pypi/Carets.antt =====
-- packagemanager/pypi.go: what Poetry's constraints come to for versions of three numbers.
use pmg.Prelude.{
  ℕ, zero, suc, ◌+◌, ◌==◌, ◌<◌, ◌≡◌, refl, ap, ◌∙◌, false, Text, codes, split_on, join_with,
  split_on-join_with, append_assoc, List, [], ◌∷◌, if◌then◌else◌, arith,
}
use pmg.Prelude.Decimals.{pos, max_int, increment, write_nat, write_int}
use pmg.Prelude.Decimals.Roundtrip.{atoi-write_nat, write_nat-Lacks}
use pmg.PackageManagers.Pypi.Constraints.{
  range, dots, pad, caret_range, caret_parts, pypi_convert_caret_constraint,
}

pub record Version : Type 0 where
  pub major : ℕ
  pub minor : ℕ
  pub patch : ℕ

abbrev parts_of : Version → List Text
parts_of v = write_nat v.major ∷ write_nat v.minor ∷ write_nat v.patch ∷ []

abbrev pub write_version : Version → Text
write_version v = dots (parts_of v)

-- The next version that may break: the leftmost number that is not 0, or the last one, goes up by
-- one, and the numbers behind it are 0.
abbrev pub next_breaking : Version → Version
next_breaking v =
    if v.major == 0
    then if v.minor == 0
      then record { major = 0; minor = 0; patch = v.patch + 1 }
      else record { major = 0; minor = v.minor + 1; patch = 0 }
    else record { major = v.major + 1; minor = 0; patch = 0 }

pub record IsSmall (v : Version) : Type 0 where
  pub small_major : v.major < max_int
  pub small_minor : v.minor < max_int
  pub small_patch : v.patch < max_int

split_on-write_version : (v : Version) → split_on 46 (write_version v) ≡ parts_of v
split_on-write_version v =
    split_on-join_with 46 (write_nat v.major) (write_nat v.minor ∷ write_nat v.patch ∷ [])
      (write_nat-Lacks 46 (omega arith) v.major)
      (write_nat-Lacks 46 (omega arith) v.minor, (write_nat-Lacks 46 (omega arith) v.patch, tt))

increment-small : (n : ℕ) → n < max_int → increment (pos n) ≡ pos (n + 1)
unfolding increment
increment-small n h = ground arith

write_int-pos : (n : ℕ) → write_int (pos n) ≡ write_nat n
unfolding write_int
write_int-pos n = refl

write_nat-zero : write_nat 0 ≡ codes "0"
unfolding write_nat
write_nat-zero = refl

suc-not_zero : (n : ℕ) → (suc n == 0) ≡ false
suc-not_zero n = ground arith

abbrev bumped : Version → Text
bumped v = range (write_version v) (write_version (next_breaking v))

caret_range_lem :
    (a b c : ℕ)
    → IsSmall (record { major = a; minor = b; patch = c })
    → caret_range (parts_of (record { major = a; minor = b; patch = c })) (pos a) (pos b) (pos c)
      ≡ bumped (record { major = a; minor = b; patch = c })
unfolding join_with
caret_range_lem zero zero c s =
    rw (increment-small c s.small_patch, write_int-pos c, write_int-pos (c + 1), write_nat-zero)
      refl
caret_range_lem zero (suc b) c s =
    rw
      (
        suc-not_zero b,
        increment-small (suc b) s.small_minor,
        write_int-pos c,
        write_int-pos (suc b),
        write_int-pos (suc b + 1),
        write_nat-zero,
        append_assoc (write_nat (suc b)) (codes ".") (write_nat c),
      )
      refl
caret_range_lem (suc a) b c s =
    rw
      (
        suc-not_zero a,
        increment-small (suc a) s.small_major,
        write_int-pos (suc a + 1),
        write_nat-zero,
      )
      refl

-- `^v` is the range from `v` up to the next version that may break.
pub pypi_convert_caret_constraint_lem :
    (v : Version)
    → IsSmall v
    → pypi_convert_caret_constraint (write_version v)
      ≡ range (write_version v) (write_version (next_breaking v))
unfolding pypi_convert_caret_constraint
pypi_convert_caret_constraint_lem v s =
    ap (λ ps. caret_parts (pad ps)) (split_on-write_version v)
    ∙ rw
        (
          atoi-write_nat v.major (omega (arith, s)),
          atoi-write_nat v.minor (omega (arith, s)),
          atoi-write_nat v.patch (omega (arith, s)),
        )
        refl
    ∙ caret_range_lem v.major v.minor v.patch s
