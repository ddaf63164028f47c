-- ===== src/Prelude/Decimals/Roundtrip.antt =====
-- A number that is written in decimal is read back.
use pmg.Prelude.{
  ℕ, zero, suc, ◌+◌, ◌*◌, ◌/◌, ◌%◌, ◌≤◌, ◌<◌, ◌≡◌, ◌≢◌, sym, ap, ◌∙◌, subst, true, ltb, some, Text,
  [], ◌∷◌, All, Lacks, arith, Bool-cases, ◌⊎◌, inl, inr,
}
use pmg.Prelude.Decimals.{pos, max_int, is_digit, read_digits, up_to, atoi, write_digits, write_nat}

-- 10 ^ k
abbrev power : ℕ → ℕ
power zero = 1
power (suc k) = 10 * power k

below-cases : (n m : ℕ) → (n < m) ⊎ (m ≤ n)
below-cases n m = elim (Bool-cases (ltb n m)) [
  | inl l ↦ inl (ground arith)
  | inr l ↦ inr (ground arith)
]

positive : (fuel n : ℕ) → n < power (suc fuel) → 10 ≤ n → 0 < fuel
positive zero n h k = absurd (omega arith)
positive (suc fuel) n h k = omega arith

is_digit-code : (d : ℕ) → d < 10 → is_digit (48 + d) ≡ true
is_digit-code d h = ground arith

read_digits_step :
    (n d : ℕ) (s : Text) → d < 10 → read_digits n ((48 + d) ∷ s) ≡ read_digits (10 * n + d) s
unfolding read_digits
read_digits_step n d s h = rw (is_digit-code d h) (ap (λ k. read_digits k s) (omega arith))

write_small : (fuel n : ℕ) (s : Text) → n < 10 → write_digits (suc fuel) n s ≡ (48 + n) ∷ s
unfolding write_digits
write_small fuel n s h = ground arith

write_large :
    (fuel n : ℕ) (s : Text)
    → 10 ≤ n
    → write_digits (suc fuel) n s ≡ write_digits fuel (n / 10) ((48 + n % 10) ∷ s)
unfolding write_digits
write_large fuel n s h = ground arith

-- Reading on from 0 over the digits of `n` is reading on from `n`.
read-write_digits :
    (fuel n : ℕ) (s : Text)
    → n < power fuel
    → 0 < fuel
    → read_digits 0 (write_digits fuel n s) ≡ read_digits n s
read-write_digits zero n s h k = absurd (omega arith)
read-write_digits (suc fuel) n s h k = elim (below-cases n 10) [
  | inl l ↦
      ap (read_digits 0) (write_small fuel n s l)
      ∙ read_digits_step 0 n s l
      ∙ ap (λ m. read_digits m s) (omega arith)
  | inr l ↦
      ap (read_digits 0) (write_large fuel n s l)
      ∙ read-write_digits fuel (n / 10) ((48 + n % 10) ∷ s) (omega arith) (positive fuel n h l)
      ∙ read_digits_step (n / 10) (n % 10) s (omega arith)
      ∙ ap (λ m. read_digits m s) (omega arith)
]

-- The text of a number begins with a digit and is its own digits.
StartsWithDigit : Text → Type 0
StartsWithDigit [] = ⊥
StartsWithDigit (c ∷ s) = is_digit c ≡ true

write_digits-StartsWithDigit :
    (fuel n : ℕ) (s : Text) → n < power fuel → 0 < fuel → StartsWithDigit (write_digits fuel n s)
unfolding StartsWithDigit
write_digits-StartsWithDigit zero n s h k = absurd (omega arith)
write_digits-StartsWithDigit (suc fuel) n s h k = elim (below-cases n 10) [
  | inl l ↦ subst StartsWithDigit (sym (write_small fuel n s l)) (is_digit-code n l)
  | inr l ↦ subst StartsWithDigit (sym (write_large fuel n s l)) (
      write_digits-StartsWithDigit fuel (n / 10) ((48 + n % 10) ∷ s) (omega arith)
        (positive fuel n h l))
]

atoi-StartsWithDigit : (s : Text) → StartsWithDigit s → atoi s ≡ up_to max_int pos (read_digits 0 s)
unfolding atoi StartsWithDigit
atoi-StartsWithDigit [] h = absurd h
atoi-StartsWithDigit (c ∷ s) h = ground arith

-- Every number of 63 bits is read back.
pub atoi-write_nat : (n : ℕ) → n ≤ max_int → atoi (write_nat n) ≡ some (pos n)
unfolding write_nat read_digits
atoi-write_nat n h =
    atoi-StartsWithDigit (write_digits 20 n [])
      (write_digits-StartsWithDigit 20 n [] (omega arith) (omega arith))
    ∙ ap (up_to max_int pos) (read-write_digits 20 n [] (omega arith) (omega arith))
    ∙ ground arith

write_digits-All :
    (P : ℕ → Type 0)
    → ((d : ℕ) → d < 10 → P (48 + d))
    → (fuel n : ℕ) (s : Text) → All P s
    → All P (write_digits fuel n s)
unfolding write_digits
write_digits-All P f zero n s l = l
write_digits-All P f (suc fuel) n s l = elim (below-cases n 10) [
  | inl b ↦ subst (All P) (sym (write_small fuel n s b)) (f n b, l)
  | inr b ↦
      subst (All P) (sym (write_large fuel n s b))
        (write_digits-All P f fuel (n / 10) ((48 + n % 10) ∷ s) (f (n % 10) (omega arith), l))
]

-- What holds of every digit holds of all that is written.
pub write_nat-All :
    (P : ℕ → Type 0) → ((d : ℕ) → d < 10 → P (48 + d)) → (n : ℕ) → All P (write_nat n)
unfolding write_nat
write_nat-All P f n = write_digits-All P f 20 n [] tt

-- A written number holds nothing below the digits: no dot, no sign.
pub write_nat-Lacks : (c : ℕ) → c < 48 → (n : ℕ) → Lacks c (write_nat n)
write_nat-Lacks c h n = write_nat-All (λ d. d ≢ c) (λ d l e. omega arith) n
