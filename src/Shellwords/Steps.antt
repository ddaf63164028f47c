-- ===== src/Shellwords/Steps.antt =====
-- internal/shellwords/shellwords.go: one round of the loop of `Split` in each branch, whatever bytes
-- follow.
use pmg.Prelude.{ℕ, ◌≡◌, refl, true, false, [], ◌∷◌, Text, ◌==◌}
use pmg.Shellwords.{
  State, loop, step_escaped, step_single, step_bare, write, escapes_in_double, finish, err,
  dangling_backslash,
}

pub loop-nil : (st : State) → loop [] st ≡ finish st
unfolding loop
loop-nil st = refl

module _ (c : ℕ) where
  pub loop-escaped :
      (rest : Text) (st : State)
      → st.escaped ≡ true
      → loop (c ∷ rest) st ≡ loop rest (step_escaped c st)
  unfolding loop
  loop-escaped [] st e = rw e
  loop-escaped (d ∷ r) st e = rw e

  pub loop-single :
      (rest : Text) (st : State)
      → st.escaped ≡ false
      → st.in_single ≡ true
      → loop (c ∷ rest) st ≡ loop rest (step_single c st)
  unfolding loop
  loop-single [] st e s = rw (e, s)
  loop-single (d ∷ r) st e s = rw (e, s)

  pub loop-bare :
      (rest : Text) (st : State)
      → st.escaped ≡ false
      → st.in_single ≡ false
      → st.in_double ≡ false
      → loop (c ∷ rest) st ≡ loop rest (step_bare c st)
  unfolding loop
  loop-bare [] st e s d = rw (e, s, d)
  loop-bare (x ∷ r) st e s d = rw (e, s, d)

module _ (st : State) (e : st.escaped ≡ false) (s : st.in_single ≡ false)
    (d : st.in_double ≡ true) where
  pub loop-double_close :
      (rest : Text)
      → loop (b'"' ∷ rest) st ≡ loop rest (record st { in_double = false; has_token = true })
  unfolding loop
  loop-double_close [] = rw (e, s, d)
  loop-double_close (x ∷ r) = rw (e, s, d)

  pub loop-double_escape :
      (next : ℕ) (rest : Text)
      → escapes_in_double next ≡ true
      → loop (b'\\' ∷ next ∷ rest) st ≡ loop rest (write next st)
  unfolding loop
  loop-double_escape next rest h = rw (e, s, d, h)

  pub loop-double_keep :
      (next : ℕ) (rest : Text)
      → escapes_in_double next ≡ false
      → loop (b'\\' ∷ next ∷ rest) st ≡ loop (next ∷ rest) (write b'\\' st)
  unfolding loop
  loop-double_keep next rest h = rw (e, s, d, h)

  pub loop-double_dangling : loop (b'\\' ∷ []) st ≡ err dangling_backslash
  unfolding loop
  loop-double_dangling = rw (e, s, d)

  pub loop-double_plain :
      (c : ℕ) (rest : Text)
      → (c == b'"') ≡ false
      → (c == b'\\') ≡ false
      → loop (c ∷ rest) st ≡ loop rest (write c st)
  unfolding loop
  loop-double_plain c [] p q = rw (e, s, d, p, q)
  loop-double_plain c (x ∷ r) p q = rw (e, s, d, p, q)
