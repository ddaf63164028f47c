-- ===== src/Prelude/Anys.antt =====
-- A Boolean test on some element of a list; it does not depend on the order of the list.
use mathlib.Core.Path.{◌≡◌, refl, ◌∙◌, ap}
use mathlib.Core.Bool.{Bool, true, false, ◌&&◌, ◌||◌, Bool-set}
use mathlib.Core.Logic.{∥∥₁_elim}
use mathlib.Core.List.{List, [], ◌∷◌, ◌++◌, Perm, Permᴰ}
use native.Mathlib.Omega.{arith}

module _ {ℓ} {A : Type ℓ} where
  abbrev pub any : (A → Bool) → List A → Bool
  any test [] = false
  any test (x ∷ xs) = test x || any test xs

  abbrev pub all : (A → Bool) → List A → Bool
  all test [] = true
  all test (x ∷ xs) = test x && all test xs

  -- `|| ` is commutative, so the order of the list does not matter.
  any-permᴰ : (test : A → Bool) {xs ys : List A} → Permᴰ xs ys → any test xs ≡ any test ys
  any-permᴰ test Permᴰ.nil = refl
  any-permᴰ test (Permᴰ.cons e p) = cc (any-permᴰ test p)
  any-permᴰ test (Permᴰ.swap e f) = ground (arith, ap test e, ap test f)
  any-permᴰ test (Permᴰ.trans p q) = any-permᴰ test p ∙ any-permᴰ test q

  pub any-perm : (test : A → Bool) {xs ys : List A} → Perm xs ys → any test xs ≡ any test ys
  any-perm test p = ∥∥₁_elim p (Bool-set _ _) (any-permᴰ test)

  pub any-append :
      (test : A → Bool) (xs ys : List A) → any test (xs ++ ys) ≡ (any test xs || any test ys)
  any-append test [] ys = refl
  any-append test (x ∷ xs) ys = rw (any-append test xs ys) (ground arith)
