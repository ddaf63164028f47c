-- ===== src/Prelude/StringLaws.antt =====
-- The laws of the text functions: what they decide and how they undo concatenation.
use Prim.Native.Nat.{ℕ, ◌+◌, ◌≤◌}
use mathlib.Core.Path.{◌≡◌, refl, sym, ap, ◌∙◌, subst}
use mathlib.Core.Logic.{◌↔◌, ◌≢◌, inl, inr}
use mathlib.Core.Bool.{Bool, true, false}
use mathlib.Core.Option.{none, some}
use mathlib.Core.List.{List, [], ◌∷◌, ◌++◌, append_assoc}
use native.Mathlib.Omega.{arith}
use pmg.Prelude.Tests.{==_refl, Bool-cases, Option-cases}
use pmg.Prelude.Lists.{length, length-append, All}
use pmg.Prelude.Strings.{
  Text, ◌=ₜ◌, trim_right, strip_prefix, strip_suffix, has_prefix, trim_prefix, has_suffix,
  trim_suffix, is_empty, cut_first, cut_last, split_on, join_with,
}

pub text_eq_iff : (s t : Text) → (s =ₜ t ≡ true) ↔ (s ≡ t)
text_eq_iff [] [] = (λ _. refl, λ _. refl)
text_eq_iff [] (d ∷ t) = (λ h. cc, λ h. cc)
text_eq_iff (c ∷ s) [] = (λ h. cc, λ h. cc)
text_eq_iff (c ∷ s) (d ∷ t) = ground (arith, text_eq_iff s t)

pub text_eq_refl : (s : Text) → s =ₜ s ≡ true
text_eq_refl s = (text_eq_iff s s).1 refl

pub strip_prefix-append : (p v : Text) → strip_prefix p (p ++ v) ≡ some v
unfolding strip_prefix
strip_prefix-append [] v = refl
strip_prefix-append (c ∷ p) v = ground (arith, strip_prefix-append p v)

pub strip_prefix_sound : (p s v : Text) → strip_prefix p s ≡ some v → s ≡ p ++ v
unfolding strip_prefix
strip_prefix_sound [] s v h = ground arith
strip_prefix_sound (c ∷ p) [] v h = cc
strip_prefix_sound (c ∷ p) (d ∷ s) v h = ground (arith, strip_prefix_sound p s v)

text_eq-length : (s t : Text) → length t + 1 ≤ length s → s =ₜ t ≡ false
text_eq-length s t h = elim (Bool-cases (s =ₜ t)) [
  | inl e ↦ absurd (omega (arith, ap (length {A = ℕ}) ((text_eq_iff s t).0 e)))
  | inr e ↦ e
]

pub strip_suffix-append : (t v : Text) → strip_suffix t (v ++ t) ≡ some v
unfolding strip_suffix
strip_suffix-append [] [] = refl
strip_suffix-append (c ∷ t) [] = rw (text_eq_refl (c ∷ t))
strip_suffix-append t (c ∷ v) =
    rw (text_eq-length (c ∷ (v ++ t)) t (omega (arith, length-append v t)))
      (rw (strip_suffix-append t v) refl)

pub strip_suffix_sound : (t s v : Text) → strip_suffix t s ≡ some v → s ≡ v ++ t
unfolding strip_suffix
strip_suffix_sound [] [] v h = ground arith
strip_suffix_sound (d ∷ t) [] v h = cc
strip_suffix_sound t (c ∷ s) v h = elim (Bool-cases ((c ∷ s) =ₜ t)) [
  | inl e ↦ ground (arith, (text_eq_iff (c ∷ s) t).0 e)
  | inr e ↦ elim (Option-cases (strip_suffix t s)) [
    | inl n ↦ ground arith
    | inr (w, m) ↦ ground (arith, strip_suffix_sound t s w m)
  ]
]

-- `HasPrefix` holds exactly when the text is the prefix and what `TrimPrefix` leaves.
pub has_prefix_sound : (s p : Text) → has_prefix s p ≡ true → s ≡ p ++ trim_prefix s p
has_prefix_sound s p h = elim (Option-cases (strip_prefix p s)) [
  | inl n ↦ ground arith
  | inr (v, m) ↦ rw m (strip_prefix_sound p s v m)
]

pub has_suffix_sound : (s t : Text) → has_suffix s t ≡ true → s ≡ trim_suffix s t ++ t
has_suffix_sound s t h = elim (Option-cases (strip_suffix t s)) [
  | inl n ↦ ground arith
  | inr (v, m) ↦ rw m (strip_suffix_sound t s v m)
]

-- The text holds no `c`.
abbrev pub Lacks : ℕ → Text → Type 0
Lacks c s = All (λ d. d ≢ c) s

pub cut_first-append : (c : ℕ) (a b : Text) → Lacks c a → cut_first c (a ++ c ∷ b) ≡ some (a, b)
unfolding cut_first
cut_first-append c [] b h = rw (==_refl c)
cut_first-append c (d ∷ a) b (hd, ha) = ground (arith, cut_first-append c a b ha)

pub cut_first_sound :
    (c : ℕ) (s a b : Text) → cut_first c s ≡ some (a, b) → (s ≡ a ++ c ∷ b) × Lacks c a
unfolding cut_first
cut_first_sound c [] a b h = cc
cut_first_sound c (d ∷ s) [] b h = ground arith
cut_first_sound c (d ∷ s) (x ∷ a) b h = elim (Option-cases (cut_first c s)) [
  | inl n ↦ ground arith
  | inr ((a', b'), m) ↦ ground (arith, cut_first_sound c s a b)
]

pub cut_last-Lacks : (c : ℕ) (s : Text) → Lacks c s → cut_last c s ≡ none
unfolding cut_last
cut_last-Lacks c [] h = refl
cut_last-Lacks c (d ∷ s) (hd, hs) = ground (arith, cut_last-Lacks c s hs)

pub cut_last-append : (c : ℕ) (a b : Text) → Lacks c b → cut_last c (a ++ c ∷ b) ≡ some (a, b)
unfolding cut_last
cut_last-append c [] b h = rw (cut_last-Lacks c b h, ==_refl c)
cut_last-append c (d ∷ a) b h = rw (cut_last-append c a b h)

pub split_on-Lacks : (c : ℕ) (s : Text) → Lacks c s → split_on c s ≡ s ∷ []
unfolding split_on
split_on-Lacks c [] h = refl
split_on-Lacks c (d ∷ s) (hd, hs) = ground (arith, split_on-Lacks c s hs)

pub split_on-append : (c : ℕ) (a b : Text) → Lacks c a → split_on c (a ++ c ∷ b) ≡ a ∷ split_on c b
unfolding split_on
split_on-append c [] b h = rw (==_refl c)
split_on-append c (d ∷ a) b (hd, ha) = ground (arith, split_on-append c a b ha)

-- `Split` undoes `Join`, and `Join` undoes `Split`.
pub split_on-join_with :
    (c : ℕ) (p : Text) (ps : List Text)
    → Lacks c p
    → All (Lacks c) ps
    → split_on c (join_with c (p ∷ ps)) ≡ p ∷ ps
unfolding join_with
split_on-join_with c p [] hp h = split_on-Lacks c p hp
split_on-join_with c p (q ∷ ps) hp (hq, h) =
    split_on-append c p (join_with c (q ∷ ps)) hp ∙ ap (λ r. p ∷ r) (split_on-join_with c q ps hq h)

pub is_empty_iff : (s : Text) → (is_empty s ≡ true) ↔ (s ≡ [])
is_empty_iff [] = (λ _. refl, λ _. refl)
is_empty_iff (c ∷ s) = (λ h. cc, λ h. cc)

not-Lacks : (c : ℕ) (p r : Text) → ¬ Lacks c (p ++ c ∷ r)
not-Lacks c [] r (h, _) = h refl
not-Lacks c (d ∷ p) r (_, h) = not-Lacks c p r h

has_suffix-tail :
    (t : Text) (x : ℕ) (w : Text)
    → (x ∷ w) =ₜ t ≡ false
    → has_suffix (x ∷ w) t ≡ true
    → has_suffix w t ≡ true
unfolding strip_suffix
has_suffix-tail t x w e h = elim (Option-cases (strip_suffix t w)) [
  | inl n ↦ ground arith
  | inr (v, m) ↦ rw m
]

ne-of-Lacks : (c : ℕ) (t p r : Text) → Lacks c t → (p ++ c ∷ r) =ₜ t ≡ false
ne-of-Lacks c t p r l = elim (Bool-cases ((p ++ c ∷ r) =ₜ t)) [
  | inl e ↦ absurd (not-Lacks c p r (subst (Lacks c) (sym ((text_eq_iff (p ++ c ∷ r) t).0 e)) l))
  | inr e ↦ e
]

-- A suffix that lacks `c` lies behind every `c` of the text.
pub has_suffix-behind :
    (c : ℕ) (t p r : Text) → Lacks c t → has_suffix (p ++ c ∷ r) t ≡ true → has_suffix r t ≡ true
has_suffix-behind c t [] r l h = has_suffix-tail t c r (ne-of-Lacks c t [] r l) h
has_suffix-behind c t (d ∷ p) r l h =
    has_suffix-behind c t p r l (has_suffix-tail t d (p ++ c ∷ r) (ne-of-Lacks c t (d ∷ p) r l) h)

-- What `TrimPrefix` and `TrimSuffix` leave between a prefix that ends in `c` and a suffix that
-- lacks `c`: the two do not overlap.
pub between_sound :
    (c : ℕ) (p t s : Text)
    → Lacks c t
    → has_prefix s (p ++ c ∷ []) ≡ true
    → has_suffix s t ≡ true
    → s ≡ (p ++ c ∷ []) ++ (trim_suffix (trim_prefix s (p ++ c ∷ [])) t ++ t)
between_sound c p t s l hp hs =
    let r = trim_prefix s (p ++ c ∷ []) in
    let whole = has_prefix_sound s (p ++ c ∷ []) hp in
    let split = whole ∙ append_assoc p (c ∷ []) r in
    whole
    ∙ ap (λ u. (p ++ c ∷ []) ++ u)
        (has_suffix_sound r t
          (has_suffix-behind c t p r l (subst (λ u. has_suffix u t ≡ true) split hs)))

pub has_prefix-append : (p v : Text) → has_prefix (p ++ v) p ≡ true
has_prefix-append p v = rw (strip_prefix-append p v)

pub trim_prefix-append : (p v : Text) → trim_prefix (p ++ v) p ≡ v
trim_prefix-append p v = rw (strip_prefix-append p v)

pub has_suffix-append : (v t : Text) → has_suffix (v ++ t) t ≡ true
has_suffix-append v t = rw (strip_suffix-append t v)

pub trim_suffix-append : (v t : Text) → trim_suffix (v ++ t) t ≡ v
trim_suffix-append v t = rw (strip_suffix-append t v)

-- Trimming stops at a code point that fails the test.
pub trim_right-keep :
    (test : ℕ → Bool) (u : Text) (c : ℕ)
    → test c ≡ false
    → trim_right test (u ++ c ∷ []) ≡ u ++ c ∷ []
unfolding trim_right
trim_right-keep test [] c h = ground arith
trim_right-keep test (d ∷ []) c h = ground (arith, trim_right-keep test [] c h)
trim_right-keep test (d ∷ e ∷ u) c h = ground (arith, trim_right-keep test (e ∷ u) c h)
