-- ===== src/Sandbox/Unions.antt =====
-- `unionStringSlices` of sandbox/policy.go: its elements, that it has no duplicates, and its order.
use pmg.Prelude.{
  ◌≡◌, refl, sym, subst, ap, ◌∙◌, inl, inr, true, false, not, ◌&&◌, ◌||◌, Text, ◌=ₜ◌, text_eq_iff,
  text_eq_refl, List, [], ◌∷◌, ◌++◌, append_assoc, append-nil, is_empty, if◌then◌else◌, Bool-cases,
  arith,
}
use pmg.Sandbox.{is_seen, union_loop, union}

-- The elements that the loop appends, in their order.
fresh : List Text → List Text → List Text
fresh seen [] = []
fresh seen (item ∷ items) =
    let rest = fresh (item ∷ seen) items in
    if is_seen seen item then fresh seen items else item ∷ rest

-- The set after the loop.
seen_after : List Text → List Text → List Text
seen_after seen [] = seen
seen_after seen (item ∷ items) =
    let rest = seen_after (item ∷ seen) items in
    if is_seen seen item then seen_after seen items else rest

union_loop-fresh :
    (items seen result : List Text)
    → union_loop items (seen, result) ≡ (seen_after seen items, result ++ fresh seen items)
unfolding union_loop fresh seen_after
union_loop-fresh [] seen result = ap (λ r. (seen, r)) (sym (append-nil result))
union_loop-fresh (item ∷ items) seen result = elim (Bool-cases (is_seen seen item)) [
  | inl e ↦ rw e (union_loop-fresh items seen result)
  | inr e ↦ rw e (
      union_loop-fresh items (item ∷ seen) (result ++ item ∷ [])
      ∙ ap (λ r. (seen_after (item ∷ seen) items, r))
          (append_assoc result (item ∷ []) (fresh (item ∷ seen) items)))
]

fresh-append :
    (xs ys seen : List Text)
    → fresh seen (xs ++ ys) ≡ fresh seen xs ++ fresh (seen_after seen xs) ys
unfolding fresh seen_after
fresh-append [] ys seen = refl
fresh-append (x ∷ xs) ys seen = elim (Bool-cases (is_seen seen x)) [
  | inl e ↦ rw e (fresh-append xs ys seen)
  | inr e ↦ rw e (ap (λ r. x ∷ r) (fresh-append xs ys (x ∷ seen)))
]

union-fresh : (p c : List Text) → union p c ≡ fresh [] p ++ fresh (seen_after [] p) c
unfolding union
union-fresh p c =
    ap (λ st. (union_loop c st).1) (union_loop-fresh p [] [])
    ∙ ap (λ st. st.1) (union_loop-fresh c (seen_after [] p) (fresh [] p))

is_seen-append :
    (xs ys : List Text) (x : Text) → is_seen (xs ++ ys) x ≡ (is_seen xs x || is_seen ys x)
unfolding is_seen
is_seen-append [] ys x = refl
is_seen-append (y ∷ xs) ys x = ground (arith, is_seen-append xs ys x)

is_seen-fresh :
    (xs seen : List Text) (x : Text)
    → is_seen (fresh seen xs) x ≡ (is_seen xs x && not (is_seen seen x))
unfolding is_seen fresh
is_seen-fresh [] seen x = ground arith
is_seen-fresh (y ∷ xs) seen x =
    ground (arith, text_eq_iff y x, is_seen-fresh xs seen x, is_seen-fresh xs (y ∷ seen) x)

is_seen-seen_after :
    (xs seen : List Text) (x : Text)
    → is_seen (seen_after seen xs) x ≡ (is_seen seen x || is_seen xs x)
unfolding is_seen seen_after
is_seen-seen_after [] seen x = ground arith
is_seen-seen_after (y ∷ xs) seen x =
    ground
      (arith, text_eq_iff y x, is_seen-seen_after xs seen x, is_seen-seen_after xs (y ∷ seen) x)

-- No text occurs twice.
abbrev pub IsDistinct : List Text → Type 0
IsDistinct [] = Unit
IsDistinct (x ∷ xs) = (is_seen xs x ≡ false) × IsDistinct xs

fresh-IsDistinct : (xs seen : List Text) → IsDistinct (fresh seen xs)
unfolding fresh is_seen
fresh-IsDistinct [] seen = tt
fresh-IsDistinct (x ∷ xs) seen = elim (Bool-cases (is_seen seen x)) [
  | inl e ↦ rw e (fresh-IsDistinct xs seen)
  | inr e ↦ rw e (
    ground (arith, text_eq_refl x, is_seen-fresh xs (x ∷ seen) x),
    fresh-IsDistinct xs (x ∷ seen),
  )
]

-- `fresh` reads the set only through its elements.
fresh-ext :
    (xs seen seen' : List Text)
    → ((x : Text) → is_seen seen x ≡ is_seen seen' x)
    → fresh seen xs ≡ fresh seen' xs
unfolding fresh is_seen
fresh-ext [] seen seen' h = refl
fresh-ext (x ∷ xs) seen seen' h = elim (Bool-cases (is_seen seen' x)) [
  | inl e ↦ rw (h x, e) (fresh-ext xs seen seen' h)
  | inr e ↦
      rw (h x, e)
        (ap (λ r. x ∷ r) (fresh-ext xs (x ∷ seen) (x ∷ seen') (λ y. ap (λ b. x =ₜ y || b) (h y))))
]

fresh-nil :
    (xs seen : List Text)
    → ((x : Text) → is_seen xs x ≡ true → is_seen seen x ≡ true)
    → fresh seen xs ≡ []
unfolding fresh is_seen
fresh-nil [] seen h = refl
fresh-nil (x ∷ xs) seen h =
    rw (h x (ground (arith, text_eq_refl x))) (fresh-nil xs seen (λ y m. h y (ground arith)))

fresh-fresh : (xs seen : List Text) → fresh seen (fresh seen xs) ≡ fresh seen xs
unfolding fresh
fresh-fresh [] seen = refl
fresh-fresh (x ∷ xs) seen = elim (Bool-cases (is_seen seen x)) [
  | inl e ↦ rw e (fresh-fresh xs seen)
  | inr e ↦ rw (e, e) (ap (λ r. x ∷ r) (fresh-fresh xs (x ∷ seen)))
]

is_seen_nil : (x : Text) → is_seen [] x ≡ false
unfolding is_seen
is_seen_nil x = refl

union-twice : (p c : List Text) → union p (union p c) ≡ union p c
union-twice p c =
    let s = seen_after [] p in
    let a = fresh [] p in
    let b = fresh s c in
    let in_a : (x : Text) → is_seen a x ≡ is_seen p x =
      λ x. ground (arith, is_seen-fresh p [] x, is_seen_nil x) in
    let in_s : (x : Text) → is_seen s x ≡ is_seen p x =
      λ x. ground (arith, is_seen-seen_after p [] x, is_seen_nil x) in
    let same : (x : Text) → is_seen (seen_after s a) x ≡ is_seen s x =
      λ x. ground (arith, is_seen-seen_after a s x, in_a x, in_s x) in
    let tail : fresh s (a ++ b) ≡ b =
      fresh-append a b s
      ∙ ap (λ r. r ++ fresh (seen_after s a) b)
          (fresh-nil a s (λ x m. ground (arith, in_a x, in_s x)))
      ∙ fresh-ext b (seen_after s a) s same
      ∙ fresh-fresh c s in
    union-fresh p (union p c)
    ∙ ap (λ r. a ++ fresh s r) (union-fresh p c)
    ∙ ap (λ r. a ++ r) tail
    ∙ sym (union-fresh p c)

is_empty-fresh : (xs : List Text) → is_empty (fresh [] xs) ≡ is_empty xs
unfolding fresh is_seen
is_empty-fresh [] = refl
is_empty-fresh (x ∷ xs) = refl

pub is_empty-union : (p c : List Text) → is_empty (union p c) ≡ (is_empty p && is_empty c)
unfolding fresh seen_after is_seen
is_empty-union [] c = ap is_empty (union-fresh [] c) ∙ is_empty-fresh c
is_empty-union (x ∷ p) c = ap is_empty (union-fresh (x ∷ p) c)

pub is_seen-union :
    (p c : List Text) (x : Text) → is_seen (union p c) x ≡ (is_seen p x || is_seen c x)
is_seen-union p c x =
    ap (λ u. is_seen u x) (union-fresh p c)
    ∙ ground (
      arith,
      is_seen-append (fresh [] p) (fresh (seen_after [] p) c) x,
      is_seen-fresh p [] x,
      is_seen_nil x,
      is_seen-fresh c (seen_after [] p) x,
      is_seen-seen_after p [] x,
    )

fresh_nothing : (s : List Text) → fresh s [] ≡ []
unfolding fresh
fresh_nothing s = refl

-- The union of the parent's entries and the child's holds exactly the entries of either, none of
-- them twice, the parent's first; and the union with the same parent again changes nothing.
pub union_lem :
    (p c : List Text)
    → ((x : Text) → is_seen (union p c) x ≡ (is_seen p x || is_seen c x))
      × IsDistinct (union p c)
      × ((r : List Text) × (union p c ≡ union p [] ++ r))
      × (union p (union p c) ≡ union p c)
union_lem p c = (is_seen-union p c, distinct, (fresh (seen_after [] p) c, first), union-twice p c)
  where
    whole : fresh [] (p ++ c) ≡ union p c
    whole = fresh-append p c [] ∙ sym (union-fresh p c)

    distinct : IsDistinct (union p c)
    distinct = subst IsDistinct whole (fresh-IsDistinct (p ++ c) [])

    alone : union p [] ≡ fresh [] p
    alone =
        union-fresh p []
        ∙ ap (λ r. fresh [] p ++ r) (fresh_nothing (seen_after [] p))
        ∙ append-nil (fresh [] p)

    first : union p c ≡ union p [] ++ fresh (seen_after [] p) c
    first = union-fresh p c ∙ ap (λ a. a ++ fresh (seen_after [] p) c) (sym alone)
