-- ===== src/PackageManagers/Pypi/Operators.antt =====
-- packagemanager/pypi.go: the search for the operator of a version, as one scan of the text.
use pmg.Prelude.{
  ℕ, zero, suc, ◌+◌, ◌≡◌, refl, sym, ap, ◌∙◌, Bool, true, false, Option, none, some, Text, is_empty,
  has_prefix, ◌||◌, List, [], ◌∷◌, any, if◌then◌else◌, Option-cases, strip_prefix, inl, inr, arith,
}
use pmg.PackageManagers.Pypi.{index_of, earlier, find_operator}

abbrev pub later : Option ℕ → Option ℕ
later none = none
later (some n) = some (n + 1)

-- The first position at which one of the operators stands.
unfoldable pub first_at : List Text → Text → Option ℕ
first_at ops [] = if any (λ op. has_prefix [] op) ops then some 0 else none
first_at ops (c ∷ s) =
    let rest = first_at ops s in
    if any (λ op. has_prefix (c ∷ s) op) ops then some 0 else later rest

earlier-none : (x : Option ℕ) → earlier none x ≡ x
earlier-none none = refl
earlier-none (some n) = refl

earlier-zero : (x : Option ℕ) → earlier x (some 0) ≡ some 0
earlier-zero none = refl
earlier-zero (some zero) = refl
earlier-zero (some (suc n)) = ground arith

earlier_assoc : (a b c : Option ℕ) → earlier (earlier a b) c ≡ earlier a (earlier b c)
earlier_assoc a b none = refl
earlier_assoc a none (some k) = refl
earlier_assoc none (some j) (some k) = sym (earlier-none (earlier (some j) (some k)))
earlier_assoc (some i) (some j) (some k) = ground arith

earlier-later : (a b : Option ℕ) → earlier (later a) (later b) ≡ later (earlier a b)
earlier-later a none = refl
earlier-later none (some j) = refl
earlier-later (some i) (some j) = ground arith

zero-earlier : (x : Option ℕ) → earlier (some 0) x ≡ some 0
zero-earlier none = refl
zero-earlier (some zero) = ground arith
zero-earlier (some (suc n)) = ground arith

-- What is found at the front of the text, or behind it.
abbrev here_or : Bool → Option ℕ → Option ℕ
here_or b x = if b then some 0 else x

earlier-here_or :
    (a b : Bool) (x y : Option ℕ)
    → earlier (here_or a (later x)) (here_or b (later y)) ≡ here_or (a || b) (later (earlier x y))
earlier-here_or true true x y = zero-earlier (some 0)
earlier-here_or true false x y = zero-earlier (later y)
earlier-here_or false true x y = earlier-zero (later x)
earlier-here_or false false x y = earlier-later x y

index_of-here :
    (c : ℕ) (s op : Text)
    → index_of (c ∷ s) op ≡ here_or (has_prefix (c ∷ s) op) (later (index_of s op))
unfolding index_of
index_of-here c s op = elim (Option-cases (index_of s op)) [
  | inl e ↦ rw e refl
  | inr (n, e) ↦ rw e refl
]

nothing-earlier :
    (a b : Bool)
    → earlier (if a then some 0 else none) (if b then some 0 else none)
      ≡ (if a || b then some 0 else none)
nothing-earlier true b = zero-earlier (if b then some 0 else none)
nothing-earlier false true = refl
nothing-earlier false false = refl

has_prefix-nothing : (op : Text) → has_prefix [] op ≡ is_empty op
unfolding strip_prefix
has_prefix-nothing [] = refl
has_prefix-nothing (c ∷ op) = refl

index_of-nothing : (op : Text) → index_of [] op ≡ (if has_prefix [] op then some 0 else none)
unfolding index_of
index_of-nothing op = rw (has_prefix-nothing op) refl

first_at-cons :
    (op : Text) (ops : List Text) (input : Text)
    → earlier (index_of input op) (first_at ops input) ≡ first_at (op ∷ ops) input
unfolding first_at
first_at-cons op ops [] =
    ap (λ x. earlier x (first_at ops [])) (index_of-nothing op)
    ∙ nothing-earlier (has_prefix [] op) (any (λ o. has_prefix [] o) ops)
first_at-cons op ops (c ∷ s) =
    ap (λ x. earlier x (first_at ops (c ∷ s))) (index_of-here c s op)
    ∙ earlier-here_or (has_prefix (c ∷ s) op) (any (λ o. has_prefix (c ∷ s) o) ops) (index_of s op)
        (first_at ops s)
    ∙ ap (λ x. here_or (any (λ o. has_prefix (c ∷ s) o) (op ∷ ops)) (later x))
        (first_at-cons op ops s)

first_at-nothing : (input : Text) → first_at [] input ≡ none
unfolding first_at
first_at-nothing [] = refl
first_at-nothing (c ∷ s) = ap later (first_at-nothing s)

find_operator-first_at :
    (ops : List Text) (input : Text) (found : Option ℕ)
    → find_operator ops input found ≡ earlier found (first_at ops input)
unfolding find_operator
find_operator-first_at [] input found = rw (first_at-nothing input) refl
find_operator-first_at (op ∷ ops) input found =
    find_operator-first_at ops input (earlier found (index_of input op))
    ∙ earlier_assoc found (index_of input op) (first_at ops input)
    ∙ ap (earlier found) (first_at-cons op ops input)

-- The loop over any list of operators returns the first position at which one of them stands.
pub find_operator_lem :
    (ops : List Text) (input : Text) → find_operator ops input none ≡ first_at ops input
find_operator_lem ops input =
    find_operator-first_at ops input none ∙ earlier-none (first_at ops input)
