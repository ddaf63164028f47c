-- ===== src/Registry/Cache/Laws.antt =====
-- The contract of the analysis cache of proxy/interceptors/cache.go.
use pmg.Prelude.{
  ◌+◌, ◌≡◌, refl, sym, ◌≢◌, inl, inr, Bool-cases, none, some, Text, ◌=ₜ◌, text_eq_iff, [], ◌∷◌,
  length, is_some, if◌then◌else◌, arith,
}
use pmg.Registry.Cache.{Cache, lookup, insert, erase, cache_key, get, set, clear, size, has, delete}

module _ {ℓ} {V : Type ℓ} where
  pub lookup-insert :
      (j k : Text) (v : V) (m : Cache V)
      → lookup j (insert k v m) ≡ (if k =ₜ j then some v else lookup j m)
  unfolding lookup insert
  lookup-insert j k v [] = refl
  lookup-insert j k v ((i, w) ∷ m) =
      ground (arith, text_eq_iff k j, text_eq_iff i k, text_eq_iff i j, lookup-insert j k v m)

  lookup-erase_other : (j k : Text) (m : Cache V) → j ≢ k → lookup j (erase k m) ≡ lookup j m
  unfolding lookup erase
  lookup-erase_other j k [] h = refl
  lookup-erase_other j k ((i, w) ∷ m) h =
      ground (arith, text_eq_iff i k, text_eq_iff i j, lookup-erase_other j k m h)

  -- No key occurs twice, as in a Go map.
  abbrev pub IsMap : Cache V → Type ℓ
  IsMap [] = Unit
  IsMap ((k, v) ∷ m) = (lookup k m ≡ none) × IsMap m

  lookup-erase_self : (k : Text) (m : Cache V) → IsMap m → lookup k (erase k m) ≡ none
  unfolding lookup erase
  lookup-erase_self k [] u = refl
  lookup-erase_self k ((i, w) ∷ m) (fresh, u) =
      ground (arith, text_eq_iff i k, lookup-erase_self k m u)

  lookup-nil : (k : Text) → lookup {V = V} k [] ≡ none
  unfolding lookup
  lookup-nil k = refl

  lookup-erase :
      (j k : Text) (m : Cache V)
      → IsMap m
      → lookup j (erase k m) ≡ (if k =ₜ j then none else lookup j m)
  lookup-erase j k m u = elim (Bool-cases (k =ₜ j)) [
    | inl e ↦ rw (e, sym ((text_eq_iff k j).0 e)) (lookup-erase_self k m u)
    | inr e ↦ rw e (lookup-erase_other j k m (λ p. ground (arith, text_eq_iff k j)))
  ]

  insert-IsMap : (k : Text) (v : V) (m : Cache V) → IsMap m → IsMap (insert k v m)
  unfolding insert lookup
  insert-IsMap k v [] u = (refl, tt)
  insert-IsMap k v ((i, w) ∷ m) (fresh, u) =
      ground (arith, text_eq_iff i k, text_eq_iff k i, insert-IsMap k v m u, lookup-insert i k v m)

  erase-IsMap : (k : Text) (m : Cache V) → IsMap m → IsMap (erase k m)
  unfolding erase
  erase-IsMap k [] u = tt
  erase-IsMap k ((i, w) ∷ m) (fresh, u) =
      ground (arith, text_eq_iff i k, erase-IsMap k m u, lookup-erase_other i k m)

  length-insert :
      (k : Text) (v : V) (m : Cache V)
      → length (insert k v m) ≡ (if is_some (lookup k m) then length m else length m + 1)
  unfolding lookup insert
  length-insert k v [] = omega arith
  length-insert k v ((i, w) ∷ m) = ground (arith, length-insert k v m)

-- After any of the methods the cache is a map again, and afterwards `Get` finds what was set under
-- the same key last, nothing under a deleted key or in a cleared cache, and what it found before
-- under every other key; `Has` says whether `Get` finds something, and `Set` adds one entry exactly
-- if there was none.
pub cache_laws {ℓ} :
    {V : Type ℓ} (e n v e' n' v' : Text) (r : V) (c : Cache V)
    → IsMap c
    → (IsMap (set e n v r c) × IsMap (delete e n v c) × IsMap (clear c))
      × (get e' n' v' (set e n v r c)
          ≡ (if cache_key e n v =ₜ cache_key e' n' v' then some r else get e' n' v' c))
      × (get e' n' v' (delete e n v c)
          ≡ (if cache_key e n v =ₜ cache_key e' n' v' then none else get e' n' v' c))
      × (get e' n' v' (clear c) ≡ none)
      × (has e n v c ≡ is_some (get e n v c))
      × (size (set e n v r c) ≡ (if has e n v c then size c else size c + 1))
unfolding get set delete clear has size
cache_laws e n v e' n' v' r c u = (
  (insert-IsMap (cache_key e n v) r c u, erase-IsMap (cache_key e n v) c u, tt),
  lookup-insert (cache_key e' n' v') (cache_key e n v) r c,
  lookup-erase (cache_key e' n' v') (cache_key e n v) c u,
  lookup-nil (cache_key e' n' v'),
  refl,
  length-insert (cache_key e n v) r c,
)
