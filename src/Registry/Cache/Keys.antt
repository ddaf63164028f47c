-- ===== src/Registry/Cache/Keys.antt =====
-- When two packages share a key of the cache in proxy/interceptors/cache.go.
use pmg.Prelude.{
  ◌≡◌, Text, ◌∷◌, ◌++◌, Lacks, cut_first, cut_first-append, append_assoc, some, arith,
}
use pmg.Registry.Cache.{cache_key}

cache_key_lem : (e n v : Text) → cache_key e n v ≡ e ++ b':' ∷ (n ++ b':' ∷ v)
unfolding cache_key
cache_key_lem e n v = simp append_assoc

key_cut : (e n v : Text) → Lacks b':' e → cut_first b':' (cache_key e n v) ≡ some (e, n ++ b':' ∷ v)
key_cut e n v h = rw (cache_key_lem e n v) (cut_first-append b':' e (n ++ b':' ∷ v) h)

-- Two texts cut alike at their first colon.
cut_injective :
    {a a' b b' s s' : Text}
    → cut_first b':' s ≡ some (a, b)
    → cut_first b':' s' ≡ some (a', b')
    → s ≡ s'
    → (a ≡ a') × (b ≡ b')
cut_injective p q e = ground arith

-- Where neither the ecosystem nor the name holds a colon, the key determines all three parts: no
-- package is ever answered with the analysis of another.
pub cache_key-injective :
    (e n v e' n' v' : Text)
    → Lacks b':' e
    → Lacks b':' n
    → Lacks b':' e'
    → Lacks b':' n'
    → cache_key e n v ≡ cache_key e' n' v'
    → (e ≡ e') × (n ≡ n') × (v ≡ v')
cache_key-injective e n v e' n' v' he hn he' hn' h =
    let (first, rest) = cut_injective (key_cut e n v he) (key_cut e' n' v' he') h in
    let (second, third) =
      cut_injective (cut_first-append b':' n v hn) (cut_first-append b':' n' v' hn') rest in
    (first, second, third)
