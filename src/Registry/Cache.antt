-- ===== src/Registry/Cache.antt =====
-- proxy/interceptors/cache.go: the analysis cache, a map under the key
-- `ecosystem:name:version`. Each method holds the lock from its first line to its last, so calls are
-- taken one after the other. A Go map is a list of entries in which no key occurs twice.
pub mod Keys
pub mod Laws
use pmg.Prelude.{
  ℕ, ◌≡◌, Bool, Option, none, some, Text, codes, ◌=ₜ◌, List, [], ◌∷◌, ◌++◌, length, is_some,
  if◌then◌else◌,
}

unfoldable pub cache_key : Text → Text → Text → Text
cache_key ecosystem name version = ecosystem ++ codes ":" ++ name ++ codes ":" ++ version

abbrev pub Cache {ℓ} : Type ℓ → Type ℓ
Cache V = List (Text × V)

-- The operations of Go's maps.
module _ {ℓ} {V : Type ℓ} where
  unfoldable pub lookup : Text → Cache V → Option V
  lookup k [] = none
  lookup k ((j, v) ∷ m) = if j =ₜ k then some v else lookup k m

  unfoldable pub insert : Text → V → Cache V → Cache V
  insert k v [] = (k, v) ∷ []
  insert k v ((j, w) ∷ m) = if j =ₜ k then (j, v) ∷ m else (j, w) ∷ insert k v m

  unfoldable pub erase : Text → Cache V → Cache V
  erase k [] = []
  erase k ((j, w) ∷ m) = if j =ₜ k then m else (j, w) ∷ erase k m

-- The methods of `inMemoryAnalysisCache`.
module _ {ℓ} {V : Type ℓ} where
  abbrev pub new_cache : Cache V
  new_cache = []

  unfoldable pub get : Text → Text → Text → Cache V → Option V
  get ecosystem name version c = lookup (cache_key ecosystem name version) c

  unfoldable pub set : Text → Text → Text → V → Cache V → Cache V
  set ecosystem name version result c = insert (cache_key ecosystem name version) result c

  unfoldable pub clear : Cache V → Cache V
  clear c = []

  unfoldable pub size : Cache V → ℕ
  size c = length c

  unfoldable pub has : Text → Text → Text → Cache V → Bool
  has ecosystem name version c = is_some (lookup (cache_key ecosystem name version) c)

  unfoldable pub delete : Text → Text → Text → Cache V → Cache V
  delete ecosystem name version c = erase (cache_key ecosystem name version) c
