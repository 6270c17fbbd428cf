-- ===== src/Cache/Lru/Spec.antt =====
-- What `LRU` (internal/cache/lru.go) promises: the cached pairs as a list, most recently used first. A
-- use moves a pair to the front, and a new pair pushes the last one out of a full cache.
use gmeow.Base.{◌≡◌, ℕ, zero, suc, none, some, List, [], ◌∷◌, Eq, lookup, delete}

module _ {ℓ} {A : Type ℓ} where
  abbrev pub take : ℕ → List A → List A
  take zero xs = []
  take (suc n) [] = []
  take (suc n) (x ∷ xs) = x ∷ take n xs

module _ {K V : Type 0} ⦃e : Eq K⦄ where
  unfoldable pub spec_get : List (K × V) → K → List (K × V)
  spec_get l k = elim (lookup k l) [ none ↦ l | some v ↦ (k, v) ∷ delete k l ]

  unfoldable pub spec_put : ℕ → List (K × V) → K → V → List (K × V)
  spec_put cap l k v = take cap ((k, v) ∷ delete k l)

  unfoldable pub spec_add : ℕ → List (K × V) → K → V → List (K × V)
  spec_add cap l k v = elim (lookup k l) [
    | none ↦ take cap ((k, v) ∷ l)
    | some w ↦ (k, w) ∷ delete k l
  ]

  pub spec_get_miss : (l : List (K × V)) (k : K) → lookup k l ≡ none → spec_get l k ≡ l
  unfolding spec_get
  spec_get_miss l k m = rw (m, spec_get)

  pub spec_get_hit :
      (l : List (K × V)) (k : K) (v : V) → lookup k l ≡ some v → spec_get l k ≡ (k, v) ∷ delete k l
  unfolding spec_get
  spec_get_hit l k v m = rw (m, spec_get)

  pub spec_add_miss :
      (cap : ℕ) (l : List (K × V)) (k : K) (v : V)
      → lookup k l ≡ none
      → spec_add cap l k v ≡ take cap ((k, v) ∷ l)
  unfolding spec_add
  spec_add_miss cap l k v m = rw (m, spec_add)

  pub spec_add_hit :
      (cap : ℕ) (l : List (K × V)) (k : K) (v w : V)
      → lookup k l ≡ some w
      → spec_add cap l k v ≡ (k, w) ∷ delete k l
  unfolding spec_add
  spec_add_hit cap l k v w m = rw (m, spec_add)
