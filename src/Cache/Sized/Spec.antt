-- ===== src/Cache/Sized/Spec.antt =====
-- What `SizedLRU` (internal/cache/sized.go) promises: the cached pairs as a list, most recently used first,
-- cut off where the sizes of the values exceed the budget.
use gmeow.Base.{
  ℕ, ◌+◌, ◌-◌, ◌≤◌, ◌<◌, List, [], ◌∷◌, ◌++◌, ◌≡◌, refl, arith, ltb, leb, length, if◌then◌else◌, Eq,
  delete,
}
use gmeow.Cache.Sized.{Bytes}

module _ {K : Type 0} where
  abbrev pub total : List (K × Bytes) → ℕ
  total [] = 0
  total ((_, v) ∷ l) = length v + total l

  -- The longest front part whose sizes sum up to no more than the budget.
  abbrev pub within : ℕ → List (K × Bytes) → List (K × Bytes)
  within budget [] = []
  within budget ((k, v) ∷ l) =
      let rest = within (budget - length v) l in if leb (length v) budget then (k, v) ∷ rest else []

  pub within_all : (budget : ℕ) (l : List (K × Bytes)) → total l ≤ budget → within budget l ≡ l
  within_all budget [] h = refl
  within_all budget ((k, v) ∷ l) h = ground (arith, within_all (budget - length v) l)

  pub within_last :
      (budget : ℕ) (l : List (K × Bytes)) (x : K × Bytes)
      → budget < total (l ++ x ∷ [])
      → within budget (l ++ x ∷ []) ≡ within budget l
  within_last budget [] x h = ground arith
  within_last budget ((k, v) ∷ l) x h = ground (arith, within_last (budget - length v) l x)

  pub total-append : (l m : List (K × Bytes)) → total (l ++ m) ≡ total l + total m
  total-append [] m = omega arith
  total-append ((k, v) ∷ l) m = omega (arith, total-append l m)

  pub total-within : (budget : ℕ) (l : List (K × Bytes)) → total (within budget l) ≤ budget
  total-within budget [] = omega arith
  total-within budget ((k, v) ∷ l) = ground (arith, total-within (budget - length v) l)

  module _ ⦃e : Eq K⦄ where
    -- A value above the whole budget is not cached, and the key's old value is dropped.
    abbrev pub spec_put : ℕ → List (K × Bytes) → K → Bytes → List (K × Bytes)
    spec_put budget l k v =
        if ltb budget (length v) then delete k l else within budget ((k, v) ∷ delete k l)
