-- ===== src/Cache/Lru/Run.antt =====
-- Any calls of the methods of `LRU` (internal/cache/lru.go).
use Prim.Native.Nat.{max}
use gmeow.Base.{
  ℕ, zero, suc, ◌≤◌, Option, none, some, List, [], ◌∷◌, ◌≡◌, refl, sym, ◌∙◌, ap, arith, Eq, lookup,
  delete, lookup-delete,
}
use gmeow.Cache.Lru.{Lru, new_lru, get, put, add, remove}
use gmeow.Cache.Lru.Spec.{spec_get, spec_put, spec_add}
use gmeow.Cache.Lru.Refine.{IsLru, new_lru-IsLru, get-IsLru, put-IsLru, add-IsLru, remove-IsLru}

pub data Call (K V : Type 0) : Type 0 where
  get_call : K → Call K V
  put_call : K → V → Call K V
  add_call : K → V → Call K V
  remove_call : K → Call K V

module _ {K V : Type 0} ⦃e : Eq K⦄ where
  -- The cache after a call, and what a read handed back.
  abbrev pub step : Lru K V → Call K V → Lru K V × Option V
  step c (get_call k) = get c k
  step c (put_call k v) = (put c k v, none)
  step c (add_call k v) = (add c k v, none)
  step c (remove_call k) = (remove c k, none)

  abbrev pub spec_step : ℕ → List (K × V) → Call K V → List (K × V) × Option V
  spec_step cap l (get_call k) = (spec_get l k, lookup k l)
  spec_step cap l (put_call k v) = (spec_put cap l k v, none)
  spec_step cap l (add_call k v) = (spec_add cap l k v, none)
  spec_step cap l (remove_call k) = (delete k l, none)

  abbrev pub answers : Lru K V → List (Call K V) → List (Option V)
  answers c [] = []
  answers c (x ∷ xs) = (step c x).1 ∷ answers (step c x).0 xs

  abbrev pub spec_answers : ℕ → List (K × V) → List (Call K V) → List (Option V)
  spec_answers cap l [] = []
  spec_answers cap l (x ∷ xs) = (spec_step cap l x).1 ∷ spec_answers cap (spec_step cap l x).0 xs

  step-refines :
      (c : Lru K V) (l : List (K × V)) (x : Call K V)
      → IsLru c l
      → ((step c x).1 ≡ (spec_step c.capacity l x).1)
        × IsLru (step c x).0 (spec_step c.capacity l x).0
  step-refines c l (get_call k) h = get-IsLru c l k h
  step-refines c l (put_call k v) h = (refl, put-IsLru c l k h v)
  step-refines c l (add_call k v) h = (refl, add-IsLru c l k h v)
  step-refines c l (remove_call k) h = (refl, remove-IsLru c l k h)

  step-capacity : (c : Lru K V) (x : Call K V) → (step c x).0.capacity ≡ c.capacity
  unfolding get put add remove
  step-capacity c (get_call k) = ground arith
  step-capacity c (put_call k v) = ground arith
  step-capacity c (add_call k v) = ground arith
  step-capacity c (remove_call k) = ground arith

  -- Of any calls, every read hands back what the list of pairs says.
  pub answers-refines :
      (c : Lru K V) (l : List (K × V)) (xs : List (Call K V))
      → IsLru c l
      → answers c xs ≡ spec_answers c.capacity l xs
  answers-refines c l [] h = refl
  answers-refines c l (x ∷ xs) h =
      let (same, next) = step-refines c l x h in
      ap (λ o. o ∷ answers (step c x).0 xs) same
      ∙ ap (◌∷◌ (spec_step c.capacity l x).1) (
          answers-refines (step c x).0 (spec_step c.capacity l x).0 xs next
          ∙ ap (λ n. spec_answers n (spec_step c.capacity l x).0 xs) (step-capacity c x))

  -- From a new cache of any capacity, the answers of any sequence of `Get`, `Put`, `Add` and
  -- `Remove` are those of a list of pairs, most recently used first, that is cut off at the
  -- capacity, and at 1 if the capacity is 0.
  pub new_lru-answers :
      (n : ℕ) (xs : List (Call K V)) → answers (new_lru n) xs ≡ spec_answers (max n 1) [] xs
  unfolding new_lru
  new_lru-answers n xs =
      answers-refines (new_lru n) [] xs (new_lru-IsLru n)
      ∙ ap (λ m. spec_answers m [] xs) (ground arith)

  spec_put-lookup :
      (cap : ℕ) (l : List (K × V)) (k : K) (v : V)
      → 1 ≤ cap
      → lookup k (spec_put cap l k v) ≡ some v
  unfolding spec_put lookup
  spec_put-lookup zero l k v h = absurd (omega arith)
  spec_put-lookup (suc cap) l k v h = ground (arith, e.beq_iff k k)

  -- If a cache represents a list and its capacity is at least 1, what `Put` stores is what `Get`
  -- of the same key reads next.
  pub get-put :
      (c : Lru K V) (l : List (K × V)) (k : K) (v : V)
      → IsLru c l
      → 1 ≤ c.capacity
      → (get (put c k v) k).1 ≡ some v
  get-put c l k v h room =
      (get-IsLru (put c k v) (spec_put c.capacity l k v) k (put-IsLru c l k h v)).0
      ∙ spec_put-lookup c.capacity l k v room

  spec_add-lookup :
      (cap : ℕ) (l : List (K × V)) (k : K) (v w : V)
      → lookup k l ≡ some w
      → lookup k (spec_add cap l k v) ≡ some w
  unfolding spec_add lookup
  spec_add-lookup cap l k v w h = ground (arith, h, e.beq_iff k k)

  -- If a cache represents a list and `Get` of a key reads a value, then after an `Add` of another
  -- value for the key it reads the same value.
  pub get-add :
      (c : Lru K V) (l : List (K × V)) (k : K) (v w : V)
      → IsLru c l
      → (get c k).1 ≡ some w
      → (get (add c k v) k).1 ≡ some w
  get-add c l k v w h old =
      (get-IsLru (add c k v) (spec_add c.capacity l k v) k (add-IsLru c l k h v)).0
      ∙ spec_add-lookup c.capacity l k v w (sym (get-IsLru c l k h).0 ∙ old)

  -- If a cache represents a list, then after `Remove` the key is not cached.
  pub get-remove :
      (c : Lru K V) (l : List (K × V)) (k : K) → IsLru c l → (get (remove c k) k).1 ≡ none
  get-remove c l k h =
      (get-IsLru (remove c k) (delete k l) k (remove-IsLru c l k h)).0
      ∙ ground (arith, lookup-delete k k l, e.beq_iff k k)
