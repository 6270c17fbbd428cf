-- ===== src/Scheduler/Annotated/Sound.antt =====
-- What `lruCache` (internal/scheduler/lru.go) promises: a bounded list of digests, and no false positive.
use mathlib.Core.Path.{subst}
use gmeow.Base.{
  ℕ, zero, suc, Bool, true, false, ◌||◌, ◌&&◌, not, Option, none, some, String, List, [], ◌∷◌, ◌≡◌,
  refl, sym, ◌∙◌, ap, arith, string_eq, str_eq, eq_iff, lookup, delete, lookup-delete, Option-cases,
  inl, inr,
}
use gmeow.Cache.Lru as Cache
use gmeow.Cache.Lru.{Lru}
use gmeow.Cache.Lru.Spec.{take, spec_get, spec_add, spec_add_miss, spec_add_hit}
use gmeow.Cache.Lru.Refine.{IsLru, get-IsLru, add-IsLru, remove-IsLru, used, seen_absent}
use gmeow.Cache.Table.Steps.{empty-IsTable}
use gmeow.Scheduler.Annotated.{
  LruCache, new_lru_cache, contains, contains_node, add, add_node, remove, remove_node,
}

-- The same links, nodes and map as a cache of pairs.
abbrev pub as_lru : LruCache → Lru String (Unit {0})
as_lru c = record { capacity = c.capacity; table = c.table }

abbrev pub IsDigestSet : LruCache → List (String × Unit {0}) → Type 0
IsDigestSet c l = IsLru (as_lru c) l

abbrev pub is_some : {A : Type 0} → Option A → Bool
is_some none = false
is_some (some _) = true

pub new_lru_cache-IsDigestSet : (n : ℕ) → IsDigestSet (new_lru_cache n) []
unfolding new_lru_cache
new_lru_cache-IsDigestSet n = record {
  entries = [];
  table = empty-IsTable;
  shown = refl;
  bounded = omega arith;
}

module _ (c : LruCache) (l : List (String × Unit {0})) (k : String) (h : IsDigestSet c l) where
  contains_found : (o : Option ℕ) → lookup k c.table.items ≡ o → contains c k ≡ contains_node c o
  unfolding contains
  contains_found o m = ap (contains_node c) m

  moved : as_lru (contains c k).0 ≡ (Cache.get (as_lru c) k).0
  unfolding contains Cache.get
  moved = elim (Option-cases (lookup k c.table.items)) [
    | inl m ↦
        ap (λ o. as_lru (contains_node c o).0) m ∙ sym (ap (λ o. (Cache.get_node (as_lru c) o).0) m)
    | inr (a, m) ↦
        ap (λ o. as_lru (contains_node c o).0) m ∙ sym (ap (λ o. (Cache.get_node (as_lru c) o).0) m)
  ]

  -- Contains answers whether the digest is in the set, and moves it to the front if it is.
  pub contains-refines :
      ((contains c k).1 ≡ is_some (lookup k l)) × IsDigestSet (contains c k).0 (spec_get l k)
  contains-refines = (
    elim (Option-cases (lookup k c.table.items)) [
      | inl m ↦ rw (contains_found none m, seen_absent (as_lru c) l k h m) (unfold contains in refl)
      | inr (a, m) ↦
          let (v, held, seen, after, rest, fits) = used (as_lru c) l k h a m in
          rw (contains_found (some a) m, seen) (unfold contains in refl)
    ],
    subst (λ x. IsLru x (spec_get l k)) (sym moved) (get-IsLru (as_lru c) l k h).1,
  )

  -- Add puts the digest in front, and pushes the last one out of a full set.
  pub add-IsDigestSet : IsDigestSet (add c k) (spec_add c.capacity l k tt)
  unfolding add Cache.add
  add-IsDigestSet =
      subst (λ x. IsLru x (spec_add c.capacity l k tt)) same (add-IsLru (as_lru c) l k h tt)
    where
      by_node : (o : Option ℕ) → Cache.add_node (as_lru c) k tt o ≡ as_lru (add_node c k o)
      by_node none = refl
      by_node (some a) = refl

      same : Cache.add (as_lru c) k tt ≡ as_lru (add c k)
      same = by_node (lookup k c.table.items)

  -- Remove takes the digest out.
  pub remove-IsDigestSet : IsDigestSet (remove c k) (delete k l)
  unfolding remove Cache.remove
  remove-IsDigestSet = subst (λ x. IsLru x (delete k l)) same (remove-IsLru (as_lru c) l k h)
    where
      by_node : (o : Option ℕ) → Cache.remove_node (as_lru c) k o ≡ as_lru (remove_node c k o)
      by_node none = refl
      by_node (some a) = refl

      same : Cache.remove (as_lru c) k ≡ as_lru (remove c k)
      same = by_node (lookup k c.table.items)

-- The calls, and whether the last Add of a digest is later than its last Remove.
pub data Call : Type 0 where
  contains_call : String → Call
  add_call : String → Call
  remove_call : String → Call

abbrev pub step : LruCache → Call → LruCache
step c (contains_call k) = (contains c k).0
step c (add_call k) = add c k
step c (remove_call k) = remove c k

abbrev pub steps : LruCache → List Call → LruCache
steps c [] = c
steps c (x ∷ xs) = steps (step c x) xs

abbrev pub stays : String → Bool → Call → Bool
stays k b (contains_call j) = b
stays k b (add_call j) = str_eq j k || b
stays k b (remove_call j) = not (str_eq j k) && b

abbrev pub added : String → Bool → List Call → Bool
added k b [] = b
added k b (x ∷ xs) = added k (stays k b x) xs

is_in : String → List (String × Unit {0}) → Bool
is_in k l = is_some (lookup k l)

is_in-take :
    (k : String) (n : ℕ) (l : List (String × Unit {0}))
    → is_in k (take n l) ≡ true
    → is_in k l ≡ true
unfolding is_in lookup
is_in-take k zero l h = cc
is_in-take k (suc n) [] h = cc
is_in-take k (suc n) ((j, v) ∷ l) h = ground (arith, is_in-take k n l)

is_in-get :
    (k j : String) (l : List (String × Unit {0})) → is_in k (spec_get l j) ≡ true → is_in k l ≡ true
unfolding is_in spec_get lookup
is_in-get k j l h = ground (arith, lookup-delete j k l, eq_iff j k)

is_in-add :
    (k j : String) (n : ℕ) (l : List (String × Unit {0}))
    → is_in k (spec_add n l j tt) ≡ true
    → (str_eq j k || is_in k l) ≡ true
is_in-add k j n l h = elim (Option-cases (lookup j l)) [
  | inl m ↦
      let h' = subst (λ x. is_in k x ≡ true) (spec_add_miss n l j tt m) h in
      unfold is_in lookup in ground (arith, is_in-take k n ((j, tt) ∷ l) h')
  | inr (v, m) ↦
      let h' = subst (λ x. is_in k x ≡ true) (spec_add_hit n l j tt v m) h in
      unfold is_in lookup in ground (arith, h', lookup-delete j k l, eq_iff j k)
]

is_in-delete :
    (k j : String) (l : List (String × Unit {0}))
    → is_in k (delete j l) ≡ true
    → (not (str_eq j k) && is_in k l) ≡ true
unfolding is_in
is_in-delete k j l h = ground (arith, lookup-delete j k l)

step_sound :
    (c : LruCache) (l : List (String × Unit {0})) (k : String) (b : Bool) (x : Call)
    → IsDigestSet c l
    → (is_in k l ≡ true → b ≡ true)
    → (l' : List (String × Unit {0})) × IsDigestSet (step c x) l'
      × (is_in k l' ≡ true → stays k b x ≡ true)
step_sound c l k b (contains_call j) h i =
    (spec_get l j, (contains-refines c l j h).1, λ t. i (is_in-get k j l t))
step_sound c l k b (add_call j) h i = (
  spec_add c.capacity l j tt,
  add-IsDigestSet c l j h,
  λ t. ground (arith, is_in-add k j c.capacity l t, i),
)
step_sound c l k b (remove_call j) h i =
    (delete j l, remove-IsDigestSet c l j h, λ t. ground (arith, is_in-delete k j l t, i))

steps_sound :
    (xs : List Call) (c : LruCache) (l : List (String × Unit {0})) (k : String) (b : Bool)
    → IsDigestSet c l
    → (is_in k l ≡ true → b ≡ true)
    → (contains (steps c xs) k).1 ≡ true
    → added k b xs ≡ true
unfolding is_in
steps_sound [] c l k b h i t = i (sym (contains-refines c l k h).0 ∙ t)
steps_sound (x ∷ xs) c l k b h i t =
    let (l', h', i') = step_sound c l k b x h i in
    steps_sound xs (step c x) l' k (stays k b x) h' i' t

-- From a new set, after any calls, Contains answers true for a digest only if it was added and not
-- removed since: what an eviction forgets makes a wrong "no", never a wrong "yes".
pub contains_sound :
    (n : ℕ) (xs : List Call) (k : String)
    → (contains (steps (new_lru_cache n) xs) k).1 ≡ true
    → added k false xs ≡ true
contains_sound n xs k t =
    steps_sound xs (new_lru_cache n) [] k false (new_lru_cache-IsDigestSet n)
      (λ e. absurd (unfold is_in lookup in cc)) t
