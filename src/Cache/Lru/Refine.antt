-- ===== src/Cache/Lru/Refine.antt =====
-- The methods of `LRU` (internal/cache/lru.go), down to the pointers and the map, implement the list of
-- Spec: they hand back what it says and keep it represented.
use mathlib.Core.Path.{subst}
use gmeow.Base.{
  ℕ, suc, ◌≤◌, Option, none, some, List, [], ◌∷◌, ◌≡◌, refl, sym, ◌∙◌, ap, arith, length, Eq,
  Option-cases, inl, inr, lookup, delete, delete_absent,
}
use gmeow.Cache.Table.{touch, insert_new}
use gmeow.Cache.Table.Entries.{
  Entry, view, without, length-without, lookup-view_absent, view-without,
}
use gmeow.Cache.Table.Steps.{
  Holds, IsTable, empty-IsTable, touch-IsTable, drop_node-IsTable, insert_new-IsTable,
  set_value-IsTable, touch-set_value,
}
use gmeow.Cache.Lru.{
  Lru, new_lru, get, put, add, remove, len, get_node, put_node, add_node, remove_node,
  insert_bounded,
}
use gmeow.Cache.Lru.Trim.{length-view, take_all, trim}
use gmeow.Cache.Lru.Spec.{
  take, spec_get, spec_put, spec_add, spec_get_miss, spec_get_hit, spec_add_miss, spec_add_hit,
}

module _ {K V : Type 0} ⦃e : Eq K⦄ where
  -- The cache stands for the list `l`: its pointers, nodes and map hold exactly these pairs in this
  -- order, no key twice, and no more than the capacity.
  pub record IsLru (c : Lru K V) (l : List (K × V)) : Type 0 where
    pub entries : List (Entry K V)
    pub table : IsTable c.table entries
    pub shown : view entries ≡ l
    pub bounded : length entries ≤ c.capacity

  pub new_lru-IsLru : (n : ℕ) → IsLru (new_lru n) []
  unfolding new_lru
  new_lru-IsLru n = record {
    entries = [];
    table = empty-IsTable;
    shown = refl;
    bounded = omega arith;
  }

  pub get_found :
      (c : Lru K V) (k : K) (o : Option ℕ) → lookup k c.table.items ≡ o → get c k ≡ get_node c o
  unfolding get
  get_found c k o m = ap (get_node c) m

  put_found :
      (c : Lru K V) (k : K) (v : V) (o : Option ℕ)
      → lookup k c.table.items ≡ o
      → put c k v ≡ put_node c k v o
  unfolding put
  put_found c k v o m = ap (put_node c k v) m

  add_found :
      (c : Lru K V) (k : K) (v : V) (o : Option ℕ)
      → lookup k c.table.items ≡ o
      → add c k v ≡ add_node c k v o
  unfolding add
  add_found c k v o m = ap (add_node c k v) m

  remove_found :
      (c : Lru K V) (k : K) (o : Option ℕ)
      → lookup k c.table.items ≡ o
      → remove c k ≡ remove_node c k o
  unfolding remove
  remove_found c k o m = ap (remove_node c k) m

  -- Two cases of a key, as the map of the cache has it.
  module _ (c : Lru K V) (l : List (K × V)) (k : K) (h : IsLru c l) where
    pub seen_absent : lookup k c.table.items ≡ none → lookup k l ≡ none
    seen_absent m =
        subst (λ x. lookup k x ≡ none) h.shown
          (lookup-view_absent k h.entries (sym (h.table.index k) ∙ m))

    -- The entries after a use of the key.
    pub used :
        (a : ℕ)
        → lookup k c.table.items ≡ some a
        → (v : V) × Holds c.table (a, k, v)
          × (lookup k l ≡ some v)
          × IsTable (touch c.table a) ((a, k, v) ∷ without k h.entries)
          × (view (without k h.entries) ≡ delete k l)
          × (suc (length (without k h.entries)) ≤ c.capacity)
    used a m =
        let found = sym (h.table.index k) ∙ m in
        let (v, held, seen, after) = touch-IsTable c.table h.entries k a h.table found in
        (
          v,
          held,
          subst (λ x. lookup k x ≡ some v) h.shown seen,
          after,
          view-without k h.entries ∙ ap (delete k) h.shown,
          omega (arith, length-without k a h.entries h.table.keys found, h.bounded),
        )

    get_seen : (a : ℕ) (v : V) → c.table.payload a ≡ some (k, v) → (get_node c (some a)).1 ≡ some v
    unfolding get touch
    get_seen a v p = ground (arith, p)

    -- `Get` hands back the value of the key and moves its pair to the front.
    pub get-IsLru : ((get c k).1 ≡ lookup k l) × IsLru (get c k).0 (spec_get l k)
    get-IsLru = elim (Option-cases (lookup k c.table.items)) [
      | inl m ↦
          let seen = seen_absent m in
          rw (get_found c k none m, spec_get_miss l k seen) (unfold get in (sym seen, h))
      | inr (a, m) ↦
          let (v, held, seen, after, rest, fits) = used a m in
          rw (get_found c k (some a) m, spec_get_hit l k v seen)
            (
              get_seen a v held ∙ sym seen,
              record {
                entries = (a, k, v) ∷ without k h.entries;
                table = unfold get in after;
                shown = ap (◌∷◌ (k, v)) rest;
                bounded = unfold get in omega (arith, fits);
              },
            )
    ]

    -- A new pair goes to the front, and pushes the last one out of a full cache.
    insert-refines :
        (v : V)
        → lookup k c.table.items ≡ none
        → IsLru (insert_bounded c k v) (take c.capacity ((k, v) ∷ l))
    unfolding insert_bounded
    insert-refines v m =
        let t = insert_new c.table k v in
        let es : List (Entry K V) = (c.table.fresh, k, v) ∷ h.entries in
        let new : IsTable t es =
          insert_new-IsTable c.table h.entries k v h.table (sym (h.table.index k) ∙ m) in
        let (es', kept, shown, fits) = trim c.capacity t es new (omega (arith, h.bounded)) in
        record {
          entries = es';
          table = kept;
          shown = shown ∙ ap (λ x. take c.capacity ((k, v) ∷ x)) h.shown;
          bounded = fits;
        }

    -- If the links, nodes and map of a cache represent a list of pairs, then after `Put` they
    -- represent the list with the pair of the key in front, in place of its old one, cut off at
    -- the capacity.
    pub put-IsLru : (v : V) → IsLru (put c k v) (spec_put c.capacity l k v)
    put-IsLru v = elim (Option-cases (lookup k c.table.items)) [
      | inl m ↦ rw (put_found c k v none m) (
          unfold put spec_put in
          subst (λ x. IsLru (insert_bounded c k v) (take c.capacity ((k, v) ∷ x)))
            (sym (delete_absent k l (seen_absent m))) (insert-refines v m))
      | inr (a, m) ↦
          let (w, held, seen, after, rest, fits) = used a m in
          let fits' =
            subst (λ n. suc n ≤ c.capacity) (sym (length-view (without k h.entries))) fits in
          rw (put_found c k v (some a) m) (record {
            entries = (a, k, v) ∷ without k h.entries;
            table =
                unfold put in
                subst (λ t. IsTable t ((a, k, v) ∷ without k h.entries))
                  (sym (touch-set_value c.table a v))
                  (set_value-IsTable (touch c.table a) a k w v (without k h.entries) after);
            shown =
                unfold spec_put in
                ap (◌∷◌ (k, v)) rest
                ∙ sym (
                    take_all c.capacity ((k, v) ∷ delete k l)
                      (subst (λ x. suc (length x) ≤ c.capacity) rest fits'));
            bounded = unfold put in omega (arith, fits);
          })
    ]

    -- `Add` moves the pair of the key to the front with its old value, or adds the new one there.
    pub add-IsLru : (v : V) → IsLru (add c k v) (spec_add c.capacity l k v)
    add-IsLru v = elim (Option-cases (lookup k c.table.items)) [
      | inl m ↦
          rw (add_found c k v none m, spec_add_miss c.capacity l k v (seen_absent m))
            (unfold add in insert-refines v m)
      | inr (a, m) ↦
          let (w, held, seen, after, rest, fits) = used a m in
          rw (add_found c k v (some a) m, spec_add_hit c.capacity l k v w seen)
            (record {
              entries = (a, k, w) ∷ without k h.entries;
              table = unfold add in after;
              shown = ap (◌∷◌ (k, w)) rest;
              bounded = unfold add in omega (arith, fits);
            })
    ]

    -- If a cache represents a list, `Len` is the length of the list, which is never above the
    -- capacity.
    pub len-length : (len c ≡ length l) × (len c ≤ c.capacity)
    unfolding len
    len-length = (
      h.table.size ∙ sym (length-view h.entries) ∙ ap length h.shown,
      omega (arith, h.table.size, h.bounded),
    )

    -- `Remove` takes the pair of the key out.
    pub remove-IsLru : IsLru (remove c k) (delete k l)
    remove-IsLru = elim (Option-cases (lookup k c.table.items)) [
      | inl m ↦ rw (remove_found c k none m, delete_absent k l (seen_absent m)) (unfold remove in h)
      | inr (a, m) ↦
          let (v, held, seen, after, rest, fits) = used a m in
          rw (remove_found c k (some a) m) (record {
            entries = without k h.entries;
            table =
                unfold remove in
                drop_node-IsTable c.table h.entries k a h.table (sym (h.table.index k) ∙ m);
            shown = rest;
            bounded = unfold remove in omega (arith, fits);
          })
    ]
