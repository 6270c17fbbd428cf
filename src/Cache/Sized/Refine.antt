-- ===== src/Cache/Sized/Refine.antt =====
-- The methods of `SizedLRU` (internal/cache/sized.go), down to the pointers and the map, implement the list
-- of Spec, and the byte count is the sum of the sizes in it.
use mathlib.Core.Path.{subst}
use gmeow.Base.{
  ℕ, ◌+◌, ◌≤◌, Option, none, some, List, [], ◌∷◌, ◌≡◌, refl, sym, ◌∙◌, ap, arith, length, ltb, Eq,
  Bool-cases, Option-cases, inl, inr, lookup, delete, delete_absent, Unique,
}
use gmeow.Cache.Table.{touch}
use gmeow.Cache.Table.Entries.{Entry, view, without, UniqueKeys, lookup-view_absent, view-without}
use gmeow.Cache.Table.Steps.{
  Holds, IsTable, touch-IsTable, drop_node-IsTable, insert_new-IsTable, set_value-IsTable,
  touch-set_value,
}
use gmeow.Cache.Sized.{
  Bytes, Sized, get, put, remove, bytes, get_node, put_node, drop_entry, size_at,
}
use gmeow.Cache.Sized.Spec.{total, within, spec_put}
use gmeow.Cache.Sized.Evict.{IsSized, evicted}
use gmeow.Cache.Lru.Spec.{spec_get, spec_get_miss, spec_get_hit}

module _ {K : Type 0} ⦃e : Eq K⦄ where
  view-Unique : {V : Type 0} (es : List (Entry K V)) → UniqueKeys es → Unique (view es)
  view-Unique [] u = tt
  view-Unique ((a, k, v) ∷ es) u = (lookup-view_absent k es u.0, view-Unique es u.1)

  total-delete :
      (k : K) (l : List (K × Bytes)) (v : Bytes)
      → Unique l
      → lookup k l ≡ some v
      → total l ≡ length v + total (delete k l)
  unfolding lookup delete
  total-delete k [] v u h = cc
  total-delete k ((i, w) ∷ l) v u h =
      ground (arith, e.beq_iff i k, total-delete k l v, delete_absent k l)

  module _ (c : Sized K) (l : List (K × Bytes)) (k : K) (h : IsSized c l) where
    seen_absent : lookup k c.table.items ≡ none → lookup k l ≡ none
    seen_absent m =
        subst (λ x. lookup k x ≡ none) h.shown
          (lookup-view_absent k h.entries (sym (h.table.index k) ∙ m))

    -- The entries after a use of the key.
    used :
        (a : ℕ)
        → lookup k c.table.items ≡ some a
        → (v : Bytes) × Holds c.table (a, k, v)
          × (lookup k l ≡ some v)
          × IsTable (touch c.table a) ((a, k, v) ∷ without k h.entries)
          × (view (without k h.entries) ≡ delete k l)
          × (total l ≡ length v + total (delete k l))
    used a m =
        let (v, held, seen, after) =
          touch-IsTable c.table h.entries k a h.table (sym (h.table.index k) ∙ m) in
        let shown = subst (λ x. lookup k x ≡ some v) h.shown seen in
        (
          v,
          held,
          shown,
          after,
          view-without k h.entries ∙ ap (delete k) h.shown,
          total-delete k l v (subst Unique h.shown (view-Unique h.entries h.table.keys)) shown,
        )

    get_found : (o : Option ℕ) → lookup k c.table.items ≡ o → get c k ≡ get_node c o
    unfolding get
    get_found o m = ap (get_node c) m

    get_seen :
        (a : ℕ) (v : Bytes) → c.table.payload a ≡ some (k, v) → (get_node c (some a)).1 ≡ some v
    unfolding get touch
    get_seen a v p = ground (arith, p)

    -- If a cache represents a list of pairs, `Get` hands back the value that the list has for the
    -- key, and leaves a cache that represents the list with that pair in front.
    pub get-IsSized : ((get c k).1 ≡ lookup k l) × IsSized (get c k).0 (spec_get l k)
    get-IsSized = elim (Option-cases (lookup k c.table.items)) [
      | inl m ↦
          let seen = seen_absent m in
          rw (get_found none m, spec_get_miss l k seen) (unfold get in (sym seen, h))
      | inr (a, m) ↦
          let (v, held, seen, after, rest, sum) = used a m in
          rw (get_found (some a) m, spec_get_hit l k v seen)
            (
              get_seen a v held ∙ sym seen,
              record {
                entries = (a, k, v) ∷ without k h.entries;
                table = unfold get in after;
                shown = ap (◌∷◌ (k, v)) rest;
                summed = unfold get in h.summed ∙ sum;
                bounded = unfold get in h.bounded;
              },
            )
    ]

    drop-refines :
        (o : Option ℕ) → lookup k c.table.items ≡ o → IsSized (drop_entry c k o) (delete k l)
    unfolding drop_entry
    drop-refines none m = subst (IsSized c) (sym (delete_absent k l (seen_absent m))) h
    drop-refines (some a) m =
        let (v, held, seen, after, rest, sum) = used a m in
        let size : size_at c.table a ≡ length v = ground (arith, held) in
        record {
          entries = without k h.entries;
          table = drop_node-IsTable c.table h.entries k a h.table (sym (h.table.index k) ∙ m);
          shown = rest;
          summed = omega (arith, h.summed, sum, size);
          bounded = omega (arith, h.bounded);
        }

    -- If a cache represents a list, then after `Remove` it represents the list without the pair
    -- of the key, with the size of that pair off the byte count.
    pub remove-IsSized : IsSized (remove c k) (delete k l)
    unfolding remove
    remove-IsSized = drop-refines (lookup k c.table.items) refl

    store-refines :
        (v : Bytes) (o : Option ℕ)
        → lookup k c.table.items ≡ o
        → IsSized (put_node c k v o) (within c.max_bytes ((k, v) ∷ delete k l))
    unfolding put_node
    store-refines v none m =
        let es = (c.table.fresh, k, v) ∷ h.entries in
        subst (λ x. IsSized (put_node c k v none) (within c.max_bytes ((k, v) ∷ x)))
          (h.shown ∙ sym (delete_absent k l (seen_absent m)))
          (evicted _ es (record {
            table = insert_new-IsTable c.table h.entries k v h.table (sym (h.table.index k) ∙ m);
            summed = omega (arith, h.summed, ap total h.shown);
          }))
    store-refines v (some a) m =
        let (w, held, seen, after, rest, sum) = used a m in
        let size : size_at c.table a ≡ length w = ground (arith, held) in
        let es = (a, k, v) ∷ without k h.entries in
        subst (λ x. IsSized (put_node c k v (some a)) (within c.max_bytes ((k, v) ∷ x))) rest
          (evicted _ es (record {
            table =
                subst (λ t. IsTable t es) (sym (touch-set_value c.table a v))
                  (set_value-IsTable (touch c.table a) a k w v (without k h.entries) after);
            summed = omega (arith, h.summed, sum, size, ap total rest);
          }))

    -- If a cache represents a list, then after `Put` it represents the list without the key where
    -- the value is above the whole budget, and else the front part that fits of the list with the
    -- pair of the key in front.
    pub put-IsSized : (v : Bytes) → IsSized (put c k v) (spec_put c.max_bytes l k v)
    unfolding put
    put-IsSized v = elim (Bool-cases (ltb c.max_bytes (length v))) [
      | inl large ↦ rw large (drop-refines (lookup k c.table.items) refl)
      | inr fits ↦ rw fits (store-refines v (lookup k c.table.items) refl)
    ]

    -- `Bytes` is the sum of the sizes in the list, and within the budget.
    pub bytes-total : (bytes c ≡ total l) × (bytes c ≤ c.max_bytes)
    unfolding bytes
    bytes-total = (h.summed, h.bounded)
