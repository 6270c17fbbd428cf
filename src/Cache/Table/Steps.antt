-- ===== src/Cache/Table/Steps.antt =====
-- What the steps of the caches do to the list of entries.
use mathlib.Core.Path.{subst}
use mathlib.Core.List.{map-append}
use gmeow.Base.{
  ℕ, ◌+◌, ◌<◌, suc, none, some, List, [], ◌∷◌, ◌++◌, ◌≡◌, ◌≢◌, refl, sym, ◌∙◌, ap, arith, length,
  Eq, All, All-split, All-zip, All-mono, All-map, All-unmap, Option-cases, inl, inr, lookup, Unique,
  lookup-insert, lookup-delete, length-insert, length-delete, insert-Unique, delete-Unique,
}
use gmeow.Cache.Links.{move_to_front, unlink}
use gmeow.Cache.Links.Chain.{last, last-append}
use gmeow.Cache.Links.Steps.{
  IsLinked, no_links-IsLinked, push_front-IsLinked, unlink-IsLinked, move_to_front-IsLinked,
}
use gmeow.Cache.Table.{
  Table, empty_table, write, touch, set_value, insert_new, drop_node, remove_node, remove_tail_at,
  remove_tail,
}
use gmeow.Cache.Table.Entries.{
  Entry, nodes, view, node_of, without, UniqueKeys, node_of-without, without-UniqueKeys,
  without-All, find, node_of_last, length-without,
}

module _ {K V : Type 0} where
  nodes-append : (xs ys : List (Entry K V)) → nodes (xs ++ ys) ≡ nodes xs ++ nodes ys
  nodes-append = map-append (λ e. e.0)

  abbrev pub Holds : Table K V → Entry K V → Type 0
  Holds t x = t.payload x.0 ≡ some (x.1, x.2)

module _ {K V : Type 0} ⦃e : Eq K⦄ where
  -- The links, the nodes and the map of a table hold exactly these entries, in this order.
  pub record IsTable (t : Table K V) (es : List (Entry K V)) : Type 0 where
    pub linked : IsLinked t.links (nodes es)
    pub payloads : All (Holds t) es
    pub index : (k : K) → lookup k t.items ≡ node_of k es
    pub keys : UniqueKeys es
    pub unique : Unique t.items
    pub size : length t.items ≡ length es
    pub below : All (λ x. x.0 < t.fresh) es

  pub empty-IsTable : IsTable empty_table []
  unfolding lookup node_of
  empty-IsTable = record {
    linked = no_links-IsLinked;
    payloads = tt;
    index = λ k. refl;
    keys = tt;
    unique = tt;
    size = refl;
    below = tt;
  }

  module _ (t : Table K V) (es : List (Entry K V)) (k : K) where
    -- The nodes around that of a key.
    around :
        (a : ℕ)
        → IsTable t es
        → node_of k es ≡ some a
        → (xs : List ℕ) × (ys : List ℕ) × (v : V) × IsLinked t.links (xs ++ a ∷ ys)
          × (xs ++ ys ≡ nodes (without k es))
          × Holds t (a, k, v)
          × (a < t.fresh)
          × (lookup k (view es) ≡ some v)
    around a h f =
        let (before, v, after, here, left, seen) = find k a es h.keys f in
        let split =
          All-split (Holds t) before ((a, k, v) ∷ after) (subst (All (Holds t)) here h.payloads) in
        let low =
          All-split (λ x. x.0 < t.fresh) before ((a, k, v) ∷ after)
            (subst (All (λ x. x.0 < t.fresh)) here h.below) in
        (
          nodes before,
          nodes after,
          v,
          subst (IsLinked t.links) (ap nodes here ∙ nodes-append before ((a, k, v) ∷ after))
              h.linked,
          sym (ap nodes left ∙ nodes-append before after),
          split.1.0,
          low.1.0,
          seen,
        )

    -- moveToFront of the node of a key.
    pub touch-IsTable :
        (a : ℕ)
        → IsTable t es
        → node_of k es ≡ some a
        → (v : V) × Holds t (a, k, v)
          × (lookup k (view es) ≡ some v)
          × IsTable (touch t a) ((a, k, v) ∷ without k es)
    unfolding touch node_of
    touch-IsTable a h f =
        let (xs, ys, v, linked, others, held, low, seen) = around a h f in
        (
          v,
          held,
          seen,
          record {
            linked =
                subst (λ zs. IsLinked (move_to_front t.links a) (a ∷ zs)) others
                  (move_to_front-IsLinked t.links a xs ys linked);
            payloads = (held, without-All (Holds t) k es h.payloads);
            index = λ j. ground (arith, h.index j, node_of-without k j es, e.beq_iff k j);
            keys = (
              ground (arith, node_of-without k k es, e.beq_iff k k),
              without-UniqueKeys k es h.keys,
            );
            unique = h.unique;
            size = omega (arith, h.size, length-without k a es h.keys f);
            below = (low, without-All (λ x. x.0 < t.fresh) k es h.below);
          },
        )

    -- unlink of the node of a key, and its deletion from the map.
    pub drop_node-IsTable :
        (a : ℕ) → IsTable t es → node_of k es ≡ some a → IsTable (drop_node t a k) (without k es)
    unfolding drop_node
    drop_node-IsTable a h f =
        let (xs, ys, v, linked, others, held, low, seen) = around a h f in
        record {
          linked =
              subst (IsLinked (unlink t.links a)) others (unlink-IsLinked t.links a xs ys linked);
          payloads = without-All (Holds t) k es h.payloads;
          index = λ j. ground (arith, h.index j, node_of-without k j es, lookup-delete k j t.items);
          keys = without-UniqueKeys k es h.keys;
          unique = delete-Unique k t.items h.unique;
          size = omega (
            arith,
            h.size,
            length-without k a es h.keys f,
            length-delete k t.items {v = a} h.unique (h.index k ∙ f),
          );
          below = without-All (λ x. x.0 < t.fresh) k es h.below;
        }

    -- A new node for a key that has none.
    pub insert_new-IsTable :
        (v : V)
        → IsTable t es
        → node_of k es ≡ none
        → IsTable (insert_new t k v) ((t.fresh, k, v) ∷ es)
    unfolding insert_new node_of
    insert_new-IsTable v h f = record {
      linked = push_front-IsLinked t.links t.fresh (nodes es) h.linked (
          All-map (λ b. b ≢ t.fresh) (λ x. x.0) es
            (All-mono (λ x. x.0 < t.fresh) (λ x. x.0 ≢ t.fresh) es (λ x lt. omega arith) h.below));
      payloads = (
        ground arith,
        All-zip (Holds t) (λ x. x.0 < t.fresh) (Holds (insert_new t k v)) es
            (λ x p lt. ground (arith, p, lt)) h.payloads h.below,
      );
      index = λ j. ground (arith, h.index j, lookup-insert k j t.fresh t.items);
      keys = (f, h.keys);
      unique = insert-Unique k t.fresh t.items h.unique;
      size = length-insert k t.fresh t.items (h.index k ∙ f) ∙ ap suc h.size;
      below = (
        omega arith,
        All-mono (λ x. x.0 < t.fresh) (λ x. x.0 < t.fresh + 1) es (λ x lt. omega arith) h.below,
      );
    }

  -- `entry.value = value` at the first node.
  pub set_value-IsTable :
      (t : Table K V) (a : ℕ) (k : K) (v w : V) (es : List (Entry K V))
      → IsTable t ((a, k, v) ∷ es)
      → IsTable (set_value t a w) ((a, k, w) ∷ es)
  unfolding set_value node_of
  set_value-IsTable t a k v w es h =
      rw (h.payloads.0, set_value)
        (record {
          linked = h.linked;
          payloads = (
            ground arith,
            All-zip (Holds t) (λ x. x.0 ≢ a) (λ x. write t.payload a (k, w) x.0 ≡ some (x.1, x.2))
                es (λ x p n. ground (arith, p, n)) h.payloads.1
                (All-unmap (λ b. b ≢ a) (λ x. x.0) es h.linked.distinct.0),
          );
          index = h.index;
          keys = h.keys;
          unique = h.unique;
          size = h.size;
          below = h.below;
        })

  pub touch-set_value :
      (t : Table K V) (a : ℕ) (w : V) → touch (set_value t a w) a ≡ set_value (touch t a) a w
  unfolding touch set_value
  touch-set_value t a w = elim (Option-cases (t.payload a)) [
    | inl none_there ↦ ground (arith, none_there)
    | inr (x, there) ↦ ground (arith, there)
  ]

  pub remove_tail_empty : (t : Table K V) → IsTable t [] → remove_tail t ≡ (t, none)
  unfolding remove_tail
  remove_tail_empty t h = ap (remove_tail_at t) h.linked.back

  pub tail_last :
      (t : Table K V) (es : List (Entry K V)) (x : Entry K V)
      → IsTable t (es ++ x ∷ [])
      → t.links.tail ≡ some x.0
  tail_last t es x h =
      h.linked.back
      ∙ ap (last none) (nodes-append es (x ∷ []))
      ∙ last-append (nodes es) (x.0 ∷ []) none

  -- removeTail takes the least recently used entry out of the links and the map.
  pub remove_tail_last :
      (t : Table K V) (es : List (Entry K V)) (a : ℕ) (k : K) (v : V)
      → IsTable t (es ++ (a, k, v) ∷ [])
      → (remove_tail t ≡ (drop_node t a k, some (k, v))) × IsTable (drop_node t a k) es
  unfolding remove_tail
  remove_tail_last t es a k v h =
      let (found, left) = node_of_last es a k v h.keys in
      let held = (All-split (Holds t) es ((a, k, v) ∷ []) h.payloads).1.0 in
      let back = tail_last t es (a, k, v) h in
      (
        ap (remove_tail_at t) back ∙ ap (remove_node t a) held,
        subst (IsTable (drop_node t a k)) left
            (drop_node-IsTable t (es ++ (a, k, v) ∷ []) k a h found),
      )
