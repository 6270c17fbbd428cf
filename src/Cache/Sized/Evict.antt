-- ===== src/Cache/Sized/Evict.antt =====
-- The eviction of `SizedLRU` (internal/cache/sized.go): its loop ends within the budget and keeps the front of
-- the list.
use mathlib.Core.Path.{subst}
use mathlib.Core.List.{map-append}
use gmeow.Base.{
  ℕ, zero, suc, ◌+◌, ◌≤◌, ◌<◌, true, false, ◌&&◌, Option, some, List, [], ◌∷◌, ◌++◌, ◌≡◌, refl, sym,
  ◌∙◌, ap, arith, length, length-append, ltb, ltb→lt, Eq, Bool-cases, inl, inr,
}
use gmeow.Cache.Table.{Table, drop_node, remove_tail}
use gmeow.Cache.Table.Entries.{Entry, view}
use gmeow.Cache.Table.Steps.{IsTable, empty-IsTable, remove_tail_last, tail_last}
use gmeow.Cache.Lru.Trim.{snoc}
use gmeow.Cache.Sized.{Bytes, Sized, new_sized, evict, evict_to_fit, drop_tail, is_some}
use gmeow.Cache.Sized.Spec.{total, within, within_all, within_last, total-append, total-within}

module _ {K : Type 0} ⦃e : Eq K⦄ where
  -- The cache stands for the entries, and the byte count for their sizes.
  pub record Sums (c : Sized K) (es : List (Entry K Bytes)) : Type 0 where
    pub table : IsTable c.table es
    pub summed : c.cur_bytes ≡ total (view es)

  evict_done :
      (fuel : ℕ) (c : Sized K)
      → (ltb c.max_bytes c.cur_bytes && is_some c.table.links.tail) ≡ false
      → evict fuel c ≡ c
  unfolding evict
  evict_done zero c h = refl
  evict_done (suc fuel) c h = ground (arith, h)

  evict_more :
      (fuel : ℕ) (c : Sized K) (r : Table K Bytes × Option (K × Bytes))
      → (ltb c.max_bytes c.cur_bytes && is_some c.table.links.tail) ≡ true
      → remove_tail c.table ≡ r
      → evict (suc fuel) c ≡ evict fuel (drop_tail c r)
  unfolding evict
  evict_more fuel c r h p = ground (arith, h, p)

  drop_tail-max :
      (c : Sized K) (r : Table K Bytes × Option (K × Bytes))
      → (drop_tail c r).max_bytes ≡ c.max_bytes
  unfolding drop_tail
  drop_tail-max c r = ground arith

  -- With a round for each entry the loop ends within the budget, and keeps the front of the list.
  evict-refines :
      (fuel : ℕ) (c : Sized K) (es : List (Entry K Bytes))
      → Sums c es
      → length es ≤ fuel
      → (es' : List (Entry K Bytes)) × Sums (evict fuel c) es'
        × (view es' ≡ within c.max_bytes (view es))
        × ((evict fuel c).max_bytes ≡ c.max_bytes)
  evict-refines zero c [] h n = unfold evict in ([], h, refl, refl)
  evict-refines zero c (x ∷ es) h n = absurd (omega arith)
  evict-refines (suc fuel) c [] h n =
      rw (evict_done (suc fuel) c (ground (arith, h.table.linked.back))) ([], h, refl, refl)
  evict-refines (suc fuel) c (x ∷ xs) h n = elim (Bool-cases (ltb c.max_bytes c.cur_bytes)) [
    | inl over ↦
        let (ys, y, p) = snoc x xs in
        let (removed, kept) =
          remove_tail_last c.table ys y.0 y.1 y.2 (subst (IsTable c.table) p h.table) in
        let seen : view (x ∷ xs) ≡ view ys ++ (y.1, y.2) ∷ [] =
          ap view p ∙ map-append (λ z. (z.1, z.2)) ys (y ∷ []) in
        let sum : c.cur_bytes ≡ total (view ys) + (length y.2 + 0) =
          h.summed ∙ ap total seen ∙ total-append (view ys) ((y.1, y.2) ∷ []) in
        let c' = drop_tail c (drop_node c.table y.0 y.1, some (y.1, y.2)) in
        let sums : Sums c' ys =
          unfold evict in record { table = kept; summed = omega (arith, sum) } in
        let short : length ys ≤ fuel =
          omega (arith, n, ap length p, length-append {0} ys (y ∷ [])) in
        let (es', s, shown, kept_max) = evict-refines fuel c' ys sums short in
        let tail = tail_last c.table ys y (subst (IsTable c.table) p h.table) in
        let go : (ltb c.max_bytes c.cur_bytes && is_some c.table.links.tail) ≡ true =
          ground (arith, over, tail) in
        let large : c.max_bytes < total (view ys ++ (y.1, y.2) ∷ []) =
          omega (arith, ltb→lt c.max_bytes c.cur_bytes over, h.summed, ap total seen) in
        let budget = drop_tail-max c (drop_node c.table y.0 y.1, some (y.1, y.2)) in
        rw (evict_more fuel c (drop_node c.table y.0 y.1, some (y.1, y.2)) go removed) (
          es',
          s,
          shown
              ∙ ap (λ n. within n (view ys)) budget
              ∙ sym (within_last c.max_bytes (view ys) (y.1, y.2) large)
              ∙ ap (within c.max_bytes) (sym seen),
          kept_max ∙ budget,
        )
    | inr fits ↦ rw (evict_done (suc fuel) c (ground (arith, fits))) (
      x ∷ xs,
      h,
      sym (within_all c.max_bytes (view (x ∷ xs)) (ground (arith, h.summed, fits))),
      refl,
    )
  ]

  -- The cache stands for the list `l`: its pointers, nodes and map hold exactly these pairs in this
  -- order, the byte count is the sum of their sizes, and it is within the budget.
  pub record IsSized (c : Sized K) (l : List (K × Bytes)) : Type 0 where
    pub entries : List (Entry K Bytes)
    pub table : IsTable c.table entries
    pub shown : view entries ≡ l
    pub summed : c.cur_bytes ≡ total l
    pub bounded : c.cur_bytes ≤ c.max_bytes

  pub new_sized-IsSized : (n : ℕ) → IsSized (new_sized n) []
  unfolding new_sized
  new_sized-IsSized n = record {
    entries = [];
    table = empty-IsTable;
    shown = refl;
    summed = refl;
    bounded = omega arith;
  }

  -- Where the byte count and the entries agree, the loop ends within the budget.
  pub evicted :
      (c : Sized K) (es : List (Entry K Bytes))
      → Sums c es
      → IsSized (evict_to_fit c) (within c.max_bytes (view es))
  unfolding evict_to_fit
  evicted c es h =
      let (es', s, shown, same) =
        evict-refines (length c.table.items) c es h (omega (arith, h.table.size)) in
      record {
        entries = es';
        table = s.table;
        shown = shown;
        summed = s.summed ∙ ap total shown;
        bounded = omega (arith, same, s.summed, ap total shown, total-within c.max_bytes (view es));
      }
