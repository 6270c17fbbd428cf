-- ===== src/Cache/Table/Entries.antt =====
-- The entries of a cache as a list, most recently used first: the node, the key, the value.
use gmeow.Base.{
  ℕ, ◌+◌, Option, none, some, List, [], ◌∷◌, ◌++◌, ◌≡◌, refl, arith, map, length, length-append,
  if◌then◌else◌, Eq, lookup, delete, All, Bool-cases, inl, inr,
}

abbrev pub Entry : Type 0 → Type 0 → Type 0
Entry K V = ℕ × K × V

module _ {K V : Type 0} where
  abbrev pub nodes : List (Entry K V) → List ℕ
  nodes = map (λ e. e.0)

  -- The cache that a caller sees.
  abbrev pub view : List (Entry K V) → List (K × V)
  view = map (λ e. (e.1, e.2))

  module _ ⦃e : Eq K⦄ where
    unfoldable pub node_of : K → List (Entry K V) → Option ℕ
    node_of k [] = none
    node_of k ((a, j, v) ∷ es) = if e.beq j k then some a else node_of k es

    -- The list without the entries of a key.
    unfoldable pub without : K → List (Entry K V) → List (Entry K V)
    without k [] = []
    without k ((a, j, v) ∷ es) =
        let rest = without k es in if e.beq j k then rest else (a, j, v) ∷ rest

    abbrev pub UniqueKeys : List (Entry K V) → Type 0
    UniqueKeys [] = Unit
    UniqueKeys ((_, j, _) ∷ es) = (node_of j es ≡ none) × UniqueKeys es

    pub node_of-without :
        (k j : K) (es : List (Entry K V))
        → node_of j (without k es) ≡ (if e.beq k j then none else node_of j es)
    unfolding node_of without
    node_of-without k j [] = ground arith
    node_of-without k j ((a, i, v) ∷ es) =
        ground (arith, e.beq_iff k j, e.beq_iff i k, e.beq_iff i j, node_of-without k j es)

    pub without_absent : (k : K) (es : List (Entry K V)) → node_of k es ≡ none → without k es ≡ es
    unfolding node_of without
    without_absent k [] h = refl
    without_absent k ((a, i, v) ∷ es) h = ground (arith, without_absent k es)

    pub without-UniqueKeys :
        (k : K) (es : List (Entry K V)) → UniqueKeys es → UniqueKeys (without k es)
    unfolding without
    without-UniqueKeys k [] u = tt
    without-UniqueKeys k ((a, i, v) ∷ es) u =
        ground (arith, without-UniqueKeys k es u.1, node_of-without k i es)

    pub without-All :
        (P : Entry K V → Type 0) (k : K) (es : List (Entry K V)) → All P es → All P (without k es)
    unfolding without
    without-All P k [] h = tt
    without-All P k ((a, i, v) ∷ es) h = elim (Bool-cases (e.beq i k)) [
      | inl t ↦ rw (t, without) (without-All P k es h.1)
      | inr t ↦ rw (t, without) (h.0, without-All P k es h.1)
    ]

    -- Where the node of a key stands.
    abbrev pub Found : K → ℕ → List (Entry K V) → Type 0
    Found k a es =
        (before : List (Entry K V)) × (v : V) × (after : List (Entry K V)) × (es
          ≡ before ++ (a, k, v) ∷ after)
        × (without k es ≡ before ++ after)
        × (lookup k (view es) ≡ some v)

    pub find :
        (k : K) (a : ℕ) (es : List (Entry K V))
        → UniqueKeys es
        → node_of k es ≡ some a
        → Found k a es
    unfolding node_of without lookup
    find k a [] u h = absurd (ground (arith, h))
    find k a ((b, i, w) ∷ es) u h = elim (Bool-cases (e.beq i k)) [
      | inl t ↦ (
        [],
        w,
        es,
        ground (arith, e.beq_iff i k),
        ground (arith, e.beq_iff i k, without_absent k es),
        ground (arith, e.beq_iff i k),
      )
      | inr t ↦
          let (before, v, after, here, left, seen) = find k a es u.1 (ground arith) in
          ((b, i, w) ∷ before, v, after, rw here, rw (t, without) (rw left), rw (t, lookup) seen)
    ]

    -- The entry of a key that no entry in front of it has is the one that is found.
    pub node_of_last :
        (es : List (Entry K V)) (a : ℕ) (k : K) (v : V)
        → UniqueKeys (es ++ (a, k, v) ∷ [])
        → (node_of k (es ++ (a, k, v) ∷ []) ≡ some a) × (without k (es ++ (a, k, v) ∷ []) ≡ es)
    unfolding node_of without
    node_of_last [] a k v u = (ground (arith, e.beq_iff k k), ground (arith, e.beq_iff k k))
    node_of_last ((b, i, w) ∷ es) a k v u =
        let (found, left) = node_of_last es a k v u.1 in
        (ground (arith, e.beq_iff i k), ground (arith, e.beq_iff i k))

    pub length-without :
        (k : K) (a : ℕ) (es : List (Entry K V))
        → UniqueKeys es
        → node_of k es ≡ some a
        → length (without k es) + 1 ≡ length es
    length-without k a es u h =
        let (before, v, after, here, left, seen) = find k a es u h in
        rw (left, here)
          (omega
            (arith, length-append {0} before after, length-append {0} before ((a, k, v) ∷ after)))

    pub lookup-view_absent :
        (k : K) (es : List (Entry K V)) → node_of k es ≡ none → lookup k (view es) ≡ none
    unfolding node_of lookup
    lookup-view_absent k [] h = refl
    lookup-view_absent k ((a, i, v) ∷ es) h = ground (arith, lookup-view_absent k es)

    pub view-without : (k : K) (es : List (Entry K V)) → view (without k es) ≡ delete k (view es)
    unfolding without delete
    view-without k [] = refl
    view-without k ((a, i, v) ∷ es) = ground (arith, view-without k es)
