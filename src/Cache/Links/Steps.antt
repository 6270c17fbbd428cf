-- ===== src/Cache/Links/Steps.antt =====
-- What the pointer operations of the caches do to a well-linked list of nodes.
use mathlib.Core.Path.{subst}
use gmeow.Base.{
  Bool-cases, inl, inr, sym, ◌∙◌, ℕ, Option, none, some, List, [], ◌∷◌, ◌++◌, ◌≡◌, ◌≢◌, refl, arith,
  ◌==◌, All-append,
}
use gmeow.Cache.Links.{Links, no_links, update, update?, push_front, unlink, move_to_front}
use gmeow.Cache.Links.Chain.{
  Absent, Distinct, first, last, Chain, last-append, last-some, Distinct-split, Chain-prev,
  Chain-next, Chain-front?, Chain-remove,
}

-- The list holds exactly the nodes `xs`, in this order, linked both ways and each once.
pub record IsLinked (c : Links) (xs : List ℕ) : Type 0 where
  pub front : c.head ≡ first xs none
  pub back : c.tail ≡ last none xs
  pub chain : Chain c.prev c.next none xs none
  pub distinct : Distinct xs

pub no_links-IsLinked : IsLinked no_links []
no_links-IsLinked = record { front = refl; back = refl; chain = tt; distinct = tt }

push_front-Chain :
    (prev next : ℕ → Option ℕ) (a : ℕ) (xs : List ℕ)
    → Absent a xs
    → Distinct xs
    → Chain prev next none xs none
    → Chain
        (update? (update prev a none) (first xs none) (some a))
        (update next a (first xs none))
        none
        (a ∷ xs)
        none
push_front-Chain prev next a xs n d c = (
  here xs n,
  ground arith,
  Chain-front? (update prev a none) (update next a (first xs none)) none (some a) xs none d (
      Chain-prev prev (update next a (first xs none)) a none none xs none n
        (Chain-next prev next a (first xs none) none xs none n c)),
)
  where
    here :
        (ys : List ℕ) → Absent a ys → update? (update prev a none) (first ys none) (some a) a ≡ none
    here [] m = ground arith
    here (y ∷ ys) m = ground (arith, m.0)

-- pushFront of a node that is not in the list puts it in front.
pub push_front-IsLinked :
    (c : Links) (a : ℕ) (xs : List ℕ)
    → IsLinked c xs
    → Absent a xs
    → IsLinked (push_front c a) (a ∷ xs)
unfolding push_front
push_front-IsLinked c a xs h n = record {
  front = refl;
  back = tail_of xs h.back;
  chain =
      subst
        (λ o.
          Chain (update? (update c.prev a none) o (some a)) (update c.next a o) none (a ∷ xs) none)
        (sym h.front) (push_front-Chain c.prev c.next a xs n h.distinct h.chain);
  distinct = (n, h.distinct);
}
  where
    tail_of : (ys : List ℕ) → c.tail ≡ last none ys → (push_front c a).tail ≡ last (some a) ys
    tail_of [] e = ground arith
    tail_of (y ∷ ys) e = let (b, f) = last-some y ys in ground (arith, f)

-- The fields that unlink leaves, by the two pointers of the node.
unlink_fields :
    (c : Links) (a : ℕ) (p n : Option ℕ)
    → c.prev a ≡ p
    → c.next a ≡ n
    → unlink c a ≡ record {
      head = elim p [ none ↦ n | some _ ↦ c.head ];
      tail = elim n [ none ↦ p | some _ ↦ c.tail ];
      prev = update (update? c.prev n p) a none;
      next = update (update? c.next p n) a none;
    }
unfolding unlink
unlink_fields c a none none e f = rw (e, f, unlink) (rw e)
unlink_fields c a none (some n) e f = rw (e, f, unlink) (rw e)
unlink_fields c a (some p) none e f = elim (Bool-cases (p == a)) [
  | inl t ↦ rw (e, t, f, unlink) (rw e)
  | inr t ↦ rw (e, t, f, unlink) (rw e)
]
unlink_fields c a (some p) (some n) e f = ground (arith, e, f)

head_after :
    (c : Links) (a : ℕ) (xs ys : List ℕ)
    → IsLinked c (xs ++ a ∷ ys)
    → elim (last none xs) [ none ↦ first ys none | some _ ↦ c.head ] ≡ first (xs ++ ys) none
head_after c a [] ys h = refl
head_after c a (x ∷ xs) ys h = let (b, e) = last-some x xs in rw e h.front

tail_after :
    (c : Links) (a : ℕ) (xs ys : List ℕ)
    → IsLinked c (xs ++ a ∷ ys)
    → elim (first ys none) [ none ↦ last none xs | some _ ↦ c.tail ] ≡ last none (xs ++ ys)
tail_after c a xs [] h = sym (last-append xs [] none)
tail_after c a xs (y ∷ ys) h =
    h.back ∙ last-append xs (a ∷ y ∷ ys) none ∙ sym (last-append xs (y ∷ ys) none)

-- unlink of a node takes it out of the list and keeps the others in order.
pub unlink-IsLinked :
    (c : Links) (a : ℕ) (xs ys : List ℕ)
    → IsLinked c (xs ++ a ∷ ys)
    → IsLinked (unlink c a) (xs ++ ys)
unlink-IsLinked c a xs ys h =
    let (pe, ne, ch) = Chain-remove c.prev c.next a xs ys h.distinct h.chain in
    let (ax, ay, both) = Distinct-split xs ys a h.distinct in
    let gone = All-append (λ b. b ≢ a) xs ys ax ay in
    let f = first ys none in
    let l = last none xs in
    rw (unlink_fields c a l f pe ne) (record {
      front = head_after c a xs ys h;
      back = tail_after c a xs ys h;
      chain =
          Chain-prev (update? c.prev f l) (update (update? c.next l f) a none) a none none
            (xs ++ ys) none gone
            (Chain-next (update? c.prev f l) (update? c.next l f) a none none (xs ++ ys) none gone
              ch);
      distinct = both;
    })

front_stays : (c : Links) (a : ℕ) → c.head ≡ some a → move_to_front c a ≡ c
unfolding move_to_front
front_stays c a e = ground (arith, e)

others_move :
    (c : Links) (a x : ℕ) → c.head ≡ some x → x ≢ a → move_to_front c a ≡ push_front (unlink c a) a
unfolding move_to_front
others_move c a x e n = ground (arith, e)

-- moveToFront of a node of the list takes it to the front and keeps the others in order.
pub move_to_front-IsLinked :
    (c : Links) (a : ℕ) (xs ys : List ℕ)
    → IsLinked c (xs ++ a ∷ ys)
    → IsLinked (move_to_front c a) (a ∷ xs ++ ys)
move_to_front-IsLinked c a [] ys h = rw (front_stays c a h.front) h
move_to_front-IsLinked c a (x ∷ xs) ys h =
    let (ax, ay, both) = Distinct-split (x ∷ xs) ys a h.distinct in
    rw (others_move c a x h.front ax.0) (
      push_front-IsLinked (unlink c a) a ((x ∷ xs) ++ ys) (unlink-IsLinked c a (x ∷ xs) ys h)
        (All-append (λ b. b ≢ a) (x ∷ xs) ys ax ay))
