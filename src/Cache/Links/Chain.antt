-- ===== src/Cache/Links/Chain.antt =====
-- Segments of the linked list, and what a write to a node outside of one or at its ends does to it.
use mathlib.Core.Path.{subst}
use gmeow.Base.{
  ℕ, Option, none, some, List, [], ◌∷◌, ◌++◌, ◌≡◌, ◌≢◌, refl, sym, ◌∙◌, arith, All-append,
  All-split, All,
}
use gmeow.Cache.Links.{update, update?}

abbrev pub Absent : ℕ → List ℕ → Type 0
Absent a = All (λ b. b ≢ a)

abbrev pub Distinct : List ℕ → Type 0
Distinct [] = Unit
Distinct (a ∷ xs) = Absent a xs × Distinct xs

-- The first node of a list, or what stands behind it; the last one, or what stands in front of it.
abbrev pub first : List ℕ → Option ℕ → Option ℕ
first [] q = q
first (a ∷ _) q = some a

abbrev pub last : Option ℕ → List ℕ → Option ℕ
last p [] = p
last p (a ∷ xs) = last (some a) xs

-- The nodes `xs` are linked both ways, `p` stands in front of them and `q` behind them.
abbrev pub Chain : (ℕ → Option ℕ) → (ℕ → Option ℕ) → Option ℕ → List ℕ → Option ℕ → Type 0
Chain prev next p [] q = Unit
Chain prev next p (a ∷ xs) q = (prev a ≡ p) × (next a ≡ first xs q) × Chain prev next (some a) xs q

pub first-append : (xs ys : List ℕ) (q : Option ℕ) → first (xs ++ ys) q ≡ first xs (first ys q)
first-append [] ys q = refl
first-append (a ∷ xs) ys q = refl

pub last-append : (xs ys : List ℕ) (p : Option ℕ) → last p (xs ++ ys) ≡ last (last p xs) ys
last-append [] ys p = refl
last-append (a ∷ xs) ys p = last-append xs ys (some a)

last-ne : (a b x : ℕ) (xs : List ℕ) → last (some x) xs ≡ some b → Absent a (x ∷ xs) → b ≢ a
last-ne a b x [] e h = ground (arith, h.0)
last-ne a b x (y ∷ ys) e h = last-ne a b y ys e h.1

pub last-some : (a : ℕ) (xs : List ℕ) → (b : ℕ) × (last (some a) xs ≡ some b)
last-some a [] = (a, refl)
last-some a (x ∷ xs) = last-some x xs

pub Distinct-split :
    (xs ys : List ℕ) (a : ℕ)
    → Distinct (xs ++ a ∷ ys)
    → Absent a xs × Absent a ys × Distinct (xs ++ ys)
Distinct-split [] ys a d = (tt, d.0, d.1)
Distinct-split (x ∷ xs) ys a d =
    let (left, right, both) = Distinct-split xs ys a d.1 in
    let (near, far) = All-split (λ b. b ≢ x) xs (a ∷ ys) d.0 in
    ((λ e. far.0 (sym e), left), right, (All-append (λ b. b ≢ x) xs ys near far.1, both))

module _ (prev next : ℕ → Option ℕ) where
  pub Chain-prev :
      (a : ℕ) (v p : Option ℕ) (xs : List ℕ) (q : Option ℕ)
      → Absent a xs
      → Chain prev next p xs q
      → Chain (update prev a v) next p xs q
  Chain-prev a v p [] q h c = tt
  Chain-prev a v p (b ∷ xs) q h c = (ground (arith, h.0), c.1, Chain-prev a v (some b) xs q h.1 c.2)

  pub Chain-next :
      (a : ℕ) (v p : Option ℕ) (xs : List ℕ) (q : Option ℕ)
      → Absent a xs
      → Chain prev next p xs q
      → Chain prev (update next a v) p xs q
  Chain-next a v p [] q h c = tt
  Chain-next a v p (b ∷ xs) q h c = (c.0, ground (arith, h.0), Chain-next a v (some b) xs q h.1 c.2)

  -- Pointing the first node back at another one.
  pub Chain-front :
      (a : ℕ) (p p' : Option ℕ) (xs : List ℕ) (q : Option ℕ)
      → Absent a xs
      → Chain prev next p (a ∷ xs) q
      → Chain (update prev a p') next p' (a ∷ xs) q
  Chain-front a p p' xs q h c = (ground arith, c.1, Chain-prev a p' (some a) xs q h c.2)

  pub Chain-split :
      (p : Option ℕ) (xs ys : List ℕ) (q : Option ℕ)
      → Chain prev next p (xs ++ ys) q
      → Chain prev next p xs (first ys q) × Chain prev next (last p xs) ys q
  Chain-split p [] ys q c = (tt, c)
  Chain-split p (a ∷ xs) ys q c =
      let (left, right) = Chain-split (some a) xs ys q c.2 in
      ((c.0, c.1 ∙ first-append xs ys q, left), right)

  pub Chain-join :
      (p : Option ℕ) (xs ys : List ℕ) (q : Option ℕ)
      → Chain prev next p xs (first ys q)
      → Chain prev next (last p xs) ys q
      → Chain prev next p (xs ++ ys) q
  Chain-join p [] ys q left right = right
  Chain-join p (a ∷ xs) ys q left right =
      (left.0, left.1 ∙ sym (first-append xs ys q), Chain-join (some a) xs ys q left.2 right)

  -- Pointing the last node on to another one.
  pub Chain-back :
      (a b : ℕ) (p : Option ℕ) (xs : List ℕ) (q q' : Option ℕ)
      → Distinct (a ∷ xs)
      → last (some a) xs ≡ some b
      → Chain prev next p (a ∷ xs) q
      → Chain prev (update next b q') p (a ∷ xs) q'
  Chain-back a b p [] q q' d e c = (c.0, ground arith, tt)
  Chain-back a b p (x ∷ xs) q q' d e c =
      (c.0, ground (arith, last-ne a b x xs e d.0, c.1), Chain-back x b (some a) xs q q' d.1 e c.2)

abbrev pub Absent? : Option ℕ → List ℕ → Type 0
Absent? none xs = Unit
Absent? (some a) xs = Absent a xs

first-Absent : (xs ys : List ℕ) → Distinct (xs ++ ys) → Absent? (first ys none) xs
first-Absent xs [] d = tt
first-Absent xs (y ∷ ys) d = (Distinct-split xs ys y d).0

last-Absent :
    (p : Option ℕ) (xs ys : List ℕ) → Absent? p ys → Distinct (xs ++ ys) → Absent? (last p xs) ys
last-Absent p [] ys h d = h
last-Absent p (x ∷ xs) ys h d = last-Absent (some x) xs ys (All-split (λ b. b ≢ x) xs ys d.0).1 d.1

Distinct-append : (xs ys : List ℕ) → Distinct (xs ++ ys) → Distinct xs × Distinct ys
Distinct-append [] ys d = (tt, d)
Distinct-append (x ∷ xs) ys d =
    let (left, right) = Distinct-append xs ys d.1 in
    (((All-split (λ b. b ≢ x) xs ys d.0).0, left), right)

module _ (prev next : ℕ → Option ℕ) where
  Chain-prev? :
      (o v p : Option ℕ) (xs : List ℕ) (q : Option ℕ)
      → Absent? o xs
      → Chain prev next p xs q
      → Chain (update? prev o v) next p xs q
  Chain-prev? none v p xs q h c = c
  Chain-prev? (some a) v p xs q h c = Chain-prev prev next a v p xs q h c

  Chain-next? :
      (o v p : Option ℕ) (xs : List ℕ) (q : Option ℕ)
      → Absent? o xs
      → Chain prev next p xs q
      → Chain prev (update? next o v) p xs q
  Chain-next? none v p xs q h c = c
  Chain-next? (some a) v p xs q h c = Chain-next prev next a v p xs q h c

  pub Chain-front? :
      (p p' : Option ℕ) (xs : List ℕ) (q : Option ℕ)
      → Distinct xs
      → Chain prev next p xs q
      → Chain (update? prev (first xs none) p') next p' xs q
  Chain-front? p p' [] q d c = tt
  Chain-front? p p' (x ∷ xs) q d c = Chain-front prev next x p p' xs q d.0 c

  Chain-back? :
      (xs : List ℕ) (q q' : Option ℕ)
      → Distinct xs
      → Chain prev next none xs q
      → Chain prev (update? next (last none xs) q') none xs q'
  Chain-back? [] q q' d c = tt
  Chain-back? (x ∷ xs) q q' d c =
      let (b, e) = last-some x xs in
      subst (λ o. Chain prev (update? next o q') none (x ∷ xs) q') (sym e)
        (Chain-back prev next x b none xs q q' d e c)

-- Taking the node `a` out: its neighbours are pointed at one another.
pub Chain-remove :
    (prev next : ℕ → Option ℕ) (a : ℕ) (xs ys : List ℕ)
    → Distinct (xs ++ a ∷ ys)
    → Chain prev next none (xs ++ a ∷ ys) none
    → (prev a ≡ last none xs)
      × (next a ≡ first ys none)
      × Chain
          (update? prev (first ys none) (last none xs))
          (update? next (last none xs) (first ys none))
          none
          (xs ++ ys)
          none
Chain-remove prev next a xs ys d c =
    let (left, right) = Chain-split prev next none xs (a ∷ ys) none c in
    let both = (Distinct-split xs ys a d).2 in
    let (dx, dy) = Distinct-append xs ys both in
    let f = first ys none in
    let l = last none xs in
    (
      right.0,
      right.1,
      Chain-join (update? prev f l) (update? next l f) none xs ys none
          (Chain-prev? prev (update? next l f) f l none xs f (first-Absent xs ys both)
            (Chain-back? prev next xs (some a) f dx left))
          (Chain-next? (update? prev f l) next l f l ys none (last-Absent none xs ys tt both)
            (Chain-front? prev next (some a) l ys none dy right.2)),
    )
