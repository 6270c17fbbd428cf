-- ===== src/Cache/Lru/Trim.antt =====
-- The eviction of the last entry of a full `LRU` (internal/cache/lru.go), and lists cut off at a length.
use mathlib.Core.Path.{subst}
use mathlib.Core.List.{map-append}
use gmeow.Base.{
  ℕ, zero, suc, ◌+◌, ◌≤◌, List, [], ◌∷◌, ◌++◌, ◌≡◌, refl, sym, ◌∙◌, ap, arith, length,
  length-append, ltb, ltb→lt, if◌then◌else◌, Eq, false, Bool-cases, inl, inr,
}
use gmeow.Cache.Table.{Table, remove_tail}
use gmeow.Cache.Table.Entries.{Entry, view}
use gmeow.Cache.Table.Steps.{IsTable, remove_tail_last}
use gmeow.Cache.Lru.Spec.{take}

pub ltb-false : (a b : ℕ) → ltb a b ≡ false → b ≤ a
ltb-false a b h = ground arith

pub length-view : {K V : Type 0} (es : List (Entry K V)) → length (view es) ≡ length es
length-view [] = refl
length-view (x ∷ es) = ap suc (length-view es)

-- A list with an element has a last one.
pub snoc : {A : Type 0} (x : A) (xs : List A) → (ys : List A) × (y : A) × (x ∷ xs ≡ ys ++ y ∷ [])
snoc x [] = ([], x, refl)
snoc x (z ∷ xs) = let (ys, y, e) = snoc z xs in (x ∷ ys, y, ap (◌∷◌ x) e)

pub take_front : {A : Type 0} (xs ys : List A) (n : ℕ) → length xs ≡ n → take n (xs ++ ys) ≡ xs
take_front [] ys n h = subst (λ m. take m ys ≡ []) h refl
take_front (x ∷ xs) ys n h =
    subst (λ m. take m (x ∷ (xs ++ ys)) ≡ x ∷ xs) h (ap (◌∷◌ x) (take_front xs ys (length xs) refl))

pub take_all : {A : Type 0} (n : ℕ) (xs : List A) → length xs ≤ n → take n xs ≡ xs
take_all zero [] h = refl
take_all (suc n) [] h = refl
take_all zero (x ∷ xs) h = absurd (omega arith)
take_all (suc n) (x ∷ xs) h = ap (◌∷◌ x) (take_all n xs (omega arith))

module _ {K V : Type 0} ⦃e : Eq K⦄ where
  -- `if len(c.items) > capacity { c.removeTail() }`, where at most one entry is too many.
  pub trim :
      (top : ℕ) (t : Table K V) (es : List (Entry K V))
      → IsTable t es
      → length es ≤ top + 1
      → (es' : List (Entry K V)) × IsTable
          (if ltb top (length t.items) then (remove_tail t).0 else t)
          es'
        × (view es' ≡ take top (view es))
        × (length es' ≤ top)
  trim top t [] h fits =
      let room : ltb top (length t.items) ≡ false = ground (arith, h.size) in
      rw room ([], h, sym (take_all {A = K × V} top [] (omega arith)), omega arith)
  trim top t (x ∷ xs) h fits = elim (Bool-cases (ltb top (length t.items))) [
    | inl full ↦
        let (ys, y, e) = snoc x xs in
        let (removed, kept) = remove_tail_last t ys y.0 y.1 y.2 (subst (IsTable t) e h) in
        let long : length ys + 1 ≡ length (x ∷ xs) =
          omega (arith, ap length e, length-append {0} ys (y ∷ [])) in
        let exact : length ys ≡ top =
          omega (arith, long, h.size, fits, ltb→lt top (length t.items) full) in
        rw full (
          ys,
          subst (λ r. IsTable r.0 ys) (sym removed) kept,
          sym (
              ap (λ z. take top (view z)) e
              ∙ ap (take top) (map-append (λ z. (z.1, z.2)) ys (y ∷ []))
              ∙ take_front (view ys) (view (y ∷ [])) top (length-view ys ∙ exact)),
          omega (arith, long, fits),
        )
    | inr room ↦ rw room (
      x ∷ xs,
      h,
      sym (
          take_all top (view (x ∷ xs))
            (omega (arith, length-view (x ∷ xs), h.size, ltb-false top (length t.items) room))),
      ground (arith, h.size),
    )
  ]
