-- ===== src/Base/Assoc.antt =====
-- Comparable keys, and Go maps as association lists: a write replaces or adds, a deletion of a missing
-- key changes nothing, and a read of one gives `none`.
use Prim.Native.Nat.{ℕ, suc, ◌+◌}
use Prim.Native.String.{String}
use mathlib.Core.Path.{◌≡◌, refl, ap, ◌∙◌}
use mathlib.Core.Logic.{◌↔◌, ◌⊎◌, inl, inr}
use mathlib.Core.Bool.{Bool, true, false}
use mathlib.Core.List.{List, [], ◌∷◌}
use mathlib.Core.Option.{Option, none, some, some-injective}
use native.Mathlib.Omega.{arith}
use text.Mathlib.Text.{◌==◌ as str_eq}
use text.Mathlib.TextEquality.{eq_iff}
use gmeow.Base.Tests.{◌==◌, ==_iff, if◌then◌else◌}
use gmeow.Base.Lists.{length}

-- `comparable` of Go.
pub record Eq (A : Type 0) : Type 0 where
  pub beq : A → A → Bool
  pub beq_iff : (a b : A) → (beq a b ≡ true) ↔ (a ≡ b)

instance abbrev pub string_eq : Eq String
string_eq = record { beq = str_eq; beq_iff = eq_iff }

instance abbrev pub nat_eq : Eq ℕ
nat_eq = record { beq = ◌==◌; beq_iff = ==_iff }

module _ {V : Type 0} where
  choose_row :
      (b : Bool) (v w : V) (o : Option V)
      → (if b then some v else o) ≡ some w
      → ((b ≡ true) × (v ≡ w)) ⊎ ((b ≡ false) × (o ≡ some w))
  choose_row true v w o h = inl (refl, some-injective v w h)
  choose_row false v w o h = inr (refl, h)

  choose_none :
      (b : Bool) (v : V) (o : Option V)
      → (if b then some v else o) ≡ none
      → (b ≡ false) × (o ≡ none)
  choose_none true v o h = absurd (cc)
  choose_none false v o h = (refl, h)

module _ {K V : Type 0} ⦃e : Eq K⦄ where
  unfoldable pub lookup : K → List (K × V) → Option V
  lookup k [] = none
  lookup k ((j, v) ∷ m) = if e.beq j k then some v else lookup k m

  unfoldable pub insert : K → V → List (K × V) → List (K × V)
  insert k v [] = (k, v) ∷ []
  insert k v ((j, w) ∷ m) = if e.beq j k then (k, v) ∷ m else (j, w) ∷ insert k v m

  unfoldable pub delete : K → List (K × V) → List (K × V)
  delete k [] = []
  delete k ((j, w) ∷ m) = let rest = delete k m in if e.beq j k then rest else (j, w) ∷ rest

  -- A row that is found is the first one or one of the others.
  pub lookup_first :
      (k j : K) (v w : V) (m : List (K × V))
      → lookup k ((j, v) ∷ m) ≡ some w
      → ((j ≡ k) × (v ≡ w)) ⊎ ((e.beq j k ≡ false) × (lookup k m ≡ some w))
  unfolding lookup
  lookup_first k j v w m h = elim (choose_row (e.beq j k) v w (lookup k m) h) [
    | inl (same, row) ↦ inl ((e.beq_iff j k).0 same, row)
    | inr (differs, row) ↦ inr (differs, row)
  ]

  pub lookup-none :
      (k j : K) (v : V) (m : List (K × V))
      → lookup k ((j, v) ∷ m) ≡ none
      → (e.beq j k ≡ false) × (lookup k m ≡ none)
  unfolding lookup
  lookup-none k j v m h = choose_none (e.beq j k) v (lookup k m) h

  pub lookup-insert :
      (k j : K) (v : V) (m : List (K × V))
      → lookup j (insert k v m) ≡ (if e.beq k j then some v else lookup j m)
  unfolding lookup insert
  lookup-insert k j v [] = refl
  lookup-insert k j v ((i, w) ∷ m) =
      ground (arith, e.beq_iff k j, e.beq_iff i k, e.beq_iff i j, lookup-insert k j v m)

  pub lookup-insert_same : (k : K) (v : V) (m : List (K × V)) → lookup k (insert k v m) ≡ some v
  lookup-insert_same k v m =
      lookup-insert k k v m ∙ ap (λ b. if b then some v else lookup k m) ((e.beq_iff k k).1 refl)

  pub lookup-insert_other :
      (k j : K) (v : V) (m : List (K × V))
      → e.beq k j ≡ false
      → lookup j (insert k v m) ≡ lookup j m
  lookup-insert_other k j v m other =
      lookup-insert k j v m ∙ ap (λ b. if b then some v else lookup j m) other

  pub lookup-delete :
      (k j : K) (m : List (K × V))
      → lookup j (delete k m) ≡ (if e.beq k j then none else lookup j m)
  unfolding lookup delete
  lookup-delete k j [] = ground arith
  lookup-delete k j ((i, w) ∷ m) =
      ground (arith, e.beq_iff k j, e.beq_iff i k, e.beq_iff i j, lookup-delete k j m)

  -- No key stands twice.
  abbrev pub Unique : List (K × V) → Type 0
  Unique [] = Unit
  Unique ((k, _) ∷ m) = (lookup k m ≡ none) × Unique m

  pub delete_absent : (k : K) (m : List (K × V)) → lookup k m ≡ none → delete k m ≡ m
  unfolding lookup delete
  delete_absent k [] h = refl
  delete_absent k ((i, w) ∷ m) h = ground (arith, delete_absent k m)

  pub length-insert :
      (k : K) (v : V) (m : List (K × V))
      → lookup k m ≡ none
      → length (insert k v m) ≡ suc (length m)
  unfolding lookup insert
  length-insert k v [] h = refl
  length-insert k v ((i, w) ∷ m) h = ground (arith, length-insert k v m)

  pub length-delete :
      (k : K) (m : List (K × V)) {v : V}
      → Unique m
      → lookup k m ≡ some v
      → length (delete k m) + 1 ≡ length m
  unfolding lookup delete
  length-delete k [] u h = cc
  length-delete k ((i, w) ∷ m) {v} u h =
      ground (arith, e.beq_iff i k, length-delete k m {v = v}, delete_absent k m)

  pub insert-Unique : (k : K) (v : V) (m : List (K × V)) → Unique m → Unique (insert k v m)
  unfolding lookup insert
  insert-Unique k v [] u = (refl, tt)
  insert-Unique k v ((i, w) ∷ m) u =
      ground (arith, e.beq_iff i k, e.beq_iff k i, insert-Unique k v m u.1, lookup-insert k i v m)

  pub delete-Unique : (k : K) (m : List (K × V)) → Unique m → Unique (delete k m)
  unfolding lookup delete
  delete-Unique k [] u = tt
  delete-Unique k ((i, w) ∷ m) u =
      ground (arith, e.beq_iff i k, e.beq_iff k i, delete-Unique k m u.1, lookup-delete k i m)
