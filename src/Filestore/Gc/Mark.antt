-- ===== src/Filestore/Gc/Mark.antt =====
-- The mark phase (internal/filestore/gc.go): what is marked live, and what as orphan.
use mathlib.Core.Path.{subst}
use gmeow.Base.{
  ℕ, String, Bool, true, false, not, ◌||◌, none, some, List, [], ◌∷◌, ◌++◌, ◌≡◌, refl, sym, ◌∙◌, ap,
  arith, str_eq, string_eq, eq_iff, ltb, if◌then◌else◌, lookup, inl, inr, Unique, lookup_first,
  lookup-none,
}
use gmeow.Filestore.Blobs.{Recipe}
use gmeow.Filestore.Objects.{Store}
use gmeow.Filestore.Gc.{contains, mark, mark_recipe, is_kept, mark_recent, Marked}

pub contains-append :
    (x : String) (xs ys : List String) → contains x (xs ++ ys) ≡ (contains x xs || contains x ys)
unfolding contains
contains-append x [] ys = refl
contains-append x (y ∷ xs) ys = ground (arith, contains-append x xs ys)

-- All strings of the first list are in the second one.
abbrev pub Within : List String → List String → Type 0
Within xs ys = (x : String) → contains x xs ≡ true → contains x ys ≡ true

or_left : (a b : Bool) → a ≡ true → (a || b) ≡ true
or_left a b h = ground arith

or_right : (a b : Bool) → b ≡ true → (a || b) ≡ true
or_right a b h = ground arith

or_neither : (a b : Bool) → a ≡ false → b ≡ false → (a || b) ≡ false
or_neither a b h k = ground arith

str_eq-false : (a b : String) → str_eq a b ≡ false → str_eq b a ≡ false
str_eq-false a b h = ground (arith, eq_iff a b, eq_iff b a)

pub Within-left : (xs ys : List String) → Within xs (xs ++ ys)
Within-left xs ys x h = contains-append x xs ys ∙ or_left (contains x xs) (contains x ys) h

pub Within-right : (xs ys : List String) → Within ys (xs ++ ys)
Within-right xs ys x h = contains-append x xs ys ∙ or_right (contains x xs) (contains x ys) h

module _ (snapshot : Store) (cutoff : ℕ) where
  mark_recipe_live :
      (b : Bool) (digest : String) (recipe : Recipe) (m : Marked)
      → Within m.live_chunks (mark_recipe b digest recipe m).live_chunks
  unfolding mark_recipe
  mark_recipe_live true digest recipe m = Within-right recipe.chunk_hashes m.live_chunks
  mark_recipe_live false digest recipe m = λ x h. h

  -- The chunks of a kept recipe are live.
  pub mark_live :
      (recipes : List (String × Recipe)) (digest : String) (recipe : Recipe)
      → lookup digest recipes ≡ some recipe
      → is_kept snapshot cutoff digest recipe ≡ true
      → Within recipe.chunk_hashes (mark snapshot cutoff recipes).live_chunks
  unfolding mark lookup mark_recipe
  mark_live [] digest recipe found kept = absurd (cc)
  mark_live ((key, row) ∷ recipes) digest recipe found kept =
      elim (lookup_first digest key row recipe recipes found) [
        | inl (same, equal) ↦
            let first : is_kept snapshot cutoff key row ≡ true =
              ap (λ k. is_kept snapshot cutoff k row) same
              ∙ ap (is_kept snapshot cutoff digest) equal
              ∙ kept in
            subst
              (λ b.
                Within recipe.chunk_hashes
                  (mark_recipe b key row (mark snapshot cutoff recipes)).live_chunks)
              (sym first)
              (subst
                (λ r.
                  Within r.chunk_hashes
                    (row.chunk_hashes ++ (mark snapshot cutoff recipes).live_chunks))
                equal (Within-left row.chunk_hashes (mark snapshot cutoff recipes).live_chunks))
        | inr (differs, rest) ↦ λ x h.
            mark_recipe_live (is_kept snapshot cutoff key row) key row
              (mark snapshot cutoff recipes) x (mark_live recipes digest recipe rest kept x h)
      ]

  -- A hash that no kept recipe has is not live.
  abbrev pub Unmarked : String → List (String × Recipe) → Type 0
  Unmarked hash [] = Unit
  Unmarked hash ((digest, recipe) ∷ recipes) =
      (is_kept snapshot cutoff digest recipe ≡ true → contains hash recipe.chunk_hashes ≡ false)
      × Unmarked hash recipes

  mark_recipe_dead :
      (b : Bool) (digest : String) (recipe : Recipe) (m : Marked) (hash : String)
      → (b ≡ true → contains hash recipe.chunk_hashes ≡ false)
      → contains hash m.live_chunks ≡ false
      → contains hash (mark_recipe b digest recipe m).live_chunks ≡ false
  unfolding mark_recipe
  mark_recipe_dead true digest recipe m hash f h =
      let absent = f refl in
      contains-append hash recipe.chunk_hashes m.live_chunks
      ∙ or_neither (contains hash recipe.chunk_hashes) (contains hash m.live_chunks) absent h
  mark_recipe_dead false digest recipe m hash f h = h

  pub mark_dead :
      (recipes : List (String × Recipe)) (hash : String)
      → Unmarked hash recipes
      → contains hash (mark snapshot cutoff recipes).live_chunks ≡ false
  unfolding mark contains
  mark_dead [] hash h = refl
  mark_dead ((digest, recipe) ∷ recipes) hash h =
      mark_recipe_dead (is_kept snapshot cutoff digest recipe) digest recipe
        (mark snapshot cutoff recipes) hash h.0 (mark_dead recipes hash h.1)

  mark_recipe_orphan :
      (b : Bool) (key : String) (recipe : Recipe) (m : Marked) (digest : String)
      → str_eq key digest ≡ false
      → contains digest (mark_recipe b key recipe m).orphan_recipes
        ≡ contains digest m.orphan_recipes
  unfolding mark_recipe contains
  mark_recipe_orphan true key recipe m digest differs = refl
  mark_recipe_orphan false key recipe m digest differs =
      ap (λ b. b || contains digest m.orphan_recipes) (str_eq-false key digest differs)

  pub orphan_absent :
      (recipes : List (String × Recipe)) (digest : String)
      → lookup digest recipes ≡ none
      → contains digest (mark snapshot cutoff recipes).orphan_recipes ≡ false
  unfolding mark contains
  orphan_absent [] digest h = refl
  orphan_absent ((key, row) ∷ recipes) digest h =
      let (differs, rest) = lookup-none digest key row recipes h in
      mark_recipe_orphan (is_kept snapshot cutoff key row) key row (mark snapshot cutoff recipes)
        digest differs
      ∙ orphan_absent recipes digest rest

  orphan_first :
      (b : Bool) (digest : String) (recipe : Recipe) (m : Marked)
      → contains digest m.orphan_recipes ≡ false
      → contains digest (mark_recipe b digest recipe m).orphan_recipes ≡ not b
  unfolding mark_recipe contains
  orphan_first true digest recipe m h = h
  orphan_first false digest recipe m h =
      ap (λ b. b || contains digest m.orphan_recipes) ((eq_iff digest digest).1 refl)

  -- A recipe is an orphan where it is not kept.
  pub mark_orphan :
      (recipes : List (String × Recipe)) (digest : String) (recipe : Recipe)
      → Unique recipes
      → lookup digest recipes ≡ some recipe
      → contains digest (mark snapshot cutoff recipes).orphan_recipes
        ≡ not (is_kept snapshot cutoff digest recipe)
  unfolding mark
  mark_orphan [] digest recipe u found = absurd (unfold lookup in cc)
  mark_orphan ((key, row) ∷ recipes) digest recipe (absent, u) found =
      elim (lookup_first digest key row recipe recipes found) [
        | inl (same, equal) ↦
            let none_left =
              orphan_absent recipes digest (ap (λ k. lookup k recipes) (sym same) ∙ absent) in
            ap
              (λ k.
                contains digest
                  (mark_recipe (is_kept snapshot cutoff k row) k row
                    (mark snapshot cutoff recipes)).orphan_recipes)
              same
            ∙ orphan_first (is_kept snapshot cutoff digest row) digest row
                (mark snapshot cutoff recipes) none_left
            ∙ ap (λ r. not (is_kept snapshot cutoff digest r)) equal
        | inr (differs, rest) ↦
            mark_recipe_orphan (is_kept snapshot cutoff key row) key row
              (mark snapshot cutoff recipes) digest differs
            ∙ mark_orphan recipes digest recipe u rest
      ]

recent_branch : (b : Bool) (xs ys : List String) → Within ys (if b then ys else xs ++ ys)
recent_branch true xs ys x h = h
recent_branch false xs ys x h = Within-right xs ys x h

-- The chunks of a recipe that was committed since the start are live.
pub mark_recent_live :
    (start : ℕ) (recipes : List (String × Recipe)) (digest : String) (recipe : Recipe)
    → lookup digest recipes ≡ some recipe
    → ltb recipe.updated_at start ≡ false
    → Within recipe.chunk_hashes (mark_recent start recipes)
unfolding mark_recent
mark_recent_live start [] digest recipe found recent = absurd (unfold lookup in cc)
mark_recent_live start ((key, row) ∷ recipes) digest recipe found recent =
    let rest = mark_recent start recipes in
    elim (lookup_first digest key row recipe recipes found) [
      | inl (same, equal) ↦
          subst (λ b. Within recipe.chunk_hashes (if b then rest else row.chunk_hashes ++ rest))
            (sym (ap (λ r. ltb r.updated_at start) equal ∙ recent))
            (subst (λ r. Within r.chunk_hashes (row.chunk_hashes ++ rest)) equal
              (Within-left row.chunk_hashes rest))
      | inr (differs, later) ↦ λ x h.
          recent_branch (ltb row.updated_at start) row.chunk_hashes rest x
            (mark_recent_live start recipes digest recipe later recent x h)
    ]
