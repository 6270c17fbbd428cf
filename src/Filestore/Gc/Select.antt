-- ===== src/Filestore/Gc/Select.antt =====
-- The keys that a collection (internal/filestore/gc.go) deletes: each stands once and has a row.
use mathlib.Core.Path.{subst}
use gmeow.Base.{
  ℕ, String, Bool, true, false, not, ◌||◌, Option, some, List, [], ◌∷◌, ◌≡◌, refl, sym, ◌∙◌, ap,
  arith, str_eq, string_eq, eq_iff, ltb, if◌then◌else◌, lookup, ◌⊎◌, inl, inr, Unique, Bool-cases,
}
use gmeow.Filestore.Blobs.{ChunkEntry, Recipe}
use gmeow.Filestore.Objects.{Store}
use gmeow.Filestore.Gc.{
  contains, mark, mark_recipe, Marked, is_kept, dead_chunks, swept_recipes, has_row,
}
use gmeow.Filestore.Gc.Mark.{orphan_absent}
use gmeow.Filestore.Gc.Sweep.{Distinct, IsSelection, dead_chunks_absent}

either_key :
    (b : Bool) (k key : String) (rest : List String)
    → contains k (if b then rest else key ∷ rest) ≡ true
    → (k ≡ key) ⊎ (contains k rest ≡ true)
unfolding contains
either_key true k key rest h = inr h
either_key false k key rest h = elim (Bool-cases (str_eq k key)) [
  | inl same ↦ inl ((eq_iff k key).0 same)
  | inr differs ↦ inr (sym (ap (λ b. b || contains k rest) differs) ∙ h)
]

choose :
    (b : Bool) (key : String) (keys : List String)
    → contains key keys ≡ false
    → Distinct keys
    → Distinct (if b then keys else key ∷ keys)
choose true key keys absent h = h
choose false key keys absent h = (absent, h)

shown :
    {V : Type 0} (b : Bool) (v w : V) (o : Option V)
    → o ≡ some w
    → (u : V) × ((if b then some v else o) ≡ some u)
shown true v w o h = (v, refl)
shown false v w o h = (w, h)

select :
    {V : Type 0} (b : Bool) (key : String) (v : V) (keys : List String) (rows : List (String × V))
    → contains key keys ≡ false
    → IsSelection keys rows
    → IsSelection (if b then keys else key ∷ keys) ((key, v) ∷ rows)
unfolding lookup contains
select b key v keys rows absent h = record {
  distinct = choose b key keys absent h.distinct;
  present = λ k among. elim (either_key b k key keys among) [
    | inl same ↦ (v, ap (λ b. if b then some v else lookup k rows) ((eq_iff key k).1 (sym same)))
    | inr later ↦
        let (w, found) = h.present k later in shown (str_eq key k) v w (lookup k rows) found
  ];
}

pub dead_selection :
    (live : List String) (cutoff : ℕ) (rows : List (String × ChunkEntry))
    → Unique rows
    → IsSelection (dead_chunks live cutoff rows) rows
unfolding dead_chunks contains
dead_selection live cutoff [] u = record { distinct = tt; present = λ k h. absurd (cc) }
dead_selection live cutoff ((key, entry) ∷ rows) (absent, u) =
    select (contains entry.chunk_hash live || not (ltb entry.updated_at cutoff)) key entry
      (dead_chunks live cutoff rows) rows (dead_chunks_absent live cutoff rows key absent)
      (dead_selection live cutoff rows u)

orphans_of :
    (b : Bool) (digest : String) (recipe : Recipe) (m : Marked)
    → (mark_recipe b digest recipe m).orphan_recipes
      ≡ (if b then m.orphan_recipes else digest ∷ m.orphan_recipes)
unfolding mark_recipe
orphans_of true digest recipe m = refl
orphans_of false digest recipe m = refl

pub orphan_selection :
    (snapshot : Store) (cutoff : ℕ) (recipes : List (String × Recipe))
    → Unique recipes
    → IsSelection (mark snapshot cutoff recipes).orphan_recipes recipes
unfolding mark contains
orphan_selection snapshot cutoff [] u = record { distinct = tt; present = λ k h. absurd (cc) }
orphan_selection snapshot cutoff ((digest, recipe) ∷ recipes) (absent, u) =
    let m = mark snapshot cutoff recipes in
    let b = is_kept snapshot cutoff digest recipe in
    subst (λ keys. IsSelection keys ((digest, recipe) ∷ recipes))
      (sym (orphans_of b digest recipe m))
      (select b digest recipe m.orphan_recipes recipes
        (orphan_absent snapshot cutoff recipes digest absent)
        (orphan_selection snapshot cutoff recipes u))

pub or_later : (a b : Bool) → b ≡ true → (a || b) ≡ true
or_later a b h = ground arith

added :
    (b : Bool) (digest key : String) (rest : List String)
    → contains digest rest ≡ true
    → contains digest (if b then rest else key ∷ rest) ≡ true
unfolding contains
added true digest key rest h = h
added false digest key rest h = or_later (str_eq digest key) (contains digest rest) h

-- Of the orphans those without a manifest are swept.
contains-swept_recipes :
    (live : Store) (orphans : List String) (digest : String)
    → contains digest (swept_recipes live orphans) ≡ true
    → contains digest orphans ≡ true
unfolding contains swept_recipes
contains-swept_recipes live [] digest h = h
contains-swept_recipes live (key ∷ orphans) digest h =
    elim (either_key (has_row (lookup key live.manifests)) digest key (swept_recipes live orphans)
      h) [
        | inl same ↦ ap (λ b. b || contains digest orphans) ((eq_iff digest key).1 same)
        | inr later ↦
            or_later (str_eq digest key) (contains digest orphans)
              (contains-swept_recipes live orphans digest later)
      ]

not_swept :
    (live : Store) (orphans : List String) (digest : String)
    → contains digest orphans ≡ false
    → contains digest (swept_recipes live orphans) ≡ false
not_swept live orphans digest absent =
    elim (Bool-cases (contains digest (swept_recipes live orphans))) [
      | inl hit ↦ absurd (cc (absent, contains-swept_recipes live orphans digest hit))
      | inr missed ↦ missed
    ]

swept-Distinct :
    (live : Store) (orphans : List String)
    → Distinct orphans
    → Distinct (swept_recipes live orphans)
unfolding swept_recipes
swept-Distinct live [] h = tt
swept-Distinct live (key ∷ orphans) (absent, h) =
    choose (has_row (lookup key live.manifests)) key (swept_recipes live orphans)
      (not_swept live orphans key absent) (swept-Distinct live orphans h)

pub swept_present :
    (live : Store) (orphans : List String) (digest : String)
    → contains digest orphans ≡ true
    → has_row (lookup digest live.manifests) ≡ false
    → contains digest (swept_recipes live orphans) ≡ true
unfolding contains swept_recipes
swept_present live [] digest h missing = h
swept_present live (key ∷ orphans) digest h missing = elim (Bool-cases (str_eq digest key)) [
  | inl same ↦
      let equal = (eq_iff digest key).0 same in
      ap
        (λ k. contains digest (
          if has_row (lookup k live.manifests)
          then swept_recipes live orphans
          else k ∷ swept_recipes live orphans))
        (sym equal)
      ∙ ap
          (λ b.
            contains digest
              (if b then swept_recipes live orphans else digest ∷ swept_recipes live orphans))
          missing
      ∙ ap (λ b. b || contains digest (swept_recipes live orphans)) ((eq_iff digest digest).1 refl)
  | inr differs ↦
      added (has_row (lookup key live.manifests)) digest key (swept_recipes live orphans) (
        swept_present live orphans digest (sym (ap (λ b. b || contains digest orphans) differs) ∙ h)
          missing)
]

pub swept_selection :
    (live : Store) (orphans : List String) (recipes : List (String × Recipe))
    → IsSelection orphans recipes
    → IsSelection (swept_recipes live orphans) recipes
swept_selection live orphans recipes h = record {
  distinct = swept-Distinct live orphans h.distinct;
  present = λ k among. h.present k (contains-swept_recipes live orphans k among);
}
