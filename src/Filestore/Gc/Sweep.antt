-- ===== src/Filestore/Gc/Sweep.antt =====
-- The sweep (internal/filestore/gc.go): the deletion of the dead rows, and which rows are dead.
use gmeow.Base.{
  ℕ, ◌+◌, String, Bool, true, false, not, ◌||◌, Option, none, some, List, [], ◌∷◌, ◌≡◌, refl, sym,
  ◌∙◌, ap, arith, str_eq, string_eq, eq_iff, ltb, length, if◌then◌else◌, lookup, delete, All, inl,
  inr, Bool-cases, Unique, lookup_first, lookup-none, lookup-delete, length-delete, delete-Unique,
}
use gmeow.Filestore.Blobs.{ChunkEntry}
use gmeow.Filestore.Objects.{delete_keys}
use gmeow.Filestore.Gc.{contains, dead_chunks}

flip : (a b : String) (c : Bool) → (str_eq a b || c) ≡ (str_eq b a || c)
flip a b c = ground (arith, eq_iff a b, eq_iff b a)

either : {V : Type 0} (b : Bool) (o : Option V) → o ≡ none → (if b then none else o) ≡ none
either true o h = refl
either false o h = h

clash : (b c : Bool) → b ≡ true → (b || c) ≡ false → ⊥
clash b c h k = ground arith

flipped : (a b : String) → str_eq a b ≡ false → str_eq b a ≡ false
flipped a b h = ground (arith, eq_iff a b, eq_iff b a)

pub or_neither : (a b : Bool) → a ≡ false → b ≡ false → (a || b) ≡ false
or_neither a b h k = ground arith

or_first : (a b : Bool) → a ≡ true → (a || b) ≡ true
or_first a b h = ground arith

or_second : (a b : Bool) → b ≡ true → (a || b) ≡ true
or_second a b h = ground arith

not_among :
    (key k : String) (keys : List String)
    → contains key keys ≡ false
    → contains k keys ≡ true
    → str_eq k key ≡ false
not_among key k keys absent among = elim (Bool-cases (str_eq k key)) [
  | inl same ↦
      let hit = ap (λ x. contains x keys) (sym ((eq_iff k key).0 same)) ∙ among in
      absurd (cc (absent, hit))
  | inr differs ↦ differs
]

-- No key stands twice.
abbrev pub Distinct : List String → Type 0
Distinct [] = Unit
Distinct (key ∷ keys) = (contains key keys ≡ false) × Distinct keys

module _ {V : Type 0} where
  kept_row :
      (b c : Bool) (o p q : Option V)
      → (b || c) ≡ false
      → p ≡ (if b then none else o)
      → (c ≡ false → q ≡ p)
      → q ≡ o
  kept_row true c o p q h same f = absurd (cc)
  kept_row false c o p q h same f = f h ∙ same

  pub lookup-delete_keys_absent :
      (key : String) (keys : List String) (rows : List (String × V))
      → contains key keys ≡ false
      → lookup key (delete_keys keys rows) ≡ lookup key rows
  unfolding contains delete_keys
  lookup-delete_keys_absent key [] rows h = refl
  lookup-delete_keys_absent key (k ∷ keys) rows h =
      kept_row (str_eq k key) (contains key keys) (lookup key rows) (lookup key (delete k rows))
        (lookup key (delete_keys keys (delete k rows))) (flip k key (contains key keys) ∙ h)
        (lookup-delete k key rows) (lookup-delete_keys_absent key keys (delete k rows))

  gone_row :
      (b c : Bool) (o p q : Option V)
      → (b || c) ≡ true
      → p ≡ (if b then none else o)
      → (p ≡ none → q ≡ none)
      → (c ≡ true → q ≡ none)
      → q ≡ none
  gone_row true c o p q h same f g = f same
  gone_row false c o p q h same f g = g h

  -- A row that is missing stays missing.
  delete_keys-none :
      (key : String) (keys : List String) (rows : List (String × V))
      → lookup key rows ≡ none
      → lookup key (delete_keys keys rows) ≡ none
  unfolding delete_keys
  delete_keys-none key [] rows h = h
  delete_keys-none key (k ∷ keys) rows h =
      delete_keys-none key keys (delete k rows)
        (lookup-delete k key rows ∙ either (str_eq k key) (lookup key rows) h)

  pub lookup-delete_keys_present :
      (key : String) (keys : List String) (rows : List (String × V))
      → contains key keys ≡ true
      → lookup key (delete_keys keys rows) ≡ none
  unfolding contains delete_keys
  lookup-delete_keys_present key [] rows h = absurd (cc)
  lookup-delete_keys_present key (k ∷ keys) rows h =
      gone_row (str_eq k key) (contains key keys) (lookup key rows) (lookup key (delete k rows))
        (lookup key (delete_keys keys (delete k rows))) (flip k key (contains key keys) ∙ h)
        (lookup-delete k key rows) (delete_keys-none key keys (delete k rows))
        (lookup-delete_keys_present key keys (delete k rows))

-- The hash in a chunk row is its key.
abbrev pub IsKeyed : List (String × ChunkEntry) → Type 0
IsKeyed rows = All (λ row. row.1.chunk_hash ≡ row.0) rows

module _ (live : List String) (cutoff : ℕ) where
  skipped :
      (b : Bool) (hash key : String) (rest : List String)
      → (b ≡ false → str_eq hash key ≡ false)
      → contains hash rest ≡ false
      → contains hash (if b then rest else key ∷ rest) ≡ false
  unfolding contains
  skipped true hash key rest f h = h
  skipped false hash key rest f h = ap (λ b. b || contains hash rest) (f refl) ∙ h

  live_differs :
      (hash key : String) (old : Bool)
      → contains hash live ≡ true
      → (contains key live || old) ≡ false
      → str_eq hash key ≡ false
  live_differs hash key old h k = elim (Bool-cases (str_eq hash key)) [
    | inl same ↦ absurd (
        clash (contains key live) old
          (ap (λ x. contains x live) (sym ((eq_iff hash key).0 same)) ∙ h) k)
    | inr differs ↦ differs
  ]

  -- A live chunk is not dead.
  pub dead_chunks_live :
      (rows : List (String × ChunkEntry)) (hash : String)
      → IsKeyed rows
      → contains hash live ≡ true
      → contains hash (dead_chunks live cutoff rows) ≡ false
  unfolding dead_chunks contains
  dead_chunks_live [] hash keyed h = refl
  dead_chunks_live ((key, entry) ∷ rows) hash (same, keyed) h =
      let old = not (ltb entry.updated_at cutoff) in
      skipped (contains entry.chunk_hash live || old) hash key (dead_chunks live cutoff rows)
        (λ passed.
          live_differs hash key old h (ap (λ k. contains k live || old) (sym same) ∙ passed))
        (dead_chunks_live rows hash keyed h)

  dead_branch :
      (b : Bool) (hash key : String) (rest : List String)
      → str_eq hash key ≡ false
      → contains hash (if b then rest else key ∷ rest) ≡ contains hash rest
  unfolding contains
  dead_branch true hash key rest differs = refl
  dead_branch false hash key rest differs = ap (λ b. b || contains hash rest) differs

  pub dead_chunks_absent :
      (rows : List (String × ChunkEntry)) (hash : String)
      → lookup hash rows ≡ none
      → contains hash (dead_chunks live cutoff rows) ≡ false
  unfolding dead_chunks contains
  dead_chunks_absent [] hash h = refl
  dead_chunks_absent ((key, entry) ∷ rows) hash h =
      let (differs, rest) = lookup-none hash key entry rows h in
      dead_branch _ hash key (dead_chunks live cutoff rows) (flipped key hash differs)
      ∙ dead_chunks_absent rows hash rest

  dead_first :
      (b : Bool) (hash : String) (rest : List String)
      → b ≡ false
      → contains hash (if b then rest else hash ∷ rest) ≡ true
  unfolding contains
  dead_first true hash rest h = absurd (cc)
  dead_first false hash rest h = ap (λ b. b || contains hash rest) ((eq_iff hash hash).1 refl)

  -- An old chunk that is not live is dead.
  pub dead_chunks_old :
      (rows : List (String × ChunkEntry)) (hash : String) (entry : ChunkEntry)
      → IsKeyed rows
      → lookup hash rows ≡ some entry
      → contains hash live ≡ false
      → ltb entry.updated_at cutoff ≡ true
      → contains hash (dead_chunks live cutoff rows) ≡ true
  unfolding dead_chunks
  dead_chunks_old [] hash entry keyed found h old = absurd (unfold lookup in cc)
  dead_chunks_old ((key, row) ∷ rows) hash entry (own, keyed) found h old =
      let rest = dead_chunks live cutoff rows in
      let kept : String → ℕ → Bool = λ k time. contains k live || not (ltb time cutoff) in
      elim (lookup_first hash key row entry rows found) [
        | inl (same, equal) ↦
            ap (λ k. contains hash (if kept row.chunk_hash row.updated_at then rest else k ∷ rest))
              same
            ∙ dead_first (kept row.chunk_hash row.updated_at) hash rest (
                ap (λ k. kept k row.updated_at) (own ∙ same)
                ∙ ap (λ e. kept hash e.updated_at) equal
                ∙ or_neither (contains hash live) (not (ltb entry.updated_at cutoff)) h
                    (ap not old))
        | inr (differs, later) ↦
            dead_branch (kept row.chunk_hash row.updated_at) hash key rest
              (flipped key hash differs)
            ∙ dead_chunks_old rows hash entry keyed later h old
      ]

-- Keys that stand once in the list and have a row each.
pub record IsSelection {V : Type 0} (keys : List String) (rows : List (String × V)) : Type 0 where
  pub distinct : Distinct keys
  pub present : (key : String) → contains key keys ≡ true → (v : V) × (lookup key rows ≡ some v)

selection_rest :
    {V : Type 0} (key : String) (keys : List String) (rows : List (String × V))
    → IsSelection (key ∷ keys) rows
    → IsSelection keys (delete key rows)
unfolding contains
selection_rest key keys rows h = record {
  distinct = h.distinct.1;
  present = λ k among.
      let (v, found) = h.present k (or_second (str_eq k key) (contains k keys) among) in
      (
        v,
        lookup-delete key k rows
            ∙ ap (λ b. if b then none else lookup k rows)
                (flipped k key (not_among key k keys h.distinct.0 among))
            ∙ found,
      );
}

pub length-delete_keys :
    {V : Type 0} (keys : List String) (rows : List (String × V))
    → Unique rows
    → IsSelection keys rows
    → length (delete_keys keys rows) + length keys ≡ length rows
unfolding delete_keys contains
length-delete_keys [] rows u h = omega arith
length-delete_keys (key ∷ keys) rows u h =
    let (v, found) =
      h.present key (or_first (str_eq key key) (contains key keys) ((eq_iff key key).1 refl)) in
    let one = length-delete key rows {v = v} u found in
    let rest =
      length-delete_keys keys (delete key rows) (delete-Unique key rows u)
        (selection_rest key keys rows h) in
    omega (arith, one, rest)
