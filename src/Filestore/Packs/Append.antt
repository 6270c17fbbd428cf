-- ===== src/Filestore/Packs/Append.antt =====
-- What an append to the active pack (internal/filestore/chunkstore.go) does to the reads of the packs.
use mathlib.Core.Path.{subst}
use gmeow.Base.{
  ℕ, suc, ◌+◌, ◌≤◌, ◌<◌, Bool, true, false, ◌||◌, Option, none, some, List, [], ◌∷◌, ◌++◌, ◌≡◌,
  refl, sym, ◌∙◌, ap, arith, ltb, leb, leb→le, ◌==◌, ==_iff, length, take, drop, length-append,
  take-append_le, drop-append_le, length-drop, length-take, if◌then◌else◌, nat_eq, lookup, insert,
  lookup-insert, lookup-insert_same, ◌⊎◌, inl, inr, Bool-cases,
}
use gmeow.Filestore.Packs.{
  Bytes, Packs, max_id, contents, pack_and_size, active_pack, cached_active_pack, rotate, append_at,
  append_to_active_pack, pack_target_bytes, PackRead, read, missing, short, read_at,
  read_pack_bytes,
}

-- A pack with the number of the pair holds so many bytes, and there is none of a higher number.
pub record IsLast (files : List (ℕ × Bytes)) (place : ℕ × ℕ) : Type 0 where
  pub sized : place.1 ≡ length (contents (lookup place.0 files))
  pub last : (id : ℕ) → place.0 < id → lookup id files ≡ none

-- What the cached fields say of the active pack is so.
abbrev pub IsActive : Packs → Type 0
IsActive packs = packs.active_known ≡ true → IsLast packs.files (packs.active_id, packs.active_size)

-- There is no file of a number above the one found.
abbrev Bounds : List (ℕ × Bytes) → ℕ → Type 0
Bounds files m = (id : ℕ) → m < id → lookup id files ≡ none

above :
    (j id m : ℕ) (v : Bytes) (files : List (ℕ × Bytes))
    → j ≤ m
    → m < id
    → lookup id ((j, v) ∷ files) ≡ lookup id files
unfolding lookup
above j id m v files h k = ground (arith, ==_iff j id)

larger : (m id : ℕ) → (m ≤ (if ltb m id then id else m)) × (id ≤ (if ltb m id then id else m))
larger m id = ground arith

max_id-Bounds :
    (files : List (ℕ × Bytes)) (m : ℕ)
    → (n : ℕ) × (max_id files (some m) ≡ some n) × (m ≤ n) × Bounds files n
unfolding max_id lookup
max_id-Bounds [] m = (m, refl, omega arith, λ id h. refl)
max_id-Bounds ((j, v) ∷ files) m =
    let (n, found, least, rest) = max_id-Bounds files (if ltb m j then j else m) in
    let (old, new) = larger m j in
    (
      n,
      found,
      omega (arith, least, old),
      λ id h. above j id n v files (omega (arith, least, new)) h ∙ rest id h,
    )

active_pack-IsLast : (files : List (ℕ × Bytes)) → IsLast files (active_pack files)
unfolding active_pack pack_and_size max_id contents lookup
active_pack-IsLast [] = record { sized = refl; last = λ id h. refl }
active_pack-IsLast ((j, v) ∷ files) =
    let (n, found, least, rest) = max_id-Bounds files j in
    subst (λ o. IsLast ((j, v) ∷ files) (pack_and_size ((j, v) ∷ files) o)) (sym found)
      (record { sized = refl; last = λ id h. above j id n v files least h ∙ rest id h })

cached_active_pack-IsLast :
    (packs : Packs) → IsActive packs → IsLast packs.files (cached_active_pack packs)
unfolding cached_active_pack
cached_active_pack-IsLast packs active = elim (Bool-cases packs.active_known) [
  | inl known ↦ rw known (active known)
  | inr unknown ↦ rw unknown (active_pack-IsLast packs.files)
]

rotated :
    (full : Bool) (files : List (ℕ × Bytes)) (id size : ℕ)
    → IsLast files (id, size)
    → IsLast files (if full then (suc id, 0) else (id, size))
unfolding contents
rotated true files id size h = record {
  sized = rw (h.last (suc id) (omega arith)) refl;
  last = λ j above_it. h.last j (omega (arith, above_it));
}
rotated false files id size h = h

rotate-IsLast :
    (files : List (ℕ × Bytes)) (place : ℕ × ℕ) → IsLast files place → IsLast files (rotate place)
unfolding rotate
rotate-IsLast files (id, size) h = rotated (leb pack_target_bytes size) files id size h

rotate_below : (place : ℕ × ℕ) → (rotate place).1 < pack_target_bytes
unfolding rotate
rotate_below (id, size) = ground arith

-- The place of the next append.
place-IsLast :
    (packs : Packs) → IsActive packs → IsLast packs.files (rotate (cached_active_pack packs))
place-IsLast packs active =
    rotate-IsLast packs.files (cached_active_pack packs) (cached_active_pack-IsLast packs active)

module _ (files : List (ℕ × Bytes)) where
  inserted : (id : ℕ) (v : Bytes) → lookup id (insert id v files) ≡ some v
  inserted id v = lookup-insert_same id v files

  inserted_other : (id j : ℕ) (v : Bytes) → id < j → lookup j (insert id v files) ≡ lookup j files
  inserted_other id j v h = lookup-insert id j v files ∙ ground (arith, ==_iff id j)

append_at-IsActive :
    (packs : Packs) (compressed : Bytes) (place : ℕ × ℕ)
    → IsLast packs.files place
    → IsActive (append_at packs compressed place)
unfolding append_at contents
append_at-IsActive packs compressed (id, size) h _ = record {
  sized =
      rw (inserted packs.files id (contents (lookup id packs.files) ++ compressed))
        (omega (arith, h.sized, length-append (contents (lookup id packs.files)) compressed));
  last = λ j above_it. inserted_other packs.files id j _ above_it ∙ h.last j above_it;
}

-- The end of a list that a list of a known length stands before.
take_all : (xs : Bytes) → take (length xs) xs ≡ xs
take_all [] = refl
take_all (x ∷ xs) = ap (λ ys. x ∷ ys) (take_all xs)

drop_all : (xs ys : Bytes) → drop (length xs) (xs ++ ys) ≡ ys
drop_all [] ys = refl
drop_all (x ∷ xs) ys = drop_all xs ys

fits :
    (a b : Bool) (r : PackRead) (c : Bytes)
    → (if a || b then r else short) ≡ read c
    → ((a ≡ true) ⊎ (b ≡ true)) × (r ≡ read c)
fits a b r c h = ground arith

or_true : (a b : Bool) (r : PackRead) → (a ≡ true) ⊎ (b ≡ true) → (if a || b then r else short) ≡ r
or_true a b r h = ground arith

leb-true : (a b : ℕ) → a ≤ b → leb a b ≡ true
leb-true a b h = ground arith

read_range :
    (offset size : ℕ) (file more : Bytes)
    → (size ≡ 0) ⊎ (offset + size ≤ length file)
    → take size (drop offset (file ++ more)) ≡ take size (drop offset file)
read_range offset size file more (inl h) = rw h refl
read_range offset size file more (inr h) =
    ap (take size) (drop-append_le offset file more (omega (arith, h)))
    ∙ take-append_le size (drop offset file) more (omega (arith, h, length-drop offset file))

read_at_more :
    (offset size : ℕ) (old : Option Bytes) (more c : Bytes)
    → read_at offset size old ≡ read c
    → read_at offset size (some (contents old ++ more)) ≡ read c
unfolding read_at contents
read_at_more offset size none more c h = absurd (ground (arith, h))
read_at_more offset size (some file) more c h =
    let longer = or_true (size == 0) (leb (offset + size) (length (file ++ more))) in
    let (either, same) =
      fits (size == 0) (leb (offset + size) (length file)) (read (take size (drop offset file))) c
        h in
    elim either [
      | inl empty ↦
          longer _ (inl empty)
          ∙ ap read (read_range offset size file more (inl ((==_iff size 0).0 empty)))
          ∙ same
      | inr inside ↦
          let end = leb→le (offset + size) (length file) inside in
          longer _ (
            inr (
              leb-true (offset + size) (length (file ++ more))
                (omega (arith, end, length-append file more))))
          ∙ ap read (read_range offset size file more (inr end))
          ∙ same
    ]

read_at_new :
    (old : Option Bytes) (new : Bytes)
    → read_at (length (contents old)) (length new) (some (contents old ++ new)) ≡ read new
unfolding read_at
read_at_new old new =
    or_true (length new == 0) _ _ (
      inr (
        leb-true _ (length (contents old ++ new))
          (omega (arith, length-append (contents old) new))))
    ∙ ap read (ap (take (length new)) (drop_all (contents old) new) ∙ take_all new)

append_at_kept :
    (packs : Packs) (compressed : Bytes) (place : ℕ × ℕ) (id offset size : ℕ) (c : Bytes)
    → read_pack_bytes packs id offset size ≡ read c
    → read_pack_bytes (append_at packs compressed place) id offset size ≡ read c
unfolding read_pack_bytes append_at
append_at_kept packs compressed (active, end) id offset size c h =
    let new = contents (lookup active packs.files) ++ compressed in
    let found = lookup-insert active id new packs.files in
    elim (Bool-cases (active == id)) [
      | inl same ↦
          ap (read_at offset size)
            (found ∙ ap (λ b. if b then some new else lookup id packs.files) same)
          ∙ read_at_more offset size (lookup active packs.files) compressed c
              (ap (λ j. read_at offset size (lookup j packs.files)) ((==_iff active id).0 same) ∙ h)
      | inr other ↦
          ap (read_at offset size)
            (found ∙ ap (λ b. if b then some new else lookup id packs.files) other)
          ∙ h
    ]

append_at_new :
    (packs : Packs) (compressed : Bytes) (place : ℕ × ℕ)
    → IsLast packs.files place
    → read_pack_bytes (append_at packs compressed place) place.0 place.1 (length compressed)
      ≡ read compressed
unfolding read_pack_bytes append_at
append_at_new packs compressed (id, size) h =
    ap (read_at size (length compressed)) (inserted packs.files id _)
    ∙ ap
        (λ n. read_at n (length compressed) (some (contents (lookup id packs.files) ++ compressed)))
        h.sized
    ∙ read_at_new (lookup id packs.files) compressed

-- What an append to packs whose cached fields are so promises.
pub record Appended (packs after : Packs) (compressed : Bytes) (place : ℕ × ℕ) : Type 0 where
  pub active : IsActive after
  pub below : place.1 < pack_target_bytes
  pub new : read_pack_bytes after place.0 place.1 (length compressed) ≡ read compressed
  pub kept :
      (id offset size : ℕ) (c : Bytes)
      → read_pack_bytes packs id offset size ≡ read c
      → read_pack_bytes after id offset size ≡ read c

-- If the cached state of the packs is so, then after an append it still is, the bytes start below
-- the target size of a pack and are read at their place, and each read that succeeded before
-- returns the same.
pub append_to_active_pack-Appended :
    (packs : Packs) (compressed : Bytes)
    → IsActive packs
    → Appended packs
        (append_to_active_pack packs compressed).0
        compressed
        (append_to_active_pack packs compressed).1
unfolding append_to_active_pack
append_to_active_pack-Appended packs compressed active =
    let place = rotate (cached_active_pack packs) in
    let last : IsLast packs.files place = place-IsLast packs active in
    record {
      active = append_at-IsActive packs compressed place last;
      below = rotate_below (cached_active_pack packs);
      new = append_at_new packs compressed place last;
      kept = append_at_kept packs compressed place;
    }

bytes_of : PackRead → Bytes
bytes_of missing = []
bytes_of short = []
bytes_of (read z) = z

length_range :
    (offset size : ℕ) (file : Bytes)
    → ((size == 0) ≡ true) ⊎ (leb (offset + size) (length file) ≡ true)
    → length (take size (drop offset file)) ≡ size
length_range offset size file (inl h) =
    let empty = (==_iff size 0).0 h in omega (arith, empty, length-take size (drop offset file))
length_range offset size file (inr h) =
    let end = leb→le (offset + size) (length file) h in
    omega (arith, end, length-take size (drop offset file), length-drop offset file)

-- A read that succeeds has the bytes that were asked for.
read_at-length :
    (offset size : ℕ) (old : Option Bytes) (z : Bytes)
    → read_at offset size old ≡ read z
    → length z ≡ size
unfolding read_at bytes_of
read_at-length offset size none z h = absurd (cc)
read_at-length offset size (some file) z h =
    let (either, same) =
      fits (size == 0) (leb (offset + size) (length file)) (read (take size (drop offset file))) z
        h in
    ap (λ r. length (bytes_of r)) (sym same) ∙ length_range offset size file either

pub read_pack_bytes-length :
    (packs : Packs) (id offset size : ℕ) (z : Bytes)
    → read_pack_bytes packs id offset size ≡ read z
    → length z ≡ size
unfolding read_pack_bytes
read_pack_bytes-length packs id offset size = read_at-length offset size (lookup id packs.files)
