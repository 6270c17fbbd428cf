-- ===== src/Filestore/Packs.antt =====
-- The pack files (internal/filestore/chunkstore.go): chunk bytes are appended to the pack of the highest
-- number until it is full. A file is the list of its bytes, and a directory the map of its files; the
-- `*.pack` files are the only ones in it, and no write to it fails. Callers hold `packMu`, so that an
-- append is one step.
pub mod Append
mod Tests
use gmeow.Base.{
  ℕ, zero, suc, ◌+◌, Bool, true, false, ◌||◌, Option, none, some, List, [], ◌∷◌, ◌++◌, ◌==◌, ltb,
  leb, length, take, drop, if◌then◌else◌, nat_eq, lookup, insert,
}

abbrev pub Bytes : Type 0
Bytes = List ℕ

abbrev pub pack_target_bytes : ℕ
pack_target_bytes = 268435456

-- The directory of the packs, and the fields `activePack...` of the store.
pub record Packs : Type 0 where
  pub files : List (ℕ × Bytes)
  pub active_known : Bool
  pub active_id : ℕ
  pub active_size : ℕ

unfoldable pub max_id : List (ℕ × Bytes) → Option ℕ → Option ℕ
max_id [] found = found
max_id ((id, _) ∷ files) none = max_id files (some id)
max_id ((id, _) ∷ files) (some m) = max_id files (some (if ltb m id then id else m))

-- The contents of a file, where a missing one is empty, as `os.O_CREATE` makes it.
unfoldable pub contents : Option Bytes → Bytes
contents none = []
contents (some file) = file

unfoldable pub pack_and_size : List (ℕ × Bytes) → Option ℕ → ℕ × ℕ
pack_and_size files none = (0, 0)
pack_and_size files (some id) = (id, length (contents (lookup id files)))

unfoldable pub active_pack : List (ℕ × Bytes) → ℕ × ℕ
active_pack files = pack_and_size files (max_id files none)

unfoldable pub cached_active_pack : Packs → ℕ × ℕ
cached_active_pack packs =
    if packs.active_known then (packs.active_id, packs.active_size) else active_pack packs.files

-- A full pack is sealed: the next one takes its place.
unfoldable pub rotate : ℕ × ℕ → ℕ × ℕ
rotate (id, size) = if leb pack_target_bytes size then (suc id, 0) else (id, size)

-- The write at the end of the file, and the new cached state.
unfoldable pub append_at : Packs → Bytes → ℕ × ℕ → Packs
append_at packs compressed (id, size) = record {
  files = insert id (contents (lookup id packs.files) ++ compressed) packs.files;
  active_known = true;
  active_id = id;
  active_size = size + length compressed;
}

-- The packs, and the number and the offset where the bytes are.
unfoldable pub append_to_active_pack : Packs → Bytes → Packs × (ℕ × ℕ)
append_to_active_pack packs compressed =
    let place = rotate (cached_active_pack packs) in (append_at packs compressed place, place)

-- How a read of a pack ends: the bytes, `os.ErrNotExist`, or too few bytes in the file.
pub data PackRead : Type 0 where
  read : Bytes → PackRead
  missing : PackRead
  short : PackRead

unfoldable pub read_at : ℕ → ℕ → Option Bytes → PackRead
read_at offset size none = missing
read_at offset size (some file) =
    if size == 0 || leb (offset + size) (length file)
    then read (take size (drop offset file))
    else short

unfoldable pub read_pack_bytes : Packs → ℕ → ℕ → ℕ → PackRead
read_pack_bytes packs id offset size = read_at offset size (lookup id packs.files)
