-- ===== src/Filestore/Repack.antt =====
-- The relocation of live chunks to the active pack (internal/filestore/repack.go). Nothing else writes
-- meanwhile; a relocation ends with an error where a pack cannot be read.
pub mod Relocate
use gmeow.Base.{ℕ, suc, Option, none, some, List, [], ◌∷◌, string_eq, lookup, insert}
use gmeow.Filestore.Packs.{
  Bytes, PackRead, read, missing, short, append_to_active_pack, read_pack_bytes,
}
use gmeow.Filestore.Blobs.{ChunkEntry, ChunkStore}

unfoldable pub relocated : ℕ → ChunkEntry → ℕ × ℕ → ChunkEntry
relocated now entry (pack_id, offset) = record entry {
  pack_id = pack_id;
  offset = offset;
  updated_at = now;
}

-- On the entry that the index has now: one that was removed is not brought back.
unfoldable pub put_relocated :
    Option ChunkEntry → ℕ → ChunkEntry → ℕ × ℕ → ℕ → ChunkStore → ℕ × ChunkStore
put_relocated none now entry place moved store = (moved, store)
put_relocated (some _) now entry place moved store = (
  suc moved,
  record store {
    chunk_index = insert entry.chunk_hash (relocated now entry place) store.chunk_index;
  },
)

unfoldable pub append_raw : Bytes → ChunkStore → ChunkStore × (ℕ × ℕ)
append_raw raw store =
    let (packs, place) = append_to_active_pack store.packs raw in
    (record store { packs = packs }, place)

-- The error, the chunks that were moved and the store.
abbrev pub Relocated : Type 0
Relocated = (Option PackRead × ℕ) × ChunkStore

unfoldable pub relocate_read :
    PackRead → ℕ → ChunkEntry → ℕ → ChunkStore → (ℕ → ChunkStore → Relocated) → Relocated
relocate_read missing now entry moved store continue = ((some missing, moved), store)
relocate_read short now entry moved store continue = ((some short, moved), store)
relocate_read (read raw) now entry moved store continue =
    let (appended, place) = append_raw raw store in
    let (moved', store') =
      put_relocated (lookup entry.chunk_hash appended.chunk_index) now entry place moved appended in
    continue moved' store'

unfoldable pub relocate_live_chunks : ℕ → List ChunkEntry → ℕ → ChunkStore → Relocated
relocate_live_chunks now [] moved store = ((none, moved), store)
relocate_live_chunks now (entry ∷ live) moved store =
    relocate_read (read_pack_bytes store.packs entry.pack_id entry.offset entry.size) now entry
      moved store (relocate_live_chunks now live)
