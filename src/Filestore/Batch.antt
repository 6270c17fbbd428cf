-- ===== src/Filestore/Batch.antt =====
-- The batched writes (internal/filestore/commit_batch.go, chunkstore.go): the rows of an object wait in a batch,
-- and a commit writes them at once. A batch belongs to one goroutine.
pub mod Steps
pub mod Commit
use gmeow.Base.{
  ℕ, String, Bool, true, false, Option, none, some, List, [], ◌∷◌, ◌++◌, ◌&&◌, nat_eq, string_eq,
  length, if◌then◌else◌, ◌⊎◌, inl, inr, lookup, insert,
}
use gmeow.Filestore.Chunks.{chunk_content, for_each_chunk}
use gmeow.Filestore.Packs.{Bytes, Packs, append_to_active_pack}
use gmeow.Filestore.Blobs.{ChunkEntry, ChunkStore, Codec, Compressed, Recipe, lookup_chunk}
use gmeow.Filestore.Gc.{contains, has_row}

-- The rows in the order of the writes, the packs that were written to, and the hashes of this object.
pub record CommitBatch : Type 0 where
  pub chunk_rows : List (String × ChunkEntry)
  pub recipe_rows : List (String × Recipe)
  pub touched_packs : List ℕ
  pub seen : List String

unfoldable pub new_commit_batch : CommitBatch
new_commit_batch = record { chunk_rows = []; recipe_rows = []; touched_packs = []; seen = [] }

unfoldable pub apply_rows : {V : Type 0} → List (String × V) → List (String × V) → List (String × V)
apply_rows [] rows = rows
apply_rows ((key, v) ∷ writes) rows = apply_rows writes (insert key v rows)

-- Whether each pack that was written to is there.
unfoldable pub sync_touched_packs : Packs → List ℕ → Bool
sync_touched_packs packs [] = true
sync_touched_packs packs (id ∷ ids) =
    has_row (lookup id packs.files) && sync_touched_packs packs ids

unfoldable pub write_rows : CommitBatch → ChunkStore → ChunkStore
write_rows cb store = record store {
  chunk_index = apply_rows cb.chunk_rows store.chunk_index;
  recipes = apply_rows cb.recipe_rows store.recipes;
}

-- None where a pack is missing; the rows are not written then.
unfoldable pub commit : CommitBatch → ChunkStore → Option ChunkStore
commit cb store =
    if sync_touched_packs store.packs cb.touched_packs then some (write_rows cb store) else none

unfoldable pub see : String → CommitBatch → CommitBatch
see hash cb = record cb { seen = hash ∷ cb.seen }

-- The error or the hash, the batch and the store.
abbrev pub Batched : Type 0
Batched = (String ⊎ String) × (CommitBatch × ChunkStore)

unfoldable pub append_batched :
    ℕ → String → Compressed → CommitBatch → ChunkStore → CommitBatch × ChunkStore
append_batched now hash made cb store =
    let (packs, (pack_id, offset)) = append_to_active_pack store.packs made.compressed in
    let entry : ChunkEntry = record {
      updated_at = now;
      chunk_hash = hash;
      dict_id = made.dict_id;
      dict_family = made.dict_family;
      pack_id = pack_id;
      offset = offset;
      size = length made.compressed;
    } in
    (
      record cb {
        chunk_rows = cb.chunk_rows ++ (hash, entry) ∷ [];
        touched_packs = pack_id ∷ cb.touched_packs;
        seen = hash ∷ cb.seen;
      },
      record store { packs = packs },
    )

unfoldable pub locked_batched :
    Option ChunkEntry → ℕ → String → Compressed → CommitBatch → ChunkStore → Batched
locked_batched (some entry) now hash made cb store = (inr hash, (see hash cb, store))
locked_batched none now hash made cb store = (inr hash, append_batched now hash made cb store)

unfoldable pub compressed_batched :
    String ⊎ Compressed → ℕ → String → CommitBatch → ChunkStore → Batched
compressed_batched (inl e) now hash cb store = (inl e, (cb, store))
compressed_batched (inr made) now hash cb store =
    locked_batched (lookup_chunk store hash) now hash made cb store

module _ (codec : Codec) where
  unfoldable pub absent_batched :
      Option ChunkEntry → ℕ → String → Bytes → String → CommitBatch → ChunkStore → Batched
  absent_batched (some entry) now family chunk hash cb store = (inr hash, (see hash cb, store))
  absent_batched none now family chunk hash cb store =
      compressed_batched (codec.compress family chunk) now hash cb store

  unfoldable pub unseen_batched :
      Bool → ℕ → String → Bytes → String → CommitBatch → ChunkStore → Batched
  unseen_batched true now family chunk hash cb store = (inr hash, (cb, store))
  unseen_batched false now family chunk hash cb store =
      absent_batched (lookup_chunk store hash) now family chunk hash cb store

  unfoldable pub store_chunk_batched : ℕ → String → Bytes → CommitBatch → ChunkStore → Batched
  store_chunk_batched now family chunk cb store =
      let hash = codec.blake3 chunk in
      unseen_batched (contains hash cb.seen) now family chunk hash cb store

  unfoldable pub add_batched :
      Batched → List String → Option String × ((CommitBatch × ChunkStore) × List String)
  add_batched (inl e, state) hashes = (some e, (state, hashes))
  add_batched (inr hash, state) hashes = (none, (state, hashes ++ hash ∷ []))

  unfoldable pub next_batched :
      ℕ
      → String
      → Bytes
      → (CommitBatch × ChunkStore) × List String
      → Option String × ((CommitBatch × ChunkStore) × List String)
  next_batched now family chunk ((cb, store), hashes) =
      add_batched (store_chunk_batched now family chunk cb store) hashes

  unfoldable pub set_recipe :
      ℕ
      → String
      → ℕ
      → Option String
      → (CommitBatch × ChunkStore) × List String
      → Option String × (CommitBatch × ChunkStore)
  set_recipe now digest content_bytes (some e) (state, hashes) = (some e, state)
  set_recipe now digest content_bytes none ((cb, store), hashes) =
      let recipe : Recipe = record {
        updated_at = now;
        digest = digest;
        chunk_hashes = hashes;
        content_bytes = content_bytes;
      } in
      (none, (record cb { recipe_rows = cb.recipe_rows ++ (digest, recipe) ∷ [] }, store))

  unfoldable pub store_blob_content_batched :
      ℕ
      → String
      → Bytes
      → String
      → CommitBatch
      → ChunkStore
      → Option String × (CommitBatch × ChunkStore)
  store_blob_content_batched now digest content family cb store =
      let s =
        for_each_chunk (next_batched now family) (chunk_content content) 0 ((cb, store), []) in
      set_recipe now digest (length content) s.error s.state
