-- ===== src/Filestore/Blobs.antt =====
-- The content of objects as chunks in packs (internal/filestore/chunkstore.go): each chunk is stored once,
-- under its hash, and a recipe lists the hashes of an object. BLAKE3 and the codec of the chunks
-- (internal/filestore/dictionary.go) are a parameter. The metadata store is a map for each kind of key,
-- and its reads and writes do not fail; neither is a context cancelled. The readings of the clock in an
-- operation are the same one.
pub mod Coherent
pub mod Fetch
pub mod StoreChunk
pub mod Content
pub mod RoundTrip
pub mod Reader
mod Tests
use gmeow.Base.{
  ℕ, ◌+◌, String, Bool, true, false, Option, none, some, List, [], ◌∷◌, ◌++◌, str_eq, string_eq,
  length, if◌then◌else◌, ◌⊎◌, inl, inr, lookup, insert,
}
use gmeow.Cache.Sized.{Sized}
use gmeow.Cache.Sized as cache
use gmeow.Filestore.Chunks.{chunk_content, for_each_chunk, Streamed}
use gmeow.Filestore.Packs.{
  Bytes, Packs, PackRead, read, missing, short, append_to_active_pack, read_pack_bytes,
}

pub record ChunkEntry : Type 0 where
  pub updated_at : ℕ
  pub chunk_hash : String
  pub dict_id : String
  pub dict_family : String
  pub pack_id : ℕ
  pub offset : ℕ
  pub size : ℕ

pub record Recipe : Type 0 where
  pub updated_at : ℕ
  pub digest : String
  pub chunk_hashes : List String
  pub content_bytes : ℕ

-- The rows `c/` and `r/` of the metadata, the packs, and the cache of chunks.
pub record ChunkStore : Type 0 where
  pub chunk_index : List (String × ChunkEntry)
  pub recipes : List (String × Recipe)
  pub packs : Packs
  pub chunk_cache : Sized String

pub record Compressed : Type 0 where
  pub compressed : Bytes
  pub dict_id : String
  pub dict_family : String

-- With what a decompression fails: the file of the dictionary is missing, or another error.
pub data DecodeError : Type 0 where
  dictionary_missing : DecodeError
  decode_failed : String → DecodeError

-- `blake3HexBytes`, `compressChunkContent` and `decompressChunkContent`.
pub record Codec : Type 0 where
  pub blake3 : Bytes → String
  pub compress : String → Bytes → String ⊎ Compressed
  pub decompress : Bytes → String → DecodeError ⊎ Bytes

-- The errors of a read.
pub data ReadError : Type 0 where
  pack_missing : ReadError
  chunk_not_found : String → ReadError
  short_pack : String → ℕ → ReadError
  decompress_failed : String → DecodeError → ReadError
  failed_verification : String → ReadError

-- `errors.Is(err, os.ErrNotExist)`; a missing dictionary counts, too.
unfoldable pub is_not_exist : ReadError → Bool
is_not_exist pack_missing = true
is_not_exist (decompress_failed hash dictionary_missing) = true
is_not_exist (decompress_failed hash (decode_failed e)) = false
is_not_exist (chunk_not_found hash) = false
is_not_exist (short_pack hash id) = false
is_not_exist (failed_verification hash) = false

unfoldable pub lookup_chunk : ChunkStore → String → Option ChunkEntry
lookup_chunk store hash = lookup hash store.chunk_index

unfoldable pub read_recipe : ChunkStore → String → Option Recipe
read_recipe store digest = lookup digest store.recipes

module _ (codec : Codec) where
  -- The bytes in the pack and the entry of a chunk that is new.
  unfoldable pub append_chunk : ℕ → String → Compressed → ChunkStore → ChunkStore
  append_chunk now hash made store =
      let (packs, (pack_id, offset)) = append_to_active_pack store.packs made.compressed in
      record store {
        packs = packs;
        chunk_index =
            insert hash
              (record {
                updated_at = now;
                chunk_hash = hash;
                dict_id = made.dict_id;
                dict_family = made.dict_family;
                pack_id = pack_id;
                offset = offset;
                size = length made.compressed;
              })
              store.chunk_index;
      }

  -- Under `packMu`: the second look at the index.
  unfoldable pub store_locked :
      Option ChunkEntry → ℕ → String → Compressed → ChunkStore → (String ⊎ String) × ChunkStore
  store_locked (some entry) now hash made store = (inr hash, store)
  store_locked none now hash made store = (inr hash, append_chunk now hash made store)

  unfoldable pub store_compressed :
      String ⊎ Compressed → ℕ → String → ChunkStore → (String ⊎ String) × ChunkStore
  store_compressed (inl e) now hash store = (inl e, store)
  store_compressed (inr made) now hash store =
      store_locked (lookup_chunk store hash) now hash made store

  unfoldable pub store_absent :
      Option ChunkEntry → ℕ → String → Bytes → String → ChunkStore → (String ⊎ String) × ChunkStore
  store_absent (some entry) now family chunk hash store = (inr hash, store)
  store_absent none now family chunk hash store =
      store_compressed (codec.compress family chunk) now hash store

  -- The error or the hash, and the store.
  unfoldable pub store_chunk : ℕ → String → Bytes → ChunkStore → (String ⊎ String) × ChunkStore
  store_chunk now family chunk store =
      let hash = codec.blake3 chunk in
      store_absent (lookup_chunk store hash) now family chunk hash store

  -- The body of the loop of `storeBlobContent`, and the callback of `storeBlobReader`: the hash is added
  -- to the recipe.
  unfoldable pub add_hash :
      (String ⊎ String) × ChunkStore → List String → Option String × (ChunkStore × List String)
  add_hash (inl e, store) hashes = (some e, (store, hashes))
  add_hash (inr hash, store) hashes = (none, (store, hashes ++ hash ∷ []))

  unfoldable pub store_next :
      ℕ → String → Bytes → ChunkStore × List String → Option String × (ChunkStore × List String)
  store_next now family chunk (store, hashes) = add_hash (store_chunk now family chunk store) hashes

  unfoldable pub put_recipe : ℕ → String → ℕ → List String → ChunkStore → ChunkStore
  put_recipe now digest content_bytes hashes store = record store {
    recipes =
        insert digest
          (record {
            updated_at = now;
            digest = digest;
            chunk_hashes = hashes;
            content_bytes = content_bytes;
          })
          store.recipes;
  }

  unfoldable pub store_end :
      ℕ → String → ℕ → Option String → ChunkStore × List String → Option String × ChunkStore
  store_end now digest content_bytes (some e) (store, hashes) = (some e, store)
  store_end now digest content_bytes none (store, hashes) =
      (none, put_recipe now digest content_bytes hashes store)

  -- With the family that `dictionaryFamilyForObject` gives.
  unfoldable pub store_blob_content :
      ℕ → String → Bytes → String → ChunkStore → Option String × ChunkStore
  store_blob_content now digest content family store =
      let stored = for_each_chunk (store_next now family) (chunk_content content) 0 (store, []) in
      store_end now digest (length content) stored.error stored.state

  unfoldable pub verified : String → DecodeError ⊎ Bytes → ReadError ⊎ Bytes
  verified hash (inl e) = inl (decompress_failed hash e)
  verified hash (inr chunk) =
      if str_eq (codec.blake3 chunk) hash then inr chunk else inl (failed_verification hash)

  unfoldable pub unpacked : String → ChunkEntry → PackRead → ReadError ⊎ Bytes
  unpacked hash entry missing = inl pack_missing
  unpacked hash entry short = inl (short_pack hash entry.pack_id)
  unpacked hash entry (read compressed) = verified hash (codec.decompress compressed entry.dict_id)

  unfoldable pub read_chunk_at : ChunkStore → String → ChunkEntry → ReadError ⊎ Bytes
  read_chunk_at store hash entry =
      unpacked hash entry (read_pack_bytes store.packs entry.pack_id entry.offset entry.size)

  -- A chunk that was read is put into the cache.
  unfoldable pub cached : String → ReadError ⊎ Bytes → ChunkStore → (ReadError ⊎ Bytes) × ChunkStore
  cached hash (inl e) store = (inl e, store)
  cached hash (inr chunk) store =
      (inr chunk, record store { chunk_cache = cache.put store.chunk_cache hash chunk })

  unfoldable pub read_entry :
      Option ChunkEntry → String → ChunkStore → (ReadError ⊎ Bytes) × ChunkStore
  read_entry none hash store = (inl (chunk_not_found hash), store)
  read_entry (some entry) hash store = cached hash (read_chunk_at store hash entry) store

  -- With what the other goroutines do to the store between a read that misses its pack and the retry.
  module _ (others : ChunkStore → ChunkStore) where
    unfoldable pub retry : Bool → ReadError → String → ChunkStore → (ReadError ⊎ Bytes) × ChunkStore
    retry true e hash store = read_entry (lookup_chunk (others store) hash) hash (others store)
    retry false e hash store = (inl e, store)

    unfoldable pub retried :
        String → ReadError ⊎ Bytes → ChunkStore → (ReadError ⊎ Bytes) × ChunkStore
    retried hash (inl e) store = retry (is_not_exist e) e hash store
    retried hash (inr chunk) store = cached hash (inr chunk) store

    unfoldable pub read_indexed :
        Option ChunkEntry → String → ChunkStore → (ReadError ⊎ Bytes) × ChunkStore
    read_indexed none hash store = (inl (chunk_not_found hash), store)
    read_indexed (some entry) hash store = retried hash (read_chunk_at store hash entry) store

    unfoldable pub read_missed :
        Option Bytes → String → ChunkStore → (ReadError ⊎ Bytes) × ChunkStore
    read_missed (some chunk) hash store = (inr chunk, store)
    read_missed none hash store = read_indexed (lookup_chunk store hash) hash store

    unfoldable pub read_chunk : String → ChunkStore → (ReadError ⊎ Bytes) × ChunkStore
    read_chunk hash store =
        let (chunk_cache, hit) = cache.get store.chunk_cache hash in
        read_missed hit hash (record store { chunk_cache = chunk_cache })

    -- The loop of `readBlobContent`, with the content so far.
    unfoldable pub read_next :
        ReadError ⊎ Bytes
        → ChunkStore
        → Bytes
        → (Bytes → ChunkStore → (ReadError ⊎ Bytes) × ChunkStore)
        → (ReadError ⊎ Bytes) × ChunkStore
    read_next (inl e) store content continue = (inl e, store)
    read_next (inr chunk) store content continue = continue (content ++ chunk) store

    unfoldable pub read_chunks : List String → Bytes → ChunkStore → (ReadError ⊎ Bytes) × ChunkStore
    read_chunks [] content store = (inr content, store)
    read_chunks (hash ∷ hashes) content store =
        let (chunk, store') = read_chunk hash store in
        read_next chunk store' content (read_chunks hashes)

    unfoldable pub read_by : Option Recipe → ChunkStore → Option (ReadError ⊎ Bytes) × ChunkStore
    read_by none store = (none, store)
    read_by (some recipe) store =
        let (content, store') = read_chunks recipe.chunk_hashes [] store in (some content, store')

    -- None where the object has no recipe.
    unfoldable pub read_blob_content : String → ChunkStore → Option (ReadError ⊎ Bytes) × ChunkStore
    read_blob_content digest store = read_by (read_recipe store digest) store
