-- ===== src/Filestore/Blobs/Fetch.antt =====
-- What a read of a chunk (internal/filestore/chunkstore.go) hands back: content of the hash that was asked
-- for in any store, and the chunk itself where the index, the pack and the codec have it.
use mathlib.Core.Sum.{inr-injective}
use gmeow.Base.{
  String, Bool, true, false, Option, none, some, ◌≡◌, refl, sym, ◌∙◌, ap, str_eq, string_eq, eq_iff,
  if◌then◌else◌, ◌⊎◌, inl, inr,
}
use gmeow.Cache.Sized as cache
use gmeow.Filestore.Packs.{Bytes, PackRead, read, missing, short}
use gmeow.Filestore.Blobs.{
  ChunkEntry, ChunkStore, Codec, ReadError, chunk_not_found, failed_verification, DecodeError,
  is_not_exist, lookup_chunk, verified, unpacked, read_chunk_at, cached, read_entry, retry, retried,
  read_indexed, read_missed, read_chunk,
}
use gmeow.Filestore.Blobs.Coherent.{IsCoherent, get-IsCoherent, put-IsCoherent}

module _ (codec : Codec) where
  checked :
      (b : Bool) (e : ReadError) (c chunk : Bytes)
      → (if b then inr c else inl e) ≡ inr chunk
      → (b ≡ true) × (c ≡ chunk)
  checked true e c chunk h = (refl, inr-injective c chunk h)
  checked false e c chunk h = absurd (cc)

  verified-Hashed :
      (hash : String) (d : DecodeError ⊎ Bytes) (chunk : Bytes)
      → verified codec hash d ≡ inr chunk
      → codec.blake3 chunk ≡ hash
  unfolding verified
  verified-Hashed hash (inl e) chunk h = absurd (cc)
  verified-Hashed hash (inr c) chunk h =
      let (passed, same) =
        checked (str_eq (codec.blake3 c) hash) (failed_verification hash) c chunk h in
      ap codec.blake3 (sym same) ∙ (eq_iff (codec.blake3 c) hash).0 passed

  unpacked-Hashed :
      (hash : String) (entry : ChunkEntry) (r : PackRead) (chunk : Bytes)
      → unpacked codec hash entry r ≡ inr chunk
      → codec.blake3 chunk ≡ hash
  unfolding unpacked verified
  unpacked-Hashed hash entry missing chunk h = absurd (cc)
  unpacked-Hashed hash entry short chunk h = absurd (cc)
  unpacked-Hashed hash entry (read z) chunk h =
      verified-Hashed hash (codec.decompress z entry.dict_id) chunk h

  pub read_chunk_at-Hashed :
      (store : ChunkStore) (hash : String) (entry : ChunkEntry) (chunk : Bytes)
      → read_chunk_at codec store hash entry ≡ inr chunk
      → codec.blake3 chunk ≡ hash
  unfolding read_chunk_at
  read_chunk_at-Hashed store hash entry = unpacked-Hashed hash entry _

  -- A read keeps the cache coherent and hands back content of this hash.
  abbrev pub Sound : String → (ReadError ⊎ Bytes) × ChunkStore → Type 0
  Sound hash (result, store) =
      IsCoherent codec.blake3 store.chunk_cache
      × ((chunk : Bytes) → result ≡ inr chunk → codec.blake3 chunk ≡ hash)

  fails :
      (hash : String) (e : ReadError) (store : ChunkStore)
      → IsCoherent codec.blake3 store.chunk_cache
      → Sound hash (inl e, store)
  fails hash e store h = (h, λ chunk r. absurd (cc))

  cached-Sound :
      (hash : String) (r : ReadError ⊎ Bytes) (store : ChunkStore)
      → IsCoherent codec.blake3 store.chunk_cache
      → ((chunk : Bytes) → r ≡ inr chunk → codec.blake3 chunk ≡ hash)
      → Sound hash (cached codec hash r store)
  unfolding cached
  cached-Sound hash (inl e) store h p = fails hash e store h
  cached-Sound hash (inr c) store h p =
      (put-IsCoherent codec.blake3 store.chunk_cache hash c h (p c refl), p)

  read_entry-Sound :
      (o : Option ChunkEntry) (hash : String) (store : ChunkStore)
      → IsCoherent codec.blake3 store.chunk_cache
      → Sound hash (read_entry codec o hash store)
  unfolding read_entry
  read_entry-Sound none hash store h = fails hash (chunk_not_found hash) store h
  read_entry-Sound (some entry) hash store h =
      cached-Sound hash (read_chunk_at codec store hash entry) store h
        (read_chunk_at-Hashed store hash entry)

  module _ (others : ChunkStore → ChunkStore)
      (kept : (store : ChunkStore)
        → IsCoherent codec.blake3 store.chunk_cache
        → IsCoherent codec.blake3 (others store).chunk_cache) where
    retry-Sound :
        (b : Bool) (e : ReadError) (hash : String) (store : ChunkStore)
        → IsCoherent codec.blake3 store.chunk_cache
        → Sound hash (retry codec others b e hash store)
    unfolding retry
    retry-Sound true e hash store h =
        read_entry-Sound (lookup_chunk (others store) hash) hash (others store) (kept store h)
    retry-Sound false e hash store h = fails hash e store h

    retried-Sound :
        (hash : String) (r : ReadError ⊎ Bytes) (store : ChunkStore)
        → IsCoherent codec.blake3 store.chunk_cache
        → ((chunk : Bytes) → r ≡ inr chunk → codec.blake3 chunk ≡ hash)
        → Sound hash (retried codec others hash r store)
    unfolding retried
    retried-Sound hash (inl e) store h p = retry-Sound (is_not_exist e) e hash store h
    retried-Sound hash (inr c) store h p = cached-Sound hash (inr c) store h p

    read_indexed-Sound :
        (o : Option ChunkEntry) (hash : String) (store : ChunkStore)
        → IsCoherent codec.blake3 store.chunk_cache
        → Sound hash (read_indexed codec others o hash store)
    unfolding read_indexed
    read_indexed-Sound none hash store h = fails hash (chunk_not_found hash) store h
    read_indexed-Sound (some entry) hash store h =
        retried-Sound hash (read_chunk_at codec store hash entry) store h
          (read_chunk_at-Hashed store hash entry)

    read_missed-Sound :
        (o : Option Bytes) (hash : String) (store : ChunkStore)
        → IsCoherent codec.blake3 store.chunk_cache
        → ((chunk : Bytes) → o ≡ some chunk → codec.blake3 chunk ≡ hash)
        → Sound hash (read_missed codec others o hash store)
    unfolding read_missed
    read_missed-Sound none hash store h p =
        read_indexed-Sound (lookup_chunk store hash) hash store h
    read_missed-Sound (some c) hash store h p =
        (h, λ chunk r. p chunk (ap some (inr-injective c chunk r)))

    -- If the cached chunks have their hashes and what others do at a retry keeps it so, a read of
    -- a chunk, from any packs and index, returns only content of the hash that was asked for, and
    -- the cached chunks still have their hashes.
    pub read_chunk-Sound :
        (hash : String) (store : ChunkStore)
        → IsCoherent codec.blake3 store.chunk_cache
        → Sound hash (read_chunk codec others hash store)
    unfolding read_chunk
    read_chunk-Sound hash store h =
        let (after, hit) = get-IsCoherent codec.blake3 store.chunk_cache hash h in
        read_missed-Sound (cache.get store.chunk_cache hash).1 hash
          (record store { chunk_cache = (cache.get store.chunk_cache hash).0 }) after hit
