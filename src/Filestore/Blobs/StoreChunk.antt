-- ===== src/Filestore/Blobs/StoreChunk.antt =====
-- What a write of a chunk (internal/filestore/chunkstore.go) promises: the chunk is there, and those that
-- were there still are.
use mathlib.Core.Path.{subst}
use mathlib.Core.Option.{some-injective}
use gmeow.Base.{
  ℕ, String, false, Option, none, some, ◌≡◌, refl, sym, ◌∙◌, ap, str_eq, string_eq, eq_iff, length,
  if◌then◌else◌, ◌⊎◌, inl, inr, lookup, lookup-insert_same, lookup-insert_other, Bool-cases,
}
use gmeow.Filestore.Packs.{Bytes, PackRead, read, missing, short, append_to_active_pack}
use gmeow.Filestore.Packs.Append.{IsActive, Appended, append_to_active_pack-Appended}
use gmeow.Filestore.Blobs.{
  ChunkEntry, ChunkStore, Codec, Compressed, failed_verification, lookup_chunk, verified, unpacked,
  read_chunk_at, append_chunk, store_locked, store_compressed, store_absent, store_chunk,
}
use gmeow.Filestore.Blobs.Coherent.{IsCoherent}
use gmeow.Filestore.Blobs.Fetch.{read_chunk_at-Hashed}

module _ (codec : Codec) where
  -- The index has the hash, and where it points the chunk is read.
  pub record HasChunk (store : ChunkStore) (hash : String) (chunk : Bytes) : Type 0 where
    pub entry : ChunkEntry
    pub found : lookup hash store.chunk_index ≡ some entry
    pub reads : read_chunk_at codec store hash entry ≡ inr chunk

  -- Each hash of the index has its chunk, and the cached state of the packs and of the chunks is so.
  pub record IsWhole (store : ChunkStore) : Type 0 where
    pub active : IsActive store.packs
    pub coherent : IsCoherent codec.blake3 store.chunk_cache
    pub indexed :
        (hash : String) (entry : ChunkEntry)
        → lookup hash store.chunk_index ≡ some entry
        → (chunk : Bytes) × (read_chunk_at codec store hash entry ≡ inr chunk)

  -- What a write of chunks leaves: a whole store with all chunks that it had, and the same recipes.
  pub record Kept (store after : ChunkStore) : Type 0 where
    pub whole : IsWhole after
    pub has :
        (hash : String) (chunk : Bytes) → HasChunk store hash chunk → HasChunk after hash chunk
    pub recipes : after.recipes ≡ store.recipes

  pub Kept-trans : {a b c : ChunkStore} → Kept a b → Kept b c → Kept a c
  Kept-trans f g = record {
    whole = g.whole;
    has = λ hash chunk h. g.has hash chunk (f.has hash chunk h);
    recipes = g.recipes ∙ f.recipes;
  }

  pub unpacked_kept :
      (hash : String) (entry : ChunkEntry) (chunk : Bytes) (r s : PackRead)
      → ((z : Bytes) → r ≡ read z → s ≡ read z)
      → unpacked codec hash entry r ≡ inr chunk
      → unpacked codec hash entry s ≡ inr chunk
  unfolding unpacked
  unpacked_kept hash entry chunk missing s f h = absurd (cc)
  unpacked_kept hash entry chunk short s f h = absurd (cc)
  unpacked_kept hash entry chunk (read z) s f h = ap (unpacked codec hash entry) (f z refl) ∙ h

  module _ (now : ℕ) (made : Compressed) (hash : String) (chunk : Bytes) (store : ChunkStore) where
    new_entry : ChunkEntry
    new_entry =
        let place = (append_to_active_pack store.packs made.compressed).1 in
        record {
          updated_at = now;
          chunk_hash = hash;
          dict_id = made.dict_id;
          dict_family = made.dict_family;
          pack_id = place.0;
          offset = place.1;
          size = length made.compressed;
        }

    appended :
        IsWhole store
        → Appended store.packs
            (append_to_active_pack store.packs made.compressed).0
            made.compressed
            (append_to_active_pack store.packs made.compressed).1
    appended h = append_to_active_pack-Appended store.packs made.compressed h.active

    reads_new :
        IsWhole store
        → codec.blake3 chunk ≡ hash
        → codec.decompress made.compressed made.dict_id ≡ inr chunk
        → read_chunk_at codec (append_chunk codec now hash made store) hash new_entry ≡ inr chunk
    unfolding read_chunk_at append_chunk unpacked verified new_entry
    reads_new h same unpacks =
        ap (unpacked codec hash new_entry) (appended h).new
        ∙ ap (verified codec hash) unpacks
        ∙ ap (λ b. if b then inr chunk else inl (failed_verification hash))
            ((eq_iff (codec.blake3 chunk) hash).1 same)

    reads_kept :
        IsWhole store
        → (other : String) (entry : ChunkEntry) (c : Bytes)
        → read_chunk_at codec store other entry ≡ inr c
        → read_chunk_at codec (append_chunk codec now hash made store) other entry ≡ inr c
    unfolding read_chunk_at append_chunk
    reads_kept h other entry c =
        unpacked_kept other entry c _ _ ((appended h).kept entry.pack_id entry.offset entry.size)

    found_new : lookup hash (append_chunk codec now hash made store).chunk_index ≡ some new_entry
    unfolding append_chunk new_entry
    found_new = lookup-insert_same hash new_entry store.chunk_index

    found_other :
        (other : String)
        → str_eq hash other ≡ false
        → lookup other (append_chunk codec now hash made store).chunk_index
          ≡ lookup other store.chunk_index
    unfolding append_chunk new_entry
    found_other other differs = lookup-insert_other hash other new_entry store.chunk_index differs

    has_new :
        IsWhole store
        → codec.blake3 chunk ≡ hash
        → codec.decompress made.compressed made.dict_id ≡ inr chunk
        → HasChunk (append_chunk codec now hash made store) hash chunk
    has_new h same unpacks = record {
      entry = new_entry;
      found = found_new;
      reads = reads_new h same unpacks;
    }

    has_kept :
        IsWhole store
        → lookup hash store.chunk_index ≡ none
        → (other : String) (c : Bytes) → HasChunk store other c
        → HasChunk (append_chunk codec now hash made store) other c
    has_kept h absent other c has = elim (Bool-cases (str_eq hash other)) [
      | inl same ↦ absurd (
          let equal = (eq_iff hash other).0 same in
          let found = ap (λ k. lookup k store.chunk_index) equal ∙ has.found in cc (absent, found))
      | inr differs ↦ record {
        entry = has.entry;
        found = found_other other differs ∙ has.found;
        reads = reads_kept h other has.entry c has.reads;
      }
    ]

    indexed_after :
        IsWhole store
        → codec.blake3 chunk ≡ hash
        → codec.decompress made.compressed made.dict_id ≡ inr chunk
        → (other : String) (entry : ChunkEntry)
        → lookup other (append_chunk codec now hash made store).chunk_index ≡ some entry
        → (c : Bytes) × (read_chunk_at codec (append_chunk codec now hash made store) other entry
            ≡ inr c)
    indexed_after h same unpacks other entry found = elim (Bool-cases (str_eq hash other)) [
      | inl equal ↦
          let key = (eq_iff hash other).0 equal in
          let at_new =
            ap (λ k. lookup k (append_chunk codec now hash made store).chunk_index) key ∙ found in
          let entries = some-injective new_entry entry (sym found_new ∙ at_new) in
          (
            chunk,
            subst
                (λ k.
                  read_chunk_at codec (append_chunk codec now hash made store) k entry ≡ inr chunk)
                key
                (subst
                  (λ x.
                    read_chunk_at codec (append_chunk codec now hash made store) hash x ≡ inr chunk)
                  entries (reads_new h same unpacks)),
          )
      | inr differs ↦
          let (c, reads) = h.indexed other entry (sym (found_other other differs) ∙ found) in
          (c, reads_kept h other entry c reads)
    ]

    append_chunk-Kept :
        IsWhole store
        → lookup hash store.chunk_index ≡ none
        → codec.blake3 chunk ≡ hash
        → codec.decompress made.compressed made.dict_id ≡ inr chunk
        → Kept store (append_chunk codec now hash made store)
    unfolding append_chunk
    append_chunk-Kept h absent same unpacks = record {
      whole = record {
        active = (appended h).active;
        coherent = h.coherent;
        indexed = indexed_after h same unpacks;
      };
      has = has_kept h absent;
      recipes = refl;
    }

  -- The error of the codec and the store of before, or the chunk under its hash.
  abbrev pub Stored : String → Bytes → ChunkStore → (String ⊎ String) × ChunkStore → Type 0
  Stored family chunk store (inl e, after) =
      (codec.compress family chunk ≡ inl e) × Kept store after
  Stored family chunk store (inr hash, after) = HasChunk after hash chunk × Kept store after

  module _ (injective : (a b : Bytes) → codec.blake3 a ≡ codec.blake3 b → a ≡ b)
      (inverse : (family : String) (chunk : Bytes) (made : Compressed)
        → codec.compress family chunk ≡ inr made
        → codec.decompress made.compressed made.dict_id ≡ inr chunk) where
    -- Where a hash is in the index, its chunk is the one of that hash.
    known :
        (store : ChunkStore) (chunk : Bytes) (entry : ChunkEntry)
        → IsWhole store
        → lookup (codec.blake3 chunk) store.chunk_index ≡ some entry
        → HasChunk store (codec.blake3 chunk) chunk
    known store chunk entry h found =
        let (c, reads) = h.indexed (codec.blake3 chunk) entry found in
        let same =
          injective c chunk (read_chunk_at-Hashed codec store (codec.blake3 chunk) entry c reads) in
        record { entry = entry; found = found; reads = reads ∙ ap inr same }

    unchanged : (store : ChunkStore) → IsWhole store → Kept store store
    unchanged store h = record { whole = h; has = λ hash chunk has. has; recipes = refl }

    -- Also where the index has changed since the first look at it.
    store_locked-Stored :
        (o : Option ChunkEntry) (now : ℕ) (family : String) (chunk : Bytes) (made : Compressed)
        (store : ChunkStore)
        → IsWhole store
        → lookup (codec.blake3 chunk) store.chunk_index ≡ o
        → codec.compress family chunk ≡ inr made
        → Stored family chunk store (store_locked codec o now (codec.blake3 chunk) made store)
    unfolding store_locked
    store_locked-Stored (some entry) now family chunk made store h found packed =
        (known store chunk entry h found, unchanged store h)
    store_locked-Stored none now family chunk made store h absent packed =
        let unpacks = inverse family chunk made packed in
        (
          has_new now made (codec.blake3 chunk) chunk store h refl unpacks,
          append_chunk-Kept now made (codec.blake3 chunk) chunk store h absent refl unpacks,
        )

    store_compressed-Stored :
        (z : String ⊎ Compressed) (now : ℕ) (family : String) (chunk : Bytes) (store : ChunkStore)
        → IsWhole store
        → codec.compress family chunk ≡ z
        → Stored family chunk store (store_compressed codec z now (codec.blake3 chunk) store)
    unfolding store_compressed lookup_chunk
    store_compressed-Stored (inl e) now family chunk store h packed = (packed, unchanged store h)
    store_compressed-Stored (inr made) now family chunk store h packed =
        store_locked-Stored (lookup (codec.blake3 chunk) store.chunk_index) now family chunk made
          store h refl packed

    store_absent-Stored :
        (o : Option ChunkEntry) (now : ℕ) (family : String) (chunk : Bytes) (store : ChunkStore)
        → IsWhole store
        → lookup (codec.blake3 chunk) store.chunk_index ≡ o
        → Stored family chunk store
            (store_absent codec o now family chunk (codec.blake3 chunk) store)
    unfolding store_absent
    store_absent-Stored (some entry) now family chunk store h found =
        (known store chunk entry h found, unchanged store h)
    store_absent-Stored none now family chunk store h absent =
        store_compressed-Stored (codec.compress family chunk) now family chunk store h refl

    pub store_chunk-Stored :
        (now : ℕ) (family : String) (chunk : Bytes) (store : ChunkStore)
        → IsWhole store
        → Stored family chunk store (store_chunk codec now family chunk store)
    unfolding store_chunk lookup_chunk
    store_chunk-Stored now family chunk store h =
        store_absent-Stored (lookup (codec.blake3 chunk) store.chunk_index) now family chunk store h
          refl
