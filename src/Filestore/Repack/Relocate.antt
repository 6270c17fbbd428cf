-- ===== src/Filestore/Repack/Relocate.antt =====
-- What the relocation of live chunks (internal/filestore/repack.go) keeps.
use mathlib.Core.Path.{subst}
use mathlib.Core.Option.{some-injective}
use gmeow.Base.{
  ℕ, String, Option, none, some, List, [], ◌∷◌, ◌≡◌, refl, sym, ◌∙◌, ap, str_eq, string_eq, eq_iff,
  inl, inr, lookup, insert, lookup-insert_same, lookup-insert_other, Bool-cases, All,
}
use gmeow.Filestore.Packs.{
  Bytes, PackRead, read, missing, short, append_to_active_pack, read_pack_bytes,
}
use gmeow.Filestore.Packs.Append.{append_to_active_pack-Appended, read_pack_bytes-length}
use gmeow.Filestore.Blobs.{ChunkEntry, ChunkStore, Codec, unpacked, read_chunk_at}
use gmeow.Filestore.Blobs.Fetch.{read_chunk_at-Hashed}
use gmeow.Filestore.Blobs.StoreChunk.{IsWhole, Kept, Kept-trans, unpacked_kept}
use gmeow.Filestore.Repack.{
  relocated, put_relocated, append_raw, relocate_read, relocate_live_chunks,
}

module _ (codec : Codec) where
  -- The entry leads to a chunk of its hash.
  abbrev pub IsReadable : ChunkStore → ChunkEntry → Type 0
  IsReadable store entry =
      (chunk : Bytes) × (read_chunk_at codec store entry.chunk_hash entry ≡ inr chunk)

  pack_of :
      (hash : String) (entry : ChunkEntry) (r : PackRead) (chunk : Bytes)
      → unpacked codec hash entry r ≡ inr chunk
      → (raw : Bytes) × (r ≡ read raw)
  unfolding unpacked
  pack_of hash entry missing chunk h = absurd (cc)
  pack_of hash entry short chunk h = absurd (cc)
  pack_of hash entry (read raw) chunk h = (raw, refl)

  readable_pack :
      (store : ChunkStore) (hash : String) (entry : ChunkEntry) (chunk : Bytes)
      → read_chunk_at codec store hash entry ≡ inr chunk
      → (raw : Bytes) × (read_pack_bytes store.packs entry.pack_id entry.offset entry.size
          ≡ read raw)
  unfolding read_chunk_at
  readable_pack store hash entry = pack_of hash entry _

  module _ (raw : Bytes) (store : ChunkStore) (whole : IsWhole codec store) where
    appended_reads :
        (hash : String) (entry : ChunkEntry) (chunk : Bytes)
        → read_chunk_at codec store hash entry ≡ inr chunk
        → read_chunk_at codec (append_raw raw store).0 hash entry ≡ inr chunk
    unfolding read_chunk_at append_raw
    appended_reads hash entry chunk = unpacked_kept codec hash entry chunk _ _ (
        (append_to_active_pack-Appended store.packs raw whole.active).kept entry.pack_id
          entry.offset entry.size)

    append_raw-Kept : Kept codec store (append_raw raw store).0
    unfolding append_raw
    append_raw-Kept = record {
      whole = record {
        active = (append_to_active_pack-Appended store.packs raw whole.active).active;
        coherent = whole.coherent;
        indexed = λ hash entry found.
            let (chunk, reads) = whole.indexed hash entry found in
            (chunk, appended_reads hash entry chunk reads);
      };
      has = λ hash chunk h. record {
        entry = h.entry;
        found = h.found;
        reads = appended_reads hash h.entry chunk h.reads;
      };
      recipes = refl;
    }

    -- The bytes of an entry are at the new place, too.
    relocated_reads :
        (now : ℕ) (entry : ChunkEntry) (chunk : Bytes)
        → read_pack_bytes store.packs entry.pack_id entry.offset entry.size ≡ read raw
        → read_chunk_at codec store entry.chunk_hash entry ≡ inr chunk
        → read_chunk_at codec
            (append_raw raw store).0
            entry.chunk_hash
            (relocated now entry (append_raw raw store).1)
          ≡ inr chunk
    unfolding read_chunk_at append_raw relocated unpacked
    relocated_reads now entry chunk there reads =
        let place = (append_to_active_pack store.packs raw).1 in
        let after = (append_to_active_pack store.packs raw).0 in
        let sized =
          read_pack_bytes-length store.packs entry.pack_id entry.offset entry.size raw there in
        let new = (append_to_active_pack-Appended store.packs raw whole.active).new in
        let found = subst (λ n. read_pack_bytes after place.0 place.1 n ≡ read raw) sized new in
        ap (unpacked codec entry.chunk_hash (relocated now entry place)) found
        ∙ sym (ap (unpacked codec entry.chunk_hash entry) there)
        ∙ reads

  module _ (injective : (a b : Bytes) → codec.blake3 a ≡ codec.blake3 b → a ≡ b) where
    -- An entry that is read with the same content takes the place of another.
    insert_entry-Kept :
        (hash : String) (entry : ChunkEntry) (chunk : Bytes) (store : ChunkStore)
        → IsWhole codec store
        → read_chunk_at codec store hash entry ≡ inr chunk
        → Kept codec store (record store { chunk_index = insert hash entry store.chunk_index })
    unfolding read_chunk_at
    insert_entry-Kept hash entry chunk store whole reads = record {
      whole = record {
        active = whole.active;
        coherent = whole.coherent;
        indexed = λ other found_entry found. elim (Bool-cases (str_eq hash other)) [
          | inl same ↦
              let key = (eq_iff hash other).0 same in
              let at_new =
                sym (lookup-insert_same hash entry store.chunk_index)
                ∙ ap (λ k. lookup k (insert hash entry store.chunk_index)) key
                ∙ found in
              (
                chunk,
                subst (λ e. read_chunk_at codec store other e ≡ inr chunk)
                    (some-injective entry found_entry at_new)
                    (subst (λ k. read_chunk_at codec store k entry ≡ inr chunk) key reads),
              )
          | inr differs ↦
              whole.indexed other found_entry
                (sym (lookup-insert_other hash other entry store.chunk_index differs) ∙ found)
        ];
      };
      has = λ other c h. elim (Bool-cases (str_eq hash other)) [
        | inl same ↦
            let key = (eq_iff hash other).0 same in
            let mine = read_chunk_at-Hashed codec store hash entry chunk reads in
            let its = read_chunk_at-Hashed codec store other h.entry c h.reads in
            let equal = injective chunk c (mine ∙ key ∙ sym its) in
            record {
              entry = entry;
              found =
                  ap (λ k. lookup k (insert hash entry store.chunk_index)) (sym key)
                  ∙ lookup-insert_same hash entry store.chunk_index;
              reads =
                  subst (λ k. read_chunk_at codec store k entry ≡ inr c) key (reads ∙ ap inr equal);
            }
        | inr differs ↦ record {
          entry = h.entry;
          found = lookup-insert_other hash other entry store.chunk_index differs ∙ h.found;
          reads = h.reads;
        }
      ];
      recipes = refl;
    }

    -- A write of the index leaves the packs, and so what the entries lead to.
    put_relocated-Kept :
        (o : Option ChunkEntry) (now : ℕ) (entry : ChunkEntry) (place : ℕ × ℕ) (moved : ℕ)
        (chunk : Bytes) (store : ChunkStore)
        → IsWhole codec store
        → read_chunk_at codec store entry.chunk_hash (relocated now entry place) ≡ inr chunk
        → Kept codec store (put_relocated o now entry place moved store).1
          × ((put_relocated o now entry place moved store).1.packs ≡ store.packs)
    unfolding put_relocated
    put_relocated-Kept none now entry place moved chunk store whole reads =
        (record { whole = whole; has = λ _ _ h. h; recipes = refl }, refl)
    put_relocated-Kept (some e) now entry place moved chunk store whole reads = (
      insert_entry-Kept entry.chunk_hash (relocated now entry place) chunk store whole reads,
      refl,
    )

    same_packs :
        (store after : ChunkStore) (hash : String) (entry : ChunkEntry) (chunk : Bytes)
        → after.packs ≡ store.packs
        → read_chunk_at codec store hash entry ≡ inr chunk
        → read_chunk_at codec after hash entry ≡ inr chunk
    unfolding read_chunk_at
    same_packs store after hash entry chunk same reads =
        ap
          (λ p. unpacked codec hash entry (read_pack_bytes p entry.pack_id entry.offset entry.size))
          same
        ∙ reads

    IsReadable-all :
        (store after : ChunkStore) (live : List ChunkEntry)
        → ((entry : ChunkEntry) → IsReadable store entry → IsReadable after entry)
        → All (IsReadable store) live
        → All (IsReadable after) live
    IsReadable-all store after [] f h = tt
    IsReadable-all store after (entry ∷ live) f (own, h) =
        (f entry own, IsReadable-all store after live f h)

    -- If the hash has no collisions, the store is whole and each live entry leads to a chunk of
    -- its hash, a relocation ends without an error and leaves a whole store that has every chunk
    -- and recipe that it had.
    pub relocate_live_chunks-Kept :
        (now : ℕ) (live : List ChunkEntry) (moved : ℕ) (store : ChunkStore)
        → IsWhole codec store
        → All (IsReadable store) live
        → ((relocate_live_chunks now live moved store).0.0 ≡ none)
          × Kept codec store (relocate_live_chunks now live moved store).1
    unfolding relocate_live_chunks relocate_read
    relocate_live_chunks-Kept now [] moved store whole readable =
        (refl, record { whole = whole; has = λ _ _ h. h; recipes = refl })
    relocate_live_chunks-Kept now (entry ∷ live) moved store whole ((chunk, reads), readable) =
        let (raw, there) = readable_pack store entry.chunk_hash entry chunk reads in
        let appended = (append_raw raw store).0 in
        let place = (append_raw raw store).1 in
        let first = append_raw-Kept raw store whole in
        let put =
          put_relocated (lookup entry.chunk_hash appended.chunk_index) now entry place moved
            appended in
        let (second, packs) =
          put_relocated-Kept (lookup entry.chunk_hash appended.chunk_index) now entry place moved
            chunk appended first.whole
            (relocated_reads raw store whole now entry chunk there reads) in
        let both = Kept-trans codec first second in
        let still =
          IsReadable-all store put.1 live
            (λ e r. (
              r.0,
              same_packs appended put.1 e.chunk_hash e r.0 packs
                  (appended_reads raw store whole e.chunk_hash e r.0 r.1),
            ))
            readable in
        let (fine, rest) = relocate_live_chunks-Kept now live put.0 put.1 both.whole still in
        subst
          (λ r.
            ((relocate_read r now entry moved store (relocate_live_chunks now live)).0.0 ≡ none)
            × Kept codec store
                (relocate_read r now entry moved store (relocate_live_chunks now live)).1)
          (sym there) (fine, Kept-trans codec both rest)
