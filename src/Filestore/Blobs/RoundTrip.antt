-- ===== src/Filestore/Blobs/RoundTrip.antt =====
-- Content that was stored (internal/filestore/chunkstore.go) is read back as it was, and a write keeps the
-- content of the other objects.
use mathlib.Core.List.{flatten}
use mathlib.Core.Path.{subst}
use gmeow.Base.{
  ℕ, ◌+◌, String, Option, none, some, List, [], ◌∷◌, ◌++◌, ◌≡◌, ◌≢◌, refl, sym, ◌∙◌, ap, str_eq,
  string_eq, eq_iff, length, ◌⊎◌, inl, inr, lookup, lookup-insert_same, lookup-insert_other,
  Bool-cases,
}
use gmeow.Filestore.Chunks.{chunk_content, for_each_chunk, streamed, Streamed}
use gmeow.Filestore.Chunks.Split.{chunk_content-flatten}
use gmeow.Filestore.Packs.{Bytes}
use gmeow.Filestore.Blobs.{
  ChunkStore, Codec, Compressed, store_chunk, add_hash, store_next, put_recipe, store_end,
  store_blob_content, read_chunk_at, read_blob_content,
}
use gmeow.Filestore.Blobs.Content.{
  append_assoc, append_nil, HasAll, has_none, HasBlob, HasAll-kept, HasAll-last,
  read_blob_content-ReadsTo,
}
use gmeow.Filestore.Blobs.StoreChunk.{
  HasChunk, IsWhole, Kept, Kept-trans, Stored, store_chunk-Stored,
}

module _ (codec : Codec) where
  -- The codec fails for one of the chunks with the error.
  abbrev pub Fails : String → List Bytes → String → Type 0
  Fails family [] e = ⊥
  Fails family (chunk ∷ chunks) e = (codec.compress family chunk ≡ inl e) ⊎ Fails family chunks e

  -- How the loop over the chunks ends, from the content before.
  record StoredAll (family : String) (chunks : List Bytes) (before : Bytes) (store : ChunkStore)
      (s : Streamed (ChunkStore × List String)) : Type 0 where
    kept : Kept codec store s.state.0
    ends :
        ((e : String) × (s.error ≡ some e) × Fails family chunks e)
        ⊎ ((s.error ≡ none) × HasAll codec s.state.0 s.state.1 (before ++ flatten chunks))

  -- A write of content: the store is whole and has the content of the other objects, and either the
  -- codec failed for a chunk, with this error, or the store has the content.
  pub record Written (family digest : String) (content : Bytes) (store : ChunkStore)
      (result : Option String × ChunkStore) : Type 0 where
    pub whole : IsWhole codec result.1
    pub others :
        (other : String) (c : Bytes)
        → digest ≢ other
        → HasBlob codec store other c
        → HasBlob codec result.1 other c
    pub ends :
        ((e : String) × (result.0 ≡ some e) × Fails family (chunk_content content) e)
        ⊎ ((result.0 ≡ none) × HasBlob codec result.1 digest content)

  module _ (injective : (a b : Bytes) → codec.blake3 a ≡ codec.blake3 b → a ≡ b)
      (inverse : (family : String) (chunk : Bytes) (made : Compressed)
        → codec.compress family chunk ≡ inr made
        → codec.decompress made.compressed made.dict_id ≡ inr chunk) where
    later_fails :
        {family : String} {chunk before : Bytes} {chunks : List Bytes} {store after : ChunkStore}
        (s : Streamed (ChunkStore × List String))
        → Kept codec store after
        → StoredAll family chunks (before ++ chunk) after s
        → StoredAll family (chunk ∷ chunks) before store s
    unfolding flatten
    later_fails {chunk = chunk} {before = before} {chunks = chunks} s kept r = record {
      kept = Kept-trans codec kept r.kept;
      ends = elim r.ends [
        | inl (e, failed, f) ↦ inl (e, failed, inr f)
        | inr (fine, has) ↦ inr (
          fine,
          subst (HasAll codec s.state.0 s.state.1) (append_assoc before chunk (flatten chunks)) has,
        )
      ];
    }

    module _ (now : ℕ) (family : String) where
      store_rest :
          (chunk : Bytes) (chunks : List Bytes) (before : Bytes) (total : ℕ) (store : ChunkStore)
          (hashes : List String) (r : (String ⊎ String) × ChunkStore)
          → HasAll codec store hashes before
          → Stored codec family chunk store r
          → ((after : ChunkStore) (hashes : List String)
              → IsWhole codec after
              → HasAll codec after hashes (before ++ chunk)
              → StoredAll family chunks (before ++ chunk) after (
                  for_each_chunk
                    (store_next codec now family)
                    chunks
                    (total + length chunk)
                    (after, hashes)))
          → StoredAll family (chunk ∷ chunks) before store (
              let (error, state) = add_hash codec r hashes in
              streamed error total state
                (for_each_chunk (store_next codec now family) chunks (total + length chunk) state))
      unfolding add_hash streamed
      store_rest chunk chunks before total store hashes (inl e, after) has (failed, kept) continue =
          record { kept = kept; ends = inl (e, refl, inl failed) }
      store_rest chunk chunks before total store hashes (inr hash, after) has (new, kept) continue =
          later_fails _ kept (
            continue after (hashes ++ hash ∷ []) kept.whole
              (HasAll-last codec hash chunk (HasAll-kept codec kept.has has) new))

      store_all :
          (chunks : List Bytes) (before : Bytes) (total : ℕ) (store : ChunkStore)
          (hashes : List String)
          → IsWhole codec store
          → HasAll codec store hashes before
          → StoredAll family chunks before store
              (for_each_chunk (store_next codec now family) chunks total (store, hashes))
      unfolding for_each_chunk store_next flatten
      store_all [] before total store hashes whole has = record {
        kept = record { whole = whole; has = λ _ _ h. h; recipes = refl };
        ends = inr (refl, subst (HasAll codec store hashes) (sym (append_nil before)) has);
      }
      store_all (chunk ∷ chunks) before total store hashes whole has =
          store_rest chunk chunks before total store hashes
            (store_chunk codec now family chunk store) has
            (store_chunk-Stored codec injective inverse now family chunk store whole)
            (λ after hashes' w h.
              store_all chunks (before ++ chunk) (total + length chunk) after hashes' w h)

    put_recipe_other :
        (now : ℕ) (digest other : String) (size : ℕ) (hashes : List String) (store : ChunkStore)
        → digest ≢ other
        → lookup other (put_recipe codec now digest size hashes store).recipes
          ≡ lookup other store.recipes
    unfolding put_recipe
    put_recipe_other now digest other size hashes store differs =
        elim (Bool-cases (str_eq digest other)) [
          | inl same ↦ absurd (differs ((eq_iff digest other).0 same))
          | inr other_key ↦ lookup-insert_other digest other _ store.recipes other_key
        ]

    put_recipe-HasChunk :
        (now : ℕ) (digest : String) (size : ℕ) (hashes : List String) (store : ChunkStore)
        (hash : String) (chunk : Bytes)
        → HasChunk codec store hash chunk
        → HasChunk codec (put_recipe codec now digest size hashes store) hash chunk
    unfolding put_recipe read_chunk_at
    put_recipe-HasChunk now digest size hashes store hash chunk h = record {
      entry = h.entry;
      found = h.found;
      reads = h.reads;
    }

    put_recipe-IsWhole :
        (now : ℕ) (digest : String) (size : ℕ) (hashes : List String) (store : ChunkStore)
        → IsWhole codec store
        → IsWhole codec (put_recipe codec now digest size hashes store)
    unfolding put_recipe read_chunk_at
    put_recipe-IsWhole now digest size hashes store h = record {
      active = h.active;
      coherent = h.coherent;
      indexed = h.indexed;
    }

    put_recipe-HasBlob :
        (now : ℕ) (digest : String) (content : Bytes) (hashes : List String) (store : ChunkStore)
        → HasAll codec store hashes content
        → HasBlob codec (put_recipe codec now digest (length content) hashes store) digest content
    unfolding put_recipe
    put_recipe-HasBlob now digest content hashes store h = record {
      recipe = record {
        updated_at = now;
        digest = digest;
        chunk_hashes = hashes;
        content_bytes = length content;
      };
      found = lookup-insert_same digest _ store.recipes;
      chunks = HasAll-kept codec (put_recipe-HasChunk now digest (length content) hashes store) h;
    }

    blob_kept :
        {store after : ChunkStore} (other : String) (c : Bytes)
        → ((hash : String) (chunk : Bytes)
            → HasChunk codec store hash chunk
            → HasChunk codec after hash chunk)
        → lookup other after.recipes ≡ lookup other store.recipes
        → HasBlob codec store other c
        → HasBlob codec after other c
    blob_kept other c f same h = record {
      recipe = h.recipe;
      found = same ∙ h.found;
      chunks = HasAll-kept codec f h.chunks;
    }

    written :
        (now : ℕ) (family digest : String) (content : Bytes) (store : ChunkStore)
        (error : Option String) (state : ChunkStore × List String)
        → Kept codec store state.0
        → ((e : String) × (error ≡ some e) × Fails family (chunk_content content) e)
          ⊎ ((error ≡ none) × HasAll codec state.0 state.1 content)
        → Written family digest content store
            (store_end codec now digest (length content) error state)
    unfolding store_end
    written now family digest content store (some e) (after, hashes) kept ends = record {
      whole = kept.whole;
      others = λ other c differs. blob_kept other c kept.has (ap (lookup other) kept.recipes);
      ends = elim ends [ inl failed ↦ inl failed | inr (fine, h) ↦ absurd (cc) ];
    }
    written now family digest content store none (after, hashes) kept ends = record {
      whole = put_recipe-IsWhole now digest (length content) hashes after kept.whole;
      others = λ other c differs.
          blob_kept other c
            (λ hash chunk h.
              put_recipe-HasChunk now digest (length content) hashes after hash chunk
                (kept.has hash chunk h))
            (put_recipe_other now digest other (length content) hashes after differs
              ∙ ap (lookup other) kept.recipes);
      ends = elim ends [
        | inl (e, failed, f) ↦ absurd (cc)
        | inr (fine, h) ↦ inr (refl, put_recipe-HasBlob now digest content hashes after h)
      ];
    }

    -- If the hash has no collisions and the codec decompresses what it compressed, storing
    -- content in a whole store leaves a whole store that has the content of every other object
    -- still, and either the codec failed for a chunk, with the error that is returned, or the
    -- store has the content.
    pub store_blob_content-Written :
        (now : ℕ) (digest : String) (content : Bytes) (family : String) (store : ChunkStore)
        → IsWhole codec store
        → Written family digest content store
            (store_blob_content codec now digest content family store)
    unfolding store_blob_content
    store_blob_content-Written now digest content family store whole =
        let s =
          for_each_chunk (store_next codec now family) (chunk_content content) 0 (store, []) in
        let all = store_all now family (chunk_content content) [] 0 store [] whole has_none in
        written now family digest content store s.error s.state all.kept (elim all.ends [
          | inl failed ↦ inl failed
          | inr (fine, h) ↦
              inr
                (fine, subst (HasAll codec s.state.0 s.state.1) (chunk_content-flatten content).0 h)
        ])

    -- If the hash has no collisions and the codec decompresses what it compressed, then after
    -- content is stored in a whole store, either the codec had failed for a chunk, with the error
    -- that is returned, or there is no error and a read of the object returns the content,
    -- whatever others do at a retry.
    pub store_blob_content-read_blob_content :
        (now : ℕ) (digest : String) (content : Bytes) (family : String)
        (others : ChunkStore → ChunkStore) (store : ChunkStore)
        → IsWhole codec store
        → let (error, after) = store_blob_content codec now digest content family store in
          ((e : String) × (error ≡ some e) × Fails family (chunk_content content) e)
          ⊎ ((error ≡ none)
              × ((read_blob_content codec others digest after).0 ≡ some (inr content)))
    store_blob_content-read_blob_content now digest content family others store whole =
        let w = store_blob_content-Written now digest content family store whole in
        elim w.ends [
          | inl failed ↦ inl failed
          | inr (fine, has) ↦
              let (c, same, coherent) =
                read_blob_content-ReadsTo codec injective others digest content _ w.whole.coherent
                  has in
              inr (fine, ap (λ r. r.0) same)
        ]
