-- ===== src/Filestore/Blobs/Content.antt =====
-- The content that a store (internal/filestore/chunkstore.go) has for an object is what is read.
use mathlib.Core.Path.{subst}
use gmeow.Base.{
  String, Option, none, some, List, [], ◌∷◌, ◌++◌, ◌≡◌, refl, sym, ◌∙◌, ap, string_eq, ◌⊎◌, inr,
  lookup,
}
use gmeow.Cache.Sized as cache
use gmeow.Cache.Sized.{Sized}
use gmeow.Filestore.Packs.{Bytes}
use gmeow.Filestore.Blobs.{
  ChunkStore, Recipe, Codec, ReadError, lookup_chunk, read_recipe, read_chunk_at, cached, retried,
  read_indexed, read_missed, read_chunk, read_next, read_chunks, read_by, read_blob_content,
}
use gmeow.Filestore.Blobs.Coherent.{IsCoherent, get-IsCoherent, put-IsCoherent}
use gmeow.Filestore.Blobs.Fetch.{read_chunk_at-Hashed}
use gmeow.Filestore.Blobs.StoreChunk.{HasChunk}

pub append_assoc : (xs ys zs : Bytes) → (xs ++ ys) ++ zs ≡ xs ++ (ys ++ zs)
append_assoc [] ys zs = refl
append_assoc (x ∷ xs) ys zs = ap (λ l. x ∷ l) (append_assoc xs ys zs)

pub append_nil : (xs : Bytes) → xs ++ [] ≡ xs
append_nil [] = refl
append_nil (x ∷ xs) = ap (λ l. x ∷ l) (append_nil xs)

module _ (codec : Codec) where
  -- The chunks of the hashes are there, and make up the content.
  pub data HasAll (store : ChunkStore) : List String → Bytes → Type 0 where
    has_none : HasAll store [] []
    has_next :
        {hash : String} {hashes : List String} {chunk rest : Bytes}
        → HasChunk codec store hash chunk
        → HasAll store hashes rest
        → HasAll store (hash ∷ hashes) (chunk ++ rest)

  -- The object has a recipe for the content.
  pub record HasBlob (store : ChunkStore) (digest : String) (content : Bytes) : Type 0 where
    pub recipe : Recipe
    pub found : lookup digest store.recipes ≡ some recipe
    pub chunks : HasAll store recipe.chunk_hashes content

  pub HasAll-kept :
      {store after : ChunkStore} {hashes : List String} {content : Bytes}
      → ((hash : String) (chunk : Bytes)
          → HasChunk codec store hash chunk
          → HasChunk codec after hash chunk)
      → HasAll store hashes content
      → HasAll after hashes content
  HasAll-kept f has_none = has_none
  HasAll-kept f (has_next h hs) = has_next (f _ _ h) (HasAll-kept f hs)

  pub HasAll-last :
      {store : ChunkStore} {hashes : List String} {content : Bytes} (hash : String) (chunk : Bytes)
      → HasAll store hashes content
      → HasChunk codec store hash chunk
      → HasAll store (hashes ++ hash ∷ []) (content ++ chunk)
  HasAll-last hash chunk has_none h = subst (HasAll _ _) (append_nil chunk) (has_next h has_none)
  HasAll-last hash chunk (has_next {chunk = first} {rest = rest} g gs) h =
      subst (HasAll _ _) (sym (append_assoc first rest chunk))
        (has_next g (HasAll-last hash chunk gs h))

  -- A read of a chunk hands it back and changes nothing but the cache.
  pub record ReadsTo (store : ChunkStore) (content : Bytes)
      (result : (ReadError ⊎ Bytes) × ChunkStore) : Type 0 where
    pub cache_after : Sized String
    pub same : result ≡ (inr content, record store { chunk_cache = cache_after })
    pub coherent : IsCoherent codec.blake3 cache_after

  module _ (injective : (a b : Bytes) → codec.blake3 a ≡ codec.blake3 b → a ≡ b)
      (others : ChunkStore → ChunkStore) where
    missed :
        (o : Option Bytes) (hash : String) (chunk : Bytes) (store : ChunkStore)
        → IsCoherent codec.blake3 store.chunk_cache
        → ((c : Bytes) → o ≡ some c → codec.blake3 c ≡ hash)
        → HasChunk codec store hash chunk
        → ReadsTo store chunk (read_missed codec others o hash store)
    unfolding read_missed read_indexed retried cached lookup_chunk
    missed (some c) hash chunk store h p has =
        let hashed = read_chunk_at-Hashed codec store hash has.entry chunk has.reads in
        record {
          cache_after = store.chunk_cache;
          same = ap (λ x. (inr x, store)) (injective c chunk (p c refl ∙ sym hashed));
          coherent = h;
        }
    missed none hash chunk store h p has =
        let hashed = read_chunk_at-Hashed codec store hash has.entry chunk has.reads in
        record {
          cache_after = cache.put store.chunk_cache hash chunk;
          same =
              ap (λ o. read_indexed codec others o hash store) has.found
              ∙ ap (λ r. retried codec others hash r store) has.reads;
          coherent = put-IsCoherent codec.blake3 store.chunk_cache hash chunk h hashed;
        }

    transfer :
        {store : ChunkStore} {hash : String} {chunk : Bytes} (c : Sized String)
        → HasChunk codec store hash chunk
        → HasChunk codec (record store { chunk_cache = c }) hash chunk
    unfolding read_chunk_at
    transfer c h = record { entry = h.entry; found = h.found; reads = h.reads }

    read_chunk-ReadsTo :
        (hash : String) (chunk : Bytes) (store : ChunkStore)
        → IsCoherent codec.blake3 store.chunk_cache
        → HasChunk codec store hash chunk
        → ReadsTo store chunk (read_chunk codec others hash store)
    unfolding read_chunk
    read_chunk-ReadsTo hash chunk store h has =
        let (after, hit) = get-IsCoherent codec.blake3 store.chunk_cache hash h in
        let c = (cache.get store.chunk_cache hash).0 in
        let r =
          missed (cache.get store.chunk_cache hash).1 hash chunk (record store { chunk_cache = c })
            after hit (transfer c has) in
        record { cache_after = r.cache_after; same = r.same; coherent = r.coherent }

    read_chunks-ReadsTo :
        (hashes : List String) (content before : Bytes) (store : ChunkStore)
        → IsCoherent codec.blake3 store.chunk_cache
        → HasAll store hashes content
        → ReadsTo store (before ++ content) (read_chunks codec others hashes before store)
    unfolding read_chunks read_next
    read_chunks-ReadsTo [] _ before store h has_none = record {
      cache_after = store.chunk_cache;
      same = ap (λ x. (inr x, store)) (sym (append_nil before));
      coherent = h;
    }
    read_chunks-ReadsTo (hash ∷ hashes) _ before store h
          (has_next {chunk = chunk} {rest = rest} g gs) =
        let first = read_chunk-ReadsTo hash chunk store h g in
        let c = first.cache_after in
        let next =
          read_chunks-ReadsTo hashes rest (before ++ chunk) (record store { chunk_cache = c })
            first.coherent (HasAll-kept (λ _ _. transfer c) gs) in
        record {
          cache_after = next.cache_after;
          same =
              ap (λ r. read_next codec others r.0 r.1 before (read_chunks codec others hashes))
                first.same
              ∙ next.same
              ∙ ap (λ x. (inr x, record store { chunk_cache = next.cache_after }))
                  (append_assoc before chunk rest);
          coherent = next.coherent;
        }

    -- Whatever others do: the content is found and there is no retry.
    pub read_blob_content-ReadsTo :
        (digest : String) (content : Bytes) (store : ChunkStore)
        → IsCoherent codec.blake3 store.chunk_cache
        → HasBlob store digest content
        → (c : Sized String) × (read_blob_content codec others digest store
            ≡ (some (inr content), record store { chunk_cache = c }))
          × IsCoherent codec.blake3 c
    unfolding read_blob_content read_by read_recipe
    read_blob_content-ReadsTo digest content store h has =
        let r = read_chunks-ReadsTo has.recipe.chunk_hashes content [] store h has.chunks in
        (
          r.cache_after,
          ap (λ o. read_by codec others o store) has.found ∙ ap (λ x. (some x.0, x.1)) r.same,
          r.coherent,
        )
