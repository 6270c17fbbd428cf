-- ===== src/Filestore/Blobs/Tests.antt =====
-- Runs of the chunk store with a concrete codec, and its theorems at concrete inputs.
use Prim.Native.Char.{code}
use mathlib.Core.Sum.{inr-injective}
use gmeow.Base.{
  List, ℕ, zero, suc, ◌+◌, String, true, false, none, some, [], ◌∷◌, ◌≡◌, refl, sym, ◌∙◌, ap, arith,
  ◌==◌, ◌⊎◌, inr, lookup, insert, string_eq,
}
use gmeow.Cache.Sized.{new_sized}
use gmeow.Cache.Sized.Evict.{new_sized-IsSized}
use gmeow.Filestore.Chunks.{chunk_content, split_chunks, next_chunk_cut, for_each_chunk, streamed}
use gmeow.Filestore.Packs.{
  Bytes, append_to_active_pack, append_at, rotate, cached_active_pack, active_pack, pack_and_size,
  max_id, contents, read_pack_bytes, read_at,
}
use gmeow.Filestore.Blobs.{
  Codec, ChunkStore, Compressed, store_blob_content, read_blob_content, read_chunk, ChunkEntry,
  read_chunk_at, store_next, store_chunk, store_absent, store_compressed, store_locked,
  append_chunk, add_hash, store_end, put_recipe, lookup_chunk, unpacked, verified,
}
use gmeow.Filestore.Chunks.{Read, more, eof}
use gmeow.Filestore.Chunks.Stream.{content}
use gmeow.Filestore.Blobs.Reader.{
  store_blob_reader, blob_result, store_blob_reader-store_blob_content,
}
use gmeow.Filestore.Batch.{new_commit_batch, store_blob_content_batched}
use gmeow.Filestore.Batch.Commit.{Commits, store_blob_content_batched-commit}
use gmeow.Filestore.Repack.{relocate_live_chunks}
use gmeow.Filestore.Repack.Relocate.{relocate_live_chunks-Kept}
use gmeow.Filestore.Blobs.Fetch.{Sound, read_chunk-Sound}
use gmeow.Filestore.Blobs.StoreChunk.{IsWhole, Kept}
use gmeow.Filestore.Blobs.RoundTrip.{
  Fails, Written, store_blob_content-Written, store_blob_content-read_blob_content,
}

-- A hash with no collisions: each byte as so many letters and an end.
unary : ℕ → String → String
unary zero s = String.◌∷◌ "b" s
unary (suc n) s = String.◌∷◌ "a" (unary n s)

unary_hash : Bytes → String
unary_hash [] = String.[]
unary_hash (byte ∷ bytes) = unary byte (unary_hash bytes)

unhash : ℕ → String → Bytes
unhash n String.[] = []
unhash n (String.◌∷◌ c s) = elim (code c == 98) [ true ↦ n ∷ unhash 0 s | false ↦ unhash (suc n) s ]

unhash-unary : (n byte : ℕ) (s : String) → unhash n (unary byte s) ≡ (n + byte) ∷ unhash 0 s
unfolding unhash unary
unhash-unary n zero s = ap (λ m. m ∷ unhash 0 s) (omega arith)
unhash-unary n (suc byte) s = unhash-unary (suc n) byte s ∙ ap (λ m. m ∷ unhash 0 s) (omega arith)

unhash-unary_hash : (bytes : Bytes) → unhash 0 (unary_hash bytes) ≡ bytes
unfolding unhash unary_hash
unhash-unary_hash [] = refl
unhash-unary_hash (byte ∷ bytes) =
    unhash-unary 0 byte (unary_hash bytes)
    ∙ ap (λ n. n ∷ unhash 0 (unary_hash bytes)) (omega arith)
    ∙ ap (λ l. byte ∷ l) (unhash-unary_hash bytes)

unary_hash_injective : (a b : Bytes) → unary_hash a ≡ unary_hash b → a ≡ b
unary_hash_injective a b h = sym (unhash-unary_hash a) ∙ ap (unhash 0) h ∙ unhash-unary_hash b

abbrev stored_as : Bytes → Compressed
stored_as chunk = record { compressed = chunk; dict_id = String.[]; dict_family = String.[] }

abbrev plain : Codec
plain = record {
  blake3 = unary_hash;
  compress = λ family chunk. inr (stored_as chunk);
  decompress = λ compressed dict_id. inr compressed;
}

plain_inverse :
    (family : String) (chunk : Bytes) (made : Compressed)
    → plain.compress family chunk ≡ inr made
    → plain.decompress made.compressed made.dict_id ≡ inr chunk
plain_inverse family chunk made h =
    ap (λ m. inr m.compressed) (sym (inr-injective (stored_as chunk) made h))

abbrev empty_store : ChunkStore
empty_store = record {
  chunk_index = [];
  recipes = [];
  packs = record { files = []; active_known = false; active_id = 0; active_size = 0 };
  chunk_cache = new_sized 100;
}

empty_store-IsWhole : IsWhole plain empty_store
unfolding lookup
empty_store-IsWhole = record {
  active = λ known. absurd (cc);
  coherent = ([], new_sized-IsSized ⦃e = string_eq⦄ 100, tt);
  indexed = λ hash entry found. absurd (cc);
}

abbrev id_of : ChunkStore → ChunkStore
id_of store = store

store_blob_content-Written_example :
    Written plain "text" "d"
      (1 ∷ 2 ∷ [])
      empty_store
      (store_blob_content plain 7 "d" (1 ∷ 2 ∷ []) "text" empty_store)
store_blob_content-Written_example =
    store_blob_content-Written plain unary_hash_injective plain_inverse 7 "d" (1 ∷ 2 ∷ []) "text"
      empty_store empty_store-IsWhole

store_blob_content-read_blob_content_example :
    let (error, after) = store_blob_content plain 7 "d" (1 ∷ 2 ∷ []) "text" empty_store in
    ((e : String) × (error ≡ some e) × Fails plain "text" (chunk_content (1 ∷ 2 ∷ [])) e)
    ⊎ ((error ≡ none) × ((read_blob_content plain id_of "d" after).0 ≡ some (inr (1 ∷ 2 ∷ []))))
store_blob_content-read_blob_content_example =
    store_blob_content-read_blob_content plain unary_hash_injective plain_inverse 7 "d" (1 ∷ 2 ∷ [])
      "text" id_of empty_store empty_store-IsWhole

read_chunk-Sound_example : Sound plain "ab" (read_chunk plain id_of "ab" empty_store)
read_chunk-Sound_example =
    read_chunk-Sound plain id_of (λ store h. h) "ab" empty_store
      ([], new_sized-IsSized ⦃e = string_eq⦄ 100, tt)

-- Two reads of one stream.
abbrev reads : List Read
reads =
    record { bytes = 1 ∷ 2 ∷ []; read_end = more } ∷ record { bytes = 3 ∷ []; read_end = eof } ∷ []

store_blob_reader-store_blob_content_example :
    let (failed, after) =
      store_blob_content plain 7 (unary_hash (content reads)) (content reads) "text" empty_store in
    store_blob_reader plain unary_hash 4 7 reads "text" empty_store
    ≡ (blob_result plain unary_hash failed (content reads), after)
store_blob_reader-store_blob_content_example =
    store_blob_reader-store_blob_content plain unary_hash 4 7 reads "text" empty_store tt
      (omega arith)

-- The chunk of a stored object, as the index has it.
abbrev stored : ChunkStore
stored = (store_blob_content plain 7 "d" (1 ∷ 2 ∷ []) "text" empty_store).1

abbrev stored_entry : ChunkEntry
stored_entry = record {
  updated_at = 7;
  chunk_hash = "abaab";
  dict_id = String.[];
  dict_family = String.[];
  pack_id = 0;
  offset = 0;
  size = 2;
}

stored_entry_test : read_chunk_at plain stored "abaab" stored_entry ≡ inr (1 ∷ 2 ∷ [])
unfolding read_chunk_at store_blob_content chunk_content split_chunks next_chunk_cut for_each_chunk
    store_next store_chunk store_absent store_compressed store_locked append_chunk add_hash
    store_end put_recipe lookup_chunk streamed append_to_active_pack append_at rotate
    cached_active_pack active_pack pack_and_size max_id contents read_pack_bytes read_at unpacked
    verified insert lookup unary_hash unary
stored_entry_test = refl

relocate_live_chunks-Kept_example :
    ((relocate_live_chunks 9 (stored_entry ∷ []) 0 stored).0.0 ≡ none)
    × Kept plain stored (relocate_live_chunks 9 (stored_entry ∷ []) 0 stored).1
relocate_live_chunks-Kept_example =
    relocate_live_chunks-Kept plain unary_hash_injective 9 (stored_entry ∷ []) 0 stored
      (store_blob_content-Written plain unary_hash_injective plain_inverse 7 "d" (1 ∷ 2 ∷ []) "text"
        empty_store empty_store-IsWhole).whole
      ((1 ∷ 2 ∷ [], stored_entry_test), tt)

store_blob_content_batched-commit_example :
    Commits empty_store
      (store_blob_content_batched plain 7 "d" (1 ∷ 2 ∷ []) "text" new_commit_batch empty_store)
      (store_blob_content plain 7 "d" (1 ∷ 2 ∷ []) "text" empty_store)
store_blob_content_batched-commit_example =
    store_blob_content_batched-commit plain 7 "text" "d" (1 ∷ 2 ∷ []) empty_store
