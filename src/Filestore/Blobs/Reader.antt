-- ===== src/Filestore/Blobs/Reader.antt =====
-- `storeBlobReader` (internal/filestore/chunkstore.go): content is stored from a stream, and its two hashes are
-- taken in the same pass, so that on an end without an error they are those of all that was read.
use gmeow.Base.{
  ℕ, ◌+◌, String, Option, none, some, List, [], ◌∷◌, ◌++◌, ◌≡◌, refl, ◌∙◌, ap, arith, length,
  length-append, ◌<◌, ◌⊎◌, inl, inr,
}
use mathlib.Core.List.{flatten}
use gmeow.Filestore.Chunks.{Read, Streamed, streamed, for_each_chunk, stream_chunks, chunk_content}
use gmeow.Filestore.Chunks.Split.{chunk_content-flatten}
use gmeow.Filestore.Chunks.Stream.{IsClean, content, stream_chunks-chunk_content}
use gmeow.Filestore.Packs.{Bytes}
use gmeow.Filestore.Blobs.{ChunkStore, Codec, store_next, put_recipe, store_end, store_blob_content}

-- What is returned with no error.
pub record BlobInfo : Type 0 where
  pub digest : String
  pub sha256 : String
  pub content_bytes : ℕ

module _ (codec : Codec) (sha256 : Bytes → String) where
  unfoldable pub reader_end :
      ℕ → Bytes → Option String → ℕ → ChunkStore × List String → (String ⊎ BlobInfo) × ChunkStore
  reader_end now teed (some e) total (store, hashes) = (inl e, store)
  reader_end now teed none total (store, hashes) =
      let digest = codec.blake3 teed in
      (
        inr (record { digest = digest; sha256 = sha256 teed; content_bytes = total }),
        put_recipe codec now digest total hashes store,
      )

  -- With the rounds of the splitter.
  unfoldable pub store_blob_reader :
      ℕ → ℕ → List Read → String → ChunkStore → (String ⊎ BlobInfo) × ChunkStore
  store_blob_reader rounds now reads family store =
      let s = stream_chunks (store_next codec now family) rounds reads (store, []) in
      reader_end now (content reads) s.error s.total s.state

  -- The result that goes with the end of `storeBlobContent`.
  abbrev pub blob_result : Option String → Bytes → String ⊎ BlobInfo
  blob_result (some e) bytes = inl e
  blob_result none bytes =
      inr (record {
        digest = codec.blake3 bytes;
        sha256 = sha256 bytes;
        content_bytes = length bytes;
      })

  -- How many bytes the callback was given, where it never failed.
  total_step :
      {S : Type 0} (error : Option String) (total size : ℕ) (state : S) (rest : Streamed S)
      → (rest.error ≡ none → rest.total ≡ size)
      → (streamed error total state rest).error ≡ none
      → (streamed error total state rest).total ≡ size
  unfolding streamed
  total_step (some e) total size state rest f h = absurd (cc)
  total_step none total size state rest f h = f h

  for_each_chunk_total :
      {S : Type 0} (fn : List ℕ → S → Option String × S) (chunks : List Bytes) (total : ℕ)
      (state : S)
      → (for_each_chunk fn chunks total state).error ≡ none
      → (for_each_chunk fn chunks total state).total ≡ total + length (flatten chunks)
  unfolding for_each_chunk flatten
  for_each_chunk_total fn [] total state h = omega arith
  for_each_chunk_total fn (chunk ∷ chunks) total state h =
      total_step (fn chunk state).0 total (total + length (chunk ++ flatten chunks))
        (fn chunk state).1 _
        (λ fine.
          for_each_chunk_total fn chunks (total + length chunk) (fn chunk state).1 fine
          ∙ omega (arith, length-append chunk (flatten chunks)))
        h

  end_same :
      (now : ℕ) (bytes : Bytes) (error : Option String) (total : ℕ)
      (state : ChunkStore × List String)
      → (error ≡ none → total ≡ length bytes)
      → let (failed, after) = store_end codec now (codec.blake3 bytes) (length bytes) error state in
        reader_end now bytes error total state ≡ (blob_result failed bytes, after)
  unfolding reader_end store_end
  end_same now bytes (some e) total (store, hashes) h = refl
  end_same now bytes none total (store, hashes) h =
      ap
        (λ n. (
          inr (record { digest = codec.blake3 bytes; sha256 = sha256 bytes; content_bytes = n }),
          put_recipe codec now (codec.blake3 bytes) n hashes store,
        ))
        (h refl)

  -- If the reads have no error but the end and there are more rounds than bytes, storing a stream
  -- leaves the store, and gives the error, of storing its content in memory under its BLAKE3
  -- digest, and with no error returns both digests and the length of the content.
  pub store_blob_reader-store_blob_content :
      (rounds now : ℕ) (reads : List Read) (family : String) (store : ChunkStore)
      → IsClean reads
      → length (content reads) < rounds
      → let (failed, after) =
          store_blob_content codec now
            (codec.blake3 (content reads))
            (content reads)
            family
            store in
        store_blob_reader rounds now reads family store
        ≡ (blob_result failed (content reads), after)
  unfolding store_blob_reader store_blob_content
  store_blob_reader-store_blob_content rounds now reads family store clean enough =
      let s =
        for_each_chunk (store_next codec now family) (chunk_content (content reads)) 0
          (store, []) in
      ap (λ s. reader_end now (content reads) s.error s.total s.state)
        (stream_chunks-chunk_content (store_next codec now family) reads (store, []) rounds clean
          enough)
      ∙ end_same now (content reads) s.error s.total s.state (λ fine.
        for_each_chunk_total (store_next codec now family) (chunk_content (content reads)) 0
          (store, []) fine
        ∙ omega (arith, ap length (chunk_content-flatten (content reads)).0))
