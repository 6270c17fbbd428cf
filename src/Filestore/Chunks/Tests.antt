-- ===== src/Filestore/Chunks/Tests.antt =====
-- Runs of the splitters, and their theorems at concrete inputs.
use mathlib.Core.List.{flatten}
use gmeow.Base.{ℕ, Option, none, String, List, [], ◌∷◌, ◌++◌, ◌≡◌, refl, arith, replicate}
use gmeow.Filestore.Chunks.{
  Read, more, eof, gear_mix, gear, scan_cut, first_end, second_end, next_chunk_cut, split_chunks,
  chunk_content, for_each_chunk, stream_chunks, mask_s, mask_l,
}
use gmeow.Filestore.Chunks.Split.{IsChunked, chunk_content-flatten}
use gmeow.Filestore.Chunks.Stream.{content, stream_chunks-chunk_content}

-- The first entry of `gearTable`.
gear_test : gear 0 ≡ 0x6e789e6aa1b965f4
unfolding gear gear_mix
gear_test = refl

short_test : chunk_content (1 ∷ 2 ∷ 3 ∷ []) ≡ (1 ∷ 2 ∷ 3 ∷ []) ∷ []
unfolding chunk_content split_chunks next_chunk_cut
short_test = refl

abbrev zeros : List ℕ
zeros = replicate 5000 0

cut_test : next_chunk_cut zeros mask_s mask_l ≡ 5000
unfolding next_chunk_cut scan_cut first_end second_end gear gear_mix
cut_test = refl

chunk_content-flatten_example :
    (flatten (chunk_content zeros) ≡ zeros) × IsChunked (chunk_content zeros)
chunk_content-flatten_example = chunk_content-flatten zeros

-- Two reads, the second of which is at the end.
abbrev reads : List Read
reads =
    record { bytes = 1 ∷ 2 ∷ []; read_end = more } ∷ record { bytes = 3 ∷ []; read_end = eof } ∷ []

abbrev collect : List ℕ → List (List ℕ) → Option String × List (List ℕ)
collect chunk chunks = (none, chunks ++ chunk ∷ [])

stream_chunks-chunk_content_example :
    stream_chunks collect 4 reads [] ≡ for_each_chunk collect (chunk_content (content reads)) 0 []
stream_chunks-chunk_content_example =
    stream_chunks-chunk_content collect reads [] 4 tt (omega arith)
