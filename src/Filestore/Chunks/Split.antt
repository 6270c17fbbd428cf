-- ===== src/Filestore/Chunks/Split.antt =====
-- What `chunkContent` splits content into (internal/filestore/chunkstore.go).
use mathlib.Core.List.{flatten}
use gmeow.Base.{
  ℕ, zero, suc, ◌≤◌, ◌<◌, List, [], ◌∷◌, ◌++◌, ◌≡◌, refl, ap, ◌∙◌, arith, length, take, drop,
  take-append-drop, length-take, length-drop,
}
use gmeow.Filestore.Chunks.{
  next_chunk_cut, split_chunks, chunk_content, chunk_min_size, chunk_max_size, mask_s, mask_l,
}
use gmeow.Filestore.Chunks.Cut.{next_chunk_cut_range}

-- Each chunk has the minimal size, but for the last, which has one byte, and none is above the maximum.
abbrev pub IsChunked : List (List ℕ) → Type 0
IsChunked [] = Unit
IsChunked (chunk ∷ []) = (1 ≤ length chunk) × (length chunk ≤ chunk_max_size)
IsChunked (chunk ∷ (next ∷ chunks)) =
    (chunk_min_size ≤ length chunk) × (length chunk ≤ chunk_max_size) × IsChunked (next ∷ chunks)

split_chunks-flatten :
    (rounds : ℕ) (bytes : List ℕ)
    → length bytes ≤ rounds
    → flatten (split_chunks rounds bytes) ≡ bytes
unfolding split_chunks flatten
split_chunks-flatten zero [] h = refl
split_chunks-flatten zero (byte ∷ bytes) h = absurd (omega arith)
split_chunks-flatten (suc rounds) [] h = refl
split_chunks-flatten (suc rounds) (byte ∷ bytes) h =
    let size = next_chunk_cut (byte ∷ bytes) mask_s mask_l in
    let (some_bytes, _) = next_chunk_cut_range (byte ∷ bytes) mask_s mask_l in
    ap (λ ys. take size (byte ∷ bytes) ++ ys)
      (split_chunks-flatten rounds (drop size (byte ∷ bytes))
        (omega (arith, length-drop size (byte ∷ bytes), some_bytes)))
    ∙ take-append-drop size (byte ∷ bytes)

-- Enough rounds are enough.
pub split_chunks-rounds :
    (rounds rounds' : ℕ) (bytes : List ℕ)
    → length bytes ≤ rounds
    → length bytes ≤ rounds'
    → split_chunks rounds bytes ≡ split_chunks rounds' bytes
unfolding split_chunks
split_chunks-rounds zero zero [] h k = refl
split_chunks-rounds zero (suc m) [] h k = refl
split_chunks-rounds (suc n) zero [] h k = refl
split_chunks-rounds (suc n) (suc m) [] h k = refl
split_chunks-rounds zero m (byte ∷ bytes) h k = absurd (omega arith)
split_chunks-rounds (suc n) zero (byte ∷ bytes) h k = absurd (omega arith)
split_chunks-rounds (suc n) (suc m) (byte ∷ bytes) h k =
    let size = next_chunk_cut (byte ∷ bytes) mask_s mask_l in
    let (some_bytes, _) = next_chunk_cut_range (byte ∷ bytes) mask_s mask_l in
    let left = length-drop size (byte ∷ bytes) in
    ap (λ chunks. take size (byte ∷ bytes) ∷ chunks)
      (split_chunks-rounds n m (drop size (byte ∷ bytes)) (omega (arith, left, some_bytes))
        (omega (arith, left, some_bytes)))

IsChunked-cons :
    (chunk : List ℕ) (rounds : ℕ) (rest : List ℕ)
    → 1 ≤ length chunk
    → length chunk ≤ chunk_max_size
    → (0 < length rest → chunk_min_size ≤ length chunk)
    → IsChunked (split_chunks rounds rest)
    → IsChunked (chunk ∷ split_chunks rounds rest)
unfolding split_chunks
IsChunked-cons chunk zero rest h k m p = (h, k)
IsChunked-cons chunk (suc rounds) [] h k m p = (h, k)
IsChunked-cons chunk (suc rounds) (byte ∷ rest) h k m p = (m (omega arith), k, p)

split_chunks-IsChunked : (rounds : ℕ) (bytes : List ℕ) → IsChunked (split_chunks rounds bytes)
unfolding split_chunks
split_chunks-IsChunked zero bytes = tt
split_chunks-IsChunked (suc rounds) [] = tt
split_chunks-IsChunked (suc rounds) (byte ∷ bytes) =
    let size = next_chunk_cut (byte ∷ bytes) mask_s mask_l in
    let (least, most) = next_chunk_cut_range (byte ∷ bytes) mask_s mask_l in
    let taken = length-take size (byte ∷ bytes) in
    IsChunked-cons (take size (byte ∷ bytes)) rounds (drop size (byte ∷ bytes))
      (omega (arith, taken, least, most)) (omega (arith, taken, most))
      (λ some_left. omega (arith, taken, least, length-drop size (byte ∷ bytes), some_left))
      (split_chunks-IsChunked rounds (drop size (byte ∷ bytes)))

-- The chunks of any content, put together, are the content; each has at least one and at most
-- 65536 bytes, and all but the last have at least 2048.
pub chunk_content-flatten :
    (bytes : List ℕ) → (flatten (chunk_content bytes) ≡ bytes) × IsChunked (chunk_content bytes)
unfolding chunk_content
chunk_content-flatten bytes = (
  split_chunks-flatten (length bytes) bytes (omega arith),
  split_chunks-IsChunked (length bytes) bytes,
)

-- The first chunk, and those of what is left.
pub chunk_content_step :
    (bytes : List ℕ)
    → 0 < length bytes
    → chunk_content bytes
      ≡ take (next_chunk_cut bytes mask_s mask_l) bytes
        ∷ chunk_content (drop (next_chunk_cut bytes mask_s mask_l) bytes)
unfolding chunk_content split_chunks
chunk_content_step [] h = absurd (omega arith)
chunk_content_step (byte ∷ bytes) h =
    let size = next_chunk_cut (byte ∷ bytes) mask_s mask_l in
    let (least, _) = next_chunk_cut_range (byte ∷ bytes) mask_s mask_l in
    let rest = drop size (byte ∷ bytes) in
    ap (λ chunks. take size (byte ∷ bytes) ∷ chunks)
      (split_chunks-rounds (length bytes) (length rest) rest
        (omega (arith, length-drop size (byte ∷ bytes), least)) (omega arith))
