-- ===== src/Filestore/Chunks.antt =====
-- Content-defined chunks (internal/filestore/chunkstore.go): the gear hash, the cut, and the two splitters,
-- of bytes in memory and of a stream. A byte is a number below 256 and a uint64 one below 2 ^ 64.
pub mod Cut
pub mod Split
pub mod Stream
mod Tests
use Prim.Native.Nat.{bit_and, bit_xor, ◌/◌}
use gmeow.Base.{
  ℕ, zero, suc, ◌+◌, ◌-◌, ◌*◌, ◌%◌, ◌^◌, min, String, Bool, true, false, not, ◌&&◌, ◌||◌, Option,
  none, some, List, [], ◌∷◌, ◌++◌, ◌==◌, ltb, leb, length, take, drop, if◌then◌else◌,
}

abbrev pub chunk_min_size : ℕ
chunk_min_size = 2048

abbrev pub chunk_avg_size : ℕ
chunk_avg_size = 8192

abbrev pub chunk_max_size : ℕ
chunk_max_size = 65536

abbrev pub mask_s : ℕ
mask_s = 0x0003590703530000

abbrev pub mask_l : ℕ
mask_l = 0x0000d90003530000

abbrev gear_seed : ℕ
gear_seed = 0x9e3779b97f4a7c15

-- The body of the loop of `buildGearTable`, from the state.
unfoldable pub gear_mix : ℕ → ℕ
gear_mix state =
    let first = bit_xor state (state / 2 ^ 30) * 0xbf58476d1ce4e5b9 % 2 ^ 64 in
    let second = bit_xor first (first / 2 ^ 27) * 0x94d049bb133111eb % 2 ^ 64 in
    bit_xor second (second / 2 ^ 31)

-- `gearTable[byte]`: the state has grown by the seed in each round.
unfoldable pub gear : ℕ → ℕ
gear byte = gear_mix (gear_seed * (byte + 2) % 2 ^ 64)

-- How a loop of `nextChunkCut` ends: it returns `i`, or it leaves `i`, the hash and the data from `i` on.
pub data Scan : Type 0 where
  cut : ℕ → Scan
  ran_out : ℕ → ℕ → List ℕ → Scan

-- A loop of `nextChunkCut`, over the rounds left, with the data from `i` on.
unfoldable pub scan_cut : ℕ → ℕ → ℕ → ℕ → List ℕ → Scan
scan_cut mask zero i hash rest = ran_out i hash rest
scan_cut mask (suc rounds) i hash [] = ran_out i hash []
scan_cut mask (suc rounds) i hash (byte ∷ rest) =
    let next = (hash * 2 + gear byte) % 2 ^ 64 in
    let more = scan_cut mask rounds (suc i) next rest in
    if bit_and next mask == 0 then cut i else more

-- What follows the second loop, and what follows the first one.
unfoldable pub second_end : ℕ → Scan → ℕ
second_end n (cut i) = i
second_end n (ran_out i hash rest) = n

unfoldable pub first_end : ℕ → ℕ → ℕ → Scan → ℕ
first_end mask n rounds (cut i) = i
first_end mask n rounds (ran_out i hash rest) = second_end n (scan_cut mask rounds i hash rest)

unfoldable pub next_chunk_cut : List ℕ → ℕ → ℕ → ℕ
next_chunk_cut bytes small large =
    let n = min (length bytes) chunk_max_size in
    let normal = min chunk_avg_size n in
    if leb (length bytes) chunk_min_size
    then length bytes
    else first_end large n (n - normal)
        (scan_cut small (normal - chunk_min_size) chunk_min_size 0 (drop chunk_min_size bytes))

-- The loop of `chunkContent`, over the rounds left: a round takes one byte at least.
unfoldable pub split_chunks : ℕ → List ℕ → List (List ℕ)
split_chunks zero bytes = []
split_chunks (suc rounds) [] = []
split_chunks (suc rounds) (byte ∷ bytes) =
    let size = next_chunk_cut (byte ∷ bytes) mask_s mask_l in
    take size (byte ∷ bytes) ∷ split_chunks rounds (drop size (byte ∷ bytes))

unfoldable pub chunk_content : List ℕ → List (List ℕ)
chunk_content bytes = split_chunks (length bytes) bytes

-- With what a `Read` of the reader ends: no error, `io.EOF`, or another error.
pub data ReadEnd : Type 0 where
  more : ReadEnd
  eof : ReadEnd
  failed : String → ReadEnd

-- What a `Read` with room for `chunkMaxSize` bytes returns.
pub record Read : Type 0 where
  pub bytes : List ℕ
  pub read_end : ReadEnd

-- The buffer, `atEOF`, the reads left and the error.
pub record Filled : Type 0 where
  pub buffer : List ℕ
  pub at_eof : Bool
  pub reads : List Read
  pub error : Option String

abbrev pub is_full : List ℕ → Bool
is_full buffer = leb chunk_max_size (length buffer)

-- A round of the inner loop of `streamChunks`: on its test and the end of the read, with the buffer and
-- the reads before and after the read, and what the next rounds make of them.
unfoldable pub fill_step :
    Bool → ReadEnd → List ℕ → Bool → List Read → List ℕ → List Read → Filled → Filled
fill_step true read_end buffer at_eof unread taken reads again = record {
  buffer = buffer;
  at_eof = at_eof;
  reads = unread;
  error = none;
}
fill_step false more buffer at_eof unread taken reads again = again
fill_step false eof buffer at_eof unread taken reads again = record {
  buffer = taken;
  at_eof = true;
  reads = reads;
  error = none;
}
fill_step false (failed e) buffer at_eof unread taken reads again = record {
  buffer = taken;
  at_eof = false;
  reads = reads;
  error = some e;
}

-- The inner loop of `streamChunks`, over the reads left. A reader that has returned them all is at its
-- end.
unfoldable pub fill : List Read → List ℕ → Bool → Filled
fill [] buffer at_eof = record {
  buffer = buffer;
  at_eof = at_eof || not (is_full buffer);
  reads = [];
  error = none;
}
fill (read ∷ reads) buffer at_eof =
    fill_step (is_full buffer || at_eof) read.read_end buffer at_eof (read ∷ reads)
      (buffer ++ read.bytes) reads (fill reads (buffer ++ read.bytes) false)

-- How a splitter with a callback ends: the error, the bytes that were given to it, and its state.
pub record Streamed (S : Type 0) : Type 0 where
  pub error : Option String
  pub total : ℕ
  pub state : S

-- After a call of the callback: its error, or the rest.
unfoldable pub streamed : {S : Type 0} → Option String → ℕ → S → Streamed S → Streamed S
streamed (some e) total state rest = record { error = some e; total = total; state = state }
streamed none total state rest = rest

module _ {S : Type 0} (fn : List ℕ → S → Option String × S) where
  -- The loop of `storeBlobContent` over the chunks, with its body as the callback.
  unfoldable pub for_each_chunk : List (List ℕ) → ℕ → S → Streamed S
  for_each_chunk [] total state = record { error = none; total = total; state = state }
  for_each_chunk (chunk ∷ chunks) total state =
      let (error, state') = fn chunk state in
      streamed error total state' (for_each_chunk chunks (total + length chunk) state')

  -- The part of a round of `streamChunks` below its inner loop: on the error of the reader and on
  -- whether the buffer is empty, with the next rounds.
  unfoldable pub cut_buffer :
      Option String → Bool → Filled → ℕ → S → (Filled → ℕ → S → Streamed S) → Streamed S
  cut_buffer (some e) empty filled total state continue = record {
    error = some e;
    total = total;
    state = state;
  }
  cut_buffer none true filled total state continue = record {
    error = none;
    total = total;
    state = state;
  }
  cut_buffer none false filled total state continue =
      let size = next_chunk_cut filled.buffer mask_s mask_l in
      let (error, state') = fn (take size filled.buffer) state in
      streamed error total state'
        (continue (record filled { buffer = drop size filled.buffer }) (total + size) state')

  -- The outer loop of `streamChunks`, over the rounds left.
  unfoldable pub stream_rounds : ℕ → Filled → ℕ → S → Streamed S
  stream_rounds zero before total state = record {
    error = some "out of rounds";
    total = total;
    state = state;
  }
  stream_rounds (suc rounds) before total state =
      let filled = fill before.reads before.buffer before.at_eof in
      cut_buffer filled.error (length filled.buffer == 0) filled total state (stream_rounds rounds)

  unfoldable pub stream_chunks : ℕ → List Read → S → Streamed S
  stream_chunks rounds reads state =
      stream_rounds rounds (record { buffer = []; at_eof = false; reads = reads; error = none }) 0
        state
