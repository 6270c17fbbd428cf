-- ===== src/Filestore/Chunks/Stream.antt =====
-- The stream splitter cuts where the splitter in memory does (internal/filestore/chunkstore.go,
-- `streamChunks` and `chunkContent`).
use mathlib.Core.Path.{subst, ap₂}
use gmeow.Base.{
  ℕ, zero, suc, ◌+◌, ◌≤◌, ◌<◌, String, Bool, true, false, not, ◌||◌, inl, inr, ◌⊎◌, Option, none,
  some, List, [], ◌∷◌, ◌++◌, ◌≡◌, refl, sym, ap, ◌∙◌, arith, ◌==◌, leb→le, ==_iff, length,
  length-append, take, drop, length-take, length-drop, take-append_le, drop-append_le,
  if◌then◌else◌,
}
use gmeow.Filestore.Chunks.{
  for_each_chunk, stream_chunks, Read, ReadEnd, more, eof, failed, Filled, fill, fill_step, is_full,
  streamed, cut_buffer, stream_rounds, next_chunk_cut, split_chunks, chunk_content, chunk_max_size,
  mask_s, mask_l,
}
use gmeow.Filestore.Chunks.Cut.{next_chunk_cut_range, next_chunk_cut-append}
use gmeow.Filestore.Chunks.Split.{chunk_content_step}

abbrev CleanEnd : ReadEnd → Type 0 → Type 0
CleanEnd more rest = rest
CleanEnd eof rest = Unit
CleanEnd (failed e) rest = ⊥

-- No read before the end of the reader fails.
abbrev pub IsClean : List Read → Type 0
IsClean [] = Unit
IsClean (read ∷ reads) = CleanEnd read.read_end (IsClean reads)

abbrev content_end : ReadEnd → List ℕ → List ℕ → List ℕ
content_end more bytes rest = bytes ++ rest
content_end eof bytes rest = bytes
content_end (failed e) bytes rest = bytes

-- The bytes up to the end of the reader.
abbrev pub content : List Read → List ℕ
content [] = []
content (read ∷ reads) = content_end read.read_end read.bytes (content reads)

-- The bytes that a buffer and its reader still have.
abbrev left : Filled → List ℕ
left f = f.buffer ++ (if f.at_eof then [] else content f.reads)

-- What the inner loop leaves: no byte is lost, and the buffer is full or holds all that is left.
record IsFilled (bytes : List ℕ) (f : Filled) : Type 0 where
  no_error : f.error ≡ none
  clean : (f.at_eof ≡ true) ⊎ IsClean f.reads
  same : left f ≡ bytes
  enough : (f.at_eof ≡ true) ⊎ (chunk_max_size ≤ length f.buffer)

append_assoc {ℓ} : {A : Type ℓ} (xs ys zs : List A) → (xs ++ ys) ++ zs ≡ xs ++ (ys ++ zs)
append_assoc [] ys zs = refl
append_assoc (x ∷ xs) ys zs = ap (λ r. x ∷ r) (append_assoc xs ys zs)

append_nil {ℓ} : {A : Type ℓ} (xs : List A) → xs ++ [] ≡ xs
append_nil [] = refl
append_nil (x ∷ xs) = ap (λ ys. x ∷ ys) (append_nil xs)

or_false : (b : Bool) → b ≡ (b || false)
or_false b = ground arith

ended :
    (buffer : List ℕ) (reads : List Read)
    → IsFilled buffer (record { buffer = buffer; at_eof = true; reads = reads; error = none })
ended buffer reads = record {
  no_error = refl;
  clean = inl refl;
  same = append_nil buffer;
  enough = inl refl;
}

full_enough : (buffer : List ℕ) → is_full buffer ≡ true → chunk_max_size ≤ length buffer
full_enough buffer h = leb→le chunk_max_size (length buffer) h

exhausted :
    (b : Bool) (buffer : List ℕ)
    → is_full buffer ≡ b
    → IsFilled buffer (record { buffer = buffer; at_eof = not b; reads = []; error = none })
exhausted true buffer h = record {
  no_error = refl;
  clean = inr tt;
  same = append_nil buffer;
  enough = inr (full_enough buffer h);
}
exhausted false buffer h = ended buffer []

fill_step-IsFilled :
    (stop : Bool) (read : Read) (reads : List Read) (buffer : List ℕ) (end : ReadEnd)
    (again : Filled)
    → read.read_end ≡ end
    → (is_full buffer || false) ≡ stop
    → CleanEnd end (IsClean reads)
    → (IsClean reads → IsFilled ((buffer ++ read.bytes) ++ content reads) again)
    → IsFilled
        (buffer ++ content_end end read.bytes (content reads))
        (fill_step stop end buffer false (read ∷ reads) (buffer ++ read.bytes) reads again)
unfolding fill_step
fill_step-IsFilled true read reads buffer end again r f c k = record {
  no_error = refl;
  clean = inr (subst (λ e. CleanEnd e (IsClean reads)) (sym r) c);
  same = ap (λ e. buffer ++ content_end e read.bytes (content reads)) r;
  enough = inr (full_enough buffer (or_false (is_full buffer) ∙ f));
}
fill_step-IsFilled false read reads buffer more again r f c k =
    subst (λ bytes. IsFilled bytes again) (append_assoc buffer read.bytes (content reads)) (k c)
fill_step-IsFilled false read reads buffer eof again r f c k = ended (buffer ++ read.bytes) reads
fill_step-IsFilled false read reads buffer (failed e) again r f c k = absurd c

fill-IsFilled :
    (reads : List Read) (buffer : List ℕ)
    → IsClean reads
    → IsFilled (buffer ++ content reads) (fill reads buffer false)
unfolding fill
fill-IsFilled [] buffer c =
    subst (λ bytes. IsFilled bytes (fill [] buffer false)) (sym (append_nil buffer))
      (exhausted (is_full buffer) buffer refl)
fill-IsFilled (read ∷ reads) buffer c =
    fill_step-IsFilled (is_full buffer || false) read reads buffer read.read_end
      (fill reads (buffer ++ read.bytes) false) refl refl c
      (fill-IsFilled reads (buffer ++ read.bytes))

IsFilled-nil :
    (buffer : List ℕ) (reads : List Read)
    → IsFilled
        (buffer ++ [])
        (record { buffer = buffer; at_eof = true; reads = reads; error = none })
IsFilled-nil buffer reads =
    subst
      (λ bytes.
        IsFilled bytes (record { buffer = buffer; at_eof = true; reads = reads; error = none }))
      (sym (append_nil buffer)) (ended buffer reads)

fill_step_eof :
    (full : Bool) (read : Read) (reads : List Read) (buffer : List ℕ)
    → IsFilled (buffer ++ []) (
        fill_step
          (full || true)
          read.read_end
          buffer
          true
          (read ∷ reads)
          (buffer ++ read.bytes)
          reads
          (fill reads (buffer ++ read.bytes) false))
unfolding fill_step
fill_step_eof true read reads buffer = IsFilled-nil buffer (read ∷ reads)
fill_step_eof false read reads buffer = IsFilled-nil buffer (read ∷ reads)

fill_eof-IsFilled :
    (reads : List Read) (buffer : List ℕ) → IsFilled (buffer ++ []) (fill reads buffer true)
unfolding fill fill_step
fill_eof-IsFilled [] buffer = IsFilled-nil buffer []
fill_eof-IsFilled (read ∷ reads) buffer = fill_step_eof (is_full buffer) read reads buffer

refill-IsFilled :
    (buffer : List ℕ) (at_eof : Bool) (reads : List Read)
    → (at_eof ≡ true) ⊎ IsClean reads
    → IsFilled (buffer ++ (if at_eof then [] else content reads)) (fill reads buffer at_eof)
refill-IsFilled buffer true reads c = fill_eof-IsFilled reads buffer
refill-IsFilled buffer false reads (inl h) = cc
refill-IsFilled buffer false reads (inr c) = fill-IsFilled reads buffer c

-- The cut of a filled buffer is that of all the bytes that are left.
next_chunk_cut-left :
    (f : Filled)
    → (f.at_eof ≡ true) ⊎ (chunk_max_size ≤ length f.buffer)
    → next_chunk_cut (left f) mask_s mask_l ≡ next_chunk_cut f.buffer mask_s mask_l
next_chunk_cut-left f (inl e) =
    ap (λ b. next_chunk_cut (f.buffer ++ (if b then [] else content f.reads)) mask_s mask_l) e
    ∙ ap (λ bytes. next_chunk_cut bytes mask_s mask_l) (append_nil f.buffer)
next_chunk_cut-left f (inr h) =
    next_chunk_cut-append f.buffer (if f.at_eof then [] else content f.reads) mask_s mask_l h

nil_of_length {ℓ} : {A : Type ℓ} (xs : List A) → length xs ≡ 0 → xs ≡ []
nil_of_length [] h = refl
nil_of_length (x ∷ xs) h = absurd (omega arith)

left_empty :
    (f : Filled)
    → (f.at_eof ≡ true) ⊎ (chunk_max_size ≤ length f.buffer)
    → length f.buffer ≡ 0
    → left f ≡ []
left_empty f (inl e) h =
    ap (λ b. f.buffer ++ (if b then [] else content f.reads)) e
    ∙ append_nil f.buffer
    ∙ nil_of_length f.buffer h
left_empty f (inr k) h = absurd (omega arith)

module _ {S : Type 0} (fn : List ℕ → S → Option String × S) where
  -- The rounds that are left do what the loop over the chunks of the bytes that are left does.
  abbrev Streams : ℕ → Type 0
  Streams rounds =
      (f : Filled) (total : ℕ) (state : S)
      → (f.at_eof ≡ true) ⊎ IsClean f.reads
      → length (left f) < rounds
      → stream_rounds fn rounds f total state
        ≡ for_each_chunk fn (chunk_content (left f)) total state

  cut_buffer-chunk :
      (rounds : ℕ) (f : Filled) (total : ℕ) (state : S)
      → Streams rounds
      → (f.at_eof ≡ true) ⊎ IsClean f.reads
      → (f.at_eof ≡ true) ⊎ (chunk_max_size ≤ length f.buffer)
      → length (left f) ≤ rounds
      → 0 < length f.buffer
      → cut_buffer fn none false f total state (stream_rounds fn rounds)
        ≡ for_each_chunk fn (chunk_content (left f)) total state
  unfolding cut_buffer for_each_chunk
  cut_buffer-chunk rounds f total state ih clean enough short some_bytes =
      let rem = if f.at_eof then [] else content f.reads in
      let size = next_chunk_cut f.buffer mask_s mask_l in
      let (least, most) = next_chunk_cut_range f.buffer mask_s mask_l in
      let fits : size ≤ length f.buffer = omega (arith, most) in
      let chunk = take size f.buffer in
      let f' : Filled = record f { buffer = drop size f.buffer } in
      let all = length-append f.buffer rem in
      let whole : chunk_content (left f) ≡ chunk ∷ chunk_content (left f') =
        chunk_content_step (left f) (omega (arith, all))
        ∙ ap (λ n. take n (left f) ∷ chunk_content (drop n (left f))) (next_chunk_cut-left f enough)
        ∙ ap₂ (λ c r. c ∷ chunk_content r) (take-append_le size f.buffer rem fits)
            (drop-append_le size f.buffer rem fits) in
      let next = ih f' (total + size) (fn chunk state).1 clean (
        omega
          (arith, length-append (drop size f.buffer) rem, length-drop size f.buffer, least, all)) in
      ap (λ r. streamed (fn chunk state).0 total (fn chunk state).1 r)
        (next
          ∙ ap (λ n. for_each_chunk fn (chunk_content (left f')) (total + n) (fn chunk state).1)
              (omega (arith, length-take size f.buffer)))
      ∙ ap (λ cs. for_each_chunk fn cs total state) (sym whole)

  cut_buffer_all :
      (rounds : ℕ) (empty : Bool) (error : Option String) (f : Filled) (total : ℕ) (state : S)
      → Streams rounds
      → error ≡ none
      → (length f.buffer == 0) ≡ empty
      → (f.at_eof ≡ true) ⊎ IsClean f.reads
      → (f.at_eof ≡ true) ⊎ (chunk_max_size ≤ length f.buffer)
      → length (left f) ≤ rounds
      → cut_buffer fn error empty f total state (stream_rounds fn rounds)
        ≡ for_each_chunk fn (chunk_content (left f)) total state
  unfolding cut_buffer for_each_chunk chunk_content split_chunks
  cut_buffer_all rounds empty (some e) f total state ih no_error b clean enough short = cc
  cut_buffer_all rounds true none f total state ih no_error b clean enough short =
      ap (λ bytes. for_each_chunk fn (chunk_content bytes) total state)
        (sym (left_empty f enough ((==_iff (length f.buffer) 0).0 b)))
  cut_buffer_all rounds false none f total state ih no_error b clean enough short =
      cut_buffer-chunk rounds f total state ih clean enough short (ground (arith, b))

  stream_rounds-Streams : (rounds : ℕ) → Streams rounds
  unfolding stream_rounds
  stream_rounds-Streams zero f total state clean short = absurd (omega arith)
  stream_rounds-Streams (suc rounds) f total state clean short =
      let filled = refill-IsFilled f.buffer f.at_eof f.reads clean in
      let next = fill f.reads f.buffer f.at_eof in
      cut_buffer_all rounds (length next.buffer == 0) next.error next total state
        (stream_rounds-Streams rounds) filled.no_error refl filled.clean filled.enough
        (omega (arith, ap length filled.same, short))
      ∙ ap (λ bytes. for_each_chunk fn (chunk_content bytes) total state) filled.same

  -- If the reads have no error but the end and there are more rounds than bytes, the stream
  -- splitter gives the callback the chunks of the content as the splitter in memory makes them,
  -- with the same end.
  pub stream_chunks-chunk_content :
      (reads : List Read) (state : S) (rounds : ℕ)
      → IsClean reads
      → length (content reads) < rounds
      → stream_chunks fn rounds reads state
        ≡ for_each_chunk fn (chunk_content (content reads)) 0 state
  unfolding stream_chunks
  stream_chunks-chunk_content reads state rounds clean enough =
      stream_rounds-Streams rounds
        (record { buffer = []; at_eof = false; reads = reads; error = none }) 0 state (inr clean)
        enough
