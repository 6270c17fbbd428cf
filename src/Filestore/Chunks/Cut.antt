-- ===== src/Filestore/Chunks/Cut.antt =====
-- Where `nextChunkCut` cuts (internal/filestore/chunkstore.go).
use gmeow.Base.{
  ℕ, zero, suc, ◌+◌, ◌-◌, ◌*◌, ◌%◌, ◌^◌, ◌≤◌, ◌<◌, min, List, [], ◌∷◌, ◌++◌, ◌≡◌, refl, sym, ap,
  ◌∙◌, arith, true, false, Bool-cases, inl, inr, leb, length, length-append, drop, length-drop,
  drop-append_le,
}
use gmeow.Filestore.Chunks.{
  Scan, cut, ran_out, scan_cut, second_end, first_end, next_chunk_cut, chunk_min_size,
  chunk_max_size, chunk_avg_size, gear,
}

-- Where a loop stands when it ends.
abbrev reached : Scan → ℕ
reached (cut i) = i
reached (ran_out i hash rest) = i

scan_cut_range :
    (mask rounds i hash : ℕ) (rest : List ℕ)
    → (i ≤ reached (scan_cut mask rounds i hash rest))
      × (reached (scan_cut mask rounds i hash rest) ≤ i + rounds)
unfolding scan_cut
scan_cut_range mask zero i hash rest = omega arith
scan_cut_range mask (suc rounds) i hash [] = omega arith
scan_cut_range mask (suc rounds) i hash (byte ∷ rest) =
    ground (arith, scan_cut_range mask rounds (suc i) ((hash * 2 + gear byte) % 2 ^ 64) rest)

-- What more data behind a loop's own changes: nothing but what it leaves.
abbrev extended : List ℕ → Scan → Scan
extended ys (cut i) = cut i
extended ys (ran_out i hash rest) = ran_out i hash (rest ++ ys)

scan_cut-append :
    (mask rounds i hash : ℕ) (xs ys : List ℕ)
    → rounds ≤ length xs
    → scan_cut mask rounds i hash (xs ++ ys) ≡ extended ys (scan_cut mask rounds i hash xs)
unfolding scan_cut
scan_cut-append mask zero i hash xs ys h = refl
scan_cut-append mask (suc rounds) i hash [] ys h = absurd (omega arith)
scan_cut-append mask (suc rounds) i hash (byte ∷ xs) ys h =
    ground (arith, scan_cut-append mask rounds (suc i) ((hash * 2 + gear byte) % 2 ^ 64) xs ys)

-- The bytes that a loop leaves.
abbrev LeavesAtLeast : ℕ → Scan → Type 0
LeavesAtLeast n (cut i) = Unit
LeavesAtLeast n (ran_out i hash rest) = n ≤ length rest

scan_cut-LeavesAtLeast :
    (mask rounds i hash n : ℕ) (rest : List ℕ)
    → rounds + n ≤ length rest
    → LeavesAtLeast n (scan_cut mask rounds i hash rest)
unfolding scan_cut
scan_cut-LeavesAtLeast mask zero i hash n rest h = omega arith
scan_cut-LeavesAtLeast mask (suc rounds) i hash n [] h = absurd (omega arith)
scan_cut-LeavesAtLeast mask (suc rounds) i hash n (byte ∷ rest) h =
    ground
      (arith, scan_cut-LeavesAtLeast mask rounds (suc i) ((hash * 2 + gear byte) % 2 ^ 64) n rest)

first_end_range :
    (mask n rounds : ℕ) (s : Scan)
    → chunk_min_size ≤ reached s
    → reached s + rounds ≤ n
    → (chunk_min_size ≤ first_end mask n rounds s) × (first_end mask n rounds s ≤ n)
unfolding first_end second_end
first_end_range mask n rounds (cut i) h k = omega arith
first_end_range mask n rounds (ran_out i hash rest) h k =
    ground (arith, scan_cut_range mask rounds i hash rest)

first_end-extended :
    (mask n rounds : ℕ) (s : Scan) (ys : List ℕ)
    → LeavesAtLeast rounds s
    → first_end mask n rounds (extended ys s) ≡ first_end mask n rounds s
unfolding first_end second_end
first_end-extended mask n rounds (cut i) ys h = refl
first_end-extended mask n rounds (ran_out i hash rest) ys h =
    ground (arith, scan_cut-append mask rounds i hash rest ys)

abbrev limit : List ℕ → ℕ
limit bytes = min (length bytes) chunk_max_size

abbrev normal : List ℕ → ℕ
normal bytes = min chunk_avg_size (limit bytes)

abbrev first_scan : ℕ → List ℕ → Scan
first_scan small bytes =
    scan_cut small (normal bytes - chunk_min_size) chunk_min_size 0 (drop chunk_min_size bytes)

next_chunk_cut-large :
    (bytes : List ℕ) (small large : ℕ)
    → leb (length bytes) chunk_min_size ≡ false
    → next_chunk_cut bytes small large
      ≡ first_end large (limit bytes) (limit bytes - normal bytes) (first_scan small bytes)
unfolding next_chunk_cut
next_chunk_cut-large bytes small large h = rw h refl

next_chunk_cut-small :
    (bytes : List ℕ) (small large : ℕ)
    → leb (length bytes) chunk_min_size ≡ true
    → next_chunk_cut bytes small large ≡ length bytes
unfolding next_chunk_cut
next_chunk_cut-small bytes small large h = rw h refl

lt_of_leb : (a b : ℕ) → leb a b ≡ false → b < a
lt_of_leb a b h = ground arith

first_scan_range :
    (small : ℕ) (bytes : List ℕ)
    → leb (length bytes) chunk_min_size ≡ false
    → (chunk_min_size ≤ reached (first_scan small bytes))
      × (reached (first_scan small bytes) + (limit bytes - normal bytes) ≤ limit bytes)
first_scan_range small bytes h =
    let (least, most) =
      scan_cut_range small (normal bytes - chunk_min_size) chunk_min_size 0
        (drop chunk_min_size bytes) in
    (least, omega (arith, most, lt_of_leb (length bytes) chunk_min_size h))

-- A cut takes some of the bytes, no more than the maximal size, and the minimal size if there are as
-- many.
pub next_chunk_cut_range :
    (bytes : List ℕ) (small large : ℕ)
    → (min (length bytes) chunk_min_size ≤ next_chunk_cut bytes small large)
      × (next_chunk_cut bytes small large ≤ min (length bytes) chunk_max_size)
next_chunk_cut_range bytes small large = elim (Bool-cases (leb (length bytes) chunk_min_size)) [
  | inl few ↦ ground (arith, next_chunk_cut-small bytes small large few)
  | inr many ↦
      let (least, most) = first_scan_range small bytes many in
      let (low, high) =
        first_end_range large (limit bytes) (limit bytes - normal bytes) (first_scan small bytes)
          least most in
      let eq = next_chunk_cut-large bytes small large many in
      (omega (arith, eq, low), omega (arith, eq, high))
]

limit-append : (xs ys : List ℕ) → chunk_max_size ≤ length xs → limit (xs ++ ys) ≡ limit xs
limit-append xs ys h = omega (arith, length-append xs ys)

first_scan-append :
    (small : ℕ) (xs ys : List ℕ)
    → chunk_max_size ≤ length xs
    → first_scan small (xs ++ ys) ≡ extended ys (first_scan small xs)
first_scan-append small xs ys h =
    rw
      (
        limit-append xs ys h,
        drop-append_le chunk_min_size xs ys (omega arith),
        scan_cut-append small (normal xs - chunk_min_size) chunk_min_size 0 (drop chunk_min_size xs)
            ys (omega (arith, length-drop chunk_min_size xs)),
      )
      refl

-- It depends on no byte beyond the maximal size.
pub next_chunk_cut-append :
    (xs ys : List ℕ) (small large : ℕ)
    → chunk_max_size ≤ length xs
    → next_chunk_cut (xs ++ ys) small large ≡ next_chunk_cut xs small large
next_chunk_cut-append xs ys small large h =
    let longer = length-append xs ys in
    let many : leb (length xs) chunk_min_size ≡ false = ground arith in
    let many' : leb (length (xs ++ ys)) chunk_min_size ≡ false = ground (arith, longer) in
    let left =
      scan_cut-LeavesAtLeast small (normal xs - chunk_min_size) chunk_min_size 0
        (limit xs - normal xs) (drop chunk_min_size xs)
        (omega (arith, length-drop chunk_min_size xs)) in
    next_chunk_cut-large (xs ++ ys) small large many'
    ∙ ap (λ n. first_end large n (n - min chunk_avg_size n) (first_scan small (xs ++ ys)))
        (limit-append xs ys h)
    ∙ ap (first_end large (limit xs) (limit xs - normal xs)) (first_scan-append small xs ys h)
    ∙ first_end-extended large (limit xs) (limit xs - normal xs) (first_scan small xs) ys left
    ∙ sym (next_chunk_cut-large xs small large many)
