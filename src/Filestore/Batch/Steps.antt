-- ===== src/Filestore/Batch/Steps.antt =====
-- A step of a batched write (internal/filestore/chunkstore.go) is the step on the store with the batch written.
use mathlib.Core.Path.{subst}
use gmeow.Base.{
  ℕ, String, Bool, true, false, Option, none, some, List, [], ◌∷◌, ◌++◌, ◌&&◌, ◌||◌, ◌≡◌, refl, sym,
  ◌∙◌, ap, arith, str_eq, string_eq, nat_eq, eq_iff, ==_iff, length, ◌⊎◌, inl, inr, lookup, insert,
  lookup-insert_same, lookup-insert_other, Bool-cases,
}
use gmeow.Filestore.Packs.{Bytes, Packs, append_to_active_pack, append_at}
use gmeow.Filestore.Blobs.{
  ChunkEntry, ChunkStore, Codec, Compressed, lookup_chunk, append_chunk, store_locked,
  store_compressed, store_absent, store_chunk,
}
use gmeow.Filestore.Gc.{contains, has_row}
use gmeow.Filestore.Batch.{
  CommitBatch, apply_rows, sync_touched_packs, write_rows, see, Batched, append_batched,
  locked_batched, compressed_batched, absent_batched, unseen_batched, store_chunk_batched,
}

pub apply_rows-append :
    {V : Type 0} (writes : List (String × V)) (key : String) (v : V) (rows : List (String × V))
    → apply_rows (writes ++ (key, v) ∷ []) rows ≡ insert key v (apply_rows writes rows)
unfolding apply_rows
apply_rows-append [] key v rows = refl
apply_rows-append ((k, w) ∷ writes) key v rows = apply_rows-append writes key v (insert k w rows)

has_some : {V : Type 0} (o : Option V) (v : V) → o ≡ some v → has_row o ≡ true
unfolding has_row
has_some o v h = ap has_row h

-- What holds between the steps of a write with a batch.
pub record IsBatch (cb : CommitBatch) (store : ChunkStore) : Type 0 where
  pub seen_there :
      (hash : String)
      → contains hash cb.seen ≡ true
      → has_row (lookup hash (write_rows cb store).chunk_index) ≡ true
  pub unseen_same :
      (hash : String)
      → contains hash cb.seen ≡ false
      → lookup hash (write_rows cb store).chunk_index ≡ lookup hash store.chunk_index
  pub synced : sync_touched_packs store.packs cb.touched_packs ≡ true

-- A step with a batch is the step on the store with the batch written, and writes no row.
pub record Steps (cb : CommitBatch) (store : ChunkStore) (plain : (String ⊎ String) × ChunkStore)
    (result : Batched) : Type 0 where
  pub same : plain ≡ (result.0, write_rows result.1.0 result.1.1)
  pub batch : IsBatch result.1.0 result.1.1
  pub index : result.1.1.chunk_index ≡ store.chunk_index
  pub recipes : result.1.1.recipes ≡ store.recipes

row_of : {V : Type 0} (o : Option V) → has_row o ≡ true → (v : V) × (o ≡ some v)
unfolding has_row
row_of none h = absurd (cc)
row_of (some v) h = (v, refl)

seen_first : (b c : Bool) → (b || c) ≡ false → (b ≡ false) × (c ≡ false)
seen_first b c h = ground arith

flipped : (a b : String) → str_eq a b ≡ false → str_eq b a ≡ false
flipped a b h = ground (arith, eq_iff a b, eq_iff b a)

see-IsBatch :
    (hash : String) (cb : CommitBatch) (store : ChunkStore)
    → IsBatch cb store
    → has_row (lookup hash (write_rows cb store).chunk_index) ≡ true
    → IsBatch (see hash cb) store
unfolding see write_rows contains
see-IsBatch hash cb store h there = record {
  seen_there = λ other hit. elim (Bool-cases (str_eq other hash)) [
    | inl same ↦
        ap (λ k. has_row (lookup k (apply_rows cb.chunk_rows store.chunk_index)))
          ((eq_iff other hash).0 same)
        ∙ there
    | inr differs ↦ h.seen_there other (sym (ap (λ b. b || contains other cb.seen) differs) ∙ hit)
  ];
  unseen_same = λ other miss.
      h.unseen_same other (seen_first (str_eq other hash) (contains other cb.seen) miss).1;
  synced = h.synced;
}

insert_there :
    {V : Type 0} (key other : ℕ) (v : V) (rows : List (ℕ × V))
    → has_row (lookup other rows) ≡ true
    → has_row (lookup other (insert key v rows)) ≡ true
insert_there key other v rows h = elim (Bool-cases (nat_eq.beq key other)) [
  | inl same ↦ has_some (lookup other (insert key v rows)) v (
      ap (λ k. lookup k (insert key v rows)) (sym ((==_iff key other).0 same))
      ∙ lookup-insert_same key v rows)
  | inr differs ↦ ap has_row (lookup-insert_other key other v rows differs) ∙ h
]

both_true : (a b : Bool) → (a && b) ≡ true → (a ≡ true) × (b ≡ true)
both_true a b h = ground arith

and_true : (a b : Bool) → a ≡ true → b ≡ true → (a && b) ≡ true
and_true a b h k = ground arith

-- An append keeps the packs that are there, and its own is there.
synced_after :
    (packs : Packs) (raw : Bytes) (ids : List ℕ)
    → sync_touched_packs packs ids ≡ true
    → sync_touched_packs (append_to_active_pack packs raw).0 ids ≡ true
unfolding sync_touched_packs append_to_active_pack append_at
synced_after packs raw [] h = refl
synced_after packs raw (id ∷ ids) h =
    let (own, rest) =
      both_true (has_row (lookup id packs.files)) (sync_touched_packs packs ids) h in
    and_true _ _ (insert_there _ id _ packs.files own) (synced_after packs raw ids rest)

own_pack :
    (packs : Packs) (raw : Bytes)
    → has_row
        (lookup (append_to_active_pack packs raw).1.0 (append_to_active_pack packs raw).0.files)
      ≡ true
unfolding append_to_active_pack append_at
own_pack packs raw = has_some _ _ (lookup-insert_same _ _ packs.files)

module _ (codec : Codec) (now : ℕ) (family : String) where
  append_batched-Steps :
      (hash : String) (made : Compressed) (cb : CommitBatch) (store : ChunkStore)
      → IsBatch cb store
      → Steps cb store
          (inr hash, append_chunk codec now hash made (write_rows cb store))
          (inr hash, append_batched now hash made cb store)
  unfolding append_batched append_chunk write_rows contains sync_touched_packs
  append_batched-Steps hash made cb store h =
      let place = (append_to_active_pack store.packs made.compressed).1 in
      let packs = (append_to_active_pack store.packs made.compressed).0 in
      let entry : ChunkEntry = record {
        updated_at = now;
        chunk_hash = hash;
        dict_id = made.dict_id;
        dict_family = made.dict_family;
        pack_id = place.0;
        offset = place.1;
        size = length made.compressed;
      } in
      let rows = apply_rows-append cb.chunk_rows hash entry store.chunk_index in
      let before = apply_rows cb.chunk_rows store.chunk_index in
      record {
        same =
            ap
              (λ l. (
                inr hash,
                record store {
                  packs = packs;
                  chunk_index = l;
                  recipes = apply_rows cb.recipe_rows store.recipes;
                },
              ))
              (sym rows);
        batch = record {
          seen_there = λ other hit.
              ap (λ l. has_row (lookup other l)) rows ∙ elim (Bool-cases (str_eq other hash)) [
                | inl same ↦ has_some _ entry (
                    ap (λ k. lookup k (insert hash entry before)) ((eq_iff other hash).0 same)
                    ∙ lookup-insert_same hash entry before)
                | inr differs ↦
                    ap has_row
                      (lookup-insert_other hash other entry before (flipped other hash differs))
                    ∙ h.seen_there other (sym (ap (λ b. b || contains other cb.seen) differs) ∙ hit)
              ];
          unseen_same = λ other miss.
              let (differs, rest) = seen_first (str_eq other hash) (contains other cb.seen) miss in
              ap (lookup other) rows
              ∙ lookup-insert_other hash other entry before (flipped other hash differs)
              ∙ h.unseen_same other rest;
          synced =
              and_true _ _ (own_pack store.packs made.compressed)
                (synced_after store.packs made.compressed cb.touched_packs h.synced);
        };
        index = refl;
        recipes = refl;
      }

  stays :
      (hash : String) (cb : CommitBatch) (store : ChunkStore)
      (plain : (String ⊎ String) × ChunkStore)
      → IsBatch cb store
      → has_row (lookup hash (write_rows cb store).chunk_index) ≡ true
      → plain ≡ (inr hash, write_rows cb store)
      → Steps cb store plain (inr hash, (see hash cb, store))
  unfolding see write_rows
  stays hash cb store plain h there same = record {
    same = same;
    batch = see-IsBatch hash cb store h there;
    index = refl;
    recipes = refl;
  }

  compressed_batched-Steps :
      (z : String ⊎ Compressed) (hash : String) (cb : CommitBatch) (store : ChunkStore)
      → IsBatch cb store
      → lookup hash store.chunk_index ≡ none
      → lookup hash (write_rows cb store).chunk_index ≡ none
      → Steps cb store
          (store_compressed codec z now hash (write_rows cb store))
          (compressed_batched z now hash cb store)
  unfolding store_compressed compressed_batched lookup_chunk store_locked locked_batched
  compressed_batched-Steps (inl e) hash cb store h absent absent_too = record {
    same = refl;
    batch = h;
    index = refl;
    recipes = refl;
  }
  compressed_batched-Steps (inr made) hash cb store h absent absent_too =
      subst
        (λ o.
          Steps cb store
            (store_locked codec (lookup hash (write_rows cb store).chunk_index) now hash made
              (write_rows cb store))
            (locked_batched o now hash made cb store))
        (sym absent)
        (subst
          (λ o.
            Steps cb store (store_locked codec o now hash made (write_rows cb store))
              (locked_batched none now hash made cb store))
          (sym absent_too) (append_batched-Steps hash made cb store h))

  absent_batched-Steps :
      (o : Option ChunkEntry) (chunk : Bytes) (hash : String) (cb : CommitBatch)
      (store : ChunkStore)
      → IsBatch cb store
      → lookup hash store.chunk_index ≡ o
      → lookup hash (write_rows cb store).chunk_index ≡ o
      → Steps cb store
          (store_absent codec o now family chunk hash (write_rows cb store))
          (absent_batched codec o now family chunk hash cb store)
  unfolding store_absent absent_batched
  absent_batched-Steps (some e) chunk hash cb store h found found_too =
      stays hash cb store _ h (has_some _ e found_too) refl
  absent_batched-Steps none chunk hash cb store h absent absent_too =
      compressed_batched-Steps (codec.compress family chunk) hash cb store h absent absent_too

  known_plain :
      (chunk : Bytes) (hash : String) (store : ChunkStore)
      → has_row (lookup hash store.chunk_index) ≡ true
      → store_absent codec (lookup hash store.chunk_index) now family chunk hash store
        ≡ (inr hash, store)
  unfolding store_absent
  known_plain chunk hash store there =
      let (e, found) = row_of (lookup hash store.chunk_index) there in
      ap (λ o. store_absent codec o now family chunk hash store) found

  unseen_batched-Steps :
      (b : Bool) (chunk : Bytes) (hash : String) (cb : CommitBatch) (store : ChunkStore)
      → IsBatch cb store
      → contains hash cb.seen ≡ b
      → Steps cb store
          (store_absent codec
            (lookup hash (write_rows cb store).chunk_index)
            now
            family
            chunk
            hash
            (write_rows cb store))
          (unseen_batched codec b now family chunk hash cb store)
  unfolding unseen_batched lookup_chunk
  unseen_batched-Steps true chunk hash cb store h seen = record {
    same = known_plain chunk hash (write_rows cb store) (h.seen_there hash seen);
    batch = h;
    index = refl;
    recipes = refl;
  }
  unseen_batched-Steps false chunk hash cb store h unseen =
      let same = h.unseen_same hash unseen in
      subst
        (λ o.
          Steps cb store (store_absent codec o now family chunk hash (write_rows cb store))
            (absent_batched codec (lookup hash store.chunk_index) now family chunk hash cb store))
        (sym same)
        (absent_batched-Steps (lookup hash store.chunk_index) chunk hash cb store h refl same)

  pub store_chunk_batched-Steps :
      (chunk : Bytes) (cb : CommitBatch) (store : ChunkStore)
      → IsBatch cb store
      → Steps cb store
          (store_chunk codec now family chunk (write_rows cb store))
          (store_chunk_batched codec now family chunk cb store)
  unfolding store_chunk store_chunk_batched lookup_chunk
  store_chunk_batched-Steps chunk cb store h =
      unseen_batched-Steps (contains (codec.blake3 chunk) cb.seen) chunk (codec.blake3 chunk) cb
        store h refl
