-- ===== src/Filestore/Batch/Commit.antt =====
-- A batched write (internal/filestore/chunkstore.go) that is committed is the write without a batch, and one
-- that is not leaves the rows as they were.
use mathlib.Core.Path.{subst}
use gmeow.Base.{
  ℕ, ◌+◌, String, Option, none, some, List, [], ◌∷◌, ◌++◌, ◌≡◌, refl, sym, ◌∙◌, ap, string_eq,
  nat_eq, length, if◌then◌else◌, ◌⊎◌, inl, inr,
}
use gmeow.Filestore.Chunks.{chunk_content, for_each_chunk, streamed, Streamed}
use gmeow.Filestore.Packs.{Bytes}
use gmeow.Filestore.Blobs.{
  ChunkStore, Codec, Recipe, store_chunk, add_hash, store_next, put_recipe, store_end,
  store_blob_content,
}
use gmeow.Filestore.Gc.{contains}
use gmeow.Filestore.Batch.Steps.{apply_rows-append, IsBatch, Steps, store_chunk_batched-Steps}
use gmeow.Filestore.Batch.{
  CommitBatch, new_commit_batch, apply_rows, sync_touched_packs, write_rows, commit,
  store_chunk_batched, add_batched, next_batched, set_recipe, store_blob_content_batched,
}

-- The end of a write with a batch: its error, and what a commit of the batch leaves.
abbrev pub Commits :
    ChunkStore → Option String × (CommitBatch × ChunkStore) → Option String × ChunkStore → Type 0
Commits store (error, (cb, after)) (failed, plain) =
    (error ≡ failed)
    × (commit cb after ≡ some plain)
    × (after.chunk_index ≡ store.chunk_index)
    × (after.recipes ≡ store.recipes)

module _ (codec : Codec) (now : ℕ) (family : String) where
  -- The loops over the chunks, with the batch written.
  record Loops (cb : CommitBatch) (store : ChunkStore) (plain : Streamed (ChunkStore × List String))
      (result : Streamed ((CommitBatch × ChunkStore) × List String)) : Type 0 where
    error : plain.error ≡ result.error
    state : plain.state ≡ (write_rows result.state.0.0 result.state.0.1, result.state.1)
    batch : IsBatch result.state.0.0 result.state.0.1
    index : result.state.0.1.chunk_index ≡ store.chunk_index
    recipes : result.state.0.1.recipes ≡ store.recipes

  loop_step :
      (chunk : Bytes) (chunks : List Bytes) (total : ℕ) (hashes : List String) (cb : CommitBatch)
      (store : ChunkStore) (plain : (String ⊎ String) × ChunkStore) (r : String ⊎ String)
      (cb' : CommitBatch) (store' : ChunkStore)
      → Steps cb store plain (r, (cb', store'))
      → ((hashes : List String)
          → Loops cb' store'
              (for_each_chunk
                (store_next codec now family)
                chunks
                (total + length chunk)
                (write_rows cb' store', hashes))
              (for_each_chunk
                (next_batched codec now family)
                chunks
                (total + length chunk)
                ((cb', store'), hashes)))
      → let (error, state) = add_hash codec plain hashes in
        let (error', state') = add_batched codec (r, (cb', store')) hashes in
        Loops cb store
          (streamed error total state
            (for_each_chunk (store_next codec now family) chunks (total + length chunk) state))
          (streamed error' total state'
            (for_each_chunk (next_batched codec now family) chunks (total + length chunk) state'))
  unfolding add_hash add_batched streamed
  loop_step chunk chunks total hashes cb store plain (inl e) cb' store' h continue =
      subst
        (λ p.
          let (error, state) = add_hash codec p hashes in
          Loops cb store
            (streamed error total state
              (for_each_chunk (store_next codec now family) chunks (total + length chunk) state))
            (record { error = some e; total = total; state = ((cb', store'), hashes) }))
        (sym h.same)
        (record {
          error = refl;
          state = refl;
          batch = h.batch;
          index = h.index;
          recipes = h.recipes;
        })
  loop_step chunk chunks total hashes cb store plain (inr hash) cb' store' h continue =
      let rest = continue (hashes ++ hash ∷ []) in
      subst
        (λ p.
          let (error, state) = add_hash codec p hashes in
          Loops cb store
            (streamed error total state
              (for_each_chunk (store_next codec now family) chunks (total + length chunk) state))
            (for_each_chunk (next_batched codec now family) chunks (total + length chunk)
              ((cb', store'), hashes ++ hash ∷ [])))
        (sym h.same)
        (record {
          error = rest.error;
          state = rest.state;
          batch = rest.batch;
          index = rest.index ∙ h.index;
          recipes = rest.recipes ∙ h.recipes;
        })

  loops :
      (chunks : List Bytes) (total : ℕ) (hashes : List String) (cb : CommitBatch)
      (store : ChunkStore)
      → IsBatch cb store
      → Loops cb store
          (for_each_chunk (store_next codec now family) chunks total (write_rows cb store, hashes))
          (for_each_chunk (next_batched codec now family) chunks total ((cb, store), hashes))
  unfolding for_each_chunk store_next next_batched
  loops [] total hashes cb store h = record {
    error = refl;
    state = refl;
    batch = h;
    index = refl;
    recipes = refl;
  }
  loops (chunk ∷ chunks) total hashes cb store h =
      let step = store_chunk_batched-Steps codec now family chunk cb store h in
      let (r, (cb', store')) = store_chunk_batched codec now family chunk cb store in
      loop_step chunk chunks total hashes cb store
        (store_chunk codec now family chunk (write_rows cb store)) r cb' store' step
        (λ next. loops chunks (total + length chunk) next cb' store' step.batch)

  committed :
      (cb : CommitBatch) (store : ChunkStore)
      → IsBatch cb store
      → commit cb store ≡ some (write_rows cb store)
  unfolding commit
  committed cb store h = ap (λ b. if b then some (write_rows cb store) else none) h.synced

  ends :
      (digest : String) (size : ℕ) (store : ChunkStore) (error : Option String) (cb : CommitBatch)
      (after : ChunkStore) (hashes : List String)
      → IsBatch cb after
      → after.chunk_index ≡ store.chunk_index
      → after.recipes ≡ store.recipes
      → Commits store
          (set_recipe codec now digest size error ((cb, after), hashes))
          (store_end codec now digest size error (write_rows cb after, hashes))
  unfolding set_recipe store_end put_recipe write_rows
  ends digest size store (some e) cb after hashes h index recipes =
      (refl, committed cb after h, index, recipes)
  ends digest size store none cb after hashes h index recipes =
      let recipe : Recipe = record {
        updated_at = now;
        digest = digest;
        chunk_hashes = hashes;
        content_bytes = size;
      } in
      let cb' = record cb { recipe_rows = cb.recipe_rows ++ (digest, recipe) ∷ [] } in
      (
        refl,
        committed cb' after
              (record { seen_there = h.seen_there; unseen_same = h.unseen_same; synced = h.synced })
            ∙ ap
                (λ l. some (record after {
                  chunk_index = apply_rows cb.chunk_rows after.chunk_index;
                  recipes = l;
                }))
                (apply_rows-append cb.recipe_rows digest recipe after.recipes),
        index,
        recipes,
      )

  new_commit_batch-IsBatch : (store : ChunkStore) → IsBatch new_commit_batch store
  unfolding new_commit_batch write_rows apply_rows contains sync_touched_packs
  new_commit_batch-IsBatch store = record {
    seen_there = λ hash h. absurd (cc);
    unseen_same = λ hash h. refl;
    synced = refl;
  }

  written_new : (store : ChunkStore) → write_rows new_commit_batch store ≡ store
  unfolding new_commit_batch write_rows apply_rows
  written_new store = refl

  -- A write of content with a new batch has the error of the write without one, leaves the rows
  -- of the store as they were, also where it fails, and a commit of its batch succeeds and leaves
  -- the store of the write without one.
  pub store_blob_content_batched-commit :
      (digest : String) (content : Bytes) (store : ChunkStore)
      → Commits store
          (store_blob_content_batched codec now digest content family new_commit_batch store)
          (store_blob_content codec now digest content family store)
  unfolding store_blob_content_batched store_blob_content
  store_blob_content_batched-commit digest content store =
      let chunks = chunk_content content in
      let r =
        for_each_chunk (next_batched codec now family) chunks 0 ((new_commit_batch, store), []) in
      let run = loops chunks 0 [] new_commit_batch store (new_commit_batch-IsBatch store) in
      let end =
        ends digest (length content) store r.error r.state.0.0 r.state.0.1 r.state.1 run.batch
          run.index run.recipes in
      subst
        (λ s. Commits store (set_recipe codec now digest (length content) r.error r.state) (
          store_end codec now digest (length content)
            (for_each_chunk (store_next codec now family) chunks 0 (s, [])).error
            (for_each_chunk (store_next codec now family) chunks 0 (s, [])).state))
        (written_new store)
        (subst
          (λ s. Commits store (set_recipe codec now digest (length content) r.error r.state) (
            store_end codec now digest (length content)
              (for_each_chunk (store_next codec now family) chunks 0
                (write_rows new_commit_batch store, [])).error
              s))
          (sym run.state)
          (subst
            (λ e. Commits store (set_recipe codec now digest (length content) r.error r.state) (
              store_end codec now digest (length content) e
                (write_rows r.state.0.0 r.state.0.1, r.state.1)))
            (sym run.error) end))
