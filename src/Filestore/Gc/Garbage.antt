-- ===== src/Filestore/Gc/Garbage.antt =====
-- What `Gc` (internal/filestore/gc.go) takes away when nothing else writes, and its report.
use gmeow.Base.{
  ℕ, ◌+◌, ◌-◌, String, Bool, true, false, not, ◌||◌, none, some, List, [], ◌∷◌, ◌++◌, ◌≡◌, refl,
  ◌∙◌, ap, arith, string_eq, ltb, length, if◌then◌else◌, lookup, inl, inr, Unique, Bool-cases,
}
use gmeow.Filestore.Blobs.{ChunkEntry, Recipe}
use gmeow.Filestore.Objects.{Store}
use gmeow.Filestore.Gc.{
  contains, mark, is_kept, mark_recent, dead_chunks, swept_recipes, has_row, delete_chunks,
  delete_recipes, Interleaving, marked_live, dead_keys, at_recheck, gc_with_grace,
  annotation_payloads, GcReport,
}
use gmeow.Filestore.Gc.Mark.{contains-append, Unmarked, mark_dead, mark_orphan}
use gmeow.Filestore.Gc.Select.{
  dead_selection, orphan_selection, swept_present, swept_selection, or_later,
}
use gmeow.Filestore.Gc.Reach.{IsReachable, is_kept_iff}
use gmeow.Filestore.Gc.Sweep.{
  IsKeyed, length-delete_keys, lookup-delete_keys_present, dead_chunks_old, or_neither,
}

-- Nothing else writes.
abbrev pub alone : Interleaving
alone = record { before_scan = λ s. s; before_sweep = λ s. s; before_recheck = λ s. s }

young_kept : (time start grace : ℕ) → ltb time start ≡ false → not (ltb time (start - grace)) ≡ true
young_kept time start grace h = ground arith

is_kept_young :
    (snapshot : Store) (start grace : ℕ) (digest : String) (recipe : Recipe)
    → ltb recipe.updated_at start ≡ false
    → is_kept snapshot (start - grace) digest recipe ≡ true
unfolding is_kept
is_kept_young snapshot start grace digest recipe young =
    let payload = contains digest (annotation_payloads snapshot.annotations) in
    let late = not (ltb recipe.updated_at (start - grace)) in
    or_later (has_row (lookup digest snapshot.manifests) || payload) late
      (young_kept recipe.updated_at start grace young)

-- A hash of no kept recipe is in no recent one.
mark_recent_dead :
    (snapshot : Store) (start grace : ℕ) (recipes : List (String × Recipe)) (hash : String)
    → Unmarked snapshot (start - grace) hash recipes
    → contains hash (mark_recent start recipes) ≡ false
unfolding mark_recent contains
mark_recent_dead snapshot start grace [] hash h = refl
mark_recent_dead snapshot start grace ((digest, recipe) ∷ recipes) hash (own, h) =
    let rest = mark_recent_dead snapshot start grace recipes hash h in
    elim (Bool-cases (ltb recipe.updated_at start)) [
      | inl old ↦
          ap
            (λ b. contains hash (
              if b
              then mark_recent start recipes
              else recipe.chunk_hashes ++ mark_recent start recipes))
            old
          ∙ rest
      | inr young ↦
          let kept = is_kept_young snapshot start grace digest recipe young in
          ap
            (λ b. contains hash (
              if b
              then mark_recent start recipes
              else recipe.chunk_hashes ++ mark_recent start recipes))
            young
          ∙ contains-append hash recipe.chunk_hashes (mark_recent start recipes)
          ∙ or_neither (contains hash recipe.chunk_hashes)
              (contains hash (mark_recent start recipes)) (own kept) rest
    ]

not_kept : (a b c : Bool) → (a || b || c) ≡ false → a ≡ false
not_kept a b c h = ground arith

-- No reachable recipe has the hash.
abbrev pub Unreferenced : Store → ℕ → String → List (String × Recipe) → Type 0
Unreferenced store cutoff hash [] = Unit
Unreferenced store cutoff hash ((digest, recipe) ∷ recipes) =
    (IsReachable store cutoff digest recipe → contains hash recipe.chunk_hashes ≡ false)
    × Unreferenced store cutoff hash recipes

Unmarked-of :
    (store : Store) (cutoff : ℕ) (hash : String) (recipes : List (String × Recipe))
    → Unreferenced store cutoff hash recipes
    → Unmarked store cutoff hash recipes
Unmarked-of store cutoff hash [] h = tt
Unmarked-of store cutoff hash ((digest, recipe) ∷ recipes) (own, h) = (
  λ kept. own ((is_kept_iff store cutoff digest recipe).0 kept),
  Unmarked-of store cutoff hash recipes h,
)

unkept_of :
    (store : Store) (cutoff : ℕ) (digest : String) (recipe : Recipe)
    → ¬ IsReachable store cutoff digest recipe
    → is_kept store cutoff digest recipe ≡ false
unkept_of store cutoff digest recipe unreached =
    elim (Bool-cases (is_kept store cutoff digest recipe)) [
      | inl kept ↦ absurd (unreached ((is_kept_iff store cutoff digest recipe).0 kept))
      | inr unkept ↦ unkept
    ]

-- The garbage is gone, and the report counts what was there, what went and what is left.
pub record Collected (start grace : ℕ) (store : Store) (result : GcReport × Store) : Type 0 where
  pub no_dead_chunk :
      (hash : String) (entry : ChunkEntry)
      → lookup hash store.chunks.chunk_index ≡ some entry
      → ltb entry.updated_at (start - grace) ≡ true
      → Unreferenced store (start - grace) hash store.chunks.recipes
      → lookup hash result.1.chunks.chunk_index ≡ none
  pub no_orphan :
      (digest : String) (recipe : Recipe)
      → lookup digest store.chunks.recipes ≡ some recipe
      → ¬ IsReachable store (start - grace) digest recipe
      → lookup digest result.1.chunks.recipes ≡ none
  pub scanned : result.0.scanned_chunks ≡ length store.chunks.chunk_index
  pub swept :
      result.0.swept_chunks + length result.1.chunks.chunk_index ≡ length store.chunks.chunk_index
  pub retained : result.0.retained_chunks ≡ length result.1.chunks.chunk_index
  pub recipes :
      result.0.swept_recipes + length result.1.chunks.recipes ≡ length store.chunks.recipes

-- With no other writer, unique keys and chunk rows keyed by their hash, a collection deletes each
-- old chunk row that no reachable recipe has and each recipe that is not reachable, and its
-- report counts the rows that were there, those that went and those that are left.
pub gc_with_grace-Collected :
    (start grace : ℕ) (store : Store)
    → Unique store.chunks.chunk_index
    → IsKeyed store.chunks.chunk_index
    → Unique store.chunks.recipes
    → Collected start grace store (gc_with_grace alone start grace store)
unfolding gc_with_grace at_recheck dead_keys delete_chunks delete_recipes marked_live is_kept
gc_with_grace-Collected start grace store rows keyed recipes =
    let cutoff = start - grace in
    let live = marked_live alone start grace store in
    let orphans = (mark store cutoff store.chunks.recipes).orphan_recipes in
    let later = at_recheck alone start grace store in
    let index_length =
      length-delete_keys (dead_chunks live cutoff store.chunks.chunk_index) store.chunks.chunk_index
        rows (dead_selection live cutoff store.chunks.chunk_index rows) in
    let recipes_length =
      length-delete_keys (swept_recipes later orphans) store.chunks.recipes recipes (
        swept_selection later orphans store.chunks.recipes
          (orphan_selection store cutoff store.chunks.recipes recipes)) in
    record {
      no_dead_chunk = λ hash entry found old unreferenced.
          let unmarked = Unmarked-of store cutoff hash store.chunks.recipes unreferenced in
          lookup-delete_keys_present hash (dead_chunks live cutoff store.chunks.chunk_index)
            store.chunks.chunk_index
            (dead_chunks_old live cutoff store.chunks.chunk_index hash entry keyed found
              (contains-append hash (mark_recent start store.chunks.recipes)
                  (mark store cutoff store.chunks.recipes).live_chunks
                ∙ or_neither _ _
                    (mark_recent_dead store start grace store.chunks.recipes hash unmarked)
                    (mark_dead store cutoff store.chunks.recipes hash unmarked))
              old);
      no_orphan = λ digest recipe found unreached.
          let unkept = unkept_of store cutoff digest recipe unreached in
          lookup-delete_keys_present digest (swept_recipes later orphans) store.chunks.recipes (
            swept_present later orphans digest
              (mark_orphan store cutoff store.chunks.recipes digest recipe recipes found
                ∙ ap not unkept)
              (not_kept (has_row (lookup digest store.manifests)) _ _ unkept));
      scanned = refl;
      swept = omega (arith, index_length);
      retained = omega (arith, index_length);
      recipes = omega (arith, recipes_length);
    }
