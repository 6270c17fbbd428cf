-- ===== src/Filestore/Gc.antt =====
-- `Gc` (internal/filestore/gc.go): the rows of chunks and recipes that nothing reaches are deleted. The
-- reads of the mark phase are of a snapshot; what other goroutines do between the reads and the writes is
-- a parameter. A set of the source is the list of what was put into it, and a time is a number: a cutoff
-- before 0 is 0, and no time is before either. The gate on the text of an annotation row skips rows with
-- no external digest, as the test behind it does.
pub mod Mark
pub mod Reach
pub mod Sweep
pub mod Live
pub mod Select
pub mod Garbage
mod Tests
use gmeow.Base.{
  ℕ, ◌-◌, String, Bool, true, false, not, ◌||◌, Option, none, some, List, [], ◌∷◌, ◌++◌, str_eq,
  string_eq, ltb, length, if◌then◌else◌, lookup,
}
use gmeow.Filestore.Blobs.{ChunkEntry, ChunkStore, Recipe}
use gmeow.Filestore.Objects.{AnnotationEntry, Manifest, Store, delete_keys}

pub record GcReport : Type 0 where
  pub scanned_chunks : ℕ
  pub swept_chunks : ℕ
  pub retained_chunks : ℕ
  pub swept_recipes : ℕ

-- 15 minutes, in nanoseconds.
abbrev pub gc_grace_period : ℕ
gc_grace_period = 900000000000

unfoldable pub contains : String → List String → Bool
contains x [] = false
contains x (y ∷ ys) = str_eq x y || contains x ys

unfoldable pub has_row : {V : Type 0} → Option V → Bool
has_row none = false
has_row (some v) = true

unfoldable pub annotation_payloads : List AnnotationEntry → List String
annotation_payloads [] = []
annotation_payloads (entry ∷ entries) =
    let rest = annotation_payloads entries in
    if str_eq entry.external_digest String.[] then rest else entry.external_digest ∷ rest

-- The live chunks, and the digests of the orphan recipes.
pub record Marked : Type 0 where
  pub live_chunks : List String
  pub orphan_recipes : List String

-- On whether the recipe is reachable or young.
unfoldable pub mark_recipe : Bool → String → Recipe → Marked → Marked
mark_recipe true digest recipe marked = record marked {
  live_chunks = recipe.chunk_hashes ++ marked.live_chunks;
}
mark_recipe false digest recipe marked = record marked {
  orphan_recipes = digest ∷ marked.orphan_recipes;
}

unfoldable pub is_kept : Store → ℕ → String → Recipe → Bool
is_kept snapshot cutoff digest recipe =
    has_row (lookup digest snapshot.manifests)
    || contains digest (annotation_payloads snapshot.annotations)
    || not (ltb recipe.updated_at cutoff)

unfoldable pub mark : Store → ℕ → List (String × Recipe) → Marked
mark snapshot cutoff [] = record { live_chunks = []; orphan_recipes = [] }
mark snapshot cutoff ((digest, recipe) ∷ recipes) =
    mark_recipe (is_kept snapshot cutoff digest recipe) digest recipe (mark snapshot cutoff recipes)

-- The chunks of the recipes that were committed since the start.
unfoldable pub mark_recent : ℕ → List (String × Recipe) → List String
mark_recent start [] = []
mark_recent start ((digest, recipe) ∷ recipes) =
    let rest = mark_recent start recipes in
    if ltb recipe.updated_at start then rest else recipe.chunk_hashes ++ rest

unfoldable pub dead_chunks : List String → ℕ → List (String × ChunkEntry) → List String
dead_chunks live cutoff [] = []
dead_chunks live cutoff ((key, entry) ∷ rows) =
    let rest = dead_chunks live cutoff rows in
    if contains entry.chunk_hash live || not (ltb entry.updated_at cutoff) then rest else key ∷ rest

unfoldable pub swept_recipes : Store → List String → List String
swept_recipes live [] = []
swept_recipes live (digest ∷ digests) =
    let rest = swept_recipes live digests in
    if has_row (lookup digest live.manifests) then rest else digest ∷ rest

unfoldable pub delete_chunks : List String → Store → Store
delete_chunks keys store =
    let chunks = store.chunks in
    record store { chunks = record chunks { chunk_index = delete_keys keys chunks.chunk_index } }

unfoldable pub delete_recipes : List String → Store → Store
delete_recipes keys store =
    let chunks = store.chunks in
    record store { chunks = record chunks { recipes = delete_keys keys chunks.recipes } }

-- What other goroutines do after the snapshot and before the scan of the live recipes, before the chunks
-- are deleted, and before the orphans are looked up again.
pub record Interleaving : Type 0 where
  pub before_scan : Store → Store
  pub before_sweep : Store → Store
  pub before_recheck : Store → Store

unfoldable pub marked_live : Interleaving → ℕ → ℕ → Store → List String
marked_live others start grace snapshot =
    mark_recent start (others.before_scan snapshot).chunks.recipes
    ++ (mark snapshot (start - grace) snapshot.chunks.recipes).live_chunks

unfoldable pub dead_keys : Interleaving → ℕ → ℕ → Store → List String
dead_keys others start grace snapshot =
    dead_chunks (marked_live others start grace snapshot) (start - grace)
      snapshot.chunks.chunk_index

-- The store when the orphans are looked up again.
unfoldable pub at_recheck : Interleaving → ℕ → ℕ → Store → Store
at_recheck others start grace snapshot = others.before_recheck (
    delete_chunks (dead_keys others start grace snapshot)
      (others.before_sweep (others.before_scan snapshot)))

-- With the grace period, at a start; the store is the one of the snapshot.
unfoldable pub gc_with_grace : Interleaving → ℕ → ℕ → Store → GcReport × Store
gc_with_grace others start grace snapshot =
    let dead = dead_keys others start grace snapshot in
    let live = at_recheck others start grace snapshot in
    let orphans = (mark snapshot (start - grace) snapshot.chunks.recipes).orphan_recipes in
    let swept = swept_recipes live orphans in
    let scanned = length snapshot.chunks.chunk_index in
    (
      record {
        scanned_chunks = scanned;
        swept_chunks = length dead;
        retained_chunks = scanned - length dead;
        swept_recipes = length swept;
      },
      delete_recipes swept live,
    )

unfoldable pub gc : Interleaving → ℕ → Store → GcReport × Store
gc others start snapshot = gc_with_grace others start gc_grace_period snapshot
