-- ===== src/Filestore/Gc/Live.antt =====
-- What `Gc` (internal/filestore/gc.go) keeps: the content of the objects that are reachable or young, while
-- other goroutines write.
use mathlib.Core.Path.{subst}
use gmeow.Base.{
  ℕ, ◌-◌, String, Bool, true, false, not, ◌||◌, none, some, List, [], ◌∷◌, ◌≡◌, refl, sym, ◌∙◌, ap,
  arith, str_eq, string_eq, eq_iff, ltb, if◌then◌else◌, lookup, Unique,
}
use gmeow.Filestore.Packs.{Bytes}
use gmeow.Filestore.Blobs.{ChunkStore, Recipe, Codec, read_chunk_at}
use gmeow.Filestore.Blobs.StoreChunk.{HasChunk}
use gmeow.Filestore.Blobs.Content.{HasAll, has_none, has_next, HasBlob}
use gmeow.Filestore.Objects.{Store}
use gmeow.Filestore.Gc.{
  contains, mark, mark_recent, swept_recipes, has_row, delete_chunks, delete_recipes, Interleaving,
  marked_live, dead_keys, at_recheck, gc_with_grace,
}
use gmeow.Filestore.Gc.Mark.{
  Within, Within-left, Within-right, mark_live, mark_orphan, orphan_absent, mark_recent_live,
}
use gmeow.Filestore.Gc.Reach.{IsReachable, is_kept_iff}
use gmeow.Filestore.Gc.Sweep.{IsKeyed, lookup-delete_keys_absent, dead_chunks_live}

swept_branch :
    (b : Bool) (digest key : String) (rest : List String)
    → str_eq digest key ≡ false
    → contains digest rest ≡ false
    → contains digest (if b then rest else key ∷ rest) ≡ false
unfolding contains
swept_branch true digest key rest differs h = h
swept_branch false digest key rest differs h = ap (λ b. b || contains digest rest) differs ∙ h

neither : (a b : Bool) → (a || b) ≡ false → (a ≡ false) × (b ≡ false)
neither a b h = ground arith

among_rest : (a b : Bool) → b ≡ true → (a || b) ≡ true
among_rest a b h = ground arith

-- Only orphans are swept.
swept_absent :
    (live : Store) (orphans : List String) (digest : String)
    → contains digest orphans ≡ false
    → contains digest (swept_recipes live orphans) ≡ false
unfolding contains swept_recipes
swept_absent live [] digest h = refl
swept_absent live (key ∷ orphans) digest h =
    let (differs, rest) = neither (str_eq digest key) (contains digest orphans) h in
    swept_branch (has_row (lookup key live.manifests)) digest key (swept_recipes live orphans)
      differs (swept_absent live orphans digest rest)

module _ (codec : Codec) where
  HasAll-among :
      {store after : ChunkStore} {hashes : List String} {content : Bytes}
      → ((hash : String) (chunk : Bytes)
          → contains hash hashes ≡ true
          → HasChunk codec store hash chunk
          → HasChunk codec after hash chunk)
      → HasAll codec store hashes content
      → HasAll codec after hashes content
  unfolding contains
  HasAll-among f has_none = has_none
  HasAll-among f (has_next {hash = hash} {hashes = hashes} {chunk = chunk} h hs) =
      has_next (f hash chunk (ap (λ b. b || contains hash hashes) ((eq_iff hash hash).1 refl)) h) (
        HasAll-among
          (λ other c among.
            f other c (among_rest (str_eq other hash) (contains other hashes) among))
          hs)

  -- What other goroutines may do: a recipe keeps its chunks, and a chunk that is there stays.
  pub record IsAdditive (others : Store → Store) : Type 0 where
    pub recipes :
        (store : Store) (digest : String) (recipe : Recipe)
        → lookup digest store.chunks.recipes ≡ some recipe
        → (after : Recipe) × (lookup digest (others store).chunks.recipes ≡ some after)
          × (after.chunk_hashes ≡ recipe.chunk_hashes)
    pub chunks :
        (store : Store) (hash : String) (chunk : Bytes)
        → HasChunk codec store.chunks hash chunk
        → HasChunk codec (others store).chunks hash chunk

  -- The object has a recipe of these hashes, for the content.
  record HasHashes (store : Store) (digest : String) (hashes : List String) (content : Bytes)
      : Type 0 where
    recipe : Recipe
    found : lookup digest store.chunks.recipes ≡ some recipe
    same : recipe.chunk_hashes ≡ hashes
    chunks : HasAll codec store.chunks hashes content

  blob_of :
      (store : Store) (digest : String) (hashes : List String) (content : Bytes)
      → HasHashes store digest hashes content
      → HasBlob codec store.chunks digest content
  blob_of store digest hashes content h = record {
    recipe = h.recipe;
    found = h.found;
    chunks = subst (λ l. HasAll codec store.chunks l content) (sym h.same) h.chunks;
  }

  others_kept :
      (others : Store → Store) (store : Store) (digest : String) (hashes : List String)
      (content : Bytes)
      → IsAdditive others
      → HasHashes store digest hashes content
      → HasHashes (others store) digest hashes content
  others_kept others store digest hashes content add h =
      let (after, found, same) = add.recipes store digest h.recipe h.found in
      record {
        recipe = after;
        found = found;
        same = same ∙ h.same;
        chunks = HasAll-among (λ hash chunk _. add.chunks store hash chunk) h.chunks;
      }

  chunks_kept :
      (dead : List String) (store : Store) (digest : String) (hashes : List String)
      (content : Bytes)
      → ((hash : String) → contains hash hashes ≡ true → contains hash dead ≡ false)
      → HasHashes store digest hashes content
      → HasHashes (delete_chunks dead store) digest hashes content
  unfolding delete_chunks read_chunk_at
  chunks_kept dead store digest hashes content f h = record {
    recipe = h.recipe;
    found = h.found;
    same = h.same;
    chunks =
        HasAll-among
          (λ hash chunk among c. record {
            entry = c.entry;
            found =
                lookup-delete_keys_absent hash dead store.chunks.chunk_index (f hash among)
                ∙ c.found;
            reads = c.reads;
          })
          h.chunks;
  }

  recipes_kept :
      (swept : List String) (store : Store) (digest : String) (hashes : List String)
      (content : Bytes)
      → contains digest swept ≡ false
      → HasHashes store digest hashes content
      → HasHashes (delete_recipes swept store) digest hashes content
  unfolding delete_recipes read_chunk_at
  recipes_kept swept store digest hashes content absent h = record {
    recipe = h.recipe;
    found = lookup-delete_keys_absent digest swept store.chunks.recipes absent ∙ h.found;
    same = h.same;
    chunks =
        HasAll-among
          (λ hash chunk _ c. record { entry = c.entry; found = c.found; reads = c.reads }) h.chunks;
  }

  module _ (others : Interleaving) (start grace : ℕ) (snapshot : Store)
      (scan : IsAdditive others.before_scan) (sweep : IsAdditive others.before_sweep)
      (recheck : IsAdditive others.before_recheck)
      (keyed : IsKeyed snapshot.chunks.chunk_index) where
    -- A blob whose hashes are marked and whose digest is no orphan, from the scan on.
    kept_through :
        (digest : String) (hashes : List String) (content : Bytes)
        → HasHashes (others.before_scan snapshot) digest hashes content
        → Within hashes (marked_live others start grace snapshot)
        → contains digest (mark snapshot (start - grace) snapshot.chunks.recipes).orphan_recipes
          ≡ false
        → HasBlob codec (gc_with_grace others start grace snapshot).1.chunks digest content
    unfolding gc_with_grace at_recheck dead_keys
    kept_through digest hashes content has live orphan =
        let dead = dead_keys others start grace snapshot in
        let scanned = others.before_scan snapshot in
        let before_sweep =
          others_kept others.before_sweep scanned digest hashes content sweep has in
        let swept =
          chunks_kept dead (others.before_sweep scanned) digest hashes content
            (λ hash among.
              dead_chunks_live (marked_live others start grace snapshot) (start - grace)
                snapshot.chunks.chunk_index hash keyed (live hash among))
            before_sweep in
        let after = others_kept others.before_recheck _ digest hashes content recheck swept in
        blob_of _ digest hashes content (
          recipes_kept _ (at_recheck others start grace snapshot) digest hashes content
            (swept_absent (at_recheck others start grace snapshot) _ digest orphan) after)

    -- If the recipe of an object in the snapshot is reachable, by a manifest, as an annotation's
    -- payload or by being in the grace window, and its chunks are there, then the object still
    -- has its content after a collection, where other goroutines meanwhile only add, each chunk
    -- row has its key as hash and no recipe key stands twice.
    pub gc_with_grace-HasBlob :
        (digest : String) (recipe : Recipe) (content : Bytes)
        → Unique snapshot.chunks.recipes
        → lookup digest snapshot.chunks.recipes ≡ some recipe
        → HasAll codec snapshot.chunks recipe.chunk_hashes content
        → IsReachable snapshot (start - grace) digest recipe
        → HasBlob codec (gc_with_grace others start grace snapshot).1.chunks digest content
    unfolding marked_live
    gc_with_grace-HasBlob digest recipe content unique found has reached =
        let kept = (is_kept_iff snapshot (start - grace) digest recipe).1 reached in
        kept_through digest recipe.chunk_hashes content
          (others_kept others.before_scan snapshot digest recipe.chunk_hashes content scan
            (record { recipe = recipe; found = found; same = refl; chunks = has }))
          (λ x h.
            Within-right (mark_recent start (others.before_scan snapshot).chunks.recipes) _ x (
              mark_live snapshot (start - grace) snapshot.chunks.recipes digest recipe found kept x
                h))
          (mark_orphan snapshot (start - grace) snapshot.chunks.recipes digest recipe unique found
            ∙ ap not kept)

    pub gc_with_grace_recent :
        (digest : String) (recipe : Recipe) (content : Bytes)
        → lookup digest snapshot.chunks.recipes ≡ none
        → lookup digest (others.before_scan snapshot).chunks.recipes ≡ some recipe
        → HasAll codec (others.before_scan snapshot).chunks recipe.chunk_hashes content
        → ltb recipe.updated_at start ≡ false
        → HasBlob codec (gc_with_grace others start grace snapshot).1.chunks digest content
    unfolding marked_live
    gc_with_grace_recent digest recipe content absent found has recent =
        kept_through digest recipe.chunk_hashes content
          (record { recipe = recipe; found = found; same = refl; chunks = has })
          (λ x h. Within-left _ _ x (
            mark_recent_live start (others.before_scan snapshot).chunks.recipes digest recipe found
              recent x h))
          (orphan_absent snapshot (start - grace) snapshot.chunks.recipes digest absent)
