-- ===== src/Filestore/Gc/Tests.antt =====
-- Runs of `Gc`, and its theorems at concrete inputs.
use gmeow.Base.{ℕ, String, false, inr, inl, List, [], ◌∷◌, ◌≡◌, refl, lookup, string_eq}
use gmeow.Cache.Sized.{new_sized}
use gmeow.Filestore.Blobs.{ChunkEntry, Recipe, Codec, read_chunk_at, unpacked, verified}
use gmeow.Filestore.Packs.{read_pack_bytes, read_at}
use gmeow.Filestore.Blobs.Content.{HasAll, has_none, has_next, HasBlob}
use gmeow.Filestore.Objects.{Store}
use gmeow.Filestore.Gc.{
  gc_with_grace, is_kept, contains, annotation_payloads, has_row, mark, mark_recipe, mark_recent,
  dead_chunks, swept_recipes, delete_chunks, delete_recipes, marked_live, dead_keys, at_recheck,
}
use gmeow.Filestore.Gc.Live.{IsAdditive, gc_with_grace-HasBlob}
use gmeow.Filestore.Gc.Garbage.{alone, Collected, gc_with_grace-Collected}

abbrev entry_of : String → ℕ → ℕ → ChunkEntry
entry_of hash offset time = record {
  updated_at = time;
  chunk_hash = hash;
  dict_id = String.[];
  dict_family = String.[];
  pack_id = 0;
  offset = offset;
  size = 1;
}

abbrev recipe_of : String → List String → ℕ → Recipe
recipe_of digest hashes time = record {
  updated_at = time;
  digest = digest;
  chunk_hashes = hashes;
  content_bytes = 1;
}

-- An object, the payload of an annotation, an orphan, and a chunk of no recipe.
abbrev store : Store
store = record {
  chunks = record {
    chunk_index =
        ("a", entry_of "a" 0 10)
        ∷ ("b", entry_of "b" 1 10)
        ∷ ("c", entry_of "c" 2 10)
        ∷ ("z", entry_of "z" 3 10)
        ∷ [];
    recipes =
        ("object", recipe_of "object" ("a" ∷ []) 10)
        ∷ ("payload", recipe_of "payload" ("b" ∷ []) 10)
        ∷ ("orphan", recipe_of "orphan" ("c" ∷ []) 10)
        ∷ [];
    packs = record {
      files = (0, 1 ∷ 2 ∷ 3 ∷ 4 ∷ []) ∷ [];
      active_known = false;
      active_id = 0;
      active_size = 0;
    };
    chunk_cache = new_sized 100;
  };
  manifests = ("object", record { updated_at = 10; provenance = []; others = String.[] }) ∷ [];
  annotations =
      record { digest = "object"; kind = "k"; analyzer_name = "n"; external_digest = "payload" }
      ∷ [];
  source_index = [];
  source_aliases = [];
  recovery = [];
  compound_parents = [];
  changes = [];
  changes_latest = [];
}

gc_test :
    (gc_with_grace alone 100 20 store).0
    ≡ record { scanned_chunks = 4; swept_chunks = 2; retained_chunks = 2; swept_recipes = 1 }
unfolding gc_with_grace is_kept contains annotation_payloads has_row mark mark_recipe mark_recent
    dead_chunks swept_recipes delete_chunks delete_recipes marked_live dead_keys at_recheck lookup
gc_test = refl

gc_with_grace-Collected_example : Collected 100 20 store (gc_with_grace alone 100 20 store)
unfolding lookup
gc_with_grace-Collected_example =
    gc_with_grace-Collected 100 20 store (refl, (refl, (refl, (refl, tt))))
      (refl, (refl, (refl, (refl, tt)))) (refl, (refl, (refl, tt)))

-- All content has the same hash, and is stored as it is.
abbrev one_hash : Codec
one_hash = record {
  blake3 = λ bytes. "a";
  compress = λ family chunk.
      inr (record { compressed = chunk; dict_id = String.[]; dict_family = String.[] });
  decompress = λ compressed dict_id. inr compressed;
}

alone-IsAdditive : IsAdditive one_hash (λ s. s)
alone-IsAdditive = record {
  recipes = λ s digest recipe found. (recipe, found, refl);
  chunks = λ s hash chunk has. has;
}

object_chunks : HasAll one_hash store.chunks ("a" ∷ []) (1 ∷ [])
unfolding read_chunk_at unpacked verified read_pack_bytes read_at lookup
object_chunks = has_next (record { entry = entry_of "a" 0 10; found = refl; reads = refl }) has_none

gc_with_grace-HasBlob_example :
    HasBlob one_hash (gc_with_grace alone 100 20 store).1.chunks "object" (1 ∷ [])
unfolding lookup is_kept has_row
gc_with_grace-HasBlob_example =
    gc_with_grace-HasBlob one_hash alone 100 20 store alone-IsAdditive alone-IsAdditive
      alone-IsAdditive (refl, (refl, (refl, (refl, tt)))) "object"
      (recipe_of "object" ("a" ∷ []) 10) (1 ∷ []) (refl, (refl, (refl, tt))) refl object_chunks
      (inl (record { updated_at = 10; provenance = []; others = String.[] }, refl))
