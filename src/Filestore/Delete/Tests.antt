-- ===== src/Filestore/Delete/Tests.antt =====
-- Runs of the deletions, and their theorems at concrete inputs.
use gmeow.Base.{trim_space, String, true, false, [], ◌∷◌, ◌≡◌, refl, ◌⊎◌, inl, inr}
use gmeow.Cache.Sized.{new_sized}
use gmeow.Filestore.Objects.{Store, Provenance, looks_like_digest, hex_digits, is_hex, is_blank}
use gmeow.Filestore.Delete.{delete_object, delete_import, invalid_digest}
use gmeow.Filestore.Delete.Rows.{Deleted, delete_object-Deleted}
use gmeow.Filestore.Delete.Whole.{Removed, delete_import-Removed}

abbrev digest_a : String
digest_a = "aaaaaaaaaaaaaaaaaaaaaaaaaaaaaaaaaaaaaaaaaaaaaaaaaaaaaaaaaaaaaaaa"

abbrev digest_b : String
digest_b = "bbbbbbbbbbbbbbbbbbbbbbbbbbbbbbbbbbbbbbbbbbbbbbbbbbbbbbbbbbbbbbbb"

abbrev from_source : String → Provenance
from_source name = record {
  observed_at = 1;
  source_name = name;
  source_kind = "mbox";
  external_id = "1";
  external_version = String.[];
}

-- One object of the import alone, and one that another import has, too.
abbrev store : Store
store = record {
  chunks = record {
    chunk_index = [];
    recipes = [];
    packs = record { files = []; active_known = false; active_id = 0; active_size = 0 };
    chunk_cache = new_sized 100;
  };
  manifests =
      (digest_a, record { updated_at = 1; provenance = from_source "one" ∷ []; others = String.[] })
      ∷ (
        digest_b,
        record {
          updated_at = 1;
          provenance = from_source "one" ∷ from_source "two" ∷ [];
          others = String.[];
        },
      )
      ∷ [];
  annotations = [];
  source_index = ("key", digest_b) ∷ [];
  source_aliases = [];
  recovery = [];
  compound_parents = [];
  changes = [];
  changes_latest = [];
}

abbrev no_hash : String → String
no_hash s = s

delete_object-Deleted_example :
    ((looks_like_digest digest_a ≡ true)
      × ((after : Store) × (delete_object no_hash digest_a store ≡ inr after)
          × Deleted digest_a store after))
    ⊎ ((looks_like_digest digest_a ≡ false)
        × (delete_object no_hash digest_a store ≡ inl (invalid_digest digest_a)))
delete_object-Deleted_example = delete_object-Deleted no_hash digest_a store

delete_import-Removed_example :
    Removed 9 "mbox" "one" no_hash store (delete_import no_hash 9 "mbox" "one" store)
unfolding looks_like_digest hex_digits is_hex is_blank trim_space
delete_import-Removed_example =
    delete_import-Removed 9 "mbox" "one" no_hash store refl (refl, (refl, tt))
