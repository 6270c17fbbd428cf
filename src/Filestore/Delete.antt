-- ===== src/Filestore/Delete.antt =====
-- The deletion of objects and of imports (internal/filestore/gc.go). A detachment runs under the lock of
-- the manifest; nothing else writes between the scan and the detachments.
pub mod Rows
pub mod Import
pub mod Detach
pub mod Whole
mod Tests
use gmeow.Base.{
  ℕ, suc, String, Bool, true, false, ◌&&◌, ◌||◌, Option, none, some, List, [], ◌∷◌, str_eq,
  string_eq, length, if◌then◌else◌, ◌⊎◌, inl, inr, lookup, delete, map,
}
use gmeow.Filestore.Blobs.{ChunkStore}
use gmeow.Filestore.Objects.{
  Store, Manifest, Provenance, SourceObjectRef, AnnotationEntry, delete_keys, looks_like_digest,
  is_blank, validate_source_object_ref, source_object_ref_from_provenance, source_object_ref_key,
  source_alias_key, write_manifest,
}

pub data DeleteError : Type 0 where
  invalid_digest : String → DeleteError
  source_required : DeleteError

-- The keys of source rows and of alias rows.
pub record SourceKeys : Type 0 where
  pub sources : List String
  pub aliases : List String

unfoldable pub points_at : String → Option String → Bool
points_at digest none = false
points_at digest (some indexed) = str_eq indexed digest

-- On whether the reference is valid, and on whether the two rows still point at the object.
unfoldable pub add_keys : Option String → Bool → Bool → String → String → SourceKeys → SourceKeys
add_keys (some e) source alias source_key alias_key keys = keys
add_keys none source alias source_key alias_key keys = record {
  sources = if source then source_key ∷ keys.sources else keys.sources;
  aliases = if alias then alias_key ∷ keys.aliases else keys.aliases;
}

unfoldable pub remove_annotations : String → List AnnotationEntry → List AnnotationEntry
remove_annotations digest [] = []
remove_annotations digest (row ∷ rows) =
    let rest = remove_annotations digest rows in
    if str_eq row.digest digest then rest else row ∷ rest

-- The references of the object's manifest, if it has one.
unfoldable pub refs_of : Option Manifest → List SourceObjectRef
refs_of none = []
refs_of (some manifest) = map source_object_ref_from_provenance manifest.provenance

-- The batch that deletes an object's rows.
unfoldable pub delete_rows : String → SourceKeys → Store → Store
delete_rows digest keys store =
    let chunks = store.chunks in
    record store {
      chunks = record chunks { recipes = delete digest chunks.recipes };
      manifests = delete digest store.manifests;
      annotations = remove_annotations digest store.annotations;
      source_index = delete_keys keys.sources store.source_index;
      source_aliases = delete_keys keys.aliases store.source_aliases;
      recovery = delete digest store.recovery;
      compound_parents = delete digest store.compound_parents;
    }

unfoldable pub is_from : String → String → Provenance → Bool
is_from kind name provenance =
    str_eq provenance.source_kind kind && str_eq provenance.source_name name

unfoldable pub manifest_has_source : String → String → List Provenance → Bool
manifest_has_source kind name [] = false
manifest_has_source kind name (provenance ∷ provenances) =
    is_from kind name provenance || manifest_has_source kind name provenances

-- The provenance that is kept, and the references that are removed.
unfoldable pub split_provenance :
    String → String → List Provenance → List Provenance × List SourceObjectRef
split_provenance kind name [] = ([], [])
split_provenance kind name (provenance ∷ provenances) =
    let (kept, removed) = split_provenance kind name provenances in
    if is_from kind name provenance
    then (kept, source_object_ref_from_provenance provenance ∷ removed)
    else (provenance ∷ kept, removed)

-- How a detachment ends: an error, or whether the source was detached and the object deleted.
abbrev pub Detachment : Type 0
Detachment = (DeleteError ⊎ (Bool × Bool)) × Store

unfoldable pub deleted_whole : DeleteError ⊎ Store → Store → Detachment
deleted_whole (inl e) store = (inl e, store)
deleted_whole (inr after) store = (inr (true, true), after)

unfoldable pub delete_source_rows : SourceKeys → Store → Store
delete_source_rows keys store = record store {
  source_index = delete_keys keys.sources store.source_index;
  source_aliases = delete_keys keys.aliases store.source_aliases;
}

unfoldable pub import_candidates : String → String → List (String × Manifest) → List String
import_candidates kind name [] = []
import_candidates kind name ((digest, manifest) ∷ manifests) =
    let rest = import_candidates kind name manifests in
    if manifest_has_source kind name manifest.provenance then digest ∷ rest else rest

pub record DeleteImportReport : Type 0 where
  pub objects_scanned : ℕ
  pub objects_deleted : ℕ
  pub provenance_detached : ℕ

-- The counts after a detachment.
unfoldable pub count : Bool × Bool → DeleteImportReport → DeleteImportReport
count (detached, true) report = record report { objects_deleted = suc report.objects_deleted }
count (true, false) report = record report { provenance_detached = suc report.provenance_detached }
count (false, false) report = report

abbrev pub Imported : Type 0
Imported = (Option DeleteError × DeleteImportReport) × Store

unfoldable pub detach_next :
    Detachment → DeleteImportReport → (DeleteImportReport → Store → Imported) → Imported
detach_next (inl e, store) report continue = ((some e, report), store)
detach_next (inr flags, store) report continue = continue (count flags report) store

module _ (sha256 : String → String) where
  unfoldable pub owned_keys : Store → String → List SourceObjectRef → SourceKeys
  owned_keys store digest [] = record { sources = []; aliases = [] }
  owned_keys store digest (ref ∷ refs) =
      let source_key = source_object_ref_key sha256 ref in
      let alias_key = source_alias_key sha256 ref in
      add_keys (validate_source_object_ref ref)
        (points_at digest (lookup source_key store.source_index))
        (points_at digest (lookup alias_key store.source_aliases)) source_key alias_key
        (owned_keys store digest refs)

  unfoldable pub delete_object : String → Store → DeleteError ⊎ Store
  delete_object digest store =
      if looks_like_digest digest
      then inr (
          delete_rows digest (owned_keys store digest (refs_of (lookup digest store.manifests)))
            store)
      else inl (invalid_digest digest)

  -- The trimmed manifest is written, and then the rows of the removed references are deleted.
  unfoldable pub trim :
      ℕ → String → Manifest → List Provenance → List SourceObjectRef → Store → Store
  trim now digest manifest kept removed store =
      let written =
        write_manifest digest (record manifest { updated_at = now; provenance = kept }) store in
      delete_source_rows (owned_keys written digest removed) written

  -- On the references that are removed and the provenance that is kept.
  unfoldable pub detach_split :
      ℕ → String → Manifest → List Provenance → List SourceObjectRef → Store → Detachment
  detach_split now digest manifest kept [] store = (inr (false, false), store)
  detach_split now digest manifest [] (ref ∷ refs) store =
      deleted_whole (delete_object digest store) store
  detach_split now digest manifest (provenance ∷ kept) (ref ∷ refs) store =
      (inr (true, false), trim now digest manifest (provenance ∷ kept) (ref ∷ refs) store)

  unfoldable pub detach_manifest :
      Option Manifest → ℕ → String → String → String → Store → Detachment
  detach_manifest none now digest kind name store = (inr (false, false), store)
  detach_manifest (some manifest) now digest kind name store =
      let (kept, removed) = split_provenance kind name manifest.provenance in
      detach_split now digest manifest kept removed store

  unfoldable pub detach_source_from_object : ℕ → String → String → String → Store → Detachment
  detach_source_from_object now digest kind name store =
      if looks_like_digest digest
      then detach_manifest (lookup digest store.manifests) now digest kind name store
      else (inl (invalid_digest digest), store)

  unfoldable pub detach_all :
      ℕ → String → String → List String → DeleteImportReport → Store → Imported
  detach_all now kind name [] report store = ((none, report), store)
  detach_all now kind name (digest ∷ digests) report store =
      detach_next (detach_source_from_object now digest kind name store) report
        (detach_all now kind name digests)

  unfoldable pub delete_import : ℕ → String → String → Store → Imported
  delete_import now kind name store =
      let start : ℕ → DeleteImportReport = λ scanned. record {
        objects_scanned = scanned;
        objects_deleted = 0;
        provenance_detached = 0;
      } in
      if is_blank kind || is_blank name
      then ((some source_required, start 0), store)
      else detach_all now kind name (import_candidates kind name store.manifests)
          (start (length store.manifests)) store
