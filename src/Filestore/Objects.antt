-- ===== src/Filestore/Objects.antt =====
-- The metadata of objects (internal/filestore/store.go, object_annotations.go, source_ingest.go,
-- packed_store.go, projection.go; internal/contracts/contracts.go). The metadata store is a map for each
-- prefix of its keys; a row of annotations is found by the fields that make up its key. Of a manifest and
-- of its provenance only the fields are kept that the operations here read; a manifest has the rest as one
-- text. Times are numbers, and 0 is the zero time.
use Prim.Native.Char.{code}
use gmeow.Base.{
  ℕ, zero, suc, leb, String, Bool, true, false, ◌&&◌, ◌||◌, Option, none, some, List, [], ◌∷◌,
  str_eq, string_eq, ◌==◌, trim_space, if◌then◌else◌, lookup, insert, delete,
}
use gmeow.Filestore.Blobs.{ChunkStore}
use gmeow.Scheduler.Jobs.{join_nul}

pub record SourceObjectRef : Type 0 where
  pub source_kind : String
  pub source_name : String
  pub external_id : String
  pub external_version : String

pub record Provenance : Type 0 where
  pub observed_at : ℕ
  pub source_name : String
  pub source_kind : String
  pub external_id : String
  pub external_version : String

pub record Manifest : Type 0 where
  pub updated_at : ℕ
  pub provenance : List Provenance
  pub others : String

-- `packedObjectAnnotationEntry`, without the annotation.
pub record AnnotationEntry : Type 0 where
  pub digest : String
  pub kind : String
  pub analyzer_name : String
  pub external_digest : String

-- `projectionChangeEntry`, whose key is the other two fields.
pub record ProjectionChange : Type 0 where
  pub digest : String
  pub changed_at : ℕ

-- The rows `m/`, `a/`, `si/`, `sa/`, `rec/`, `cp/`, `pc/` and `pc-latest/`, and those of the chunks.
pub record Store : Type 0 where
  pub chunks : ChunkStore
  pub manifests : List (String × Manifest)
  pub annotations : List AnnotationEntry
  pub source_index : List (String × String)
  pub source_aliases : List (String × String)
  pub recovery : List (String × String)
  pub compound_parents : List (String × String)
  pub changes : List ProjectionChange
  pub changes_latest : List (String × ProjectionChange)

-- `metaDeleteKeys` on one kind of key.
unfoldable pub delete_keys : {V : Type 0} → List String → List (String × V) → List (String × V)
delete_keys [] rows = rows
delete_keys (key ∷ keys) rows = delete_keys keys (delete key rows)

-- `looksLikeDigest`: 64 hexadecimal digits.
unfoldable pub is_hex : ℕ → Bool
is_hex c = (leb b'0' c && leb c b'9') || (leb b'a' c && leb c b'f') || (leb b'A' c && leb c b'F')

unfoldable pub hex_digits : ℕ → String → Bool
hex_digits zero String.[] = true
hex_digits zero (String.◌∷◌ c s) = false
hex_digits (suc n) String.[] = false
hex_digits (suc n) (String.◌∷◌ c s) = is_hex (code c) && hex_digits n s

unfoldable pub looks_like_digest : String → Bool
looks_like_digest value = hex_digits 64 value

unfoldable pub is_blank : String → Bool
is_blank s = str_eq (trim_space s) String.[]

unfoldable pub validate_source_object_ref : SourceObjectRef → Option String
validate_source_object_ref ref =
    if is_blank ref.source_kind
    then some "source object kind is required"
    else if is_blank ref.source_name
    then some "source object name is required"
    else if is_blank ref.external_id
    then some "source object external_id is required"
    else none

unfoldable pub source_object_ref_from_provenance : Provenance → SourceObjectRef
source_object_ref_from_provenance provenance = record {
  source_kind = provenance.source_kind;
  source_name = provenance.source_name;
  external_id = provenance.external_id;
  external_version = provenance.external_version;
}

-- With SHA-256 in hexadecimal digits as the parameter.
module _ (sha256 : String → String) where
  unfoldable pub source_object_ref_key : SourceObjectRef → String
  source_object_ref_key ref =
      sha256
        (join_nul (ref.source_kind ∷ ref.source_name ∷ ref.external_id ∷ ref.external_version ∷ []))

  unfoldable pub source_alias_key : SourceObjectRef → String
  source_alias_key ref =
      sha256 (join_nul (ref.source_kind ∷ ref.source_name ∷ ref.external_id ∷ []))

unfoldable pub same_change : ProjectionChange → ProjectionChange → Bool
same_change a b = str_eq a.digest b.digest && a.changed_at == b.changed_at

unfoldable pub remove_change : ProjectionChange → List ProjectionChange → List ProjectionChange
remove_change change [] = []
remove_change change (row ∷ rows) =
    let rest = remove_change change rows in if same_change change row then rest else row ∷ rest

unfoldable pub remove_previous :
    Option ProjectionChange → List ProjectionChange → List ProjectionChange
remove_previous none rows = rows
remove_previous (some previous) rows = remove_change previous rows

unfoldable pub record_projection_change : String → ℕ → Store → Store
record_projection_change digest changed_at store =
    let entry : ProjectionChange = record { digest = digest; changed_at = changed_at } in
    let rows = remove_previous (lookup digest store.changes_latest) store.changes in
    if str_eq digest String.[] || changed_at == 0 then store else record store {
      changes = entry ∷ remove_change entry rows;
      changes_latest = insert digest entry store.changes_latest;
    }

unfoldable pub write_manifest : String → Manifest → Store → Store
write_manifest digest manifest store =
    record_projection_change digest manifest.updated_at
      (record store { manifests = insert digest manifest store.manifests })
