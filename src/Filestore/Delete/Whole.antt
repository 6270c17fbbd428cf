-- ===== src/Filestore/Delete/Whole.antt =====
-- `DeleteImport` (internal/filestore/gc.go) over all manifests.
use mathlib.Core.Path.{subst}
use gmeow.Base.{
  ℕ, String, Bool, true, false, ◌||◌, Option, none, some, List, [], ◌∷◌, ◌≡◌, refl, sym, ◌∙◌, ap,
  arith, str_eq, string_eq, eq_iff, length, if◌then◌else◌, inl, inr, lookup, lookup_first, All,
  Bool-cases,
}
use gmeow.Filestore.Objects.{Store, Manifest, looks_like_digest, is_blank}
use gmeow.Filestore.Delete.{
  source_required, DeleteImportReport, manifest_has_source, detach_all, import_candidates,
  delete_import, Imported,
}
use gmeow.Filestore.Delete.Detach.{detached_manifest_none, unchanged, detach_all-ReplacedAll}
use gmeow.Filestore.Delete.Import.{detached_manifest}
use gmeow.Filestore.Gc.{contains}

added :
    (b : Bool) (digest : String) (rest : List String)
    → looks_like_digest digest ≡ true
    → All (λ digest. looks_like_digest digest ≡ true) rest
    → All (λ digest. looks_like_digest digest ≡ true) (if b then digest ∷ rest else rest)
added true digest rest valid h = (valid, h)
added false digest rest valid h = h

chosen :
    (b : Bool) (key digest : String) (rest : List String)
    → b ≡ true
    → key ≡ digest
    → contains digest (if b then key ∷ rest else rest) ≡ true
unfolding contains
chosen true key digest rest h same =
    ap (λ b. b || contains digest rest) ((eq_iff digest key).1 (sym same))
chosen false key digest rest h same = absurd (cc)

or_later : (a b : Bool) → b ≡ true → (a || b) ≡ true
or_later a b h = ground arith

passed :
    (b : Bool) (key digest : String) (rest : List String)
    → contains digest rest ≡ true
    → contains digest (if b then key ∷ rest else rest) ≡ true
unfolding contains
passed true key digest rest h = or_later (str_eq digest key) (contains digest rest) h
passed false key digest rest h = h

module _ (now : ℕ) (kind name : String) where
  module _ (sha256 : String → String) where
    candidates_valid :
        (manifests : List (String × Manifest))
        → All (λ row. looks_like_digest row.0 ≡ true) manifests
        → All (λ digest. looks_like_digest digest ≡ true) (import_candidates kind name manifests)
    unfolding import_candidates
    candidates_valid [] h = tt
    candidates_valid ((digest, m) ∷ manifests) (valid, h) =
        added (manifest_has_source kind name m.provenance) digest
          (import_candidates kind name manifests) valid (candidates_valid manifests h)

    candidate :
        (manifests : List (String × Manifest)) (digest : String) (m : Manifest)
        → lookup digest manifests ≡ some m
        → manifest_has_source kind name m.provenance ≡ true
        → contains digest (import_candidates kind name manifests) ≡ true
    unfolding import_candidates
    candidate [] digest m found has = absurd (unfold lookup in cc)
    candidate ((key, row) ∷ manifests) digest m found has =
        let rest = import_candidates kind name manifests in
        elim (lookup_first digest key row m manifests found) [
          | inl (same, equal) ↦
              chosen (manifest_has_source kind name row.provenance) key digest rest
                (ap (λ m. manifest_has_source kind name m.provenance) equal ∙ has) same
          | inr (differs, later) ↦
              passed (manifest_has_source kind name row.provenance) key digest rest
                (candidate manifests digest m later has)
        ]

    -- A manifest that is no candidate has nothing of the source.
    no_candidate :
        (manifests : List (String × Manifest)) (digest : String) (o : Option Manifest)
        → lookup digest manifests ≡ o
        → contains digest (import_candidates kind name manifests) ≡ false
        → o ≡ detached_manifest now kind name o
    no_candidate manifests digest none found missing = unfold detached_manifest in refl
    no_candidate manifests digest (some m) found missing =
        elim (Bool-cases (manifest_has_source kind name m.provenance)) [
          | inl has ↦ let hit = candidate manifests digest m found has in absurd (cc (hit, missing))
          | inr has_not ↦ sym (unchanged now kind name m has_not)
        ]

    -- No error, all objects scanned, and each manifest is what is left of it.
    pub record Removed (store : Store) (result : Imported) : Type 0 where
      pub fine : result.0.0 ≡ none
      pub scanned : result.0.1.objects_scanned ≡ length store.manifests
      pub manifests :
          (j : String)
          → lookup j result.1.manifests ≡ detached_manifest now kind name (lookup j store.manifests)
      pub no_source :
          (j : String) (m : Manifest)
          → lookup j result.1.manifests ≡ some m
          → manifest_has_source kind name m.provenance ≡ false

    -- If the source is named and the manifests' keys are digests, the deletion of an import ends
    -- without an error and has scanned all manifests; each is then what is left of it: itself if
    -- it has nothing of the source, none if it has nothing else, or else with the other
    -- provenance and the new instant; and none has anything of the source.
    pub delete_import-Removed :
        (store : Store)
        → (is_blank kind || is_blank name) ≡ false
        → All (λ row. looks_like_digest row.0 ≡ true) store.manifests
        → Removed store (delete_import sha256 now kind name store)
    unfolding delete_import
    delete_import-Removed store named valid =
        let start : DeleteImportReport = record {
          objects_scanned = length store.manifests;
          objects_deleted = 0;
          provenance_detached = 0;
        } in
        let digests = import_candidates kind name store.manifests in
        let all =
          detach_all-ReplacedAll now kind name sha256 digests start store
            (candidates_valid store.manifests valid) in
        let left : (j : String)
            → lookup j (detach_all sha256 now kind name digests start store).1.manifests
              ≡ detached_manifest now kind name (lookup j store.manifests) =
          λ j. elim (Bool-cases (contains j digests)) [
            | inl among ↦ all.own j among
            | inr missing ↦
                all.others j missing
                ∙ no_candidate store.manifests j (lookup j store.manifests) refl missing
          ] in
        subst
          (λ b. Removed store (
            if b
            then (
              (
                some source_required,
                record { objects_scanned = 0; objects_deleted = 0; provenance_detached = 0 },
              ),
              store,
            )
            else detach_all sha256 now kind name digests start store))
          (sym named)
          (record {
            fine = all.fine;
            scanned = all.scanned_all;
            manifests = left;
            no_source = λ j m found.
                detached_manifest_none now kind name (lookup j store.manifests) m
                  (sym (left j) ∙ found);
          })
