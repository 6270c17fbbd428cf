-- ===== src/Filestore/Delete/Import.antt =====
-- `DeleteImport` (internal/filestore/gc.go) as a function on each manifest.
use mathlib.Core.Path.{subst}
use gmeow.Base.{
  ℕ, String, Bool, true, false, ◌||◌, ◌&&◌, Option, none, some, List, [], ◌∷◌, ◌≡◌, refl, sym, ◌∙◌,
  ap, str_eq, string_eq, eq_iff, if◌then◌else◌, inl, inr, lookup, insert, lookup-insert_same,
  lookup-insert_other, lookup-delete, ◌==◌, Bool-cases,
}
use gmeow.Filestore.Objects.{
  Store, Manifest, Provenance, SourceObjectRef, looks_like_digest, write_manifest,
  record_projection_change, source_object_ref_from_provenance,
}
use gmeow.Filestore.Delete.{
  invalid_digest, is_from, manifest_has_source, split_provenance, owned_keys, refs_of, delete_rows,
  delete_object, deleted_whole, delete_source_rows, trim, detach_split, Detachment,
}

-- The provenance of the other sources.
pub other_provenance : String → String → List Provenance → List Provenance
other_provenance kind name [] = []
other_provenance kind name (p ∷ ps) =
    let rest = other_provenance kind name ps in
    if str_eq p.source_kind kind && str_eq p.source_name name then rest else p ∷ rest

abbrev pub with_provenance : ℕ → Manifest → List Provenance → Option Manifest
with_provenance now manifest [] = none
with_provenance now manifest (p ∷ ps) =
    some (record manifest { updated_at = now; provenance = p ∷ ps })

-- What is left of a manifest: itself where it has nothing of the source, nothing where it has nothing
-- else, or else the manifest with the other provenance.
unfoldable pub detached_manifest : ℕ → String → String → Option Manifest → Option Manifest
detached_manifest now kind name none = none
detached_manifest now kind name (some manifest) =
    if manifest_has_source kind name manifest.provenance
    then with_provenance now manifest (other_provenance kind name manifest.provenance)
    else some manifest

abbrev split_result : ℕ → Manifest → List Provenance → List SourceObjectRef → Option Manifest
split_result now manifest kept [] = some manifest
split_result now manifest kept (ref ∷ refs) = with_provenance now manifest kept

module _ (kind name : String) where
  -- The three functions on the provenance, at one step.
  record Agrees (has : Bool) (split : List Provenance × List SourceObjectRef) (ps : List Provenance)
      : Type 0 where
    same : split.0 ≡ other_provenance kind name ps
    nothing : has ≡ false → (split.1 ≡ []) × (split.0 ≡ ps)
    something :
        has ≡ true
        → (ref : SourceObjectRef) × ((refs : List SourceObjectRef) × (split.1 ≡ ref ∷ refs))

  Agrees-step :
      (b : Bool) (p : Provenance) (has : Bool) (kept : List Provenance)
      (removed : List SourceObjectRef) (ps : List Provenance)
      → Agrees has (kept, removed) ps
      → is_from kind name p ≡ b
      → Agrees
          (b || has)
          (if b then (kept, source_object_ref_from_provenance p ∷ removed) else (p ∷ kept, removed))
          (p ∷ ps)
  unfolding other_provenance is_from
  Agrees-step true p has kept removed ps h from = record {
    same =
        h.same
        ∙ sym (
            ap (λ b. if b then other_provenance kind name ps else p ∷ other_provenance kind name ps)
              from);
    nothing = λ no_source. absurd (cc);
    something = λ _. (source_object_ref_from_provenance p, (removed, refl));
  }
  Agrees-step false p has kept removed ps h from = record {
    same =
        ap (λ l. p ∷ l) h.same
        ∙ sym (
            ap (λ b. if b then other_provenance kind name ps else p ∷ other_provenance kind name ps)
              from);
    nothing = λ no_source. let (gone, all) = h.nothing no_source in (gone, ap (λ l. p ∷ l) all);
    something = h.something;
  }

  agrees :
      (ps : List Provenance)
      → Agrees (manifest_has_source kind name ps) (split_provenance kind name ps) ps
  unfolding manifest_has_source split_provenance other_provenance
  agrees [] = record { same = refl; nothing = λ _. (refl, refl); something = λ h. absurd (cc) }
  agrees (p ∷ ps) =
      Agrees-step (is_from kind name p) p (manifest_has_source kind name ps)
        (split_provenance kind name ps).0 (split_provenance kind name ps).1 ps (agrees ps) refl

  other_step :
      (b : Bool) (p : Provenance) (ps : List Provenance)
      → is_from kind name p ≡ b
      → manifest_has_source kind name ps ≡ false
      → manifest_has_source kind name (if b then ps else p ∷ ps) ≡ false
  unfolding manifest_has_source
  other_step true p ps from h = h
  other_step false p ps from h = ap (λ b. b || manifest_has_source kind name ps) from ∙ h

  -- What is left has nothing of the source.
  pub other_provenance_none :
      (ps : List Provenance) → manifest_has_source kind name (other_provenance kind name ps) ≡ false
  unfolding other_provenance manifest_has_source is_from
  other_provenance_none [] = refl
  other_provenance_none (p ∷ ps) =
      other_step (is_from kind name p) p (other_provenance kind name ps) refl
        (other_provenance_none ps)

  pub split_detached :
      (now : ℕ) (m : Manifest)
      → split_result now m
          (split_provenance kind name m.provenance).0
          (split_provenance kind name m.provenance).1
        ≡ detached_manifest now kind name (some m)
  unfolding detached_manifest
  split_detached now m =
      let a = agrees m.provenance in
      let other = other_provenance kind name m.provenance in
      let result : Bool → Option Manifest =
        λ b. if b then with_provenance now m other else some m in
      elim (Bool-cases (manifest_has_source kind name m.provenance)) [
        | inl has ↦
            let (ref, (refs, removed)) = a.something has in
            ap (split_result now m (split_provenance kind name m.provenance).0) removed
            ∙ ap (with_provenance now m) a.same
            ∙ sym (ap result has)
        | inr has_not ↦
            let (removed, _) = a.nothing has_not in
            ap (split_result now m (split_provenance kind name m.provenance).0) removed
            ∙ sym (ap result has_not)
      ]

either_store :
    (b : Bool) (store other : Store)
    → other.manifests ≡ store.manifests
    → (if b then store else other).manifests ≡ store.manifests
either_store true store other h = refl
either_store false store other h = h

record_projection_change_manifests :
    (digest : String) (time : ℕ) (store : Store)
    → (record_projection_change digest time store).manifests ≡ store.manifests
unfolding record_projection_change
record_projection_change_manifests digest time store =
    either_store (str_eq digest String.[] || time == 0) store _ refl

module _ (sha256 : String → String) (now : ℕ) (digest : String) where
  -- A detachment that ends without an error, with the manifest of the object replaced.
  pub record Replaced (store : Store) (manifest : Option Manifest) (result : Detachment)
      : Type 0 where
    pub flags : Bool × Bool
    pub fine : result.0 ≡ inr flags
    pub own : lookup digest result.1.manifests ≡ manifest
    pub others :
        (j : String)
        → str_eq digest j ≡ false
        → lookup j result.1.manifests ≡ lookup j store.manifests

  delete_object_valid :
      (store : Store)
      → looks_like_digest digest ≡ true
      → delete_object sha256 digest store
        ≡ inr (
            delete_rows digest
              (owned_keys sha256 store digest (refs_of (lookup digest store.manifests)))
              store)
  unfolding delete_object
  delete_object_valid store valid =
      ap
        (λ b.
          if b
          then inr (
              delete_rows digest
                (owned_keys sha256 store digest (refs_of (lookup digest store.manifests))) store)
          else inl (invalid_digest digest))
        valid

  pub detach_split-Replaced :
      (m : Manifest) (kept : List Provenance) (removed : List SourceObjectRef) (store : Store)
      → looks_like_digest digest ≡ true
      → lookup digest store.manifests ≡ some m
      → Replaced store
          (split_result now m kept removed)
          (detach_split sha256 now digest m kept removed store)
  unfolding detach_split trim delete_source_rows write_manifest deleted_whole delete_rows
  detach_split-Replaced m kept [] store valid found = record {
    flags = (false, false);
    fine = refl;
    own = found;
    others = λ j _. refl;
  }
  detach_split-Replaced m [] (ref ∷ refs) store valid found =
      subst (λ r. Replaced store none (deleted_whole r store))
        (sym (delete_object_valid store valid))
        (record {
          flags = (true, true);
          fine = refl;
          own =
              lookup-delete digest digest store.manifests
              ∙ ap (λ b. if b then none else lookup digest store.manifests)
                  ((eq_iff digest digest).1 refl);
          others = λ j differs.
              lookup-delete digest j store.manifests
              ∙ ap (λ b. if b then none else lookup j store.manifests) differs;
        })
  detach_split-Replaced m (p ∷ kept) (ref ∷ refs) store valid found =
      let new : Manifest = record m { updated_at = now; provenance = p ∷ kept } in
      let written =
        record_projection_change_manifests digest now
          (record store { manifests = insert digest new store.manifests }) in
      record {
        flags = (true, false);
        fine = refl;
        own = ap (lookup digest) written ∙ lookup-insert_same digest new store.manifests;
        others = λ j differs.
            ap (lookup j) written ∙ lookup-insert_other digest j new store.manifests differs;
      }
