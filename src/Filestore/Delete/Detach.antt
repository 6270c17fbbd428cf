-- ===== src/Filestore/Delete/Detach.antt =====
-- `DeleteImport` (internal/filestore/gc.go) over the objects that it visits.
use mathlib.Core.Path.{subst}
use mathlib.Core.Option.{some-injective}
use gmeow.Base.{
  ℕ, String, Bool, true, false, ◌||◌, Option, none, some, List, [], ◌∷◌, ◌≡◌, refl, sym, ◌∙◌, ap,
  arith, str_eq, string_eq, eq_iff, if◌then◌else◌, inl, inr, lookup, All, Bool-cases, Option-cases,
}
use gmeow.Filestore.Objects.{Store, Manifest, Provenance, looks_like_digest}
use gmeow.Filestore.Delete.{
  invalid_digest, DeleteImportReport, count, manifest_has_source, split_provenance, detach_manifest,
  detach_source_from_object, detach_next, detach_all, Imported,
}
use gmeow.Filestore.Delete.Import.{
  other_provenance, other_provenance_none, with_provenance, detached_manifest, split_detached,
  Replaced, detach_split-Replaced,
}
use gmeow.Filestore.Gc.{contains}

first : (a b : Bool) → b ≡ false → (a || b) ≡ true → a ≡ true
first a b h k = ground arith

neither : (a b : Bool) → (a || b) ≡ false → (a ≡ false) × (b ≡ false)
neither a b h = ground arith

flipped : (a b : String) → str_eq a b ≡ false → str_eq b a ≡ false
flipped a b h = ground (arith, eq_iff a b, eq_iff b a)

module _ (now : ℕ) (kind name : String) where
  -- What is left of a manifest has nothing of the source, and so nothing more is taken off.
  detached_none :
      (b : Bool) (m : Manifest) (other : List Provenance) (left : Manifest)
      → manifest_has_source kind name m.provenance ≡ b
      → manifest_has_source kind name other ≡ false
      → (if b then with_provenance now m other else some m) ≡ some left
      → manifest_has_source kind name left.provenance ≡ false
  detached_none true m [] left has none_left h = absurd (cc)
  detached_none true m (p ∷ ps) left has none_left h =
      ap (λ m. manifest_has_source kind name m.provenance)
        (sym (some-injective (record m { updated_at = now; provenance = p ∷ ps }) left h))
      ∙ none_left
  detached_none false m other left has none_left h =
      ap (λ m. manifest_has_source kind name m.provenance) (sym (some-injective m left h)) ∙ has

  pub detached_manifest_none :
      (o : Option Manifest) (left : Manifest)
      → detached_manifest now kind name o ≡ some left
      → manifest_has_source kind name left.provenance ≡ false
  unfolding detached_manifest
  detached_manifest_none none left h = absurd (cc)
  detached_manifest_none (some m) left h =
      detached_none (manifest_has_source kind name m.provenance) m
        (other_provenance kind name m.provenance) left refl
        (other_provenance_none kind name m.provenance) h

  pub unchanged :
      (m : Manifest)
      → manifest_has_source kind name m.provenance ≡ false
      → detached_manifest now kind name (some m) ≡ some m
  unfolding detached_manifest
  unchanged m has_not =
      ap
        (λ b. if b then with_provenance now m (other_provenance kind name m.provenance) else some m)
        has_not

  detached_again :
      (o : Option Manifest)
      → detached_manifest now kind name (detached_manifest now kind name o)
        ≡ detached_manifest now kind name o
  detached_again o = elim (Option-cases (detached_manifest now kind name o)) [
    | inl gone ↦ ap (detached_manifest now kind name) gone ∙ unfold detached_manifest in sym gone
    | inr (left, h) ↦
        ap (detached_manifest now kind name) h
        ∙ unchanged left (detached_manifest_none o left h)
        ∙ sym h
  ]

  module _ (sha256 : String → String) where
    detach_manifest-Replaced :
        (o : Option Manifest) (digest : String) (store : Store)
        → looks_like_digest digest ≡ true
        → lookup digest store.manifests ≡ o
        → Replaced sha256 now digest store
            (detached_manifest now kind name o)
            (detach_manifest sha256 o now digest kind name store)
    unfolding detach_manifest detached_manifest
    detach_manifest-Replaced none digest store valid found = record {
      flags = (false, false);
      fine = refl;
      own = found;
      others = λ j _. refl;
    }
    detach_manifest-Replaced (some m) digest store valid found =
        let (kept, removed) = split_provenance kind name m.provenance in
        subst
          (λ x.
            Replaced sha256 now digest store x
              (detach_manifest sha256 (some m) now digest kind name store))
          (split_detached kind name now m)
          (detach_split-Replaced sha256 now digest m kept removed store valid found)

    detach-Replaced :
        (digest : String) (store : Store)
        → looks_like_digest digest ≡ true
        → Replaced sha256 now digest store
            (detached_manifest now kind name (lookup digest store.manifests))
            (detach_source_from_object sha256 now digest kind name store)
    unfolding detach_source_from_object
    detach-Replaced digest store valid =
        subst
          (λ b.
            Replaced sha256 now digest store
              (detached_manifest now kind name (lookup digest store.manifests))
              (if b
                then detach_manifest sha256 (lookup digest store.manifests) now digest kind name
                    store
                else (inl (invalid_digest digest), store)))
          (sym valid)
          (detach_manifest-Replaced (lookup digest store.manifests) digest store valid refl)

    moved :
        (digest j : String) (after store : Store)
        → lookup digest after.manifests
          ≡ detached_manifest now kind name (lookup digest store.manifests)
        → digest ≡ j
        → lookup j after.manifests ≡ detached_manifest now kind name (lookup j store.manifests)
    moved digest j after store own same =
        subst
          (λ k.
            lookup k after.manifests ≡ detached_manifest now kind name (lookup k store.manifests))
          same own

    -- The end of the loop: no error, and each manifest of the digests is replaced.
    pub record ReplacedAll (digests : List String) (scanned : ℕ) (store : Store) (result : Imported)
        : Type 0 where
      pub fine : result.0.0 ≡ none
      pub scanned_all : result.0.1.objects_scanned ≡ scanned
      pub own :
          (j : String)
          → contains j digests ≡ true
          → lookup j result.1.manifests ≡ detached_manifest now kind name (lookup j store.manifests)
      pub others :
          (j : String)
          → contains j digests ≡ false
          → lookup j result.1.manifests ≡ lookup j store.manifests

    counted :
        (flags : Bool × Bool) (report : DeleteImportReport)
        → (count flags report).objects_scanned ≡ report.objects_scanned
    unfolding count
    counted (detached, true) report = refl
    counted (true, false) report = refl
    counted (false, false) report = refl

    pub detach_all-ReplacedAll :
        (digests : List String) (report : DeleteImportReport) (store : Store)
        → All (λ digest. looks_like_digest digest ≡ true) digests
        → ReplacedAll digests report.objects_scanned store
            (detach_all sha256 now kind name digests report store)
    unfolding detach_all detach_next contains
    detach_all-ReplacedAll [] report store valid = record {
      fine = refl;
      scanned_all = refl;
      own = λ j h. absurd (cc);
      others = λ j _. refl;
    }
    detach_all-ReplacedAll (digest ∷ digests) report store (valid, later) =
        let one = detach-Replaced digest store valid in
        let after = (detach_source_from_object sha256 now digest kind name store).1 in
        let rest = detach_all-ReplacedAll digests (count one.flags report) after later in
        subst
          (λ r.
            ReplacedAll (digest ∷ digests) report.objects_scanned store
              (detach_next (r, after) report (detach_all sha256 now kind name digests)))
          (sym one.fine)
          (record {
            fine = rest.fine;
            scanned_all = rest.scanned_all ∙ counted one.flags report;
            own = λ j among. elim (Bool-cases (contains j digests)) [
              | inl again ↦ rest.own j again ∙ (elim (Bool-cases (str_eq digest j)) [
                | inl same ↦
                    let equal = (eq_iff digest j).0 same in
                    ap (detached_manifest now kind name) (moved digest j after store one.own equal)
                    ∙ detached_again (lookup j store.manifests)
                | inr differs ↦ ap (detached_manifest now kind name) (one.others j differs)
              ])
              | inr last ↦
                  rest.others j last
                  ∙ moved digest j after store one.own (
                      sym (
                        (eq_iff j digest).0
                          (first (str_eq j digest) (contains j digests) last among)))
            ];
            others = λ j missing.
                let (differs, later_too) = neither (str_eq j digest) (contains j digests) missing in
                rest.others j later_too ∙ one.others j (flipped j digest differs);
          })
