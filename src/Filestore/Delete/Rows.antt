-- ===== src/Filestore/Delete/Rows.antt =====
-- What `DeleteObject` (internal/filestore/gc.go) deletes: the rows of the object, and of the source rows only
-- those that point at it.
use gmeow.Base.{
  String, Bool, true, false, ◌||◌, Option, none, some, List, [], ◌∷◌, ◌≡◌, refl, sym, ◌∙◌, ap,
  str_eq, string_eq, eq_iff, if◌then◌else◌, ◌⊎◌, inl, inr, lookup, delete, lookup-delete, All,
  Bool-cases,
}
use gmeow.Filestore.Objects.{
  Store, SourceObjectRef, AnnotationEntry, delete_keys, looks_like_digest,
  validate_source_object_ref, source_object_ref_key, source_alias_key,
}
use gmeow.Filestore.Delete.{
  DeleteError, invalid_digest, SourceKeys, points_at, add_keys, remove_annotations, owned_keys,
  refs_of, delete_rows, delete_object,
}
use gmeow.Filestore.Gc.{contains}
use gmeow.Filestore.Gc.Sweep.{lookup-delete_keys_absent}

keys_branch :
    (b : Bool) (key k : String) (keys : List String) (P : Type 0)
    → (b ≡ true → k ≡ key → P)
    → (contains k keys ≡ true → P)
    → contains k (if b then key ∷ keys else keys) ≡ true
    → P
unfolding contains
keys_branch false key k keys P f g h = g h
keys_branch true key k keys P f g h = elim (Bool-cases (str_eq k key)) [
  | inl same ↦ f refl ((eq_iff k key).0 same)
  | inr differs ↦ g (sym (ap (λ b. b || contains k keys) differs) ∙ h)
]

module _ (sha256 : String → String) (store : Store) (digest : String) where
  -- Keys whose rows point at the object.
  record OwnRows (keys : SourceKeys) : Type 0 where
    sources :
        (key : String)
        → contains key keys.sources ≡ true
        → points_at digest (lookup key store.source_index) ≡ true
    aliases :
        (key : String)
        → contains key keys.aliases ≡ true
        → points_at digest (lookup key store.source_aliases) ≡ true

  add_keys-OwnRows :
      (valid : Option String) (source_key alias_key : String) (keys : SourceKeys)
      → OwnRows keys
      → OwnRows (
          add_keys valid
            (points_at digest (lookup source_key store.source_index))
            (points_at digest (lookup alias_key store.source_aliases))
            source_key
            alias_key
            keys)
  unfolding add_keys
  add_keys-OwnRows (some e) source_key alias_key keys h = h
  add_keys-OwnRows none source_key alias_key keys h = record {
    sources = λ key.
        keys_branch (points_at digest (lookup source_key store.source_index)) source_key key
          keys.sources (points_at digest (lookup key store.source_index) ≡ true)
          (λ points same. ap (λ k. points_at digest (lookup k store.source_index)) same ∙ points)
          (h.sources key);
    aliases = λ key.
        keys_branch (points_at digest (lookup alias_key store.source_aliases)) alias_key key
          keys.aliases (points_at digest (lookup key store.source_aliases) ≡ true)
          (λ points same. ap (λ k. points_at digest (lookup k store.source_aliases)) same ∙ points)
          (h.aliases key);
  }

  owned_keys-OwnRows : (refs : List SourceObjectRef) → OwnRows (owned_keys sha256 store digest refs)
  unfolding owned_keys contains
  owned_keys-OwnRows [] = record { sources = λ key h. absurd (cc); aliases = λ key h. absurd (cc) }
  owned_keys-OwnRows (ref ∷ refs) =
      add_keys-OwnRows (validate_source_object_ref ref) (source_object_ref_key sha256 ref)
        (source_alias_key sha256 ref) (owned_keys sha256 store digest refs)
        (owned_keys-OwnRows refs)

  -- A row that points elsewhere is not deleted.
  spared :
      (keys : List String) (rows : List (String × String))
      → ((key : String) → contains key keys ≡ true → points_at digest (lookup key rows) ≡ true)
      → (key : String) → points_at digest (lookup key rows) ≡ false
      → lookup key (delete_keys keys rows) ≡ lookup key rows
  spared keys rows h key away = elim (Bool-cases (contains key keys)) [
    | inl hit ↦ let own = h key hit in absurd (cc (own, away))
    | inr missed ↦ lookup-delete_keys_absent key keys rows missed
  ]

left :
    (digest : String) (b : Bool) (row : AnnotationEntry) (rows : List AnnotationEntry)
    → str_eq row.digest digest ≡ b
    → All (λ row. str_eq row.digest digest ≡ false) rows
    → All (λ row. str_eq row.digest digest ≡ false) (if b then rows else row ∷ rows)
left digest true row rows same h = h
left digest false row rows same h = (same, h)

remove_annotations_gone :
    (digest : String) (rows : List AnnotationEntry)
    → All (λ row. str_eq row.digest digest ≡ false) (remove_annotations digest rows)
unfolding remove_annotations
remove_annotations_gone digest [] = tt
remove_annotations_gone digest (row ∷ rows) =
    left digest (str_eq row.digest digest) row (remove_annotations digest rows) refl
      (remove_annotations_gone digest rows)

deleted :
    {V : Type 0} (key : String) (rows : List (String × V)) → lookup key (delete key rows) ≡ none
deleted key rows =
    lookup-delete key key rows
    ∙ ap (λ b. if b then none else lookup key rows) ((eq_iff key key).1 refl)

kept_other :
    {V : Type 0} (key other : String) (rows : List (String × V))
    → str_eq key other ≡ false
    → lookup other (delete key rows) ≡ lookup other rows
kept_other key other rows differs =
    lookup-delete key other rows ∙ ap (λ b. if b then none else lookup other rows) differs

-- The rows of the object are gone, those of other objects are there, and so are the source and alias
-- rows that point at another object.
pub record Deleted (digest : String) (store after : Store) : Type 0 where
  pub manifest : lookup digest after.manifests ≡ none
  pub recipe : lookup digest after.chunks.recipes ≡ none
  pub recovery : lookup digest after.recovery ≡ none
  pub parents : lookup digest after.compound_parents ≡ none
  pub annotations : All (λ row. str_eq row.digest digest ≡ false) after.annotations
  pub other_manifests :
      (other : String)
      → str_eq digest other ≡ false
      → lookup other after.manifests ≡ lookup other store.manifests
  pub other_recipes :
      (other : String)
      → str_eq digest other ≡ false
      → lookup other after.chunks.recipes ≡ lookup other store.chunks.recipes
  pub chunk_index : after.chunks.chunk_index ≡ store.chunks.chunk_index
  pub sources :
      (key : String)
      → points_at digest (lookup key store.source_index) ≡ false
      → lookup key after.source_index ≡ lookup key store.source_index
  pub aliases :
      (key : String)
      → points_at digest (lookup key store.source_aliases) ≡ false
      → lookup key after.source_aliases ≡ lookup key store.source_aliases

delete_rows-Deleted :
    (sha256 : String → String) (digest : String) (store : Store)
    → Deleted digest store (
        delete_rows digest
          (owned_keys sha256 store digest (refs_of (lookup digest store.manifests)))
          store)
unfolding delete_rows
delete_rows-Deleted sha256 digest store =
    let own = owned_keys-OwnRows sha256 store digest (refs_of (lookup digest store.manifests)) in
    record {
      manifest = deleted digest store.manifests;
      recipe = deleted digest store.chunks.recipes;
      recovery = deleted digest store.recovery;
      parents = deleted digest store.compound_parents;
      annotations = remove_annotations_gone digest store.annotations;
      other_manifests = λ other. kept_other digest other store.manifests;
      other_recipes = λ other. kept_other digest other store.chunks.recipes;
      chunk_index = refl;
      sources = spared sha256 store digest _ store.source_index own.sources;
      aliases = spared sha256 store digest _ store.source_aliases own.aliases;
    }

-- The deletion of an object fails exactly if the digest is none; else the object's manifest,
-- recipe, sidecar, parent edges and annotations are gone, the manifests and recipes of others and
-- the chunk rows are as before, and so are the source and alias rows that do not point at the
-- object.
pub delete_object-Deleted :
    (sha256 : String → String) (digest : String) (store : Store)
    → ((looks_like_digest digest ≡ true)
        × ((after : Store) × (delete_object sha256 digest store ≡ inr after)
            × Deleted digest store after))
      ⊎ ((looks_like_digest digest ≡ false)
          × (delete_object sha256 digest store ≡ inl (invalid_digest digest)))
unfolding delete_object
delete_object-Deleted sha256 digest store =
    let after =
      delete_rows digest (owned_keys sha256 store digest (refs_of (lookup digest store.manifests)))
        store in
    let result : Bool → DeleteError ⊎ Store =
      λ b. if b then inr after else inl (invalid_digest digest) in
    elim (Bool-cases (looks_like_digest digest)) [
      | inl valid ↦ inl (valid, (after, ap result valid, delete_rows-Deleted sha256 digest store))
      | inr invalid ↦ inr (invalid, ap result invalid)
    ]
