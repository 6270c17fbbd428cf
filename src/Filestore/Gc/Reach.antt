-- ===== src/Filestore/Gc/Reach.antt =====
-- Which recipes `Gc` (internal/filestore/gc.go) keeps, in terms of the rows.
use gmeow.Base.{
  ℕ, ◌≤◌, String, Bool, true, false, not, ◌||◌, Option, none, some, List, [], ◌∷◌, ◌≡◌, ◌≢◌, ◌↔◌,
  refl, sym, ◌∙◌, ap, arith, str_eq, string_eq, eq_iff, ltb, if◌then◌else◌, lookup, ◌⊎◌, inl, inr,
  Bool-cases,
}
use gmeow.Filestore.Blobs.{Recipe}
use gmeow.Filestore.Objects.{Store, Manifest, AnnotationEntry}
use gmeow.Filestore.Gc.{contains, has_row, annotation_payloads, is_kept}

-- An annotation row has the digest as its external one.
abbrev pub IsPayload : String → List AnnotationEntry → Type 0
IsPayload digest [] = ⊥
IsPayload digest (entry ∷ entries) =
    ((entry.external_digest ≡ digest) × (digest ≢ String.[])) ⊎ IsPayload digest entries

-- The object has a manifest, or its content is the payload of an annotation, or the recipe is not older
-- than the cutoff.
abbrev pub IsReachable : Store → ℕ → String → Recipe → Type 0
IsReachable snapshot cutoff digest recipe =
    ((m : Manifest) × (lookup digest snapshot.manifests ≡ some m))
    ⊎ (IsPayload digest snapshot.annotations ⊎ (cutoff ≤ recipe.updated_at))

or_later : (a b : Bool) → b ≡ true → (a || b) ≡ true
or_later a b h = ground arith

payload_step :
    (b : Bool) (external digest : String) (rest : List String)
    → str_eq external String.[] ≡ b
    → (contains digest (if b then rest else external ∷ rest) ≡ true)
      ↔ (((external ≡ digest) × (digest ≢ String.[])) ⊎ (contains digest rest ≡ true))
unfolding contains
payload_step true external digest rest blank = (
  λ h. inr h,
  λ h. elim h [
    | inl (same, not_blank) ↦ absurd (not_blank (sym same ∙ (eq_iff external String.[]).0 blank))
    | inr later ↦ later
  ],
)
payload_step false external digest rest blank = (
  λ h. elim (Bool-cases (str_eq digest external)) [
    | inl same ↦
        let equal = (eq_iff digest external).0 same in
        inl (
          sym equal,
          λ empty. let hit = (eq_iff external String.[]).1 (sym equal ∙ empty) in cc (hit, blank),
        )
    | inr differs ↦ inr (sym (ap (λ b. b || contains digest rest) differs) ∙ h)
  ],
  λ h. elim h [
    | inl (same, _) ↦ ap (λ b. b || contains digest rest) ((eq_iff digest external).1 (sym same))
    | inr later ↦ or_later (str_eq digest external) (contains digest rest) later
  ],
)

IsPayload-iff :
    (digest : String) (entries : List AnnotationEntry)
    → (contains digest (annotation_payloads entries) ≡ true) ↔ IsPayload digest entries
unfolding annotation_payloads contains
IsPayload-iff digest [] = (λ h. absurd (cc), λ h. absurd h)
IsPayload-iff digest (entry ∷ entries) =
    let (there, back) = IsPayload-iff digest entries in
    let (into, out) =
      payload_step (str_eq entry.external_digest String.[]) entry.external_digest digest
        (annotation_payloads entries) refl in
    (
      λ h. elim (into h) [ inl own ↦ inl own | inr later ↦ inr (there later) ],
      λ h. elim h [ inl own ↦ out (inl own) | inr later ↦ out (inr (back later)) ],
    )

row_iff : {V : Type 0} (o : Option V) → (has_row o ≡ true) ↔ ((v : V) × (o ≡ some v))
unfolding has_row
row_iff none = (λ h. absurd (cc), λ h. absurd (cc (h.1)))
row_iff (some v) = (λ h. (v, refl), λ h. refl)

or_iff : (a b c : Bool) → ((a || b || c) ≡ true) ↔ ((a ≡ true) ⊎ ((b ≡ true) ⊎ (c ≡ true)))
or_iff a b c = ground arith

young_iff : (time cutoff : ℕ) → (not (ltb time cutoff) ≡ true) ↔ (cutoff ≤ time)
young_iff time cutoff = ground arith

pub is_kept_iff :
    (snapshot : Store) (cutoff : ℕ) (digest : String) (recipe : Recipe)
    → (is_kept snapshot cutoff digest recipe ≡ true) ↔ IsReachable snapshot cutoff digest recipe
unfolding is_kept
is_kept_iff snapshot cutoff digest recipe =
    let (row, row') = row_iff (lookup digest snapshot.manifests) in
    let (payload, payload') = IsPayload-iff digest snapshot.annotations in
    let (young, young') = young_iff recipe.updated_at cutoff in
    let (into, out) =
      or_iff (has_row (lookup digest snapshot.manifests))
        (contains digest (annotation_payloads snapshot.annotations))
        (not (ltb recipe.updated_at cutoff)) in
    (
      λ h. elim (into h) [
        | inl m ↦ inl (row m)
        | inr (inl p) ↦ inr (inl (payload p))
        | inr (inr y) ↦ inr (inr (young y))
      ],
      λ h. elim h [
        | inl m ↦ out (inl (row' m))
        | inr (inl p) ↦ out (inr (inl (payload' p)))
        | inr (inr y) ↦ out (inr (inr (young' y)))
      ],
    )
