-- ===== src/Filestore/Blobs/Coherent.antt =====
-- The cache of chunks (internal/filestore/chunkstore.go) holds under each hash only content of this hash,
-- whatever is read and written.
use gmeow.Base.{
  ℕ, ◌-◌, String, Bool, true, false, some, List, [], ◌∷◌, ◌≡◌, sym, ◌∙◌, arith, str_eq, string_eq,
  eq_iff, ltb, leb, length, if◌then◌else◌, inl, inr, lookup, delete, All, Option-cases, Bool-cases,
}
use gmeow.Cache.Sized.{Sized}
use gmeow.Cache.Sized as cache
use gmeow.Cache.Sized.Spec.{within, spec_put}
use gmeow.Cache.Sized.Evict.{IsSized}
use gmeow.Cache.Sized.Refine.{get-IsSized, put-IsSized}
use gmeow.Cache.Lru.Spec.{spec_get, spec_get_hit, spec_get_miss}
use gmeow.Filestore.Packs.{Bytes}

module _ (blake3 : Bytes → String) where
  -- The value has the hash that is its key.
  abbrev pub Hashed : String × Bytes → Type 0
  Hashed (hash, chunk) = blake3 chunk ≡ hash

  -- The cache stands for a list of such pairs.
  abbrev pub IsCoherent : Sized String → Type 0
  IsCoherent c = (l : List (String × Bytes)) × IsSized c l × All Hashed l

  choose-Hashed :
      (b : Bool) (l m : List (String × Bytes))
      → All Hashed l
      → All Hashed m
      → All Hashed (if b then l else m)
  choose-Hashed true l m h k = h
  choose-Hashed false l m h k = k

  delete-Hashed :
      (hash : String) (l : List (String × Bytes)) → All Hashed l → All Hashed (delete hash l)
  unfolding delete
  delete-Hashed hash [] h = tt
  delete-Hashed hash ((k, v) ∷ l) (p, h) =
      let rest = delete-Hashed hash l h in
      choose-Hashed (str_eq k hash) (delete hash l) ((k, v) ∷ delete hash l) rest (p, rest)

  within-Hashed :
      (budget : ℕ) (l : List (String × Bytes)) → All Hashed l → All Hashed (within budget l)
  within-Hashed budget [] h = tt
  within-Hashed budget ((k, v) ∷ l) (p, h) =
      let rest = within (budget - length v) l in
      choose-Hashed (leb (length v) budget) ((k, v) ∷ rest) []
        (p, within-Hashed (budget - length v) l h) tt

  lookup-Hashed :
      (hash : String) (l : List (String × Bytes)) (chunk : Bytes)
      → All Hashed l
      → lookup hash l ≡ some chunk
      → blake3 chunk ≡ hash
  unfolding lookup
  lookup-Hashed hash [] chunk h found = absurd (cc)
  lookup-Hashed hash ((k, v) ∷ l) chunk (p, h) found =
      ground (arith, eq_iff k hash, lookup-Hashed hash l chunk h)

  spec_put-Hashed :
      (budget : ℕ) (l : List (String × Bytes)) (hash : String) (chunk : Bytes)
      → All Hashed l
      → blake3 chunk ≡ hash
      → All Hashed (spec_put budget l hash chunk)
  spec_put-Hashed budget l hash chunk h p = elim (Bool-cases (ltb budget (length chunk))) [
    | inl large ↦ rw large (delete-Hashed hash l h)
    | inr small ↦
        rw small (within-Hashed budget ((hash, chunk) ∷ delete hash l) (p, delete-Hashed hash l h))
  ]

  spec_get-Hashed :
      (l : List (String × Bytes)) (hash : String) → All Hashed l → All Hashed (spec_get l hash)
  spec_get-Hashed l hash h = elim (Option-cases (lookup hash l)) [
    | inl absent ↦ rw (spec_get_miss l hash absent) h
    | inr (chunk, found) ↦
        rw (spec_get_hit l hash chunk found)
          (lookup-Hashed hash l chunk h found, delete-Hashed hash l h)
  ]

  pub get-IsCoherent :
      (c : Sized String) (hash : String)
      → IsCoherent c
      → IsCoherent (cache.get c hash).0
        × ((chunk : Bytes) → (cache.get c hash).1 ≡ some chunk → blake3 chunk ≡ hash)
  get-IsCoherent c hash (l, sized, h) =
      let (same, after) = get-IsSized c l hash sized in
      (
        (spec_get l hash, after, spec_get-Hashed l hash h),
        λ chunk hit. lookup-Hashed hash l chunk h (sym same ∙ hit),
      )

  pub put-IsCoherent :
      (c : Sized String) (hash : String) (chunk : Bytes)
      → IsCoherent c
      → blake3 chunk ≡ hash
      → IsCoherent (cache.put c hash chunk)
  put-IsCoherent c hash chunk (l, sized, h) p = (
    spec_put c.max_bytes l hash chunk,
    put-IsSized c l hash sized chunk,
    spec_put-Hashed c.max_bytes l hash chunk h p,
  )
