-- ===== src/Filestore/Packs/Tests.antt =====
-- Runs of the packs, and their theorems at concrete inputs.
use gmeow.Base.{[], ◌∷◌, ◌≡◌, refl, false, true, lookup, insert}
use gmeow.Filestore.Packs.{
  Packs, max_id, pack_and_size, active_pack, cached_active_pack, rotate, append_at,
  append_to_active_pack, contents,
}
use gmeow.Filestore.Packs.Append.{Appended, append_to_active_pack-Appended}

-- Two packs in a directory that was not yet scanned.
abbrev unscanned : Packs
unscanned = record {
  files = (3, 7 ∷ 8 ∷ []) ∷ (1, 9 ∷ []) ∷ [];
  active_known = false;
  active_id = 0;
  active_size = 0;
}

append_test : append_to_active_pack unscanned (5 ∷ []) ≡ (
  record {
    files = (3, 7 ∷ 8 ∷ 5 ∷ []) ∷ (1, 9 ∷ []) ∷ [];
    active_known = true;
    active_id = 3;
    active_size = 3;
  },
  (3, 2),
)
unfolding append_to_active_pack append_at rotate cached_active_pack active_pack pack_and_size max_id
    contents insert lookup
append_test = refl

append_to_active_pack-Appended_example :
    Appended unscanned
      (append_to_active_pack unscanned (5 ∷ [])).0
      (5 ∷ [])
      (append_to_active_pack unscanned (5 ∷ [])).1
append_to_active_pack-Appended_example =
    append_to_active_pack-Appended unscanned (5 ∷ []) (λ known. absurd (cc))
