-- ===== src/Cache/Sized/Tests.antt =====
-- Runs of `SizedLRU`, and its theorems at concrete inputs.
use gmeow.Base.{String, none, some, List, [], ◌∷◌, ◌≡◌, refl, string_eq, lookup, insert, delete}
use gmeow.Cache.Links.{push_front, unlink, move_to_front}
use gmeow.Cache.Table.{touch, set_value, insert_new, drop_node, remove_tail}
use gmeow.Cache.Sized.{Bytes, Sized, new_sized, get, put, remove, bytes}
use gmeow.Cache.Lru.Spec.{spec_get}
use gmeow.Cache.Sized.Spec.{spec_put}
use gmeow.Cache.Sized.Evict.{IsSized, new_sized-IsSized}
use gmeow.Cache.Sized.Refine.{get-IsSized, put-IsSized, remove-IsSized}

program : Unit {0}
unfolding push_front unlink move_to_front touch set_value insert_new drop_node remove_tail new_sized
    get put remove bytes lookup insert delete
program = tt

abbrev empty : Sized String
empty = new_sized 4

abbrev two : Sized String
two = put (put empty "a" (1 ∷ 2 ∷ [])) "b" (3 ∷ 4 ∷ [])

full_test : bytes two ≡ 4
unfolding program
full_test = refl

evicted_test : (get (put two "c" (5 ∷ [])) "a").1 ≡ none
unfolding program
evicted_test = refl

kept_test : (get (put two "c" (5 ∷ [])) "b").1 ≡ some (3 ∷ 4 ∷ [])
unfolding program
kept_test = refl

abbrev two_list : List (String × Bytes)
two_list =
    spec_put (put empty "a" (1 ∷ 2 ∷ [])).max_bytes (spec_put empty.max_bytes [] "a" (1 ∷ 2 ∷ []))
      "b" (3 ∷ 4 ∷ [])

two-IsSized : IsSized two two_list
two-IsSized =
    put-IsSized (put empty "a" (1 ∷ 2 ∷ [])) (spec_put empty.max_bytes [] "a" (1 ∷ 2 ∷ [])) "b"
      (put-IsSized empty [] "a" (new_sized-IsSized 4) (1 ∷ 2 ∷ [])) (3 ∷ 4 ∷ [])

put-IsSized_example : IsSized (put two "c" (5 ∷ [])) (spec_put two.max_bytes two_list "c" (5 ∷ []))
put-IsSized_example = put-IsSized two two_list "c" two-IsSized (5 ∷ [])

get-IsSized_example :
    ((get two "a").1 ≡ lookup "a" two_list) × IsSized (get two "a").0 (spec_get two_list "a")
get-IsSized_example = get-IsSized two two_list "a" two-IsSized

remove-IsSized_example : IsSized (remove two "a") (delete "a" two_list)
remove-IsSized_example = remove-IsSized two two_list "a" two-IsSized
