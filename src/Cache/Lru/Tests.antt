-- ===== src/Cache/Lru/Tests.antt =====
-- Runs of `LRU`, and its theorems at concrete inputs.
use Prim.Native.Nat.{max}
use gmeow.Base.{
  ℕ, ◌≤◌, String, none, some, List, [], ◌∷◌, ◌≡◌, refl, arith, string_eq, lookup, insert, delete,
  length,
}
use gmeow.Cache.Links.{push_front, unlink, move_to_front}
use gmeow.Cache.Table.{touch, set_value, insert_new, drop_node, remove_tail}
use gmeow.Cache.Lru.{Lru, new_lru, get, put, add, remove, len}
use gmeow.Cache.Lru.Spec.{spec_put}
use gmeow.Cache.Lru.Refine.{IsLru, new_lru-IsLru, put-IsLru, len-length}
use gmeow.Cache.Lru.Run.{
  Call, get_call, put_call, add_call, remove_call, answers, spec_answers, new_lru-answers, get-put,
  get-add, get-remove,
}

program : Unit {0}
unfolding push_front unlink move_to_front touch set_value insert_new drop_node remove_tail new_lru
    get put add remove len lookup insert delete
program = tt

abbrev calls : List (Call String ℕ)
calls =
    put_call "a" 1
    ∷ put_call "b" 2
    ∷ get_call "a"
    ∷ put_call "c" 3
    ∷ get_call "b"
    ∷ add_call "a" 9
    ∷ get_call "a"
    ∷ remove_call "c"
    ∷ get_call "c"
    ∷ []

answers_test :
    answers (new_lru 2) calls
    ≡ none ∷ none ∷ some 1 ∷ none ∷ none ∷ none ∷ some 1 ∷ none ∷ none ∷ []
unfolding program
answers_test = refl

new_lru-answers_example : answers (new_lru 2) calls ≡ spec_answers (max 2 1) [] calls
new_lru-answers_example = new_lru-answers 2 calls

abbrev empty : Lru String ℕ
empty = new_lru 2

abbrev one : Lru String ℕ
one = put empty "a" 1

abbrev one_list : List (String × ℕ)
one_list = spec_put empty.capacity [] "a" 1

one-IsLru : IsLru one one_list
one-IsLru = put-IsLru empty [] "a" (new_lru-IsLru 2) 1

put-IsLru_test : IsLru (put one "b" 2) (spec_put one.capacity one_list "b" 2)
put-IsLru_test = put-IsLru one one_list "b" one-IsLru 2

len-length_test : (len one ≡ length one_list) × (len one ≤ one.capacity)
len-length_test = len-length one one_list "a" one-IsLru

get-put_test : (get (put one "b" 2) "b").1 ≡ some 2
unfolding program
get-put_test = get-put one one_list "b" 2 one-IsLru (omega arith)

get-add_test : (get (add one "a" 7) "a").1 ≡ some 1
unfolding program
get-add_test = get-add one one_list "a" 7 1 one-IsLru refl

get-remove_test : (get (remove one "a") "a").1 ≡ none
get-remove_test = get-remove one one_list "a" one-IsLru
