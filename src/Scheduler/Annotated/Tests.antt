-- ===== src/Scheduler/Annotated/Tests.antt =====
-- Runs of the set of fully annotated digests, and its theorem at a concrete input.
use gmeow.Base.{true, false, List, [], ◌∷◌, ◌≡◌, refl, string_eq, lookup, insert, delete}
use gmeow.Cache.Links.{push_front, unlink, move_to_front}
use gmeow.Cache.Table.{touch, insert_new, drop_node, remove_tail}
use gmeow.Scheduler.Annotated.{new_lru_cache, contains, add, remove}
use gmeow.Scheduler.Annotated.Sound.{
  Call, contains_call, add_call, remove_call, steps, added, contains_sound,
}

program : Unit {0}
unfolding push_front unlink move_to_front touch insert_new drop_node remove_tail new_lru_cache
    contains add remove lookup insert delete
program = tt

abbrev calls : List Call
calls = add_call "x" ∷ add_call "y" ∷ contains_call "x" ∷ add_call "z" ∷ remove_call "z" ∷ []

kept_test : (contains (steps (new_lru_cache 2) calls) "x").1 ≡ true
unfolding program
kept_test = refl

evicted_test : (contains (steps (new_lru_cache 2) calls) "y").1 ≡ false
unfolding program
evicted_test = refl

contains_sound_example : added "x" false calls ≡ true
contains_sound_example = contains_sound 2 calls "x" kept_test
