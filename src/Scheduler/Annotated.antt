-- ===== src/Scheduler/Annotated.antt =====
-- `lruCache` (internal/scheduler/lru.go): the bounded set of the digests that are known to be fully
-- annotated. Its links, nodes and map are those of the caches, and a node has no value. Each method runs
-- under the mutex, as one step.
pub mod Sound
mod Tests
use gmeow.Base.{
  ℕ, Bool, true, false, Option, none, some, String, ltb, length, if◌then◌else◌, string_eq, lookup,
}
use gmeow.Cache.Table.{Table, empty_table, touch, insert_new, drop_node, remove_tail}

pub record LruCache : Type 0 where
  pub capacity : ℕ
  pub table : Table String (Unit {0})

unfoldable pub new_lru_cache : ℕ → LruCache
new_lru_cache capacity = record { capacity = capacity; table = empty_table }

pub contains_node : LruCache → Option ℕ → LruCache × Bool
contains_node c none = (c, false)
contains_node c (some a) = (record c { table = touch c.table a }, true)

unfoldable pub contains : LruCache → String → LruCache × Bool
unfolding contains_node
contains c key = contains_node c (lookup key c.table.items)

pub add_node : LruCache → String → Option ℕ → LruCache
add_node c key (some a) = record c { table = touch c.table a }
add_node c key none =
    let t = insert_new c.table key tt in
    record c { table = if ltb c.capacity (length t.items) then (remove_tail t).0 else t }

unfoldable pub add : LruCache → String → LruCache
unfolding add_node
add c key = add_node c key (lookup key c.table.items)

pub remove_node : LruCache → String → Option ℕ → LruCache
remove_node c key none = c
remove_node c key (some a) = record c { table = drop_node c.table a key }

unfoldable pub remove : LruCache → String → LruCache
unfolding remove_node
remove c key = remove_node c key (lookup key c.table.items)

unfoldable pub len : LruCache → ℕ
len c = length c.table.items
