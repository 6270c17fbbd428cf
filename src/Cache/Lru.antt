-- ===== src/Cache/Lru.antt =====
-- `LRU` (internal/cache/lru.go): a count-bounded cache. Each method runs under the mutex, as one step. A
-- capacity is a natural number; a negative argument of `NewLRU` acts as 0 does.
pub mod Spec
pub mod Trim
pub mod Refine
pub mod Run
mod Tests
use gmeow.Base.{ℕ, Bool, Option, none, some, ltb, length, if◌then◌else◌, Eq, lookup}
use gmeow.Cache.Table.{Table, empty_table, touch, set_value, insert_new, drop_node, remove_tail}

pub record Lru (K V : Type 0) : Type 0 where
  pub capacity : ℕ
  pub table : Table K V

unfoldable pub new_lru : {K V : Type 0} → ℕ → Lru K V
new_lru capacity = record { capacity = if ltb capacity 1 then 1 else capacity; table = empty_table }

module _ {K V : Type 0} where
  -- `entry.value`
  abbrev pub value_at : Table K V → ℕ → Option V
  value_at t a = elim (t.payload a) [ none ↦ none | some (_, v) ↦ some v ]

  pub get_node : Lru K V → Option ℕ → Lru K V × Option V
  get_node c none = (c, none)
  get_node c (some a) = let t = touch c.table a in (record c { table = t }, value_at t a)

  module _ ⦃e : Eq K⦄ where
    unfoldable pub get : Lru K V → K → Lru K V × Option V
    unfolding get_node
    get c k = get_node c (lookup k c.table.items)

    -- `c.items[key] = entry; c.pushFront(entry); if len(c.items) > c.capacity { c.removeTail() }`
    pub insert_bounded : Lru K V → K → V → Lru K V
    insert_bounded c k v =
        let t = insert_new c.table k v in
        record c { table = if ltb c.capacity (length t.items) then (remove_tail t).0 else t }

    pub put_node : Lru K V → K → V → Option ℕ → Lru K V
    unfolding insert_bounded
    put_node c k v (some a) = record c { table = touch (set_value c.table a v) a }
    put_node c k v none = insert_bounded c k v

    unfoldable pub put : Lru K V → K → V → Lru K V
    unfolding put_node
    put c k v = put_node c k v (lookup k c.table.items)

    pub add_node : Lru K V → K → V → Option ℕ → Lru K V
    unfolding insert_bounded
    add_node c k v (some a) = record c { table = touch c.table a }
    add_node c k v none = insert_bounded c k v

    unfoldable pub add : Lru K V → K → V → Lru K V
    unfolding add_node
    add c k v = add_node c k v (lookup k c.table.items)

    pub remove_node : Lru K V → K → Option ℕ → Lru K V
    remove_node c k none = c
    remove_node c k (some a) = record c { table = drop_node c.table a k }

    unfoldable pub remove : Lru K V → K → Lru K V
    unfolding remove_node
    remove c k = remove_node c k (lookup k c.table.items)

  unfoldable pub len : Lru K V → ℕ
  len c = length c.table.items
