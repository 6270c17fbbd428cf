-- ===== src/Cache/Sized.antt =====
-- `SizedLRU` (internal/cache/sized.go): a cache bounded by the bytes of its values. Each method runs under
-- the mutex, as one step. Byte counts are natural numbers: the current count is the sum of the sizes
-- held, so where the source subtracts, what it subtracts is a part of it. A negative argument of
-- `NewSizedLRU` acts as 0 does.
pub mod Spec
pub mod Evict
pub mod Refine
mod Tests
use gmeow.Base.{
  ℕ, zero, suc, ◌+◌, ◌-◌, Bool, true, false, ◌&&◌, Option, none, some, List, ltb, length,
  if◌then◌else◌, Eq, lookup,
}
use gmeow.Cache.Table.{Table, empty_table, touch, set_value, insert_new, drop_node, remove_tail}

abbrev pub Bytes : Type 0
Bytes = List ℕ

pub record Sized (K : Type 0) : Type 0 where
  pub max_bytes : ℕ
  pub cur_bytes : ℕ
  pub table : Table K Bytes

unfoldable pub new_sized : {K : Type 0} → ℕ → Sized K
new_sized max_bytes = record {
  max_bytes = if ltb max_bytes 1 then 1 else max_bytes;
  cur_bytes = 0;
  table = empty_table;
}

abbrev is_some : {A : Type 0} → Option A → Bool
is_some none = false
is_some (some _) = true

module _ {K : Type 0} where
  -- `entry.value`; a node of the list has one.
  abbrev pub value_at : Table K Bytes → ℕ → Option Bytes
  value_at t a = elim (t.payload a) [ none ↦ none | some (_, v) ↦ some v ]

  -- `len(entry.value)`
  abbrev pub size_at : Table K Bytes → ℕ → ℕ
  size_at t a = elim (t.payload a) [ none ↦ 0 | some (_, v) ↦ length v ]

  pub get_node : Sized K → Option ℕ → Sized K × Option Bytes
  get_node c none = (c, none)
  get_node c (some a) = let t = touch c.table a in (record c { table = t }, value_at t a)

  module _ ⦃e : Eq K⦄ where
    unfoldable pub get : Sized K → K → Sized K × Option Bytes
    unfolding get_node
    get c k = get_node c (lookup k c.table.items)

    pub drop_tail : Sized K → Table K Bytes × Option (K × Bytes) → Sized K
    drop_tail c (t, none) = c
    drop_tail c (t, some (_, v)) = record c { cur_bytes = c.cur_bytes - length v; table = t }

    -- The loop of `evictToFit`; a round takes one entry out.
    pub evict : ℕ → Sized K → Sized K
    unfolding drop_tail
    evict zero c = c
    evict (suc fuel) c =
        let rest = evict fuel (drop_tail c (remove_tail c.table)) in
        if ltb c.max_bytes c.cur_bytes && is_some c.table.links.tail then rest else c

    pub evict_to_fit : Sized K → Sized K
    unfolding evict
    evict_to_fit c = evict (length c.table.items) c

    -- Unlinking an entry, taking its size off and deleting its key.
    pub drop_entry : Sized K → K → Option ℕ → Sized K
    drop_entry c k none = c
    drop_entry c k (some a) = record c {
      cur_bytes = c.cur_bytes - size_at c.table a;
      table = drop_node c.table a k;
    }

    pub put_node : Sized K → K → Bytes → Option ℕ → Sized K
    unfolding evict_to_fit
    put_node c k v (some a) = evict_to_fit (record c {
      cur_bytes = c.cur_bytes + length v - size_at c.table a;
      table = touch (set_value c.table a v) a;
    })
    put_node c k v none =
        evict_to_fit
          (record c { cur_bytes = c.cur_bytes + length v; table = insert_new c.table k v })

    unfoldable pub put : Sized K → K → Bytes → Sized K
    unfolding put_node drop_entry
    put c k v =
        if ltb c.max_bytes (length v)
        then drop_entry c k (lookup k c.table.items)
        else put_node c k v (lookup k c.table.items)

    unfoldable pub remove : Sized K → K → Sized K
    unfolding drop_entry
    remove c k = drop_entry c k (lookup k c.table.items)

  unfoldable pub bytes : Sized K → ℕ
  bytes c = c.cur_bytes
