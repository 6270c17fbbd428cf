-- ===== src/Cache/Table.antt =====
-- What the three LRU caches share beside the links: the nodes with their keys and values, the map from
-- keys to nodes, and the steps that keep these together (internal/cache/lru.go). A new node gets the
-- next unused address; nodes out of the list keep theirs, as no pointer to them is left.
pub mod Entries
pub mod Steps
use gmeow.Base.{
  ℕ, ◌+◌, Option, none, some, List, [], ◌==◌, if◌then◌else◌, Eq, lookup, insert, delete,
}
use gmeow.Cache.Links.{Links, no_links, push_front, unlink, move_to_front}

pub record Table (K V : Type 0) : Type 0 where
  pub links : Links
  pub payload : ℕ → Option (K × V)
  pub items : List (K × ℕ)
  pub fresh : ℕ

abbrev pub empty_table : {K V : Type 0} → Table K V
empty_table = record { links = no_links; payload = λ _. none; items = []; fresh = 0 }

module _ {K V : Type 0} where
  abbrev pub write : (ℕ → Option (K × V)) → ℕ → K × V → ℕ → Option (K × V)
  write f a e b = if a == b then some e else f b

  -- `c.moveToFront(entry)`
  unfoldable pub touch : Table K V → ℕ → Table K V
  touch t a = record t { links = move_to_front t.links a }

  -- `entry.value = value`
  unfoldable pub set_value : Table K V → ℕ → V → Table K V
  set_value t a v = elim (t.payload a) [
    | none ↦ t
    | some (k, _) ↦ record t { payload = write t.payload a (k, v) }
  ]

  module _ ⦃e : Eq K⦄ where
    -- `entry := &node{key: key, value: value}; c.items[key] = entry; c.pushFront(entry)`
    unfoldable pub insert_new : Table K V → K → V → Table K V
    insert_new t k v = record {
      links = push_front t.links t.fresh;
      payload = write t.payload t.fresh (k, v);
      items = insert k t.fresh t.items;
      fresh = t.fresh + 1;
    }

    -- `c.unlink(entry); delete(c.items, key)`
    unfoldable pub drop_node : Table K V → ℕ → K → Table K V
    drop_node t a k = record t { links = unlink t.links a; items = delete k t.items }

    pub remove_node : Table K V → ℕ → Option (K × V) → Table K V × Option (K × V)
    remove_node t a none = (t, none)
    remove_node t a (some (k, v)) = (drop_node t a k, some (k, v))

    pub remove_tail_at : Table K V → Option ℕ → Table K V × Option (K × V)
    unfolding remove_node
    remove_tail_at t none = (t, none)
    remove_tail_at t (some a) = remove_node t a (t.payload a)

    -- `removeTail`: the table without the last node, whose key and value are handed back.
    unfoldable pub remove_tail : Table K V → Table K V × Option (K × V)
    unfolding remove_tail_at
    remove_tail t = remove_tail_at t t.links.tail
