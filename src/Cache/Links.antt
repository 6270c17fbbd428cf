-- ===== src/Cache/Links.antt =====
-- The intrusive doubly linked list of the three LRU caches (pushFront, moveToFront and unlink, which
-- internal/cache/lru.go, internal/cache/sized.go and internal/scheduler/lru.go each have for their own
-- node type). A node is an address; `prev` and `next` are the pointer fields of all nodes, and `none`
-- is nil. The statements stand in the order of the source, each reading what the ones before it wrote.
pub mod Chain
pub mod Steps
use gmeow.Base.{ℕ, Option, none, some, Bool, ◌==◌, if◌then◌else◌}

pub record Links : Type 0 where
  pub head : Option ℕ
  pub tail : Option ℕ
  pub prev : ℕ → Option ℕ
  pub next : ℕ → Option ℕ

abbrev pub no_links : Links
no_links = record { head = none; tail = none; prev = λ _. none; next = λ _. none }

-- A write of one node's field.
abbrev pub update : (ℕ → Option ℕ) → ℕ → Option ℕ → ℕ → Option ℕ
update f a v b = if a == b then v else f b

-- `if p != nil { p.field = v }`.
abbrev pub update? : (ℕ → Option ℕ) → Option ℕ → Option ℕ → ℕ → Option ℕ
update? f none v = f
update? f (some a) v = update f a v

abbrev is_node : Option ℕ → ℕ → Bool
is_node none a = Bool.false
is_node (some b) a = b == a

abbrev or_else : Option ℕ → Option ℕ → Option ℕ
or_else none d = d
or_else (some a) d = some a

unfoldable pub push_front : Links → ℕ → Links
push_front c entry =
    let c1 = record c { prev = update c.prev entry none } in
    let c2 = record c1 { next = update c1.next entry c1.head } in
    let c3 = record c2 { prev = update? c2.prev c2.head (some entry) } in
    let c4 = record c3 { head = some entry } in record c4 { tail = or_else c4.tail (some entry) }

-- `if entry.prev != nil { entry.prev.next = entry.next } else { c.head = entry.next }`
unlink_prev : Links → ℕ → Option ℕ → Links
unlink_prev c entry none = record c { head = c.next entry }
unlink_prev c entry (some p) = record c { next = update c.next p (c.next entry) }

-- `if entry.next != nil { entry.next.prev = entry.prev } else { c.tail = entry.prev }`
unlink_next : Links → ℕ → Option ℕ → Links
unlink_next c entry none = record c { tail = c.prev entry }
unlink_next c entry (some n) = record c { prev = update c.prev n (c.prev entry) }

unfoldable pub unlink : Links → ℕ → Links
unfolding unlink_prev unlink_next
unlink c entry =
    let c1 = unlink_prev c entry (c.prev entry) in
    let c2 = unlink_next c1 entry (c1.next entry) in
    record c2 { prev = update c2.prev entry none; next = update c2.next entry none }

unfoldable pub move_to_front : Links → ℕ → Links
move_to_front c entry = if is_node c.head entry then c else push_front (unlink c entry) entry
