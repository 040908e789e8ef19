-- ===== src/Book/Order.antt =====
-- book/order.hpp: the order node, and the memory in which nodes live. A pointer is a number and
-- `nullptr` is 0; the memory gives the node at each address.
use itchbook.Base.{ℕ, ◌-◌, ◌^◌, ◌==◌, if◌then◌else◌}

abbrev pub Ptr : Type 0
Ptr = ℕ

abbrev pub null : Ptr
null = 0

-- `level_idx` of an order whose level is in the overflow map.
abbrev pub overflow_level : ℕ
overflow_level = 2 ^ 32 - 1

pub record Order : Type 0 where
  pub ref : ℕ
  pub next : Ptr
  pub prev : Ptr
  pub shares : ℕ
  pub price : ℕ
  pub level_idx : ℕ
  pub locate : ℕ
  pub side : ℕ

abbrev pub Heap : Type 0
Heap = Ptr → Order

-- A write of a whole node.
abbrev pub write : Heap → Ptr → Order → Heap
write h p o q = if q == p then o else h q

abbrev pub set_next : Heap → Ptr → Ptr → Heap
set_next h p q = write h p (record (h p) { next = q })

abbrev pub set_prev : Heap → Ptr → Ptr → Heap
set_prev h p q = write h p (record (h p) { prev = q })
