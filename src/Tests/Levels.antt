-- ===== src/Tests/Levels.antt =====
-- book/level.hpp at two resting orders and one that arrives.
use itchbook.Base.{ℕ, ◌≡◌, refl, [], ◌∷◌, arith, ◌==◌, if◌then◌else◌}
use itchbook.Book.Order.{Ptr, Order, Heap}
use itchbook.Book.Level.{Level, push_back, unlink, resize, shares_ahead_of}
use itchbook.Book.Level.Queue.{Queues, push_back-Queues, unlink-Queues}
use itchbook.Book.Level.Resize.{set_shares, resize-Queues, shares_ahead_of_lem}

abbrev node : Ptr → Ptr → ℕ → Order
node next prev shares = record {
  ref = 0;
  next = next;
  prev = prev;
  shares = shares;
  price = 100;
  level_idx = 0;
  locate = 1;
  side = b'B';
}

-- 1 is in front of 2; 3 is in no queue.
abbrev memory : Heap
memory p = if p == 1 then node 2 0 300 else if p == 2 then node 0 1 200 else node 0 0 50

abbrev two_orders : Level
two_orders = record { head = 1; tail = 2; shares = 500; count = 2 }

two_orders-Queues : Queues memory two_orders (1 ∷ 2 ∷ [])
two_orders-Queues = record {
  linked = omega arith;
  distinct = omega arith;
  tail = refl;
  shares = refl;
  count = refl;
  few = omega arith;
  sized = omega arith;
}

push_back-Queues_example :
    Queues (push_back memory two_orders 3).0 (push_back memory two_orders 3).1 (1 ∷ 2 ∷ 3 ∷ [])
push_back-Queues_example =
    push_back-Queues memory two_orders 3 (1 ∷ 2 ∷ []) two_orders-Queues (omega arith) (omega arith)
      (omega arith) (omega arith)

unlink-Queues_example :
    Queues (unlink memory two_orders 1).0 (unlink memory two_orders 1).1 (2 ∷ [])
unlink-Queues_example = unlink-Queues memory two_orders 1 [] (2 ∷ []) two_orders-Queues

resize-Queues_example : Queues (set_shares memory 2 150) (resize two_orders 200 150) (1 ∷ 2 ∷ [])
resize-Queues_example =
    resize-Queues memory two_orders 2 150 (1 ∷ []) [] two_orders-Queues (omega arith)

shares_ahead_of_lem_example : shares_ahead_of memory two_orders 2 ≡ 300
shares_ahead_of_lem_example = shares_ahead_of_lem memory two_orders 2 (1 ∷ []) [] two_orders-Queues
