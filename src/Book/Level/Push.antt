-- ===== src/Book/Level/Push.antt =====
-- `push_back` appends to the queue.
use itchbook.Base.{◌≢◌, List, [], ◌∷◌, ◌++◌, arith}
use itchbook.Book.Order.{Ptr, null, Heap, set_next, set_prev}
use itchbook.Book.Level.Chain.{Absent, Distinct, Linked, last, last-Absent}

-- The heap after `push_back` behind a last order.
abbrev pub attach : Heap → Ptr → Ptr → Heap
attach h t o = set_next (set_prev (set_next h o null) o t) t o

pub Linked-attach :
    (h : Heap) (before p o x : Ptr) (xs : List Ptr)
    → Linked h before p (x ∷ xs)
    → Distinct (x ∷ xs)
    → Absent o (x ∷ xs)
    → o ≢ null
    → Linked (attach h (last x xs) o) before p (x ∷ xs ++ o ∷ [])
Linked-attach h before p o x [] l d a n = ground arith
Linked-attach h before p o x (y ∷ ys) l d a n =
    ground (arith, Linked-attach h x (h x).next o y ys l.3 d.1 a.1 n, last-Absent x y ys d.0)
