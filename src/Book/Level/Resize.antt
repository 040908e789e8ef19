-- ===== src/Book/Level/Resize.antt =====
-- `resize` keeps the queue, and `shares_ahead_of` measures it.
use itchbook.Base.{ℕ, zero, suc, ◌+◌, ◌^◌, ◌≤◌, ◌<◌, ◌≡◌, ◌∙◌, List, [], ◌∷◌, ◌++◌, arith, length}
use itchbook.Base.Words.{add64}
use itchbook.Book.Order.{Ptr, null, Heap, write}
use itchbook.Book.Level.{Level, resize, shares_ahead_from, shares_ahead_of}
use itchbook.Book.Level.Chain.{Distinct, Linked, total, Absent-append, total-write}
use itchbook.Book.Level.Queue.{Queues, Sized, total_bound, total-append}

-- The write that `Book::reduce` makes beside `resize`.
abbrev pub set_shares : Heap → Ptr → ℕ → Heap
set_shares h o n = write h o (record (h o) { shares = n })

Linked-set_shares :
    (h : Heap) (o : Ptr) (n : ℕ) (before p : Ptr) (xs : List Ptr)
    → Linked h before p xs
    → Linked (set_shares h o n) before p xs
Linked-set_shares h o n before p [] l = l
Linked-set_shares h o n before p (x ∷ xs) l =
    ground (arith, Linked-set_shares h o n x (h x).next xs l.3)

Sized-set_shares :
    (h : Heap) (o : Ptr) (n : ℕ) (xs : List Ptr)
    → n < 2 ^ 32
    → Sized h xs
    → Sized (set_shares h o n) xs
Sized-set_shares h o n [] b s = tt
Sized-set_shares h o n (x ∷ xs) b s = (ground arith, Sized-set_shares h o n xs b s.1)

total-set_shares :
    (h : Heap) (o : Ptr) (n : ℕ) (pre post : List Ptr)
    → Distinct (pre ++ o ∷ post)
    → total (set_shares h o n) (pre ++ o ∷ post) + (h o).shares ≡ total h (pre ++ o ∷ post) + n
total-set_shares h o n [] post d =
    ground (arith, total-write h o (record (h o) { shares = n }) post d.0)
total-set_shares h o n (x ∷ pre) post d =
    ground (arith, total-set_shares h o n pre post d.1, (Absent-append x pre (o ∷ post) d.0).1.0)

-- With the write of a new size below 2^32 to an order of the queue, `resize` leaves the queue as it
-- was and its share total exact.
pub resize-Queues :
    (h : Heap) (l : Level) (o : Ptr) (n : ℕ) (pre post : List Ptr)
    → Queues h l (pre ++ o ∷ post)
    → n < 2 ^ 32
    → Queues (set_shares h o n) (resize l (h o).shares n) (pre ++ o ∷ post)
unfolding resize
resize-Queues h l o n pre post q b = record {
  linked = Linked-set_shares h o n null l.head (pre ++ o ∷ post) q.linked;
  distinct = q.distinct;
  tail = q.tail;
  shares = omega (
    arith,
    total-set_shares h o n pre post q.distinct,
    total_bound h (pre ++ o ∷ post) q.sized,
    total_bound (set_shares h o n) (pre ++ o ∷ post)
        (Sized-set_shares h o n (pre ++ o ∷ post) b q.sized),
    total-append h pre (o ∷ post),
    q.shares,
    q.few,
  );
  count = q.count;
  few = q.few;
  sized = Sized-set_shares h o n (pre ++ o ∷ post) b q.sized;
}

ahead_loop :
    (fuel : ℕ) (h : Heap) (before p o : Ptr) (acc : ℕ) (pre post : List Ptr)
    → Linked h before p (pre ++ o ∷ post)
    → Distinct (pre ++ o ∷ post)
    → length (pre ++ o ∷ post) ≤ fuel
    → acc + total h pre < 2 ^ 64
    → shares_ahead_from fuel h p o acc ≡ acc + total h pre
unfolding shares_ahead_from
ahead_loop zero h before p o acc [] post l d f b = absurd (omega arith)
ahead_loop zero h before p o acc (x ∷ pre) post l d f b = absurd (omega arith)
ahead_loop (suc fuel) h before p o acc [] post l d f b = ground arith
ahead_loop (suc fuel) h before p o acc (x ∷ pre) post l d f b = ground (
  arith,
  ahead_loop fuel h x (h x).next o (add64 acc (h x).shares) pre post l.3 d.1,
  (Absent-append x pre (o ∷ post) d.0).1.0,
)

-- For an order of the queue, `shares_ahead_of` is the sum of the shares of the orders in front of
-- it.
pub shares_ahead_of_lem :
    (h : Heap) (l : Level) (o : Ptr) (pre post : List Ptr)
    → Queues h l (pre ++ o ∷ post)
    → shares_ahead_of h l o ≡ total h pre
unfolding shares_ahead_of
shares_ahead_of_lem h l o pre post q =
    ahead_loop l.count h null l.head o 0 pre post q.linked q.distinct (omega (arith, q.count))
      (omega (arith, total-append h pre (o ∷ post), total_bound h (pre ++ o ∷ post) q.sized, q.few))
    ∙ omega arith
