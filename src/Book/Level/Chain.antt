-- ===== src/Book/Level/Chain.antt =====
-- What the pointers of a level stand for: the orders that it queues, front first.
use itchbook.Base.{ℕ, ◌+◌, ◌≡◌, ◌≢◌, List, [], ◌∷◌, ◌++◌, arith, refl, sym}
use itchbook.Book.Order.{Ptr, null, Order, Heap, write}

abbrev pub Absent : Ptr → List Ptr → Type 0
Absent o [] = Unit {0}
Absent o (x ∷ xs) = (o ≢ x) × Absent o xs

abbrev pub Distinct : List Ptr → Type 0
Distinct [] = Unit {0}
Distinct (x ∷ xs) = Absent x xs × Distinct xs

-- From `p` the `next` pointers lead through `xs` to the null pointer, and the `prev` pointers lead
-- back to `before`.
abbrev pub Linked : Heap → Ptr → Ptr → List Ptr → Type 0
Linked h before p [] = p ≡ null
Linked h before p (x ∷ xs) = (p ≡ x) × (x ≢ null) × ((h x).prev ≡ before) × Linked h x (h x).next xs

abbrev pub last : Ptr → List Ptr → Ptr
last d [] = d
last d (x ∷ xs) = last x xs

abbrev pub first : Ptr → List Ptr → Ptr
first d [] = d
first d (x ∷ xs) = x

-- `shares` of each order of the queue, summed.
abbrev pub total : Heap → List Ptr → ℕ
total h [] = 0
total h (x ∷ xs) = (h x).shares + total h xs

-- Each order of the queue is unchanged by a write elsewhere.
pub Linked-write :
    (h : Heap) (q : Ptr) (o : Order) (before p : Ptr) (xs : List Ptr)
    → Absent q xs
    → Linked h before p xs
    → Linked (write h q o) before p xs
Linked-write h q o before p [] a l = l
Linked-write h q o before p (x ∷ xs) a l =
    ground (arith, Linked-write h q o x (h x).next xs a.1 l.3)

pub total-write :
    (h : Heap) (q : Ptr) (o : Order) (xs : List Ptr)
    → Absent q xs
    → total (write h q o) xs ≡ total h xs
total-write h q o [] a = refl
total-write h q o (x ∷ xs) a = ground (arith, total-write h q o xs a.1)

pub Absent-null :
    (h : Heap) (before p : Ptr) (xs : List Ptr) → Linked h before p xs → Absent null xs
Absent-null h before p [] l = tt
Absent-null h before p (x ∷ xs) l = ((λ e. l.1 (sym e)), Absent-null h x (h x).next xs l.3)

pub Absent-append : (o : Ptr) (xs ys : List Ptr) → Absent o (xs ++ ys) → Absent o xs × Absent o ys
Absent-append o [] ys a = (tt, a)
Absent-append o (x ∷ xs) ys a = let (p, q) = Absent-append o xs ys a.1 in ((a.0, p), q)

pub append-Absent : (o : Ptr) (xs ys : List Ptr) → Absent o xs → Absent o ys → Absent o (xs ++ ys)
append-Absent o [] ys a b = b
append-Absent o (x ∷ xs) ys a b = (a.0, append-Absent o xs ys a.1 b)

pub last-Absent : (o x : Ptr) (xs : List Ptr) → Absent o (x ∷ xs) → o ≢ last x xs
last-Absent o x [] a = a.0
last-Absent o x (y ∷ ys) a = last-Absent o y ys a.1

pub first-Absent : (o d : Ptr) (xs : List Ptr) → o ≢ d → Absent o xs → o ≢ first d xs
first-Absent o d [] h a = h
first-Absent o d (x ∷ xs) h a = a.0
