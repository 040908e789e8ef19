-- ===== src/Book/Pool/FreeList.antt =====
-- The free list: which nodes the pool holds, and that it hands out only those.
use itchbook.Base.{
  ℕ, zero, suc, ◌+◌, ◌≤◌, ◌<◌, ◌≡◌, refl, sym, subst, ◌∙◌, ◌≢◌, ◌⊎◌, inr, true, false, List, [],
  ◌∷◌, ◌++◌, arith, ◌==◌, length, length-append,
}
use mathlib.Core.List.{append_assoc}
use itchbook.Book.Order.{Ptr, null, Order, Heap, write, set_next}
use itchbook.Book.Level.Chain.{Absent, Distinct, Absent-append, append-Absent}
use itchbook.Book.Pool.{Pool, thread, grow, take_free, allocate, deallocate}

-- From `p` the `next` pointers lead through the free nodes `xs` to the null pointer.
abbrev pub Free : Heap → Ptr → List Ptr → Type 0
Free h p [] = p ≡ null
Free h p (x ∷ xs) = (p ≡ x) × (x ≢ null) × Free h (h x).next xs

-- `free` are the nodes on the free list and `out` those that are handed out: all are different
-- nodes, and together they are what was ever allocated.
pub record Owns (h : Heap) (p : Pool) (free out : List Ptr) : Type 0 where
  pub chain : Free h p.free free
  pub distinct : Distinct (free ++ out)
  pub live : p.live ≡ length out
  pub capacity : p.capacity ≡ length free + length out
  pub chunk : 0 < p.chunk_size

-- The nodes at `xs` are those of `h`.
abbrev pub SameNodes : Heap → Heap → List Ptr → Type 0
SameNodes g h [] = Unit {0}
SameNodes g h (x ∷ xs) = (g x ≡ h x) × SameNodes g h xs

-- No order of `xs` lies in the chunk of `n` nodes at `c`.
abbrev pub Outside : Ptr → ℕ → List Ptr → Type 0
Outside c n [] = Unit {0}
Outside c n (x ∷ xs) = ((x < c) ⊎ (c + n ≤ x)) × Outside c n xs

-- The addresses of a chunk, from the lowest, in front of `xs`.
abbrev pub nodes : Ptr → ℕ → List Ptr → List Ptr
nodes c zero xs = xs
nodes c (suc n) xs = nodes c n ((c + n) ∷ xs)

Free-write :
    (h : Heap) (q : Ptr) (o : Order) (p : Ptr) (xs : List Ptr)
    → Absent q xs
    → Free h p xs
    → Free (write h q o) p xs
Free-write h q o p [] a f = f
Free-write h q o p (x ∷ xs) a f = ground (arith, Free-write h q o (h x).next xs a.1 f.2)

SameNodes-write :
    (g h : Heap) (q : Ptr) (o : Order) (xs : List Ptr)
    → Absent q xs
    → SameNodes g h xs
    → SameNodes (write g q o) h xs
SameNodes-write g h q o [] a s = tt
SameNodes-write g h q o (x ∷ xs) a s = ground (arith, SameNodes-write g h q o xs a.1 s.1)

SameNodes-refl : (h : Heap) (xs : List Ptr) → SameNodes h h xs
SameNodes-refl h [] = tt
SameNodes-refl h (x ∷ xs) = (refl, SameNodes-refl h xs)

Outside-append :
    (c n : ℕ) (xs ys : List Ptr) → Outside c n (xs ++ ys) → Outside c n xs × Outside c n ys
Outside-append c n [] ys o = (tt, o)
Outside-append c n (x ∷ xs) ys o = let (p, q) = Outside-append c n xs ys o.1 in ((o.0, p), q)

-- Below a smaller count the chunk is smaller, and its next node is none of those outside.
Outside-shrink :
    (c n : ℕ) (xs : List Ptr) → Outside c (suc n) xs → Outside c n xs × Absent (c + n) xs
Outside-shrink c n [] o = (tt, tt)
Outside-shrink c n (x ∷ xs) o = let ih = Outside-shrink c n xs o.1 in ground arith

thread-Free :
    (n : ℕ) (h : Heap) (c p : Ptr) (xs : List Ptr)
    → 0 < c
    → Outside c n xs
    → Free h p xs
    → let (g, q) = thread n h c p in Free g q (nodes c n xs)
unfolding thread
thread-Free zero h c p xs z o f = f
thread-Free (suc n) h c p xs z o f =
    let (out, away) = Outside-shrink c n xs o in
    thread-Free n (set_next h (c + n) p) c (c + n) ((c + n) ∷ xs) z (inr (omega arith), out)
      (
        refl,
        omega arith,
        ground (arith, Free-write h (c + n) (record (h (c + n)) { next = p }) p xs away f),
      )

thread-SameNodes :
    (n : ℕ) (g h : Heap) (c p : Ptr) (xs : List Ptr)
    → Outside c n xs
    → SameNodes g h xs
    → SameNodes (thread n g c p).0 h xs
unfolding thread
thread-SameNodes zero g h c p xs o s = s
thread-SameNodes (suc n) g h c p xs o s =
    let (out, away) = Outside-shrink c n xs o in
    thread-SameNodes n (set_next g (c + n) p) h c (c + n) xs out
      (SameNodes-write g h (c + n) (record (g (c + n)) { next = p }) xs away s)

nodes-Distinct :
    (n c : ℕ) (xs out : List Ptr)
    → Outside c n (xs ++ out)
    → Distinct (xs ++ out)
    → Distinct (nodes c n xs ++ out)
nodes-Distinct zero c xs out o d = d
nodes-Distinct (suc n) c xs out o d =
    let (away, ab) = Outside-shrink c n (xs ++ out) o in
    nodes-Distinct n c ((c + n) ∷ xs) out (inr (omega arith), away) (ab, d)

length-nodes : (n c : ℕ) (xs : List Ptr) → length (nodes c n xs) ≡ n + length xs
length-nodes zero c xs = omega arith
length-nodes (suc n) c xs = omega (arith, length-nodes n c ((c + n) ∷ xs))

-- `grow` adds the nodes of the chunk to the free list, and touches no order.
pub grow-Owns :
    (h : Heap) (p : Pool) (c : Ptr) (free out : List Ptr)
    → Owns h p free out
    → 0 < c
    → Outside c p.chunk_size (free ++ out)
    → let (g, q) = grow h p c in Owns g q (nodes c p.chunk_size free) out × SameNodes g h out
unfolding grow
grow-Owns h p c free out v z o =
    let (of, oo) = Outside-append c p.chunk_size free out o in
    (
      record {
        chain = thread-Free p.chunk_size h c p.free free z of v.chain;
        distinct = nodes-Distinct p.chunk_size c free out o v.distinct;
        live = v.live;
        capacity = omega (arith, length-nodes p.chunk_size c free, v.capacity);
        chunk = let k = v.chunk in ground arith;
      },
      thread-SameNodes p.chunk_size h h c p.free out oo (SameNodes-refl h out),
    )

Distinct-move : (x : Ptr) (xs ys : List Ptr) → Distinct (x ∷ xs ++ ys) → Distinct (xs ++ x ∷ ys)
Distinct-move x [] ys d = d
Distinct-move x (z ∷ xs) ys d =
    let (p, q) = Absent-append z xs ys d.1.0 in
    (append-Absent z xs (x ∷ ys) p ((λ e. d.0.0 (sym e)), q), Distinct-move x xs ys (d.0.1, d.1.1))

-- What `take_free` finds at the head of a free list.
take_free-Owns :
    (h : Heap) (p : Pool) (x : Ptr) (free out : List Ptr)
    → Owns h p (x ∷ free) out
    → let (o, g, q) = take_free h p in
      (o ≡ x) × (o ≢ null) × Owns g q free (o ∷ out) × SameNodes g h out
unfolding take_free
take_free-Owns h p x free out v =
    let e = v.chain.0 in
    let d = subst (λ z. Absent z (free ++ out)) (sym e) v.distinct.0 in
    let (df, do') = Absent-append p.free free out d in
    let f = subst (λ z. Free h (h z).next free) (sym e) v.chain.2 in
    let nn = subst (λ z. z ≢ null) (sym e) v.chain.1 in
    let h1 = set_next h p.free null in
    (
      e,
      nn,
      record {
        chain =
            Free-write h1 p.free (record (h1 p.free) { prev = null }) (h p.free).next free df
              (Free-write h p.free (record (h p.free) { next = null }) (h p.free).next free df f);
        distinct = Distinct-move p.free free out (d, v.distinct.1);
        live = omega (arith, v.live);
        capacity = omega (arith, v.capacity);
        chunk = v.chunk;
      },
      SameNodes-write h1 h p.free (record (h1 p.free) { prev = null }) out do'
          (SameNodes-write h h p.free (record (h p.free) { next = null }) out do'
            (SameNodes-refl h out)),
    )

SameNodes-trans :
    (f g h : Heap) (xs : List Ptr) → SameNodes f g xs → SameNodes g h xs → SameNodes f h xs
SameNodes-trans f g h [] s t = tt
SameNodes-trans f g h (x ∷ xs) s t = (s.0 ∙ t.0, SameNodes-trans f g h xs s.1 t.1)

nodes-cons :
    (n c x : ℕ) (xs : List Ptr) → (y : Ptr) × (ys : List Ptr) × (nodes c n (x ∷ xs) ≡ y ∷ ys)
nodes-cons zero c x xs = (x, xs, refl)
nodes-cons (suc n) c x xs = nodes-cons n c (c + n) (x ∷ xs)

nodes-pos : (n c : ℕ) → 0 < n → (y : Ptr) × (ys : List Ptr) × (nodes c n [] ≡ y ∷ ys)
nodes-pos zero c z = absurd (omega arith)
nodes-pos (suc n) c z = nodes-cons n c (c + n) []

-- The pool has the chunk at `c` in addition exactly if no node was free.
abbrev pub Grown : List Ptr → Ptr → Pool → Pool → Type 0
Grown [] c p q = (q.chunks ≡ c ∷ p.chunks) × (q.capacity ≡ p.capacity + p.chunk_size)
Grown (x ∷ free) c p q = (q.chunks ≡ p.chunks) × (q.capacity ≡ p.capacity)

-- What a call of `allocate` leaves: the node that it returns is no node that is out, it joins
-- those, their contents are untouched, and the pool has grown only if it had to.
abbrev pub Allocated : Heap → Pool → Ptr → List Ptr → List Ptr → Ptr × Heap × Pool → Type 0
Allocated h p c free out (o, g, q) =
    (o ≢ null)
    × ((rest : List Ptr) × Owns g q rest (o ∷ out))
    × SameNodes g h out
    × Grown free c p q

-- From a pool whose nodes are free or handed out, `allocate` hands out a node that is not null and
-- that nobody holds, growing by one chunk if none is free and else not at all, and touches no node
-- that is out, if the system gives a new chunk that is not at null and overlaps no node.
pub allocate-Owns :
    (h : Heap) (p : Pool) (c : Ptr) (free out : List Ptr)
    → Owns h p free out
    → 0 < c
    → Outside c p.chunk_size (free ++ out)
    → Allocated h p c free out (allocate h p c)
unfolding allocate take_free grow
allocate-Owns h p c (x ∷ free) out v z o =
    let t = take_free-Owns h p x free out v in
    let nn : (p.free == null) ≡ false = let e = v.chain.0 in let k = v.chain.1 in ground arith in
    rw nn (t.1, (free, t.2), t.3, (refl, refl))
allocate-Owns h p c [] out v z o =
    let (w, s) = grow-Owns h p c [] out v z o in
    let (y, ys, e) = nodes-pos p.chunk_size c v.chunk in
    let g = (grow h p c).0 in
    let q = (grow h p c).1 in
    let t = take_free-Owns g q y ys out (subst (λ xs. Owns g q xs out) e w) in
    let is : (p.free == null) ≡ true = let k = v.chain in ground arith in
    rw is (t.1, (ys, t.2), SameNodes-trans (take_free g q).1 g h out t.3 s, (refl, refl))

Distinct-back : (x : Ptr) (xs ys : List Ptr) → Distinct (xs ++ x ∷ ys) → Distinct (x ∷ xs ++ ys)
Distinct-back x [] ys d = d
Distinct-back x (z ∷ xs) ys d =
    let (p, q) = Absent-append z xs (x ∷ ys) d.0 in
    let ih = Distinct-back x xs ys d.1 in
    (((λ e. q.0 (sym e)), ih.0), (append-Absent z xs ys p q.1, ih.1))

-- `deallocate` of a node that is out and not null puts it on the free list and touches no other
-- node that is out.
pub deallocate-Owns :
    (h : Heap) (p : Pool) (o : Ptr) (free pre post : List Ptr)
    → Owns h p free (pre ++ o ∷ post)
    → o ≢ null
    → let (g, q) = deallocate h p o in
      Owns g q (o ∷ free) (pre ++ post) × SameNodes g h (pre ++ post)
unfolding deallocate
deallocate-Owns h p o free pre post v n =
    let d =
      Distinct-back o (free ++ pre) post
        (subst Distinct (sym (append_assoc free pre (o ∷ post))) v.distinct) in
    let d' : Distinct (o ∷ free ++ (pre ++ post)) =
      subst (λ xs. Distinct (o ∷ xs)) (append_assoc free pre post) d in
    let (df, dp) = Absent-append o free (pre ++ post) d'.0 in
    (
      record {
        chain = (
          refl,
          n,
          ground (arith, Free-write h o (record (h o) { next = p.free }) p.free free df v.chain),
        );
        distinct = d';
        live = omega (arith, v.live, length-append {0} pre (o ∷ post), length-append {0} pre post);
        capacity =
            omega (arith, v.capacity, length-append {0} pre (o ∷ post), length-append {0} pre post);
        chunk = v.chunk;
      },
      SameNodes-write h h o (record (h o) { next = p.free }) (pre ++ post) dp
          (SameNodes-refl h (pre ++ post)),
    )
