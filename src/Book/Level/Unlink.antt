-- ===== src/Book/Level/Unlink.antt =====
-- `unlink` takes the order out of the queue and leaves the others in their places.
use itchbook.Base.{◌≡◌, refl, sym, ◌∙◌, ◌≢◌, List, [], ◌∷◌, ◌++◌, arith, ◌==◌, if◌then◌else◌}
use itchbook.Book.Order.{Ptr, null, Heap, set_next, set_prev}
use itchbook.Book.Level.Chain.{
  Absent, Distinct, Linked, last, first, last-Absent, first-Absent, Absent-append,
}

-- The heap after `unlink` of an order between `a` and `b`.
abbrev pub detach : Heap → Ptr → Ptr → Ptr → Heap
detach h o a b =
    let h1 = if a == null then h else set_next h a b in
    let h2 = if b == null then h1 else set_prev h1 b a in set_prev (set_next h2 o null) o null

pub prev_of :
    (h : Heap) (before p o : Ptr) (pre post : List Ptr)
    → Linked h before p (pre ++ o ∷ post)
    → (h o).prev ≡ last before pre
prev_of h before p o [] post l = l.2
prev_of h before p o (x ∷ pre) post l = prev_of h x (h x).next o pre post l.3

pub next_of :
    (h : Heap) (before p o : Ptr) (pre post : List Ptr)
    → Linked h before p (pre ++ o ∷ post)
    → (h o).next ≡ first null post
next_of h before p o [] [] l = l.3
next_of h before p o [] (y ∷ ys) l = l.3.0
next_of h before p o (x ∷ pre) post l = next_of h x (h x).next o pre post l.3

Linked-detach_rest :
    (h : Heap) (o a b q p : Ptr) (xs : List Ptr)
    → Absent o xs
    → Absent a xs
    → Absent b xs
    → Linked h q p xs
    → Linked (detach h o a b) q p xs
Linked-detach_rest h o a b q p [] ao aa ab l = l
Linked-detach_rest h o a b q p (x ∷ xs) ao aa ab l =
    ground (arith, Linked-detach_rest h o a b x (h x).next xs ao.1 aa.1 ab.1 l.3)

-- Where the queue starts, once the order behind `pre` is gone.
abbrev pub start : List Ptr → Ptr → Ptr → Ptr
start [] n p = n
start (x ∷ pre) n p = p

-- The order behind `pre` is still reached from `x`, in the heap without it.
detach_step :
    (h : Heap) (o n x : Ptr) (pre : List Ptr)
    → x ≢ null
    → o ≢ x
    → x ≢ n
    → Absent x pre
    → let g = detach h o (last x pre) n in
      ((g x).prev ≡ (h x).prev) × ((g x).next ≡ start pre n (h x).next)
detach_step h o n x [] nn ox xn a = ground arith
detach_step h o n x (y ∷ pre) nn ox xn a = ground (arith, last-Absent x y pre a)

pub Linked-detach :
    (h : Heap) (before p o : Ptr) (pre post : List Ptr)
    → Linked h before p (pre ++ o ∷ post)
    → Absent before (pre ++ o ∷ post)
    → Distinct (pre ++ o ∷ post)
    → let n = first null post in
      Linked (detach h o (last before pre) n) before (start pre n p) (pre ++ post)
Linked-detach h before p o [] [] l a d = refl
Linked-detach h before p o [] (y ∷ ys) l a d =
    ground (arith, Linked-detach_rest h o before y y (h y).next ys d.0.1 a.1.1 d.1.0 l.3.3)
Linked-detach h before p o (x ∷ pre) post l a d =
    let (xp, xo) = Absent-append x pre (o ∷ post) d.0 in
    let ih = Linked-detach h x (h x).next o pre post l.3 d.0 d.1 in
    let n = first null post in
    let (e, f) =
      detach_step h o n x pre l.1 (λ q. xo.0 (sym q)) (first-Absent x null post l.1 xo.1) xp in
    (l.0, l.1, e ∙ l.2, rw f ih)
