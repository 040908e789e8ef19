-- ===== src/Book/Level/Queue.antt =====
-- A level as the queue of the orders that rest in it.
use itchbook.Base.{
  ◌+◌, ◌-◌, ◌*◌, ◌^◌, ◌≤◌, ◌<◌, ◌≡◌, refl, sym, ◌≢◌, List, [], ◌∷◌, ◌++◌, arith, ◌==◌,
  if◌then◌else◌, length, length-append,
}
use mathlib.Core.List.{append-nil}
use itchbook.Book.Order.{Ptr, null, Heap, set_next, set_prev}
use itchbook.Book.Level.{Level, push_back, unlink}
use itchbook.Book.Level.Chain.{
  Absent, Distinct, Linked, last, first, total, last-Absent, Absent-append, append-Absent,
  Absent-null,
}
use itchbook.Book.Level.Push.{attach, Linked-attach}
use itchbook.Book.Level.Unlink.{detach, prev_of, next_of, start, Linked-detach}

-- Each order holds a 32-bit number of shares.
abbrev pub Sized : Heap → List Ptr → Type 0
Sized h [] = Unit {0}
Sized h (x ∷ xs) = ((h x).shares < 2 ^ 32) × Sized h xs

-- `g` has the shares of `h` at each order of the queue.
abbrev pub SameShares : Heap → Heap → List Ptr → Type 0
SameShares g h [] = Unit {0}
SameShares g h (x ∷ xs) = ((g x).shares ≡ (h x).shares) × SameShares g h xs

pub record Queues (h : Heap) (l : Level) (xs : List Ptr) : Type 0 where
  pub linked : Linked h null l.head xs
  pub distinct : Distinct xs
  pub tail : l.tail ≡ last null xs
  pub shares : l.shares ≡ total h xs
  pub count : l.count ≡ length xs
  pub few : length xs < 2 ^ 32
  pub sized : Sized h xs

pub total_bound : (h : Heap) (xs : List Ptr) → Sized h xs → total h xs ≤ length xs * (2 ^ 32 - 1)
total_bound h [] s = omega arith
total_bound h (x ∷ xs) s = omega (arith, total_bound h xs s.1)

pub total-append : (h : Heap) (xs ys : List Ptr) → total h (xs ++ ys) ≡ total h xs + total h ys
total-append h [] ys = omega arith
total-append h (x ∷ xs) ys = omega (arith, total-append h xs ys)

Sized-append : (h : Heap) (xs ys : List Ptr) → Sized h xs → Sized h ys → Sized h (xs ++ ys)
Sized-append h [] ys s t = t
Sized-append h (x ∷ xs) ys s t = (s.0, Sized-append h xs ys s.1 t)

Sized-split : (h : Heap) (xs ys : List Ptr) → Sized h (xs ++ ys) → Sized h xs × Sized h ys
Sized-split h [] ys s = (tt, s)
Sized-split h (x ∷ xs) ys s = let (p, q) = Sized-split h xs ys s.1 in ((s.0, p), q)

Distinct-snoc : (o : Ptr) (xs : List Ptr) → Distinct xs → Absent o xs → Distinct (xs ++ o ∷ [])
Distinct-snoc o [] d a = (tt, tt)
Distinct-snoc o (x ∷ xs) d a =
    (append-Absent x xs (o ∷ []) d.0 ((λ e. a.0 (sym e)), tt), Distinct-snoc o xs d.1 a.1)

Distinct-drop :
    (o : Ptr) (pre post : List Ptr) → Distinct (pre ++ o ∷ post) → Distinct (pre ++ post)
Distinct-drop o [] post d = d.1
Distinct-drop o (x ∷ pre) post d =
    let (p, q) = Absent-append x pre (o ∷ post) d.0 in
    (append-Absent x pre post p q.1, Distinct-drop o pre post d.1)

-- The heap keeps the shares of every order when `push_back` and `unlink` write links.
shares-attach : (h : Heap) (t o x : Ptr) → (attach h t o x).shares ≡ (h x).shares
shares-attach h t o x = ground arith

shares-detach : (h : Heap) (o a b x : Ptr) → (detach h o a b x).shares ≡ (h x).shares
shares-detach h o a b x = ground arith

module _ (g h : Heap) (same : (x : Ptr) → (g x).shares ≡ (h x).shares) where
  total-same : (xs : List Ptr) → total g xs ≡ total h xs
  total-same [] = refl
  total-same (x ∷ xs) = ground (arith, same x, total-same xs)

  Sized-same : (xs : List Ptr) → Sized h xs → Sized g xs
  Sized-same [] s = tt
  Sized-same (x ∷ xs) s = (rw (same x) s.0, Sized-same xs s.1)

-- The link writes of `push_back`, by whether the queue was empty.
push_links :
    (h : Heap) (t o : Ptr)
    → (x : Ptr)
    → ((if t == null then set_prev (set_next h o null) o t else attach h t o) x).shares
      ≡ (h x).shares
push_links h t o x = ground arith

push-Linked :
    (h : Heap) (p t o : Ptr) (xs : List Ptr)
    → Linked h null p xs
    → Distinct xs
    → Absent o xs
    → o ≢ null
    → t ≡ last null xs
    → let h1 = set_prev (set_next h o null) o t in
      Linked
        (if t == null then h1 else set_next h1 t o)
        null
        (if t == null then o else p)
        (xs ++ o ∷ [])
push-Linked h p t o [] l d a n e = ground arith
push-Linked h p t o (x ∷ xs) l d a n e =
    let k = last-Absent null x xs (Absent-null h null p (x ∷ xs) l) in
    ground (arith, Linked-attach h null p o x xs l d a n)

last-append : (d o : Ptr) (xs : List Ptr) → last d (xs ++ o ∷ []) ≡ o
last-append d o [] = refl
last-append d o (x ∷ xs) = last-append x o xs

last-append_cons : (d x : Ptr) (xs ys : List Ptr) → last d (xs ++ x ∷ ys) ≡ last x ys
last-append_cons d x [] ys = refl
last-append_cons d x (z ∷ xs) ys = last-append_cons z x xs ys

unlink_head :
    (a b p : Ptr) (pre : List Ptr)
    → Absent null pre
    → a ≡ last null pre
    → (if a == null then b else p) ≡ start pre b p
unlink_head a b p [] n e = ground arith
unlink_head a b p (x ∷ pre) n e = let k = last-Absent null x pre n in ground arith

unlink_tail :
    (a b t o : Ptr) (pre post : List Ptr)
    → Absent null post
    → a ≡ last null pre
    → b ≡ first null post
    → t ≡ last null (pre ++ o ∷ post)
    → (if b == null then a else t) ≡ last null (pre ++ post)
unlink_tail a b t o pre [] n e f k = rw append-nil (ground arith)
unlink_tail a b t o pre (y ∷ ys) n e f k =
    ground (arith, last-append_cons null o pre (y ∷ ys), last-append_cons null y pre ys)

module _ (h : Heap) (l : Level) (o : Ptr) where
  -- `push_back` of a node that is not null and not in the queue puts it behind the others: links,
  -- tail, share total and count are exact and do not wrap, if its shares and the number of orders
  -- stay below 2^32.
  pub push_back-Queues :
      (xs : List Ptr)
      → Queues h l xs
      → Absent o xs
      → o ≢ null
      → (h o).shares < 2 ^ 32
      → length xs + 1 < 2 ^ 32
      → Queues (push_back h l o).0 (push_back h l o).1 (xs ++ o ∷ [])
  unfolding push_back
  push_back-Queues xs q a n small few =
      let same = push_links h l.tail o in
      let g = (push_back h l o).0 in
      record {
        linked = push-Linked h l.head l.tail o xs q.linked q.distinct a n q.tail;
        distinct = Distinct-snoc o xs q.distinct a;
        tail = sym (last-append null o xs);
        shares = omega (
          arith,
          total-same g h same (xs ++ o ∷ []),
          total-append h xs (o ∷ []),
          total_bound h xs q.sized,
          q.shares,
          q.few,
        );
        count = omega (arith, length-append {0} xs (o ∷ []), q.count);
        few = omega (arith, length-append {0} xs (o ∷ []));
        sized = Sized-same g h same (xs ++ o ∷ []) (Sized-append h xs (o ∷ []) q.sized (small, tt));
      }

  -- In a level whose queue is pre, o, post, `unlink` of o leaves a level whose queue is pre, post:
  -- links, tail, share total and count are exact.
  pub unlink-Queues :
      (pre post : List Ptr)
      → Queues h l (pre ++ o ∷ post)
      → Queues (unlink h l o).0 (unlink h l o).1 (pre ++ post)
  unfolding unlink
  unlink-Queues pre post q =
      let p = prev_of h null l.head o pre post q.linked in
      let n = next_of h null l.head o pre post q.linked in
      let nul = Absent-null h null l.head (pre ++ o ∷ post) q.linked in
      let np = Absent-append null pre (o ∷ post) nul in
      let same = shares-detach h o (h o).prev (h o).next in
      let g = (unlink h l o).0 in
      record {
        linked =
            rw (unlink_head (h o).prev (h o).next l.head pre np.0 p)
              (rw (p, n) (Linked-detach h null l.head o pre post q.linked nul q.distinct));
        distinct = Distinct-drop o pre post q.distinct;
        tail = unlink_tail (h o).prev (h o).next l.tail o pre post np.1.1 p n q.tail;
        shares = omega (
          arith,
          total-same g h same (pre ++ post),
          total-append h pre post,
          total-append h pre (o ∷ post),
          total_bound h (pre ++ o ∷ post) q.sized,
          q.shares,
          q.few,
        );
        count =
            omega
              (arith, length-append {0} pre (o ∷ post), length-append {0} pre post, q.count, q.few);
        few = omega (arith, length-append {0} pre (o ∷ post), length-append {0} pre post, q.few);
        sized =
            let (a, b) = Sized-split h pre (o ∷ post) q.sized in
            Sized-same g h same (pre ++ post) (Sized-append h pre post a b.1);
      }
