-- ===== src/Engine/Matcher/Sound/Rounds.antt =====
-- The matching loop ends by its own tests before the rounds run out.
use itchbook.Base.{
  ℕ, zero, suc, ◌+◌, ◌*◌, ◌≤◌, ◌<◌, ◌≡◌, refl, inl, inr, true, ◌&&◌, Option, none, some, arith, ltb,
  ◌==◌, Bool-cases,
}
use itchbook.Engine.OrderTypes.{
  OrderType, Stp, no_prevention, cancel_newest, cancel_oldest, cancel_both, Request, to_char,
  opposite,
}
use itchbook.Engine.Matcher.{Resting, BookOps, Meta, Matcher, lookup, crosses, change, transition}
use itchbook.Engine.Matcher.Orders.{
  Loop, smaller, leave_book, cancel_meta, refresh_iceberg, settle_maker, fill_inside, fill_outside,
  prevents, prevent, against, facing, round, match_from, match,
}
use itchbook.Engine.Matcher.Sound.{BookLaws, Good}
use itchbook.Engine.Matcher.Sound.Fills.{entry_at}
use itchbook.Engine.Matcher.Sound.Loop.{round-Flying}

-- How the changes move the number of orders that a book holds.
pub record BookCounts {B : Type 0} (ops : BookOps B) : Type 0 where
  pub take-held : (i q : ℕ) (b : B) → ops.held (ops.take i q b) ≤ ops.held b
  pub add-held :
      (i side price s : ℕ) (b : B) → ops.held (ops.add i side price s b) ≤ suc (ops.held b)
  pub remove-held :
      (side : ℕ) (b : B) (o : Resting)
      → ops.best_order side b ≡ some o
      → suc (ops.held (ops.remove o.ref b)) ≤ ops.held b

module _ {B : Type 0} {ops : BookOps B} (laws : BookLaws ops) (counts : BookCounts ops) where
  -- What bounds the rounds that are left.
  abbrev pub measure : Matcher B → ℕ → ℕ
  measure k r = 2 * r + ops.held k.book

  settle_bound :
      (i : ℕ) (k : Matcher B) (l : Option Meta)
      → lookup i k.orders ≡ l
      → ops.held (settle_maker ops i k).book ≤ suc (ops.held k.book)
  unfolding settle_maker refresh_iceberg transition change
  settle_bound i k none e = rw (settle_maker, e) (omega arith)
  settle_bound i k (some m) e = elim (Bool-cases (m.resting == 0)) [
    | inl u ↦ elim (Bool-cases (ltb 0 m.hidden)) [
      | inl v ↦ rw (settle_maker, e, u, v) (counts.add-held _ _ _ _ k.book)
      | inr v ↦ rw (settle_maker, e, u, v) (omega arith)
    ]
    | inr u ↦ rw (settle_maker, e, u) (omega arith)
  ]

  settled :
      (i : ℕ) (k : Matcher B) (b : B)
      → ops.held k.book ≤ ops.held b
      → ops.held (settle_maker ops i k).book ≤ suc (ops.held b)
  settled i k b h = let a = settle_bound i k (lookup i k.orders) refl in omega (arith, a, h)

  fill_inside_bound :
      (req : Request) (maker : Meta) (front : Resting) (qty : ℕ) (k : Matcher B)
      → ops.held (fill_inside ops req maker front qty k).book ≤ suc (ops.held k.book)
  unfolding fill_inside change
  fill_inside_bound req maker front qty k =
      settled front.ref _ k.book (counts.take-held front.ref qty k.book)

  fill_outside_bound :
      (req : Request) (front : Resting) (qty : ℕ) (k : Matcher B)
      → ops.held (fill_outside ops req front qty k).book ≤ ops.held k.book
  unfolding fill_outside change
  fill_outside_bound req front qty k = counts.take-held front.ref qty k.book

  -- An order of which shares rest leaves the book when it is cancelled.
  cancel_meta_bound :
      (side : ℕ) (front : Resting) (m : Meta) (k : Matcher B)
      → ops.best_order side k.book ≡ some front
      → m.req.id ≡ front.ref
      → m.in_book ≡ true
      → suc (ops.held (cancel_meta ops front.ref m k).book) ≤ ops.held k.book
  unfolding cancel_meta leave_book transition change
  cancel_meta_bound side front m k e n u = rw (u, n) (counts.remove-held side k.book front e)

  prevent-shrinks :
      (side r : ℕ) (stp : Stp) (front : Resting) (m : Meta) (k : Matcher B)
      → ops.best_order side k.book ≡ some front
      → m.req.id ≡ front.ref
      → m.in_book ≡ true
      → (prevent ops stp front m k r).again ≡ true
      → measure (prevent ops stp front m k r).engine (prevent ops stp front m k r).remaining
        < measure k r
  unfolding prevent
  prevent-shrinks side r no_prevention front m k e n u a = absurd (ground arith)
  prevent-shrinks side r cancel_newest front m k e n u a = absurd (ground arith)
  prevent-shrinks side r cancel_oldest front m k e n u a =
      let w = cancel_meta_bound side front m k e n u in omega (arith, w)
  prevent-shrinks side r cancel_both front m k e n u a = absurd (ground arith)

  abbrev Shrinks : Matcher B → ℕ → Loop B → Type 0
  Shrinks k r l = l.again ≡ true → measure l.engine l.remaining < measure k r

  against-Shrinks :
      (req : Request) (side r : ℕ) (front : Resting) (l : Option Meta) (k : Matcher B)
      → Good laws req.id (suc r) k
      → ops.best_order side k.book ≡ some front
      → lookup front.ref k.orders ≡ l
      → 0 < r
      → Shrinks k r (against ops req front l k r)
  unfolding against
  against-Shrinks req side r front none k s e f z =
      let (h, p) = laws.best_order-holds side k.book front e in
      let w = fill_outside_bound req front (smaller r front.shares) k in λ a. ground arith
  against-Shrinks req side r front (some maker) k s e f z =
      let (h, p) = laws.best_order-holds side k.book front e in
      let q = entry_at laws req.id (suc r) front.ref maker k s f in
      let w = fill_inside_bound req maker front (smaller r front.shares) k in
      let u : maker.in_book ≡ true = elim (Bool-cases maker.in_book) [
        | inl t ↦ t
        | inr t ↦ absurd (let y = q.absent t in omega (arith, q.agrees, h, p, y))
      ] in
      elim (Bool-cases (prevents ops req.stp && maker.req.owner == req.owner)) [
        | inl t ↦ rw t (prevent-shrinks side r req.stp front maker k e q.named u)
        | inr t ↦ rw t (λ a. ground arith)
      ]

  facing-Shrinks :
      (req : Request) (type : OrderType) (r : ℕ) (o : Option Resting) (k : Matcher B)
      → Good laws req.id (suc r) k
      → ops.best_order (to_char (opposite req.side)) k.book ≡ o
      → 0 < r
      → Shrinks k r (facing ops req type o k r)
  facing-Shrinks req type r none k s e z = λ a. absurd (ground arith)
  facing-Shrinks req type r (some front) k s e z =
      elim (Bool-cases (crosses req type front.price)) [
        | inl t ↦ rw t (
            against-Shrinks req (to_char (opposite req.side)) r front (lookup front.ref k.orders) k
              s e refl z)
        | inr t ↦ rw t (λ a. absurd (ground arith))
      ]

  round-Shrinks :
      (req : Request) (type : OrderType) (r : ℕ) (k : Matcher B)
      → Good laws req.id (suc r) k
      → Shrinks k r (round ops req type k r)
  unfolding round
  round-Shrinks req type r k s = elim (Bool-cases (r == 0)) [
    | inl t ↦ rw t (λ a. absurd (ground arith))
    | inr t ↦ rw t (facing-Shrinks req type r _ k s refl (ground arith))
  ]

  -- More rounds than the measure all come to the same.
  rounds_enough :
      (n m : ℕ) (req : Request) (type : OrderType) (r : ℕ) (k : Matcher B)
      → Good laws req.id (suc r) k
      → measure k r < n
      → measure k r < m
      → match_from ops n req type k r ≡ match_from ops m req type k r
  unfolding match_from
  rounds_enough zero m req type r k s h g = absurd (omega arith)
  rounds_enough (suc n) zero req type r k s h g = absurd (omega arith)
  rounds_enough (suc n) (suc m) req type r k s h g =
      let l = round ops req type k r in
      let v = round-Shrinks req type r k s in
      elim (Bool-cases l.again) [
        | inl t ↦
            let w = v t in
            rw t (
              rounds_enough n m req type l.remaining l.engine (round-Flying laws req type r k s)
                (omega (arith, w)) (omega (arith, w)))
        | inr t ↦ rw t refl
      ]

  -- In a sound engine with its taker in flight, on a book that keeps the laws of its interface and
  -- counts its orders, the matching loop comes to the same with any more rounds than twice the
  -- shares left and the orders of the book, so it ends by its own tests.
  pub match-ends :
      (n : ℕ) (req : Request) (type : OrderType) (r : ℕ) (k : Matcher B)
      → Good laws req.id (suc r) k
      → 2 * r + ops.held k.book < n
      → match_from ops n req type k r ≡ match ops req type k r
  unfolding match
  match-ends n req type r k s h = rounds_enough n _ req type r k s h (omega arith)
