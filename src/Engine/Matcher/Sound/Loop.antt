-- ===== src/Engine/Matcher/Sound/Loop.antt =====
-- The matching loop keeps an engine sound, with its taker in flight.
use itchbook.Base.{
  ℕ, zero, suc, ◌<◌, ◌≡◌, refl, inl, inr, ◌&&◌, Option, none, some, arith, ◌==◌, Bool-cases,
}
use itchbook.Engine.OrderTypes.{
  OrderType, Stp, no_prevention, cancel_newest, cancel_oldest, cancel_both, Request, to_char,
  opposite,
}
use itchbook.Engine.Matcher.{Resting, BookOps, Meta, Matcher, lookup, crosses}
use itchbook.Engine.Matcher.Orders.{
  Loop, smaller, prevents, prevent, against, facing, round, match_from, match,
}
use itchbook.Engine.Matcher.Sound.{BookLaws, member, owing, Good}
use itchbook.Engine.Matcher.Sound.Moves.{cancel_meta-Good}
use itchbook.Engine.Matcher.Sound.Fills.{
  entry_at, resting-entered, fill_inside-Good, fill_outside-Good,
}

module _ {B : Type 0} {ops : BookOps B} (laws : BookLaws ops) where
  -- The engine behind a round, with the taker in flight.
  abbrev pub Flying : ℕ → Loop B → Type 0
  Flying t l = Good laws t (suc l.remaining) l.engine

  prevent-Flying :
      (t r : ℕ) (stp : Stp) (front : Resting) (maker : Meta) (k : Matcher B)
      → Good laws t (suc r) k
      → lookup front.ref k.orders ≡ some maker
      → owing t (suc r) front.ref ≡ 0
      → Flying t (prevent ops stp front maker k r)
  unfolding prevent
  prevent-Flying t r no_prevention front maker k s e o = s
  prevent-Flying t r cancel_newest front maker k s e o = s
  prevent-Flying t r cancel_oldest front maker k s e o =
      cancel_meta-Good laws t (suc r) front.ref maker k s e o
  prevent-Flying t r cancel_both front maker k s e o =
      cancel_meta-Good laws t (suc r) front.ref maker k s e o

  against-Flying :
      (req : Request) (r : ℕ) (front : Resting) (l : Option Meta) (k : Matcher B)
      → Good laws req.id (suc r) k
      → lookup front.ref k.orders ≡ l
      → laws.shares_of front.ref k.book ≡ front.shares
      → 0 < front.shares
      → Flying req.id (against ops req front l k r)
  unfolding against
  against-Flying req r front none k s e h z =
      fill_outside-Good laws req r (smaller r front.shares) front k s e (ground arith)
  against-Flying req r front (some maker) k s e h z =
      let held : 0 < laws.shares_of front.ref k.book = omega arith in
      let w =
        resting-entered laws (laws.shares_of front.ref k.book) (owing req.id (suc r) front.ref)
          (member front.ref k.pending_stops) front.ref maker
          (entry_at laws req.id (suc r) front.ref maker k s e) held in
      elim (Bool-cases (prevents ops req.stp && maker.req.owner == req.owner)) [
        | inl t ↦ rw t (prevent-Flying req.id r req.stp front maker k s e w.1.1.1)
        | inr t ↦ rw t (
            fill_inside-Good laws req r (smaller r front.shares) maker front k s e held
              (ground arith) (ground arith))
      ]

  facing-Flying :
      (req : Request) (type : OrderType) (r : ℕ) (o : Option Resting) (k : Matcher B)
      → Good laws req.id (suc r) k
      → ops.best_order (to_char (opposite req.side)) k.book ≡ o
      → Flying req.id (facing ops req type o k r)
  facing-Flying req type r none k s e = s
  facing-Flying req type r (some front) k s e =
      let (h, z) = laws.best_order-holds (to_char (opposite req.side)) k.book front e in
      elim (Bool-cases (crosses req type front.price)) [
        | inl t ↦ rw t (against-Flying req r front (lookup front.ref k.orders) k s refl h z)
        | inr t ↦ rw t s
      ]

  pub round-Flying :
      (req : Request) (type : OrderType) (r : ℕ) (k : Matcher B)
      → Good laws req.id (suc r) k
      → Flying req.id (round ops req type k r)
  unfolding round
  round-Flying req type r k s = elim (Bool-cases (r == 0)) [
    | inl t ↦ rw t s
    | inr t ↦ rw t (facing-Flying req type r _ k s refl)
  ]

  match_from-Flying :
      (n : ℕ) (req : Request) (type : OrderType) (r : ℕ) (k : Matcher B)
      → Good laws req.id (suc r) k
      → Flying req.id (match_from ops n req type k r)
  unfolding match_from
  match_from-Flying zero req type r k s = s
  match_from-Flying (suc n) req type r k s =
      let l = round ops req type k r in
      let g = round-Flying req type r k s in
      elim (Bool-cases l.again) [
        | inl t ↦ rw t (match_from-Flying n req type l.remaining l.engine g)
        | inr t ↦ rw t g
      ]

  pub match-Flying :
      (req : Request) (type : OrderType) (r : ℕ) (k : Matcher B)
      → Good laws req.id (suc r) k
      → Flying req.id (match ops req type k r)
  unfolding match
  match-Flying req type r k s = match_from-Flying _ req type r k s
