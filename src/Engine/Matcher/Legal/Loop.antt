-- ===== src/Engine/Matcher/Legal/Loop.antt =====
-- The moves of the matching loop are legal.
use itchbook.Base.{
  ℕ, zero, suc, ◌+◌, ◌*◌, ◌<◌, ◌≡◌, refl, ◌∙◌, inl, inr, true, false, ◌&&◌, Option, none, some,
  arith, ◌==◌, Bool-cases,
}
use itchbook.Engine.OrderTypes.{
  OrderType, is_terminal, Stp, no_prevention, cancel_newest, cancel_oldest, cancel_both, Request,
  to_char, opposite,
}
use itchbook.Engine.Matcher.{Resting, BookOps, Meta, Matcher, lookup, update, change, crosses}
use itchbook.Engine.Matcher.Orders.{
  smaller, fill_inside, fill_outside, prevents, prevent, against, facing, round, match_from, match,
}
use itchbook.Engine.Matcher.Sound.{is_live, BookLaws, member, owing, Good}
use itchbook.Engine.Matcher.Sound.Lists.{lookup-update}
use itchbook.Engine.Matcher.Sound.Fills.{entry_at, resting-entered, sold, bought}
use itchbook.Engine.Matcher.Sound.Loop.{round-Flying}
use itchbook.Engine.Matcher.Legal.{
  Steady, lookup-elsewhere, cancel_meta-Steady, settle_maker-Steady,
}

module _ {B : Type 0} {ops : BookOps B} (laws : BookLaws ops) where
  -- An order that is next to trade is alive, and is not the taker.
  next-live :
      (t r : ℕ) (front : Resting) (maker : Meta) (k : Matcher B)
      → Good laws t (suc r) k
      → lookup front.ref k.orders ≡ some maker
      → 0 < laws.shares_of front.ref k.book
      → (is_live maker.state ≡ true)
        × ((is_terminal maker.state ≡ false) × ((front.ref == t) ≡ false))
  next-live t r front maker k s e h =
      let q = entry_at laws t (suc r) front.ref maker k s e in
      let (a, (b, (c, d))) =
        resting-entered laws (laws.shares_of front.ref k.book) (owing t (suc r) front.ref)
          (member front.ref k.pending_stops) front.ref maker q h in
      (q.live (omega (arith, q.agrees)), (b, ground arith))

  fill_inside-Steady :
      (req : Request) (r qty : ℕ) (maker : Meta) (front : Resting) (k : Matcher B)
      → Good laws req.id (suc r) k
      → Steady laws k
      → lookup front.ref k.orders ≡ some maker
      → 0 < laws.shares_of front.ref k.book
      → Steady laws (fill_inside ops req maker front qty k)
  unfolding fill_inside change
  fill_inside-Steady req r qty maker front k s a e h =
      let (live, (b, apart)) = next-live req.id r front maker k s e h in
      settle_maker-Steady laws front.ref (sold laws qty maker) _ a
        (lookup-elsewhere front.ref req.id (bought laws qty)
            (update front.ref (sold laws qty) k.orders) apart
          ∙ lookup-update front.ref (sold laws qty) k.orders maker e)
        live

  prevent-Steady :
      (stp : Stp) (r : ℕ) (maker : Meta) (front : Resting) (k : Matcher B)
      → Steady laws k
      → lookup front.ref k.orders ≡ some maker
      → is_terminal maker.state ≡ false
      → Steady laws (prevent ops stp front maker k r).engine
  unfolding prevent
  prevent-Steady no_prevention r maker front k a e h = a
  prevent-Steady cancel_newest r maker front k a e h = a
  prevent-Steady cancel_oldest r maker front k a e h =
      cancel_meta-Steady laws front.ref maker k a e h
  prevent-Steady cancel_both r maker front k a e h = cancel_meta-Steady laws front.ref maker k a e h

  against-Steady :
      (req : Request) (r : ℕ) (front : Resting) (l : Option Meta) (k : Matcher B)
      → Good laws req.id (suc r) k
      → Steady laws k
      → lookup front.ref k.orders ≡ l
      → 0 < laws.shares_of front.ref k.book
      → Steady laws (against ops req front l k r).engine
  unfolding against fill_outside change
  against-Steady req r front none k s a e h = a
  against-Steady req r front (some maker) k s a e h =
      let (live, (b, apart)) = next-live req.id r front maker k s e h in
      elim (Bool-cases (prevents ops req.stp && maker.req.owner == req.owner)) [
        | inl t ↦ rw t (prevent-Steady req.stp r maker front k a e b)
        | inr t ↦ rw t (fill_inside-Steady req r (smaller r front.shares) maker front k s a e h)
      ]

  facing-Steady :
      (req : Request) (type : OrderType) (r : ℕ) (o : Option Resting) (k : Matcher B)
      → Good laws req.id (suc r) k
      → Steady laws k
      → ops.best_order (to_char (opposite req.side)) k.book ≡ o
      → Steady laws (facing ops req type o k r).engine
  facing-Steady req type r none k s a e = a
  facing-Steady req type r (some front) k s a e =
      let (h, z) = laws.best_order-holds (to_char (opposite req.side)) k.book front e in
      elim (Bool-cases (crosses req type front.price)) [
        | inl t ↦
            rw t (against-Steady req r front (lookup front.ref k.orders) k s a refl (omega arith))
        | inr t ↦ rw t a
      ]

  round-Steady :
      (req : Request) (type : OrderType) (r : ℕ) (k : Matcher B)
      → Good laws req.id (suc r) k
      → Steady laws k
      → Steady laws (round ops req type k r).engine
  unfolding round
  round-Steady req type r k s a = elim (Bool-cases (r == 0)) [
    | inl t ↦ rw t a
    | inr t ↦ rw t (facing-Steady req type r _ k s a refl)
  ]

  match_from-Steady :
      (n : ℕ) (req : Request) (type : OrderType) (r : ℕ) (k : Matcher B)
      → Good laws req.id (suc r) k
      → Steady laws k
      → Steady laws (match_from ops n req type k r).engine
  unfolding match_from
  match_from-Steady zero req type r k s a = a
  match_from-Steady (suc n) req type r k s a =
      let l = round ops req type k r in
      let b = round-Steady req type r k s a in
      elim (Bool-cases l.again) [
        | inl t ↦
            rw t (
              match_from-Steady n req type l.remaining l.engine (round-Flying laws req type r k s)
                b)
        | inr t ↦ rw t b
      ]

  pub match-Steady :
      (req : Request) (type : OrderType) (r : ℕ) (k : Matcher B)
      → Good laws req.id (suc r) k
      → Steady laws k
      → Steady laws (match ops req type k r).engine
  unfolding match
  match-Steady req type r k s a = match_from-Steady (2 * r + ops.held k.book + 1) req type r k s a
