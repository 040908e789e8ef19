-- ===== src/Tests/Engines.antt =====
-- engine/: a matcher on a small book.
use itchbook.Base.{
  ℕ, ◌+◌, ◌-◌, ◌<◌, ◌≡◌, refl, sym, ap, ◌∙◌, ◌&&◌, Option, none, some, [], ◌∷◌, arith, ltb, ◌==◌,
  if◌then◌else◌,
}
use itchbook.Engine.OrderTypes.{stop_market, Side, buy, sell, limit, Request, cancel_newest}
use itchbook.Engine.Matcher.{
  stop_is_triggered, Resting, BookOps, Meta, new_meta, lookup, Matcher, make_matcher, validate,
  transition, change, update, emplace, crosses,
}
use itchbook.Engine.Matcher.Orders.{
  match, match_from, round, against, fill_inside, settle_maker, rest,
}
use itchbook.Engine.Matcher.Run.{
  enter, run_with, trade, conclude, come_to_rest, fire_stops, fire_from, elect, fired,
  has_liquidity,
}
use itchbook.Engine.Matcher.Submit.{submit, admit, park}
use itchbook.Engine.Matcher.Sound.{BookLaws}
use itchbook.Engine.Matcher.Sound.Fair.{AllFrom, Fair, traded, match-fills}
use itchbook.Engine.Matcher.Sound.Pending.{fire_stops-ends}
use itchbook.Engine.Matcher.Sound.Runs.{order, run}

-- A book as the shares of each reference, of which only the reference 7 is ever next to trade, as a
-- sell order at the price 100.
abbrev Shares : Type 0
Shares = ℕ → ℕ

abbrev front_of : ℕ → ℕ → Option Resting
front_of side n =
    if side == b'S' && ltb 0 n then some (record { ref = 7; price = 100; shares = n }) else none

abbrev small : BookOps Shares
small = record {
  best_order = λ side b. front_of side (b 7);
  top = λ side n b. (100, b 7) ∷ [];
  find = λ i b. if ltb 0 (b i) then some (b i) else none;
  take = λ i q b. λ j. if j == i then b i - q else b j;
  add = λ i side price s b. λ j. if j == i then s else b j;
  remove = λ i b. λ j. if j == i then 0 else b j;
  held = λ b. if ltb 0 (b 7) then 1 else 0;
}

front-held :
    (side n : ℕ) (o : Resting) → front_of side n ≡ some o → (o.ref ≡ 7) × ((o.shares ≡ n) × (0 < n))
front-held side n o e = ground arith

small_laws : BookLaws small
small_laws = record {
  shares_of = λ i b. b i;
  best_order-holds =
      λ side b o e. let (r, (s, z)) = front-held side (b 7) o e in (ap b r ∙ sym s, omega arith);
  take-shares = λ i q j b. refl;
  remove-shares = λ i j b. refl;
  add-shares = λ i side price s j b h. refl;
}

abbrev request : ℕ → ℕ → Side → ℕ → Request
request i owner side quantity = record {
  id = i;
  owner = owner;
  side = side;
  type = limit;
  price = 100;
  stop_price = 0;
  quantity = quantity;
  display = 0;
  stp = cancel_newest;
}

abbrev empty_book : Shares
empty_book i = 0

-- The engine with the sell order.
abbrev with_seven : Matcher Shares
with_seven = run small_laws (order (request 7 1 sell 5) ∷ []) (make_matcher empty_book)

abbrev newcomer : Meta
newcomer = new_meta (request 8 2 buy 3)

-- The buy order is recorded, and then it is counted in.
abbrev recorded : Matcher Shares
recorded = record with_seven { orders = emplace 8 newcomer with_seven.orders }

match-fills_example :
    let l = match small (request 8 2 buy 3) limit (enter small newcomer recorded) 3 in
    AllFrom (Fair (request 8 2 buy 3) limit) 0 l.engine.fills
    × (traded 0 l.engine.fills + l.remaining ≡ 3)
unfolding make_matcher submit validate admit run_with enter trade match match_from round against
    fill_inside settle_maker transition change update lookup emplace conclude come_to_rest rest
    fire_stops fire_from elect fired crosses has_liquidity small_laws
match-fills_example = match-fills small (request 8 2 buy 3) limit (enter small newcomer recorded) 3

-- A sell stop that waits for a trade at 90.
abbrev stopped : Matcher Shares
stopped =
    (submit small (record (request 9 3 sell 2) { type = stop_market; stop_price = 90 })
      with_seven).0

fire_stops-ends_example : fire_from small 5 stopped ≡ fire_stops small stopped
unfolding make_matcher submit validate admit run_with enter trade match match_from round against
    fill_inside settle_maker transition change update lookup emplace conclude come_to_rest rest
    fire_stops fire_from elect fired crosses has_liquidity park stop_is_triggered
fire_stops-ends_example = fire_stops-ends small 5 stopped (omega arith)
