-- ===== src/Book/Query.antt =====
-- The queries of `Book` on both sides, the merged view of a side's levels that `Side::top` makes,
-- and the state of the tape that a snapshot takes.
pub mod Crossing
use itchbook.Base.{
  ℕ, zero, suc, ◌+◌, ◌-◌, ◌*◌, ◌/◌, ◌%◌, ◌^◌, ◌≤◌, ◌<◌, min, ◌≡◌, refl, sym, ap, subst, ◌∙◌, ◌≢◌,
  ◌↔◌, ◌⊎◌, inl, inr, Bool, true, false, not, ◌&&◌, ◌||◌, Option, none, some, List, [], ◌∷◌, ◌++◌,
  map, arith, ltb, leb, ◌==◌, if◌then◌else◌, Bool-cases, length, length-append,
}
use itchbook.Book.Order.{Ptr, Heap}
use itchbook.Book.Level.{Level, empty}
use itchbook.Book.Side.{Side, LevelView, LevelMap, best, better, price_at, settle, level_at}
use itchbook.Book.Side.Walk.{level_orders}
use itchbook.Book.State.{Book, Tape, side_for}

-- A test on the best prices, where there are both.
abbrev pub both : (ℕ → ℕ → Bool) → Option ℕ → Option ℕ → Bool
both f none ask = false
both f (some bid) none = false
both f (some bid) (some ask) = f bid ask

unfoldable pub locked : Book → Bool
locked b = both (λ bid ask. bid == ask) (best b.bids) (best b.asks)

unfoldable pub strictly_crossed : Book → Bool
strictly_crossed b = both (λ bid ask. ltb ask bid) (best b.bids) (best b.asks)

unfoldable pub crossed : Book → Bool
crossed b = both (λ bid ask. leb ask bid) (best b.bids) (best b.asks)

-- The map in the order in which `top` walks it.
unfoldable pub reversed : LevelMap → LevelMap → LevelMap
reversed [] acc = acc
reversed (e ∷ m) acc = reversed m (e ∷ acc)

abbrev pub walk_order : Side → LevelMap
walk_order s = if s.is_bid then reversed s.overflow [] else s.overflow

-- The dense walker one place on, and on to a level in use.
unfoldable pub next_dense : Side → ℕ → Option ℕ
next_dense s i = if s.is_bid then (if i == 0 then none else settle s (i - 1)) else settle s (i + 1)

abbrev pub view : ℕ → Level → LevelView
view price l = record { price = price; shares = l.shares; count = l.count }

-- The loop of `top`: `n` levels are still wanted.
unfoldable pub top_from : Side → ℕ → Option ℕ → LevelMap → List LevelView
top_from s zero d m = []
top_from s (suc n) none [] = []
top_from s (suc n) none ((k, l) ∷ m) = view k l ∷ top_from s n none m
top_from s (suc n) (some i) [] = view (price_at s i) (s.dense i) ∷ top_from s n (next_dense s i) []
top_from s (suc n) (some i) ((k, l) ∷ m) =
    let dense = view (price_at s i) (s.dense i) ∷ top_from s n (next_dense s i) ((k, l) ∷ m) in
    let over = view k l ∷ top_from s n (some i) m in
    if better s (price_at s i) k then dense else over

-- The cursor, parked on a level in use.
unfoldable pub first_dense : Side → Option ℕ
first_dense s = elim s.cursor [
  | none ↦ none
  | some c ↦ if ltb 0 s.dense_nonempty && ltb c s.dense_size then settle s c else none
]

unfoldable pub top : Side → ℕ → List LevelView
top s levels = top_from s levels (first_dense s) (walk_order s)

-- `for_each_order`: the orders of the levels that `top` lists, best first.
abbrev pub orders_at : Heap → Option Level → List Ptr
orders_at h none = []
orders_at h (some l) = level_orders h l

unfoldable pub orders_of : Heap → Side → List LevelView → List Ptr
orders_of h s [] = []
orders_of h s (v ∷ vs) = orders_at h (level_at s v.price) ++ orders_of h s vs

unfoldable pub for_each_order : Heap → Book → ℕ → List Ptr
for_each_order h b side = let s = side_for b side in orders_of h s (top s (2 ^ 22 * 4))
