-- ===== src/Book/Band.antt =====
-- The policies of `Book` that open and move the dense band: `open_band_when_two_sided`,
-- `maybe_recentre` and `move_band_to` of book/book.hpp.
use itchbook.Base.{
  ℕ, ◌+◌, ◌*◌, ◌/◌, ◌^◌, true, not, ◌||◌, Option, none, some, List, [], ◌∷◌, ◌++◌, ltb, ◌==◌,
  if◌then◌else◌,
}
use itchbook.Book.Order.{Ptr, Heap}
use itchbook.Book.Side.{Side, push, best, banded, clear_levels, set_band_slots}
use itchbook.Book.Side.Walk.{side_orders}
use itchbook.Book.State.{Book, side_for, with_side, is_buy}

-- `kMaxDenseLevels`, `kRecentreWindow` and `kRecentrePercent`.
abbrev pub max_dense_levels : ℕ
max_dense_levels = 2 ^ 22

abbrev pub recentre_window : ℕ
recentre_window = 1000

abbrev pub recentre_percent : ℕ
recentre_percent = 10

-- `for (Order* o : all) side_for(o->side).push(o)`.
unfoldable pub push_all : Heap → Book → List Ptr → Heap × Book
push_all h b [] = (h, b)
push_all h b (o ∷ os) =
    let (h1, s) = push h (side_for b (h o).side) o in push_all h1 (with_side b (h o).side s) os

unfoldable pub rebanded : Side → ℕ → ℕ → Side
rebanded s center levels = set_band_slots (clear_levels s) center levels

-- Every resting order is collected, the levels are dropped, and the orders are pushed back.
unfoldable pub move_band_to : Heap → Book → ℕ → Heap × Book
unfolding push_all
move_band_to h b center =
    let all = side_orders h b.bids ++ side_orders h b.asks in
    push_all h
      (record b {
        bids = rebanded b.bids center b.band_levels;
        asks = rebanded b.asks center b.band_levels;
      })
      all

abbrev pub raise_pending : Option ℕ → ℕ → Option ℕ
raise_pending none p = some p
raise_pending (some q) p = if ltb q p then some p else some q

abbrev pub lower_pending : Option ℕ → ℕ → Option ℕ
lower_pending none p = some p
lower_pending (some q) p = if ltb p q then some p else some q

abbrev pub note_pending : Book → ℕ → ℕ → Book
note_pending b side price =
    if is_buy side
    then record b { pending_bid = raise_pending b.pending_bid price }
    else record b { pending_ask = lower_pending b.pending_ask price }

unfoldable pub open_band_when_two_sided : Heap → Book → ℕ → ℕ → Heap × Book
open_band_when_two_sided h b side price =
    let b1 = note_pending b side price in
    elim b1.pending_bid [
      | none ↦ (h, b1)
      | some bid ↦ elim b1.pending_ask [
        | none ↦ (h, b1)
        | some ask ↦ move_band_to h b1 ((bid + ask) / 2)
      ]
    ]

unfoldable pub maybe_recentre : Heap → Book → Heap × Book
maybe_recentre h b =
    if b.band_levels == 0 || b.recentre_checked || not (banded b.bids)
    then (h, b)
    else if ltb b.adds recentre_window
    then (h, b)
    else (let b1 = record b { recentre_checked = true } in
        if ltb (b.off_band_adds * 100) (b.adds * recentre_percent)
        then (h, b1)
        else elim (best b.bids) [
          | none ↦ (h, b1)
          | some bid ↦ elim (best b.asks) [
            | none ↦ (h, b1)
            | some ask ↦
                let (h2, b2) = move_band_to h b1 ((bid + ask) / 2) in
                (h2, record b2 { recentres = b2.recentres + 1 })
          ]
        ])
