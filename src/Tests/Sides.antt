-- ===== src/Tests/Sides.antt =====
-- `Side` of book/book.hpp with a band of nine cents around a price of a dollar.
use itchbook.Base.{◌+◌, ◌*◌, ◌<◌, ◌≡◌, refl, sym, ◌∙◌, true, arith}
use itchbook.Book.Order.{null, Heap}
use itchbook.Book.Level.{push_back, empty}
use itchbook.Base.Ints.{pos, negsuc, to_int32}
use itchbook.Book.Side.{
  Side, make_side, set_band_slots, push, pop, best, index_of, price_at, int32_price_at, push_dense,
  level_filled,
}
use itchbook.Book.Side.Grid.{price_at-index_of, index_of-price_at}
use itchbook.Book.Side.Best.{IsSide, IsBestPrice, best_lem}
use itchbook.Book.Side.Fresh.{make_side-IsSide, set_band_slots-IsSide}
use itchbook.Book.Side.Moves.{push-IsSide, pop-IsSide}

-- A bid at each address, of a price that the address tells.
abbrev memory : Heap
memory p = record {
  ref = p;
  next = null;
  prev = null;
  shares = 100;
  price = 9800 + p * 100;
  level_idx = 0;
  locate = 1;
  side = b'B';
}

abbrev bids : Side
bids = set_band_slots (make_side true 100) 10000 9

bids-IsSide : IsSide bids
unfolding make_side
bids-IsSide =
    set_band_slots-IsSide (make_side true 100) 10000 9 (make_side-IsSide true 100 (omega arith))
      refl (omega arith)

index_of-price_at_example :
    (int32_price_at bids 3 ≡ pos (price_at bids 3)) × (index_of bids (price_at bids 3) ≡ 3)
unfolding set_band_slots make_side price_at
index_of-price_at_example = index_of-price_at bids 3 (omega arith) (omega arith) (omega arith)

-- In a band around a stub quote the place above the last price wraps.
abbrev stub : Side
stub = record bids { base = 1999999900; tick = 100000000; dense_size = 3 }

beyond : int32_price_at stub 2 ≡ negsuc 2094967395
unfolding int32_price_at price_at to_int32 set_band_slots make_side
beyond = refl

in_band : index_of bids 9900 ≡ 3
unfolding set_band_slots make_side index_of
in_band = refl

price_at-index_of_example :
    (index_of bids 9900 < bids.dense_size) × (price_at bids (index_of bids 9900) ≡ 9900)
unfolding set_band_slots make_side
price_at-index_of_example =
    price_at-index_of bids 9900 (omega arith) (λ e. absurd (let f = sym in_band ∙ e in omega arith))

push-IsSide_example : IsSide (push memory bids 1).1
unfolding set_band_slots make_side index_of
push-IsSide_example = push-IsSide memory bids 1 bids-IsSide (omega arith)

best_lem_example : IsBestPrice (push memory bids 1).1 (best (push memory bids 1).1)
best_lem_example = best_lem (push memory bids 1).1 push-IsSide_example

pop-IsSide_example : IsSide (pop (push memory bids 1).0 (push memory bids 1).1 1).1
unfolding push set_band_slots make_side index_of push_dense push_back empty level_filled
pop-IsSide_example =
    pop-IsSide (push memory bids 1).0 (push memory bids 1).1 1 push-IsSide_example refl
      (omega arith) (omega arith)
