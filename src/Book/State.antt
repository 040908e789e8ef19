-- ===== src/Book/State.antt =====
-- `Book` of book/book.hpp: its own fields, the tape, and the memory, pool and reference map that it
-- mutates. Prices are at least 0; `none` is the source's -1.
use itchbook.Base.{ℕ, Bool, true, false, Option, none, List, [], ◌==◌, if◌then◌else◌}
use itchbook.Book.Order.{Heap}
use itchbook.Book.Pool.{Pool}
use itchbook.Book.RefMap.{RefMap}
use itchbook.Book.Side.{Side, make_side}

-- What the book records of trades.
pub record Tape : Type 0 where
  pub volume : ℕ
  pub notional : ℕ
  pub trades : ℕ
  pub hidden_volume : ℕ
  pub cross_volume : ℕ
  pub open_price : Option ℕ
  pub high : Option ℕ
  pub low : Option ℕ
  pub close : Option ℕ
  pub cross_prices : List (ℕ × ℕ)

abbrev pub fresh_tape : Tape
fresh_tape = record {
  volume = 0;
  notional = 0;
  trades = 0;
  hidden_volume = 0;
  cross_volume = 0;
  open_price = none;
  high = none;
  low = none;
  close = none;
  cross_prices = [];
}

pub record Book : Type 0 where
  pub locate : ℕ
  pub tick : ℕ
  pub band_pct : ℕ
  pub band_levels : ℕ
  pub pending_bid : Option ℕ
  pub pending_ask : Option ℕ
  pub recentre_checked : Bool
  pub bids : Side
  pub asks : Side
  pub resting_orders : ℕ
  pub adds : ℕ
  pub off_band_adds : ℕ
  pub recentres : ℕ
  pub resting_shares : ℕ
  pub unknown_ref : ℕ
  pub locate_mismatch : ℕ
  pub tape : Tape

pub record State : Type 0 where
  pub heap : Heap
  pub pool : Pool
  pub refs : RefMap
  pub book : Book

unfoldable pub make_book : ℕ → ℕ → ℕ → Book
make_book locate tick band_pct = record {
  locate = locate;
  tick = tick;
  band_pct = band_pct;
  band_levels = 0;
  pending_bid = none;
  pending_ask = none;
  recentre_checked = false;
  bids = make_side true tick;
  asks = make_side false tick;
  resting_orders = 0;
  adds = 0;
  off_band_adds = 0;
  recentres = 0;
  resting_shares = 0;
  unknown_ref = 0;
  locate_mismatch = 0;
  tape = fresh_tape;
}

-- `side_for`: whether a side character names the bids.
abbrev pub is_buy : ℕ → Bool
is_buy side = side == b'B'

abbrev pub side_for : Book → ℕ → Side
side_for b side = if is_buy side then b.bids else b.asks

abbrev pub with_side : Book → ℕ → Side → Book
with_side b side s = if is_buy side then record b { bids = s } else record b { asks = s }
