-- ===== src/Book/Mutate.antt =====
-- The mutating operations of `Book`: those of the feed's messages, and what they share.
pub mod Refused
use itchbook.Base.{
  ℕ, zero, suc, ◌+◌, ◌-◌, ◌*◌, ◌/◌, ◌%◌, ◌^◌, ◌≤◌, ◌<◌, min, ◌≡◌, refl, sym, ap, subst, ◌∙◌, ◌≢◌,
  ◌↔◌, ◌⊎◌, inl, inr, Bool, true, false, not, ◌&&◌, ◌||◌, Option, none, some, List, [], ◌∷◌, ◌++◌,
  map, arith, ltb, leb, ◌==◌, if◌then◌else◌, Bool-cases, length, length-append,
}
use itchbook.Base.Words.{add64, sub64}
use itchbook.Book.Order.{Ptr, null, Order, Heap, write, overflow_level}
use itchbook.Book.Level.{Level, resize}
use itchbook.Book.Pool.{Pool, allocate, deallocate}
use itchbook.Book.RefMap.{RefMap, find_index, slot_ptr, erase_at, erase, insert, find}
use itchbook.Book.Side.{
  Side, push, pop, level_of, set_level, map_set, make_side, banded, set_band, level_at, best_level,
}
use itchbook.Book.Side.Walk.{side_orders}
use itchbook.Book.State.{State, Book, Tape, side_for, with_side, is_buy}
use itchbook.Book.Tape.{record_trade, trade, cross}
use itchbook.Book.Band.{max_dense_levels, open_band_when_two_sided, maybe_recentre}

-- What `resolve` answers: the slot of an order of this book, or which counter it raises.
pub data Resolved : Type 0 where
  slot : ℕ → Resolved
  unknown mismatch : Resolved

unfoldable pub lookup : State → ℕ → Resolved
lookup st ref = elim (find_index st.refs ref) [
  | none ↦ unknown
  | some i ↦ if (st.heap (slot_ptr st.refs i)).locate == st.book.locate then slot i else mismatch
]

abbrev pub count_unknown : State → State
count_unknown st =
    let b = st.book in record st { book = record b { unknown_ref = b.unknown_ref + 1 } }

abbrev pub count_mismatch : State → State
count_mismatch st =
    let b = st.book in record st { book = record b { locate_mismatch = b.locate_mismatch + 1 } }

-- `resolve`, and the early return that every caller makes.
unfoldable pub resolving : State → ℕ → (ℕ → State) → State
resolving st ref k = elim (lookup st ref) [
  | slot i ↦ k i
  | unknown ↦ count_unknown st
  | mismatch ↦ count_mismatch st
]

unfoldable pub destroy : State → Ptr → ℕ → State
destroy st o i =
    let b = st.book in
    let n = st.heap o in
    let (h1, s) = pop st.heap (side_for b n.side) o in
    let (h2, p) = deallocate h1 st.pool o in
    record {
      heap = h2;
      pool = p;
      refs = erase_at st.refs i;
      book =
          with_side
            (record b {
              resting_shares = sub64 b.resting_shares n.shares;
              resting_orders = b.resting_orders - 1;
            })
            n.side s;
    }

-- `level_of(o)->resize(...)`, at the place of the level in the side.
unfoldable pub resize_level : Heap → Side → Ptr → ℕ → Side
resize_level h s o by =
    let n = h o in
    elim (level_of h s o) [
      | none ↦ s
      | some l ↦
          let l' = resize l n.shares (n.shares - by) in
          if n.level_idx == overflow_level
          then record s { overflow = map_set s.overflow n.price l' }
          else record s { dense = set_level s.dense n.level_idx l' }
    ]

unfoldable pub reduce : State → Ptr → ℕ → ℕ → State
reduce st o by i =
    let b = st.book in
    let n = st.heap o in
    if leb n.shares by then destroy st o i else record st {
      heap = write st.heap o (record n { shares = n.shares - by });
      book =
          with_side (record b { resting_shares = sub64 b.resting_shares by }) n.side
            (resize_level st.heap (side_for b n.side) o by);
    }

abbrev pub on_tape : State → (Tape → Tape) → State
on_tape st f = let b = st.book in record st { book = record b { tape = f b.tape } }

unfoldable pub execute : State → ℕ → ℕ → State
execute st ref shares = resolving st ref (λ i.
    let o = slot_ptr st.refs i in
    reduce (on_tape st (λ t. record_trade t (st.heap o).price shares)) o shares i)

unfoldable pub execute_with_price : State → ℕ → ℕ → ℕ → Bool → State
execute_with_price st ref shares price printable = resolving st ref (λ i.
    let st1 = if printable then on_tape st (λ t. record_trade t price shares) else st in
    reduce st1 (slot_ptr st.refs i) shares i)

unfoldable pub cancel : State → ℕ → ℕ → State
cancel st ref shares = resolving st ref (λ i. reduce st (slot_ptr st.refs i) shares i)

unfoldable pub take : State → ℕ → ℕ → State
take st ref shares = resolving st ref (λ i. reduce st (slot_ptr st.refs i) shares i)

unfoldable pub remove : State → ℕ → State
remove st ref = resolving st ref (λ i. destroy st (slot_ptr st.refs i) i)

-- The band of `add`: opened by the first price, or by the first two-sided quote.
unfoldable pub open_band : Heap → Book → ℕ → ℕ → Heap × Book
open_band h b side price =
    if banded b.bids
    then (h, b)
    else if b.band_levels == 0
    then (
      h,
      record b {
        bids = set_band b.bids price b.band_pct max_dense_levels;
        asks = set_band b.asks price b.band_pct max_dense_levels;
      },
    )
    else open_band_when_two_sided h b side price

-- The node of `add`: the links are those that the pool left.
abbrev pub filled_node : Order → ℕ → ℕ → ℕ → ℕ → ℕ → Order
filled_node n ref side price shares locate = record n {
  ref = ref;
  shares = shares;
  price = price;
  locate = locate;
  side = side;
}

-- `chunk` is the address that the system's allocator gives to a new chunk of the pool.
unfoldable pub add : State → ℕ → ℕ → ℕ → ℕ → Ptr → State
add st ref side price shares chunk =
    let (h0, b0) = open_band st.heap st.book side price in
    let (o, h1, p1) = allocate h0 st.pool chunk in
    let h2 = write h1 o (filled_node (h1 o) ref side price shares b0.locate) in
    let (h3, s) = push h2 (side_for b0 side) o in
    let b1 = with_side b0 side s in
    let b2 = record b1 {
      resting_orders = b1.resting_orders + 1;
      adds = b1.adds + 1;
      off_band_adds =
          if (h3 o).level_idx == overflow_level then b1.off_band_adds + 1 else b1.off_band_adds;
      resting_shares = add64 b1.resting_shares shares;
    } in
    let (h4, b3) = maybe_recentre h3 b2 in
    record { heap = h4; pool = p1; refs = insert st.refs ref o; book = b3 }

unfoldable pub replace : State → ℕ → ℕ → ℕ → ℕ → Ptr → State
replace st orig_ref new_ref price shares chunk = resolving st orig_ref (λ i.
    let o = slot_ptr st.refs i in add (destroy st o i) new_ref (st.heap o).side price shares chunk)

-- The loop of `release_all_orders`: the successor of an order is read before it is released.
unfoldable pub release : State → List Ptr → State
release st [] = st
release st (o ∷ os) =
    let (m, done) = erase st.refs (st.heap o).ref in
    let (h, p) = deallocate st.heap st.pool o in
    release (record st { heap = h; pool = p; refs = m }) os

unfoldable pub clear_orders : State → State
unfolding release
clear_orders st =
    let st1 = release st (side_orders st.heap st.book.bids) in
    let st2 = release st1 (side_orders st1.heap st.book.asks) in
    let b = st2.book in
    record st2 {
      book = record b {
        bids = make_side true b.tick;
        asks = make_side false b.tick;
        resting_orders = 0;
        resting_shares = 0;
      };
    }

unfoldable pub note_feed_trade : State → ℕ → ℕ → State
note_feed_trade st price shares = on_tape st (λ t. record_trade t price shares)

-- `Book::find`: agrees with `resolve`, and counts nothing.
unfoldable pub find_order : State → ℕ → Ptr
find_order st ref =
    let o = find st.refs ref in
    if not (o == null) && ((st.heap o).locate == st.book.locate) then o else null

abbrev pub head_of : Option Level → Ptr
head_of none = null
head_of (some l) = l.head

abbrev pub shares_of : Option Level → ℕ
shares_of none = 0
shares_of (some l) = l.shares

unfoldable pub best_order : Book → ℕ → Ptr
best_order b side = head_of (best_level (side_for b side))

unfoldable pub first_order : Book → ℕ → ℕ → Ptr
first_order b side price = head_of (level_at (side_for b side) price)

unfoldable pub shares_at : Book → ℕ → ℕ → ℕ
shares_at b side price = shares_of (level_at (side_for b side) price)
