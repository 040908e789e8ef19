-- ===== src/Tests/Books.antt =====
-- `Book` of book/book.hpp: refused references and the tape.
use itchbook.Base.{refl, [], ◌∷◌, arith}
use itchbook.Book.Order.{null, Heap}
use itchbook.Book.Pool.{make_pool}
use itchbook.Book.RefMap.{make_map, insert, find}
use itchbook.Book.RefMap.Find.{IsMap}
use itchbook.Book.RefMap.Grow.{make_map-IsMap, insert-IsMap}
use itchbook.Book.State.{State, make_book, fresh_tape}
use itchbook.Book.Tape.Prints.{record_all, real, Day, record_all-Day}
use itchbook.Book.Mutate.{find_order}
use itchbook.Book.Mutate.Refused.{AllGive, refusal, refuse_lem}

-- Order 7 is another book's.
abbrev memory : Heap
memory p = record {
  ref = 7;
  next = null;
  prev = null;
  shares = 100;
  price = 9800;
  level_idx = 0;
  locate = 2;
  side = b'B';
}

abbrev state : State
state = record {
  heap = memory;
  pool = make_pool 4 16;
  refs = insert (make_map 10) 7 1;
  book = make_book 1 100 20;
}

state-IsMap : IsMap state.refs
state-IsMap = insert-IsMap (make_map 10) 7 1 (make_map-IsMap 10).0 (omega arith)

refuse_lem_example : AllGive state 7 (refusal state 7)
unfolding find_order make_map insert find make_book
refuse_lem_example = refuse_lem state 7 state-IsMap refl

record_all-Day_example :
    Day
      (real ((100, 5) ∷ (0, 0) ∷ (90, 1) ∷ []))
      (record_all fresh_tape ((100, 5) ∷ (0, 0) ∷ (90, 1) ∷ []))
record_all-Day_example = record_all-Day ((100, 5) ∷ (0, 0) ∷ (90, 1) ∷ [])
