-- ===== src/Engine/OnBook.antt =====
-- What engine/matcher.hpp calls of its book, on the book of book/book.hpp. The address of the next
-- chunk of the pool is the system's choice.
use itchbook.Base.{ℕ, Option, none, some, map, ◌==◌, if◌then◌else◌}
use itchbook.Book.Order.{Ptr, null}
use itchbook.Book.Side.{LevelView}
use itchbook.Book.State.{State, side_for}
use itchbook.Book.Mutate.{best_order, find_order, take, add, remove}
use itchbook.Book.Query.{top}
use itchbook.Engine.Matcher.{Resting, BookOps}

abbrev resting_at : State → Ptr → Option Resting
resting_at st o =
    if o == null
    then none
    else some
        (record { ref = (st.heap o).ref; price = (st.heap o).price; shares = (st.heap o).shares })

abbrev level_of : LevelView → ℕ × ℕ
level_of v = (v.price, v.shares)

unfoldable pub book_ops : (State → Ptr) → BookOps State
book_ops chunk = record {
  best_order = λ side st. resting_at st (best_order st.book side);
  top = λ side levels st. map level_of (top (side_for st.book side) levels);
  find = λ ref st. let o = find_order st ref in if o == null then none else some (st.heap o).shares;
  take = λ ref shares st. take st ref shares;
  add = λ ref side price shares st. add st ref side price shares (chunk st);
  remove = λ ref st. remove st ref;
  held = λ st. st.book.resting_orders;
}
