-- ===== src/Book/Level.antt =====
-- book/level.hpp: one price level, an intrusive first-in first-out list of orders.
pub mod Chain
pub mod Push
pub mod Unlink
pub mod Queue
pub mod Resize
use itchbook.Base.{ℕ, zero, suc, ◌+◌, ◌==◌, if◌then◌else◌, Bool}
use itchbook.Base.Words.{add32, sub32, add64, sub64}
use itchbook.Book.Order.{Ptr, null, Heap, set_next, set_prev}

pub record Level : Type 0 where
  pub head : Ptr
  pub tail : Ptr
  pub shares : ℕ
  pub count : ℕ

abbrev pub empty_level : Level
empty_level = record { head = null; tail = null; shares = 0; count = 0 }

unfoldable pub empty : Level → Bool
empty l = l.count == 0

-- `push_back`: the order at `o` joins the back of the queue.
unfoldable pub push_back : Heap → Level → Ptr → Heap × Level
push_back h l o =
    let h1 = set_prev (set_next h o null) o l.tail in
    let h2 = if l.tail == null then h1 else set_next h1 l.tail o in
    (
      h2,
      record {
        head = if l.tail == null then o else l.head;
        tail = o;
        shares = add64 l.shares (h o).shares;
        count = add32 l.count 1;
      },
    )

-- `unlink`: the order at `o` leaves the queue, from wherever it stands.
unfoldable pub unlink : Heap → Level → Ptr → Heap × Level
unlink h l o =
    let p = (h o).prev in
    let n = (h o).next in
    let h1 = if p == null then h else set_next h p n in
    let h2 = if n == null then h1 else set_prev h1 n p in
    let h3 = set_prev (set_next h2 o null) o null in
    (
      h3,
      record {
        head = if p == null then n else l.head;
        tail = if n == null then p else l.tail;
        shares = sub64 l.shares (h o).shares;
        count = sub32 l.count 1;
      },
    )

-- `resize`: an order's size changed in place.
unfoldable pub resize : Level → ℕ → ℕ → Level
resize l old_shares new_shares = record l { shares = add64 (sub64 l.shares old_shares) new_shares }

-- The loop of `shares_ahead_of`, on fuel.
unfoldable pub shares_ahead_from : ℕ → Heap → Ptr → Ptr → ℕ → ℕ
shares_ahead_from zero h p o ahead = ahead
shares_ahead_from (suc fuel) h p o ahead =
    let rest = shares_ahead_from fuel h (h p).next o (add64 ahead (h p).shares) in
    if p == null then ahead else if p == o then ahead else rest

-- `shares_ahead_of`: a level of `count` orders is walked in at most `count` rounds.
unfoldable pub shares_ahead_of : Heap → Level → Ptr → ℕ
unfolding shares_ahead_from
shares_ahead_of h l o = shares_ahead_from l.count h l.head o 0
