-- ===== src/Book/Side/Walk.antt =====
-- The orders of a side, in the order in which `for_each_order_mut` reaches them.
use itchbook.Base.{ℕ, zero, suc, ◌+◌, ◌-◌, List, [], ◌∷◌, ◌++◌, ◌==◌, if◌then◌else◌}
use itchbook.Book.Order.{Ptr, null, Heap}
use itchbook.Book.Level.{Level, empty}
use itchbook.Book.Side.{Side, LevelMap}

-- The inner loop: along `next` to the null pointer, in at most `fuel` rounds.
unfoldable pub walk : ℕ → Heap → Ptr → List Ptr
walk zero h p = []
walk (suc fuel) h p = let rest = walk fuel h (h p).next in if p == null then [] else p ∷ rest

abbrev pub level_orders : Heap → Level → List Ptr
level_orders h l = walk l.count h l.head

-- The dense levels from `i` on, until `remaining` levels in use were seen.
unfoldable pub dense_orders : Heap → (ℕ → Level) → ℕ → ℕ → ℕ → List Ptr
dense_orders h d zero i remaining = []
dense_orders h d (suc n) i remaining =
    let skip = dense_orders h d n (i + 1) remaining in
    let seen = level_orders h (d i) ++ dense_orders h d n (i + 1) (remaining - 1) in
    if remaining == 0 then [] else if empty (d i) then skip else seen

unfoldable pub map_orders : Heap → LevelMap → List Ptr
map_orders h [] = []
map_orders h ((k, l) ∷ m) = level_orders h l ++ map_orders h m

unfoldable pub side_orders : Heap → Side → List Ptr
side_orders h s = dense_orders h s.dense s.dense_size 0 s.dense_nonempty ++ map_orders h s.overflow
