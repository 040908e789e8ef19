-- ===== src/Book/Side.antt =====
-- `Side` of book/book.hpp: one side of the book, a dense array of levels near the touch and a sorted
-- map of the others. Prices are at least 0. `cursor` is `none` where the source's is out of range.
pub mod Cursor
pub mod Band
pub mod Dense
pub mod Grid
pub mod Overflow
pub mod Best
pub mod Fresh
pub mod Moves
pub mod Walk
use itchbook.Base.{
  ℕ, zero, suc, ◌+◌, ◌-◌, ◌*◌, ◌/◌, ◌%◌, ◌^◌, ◌≤◌, ◌<◌, min, ◌≡◌, refl, sym, ap, subst, ◌∙◌, ◌≢◌,
  ◌↔◌, ◌⊎◌, inl, inr, Bool, true, false, not, ◌&&◌, ◌||◌, Option, none, some, List, [], ◌∷◌, ◌++◌,
  map, arith, ltb, leb, ◌==◌, if◌then◌else◌, Bool-cases, length, length-append,
}
use itchbook.Base.Ints.{ℤ, pos, to_int32}
use itchbook.Book.Order.{Ptr, null, Order, Heap, write, overflow_level}
use itchbook.Book.Level.{Level, empty_level, empty, push_back, unlink}

pub record LevelView : Type 0 where
  pub price : ℕ
  pub shares : ℕ
  pub count : ℕ

-- `std::map<int32_t, Level>`: the entries by rising price.
abbrev pub LevelMap : Type 0
LevelMap = List (ℕ × Level)

pub record Side : Type 0 where
  pub is_bid : Bool
  pub tick : ℕ
  pub base : ℕ
  pub dense : ℕ → Level
  pub dense_size : ℕ
  pub overflow : LevelMap
  pub cursor : Option ℕ
  pub dense_nonempty : ℕ
  pub peak_overflow : ℕ

abbrev pub set_level : (ℕ → Level) → ℕ → Level → ℕ → Level
set_level d i l j = if i == j then l else d j

unfoldable pub map_find : LevelMap → ℕ → Option Level
map_find [] p = none
map_find ((k, l) ∷ m) p = if k == p then some l else map_find m p

-- Writes the level at a price, at its place in the order.
unfoldable pub map_set : LevelMap → ℕ → Level → LevelMap
map_set [] p v = (p, v) ∷ []
map_set ((k, l) ∷ m) p v =
    if k == p then (p, v) ∷ m else if ltb p k then (p, v) ∷ (k, l) ∷ m else (k, l) ∷ map_set m p v

unfoldable pub map_erase : LevelMap → ℕ → LevelMap
map_erase [] p = []
map_erase ((k, l) ∷ m) p = if k == p then m else (k, l) ∷ map_erase m p

abbrev pub first_key : LevelMap → Option ℕ
first_key [] = none
first_key ((k, l) ∷ m) = some k

abbrev pub last_key : LevelMap → Option ℕ
last_key [] = none
last_key ((k, l) ∷ []) = some k
last_key ((k, l) ∷ e ∷ m) = last_key (e ∷ m)

unfoldable pub make_side : Bool → ℕ → Side
make_side is_bid tick = record {
  is_bid = is_bid;
  tick = tick;
  base = 0;
  dense = λ i. empty_level;
  dense_size = 0;
  overflow = [];
  cursor = none;
  dense_nonempty = 0;
  peak_overflow = 0;
}

abbrev pub banded : Side → Bool
banded s = not (s.dense_size == 0)

unfoldable pub better : Side → ℕ → ℕ → Bool
better s a b = if s.is_bid then ltb b a else ltb a b

-- The price of a place before the code narrows it to 32 bits. A price that an order can have is
-- below 2^31, and the narrowing leaves it as it is.
unfoldable pub price_at : Side → ℕ → ℕ
price_at s i = s.base + i * s.tick

-- What the code returns.
unfoldable pub int32_price_at : Side → ℕ → ℤ
int32_price_at s i = to_int32 (pos (price_at s i))

-- The dense index of a price, or `overflow_level` off the band or off the tick grid.
unfoldable pub index_of : Side → ℕ → ℕ
index_of s price =
    if not (banded s) || ltb price s.base
    then overflow_level
    else if not ((price - s.base) % s.tick == 0)
    then overflow_level
    else if leb s.dense_size ((price - s.base) / s.tick)
    then overflow_level
    else (price - s.base) / s.tick

-- A band of `levels` slots around a price, snapped to the tick grid. On ℕ the base stops at 0.
unfoldable pub set_band_slots : Side → ℕ → ℕ → Side
set_band_slots s center levels =
    if center == 0 || s.tick == 0 || levels == 0
    then s
    else (let base = center - levels / 2 * s.tick in
        record s {
          base = base - base % s.tick;
          dense = λ i. empty_level;
          dense_size = levels;
          dense_nonempty = 0;
          cursor = none;
        })

unfoldable pub set_band : Side → ℕ → ℕ → ℕ → Side
unfolding set_band_slots
set_band s center frac_pct max_levels =
    if center == 0 || s.tick == 0 || banded s
    then s
    else (let half = center * frac_pct / 100 / s.tick in
        let half_ticks = if ltb half 1 then 1 else half in
        let levels = 2 * half_ticks + 1 in
        set_band_slots s center (if ltb max_levels levels then max_levels else levels))

unfoldable pub clear_levels : Side → Side
clear_levels s = record s {
  dense = λ i. empty_level;
  dense_size = 0;
  overflow = [];
  dense_nonempty = 0;
  cursor = none;
}

-- `level_filled`: the level at `idx` holds its first order.
unfoldable pub level_filled : Side → ℕ → Side
level_filled s idx = record s {
  dense_nonempty = s.dense_nonempty + 1;
  cursor = elim s.cursor [
    | none ↦ some idx
    | some c ↦
        if (s.dense_nonempty + 1) == 1
          || not (ltb c s.dense_size)
          || better s (price_at s idx) (price_at s c)
        then some idx
        else some c
  ];
}

-- The next level in use below `i`, and the next of `n` levels from `i` up.
unfoldable pub seek_down : (ℕ → Level) → ℕ → Option ℕ
seek_down d zero = none
seek_down d (suc i) = let rest = seek_down d i in if empty (d i) then rest else some i

unfoldable pub seek_up : (ℕ → Level) → ℕ → ℕ → Option ℕ
seek_up d zero i = none
seek_up d (suc n) i = let rest = seek_up d n (i + 1) in if empty (d i) then rest else some i

-- The level in use from `i` outward, `i` included.
unfoldable pub settle : Side → ℕ → Option ℕ
unfolding seek_down seek_up
settle s i = if s.is_bid then seek_down s.dense (i + 1) else seek_up s.dense (s.dense_size - i) i

-- `level_emptied`: the level at `idx` lost its last order.
unfoldable pub level_emptied : Side → ℕ → Side
unfolding seek_down seek_up
level_emptied s idx =
    let n = s.dense_nonempty - 1 in
    if n == 0 then record s { dense_nonempty = n; cursor = none } else record s {
      dense_nonempty = n;
      cursor = elim s.cursor [
        | none ↦ none
        | some c ↦
            if not (idx == c)
            then some c
            else if s.is_bid
            then seek_down s.dense c
            else seek_up s.dense (s.dense_size - (c + 1)) (c + 1)
      ];
    }

abbrev pub set_level_idx : Heap → Ptr → ℕ → Heap
set_level_idx h o idx = write h o (record (h o) { level_idx = idx })

-- `overflow_[price]` makes an empty level where there is none.
abbrev pub or_empty : Option Level → Level
or_empty none = empty_level
or_empty (some l) = l

-- `push` at a price of the map.
unfoldable pub push_overflow : Heap → Side → Ptr → Heap × Side
push_overflow h s o =
    let price = (h o).price in
    let l = or_empty (map_find s.overflow price) in
    let (h', l') = push_back h l o in
    let m = map_set s.overflow price l' in
    (
      h',
      record s {
        overflow = m;
        peak_overflow = if ltb s.peak_overflow (length m) then length m else s.peak_overflow;
      },
    )

unfoldable pub push_dense : Heap → Side → Ptr → ℕ → Heap × Side
push_dense h s o idx =
    let l = s.dense idx in
    let (h', l') = push_back h l o in
    let s' = record s { dense = set_level s.dense idx l' } in
    (h', if empty l then level_filled s' idx else s')

unfoldable pub push : Heap → Side → Ptr → Heap × Side
push h s o =
    let idx = index_of s (h o).price in
    let h1 = set_level_idx h o idx in
    if idx == overflow_level then push_overflow h1 s o else push_dense h1 s o idx

unfoldable pub pop_overflow : Heap → Side → Ptr → Heap × Side
pop_overflow h s o = elim (map_find s.overflow (h o).price) [
  | none ↦ (h, s)
  | some l ↦
      let (h', l') = unlink h l o in
      (
        h',
        record s {
          overflow =
              if empty l'
              then map_erase s.overflow (h o).price
              else map_set s.overflow (h o).price l';
        },
      )
]

unfoldable pub pop_dense : Heap → Side → Ptr → ℕ → Heap × Side
pop_dense h s o idx =
    let (h', l') = unlink h (s.dense idx) o in
    let s' = record s { dense = set_level s.dense idx l' } in
    (h', if empty l' then level_emptied s' idx else s')

unfoldable pub pop : Heap → Side → Ptr → Heap × Side
pop h s o =
    if (h o).level_idx == overflow_level
    then pop_overflow h s o
    else pop_dense h s o (h o).level_idx

-- The level in use at a price.
unfoldable pub level_at : Side → ℕ → Option Level
level_at s price =
    if index_of s price == overflow_level
    then map_find s.overflow price
    else if empty (s.dense (index_of s price))
    then none
    else some (s.dense (index_of s price))

unfoldable pub level_of : Heap → Side → Ptr → Option Level
level_of h s o =
    if (h o).level_idx == overflow_level
    then map_find s.overflow (h o).price
    else some (s.dense (h o).level_idx)

-- The best price of the dense band, by the cursor.
unfoldable pub best_dense : Side → Option ℕ
best_dense s = elim s.cursor [
  | none ↦ none
  | some c ↦ if ltb 0 s.dense_nonempty && ltb c s.dense_size then some (price_at s c) else none
]

unfoldable pub best_overflow : Side → Option ℕ
best_overflow s = if s.is_bid then last_key s.overflow else first_key s.overflow

unfoldable pub best : Side → Option ℕ
best s = elim (best_overflow s) [
  | none ↦ best_dense s
  | some o ↦ elim (best_dense s) [
    | none ↦ some o
    | some d ↦ if better s o d then some o else some d
  ]
]

unfoldable pub best_level : Side → Option Level
best_level s = elim (best s) [ none ↦ none | some p ↦ level_at s p ]

unfoldable pub has_levels : Side → Bool
has_levels s = ltb 0 s.dense_nonempty || not (length s.overflow == 0)
