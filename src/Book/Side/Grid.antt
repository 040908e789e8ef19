-- ===== src/Book/Side/Grid.antt =====
-- Prices and places of the dense band.
use itchbook.Base.{ℕ, ◌+◌, ◌-◌, ◌*◌, ◌%◌, ◌^◌, ◌<◌, ◌≡◌, ◌≢◌, arith}
use native.Mathlib.Nat.{div-add-mod, mul-div_cancel, mod-eq-sub-div-mul}
use itchbook.Base.Ints.{pos, to_int32}
use itchbook.Book.Order.{overflow_level}
use itchbook.Book.Side.{Side, index_of, price_at, int32_price_at}

-- If the tick is not 0, a price that has a place in the band has it within the band, and is the
-- price of that place.
pub price_at-index_of :
    (s : Side) (p : ℕ)
    → 0 < s.tick
    → index_of s p ≢ overflow_level
    → (index_of s p < s.dense_size) × (price_at s (index_of s p) ≡ p)
unfolding index_of price_at
price_at-index_of s p t n = ground (arith, div-add-mod (p - s.base) s.tick)

pub place_of_price :
    (s : Side) (i : ℕ) → 0 < s.tick → i < s.dense_size → index_of s (price_at s i) ≡ i
unfolding index_of price_at
place_of_price s i t b =
    let e : s.base + i * s.tick - s.base ≡ i * s.tick = omega arith in
    let q = mul-div_cancel i t in
    let r : i * s.tick % s.tick ≡ 0 =
      let k = mod-eq-sub-div-mul (i * s.tick) s.tick in rw (k, q) (omega arith) in
    rw (e, q, r) (ground arith)

to_int32_small : (p : ℕ) → p < 2 ^ 31 → to_int32 (pos p) ≡ pos p
unfolding to_int32
to_int32_small p h = ground arith

-- If the tick is not 0 and the price of a place in the band is below 2^31, the narrowing to 32 bits
-- leaves the price as it is, and it has just that place.
pub index_of-price_at :
    (s : Side) (i : ℕ)
    → 0 < s.tick
    → i < s.dense_size
    → price_at s i < 2 ^ 31
    → (int32_price_at s i ≡ pos (price_at s i)) × (index_of s (price_at s i) ≡ i)
unfolding int32_price_at
index_of-price_at s i t b r = (to_int32_small (price_at s i) r, place_of_price s i t b)
