-- ===== src/Risk/RateWindow.antt =====
-- `RateWindow` of risk/kill_switch.hpp: the messages of the last second, in ten buckets of 100 ms.
pub mod Slots
pub mod Rate
use itchbook.Base.{
  ℕ, zero, suc, ◌+◌, ◌-◌, ◌*◌, ◌/◌, ◌%◌, ◌^◌, ◌≤◌, ◌<◌, min, ◌≡◌, refl, sym, ap, subst, ◌∙◌, ◌≢◌,
  ◌↔◌, ◌⊎◌, inl, inr, Bool, true, false, not, ◌&&◌, ◌||◌, Option, none, some, List, [], ◌∷◌, ◌++◌,
  map, arith, ltb, leb, ◌==◌, if◌then◌else◌, Bool-cases, length, length-append,
}

-- `kBuckets`, `kBucketNs` and `kNever`.
abbrev pub bucket_count : ℕ
bucket_count = 10

abbrev pub bucket_ns : ℕ
bucket_ns = 100000000

abbrev pub never : ℕ
never = 2 ^ 64 - 1

pub record RateWindow : Type 0 where
  pub epoch : ℕ → ℕ
  pub count : ℕ → ℕ
  pub now : ℕ

unfoldable pub make_window : RateWindow
make_window = record { epoch = λ i. never; count = λ i. 0; now = never }

abbrev pub set_entry : (ℕ → ℕ) → ℕ → ℕ → ℕ → ℕ
set_entry a i v j = if j == i then v else a j

-- The bucket of a time stamp, and its slot.
abbrev pub bucket_of : ℕ → ℕ
bucket_of ts = ts / bucket_ns

unfoldable pub add_at : RateWindow → ℕ → RateWindow
add_at w idx =
    let slot = idx % bucket_count in
    let fresh = not (w.epoch slot == idx) in
    record {
      epoch = if fresh then set_entry w.epoch slot idx else w.epoch;
      count = set_entry w.count slot ((if fresh then 0 else w.count slot) + 1);
      now = if ltb w.now idx || w.now == never then idx else w.now;
    }

unfoldable pub add : RateWindow → ℕ → RateWindow
unfolding add_at
add w ts = add_at w (bucket_of ts)

-- `now_ - epoch_[i]` on words of 64 bits.
abbrev pub age : RateWindow → ℕ → ℕ
age w i = (w.now + 2 ^ 64 - w.epoch i) % 2 ^ 64

-- The sum over the first `n` slots.
unfoldable pub rate_below : RateWindow → ℕ → ℕ
rate_below w zero = 0
rate_below w (suc n) = rate_below w n + (if ltb (age w n) bucket_count then w.count n else 0)

unfoldable pub rate : RateWindow → ℕ
unfolding rate_below
rate w = if w.now == never then 0 else rate_below w bucket_count

unfoldable pub reset : RateWindow → RateWindow
reset w = record { epoch = λ i. never; count = λ i. 0; now = never }
