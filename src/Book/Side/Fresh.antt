-- ===== src/Book/Side/Fresh.antt =====
-- A side without orders, and its dense band.
use itchbook.Base.{
  ℕ, zero, suc, ◌<◌, ◌≡◌, refl, sym, ap, subst, ◌∙◌, inl, inr, Bool, ◌||◌, none, [], arith, ◌==◌,
  Bool-cases,
}
use itchbook.Book.Order.{overflow_level}
use itchbook.Book.Level.{empty, empty_level}
use itchbook.Book.Side.{Side, map_find, make_side, clear_levels, set_band_slots}
use itchbook.Book.Side.Cursor.{used, IsBest}
use itchbook.Book.Side.Overflow.{Sorted}
use itchbook.Book.Side.Best.{IsSide}

none_used : (n : ℕ) → 0 ≡ used (λ i. empty_level) n
unfolding empty
none_used zero = refl
none_used (suc n) = omega (arith, none_used n)

-- No level is in use.
record IsFresh (s : Side) : Type 0 where
  dense : s.dense ≡ (λ i. empty_level)
  nonempty : s.dense_nonempty ≡ 0
  cursor : s.cursor ≡ none
  overflow : s.overflow ≡ []
  tick : 0 < s.tick
  small : s.dense_size < overflow_level

fresh-IsSide : (s : Side) → IsFresh s → IsSide s
unfolding empty map_find
fresh-IsSide s v = record {
  band = record {
    tally = v.nonempty ∙ none_used s.dense_size ∙ ap (λ d. used d s.dense_size) (sym v.dense);
    cursor =
        subst (λ c. IsBest s.is_bid s.dense s.dense_size c) (sym v.cursor)
          (λ j b. ap (λ d. empty (d j)) v.dense);
    tick = v.tick;
    small = v.small;
  };
  sorted = subst Sorted (sym v.overflow) tt;
  stored = λ p l e. let x = ap (λ m. map_find m p) (sym v.overflow) ∙ e in absurd (cc);
}

-- A new side, and one that is cleared, have no orders and are well formed.
pub make_side-IsSide : (b : Bool) (tick : ℕ) → 0 < tick → IsSide (make_side b tick)
unfolding make_side
make_side-IsSide b tick t = fresh-IsSide (make_side b tick) (record {
  dense = refl;
  nonempty = refl;
  cursor = refl;
  overflow = refl;
  tick = t;
  small = omega arith;
})

pub clear_levels-IsSide : (s : Side) → 0 < s.tick → IsSide (clear_levels s)
unfolding clear_levels
clear_levels-IsSide s t = fresh-IsSide (clear_levels s) (record {
  dense = refl;
  nonempty = refl;
  cursor = refl;
  overflow = refl;
  tick = t;
  small = omega arith;
})

-- A band put around a price where the side has no orders.
pub set_band_slots-IsSide :
    (s : Side) (center levels : ℕ)
    → IsSide s
    → s.overflow ≡ []
    → levels < overflow_level
    → IsSide (set_band_slots s center levels)
unfolding set_band_slots
set_band_slots-IsSide s center levels v o h =
    elim (Bool-cases (center == 0 || s.tick == 0 || levels == 0)) [
      | inl t ↦ rw t v
      | inr t ↦ rw t (
          fresh-IsSide _ (record {
            dense = refl;
            nonempty = refl;
            cursor = refl;
            overflow = o;
            tick = v.band.tick;
            small = h;
          }))
    ]
