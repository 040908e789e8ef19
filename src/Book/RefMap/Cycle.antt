-- ===== src/Book/RefMap/Cycle.antt =====
-- Positions on the cycle of slots.
use itchbook.Base.{
  ℕ, ◌+◌, ◌-◌, ◌%◌, ◌^◌, ◌<◌, ◌≡◌, ◌≢◌, ◌↔◌, ◌⊎◌, true, arith, leb, ◌==◌, if◌then◌else◌,
}
use native.Mathlib.Nat.{mod-lt}
use itchbook.Base.Bits.{bit_and-mask, pow_pos}
use itchbook.Book.RefMap.{home, next_slot, movable}

-- How many steps lead from `i` forward to `j`, on a cycle of `n`.
pub dist : ℕ → ℕ → ℕ → ℕ
dist n i j = if leb i j then j - i else j + n - i

abbrev pub cyclic_next : ℕ → ℕ → ℕ
cyclic_next n i = if (i + 1) == n then 0 else i + 1

-- What masking does, where the number of slots is a power of two.
pub record IsMask (n mask : ℕ) : Type 0 where
  pub home_lt : (ref : ℕ) → home mask ref < n
  pub next_lem : (i : ℕ) → i < n → next_slot mask i ≡ cyclic_next n i

pub pow-IsMask : (k : ℕ) → IsMask (2 ^ k) (2 ^ k - 1)
pow-IsMask k = record {
  home_lt = λ r. rw bit_and-mask (mod-lt r (pow_pos k));
  next_lem = λ i h. rw bit_and-mask (wrap (2 ^ k) i h);
}
  where
    wrap : (n i : ℕ) → i < n → (i + 1) % n ≡ cyclic_next n i
    wrap n i h = grind arith

module _ (n : ℕ) where
  pub dist-next :
      (h i : ℕ) → h < n → i < n → dist n h i + 1 < n → dist n h (cyclic_next n i) ≡ dist n h i + 1
  unfolding dist
  dist-next h i a b c = ground arith

  pub dist_self : (h : ℕ) → dist n h h ≡ 0
  unfolding dist
  dist_self h = ground arith

  pub dist-pos : (h i : ℕ) → h < n → i < n → h ≢ i → 0 < dist n h i
  unfolding dist
  dist-pos h i a b ne = ground arith

  -- The next slot is one step further from `h`, unless the cycle is closed there.
  pub dist-next_cases :
      (h i : ℕ)
      → h < n
      → i < n
      → ((cyclic_next n i ≡ h) × (dist n h i + 1 ≡ n))
        ⊎ (dist n h (cyclic_next n i) ≡ dist n h i + 1)
  unfolding dist
  dist-next_cases h i a b = ground arith

  pub next-dist : (i e : ℕ) → i < n → e < n → i ≢ e → dist n (cyclic_next n i) e + 1 ≡ dist n i e
  unfolding dist
  next-dist i e a b ne = ground arith

  pub dist_inj : (h i j : ℕ) → h < n → i < n → j < n → dist n h i ≡ dist n h j → i ≡ j
  unfolding dist
  dist_inj h i j a b c e = ground arith

  pub dist-lt : (h i : ℕ) → h < n → i < n → dist n h i < n
  unfolding dist
  dist-lt h i a b = ground arith

  -- What lies behind `i` and before `x` is on any way to `x` that passes `i`.
  pub on_the_way :
      (h i j x : ℕ)
      → h < n
      → i < n
      → j < n
      → x < n
      → dist n h i < dist n h x
      → dist n i j < dist n i x
      → dist n h j < dist n h x
  unfolding dist
  on_the_way h i j x a b c d p q = ground arith

  pub movable_iff :
      (i j k : ℕ)
      → i < n
      → j < n
      → k < n
      → i ≢ j
      → (movable i j k ≡ true) ↔ (dist n k i < dist n k j)
  unfolding movable dist
  movable_iff i j k a b c ne = ground arith
