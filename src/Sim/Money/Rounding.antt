-- ===== src/Sim/Money/Rounding.antt =====
-- `divide_round` of sim/money.hpp rounds to the nearest, and a half away from zero.
use itchbook.Base.{
  ℕ, zero, suc, ◌+◌, ◌*◌, ◌/◌, ◌≤◌, ◌<◌, ◌≡◌, refl, sym, ap, ◌∙◌, true, false, arith,
}
use native.Mathlib.Nat.{div-add-mod, mod-lt}
use itchbook.Base.Ints.{pos, negsuc, ◌+ℤ◌, ◌-ℤ◌, neg_ℤ, quot, leb_ℤ}
use itchbook.Sim.Money.{divide_round}

rounded : ℕ → ℕ → ℕ
rounded m d = (m + d / 2) / d

half_near :
    (m d : ℕ) → 0 < d → (2 * m < 2 * (rounded m d * d) + d) × (2 * (rounded m d * d) ≤ 2 * m + d)
unfolding rounded
half_near m d z =
    let e = div-add-mod (m + d / 2) d in let l = mod-lt (m + d / 2) z in (omega arith, omega arith)

add_pos : (m n : ℕ) → pos m +ℤ pos n ≡ pos (m + n)
unfolding ◌+ℤ◌
add_pos m n = ground arith

sub_negsuc : (m n : ℕ) → negsuc m -ℤ pos n ≡ negsuc (m + n)
unfolding ◌-ℤ◌
sub_negsuc m n = ground arith

divide_round-pos : (m d : ℕ) → 0 < d → divide_round (pos m) (pos d) ≡ pos (rounded m d)
unfolding divide_round quot rounded
divide_round-pos m zero z = absurd (omega arith)
divide_round-pos m (suc d) z =
    let t : leb_ℤ (pos 0) (pos m) ≡ true = ground arith in rw (t, add_pos m (suc d / 2)) refl

divide_round-negsuc :
    (m d : ℕ) → 0 < d → divide_round (negsuc m) (pos d) ≡ neg_ℤ (pos (rounded (suc m) d))
unfolding divide_round quot rounded
divide_round-negsuc m zero z = absurd (omega arith)
divide_round-negsuc m (suc d) z =
    let t : leb_ℤ (pos 0) (negsuc m) ≡ false = ground arith in
    let e : suc (m + suc d / 2) ≡ suc m + suc d / 2 = omega arith in
    rw (t, sub_negsuc m (suc d / 2), e) refl

neg_suc : (m : ℕ) → neg_ℤ (pos (suc m)) ≡ negsuc m
neg_suc m = ground arith

none_left : (q d : ℕ) → 0 < d → 2 * (q * d) ≤ d → q ≡ 0
none_left zero d z h = refl
none_left (suc q) d z h = absurd (omega arith)

mirrored : (m d : ℕ) → 0 < d → divide_round (neg_ℤ (pos m)) (pos d) ≡ neg_ℤ (pos (rounded m d))
mirrored zero d z =
    let (a, b) = half_near 0 d z in
    let e = none_left (rounded 0 d) d z (omega arith) in
    divide_round-pos 0 d z ∙ ap pos e ∙ sym (ap (λ x. neg_ℤ (pos x)) e)
mirrored (suc m) d z = ap (λ x. divide_round x (pos d)) (neg_suc m) ∙ divide_round-negsuc m d z

-- By a divisor that is above 0, `divide_round` takes a number that is not negative to the quotient
-- that is nearest, of two the greater, and the negative of the number to the negative of that.
pub divide_round-nearest :
    (m d : ℕ)
    → 0 < d
    → (q : ℕ) × (divide_round (pos m) (pos d) ≡ pos q)
      × (divide_round (neg_ℤ (pos m)) (pos d) ≡ neg_ℤ (pos q))
      × (2 * m < 2 * (q * d) + d)
      × (2 * (q * d) ≤ 2 * m + d)
divide_round-nearest m d z =
    let (a, b) = half_near m d z in (rounded m d, divide_round-pos m d z, mirrored m d z, a, b)
