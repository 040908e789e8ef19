-- ===== src/Pipe/SpscRing/Index.antt =====
-- Slot indices: two counts less than a lap apart have different slots.
use itchbook.Base.{ℕ, ◌+◌, ◌%◌, ◌^◌, ◌<◌, ◌≡◌, sym, subst, ◌∙◌, ◌≢◌, arith}
use itchbook.Base.Bits.{pow_pos, bit_and-mask}
use itchbook.Pipe.SpscRing.{index}

mod_apart : (c a b : ℕ) → 0 < c → a < b → b < a + c → a % c ≢ b % c
mod_apart c a b p lt near e = grind arith

-- Counts from `a` on, less than a lap after it, differ from it in their slots.
pub index_apart : (c a b : ℕ) → (k : ℕ) × (c ≡ 2 ^ k) → a < b → b < a + c → index c a ≢ index c b
index_apart c a b (k, e) lt near same =
    let f : index (2 ^ k) a ≡ index (2 ^ k) b = subst (λ n. index n a ≡ index n b) e same in
    mod_apart (2 ^ k) a b (pow_pos k) lt (subst (λ n. b < a + n) e near)
      (sym (bit_and-mask k a) ∙ f ∙ bit_and-mask k b)
