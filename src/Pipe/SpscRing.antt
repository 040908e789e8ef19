-- ===== src/Pipe/SpscRing.antt =====
-- pipe/spsc_ring.hpp: the single-producer single-consumer ring. The indices count and are plain
-- numbers. Each operation reads the other thread's index at most once and writes only its own, so
-- the runs of two threads are the interleavings of these operations.
pub mod Index
pub mod Actions
pub mod Fifo
pub mod Single
use Prim.Native.Nat.{bit_and}
use itchbook.Base.{
  ℕ, zero, suc, ◌+◌, ◌-◌, ◌*◌, ◌/◌, ◌%◌, ◌^◌, ◌≤◌, ◌<◌, min, ◌≡◌, refl, sym, ap, subst, ◌∙◌, ◌≢◌,
  ◌↔◌, ◌⊎◌, inl, inr, Bool, true, false, not, ◌&&◌, ◌||◌, Option, none, some, List, [], ◌∷◌, ◌++◌,
  map, arith, ltb, leb, ◌==◌, if◌then◌else◌, Bool-cases, length, length-append,
}

pub record Ring {ℓ} (A : Type ℓ) : Type ℓ where
  pub capacity : ℕ
  pub head : ℕ
  pub tail : ℕ
  pub cached_tail : ℕ
  pub cached_head : ℕ
  pub slots : ℕ → A

abbrev pub index : ℕ → ℕ → ℕ
index capacity i = bit_and i (capacity - 1)

abbrev pub write_at {ℓ} : {A : Type ℓ} → (ℕ → A) → ℕ → A → ℕ → A
write_at s i v j = if i == j then v else s j

module _ {ℓ} {A : Type ℓ} where
  -- `slots_{}`: every slot starts at the type's default.
  unfoldable pub make_ring : ℕ → A → Ring A
  make_ring capacity v = record {
    capacity = capacity;
    head = 0;
    tail = 0;
    cached_tail = 0;
    cached_head = 0;
    slots = λ i. v;
  }

  -- `Capacity - (head - cached_tail_)`.
  abbrev pub room : Ring A → ℕ
  room r = r.capacity - (r.head - r.cached_tail)

  abbrev pub ready : Ring A → ℕ
  ready r = r.cached_head - r.tail

  abbrev pub see_tail : Ring A → Ring A
  see_tail r = record r { cached_tail = r.tail }

  abbrev pub see_head : Ring A → Ring A
  see_head r = record r { cached_head = r.head }

  unfoldable pub writable : Ring A → Ring A × ℕ
  writable r = if room r == 0 then (see_tail r, room (see_tail r)) else (r, room r)

  unfoldable pub writable_exact : Ring A → Ring A × ℕ
  writable_exact r = (see_tail r, room (see_tail r))

  unfoldable pub write_slot : Ring A → ℕ → A → Ring A
  write_slot r n v = record r { slots = write_at r.slots (index r.capacity (r.head + n)) v }

  unfoldable pub publish : Ring A → ℕ → Ring A
  publish r n = record r { head = r.head + n }

  unfoldable pub push : Ring A → A → Ring A × Bool
  push r v =
      let (r', n) = writable r in
      if n == 0 then (r', false) else (publish (write_slot r' 0 v) 1, true)

  unfoldable pub readable : Ring A → Ring A × ℕ
  readable r = if ready r == 0 then (see_head r, ready (see_head r)) else (r, ready r)

  unfoldable pub read_slot : Ring A → ℕ → A
  read_slot r n = r.slots (index r.capacity (r.tail + n))

  unfoldable pub consume : Ring A → ℕ → Ring A
  consume r n = record r { tail = r.tail + n }

  unfoldable pub pop : Ring A → Ring A × Option A
  pop r =
      let (r', n) = readable r in
      if n == 0 then (r', none) else (consume r' 1, some (read_slot r' 0))

  unfoldable pub size : Ring A → ℕ
  size r = r.head - r.tail

  unfoldable pub is_empty : Ring A → Bool
  is_empty r = size r == 0

  unfoldable pub full : Ring A → Bool
  full r = size r == r.capacity
