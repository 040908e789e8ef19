-- ===== src/Book/RefMap/Write.antt =====
-- How a write to one slot changes what a table guarantees.
use itchbook.Base.{ℕ, ◌<◌, ◌≡◌, ◌≢◌, ◌⊎◌, arith}
use itchbook.Book.Order.{null}
use itchbook.Book.RefMap.{Slot, Slots, set_slot, home}
use itchbook.Book.RefMap.Cycle.{dist}
use itchbook.Book.RefMap.Table.{Occupied, Reached, Unique}

pub set_at : (s : Slots) (i : ℕ) (v : Slot) → set_slot s i v i ≡ v
set_at s i v = ground arith

pub set_away : (s : Slots) (i j : ℕ) (v : Slot) → i ≢ j → set_slot s i v j ≡ s j
set_away s i j v n = ground arith

-- Every entry is reached from its home without passing a vacant slot other than `i`.
abbrev pub ReachedBut : ℕ → ℕ → Slots → ℕ → Type 0
ReachedBut n mask s i =
    (x p : ℕ)
    → x < n
    → p < n
    → Occupied s x
    → dist n (home mask (s x).ref) p < dist n (home mask (s x).ref) x
    → (p ≡ i) ⊎ Occupied s p

module _ (n mask : ℕ) (s : Slots) (i : ℕ) (v : Slot) where
  pub fill :
      ReachedBut n mask s i
      → v.ptr ≢ null
      → ((p : ℕ)
          → p < n
          → dist n (home mask v.ref) p < dist n (home mask v.ref) i
          → (p ≡ i) ⊎ Occupied s p)
      → Reached n mask (set_slot s i v)
  fill but ov pass x p xb pb ox d = ground (arith, but x p xb pb, pass p pb)

  pub vacate : Reached n mask s → v.ptr ≡ null → ReachedBut n mask (set_slot s i v) i
  vacate all z x p xb pb ox d = ground (arith, all x p xb pb)

  -- A slot that takes the only entry of its reference keeps references unique.
  pub Unique-fill :
      Unique n s
      → ((y : ℕ) → y < n → Occupied s y → (s y).ref ≡ v.ref → y ≡ i)
      → Unique n (set_slot s i v)
  Unique-fill u only x y xb yb ox oy e = ground (arith, u x y xb yb, only x xb, only y yb)

  pub Unique-vacate : Unique n s → v.ptr ≡ null → Unique n (set_slot s i v)
  Unique-vacate u z x y xb yb ox oy e = ground (arith, u x y xb yb)
