-- ===== src/Book/RefMap.antt =====
-- `RefMap` of book/book.hpp: the map from order references to nodes, by open addressing with linear
-- probing and backward-shift deletion. `none` is `npos`.
pub mod Cycle
pub mod Table
pub mod Find
pub mod Write
pub mod Insert
pub mod Erase
pub mod Remove
pub mod Grow
use Prim.Native.Nat.{bit_and}
use itchbook.Base.{
  ℕ, zero, suc, ◌+◌, ◌-◌, ◌*◌, ◌/◌, ◌%◌, ◌^◌, ◌≤◌, ◌<◌, min, ◌≡◌, refl, sym, ap, subst, ◌∙◌, ◌≢◌,
  ◌↔◌, ◌⊎◌, inl, inr, Bool, true, false, not, ◌&&◌, ◌||◌, Option, none, some, List, [], ◌∷◌, ◌++◌,
  map, arith, ltb, leb, ◌==◌, if◌then◌else◌, Bool-cases, length, length-append,
}
use itchbook.Book.Order.{Ptr, null}

pub record Slot : Type 0 where
  pub ref : ℕ
  pub ptr : Ptr

abbrev pub vacant_slot : Slot
vacant_slot = record { ref = 0; ptr = null }

-- The vector of slots: the slot at each index below `slot_count`.
abbrev pub Slots : Type 0
Slots = ℕ → Slot

abbrev pub set_slot : Slots → ℕ → Slot → Slots
set_slot s i v j = if i == j then v else s j

pub record RefMap : Type 0 where
  pub slots : Slots
  pub slot_count : ℕ
  pub mask : ℕ
  pub size : ℕ

-- `while (cap < capacity) cap <<= 1`: 64 doublings pass any `size_t`.
unfoldable pub double_until : ℕ → ℕ → ℕ → ℕ
double_until zero cap capacity = cap
double_until (suc fuel) cap capacity =
    let rest = double_until fuel (cap * 2) capacity in if ltb cap capacity then rest else cap

abbrev pub fresh_map : ℕ → RefMap
fresh_map cap = record { slots = λ i. vacant_slot; slot_count = cap; mask = cap - 1; size = 0 }

unfoldable pub make_map : ℕ → RefMap
unfolding double_until
make_map capacity = fresh_map (double_until 64 16 capacity)

abbrev pub home : ℕ → ℕ → ℕ
home mask ref = bit_and ref mask

abbrev pub next_slot : ℕ → ℕ → ℕ
next_slot mask i = bit_and (i + 1) mask

-- Where a walk along the slots ends: at the reference, at a vacant slot, or not within the fuel.
pub data Probe : Type 0 where
  found vacant : ℕ → Probe
  lost : Probe

-- The walk that `find_index` and `insert` make.
unfoldable pub probe : ℕ → ℕ → Slots → ℕ → ℕ → Probe
probe zero mask s ref i = lost
probe (suc fuel) mask s ref i =
    let rest = probe fuel mask s ref (next_slot mask i) in
    if (s i).ptr == null then vacant i else if (s i).ref == ref then found i else rest

-- As many rounds as there are slots.
unfoldable pub probe_map : RefMap → ℕ → Probe
unfolding probe
probe_map m ref = probe m.slot_count m.mask m.slots ref (home m.mask ref)

unfoldable pub find_index : RefMap → ℕ → Option ℕ
unfolding probe_map
find_index m ref = elim (probe_map m ref) [ found i ↦ some i | vacant i ↦ none | lost ↦ none ]

abbrev pub slot_ptr : RefMap → ℕ → Ptr
slot_ptr m i = (m.slots i).ptr

unfoldable pub find : RefMap → ℕ → Ptr
unfolding find_index
find m ref = elim (find_index m ref) [ none ↦ null | some i ↦ slot_ptr m i ]

-- `insert` after its test for growth.
unfoldable pub put : RefMap → ℕ → Ptr → RefMap
unfolding probe_map
put m ref o = elim (probe_map m ref) [
  | found i ↦ record m { slots = set_slot m.slots i (record { ref = (m.slots i).ref; ptr = o }) }
  | vacant i ↦ record m {
    slots = set_slot m.slots i (record { ref = ref; ptr = o });
    size = m.size + 1;
  }
  | lost ↦ m
]

-- The loop of `grow`: `n` of the `total` old slots are still to be inserted.
unfoldable pub reinsert : (RefMap → ℕ → Ptr → RefMap) → Slots → ℕ → ℕ → RefMap → RefMap
reinsert ins old total zero m = m
reinsert ins old total (suc n) m =
    let s = old (total - suc n) in
    reinsert ins old total n (if s.ptr == null then m else ins m s.ref s.ptr)

unfoldable pub grow : (RefMap → ℕ → Ptr → RefMap) → RefMap → RefMap
unfolding reinsert
grow ins m = reinsert ins m.slots m.slot_count m.slot_count (fresh_map (m.slot_count * 2))

-- `insert` calls `grow`, and `grow` calls `insert`: to a depth, at which no call grows.
unfoldable pub insert_to : ℕ → RefMap → ℕ → Ptr → RefMap
unfolding put grow
insert_to zero m ref o = put m ref o
insert_to (suc depth) m ref o =
    put (if ltb m.slot_count ((m.size + 1) * 2) then grow (insert_to depth) m else m) ref o

-- One level is enough: no insertion of a `grow` grows again (`RefMap.Insert`).
unfoldable pub insert : RefMap → ℕ → Ptr → RefMap
unfolding insert_to
insert = insert_to 2

-- Whether the entry at `j`, whose home is `k`, may move back to the hole at `i`.
unfoldable pub movable : ℕ → ℕ → ℕ → Bool
movable i j k = if ltb i j then leb k i || ltb j k else leb k i && ltb j k

-- The loop of `erase_at`.
unfoldable pub shift_back : ℕ → ℕ → Slots → ℕ → ℕ → Slots
unfolding movable
shift_back zero mask s i j = s
shift_back (suc fuel) mask s i j =
    let j' = next_slot mask j in
    let moved = set_slot (set_slot s i (s j')) j' (record { ref = (s j').ref; ptr = null }) in
    let stay = shift_back fuel mask s i j' in
    let move = shift_back fuel mask moved j' j' in
    if (s j').ptr == null then s else if movable i j' (home mask (s j').ref) then move else stay

unfoldable pub erase_at : RefMap → ℕ → RefMap
unfolding shift_back
erase_at m i = record m {
  slots =
      shift_back m.slot_count m.mask
        (set_slot m.slots i (record { ref = (m.slots i).ref; ptr = null })) i i;
  size = m.size - 1;
}

unfoldable pub erase : RefMap → ℕ → RefMap × Bool
unfolding find_index erase_at
erase m ref = elim (find_index m ref) [ none ↦ (m, false) | some i ↦ (erase_at m i, true) ]
