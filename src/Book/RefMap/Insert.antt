-- ===== src/Book/RefMap/Insert.antt =====
-- `put` and `insert` add one entry to the map, or change one.
use itchbook.Base.{ℕ, ◌+◌, ◌*◌, ◌≤◌, ◌≡◌, refl, sym, ◌∙◌, ◌≢◌, inr, arith, ◌==◌, if◌then◌else◌}
use itchbook.Book.Order.{Ptr, null}
use itchbook.Book.RefMap.{RefMap, Slot, set_slot, Probe, found, vacant, lost, probe_map, find, put}
use itchbook.Book.RefMap.Table.{Ends, found_entry, occupied-set}
use itchbook.Book.RefMap.Write.{fill, Unique-fill}
use itchbook.Book.RefMap.Find.{IsMap, Holds, probe_map-Ends, Holds-find}

-- What a table holds after `r` is mapped to `o`: that, and all else as before.
abbrev pub Updated : RefMap → RefMap → ℕ → Ptr → Type 0
Updated m m' r o =
    Holds m' r o
    × ((k : ℕ) (w : Ptr) → w ≢ null → k ≢ r → Holds m k w → Holds m' k w)
    × ((k : ℕ) (w : Ptr) → w ≢ null → k ≢ r → Holds m' k w → Holds m k w)

abbrev put_at : RefMap → ℕ → Ptr → Probe → RefMap
put_at m ref o q = elim q [
  | found i ↦ record m { slots = set_slot m.slots i (record { ref = (m.slots i).ref; ptr = o }) }
  | vacant i ↦ record m {
    slots = set_slot m.slots i (record { ref = ref; ptr = o });
    size = m.size + 1;
  }
  | lost ↦ m
]

put_at-IsMap :
    (m : RefMap) (r : ℕ) (o : Ptr) (q : Probe)
    → IsMap m
    → o ≢ null
    → (m.size + 1) * 2 ≤ m.slot_count
    → Ends m.slot_count m.mask m.slots r q
    → IsMap (put_at m r o q)
put_at-IsMap m r o (found i) v n room (b, oi, e) =
    let w : Slot = record { ref = (m.slots i).ref; ptr = o } in
    record {
      power = v.power;
      masks = v.masks;
      reached =
          fill m.slot_count m.mask m.slots i w (λ x p xb pb ox d. inr (v.reached x p xb pb ox d)) n
            (λ p pb d. inr (v.reached i p b pb oi d));
      unique =
          Unique-fill m.slot_count m.mask m.slots i w v.unique
            (λ y yb oy k. v.unique y i yb b oy oi k);
      counted = ground (arith, occupied-set m.slots m.slot_count i w b, v.counted);
      room = v.room;
      slots = v.slots;
    }
put_at-IsMap m r o (vacant i) v n room (b, z, pass) =
    let w : Slot = record { ref = r; ptr = o } in
    record {
      power = v.power;
      masks = v.masks;
      reached =
          fill m.slot_count m.mask m.slots i w (λ x p xb pb ox d. inr (v.reached x p xb pb ox d)) n
            (λ p pb d. inr (pass p pb d).0);
      unique =
          Unique-fill m.slot_count m.mask m.slots i w v.unique
            (λ y yb oy k. let f = found_entry v r y (vacant i) yb oy k (b, z, pass) in cc);
      counted = ground (arith, occupied-set m.slots m.slot_count i w b, v.counted);
      room = room;
      slots = v.slots;
    }
put_at-IsMap m r o lost v n room d = absurd d

put_at-Updated :
    (m : RefMap) (r : ℕ) (o : Ptr) (q : Probe)
    → IsMap m
    → Ends m.slot_count m.mask m.slots r q
    → Updated m (put_at m r o q) r o
put_at-Updated m r o (found i) v (b, oi, e) = (
  (i, b, ground arith, ground arith),
  (λ k w n ne (x, xb, p, q). (x, xb, ground arith, ground arith)),
  (λ k w n ne (x, xb, p, q). (x, xb, ground arith, ground arith)),
)
put_at-Updated m r o (vacant i) v (b, z, pass) = (
  (i, b, ground arith, ground arith),
  (λ k w n ne (x, xb, p, q). (x, xb, ground arith, ground arith)),
  (λ k w n ne (x, xb, p, q). (x, xb, ground arith, ground arith)),
)
put_at-Updated m r o lost v d = absurd d

size-put_at : (m : RefMap) (r : ℕ) (o : Ptr) (q : Probe) → (put_at m r o q).size ≤ m.size + 1
size-put_at m r o (found i) = omega arith
size-put_at m r o (vacant i) = omega arith
size-put_at m r o lost = omega arith

module _ (m : RefMap) (r : ℕ) (o : Ptr) (v : IsMap m) (n : o ≢ null) where
  pub put-IsMap : (m.size + 1) * 2 ≤ m.slot_count → IsMap (put m r o)
  unfolding put
  put-IsMap room = put_at-IsMap m r o (probe_map m r) v n room (probe_map-Ends m r v)

  pub put-Updated : Updated m (put m r o) r o
  unfolding put
  put-Updated = put_at-Updated m r o (probe_map m r) v (probe_map-Ends m r v)

  -- The entry is counted if its reference is new.
  pub size-put : (put m r o).size ≡ m.size + (if find m r == null then 1 else 0)
  unfolding put find
  size-put = size_at (probe_map m r) refl (probe_map-Ends m r v)
    where
      size_at :
          (q : Probe)
          → probe_map m r ≡ q
          → Ends m.slot_count m.mask m.slots r q
          → (put m r o).size ≡ m.size + (if find m r == null then 1 else 0)
      size_at (found i) e (b, oi, _) = rw (e, put, find) (ground arith)
      size_at (vacant i) e d = rw (e, put, find) refl
      size_at lost e d = absurd d

pub slot_count-put :
    (m : RefMap) (r : ℕ) (o : Ptr)
    → ((put m r o).slot_count ≡ m.slot_count) × ((put m r o).mask ≡ m.mask)
unfolding put
slot_count-put m r o = at (probe_map m r)
  where
    at :
        (q : Probe)
        → ((put_at m r o q).slot_count ≡ m.slot_count) × ((put_at m r o q).mask ≡ m.mask)
    at (found i) = (refl, refl)
    at (vacant i) = (refl, refl)
    at lost = (refl, refl)

pub Holds-unique :
    (m : RefMap) (r : ℕ) (o w : Ptr)
    → IsMap m
    → o ≢ null
    → w ≢ null
    → Holds m r o
    → Holds m r w
    → o ≡ w
Holds-unique m r o w v n n' h h' = sym (Holds-find m r o v h n) ∙ Holds-find m r w v h' n'
