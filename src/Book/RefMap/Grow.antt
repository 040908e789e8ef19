-- ===== src/Book/RefMap/Grow.antt =====
-- `grow` doubles the table and keeps its entries; so `insert` maps one more reference.
use itchbook.Base.{
  ℕ, zero, suc, ◌+◌, ◌-◌, ◌*◌, ◌^◌, ◌≤◌, ◌<◌, ◌≡◌, refl, sym, ap, subst, ◌∙◌, ◌≢◌, ◌↔◌, inl, inr,
  true, false, arith, ltb, ◌==◌, if◌then◌else◌, Bool-cases,
}
use native.Mathlib.Decide.{ℕ_discrete}
use itchbook.Base.Bits.{pow_pos}
use native.Mathlib.Nat.{pow-suc}
use itchbook.Book.Order.{Ptr, null}
use itchbook.Book.RefMap.{
  RefMap, Slots, put, find, reinsert, grow, insert_to, insert, fresh_map, vacant_slot, double_until,
  make_map,
}
use itchbook.Book.RefMap.Cycle.{pow-IsMask}
use itchbook.Book.RefMap.Table.{Occupied, Entry, occupied, occupied-le, Unique}
use itchbook.Book.RefMap.Find.{IsMap, Holds, Holds-find, find-Holds, find-same}
use itchbook.Book.RefMap.Insert.{put-IsMap, put-Updated, size-put, slot_count-put, Holds-unique}

occupied-vacant : (n : ℕ) → occupied (λ i. vacant_slot) n ≡ 0
occupied-vacant zero = refl
occupied-vacant (suc n) = omega (arith, occupied-vacant n)

pub fresh_map-IsMap : (k : ℕ) → IsMap (fresh_map (2 ^ k))
fresh_map-IsMap k = record {
  power = (k, refl);
  masks = pow-IsMask k;
  reached = λ x p xb pb o d. absurd (o refl);
  unique = λ x y xb yb o o' e. absurd (o refl);
  counted = sym (occupied-vacant (2 ^ k));
  room = omega arith;
  slots = pow_pos k;
}

-- A table that holds just the entries of the old slots below `i`.
record Copied (old : Slots) (i : ℕ) (m : RefMap) : Type 0 where
  valid : IsMap m
  size : m.size ≡ occupied old i
  back : (k : ℕ) (w : Ptr) → w ≢ null → Holds m k w → Entry i old k w
  into : (k : ℕ) (w : Ptr) → w ≢ null → Entry i old k w → Holds m k w

-- An insertion that does not grow.
abbrev Puts : (RefMap → ℕ → Ptr → RefMap) → Type 0
Puts ins = (m : RefMap) (r : ℕ) (o : Ptr) → (m.size + 1) * 2 ≤ m.slot_count → ins m r o ≡ put m r o

module _ (old : Slots) (total : ℕ) (u : Unique total old) where
  Copied-skip : (i : ℕ) (m : RefMap) → (old i).ptr ≡ null → Copied old i m → Copied old (suc i) m
  Copied-skip i m z c = record {
    valid = c.valid;
    size = let s = c.size in ground arith;
    back = λ k w n h. let (x, xb, p, q) = c.back k w n h in (x, omega arith, p, q);
    into = λ k w n (x, xb, p, q).
        c.into k w n
          (x, (let ne : x ≢ i = λ e. n (sym q ∙ ap (λ y. (old y).ptr) e ∙ z) in omega arith), p, q);
  }

  Copied-put :
      (i : ℕ) (m : RefMap)
      → i < total
      → Occupied old i
      → (m.size + 1) * 2 ≤ m.slot_count
      → Copied old i m
      → Copied old (suc i) (put m (old i).ref (old i).ptr)
  Copied-put i m b oi room c =
      let r = (old i).ref in
      let o = (old i).ptr in
      let up = put-Updated m r o c.valid oi in
      let valid = put-IsMap m r o c.valid oi room in
      let absent : find m r ≡ null = elim (ℕ_discrete (find m r) null) [
        | yes e ↦ e
        | no k ↦
            let (x, xb, p, q) = c.back r (find m r) k (find-Holds m r (find m r) c.valid refl k) in
            let e = u x i (omega arith) b (λ z. k (sym q ∙ z)) oi p in absurd (omega arith)
      ] in
      record {
        valid = valid;
        size = let a = size-put m r o c.valid oi in let z = c.size in ground arith;
        back = λ k w n h. elim (ℕ_discrete k r) [
          | yes e ↦ (
            i,
            omega arith,
            sym e,
            Holds-unique (put m r o) r o w valid oi n up.0 (subst (λ j. Holds (put m r o) j w) e h),
          )
          | no ne ↦ let (x, xb, p, q) = c.back k w n (up.2 k w n ne h) in (x, omega arith, p, q)
        ];
        into = λ k w n (x, xb, p, q). elim (ℕ_discrete x i) [
          | yes e ↦
              let (y, yb, p', q') = up.0 in
              (
                y,
                yb,
                p' ∙ ap (λ j. (old j).ref) (sym e) ∙ p,
                q' ∙ ap (λ j. (old j).ptr) (sym e) ∙ q,
              )
          | no ne ↦
              up.1 k w n (λ e. ne (u x i (omega arith) b (λ z. n (sym q ∙ z)) oi (p ∙ e)))
                (c.into k w n (x, omega arith, p, q))
        ];
      }

  -- One round of the loop.
  reinsert_skip :
      (ins : RefMap → ℕ → Ptr → RefMap) (n i : ℕ) (m : RefMap)
      → total - suc n ≡ i
      → (old i).ptr ≡ null
      → reinsert ins old total (suc n) m ≡ reinsert ins old total n m
  unfolding reinsert
  reinsert_skip ins n i m j z = let t : ((old i).ptr == null) ≡ true = ground arith in rw (j, t)

  reinsert_put :
      (ins : RefMap → ℕ → Ptr → RefMap) (n i : ℕ) (m : RefMap)
      → total - suc n ≡ i
      → Occupied old i
      → reinsert ins old total (suc n) m ≡ reinsert ins old total n (ins m (old i).ref (old i).ptr)
  unfolding reinsert
  reinsert_put ins n i m j z = let t : ((old i).ptr == null) ≡ false = ground arith in rw (j, t)

  abbrev Done : RefMap → Type 0
  Done m = Copied old total m × (m.slot_count ≡ total * 2)

  reinsert-Done :
      (ins : RefMap → ℕ → Ptr → RefMap)
      → Puts ins
      → (n i : ℕ) (m : RefMap) → i + n ≡ total
      → m.slot_count ≡ total * 2
      → Copied old i m
      → Done (reinsert ins old total n m)
  reinsert-Done ins ok zero i m e c d =
      let e' : i ≡ total = omega arith in
      subst Done (sym (reinsert_none ins m)) (subst (λ j. Copied old j m) e' d, c)
    where
      reinsert_none :
          (ins : RefMap → ℕ → Ptr → RefMap) (m : RefMap) → reinsert ins old total zero m ≡ m
      reinsert_none ins m = unfold reinsert in refl
  reinsert-Done ins ok (suc n) i m e c d =
      let j : total - suc n ≡ i = omega arith in
      let room : (m.size + 1) * 2 ≤ m.slot_count =
        let z = d.size in omega (arith, occupied-le old i) in
      elim (ℕ_discrete (old i).ptr null) [
        | yes z ↦
            subst Done (sym (reinsert_skip ins n i m j z))
              (reinsert-Done ins ok n (suc i) m (omega arith) c (Copied-skip i m z d))
        | no z ↦
            let m' = put m (old i).ref (old i).ptr in
            subst Done
              (sym (
                reinsert_put ins n i m j z
                ∙ ap (reinsert ins old total n) (ok m (old i).ref (old i).ptr room)))
              (reinsert-Done ins ok n (suc i) m' (omega arith)
                ((slot_count-put m (old i).ref (old i).ptr).0 ∙ c)
                (Copied-put i m (omega arith) z room d))
      ]

-- The same references are mapped to the same nodes.
abbrev pub SameEntries : RefMap → RefMap → Type 0
SameEntries m m' = (k : ℕ) (w : Ptr) → w ≢ null → Holds m k w ↔ Holds m' k w

fresh_double-IsMap : (n : ℕ) → (k : ℕ) × (n ≡ 2 ^ k) → IsMap (fresh_map (n * 2))
fresh_double-IsMap n (k, e) =
    subst (λ z. IsMap (fresh_map z)) (omega (arith, pow-suc 2 k, e)) (fresh_map-IsMap (suc k))

grow_lem :
    (ins : RefMap → ℕ → Ptr → RefMap) (m : RefMap)
    → Puts ins
    → IsMap m
    → IsMap (grow ins m)
      × ((grow ins m).slot_count ≡ m.slot_count * 2)
      × ((grow ins m).size ≡ m.size)
      × SameEntries m (grow ins m)
unfolding grow
grow_lem ins m ok v =
    let (c, e) =
      reinsert-Done m.slots m.slot_count v.unique ins ok m.slot_count 0
        (fresh_map (m.slot_count * 2)) (omega arith) refl
        (record {
          valid = fresh_double-IsMap m.slot_count v.power;
          size = refl;
          back = λ k w n (x, xb, p, q). absurd (n (sym q));
          into = λ k w n (x, xb, p, q). elim xb [ ];
        }) in
    (c.valid, e, c.size ∙ sym v.counted, λ k w n. (c.into k w n, c.back k w n))

Puts-insert_to : (d : ℕ) → Puts (insert_to d)
unfolding insert_to
Puts-insert_to zero m r o room = refl
Puts-insert_to (suc d) m r o room =
    let t : ltb m.slot_count ((m.size + 1) * 2) ≡ false = ground arith in rw t

-- The table into which `insert` puts the entry.
abbrev enough : RefMap → RefMap
enough m = if ltb m.slot_count ((m.size + 1) * 2) then grow (insert_to 1) m else m

enough_lem :
    (m : RefMap)
    → IsMap m
    → IsMap (enough m)
      × (((enough m).size + 1) * 2 ≤ (enough m).slot_count)
      × ((enough m).size ≡ m.size)
      × SameEntries m (enough m)
enough_lem m v = elim (Bool-cases (ltb m.slot_count ((m.size + 1) * 2))) [
  | inl t ↦
      let (w, c, s, same) = grow_lem (insert_to 1) m (Puts-insert_to 1) v in
      let r = v.room in let z = v.slots in rw t (w, omega (arith, c, s), s, same)
  | inr t ↦ rw t (v, ground arith, refl, λ k w n. ((λ h. h), λ h. h))
]

module _ (m : RefMap) (r : ℕ) (o : Ptr) (v : IsMap m) (n : o ≢ null) where
  -- `insert` keeps the table well formed.
  pub insert-IsMap : IsMap (insert m r o)
  unfolding insert
  insert-IsMap = let (w, room, s, same) = enough_lem m v in put-IsMap (enough m) r o w n room

  -- After `insert` of a node that is not null into a well-formed table, the reference is found at
  -- that node and every other reference where it was, also when the table grows.
  pub find-insert : (k : ℕ) → find (insert m r o) k ≡ (if k == r then o else find m k)
  unfolding insert
  find-insert k =
      let (w, room, s, same) = enough_lem m v in
      let w' = put-IsMap (enough m) r o w n room in
      let (new, keep, back) = put-Updated (enough m) r o w n in
      elim (ℕ_discrete k r) [
        | yes e ↦
            let t : (k == r) ≡ true = ground arith in
            rw t (ap (find (insert m r o)) e ∙ Holds-find (insert m r o) r o w' new n)
        | no ne ↦
            let t : (k == r) ≡ false = ground arith in
            rw t (
              find-same (insert m r o) m k k w' v (λ x nx h. (same k x nx).1 (back k x nx ne h))
                (λ x nx h. keep k x nx ne ((same k x nx).0 h)))
      ]

  -- `size` counts the references that are mapped.
  pub size-insert : (insert m r o).size ≡ m.size + (if find m r == null then 1 else 0)
  unfolding insert
  size-insert =
      let (w, room, s, same) = enough_lem m v in
      let f =
        find-same (enough m) m r r w v (λ x nx h. (same r x nx).1 h)
          (λ x nx h. (same r x nx).0 h) in
      size-put (enough m) r o w n ∙ rw (s, f) refl

double_until-pow :
    (fuel cap capacity : ℕ)
    → (k : ℕ) × (cap ≡ 2 ^ k)
    → (k : ℕ) × (double_until fuel cap capacity ≡ 2 ^ k)
unfolding double_until
double_until-pow zero cap capacity p = p
double_until-pow (suc fuel) cap capacity (k, e) = elim (Bool-cases (ltb cap capacity)) [
  | inl t ↦ rw t (double_until-pow fuel (cap * 2) capacity (suc k, (omega (arith, e, pow-suc 2 k))))
  | inr t ↦ rw t (k, e)
]

-- The constructor makes a well-formed table, in which nothing is found.
pub make_map-IsMap :
    (capacity : ℕ) → IsMap (make_map capacity) × ((k : ℕ) → find (make_map capacity) k ≡ null)
unfolding make_map
make_map-IsMap capacity =
    let (k, e) = double_until-pow 64 16 capacity (4, refl) in
    let v = subst (λ z. IsMap (fresh_map z)) (sym e) (fresh_map-IsMap k) in
    (
      v,
      λ r. elim (ℕ_discrete (find (make_map capacity) r) null) [
        | yes z ↦ z
        | no n ↦
            let (x, xb, p, q) =
              find-Holds (make_map capacity) r (find (make_map capacity) r) v refl n in
            sym q
      ],
    )

double_until-le :
    (fuel cap capacity : ℕ) → capacity ≤ cap * 2 ^ fuel → capacity ≤ double_until fuel cap capacity
unfolding double_until
double_until-le zero cap capacity h = omega arith
double_until-le (suc fuel) cap capacity h = elim (Bool-cases (ltb cap capacity)) [
  | inl t ↦ rw t (double_until-le fuel (cap * 2) capacity (grind (arith, pow-suc)))
  | inr t ↦ rw t (ground arith)
]
