-- ===== src/Book/RefMap/Remove.antt =====
-- `erase_at` and `erase` take one reference out of the map.
use itchbook.Base.{
  ℕ, ◌+◌, ◌<◌, ◌≡◌, refl, sym, ap, subst, ◌∙◌, ◌≢◌, Bool, true, false, not, arith, ◌==◌,
  if◌then◌else◌,
}
use native.Mathlib.Decide.{ℕ_discrete}
use itchbook.Book.Order.{Ptr, null}
use itchbook.Book.RefMap.{
  RefMap, Slot, Slots, set_slot, erase_at, erase, find, probe_map, Probe, found, vacant, lost,
}
use itchbook.Book.RefMap.Cycle.{dist-lt, dist_self}
use itchbook.Book.RefMap.Table.{Occupied, Ends, occupied-set, vacancy}
use itchbook.Book.RefMap.Write.{vacate, Unique-vacate}
use itchbook.Book.RefMap.Find.{IsMap, Holds, probe_map-Ends, find-same, find-Holds}
use itchbook.Book.RefMap.Erase.{Shifted, shift_lem}

abbrev gone : Slots → ℕ → Slot
gone s i = record { ref = (s i).ref; ptr = null }

module _ (m : RefMap) (i : ℕ) (v : IsMap m) (b : i < m.slot_count) (o : Occupied m.slots i) where
  cleared :
      Shifted m.slot_count m.mask v.masks (set_slot m.slots i (gone m.slots i)) (erase_at m i).slots
  unfolding erase_at
  cleared =
      let (e, eb, z) = vacancy v in
      let ne : i ≢ e = λ w. o (subst (λ y. (m.slots y).ptr ≡ null) (sym w) z) in
      shift_lem m.slot_count m.mask v.masks m.slot_count (set_slot m.slots i (gone m.slots i)) i i e
        (record {
          hole = ground arith;
          hole_lt = b;
          scan_lt = b;
          end_lt = eb;
          stop = ground arith;
          ends = ne;
          apart = ne;
          reached = vacate m.slot_count m.mask m.slots i (gone m.slots i) v.reached refl;
          kept = λ x xb pos le. absurd (omega (arith, dist_self m.slot_count i));
          unique = Unique-vacate m.slot_count m.mask m.slots i (gone m.slots i) v.unique refl;
        })
        (omega (arith, dist-lt m.slot_count i e b eb))

  -- `erase_at` keeps the table well formed.
  pub erase_at-IsMap : IsMap (erase_at m i)
  unfolding erase_at
  erase_at-IsMap =
      let c = cleared in
      record {
        power = v.power;
        masks = v.masks;
        reached = c.reached;
        unique = c.unique;
        counted =
            let q = occupied-set m.slots m.slot_count i (gone m.slots i) b in
            let k = c.count in let z = v.counted in ground arith;
        room = let r = v.room in omega arith;
        slots = v.slots;
      }

  pub erase_at-Holds :
      (k : ℕ) (w : Ptr)
      → w ≢ null
      → (Holds m k w → k ≢ (m.slots i).ref → Holds (erase_at m i) k w)
        × (Holds (erase_at m i) k w → Holds m k w × (k ≢ (m.slots i).ref))
  unfolding erase_at
  erase_at-Holds k w n =
      let c = cleared in
      (
        (λ (x, xb, p, q) nk. (c.same k w n).0 (
          x,
          xb,
          (let nx : i ≢ x = λ e. nk (sym p ∙ ap (λ y. (m.slots y).ref) (sym e)) in ground arith),
          (let nx : i ≢ x = λ e. nk (sym p ∙ ap (λ y. (m.slots y).ref) (sym e)) in ground arith),
        )),
        (λ h.
            let (x, xb, p, q) = (c.same k w n).1 h in
            let nx : i ≢ x = λ e. n (ground arith) in
            let p' : (m.slots x).ref ≡ k = ground arith in
            let q' : (m.slots x).ptr ≡ w = ground arith in
            (
              (x, xb, p', q'),
              λ e. nx (v.unique i x b xb o (λ z. n (sym q' ∙ z)) (sym e ∙ sym p')),
            )),
      )

  -- After `erase_at` the reference is not found, and every other where it was.
  pub find-erase_at :
      (k : ℕ) → find (erase_at m i) k ≡ (if k == (m.slots i).ref then null else find m k)
  find-erase_at k = elim (ℕ_discrete k (m.slots i).ref) [
    | no ne ↦
        let t : (k == (m.slots i).ref) ≡ false = ground arith in
        rw t (
          find-same (erase_at m i) m k k erase_at-IsMap v
            (λ w nw h. ((erase_at-Holds k w nw).1 h).0) (λ w nw h. (erase_at-Holds k w nw).0 h ne))
    | yes e ↦
        let t : (k == (m.slots i).ref) ≡ true = ground arith in
        rw t (elim (ℕ_discrete (find (erase_at m i) k) null) [
          | yes z ↦ z
          | no z ↦ absurd (
              ((erase_at-Holds k (find (erase_at m i) k) z).1
                  (find-Holds (erase_at m i) k (find (erase_at m i) k) erase_at-IsMap refl z)).1
                e)
        ])
  ]

  pub size-erase_at : (erase_at m i).size + 1 ≡ m.size
  unfolding erase_at
  size-erase_at =
      let q = occupied-set m.slots m.slot_count i (gone m.slots i) b in
      let z = v.counted in ground arith

-- What a call of `erase` does to a map.
abbrev pub Erased : RefMap → ℕ → RefMap × Bool → Type 0
Erased m r (m', done) =
    IsMap m'
    × ((k : ℕ) → find m' k ≡ (if k == r then null else find m k))
    × (done ≡ not (find m r == null))
    × (m'.size + (if done then 1 else 0) ≡ m.size)

missing : (f : ℕ → Ptr) (k r : ℕ) → f r ≡ null → f k ≡ (if k == r then null else f k)
missing f k r z = elim (ℕ_discrete k r) [
  | yes e ↦ let t : (k == r) ≡ true = ground arith in rw t (ap f e ∙ z)
  | no ne ↦ let t : (k == r) ≡ false = ground arith in rw t refl
]

erase_by :
    (m : RefMap) (r : ℕ) (q : Probe)
    → IsMap m
    → probe_map m r ≡ q
    → Ends m.slot_count m.mask m.slots r q
    → Erased m r (erase m r)
unfolding erase find
erase_by m r (found i) v e (b, o, k) =
    let t : (find m r == null) ≡ false = rw (e, find) (ground arith) in
    rw (e, erase)
      (
        erase_at-IsMap m i v b o,
        (λ j. find-erase_at m i v b o j ∙ ap (λ z. if j == z then null else find m j) k),
        ap not (sym t),
        size-erase_at m i v b o,
      )
erase_by m r (vacant i) v e d =
    let z : find m r ≡ null = rw (e, find) refl in
    rw (e, erase) (v, (λ k. missing (find m) k r z), ap (λ y. not (y == null)) (sym z), omega arith)
erase_by m r lost v e d = absurd d

-- On a well-formed table `erase` unmaps exactly the given reference, reports whether it was mapped,
-- keeps every other reference where it was, and keeps the table well formed and its size exact.
pub erase_lem : (m : RefMap) (r : ℕ) → IsMap m → Erased m r (erase m r)
erase_lem m r v = erase_by m r (probe_map m r) v refl (probe_map-Ends m r v)
