-- ===== src/Book/RefMap/Table.antt =====
-- When a table of slots is well formed, and where a walk along it ends.
use itchbook.Base.{
  ℕ, zero, suc, ◌+◌, ◌*◌, ◌^◌, ◌≤◌, ◌<◌, ◌≡◌, refl, sym, ap, subst, ◌∙◌, ◌≢◌, inl, inr, arith, ◌==◌,
  if◌then◌else◌, Bool-cases,
}
use native.Mathlib.Decide.{dec_lt}
use itchbook.Book.Order.{Ptr, null}
use itchbook.Book.RefMap.{Slot, Slots, set_slot, home, next_slot, Probe, found, vacant, lost, probe}
use itchbook.Book.RefMap.Cycle.{dist, IsMask, dist-next, dist_inj, dist-lt, dist_self}

abbrev pub Occupied : Slots → ℕ → Type 0
Occupied s i = (s i).ptr ≢ null

-- Every entry is reached from its home without passing a vacant slot.
abbrev pub Reached : ℕ → ℕ → Slots → Type 0
Reached n mask s =
    (x p : ℕ)
    → x < n
    → p < n
    → Occupied s x
    → dist n (home mask (s x).ref) p < dist n (home mask (s x).ref) x
    → Occupied s p

-- No reference has two entries.
abbrev pub Unique : ℕ → Slots → Type 0
Unique n s = (x y : ℕ) → x < n → y < n → Occupied s x → Occupied s y → (s x).ref ≡ (s y).ref → x ≡ y

-- `r` is mapped to `v`.
abbrev pub Entry : ℕ → Slots → ℕ → Ptr → Type 0
Entry n s r v = (x : ℕ) × (x < n) × ((s x).ref ≡ r) × ((s x).ptr ≡ v)

abbrev pub tally : Slot → ℕ
tally v = if v.ptr == null then 0 else 1

abbrev pub occupied : Slots → ℕ → ℕ
occupied s zero = 0
occupied s (suc n) = tally (s n) + occupied s n

pub occupied-le : (s : Slots) (n : ℕ) → occupied s n ≤ n
occupied-le s zero = omega arith
occupied-le s (suc n) = ground (arith, occupied-le s n)

-- A write below `n` changes the count by what it changes there.
pub occupied-set_above :
    (s : Slots) (n i : ℕ) (v : Slot) → n ≤ i → occupied (set_slot s i v) n ≡ occupied s n
occupied-set_above s zero i v h = refl
occupied-set_above s (suc n) i v h = ground (arith, occupied-set_above s n i v (omega arith))

pub occupied-set :
    (s : Slots) (n i : ℕ) (v : Slot)
    → i < n
    → occupied (set_slot s i v) n + tally (s i) ≡ occupied s n + tally v
occupied-set s zero i v h = absurd (omega arith)
occupied-set s (suc n) i v h = elim (Bool-cases (i == n)) [
  | inl e ↦
      let q : i ≡ n = ground arith in
      ground (arith, occupied-set_above s n i v (omega (arith, q)), q, ap (λ k. tally (s k)) q)
  | inr e ↦ ground (arith, occupied-set s n i v (ground arith))
]

-- With fewer entries than slots there is a vacant slot.
pub some_vacant : (s : Slots) (n : ℕ) → occupied s n < n → (e : ℕ) × (e < n) × ((s e).ptr ≡ null)
some_vacant s zero h = absurd (omega arith)
some_vacant s (suc n) h = elim (Bool-cases ((s n).ptr == null)) [
  | inl e ↦ (n, omega arith, ground arith)
  | inr e ↦ let (k, b, v) = some_vacant s n (ground arith) in (k, omega arith, v)
]

-- Where the walk for `r` may end.
abbrev pub Ends : ℕ → ℕ → Slots → ℕ → Probe → Type 0
Ends n mask s r (found x) = (x < n) × Occupied s x × ((s x).ref ≡ r)
Ends n mask s r (vacant x) =
    (x < n)
    × ((s x).ptr ≡ null)
    × ((p : ℕ)
        → p < n
        → dist n (home mask r) p < dist n (home mask r) x
        → Occupied s p × ((s p).ref ≢ r))
Ends n mask s r lost = ⊥

module _ (n mask : ℕ) (ok : IsMask n mask) (s : Slots) (e : ℕ) (eb : e < n)
    (ev : (s e).ptr ≡ null) where
  -- All slots between the home and `i` are passed.
  abbrev Passed : ℕ → ℕ → Type 0
  Passed r i =
      (p : ℕ)
      → p < n
      → dist n (home mask r) p < dist n (home mask r) i
      → Occupied s p × ((s p).ref ≢ r)

  Passed-next :
      (r i : ℕ)
      → i < n
      → Passed r i
      → Occupied s i
      → (s i).ref ≢ r
      → (dist n (home mask r) i + 1 < n) × Passed r (next_slot mask i)
  Passed-next r i b pass oi ne =
      let h = home mask r in
      let hb = ok.home_lt r in
      let below : dist n h i + 1 < n = elim (dec_lt (dist n h i + 1) n) [
        | yes k ↦ k
        | no k ↦ absurd (elim (dec_lt (dist n h e) (dist n h i)) [
          | yes l ↦ (pass e eb l).0 ev
          | no l ↦ oi (
              subst (λ z. (s z).ptr ≡ null)
                (dist_inj n h e i hb eb b (omega (arith, dist-lt n h e hb eb))) ev)
        ])
      ] in
      (
        below,
        λ p pb d.
            let d' =
              subst (λ z. dist n h p < z)
                (ap (dist n h) (ok.next_lem i b) ∙ dist-next n h i hb b below) d in
            elim (dec_lt (dist n h p) (dist n h i)) [
              | yes l ↦ pass p pb l
              | no l ↦
                  subst (λ z. Occupied s z × ((s z).ref ≢ r))
                    (sym (dist_inj n h p i hb pb b (omega arith))) (oi, ne)
            ],
      )

  probe_from :
      (fuel r i : ℕ)
      → i < n
      → n ≤ fuel + dist n (home mask r) i
      → Passed r i
      → Ends n mask s r (probe fuel mask s r i)
  unfolding probe
  probe_from zero r i b f pass = absurd (omega (arith, dist-lt n (home mask r) i (ok.home_lt r) b))
  probe_from (suc fuel) r i b f pass = elim (Bool-cases ((s i).ptr == null)) [
    | inl v ↦ rw v (b, ground arith, pass)
    | inr o ↦ elim (Bool-cases ((s i).ref == r)) [
      | inl m ↦ rw (o, m) (b, ground arith, ground arith)
      | inr m ↦
          let (below, pass') = Passed-next r i b pass (ground arith) (ground arith) in
          let d =
            ap (dist n (home mask r)) (ok.next_lem i b)
            ∙ dist-next n (home mask r) i (ok.home_lt r) b below in
          rw (o, m)
            (probe_from fuel r (next_slot mask i) (ok.home_lt (i + 1)) (omega (arith, d)) pass')
    ]
  ]

  -- With a vacant slot in the table, the walk from the home ends, and is right.
  pub probe-Ends : (r : ℕ) → Ends n mask s r (probe n mask s r (home mask r))
  probe-Ends r =
      probe_from n r (home mask r) (ok.home_lt r) (omega arith)
        (λ p pb d. absurd (omega (arith, dist_self n (home mask r))))

-- A well-formed table: a power of two of slots, at most half of them taken, and every entry found
-- on the walk from its home.
pub record IsTable (n mask size : ℕ) (s : Slots) : Type 0 where
  pub power : (k : ℕ) × (n ≡ 2 ^ k)
  pub masks : IsMask n mask
  pub reached : Reached n mask s
  pub unique : Unique n s
  pub counted : size ≡ occupied s n
  pub room : size * 2 ≤ n
  pub slots : 0 < n

module _ {n mask size : ℕ} {s : Slots} (v : IsTable n mask size s) where
  pub vacancy : (e : ℕ) × (e < n) × ((s e).ptr ≡ null)
  vacancy = let c = v.counted in let r = v.room in let z = v.slots in some_vacant s n (omega arith)

  pub probe-Table : (r : ℕ) → Ends n mask s r (probe n mask s r (home mask r))
  probe-Table r = let (e, b, z) = vacancy in probe-Ends n mask v.masks s e b z r

  -- The walk stops at the entry of the reference, if it has one.
  pub found_entry :
      (r x : ℕ) (q : Probe) → x < n → Occupied s x → (s x).ref ≡ r → Ends n mask s r q → q ≡ found x
  found_entry r x (found y) b o e (yb, yo, ye) = ap found (v.unique y x yb b yo o (ye ∙ sym e))
  found_entry r x (vacant y) b o e (yb, yv, pass) =
      absurd (elim (dec_lt (dist n (home mask r) x) (dist n (home mask r) y)) [
        | yes l ↦ (pass x b l).1 e
        | no l ↦ elim (dec_lt (dist n (home mask r) y) (dist n (home mask r) x)) [
          | yes k ↦
              v.reached x y b yb o
                (subst (λ k'. dist n (home mask k') y < dist n (home mask k') x) (sym e) k) yv
          | no k ↦ o (
              subst (λ z. (s z).ptr ≡ null)
                (dist_inj n (home mask r) y x (v.masks.home_lt r) yb b (omega arith)) yv)
        ]
      ])
  found_entry r x lost b o e z = absurd z
