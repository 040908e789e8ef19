-- ===== src/Book/RefMap/Erase.antt =====
-- `erase_at` removes one entry, and its backward shift leaves every other within reach.
use itchbook.Base.{
  ℕ, zero, suc, ◌+◌, ◌≤◌, ◌<◌, ◌≡◌, refl, sym, ap, subst, ◌∙◌, ◌≢◌, ◌↔◌, ◌⊎◌, inl, inr, true, false,
  arith, ◌==◌, Bool-cases,
}
use native.Mathlib.Decide.{ℕ_discrete, dec_lt}
use itchbook.Book.Order.{Ptr, null}
use itchbook.Book.RefMap.{Slot, Slots, set_slot, home, next_slot, movable, shift_back}
use itchbook.Book.RefMap.Cycle.{
  dist, IsMask, dist_inj, dist-lt, dist_self, dist-pos, dist-next_cases, next-dist, on_the_way,
  movable_iff,
}
use itchbook.Book.RefMap.Table.{Occupied, Entry, Reached, Unique, occupied, occupied-set}
use itchbook.Book.RefMap.Write.{ReachedBut, fill, vacate}

-- An entry moved from `j` to the vacant slot `i`.
abbrev pub move : Slots → ℕ → ℕ → Slots
move s i j = set_slot (set_slot s i (s j)) j (record { ref = (s j).ref; ptr = null })

-- The entries of two tables are the same.
abbrev pub SameEntry : ℕ → Slots → Slots → Type 0
SameEntry n s t = (k : ℕ) (w : Ptr) → w ≢ null → Entry n s k w ↔ Entry n t k w

module _ (n mask : ℕ) (ok : IsMask n mask) where
  moved-Unique :
      (s : Slots) (i j : ℕ)
      → Unique n s
      → (s i).ptr ≡ null
      → Occupied s j
      → i < n
      → j < n
      → Unique n (move s i j)
  moved-Unique s i j u z o a b x y xb yb ox oy e =
      ground (arith, u x y xb yb, u j y b yb, u x j xb b)

  -- In the middle of the shift: `i` is the hole, `j` the last slot looked at. Every entry between
  -- them stays where it is, since the hole is not on its way.
  pub record Shifting (s : Slots) (i j e : ℕ) : Type 0 where
    pub hole : (s i).ptr ≡ null
    pub hole_lt : i < n
    pub scan_lt : j < n
    pub end_lt : e < n
    pub stop : (s e).ptr ≡ null
    pub ends : i ≢ e
    pub apart : j ≢ e
    pub reached : ReachedBut n mask s i
    pub kept :
        (x : ℕ)
        → x < n
        → 0 < dist n i x
        → dist n i x ≤ dist n i j
        → Occupied s x × ¬ (dist n (home mask (s x).ref) i < dist n (home mask (s x).ref) x)
    pub unique : Unique n s

  next_lt : (j : ℕ) → next_slot mask j < n
  next_lt j = ok.home_lt (j + 1)

  next_cases :
      (i j : ℕ)
      → i < n
      → j < n
      → ((next_slot mask j ≡ i) × (dist n i j + 1 ≡ n))
        ⊎ (dist n i (next_slot mask j) ≡ dist n i j + 1)
  next_cases i j a b = rw (ok.next_lem j b) (dist-next_cases n i j a b)

  -- The shift ends at a vacant slot: then the hole is on nobody's way.
  Shifting-end :
      (s : Slots) (i j e : ℕ)
      → Shifting s i j e
      → (s (next_slot mask j)).ptr ≡ null
      → Reached n mask s
  Shifting-end s i j e v z x p xb pb ox d = elim (v.reached x p xb pb ox d) [
    | inr o ↦ o
    | inl q ↦ absurd (
        let h = home mask (s x).ref in
        let hb = ok.home_lt (s x).ref in
        let d' = subst (λ y. dist n h y < dist n h x) q d in
        let nx : i ≢ x = λ w. ox (subst (λ y. (s y).ptr ≡ null) w v.hole) in
        let far : dist n i j < dist n i x = elim (dec_lt (dist n i j) (dist n i x)) [
          | yes l ↦ l
          | no l ↦ absurd ((v.kept x xb (dist-pos n i x v.hole_lt xb nx) (omega arith)).1 d')
        ] in
        elim (next_cases i j v.hole_lt v.scan_lt) [
          | inl (c, l) ↦ omega (arith, dist-lt n i x v.hole_lt xb)
          | inr l ↦
              let j' = next_slot mask j in
              let nj : dist n i j' ≢ dist n i x = λ w.
                ox (
                  subst (λ y. (s y).ptr ≡ null) (dist_inj n i j' x v.hole_lt (next_lt j) xb w) z) in
              let on = on_the_way n h i j' x hb v.hole_lt (next_lt j) xb d' (omega arith) in
              elim (v.reached x j' xb (next_lt j) ox on) [
                | inr o ↦ o z
                | inl w ↦ omega (arith, dist_self n i, ap (dist n i) w)
              ]
        ])
  ]

  Shifting-stay :
      (s : Slots) (i j e : ℕ)
      → Shifting s i j e
      → Occupied s (next_slot mask j)
      → movable i (next_slot mask j) (home mask (s (next_slot mask j)).ref) ≡ false
      → Shifting s i (next_slot mask j) e
  Shifting-stay s i j e v o t =
      let j' = next_slot mask j in
      let ne : i ≢ j' = λ w. o (subst (λ y. (s y).ptr ≡ null) w v.hole) in
      let step : dist n i j' ≡ dist n i j + 1 = elim (next_cases i j v.hole_lt v.scan_lt) [
        | inl (c, _) ↦ absurd (ne (sym c))
        | inr l ↦ l
      ] in
      record {
        hole = v.hole;
        hole_lt = v.hole_lt;
        scan_lt = next_lt j;
        end_lt = v.end_lt;
        stop = v.stop;
        ends = v.ends;
        apart = λ w. o (subst (λ y. (s y).ptr ≡ null) (sym w) v.stop);
        reached = v.reached;
        kept = λ x xb pos le. elim (dec_lt (dist n i j) (dist n i x)) [
          | no l ↦ v.kept x xb pos (omega arith)
          | yes l ↦
              subst
                (λ y.
                  Occupied s y
                  × ¬ (dist n (home mask (s y).ref) i < dist n (home mask (s y).ref) y))
                (dist_inj n i j' x v.hole_lt (next_lt j) xb (omega arith))
                (
                  o,
                  λ w.
                      let m =
                        (movable_iff n i j' (home mask (s j').ref) v.hole_lt (next_lt j)
                            (ok.home_lt (s j').ref) ne).1
                          w in
                      cc,
                )
        ];
        unique = v.unique;
      }

  Shifting-move :
      (s : Slots) (i j e : ℕ)
      → Shifting s i j e
      → Occupied s (next_slot mask j)
      → movable i (next_slot mask j) (home mask (s (next_slot mask j)).ref) ≡ true
      → Shifting (move s i (next_slot mask j)) (next_slot mask j) (next_slot mask j) e
  Shifting-move s i j e v o t =
      let j' = next_slot mask j in
      let k = home mask (s j').ref in
      let gone : Slot = record { ref = (s j').ref; ptr = null } in
      let ne : i ≢ j' = λ w. o (subst (λ y. (s y).ptr ≡ null) w v.hole) in
      let nend : j' ≢ e = λ w. o (subst (λ y. (s y).ptr ≡ null) (sym w) v.stop) in
      let d = (movable_iff n i j' k v.hole_lt (next_lt j) (ok.home_lt (s j').ref) ne).0 t in
      record {
        hole = ground arith;
        hole_lt = next_lt j;
        scan_lt = next_lt j;
        end_lt = v.end_lt;
        stop = let z = v.stop in let a = v.ends in ground arith;
        ends = nend;
        apart = nend;
        reached =
            vacate n mask (set_slot s i (s j')) j' gone
              (fill n mask s i (s j') v.reached o
                (λ p pb l. v.reached j' p (next_lt j) pb o (omega arith)))
              refl;
        kept = λ x xb pos le. absurd (omega (arith, dist_self n j'));
        unique = moved-Unique s i j' v.unique v.hole o v.hole_lt (next_lt j);
      }

  -- What the shift leaves: a table that reaches its entries, and they are the same.
  pub record Shifted (s t : Slots) : Type 0 where
    pub reached : Reached n mask t
    pub unique : Unique n t
    pub same : SameEntry n s t
    pub count : occupied t n ≡ occupied s n

  move-same :
      (s : Slots) (i j : ℕ)
      → (s i).ptr ≡ null
      → Occupied s j
      → i < n
      → j < n
      → SameEntry n s (move s i j)
  move-same s i j z o a b k w nw = (
    (λ (x, xb, p, q). elim (ℕ_discrete x j) [
      | yes e ↦ (i, a, ground arith, ground arith)
      | no ne ↦
          let ni : x ≢ i = λ l. nw (sym q ∙ ap (λ y. (s y).ptr) l ∙ z) in
          (x, xb, ground arith, ground arith)
    ]),
    (λ (x, xb, p, q). elim (ℕ_discrete x i) [
      | yes e ↦ (j, b, ground arith, ground arith)
      | no ne ↦ elim (ℕ_discrete x j) [
        | yes l ↦ absurd (nw (ground arith))
        | no l ↦ (x, xb, ground arith, ground arith)
      ]
    ]),
  )

  move-count :
      (s : Slots) (i j : ℕ)
      → (s i).ptr ≡ null
      → Occupied s j
      → i < n
      → j < n
      → occupied (move s i j) n ≡ occupied s n
  move-count s i j z o a b =
      let gone : Slot = record { ref = (s j).ref; ptr = null } in
      ground (arith, occupied-set (set_slot s i (s j)) n j gone b, occupied-set s n i (s j) a)

  -- With fuel for the distance to a vacant slot the loop ends there.
  pub shift_lem :
      (fuel : ℕ) (s : Slots) (i j e : ℕ)
      → Shifting s i j e
      → dist n j e ≤ fuel
      → Shifted s (shift_back fuel mask s i j)
  unfolding shift_back
  shift_lem zero s i j e v f = absurd (omega (arith, dist-pos n j e v.scan_lt v.end_lt v.apart))
  shift_lem (suc fuel) s i j e v f =
      let j' = next_slot mask j in
      let closer : dist n j' e ≤ fuel =
        let d = next-dist n j e v.scan_lt v.end_lt v.apart in
        let c = ap (λ y. dist n y e) (ok.next_lem j v.scan_lt) in omega arith in
      elim (Bool-cases ((s j').ptr == null)) [
        | inl z ↦ rw z (record {
          reached = Shifting-end s i j e v (ground arith);
          unique = v.unique;
          same = λ k w nw. ((λ h. h), λ h. h);
          count = refl;
        })
        | inr z ↦
            let o : Occupied s j' = ground arith in
            elim (Bool-cases (movable i j' (home mask (s j').ref))) [
              | inr t ↦ rw (z, t) (shift_lem fuel s i j' e (Shifting-stay s i j e v o t) closer)
              | inl t ↦
                  let r =
                    shift_lem fuel (move s i j') j' j' e (Shifting-move s i j e v o t) closer in
                  let m = move-same s i j' v.hole o v.hole_lt (next_lt j) in
                  rw (z, t)
                    (record {
                      reached = r.reached;
                      unique = r.unique;
                      same = λ k w nw. (
                        (λ h. (r.same k w nw).0 ((m k w nw).0 h)),
                        λ h. (m k w nw).1 ((r.same k w nw).1 h),
                      );
                      count = r.count ∙ move-count s i j' v.hole o v.hole_lt (next_lt j);
                    })
            ]
      ]
