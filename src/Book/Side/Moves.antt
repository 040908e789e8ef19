-- ===== src/Book/Side/Moves.antt =====
-- `push` and `pop` keep a side well formed.
use itchbook.Base.{
  ℕ, ◌+◌, ◌-◌, ◌^◌, ◌<◌, ◌≡◌, refl, sym, ap, subst, ◌∙◌, inl, inr, true, false, Option, none, some,
  arith, ◌==◌, if◌then◌else◌, Bool-cases,
}
use native.Mathlib.Decide.{ℕ_discrete}
use itchbook.Book.Order.{Ptr, Heap, overflow_level}
use itchbook.Book.Level.{Level, empty, push_back, unlink}
use itchbook.Book.Side.{
  Side, LevelMap, map_find, map_set, map_erase, index_of, push, pop, push_overflow, pop_overflow,
  push_dense, pop_dense, set_level_idx, level_filled, level_emptied, or_empty,
}
use itchbook.Book.Side.Grid.{price_at-index_of}
use itchbook.Book.Side.Band.{IsBanded}
use itchbook.Book.Side.Dense.{
  count-push_back, count-unlink, push_dense-IsBanded, pop_dense-IsBanded,
}
use itchbook.Book.Side.Overflow.{
  Sorted, map_set-Sorted, map_erase-Sorted, map_find-set, map_find-erase,
}
use itchbook.Book.Side.Best.{IsSide}

-- What a change of the dense levels leaves: the map, and where prices belong.
abbrev SameMap : Side → Side → Type 0
SameMap s s' = (s'.overflow ≡ s.overflow) × ((q : ℕ) → index_of s' q ≡ index_of s q)

push_dense-SameMap : (h : Heap) (s : Side) (o : Ptr) (idx : ℕ) → SameMap s (push_dense h s o idx).1
unfolding push_dense level_filled index_of
push_dense-SameMap h s o idx = elim (Bool-cases (empty (s.dense idx))) [
  | inl t ↦ rw t (refl, λ q. refl)
  | inr t ↦ rw t (refl, λ q. refl)
]

pop_dense-SameMap : (h : Heap) (s : Side) (o : Ptr) (idx : ℕ) → SameMap s (pop_dense h s o idx).1
unfolding pop_dense level_emptied index_of
pop_dense-SameMap h s o idx = elim (Bool-cases (empty (unlink h (s.dense idx) o).1)) [
  | inl t ↦ elim (Bool-cases ((s.dense_nonempty - 1) == 0)) [
    | inl z ↦ rw (t, z) (refl, λ q. refl)
    | inr z ↦ rw (t, z) (refl, λ q. refl)
  ]
  | inr t ↦ rw t (refl, λ q. refl)
]

dense-IsSide : (s s' : Side) → IsSide s → IsBanded s' → SameMap s s' → IsSide s'
dense-IsSide s s' v b (m, i) = record {
  band = b;
  sorted = subst Sorted (sym m) v.sorted;
  stored = λ p l e. let (u, k) = v.stored p l (ap (λ n. map_find n p) (sym m) ∙ e) in (u, i p ∙ k);
}

-- The level in which an order rests.
abbrev pub resting : Heap → Side → Ptr → Level
resting h s o =
    if (h o).level_idx == overflow_level
    then or_empty (map_find s.overflow (h o).price)
    else s.dense (h o).level_idx

-- The level at which an order at a price rests, or would rest.
abbrev pub target : Side → ℕ → Level
target s p =
    if index_of s p == overflow_level
    then or_empty (map_find s.overflow p)
    else s.dense (index_of s p)

empty-count : (l : Level) → empty l ≡ (l.count == 0)
unfolding empty
empty-count l = refl

index_of-overflow :
    (s : Side) (m : LevelMap) (n : ℕ) (q : ℕ)
    → index_of (record s { overflow = m; peak_overflow = n }) q ≡ index_of s q
unfolding index_of
index_of-overflow s m n q = refl

push_overflow-IsSide :
    (h : Heap) (s : Side) (o : Ptr)
    → IsSide s
    → index_of s (h o).price ≡ overflow_level
    → (or_empty (map_find s.overflow (h o).price)).count + 1 < 2 ^ 32
    → IsSide (push_overflow h s o).1
unfolding push_overflow
push_overflow-IsSide h s o v i few =
    let price = (h o).price in
    let l = or_empty (map_find s.overflow price) in
    let l' = (push_back h l o).1 in
    let c = count-push_back h l o few in
    record {
      band = record {
        tally = v.band.tally;
        cursor = v.band.cursor;
        tick = v.band.tick;
        small = v.band.small;
      };
      sorted = map_set-Sorted s.overflow price l' v.sorted;
      stored = λ p w e. elim (ℕ_discrete p price) [
        | yes q ↦
            let f = map_find-set s.overflow price p l' v.sorted in
            let t : (p == price) ≡ true = ground arith in
            let k : some l' ≡ some w = sym (rw t at f) ∙ e in
            (ground (arith, empty-count w, c), index_of-overflow s _ _ p ∙ ap (index_of s) q ∙ i)
        | no ne ↦
            let f = map_find-set s.overflow price p l' v.sorted in
            let t : (p == price) ≡ false = ground arith in
            let (u, k) = v.stored p w (sym (rw t at f) ∙ e) in (u, index_of-overflow s _ _ p ∙ k)
      ];
    }

push_dense-IsSide :
    (h : Heap) (s : Side) (o : Ptr) (idx : ℕ)
    → IsSide s
    → idx < s.dense_size
    → (s.dense idx).count + 1 < 2 ^ 32
    → IsSide (push_dense h s o idx).1
push_dense-IsSide h s o idx v b few =
    dense-IsSide s (push_dense h s o idx).1 v (push_dense-IsBanded h s o idx v.band b few)
      (push_dense-SameMap h s o idx)

pop_dense-IsSide :
    (h : Heap) (s : Side) (o : Ptr) (idx : ℕ)
    → IsSide s
    → idx < s.dense_size
    → 0 < (s.dense idx).count
    → (s.dense idx).count < 2 ^ 32
    → IsSide (pop_dense h s o idx).1
pop_dense-IsSide h s o idx v b some_in few =
    dense-IsSide s (pop_dense h s o idx).1 v (pop_dense-IsBanded h s o idx v.band b some_in few)
      (pop_dense-SameMap h s o idx)

-- A map of the levels in use, off the band.
map-IsSide :
    (s : Side) (m : LevelMap)
    → IsSide s
    → Sorted m
    → ((p : ℕ) (l : Level)
        → map_find m p ≡ some l
        → (empty l ≡ false) × (index_of s p ≡ overflow_level))
    → IsSide (record s { overflow = m })
map-IsSide s m v o st = record {
  band = record {
    tally = v.band.tally;
    cursor = v.band.cursor;
    tick = v.band.tick;
    small = v.band.small;
  };
  sorted = o;
  stored = λ p l e. let (u, k) = st p l e in (u, index_of-overflow s m s.peak_overflow p ∙ k);
}

pop_overflow-IsSide :
    (h : Heap) (s : Side) (o : Ptr)
    → IsSide s
    → ((l : Level) → map_find s.overflow (h o).price ≡ some l → (0 < l.count) × (l.count < 2 ^ 32))
    → IsSide (pop_overflow h s o).1
unfolding pop_overflow
pop_overflow-IsSide h s o v counts = from (map_find s.overflow (h o).price) refl
  where
    price : ℕ
    price = (h o).price

    from : (r : Option Level) → map_find s.overflow price ≡ r → IsSide (pop_overflow h s o).1
    from none e = rw (e, pop_overflow) v
    from (some l) e =
        let (p, b) = counts l e in
        let l' = (unlink h l o).1 in
        let c = count-unlink h l o p b in
        elim (Bool-cases (empty l')) [
          | inl t ↦
              rw (e, pop_overflow, t)
                (map-IsSide s (map_erase s.overflow price) v
                  (map_erase-Sorted s.overflow price v.sorted)
                  (λ q w f. elim (ℕ_discrete q price) [
                    | yes z ↦
                        let k = map_find-erase s.overflow price q v.sorted in
                        let t' : (q == price) ≡ true = ground arith in
                        let x = sym (rw t' at k) ∙ f in absurd (cc)
                    | no ne ↦
                        let k = map_find-erase s.overflow price q v.sorted in
                        let t' : (q == price) ≡ false = ground arith in
                        v.stored q w (sym (rw t' at k) ∙ f)
                  ]))
          | inr t ↦
              rw (e, pop_overflow, t)
                (map-IsSide s (map_set s.overflow price l') v
                  (map_set-Sorted s.overflow price l' v.sorted)
                  (λ q w f. elim (ℕ_discrete q price) [
                    | yes z ↦
                        let k = map_find-set s.overflow price q l' v.sorted in
                        let t' : (q == price) ≡ true = ground arith in
                        let x : some l' ≡ some w = sym (rw t' at k) ∙ f in
                        (
                          subst (λ y. empty y ≡ false) (cc) t,
                          ap (index_of s) z ∙ (v.stored price l e).1,
                        )
                    | no ne ↦
                        let k = map_find-set s.overflow price q l' v.sorted in
                        let t' : (q == price) ≡ false = ground arith in
                        v.stored q w (sym (rw t' at k) ∙ f)
                  ]))
        ]

module _ (h : Heap) (s : Side) (o : Ptr) (v : IsSide s) where
  -- `push` keeps a side well formed, with the cursor at the best level in use, if the level that
  -- takes the order has fewer than 2^32 - 1 orders.
  pub push-IsSide : (target s (h o).price).count + 1 < 2 ^ 32 → IsSide (push h s o).1
  unfolding push
  push-IsSide few =
      let idx = index_of s (h o).price in
      let h1 = set_level_idx h o idx in
      let same : (h1 o).price ≡ (h o).price = ground arith in
      elim (ℕ_discrete idx overflow_level) [
        | yes e ↦
            let t : (idx == overflow_level) ≡ true = ground arith in
            rw t (
              push_overflow-IsSide h1 s o v (ap (index_of s) same ∙ e)
                (rw (ap (map_find s.overflow) same) (rw t at few)))
        | no ne ↦
            let t : (idx == overflow_level) ≡ false = ground arith in
            rw t (
              push_dense-IsSide h1 s o idx v (price_at-index_of s (h o).price v.band.tick ne).0
                (rw t at few))
      ]

  -- `pop` keeps a side well formed, with the cursor moved to the next best level where its level
  -- emptied, if the order is where its price puts it and its level counts it.
  pub pop-IsSide :
      (h o).level_idx ≡ index_of s (h o).price
      → 0 < (resting h s o).count
      → (resting h s o).count < 2 ^ 32
      → IsSide (pop h s o).1
  unfolding pop
  pop-IsSide at some_in few = elim (ℕ_discrete (h o).level_idx overflow_level) [
    | yes e ↦
        let t : ((h o).level_idx == overflow_level) ≡ true = ground arith in
        rw t (
          pop_overflow-IsSide h s o v (λ l f.
            let k = ap or_empty f in
            (
              subst (λ x. 0 < x.count) k (rw t at some_in),
              subst (λ x. x.count < 2 ^ 32) k (rw t at few),
            )))
    | no ne ↦
        let t : ((h o).level_idx == overflow_level) ≡ false = ground arith in
        rw t (
          pop_dense-IsSide h s o (h o).level_idx v
            (subst (λ k. k < s.dense_size) (sym at)
              (price_at-index_of s (h o).price v.band.tick (λ z. ne (at ∙ z))).0)
            (rw t at some_in) (rw t at few))
  ]
