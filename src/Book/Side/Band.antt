-- ===== src/Book/Side/Band.antt =====
-- The dense band stays well formed: the cursor is at the best level in use, and the levels in use
-- are counted.
use itchbook.Base.{
  ℕ, ◌+◌, ◌-◌, ◌*◌, ◌≤◌, ◌<◌, ◌≡◌, refl, sym, ap, subst, ◌∙◌, ◌≢◌, inl, inr, Bool, true, false, not,
  Option, none, some, arith, ltb, ◌==◌, if◌then◌else◌, Bool-cases,
}
use native.Mathlib.Decide.{ℕ_discrete, dec_lt}
use itchbook.Book.Order.{overflow_level}
use itchbook.Book.Level.{Level, empty}
use itchbook.Book.Side.{
  Side, set_level, seek_down, seek_up, level_filled, level_emptied, better, price_at,
}
use itchbook.Book.Side.Cursor.{
  Used, used, NoBetter, IsBest, IsNext, seek_down-IsBest, seek_up-IsNext, used-set, used-zero,
  used-pos,
}

pub record IsBanded (s : Side) : Type 0 where
  pub tally : s.dense_nonempty ≡ used s.dense s.dense_size
  pub cursor : IsBest s.is_bid s.dense s.dense_size s.cursor
  pub tick : 0 < s.tick
  pub small : s.dense_size < overflow_level

pub set_at : (d : ℕ → Level) (i : ℕ) (l : Level) → set_level d i l i ≡ l
set_at d i l = ground arith

pub set_away : (d : ℕ → Level) (i j : ℕ) (l : Level) → j ≢ i → set_level d i l j ≡ d j
set_away d i j l n = ground arith

Used-away : (d : ℕ → Level) (i j : ℕ) (l : Level) → j ≢ i → Used (set_level d i l) j → Used d j
Used-away d i j l n u = ap empty (sym (set_away d i j l n)) ∙ u

Used-kept : (d : ℕ → Level) (i j : ℕ) (l : Level) → j ≢ i → Used d j → Used (set_level d i l) j
Used-kept d i j l n u = ap empty (set_away d i j l n) ∙ u

NoBetter-self : (b : Bool) (c : ℕ) → NoBetter b c c
NoBetter-self true c = omega arith
NoBetter-self false c = omega arith

-- A level that comes into use.
filled_cursor : (b : Bool) → Option ℕ → ℕ → Option ℕ
filled_cursor b none idx = some idx
filled_cursor b (some c) idx = if (if b then ltb c idx else ltb idx c) then some idx else some c

filled-IsBest :
    (b : Bool) (d : ℕ → Level) (n idx : ℕ) (l : Level) (r : Option ℕ)
    → idx < n
    → empty l ≡ false
    → IsBest b d n r
    → IsBest b (set_level d idx l) n (filled_cursor b r idx)
unfolding filled_cursor
filled-IsBest b d n idx l none h u o = (
  h,
  rw (set_at d idx l) u,
  λ j jb ju. elim (ℕ_discrete j idx) [
    | yes e ↦ subst (NoBetter b idx) (sym e) (NoBetter-self b idx)
    | no ne ↦ let t = o j jb in let w = set_away d idx j l ne in cc
  ],
)
filled-IsBest true d n idx l (some c) h u (cb, cu, o) = elim (Bool-cases (ltb c idx)) [
  | inl t ↦ rw t (
    h,
    rw (set_at d idx l) u,
    λ j jb ju. elim (ℕ_discrete j idx) [
      | yes e ↦ omega arith
      | no ne ↦ let w = o j jb (Used-away d idx j l ne ju) in ground arith
    ],
  )
  | inr t ↦ rw t (
    cb,
    (elim (ℕ_discrete c idx) [
      | yes e ↦ subst (Used (set_level d idx l)) (sym e) (rw (set_at d idx l) u)
      | no ne ↦ Used-kept d idx c l ne cu
    ]),
    λ j jb ju. elim (ℕ_discrete j idx) [
      | yes e ↦ ground arith
      | no ne ↦ o j jb (Used-away d idx j l ne ju)
    ],
  )
]
filled-IsBest false d n idx l (some c) h u (cb, cu, o) = elim (Bool-cases (ltb idx c)) [
  | inl t ↦ rw t (
    h,
    rw (set_at d idx l) u,
    λ j jb ju. elim (ℕ_discrete j idx) [
      | yes e ↦ omega arith
      | no ne ↦ let w = o j jb (Used-away d idx j l ne ju) in ground arith
    ],
  )
  | inr t ↦ rw t (
    cb,
    (elim (ℕ_discrete c idx) [
      | yes e ↦ subst (Used (set_level d idx l)) (sym e) (rw (set_at d idx l) u)
      | no ne ↦ Used-kept d idx c l ne cu
    ]),
    λ j jb ju. elim (ℕ_discrete j idx) [
      | yes e ↦ ground arith
      | no ne ↦ o j jb (Used-away d idx j l ne ju)
    ],
  )
]

scaled : (base tick i j : ℕ) → 0 < tick → ltb (base + i * tick) (base + j * tick) ≡ ltb i j
scaled base tick i j t = elim (dec_lt i j) [
  | yes l ↦ let w : base + i * tick < base + j * tick = grind arith in ground arith
  | no l ↦
      let m : j ≤ i = omega arith in
      let w : base + j * tick ≤ base + i * tick = grind arith in ground arith
]

-- Prices on the grid are ordered as their places.
pub better-price_at :
    (s : Side) (i j : ℕ)
    → 0 < s.tick
    → better s (price_at s i) (price_at s j) ≡ (if s.is_bid then ltb j i else ltb i j)
unfolding better price_at
better-price_at s i j t = ground (arith, scaled s.base s.tick i j t, scaled s.base s.tick j i t)

down_extend :
    (d : ℕ → Level) (n c : ℕ) (r : Option ℕ)
    → c < n
    → ((j : ℕ) → j < n → Used d j → j < c)
    → IsBest true d c r
    → IsBest true d n r
down_extend d n c none b o h =
    λ j jb. elim (Bool-cases (empty (d j))) [ inl t ↦ t | inr u ↦ h j (o j jb u) ]
down_extend d n c (some k) b o (kb, ku, ko) = (omega arith, ku, λ j jb ju. ko j (o j jb ju) ju)

up_extend :
    (d : ℕ → Level) (n c : ℕ) (r : Option ℕ)
    → c < n
    → ((j : ℕ) → j < n → Used d j → c < j)
    → IsNext d (c + 1) (n - (c + 1)) r
    → IsBest false d n r
up_extend d n c none b o h = λ j jb. elim (Bool-cases (empty (d j))) [
  | inl t ↦ t
  | inr u ↦ let m = o j jb u in h j (omega arith) (omega arith)
]
up_extend d n c (some k) b o (ka, kb, ku, ko) =
    (omega arith, ku, λ j jb ju. let m = o j jb ju in ko j (omega arith) (omega arith) ju)

-- The walk from a cursor whose level is no longer in use.
walk-IsBest :
    (bid : Bool) (d : ℕ → Level) (n c : ℕ)
    → c < n
    → empty (d c) ≡ true
    → ((j : ℕ) → j < n → Used d j → NoBetter bid c j)
    → IsBest bid d n (if bid then seek_down d c else seek_up d (n - (c + 1)) (c + 1))
walk-IsBest true d n c b t o =
    down_extend d n c (seek_down d c) b
      (λ j jb ju.
        let m = o j jb ju in
        let ne : j ≢ c = λ e. let w = ap (λ k. empty (d k)) e in cc in omega arith)
      (seek_down-IsBest d c)
walk-IsBest false d n c b t o =
    up_extend d n c (seek_up d (n - (c + 1)) (c + 1)) b
      (λ j jb ju.
        let m = o j jb ju in
        let ne : j ≢ c = λ e. let w = ap (λ k. empty (d k)) e in cc in omega arith)
      (seek_up-IsNext d (n - (c + 1)) (c + 1))

-- The cursor after the level at `idx` emptied, in the dense levels `d`.
abbrev emptied_cursor : Bool → (ℕ → Level) → ℕ → ℕ → Option ℕ → Option ℕ
emptied_cursor bid d n idx none = none
emptied_cursor bid d n idx (some c) =
    if not (idx == c)
    then some c
    else if bid
    then seek_down d c
    else seek_up d (n - (c + 1)) (c + 1)

module _ (s : Side) (idx : ℕ) (l : Level) (v : IsBanded s) (b : idx < s.dense_size) where
  abbrev changed : Side
  changed = record s { dense = set_level s.dense idx l }

  filled_as :
      (r : Option ℕ)
      → s.cursor ≡ r
      → empty (s.dense idx) ≡ true
      → (level_filled changed idx).cursor ≡ filled_cursor s.is_bid r idx
  unfolding level_filled filled_cursor better price_at
  filled_as none e t = rw e refl
  filled_as (some c) e t =
      let (cb, cu, _) = subst (IsBest s.is_bid s.dense s.dense_size) e v.cursor in
      let p = used-pos s.dense s.dense_size c cb cu in
      let more : ((s.dense_nonempty + 1) == 1) ≡ false = let k = v.tally in ground arith in
      let inside : ltb c s.dense_size ≡ true = ground arith in
      rw (e, more, inside, better-price_at changed idx c v.tick) refl

  -- The band is well formed when an empty level gets its first order.
  pub level_filled-IsBanded :
      empty (s.dense idx) ≡ true → empty l ≡ false → IsBanded (level_filled changed idx)
  unfolding level_filled
  level_filled-IsBanded t u = record {
    tally = let k = v.tally in let w = used-set s.dense s.dense_size idx l b in ground arith;
    cursor =
        rw (filled_as s.cursor refl t)
          (filled-IsBest s.is_bid s.dense s.dense_size idx l s.cursor b u v.cursor);
    tick = v.tick;
    small = v.small;
  }

  emptied_away : empty l ≡ true → (j : ℕ) → Used (set_level s.dense idx l) j → j ≢ idx
  emptied_away u j ju e =
      let x = subst (Used (set_level s.dense idx l)) e ju in
      let y = ap empty (set_at s.dense idx l) in cc

  emptied-IsBest :
      (bid : Bool) (r : Option ℕ)
      → IsBest bid s.dense s.dense_size r
      → empty (s.dense idx) ≡ false
      → empty l ≡ true
      → IsBest bid
          (set_level s.dense idx l)
          s.dense_size
          (emptied_cursor bid (set_level s.dense idx l) s.dense_size idx r)
  emptied-IsBest bid none o t u = let w = o idx b in cc
  emptied-IsBest bid (some c) (cb, cu, o) t u = elim (ℕ_discrete idx c) [
    | no ne ↦
        let t : not (idx == c) ≡ true = ground arith in
        rw t (
          cb,
          Used-kept s.dense idx c l (λ e. ne (sym e)) cu,
          λ j jb ju. o j jb (Used-away s.dense idx j l (emptied_away u j ju) ju),
        )
    | yes e ↦
        let t : not (idx == c) ≡ false = ground arith in
        let z : empty (set_level s.dense idx l c) ≡ true =
          subst (λ k. empty (set_level s.dense idx l k) ≡ true) e
            (ap empty (set_at s.dense idx l) ∙ u) in
        rw t (
          walk-IsBest bid (set_level s.dense idx l) s.dense_size c cb z
            (λ j jb ju. o j jb (Used-away s.dense idx j l (emptied_away u j ju) ju)))
  ]

  emptied_as :
      (r : Option ℕ)
      → s.cursor ≡ r
      → ((s.dense_nonempty - 1) == 0) ≡ false
      → (level_emptied changed idx).cursor
        ≡ emptied_cursor s.is_bid (set_level s.dense idx l) s.dense_size idx r
  unfolding level_emptied
  emptied_as none e z = rw (z, e) refl
  emptied_as (some c) e z = rw (z, e) refl

  emptied_last :
      s.dense_nonempty - 1 ≡ used (set_level s.dense idx l) s.dense_size
      → ((s.dense_nonempty - 1) == 0) ≡ true
      → IsBanded (level_emptied changed idx)
  unfolding level_emptied
  emptied_last n z = rw z (record {
    tally = n;
    cursor = used-zero (set_level s.dense idx l) s.dense_size (ground arith);
    tick = v.tick;
    small = v.small;
  })

  emptied_more :
      s.dense_nonempty - 1 ≡ used (set_level s.dense idx l) s.dense_size
      → ((s.dense_nonempty - 1) == 0) ≡ false
      → empty (s.dense idx) ≡ false
      → empty l ≡ true
      → IsBanded (level_emptied changed idx)
  unfolding level_emptied
  emptied_more n z t u =
      let c =
        subst (IsBest s.is_bid (set_level s.dense idx l) s.dense_size)
          (sym (emptied_as s.cursor refl z)) (emptied-IsBest s.is_bid s.cursor v.cursor t u) in
      rw z (record { tally = n; cursor = rw z at c; tick = v.tick; small = v.small })

  -- The band is well formed when a level loses its last order.
  pub level_emptied-IsBanded :
      empty (s.dense idx) ≡ false → empty l ≡ true → IsBanded (level_emptied changed idx)
  level_emptied-IsBanded t u =
      let n : s.dense_nonempty - 1 ≡ used (set_level s.dense idx l) s.dense_size =
        let count = used-set s.dense s.dense_size idx l b in let k = v.tally in ground arith in
      elim (Bool-cases ((s.dense_nonempty - 1) == 0)) [
        | inl z ↦ emptied_last n z
        | inr z ↦ emptied_more n z t u
      ]
