-- ===== src/Book/Side/Best.antt =====
-- `best` is the best price of a level in use, wherever it is kept.
use itchbook.Base.{
  ℕ, ◌≤◌, ◌<◌, ◌≡◌, refl, sym, ap, subst, ◌∙◌, ◌⊎◌, inl, inr, Bool, true, false, ◌&&◌, Option, none,
  some, arith, ltb, ◌==◌, Bool-cases,
}
use native.Mathlib.Decide.{ℕ_discrete}
use itchbook.Book.Order.{overflow_level}
use itchbook.Book.Level.{Level, empty}
use itchbook.Book.Side.{
  Side, map_find, index_of, price_at, better, level_at, best_dense, best_overflow, best,
}
use itchbook.Book.Side.Cursor.{Used, NoBetter, IsBest, used-pos}
use itchbook.Book.Side.Band.{IsBanded}
use itchbook.Book.Side.Grid.{price_at-index_of, place_of_price}
use itchbook.Book.Side.Overflow.{Sorted, BestKey, first_key-BestKey, last_key-BestKey}

-- A level of the map is in use and has no place in the band.
abbrev pub Stored : Side → Type 0
Stored s =
    (p : ℕ) (l : Level)
    → map_find s.overflow p ≡ some l
    → (empty l ≡ false) × (index_of s p ≡ overflow_level)

pub record IsSide (s : Side) : Type 0 where
  pub band : IsBanded s
  pub sorted : Sorted s.overflow
  pub stored : Stored s

-- The best price among the levels in use of a side, `none` if there is no such level.
abbrev pub IsBestPrice : Side → Option ℕ → Type 0
IsBestPrice s none = (q : ℕ) → level_at s q ≡ none
IsBestPrice s (some p) =
    ((l : Level) × (level_at s p ≡ some l) × (empty l ≡ false))
    × ((q : ℕ) (l : Level) → level_at s q ≡ some l → NoBetter s.is_bid p q)

-- The same for the band alone.
abbrev DenseBest : Side → Option ℕ → Type 0
DenseBest s none = (j : ℕ) → j < s.dense_size → empty (s.dense j) ≡ true
DenseBest s (some p) =
    ((c : ℕ) × (c < s.dense_size) × Used s.dense c × (p ≡ price_at s c))
    × ((j : ℕ) → j < s.dense_size → Used s.dense j → NoBetter s.is_bid p (price_at s j))

price_at-le : (s : Side) (i j : ℕ) → i ≤ j → price_at s i ≤ price_at s j
unfolding price_at
price_at-le s i j h = grind arith

NoBetter-price_at :
    (s : Side) (b : Bool) (i j : ℕ) → NoBetter b i j → NoBetter b (price_at s i) (price_at s j)
NoBetter-price_at s true i j h = price_at-le s j i h
NoBetter-price_at s false i j h = price_at-le s i j h

best_dense-DenseBest : (s : Side) → IsBanded s → DenseBest s (best_dense s)
unfolding best_dense price_at
best_dense-DenseBest s v = at s.cursor refl v.cursor
  where
    at :
        (r : Option ℕ)
        → s.cursor ≡ r
        → IsBest s.is_bid s.dense s.dense_size r
        → DenseBest s (best_dense s)
    at none e o = rw (e, best_dense) o
    at (some c) e (b, u, o) =
        let p = used-pos s.dense s.dense_size c b u in
        let t : (ltb 0 s.dense_nonempty && ltb c s.dense_size) ≡ true =
          let k = v.tally in ground arith in
        rw (e, best_dense, t)
          ((c, b, u, refl), λ j jb ju. NoBetter-price_at s s.is_bid c j (o j jb ju))

best_overflow-BestKey :
    (s : Side) → Sorted s.overflow → BestKey s.is_bid s.overflow (best_overflow s)
unfolding best_overflow
best_overflow-BestKey s o = elim (Bool-cases s.is_bid) [
  | inl t ↦ rw t (last_key-BestKey s.overflow o)
  | inr t ↦ rw t (first_key-BestKey s.overflow o)
]

-- Where the level at a price is found.
level_at_cases :
    (s : Side) (q : ℕ) (l : Level)
    → 0 < s.tick
    → level_at s q ≡ some l
    → (map_find s.overflow q ≡ some l)
      ⊎ ((j : ℕ) × (j < s.dense_size) × Used s.dense j × (q ≡ price_at s j))
unfolding level_at
level_at_cases s q l t e = elim (ℕ_discrete (index_of s q) overflow_level) [
  | yes z ↦ inl (ground arith)
  | no z ↦ let (b, p) = price_at-index_of s q t z in inr (index_of s q, b, ground arith, sym p)
]

level_at-map :
    (s : Side) (p : ℕ) (l : Level)
    → Stored s
    → map_find s.overflow p ≡ some l
    → (level_at s p ≡ some l) × (empty l ≡ false)
unfolding level_at
level_at-map s p l st e = let (u, i) = st p l e in (rw (i, level_at) e, u)

level_at-dense :
    (s : Side) (c : ℕ)
    → IsBanded s
    → c < s.dense_size
    → Used s.dense c
    → level_at s (price_at s c) ≡ some (s.dense c)
unfolding level_at
level_at-dense s c v b u =
    let i = place_of_price s c v.tick b in
    let ne : (c == overflow_level) ≡ false = let k = v.small in ground arith in rw (i, ne, u) refl

better_trans :
    (s : Side) (o d q : ℕ) → better s o d ≡ true → NoBetter s.is_bid d q → NoBetter s.is_bid o q
unfolding better
better_trans s o d q t n = elim (Bool-cases s.is_bid) [
  | inl e ↦ let t' = rw e at t in let n' = rw e at n in rw e (ground arith)
  | inr e ↦ let t' = rw e at t in let n' = rw e at n in rw e (ground arith)
]

not_better_trans :
    (s : Side) (o d q : ℕ) → better s o d ≡ false → NoBetter s.is_bid o q → NoBetter s.is_bid d q
unfolding better
not_better_trans s o d q t n = elim (Bool-cases s.is_bid) [
  | inl e ↦ let t' = rw e at t in let n' = rw e at n in rw e (ground arith)
  | inr e ↦ let t' = rw e at t in let n' = rw e at n in rw e (ground arith)
]

module _ (s : Side) (v : IsSide s) where
  -- No level in use is better than both the best of the map and the best of the band.
  no_better :
      (p : ℕ)
      → ((q : ℕ) (l : Level) → map_find s.overflow q ≡ some l → NoBetter s.is_bid p q)
      → ((j : ℕ) → j < s.dense_size → Used s.dense j → NoBetter s.is_bid p (price_at s j))
      → (q : ℕ) (l : Level) → level_at s q ≡ some l
      → NoBetter s.is_bid p q
  no_better p m d q l e = elim (level_at_cases s q l v.band.tick e) [
    | inl f ↦ m q l f
    | inr (j, b, u, z) ↦ subst (NoBetter s.is_bid p) (sym z) (d j b u)
  ]

  best_of :
      (o d : Option ℕ)
      → best_overflow s ≡ o
      → best_dense s ≡ d
      → BestKey s.is_bid s.overflow o
      → DenseBest s d
      → IsBestPrice s (best s)
  unfolding best
  best_of none none e f m b = rw (e, best, f) (λ q. none_at q (level_at s q) refl)
    where
      none_at : (q : ℕ) (r : Option Level) → level_at s q ≡ r → level_at s q ≡ none
      none_at q none z = z
      none_at q (some l) z = elim (level_at_cases s q l v.band.tick z) [
        | inl k ↦ let w = m q in absurd (cc)
        | inr (j, jb, ju, _) ↦ let w = b j jb in absurd (cc)
      ]
  best_of none (some p) e f m ((c, cb, cu, z), o) =
      rw (e, best, f)
        (
          (s.dense c, ap (level_at s) z ∙ level_at-dense s c v.band cb cu, cu),
          no_better p (λ q l k. let w = m q in absurd (cc)) o,
        )
  best_of (some p) none e f ((l, k), o) b =
      rw (e, best, f)
        (
          (l, (level_at-map s p l v.stored k).0, (level_at-map s p l v.stored k).1),
          no_better p o (λ j jb ju. let w = b j jb in absurd (cc)),
        )
  best_of (some p) (some d) e f ((l, k), o) ((c, cb, cu, z), b) = elim (Bool-cases (better s p d)) [
    | inl t ↦
        rw (e, best, f, t)
          (
            (l, (level_at-map s p l v.stored k).0, (level_at-map s p l v.stored k).1),
            no_better p o (λ j jb ju. better_trans s p d (price_at s j) t (b j jb ju)),
          )
    | inr t ↦
        rw (e, best, f, t)
          (
            (s.dense c, ap (level_at s) z ∙ level_at-dense s c v.band cb cu, cu),
            no_better d (λ q w h. not_better_trans s p d q t (o q w h)) b,
          )
  ]

  -- On a well-formed side `best` finds the best price at which any level is in use, in the band or
  -- off it, the highest for bids and the lowest for asks, and finds none only if no level is in
  -- use.
  pub best_lem : IsBestPrice s (best s)
  best_lem =
      best_of (best_overflow s) (best_dense s) refl refl (best_overflow-BestKey s v.sorted)
        (best_dense-DenseBest s v.band)
