-- ===== src/Book/Side/Dense.antt =====
-- `push` and `pop` at a place of the dense band keep it well formed.
use itchbook.Base.{
  ℕ, ◌+◌, ◌-◌, ◌^◌, ◌<◌, ◌≡◌, refl, sym, ap, ◌∙◌, inl, inr, Bool, false, Option, none, some, arith,
  ◌==◌, Bool-cases,
}
use native.Mathlib.Decide.{ℕ_discrete}
use itchbook.Book.Order.{Ptr, Heap}
use itchbook.Book.Level.{Level, empty, push_back, unlink}
use itchbook.Book.Side.{Side, set_level, push_dense, pop_dense}
use itchbook.Book.Side.Cursor.{used, IsBest, used-set}
use itchbook.Book.Side.Band.{
  IsBanded, level_filled-IsBanded, level_emptied-IsBanded, set_at, set_away,
}

pub count-push_back :
    (h : Heap) (l : Level) (o : Ptr)
    → l.count + 1 < 2 ^ 32
    → (push_back h l o).1.count ≡ l.count + 1
unfolding push_back
count-push_back h l o b = omega arith

pub count-unlink :
    (h : Heap) (l : Level) (o : Ptr)
    → 0 < l.count
    → l.count < 2 ^ 32
    → (unlink h l o).1.count ≡ l.count - 1
unfolding unlink
count-unlink h l o p b = omega arith

empty-count : (l : Level) → empty l ≡ (l.count == 0)
unfolding empty
empty-count l = refl

module _ (d : ℕ → Level) (i : ℕ) (l : Level) (e : empty l ≡ empty (d i)) where
  set-empty : (j : ℕ) → empty (set_level d i l j) ≡ empty (d j)
  set-empty j = elim (ℕ_discrete j i) [
    | yes q ↦
        ap (λ k. empty (set_level d i l k)) q
        ∙ ap empty (set_at d i l)
        ∙ e
        ∙ ap (λ k. empty (d k)) (sym q)
    | no q ↦ ap empty (set_away d i j l q)
  ]

  IsBest-same : (b : Bool) (n : ℕ) (r : Option ℕ) → IsBest b d n r → IsBest b (set_level d i l) n r
  IsBest-same b n none o = λ j jb. set-empty j ∙ o j jb
  IsBest-same b n (some c) (cb, cu, o) =
      (cb, set-empty c ∙ cu, λ j jb ju. o j jb (sym (set-empty j) ∙ ju))

  used-same : (n : ℕ) → i < n → used (set_level d i l) n ≡ used d n
  used-same n b = let w = used-set d n i l b in ground arith

-- A level that stays in use changes nothing for the band.
pub changed-IsBanded :
    (s : Side) (idx : ℕ) (l : Level)
    → IsBanded s
    → idx < s.dense_size
    → empty l ≡ empty (s.dense idx)
    → IsBanded (record s { dense = set_level s.dense idx l })
changed-IsBanded s idx l v b e = record {
  tally = v.tally ∙ sym (used-same s.dense idx l e s.dense_size b);
  cursor = IsBest-same s.dense idx l e s.is_bid s.dense_size s.cursor v.cursor;
  tick = v.tick;
  small = v.small;
}

module _ (h : Heap) (s : Side) (o : Ptr) (idx : ℕ) (v : IsBanded s) (b : idx < s.dense_size) where
  pub push_dense-IsBanded : (s.dense idx).count + 1 < 2 ^ 32 → IsBanded (push_dense h s o idx).1
  unfolding push_dense
  push_dense-IsBanded few =
      let l' = (push_back h (s.dense idx) o).1 in
      let c = count-push_back h (s.dense idx) o few in
      let u : empty l' ≡ false = empty-count l' ∙ ground (arith, c) in
      elim (Bool-cases (empty (s.dense idx))) [
        | inl t ↦ rw t (level_filled-IsBanded s idx l' v b t u)
        | inr t ↦ rw t (changed-IsBanded s idx l' v b (u ∙ sym t))
      ]

  pub pop_dense-IsBanded :
      0 < (s.dense idx).count → (s.dense idx).count < 2 ^ 32 → IsBanded (pop_dense h s o idx).1
  unfolding pop_dense
  pop_dense-IsBanded some_in few =
      let l' = (unlink h (s.dense idx) o).1 in
      let t : empty (s.dense idx) ≡ false = empty-count (s.dense idx) ∙ ground arith in
      elim (Bool-cases (empty l')) [
        | inl z ↦ rw z (level_emptied-IsBanded s idx l' v b t z)
        | inr z ↦ rw z (changed-IsBanded s idx l' v b (z ∙ sym t))
      ]
