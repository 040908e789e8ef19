-- ===== src/Book/Side/Cursor.antt =====
-- The cursor of a side: it stands at the best level in use of the dense band.
use itchbook.Base.{
  ℕ, zero, suc, ◌+◌, ◌≤◌, ◌<◌, ◌≡◌, refl, ap, ◌∙◌, ◌⊎◌, inl, inr, Bool, true, false, Option, none,
  some, arith, ◌==◌, if◌then◌else◌, Bool-cases,
}
use native.Mathlib.Decide.{dec_lt}
use itchbook.Book.Level.{Level, empty}
use itchbook.Book.Side.{set_level, seek_down, seek_up}

abbrev pub Used : (ℕ → Level) → ℕ → Type 0
Used d i = empty (d i) ≡ false

abbrev tally : Bool → ℕ
tally true = 0
tally false = 1

-- How many of the first `n` levels are in use.
abbrev pub used : (ℕ → Level) → ℕ → ℕ
used d zero = 0
used d (suc n) = tally (empty (d n)) + used d n

-- The best place in use among the first `n`, the highest for bids and the lowest for asks.
abbrev pub NoBetter : Bool → ℕ → ℕ → Type 0
NoBetter true c j = j ≤ c
NoBetter false c j = c ≤ j

abbrev pub IsBest : Bool → (ℕ → Level) → ℕ → Option ℕ → Type 0
IsBest b d n none = (j : ℕ) → j < n → empty (d j) ≡ true
IsBest b d n (some c) = (c < n) × Used d c × ((j : ℕ) → j < n → Used d j → NoBetter b c j)

below_suc : (j n : ℕ) → j < suc n → (j < n) ⊎ (j ≡ n)
below_suc j n h = omega arith

from_suc : (j n : ℕ) → n ≤ j → (j ≡ n) ⊎ (n + 1 ≤ j)
from_suc j n h = omega arith

down_step :
    (d : ℕ → Level) (n : ℕ) (r : Option ℕ)
    → IsBest true d n r
    → IsBest true d (suc n) (if empty (d n) then r else some n)
down_step d n none h = elim (Bool-cases (empty (d n))) [
  | inl t ↦
      rw t (λ j b. elim (below_suc j n b) [ inl l ↦ h j l | inr e ↦ ap (λ k. empty (d k)) e ∙ t ])
  | inr t ↦ rw t (omega arith, t, λ j b u. omega arith)
]
down_step d n (some c) (b, u, o) = elim (Bool-cases (empty (d n))) [
  | inl t ↦ rw t (
    omega arith,
    u,
    λ j jb ju. elim (below_suc j n jb) [
      | inl l ↦ o j l ju
      | inr e ↦ let t' = ap (λ k. empty (d k)) e ∙ t in cc
    ],
  )
  | inr t ↦ rw t (omega arith, t, λ j jb ju. omega arith)
]

pub seek_down-IsBest : (d : ℕ → Level) (n : ℕ) → IsBest true d n (seek_down d n)
unfolding seek_down
seek_down-IsBest d zero = λ j h. elim h [ ]
seek_down-IsBest d (suc n) = down_step d n (seek_down d n) (seek_down-IsBest d n)

-- The same from `i` up, for `n` levels.
abbrev pub IsNext : (ℕ → Level) → ℕ → ℕ → Option ℕ → Type 0
IsNext d i n none = (j : ℕ) → i ≤ j → j < i + n → empty (d j) ≡ true
IsNext d i n (some c) =
    (i ≤ c) × (c < i + n) × Used d c × ((j : ℕ) → i ≤ j → j < i + n → Used d j → c ≤ j)

up_step :
    (d : ℕ → Level) (i n : ℕ) (r : Option ℕ)
    → IsNext d (i + 1) n r
    → IsNext d i (suc n) (if empty (d i) then r else some i)
up_step d i n none h = elim (Bool-cases (empty (d i))) [
  | inl t ↦ rw t (λ j a b. elim (from_suc j i a) [
    | inr l ↦ h j l (omega arith)
    | inl e ↦ ap (λ k. empty (d k)) e ∙ t
  ])
  | inr t ↦ rw t (omega arith, omega arith, t, λ j a b u. a)
]
up_step d i n (some c) (a, b, u, o) = elim (Bool-cases (empty (d i))) [
  | inl t ↦ rw t (
    omega arith,
    omega arith,
    u,
    λ j ja jb ju. elim (from_suc j i ja) [
      | inr l ↦ o j l (omega arith) ju
      | inl e ↦ let t' = ap (λ k. empty (d k)) e ∙ t in cc
    ],
  )
  | inr t ↦ rw t (omega arith, omega arith, t, λ j ja jb ju. ja)
]

pub seek_up-IsNext : (d : ℕ → Level) (n i : ℕ) → IsNext d i n (seek_up d n i)
unfolding seek_up
seek_up-IsNext d zero i = λ j a b. absurd (omega arith)
seek_up-IsNext d (suc n) i = up_step d i n (seek_up d n (i + 1)) (seek_up-IsNext d n (i + 1))

used-set_above : (d : ℕ → Level) (n i : ℕ) (l : Level) → n ≤ i → used (set_level d i l) n ≡ used d n
used-set_above d zero i l h = refl
used-set_above d (suc n) i l h = ground (arith, used-set_above d n i l (omega arith))

pub used-set :
    (d : ℕ → Level) (n i : ℕ) (l : Level)
    → i < n
    → used (set_level d i l) n + tally (empty (d i)) ≡ used d n + tally (empty l)
used-set d zero i l h = absurd (omega arith)
used-set d (suc n) i l h = elim (Bool-cases (i == n)) [
  | inl e ↦
      let q : i ≡ n = ground arith in
      ground (arith, used-set_above d n i l (omega (arith, q)), q, ap (λ k. tally (empty (d k))) q)
  | inr e ↦ ground (arith, used-set d n i l (ground arith))
]

pub used-zero : (d : ℕ → Level) (n : ℕ) → used d n ≡ 0 → (j : ℕ) → j < n → empty (d j) ≡ true
used-zero d zero h j b = elim b [ ]
used-zero d (suc n) h j b = elim (below_suc j n b) [
  | inl l ↦ used-zero d n (omega arith) j l
  | inr e ↦ ap (λ k. empty (d k)) e ∙ ground arith
]

pub used-pos : (d : ℕ → Level) (n j : ℕ) → j < n → Used d j → 0 < used d n
used-pos d n j b u = elim (dec_lt 0 (used d n)) [
  | yes p ↦ p
  | no p ↦ let t = used-zero d n (omega arith) j b in cc
]
