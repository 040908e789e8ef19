-- ===== src/Book/Tape/Prints.antt =====
-- The tape after a day of prints.
use itchbook.Base.{
  ℕ, ◌+◌, ◌*◌, ◌%◌, ◌^◌, ◌≤◌, ◌<◌, ◌≡◌, refl, sym, subst, ◌∙◌, ◌⊎◌, inl, inr, Option, none, some,
  List, [], ◌∷◌, arith, ltb, ◌==◌, if◌then◌else◌, Bool-cases, length,
}
use itchbook.Book.State.{Tape, fresh_tape}
use itchbook.Book.Tape.{record_trade, raise, lower, or_price}

-- A print: price and shares.
abbrev pub Print : Type 0
Print = ℕ × ℕ

pub record_all : Tape → List Print → Tape
record_all t [] = t
record_all t ((p, n) ∷ ps) = record_all (record_trade t p n) ps

-- The prints that count: an auction that did not happen has no shares.
pub real : List Print → List Print
real [] = []
real ((p, n) ∷ ps) = if n == 0 then real ps else (p, n) ∷ real ps

pub traded : List Print → ℕ
traded [] = 0
traded ((p, n) ∷ ps) = n + traded ps

pub value : List Print → ℕ
value [] = 0
value ((p, n) ∷ ps) = p * n + value ps

abbrev pub last_price : Option ℕ → List Print → Option ℕ
last_price d [] = d
last_price d ((p, n) ∷ ps) = last_price (some p) ps

abbrev pub first_price : Option ℕ → List Print → Option ℕ
first_price (some d) ps = some d
first_price none [] = none
first_price none ((p, n) ∷ ps) = some p

-- A price that one of the prints has.
abbrev pub Attained : List Print → ℕ → Type 0
Attained [] r = ⊥
Attained ((p, n) ∷ ps) r = (p ≡ r) ⊎ Attained ps r

-- A bound of the prices of the prints.
abbrev pub Above : List Print → ℕ → Type 0
Above [] r = Unit {0}
Above ((p, n) ∷ ps) r = (p ≤ r) × Above ps r

abbrev pub Below : List Print → ℕ → Type 0
Below [] r = Unit {0}
Below ((p, n) ∷ ps) r = (r ≤ p) × Below ps r

abbrev pub IsHighest : List Print → Option ℕ → Type 0
IsHighest ps none = ps ≡ []
IsHighest ps (some r) = Above ps r × Attained ps r

abbrev pub IsLowest : List Print → Option ℕ → Type 0
IsLowest ps none = ps ≡ []
IsLowest ps (some r) = Below ps r × Attained ps r

-- The highest and the lowest price as the tape finds them.
abbrev highest : Option ℕ → List Print → Option ℕ
highest d [] = d
highest d ((p, n) ∷ ps) = highest (some (raise d p)) ps

abbrev lowest : Option ℕ → List Print → Option ℕ
lowest d [] = d
lowest d ((p, n) ∷ ps) = lowest (some (lower d p)) ps

-- A tape that differs from another by a list of prints that count.
record After (t : Tape) (ps : List Print) (t' : Tape) : Type 0 where
  volume : t'.volume ≡ (t.volume + traded ps) % 2 ^ 64
  notional : t'.notional ≡ (t.notional + value ps) % 2 ^ 64
  trades : t'.trades ≡ t.trades + length ps
  open_price : t'.open_price ≡ first_price t.open_price ps
  close : t'.close ≡ last_price t.close ps
  high : t'.high ≡ highest t.high ps
  low : t'.low ≡ lowest t.low ps

abbrev Words : Tape → Type 0
Words t = (t.volume < 2 ^ 64) × (t.notional < 2 ^ 64)

first_price-cons :
    (d : Option ℕ) (p n : ℕ) (ps : List Print)
    → first_price (some (or_price d p)) ps ≡ first_price d ((p, n) ∷ ps)
first_price-cons none p n ps = refl
first_price-cons (some q) p n ps = refl

record_trade-Words : (t : Tape) (p n : ℕ) → Words t → Words (record_trade t p n)
unfolding record_trade
record_trade-Words t p n (a, b) = elim (Bool-cases (n == 0)) [
  | inl z ↦ rw z (a, b)
  | inr z ↦ rw z (omega arith, omega arith)
]

record_all-After : (t : Tape) (ps : List Print) → Words t → After t (real ps) (record_all t ps)
unfolding record_all real record_trade traded value
record_all-After t [] (a, b) = record {
  volume = omega arith;
  notional = omega arith;
  trades = omega arith;
  open_price = opened t.open_price;
  close = refl;
  high = refl;
  low = refl;
}
  where
    opened : (d : Option ℕ) → d ≡ first_price d []
    opened none = refl
    opened (some q) = refl
record_all-After t ((p, n) ∷ ps) (a, b) = elim (Bool-cases (n == 0)) [
  | inl z ↦ rw z (record_all-After t ps (a, b))
  | inr z ↦
      let w : Words (record_trade t p n) = record_trade-Words t p n (a, b) in
      let r = rw z at (record_all-After (record_trade t p n) ps w) in
      rw z (record {
        volume = r.volume ∙ omega arith;
        notional = r.notional ∙ omega arith;
        trades = r.trades ∙ omega arith;
        open_price = r.open_price ∙ first_price-cons t.open_price p n (real ps);
        close = r.close;
        high = r.high;
        low = r.low;
      })
]

-- What the walk for the highest price finds, from a price before it.
highest_lem :
    (q : ℕ) (ps : List Print)
    → (r : ℕ) × (highest (some q) ps ≡ some r) × (q ≤ r) × Above ps r × ((q ≡ r) ⊎ Attained ps r)
highest_lem q [] = (q, refl, omega arith, tt, inl refl)
highest_lem q ((p, n) ∷ ps) = elim (Bool-cases (ltb q p)) [
  | inl t ↦
      let (r, e, le, above, at) = highest_lem p ps in (r, rw t e, ground arith, (le, above), inr at)
  | inr t ↦
      let (r, e, le, above, at) = highest_lem q ps in
      (r, rw t e, le, (ground arith, above), elim at [ inl x ↦ inl x | inr y ↦ inr (inr y) ])
]

lowest_lem :
    (q : ℕ) (ps : List Print)
    → (r : ℕ) × (lowest (some q) ps ≡ some r) × (r ≤ q) × Below ps r × ((q ≡ r) ⊎ Attained ps r)
lowest_lem q [] = (q, refl, omega arith, tt, inl refl)
lowest_lem q ((p, n) ∷ ps) = elim (Bool-cases (ltb p q)) [
  | inl t ↦
      let (r, e, le, below, at) = lowest_lem p ps in (r, rw t e, ground arith, (le, below), inr at)
  | inr t ↦
      let (r, e, le, below, at) = lowest_lem q ps in
      (r, rw t e, le, (ground arith, below), elim at [ inl x ↦ inl x | inr y ↦ inr (inr y) ])
]

highest-IsHighest : (ps : List Print) → IsHighest ps (highest none ps)
highest-IsHighest [] = refl
highest-IsHighest ((p, n) ∷ ps) =
    let (r, e, le, above, at) = highest_lem p ps in
    subst (IsHighest ((p, n) ∷ ps)) (sym e) ((le, above), at)

lowest-IsLowest : (ps : List Print) → IsLowest ps (lowest none ps)
lowest-IsLowest [] = refl
lowest-IsLowest ((p, n) ∷ ps) =
    let (r, e, le, below, at) = lowest_lem p ps in
    subst (IsLowest ((p, n) ∷ ps)) (sym e) ((le, below), at)

-- What a fresh tape says of the prints that count.
pub record Day (ps : List Print) (t : Tape) : Type 0 where
  pub volume : t.volume ≡ traded ps % 2 ^ 64
  pub notional : t.notional ≡ value ps % 2 ^ 64
  pub trades : t.trades ≡ length ps
  pub open_price : t.open_price ≡ first_price none ps
  pub close : t.close ≡ last_price none ps
  pub high : IsHighest ps t.high
  pub low : IsLowest ps t.low

-- After a day of prints on a fresh tape, volume and notional are the sums of the prints that have
-- shares, modulo 2^64, `trades` is their number, open and close are the first and the last of their
-- prices, and high and low bound all of their prices and are prices of theirs.
pub record_all-Day : (ps : List Print) → Day (real ps) (record_all fresh_tape ps)
record_all-Day ps =
    let r = record_all-After fresh_tape ps (omega arith, omega arith) in
    record {
      volume = r.volume ∙ omega arith;
      notional = r.notional ∙ omega arith;
      trades = r.trades ∙ omega arith;
      open_price = r.open_price;
      close = r.close;
      high = subst (IsHighest (real ps)) (sym r.high) (highest-IsHighest (real ps));
      low = subst (IsLowest (real ps)) (sym r.low) (lowest-IsLowest (real ps));
    }
