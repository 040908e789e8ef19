-- ===== src/Engine/Matcher/Sound.antt =====
-- What holds of the orders of an engine: its quantities add up and agree with the book.
pub mod Lists
pub mod Moves
pub mod Fills
pub mod Loop
pub mod Entry
pub mod Stops
pub mod Operations
pub mod Runs
pub mod Rounds
pub mod Fair
pub mod Pending
use itchbook.Base.{
  ℕ, zero, suc, ◌+◌, ◌-◌, ◌*◌, ◌/◌, ◌%◌, ◌^◌, ◌≤◌, ◌<◌, min, ◌≡◌, refl, sym, ap, subst, ◌∙◌, ◌≢◌,
  ◌↔◌, ◌⊎◌, inl, inr, Bool, true, false, not, ◌&&◌, ◌||◌, Option, none, some, List, [], ◌∷◌, ◌++◌,
  map, arith, ltb, leb, ◌==◌, if◌then◌else◌, Bool-cases, length, length-append,
}
use itchbook.Engine.OrderTypes.{State, fresh, accepted, partially_filled, is_terminal, Request}
use itchbook.Engine.Matcher.{Resting, BookOps, Meta, Orders, Matcher, lookup}

-- What the engine relies on of a book: the shares that it holds of each reference, the order that is
-- next to trade among them, and how the changes move them.
pub record BookLaws {B : Type 0} (ops : BookOps B) : Type 0 where
  pub shares_of : ℕ → B → ℕ
  pub best_order-holds :
      (side : ℕ) (b : B) (o : Resting)
      → ops.best_order side b ≡ some o
      → (shares_of o.ref b ≡ o.shares) × (0 < o.shares)
  pub take-shares :
      (i q j : ℕ) (b : B)
      → shares_of j (ops.take i q b) ≡ (if j == i then shares_of i b - q else shares_of j b)
  pub remove-shares :
      (i j : ℕ) (b : B) → shares_of j (ops.remove i b) ≡ (if j == i then 0 else shares_of j b)
  pub add-shares :
      (i side price s j : ℕ) (b : B)
      → shares_of i b ≡ 0
      → shares_of j (ops.add i side price s b) ≡ (if j == i then s else shares_of j b)

-- The state of an order of which shares rest, and of one that is yet to be matched.
abbrev pub is_live : State → Bool
is_live accepted = true
is_live partially_filled = true
is_live _ = false

abbrev pub is_early : State → Bool
is_early fresh = true
is_early accepted = true
is_early _ = false

-- One order, where the book holds `held` shares of it, and it may be parked. If `owed` is not 0, the
-- order is being matched, and one less than `owed` of its shares are left to match.
pub record Sound (held owed : ℕ) (parked : Bool) (i : ℕ) (m : Meta) : Type 0 where
  pub named : m.req.id ≡ i
  pub size : m.req.quantity < 2 ^ 32
  pub agrees : held ≡ m.resting
  pub absent : m.in_book ≡ false → m.resting ≡ 0
  pub sum :
      m.filled_shares + m.cancelled_shares + m.resting + m.hidden + (owed - 1)
      ≡ (if m.entered then m.req.quantity else 0)
  pub done : is_terminal m.state ≡ true → m.resting + m.hidden ≡ 0
  pub idle : 0 < owed → m.resting + m.hidden ≡ 0
  pub live : 0 < m.resting + m.hidden → is_live m.state ≡ true
  pub early : 0 < owed → is_early m.state ≡ true
  pub waits :
      parked ≡ true
      → ((m.entered ≡ false) × (is_early m.state ≡ true)) ⊎ (is_terminal m.state ≡ true)

unfoldable pub known : ℕ → Orders → Bool
known i [] = false
known i ((j, m) ∷ os) = i == j || known i os

-- Each order is there once.
abbrev pub AllSound : (ℕ → ℕ) → (ℕ → ℕ) → (ℕ → Bool) → Orders → Type 0
AllSound h o p [] = Unit {0}
AllSound h o p ((i, m) ∷ os) =
    Sound (h i) (o i) (p i) i m × ((known i os ≡ false) × AllSound h o p os)

abbrev pub member : ℕ → List ℕ → Bool
member i [] = false
member i (x ∷ xs) = x == i || member i xs

-- The parked stops are orders of the engine, each parked once.
abbrev pub Parked : Orders → List ℕ → Type 0
Parked os [] = Unit {0}
Parked os (i ∷ is) = (member i is ≡ false) × ((known i os ≡ true) × Parked os is)

-- `t` is being matched with one less than `r` shares left, or nothing is if `r` is 0.
abbrev pub owing : ℕ → ℕ → ℕ → ℕ
owing t r i = if i == t then r else 0

module _ {B : Type 0} {ops : BookOps B} (laws : BookLaws ops) where
  pub record IsSound (t r : ℕ) (os : Orders) (b : B) (stops : List ℕ) : Type 0 where
    pub orders : AllSound (λ i. laws.shares_of i b) (owing t r) (λ i. member i stops) os
    pub parked : Parked os stops
    pub there : 0 < r → known t os ≡ true
    pub aloft : 0 < r → member t stops ≡ false

  abbrev pub Good : ℕ → ℕ → Matcher B → Type 0
  Good t r k = IsSound t r k.orders k.book k.pending_stops

  -- No order is being matched.
  abbrev pub Quiet : Matcher B → Type 0
  Quiet k = Good 0 0 k
