-- ===== src/Risk/KillSwitch/Within.antt =====
-- A switch that has not tripped has seen no position and no exposure above a limit that is on.
use itchbook.Base.{
  ℕ, suc, ◌+◌, ◌≡◌, ◌⊎◌, refl, sym, ap, ◌∙◌, inl, inr, Bool, true, false, ◌||◌, List, [], ◌∷◌,
  arith, Bool-cases, some,
}
use mathlib.Core.Bool.{true≢false}
use itchbook.Base.Ints.{ℤ, pos, negsuc, ◌*ℤ◌, leb_ℤ}
use itchbook.Sim.Money.{notional}
use itchbook.Risk.KillSwitch.{
  Trip, trips, position_limit, notional_limit, KillSwitchConfig, TripReport, tripped, KillSwitch,
  make_switch, trip, check, check_position, check_notional, abs_position, higher, observe, on_fill,
  live,
}
use itchbook.Risk.KillSwitch.Latch.{
  Latched, Op, message_sent, filled, observed, ring_occupancy, cleared, step, run, IsUncleared,
  run-stays, notional-Latched, drawdown-Latched, trip_done, trip_first,
}

abbrev pub nat_abs : ℤ → ℕ
nat_abs (pos n) = n
nat_abs (negsuc n) = suc n

-- The number of shares, and at a mark above 0 their worth at 100 micro-dollars a tick, are within
-- the limits that are on.
abbrev pub Within : KillSwitchConfig → ℤ → ℤ → Type 0
Within c position mark =
    ((leb_ℤ c.max_position (pos 0) ≡ true) ⊎ (leb_ℤ (pos (nat_abs position)) c.max_position ≡ true))
    × ((leb_ℤ c.max_notional (pos 0) ≡ true)
        ⊎ ((leb_ℤ mark (pos 0) ≡ true)
            ⊎ (leb_ℤ (mark *ℤ pos 100 *ℤ pos (nat_abs position)) c.max_notional ≡ true)))

-- Each position and mark that the operations report.
abbrev pub AllWithin : KillSwitchConfig → List Op → Type 0
AllWithin c [] = Unit {0}
AllWithin c (filled ts position equity mark ∷ os) = Within c position mark × AllWithin c os
AllWithin c (observed ts position equity mark ∷ os) = Within c position mark × AllWithin c os
AllWithin c (message_sent ts is_order ∷ os) = AllWithin c os
AllWithin c (ring_occupancy ts occupancy ∷ os) = AllWithin c os
AllWithin c (cleared ∷ os) = AllWithin c os

earlier_live :
    {c : KillSwitchConfig} {r r' : TripReport}
    → Latched c r r'
    → tripped r' ≡ false
    → tripped r ≡ false
earlier_live {r = r} a e = elim (Bool-cases (tripped r)) [
  | inl t ↦ absurd (true≢false (sym t ∙ (sym (ap tripped (a.stays t)) ∙ e)))
  | inr t ↦ t
]

trip-trips :
    (reason : Trip) (value limit : ℤ) (ts : ℕ) (k : KillSwitch)
    → trips reason ≡ true
    → tripped (trip reason value limit ts k).report ≡ true
trip-trips reason value limit ts k n = elim (Bool-cases (tripped k.report)) [
  | inl t ↦ ap (λ x. tripped x.report) (trip_done reason value limit ts k t) ∙ t
  | inr t ↦ ap tripped (trip_first reason value limit ts k t) ∙ n
]

check_passed :
    (is_off : Bool) (reason : Trip) (value limit : ℤ) (ts : ℕ) (k : KillSwitch)
    → trips reason ≡ true
    → tripped (check is_off reason value limit ts k).report ≡ false
    → (is_off ≡ true) ⊎ (leb_ℤ value limit ≡ true)
unfolding check
check_passed true reason value limit ts k n e = inl refl
check_passed false reason value limit ts k n e = elim (Bool-cases (leb_ℤ value limit)) [
  | inl u ↦ inr u
  | inr u ↦
      let d = rw u at e in absurd (true≢false (sym (trip-trips reason value limit ts k n) ∙ d))
]

either : (a b : Bool) → (a || b) ≡ true → (a ≡ true) ⊎ (b ≡ true)
either true b e = inl refl
either false b e = inr e

abs_nat : (p : ℤ) → abs_position p ≡ pos (nat_abs p)
abs_nat p = ground arith

observe-Within :
    (c : KillSwitchConfig) (ts : ℕ) (position equity mark : ℤ) (k : KillSwitch)
    → tripped (observe c ts position equity mark k).report ≡ false
    → Within c position mark
unfolding observe check_position check_notional notional
observe-Within c ts position equity mark k e =
    let k1 = record k { peak_equity = some (higher k.peak_equity equity); last_equity = equity } in
    let k2 = check_position c ts position k1 in
    let k3 = check_notional c ts position mark k2 in
    let e3 = earlier_live (drawdown-Latched c ts k3) e in
    let e2 = earlier_live (notional-Latched c ts position mark k2) e3 in
    let a = abs_nat position in
    (
      elim (check_passed _ position_limit _ _ ts k1 refl e2) [
        | inl u ↦ inl u
        | inr u ↦ inr (ap (λ x. leb_ℤ x c.max_position) (sym a) ∙ u)
      ],
      elim (check_passed _ notional_limit _ _ ts k2 refl e3) [
        | inl u ↦ elim (either (leb_ℤ c.max_notional (pos 0)) (leb_ℤ mark (pos 0)) u) [
          | inl v ↦ inl v
          | inr v ↦ inr (inl v)
        ]
        | inr u ↦ inr (inr (ap (λ x. leb_ℤ (mark *ℤ pos 100 *ℤ x) c.max_notional) (sym a) ∙ u))
      ],
    )

on_fill-Within :
    (c : KillSwitchConfig) (ts : ℕ) (position equity mark : ℤ) (k : KillSwitch)
    → tripped (on_fill c ts position equity mark k).report ≡ false
    → Within c position mark
unfolding on_fill
on_fill-Within c ts position equity mark k e =
    observe-Within c ts position equity mark (record k { fills = k.fills + 1 }) e

-- A switch that has not tripped by the end of a run had not tripped before.
before_live :
    (c : KillSwitchConfig) (os : List Op) (k : KillSwitch)
    → IsUncleared os
    → tripped (run c os k).report ≡ false
    → tripped k.report ≡ false
before_live c os k h e = elim (Bool-cases (tripped k.report)) [
  | inl t ↦ absurd (true≢false (sym t ∙ (sym (ap tripped (run-stays c os k h t)) ∙ e)))
  | inr t ↦ t
]

run-AllWithin :
    (c : KillSwitchConfig) (os : List Op) (k : KillSwitch)
    → IsUncleared os
    → tripped (run c os k).report ≡ false
    → AllWithin c os
unfolding run step IsUncleared
run-AllWithin c [] k h e = tt
run-AllWithin c (message_sent ts is_order ∷ os) k h e = run-AllWithin c os _ h e
run-AllWithin c (ring_occupancy ts occupancy ∷ os) k h e = run-AllWithin c os _ h e
run-AllWithin c (filled ts position equity mark ∷ os) k h e =
    let k' = on_fill c ts position equity mark k in
    (
      on_fill-Within c ts position equity mark k (before_live c os k' h e),
      run-AllWithin c os k' h e,
    )
run-AllWithin c (observed ts position equity mark ∷ os) k h e =
    let k' = observe c ts position equity mark k in
    (
      observe-Within c ts position equity mark k (before_live c os k' h e),
      run-AllWithin c os k' h e,
    )
run-AllWithin c (cleared ∷ os) k h e = absurd h

-- If after any operations but resets on a new switch it has not tripped, then in every fill and
-- observation that it was told, the number of shares of the position was within the limit on
-- positions, if that is on, and their worth at the mark, if the mark is above 0, within the limit
-- on exposure, if that is on.
pub run-live :
    (c : KillSwitchConfig) (os : List Op)
    → IsUncleared os
    → live (run c os make_switch) ≡ true
    → AllWithin c os
unfolding live
run-live c os h l = run-AllWithin c os make_switch h (ground arith)
