-- ===== src/Risk/KillSwitch/Latch.antt =====
-- The switch trips for a reason, and stays as it is once it has tripped.
use mathlib.Core.Bool.{true≢false}
use itchbook.Base.{
  ℕ, ◌+◌, ◌-◌, ◌≡◌, refl, sym, ap, ◌∙◌, subst, Bool, true, false, List, [], ◌∷◌, Option, none, some,
  ltb, leb, ◌==◌, Bool-cases, inl, inr, ◌||◌, if◌then◌else◌, arith,
}
use itchbook.Base.Ints.{ℤ, pos, leb_ℤ}
use itchbook.Risk.RateWindow.{add}
use itchbook.Risk.KillSwitch.{
  Trip, untripped, position_limit, notional_limit, message_rate, order_to_fill, drawdown,
  feed_backlog, KillSwitchConfig, TripReport, no_trip, tripped, KillSwitch, make_switch, trip,
  check, check_position, check_notional, check_rate, check_ratio, check_drawdown, on_message_sent,
  observe, on_fill, backlogged, on_ring_occupancy, reset, higher,
}

-- A limit that is on, and that a report may name.
abbrev pub Limits : KillSwitchConfig → Trip → ℤ → Type 0
Limits c untripped l = Unit
Limits c position_limit l = (l ≡ c.max_position) × (leb_ℤ l (pos 0) ≡ false)
Limits c notional_limit l = (l ≡ c.max_notional) × (leb_ℤ l (pos 0) ≡ false)
Limits c message_rate l = (l ≡ pos c.max_messages_per_second) × (leb_ℤ l (pos 0) ≡ false)
Limits c order_to_fill l = (c.max_orders_per_fill == 0) ≡ false
Limits c drawdown l = (l ≡ c.max_drawdown) × (leb_ℤ l (pos 0) ≡ false)
Limits c feed_backlog l = (l ≡ pos c.max_ring_occupancy) × (leb_ℤ l (pos 0) ≡ false)

-- Nothing is reported, or a limit that is on and was exceeded by what is reported.
unfoldable pub Justified : KillSwitchConfig → TripReport → Type 0
Justified c r = tripped r ≡ true → Limits c r.reason r.limit × (leb_ℤ r.observed r.limit ≡ false)

-- What a step of the switch does to the report.
pub record Latched (c : KillSwitchConfig) (r r' : TripReport) : Type 0 where
  pub stays : tripped r ≡ true → r' ≡ r
  pub justified : Justified c r → Justified c r'

trans-Latched :
    {c : KillSwitchConfig} {r r' r'' : TripReport}
    → Latched c r r'
    → Latched c r' r''
    → Latched c r r''
trans-Latched a b = record {
  stays = λ t. b.stays (ap tripped (a.stays t) ∙ t) ∙ a.stays t;
  justified = λ j. b.justified (a.justified j);
}

same-Latched : (c : KillSwitchConfig) {r r' : TripReport} → r' ≡ r → Latched c r r'
same-Latched c e = record { stays = λ t. e; justified = λ j. subst (Justified c) (sym e) j }

pub trip_done :
    (reason : Trip) (observed limit : ℤ) (ts : ℕ) (k : KillSwitch)
    → tripped k.report ≡ true
    → trip reason observed limit ts k ≡ k
unfolding trip
trip_done reason observed limit ts k t = rw t refl

pub trip_first :
    (reason : Trip) (observed limit : ℤ) (ts : ℕ) (k : KillSwitch)
    → tripped k.report ≡ false
    → (trip reason observed limit ts k).report
      ≡ record { reason = reason; observed = observed; limit = limit; ts = ts }
unfolding trip
trip_first reason observed limit ts k t = rw t refl

named-Justified :
    (c : KillSwitchConfig) (reason : Trip) (observed limit : ℤ) (ts : ℕ)
    → Limits c reason limit
    → leb_ℤ observed limit ≡ false
    → Justified c (record { reason = reason; observed = observed; limit = limit; ts = ts })
unfolding Justified
named-Justified c reason observed limit ts l e u = (l, e)

trip-Latched :
    (c : KillSwitchConfig) (reason : Trip) (observed limit : ℤ) (ts : ℕ) (k : KillSwitch)
    → Limits c reason limit
    → leb_ℤ observed limit ≡ false
    → Latched c k.report (trip reason observed limit ts k).report
trip-Latched c reason observed limit ts k l e = elim (Bool-cases (tripped k.report)) [
  | inl t ↦ same-Latched c (ap (λ x. x.report) (trip_done reason observed limit ts k t))
  | inr t ↦ record {
    stays = λ u. absurd (true≢false (sym u ∙ t));
    justified = λ j.
        subst (Justified c) (sym (trip_first reason observed limit ts k t))
          (named-Justified c reason observed limit ts l e);
  }
]

check-Latched :
    (c : KillSwitchConfig) (is_off : Bool) (reason : Trip) (observed limit : ℤ) (ts : ℕ)
    (k : KillSwitch)
    → (is_off ≡ false → Limits c reason limit)
    → Latched c k.report (check is_off reason observed limit ts k).report
unfolding check
check-Latched c true reason observed limit ts k on = same-Latched c refl
check-Latched c false reason observed limit ts k on = elim (Bool-cases (leb_ℤ observed limit)) [
  | inl u ↦ rw u (same-Latched c refl)
  | inr u ↦ rw u (trip-Latched c reason observed limit ts k (on refl) u)
]

-- A test with two ways to be off.
second_off : (a b : Bool) → (a || b) ≡ false → a ≡ false
second_off true b e = e
second_off false b e = refl

rate-Latched :
    (c : KillSwitchConfig) (ts : ℕ) (k : KillSwitch) → Latched c k.report (check_rate c ts k).report
unfolding check_rate
rate-Latched c ts k =
    check-Latched c (c.max_messages_per_second == 0) message_rate _ _ ts k
      (λ e. (refl, ground arith))

ratio-Latched :
    (c : KillSwitchConfig) (ts : ℕ) (k : KillSwitch)
    → Latched c k.report (check_ratio c ts k).report
unfolding check_ratio
ratio-Latched c ts k =
    check-Latched c _ order_to_fill _ _ ts k
      (λ e. second_off (c.max_orders_per_fill == 0) (ltb k.orders c.ratio_min_orders) e)

pub drawdown-Latched :
    (c : KillSwitchConfig) (ts : ℕ) (k : KillSwitch)
    → Latched c k.report (check_drawdown c ts k).report
unfolding check_drawdown
drawdown-Latched c ts k = peaked k.peak_equity refl
  where
    peaked : (p : Option ℤ) → k.peak_equity ≡ p → Latched c k.report (check_drawdown c ts k).report
    peaked none e = rw (check_drawdown, e) (same-Latched c refl)
    peaked (some peak) e =
        rw (check_drawdown, e) (check-Latched c _ drawdown _ _ ts k (λ o. (refl, o)))

pub position-Latched :
    (c : KillSwitchConfig) (ts : ℕ) (position : ℤ) (k : KillSwitch)
    → Latched c k.report (check_position c ts position k).report
unfolding check_position
position-Latched c ts position k = check-Latched c _ position_limit _ _ ts k (λ e. (refl, e))

pub notional-Latched :
    (c : KillSwitchConfig) (ts : ℕ) (position mark : ℤ) (k : KillSwitch)
    → Latched c k.report (check_notional c ts position mark k).report
unfolding check_notional
notional-Latched c ts position mark k =
    check-Latched c _ notional_limit _ _ ts k
      (λ e. (refl, second_off (leb_ℤ c.max_notional (pos 0)) (leb_ℤ mark (pos 0)) e))

message-Latched :
    (c : KillSwitchConfig) (ts : ℕ) (is_order : Bool) (k : KillSwitch)
    → Latched c k.report (on_message_sent c ts is_order k).report
unfolding on_message_sent
message-Latched c ts is_order k =
    let k' = record k {
      messages = k.messages + 1;
      orders = if is_order then k.orders + 1 else k.orders;
      window = add k.window ts;
    } in
    trans-Latched (rate-Latched c ts k') (ratio-Latched c ts (check_rate c ts k'))

observe-Latched :
    (c : KillSwitchConfig) (ts : ℕ) (position equity mark : ℤ) (k : KillSwitch)
    → Latched c k.report (observe c ts position equity mark k).report
unfolding observe
observe-Latched c ts position equity mark k =
    let k' = record k { peak_equity = some (higher k.peak_equity equity); last_equity = equity } in
    let k'' = check_position c ts position k' in
    trans-Latched (position-Latched c ts position k') (
      trans-Latched (notional-Latched c ts position mark k'')
        (drawdown-Latched c ts (check_notional c ts position mark k'')))

fill-Latched :
    (c : KillSwitchConfig) (ts : ℕ) (position equity mark : ℤ) (k : KillSwitch)
    → Latched c k.report (on_fill c ts position equity mark k).report
unfolding on_fill
fill-Latched c ts position equity mark k =
    observe-Latched c ts position equity mark (record k { fills = k.fills + 1 })

backlogged-Latched :
    (c : KillSwitchConfig) (ts occupancy : ℕ) (since : Option ℕ) (k : KillSwitch)
    → (c.max_ring_occupancy == 0) ≡ false
    → leb occupancy c.max_ring_occupancy ≡ false
    → Latched c k.report (backlogged c ts occupancy since k).report
unfolding backlogged
backlogged-Latched c ts occupancy none k on over = elim (Bool-cases (c.backlog_sustained_ns == 0)) [
  | inl u ↦ rw u (
      trip-Latched c feed_backlog _ _ ts (record k { backlog_since = some ts }) (refl, ground arith)
        (ground arith))
  | inr u ↦ rw u (same-Latched c refl)
]
backlogged-Latched c ts occupancy (some since) k on over = elim (Bool-cases (ltb ts since)) [
  | inl u ↦ rw u (same-Latched c refl)
  | inr u ↦ elim (Bool-cases (leb c.backlog_sustained_ns (ts - since))) [
    | inl v ↦ rw (u, v) (trip-Latched c feed_backlog _ _ ts k (refl, ground arith) (ground arith))
    | inr v ↦ rw (u, v) (same-Latched c refl)
  ]
]

occupancy-Latched :
    (c : KillSwitchConfig) (ts occupancy : ℕ) (k : KillSwitch)
    → Latched c k.report (on_ring_occupancy c ts occupancy k).report
unfolding on_ring_occupancy
occupancy-Latched c ts occupancy k = elim (Bool-cases (c.max_ring_occupancy == 0)) [
  | inl u ↦ rw u (same-Latched c refl)
  | inr u ↦ elim (Bool-cases (leb occupancy c.max_ring_occupancy)) [
    | inl v ↦ rw (u, v) (same-Latched c refl)
    | inr v ↦ rw (u, v) (backlogged-Latched c ts occupancy k.backlog_since _ u v)
  ]
]

-- What the program tells the switch.
pub data Op : Type 0 where
  message_sent : (ts : ℕ) → (is_order : Bool) → Op
  filled observed : (ts : ℕ) → (position equity mark : ℤ) → Op
  ring_occupancy : (ts occupancy : ℕ) → Op
  cleared : Op

unfoldable pub step : KillSwitchConfig → Op → KillSwitch → KillSwitch
step c (message_sent ts is_order) k = on_message_sent c ts is_order k
step c (filled ts position equity mark) k = on_fill c ts position equity mark k
step c (observed ts position equity mark) k = observe c ts position equity mark k
step c (ring_occupancy ts occupancy) k = on_ring_occupancy c ts occupancy k
step c cleared k = reset k

unfoldable pub run : KillSwitchConfig → List Op → KillSwitch → KillSwitch
run c [] k = k
run c (o ∷ os) k = run c os (step c o k)

-- No operation of the list is a reset.
unfoldable pub IsUncleared : List Op → Type 0
IsUncleared [] = Unit
IsUncleared (cleared ∷ os) = ⊥
IsUncleared (_ ∷ os) = IsUncleared os

step-Justified :
    (c : KillSwitchConfig) (o : Op) (k : KillSwitch)
    → Justified c k.report
    → Justified c (step c o k).report
unfolding step reset Justified
step-Justified c (message_sent ts is_order) k j = (message-Latched c ts is_order k).justified j
step-Justified c (filled ts position equity mark) k j =
    (fill-Latched c ts position equity mark k).justified j
step-Justified c (observed ts position equity mark) k j =
    (observe-Latched c ts position equity mark k).justified j
step-Justified c (ring_occupancy ts occupancy) k j =
    (occupancy-Latched c ts occupancy k).justified j
step-Justified c cleared k j = λ t. absurd (true≢false (sym t))

run-Justified :
    (c : KillSwitchConfig) (os : List Op) (k : KillSwitch)
    → Justified c k.report
    → Justified c (run c os k).report
unfolding run
run-Justified c [] k j = j
run-Justified c (o ∷ os) k j = run-Justified c os (step c o k) (step-Justified c o k j)

step-Latched :
    (c : KillSwitchConfig) (o : Op) (os : List Op) (k : KillSwitch)
    → IsUncleared (o ∷ os)
    → Latched c k.report (step c o k).report × IsUncleared os
unfolding step IsUncleared
step-Latched c (message_sent ts is_order) os k u = (message-Latched c ts is_order k, u)
step-Latched c (filled ts position equity mark) os k u =
    (fill-Latched c ts position equity mark k, u)
step-Latched c (observed ts position equity mark) os k u =
    (observe-Latched c ts position equity mark k, u)
step-Latched c (ring_occupancy ts occupancy) os k u = (occupancy-Latched c ts occupancy k, u)
step-Latched c cleared os k u = absurd u

pub run-stays :
    (c : KillSwitchConfig) (os : List Op) (k : KillSwitch)
    → IsUncleared os
    → tripped k.report ≡ true
    → (run c os k).report ≡ k.report
unfolding run
run-stays c [] k h t = refl
run-stays c (o ∷ os) k h t =
    let (a, u) = step-Latched c o os k h in
    run-stays c os (step c o k) u (ap tripped (a.stays t) ∙ t) ∙ a.stays t

switch-Justified : (c : KillSwitchConfig) → Justified c no_trip
unfolding Justified
switch-Justified c t = absurd (true≢false (sym t))

-- If after any operations on a new switch, resets among them, it has tripped, then the limit that
-- it reports is on, what was observed exceeds it, and any further operations but a reset leave the
-- report as it is.
pub run-report :
    (c : KillSwitchConfig) (os os' : List Op)
    → IsUncleared os'
    → tripped (run c os make_switch).report ≡ true
    → Limits c (run c os make_switch).report.reason (run c os make_switch).report.limit
      × (leb_ℤ (run c os make_switch).report.observed (run c os make_switch).report.limit ≡ false)
      × ((run c os' (run c os make_switch)).report ≡ (run c os make_switch).report)
unfolding Justified
run-report c os os' h t =
    let (named, over) = run-Justified c os make_switch (switch-Justified c) t in
    (named, over, run-stays c os' (run c os make_switch) h t)
