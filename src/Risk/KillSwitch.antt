-- ===== src/Risk/KillSwitch.antt =====
-- include/itchbook/risk/kill_switch.hpp, class KillSwitch; what it promises is in Latch. The
-- configuration, which never changes, is an argument.
use itchbook.Base.{
  ℕ, ◌+◌, ◌-◌, ◌*◌, ◌%◌, ◌^◌, Bool, true, false, not, ◌||◌, ◌&&◌, if◌then◌else◌, ltb, leb, ◌==◌,
  Option, none, some,
}
use itchbook.Base.Ints.{ℤ, pos, negsuc, ◌-ℤ◌, neg_ℤ, leb_ℤ}
use itchbook.Sim.Money.{notional}
use itchbook.Risk.RateWindow.{RateWindow, make_window, add, rate}
pub mod Latch
pub mod Within

pub data Trip : Type 0 where
  untripped position_limit notional_limit message_rate order_to_fill drawdown feed_backlog : Trip

pub record KillSwitchConfig : Type 0 where
  pub max_position : ℤ
  pub max_notional : ℤ
  pub max_messages_per_second : ℕ
  pub max_orders_per_fill : ℕ
  pub ratio_min_orders : ℕ
  pub max_drawdown : ℤ
  pub max_ring_occupancy : ℕ
  pub backlog_sustained_ns : ℕ

pub record TripReport : Type 0 where
  pub reason : Trip
  pub observed : ℤ
  pub limit : ℤ
  pub ts : ℕ

abbrev pub no_trip : TripReport
no_trip = record { reason = untripped; observed = pos 0; limit = pos 0; ts = 0 }

abbrev pub trips : Trip → Bool
trips untripped = false
trips _ = true

abbrev pub tripped : TripReport → Bool
tripped r = trips r.reason

-- `none` for the backlog that has not begun and for the peak that was not seen.
pub record KillSwitch : Type 0 where
  pub report : TripReport
  pub window : RateWindow
  pub messages : ℕ
  pub orders : ℕ
  pub fills : ℕ
  pub peak_equity : Option ℤ
  pub backlog_since : Option ℕ
  pub peak_occupancy : ℕ
  pub last_equity : ℤ

abbrev pub make_switch : KillSwitch
make_switch = record {
  report = no_trip;
  window = make_window;
  messages = 0;
  orders = 0;
  fills = 0;
  peak_equity = none;
  backlog_since = none;
  peak_occupancy = 0;
  last_equity = pos 0;
}

unfoldable pub trip : Trip → ℤ → ℤ → ℕ → KillSwitch → KillSwitch
trip reason observed limit ts k = if tripped k.report then k else record k {
  report = record { reason = reason; observed = observed; limit = limit; ts = ts };
}

abbrev pub abs_position : ℤ → ℤ
abs_position position = if leb_ℤ (pos 0) position then position else neg_ℤ position

-- `trip` behind its two tests: the limit is off, or it is not exceeded.
unfoldable pub check : Bool → Trip → ℤ → ℤ → ℕ → KillSwitch → KillSwitch
check is_off reason observed limit ts k =
    if is_off then k else if leb_ℤ observed limit then k else trip reason observed limit ts k

unfoldable pub check_position : KillSwitchConfig → ℕ → ℤ → KillSwitch → KillSwitch
check_position c ts position k =
    check (leb_ℤ c.max_position (pos 0)) position_limit (abs_position position) c.max_position ts k

unfoldable pub check_notional : KillSwitchConfig → ℕ → ℤ → ℤ → KillSwitch → KillSwitch
check_notional c ts position mark k =
    check (leb_ℤ c.max_notional (pos 0) || leb_ℤ mark (pos 0)) notional_limit
      (notional mark (abs_position position)) c.max_notional ts k

unfoldable pub check_rate : KillSwitchConfig → ℕ → KillSwitch → KillSwitch
check_rate c ts k =
    check (c.max_messages_per_second == 0) message_rate (pos (rate k.window))
      (pos c.max_messages_per_second) ts k

-- The product wraps at 2^64.
abbrev pub allowed_orders : KillSwitchConfig → KillSwitch → ℕ
allowed_orders c k =
    if k.fills == 0 then c.max_orders_per_fill else c.max_orders_per_fill * k.fills % 2 ^ 64

unfoldable pub check_ratio : KillSwitchConfig → ℕ → KillSwitch → KillSwitch
check_ratio c ts k =
    check (c.max_orders_per_fill == 0 || ltb k.orders c.ratio_min_orders) order_to_fill
      (pos k.orders) (pos (allowed_orders c k)) ts k

unfoldable pub check_drawdown : KillSwitchConfig → ℕ → KillSwitch → KillSwitch
check_drawdown c ts k = elim k.peak_equity [
  | none ↦ k
  | some peak ↦
      check (leb_ℤ c.max_drawdown (pos 0)) drawdown (peak -ℤ k.last_equity) c.max_drawdown ts k
]

unfoldable pub on_message_sent : KillSwitchConfig → ℕ → Bool → KillSwitch → KillSwitch
on_message_sent c ts is_order k =
    let k' = record k {
      messages = k.messages + 1;
      orders = if is_order then k.orders + 1 else k.orders;
      window = add k.window ts;
    } in
    check_ratio c ts (check_rate c ts k')

abbrev pub higher : Option ℤ → ℤ → ℤ
higher none equity = equity
higher (some peak) equity = if leb_ℤ equity peak then peak else equity

unfoldable pub observe : KillSwitchConfig → ℕ → ℤ → ℤ → ℤ → KillSwitch → KillSwitch
observe c ts position equity mark k =
    let k' = record k { peak_equity = some (higher k.peak_equity equity); last_equity = equity } in
    check_drawdown c ts (check_notional c ts position mark (check_position c ts position k'))

unfoldable pub on_fill : KillSwitchConfig → ℕ → ℤ → ℤ → ℤ → KillSwitch → KillSwitch
on_fill c ts position equity mark k =
    observe c ts position equity mark (record k { fills = k.fills + 1 })

-- With the occupancy above its limit.
unfoldable pub backlogged : KillSwitchConfig → ℕ → ℕ → Option ℕ → KillSwitch → KillSwitch
backlogged c ts occupancy none k =
    let k' = record k { backlog_since = some ts } in
    if c.backlog_sustained_ns == 0
    then trip feed_backlog (pos occupancy) (pos c.max_ring_occupancy) ts k'
    else k'
backlogged c ts occupancy (some since) k =
    if ltb ts since
    then record k { backlog_since = some ts }
    else if leb c.backlog_sustained_ns (ts - since)
    then trip feed_backlog (pos occupancy) (pos c.max_ring_occupancy) ts k
    else k

unfoldable pub on_ring_occupancy : KillSwitchConfig → ℕ → ℕ → KillSwitch → KillSwitch
on_ring_occupancy c ts occupancy k =
    let k' = record k {
      peak_occupancy = if ltb k.peak_occupancy occupancy then occupancy else k.peak_occupancy;
    } in
    if c.max_ring_occupancy == 0
    then k
    else if leb occupancy c.max_ring_occupancy
    then record k' { backlog_since = none }
    else backlogged c ts occupancy k'.backlog_since k'

-- `last_equity_` stays; it is read only with a peak.
unfoldable pub reset : KillSwitch → KillSwitch
reset k = record make_switch { last_equity = k.last_equity }

unfoldable pub live : KillSwitch → Bool
live k = not (tripped k.report)
