-- ===== src/Sim/Money.antt =====
-- include/itchbook/sim/money.hpp and the Side and the SimFill of sim/event.hpp.
pub mod Rounding
use itchbook.Base.{zero, ℕ, Bool, true, false, if◌then◌else◌}
use itchbook.Base.Ints.{ℤ, pos, ◌+ℤ◌, ◌-ℤ◌, ◌*ℤ◌, quot, leb_ℤ}

abbrev pub micros_per_price4 : ℤ
micros_per_price4 = pos 100

abbrev pub micros_per_dollar : ℤ
micros_per_dollar = pos 1000000

pub data Liquidity : Type 0 where
  added removed cross : Liquidity

unfoldable pub notional : ℤ → ℤ → ℤ
notional price signed_shares = price *ℤ micros_per_price4 *ℤ signed_shares

abbrev is_zero : ℤ → Bool
is_zero (pos zero) = true
is_zero _ = false

unfoldable pub divide_round : ℤ → ℤ → ℤ
divide_round numerator denominator =
    let half = quot denominator (pos 2) in
    if is_zero denominator
    then pos 0
    else if leb_ℤ (pos 0) numerator
    then quot (numerator +ℤ half) denominator
    else quot (numerator -ℤ half) denominator

pub data Side : Type 0 where
  buy sell : Side

pub data Trigger : Type 0 where
  execution lock through naive taking : Trigger

pub record SimFill : Type 0 where
  pub order_id : ℕ
  pub side : Side
  pub price : ℤ
  pub shares : ℕ
  pub ts : ℕ
  pub trigger : Trigger
  pub liquidity : Liquidity
  pub ahead_at_arrival : ℕ
