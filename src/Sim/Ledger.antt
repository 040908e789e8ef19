-- ===== src/Sim/Ledger.antt =====
-- include/itchbook/sim/ledger.hpp: position, cash, and where the money came from; its proofs are in
-- Reconcile.
use itchbook.Base.{ℕ, ◌==◌, ◌+◌, Bool, true, false, List, [], ◌∷◌, ◌++◌, if◌then◌else◌}
use itchbook.Base.Ints.{ℤ, pos, negsuc, ◌+ℤ◌, ◌-ℤ◌, ◌*ℤ◌, quot, neg_ℤ, to_int32}
use itchbook.Sim.Money.{
  Liquidity, Side, buy, sell, SimFill, micros_per_price4, notional, divide_round,
}
use itchbook.Sim.Fees.{FeeSchedule, total_fee}
use itchbook.Sim.Mid.{Mid, is_ok}
pub mod Reconcile

pub record LedgerFill : Type 0 where
  pub ts : ℕ
  pub side : Side
  pub price : ℤ
  pub shares : ℕ
  pub two_mid : ℤ
  pub mid_ok : Bool
  pub fee : ℤ
  pub liquidity : Liquidity

pub record Ledger : Type 0 where
  pub schedule : FeeSchedule
  pub cash : ℤ
  pub position : ℤ
  pub fees_total : ℤ
  pub two_edge : ℤ
  pub fills_without_mid : ℕ
  pub fills : List LedgerFill

abbrev pub make_ledger : FeeSchedule → Ledger
make_ledger f = record {
  schedule = f;
  cash = pos 0;
  position = pos 0;
  fees_total = pos 0;
  two_edge = pos 0;
  fills_without_mid = 0;
  fills = [];
}

abbrev pub signed : Side → ℕ → ℤ
signed buy shares = pos shares
signed sell shares = neg_ℤ (pos shares)

abbrev pub sgn : Side → ℤ
sgn buy = pos 1
sgn sell = negsuc 0

abbrev pub is_sell : Side → Bool
is_sell buy = false
is_sell sell = true

abbrev pub fee_of : FeeSchedule → SimFill → ℤ
fee_of s f = total_fee s f.liquidity (is_sell f.side) f.price f.shares

abbrev pub logged : SimFill → Mid → ℤ → LedgerFill
logged f mid fee = record {
  ts = f.ts;
  side = f.side;
  price = f.price;
  shares = f.shares;
  two_mid = mid.two_mid;
  mid_ok = is_ok mid;
  fee = fee;
  liquidity = f.liquidity;
}

unfoldable pub on_fill : SimFill → Mid → Ledger → Ledger
on_fill f mid l =
    let signed_shares = signed f.side f.shares in
    let fee = fee_of l.schedule f in
    record {
      schedule = l.schedule;
      cash = l.cash -ℤ notional f.price signed_shares -ℤ fee;
      position = l.position +ℤ signed_shares;
      fees_total = l.fees_total +ℤ fee;
      two_edge =
          if is_ok mid
          then l.two_edge +ℤ sgn f.side *ℤ (mid.two_mid -ℤ pos 2 *ℤ f.price) *ℤ pos f.shares
          else l.two_edge;
      fills_without_mid = if is_ok mid then l.fills_without_mid else l.fills_without_mid + 1;
      fills = l.fills ++ logged f mid fee ∷ [];
    }

unfoldable pub equity : ℤ → Ledger → ℤ
equity mark l = l.cash +ℤ notional mark l.position

unfoldable pub edge : Ledger → ℤ
edge l = l.two_edge *ℤ quot micros_per_price4 (pos 2)

unfoldable pub drifted : ℤ → LedgerFill → ℤ
drifted two_mark f =
    if f.mid_ok then sgn f.side *ℤ (two_mark -ℤ f.two_mid) *ℤ pos f.shares else pos 0

unfoldable pub drift_total : ℤ → ℤ → List LedgerFill → ℤ
drift_total two_mark total [] = total
drift_total two_mark total (f ∷ fs) = drift_total two_mark (total +ℤ drifted two_mark f) fs

unfoldable pub drift : ℤ → Ledger → ℤ
drift two_mark l = drift_total two_mark (pos 0) l.fills *ℤ quot micros_per_price4 (pos 2)

unfoldable pub reconciliation_error : ℤ → Ledger → ℤ
reconciliation_error two_mark l =
    let mark = to_int32 (quot two_mark (pos 2)) in
    equity mark l -ℤ (edge l +ℤ drift two_mark l -ℤ l.fees_total)

unfoldable pub shares_traded : List LedgerFill → ℕ
shares_traded [] = 0
shares_traded (f ∷ fs) = f.shares + shares_traded fs

unfoldable pub per_share : ℤ → Ledger → ℤ
per_share total l =
    let shares = shares_traded l.fills in
    if shares == 0 then pos 0 else divide_round total (pos shares)

pub record State : Type 0 where
  pub cash : ℤ
  pub position : ℤ
  pub fees_total : ℤ
  pub two_edge : ℤ
  pub fills_without_mid : ℕ
  pub fills : List LedgerFill

unfoldable pub state : Ledger → State
state l = record {
  cash = l.cash;
  position = l.position;
  fees_total = l.fees_total;
  two_edge = l.two_edge;
  fills_without_mid = l.fills_without_mid;
  fills = l.fills;
}

unfoldable pub restore : State → Ledger → Ledger
restore s l = record {
  schedule = l.schedule;
  cash = s.cash;
  position = s.position;
  fees_total = s.fees_total;
  two_edge = s.two_edge;
  fills_without_mid = s.fills_without_mid;
  fills = s.fills;
}
