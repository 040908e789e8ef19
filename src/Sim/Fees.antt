-- ===== src/Sim/Fees.antt =====
-- include/itchbook/sim/fees.hpp: what the exchange and the regulators charge for one fill. A cost
-- is positive, a credit negative.
use itchbook.Base.{ℕ, Bool, if◌then◌else◌}
use itchbook.Base.Ints.{ℤ, pos, negsuc, ◌+ℤ◌, ◌*ℤ◌, leb_ℤ}
use itchbook.Sim.Money.{Liquidity, added, removed, cross, micros_per_dollar, notional, divide_round}

pub record ExchangeFees : Type 0 where
  pub maker : ℤ
  pub taker : ℤ
  pub cross_rate : ℤ

pub record RegulatoryFees : Type 0 where
  pub sec_per_million_dollars_centis : ℤ
  pub taf_per_share : ℤ
  pub taf_cap_per_trade : ℤ

pub record FeeSchedule : Type 0 where
  pub exchange : ExchangeFees
  pub regulatory : RegulatoryFees

abbrev pub base_tier : FeeSchedule
base_tier = record {
  exchange = record { maker = negsuc 1999; taker = pos 3000; cross_rate = pos 1500 };
  regulatory = record {
    sec_per_million_dollars_centis = pos 2070;
    taf_per_share = pos 119;
    taf_cap_per_trade = pos 5950000;
  };
}

abbrev pub nasdaq_top_tier_2019 : FeeSchedule
nasdaq_top_tier_2019 = record base_tier {
  exchange = record base_tier.exchange { maker = negsuc 3049 };
}

abbrev pub inverted_venue_2019 : FeeSchedule
inverted_venue_2019 = record base_tier {
  exchange = record base_tier.exchange { maker = pos 1800; taker = negsuc 1599 };
}

unfoldable pub exchange_fee : FeeSchedule → Liquidity → ℕ → ℤ
exchange_fee f added shares = f.exchange.maker *ℤ pos shares
exchange_fee f removed shares = f.exchange.taker *ℤ pos shares
exchange_fee f cross shares = f.exchange.cross_rate *ℤ pos shares

abbrev min_ℤ : ℤ → ℤ → ℤ
min_ℤ a b = if leb_ℤ a b then a else b

unfoldable pub regulatory_fee : FeeSchedule → Bool → ℤ → ℕ → ℤ
regulatory_fee f is_sell price shares =
    let proceeds = notional price (pos shares) in
    let sec =
      divide_round (proceeds *ℤ f.regulatory.sec_per_million_dollars_centis)
        (pos 100 *ℤ micros_per_dollar) in
    let taf = f.regulatory.taf_per_share *ℤ pos shares in
    if is_sell then sec +ℤ min_ℤ taf (f.regulatory.taf_cap_per_trade) else pos 0

unfoldable pub total_fee : FeeSchedule → Liquidity → Bool → ℤ → ℕ → ℤ
total_fee f liq is_sell price shares =
    exchange_fee f liq shares +ℤ regulatory_fee f is_sell price shares
