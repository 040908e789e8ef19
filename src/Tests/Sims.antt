-- ===== src/Tests/Sims.antt =====
-- A day of the simulator's ledger: a purchase below the mid, a restart, a sale above it, and a
-- purchase while there is no mid.
use itchbook.Base.{ℕ, ◌+◌, ◌*◌, ◌<◌, ◌≤◌, arith, ◌≡◌, refl, true, List, [], ◌∷◌}
use itchbook.Base.Ints.{neg_ℤ, ℤ, pos, negsuc, ◌+ℤ◌, ◌-ℤ◌, ◌*ℤ◌, quot, to_int32}
use itchbook.Sim.Money.{
  SimFill, buy, sell, added, removed, execution, taking, notional, divide_round,
}
use itchbook.Sim.Money.Rounding.{divide_round-nearest}
use itchbook.Sim.Fees.{base_tier, inverted_venue_2019, total_fee, exchange_fee, regulatory_fee}
use itchbook.Sim.Mid.{Mid, ok, one_sided}
use itchbook.Sim.Ledger.{
  make_ledger, reconciliation_error, on_fill, equity, edge, drift, drift_total, drifted, state,
  restore,
}
use itchbook.Sim.Ledger.Reconcile.{
  Step, fill, restart, run, step, run_error, reconciliation_error-run,
}

abbrev bought : SimFill
bought = record {
  order_id = 1;
  side = buy;
  price = pos 1000000;
  shares = 100;
  ts = 34200;
  trigger = execution;
  liquidity = added;
  ahead_at_arrival = 40;
}

abbrev sold : SimFill
sold = record bought {
  side = sell;
  price = pos 1000300;
  shares = 60;
  liquidity = removed;
  trigger = taking;
}

abbrev mid_at : ℤ → Mid
mid_at two_mid = record { two_mid = two_mid; status = ok }

abbrev day : List Step
day = fill bought (mid_at (pos 2000101)) ∷ restart ∷ fill sold (mid_at (pos 2000401)) ∷ []

abbrev blind : List Step
blind = fill bought (record { two_mid = pos 0; status = one_sided }) ∷ day

-- Proceeds of 6,001.80 dollars cost 12.4237 cents to the SEC and 0.714 cents to FINRA.
sale_fee : total_fee base_tier removed true (pos 1000300) 60 ≡ pos 311377
unfolding total_fee exchange_fee regulatory_fee divide_round notional ◌+ℤ◌ ◌*ℤ◌ quot
sale_fee = refl

balanced : reconciliation_error (pos 2000600) (run day (make_ledger base_tier)) ≡ pos 0
unfolding reconciliation_error run step on_fill restore state equity edge drift drift_total drifted
    total_fee exchange_fee regulatory_fee divide_round notional ◌+ℤ◌ ◌-ℤ◌ ◌*ℤ◌ quot to_int32
balanced = refl

-- Half a tick on 40 shares.
odd_mark : reconciliation_error (pos 2000601) (run day (make_ledger base_tier)) ≡ negsuc 1999
unfolding reconciliation_error run step on_fill restore state equity edge drift drift_total drifted
    total_fee exchange_fee regulatory_fee divide_round notional ◌+ℤ◌ ◌-ℤ◌ ◌*ℤ◌ quot to_int32
odd_mark = refl

reconciliation_error-run_example :
    reconciliation_error (pos 2000601) (run blind (make_ledger inverted_venue_2019))
    ≡ run_error (pos 2000601) (to_int32 (quot (pos 2000601) (pos 2))) blind
reconciliation_error-run_example = reconciliation_error-run inverted_venue_2019 (pos 2000601) blind

-- A half is rounded away from zero.
divide_round-nearest_example :
    (q : ℕ) × (divide_round (pos 25) (pos 10) ≡ pos q)
    × (divide_round (neg_ℤ (pos 25)) (pos 10) ≡ neg_ℤ (pos q))
    × (2 * 25 < 2 * (q * 10) + 10)
    × (2 * (q * 10) ≤ 2 * 25 + 10)
divide_round-nearest_example = divide_round-nearest 25 10 (omega arith)

half : divide_round (negsuc 24) (pos 10) ≡ negsuc 2
unfolding divide_round quot ◌-ℤ◌
half = refl
