-- ===== src/Tests/Risks.antt =====
-- risk/kill_switch.hpp: the rate after messages at 0 s, 0.5 s and 1.05 s.
use itchbook.Base.{◌≡◌, refl, ap, true, false, List, [], ◌∷◌, arith}
use itchbook.Base.Ints.{pos, negsuc, leb_ℤ, ◌-ℤ◌}
use itchbook.Risk.KillSwitch.{
  KillSwitchConfig, make_switch, tripped, position_limit, trip, check, check_position,
  check_notional, check_rate, check_ratio, check_drawdown, on_message_sent, on_fill, observe,
}
use itchbook.Risk.KillSwitch.{live}
use itchbook.Risk.KillSwitch.Within.{AllWithin, run-live}
use itchbook.Risk.KillSwitch.Latch.{
  Op, message_sent, filled, observed, ring_occupancy, run, step, Limits, IsUncleared, run-report,
}
use itchbook.Risk.RateWindow.{RateWindow, make_window, add, rate, bucket_of}
use itchbook.Risk.RateWindow.Rate.{IsCounting, recent, make_window-IsCounting, rate-add}

abbrev first : RateWindow
first = add make_window 0

rate-add_example :
    IsCounting (add make_window 500000000) (bucket_of 500000000 ∷ [])
    × (rate (add make_window 500000000) ≡ recent (bucket_of 500000000) (bucket_of 500000000 ∷ []))
unfolding make_window
rate-add_example =
    rate-add make_window [] 500000000 make_window-IsCounting (omega arith) (λ n. absurd (n refl))

-- The first message is out of the second that ends with the third.
forgotten : rate (add (add first 500000000) 1050000000) ≡ 2
unfolding make_window add rate
forgotten = refl

-- The position is over its limit at 2 s, and falls and rises again later.
abbrev limits : KillSwitchConfig
limits = record {
  max_position = pos 1000;
  max_notional = pos 0;
  max_messages_per_second = 50;
  max_orders_per_fill = 0;
  ratio_min_orders = 100;
  max_drawdown = pos 1000000;
  max_ring_occupancy = 64;
  backlog_sustained_ns = 100000000;
}

abbrev before : List Op
before =
    message_sent 1000000000 true
    ∷ filled 1500000000 (negsuc 799) (pos 20000) (pos 1000000)
    ∷ observed 2000000000 (negsuc 1199) (pos 10000) (pos 1000000)
    ∷ []

abbrev later : List Op
later = ring_occupancy 3000000000 80 ∷ observed 4000000000 (pos 1500) (negsuc 0) (pos 1000000) ∷ []

at_two_seconds :
    (run limits before make_switch).report
    ≡ record { reason = position_limit; observed = pos 1200; limit = pos 1000; ts = 2000000000 }
unfolding run step observe check_drawdown check_notional check check_position trip on_fill ◌-ℤ◌
    on_message_sent check_ratio check_rate rate add make_window
at_two_seconds = refl

run-report_example :
    Limits limits
      (run limits before make_switch).report.reason
      (run limits before make_switch).report.limit
    × (leb_ℤ
          (run limits before make_switch).report.observed
          (run limits before make_switch).report.limit
        ≡ false)
    × ((run limits later (run limits before make_switch)).report
        ≡ (run limits before make_switch).report)
unfolding IsUncleared
run-report_example = run-report limits before later tt (ap tripped at_two_seconds)

-- A short position within the limit, at a mark above 0.
abbrev quiet_day : List Op
quiet_day =
    filled 1500000000 (negsuc 799) (pos 20000) (pos 1000000)
    ∷ observed 1600000000 (pos 1000) (pos 30000) (pos 1000000)
    ∷ []

quiet_live : live (run limits quiet_day make_switch) ≡ true
unfolding live run step observe check_drawdown check_notional check check_position trip on_fill ◌-ℤ◌
quiet_live = refl

run-live_example : AllWithin limits quiet_day
unfolding IsUncleared
run-live_example = run-live limits quiet_day tt quiet_live
