-- ===== src/Tests/Recoveries.antt =====
-- recover/gap_policy.hpp: a window of 32 references with a tolerance of one.
use itchbook.Base.{◌≡◌, refl, ◌⊎◌, false, List, [], ◌∷◌, ◌++◌, arith}
use itchbook.Recover.GapPolicy.{
  GapConfig, GapTracker, rebuild_forward, recovering, trusted, make_tracker, on_gap, on_reference,
  reset_window,
}
use itchbook.Recover.Halt
use itchbook.Recover.Halt.{unknown, session_from}
use itchbook.Recover.Halt.Time.{Event, action, look, handle_all, stopped_time, halted_ns_lem}
use itchbook.Recover.GapPolicy.Window.{IsWindow, Earned, on_reference_lem, Gapped, on_gap_lem}

abbrev cfg : GapConfig
cfg = record {
  policy = rebuild_forward;
  recovery_window = 32;
  recovery_tolerance = 1;
  max_gaps_before_halt = 3;
}

abbrev after_gap : GapTracker
after_gap = (on_gap (make_tracker cfg) 10 5).0

on_gap_lem_example : Gapped (make_tracker cfg) 5 (on_gap (make_tracker cfg) 10 5)
on_gap_lem_example = on_gap_lem (make_tracker cfg) 10 5

on_reference_lem_example :
    (((on_reference after_gap false).state ≡ recovering)
      × IsWindow (on_reference after_gap false) (false ∷ []))
    ⊎ (((on_reference after_gap false).state ≡ trusted) × Earned cfg (false ∷ []))
unfolding make_tracker on_gap reset_window
on_reference_lem_example = on_reference_lem after_gap false [] refl on_gap_lem_example.0

-- A halt from time 5 to 9, with a trading action that repeats the halt.
abbrev halt_events : List Event
halt_events = action b'T' 1 ∷ action b'H' 5 ∷ action b'H' 6 ∷ action b'T' 9 ∷ []

halted_ns_lem_example :
    (handle_all Halt.make_tracker (halt_events ++ (look 20 ∷ []))).stats.halted_ns
    ≡ stopped_time false 0 (halt_events ++ (look 20 ∷ []))
halted_ns_lem_example = halted_ns_lem halt_events 20 (
  omega arith,
  omega arith,
  (
    omega arith,
    omega arith,
    (omega arith, omega arith, (omega arith, omega arith, (omega arith, omega arith, tt))),
  ),
)

four : stopped_time false 0 (halt_events ++ (look 20 ∷ [])) ≡ 4
four = refl
