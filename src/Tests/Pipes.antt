-- ===== src/Tests/Pipes.antt =====
-- pipe/spsc_ring.hpp: a ring of two slots.
use itchbook.Base.{ℕ, ◌≡◌, refl, ◌≤◌, ◌^◌, ◌++◌, List, [], ◌∷◌, arith}
use itchbook.Pipe.SpscRing.{
  Ring, make_ring, push, pop, size, writable, readable, write_slot, publish, consume,
}
use itchbook.Pipe.SpscRing.Actions.{
  Action, ask_room, fill, send, ask_ready, receive, run, sent, received, contents,
}
use itchbook.Pipe.SpscRing.Fifo.{IsRing, run_lem}
use itchbook.Pipe.SpscRing.Single.{make_ring-IsRing, Pushed, Popped, push_lem, pop_lem}

abbrev empty_ring : Ring ℕ
empty_ring = make_ring (2 ^ 1) 0

empty_ring-IsRing : IsRing empty_ring
empty_ring-IsRing = make_ring-IsRing 1 0

-- The producer fills two slots and publishes one; the consumer takes it; the other follows.
abbrev trace : List (Action ℕ)
trace = ask_room ∷ fill 0 7 ∷ fill 1 8 ∷ send 1 ∷ ask_ready ∷ receive 1 ∷ send 1 ∷ []

run_lem_example :
    IsRing (run empty_ring trace)
    × (contents empty_ring ++ sent empty_ring trace
        ≡ received empty_ring trace ++ contents (run empty_ring trace))
    × (size (run empty_ring trace) ≤ (run empty_ring trace).capacity)
unfolding make_ring writable readable write_slot publish consume
run_lem_example =
    run_lem empty_ring trace empty_ring-IsRing
      (tt, (omega arith, (omega arith, (omega arith, (tt, (omega arith, (omega arith, tt)))))))

received_first : received empty_ring trace ≡ 7 ∷ []
unfolding make_ring writable readable write_slot publish consume
received_first = refl

push_lem_example : Pushed empty_ring 7 (push empty_ring 7)
push_lem_example = push_lem empty_ring 7 empty_ring-IsRing

pop_lem_example : Popped (push empty_ring 7).0 (pop (push empty_ring 7).0)
pop_lem_example = pop_lem (push empty_ring 7).0 push_lem_example.0
