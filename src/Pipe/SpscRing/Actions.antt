-- ===== src/Pipe/SpscRing/Actions.antt =====
-- The actions of the two threads on the ring, the contracts that they keep, and their runs.
use itchbook.Base.{ℕ, zero, suc, ◌+◌, ◌-◌, ◌≤◌, ◌<◌, List, [], ◌∷◌, ◌++◌}
use itchbook.Pipe.SpscRing.{
  Ring, index, room, ready, writable, writable_exact, write_slot, publish, readable, consume,
}

-- What a thread does: the first four are the producer's, the others the consumer's.
pub data Action {ℓ} (A : Type ℓ) : Type ℓ where
  ask_room ask_exact : Action A
  fill : ℕ → A → Action A
  send : ℕ → Action A
  ask_ready : Action A
  receive : ℕ → Action A

module _ {ℓ} {A : Type ℓ} where
  abbrev pub act : Ring A → Action A → Ring A
  act r ask_room = (writable r).0
  act r ask_exact = (writable_exact r).0
  act r (fill n v) = write_slot r n v
  act r (send n) = publish r n
  act r ask_ready = (readable r).0
  act r (receive n) = consume r n

  -- The preconditions that the comments of `publish` and `consume` state: a thread goes by what
  -- it was last told.
  abbrev pub Allowed : Ring A → Action A → Type 0
  Allowed r ask_room = Unit {0}
  Allowed r ask_exact = Unit {0}
  Allowed r (fill n v) = n < room r
  Allowed r (send n) = n ≤ room r
  Allowed r ask_ready = Unit {0}
  Allowed r (receive n) = n ≤ ready r

  -- `n` slots from a count on.
  abbrev pub window : (ℕ → A) → ℕ → ℕ → ℕ → List A
  window s capacity i zero = []
  window s capacity i (suc n) = s (index capacity i) ∷ window s capacity (i + 1) n

  -- What an action hands over to the consumer, and what the consumer takes.
  abbrev pub sent_by : Ring A → Action A → List A
  sent_by r ask_room = []
  sent_by r ask_exact = []
  sent_by r (fill n v) = []
  sent_by r (send n) = window r.slots r.capacity r.head n
  sent_by r ask_ready = []
  sent_by r (receive n) = []

  abbrev pub received_by : Ring A → Action A → List A
  received_by r ask_room = []
  received_by r ask_exact = []
  received_by r (fill n v) = []
  received_by r (send n) = []
  received_by r ask_ready = []
  received_by r (receive n) = window r.slots r.capacity r.tail n

  -- Runs: any interleaving of the two threads.
  abbrev pub run : Ring A → List (Action A) → Ring A
  run r [] = r
  run r (a ∷ todo) = run (act r a) todo

  abbrev pub AllAllowed : Ring A → List (Action A) → Type 0
  AllAllowed r [] = Unit {0}
  AllAllowed r (a ∷ todo) = Allowed r a × AllAllowed (act r a) todo

  abbrev pub sent : Ring A → List (Action A) → List A
  sent r [] = []
  sent r (a ∷ todo) = sent_by r a ++ sent (act r a) todo

  abbrev pub received : Ring A → List (Action A) → List A
  received r [] = []
  received r (a ∷ todo) = received_by r a ++ received (act r a) todo

  -- The messages in the ring.
  abbrev pub contents : Ring A → List A
  contents r = window r.slots r.capacity r.tail (r.head - r.tail)
