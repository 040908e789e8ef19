-- ===== src/Pipe/SpscRing/Single.antt =====
-- One message at a time: `push` and `pop` of the ring.
use itchbook.Base.{
  ℕ, ◌+◌, ◌^◌, ◌≤◌, ◌<◌, ◌≡◌, refl, sym, ap, subst, ◌∙◌, inl, inr, Bool, true, false, not, Option,
  none, some, [], ◌∷◌, ◌++◌, arith, ◌==◌, if◌then◌else◌, Bool-cases,
}
use mathlib.Core.List.{append-nil}
use itchbook.Base.Bits.{pow_pos}
use itchbook.Pipe.SpscRing.{
  Ring, index, make_ring, room, ready, writable, write_slot, publish, push, readable, read_slot,
  consume, pop, size, full, is_empty,
}
use itchbook.Pipe.SpscRing.Actions.{ask_room, fill, send, ask_ready, receive, contents}
use itchbook.Pipe.SpscRing.Fifo.{IsRing, act-IsRing, act-contents}

module _ {ℓ} {A : Type ℓ} where
  capacity_pos : (r : Ring A) → IsRing r → 0 < r.capacity
  capacity_pos r v = let (k, e) = v.power in subst (λ n. 0 < n) (sym e) (pow_pos k)

  -- A new ring is empty.
  pub make_ring-IsRing : (k : ℕ) (v : A) → IsRing (make_ring (2 ^ k) v)
  unfolding make_ring
  make_ring-IsRing k v = record {
    power = (k, refl);
    behind_tail = omega arith;
    read_on = omega arith;
    behind_head = omega arith;
    lap = omega arith;
  }

  -- What `writable` answers: at least one exactly where the ring is not full.
  writable_answer :
      (r : Ring A)
      → IsRing r
      → ((writable r).1 ≡ room (writable r).0) × (((writable r).1 == 0) ≡ full r)
  unfolding writable full size
  writable_answer r v =
      let p = capacity_pos r v in
      let a = v.behind_tail in
      let b = v.lap in
      let c = v.read_on in
      let d = v.behind_head in
      elim (Bool-cases (room r == 0)) [
        | inl t ↦ rw t (refl, ground arith)
        | inr t ↦ rw t (refl, rw t (ground arith))
      ]

  readable_answer :
      (r : Ring A)
      → IsRing r
      → ((readable r).1 ≡ ready (readable r).0) × (((readable r).1 == 0) ≡ is_empty r)
  unfolding readable is_empty size
  readable_answer r v =
      let c = v.read_on in
      let d = v.behind_head in
      elim (Bool-cases (ready r == 0)) [
        | inl t ↦ rw t (refl, refl)
        | inr t ↦ rw t (refl, rw t (ground arith))
      ]

  -- What a call of `push` gives.
  abbrev pub Pushed : Ring A → A → Ring A × Bool → Type ℓ
  Pushed r v (r', ok) =
      IsRing r'
      × (ok ≡ not (full r))
      × (contents r' ≡ (if ok then contents r ++ (v ∷ []) else contents r))

  -- Filling one slot and publishing it, where there is room.
  push_one :
      (r : Ring A) (v : A)
      → IsRing r
      → 0 < room r
      → IsRing (publish (write_slot r 0 v) 1)
        × (contents (publish (write_slot r 0 v) 1) ≡ contents r ++ (v ∷ []))
  unfolding write_slot
  push_one r v i h =
      let r2 = write_slot r 0 v in
      let i2 : IsRing r2 = act-IsRing r (fill 0 v) i h in
      let c2 : contents r ≡ contents r2 =
        sym (append-nil (contents r)) ∙ act-contents r (fill 0 v) i h in
      let e : r.head + 0 ≡ r.head = omega arith in
      let t : (index r.capacity (r.head + 0) == index r.capacity r.head) ≡ true =
        rw e (ground arith) in
      let self : r2.slots (index r.capacity r.head) ≡ v = rw t refl in
      let some_room : 1 ≤ room r2 = h in
      (
        act-IsRing r2 (send 1) i2 some_room,
        sym (act-contents r2 (send 1) i2 some_room)
            ∙ ap (λ x. contents r2 ++ (x ∷ [])) self
            ∙ ap (λ w. w ++ (v ∷ [])) (sym c2),
      )

  -- On a well-formed ring `push` appends the message and says so, or the ring is really full and
  -- its contents stay, whatever the producer knew of the consumer.
  pub push_lem : (r : Ring A) (v : A) → IsRing r → Pushed r v (push r v)
  unfolding push
  push_lem r v i =
      let (a, f) = writable_answer r i in
      let r1 = (writable r).0 in
      let i1 : IsRing r1 = act-IsRing r ask_room i tt in
      let c1 : contents r ≡ contents r1 =
        sym (append-nil (contents r)) ∙ act-contents r ask_room i tt in
      elim (Bool-cases ((writable r).1 == 0)) [
        | inl t ↦ rw t (i1, ap not (sym t ∙ f), sym c1)
        | inr t ↦
            let some_room : 0 < room r1 = ground arith in
            let (i3, c3) = push_one r1 v i1 some_room in
            rw t (i3, ap not (sym t ∙ f), c3 ∙ ap (λ w. w ++ (v ∷ [])) (sym c1))
      ]

  abbrev pub Popped : Ring A → Ring A × Option A → Type ℓ
  Popped r (r', none) = IsRing r' × (is_empty r ≡ true) × (contents r' ≡ contents r)
  Popped r (r', some v) = IsRing r' × (is_empty r ≡ false) × (contents r ≡ v ∷ contents r')

  -- On a well-formed ring `pop` takes the oldest message, or the ring is really empty and stays so.
  pub pop_lem : (r : Ring A) → IsRing r → Popped r (pop r)
  unfolding pop read_slot
  pop_lem r i =
      let (a, f) = readable_answer r i in
      let r1 = (readable r).0 in
      let i1 : IsRing r1 = act-IsRing r ask_ready i tt in
      let c1 : contents r ≡ contents r1 =
        sym (append-nil (contents r)) ∙ act-contents r ask_ready i tt in
      elim (Bool-cases ((readable r).1 == 0)) [
        | inl t ↦ rw t (i1, sym f ∙ t, sym c1)
        | inr t ↦
            let some_ready : 1 ≤ ready r1 = ground arith in
            let e : r1.tail + 0 ≡ r1.tail = omega arith in
            rw t (
              act-IsRing r1 (receive 1) i1 some_ready,
              sym f ∙ t,
              c1
                  ∙ sym (append-nil (contents r1))
                  ∙ act-contents r1 (receive 1) i1 some_ready
                  ∙ ap (λ k. r1.slots (index r1.capacity k) ∷ contents (consume r1 1)) (sym e),
            )
      ]
