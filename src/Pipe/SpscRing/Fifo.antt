-- ===== src/Pipe/SpscRing/Fifo.antt =====
-- The ring is a bounded first-in first-out queue, however the two threads interleave.
use itchbook.Base.{
  ℕ, zero, suc, ◌+◌, ◌-◌, ◌^◌, ◌≤◌, ◌<◌, ◌≡◌, refl, sym, ap, subst, ◌∙◌, ◌≢◌, ◌⊎◌, inl, inr, false,
  List, [], ◌∷◌, ◌++◌, arith, ◌==◌, Bool-cases,
}
use mathlib.Core.List.{append_assoc, append-nil}
use itchbook.Pipe.SpscRing.{
  Ring, index, write_at, room, ready, see_tail, see_head, writable, writable_exact, write_slot,
  publish, readable, consume, size,
}
use itchbook.Pipe.SpscRing.Index.{index_apart}
use itchbook.Pipe.SpscRing.Actions.{
  Action, ask_room, ask_exact, fill, send, ask_ready, receive, act, Allowed, window, sent_by,
  received_by, run, AllAllowed, sent, received, contents,
}

module _ {ℓ} {A : Type ℓ} where
  -- The stale copies are behind the counts, and the counts are at most a lap apart.
  pub record IsRing (r : Ring A) : Type 0 where
    pub power : (k : ℕ) × (r.capacity ≡ 2 ^ k)
    pub behind_tail : r.cached_tail ≤ r.tail
    pub read_on : r.tail ≤ r.cached_head
    pub behind_head : r.cached_head ≤ r.head
    pub lap : r.head ≤ r.cached_tail + r.capacity

  window-append :
      (s : ℕ → A) (c i m n : ℕ) → window s c i (m + n) ≡ window s c i m ++ window s c (i + m) n
  window-append s c i zero n =
      ap (λ k. window s c i k) (omega arith) ∙ ap (λ k. window s c k n) (omega arith)
  window-append s c i (suc m) n =
      let e : suc m + n ≡ suc (m + n) = omega arith in
      let f : i + 1 + m ≡ i + suc m = omega arith in
      ap (λ k. window s c i k) e
      ∙ ap (λ w. s (index c i) ∷ w)
          (window-append s c (i + 1) m n ∙ ap (λ k. window s c (i + 1) m ++ window s c k n) f)

  -- A write a little further on, but within the lap, leaves the slots as they are.
  window-write :
      (s : ℕ → A) (c i n j : ℕ) (v : A)
      → (k : ℕ) × (c ≡ 2 ^ k)
      → i + n ≤ j
      → j < i + c
      → window (write_at s (index c j) v) c i n ≡ window s c i n
  window-write s c i zero j v p a b = refl
  window-write s c i (suc n) j v p a b =
      let ne : index c i ≢ index c j = index_apart c i j p (omega arith) b in
      let t : (index c j == index c i) ≡ false = ground arith in
      rw t
        (ap (λ w. s (index c i) ∷ w) (window-write s c (i + 1) n j v p (omega arith) (omega arith)))

  -- Asking looks at the other thread's count, or goes by the stale copy.
  writable_cases : (r : Ring A) → ((writable r).0 ≡ see_tail r) ⊎ ((writable r).0 ≡ r)
  unfolding writable
  writable_cases r = elim (Bool-cases (room r == 0)) [
    | inl t ↦ inl (rw (t, writable) refl)
    | inr t ↦ inr (rw (t, writable) refl)
  ]

  readable_cases : (r : Ring A) → ((readable r).0 ≡ see_head r) ⊎ ((readable r).0 ≡ r)
  unfolding readable
  readable_cases r = elim (Bool-cases (ready r == 0)) [
    | inl t ↦ inl (rw (t, readable) refl)
    | inr t ↦ inr (rw (t, readable) refl)
  ]

  see_tail-IsRing : (r : Ring A) → IsRing r → IsRing (see_tail r)
  see_tail-IsRing r v = record {
    power = v.power;
    behind_tail = omega arith;
    read_on = v.read_on;
    behind_head = v.behind_head;
    lap = let a = v.behind_tail in let b = v.lap in omega arith;
  }

  see_head-IsRing : (r : Ring A) → IsRing r → IsRing (see_head r)
  see_head-IsRing r v = record {
    power = v.power;
    behind_tail = v.behind_tail;
    read_on = let a = v.read_on in let b = v.behind_head in omega arith;
    behind_head = omega arith;
    lap = v.lap;
  }

  pub act-IsRing : (r : Ring A) (a : Action A) → IsRing r → Allowed r a → IsRing (act r a)
  unfolding writable_exact write_slot publish consume
  act-IsRing r ask_room v h = elim (writable_cases r) [
    | inl e ↦ subst IsRing (sym e) (see_tail-IsRing r v)
    | inr e ↦ subst IsRing (sym e) v
  ]
  act-IsRing r ask_exact v h = see_tail-IsRing r v
  act-IsRing r (fill n x) v h = record {
    power = v.power;
    behind_tail = v.behind_tail;
    read_on = v.read_on;
    behind_head = v.behind_head;
    lap = v.lap;
  }
  act-IsRing r (send n) v h = record {
    power = v.power;
    behind_tail = v.behind_tail;
    read_on = v.read_on;
    behind_head = let a = v.behind_head in omega arith;
    lap =
        let a = v.behind_tail in
        let b = v.lap in let c = v.read_on in let d = v.behind_head in omega arith;
  }
  act-IsRing r ask_ready v h = elim (readable_cases r) [
    | inl e ↦ subst IsRing (sym e) (see_head-IsRing r v)
    | inr e ↦ subst IsRing (sym e) v
  ]
  act-IsRing r (receive n) v h = record {
    power = v.power;
    behind_tail = let a = v.behind_tail in omega arith;
    read_on = let a = v.read_on in omega arith;
    behind_head = v.behind_head;
    lap = v.lap;
  }

  -- One action: what was in the ring and what is sent is what is received and what stays.
  pub act-contents :
      (r : Ring A) (a : Action A)
      → IsRing r
      → Allowed r a
      → contents r ++ sent_by r a ≡ received_by r a ++ contents (act r a)
  unfolding writable_exact write_slot publish consume
  act-contents r ask_room v h = elim (writable_cases r) [
    | inl e ↦ append-nil (contents r) ∙ sym (ap contents e)
    | inr e ↦ append-nil (contents r) ∙ sym (ap contents e)
  ]
  act-contents r ask_exact v h = append-nil (contents r)
  act-contents r (fill n x) v h =
      let a = v.behind_tail in
      let b = v.lap in
      let c = v.read_on in
      let d = v.behind_head in
      append-nil (contents r)
      ∙ sym (
          window-write r.slots r.capacity r.tail (r.head - r.tail) (r.head + n) x v.power
            (omega arith) (omega arith))
  act-contents r (send n) v h =
      let c = v.read_on in
      let d = v.behind_head in
      let e : r.tail + (r.head - r.tail) ≡ r.head = omega arith in
      let f : r.head - r.tail + n ≡ r.head + n - r.tail = omega arith in
      ap (λ k. contents r ++ window r.slots r.capacity k n) (sym e)
      ∙ sym (window-append r.slots r.capacity r.tail (r.head - r.tail) n)
      ∙ ap (λ k. window r.slots r.capacity r.tail k) f
  act-contents r ask_ready v h = elim (readable_cases r) [
    | inl e ↦ append-nil (contents r) ∙ sym (ap contents e)
    | inr e ↦ append-nil (contents r) ∙ sym (ap contents e)
  ]
  act-contents r (receive n) v h =
      let c = v.read_on in
      let d = v.behind_head in
      let e : r.head - r.tail ≡ n + (r.head - (r.tail + n)) = omega arith in
      append-nil (contents r)
      ∙ ap (λ k. window r.slots r.capacity r.tail k) e
      ∙ window-append r.slots r.capacity r.tail n (r.head - (r.tail + n))

  pub run-IsRing :
      (r : Ring A) (todo : List (Action A)) → IsRing r → AllAllowed r todo → IsRing (run r todo)
  run-IsRing r [] v h = v
  run-IsRing r (a ∷ todo) v (h, hs) = run-IsRing (act r a) todo (act-IsRing r a v h) hs

  run-contents :
      (r : Ring A) (todo : List (Action A))
      → IsRing r
      → AllAllowed r todo
      → contents r ++ sent r todo ≡ received r todo ++ contents (run r todo)
  run-contents r [] v h = append-nil (contents r)
  run-contents r (a ∷ todo) v (h, hs) =
      sym (append_assoc (contents r) (sent_by r a) (sent (act r a) todo))
      ∙ ap (λ w. w ++ sent (act r a) todo) (act-contents r a v h)
      ∙ append_assoc (received_by r a) (contents (act r a)) (sent (act r a) todo)
      ∙ ap (λ w. received_by r a ++ w) (run-contents (act r a) todo (act-IsRing r a v h) hs)
      ∙ sym
          (append_assoc (received_by r a) (received (act r a) todo) (contents (run (act r a) todo)))

  size_bound : (r : Ring A) → IsRing r → size r ≤ r.capacity
  unfolding size
  size_bound r v = let a = v.behind_tail in let b = v.lap in omega arith

  -- In any interleaving of the two threads from a well-formed ring, if each goes by what it was
  -- last told, the consumer receives exactly what was in the ring and then what was sent, in that
  -- order, up to what is still in the ring, and the ring never holds more than its capacity.
  pub run_lem :
      (r : Ring A) (todo : List (Action A))
      → IsRing r
      → AllAllowed r todo
      → IsRing (run r todo)
        × (contents r ++ sent r todo ≡ received r todo ++ contents (run r todo))
        × (size (run r todo) ≤ (run r todo).capacity)
  run_lem r todo v h =
      let w = run-IsRing r todo v h in (w, run-contents r todo v h, size_bound (run r todo) w)
