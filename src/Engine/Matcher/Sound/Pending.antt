-- ===== src/Engine/Matcher/Sound/Pending.antt =====
-- The rounds of `fire_stops` do not run out: each takes one parked stop, and none is parked meanwhile.
use itchbook.Base.{
  ℕ, zero, suc, ◌+◌, ◌*◌, ◌≤◌, ◌≡◌, refl, sym, ap, ◌∙◌, inl, inr, Bool, true, false, not, ◌&&◌,
  Option, none, some, List, [], ◌∷◌, arith, ltb, ◌==◌, Bool-cases, length,
}
use itchbook.Engine.OrderTypes.{
  OrderType, Stp, no_prevention, cancel_newest, cancel_oldest, cancel_both, Request, Result,
  is_terminal, can_rest, no_result,
}
use itchbook.Engine.Matcher.{
  Resting, BookOps, Meta, Matcher, lookup, crosses, change, transition, effective_type,
  stop_is_triggered,
}
use itchbook.Engine.Matcher.Orders.{
  Loop, erase_first, smaller, leave_book, cancel_meta, refresh_iceberg, settle_maker, rest,
  fill_inside, fill_outside, prevents, prevent, against, facing, round, match_from, match,
}
use itchbook.Engine.Matcher.Run.{
  current, is_fok, is_market, same_state, has_liquidity, available, refuse, resting_state,
  come_to_rest, drop_rest, conclude, enter, trade, run_with, elect, unpark, fired, fire_from,
  fire_stops,
}

length-erase_first : (i : ℕ) (is : List ℕ) → length (erase_first i is) ≤ length is
unfolding erase_first
length-erase_first i [] = omega arith
length-erase_first i (x ∷ is) = elim (Bool-cases (x == i)) [
  | inl t ↦ rw t (omega arith)
  | inr t ↦ rw t (omega (arith, length-erase_first i is))
]

module _ {B : Type 0} (ops : BookOps B) where
  abbrev parked : Matcher B → ℕ
  parked k = length k.pending_stops

  settle_parked :
      (i : ℕ) (k : Matcher B) (l : Option Meta)
      → lookup i k.orders ≡ l
      → parked (settle_maker ops i k) ≡ parked k
  unfolding settle_maker refresh_iceberg transition change
  settle_parked i k none e = rw (settle_maker, e) refl
  settle_parked i k (some m) e = elim (Bool-cases (m.resting == 0)) [
    | inl u ↦ elim (Bool-cases (ltb 0 m.hidden)) [
      | inl v ↦ rw (settle_maker, e, u, v) refl
      | inr v ↦ rw (settle_maker, e, u, v) refl
    ]
    | inr u ↦ rw (settle_maker, e, u) refl
  ]

  fill_inside_parked :
      (req : Request) (m : Meta) (front : Resting) (qty : ℕ) (k : Matcher B)
      → parked (fill_inside ops req m front qty k) ≡ parked k
  unfolding fill_inside change
  fill_inside_parked req m front qty k = settle_parked front.ref _ _ refl

  cancel_meta_parked :
      (i : ℕ) (m : Meta) (k : Matcher B) → parked (cancel_meta ops i m k) ≤ parked k
  unfolding cancel_meta leave_book transition change
  cancel_meta_parked i m k = elim (Bool-cases m.in_book) [
    | inl u ↦ rw u (length-erase_first m.req.id k.pending_stops)
    | inr u ↦ rw u (length-erase_first m.req.id k.pending_stops)
  ]

  prevent_parked :
      (stp : Stp) (front : Resting) (m : Meta) (k : Matcher B) (r : ℕ)
      → parked (prevent ops stp front m k r).engine ≤ parked k
  unfolding prevent
  prevent_parked no_prevention front m k r = omega arith
  prevent_parked cancel_newest front m k r = omega arith
  prevent_parked cancel_oldest front m k r = cancel_meta_parked front.ref m k
  prevent_parked cancel_both front m k r = cancel_meta_parked front.ref m k

  against_parked :
      (req : Request) (front : Resting) (l : Option Meta) (k : Matcher B) (r : ℕ)
      → parked (against ops req front l k r).engine ≤ parked k
  unfolding against fill_outside change
  against_parked req front none k r = omega arith
  against_parked req front (some m) k r =
      elim (Bool-cases (prevents ops req.stp && m.req.owner == req.owner)) [
        | inl t ↦ rw t (prevent_parked req.stp front m k r)
        | inr t ↦
            rw t (
              let e = fill_inside_parked req m front (smaller r front.shares) k in omega (arith, e))
      ]

  facing_parked :
      (req : Request) (type : OrderType) (o : Option Resting) (k : Matcher B) (r : ℕ)
      → parked (facing ops req type o k r).engine ≤ parked k
  facing_parked req type none k r = omega arith
  facing_parked req type (some front) k r = elim (Bool-cases (crosses req type front.price)) [
    | inl t ↦ rw t (against_parked req front (lookup front.ref k.orders) k r)
    | inr t ↦ rw t (omega arith)
  ]

  round_parked :
      (req : Request) (type : OrderType) (k : Matcher B) (r : ℕ)
      → parked (round ops req type k r).engine ≤ parked k
  unfolding round
  round_parked req type k r = elim (Bool-cases (r == 0)) [
    | inl t ↦ rw t (omega arith)
    | inr t ↦ rw t (facing_parked req type _ k r)
  ]

  match_from_parked :
      (n : ℕ) (req : Request) (type : OrderType) (k : Matcher B) (r : ℕ)
      → parked (match_from ops n req type k r).engine ≤ parked k
  unfolding match_from
  match_from_parked zero req type k r = omega arith
  match_from_parked (suc n) req type k r =
      let l = round ops req type k r in
      let b = round_parked req type k r in
      elim (Bool-cases l.again) [
        | inl t ↦
            rw t (let a = match_from_parked n req type l.engine l.remaining in omega (arith, a, b))
        | inr t ↦ rw t b
      ]

  match_parked :
      (req : Request) (type : OrderType) (k : Matcher B) (r : ℕ)
      → parked (match ops req type k r).engine ≤ parked k
  unfolding match
  match_parked req type k r = match_from_parked (2 * r + ops.held k.book + 1) req type k r

  conclude_parked :
      (type : OrderType) (m : Meta) (l : Loop B) → parked (conclude ops type m l) ≡ parked l.engine
  unfolding conclude come_to_rest rest drop_rest transition change
  conclude_parked type m l =
      elim (Bool-cases (ltb 0 l.remaining && (can_rest type && not l.stp_killed))) [
        | inl u ↦ elim (Bool-cases (same_state m.state (resting_state ops m))) [
          | inl v ↦ rw (u, v) refl
          | inr v ↦ rw (u, v) refl
        ]
        | inr u ↦ elim (Bool-cases (ltb 0 l.remaining)) [
          | inl v ↦ rw (u, v) refl
          | inr v ↦ rw (u, v) refl
        ]
      ]

  -- The order that runs comes to its end with no more stops parked than before.
  ran_parked :
      (type : OrderType) (m n : Meta) (k : Matcher B)
      → parked (conclude ops type n (trade ops type m k)) ≤ parked k
  unfolding trade enter change
  ran_parked type m n k =
      let a = conclude_parked type n (match ops m.req type (enter ops m k) m.req.quantity) in
      let b = match_parked m.req type (enter ops m k) m.req.quantity in omega (arith, a, b)

  run_with_parked :
      (fire : Matcher B → Matcher B × Bool) (type : OrderType) (m : Meta) (r : Result)
      (k : Matcher B)
      → ((k' : Matcher B) → parked (fire k').0 ≤ parked k')
      → parked (run_with ops fire type m r k).0 ≤ parked k
  unfolding run_with refuse transition change
  run_with_parked fire type m r k f =
      elim (Bool-cases (is_fok type && ltb (available ops m.req type k) m.req.quantity)) [
        | inl u ↦ rw u (omega arith)
        | inr u ↦ elim (Bool-cases (is_market type && not (has_liquidity ops m.req k))) [
          | inl v ↦ rw (u, v) (omega arith)
          | inr v ↦
              let n = current (lookup m.req.id (trade ops type m k).engine.orders) m in
              rw (u, v)
                (let a = f (conclude ops type n (trade ops type m k)) in
                  let b = ran_parked type m n k in omega (arith, a, b))
        ]
      ]

  -- The run depends on the stops that fire only at engines with no more stops parked.
  run_with_same :
      (f g : Matcher B → Matcher B × Bool) (type : OrderType) (m : Meta) (r : Result)
      (k : Matcher B)
      → ((k' : Matcher B) → parked k' ≤ parked k → f k' ≡ g k')
      → run_with ops f type m r k ≡ run_with ops g type m r k
  unfolding run_with
  run_with_same f g type m r k h =
      elim (Bool-cases (is_fok type && ltb (available ops m.req type k) m.req.quantity)) [
        | inl u ↦ rw u refl
        | inr u ↦ elim (Bool-cases (is_market type && not (has_liquidity ops m.req k))) [
          | inl v ↦ rw (u, v) refl
          | inr v ↦
              let n = current (lookup m.req.id (trade ops type m k).engine.orders) m in
              rw (u, v, h (conclude ops type n (trade ops type m k)) (ran_parked type m n k)) refl
        ]
      ]

  -- An election parks nothing, and takes out the stop that it elects.
  abbrev Took : List ℕ → Option Meta → List ℕ → Type 0
  Took is none kept = length kept ≤ length is
  Took is (some m) kept = suc (length kept) ≤ length is

  weaken : (i : ℕ) (is kept : List ℕ) (e : Option Meta) → Took is e kept → Took (i ∷ is) e kept
  weaken i is kept none h = omega arith
  weaken i is kept (some m) h = omega arith

  extend :
      (i : ℕ) (is kept : List ℕ) (e : Option Meta) → Took is e kept → Took (i ∷ is) e (i ∷ kept)
  extend i is kept none h = omega arith
  extend i is kept (some m) h = omega arith

  elect_step :
      (k : Matcher B) (i : ℕ) (is : List ℕ) (l : Option Meta)
      → lookup i k.orders ≡ l
      → Took is (elect ops k is).0 (elect ops k is).1
      → Took (i ∷ is) (elect ops k (i ∷ is)).0 (elect ops k (i ∷ is)).1
  unfolding elect
  elect_step k i is none e h = rw (elect, e) (weaken i is (elect ops k is).1 (elect ops k is).0 h)
  elect_step k i is (some m) e h = elim (Bool-cases (is_terminal m.state)) [
    | inl t ↦ rw (elect, e, t) (weaken i is (elect ops k is).1 (elect ops k is).0 h)
    | inr t ↦ elim (Bool-cases (stop_is_triggered m.req k)) [
      | inl u ↦ rw (elect, e, t, u) (omega arith)
      | inr u ↦ rw (elect, e, t, u) (extend i is (elect ops k is).1 (elect ops k is).0 h)
    ]
  ]

  elected_parked : (k : Matcher B) (is : List ℕ) → Took is (elect ops k is).0 (elect ops k is).1
  unfolding elect
  elected_parked k [] = omega arith
  elected_parked k (i ∷ is) = elect_step k i is (lookup i k.orders) refl (elected_parked k is)

  fired_parked :
      (next : Matcher B → Matcher B × Bool) (k : Matcher B) (e : Option Meta) (kept : List ℕ)
      → ((k' : Matcher B) → parked (next k').0 ≤ parked k')
      → Took k.pending_stops e kept
      → parked (fired ops next k e kept).0 ≤ parked k
  unfolding fired unpark change
  fired_parked next k none kept f h = h
  fired_parked next k (some m) kept f h =
      let k1 = unpark ops m kept k in
      let m1 = current (lookup m.req.id k1.orders) m in
      let r = record no_result { first_fill = length k.fills } in
      let a = f (run_with ops next (effective_type m.req.type) m1 r k1).0 in
      let b = run_with_parked next (effective_type m.req.type) m1 r k1 f in omega (arith, a, b, h)

  fire_from_parked : (n : ℕ) (k : Matcher B) → parked (fire_from ops n k).0 ≤ parked k
  unfolding fire_from
  fire_from_parked zero k = omega arith
  fire_from_parked (suc n) k =
      fired_parked (fire_from ops n) k _ _ (fire_from_parked n) (elected_parked k k.pending_stops)

  fired_same :
      (f g : Matcher B → Matcher B × Bool) (k : Matcher B) (e : Option Meta) (kept : List ℕ)
      → ((k' : Matcher B) → suc (parked k') ≤ parked k → f k' ≡ g k')
      → ((k' : Matcher B) → parked (g k').0 ≤ parked k')
      → Took k.pending_stops e kept
      → fired ops f k e kept ≡ fired ops g k e kept
  unfolding fired unpark change
  fired_same f g k none kept h b t = refl
  fired_same f g k (some m) kept h b t =
      let k1 = unpark ops m kept k in
      let m1 = current (lookup m.req.id k1.orders) m in
      let r = record no_result { first_fill = length k.fills } in
      let type = effective_type m.req.type in
      let same = run_with_same f g type m1 r k1 (λ k' l. h k' (omega arith)) in
      let fewer = run_with_parked g type m1 r k1 b in
      ap (λ x. ((f x.0).0, true)) same
      ∙ ap (λ x. (x.0, true)) (h (run_with ops g type m1 r k1).0 (omega (arith, fewer, t)))

  none_parked :
      (m : ℕ) (k : Matcher B) (is : List ℕ)
      → k.pending_stops ≡ is
      → length is ≤ 0
      → (k, false) ≡ fired ops (fire_from ops m) k (elect ops k is).0 (elect ops k is).1
  unfolding fired elect
  none_parked m k [] e h = ap (λ x. (record k { pending_stops = x }, false)) e
  none_parked m k (i ∷ is) e h = absurd (omega arith)

  rounds_same :
      (n m : ℕ) (k : Matcher B)
      → parked k ≤ n
      → parked k ≤ m
      → fire_from ops n k ≡ fire_from ops m k
  unfolding fire_from
  rounds_same zero zero k a b = refl
  rounds_same zero (suc m) k a b = none_parked m k k.pending_stops refl (omega arith)
  rounds_same (suc n) zero k a b = sym (none_parked n k k.pending_stops refl (omega arith))
  rounds_same (suc n) (suc m) k a b =
      fired_same (fire_from ops n) (fire_from ops m) k _ _
        (λ k' l. rounds_same n m k' (omega arith) (omega arith)) (fire_from_parked m)
        (elected_parked k k.pending_stops)

  -- `fire_stops` comes to the same with any more rounds than there are parked stops, whatever the
  -- book does, so it ends by its own test.
  pub fire_stops-ends :
      (n : ℕ) (k : Matcher B) → length k.pending_stops ≤ n → fire_from ops n k ≡ fire_stops ops k
  unfolding fire_stops
  fire_stops-ends n k h = rounds_same n (length k.pending_stops) k h (omega arith)
