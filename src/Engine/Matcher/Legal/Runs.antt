-- ===== src/Engine/Matcher/Legal/Runs.antt =====
-- The moves of stops that fire, and of every operation and run, are legal.
use itchbook.Base.{
  ℕ, zero, suc, ◌+◌, ◌<◌, ◌≡◌, refl, sym, ap, subst, inl, inr, Bool, true, false, not, ◌||◌, Option,
  none, some, List, [], ◌∷◌, arith, ◌==◌, Bool-cases, length,
}
use itchbook.Engine.OrderTypes.{
  OrderType, fresh, accepted, is_terminal, is_stop, legal_transition, Reject, no_reject,
  zero_quantity, invalid_price, display_too_large, fok_unfillable, no_liquidity, duplicate_id,
  unknown_order, Request, Result, no_result,
}
use itchbook.Engine.Matcher.{
  BookOps, Meta, new_meta, Matcher, lookup, emplace, change, validate, effective_type,
  stop_is_triggered, make_matcher,
}
use itchbook.Engine.Matcher.Orders.{smaller}
use itchbook.Engine.Matcher.Run.{
  current, run_with, elect, unpark, fired, fire_from, fire_stops, pump_stops,
}
use itchbook.Engine.Matcher.Submit.{
  turn_away, park, admit, judged, submit, cancel, fill_by, absent, apply_external_fill,
}
use itchbook.Engine.Matcher.Sound.{is_early, BookLaws, member, Quiet}
use itchbook.Engine.Matcher.Sound.Lists.{lookup-update, lookup-unknown}
use itchbook.Engine.Matcher.Sound.Fills.{entry_at, sold}
use itchbook.Engine.Matcher.Sound.Stops.{
  Named, Elected, elect-Elected, unpark-Quiet, unpark-lookup, kept_out, fire_from-Quiet,
}
use itchbook.Engine.Matcher.Sound.Entry.{run_with-Quiet}
use itchbook.Engine.Matcher.Sound.Operations.{
  Fresh, lookup-emplace, unknown-member, emplace-Quiet, validate-fresh,
}
use itchbook.Engine.Matcher.Sound.Runs.{
  Op, order, withdraw, outside_fill, pump, others, step, run, Allowed, AllAllowed, step-Quiet,
  make_matcher-Quiet,
}
use itchbook.Engine.Matcher.Legal.{
  Steady, transition-Steady, cancel_meta-Steady, settle_maker-Steady,
}
use itchbook.Engine.Matcher.Legal.Entry.{run_with-Steady}

module _ {B : Type 0} {ops : BookOps B} (laws : BookLaws ops) where
  unpark-Steady :
      (m : Meta) (kept : List ℕ) (k : Matcher B) → Steady laws k → Steady laws (unpark ops m kept k)
  unfolding unpark change
  unpark-Steady m kept k a = a

  fired-Steady :
      (next : Matcher B → Matcher B × Bool) (k : Matcher B) (e : Option Meta) (kept : List ℕ)
      → Elected k.orders k.pending_stops kept e
      → Quiet laws k
      → Steady laws k
      → ((k' : Matcher B) → Quiet laws k' → Quiet laws (next k').0)
      → ((k' : Matcher B) → Quiet laws k' → Steady laws k' → Steady laws (next k').0)
      → Steady laws (fired ops next k e kept).0
  unfolding fired
  fired-Steady next k none kept v s a f g = a
  fired-Steady next k (some m) kept v s a f g =
      let (at, (alive, (c, d))) = v.chosen in
      let k1 = unpark ops m kept k in
      let m1 = record m { sequence = k.seq + 1 } in
      let r = record no_result { first_fill = length k.fills } in
      let type = effective_type m.req.type in
      let w = unpark-lookup laws m kept k at in
      let q = entry_at laws 0 0 m.req.id m k s at in
      let n : m.entered ≡ false = ground (arith, q.waits c) in
      let y : is_early m.state ≡ true = ground (arith, q.waits c) in
      let o : member m.req.id k1.pending_stops ≡ false = kept_out laws m kept k d in
      let s1 = unpark-Quiet laws m kept k v s in
      let a1 = unpark-Steady m kept k a in
      subst (λ l. Steady laws (next (run_with ops next type (current l m) r k1).0).0) (sym w)
        (g _ (run_with-Quiet laws next type m1 r k1 f s1 w n y o)
          (run_with-Steady laws next type m1 r k1 g s1 a1 w n y o))

  fire_from-Steady :
      (n : ℕ) (k : Matcher B) → Quiet laws k → Steady laws k → Steady laws (fire_from ops n k).0
  unfolding fire_from
  fire_from-Steady zero k s a = a
  fire_from-Steady (suc n) k s a =
      let named : Named k.orders = λ i m e. (entry_at laws 0 0 i m k s e).named in
      fired-Steady (fire_from ops n) k (elect ops k k.pending_stops).0
        (elect ops k k.pending_stops).1 (elect-Elected laws k k.pending_stops named s.parked) s a
        (fire_from-Quiet laws n) (fire_from-Steady n)

  fire_stops-Steady :
      (k : Matcher B) → Quiet laws k → Steady laws k → Steady laws (fire_stops ops k).0
  unfolding fire_stops
  fire_stops-Steady k s a = fire_from-Steady (length k.pending_stops) k s a

  park-Steady :
      (req : Request) (r : Result) (m : Meta) (k : Matcher B)
      → Steady laws k
      → lookup req.id k.orders ≡ some m
      → m.state ≡ fresh
      → Steady laws (park ops req r k).0
  unfolding park change
  park-Steady req r m k a e y =
      transition-Steady laws req.id accepted m k a e (ap (λ s. legal_transition s accepted) y)

  admit-Steady :
      (req : Request) (r : Result) (k : Matcher B)
      → Quiet laws k
      → Steady laws k
      → Fresh laws req k
      → lookup req.id k.orders ≡ none
      → Steady laws (admit ops req r k).0
  unfolding admit
  admit-Steady req r k s a f e =
      let m = record (new_meta req) { sequence = k.seq + 1 } in
      let k' : Matcher B = record k { orders = emplace req.id m k.orders; seq = k.seq + 1 } in
      let s' : Quiet laws k' =
        emplace-Quiet laws m k s f.size (f.apart e) refl refl (inl (refl, refl)) in
      let e' = lookup-emplace req.id m k.orders e in
      let out =
        unknown-member req.id k.orders k.pending_stops s.parked
          (lookup-unknown req.id k.orders e) in
      let ran : (type : OrderType) → Steady laws (run_with ops (fire_stops ops) type m r k').0 =
        λ type.
          run_with-Steady laws (fire_stops ops) type m r k' fire_stops-Steady s' a e' refl refl
            out in
      elim (Bool-cases (is_stop req.type)) [
        | inl t ↦ elim (Bool-cases (stop_is_triggered req k')) [
          | inl u ↦ rw (t, u) (ran (effective_type req.type))
          | inr u ↦ rw (t, u) (park-Steady req r m k' a e' refl)
        ]
        | inr t ↦ rw t (ran req.type)
      ]

  judged-Steady :
      (req : Request) (why : Reject) (r : Result) (k : Matcher B)
      → validate req k ≡ why
      → Fresh laws req k
      → Quiet laws k
      → Steady laws k
      → Steady laws (judged ops why req r k).0
  unfolding turn_away
  judged-Steady req no_reject r k e f s a = admit-Steady req r k s a f (validate-fresh laws req k e)
  judged-Steady req zero_quantity r k e f s a = a
  judged-Steady req invalid_price r k e f s a = a
  judged-Steady req display_too_large r k e f s a = a
  judged-Steady req fok_unfillable r k e f s a = a
  judged-Steady req no_liquidity r k e f s a = a
  judged-Steady req duplicate_id r k e f s a = a
  judged-Steady req unknown_order r k e f s a = a

  submit-Steady :
      (req : Request) (k : Matcher B)
      → Fresh laws req k
      → Quiet laws k
      → Steady laws k
      → Steady laws (submit ops req k).0
  unfolding submit
  submit-Steady req k f s a =
      judged-Steady req (validate req (record k { match_no = k.match_no + 1 }))
        (record no_result { first_fill = length k.fills }) (record k { match_no = k.match_no + 1 })
        refl (record { size = f.size; apart = f.apart }) s a

  cancel_step :
      (i : ℕ) (k : Matcher B) (l : Option Meta)
      → lookup i k.orders ≡ l
      → Steady laws k
      → Steady laws (cancel ops i k).0
  unfolding cancel
  cancel_step i k none e a = rw (cancel, e) a
  cancel_step i k (some m) e a = elim (Bool-cases (is_terminal m.state)) [
    | inl t ↦ rw (cancel, e, t) a
    | inr t ↦ rw (cancel, e, t) (cancel_meta-Steady laws i m k a e t)
  ]

  fill_by-Steady :
      (i qty price number : ℕ) (m : Meta) (k : Matcher B)
      → Quiet laws k
      → Steady laws k
      → lookup i k.orders ≡ some m
      → 0 < m.resting
      → Steady laws (fill_by ops i m qty price number k)
  unfolding fill_by change
  fill_by-Steady i qty price number m k s a e z =
      let q = entry_at laws 0 0 i m k s e in
      settle_maker-Steady laws i (sold laws qty m) _ a
        (lookup-update i (sold laws qty) k.orders m e) (q.live (omega arith))

  external_step :
      (i shares price number : ℕ) (k : Matcher B) (l : Option Meta)
      → lookup i k.orders ≡ l
      → Quiet laws k
      → Steady laws k
      → Steady laws (apply_external_fill ops i shares price number k).0
  unfolding apply_external_fill
  external_step i shares price number k none e s a = rw (apply_external_fill, e) a
  external_step i shares price number k (some m) e s a =
      elim (Bool-cases (
        shares == 0
        || (not m.entered
            || (is_terminal m.state
                || (not m.in_book || (m.resting == 0 || absent ops (ops.find i k.book))))))) [
                  | inl t ↦ rw (apply_external_fill, e, t) a
                  | inr t ↦
                      rw (apply_external_fill, e, t)
                        (fill_by-Steady i (smaller shares m.resting) price number m k s a e
                          (ground arith))
                ]

  step-Steady :
      (o : Op B) (k : Matcher B)
      → Allowed laws o k
      → Quiet laws k
      → Steady laws k
      → Steady laws (step laws o k)
  unfolding pump_stops
  step-Steady (order req) k f s a = submit-Steady req k f s a
  step-Steady (withdraw i) k f s a = cancel_step i k (lookup i k.orders) refl a
  step-Steady (outside_fill i shares price number) k f s a =
      external_step i shares price number k (lookup i k.orders) refl s a
  step-Steady pump k f s a = fire_stops-Steady k s a
  step-Steady (others b) k f s a = a

  run-Steady :
      (os : List (Op B)) (k : Matcher B)
      → AllAllowed laws os k
      → Quiet laws k
      → Steady laws k
      → Steady laws (run laws os k)
  run-Steady [] k f s a = a
  run-Steady (o ∷ os) k (f, fs) s a =
      run-Steady os (step laws o k) fs (step-Quiet laws o k f s) (step-Steady o k f s a)

  -- In any run of submissions, cancellations, outside fills and fired stops from a new engine on a
  -- book that keeps the laws of its interface, if each request has a quantity below 2^32 and an id
  -- of which the book holds nothing, and others leave the shares of the engine's orders, every move
  -- of the state of an order is legal: no assertion fails.
  pub run-aborted :
      (b : B) (os : List (Op B))
      → AllAllowed laws os (make_matcher b)
      → (run laws os (make_matcher b)).aborted ≡ false
  unfolding make_matcher
  run-aborted b os f = run-Steady os (make_matcher b) f (make_matcher-Quiet laws b) refl
