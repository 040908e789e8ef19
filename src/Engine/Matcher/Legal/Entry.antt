-- ===== src/Engine/Matcher/Legal/Entry.antt =====
-- The moves of an order that runs, and of the stops that fire, are legal.
use itchbook.Base.{
  ℕ, ◌≡◌, refl, sym, subst, inl, inr, Bool, true, false, not, ◌&&◌, some, arith, ltb, if◌then◌else◌,
  Bool-cases,
}
use itchbook.Engine.OrderTypes.{
  OrderType, State, fresh, accepted, partially_filled, filled, cancelled, rejected,
  legal_transition, can_rest, Result, Reject, fok_unfillable, no_liquidity,
}
use itchbook.Engine.Matcher.{BookOps, Meta, Matcher, lookup, change}
use itchbook.Engine.Matcher.Orders.{Loop, rest, match}
use itchbook.Engine.Matcher.Run.{
  current, is_fresh, is_fok, is_market, same_state, has_liquidity, available, refuse, resting_state,
  come_to_rest, drop_rest, conclude, enter, trade, run_with,
}
use itchbook.Engine.Matcher.Sound.{is_early, BookLaws, member, Quiet}
use itchbook.Engine.Matcher.Sound.Lists.{lookup-update, known-lookup}
use itchbook.Engine.Matcher.Sound.Loop.{Flying, match-Flying}
use itchbook.Engine.Matcher.Sound.Entry.{enter-Good, conclude-Good, land, taker_at}
use itchbook.Engine.Matcher.Legal.{Steady, transition-Steady}
use itchbook.Engine.Matcher.Legal.Loop.{match-Steady}

module _ {B : Type 0} {ops : BookOps B} (laws : BookLaws ops) where
  refuse-Steady :
      (m : Meta) (why : Reject) (r : Result) (k : Matcher B)
      → Steady laws k
      → lookup m.req.id k.orders ≡ some m
      → is_early m.state ≡ true
      → Steady laws (refuse ops m why r k).0
  unfolding refuse
  refuse-Steady m why r k a e y =
      transition-Steady laws m.req.id (if is_fresh m.state then rejected else cancelled) m k a e
        (refusing m.state y)
    where
      refusing :
          (s : State)
          → is_early s ≡ true
          → legal_transition s (if is_fresh s then rejected else cancelled) ≡ true
      refusing fresh h = refl
      refusing accepted h = refl
      refusing partially_filled h = absurd (ground arith)
      refusing filled h = absurd (ground arith)
      refusing cancelled h = absurd (ground arith)
      refusing rejected h = absurd (ground arith)

  may_end :
      (s : State)
      → is_early s ≡ true
      → (legal_transition s filled ≡ true) × (legal_transition s cancelled ≡ true)
  may_end fresh h = (refl, refl)
  may_end accepted h = (refl, refl)
  may_end partially_filled h = absurd (ground arith)
  may_end filled h = absurd (ground arith)
  may_end cancelled h = absurd (ground arith)
  may_end rejected h = absurd (ground arith)

  may_rest :
      (s : State) (some_filled : Bool)
      → is_early s ≡ true
      → same_state s (if some_filled then partially_filled else accepted) ≡ false
      → legal_transition s (if some_filled then partially_filled else accepted) ≡ true
  may_rest fresh true h n = refl
  may_rest fresh false h n = refl
  may_rest accepted true h n = refl
  may_rest accepted false h n = absurd (ground arith)
  may_rest partially_filled b h n = absurd (ground arith)
  may_rest filled b h n = absurd (ground arith)
  may_rest cancelled b h n = absurd (ground arith)
  may_rest rejected b h n = absurd (ground arith)

  come_to_rest-Steady :
      (m : Meta) (r : ℕ) (k : Matcher B)
      → Steady laws k
      → lookup m.req.id k.orders ≡ some m
      → is_early m.state ≡ true
      → Steady laws (come_to_rest ops m r k)
  unfolding come_to_rest rest change
  come_to_rest-Steady m r k a e y = elim (Bool-cases (same_state m.state (resting_state ops m))) [
    | inl u ↦ rw u a
    | inr u ↦ rw u (
        transition-Steady laws m.req.id (resting_state ops m) _ _ a
          (lookup-update m.req.id _ k.orders m e) (may_rest m.state (ltb 0 m.filled_shares) y u))
  ]

  drop_rest-Steady :
      (m : Meta) (r : ℕ) (k : Matcher B)
      → Steady laws k
      → lookup m.req.id k.orders ≡ some m
      → is_early m.state ≡ true
      → Steady laws (drop_rest ops m r k)
  unfolding drop_rest change
  drop_rest-Steady m r k a e y =
      transition-Steady laws m.req.id cancelled _ _ a (lookup-update m.req.id _ k.orders m e)
        (may_end m.state y).1

  conclude-Steady :
      (type : OrderType) (m : Meta) (l : Loop B)
      → Steady laws l.engine
      → lookup m.req.id l.engine.orders ≡ some m
      → is_early m.state ≡ true
      → Steady laws (conclude ops type m l)
  unfolding conclude
  conclude-Steady type m l a e y =
      elim (Bool-cases (ltb 0 l.remaining && (can_rest type && not l.stp_killed))) [
        | inl u ↦ rw u (come_to_rest-Steady m l.remaining l.engine a e y)
        | inr u ↦ elim (Bool-cases (ltb 0 l.remaining)) [
          | inl v ↦ rw (u, v) (drop_rest-Steady m l.remaining l.engine a e y)
          | inr v ↦
              rw (u, v)
                (transition-Steady laws m.req.id filled m l.engine a e (may_end m.state y).0)
        ]
      ]

  enter-Steady : (m : Meta) (k : Matcher B) → Steady laws k → Steady laws (enter ops m k)
  unfolding enter change
  enter-Steady m k a = a

  pub run_with-Steady :
      (fire : Matcher B → Matcher B × Bool) (type : OrderType) (m : Meta) (r : Result)
      (k : Matcher B)
      → ((k' : Matcher B) → Quiet laws k' → Steady laws k' → Steady laws (fire k').0)
      → Quiet laws k
      → Steady laws k
      → lookup m.req.id k.orders ≡ some m
      → m.entered ≡ false
      → is_early m.state ≡ true
      → member m.req.id k.pending_stops ≡ false
      → Steady laws (run_with ops fire type m r k).0
  unfolding run_with trade
  run_with-Steady fire type m r k f s a e n y p =
      let t = m.req.id in
      let s1 = enter-Good laws m k s e n y p in
      let l = match ops m.req type (enter ops m k) m.req.quantity in
      let g : Flying laws t l = match-Flying laws m.req type m.req.quantity (enter ops m k) s1 in
      let b = match-Steady laws m.req type m.req.quantity (enter ops m k) s1 (enter-Steady m k a) in
      let m' = current (lookup t l.engine.orders) m in
      let e' = known-lookup t l.engine.orders m (g.there (omega arith)) in
      let q = taker_at laws t l.remaining m' l.engine g e' in
      let y' : is_early m'.state ≡ true = q.early (omega arith) in
      let e2 : lookup m'.req.id l.engine.orders ≡ some m' =
        subst (λ x. lookup x l.engine.orders ≡ some m') (sym q.named) e' in
      elim (Bool-cases (is_fok type && ltb (available ops m.req type k) m.req.quantity)) [
        | inl u ↦ rw u (refuse-Steady m fok_unfillable r k a e y)
        | inr u ↦ elim (Bool-cases (is_market type && not (has_liquidity ops m.req k))) [
          | inl v ↦ rw (u, v) (refuse-Steady m no_liquidity r k a e y)
          | inr v ↦
              rw (u, v)
                (f (conclude ops type m' l)
                  (land laws t 0 _ _ _ (conclude-Good laws t type m' l g e'))
                  (conclude-Steady type m' l b e2 y'))
        ]
      ]
