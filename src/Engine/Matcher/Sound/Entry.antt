-- ===== src/Engine/Matcher/Sound/Entry.antt =====
-- An order that enters, is matched and comes to its end or to rest keeps an engine sound.
use itchbook.Base.{
  ℕ, suc, ◌+◌, ◌-◌, ◌≤◌, ◌≡◌, refl, sym, ap, subst, ◌∙◌, inl, inr, Bool, true, false, not, ◌&&◌,
  some, List, arith, ltb, ◌==◌, if◌then◌else◌, Bool-cases,
}
use itchbook.Base.Words.{add32}
use itchbook.Engine.OrderTypes.{
  OrderType, State, cancelled, rejected, filled, is_terminal, can_rest, Reject, Result, to_char,
  fok_unfillable, no_liquidity,
}
use itchbook.Engine.Matcher.{BookOps, Meta, Orders, Matcher, lookup, update, change, transition}
use itchbook.Engine.Matcher.Orders.{Loop, rest, match}
use itchbook.Engine.Matcher.Run.{
  current, is_fresh, is_fok, is_market, same_state, has_liquidity, available, refuse, resting_state,
  come_to_rest, drop_rest, conclude, enter, trade, run_with,
}
use itchbook.Engine.Matcher.Sound.{
  is_live, is_early, BookLaws, Sound, member, owing, IsSound, Good, Quiet,
}
use itchbook.Engine.Matcher.Sound.Lists.{known-lookup, lookup-is_known, owed-AllSound}
use itchbook.Engine.Matcher.Sound.Moves.{one_change, fused, transition-Good}
use itchbook.Engine.Matcher.Sound.Fills.{entry_at, owing_self}
use itchbook.Engine.Matcher.Sound.Loop.{Flying, match-Flying}

module _ {B : Type 0} {ops : BookOps B} (laws : BookLaws ops) where
  pub land :
      (t u : ℕ) (os : Orders) (b : B) (stops : List ℕ)
      → IsSound laws t 0 os b stops
      → IsSound laws u 0 os b stops
  land t u os b stops s = record {
    orders =
        owed-AllSound (λ i. laws.shares_of i b) (owing t 0) (owing u 0) (λ i. member i stops) os
          (λ j. ground arith) s.orders;
    parked = s.parked;
    there = λ z. absurd (omega arith);
    aloft = λ z. absurd (omega arith);
  }

  -- An order with nothing done to it is counted in, and is being matched from there on.
  pub enter-Good :
      (m : Meta) (k : Matcher B)
      → Quiet laws k
      → lookup m.req.id k.orders ≡ some m
      → m.entered ≡ false
      → is_early m.state ≡ true
      → member m.req.id k.pending_stops ≡ false
      → Good laws m.req.id (suc m.req.quantity) (enter ops m k)
  unfolding enter change
  enter-Good m k s e n y p =
      let t = m.req.id in
      let s' = land 0 t k.orders k.book k.pending_stops s in
      one_change laws t 0 (suc m.req.quantity) t (λ x. record x { entered = true }) k.orders k.book
        k.book k.pending_stops k.pending_stops s'
        (λ x e' q.
          let y' = y in
          let same : m ≡ x = ap (λ y. current y m) (sym e ∙ e') in
          subst
            (λ y.
              Sound (laws.shares_of t k.book) (owing t (suc m.req.quantity) t)
                (member t k.pending_stops) t (record y { entered = true }))
            same
            (subst
              (λ o.
                Sound (laws.shares_of t k.book) o (member t k.pending_stops) t
                  (record m { entered = true }))
              (sym (owing_self laws t (suc m.req.quantity)))
              (let q' = entry_at laws t 0 t m k s' e in
                record {
                  named = q'.named;
                  size = q'.size;
                  agrees = q'.agrees;
                  absent = q'.absent;
                  sum = ground (arith, q'.sum);
                  done = q'.done;
                  idle = λ z. ground (arith, q'.sum);
                  live = q'.live;
                  early = λ z. y';
                  waits = λ z. absurd (ground arith);
                })))
        (λ j kn d. (refl, (ground arith, λ x. x))) s.parked (λ z. lookup-is_known t k.orders m e)
        (λ z. p)

  -- The taker as it is when the loop is over.
  pub taker_at :
      (t r : ℕ) (m : Meta) (k : Matcher B)
      → Good laws t (suc r) k
      → lookup t k.orders ≡ some m
      → Sound (laws.shares_of t k.book) (suc r) false t m
  taker_at t r m k s e =
      subst (λ p. Sound (laws.shares_of t k.book) (suc r) p t m) (s.aloft (omega arith))
        (subst (λ o. Sound (laws.shares_of t k.book) o (member t k.pending_stops) t m)
          (owing_self laws t (suc r)) (entry_at laws t (suc r) t m k s e))

  -- The end of a taker's flight, by one change of it.
  landing :
      (t r : ℕ) (m : Meta) (f : Meta → Meta) (b' : B) (k : Matcher B)
      → Good laws t (suc r) k
      → lookup t k.orders ≡ some m
      → (Sound (laws.shares_of t k.book) (suc r) false t m
          → Sound (laws.shares_of t b') 0 false t (f m))
      → ((j : ℕ) → (j == t) ≡ false → laws.shares_of j b' ≡ laws.shares_of j k.book)
      → IsSound laws t 0 (update t f k.orders) b' k.pending_stops
  landing t r m f b' k s e a o =
      one_change laws t (suc r) 0 t f k.orders k.book b' k.pending_stops k.pending_stops s
        (λ x e' q.
          let same : m ≡ x = ap (λ y. current y m) (sym e ∙ e') in
          let v = s.aloft (omega arith) in
          subst (λ y. Sound (laws.shares_of t b') (owing t 0 t) (member t k.pending_stops) t (f y))
            same
            (subst (λ p. Sound (laws.shares_of t b') (owing t 0 t) p t (f m)) (sym v)
              (subst (λ w. Sound (laws.shares_of t b') w false t (f m)) (sym (owing_self laws t 0))
                (a (taker_at t r m k s e)))))
        (λ j kn d. (o j d, (ground arith, λ x. x))) s.parked (λ z. absurd (omega arith))
        (λ z. absurd (omega arith))

  drop_rest-Good :
      (t r : ℕ) (m : Meta) (k : Matcher B)
      → Good laws t (suc r) k
      → lookup t k.orders ≡ some m
      → Good laws t 0 (drop_rest ops m r k)
  unfolding drop_rest transition change
  drop_rest-Good t r m k s e =
      let n = (taker_at t r m k s e).named in
      let f : Meta → Meta = λ x. record x { cancelled_shares = add32 x.cancelled_shares r } in
      let g : Meta → Meta = λ x. record x { state = cancelled } in
      subst (λ i. IsSound laws t 0 (update i g (update i f k.orders)) k.book k.pending_stops)
        (sym n)
        (fused laws t 0 t g f k.orders k.book k.pending_stops (
          landing t r m (λ x. g (f x)) k.book k s e
            (λ q. record {
              named = q.named;
              size = q.size;
              agrees = q.agrees;
              absent = q.absent;
              sum = ground (arith, q.sum, q.size);
              done = λ x. q.idle (omega arith);
              idle = λ x. absurd (omega arith);
              live = λ x. absurd (let z = q.idle (omega arith) in omega (arith, z, x));
              early = λ x. absurd (omega arith);
              waits = λ x. absurd (ground arith);
            })
            (λ j d. refl)))

  filled_up-Good :
      (t : ℕ) (m : Meta) (k : Matcher B)
      → Good laws t 1 k
      → lookup t k.orders ≡ some m
      → Good laws t 0 (transition m.req.id filled k)
  unfolding transition change
  filled_up-Good t m k s e =
      let n = (taker_at t 0 m k s e).named in
      let g : Meta → Meta = λ x. record x { state = filled } in
      subst (λ i. IsSound laws t 0 (update i g k.orders) k.book k.pending_stops) (sym n)
        (landing t 0 m g k.book k s e
          (λ q. record {
            named = q.named;
            size = q.size;
            agrees = q.agrees;
            absent = q.absent;
            sum = ground (arith, q.sum, q.size);
            done = λ x. q.idle (omega arith);
            idle = λ x. absurd (omega arith);
            live = λ x. absurd (let z = q.idle (omega arith) in omega (arith, z, x));
            early = λ x. absurd (omega arith);
            waits = λ x. absurd (ground arith);
          })
          (λ j d. refl))

  abbrev slice_of : Meta → ℕ → ℕ
  slice_of m remaining =
      if ltb 0 m.req.display && ltb m.req.display remaining then m.req.display else remaining

  abbrev shown : ℕ → ℕ → Meta → Meta
  shown slice remaining x = record x { resting = slice; hidden = remaining - slice; in_book = true }

  abbrev become : State → Meta → Meta
  become to x = record x { state = to }

  shown-Sound :
      (h h' r : ℕ) (i slice : ℕ) (m : Meta) (to : State)
      → Sound h (suc r) false i m
      → slice ≤ r
      → h' ≡ slice
      → is_live to ≡ true
      → Sound h' 0 false i (become to (shown slice r m))
  shown-Sound h h' r i slice m to q l e n = record {
    named = q.named;
    size = q.size;
    agrees = e;
    absent = λ x. absurd (ground arith);
    sum = let z = q.idle (omega arith) in omega (arith, q.sum, z, l);
    done = λ x. absurd (ground arith);
    idle = λ x. absurd (omega arith);
    live = λ x. n;
    early = λ x. absurd (omega arith);
    waits = λ x. absurd (ground arith);
  }

  come_to_rest-Good :
      (t r : ℕ) (m : Meta) (k : Matcher B)
      → Good laws t (suc r) k
      → lookup t k.orders ≡ some m
      → Good laws t 0 (come_to_rest ops m r k)
  unfolding come_to_rest rest transition change
  come_to_rest-Good t r m k s e =
      let q = taker_at t r m k s e in
      let h0 : laws.shares_of t k.book ≡ 0 =
        let z = q.idle (omega arith) in omega (arith, q.agrees, z) in
      let side = to_char m.req.side in
      let slice = slice_of m r in
      let small : slice ≤ r = ground arith in
      let b' : B = ops.add t side m.req.price slice k.book in
      let held : laws.shares_of t b' ≡ slice =
        let l = laws.add-shares t side m.req.price slice t k.book h0 in ground arith in
      let others : (j : ℕ) → (j == t) ≡ false → laws.shares_of j b' ≡ laws.shares_of j k.book =
        λ j d. let l = laws.add-shares t side m.req.price slice j k.book h0 in ground arith in
      elim (Bool-cases (same_state m.state (resting_state ops m))) [
        | inl u ↦ rw u (
            subst
              (λ i.
                IsSound laws t 0 (update i (shown slice r) k.orders)
                  (ops.add i side m.req.price slice k.book) k.pending_stops)
              (sym q.named)
              (landing t r m (shown slice r) b' k s e
                (λ w.
                  shown-Sound (laws.shares_of t k.book) (laws.shares_of t b') r t slice m m.state w
                    small held (ground arith))
                others))
        | inr u ↦
            let to = resting_state ops m in
            rw u (
              subst
                (λ i.
                  IsSound laws t 0 (update i (become to) (update i (shown slice r) k.orders))
                    (ops.add i side m.req.price slice k.book) k.pending_stops)
                (sym q.named)
                (fused laws t 0 t (become to) (shown slice r) k.orders b' k.pending_stops (
                  landing t r m (λ x. become to (shown slice r x)) b' k s e
                    (λ w.
                      shown-Sound (laws.shares_of t k.book) (laws.shares_of t b') r t slice m to w
                        small held (ground arith))
                    others)))
      ]

  pub conclude-Good :
      (t : ℕ) (type : OrderType) (m : Meta) (l : Loop B)
      → Flying laws t l
      → lookup t l.engine.orders ≡ some m
      → Good laws t 0 (conclude ops type m l)
  unfolding conclude
  conclude-Good t type m l s e =
      elim (Bool-cases (ltb 0 l.remaining && (can_rest type && not l.stp_killed))) [
        | inl u ↦ rw u (come_to_rest-Good t l.remaining m l.engine s e)
        | inr u ↦ elim (Bool-cases (ltb 0 l.remaining)) [
          | inl v ↦ rw (u, v) (drop_rest-Good t l.remaining m l.engine s e)
          | inr v ↦
              let z : l.remaining ≡ 0 = ground arith in
              rw (u, v)
                (filled_up-Good t m l.engine (subst (λ x. Good laws t (suc x) l.engine) z s) e)
        ]
      ]

  refuse-Good :
      (m : Meta) (why : Reject) (r : Result) (k : Matcher B)
      → Quiet laws k
      → lookup m.req.id k.orders ≡ some m
      → m.entered ≡ false
      → Quiet laws (refuse ops m why r k).0
  unfolding refuse
  refuse-Good m why r k s e n =
      let to : State = if is_fresh m.state then rejected else cancelled in
      let over : is_terminal to ≡ true = ground arith in
      let q = entry_at laws 0 0 m.req.id m k s e in
      let z : m.resting + m.hidden ≡ 0 = ground (arith, q.sum) in
      transition-Good laws 0 0 m.req.id to k s
        (λ x e'.
          let same : m ≡ x = ap (λ y. current y m) (sym e ∙ e') in
          inr (over, subst (λ y. y.resting + y.hidden ≡ 0) same z))
        (ground arith)

  -- The run of an order that has not entered yet and is not parked.
  pub run_with-Quiet :
      (fire : Matcher B → Matcher B × Bool) (type : OrderType) (m : Meta) (r : Result)
      (k : Matcher B)
      → ((k' : Matcher B) → Quiet laws k' → Quiet laws (fire k').0)
      → Quiet laws k
      → lookup m.req.id k.orders ≡ some m
      → m.entered ≡ false
      → is_early m.state ≡ true
      → member m.req.id k.pending_stops ≡ false
      → Quiet laws (run_with ops fire type m r k).0
  unfolding run_with trade
  run_with-Quiet fire type m r k f s e n y p =
      let t = m.req.id in
      let l = match ops m.req type (enter ops m k) m.req.quantity in
      let g : Flying laws t l =
        match-Flying laws m.req type m.req.quantity (enter ops m k) (enter-Good m k s e n y p) in
      let e' = known-lookup t l.engine.orders m (g.there (omega arith)) in
      let c = conclude-Good t type (current (lookup t l.engine.orders) m) l g e' in
      elim (Bool-cases (is_fok type && ltb (available ops m.req type k) m.req.quantity)) [
        | inl u ↦ rw u (refuse-Good m fok_unfillable r k s e n)
        | inr u ↦ elim (Bool-cases (is_market type && not (has_liquidity ops m.req k))) [
          | inl v ↦ rw (u, v) (refuse-Good m no_liquidity r k s e n)
          | inr v ↦ rw (u, v) (f _ (land t 0 _ _ _ c))
        ]
      ]
