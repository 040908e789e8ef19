-- ===== src/Engine/Matcher/Sound/Operations.antt =====
-- Every public operation keeps an engine sound.
use itchbook.Base.{
  ℕ, ◌+◌, ◌^◌, ◌≤◌, ◌<◌, ◌≡◌, refl, sym, ap, subst, ◌∙◌, ◌⊎◌, inl, inr, Bool, true, false, not,
  ◌||◌, Option, none, some, List, [], ◌∷◌, ◌++◌, arith, ◌==◌, Bool-cases, length,
}
use itchbook.Engine.OrderTypes.{
  accepted, rejected, is_terminal, is_stop, Reject, no_reject, zero_quantity, invalid_price,
  display_too_large, fok_unfillable, no_liquidity, duplicate_id, unknown_order, Request, Result,
  no_result,
}
use itchbook.Engine.Matcher.{
  BookOps, Meta, new_meta, Orders, Matcher, lookup, emplace, change, transition, validate,
  effective_type, stop_is_triggered,
}
use itchbook.Engine.Matcher.Orders.{smaller}
use itchbook.Engine.Matcher.Run.{current, fire_stops, pump_stops}
use itchbook.Engine.Matcher.Submit.{
  turn_away, park, admit, judged, submit, cancel, fill_by, absent, apply_external_fill,
}
use itchbook.Engine.Matcher.Sound.{
  is_early, BookLaws, Sound, member, known, Parked, owing, IsSound, Quiet,
}
use itchbook.Engine.Matcher.Sound.Lists.{lookup-unknown, lookup-is_known, emplace-AllSound}
use itchbook.Engine.Matcher.Sound.Moves.{one_change, fused, cancel_meta-Good}
use itchbook.Engine.Matcher.Sound.Fills.{entry_at, resting-entered, sold-Good, settle_maker-Good}
use itchbook.Engine.Matcher.Sound.Entry.{run_with-Quiet}
use itchbook.Engine.Matcher.Sound.Stops.{fire_stops-Quiet}

emplace-taken :
    (i : ℕ) (n : Meta) (os : Orders) (m : Meta) → lookup i os ≡ some m → emplace i n os ≡ os
unfolding emplace lookup
emplace-taken i n [] m e = absurd (ground arith)
emplace-taken i n ((j, x) ∷ os) m e = elim (Bool-cases (i == j)) [
  | inl t ↦ rw t refl
  | inr t ↦ rw t (ap (λ y. (j, x) ∷ y) (emplace-taken i n os m (ground arith)))
]

pub lookup-emplace :
    (i : ℕ) (m : Meta) (os : Orders) → lookup i os ≡ none → lookup i (emplace i m os) ≡ some m
unfolding emplace lookup
lookup-emplace i m [] e = ground arith
lookup-emplace i m ((j, x) ∷ os) e = elim (Bool-cases (i == j)) [
  | inl t ↦ absurd (ground arith)
  | inr t ↦ rw (t, lookup, t) (lookup-emplace i m os (ground arith))
]

known_kept :
    (j i : ℕ) (m : Meta) (os : Orders) → known j os ≡ true → known j (emplace i m os) ≡ true
unfolding emplace known
known_kept j i m [] h = absurd (ground arith)
known_kept j i m ((l, x) ∷ os) h = elim (Bool-cases (i == l)) [
  | inl t ↦ rw t h
  | inr t ↦ elim (Bool-cases (j == l)) [
    | inl u ↦ rw t (ground arith)
    | inr u ↦ let w = known_kept j i m os (ground arith) in rw t (ground arith)
  ]
]

emplace-Parked :
    (i : ℕ) (m : Meta) (os : Orders) (is : List ℕ) → Parked os is → Parked (emplace i m os) is
emplace-Parked i m os [] h = tt
emplace-Parked i m os (j ∷ is) (a, (b, c)) =
    (a, (known_kept j i m os b, emplace-Parked i m os is c))

-- An id that no order has is not parked.
pub unknown-member :
    (i : ℕ) (os : Orders) (is : List ℕ) → Parked os is → known i os ≡ false → member i is ≡ false
unknown-member i os [] h k = refl
unknown-member i os (j ∷ is) (a, (b, c)) k =
    let w = unknown-member i os is c k in
    elim (Bool-cases (j == i)) [
      | inl t ↦
          let e : j ≡ i = ground arith in
          let b' : known i os ≡ true = subst (λ x. known x os ≡ true) e b in absurd (ground arith)
      | inr t ↦ ground arith
    ]

member-snoc : (j i : ℕ) (is : List ℕ) → (j == i) ≡ false → member j (is ++ (i ∷ [])) ≡ member j is
member-snoc j i [] h = ground arith
member-snoc j i (x ∷ is) h = ap (λ y. x == j || y) (member-snoc j i is h)

snoc-Parked :
    (i : ℕ) (os : Orders) (is : List ℕ)
    → Parked os is
    → member i is ≡ false
    → known i os ≡ true
    → Parked os (is ++ (i ∷ []))
snoc-Parked i os [] h n k = (refl, (k, tt))
snoc-Parked i os (j ∷ is) (a, (b, c)) n k =
    (member-snoc j i is (ground arith) ∙ a, (b, snoc-Parked i os is c (ground arith) k))

module _ {B : Type 0} {ops : BookOps B} (laws : BookLaws ops) where
  -- What a request brings: a quantity of 32 bits, and an id of which the book holds nothing.
  pub record Fresh (req : Request) (k : Matcher B) : Type 0 where
    pub size : req.quantity < 2 ^ 32
    pub apart : lookup req.id k.orders ≡ none → laws.shares_of req.id k.book ≡ 0

  -- An order of which nothing has been done.
  blank-Sound :
      (h : ℕ) (p : Bool) (m : Meta)
      → m.req.quantity < 2 ^ 32
      → h ≡ 0
      → m.filled_shares + m.cancelled_shares + m.resting + m.hidden ≡ 0
      → m.entered ≡ false
      → ((m.entered ≡ false) × (is_early m.state ≡ true)) ⊎ (is_terminal m.state ≡ true)
      → Sound h 0 p m.req.id m
  blank-Sound h p m s z q e y = record {
    named = refl;
    size = s;
    agrees = omega arith;
    absent = λ x. omega arith;
    sum = ground arith;
    done = λ x. omega arith;
    idle = λ x. omega arith;
    live = λ x. absurd (omega arith);
    early = λ x. absurd (omega arith);
    waits = λ x. y;
  }

  pub emplace-Quiet :
      (m : Meta) (k : Matcher B)
      → Quiet laws k
      → m.req.quantity < 2 ^ 32
      → laws.shares_of m.req.id k.book ≡ 0
      → m.filled_shares + m.cancelled_shares + m.resting + m.hidden ≡ 0
      → m.entered ≡ false
      → ((m.entered ≡ false) × (is_early m.state ≡ true)) ⊎ (is_terminal m.state ≡ true)
      → IsSound laws 0 0 (emplace m.req.id m k.orders) k.book k.pending_stops
  emplace-Quiet m k s q z e n y = record {
    orders =
        emplace-AllSound (λ j. laws.shares_of j k.book) (owing 0 0) (λ j. member j k.pending_stops)
          m.req.id m k.orders
          (let zero : owing 0 0 m.req.id ≡ 0 = ground arith in
            subst
              (λ o.
                Sound (laws.shares_of m.req.id k.book) o (member m.req.id k.pending_stops) m.req.id
                  m)
              (sym zero)
              (blank-Sound (laws.shares_of m.req.id k.book) (member m.req.id k.pending_stops) m q z
                e n y))
          s.orders;
    parked = emplace-Parked m.req.id m k.orders k.pending_stops s.parked;
    there = λ x. absurd (omega arith);
    aloft = λ x. absurd (omega arith);
  }

  turn_away_step :
      (req : Request) (why : Reject) (r : Result) (k : Matcher B) (l : Option Meta)
      → lookup req.id k.orders ≡ l
      → Fresh req k
      → Quiet laws k
      → Quiet laws (turn_away ops req why r k).0
  unfolding turn_away
  turn_away_step req why r k none e f s =
      emplace-Quiet (record (new_meta req) { state = rejected }) k s f.size (f.apart e) refl refl
        (inr refl)
  turn_away_step req why r k (some m) e f s =
      subst (λ os. IsSound laws 0 0 os k.book k.pending_stops)
        (sym (emplace-taken req.id (record (new_meta req) { state = rejected }) k.orders m e)) s

  park-Quiet :
      (req : Request) (r : Result) (m : Meta) (k : Matcher B)
      → Quiet laws k
      → lookup req.id k.orders ≡ some m
      → m.entered ≡ false
      → member req.id k.pending_stops ≡ false
      → Quiet laws (park ops req r k).0
  unfolding park transition change
  park-Quiet req r m k s e n p =
      let i = req.id in
      let f : Meta → Meta = λ x. record x { resting = 0 } in
      let g : Meta → Meta = λ x. record x { state = accepted } in
      let stops' = k.pending_stops ++ (i ∷ []) in
      fused laws 0 0 i f g k.orders k.book stops' (
        one_change laws 0 0 0 i (λ x. f (g x)) k.orders k.book k.book k.pending_stops stops' s
          (λ x e' q.
            let same : m ≡ x = ap (λ y. current y m) (sym e ∙ e') in
            subst (λ y. Sound (laws.shares_of i k.book) (owing 0 0 i) (member i stops') i (f (g y)))
              same
              (let q' = entry_at laws 0 0 i m k s e in
                record {
                  named = q'.named;
                  size = q'.size;
                  agrees = ground (arith, q'.sum, q'.agrees);
                  absent = λ z. refl;
                  sum = ground (arith, q'.sum);
                  done = λ z. absurd (ground arith);
                  idle = λ z. absurd (ground arith);
                  live = λ z. absurd (let w = q'.sum in ground arith);
                  early = λ z. absurd (ground arith);
                  waits = λ z. inl (n, refl);
                }))
          (λ j kn d. (refl, (refl, λ z. sym (member-snoc j i k.pending_stops (ground arith)) ∙ z)))
          (snoc-Parked i k.orders k.pending_stops s.parked p (lookup-is_known i k.orders m e))
          (λ z. absurd (omega arith)) (λ z. absurd (omega arith)))

  admit-Quiet :
      (req : Request) (r : Result) (k : Matcher B)
      → Quiet laws k
      → Fresh req k
      → lookup req.id k.orders ≡ none
      → Quiet laws (admit ops req r k).0
  unfolding admit
  admit-Quiet req r k s f e =
      let m = record (new_meta req) { sequence = k.seq + 1 } in
      let k' : Matcher B = record k { orders = emplace req.id m k.orders; seq = k.seq + 1 } in
      let s' : Quiet laws k' =
        emplace-Quiet m k s f.size (f.apart e) refl refl (inl (refl, refl)) in
      let e' = lookup-emplace req.id m k.orders e in
      let out =
        unknown-member req.id k.orders k.pending_stops s.parked
          (lookup-unknown req.id k.orders e) in
      elim (Bool-cases (is_stop req.type)) [
        | inl t ↦ elim (Bool-cases (stop_is_triggered req k')) [
          | inl u ↦
              rw (t, u)
                (run_with-Quiet laws (fire_stops ops) (effective_type req.type) m r k'
                  (fire_stops-Quiet laws) s' e' refl refl out)
          | inr u ↦ rw (t, u) (park-Quiet req r m k' s' e' refl out)
        ]
        | inr t ↦ rw t (
            run_with-Quiet laws (fire_stops ops) req.type m r k' (fire_stops-Quiet laws) s' e' refl
              refl out)
      ]

  pub validate-fresh :
      (req : Request) (k : Matcher B) → validate req k ≡ no_reject → lookup req.id k.orders ≡ none
  unfolding validate
  validate-fresh req k e = ground arith

  judged-Quiet :
      (req : Request) (why : Reject) (r : Result) (k : Matcher B)
      → validate req k ≡ why
      → Fresh req k
      → Quiet laws k
      → Quiet laws (judged ops why req r k).0
  judged-Quiet req no_reject r k e f s = admit-Quiet req r k s f (validate-fresh req k e)
  judged-Quiet req zero_quantity r k e f s = turn_away_step req zero_quantity r k _ refl f s
  judged-Quiet req invalid_price r k e f s = turn_away_step req invalid_price r k _ refl f s
  judged-Quiet req display_too_large r k e f s = turn_away_step req display_too_large r k _ refl f s
  judged-Quiet req fok_unfillable r k e f s = turn_away_step req fok_unfillable r k _ refl f s
  judged-Quiet req no_liquidity r k e f s = turn_away_step req no_liquidity r k _ refl f s
  judged-Quiet req duplicate_id r k e f s = turn_away_step req duplicate_id r k _ refl f s
  judged-Quiet req unknown_order r k e f s = turn_away_step req unknown_order r k _ refl f s

  pub submit-Quiet :
      (req : Request) (k : Matcher B) → Fresh req k → Quiet laws k → Quiet laws (submit ops req k).0
  unfolding submit
  submit-Quiet req k f s =
      judged-Quiet req _ (record no_result { first_fill = length k.fills })
        (record k { match_no = k.match_no + 1 }) refl (record { size = f.size; apart = f.apart }) s

  cancel_step :
      (i : ℕ) (k : Matcher B) (l : Option Meta)
      → lookup i k.orders ≡ l
      → Quiet laws k
      → Quiet laws (cancel ops i k).0
  unfolding cancel
  cancel_step i k none e s = rw (cancel, e) s
  cancel_step i k (some m) e s = elim (Bool-cases (is_terminal m.state)) [
    | inl t ↦ rw (cancel, e, t) s
    | inr t ↦ rw (cancel, e, t) (cancel_meta-Good laws 0 0 i m k s e (ground arith))
  ]

  pub cancel-Quiet : (i : ℕ) (k : Matcher B) → Quiet laws k → Quiet laws (cancel ops i k).0
  cancel-Quiet i k s = cancel_step i k (lookup i k.orders) refl s

  fill_by-Quiet :
      (i qty price number : ℕ) (m : Meta) (k : Matcher B)
      → Quiet laws k
      → lookup i k.orders ≡ some m
      → 0 < m.resting
      → qty ≤ m.resting
      → Quiet laws (fill_by ops i m qty price number k)
  unfolding fill_by change
  fill_by-Quiet i qty price number m k s e z l =
      let q = entry_at laws 0 0 i m k s e in
      let (a, (b, (c, d))) =
        resting-entered laws (laws.shares_of i k.book) (owing 0 0 i) (member i k.pending_stops) i m
          q (omega (arith, q.agrees, z)) in
      settle_maker-Good laws 0 0 i _
        (sold-Good laws 0 0 i qty m k s e (omega (arith, q.agrees, z)) (omega (arith, q.agrees, l)))
        (ground arith) c

  external_step :
      (i shares price number : ℕ) (k : Matcher B) (l : Option Meta)
      → lookup i k.orders ≡ l
      → Quiet laws k
      → Quiet laws (apply_external_fill ops i shares price number k).0
  unfolding apply_external_fill
  external_step i shares price number k none e s = rw (apply_external_fill, e) s
  external_step i shares price number k (some m) e s =
      elim (Bool-cases (
        shares == 0
        || (not m.entered
            || (is_terminal m.state
                || (not m.in_book || (m.resting == 0 || absent ops (ops.find i k.book))))))) [
                  | inl t ↦ rw (apply_external_fill, e, t) s
                  | inr t ↦
                      rw (apply_external_fill, e, t)
                        (fill_by-Quiet i (smaller shares m.resting) price number m k s e
                          (ground arith) (ground arith))
                ]

  pub apply_external_fill-Quiet :
      (i shares price number : ℕ) (k : Matcher B)
      → Quiet laws k
      → Quiet laws (apply_external_fill ops i shares price number k).0
  apply_external_fill-Quiet i shares price number k s =
      external_step i shares price number k (lookup i k.orders) refl s

  pub pump_stops-Quiet : (k : Matcher B) → Quiet laws k → Quiet laws (pump_stops ops k).0
  unfolding pump_stops
  pump_stops-Quiet k s = fire_stops-Quiet laws k s
