-- ===== src/Engine/Matcher/Sound/Stops.antt =====
-- Stops that fire keep an engine sound.
use itchbook.Base.{
  ℕ, zero, suc, ◌+◌, ◌≡◌, refl, sym, subst, inl, inr, Bool, true, false, Option, none, some, List,
  [], ◌∷◌, arith, ◌==◌, Bool-cases, length,
}
use itchbook.Engine.OrderTypes.{is_terminal, no_result}
use itchbook.Engine.Matcher.{
  BookOps, Meta, Orders, Matcher, lookup, change, effective_type, stop_is_triggered,
}
use itchbook.Engine.Matcher.Run.{current, elect, unpark, run_with, fired, fire_from, fire_stops}
use itchbook.Engine.Matcher.Sound.{is_early, BookLaws, member, known, Parked, owing, Quiet}
use itchbook.Engine.Matcher.Sound.Lists.{lookup-update, fewer-AllSound}
use itchbook.Engine.Matcher.Sound.Moves.{one_change}
use itchbook.Engine.Matcher.Sound.Fills.{entry_at}
use itchbook.Engine.Matcher.Sound.Entry.{run_with-Quiet}

-- An elected stop is an order that waited, and is parked no longer.
abbrev pub Chosen : Orders → List ℕ → List ℕ → Option Meta → Type 0
Chosen os is kept none = Unit {0}
Chosen os is kept (some m) =
    (lookup m.req.id os ≡ some m)
    × ((is_terminal m.state ≡ false)
        × ((member m.req.id is ≡ true) × (member m.req.id kept ≡ false)))

-- What an election leaves of the parked stops.
pub record Elected (os : Orders) (is kept : List ℕ) (e : Option Meta) : Type 0 where
  pub parked : Parked os kept
  pub fewer : (j : ℕ) → member j kept ≡ true → member j is ≡ true
  pub chosen : Chosen os is kept e

abbrev pub Named : Orders → Type 0
Named os = (i : ℕ) (m : Meta) → lookup i os ≡ some m → m.req.id ≡ i

module _ {B : Type 0} {ops : BookOps B} (laws : BookLaws ops) where
  -- A stop that stays, or goes because it is dead, in front of an election.
  skip :
      (os : Orders) (i : ℕ) (is kept : List ℕ) (e : Option Meta)
      → Elected os is kept e
      → Elected os (i ∷ is) kept e
  skip os i is kept none v = record {
    parked = v.parked;
    fewer = λ j h. let w = v.fewer j h in ground arith;
    chosen = tt;
  }
  skip os i is kept (some m) v =
      let (a, (b, (c, d))) = v.chosen in
      record {
        parked = v.parked;
        fewer = λ j h. let w = v.fewer j h in ground arith;
        chosen = (a, (b, (ground arith, d)));
      }

  not_kept :
      (os : Orders) (i : ℕ) (is kept : List ℕ) (e : Option Meta)
      → member i is ≡ false
      → Elected os is kept e
      → member i kept ≡ false
  not_kept os i is kept e out v = elim (Bool-cases (member i kept)) [
    | inl t ↦ absurd (let w = v.fewer i t in ground arith)
    | inr t ↦ t
  ]

  stay :
      (os : Orders) (i : ℕ) (is kept : List ℕ) (e : Option Meta)
      → known i os ≡ true
      → member i is ≡ false
      → Elected os is kept e
      → Elected os (i ∷ is) (i ∷ kept) e
  stay os i is kept none kn out v = record {
    parked = (not_kept os i is kept none out v, (kn, v.parked));
    fewer = λ j h. let w = v.fewer j in ground arith;
    chosen = tt;
  }
  stay os i is kept (some m) kn out v =
      let (a, (b, (c, d))) = v.chosen in
      let away : (i == m.req.id) ≡ false = elim (Bool-cases (i == m.req.id)) [
        | inl t ↦
            let e : m.req.id ≡ i = ground arith in
            let w : member i is ≡ true = subst (λ x. member x is ≡ true) e c in
            absurd (ground arith)
        | inr t ↦ t
      ] in
      record {
        parked = (not_kept os i is kept (some m) out v, (kn, v.parked));
        fewer = λ j h. let w = v.fewer j in ground arith;
        chosen = (a, (b, (ground arith, ground arith)));
      }

  elect_step :
      (k : Matcher B) (i : ℕ) (is : List ℕ) (l : Option Meta)
      → lookup i k.orders ≡ l
      → Named k.orders
      → Parked k.orders (i ∷ is)
      → Elected k.orders is (elect ops k is).1 (elect ops k is).0
      → Elected k.orders (i ∷ is) (elect ops k (i ∷ is)).1 (elect ops k (i ∷ is)).0
  unfolding elect
  elect_step k i is none e n (a, (b, c)) v =
      rw (elect, e) (skip k.orders i is (elect ops k is).1 (elect ops k is).0 v)
  elect_step k i is (some m) e n (a, (b, c)) v = elim (Bool-cases (is_terminal m.state)) [
    | inl t ↦ rw (elect, e, t) (skip k.orders i is (elect ops k is).1 (elect ops k is).0 v)
    | inr t ↦ elim (Bool-cases (stop_is_triggered m.req k)) [
      | inl u ↦
          let id = n i m e in
          rw (elect, e, t, u)
            (record {
              parked = c;
              fewer = λ j h. ground arith;
              chosen = (
                subst (λ x. lookup x k.orders ≡ some m) (sym id) e,
                (t, (ground arith, subst (λ x. member x is ≡ false) (sym id) a)),
              );
            })
      | inr u ↦ rw (elect, e, t, u) (stay k.orders i is (elect ops k is).1 (elect ops k is).0 b a v)
    ]
  ]

  pub elect-Elected :
      (k : Matcher B) (is : List ℕ)
      → Named k.orders
      → Parked k.orders is
      → Elected k.orders is (elect ops k is).1 (elect ops k is).0
  unfolding elect
  elect-Elected k [] n p = record { parked = tt; fewer = λ j h. h; chosen = tt }
  elect-Elected k (i ∷ is) n (a, (b, c)) =
      elect_step k i is (lookup i k.orders) refl n (a, (b, c)) (elect-Elected k is n c)

  pub kept_out :
      (m : Meta) (kept : List ℕ) (k : Matcher B)
      → member m.req.id kept ≡ false
      → member m.req.id (unpark ops m kept k).pending_stops ≡ false
  unfolding unpark
  kept_out m kept k d = d

  -- A stop that is out of the parked ones and has its new sequence number.
  pub unpark-Quiet :
      (m : Meta) (kept : List ℕ) (k : Matcher B)
      → Elected k.orders k.pending_stops kept (some m)
      → Quiet laws k
      → Quiet laws (unpark ops m kept k)
  unfolding unpark change
  unpark-Quiet m kept k v s =
      one_change laws 0 0 0 m.req.id (λ x. record x { sequence = k.seq + 1 }) k.orders k.book k.book
        k.pending_stops kept s
        (λ x e q. record {
          named = q.named;
          size = q.size;
          agrees = q.agrees;
          absent = q.absent;
          sum = q.sum;
          done = q.done;
          idle = q.idle;
          live = q.live;
          early = λ z. q.early z;
          waits = λ z. q.waits (v.fewer m.req.id z);
        })
        (λ j kn d. (refl, (refl, v.fewer j))) v.parked (λ z. absurd (omega arith))
        (λ z. absurd (omega arith))

  pub unpark-lookup :
      (m : Meta) (kept : List ℕ) (k : Matcher B)
      → lookup m.req.id k.orders ≡ some m
      → lookup m.req.id (unpark ops m kept k).orders ≡ some (record m { sequence = k.seq + 1 })
  unfolding unpark change
  unpark-lookup m kept k e =
      lookup-update m.req.id (λ x. record x { sequence = k.seq + 1 }) k.orders m e

  kept-Quiet :
      (kept : List ℕ) (k : Matcher B)
      → Elected k.orders k.pending_stops kept none
      → Quiet laws k
      → Quiet laws (record k { pending_stops = kept })
  kept-Quiet kept k v s = record {
    orders =
        fewer-AllSound (λ j. laws.shares_of j k.book) (owing 0 0) (λ j. member j k.pending_stops)
          (λ j. member j kept) k.orders v.fewer s.orders;
    parked = v.parked;
    there = s.there;
    aloft = λ z. absurd (omega arith);
  }

  pub fired-Quiet :
      (next : Matcher B → Matcher B × Bool) (k : Matcher B) (e : Option Meta) (kept : List ℕ)
      → Elected k.orders k.pending_stops kept e
      → Quiet laws k
      → ((k' : Matcher B) → Quiet laws k' → Quiet laws (next k').0)
      → Quiet laws (fired ops next k e kept).0
  unfolding fired
  fired-Quiet next k none kept v s f = kept-Quiet kept k v s
  fired-Quiet next k (some m) kept v s f =
      let (a, (b, (c, d))) = v.chosen in
      let k1 = unpark ops m kept k in
      let w = unpark-lookup m kept k a in
      let q = entry_at laws 0 0 m.req.id m k s a in
      let n : m.entered ≡ false = ground (arith, q.waits c) in
      let y : is_early m.state ≡ true = ground (arith, q.waits c) in
      let o : member m.req.id k1.pending_stops ≡ false = kept_out m kept k d in
      f _ (
        subst
          (λ l.
            Quiet laws
              (run_with ops next (effective_type m.req.type) (current l m)
                (record no_result { first_fill = length k.fills }) k1).0)
          (sym w)
          (run_with-Quiet laws next (effective_type m.req.type) (record m { sequence = k.seq + 1 })
            (record no_result { first_fill = length k.fills }) k1 f (unpark-Quiet m kept k v s) w n
            y o))

  pub fire_from-Quiet : (n : ℕ) (k : Matcher B) → Quiet laws k → Quiet laws (fire_from ops n k).0
  unfolding fire_from
  fire_from-Quiet zero k s = s
  fire_from-Quiet (suc n) k s =
      let named : Named k.orders = λ i m e. (entry_at laws 0 0 i m k s e).named in
      fired-Quiet (fire_from ops n) k (elect ops k k.pending_stops).0
        (elect ops k k.pending_stops).1 (elect-Elected k k.pending_stops named s.parked) s
        (fire_from-Quiet n)

  pub fire_stops-Quiet : (k : Matcher B) → Quiet laws k → Quiet laws (fire_stops ops k).0
  unfolding fire_stops
  fire_stops-Quiet k s = fire_from-Quiet (length k.pending_stops) k s
