-- ===== src/Engine/Matcher/Sound/Moves.antt =====
-- The changes of one order keep an engine sound.
use itchbook.Base.{
  ℕ, ◌+◌, ◌<◌, ◌≡◌, refl, sym, ap, subst, ◌∙◌, ◌⊎◌, inl, inr, Bool, true, false, some, List, [],
  ◌∷◌, arith, ◌==◌, Bool-cases,
}
use itchbook.Base.Words.{add32}
use itchbook.Engine.OrderTypes.{State, cancelled, is_terminal}
use itchbook.Engine.Matcher.{BookOps, Meta, Orders, Matcher, lookup, update, change, transition}
use itchbook.Engine.Matcher.Orders.{erase_first, leave_book, cancel_meta}
use itchbook.Engine.Matcher.Run.{current}
use itchbook.Engine.Matcher.Sound.{
  is_live, is_early, BookLaws, Sound, member, known, Parked, owing, IsSound, Good,
}
use itchbook.Engine.Matcher.Sound.Lists.{
  lookup-Sound, update-AllSound, known-update, update-Parked, member-erase_first,
  erase_first-Parked, erase_first-gone,
}

update-update :
    (i : ℕ) (f g : Meta → Meta) (os : Orders)
    → update i f (update i g os) ≡ update i (λ m. f (g m)) os
unfolding update
update-update i f g [] = refl
update-update i f g ((j, m) ∷ os) = elim (Bool-cases (i == j)) [
  | inl t ↦ rw (t, update, t) refl
  | inr t ↦ rw (t, update, t) (ap (λ x. (j, m) ∷ x) (update-update i f g os))
]

-- A state that is live, or terminal with nothing left.
abbrev Onward : State → Bool → Meta → Type 0
Onward to p m =
    ((is_live to ≡ true) × (p ≡ false)) ⊎ ((is_terminal to ≡ true) × (m.resting + m.hidden ≡ 0))

ended :
    (to : State) (p : Bool) (m : Meta)
    → Onward to p m
    → is_terminal to ≡ true
    → m.resting + m.hidden ≡ 0
ended to p m h e = ground arith

living :
    (to : State) (p : Bool) (m : Meta)
    → Onward to p m
    → 0 < m.resting + m.hidden
    → is_live to ≡ true
living to p m h e = ground arith

waiting :
    (to : State) (p : Bool) (m : Meta)
    → Onward to p m
    → p ≡ true
    → ((m.entered ≡ false) × (is_early to ≡ true)) ⊎ (is_terminal to ≡ true)
waiting to p m h e = ground arith

module _ {B : Type 0} {ops : BookOps B} (laws : BookLaws ops) where
  -- A change of one order, with the book and the parked stops that come with it.
  pub one_change :
      (t r r' i : ℕ) (f : Meta → Meta) (os : Orders) (b b' : B) (stops stops' : List ℕ)
      → IsSound laws t r os b stops
      → ((m : Meta)
          → lookup i os ≡ some m
          → Sound (laws.shares_of i b) (owing t r i) (member i stops) i m
          → Sound (laws.shares_of i b') (owing t r' i) (member i stops') i (f m))
      → ((j : ℕ)
          → known j os ≡ true
          → (j == i) ≡ false
          → (laws.shares_of j b' ≡ laws.shares_of j b)
            × ((owing t r' j ≡ owing t r j) × (member j stops' ≡ true → member j stops ≡ true)))
      → Parked os stops'
      → (0 < r' → known t os ≡ true)
      → (0 < r' → member t stops' ≡ false)
      → IsSound laws t r' (update i f os) b' stops'
  one_change t r r' i f os b b' stops stops' s a o p w v = record {
    orders =
        update-AllSound (λ j. laws.shares_of j b) (λ j. laws.shares_of j b') (owing t r)
          (owing t r') (λ j. member j stops) (λ j. member j stops') i f os a o s.orders;
    parked = update-Parked i f os stops' p;
    there = λ z. known-update t i f os ∙ w z;
    aloft = v;
  }

  pub fused :
      (t r i : ℕ) (f g : Meta → Meta) (os : Orders) (b : B) (stops : List ℕ)
      → IsSound laws t r (update i (λ m. f (g m)) os) b stops
      → IsSound laws t r (update i f (update i g os)) b stops
  fused t r i f g os b stops s =
      subst (λ x. IsSound laws t r x b stops) (sym (update-update i f g os)) s

  pub transition-Good :
      (t r i : ℕ) (to : State) (k : Matcher B)
      → Good laws t r k
      → ((m : Meta)
          → lookup i k.orders ≡ some m
          → ((is_live to ≡ true) × (member i k.pending_stops ≡ false))
            ⊎ ((is_terminal to ≡ true) × (m.resting + m.hidden ≡ 0)))
      → owing t r i ≡ 0
      → Good laws t r (transition i to k)
  unfolding transition change
  transition-Good t r i to k s a z =
      one_change t r r i (λ m. record m { state = to }) k.orders k.book k.book k.pending_stops
        k.pending_stops s
        (λ m e q. record {
          named = q.named;
          size = q.size;
          agrees = q.agrees;
          absent = q.absent;
          sum = q.sum;
          done = λ x. ended to (member i k.pending_stops) m (a m e) x;
          idle = q.idle;
          live = λ x. living to (member i k.pending_stops) m (a m e) x;
          early = λ x. absurd (omega arith);
          waits = λ x. waiting to (member i k.pending_stops) m (a m e) x;
        })
        (λ j kn e. (refl, (refl, λ x. x))) s.parked s.there s.aloft

  abbrev emptied : (Bool → Bool) → Meta → Meta
  emptied g x = record x {
    resting = 0;
    hidden = 0;
    cancelled_shares = add32 x.cancelled_shares (add32 x.resting x.hidden);
    in_book = g x.in_book;
    state = cancelled;
  }

  -- An order out of the book, out of the parked stops and with nothing left of it.
  emptied-Sound :
      (g : Bool → Bool) (h h' : ℕ) (p : Bool) (i : ℕ) (m : Meta)
      → Sound h 0 p i m
      → h' ≡ 0
      → Sound h' 0 false i (emptied g m)
  emptied-Sound g h h' p i m s e = record {
    named = s.named;
    size = s.size;
    agrees = e;
    absent = λ x. refl;
    sum = ground (arith, s.sum, s.size);
    done = λ x. refl;
    idle = λ x. refl;
    live = λ x. absurd (omega arith);
    early = λ x. absurd (omega arith);
    waits = λ x. inr refl;
  }

  cancelled_entry :
      (g : Bool → Bool) (t r i : ℕ) (os : Orders) (b b' : B) (stops : List ℕ)
      → IsSound laws t r os b stops
      → owing t r i ≡ 0
      → laws.shares_of i b' ≡ 0
      → ((j : ℕ) → (j == i) ≡ false → laws.shares_of j b' ≡ laws.shares_of j b)
      → IsSound laws t r (update i (emptied g) os) b' (erase_first i stops)
  cancelled_entry g t r i os b b' stops s z h o =
      one_change t r r i (emptied g) os b b' stops (erase_first i stops) s
        (λ n e q.
          let gone = erase_first-gone i os stops s.parked in
          subst (λ p. Sound (laws.shares_of i b') (owing t r i) p i (emptied g n)) (sym gone)
            (subst (λ x. Sound (laws.shares_of i b') x false i (emptied g n)) (sym z)
              (emptied-Sound g (laws.shares_of i b) (laws.shares_of i b') (member i stops) i n
                (subst (λ x. Sound (laws.shares_of i b) x (member i stops) i n) z q) h)))
        (λ j kn e. (o j e, (refl, member-erase_first j i stops)))
        (erase_first-Parked i os stops s.parked) s.there
        (λ w. elim (Bool-cases (member t (erase_first i stops))) [
          | inl u ↦
              absurd (let v = member-erase_first t i stops u in let a = s.aloft w in ground arith)
          | inr u ↦ u
        ])

  abbrev unlist : Meta → Meta
  unlist x = record x { in_book = false }

  abbrev clear : Meta → Meta
  clear x = record x {
    resting = 0;
    hidden = 0;
    cancelled_shares = add32 x.cancelled_shares (add32 x.resting x.hidden);
  }

  abbrev call_off : Meta → Meta
  call_off x = record x { state = cancelled }

  -- An order that is not being matched is cancelled.
  pub cancel_meta-Good :
      (t r i : ℕ) (m : Meta) (k : Matcher B)
      → Good laws t r k
      → lookup i k.orders ≡ some m
      → owing t r i ≡ 0
      → Good laws t r (cancel_meta ops i m k)
  unfolding cancel_meta leave_book transition change
  cancel_meta-Good t r i m k s e z =
      let os = k.orders in
      let b = k.book in
      let stops = k.pending_stops in
      let q =
        lookup-Sound (λ j. laws.shares_of j b) (owing t r) (λ j. member j stops) i os m s.orders
          e in
      elim (Bool-cases m.in_book) [
        | inl u ↦ rw u (
            subst
              (λ x.
                IsSound laws t r (update i call_off (update i clear (update i unlist os)))
                  (ops.remove x b) (erase_first x stops))
              (sym q.named)
              (fused t r i call_off clear (update i unlist os) (ops.remove i b)
                (erase_first i stops)
                (fused t r i (λ x. call_off (clear x)) unlist os (ops.remove i b)
                  (erase_first i stops)
                  (cancelled_entry (λ x. false) t r i os b (ops.remove i b) stops s z
                    (let l = laws.remove-shares i i b in ground arith)
                    (λ j d. let l = laws.remove-shares i j b in ground arith)))))
        | inr u ↦ rw u (
            subst
              (λ x.
                IsSound laws t r (update i call_off (update i clear os)) b (erase_first x stops))
              (sym q.named)
              (fused t r i call_off clear os b (erase_first i stops) (
                cancelled_entry (λ x. x) t r i os b b stops s z (q.agrees ∙ q.absent u)
                  (λ j d. refl))))
      ]

  -- A change of one order that is looked up.
  pub one_change_at :
      (t r i : ℕ) (m : Meta) (f : Meta → Meta) (os : Orders) (b b' : B) (stops : List ℕ)
      → IsSound laws t r os b stops
      → lookup i os ≡ some m
      → Sound (laws.shares_of i b') (owing t r i) (member i stops) i (f m)
      → ((j : ℕ) → known j os ≡ true → (j == i) ≡ false → laws.shares_of j b' ≡ laws.shares_of j b)
      → IsSound laws t r (update i f os) b' stops
  one_change_at t r i m f os b b' stops s e a o =
      one_change t r r i f os b b' stops stops s
        (λ n e' q.
          subst (λ x. Sound (laws.shares_of i b') (owing t r i) (member i stops) i (f x))
            (ap (λ x. current x m) (sym e ∙ e')) a)
        (λ j kn d. (o j kn d, (refl, λ z. z))) s.parked s.there s.aloft
