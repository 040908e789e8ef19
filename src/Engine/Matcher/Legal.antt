-- ===== src/Engine/Matcher/Legal.antt =====
-- In a sound engine every move of a state is legal, so no assertion fails.
pub mod Loop
pub mod Entry
pub mod Runs
use itchbook.Base.{
  ℕ, zero, suc, ◌+◌, ◌-◌, ◌*◌, ◌/◌, ◌%◌, ◌^◌, ◌≤◌, ◌<◌, min, ◌≡◌, refl, sym, ap, subst, ◌∙◌, ◌≢◌,
  ◌↔◌, ◌⊎◌, inl, inr, Bool, true, false, not, ◌&&◌, ◌||◌, Option, none, some, List, [], ◌∷◌, ◌++◌,
  map, arith, ltb, leb, ◌==◌, if◌then◌else◌, Bool-cases, length, length-append,
}
use itchbook.Engine.OrderTypes.{
  OrderType, State, fresh, accepted, partially_filled, filled, cancelled, rejected, is_terminal,
  legal_transition, Stp, no_prevention, cancel_newest, cancel_oldest, cancel_both, Request, Result,
  Reject, to_char, opposite, can_rest, no_result, fok_unfillable, no_liquidity,
}
use itchbook.Engine.Matcher.{
  Resting, BookOps, Meta, Orders, Matcher, lookup, update, change, transition, legal_for, crosses,
}
use itchbook.Engine.Matcher.Orders.{
  smaller, leave_book, cancel_meta, refresh_iceberg, settle_maker, rest, fill_inside, fill_outside,
  prevents, prevent, against, facing, round, match_from, match,
}
use itchbook.Engine.Matcher.Run.{current}
use itchbook.Engine.Matcher.Sound.{is_live, is_early, BookLaws, Sound, member, owing, Good, Quiet}
use itchbook.Engine.Matcher.Sound.Lists.{lookup-update}
use itchbook.Engine.Matcher.Sound.Fills.{entry_at, resting-entered}

pub lookup-elsewhere :
    (j i : ℕ) (f : Meta → Meta) (os : Orders)
    → (j == i) ≡ false
    → lookup j (update i f os) ≡ lookup j os
unfolding lookup update
lookup-elsewhere j i f [] h = refl
lookup-elsewhere j i f ((l, m) ∷ os) h = elim (Bool-cases (i == l)) [
  | inl t ↦ let u : (j == l) ≡ false = ground arith in rw (t, lookup, u) refl
  | inr t ↦ elim (Bool-cases (j == l)) [
    | inl u ↦ rw (t, lookup, u) refl
    | inr u ↦ rw (t, lookup, u) (lookup-elsewhere j i f os h)
  ]
]

module _ {B : Type 0} {ops : BookOps B} (laws : BookLaws ops) where
  abbrev pub Steady : Matcher B → Type 0
  Steady k = k.aborted ≡ false

  legal_step :
      (k : Matcher B) (to : State) (l : Option Meta) (m : Meta)
      → Steady k
      → l ≡ some m
      → legal_transition m.state to ≡ true
      → (k.aborted || not (legal_for l to)) ≡ false
  legal_step k to none m a e h = absurd (ground arith)
  legal_step k to (some n) m a e h =
      let same : n ≡ m = ap (λ x. current x m) e in
      let h' : legal_transition n.state to ≡ true =
        subst (λ x. legal_transition x.state to ≡ true) (sym same) h in
      ground arith

  pub transition-Steady :
      (i : ℕ) (to : State) (m : Meta) (k : Matcher B)
      → Steady k
      → lookup i k.orders ≡ some m
      → legal_transition m.state to ≡ true
      → Steady (transition i to k)
  unfolding transition change
  transition-Steady i to m k a e h = legal_step k to (lookup i k.orders) m a e h

  may_cancel : (s : State) → is_terminal s ≡ false → legal_transition s cancelled ≡ true
  may_cancel fresh h = refl
  may_cancel accepted h = refl
  may_cancel partially_filled h = refl
  may_cancel filled h = absurd (ground arith)
  may_cancel cancelled h = absurd (ground arith)
  may_cancel rejected h = absurd (ground arith)

  may_fill :
      (s : State)
      → is_live s ≡ true
      → (legal_transition s filled ≡ true) × (legal_transition s partially_filled ≡ true)
  may_fill accepted h = (refl, refl)
  may_fill partially_filled h = (refl, refl)
  may_fill fresh h = absurd (ground arith)
  may_fill filled h = absurd (ground arith)
  may_fill cancelled h = absurd (ground arith)
  may_fill rejected h = absurd (ground arith)

  abbrev unlist : Meta → Meta
  unlist x = record x { in_book = false }

  pub cancel_meta-Steady :
      (i : ℕ) (m : Meta) (k : Matcher B)
      → Steady k
      → lookup i k.orders ≡ some m
      → is_terminal m.state ≡ false
      → Steady (cancel_meta ops i m k)
  unfolding cancel_meta leave_book change
  cancel_meta-Steady i m k a e h = elim (Bool-cases m.in_book) [
    | inl u ↦ rw u (
        transition-Steady i cancelled _ _ a
          (lookup-update i _ _ _ (lookup-update i unlist k.orders m e)) (may_cancel m.state h))
    | inr u ↦ rw u (
        transition-Steady i cancelled _ _ a (lookup-update i _ k.orders m e) (may_cancel m.state h))
  ]

  pub settle_maker-Steady :
      (i : ℕ) (m : Meta) (k : Matcher B)
      → Steady k
      → lookup i k.orders ≡ some m
      → is_live m.state ≡ true
      → Steady (settle_maker ops i k)
  unfolding settle_maker refresh_iceberg change
  settle_maker-Steady i m k a e h =
      let (f, p) = may_fill m.state h in
      elim (Bool-cases (m.resting == 0)) [
        | inl u ↦ elim (Bool-cases (ltb 0 m.hidden)) [
          | inl v ↦
              rw (settle_maker, e, u, v)
                (transition-Steady i partially_filled _ _ a
                  (lookup-update i _ _ _ (lookup-update i unlist k.orders m e)) p)
          | inr v ↦
              rw (settle_maker, e, u, v)
                (transition-Steady i filled _ _ a (lookup-update i unlist k.orders m e) f)
        ]
        | inr u ↦ rw (settle_maker, e, u) (transition-Steady i partially_filled m k a e p)
      ]
