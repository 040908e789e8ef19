-- ===== src/Engine/Matcher/Sound/Fair.antt =====
-- What the fills of the matching loop are like.
use itchbook.Base.{
  ℕ, zero, suc, ◌+◌, ◌-◌, ◌≤◌, ◌≡◌, ◌≢◌, ◌⊎◌, refl, sym, subst, inl, inr, true, false, ◌&&◌, Option,
  none, some, List, [], ◌∷◌, ◌++◌, arith, ltb, ◌==◌, Bool-cases, length, length-append,
}
use itchbook.Engine.OrderTypes.{
  Side, buy, sell, OrderType, limit, market, ioc, fok, stop_market, stop_limit, Stp, no_prevention,
  cancel_newest, cancel_oldest, cancel_both, Request, Fill,
}
use itchbook.Engine.Matcher.{Resting, BookOps, Meta, Matcher, lookup, crosses, change, transition}
use itchbook.Engine.Matcher.Orders.{
  smaller, leave_book, cancel_meta, refresh_iceberg, settle_maker, fill_inside, fill_outside,
  prevents, prevent, against, facing, round, match_from, match,
}

-- The prices at which an order may trade.
abbrev pub Accepts : Side → OrderType → ℕ → ℕ → Type 0
Accepts side market limit_price p = Unit {0}
Accepts buy type limit_price p = p ≤ limit_price
Accepts sell type limit_price p = limit_price ≤ p

-- A fill of the taker at a price that it accepts, and with nobody that its self-trade prevention
-- rules out.
pub record Fair (req : Request) (type : OrderType) (f : Fill) : Type 0 where
  pub ours : (f.taker ≡ req.id) × (f.taker_owner ≡ req.owner)
  pub priced : Accepts req.side type req.price f.price
  pub apart : (req.stp ≡ no_prevention) ⊎ ((f.external ≡ true) ⊎ (f.maker_owner ≢ req.owner))

-- The shares of the fills from the n-th on.
abbrev pub traded : ℕ → List Fill → ℕ
traded n [] = 0
traded zero (f ∷ fs) = f.shares + traded zero fs
traded (suc n) (f ∷ fs) = traded n fs

traded-snoc :
    (n : ℕ) (fs : List Fill) (f : Fill)
    → n ≤ length fs
    → traded n (fs ++ (f ∷ [])) ≡ traded n fs + f.shares
traded-snoc zero [] f h = omega arith
traded-snoc (suc n) [] f h = absurd (omega arith)
traded-snoc zero (x ∷ fs) f h = omega (arith, traded-snoc zero fs f (omega arith))
traded-snoc (suc n) (x ∷ fs) f h = traded-snoc n fs f (omega arith)

none_traded : (fs : List Fill) → traded (length fs) fs ≡ 0
none_traded [] = refl
none_traded (f ∷ fs) = none_traded fs

crosses-Accepts :
    (side : Side) (type : OrderType) (req : Request) (p : ℕ)
    → req.side ≡ side
    → crosses req type p ≡ true
    → Accepts side type req.price p
unfolding crosses
crosses-Accepts side market req p e c = tt
crosses-Accepts buy limit req p e c = let d = rw e at c in ground arith
crosses-Accepts buy ioc req p e c = let d = rw e at c in ground arith
crosses-Accepts buy fok req p e c = let d = rw e at c in ground arith
crosses-Accepts buy stop_market req p e c = let d = rw e at c in ground arith
crosses-Accepts buy stop_limit req p e c = let d = rw e at c in ground arith
crosses-Accepts sell limit req p e c = let d = rw e at c in ground arith
crosses-Accepts sell ioc req p e c = let d = rw e at c in ground arith
crosses-Accepts sell fok req p e c = let d = rw e at c in ground arith
crosses-Accepts sell stop_market req p e c = let d = rw e at c in ground arith
crosses-Accepts sell stop_limit req p e c = let d = rw e at c in ground arith

-- All fills from the n-th on.
abbrev pub AllFrom : (Fill → Type 0) → ℕ → List Fill → Type 0
AllFrom P n [] = Unit {0}
AllFrom P zero (f ∷ fs) = P f × AllFrom P zero fs
AllFrom P (suc n) (f ∷ fs) = AllFrom P n fs

AllFrom-snoc :
    (P : Fill → Type 0) (n : ℕ) (fs : List Fill) (f : Fill)
    → P f
    → AllFrom P n fs
    → AllFrom P n (fs ++ (f ∷ []))
AllFrom-snoc P zero [] f p a = (p, tt)
AllFrom-snoc P (suc zero) [] f p a = tt
AllFrom-snoc P (suc (suc n)) [] f p a = tt
AllFrom-snoc P zero (x ∷ fs) f p (q, a) = (q, AllFrom-snoc P zero fs f p a)
AllFrom-snoc P (suc n) (x ∷ fs) f p a = AllFrom-snoc P n fs f p a

none_yet : (P : Fill → Type 0) (fs : List Fill) → AllFrom P (length fs) fs
none_yet P [] = tt
none_yet P (f ∷ fs) = none_yet P fs

module _ {B : Type 0} (ops : BookOps B) where
  prevents-apart :
      (stp : Stp) (a b : ℕ) → (prevents ops stp && a == b) ≡ false → (stp ≡ no_prevention) ⊎ (a ≢ b)
  prevents-apart no_prevention a b e = inl refl
  prevents-apart cancel_newest a b e = inr (λ d. absurd (ground arith))
  prevents-apart cancel_oldest a b e = inr (λ d. absurd (ground arith))
  prevents-apart cancel_both a b e = inr (λ d. absurd (ground arith))

  settle_fills :
      (i : ℕ) (k : Matcher B) (l : Option Meta)
      → lookup i k.orders ≡ l
      → (settle_maker ops i k).fills ≡ k.fills
  unfolding settle_maker refresh_iceberg transition change
  settle_fills i k none e = rw (settle_maker, e) refl
  settle_fills i k (some m) e = elim (Bool-cases (m.resting == 0)) [
    | inl u ↦ elim (Bool-cases (ltb 0 m.hidden)) [
      | inl v ↦ rw (settle_maker, e, u, v) refl
      | inr v ↦ rw (settle_maker, e, u, v) refl
    ]
    | inr u ↦ rw (settle_maker, e, u) refl
  ]

  cancel_meta-fills : (i : ℕ) (m : Meta) (k : Matcher B) → (cancel_meta ops i m k).fills ≡ k.fills
  unfolding cancel_meta leave_book transition change
  cancel_meta-fills i m k = elim (Bool-cases m.in_book) [ inl u ↦ rw u refl | inr u ↦ rw u refl ]

  module _ (req : Request) (type : OrderType) (n total : ℕ) where
    -- The fills from the n-th on are fair, and with the shares left they make the total.
    record Filled (fs : List Fill) (r : ℕ) : Type 0 where
      fair : AllFrom (Fair req type) n fs
      long : n ≤ length fs
      whole : traded n fs + r ≡ total

    one_more :
        (fs : List Fill) (f : Fill) (r : ℕ)
        → Fair req type f
        → f.shares ≤ r
        → Filled fs r
        → Filled (fs ++ (f ∷ [])) (r - f.shares)
    one_more fs f r p h a = record {
      fair = AllFrom-snoc (Fair req type) n fs f p a.fair;
      long = let l = a.long in omega (arith, length-append {0} fs (f ∷ []));
      whole = let l = a.long in let w = a.whole in omega (arith, traded-snoc n fs f l);
    }

    fill_inside-Filled :
        (maker : Meta) (front : Resting) (qty r : ℕ) (k : Matcher B)
        → crosses req type front.price ≡ true
        → qty ≤ r
        → (prevents ops req.stp && maker.req.owner == req.owner) ≡ false
        → Filled k.fills r
        → Filled (fill_inside ops req maker front qty k).fills (r - qty)
    unfolding fill_inside change
    fill_inside-Filled maker front qty r k c h p a =
        subst (λ fs. Filled fs (r - qty)) (sym (settle_fills front.ref _ _ refl))
          (one_more k.fills _ r
            (record {
              ours = (refl, refl);
              priced = crosses-Accepts req.side type req front.price refl c;
              apart = elim (prevents-apart req.stp maker.req.owner req.owner p) [
                | inl e ↦ inl e
                | inr e ↦ inr (inr e)
              ];
            })
            h a)

    fill_outside-Filled :
        (front : Resting) (qty r : ℕ) (k : Matcher B)
        → crosses req type front.price ≡ true
        → qty ≤ r
        → Filled k.fills r
        → Filled (fill_outside ops req front qty k).fills (r - qty)
    unfolding fill_outside change
    fill_outside-Filled front qty r k c h a =
        one_more k.fills _ r
          (record {
            ours = (refl, refl);
            priced = crosses-Accepts req.side type req front.price refl c;
            apart = inr (inl refl);
          })
          h a

    prevent-Filled :
        (stp : Stp) (front : Resting) (m : Meta) (k : Matcher B) (r : ℕ)
        → Filled k.fills r
        → let l = prevent ops stp front m k r in Filled l.engine.fills l.remaining
    unfolding prevent
    prevent-Filled no_prevention front m k r a = a
    prevent-Filled cancel_newest front m k r a = a
    prevent-Filled cancel_oldest front m k r a =
        subst (λ fs. Filled fs r) (sym (cancel_meta-fills front.ref m k)) a
    prevent-Filled cancel_both front m k r a =
        subst (λ fs. Filled fs r) (sym (cancel_meta-fills front.ref m k)) a

    against-Filled :
        (front : Resting) (m : Option Meta) (k : Matcher B) (r : ℕ)
        → crosses req type front.price ≡ true
        → Filled k.fills r
        → let l = against ops req front m k r in Filled l.engine.fills l.remaining
    unfolding against
    against-Filled front none k r c a =
        fill_outside-Filled front (smaller r front.shares) r k c (ground arith) a
    against-Filled front (some m) k r c a =
        elim (Bool-cases (prevents ops req.stp && m.req.owner == req.owner)) [
          | inl t ↦ rw t (prevent-Filled req.stp front m k r a)
          | inr t ↦
              rw t (fill_inside-Filled m front (smaller r front.shares) r k c (ground arith) t a)
        ]

    facing-Filled :
        (o : Option Resting) (k : Matcher B) (r : ℕ)
        → Filled k.fills r
        → let l = facing ops req type o k r in Filled l.engine.fills l.remaining
    facing-Filled none k r a = a
    facing-Filled (some front) k r a = elim (Bool-cases (crosses req type front.price)) [
      | inl t ↦ rw t (against-Filled front (lookup front.ref k.orders) k r t a)
      | inr t ↦ rw t a
    ]

    round-Filled :
        (k : Matcher B) (r : ℕ)
        → Filled k.fills r
        → let l = round ops req type k r in Filled l.engine.fills l.remaining
    unfolding round
    round-Filled k r a = elim (Bool-cases (r == 0)) [
      | inl t ↦ rw t a
      | inr t ↦ rw t (facing-Filled _ k r a)
    ]

    match_from-Filled :
        (m : ℕ) (k : Matcher B) (r : ℕ)
        → Filled k.fills r
        → let l = match_from ops m req type k r in Filled l.engine.fills l.remaining
    unfolding match_from
    match_from-Filled zero k r a = a
    match_from-Filled (suc m) k r a =
        let l = round ops req type k r in
        let b = round-Filled k r a in
        elim (Bool-cases l.again) [
          | inl t ↦ rw t (match_from-Filled m l.engine l.remaining b)
          | inr t ↦ rw t b
        ]

  -- On any book, each fill that the matching loop adds is of the taker, at any price if it is a
  -- market order and else not above the price of a buyer nor below that of a seller, and its maker
  -- is outside of the engine or of another owner if self-trade prevention is on; and the shares of
  -- these fills and the shares left are together what was to be traded.
  pub match-fills :
      (req : Request) (type : OrderType) (k : Matcher B) (r : ℕ)
      → let l = match ops req type k r in
        AllFrom (Fair req type) (length k.fills) l.engine.fills
        × (traded (length k.fills) l.engine.fills + l.remaining ≡ r)
  unfolding match
  match-fills req type k r =
      let a = match_from-Filled req type (length k.fills) r _ k r (record {
        fair = none_yet (Fair req type) k.fills;
        long = omega arith;
        whole = omega (arith, none_traded k.fills);
      }) in
      (a.fair, a.whole)
