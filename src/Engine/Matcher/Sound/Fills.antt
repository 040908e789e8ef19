-- ===== src/Engine/Matcher/Sound/Fills.antt =====
-- Fills keep an engine sound.
use itchbook.Base.{
  ℕ, suc, ◌+◌, ◌-◌, ◌≤◌, ◌<◌, ◌≡◌, refl, sym, subst, ◌∙◌, inl, inr, Bool, true, false, Option, none,
  some, List, arith, ltb, ◌==◌, Bool-cases,
}
use itchbook.Base.Words.{add32, sub32}
use itchbook.Engine.OrderTypes.{State, partially_filled, filled, is_terminal, Request, to_char}
use itchbook.Engine.Matcher.{
  Resting, BookOps, Meta, Orders, Matcher, lookup, update, change, transition,
}
use itchbook.Engine.Matcher.Orders.{
  smaller, refresh_iceberg, settle_maker, fill_inside, fill_outside,
}
use itchbook.Engine.Matcher.Sound.{BookLaws, Sound, member, known, owing, IsSound, Good}
use itchbook.Engine.Matcher.Sound.Lists.{lookup-Sound, lookup-known}
use itchbook.Engine.Matcher.Sound.Moves.{one_change, one_change_at, fused, transition-Good}

module _ {B : Type 0} {ops : BookOps B} (laws : BookLaws ops) where
  pub entry_at :
      (t r i : ℕ) (m : Meta) (k : Matcher B)
      → Good laws t r k
      → lookup i k.orders ≡ some m
      → Sound (laws.shares_of i k.book) (owing t r i) (member i k.pending_stops) i m
  entry_at t r i m k s e =
      lookup-Sound (λ j. laws.shares_of j k.book) (owing t r) (λ j. member j k.pending_stops) i
        k.orders m s.orders e

  abbrev unlist : Meta → Meta
  unlist x = record x { in_book = false }

  abbrev next_slice : ℕ → Meta → Meta
  next_slice n x = record x {
    hidden = x.hidden - smaller x.hidden x.req.display;
    resting = smaller x.hidden x.req.display;
    sequence = n;
    in_book = true;
  }

  abbrev become : State → Meta → Meta
  become to x = record x { state = to }

  -- The slice that an iceberg shows next.
  refreshed-Sound :
      (h o : ℕ) (p : Bool) (i n : ℕ) (m : Meta)
      → Sound h o p i m
      → m.resting ≡ 0
      → o ≡ 0
      → p ≡ false
      → (h' : ℕ) → h' ≡ smaller m.hidden m.req.display
      → Sound h' o p i (become partially_filled (next_slice n (unlist m)))
  refreshed-Sound h o p i n m s e z f h' g = record {
    named = s.named;
    size = s.size;
    agrees = g;
    absent = λ x. absurd (ground arith);
    sum = ground (arith, s.sum);
    done = λ x. absurd (ground arith);
    idle = λ x. absurd (omega arith);
    live = λ x. refl;
    early = λ x. absurd (omega arith);
    waits = λ x. absurd (ground arith);
  }

  refreshed-Good :
      (t r i : ℕ) (m : Meta) (k : Matcher B)
      → Good laws t r k
      → lookup i k.orders ≡ some m
      → m.resting ≡ 0
      → owing t r i ≡ 0
      → member i k.pending_stops ≡ false
      → Good laws t r (refresh_iceberg ops i m (change i unlist k))
  unfolding refresh_iceberg transition change
  refreshed-Good t r i m k s e z o p =
      let q = entry_at t r i m k s e in
      let slice = smaller m.hidden m.req.display in
      let b' : B = ops.add i (to_char m.req.side) m.req.price slice k.book in
      let h0 : laws.shares_of i k.book ≡ 0 = q.agrees ∙ z in
      subst
        (λ x.
          IsSound laws t r
            (update i (become partially_filled)
              (update i (next_slice (k.seq + 1)) (update i unlist k.orders)))
            (ops.add x (to_char m.req.side) m.req.price slice k.book) k.pending_stops)
        (sym q.named)
        (fused laws t r i (become partially_filled) (next_slice (k.seq + 1))
          (update i unlist k.orders) b' k.pending_stops
          (fused laws t r i (λ x. become partially_filled (next_slice (k.seq + 1) x)) unlist
            k.orders b' k.pending_stops
            (one_change_at laws t r i m
              (λ x. become partially_filled (next_slice (k.seq + 1) (unlist x))) k.orders k.book b'
              k.pending_stops s e
              (refreshed-Sound (laws.shares_of i k.book) (owing t r i) (member i k.pending_stops) i
                (k.seq + 1) m q z o p (laws.shares_of i b')
                (let l = laws.add-shares i (to_char m.req.side) m.req.price slice i k.book h0 in
                  ground arith))
              (λ j kn d.
                let l = laws.add-shares i (to_char m.req.side) m.req.price slice j k.book h0 in
                ground arith))))

  filled-Good :
      (t r i : ℕ) (m : Meta) (k : Matcher B)
      → Good laws t r k
      → lookup i k.orders ≡ some m
      → m.resting + m.hidden ≡ 0
      → owing t r i ≡ 0
      → Good laws t r (transition i filled (change i unlist k))
  unfolding transition change
  filled-Good t r i m k s e z o =
      let q = entry_at t r i m k s e in
      fused laws t r i (become filled) unlist k.orders k.book k.pending_stops (
        one_change_at laws t r i m (λ x. become filled (unlist x)) k.orders k.book k.book
          k.pending_stops s e
          (record {
            named = q.named;
            size = q.size;
            agrees = q.agrees;
            absent = λ x. omega arith;
            sum = q.sum;
            done = λ x. z;
            idle = q.idle;
            live = λ x. absurd (omega arith);
            early = λ x. absurd (omega arith);
            waits = λ x. inr refl;
          })
          (λ j kn d. refl))

  settle_step :
      (t r i : ℕ) (k : Matcher B) (l : Option Meta)
      → lookup i k.orders ≡ l
      → Good laws t r k
      → owing t r i ≡ 0
      → member i k.pending_stops ≡ false
      → Good laws t r (settle_maker ops i k)
  unfolding settle_maker
  settle_step t r i k none e s o p = rw (settle_maker, e) s
  settle_step t r i k (some m) e s o p = elim (Bool-cases (m.resting == 0)) [
    | inl u ↦ elim (Bool-cases (ltb 0 m.hidden)) [
      | inl v ↦ rw (settle_maker, e, u, v) (refreshed-Good t r i m k s e (ground arith) o p)
      | inr v ↦ rw (settle_maker, e, u, v) (filled-Good t r i m k s e (ground arith) o)
    ]
    | inr u ↦
        rw (settle_maker, e, u)
          (transition-Good laws t r i partially_filled k s (λ n e'. inl (refl, p)) o)
  ]

  pub settle_maker-Good :
      (t r i : ℕ) (k : Matcher B)
      → Good laws t r k
      → owing t r i ≡ 0
      → member i k.pending_stops ≡ false
      → Good laws t r (settle_maker ops i k)
  settle_maker-Good t r i k s o p = settle_step t r i k (lookup i k.orders) refl s o p

  abbrev pub sold : ℕ → Meta → Meta
  sold qty x = record x { resting = sub32 x.resting qty; filled_shares = add32 x.filled_shares qty }

  abbrev pub bought : ℕ → Meta → Meta
  bought qty x = record x { filled_shares = add32 x.filled_shares qty }

  -- An order of which shares rest has entered, is alive and is not parked.
  pub resting-entered :
      (h o : ℕ) (p : Bool) (i : ℕ) (m : Meta)
      → Sound h o p i m
      → 0 < h
      → (m.entered ≡ true) × ((is_terminal m.state ≡ false) × ((p ≡ false) × (o ≡ 0)))
  resting-entered h o p i m s z =
      let a : m.entered ≡ true = ground (arith, s.sum, s.agrees) in
      let b : is_terminal m.state ≡ false = ground (arith, s.done, s.agrees) in
      let c : p ≡ false = ground (arith, s.waits) in
      let d : o ≡ 0 = ground (arith, s.idle, s.agrees) in (a, (b, (c, d)))

  -- Shares of an order that rests are taken.
  sold-Sound :
      (h h' o : ℕ) (p : Bool) (i qty : ℕ) (m : Meta)
      → Sound h o p i m
      → 0 < h
      → qty ≤ h
      → h' ≡ h - qty
      → Sound h' o p i (sold qty m)
  sold-Sound h h' o p i qty m s z l e =
      let (a, (b, (c, d))) = resting-entered h o p i m s z in
      let big = s.sum in
      record {
        named = s.named;
        size = s.size;
        agrees = ground (arith, s.sum, s.size, s.agrees);
        absent = λ x. absurd (let y = s.absent x in omega (arith, s.agrees, y));
        sum = ground (arith, s.sum, s.size, s.agrees);
        done = λ x. absurd (ground arith);
        idle = λ x. absurd (omega arith);
        live = λ x. s.live (omega (arith, s.agrees));
        early = λ x. absurd (omega arith);
        waits = λ x. absurd (ground arith);
      }

  pub sold-Good :
      (t r i qty : ℕ) (m : Meta) (k : Matcher B)
      → Good laws t r k
      → lookup i k.orders ≡ some m
      → 0 < laws.shares_of i k.book
      → qty ≤ laws.shares_of i k.book
      → IsSound laws t r (update i (sold qty) k.orders) (ops.take i qty k.book) k.pending_stops
  sold-Good t r i qty m k s e z l =
      one_change_at laws t r i m (sold qty) k.orders k.book (ops.take i qty k.book) k.pending_stops
        s e
        (sold-Sound (laws.shares_of i k.book) _ (owing t r i) (member i k.pending_stops) i qty m
          (entry_at t r i m k s e) z l (let w = laws.take-shares i qty i k.book in ground arith))
        (λ j kn d. let w = laws.take-shares i qty j k.book in ground arith)

  -- The taker gets its shares, and so many fewer are being matched.
  bought-Sound :
      (h r : ℕ) (p : Bool) (i qty : ℕ) (m : Meta)
      → Sound h (suc r) p i m
      → qty ≤ r
      → Sound h (suc (r - qty)) p i (bought qty m)
  bought-Sound h r p i qty m s l = record {
    named = s.named;
    size = s.size;
    agrees = s.agrees;
    absent = s.absent;
    sum = ground (arith, s.sum, s.size);
    done = s.done;
    idle = λ x. s.idle (omega arith);
    live = s.live;
    early = λ x. s.early (omega arith);
    waits = s.waits;
  }

  pub owing_self : (t r : ℕ) → owing t r t ≡ r
  owing_self t r = ground arith

  bought-Good :
      (t r qty : ℕ) (os : Orders) (b b' : B) (stops : List ℕ)
      → IsSound laws t (suc r) os b stops
      → qty ≤ r
      → laws.shares_of t b' ≡ laws.shares_of t b
      → ((j : ℕ) → known j os ≡ true → (j == t) ≡ false → laws.shares_of j b' ≡ laws.shares_of j b)
      → IsSound laws t (suc (r - qty)) (update t (bought qty) os) b' stops
  bought-Good t r qty os b b' stops s l h o =
      one_change laws t (suc r) (suc (r - qty)) t (bought qty) os b b' stops stops s
        (λ m e q.
          subst (λ x. Sound (laws.shares_of t b') x (member t stops) t (bought qty m))
            (sym (owing_self t (suc (r - qty))))
            (subst (λ x. Sound x (suc (r - qty)) (member t stops) t (bought qty m)) (sym h)
              (bought-Sound (laws.shares_of t b) r (member t stops) t qty m
                (subst (λ x. Sound (laws.shares_of t b) x (member t stops) t m)
                  (owing_self t (suc r)) q)
                l)))
        (λ j kn d. (o j kn d, (ground arith, λ x. x))) s.parked (λ z. s.there (omega arith))
        (λ z. s.aloft (omega arith))

  -- A fill between two orders of the engine.
  pub fill_inside-Good :
      (req : Request) (r qty : ℕ) (maker : Meta) (front : Resting) (k : Matcher B)
      → Good laws req.id (suc r) k
      → lookup front.ref k.orders ≡ some maker
      → 0 < laws.shares_of front.ref k.book
      → qty ≤ laws.shares_of front.ref k.book
      → qty ≤ r
      → Good laws req.id (suc (r - qty)) (fill_inside ops req maker front qty k)
  unfolding fill_inside change
  fill_inside-Good req r qty maker front k s e h l n =
      let i = front.ref in
      let (a, (b, (c, d))) =
        resting-entered (laws.shares_of i k.book) (owing req.id (suc r) i)
          (member i k.pending_stops) i maker (entry_at req.id (suc r) i maker k s e) h in
      settle_maker-Good req.id (suc (r - qty)) i _
        (bought-Good req.id r qty (update i (sold qty) k.orders) (ops.take i qty k.book)
          (ops.take i qty k.book) k.pending_stops (sold-Good req.id (suc r) i qty maker k s e h l) n
          refl (λ j kn d'. refl))
        (ground arith) c

  -- A fill against an order that the engine does not own.
  pub fill_outside-Good :
      (req : Request) (r qty : ℕ) (front : Resting) (k : Matcher B)
      → Good laws req.id (suc r) k
      → lookup front.ref k.orders ≡ none
      → qty ≤ r
      → Good laws req.id (suc (r - qty)) (fill_outside ops req front qty k)
  unfolding fill_outside change
  fill_outside-Good req r qty front k s e n =
      let away : (j : ℕ)
          → known j k.orders ≡ true
          → laws.shares_of j (ops.take front.ref qty k.book) ≡ laws.shares_of j k.book =
        λ j kj.
          let w = laws.take-shares front.ref qty j k.book in
          let v = lookup-known front.ref j k.orders e kj in ground arith in
      bought-Good req.id r qty k.orders k.book (ops.take front.ref qty k.book) k.pending_stops s n
        (away req.id (s.there (omega arith))) (λ j kj d. away j kj)
