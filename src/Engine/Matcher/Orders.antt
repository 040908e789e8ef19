-- ===== src/Engine/Matcher/Orders.antt =====
-- `cancel_meta`, `refresh_iceberg`, `rest` and the matching loop of engine/matcher.hpp.
use itchbook.Base.{
  ℕ, zero, suc, ◌+◌, ◌-◌, ◌*◌, ◌%◌, ◌^◌, Bool, true, false, ◌&&◌, Option, none, some, List, [], ◌∷◌,
  ◌++◌, ltb, ◌==◌, if◌then◌else◌,
}
use itchbook.Base.Words.{add32, sub32, add64}
use itchbook.Engine.OrderTypes.{
  opposite, to_char, OrderType, partially_filled, filled, cancelled, Stp, no_prevention,
  cancel_oldest, cancel_both, Request,
}
use itchbook.Engine.Matcher.{Resting, BookOps, Meta, lookup, Matcher, change, transition, crosses}

-- The first of the entries that is `i` is erased in place.
unfoldable pub erase_first : ℕ → List ℕ → List ℕ
erase_first i [] = []
erase_first i (x ∷ xs) = if x == i then xs else x ∷ erase_first i xs

abbrev mul32 : ℕ → ℕ → ℕ
mul32 a b = a * b % 2 ^ 32

abbrev pub smaller : ℕ → ℕ → ℕ
smaller a b = if ltb a b then a else b

-- How a round of the matching loop ends: it is the last one, or there is another.
pub record Loop (B : Type 0) : Type 0 where
  pub again : Bool
  pub engine : Matcher B
  pub remaining : ℕ
  pub stp_killed : Bool

module _ {B : Type 0} (ops : BookOps B) where
  abbrev on_book : (B → B) → Matcher B → Matcher B
  on_book f k = record k { book = f k.book }

  unfoldable pub leave_book : ℕ → Meta → Matcher B → Matcher B
  leave_book i m k =
      if m.in_book
      then change i (λ x. record x { in_book = false }) (on_book (ops.remove m.req.id) k)
      else k

  unfoldable pub cancel_meta : ℕ → Meta → Matcher B → Matcher B
  cancel_meta i m k =
      let gone = add32 m.resting m.hidden in
      let k1 = leave_book i m k in
      let k2 =
        change i
          (λ x. record x {
            resting = 0;
            hidden = 0;
            cancelled_shares = add32 x.cancelled_shares (add32 x.resting x.hidden);
          })
          k1 in
      transition i cancelled (record k2 {
        cancelled_total = add64 k2.cancelled_total gone;
        pending_stops = erase_first m.req.id k2.pending_stops;
      })

  -- The next slice of an iceberg, at the back of the queue.
  unfoldable pub refresh_iceberg : ℕ → Meta → Matcher B → Matcher B
  refresh_iceberg i m k =
      let slice = smaller m.hidden m.req.display in
      let k1 =
        change i
          (λ x. record x {
            hidden = x.hidden - smaller x.hidden x.req.display;
            resting = smaller x.hidden x.req.display;
            sequence = k.seq + 1;
            in_book = true;
          })
          k in
      transition i partially_filled (record k1 {
        seq = k.seq + 1;
        book = ops.add m.req.id (to_char m.req.side) m.req.price slice k.book;
      })

  unfoldable pub rest : ℕ → Meta → ℕ → Matcher B → Matcher B
  rest i m remaining k =
      let slice =
        if ltb 0 m.req.display && ltb m.req.display remaining then m.req.display else remaining in
      let k1 =
        change i (λ x. record x { resting = slice; hidden = remaining - slice; in_book = true })
          k in
      record k1 { book = ops.add m.req.id (to_char m.req.side) m.req.price slice k.book }

  -- What follows for a maker once shares of it have traded.
  unfoldable pub settle_maker : ℕ → Matcher B → Matcher B
  settle_maker i k = elim (lookup i k.orders) [
    | none ↦ k
    | some m ↦
        if m.resting == 0
        then (let k1 = change i (λ x. record x { in_book = false }) k in
            if ltb 0 m.hidden then refresh_iceberg i m k1 else transition i filled k1)
        else transition i partially_filled k
  ]

  -- A fill against an order that the engine does not own.
  unfoldable pub fill_outside : Request → Resting → ℕ → Matcher B → Matcher B
  fill_outside req front qty k =
      let k1 = change req.id (λ x. record x { filled_shares = add32 x.filled_shares qty }) k in
      record k1 {
        book = ops.take front.ref qty k.book;
        filled_total = add64 k.filled_total qty;
        external_filled = add64 k.external_filled qty;
        fills =
            k.fills
            ++ (record {
              taker = req.id;
              maker = front.ref;
              taker_owner = req.owner;
              maker_owner = 0;
              price = front.price;
              shares = qty;
              maker_sequence = 0;
              match_number = k.match_no;
              external = true;
            }
                ∷ []);
        last_trade = front.price;
        has_last_trade = true;
      }

  -- A fill between two orders of the engine. Twice the quantity is computed in 32 bits.
  unfoldable pub fill_inside : Request → Meta → Resting → ℕ → Matcher B → Matcher B
  fill_inside req maker front qty k =
      let k1 =
        change front.ref
          (λ x. record x {
            resting = sub32 x.resting qty;
            filled_shares = add32 x.filled_shares qty;
          })
          k in
      let k2 = change req.id (λ x. record x { filled_shares = add32 x.filled_shares qty }) k1 in
      settle_maker front.ref (record k2 {
        book = ops.take front.ref qty k.book;
        filled_total = add64 k.filled_total (mul32 2 qty);
        fills =
            k.fills
            ++ (record {
              taker = req.id;
              maker = front.ref;
              taker_owner = req.owner;
              maker_owner = maker.req.owner;
              price = front.price;
              shares = qty;
              maker_sequence = maker.sequence;
              match_number = k.match_no;
              external = false;
            }
                ∷ []);
        last_trade = front.price;
        has_last_trade = true;
      })

  abbrev pub prevents : Stp → Bool
  prevents no_prevention = false
  prevents _ = true

  -- Self-trade prevention, before any shares move.
  unfoldable pub prevent : Stp → Resting → Meta → Matcher B → ℕ → Loop B
  prevent cancel_oldest front maker k remaining = record {
    again = true;
    engine = cancel_meta front.ref maker k;
    remaining = remaining;
    stp_killed = false;
  }
  prevent cancel_both front maker k remaining = record {
    again = false;
    engine = cancel_meta front.ref maker k;
    remaining = remaining;
    stp_killed = true;
  }
  prevent _ front maker k remaining = record {
    again = false;
    engine = k;
    remaining = remaining;
    stp_killed = true;
  }

  -- One round against the order that is next to trade.
  unfoldable pub against : Request → Resting → Option Meta → Matcher B → ℕ → Loop B
  against req front none k remaining =
      let qty = smaller remaining front.shares in
      record {
        again = true;
        engine = fill_outside req front qty k;
        remaining = remaining - qty;
        stp_killed = false;
      }
  against req front (some maker) k remaining =
      if prevents req.stp && maker.req.owner == req.owner
      then prevent req.stp front maker k remaining
      else (let qty = smaller remaining front.shares in
          record {
            again = true;
            engine = fill_inside req maker front qty k;
            remaining = remaining - qty;
            stp_killed = false;
          })

  abbrev pub over : Matcher B → ℕ → Loop B
  over k remaining = record { again = false; engine = k; remaining = remaining; stp_killed = false }

  abbrev pub facing : Request → OrderType → Option Resting → Matcher B → ℕ → Loop B
  facing req type none k remaining = over k remaining
  facing req type (some front) k remaining =
      if crosses req type front.price
      then against req front (lookup front.ref k.orders) k remaining
      else over k remaining

  unfoldable pub round : Request → OrderType → Matcher B → ℕ → Loop B
  round req type k remaining =
      if remaining == 0
      then over k remaining
      else facing req type (ops.best_order (to_char (opposite req.side)) k.book) k remaining

  -- Each round but the last takes shares, or cancels an order of the book; a refreshed slice costs
  -- shares. So twice the shares and the orders of the book bound the rounds.
  unfoldable pub match_from : ℕ → Request → OrderType → Matcher B → ℕ → Loop B
  match_from zero req type k remaining = over k remaining
  match_from (suc n) req type k remaining =
      let r = round req type k remaining in
      let next = match_from n req type r.engine r.remaining in if r.again then next else r

  unfoldable pub match : Request → OrderType → Matcher B → ℕ → Loop B
  match req type k remaining = match_from (2 * remaining + ops.held k.book + 1) req type k remaining
