-- ===== src/Engine/Matcher/Run.antt =====
-- `run`, `fire_stops` and the public operations of engine/matcher.hpp.
use itchbook.Base.{
  ℕ, zero, suc, ◌+◌, ◌-◌, ◌%◌, ◌^◌, Bool, true, false, not, ◌&&◌, Option, none, some, List, [], ◌∷◌,
  ltb, leb, if◌then◌else◌, length,
}
use itchbook.Base.Words.{add32, add64}
use itchbook.Engine.OrderTypes.{
  opposite, to_char, OrderType, market, fok, can_rest, State, fresh, accepted, partially_filled,
  filled, cancelled, rejected, is_terminal, Reject, fok_unfillable, no_liquidity, Request, Result,
  no_result,
}
use itchbook.Engine.Matcher.{
  Resting, BookOps, Meta, lookup, Matcher, change, transition, effective_type, stop_is_triggered,
  crosses,
}
use itchbook.Engine.Matcher.Orders.{Loop, rest, match}

-- The order of the id as it is now, where it was `m`.
abbrev pub current : Option Meta → Meta → Meta
current none m = m
current (some n) m = n

abbrev is_some : Option Resting → Bool
is_some none = false
is_some (some o) = true

abbrev pub is_fresh : State → Bool
is_fresh fresh = true
is_fresh _ = false

abbrev pub is_fok : OrderType → Bool
is_fok fok = true
is_fok _ = false

abbrev pub is_market : OrderType → Bool
is_market market = true
is_market _ = false

-- Whether the state of an order that rests differs from the one that it is to have.
abbrev pub same_state : State → State → Bool
same_state accepted accepted = true
same_state partially_filled partially_filled = true
same_state _ _ = false

module _ {B : Type 0} (ops : BookOps B) where
  unfoldable pub has_liquidity : Request → Matcher B → Bool
  has_liquidity req k = is_some (ops.best_order (to_char (opposite req.side)) k.book)

  unfoldable pub available_from : Request → OrderType → ℕ → List (ℕ × ℕ) → ℕ
  available_from req type total [] = total
  available_from req type total ((price, shares) ∷ levels) =
      let total' = add32 total (shares % 2 ^ 32) in
      let more = available_from req type total' levels in
      if not (crosses req type price)
      then total
      else if leb req.quantity total'
      then total'
      else more

  unfoldable pub available : Request → OrderType → Matcher B → ℕ
  available req type k = available_from req type 0 (ops.top (to_char (opposite req.side)) 64 k.book)

  -- An order that was accepted before is cancelled, not rejected.
  unfoldable pub refuse : Meta → Reject → Result → Matcher B → Matcher B × Result
  refuse m why r k =
      let to = if is_fresh m.state then rejected else cancelled in
      (transition m.req.id to k, record r { state = to; reject = why })

  abbrev pub resting_state : Meta → State
  resting_state m = if ltb 0 m.filled_shares then partially_filled else accepted

  unfoldable pub come_to_rest : Meta → ℕ → Matcher B → Matcher B
  come_to_rest m remaining k =
      let k' = rest ops m.req.id m remaining k in
      if same_state m.state (resting_state m) then k' else transition m.req.id (resting_state m) k'

  unfoldable pub drop_rest : Meta → ℕ → Matcher B → Matcher B
  drop_rest m remaining k =
      let k1 =
        change m.req.id (λ x. record x { cancelled_shares = add32 x.cancelled_shares remaining })
          k in
      transition m.req.id cancelled
        (record k1 { cancelled_total = add64 k.cancelled_total remaining })

  -- What becomes of the taker when the matching loop is over.
  unfoldable pub conclude : OrderType → Meta → Loop B → Matcher B
  conclude type m l =
      if ltb 0 l.remaining && (can_rest type && not l.stp_killed)
      then come_to_rest m l.remaining l.engine
      else if ltb 0 l.remaining
      then drop_rest m l.remaining l.engine
      else transition m.req.id filled l.engine

  unfoldable pub enter : Meta → Matcher B → Matcher B
  enter m k =
      let k' = change m.req.id (λ x. record x { entered = true }) k in
      record k' { submitted = add64 k.submitted m.req.quantity }

  unfoldable pub report : OrderType → Result → Meta → Loop B → Matcher B → Result
  report type r m l k =
      let n = current (lookup m.req.id k.orders) m in
      let rests = ltb 0 l.remaining && (can_rest type && not l.stp_killed) in
      record r {
        state = n.state;
        filled_shares = m.filled_shares;
        fill_count = length l.engine.fills - r.first_fill;
        resting = if rests then add32 n.resting n.hidden else r.resting;
        cancelled_shares =
            if ltb 0 l.remaining && not rests then l.remaining else r.cancelled_shares;
      }

  unfoldable pub trade : OrderType → Meta → Matcher B → Loop B
  trade type m k = match ops m.req type (enter m k) m.req.quantity

  unfoldable pub run_with :
      (Matcher B → Matcher B × Bool) → OrderType → Meta → Result → Matcher B → Matcher B × Result
  run_with fire type m r k =
      if is_fok type && ltb (available m.req type k) m.req.quantity
      then refuse m fok_unfillable r k
      else if is_market type && not (has_liquidity m.req k)
      then refuse m no_liquidity r k
      else (let l = trade type m k in
          let m' = current (lookup m.req.id l.engine.orders) m in
          let k1 = conclude type m' l in
          let (k2, any) = fire k1 in (k2, record (report type r m' l k1) { triggered_stops = any }))

  -- The first parked stop that is triggered, and the parked stops without it and without the dead
  -- ones in front of it.
  unfoldable pub elect : Matcher B → List ℕ → Option Meta × List ℕ
  elect k [] = (none, [])
  elect k (i ∷ is) = elim (lookup i k.orders) [
    | none ↦ elect k is
    | some m ↦
        let (e, kept) = elect k is in
        if is_terminal m.state
        then (e, kept)
        else if stop_is_triggered m.req k
        then (some m, is)
        else (e, i ∷ kept)
  ]

  -- A stop that fires takes its sequence number then.
  unfoldable pub unpark : Meta → List ℕ → Matcher B → Matcher B
  unpark m kept k =
      let k' = change m.req.id (λ x. record x { sequence = k.seq + 1 }) k in
      record k' { pending_stops = kept; seq = k.seq + 1 }

  -- An elected stop runs, and the stops that it triggers in its turn, and then the others.
  unfoldable pub fired :
      (Matcher B → Matcher B × Bool) → Matcher B → Option Meta → List ℕ → Matcher B × Bool
  fired next k none kept = (record k { pending_stops = kept }, false)
  fired next k (some m) kept =
      let r = record no_result { first_fill = length k.fills } in
      let k1 = unpark m kept k in
      let m1 = current (lookup m.req.id k1.orders) m in
      let k2 = (run_with next (effective_type m.req.type) m1 r k1).0 in ((next k2).0, true)

  -- Each round takes one of the parked stops out, and none is parked meanwhile.
  unfoldable pub fire_from : ℕ → Matcher B → Matcher B × Bool
  fire_from zero k = (k, false)
  fire_from (suc n) k = let (e, kept) = elect k k.pending_stops in fired (fire_from n) k e kept

  unfoldable pub fire_stops : Matcher B → Matcher B × Bool
  fire_stops k = fire_from (length k.pending_stops) k

  unfoldable pub pump_stops : Matcher B → Matcher B × Bool
  pump_stops k = fire_stops k
