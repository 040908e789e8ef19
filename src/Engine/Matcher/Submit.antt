-- ===== src/Engine/Matcher/Submit.antt =====
-- The public operations of engine/matcher.hpp: `submit`, `cancel` and `apply_external_fill`.
use itchbook.Base.{
  ℕ, ◌+◌, Bool, true, false, not, ◌||◌, Option, none, some, [], ◌∷◌, ◌++◌, ◌==◌, if◌then◌else◌,
  length,
}
use itchbook.Base.Words.{add32, sub32, add64}
use itchbook.Engine.OrderTypes.{
  accepted, rejected, is_terminal, is_stop, Reject, no_reject, Request, Result, no_result,
}
use itchbook.Engine.Matcher.{
  BookOps, Meta, new_meta, lookup, emplace, Matcher, change, transition, validate, effective_type,
  stop_is_triggered,
}
use itchbook.Engine.Matcher.Orders.{cancel_meta, smaller, settle_maker}
use itchbook.Engine.Matcher.Run.{run_with, fire_stops}

module _ {B : Type 0} (ops : BookOps B) where
  -- A rejected order is recorded, unless its id is taken.
  unfoldable pub turn_away : Request → Reject → Result → Matcher B → Matcher B × Result
  turn_away req why r k = (
    record k { orders = emplace req.id (record (new_meta req) { state = rejected }) k.orders },
    record r { state = rejected; reject = why },
  )

  unfoldable pub park : Request → Result → Matcher B → Matcher B × Result
  park req r k =
      let k1 = transition req.id accepted k in
      let k2 = change req.id (λ x. record x { resting = 0 }) k1 in
      (
        record k2 { pending_stops = k2.pending_stops ++ (req.id ∷ []) },
        record r { state = accepted },
      )

  unfoldable pub admit : Request → Result → Matcher B → Matcher B × Result
  admit req r k =
      let m = record (new_meta req) { sequence = k.seq + 1 } in
      let k' = record k { orders = emplace req.id m k.orders; seq = k.seq + 1 } in
      if is_stop req.type
      then (if stop_is_triggered req k'
          then run_with ops (fire_stops ops) (effective_type req.type) m r k'
          else park req r k')
      else run_with ops (fire_stops ops) req.type m r k'

  abbrev pub judged : Reject → Request → Result → Matcher B → Matcher B × Result
  judged no_reject req r k = admit req r k
  judged why req r k = turn_away req why r k

  unfoldable pub submit : Request → Matcher B → Matcher B × Result
  submit req k =
      let k' = record k { match_no = k.match_no + 1 } in
      judged (validate req k') req (record no_result { first_fill = length k.fills }) k'

  unfoldable pub cancel : ℕ → Matcher B → Matcher B × Bool
  cancel i k = elim (lookup i k.orders) [
    | none ↦ (k, false)
    | some m ↦ if is_terminal m.state then (k, false) else (cancel_meta ops i m k, true)
  ]

  -- Shares of an order of the engine that somebody else took.
  unfoldable pub fill_by : ℕ → Meta → ℕ → ℕ → ℕ → Matcher B → Matcher B
  fill_by i m qty price number k =
      let k1 =
        change i
          (λ x. record x {
            resting = sub32 x.resting qty;
            filled_shares = add32 x.filled_shares qty;
          })
          k in
      settle_maker ops i (record k1 {
        book = ops.take i qty k.book;
        filled_total = add64 k.filled_total qty;
        external_filled = add64 k.external_filled qty;
        fills =
            k.fills
            ++ (record {
              taker = 0;
              maker = i;
              taker_owner = 0;
              maker_owner = m.req.owner;
              price = price;
              shares = qty;
              maker_sequence = m.sequence;
              match_number = number;
              external = true;
            }
                ∷ []);
        last_trade = price;
        has_last_trade = true;
      })

  abbrev pub absent : Option ℕ → Bool
  absent none = true
  absent (some n) = false

  unfoldable pub apply_external_fill : ℕ → ℕ → ℕ → ℕ → Matcher B → Matcher B × ℕ
  apply_external_fill i shares price number k = elim (lookup i k.orders) [
    | none ↦ (k, 0)
    | some m ↦
        if shares == 0
          || (not m.entered
              || (is_terminal m.state
                  || (not m.in_book || (m.resting == 0 || absent (ops.find i k.book)))))
        then (k, 0)
        else (let qty = smaller shares m.resting in (fill_by i m qty price number k, qty))
  ]
