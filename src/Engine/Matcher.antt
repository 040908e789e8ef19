-- ===== src/Engine/Matcher.antt =====
-- `Matcher` of engine/matcher.hpp: its state, and what its operations do to one order. The book is
-- behind an interface. The assertion on the moves of a state sets `aborted`: there a debug build
-- stops, and a release build goes on as the model does. Quantities wrap at 2^32, totals at 2^64.
pub mod Orders
pub mod Run
pub mod Submit
pub mod Query
pub mod Sound
pub mod Legal
use itchbook.Base.{
  ℕ, zero, suc, ◌+◌, ◌-◌, ◌*◌, ◌/◌, ◌%◌, ◌^◌, ◌≤◌, ◌<◌, min, ◌≡◌, refl, sym, ap, subst, ◌∙◌, ◌≢◌,
  ◌↔◌, ◌⊎◌, inl, inr, Bool, true, false, not, ◌&&◌, ◌||◌, Option, none, some, List, [], ◌∷◌, ◌++◌,
  map, arith, ltb, leb, ◌==◌, if◌then◌else◌, Bool-cases, length, length-append,
}
use itchbook.Base.Words.{add32, sub32, add64}
use itchbook.Engine.OrderTypes.{
  Side, buy, sell, opposite, to_char, OrderType, market, limit, stop_market, is_stop, can_rest,
  State, fresh, accepted, partially_filled, filled, cancelled, rejected, is_terminal,
  legal_transition, Stp, no_prevention, cancel_newest, cancel_oldest, cancel_both, Reject,
  no_reject, zero_quantity, invalid_price, display_too_large, duplicate_id, Request, Fill, Result,
}

-- An order of the book as the engine sees it, and a level of the depth view.
pub record Resting : Type 0 where
  pub ref : ℕ
  pub price : ℕ
  pub shares : ℕ

-- What the engine uses of a book: the order that is next to trade on a side, the levels of a side
-- from the best on as prices with their shares, the shares of an order, and the changes.
pub record BookOps (B : Type 0) : Type 0 where
  pub best_order : ℕ → B → Option Resting
  pub top : ℕ → ℕ → B → List (ℕ × ℕ)
  pub find : ℕ → B → Option ℕ
  pub take : ℕ → ℕ → B → B
  pub add : ℕ → ℕ → ℕ → ℕ → B → B
  pub remove : ℕ → B → B
  pub held : B → ℕ

pub record Meta : Type 0 where
  pub req : Request
  pub state : State
  pub filled_shares : ℕ
  pub cancelled_shares : ℕ
  pub resting : ℕ
  pub hidden : ℕ
  pub sequence : ℕ
  pub in_book : Bool
  pub entered : Bool

abbrev pub Orders : Type 0
Orders = List (ℕ × Meta)

abbrev pub new_meta : Request → Meta
new_meta req = record {
  req = req;
  state = fresh;
  filled_shares = 0;
  cancelled_shares = 0;
  resting = 0;
  hidden = 0;
  sequence = 0;
  in_book = false;
  entered = false;
}

unfoldable pub lookup : ℕ → Orders → Option Meta
lookup i [] = none
lookup i ((j, m) ∷ os) = if i == j then some m else lookup i os

-- An order that is there stays.
unfoldable pub emplace : ℕ → Meta → Orders → Orders
emplace i m [] = (i, m) ∷ []
emplace i m ((j, n) ∷ os) = if i == j then (j, n) ∷ os else (j, n) ∷ emplace i m os

-- A change through a reference to the order of an id.
unfoldable pub update : ℕ → (Meta → Meta) → Orders → Orders
update i f [] = []
update i f ((j, m) ∷ os) = if i == j then (j, f m) ∷ os else (j, m) ∷ update i f os

pub record Matcher (B : Type 0) : Type 0 where
  pub book : B
  pub orders : Orders
  pub fills : List Fill
  pub pending_stops : List ℕ
  pub seq : ℕ
  pub match_no : ℕ
  pub submitted : ℕ
  pub filled_total : ℕ
  pub external_filled : ℕ
  pub cancelled_total : ℕ
  pub last_trade : ℕ
  pub has_last_trade : Bool
  pub aborted : Bool

abbrev pub legal_for : Option Meta → State → Bool
legal_for none to = true
legal_for (some m) to = legal_transition m.state to

unfoldable pub effective_type : OrderType → OrderType
effective_type stop_market = market
effective_type _ = limit

abbrev reached : Side → ℕ → ℕ → Bool
reached buy last stop = leb stop last
reached sell last stop = leb last stop

abbrev within : Side → ℕ → ℕ → Bool
within buy price resting_price = leb resting_price price
within sell price resting_price = leb price resting_price

unfoldable pub crosses : Request → OrderType → ℕ → Bool
crosses req market resting_price = true
crosses req _ resting_price = within req.side req.price resting_price

abbrev needs_price : OrderType → Bool
needs_price market = false
needs_price stop_market = false
needs_price _ = true

module _ {B : Type 0} where
  unfoldable pub make_matcher : B → Matcher B
  make_matcher book = record {
    book = book;
    orders = [];
    fills = [];
    pending_stops = [];
    seq = 0;
    match_no = 0;
    submitted = 0;
    filled_total = 0;
    external_filled = 0;
    cancelled_total = 0;
    last_trade = 0;
    has_last_trade = false;
    aborted = false;
  }

  unfoldable pub change : ℕ → (Meta → Meta) → Matcher B → Matcher B
  change i f k = record k { orders = update i f k.orders }

  unfoldable pub transition : ℕ → State → Matcher B → Matcher B
  transition i to k =
      let k' = change i (λ m. record m { state = to }) k in
      record k' { aborted = k.aborted || not (legal_for (lookup i k.orders) to) }

  unfoldable pub validate : Request → Matcher B → Reject
  validate req k = elim (lookup req.id k.orders) [
    | some m ↦ duplicate_id
    | none ↦
        if req.quantity == 0
        then zero_quantity
        else if ltb req.quantity req.display
        then display_too_large
        else if needs_price req.type && req.price == 0
        then invalid_price
        else if is_stop req.type && req.stop_price == 0
        then invalid_price
        else no_reject
  ]

  unfoldable pub stop_is_triggered : Request → Matcher B → Bool
  stop_is_triggered req k = k.has_last_trade && reached req.side k.last_trade req.stop_price
