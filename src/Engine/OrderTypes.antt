-- ===== src/Engine/OrderTypes.antt =====
-- engine/order_types.hpp: what an order is, and which moves of its state are legal. A price is at
-- least 0; `none` of an enumeration is spelled with what it is the none of.
use itchbook.Base.{ℕ, Bool, true, false}

pub data Side : Type 0 where
  buy sell : Side

abbrev pub opposite : Side → Side
opposite buy = sell
opposite sell = buy

abbrev pub to_char : Side → ℕ
to_char buy = b'B'
to_char sell = b'S'

pub data OrderType : Type 0 where
  limit market ioc fok stop_market stop_limit : OrderType

abbrev pub is_stop : OrderType → Bool
is_stop stop_market = true
is_stop stop_limit = true
is_stop _ = false

abbrev pub can_rest : OrderType → Bool
can_rest limit = true
can_rest _ = false

pub data State : Type 0 where
  fresh accepted partially_filled filled cancelled rejected : State

abbrev pub is_terminal : State → Bool
is_terminal filled = true
is_terminal cancelled = true
is_terminal rejected = true
is_terminal _ = false

abbrev pub legal_transition : State → State → Bool
legal_transition fresh fresh = false
legal_transition fresh _ = true
legal_transition accepted partially_filled = true
legal_transition accepted filled = true
legal_transition accepted cancelled = true
legal_transition partially_filled partially_filled = true
legal_transition partially_filled filled = true
legal_transition partially_filled cancelled = true
legal_transition _ _ = false

pub data Stp : Type 0 where
  no_prevention cancel_newest cancel_oldest cancel_both : Stp

pub data Reject : Type 0 where
  no_reject zero_quantity invalid_price display_too_large fok_unfillable no_liquidity : Reject
  duplicate_id unknown_order : Reject

pub record Request : Type 0 where
  pub id : ℕ
  pub owner : ℕ
  pub side : Side
  pub type : OrderType
  pub price : ℕ
  pub stop_price : ℕ
  pub quantity : ℕ
  pub display : ℕ
  pub stp : Stp

pub record Fill : Type 0 where
  pub taker : ℕ
  pub maker : ℕ
  pub taker_owner : ℕ
  pub maker_owner : ℕ
  pub price : ℕ
  pub shares : ℕ
  pub maker_sequence : ℕ
  pub match_number : ℕ
  pub external : Bool

pub record Result : Type 0 where
  pub state : State
  pub reject : Reject
  pub filled_shares : ℕ
  pub resting : ℕ
  pub cancelled_shares : ℕ
  pub first_fill : ℕ
  pub fill_count : ℕ
  pub triggered_stops : Bool

abbrev pub no_result : Result
no_result = record {
  state = fresh;
  reject = no_reject;
  filled_shares = 0;
  resting = 0;
  cancelled_shares = 0;
  first_fill = 0;
  fill_count = 0;
  triggered_stops = false;
}
