-- ===== src/Soup/Session.antt =====
-- What the two sessions of soupbin/session.hpp share: their states, the silence of a direction, and
-- what they hand to the application.
use itchbook.Base.{ℕ, ◌-◌, Bool, true, false, List, [], ◌∷◌, ◌++◌, ltb, ◌==◌, if◌then◌else◌}
use itchbook.Mold.Bytes.{Bytes}
use itchbook.Soup.Packets.{message, message_length}

pub data State : Type 0 where
  awaiting_login login_received logged_in rejected ended login_timed_out dead : State
  protocol_violation : State

abbrev pub is_terminal : State → Bool
is_terminal rejected = true
is_terminal ended = true
is_terminal login_timed_out = true
is_terminal dead = true
is_terminal protocol_violation = true
is_terminal _ = false

abbrev pub state_code : State → ℕ
state_code awaiting_login = 0
state_code login_received = 1
state_code logged_in = 2
state_code rejected = 3
state_code ended = 4
state_code login_timed_out = 5
state_code dead = 6
state_code protocol_violation = 7

abbrev pub same_state : State → State → Bool
same_state s t = state_code s == state_code t

-- A tracker is the time of its last reset.
unfoldable pub elapsed : ℕ → ℕ → ℕ
elapsed last_ns now_ns = if ltb last_ns now_ns then now_ns - last_ns else 0

-- A call of the application: what the frame holds behind its header, and the length that is told.
pub record AppCall : Type 0 where
  pub payload : Bytes
  pub told : ℕ

unfoldable pub hand_over : Bool → Bytes → List AppCall → List AppCall
hand_over has_app frame calls =
    if has_app
    then calls ++ (record { payload = message frame; told = message_length frame } ∷ [])
    else calls
