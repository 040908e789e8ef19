-- ===== src/Soup/Server.antt =====
-- `ServerSession` of soupbin/session.hpp. What it hands to its sinks is kept in lists.
pub mod Chunks
use itchbook.Base.{
  ℕ, zero, suc, ◌+◌, ◌-◌, ◌*◌, ◌/◌, ◌%◌, ◌^◌, ◌≤◌, ◌<◌, min, ◌≡◌, refl, sym, ap, subst, ◌∙◌, ◌≢◌,
  ◌↔◌, ◌⊎◌, inl, inr, Bool, true, false, not, ◌&&◌, ◌||◌, Option, none, some, List, [], ◌∷◌, ◌++◌,
  map, arith, ltb, leb, ◌==◌, if◌then◌else◌, Bool-cases, length, length-append,
}
use itchbook.Base.Words.{add64}
use itchbook.Mold.Bytes.{Bytes, take_bytes, drop_bytes}
use itchbook.Soup.Packets.{
  known_fixed_wire_bytes, login_request_wire_bytes, login_accepted, login_rejected, sequenced_data,
  server_heartbeat, end_of_session,
}
use itchbook.Soup.Frames.{Drained, append, drain}
use itchbook.Soup.Session.{
  State, awaiting_login, login_received, logged_in, rejected, ended, login_timed_out, dead,
  protocol_violation, is_terminal, same_state, elapsed, AppCall, hand_over,
}

pub record Config : Type 0 where
  pub heartbeat_send_threshold_ns : ℕ
  pub client_dead_threshold_ns : ℕ
  pub login_timeout_ns : ℕ
  pub max_frame_bytes : ℕ

unfoldable pub default_config : Config
default_config = record {
  heartbeat_send_threshold_ns = 1000000000;
  client_dead_threshold_ns = 15000000000;
  login_timeout_ns = 30000000000;
  max_frame_bytes = 4096;
}

-- The part of the session that a frame can change.
pub record Inbound : Type 0 where
  pub state : State
  pub login_frame : Bytes
  pub app : List AppCall

pub record Server : Type 0 where
  pub cfg : Config
  pub has_app : Bool
  pub inbound : Inbound
  pub buf : Bytes
  pub send_side : ℕ
  pub recv_side : ℕ
  pub sequence_number : ℕ
  pub out : List Bytes

unfoldable pub zeros : ℕ → Bytes
zeros zero = []
zeros (suc n) = 0 ∷ zeros n

unfoldable pub make_server : Config → ℕ → Bool → Server
make_server cfg now_ns has_app = record {
  cfg = cfg;
  has_app = has_app;
  inbound = record {
    state = awaiting_login;
    login_frame = zeros login_request_wire_bytes;
    app = [];
  };
  buf = [];
  send_side = now_ns;
  recv_side = now_ns;
  sequence_number = 1;
  out = [];
}

unfoldable pub server_valid : ℕ → ℕ → Bool
server_valid type flen =
    let known = known_fixed_wire_bytes type in
    (type == b'L' || (type == b'U' || (type == b'R' || (type == b'O' || type == b'+'))))
    && (known == 0 || flen == known)

unfoldable pub server_dispatch : Bool → ℕ → Bytes → Inbound → Bool × Inbound
server_dispatch has_app type p s =
    if type == b'+'
    then (true, s)
    else if type == b'L'
    then (if same_state s.state awaiting_login
        then (
          true,
          record s { login_frame = take_bytes login_request_wire_bytes p; state = login_received },
        )
        else (false, s))
    else if type == b'U'
    then (if same_state s.state logged_in
        then (true, record s { app = hand_over has_app p s.app })
        else (false, s))
    else if type == b'R'
    then (true, s)
    else if type == b'O'
    then (if same_state s.state logged_in || same_state s.state login_received
        then (true, record s { state = ended })
        else (false, s))
    else (false, s)

abbrev pub violate : Inbound → Inbound
violate s = record s { state = protocol_violation }

-- The end of `on_bytes`: the verdict of the drain, and the silence that ends unless the session is
-- over.
unfoldable pub conclude : ℕ → Drained Inbound → Server → Server
conclude now_ns d c =
    if not d.ok
    then record c { buf = d.rest; inbound = violate d.session }
    else if not (is_terminal c.inbound.state) && not (is_terminal d.session.state)
    then record c { buf = d.rest; inbound = d.session; recv_side = now_ns }
    else record c { buf = d.rest; inbound = d.session }

unfoldable pub received : Bytes → ℕ → Server → Server
received chunk now_ns c =
    conclude now_ns
      (drain c.cfg.max_frame_bytes (server_dispatch c.has_app) server_valid (append c.buf chunk)
        c.inbound)
      c

unfoldable pub on_bytes : Bytes → ℕ → Server → Bool × Server
on_bytes chunk now_ns c =
    if length chunk == 0
    then (false, c)
    else (let c' = received chunk now_ns c in
        (not (same_state c'.inbound.state c.inbound.state), c'))

unfoldable pub expire : ℕ → Server → State
expire now_ns c =
    if same_state c.inbound.state awaiting_login
    then (if leb c.cfg.login_timeout_ns (elapsed c.recv_side now_ns)
        then login_timed_out
        else c.inbound.state)
    else if same_state c.inbound.state logged_in
    then (if leb c.cfg.client_dead_threshold_ns (elapsed c.recv_side now_ns)
        then dead
        else c.inbound.state)
    else c.inbound.state

unfoldable pub send : Bytes → ℕ → Server → Server
send packet now_ns c = record c { out = c.out ++ (packet ∷ []); send_side = now_ns }

-- A server owes no heartbeat before the login is accepted.
unfoldable pub beat : ℕ → Server → Server
beat now_ns c =
    if same_state c.inbound.state logged_in
      && leb c.cfg.heartbeat_send_threshold_ns (elapsed c.send_side now_ns)
    then send server_heartbeat now_ns c
    else c

unfoldable pub enter : State → Server → Server
enter s c = record c { inbound = record c.inbound { state = s } }

unfoldable pub tick : ℕ → Server → Bool × Server
tick now_ns c =
    if is_terminal c.inbound.state
    then (false, c)
    else (let s = expire now_ns c in (not (same_state s c.inbound.state), beat now_ns (enter s c)))

-- `none` where the assertion on the state fails.
unfoldable pub accept_login : Bytes → Bytes → ℕ → Server → Option Server
accept_login session_id sequence_number now_ns c =
    if same_state c.inbound.state login_received
    then some (enter logged_in (send (login_accepted session_id sequence_number) now_ns c))
    else none

-- `none` where the assertion on the state fails.
unfoldable pub reject_login : ℕ → Server → Option Server
reject_login reason c =
    if same_state c.inbound.state login_received
    then some (enter rejected (record c { out = c.out ++ (login_rejected reason ∷ []) }))
    else none

unfoldable pub send_sequenced : Bytes → ℕ → Server → Server
send_sequenced msg now_ns c =
    if ltb (c.cfg.max_frame_bytes + 3) (length msg + 3)
    then c
    else (let c' = send (sequenced_data msg) now_ns c in
        record c' { sequence_number = add64 c'.sequence_number 1 })

unfoldable pub send_end_of_session : Server → Server
send_end_of_session c = enter ended (record c { out = c.out ++ (end_of_session ∷ []) })
