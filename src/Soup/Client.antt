-- ===== src/Soup/Client.antt =====
-- `ClientSession` of soupbin/session.hpp. What it hands to its sinks is kept in lists.
pub mod Chunks
pub mod Runs
pub mod Life
pub mod Silence
pub mod Counts
use itchbook.Base.{
  ℕ, zero, suc, ◌+◌, ◌-◌, ◌*◌, ◌/◌, ◌%◌, ◌^◌, ◌≤◌, ◌<◌, min, ◌≡◌, refl, sym, ap, subst, ◌∙◌, ◌≢◌,
  ◌↔◌, ◌⊎◌, inl, inr, Bool, true, false, not, ◌&&◌, ◌||◌, Option, none, some, List, [], ◌∷◌, ◌++◌,
  map, arith, ltb, leb, ◌==◌, if◌then◌else◌, Bool-cases, length, length-append,
}
use itchbook.Base.Words.{add64}
use itchbook.Mold.Bytes.{Bytes, take_bytes, drop_bytes}
use itchbook.Soup.Packets.{
  known_fixed_wire_bytes, accepted_session, reject_reason, login_request, unsequenced_data,
  client_heartbeat, logout_request,
}
use itchbook.Soup.Frames.{Drained, append, drain}
use itchbook.Soup.Session.{
  State, awaiting_login, logged_in, rejected, ended, login_timed_out, dead, protocol_violation,
  is_terminal, same_state, elapsed, AppCall, hand_over,
}

pub record Config : Type 0 where
  pub heartbeat_send_threshold_ns : ℕ
  pub server_dead_threshold_ns : ℕ
  pub login_response_timeout_ns : ℕ
  pub max_frame_bytes : ℕ

-- The part of the session that a frame can change.
pub record Inbound : Type 0 where
  pub state : State
  pub reject_reason : ℕ
  pub session_id : Bytes
  pub sequence_number : ℕ
  pub app : List AppCall

pub record Client : Type 0 where
  pub cfg : Config
  pub has_app : Bool
  pub inbound : Inbound
  pub buf : Bytes
  pub send_side : ℕ
  pub recv_side : ℕ
  pub out : List Bytes

unfoldable pub make_client : Config → ℕ → Bytes → Bytes → Bytes → Bytes → Bool → Client
make_client cfg now_ns username password requested_session requested_sequence_number has_app =
    record {
      cfg = cfg;
      has_app = has_app;
      inbound = record {
        state = awaiting_login;
        reject_reason = 0;
        session_id = 0 ∷ 0 ∷ 0 ∷ 0 ∷ 0 ∷ 0 ∷ 0 ∷ 0 ∷ 0 ∷ 0 ∷ [];
        sequence_number = 0;
        app = [];
      };
      buf = [];
      send_side = now_ns;
      recv_side = now_ns;
      out = login_request username password requested_session requested_sequence_number ∷ [];
    }

unfoldable pub client_valid : ℕ → ℕ → Bool
client_valid type flen =
    let known = known_fixed_wire_bytes type in
    (type == b'A'
      || (type == b'J' || (type == b'H' || (type == b'Z' || (type == b'S' || type == b'+')))))
    && (known == 0 || flen == known)

unfoldable pub client_dispatch : Bool → ℕ → Bytes → Inbound → Bool × Inbound
client_dispatch has_app type p s =
    if type == b'+'
    then (true, s)
    else if type == b'A'
    then (if same_state s.state awaiting_login
        then (true, record s { session_id = accepted_session p; state = logged_in })
        else (false, s))
    else if type == b'J'
    then (if same_state s.state awaiting_login
        then (true, record s { reject_reason = reject_reason p; state = rejected })
        else (false, s))
    else if type == b'H'
    then (true, s)
    else if type == b'S'
    then (if same_state s.state logged_in
        then (
          true,
          record s { sequence_number = add64 s.sequence_number 1; app = hand_over has_app p s.app },
        )
        else (false, s))
    else if type == b'Z'
    then (if same_state s.state logged_in then (true, record s { state = ended }) else (false, s))
    else (false, s)

abbrev pub violate : Inbound → Inbound
violate s = record s { state = protocol_violation }

-- The end of `on_bytes`: the verdict of the drain, and the silence that ends unless the session is
-- over.
unfoldable pub conclude : ℕ → Drained Inbound → Client → Client
conclude now_ns d c =
    if not d.ok
    then record c { buf = d.rest; inbound = violate d.session }
    else if not (is_terminal c.inbound.state) && not (is_terminal d.session.state)
    then record c { buf = d.rest; inbound = d.session; recv_side = now_ns }
    else record c { buf = d.rest; inbound = d.session }

unfoldable pub received : Bytes → ℕ → Client → Client
received chunk now_ns c =
    conclude now_ns
      (drain c.cfg.max_frame_bytes (client_dispatch c.has_app) client_valid (append c.buf chunk)
        c.inbound)
      c

unfoldable pub on_bytes : Bytes → ℕ → Client → Bool × Client
on_bytes chunk now_ns c =
    if length chunk == 0
    then (false, c)
    else (let c' = received chunk now_ns c in
        (not (same_state c'.inbound.state c.inbound.state), c'))

unfoldable pub expire : ℕ → Client → State
expire now_ns c =
    if same_state c.inbound.state awaiting_login
    then (if leb c.cfg.login_response_timeout_ns (elapsed c.recv_side now_ns)
        then login_timed_out
        else c.inbound.state)
    else if same_state c.inbound.state logged_in
    then (if leb c.cfg.server_dead_threshold_ns (elapsed c.recv_side now_ns)
        then dead
        else c.inbound.state)
    else c.inbound.state

unfoldable pub send : Bytes → ℕ → Client → Client
send packet now_ns c = record c { out = c.out ++ (packet ∷ []); send_side = now_ns }

unfoldable pub beat : ℕ → Client → Client
beat now_ns c =
    if not (is_terminal c.inbound.state)
      && leb c.cfg.heartbeat_send_threshold_ns (elapsed c.send_side now_ns)
    then send client_heartbeat now_ns c
    else c

unfoldable pub enter : State → Client → Client
enter s c = record c { inbound = record c.inbound { state = s } }

unfoldable pub tick : ℕ → Client → Bool × Client
tick now_ns c =
    if is_terminal c.inbound.state
    then (false, c)
    else (let s = expire now_ns c in (not (same_state s c.inbound.state), beat now_ns (enter s c)))

unfoldable pub send_unsequenced : Bytes → ℕ → Client → Client
send_unsequenced msg now_ns c =
    if ltb (c.cfg.max_frame_bytes + 3) (length msg + 3)
    then c
    else send (unsequenced_data msg) now_ns c

unfoldable pub send_logout : ℕ → Client → Client
send_logout now_ns c = send logout_request now_ns c
