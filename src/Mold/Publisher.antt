-- ===== src/Mold/Publisher.antt =====
-- mold/publisher.hpp: messages are packed into datagrams. `body` are the bytes behind the header,
-- so `used_` is their number and the header's length; `sent` are the calls of `send_`.
pub mod Genuine
use itchbook.Base.{
  ℕ, zero, suc, ◌+◌, ◌-◌, ◌*◌, ◌/◌, ◌%◌, ◌^◌, ◌≤◌, ◌<◌, min, ◌≡◌, refl, sym, ap, subst, ◌∙◌, ◌≢◌,
  ◌↔◌, ◌⊎◌, inl, inr, Bool, true, false, not, ◌&&◌, ◌||◌, Option, none, some, List, [], ◌∷◌, ◌++◌,
  map, arith, ltb, leb, ◌==◌, if◌then◌else◌, Bool-cases, length, length-append,
}
use itchbook.Mold.Bytes.{Bytes}
use itchbook.Mold.Packet.{header_len, end_of_session_count, write_header, write_block}

pub record Publisher : Type 0 where
  pub session : Bytes
  pub mtu : ℕ
  pub body : Bytes
  pub count : ℕ
  pub sequence : ℕ
  pub messages : ℕ
  pub packets : ℕ
  pub heartbeats : ℕ
  pub last_hb_ns : ℕ
  pub ended : Bool
  pub sent : List Bytes

unfoldable pub make_publisher : Bytes → ℕ → Publisher
make_publisher session mtu = record {
  session = session;
  mtu = mtu;
  body = [];
  count = 0;
  sequence = 1;
  messages = 0;
  packets = 0;
  heartbeats = 0;
  last_hb_ns = 0;
  ended = false;
  sent = [];
}

abbrev pub used : Publisher → ℕ
used b = header_len + length b.body

unfoldable pub flush : Publisher → Publisher
flush b = if b.count == 0 then b else record b {
  sent = b.sent ++ ((write_header b.session b.sequence b.count ++ b.body) ∷ []);
  sequence = b.sequence + b.count;
  body = [];
  count = 0;
  packets = b.packets + 1;
}

abbrev pub append_message : Publisher → Bytes → Publisher
append_message b msg = record b {
  body = b.body ++ write_block msg;
  count = b.count + 1;
  messages = b.messages + 1;
}

unfoldable pub add : Publisher → Bytes → Publisher × Bool
add b msg =
    let need = 2 + length msg in
    if leb b.mtu header_len || ltb (b.mtu - header_len) need then (b, false) else (
      append_message
          (if ltb b.mtu (used b + need) || b.count == (end_of_session_count - 1)
            then flush b
            else b)
          msg,
      true,
    )

unfoldable pub maybe_heartbeat : Publisher → ℕ → ℕ → Publisher
maybe_heartbeat b wall_ns period_ns =
    if period_ns == 0
    then b
    else if b.last_hb_ns == 0
    then record b { last_hb_ns = wall_ns }
    else if ltb ((wall_ns + 2 ^ 64 - b.last_hb_ns) % 2 ^ 64) period_ns
    then b
    else (let f = flush b in
        record f {
          sent = f.sent ++ (write_header f.session f.sequence 0 ∷ []);
          last_hb_ns = wall_ns;
          heartbeats = f.heartbeats + 1;
        })

unfoldable pub end_of_session : Publisher → Publisher
end_of_session b =
    let f = flush b in
    record f {
      sent = f.sent ++ (write_header f.session f.sequence end_of_session_count ∷ []);
      packets = f.packets + 1;
      ended = true;
    }

unfoldable pub sequence_of_next_add : Publisher → ℕ
sequence_of_next_add b = b.sequence + b.count
