-- ===== src/Tests/Soups.antt =====
-- soupbin/: a client and a server, frames that are cut, and the clock.
use itchbook.Base.{◌-◌, ◌^◌, ◌≡◌, refl, true, List, [], ◌∷◌, ◌++◌, arith, length}
use itchbook.Mold.Bytes.{Bytes, be16, be_from, write_be16, be_bytes}
use itchbook.Soup.Packets.{
  sequenced_data, frame, frame_length, declared_length, packet_type, known_fixed_wire_bytes,
  message, message_length,
}
use itchbook.Soup.Frames.{append, drain, drain_from, round, dispatched}
use itchbook.Soup.Session.{awaiting_login, logged_in, dead, protocol_violation, hand_over}
use itchbook.Soup.Client.{
  Config, Client, make_client, on_bytes, received, conclude, client_valid, client_dispatch,
}
use itchbook.Soup.Client.Chunks.{receive_all, receive_all-concat, unclocked}
use itchbook.Soup.Client.Life.{◌⟶*◌, run-Life}
use itchbook.Soup.Client.Runs.{bytes, time, unsequenced, logout, run}
use itchbook.Soup.Client.Counts.{Counts, run-Counts}
use itchbook.Soup.Client.Silence.{tick_all, tick_all-dead, tick_all-heartbeats}
use itchbook.Soup.Server.{Server, default_config, make_server, zeros}
use itchbook.Soup.Stream.Exactly.{send_all, advanced, sent-received}

abbrev cfg : Config
cfg = record {
  heartbeat_send_threshold_ns = 1000;
  server_dead_threshold_ns = 15000;
  login_response_timeout_ns = 30000;
  max_frame_bytes = 64;
}

abbrev fresh : Client
fresh = make_client cfg 0 (b'U' ∷ []) (b'P' ∷ []) [] (b'0' ∷ []) true

-- A client that has been admitted, with one message behind it.
abbrev inside : Client
inside = record {
  cfg = cfg;
  has_app = true;
  inbound = record {
    state = logged_in;
    reject_reason = 0;
    session_id = b'S' ∷ [];
    sequence_number = 1;
    app = [];
  };
  buf = [];
  send_side = 100;
  recv_side = 100;
  out = [];
}

-- A message that is cut in its header and in its payload, and a heartbeat behind it.
receive_all-concat_example :
    unclocked
      (receive_all 500 ((0 ∷ []) ∷ (3 ∷ b'S' ∷ 7 ∷ []) ∷ (8 ∷ 0 ∷ 1 ∷ b'H' ∷ []) ∷ []) inside)
    ≡ unclocked (on_bytes (0 ∷ 3 ∷ b'S' ∷ 7 ∷ 8 ∷ 0 ∷ 1 ∷ b'H' ∷ []) 500 inside).1
receive_all-concat_example =
    receive_all-concat 500 ((0 ∷ []) ∷ (3 ∷ b'S' ∷ 7 ∷ []) ∷ (8 ∷ 0 ∷ 1 ∷ b'H' ∷ []) ∷ []) inside

abbrev server : Server
server = make_server default_config 0 true

abbrev messages : List Bytes
messages = (7 ∷ 8 ∷ []) ∷ (9 ∷ []) ∷ []

-- Two messages, the second of which arrives in two pieces.
sent-received_example :
    ((receive_all 500 ((0 ∷ 3 ∷ b'S' ∷ 7 ∷ 8 ∷ 0 ∷ []) ∷ (2 ∷ b'S' ∷ 9 ∷ []) ∷ []) inside).inbound
      ≡ advanced messages inside.inbound)
    × ((send_all 400 messages (record server { out = [] })).sequence_number ≡ 3)
unfolding make_server default_config itchbook.Soup.Server.send_sequenced itchbook.Soup.Server.send
    sequenced_data itchbook.Soup.Packets.frame itchbook.Mold.Bytes.write_be16
    itchbook.Mold.Bytes.be_bytes
sent-received_example =
    sent-received messages server inside 400 500
      ((0 ∷ 3 ∷ b'S' ∷ 7 ∷ 8 ∷ 0 ∷ []) ∷ (2 ∷ b'S' ∷ 9 ∷ []) ∷ [])
      ((omega arith, omega arith), ((omega arith, omega arith), tt)) (omega arith) (omega arith)
      (omega arith) refl refl refl refl

run-Life_example : awaiting_login ⟶* (run (time 40000 ∷ []) fresh).inbound.state
unfolding make_client
run-Life_example = run-Life (time 40000 ∷ []) fresh

run-Counts_example :
    Counts
      (run (bytes (0 ∷ 1 ∷ b'H' ∷ []) 5 ∷ unsequenced (1 ∷ []) 6 ∷ logout 7 ∷ []) fresh).inbound
run-Counts_example =
    run-Counts cfg 0 (b'U' ∷ []) (b'P' ∷ []) [] (b'0' ∷ [])
      (bytes (0 ∷ 1 ∷ b'H' ∷ []) 5 ∷ unsequenced (1 ∷ []) 6 ∷ logout 7 ∷ []) (omega arith)

-- The second tick is before the last arrival, and does not count.
tick_all-dead_example : (tick_all (5000 ∷ 10 ∷ 15100 ∷ 20000 ∷ []) inside).inbound.state ≡ dead
tick_all-dead_example = tick_all-dead (5000 ∷ 10 ∷ 15100 ∷ 20000 ∷ []) inside refl (omega arith)

tick_all-heartbeats_example :
    (tick_all (500 ∷ 2000 ∷ 2400 ∷ 3000 ∷ []) inside).out
    ≡ inside.out ++ ((0 ∷ 1 ∷ b'R' ∷ []) ∷ (0 ∷ 1 ∷ b'R' ∷ []) ∷ [])
tick_all-heartbeats_example =
    tick_all-heartbeats (500 ∷ 2000 ∷ 2400 ∷ 3000 ∷ []) inside refl (omega arith) (omega arith) refl

-- A frame that declares no byte behind its length is handed over with the length 2^64 - 1.
empty_declaration :
    (on_bytes (0 ∷ 0 ∷ b'S' ∷ []) 500 inside).1.inbound.app
    ≡ record { payload = []; told = 2 ^ 64 - 1 } ∷ []
unfolding on_bytes received conclude drain drain_from append round frame_length declared_length be16
    be_from client_valid packet_type known_fixed_wire_bytes dispatched client_dispatch hand_over
    message message_length
empty_declaration = refl

-- A message of as many bytes as a frame may have is sent in a frame of three more.
over_sized : length (sequenced_data (zeros 64)) ≡ 67
unfolding sequenced_data itchbook.Soup.Packets.frame itchbook.Mold.Bytes.write_be16
    itchbook.Mold.Bytes.be_bytes zeros
over_sized = refl

-- A second end of the session undoes the first.
straggler :
    (on_bytes (0 ∷ 1 ∷ b'Z' ∷ 0 ∷ 1 ∷ b'Z' ∷ []) 500 inside).1.inbound.state ≡ protocol_violation
unfolding on_bytes received conclude drain drain_from append round frame_length declared_length be16
    be_from client_valid packet_type known_fixed_wire_bytes dispatched client_dispatch hand_over
    message message_length
straggler = refl
