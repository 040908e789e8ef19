-- ===== src/Soup/Packets.antt =====
-- soupbin/messages.hpp and soupbin/encode.hpp: the fields of a packet, and how it is written. A
-- packet is the list of its bytes, a C string the list of its characters.
use itchbook.Base.{
  ℕ, zero, suc, ◌+◌, ◌-◌, ◌%◌, ◌^◌, [], ◌∷◌, ◌++◌, ltb, ◌==◌, if◌then◌else◌, length,
}
use itchbook.Base.Words.{sub64}
use itchbook.Mold.Bytes.{Bytes, take_bytes, drop_bytes, be16, write_be16}

unfoldable pub declared_length : Bytes → ℕ
declared_length p = be16 p

unfoldable pub frame_length : Bytes → ℕ
frame_length p = declared_length p + 2

abbrev pub first_byte : Bytes → ℕ
first_byte [] = 0
first_byte (x ∷ xs) = x

unfoldable pub packet_type : Bytes → ℕ
packet_type p = first_byte (drop_bytes 2 p)

unfoldable pub accepted_session : Bytes → Bytes
accepted_session p = take_bytes 10 (drop_bytes 3 p)

unfoldable pub reject_reason : Bytes → ℕ
reject_reason p = first_byte (drop_bytes 3 p)

unfoldable pub message : Bytes → Bytes
message p = drop_bytes 3 p

-- `size_t` wraps below zero.
unfoldable pub message_length : Bytes → ℕ
message_length p = sub64 (declared_length p) 1

unfoldable pub login_username : Bytes → Bytes
login_username p = take_bytes 6 (drop_bytes 3 p)

unfoldable pub login_password : Bytes → Bytes
login_password p = take_bytes 10 (drop_bytes 9 p)

unfoldable pub login_requested_session : Bytes → Bytes
login_requested_session p = take_bytes 10 (drop_bytes 19 p)

unfoldable pub login_requested_sequence_number : Bytes → Bytes
login_requested_sequence_number p = take_bytes 20 (drop_bytes 29 p)

abbrev pub login_accepted_wire_bytes : ℕ
login_accepted_wire_bytes = 33

abbrev pub login_rejected_wire_bytes : ℕ
login_rejected_wire_bytes = 4

abbrev pub heartbeat_wire_bytes : ℕ
heartbeat_wire_bytes = 3

abbrev pub end_of_session_wire_bytes : ℕ
end_of_session_wire_bytes = 3

abbrev pub login_request_wire_bytes : ℕ
login_request_wire_bytes = 49

abbrev pub logout_request_wire_bytes : ℕ
logout_request_wire_bytes = 3

-- Zero for a type whose length varies.
unfoldable pub known_fixed_wire_bytes : ℕ → ℕ
known_fixed_wire_bytes t =
    if t == b'A'
    then login_accepted_wire_bytes
    else if t == b'J'
    then login_rejected_wire_bytes
    else if t == b'H'
    then heartbeat_wire_bytes
    else if t == b'Z'
    then end_of_session_wire_bytes
    else if t == b'L'
    then login_request_wire_bytes
    else if t == b'R'
    then heartbeat_wire_bytes
    else if t == b'O'
    then logout_request_wire_bytes
    else 0

unfoldable pub put_right_padded : ℕ → Bytes → Bytes
put_right_padded zero s = []
put_right_padded (suc n) [] = b' ' ∷ put_right_padded n []
put_right_padded (suc n) (x ∷ s) = x ∷ put_right_padded n s

unfoldable pub spaces : ℕ → Bytes
spaces zero = []
spaces (suc n) = b' ' ∷ spaces n

unfoldable pub put_left_padded : ℕ → Bytes → Bytes
put_left_padded n s =
    let taken = if ltb (length s) n then length s else n in spaces (n - taken) ++ take_bytes taken s

-- The length field is 16 bits wide.
unfoldable pub frame : ℕ → ℕ → Bytes → Bytes
frame type type_and_payload_len payload =
    write_be16 (type_and_payload_len % 2 ^ 16) ++ (type ∷ payload)

unfoldable pub debug : Bytes → Bytes
debug text = frame b'+' (1 + length text) text

unfoldable pub login_accepted : Bytes → Bytes → Bytes
login_accepted session sequence_number =
    frame b'A' 31 (put_left_padded 10 session ++ put_left_padded 20 sequence_number)

unfoldable pub login_rejected : ℕ → Bytes
login_rejected reason = frame b'J' 2 (reason ∷ [])

unfoldable pub sequenced_data : Bytes → Bytes
sequenced_data msg = frame b'S' (1 + length msg) msg

unfoldable pub server_heartbeat : Bytes
server_heartbeat = frame b'H' 1 []

unfoldable pub end_of_session : Bytes
end_of_session = frame b'Z' 1 []

unfoldable pub login_request : Bytes → Bytes → Bytes → Bytes → Bytes
login_request username password requested_session requested_sequence_number = frame b'L' 47 (
    put_right_padded 6 username
    ++ (put_right_padded 10 password
        ++ (put_left_padded 10 requested_session ++ put_left_padded 20 requested_sequence_number)))

unfoldable pub unsequenced_data : Bytes → Bytes
unsequenced_data msg = frame b'U' (1 + length msg) msg

unfoldable pub client_heartbeat : Bytes
client_heartbeat = frame b'R' 1 []

unfoldable pub logout_request : Bytes
logout_request = frame b'O' 1 []
