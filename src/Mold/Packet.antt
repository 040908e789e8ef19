-- ===== src/Mold/Packet.antt =====
-- mold/packet.hpp: the header of a datagram and the iterator over its message blocks.
pub mod RoundTrip
use itchbook.Base.{
  ℕ, zero, suc, ◌+◌, ◌-◌, ◌*◌, ◌/◌, ◌%◌, ◌^◌, ◌≤◌, ◌<◌, min, ◌≡◌, refl, sym, ap, subst, ◌∙◌, ◌≢◌,
  ◌↔◌, ◌⊎◌, inl, inr, Bool, true, false, not, ◌&&◌, ◌||◌, Option, none, some, List, [], ◌∷◌, ◌++◌,
  map, arith, ltb, leb, ◌==◌, if◌then◌else◌, Bool-cases, length, length-append,
}
use itchbook.Mold.Bytes.{Bytes, take_bytes, drop_bytes, be16, be64, write_be16, write_be64}

abbrev pub header_len : ℕ
header_len = 20

abbrev pub session_len : ℕ
session_len = 10

abbrev pub end_of_session_count : ℕ
end_of_session_count = 2 ^ 16 - 1

pub record Header : Type 0 where
  pub session : Bytes
  pub sequence : ℕ
  pub count : ℕ

abbrev pub heartbeat : Header → Bool
heartbeat h = h.count == 0

abbrev pub is_end : Header → Bool
is_end h = h.count == end_of_session_count

abbrev pub message_count : Header → ℕ
message_count h = if is_end h then 0 else h.count

unfoldable pub parse_header : Bytes → Option Header
parse_header p =
    if ltb (length p) header_len
    then none
    else some (record {
      session = take_bytes session_len p;
      sequence = be64 (drop_bytes session_len p);
      count = be16 (drop_bytes (session_len + 8) p);
    })

-- The session padded with spaces, or cut, to its ten bytes.
unfoldable pub pad_session : ℕ → Bytes → Bytes
pad_session zero xs = []
pad_session (suc n) [] = b' ' ∷ pad_session n []
pad_session (suc n) (x ∷ xs) = x ∷ pad_session n xs

unfoldable pub write_header : Bytes → ℕ → ℕ → Bytes
write_header session sequence count =
    pad_session session_len session ++ (write_be64 sequence ++ write_be16 count)

-- `next` of the iterator at the bytes from its offset on: the block there and the bytes behind
-- it, or nothing where the packet ends first.
unfoldable pub next_block : Bytes → Option (Bytes × Bytes)
next_block rest =
    if ltb (length rest) 2
    then none
    else (let n = be16 rest in
        if ltb (length rest) (2 + n)
        then none
        else some (take_bytes n (drop_bytes 2 rest), drop_bytes (2 + n) rest))

-- What the iterator yields: the messages, and how many blocks it could not read.
unfoldable pub blocks : ℕ → Bytes → List Bytes × ℕ
blocks zero rest = ([], 0)
blocks (suc remaining) rest = elim (next_block rest) [
  | none ↦ ([], suc remaining)
  | some (msg, rest') ↦ let (ms, missing) = blocks remaining rest' in (msg ∷ ms, missing)
]

-- A block as the publisher writes it.
unfoldable pub write_block : Bytes → Bytes
write_block msg = write_be16 (length msg) ++ msg

unfoldable pub write_blocks : List Bytes → Bytes
write_blocks [] = []
write_blocks (m ∷ ms) = write_block m ++ write_blocks ms
