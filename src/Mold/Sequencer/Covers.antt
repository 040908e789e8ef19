-- ===== src/Mold/Sequencer/Covers.antt =====
-- What the sequencer promises: each sequence number is delivered once, in order, or reported lost.
use itchbook.Base.{ℕ, zero, suc, ◌+◌, ◌<◌, ◌≡◌, true, none, some, List, [], ◌∷◌, ◌++◌, length}
use itchbook.Mold.Bytes.{Bytes, drop_bytes}
use itchbook.Mold.Packet.{Header, header_len, parse_header, message_count, next_block}
use itchbook.Mold.Sequencer.{Sequencer, Call, on_message, on_gap, Buffer}

-- The calls made so far: behind those of `log0`, from the sequence number `start` up to an end,
-- each number is delivered with the message that `stream` has there, is passed over in silence if
-- that message is empty, or lies in a range reported lost.
pub data Covers (stream : ℕ → Bytes) (start : ℕ) (log0 : List Call) : ℕ → List Call → Type 0 where
  nothing : Covers stream start log0 start log0
  message :
      (b : ℕ) (log : List Call)
      → Covers stream start log0 b log
      → 0 < length (stream b)
      → Covers stream start log0 (b + 1) (log ++ (on_message (stream b) ∷ []))
  silent :
      (b : ℕ) (log : List Call)
      → Covers stream start log0 b log
      → length (stream b) ≡ 0
      → Covers stream start log0 (b + 1) log
  gap :
      (b : ℕ) (log : List Call) (n : ℕ)
      → Covers stream start log0 b log
      → 0 < n
      → Covers stream start log0 (b + n) (log ++ (on_gap b n ∷ []))

module _ (stream : ℕ → Bytes) where
  -- The blocks that can be read are the messages of the stream from `a` on.
  abbrev pub Matches : ℕ → ℕ → Bytes → Type 0
  Matches a zero rest = Unit {0}
  Matches a (suc n) rest = elim (next_block rest) [
    | none ↦ Unit {0}
    | some (msg, rest') ↦ (msg ≡ stream a) × Matches (a + 1) n rest'
  ]

  -- A datagram that the publisher of the stream sent, whole or cut short.
  abbrev pub Genuine : Bytes → Type 0
  Genuine p =
      (hdr : Header)
      → parse_header p ≡ some hdr
      → Matches hdr.sequence (message_count hdr) (drop_bytes header_len p)

  -- A packet that waits is genuine, and stands at its own sequence number.
  abbrev pub Waits : ℕ → Bytes → Type 0
  Waits k p = Genuine p × ((hdr : Header) → parse_header p ≡ some hdr → hdr.sequence ≡ k)

  abbrev pub AllGenuine : Buffer → Type 0
  AllGenuine [] = Unit {0}
  AllGenuine ((k, p) ∷ b) = Waits k p × AllGenuine b

  -- What holds during a session that began at `start` with the calls `log0` behind it.
  pub record IsSession (start : ℕ) (log0 : List Call) (ses : Bytes) (q : Sequencer) : Type 0 where
    pub covers : Covers stream start log0 q.expected q.log
    pub buffer : AllGenuine q.buffer
    pub session : q.session ≡ ses
    pub started : q.started ≡ true
