-- ===== src/Mold/Sequencer.antt =====
-- mold/sequencer.hpp: datagrams in any order become messages in sequence, or gaps that are
-- reported. The handler's calls are a log. Sequence numbers and counters are plain numbers.
pub mod Covers
pub mod Deliver
pub mod Session
pub mod Flush
use itchbook.Base.{
  ℕ, zero, suc, ◌+◌, ◌-◌, ◌*◌, ◌/◌, ◌%◌, ◌^◌, ◌≤◌, ◌<◌, min, ◌≡◌, refl, sym, ap, subst, ◌∙◌, ◌≢◌,
  ◌↔◌, ◌⊎◌, inl, inr, Bool, true, false, not, ◌&&◌, ◌||◌, Option, none, some, List, [], ◌∷◌, ◌++◌,
  map, arith, ltb, leb, ◌==◌, if◌then◌else◌, Bool-cases, length, length-append,
}
use itchbook.Mold.Bytes.{Bytes, drop_bytes}
use itchbook.Mold.Packet.{
  Header, header_len, parse_header, message_count, is_end, heartbeat, next_block,
}

pub record SequencerConfig : Type 0 where
  pub reorder_depth : ℕ
  pub reorder_patience : ℕ

pub record SequencerStats : Type 0 where
  pub packets : ℕ
  pub messages : ℕ
  pub heartbeats : ℕ
  pub duplicate_packets : ℕ
  pub duplicate_messages : ℕ
  pub reordered_packets : ℕ
  pub gaps : ℕ
  pub messages_lost : ℕ
  pub truncated_packets : ℕ
  pub session_changes : ℕ

-- A call of the handler.
pub data Call : Type 0 where
  on_message : Bytes → Call
  on_gap : ℕ → ℕ → Call

-- `std::map<uint64_t, std::vector<uint8_t>>`: the packets by rising sequence.
abbrev pub Buffer : Type 0
Buffer = List (ℕ × Bytes)

pub record Sequencer : Type 0 where
  pub cfg : SequencerConfig
  pub stats : SequencerStats
  pub buffer : Buffer
  pub session : Bytes
  pub expected : ℕ
  pub since_gap : ℕ
  pub started : Bool
  pub ended : Bool
  pub log : List Call

unfoldable pub make_sequencer : SequencerConfig → Sequencer
make_sequencer cfg = record {
  cfg = cfg;
  stats = record {
    packets = 0;
    messages = 0;
    heartbeats = 0;
    duplicate_packets = 0;
    duplicate_messages = 0;
    reordered_packets = 0;
    gaps = 0;
    messages_lost = 0;
    truncated_packets = 0;
    session_changes = 0;
  };
  buffer = [];
  session = [];
  expected = 0;
  since_gap = 0;
  started = false;
  ended = false;
  log = [];
}

-- The body that `deliver` and `declare_gap` share: `missing` sequence numbers are reported lost.
unfoldable pub report_gap : Sequencer → ℕ → Sequencer
report_gap q missing =
    let s = q.stats in
    record q {
      stats = record s { gaps = s.gaps + 1; messages_lost = s.messages_lost + missing };
      log = q.log ++ (on_gap q.expected missing ∷ []);
      expected = q.expected + missing;
    }

-- One message of `deliver`: an empty one advances the sequence and calls no one.
unfoldable pub deliver_one : Sequencer → Bytes → Sequencer
deliver_one q msg =
    let s = q.stats in
    if length msg == 0 then record q { expected = q.expected + 1 } else record q {
      log = q.log ++ (on_message msg ∷ []);
      stats = record s { messages = s.messages + 1 };
      expected = q.expected + 1;
    }

-- The loop of `deliver`: `remaining` blocks are left, `rest` are the bytes at the iterator, and
-- the first `skip` messages were delivered before.
unfoldable pub deliver_from : ℕ → Bytes → ℕ → Sequencer → Sequencer
deliver_from zero rest skip q = q
deliver_from (suc remaining) rest skip q = elim (next_block rest) [
  | none ↦
      let s = q.stats in
      report_gap (record q { stats = record s { truncated_packets = s.truncated_packets + 1 } })
        (suc remaining)
  | some (msg, rest') ↦
      deliver_from remaining rest' (skip - 1) (if skip == 0 then deliver_one q msg else q)
]

unfoldable pub deliver : Bytes → Header → ℕ → Sequencer → Sequencer
unfolding deliver_from
deliver p hdr skip q = deliver_from (message_count hdr) (drop_bytes header_len p) skip q

unfoldable pub declare_gap : ℕ → Sequencer → Sequencer
unfolding report_gap
declare_gap up_to q =
    if leb up_to q.expected then q else record (report_gap q (up_to - q.expected)) { since_gap = 0 }

abbrev pub count_duplicate : Sequencer → Sequencer
count_duplicate q =
    let s = q.stats in record q { stats = record s { duplicate_packets = s.duplicate_packets + 1 } }

abbrev pub count_reordered : Sequencer → Sequencer
count_reordered q =
    let s = q.stats in record q { stats = record s { reordered_packets = s.reordered_packets + 1 } }

-- The loop of `drain`, along the buffer: each round erases its first packet or ends the loop.
unfoldable pub drain_from : Buffer → Sequencer → Sequencer
drain_from [] q = record q { buffer = [] }
drain_from ((k, p) ∷ rest) q = elim (parse_header p) [
  | none ↦ drain_from rest q
  | some hdr ↦
      if leb (hdr.sequence + message_count hdr) q.expected
      then drain_from rest (count_duplicate q)
      else if ltb q.expected hdr.sequence
      then record q { buffer = (k, p) ∷ rest }
      else drain_from rest (deliver p hdr (q.expected - hdr.sequence) (count_reordered q))
]

unfoldable pub drain : Sequencer → Sequencer
unfolding drain_from
drain q =
    let q1 = drain_from q.buffer q in
    if length q1.buffer == 0 then record q1 { since_gap = 0 } else q1

-- `buffer_.find` and `emplace`: the packet is put at its place, unless its sequence is taken.
unfoldable pub has_packet : Buffer → ℕ → Bool
has_packet [] k = false
has_packet ((j, p) ∷ b) k = (j == k) || has_packet b k

unfoldable pub emplace : Buffer → ℕ → Bytes → Buffer
emplace [] k p = (k, p) ∷ []
emplace ((j, r) ∷ b) k p =
    if ltb k j then (k, p) ∷ (j, r) ∷ b else if j == k then (j, r) ∷ b else (j, r) ∷ emplace b k p

abbrev pub first_sequence : Buffer → ℕ → ℕ
first_sequence [] d = d
first_sequence ((k, p) ∷ b) d = k

unfoldable pub keep_packet : Bytes → Header → Sequencer → Sequencer
keep_packet p hdr q =
    let q1 =
      if has_packet q.buffer hdr.sequence
      then count_duplicate q
      else record q { buffer = emplace q.buffer hdr.sequence p } in
    record q1 { since_gap = q1.since_gap + 1 }

unfoldable pub buffer_packet : Bytes → Header → Sequencer → Sequencer
buffer_packet p hdr q =
    let q1 = keep_packet p hdr q in
    if leb q1.cfg.reorder_depth (length q1.buffer) || ltb q1.cfg.reorder_patience q1.since_gap
    then drain (declare_gap (first_sequence q1.buffer q1.expected) q1)
    else q1

abbrev pub count_old : ℕ → Sequencer → Sequencer
count_old n q =
    let s = q.stats in
    record q { stats = record s { duplicate_messages = s.duplicate_messages + n } }

-- `on_packet` behind its tests of the session: a packet with messages.
unfoldable pub place : Bytes → Header → Sequencer → Sequencer
place p hdr q =
    if hdr.sequence == q.expected
    then drain (deliver p hdr 0 q)
    else if ltb hdr.sequence q.expected
    then (if leb (hdr.sequence + message_count hdr) q.expected
        then count_old (message_count hdr) (count_duplicate q)
        else (let already = q.expected - hdr.sequence in
            drain (deliver p hdr already (count_old already q))))
    else buffer_packet p hdr q

abbrev pub count_heartbeat : Sequencer → Sequencer
count_heartbeat q =
    let s = q.stats in record q { stats = record s { heartbeats = s.heartbeats + 1 } }

-- `on_packet` of a packet of the session.
unfoldable pub in_session : Bytes → Header → Sequencer → Sequencer
in_session p hdr q =
    if is_end hdr
    then record q { ended = true }
    else if heartbeat hdr
    then declare_gap hdr.sequence (count_heartbeat q)
    else place p hdr q

-- `strcmp` of two sessions: bytes behind a NUL do not count.
unfoldable pub same_bytes : Bytes → Bytes → Bool
same_bytes [] [] = true
same_bytes [] (y ∷ ys) = false
same_bytes (x ∷ xs) [] = false
same_bytes (x ∷ xs) (y ∷ ys) = (x == y) && (x == 0 || same_bytes xs ys)

-- A session that starts, or changes.
unfoldable pub enter_session : Header → Sequencer → Sequencer
enter_session hdr q =
    let s = q.stats in
    record q {
      stats = if q.started then record s { session_changes = s.session_changes + 1 } else s;
      session = hdr.session;
      expected = hdr.sequence;
      buffer = [];
      started = true;
    }

unfoldable pub on_packet : Bytes → Sequencer → Sequencer
on_packet p q =
    let s = q.stats in
    elim (parse_header p) [
      | none ↦ record q { stats = record s { truncated_packets = s.truncated_packets + 1 } }
      | some hdr ↦
          let q1 = record q { stats = record s { packets = s.packets + 1 } } in
          in_session p hdr (
            if not q.started || not (same_bytes q.session hdr.session)
            then enter_session hdr q1
            else q1)
    ]

-- The loop of `flush`: every round takes at least the first packet of the buffer.
unfoldable pub flush_from : ℕ → Sequencer → Sequencer
flush_from zero q = q
flush_from (suc fuel) q =
    let rest = flush_from fuel (drain (declare_gap (first_sequence q.buffer q.expected) q)) in
    if length q.buffer == 0 then q else rest

-- A buffer of `n` packets is empty after at most `n` rounds.
unfoldable pub flush : Sequencer → Sequencer
unfolding flush_from
flush q = flush_from (length q.buffer) q
