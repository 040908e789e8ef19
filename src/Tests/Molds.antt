-- ===== src/Tests/Molds.antt =====
-- mold/: a publisher's datagrams, and a sequencer that gets them out of order.
use itchbook.Base.{
  ℕ, ◌≡◌, refl, sym, subst, ◌∙◌, ◌++◌, Option, ◌<◌, ◌^◌, true, some, none, [], ◌∷◌, arith,
}
use itchbook.Mold.Bytes.{Bytes, write_be64, be_bytes, write_be16, be16, be_from, be64}
use itchbook.Mold.Packet.{
  Header, parse_header, write_header, pad_session, session_len, blocks, write_blocks, write_block,
  next_block,
}
use itchbook.Mold.Packet.RoundTrip.{parse_header-write, blocks-write}
use itchbook.Mold.Publisher.{make_publisher, add, sequence_of_next_add}
use itchbook.Mold.Publisher.Genuine.{Added, add_lem, make_publisher-IsPublishing, blocks-Genuine}
use itchbook.Mold.Sequencer.{
  Sequencer, SequencerConfig, make_sequencer, on_packet, flush, same_bytes, on_message, on_gap,
  in_session, place, enter_session, drain, deliver, buffer_packet, declare_gap, deliver_from,
  deliver_one, drain_from, emplace, has_packet, keep_packet, report_gap,
}
use itchbook.Mold.Sequencer.Covers.{Genuine, IsSession}
use itchbook.Mold.Sequencer.Flush.{flush-buffer}
use itchbook.Mold.Sequencer.Session.{
  receive_all, receive_all_lem, Belongs, receive_all-IsSession, first_packet,
}

abbrev ses : Bytes
ses = b'S' ∷ b'E' ∷ b'S' ∷ []

abbrev stream : ℕ → Bytes
stream n = b'D' ∷ n ∷ []

parse_header-write_example :
    parse_header (write_header ses 7 2 ++ (1 ∷ []))
    ≡ some (record { session = pad_session session_len ses; sequence = 7; count = 2 })
parse_header-write_example = parse_header-write ses 7 2 (1 ∷ []) (omega arith) (omega arith)

blocks-write_example :
    blocks 2 (write_blocks (stream 1 ∷ stream 2 ∷ []) ++ []) ≡ (stream 1 ∷ stream 2 ∷ [], 0)
blocks-write_example = blocks-write (stream 1 ∷ stream 2 ∷ []) [] (omega arith, (omega arith, tt))

add_lem_example :
    Added stream (make_publisher ses 1400) (stream 1) (add (make_publisher ses 1400) (stream 1))
unfolding make_publisher sequence_of_next_add
add_lem_example =
    add_lem stream (make_publisher ses 1400) [] (stream 1)
      (make_publisher-IsPublishing stream ses 1400 (omega arith)) (omega arith) refl (omega arith)

abbrev padded : Bytes
padded = pad_session session_len ses

abbrev header : ℕ → Header
header n = record { session = padded; sequence = n; count = 1 }

padded_same : same_bytes padded padded ≡ true
unfolding pad_session same_bytes
padded_same = refl

abbrev cfg : SequencerConfig
cfg = record { reorder_depth = 4; reorder_patience = 8 }

-- The datagram of one message.
abbrev datagram : ℕ → Bytes
datagram n = write_header ses n 1 ++ write_blocks (stream n ∷ [])

datagram-Genuine : (n : ℕ) → n < 2 ^ 64 → Genuine stream (datagram n)
datagram-Genuine n h =
    blocks-Genuine stream ses n (stream n ∷ []) h (omega arith) (omega arith, tt) (refl, tt)

datagram-header : (n : ℕ) → n < 2 ^ 64 → parse_header (datagram n) ≡ some (header n)
datagram-header n h = parse_header-write ses n 1 (write_blocks (stream n ∷ [])) h (omega arith)

abbrev SameSession : Option Header → Type 0
SameSession none = Unit {0}
SameSession (some h) = same_bytes padded h.session ≡ true

datagram-Belongs : (n : ℕ) → n < 2 ^ 64 → Belongs stream padded (datagram n)
datagram-Belongs n h =
    (datagram-Genuine n h, λ hdr e. subst SameSession (sym (datagram-header n h) ∙ e) padded_same)

-- The first, the third, and the late second of three datagrams.
receive_all_lem_example : IsSession stream 1 [] padded (
    flush
      (receive_all (datagram 3 ∷ datagram 2 ∷ []) (on_packet (datagram 1) (make_sequencer cfg))))
receive_all_lem_example =
    receive_all_lem stream padded cfg (datagram 1) (header 1) (datagram 3 ∷ datagram 2 ∷ [])
      (datagram-Genuine 1 (omega arith)) (datagram-header 1 (omega arith)) refl
      (datagram-Belongs 3 (omega arith), (datagram-Belongs 2 (omega arith), tt))

-- All three are delivered, in order.
in_order :
    (receive_all (datagram 3 ∷ datagram 2 ∷ []) (on_packet (datagram 1) (make_sequencer cfg))).log
    ≡ on_message (stream 1) ∷ on_message (stream 2) ∷ on_message (stream 3) ∷ []
unfolding make_sequencer on_packet parse_header write_header pad_session write_be64 be_bytes
    write_be16 write_blocks write_block in_session be16 be_from place be64 enter_session drain
    deliver next_block buffer_packet declare_gap deliver_from deliver_one drain_from emplace
    has_packet keep_packet report_gap same_bytes
in_order = refl

-- The third datagram waits in vain for the second.
abbrev gapped : Sequencer
gapped = receive_all (datagram 3 ∷ []) (on_packet (datagram 1) (make_sequencer cfg))

gapped-IsSession : IsSession stream 1 [] padded gapped
gapped-IsSession =
    receive_all-IsSession stream padded 1 [] (datagram 3 ∷ [])
      (on_packet (datagram 1) (make_sequencer cfg)) (datagram-Belongs 3 (omega arith), tt)
      (first_packet stream padded cfg (datagram 1) (header 1) (datagram-Genuine 1 (omega arith))
        (datagram-header 1 (omega arith)) refl)

flush-buffer_example : (flush gapped).buffer ≡ []
flush-buffer_example = flush-buffer stream 1 [] padded gapped gapped-IsSession

-- With 1 and 2 delivered, a datagram of 1, 2 and 3 that is cut in front of its first block makes the
-- sequencer report three numbers lost from 3 on, though only 3 is missing.
cut_overlap :
    (receive_all
      (datagram 2 ∷ write_header ses 1 3 ∷ [])
      (on_packet (datagram 1) (make_sequencer cfg))).log
    ≡ on_message (stream 1) ∷ on_message (stream 2) ∷ on_gap 3 3 ∷ []
unfolding make_sequencer on_packet parse_header write_header pad_session write_be64 be_bytes
    write_be16 write_blocks write_block in_session be16 be_from place be64 enter_session drain
    deliver next_block buffer_packet declare_gap deliver_from deliver_one drain_from emplace
    has_packet keep_packet report_gap same_bytes
cut_overlap = refl
