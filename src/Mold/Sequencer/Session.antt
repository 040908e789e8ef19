-- ===== src/Mold/Sequencer/Session.antt =====
-- The sequencer over a whole session.
use itchbook.Base.{
  ℕ, zero, suc, ◌+◌, ◌-◌, ◌≡◌, refl, sym, ap, subst, ◌∙◌, inl, inr, true, false, not, ◌||◌, Option,
  none, some, List, [], ◌∷◌, arith, ltb, leb, ◌==◌, Bool-cases, length,
}
use itchbook.Mold.Bytes.{Bytes}
use itchbook.Mold.Packet.{Header, parse_header, message_count, is_end, heartbeat}
use itchbook.Mold.Sequencer.{
  Sequencer, SequencerConfig, Call, make_sequencer, place, in_session, enter_session, same_bytes,
  on_packet, flush_from, flush, count_heartbeat,
}
use itchbook.Mold.Sequencer.Covers.{nothing, Genuine, IsSession}
use itchbook.Mold.Sequencer.Deliver.{
  deliver-IsSession, declare_gap-IsSession, drain-IsSession, buffer_packet-IsSession,
}

abbrev SequenceOf : ℕ → Option Header → Type 0
SequenceOf k none = Unit {0}
SequenceOf k (some h) = h.sequence ≡ k

-- A packet has one sequence number.
own_sequence :
    (p : Bytes) (hdr : Header)
    → parse_header p ≡ some hdr
    → (h : Header) → parse_header p ≡ some h
    → h.sequence ≡ hdr.sequence
own_sequence p hdr e h f = subst (SequenceOf hdr.sequence) (sym e ∙ f) refl

module _ (stream : ℕ → Bytes) (start : ℕ) (log0 : List Call) (ses : Bytes) where
  abbrev Promised : Sequencer → Type 0
  Promised q = IsSession stream start log0 ses q

  place-IsSession :
      (p : Bytes) (hdr : Header) (q : Sequencer)
      → Genuine stream p
      → parse_header p ≡ some hdr
      → Promised q
      → Promised (place p hdr q)
  unfolding place
  place-IsSession p hdr q g e v = elim (Bool-cases (hdr.sequence == q.expected)) [
    | inl t ↦ rw t (
        drain-IsSession stream start log0 ses _
          (deliver-IsSession stream start log0 ses p hdr 0 q g e (ground arith) v))
    | inr t ↦ elim (Bool-cases (ltb hdr.sequence q.expected)) [
      | inr u ↦
          rw (t, u)
            (buffer_packet-IsSession stream start log0 ses p hdr q (g, own_sequence p hdr e) v)
      | inl u ↦ elim (Bool-cases (leb (hdr.sequence + message_count hdr) q.expected)) [
        | inl w ↦
            rw (t, u, w)
              (record {
                covers = v.covers;
                buffer = v.buffer;
                session = v.session;
                started = v.started;
              })
        | inr w ↦
            rw (t, u, w)
              (drain-IsSession stream start log0 ses _ (
                deliver-IsSession stream start log0 ses p hdr (q.expected - hdr.sequence) _ g e
                  (ground arith)
                  (record {
                    covers = v.covers;
                    buffer = v.buffer;
                    session = v.session;
                    started = v.started;
                  })))
      ]
    ]
  ]

  in_session-IsSession :
      (p : Bytes) (hdr : Header) (q : Sequencer)
      → Genuine stream p
      → parse_header p ≡ some hdr
      → Promised q
      → Promised (in_session p hdr q)
  unfolding in_session
  in_session-IsSession p hdr q g e v = elim (Bool-cases (is_end hdr)) [
    | inl t ↦
        rw t (record {
          covers = v.covers;
          buffer = v.buffer;
          session = v.session;
          started = v.started;
        })
    | inr t ↦ elim (Bool-cases (heartbeat hdr)) [
      | inl u ↦
          rw (t, u)
            (declare_gap-IsSession stream start log0 ses hdr.sequence (count_heartbeat q) (record {
              covers = v.covers;
              buffer = v.buffer;
              session = v.session;
              started = v.started;
            }))
      | inr u ↦ rw (t, u) (place-IsSession p hdr q g e v)
    ]
  ]

  -- A datagram of the session, in whatever order it comes, keeps the promise.
  pub on_packet-IsSession :
      (p : Bytes) (q : Sequencer)
      → Genuine stream p
      → ((hdr : Header) → parse_header p ≡ some hdr → same_bytes ses hdr.session ≡ true)
      → Promised q
      → Promised (on_packet p q)
  unfolding on_packet
  on_packet-IsSession p q g same v = from (parse_header p) refl
    where
      seen : Promised (record q { stats = record q.stats { packets = q.stats.packets + 1 } })
      seen = record {
        covers = v.covers;
        buffer = v.buffer;
        session = v.session;
        started = v.started;
      }

      from : (r : Option Header) → parse_header p ≡ r → Promised (on_packet p q)
      from none e =
          rw (e, on_packet)
            (record {
              covers = v.covers;
              buffer = v.buffer;
              session = v.session;
              started = v.started;
            })
      from (some hdr) e =
          let t : (not q.started || not (same_bytes q.session hdr.session)) ≡ false =
            ap (λ x. not x || not (same_bytes q.session hdr.session)) v.started
            ∙ ap (λ x. not (same_bytes x hdr.session)) v.session
            ∙ ap not (same hdr e) in
          rw (e, t, on_packet) (in_session-IsSession p hdr _ g e seen)

  flush_from-IsSession : (n : ℕ) (q : Sequencer) → Promised q → Promised (flush_from n q)
  unfolding flush_from
  flush_from-IsSession zero q v = v
  flush_from-IsSession (suc n) q v = elim (Bool-cases (length q.buffer == 0)) [
    | inl t ↦ rw t v
    | inr t ↦ rw t (
        flush_from-IsSession n _ (
          drain-IsSession stream start log0 ses _
            (declare_gap-IsSession stream start log0 ses _ q v)))
  ]

  -- So does the flush at the end.
  pub flush-IsSession : (q : Sequencer) → Promised q → Promised (flush q)
  unfolding flush
  flush-IsSession q v = flush_from-IsSession (length q.buffer) q v

-- The datagrams of a run, in the order of their arrival.
abbrev pub receive_all : List Bytes → Sequencer → Sequencer
receive_all [] q = q
receive_all (p ∷ ps) q = receive_all ps (on_packet p q)

module _ (stream : ℕ → Bytes) (ses : Bytes) where
  -- A datagram of the session `ses` and of its stream.
  abbrev pub Belongs : Bytes → Type 0
  Belongs p =
      Genuine stream p
      × ((hdr : Header) → parse_header p ≡ some hdr → same_bytes ses hdr.session ≡ true)

  abbrev pub AllBelong : List Bytes → Type 0
  AllBelong [] = Unit {0}
  AllBelong (p ∷ ps) = Belongs p × AllBelong ps

  pub receive_all-IsSession :
      (start : ℕ) (log0 : List Call) (ps : List Bytes) (q : Sequencer)
      → AllBelong ps
      → IsSession stream start log0 ses q
      → IsSession stream start log0 ses (receive_all ps q)
  receive_all-IsSession start log0 [] q g v = v
  receive_all-IsSession start log0 (p ∷ ps) q ((g, s), gs) v =
      receive_all-IsSession start log0 ps (on_packet p q) gs
        (on_packet-IsSession stream start log0 ses p q g s v)

  -- The first datagram starts the session at its own sequence number.
  pub first_packet :
      (cfg : SequencerConfig) (p : Bytes) (hdr : Header)
      → Genuine stream p
      → parse_header p ≡ some hdr
      → hdr.session ≡ ses
      → IsSession stream hdr.sequence [] ses (on_packet p (make_sequencer cfg))
  unfolding make_sequencer on_packet in_session enter_session
  first_packet cfg p hdr g e s =
      rw (e, on_packet)
        (in_session-IsSession stream hdr.sequence [] ses p hdr _ g e
          (record { covers = nothing; buffer = tt; session = s; started = refl }))

  -- If a first datagram that can be parsed and any others, in any order, lost, repeated or cut
  -- short, are of one session and carry its stream, then after them and a flush a fresh sequencer
  -- has delivered each sequence number from the first datagram's up to `expected` once and in order
  -- with the message of the stream, passed it over as an empty message, or reported it lost.
  pub receive_all_lem :
      (cfg : SequencerConfig) (p : Bytes) (hdr : Header) (ps : List Bytes)
      → Genuine stream p
      → parse_header p ≡ some hdr
      → hdr.session ≡ ses
      → AllBelong ps
      → IsSession stream hdr.sequence [] ses
          (flush (receive_all ps (on_packet p (make_sequencer cfg))))
  receive_all_lem cfg p hdr ps g e s gs =
      flush-IsSession stream hdr.sequence [] ses _
        (receive_all-IsSession hdr.sequence [] ps _ gs (first_packet cfg p hdr g e s))
