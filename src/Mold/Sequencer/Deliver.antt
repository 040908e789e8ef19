-- ===== src/Mold/Sequencer/Deliver.antt =====
-- Delivery, declared gaps and the buffer keep what the sequencer promises.
use itchbook.Base.{
  ℕ, zero, suc, ◌+◌, ◌-◌, ◌<◌, ◌≡◌, refl, sym, ap, subst, ◌∙◌, inl, inr, ◌||◌, Option, none, some,
  List, [], ◌∷◌, ◌++◌, arith, ltb, leb, ◌==◌, Bool-cases, length,
}
use itchbook.Mold.Bytes.{Bytes, drop_bytes}
use itchbook.Mold.Packet.{Header, header_len, parse_header, message_count, next_block}
use itchbook.Mold.Sequencer.{
  Sequencer, Call, on_message, Buffer, report_gap, deliver_one, deliver_from, deliver, declare_gap,
  drain_from, drain, emplace, has_packet, keep_packet, buffer_packet, count_reordered,
}
use itchbook.Mold.Sequencer.Covers.{
  Covers, message, silent, gap, Matches, Genuine, Waits, AllGenuine, IsSession,
}

module _ (stream : ℕ → Bytes) (start : ℕ) (log0 : List Call) (ses : Bytes) where
  abbrev Promised : Sequencer → Type 0
  Promised q = IsSession stream start log0 ses q

  report_gap-IsSession : (q : Sequencer) (n : ℕ) → 0 < n → Promised q → Promised (report_gap q n)
  unfolding report_gap
  report_gap-IsSession q n h v = record {
    covers = gap q.expected q.log n v.covers h;
    buffer = v.buffer;
    session = v.session;
    started = v.started;
  }

  deliver_one-IsSession :
      (q : Sequencer) (m : Bytes) → m ≡ stream q.expected → Promised q → Promised (deliver_one q m)
  unfolding deliver_one
  deliver_one-IsSession q m e v = elim (Bool-cases (length m == 0)) [
    | inl t ↦
        let z : length (stream q.expected) ≡ 0 = ap length (sym e) ∙ ground arith in
        rw t (record {
          covers = silent q.expected q.log v.covers z;
          buffer = v.buffer;
          session = v.session;
          started = v.started;
        })
    | inr t ↦
        let p : 0 < length (stream q.expected) = subst (λ x. 0 < length x) e (ground arith) in
        rw t (record {
          covers =
              subst (λ x. Covers stream start log0 (q.expected + 1) (q.log ++ (on_message x ∷ [])))
                (sym e) (message q.expected q.log v.covers p);
          buffer = v.buffer;
          session = v.session;
          started = v.started;
        })
  ]

  deliver_one-expected : (q : Sequencer) (m : Bytes) → (deliver_one q m).expected ≡ q.expected + 1
  unfolding deliver_one
  deliver_one-expected q m = elim (Bool-cases (length m == 0)) [
    | inl t ↦ rw t refl
    | inr t ↦ rw t refl
  ]

  -- One round of the delivery loop, given that the rounds behind it keep the promise.
  deliver_step :
      (n : ℕ) (rest : Bytes) (skip a : ℕ) (q : Sequencer) (r : Option (Bytes × Bytes))
      → next_block rest ≡ r
      → Matches stream a (suc n) rest
      → a + skip ≡ q.expected
      → Promised q
      → ((rest' : Bytes) (skip' a' : ℕ) (q' : Sequencer)
          → Matches stream a' n rest'
          → a' + skip' ≡ q'.expected
          → Promised q'
          → Promised (deliver_from n rest' skip' q'))
      → Promised (deliver_from (suc n) rest skip q)
  unfolding deliver_from
  deliver_step n rest skip a q none b m e v ih =
      rw (b, deliver_from)
        (report_gap-IsSession _ (suc n) (omega arith) (record {
          covers = v.covers;
          buffer = v.buffer;
          session = v.session;
          started = v.started;
        }))
  deliver_step n rest skip a q (some (msg, rest')) b m e v ih =
      let (same, ms) = rw (b, Matches) at m in
      let x = deliver_one-expected q msg in
      elim (Bool-cases (skip == 0)) [
        | inl t ↦
            let z : a ≡ q.expected = ground arith in
            rw (b, t, deliver_from)
              (ih rest' (skip - 1) (a + 1) (deliver_one q msg) ms (ground arith)
                (deliver_one-IsSession q msg (same ∙ ap stream z) v))
        | inr t ↦ rw (b, t, deliver_from) (ih rest' (skip - 1) (a + 1) q ms (ground arith) v)
      ]

  deliver_from-IsSession :
      (n : ℕ) (rest : Bytes) (skip a : ℕ) (q : Sequencer)
      → Matches stream a n rest
      → a + skip ≡ q.expected
      → Promised q
      → Promised (deliver_from n rest skip q)
  unfolding deliver_from
  deliver_from-IsSession zero rest skip a q m e v = v
  deliver_from-IsSession (suc n) rest skip a q m e v =
      deliver_step n rest skip a q (next_block rest) refl m e v (deliver_from-IsSession n)

  pub deliver-IsSession :
      (p : Bytes) (hdr : Header) (skip : ℕ) (q : Sequencer)
      → Genuine stream p
      → parse_header p ≡ some hdr
      → hdr.sequence + skip ≡ q.expected
      → Promised q
      → Promised (deliver p hdr skip q)
  unfolding deliver
  deliver-IsSession p hdr skip q g e s v =
      deliver_from-IsSession (message_count hdr) (drop_bytes header_len p) skip hdr.sequence q
        (g hdr e) s v

  pub declare_gap-IsSession :
      (up_to : ℕ) (q : Sequencer) → Promised q → Promised (declare_gap up_to q)
  unfolding declare_gap
  declare_gap-IsSession up_to q v = elim (Bool-cases (leb up_to q.expected)) [
    | inl t ↦ rw t v
    | inr t ↦
        let w = report_gap-IsSession q (up_to - q.expected) (ground arith) v in
        rw t (record {
          covers = w.covers;
          buffer = w.buffer;
          session = w.session;
          started = w.started;
        })
  ]

  drain_step :
      (k : ℕ) (p : Bytes) (b : Buffer) (q : Sequencer) (r : Option Header)
      → parse_header p ≡ r
      → Waits stream k p
      → AllGenuine stream b
      → Promised q
      → ((q' : Sequencer) → AllGenuine stream b → Promised q' → Promised (drain_from b q'))
      → Promised (drain_from ((k, p) ∷ b) q)
  unfolding drain_from
  drain_step k p b q none e g gs v ih = rw (e, drain_from) (ih q gs v)
  drain_step k p b q (some hdr) e g gs v ih =
      elim (Bool-cases (leb (hdr.sequence + message_count hdr) q.expected)) [
        | inl t ↦
            rw (e, t, drain_from)
              (ih _ gs (record {
                covers = v.covers;
                buffer = v.buffer;
                session = v.session;
                started = v.started;
              }))
        | inr t ↦ elim (Bool-cases (ltb q.expected hdr.sequence)) [
          | inl u ↦
              rw (e, t, u, drain_from)
                (record {
                  covers = v.covers;
                  buffer = (g, gs);
                  session = v.session;
                  started = v.started;
                })
          | inr u ↦
              rw (e, t, u, drain_from)
                (ih _ gs (
                  deliver-IsSession p hdr (q.expected - hdr.sequence) (count_reordered q) g.0 e
                    (ground arith)
                    (record {
                      covers = v.covers;
                      buffer = v.buffer;
                      session = v.session;
                      started = v.started;
                    })))
        ]
      ]

  drain_from-IsSession :
      (b : Buffer) (q : Sequencer) → AllGenuine stream b → Promised q → Promised (drain_from b q)
  unfolding drain_from
  drain_from-IsSession [] q g v = record {
    covers = v.covers;
    buffer = tt;
    session = v.session;
    started = v.started;
  }
  drain_from-IsSession ((k, p) ∷ b) q (g, gs) v =
      drain_step k p b q (parse_header p) refl g gs v (drain_from-IsSession b)

  pub drain-IsSession : (q : Sequencer) → Promised q → Promised (drain q)
  unfolding drain
  drain-IsSession q v =
      let w = drain_from-IsSession q.buffer q v.buffer v in
      elim (Bool-cases (length (drain_from q.buffer q).buffer == 0)) [
        | inl t ↦ rw t (record {
          covers = w.covers;
          buffer = w.buffer;
          session = w.session;
          started = w.started;
        })
        | inr t ↦ rw t w
      ]

  emplace-AllGenuine :
      (b : Buffer) (k : ℕ) (p : Bytes)
      → Waits stream k p
      → AllGenuine stream b
      → AllGenuine stream (emplace b k p)
  unfolding emplace
  emplace-AllGenuine [] k p g gs = (g, tt)
  emplace-AllGenuine ((j, r) ∷ b) k p g (h, hs) = elim (Bool-cases (ltb k j)) [
    | inl t ↦ rw t (g, (h, hs))
    | inr t ↦ elim (Bool-cases (j == k)) [
      | inl u ↦ rw (t, u) (h, hs)
      | inr u ↦ rw (t, u) (h, emplace-AllGenuine b k p g hs)
    ]
  ]

  keep_packet-IsSession :
      (p : Bytes) (hdr : Header) (q : Sequencer)
      → Waits stream hdr.sequence p
      → Promised q
      → Promised (keep_packet p hdr q)
  unfolding keep_packet
  keep_packet-IsSession p hdr q g v = elim (Bool-cases (has_packet q.buffer hdr.sequence)) [
    | inl t ↦
        rw t (record {
          covers = v.covers;
          buffer = v.buffer;
          session = v.session;
          started = v.started;
        })
    | inr t ↦ rw t (record {
      covers = v.covers;
      buffer = emplace-AllGenuine q.buffer hdr.sequence p g v.buffer;
      session = v.session;
      started = v.started;
    })
  ]

  pub buffer_packet-IsSession :
      (p : Bytes) (hdr : Header) (q : Sequencer)
      → Waits stream hdr.sequence p
      → Promised q
      → Promised (buffer_packet p hdr q)
  unfolding buffer_packet
  buffer_packet-IsSession p hdr q g v =
      let q1 = keep_packet p hdr q in
      let w : Promised q1 = keep_packet-IsSession p hdr q g v in
      elim (Bool-cases
        (leb q1.cfg.reorder_depth (length q1.buffer) || ltb q1.cfg.reorder_patience q1.since_gap)) [
          | inl t ↦ rw t (drain-IsSession _ (declare_gap-IsSession _ q1 w))
          | inr t ↦ rw t w
        ]
