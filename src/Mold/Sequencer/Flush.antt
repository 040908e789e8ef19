-- ===== src/Mold/Sequencer/Flush.antt =====
-- `flush` ends: nothing is left in the buffer.
use itchbook.Base.{
  ℕ, zero, suc, ◌+◌, ◌-◌, ◌≤◌, ◌<◌, ◌≡◌, refl, ap, ◌∙◌, ◌⊎◌, inl, inr, Option, none, some, List, [],
  ◌∷◌, arith, ltb, leb, ◌==◌, Bool-cases, length,
}
use itchbook.Mold.Bytes.{Bytes}
use itchbook.Mold.Packet.{Header, parse_header, message_count}
use itchbook.Mold.Sequencer.{
  Sequencer, Call, Buffer, deliver, declare_gap, drain_from, drain, flush_from, flush,
  first_sequence, count_duplicate, count_reordered, report_gap,
}
use itchbook.Mold.Sequencer.Covers.{AllGenuine, IsSession}
use itchbook.Mold.Sequencer.Deliver.{drain-IsSession, declare_gap-IsSession}

-- What one packet of the buffer leads to: the rest of the buffer is drained, or it stays whole.
drain_cases :
    (k : ℕ) (p : Bytes) (b : Buffer) (q : Sequencer)
    → ((q' : Sequencer) × (drain_from ((k, p) ∷ b) q ≡ drain_from b q'))
      ⊎ (((drain_from ((k, p) ∷ b) q).buffer ≡ (k, p) ∷ b)
          × ((hdr : Header) × (parse_header p ≡ some hdr) × (q.expected < hdr.sequence)))
unfolding drain_from
drain_cases k p b q = from (parse_header p) refl
  where
    from :
        (r : Option Header)
        → parse_header p ≡ r
        → ((q' : Sequencer) × (drain_from ((k, p) ∷ b) q ≡ drain_from b q'))
          ⊎ (((drain_from ((k, p) ∷ b) q).buffer ≡ (k, p) ∷ b)
              × ((hdr : Header) × (parse_header p ≡ some hdr) × (q.expected < hdr.sequence)))
    from none e = inl (q, rw (e, drain_from) refl)
    from (some hdr) e = elim (Bool-cases (leb (hdr.sequence + message_count hdr) q.expected)) [
      | inl t ↦ inl (count_duplicate q, rw (e, t, drain_from) refl)
      | inr t ↦ elim (Bool-cases (ltb q.expected hdr.sequence)) [
        | inl u ↦ inr (rw (e, t, u, drain_from) refl, (hdr, e, ground arith))
        | inr u ↦ inl (
          deliver p hdr (q.expected - hdr.sequence) (count_reordered q),
          rw (e, t, u, drain_from) refl,
        )
      ]
    ]

drain_from-length : (b : Buffer) (q : Sequencer) → length (drain_from b q).buffer ≤ length b
unfolding drain_from
drain_from-length [] q = omega arith
drain_from-length ((k, p) ∷ b) q = elim (drain_cases k p b q) [
  | inl (q', e) ↦ let r = drain_from-length b q' in rw e (omega arith)
  | inr (e, h) ↦ rw e (omega arith)
]

-- Where the first packet is due, it leaves the buffer.
drain_from_due :
    (k : ℕ) (p : Bytes) (b : Buffer) (q : Sequencer)
    → ((hdr : Header) → parse_header p ≡ some hdr → hdr.sequence ≡ k)
    → k ≤ q.expected
    → length (drain_from ((k, p) ∷ b) q).buffer ≤ length b
drain_from_due k p b q own due = elim (drain_cases k p b q) [
  | inl (q', e) ↦ rw e (drain_from-length b q')
  | inr (e, (hdr, f, l)) ↦ absurd (let z = own hdr f in omega arith)
]

drain-buffer : (q : Sequencer) → (drain q).buffer ≡ (drain_from q.buffer q).buffer
unfolding drain
drain-buffer q = elim (Bool-cases (length (drain_from q.buffer q).buffer == 0)) [
  | inl t ↦ rw t refl
  | inr t ↦ rw t refl
]

declare_gap_reach :
    (n : ℕ) (q : Sequencer)
    → (n ≤ (declare_gap n q).expected) × ((declare_gap n q).buffer ≡ q.buffer)
unfolding declare_gap report_gap
declare_gap_reach n q = elim (Bool-cases (leb n q.expected)) [
  | inl t ↦ rw t (ground arith, refl)
  | inr t ↦ rw t (ground arith, refl)
]

nil_of : (b : Buffer) → length b ≤ 0 → b ≡ []
nil_of [] h = refl
nil_of (x ∷ b) h = absurd (omega arith)

module _ (stream : ℕ → Bytes) (start : ℕ) (log0 : List Call) (ses : Bytes) where
  round_length :
      (q : Sequencer) (b : Buffer)
      → q.buffer ≡ b
      → AllGenuine stream b
      → length (drain (declare_gap (first_sequence b q.expected) q)).buffer ≤ length b - 1
  round_length q [] e g =
      let (due, same) = declare_gap_reach q.expected q in
      let d = declare_gap q.expected q in
      let y : length (drain d).buffer ≡ length (drain_from [] d).buffer =
        ap (λ x. length x) (drain-buffer d ∙ ap (λ x. (drain_from x d).buffer) (same ∙ e)) in
      let z = drain_from-length [] d in omega arith
  round_length q ((k, p) ∷ b) e ((g, own), gs) =
      let (due, same) = declare_gap_reach k q in
      let d = declare_gap k q in
      let f : d.buffer ≡ (k, p) ∷ b = same ∙ e in
      let y : length (drain d).buffer ≡ length (drain_from ((k, p) ∷ b) d).buffer =
        ap (λ x. length x) (drain-buffer d ∙ ap (λ x. (drain_from x d).buffer) f) in
      let z = drain_from_due k p b d own due in omega arith

  flush_from_lem :
      (n : ℕ) (q : Sequencer)
      → IsSession stream start log0 ses q
      → length q.buffer ≤ n
      → (flush_from n q).buffer ≡ []
  unfolding flush_from
  flush_from_lem zero q v h = nil_of q.buffer h
  flush_from_lem (suc n) q v h = elim (Bool-cases (length q.buffer == 0)) [
    | inl t ↦ rw t (nil_of q.buffer (ground arith))
    | inr t ↦
        let z = round_length q q.buffer refl v.buffer in
        rw t (
          flush_from_lem n _
            (drain-IsSession stream start log0 ses _
              (declare_gap-IsSession stream start log0 ses _ q v))
            (omega arith))
  ]

  -- During a session, with genuine packets in the buffer, `flush` ends with an empty buffer, so as
  -- many rounds as there are packets are enough.
  pub flush-buffer : (q : Sequencer) → IsSession stream start log0 ses q → (flush q).buffer ≡ []
  unfolding flush
  flush-buffer q v = flush_from_lem (length q.buffer) q v (omega arith)
