-- ===== src/Mold/Publisher/Genuine.antt =====
-- The publisher's datagrams carry its stream, as the sequencer needs it.
use itchbook.Base.{
  ℕ, ◌+◌, ◌-◌, ◌^◌, ◌≤◌, ◌<◌, ◌≡◌, refl, sym, ap, subst, ◌∙◌, inl, inr, Bool, false, ◌||◌, Option,
  none, some, List, [], ◌∷◌, ◌++◌, arith, ltb, leb, ◌==◌, if◌then◌else◌, Bool-cases, length,
  length-append,
}
use mathlib.Core.List.{append_assoc, append-nil}
use itchbook.Mold.Bytes.{Bytes, drop_bytes, write_be16}
use itchbook.Mold.Packet.{
  Header, header_len, end_of_session_count, message_count, write_header, write_block, write_blocks,
}
use itchbook.Mold.Packet.RoundTrip.{
  parse_header-write, next_block-write, Fits, length-write_header, drop_bytes-append,
  length-write_be16,
}
use itchbook.Mold.Sequencer.Covers.{Matches, Genuine}
use itchbook.Mold.Publisher.{
  Publisher, make_publisher, used, flush, append_message, add, sequence_of_next_add,
}

module _ (stream : ℕ → Bytes) where
  -- The messages of the stream from `a` on.
  abbrev pub Along : ℕ → List Bytes → Type 0
  Along a [] = Unit {0}
  Along a (m ∷ ms) = (m ≡ stream a) × Along (a + 1) ms

  Along-append :
      (a : ℕ) (ms : List Bytes) (m : Bytes)
      → Along a ms
      → m ≡ stream (a + length ms)
      → Along a (ms ++ (m ∷ []))
  Along-append a [] m l e = (e ∙ ap stream (omega arith), tt)
  Along-append a (x ∷ ms) m (f, l) e =
      (f, Along-append (a + 1) ms m l (e ∙ ap stream (omega arith)))

  Matches-write :
      (a : ℕ) (ms : List Bytes)
      → Fits ms
      → Along a ms
      → Matches stream a (length ms) (write_blocks ms)
  unfolding write_blocks
  Matches-write a [] f l = tt
  Matches-write a (m ∷ ms) (f, fs) (e, l) =
      rw (next_block-write m (write_blocks ms) f, Matches) (e, Matches-write (a + 1) ms fs l)

  abbrev Carries : Bytes → Option Header → Type 0
  Carries p none = Unit {0}
  Carries p (some h) = Matches stream h.sequence (message_count h) (drop_bytes header_len p)

  -- A written header in front of blocks of the stream.
  Genuine-write :
      (session : Bytes) (sequence count : ℕ) (body : Bytes)
      → sequence < 2 ^ 64
      → count < 2 ^ 16
      → Matches stream sequence (if count == end_of_session_count then 0 else count) body
      → Genuine stream (write_header session sequence count ++ body)
  Genuine-write session sequence count body h k m hdr e =
      let w = parse_header-write session sequence count body h k in
      let same = sym w ∙ e in
      let d : drop_bytes header_len (write_header session sequence count ++ body) ≡ body =
        drop_bytes-append header_len (write_header session sequence count) body
          (length-write_header session sequence count) in
      subst (Carries (write_header session sequence count ++ body)) same (
        subst (Matches stream sequence (if count == end_of_session_count then 0 else count)) (sym d)
          m)

  -- A datagram of the messages of the stream from `sequence` on.
  pub blocks-Genuine :
      (session : Bytes) (sequence : ℕ) (ms : List Bytes)
      → sequence < 2 ^ 64
      → length ms < end_of_session_count
      → Fits ms
      → Along sequence ms
      → Genuine stream (write_header session sequence (length ms) ++ write_blocks ms)
  blocks-Genuine session sequence ms h k f l =
      let t : (length ms == end_of_session_count) ≡ false = ground arith in
      Genuine-write session sequence (length ms) (write_blocks ms) h (omega arith)
        (rw t (Matches-write sequence ms f l))

  length-write_block : (m : Bytes) → length (write_block m) ≡ 2 + length m
  unfolding write_block
  length-write_block m =
      omega (arith, length-append {0} (write_be16 (length m)) m, length-write_be16 (length m))

  -- The datagrams carry the messages of the stream from `a` up to `z`, each once and in order, fit
  -- the transmission unit, and can be read back.
  abbrev pub Sent : Bytes → ℕ → ℕ → ℕ → List Bytes → Type 0
  Sent session mtu a z [] = a ≡ z
  Sent session mtu a z (p ∷ ps) =
      (ms : List Bytes) × (p ≡ write_header session a (length ms) ++ write_blocks ms)
      × Along a ms
      × Genuine stream p
      × (length p ≤ mtu)
      × Sent session mtu (a + length ms) z ps

  Sent-append :
      (session : Bytes) (mtu a z : ℕ) (ps : List Bytes) (ms : List Bytes)
      → Sent session mtu a z ps
      → Along z ms
      → Genuine stream (write_header session z (length ms) ++ write_blocks ms)
      → length (write_header session z (length ms) ++ write_blocks ms) ≤ mtu
      → Sent session mtu a
          (z + length ms)
          (ps ++ ((write_header session z (length ms) ++ write_blocks ms) ∷ []))
  Sent-append session mtu a z [] ms e l g f = (
    ms,
    ap (λ x. write_header session x (length ms) ++ write_blocks ms) (sym e),
    subst (λ x. Along x ms) (sym e) l,
    g,
    f,
    ap (λ x. x + length ms) e,
  )
  Sent-append session mtu a z (p ∷ ps) ms (ns, q, l', g', f', r) l g f =
      (ns, q, l', g', f', Sent-append session mtu (a + length ns) z ps ms r l g f)

  write_blocks-append :
      (ms : List Bytes) (m : Bytes)
      → write_blocks (ms ++ (m ∷ [])) ≡ write_blocks ms ++ write_block m
  unfolding write_blocks
  write_blocks-append [] m = append-nil (write_block m)
  write_blocks-append (x ∷ ms) m =
      ap (λ w. write_block x ++ w) (write_blocks-append ms m)
      ∙ sym (append_assoc (write_block x) (write_blocks ms) (write_block m))

  Fits-append : (ms : List Bytes) (m : Bytes) → Fits ms → length m < 2 ^ 16 → Fits (ms ++ (m ∷ []))
  Fits-append [] m f l = (l, tt)
  Fits-append (x ∷ ms) m (a, f) l = (a, Fits-append ms m f l)

  -- `pending` are the messages of the datagram that is being filled.
  pub record IsPublishing (b : Publisher) (pending : List Bytes) : Type 0 where
    pub sent : Sent b.session b.mtu 1 b.sequence b.sent
    pub body : b.body ≡ write_blocks pending
    pub count : b.count ≡ length pending
    pub few : b.count < end_of_session_count
    pub fits : Fits pending
    pub along : Along b.sequence pending
    pub room : used b ≤ b.mtu
    pub sequences : b.sequence + b.count < 2 ^ 64

  datagram :
      (b : Publisher) (ms : List Bytes)
      → IsPublishing b ms
      → Genuine stream (write_header b.session b.sequence b.count ++ b.body)
  datagram b ms v =
      let f = v.few in
      let q = v.sequences in
      let t : (b.count == end_of_session_count) ≡ false = ground arith in
      let m = Matches-write b.sequence ms v.fits v.along in
      let m' : Matches stream b.sequence b.count b.body =
        subst (Matches stream b.sequence b.count) (sym v.body)
          (subst (λ n. Matches stream b.sequence n (write_blocks ms)) (sym v.count) m) in
      Genuine-write b.session b.sequence b.count b.body (omega arith) (omega arith) (rw t m')

  datagram_size :
      (b : Publisher) → length (write_header b.session b.sequence b.count ++ b.body) ≡ used b
  datagram_size b = omega (
    arith,
    length-append {0} (write_header b.session b.sequence b.count) b.body,
    length-write_header b.session b.sequence b.count,
  )

  nothing_pending :
      (b : Publisher) (ms : List Bytes) → IsPublishing b ms → length ms ≡ 0 → IsPublishing b []
  nothing_pending b [] v e = v
  nothing_pending b (x ∷ ms) v e = absurd (omega arith)

  -- `flush` sends what is pending as one datagram of the stream, and nothing is pending then.
  pub flush-IsPublishing :
      (b : Publisher) (ms : List Bytes) → IsPublishing b ms → IsPublishing (flush b) []
  unfolding flush write_blocks
  flush-IsPublishing b ms v = elim (Bool-cases (b.count == 0)) [
    | inl t ↦ let c = v.count in rw t (nothing_pending b ms v (ground arith))
    | inr t ↦
        let s = datagram_size b in
        let r = v.room in
        let q = v.sequences in
        let c = v.count in
        let w = v.body in
        let p = λ (n : ℕ) (x : Bytes). write_header b.session b.sequence n ++ x in
        let same : p b.count b.body ≡ p (length ms) (write_blocks ms) =
          ap (λ n. p n b.body) c ∙ ap (p (length ms)) w in
        let g = subst (Genuine stream) same (datagram b ms v) in
        let f : length (p (length ms) (write_blocks ms)) ≤ b.mtu =
          subst (λ x. length x ≤ b.mtu) same (omega arith) in
        let all = Sent-append b.session b.mtu 1 b.sequence b.sent ms v.sent v.along g f in
        rw t (record {
          sent =
              subst
                (λ n. Sent b.session b.mtu 1 (b.sequence + n) (b.sent ++ (p b.count b.body ∷ [])))
                (sym c)
                (subst (λ x. Sent b.session b.mtu 1 (b.sequence + length ms) (b.sent ++ (x ∷ [])))
                  (sym same) all);
          body = refl;
          count = refl;
          few = omega arith;
          fits = tt;
          along = tt;
          room = omega arith;
          sequences = omega arith;
        })
  ]

  flush-sequence : (b : Publisher) → (flush b).sequence + (flush b).count ≡ b.sequence + b.count
  unfolding flush
  flush-sequence b = elim (Bool-cases (b.count == 0)) [
    | inl t ↦ rw t refl
    | inr t ↦ rw t (omega arith)
  ]

  flush-mtu : (b : Publisher) → (flush b).mtu ≡ b.mtu
  unfolding flush
  flush-mtu b = elim (Bool-cases (b.count == 0)) [ inl t ↦ rw t refl | inr t ↦ rw t refl ]

  none_used : (b : Publisher) → IsPublishing b [] → (used b ≡ header_len) × (b.count ≡ 0)
  unfolding write_blocks
  none_used b v = (ap (λ x. header_len + length x) v.body ∙ omega arith, v.count)

  append_message-IsPublishing :
      (b : Publisher) (ms : List Bytes) (msg : Bytes)
      → IsPublishing b ms
      → b.mtu < 2 ^ 16
      → msg ≡ stream (b.sequence + b.count)
      → used b + (2 + length msg) ≤ b.mtu
      → b.count + 1 < end_of_session_count
      → b.sequence + b.count + 1 < 2 ^ 64
      → IsPublishing (append_message b msg) (ms ++ (msg ∷ []))
  append_message-IsPublishing b ms msg v u e r f q =
      let c = v.count in
      let w : length (write_block msg) ≡ 2 + length msg = length-write_block msg in
      record {
        sent = v.sent;
        body = ap (λ x. x ++ write_block msg) v.body ∙ sym (write_blocks-append ms msg);
        count = omega (arith, length-append {0} ms (msg ∷ []));
        few = f;
        fits = Fits-append ms msg v.fits (omega arith);
        along = Along-append b.sequence ms msg v.along (e ∙ ap (λ n. stream (b.sequence + n)) c);
        room = omega (arith, length-append {0} b.body (write_block msg));
        sequences = omega arith;
      }

  -- What a call of `add` does: it takes the message exactly if a datagram has room for it, as the
  -- next of the stream, and what was sent are the messages from 1 to before those that are pending.
  abbrev pub Added : Publisher → Bytes → Publisher × Bool → Type 0
  Added b msg (b', ok) =
      (ok ≡ leb (header_len + 2 + length msg) b.mtu)
      × (sequence_of_next_add b'
          ≡ (if ok then sequence_of_next_add b + 1 else sequence_of_next_add b))
      × (ms : List Bytes) × IsPublishing b' ms

  -- On a publisher that has published the stream from 1 on, if the message is the next of the
  -- stream, the transmission unit is below 2^16 and the sequence numbers do not run out, `add`
  -- takes the message exactly if a datagram has room for it, and the datagrams that were sent are,
  -- in order, those of the messages of the stream from 1 up to the ones that are pending, each
  -- message once, and each fits the transmission unit and can be read back.
  pub add_lem :
      (b : Publisher) (ms : List Bytes) (msg : Bytes)
      → IsPublishing b ms
      → b.mtu < 2 ^ 16
      → msg ≡ stream (sequence_of_next_add b)
      → sequence_of_next_add b + 1 < 2 ^ 64
      → Added b msg (add b msg)
  unfolding add sequence_of_next_add
  add_lem b ms msg v n e q =
      elim (Bool-cases (leb b.mtu header_len || ltb (b.mtu - header_len) (2 + length msg))) [
        | inl t ↦ rw t (ground arith, refl, ms, v)
        | inr t ↦
            elim (Bool-cases
              (ltb b.mtu (used b + (2 + length msg)) || b.count == (end_of_session_count - 1))) [
                | inl u ↦
                    let f = flush-sequence b in
                    let k = flush-mtu b in
                    let w = flush-IsPublishing b ms v in
                    let (z, c) = none_used (flush b) w in
                    rw (t, u)
                      (
                        ground arith,
                        omega arith,
                        msg ∷ [],
                        append_message-IsPublishing (flush b) [] msg w (omega arith)
                            (e ∙ ap stream (sym f)) (ground arith) (omega arith) (omega arith),
                      )
                | inr u ↦
                    let g = v.few in
                    rw (t, u)
                      (
                        ground arith,
                        omega arith,
                        ms ++ (msg ∷ []),
                        append_message-IsPublishing b ms msg v n e (ground arith) (ground arith) q,
                      )
              ]
      ]

  -- A publisher starts with nothing pending, at the first sequence number.
  pub make_publisher-IsPublishing :
      (session : Bytes) (mtu : ℕ) → header_len ≤ mtu → IsPublishing (make_publisher session mtu) []
  unfolding make_publisher write_blocks
  make_publisher-IsPublishing session mtu l = record {
    sent = refl;
    body = refl;
    count = refl;
    few = omega arith;
    fits = tt;
    along = tt;
    room = omega arith;
    sequences = omega arith;
  }
