-- ===== src/Soup/Stream/Exactly.antt =====
-- What a server sends as sequenced data, a client in the session hands over: each message once, in
-- order, however the stream is cut.
use itchbook.Base.{
  ℕ, suc, ◌+◌, ◌%◌, ◌^◌, ◌≤◌, ◌<◌, ◌≡◌, refl, sym, ap, ◌∙◌, inl, inr, true, false, not, ◌&&◌, List,
  [], ◌∷◌, ◌++◌, map, arith, ltb, Bool-cases, length,
}
use itchbook.Base.Words.{add64}
use mathlib.Core.List.{append_assoc, append-nil}
use itchbook.Mold.Bytes.{Bytes, write_be16, be_bytes}
use itchbook.Soup.Packets.{sequenced_data, frame}
use itchbook.Soup.Frames.{Drained, append, drain}
use itchbook.Soup.Session.{logged_in, AppCall, is_terminal}
use itchbook.Soup.Client.{
  Inbound, Client, client_valid, client_dispatch, conclude, received, on_bytes,
}
use itchbook.Soup.Client.Chunks.{receive_all, concat, receive_all-concat, on_bytes-cons}
use itchbook.Soup.Server.{Server, send, send_sequenced}
use itchbook.Soup.Stream.{AllFit, deliver_all, drain_messages, call_of, delivered}

abbrev pub send_all : ℕ → List Bytes → Server → Server
send_all t [] s = s
send_all t (m ∷ ms) s = send_all t ms (send_sequenced m t s)

-- The inbound side once the messages have been handed over.
abbrev pub advanced : List Bytes → Inbound → Inbound
advanced ms s = record s {
  sequence_number = (s.sequence_number + length ms) % 2 ^ 64;
  app = s.app ++ map call_of ms;
}

abbrev with_log : Inbound → ℕ → List AppCall → Inbound
with_log s n calls = record s { sequence_number = n; app = calls }

deliver_all-advanced :
    (ms : List Bytes) (s : Inbound) → s.sequence_number < 2 ^ 64 → deliver_all ms s ≡ advanced ms s
deliver_all-advanced [] s h =
    ap (λ n. with_log s n s.app) (omega (arith, h))
    ∙ ap (with_log s ((s.sequence_number + 0) % 2 ^ 64)) (sym (append-nil s.app))
deliver_all-advanced (m ∷ ms) s h =
    deliver_all-advanced ms (delivered m s) (omega arith)
    ∙ ap (λ n. with_log s n ((s.app ++ (call_of m ∷ [])) ++ map call_of ms)) (omega (arith, h))
    ∙ ap (with_log s ((s.sequence_number + suc (length ms)) % 2 ^ 64))
        (append_assoc s.app (call_of m ∷ []) (map call_of ms))

sent_one :
    (m : Bytes) (t : ℕ) (s : Server)
    → length m ≤ s.cfg.max_frame_bytes
    → send_sequenced m t s ≡ record s {
      out = s.out ++ (sequenced_data m ∷ []);
      send_side = t;
      sequence_number = add64 s.sequence_number 1;
    }
unfolding send_sequenced send
sent_one m t s h =
    let e : ltb (s.cfg.max_frame_bytes + 3) (length m + 3) ≡ false = ground arith in rw e refl

-- What a server has sent and counted.
sent_all :
    (max : ℕ) (t : ℕ) (ms : List Bytes) (s : Server)
    → AllFit max ms
    → max ≤ s.cfg.max_frame_bytes
    → s.sequence_number < 2 ^ 64
    → ((send_all t ms s).out ≡ s.out ++ map sequenced_data ms)
      × ((send_all t ms s).sequence_number ≡ (s.sequence_number + length ms) % 2 ^ 64)
sent_all max t [] s f h k = (sym (append-nil s.out), omega (arith, k))
sent_all max t (m ∷ ms) s ((a, b), fs) h k =
    let e = sent_one m t s (omega arith) in
    let (p, q) =
      sent_all max t ms
        (record s {
          out = s.out ++ (sequenced_data m ∷ []);
          send_side = t;
          sequence_number = add64 s.sequence_number 1;
        })
        fs h (omega arith) in
    (
      ap (λ x. (send_all t ms x).out) e
          ∙ p
          ∙ append_assoc s.out (sequenced_data m ∷ []) (map sequenced_data ms),
      ap (λ x. (send_all t ms x).sequence_number) e ∙ q ∙ omega (arith, k),
    )

conclude-inbound :
    (now : ℕ) (d : Drained Inbound) (c : Client)
    → d.ok ≡ true
    → (conclude now d c).inbound ≡ d.session
unfolding conclude
conclude-inbound now d c e =
    elim (Bool-cases (not (is_terminal c.inbound.state) && not (is_terminal d.session.state))) [
      | inl u ↦ rw (e, u) refl
      | inr u ↦ rw (e, u) refl
    ]

received-advanced :
    (now : ℕ) (ms : List Bytes) (c : Client)
    → AllFit c.cfg.max_frame_bytes ms
    → c.inbound.state ≡ logged_in
    → c.has_app ≡ true
    → c.buf ≡ []
    → (received (concat (map sequenced_data ms)) now c).inbound ≡ deliver_all ms c.inbound
unfolding received append
received-advanced now ms c f l a b =
    let w = concat (map sequenced_data ms) in
    let e : drain c.cfg.max_frame_bytes (client_dispatch c.has_app) client_valid (c.buf ++ w)
          c.inbound
        ≡ record { ok = true; rest = []; session = deliver_all ms c.inbound } =
      rw (a, b) (drain_messages c.cfg.max_frame_bytes ms c.inbound f l) in
    conclude-inbound now _ c (ap (λ d. d.ok) e) ∙ ap (λ d. d.session) e

on_bytes-advanced :
    (now : ℕ) (ms : List Bytes) (c : Client)
    → AllFit c.cfg.max_frame_bytes ms
    → c.inbound.state ≡ logged_in
    → c.has_app ≡ true
    → c.buf ≡ []
    → (on_bytes (concat (map sequenced_data ms)) now c).1.inbound ≡ deliver_all ms c.inbound
unfolding on_bytes sequenced_data frame write_be16 be_bytes
on_bytes-advanced now [] c f l a b = refl
on_bytes-advanced now (m ∷ ms) c f l a b =
    ap (λ x. x.inbound) (on_bytes-cons _ _ now c) ∙ received-advanced now (m ∷ ms) c f l a b

-- If a client that is logged in, with an application and nothing in its buffer, gets the bytes that
-- a server sends as sequenced data, cut into chunks in any way, and each message fits its frames
-- and the length field, and the server allows frames as large as it does, then it hands over each
-- message once, in order and with its length, its state stays, and both sequence numbers grow by
-- the number of messages modulo 2^64.
pub sent-received :
    (ms : List Bytes) (s : Server) (c : Client) (t now : ℕ) (chunks : List Bytes)
    → AllFit c.cfg.max_frame_bytes ms
    → c.cfg.max_frame_bytes ≤ s.cfg.max_frame_bytes
    → s.sequence_number < 2 ^ 64
    → c.inbound.sequence_number < 2 ^ 64
    → c.inbound.state ≡ logged_in
    → c.has_app ≡ true
    → c.buf ≡ []
    → concat chunks ≡ concat (send_all t ms (record s { out = [] })).out
    → ((receive_all now chunks c).inbound ≡ advanced ms c.inbound)
      × ((send_all t ms (record s { out = [] })).sequence_number
          ≡ (s.sequence_number + length ms) % 2 ^ 64)
sent-received ms s c t now chunks f h k j l a b e =
    let (p, q) = sent_all c.cfg.max_frame_bytes t ms (record s { out = [] }) f h k in
    let r = on_bytes-advanced now ms c f l a b in
    (
      ap (λ x. x.inbound) (receive_all-concat now chunks c)
          ∙ ap (λ x. (on_bytes x now c).1.inbound) (e ∙ ap concat p)
          ∙ r
          ∙ deliver_all-advanced ms c.inbound j,
      q,
    )
