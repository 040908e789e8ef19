-- ===== src/Soup/Stream.antt =====
-- A server's sequenced packets as a client in the session gets them.
pub mod Exactly
use itchbook.Base.{
  ℕ, zero, suc, ◌+◌, ◌-◌, ◌*◌, ◌/◌, ◌%◌, ◌^◌, ◌≤◌, ◌<◌, min, ◌≡◌, refl, sym, ap, subst, ◌∙◌, ◌≢◌,
  ◌↔◌, ◌⊎◌, inl, inr, Bool, true, false, not, ◌&&◌, ◌||◌, Option, none, some, List, [], ◌∷◌, ◌++◌,
  map, arith, ltb, leb, ◌==◌, if◌then◌else◌, Bool-cases, length, length-append,
}
use itchbook.Base.Words.{add64, sub64}
use mathlib.Core.List.{append_assoc, append-nil}
use itchbook.Mold.Bytes.{
  Bytes, take_bytes, drop_bytes, be16, be_from, be_bytes, write_be16, be16-write,
}
use itchbook.Mold.Packet.RoundTrip.{take_bytes-append, drop_bytes-append, length-write_be16}
use itchbook.Soup.Packets.{
  frame, frame_length, declared_length, packet_type, message, message_length, sequenced_data,
  known_fixed_wire_bytes,
}
use itchbook.Soup.Frames.{Round, consume, Drained, append, round, dispatched, drain, drain_from}
use itchbook.Soup.Frames.Chunks.{drain-unfold}
use itchbook.Soup.Session.{logged_in, AppCall, hand_over, same_state, is_terminal}
use itchbook.Soup.Client.{
  Inbound, Client, client_valid, client_dispatch, violate, conclude, received, on_bytes,
}
use itchbook.Soup.Client.Chunks.{receive_all, concat, unclocked, receive_all-concat, on_bytes-cons}
use itchbook.Soup.Server.{Server, send, send_sequenced}

-- A frame of the right type and length at the front of the buffer is consumed.
round_lem :
    {S : Type 0} (max : ℕ) (dispatch : ℕ → Bytes → S → Bool × S) (is_valid : ℕ → ℕ → Bool)
    (p : Bytes) (s s' : S) (n ty : ℕ)
    → frame_length p ≡ n
    → packet_type p ≡ ty
    → 3 ≤ length p
    → n ≤ length p
    → n ≤ max
    → is_valid ty n ≡ true
    → dispatch ty (take_bytes n p) s ≡ (true, s')
    → round max dispatch is_valid p s ≡ consume n s'
unfolding round dispatched
round_lem max dispatch is_valid p s s' n ty e f l k m v d =
    let a : ltb (length p) 3 ≡ false = ground arith in
    let b : ltb max n ≡ false = ground arith in
    let c : ltb (length p) n ≡ false = ground arith in rw (a, e, b, c, f, v, d) refl

-- The call that hands a message over.
abbrev pub call_of : Bytes → AppCall
call_of m = record { payload = m; told = length m }

-- What the arrival of one sequenced message does to a client in the session.
abbrev pub delivered : Bytes → Inbound → Inbound
delivered m s = record s {
  sequence_number = add64 s.sequence_number 1;
  app = s.app ++ (call_of m ∷ []);
}

abbrev pub Fits : ℕ → Bytes → Type 0
Fits max m = (length m + 3 ≤ max) × (length m + 1 < 2 ^ 16)

length-sequenced_data : (m : Bytes) → length (sequenced_data m) ≡ 3 + length m
unfolding sequenced_data frame
length-sequenced_data m =
    let w = write_be16 ((1 + length m) % 2 ^ 16) in
    omega (arith, length-append {0} w (b'S' ∷ m), length-write_be16 ((1 + length m) % 2 ^ 16))

declared_length-sequenced_data :
    (m rest : Bytes)
    → length m + 1 < 2 ^ 16
    → declared_length (sequenced_data m ++ rest) ≡ 1 + length m
unfolding sequenced_data frame declared_length
declared_length-sequenced_data m rest h =
    let k = (1 + length m) % 2 ^ 16 in
    let b = be16-write k (b'S' ∷ (m ++ rest)) (omega arith) in
    ap be16 (append_assoc (write_be16 k) (b'S' ∷ m) rest) ∙ b ∙ omega arith

message_length-sequenced_data :
    (m : Bytes) → length m + 1 < 2 ^ 16 → message_length (sequenced_data m) ≡ length m
unfolding message_length
message_length-sequenced_data m h =
    let e =
      ap declared_length (sym (append-nil (sequenced_data m)))
      ∙ declared_length-sequenced_data m [] h in
    rw e (omega (arith, h))

message-sequenced_data : (m : Bytes) → message (sequenced_data m) ≡ m
unfolding message sequenced_data frame write_be16 be_bytes
message-sequenced_data m = refl

packet_type-sequenced_data : (m rest : Bytes) → packet_type (sequenced_data m ++ rest) ≡ b'S'
unfolding packet_type sequenced_data frame write_be16 be_bytes
packet_type-sequenced_data m rest = refl

dispatch-delivered :
    (m : Bytes) (s : Inbound)
    → length m + 1 < 2 ^ 16
    → s.state ≡ logged_in
    → client_dispatch true b'S' (sequenced_data m) s ≡ (true, delivered m s)
unfolding client_dispatch hand_over
dispatch-delivered m s h l =
    rw (message-sequenced_data m, message_length-sequenced_data m h)
      (rw (ap (λ x. same_state x logged_in) l) refl)

valid_data : (n : ℕ) → client_valid b'S' n ≡ true
unfolding client_valid known_fixed_wire_bytes
valid_data n = refl

abbrev pub deliver_all : List Bytes → Inbound → Inbound
deliver_all [] s = s
deliver_all (m ∷ ms) s = deliver_all ms (delivered m s)

module _ (max : ℕ) where
  abbrev pub Drain : Bytes → Inbound → Drained Inbound
  Drain = drain max (client_dispatch true) client_valid

  drain_message :
      (m rest : Bytes) (s : Inbound)
      → Fits max m
      → s.state ≡ logged_in
      → Drain (sequenced_data m ++ rest) s ≡ Drain rest (delivered m s)
  unfolding frame_length
  drain_message m rest s (a, b) l =
      let p = sequenced_data m ++ rest in
      let n = 3 + length m in
      let lp : length p ≡ n + length rest =
        omega (arith, length-append {0} (sequenced_data m) rest, length-sequenced_data m) in
      let t : take_bytes n p ≡ sequenced_data m =
        take_bytes-append n (sequenced_data m) rest (length-sequenced_data m) in
      let d : drop_bytes n p ≡ rest =
        drop_bytes-append n (sequenced_data m) rest (length-sequenced_data m) in
      let r =
        round_lem max (client_dispatch true) client_valid p s (delivered m s) n b'S'
          (omega (arith, declared_length-sequenced_data m rest b))
          (packet_type-sequenced_data m rest) (omega arith) (omega arith) (omega arith)
          (valid_data n) (ap (λ x. client_dispatch true b'S' x s) t ∙ dispatch-delivered m s b l) in
      drain-unfold max (client_dispatch true) client_valid p s (consume n (delivered m s)) r
      ∙ ap (λ x. drain max (client_dispatch true) client_valid x (delivered m s)) d

  abbrev pub AllFit : List Bytes → Type 0
  AllFit [] = Unit {0}
  AllFit (m ∷ ms) = Fits max m × AllFit ms

  pub drain_messages :
      (ms : List Bytes) (s : Inbound)
      → AllFit ms
      → s.state ≡ logged_in
      → Drain (concat (map sequenced_data ms)) s
        ≡ record { ok = true; rest = []; session = deliver_all ms s }
  unfolding drain drain_from round
  drain_messages [] s f l = refl
  drain_messages (m ∷ ms) s (f, fs) l =
      drain_message m (concat (map sequenced_data ms)) s f l
      ∙ drain_messages ms (delivered m s) fs l
