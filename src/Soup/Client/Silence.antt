-- ===== src/Soup/Client/Silence.antt =====
-- When the silence of the server ends a session, and that a client is never silent for long itself.
use itchbook.Base.{
  ℕ, ◌+◌, ◌<◌, ◌≡◌, refl, sym, ap, subst, ◌∙◌, inl, inr, Bool, true, false, ◌||◌, List, [], ◌∷◌,
  ◌++◌, arith, leb, if◌then◌else◌, Bool-cases,
}
use mathlib.Core.Bool.{true≢false}
use mathlib.Core.List.{append_assoc, append-nil}
use itchbook.Mold.Bytes.{Bytes, write_be16, be_bytes}
use itchbook.Soup.Packets.{client_heartbeat, frame}
use itchbook.Soup.Session.{logged_in, dead, is_terminal, elapsed}
use itchbook.Soup.Client.{Client, expire, enter, send, beat, tick}

abbrev pub tick_all : List ℕ → Client → Client
tick_all [] c = c
tick_all (t ∷ ts) c = tick_all ts (tick t c).1

-- Whether one of the times is at least the threshold after the last arrival.
abbrev pub overdue : ℕ → ℕ → List ℕ → Bool
overdue threshold last [] = false
overdue threshold last (t ∷ ts) = leb (last + threshold) t || overdue threshold last ts

-- The bytes of a heartbeat, at each of the times that is at least the threshold after the one before.
abbrev pub heartbeats : ℕ → ℕ → List ℕ → List Bytes
heartbeats threshold last [] = []
heartbeats threshold last (t ∷ ts) =
    if leb (last + threshold) t
    then (0 ∷ 1 ∷ b'R' ∷ []) ∷ heartbeats threshold t ts
    else heartbeats threshold last ts

-- What a tick makes of the state and of the two clocks of a client in the session.
record Ticked (t : ℕ) (c c' : Client) : Type 0 where
  config : c'.cfg ≡ c.cfg
  arrival : c'.recv_side ≡ c.recv_side
  standing :
      c'.inbound.state
      ≡ (if leb (c.recv_side + c.cfg.server_dead_threshold_ns) t then dead else logged_in)

tick-Ticked :
    (t : ℕ) (c : Client)
    → c.inbound.state ≡ logged_in
    → 0 < c.cfg.server_dead_threshold_ns
    → Ticked t c (tick t c).1
unfolding tick enter expire beat send elapsed
tick-Ticked t c h p = ground arith

terminal_stays : (ts : List ℕ) (c : Client) → is_terminal c.inbound.state ≡ true → tick_all ts c ≡ c
unfolding tick
terminal_stays [] c h = refl
terminal_stays (t ∷ ts) c h = rw h (terminal_stays ts c h)

-- While nothing arrives, a client that is logged in, with a threshold that is not 0, is found dead
-- by ticks, at any times, also such before the last arrival, exactly if one of them comes at least
-- the threshold after the last arrival, and else stays logged in.
pub tick_all-dead :
    (ts : List ℕ) (c : Client)
    → c.inbound.state ≡ logged_in
    → 0 < c.cfg.server_dead_threshold_ns
    → (tick_all ts c).inbound.state
      ≡ (if overdue c.cfg.server_dead_threshold_ns c.recv_side ts then dead else logged_in)
tick_all-dead [] c h p = h
tick_all-dead (t ∷ ts) c h p =
    let w = tick-Ticked t c h p in
    elim (Bool-cases (leb (c.recv_side + c.cfg.server_dead_threshold_ns) t)) [
      | inl u ↦
          let d : (tick t c).1.inbound.state ≡ dead = w.standing ∙ (rw u refl) in
          rw u (ap (λ x. x.inbound.state) (terminal_stays ts (tick t c).1 (ap is_terminal d)) ∙ d)
      | inr u ↦
          let d : (tick t c).1.inbound.state ≡ logged_in = w.standing ∙ (rw u refl) in
          rw u (
            tick_all-dead ts (tick t c).1 d
              (subst (λ x. 0 < x.server_dead_threshold_ns) (sym w.config) p)
            ∙ ap
                (λ x.
                  if overdue x.server_dead_threshold_ns (tick t c).1.recv_side ts
                  then dead
                  else logged_in)
                w.config
            ∙ ap (λ x. if overdue c.cfg.server_dead_threshold_ns x ts then dead else logged_in)
                w.arrival)
    ]

heartbeat_bytes : client_heartbeat ≡ 0 ∷ 1 ∷ b'R' ∷ []
unfolding client_heartbeat frame write_be16 be_bytes
heartbeat_bytes = refl

-- A tick that does not find a client in the session dead sends a heartbeat exactly if it is due.
tick-out :
    (t : ℕ) (c : Client)
    → c.inbound.state ≡ logged_in
    → 0 < c.cfg.server_dead_threshold_ns
    → 0 < c.cfg.heartbeat_send_threshold_ns
    → leb (c.recv_side + c.cfg.server_dead_threshold_ns) t ≡ false
    → leb (c.send_side + c.cfg.heartbeat_send_threshold_ns) t ≡ true
    → ((tick t c).1.out ≡ c.out ++ (client_heartbeat ∷ [])) × ((tick t c).1.send_side ≡ t)
unfolding tick enter expire beat send elapsed
tick-out t c h p q u v = ground arith

tick-quiet :
    (t : ℕ) (c : Client)
    → c.inbound.state ≡ logged_in
    → 0 < c.cfg.server_dead_threshold_ns
    → 0 < c.cfg.heartbeat_send_threshold_ns
    → leb (c.recv_side + c.cfg.server_dead_threshold_ns) t ≡ false
    → leb (c.send_side + c.cfg.heartbeat_send_threshold_ns) t ≡ false
    → ((tick t c).1.out ≡ c.out) × ((tick t c).1.send_side ≡ c.send_side)
unfolding tick enter expire beat send elapsed
tick-quiet t c h p q u v = ground arith

neither : (a b : Bool) → (a || b) ≡ false → (a ≡ false) × (b ≡ false)
neither true b e = absurd (true≢false e)
neither false b e = (refl, e)

-- While nothing arrives and ticks, at any times, do not find a client in the session dead, it sends
-- the three bytes of a heartbeat at exactly the ticks that come at least the threshold after the
-- heartbeat before, or after what it sent last, and nothing else, if no threshold is 0.
pub tick_all-heartbeats :
    (ts : List ℕ) (c : Client)
    → c.inbound.state ≡ logged_in
    → 0 < c.cfg.server_dead_threshold_ns
    → 0 < c.cfg.heartbeat_send_threshold_ns
    → overdue c.cfg.server_dead_threshold_ns c.recv_side ts ≡ false
    → (tick_all ts c).out ≡ c.out ++ heartbeats c.cfg.heartbeat_send_threshold_ns c.send_side ts
tick_all-heartbeats [] c h p q o = sym (append-nil c.out)
tick_all-heartbeats (t ∷ ts) c h p q o =
    let w = tick-Ticked t c h p in
    let (now, later) = neither (leb (c.recv_side + c.cfg.server_dead_threshold_ns) t) _ o in
    let d : (tick t c).1.inbound.state ≡ logged_in = w.standing ∙ (rw now refl) in
    let ih =
      tick_all-heartbeats ts (tick t c).1 d
        (subst (λ x. 0 < x.server_dead_threshold_ns) (sym w.config) p)
        (subst (λ x. 0 < x.heartbeat_send_threshold_ns) (sym w.config) q)
        (ap (λ x. overdue x.server_dead_threshold_ns (tick t c).1.recv_side ts) w.config
          ∙ ap (λ x. overdue c.cfg.server_dead_threshold_ns x ts) w.arrival
          ∙ later) in
    let goal =
      ih
      ∙ ap
          (λ x.
            (tick t c).1.out ++ heartbeats x.heartbeat_send_threshold_ns (tick t c).1.send_side ts)
          w.config in
    elim (Bool-cases (leb (c.send_side + c.cfg.heartbeat_send_threshold_ns) t)) [
      | inl v ↦
          let (sent, clock) = tick-out t c h p q now v in
          rw v (
            goal
            ∙ ap (λ x. (tick t c).1.out ++ heartbeats c.cfg.heartbeat_send_threshold_ns x ts) clock
            ∙ ap (λ x. x ++ heartbeats c.cfg.heartbeat_send_threshold_ns t ts) sent
            ∙ append_assoc c.out (client_heartbeat ∷ [])
                (heartbeats c.cfg.heartbeat_send_threshold_ns t ts)
            ∙ ap (λ x. c.out ++ (x ∷ heartbeats c.cfg.heartbeat_send_threshold_ns t ts))
                heartbeat_bytes)
      | inr v ↦
          let (sent, clock) = tick-quiet t c h p q now v in
          rw v (
            goal
            ∙ ap (λ x. (tick t c).1.out ++ heartbeats c.cfg.heartbeat_send_threshold_ns x ts) clock
            ∙ ap (λ x. x ++ heartbeats c.cfg.heartbeat_send_threshold_ns c.send_side ts) sent)
    ]
