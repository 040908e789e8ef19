-- ===== src/Soup/Client/Runs.antt =====
-- The operations on a client, in any order: what each of them keeps, their runs keep.
use itchbook.Base.{
  ℕ, ◌+◌, ◌≡◌, inl, inr, Bool, false, not, ◌&&◌, List, [], ◌∷◌, ◌++◌, ltb, leb, ◌==◌, Bool-cases,
  length,
}
use itchbook.Mold.Bytes.{Bytes}
use itchbook.Soup.Frames.{Drained, append}
use itchbook.Soup.Frames.Keeps.{Whole, drain_keeps}
use itchbook.Soup.Session.{is_terminal, elapsed}
use itchbook.Soup.Client.{
  Inbound, Client, client_dispatch, client_valid, violate, conclude, received, on_bytes, expire,
  enter, send, beat, tick, send_unsequenced, send_logout,
}

pub data Op : Type 0 where
  bytes : Bytes → ℕ → Op
  time : ℕ → Op
  unsequenced : Bytes → ℕ → Op
  logout : ℕ → Op

abbrev pub step : Op → Client → Client
step (bytes chunk now) c = (on_bytes chunk now c).1
step (time now) c = (tick now c).1
step (unsequenced msg now) c = send_unsequenced msg now c
step (logout now) c = send_logout now c

abbrev pub run : List Op → Client → Client
run [] c = c
run (o ∷ os) c = run os (step o c)

module _ (P : Inbound → Type 0) (max : ℕ) (has_app : Bool) where
  -- What a frame, the verdict of the drain and the clock keep.
  pub record Kept : Type 0 where
    pub frames :
        (type : ℕ) (frame : Bytes) (s : Inbound)
        → Whole max frame
        → P s
        → P (client_dispatch has_app type frame s).1
    pub verdict : (s : Inbound) → P s → P (violate s)
    pub clock :
        (now : ℕ) (c : Client)
        → is_terminal c.inbound.state ≡ false
        → P c.inbound
        → P (enter (expire now c) c).inbound

  abbrev pub Keeps : Client → Type 0
  Keeps c = (c.cfg.max_frame_bytes ≡ max) × (c.has_app ≡ has_app) × P c.inbound

  conclude-Keeps :
      (now : ℕ) (d : Drained Inbound) (c : Client)
      → Kept
      → P d.session
      → Keeps c
      → Keeps (conclude now d c)
  unfolding conclude
  conclude-Keeps now d c k h (a, b, i) = elim (Bool-cases d.ok) [
    | inl t ↦
        elim (Bool-cases (not (is_terminal c.inbound.state) && not (is_terminal d.session.state))) [
          | inl u ↦ rw (t, u) (a, b, h)
          | inr u ↦ rw (t, u) (a, b, h)
        ]
    | inr t ↦ rw t (a, b, k.verdict d.session h)
  ]

  received-Keeps :
      (chunk : Bytes) (now : ℕ) (c : Client) → Kept → Keeps c → Keeps (received chunk now c)
  unfolding received append
  received-Keeps chunk now c k (a, b, i) =
      conclude-Keeps now _ c k
        (rw (a, b)
          (drain_keeps max (client_dispatch has_app) client_valid P (c.buf ++ chunk) c.inbound
            k.frames i))
        (a, b, i)

  beat-Keeps : (now : ℕ) (c : Client) → Keeps c → Keeps (beat now c)
  unfolding beat send
  beat-Keeps now c h =
      elim (Bool-cases (
        not (is_terminal c.inbound.state)
        && leb c.cfg.heartbeat_send_threshold_ns (elapsed c.send_side now))) [
          | inl t ↦ rw t h
          | inr t ↦ rw t h
        ]

  on_bytes-Keeps :
      (chunk : Bytes) (now : ℕ) (c : Client) → Kept → Keeps c → Keeps (on_bytes chunk now c).1
  unfolding on_bytes
  on_bytes-Keeps chunk now c k h = elim (Bool-cases (length chunk == 0)) [
    | inl t ↦ rw t h
    | inr t ↦ rw t (received-Keeps chunk now c k h)
  ]

  tick-Keeps : (now : ℕ) (c : Client) → Kept → Keeps c → Keeps (tick now c).1
  unfolding tick enter
  tick-Keeps now c k (a, b, i) = elim (Bool-cases (is_terminal c.inbound.state)) [
    | inl t ↦ rw t (a, b, i)
    | inr t ↦ rw t (beat-Keeps now (enter (expire now c) c) (a, b, k.clock now c t i))
  ]

  send_unsequenced-Keeps :
      (msg : Bytes) (now : ℕ) (c : Client) → Keeps c → Keeps (send_unsequenced msg now c)
  unfolding send_unsequenced send
  send_unsequenced-Keeps msg now c h =
      elim (Bool-cases (ltb (c.cfg.max_frame_bytes + 3) (length msg + 3))) [
        | inl t ↦ rw t h
        | inr t ↦ rw t h
      ]

  send_logout-Keeps : (now : ℕ) (c : Client) → Keeps c → Keeps (send_logout now c)
  unfolding send_logout send
  send_logout-Keeps now c h = h

  step-Keeps : (o : Op) (c : Client) → Kept → Keeps c → Keeps (step o c)
  step-Keeps (bytes chunk now) c k h = on_bytes-Keeps chunk now c k h
  step-Keeps (time now) c k h = tick-Keeps now c k h
  step-Keeps (unsequenced msg now) c k h = send_unsequenced-Keeps msg now c h
  step-Keeps (logout now) c k h = send_logout-Keeps now c h

  pub run-Keeps : (os : List Op) (c : Client) → Kept → Keeps c → Keeps (run os c)
  run-Keeps [] c k h = h
  run-Keeps (o ∷ os) c k h = run-Keeps os (step o c) k (step-Keeps o c k h)
