-- ===== src/Soup/Frames.antt =====
-- `FrameBuffer` of soupbin/session.hpp: the bytes that have arrived, drained frame by frame. The
-- session behind it is a parameter: its state, which frames it admits, and what it does with one.
pub mod Chunks
pub mod Stuck
pub mod Keeps
use itchbook.Base.{
  ℕ, zero, suc, ◌+◌, ◌-◌, ◌*◌, ◌/◌, ◌%◌, ◌^◌, ◌≤◌, ◌<◌, min, ◌≡◌, refl, sym, ap, subst, ◌∙◌, ◌≢◌,
  ◌↔◌, ◌⊎◌, inl, inr, Bool, true, false, not, ◌&&◌, ◌||◌, Option, none, some, List, [], ◌∷◌, ◌++◌,
  map, arith, ltb, leb, ◌==◌, if◌then◌else◌, Bool-cases, length, length-append,
}
use itchbook.Mold.Bytes.{Bytes, take_bytes, drop_bytes}
use itchbook.Soup.Packets.{frame_length, packet_type}

-- What one round of the loop comes to: it waits for more bytes, it refuses, or it dispatches a frame
-- of so many bytes. The last two carry the session's state then.
pub data Round (S : Type 0) : Type 0 where
  wait : Round S
  refuse : S → Round S
  consume : ℕ → S → Round S

pub record Drained (S : Type 0) : Type 0 where
  pub ok : Bool
  pub rest : Bytes
  pub session : S

unfoldable pub append : Bytes → Bytes → Bytes
append buf chunk = buf ++ chunk

module _ {S : Type 0} where
  module _ (max_frame_bytes : ℕ) (dispatch : ℕ → Bytes → S → Bool × S)
      (is_valid : ℕ → ℕ → Bool) where
    -- The frame is the first `flen` bytes; its type is at offset 2 even where it is shorter.
    unfoldable pub dispatched : ℕ → Bool × S → Round S
    dispatched flen (ok, s) = if ok then consume flen s else refuse s

    unfoldable pub round : Bytes → S → Round S
    round p s =
        if ltb (length p) 3
        then wait
        else let flen = frame_length p in
          if ltb max_frame_bytes flen
          then refuse s
          else if ltb (length p) flen
          then wait
          else if not (is_valid (packet_type p) flen)
          then refuse s
          else dispatched flen (dispatch (packet_type p) (take_bytes flen p) s)

    -- Each round takes two bytes at least, so as many rounds as bytes are enough.
    unfoldable pub drain_from : ℕ → Bytes → S → Drained S
    drain_from zero p s = record { ok = true; rest = p; session = s }
    drain_from (suc n) p s = elim (round p s) [
      | wait ↦ record { ok = true; rest = p; session = s }
      | refuse s' ↦ record { ok = false; rest = p; session = s' }
      | consume flen s' ↦ drain_from n (drop_bytes flen p) s'
    ]

    unfoldable pub drain : Bytes → S → Drained S
    drain p s = drain_from (length p) p s
