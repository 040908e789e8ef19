-- ===== src/Soup/Client/Chunks.antt =====
-- A client reacts to the stream, not to how the transport cuts it.
use itchbook.Base.{
  ℕ, ◌≡◌, refl, sym, ap, ◌∙◌, inl, inr, Bool, false, not, ◌&&◌, List, [], ◌∷◌, ◌++◌, arith, ◌==◌,
  if◌then◌else◌, Bool-cases, length,
}
use mathlib.Core.List.{append-nil}
use itchbook.Mold.Bytes.{Bytes}
use itchbook.Soup.Frames.{Drained, append, drain}
use itchbook.Soup.Frames.Stuck.{Refuses, absorb, absorb-append}
use itchbook.Soup.Session.{is_terminal}
use itchbook.Soup.Client.{
  Inbound, Client, client_dispatch, client_valid, violate, conclude, received, on_bytes,
}

client_dispatch-Refuses :
    (max : ℕ) (has_app : Bool) → Refuses max (client_dispatch has_app) client_valid violate
unfolding client_dispatch
client_dispatch-Refuses max has_app = λ type p s h. ground arith

-- A client without the time at which it last heard from the server.
abbrev pub unclocked : Client → Client
unclocked c = record c { recv_side = 0 }

abbrev pub receive_all : ℕ → List Bytes → Client → Client
receive_all now [] c = c
receive_all now (x ∷ xs) c = receive_all now xs (on_bytes x now c).1

abbrev pub concat : List Bytes → Bytes
concat [] = []
concat (x ∷ xs) = x ++ concat xs

-- The client with what a chunk makes of its buffer and of the part that frames change.
abbrev absorbed : Client → Bytes × Inbound → Client
absorbed c w = record (unclocked c) { buf = w.0; inbound = w.1 }

abbrev Absorb : Client → Bytes → Bytes × Inbound
Absorb c x =
    absorb c.cfg.max_frame_bytes (client_dispatch c.has_app) client_valid violate (c.buf, c.inbound)
      x

conclude-unclocked :
    (now : ℕ) (d : Drained Inbound) (c : Client)
    → unclocked (conclude now d c)
      ≡ absorbed c (d.rest, if d.ok then d.session else violate d.session)
unfolding conclude
conclude-unclocked now d c = elim (Bool-cases d.ok) [
  | inl t ↦
      elim (Bool-cases (not (is_terminal c.inbound.state) && not (is_terminal d.session.state))) [
        | inl u ↦ rw (t, u) refl
        | inr u ↦ rw (t, u) refl
      ]
  | inr t ↦ rw t refl
]

received-unclocked :
    (x : Bytes) (now : ℕ) (c : Client) → unclocked (received x now c) ≡ absorbed c (Absorb c x)
unfolding received append
received-unclocked x now c =
    conclude-unclocked now
      (drain c.cfg.max_frame_bytes (client_dispatch c.has_app) client_valid (c.buf ++ x) c.inbound)
      c

two_chunks :
    (x y : Bytes) (now : ℕ) (c : Client)
    → unclocked (received y now (received x now c)) ≡ unclocked (received (x ++ y) now c)
two_chunks x y now c =
    let max = c.cfg.max_frame_bytes in
    let h = client_dispatch-Refuses max c.has_app in
    received-unclocked y now (received x now c)
    ∙ ap (λ u. absorbed u (Absorb u y)) (received-unclocked x now c)
    ∙ ap (absorbed c) (
        absorb-append max (client_dispatch c.has_app) client_valid violate c.buf x y c.inbound h
          (λ s. refl))
    ∙ sym (received-unclocked (x ++ y) now c)

pub on_bytes-cons :
    (x : ℕ) (xs : Bytes) (now : ℕ) (c : Client)
    → (on_bytes (x ∷ xs) now c).1 ≡ received (x ∷ xs) now c
unfolding on_bytes
on_bytes-cons x xs now c = let t : (length (x ∷ xs) == 0) ≡ false = ground arith in rw t refl

joined :
    (x : ℕ) (xs y : Bytes) (now : ℕ) (c : Client)
    → unclocked (on_bytes y now (on_bytes (x ∷ xs) now c).1).1
      ≡ unclocked (on_bytes (x ∷ (xs ++ y)) now c).1
unfolding on_bytes
joined x xs [] now c = rw append-nil refl
joined x xs (y ∷ ys) now c =
    rw
      (
        on_bytes-cons x xs now c,
        on_bytes-cons y ys now (received (x ∷ xs) now c),
        on_bytes-cons x (xs ++ (y ∷ ys)) now c,
      )
      (two_chunks (x ∷ xs) (y ∷ ys) now c)

-- But for the time of the last arrival, a client that gets chunks at one time is as if it had got
-- their concatenation in one call, in every state, also where a frame is refused.
pub receive_all-concat :
    (now : ℕ) (xs : List Bytes) (c : Client)
    → unclocked (receive_all now xs c) ≡ unclocked (on_bytes (concat xs) now c).1
unfolding on_bytes
receive_all-concat now [] c = refl
receive_all-concat now ([] ∷ xs) c = receive_all-concat now xs c
receive_all-concat now ((x ∷ x') ∷ xs) c =
    receive_all-concat now xs (on_bytes (x ∷ x') now c).1 ∙ joined x x' (concat xs) now c
