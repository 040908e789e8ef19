-- ===== src/Soup/Server/Chunks.antt =====
-- A server reacts to the stream, not to how the transport cuts it.
use itchbook.Base.{
  ℕ, ◌≡◌, refl, sym, ap, ◌∙◌, inl, inr, Bool, false, not, ◌&&◌, List, [], ◌∷◌, ◌++◌, arith, ◌==◌,
  if◌then◌else◌, Bool-cases, length,
}
use mathlib.Core.List.{append-nil}
use itchbook.Mold.Bytes.{Bytes}
use itchbook.Soup.Frames.{Drained, append, drain}
use itchbook.Soup.Frames.Stuck.{Refuses, absorb, absorb-append}
use itchbook.Soup.Session.{is_terminal}
use itchbook.Soup.Client.Chunks.{concat}
use itchbook.Soup.Server.{
  Inbound, Server, server_dispatch, server_valid, violate, conclude, received, on_bytes,
}

server_dispatch-Refuses :
    (max : ℕ) (has_app : Bool) → Refuses max (server_dispatch has_app) server_valid violate
unfolding server_dispatch
server_dispatch-Refuses max has_app = λ type p s h. ground arith

-- A server without the time at which it last heard from the client.
abbrev pub unclocked : Server → Server
unclocked c = record c { recv_side = 0 }

abbrev pub serve_all : ℕ → List Bytes → Server → Server
serve_all now [] c = c
serve_all now (x ∷ xs) c = serve_all now xs (on_bytes x now c).1

-- The server with what a chunk makes of its buffer and of the part that frames change.
abbrev absorbed : Server → Bytes × Inbound → Server
absorbed c w = record (unclocked c) { buf = w.0; inbound = w.1 }

abbrev Absorb : Server → Bytes → Bytes × Inbound
Absorb c x =
    absorb c.cfg.max_frame_bytes (server_dispatch c.has_app) server_valid violate (c.buf, c.inbound)
      x

conclude-unclocked :
    (now : ℕ) (d : Drained Inbound) (c : Server)
    → unclocked (conclude now d c)
      ≡ absorbed c (d.rest, if d.ok then d.session else violate d.session)
unfolding conclude
conclude-unclocked now d c = elim (Bool-cases d.ok) [
  | inl t ↦
      elim (Bool-cases (not (is_terminal c.inbound.state) && not (is_terminal d.session.state))) [
        | inl u ↦ rw (t, u) refl
        | inr u ↦ rw (t, u) refl
      ]
  | inr t ↦ rw t refl
]

received-unclocked :
    (x : Bytes) (now : ℕ) (c : Server) → unclocked (received x now c) ≡ absorbed c (Absorb c x)
unfolding received append
received-unclocked x now c =
    conclude-unclocked now
      (drain c.cfg.max_frame_bytes (server_dispatch c.has_app) server_valid (c.buf ++ x) c.inbound)
      c

two_chunks :
    (x y : Bytes) (now : ℕ) (c : Server)
    → unclocked (received y now (received x now c)) ≡ unclocked (received (x ++ y) now c)
two_chunks x y now c =
    let max = c.cfg.max_frame_bytes in
    let h = server_dispatch-Refuses max c.has_app in
    received-unclocked y now (received x now c)
    ∙ ap (λ u. absorbed u (Absorb u y)) (received-unclocked x now c)
    ∙ ap (absorbed c) (
        absorb-append max (server_dispatch c.has_app) server_valid violate c.buf x y c.inbound h
          (λ s. refl))
    ∙ sym (received-unclocked (x ++ y) now c)

pub on_bytes-cons :
    (x : ℕ) (xs : Bytes) (now : ℕ) (c : Server)
    → (on_bytes (x ∷ xs) now c).1 ≡ received (x ∷ xs) now c
unfolding on_bytes
on_bytes-cons x xs now c = let t : (length (x ∷ xs) == 0) ≡ false = ground arith in rw t refl

joined :
    (x : ℕ) (xs y : Bytes) (now : ℕ) (c : Server)
    → unclocked (on_bytes y now (on_bytes (x ∷ xs) now c).1).1
      ≡ unclocked (on_bytes (x ∷ (xs ++ y)) now c).1
unfolding on_bytes
joined x xs [] now c = rw append-nil refl
joined x xs (y ∷ ys) now c =
    rw
      (
        on_bytes-cons x xs now c,
        on_bytes-cons y ys now (received (x ∷ xs) now c),
        on_bytes-cons x (xs ++ (y ∷ ys)) now c,
      )
      (two_chunks (x ∷ xs) (y ∷ ys) now c)

-- placeholder
pub serve_all-concat :
    (now : ℕ) (xs : List Bytes) (c : Server)
    → unclocked (serve_all now xs c) ≡ unclocked (on_bytes (concat xs) now c).1
unfolding on_bytes
serve_all-concat now [] c = refl
serve_all-concat now ([] ∷ xs) c = serve_all-concat now xs c
serve_all-concat now ((x ∷ x') ∷ xs) c =
    serve_all-concat now xs (on_bytes (x ∷ x') now c).1 ∙ joined x x' (concat xs) now c
