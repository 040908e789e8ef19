-- ===== src/Soup/Frames/Keeps.antt =====
-- What every dispatch of a whole frame keeps, a drain keeps.
use itchbook.Base.{
  ℕ, zero, suc, ◌≤◌, ◌≡◌, refl, inl, inr, Bool, true, false, not, [], ◌∷◌, arith, ltb, Bool-cases,
  length,
}
use itchbook.Mold.Bytes.{Bytes, take_bytes, drop_bytes, be16, be_from}
use itchbook.Soup.Packets.{frame_length, declared_length, packet_type}
use itchbook.Soup.Frames.{Round, wait, refuse, consume, dispatched, round, drain_from, drain}
use itchbook.Soup.Frames.Chunks.{drain-unfold, consumed-Within, length-drop_bytes}

-- A frame as a dispatch gets it: all that its length says, and no more than the session allows.
abbrev pub Whole : ℕ → Bytes → Type 0
Whole max frame = (length frame ≡ frame_length frame) × (frame_length frame ≤ max)

length-take_bytes : (n : ℕ) (p : Bytes) → n ≤ length p → length (take_bytes n p) ≡ n
length-take_bytes zero p h = refl
length-take_bytes (suc n) [] h = absurd (omega arith)
length-take_bytes (suc n) (x ∷ p) h = omega (arith, length-take_bytes n p (omega arith))

frame_length-take_bytes :
    (n : ℕ) (p : Bytes) → 2 ≤ n → n ≤ length p → frame_length (take_bytes n p) ≡ frame_length p
unfolding frame_length declared_length be16 be_from
frame_length-take_bytes (suc (suc n)) (a ∷ b ∷ p) h k = refl
frame_length-take_bytes zero p h k = absurd (omega arith)
frame_length-take_bytes (suc zero) p h k = absurd (omega arith)
frame_length-take_bytes (suc (suc n)) [] h k = absurd (omega arith)
frame_length-take_bytes (suc (suc n)) (a ∷ []) h k = absurd (omega arith)

taken-Whole :
    (max : ℕ) (p : Bytes)
    → frame_length p ≤ length p
    → frame_length p ≤ max
    → Whole max (take_bytes (frame_length p) p)
unfolding frame_length
taken-Whole max p h k =
    let n = frame_length p in
    let a = length-take_bytes n p h in
    let b = frame_length-take_bytes n p (omega arith) h in (omega arith, omega arith)

module _ {S : Type 0} (max : ℕ) (dispatch : ℕ → Bytes → S → Bool × S) (is_valid : ℕ → ℕ → Bool)
    (P : S → Type 0) where
  abbrev pub Kept : Type 0
  Kept = (type : ℕ) (frame : Bytes) (s : S) → Whole max frame → P s → P (dispatch type frame s).1

  abbrev Holds : Round S → Type 0
  Holds wait = Unit {0}
  Holds (refuse s) = P s
  Holds (consume n s) = P s

  dispatched-Holds : (n : ℕ) (r : Bool × S) → P r.1 → Holds (dispatched max dispatch is_valid n r)
  unfolding dispatched
  dispatched-Holds n (true, s) h = h
  dispatched-Holds n (false, s) h = h

  round-Holds : (p : Bytes) (s : S) → Kept → P s → Holds (round max dispatch is_valid p s)
  unfolding round
  round-Holds p s k h = elim (Bool-cases (ltb (length p) 3)) [
    | inl t ↦ rw t tt
    | inr t ↦ elim (Bool-cases (ltb max (frame_length p))) [
      | inl u ↦ rw (t, u) h
      | inr u ↦ elim (Bool-cases (ltb (length p) (frame_length p))) [
        | inl v ↦ rw (t, u, v) tt
        | inr v ↦ elim (Bool-cases (not (is_valid (packet_type p) (frame_length p)))) [
          | inl w ↦ rw (t, u, v, w) h
          | inr w ↦
              rw (t, u, v, w)
                (dispatched-Holds (frame_length p) _ (
                  k (packet_type p) (take_bytes (frame_length p) p) s
                    (taken-Whole max p (ground arith) (ground arith)) h))
        ]
      ]
    ]
  ]

  keeps_step :
      (n : ℕ) (p : Bytes) (s : S) (r : Round S)
      → round max dispatch is_valid p s ≡ r
      → Holds r
      → P s
      → length p ≤ suc n
      → ((p' : Bytes) (s' : S)
          → length p' ≤ n
          → P s'
          → P (drain max dispatch is_valid p' s').session)
      → P (drain max dispatch is_valid p s).session
  keeps_step n p s wait e q h l ih = rw (drain-unfold max dispatch is_valid p s wait e) h
  keeps_step n p s (refuse s') e q h l ih =
      rw (drain-unfold max dispatch is_valid p s (refuse s') e) q
  keeps_step n p s (consume flen s') e q h l ih =
      let w = consumed-Within max dispatch is_valid p s flen s' e in
      rw (drain-unfold max dispatch is_valid p s (consume flen s') e)
        (ih (drop_bytes flen p) s' (omega (arith, w.0, w.1, length-drop_bytes flen p)) q)

  keeps_upto :
      (n : ℕ) (p : Bytes) (s : S)
      → Kept
      → length p ≤ n
      → P s
      → P (drain max dispatch is_valid p s).session
  unfolding drain drain_from
  keeps_upto zero [] s k l h = h
  keeps_upto zero (x ∷ p) s k l h = absurd (omega arith)
  keeps_upto (suc n) p s k l h =
      keeps_step n p s (round max dispatch is_valid p s) refl (round-Holds p s k h) h l
        (λ p' s' l' h'. keeps_upto n p' s' k l' h')

  pub drain_keeps : (p : Bytes) (s : S) → Kept → P s → P (drain max dispatch is_valid p s).session
  drain_keeps p s k h = keeps_upto (length p) p s k (omega arith) h
