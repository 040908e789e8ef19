-- ===== src/Soup/Frames/Stuck.antt =====
-- A session that has refused a frame refuses it again, whatever arrives behind it.
use itchbook.Base.{
  ℕ, zero, suc, ◌≤◌, ◌≡◌, refl, sym, ap, subst, ◌∙◌, inl, inr, Bool, false, [], ◌∷◌, ◌++◌, arith,
  if◌then◌else◌, Bool-cases, length,
}
use mathlib.Core.List.{append_assoc}
use itchbook.Mold.Bytes.{Bytes, take_bytes, drop_bytes}
use itchbook.Soup.Packets.{frame_length, packet_type}
use itchbook.Soup.Frames.{
  Round, wait, refuse, consume, Drained, dispatched, round, drain_from, drain,
}
use itchbook.Soup.Frames.Chunks.{
  Settled, drain-unfold, drain-append, resume, round-append, length-drop_bytes, consumed-Within,
}

module _ {S : Type 0} (max : ℕ) (dispatch : ℕ → Bytes → S → Bool × S) (is_valid : ℕ → ℕ → Bool)
    (violate : S → S) where
  -- The session is unchanged by a frame that it refuses, and refuses it in violation as well.
  abbrev pub Refuses : Type 0
  Refuses =
      (type : ℕ) (frame : Bytes) (s : S)
      → (dispatch type frame s).0 ≡ false
      → ((dispatch type frame s).1 ≡ s) × (dispatch type frame (violate s) ≡ (false, violate s))

  abbrev Stuck : Drained S → Type 0
  Stuck d =
      d.ok ≡ false
      → round max dispatch is_valid d.rest (violate d.session) ≡ refuse (violate d.session)

  round-violate :
      (p : Bytes) (s s' : S)
      → Refuses
      → round max dispatch is_valid p s ≡ refuse s'
      → round max dispatch is_valid p (violate s') ≡ refuse (violate s')
  unfolding round dispatched
  round-violate p s s' h e = ground (arith, h (packet_type p) (take_bytes (frame_length p) p) s)

  abbrev Drain : Bytes → S → Drained S
  Drain p s = drain max dispatch is_valid p s

  refused_step :
      (n : ℕ) (p : Bytes) (s : S) (r : Round S)
      → Refuses
      → round max dispatch is_valid p s ≡ r
      → length p ≤ suc n
      → ((p' : Bytes) (s' : S) → length p' ≤ n → Stuck (Drain p' s'))
      → Stuck (Drain p s)
  refused_step n p s wait h e l ih =
      rw (drain-unfold max dispatch is_valid p s wait e) (λ k. absurd (ground arith))
  refused_step n p s (refuse s') h e l ih =
      rw (drain-unfold max dispatch is_valid p s (refuse s') e) (λ k. round-violate p s s' h e)
  refused_step n p s (consume flen s') h e l ih =
      let w = consumed-Within max dispatch is_valid p s flen s' e in
      rw (drain-unfold max dispatch is_valid p s (consume flen s') e)
        (ih (drop_bytes flen p) s' (omega (arith, w.0, w.1, length-drop_bytes flen p)))

  refused_upto : (n : ℕ) (p : Bytes) (s : S) → Refuses → length p ≤ n → Stuck (Drain p s)
  unfolding drain drain_from
  refused_upto zero [] s h l = λ k. absurd (ground arith)
  refused_upto zero (x ∷ p) s h l = absurd (omega arith)
  refused_upto (suc n) p s h l =
      refused_step n p s (round max dispatch is_valid p s) h refl l
        (λ p' s' l'. refused_upto n p' s' h l')

  -- What the bytes that are not read yet and the session become by a chunk.
  abbrev pub absorb : Bytes × S → Bytes → Bytes × S
  absorb (buf, s) chunk =
      let d = Drain (buf ++ chunk) s in (d.rest, if d.ok then d.session else violate d.session)

  after_refusal :
      (d : Drained S) (y : Bytes)
      → d.ok ≡ false
      → Stuck d
      → absorb (d.rest, violate d.session) y ≡ (d.rest ++ y, violate (violate d.session))
  after_refusal d y e k =
      let a =
        round-append max dispatch is_valid d.rest y (violate d.session)
          (subst Settled (sym (k e)) tt) in
      let r =
        drain-unfold max dispatch is_valid (d.rest ++ y) (violate d.session)
          (refuse (violate d.session)) (a ∙ k e) in
      rw r refl

  absorb_step :
      (d : Drained S) (y : Bytes)
      → ((s : S) → violate (violate s) ≡ violate s)
      → Stuck d
      → absorb (d.rest, if d.ok then d.session else violate d.session) y ≡ (
          let d' = resume max dispatch is_valid d y in
          (d'.rest, if d'.ok then d'.session else violate d'.session))
  absorb_step d y v k = elim (Bool-cases d.ok) [
    | inl t ↦ rw t refl
    | inr t ↦ rw t (after_refusal d y t k ∙ ap (λ s. (d.rest ++ y, s)) (v d.session))
  ]

  -- Two chunks one after the other are absorbed as their concatenation is.
  pub absorb-append :
      (buf x y : Bytes) (s : S)
      → Refuses
      → ((s : S) → violate (violate s) ≡ violate s)
      → absorb (absorb (buf, s) x) y ≡ absorb (buf, s) (x ++ y)
  absorb-append buf x y s h v =
      absorb_step (Drain (buf ++ x) s) y v
        (refused_upto (length (buf ++ x)) (buf ++ x) s h (omega arith))
      ∙ ap (λ d. (d.rest, if d.ok then d.session else violate d.session))
          (sym (drain-append max dispatch is_valid (buf ++ x) y s)
            ∙ ap (λ p. Drain p s) (append_assoc buf x y))
