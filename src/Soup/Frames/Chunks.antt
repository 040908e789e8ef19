-- ===== src/Soup/Frames/Chunks.antt =====
-- What is drained does not depend on how the stream was cut into chunks.
use itchbook.Base.{
  ℕ, zero, suc, ◌-◌, ◌≤◌, ◌≡◌, refl, sym, ap, subst, ◌∙◌, inl, inr, Bool, true, false, [], ◌∷◌,
  ◌++◌, arith, ltb, if◌then◌else◌, Bool-cases, length, length-append,
}
use itchbook.Mold.Bytes.{Bytes, take_bytes, drop_bytes, be16, be_from}
use itchbook.Soup.Packets.{frame_length, declared_length, packet_type}
use itchbook.Soup.Frames.{
  Round, wait, refuse, consume, Drained, dispatched, round, drain_from, drain,
}

take_bytes-within : (n : ℕ) (p q : Bytes) → n ≤ length p → take_bytes n (p ++ q) ≡ take_bytes n p
take_bytes-within zero p q h = refl
take_bytes-within (suc n) [] q h = absurd (omega arith)
take_bytes-within (suc n) (x ∷ p) q h = ap (λ w. x ∷ w) (take_bytes-within n p q (omega arith))

drop_bytes-within :
    (n : ℕ) (p q : Bytes) → n ≤ length p → drop_bytes n (p ++ q) ≡ drop_bytes n p ++ q
drop_bytes-within zero p q h = refl
drop_bytes-within (suc n) [] q h = absurd (omega arith)
drop_bytes-within (suc n) (x ∷ p) q h = drop_bytes-within n p q (omega arith)

pub length-drop_bytes : (n : ℕ) (p : Bytes) → length (drop_bytes n p) ≡ length p - n
length-drop_bytes zero p = omega arith
length-drop_bytes (suc n) [] = omega arith
length-drop_bytes (suc n) (x ∷ p) = omega (arith, length-drop_bytes n p)

abbrev pub Settled : {S : Type 0} → Round S → Type 0
Settled wait = ⊥
Settled (refuse s) = Unit {0}
Settled (consume n s) = Unit {0}

module _ {S : Type 0} (max : ℕ) (dispatch : ℕ → Bytes → S → Bool × S)
    (is_valid : ℕ → ℕ → Bool) where
  -- A frame that is consumed has two bytes at least, and lies within the buffer.
  pub consumed-Within :
      (p : Bytes) (s : S) (n : ℕ) (s' : S)
      → round max dispatch is_valid p s ≡ consume n s'
      → (2 ≤ n) × (n ≤ length p)
  unfolding round dispatched frame_length
  consumed-Within p s n s' e = ground arith

  pub round-append :
      (p q : Bytes) (s : S)
      → Settled (round max dispatch is_valid p s)
      → round max dispatch is_valid (p ++ q) s ≡ round max dispatch is_valid p s
  unfolding round frame_length declared_length be16 be_from packet_type
  round-append [] q s h = absurd h
  round-append (a ∷ []) q s h = absurd h
  round-append (a ∷ b ∷ []) q s h = absurd h
  round-append (a ∷ b ∷ c ∷ p) q s h =
      let w = a ∷ b ∷ c ∷ p in
      let n = frame_length w in
      let l : ltb (length w) 3 ≡ false = ground arith in
      let m : ltb (length (w ++ q)) 3 ≡ false = ground arith in
      elim (Bool-cases (ltb max n)) [
        | inl t ↦ rw (l, m, t) refl
        | inr t ↦ elim (Bool-cases (ltb (length w) n)) [
          | inl u ↦ absurd (rw (l, t, u) at h)
          | inr u ↦
              let v : ltb (length (w ++ q)) n ≡ false = ground (arith, length-append {0} w q) in
              let k : take_bytes n (w ++ q) ≡ take_bytes n w =
                take_bytes-within n w q (ground arith) in
              rw (l, m, t, u, v, k) refl
        ]
      ]

  abbrev Next : Bytes → S → Drained S
  Next p s = drain max dispatch is_valid p s

  fuel_step :
      (n m : ℕ) (p : Bytes) (s : S) (r : Round S)
      → round max dispatch is_valid p s ≡ r
      → length p ≤ suc n
      → length p ≤ suc m
      → ((p' : Bytes) (s' : S)
          → length p' ≤ n
          → length p' ≤ m
          → drain_from max dispatch is_valid n p' s' ≡ drain_from max dispatch is_valid m p' s')
      → drain_from max dispatch is_valid (suc n) p s ≡ drain_from max dispatch is_valid (suc m) p s
  unfolding drain_from
  fuel_step n m p s wait e h k ih = rw (e, drain_from) refl
  fuel_step n m p s (refuse s') e h k ih = rw (e, drain_from) refl
  fuel_step n m p s (consume l s') e h k ih =
      let w = consumed-Within p s l s' e in
      let d = length-drop_bytes l p in
      rw (e, drain_from)
        (ih (drop_bytes l p) s' (omega (arith, w.0, w.1)) (omega (arith, w.0, w.1)))

  -- Any fuel from the length of the buffer on gives the same.
  fuel :
      (n m : ℕ) (p : Bytes) (s : S)
      → length p ≤ n
      → length p ≤ m
      → drain_from max dispatch is_valid n p s ≡ drain_from max dispatch is_valid m p s
  unfolding drain_from round
  fuel zero zero p s h k = refl
  fuel zero (suc m) [] s h k = refl
  fuel zero (suc m) (x ∷ p) s h k = absurd (omega arith)
  fuel (suc n) zero [] s h k = refl
  fuel (suc n) zero (x ∷ p) s h k = absurd (omega arith)
  fuel (suc n) (suc m) p s h k =
      fuel_step n m p s (round max dispatch is_valid p s) refl h k (fuel n m)

  abbrev pub settle : Bytes → S → Round S → Drained S
  settle p s wait = record { ok = true; rest = p; session = s }
  settle p s (refuse s') = record { ok = false; rest = p; session = s' }
  settle p s (consume l s') = drain max dispatch is_valid (drop_bytes l p) s'

  unfold_step :
      (x : ℕ) (p : Bytes) (s : S) (r : Round S)
      → round max dispatch is_valid (x ∷ p) s ≡ r
      → drain max dispatch is_valid (x ∷ p) s ≡ settle (x ∷ p) s r
  unfolding drain drain_from
  unfold_step x p s wait e = rw (e, drain_from) refl
  unfold_step x p s (refuse s') e = rw (e, drain_from) refl
  unfold_step x p s (consume l s') e =
      let w = consumed-Within (x ∷ p) s l s' e in
      let d = length-drop_bytes l (x ∷ p) in
      rw (e, drain_from)
        (fuel (length p) (length (drop_bytes l (x ∷ p))) (drop_bytes l (x ∷ p)) s'
          (omega (arith, w.0, w.1)) (omega arith))

  -- A drain is its first round and the drain of what that leaves.
  pub drain-unfold :
      (p : Bytes) (s : S) (r : Round S)
      → round max dispatch is_valid p s ≡ r
      → drain max dispatch is_valid p s ≡ settle p s r
  unfolding drain drain_from round
  drain-unfold [] s wait e = refl
  drain-unfold [] s (refuse s') e = absurd (subst Settled (sym e) tt)
  drain-unfold [] s (consume l s') e = absurd (subst Settled (sym e) tt)
  drain-unfold (x ∷ p) s r e = unfold_step x p s r e

  -- What comes of a drain when more bytes arrive.
  abbrev pub resume : Drained S → Bytes → Drained S
  resume d q =
      if d.ok
      then drain max dispatch is_valid (d.rest ++ q) d.session
      else record { ok = false; rest = d.rest ++ q; session = d.session }

  resume_step :
      (n : ℕ) (p q : Bytes) (s : S) (r : Round S)
      → round max dispatch is_valid p s ≡ r
      → length p ≤ suc n
      → ((p' : Bytes) (s' : S)
          → length p' ≤ n
          → drain max dispatch is_valid (p' ++ q) s' ≡ resume (drain max dispatch is_valid p' s') q)
      → drain max dispatch is_valid (p ++ q) s ≡ resume (drain max dispatch is_valid p s) q
  resume_step n p q s wait e h ih = rw (drain-unfold p s wait e) refl
  resume_step n p q s (refuse s') e h ih =
      let a = round-append p q s (subst Settled (sym e) tt) ∙ e in
      rw (drain-unfold p s (refuse s') e, drain-unfold (p ++ q) s (refuse s') a) refl
  resume_step n p q s (consume l s') e h ih =
      let a = round-append p q s (subst Settled (sym e) tt) ∙ e in
      let w = consumed-Within p s l s' e in
      let d = length-drop_bytes l p in
      rw
        (
          drain-unfold p s (consume l s') e,
          drain-unfold (p ++ q) s (consume l s') a,
          drop_bytes-within l p q w.1,
        )
        (ih (drop_bytes l p) s' (omega (arith, w.0, w.1)))

  resume_upto :
      (n : ℕ) (p q : Bytes) (s : S)
      → length p ≤ n
      → drain max dispatch is_valid (p ++ q) s ≡ resume (drain max dispatch is_valid p s) q
  unfolding drain drain_from
  resume_upto zero [] q s h = refl
  resume_upto zero (x ∷ p) q s h = absurd (omega arith)
  resume_upto (suc n) p q s h =
      resume_step n p q s (round max dispatch is_valid p s) refl h
        (λ p' s' h'. resume_upto n p' q s' h')

  -- placeholder
  pub drain-append :
      (p q : Bytes) (s : S)
      → drain max dispatch is_valid (p ++ q) s ≡ resume (drain max dispatch is_valid p s) q
  drain-append p q s = resume_upto (length p) p q s (omega arith)
