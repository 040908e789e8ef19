-- ===== src/Risk/RateWindow/Slots.antt =====
-- What a slot of the rate window knows of the messages that were sent.
use itchbook.Base.{
  ℕ, ◌+◌, ◌%◌, ◌≤◌, ◌<◌, ◌≡◌, refl, sym, ap, subst, ◌∙◌, ◌≢◌, ◌⊎◌, inl, inr, true, false, List, [],
  ◌∷◌, arith, ◌==◌, if◌then◌else◌, Bool-cases,
}
use native.Mathlib.Decide.{ℕ_discrete}
use itchbook.Risk.RateWindow.{RateWindow, bucket_count, never, add_at}

-- How many messages fell into a bucket.
unfoldable pub in_bucket : ℕ → List ℕ → ℕ
in_bucket i [] = 0
in_bucket i (x ∷ xs) = (if x == i then 1 else 0) + in_bucket i xs

-- The buckets of the messages, the latest first: none lies before the one that follows it.
abbrev pub Falling : ℕ → List ℕ → Type 0
Falling top [] = Unit {0}
Falling top (x ∷ xs) = (x ≤ top) × Falling x xs

-- No bucket of the list has the slot `s`, or lies behind `e` if it has.
abbrev pub UpTo : ℕ → ℕ → List ℕ → Type 0
UpTo s e [] = Unit {0}
UpTo s e (x ∷ xs) = (x % bucket_count ≡ s → x ≤ e) × UpTo s e xs

abbrev pub Missing : ℕ → List ℕ → Type 0
Missing s [] = Unit {0}
Missing s (x ∷ xs) = (x % bucket_count ≢ s) × Missing s xs

-- A slot that is unused, or counts the latest bucket that has it.
abbrev pub KnowsAt : ℕ → ℕ → ℕ → List ℕ → ℕ → Type 0
KnowsAt e c now xs s =
    ((e ≡ never) × (c ≡ 0) × Missing s xs)
    ⊎ ((e % bucket_count ≡ s) × (now < never) × (e ≤ now) × (c ≡ in_bucket e xs) × UpTo s e xs)

abbrev pub Knows : RateWindow → List ℕ → ℕ → Type 0
Knows w xs s = KnowsAt (w.epoch s) (w.count s) w.now xs s

KnowsAt-cong :
    {e e' c c' n n' : ℕ}
    → (xs : List ℕ) (s : ℕ) → e ≡ e'
    → c ≡ c'
    → n ≡ n'
    → KnowsAt e' c' n' xs s
    → KnowsAt e c n xs s
KnowsAt-cong {e = e} {e' = e'} {c = c} {c' = c'} {n = n} {n' = n'} xs s p q r k =
    subst (λ z. KnowsAt z c n xs s) (sym p)
      (subst (λ z. KnowsAt e' z n xs s) (sym q) (subst (λ z. KnowsAt e' c' z xs s) (sym r) k))

Missing-UpTo : (s e : ℕ) (xs : List ℕ) → Missing s xs → UpTo s e xs
Missing-UpTo s e [] m = tt
Missing-UpTo s e (x ∷ xs) (n, m) = ((λ k. absurd (n k)), Missing-UpTo s e xs m)

in_bucket-Missing :
    (s i : ℕ) (xs : List ℕ) → i % bucket_count ≡ s → Missing s xs → in_bucket i xs ≡ 0
unfolding in_bucket
in_bucket-Missing s i [] e m = refl
in_bucket-Missing s i (x ∷ xs) e (n, m) =
    let t : (x == i) ≡ false = elim (Bool-cases (x == i)) [
      | inr f ↦ f
      | inl f ↦ absurd (n (let k : x ≡ i = ground arith in rw k e))
    ] in
    let r = in_bucket-Missing s i xs e m in rw t (omega arith)

-- A bucket that lies behind all others of its slot has no message yet.
in_bucket-UpTo :
    (s i e : ℕ) (xs : List ℕ) → i % bucket_count ≡ s → e < i → UpTo s e xs → in_bucket i xs ≡ 0
unfolding in_bucket
in_bucket-UpTo s i e [] m l u = refl
in_bucket-UpTo s i e (x ∷ xs) m l (u, us) =
    let t : (x == i) ≡ false = elim (Bool-cases (x == i)) [
      | inr f ↦ f
      | inl f ↦ absurd (let k : x ≡ i = ground arith in let z = u (rw k m) in omega arith)
    ] in
    let r = in_bucket-UpTo s i e xs m l us in rw t (omega arith)

UpTo-weaken : (s e e' : ℕ) (xs : List ℕ) → e ≤ e' → UpTo s e xs → UpTo s e' xs
UpTo-weaken s e e' [] l u = tt
UpTo-weaken s e e' (x ∷ xs) l (u, us) =
    ((λ k. let z = u k in omega arith), UpTo-weaken s e e' xs l us)

module _ (w : RateWindow) (idx : ℕ) where
  add_at-here :
      ((add_at w idx).epoch (idx % bucket_count) ≡ idx)
      × ((add_at w idx).count (idx % bucket_count)
          ≡ (if w.epoch (idx % bucket_count) == idx then w.count (idx % bucket_count) else 0) + 1)
  unfolding add_at
  add_at-here =
      let i = idx % bucket_count in
      let t : (i == i) ≡ true = ground arith in
      elim (Bool-cases (w.epoch i == idx)) [
        | inl f ↦ rw (f, t) (ground arith, refl)
        | inr f ↦ rw (f, t) (refl, refl)
      ]

  add_at-away :
      (s : ℕ)
      → idx % bucket_count ≢ s
      → ((add_at w idx).epoch s ≡ w.epoch s) × ((add_at w idx).count s ≡ w.count s)
  unfolding add_at
  add_at-away s n =
      let i = idx % bucket_count in
      let t : (s == i) ≡ false = ground arith in
      elim (Bool-cases (w.epoch i == idx)) [
        | inl f ↦ rw (f, t) (refl, refl)
        | inr f ↦ rw (f, t) (refl, refl)
      ]

  -- The latest bucket is the message's, if none is later.
  pub add_at-now : (w.now ≢ never → w.now ≤ idx) → (add_at w idx).now ≡ idx
  unfolding add_at
  add_at-now later = elim (ℕ_discrete w.now never) [
    | yes e ↦ ground arith
    | no n ↦ let l = later n in ground arith
  ]

-- One more message of the bucket `e`.
in_bucket-cons : (e : ℕ) (xs : List ℕ) → in_bucket e (e ∷ xs) ≡ in_bucket e xs + 1
unfolding in_bucket
in_bucket-cons e xs = let t : (e == e) ≡ true = ground arith in rw t (omega arith)

in_bucket-other : (e x : ℕ) (xs : List ℕ) → x ≢ e → in_bucket e (x ∷ xs) ≡ in_bucket e xs
unfolding in_bucket
in_bucket-other e x xs n = let t : (x == e) ≡ false = ground arith in rw t (omega arith)

module _ (w : RateWindow) (xs : List ℕ) (idx : ℕ) (later : w.now ≢ never → w.now ≤ idx)
    (small : idx < never) where
  -- The slot of the message.
  here :
      Knows w xs (idx % bucket_count)
      → KnowsAt idx
          ((if w.epoch (idx % bucket_count) == idx then w.count (idx % bucket_count) else 0) + 1)
          idx
          (idx ∷ xs)
          (idx % bucket_count)
  here (inl (e, c, m)) =
      let i = idx % bucket_count in
      let t : (w.epoch i == idx) ≡ false = ground arith in
      let z = in_bucket-Missing i idx xs refl m in
      let y = in_bucket-cons idx xs in
      rw t
        (inr (refl, small, omega arith, omega arith, ((λ k. omega arith), Missing-UpTo i idx xs m)))
  here (inr (m, n, b, c, u)) =
      let i = idx % bucket_count in
      let y = in_bucket-cons idx xs in
      elim (ℕ_discrete (w.epoch i) idx) [
        | yes e ↦
            let t : (w.epoch i == idx) ≡ true = ground arith in
            let c' : w.count i ≡ in_bucket idx xs = c ∙ ap (λ k. in_bucket k xs) e in
            rw t (
              inr (
                refl,
                small,
                omega arith,
                omega arith,
                ((λ k. omega arith), subst (λ k. UpTo i k xs) e u),
              ))
        | no ne ↦
            let t : (w.epoch i == idx) ≡ false = ground arith in
            let q = later (λ z. absurd (omega arith)) in
            let l : w.epoch i < idx = omega arith in
            let z = in_bucket-UpTo i idx (w.epoch i) xs refl l u in
            rw t (
              inr (
                refl,
                small,
                omega arith,
                omega arith,
                ((λ k. omega arith), UpTo-weaken i (w.epoch i) idx xs (omega arith) u),
              ))
      ]

  -- Another slot.
  away :
      (s : ℕ)
      → idx % bucket_count ≢ s
      → Knows w xs s
      → KnowsAt (w.epoch s) (w.count s) idx (idx ∷ xs) s
  away s n (inl (e, c, m)) = inl (e, c, (n, m))
  away s n (inr (m, k, b, c, u)) =
      let d : idx ≢ w.epoch s = λ e. n (ap (λ z. z % bucket_count) e ∙ m) in
      let q = later (λ z. absurd (omega arith)) in
      inr (
        m,
        small,
        omega arith,
        c ∙ sym (in_bucket-other (w.epoch s) idx xs d),
        ((λ q. absurd (n q)), u),
      )

  -- After a message of a bucket that is not before the others, every slot knows its latest.
  pub add_at-Knows : (s : ℕ) → Knows w xs s → Knows (add_at w idx) (idx ∷ xs) s
  add_at-Knows s v = elim (ℕ_discrete (idx % bucket_count) s) [
    | yes q ↦
        let (e, c) = add_at-here w idx in
        let g = here (subst (Knows w xs) (sym q) v) in
        subst (Knows (add_at w idx) (idx ∷ xs)) q
          (KnowsAt-cong (idx ∷ xs) (idx % bucket_count) e c (add_at-now w idx later) g)
    | no n ↦
        let (e, c) = add_at-away w idx s n in
        KnowsAt-cong (idx ∷ xs) s e c (add_at-now w idx later) (away s n v)
  ]
