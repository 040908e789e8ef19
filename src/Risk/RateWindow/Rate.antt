-- ===== src/Risk/RateWindow/Rate.antt =====
-- The rate is the number of messages in the ten latest buckets.
use itchbook.Base.{
  ℕ, zero, suc, ◌+◌, ◌-◌, ◌%◌, ◌^◌, ◌≤◌, ◌<◌, ◌≡◌, refl, sym, ap, subst, ◌∙◌, ◌≢◌, ◌⊎◌, inl, inr,
  true, false, ◌&&◌, List, [], ◌∷◌, arith, ltb, ◌==◌, if◌then◌else◌, Bool-cases,
}
use itchbook.Risk.RateWindow.{
  RateWindow, make_window, bucket_count, bucket_of, never, add, age, rate_below, rate,
}
use itchbook.Risk.RateWindow.Slots.{
  in_bucket, Falling, UpTo, Missing, Knows, add_at-Knows, add_at-now,
}

-- How many messages fell into the ten buckets up to `now`.
pub recent : ℕ → List ℕ → ℕ
recent now [] = 0
recent now (x ∷ xs) = (if ltb now (x + bucket_count) then 1 else 0) + recent now xs

-- Those of them whose slot is below `n`, and whose slot is `s`.
recent_below : ℕ → ℕ → List ℕ → ℕ
recent_below n now [] = 0
recent_below n now (x ∷ xs) =
    (if ltb now (x + bucket_count) && ltb (x % bucket_count) n then 1 else 0)
    + recent_below n now xs

recent_in : ℕ → ℕ → List ℕ → ℕ
recent_in s now [] = 0
recent_in s now (x ∷ xs) =
    (if ltb now (x + bucket_count) && (x % bucket_count == s) then 1 else 0) + recent_in s now xs

recent_below-zero : (now : ℕ) (xs : List ℕ) → recent_below 0 now xs ≡ 0
unfolding recent_below
recent_below-zero now [] = refl
recent_below-zero now (x ∷ xs) = let r = recent_below-zero now xs in ground arith

recent_below-suc :
    (n now : ℕ) (xs : List ℕ)
    → recent_below (suc n) now xs ≡ recent_below n now xs + recent_in n now xs
unfolding recent_below recent_in
recent_below-suc n now [] = omega arith
recent_below-suc n now (x ∷ xs) = let r = recent_below-suc n now xs in ground arith

recent_below_all : (now : ℕ) (xs : List ℕ) → recent_below bucket_count now xs ≡ recent now xs
unfolding recent_below recent
recent_below_all now [] = refl
recent_below_all now (x ∷ xs) = let r = recent_below_all now xs in ground arith

recent_in-Missing : (s now : ℕ) (xs : List ℕ) → Missing s xs → recent_in s now xs ≡ 0
unfolding recent_in
recent_in-Missing s now [] m = refl
recent_in-Missing s now (x ∷ xs) (n, m) = let r = recent_in-Missing s now xs m in ground arith

-- All buckets of the list are at most `now`.
AllUpTo : ℕ → List ℕ → Type 0
AllUpTo now [] = Unit {0}
AllUpTo now (x ∷ xs) = (x ≤ now) × AllUpTo now xs

Falling-AllUpTo : (top now : ℕ) (xs : List ℕ) → top ≤ now → Falling top xs → AllUpTo now xs
unfolding AllUpTo
Falling-AllUpTo top now [] l f = tt
Falling-AllUpTo top now (x ∷ xs) l (b, f) = (omega arith, Falling-AllUpTo x now xs (omega arith) f)

recent_in-old :
    (s e now : ℕ) (xs : List ℕ) → e + bucket_count ≤ now → UpTo s e xs → recent_in s now xs ≡ 0
unfolding recent_in
recent_in-old s e now [] l u = refl
recent_in-old s e now (x ∷ xs) l (u, us) = let r = recent_in-old s e now xs l us in ground arith

recent_in-new :
    (s e now : ℕ) (xs : List ℕ)
    → e % bucket_count ≡ s
    → e ≤ now
    → now < e + bucket_count
    → UpTo s e xs
    → AllUpTo now xs
    → recent_in s now xs ≡ in_bucket e xs
unfolding recent_in in_bucket AllUpTo
recent_in-new s e now [] m b l u a = refl
recent_in-new s e now (x ∷ xs) m b l (u, us) (k, a) =
    let r = recent_in-new s e now xs m b l us a in ground arith

-- What a slot adds to the rate.
slot_lem :
    (w : RateWindow) (xs : List ℕ) (s : ℕ)
    → w.now < never
    → Falling w.now xs
    → Knows w xs s
    → (if ltb (age w s) bucket_count then w.count s else 0) ≡ recent_in s w.now xs
slot_lem w xs s l f (inl (e, c, m)) = let r = recent_in-Missing s w.now xs m in ground arith
slot_lem w xs s l f (inr (m, k, b, c, u)) =
    let a = Falling-AllUpTo w.now w.now xs (omega arith) f in
    let d : age w s ≡ w.now - w.epoch s = omega arith in
    elim (Bool-cases (ltb (w.now - w.epoch s) bucket_count)) [
      | inl t ↦ rw (d, t) (c ∙ sym (recent_in-new s (w.epoch s) w.now xs m b (ground arith) u a))
      | inr t ↦ rw (d, t) (sym (recent_in-old s (w.epoch s) w.now xs (ground arith) u))
    ]

-- The window knows the messages `xs`, of which none lies before the one that was sent before it.
pub record IsCounting (w : RateWindow) (xs : List ℕ) : Type 0 where
  pub slots : (s : ℕ) → Knows w xs s
  pub order : ((w.now ≡ never) × (xs ≡ [])) ⊎ ((w.now < never) × Falling w.now xs)

rate_below_lem :
    (w : RateWindow) (xs : List ℕ) (n : ℕ)
    → w.now < never
    → Falling w.now xs
    → ((s : ℕ) → Knows w xs s)
    → rate_below w n ≡ recent_below n w.now xs
unfolding rate_below
rate_below_lem w xs zero l f k = sym (recent_below-zero w.now xs)
rate_below_lem w xs (suc n) l f k =
    let r = rate_below_lem w xs n l f k in
    let z = slot_lem w xs n l f (k n) in let y = recent_below-suc n w.now xs in omega arith

none_sent : (w : RateWindow) → w.now ≡ never → rate w ≡ recent w.now []
unfolding rate recent
none_sent w e = let t : (w.now == never) ≡ true = ground arith in rw t refl

some_sent : (w : RateWindow) → w.now < never → rate w ≡ rate_below w bucket_count
unfolding rate
some_sent w l = let t : (w.now == never) ≡ false = ground arith in rw t refl

-- If no message was sent before the one that precedes it, `rate` is exactly the number of messages in
-- the bucket of the last one and the nine before it, whatever the slots held.
rate_lem : (w : RateWindow) (xs : List ℕ) → IsCounting w xs → rate w ≡ recent w.now xs
rate_lem w xs v = elim v.order [
  | inl (e, n) ↦ none_sent w e ∙ ap (recent w.now) (sym n)
  | inr (l, f) ↦
      some_sent w l ∙ rate_below_lem w xs bucket_count l f v.slots ∙ recent_below_all w.now xs
]

falls :
    (w : RateWindow) (xs : List ℕ) (idx : ℕ)
    → (w.now ≢ never → w.now ≤ idx)
    → ((w.now ≡ never) × (xs ≡ [])) ⊎ ((w.now < never) × Falling w.now xs)
    → Falling idx xs
falls w xs idx later (inl (e, n)) = subst (Falling idx) (sym n) tt
falls w [] idx later (inr (l, f)) = tt
falls w (x ∷ xs) idx later (inr (l, (b, f))) =
    let k = later (λ z. absurd (omega arith)) in (omega arith, f)

pub make_window-IsCounting : IsCounting make_window []
unfolding make_window
make_window-IsCounting = record { slots = λ s. inl (refl, refl, tt); order = inl (refl, refl) }

-- One more message.
add-IsCounting :
    (w : RateWindow) (xs : List ℕ) (ts : ℕ)
    → IsCounting w xs
    → ts < 2 ^ 64
    → (w.now ≢ never → w.now ≤ bucket_of ts)
    → IsCounting (add w ts) (bucket_of ts ∷ xs)
unfolding add
add-IsCounting w xs ts v h later =
    let n = add_at-now w (bucket_of ts) later in
    record {
      slots = λ s. add_at-Knows w xs (bucket_of ts) later (omega arith) s (v.slots s);
      order = inr (omega arith, (omega arith, falls w xs (bucket_of ts) later v.order));
    }

-- If the window counts the messages sent so far, none of which was sent before the one that
-- precedes it, then after one more message that is not before them `rate` is exactly the number of
-- messages in the bucket of that message and the nine before it, and the window counts them all.
pub rate-add :
    (w : RateWindow) (xs : List ℕ) (ts : ℕ)
    → IsCounting w xs
    → ts < 2 ^ 64
    → (w.now ≢ never → w.now ≤ bucket_of ts)
    → IsCounting (add w ts) (bucket_of ts ∷ xs)
      × (rate (add w ts) ≡ recent (bucket_of ts) (bucket_of ts ∷ xs))
unfolding add
rate-add w xs ts v h later =
    let c = add-IsCounting w xs ts v h later in
    (
      c,
      rate_lem (add w ts) (bucket_of ts ∷ xs) c
          ∙ ap (λ n. recent n (bucket_of ts ∷ xs)) (add_at-now w (bucket_of ts) later),
    )
