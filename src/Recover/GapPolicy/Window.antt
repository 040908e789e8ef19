-- ===== src/Recover/GapPolicy/Window.antt =====
-- The sliding window of the tracker counts the latest references, and trust is earned by it.
use itchbook.Base.{
  ℕ, ◌+◌, ◌*◌, ◌≤◌, ◌<◌, ◌≡◌, refl, sym, ap, subst, ◌∙◌, ◌≢◌, ◌↔◌, ◌⊎◌, inl, inr, Bool, true, false,
  not, ◌||◌, [], ◌∷◌, arith, ltb, leb, Bool-cases, length,
}
use itchbook.Recover.GapPolicy.{
  GapTracker, GapConfig, trusted, recovering, halted, bucket_count, bucket_size, reset_window,
  on_gap, halts, count_reference, advance, settle, on_reference, is_recovering,
}
use itchbook.Recover.GapPolicy.Buckets.{
  History, unresolved, take, Counts, nothing-Counts, resolved-Counts, unresolved-Counts,
  rotated-Counts,
}

-- How many of the latest references the window covers.
abbrev pub covered : GapTracker → ℕ
covered t = t.in_bucket + 15 * bucket_size t.cfg

-- `xs` are the references since the gap, and the buckets count them.
pub record IsWindow (t : GapTracker) (xs : History) : Type 0 where
  pub head : t.head < bucket_count
  pub in_bucket : t.in_bucket < bucket_size t.cfg
  pub seen : t.refs_since_gap ≡ length xs
  pub counts : Counts t.buckets t.head t.window_unknown t.in_bucket (bucket_size t.cfg) xs

bucket_size_pos : (cfg : GapConfig) → 0 < bucket_size cfg
unfolding bucket_size
bucket_size_pos cfg = ground arith

pub reset-IsWindow : (t : GapTracker) → IsWindow (reset_window t) []
unfolding reset_window
reset-IsWindow t = record {
  head = omega arith;
  in_bucket = bucket_size_pos t.cfg;
  seen = refl;
  counts = nothing-Counts (bucket_size t.cfg);
}

-- What `count_reference` makes of the window, before the bucket is closed.
record IsCounted (t : GapTracker) (xs : History) : Type 0 where
  head : t.head < bucket_count
  in_bucket : t.in_bucket < bucket_size t.cfg
  seen : t.refs_since_gap ≡ length xs
  counts : Counts t.buckets t.head t.window_unknown (t.in_bucket + 1) (bucket_size t.cfg) xs

count_reference-IsCounted :
    (t : GapTracker) (x : Bool) (xs : History)
    → IsWindow t xs
    → IsCounted (count_reference t x) (x ∷ xs)
unfolding count_reference
count_reference-IsCounted t true xs v = record {
  head = v.head;
  in_bucket = v.in_bucket;
  seen = let s = v.seen in omega arith;
  counts =
      resolved-Counts t.buckets t.head t.window_unknown t.in_bucket (bucket_size t.cfg) xs v.head
        v.counts;
}
count_reference-IsCounted t false xs v = record {
  head = v.head;
  in_bucket = v.in_bucket;
  seen = let s = v.seen in omega arith;
  counts =
      unresolved-Counts t.buckets t.head t.window_unknown t.in_bucket (bucket_size t.cfg) xs v.head
        v.counts;
}

advance-IsWindow : (t : GapTracker) (xs : History) → IsCounted t xs → IsWindow (advance t) xs
unfolding advance
advance-IsWindow t xs v =
    let size = bucket_size t.cfg in
    elim (Bool-cases (leb size (t.in_bucket + 1))) [
      | inl k ↦
          let b = v.in_bucket in
          let e : t.in_bucket + 1 ≡ size = ground arith in
          let full : Counts t.buckets t.head t.window_unknown size size xs =
            subst (λ n. Counts t.buckets t.head t.window_unknown n size xs) e v.counts in
          rw k (record {
            head = omega arith;
            in_bucket = bucket_size_pos t.cfg;
            seen = v.seen;
            counts = rotated-Counts t.buckets t.head t.window_unknown size size xs v.head full;
          })
      | inr k ↦
          rw k
            (record { head = v.head; in_bucket = ground arith; seen = v.seen; counts = v.counts })
    ]

-- Trust is back: enough references since the gap, and few unresolved among the latest.
abbrev pub Earned : GapConfig → History → Type 0
Earned cfg xs =
    (cfg.recovery_window ≤ length xs)
    × (n : ℕ) × (15 * bucket_size cfg ≤ n)
    × (n < 16 * bucket_size cfg)
    × (unresolved (take n xs) ≤ cfg.recovery_tolerance)

advance_keeps : (t : GapTracker) → ((advance t).cfg ≡ t.cfg) × ((advance t).state ≡ t.state)
unfolding advance
advance_keeps t = elim (Bool-cases (leb (bucket_size t.cfg) (t.in_bucket + 1))) [
  | inl k ↦ rw (k, advance) (refl, refl)
  | inr k ↦ rw (k, advance) (refl, refl)
]

count_reference_keeps :
    (t : GapTracker) (x : Bool)
    → ((count_reference t x).cfg ≡ t.cfg) × ((count_reference t x).state ≡ t.state)
unfolding count_reference
count_reference_keeps t true = (refl, refl)
count_reference_keeps t false = (refl, refl)

-- The test of `settle`: it stays in recovery, or its window is good enough.
settle_lem :
    (t : GapTracker) (xs : History)
    → IsWindow t xs
    → (settle t ≡ t) ⊎ (((settle t).state ≡ trusted) × Earned t.cfg xs)
unfolding settle reset_window
settle_lem t xs v =
    let w = v.seen in
    let u = v.in_bucket in
    let z = v.counts.total in
    elim (Bool-cases (leb t.cfg.recovery_window t.refs_since_gap)) [
      | inr k ↦ inl (rw k refl)
      | inl k ↦ elim (Bool-cases (leb t.window_unknown t.cfg.recovery_tolerance)) [
        | inr m ↦ inl (rw (k, m) refl)
        | inl m ↦
            inr (rw (k, m) refl, (ground arith, covered t, omega arith, omega arith, ground arith))
      ]
    ]

on_reference-recovering :
    (t : GapTracker) (x : Bool)
    → is_recovering t.state ≡ true
    → on_reference t x ≡ settle (advance (count_reference t x))
unfolding on_reference
on_reference-recovering t x r = rw r refl

module _ (t : GapTracker) (x : Bool) (xs : History) where
  -- In recovery, with a window that counts the references since the gap, one more reference keeps
  -- the window exact, and the tracker trusts the book again only if a recovery window of references
  -- was seen since the gap and, of a latest part of them that is between 15 and 16 buckets long, at
  -- most the tolerance is unresolved.
  pub on_reference_lem :
      t.state ≡ recovering
      → IsWindow t xs
      → (((on_reference t x).state ≡ recovering) × IsWindow (on_reference t x) (x ∷ xs))
        ⊎ (((on_reference t x).state ≡ trusted) × Earned t.cfg (x ∷ xs))
  on_reference_lem s v =
      let t1 = count_reference t x in
      let t2 = advance t1 in
      let w : IsWindow t2 (x ∷ xs) =
        advance-IsWindow t1 (x ∷ xs) (count_reference-IsCounted t x xs v) in
      let e : on_reference t x ≡ settle t2 = on_reference-recovering t x (ap is_recovering s) in
      let (c, d) = count_reference_keeps t x in
      let (f, g) = advance_keeps t1 in
      elim (settle_lem t2 (x ∷ xs) w) [
        | inl k ↦ inl (rw (e, k) (g ∙ d ∙ s), subst (λ y. IsWindow y (x ∷ xs)) (sym (e ∙ k)) w)
        | inr (k, m) ↦ inr (rw e k, subst (λ y. Earned y (x ∷ xs)) (f ∙ c) m)
      ]

halted_not : recovering ≢ halted
halted_not e = absurd (let f = ap is_recovering e in cc)

-- What a call of `on_gap` gives.
abbrev pub Gapped : GapTracker → ℕ → GapTracker × Bool → Type 0
Gapped t count (t', rebuilds) =
    IsWindow t' []
    × (rebuilds ≡ is_recovering t'.state)
    × (not rebuilds ≡ (halts t.cfg.policy || ltb t.cfg.max_gaps_before_halt (t.stats.gaps + 1)))
    × ((not rebuilds ≡ true) ↔ (t'.state ≡ halted))
    × (t'.stats.messages_lost ≡ t.stats.messages_lost + count)

-- On any tracker `on_gap` empties the window and counts the lost messages, and the caller rebuilds,
-- and the tracker recovers, unless the policy is to halt or there were too many gaps: then it
-- halts.
pub on_gap_lem : (t : GapTracker) (first count : ℕ) → Gapped t count (on_gap t first count)
unfolding on_gap reset_window
on_gap_lem t first count =
    let v = reset-IsWindow t in
    elim (Bool-cases (halts t.cfg.policy || ltb t.cfg.max_gaps_before_halt (t.stats.gaps + 1))) [
      | inl e ↦ rw e (
        record { head = v.head; in_bucket = v.in_bucket; seen = v.seen; counts = v.counts },
        refl,
        refl,
        (λ x. refl, λ x. refl),
        refl,
      )
      | inr e ↦ rw e (
        record { head = v.head; in_bucket = v.in_bucket; seen = v.seen; counts = v.counts },
        refl,
        refl,
        (λ x. absurd (cc), λ x. absurd (halted_not x)),
        refl,
      )
    ]
