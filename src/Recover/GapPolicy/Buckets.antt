-- ===== src/Recover/GapPolicy/Buckets.antt =====
-- The ring of buckets, seen from its head backwards, and the history that it counts.
use itchbook.Base.{
  ℕ, zero, suc, ◌+◌, ◌-◌, ◌*◌, ◌%◌, ◌<◌, ◌≡◌, refl, sym, ap, ◌∙◌, Bool, true, false, List, [], ◌∷◌,
  arith, ◌==◌,
}
use itchbook.Recover.GapPolicy.{bucket_count, set_bucket}

-- The references since the gap, the latest first: whether each was resolved.
abbrev pub History : Type 0
History = List Bool

pub unresolved : History → ℕ
unresolved [] = 0
unresolved (true ∷ xs) = unresolved xs
unresolved (false ∷ xs) = unresolved xs + 1

abbrev pub take : ℕ → History → History
take zero xs = []
take (suc n) [] = []
take (suc n) (x ∷ xs) = x ∷ take n xs

abbrev pub drop : ℕ → History → History
drop zero xs = xs
drop (suc n) [] = []
drop (suc n) (x ∷ xs) = drop n xs

take-nil : (n : ℕ) → take n [] ≡ []
take-nil zero = refl
take-nil (suc n) = refl

unresolved-take :
    (m n : ℕ) (xs : History)
    → unresolved (take (m + n) xs) ≡ unresolved (take m xs) + unresolved (take n (drop m xs))
unfolding unresolved
unresolved-take zero n xs = let e : zero + n ≡ n = omega arith in rw e (omega arith)
unresolved-take (suc m) n [] =
    let e : suc m + n ≡ suc (m + n) = omega arith in rw e (rw take-nil (omega arith))
unresolved-take (suc m) n (true ∷ xs) =
    let e : suc m + n ≡ suc (m + n) = omega arith in rw e (unresolved-take m n xs)
unresolved-take (suc m) n (false ∷ xs) =
    let e : suc m + n ≡ suc (m + n) = omega arith in rw e (omega (arith, unresolved-take m n xs))

-- The bucket `j` behind the head.
abbrev pub behind : (ℕ → ℕ) → ℕ → ℕ → ℕ
behind b h j = b ((h + bucket_count - j) % bucket_count)

-- The part of the history that the bucket `j` behind the head counts, with `n` references in the
-- bucket at the head and `size` in a full one.
abbrev pub part : ℕ → ℕ → History → ℕ → History
part n size xs zero = take n xs
part n size xs (suc j) = take size (drop (n + j * size) xs)

-- Each bucket counts its part, and the total counts what all buckets cover.
pub record Counts (b : ℕ → ℕ) (h sum n size : ℕ) (xs : History) : Type 0 where
  pub bucket : (j : ℕ) → j < bucket_count → behind b h j ≡ unresolved (part n size xs j)
  pub total : sum ≡ unresolved (take (n + 15 * size) xs)

drop-nil : (n : ℕ) → drop n [] ≡ []
drop-nil zero = refl
drop-nil (suc n) = refl

pub nothing-Counts : (size : ℕ) → Counts (λ i. 0) 0 0 0 size []
unfolding unresolved
nothing-Counts size = record { bucket = λ j l. none_in j; total = rw take-nil refl }
  where
    none_in : (j : ℕ) → 0 ≡ unresolved (part 0 size [] j)
    none_in zero = refl
    none_in (suc j) = rw drop-nil (rw take-nil refl)

part-cons_suc :
    (n size j : ℕ) (x : Bool) (xs : History)
    → part (n + 1) size (x ∷ xs) (suc j) ≡ part n size xs (suc j)
part-cons_suc n size j x xs =
    let e : n + 1 + j * size ≡ suc (n + j * size) = omega arith in rw e refl

take-cons : (n : ℕ) (x : Bool) (xs : History) → take (n + 1) (x ∷ xs) ≡ x ∷ take n xs
take-cons n x xs = let e : n + 1 ≡ suc n = omega arith in rw e refl

head_behind : (b : ℕ → ℕ) (h : ℕ) → h < bucket_count → behind b h 0 ≡ b h
head_behind b h l = let e : (h + bucket_count - 0) % bucket_count ≡ h = omega arith in ap b e

module _ (b : ℕ → ℕ) (h total n size : ℕ) (xs : History) (l : h < bucket_count) where
  take_more : (x : Bool) → take (n + 1 + 15 * size) (x ∷ xs) ≡ x ∷ take (n + 15 * size) xs
  take_more x = let e : n + 1 + 15 * size ≡ suc (n + 15 * size) = omega arith in rw e refl

  -- A resolved reference.
  pub resolved-Counts : Counts b h total n size xs → Counts b h total (n + 1) size (true ∷ xs)
  unfolding unresolved
  resolved-Counts v = record {
    bucket = each;
    total = v.total ∙ sym (ap unresolved (take_more true));
  }
    where
      each :
          (j : ℕ) → j < bucket_count → behind b h j ≡ unresolved (part (n + 1) size (true ∷ xs) j)
      each zero k = v.bucket 0 k ∙ sym (ap unresolved (take-cons n true xs))
      each (suc j) k = v.bucket (suc j) k ∙ sym (ap unresolved (part-cons_suc n size j true xs))

  -- An unresolved one is counted at the head.
  pub unresolved-Counts :
      Counts b h total n size xs
      → Counts (set_bucket b h (b h + 1)) h (total + 1) (n + 1) size (false ∷ xs)
  unfolding unresolved
  unresolved-Counts v = record {
    bucket = each;
    total = ap (λ k. k + 1) v.total ∙ sym (ap unresolved (take_more false));
  }
    where
      each :
          (j : ℕ)
          → j < bucket_count
          → behind (set_bucket b h (b h + 1)) h j ≡ unresolved (part (n + 1) size (false ∷ xs) j)
      each zero k =
          let t : (h == h) ≡ true = ground arith in
          head_behind (set_bucket b h (b h + 1)) h l
          ∙ rw t refl
          ∙ ap (λ k. k + 1) (sym (head_behind b h l) ∙ v.bucket 0 k)
          ∙ sym (ap unresolved (take-cons n false xs))
      each (suc j) k =
          let t : (h == ((h + bucket_count - suc j) % bucket_count)) ≡ false = ground arith in
          rw t (v.bucket (suc j) k ∙ sym (ap unresolved (part-cons_suc n size j false xs)))

  -- Behind the new head stand the buckets that stood behind the old one.
  behind_next :
      (j : ℕ)
      → suc j < bucket_count
      → behind (set_bucket b ((h + 1) % bucket_count) 0) ((h + 1) % bucket_count) (suc j)
        ≡ behind b h j
  behind_next j k =
      let h' = (h + 1) % bucket_count in
      let i = (h' + bucket_count - suc j) % bucket_count in
      let t : (h' == i) ≡ false = ground arith in
      let e : i ≡ (h + bucket_count - j) % bucket_count = omega arith in rw t (ap b e)

  -- A full bucket makes room for the next: the oldest one is forgotten.
  pub rotated-Counts :
      Counts b h total size size xs
      → Counts
          (set_bucket b ((h + 1) % bucket_count) 0)
          ((h + 1) % bucket_count)
          (total - b ((h + 1) % bucket_count))
          0
          size
          xs
  unfolding unresolved
  rotated-Counts v = record {
    bucket = each;
    total =
        let o = v.bucket 15 (omega arith) in
        let q : (h + bucket_count - 15) % bucket_count ≡ (h + 1) % bucket_count = omega arith in
        let o' : b ((h + 1) % bucket_count) ≡ unresolved (take size (drop (size + 14 * size) xs)) =
          sym (ap b q) ∙ o in
        let m = unresolved-take (15 * size) size xs in
        let e : size + 15 * size ≡ 15 * size + size = omega arith in
        let f : size + 14 * size ≡ 15 * size = omega arith in
        let g : 0 + 15 * size ≡ 15 * size = omega arith in
        let z = v.total ∙ ap (λ k. unresolved (take k xs)) e ∙ m in
        let y = o' ∙ ap (λ k. unresolved (take size (drop k xs))) f in rw g (omega (arith, z, y));
  }
    where
      each :
          (j : ℕ)
          → j < bucket_count
          → behind (set_bucket b ((h + 1) % bucket_count) 0) ((h + 1) % bucket_count) j
            ≡ unresolved (part 0 size xs j)
      each zero k =
          let t : (((h + 1) % bucket_count) == ((h + 1) % bucket_count)) ≡ true = ground arith in
          head_behind (set_bucket b ((h + 1) % bucket_count) 0) ((h + 1) % bucket_count)
            (omega arith)
          ∙ rw t refl
      each (suc zero) k =
          let e : 0 + 0 * size ≡ 0 = omega arith in
          behind_next 0 (omega arith)
          ∙ v.bucket 0 (omega arith)
          ∙ sym (ap (λ m. unresolved (take size (drop m xs))) e)
      each (suc (suc j)) k =
          let e : size + j * size ≡ 0 + suc j * size = omega arith in
          behind_next (suc j) k
          ∙ v.bucket (suc j) (omega arith)
          ∙ ap (λ m. unresolved (take size (drop m xs))) e
