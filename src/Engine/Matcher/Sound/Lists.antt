-- ===== src/Engine/Matcher/Sound/Lists.antt =====
-- Changes of one order among the others.
use itchbook.Base.{
  ℕ, ◌≡◌, refl, sym, ap, subst, ◌∙◌, inl, inr, Bool, true, false, ◌||◌, none, some, List, [], ◌∷◌,
  arith, ◌==◌, Bool-cases,
}
use itchbook.Engine.Matcher.{Meta, Orders, lookup, update, emplace}
use itchbook.Engine.Matcher.Orders.{erase_first}
use itchbook.Engine.Matcher.Run.{current}
use itchbook.Engine.Matcher.Sound.{Sound, AllSound, member, known, Parked}

-- What an order is to the rest stays where it is not touched.
pub Sound-same :
    (h h' o o' : ℕ) (p p' : Bool) (i : ℕ) (m : Meta)
    → h' ≡ h
    → o' ≡ o
    → (p' ≡ true → p ≡ true)
    → Sound h o p i m
    → Sound h' o' p' i m
Sound-same h h' o o' p p' i m a b c s = record {
  named = s.named;
  size = s.size;
  agrees = a ∙ s.agrees;
  absent = s.absent;
  sum = omega (arith, s.sum, b);
  done = s.done;
  idle = λ k. s.idle (omega arith);
  live = s.live;
  early = λ k. s.early (omega arith);
  waits = λ k. s.waits (c k);
}

-- What holds of an order that is looked up.
pub lookup-Sound :
    (h o : ℕ → ℕ) (p : ℕ → Bool) (i : ℕ) (os : Orders) (m : Meta)
    → AllSound h o p os
    → lookup i os ≡ some m
    → Sound (h i) (o i) (p i) i m
unfolding lookup
lookup-Sound h o p i [] m a e = absurd (ground arith)
lookup-Sound h o p i ((j, n) ∷ os) m (s, (u', a)) e = elim (Bool-cases (i == j)) [
  | inl t ↦
      let u : i ≡ j = ground arith in
      let v : n ≡ m = ground arith in
      subst (λ x. Sound (h x) (o x) (p x) x m) (sym u)
        (subst (λ x. Sound (h j) (o j) (p j) j x) v s)
  | inr t ↦ lookup-Sound h o p i os m a (ground arith)
]

-- What the orders other than `i` see stays.
abbrev pub Others :
    ℕ → Orders → (ℕ → ℕ) → (ℕ → ℕ) → (ℕ → ℕ) → (ℕ → ℕ) → (ℕ → Bool) → (ℕ → Bool) → Type 0
Others i os h h' o o' p p' =
    (j : ℕ)
    → known j os ≡ true
    → (j == i) ≡ false
    → (h' j ≡ h j) × ((o' j ≡ o j) × (p' j ≡ true → p j ≡ true))

pub Others-AllSound :
    (h h' o o' : ℕ → ℕ) (p p' : ℕ → Bool) (i : ℕ) (os : Orders)
    → Others i os h h' o o' p p'
    → known i os ≡ false
    → AllSound h o p os
    → AllSound h' o' p' os
unfolding known
Others-AllSound h h' o o' p p' i [] b k s = tt
Others-AllSound h h' o o' p p' i ((j, m) ∷ os) b k (s, (u, ss)) =
    let v : (j == i) ≡ false = ground arith in
    let w : known i os ≡ false = ground arith in
    let (x, (y, z)) = b j (ground arith) v in
    (
      Sound-same (h j) (h' j) (o j) (o' j) (p j) (p' j) j m x y z s,
      (u, Others-AllSound h h' o o' p p' i os (λ l kn. b l (ground arith)) w ss),
    )

pub known-update : (j i : ℕ) (f : Meta → Meta) (os : Orders) → known j (update i f os) ≡ known j os
unfolding known update
known-update j i f [] = refl
known-update j i f ((l, m) ∷ os) = elim (Bool-cases (i == l)) [
  | inl t ↦ rw t refl
  | inr t ↦ rw t (ap (λ x. j == l || x) (known-update j i f os))
]

-- A change of the order of an id, and of what the orders see of their surroundings.
pub update-AllSound :
    (h h' o o' : ℕ → ℕ) (p p' : ℕ → Bool) (i : ℕ) (f : Meta → Meta) (os : Orders)
    → ((m : Meta)
        → lookup i os ≡ some m
        → Sound (h i) (o i) (p i) i m
        → Sound (h' i) (o' i) (p' i) i (f m))
    → Others i os h h' o o' p p'
    → AllSound h o p os
    → AllSound h' o' p' (update i f os)
unfolding update lookup known
update-AllSound h h' o o' p p' i f [] a b s = tt
update-AllSound h h' o o' p p' i f ((j, m) ∷ os) a b (s, (k, ss)) = elim (Bool-cases (i == j)) [
  | inl t ↦
      let u : i ≡ j = ground arith in
      let e : lookup i ((j, m) ∷ os) ≡ some m = rw (lookup, t) refl in
      rw t (
        subst (λ x. Sound (h' x) (o' x) (p' x) x (f m)) u
            (a m e (subst (λ x. Sound (h x) (o x) (p x) x m) (sym u) s)),
        (
          k,
          Others-AllSound h h' o o' p p' i os (λ l kn. b l (ground arith))
              (subst (λ x. known x os ≡ false) (sym u) k) ss,
        ),
      )
  | inr t ↦
      let (x, (y, z)) = b j (ground arith) (ground arith) in
      rw t (
        Sound-same (h j) (h' j) (o j) (o' j) (p j) (p' j) j m x y z s,
        (
          known-update j i f os ∙ k,
          update-AllSound h h' o o' p p' i f os (λ n e q. a n (rw (lookup, t) e) q)
              (λ l kn. b l (ground arith)) ss,
        ),
      )
]

pub known-emplace :
    (j i : ℕ) (m : Meta) (os : Orders) → (j == i) ≡ false → known j (emplace i m os) ≡ known j os
unfolding known emplace
known-emplace j i m [] h = ground arith
known-emplace j i m ((l, n) ∷ os) h = elim (Bool-cases (i == l)) [
  | inl t ↦ rw t refl
  | inr t ↦ rw t (ap (λ x. j == l || x) (known-emplace j i m os h))
]

pub emplace-AllSound :
    (h o : ℕ → ℕ) (p : ℕ → Bool) (i : ℕ) (m : Meta) (os : Orders)
    → Sound (h i) (o i) (p i) i m
    → AllSound h o p os
    → AllSound h o p (emplace i m os)
unfolding emplace known
emplace-AllSound h o p i m [] a s = (a, (refl, tt))
emplace-AllSound h o p i m ((j, n) ∷ os) a (s, (k, ss)) = elim (Bool-cases (i == j)) [
  | inl t ↦ rw t (s, (k, ss))
  | inr t ↦
      rw t (s, (known-emplace j i m os (ground arith) ∙ k, emplace-AllSound h o p i m os a ss))
]

pub update-Parked :
    (i : ℕ) (f : Meta → Meta) (os : Orders) (is : List ℕ) → Parked os is → Parked (update i f os) is
update-Parked i f os [] h = tt
update-Parked i f os (j ∷ is) (a, (b, c)) =
    (a, (known-update j i f os ∙ b, update-Parked i f os is c))

-- A reference that is not in the list is still not there when another is erased.
pub member-erase_first :
    (j i : ℕ) (is : List ℕ) → member j (erase_first i is) ≡ true → member j is ≡ true
unfolding erase_first
member-erase_first j i [] h = h
member-erase_first j i (x ∷ is) h = elim (Bool-cases (x == i)) [
  | inl t ↦ ground arith
  | inr t ↦ elim (Bool-cases (x == j)) [
    | inl u ↦ ground arith
    | inr u ↦
        let v : member j (erase_first i is) ≡ true = ground arith in
        let w = member-erase_first j i is v in ground arith
  ]
]

pub erase_first-Parked :
    (i : ℕ) (os : Orders) (is : List ℕ) → Parked os is → Parked os (erase_first i is)
unfolding erase_first
erase_first-Parked i os [] h = tt
erase_first-Parked i os (x ∷ is) (a, (b, c)) = elim (Bool-cases (x == i)) [
  | inl t ↦ rw t c
  | inr t ↦
      let d : member x (erase_first i is) ≡ false =
        elim (Bool-cases (member x (erase_first i is))) [
          | inl u ↦ absurd (let v = member-erase_first x i is u in ground arith)
          | inr u ↦ u
        ] in
      rw t (d, (b, erase_first-Parked i os is c))
]

-- An id that is erased from a list without repetition is no longer there.
pub erase_first-gone :
    (i : ℕ) (os : Orders) (is : List ℕ) → Parked os is → member i (erase_first i is) ≡ false
unfolding erase_first
erase_first-gone i os [] h = refl
erase_first-gone i os (x ∷ is) (a, (b, c)) = elim (Bool-cases (x == i)) [
  | inl t ↦ let e : x ≡ i = ground arith in rw t (subst (λ z. member z is ≡ false) e a)
  | inr t ↦ let r = erase_first-gone i os is c in ground arith
]

pub lookup-known :
    (i j : ℕ) (os : Orders) → lookup i os ≡ none → known j os ≡ true → (j == i) ≡ false
unfolding lookup known
lookup-known i j [] e k = absurd (ground arith)
lookup-known i j ((l, m) ∷ os) e k = elim (Bool-cases (i == l)) [
  | inl t ↦ absurd (ground arith)
  | inr t ↦ elim (Bool-cases (j == l)) [
    | inl u ↦ ground arith
    | inr u ↦ lookup-known i j os (ground arith) (ground arith)
  ]
]

-- An id that is known is looked up.
pub known-lookup :
    (i : ℕ) (os : Orders) (m : Meta)
    → known i os ≡ true
    → lookup i os ≡ some (current (lookup i os) m)
unfolding lookup known
known-lookup i [] m k = absurd (ground arith)
known-lookup i ((j, n) ∷ os) m k = elim (Bool-cases (i == j)) [
  | inl t ↦ rw (lookup, t) refl
  | inr t ↦ rw (lookup, t) (known-lookup i os m (ground arith))
]

pub lookup-is_known : (i : ℕ) (os : Orders) (m : Meta) → lookup i os ≡ some m → known i os ≡ true
unfolding lookup known
lookup-is_known i [] m e = absurd (ground arith)
lookup-is_known i ((j, n) ∷ os) m e = elim (Bool-cases (i == j)) [
  | inl t ↦ ground arith
  | inr t ↦ let w = lookup-is_known i os m (ground arith) in ground arith
]

pub lookup-unknown : (i : ℕ) (os : Orders) → lookup i os ≡ none → known i os ≡ false
unfolding lookup known
lookup-unknown i [] e = refl
lookup-unknown i ((j, n) ∷ os) e = elim (Bool-cases (i == j)) [
  | inl t ↦ absurd (ground arith)
  | inr t ↦ let w = lookup-unknown i os (ground arith) in ground arith
]

pub lookup-update :
    (i : ℕ) (f : Meta → Meta) (os : Orders) (m : Meta)
    → lookup i os ≡ some m
    → lookup i (update i f os) ≡ some (f m)
unfolding lookup update
lookup-update i f [] m e = absurd (ground arith)
lookup-update i f ((j, n) ∷ os) m e = elim (Bool-cases (i == j)) [
  | inl t ↦ let v : n ≡ m = ground arith in rw (t, lookup, t) (ap (λ x. some (f x)) v)
  | inr t ↦ rw (t, lookup, t) (lookup-update i f os m (ground arith))
]

-- Who is being matched matters only for what each order is owed.
pub owed-AllSound :
    (h o o' : ℕ → ℕ) (p : ℕ → Bool) (os : Orders)
    → ((j : ℕ) → o' j ≡ o j)
    → AllSound h o p os
    → AllSound h o' p os
owed-AllSound h o o' p [] e s = tt
owed-AllSound h o o' p ((j, m) ∷ os) e (s, (k, ss)) = (
  Sound-same (h j) (h j) (o j) (o' j) (p j) (p j) j m refl (e j) (λ x. x) s,
  (k, owed-AllSound h o o' p os e ss),
)

-- With fewer orders parked, each order is still as sound.
pub fewer-AllSound :
    (h o : ℕ → ℕ) (p p' : ℕ → Bool) (os : Orders)
    → ((j : ℕ) → p' j ≡ true → p j ≡ true)
    → AllSound h o p os
    → AllSound h o p' os
fewer-AllSound h o p p' [] e s = tt
fewer-AllSound h o p p' ((j, m) ∷ os) e (s, (k, ss)) = (
  Sound-same (h j) (h j) (o j) (o j) (p j) (p' j) j m refl refl (e j) s,
  (k, fewer-AllSound h o p p' os e ss),
)
