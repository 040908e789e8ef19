-- ===== src/Book/Side/Overflow.antt =====
-- The sorted map of the levels off the band.
use itchbook.Base.{
  ℕ, ◌≤◌, ◌<◌, ◌≡◌, refl, Bool, true, false, Option, none, some, [], ◌∷◌, arith, ◌==◌,
  if◌then◌else◌,
}
use native.Mathlib.Decide.{ℕ_discrete}
use itchbook.Book.Level.{Level}
use itchbook.Book.Side.{LevelMap, map_find, map_set, map_erase, first_key, last_key}
use itchbook.Book.Side.Cursor.{NoBetter}

abbrev pub Above : ℕ → LevelMap → Type 0
Above p [] = Unit {0}
Above p ((k, l) ∷ m) = (p < k) × Above p m

-- The prices rise along the map.
abbrev pub Sorted : LevelMap → Type 0
Sorted [] = Unit {0}
Sorted ((k, l) ∷ m) = Above k m × Sorted m

-- The best price of the map.
abbrev pub BestKey : Bool → LevelMap → Option ℕ → Type 0
BestKey b m none = (q : ℕ) → map_find m q ≡ none
BestKey b m (some k) =
    ((l : Level) × (map_find m k ≡ some l))
    × ((q : ℕ) (l : Level) → map_find m q ≡ some l → NoBetter b k q)

find-Above : (p : ℕ) (m : LevelMap) (q : ℕ) (l : Level) → Above p m → map_find m q ≡ some l → p < q
unfolding map_find
find-Above p [] q l a e = absurd (cc)
find-Above p ((k, v) ∷ m) q l a e = ground (arith, find-Above p m q l a.1)

pub Above-set : (p q : ℕ) (m : LevelMap) (l : Level) → Above p m → p < q → Above p (map_set m q l)
unfolding map_set
Above-set p q [] l a h = (h, tt)
Above-set p q ((k, v) ∷ m) l a h = ground (arith, Above-set p q m l a.1 h)

Above-le : (p q : ℕ) (m : LevelMap) → Above p m → q ≤ p → Above q m
Above-le p q [] a h = tt
Above-le p q ((k, v) ∷ m) a h = (omega arith, Above-le p q m a.1 h)

pub map_set-Sorted : (m : LevelMap) (p : ℕ) (l : Level) → Sorted m → Sorted (map_set m p l)
unfolding map_set
map_set-Sorted [] p l s = (tt, tt)
map_set-Sorted ((k, v) ∷ m) p l s =
    ground (arith, map_set-Sorted m p l s.1, Above-set k p m l s.0, Above-le k p m s.0)

Above-erase : (p q : ℕ) (m : LevelMap) → Above p m → Above p (map_erase m q)
unfolding map_erase
Above-erase p q [] a = tt
Above-erase p q ((k, v) ∷ m) a = ground (arith, Above-erase p q m a.1)

pub map_erase-Sorted : (m : LevelMap) (p : ℕ) → Sorted m → Sorted (map_erase m p)
unfolding map_erase
map_erase-Sorted [] p s = tt
map_erase-Sorted ((k, v) ∷ m) p s = ground (arith, map_erase-Sorted m p s.1, Above-erase k p m s.0)

pub map_find-set :
    (m : LevelMap) (p q : ℕ) (l : Level)
    → Sorted m
    → map_find (map_set m p l) q ≡ (if q == p then some l else map_find m q)
unfolding map_find map_set
map_find-set [] p q l s = ground arith
map_find-set ((k, v) ∷ m) p q l s = ground (arith, map_find-set m p q l s.1)

find_missing : (m : LevelMap) (q : ℕ) → Above q m → map_find m q ≡ none
unfolding map_find
find_missing [] q a = refl
find_missing ((k, v) ∷ m) q a = ground (arith, find_missing m q a.1)

pub map_find-erase :
    (m : LevelMap) (p q : ℕ)
    → Sorted m
    → map_find (map_erase m p) q ≡ (if q == p then none else map_find m q)
unfolding map_find map_erase
map_find-erase [] p q s = ground arith
map_find-erase ((k, v) ∷ m) p q s =
    ground (arith, map_find-erase m p q s.1, find_missing m k s.0, find_missing m p)

pub first_key-BestKey : (m : LevelMap) → Sorted m → BestKey false m (first_key m)
unfolding map_find
first_key-BestKey [] s = λ q. refl
first_key-BestKey ((k, v) ∷ m) s =
    ((v, ground arith), λ q l e. ground (arith, find-Above k m q l s.0))

last_extend :
    (k : ℕ) (v : Level) (k' : ℕ) (v' : Level) (m : LevelMap)
    → Above k ((k', v') ∷ m)
    → (r : Option ℕ) → BestKey true ((k', v') ∷ m) r
    → BestKey true ((k, v) ∷ (k', v') ∷ m) r
unfolding map_find
last_extend k v k' v' m a none h =
    let w = h k' in absurd (let t : (k' == k') ≡ true = ground arith in ground arith)
last_extend k v k' v' m a (some c) ((l, e), o) =
    let c' = find-Above k ((k', v') ∷ m) c l a e in
    (
      (l, ground arith),
      λ q w f. elim (ℕ_discrete q k) [ yes z ↦ omega arith | no z ↦ o q w (ground arith) ],
    )

pub last_key-BestKey : (m : LevelMap) → Sorted m → BestKey true m (last_key m)
unfolding map_find
last_key-BestKey [] s = λ q. refl
last_key-BestKey ((k, v) ∷ []) s = ((v, ground arith), λ q l e. ground arith)
last_key-BestKey ((k, v) ∷ (k', v') ∷ m) s =
    last_extend k v k' v' m s.0 (last_key ((k', v') ∷ m)) (last_key-BestKey ((k', v') ∷ m) s.1)
