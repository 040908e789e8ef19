-- ===== src/Book/Query/Crossing.antt =====
-- Locked and crossed books.
use itchbook.Base.{ℕ, ◌≡◌, refl, false, ◌&&◌, ◌||◌, Option, none, some, arith, ltb, leb, ◌==◌}
use itchbook.Book.State.{Book}
use itchbook.Book.Side.{best}
use itchbook.Book.Query.{both, locked, strictly_crossed, crossed}

both-cases :
    (x y : Option ℕ)
    → (both (λ bid ask. leb ask bid) x y
        ≡ (both (λ bid ask. bid == ask) x y || both (λ bid ask. ltb ask bid) x y))
      × ((both (λ bid ask. bid == ask) x y && both (λ bid ask. ltb ask bid) x y) ≡ false)
both-cases none y = (refl, refl)
both-cases (some p) none = (refl, refl)
both-cases (some p) (some q) = (ground arith, ground arith)

-- A book is crossed exactly if it is locked or strictly crossed, and it is never both.
pub crossed-locked :
    (b : Book)
    → (crossed b ≡ (locked b || strictly_crossed b)) × ((locked b && strictly_crossed b) ≡ false)
unfolding crossed locked strictly_crossed
crossed-locked b = both-cases (best b.bids) (best b.asks)
