-- ===== src/Sim/Mid.antt =====
-- include/itchbook/sim/mid.hpp: the mid price of a book, doubled, and why there is none.
use itchbook.Base.{ℕ, ◌+◌, ◌==◌, Bool, true, false, Option, none, some, if◌then◌else◌, ltb, not}
use itchbook.Base.Ints.{ℤ, pos}
use itchbook.Book.State.{Book}
use itchbook.Book.Side.{best}

pub data MidStatus : Type 0 where
  ok locked one_sided strictly_crossed halted outside_continuous empty : MidStatus

pub record Mid : Type 0 where
  pub two_mid : ℤ
  pub status : MidStatus

abbrev pub usable : MidStatus → Bool
usable ok = true
usable locked = true
usable _ = false

abbrev pub is_ok : Mid → Bool
is_ok m = usable m.status

abbrev no_mid : MidStatus → Mid
no_mid s = record { two_mid = pos 0; status = s }

abbrev between : Option ℕ → Option ℕ → Mid
between none none = no_mid empty
between (some bid) none = no_mid one_sided
between none (some ask) = no_mid one_sided
between (some bid) (some ask) =
    if ltb ask bid
    then no_mid strictly_crossed
    else record { two_mid = pos (bid + ask); status = if bid == ask then locked else ok }

unfoldable pub observe : Book → Bool → Bool → Mid
observe book in_continuous tradable =
    if not in_continuous
    then no_mid outside_continuous
    else if not tradable
    then no_mid halted
    else between (best book.bids) (best book.asks)
