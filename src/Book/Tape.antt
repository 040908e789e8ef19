-- ===== src/Book/Tape.antt =====
-- The tape of the book: what `record_trade`, `trade` and `cross` keep of the prints.
pub mod Prints
use itchbook.Base.{
  ℕ, zero, suc, ◌+◌, ◌-◌, ◌*◌, ◌/◌, ◌%◌, ◌^◌, ◌≤◌, ◌<◌, min, ◌≡◌, refl, sym, ap, subst, ◌∙◌, ◌≢◌,
  ◌↔◌, ◌⊎◌, inl, inr, Bool, true, false, not, ◌&&◌, ◌||◌, Option, none, some, List, [], ◌∷◌, ◌++◌,
  map, arith, ltb, leb, ◌==◌, if◌then◌else◌, Bool-cases, length, length-append,
}
use itchbook.Base.Words.{add64}
use itchbook.Book.State.{Tape, fresh_tape}

abbrev pub or_price : Option ℕ → ℕ → ℕ
or_price none p = p
or_price (some q) p = q

abbrev pub raise : Option ℕ → ℕ → ℕ
raise none p = p
raise (some q) p = if ltb q p then p else q

abbrev pub lower : Option ℕ → ℕ → ℕ
lower none p = p
lower (some q) p = if ltb p q then p else q

unfoldable pub record_trade : Tape → ℕ → ℕ → Tape
record_trade t price shares = if shares == 0 then t else record t {
  volume = add64 t.volume shares;
  notional = add64 t.notional (price * shares);
  trades = t.trades + 1;
  open_price = some (or_price t.open_price price);
  close = some price;
  high = some (raise t.high price);
  low = some (lower t.low price);
}

unfoldable pub trade : Tape → ℕ → ℕ → Tape
trade t price shares =
    record_trade (record t { hidden_volume = add64 t.hidden_volume shares }) price shares

-- `cross_prices_[type] = price`.
abbrev pub set_price : List (ℕ × ℕ) → ℕ → ℕ → List (ℕ × ℕ)
set_price [] k p = (k, p) ∷ []
set_price ((j, q) ∷ m) k p = if j == k then (k, p) ∷ m else (j, q) ∷ set_price m k p

unfoldable pub cross : Tape → ℕ → ℕ → ℕ → Tape
cross t price shares type =
    record_trade
      (record t {
        cross_volume = add64 t.cross_volume shares;
        cross_prices = if ltb 0 shares then set_price t.cross_prices type price else t.cross_prices;
      })
      price shares
