-- ===== src/Recover/Halt.antt =====
-- recover/halt.hpp: the trading state of a symbol, and what is counted while it does not trade. A
-- time of 0 is one that was never seen. Counters and times are plain numbers, prices at least 0.
pub mod Time
use itchbook.Base.{
  ℕ, zero, suc, ◌+◌, ◌-◌, ◌*◌, ◌/◌, ◌%◌, ◌^◌, ◌≤◌, ◌<◌, min, ◌≡◌, refl, sym, ap, subst, ◌∙◌, ◌≢◌,
  ◌↔◌, ◌⊎◌, inl, inr, Bool, true, false, not, ◌&&◌, ◌||◌, Option, none, some, List, [], ◌∷◌, ◌++◌,
  map, arith, ltb, leb, ◌==◌, if◌then◌else◌, Bool-cases, length, length-append,
}
use itchbook.Book.Side.{best}
use itchbook.Book.State.{Book}

pub data Session : Type 0 where
  unknown trading halted quotation_only paused : Session

unfoldable pub session_from : ℕ → Session
session_from c =
    if c == b'T'
    then trading
    else if c == b'H'
    then halted
    else if c == b'Q'
    then quotation_only
    else if c == b'P'
    then paused
    else unknown

abbrev pub tradable : Session → Bool
tradable unknown = false
tradable trading = true
tradable halted = false
tradable quotation_only = false
tradable paused = false

abbrev pub is_unknown : Session → Bool
is_unknown unknown = true
is_unknown trading = false
is_unknown halted = false
is_unknown quotation_only = false
is_unknown paused = false

-- Whether a session is one that was announced and does not trade.
abbrev pub stopped : Session → Bool
stopped s = not (tradable s) && not (is_unknown s)

-- `next == session_`.
abbrev pub code : Session → ℕ
code unknown = 0
code trading = 1
code halted = 2
code quotation_only = 3
code paused = 4

pub record HaltStats : Type 0 where
  pub halts : ℕ
  pub resumes : ℕ
  pub halted_ns : ℕ
  pub messages_while_halted : ℕ
  pub halt_crosses : ℕ
  pub crossed_while_halted : ℕ
  pub crossed_while_trading : ℕ
  pub deepest_cross_while_halted : ℕ
  pub deepest_cross_while_trading : ℕ
  pub crossed_at_resume : ℕ

pub record HaltTracker : Type 0 where
  pub session : Session
  pub stats : HaltStats
  pub last_ts : ℕ
  pub resuming : Bool

unfoldable pub make_tracker : HaltTracker
make_tracker = record {
  session = unknown;
  stats = record {
    halts = 0;
    resumes = 0;
    halted_ns = 0;
    messages_while_halted = 0;
    halt_crosses = 0;
    crossed_while_halted = 0;
    crossed_while_trading = 0;
    deepest_cross_while_halted = 0;
    deepest_cross_while_trading = 0;
    crossed_at_resume = 0;
  };
  last_ts = 0;
  resuming = false;
}

unfoldable pub accrue : HaltTracker → ℕ → HaltTracker
accrue t ts =
    let s = t.stats in
    if t.last_ts == 0 || ltb ts t.last_ts
    then t
    else if stopped t.session
    then record t { stats = record s { halted_ns = s.halted_ns + (ts - t.last_ts) } }
    else t

-- The counts of a change of session, and whether it resumes trading.
unfoldable pub change : HaltTracker → Session → HaltTracker
change t next =
    let s = t.stats in
    let s1 =
      if tradable t.session && not (tradable next) then record s { halts = s.halts + 1 } else s in
    let resumes_now = stopped t.session && tradable next in
    record t {
      session = next;
      stats = if resumes_now then record s1 { resumes = s1.resumes + 1 } else s1;
      resuming = resumes_now || t.resuming;
    }

unfoldable pub on_trading_action : HaltTracker → ℕ → ℕ → HaltTracker
on_trading_action t state ts =
    let next = session_from state in
    if code next == code t.session then t else record (change (accrue t ts) next) { last_ts = ts }

unfoldable pub on_cross : HaltTracker → ℕ → HaltTracker
on_cross t type =
    let s = t.stats in
    if type == b'H' then record t { stats = record s { halt_crosses = s.halt_crosses + 1 } } else t

unfoldable pub observe_at : HaltTracker → ℕ → HaltTracker
observe_at t ts = record (accrue t ts) { last_ts = ts }

-- How deep a book is crossed: 0 if it is not.
unfoldable pub cross_depth : Option ℕ → Option ℕ → ℕ
cross_depth none ask = 0
cross_depth (some bid) none = 0
cross_depth (some bid) (some ask) = bid - ask

abbrev pub deeper : ℕ → ℕ → ℕ
deeper old depth = if ltb old depth then depth else old

unfoldable pub count_crossed : HaltTracker → ℕ → HaltTracker
count_crossed t depth =
    let s = t.stats in
    record t {
      stats =
          if tradable t.session
          then record s {
            crossed_while_trading = s.crossed_while_trading + 1;
            deepest_cross_while_trading = deeper s.deepest_cross_while_trading depth;
          }
          else record s {
            crossed_while_halted = s.crossed_while_halted + 1;
            deepest_cross_while_halted = deeper s.deepest_cross_while_halted depth;
          };
    }

abbrev pub count_halted : HaltTracker → HaltTracker
count_halted t =
    let s = t.stats in
    if tradable t.session
    then t
    else record t { stats = record s { messages_while_halted = s.messages_while_halted + 1 } }

unfoldable pub settle_resume : HaltTracker → Bool → HaltTracker
settle_resume t crossed =
    let s = t.stats in
    if t.resuming
    then record t {
      resuming = false;
      stats = if crossed then record s { crossed_at_resume = s.crossed_at_resume + 1 } else s;
    }
    else t

unfoldable pub observe : HaltTracker → Book → ℕ → HaltTracker
observe t b ts =
    let t1 = count_halted (observe_at t ts) in
    let depth = cross_depth (best b.bids) (best b.asks) in
    let crossed = ltb 0 depth in
    settle_resume (if crossed then count_crossed t1 depth else t1) crossed
