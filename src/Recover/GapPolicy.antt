-- ===== src/Recover/GapPolicy.antt =====
-- recover/gap_policy.hpp: what the book is worth after a sequence gap, and when it is worth
-- something again. Counters are plain numbers.
pub mod Buckets
pub mod Window
use itchbook.Base.{
  ℕ, zero, suc, ◌+◌, ◌-◌, ◌*◌, ◌/◌, ◌%◌, ◌^◌, ◌≤◌, ◌<◌, min, ◌≡◌, refl, sym, ap, subst, ◌∙◌, ◌≢◌,
  ◌↔◌, ◌⊎◌, inl, inr, Bool, true, false, not, ◌&&◌, ◌||◌, Option, none, some, List, [], ◌∷◌, ◌++◌,
  map, arith, ltb, leb, ◌==◌, if◌then◌else◌, Bool-cases, length, length-append,
}

pub data Trust : Type 0 where
  trusted recovering halted : Trust

pub data Policy : Type 0 where
  rebuild_forward halt : Policy

pub record GapConfig : Type 0 where
  pub policy : Policy
  pub recovery_window : ℕ
  pub recovery_tolerance : ℕ
  pub max_gaps_before_halt : ℕ

pub record GapStats : Type 0 where
  pub gaps : ℕ
  pub messages_lost : ℕ
  pub rebuilds : ℕ
  pub recoveries : ℕ
  pub unknown_refs_after_gap : ℕ
  pub messages_untrusted : ℕ
  pub stream_ends : ℕ
  pub truncated_streams : ℕ

pub record GapTracker : Type 0 where
  pub cfg : GapConfig
  pub stats : GapStats
  pub state : Trust
  pub last_gap_at : ℕ
  pub buckets : ℕ → ℕ
  pub head : ℕ
  pub in_bucket : ℕ
  pub window_unknown : ℕ
  pub refs_since_gap : ℕ

-- `kBuckets`.
abbrev pub bucket_count : ℕ
bucket_count = 16

abbrev pub fresh_stats : GapStats
fresh_stats = record {
  gaps = 0;
  messages_lost = 0;
  rebuilds = 0;
  recoveries = 0;
  unknown_refs_after_gap = 0;
  messages_untrusted = 0;
  stream_ends = 0;
  truncated_streams = 0;
}

unfoldable pub make_tracker : GapConfig → GapTracker
make_tracker cfg = record {
  cfg = cfg;
  stats = fresh_stats;
  state = trusted;
  last_gap_at = 0;
  buckets = λ i. 0;
  head = 0;
  in_bucket = 0;
  window_unknown = 0;
  refs_since_gap = 0;
}

unfoldable pub bucket_size : GapConfig → ℕ
bucket_size cfg = let n = cfg.recovery_window / bucket_count in if n == 0 then 1 else n

abbrev pub set_bucket : (ℕ → ℕ) → ℕ → ℕ → ℕ → ℕ
set_bucket b i n j = if i == j then n else b j

unfoldable pub reset_window : GapTracker → GapTracker
reset_window t = record t {
  buckets = λ i. 0;
  head = 0;
  in_bucket = 0;
  window_unknown = 0;
  refs_since_gap = 0;
}

abbrev pub halts : Policy → Bool
halts rebuild_forward = false
halts halt = true

abbrev pub is_recovering : Trust → Bool
is_recovering trusted = false
is_recovering recovering = true
is_recovering halted = false

-- The tracker, and whether the caller rebuilds.
unfoldable pub on_gap : GapTracker → ℕ → ℕ → GapTracker × Bool
on_gap t first_missing count =
    let s = t.stats in
    let s1 = record s { gaps = s.gaps + 1; messages_lost = s.messages_lost + count } in
    let t1 = reset_window (record t { stats = s1; last_gap_at = first_missing }) in
    if halts t.cfg.policy || ltb t.cfg.max_gaps_before_halt s1.gaps
    then (record t1 { state = halted }, false)
    else (record t1 { state = recovering; stats = record s1 { rebuilds = s1.rebuilds + 1 } }, true)

-- The first half of `on_reference`: the counts.
unfoldable pub count_reference : GapTracker → Bool → GapTracker
count_reference t resolved =
    let s = t.stats in
    let s1 = record s { messages_untrusted = s.messages_untrusted + 1 } in
    let t1 = record t { stats = s1; refs_since_gap = t.refs_since_gap + 1 } in
    if resolved then t1 else record t1 {
      stats = record s1 { unknown_refs_after_gap = s1.unknown_refs_after_gap + 1 };
      buckets = set_bucket t.buckets t.head (t.buckets t.head + 1);
      window_unknown = t.window_unknown + 1;
    }

-- `++in_bucket_`, and the next bucket when this one is full.
unfoldable pub advance : GapTracker → GapTracker
advance t =
    if leb (bucket_size t.cfg) (t.in_bucket + 1)
    then (let head' = (t.head + 1) % bucket_count in
        record t {
          in_bucket = 0;
          head = head';
          window_unknown = t.window_unknown - t.buckets head';
          buckets = set_bucket t.buckets head' 0;
        })
    else record t { in_bucket = t.in_bucket + 1 }

-- The test that ends `on_reference`.
unfoldable pub settle : GapTracker → GapTracker
settle t =
    if leb t.cfg.recovery_window t.refs_since_gap && leb t.window_unknown t.cfg.recovery_tolerance
    then (let s = t.stats in
        reset_window
          (record t { state = trusted; stats = record s { recoveries = s.recoveries + 1 } }))
    else t

unfoldable pub on_reference : GapTracker → Bool → GapTracker
on_reference t resolved =
    if not (is_recovering t.state) then t else settle (advance (count_reference t resolved))

unfoldable pub on_stream_end : GapTracker → Bool → GapTracker
on_stream_end t saw_end_of_session =
    let s = t.stats in
    let s1 = record s { stream_ends = s.stream_ends + 1 } in
    if saw_end_of_session then record t { stats = s1 } else record t {
      stats = record s1 { truncated_streams = s1.truncated_streams + 1 };
      state = halted;
    }
