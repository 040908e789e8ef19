-- ===== src/Recover/Halt/Time.antt =====
-- The time that a symbol did not trade, over a session of events.
use itchbook.Base.{
  ℕ, ◌+◌, ◌-◌, ◌≤◌, ◌<◌, ◌≡◌, refl, sym, ap, ◌∙◌, inl, inr, Bool, true, false, not, ◌&&◌, ◌||◌,
  List, [], ◌∷◌, ◌++◌, arith, ltb, ◌==◌, if◌then◌else◌, Bool-cases,
}
use itchbook.Recover.Halt.{
  Session, unknown, trading, halted, quotation_only, paused, session_from, tradable, stopped, code,
  HaltTracker, make_tracker, accrue, change, on_trading_action, observe_at,
}

-- An event of the feed at a time: a trading action, or anything else that is observed.
pub data Event : Type 0 where
  action : ℕ → ℕ → Event
  look : ℕ → Event

abbrev pub time : Event → ℕ
time (action c ts) = ts
time (look ts) = ts

abbrev pub handle : HaltTracker → Event → HaltTracker
handle t (action c ts) = on_trading_action t c ts
handle t (look ts) = observe_at t ts

abbrev pub handle_all : HaltTracker → List Event → HaltTracker
handle_all t [] = t
handle_all t (e ∷ es) = handle_all (handle t e) es

-- The session after an event.
abbrev session_after : Session → Event → Session
session_after s (action c ts) = session_from c
session_after s (look ts) = s

-- The letters of the feed that halt a symbol, announce only quotations, or pause it.
abbrev pub halts : ℕ → Bool
halts c = c == b'H' || (c == b'Q' || c == b'P')

-- Whether the symbol is stopped after an event.
abbrev pub stopped_after : Bool → Event → Bool
stopped_after s (action c ts) = halts c
stopped_after s (look ts) = s

-- The time from `last` to the end of the events in which the symbol is stopped.
abbrev pub stopped_time : Bool → ℕ → List Event → ℕ
stopped_time s last [] = 0
stopped_time s last (e ∷ es) =
    (if s then time e - last else 0) + stopped_time (stopped_after s e) (time e) es

-- Times that do not fall, from a first one that is not 0.
abbrev pub Rising : ℕ → List Event → Type 0
Rising last [] = Unit {0}
Rising last (e ∷ es) = (0 < time e) × (last ≤ time e) × Rising (time e) es

-- Up to the time `last` the tracker has counted `total`, or will when it next looks.
record IsCounted (t : HaltTracker) (last total : ℕ) : Type 0 where
  seen : stopped t.session ≡ true → 0 < t.last_ts
  past : t.last_ts ≤ last
  counted : t.stats.halted_ns + (if stopped t.session then last - t.last_ts else 0) ≡ total

decode : ℕ → Session
decode n =
    if n == 1
    then trading
    else if n == 2
    then halted
    else if n == 3
    then quotation_only
    else if n == 4
    then paused
    else unknown

decode-code : (s : Session) → decode (code s) ≡ s
unfolding decode
decode-code unknown = refl
decode-code trading = refl
decode-code halted = refl
decode-code quotation_only = refl
decode-code paused = refl

code_inj : (a b : Session) → (code a == code b) ≡ true → a ≡ b
code_inj a b e =
    let n : code a ≡ code b = ground arith in sym (decode-code a) ∙ ap decode n ∙ decode-code b

-- What `accrue` leaves.
accrue_keeps : (t : HaltTracker) (ts : ℕ) → (accrue t ts).session ≡ t.session
unfolding accrue
accrue_keeps t ts = elim (Bool-cases (t.last_ts == 0 || ltb ts t.last_ts)) [
  | inl e ↦ rw (e, accrue) refl
  | inr e ↦ elim (Bool-cases (stopped t.session)) [
    | inl f ↦ rw (e, f, accrue) refl
    | inr f ↦ rw (e, f, accrue) refl
  ]
]

accrue_lem :
    (t : HaltTracker) (last total ts : ℕ)
    → IsCounted t last total
    → last ≤ ts
    → (accrue t ts).stats.halted_ns ≡ total + (if stopped t.session then ts - last else 0)
unfolding accrue
accrue_lem t last total ts v l = elim (Bool-cases (stopped t.session)) [
  | inl f ↦
      let z = v.seen f in
      let p = v.past in
      let c = rw f at v.counted in
      let e : (t.last_ts == 0 || ltb ts t.last_ts) ≡ false = ground arith in
      rw (e, f, accrue) (omega arith)
  | inr f ↦
      let c = rw f at v.counted in
      elim (Bool-cases (t.last_ts == 0 || ltb ts t.last_ts)) [
        | inl e ↦ rw (e, f, accrue) (omega arith)
        | inr e ↦ rw (e, f, accrue) (omega arith)
      ]
]

change_keeps :
    (t : HaltTracker) (next : Session) → (change t next).stats.halted_ns ≡ t.stats.halted_ns
unfolding change
change_keeps t next = elim (Bool-cases (tradable t.session && not (tradable next))) [
  | inl e ↦ elim (Bool-cases (stopped t.session && tradable next)) [
    | inl f ↦ rw (e, f, change) refl
    | inr f ↦ rw (e, f, change) refl
  ]
  | inr e ↦ elim (Bool-cases (stopped t.session && tradable next)) [
    | inl f ↦ rw (e, f, change) refl
    | inr f ↦ rw (e, f, change) refl
  ]
]

-- A tracker that has just looked has counted all.
caught_up :
    (t : HaltTracker) (ts total : ℕ)
    → t.last_ts ≡ ts
    → 0 < ts
    → t.stats.halted_ns ≡ total
    → IsCounted t ts total
caught_up t ts total e p h = record {
  seen = λ z. omega arith;
  past = omega arith;
  counted = elim (Bool-cases (stopped t.session)) [
    | inl f ↦ rw f (omega arith)
    | inr f ↦ rw f (omega arith)
  ];
}

-- Later, in the same session.
waiting :
    (t : HaltTracker) (last ts total : ℕ)
    → IsCounted t last total
    → last ≤ ts
    → IsCounted t ts (total + (if stopped t.session then ts - last else 0))
waiting t last ts total v l = record {
  seen = v.seen;
  past = let p = v.past in omega arith;
  counted = elim (Bool-cases (stopped t.session)) [
    | inl f ↦ let c = rw f at v.counted in let p = v.past in rw f (omega arith)
    | inr f ↦ let c = rw f at v.counted in rw f (omega arith)
  ];
}

-- One event.
handle-IsCounted :
    (t : HaltTracker) (last total : ℕ) (e : Event)
    → IsCounted t last total
    → 0 < time e
    → last ≤ time e
    → IsCounted (handle t e) (time e) (total + (if stopped t.session then time e - last else 0))
      × ((handle t e).session ≡ session_after t.session e)
unfolding observe_at on_trading_action session_from change
handle-IsCounted t last total (look ts) v p l =
    (caught_up (observe_at t ts) ts _ refl p (accrue_lem t last total ts v l), accrue_keeps t ts)
handle-IsCounted t last total (action c ts) v p l =
    elim (Bool-cases (code (session_from c) == code t.session)) [
      | inl e ↦ rw e (waiting t last ts total v l, sym (code_inj (session_from c) t.session e))
      | inr e ↦ rw e (
        caught_up _ ts _ refl p
            (change_keeps (accrue t ts) (session_from c) ∙ accrue_lem t last total ts v l),
        refl,
      )
    ]

-- The code's own tests agree with the letters.
stopped-session_from : (c : ℕ) → stopped (session_from c) ≡ halts c
unfolding session_from
stopped-session_from c = ground arith

stopped-session_after :
    (s : Session) (e : Event) → stopped (session_after s e) ≡ stopped_after (stopped s) e
stopped-session_after s (action c ts) = stopped-session_from c
stopped-session_after s (look ts) = refl

handle_all_lem :
    (t : HaltTracker) (last total : ℕ) (es : List Event) (ts : ℕ)
    → IsCounted t last total
    → Rising last (es ++ (look ts ∷ []))
    → (handle_all t (es ++ (look ts ∷ []))).stats.halted_ns
      ≡ total + stopped_time (stopped t.session) last (es ++ (look ts ∷ []))
unfolding observe_at
handle_all_lem t last total [] ts v (p, l, r) =
    let a = accrue_lem t last total ts v l in omega arith
handle_all_lem t last total (e ∷ es) ts v (p, l, r) =
    let (w, s) = handle-IsCounted t last total e v p l in
    let z = handle_all_lem (handle t e) (time e) _ es ts w r in
    let y : stopped_time (stopped (handle t e).session) (time e) (es ++ (look ts ∷ []))
        ≡ stopped_time (stopped_after (stopped t.session) e) (time e) (es ++ (look ts ∷ [])) =
      ap (λ x. stopped_time x (time e) (es ++ (look ts ∷ [])))
        (ap stopped s ∙ stopped-session_after t.session e) in
    omega arith

start-IsCounted : IsCounted make_tracker 0 0
unfolding make_tracker
start-IsCounted = record { seen = λ z. absurd (cc); past = omega arith; counted = omega arith }

-- For events at times that do not fall, from a first one that is not 0, with an observation as the
-- last, `halted_ns` of a fresh tracker is exactly the time in which the last trading action was of
-- the letter H, Q or P. The time before the first action, and after one of an unknown letter, is
-- not counted.
pub halted_ns_lem :
    (es : List Event) (ts : ℕ)
    → Rising 0 (es ++ (look ts ∷ []))
    → (handle_all make_tracker (es ++ (look ts ∷ []))).stats.halted_ns
      ≡ stopped_time false 0 (es ++ (look ts ∷ []))
unfolding make_tracker
halted_ns_lem es ts r =
    let z = handle_all_lem make_tracker 0 0 es ts start-IsCounted r in omega arith
