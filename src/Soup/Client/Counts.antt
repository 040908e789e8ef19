-- ===== src/Soup/Client/Counts.antt =====
-- What a client has counted and handed over.
use itchbook.Base.{
  ℕ, ◌-◌, ◌%◌, ◌^◌, ◌<◌, ◌≡◌, refl, sym, ap, subst, ◌∙◌, ◌⊎◌, inl, inr, true, List, [], ◌∷◌, ◌++◌,
  arith, ◌==◌, Bool-cases, length, length-append,
}
use itchbook.Base.Words.{add64}
use itchbook.Mold.Bytes.{Bytes, drop_bytes}
use itchbook.Soup.Packets.{frame_length, declared_length, message, message_length}
use itchbook.Soup.Frames.Keeps.{Whole}
use itchbook.Soup.Frames.Chunks.{length-drop_bytes}
use itchbook.Soup.Session.{AppCall, hand_over}
use itchbook.Soup.Client.{Config, Inbound, make_client, client_dispatch, enter}
use itchbook.Soup.Client.Runs.{Op, run, Kept, run-Keeps}

-- A call tells the length of its payload; a frame that declares none tells the largest number.
abbrev pub Told : AppCall → Type 0
Told a = (a.told ≡ length a.payload) ⊎ ((a.payload ≡ []) × (a.told ≡ 2 ^ 64 - 1))

abbrev pub AllTold : List AppCall → Type 0
AllTold [] = Unit {0}
AllTold (a ∷ calls) = Told a × AllTold calls

AllTold-snoc :
    (calls : List AppCall) (a : AppCall) → AllTold calls → Told a → AllTold (calls ++ (a ∷ []))
AllTold-snoc [] a h k = (k, tt)
AllTold-snoc (x ∷ calls) a (h, hs) k = (h, AllTold-snoc calls a hs k)

length_zero : (p : Bytes) → length p ≡ 0 → p ≡ []
length_zero [] h = refl
length_zero (x ∷ p) h = absurd (omega arith)

message-Told :
    (max : ℕ) (p : Bytes)
    → max < 2 ^ 64
    → Whole max p
    → Told (record { payload = message p; told = message_length p })
unfolding message message_length frame_length
message-Told max p h (l, k) =
    let d = length-drop_bytes 3 p in
    elim (Bool-cases (declared_length p == 0)) [
      | inl t ↦ inr (length_zero (drop_bytes 3 p) (ground arith), ground arith)
      | inr t ↦ inl (ground arith)
    ]

-- The sequence number counts the calls, and each call tells its length.
abbrev pub Counts : Inbound → Type 0
Counts s = (s.sequence_number ≡ length s.app % 2 ^ 64) × AllTold s.app

abbrev told_call : Bytes → AppCall
told_call p = record { payload = message p; told = message_length p }

-- A dispatch leaves the count and the calls, or adds one to both.
dispatch_cases :
    (type : ℕ) (p : Bytes) (s : Inbound)
    → let s' = (client_dispatch true type p s).1 in
      ((s'.sequence_number ≡ s.sequence_number) × (s'.app ≡ s.app))
      ⊎ ((s'.sequence_number ≡ add64 s.sequence_number 1) × (s'.app ≡ s.app ++ (told_call p ∷ [])))
unfolding client_dispatch hand_over
dispatch_cases type p s = ground arith

dispatch-Counts :
    (max : ℕ) (type : ℕ) (p : Bytes) (s : Inbound)
    → max < 2 ^ 64
    → Whole max p
    → Counts s
    → Counts (client_dispatch true type p s).1
dispatch-Counts max type p s h w (n, a) = elim (dispatch_cases type p s) [
  | inl (e, f) ↦ (e ∙ n ∙ ap (λ x. length x % 2 ^ 64) (sym f), subst AllTold (sym f) a)
  | inr (e, f) ↦
      let l = length-append {0} s.app (told_call p ∷ []) in
      let m = ap length f in
      (
        omega (arith, e, n, l, m),
        subst AllTold (sym f) (AllTold-snoc s.app (told_call p) a (message-Told max p h w)),
      )
]

Counts-Kept : (max : ℕ) → max < 2 ^ 64 → Kept Counts max true
unfolding enter
Counts-Kept max h = record {
  frames = λ type frame i w k. dispatch-Counts max type frame i h w k;
  verdict = λ i k. k;
  clock = λ now c t k. k;
}

-- After any operations on a new client with an application, whose frames are of fewer than 2^64
-- bytes, the sequence number is the number of calls of the application modulo 2^64, counted from 0
-- whatever number the login was accepted with, and each call told the length of its payload, but
-- for calls of an empty payload that may have told 2^64 - 1.
pub run-Counts :
    (cfg : Config) (start : ℕ) (username password session number : Bytes) (os : List Op)
    → cfg.max_frame_bytes < 2 ^ 64
    → Counts (run os (make_client cfg start username password session number true)).inbound
unfolding make_client
run-Counts cfg start username password session number os h =
    (run-Keeps Counts cfg.max_frame_bytes true os
      (make_client cfg start username password session number true)
      (Counts-Kept cfg.max_frame_bytes h) (refl, refl, (refl, tt))).2
