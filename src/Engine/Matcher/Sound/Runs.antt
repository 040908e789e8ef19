-- ===== src/Engine/Matcher/Sound/Runs.antt =====
-- Runs of the operations of an engine, with changes of the shared book by others in between.
use itchbook.Base.{ℕ, ◌+◌, ◌≡◌, refl, Bool, true, some, List, [], ◌∷◌, arith}
use itchbook.Engine.OrderTypes.{is_terminal, Request}
use itchbook.Engine.Matcher.{BookOps, Meta, Orders, Matcher, lookup, make_matcher}
use itchbook.Engine.Matcher.Run.{pump_stops}
use itchbook.Engine.Matcher.Submit.{submit, cancel, apply_external_fill}
use itchbook.Engine.Matcher.Query.{conserves_order}
use itchbook.Engine.Matcher.Sound.{BookLaws, AllSound, member, known, owing, Quiet}
use itchbook.Engine.Matcher.Sound.Lists.{Sound-same}
use itchbook.Engine.Matcher.Sound.Fills.{entry_at}
use itchbook.Engine.Matcher.Sound.Operations.{
  Fresh, submit-Quiet, cancel-Quiet, apply_external_fill-Quiet, pump_stops-Quiet,
}

pub data Op (B : Type 0) : Type 0 where
  order : Request → Op B
  withdraw : ℕ → Op B
  outside_fill : ℕ → ℕ → ℕ → ℕ → Op B
  pump : Op B
  others : B → Op B

elsewhere :
    (h h' o : ℕ → ℕ) (p : ℕ → Bool) (os : Orders)
    → ((j : ℕ) → known j os ≡ true → h' j ≡ h j)
    → AllSound h o p os
    → AllSound h' o p os
unfolding known
elsewhere h h' o p [] e s = tt
elsewhere h h' o p ((j, m) ∷ os) e (s, (k, ss)) = (
  Sound-same (h j) (h' j) (o j) (o j) (p j) (p j) j m (e j (ground arith)) refl (λ x. x) s,
  (k, elsewhere h h' o p os (λ l kn. e l (ground arith)) ss),
)

module _ {B : Type 0} {ops : BookOps B} (laws : BookLaws ops) where
  abbrev pub step : Op B → Matcher B → Matcher B
  step (order req) k = (submit ops req k).0
  step (withdraw i) k = (cancel ops i k).0
  step (outside_fill i shares price number) k = (apply_external_fill ops i shares price number k).0
  step pump k = (pump_stops ops k).0
  step (others b) k = record k { book = b }

  abbrev pub run : List (Op B) → Matcher B → Matcher B
  run [] k = k
  run (o ∷ os) k = run os (step o k)

  -- A request is of 32 bits and the book holds nothing of its id yet; others leave the shares of the
  -- engine's orders as they are.
  abbrev pub Allowed : Op B → Matcher B → Type 0
  Allowed (order req) k = Fresh laws req k
  Allowed (others b) k =
      (j : ℕ) → known j k.orders ≡ true → laws.shares_of j b ≡ laws.shares_of j k.book
  Allowed _ k = Unit {0}

  abbrev pub AllAllowed : List (Op B) → Matcher B → Type 0
  AllAllowed [] k = Unit {0}
  AllAllowed (o ∷ os) k = Allowed o k × AllAllowed os (step o k)

  pub step-Quiet : (o : Op B) (k : Matcher B) → Allowed o k → Quiet laws k → Quiet laws (step o k)
  step-Quiet (order req) k a s = submit-Quiet laws req k a s
  step-Quiet (withdraw i) k a s = cancel-Quiet laws i k s
  step-Quiet (outside_fill i shares price number) k a s =
      apply_external_fill-Quiet laws i shares price number k s
  step-Quiet pump k a s = pump_stops-Quiet laws k s
  step-Quiet (others b) k a s = record {
    orders =
        elsewhere (λ j. laws.shares_of j k.book) (λ j. laws.shares_of j b) (owing 0 0)
          (λ j. member j k.pending_stops) k.orders a s.orders;
    parked = s.parked;
    there = s.there;
    aloft = s.aloft;
  }

  pub run-Quiet :
      (os : List (Op B)) (k : Matcher B) → AllAllowed os k → Quiet laws k → Quiet laws (run os k)
  run-Quiet [] k a s = s
  run-Quiet (o ∷ os) k (a, more) s = run-Quiet os (step o k) more (step-Quiet o k a s)

  pub make_matcher-Quiet : (b : B) → Quiet laws (make_matcher b)
  unfolding make_matcher
  make_matcher-Quiet b = record {
    orders = tt;
    parked = tt;
    there = λ z. absurd (omega arith);
    aloft = λ z. absurd (omega arith);
  }

  -- What is promised of each order of the engine.
  pub record Kept (k : Matcher B) (i : ℕ) (m : Meta) : Type 0 where
    pub conserved : conserves_order m ≡ true
    pub agrees : laws.shares_of i k.book ≡ m.resting
    pub over : is_terminal m.state ≡ true → m.resting + m.hidden ≡ 0

  -- After any run of submissions, cancellations, outside fills and fired stops from a new engine on
  -- a book that keeps the laws of its interface, with changes by others in between that leave the
  -- shares of its orders, if each request has a quantity below 2^32 and an id of which the book
  -- holds nothing, every order of the engine has its quantity filled, cancelled, resting or hidden,
  -- or nothing of all these before it enters, the book holds exactly its displayed shares, and
  -- nothing is left of an order that is over.
  pub run-Kept :
      (b : B) (os : List (Op B)) (i : ℕ) (m : Meta)
      → AllAllowed os (make_matcher b)
      → lookup i (run os (make_matcher b)).orders ≡ some m
      → Kept (run os (make_matcher b)) i m
  unfolding conserves_order
  run-Kept b os i m a e =
      let s = run-Quiet os (make_matcher b) a (make_matcher-Quiet b) in
      let q = entry_at laws 0 0 i m (run os (make_matcher b)) s e in
      record { conserved = ground (arith, q.sum, q.size); agrees = q.agrees; over = q.done }
