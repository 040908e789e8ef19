-- ===== src/Sim/Ledger/Reconcile.antt =====
-- The reconciliation error of a ledger after any run of fills and restarts.
use itchbook.Base.{
  ℕ, ◌*◌, ◌≡◌, refl, ap, ◌∙◌, List, [], ◌∷◌, ◌++◌, arith, if◌then◌else◌, Bool-cases, inl, inr,
}
use mathlib.Core.Path.{ap₂}
use itchbook.Base.Ints.{
  ℤ, pos, pos_part, neg_part, ◌+ℤ◌, ◌-ℤ◌, ◌*ℤ◌, quot, to_int32, ext, product_laws, sum_laws,
  *ℤ_distrib_add, *ℤ_distrib_sub,
}
use itchbook.Sim.Money.{Side, buy, sell, SimFill, micros_per_price4, notional}
use itchbook.Sim.Mid.{Mid, is_ok}
use itchbook.Sim.Fees.{FeeSchedule}
use itchbook.Sim.Ledger.{
  Ledger, LedgerFill, make_ledger, signed, sgn, fee_of, logged, on_fill, equity, edge, drifted,
  drift_total, drift, reconciliation_error, state, restore,
}

-- What a session does to its ledger: a fill with the mid of its moment, or a restart in the middle
-- of the day, which restores the state into a new ledger with the same schedule.
pub data Step : Type 0 where
  fill : SimFill → Mid → Step
  restart : Step

unfoldable pub step : Step → Ledger → Ledger
step (fill f mid) l = on_fill f mid l
step restart l = restore (state l) (make_ledger l.schedule)

unfoldable pub run : List Step → Ledger → Ledger
run [] l = l
run (s ∷ ss) l = run ss (step s l)

-- A fill's share of the error. With a usable mid it is what the mark loses when the doubled mark is
-- halved; without one it is the fill's whole profit at the mark.
unfoldable pub fill_error : ℤ → ℤ → SimFill → Mid → ℤ
fill_error two_mark mark f mid =
    if is_ok mid
    then signed f.side f.shares *ℤ (pos 2 *ℤ mark -ℤ two_mark) *ℤ pos 50
    else signed f.side f.shares *ℤ (mark -ℤ f.price) *ℤ pos 100

unfoldable pub run_error : ℤ → ℤ → List Step → ℤ
run_error two_mark mark [] = pos 0
run_error two_mark mark (fill f mid ∷ ss) =
    fill_error two_mark mark f mid +ℤ run_error two_mark mark ss
run_error two_mark mark (restart ∷ ss) = run_error two_mark mark ss

side_out : (s : Side) (x : ℤ) (n : ℕ) → sgn s *ℤ x *ℤ pos n ≡ signed s n *ℤ x
side_out buy x n = ext _ _ (simp product_laws (omega arith))
side_out sell x n = ext _ _ (simp product_laws (ground arith))

drift_total-append :
    (t k : ℤ) (fs : List LedgerFill) (f : LedgerFill)
    → drift_total t k (fs ++ f ∷ []) ≡ drift_total t k fs +ℤ drifted t f
unfolding drift_total
drift_total-append t k [] f = refl
drift_total-append t k (g ∷ fs) f = drift_total-append t (k +ℤ drifted t g) fs f

-- A product by a numeral is read as one of its parts.
pos_part-scaled : (a : ℤ) (k : ℕ) → pos_part (a *ℤ pos k) ≡ pos_part a * k
pos_part-scaled a k = simp product_laws (omega arith)

neg_part-scaled : (a : ℤ) (k : ℕ) → neg_part (a *ℤ pos k) ≡ neg_part a * k
neg_part-scaled a k = simp product_laws (omega arith)

ruleset linear_laws = (sum_laws, pos_part-scaled, neg_part-scaled)

-- The balance of a fill with a mid, by the products of its signed shares.
balance_linear :
    (C F E D W sp sm sh st qm : ℤ)
    → C
        -ℤ sp *ℤ pos 100
        -ℤ F
        +ℤ (qm *ℤ pos 100 +ℤ sm *ℤ pos 100)
        -ℤ ((E +ℤ (sh -ℤ sp *ℤ pos 2)) *ℤ pos 50 +ℤ (D +ℤ (st -ℤ sh)) *ℤ pos 50 -ℤ (W +ℤ F))
      ≡ C +ℤ qm *ℤ pos 100 -ℤ (E *ℤ pos 50 +ℤ D *ℤ pos 50 -ℤ W) +ℤ (sm *ℤ pos 2 -ℤ st) *ℤ pos 50
balance_linear C F E D W sp sm sh st qm = ext _ _ (omega linear_laws)

balance_none_linear :
    (C F E D W sp sm qm : ℤ)
    → C
        -ℤ sp *ℤ pos 100
        -ℤ F
        +ℤ (qm *ℤ pos 100 +ℤ sm *ℤ pos 100)
        -ℤ (E *ℤ pos 50 +ℤ (D +ℤ pos 0) *ℤ pos 50 -ℤ (W +ℤ F))
      ≡ C +ℤ qm *ℤ pos 100 -ℤ (E *ℤ pos 50 +ℤ D *ℤ pos 50 -ℤ W) +ℤ (sm -ℤ sp) *ℤ pos 100
balance_none_linear C F E D W sp sm qm = ext _ _ (omega linear_laws)

notional_out : (p s : ℤ) → notional p s ≡ s *ℤ p *ℤ pos 100
unfolding notional
notional_out p s = ext _ _ (simp product_laws (omega arith))

notional-+ℤ : (p q s : ℤ) → notional p (q +ℤ s) ≡ q *ℤ p *ℤ pos 100 +ℤ s *ℤ p *ℤ pos 100
unfolding notional
notional-+ℤ p q s =
    *ℤ_distrib_add (p *ℤ micros_per_price4) q s ∙ ap₂ ◌+ℤ◌ (notional_out p q) (notional_out p s)

double_out : (a b : ℤ) → a *ℤ (pos 2 *ℤ b) ≡ a *ℤ b *ℤ pos 2
double_out a b = ext _ _ (simp product_laws (omega arith))

-- A side's signed shares by a difference of a price and twice another.
spread_out :
    (s : Side) (h p : ℤ) (n : ℕ)
    → sgn s *ℤ (h -ℤ pos 2 *ℤ p) *ℤ pos n ≡ signed s n *ℤ h -ℤ signed s n *ℤ p *ℤ pos 2
spread_out s h p n =
    side_out s (h -ℤ pos 2 *ℤ p) n
    ∙ *ℤ_distrib_sub (signed s n) h (pos 2 *ℤ p)
    ∙ ap (λ x. signed s n *ℤ h -ℤ x) (double_out (signed s n) p)

moved_out :
    (s : Side) (t h : ℤ) (n : ℕ) → sgn s *ℤ (t -ℤ h) *ℤ pos n ≡ signed s n *ℤ t -ℤ signed s n *ℤ h
moved_out s t h n = side_out s (t -ℤ h) n ∙ *ℤ_distrib_sub (signed s n) t h

excess_out : (s m t : ℤ) → s *ℤ (pos 2 *ℤ m -ℤ t) ≡ s *ℤ m *ℤ pos 2 -ℤ s *ℤ t
excess_out s m t = *ℤ_distrib_sub s (pos 2 *ℤ m) t ∙ ap (λ x. x -ℤ s *ℤ t) (double_out s m)

-- What `reconciliation_error` computes, at a mark that is not tied to the doubled mark.
unfoldable pub settled : ℤ → ℤ → Ledger → ℤ
settled two_mark mark l = equity mark l -ℤ (edge l +ℤ drift two_mark l -ℤ l.fees_total)

on_fill-settled :
    (t m : ℤ) (f : SimFill) (mid : Mid) (l : Ledger)
    → settled t m (on_fill f mid l) ≡ settled t m l +ℤ fill_error t m f mid
unfolding settled on_fill equity edge drift drifted fill_error quot
on_fill-settled t m f mid l =
    let s = signed f.side f.shares in
    let appended = drift_total-append t (pos 0) l.fills (logged f mid (fee_of l.schedule f)) in
    elim (Bool-cases (is_ok mid)) [
      | inl u ↦
          rw
            (
              appended,
              u,
              notional_out f.price s,
              notional-+ℤ m l.position s,
              notional_out m l.position,
              spread_out f.side mid.two_mid f.price f.shares,
              moved_out f.side t mid.two_mid f.shares,
              excess_out s m t,
            )
            (balance_linear _ _ _ _ _ _ _ _ _ _)
      | inr u ↦
          rw
            (
              appended,
              u,
              notional_out f.price s,
              notional-+ℤ m l.position s,
              notional_out m l.position,
              *ℤ_distrib_sub s m f.price,
            )
            (balance_none_linear _ _ _ _ _ _ _ _)
    ]

fill-settled :
    (t m : ℤ) (f : SimFill) (mid : Mid) (l : Ledger)
    → settled t m (step (fill f mid) l) ≡ settled t m l +ℤ fill_error t m f mid
unfolding step
fill-settled t m f mid l = on_fill-settled t m f mid l

restart-settled : (t m : ℤ) (l : Ledger) → settled t m (step restart l) ≡ settled t m l
unfolding step restore state settled equity edge drift
restart-settled t m l = refl

run-settled :
    (t m : ℤ) (ss : List Step) (l : Ledger)
    → settled t m (run ss l) ≡ settled t m l +ℤ run_error t m ss
unfolding run run_error
run-settled t m [] l = ext _ _ (omega sum_laws)
run-settled t m (fill f mid ∷ ss) l =
    run-settled t m ss (step (fill f mid) l)
    ∙ ap (λ x. x +ℤ run_error t m ss) (fill-settled t m f mid l)
    ∙ ext _ _ (omega sum_laws)
run-settled t m (restart ∷ ss) l =
    run-settled t m ss (step restart l) ∙ ap (λ x. x +ℤ run_error t m ss) (restart-settled t m l)

empty-settled : (t m : ℤ) (schedule : FeeSchedule) → settled t m (make_ledger schedule) ≡ pos 0
unfolding settled equity edge drift drift_total notional
empty-settled t m schedule = ext _ _ (omega (linear_laws, product_laws))

-- After any run of fills and restarts from a new ledger, under any schedule of fees, the
-- reconciliation error at a doubled mark is a sum over the fills alone: for each fill without a
-- usable mid its signed shares by the mark less its price, at 100 micro-dollars a tick, and for
-- each with one its signed shares by twice the mark less the doubled mark, at 50, where the mark is
-- the doubled mark halved towards zero and narrowed to 32 bits.
pub reconciliation_error-run :
    (schedule : FeeSchedule) (two_mark : ℤ) (ss : List Step)
    → reconciliation_error two_mark (run ss (make_ledger schedule))
      ≡ run_error two_mark (to_int32 (quot two_mark (pos 2))) ss
unfolding reconciliation_error settled
reconciliation_error-run schedule two_mark ss =
    let mark = to_int32 (quot two_mark (pos 2)) in
    run-settled two_mark mark ss (make_ledger schedule)
    ∙ ap (λ x. x +ℤ run_error two_mark mark ss) (empty-settled two_mark mark schedule)
    ∙ ext _ _ (omega sum_laws)
