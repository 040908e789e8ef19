-- ===== src/Book/Mutate/Refused.antt =====
-- A reference that does not name an order of the book: nothing changes but its counter.
use itchbook.Base.{
  ℕ, ◌≡◌, refl, sym, subst, ◌∙◌, inl, inr, Bool, true, false, none, some, arith, ◌==◌,
  if◌then◌else◌, Bool-cases,
}
use itchbook.Book.Order.{Ptr, null}
use itchbook.Book.RefMap.{Probe, found, vacant, lost, probe_map, find_index, slot_ptr, find}
use itchbook.Book.RefMap.Table.{Ends}
use itchbook.Book.RefMap.Find.{IsMap, probe_map-Ends}
use itchbook.Book.State.{State}
use itchbook.Book.Mutate.{
  unknown, mismatch, lookup, resolving, count_unknown, count_mismatch, execute, execute_with_price,
  cancel, take, remove, replace, find_order,
}

resolving_unknown :
    (st : State) (ref : ℕ) (k : ℕ → State)
    → lookup st ref ≡ unknown
    → resolving st ref k ≡ count_unknown st
unfolding resolving
resolving_unknown st ref k e = rw (e, resolving) refl

resolving_mismatch :
    (st : State) (ref : ℕ) (k : ℕ → State)
    → lookup st ref ≡ mismatch
    → resolving st ref k ≡ count_mismatch st
unfolding resolving
resolving_mismatch st ref k e = rw (e, resolving) refl

module _ (st : State) (ref : ℕ) where
  -- What every operation on a reference makes of the state.
  abbrev pub AllGive : State → Type 0
  AllGive st' =
      ((shares : ℕ) → execute st ref shares ≡ st')
      × ((shares price : ℕ) (printable : Bool)
          → execute_with_price st ref shares price printable ≡ st')
      × ((shares : ℕ) → cancel st ref shares ≡ st')
      × ((shares : ℕ) → take st ref shares ≡ st')
      × (remove st ref ≡ st')
      × ((new_ref price shares : ℕ) (chunk : Ptr) → replace st ref new_ref price shares chunk ≡ st')

  all_give : (st' : State) → ((k : ℕ → State) → resolving st ref k ≡ st') → AllGive st'
  unfolding execute execute_with_price cancel take remove replace
  all_give st' f = (
    (λ shares. f _),
    (λ shares price printable. f _),
    (λ shares. f _),
    (λ shares. f _),
    f _,
    (λ new_ref price shares chunk. f _),
  )

  ours :
      (find st.refs ref == null) ≡ false
      → ((st.heap (find st.refs ref)).locate == st.book.locate) ≡ true
      → find_order st ref ≡ find st.refs ref
  unfolding find_order find
  ours t y = rw (t, y, find_order) refl

  lookup_by :
      (i : ℕ)
      → find_index st.refs ref ≡ some i
      → (slot_ptr st.refs i == null) ≡ false
      → find_order st ref ≡ null
      → lookup st ref ≡ mismatch
  unfolding find lookup
  lookup_by i f t n =
      let g : find st.refs ref ≡ slot_ptr st.refs i = rw (f, find) refl in
      elim (Bool-cases ((st.heap (slot_ptr st.refs i)).locate == st.book.locate)) [
        | inl y ↦ absurd (
            let z : slot_ptr st.refs i ≡ null = sym g ∙ sym (ours (rw g t) (rw g y)) ∙ n in
            ground arith)
        | inr y ↦ rw (f, y, lookup) refl
      ]

  unknown_gives : lookup st ref ≡ unknown → AllGive (count_unknown st)
  unknown_gives e = all_give (count_unknown st) (λ k. resolving_unknown st ref k e)

  mismatch_gives : lookup st ref ≡ mismatch → AllGive (count_mismatch st)
  mismatch_gives e = all_give (count_mismatch st) (λ k. resolving_mismatch st ref k e)

  -- The state of a refusal: one counter is raised.
  abbrev pub refusal : State
  refusal = if find st.refs ref == null then count_unknown st else count_mismatch st

  refusal_is :
      (b : Bool)
      → (find st.refs ref == null) ≡ b
      → AllGive (if b then count_unknown st else count_mismatch st)
      → AllGive refusal
  refusal_is b e g =
      subst (λ t. AllGive (if t then count_unknown st else count_mismatch st)) (sym e) g

  refuse_by :
      (q : Probe)
      → probe_map st.refs ref ≡ q
      → Ends st.refs.slot_count st.refs.mask st.refs.slots ref q
      → find_order st ref ≡ null
      → AllGive refusal
  unfolding find_index find lookup
  refuse_by (found i) e (b, o, k) n =
      let f : find_index st.refs ref ≡ some i = rw (e, find_index) refl in
      let t : (slot_ptr st.refs i == null) ≡ false = ground arith in
      let g : (find st.refs ref == null) ≡ false = rw (f, find) t in
      refusal_is false g (mismatch_gives (lookup_by i f t n))
  refuse_by (vacant i) e d n =
      let f : find_index st.refs ref ≡ none = rw (e, find_index) refl in
      let g : (find st.refs ref == null) ≡ true = rw (f, find) refl in
      refusal_is true g (unknown_gives (rw (f, lookup) refl))
  refuse_by lost e d n = absurd d

  -- On a well-formed map, where `find` gives the book no order, execute, execute_with_price,
  -- cancel, take, remove and replace change nothing but one counter: `unknown_ref` if no order has
  -- the reference, `locate_mismatch` if one of another book has it.
  pub refuse_lem : IsMap st.refs → find_order st ref ≡ null → AllGive refusal
  refuse_lem v = refuse_by (probe_map st.refs ref) refl (probe_map-Ends st.refs ref v)
