-- ===== src/Book/RefMap/Find.antt =====
-- `find` reads the map that the entries make up.
use itchbook.Base.{ℕ, ◌≡◌, refl, sym, ◌∙◌, ◌≢◌}
use native.Mathlib.Decide.{ℕ_discrete}
use itchbook.Book.Order.{Ptr, null}
use itchbook.Book.RefMap.{RefMap, Probe, found, vacant, lost, probe_map, find}
use itchbook.Book.RefMap.Table.{Entry, Ends, IsTable, probe-Table, found_entry}

abbrev pub IsMap : RefMap → Type 0
IsMap m = IsTable m.slot_count m.mask m.size m.slots

-- The reference `r` is mapped to the node `o`.
abbrev pub Holds : RefMap → ℕ → Ptr → Type 0
Holds m r o = Entry m.slot_count m.slots r o

pub probe_map-Ends :
    (m : RefMap) (r : ℕ) → IsMap m → Ends m.slot_count m.mask m.slots r (probe_map m r)
unfolding probe_map
probe_map-Ends m r v = probe-Table v r

pub Holds-find : (m : RefMap) (r : ℕ) (o : Ptr) → IsMap m → Holds m r o → o ≢ null → find m r ≡ o
unfolding find
Holds-find m r o v (x, b, e, p) n =
    let q = found_entry v r x (probe_map m r) b (λ z. n (sym p ∙ z)) e (probe_map-Ends m r v) in
    rw (q, find) p

probe-Holds :
    (m : RefMap) (r : ℕ) (o : Ptr) (q : Probe)
    → probe_map m r ≡ q
    → Ends m.slot_count m.mask m.slots r q
    → find m r ≡ o
    → o ≢ null
    → Holds m r o
unfolding find
probe-Holds m r o (found x) e (b, _, k) f n = (x, b, k, rw (e, find) at f)
probe-Holds m r o (vacant x) e d f n = absurd (n (sym (rw (e, find) at f)))
probe-Holds m r o lost e d f n = absurd d

pub find-Holds : (m : RefMap) (r : ℕ) (o : Ptr) → IsMap m → find m r ≡ o → o ≢ null → Holds m r o
find-Holds m r o v = probe-Holds m r o (probe_map m r) refl (probe_map-Ends m r v)

-- Maps that hold the same of two references find the same.
pub find-same :
    (m m' : RefMap) (r r' : ℕ)
    → IsMap m
    → IsMap m'
    → ((o : Ptr) → o ≢ null → Holds m r o → Holds m' r' o)
    → ((o : Ptr) → o ≢ null → Holds m' r' o → Holds m r o)
    → find m r ≡ find m' r'
find-same m m' r r' v v' to from = elim (ℕ_discrete (find m r) null) [
  | no k ↦ sym (Holds-find m' r' (find m r) v' (to _ k (find-Holds m r (find m r) v refl k)) k)
  | yes k ↦ elim (ℕ_discrete (find m' r') null) [
    | yes l ↦ k ∙ sym l
    | no l ↦ Holds-find m r (find m' r') v (from _ l (find-Holds m' r' (find m' r') v' refl l)) l
  ]
]
