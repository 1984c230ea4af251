-- ===== src/Sim/Topo/Cycle.antt =====
-- `topological_sort` on graphs with and without cycles.
use impact.Prelude.{
  ℕ, zero, suc, ◌<◌, ◌≡◌, refl, some, List, [], ◌∷◌, ◌++◌, slot, In, In-append, arith, inl, inr,
}
use impact.Sim.Item.{Heap, n_read, cycle_detected, ok, err}
use impact.Sim.Topo.{topological_sort, resolved}
use impact.Sim.Topo.Order.{IsSortedFrom, placed_complete, topological_sort-IsSortedFrom}
use impact.Sim.Topo.Total.{IsClosed, Ends, is_ready-false, topological_sort-Ends}

-- `rank` puts the item at each input of an item of `actions` below that item.
abbrev pub IsRanked : (ℕ → ℕ) → Heap → List ℕ → Type 0
IsRanked rank h actions =
    (p i q : ℕ) → In p actions → i < n_read (h p) → slot (h p).input i ≡ some q → rank q < rank p

module _ (h : Heap) (actions : List ℕ) (closed : IsClosed h actions) where
  -- An item that is left waits for another that is left, of a lower rank.
  descent :
      (rank : ℕ → ℕ) (s left : List ℕ)
      → IsRanked rank h actions
      → Ends h actions s left
      → (n p : ℕ) → In p left
      → ¬ (rank p < n)
  descent rank s left ranked ends zero p m lt = absurd (omega arith)
  descent rank s left ranked ends (suc n) p m lt =
      let (i, q, bound, at, absent) = is_ready-false h s p (ends.stuck p m) in
      let below : rank q < rank p = ranked p i q (ends.given p m) bound at in
      elim (ends.cover q (closed.inside p i q (ends.given p m) at)) [
        | inl sorted ↦ cc (placed_complete h q s sorted)
        | inr waits ↦ descent rank s left ranked ends n q waits (omega arith)
      ]

-- Where every read is linked to an item of `actions` and some rank falls along every link, the sort
-- is returned: no abort for a cycle, no null input dereferenced, and the loop ends in its rounds.
pub topological_sort_total :
    (h : Heap) (actions : List ℕ) (rank : ℕ → ℕ)
    → IsClosed h actions
    → IsRanked rank h actions
    → (s : List ℕ) × (topological_sort h actions [] ≡ ok s)
topological_sort_total h actions rank closed ranked =
    let (s, left, e, ends) = topological_sort-Ends h actions closed in finish s left e ends
  where
    finish :
        (s left : List ℕ)
        → topological_sort h actions [] ≡ resolved (s, left)
        → Ends h actions s left
        → (t : List ℕ) × (topological_sort h actions [] ≡ ok t)
    finish s [] e ends = (s, e)
    finish s (p ∷ left) e ends = absurd (
        descent h actions closed rank s (p ∷ left) ranked ends (suc (rank p)) p (inl refl)
          (omega arith))

-- The actions of `cyc` wait for one another: an item of `actions` with such an action has an input
-- with such an action.
abbrev pub IsCyclic : Heap → List ℕ → List ℕ → Type 0
IsCyclic h actions cyc =
    (p : ℕ)
    → In p actions
    → In (h p).myaction cyc
    → (i : ℕ) × (q : ℕ) × (i < n_read (h p)) × (slot (h p).input i ≡ some q) × In (h q).myaction cyc

not-In-IsSortedFrom :
    (h : Heap) (actions cyc seen s : List ℕ)
    → IsCyclic h actions cyc
    → ((p : ℕ) → In p s → In p actions)
    → ((p : ℕ) → In p seen → ¬ In (h p).myaction cyc)
    → IsSortedFrom h seen s
    → (p : ℕ) → In p s
    → ¬ In (h p).myaction cyc
not-In-IsSortedFrom h actions cyc seen [] c sub clear o p m = absurd m
not-In-IsSortedFrom h actions cyc seen (x ∷ s) c sub clear o p m = elim m [
  | inl e ↦ rw e first
  | inr k ↦
      not-In-IsSortedFrom h actions cyc (seen ++ x ∷ []) s c (λ q l. sub q (inr l)) later o.1 p k
]
  where
    first : ¬ In (h x).myaction cyc
    first w =
        let (i, q, bound, at, inside) = c x (sub x (inl refl)) w in
        let (t, there, same) = o.0 i q bound at in clear t there (rw same inside)

    later : (q : ℕ) → In q (seen ++ x ∷ []) → ¬ In (h q).myaction cyc
    later q l = elim (In-append q seen (x ∷ []) l) [
      | inl old ↦ clear q old
      | inr (inl e) ↦ rw e first
      | inr (inr no_more) ↦ absurd no_more
    ]

-- Where every read is linked to an item of `actions` and some of the actions wait for one another,
-- the sort aborts for a cycle.
pub topological_sort-cycle :
    (h : Heap) (actions cyc : List ℕ) (p : ℕ)
    → IsClosed h actions
    → IsCyclic h actions cyc
    → In p actions
    → In (h p).myaction cyc
    → topological_sort h actions [] ≡ err cycle_detected
topological_sort-cycle h actions cyc p closed cyclic m w =
    let (s, left, e, ends) = topological_sort-Ends h actions closed in finish s left e ends
  where
    finish :
        (s left : List ℕ)
        → topological_sort h actions [] ≡ resolved (s, left)
        → Ends h actions s left
        → topological_sort h actions [] ≡ err cycle_detected
    finish s (q ∷ left) e ends = e
    finish s [] e ends = elim (ends.cover p m) [
      | inr none_left ↦ absurd none_left
      | inl sorted ↦ absurd (
          not-In-IsSortedFrom h actions cyc [] s cyclic ends.origin (λ q l. absurd l)
            (topological_sort-IsSortedFrom h actions s e).1 p sorted w)
    ]
