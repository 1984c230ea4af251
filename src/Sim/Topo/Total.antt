-- ===== src/Sim/Topo/Total.antt =====
-- How the loop of `topological_sort` ends, and what it leaves in the pool.
use impact.Prelude.{
  subst, ℕ, zero, suc, ◌≤◌, ◌<◌, ◌≡◌, refl, sym, ap, ◌∙◌, String, Bool, true, false, Option, none,
  some, List, [], ◌∷◌, ◌++◌, length, slot, In, In-append_left, In-append_right, In-append, arith,
  ◌==◌, Bool-cases, Option-cases, ◌⊎◌, inl, inr,
}
use native.Mathlib.Nat.{le_refl}
use impact.Sim.Item.{Heap, n_read, all_linked, ok}
use impact.Sim.Topo.{
  placed, inputs_placed, is_ready, put_back, find_ready, topo_loop, resolved, topological_sort,
}

-- Every read of an item of `actions` is linked to an item of `actions`.
pub record IsClosed (h : Heap) (actions : List ℕ) : Type 0 where
  pub linked : (p : ℕ) → In p actions → all_linked (h p).read_attr (h p).input ≡ true
  pub inside : (p i q : ℕ) → In p actions → slot (h p).input i ≡ some q → In q actions

inputs_placed_total :
    (h : Heap) (sort : List ℕ) (attrs : List String) (slots : List (Option ℕ))
    → all_linked attrs slots ≡ true
    → (b : Bool) × (inputs_placed h sort attrs slots ≡ ok b)
unfolding inputs_placed all_linked
inputs_placed_total h sort [] slots l = (true, refl)
inputs_placed_total h sort (a ∷ attrs) [] l = cc
inputs_placed_total h sort (a ∷ attrs) (none ∷ slots) l = cc
inputs_placed_total h sort (a ∷ attrs) (some q ∷ slots) l =
    elim (Bool-cases (placed h (h q).myaction sort)) [
      | inl there ↦ rw there (inputs_placed_total h sort attrs slots l)
      | inr absent ↦ (false, rw absent)
    ]

-- An item that is not ready has an input whose action is not placed.
inputs_placed-false :
    (h : Heap) (sort : List ℕ) (attrs : List String) (slots : List (Option ℕ))
    → inputs_placed h sort attrs slots ≡ ok false
    → (i : ℕ) × (q : ℕ) × (i < length attrs)
      × (slot slots i ≡ some q)
      × (placed h (h q).myaction sort ≡ false)
unfolding inputs_placed
inputs_placed-false h sort [] slots e = cc
inputs_placed-false h sort (a ∷ attrs) [] e = cc
inputs_placed-false h sort (a ∷ attrs) (none ∷ slots) e = cc
inputs_placed-false h sort (a ∷ attrs) (some q ∷ slots) e =
    elim (Bool-cases (placed h (h q).myaction sort)) [
      | inl there ↦
          let (i, r, lt, at, f) = inputs_placed-false h sort attrs slots (rw there at e) in
          (suc i, r, omega arith, at, f)
      | inr absent ↦ (zero, q, omega arith, refl, absent)
    ]

is_ready_total :
    (h : Heap) (sort : List ℕ) (p : ℕ)
    → all_linked (h p).read_attr (h p).input ≡ true
    → (b : Bool) × (is_ready h sort p ≡ ok b)
unfolding is_ready
is_ready_total h sort p l = elim (Bool-cases (n_read (h p) == 0)) [
  | inl root ↦ (true, rw root)
  | inr reads ↦ rw reads (inputs_placed_total h sort (h p).read_attr (h p).input l)
]

pub is_ready-false :
    (h : Heap) (sort : List ℕ) (p : ℕ)
    → is_ready h sort p ≡ ok false
    → (i : ℕ) × (q : ℕ) × (i < n_read (h p))
      × (slot (h p).input i ≡ some q)
      × (placed h (h q).myaction sort ≡ false)
unfolding is_ready
is_ready-false h sort p e = elim (Bool-cases (n_read (h p) == 0)) [
  | inl root ↦ cc (rw root at e)
  | inr reads ↦ inputs_placed-false h sort (h p).read_attr (h p).input (rw reads at e)
]

-- What a search of the pool finds: nothing that is ready, or one item and all the others.
abbrev Found : Heap → List ℕ → List ℕ → Option (ℕ × List ℕ) → Type 0
Found h sort pool none = (p : ℕ) → In p pool → is_ready h sort p ≡ ok false
Found h sort pool (some (x, rest)) =
    (length pool ≡ suc (length rest))
    × ((p : ℕ) → In p pool → (p ≡ x) ⊎ In p rest)
    × ((p : ℕ) → In p rest → In p pool)
    × In x pool

put_back-Found :
    (h : Heap) (sort : List ℕ) (p : ℕ) (pool : List ℕ) (o : Option (ℕ × List ℕ))
    → is_ready h sort p ≡ ok false
    → Found h sort pool o
    → Found h sort (p ∷ pool) (put_back p o)
put_back-Found h sort p pool none r f = λ q m. elim m [ inl e ↦ rw e r | inr k ↦ f q k ]
put_back-Found h sort p pool (some (x, rest)) r f = (
  omega (arith, f.0),
  λ q m. elim m [
    | inl e ↦ inr (inl e)
    | inr k ↦ elim (f.1 q k) [ inl e ↦ inl e | inr l ↦ inr (inr l) ]
  ],
  λ q m. elim m [ inl e ↦ inl e | inr k ↦ inr (f.2 q k) ],
  inr f.3,
)

find_ready_total :
    (h : Heap) (sort pool : List ℕ)
    → ((p : ℕ) → In p pool → all_linked (h p).read_attr (h p).input ≡ true)
    → (o : Option (ℕ × List ℕ)) × (find_ready h sort pool ≡ ok o) × Found h sort pool o
unfolding find_ready
find_ready_total h sort [] l = (none, refl, λ p m. absurd m)
find_ready_total h sort (p ∷ pool) l =
    let (b, r) = is_ready_total h sort p (l p (inl refl)) in
    elim (Bool-cases b) [
      | inl ready ↦ (some (p, pool), rw (r, ready) refl, (refl, λ q m. m, λ q m. inr m, inl refl))
      | inr waits ↦
          let (o, e, f) = find_ready_total h sort pool (λ q m. l q (inr m)) in
          (
            put_back p o,
            rw (r, waits) (rw e refl),
            put_back-Found h sort p pool o (r ∙ ap ok waits) f,
          )
    ]

-- How the loop ends: every item of `actions` is sorted or left, and what is left is not ready.
pub record Ends (h : Heap) (actions s left : List ℕ) : Type 0 where
  pub cover : (p : ℕ) → In p actions → In p s ⊎ In p left
  pub given : (p : ℕ) → In p left → In p actions
  pub origin : (p : ℕ) → In p s → In p actions
  pub stuck : (p : ℕ) → In p left → is_ready h s p ≡ ok false

module _ (h : Heap) (actions : List ℕ) (closed : IsClosed h actions) where
  topo_loop-Ends :
      (fuel : ℕ) (sort pool : List ℕ)
      → length pool ≤ fuel
      → ((p : ℕ) → In p actions → In p sort ⊎ In p pool)
      → ((p : ℕ) → In p pool → In p actions)
      → ((p : ℕ) → In p sort → In p actions)
      → (s : List ℕ) × (left : List ℕ) × (topo_loop fuel h sort pool ≡ ok (s, left))
        × Ends h actions s left
  unfolding topo_loop
  topo_loop-Ends fuel sort [] n cov sub org =
      (sort, [], refl, record { cover = cov; given = sub; origin = org; stuck = λ p m. absurd m })
  topo_loop-Ends zero sort (p ∷ pool) n cov sub org = absurd (omega arith)
  topo_loop-Ends (suc fuel) sort (p ∷ pool) n cov sub org =
      let (o, e, f) = find_ready_total h sort (p ∷ pool) (λ q m. closed.linked q (sub q m)) in
      elim (Option-cases o) [
        | inl nothing ↦ (
          sort,
          p ∷ pool,
          rw (e, nothing) refl,
          record {
            cover = cov;
            given = sub;
            origin = org;
            stuck = subst (Found h sort (p ∷ pool)) nothing f;
          },
        )
        | inr ((x, rest), it) ↦
            let (n', keeps, less, picked) = subst (Found h sort (p ∷ pool)) it f in
            rw (e, it)
              (topo_loop-Ends fuel (sort ++ x ∷ []) rest (omega arith)
                (λ q m. elim (cov q m) [
                  | inl done ↦ inl (In-append_left q sort (x ∷ []) done)
                  | inr waits ↦ elim (keeps q waits) [
                    | inl here ↦ inl (In-append_right q sort (x ∷ []) (inl here))
                    | inr there ↦ inr there
                  ]
                ])
                (λ q m. sub q (less q m))
                (λ q m. elim (In-append q sort (x ∷ []) m) [
                  | inl old ↦ org q old
                  | inr (inl new) ↦ sub q (subst (λ y. In y (p ∷ pool)) (sym new) picked)
                  | inr (inr no_more) ↦ absurd no_more
                ]))
      ]

  pub topological_sort-Ends :
      (s : List ℕ) × (left : List ℕ) × (topological_sort h actions [] ≡ resolved (s, left))
      × Ends h actions s left
  unfolding topological_sort
  topological_sort-Ends =
      let (s, left, e, d) =
        topo_loop-Ends (length actions) [] actions (le_refl _) (λ p m. inr m) (λ p m. m)
          (λ p m. absurd m) in
      (s, left, rw e refl, d)
