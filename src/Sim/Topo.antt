-- ===== src/Sim/Topo.antt =====
-- SIM/src/DDGScheduler.C: `DDGScheduler::topological_sort`.
-- The pool loses one item in each round that goes on, so its length bounds the rounds.
pub mod Order
pub mod Total
pub mod Cycle
use impact.Prelude.{
  ℕ, zero, suc, String, Bool, true, false, ◌||◌, Option, none, some, List, [], ◌∷◌, ◌++◌, length,
  ◌==◌, if◌then◌else◌,
}
use impact.Sim.Item.{Heap, n_read, cycle_detected, bad_access, out_of_fuel, Result, ok, err, ◌>>=◌}

-- The search for an upstream action in `sort`, by the `Action *`.
unfoldable pub placed : Heap → ℕ → List ℕ → Bool
placed h a [] = false
placed h a (s ∷ sort) = (h s).myaction == a || placed h a sort

-- The loop over the inputs, up to the first whose action is not placed. A null input would be
-- dereferenced.
unfoldable pub inputs_placed : Heap → List ℕ → List String → List (Option ℕ) → Result Bool
inputs_placed h sort [] slots = ok true
inputs_placed h sort (a ∷ attrs) [] = err bad_access
inputs_placed h sort (a ∷ attrs) (none ∷ slots) = err bad_access
inputs_placed h sort (a ∷ attrs) (some q ∷ slots) =
    if placed h (h q).myaction sort then inputs_placed h sort attrs slots else ok false

unfoldable pub is_ready : Heap → List ℕ → ℕ → Result Bool
is_ready h sort p =
    if n_read (h p) == 0 then ok true else inputs_placed h sort (h p).read_attr (h p).input

abbrev pub put_back : ℕ → Option (ℕ × List ℕ) → Option (ℕ × List ℕ)
put_back p none = none
put_back p (some (x, rest)) = some (x, p ∷ rest)

-- The first item of the pool that can be added, with the pool after `pool.erase(aitem)`.
unfoldable pub find_ready : Heap → List ℕ → List ℕ → Result (Option (ℕ × List ℕ))
find_ready h sort [] = ok none
find_ready h sort (p ∷ pool) = do
  ready ← is_ready h sort p
  elim ready [
    | true ↦ ok (some (p, pool))
    | false ↦ do found ← find_ready h sort pool; ok (put_back p found)
  ]

-- `while (!pool.empty())`: the sort and what is left of the pool.
unfoldable pub topo_loop : ℕ → Heap → List ℕ → List ℕ → Result (List ℕ × List ℕ)
topo_loop fuel h sort [] = ok (sort, [])
topo_loop zero h sort (p ∷ pool) = err out_of_fuel
topo_loop (suc fuel) h sort (p ∷ pool) = do
  found ← find_ready h sort (p ∷ pool)
  elim found [
    | none ↦ ok (sort, p ∷ pool)
    | some (x, rest) ↦ topo_loop fuel h (sort ++ x ∷ []) rest
  ]

abbrev pub resolved : List ℕ × List ℕ → Result (List ℕ)
resolved (sort, []) = ok sort
resolved (sort, p ∷ pool) = err cycle_detected

-- `sort` is the member that the loop appends to.
unfoldable pub topological_sort : Heap → List ℕ → List ℕ → Result (List ℕ)
topological_sort h actions sort = do left ← topo_loop (length actions) h sort actions; resolved left
