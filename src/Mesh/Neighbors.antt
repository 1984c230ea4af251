-- ===== src/Mesh/Neighbors.antt =====
-- SolverUtils/src/Mesh.C: `Connectivity::GetNeighborhood` into a table, `GetAdjacent` and `ElementsOn`.
-- `dc` is the dual table, which gives for each node the elements it belongs to; `added` has a flag for
-- each element.
pub mod Gathered
pub mod Shared
pub mod Unique
use impact.Prelude.{
  ℕ, zero, suc, ◌-◌, Bool, true, false, List, [], ◌∷◌, ◌++◌, set, leb, ◌==◌, if◌then◌else◌,
}
use impact.Mesh.Table.{Run, done, stopped, undefined, ◌>>=◌, Connectivity, at_id, resize_to}
use impact.Mesh.Dual.{nnodes_of}

-- `added` and `nbrlist` of one element.
pub record Gathering : Type 0 where
  pub added : List Bool
  pub nbrs : List ℕ

-- if (!added[ai]) { nbrlist.push_back(*dci); added[ai] = true; }
unfoldable pub gather_id : ℕ → Bool → Gathering → Gathering
gather_id id was s =
    if was then s else record { added = set s.added (id - 1) true; nbrs = s.nbrs ++ id ∷ [] }

unfoldable pub gather_row : List ℕ → Gathering → Run Gathering
gather_row [] s = done s
gather_row (id ∷ row) s = do was ← at_id s.added id; gather_row row (gather_id id was s)

-- The loop over the nodes of the element.
unfoldable pub gather : List ℕ → List (List ℕ) → Gathering → Run Gathering
gather [] dc s = done s
gather (v ∷ nodes) dc s = do row ← at_id dc v; s' ← gather_row row s; gather nodes dc s'

-- nbrlist.sort()
unfoldable pub insert_sorted : ℕ → List ℕ → List ℕ
insert_sorted v [] = v ∷ []
insert_sorted v (x ∷ xs) = let rest = insert_sorted v xs in if leb v x then v ∷ x ∷ xs else x ∷ rest

unfoldable pub sort_ids : List ℕ → List ℕ
sort_ids [] = []
sort_ids (x ∷ xs) = insert_sorted x (sort_ids xs)

-- nbrlist.remove(current_element)
unfoldable pub remove_id : ℕ → List ℕ → List ℕ
remove_id v [] = []
remove_id v (x ∷ xs) = let rest = remove_id v xs in if v == x then rest else x ∷ rest

-- while (si != nbrlist.end()) added[*si - 1] = false;
unfoldable pub clear_added : List ℕ → List Bool → Run (List Bool)
clear_added [] added = done added
clear_added (id ∷ ids) added = do was ← at_id added id; clear_added ids (set added (id - 1) false)

abbrev pub in_order : Bool → List ℕ → List ℕ
in_order sortit xs = if sortit then sort_ids xs else xs

abbrev pub without_self : Bool → ℕ → List ℕ → List ℕ
without_self exclude i xs = if exclude then remove_id (suc i) xs else xs

abbrev pub unmark_self : Bool → ℕ → List Bool → List Bool
unmark_self exclude i added = if exclude then set added i false else added

-- The loop over the elements, with `n` elements from `i` on.
unfoldable pub neighbor_rows :
    (exclude sortit : Bool) (n i : ℕ) (rows dc : List (List ℕ)) → List Bool → Run (List (List ℕ))
neighbor_rows exclude sortit zero i rows dc added = done []
neighbor_rows exclude sortit (suc n) i [] dc added = stopped undefined
neighbor_rows exclude sortit (suc n) i (row ∷ rows) dc added = do
  s ← gather row dc (record { added = added; nbrs = [] })
  added' ←
      clear_added (without_self exclude i (in_order sortit s.nbrs)) (unmark_self exclude i s.added)
  rest ← neighbor_rows exclude sortit n (suc i) rows dc added'
  done (without_self exclude i (in_order sortit s.nbrs) ∷ rest)

-- void GetNeighborhood(Connectivity &rl, Connectivity &dc, bool exclude_self, bool sortit)
unfoldable pub get_neighborhood :
    (exclude sortit : Bool) → Connectivity → Connectivity → Connectivity → Run Connectivity
get_neighborhood exclude sortit c dc rl = do
  rows ← neighbor_rows exclude sortit c.nelem 0 c.rows dc.rows (resize_to c.nelem false [])
  done (record rl { nelem = c.nelem; rows = rows })

-- void GetAdjacent(Connectivity &rl, Connectivity &dc, Mesh::IndexType n, bool sortit)
unfoldable pub get_adjacent :
    (fuel n : ℕ) → Bool → Connectivity → Connectivity → Connectivity → Run Connectivity
get_adjacent fuel n sortit c dc rl = do
  nadj ← nnodes_of fuel n dc.rows
  rows ← neighbor_rows false sortit c.nelem 0 c.rows dc.rows (resize_to nadj false [])
  done (record rl { nelem = c.nelem; rows = rows })

-- alist.push_back(*dci++) for the rows of all nodes
unfoldable pub rows_of : List ℕ → List (List ℕ) → Run (List ℕ)
rows_of [] dc = done []
rows_of (v ∷ nodes) dc = do row ← at_id dc v; rest ← rows_of nodes dc; done (row ++ rest)

-- alist.unique(), after an entry `x`
unfoldable pub unique_after : ℕ → List ℕ → List ℕ
unique_after x [] = []
unique_after x (y ∷ ys) = let rest = unique_after y ys in if x == y then rest else y ∷ rest

unfoldable pub unique : List ℕ → List ℕ
unique [] = []
unique (x ∷ xs) = x ∷ unique_after x xs

-- void ElementsOn(std::vector<...> &nodes, Connectivity &dc, std::vector<...> &subset)
unfoldable pub elements_on : List ℕ → Connectivity → Run (List ℕ)
elements_on nodes dc = do alist ← rows_of nodes dc.rows; done (unique (sort_ids alist))
