-- ===== src/Mesh/Dual.antt =====
-- SolverUtils/src/Mesh.C: `Connectivity::Inverse` and `InverseDegenerate`, the table that gives for
-- each node the elements it belongs to. SolverUtils/include/Mesh.H: `MaxNodeId`, whose loop over the
-- rows does not move its iterator on; the fuel counts its rounds.
pub mod Counts
pub mod Inverse
use impact.Prelude.{ℕ, zero, suc, List, [], ◌∷◌, ◌++◌, length, ltb, ◌==◌, if◌then◌else◌}
use impact.Mesh.Table.{
  Run, done, stopped, undefined, unfinished, ◌>>=◌, Connectivity, resize_rows, sync,
}

-- while (li != lci->end()) { if (maxid < *li) maxid = *li; li++; }
unfoldable pub max_of_row : List ℕ → ℕ → ℕ
max_of_row [] maxid = maxid
max_of_row (v ∷ row) maxid = max_of_row row (if ltb maxid v then v else maxid)

-- MaxNodeId(const ListContainerType &fc), from the row at `lci`
unfoldable pub max_node_id : ℕ → List (List ℕ) → ℕ → Run ℕ
max_node_id fuel [] maxid = done maxid
max_node_id zero (row ∷ rows) maxid = stopped unfinished
max_node_id (suc fuel) (row ∷ rows) maxid = max_node_id fuel (row ∷ rows) (max_of_row row maxid)

-- rc[v - 1].push_back(x)
unfoldable pub push_at_id : List (List ℕ) → ℕ → ℕ → Run (List (List ℕ))
push_at_id rc zero x = stopped undefined
push_at_id [] (suc v) x = stopped undefined
push_at_id (row ∷ rc) (suc zero) x = done ((row ++ x ∷ []) ∷ rc)
push_at_id (row ∷ rc) (suc (suc v)) x = do rest ← push_at_id rc (suc v) x; done (row ∷ rest)

-- The inner loop, over the nodes of the element `e`.
unfoldable pub invert_row : List ℕ → ℕ → List (List ℕ) → Run (List (List ℕ))
invert_row [] e rc = done rc
invert_row (v ∷ row) e rc = do rc' ← push_at_id rc v e; invert_row row e rc'

-- The outer loop: `n` elements are left, of which `e` is the first.
unfoldable pub invert_rows : ℕ → ℕ → List (List ℕ) → List (List ℕ) → Run (List (List ℕ))
invert_rows zero e rows rc = done rc
invert_rows (suc n) e [] rc = stopped undefined
invert_rows (suc n) e (row ∷ rows) rc = do rc' ← invert_row row e rc; invert_rows n (suc e) rows rc'

abbrev pub nnodes_of : ℕ → ℕ → List (List ℕ) → Run ℕ
nnodes_of fuel zero rows = max_node_id fuel rows 0
nnodes_of fuel (suc n) rows = done (suc n)

-- void Inverse(Connectivity &rc, Mesh::IndexType nnodes) const
unfoldable pub inverse : ℕ → ℕ → Connectivity → Connectivity → Run Connectivity
inverse fuel nnodes c rc = do
  n ← nnodes_of fuel nnodes c.rows
  rows ← invert_rows c.nelem 1 c.rows (sync (resize_rows n rc)).rows
  done (record (sync (resize_rows n rc)) { rows = rows })

abbrev pub unless_degenerate : List ℕ → List ℕ
unless_degenerate row = if ltb 1 (length row) then row else []

-- The outer loop of `InverseDegenerate`.
unfoldable pub invert_proper_rows : ℕ → ℕ → List (List ℕ) → List (List ℕ) → Run (List (List ℕ))
invert_proper_rows zero e rows rc = done rc
invert_proper_rows (suc n) e [] rc = stopped undefined
invert_proper_rows (suc n) e (row ∷ rows) rc = do
  rc' ← invert_row (unless_degenerate row) e rc
  invert_proper_rows n (suc e) rows rc'

-- void InverseDegenerate(Connectivity &rc, Mesh::IndexType nnodes) const
unfoldable pub inverse_degenerate : ℕ → ℕ → Connectivity → Connectivity → Run Connectivity
inverse_degenerate fuel nnodes c rc = do
  n ← nnodes_of fuel nnodes c.rows
  rows ← invert_proper_rows c.nelem 1 c.rows (sync (resize_rows n rc)).rows
  done (record (sync (resize_rows n rc)) { rows = rows })
