-- ===== src/Mesh/Modes.antt =====
-- SolverUtils/src/Mesh.C: `Connectivity::graph_mode`, which takes from each row of a graph the row's own
-- number, and `matrix_mode`, which enters it. `std::lower_bound` of an ascending row is the first
-- position whose entry is not below the value; `erase` at the end of a row is undefined.
pub mod Inverse
use impact.Prelude.{ℕ, suc, ◌+◌, List, [], ◌∷◌, ltb, if◌then◌else◌}
use impact.Mesh.Table.{Run, done, stopped, undefined, ◌>>=◌, Connectivity}

-- ci->erase(std::lower_bound(ci->begin(), ci->end(), v))
unfoldable pub erase_bound : ℕ → List ℕ → Run (List ℕ)
erase_bound v [] = stopped undefined
erase_bound v (x ∷ row) =
    let rest = erase_bound v row in if ltb x v then (do row' ← rest; done (x ∷ row')) else done row

-- ci->insert(std::lower_bound(ci->begin(), ci->end(), v), 1, v)
unfoldable pub insert_bound : ℕ → List ℕ → List ℕ
insert_bound v [] = v ∷ []
insert_bound v (x ∷ row) =
    let rest = insert_bound v row in if ltb x v then x ∷ rest else v ∷ x ∷ row

-- The loops over the rows; `v` is `offset + n`.
unfoldable pub graph_rows : ℕ → List (List ℕ) → Run (List (List ℕ))
graph_rows v [] = done []
graph_rows v (row ∷ rows) = do
  row' ← erase_bound v row
  rows' ← graph_rows (suc v) rows
  done (row' ∷ rows')

unfoldable pub matrix_rows : ℕ → List (List ℕ) → List (List ℕ)
matrix_rows v [] = []
matrix_rows v (row ∷ rows) = insert_bound v row ∷ matrix_rows (suc v) rows

-- void graph_mode(Mesh::IndexType offset)
unfoldable pub graph_mode : ℕ → Connectivity → Run Connectivity
graph_mode offset c = do rows ← graph_rows (offset + 1) c.rows; done (record c { rows = rows })

-- void matrix_mode(Mesh::IndexType offset)
unfoldable pub matrix_mode : ℕ → Connectivity → Connectivity
matrix_mode offset c = record c { rows = matrix_rows (offset + 1) c.rows }
