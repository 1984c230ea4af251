-- ===== src/Mesh/Orient.antt =====
-- SolverUtils/src/Mesh.C: `ReOrient` of `GenericCell_2` and of `GenericElement`, on the nodes of an
-- element, assignment by assignment. `_size` is the number of nodes of the element.
pub mod Twice
use impact.Prelude.{ℕ, zero, suc, List, [], ◌∷◌, ◌||◌, ◌==◌, if◌then◌else◌}
use impact.Mesh.Table.{Run, done, stopped, undefined, assert_failed, ◌>>=◌, at}

-- ec[i] = v
unfoldable pub put : ℕ → ℕ → List ℕ → Run (List ℕ)
put i v [] = stopped undefined
put zero v (x ∷ ec) = done (v ∷ ec)
put (suc i) v (x ∷ ec) = do rest ← put i v ec; done (x ∷ rest)

-- temp = ec[i]; ec[i] = ec[j]; ec[j] = temp;
unfoldable pub swap : (i j : ℕ) → List ℕ → Run (List ℕ)
swap i j ec = do temp ← at ec i; v ← at ec j; ec' ← put i v ec; put j temp ec'

-- temp = ec[i]; ec[i] = ec[j]; ec[j] = ec[i];
unfoldable pub overwrite : (i j : ℕ) → List ℕ → Run (List ℕ)
overwrite i j ec = do temp ← at ec i; v ← at ec j; ec' ← put i v ec; v' ← at ec' i; put j v' ec'

-- void GenericCell_2::ReOrient(std::vector<Mesh::IndexType> &ec)
unfoldable pub re_orient_cell : ℕ → List ℕ → Run (List ℕ)
re_orient_cell size ec =
    if size == 3
    then swap 0 1 ec
    else if size == 4
    then (do ec' ← swap 0 1 ec; swap 2 3 ec')
    else stopped assert_failed

-- void GenericElement::ReOrient(std::vector<Mesh::IndexType> &ec)
unfoldable pub re_orient : ℕ → List ℕ → Run (List ℕ)
re_orient size ec =
    if size == 4 || size == 10
    then swap 1 0 ec
    else if size == 5 || size == 13
    then overwrite 2 0 ec
    else if size == 6 || size == 15
    then (do ec' ← overwrite 1 0 ec; swap 4 3 ec')
    else if size == 8 || size == 20
    then (do ec' ← overwrite 2 0 ec; swap 6 4 ec')
    else done ec
