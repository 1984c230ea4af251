-- ===== src/Mesh/Renumber.antt =====
-- SolverUtils/src/Mesh.C: `Connectivity::BreadthFirstRenumber`. The table gives for each element its
-- neighbours. The queue holds the entries from the iterator `pqi` on, and the fuel counts the rounds of
-- the loop over it.
pub mod Marks
pub mod Permutes
use impact.Prelude.{
  ℕ, zero, suc, ◌-◌, true, false, List, [], ◌∷◌, ◌++◌, set, leb, ◌==◌, if◌then◌else◌,
}
use impact.Mesh.Table.{
  Run, done, stopped, assert_failed, unfinished, ◌>>=◌, Connectivity, at, at_id, resize_to,
}

pub record Numbering : Type 0 where
  pub queue : List ℕ
  pub remap : List ℕ
  pub renumber : ℕ

-- if (remap[index] == 0) { processing_queue.push_back(index); remap[index] = renumber++; }
unfoldable pub enter : (index old : ℕ) → Numbering → Numbering
enter index old s =
    if old == 0
    then record {
      queue = s.queue ++ index ∷ [];
      remap = set s.remap index s.renumber;
      renumber = suc s.renumber;
    }
    else s

-- The loop over the neighbours of an element.
unfoldable pub visit : List ℕ → Numbering → Run Numbering
visit [] s = done s
visit (id ∷ row) s = do old ← at_id s.remap id; visit row (enter (id - 1) old s)

-- The loop over the queue, which grows at its end.
unfoldable pub drain : ℕ → List (List ℕ) → List ℕ → List ℕ → ℕ → Run Numbering
drain fuel rows [] remap renumber = done (record { queue = []; remap = remap; renumber = renumber })
drain zero rows (index ∷ queue) remap renumber = stopped unfinished
drain (suc fuel) rows (index ∷ queue) remap renumber = do
  row ← at rows index
  s ← visit row (record { queue = queue; remap = remap; renumber = renumber })
  drain fuel rows s.queue s.remap s.renumber

-- The body of the outer loop where the element at `i` has no number yet.
unfoldable pub seed_new : ℕ → ℕ → List (List ℕ) → Numbering → Run Numbering
seed_new fuel i rows s = do
  row ← at rows i
  t ← visit row (record { queue = []; remap = set s.remap i s.renumber; renumber = suc s.renumber })
  drain fuel rows t.queue t.remap t.renumber

unfoldable pub seed : ℕ → ℕ → List (List ℕ) → Numbering → Run Numbering
seed fuel i rows s = do old ← at s.remap i; if old == 0 then seed_new fuel i rows s else done s

-- The outer loop, with `left` elements from `i` on.
unfoldable pub seeds : ℕ → (left i : ℕ) → Connectivity → Numbering → Run Numbering
seeds fuel zero i c s = done s
seeds fuel (suc left) i c s = elim (leb s.renumber c.nelem) [
  | false ↦ done s
  | true ↦ do t ← seed fuel i c.rows s; seeds fuel left (suc i) c t
]

-- void BreadthFirstRenumber(std::vector<Mesh::IndexType> &remap)
unfoldable pub breadth_first_renumber : ℕ → Connectivity → List ℕ → Run (List ℕ)
breadth_first_renumber fuel c remap = do
  s ←
      seeds fuel c.nelem 0 c
        (record { queue = []; remap = resize_to c.nelem 0 remap; renumber = 1 })
  if s.renumber == suc c.nelem then done s.remap else stopped assert_failed
