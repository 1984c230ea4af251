-- ===== src/Mesh/Table.antt =====
-- SolverUtils/src/Mesh.C and SolverUtils/include/Mesh.H: the class `Connectivity`, a vector of rows
-- of identifiers with a count of its own and a cache of the sizes of its rows. An `IndexType` is an
-- unsigned number of 32 bits: `_nelem--` wraps, `_nelem++` does not, since the elements are in
-- memory, and `id - 1` for the identifier 0 is out of the range of every vector.
pub mod Cached
pub use impact.Prelude.Runs.{
  Stop, undefined, assert_failed, unfinished, Run, stopped, done, ◌>>=◌, at, at_id,
}
use impact.Prelude.{
  ℕ, zero, suc, ◌-◌, ◌^◌, Bool, true, false, ◌&&◌, List, [], ◌∷◌, ◌++◌, length, set, ltb, leb, ◌==◌,
  if◌then◌else◌,
}

pub record Connectivity : Type 0 where
  pub nelem : ℕ
  pub sizes : List ℕ
  pub rows : List (List ℕ)

-- Connectivity()
abbrev pub new_connectivity : Connectivity
new_connectivity = record { nelem = 0; sizes = []; rows = [] }

-- `v.resize(n, x)`
abbrev pub resize_to {ℓ} : {A : Type ℓ} → ℕ → A → List A → List A
resize_to zero x xs = []
resize_to (suc n) x [] = x ∷ resize_to n x []
resize_to (suc n) x (y ∷ xs) = y ∷ resize_to n x xs

-- void Resize(unsigned int N)
unfoldable pub resize_rows : ℕ → Connectivity → Connectivity
resize_rows n c = record c { rows = resize_to n [] c.rows }

-- void AddElement(const std::vector<Mesh::IndexType> &elem)
unfoldable pub add_element : List ℕ → Connectivity → Connectivity
add_element elem c = record c { nelem = suc c.nelem; rows = c.rows ++ elem ∷ [] }

-- for (int j = 0; j < nnpe; j++) inelem[j] = *ei++: the nodes of an element, and those after them
unfoldable pub read_nodes : ℕ → List ℕ → Run (List ℕ × List ℕ)
read_nodes zero elem = done ([], elem)
read_nodes (suc nnpe) [] = stopped undefined
read_nodes (suc nnpe) (v ∷ elem) = do more ← read_nodes nnpe elem; done (v ∷ more.0, more.1)

-- void AddElements(Mesh::IndexType nielem, Mesh::IndexType nnpe, const std::vector<...> &elem)
unfoldable pub add_elements : ℕ → ℕ → List ℕ → Connectivity → Run Connectivity
add_elements zero nnpe elem c = done c
add_elements (suc nielem) nnpe elem c = do
  nodes ← read_nodes nnpe elem
  add_elements nielem nnpe nodes.1 (add_element nodes.0 c)

-- void Sync()
unfoldable pub sync : Connectivity → Connectivity
sync c = record c { nelem = length c.rows }

abbrev pub less_one : ℕ → ℕ
less_one n = if n == 0 then 2 ^ 32 - 1 else n - 1

-- The loop of `Truncate` over the rows, with `_nelem`.
unfoldable pub truncate_rows : List (List ℕ) → ℕ → ℕ × List (List ℕ)
truncate_rows [] n = (n, [])
truncate_rows ([] ∷ rows) n = truncate_rows rows (less_one n)
truncate_rows ((v ∷ row) ∷ rows) n = let rest = truncate_rows rows n in (rest.0, (v ∷ row) ∷ rest.1)

-- void Truncate()
unfoldable pub truncate : Connectivity → Connectivity
truncate c = let left = truncate_rows c.rows c.nelem in record c { nelem = left.0; rows = left.1 }

-- void DestroySizes()
unfoldable pub destroy_sizes : Connectivity → Connectivity
destroy_sizes c = record c { sizes = [] }

-- void destroy(): the count stays.
unfoldable pub destroy : Connectivity → Connectivity
destroy c = record c { sizes = []; rows = [] }

-- The loop of `SyncSizes`: the sizes of the first rows.
unfoldable pub row_sizes : ℕ → List (List ℕ) → Run (List ℕ)
row_sizes zero rows = done []
row_sizes (suc n) [] = stopped undefined
row_sizes (suc n) (row ∷ rows) = do rest ← row_sizes n rows; done (length row ∷ rest)

-- void SyncSizes()
unfoldable pub sync_sizes : Connectivity → Run Connectivity
sync_sizes c = do new_sizes ← row_sizes c.nelem c.rows; done (record c { sizes = new_sizes })

abbrev pub in_table : ℕ → Connectivity → Bool
in_table n c = ltb 0 n && leb n c.nelem

-- Element(Mesh::IndexType n)
unfoldable pub element : ℕ → Connectivity → Run (List ℕ)
element n c = if in_table n c then at_id c.rows n else stopped assert_failed

abbrev pub node_of : ℕ → List ℕ → Run ℕ
node_of n row = if leb n (length row) then at_id row n else stopped assert_failed

-- Node(Mesh::IndexType e, Mesh::IndexType n)
unfoldable pub node_at : ℕ → ℕ → Connectivity → Run ℕ
node_at e n c =
    if in_table e c && ltb 0 n
    then (do row ← at_id c.rows e; node_of n row)
    else stopped assert_failed

abbrev pub size_from : List ℕ → List (List ℕ) → ℕ → Run ℕ
size_from [] rows n = do row ← at_id rows n; done (length row)
size_from (s ∷ sizes) rows n = at_id (s ∷ sizes) n

-- Esize(Mesh::IndexType n)
unfoldable pub esize : ℕ → Connectivity → Run ℕ
esize n c = if in_table n c then size_from c.sizes c.rows n else stopped assert_failed

abbrev pub concat_rows : List (List ℕ) → List ℕ
concat_rows [] = []
concat_rows (row ∷ rows) = row ++ concat_rows rows

-- void Flatten(std::vector<T> &outcon) const
unfoldable pub flatten : Connectivity → List ℕ
flatten c = concat_rows c.rows
