-- ===== src/Mesh/Coordinates.antt =====
-- SolverUtils/src/Mesh.C: `NodalCoordinates`, an array of three numbers for each node that is the
-- object's own or another's. An array is a number; `blocks` has the numbers that `new[]` gave and
-- `delete[]` has not taken back. An entry that was never written is `none`. A `double` is of the type `V`.
pub mod Owned
use impact.Prelude.{
  ℕ, zero, suc, ◌+◌, ◌*◌, Bool, true, false, Option, none, some, List, [], ◌∷◌, ltb, ◌==◌,
  if◌then◌else◌,
}
use impact.Mesh.Table.{Run, done, stopped, undefined, ◌>>=◌, at, resize_to}

module _ (V : Type 0) where
  abbrev pub Cells : Type 0
  Cells = List (Option V)

  pub record Store : Type 0 where
    pub blocks : List ℕ
    pub next_block : ℕ
    pub contents : ℕ → Cells

  pub record NodalCoordinates : Type 0 where
    pub ncdata : Option ℕ
    pub nnodes : ℕ
    pub mydata : Bool

  abbrev pub Coordinates : Type 0
  Coordinates = NodalCoordinates × Store

  -- NodalCoordinates()
  abbrev pub no_coordinates : NodalCoordinates
  no_coordinates = record { ncdata = none; nnodes = 0; mydata = false }

  -- `delete[]`: undefined for an array that is not there
  unfoldable pub free : ℕ → List ℕ → Run (List ℕ)
  free p [] = stopped undefined
  free p (q ∷ blocks) =
      let rest = free p blocks in
      if p == q then done blocks else (do blocks' ← rest; done (q ∷ blocks'))

  abbrev pub fill : ℕ → Cells → Store → Store
  fill p cells m = record m { contents = λ q. if p == q then cells else m.contents q }

  -- new double[3 * n] with the numbers that are then copied to it
  unfoldable pub allocate : ℕ → Cells → Store → Coordinates
  allocate n cells m = (
    record { ncdata = some m.next_block; nnodes = n; mydata = true },
    fill m.next_block cells
        (record m { blocks = m.next_block ∷ m.blocks; next_block = suc m.next_block }),
  )

  abbrev pub destroy_data : Option ℕ → Bool → Coordinates → Run Coordinates
  destroy_data none mine s = done s
  destroy_data (some p) false s = done s
  destroy_data (some p) true s = do
    blocks ← free p s.1.blocks
    done (no_coordinates, record s.1 { blocks = blocks })

  -- void destroy()
  unfoldable pub destroy_coordinates : Coordinates → Run Coordinates
  destroy_coordinates s = destroy_data s.0.ncdata s.0.mydata s

  -- void init(Mesh::IndexType n)
  unfoldable pub init_nodes : ℕ → Coordinates → Run Coordinates
  init_nodes n s = do
    t ← destroy_coordinates s
    if ltb 0 n then done (allocate n (resize_to (3 * n) none []) t.1) else done t

  -- void init(Mesh::IndexType n, double *data)
  unfoldable pub init_data : ℕ → Option ℕ → Coordinates → Run Coordinates
  init_data n source s = do
    t ← destroy_coordinates s
    if ltb 0 n then done (record { ncdata = source; nnodes = n; mydata = false }, t.1) else done t

  -- std::memcpy(ncdata, data, n * sizeof(double) * 3)
  unfoldable pub read_cells : ℕ → List V → Run Cells
  read_cells zero source = done []
  read_cells (suc k) [] = stopped undefined
  read_cells (suc k) (v ∷ source) = do rest ← read_cells k source; done (some v ∷ rest)

  -- The copy with a stride other than 1, from the node `i` on: the loop over `j` stops before 2.
  unfoldable pub read_strided : (n i stride : ℕ) → List V → Run Cells
  read_strided zero i stride source = done []
  read_strided (suc n) i stride source = do
    x ← at source i
    y ← at source (i + stride)
    rest ← read_strided n (suc i) stride source
    done (some x ∷ some y ∷ none ∷ rest)

  -- The copy of three arrays.
  unfoldable pub read_blocked : ℕ → List V → List V → List V → Run Cells
  read_blocked zero xs ys zs = done []
  read_blocked (suc n) (x ∷ xs) (y ∷ ys) (z ∷ zs) = do
    rest ← read_blocked n xs ys zs
    done (some x ∷ some y ∷ some z ∷ rest)
  read_blocked (suc n) [] ys zs = stopped undefined
  read_blocked (suc n) (x ∷ xs) [] zs = stopped undefined
  read_blocked (suc n) (x ∷ xs) (y ∷ ys) [] = stopped undefined

  -- `destroy()`, and then the copy of what `read` reads, unless a condition on the arguments fails.
  abbrev pub copy_of : Bool → ℕ → Run Cells → Coordinates → Run Coordinates
  copy_of false n read s = destroy_coordinates s
  copy_of true n read s = do t ← destroy_coordinates s; cells ← read; done (allocate n cells t.1)

  -- void init_copy(Mesh::IndexType n, double *data): `data` is `none` where the pointer is null
  unfoldable pub init_copy : ℕ → Option (List V) → Coordinates → Run Coordinates
  init_copy n none s = destroy_coordinates s
  init_copy n (some source) s = copy_of (ltb 0 n) n (read_cells (3 * n) source) s

  -- void init_copy(Mesh::IndexType n, double *data, int stride)
  unfoldable pub init_copy_strided : ℕ → Option (List V) → ℕ → Coordinates → Run Coordinates
  init_copy_strided n none stride s = destroy_coordinates s
  init_copy_strided n (some source) stride s =
      copy_of (ltb 0 n) n
        (if stride == 1 then read_cells (3 * n) source else read_strided n 0 stride source) s

  -- The arrays, where none of the three pointers is null.
  abbrev pub all_given :
      Option (List V) → Option (List V) → Option (List V) → Option (List V × List V × List V)
  all_given none ys zs = none
  all_given (some xs) none zs = none
  all_given (some xs) (some ys) none = none
  all_given (some xs) (some ys) (some zs) = some (xs, ys, zs)

  abbrev pub copy_blocked : ℕ → Option (List V × List V × List V) → Coordinates → Run Coordinates
  copy_blocked n none s = destroy_coordinates s
  copy_blocked n (some (xs, ys, zs)) s = copy_of (ltb 0 n) n (read_blocked n xs ys zs) s

  -- void init_copy(Mesh::IndexType n, double *xdata, double *ydata, double *zdata)
  unfoldable pub init_copy_blocked :
      ℕ → Option (List V) → Option (List V) → Option (List V) → Coordinates → Run Coordinates
  init_copy_blocked n xs ys zs s = copy_blocked n (all_given xs ys zs) s
