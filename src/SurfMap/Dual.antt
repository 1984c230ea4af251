-- ===== src/SurfMap/Dual.antt =====
-- SurfMap/src/Dual_connectivity.C: `Pane_dual_connectivity`, the elements at each node, in one array
-- with the offset of each node. A `char` is its bit pattern, and is signed when it is read, as on the
-- usual platforms; an offset is an `int`.
pub mod Buckets
pub mod Pairs
pub mod Above
pub mod Counted
pub mod Incident
use impact.Prelude.{
  ℕ, zero, suc, ◌+◌, ◌-◌, ◌%◌, ℤ, pos, negsuc, ◌+ℤ◌, ◌&&◌, List, [], ◌∷◌, length, drop, ltb, leb,
  ◌==◌, if◌then◌else◌,
}
use impact.Prelude.Runs.{
  Run, done, stopped, undefined, assert_failed, length_error, ◌>>=◌, at, at_id, write_at,
  write_at_id,
}
use impact.Com.Pane.{Tables}
use impact.Com.UnstructuredNodes.{Element, cursor_at, each_element}

-- `_offsets` and `_eids`
pub record Dual : Type 0 where
  pub offsets : List ℤ
  pub eids : List ℕ

abbrev pub copies {ℓ} : {A : Type ℓ} → ℕ → A → List A
copies zero x = []
copies (suc n) x = x ∷ copies n x

abbrev pub as_char : ℕ → ℤ
as_char c = if ltb c 128 then pos c else negsuc (255 - c)

-- for (int k = 0, nn = ene.size_of_nodes(); k < nn; ++k): a loop over the nodes of the element `i`
module _ {ℓ} {S : Type ℓ} (body : ℕ → ℕ → S → Run S) where
  abbrev pub each_in : ℕ → List ℕ → S → Run S
  each_in i [] s = done s
  each_in i (v ∷ nodes) s = body i v s >>= λ s'. each_in i nodes s'

  abbrev pub each_node : ℕ → Element → S → Run S
  each_node i element s = each_in i element.1 s

-- ++nielems[ene[k] - 1]
unfoldable pub count_node : ℕ → ℕ → List ℕ → Run (List ℕ)
count_node i v nielems = do c ← at_id nielems v; write_at_id nielems v ((c + 1) % 256)

-- _offsets[i] = _offsets[i - 1] + nielems[i - 1]
unfoldable pub offsets_from : ℤ → List ℕ → List ℤ
offsets_from offset [] = offset ∷ []
offsets_from offset (c ∷ nielems) = offset ∷ offsets_from (offset +ℤ as_char c) nielems

abbrev pub last_of : ℤ → List ℤ → ℤ
last_of x [] = x
last_of x (y ∷ xs) = last_of y xs

-- _eids.resize(_offsets[nnodes])
unfoldable pub sized_eids : ℤ → Run (List ℕ)
sized_eids (pos n) = done (copies n 0)
sized_eids (negsuc n) = stopped length_error

abbrev pub put_int : List ℕ → ℤ → ℕ → Run (List ℕ)
put_int xs (pos p) x = write_at xs p x
put_int xs (negsuc p) x = stopped undefined

-- _eids[_offsets[ene[k] - 1]++] = i
unfoldable pub fill_node : ℕ → ℕ → List ℤ × List ℕ → Run (List ℤ × List ℕ)
fill_node i v (offsets, eids) = do
  p ← at_id offsets v
  offsets' ← write_at_id offsets v (p +ℤ pos 1)
  eids' ← put_int eids p i
  done (offsets', eids')

-- for (int i = nnodes; i > 0; --i) _offsets[i] = _offsets[i - 1]; _offsets[0] = 0; with the entry
-- before the list
unfoldable pub moved_on : ℤ → List ℤ → List ℤ
moved_on before [] = []
moved_on before (offset ∷ offsets) = before ∷ moved_on offset offsets

-- void construct_connectivity_unstr(), for the numbers of nodes and elements that `_with_ghost` picks
unfoldable pub construct_connectivity_unstr : (nnodes nelems : ℕ) → Tables → Run Dual
construct_connectivity_unstr nnodes nelems p = do
  ene ← cursor_at 1 p
  nielems ← each_element (each_node count_node) p nelems 1 ene (copies nnodes 0)
  let offsets = offsets_from (pos 0) nielems
  eids ← sized_eids (last_of (pos 0) offsets)
  ene' ← cursor_at 1 p
  filled ← each_element (each_node fill_node) p nelems 1 ene' (offsets, eids)
  done (record { offsets = moved_on (pos 0) filled.0; eids = filled.1 })

abbrev pub prefix_of : ℕ → List ℕ → List ℕ
prefix_of zero xs = []
prefix_of (suc n) [] = []
prefix_of (suc n) (x ∷ xs) = x ∷ prefix_of n xs

-- The entries between `&xs[a]` and `&xs[b]`: with `operator[]` both must be indices of entries.
abbrev pub slice : ℤ → ℤ → List ℕ → Run (List ℕ)
slice (pos a) (pos b) xs =
    if leb a b && ltb b (length xs) then done (prefix_of (b - a) (drop a xs)) else stopped undefined
slice (pos a) (negsuc b) xs = stopped undefined
slice (negsuc a) b xs = stopped undefined

-- void incident_elements(int node_id, std::vector<int> &elists)
unfoldable pub incident_elements : ℕ → Dual → Run (List ℕ)
incident_elements node_id d =
    if node_id == 0
    then stopped assert_failed
    else do from ← at_id d.offsets node_id; to ← at d.offsets node_id; slice from to d.eids
