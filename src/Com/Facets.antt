-- ===== src/Com/Facets.antt =====
-- COM/src/Element_accessors.C and COM/include/Element_accessors.hpp: `Facet_node_enumerator`, the
-- nodes of a face of an element in terms of the nodes of the element. An entry -1 of the tables,
-- which pads a row, is left out of the row here.
pub mod Closed
use impact.Prelude.{
  ℕ, zero, suc, ◌+◌, ◌%◌, Bool, false, ◌&&◌, ◌||◌, Option, none, some, List, [], ◌∷◌, get_elem?,
  ◌==◌, ltb, if◌then◌else◌,
}
use impact.Com.ElementType.{SizeInfo}

abbrev pub row_of : List (List ℕ) → ℕ → List ℕ
row_of [] k = []
row_of (r ∷ rs) zero = r
row_of (r ∷ rs) (suc k) = row_of rs k

abbrev pub face_node_lists_tets : List (List ℕ)
face_node_lists_tets =
    (0 ∷ 2 ∷ 1 ∷ 6 ∷ 5 ∷ 4 ∷ [])
    ∷ (0 ∷ 1 ∷ 3 ∷ 4 ∷ 8 ∷ 7 ∷ [])
    ∷ (1 ∷ 2 ∷ 3 ∷ 5 ∷ 9 ∷ 8 ∷ [])
    ∷ (2 ∷ 0 ∷ 3 ∷ 6 ∷ 7 ∷ 9 ∷ [])
    ∷ []

abbrev pub face_node_lists_pyra : List (List ℕ)
face_node_lists_pyra =
    (0 ∷ 3 ∷ 2 ∷ 1 ∷ 8 ∷ 7 ∷ 6 ∷ 5 ∷ [])
    ∷ (0 ∷ 1 ∷ 4 ∷ 5 ∷ 10 ∷ 9 ∷ [])
    ∷ (1 ∷ 2 ∷ 4 ∷ 6 ∷ 11 ∷ 10 ∷ [])
    ∷ (2 ∷ 3 ∷ 4 ∷ 7 ∷ 12 ∷ 11 ∷ [])
    ∷ (3 ∷ 0 ∷ 4 ∷ 8 ∷ 9 ∷ 12 ∷ [])
    ∷ []

abbrev pub face_node_lists_pris : List (List ℕ)
face_node_lists_pris =
    (0 ∷ 1 ∷ 4 ∷ 3 ∷ 6 ∷ 10 ∷ 12 ∷ 9 ∷ 15 ∷ [])
    ∷ (1 ∷ 2 ∷ 5 ∷ 4 ∷ 7 ∷ 11 ∷ 13 ∷ 10 ∷ 16 ∷ [])
    ∷ (2 ∷ 0 ∷ 3 ∷ 5 ∷ 8 ∷ 9 ∷ 14 ∷ 11 ∷ 17 ∷ [])
    ∷ (0 ∷ 2 ∷ 1 ∷ 8 ∷ 7 ∷ 6 ∷ [])
    ∷ (3 ∷ 4 ∷ 5 ∷ 12 ∷ 13 ∷ 14 ∷ [])
    ∷ []

abbrev pub face_node_lists_hexa : List (List ℕ)
face_node_lists_hexa =
    (0 ∷ 3 ∷ 2 ∷ 1 ∷ 11 ∷ 10 ∷ 9 ∷ 8 ∷ 20 ∷ [])
    ∷ (0 ∷ 1 ∷ 5 ∷ 4 ∷ 8 ∷ 13 ∷ 16 ∷ 12 ∷ 21 ∷ [])
    ∷ (1 ∷ 2 ∷ 6 ∷ 5 ∷ 9 ∷ 14 ∷ 17 ∷ 13 ∷ 22 ∷ [])
    ∷ (2 ∷ 3 ∷ 7 ∷ 6 ∷ 10 ∷ 15 ∷ 18 ∷ 14 ∷ 23 ∷ [])
    ∷ (0 ∷ 4 ∷ 7 ∷ 3 ∷ 12 ∷ 19 ∷ 15 ∷ 11 ∷ 24 ∷ [])
    ∷ (4 ∷ 5 ∷ 6 ∷ 7 ∷ 16 ∷ 17 ∷ 18 ∷ 19 ∷ 25 ∷ [])
    ∷ []

-- `_ne` and `_fn_list` of a facet; `none` for the failed assertion on another number of nodes.
-- `ene->dimension()` is that of the pane. In two dimensions `_ne` is 1 and there is no list.
abbrev pub is_one_of : ℕ → List ℕ → Bool
is_one_of n [] = false
is_one_of n (m ∷ ms) = n == m || is_one_of n ms

unfoldable pub new_facet : (dimension : ℕ) → SizeInfo → ℕ → Option (ℕ × List ℕ)
new_facet dimension ene k =
    if dimension == 2
    then some (1, [])
    else if is_one_of ene.size_nnodes (4 ∷ 10 ∷ [])
    then some (3, row_of face_node_lists_tets k)
    else if is_one_of ene.size_nnodes (5 ∷ 14 ∷ [])
    then some (if k == 0 then 4 else 3, row_of face_node_lists_pyra k)
    else if is_one_of ene.size_nnodes (6 ∷ 15 ∷ 18 ∷ [])
    then some (if ltb k 3 then 4 else 3, row_of face_node_lists_pris k)
    else if is_one_of ene.size_nnodes (8 ∷ 20 ∷ 27 ∷ [])
    then some (4, row_of face_node_lists_hexa k)
    else none

-- int Facet_node_enumerator::size_of_nodes() const
unfoldable pub facet_size_of_nodes : SizeInfo → (k ne : ℕ) → ℕ
facet_size_of_nodes ene k ne =
    if ne == 1
    then (if ene.order == 2 then 3 else 2)
    else if ene.order == 2
    then ne + (ne + (if (ene.size_nnodes == 18 && ltb k 3) || ene.size_nnodes == 27 then 1 else 0))
    else ne

-- int size_of_corners() const
unfoldable pub facet_size_of_corners : ℕ → ℕ
facet_size_of_corners ne = if ne == 1 then 2 else ne

-- The position in the element of node `i` of a facet, as `operator[]` computes it before it asks
-- the element; `none` where it would read past the list.
unfoldable pub facet_node : SizeInfo → (k ne : ℕ) → List ℕ → ℕ → Option ℕ
facet_node ene k ne fn_list i =
    if ltb 1 ne
    then get_elem? fn_list i
    else if ltb i 2
    then some ((k + i) % ene.size_nedges)
    else some (ene.size_nedges + k)

-- The loop of `get_nodes` over `i`, with the positions instead of the node numbers.
abbrev pub positions_below : (ℕ → Option ℕ) → ℕ → List (Option ℕ)
positions_below f zero = []
positions_below f (suc n) = snoc (positions_below f n) (f n)
  where
    snoc : List (Option ℕ) → Option ℕ → List (Option ℕ)
    snoc [] x = x ∷ []
    snoc (y ∷ ys) x = y ∷ snoc ys x

-- void Facet_node_enumerator::get_nodes(std::vector<int> &nodes, bool quad_ret)
unfoldable pub facet_get_nodes : SizeInfo → (k ne : ℕ) → List ℕ → Bool → List (Option ℕ)
unfolding facet_size_of_nodes facet_size_of_corners
facet_get_nodes ene k ne fn_list quad_ret =
    let nn = if quad_ret then facet_size_of_nodes ene k ne else facet_size_of_corners ne in
    if ne == 1
    then some (k % ene.size_nedges)
      ∷ some ((k + 1) % ene.size_nedges)
      ∷ (if ltb 2 nn then some (ene.size_nedges + k) ∷ [] else [])
    else positions_below (λ i. get_elem? fn_list i) nn
