-- ===== src/SurfMap/Borders.antt =====
-- SurfMap/src/Pane_boundary.C: the border and the isolated nodes of an unstructured mesh of volume
-- elements. SurfMap/src/Pane_connectivity.C: `convert_nodelist`. A `std::map` is the list of its
-- entries in the order of their keys.
pub mod Isolated
pub mod Keyed
pub mod Parity
pub mod Corners
pub mod External
use impact.Prelude.{
  ℕ, zero, suc, ◌+◌, ◌-◌, ℤ, pos, negsuc, eq_ℤ, ltb_ℤ, Bool, true, false, not, ◌&&◌, ◌||◌, Option,
  none, some, List, [], ◌∷◌, ◌++◌, reverse, ltb, if◌then◌else◌,
}
use impact.Prelude.Runs.{
  Stop, Run, done, stopped, undefined, assert_failed, ◌>>=◌, at, at_id, write_at_id,
}
use impact.Com.Facets.{new_facet, facet_node, facet_get_nodes}
use impact.Com.Pane.{Tables, pane_dimension}
use impact.Com.UnstructuredNodes.{Element, cursor_at, element_of, each_element}
use impact.SurfMap.FacetId.{FacetId, facet_id, facet_eid, facet_lid}
use impact.SurfMap.Dual.{copies, each_in}

-- The loop of `convert_nodelist`, where the next entry is that of the node `i`.
unfoldable pub marked_from : ℕ → List Bool → List ℕ
marked_from i [] = []
marked_from i (b ∷ bs) = let rest = marked_from (suc i) bs in if b then i ∷ rest else rest

-- static void convert_nodelist(const std::vector<bool> &bs, std::vector<int> &nodes)
unfoldable pub convert_nodelist : List Bool → List ℕ
convert_nodelist bs = marked_from 1 bs

-- is_isolated[ene[j] - 1] = false
unfoldable pub unmark_node : ℕ → ℕ → List Bool → Run (List Bool)
unmark_node i v is_isolated = write_at_id is_isolated v false

-- The inner loop, from the last node of the element to the first.
abbrev pub unmark_element : ℕ → Element → List Bool → Run (List Bool)
unmark_element i element is_isolated = each_in unmark_node i (reverse element.1) is_isolated

-- void determine_isolated_nodes(std::vector<bool> &is_isolated, int ghost_level), for the numbers of
-- nodes and elements that the ghost level picks
unfoldable pub determine_isolated_nodes : Bool → (nnodes nelems : ℕ) → Tables → Run (List Bool)
determine_isolated_nodes true nnodes nelems p = done (copies nnodes false)
determine_isolated_nodes false nnodes nelems p = do
  ene ← cursor_at 1 p
  each_element unmark_element p nelems 1 ene (copies nnodes true)

pub data FourTuple : Type 0 where
  four : ℤ → ℤ → ℤ → ℤ → FourTuple

-- bool operator<(const Four_tuple &x) const
abbrev pub less : FourTuple → FourTuple → Bool
less (four a b c d) (four a' b' c' d') =
    ltb_ℤ a a'
    || (eq_ℤ a a' && (ltb_ℤ b b' || (eq_ℤ b b' && (ltb_ℤ c c' || (eq_ℤ c c' && ltb_ℤ d d')))))

abbrev pub ordered : ℤ → ℤ → ℤ × ℤ
ordered x y = if ltb_ℤ y x then (y, x) else (x, y)

-- std::sort(&sorted_ns[0], &sorted_ns[4]): the pairs that are put in order leave the four so.
unfoldable pub sort_corners : FourTuple → FourTuple
sort_corners (four a b c d) =
    let (a1, b1) = ordered a b in
    let (c1, d1) = ordered c d in
    let (a2, c2) = ordered a1 c1 in
    let (b2, d2) = ordered b1 d1 in let (b3, c3) = ordered b2 c2 in four a2 b3 c3 d2

abbrev pub Corners2FaceMap : Type 0
Corners2FaceMap = List (FourTuple × FacetId)

-- Two keys of a `std::map` are the same if neither is less.
abbrev pub equivalent : FourTuple → FourTuple → Bool
equivalent xs ys = not (less xs ys) && not (less ys xs)

unfoldable pub has_face : FourTuple → Corners2FaceMap → Bool
has_face key [] = false
has_face key ((other, fid) ∷ c2f) = equivalent key other || has_face key c2f

unfoldable pub insert_face : FourTuple → FacetId → Corners2FaceMap → Corners2FaceMap
insert_face key fid [] = (key, fid) ∷ []
insert_face key fid ((other, f) ∷ c2f) =
    if less other key then (other, f) ∷ insert_face key fid c2f else (key, fid) ∷ ((other, f) ∷ c2f)

unfoldable pub erase_face : FourTuple → Corners2FaceMap → Corners2FaceMap
erase_face key [] = []
erase_face key ((other, f) ∷ c2f) =
    if equivalent key other then c2f else (other, f) ∷ erase_face key c2f

-- `c2f_vec` and `num_external_face`
pub record Faces : Type 0 where
  pub c2f_vec : List Corners2FaceMap
  pub num_external_face : ℕ

-- `c2f_vec[sorted_ns[1] - 1]`: the identifier of the node
abbrev pub second_corner : FourTuple → ℕ
second_corner (four a (pos n) c d) = n
second_corner (four a (negsuc n) c d) = 0

-- void check_face_unique(const Four_tuple &face_corners, const Facet_ID &fid, ...), without `counter`
unfoldable pub check_face_unique : FourTuple → FacetId → Faces → Run Faces
check_face_unique face_corners fid s = do
  let sorted_ns = sort_corners face_corners
  let n = second_corner sorted_ns
  c2f ← at_id s.c2f_vec n
  if has_face sorted_ns c2f
      then (write_at_id s.c2f_vec n (erase_face sorted_ns c2f) >>= λ vec.
          done (record { c2f_vec = vec; num_external_face = s.num_external_face - 1 }))
      else (write_at_id s.c2f_vec n (insert_face sorted_ns fid c2f) >>= λ vec.
          done (record { c2f_vec = vec; num_external_face = s.num_external_face + 1 }))

abbrev pub or_stop {ℓ} : {A : Type ℓ} → Stop → Option A → Run A
or_stop why none = stopped why
or_stop why (some a) = done a

-- `fne[i]` for the facet `k`
abbrev pub corner : Element → ℕ → ℕ → List ℕ → ℕ → Run ℕ
corner element k ne fn_list i =
    or_stop undefined (facet_node element.0 k ne fn_list i) >>= λ position. at element.1 position

abbrev pub fourth_corner : Element → ℕ → ℕ → List ℕ → Run ℤ
fourth_corner element k ne fn_list =
    if ltb 3 ne then (corner element k ne fn_list 3 >>= λ d. done (pos d)) else done (negsuc 0)

-- `Four_tuple ns(fne[0], fne[1], fne[2], fne.size_of_edges() > 3 ? fne[3] : -1)`
unfoldable pub corners_of : (dimension : ℕ) → Element → ℕ → Run FourTuple
corners_of dimension element k = do
  facet ← or_stop assert_failed (new_facet dimension element.0 k)
  a ← corner element k facet.0 facet.1 0
  b ← corner element k facet.0 facet.1 1
  c ← corner element k facet.0 facet.1 2
  d ← fourth_corner element k facet.0 facet.1
  done (four (pos a) (pos b) (pos c) d)

-- The loop over the faces of the element `i`: `left` are left, of which `j` is the first.
unfoldable pub check_faces : (dimension left j i : ℕ) → Element → Faces → Run Faces
check_faces dimension zero j i element s = done s
check_faces dimension (suc left) j i element s = do
  ns ← corners_of dimension element j
  s' ← check_face_unique ns (facet_id i j) s
  check_faces dimension left (suc j) i element s'

abbrev pub check_element : (dimension i : ℕ) → Element → Faces → Run Faces
check_element dimension i element s = check_faces dimension element.0.size_nfaces 0 i element s

-- The first loop of `determine_border_nodes_3` on an unstructured mesh.
unfoldable pub external_faces : (num_nodes num_elmts : ℕ) → Tables → Run Faces
external_faces num_nodes num_elmts p = do
  ene ← cursor_at 1 p
  each_element (check_element (pane_dimension p.cnct_set)) p num_elmts 1 ene
      (record { c2f_vec = copies num_nodes []; num_external_face = 0 })

-- is_border[nodes[i2] - 1] = true
unfoldable pub mark_nodes : Element → List (Option ℕ) → List Bool → Run (List Bool)
mark_nodes element [] is_border = done is_border
mark_nodes element (p ∷ ps) is_border = do
  position ← or_stop undefined p
  v ← at element.1 position
  marked ← write_at_id is_border v true
  mark_nodes element ps marked

unfoldable pub mark_face : Tables → FacetId → List Bool → Run (List Bool)
mark_face p fid is_border = do
  ene ← cursor_at (facet_eid fid) p
  element ← element_of ene
  facet ← or_stop assert_failed (new_facet (pane_dimension p.cnct_set) element.0 (facet_lid fid))
  mark_nodes element (facet_get_nodes element.0 (facet_lid fid) facet.0 facet.1 true) is_border

-- The loop over the faces of one map, with the list `b`.
unfoldable pub mark_map :
    Tables → Corners2FaceMap → List Bool × List FacetId → Run (List Bool × List FacetId)
mark_map p [] s = done s
mark_map p ((key, fid) ∷ c2f) (is_border, b) = do
  marked ← mark_face p fid is_border
  mark_map p c2f (marked, b ++ fid ∷ [])

unfoldable pub mark_maps :
    Tables → List Corners2FaceMap → List Bool × List FacetId → Run (List Bool × List FacetId)
mark_maps p [] s = done s
mark_maps p (c2f ∷ vec) s = do s' ← mark_map p c2f s; mark_maps p vec s'

-- void determine_border_nodes_3(...) on an unstructured mesh, for the numbers of nodes and elements
-- that the ghost level picks: `is_border` and `b`
unfoldable pub determine_border_nodes_3 :
    (num_nodes num_elmts : ℕ) → Tables → Run (List Bool × List FacetId)
determine_border_nodes_3 num_nodes num_elmts p = do
  faces ← external_faces num_nodes num_elmts p
  mark_maps p faces.c2f_vec (copies num_nodes false, [])
