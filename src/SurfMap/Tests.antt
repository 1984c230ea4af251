-- ===== src/SurfMap/Tests.antt =====
-- Small meshes, with the theorems on them applied to one of them.
use impact.Prelude.{
  ℕ, suc, ◌+◌, ◌%◌, ◌<◌, ◌≤◌, ◌≡◌, refl, pos, negsuc, Bool, false, not, ◌&&◌, List, [], ◌∷◌, length,
  length-append, All, arith, ltb, leb, ◌==◌, if◌then◌else◌, ◌||◌, ◌^◌,
}
use impact.Prelude.Runs.{Run, done, stopped, undefined, assert_failed, ◌>>=◌}
use impact.Com.ElementType.{tri3, quad4, tet4, sizes}
use impact.Com.Facets.{new_facet, facet_node}
use impact.Com.Pane.{Table, refresh_connectivity}
use impact.Com.UnstructuredNodes.{Element, cursor_at, each_element}
use impact.Com.UnstructuredNodes.Rows.{
  IsFull, first_rows, rows_of_tables, each_row, each_element-rows,
}
use impact.SurfMap.FacetId.{FacetId, facet_id, facet_eid, facet_lid, facet_is_border, facet_less}
use impact.SurfMap.FacetId.Coded.{facet_parts}
use impact.SurfMap.Dual.{Dual, construct_connectivity_unstr, incident_elements}
use impact.SurfMap.Dual.Pairs.{occurrences, incident_from, has_above}
use impact.SurfMap.Dual.Incident.{incident_elements-construct}
use impact.SurfMap.Borders.{
  FourTuple, four, Faces, external_faces, corners_of, convert_nodelist, determine_isolated_nodes,
}
use impact.SurfMap.Borders.Parity.{present, entries}
use impact.SurfMap.Borders.External.{faces_of_mesh, times, external_faces_odd}
use impact.SurfMap.Borders.Corners.{ascending}
use impact.SurfMap.Borders.Isolated.{is_node, in_element, convert_nodelist-determine_isolated_nodes}

-- Two triangles, a table with no element, and a quadrilateral; the node 5 has no element.
abbrev surface : List Table
surface =
    record {
      name = ":t3";
      info = sizes tri3;
      nodes = 1 ∷ 2 ∷ 3 ∷ 2 ∷ 4 ∷ 3 ∷ [];
      offset = 0;
      elements = 2;
      ghosts = 0;
    }
    ∷ record {
      name = ":t3:extra";
      info = sizes tri3;
      nodes = [];
      offset = 0;
      elements = 0;
      ghosts = 0;
    }
    ∷ record {
      name = ":q4";
      info = sizes quad4;
      nodes = 3 ∷ 4 ∷ 6 ∷ 7 ∷ [];
      offset = 0;
      elements = 1;
      ghosts = 0;
    }
    ∷ []

-- Two tetrahedra with a face in common.
abbrev volume : List Table
volume =
    record {
      name = ":T4";
      info = sizes tet4;
      nodes = 1 ∷ 2 ∷ 3 ∷ 4 ∷ 2 ∷ 3 ∷ 4 ∷ 5 ∷ [];
      offset = 0;
      elements = 2;
      ghosts = 0;
    }
    ∷ []

surface-IsFull : All IsFull surface
unfolding sizes
surface-IsFull = omega arith

volume-IsFull : All IsFull volume
unfolding sizes
volume-IsFull = omega arith

abbrev count_nodes : ℕ → Element → ℕ → Run ℕ
count_nodes i element n = done (n + length element.1)

each_element-rows_example :
    (cursor_at 1 (refresh_connectivity surface) >>= λ e.
    each_element count_nodes (refresh_connectivity surface) 3 1 e 0)
    ≡ each_row count_nodes 1 (first_rows 3 (rows_of_tables surface)) 0
unfolding sizes
each_element-rows_example = each_element-rows count_nodes surface 3 0 surface-IsFull (omega arith)

length-occurrences : (e v : ℕ) (row : List ℕ) → length (occurrences e v row) ≤ length row
length-occurrences e v [] = omega arith
length-occurrences e v (w ∷ row) = ground (arith, length-occurrences e v row)

abbrev all_nodes : List Element → ℕ
all_nodes [] = 0
all_nodes ((t, row) ∷ elements) = length row + all_nodes elements

length-incident_from :
    (e v : ℕ) (elements : List Element) → length (incident_from e v elements) ≤ all_nodes elements
length-incident_from e v [] = omega arith
length-incident_from e v ((t, row) ∷ elements) = omega (
  arith,
  length-append (occurrences e v row) (incident_from (suc e) v elements),
  length-occurrences e v row,
  length-incident_from (suc e) v elements,
)

ten_entries : (v : ℕ) → length (incident_from 1 v (first_rows 3 (rows_of_tables surface))) < 128
unfolding sizes
ten_entries v = omega (arith, length-incident_from 1 v (first_rows 3 (rows_of_tables surface)))

incident_elements-construct_example :
    (d : Dual) × (construct_connectivity_unstr 7 3 (refresh_connectivity surface) ≡ done d)
    × ((v : ℕ)
        → incident_elements v d ≡ (
            if v == 0
            then stopped assert_failed
            else if has_above v (first_rows 3 (rows_of_tables surface))
            then done (incident_from 1 v (first_rows 3 (rows_of_tables surface)))
            else stopped undefined))
unfolding sizes
incident_elements-construct_example =
    incident_elements-construct surface 7 3 surface-IsFull (omega arith) (omega arith) ten_entries

convert_nodelist-determine_isolated_nodes_example :
    (marks : List Bool) × (determine_isolated_nodes false 7 3 (refresh_connectivity surface)
      ≡ done marks)
    × ((v : ℕ)
        → is_node v (convert_nodelist marks)
          ≡ ((ltb 0 v && leb v 7) && not (in_element v (first_rows 3 (rows_of_tables surface)))))
unfolding sizes
convert_nodelist-determine_isolated_nodes_example =
    convert_nodelist-determine_isolated_nodes surface 7 3 surface-IsFull (omega arith) (omega arith)

-- The faces of the tetrahedra, with their numbers.
abbrev face : ℕ → ℕ → ℕ → FacetId → FourTuple × FacetId
face a b c fid = (four (pos a) (pos b) (pos c) (negsuc 0), fid)

abbrev volume_faces : List (FourTuple × FacetId)
volume_faces =
    face 1 3 2 (facet_id 1 0)
    ∷ face 1 2 4 (facet_id 1 1)
    ∷ face 2 3 4 (facet_id 1 2)
    ∷ face 3 1 4 (facet_id 1 3)
    ∷ face 2 4 3 (facet_id 2 0)
    ∷ face 2 3 5 (facet_id 2 1)
    ∷ face 3 4 5 (facet_id 2 2)
    ∷ face 4 2 5 (facet_id 2 3)
    ∷ []

volume_faces_read : faces_of_mesh 3 1 (first_rows 2 (rows_of_tables volume)) ≡ done volume_faces
unfolding sizes corners_of new_facet facet_node
volume_faces_read = refl

external_faces_odd_example :
    (s : Faces) × (external_faces 5 2 (refresh_connectivity volume) ≡ done s)
    × ((k : FourTuple) → present k s ≡ (if ascending k then times k volume_faces else 0) % 2)
    × (s.num_external_face ≡ entries s.c2f_vec)
unfolding sizes
external_faces_odd_example =
    external_faces_odd volume 5 2 volume_faces volume-IsFull (omega arith) volume_faces_read
      (omega arith)

facet_parts_example :
    (facet_eid (facet_id 7 3) ≡ 7)
    × (facet_lid (facet_id 7 3) ≡ 3)
    × (facet_is_border (facet_id 7 3) ≡ (3 == 15))
    × (facet_id 7 3 < 2 ^ 31)
    × (facet_less (facet_id 7 3) (facet_id 2 15) ≡ (ltb 3 15 || (3 == 15 && ltb 7 2)))
facet_parts_example = facet_parts 7 3 2 15 (omega arith) (omega arith) (omega arith)
