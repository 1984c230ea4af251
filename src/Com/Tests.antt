-- ===== src/Com/Tests.antt =====
-- Small meshes, with each theorem on them applied to one of them.
mod Data
mod Items
mod Windows
mod Copies
use impact.Prelude.{
  ◌≡◌, refl, true, false, Option, some, [], ◌∷◌, length, arith, ◌==◌, if◌then◌else◌, ◌*◌, ltb, ◌%◌,
  ◌/◌, ◌+◌,
}
use impact.Com.ElementType.{
  st2, hex20, tri3, tri6, quad4, sizes, is_structured, get_size_info, skip_zeros,
}
use impact.Com.ElementType.Names.{name_of, get_size_info-name_of}
use mathlib.Core.Option
use impact.Com.Facets.{positions_below, facet_get_nodes, facet_node, facet_size_of_nodes}
use impact.Com.Facets.Closed.{
  each_paired, all_sides, faces_below, good_face, faces_close, get_nodes_in_range,
  get_nodes-facet_node,
}
use impact.Com.StructuredNodes.{Enumerator, at_element, at_pair, next, id, node, vertex}
use impact.Com.StructuredNodes.Visits.{
  next-at_element, id-at_element, vertex-node, at_pair-at_element,
}
use impact.Com.PaneNodes.{new_2d, position_allowed2_d}
use impact.Com.PaneNodes.Rows.{position_allowed2_d-new_2d}
use impact.Com.Pane.{Table}
use impact.Com.Pane.Numbered.{Answer, connectivity_cases}

get_size_info-name_of_example : get_size_info (name_of hex20 2 []) ≡ some (sizes hex20)
get_size_info-name_of_example = get_size_info-name_of hex20 2 []

hex20_parsed : get_size_info (name_of hex20 0 []) ≡ some (sizes hex20)
unfolding get_size_info skip_zeros
hex20_parsed = refl

unfolded_types : Unit {0}
unfolding sizes is_structured
unfolded_types = tt

hex20_is_volume : (if is_structured hex20 then false else (sizes hex20).size_dim == 3) ≡ true
unfolding unfolded_types
hex20_is_volume = refl

faces_close_example :
    (each_paired
        (all_sides (sizes hex20) (sizes hex20).size_nfaces)
        (all_sides (sizes hex20) (sizes hex20).size_nfaces)
      ≡ true)
    × (length (all_sides (sizes hex20) (sizes hex20).size_nfaces) ≡ 2 * (sizes hex20).size_nedges)
faces_close_example = faces_close hex20 hex20_is_volume

get_nodes_in_range_example :
    faces_below (sizes hex20).size_nfaces (λ k. good_face (sizes hex20) k true) ≡ true
get_nodes_in_range_example = get_nodes_in_range hex20 true hex20_is_volume

get_nodes-facet_node_example :
    facet_get_nodes (sizes tri6) 2 1 [] true
    ≡ positions_below (facet_node (sizes tri6) 2 1 []) (facet_size_of_nodes (sizes tri6) 2 1)
get_nodes-facet_node_example = get_nodes-facet_node (sizes tri6) 2

-- A mesh of 4 by 3 nodes, which has 6 elements, at its third element.
abbrev third_element : Enumerator
third_element = record { base = 3; res = 2 }

third_reached : at_element 4 6 3 ≡ some third_element
unfolding at_element
third_reached = refl

next-at_element_example :
    (e : Enumerator) × (at_element 4 6 3 ≡ some e) × (at_element 4 6 4 ≡ some (next 4 e))
next-at_element_example = next-at_element 3 6 3 (omega arith) (omega arith) (omega arith)

id-at_element_example : id 4 third_element ≡ 3
id-at_element_example = id-at_element 3 6 3 third_element (omega arith) third_reached

vertex-node_example : vertex 4 third_element (node 4 third_element 2) ≡ some 2
vertex-node_example = vertex-node 4 third_element 2 (omega arith) (omega arith)

at_pair-at_element_example : at_pair 4 3 3 2 ≡ at_element 4 6 6
at_pair-at_element_example = at_pair-at_element 3 3 6 2 1 (omega arith) (omega arith) (omega arith)

position_allowed2_d-new_2d_example :
    position_allowed2_d (record (new_2d 4 5 0 0) { node_num = 8 + 1 }) ≡ ltb (8 % (4 * 5) / 4) 2
position_allowed2_d-new_2d_example = position_allowed2_d-new_2d 4 5 8 (omega arith)

st2_is_structured : is_structured st2 ≡ true
unfolding is_structured
st2_is_structured = refl

-- Two tables of 5 and 3 elements.
abbrev triangles : Table
triangles = record {
  name = ":t3";
  info = sizes tri3;
  nodes = [];
  offset = 0;
  elements = 5;
  ghosts = 0;
}

abbrev quads : Table
quads = record {
  name = ":q4";
  info = sizes quad4;
  nodes = [];
  offset = 0;
  elements = 3;
  ghosts = 1;
}

connectivity_cases_example : Answer 9 (triangles ∷ quads ∷ [])
connectivity_cases_example = connectivity_cases 9 (triangles ∷ quads ∷ [])
