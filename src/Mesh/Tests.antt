-- ===== src/Mesh/Tests.antt =====
-- Two triangles with a common side, and small tables, with each theorem applied to one of them.
use impact.Prelude.{◌≡◌, refl, List, [], ◌∷◌, ◌++◌, length, arith, inl, inr, ℕ, ◌<◌, ◌≤◌, All}
use impact.Mesh.Table.{
  done, Connectivity, new_connectivity, add_elements, sync_sizes, esize, destroy_sizes, truncate,
  flatten, sync, resize_rows,
}
use impact.Mesh.Table.Cached.{
  IsSynced, NotEmpty, esize-sync_sizes, flatten-truncate, flatten-add_elements,
}
use impact.Mesh.Dual.{push_at_id, invert_row, invert_rows, inverse}
use impact.Mesh.Dual.Counts.{count, row_at, AllIds}
use impact.Mesh.Dual.Inverse.{count-inverse}
use impact.Mesh.Neighbors.{
  get_neighborhood, get_adjacent, neighbor_rows, gather, gather_row, gather_id, clear_added,
  remove_id, sort_ids, insert_sorted,
}
use impact.Mesh.Neighbors.Gathered.{one_if, touches}
use impact.Mesh.Neighbors.Shared.{shares, get_neighborhood-inverse, count-get_adjacent}
use impact.Mesh.Neighbors.{elements_on}
use impact.Mesh.Neighbors.Unique.{IsSorted, count-elements_on}
use impact.Prelude.{suc, true, false, not, ◌&&◌, ◌==◌}
use impact.Mesh.Renumber.{breadth_first_renumber, seeds, seed, seed_new, drain, visit, enter}
use impact.Mesh.Renumber.Permutes.{breadth_first_renumber_total}
use impact.Mesh.Modes.{graph_mode, matrix_mode}
use impact.Mesh.Modes.Inverse.{matrix_mode-graph_mode}
use impact.Prelude.{some, true}
use impact.Mesh.Coordinates.{Coordinates}
use impact.Mesh.Orient.{re_orient_cell, re_orient}
use impact.Mesh.Orient.Twice.{re_orient_cell-twice, re_orient-loses_third}

abbrev triangles : Connectivity
triangles = record { nelem = 2; sizes = []; rows = (1 ∷ 2 ∷ 3 ∷ []) ∷ (3 ∷ 2 ∷ 4 ∷ []) ∷ [] }

triangles-AllIds : AllIds 4 triangles.rows
triangles-AllIds = (
  ((omega arith, omega arith), ((omega arith, omega arith), ((omega arith, omega arith), tt))),
  (
    ((omega arith, omega arith), ((omega arith, omega arith), ((omega arith, omega arith), tt))),
    tt,
  ),
)

-- The elements of each node.
dual_of_triangles :
    inverse 0 4 triangles new_connectivity
    ≡ done (record {
      nelem = 4;
      sizes = [];
      rows = (1 ∷ []) ∷ (1 ∷ 2 ∷ []) ∷ (1 ∷ 2 ∷ []) ∷ (2 ∷ []) ∷ [];
    })
unfolding inverse invert_rows invert_row push_at_id sync resize_rows
dual_of_triangles = refl

esize-sync_sizes_example :
    (c' : Connectivity) × (sync_sizes triangles ≡ done c')
    × ((n : ℕ) → esize n c' ≡ esize n (destroy_sizes triangles))
esize-sync_sizes_example = esize-sync_sizes triangles refl

abbrev with_gap : Connectivity
with_gap = record { nelem = 3; sizes = []; rows = (1 ∷ 2 ∷ []) ∷ [] ∷ (3 ∷ []) ∷ [] }

flatten-truncate_example :
    IsSynced (truncate with_gap)
    × All NotEmpty (truncate with_gap).rows
    × (flatten (truncate with_gap) ≡ flatten with_gap)
flatten-truncate_example = flatten-truncate with_gap refl

flatten-add_elements_example :
    (c' : Connectivity) × (add_elements 2 2 (5 ∷ 6 ∷ 6 ∷ 7 ∷ []) with_gap ≡ done c')
    × IsSynced c'
    × (c'.nelem ≡ 5)
    × (flatten c' ≡ flatten with_gap ++ 5 ∷ 6 ∷ 6 ∷ 7 ∷ [])
flatten-add_elements_example = flatten-add_elements 2 2 (5 ∷ 6 ∷ 6 ∷ 7 ∷ []) with_gap refl refl

count-inverse_example :
    (d : Connectivity) × (inverse 0 4 triangles new_connectivity ≡ done d)
    × IsSynced d
    × (d.nelem ≡ 4)
    × AllIds 2 d.rows
    × ((v e : ℕ) → count e (row_at d.rows v) ≡ count v (row_at triangles.rows e))
count-inverse_example = count-inverse 0 4 triangles refl (omega arith) triangles-AllIds

-- Four elements in a row, of which the first starts the queue and the last is alone.
abbrev graph : Connectivity
graph = record { nelem = 4; sizes = []; rows = (3 ∷ []) ∷ (3 ∷ []) ∷ (2 ∷ 1 ∷ []) ∷ [] ∷ [] }

graph-AllIds : AllIds 4 graph.rows
graph-AllIds = (
  ((omega arith, omega arith), tt),
  (
    ((omega arith, omega arith), tt),
    (((omega arith, omega arith), ((omega arith, omega arith), tt)), (tt, tt)),
  ),
)

renumbered_graph : breadth_first_renumber 4 graph [] ≡ done (1 ∷ 3 ∷ 2 ∷ 4 ∷ [])
unfolding breadth_first_renumber seeds seed seed_new drain visit enter
renumbered_graph = refl

breadth_first_renumber_total_example :
    (remap : List ℕ) × (breadth_first_renumber 4 graph [] ≡ done remap)
    × (length remap ≡ 4)
    × ((x : ℕ) → 0 < x → x ≤ 4 → count x remap ≡ 1)
breadth_first_renumber_total_example = breadth_first_renumber_total graph refl graph-AllIds

abbrev matrix : Connectivity
matrix = record { nelem = 2; sizes = []; rows = (1 ∷ 2 ∷ []) ∷ (1 ∷ 2 ∷ 4 ∷ []) ∷ [] }

matrix_mode-graph_mode_example :
    (c' : Connectivity) × (graph_mode 0 matrix ≡ done c') × (matrix_mode 0 c' ≡ matrix)
matrix_mode-graph_mode_example = matrix_mode-graph_mode 0 matrix (
  ((omega arith, tt), (tt, tt)),
  inl refl,
  (((omega arith, (omega arith, tt)), ((omega arith, tt), (tt, tt))), inr (inl refl), tt),
)

re_orient_cell-twice_example :
    (ec' : List ℕ) × (re_orient_cell 4 (5 ∷ 6 ∷ 7 ∷ 8 ∷ []) ≡ done ec')
    × (re_orient_cell 4 ec' ≡ done (5 ∷ 6 ∷ 7 ∷ 8 ∷ []))
    × ((x : ℕ) → count x ec' ≡ count x (5 ∷ 6 ∷ 7 ∷ 8 ∷ []))
re_orient_cell-twice_example = re_orient_cell-twice (5 ∷ 6 ∷ 7 ∷ 8 ∷ []) (inr refl)

re_orient-loses_third_example :
    (ec' : List ℕ) × (re_orient 8 (1 ∷ 2 ∷ 3 ∷ 4 ∷ 5 ∷ 6 ∷ 7 ∷ 8 ∷ []) ≡ done ec')
    × (length ec' ≡ 8)
    × (count 3 ec' ≡ 0)
re_orient-loses_third_example = re_orient-loses_third 1 2 3 4 5 6 7 8 refl

triangle_neighbors :
    get_neighborhood true false triangles
      (record {
        nelem = 4;
        sizes = [];
        rows = (1 ∷ []) ∷ (1 ∷ 2 ∷ []) ∷ (1 ∷ 2 ∷ []) ∷ (2 ∷ []) ∷ [];
      })
      new_connectivity
    ≡ done (record { nelem = 2; sizes = []; rows = (2 ∷ []) ∷ (1 ∷ []) ∷ [] })
unfolding get_neighborhood neighbor_rows gather gather_row gather_id clear_added remove_id sort_ids
    insert_sorted
triangle_neighbors = refl

get_neighborhood-inverse_example :
    (d : Connectivity) × (nbrs : Connectivity) × (inverse 0 4 triangles new_connectivity ≡ done d)
    × (get_neighborhood true true triangles d new_connectivity ≡ done nbrs)
    × (nbrs.nelem ≡ 2)
    × ((e f : ℕ)
        → 0 < e
        → e ≤ 2
        → count f (row_at nbrs.rows e)
          ≡ one_if
              (shares (row_at triangles.rows e) (row_at triangles.rows f) && not (true && f == e)))
get_neighborhood-inverse_example =
    get_neighborhood-inverse true true 0 4 triangles new_connectivity refl (omega arith)
      triangles-AllIds

count-get_adjacent_example :
    (adj : Connectivity) × (get_adjacent 0 4 true matrix graph new_connectivity ≡ done adj)
    × (adj.nelem ≡ 2)
    × ((k f : ℕ)
        → k < 2
        → count f (row_at adj.rows (suc k))
          ≡ one_if (touches f (row_at matrix.rows (suc k)) graph.rows))
count-get_adjacent_example =
    count-get_adjacent 0 4 true matrix graph new_connectivity refl (omega arith)
      (
        ((omega arith, omega arith), ((omega arith, omega arith), tt)),
        (
          (
            (omega arith, omega arith),
            ((omega arith, omega arith), ((omega arith, omega arith), tt)),
          ),
          tt,
        ),
      )
      graph-AllIds

count-elements_on_example :
    (subset : List ℕ) × (elements_on (3 ∷ 1 ∷ []) graph ≡ done subset)
    × IsSorted subset
    × ((f : ℕ) → count f subset ≡ one_if (touches f (3 ∷ 1 ∷ []) graph.rows))
count-elements_on_example =
    count-elements_on 4 (3 ∷ 1 ∷ []) graph
      ((omega arith, omega arith), ((omega arith, omega arith), tt)) graph-AllIds

-- An object with an array of its own, where another array is there too.
abbrev owner : Coordinates ℕ
owner = (
  record { ncdata = some 1; nnodes = 2; mydata = true },
  record { blocks = 1 ∷ 0 ∷ []; next_block = 2; contents = λ p. [] },
)
