-- ===== src/Com/PaneNodes.antt =====
-- COM/src/Pane_node_accessors.C and COM/include/Pane_node_accessors.hpp: `Pane_node_enumerator` on
-- structured meshes. The fields are `int`s that are never negative; where the source subtracts in
-- a test, the same test is written here with a sum on its other side. `size_of_nodes` is `none` while
-- `_size_of_nodes` has no value: the constructor sets it on unstructured panes alone.
pub mod Rows
use impact.Prelude.{ℕ, ◌+◌, ◌-◌, ◌*◌, ◌/◌, ◌%◌, Bool, ◌||◌, not, ltb, Option, none}

pub record PaneNodes : Type 0 where
  pub ni : ℕ
  pub nj : ℕ
  pub nk : ℕ
  pub buffer : ℕ
  pub node_num : ℕ
  pub size_of_nodes : Option ℕ

-- void set_first()
unfoldable pub set_first : PaneNodes → PaneNodes
set_first s = record s { node_num = s.ni * s.nj * s.buffer + s.ni * s.buffer + s.buffer + 1 }

-- The constructor on a structured pane of two dimensions, with `layers` ghost layers and the
-- argument `i`.
unfoldable pub new_2d : (size_i size_j layers i : ℕ) → PaneNodes
new_2d size_i size_j layers i = set_first (record {
  ni = size_i;
  nj = size_j;
  nk = 1;
  buffer = layers - i;
  node_num = 1;
  size_of_nodes = none;
})

-- The constructor on a structured pane of three dimensions; `nj` is set from `size_i()` there.
unfoldable pub new_3d : (size_i size_k layers i : ℕ) → PaneNodes
new_3d size_i size_k layers i = set_first (record {
  ni = size_i;
  nj = size_i;
  nk = size_k;
  buffer = layers - i;
  node_num = 1;
  size_of_nodes = none;
})

-- bool position_allowed3D()
unfoldable pub position_allowed3_d : PaneNodes → Bool
position_allowed3_d s =
    let indx = s.node_num - 1 in
    not (
      ltb indx (s.ni * s.nj * s.buffer)
      || (ltb (indx % (s.ni * s.nj) / s.ni) s.buffer
          || (ltb (indx % s.ni) s.buffer
              || (ltb s.ni (indx % s.ni + s.buffer)
                  || (ltb s.nk (indx % (s.ni * s.nj) / s.ni + s.buffer)
                      || ltb (s.ni * s.nj * s.nk) (indx + s.ni * s.nj * s.buffer))))))

-- bool position_allowed2D()
unfoldable pub position_allowed2_d : PaneNodes → Bool
position_allowed2_d s =
    let indx = s.node_num - 1 in
    not (
      ltb (indx % (s.ni * s.nj) / s.ni) s.buffer
      || (ltb (indx % s.ni) s.buffer
          || (ltb s.ni (indx % s.ni + s.buffer)
              || ltb s.nk (indx % (s.ni * s.nj) / s.ni + s.buffer))))
