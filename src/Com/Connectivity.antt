-- ===== src/Com/Connectivity.antt =====
-- COM/src/Connectivity.C: the numbers of elements and nodes of a structured mesh, from its dimensions
-- `sizes[0]`, `sizes[1]`, `sizes[2]` and its ghost layers `_ngitems`. The results are the `int`s
-- before their conversion to the unsigned `Size`; that of other types of meshes is not computed here.
pub mod Structured
use impact.Prelude.{ℤ, pos, ◌-ℤ◌, ◌*ℤ◌, max_zero, Option, none, some}
use impact.Com.ElementType.{ElementType, st1, st2, st3}

pub record Dims : Type 0 where
  pub size_0 : ℤ
  pub size_1 : ℤ
  pub size_2 : ℤ
  pub ngitems : ℤ

-- `sizes[d] - 1`, `sizes[d] - 2 * _ngitems` and `sizes[d] - 1 - 2 * _ngitems`
abbrev pub cells : ℤ → ℤ
cells s = s -ℤ pos 1

abbrev pub real_nodes_along : ℤ → ℤ → ℤ
real_nodes_along s g = s -ℤ pos 2 *ℤ g

abbrev pub real_cells : ℤ → ℤ → ℤ
real_cells s g = s -ℤ pos 1 -ℤ pos 2 *ℤ g

-- The switches of the six methods on `_size_info[TYPE_ID]`; `none` is the failed assertion.
unfoldable pub size_of_elements : ElementType → Dims → Option ℤ
size_of_elements st1 d = some (max_zero (cells d.size_0))
size_of_elements st2 d = some (max_zero (cells d.size_0 *ℤ cells d.size_1))
size_of_elements st3 d = some (max_zero (cells d.size_0 *ℤ cells d.size_1 *ℤ cells d.size_2))
size_of_elements _ d = none

unfoldable pub size_of_ghost_elements : ElementType → Dims → Option ℤ
size_of_ghost_elements st1 d = some (max_zero (pos 2 *ℤ d.ngitems))
size_of_ghost_elements st2 d = some (
    max_zero (
      cells d.size_0 *ℤ cells d.size_1
      -ℤ real_cells d.size_0 d.ngitems *ℤ real_cells d.size_1 d.ngitems))
size_of_ghost_elements st3 d = some (
    max_zero (
      cells d.size_0 *ℤ cells d.size_1 *ℤ cells d.size_2
      -ℤ real_cells d.size_0 d.ngitems
        *ℤ real_cells d.size_1 d.ngitems
        *ℤ real_cells d.size_2 d.ngitems))
size_of_ghost_elements _ d = none

unfoldable pub size_of_real_elements : ElementType → Dims → Option ℤ
size_of_real_elements st1 d = some (max_zero (real_cells d.size_0 d.ngitems))
size_of_real_elements st2 d =
    some (max_zero (real_cells d.size_0 d.ngitems *ℤ real_cells d.size_1 d.ngitems))
size_of_real_elements st3 d = some (
    max_zero (
      real_cells d.size_0 d.ngitems
      *ℤ real_cells d.size_1 d.ngitems
      *ℤ real_cells d.size_2 d.ngitems))
size_of_real_elements _ d = none

unfoldable pub size_of_nodes : ElementType → Dims → Option ℤ
size_of_nodes st1 d = some d.size_0
size_of_nodes st2 d = some (d.size_0 *ℤ d.size_1)
size_of_nodes st3 d = some (d.size_0 *ℤ d.size_1 *ℤ d.size_2)
size_of_nodes _ d = none

unfoldable pub size_of_ghost_nodes : ElementType → Dims → Option ℤ
size_of_ghost_nodes st1 d = some (pos 2 *ℤ d.ngitems)
size_of_ghost_nodes st2 d = some (
    d.size_0 *ℤ d.size_1
    -ℤ real_nodes_along d.size_0 d.ngitems *ℤ real_nodes_along d.size_1 d.ngitems)
size_of_ghost_nodes st3 d = some (
    d.size_0 *ℤ d.size_1 *ℤ d.size_2
    -ℤ real_nodes_along d.size_0 d.ngitems
      *ℤ real_nodes_along d.size_1 d.ngitems
      *ℤ real_nodes_along d.size_2 d.ngitems)
size_of_ghost_nodes _ d = none

unfoldable pub size_of_real_nodes : ElementType → Dims → Option ℤ
size_of_real_nodes st1 d = some (real_nodes_along d.size_0 d.ngitems)
size_of_real_nodes st2 d =
    some (real_nodes_along d.size_0 d.ngitems *ℤ real_nodes_along d.size_1 d.ngitems)
size_of_real_nodes st3 d = some (
    real_nodes_along d.size_0 d.ngitems
    *ℤ real_nodes_along d.size_1 d.ngitems
    *ℤ real_nodes_along d.size_2 d.ngitems)
size_of_real_nodes _ d = none
