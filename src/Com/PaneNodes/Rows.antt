-- ===== src/Com/PaneNodes/Rows.antt =====
-- Which nodes `position_allowed2D` accepts.
use impact.Prelude.{ℕ, ◌+◌, ◌-◌, ◌*◌, ◌/◌, ◌%◌, ◌<◌, ◌≡◌, ltb, arith}
use native.Mathlib.Nat.{mod-lt}
use impact.Com.PaneNodes.{new_2d, set_first, position_allowed2_d}

-- On a structured pane of two dimensions with at least one node in a row, for an enumerator that is
-- constructed for the real nodes of a pane without ghost layers and stands at the node with index
-- `indx` from 0, `position_allowed2D` accepts the nodes of the first two rows alone, though every
-- node is a real node.
pub position_allowed2_d-new_2d :
    (size_i size_j indx : ℕ)
    → 0 < size_i
    → position_allowed2_d (record (new_2d size_i size_j 0 0) { node_num = indx + 1 })
      ≡ ltb (indx % (size_i * size_j) / size_i) 2
unfolding position_allowed2_d new_2d set_first
position_allowed2_d-new_2d size_i size_j indx h =
    let e : indx + 1 - 1 ≡ indx = omega arith in rw e (ground (arith, mod-lt indx h))
