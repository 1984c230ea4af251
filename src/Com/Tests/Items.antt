-- ===== src/Com/Tests/Items.antt =====
-- Small inputs for the sizes and the vector of data items, with each theorem applied to one of them.
use impact.Prelude.{◌≡◌, refl, pos, ◌+ℤ◌, true, false, some, [], ◌∷◌, length, arith}
use impact.Com.ItemSizes.{
  Sizes, own, from_key, from_parent, size_of_all_items, size_of_real_items, size_of_ghost_items,
}
use impact.Com.ItemSizes.Sums.{items_add_up}
use impact.Com.ItemSet.{AttrSet, new_dataitem, delete_dataitem}
use impact.Com.ItemSet.Removal.{delete_dataitem-new_dataitem}

-- A nodal item of a pane that ignores its ghosts; its coordinates come from another pane.
abbrev nodal : Sizes
nodal = from_key true (
    from_parent false
      (own false (record { nitems = pos 9; ngitems = pos 2; gap = pos 0; cap = pos 12 })))

items_add_up_example :
    size_of_all_items nodal ≡ size_of_real_items nodal +ℤ size_of_ghost_items nodal
items_add_up_example = items_add_up nodal refl refl

-- A pane with one item of one component, to which an item of three components is added.
abbrev one_item : AttrSet
one_item = some (record { address = 100; id = 0; ncomp = 1 }) ∷ []

delete_dataitem-new_dataitem_example :
    (s : AttrSet) × (new_dataitem 200 (length one_item) 3 one_item ≡ some s)
    × (delete_dataitem (length one_item) s ≡ some one_item)
delete_dataitem-new_dataitem_example = delete_dataitem-new_dataitem 200 3 one_item (omega arith)
