-- ===== src/Com/ItemSizes.antt =====
-- COM/src/DataItem.C: the numbers of items of a data item, which it has for itself, takes from the item
-- of the coordinates or the connectivity of its pane, or takes from its parent, a data item of another
-- pane.
pub mod Sums
use impact.Prelude.{ℤ, pos, ltb_ℤ, ◌+ℤ◌, ◌-ℤ◌, Bool, true, false, not, if◌then◌else◌}

-- `_nitems`, `_ngitems`, `_gap` and `_cap`
pub record Counts : Type 0 where
  pub nitems : ℤ
  pub ngitems : ℤ
  pub gap : ℤ
  pub cap : ℤ

-- Where an item gets its sizes: `own` without a parent; `from_key` of a nodal or elemental item, from
-- the item COM_NC or COM_CONN of the same pane; `from_parent`. With each the flag `_ignore_ghost` of
-- the item's pane.
pub data Sizes : Type 0 where
  own : Bool → Counts → Sizes
  from_key : Bool → Sizes → Sizes
  from_parent : Bool → Sizes → Sizes

-- `_nitems <= 0`
abbrev pub is_empty : Counts → Bool
is_empty c = not (ltb_ℤ (pos 0) c.nitems)

-- bool DataItem::size_set() const
unfoldable pub has_size : Sizes → Bool
has_size (own ignore c) = not (ltb_ℤ c.nitems (pos 0))
has_size (from_key ignore s) = has_size s
has_size (from_parent ignore s) = has_size s

-- int DataItem::size_of_real_items() const
unfoldable pub size_of_real_items : Sizes → ℤ
size_of_real_items (own ignore c) = if is_empty c then pos 0 else c.nitems -ℤ c.ngitems -ℤ c.gap
size_of_real_items (from_key ignore s) = size_of_real_items s
size_of_real_items (from_parent ignore s) = size_of_real_items s

-- int DataItem::size_of_ghost_items() const
unfoldable pub size_of_ghost_items : Sizes → ℤ
size_of_ghost_items (own ignore c) = if ignore then pos 0 else c.ngitems
size_of_ghost_items (from_key ignore s) =
    let taken = size_of_ghost_items s in if ignore then pos 0 else taken
size_of_ghost_items (from_parent ignore s) =
    let taken = size_of_ghost_items s in if ignore then pos 0 else taken

-- int DataItem::size_of_items() const
unfoldable pub size_of_all_items : Sizes → ℤ
unfolding size_of_real_items
size_of_all_items (own ignore c) =
    if ignore then size_of_real_items (own ignore c) else if is_empty c then pos 0 else c.nitems
size_of_all_items (from_key ignore s) =
    let taken = size_of_all_items s in if ignore then size_of_real_items s else taken
size_of_all_items (from_parent ignore s) =
    let taken = size_of_all_items s in if ignore then size_of_real_items s else taken

-- int DataItem::maxsize_of_real_items() const
unfoldable pub maxsize_of_real_items : Sizes → ℤ
maxsize_of_real_items (own ignore c) = if is_empty c then pos 0 else c.nitems -ℤ c.ngitems
maxsize_of_real_items (from_key ignore s) = maxsize_of_real_items s
maxsize_of_real_items (from_parent ignore s) = maxsize_of_real_items s

-- int DataItem::maxsize_of_ghost_items() const
unfoldable pub maxsize_of_ghost_items : Sizes → ℤ
maxsize_of_ghost_items (own ignore c) =
    if ignore then pos 0 else if is_empty c then pos 0 else c.ngitems +ℤ (c.cap -ℤ c.nitems)
maxsize_of_ghost_items (from_key ignore s) =
    let taken = maxsize_of_ghost_items s in if ignore then pos 0 else taken
maxsize_of_ghost_items (from_parent ignore s) =
    let taken = maxsize_of_ghost_items s in if ignore then pos 0 else taken

-- int DataItem::maxsize_of_items() const; `capacity()` of an item without a parent is its `_cap`.
unfoldable pub maxsize_of_items : Sizes → ℤ
unfolding maxsize_of_real_items
maxsize_of_items (own ignore c) = if ignore then maxsize_of_real_items (own ignore c) else c.cap
maxsize_of_items (from_key ignore s) =
    let taken = maxsize_of_items s in if ignore then maxsize_of_real_items s else taken
maxsize_of_items (from_parent ignore s) =
    let taken = maxsize_of_items s in if ignore then maxsize_of_real_items s else taken
