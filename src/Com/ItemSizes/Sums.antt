-- ===== src/Com/ItemSizes/Sums.antt =====
-- The real, the ghost and all items of a data item, side by side.
use impact.Prelude.{◌≡◌, ℤ, pos, ltb_ℤ, ◌+ℤ◌, ◌-ℤ◌, int_laws, true, false}
use impact.Com.ItemSizes.{
  Counts, Sizes, own, from_key, from_parent, size_of_real_items, size_of_ghost_items,
  size_of_all_items, maxsize_of_real_items, maxsize_of_ghost_items, maxsize_of_items,
}

-- The counts that an item gets in the end.
abbrev pub counts_of : Sizes → Counts
counts_of (own ignore c) = c
counts_of (from_key ignore s) = counts_of s
counts_of (from_parent ignore s) = counts_of s

nothing_added : (n : ℤ) → n ≡ n +ℤ pos 0
nothing_added n = omega int_laws

without_gap : (n g : ℤ) → n ≡ n -ℤ g -ℤ pos 0 +ℤ g
without_gap n g = omega int_laws

-- Where an item gets a positive number of items with no gap, its real and its ghost items are all its
-- items, whichever panes on the way ignore their ghosts.
pub items_add_up :
    (s : Sizes)
    → ltb_ℤ (pos 0) (counts_of s).nitems ≡ true
    → (counts_of s).gap ≡ pos 0
    → size_of_all_items s ≡ size_of_real_items s +ℤ size_of_ghost_items s
unfolding size_of_all_items size_of_real_items size_of_ghost_items
items_add_up (own true c) some_items gapless = nothing_added _
items_add_up (own false c) some_items gapless =
    rw (some_items, gapless) (without_gap c.nitems c.ngitems)
items_add_up (from_key true s) some_items gapless = nothing_added _
items_add_up (from_key false s) some_items gapless = items_add_up s some_items gapless
items_add_up (from_parent true s) some_items gapless = nothing_added _
items_add_up (from_parent false s) some_items gapless = items_add_up s some_items gapless

room : (n g c : ℤ) → c ≡ n -ℤ g +ℤ (g +ℤ (c -ℤ n))
room n g c = omega int_laws

-- Where an item gets a positive number of items, the numbers of real and of ghost items that its array
-- has room for add up to that of all items, whichever panes on the way ignore their ghosts.
pub maxsizes_add_up :
    (s : Sizes)
    → ltb_ℤ (pos 0) (counts_of s).nitems ≡ true
    → maxsize_of_items s ≡ maxsize_of_real_items s +ℤ maxsize_of_ghost_items s
unfolding maxsize_of_items maxsize_of_real_items maxsize_of_ghost_items
maxsizes_add_up (own true c) some_items = nothing_added _
maxsizes_add_up (own false c) some_items = rw some_items (room c.nitems c.ngitems c.cap)
maxsizes_add_up (from_key true s) some_items = nothing_added _
maxsizes_add_up (from_key false s) some_items = maxsizes_add_up s some_items
maxsizes_add_up (from_parent true s) some_items = nothing_added _
maxsizes_add_up (from_parent false s) some_items = maxsizes_add_up s some_items
