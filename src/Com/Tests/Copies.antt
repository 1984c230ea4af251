-- ===== src/Com/Tests/Copies.antt =====
-- Copies between small arrays, with each theorem on `copy_array` applied to one of them.
use impact.Prelude.{ℕ, ◌≡◌, refl, inr, true, false, pos, [], ◌∷◌, arith}
use impact.Com.DataItem.{DataItem, Array, status_set, set_size}
use impact.Com.DataItem.Copy.{
  Memory, copy_in, copied, copy_array, append_array, copy_checked, copy_each, copy_items, stepping,
  memcpy,
}
use impact.Com.DataItem.Copy.Elements.{append_array_empty}

-- A component of an array of two components and three places, component by component from 100.
abbrev column : (ptr items : ℕ) → Array
column ptr items = record {
  ptr = ptr;
  cap = 3;
  strd = 1;
  nbytes_strd = 2;
  status = status_set;
  nitems = pos items;
  ngitems = pos 0;
}

abbrev columns : ℕ → DataItem
columns items = record {
  negative_id = false;
  ncomp = 2;
  basesize = 2;
  own = column 100 items;
  components = column 100 items ∷ column 106 items ∷ [];
  freed = [];
}

-- Each byte is its own address.
abbrev addresses : Memory
addresses a = a

append_array_empty_example :
    append_array 200 2 1 true (columns 0) addresses
    ≡ copied (set_size (pos 1) (pos 0) (columns 0), addresses)
append_array_empty_example =
    append_array_empty 200 2 1 (columns 0) addresses (omega arith) (omega arith) (omega arith)
      (inr (λ e. omega arith, omega arith)) (omega arith) refl refl refl refl

-- An item copied to the last place: the array ends before 112, and bytes at 114 are written.
past_end :
    (m' : Memory) × (copy_array copy_in 200 1 1 2 (columns 2) addresses ≡ copied m')
    × (m' 114 ≡ 202)
unfolding copy_array copy_checked copy_each copy_items stepping memcpy
past_end = (_, refl, refl)
