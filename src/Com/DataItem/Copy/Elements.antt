-- ===== src/Com/DataItem/Copy/Elements.antt =====
-- `copy_array` from its tests to the elements that it copies.
use impact.Prelude.{
  ℕ, ◌+◌, ◌≤◌, ◌<◌, ◌≡◌, refl, inl, inr, arith, ltb, ◌==◌, Bool-cases, true, false, ◌&&◌, ◌||◌, not,
  pos, eq_ℤ,
}
use impact.Com.DataItem.{DataItem, size_of_items, set_size}
use impact.Com.DataItem.Copy.{
  append_array, stepping, Memory, copied, copy_array, copy_checked, is_const, copy_each, copy_items,
  min,
}
use impact.Com.DataItem.Copy.Slots.{IsStride}

-- Items are appended to a data item of the pane or the window that has none, is not constant and has
-- the capacity for them, from a buffer with an accepted stride and another layout than the array:
-- `append_array` copies nothing, and only raises the number of items.
pub append_array_empty :
    (from strd nitem : ℕ) (d : DataItem) (m : Memory)
    → 0 < from
    → 0 < nitem
    → nitem ≤ d.own.cap
    → IsStride strd d.ncomp
    → 0 < strd
    → is_const d ≡ false
    → size_of_items d.own ≡ 0
    → eq_ℤ d.own.ngitems (pos 0) ≡ true
    → (d.own.strd == strd && (d.own.strd == d.ncomp || (nitem == d.own.cap && strd == 1))) ≡ false
    → append_array from strd nitem true d m ≡ copied (set_size (pos nitem) (pos 0) d, m)
unfolding append_array copy_array copy_checked copy_each copy_items stepping
append_array_empty from strd nitem d m given more fits b s c none_yet g differ =
    let not_none : (nitem == 0) ≡ false = ground arith in
    let no_null : (from == 0) ≡ false = ground arith in
    let own_stride : (strd == 0) ≡ false = ground arith in
    let room : ltb d.own.cap (nitem + 0) ≡ false = ground arith in
    let stride : (not (strd == 1) && ltb strd d.ncomp) ≡ false = elim b [
      | inl one ↦ ground arith
      | inr (ne, le) ↦ ground arith
    ] in
    let all : min nitem 0 ≡ 0 = ground arith in
    let z : 0 + nitem ≡ nitem = omega arith in
    rw (g, none_yet, c, own_stride, not_none, no_null, stride, room, differ, all)
      (elim (Bool-cases (ltb 1 d.own.strd && ltb 1 strd)) [
        | inl rows ↦ rw (rows, z) refl
        | inr columns ↦ rw (columns, z) refl
      ])
