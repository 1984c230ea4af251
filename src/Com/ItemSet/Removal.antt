-- ===== src/Com/ItemSet/Removal.antt =====
-- Deleting the data item that was added last.
use impact.Prelude.{
  true, false, ℕ, zero, suc, ◌+◌, ◌<◌, ◌≡◌, refl, ap, ◌∙◌, Option, none, some, [], ◌∷◌, ◌++◌,
  length, length-append, get_elem?, set, ltb, leb, ◌==◌, ==_iff, if◌then◌else◌, arith,
}
use impact.Com.ItemSet.{
  Entry, AttrSet, resize, width, insert_item, insert_components, new_dataitem, reset,
  delete_dataitem,
}

abbrev empty_places : ℕ → AttrSet
empty_places zero = []
empty_places (suc n) = none ∷ empty_places n

length-empty_places : (n : ℕ) → length (empty_places n) ≡ n
length-empty_places zero = refl
length-empty_places (suc n) = ap suc (length-empty_places n)

resize-length : (s : AttrSet) (n : ℕ) → resize (length s + n) s ≡ s ++ empty_places n
unfolding resize
resize-length [] n = let e : 0 + n ≡ n = omega arith in rw e (resize_nothing n)
  where
    resize_nothing : (n : ℕ) → resize n [] ≡ empty_places n
    resize_nothing zero = refl
    resize_nothing (suc n) = ap (λ r. none ∷ r) (resize_nothing n)
resize-length (x ∷ s) n =
    let e : suc (length s) + n ≡ suc (length s + n) = omega arith in
    rw e (ap (λ r. x ∷ r) (resize-length s n))

resize-append : (s t : AttrSet) → resize (length s) (s ++ t) ≡ s
unfolding resize
resize-append [] t = refl
resize-append (x ∷ s) t = ap (λ r. x ∷ r) (resize-append s t)

pub get_elem?-append :
    (s t : AttrSet) (x : Option Entry) → get_elem? (s ++ x ∷ t) (length s) ≡ some x
get_elem?-append [] t x = refl
get_elem?-append (y ∷ s) t x = get_elem?-append s t x

set-append :
    (s t : AttrSet) (k : ℕ) (x : Option Entry) → set (s ++ t) (length s + k) x ≡ s ++ set t k x
set-append [] t k x = let e : 0 + k ≡ k = omega arith in rw e refl
set-append (y ∷ s) t k x =
    let e : suc (length s) + k ≡ suc (length s + k) = omega arith in
    rw e (ap (λ r. y ∷ r) (set-append s t k x))

set_first_place : (s t : AttrSet) (x y : Option Entry) → set (s ++ x ∷ t) (length s) y ≡ s ++ y ∷ t
set_first_place [] t x y = refl
set_first_place (z ∷ s) t x y = ap (λ r. z ∷ r) (set_first_place s t x y)

rejoin : (s t : AttrSet) (x : Option Entry) → (s ++ x ∷ []) ++ t ≡ s ++ x ∷ t
rejoin [] t x = refl
rejoin (y ∷ s) t x = ap (λ r. y ∷ r) (rejoin s t x)

null_at : (a : Entry) (s t : AttrSet) → a.id ≡ length s → get_elem? (s ++ none ∷ t) a.id ≡ some none
null_at a s t e = ap (get_elem? (s ++ none ∷ t)) e ∙ get_elem?-append s t none

put_first :
    (a : Entry) (s t : AttrSet)
    → a.id ≡ length s
    → set (s ++ none ∷ t) a.id (some a) ≡ s ++ some a ∷ t
put_first a s t e = ap (λ k. set (s ++ none ∷ t) k (some a)) e ∙ set_first_place s t none (some a)

-- Inserting an item at its place in a vector that is long enough, and has NULL there.
insert_inside :
    (a : Entry) (s t : AttrSet)
    → a.id ≡ length s
    → insert_item a (s ++ none ∷ t) ≡ some (s ++ some a ∷ t)
unfolding insert_item
insert_inside a s t e =
    let inside : leb (length (s ++ none ∷ t)) a.id ≡ false =
      ground (arith, e, length-append s (none ∷ t)) in
    rw (inside, null_at a s t e, put_first a s t e) refl

insert_components-append :
    (count address : ℕ) (s : AttrSet)
    → (block : AttrSet) × (insert_components count address (length s) (s ++ empty_places count)
        ≡ some (s ++ block))
      × (length block ≡ count)
unfolding insert_components
insert_components-append zero address s = ([], refl, refl)
insert_components-append (suc count) address s =
    let a : Entry = record { address = address; id = length s; ncomp = 1 } in
    let (block, e, len) = insert_components-append count (suc address) (s ++ some a ∷ []) in
    let longer : length (s ++ some a ∷ []) ≡ suc (length s) =
      omega (arith, length-append s (some a ∷ [])) in
    let after : insert_components count (suc address) (suc (length s))
          (s ++ some a ∷ empty_places count)
        ≡ some (s ++ some a ∷ block) =
      rw (← longer, ← (rejoin s (empty_places count) (some a)), ← (rejoin s block (some a))) e in
    (some a ∷ block, rw (insert_inside a s (empty_places count) refl) after, ap suc len)

components_behind :
    (count address : ℕ) (s : AttrSet) (x : Option Entry)
    → (block : AttrSet) × (insert_components count address
          (suc (length s))
          (s ++ x ∷ empty_places count)
        ≡ some (s ++ x ∷ block))
      × (length block ≡ count)
components_behind count address s x =
    let (block, e, len) = insert_components-append count address (s ++ x ∷ []) in
    let longer : length (s ++ x ∷ []) ≡ suc (length s) = omega (arith, length-append s (x ∷ [])) in
    (block, rw (← longer, ← (rejoin s (empty_places count) x), ← (rejoin s block x)) e, len)

-- Inserting an item behind all others makes its places.
insert_behind :
    (a : Entry) (s : AttrSet) (count : ℕ)
    → a.id ≡ length s
    → width a.ncomp ≡ suc count
    → insert_item a s ≡ some (s ++ some a ∷ empty_places count)
unfolding insert_item
insert_behind a s count e w =
    let outside : leb (length s) a.id ≡ true = ground (arith, e) in
    let grown : resize (a.id + width a.ncomp) s ≡ s ++ none ∷ empty_places count =
      ap (λ k. resize (k + width a.ncomp) s) e
      ∙ ap (λ k. resize (length s + k) s) w
      ∙ resize-length s (suc count) in
    rw (outside, grown, null_at a s (empty_places count) e, put_first a s (empty_places count) e)
      refl

reset-append :
    (count : ℕ) (s t : AttrSet) → (t' : AttrSet) × (reset count (length s) (s ++ t) ≡ s ++ t')
unfolding reset
reset-append zero s t =
    let e : length s ≡ length s + 0 = omega arith in
    (set t 0 none, ap (λ k. set (s ++ t) k none) e ∙ set-append s t 0 none)
reset-append (suc count) s t =
    let (t', e) = reset-append count s (set t (suc count) none) in
    (t', ap (reset count (length s)) (set-append s t (suc count) none) ∙ e)

-- A data item that is added behind all others, with its components.
pub new_dataitem-append :
    (address ncomp : ℕ) (s : AttrSet)
    → 0 < ncomp
    → (block : AttrSet) × (new_dataitem address (length s) ncomp s
        ≡ some (s ++ some (record { address = address; id = length s; ncomp = ncomp }) ∷ block))
      × (length s + width ncomp
          ≡ length (s ++ some (record { address = address; id = length s; ncomp = ncomp }) ∷ block))
unfolding new_dataitem
new_dataitem-append address ncomp s h =
    let count : ℕ = if ltb 1 ncomp then ncomp else 0 in
    let a : Entry = record { address = address; id = length s; ncomp = ncomp } in
    let places : width ncomp ≡ suc count = ground arith in
    let behind : leb (length s) (length s) ≡ true = ground arith in
    let (block, e, len) = components_behind count (suc address) s (some a) in
    (
      block,
      rw (behind, insert_behind a s count refl places) e,
      omega (arith, places, len, length-append s (some a ∷ block)),
    )

-- A data item that is added behind all others, with its components, and then deleted leaves
-- `_attr_set` as it was.
pub delete_dataitem-new_dataitem :
    (address ncomp : ℕ) (s : AttrSet)
    → 0 < ncomp
    → (s' : AttrSet) × (new_dataitem address (length s) ncomp s ≡ some s')
      × (delete_dataitem (length s) s' ≡ some s)
unfolding delete_dataitem
delete_dataitem-new_dataitem address ncomp s h =
    let count : ℕ = if ltb 1 ncomp then ncomp else 0 in
    let a : Entry = record { address = address; id = length s; ncomp = ncomp } in
    let (block, e, full) = new_dataitem-append address ncomp s h in
    let (left, cleared) = reset-append count s (some a ∷ block) in
    let last : (length s + width ncomp == length (s ++ some a ∷ block)) ≡ true =
      (==_iff (length s + width ncomp) (length (s ++ some a ∷ block))).1 full in
    (
      s ++ some a ∷ block,
      e,
      rw (get_elem?-append s block (some a), last, cleared) (ap some (resize-append s left)),
    )
