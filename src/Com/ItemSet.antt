-- ===== src/Com/ItemSet.antt =====
-- COM/src/Pane.C: `_attr_set`, the vector of the data items of a pane by their ids, in which an item with
-- more than one component is followed by its components. `none` is NULL, and an entry has the address of
-- its item; a failed assertion or an access past the vector gives no vector.
pub mod Removal
pub mod Kept
use impact.Prelude.{
  ℕ, zero, suc, ◌+◌, Option, none, some, List, [], ◌∷◌, length, get_elem?, set, ltb, leb, ◌==◌,
  ◌&&◌, ◌||◌, if◌then◌else◌,
}

pub record Entry : Type 0 where
  pub address : ℕ
  pub id : ℕ
  pub ncomp : ℕ

abbrev pub AttrSet : Type 0
AttrSet = List (Option Entry)

-- `_attr_set.resize(n, NULL)`
unfoldable pub resize : ℕ → AttrSet → AttrSet
resize zero s = []
resize (suc n) [] = none ∷ resize n []
resize (suc n) (x ∷ s) = x ∷ resize n s

-- The places of an item and its components.
abbrev pub width : ℕ → ℕ
width ncomp = ncomp + (if ltb 1 ncomp then 1 else 0)

abbrev pub put_at : Option (Option Entry) → Entry → AttrSet → Option AttrSet
put_at none a s = none
put_at (some none) a s = some (set s a.id (some a))
put_at (some (some b)) a s = if a.address == b.address then some (set s a.id (some a)) else none

-- void Pane::insert(DataItem *attr)
unfoldable pub insert_item : Entry → AttrSet → Option AttrSet
insert_item a s =
    let grown = if leb (length s) a.id then resize (a.id + width a.ncomp) s else s in
    put_at (get_elem? grown a.id) a grown

infixl 15 ◌>>=◌
abbrev pub ◌>>=◌ : Option AttrSet → (AttrSet → Option AttrSet) → Option AttrSet
none >>= rest = none
some s >>= rest = rest s

-- The loop over the components in `new_dataitem`: `count` of them are left, the next with this address
-- and id.
unfoldable pub insert_components : ℕ → (address id : ℕ) → AttrSet → Option AttrSet
insert_components zero address id s = some s
insert_components (suc count) address id s = do
  s' ← insert_item (record { address = address; id = id; ncomp = 1 }) s
  insert_components count (suc address) (suc id) s'

-- The objects at `dataitem(aid)` that are destructed to be made again; a NULL entry fails the
-- assertion, and what is past the objects of the item is out of range.
abbrev pub reused : Option (Option Entry) → (id ncomp : ℕ) → Option ℕ
reused none id ncomp = none
reused (some none) id ncomp = none
reused (some (some b)) id ncomp =
    if b.id == id && (leb (width ncomp) 1 || leb (width ncomp) (width b.ncomp))
    then some b.address
    else none

abbrev pub made_at : Option ℕ → (id ncomp : ℕ) → AttrSet → Option AttrSet
made_at none id ncomp s = none
made_at (some address) id ncomp s = do
  s' ← insert_item (record { address = address; id = id; ncomp = ncomp }) s
  insert_components (if ltb 1 ncomp then ncomp else 0) (suc address) (suc id) s'

-- DataItem *Pane::new_dataitem(...), what it does to `_attr_set`, where `new` returns the address; the
-- components stand behind the item. On a pane with a number, where it also looks up the connectivity of
-- an item with the location 'c', this is for the other locations.
unfoldable pub new_dataitem : (address id ncomp : ℕ) → AttrSet → Option AttrSet
new_dataitem address id ncomp s =
    let at = if leb (length s) id then some address else reused (get_elem? s id) id ncomp in
    made_at at id ncomp s

-- for (int i = id + ...; i >= id; --i) _attr_set[i] = NULL, for the places id to id + count
unfoldable pub reset : (count id : ℕ) → AttrSet → AttrSet
reset zero id s = set s id none
reset (suc count) id s = reset count id (set s (id + suc count) none)

-- void Pane::delete_dataitem(int id), for an id other than COM_DATA
abbrev pub delete_found : Option (Option Entry) → ℕ → AttrSet → Option AttrSet
delete_found none id s = none
delete_found (some none) id s = none
delete_found (some (some a)) id s =
    let cleared = reset (if ltb 1 a.ncomp then a.ncomp else 0) id s in
    some (if id + width a.ncomp == length s then resize id cleared else cleared)

unfoldable pub delete_dataitem : ℕ → AttrSet → Option AttrSet
delete_dataitem id s = delete_found (get_elem? s id) id s
