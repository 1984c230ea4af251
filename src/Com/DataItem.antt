-- ===== src/Com/DataItem.antt =====
-- COM/src/DataItem.C and COM/include/DataItem.hpp: the array of a data item that has its own sizes (one
-- with no parent that stands for the coordinates, the connectivity, or a datum of the pane or the
-- window). An address is a number and 0 is NULL; the `int`s for strides, capacities and indices are
-- natural numbers here. The state that an exception leaves behind is not modelled.
pub mod Address
pub mod Copy
use impact.Prelude.{
  ℕ, zero, suc, ◌+◌, ◌*◌, ℤ, pos_part, Bool, true, false, not, ◌&&◌, Option, none, some, List, [],
  ◌∷◌, ◌++◌, map, get_elem?, ltb, leb, ◌==◌, if◌then◌else◌,
}

pub data Status : Type 0 where
  status_not_initialized : Status
  status_set : Status
  status_set_const : Status
  status_use : Status
  status_allocated : Status

pub data Error : Type 0 where
  err_invalid_dimension : Error
  err_index_out_of_bounds : Error
  err_invalid_stride : Error
  err_invalid_capacity : Error

-- `undefined` is the use of a component that is not there.
pub data Outcome (A : Type 0) : Type 0 where
  done : A → Outcome A
  thrown : Error → Outcome A
  undefined : Outcome A

infixl 20 ◌>>=◌
abbrev pub ◌>>=◌ : {A B : Type 0} → Outcome A → (A → Outcome B) → Outcome B
done a >>= f = f a
thrown e >>= f = thrown e
undefined >>= f = undefined

-- What the item and each of its components has for itself.
pub record Array : Type 0 where
  pub ptr : ℕ
  pub cap : ℕ
  pub strd : ℕ
  pub nbytes_strd : ℕ
  pub status : Status
  pub nitems : ℤ
  pub ngitems : ℤ

-- The item `this[0]`, its components `this[1]`, ..., `this[_ncomp]` if it has more than one, and the
-- blocks it has given back by `delete[]`. `negative_id` is the test `_id < 0`.
pub record DataItem : Type 0 where
  pub negative_id : Bool
  pub ncomp : ℕ
  pub basesize : ℕ
  pub own : Array
  pub components : List Array
  pub freed : List ℕ

abbrev pub size_of_items : Array → ℕ
size_of_items a = pos_part a.nitems

abbrev pub resized : ℤ → ℤ → Array → Array
resized n g a = record a { nitems = n; ngitems = g }

-- void DataItem::set_size(int nitems, int ngitems)
unfoldable pub set_size : ℤ → ℤ → DataItem → DataItem
set_size n g d = record d {
  own = resized n g d.own;
  components = if ltb 1 d.ncomp then map (resized n g) d.components else d.components;
}

-- int DataItem::deallocate()
unfoldable pub freed_block : ℕ → List ℕ
freed_block zero = []
freed_block (suc p) = suc p ∷ []

unfoldable pub is_allocated : Status → Bool
is_allocated status_allocated = true
is_allocated _ = false

unfoldable pub has_components : DataItem → Bool
has_components d = ltb 1 d.ncomp && not d.negative_id

abbrev pub cleared : Array → Array
cleared a = record a { ptr = 0; status = status_not_initialized }

unfoldable pub deallocate : DataItem → DataItem
deallocate d = if not (is_allocated d.own.status) then d else record d {
  own = cleared d.own;
  components = if has_components d then map cleared d.components else d.components;
  freed = freed_block d.own.ptr ++ d.freed;
}

-- The address that `set_pointer` keeps.
unfoldable pub place : ℕ → ℕ → ℕ → ℕ → ℕ → ℕ
place basesize p strd cap offset =
    if not (p == 0) && not (offset == 0)
    then (if strd == 1 then p + offset * cap * (basesize * strd) else p + offset * basesize)
    else p

abbrev pub placed : ℕ → ℕ → ℕ → ℕ → ℕ → Bool → Array → Array
placed basesize p strd cap offset is_const a = record a {
  ptr = place basesize p strd cap offset;
  cap = cap;
  strd = strd;
  nbytes_strd = basesize * strd;
  status = if is_const then status_set_const else status_set;
}

-- The tests of `set_pointer`.
unfoldable pub refused : ℕ → ℕ → ℕ → ℕ → Array → Option Error
refused ncomp p strd cap a =
    if not (p == 0) && not (strd == 1) && ltb strd ncomp
    then some err_invalid_stride
    else if not (p == 0) && ltb cap (size_of_items a)
    then some err_invalid_capacity
    else none

abbrev pub unless : {A : Type 0} → Option Error → A → Outcome A
unless none a = done a
unless (some e) a = thrown e

-- `this[i].set_pointer(_ptr, _strd, _cap, i - 1, is_const)` from a component on: the arrays and the
-- blocks given back.
unfoldable pub set_components :
    ℕ → ℕ → ℕ → ℕ → ℕ → Bool → List Array → Outcome (List Array × List ℕ)
set_components basesize p strd cap offset is_const [] = done ([], [])
set_components basesize p strd cap offset is_const (a ∷ arrays) =
    unless (refused 1 p strd cap a) (placed basesize p strd cap offset is_const a) >>= λ b.
    set_components basesize p strd cap (suc offset) is_const arrays >>= λ rest.
    done (b ∷ rest.0, (if is_allocated a.status then freed_block a.ptr else []) ++ rest.1)

-- void DataItem::set_pointer(void *p, int strd, int cap, int offset, bool is_const)
abbrev pub spread : ℕ → ℕ → Bool → DataItem → Outcome DataItem
spread strd cap is_const d =
    if not (has_components d)
    then done d
    else set_components d.basesize d.own.ptr strd cap 0 is_const d.components >>= λ rest.
        done (record d { components = rest.0; freed = rest.1 ++ d.freed })

unfoldable pub set_pointer : ℕ → ℕ → ℕ → ℕ → Bool → DataItem → Outcome DataItem
set_pointer p strd cap offset is_const d =
    unless (refused d.ncomp p strd cap d.own) (deallocate d) >>= λ e.
    spread strd cap is_const (record e { own = placed e.basesize p strd cap offset is_const e.own })

-- const void *DataItem::get_addr(int i, int j) const
unfoldable pub item_addr : Array → ℕ → Outcome ℕ
item_addr a i =
    if leb (size_of_items a) i
    then thrown err_index_out_of_bounds
    else done (a.ptr + i * a.nbytes_strd)

abbrev pub addr_in : Option Array → ℕ → Outcome ℕ
addr_in none i = undefined
addr_in (some a) i = item_addr a i

unfoldable pub get_addr : DataItem → ℕ → ℕ → Outcome ℕ
get_addr d i j =
    if leb d.ncomp j
    then thrown err_invalid_dimension
    else if ltb 1 d.ncomp
    then addr_in (get_elem? d.components j) i
    else item_addr d.own i
