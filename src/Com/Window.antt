-- ===== src/Com/Window.antt =====
-- COM/src/ComponentInterface.C: the data items of a window by their names, the ids that they get, and the
-- functions of a window, for a window that has no pane yet: the loops over `_pane_map` have no round.
-- `attr_set` is `_attr_set` of `_dummy`, the pane of the window itself. An item takes a place for itself
-- and, where it has more than one component, one for each of them. The state that an exception or a
-- failed assertion leaves behind is not modelled.
pub mod Names
pub mod Registered
pub mod Kept
pub mod Deleted
pub mod Entered
pub mod Done
use Prim.Native.Char.{code}
use Prim.Native.String
use impact.Prelude.{
  ℕ, suc, ◌+◌, ℤ, pos, negsuc, ltb_ℤ, String, str_eq, Bool, true, false, not, ◌&&◌, ◌||◌, Option,
  none, some, List, [], ◌∷◌, ltb, leb, ◌==◌, if◌then◌else◌,
}
use impact.Com.ItemSet.{AttrSet, resize, width, new_dataitem, delete_dataitem}

pub data WindowStatus : Type 0 where
  status_shrunk status_changed status_nochange : WindowStatus

pub data WindowError : Type 0 where
  err_invalid_dataitem_name err_invalid_dimension err_unknown_keyword : WindowError
  err_unknown_datatype err_dataitem_notexist warn_dup_func failed_assertion : WindowError

pub data WindowOutcome (A : Type 0) : Type 0 where
  returned : A → WindowOutcome A
  thrown : WindowError → WindowOutcome A

infixl 5 ◌>>=◌
abbrev pub ◌>>=◌ : {A B : Type 0} → WindowOutcome A → (A → WindowOutcome B) → WindowOutcome B
returned a >>= f = f a
thrown e >>= f = thrown e

infixl 5 ◌>>◌
abbrev pub ◌>>◌ : {B : Type 0} → WindowOutcome (Unit {0}) → WindowOutcome B → WindowOutcome B
m >> k = m >>= λ _. k

abbrev pub unless_error : Bool → WindowError → WindowOutcome (Unit {0})
unless_error true e = thrown e
unless_error false e = returned tt

-- What the window keeps of an item.
pub record WindowItem : Type 0 where
  pub id : ℕ
  pub ncomp : ℕ

abbrev pub AttrMap : Type 0
AttrMap = List (String × WindowItem)

pub record Window : Type 0 where
  pub attr_map : AttrMap
  pub func_map : List (String × ℕ)
  pub last_id : ℕ
  pub status : WindowStatus
  pub attr_set : AttrSet

abbrev pub com_data : ℕ
com_data = 11

abbrev pub com_num_keywords : ℕ
com_num_keywords = 13

abbrev keyword : String → ℕ → ℕ → String × WindowItem
keyword name id ncomp = (name, record { id = id; ncomp = ncomp })

-- The keywords whose names do not start with a digit.
abbrev pub keywords : AttrMap
keywords =
    keyword "nc" 0 3
    ∷ keyword "conn" 4 0
    ∷ keyword "mesh" 5 0
    ∷ keyword "pconn" 6 1
    ∷ keyword "ridges" 7 2
    ∷ keyword "pmesh" 10 0
    ∷ keyword "data" 11 0
    ∷ keyword "all" 12 0
    ∷ []

-- The keywords of `_dummy`, one object behind the other from the address 0 on.
abbrev pub keyword_set : ℕ → List ℕ → AttrSet
keyword_set id [] = []
keyword_set id (ncomp ∷ sizes) =
    some (record { address = id; id = id; ncomp = ncomp }) ∷ keyword_set (suc id) sizes

-- ComponentInterface(const std::string &s, MPI_Comm c)
abbrev pub new_window : Window
new_window = record {
  attr_map = keywords;
  func_map = [];
  last_id = com_num_keywords;
  status = status_nochange;
  attr_set = keyword_set 0 (3 ∷ 1 ∷ 1 ∷ 1 ∷ 0 ∷ 0 ∷ 1 ∷ 2 ∷ 1 ∷ 1 ∷ 0 ∷ 0 ∷ 0 ∷ []);
}

module _ {A : Type 0} where
  unfoldable pub find_name : String → List (String × A) → Option A
  find_name k [] = none
  find_name k ((n, a) ∷ m) = if str_eq n k then some a else find_name k m

  -- `_attr_map[aname] = a`
  unfoldable pub assign : String → A → List (String × A) → List (String × A)
  assign k a [] = (k, a) ∷ []
  assign k a ((n, b) ∷ m) = if str_eq n k then (n, a) ∷ m else (n, b) ∷ assign k a m

  -- `_attr_map.erase(it)`
  unfoldable pub erase_name : String → List (String × A) → List (String × A)
  erase_name k [] = []
  erase_name k ((n, a) ∷ m) = let rest = erase_name k m in if str_eq n k then m else (n, a) ∷ rest

-- `aname[0]`
abbrev pub first_char : String → ℕ
first_char String.[] = 0
first_char (String.◌∷◌ c s) = code c

-- Connectivity::is_element_name(aname) || DataItem::is_digit(aname[0])
abbrev pub is_reserved_name : String → Bool
is_reserved_name aname =
    first_char aname == b':' || (leb b'0' (first_char aname) && leb (first_char aname) b'9')

abbrev pub is_location : ℕ → Bool
is_location loc = loc == b'w' || loc == b'p' || loc == b'e' || loc == b'n' || loc == b'c'

abbrev pub changed_status : WindowStatus → WindowStatus
changed_status status_nochange = status_changed
changed_status status_changed = status_changed
changed_status status_shrunk = status_shrunk

abbrev pub stored : Option AttrSet → WindowOutcome AttrSet
stored none = thrown failed_assertion
stored (some s) = returned s

-- `delete_dataitem(id)` of `_dummy`
abbrev pub delete_from_set : ℕ → AttrSet → Option AttrSet
delete_from_set id s =
    if id == com_data then some (resize com_num_keywords s) else delete_dataitem id s

-- An item goes from the map: one at the last places, and one before others.
abbrev pub drop_last : String → WindowItem → Window → Window
drop_last aname a w = record w {
  attr_map = erase_name aname w.attr_map;
  last_id = a.id;
  status = changed_status w.status;
}

abbrev pub drop_inside : String → Window → Window
drop_inside aname w = record w { attr_map = erase_name aname w.attr_map; status = status_shrunk }

-- The rest of `delete_dataitem` for an item that was found, when it is gone from `_dummy`.
abbrev pub drop_entry : String → WindowItem → Window → Window
drop_entry aname a w =
    if not (a.id == com_data)
    then (if w.last_id == a.id + width a.ncomp then drop_last aname a w else drop_inside aname w)
    else if ltb com_num_keywords w.last_id
    then record w { attr_map = keywords; last_id = com_num_keywords; status = status_changed }
    else w

abbrev pub delete_entry : String → WindowItem → Window → WindowOutcome Window
delete_entry aname a w =
    if ltb a.id com_num_keywords && not (a.id == com_data)
    then thrown err_invalid_dataitem_name
    else (stored (delete_from_set a.id w.attr_set) >>= λ s.
        returned (drop_entry aname a (record w { attr_set = s })))

abbrev pub delete_lookup : String → Option WindowItem → Window → WindowOutcome Window
delete_lookup aname none w = thrown err_dataitem_notexist
delete_lookup aname (some a) w = delete_entry aname a w

-- void delete_dataitem(const std::string &aname)
unfoldable pub delete_window_dataitem : String → Window → WindowOutcome Window
delete_window_dataitem aname w = delete_lookup aname (find_name aname w.attr_map) w

-- An item at an id; `new` returns `address`.
abbrev pub enter_item : (address : ℕ) → String → (id ncomp : ℕ) → Window → WindowOutcome Window
enter_item address aname id ncomp w = stored (new_dataitem address id ncomp w.attr_set) >>= λ s.
    returned (record w {
      attr_map = assign aname (record { id = id; ncomp = ncomp }) w.attr_map;
      status = changed_status w.status;
      attr_set = s;
    })

-- An item at a new id.
abbrev pub enter_new : (address : ℕ) → String → ℕ → Window → WindowOutcome Window
enter_new address aname ncomp w = enter_item address aname w.last_id ncomp w >>= λ w'.
    returned (record w' { last_id = w.last_id + width ncomp })

abbrev pub redefine : (address : ℕ) → String → ℕ → Option WindowItem → Window → WindowOutcome Window
redefine address aname ncomp none w = enter_new address aname ncomp w
redefine address aname ncomp (some a) w =
    if ltb a.ncomp ncomp
    then (unless_error (ltb a.id com_num_keywords) failed_assertion >>= λ _.
        delete_window_dataitem aname w >>= λ w'. enter_new address aname ncomp w')
    else enter_item address aname a.id ncomp w

-- DataItem *new_dataitem(const std::string &aname, const char loc, const int type, int ncomp, ...), where
-- `new` returns `address`
unfoldable pub new_window_dataitem :
    (address : ℕ) → String → (loc : ℕ) → ℤ → (ncomp : ℕ) → Window → WindowOutcome Window
new_window_dataitem address aname loc type ncomp w = do
  unless_error (is_reserved_name aname) err_invalid_dataitem_name
  unless_error (ncomp == 0) err_invalid_dimension
  unless_error (not (is_location loc)) err_unknown_keyword
  unless_error (ltb_ℤ type (negsuc 5) || ltb_ℤ (pos 21) type) err_unknown_datatype
  redefine address aname ncomp (find_name aname w.attr_map) w

-- The loop of `init_done` over the items.
unfoldable pub max_id : ℕ → AttrMap → ℕ
max_id m [] = m
max_id m ((n, a) ∷ items) =
    max_id (if ltb m (a.id + width a.ncomp) then a.id + width a.ncomp else m) items

-- void init_done(bool pane_changed), for `pane_changed` false
abbrev pub shrink : WindowStatus → Window → Window
shrink status_shrunk w =
    let m = max_id 0 w.attr_map in if ltb m w.last_id then record w { last_id = m } else w
shrink status_changed w = w
shrink status_nochange w = w

unfoldable pub init_done : Window → Window
init_done w = record (shrink w.status w) { status = status_nochange }

-- void set_function(const std::string &fname, Func_ptr func, ...), for the handle of a function
abbrev pub enter_function : String → ℕ → Option ℕ → Window → WindowOutcome Window
enter_function fname func none w = returned (record w { func_map = assign fname func w.func_map })
enter_function fname func (some f) w = thrown warn_dup_func

unfoldable pub set_function : String → ℕ → Window → WindowOutcome Window
set_function fname func w = enter_function fname func (find_name fname w.func_map) w
