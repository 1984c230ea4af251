-- ===== src/Com/ObjectMap.antt =====
-- COM/include/maps.hpp: `COM_map`, the tables from names to handles of modules, windows, functions
-- and data items. The `std::map` is an association list of which only the lookups are used.
pub mod Consistent
pub mod Lookups
use Prim.Native.String.{◌++◌ as str_append}
use impact.Prelude.{
  ℕ, zero, suc, ◌-◌, String, str_eq, Bool, Option, none, some, List, [], ◌∷◌, ◌++◌, length,
  get_elem?, set, erase_at, ltb, if◌then◌else◌,
}

abbrev pub Names : Type 0
Names = List (String × ℕ)

unfoldable pub lookup : String → Names → Option ℕ
lookup k [] = none
lookup k ((n, i) ∷ m) = if str_eq n k then some i else lookup k m

-- `n2i[name] = i` for a name that is there or not
unfoldable pub insert : String → ℕ → Names → Names
insert k i [] = (k, i) ∷ []
insert k i ((n, j) ∷ m) = if str_eq n k then (n, i) ∷ m else (n, j) ∷ insert k i m

-- `n2i.erase(it)`
unfoldable pub without : String → Names → Names
without k [] = []
without k ((n, i) ∷ m) = let rest = without k m in if str_eq n k then rest else (n, i) ∷ rest

-- The loop that lowers the indices above the one removed.
unfoldable pub lower_above : ℕ → Names → Names
lower_above i [] = []
lower_above i ((n, j) ∷ m) = (n, if ltb i j then j - 1 else j) ∷ lower_above i m

pub record ObjectMap (A : Type 0) : Type 0 where
  pub i2o : List A
  pub n2i : Names
  pub names : List String

-- The name under which `add_object` and `remove_object` keep an object, and that by which `find`
-- looks for it.
abbrev pub stored_name : String → Bool → String
stored_name name is_const = if is_const then str_append name " (const)" else name

abbrev pub sought_name : String → Bool → String
sought_name name is_const = if is_const then str_append name "(const)" else name

module _ {A : Type 0} where
  abbrev pub append_object : String → A → ObjectMap A → ObjectMap A × ℕ
  append_object name t m = (
    record {
      i2o = m.i2o ++ t ∷ [];
      n2i = insert name (length m.i2o) m.n2i;
      names = m.names ++ name ∷ [];
    },
    length m.i2o,
  )

  -- The test `i > 0`, on the index found or -1.
  unfoldable pub add_at : Option ℕ → String → A → ObjectMap A → ObjectMap A × ℕ
  add_at none name t m = append_object name t m
  add_at (some zero) name t m = append_object name t m
  add_at (some (suc i)) name t m = (record m { i2o = set m.i2o (suc i) t }, suc i)

  -- int COM_map<Object>::add_object(std::string name, Object t, bool is_const)
  unfoldable pub add_object : String → A → Bool → ObjectMap A → ObjectMap A × ℕ
  add_object name t is_const m =
      let key = stored_name name is_const in add_at (lookup key m.n2i) key t m

  abbrev pub removed : Option ℕ → String → ObjectMap A → Option (ObjectMap A)
  removed none key m = none
  removed (some i) key m = some (record {
    i2o = erase_at m.i2o i;
    n2i = lower_above i (without key m.n2i);
    names = erase_at m.names i;
  })

  -- void COM_map<Object>::remove_object(std::string name, bool is_const); `none` is the exception
  -- COM_UNKNOWN_ERROR.
  unfoldable pub remove_object : String → Bool → ObjectMap A → Option (ObjectMap A)
  remove_object name is_const m =
      let key = stored_name name is_const in removed (lookup key m.n2i) key m

  -- std::pair<int, Object *> find(const std::string &name, bool is_const)
  abbrev pub found_at : Option ℕ → ObjectMap A → Option (ℕ × Option A)
  found_at none m = none
  found_at (some i) m = some (i, get_elem? m.i2o i)

  unfoldable pub find : String → Bool → ObjectMap A → Option (ℕ × Option A)
  find name is_const m = found_at (lookup (sought_name name is_const) m.n2i) m

abbrev pub empty_map : {A : Type 0} → ObjectMap A
empty_map = record { i2o = []; n2i = []; names = [] }
