-- ===== src/Com/Tests/Data.antt =====
-- Small data items and tables of names, with each theorem on them applied to one of them.
use impact.Prelude.{
  ℕ, zero, suc, ◌<◌, ◌≡◌, ◌≢◌, refl, String, pos, true, false, Option, none, some, [], ◌∷◌, arith,
  ◌*◌, ◌+◌, str_eq_iff, get_elem?, some_injective,
}
use mathlib.Core.Option
use impact.Com.ObjectMap.{
  ObjectMap, lookup, insert, without, lower_above, add_object, add_at, remove_object, find,
  empty_map,
}
use impact.Com.ObjectMap.Consistent.{
  IsConsistent, add_object-IsConsistent, remove_object-IsConsistent,
}
use impact.Com.ObjectMap.Lookups.{find-add_object, find-remove_object}
use impact.Com.DataType.{
  Platform, type_id, get_sizeof, same_kind, compatible_types, com_int, com_unsigned, com_double,
}
use impact.Com.DataType.Compatible.{get_sizeof-scale, get_sizeof-compatible}
use impact.Com.DataItem.{
  size_of_items, Array, DataItem, Outcome, done, status_not_initialized, set_size, set_pointer,
  deallocate, is_allocated, freed_block, has_components, place, refused, set_components, get_addr,
}
use impact.Com.DataItem.Address.{IsSized, slot, set_size-IsSized, get_addr-set_pointer}

-- The types of a platform with 32-bit `int` and 64-bit `long`.
abbrev lp64 : Platform
lp64 = record {
  short_size = 2;
  int_size = 4;
  long_size = 8;
  float_size = 4;
  double_size = 8;
  long_double_size = 16;
  comm_size = 4;
  pointer_size = 8;
}

int_unsigned : compatible_types lp64 com_int com_unsigned ≡ true
unfolding compatible_types type_id get_sizeof same_kind
int_unsigned = refl

get_sizeof-scale_example :
    get_sizeof lp64 com_double 3 ≡ Option.map (λ size. 3 * size) (get_sizeof lp64 com_double 1)
get_sizeof-scale_example = get_sizeof-scale lp64 com_double 3

get_sizeof-compatible_example : get_sizeof lp64 com_int 7 ≡ get_sizeof lp64 com_unsigned 7
get_sizeof-compatible_example = get_sizeof-compatible lp64 com_int com_unsigned 7 int_unsigned

-- A vector of three components with 5 items, stored by components in an array of capacity 6.
abbrev bare : Array
bare = record {
  ptr = 0;
  cap = 0;
  strd = 0;
  nbytes_strd = 0;
  status = status_not_initialized;
  nitems = pos 0;
  ngitems = pos 0;
}

abbrev unset : DataItem
unset = record {
  negative_id = false;
  ncomp = 3;
  basesize = 8;
  own = bare;
  components = bare ∷ bare ∷ bare ∷ [];
  freed = [];
}

unset-IsSized : IsSized unset 0
unset-IsSized = record { has_id = refl; own_size = refl; count = λ h. refl; sizes = sizes_of }
  where
    sizes_of :
        (j : ℕ) (a : Array) → get_elem? (bare ∷ bare ∷ bare ∷ []) j ≡ some a → size_of_items a ≡ 0
    sizes_of zero a e = rw (← (some_injective e)) refl
    sizes_of (suc zero) a e = rw (← (some_injective e)) refl
    sizes_of (suc (suc zero)) a e = rw (← (some_injective e)) refl
    sizes_of (suc (suc (suc j))) a e = cc

abbrev vector : DataItem
vector = set_size (pos 5) (pos 0) unset

vector-IsSized : IsSized vector 5
vector-IsSized = set_size-IsSized unset (pos 5) (pos 0) 0 unset-IsSized (omega arith)

unfolded_items : Unit {0}
unfolding set_size set_pointer deallocate is_allocated freed_block has_components place refused
    set_components
unfolded_items = tt

abbrev or_unset : Outcome DataItem → DataItem
or_unset (done d) = d
or_unset _ = unset

abbrev pointed : DataItem
pointed = or_unset (set_pointer 1000 1 6 0 false vector)

at_address : set_pointer 1000 1 6 0 false vector ≡ done pointed
unfolding unfolded_items
at_address = refl

vector_ncomp : 2 < vector.ncomp
unfolding set_size
vector_ncomp = omega arith

get_addr-set_pointer_example :
    get_addr pointed 4 2 ≡ done (place vector.basesize 1000 1 6 0 + slot 1 6 4 2 * vector.basesize)
get_addr-set_pointer_example =
    get_addr-set_pointer vector pointed 5 1000 1 6 0 4 2 false vector-IsSized (λ e. cc) at_address
      (omega arith) vector_ncomp

-- The map with the objects 7 and 8 under the names "a" and "b".
abbrev map_a : ObjectMap ℕ
map_a = (add_object "a" 7 false empty_map).0

abbrev map_ab : ObjectMap ℕ
map_ab = (add_object "b" 8 false map_a).0

unfolded_maps : Unit {0}
unfolding lookup insert without lower_above add_object add_at remove_object find
unfolded_maps = tt

empty_map-IsConsistent : IsConsistent (empty_map {A = ℕ})
unfolding lookup
empty_map-IsConsistent = record { lengths = refl; named = λ k i e. cc }

map_a-IsConsistent : IsConsistent map_a
map_a-IsConsistent = add_object-IsConsistent "a" 7 false empty_map empty_map-IsConsistent

add_object-IsConsistent_example : IsConsistent map_ab
add_object-IsConsistent_example = add_object-IsConsistent "b" 8 false map_a map_a-IsConsistent

map_ab-IsConsistent : IsConsistent map_ab
map_ab-IsConsistent = add_object-IsConsistent "b" 8 false map_a map_a-IsConsistent

abbrev or_empty : Option (ObjectMap ℕ) → ObjectMap ℕ
or_empty none = empty_map
or_empty (some m) = m

abbrev map_b : ObjectMap ℕ
map_b = or_empty (remove_object "a" false map_ab)

a_removed : remove_object "a" false map_ab ≡ some map_b
unfolding unfolded_maps
a_removed = refl

remove_object-IsConsistent_example : IsConsistent map_b
remove_object-IsConsistent_example =
    remove_object-IsConsistent "a" false map_ab map_b map_ab-IsConsistent a_removed

find-add_object_example :
    find "b" false (add_object "b" 8 false map_a).0
    ≡ some ((add_object "b" 8 false map_a).1, some 8)
find-add_object_example = find-add_object "b" 8 map_a map_a-IsConsistent

b_found : find "b" false map_ab ≡ some (1, some 8)
unfolding unfolded_maps
b_found = refl

different_names : ◌≢◌ {A = String} "a" "b"
different_names e = let bad : false ≡ true = (str_eq_iff "a" "b").1 e in cc bad

find-remove_object_example : (j : ℕ) × (find "b" false map_b ≡ some (j, some 8))
find-remove_object_example =
    find-remove_object "a" "b" map_ab map_b 1 (some 8) map_ab-IsConsistent different_names a_removed
      b_found

first_object : map_ab.i2o ≡ 7 ∷ 8 ∷ []
unfolding unfolded_maps
first_object = refl

first_handle : lookup "a" map_ab.n2i ≡ some 0
unfolding unfolded_maps
first_handle = refl
