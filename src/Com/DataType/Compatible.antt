-- ===== src/Com/DataType/Compatible.antt =====
-- COM/src/DataItem.C: `compatible_types` and the sizes of arrays of two types.
use impact.Prelude.{
  ℕ, ◌*◌, ◌≡◌, refl, sym, ap, ◌∙◌, true, some, ◌==◌, ==_iff, arith, Bool-cases, inl, inr, eq_size,
  eq_size_lem, some_injective, get_elem?, List, [], ◌∷◌,
}
use mathlib.Core.Option
use impact.Com.DataType.{Platform, ComType, type_id, get_sizeof, compatible_types}
use impact.Com.DataType.{
  com_char, com_unsigned_char, com_byte, com_short, com_unsigned_short, com_int, com_unsigned,
  com_long, com_unsigned_long, com_float, com_double, com_long_double, com_bool, com_character,
  com_logical, com_integer, com_real, com_double_precision, com_complex, com_double_complex,
  com_mpi_commc, com_mpi_commf, com_string, com_rawdata, com_metadata, com_void, com_f90pointer,
  com_object,
}

-- The types in the order of their enumerators.
abbrev all_types : List ComType
all_types =
    com_object ∷ com_f90pointer ∷ com_void ∷ com_metadata ∷ com_rawdata ∷ com_string ∷ com_char
    ∷ com_unsigned_char ∷ com_byte ∷ com_short ∷ com_unsigned_short ∷ com_int ∷ com_unsigned
    ∷ com_long ∷ com_unsigned_long ∷ com_float ∷ com_double ∷ com_long_double ∷ com_bool
    ∷ com_character ∷ com_logical ∷ com_integer ∷ com_real ∷ com_double_precision ∷ com_complex
    ∷ com_double_complex ∷ com_mpi_commc ∷ com_mpi_commf ∷ []

nth-type_id : (t : ComType) → get_elem? all_types (type_id t) ≡ some t
unfolding type_id
nth-type_id com_object = refl
nth-type_id com_f90pointer = refl
nth-type_id com_void = refl
nth-type_id com_metadata = refl
nth-type_id com_rawdata = refl
nth-type_id com_string = refl
nth-type_id com_char = refl
nth-type_id com_unsigned_char = refl
nth-type_id com_byte = refl
nth-type_id com_short = refl
nth-type_id com_unsigned_short = refl
nth-type_id com_int = refl
nth-type_id com_unsigned = refl
nth-type_id com_long = refl
nth-type_id com_unsigned_long = refl
nth-type_id com_float = refl
nth-type_id com_double = refl
nth-type_id com_long_double = refl
nth-type_id com_bool = refl
nth-type_id com_character = refl
nth-type_id com_logical = refl
nth-type_id com_integer = refl
nth-type_id com_real = refl
nth-type_id com_double_precision = refl
nth-type_id com_complex = refl
nth-type_id com_double_complex = refl
nth-type_id com_mpi_commc = refl
nth-type_id com_mpi_commf = refl

-- An array of `count` elements is `count` times as large as one element.
pub get_sizeof-scale :
    (p : Platform) (t : ComType) (count : ℕ)
    → get_sizeof p t count ≡ Option.map (λ size. count * size) (get_sizeof p t 1)
unfolding get_sizeof
get_sizeof-scale p com_object count = ground arith
get_sizeof-scale p com_f90pointer count = ground arith
get_sizeof-scale p com_void count = ground arith
get_sizeof-scale p com_metadata count = ground arith
get_sizeof-scale p com_rawdata count = ground arith
get_sizeof-scale p com_string count = ground arith
get_sizeof-scale p com_char count = ground arith
get_sizeof-scale p com_unsigned_char count = ground arith
get_sizeof-scale p com_byte count = ground arith
get_sizeof-scale p com_short count = ground arith
get_sizeof-scale p com_unsigned_short count = ground arith
get_sizeof-scale p com_int count = ground arith
get_sizeof-scale p com_unsigned count = ground arith
get_sizeof-scale p com_long count = ground arith
get_sizeof-scale p com_unsigned_long count = ground arith
get_sizeof-scale p com_float count = ground arith
get_sizeof-scale p com_double count = ground arith
get_sizeof-scale p com_long_double count = ground arith
get_sizeof-scale p com_bool count = ground arith
get_sizeof-scale p com_character count = ground arith
get_sizeof-scale p com_logical count = ground arith
get_sizeof-scale p com_integer count = ground arith
get_sizeof-scale p com_real count = ground arith
get_sizeof-scale p com_double_precision count = ground arith
get_sizeof-scale p com_complex count = ground arith
get_sizeof-scale p com_double_complex count = ground arith
get_sizeof-scale p com_mpi_commc count = ground arith
get_sizeof-scale p com_mpi_commf count = ground arith

-- Arrays of the same number of elements of two compatible types take the same number of bytes.
pub get_sizeof-compatible :
    (p : Platform) (t1 t2 : ComType) (count : ℕ)
    → compatible_types p t1 t2 ≡ true
    → get_sizeof p t1 count ≡ get_sizeof p t2 count
unfolding compatible_types
get_sizeof-compatible p t1 t2 count e = elim (Bool-cases (type_id t1 == type_id t2)) [
  | inl same ↦
      ap (λ t. get_sizeof p t count)
        (some_injective (
          sym (nth-type_id t1)
          ∙ ap (get_elem? all_types) ((==_iff (type_id t1) (type_id t2)).0 same)
          ∙ nth-type_id t2))
  | inr other ↦ elim (Bool-cases (eq_size (get_sizeof p t1 1) (get_sizeof p t2 1))) [
    | inl equal ↦
        get_sizeof-scale p t1 count
        ∙ ap (Option.map (λ size. count * size))
            (eq_size_lem (get_sizeof p t1 1) (get_sizeof p t2 1) equal)
        ∙ sym (get_sizeof-scale p t2 count)
    | inr different ↦ cc (rw (other, different) at e)
  ]
]
