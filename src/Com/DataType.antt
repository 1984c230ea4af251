-- ===== src/Com/DataType.antt =====
-- COM/include/com_basic.h and COM/src/DataItem.C: the data types `COM_Type`, their sizes in bytes and
-- which of them may stand for one another. The sizes of the types of C++ and MPI are those of the
-- platform.
pub mod Compatible
use impact.Prelude.{
  ℕ, ◌*◌, Bool, true, false, Option, none, some, ◌==◌, not, if◌then◌else◌, eq_size,
}

-- `sizeof` of each type
pub record Platform : Type 0 where
  pub short_size : ℕ
  pub int_size : ℕ
  pub long_size : ℕ
  pub float_size : ℕ
  pub double_size : ℕ
  pub long_double_size : ℕ
  pub comm_size : ℕ
  pub pointer_size : ℕ

pub data ComType : Type 0 where
  com_char : ComType
  com_unsigned_char : ComType
  com_byte : ComType
  com_short : ComType
  com_unsigned_short : ComType
  com_int : ComType
  com_unsigned : ComType
  com_long : ComType
  com_unsigned_long : ComType
  com_float : ComType
  com_double : ComType
  com_long_double : ComType
  com_bool : ComType
  com_character : ComType
  com_logical : ComType
  com_integer : ComType
  com_real : ComType
  com_double_precision : ComType
  com_complex : ComType
  com_double_complex : ComType
  com_mpi_commc : ComType
  com_mpi_commf : ComType
  com_string : ComType
  com_rawdata : ComType
  com_metadata : ComType
  com_void : ComType
  com_f90pointer : ComType
  com_object : ComType

-- The enumerator of a type, less `COM_MIN_TYPEID`.
unfoldable pub type_id : ComType → ℕ
type_id com_object = 0
type_id com_f90pointer = 1
type_id com_void = 2
type_id com_metadata = 3
type_id com_rawdata = 4
type_id com_string = 5
type_id com_char = 6
type_id com_unsigned_char = 7
type_id com_byte = 8
type_id com_short = 9
type_id com_unsigned_short = 10
type_id com_int = 11
type_id com_unsigned = 12
type_id com_long = 13
type_id com_unsigned_long = 14
type_id com_float = 15
type_id com_double = 16
type_id com_long_double = 17
type_id com_bool = 18
type_id com_character = 19
type_id com_logical = 20
type_id com_integer = 21
type_id com_real = 22
type_id com_double_precision = 23
type_id com_complex = 24
type_id com_double_complex = 25
type_id com_mpi_commc = 26
type_id com_mpi_commf = 27

-- int DataItem::get_sizeof(COM_Type type, int count); `none` is the failed assertion.
unfoldable pub get_sizeof : Platform → ComType → ℕ → Option ℕ
get_sizeof p com_char count = some count
get_sizeof p com_unsigned_char count = some count
get_sizeof p com_byte count = some count
get_sizeof p com_bool count = some count
get_sizeof p com_character count = some count
get_sizeof p com_unsigned_short count = some (count * p.short_size)
get_sizeof p com_short count = some (count * p.short_size)
get_sizeof p com_int count = some (count * p.int_size)
get_sizeof p com_integer count = some (count * p.int_size)
get_sizeof p com_logical count = some (count * p.int_size)
get_sizeof p com_unsigned count = some (count * p.int_size)
get_sizeof p com_unsigned_long count = some (count * p.long_size)
get_sizeof p com_long count = some (count * p.long_size)
get_sizeof p com_float count = some (count * p.float_size)
get_sizeof p com_real count = some (count * p.float_size)
get_sizeof p com_double_precision count = some (count * p.double_size)
get_sizeof p com_double count = some (count * p.double_size)
get_sizeof p com_long_double count = some (count * p.long_double_size)
get_sizeof p com_complex count = some (count * 2 * p.float_size)
get_sizeof p com_double_complex count = some (count * 2 * p.double_size)
get_sizeof p com_mpi_commc count = some (count * p.comm_size)
get_sizeof p com_mpi_commf count = some (count * p.int_size)
get_sizeof p com_f90pointer count = some (count * 64)
get_sizeof p com_metadata count = some (p.pointer_size * count)
get_sizeof p com_void count = some (p.pointer_size * count)
get_sizeof p com_object count = some (p.pointer_size * count)
get_sizeof p com_string count = some count
get_sizeof p com_rawdata count = none

-- The tests of the second switch.
abbrev pub is_integral : ComType → Bool
is_integral com_int = true
is_integral com_integer = true
is_integral com_unsigned = true
is_integral com_unsigned_long = true
is_integral com_long = true
is_integral _ = false

abbrev pub is_single : ComType → Bool
is_single com_float = true
is_single com_real = true
is_single _ = false

abbrev pub is_double : ComType → Bool
is_double com_double_precision = true
is_double com_double = true
is_double _ = false

unfoldable pub same_kind : ComType → ComType → Bool
same_kind com_char t = true
same_kind com_character t = true
same_kind com_unsigned_char t = true
same_kind com_byte t = true
same_kind com_short t = true
same_kind com_unsigned_short t = true
same_kind com_int t = is_integral t
same_kind com_integer t = is_integral t
same_kind com_unsigned t = is_integral t
same_kind com_long t = is_integral t
same_kind com_unsigned_long t = is_integral t
same_kind com_float t = is_single t
same_kind com_real t = is_single t
same_kind com_double t = is_double t
same_kind com_double_precision t = is_double t
same_kind _ t = false

-- bool DataItem::compatible_types(COM_Type t1, COM_Type t2)
unfoldable pub compatible_types : Platform → ComType → ComType → Bool
compatible_types p t1 t2 =
    if type_id t1 == type_id t2
    then true
    else if not (eq_size (get_sizeof p t1 1) (get_sizeof p t2 1))
    then false
    else same_kind t1 t2
