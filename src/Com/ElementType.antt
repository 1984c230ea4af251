-- ===== src/Com/ElementType.antt =====
-- COM/include/Connectivity.hpp and COM/src/Connectivity.C: the table of the pre-defined element types
-- and the parser of their names. A name is the list of its character codes; `aname[i]` at the end of
-- the name is the null character.
pub mod Names
use impact.Prelude.{
  ℕ, Bool, true, false, ◌&&◌, Option, none, some, List, [], ◌∷◌, ◌==◌, if◌then◌else◌,
}

-- enum Connectivity_type
pub data ElementType : Type 0 where
  st1 st2 st3 bar2 bar3 tri3 tri6 quad4 quad8 quad9 tet4 tet10 : ElementType
  pyrimid5 pyrimid14 prism6 prism15 prism18 hex8 hex20 hex27 : ElementType

-- One row of `_sizes`.
pub record SizeInfo : Type 0 where
  pub type_id : ElementType
  pub size_dim : ℕ
  pub order : ℕ
  pub size_nnodes : ℕ
  pub size_ncorn : ℕ
  pub size_nedges : ℕ
  pub size_nfaces : ℕ

abbrev row : ElementType → (dim order nnodes ncorn nedges nfaces : ℕ) → SizeInfo
row t dim order nnodes ncorn nedges nfaces = record {
  type_id = t;
  size_dim = dim;
  order = order;
  size_nnodes = nnodes;
  size_ncorn = ncorn;
  size_nedges = nedges;
  size_nfaces = nfaces;
}

unfoldable pub sizes : ElementType → SizeInfo
sizes st1 = row st1 1 1 2 2 1 0
sizes st2 = row st2 2 1 4 4 4 1
sizes st3 = row st3 3 1 8 8 12 6
sizes bar2 = row bar2 1 1 2 2 1 0
sizes bar3 = row bar3 1 2 3 2 1 0
sizes tri3 = row tri3 2 1 3 3 3 1
sizes tri6 = row tri6 2 2 6 3 3 1
sizes quad4 = row quad4 2 1 4 4 4 1
sizes quad8 = row quad8 2 2 8 4 4 1
sizes quad9 = row quad9 2 2 9 4 4 1
sizes tet4 = row tet4 3 1 4 4 6 4
sizes tet10 = row tet10 3 2 10 4 6 4
sizes pyrimid5 = row pyrimid5 3 1 5 5 8 5
sizes pyrimid14 = row pyrimid14 3 2 14 5 8 5
sizes prism6 = row prism6 3 1 6 6 9 5
sizes prism15 = row prism15 3 2 15 6 9 5
sizes prism18 = row prism18 3 2 18 6 9 5
sizes hex8 = row hex8 3 1 8 8 12 6
sizes hex20 = row hex20 3 2 20 8 12 6
sizes hex27 = row hex27 3 2 27 8 12 6

-- bool is_structured() const: the type is at most ST3.
unfoldable pub is_structured : ElementType → Bool
is_structured st1 = true
is_structured st2 = true
is_structured st3 = true
is_structured _ = false

-- bool is_quadratic() const
unfoldable pub is_quadratic : ElementType → Bool
is_quadratic t = (sizes t).order == 2

-- `aname[idx]` of what is left of a name
abbrev pub char_at : List ℕ → ℕ
char_at [] = 0
char_at (c ∷ cs) = c

abbrev pub rest_of : List ℕ → List ℕ
rest_of [] = []
rest_of (c ∷ cs) = cs

-- while (aname[idx] == '0') idx++
unfoldable pub skip_zeros : List ℕ → List ℕ
skip_zeros [] = []
skip_zeros (c ∷ cs) = if c == b'0' then skip_zeros cs else c ∷ cs

-- The `case`s of the switch, each on what follows its letter and the zeros.
abbrev pub bar_info : List ℕ → Option SizeInfo
bar_info cs =
    if char_at cs == b'2'
    then some (sizes bar2)
    else if char_at cs == b'3'
    then some (sizes bar3)
    else none

abbrev pub tri_info : List ℕ → Option SizeInfo
tri_info cs =
    if char_at cs == b'3'
    then some (sizes tri3)
    else if char_at cs == b'6'
    then some (sizes tri6)
    else none

abbrev pub quad_info : List ℕ → Option SizeInfo
quad_info cs =
    if char_at cs == b'4'
    then some (sizes quad4)
    else if char_at cs == b'8'
    then some (sizes quad8)
    else if char_at cs == b'9'
    then some (sizes quad9)
    else none

abbrev pub tet_info : List ℕ → Option SizeInfo
tet_info cs =
    if char_at cs == b'4'
    then some (sizes tet4)
    else if char_at cs == b'1' && char_at (rest_of cs) == b'0'
    then some (sizes tet10)
    else none

abbrev pub hex_info : List ℕ → Option SizeInfo
hex_info cs =
    if char_at cs == b'8'
    then some (sizes hex8)
    else if char_at cs == b'2'
    then (if char_at (rest_of cs) == b'0'
        then some (sizes hex20)
        else if char_at (rest_of cs) == b'7'
        then some (sizes hex27)
        else none)
    else none

-- case 'P': pyramids and prisms
abbrev pub pyra_info : List ℕ → Option SizeInfo
pyra_info cs =
    if char_at cs == b'5'
    then some (sizes pyrimid5)
    else if char_at cs == b'6'
    then some (sizes prism6)
    else if char_at cs == b'1'
    then (if char_at (rest_of cs) == b'4'
        then some (sizes pyrimid14)
        else if char_at (rest_of cs) == b'5'
        then some (sizes prism15)
        else if char_at (rest_of cs) == b'8'
        then some (sizes prism18)
        else none)
    else none

-- case 'W': prisms alone
abbrev pub wedge_info : List ℕ → Option SizeInfo
wedge_info cs =
    if char_at cs == b'6'
    then some (sizes prism6)
    else if char_at cs == b'1'
    then (if char_at (rest_of cs) == b'5'
        then some (sizes prism15)
        else if char_at (rest_of cs) == b'8'
        then some (sizes prism18)
        else none)
    else none

abbrev pub st_info : List ℕ → Option SizeInfo
st_info cs =
    if char_at cs == b'3'
    then some (sizes st3)
    else if char_at cs == b'2'
    then some (sizes st2)
    else if char_at cs == b'1'
    then some (sizes st1)
    else none

-- The switch on `aname[1]`, with the rest of the name from position 2.
unfoldable pub switch_letter : ℕ → List ℕ → Option SizeInfo
switch_letter c cs =
    if c == b'b'
    then bar_info (skip_zeros cs)
    else if c == b't'
    then tri_info (skip_zeros cs)
    else if c == b'q'
    then quad_info (skip_zeros cs)
    else if c == b'T'
    then tet_info (skip_zeros cs)
    else if c == b'H'
    then hex_info (skip_zeros cs)
    else if c == b'B'
    then hex_info (skip_zeros cs)
    else if c == b'P'
    then pyra_info (skip_zeros cs)
    else if c == b'W'
    then wedge_info (skip_zeros cs)
    else if c == b's'
    then (if char_at cs == b't' then st_info (skip_zeros (rest_of cs)) else none)
    else none

-- const int *Connectivity::get_size_info(const std::string &aname); `none` is NULL.
unfoldable pub get_size_info : List ℕ → Option SizeInfo
unfolding switch_letter
get_size_info [] = none
get_size_info (colon ∷ []) = none
get_size_info (colon ∷ c ∷ cs) = switch_letter c cs
