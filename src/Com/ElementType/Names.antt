-- ===== src/Com/ElementType/Names.antt =====
-- The names of the element types, against the parser.
use impact.Prelude.{ℕ, zero, suc, ◌≡◌, refl, some, List, [], ◌∷◌, ◌++◌, arith}
use impact.Com.ElementType.{
  ElementType, st1, st2, st3, bar2, bar3, tri3, tri6, quad4, quad8, quad9, tet4, tet10, pyrimid5,
  pyrimid14, prism6, prism15, prism18, hex8, hex20, hex27, SizeInfo, sizes, skip_zeros,
  get_size_info,
}

-- The letters of a type's name and its number of nodes, or of dimensions.
abbrev pub letters : ElementType → List ℕ
letters st1 = b's' ∷ b't' ∷ []
letters st2 = b's' ∷ b't' ∷ []
letters st3 = b's' ∷ b't' ∷ []
letters bar2 = b'b' ∷ []
letters bar3 = b'b' ∷ []
letters tri3 = b't' ∷ []
letters tri6 = b't' ∷ []
letters quad4 = b'q' ∷ []
letters quad8 = b'q' ∷ []
letters quad9 = b'q' ∷ []
letters tet4 = b'T' ∷ []
letters tet10 = b'T' ∷ []
letters pyrimid5 = b'P' ∷ []
letters pyrimid14 = b'P' ∷ []
letters prism6 = b'P' ∷ []
letters prism15 = b'P' ∷ []
letters prism18 = b'P' ∷ []
letters hex8 = b'H' ∷ []
letters hex20 = b'H' ∷ []
letters hex27 = b'H' ∷ []

abbrev pub digits : ElementType → List ℕ
digits st1 = b'1' ∷ []
digits st2 = b'2' ∷ []
digits st3 = b'3' ∷ []
digits bar2 = b'2' ∷ []
digits bar3 = b'3' ∷ []
digits tri3 = b'3' ∷ []
digits tri6 = b'6' ∷ []
digits quad4 = b'4' ∷ []
digits quad8 = b'8' ∷ []
digits quad9 = b'9' ∷ []
digits tet4 = b'4' ∷ []
digits tet10 = b'1' ∷ b'0' ∷ []
digits pyrimid5 = b'5' ∷ []
digits pyrimid14 = b'1' ∷ b'4' ∷ []
digits prism6 = b'6' ∷ []
digits prism15 = b'1' ∷ b'5' ∷ []
digits prism18 = b'1' ∷ b'8' ∷ []
digits hex8 = b'8' ∷ []
digits hex20 = b'2' ∷ b'0' ∷ []
digits hex27 = b'2' ∷ b'7' ∷ []

abbrev pub zeros : ℕ → List ℕ → List ℕ
zeros zero cs = cs
zeros (suc z) cs = b'0' ∷ zeros z cs

-- A colon, the letters, any number of zeros and the digits, such as ":st2", ":t0003" and ":H20".
abbrev pub name_of : ElementType → ℕ → List ℕ → List ℕ
name_of t z rest = b':' ∷ (letters t ++ zeros z (digits t ++ rest))

skip_zeros-zeros : (z : ℕ) (cs : List ℕ) → skip_zeros (zeros z cs) ≡ skip_zeros cs
unfolding skip_zeros
skip_zeros-zeros zero cs = refl
skip_zeros-zeros (suc z) cs = skip_zeros-zeros z cs

-- The parser finds each type by its name, whatever number of zeros stands before the digits and
-- whatever follows them.
pub get_size_info-name_of :
    (t : ElementType) (z : ℕ) (rest : List ℕ) → get_size_info (name_of t z rest) ≡ some (sizes t)
unfolding get_size_info skip_zeros
get_size_info-name_of st1 z rest = simp skip_zeros-zeros
get_size_info-name_of _ z rest = simp skip_zeros-zeros

-- Whatever name the parser reads, a row that it returns is the row of the table at the type which the
-- row names.
pub get_size_info_sound :
    (cs : List ℕ) (r : SizeInfo) → get_size_info cs ≡ some r → r ≡ sizes r.type_id
unfolding get_size_info sizes
get_size_info_sound [] r e = cc
get_size_info_sound (colon ∷ []) r e = cc
get_size_info_sound (colon ∷ c ∷ cs) r e = ground arith
