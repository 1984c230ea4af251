-- ===== src/Mesh/Orient/Twice.antt =====
-- `ReOrient` of triangles, quadrilaterals, tetrahedra and hexahedra.
use impact.Prelude.{ℕ, ◌≡◌, refl, List, [], ◌∷◌, length, arith, ◌⊎◌, inl, inr}
use impact.Mesh.Table.{done}
use impact.Mesh.Dual.Counts.{count}
use impact.Mesh.Orient.{put, swap, overwrite, re_orient_cell, re_orient}

-- `ReOrient` of a triangle or a quadrilateral, done twice, gives its nodes back, and done once gives
-- each node as often as it was.
pub re_orient_cell-twice :
    (ec : List ℕ)
    → (length ec ≡ 3) ⊎ (length ec ≡ 4)
    → (ec' : List ℕ) × (re_orient_cell (length ec) ec ≡ done ec')
      × (re_orient_cell (length ec) ec' ≡ done ec)
      × ((x : ℕ) → count x ec' ≡ count x ec)
unfolding re_orient_cell swap put
re_orient_cell-twice (a ∷ b ∷ c ∷ []) e = (b ∷ a ∷ c ∷ [], refl, refl, λ x. ground arith)
re_orient_cell-twice (a ∷ b ∷ c ∷ d ∷ []) e = (b ∷ a ∷ d ∷ c ∷ [], refl, refl, λ x. ground arith)
re_orient_cell-twice [] (inl e) = absurd (omega arith)
re_orient_cell-twice [] (inr e) = absurd (omega arith)
re_orient_cell-twice (a ∷ []) (inl e) = absurd (omega arith)
re_orient_cell-twice (a ∷ []) (inr e) = absurd (omega arith)
re_orient_cell-twice (a ∷ b ∷ []) (inl e) = absurd (omega arith)
re_orient_cell-twice (a ∷ b ∷ []) (inr e) = absurd (omega arith)
re_orient_cell-twice (a ∷ b ∷ c ∷ d ∷ f ∷ ec) (inl e) = absurd (omega arith)
re_orient_cell-twice (a ∷ b ∷ c ∷ d ∷ f ∷ ec) (inr e) = absurd (omega arith)

-- `ReOrient` of a hexahedron with 8 nodes loses its third node: where no other node of the element is
-- the same, the result has it no more.
pub re_orient-loses_third :
    (a b c d e f g h : ℕ)
    → count c (a ∷ b ∷ d ∷ e ∷ f ∷ g ∷ h ∷ []) ≡ 0
    → (ec' : List ℕ) × (re_orient 8 (a ∷ b ∷ c ∷ d ∷ e ∷ f ∷ g ∷ h ∷ []) ≡ done ec')
      × (length ec' ≡ 8)
      × (count c ec' ≡ 0)
unfolding re_orient swap overwrite put
re_orient-loses_third a b c d e f g h once =
    (a ∷ b ∷ a ∷ d ∷ g ∷ f ∷ e ∷ h ∷ [], refl, refl, ground arith)
