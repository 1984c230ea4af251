-- ===== src/Mesh/Coordinates/Owned.antt =====
-- The arrays of `NodalCoordinates`: which are there, and what a copy holds.
use impact.Prelude.{ℕ, ◌≡◌, refl, true, false, some, List, ◌⊎◌, inl, inr, Option-cases}
use impact.Mesh.Table.{done}
use impact.Mesh.Coordinates.{Coordinates, no_coordinates, free, destroy_coordinates}

module _ (V : Type 0) where
  -- Without the array of the object itself, if it has one, the arrays that are there are `others`.
  abbrev pub Owns : Coordinates V → List ℕ → Type 0
  Owns s others =
      ((s.0.mydata ≡ false) × (s.1.blocks ≡ others))
      ⊎ ((s.0.mydata ≡ true)
          × (p : ℕ) × (s.0.ncdata ≡ some p)
          × (free V p s.1.blocks ≡ done others))

  pub destroy_total :
      (s : Coordinates V) (others : List ℕ)
      → Owns s others
      → (t : Coordinates V) × (destroy_coordinates V s ≡ done t)
        × (t.0.mydata ≡ false)
        × (t.1.blocks ≡ others)
  unfolding destroy_coordinates
  destroy_total s others (inr (mine, p, here, gone)) = (
    (no_coordinates V, record s.1 { blocks = others }),
    rw (here, mine) (rw gone refl),
    refl,
    refl,
  )
  destroy_total s others (inl (not_mine, same)) = elim (Option-cases s.0.ncdata) [
    | inl nothing ↦ (s, rw nothing refl, not_mine, same)
    | inr (p, here) ↦ (s, rw (here, not_mine) refl, not_mine, same)
  ]
