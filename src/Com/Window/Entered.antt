-- ===== src/Com/Window/Entered.antt =====
-- `new_dataitem`: an item at a new id, and one that is first deleted because it needs more places.
use impact.Prelude.{
  ℕ, ◌≤◌, inl, inr, String, str_eq, some, ◌≡◌, [], ◌∷◌, All, arith, if◌then◌else◌, length,
}
use impact.Com.Window.{AttrMap, Window, WindowOutcome, returned, com_num_keywords, find_name}
use impact.Com.Window.Registered.{ends, IsPlaced, IsRegistered}

pub ends_before :
    (last : ℕ) (m : AttrMap)
    → com_num_keywords ≤ last
    → All (λ e. IsPlaced last e.1) m
    → All (λ e. ends e.1 ≤ last) m
ends_before last [] l p = tt
ends_before last (e ∷ m) l (inl (i, q), ps) = (omega arith, ends_before last m l ps)
ends_before last (e ∷ m) l (inr (i, z, q), ps) = (q, ends_before last m l ps)

-- What the caller of `new_dataitem` gets: a registered window whose vector ends at the next id, in which
-- the name has the components asked for, and each other name what it had.
abbrev pub IsEntered : String → ℕ → Window → WindowOutcome Window → Type 0
IsEntered aname ncomp w o =
    (w' : Window) × (id : ℕ) × (o ≡ returned w')
    × IsRegistered w'
    × (length w'.attr_set ≡ w'.last_id)
    × ((n : String)
        → find_name n w'.attr_map ≡ (
            if str_eq aname n
            then some (record { id = id; ncomp = ncomp })
            else find_name n w.attr_map))
