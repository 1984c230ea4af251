-- ===== src/SurfMap/FacetId.antt =====
-- SurfMap/include/Simple_manifold_2.h: `Facet_ID`, an element and a side of it in one `int`. The numbers
-- of elements are natural numbers here; a code of 2 ^ 31 or more overflows the `int`, which is undefined
-- and not modelled.
pub mod Coded
use impact.Prelude.{ℕ, ◌+◌, ◌*◌, ◌/◌, ◌%◌, ◌^◌, Bool, ◌&&◌, ◌||◌, ltb, ◌==◌}

abbrev pub FacetId : Type 0
FacetId = ℕ

-- enum { nDigits = 4, BndID = 15 }
abbrev pub n_digits : ℕ
n_digits = 4

abbrev pub bnd_id : ℕ
bnd_id = 15

-- Facet_ID(int eid, char lid)
unfoldable pub facet_id : (eid lid : ℕ) → FacetId
facet_id eid lid = eid * 2 ^ n_digits + lid % (bnd_id + 1)

-- Facet_ID()
abbrev pub no_facet : FacetId
no_facet = 0

-- int eid() const
unfoldable pub facet_eid : FacetId → ℕ
facet_eid f = f / 2 ^ n_digits

-- char lid() const
unfoldable pub facet_lid : FacetId → ℕ
facet_lid f = f % (bnd_id + 1)

-- bool is_border() const
unfoldable pub facet_is_border : FacetId → Bool
facet_is_border f = facet_lid f == bnd_id

-- bool operator<(const Facet_ID e) const
unfoldable pub facet_less : FacetId → FacetId → Bool
facet_less f e = ltb (facet_lid f) (facet_lid e) || (facet_lid f == facet_lid e && ltb f e)
