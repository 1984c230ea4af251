-- ===== src/SurfMap/FacetId/Coded.antt =====
-- The two parts of a facet's code, and the order of codes.
use impact.Prelude.{
  ℕ, ◌^◌, ◌<◌, ◌≡◌, ◌&&◌, ◌||◌, ltb, ◌==◌, ap, arith, refl, inl, inr, ==_iff, Bool-cases,
}
use impact.SurfMap.FacetId.{facet_id, facet_eid, facet_lid, facet_is_border, facet_less}

pub facet_eid-facet_id : (eid lid : ℕ) → lid < 16 → facet_eid (facet_id eid lid) ≡ eid
unfolding facet_eid facet_id
facet_eid-facet_id eid lid side = omega arith

pub facet_lid-facet_id : (eid lid : ℕ) → lid < 16 → facet_lid (facet_id eid lid) ≡ lid
unfolding facet_lid facet_id
facet_lid-facet_id eid lid side = omega arith

code_order :
    (eid lid eid' lid' : ℕ)
    → lid < 16
    → lid ≡ lid'
    → ltb (facet_id eid lid) (facet_id eid' lid') ≡ ltb eid eid'
unfolding facet_id
code_order eid lid eid' lid' side same = ground arith

facet_less-facet_id :
    (eid lid eid' lid' : ℕ)
    → lid < 16
    → lid' < 16
    → facet_less (facet_id eid lid) (facet_id eid' lid')
      ≡ (ltb lid lid' || (lid == lid' && ltb eid eid'))
unfolding facet_less
facet_less-facet_id eid lid eid' lid' side side' =
    rw (facet_lid-facet_id eid lid side, facet_lid-facet_id eid' lid' side')
      (elim (Bool-cases (lid == lid')) [
        | inl same ↦ rw (code_order eid lid eid' lid' side ((==_iff lid lid').0 same)) refl
        | inr apart ↦ rw apart refl
      ])

-- For element numbers below 2 ^ 27 and sides from 0 to 15, a code is below 2 ^ 31, gives both its
-- parts back and is on the border just for the side 15, and codes are ordered by their sides first and
-- by their elements next.
pub facet_parts :
    (eid lid eid' lid' : ℕ)
    → eid < 2 ^ 27
    → lid < 16
    → lid' < 16
    → (facet_eid (facet_id eid lid) ≡ eid)
      × (facet_lid (facet_id eid lid) ≡ lid)
      × (facet_is_border (facet_id eid lid) ≡ (lid == 15))
      × (facet_id eid lid < 2 ^ 31)
      × (facet_less (facet_id eid lid) (facet_id eid' lid')
          ≡ (ltb lid lid' || (lid == lid' && ltb eid eid')))
unfolding facet_eid facet_id facet_lid facet_is_border facet_less
facet_parts eid lid eid' lid' small side side' = (
  omega arith,
  omega arith,
  ap (λ l. l == 15) (facet_lid-facet_id eid lid side),
  omega arith,
  facet_less-facet_id eid lid eid' lid' side side',
)
