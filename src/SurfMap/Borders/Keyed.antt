-- ===== src/SurfMap/Borders/Keyed.antt =====
-- The entries of a map of faces by their keys.
use impact.Prelude.{
  ℕ, ◌+◌, ◌<◌, ◌≡◌, refl, sym, inl, inr, ℤ, eq_ℤ, ltb_ℤ, Bool, true, false, not, ◌&&◌, ◌||◌, [],
  ◌∷◌, length, Bool-cases, arith, if◌then◌else◌,
}
use impact.SurfMap.FacetId.{FacetId}
use impact.SurfMap.Borders.{
  FourTuple, four, less, Corners2FaceMap, equivalent, has_face, insert_face, erase_face,
}

same_first :
    (x y : ℤ) (r s : Bool)
    → (not (ltb_ℤ x y || (eq_ℤ x y && r)) && not (ltb_ℤ y x || (eq_ℤ y x && s))) ≡ true
    → (x ≡ y) × ((not r && not s) ≡ true)
same_first x y r s h = ground arith

same_last : (x y : ℤ) → (not (ltb_ℤ x y) && not (ltb_ℤ y x)) ≡ true → x ≡ y
same_last x y h = ground arith

pub equivalent→eq : (p q : FourTuple) → equivalent p q ≡ true → p ≡ q
equivalent→eq (four a b c d) (four a' b' c' d') h =
    let (e1, h1) = same_first a a' _ _ h in
    let (e2, h2) = same_first b b' _ _ h1 in
    let (e3, h3) = same_first c c' _ _ h2 in cc (same_last d d' h3)

not_less : (x : ℤ) (r : Bool) → r ≡ false → (ltb_ℤ x x || (eq_ℤ x x && r)) ≡ false
not_less x r h = ground arith

pub equivalent_self : (p : FourTuple) → equivalent p p ≡ true
equivalent_self (four a b c d) =
    let last : ltb_ℤ d d ≡ false = ground arith in
    let whole = not_less a _ (not_less b _ (not_less c _ last)) in rw whole refl

abbrev pub one_if : Bool → ℕ
one_if b = if b then 1 else 0

-- How many of the entries have the key.
abbrev pub keyed : FourTuple → Corners2FaceMap → ℕ
keyed key [] = 0
keyed key ((other, fid) ∷ c2f) = one_if (equivalent key other) + keyed key c2f

pub has_face-keyed :
    (key : FourTuple) (c2f : Corners2FaceMap) → has_face key c2f ≡ true → 0 < keyed key c2f
unfolding has_face
has_face-keyed key [] h = cc
has_face-keyed key ((other, f) ∷ c2f) h = elim (Bool-cases (equivalent key other)) [
  | inl here ↦ rw here (omega arith)
  | inr apart ↦ rw apart (omega (arith, has_face-keyed key c2f (rw apart at h)))
]

pub no_face-keyed :
    (key : FourTuple) (c2f : Corners2FaceMap) → has_face key c2f ≡ false → keyed key c2f ≡ 0
unfolding has_face
no_face-keyed key [] h = refl
no_face-keyed key ((other, f) ∷ c2f) h = elim (Bool-cases (equivalent key other)) [
  | inl here ↦ cc (rw here at h)
  | inr apart ↦ rw apart (omega (arith, no_face-keyed key c2f (rw apart at h)))
]

pub keyed-insert_face :
    (k key : FourTuple) (fid : FacetId) (c2f : Corners2FaceMap)
    → keyed k (insert_face key fid c2f) ≡ keyed k c2f + one_if (equivalent k key)
unfolding insert_face
keyed-insert_face k key fid [] = omega arith
keyed-insert_face k key fid ((other, f) ∷ c2f) = elim (Bool-cases (less other key)) [
  | inl before ↦ rw before (omega (arith, keyed-insert_face k key fid c2f))
  | inr here ↦ rw here (omega arith)
]

pub length-insert_face :
    (key : FourTuple) (fid : FacetId) (c2f : Corners2FaceMap)
    → length (insert_face key fid c2f) ≡ length c2f + 1
unfolding insert_face
length-insert_face key fid [] = omega arith
length-insert_face key fid ((other, f) ∷ c2f) = elim (Bool-cases (less other key)) [
  | inl before ↦ rw before (omega (arith, length-insert_face key fid c2f))
  | inr here ↦ rw here (omega arith)
]

pub keyed-erase_face :
    (k key : FourTuple) (c2f : Corners2FaceMap)
    → has_face key c2f ≡ true
    → keyed k (erase_face key c2f) + one_if (equivalent k key) ≡ keyed k c2f
unfolding erase_face has_face
keyed-erase_face k key [] h = cc
keyed-erase_face k key ((other, f) ∷ c2f) h = elim (Bool-cases (equivalent key other)) [
  | inl here ↦
      let same : other ≡ key = sym (equivalent→eq key other here) in rw here (rw same (omega arith))
  | inr apart ↦ rw apart (omega (arith, keyed-erase_face k key c2f (rw apart at h)))
]

pub length-erase_face :
    (key : FourTuple) (c2f : Corners2FaceMap)
    → has_face key c2f ≡ true
    → length (erase_face key c2f) + 1 ≡ length c2f
unfolding erase_face has_face
length-erase_face key [] h = cc
length-erase_face key ((other, f) ∷ c2f) h = elim (Bool-cases (equivalent key other)) [
  | inl here ↦ rw here (omega arith)
  | inr apart ↦ rw apart (omega (arith, length-erase_face key c2f (rw apart at h)))
]
