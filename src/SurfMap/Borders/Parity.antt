-- ===== src/SurfMap/Borders/Parity.antt =====
-- The faces that `check_face_unique` leaves in the maps: those that occur an odd number of times.
use impact.Prelude.{
  ℕ, zero, suc, ◌+◌, ◌-◌, ◌%◌, ◌<◌, ◌≤◌, ◌≡◌, refl, ap, ◌∙◌, sym, subst, inl, inr, true, false,
  List, [], ◌∷◌, length, All, Bool-cases, arith, ◌==◌, ==_iff, if◌then◌else◌,
}
use impact.Prelude.Runs.{Run, done, ◌>>=◌, at_id, write_at_id}
use impact.SurfMap.FacetId.{FacetId}
use impact.SurfMap.Borders.{
  FourTuple, sort_corners, Corners2FaceMap, equivalent, has_face, insert_face, erase_face, Faces,
  second_corner, check_face_unique,
}
use impact.SurfMap.Borders.Keyed.{
  equivalent→eq, one_if, keyed, no_face-keyed, keyed-insert_face, length-insert_face,
  keyed-erase_face, length-erase_face,
}

-- The map of a node.
abbrev pub bucket : List Corners2FaceMap → ℕ → Corners2FaceMap
bucket vec zero = []
bucket [] (suc n) = []
bucket (c2f ∷ vec) (suc zero) = c2f
bucket (c2f ∷ vec) (suc (suc n)) = bucket vec (suc n)

-- The number of entries of all maps.
abbrev pub entries : List Corners2FaceMap → ℕ
entries [] = 0
entries (c2f ∷ vec) = length c2f + entries vec

at_bucket :
    (vec : List Corners2FaceMap) (n : ℕ)
    → 0 < n
    → n ≤ length vec
    → at_id vec n ≡ done (bucket vec n)
at_bucket vec zero positive le = absurd (omega arith)
at_bucket [] (suc n) positive le = absurd (omega arith)
at_bucket (c2f ∷ vec) (suc zero) positive le = refl
at_bucket (c2f ∷ vec) (suc (suc n)) positive le = at_bucket vec (suc n) (omega arith) (omega arith)

-- What a write to the map of one node leaves.
put_bucket :
    (vec : List Corners2FaceMap) (n : ℕ) (c2f : Corners2FaceMap)
    → 0 < n
    → n ≤ length vec
    → (vec' : List Corners2FaceMap) × (write_at_id vec n c2f ≡ done vec')
      × (length vec' ≡ length vec)
      × ((j : ℕ) → bucket vec' j ≡ (if j == n then c2f else bucket vec j))
      × (entries vec' + length (bucket vec n) ≡ entries vec + length c2f)
put_bucket vec zero c2f positive le = absurd (omega arith)
put_bucket [] (suc n) c2f positive le = absurd (omega arith)
put_bucket (old ∷ vec) (suc zero) c2f positive le = (c2f ∷ vec, refl, refl, each, omega arith)
  where
    each : (j : ℕ) → bucket (c2f ∷ vec) j ≡ (if j == 1 then c2f else bucket (old ∷ vec) j)
    each zero = ground arith
    each (suc zero) = ground arith
    each (suc (suc j)) = ground arith
put_bucket (old ∷ vec) (suc (suc n)) c2f positive le =
    let (rest, e, l, f, t) = put_bucket vec (suc n) c2f (omega arith) (omega arith) in
    (old ∷ rest, rw e refl, omega arith, each rest f, omega arith)
  where
    each :
        (rest : List Corners2FaceMap)
        → ((j : ℕ) → bucket rest j ≡ (if j == suc n then c2f else bucket vec j))
        → (j : ℕ) → bucket (old ∷ rest) j ≡ (if j == suc (suc n) then c2f else bucket (old ∷ vec) j)
    each rest f zero = ground arith
    each rest f (suc zero) = ground arith
    each rest f (suc (suc j)) = ground (arith, f (suc j))

-- How often the key is in its map.
abbrev pub present : FourTuple → Faces → ℕ
present key s = keyed key (bucket s.c2f_vec (second_corner key))

erase_odd :
    (k key : FourTuple) (c2f : Corners2FaceMap)
    → keyed k c2f ≤ 1
    → has_face key c2f ≡ true
    → keyed k (erase_face key c2f) ≡ (keyed k c2f + one_if (equivalent k key)) % 2
erase_odd k key c2f once has = elim (Bool-cases (equivalent k key)) [
  | inl eq ↦
      let removed : keyed k (erase_face key c2f) + 1 ≡ keyed k c2f =
        rw eq at (keyed-erase_face k key c2f has) in
      rw eq (omega arith)
  | inr ne ↦
      let removed : keyed k (erase_face key c2f) + 0 ≡ keyed k c2f =
        rw ne at (keyed-erase_face k key c2f has) in
      rw ne (omega arith)
]

insert_odd :
    (k key : FourTuple) (fid : FacetId) (c2f : Corners2FaceMap)
    → keyed k c2f ≤ 1
    → has_face key c2f ≡ false
    → keyed k (insert_face key fid c2f) ≡ (keyed k c2f + one_if (equivalent k key)) % 2
insert_odd k key fid c2f once lacks = elim (Bool-cases (equivalent k key)) [
  | inl eq ↦
      let added : keyed k (insert_face key fid c2f) ≡ keyed k c2f + 1 =
        rw eq at (keyed-insert_face k key fid c2f) in
      let absent : keyed k c2f ≡ 0 =
        subst (λ j. keyed j c2f ≡ 0) (sym (equivalent→eq k key eq)) (no_face-keyed key c2f lacks) in
      rw eq (omega arith)
  | inr ne ↦
      let added : keyed k (insert_face key fid c2f) ≡ keyed k c2f + 0 =
        rw ne at (keyed-insert_face k key fid c2f) in
      rw ne (omega arith)
]

pub record IsConsistent (s : Faces) : Type 0 where
  pub once : (k : FourTuple) → present k s ≤ 1
  pub counted : s.num_external_face ≡ entries s.c2f_vec

-- After a write to the map of the key, each key is there as often as before, and the key itself once
-- if it was not there.
present_after :
    (vec vec' : List Corners2FaceMap) (key : FourTuple) (c2f : Corners2FaceMap) (k : FourTuple)
    → ((j : ℕ) → bucket vec' j ≡ (if j == second_corner key then c2f else bucket vec j))
    → (second_corner k ≡ second_corner key
        → keyed k c2f ≡ (keyed k (bucket vec (second_corner key)) + one_if (equivalent k key)) % 2)
    → keyed k (bucket vec (second_corner k)) ≤ 1
    → keyed k (bucket vec' (second_corner k))
      ≡ (keyed k (bucket vec (second_corner k)) + one_if (equivalent k key)) % 2
present_after vec vec' key c2f k f odd once =
    elim (Bool-cases (second_corner k == second_corner key)) [
      | inl here ↦
          let place : second_corner k ≡ second_corner key =
            (==_iff (second_corner k) (second_corner key)).0 here in
          let written : bucket vec' (second_corner k) ≡ c2f =
            f (second_corner k) ∙ ap (λ b. if b then c2f else bucket vec (second_corner k)) here in
          ap (λ m. keyed k m) written
          ∙ odd place
          ∙ ap (λ j. (keyed k (bucket vec j) + one_if (equivalent k key)) % 2) (sym place)
      | inr apart ↦
          let kept : bucket vec' (second_corner k) ≡ bucket vec (second_corner k) =
            f (second_corner k) ∙ ap (λ b. if b then c2f else bucket vec (second_corner k)) apart in
          let other : equivalent k key ≡ false = elim (Bool-cases (equivalent k key)) [
            | inl eq ↦ absurd (ground (arith, ap second_corner (equivalent→eq k key eq)))
            | inr ne ↦ ne
          ] in
          ap (λ m. keyed k m) kept ∙ rw other (omega arith)
    ]

check_step :
    (q : FourTuple) (fid : FacetId) (s : Faces)
    → IsConsistent s
    → 0 < second_corner (sort_corners q)
    → second_corner (sort_corners q) ≤ length s.c2f_vec
    → (s' : Faces) × (check_face_unique q fid s ≡ done s')
      × (length s'.c2f_vec ≡ length s.c2f_vec)
      × ((k : FourTuple)
          → present k s' ≡ (present k s + one_if (equivalent k (sort_corners q))) % 2)
      × (s'.num_external_face ≡ entries s'.c2f_vec)
unfolding check_face_unique
check_step q fid s c positive le =
    let key = sort_corners q in
    let n = second_corner key in
    let c2f = bucket s.c2f_vec n in
    elim (Bool-cases (has_face key c2f)) [
      | inl has ↦
          let (vec, e, l, f, t) = put_bucket s.c2f_vec n (erase_face key c2f) positive le in
          (
            record { c2f_vec = vec; num_external_face = s.num_external_face - 1 },
            rw (at_bucket s.c2f_vec n positive le, has, e) refl,
            l,
            λ k.
                present_after s.c2f_vec vec key (erase_face key c2f) k f
                  (λ place.
                    erase_odd k key c2f
                      (subst (λ j. keyed k (bucket s.c2f_vec j) ≤ 1) place (c.once k)) has)
                  (c.once k),
            omega (arith, length-erase_face key c2f has, c.counted),
          )
      | inr lacks ↦
          let (vec, e, l, f, t) = put_bucket s.c2f_vec n (insert_face key fid c2f) positive le in
          (
            record { c2f_vec = vec; num_external_face = s.num_external_face + 1 },
            rw (at_bucket s.c2f_vec n positive le, lacks, e) refl,
            l,
            λ k.
                present_after s.c2f_vec vec key (insert_face key fid c2f) k f
                  (λ place.
                    insert_odd k key fid c2f
                      (subst (λ j. keyed k (bucket s.c2f_vec j) ≤ 1) place (c.once k)) lacks)
                  (c.once k),
            omega (arith, length-insert_face key fid c2f, c.counted),
          )
    ]

-- How often the key is among some faces once these are sorted.
abbrev pub sorted_times : FourTuple → List (FourTuple × FacetId) → ℕ
sorted_times k [] = 0
sorted_times k ((q, fid) ∷ fs) = one_if (equivalent k (sort_corners q)) + sorted_times k fs

abbrev pub each_face : List (FourTuple × FacetId) → Faces → Run Faces
each_face [] s = done s
each_face ((q, fid) ∷ fs) s = check_face_unique q fid s >>= λ s'. each_face fs s'

-- The second smallest corner of each face is a node from 1 to `n`.
abbrev pub HaveMaps : ℕ → List (FourTuple × FacetId) → Type 0
HaveMaps n fs =
    All (λ f. (0 < second_corner (sort_corners f.0)) × (second_corner (sort_corners f.0) ≤ n)) fs

pub each_face_odd :
    (fs : List (FourTuple × FacetId)) (s : Faces)
    → IsConsistent s
    → HaveMaps (length s.c2f_vec) fs
    → (s' : Faces) × (each_face fs s ≡ done s')
      × ((k : FourTuple) → present k s' ≡ (present k s + sorted_times k fs) % 2)
      × (s'.num_external_face ≡ entries s'.c2f_vec)
each_face_odd [] s c have = (s, refl, λ k. omega (arith, c.once k), c.counted)
each_face_odd ((q, fid) ∷ fs) s c ((positive, le), have) =
    let (s1, e, l, each, counted) = check_step q fid s c positive le in
    let c1 : IsConsistent s1 = record { once = λ k. omega (arith, each k); counted = counted } in
    let (s2, e2, each2, counted2) = each_face_odd fs s1 c1 (rw l have) in
    (s2, rw e e2, λ k. omega (arith, each k, each2 k), counted2)
