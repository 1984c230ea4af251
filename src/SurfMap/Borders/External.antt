-- ===== src/SurfMap/Borders/External.antt =====
-- The faces that the first loop of `determine_border_nodes_3` leaves for the elements of a mesh.
use impact.Prelude.{
  ℕ, zero, suc, ◌+◌, ◌%◌, ◌<◌, ◌≤◌, ◌≡◌, refl, ap, ◌∙◌, sym, pos, negsuc, List, [], ◌∷◌, ◌++◌,
  length, All, arith, true, false, inl, inr, Bool-cases, if◌then◌else◌,
}
use impact.Prelude.Runs.{Run, done, stopped, ◌>>=◌, >>=_ext, >>=_assoc}
use impact.Com.Pane.{Table, pane_dimension, refresh, refresh_connectivity}
use impact.Com.Pane.Numbered.{total}
use impact.Com.UnstructuredNodes.{Element, cursor_at, each_element}
use impact.Com.UnstructuredNodes.Rows.{
  IsFull, first_rows, rows_of_tables, each_row, each_element-rows,
}
use impact.SurfMap.FacetId.{FacetId, facet_id}
use impact.SurfMap.Dual.{copies}
use impact.SurfMap.Borders.{
  FourTuple, four, equivalent, sort_corners, Faces, second_corner, check_face_unique, corners_of,
  check_faces, check_element, external_faces,
}
use impact.SurfMap.Borders.Corners.{same_corners, ascending, equivalent-sort_corners}
use impact.SurfMap.Borders.Parity.{
  bucket, entries, present, IsConsistent, sorted_times, each_face, HaveMaps, each_face_odd,
}

-- The faces of an element of a pane of this dimension, from its face `j` on, of which `left` are left.
abbrev pub faces_of_element : (dimension left j i : ℕ) → Element → Run (List (FourTuple × FacetId))
faces_of_element dimension zero j i element = done []
faces_of_element dimension (suc left) j i element = do
  ns ← corners_of dimension element j
  rest ← faces_of_element dimension left (suc j) i element
  done ((ns, facet_id i j) ∷ rest)

-- The faces of the elements from the element `i` on, with their numbers.
abbrev pub faces_of_mesh : (dimension i : ℕ) → List Element → Run (List (FourTuple × FacetId))
faces_of_mesh dimension i [] = done []
faces_of_mesh dimension i (element ∷ elements) = do
  here ← faces_of_element dimension element.0.size_nfaces 0 i element
  rest ← faces_of_mesh dimension (suc i) elements
  done (here ++ rest)

done_eq {ℓ} : {A : Type ℓ} {a b : A} → done a ≡ done b → a ≡ b
done_eq h = cc

bind_done {ℓ κ} :
    {A : Type ℓ} {B : Type κ} (m : Run A) (f : A → Run B) {b : B}
    → (m >>= f) ≡ done b
    → (a : A) × (m ≡ done a) × (f a ≡ done b)
bind_done (done a) f h = (a, refl, h)
bind_done (stopped why) f h = cc

each_face-append :
    (fs gs : List (FourTuple × FacetId)) (s : Faces)
    → each_face (fs ++ gs) s ≡ (each_face fs s >>= λ s'. each_face gs s')
each_face-append [] gs s = refl
each_face-append ((q, fid) ∷ fs) gs s =
    >>=_ext (check_face_unique q fid s) _ _ (λ s'. each_face-append fs gs s')
    ∙ sym (>>=_assoc (check_face_unique q fid s) _ _)

check_faces-each :
    (dimension left j i : ℕ) (element : Element) (fs : List (FourTuple × FacetId)) (s : Faces)
    → faces_of_element dimension left j i element ≡ done fs
    → check_faces dimension left j i element s ≡ each_face fs s
unfolding check_faces
check_faces-each dimension zero j i element fs s h = rw (← done_eq h) refl
check_faces-each dimension (suc left) j i element fs s h =
    let (ns, e, h') = bind_done (corners_of dimension element j) _ h in
    let (rest, e', h'') = bind_done (faces_of_element dimension left (suc j) i element) _ h' in
    rw (e, ← done_eq h'')
      (>>=_ext (check_face_unique ns (facet_id i j) s) _ _
        (λ s'. check_faces-each dimension left (suc j) i element rest s' e'))

check_mesh-each :
    (dimension i : ℕ) (elements : List Element) (fs : List (FourTuple × FacetId)) (s : Faces)
    → faces_of_mesh dimension i elements ≡ done fs
    → each_row (check_element dimension) i elements s ≡ each_face fs s
check_mesh-each dimension i [] fs s h = rw (← done_eq h) refl
check_mesh-each dimension i (element ∷ elements) fs s h =
    let (here, e, h') =
      bind_done (faces_of_element dimension element.0.size_nfaces 0 i element) _ h in
    let (rest, e', h'') = bind_done (faces_of_mesh dimension (suc i) elements) _ h' in
    rw
      (
        ← done_eq h'',
        each_face-append here rest s,
        check_faces-each dimension element.0.size_nfaces 0 i element here s e,
      )
      (>>=_ext (each_face here s) _ _ (λ s'. check_mesh-each dimension (suc i) elements rest s' e'))

-- The corners of a face are nodes from 1 to `n`, the fourth one too or -1.
abbrev pub InMesh : ℕ → FourTuple → Type 0
InMesh n (four (pos a) (pos b) (pos c) (pos d)) =
    ((0 < a) × (a ≤ n)) × ((0 < b) × (b ≤ n)) × ((0 < c) × (c ≤ n)) × (0 < d) × (d ≤ n)
InMesh n (four (pos a) (pos b) (pos c) (negsuc d)) =
    ((0 < a) × (a ≤ n)) × ((0 < b) × (b ≤ n)) × (0 < c) × (c ≤ n)
InMesh n _ = ⊥

second_quad :
    (n a b c d : ℕ)
    → 0 < a
    → a ≤ n
    → 0 < b
    → b ≤ n
    → 0 < c
    → c ≤ n
    → 0 < d
    → d ≤ n
    → (0 < second_corner (sort_corners (four (pos a) (pos b) (pos c) (pos d))))
      × (second_corner (sort_corners (four (pos a) (pos b) (pos c) (pos d))) ≤ n)
unfolding sort_corners
second_quad n a b c d h1 h2 h3 h4 h5 h6 h7 h8 = (ground arith, ground arith)

second_tri :
    (n a b c d : ℕ)
    → 0 < a
    → a ≤ n
    → 0 < b
    → b ≤ n
    → 0 < c
    → c ≤ n
    → (0 < second_corner (sort_corners (four (pos a) (pos b) (pos c) (negsuc d))))
      × (second_corner (sort_corners (four (pos a) (pos b) (pos c) (negsuc d))) ≤ n)
unfolding sort_corners
second_tri n a b c d h1 h2 h3 h4 h5 h6 = (ground arith, ground arith)

InMesh-second :
    (n : ℕ) (q : FourTuple)
    → InMesh n q
    → (0 < second_corner (sort_corners q)) × (second_corner (sort_corners q) ≤ n)
InMesh-second n (four (pos a) (pos b) (pos c) (pos d)) (h1, h2, h3, h4, h5) =
    second_quad n a b c d h1.0 h1.1 h2.0 h2.1 h3.0 h3.1 h4 h5
InMesh-second n (four (pos a) (pos b) (pos c) (negsuc d)) (h1, h2, h3, h4) =
    second_tri n a b c d h1.0 h1.1 h2.0 h2.1 h3 h4
InMesh-second n (four (pos a) (pos b) (negsuc c) d) h = absurd h
InMesh-second n (four (pos a) (negsuc b) c d) h = absurd h
InMesh-second n (four (negsuc a) b c d) h = absurd h

HaveMaps-InMesh :
    (n : ℕ) (fs : List (FourTuple × FacetId)) → All (λ f. InMesh n f.0) fs → HaveMaps n fs
HaveMaps-InMesh n [] a = tt
HaveMaps-InMesh n ((q, fid) ∷ fs) (h, a) = (InMesh-second n q h, HaveMaps-InMesh n fs a)

abbrev no_faces : ℕ → Faces
no_faces n = record { c2f_vec = copies n []; num_external_face = 0 }

length-no_faces : (n : ℕ) → length (no_faces n).c2f_vec ≡ n
length-no_faces zero = refl
length-no_faces (suc n) = ap suc (length-no_faces n)

entries-no_faces : (n : ℕ) → entries (no_faces n).c2f_vec ≡ 0
entries-no_faces zero = refl
entries-no_faces (suc n) = omega (arith, entries-no_faces n)

bucket-no_faces : (n j : ℕ) → bucket (no_faces n).c2f_vec j ≡ []
bucket-no_faces n zero = refl
bucket-no_faces zero (suc j) = refl
bucket-no_faces (suc n) (suc zero) = refl
bucket-no_faces (suc n) (suc (suc j)) = bucket-no_faces n (suc j)

present-no_faces : (n : ℕ) (k : FourTuple) → present k (no_faces n) ≡ 0
present-no_faces n k = rw (bucket-no_faces n (second_corner k)) refl

dimension_refreshed :
    (tables : List Table)
    → pane_dimension (refresh_connectivity tables).cnct_set ≡ pane_dimension tables
unfolding refresh
dimension_refreshed [] = refl
dimension_refreshed (c ∷ cs) = refl

-- How many of the faces have the corners of the key, in whatever order.
abbrev pub times : FourTuple → List (FourTuple × FacetId) → ℕ
times k [] = 0
times k ((q, fid) ∷ fs) = (if same_corners k q then 1 else 0) + times k fs

counted :
    (k : FourTuple)
    → ascending k ≡ true
    → (fs : List (FourTuple × FacetId)) → sorted_times k fs ≡ times k fs
counted k up [] = refl
counted k up ((q, fid) ∷ fs) =
    let here : equivalent k (sort_corners q) ≡ same_corners k q =
      equivalent-sort_corners k q ∙ rw up refl in
    rw here (omega (arith, counted k up fs))

none_counted :
    (k : FourTuple)
    → ascending k ≡ false
    → (fs : List (FourTuple × FacetId)) → sorted_times k fs ≡ 0
none_counted k down [] = refl
none_counted k down ((q, fid) ∷ fs) =
    let here : equivalent k (sort_corners q) ≡ false = equivalent-sort_corners k q ∙ rw down refl in
    rw here (omega (arith, none_counted k down fs))

sorted_times-times :
    (k : FourTuple) (fs : List (FourTuple × FacetId))
    → sorted_times k fs ≡ (if ascending k then times k fs else 0)
sorted_times-times k fs = elim (Bool-cases (ascending k)) [
  | inl up ↦ rw up (counted k up fs)
  | inr down ↦ rw down (none_counted k down fs)
]

-- For tables with the nodes of their elements, where the faces `fs` of the first `num_elmts` elements
-- can be read and have nodes from 1 to `num_nodes` as their corners, the first loop of
-- `determine_border_nodes_3` ends: four corners in ascending order are once in the map of the
-- second of them if an odd number of the faces have just these corners, in whatever order, and not at
-- all otherwise; corners in another order are not in the map of the second of them, and
-- `num_external_face` is the number of entries of all maps.
pub external_faces_odd :
    (tables : List Table) (num_nodes num_elmts : ℕ) (fs : List (FourTuple × FacetId))
    → All IsFull tables
    → num_elmts ≤ total tables
    → faces_of_mesh (pane_dimension tables) 1 (first_rows num_elmts (rows_of_tables tables))
      ≡ done fs
    → All (λ f. InMesh num_nodes f.0) fs
    → (s : Faces) × (external_faces num_nodes num_elmts (refresh_connectivity tables) ≡ done s)
      × ((k : FourTuple) → present k s ≡ (if ascending k then times k fs else 0) % 2)
      × (s.num_external_face ≡ entries s.c2f_vec)
unfolding external_faces
external_faces_odd tables num_nodes num_elmts fs full enough faces within =
    let start : IsConsistent (no_faces num_nodes) = record {
      once = λ k. omega (arith, present-no_faces num_nodes k);
      counted = sym (entries-no_faces num_nodes);
    } in
    let (s, e, odd, counted) =
      each_face_odd fs (no_faces num_nodes) start
        (rw (length-no_faces num_nodes) (HaveMaps-InMesh num_nodes fs within)) in
    (
      s,
      ap
            (λ dimension. cursor_at 1 (refresh_connectivity tables) >>= λ ene.
              each_element (check_element dimension) (refresh_connectivity tables) num_elmts 1 ene
                (no_faces num_nodes))
            (dimension_refreshed tables)
          ∙ each_element-rows (check_element (pane_dimension tables)) tables num_elmts
              (no_faces num_nodes) full enough
          ∙ check_mesh-each (pane_dimension tables) 1 (first_rows num_elmts (rows_of_tables tables))
              fs (no_faces num_nodes) faces
          ∙ e,
      λ k.
          odd k
          ∙ ap (λ n. (n + sorted_times k fs) % 2) (present-no_faces num_nodes k)
          ∙ ap (λ n. n % 2) (omega arith)
          ∙ ap (λ n. n % 2) (sorted_times-times k fs),
      counted,
    )
