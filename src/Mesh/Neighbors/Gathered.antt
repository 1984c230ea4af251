-- ===== src/Mesh/Neighbors/Gathered.antt =====
-- What the loops of `GetNeighborhood` and `GetAdjacent` gather for one element.
use impact.Prelude.{
  ℕ, zero, suc, ◌-◌, ◌<◌, ◌≤◌, ◌≡◌, refl, ◌∙◌, Bool, true, false, not, ◌&&◌, ◌||◌, List, [], ◌∷◌,
  length, length-set, set, ltb, arith, ◌==◌, if◌then◌else◌, Bool-cases, inl, inr, All,
}
use impact.Mesh.Table.{done, at_id}
use impact.Mesh.Dual.Counts.{count, count-append_one, row_at, AllIds}
use impact.Mesh.Neighbors.{
  Gathering, gather_id, gather_row, gather, insert_sorted, sort_ids, remove_id, clear_added,
}

abbrev pub InRange : ℕ → List ℕ → Type 0
InRange n ids = All (λ v. (0 < v) × (v ≤ n)) ids

abbrev pub mem : ℕ → List ℕ → Bool
mem x [] = false
mem x (y ∷ ys) = x == y || mem x ys

pub mem-count : (x : ℕ) (xs : List ℕ) → mem x xs ≡ ltb 0 (count x xs)
mem-count x [] = ground arith
mem-count x (y ∷ ys) = ground (arith, mem-count x ys)

abbrev pub one_if : Bool → ℕ
one_if b = if b then 1 else 0

-- The flag of an identifier.
abbrev pub flag : ℕ → List Bool → Bool
flag zero added = false
flag (suc f) [] = false
flag (suc zero) (b ∷ added) = b
flag (suc (suc f)) (b ∷ added) = flag (suc f) added

-- One of the nodes has `f` in its row.
abbrev pub touches : ℕ → List ℕ → List (List ℕ) → Bool
touches f [] dc = false
touches f (v ∷ nodes) dc = mem f (row_at dc v) || touches f nodes dc

pub flag-set :
    (added : List Bool) (i f : ℕ) (b : Bool)
    → i < length added
    → flag f (set added i b) ≡ (if f == suc i then b else flag f added)
flag-set [] i f b lt = absurd (omega arith)
flag-set (x ∷ added) zero zero b lt = ground arith
flag-set (x ∷ added) zero (suc zero) b lt = ground arith
flag-set (x ∷ added) zero (suc (suc f)) b lt = ground arith
flag-set (x ∷ added) (suc i) zero b lt = ground arith
flag-set (x ∷ added) (suc i) (suc zero) b lt = ground arith
flag-set (x ∷ added) (suc i) (suc (suc f)) b lt = ground (arith, flag-set added i (suc f) b)

pub at_id-flag :
    (added : List Bool) (id : ℕ)
    → 0 < id
    → id ≤ length added
    → at_id added id ≡ done (flag id added)
at_id-flag added zero lt le = absurd (omega arith)
at_id-flag [] (suc i) lt le = absurd (omega arith)
at_id-flag (b ∷ added) (suc zero) lt le = refl
at_id-flag (b ∷ added) (suc (suc i)) lt le = at_id-flag added (suc i) (omega arith) (omega arith)

pub flag_in_range : (added : List Bool) (f : ℕ) → flag f added ≡ true → (0 < f) × (f ≤ length added)
flag_in_range added zero e = cc
flag_in_range [] (suc f) e = cc
flag_in_range (b ∷ added) (suc zero) e = (omega arith, omega arith)
flag_in_range (b ∷ added) (suc (suc f)) e =
    let (lt, le) = flag_in_range added (suc f) e in (omega arith, omega arith)

-- The list has each identifier whose flag is set, once, and no other.
pub record IsGathering (n : ℕ) (s : Gathering) : Type 0 where
  pub sized : length s.added ≡ n
  pub counted : (f : ℕ) → count f s.nbrs ≡ one_if (flag f s.added)

gather_id-IsGathering :
    (n id : ℕ) (s : Gathering)
    → IsGathering n s
    → 0 < id
    → id ≤ n
    → IsGathering n (gather_id id (flag id s.added) s)
      × ((f : ℕ) → flag f (gather_id id (flag id s.added) s).added ≡ (f == id || flag f s.added))
unfolding gather_id
gather_id-IsGathering n zero s g lt le = absurd (omega arith)
gather_id-IsGathering n (suc i) s g lt le = elim (Bool-cases (flag (suc i) s.added)) [
  | inl old ↦ rw old (
    g,
    λ f. elim (Bool-cases (f == suc i)) [
      | inl here ↦ let same : f ≡ suc i = ground arith in rw same (ground (arith, old))
      | inr there ↦ rw there refl
    ],
  )
  | inr new ↦
      let shift : suc i - 1 ≡ i = omega arith in
      let inside : i < length s.added = omega (arith, g.sized) in
      rw (new, shift)
        (
          record {
            sized = length-set s.added i true ∙ g.sized;
            counted = λ f. ground (
              arith,
              g.counted f,
              count-append_one f (suc i) s.nbrs,
              flag-set s.added i f true inside,
              new,
            );
          },
          λ f. flag-set s.added i f true inside ∙ (ground arith),
        )
]

gather_row_total :
    (n : ℕ) (row : List ℕ) (s : Gathering)
    → IsGathering n s
    → InRange n row
    → (t : Gathering) × (gather_row row s ≡ done t)
      × IsGathering n t
      × ((f : ℕ) → flag f t.added ≡ (mem f row || flag f s.added))
unfolding gather_row
gather_row_total n [] s g a = (s, refl, g, λ f. refl)
gather_row_total n (id ∷ row) s g ((lt, le), a) =
    let (g1, f1) = gather_id-IsGathering n id s g lt le in
    let (t, e, g2, f2) = gather_row_total n row (gather_id id (flag id s.added) s) g1 a in
    let here : at_id s.added id ≡ done (flag id s.added) =
      at_id-flag s.added id lt (omega (arith, g.sized)) in
    (t, rw here e, g2, λ f. ground (arith, f1 f, f2 f))

pub dual_row :
    (n : ℕ) (dc : List (List ℕ)) (v : ℕ)
    → 0 < v
    → v ≤ length dc
    → AllIds n dc
    → (at_id dc v ≡ done (row_at dc v)) × InRange n (row_at dc v)
dual_row n dc zero lt le a = absurd (omega arith)
dual_row n [] (suc v) lt le a = absurd (omega arith)
dual_row n (row ∷ dc) (suc zero) lt le (r, a) = (refl, r)
dual_row n (row ∷ dc) (suc (suc v)) lt le (r, a) =
    dual_row n dc (suc v) (omega arith) (omega arith) a

pub gather_total :
    (n : ℕ) (nodes : List ℕ) (dc : List (List ℕ)) (s : Gathering)
    → IsGathering n s
    → InRange (length dc) nodes
    → AllIds n dc
    → (t : Gathering) × (gather nodes dc s ≡ done t)
      × IsGathering n t
      × ((f : ℕ) → flag f t.added ≡ (touches f nodes dc || flag f s.added))
unfolding gather
gather_total n [] dc s g a ids = (s, refl, g, λ f. refl)
gather_total n (v ∷ nodes) dc s g ((lt, le), a) ids =
    let (here, r) = dual_row n dc v lt le ids in
    let (s1, e1, g1, f1) = gather_row_total n (row_at dc v) s g r in
    let (t, e, g2, f2) = gather_total n nodes dc s1 g1 a ids in
    (t, rw (here, e1) e, g2, λ f. ground (arith, f1 f, f2 f))

count-insert_sorted : (f v : ℕ) (xs : List ℕ) → count f (insert_sorted v xs) ≡ count f (v ∷ xs)
unfolding insert_sorted
count-insert_sorted f v [] = refl
count-insert_sorted f v (x ∷ xs) = ground (arith, count-insert_sorted f v xs)

pub count-sort_ids : (f : ℕ) (xs : List ℕ) → count f (sort_ids xs) ≡ count f xs
unfolding sort_ids
count-sort_ids f [] = refl
count-sort_ids f (x ∷ xs) =
    count-insert_sorted f x (sort_ids xs) ∙ (ground (arith, count-sort_ids f xs))

pub count-remove_id :
    (f v : ℕ) (xs : List ℕ) → count f (remove_id v xs) ≡ (if f == v then 0 else count f xs)
unfolding remove_id
count-remove_id f v [] = ground arith
count-remove_id f v (x ∷ xs) = ground (arith, count-remove_id f v xs)

pub clear_added_total :
    (n : ℕ) (ids : List ℕ) (added : List Bool)
    → length added ≡ n
    → InRange n ids
    → (added' : List Bool) × (clear_added ids added ≡ done added')
      × (length added' ≡ n)
      × ((f : ℕ) → flag f added' ≡ (not (mem f ids) && flag f added))
unfolding clear_added
clear_added_total n [] added len a = (added, refl, len, λ f. refl)
clear_added_total n (zero ∷ ids) added len ((lt, le), a) = absurd (omega arith)
clear_added_total n (suc i ∷ ids) added len ((lt, le), a) =
    let shift : suc i - 1 ≡ i = omega arith in
    let here : at_id added (suc i) ≡ done (flag (suc i) added) =
      at_id-flag added (suc i) lt (omega arith) in
    let (cleared, e, len', f') =
      clear_added_total n ids (set added i false) (length-set added i false ∙ len) a in
    (
      cleared,
      rw (here, shift) e,
      len',
      λ f. ground (arith, f' f, flag-set added i f false (omega arith)),
    )
