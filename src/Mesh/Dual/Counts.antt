-- ===== src/Mesh/Dual/Counts.antt =====
-- How often `Inverse` enters an element at a node.
use impact.Prelude.{
  ℕ, zero, suc, ◌+◌, ◌<◌, ◌≤◌, ◌≡◌, refl, ap, ◌∙◌, true, false, List, [], ◌∷◌, ◌++◌, length, arith,
  ◌==◌, ◌&&◌, if◌then◌else◌, Bool-cases, inl, inr, All,
}
use impact.Mesh.Table.{done}
use impact.Mesh.Dual.{push_at_id, invert_row, invert_rows}

abbrev pub count : ℕ → List ℕ → ℕ
count x [] = 0
count x (y ∷ ys) = if x == y then suc (count x ys) else count x ys

-- The row of an identifier, with no entry where there is no row.
abbrev pub row_at : List (List ℕ) → ℕ → List ℕ
row_at rows zero = []
row_at [] (suc v) = []
row_at (row ∷ rows) (suc zero) = row
row_at (row ∷ rows) (suc (suc v)) = row_at rows (suc v)

abbrev pub AllIds : ℕ → List (List ℕ) → Type 0
AllIds n rows = All (λ row. All (λ v. (0 < v) × (v ≤ n)) row) rows

pub count-append_one :
    (x y : ℕ) (ys : List ℕ) → count x (ys ++ y ∷ []) ≡ count x ys + (if x == y then 1 else 0)
count-append_one x y [] = ground arith
count-append_one x y (z ∷ ys) = ground (arith, count-append_one x y ys)

push_at_id_total :
    (rc : List (List ℕ)) (v x : ℕ)
    → 0 < v
    → v ≤ length rc
    → (rc' : List (List ℕ)) × (push_at_id rc v x ≡ done rc')
      × (length rc' ≡ length rc)
      × ((w y : ℕ)
          → count y (row_at rc' w) ≡ count y (row_at rc w) + (if w == v && y == x then 1 else 0))
unfolding push_at_id
push_at_id_total rc zero x lt le = absurd (omega arith)
push_at_id_total [] (suc v) x lt le = absurd (omega arith)
push_at_id_total (row ∷ rc) (suc zero) x lt le = ((row ++ x ∷ []) ∷ rc, refl, refl, each)
  where
    each :
        (w y : ℕ)
        → count y (row_at ((row ++ x ∷ []) ∷ rc) w)
          ≡ count y (row_at (row ∷ rc) w) + (if w == 1 && y == x then 1 else 0)
    each zero y = ground arith
    each (suc zero) y = ground (arith, count-append_one y x row)
    each (suc (suc w)) y = ground arith
push_at_id_total (row ∷ rc) (suc (suc v)) x lt le =
    let (rest, e, len, f) = push_at_id_total rc (suc v) x (omega arith) (omega arith) in
    (row ∷ rest, rw e refl, omega arith, each rest f)
  where
    each :
        (rest : List (List ℕ))
        → ((w y : ℕ)
            → count y (row_at rest w)
              ≡ count y (row_at rc w) + (if w == suc v && y == x then 1 else 0))
        → (w y : ℕ)
        → count y (row_at (row ∷ rest) w)
          ≡ count y (row_at (row ∷ rc) w) + (if w == suc (suc v) && y == x then 1 else 0)
    each rest f zero y = ground arith
    each rest f (suc zero) y = ground arith
    each rest f (suc (suc w)) y = ground (arith, f (suc w) y)

invert_row_total :
    (row : List ℕ) (e : ℕ) (rc : List (List ℕ))
    → All (λ v. (0 < v) × (v ≤ length rc)) row
    → (rc' : List (List ℕ)) × (invert_row row e rc ≡ done rc')
      × (length rc' ≡ length rc)
      × ((w y : ℕ)
          → count y (row_at rc' w) ≡ count y (row_at rc w) + (if y == e then count w row else 0))
unfolding invert_row
invert_row_total [] e rc a = (rc, refl, refl, λ w y. ground arith)
invert_row_total (v ∷ row) e rc ((lt, le), a) =
    let (rc1, f, len, g) = push_at_id_total rc v e lt le in
    let (rc2, f2, len2, g2) = invert_row_total row e rc1 (rw len a) in
    (rc2, rw f f2, len2 ∙ len, λ w y. ground (arith, g w y, g2 w y))

-- The row of the element `y`, where the first row is that of the element `e`.
abbrev pub row_from : ℕ → List (List ℕ) → ℕ → List ℕ
row_from e [] y = []
row_from e (row ∷ rows) y = if y == e then row else row_from (suc e) rows y

row_from_below : (e : ℕ) (rows : List (List ℕ)) (y : ℕ) → y < e → row_from e rows y ≡ []
row_from_below e [] y lt = refl
row_from_below e (row ∷ rows) y lt =
    let apart : (y == e) ≡ false = ground arith in
    rw apart (row_from_below (suc e) rows y (omega arith))

row_from_above :
    (e : ℕ) (rows : List (List ℕ)) (k : ℕ) → row_from e rows (e + k) ≡ row_at rows (suc k)
row_from_above e [] k = refl
row_from_above e (row ∷ rows) zero = let here : (e + 0 == e) ≡ true = ground arith in rw here refl
row_from_above e (row ∷ rows) (suc k) =
    let apart : (e + suc k == e) ≡ false = ground arith in
    let shift : e + suc k ≡ suc e + k = omega arith in
    rw apart (ap (λ z. row_from (suc e) rows z) shift ∙ row_from_above (suc e) rows k)

pub row_from-row_at : (rows : List (List ℕ)) (y : ℕ) → row_from 1 rows y ≡ row_at rows y
row_from-row_at rows zero = row_from_below 1 rows 0 (omega arith)
row_from-row_at rows (suc k) =
    let shift : suc k ≡ 1 + k = omega arith in
    ap (λ z. row_from 1 rows z) shift ∙ row_from_above 1 rows k

pub invert_rows_total :
    (n e : ℕ) (rows rc : List (List ℕ))
    → n ≡ length rows
    → AllIds (length rc) rows
    → (rc' : List (List ℕ)) × (invert_rows n e rows rc ≡ done rc')
      × (length rc' ≡ length rc)
      × ((w y : ℕ) → count y (row_at rc' w) ≡ count y (row_at rc w) + count w (row_from e rows y))
unfolding invert_rows
invert_rows_total zero e [] rc len a = (rc, refl, refl, λ w y. omega arith)
invert_rows_total zero e (row ∷ rows) rc len a = absurd (omega arith)
invert_rows_total (suc n) e [] rc len a = absurd (omega arith)
invert_rows_total (suc n) e (row ∷ rows) rc len (a, more) =
    let (rc1, f, len1, g) = invert_row_total row e rc a in
    let (rc2, f2, len2, g2) = invert_rows_total n (suc e) rows rc1 (omega arith) (rw len1 more) in
    (
      rc2,
      rw f f2,
      len2 ∙ len1,
      λ w y. elim (Bool-cases (y == e)) [
        | inl here ↦
            let below : row_from (suc e) rows y ≡ [] =
              row_from_below (suc e) rows y (ground arith) in
            ground (arith, g w y, g2 w y, below)
        | inr apart ↦ ground (arith, g w y, g2 w y)
      ],
    )
