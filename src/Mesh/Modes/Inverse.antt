-- ===== src/Mesh/Modes/Inverse.antt =====
-- `matrix_mode` after `graph_mode`.
use impact.Prelude.{
  ℕ, suc, ◌+◌, ◌<◌, ◌≡◌, refl, false, List, [], ◌∷◌, In, All, arith, ltb, Bool-cases, inl, inr,
}
use impact.Mesh.Table.{done, Connectivity}
use impact.Mesh.Modes.{erase_bound, insert_bound, graph_rows, matrix_rows, graph_mode, matrix_mode}

abbrev pub Ascending : List ℕ → Type 0
Ascending [] = Unit {0}
Ascending (x ∷ row) = All (λ y. x < y) row × Ascending row

-- Each row is ascending and holds its own number, from `v` for the first.
abbrev pub HoldSelf : ℕ → List (List ℕ) → Type 0
HoldSelf v [] = Unit {0}
HoldSelf v (row ∷ rows) = Ascending row × In v row × HoldSelf (suc v) rows

lt_of_All : (x v : ℕ) (row : List ℕ) → All (λ y. x < y) row → In v row → x < v
lt_of_All x v [] a m = absurd m
lt_of_All x v (y ∷ row) (lt, a) (inl e) = omega arith
lt_of_All x v (y ∷ row) (lt, a) (inr m) = lt_of_All x v row a m

insert_bound-first : (v : ℕ) (row : List ℕ) → All (λ y. v < y) row → insert_bound v row ≡ v ∷ row
unfolding insert_bound
insert_bound-first v [] a = refl
insert_bound-first v (y ∷ row) (lt, a) = let past : ltb y v ≡ false = ground arith in rw past refl

insert_bound-erase_bound :
    (v : ℕ) (row : List ℕ)
    → Ascending row
    → In v row
    → (row' : List ℕ) × (erase_bound v row ≡ done row') × (insert_bound v row' ≡ row)
unfolding erase_bound insert_bound
insert_bound-erase_bound v [] a m = absurd m
insert_bound-erase_bound v (x ∷ row) (above, a) m = elim (Bool-cases (ltb x v)) [
  | inl below ↦ elim m [
    | inl here ↦ absurd (ground arith)
    | inr later ↦
        let (row', e, f) = insert_bound-erase_bound v row a later in
        (x ∷ row', rw (below, e) refl, rw (below, f) refl)
  ]
  | inr at_x ↦ elim m [
    | inl here ↦ (row, rw at_x refl, rw here (insert_bound-first x row above))
    | inr later ↦ let lt = lt_of_All x v row above later in absurd (ground arith)
  ]
]

matrix_rows-graph_rows :
    (v : ℕ) (rows : List (List ℕ))
    → HoldSelf v rows
    → (rows' : List (List ℕ)) × (graph_rows v rows ≡ done rows') × (matrix_rows v rows' ≡ rows)
unfolding graph_rows matrix_rows
matrix_rows-graph_rows v [] h = ([], refl, refl)
matrix_rows-graph_rows v (row ∷ rows) (a, m, h) =
    let (row', e, f) = insert_bound-erase_bound v row a m in
    let (rows', g, k) = matrix_rows-graph_rows (suc v) rows h in
    (row' ∷ rows', rw (e, g) refl, rw (f, k) refl)

-- On a table of ascending rows, each with its own number among its entries, `graph_mode` returns, and
-- `matrix_mode` with the same offset brings the table back.
pub matrix_mode-graph_mode :
    (offset : ℕ) (c : Connectivity)
    → HoldSelf (offset + 1) c.rows
    → (c' : Connectivity) × (graph_mode offset c ≡ done c') × (matrix_mode offset c' ≡ c)
unfolding graph_mode matrix_mode
matrix_mode-graph_mode offset c h =
    let (rows, e, f) = matrix_rows-graph_rows (offset + 1) c.rows h in
    (record c { rows = rows }, rw e refl, rw f refl)
