-- ===== src/Mesh/Dual/Inverse.antt =====
-- `Inverse` of a table of elements, and of the table that it gives.
use impact.Prelude.{
  ℕ, zero, suc, ◌+◌, ◌<◌, ◌≤◌, ◌≡◌, refl, sym, ap, ◌∙◌, List, [], ◌∷◌, length, arith, All, map,
}
use impact.Mesh.Table.{
  Run, done, stopped, unfinished, ◌>>=◌, Connectivity, new_connectivity, resize_to, resize_rows,
  sync,
}
use impact.Mesh.Table.Cached.{IsSynced}
use impact.Mesh.Dual.{
  max_node_id, invert_row, invert_rows, nnodes_of, inverse, unless_degenerate, invert_proper_rows,
  inverse_degenerate,
}
use impact.Mesh.Dual.Counts.{count, row_at, AllIds, row_from, row_from-row_at, invert_rows_total}

length_empty_rows : (n : ℕ) → length {A = List ℕ} (resize_to n [] []) ≡ n
length_empty_rows zero = refl
length_empty_rows (suc n) = ap suc (length_empty_rows n)

row_at_empty_rows : (n v : ℕ) → row_at (resize_to n [] []) v ≡ []
row_at_empty_rows zero zero = refl
row_at_empty_rows zero (suc v) = refl
row_at_empty_rows (suc n) zero = refl
row_at_empty_rows (suc n) (suc zero) = refl
row_at_empty_rows (suc n) (suc (suc v)) = row_at_empty_rows n (suc v)

-- An identifier with a row that has an entry is in range.
in_range_of_count :
    (rows : List (List ℕ)) (v x : ℕ) → 0 < count x (row_at rows v) → (0 < v) × (v ≤ length rows)
in_range_of_count rows zero x lt = absurd (omega arith)
in_range_of_count [] (suc v) x lt = absurd (omega arith)
in_range_of_count (row ∷ rows) (suc zero) x lt = (omega arith, omega arith)
in_range_of_count (row ∷ rows) (suc (suc v)) x lt =
    let (a, b) = in_range_of_count rows (suc v) x lt in (omega arith, omega arith)

-- Entries that are counted in range are in range.
pub All-of_count :
    (n : ℕ) (row : List ℕ)
    → ((x : ℕ) → 0 < count x row → (0 < x) × (x ≤ n))
    → All (λ x. (0 < x) × (x ≤ n)) row
All-of_count n [] f = tt
All-of_count n (y ∷ row) f = (f y (ground arith), All-of_count n row (λ x lt. f x (ground arith)))

AllIds-of_count :
    (n : ℕ) (rows : List (List ℕ))
    → ((v x : ℕ) → 0 < count x (row_at rows v) → (0 < x) × (x ≤ n))
    → AllIds n rows
AllIds-of_count n [] f = tt
AllIds-of_count n (row ∷ rows) f = (All-of_count n row (f 1), AllIds-of_count n rows (later f))
  where
    later :
        ((v x : ℕ) → 0 < count x (row_at (row ∷ rows) v) → (0 < x) × (x ≤ n))
        → (v x : ℕ) → 0 < count x (row_at rows v)
        → (0 < x) × (x ≤ n)
    later f zero x lt = absurd (omega arith)
    later f (suc v) x lt = f (suc (suc v)) x lt

-- For a table whose count is right and whose nodes are numbered from 1 to `nnodes`, `Inverse` returns
-- a table of `nnodes` rows that has each element in the row of a node as often as the element has
-- the node, and no other entry.
pub count-inverse :
    (fuel nnodes : ℕ) (c : Connectivity)
    → IsSynced c
    → 0 < nnodes
    → AllIds nnodes c.rows
    → (d : Connectivity) × (inverse fuel nnodes c new_connectivity ≡ done d)
      × IsSynced d
      × (d.nelem ≡ nnodes)
      × AllIds c.nelem d.rows
      × ((v e : ℕ) → count e (row_at d.rows v) ≡ count v (row_at c.rows e))
unfolding inverse sync resize_rows
count-inverse fuel zero c synced pos ids = absurd (omega arith)
count-inverse fuel (suc n) c synced pos ids =
    let empty_rows : List (List ℕ) = resize_to (suc n) [] [] in
    let len0 : length empty_rows ≡ suc n = length_empty_rows (suc n) in
    let (rows, e, len, f) = invert_rows_total c.nelem 1 c.rows empty_rows synced (rw len0 ids) in
    let each : (v y : ℕ) → count y (row_at rows v) ≡ count v (row_at c.rows y) = λ v y.
      f v y
      ∙ ap (λ z. count y z + count v (row_from 1 c.rows y)) (row_at_empty_rows (suc n) v)
      ∙ ap (λ z. 0 + count v z) (row_from-row_at c.rows y)
      ∙ (omega arith) in
    let right : length rows ≡ suc n = len ∙ len0 in
    (
      record { nelem = length empty_rows; sizes = []; rows = rows },
      rw e refl,
      omega arith,
      len0,
      AllIds-of_count c.nelem rows (λ v x lt.
          let (a, b) = in_range_of_count c.rows x v (rw (each v x) at lt) in (a, omega arith)),
      each,
    )

max_node_id_unfinished :
    (fuel : ℕ) (row : List ℕ) (rows : List (List ℕ)) (m : ℕ)
    → max_node_id fuel (row ∷ rows) m ≡ stopped unfinished
unfolding max_node_id
max_node_id_unfinished zero row rows m = refl
max_node_id_unfinished (suc fuel) row rows m = max_node_id_unfinished fuel row rows _

-- `Inverse` with the default `nnodes` = 0 does not return for a table with a row, whatever the fuel:
-- the loop of `MaxNodeId` stays at the first row.
pub inverse_unfinished :
    (fuel : ℕ) (c rc : Connectivity) → 0 < length c.rows → inverse fuel 0 c rc ≡ stopped unfinished
unfolding inverse
inverse_unfinished fuel c rc lt = at_rows c.rows c.nelem rc lt
  where
    at_rows :
        (rows : List (List ℕ)) (n : ℕ) (rc : Connectivity)
        → 0 < length rows
        → (nnodes_of fuel 0 rows >>= λ k.
            (invert_rows n 1 rows (sync (resize_rows k rc)).rows >>= λ rows'.
            done (record (sync (resize_rows k rc)) { rows = rows' })))
          ≡ stopped unfinished
    at_rows [] n rc lt = absurd (omega arith)
    at_rows (row ∷ rows) n rc lt = rw (max_node_id_unfinished fuel row rows 0) refl

>>=-ext :
    {A B : Type 0} (m : Run A) (f g : A → Run B) → ((x : A) → f x ≡ g x) → (m >>= f) ≡ (m >>= g)
>>=-ext (stopped why) f g e = refl
>>=-ext (done x) f g e = e x

invert_proper_rows-map :
    (n e : ℕ) (rows rc : List (List ℕ))
    → invert_proper_rows n e rows rc ≡ invert_rows n e (map unless_degenerate rows) rc
unfolding invert_proper_rows invert_rows
invert_proper_rows-map zero e rows rc = refl
invert_proper_rows-map (suc n) e [] rc = refl
invert_proper_rows-map (suc n) e (row ∷ rows) rc =
    >>=-ext (invert_row (unless_degenerate row) e rc) _ _
      (λ rc'. invert_proper_rows-map n (suc e) rows rc')

nnodes_of-map :
    (fuel n : ℕ) (rows : List (List ℕ))
    → nnodes_of fuel n rows ≡ nnodes_of fuel n (map unless_degenerate rows)
unfolding max_node_id
nnodes_of-map fuel zero [] = refl
nnodes_of-map fuel zero (row ∷ rows) =
    max_node_id_unfinished fuel row rows 0
    ∙ sym (max_node_id_unfinished fuel (unless_degenerate row) (map unless_degenerate rows) 0)
nnodes_of-map fuel (suc n) rows = refl

-- `InverseDegenerate` gives, or fails to give, what `Inverse` gives for the table in which each row of
-- fewer than two nodes is empty.
pub inverse_degenerate-inverse :
    (fuel nnodes : ℕ) (c rc : Connectivity)
    → inverse_degenerate fuel nnodes c rc
      ≡ inverse fuel nnodes (record c { rows = map unless_degenerate c.rows }) rc
unfolding inverse_degenerate inverse
inverse_degenerate-inverse fuel nnodes c rc =
    ap
      (λ m. m >>= λ n.
        invert_proper_rows c.nelem 1 c.rows (sync (resize_rows n rc)).rows >>= λ rows.
        done (record (sync (resize_rows n rc)) { rows = rows }))
      (nnodes_of-map fuel nnodes c.rows)
    ∙ >>=-ext (nnodes_of fuel nnodes (map unless_degenerate c.rows)) _ _ (λ n.
      ap (λ m. m >>= λ rows. done (record (sync (resize_rows n rc)) { rows = rows }))
        (invert_proper_rows-map c.nelem 1 c.rows (sync (resize_rows n rc)).rows))
