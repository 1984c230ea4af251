-- ===== src/Mesh/Table/Cached.antt =====
-- The count and the cached sizes of a `Connectivity`, and the identifiers that its rows hold.
use impact.Prelude.{
  ℕ, zero, suc, ◌+◌, ◌*◌, ◌-◌, ◌<◌, ◌≡◌, refl, sym, ap, ◌∙◌, List, [], ◌∷◌, ◌++◌, length,
  length-append, append_assoc, append-nil, arith, Bool-cases, inl, inr, All,
}
use impact.Mesh.Table.{
  done, ◌>>=◌, Connectivity, at, add_element, read_nodes, add_elements, truncate_rows, truncate,
  destroy_sizes, row_sizes, sync_sizes, in_table, esize, concat_rows, flatten, less_one,
}

-- The count is that of the rows.
abbrev pub IsSynced : Connectivity → Type 0
IsSynced c = c.nelem ≡ length c.rows

row_sizes_total :
    (n : ℕ) (rows : List (List ℕ))
    → n ≡ length rows
    → (ss : List ℕ) × (row_sizes n rows ≡ done ss)
      × (length ss ≡ n)
      × ((i : ℕ) → i < n → at ss i ≡ (at rows i >>= λ row. done (length row)))
unfolding row_sizes
row_sizes_total zero rows e = ([], refl, refl, λ i lt. absurd (omega arith))
row_sizes_total (suc n) [] e = absurd (omega arith)
row_sizes_total (suc n) (row ∷ rows) e =
    let (ss, f, len, each) = row_sizes_total n rows (omega arith) in
    (length row ∷ ss, rw f refl, omega arith, at_each ss each)
  where
    at_each :
        (ss : List ℕ)
        → ((i : ℕ) → i < n → at ss i ≡ (at rows i >>= λ r. done (length r)))
        → (i : ℕ) → i < suc n
        → at (length row ∷ ss) i ≡ (at (row ∷ rows) i >>= λ r. done (length r))
    at_each ss each zero lt = refl
    at_each ss each (suc i) lt = each i (omega arith)

-- For a table whose count is that of its rows, `SyncSizes` returns, and from then on `Esize` gives
-- for every number, also for one that is out of range, what it gives without the cached sizes.
pub esize-sync_sizes :
    (c : Connectivity)
    → IsSynced c
    → (c' : Connectivity) × (sync_sizes c ≡ done c')
      × ((n : ℕ) → esize n c' ≡ esize n (destroy_sizes c))
unfolding sync_sizes esize destroy_sizes
esize-sync_sizes c e =
    let (ss, f, len, each) = row_sizes_total c.nelem c.rows e in
    (record c { sizes = ss }, rw f refl, λ n. same ss len each n)
  where
    same :
        (ss : List ℕ)
        → length ss ≡ c.nelem
        → ((i : ℕ) → i < c.nelem → at ss i ≡ (at c.rows i >>= λ row. done (length row)))
        → (n : ℕ) → esize n (record c { sizes = ss }) ≡ esize n (destroy_sizes c)
    same [] len each n = refl
    same (s ∷ ss) len each zero = refl
    same (s ∷ ss) len each (suc n) = elim (Bool-cases (in_table (suc n) c)) [
      | inl inside ↦ rw inside (each n (ground arith))
      | inr outside ↦ rw outside refl
    ]

abbrev pub NotEmpty : List ℕ → Type 0
NotEmpty row = 0 < length row

truncate_rows_lem :
    (rows : List (List ℕ)) (n more : ℕ)
    → n ≡ length rows + more
    → ((truncate_rows rows n).0 ≡ length (truncate_rows rows n).1 + more)
      × All NotEmpty (truncate_rows rows n).1
      × (concat_rows (truncate_rows rows n).1 ≡ concat_rows rows)
unfolding truncate_rows
truncate_rows_lem [] n more e = (e, tt, refl)
truncate_rows_lem ([] ∷ rows) n more e =
    let smaller : less_one n ≡ n - 1 = ground arith in
    truncate_rows_lem rows (less_one n) more (rw smaller (omega arith))
truncate_rows_lem ((v ∷ row) ∷ rows) (suc n) more e =
    let (a, b, x) = truncate_rows_lem rows (suc n) (suc more) (omega arith) in
    (omega arith, (omega arith, b), ap (λ z. v ∷ row ++ z) x)
truncate_rows_lem ((v ∷ row) ∷ rows) zero more e = absurd (omega arith)

-- `Truncate` takes the empty rows from a table and leaves its count right: the nodes of all rows,
-- in their order, are as they were.
pub flatten-truncate :
    (c : Connectivity)
    → IsSynced c
    → IsSynced (truncate c) × All NotEmpty (truncate c).rows × (flatten (truncate c) ≡ flatten c)
unfolding truncate flatten
flatten-truncate c e =
    let (a, b, x) = truncate_rows_lem c.rows c.nelem 0 (omega arith) in (omega arith, b, x)

concat_rows-append :
    (rows : List (List ℕ)) (row : List ℕ) → concat_rows (rows ++ row ∷ []) ≡ concat_rows rows ++ row
concat_rows-append [] row = append-nil row
concat_rows-append (r ∷ rows) row =
    ap (λ z. r ++ z) (concat_rows-append rows row) ∙ sym (append_assoc r (concat_rows rows) row)

read_nodes_total :
    (nnpe more : ℕ) (elem : List ℕ)
    → length elem ≡ nnpe + more
    → (nodes : List ℕ) × (rest : List ℕ) × (read_nodes nnpe elem ≡ done (nodes, rest))
      × (elem ≡ nodes ++ rest)
      × (length nodes ≡ nnpe)
      × (length rest ≡ more)
unfolding read_nodes
read_nodes_total zero more elem e = ([], elem, refl, refl, refl, omega arith)
read_nodes_total (suc nnpe) more [] e = absurd (omega arith)
read_nodes_total (suc nnpe) more (v ∷ elem) e =
    let (nodes, rest, x, y, a, b) = read_nodes_total nnpe more elem (omega arith) in
    (v ∷ nodes, rest, rw x refl, ap (λ z. v ∷ z) y, omega arith, omega arith)

-- `AddElements` of `nielem` elements with `nnpe` nodes each, from a list that has so many, returns:
-- the table counts the new elements, and `Flatten` gives the nodes it gave before and then the list.
pub flatten-add_elements :
    (nielem nnpe : ℕ) (elem : List ℕ) (c : Connectivity)
    → length elem ≡ nielem * nnpe
    → IsSynced c
    → (c' : Connectivity) × (add_elements nielem nnpe elem c ≡ done c')
      × IsSynced c'
      × (c'.nelem ≡ c.nelem + nielem)
      × (flatten c' ≡ flatten c ++ elem)
unfolding add_elements add_element flatten
flatten-add_elements zero nnpe [] c len e = (c, refl, e, omega arith, sym (append-nil _))
flatten-add_elements zero nnpe (v ∷ elem) c len e = absurd (omega arith)
flatten-add_elements (suc nielem) nnpe elem c len e =
    let (nodes, rest, x, y, a, b) = read_nodes_total nnpe (nielem * nnpe) elem (ground arith) in
    let grown : length (c.rows ++ nodes ∷ []) ≡ length c.rows + 1 =
      length-append c.rows (nodes ∷ []) in
    let (c', f, g, h, k) =
      flatten-add_elements nielem nnpe rest (add_element nodes c) b (omega arith) in
    (
      c',
      rw x f,
      g,
      omega arith,
      k
          ∙ ap (λ z. z ++ rest) (concat_rows-append c.rows nodes)
          ∙ append_assoc (concat_rows c.rows) nodes rest
          ∙ ap (λ z. concat_rows c.rows ++ z) (sym y),
    )
