-- ===== src/SurfMap/Borders/Isolated.antt =====
-- The isolated nodes of a mesh, and the list of the nodes that are marked.
use impact.Prelude.{
  ℕ, zero, suc, ◌+◌, ◌<◌, ◌≤◌, ◌≡◌, refl, ap, ◌∙◌, sym, subst, Bool, true, false, not, ◌&&◌, ◌||◌,
  List, [], ◌∷◌, ◌++◌, reverse, length, set, length-set, All, ltb, leb, ◌==◌, arith,
}
use mathlib.Core.List.{reverse-cons}
use impact.Prelude.Runs.{done, write_at-set}
use impact.Com.Pane.{Table, refresh_connectivity}
use impact.Com.Pane.Numbered.{total}
use impact.Com.UnstructuredNodes.{Element}
use impact.Com.UnstructuredNodes.Rows.{
  IsFull, first_rows, rows_of_tables, each_row, each_element-rows,
}
use impact.SurfMap.Dual.{copies, each_in}
use impact.SurfMap.Dual.Pairs.{AllNodes}
use impact.SurfMap.Borders.{
  marked_from, convert_nodelist, unmark_node, unmark_element, determine_isolated_nodes,
}

abbrev pub is_node : ℕ → List ℕ → Bool
is_node v [] = false
is_node v (w ∷ row) = v == w || is_node v row

-- Whether the node `v` is one of the nodes of the elements.
abbrev pub in_element : ℕ → List Element → Bool
in_element v [] = false
in_element v ((t, row) ∷ elements) = is_node v row || in_element v elements

-- The mark of a node, `false` where there is none.
abbrev pub mark : List Bool → ℕ → Bool
mark marks zero = false
mark [] (suc v) = false
mark (b ∷ marks) (suc zero) = b
mark (b ∷ marks) (suc (suc v)) = mark marks (suc v)

mark-set :
    (marks : List Bool) (k : ℕ) (v : ℕ)
    → mark (set marks k false) v ≡ (mark marks v && not (v == suc k))
mark-set [] k zero = refl
mark-set [] k (suc v) = refl
mark-set (b ∷ marks) k zero = refl
mark-set (b ∷ marks) zero (suc zero) = ground arith
mark-set (b ∷ marks) zero (suc (suc v)) = ground arith
mark-set (b ∷ marks) (suc k) (suc zero) = ground arith
mark-set (b ∷ marks) (suc k) (suc (suc v)) = ground (arith, mark-set marks k (suc v))

unmark-All :
    (i : ℕ) (row : List ℕ) (marks : List Bool)
    → All (λ v. (0 < v) × (v ≤ length marks)) row
    → (marks' : List Bool) × (each_in unmark_node i row marks ≡ done marks')
      × (length marks' ≡ length marks)
      × ((v : ℕ) → mark marks' v ≡ (mark marks v && not (is_node v row)))
unfolding unmark_node
unmark-All i [] marks a = (marks, refl, refl, λ v. ground arith)
unmark-All i (zero ∷ row) marks ((h, g), a) = absurd (omega arith)
unmark-All i (suc k ∷ row) marks ((h, g), a) =
    let len = length-set marks k false in
    let (marks', e, l, f) = unmark-All i row (set marks k false) (rw len a) in
    (
      marks',
      rw (write_at-set marks k false (omega arith)) e,
      l ∙ len,
      λ v. ground (arith, f v, mark-set marks k v),
    )

All-snoc : (P : ℕ → Type 0) (row : List ℕ) (v : ℕ) → All P row → P v → All P (row ++ v ∷ [])
All-snoc P [] v a h = (h, tt)
All-snoc P (w ∷ row) v (g, a) h = (g, All-snoc P row v a h)

All-reverse : (P : ℕ → Type 0) (row : List ℕ) → All P row → All P (reverse row)
All-reverse P [] a = tt
All-reverse P (v ∷ row) (h, a) =
    subst (λ vs. All P vs) (sym (reverse-cons v row))
      (All-snoc P (reverse row) v (All-reverse P row a) h)

is_node-snoc : (v w : ℕ) (row : List ℕ) → is_node v (row ++ w ∷ []) ≡ (v == w || is_node v row)
is_node-snoc v w [] = refl
is_node-snoc v w (u ∷ row) = ground (arith, is_node-snoc v w row)

is_node-reverse : (v : ℕ) (row : List ℕ) → is_node v (reverse row) ≡ is_node v row
is_node-reverse v [] = refl
is_node-reverse v (w ∷ row) =
    ap (λ vs. is_node v vs) (reverse-cons w row)
    ∙ is_node-snoc v w (reverse row)
    ∙ ap (λ b. v == w || b) (is_node-reverse v row)

unmark_mesh :
    (i : ℕ) (elements : List Element) (marks : List Bool)
    → AllNodes (length marks) elements
    → (marks' : List Bool) × (each_row unmark_element i elements marks ≡ done marks')
      × ((v : ℕ) → mark marks' v ≡ (mark marks v && not (in_element v elements)))
unmark_mesh i [] marks a = (marks, refl, λ v. ground arith)
unmark_mesh i ((t, row) ∷ elements) marks (a, b) =
    let (marks1, e, l, f) =
      unmark-All i (reverse row) marks (All-reverse (λ v. (0 < v) × (v ≤ length marks)) row a) in
    let (marks2, e2, f2) = unmark_mesh (suc i) elements marks1 (rw l b) in
    (marks2, rw e e2, λ v. ground (arith, f v, f2 v, is_node-reverse v row))

mark-copies : (n v : ℕ) → mark (copies n true) v ≡ (ltb 0 v && leb v n)
mark-copies n zero = ground arith
mark-copies zero (suc v) = ground arith
mark-copies (suc n) (suc zero) = ground arith
mark-copies (suc n) (suc (suc v)) = ground (arith, mark-copies n (suc v))

length-marks : (n : ℕ) → length (copies n true) ≡ n
length-marks zero = refl
length-marks (suc n) = ap suc (length-marks n)

marked_before : (i v : ℕ) (marks : List Bool) → v < i → is_node v (marked_from i marks) ≡ false
unfolding marked_from
marked_before i v [] lt = refl
marked_before i v (true ∷ marks) lt = ground (arith, marked_before (suc i) v marks)
marked_before i v (false ∷ marks) lt = marked_before (suc i) v marks (omega arith)

is_node-marked_from :
    (i k : ℕ) (marks : List Bool) → is_node (i + k) (marked_from i marks) ≡ mark marks (suc k)
unfolding marked_from
is_node-marked_from i k [] = refl
is_node-marked_from i zero (true ∷ marks) = ground arith
is_node-marked_from i zero (false ∷ marks) = marked_before (suc i) (i + 0) marks (omega arith)
is_node-marked_from i (suc k) (true ∷ marks) =
    let apart : (suc i + k == i) ≡ false = ground arith in
    let next : i + suc k ≡ suc i + k = omega arith in
    ap (λ w. is_node w (i ∷ marked_from (suc i) marks)) next
    ∙ rw apart (is_node-marked_from (suc i) k marks)
is_node-marked_from i (suc k) (false ∷ marks) =
    let next : i + suc k ≡ suc i + k = omega arith in
    ap (λ w. is_node w (marked_from (suc i) marks)) next ∙ is_node-marked_from (suc i) k marks

is_node-convert_nodelist :
    (marks : List Bool) (v : ℕ) → is_node v (convert_nodelist marks) ≡ mark marks v
unfolding convert_nodelist
is_node-convert_nodelist marks zero = marked_before 1 0 marks (omega arith)
is_node-convert_nodelist marks (suc v) =
    let next : suc v ≡ 1 + v = omega arith in
    ap (λ w. is_node w (marked_from 1 marks)) next ∙ is_node-marked_from 1 v marks

-- For tables with the nodes of their elements, where the nodes of the first `nelems` elements are
-- numbered from 1 to `nnodes`, `determine_isolated_nodes` returns, and `convert_nodelist` of its
-- result lists of the numbers from 1 to `nnodes` those that no element has, and no other.
pub convert_nodelist-determine_isolated_nodes :
    (tables : List Table) (nnodes nelems : ℕ)
    → All IsFull tables
    → nelems ≤ total tables
    → AllNodes nnodes (first_rows nelems (rows_of_tables tables))
    → (marks : List Bool) × (determine_isolated_nodes false nnodes nelems
          (refresh_connectivity tables)
        ≡ done marks)
      × ((v : ℕ)
          → is_node v (convert_nodelist marks) ≡ (
              (ltb 0 v && leb v nnodes)
              && not (in_element v (first_rows nelems (rows_of_tables tables)))))
unfolding determine_isolated_nodes
convert_nodelist-determine_isolated_nodes tables nnodes nelems full enough within =
    let elements = first_rows nelems (rows_of_tables tables) in
    let (marks, e, f) =
      unmark_mesh 1 elements (copies nnodes true) (rw (length-marks nnodes) within) in
    (
      marks,
      each_element-rows unmark_element tables nelems (copies nnodes true) full enough ∙ e,
      λ v.
          is_node-convert_nodelist marks v
          ∙ f v
          ∙ ap (λ b. b && not (in_element v elements)) (mark-copies nnodes v),
    )
