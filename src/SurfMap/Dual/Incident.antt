-- ===== src/SurfMap/Dual/Incident.antt =====
-- What `incident_elements` returns: the elements of each node, as `construct_connectivity_unstr` enters
-- them.
use impact.Prelude.{
  ℤ, inl, inr, Bool-cases, ℕ, zero, suc, ◌+◌, ◌-◌, ◌<◌, ◌≤◌, ◌≡◌, refl, ap, ◌∙◌, sym, subst, pos,
  List, [], ◌∷◌, ◌++◌, length, All, append_assoc, append-nil, arith, leb, ltb, ◌==◌, true, false,
  if◌then◌else◌,
}
use impact.Prelude.Runs.{
  at, stopped, undefined, assert_failed, at_cases, Run, done, ◌>>=◌, >>=_assoc,
}
use impact.Com.Pane.{Table, refresh_connectivity}
use impact.Com.Pane.Numbered.{total}
use impact.Com.UnstructuredNodes.{Element, cursor_at, each_element}
use impact.Com.UnstructuredNodes.Rows.{IsFull, first_rows, rows_of_tables, each_element-rows}
use impact.SurfMap.Dual.{
  Dual, copies, each_node, count_node, sized_eids, fill_node, moved_on,
  construct_connectivity_unstr, prefix_of, incident_elements,
}
use impact.SurfMap.Dual.Buckets.{
  Buckets, taken, room, offs, cells, entered, length-entered, taken-entered, room-entered,
  fill_node-offs, slices, rest, rest-positive, rest-empty,
}
use impact.SurfMap.Dual.Pairs.{
  each_pair, incident_from, pairs, elems, elems-pairs, each_pair-pairs, Within, AllNodes,
  Within-pairs, has_above,
}
use impact.SurfMap.Dual.Above.{
  has_above-incident_from, none_above-incident_from, none_above-AllNodes,
}
use impact.SurfMap.Dual.Counted.{
  entry, hits, counts, fresh, length-copies, length-fresh, room-fresh, taken-fresh,
  offsets_from-fresh, sized_eids-fresh,
}

entered_first :
    (j k e : ℕ) (ps : List (ℕ × ℕ))
    → (if j == k then e ∷ [] else []) ++ elems (suc j) ps ≡ elems (suc j) ((suc k, e) ∷ ps)
entered_first j k e ps = ground arith

joined :
    (j k e : ℕ) (ps : List (ℕ × ℕ)) (before : List ℕ)
    → (before ++ (if j == k then e ∷ [] else [])) ++ elems (suc j) ps
      ≡ before ++ elems (suc j) ((suc k, e) ∷ ps)
joined j k e ps before =
    append_assoc before (if j == k then e ∷ [] else []) (elems (suc j) ps)
    ∙ ap (λ es. before ++ es) (entered_first j k e ps)

fills :
    (ps : List (ℕ × ℕ)) (bs : Buckets) (n : ℕ)
    → Within n ps
    → ((k : ℕ) → room bs k ≡ hits (suc k) ps)
    → (bs' : Buckets) × (each_pair fill_node ps (offs 0 bs, cells bs)
        ≡ done (offs 0 bs', cells bs'))
      × (length bs' ≡ length bs)
      × ((k : ℕ) → taken bs' k ≡ taken bs k ++ elems (suc k) ps)
      × ((k : ℕ) → room bs' k ≡ 0)
fills [] bs n w enough = (bs, refl, refl, λ k. sym (append-nil (taken bs k)), enough)
fills ((zero, e) ∷ ps) bs n ((h, g), w) enough = absurd (omega arith)
fills ((suc k, e) ∷ ps) bs n ((h, g), w) enough =
    let left : 0 < room bs k = ground (arith, enough k) in
    let (bs', f, l, each, full) =
      fills ps (entered k e bs) n w (λ j. ground (arith, room-entered k e bs j left, enough j)) in
    (
      bs',
      rw (fill_node-offs bs k e left) f,
      l ∙ length-entered k e bs,
      λ j.
          each j
          ∙ ap (λ es. es ++ elems (suc j) ps) (taken-entered k e bs j left)
          ∙ joined j k e ps (taken bs j),
      full,
    )

prefix_of-append : (xs ys : List ℕ) → prefix_of (length xs) (xs ++ ys) ≡ xs
prefix_of-append [] ys = refl
prefix_of-append (x ∷ xs) ys = ap (λ zs. x ∷ zs) (prefix_of-append xs ys)

entry-copies : (n k : ℕ) → entry (copies n 0) k ≡ 0
entry-copies zero k = refl
entry-copies (suc n) zero = refl
entry-copies (suc n) (suc k) = entry-copies n k

-- A loop over the elements whose nodes are entered without an error.
loop_done :
    {S T : Type 0} (body : ℕ → ℕ → S → Run S) (tables : List Table) (n : ℕ) (s s' : S)
    (next : S → Run T)
    → All IsFull tables
    → n ≤ total tables
    → each_pair body (pairs 1 (first_rows n (rows_of_tables tables))) s ≡ done s'
    → (cursor_at 1 (refresh_connectivity tables) >>= λ e.
        each_element (each_node body) (refresh_connectivity tables) n 1 e s >>= next)
      ≡ next s'
loop_done body tables n s s' next full enough h =
    sym (>>=_assoc (cursor_at 1 (refresh_connectivity tables)) _ next)
    ∙ ap (λ m. m >>= next)
        (each_element-rows (each_node body) tables n s full enough
          ∙ each_pair-pairs body 1 (first_rows n (rows_of_tables tables)) s
          ∙ h)

built :
    (tables : List Table) (nnodes nelems : ℕ) (cs : List ℕ) (bs : Buckets)
    → All IsFull tables
    → nelems ≤ total tables
    → ((k : ℕ) → entry cs k < 128)
    → each_pair count_node (pairs 1 (first_rows nelems (rows_of_tables tables))) (copies nnodes 0)
      ≡ done cs
    → each_pair fill_node
        (pairs 1 (first_rows nelems (rows_of_tables tables)))
        (offs 0 (fresh cs), cells (fresh cs))
      ≡ done (offs 0 bs, cells bs)
    → construct_connectivity_unstr nnodes nelems (refresh_connectivity tables)
      ≡ done (record { offsets = moved_on (pos 0) (offs 0 bs); eids = cells bs })
unfolding construct_connectivity_unstr sized_eids
built tables nnodes nelems cs bs full enough small counted filled =
    let (m, e, f) = sized_eids-fresh cs 0 (pos 0) in
    let none_before : 0 + m ≡ m = omega arith in
    loop_done count_node tables nelems (copies nnodes 0) cs _ full enough counted
    ∙ rw (offsets_from-fresh cs 0 small, e, none_before, f)
        (loop_done fill_node tables nelems (offs 0 (fresh cs), cells (fresh cs))
          (offs 0 bs, cells bs) _ full enough filled)

-- The slice of a node in arrays whose buckets are full.
found_in :
    (bs : Buckets) (v : ℕ)
    → ((k : ℕ) → room bs k ≡ 0)
    → v < length bs
    → incident_elements (suc v) (record { offsets = moved_on (pos 0) (offs 0 bs); eids = cells bs })
      ≡ (if ltb 0 (rest bs v) then done (taken bs v) else stopped undefined)
unfolding incident_elements
found_in bs v full lt =
    let (q, after, a, b, c, d) = slices bs 0 v full lt in
    let given : (suc v == 0) ≡ false = ground arith in
    let ordered : leb (0 + q) (0 + q + length (taken bs v)) ≡ true = ground arith in
    let inside : ltb (0 + q + length (taken bs v)) (length (cells bs)) ≡ ltb 0 (rest bs v) =
      ground (arith, d) in
    let size : 0 + q + length (taken bs v) - (0 + q) ≡ length (taken bs v) = omega arith in
    let start : 0 + q ≡ q = omega arith in
    let entries = ap done (prefix_of-append (taken bs v) after) in
    rw (given, a, b, ordered, inside, size, start, c, entries) refl

at_beyond : (xs : List ℤ) (k : ℕ) → length xs ≤ k → at xs k ≡ stopped undefined
at_beyond [] k le = refl
at_beyond (x ∷ xs) zero le = absurd (omega arith)
at_beyond (x ∷ xs) (suc k) le = at_beyond xs k (omega arith)

length-moved_on : (b : ℤ) (xs : List ℤ) → length (moved_on b xs) ≡ length xs
unfolding moved_on
length-moved_on b [] = refl
length-moved_on b (x ∷ xs) = ap suc (length-moved_on x xs)

length-offs : (base : ℕ) (bs : Buckets) → length (offs base bs) ≡ suc (length bs)
length-offs base [] = refl
length-offs base ((filled, left) ∷ bs) =
    ap suc (length-offs (base + length filled + length left) bs)

-- A node above the last one has no offset.
found_beyond :
    (bs : Buckets) (v : ℕ)
    → length bs < suc v
    → incident_elements (suc v) (record { offsets = moved_on (pos 0) (offs 0 bs); eids = cells bs })
      ≡ stopped undefined
unfolding incident_elements
found_beyond bs v beyond =
    let offsets = moved_on (pos 0) (offs 0 bs) in
    let given : (suc v == 0) ≡ false = ground arith in
    let none_to : at offsets (suc v) ≡ stopped undefined =
      at_beyond offsets (suc v)
        (omega (arith, length-moved_on (pos 0) (offs 0 bs), length-offs 0 bs)) in
    elim (at_cases offsets v) [
      | inl out ↦ rw (given, out) refl
      | inr (from, within) ↦ rw (given, within, none_to) refl
    ]

node_zero :
    (bs : Buckets)
    → incident_elements 0 (record { offsets = moved_on (pos 0) (offs 0 bs); eids = cells bs })
      ≡ stopped assert_failed
unfolding incident_elements
node_zero bs = refl

-- The cells after those of a node belong to the nodes above it.
rest-has_above :
    (bs : Buckets) (rows : List Element) (v : ℕ)
    → ((k : ℕ) → length (taken bs k) ≡ length (incident_from 1 (suc k) rows))
    → ((k : ℕ) → room bs k ≡ 0)
    → ltb 0 (rest bs v) ≡ has_above (suc v) rows
rest-has_above bs rows v each full = elim (Bool-cases (has_above (suc v) rows)) [
  | inl some_above ↦
      let (w, lt, l) = has_above-incident_from 1 (suc v) rows some_above in
      let back : suc (w - 1) ≡ w = omega arith in
      let l' : 0 < length (taken bs (w - 1)) = rw (each (w - 1), back) l in
      let p = rest-positive bs v (w - 1) (omega arith) l' in rw some_above (ground arith)
  | inr none_above ↦
      let z = rest-empty bs v full (λ j lt.
        each j ∙ none_above-incident_from 1 (suc v) (suc j) rows none_above (omega arith)) in
      rw none_above (ground arith)
]

found_each :
    (cs : List ℕ) (bs : Buckets) (rows : List Element) (n v : ℕ)
    → ((k : ℕ) → taken bs k ≡ taken (fresh cs) k ++ elems (suc k) (pairs 1 rows))
    → ((k : ℕ) → room bs k ≡ 0)
    → n ≡ length bs
    → AllNodes n rows
    → incident_elements v (record { offsets = moved_on (pos 0) (offs 0 bs); eids = cells bs }) ≡ (
        if v == 0
        then stopped assert_failed
        else if has_above v rows
        then done (incident_from 1 v rows)
        else stopped undefined)
found_each cs bs rows n zero each full size within = node_zero bs
found_each cs bs rows n (suc v) each full size within =
    let given : (suc v == 0) ≡ false = ground arith in
    let filled : (k : ℕ) → taken bs k ≡ incident_from 1 (suc k) rows = λ k.
      each k
      ∙ ap (λ es. es ++ elems (suc k) (pairs 1 rows)) (taken-fresh cs k)
      ∙ elems-pairs (suc k) 1 rows in
    elim (Bool-cases (leb (suc v) n)) [
      | inl inside ↦ rw given (
          found_in bs v full (ground arith)
          ∙ rw (rest-has_above bs rows v (λ k. ap length (filled k)) full, filled v) refl)
      | inr beyond ↦
          let none_above = none_above-AllNodes n (suc v) rows (ground arith) within in
          rw (given, none_above) (found_beyond bs v (ground arith))
    ]

-- For tables with the nodes of their elements, where the nodes of the first `nelems` elements are
-- numbered from 1 to `nnodes` and each number occurs fewer than 128 times among them, the dual
-- connectivity is built. For a node with a larger number among those of the elements,
-- `incident_elements` then returns its elements in ascending order, each as often as the node is
-- among its nodes; 0 fails an assertion, and for the largest of the numbers and all above it the
-- address of the entry past the end is taken by an index out of range.
pub incident_elements-construct :
    (tables : List Table) (nnodes nelems : ℕ)
    → All IsFull tables
    → nelems ≤ total tables
    → AllNodes nnodes (first_rows nelems (rows_of_tables tables))
    → ((v : ℕ) → length (incident_from 1 v (first_rows nelems (rows_of_tables tables))) < 128)
    → (d : Dual) × (construct_connectivity_unstr nnodes nelems (refresh_connectivity tables)
        ≡ done d)
      × ((v : ℕ)
          → incident_elements v d ≡ (
              if v == 0
              then stopped assert_failed
              else if has_above v (first_rows nelems (rows_of_tables tables))
              then done (incident_from 1 v (first_rows nelems (rows_of_tables tables)))
              else stopped undefined))
incident_elements-construct tables nnodes nelems full enough within few =
    let rows = first_rows nelems (rows_of_tables tables) in
    let len = length-copies nnodes in
    let hits-few : (k : ℕ) → hits (suc k) (pairs 1 rows) < 128 =
      λ k. subst (λ es. length es < 128) (sym (elems-pairs (suc k) 1 rows)) (few (suc k)) in
    let (cs, counted, l, each) =
      counts (pairs 1 rows) (copies nnodes 0) (rw len (Within-pairs nnodes 1 rows within))
        (λ k. rw (entry-copies nnodes k) (omega (arith, hits-few k))) in
    let sums : (k : ℕ) → entry cs k ≡ hits (suc k) (pairs 1 rows) =
      λ k. omega (arith, each k, entry-copies nnodes k) in
    let (bs, filled, l', each', done_all) =
      fills (pairs 1 rows) (fresh cs) nnodes (Within-pairs nnodes 1 rows within)
        (λ k. room-fresh cs k ∙ sums k) in
    (
      record { offsets = moved_on (pos 0) (offs 0 bs); eids = cells bs },
      built tables nnodes nelems cs bs full enough (λ k. rw (sums k) (hits-few k)) counted filled,
      λ v.
          found_each cs bs rows nnodes v each' done_all (omega (arith, l', length-fresh cs, l, len))
            within,
    )
