-- ===== src/Com/UnstructuredNodes/Rows.antt =====
-- The elements that an enumerator goes through, as rows of nodes: those of the tables, in their order.
use impact.Prelude.{
  ℕ, zero, suc, ◌+◌, ◌-◌, ◌*◌, ◌<◌, ◌≤◌, ◌≡◌, refl, ap, ◌∙◌, ◌⊎◌, inl, inr, List, [], ◌∷◌, ◌++◌,
  length, drop, All, subst, append_assoc, get_elem?_total, ltb, arith, true, false, Bool-cases, sym,
}
use impact.Prelude.Runs.{Run, done, ◌>>=◌, >>=_ext, at, at-get_elem?}
use impact.Com.ElementType.{SizeInfo}
use impact.Com.Pane.{Table, Tables, refresh_connectivity, connectivity}
use impact.Com.Pane.Numbered.{total, total-append, connectivity-refresh, connectivity-total}
use impact.Com.UnstructuredNodes.{
  Cursor, inside, past_end, largest, from_table, cursor_at, enter_table, located, next_element,
  cursor_size_of_nodes, cursor_node, nodes_from, cursor_nodes, Element, element_of, each_element,
}

-- An element has a node, and the array of a table has the nodes of its elements.
pub record IsFull (c : Table) : Type 0 where
  pub has_nodes : 0 < c.info.size_nnodes
  pub room : c.elements * c.info.size_nnodes ≤ length c.nodes

abbrev pub take : ℕ → List ℕ → List ℕ
take zero xs = []
take (suc n) [] = []
take (suc n) (x ∷ xs) = x ∷ take n xs

abbrev pub first_rows {ℓ} : {A : Type ℓ} → ℕ → List A → List A
first_rows zero rows = []
first_rows (suc n) [] = []
first_rows (suc n) (row ∷ rows) = row ∷ first_rows n rows

-- `n` elements of a type, from an array of their nodes.
abbrev pub chunks : ℕ → SizeInfo → List ℕ → List Element
chunks zero t xs = []
chunks (suc n) t xs = (t, take t.size_nnodes xs) ∷ chunks n t (drop t.size_nnodes xs)

abbrev pub rows_of_table : Table → List Element
rows_of_table c = chunks c.elements c.info c.nodes

-- The elements of a pane.
abbrev pub rows_of_tables : List Table → List Element
rows_of_tables [] = []
rows_of_tables (c ∷ cs) = rows_of_table c ++ rows_of_tables cs

-- A loop over rows that are numbered from `i` on.
module _ {ℓ} {S : Type ℓ} (body : ℕ → Element → S → Run S) where
  abbrev pub each_row : ℕ → List Element → S → Run S
  each_row i [] s = done s
  each_row i (row ∷ rows) s = body i row s >>= λ s'. each_row (suc i) rows s'

nodes_from-take :
    (c : Table) (start res left i : ℕ)
    → start + i + left ≤ length c.nodes
    → nodes_from (inside c start res) left i ≡ done (take left (drop (start + i) c.nodes))
unfolding nodes_from cursor_node
nodes_from-take c start res zero i h = refl
nodes_from-take c start res (suc left) i h =
    let (v, rest, e, f) = split_at c.nodes (start + i) (omega arith) in
    let next : start + suc i ≡ suc (start + i) = omega arith in
    rw
      (
        at-split c.nodes (start + i) v rest e,
        nodes_from-take c start res left (suc i) (omega arith),
        next,
        f,
        e,
      )
      refl
  where
    split_at :
        (xs : List ℕ) (i : ℕ)
        → i < length xs
        → (v : ℕ) × (rest : List ℕ) × (drop i xs ≡ v ∷ rest) × (drop (suc i) xs ≡ rest)
    split_at [] i lt = absurd (omega arith)
    split_at (x ∷ xs) zero lt = (x, xs, refl, refl)
    split_at (x ∷ xs) (suc i) lt = split_at xs i (omega arith)

    at-split : (xs : List ℕ) (i v : ℕ) (rest : List ℕ) → drop i xs ≡ v ∷ rest → at xs i ≡ done v
    at-split [] zero v rest e = cc
    at-split [] (suc i) v rest e = cc
    at-split (x ∷ xs) zero v rest e = cc
    at-split (x ∷ xs) (suc i) v rest e = at-split xs i v rest e

-- The number of elements of some tables is 0, or there is a first one among them that has elements.
first_used :
    (cs : List Table)
    → (total cs ≡ 0)
      ⊎ ((before : List Table) × (c : Table) × (after : List Table) × (cs ≡ before ++ c ∷ after)
          × (total before ≡ 0)
          × (0 < c.elements))
first_used [] = inl refl
first_used (c ∷ cs) = elim (Bool-cases (ltb 0 c.elements)) [
  | inl used ↦ inr ([], c, cs, refl, refl, ground arith)
  | inr empty ↦ elim (first_used cs) [
    | inl none_used ↦ inl (ground arith)
    | inr (before, d, after, e, zeros, used) ↦
        inr (c ∷ before, d, after, ap (λ ds. c ∷ ds) e, ground arith, used)
  ]
]

no_chunks : (n : ℕ) (t : SizeInfo) (xs : List ℕ) → n ≡ 0 → chunks n t xs ≡ []
no_chunks zero t xs e = refl
no_chunks (suc n) t xs e = absurd (omega arith)

no_rows : (cs : List Table) → total cs ≡ 0 → rows_of_tables cs ≡ []
no_rows [] e = refl
no_rows (c ∷ cs) e =
    rw (no_chunks c.elements c.info c.nodes (omega arith), no_rows cs (omega arith)) refl

rows-append :
    (cs ds : List Table) → rows_of_tables (cs ++ ds) ≡ rows_of_tables cs ++ rows_of_tables ds
rows-append [] ds = refl
rows-append (c ∷ cs) ds =
    rw (rows-append cs ds)
      (sym (append_assoc (rows_of_table c) (rows_of_tables cs) (rows_of_tables ds)))

All-append_right : (cs ds : List Table) → All IsFull (cs ++ ds) → All IsFull ds
All-append_right [] ds a = a
All-append_right (c ∷ cs) ds a = All-append_right cs ds a.1

drop_nil : (n : ℕ) → drop {A = ℕ} n [] ≡ []
drop_nil zero = refl
drop_nil (suc n) = refl

drop-drop : (m n k : ℕ) (xs : List ℕ) → m + n ≡ k → drop n (drop m xs) ≡ drop k xs
drop-drop zero n k xs e = ap (λ j. drop j xs) (omega arith)
drop-drop (suc m) n zero xs e = absurd (omega arith)
drop-drop (suc m) n (suc k) [] e = drop_nil n
drop-drop (suc m) n (suc k) (x ∷ xs) e = drop-drop m n k xs (omega arith)

element_of-take :
    (c : Table) (start res : ℕ)
    → start + c.info.size_nnodes ≤ length c.nodes
    → element_of (inside c start res) ≡ done (c.info, take c.info.size_nnodes (drop start c.nodes))
unfolding element_of cursor_nodes cursor_size_of_nodes
element_of-take c start res h =
    ap (λ m. m >>= λ nodes. done (c.info, nodes))
      (nodes_from-take c start res c.info.size_nnodes 0 (omega arith)
        ∙ ap (λ k. done (take c.info.size_nnodes (drop k c.nodes))) (omega arith))

next_element_inside :
    (p : Tables) (c : Table) (start res : ℕ)
    → next_element p (inside c start (suc (suc res)))
      ≡ done (inside c (start + c.info.size_nnodes) (suc res))
unfolding next_element
next_element_inside p c start res = ground arith

-- From the last element of a table the enumerator enters the next table that has elements.
next_element_into :
    (tables before between after : List Table) (c d : Table) (start : ℕ)
    → tables ≡ (before ++ c ∷ between) ++ d ∷ after
    → total between ≡ 0
    → 0 < d.elements
    → next_element
        (refresh_connectivity tables)
        (inside (record c { offset = total before }) start 1)
      ≡ done (inside (record d { offset = total (before ++ c ∷ between) }) 0 d.elements)
unfolding next_element
next_element_into tables before between after c d start e zeros used =
    let upto : total (before ++ c ∷ between) ≡ total before + c.elements =
      omega (arith, total-append before (c ∷ between)) in
    rw e (
      ap enter_table (
        connectivity-refresh (total before + 1 + c.elements) (before ++ c ∷ between) after d
          (omega arith) (omega arith)))

-- Where no table after it has elements, the enumerator is past the end.
next_element_out :
    (tables before after : List Table) (c : Table) (start : ℕ)
    → tables ≡ before ++ c ∷ after
    → total after ≡ 0
    → next_element
        (refresh_connectivity tables)
        (inside (record c { offset = total before }) start 1)
      ≡ done past_end
unfolding next_element
next_element_out tables before after c start e zeros =
    let over : total before + 1 + c.elements ≡ suc (total tables) =
      omega (arith, ap total e, total-append before (c ∷ after)) in
    ap enter_table
      (ap (λ k. connectivity k (refresh_connectivity tables)) over ∙ connectivity-total tables)

module _ {ℓ} {S : Type ℓ} (body : ℕ → Element → S → Run S) (tables : List Table) where
  none_left :
      (n i : ℕ) (s : S) (e : Cursor) (rows : List Element)
      → n ≡ 0
      → each_element body (refresh_connectivity tables) n i e s
        ≡ each_row body i (first_rows n rows) s
  unfolding each_element
  none_left zero i s e rows z = refl
  none_left (suc n) i s e rows z = absurd (omega arith)

  each_from :
      (n i : ℕ) (s : S) (before after : List Table) (c : Table) (start res : ℕ)
      → tables ≡ before ++ c ∷ after
      → All IsFull (c ∷ after)
      → 0 < res
      → start + res * c.info.size_nnodes ≤ length c.nodes
      → n ≤ res + total after
      → each_element body
          (refresh_connectivity tables)
          n
          i
          (inside (record c { offset = total before }) start res)
          s
        ≡ each_row body i
            (first_rows n (chunks res c.info (drop start c.nodes) ++ rows_of_tables after))
            s
  unfolding each_element
  each_from zero i s before after c start res e full positive room enough = refl
  each_from (suc n) i s before after c start zero e full positive room enough = absurd (omega arith)
  each_from (suc n) i s before after c start (suc zero) e full positive room enough =
      let here = record c { offset = total before } in
      rw (element_of-take here start 1 (omega arith)) (
        >>=_ext (body i (c.info, take c.info.size_nnodes (drop start c.nodes)) s) _ _ λ s'.
          elim (first_used after) [
            | inl zeros ↦
                rw (next_element_out tables before after c start e zeros)
                  (none_left n (suc i) s' past_end (rows_of_tables after) (omega arith))
            | inr (between, d, rest, f, zeros, used) ↦
                let split : tables ≡ (before ++ c ∷ between) ++ d ∷ rest =
                  e
                  ∙ ap (λ cs. before ++ c ∷ cs) f
                  ∙ sym (append_assoc before (c ∷ between) (d ∷ rest)) in
                let fulls : All IsFull (d ∷ rest) =
                  All-append_right between (d ∷ rest) (subst (λ cs. All IsFull cs) f full.1) in
                let counted : total after ≡ d.elements + total rest =
                  ap total f ∙ total-append between (d ∷ rest) ∙ omega arith in
                rw (next_element_into tables before between rest c d start split zeros used) (
                  each_from n (suc i) s' (before ++ c ∷ between) rest d 0 d.elements split fulls
                    used (omega (arith, fulls.0.room)) (omega arith)
                  ∙ ap (λ rows. each_row body (suc i) (first_rows n rows) s')
                      (sym (
                        ap rows_of_tables f
                        ∙ rows-append between (d ∷ rest)
                        ∙ ap (λ rows. rows ++ rows_of_tables (d ∷ rest)) (no_rows between zeros))))
          ])
  each_from (suc n) i s before after c start (suc (suc res)) e full positive room enough =
      let w = c.info.size_nnodes in
      let here = record c { offset = total before } in
      rw (element_of-take here start (suc (suc res)) (grind arith)) (
        >>=_ext (body i (c.info, take w (drop start c.nodes)) s) _ _ λ s'.
          rw (next_element_inside (refresh_connectivity tables) here start res) (
            each_from n (suc i) s' before after c (start + w) (suc res) e full (omega arith)
              (grind arith) (omega arith)
            ∙ ap
                (λ xs.
                  each_row body (suc i)
                    (first_rows n (chunks (suc res) c.info xs ++ rows_of_tables after)) s')
                (sym (drop-drop start w (start + w) c.nodes refl))))

reads_first : (xs : List ℕ) (k : ℕ) → k ≡ 0 → 0 < length xs → (v : ℕ) × (at xs k ≡ done v)
reads_first xs k e positive =
    let (v, f) = get_elem?_total xs k (omega arith) in (v, at-get_elem? xs k v f)

from_table_first :
    (c : Table) (i : ℕ)
    → i ≡ 0
    → IsFull c
    → 0 < c.elements
    → from_table c i ≡ done (inside c 0 c.elements)
from_table_first c i e full used =
    let w = c.info.size_nnodes in
    let (v, f) =
      reads_first c.nodes (0 * w) (omega arith) (grind (arith, full.room, full.has_nodes)) in
    let within : ltb 0 (largest c.elements 1) ≡ true = ground arith in
    let start : 0 * w ≡ 0 = omega arith in
    let all : c.elements - 0 ≡ c.elements = omega arith in rw (e, within, f, start, all) refl

cursor_at_first :
    (tables before after : List Table) (c : Table)
    → tables ≡ before ++ c ∷ after
    → IsFull c
    → total before ≡ 0
    → 0 < c.elements
    → cursor_at 1 (refresh_connectivity tables)
      ≡ done (inside (record c { offset = total before }) 0 c.elements)
unfolding cursor_at
cursor_at_first tables before after c e full zeros used =
    let early : ltb 1 (total before + 1) ≡ false = ground arith in
    rw (e, connectivity-refresh 1 before after c (omega arith) (omega arith), early)
      (from_table_first (record c { offset = total before }) (1 - (total before + 1)) (omega arith)
        (record { has_nodes = full.has_nodes; room = full.room }) used)

cursor_at_none :
    (tables : List Table)
    → total tables ≡ 0
    → cursor_at 1 (refresh_connectivity tables) ≡ done past_end
unfolding cursor_at
cursor_at_none tables zeros = ap (located 1) (
    ap (λ k. connectivity (suc k) (refresh_connectivity tables)) (sym zeros)
    ∙ connectivity-total tables)

-- For tables that have the nodes of all their elements, and `n` elements or more together, a loop of
-- `n` elements from the first one on has, in its rounds, the nodes of the first `n` elements of the
-- tables.
pub each_element-rows {ℓ} :
    {S : Type ℓ} (body : ℕ → Element → S → Run S) (tables : List Table) (n : ℕ) (s : S)
    → All IsFull tables
    → n ≤ total tables
    → (cursor_at 1 (refresh_connectivity tables) >>= λ e.
        each_element body (refresh_connectivity tables) n 1 e s)
      ≡ each_row body 1 (first_rows n (rows_of_tables tables)) s
each_element-rows {S} body tables n s full enough = elim (first_used tables) [
  | inl zeros ↦
      rw (cursor_at_none tables zeros)
        (none_left body tables n 1 s past_end (rows_of_tables tables) (omega arith))
  | inr (before, c, after, e, zeros, used) ↦
      let fulls : All IsFull (c ∷ after) =
        All-append_right before (c ∷ after) (subst (λ cs. All IsFull cs) e full) in
      let counted : total tables ≡ c.elements + total after =
        ap total e ∙ total-append before (c ∷ after) ∙ omega arith in
      rw (cursor_at_first tables before after c e fulls.0 zeros used) (
        each_from body tables n 1 s before after c 0 c.elements e fulls used
          (omega (arith, fulls.0.room)) (omega arith)
        ∙ ap (λ rows. each_row body 1 (first_rows n rows) s)
            (sym (
              ap rows_of_tables e
              ∙ rows-append before (c ∷ after)
              ∙ ap (λ rows. rows ++ rows_of_tables (c ∷ after)) (no_rows before zeros))))
]
