-- ===== src/Com/StructuredNodes/Visits.antt =====
-- The enumeration of the elements of a structured mesh of two dimensions.
use impact.Prelude.{
  ℕ, zero, suc, ◌+◌, ◌-◌, ◌*◌, ◌/◌, ◌%◌, ◌<◌, ◌≤◌, ◌≡◌, ap, ◌∙◌, some, ◌==◌, if◌then◌else◌, arith,
  Bool-cases, ==_iff, inl, inr, sym,
}
use native.Mathlib.Nat.{
  mul-add-div_right, div-eq_of_lt, add-zero, zero-mul, zero-add, mod-eq_of_lt, add-mod_right,
  mod-lt, div-add-mod',
}
use impact.Com.StructuredNodes.{Enumerator, at_element, at_pair, next, id, node, vertex}

-- The state of the enumerator at the element in column `c` and row `r`, both from 0.
abbrev pub at_cell : (size_i c r : ℕ) → Enumerator
at_cell size_i c r = record { base = r * size_i + c + 1; res = c }

pub div_cell : (w c r : ℕ) → c < w → (r * w + c) / w ≡ r
div_cell w c r h =
    mul-add-div_right (omega arith) r c ∙ ap (λ n. r + n) (div-eq_of_lt h) ∙ add-zero r

pub mod_cell : (w c r : ℕ) → c < w → (r * w + c) % w ≡ c
mod_cell w c zero h = rw zero-mul (rw zero-add (mod-eq_of_lt h))
mod_cell w c (suc r) h =
    let e : suc r * w + c ≡ (r * w + c) + w = grind arith in
    rw e (add-mod_right (r * w + c) w ∙ mod_cell w c r h)

-- The constructor at the element of a column and a row. A row has `w` elements and `suc w` nodes.
at_element_cell :
    (w n c r : ℕ)
    → c < w
    → r * w + c < n
    → at_element (suc w) n (suc (r * w + c)) ≡ some (at_cell (suc w) c r)
unfolding at_element
at_element_cell w n c r h lt =
    let e : suc (r * w + c) - 1 ≡ r * w + c = omega arith in
    let f : suc w - 1 ≡ w = omega arith in
    let g : suc (r * w + c) + r ≡ r * suc w + c + 1 = grind arith in
    rw (e, f) (rw (div_cell w c r h, mod_cell w c r h) (rw g (ground arith)))

-- `next` goes to the cell to the right, or from the last column to the first of the next row.
next_cell :
    (w c r : ℕ)
    → c < w
    → next (suc w) (at_cell (suc w) c r)
      ≡ (if c + 1 == w then at_cell (suc w) 0 (suc r) else at_cell (suc w) (c + 1) r)
unfolding next
next_cell w c r h =
    let f : suc w - 1 ≡ w = omega arith in
    let g : c + 1 ≡ w → r * suc w + c + 1 + 1 + 1 ≡ suc r * suc w + 0 + 1 = λ e. grind arith in
    let k : r * suc w + c + 1 + 1 ≡ r * suc w + (c + 1) + 1 = omega arith in
    rw f (elim (Bool-cases (c + 1 == w)) [
      | inl last ↦ rw last (ap (λ b. record { base = b; res = 0 }) (g ((==_iff (c + 1) w).0 last)))
      | inr inside ↦ rw inside (ap (λ b. record { base = b; res = c + 1 }) k)
    ])

-- Each element number is that of one cell.
record Cell (w i : ℕ) : Type 0 where
  col : ℕ
  line : ℕ
  inside : col < w
  number : suc (line * w + col) ≡ i

locate : (w i : ℕ) → 0 < w → 0 < i → Cell w i
locate w i h k = record {
  col = (i - 1) % w;
  line = (i - 1) / w;
  inside = mod-lt (i - 1) h;
  number = omega (arith, div-add-mod' (i - 1) w);
}

after_cell :
    (w n c r : ℕ)
    → c < w
    → suc (r * w + c) < n
    → at_element (suc w) n (suc (suc (r * w + c))) ≡ some (next (suc w) (at_cell (suc w) c r))
after_cell w n c r h lt = elim (Bool-cases (c + 1 == w)) [
  | inl last ↦
      let full : c + 1 ≡ w = (==_iff (c + 1) w).0 last in
      let e : suc (r * w + c) ≡ suc r * w + 0 = grind arith in
      rw (next_cell w c r h, last)
        (rw e (at_element_cell w n 0 (suc r) (omega arith) (omega (arith, e))))
  | inr inside ↦
      let e : suc (r * w + c) ≡ r * w + (c + 1) = omega arith in
      rw (next_cell w c r h, inside)
        (rw e (at_element_cell w n (c + 1) r (ground arith) (omega (arith, e))))
]

at_element_bounds :
    (size_i n i : ℕ) (e : Enumerator) → at_element size_i n i ≡ some e → (0 < i) × (i ≤ n)
unfolding at_element
at_element_bounds size_i n i e k = (ground arith, ground arith)

id-at_cell : (w c r : ℕ) → c < w → id (suc w) (at_cell (suc w) c r) ≡ suc (r * w + c)
unfolding id
id-at_cell w c r h =
    let e : r * suc w + c + 1 - 1 ≡ r * suc w + c = omega arith in
    rw e (rw (div_cell (suc w) c r (omega arith)) (grind arith))

-- In a mesh with at least one element in a row, the constructor at each element but the last leads
-- by `next` to the state of the constructor at the element after it.
pub next-at_element :
    (w n i : ℕ)
    → 0 < w
    → 0 < i
    → i < n
    → (e : Enumerator) × (at_element (suc w) n i ≡ some e)
      × (at_element (suc w) n (suc i) ≡ some (next (suc w) e))
next-at_element w n i h k lt =
    let cell = locate w i h k in
    let c = cell.col in
    let r = cell.line in
    let here : at_element (suc w) n (suc (r * w + c)) ≡ some (at_cell (suc w) c r) =
      at_element_cell w n c r cell.inside (omega (arith, cell.number)) in
    let next_one = after_cell w n c r cell.inside (omega (arith, cell.number)) in
    let at_i : at_element (suc w) n i ≡ some (at_cell (suc w) c r) =
      ap (at_element (suc w) n) (sym cell.number) ∙ here in
    let at_next : at_element (suc w) n (suc i) ≡ some (next (suc w) (at_cell (suc w) c r)) =
      ap (λ k. at_element (suc w) n (suc k)) (sym cell.number) ∙ next_one in
    (at_cell (suc w) c r, at_i, at_next)

-- In a mesh with at least one element in a row, `id` is the element number that the constructor
-- was given, where it accepted the number.
pub id-at_element :
    (w n i : ℕ) (e : Enumerator) → 0 < w → at_element (suc w) n i ≡ some e → id (suc w) e ≡ i
id-at_element w n i e h k =
    let (low, high) = at_element_bounds (suc w) n i e k in
    let cell = locate w i h low in
    let here : at_element (suc w) n i ≡ some (at_cell (suc w) cell.col cell.line) =
      ap (at_element (suc w) n) (sym cell.number)
      ∙ at_element_cell w n cell.col cell.line cell.inside (omega (arith, cell.number)) in
    let same : e ≡ at_cell (suc w) cell.col cell.line = cc in
    rw same (id-at_cell w cell.col cell.line cell.inside ∙ cell.number)

-- In a mesh with at least two nodes in a row, `vertex` of each of the four nodes of the element is
-- the position at which `operator[]` gives it.
pub vertex-node :
    (size_i : ℕ) (e : Enumerator) (k : ℕ)
    → 2 ≤ size_i
    → k < 4
    → vertex size_i e (node size_i e k) ≡ some k
unfolding vertex node
vertex-node size_i e zero h lt = ground arith
vertex-node size_i e (suc zero) h lt = ground arith
vertex-node size_i e (suc (suc zero)) h lt = ground arith
vertex-node size_i e (suc (suc (suc k))) h lt = ground arith

-- The two constructors agree: for a column and a row inside the mesh, both from 1, the one with
-- the pair gives the state of the one with the element's number.
pub at_pair-at_element :
    (w size_j n c r : ℕ)
    → c < w
    → r < size_j
    → r * w + c < n
    → at_pair (suc w) size_j (suc c) (suc r) ≡ at_element (suc w) n (suc (r * w + c))
unfolding at_pair
at_pair-at_element w size_j n c r h k lt =
    rw (at_element_cell w n c r h lt) (let e : suc r - 1 ≡ r = omega arith in rw e (ground arith))
