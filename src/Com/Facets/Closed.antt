-- ===== src/Com/Facets/Closed.antt =====
-- The faces of each element type, against its row in the table of sizes.
use impact.Prelude.{
  ℕ, zero, suc, ◌+◌, ◌*◌, ◌≡◌, refl, Bool, true, false, ◌&&◌, Option, none, some, List, [], ◌∷◌,
  ◌++◌, get_elem?, arith, length, ◌==◌, ltb, if◌then◌else◌, Bool-cases, inl, inr,
}
use impact.Com.ElementType.{ElementType, st1, SizeInfo, sizes, is_structured}
use impact.Com.Facets.{new_facet, facet_size_of_nodes, facet_node, facet_get_nodes, positions_below}

-- Each of the positions is read inside the list and is a node of the element.
abbrev pub all_nodes : ℕ → List (Option ℕ) → Bool
all_nodes n [] = true
all_nodes n (none ∷ ps) = false
all_nodes n (some p ∷ ps) = ltb p n && all_nodes n ps

abbrev pub nodes_of : SizeInfo → ℕ → Bool → Option (List (Option ℕ))
nodes_of ene k quad_ret = elim (new_facet ene.size_dim ene k) [
  | none ↦ none
  | some (ne, fn_list) ↦ some (facet_get_nodes ene k ne fn_list quad_ret)
]

abbrev pub good_face : SizeInfo → ℕ → Bool → Bool
good_face ene k quad_ret = elim (nodes_of ene k quad_ret) [
  | none ↦ false
  | some ps ↦ all_nodes ene.size_nnodes ps
]

abbrev pub faces_below : ℕ → (ℕ → Bool) → Bool
faces_below zero f = true
faces_below (suc n) f = f n && faces_below n f

-- The directed edges of a face with the node in the middle, if there is one: consecutive corners.
abbrev pub side : List (Option ℕ) → ℕ → ℕ → ℕ → List (ℕ × ℕ × Option ℕ)
side ps n i j = elim (get_elem? ps i) [
  | some (some a) ↦ elim (get_elem? ps j) [
    | some (some b) ↦ (a, b, elim (get_elem? ps (n + i)) [ some m ↦ m | none ↦ none ]) ∷ []
    | _ ↦ []
  ]
  | _ ↦ []
]

abbrev pub sides : List (Option ℕ) → ℕ → ℕ → List (ℕ × ℕ × Option ℕ)
sides ps n zero = []
sides ps n (suc i) = sides ps n i ++ side ps n i (if suc i == n then 0 else suc i)

abbrev pub face_sides : SizeInfo → ℕ → List (ℕ × ℕ × Option ℕ)
face_sides ene k = elim (new_facet ene.size_dim ene k) [
  | none ↦ []
  | some (ne, fn_list) ↦ sides (facet_get_nodes ene k ne fn_list true) ne ne
]

abbrev pub all_sides : SizeInfo → ℕ → List (ℕ × ℕ × Option ℕ)
all_sides ene zero = []
all_sides ene (suc k) = all_sides ene k ++ face_sides ene k

abbrev pub same_mid : Option ℕ → Option ℕ → Bool
same_mid none none = true
same_mid (some a) (some b) = a == b
same_mid none (some b) = false
same_mid (some a) none = false

-- How many sides run from `a` to `b` with this node in the middle.
abbrev pub count_side : ℕ → ℕ → Option ℕ → List (ℕ × ℕ × Option ℕ) → ℕ
count_side a b m [] = 0
count_side a b m ((c, d, n) ∷ es) =
    (if a == c && (b == d && same_mid m n) then 1 else 0) + count_side a b m es

abbrev pub each_paired : List (ℕ × ℕ × Option ℕ) → List (ℕ × ℕ × Option ℕ) → Bool
each_paired [] es = true
each_paired ((a, b, m) ∷ rest) es =
    (count_side a b m es == 1) && ((count_side b a m es == 1) && each_paired rest es)

-- A volume element has three dimensions and is no structured mesh.
abbrev pub is_volume : ElementType → Bool
is_volume t = if is_structured t then false else (sizes t).size_dim == 3

tables : Unit {0}
unfolding sizes is_structured new_facet facet_get_nodes facet_node
tables = tt

-- The faces of a volume element close up: with its faces numbered below `size_nfaces`, each side
-- of a face runs once in its direction and once against it, with the same node in the middle both
-- times; and there are two sides for each of its `size_nedges` edges.
pub faces_close :
    (t : ElementType)
    → is_volume t ≡ true
    → (each_paired
          (all_sides (sizes t) (sizes t).size_nfaces)
          (all_sides (sizes t) (sizes t).size_nfaces)
        ≡ true)
      × (length (all_sides (sizes t) (sizes t).size_nfaces) ≡ 2 * (sizes t).size_nedges)
unfolding tables
faces_close st1 v = cc
faces_close _ v = ground arith

-- `get_nodes` of a face of a volume element reads no padding and nothing past the row, with or
-- without the nodes that are no corners, and gives nodes of the element alone.
pub get_nodes_in_range :
    (t : ElementType) (quad_ret : Bool)
    → is_volume t ≡ true
    → faces_below (sizes t).size_nfaces (λ k. good_face (sizes t) k quad_ret) ≡ true
unfolding tables
get_nodes_in_range st1 true v = cc
get_nodes_in_range _ true v = ground arith
get_nodes_in_range _ false v = ground arith

-- For an edge of an element of two dimensions `get_nodes` with its middle nodes returns node by node
-- what `operator[]` gives at 0, 1, ... below `size_of_nodes`.
pub get_nodes-facet_node :
    (ene : SizeInfo) (k : ℕ)
    → facet_get_nodes ene k 1 [] true
      ≡ positions_below (facet_node ene k 1 []) (facet_size_of_nodes ene k 1)
unfolding facet_get_nodes facet_node
get_nodes-facet_node ene k =
    let zeroth : k + 0 ≡ k = omega arith in
    elim (Bool-cases (ene.order == 2)) [
      | inl quadratic ↦ rw (quadratic, zeroth) refl
      | inr linear ↦ rw (linear, zeroth) refl
    ]
