-- ===== src/Com/Connectivity/Structured.antt =====
-- The real, the ghost and all nodes and elements of a structured mesh, side by side.
use impact.Prelude.{
  ℕ, suc, ◌+◌, ◌-◌, ◌*◌, ◌≤◌, ◌≡◌, refl, ap, ◌∙◌, true, ℤ, pos, ◌+ℤ◌, ◌-ℤ◌, ◌*ℤ◌, max_zero,
  int_laws, Option, none, some, arith,
}
use impact.Com.ElementType.{ElementType, st1, st2, st3, is_structured}
use impact.Com.Connectivity.{
  Dims, size_of_elements, size_of_ghost_elements, size_of_real_elements, size_of_nodes,
  size_of_ghost_nodes, size_of_real_nodes,
}

-- Two results of one switch, added.
abbrev pub add_sizes : Option ℤ → Option ℤ → Option ℤ
add_sizes (some a) (some b) = some (a +ℤ b)
add_sizes _ _ = none

add_back : (a b : ℤ) → a -ℤ b +ℤ b ≡ a
add_back a b = omega int_laws

add_up : (a b : ℤ) → a +ℤ (b -ℤ a) ≡ b
add_up a b = omega int_laws

-- The ghost nodes and the real nodes of a structured mesh add up to its nodes, whatever its
-- dimensions and its ghost layers; for another type of element all three fail the assertion.
pub nodes_add_up :
    (t : ElementType) (d : Dims)
    → add_sizes (size_of_ghost_nodes t d) (size_of_real_nodes t d) ≡ size_of_nodes t d
unfolding size_of_ghost_nodes size_of_real_nodes size_of_nodes
nodes_add_up st1 d = ap (λ n. some n) (add_up _ d.size_0)
nodes_add_up st2 d = ap (λ n. some n) (add_back _ _)
nodes_add_up st3 d = ap (λ n. some n) (add_back _ _)
nodes_add_up _ d = refl

-- The dimensions of a mesh with `g` ghost layers on each side and `x`, `y` and `z` real cells.
abbrev pub mesh : (g x y z : ℕ) → Dims
mesh g x y z = record {
  size_0 = pos (suc (2 * g + x));
  size_1 = pos (suc (2 * g + y));
  size_2 = pos (suc (2 * g + z));
  ngitems = pos g;
}

abbrev pub real_cells_of : ElementType → (x y z : ℕ) → ℕ
real_cells_of st1 x y z = x
real_cells_of st2 x y z = x * y
real_cells_of st3 x y z = x * y * z
real_cells_of _ x y z = 0

*ℤ_pos : (a b : ℕ) → pos a *ℤ pos b ≡ pos (a * b)
unfolding ◌*ℤ◌
*ℤ_pos a b = ground arith

cells_mesh : (g x : ℕ) → pos (suc (2 * g + x)) -ℤ pos 1 ≡ pos (2 * g + x)
unfolding ◌-ℤ◌
cells_mesh g x = ground arith

real_mesh : (g x : ℕ) → pos (2 * g + x) -ℤ pos (2 * g) ≡ pos x
unfolding ◌-ℤ◌
real_mesh g x = ground arith

-ℤ_pos : (a b : ℕ) → b ≤ a → pos a -ℤ pos b ≡ pos (a - b)
unfolding ◌-ℤ◌
-ℤ_pos a b h = ground arith

+ℤ_pos : (a b : ℕ) → pos a +ℤ pos b ≡ pos (a + b)
unfolding ◌+ℤ◌
+ℤ_pos a b = ground arith

ghost_add : (a b : ℕ) → b ≤ a → max_zero (pos a -ℤ pos b) +ℤ pos b ≡ pos a
ghost_add a b h = rw (-ℤ_pos a b h) (+ℤ_pos (a - b) b ∙ ap (λ n. pos n) (omega arith))

-- In a structured mesh with the same number of ghost layers on both sides of each dimension and
-- any number of real cells between them, the real elements are the real cells, and with the ghost
-- elements they are all the elements.
pub elements_add_up :
    (t : ElementType) (g x y z : ℕ)
    → is_structured t ≡ true
    → (size_of_real_elements t (mesh g x y z) ≡ some (pos (real_cells_of t x y z)))
      × (add_sizes
            (size_of_ghost_elements t (mesh g x y z))
            (size_of_real_elements t (mesh g x y z))
          ≡ size_of_elements t (mesh g x y z))
unfolding size_of_real_elements size_of_ghost_elements size_of_elements is_structured
elements_add_up st1 g x y z s =
    (simp (*ℤ_pos, cells_mesh, real_mesh), simp (*ℤ_pos, cells_mesh, real_mesh) (simp +ℤ_pos))
elements_add_up st2 g x y z s = (
  simp (*ℤ_pos, cells_mesh, real_mesh),
  simp (*ℤ_pos, cells_mesh, real_mesh) (ap (λ n. some n) (ghost_add _ _ (omega arith))),
)
elements_add_up st3 g x y z s = (
  simp (*ℤ_pos, cells_mesh, real_mesh),
  simp (*ℤ_pos, cells_mesh, real_mesh) (ap (λ n. some n) (ghost_add _ _ (omega arith))),
)
elements_add_up _ g x y z s = cc
