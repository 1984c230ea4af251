-- ===== src/Sim/Topo/Order.antt =====
-- The order of a sort that is returned.
use mathlib.Core.List.{Perm}
use mathlib.Core.List.Perm
use impact.Prelude.{
  ℕ, zero, suc, ◌<◌, ◌≡◌, refl, ap, ◌∙◌, String, true, Option, none, some, List, [], ◌∷◌, ◌++◌,
  length, slot, In, arith, ◌==◌, ==_iff, Bool-cases, Option-cases, inl, inr, append_assoc,
  append-nil,
}
use impact.Sim.Item.{Heap, n_read, ok}
use impact.Sim.Item.Laws.{>>=-eq-ok, ok_injective}
use impact.Sim.Topo.{
  placed, inputs_placed, is_ready, find_ready, topo_loop, resolved, topological_sort,
}

-- The action at each input of `p` is the action of an item of `seen`.
abbrev pub HasUpstream : Heap → List ℕ → ℕ → Type 0
HasUpstream h seen p =
    (i q : ℕ)
    → i < n_read (h p)
    → slot (h p).input i ≡ some q
    → (s : ℕ) × In s seen × ((h s).myaction ≡ (h q).myaction)

-- Each item has its upstream actions in `seen` or before it.
abbrev pub IsSortedFrom : Heap → List ℕ → List ℕ → Type 0
IsSortedFrom h seen [] = Unit
IsSortedFrom h seen (p ∷ ps) = HasUpstream h seen p × IsSortedFrom h (seen ++ p ∷ []) ps

IsSortedFrom-snoc :
    (h : Heap) (seen xs : List ℕ) (p : ℕ)
    → IsSortedFrom h seen xs
    → HasUpstream h (seen ++ xs) p
    → IsSortedFrom h seen (xs ++ p ∷ [])
IsSortedFrom-snoc h seen [] p s u = (rw append-nil at u, tt)
IsSortedFrom-snoc h seen (x ∷ xs) p s u =
    (s.0, IsSortedFrom-snoc h (seen ++ x ∷ []) xs p s.1 (rw append_assoc u))

pub placed_sound :
    (h : Heap) (a : ℕ) (sort : List ℕ)
    → placed h a sort ≡ true
    → (s : ℕ) × In s sort × ((h s).myaction ≡ a)
unfolding placed
placed_sound h a [] e = cc
placed_sound h a (s ∷ sort) e = elim (Bool-cases ((h s).myaction == a)) [
  | inl here ↦ (s, inl refl, (==_iff _ a).0 here)
  | inr other ↦ let (t, m, f) = placed_sound h a sort (ground arith) in (t, inr m, f)
]

pub placed_complete :
    (h : Heap) (s : ℕ) (sort : List ℕ) → In s sort → placed h (h s).myaction sort ≡ true
unfolding placed
placed_complete h s [] m = absurd m
placed_complete h s (t ∷ sort) (inl e) = rw (← e) (ground arith)
placed_complete h s (t ∷ sort) (inr m) = rw (placed_complete h s sort m) (ground arith)

inputs_placed_sound :
    (h : Heap) (sort : List ℕ) (attrs : List String) (slots : List (Option ℕ))
    → inputs_placed h sort attrs slots ≡ ok true
    → (i q : ℕ) → i < length attrs
    → slot slots i ≡ some q
    → (s : ℕ) × In s sort × ((h s).myaction ≡ (h q).myaction)
unfolding inputs_placed
inputs_placed_sound h sort [] slots e i q lt at = elim lt [ ]
inputs_placed_sound h sort (a ∷ attrs) [] e i q lt at = cc
inputs_placed_sound h sort (a ∷ attrs) (none ∷ slots) e i q lt at = cc
inputs_placed_sound h sort (a ∷ attrs) (some r ∷ slots) e zero q lt at =
    let same : r ≡ q = cc in rw (← same) (placed_sound h (h r).myaction sort (ground arith))
inputs_placed_sound h sort (a ∷ attrs) (some r ∷ slots) e (suc i) q lt at =
    inputs_placed_sound h sort attrs slots (ground arith) i q (omega arith) at

is_ready_sound :
    (h : Heap) (sort : List ℕ) (p : ℕ) → is_ready h sort p ≡ ok true → HasUpstream h sort p
unfolding is_ready
is_ready_sound h sort p e = elim (Bool-cases (n_read (h p) == 0)) [
  | inl root ↦ λ i q lt at. absurd (ground arith)
  | inr reads ↦ inputs_placed_sound h sort (h p).read_attr (h p).input (rw reads at e)
]

-- What `find_ready` returns is an item of the pool that is ready, and the rest of the pool.
find_ready_sound :
    (h : Heap) (sort pool : List ℕ) (x : ℕ) (rest : List ℕ)
    → find_ready h sort pool ≡ ok (some (x, rest))
    → (is_ready h sort x ≡ ok true) × Perm (x ∷ rest) pool
unfolding find_ready
find_ready_sound h sort [] x rest e = cc
find_ready_sound h sort (p ∷ pool) x rest e =
    let (ready, f, g) = >>=-eq-ok (is_ready h sort p) _ e in
    elim (Bool-cases ready) [
      | inl yes_ready ↦
          let k = ok_injective (rw yes_ready at g) in
          let ex : p ≡ x = cc in
          let er : pool ≡ rest = cc in (rw (← ex) (f ∙ ap ok yes_ready), rw (← ex, ← er) Perm.rfl)
      | inr not_ready ↦
          let (found, f', g') = >>=-eq-ok (find_ready h sort pool) _ (rw not_ready at g) in
          elim (Option-cases found) [
            | inl nothing ↦ absurd (cc (rw nothing at g'))
            | inr ((y, more), it) ↦
                let k = ok_injective (rw it at g') in
                let ey : y ≡ x = cc in
                let er : p ∷ more ≡ rest = cc in
                let (r, w) = find_ready_sound h sort pool y more (f' ∙ ap ok it) in
                (rw (← ey) r, rw (← ey, ← er) (Perm.trans (Perm.swap p y more) (Perm.cons p w)))
          ]
    ]

-- What each round keeps: the items, and the order of those placed.
module _ (h : Heap) (actions : List ℕ) where
  topo_loop_sound :
      (fuel : ℕ) (sort pool s left : List ℕ)
      → Perm (sort ++ pool) actions
      → IsSortedFrom h [] sort
      → topo_loop fuel h sort pool ≡ ok (s, left)
      → Perm (s ++ left) actions × IsSortedFrom h [] s
  unfolding topo_loop
  topo_loop_sound fuel sort [] s left w o e =
      let es : sort ≡ s = cc in let el : [] ≡ left = cc in (rw (← es, ← el) w, rw (← es) o)
  topo_loop_sound zero sort (p ∷ pool) s left w o e = cc
  topo_loop_sound (suc fuel) sort (p ∷ pool) s left w o e =
      let (found, f, g) = >>=-eq-ok (find_ready h sort (p ∷ pool)) _ e in
      elim (Option-cases found) [
        | inl nothing ↦
            let k = ok_injective (rw nothing at g) in
            let es : sort ≡ s = cc in
            let el : p ∷ pool ≡ left = cc in (rw (← es, ← el) w, rw (← es) o)
        | inr ((x, rest), it) ↦
            let (r, v) = find_ready_sound h sort (p ∷ pool) x rest (f ∙ ap ok it) in
            topo_loop_sound fuel (sort ++ x ∷ []) rest s left
              (rw append_assoc (Perm.trans (Perm.append_left sort v) w))
              (IsSortedFrom-snoc h [] sort x o (is_ready_sound h sort x r)) (rw it at g)
      ]

-- The sort holds the items of `actions`, each as often, and each stands behind items with the
-- actions of its inputs.
pub topological_sort-IsSortedFrom :
    (h : Heap) (actions s : List ℕ)
    → topological_sort h actions [] ≡ ok s
    → Perm s actions × IsSortedFrom h [] s
unfolding topological_sort
topological_sort-IsSortedFrom h actions s e =
    let ((t, left), f, g) = >>=-eq-ok (topo_loop (length actions) h [] actions) resolved e in
    finish t left f g
  where
    finish :
        (t left : List ℕ)
        → topo_loop (length actions) h [] actions ≡ ok (t, left)
        → resolved (t, left) ≡ ok s
        → Perm s actions × IsSortedFrom h [] s
    finish t [] f g =
        let (w, o) = topo_loop_sound h actions (length actions) [] actions t [] Perm.rfl tt f in
        let es : t ≡ s = ok_injective g in (rw (← es) (rw append-nil at w), rw (← es) o)
    finish t (p ∷ left) f g = cc
