-- ===== src/SurfMap/Dual/Pairs.antt =====
-- The loops of `Pane_dual_connectivity` over the elements as loops over pairs of a node and its element.
use impact.Prelude.{
  Bool, false, ◌||◌, ltb, ℕ, suc, ◌<◌, ◌≤◌, ◌≡◌, refl, ap, ◌∙◌, List, [], ◌∷◌, ◌++◌, All, arith,
  ◌==◌, if◌then◌else◌,
}
use impact.Prelude.Runs.{Run, done, ◌>>=◌, >>=_ext, >>=_assoc}
use impact.Com.UnstructuredNodes.{Element}
use impact.Com.UnstructuredNodes.Rows.{each_row}
use impact.SurfMap.Dual.{each_in, each_node}

-- The element `e`, once for each time that the node `v` is among its nodes.
abbrev pub occurrences : ℕ → ℕ → List ℕ → List ℕ
occurrences e v [] = []
occurrences e v (w ∷ row) = let more = occurrences e v row in if v == w then e ∷ more else more

-- The elements of the node `v`, where the rows are those of the elements from `e` on.
abbrev pub incident_from : ℕ → ℕ → List Element → List ℕ
incident_from e v [] = []
incident_from e v ((t, row) ∷ rows) = occurrences e v row ++ incident_from (suc e) v rows

-- Whether a node with a number above `v` is among the nodes of the elements.
abbrev pub above_in : ℕ → List ℕ → Bool
above_in v [] = false
above_in v (w ∷ row) = ltb v w || above_in v row

abbrev pub has_above : ℕ → List Element → Bool
has_above v [] = false
has_above v ((t, row) ∷ rows) = above_in v row || has_above v rows

-- The rows as pairs of a node and its element.
abbrev pub pairs_row : ℕ → List ℕ → List (ℕ × ℕ) → List (ℕ × ℕ)
pairs_row e [] rest = rest
pairs_row e (v ∷ row) rest = (v, e) ∷ pairs_row e row rest

abbrev pub pairs : ℕ → List Element → List (ℕ × ℕ)
pairs e [] = []
pairs e ((t, row) ∷ rows) = pairs_row e row (pairs (suc e) rows)

abbrev pub elems : ℕ → List (ℕ × ℕ) → List ℕ
elems v [] = []
elems v ((w, e) ∷ ps) = let more = elems v ps in if v == w then e ∷ more else more

pub elems-pairs_row :
    (v e : ℕ) (row : List ℕ) (rest : List (ℕ × ℕ))
    → elems v (pairs_row e row rest) ≡ occurrences e v row ++ elems v rest
elems-pairs_row v e [] rest = refl
elems-pairs_row v e (w ∷ row) rest = ground (arith, elems-pairs_row v e row rest)

pub elems-pairs : (v e : ℕ) (rows : List Element) → elems v (pairs e rows) ≡ incident_from e v rows
elems-pairs v e [] = refl
elems-pairs v e ((t, row) ∷ rows) =
    elems-pairs_row v e row (pairs (suc e) rows)
    ∙ ap (λ es. occurrences e v row ++ es) (elems-pairs v (suc e) rows)

module _ {S : Type 0} (body : ℕ → ℕ → S → Run S) where
  abbrev pub each_pair : List (ℕ × ℕ) → S → Run S
  each_pair [] s = done s
  each_pair ((v, e) ∷ ps) s = body e v s >>= λ s'. each_pair ps s'

  pub each_pair-pairs_row :
      (e : ℕ) (row : List ℕ) (rest : List (ℕ × ℕ)) (s : S)
      → (each_in body e row s >>= λ s'. each_pair rest s') ≡ each_pair (pairs_row e row rest) s
  each_pair-pairs_row e [] rest s = refl
  each_pair-pairs_row e (v ∷ row) rest s =
      >>=_assoc (body e v s) _ _
      ∙ >>=_ext (body e v s) _ _ (λ s'. each_pair-pairs_row e row rest s')

  pub each_pair-pairs :
      (e : ℕ) (rows : List Element) (s : S)
      → each_row (each_node body) e rows s ≡ each_pair (pairs e rows) s
  each_pair-pairs e [] s = refl
  each_pair-pairs e ((t, row) ∷ rows) s =
      >>=_ext (each_in body e row s) _ _ (λ s'. each_pair-pairs (suc e) rows s')
      ∙ each_pair-pairs_row e row (pairs (suc e) rows) s

-- Every node of a pair has a number from 1 to `n`.
abbrev pub Within : ℕ → List (ℕ × ℕ) → Type 0
Within n ps = All (λ p. (0 < p.0) × (p.0 ≤ n)) ps

abbrev pub AllNodes : ℕ → List Element → Type 0
AllNodes n rows = All (λ element. All (λ v. (0 < v) × (v ≤ n)) element.1) rows

pub Within-pairs_row :
    (n e : ℕ) (row : List ℕ) (rest : List (ℕ × ℕ))
    → All (λ v. (0 < v) × (v ≤ n)) row
    → Within n rest
    → Within n (pairs_row e row rest)
Within-pairs_row n e [] rest a b = b
Within-pairs_row n e (v ∷ row) rest (h, a) b = (h, Within-pairs_row n e row rest a b)

pub Within-pairs : (n e : ℕ) (rows : List Element) → AllNodes n rows → Within n (pairs e rows)
Within-pairs n e [] a = tt
Within-pairs n e ((t, row) ∷ rows) (a, b) =
    Within-pairs_row n e row (pairs (suc e) rows) a (Within-pairs n (suc e) rows b)
