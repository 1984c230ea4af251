-- ===== src/Com/Window/Registered.antt =====
-- The items of a window take places that do not overlap: the keywords those below 13, the others those
-- from 13 up to the next id to be given.
use impact.Prelude.{
  get_elem?, ℕ, ◌+◌, ◌≤◌, ◌<◌, ◌≢◌, ◌⊎◌, inl, inr, refl, String, str_eq, some, [], ◌∷◌, ◌++◌, All,
  Bool-cases, arith, if◌then◌else◌, str_eq_iff, none, ◌≡◌, ◌∙◌, ap, sym,
}
use impact.Com.Window.{WindowItem, AttrMap, Window, com_num_keywords, erase_name, find_name}
use impact.Com.Window.Names.{All-erase_name, All-snoc, absent_find}
use impact.Com.ItemSet.{AttrSet, Entry, width}

-- The place after the last one of an item.
abbrev pub ends : WindowItem → ℕ
ends a = a.id + width a.ncomp

abbrev pub IsPlaced : ℕ → WindowItem → Type 0
IsPlaced last a =
    (a.id < com_num_keywords × ends a ≤ com_num_keywords)
    ⊎ (com_num_keywords ≤ a.id × 0 < a.ncomp × ends a ≤ last)

abbrev pub IsApart : WindowItem → WindowItem → Type 0
IsApart a b = (ends a ≤ b.id) ⊎ (ends b ≤ a.id)

abbrev pub IsSeparate : AttrMap → Type 0
IsSeparate [] = Unit
IsSeparate ((n, a) ∷ m) = All (λ e. (e.0 ≢ n) × IsApart e.1 a) m × IsSeparate m

-- An item that is not a keyword is in the vector, with its components.
abbrev pub IsStored : AttrSet → WindowItem → Type 0
IsStored s a =
    (a.id < com_num_keywords)
    ⊎ ((b : Entry) × (get_elem? s a.id ≡ some (some b)) × (b.ncomp ≡ a.ncomp))

pub record IsRegistered (w : Window) : Type 0 where
  pub in_set : All (λ e. IsStored w.attr_set e.1) w.attr_map
  pub placed : All (λ e. IsPlaced w.last_id e.1) w.attr_map
  pub separate : IsSeparate w.attr_map
  pub above : com_num_keywords ≤ w.last_id

pub IsApart-comm : (a b : WindowItem) → IsApart a b → IsApart b a
IsApart-comm a b (inl p) = inr p
IsApart-comm a b (inr p) = inl p

pub IsSeparate-erase_name : (k : String) (m : AttrMap) → IsSeparate m → IsSeparate (erase_name k m)
unfolding erase_name
IsSeparate-erase_name k [] s = tt
IsSeparate-erase_name k ((x, b) ∷ m) (p, s) = elim (Bool-cases (str_eq x k)) [
  | inl same ↦ rw same s
  | inr other ↦
      rw other (All-erase_name (λ e. (e.0 ≢ x) × IsApart e.1 b) k m p, IsSeparate-erase_name k m s)
]

-- An item whose places start where those of the others end can come last.
pub IsSeparate-snoc :
    (k : String) (a : WindowItem) (m : AttrMap)
    → All (λ e. e.0 ≢ k) m
    → All (λ e. ends e.1 ≤ a.id) m
    → IsSeparate m
    → IsSeparate (m ++ (k, a) ∷ [])
IsSeparate-snoc k a [] n e s = (tt, tt)
IsSeparate-snoc k a ((x, b) ∷ m) (n, ns) (e, es) (p, s) = (
  All-snoc (λ y. (y.0 ≢ x) × IsApart y.1 b) m (k, a) p (λ q. n (sym q), inr e),
  IsSeparate-snoc k a m ns es s,
)

names_off :
    (x : String) (b : WindowItem) (n : String)
    → x ≡ n
    → (m : AttrMap) → All (λ e. (e.0 ≢ x) × IsApart e.1 b) m
    → All (λ e. e.0 ≢ n) m
names_off x b n e [] t = tt
names_off x b n e (y ∷ m) ((q, r), t) = (λ h. q (h ∙ sym e), names_off x b n e m t)

pub find_name-erase_name :
    (k n : String) (m : AttrMap)
    → IsSeparate m
    → find_name n (erase_name k m) ≡ (if str_eq k n then none else find_name n m)
unfolding find_name erase_name
find_name-erase_name k n [] s = ground arith
find_name-erase_name k n ((x, b) ∷ m) (p, s) = elim (Bool-cases (str_eq x k)) [
  | inl same ↦
      let e : x ≡ k = (str_eq_iff x k).0 same in
      rw same (elim (Bool-cases (str_eq k n)) [
        | inl at_k ↦ rw at_k (absent_find n m (names_off x b n (e ∙ (str_eq_iff k n).0 at_k) m p))
        | inr off ↦ rw off (rw (ap (λ y. str_eq y n) e ∙ off) refl)
      ])
  | inr other ↦
      ground (arith, str_eq_iff k n, str_eq_iff x k, str_eq_iff x n, find_name-erase_name k n m s)
]
