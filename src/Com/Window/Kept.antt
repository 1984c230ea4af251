-- ===== src/Com/Window/Kept.antt =====
-- The items of a window that the deletion of another item leaves, in the map and in the vector.
use impact.Prelude.{
  get_elem?, Option, ◌⊎◌, ◌+◌, ◌<◌, ℕ, ◌≤◌, ◌≢◌, inl, inr, String, str_eq, some, some_injective,
  ◌≡◌, sym, [], ◌∷◌, All, Bool-cases, subst, arith,
}
use impact.Com.Window.{WindowItem, AttrMap, com_num_keywords, erase_name, find_name}
use impact.Com.ItemSet.{AttrSet, Entry, width}
use impact.Com.Window.Names.{All-at}
use impact.Com.Window.Registered.{IsPlaced, IsApart, IsApart-comm, IsSeparate, IsStored}

all-IsApart :
    (x : String) (b : WindowItem) {a : WindowItem}
    → a ≡ b
    → (m : AttrMap) → All (λ y. (y.0 ≢ x) × IsApart y.1 b) m
    → All (λ y. IsApart y.1 a) m
all-IsApart x b e [] t = tt
all-IsApart x b e ((n, c) ∷ m) ((q, r), t) =
    (subst (λ d. IsApart c d) (sym e) r, all-IsApart x b e m t)

-- The items other than the deleted one are apart from it.
pub IsApart-erase_name :
    (k : String) (a : WindowItem) (m : AttrMap)
    → find_name k m ≡ some a
    → IsSeparate m
    → All (λ y. IsApart y.1 a) (erase_name k m)
unfolding find_name erase_name
IsApart-erase_name k a [] h s = tt
IsApart-erase_name k a ((x, b) ∷ m) h (t, s) = elim (Bool-cases (str_eq x k)) [
  | inl same ↦ rw same (all-IsApart x b (sym (some_injective (rw same at h))) m t)
  | inr other ↦
      let h' : find_name k m ≡ some a = rw other at h in
      let r : IsApart a b = (All-at (λ y. (y.0 ≢ x) × IsApart y.1 b) k a m h' t).1 in
      rw other (IsApart-comm a b r, IsApart-erase_name k a m h' s)
]

-- An entry that the deletion of an item leaves, for an item that is apart from it.
kept_item :
    (last : ℕ) (a b : WindowItem) (s s' : AttrSet)
    → ((i : ℕ) (x : Option Entry)
        → (i < a.id) ⊎ (a.id + width a.ncomp ≤ i)
        → get_elem? s i ≡ some x
        → get_elem? s' i ≡ some x)
    → IsPlaced last b
    → IsApart b a
    → IsStored s b
    → IsStored s' b
kept_item last a b s s' keeps (inl (i, e)) q t = inl i
kept_item last a b s s' keeps (inr (i, z, e)) q (inl k) = inl k
kept_item last a b s s' keeps (inr (i, z, e)) (inl q) (inr (entry, at, n)) =
    let wide : 0 < width b.ncomp = ground arith in
    inr (entry, keeps b.id (some entry) (inl (omega arith)) at, n)
kept_item last a b s s' keeps (inr (i, z, e)) (inr q) (inr (entry, at, n)) =
    inr (entry, keeps b.id (some entry) (inr q) at, n)

pub kept_items :
    (last : ℕ) (a : WindowItem) (s s' : AttrSet)
    → ((i : ℕ) (x : Option Entry)
        → (i < a.id) ⊎ (a.id + width a.ncomp ≤ i)
        → get_elem? s i ≡ some x
        → get_elem? s' i ≡ some x)
    → (m : AttrMap) → All (λ y. IsPlaced last y.1) m
    → All (λ y. IsApart y.1 a) m
    → All (λ y. IsStored s y.1) m
    → All (λ y. IsStored s' y.1) m
kept_items last a s s' keeps [] p q t = tt
kept_items last a s s' keeps ((n, b) ∷ m) (p, ps) (q, qs) (t, ts) =
    (kept_item last a b s s' keeps p q t, kept_items last a s s' keeps m ps qs ts)

-- What the vector has for an item that is not a keyword.
pub stored_user :
    (s : AttrSet) (a : WindowItem)
    → com_num_keywords ≤ a.id
    → IsStored s a
    → (b : Entry) × (get_elem? s a.id ≡ some (some b)) × (b.ncomp ≡ a.ncomp)
stored_user s a u (inl k) = absurd (omega arith)
stored_user s a u (inr t) = t

pub placed_user :
    (last : ℕ) (a : WindowItem) → com_num_keywords ≤ a.id → IsPlaced last a → 0 < a.ncomp
placed_user last a u (inl (k, e)) = absurd (omega arith)
placed_user last a u (inr (k, z, e)) = z
