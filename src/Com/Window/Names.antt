-- ===== src/Com/Window/Names.antt =====
-- Maps from names: what they hold after an assignment and after an erasure.
use impact.Prelude.{
  ◌≡◌, ◌≢◌, refl, ap, subst, String, str_eq, str_eq_iff, none, some, some_injective, List, [], ◌∷◌,
  ◌++◌, All, Bool-cases, inl, inr, true, arith, if◌then◌else◌,
}
use impact.Com.Window.{find_name, assign, erase_name}

module _ {A : Type 0} where
  pub find_name-assign :
      (k n : String) (a : A) (m : List (String × A))
      → find_name n (assign k a m) ≡ (if str_eq k n then some a else find_name n m)
  unfolding find_name assign
  find_name-assign k n a [] = refl
  find_name-assign k n a ((x, b) ∷ m) =
      ground (arith, str_eq_iff k n, str_eq_iff x k, str_eq_iff x n, find_name-assign k n a m)

  pub assign_new :
      (k : String) (a : A) (m : List (String × A))
      → find_name k m ≡ none
      → assign k a m ≡ m ++ (k, a) ∷ []
  unfolding find_name assign
  assign_new k a [] h = refl
  assign_new k a ((x, b) ∷ m) h = elim (Bool-cases (str_eq x k)) [
    | inl same ↦ cc (rw same at h)
    | inr other ↦ rw other (ap (λ r. (x, b) ∷ r) (assign_new k a m (rw other at h)))
  ]

  pub absent : (k : String) (m : List (String × A)) → find_name k m ≡ none → All (λ e. e.0 ≢ k) m
  unfolding find_name
  absent k [] h = tt
  absent k ((x, b) ∷ m) h = elim (Bool-cases (str_eq x k)) [
    | inl same ↦ cc (rw same at h)
    | inr other ↦ (
      λ e. let same : str_eq x k ≡ true = (str_eq_iff x k).1 e in cc (same, other),
      absent k m (rw other at h),
    )
  ]

  pub absent_find :
      (k : String) (m : List (String × A)) → All (λ e. e.0 ≢ k) m → find_name k m ≡ none
  unfolding find_name
  absent_find k [] a = refl
  absent_find k ((x, b) ∷ m) (h, a) = elim (Bool-cases (str_eq x k)) [
    | inl same ↦ absurd (h ((str_eq_iff x k).0 same))
    | inr other ↦ rw other (absent_find k m a)
  ]

  module _ {κ} (P : String × A → Type κ) where
    pub All-erase_name : (k : String) (m : List (String × A)) → All P m → All P (erase_name k m)
    unfolding erase_name
    All-erase_name k [] a = tt
    All-erase_name k ((x, b) ∷ m) (p, ps) = elim (Bool-cases (str_eq x k)) [
      | inl same ↦ rw same ps
      | inr other ↦ rw other (p, All-erase_name k m ps)
    ]

    pub All-at :
        (k : String) (a : A) (m : List (String × A)) → find_name k m ≡ some a → All P m → P (k, a)
    unfolding find_name
    All-at k a [] h p = cc h
    All-at k a ((x, b) ∷ m) h (p, ps) = elim (Bool-cases (str_eq x k)) [
      | inl same ↦
          let e : b ≡ a = some_injective (rw same at h) in
          let n : x ≡ k = (str_eq_iff x k).0 same in
          subst (λ c. P (k, c)) e (subst (λ y. P (y, b)) n p)
      | inr other ↦ All-at k a m (rw other at h) ps
    ]

    pub All-snoc : (m : List (String × A)) (e : String × A) → All P m → P e → All P (m ++ e ∷ [])
    All-snoc [] e a p = (p, tt)
    All-snoc (x ∷ m) e (q, a) p = (q, All-snoc m e a p)
