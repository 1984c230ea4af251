-- ===== src/Prelude/Lists.antt =====
-- Lists measured and indexed by native numbers, under the library's names, with the lemmas on reads
-- and writes that the vectors of the C++ code need.
use Prim.Native.Nat.{ℕ, zero, suc, ◌+◌, ◌<◌}
use mathlib.Core.Path.{◌≡◌, refl, ap}
use mathlib.Core.Logic.{◌≢◌, ◌⊎◌, inl, inr}
use mathlib.Core.List.{List, [], ◌∷◌, ◌++◌}
use mathlib.Core.Option.{Option, none, some}
use native.Mathlib.Omega.{arith}

module _ {ℓ} {A : Type ℓ} where
  abbrev pub length : List A → ℕ
  length [] = 0
  length (x ∷ xs) = suc (length xs)

  abbrev pub get_elem? : List A → ℕ → Option A
  get_elem? [] i = none
  get_elem? (x ∷ xs) zero = some x
  get_elem? (x ∷ xs) (suc i) = get_elem? xs i

  -- A write out of bounds changes nothing.
  abbrev pub set : List A → ℕ → A → List A
  set [] i v = []
  set (x ∷ xs) zero v = v ∷ xs
  set (x ∷ xs) (suc i) v = x ∷ set xs i v

  -- `v.erase(v.begin() + i)`
  abbrev pub erase_at : List A → ℕ → List A
  erase_at [] i = []
  erase_at (x ∷ xs) zero = xs
  erase_at (x ∷ xs) (suc i) = x ∷ erase_at xs i

  pub length-append : (xs ys : List A) → length (xs ++ ys) ≡ length xs + length ys
  length-append [] ys = omega arith
  length-append (x ∷ xs) ys = omega (arith, length-append xs ys)

  pub length-set : (xs : List A) (i : ℕ) (v : A) → length (set xs i v) ≡ length xs
  length-set [] i v = refl
  length-set (x ∷ xs) zero v = refl
  length-set (x ∷ xs) (suc i) v = ap suc (length-set xs i v)

  pub length-erase_at :
      (xs : List A) (i : ℕ) → i < length xs → suc (length (erase_at xs i)) ≡ length xs
  length-erase_at [] i h = elim h [ ]
  length-erase_at (x ∷ xs) zero h = refl
  length-erase_at (x ∷ xs) (suc i) h = ap suc (length-erase_at xs i (omega arith))

  abbrev pub drop : ℕ → List A → List A
  drop zero xs = xs
  drop (suc n) [] = []
  drop (suc n) (x ∷ xs) = drop n xs

  pub drop-erase_at : (xs : List A) (k : ℕ) → drop k (erase_at xs k) ≡ drop (suc k) xs
  drop-erase_at [] zero = refl
  drop-erase_at [] (suc k) = refl
  drop-erase_at (x ∷ xs) zero = refl
  drop-erase_at (x ∷ xs) (suc k) = drop-erase_at xs k

  pub drop-length : (xs : List A) (k : ℕ) → k ≡ length xs → drop k xs ≡ []
  drop-length [] zero e = refl
  drop-length [] (suc k) e = refl
  drop-length (x ∷ xs) zero e = absurd (omega arith)
  drop-length (x ∷ xs) (suc k) e = drop-length xs k (omega arith)

  pub get_elem?_total : (xs : List A) (i : ℕ) → i < length xs → (v : A) × (get_elem? xs i ≡ some v)
  get_elem?_total [] i lt = absurd (omega arith)
  get_elem?_total (x ∷ xs) zero lt = (x, refl)
  get_elem?_total (x ∷ xs) (suc i) lt = get_elem?_total xs i (omega arith)

  pub lt_of_get_elem? : (xs : List A) (i : ℕ) {v : A} → get_elem? xs i ≡ some v → i < length xs
  lt_of_get_elem? [] i h = ground arith
  lt_of_get_elem? (x ∷ xs) zero h = omega arith
  lt_of_get_elem? (x ∷ xs) (suc i) h = omega (arith, lt_of_get_elem? xs i h)

-- Membership with its position forgotten and its proof kept.
abbrev pub In : {A : Type 0} → A → List A → Type 0
In x [] = ⊥
In x (y ∷ ys) = (x ≡ y) ⊎ In x ys

abbrev pub All {ℓ κ} : {A : Type ℓ} → (A → Type κ) → List A → Type κ
All P [] = Unit
All P (x ∷ xs) = P x × All P xs

module _ {A : Type 0} where
  pub In-append_left : (x : A) (xs ys : List A) → In x xs → In x (xs ++ ys)
  In-append_left x [] ys h = absurd h
  In-append_left x (z ∷ xs) ys (inl e) = inl e
  In-append_left x (z ∷ xs) ys (inr h) = inr (In-append_left x xs ys h)

  pub In-append_right : (x : A) (xs ys : List A) → In x ys → In x (xs ++ ys)
  In-append_right x [] ys h = h
  In-append_right x (z ∷ xs) ys h = inr (In-append_right x xs ys h)

  -- The element at a position, or one of those after it.
  pub In-drop :
      (xs : List A) (k : ℕ) (v x : A)
      → get_elem? xs k ≡ some v
      → In x (drop k xs)
      → (x ≡ v) ⊎ In x (drop (suc k) xs)
  In-drop [] k v x at m = cc
  In-drop (y ∷ xs) zero v x at (inl e) = inl (cc)
  In-drop (y ∷ xs) zero v x at (inr m) = inr m
  In-drop (y ∷ xs) (suc k) v x at m = In-drop xs k v x at m

  pub In-append : (x : A) (xs ys : List A) → In x (xs ++ ys) → In x xs ⊎ In x ys
  In-append x [] ys h = inr h
  In-append x (z ∷ xs) ys (inl e) = inl (inl e)
  In-append x (z ∷ xs) ys (inr h) = elim (In-append x xs ys h) [
    | inl a ↦ inl (inr a)
    | inr b ↦ inr b
  ]

  pub In-get_elem? : (xs : List A) (i : ℕ) (v : A) → get_elem? xs i ≡ some v → In v xs
  In-get_elem? [] i v h = cc
  In-get_elem? (x ∷ xs) zero v h = inl (cc)
  In-get_elem? (x ∷ xs) (suc i) v h = inr (In-get_elem? xs i v h)

  -- An element of the list is the erased one, or is still there.
  pub In-erase_at :
      (xs : List A) (i : ℕ) (v x : A)
      → get_elem? xs i ≡ some v
      → In x xs
      → (x ≡ v) ⊎ In x (erase_at xs i)
  In-erase_at [] i v x h m = absurd m
  In-erase_at (y ∷ xs) zero v x h (inl e) = inl (cc)
  In-erase_at (y ∷ xs) zero v x h (inr m) = inr m
  In-erase_at (y ∷ xs) (suc i) v x h (inl e) = inr (inl e)
  In-erase_at (y ∷ xs) (suc i) v x h (inr m) = elim (In-erase_at xs i v x h m) [
    | inl e ↦ inl e
    | inr k ↦ inr (inr k)
  ]

-- A pointer slot of a vector: null out of range.
abbrev pub slot : List (Option ℕ) → ℕ → Option ℕ
slot [] i = none
slot (x ∷ xs) zero = x
slot (x ∷ xs) (suc i) = slot xs i

pub slot-set_self :
    (xs : List (Option ℕ)) (i : ℕ) (v : Option ℕ) → i < length xs → slot (set xs i v) i ≡ v
slot-set_self [] i v h = elim h [ ]
slot-set_self (x ∷ xs) zero v h = refl
slot-set_self (x ∷ xs) (suc i) v h = slot-set_self xs i v (omega arith)

pub slot-set_ne :
    (xs : List (Option ℕ)) (i j : ℕ) (v : Option ℕ) → i ≢ j → slot (set xs i v) j ≡ slot xs j
slot-set_ne [] i j v h = refl
slot-set_ne (x ∷ xs) zero zero v h = absurd (h refl)
slot-set_ne (x ∷ xs) zero (suc j) v h = refl
slot-set_ne (x ∷ xs) (suc i) zero v h = refl
slot-set_ne (x ∷ xs) (suc i) (suc j) v h = slot-set_ne xs i j v (λ e. h (ap suc e))
