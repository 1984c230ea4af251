-- ===== src/Prelude/Runs.antt =====
-- How a function of the C++ code ends where it may not return, and the reads of a vector with a result
-- for an index out of range. No source file is modelled here.
use Prim.Native.Nat.{ℕ, zero, suc, ◌<◌}
use mathlib.Core.Path.{◌≡◌, refl}
use mathlib.Core.Logic.{◌⊎◌, inl, inr}
use mathlib.Core.List.{List, [], ◌∷◌}
use mathlib.Core.Option.{some}
use native.Mathlib.Omega.{arith}
use impact.Prelude.Lists.{length, get_elem?, set}

-- An access that is undefined behaviour, an `assert` that fails, or an exception of the standard
-- library. `unfinished` is the model's own, for a loop that may not end.
pub data Stop : Type 0 where
  undefined assert_failed length_error unfinished : Stop

pub data Run {ℓ} (Value : Type ℓ) : Type ℓ where
  stopped : Stop → Run Value
  done : Value → Run Value

infixl 5 ◌>>=◌
abbrev pub ◌>>=◌ {ℓ κ} :
    {Value : Type ℓ} {Next : Type κ} → Run Value → (Value → Run Next) → Run Next
stopped why >>= rest = stopped why
done value >>= rest = rest value

-- `v[i]`
abbrev pub at {ℓ} : {A : Type ℓ} → List A → ℕ → Run A
at [] i = stopped undefined
at (x ∷ xs) zero = done x
at (x ∷ xs) (suc i) = at xs i

-- `v[id - 1]`
abbrev pub at_id {ℓ} : {A : Type ℓ} → List A → ℕ → Run A
at_id xs zero = stopped undefined
at_id xs (suc i) = at xs i

-- `v[i] = x`
abbrev pub write_at {ℓ} : {A : Type ℓ} → List A → ℕ → A → Run (List A)
write_at [] i x = stopped undefined
write_at (y ∷ xs) zero x = done (x ∷ xs)
write_at (y ∷ xs) (suc i) x = write_at xs i x >>= λ rest. done (y ∷ rest)

-- `v[id - 1] = x`
abbrev pub write_at_id {ℓ} : {A : Type ℓ} → List A → ℕ → A → Run (List A)
write_at_id xs zero x = stopped undefined
write_at_id xs (suc i) x = write_at xs i x

pub >>=_ext {ℓ κ} :
    {Value : Type ℓ} {Next : Type κ} (m : Run Value) (f g : Value → Run Next)
    → ((value : Value) → f value ≡ g value)
    → (m >>= f) ≡ (m >>= g)
>>=_ext (stopped why) f g same = refl
>>=_ext (done value) f g same = same value

pub >>=_assoc {ℓ κ μ} :
    {Value : Type ℓ} {Next : Type κ} {Last : Type μ} (m : Run Value) (f : Value → Run Next)
    (g : Next → Run Last)
    → ((m >>= f) >>= g) ≡ (m >>= λ value. f value >>= g)
>>=_assoc (stopped why) f g = refl
>>=_assoc (done value) f g = refl

module _ {ℓ} {A : Type ℓ} where
  pub at-get_elem? : (xs : List A) (i : ℕ) (v : A) → get_elem? xs i ≡ some v → at xs i ≡ done v
  at-get_elem? [] i v e = cc
  at-get_elem? (x ∷ xs) zero v e = cc
  at-get_elem? (x ∷ xs) (suc i) v e = at-get_elem? xs i v e

  pub write_at-set :
      (xs : List A) (i : ℕ) (x : A) → i < length xs → write_at xs i x ≡ done (set xs i x)
  write_at-set [] i x lt = absurd (omega arith)
  write_at-set (y ∷ xs) zero x lt = refl
  write_at-set (y ∷ xs) (suc i) x lt = rw (write_at-set xs i x (omega arith)) refl

  -- A read gives an entry or is out of range.
  pub at_cases :
      (xs : List A) (i : ℕ) → (at xs i ≡ stopped undefined) ⊎ ((x : A) × (at xs i ≡ done x))
  at_cases [] i = inl refl
  at_cases (x ∷ xs) zero = inr (x, refl)
  at_cases (x ∷ xs) (suc i) = at_cases xs i
