-- ===== src/Com/DataItem/Copy/Slots.antt =====
-- Where the elements of an array are: different ones have different places, all within the array.
use native.Mathlib.Nat.{mul-le-mul_right, suc-mul, mul_comm}
use impact.Prelude.{
  ℕ, suc, ◌+◌, ◌*◌, ◌≤◌, ◌<◌, ◌≡◌, ◌≢◌, ◌⊎◌, inl, inr, arith, ap, sym, ltb, ◌==◌, if◌then◌else◌,
  false,
}
use impact.Com.DataItem.Address.{slot}
use impact.Com.DataItem.Copy.Blocks.{IsOff}

pub row_below : (i n w x : ℕ) → i < n → x < w → i * w + x < n * w
row_below i n w x h l =
    let m = mul-le-mul_right {m = suc i} {n = n} w h in let e = suc-mul i w in omega arith

order : (a b : ℕ) → (a < b) ⊎ ((a ≡ b) ⊎ (b < a))
order a b = ground arith

-- Two numbers with the same digits.
rows_apart : (i i' w x x' : ℕ) → x < w → x' < w → i * w + x ≡ i' * w + x' → (i ≡ i') × (x ≡ x')
rows_apart i i' w x x' l l' e = elim (order i i') [
  | inl less ↦
      let m = mul-le-mul_right {m = suc i} {n = i'} w less in
      let s = suc-mul i w in absurd (omega arith)
  | inr (inl same) ↦ let m : i * w ≡ i' * w = ap (λ y. y * w) same in (same, omega arith)
  | inr (inr more) ↦
      let m = mul-le-mul_right {m = suc i'} {n = i} w more in
      let s = suc-mul i' w in absurd (omega arith)
]

-- The strides that `set_pointer` and `copy_array` accept.
abbrev pub IsStride : (strd ncomp : ℕ) → Type 0
IsStride strd ncomp = (strd ≡ 1) ⊎ ((strd ≢ 1) × ncomp ≤ strd)

abbrev pub max : ℕ → ℕ → ℕ
max a b = if ltb a b then b else a

pub slot_below :
    (strd ncomp rows i j : ℕ)
    → IsStride strd ncomp
    → i < rows
    → j < ncomp
    → slot strd rows i j < rows * max strd ncomp
slot_below strd ncomp rows i j (inl one) h l =
    let m = row_below j ncomp rows i l h in
    let c = mul_comm ncomp rows in
    let e : max 1 ncomp ≡ ncomp = ground arith in rw (one, e) (omega arith)
slot_below strd ncomp rows i j (inr (many, le)) h l =
    let m = row_below i rows strd j h (omega arith) in
    let e : max strd ncomp ≡ strd = ground arith in
    let f : (strd == 1) ≡ false = ground arith in rw (e, f) (omega arith)

pub slot_apart :
    (strd ncomp rows i j i' j' : ℕ)
    → IsStride strd ncomp
    → i < rows
    → j < ncomp
    → i' < rows
    → j' < ncomp
    → (i' ≢ i) ⊎ (j' ≢ j)
    → slot strd rows i j ≢ slot strd rows i' j'
slot_apart strd ncomp rows i j i' j' (inl one) h l h' l' ne e =
    let e1 : slot 1 rows i j ≡ slot 1 rows i' j' = rw one at e in
    let (a, b) = rows_apart j j' rows i i' h h' (omega arith) in
    elim ne [ inl n ↦ n (sym b) | inr n ↦ n (sym a) ]
slot_apart strd ncomp rows i j i' j' (inr (many, le)) h l h' l' ne e =
    let f : (strd == 1) ≡ false = ground arith in
    let e1 : j + i * strd ≡ j' + i' * strd = rw f at e in
    let (a, b) = rows_apart i i' strd j j' (omega arith) (omega arith) (omega arith) in
    elim ne [ inl n ↦ n (sym a) | inr n ↦ n (sym b) ]

-- A byte of an element is not in another element.
pub element-IsOff :
    (p c c' size b : ℕ) → c ≢ c' → b < size → IsOff (p + c * size + b) (p + c' * size) size
element-IsOff p c c' size b ne l = elim (order c c') [
  | inl less ↦
      let m = mul-le-mul_right {m = suc c} {n = c'} size less in
      let s = suc-mul c size in inl (omega arith)
  | inr (inl same) ↦ absurd (ne same)
  | inr (inr more) ↦
      let m = mul-le-mul_right {m = suc c'} {n = c} size more in
      let s = suc-mul c' size in inr (omega arith)
]

-- A byte of an element of one array is not in an element of an array that lies before or after it.
pub element_elsewhere :
    (p q c d size b total total' : ℕ)
    → c < total
    → d < total'
    → b < size
    → (p + total * size ≤ q) ⊎ (q + total' * size ≤ p)
    → IsOff (p + c * size + b) (q + d * size) size
element_elsewhere p q c d size b total total' h h' l away =
    let m = mul-le-mul_right {m = suc c} {n = total} size h in
    let s = suc-mul c size in
    let m' = mul-le-mul_right {m = suc d} {n = total'} size h' in
    let s' = suc-mul d size in
    elim away [ inl before ↦ inl (omega arith) | inr after ↦ inr (omega arith) ]
