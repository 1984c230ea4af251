-- ===== src/Com/DataItem/Copy/Whole.antt =====
-- That the elements which `copy_array` writes are apart from each other and from those that it reads.
use native.Mathlib.Nat.{suc-mul, mul-le-mul_right, add-mul, mul_assoc}
use impact.Prelude.{
  ℕ, suc, ◌+◌, ◌*◌, ◌≤◌, ◌<◌, ◌≡◌, ◌≢◌, refl, ◌⊎◌, inl, inr, arith, ap, ◌==◌, if◌then◌else◌,
  Bool-cases,
}
use impact.Com.DataItem.Address.{slot}
use impact.Com.DataItem.Copy.{Direction, copy_in, copy_out}
use impact.Com.DataItem.Copy.Blocks.{IsOff, dst, src}
use impact.Com.DataItem.Copy.Slots.{
  IsStride, max, slot_below, slot_apart, element-IsOff, element_elsewhere,
}

-- The address of an element as the loops reach it.
pub address_lem :
    (p strd rows size i j : ℕ)
    → p + i * (strd * size) + j * ((if strd == 1 then rows else 1) * size)
      ≡ p + slot strd rows i j * size
address_lem p strd rows size i j = elim (Bool-cases (strd == 1)) [
  | inl one ↦ rw one (
      let a = mul_assoc i strd size in
      let b = mul_assoc j rows size in let c = add-mul (j * rows) (i * strd) size in omega arith)
  | inr many ↦ rw many (
      let a = mul_assoc i strd size in
      let c = add-mul j (i * strd) size in
      let o : j * (1 * size) ≡ j * size = ap (λ x. j * x) (omega arith) in omega arith)
]

pub same_slots :
    (strd ncomp n cap i j : ℕ)
    → (strd ≡ ncomp) ⊎ ((n ≡ cap) × (strd ≡ 1))
    → i < n
    → j < ncomp
    → (slot strd cap i j ≡ slot strd n i j) × slot strd n i j < n * ncomp
same_slots strd ncomp n cap i j (inl e) h l = elim (Bool-cases (strd == 1)) [
  | inl one ↦
      let s : strd ≡ 1 = ground arith in
      let z : j ≡ 0 = omega arith in
      let k = slot_below strd ncomp n i j (inl s) h l in
      let m : max strd ncomp ≡ ncomp = ground arith in (rw (one, z) (omega arith), rw m at k)
  | inr many ↦
      let s : strd ≢ 1 = ground arith in
      let k = slot_below strd ncomp n i j (inr (s, omega arith)) h l in
      let m : max strd ncomp ≡ ncomp = ground arith in (rw many refl, rw m at k)
]
same_slots strd ncomp n cap i j (inr (e, one)) h l =
    let k = slot_below strd ncomp n i j (inl one) h l in
    let m : max strd ncomp ≡ ncomp = ground arith in (rw e refl, rw m at k)

-- The start of an element on the side that is written, and on the side that is read.
abbrev pub element_to : Direction → (p q sa sb cap n size i j : ℕ) → ℕ
element_to d p q sa sb cap n size i j =
    dst d (p + slot sa cap i j * size) (q + slot sb n i j * size)

abbrev pub element_from : Direction → (p q sa sb cap n size i j : ℕ) → ℕ
element_from d p q sa sb cap n size i j =
    src d (p + slot sa cap i j * size) (q + slot sb n i j * size)

pub IsOff-within :
    (a start size size' : ℕ) → size' ≤ size → IsOff a start size → IsOff a start size'
IsOff-within a start size size' h (inl l) = inl l
IsOff-within a start size size' h (inr l) = inr (omega arith)

pub others-IsOff :
    (direction : Direction) (p q sa sb cap n ncomp size : ℕ)
    → IsStride sa ncomp
    → IsStride sb ncomp
    → n ≤ cap
    → (i j i' j' x : ℕ) → i < n
    → j < ncomp
    → i' < n
    → j' < ncomp
    → x < size
    → (i' ≢ i) ⊎ (j' ≢ j)
    → IsOff
        (element_to direction p q sa sb cap n size i j + x)
        (element_to direction p q sa sb cap n size i' j')
        size
others-IsOff copy_in p q sa sb cap n ncomp size a b f i j i' j' x h l h' l' k ne =
    element-IsOff p (slot sa cap i j) (slot sa cap i' j') size x
      (slot_apart sa ncomp cap i j i' j' a (omega arith) l (omega arith) l' ne) k
others-IsOff copy_out p q sa sb cap n ncomp size a b f i j i' j' x h l h' l' k ne =
    element-IsOff q (slot sb n i j) (slot sb n i' j') size x
      (slot_apart sb ncomp n i j i' j' b h l h' l' ne) k

pub reads-IsOff :
    (direction : Direction) (p q sa sb cap n ncomp size : ℕ)
    → IsStride sa ncomp
    → IsStride sb ncomp
    → n ≤ cap
    → (p + cap * max sa ncomp * size ≤ q) ⊎ (q + n * max sb ncomp * size ≤ p)
    → (i j i' j' x : ℕ) → i < n
    → j < ncomp
    → i' < n
    → j' < ncomp
    → x < size
    → IsOff
        (element_from direction p q sa sb cap n size i j + x)
        (element_to direction p q sa sb cap n size i' j')
        size
reads-IsOff copy_in p q sa sb cap n ncomp size a b f away i j i' j' x h l h' l' k =
    element_elsewhere q p (slot sb n i j) (slot sa cap i' j') size x (n * max sb ncomp)
      (cap * max sa ncomp) (slot_below sb ncomp n i j b h l)
      (slot_below sa ncomp cap i' j' a (omega arith) l') k
      (elim away [ inl u ↦ inr u | inr u ↦ inl u ])
reads-IsOff copy_out p q sa sb cap n ncomp size a b f away i j i' j' x h l h' l' k =
    element_elsewhere p q (slot sa cap i j) (slot sb n i' j') size x (cap * max sa ncomp)
      (n * max sb ncomp) (slot_below sa ncomp cap i j a (omega arith) l)
      (slot_below sb ncomp n i' j' b h' l') k away

-- The same for a byte of one row and the start of another.
pub rows_elsewhere :
    (p q s s' rows rows' i i' y w : ℕ)
    → i < rows'
    → i' < rows
    → y < s'
    → w ≤ s
    → (p + rows * s ≤ q) ⊎ (q + rows' * s' ≤ p)
    → IsOff (q + i * s' + y) (p + i' * s) w
rows_elsewhere p q s s' rows rows' i i' y w h h' l l' away =
    let a = mul-le-mul_right {m = suc i} {n = rows'} s' h in
    let b = mul-le-mul_right {m = suc i'} {n = rows} s h' in
    let c = suc-mul i s' in
    let d = suc-mul i' s in
    elim away [ inl before ↦ inr (omega arith) | inr after ↦ inl (omega arith) ]
