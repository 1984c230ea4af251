-- ===== src/Com/DataItem/Copy/Blocks.antt =====
-- The bytes that the loops of `copy_array` write, and those that they leave.
use impact.Prelude.{
  ℕ, zero, suc, ◌+◌, ◌-◌, ◌*◌, ◌≤◌, ◌<◌, ◌≡◌, ◌≢◌, refl, ◌∙◌, ◌⊎◌, inl, inr, arith,
}
use native.Mathlib.Nat.{suc-mul}
use impact.Com.DataItem.Copy.{
  stepping, Memory, Direction, copy_in, copy_out, memcpy, copy_bytes, copy_each, copy_items,
}

-- The address is not in the block.
abbrev pub IsOff : (a start size : ℕ) → Type 0
IsOff a start size = (a < start) ⊎ (start + size ≤ a)

-- What is written and what is read.
abbrev pub dst : Direction → ℕ → ℕ → ℕ
dst copy_in p_att p_buf = p_att
dst copy_out p_att p_buf = p_buf

abbrev pub src : Direction → ℕ → ℕ → ℕ
src copy_in p_att p_buf = p_buf
src copy_out p_att p_buf = p_att

memcpy_off : (p q n a : ℕ) (m : Memory) → IsOff a p n → memcpy p q n m a ≡ m a
unfolding memcpy
memcpy_off p q n a m (inl h) = ground arith
memcpy_off p q n a m (inr h) = ground arith

memcpy_at : (p q n b : ℕ) (m : Memory) → b < n → memcpy p q n m (p + b) ≡ m (q + b)
unfolding memcpy
memcpy_at p q n b m h = let e : p + b - p ≡ b = omega arith in rw e (ground arith)

pub copy_bytes_off :
    (d : Direction) (p q n a : ℕ) (m : Memory)
    → IsOff a (dst d p q) n
    → copy_bytes d p q n m a ≡ m a
copy_bytes_off copy_in p q n a m h = memcpy_off p q n a m h
copy_bytes_off copy_out p q n a m h = memcpy_off q p n a m h

pub copy_bytes_at :
    (d : Direction) (p q n b : ℕ) (m : Memory)
    → b < n
    → copy_bytes d p q n m (dst d p q + b) ≡ m (src d p q + b)
copy_bytes_at copy_in p q n b m h = memcpy_at p q n b m h
copy_bytes_at copy_out p q n b m h = memcpy_at q p n b m h

step_lem : (p s k : ℕ) → p + s + k * s ≡ p + suc k * s
step_lem p s k = let e = suc-mul k s in omega arith

first_lem : (p s : ℕ) → p + 0 * s ≡ p
first_lem p s = omega arith

-- A loop whose steps all leave a byte leaves it.
stepping_off :
    (body : ℕ → ℕ → Memory → Memory) (n p q sp sq a : ℕ) (m : Memory)
    → ((k : ℕ) → k < n → (m' : Memory) → body (p + k * sp) (q + k * sq) m' a ≡ m' a)
    → stepping body n p q sp sq m a ≡ m a
unfolding stepping
stepping_off body zero p q sp sq a m h = refl
stepping_off body (suc n) p q sp sq a m h =
    stepping_off body n (p + sp) (q + sq) sp sq a (body p q m)
      (λ k l m'. rw (step_lem p sp k, step_lem q sq k) (h (suc k) (omega arith) m'))
    ∙ (rw (first_lem p sp, first_lem q sq) at (h 0 (omega arith) m))

-- A byte that one step copies and the others leave, from a byte that all steps leave.
stepping_at :
    (body : ℕ → ℕ → Memory → Memory) (n p q sp sq k a r : ℕ) (m : Memory)
    → k < n
    → ((m' : Memory) → body (p + k * sp) (q + k * sq) m' a ≡ m' r)
    → ((i : ℕ) → i < n → i ≢ k → (m' : Memory) → body (p + i * sp) (q + i * sq) m' a ≡ m' a)
    → ((i : ℕ) → i < n → (m' : Memory) → body (p + i * sp) (q + i * sq) m' r ≡ m' r)
    → stepping body n p q sp sq m a ≡ m r
unfolding stepping
stepping_at body zero p q sp sq k a r m l here others reads = absurd (omega arith)
stepping_at body (suc n) p q sp sq zero a r m l here others reads =
    stepping_off body n (p + sp) (q + sq) sp sq a (body p q m) (λ i b m'.
      rw (step_lem p sp i, step_lem q sq i) (others (suc i) (omega arith) (λ e. omega arith) m'))
    ∙ (rw (first_lem p sp, first_lem q sq) at (here m))
stepping_at body (suc n) p q sp sq (suc k) a r m l here others reads =
    stepping_at body n (p + sp) (q + sq) sp sq k a r (body p q m) (omega arith)
      (λ m'. rw (step_lem p sp k, step_lem q sq k) (here m'))
      (λ i b ne m'.
        rw (step_lem p sp i, step_lem q sq i)
          (others (suc i) (omega arith) (λ e. ne (omega arith)) m'))
      (λ i b m'. rw (step_lem p sp i, step_lem q sq i) (reads (suc i) (omega arith) m'))
    ∙ (rw (first_lem p sp, first_lem q sq) at (reads 0 (omega arith) m))

pub copy_each_off :
    (d : Direction) (n p q sp sq size a : ℕ) (m : Memory)
    → ((k : ℕ) → k < n → IsOff a (dst d (p + k * sp) (q + k * sq)) size)
    → copy_each d n p q sp sq size m a ≡ m a
unfolding copy_each
copy_each_off d n p q sp sq size a m h =
    stepping_off (λ x y. copy_bytes d x y size) n p q sp sq a m
      (λ k l m'. copy_bytes_off d (p + k * sp) (q + k * sq) size a m' (h k l))

pub copy_each_at :
    (d : Direction) (n p q sp sq size k b : ℕ) (m : Memory)
    → k < n
    → b < size
    → ((i : ℕ)
        → i < n
        → i ≢ k
        → IsOff (dst d (p + k * sp) (q + k * sq) + b) (dst d (p + i * sp) (q + i * sq)) size)
    → ((i : ℕ)
        → i < n
        → IsOff (src d (p + k * sp) (q + k * sq) + b) (dst d (p + i * sp) (q + i * sq)) size)
    → copy_each d n p q sp sq size m (dst d (p + k * sp) (q + k * sq) + b)
      ≡ m (src d (p + k * sp) (q + k * sq) + b)
unfolding copy_each
copy_each_at d n p q sp sq size k b m l c others reads =
    stepping_at (λ x y. copy_bytes d x y size) n p q sp sq k _ _ m l
      (λ m'. copy_bytes_at d (p + k * sp) (q + k * sq) size b m' c)
      (λ i h ne m'. copy_bytes_off d (p + i * sp) (q + i * sq) size _ m' (others i h ne))
      (λ i h m'. copy_bytes_off d (p + i * sp) (q + i * sq) size _ m' (reads i h))

module _ (d : Direction) (p q sp sq tp tq size : ℕ) where
  -- The start of the block that is written for component `j` of item `i`, and of the one that is read.
  abbrev pub written : ℕ → ℕ → ℕ
  written i j = dst d (p + i * sp + j * tp) (q + i * sq + j * tq)

  abbrev pub read : ℕ → ℕ → ℕ
  read i j = src d (p + i * sp + j * tp) (q + i * sq + j * tq)

  pub copy_items_at :
      (n c i j b : ℕ) (m : Memory)
      → i < n
      → j < c
      → b < size
      → ((i' j' : ℕ)
          → i' < n
          → j' < c
          → (i' ≢ i) ⊎ (j' ≢ j)
          → IsOff (written i j + b) (written i' j') size)
      → ((i' j' : ℕ) → i' < n → j' < c → IsOff (read i j + b) (written i' j') size)
      → copy_items d n p q sp sq c tp tq size m (written i j + b) ≡ m (read i j + b)
  unfolding copy_items
  copy_items_at n c i j b m l k h others reads =
      stepping_at (λ x y. copy_each d c x y tp tq size) n p q sp sq i _ _ m l
        (λ m'.
          copy_each_at d c (p + i * sp) (q + i * sq) tp tq size j b m' k h
            (λ j' l' ne. others i j' l l' (inr ne)) (λ j' l'. reads i j' l l'))
        (λ i' l' ne m'.
          copy_each_off d c (p + i' * sp) (q + i' * sq) tp tq size _ m'
            (λ j' k'. others i' j' l' k' (inl ne)))
        (λ i' l' m'.
          copy_each_off d c (p + i' * sp) (q + i' * sq) tp tq size _ m'
            (λ j' k'. reads i' j' l' k'))
