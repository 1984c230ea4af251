-- ===== src/Com/DataItem/Copy.antt =====
-- `copy_array` and `append_array` of COM/src/DataItem.C, for a data item with sizes of its own. The
-- memory is a function from addresses to bytes.
pub mod Blocks
pub mod Slots
pub mod Whole
pub mod Copied
pub mod Elements
use impact.Prelude.{
  ℕ, zero, suc, ◌+◌, ◌-◌, ◌*◌, pos, Bool, true, false, not, ◌&&◌, ◌||◌, ltb, leb, ◌==◌, eq_ℤ,
  if◌then◌else◌,
}
use impact.Com.DataItem.{DataItem, Status, status_set_const, size_of_items, set_size}

abbrev pub Memory : Type 0
Memory = ℕ → ℕ

pub data Direction : Type 0 where
  copy_in copy_out : Direction

pub data CopyError : Type 0 where
  err_dataitem_const err_null_pointer err_bad_stride err_invalid_size err_append_array : CopyError

pub data CopyOutcome (A : Type 0) : Type 0 where
  copied : A → CopyOutcome A
  not_copied : CopyError → CopyOutcome A

infixl 5 ◌>>=◌
abbrev pub ◌>>=◌ : {A B : Type 0} → CopyOutcome A → (A → CopyOutcome B) → CopyOutcome B
copied a >>= f = f a
not_copied e >>= f = not_copied e

infixl 5 ◌>>◌
abbrev pub ◌>>◌ : {B : Type 0} → CopyOutcome (Unit {0}) → CopyOutcome B → CopyOutcome B
m >> k = m >>= λ _. k

abbrev pub unless_bad : Bool → CopyError → CopyOutcome (Unit {0})
unless_bad true e = not_copied e
unless_bad false e = copied tt

unfoldable pub memcpy : (dst src n : ℕ) → Memory → Memory
memcpy dst src n m a = if leb dst a && ltb a (dst + n) then m (src + (a - dst)) else m a

abbrev pub is_in : Direction → Bool
is_in copy_in = true
is_in copy_out = false

abbrev pub copy_bytes : Direction → (p_att p_buf n : ℕ) → Memory → Memory
copy_bytes copy_in p_att p_buf n = memcpy p_att p_buf n
copy_bytes copy_out p_att p_buf n = memcpy p_buf p_att n

-- for (...; p_buf += strd_buf, p_att += strd_att)
unfoldable pub stepping :
    (body : ℕ → ℕ → Memory → Memory) → (count p_att p_buf strd_att strd_buf : ℕ) → Memory → Memory
stepping body zero p_att p_buf strd_att strd_buf m = m
stepping body (suc count) p_att p_buf strd_att strd_buf m =
    stepping body count (p_att + strd_att) (p_buf + strd_buf) strd_att strd_buf (body p_att p_buf m)

-- The loop that copies a block at each step.
unfoldable pub copy_each :
    Direction → (count p_att p_buf strd_att strd_buf size : ℕ) → Memory → Memory
copy_each direction count p_att p_buf strd_att strd_buf size =
    stepping (λ p q. copy_bytes direction p q size) count p_att p_buf strd_att strd_buf

-- The loop for layouts that differ: the components of an item, and then the next item.
unfoldable pub copy_items :
    Direction
    → (count p_att p_buf strd_att strd_buf ncomp step_att step_buf basesize : ℕ) → Memory
    → Memory
copy_items direction count p_att p_buf strd_att strd_buf ncomp step_att step_buf basesize =
    stepping (λ p q. copy_each direction ncomp p q step_att step_buf basesize) count p_att p_buf
      strd_att strd_buf

abbrev pub min : ℕ → ℕ → ℕ
min a b = if ltb b a then b else a

-- The three ways to copy `n` items between the array at `ptr0` and the buffer.
abbrev pub copy_layouts : Direction → (buf strd n ptr0 : ℕ) → DataItem → Memory → Memory
copy_layouts direction buf strd n ptr0 d =
    let a = d.own in
    let ni = min n (size_of_items a) in
    if a.strd == strd && (a.strd == d.ncomp || (n == a.cap && strd == 1))
    then copy_bytes direction ptr0 buf (n * d.ncomp * d.basesize)
    else if ltb 1 a.strd && ltb 1 strd
    then copy_each direction ni ptr0 buf a.nbytes_strd (strd * d.basesize) (d.ncomp * d.basesize)
    else copy_items direction ni ptr0 buf a.nbytes_strd (strd * d.basesize) d.ncomp
        ((if a.strd == 1 then a.cap else 1) * d.basesize)
        ((if strd == 1 then n else 1) * d.basesize) d.basesize

abbrev pub is_const : DataItem → Bool
is_const d = elim d.own.status [ Status.status_set_const ↦ true | _ ↦ false ]

-- The rest of `copy_array` for the number of items and the stride that are meant. `pointer()` is the
-- one that throws for a constant item.
unfoldable pub copy_checked :
    Direction → (buf strd n offset : ℕ) → DataItem → Memory → CopyOutcome Memory
copy_checked direction buf strd n offset d m = do
  unless_bad (buf == 0 && not (n == 0)) err_null_pointer
  unless_bad (not (strd == 1) && ltb strd d.ncomp) err_bad_stride
  unless_bad (ltb d.own.cap (n + offset)) err_invalid_size
  unless_bad (is_const d) err_dataitem_const
  let ptr0 = if offset == 0 then d.own.ptr else d.own.ptr + offset * d.ncomp * d.basesize
  copied (copy_layouts direction buf strd n ptr0 d m)

-- void copy_array(void *buf, int strd, int n, int offset, int direction)
unfoldable pub copy_array :
    Direction → (buf strd n offset : ℕ) → DataItem → Memory → CopyOutcome Memory
copy_array direction buf strd n offset d m = do
  unless_bad (is_in direction && is_const d) err_dataitem_const
  let meant = if strd == 0 then d.ncomp else strd
  if not (n == 0)
      then copy_checked direction buf meant n offset d m
      else if is_in direction
      then copied m
      else copy_checked direction buf meant (size_of_items d.own) offset d m

-- void append_array(const void *from, int strd, int nitem), where `is_own` is the test for data of
-- the pane or the window, in a pane that does not ignore ghosts
unfoldable pub append_array :
    (from strd nitem : ℕ) → (is_own : Bool) → DataItem → Memory → CopyOutcome (DataItem × Memory)
append_array from strd nitem is_own d m = do
  unless_bad (not is_own || not (eq_ℤ d.own.ngitems (pos 0))) err_append_array
  let offset = size_of_items d.own
  m' ← copy_array copy_in from strd nitem offset d m
  copied (set_size (pos (offset + nitem)) (pos 0) d, m')
