-- ===== src/Com/DataItem/Copy/Copied.antt =====
-- What `copy_array` copies, for each of its three ways.
use native.Mathlib.Nat.{mul-le-mul_right, add-mul, mul_assoc}
use impact.Prelude.{
  ℕ, ◌+◌, ◌*◌, ◌≤◌, ◌<◌, ◌≡◌, ◌≢◌, ◌⊎◌, inl, inr, arith, sym, ◌==◌, if◌then◌else◌, false,
}
use impact.Com.DataItem.Address.{slot}
use impact.Com.DataItem.Copy.{
  Memory, Direction, copy_in, copy_out, copy_bytes, copy_each, copy_items,
}
use impact.Com.DataItem.Copy.Blocks.{IsOff, dst, src, copy_bytes_at, copy_each_at, copy_items_at}
use impact.Com.DataItem.Copy.Slots.{IsStride, max, row_below, element-IsOff}
use impact.Com.DataItem.Copy.Whole.{
  address_lem, same_slots, IsOff-within, others-IsOff, reads-IsOff, rows_elsewhere, element_to,
  element_from,
}

dst_shift : (d : Direction) (p q z x : ℕ) → dst d (p + z) (q + z) + x ≡ dst d p q + (z + x)
dst_shift copy_in p q z x = omega arith
dst_shift copy_out p q z x = omega arith

src_shift : (d : Direction) (p q z x : ℕ) → src d (p + z) (q + z) + x ≡ src d p q + (z + x)
src_shift copy_in p q z x = omega arith
src_shift copy_out p q z x = omega arith

dst_same :
    (d : Direction) (u v u' v' x y : ℕ)
    → u + x ≡ u' + y
    → v + x ≡ v' + y
    → dst d u v + x ≡ dst d u' v' + y
dst_same copy_in u v u' v' x y e f = e
dst_same copy_out u v u' v' x y e f = f

src_same :
    (d : Direction) (u v u' v' x y : ℕ)
    → u + x ≡ u' + y
    → v + x ≡ v' + y
    → src d u v + x ≡ src d u' v' + y
src_same copy_in u v u' v' x y e f = f
src_same copy_out u v u' v' x y e f = e

-- The address of an element in a row that is copied whole.
row_address :
    (p s rows size i j x : ℕ)
    → 1 < s
    → p + slot s rows i j * size + x ≡ p + i * (s * size) + (j * size + x)
row_address p s rows size i j x u =
    let many : (s == 1) ≡ false = ground arith in
    let a = mul_assoc i s size in let c = add-mul j (i * s) size in rw many (omega arith)

stride_above : (s ncomp : ℕ) → IsStride s ncomp → 1 < s → (ncomp ≤ s) × (max s ncomp ≡ s)
stride_above s ncomp (inl e) u = absurd (omega arith)
stride_above s ncomp (inr (ne, le)) u = (le, ground arith)

row_others :
    (d : Direction) (p q S T w i i' y : ℕ)
    → i' ≢ i
    → y < w
    → w ≤ S
    → w ≤ T
    → IsOff (dst d (p + i * S) (q + i * T) + y) (dst d (p + i' * S) (q + i' * T)) w
row_others copy_in p q S T w i i' y ne l f g =
    IsOff-within _ _ S w f (element-IsOff p i i' S y (λ e. ne (sym e)) (omega arith))
row_others copy_out p q S T w i i' y ne l f g =
    IsOff-within _ _ T w g (element-IsOff q i i' T y (λ e. ne (sym e)) (omega arith))

row_reads :
    (d : Direction) (p q S T w cap n i i' y : ℕ)
    → n ≤ cap
    → i < n
    → i' < n
    → y < w
    → w ≤ S
    → w ≤ T
    → (p + cap * S ≤ q) ⊎ (q + n * T ≤ p)
    → IsOff (src d (p + i * S) (q + i * T) + y) (dst d (p + i' * S) (q + i' * T)) w
row_reads copy_in p q S T w cap n i i' y c h h' l f g away =
    rows_elsewhere p q S T cap n i i' y w h (omega arith) (omega arith) f away
row_reads copy_out p q S T w cap n i i' y c h h' l f g away =
    rows_elsewhere q p T S n cap i i' y w (omega arith) h' (omega arith) g
      (elim away [ inl u ↦ inr u | inr u ↦ inl u ])

module _ (d : Direction) (p q sa sb cap n ncomp size : ℕ) (a : IsStride sa ncomp)
    (b : IsStride sb ncomp) (fits : n ≤ cap)
    (away : (p + cap * max sa ncomp * size ≤ q) ⊎ (q + n * max sb ncomp * size ≤ p)) (i j x : ℕ)
    (h : i < n) (l : j < ncomp) (k : x < size) (m : Memory) where
  pub copy_bytes_element :
      sa ≡ sb
      → (sa ≡ ncomp) ⊎ ((n ≡ cap) × (sb ≡ 1))
      → copy_bytes d p q (n * ncomp * size) m (element_to d p q sa sb cap n size i j + x)
        ≡ m (element_from d p q sa sb cap n size i j + x)
  copy_bytes_element e c =
      let c' : (sb ≡ ncomp) ⊎ ((n ≡ cap) × (sb ≡ 1)) = elim c [
        | inl u ↦ inl (omega arith)
        | inr u ↦ inr u
      ] in
      let (s, below) = same_slots sb ncomp n cap i j c' h l in
      let z : ℕ = slot sb n i j * size in
      let y : z + x < n * ncomp * size = row_below (slot sb n i j) (n * ncomp) size x below k in
      rw (e, s, dst_shift d p q z x, src_shift d p q z x) (copy_bytes_at d p q _ (z + x) m y)

  pub copy_items_element :
      copy_items d n p q
        (sa * size)
        (sb * size)
        ncomp
        ((if sa == 1 then cap else 1) * size)
        ((if sb == 1 then n else 1) * size)
        size
        m
        (element_to d p q sa sb cap n size i j + x)
      ≡ m (element_from d p q sa sb cap n size i j + x)
  copy_items_element =
      let ea = λ (u v : ℕ). address_lem p sa cap size u v in
      let eb = λ (u v : ℕ). address_lem q sb n size u v in
      rw (← ea i j, ← eb i j)
        (copy_items_at d p q (sa * size) (sb * size) ((if sa == 1 then cap else 1) * size)
          ((if sb == 1 then n else 1) * size) size n ncomp i j x m h l k
          (λ i' j' h' l' ne.
            rw (ea i j, eb i j, ea i' j', eb i' j')
              (others-IsOff d p q sa sb cap n ncomp size a b fits i j i' j' x h l h' l' k ne))
          (λ i' j' h' l'.
            rw (ea i j, eb i j, ea i' j', eb i' j')
              (reads-IsOff d p q sa sb cap n ncomp size a b fits away i j i' j' x h l h' l' k)))

  pub copy_each_element :
      1 < sa
      → 1 < sb
      → copy_each d n p q
          (sa * size)
          (sb * size)
          (ncomp * size)
          m
          (element_to d p q sa sb cap n size i j + x)
        ≡ m (element_from d p q sa sb cap n size i j + x)
  copy_each_element u v =
      let (f, fa) = stride_above sa ncomp a u in
      let (g, gb) = stride_above sb ncomp b v in
      let y : j * size + x < ncomp * size = row_below j ncomp size x l k in
      let f' = mul-le-mul_right {m = ncomp} {n = sa} size f in
      let g' = mul-le-mul_right {m = ncomp} {n = sb} size g in
      let apart : (p + cap * (sa * size) ≤ q) ⊎ (q + n * (sb * size) ≤ p) =
        rw (← mul_assoc cap sa size, ← mul_assoc n sb size) (rw (fa, gb) at away) in
      let ra = row_address p sa cap size i j x u in
      let rb = row_address q sb n size i j x v in
      rw (dst_same d _ _ _ _ x (j * size + x) ra rb, src_same d _ _ _ _ x (j * size + x) ra rb)
        (copy_each_at d n p q (sa * size) (sb * size) (ncomp * size) i (j * size + x) m h y
          (λ i' h' ne.
            row_others d p q (sa * size) (sb * size) (ncomp * size) i i' (j * size + x) ne y f' g')
          (λ i' h'.
            row_reads d p q (sa * size) (sb * size) (ncomp * size) cap n i i' (j * size + x) fits h
              h' y f' g' apart))
