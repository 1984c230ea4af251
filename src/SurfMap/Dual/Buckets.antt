-- ===== src/SurfMap/Dual/Buckets.antt =====
-- The arrays of `Pane_dual_connectivity` while they are filled, as one bucket for each node: the
-- elements entered so far, and the cells that are left.
use impact.Prelude.{
  ℕ, zero, suc, ◌+◌, ◌<◌, ◌≡◌, refl, ap, ◌∙◌, sym, ℤ, pos, +ℤ-pos, List, [], ◌∷◌, ◌++◌, length,
  length-append, drop, append_assoc, append-nil, arith, ◌==◌, false, if◌then◌else◌,
}
use impact.Prelude.Runs.{done, at, write_at}
use impact.SurfMap.Dual.{fill_node, moved_on}

abbrev pub Buckets : Type 0
Buckets = List (List ℕ × List ℕ)

abbrev pub taken : Buckets → ℕ → List ℕ
taken [] k = []
taken ((filled, left) ∷ bs) zero = filled
taken (b ∷ bs) (suc k) = taken bs k

abbrev pub room : Buckets → ℕ → ℕ
room [] k = 0
room ((filled, left) ∷ bs) zero = length left
room (b ∷ bs) (suc k) = room bs k

-- `_offsets` and `_eids` of some buckets, of which the first begins at `base`.
abbrev pub offs : ℕ → Buckets → List ℤ
offs base [] = pos base ∷ []
offs base ((filled, left) ∷ bs) =
    pos (base + length filled) ∷ offs (base + length filled + length left) bs

abbrev pub cells : Buckets → List ℕ
cells [] = []
cells ((filled, left) ∷ bs) = filled ++ (left ++ cells bs)

abbrev pub entered : ℕ → ℕ → Buckets → Buckets
entered k i [] = []
entered zero i ((filled, []) ∷ bs) = (filled, []) ∷ bs
entered zero i ((filled, x ∷ left) ∷ bs) = (filled ++ i ∷ [], left) ∷ bs
entered (suc k) i (b ∷ bs) = b ∷ entered k i bs

pub length-entered : (k i : ℕ) (bs : Buckets) → length (entered k i bs) ≡ length bs
length-entered k i [] = refl
length-entered zero i ((filled, []) ∷ bs) = refl
length-entered zero i ((filled, x ∷ left) ∷ bs) = refl
length-entered (suc k) i (b ∷ bs) = ap suc (length-entered k i bs)

pub taken-entered :
    (k i : ℕ) (bs : Buckets) (j : ℕ)
    → 0 < room bs k
    → taken (entered k i bs) j ≡ taken bs j ++ (if j == k then i ∷ [] else [])
taken-entered k i [] j h = absurd (omega arith)
taken-entered zero i ((filled, []) ∷ bs) j h = absurd (omega arith)
taken-entered zero i ((filled, x ∷ left) ∷ bs) zero h = refl
taken-entered zero i ((filled, x ∷ left) ∷ bs) (suc j) h =
    let apart : (suc j == 0) ≡ false = ground arith in rw apart (sym (append-nil (taken bs j)))
taken-entered (suc k) i ((filled, left) ∷ bs) zero h =
    let apart : (0 == suc k) ≡ false = ground arith in rw apart (sym (append-nil filled))
taken-entered (suc k) i (b ∷ bs) (suc j) h =
    let same : (suc j == suc k) ≡ (j == k) = ground arith in rw same (taken-entered k i bs j h)

pub room-entered :
    (k i : ℕ) (bs : Buckets) (j : ℕ)
    → 0 < room bs k
    → room (entered k i bs) j + (if j == k then 1 else 0) ≡ room bs j
room-entered k i [] j h = absurd (omega arith)
room-entered zero i ((filled, []) ∷ bs) j h = absurd (omega arith)
room-entered zero i ((filled, x ∷ left) ∷ bs) zero h = ground arith
room-entered zero i ((filled, x ∷ left) ∷ bs) (suc j) h = ground arith
room-entered (suc k) i ((filled, left) ∷ bs) zero h = ground arith
room-entered (suc k) i (b ∷ bs) (suc j) h = ground (arith, room-entered k i bs j)

write_at-append :
    (xs ys zs : List ℕ) (k x : ℕ)
    → write_at ys k x ≡ done zs
    → write_at (xs ++ ys) (length xs + k) x ≡ done (xs ++ zs)
write_at-append [] ys zs k x e = ap (λ j. write_at ys j x) (omega arith) ∙ e
write_at-append (y ∷ xs) ys zs k x e =
    let next : suc (length xs) + k ≡ suc (length xs + k) = omega arith in
    rw (next, write_at-append xs ys zs k x e) refl

-- What `fill_node` does to the arrays is to enter the element in the bucket.
enters :
    (bs : Buckets) (k base i : ℕ)
    → 0 < room bs k
    → (q : ℕ) × (at (offs base bs) k ≡ done (pos (base + q)))
      × (write_at (cells bs) q i ≡ done (cells (entered k i bs)))
      × (write_at (offs base bs) k (pos (base + q + 1)) ≡ done (offs base (entered k i bs)))
enters [] k base i h = absurd (omega arith)
enters ((filled, []) ∷ bs) zero base i h = absurd (omega arith)
enters ((filled, x ∷ left) ∷ bs) zero base i h =
    let grown : length (filled ++ i ∷ []) ≡ length filled + 1 =
      omega (arith, length-append filled (i ∷ [])) in
    let first : base + (length filled + 1) ≡ base + length filled + 1 = omega arith in
    let others : base + length filled + 1 + length left ≡ base + length filled + suc (length left) =
      omega arith in
    (
      length filled,
      refl,
      ap (λ k. write_at (filled ++ x ∷ (left ++ cells bs)) k i) (omega arith)
          ∙ write_at-append filled (x ∷ (left ++ cells bs)) (i ∷ (left ++ cells bs)) 0 i refl
          ∙ ap done (sym (append_assoc filled (i ∷ []) (left ++ cells bs))),
      rw (grown, first, others) refl,
    )
enters ((filled, left) ∷ bs) (suc k) base i h =
    let (q, a, p, o) = enters bs k (base + length filled + length left) i h in
    let moved : base + length filled + length left + q
        ≡ base + (length filled + (length left + q)) =
      omega arith in
    let moved' : base + (length filled + (length left + q)) + 1
        ≡ base + length filled + length left + q + 1 =
      omega arith in
    (
      length filled + (length left + q),
      a ∙ ap (λ n. done (pos n)) moved,
      write_at-append filled _ _ (length left + q) i (write_at-append left _ _ q i p),
      rw (moved', o) refl,
    )

-- An element is entered in an array that is not full.
pub fill_node-offs :
    (bs : Buckets) (k i : ℕ)
    → 0 < room bs k
    → fill_node i (suc k) (offs 0 bs, cells bs)
      ≡ done (offs 0 (entered k i bs), cells (entered k i bs))
unfolding fill_node
fill_node-offs bs k i h =
    let (q, a, p, o) = enters bs k 0 i h in
    let here : 0 + q ≡ q = omega arith in rw (a, +ℤ-pos (0 + q) 1, o, here, p) refl

drop-append : (xs ys : List ℕ) (q : ℕ) → drop (length xs + q) (xs ++ ys) ≡ drop q ys
drop-append [] ys q = ap (λ n. drop n ys) (omega arith)
drop-append (x ∷ xs) ys q =
    let next : suc (length xs) + q ≡ suc (length xs + q) = omega arith in
    rw next (drop-append xs ys q)

starts :
    (xs ys : List ℕ)
    → (after : List ℕ) × (drop 0 (xs ++ ys) ≡ xs ++ after)
      × (length (xs ++ ys) ≡ 0 + length xs + length ys)
starts xs ys = (ys, refl, omega (arith, length-append xs ys))

offs-cons : (base : ℕ) (bs : Buckets) → (o : ℤ) × (os : List ℤ) × (offs base bs ≡ o ∷ os)
offs-cons base [] = (pos base, [], refl)
offs-cons base ((filled, left) ∷ bs) =
    (pos (base + length filled), offs (base + length filled + length left) bs, refl)

at_first :
    (n : ℕ) (xs : List ℤ)
    → (o : ℤ) × (os : List ℤ) × (xs ≡ o ∷ os)
    → at (moved_on (pos n) xs) 0 ≡ done (pos n)
unfolding moved_on
at_first n xs (o, os, e) = rw e refl

-- The number of cells after the bucket `k`.
abbrev pub rest : Buckets → ℕ → ℕ
rest [] k = 0
rest (b ∷ bs) zero = length (cells bs)
rest (b ∷ bs) (suc k) = rest bs k

cells-positive : (bs : Buckets) (j : ℕ) → 0 < length (taken bs j) → 0 < length (cells bs)
cells-positive [] j h = absurd (omega arith)
cells-positive ((filled, left) ∷ bs) zero h = omega (arith, length-append filled (left ++ cells bs))
cells-positive ((filled, left) ∷ bs) (suc j) h = omega (
  arith,
  length-append filled (left ++ cells bs),
  length-append left (cells bs),
  cells-positive bs j h,
)

pub rest-positive : (bs : Buckets) (k j : ℕ) → k < j → 0 < length (taken bs j) → 0 < rest bs k
rest-positive [] k j lt h = absurd (omega arith)
rest-positive (b ∷ bs) k zero lt h = absurd (omega arith)
rest-positive (b ∷ bs) zero (suc j) lt h = cells-positive bs j h
rest-positive (b ∷ bs) (suc k) (suc j) lt h = rest-positive bs k j (omega arith) h

cells-empty :
    (bs : Buckets)
    → ((j : ℕ) → room bs j ≡ 0)
    → ((j : ℕ) → length (taken bs j) ≡ 0)
    → length (cells bs) ≡ 0
cells-empty [] full h = refl
cells-empty ((filled, left) ∷ bs) full h = omega (
  arith,
  length-append filled (left ++ cells bs),
  length-append left (cells bs),
  full 0,
  h 0,
  cells-empty bs (λ j. full (suc j)) (λ j. h (suc j)),
)

pub rest-empty :
    (bs : Buckets) (k : ℕ)
    → ((j : ℕ) → room bs j ≡ 0)
    → ((j : ℕ) → k < j → length (taken bs j) ≡ 0)
    → rest bs k ≡ 0
rest-empty [] k full h = refl
rest-empty (b ∷ bs) zero full h = cells-empty bs (λ j. full (suc j)) (λ j. h (suc j) (omega arith))
rest-empty (b ∷ bs) (suc k) full h =
    rest-empty bs k (λ j. full (suc j)) (λ j lt. h (suc j) (omega arith))

-- The buckets that are full, from the one of the node `k` on.
pub slices :
    (bs : Buckets) (base k : ℕ)
    → ((j : ℕ) → room bs j ≡ 0)
    → k < length bs
    → (q : ℕ) × (after : List ℕ) × (at (moved_on (pos base) (offs base bs)) k
        ≡ done (pos (base + q)))
      × (at (moved_on (pos base) (offs base bs)) (suc k)
          ≡ done (pos (base + q + length (taken bs k))))
      × (drop q (cells bs) ≡ taken bs k ++ after)
      × (length (cells bs) ≡ q + length (taken bs k) + rest bs k)
unfolding moved_on
slices [] base k full lt = absurd (omega arith)
slices ((filled, x ∷ left) ∷ bs) base k full lt = absurd (omega (arith, full 0))
slices ((filled, []) ∷ bs) base zero full lt =
    let (after, c, d) = starts filled (cells bs) in
    (
      0,
      after,
      ap (λ n. done (pos n)) (omega arith),
      at_first (base + length filled) (offs (base + length filled + 0) bs) (offs-cons _ bs)
          ∙ ap (λ n. done (pos n)) (omega arith),
      c,
      d,
    )
slices ((filled, []) ∷ bs) base (suc k) full lt =
    let (q, after, a, b, c, d) =
      slices bs (base + length filled + 0) k (λ j. full (suc j)) (omega arith) in
    let whole : base + length filled + 0 ≡ base + length filled = omega arith in
    let place : base + (length filled + q) ≡ base + length filled + 0 + q = omega arith in
    (
      length filled + q,
      after,
      ap (λ b. at (moved_on (pos b) (offs (base + length filled + 0) bs)) k) (sym whole)
          ∙ a
          ∙ ap (λ n. done (pos n)) (sym place),
      ap (λ b. at (moved_on (pos b) (offs (base + length filled + 0) bs)) (suc k)) (sym whole)
          ∙ b
          ∙ ap (λ n. done (pos (n + length (taken bs k)))) (sym place),
      drop-append filled (cells bs) q ∙ c,
      omega (arith, length-append filled (cells bs)),
    )
