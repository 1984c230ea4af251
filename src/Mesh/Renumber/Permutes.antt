-- ===== src/Mesh/Renumber/Permutes.antt =====
-- `BreadthFirstRenumber` numbers all elements.
use impact.Prelude.{
  ℕ, zero, suc, ◌+◌, ◌<◌, ◌≤◌, ◌≡◌, refl, sym, ap, ◌∙◌, true, false, List, [], ◌∷◌, length, set,
  arith, ◌==◌, leb, if◌then◌else◌, Bool-cases, ◌⊎◌, inl, inr, All,
}
use impact.Mesh.Table.{done, Connectivity, at, resize_to}
use impact.Mesh.Table.Cached.{IsSynced}
use impact.Mesh.Dual.Counts.{count, AllIds}
use impact.Mesh.Renumber.{Numbering, drain, seed, seed_new, seeds, breadth_first_renumber}
use impact.Mesh.Renumber.Marks.{
  Marked, IsNumbering, at_total, Marked-set, Marked-set_self, IsNumbering-set, visit_total,
}

row_total :
    (n : ℕ) (rows : List (List ℕ)) (i : ℕ)
    → i < length rows
    → AllIds n rows
    → (row : List ℕ) × (at rows i ≡ done row) × All (λ id. (0 < id) × (id ≤ n)) row
row_total n [] i lt a = absurd (omega arith)
row_total n (row ∷ rows) zero lt (a, more) = (row, refl, a)
row_total n (row ∷ rows) (suc i) lt (a, more) = row_total n rows i (omega arith) more

-- From `s` to `t`: `t` is a numbering and no number is lost.
abbrev Leads : ℕ → Numbering → Numbering → Type 0
Leads n s t = IsNumbering n t × ((j : ℕ) → Marked j s.remap → Marked j t.remap)

abbrev numbering : List ℕ → List ℕ → ℕ → Numbering
numbering queue remap renumber = record { queue = queue; remap = remap; renumber = renumber }

module _ (n : ℕ) (rows : List (List ℕ)) (len : length rows ≡ n) (ids : AllIds n rows) where
  drain_total :
      (fuel : ℕ) (queue remap : List ℕ) (renumber : ℕ)
      → IsNumbering n (numbering queue remap renumber)
      → length queue + count 0 remap ≤ fuel
      → (t : Numbering) × (drain fuel rows queue remap renumber ≡ done t)
        × Leads n (numbering queue remap renumber) t
  unfolding drain
  drain_total fuel [] remap renumber k le = (numbering [] remap renumber, refl, (k, λ j m. m))
  drain_total zero (index ∷ queue) remap renumber k le = absurd (omega arith)
  drain_total (suc fuel) (index ∷ queue) remap renumber k le =
      let (lt, waits) = k.queued in
      let (row, e, a) = row_total n rows index (omega arith) ids in
      let rest : IsNumbering n (numbering queue remap renumber) = record {
        sized = k.sized;
        positive = k.positive;
        fresh = k.fresh;
        unused = k.unused;
        once = k.once;
        queued = waits;
      } in
      let (s, f, g) = visit_total n row (numbering queue remap renumber) rest a in
      let (t, x, (y, z)) =
        drain_total fuel s.queue s.remap s.renumber g.is (omega (arith, g.balance)) in
      (t, rw (e, f) x, (y, λ j m. z j (g.keeps j m)))

  seed_total :
      (fuel i : ℕ) (s : Numbering)
      → IsNumbering n s
      → i < n
      → n ≤ fuel
      → (t : Numbering) × (seed fuel i rows s ≡ done t) × Leads n s t × Marked i t.remap
  unfolding seed seed_new
  seed_total fuel i s k lt le =
      let (old, e) = at_total s.remap i (omega (arith, k.sized)) in go old e
    where
      go :
          (old : ℕ)
          → at s.remap i ≡ done old
          → (t : Numbering) × (seed fuel i rows s ≡ done t) × Leads n s t × Marked i t.remap
      go (suc old) e =
          let has_number : (suc old == 0) ≡ false = ground arith in
          (s, rw (e, has_number) refl, (k, λ j m. m), (suc old, omega arith, e))
      go zero e =
          let (row, f, a) = row_total n rows i (omega arith) ids in
          let marked = set s.remap i s.renumber in
          let k1 = IsNumbering-set n i s [] k e tt in
          let (t, g, h) = visit_total n row (numbering [] marked (suc s.renumber)) k1 a in
          let (u, x, (y, z)) =
            drain_total fuel t.queue t.remap t.renumber h.is (omega (arith, h.balance, k1.fresh)) in
          (
            u,
            rw (e, f, g) x,
            (y, λ j m. z j (h.keeps j (Marked-set s.remap i s.renumber j k.positive m))),
            z i (
                h.keeps i
                  (Marked-set_self s.remap i s.renumber k.positive (omega (arith, k.sized)))),
          )

-- Each of the first elements has a number, or all numbers are given out.
abbrev Complete : ℕ → ℕ → Numbering → Type 0
Complete n i s = (n < s.renumber) ⊎ ((j : ℕ) → j < i → Marked j s.remap)

seeds_stop :
    (fuel left i : ℕ) (c : Connectivity) (s : Numbering)
    → leb s.renumber c.nelem ≡ false
    → seeds fuel (suc left) i c s ≡ done s
unfolding seeds
seeds_stop fuel left i c s out = rw (out, seeds) refl

seeds_go :
    (fuel left i : ℕ) (c : Connectivity) (s t : Numbering)
    → leb s.renumber c.nelem ≡ true
    → seed fuel i c.rows s ≡ done t
    → seeds fuel (suc left) i c s ≡ seeds fuel left (suc i) c t
unfolding seeds
seeds_go fuel left i c s t more e = rw (more, seeds, e) refl

module _ (c : Connectivity) (synced : IsSynced c) (ids : AllIds c.nelem c.rows) where
  seeds_total :
      (fuel left i : ℕ) (s : Numbering)
      → IsNumbering c.nelem s
      → i + left ≡ c.nelem
      → c.nelem ≤ fuel
      → ((j : ℕ) → j < i → Marked j s.remap)
      → (t : Numbering) × (seeds fuel left i c s ≡ done t)
        × IsNumbering c.nelem t
        × Complete c.nelem c.nelem t
  unfolding seeds
  seeds_total fuel zero i s k e le m = (s, refl, k, inr (λ j lt. m j (omega arith)))
  seeds_total fuel (suc left) i s k e le m = elim (Bool-cases (leb s.renumber c.nelem)) [
    | inr out ↦ (s, seeds_stop fuel left i c s out, k, inl (ground arith))
    | inl more ↦
        let (t, f, (g, h), here) =
          seed_total c.nelem c.rows (sym synced) ids fuel i s k (omega arith) le in
        let marks : (j : ℕ) → j < suc i → Marked j t.remap = λ j lt. elim (Bool-cases (j == i)) [
          | inl last ↦ let same : j ≡ i = ground arith in rw same here
          | inr before ↦ h j (m j (ground arith))
        ] in
        let (u, x, y, z) = seeds_total fuel left (suc i) t g (omega arith) le marks in
        (u, seeds_go fuel left i c s t more f ∙ x, y, z)
  ]

count_zero-Marked : (xs : List ℕ) → ((j : ℕ) → j < length xs → Marked j xs) → count 0 xs ≡ 0
count_zero-Marked [] m = refl
count_zero-Marked (zero ∷ xs) m = let (v, lt, e) = m 0 (omega arith) in absurd (ground arith)
count_zero-Marked (suc x ∷ xs) m =
    let nonzero : (0 == suc x) ≡ false = ground arith in
    rw nonzero (count_zero-Marked xs (λ j lt. m (suc j) (omega arith)))

all_numbered : (n : ℕ) (s : Numbering) → IsNumbering n s → Complete n n s → s.renumber ≡ suc n
all_numbered n s k (inl out) = omega (arith, k.fresh)
all_numbered n s k (inr marks) =
    let none_left : count 0 s.remap ≡ 0 =
      count_zero-Marked s.remap (λ j lt. marks j (omega (arith, k.sized))) in
    omega (arith, k.fresh)

length_zeros : (n : ℕ) → length {A = ℕ} (resize_to n 0 []) ≡ n
length_zeros zero = refl
length_zeros (suc n) = ap suc (length_zeros n)

count_zeros : (n x : ℕ) → count x (resize_to n 0 []) ≡ (if x == 0 then n else 0)
count_zeros zero x = ground arith
count_zeros (suc n) x = ground (arith, count_zeros n x)

-- For a table whose count is right and whose rows name its own elements, `BreadthFirstRenumber` from
-- an empty `remap` returns within as many rounds of each queue as there are elements, its assertion
-- holds, and the result gives each of the `_nelem` elements one of the numbers from 1 to `_nelem`, each
-- number once.
pub breadth_first_renumber_total :
    (c : Connectivity)
    → IsSynced c
    → AllIds c.nelem c.rows
    → (remap : List ℕ) × (breadth_first_renumber c.nelem c [] ≡ done remap)
      × (length remap ≡ c.nelem)
      × ((x : ℕ) → 0 < x → x ≤ c.nelem → count x remap ≡ 1)
unfolding breadth_first_renumber
breadth_first_renumber_total c synced ids =
    let start : IsNumbering c.nelem (numbering [] (resize_to c.nelem 0 []) 1) = record {
      sized = length_zeros c.nelem;
      positive = omega arith;
      fresh = ground (arith, count_zeros c.nelem 0);
      unused = λ x le. ground (arith, count_zeros c.nelem x);
      once = λ x lt above. absurd (omega arith);
      queued = tt;
    } in
    let (s, e, k, all) =
      seeds_total c synced ids c.nelem c.nelem 0 (numbering [] (resize_to c.nelem 0 []) 1) start
        (omega arith) (omega arith) (λ j lt. absurd (omega arith)) in
    let end = all_numbered c.nelem s k all in
    let holds : (s.renumber == suc c.nelem) ≡ true = ground arith in
    (s.remap, rw e (rw holds refl), k.sized, λ x lt le. k.once x lt (omega arith))
