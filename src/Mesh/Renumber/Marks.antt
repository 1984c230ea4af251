-- ===== src/Mesh/Renumber/Marks.antt =====
-- What a numbering in progress has, and that entering an element keeps it.
use impact.Prelude.{
  ℕ, zero, suc, ◌+◌, ◌-◌, ◌<◌, ◌≤◌, ◌≡◌, refl, ap, ◌∙◌, false, List, [], ◌∷◌, ◌++◌, length,
  length-append, length-set, set, arith, ◌==◌, if◌then◌else◌, All,
}
use impact.Mesh.Table.{done, at}
use impact.Mesh.Dual.Counts.{count}
use impact.Mesh.Renumber.{Numbering, enter, visit}

-- The element at `j` has a number.
abbrev pub Marked : ℕ → List ℕ → Type 0
Marked j remap = (v : ℕ) × (0 < v) × (at remap j ≡ done v)

-- Of `n` elements as many have a number as were given out, and each number was given out once.
pub record IsNumbering (n : ℕ) (s : Numbering) : Type 0 where
  pub sized : length s.remap ≡ n
  pub positive : 0 < s.renumber
  pub fresh : count 0 s.remap + s.renumber ≡ suc n
  pub unused : (x : ℕ) → s.renumber ≤ x → count x s.remap ≡ 0
  pub once : (x : ℕ) → 0 < x → x < s.renumber → count x s.remap ≡ 1
  pub queued : All (λ index. index < n) s.queue

pub at_total : (xs : List ℕ) (i : ℕ) → i < length xs → (v : ℕ) × (at xs i ≡ done v)
at_total [] i lt = absurd (omega arith)
at_total (x ∷ xs) zero lt = (x, refl)
at_total (x ∷ xs) (suc i) lt = at_total xs i (omega arith)

count-set :
    (xs : List ℕ) (i old r x : ℕ)
    → at xs i ≡ done old
    → count x (set xs i r) + (if x == old then 1 else 0) ≡ count x xs + (if x == r then 1 else 0)
count-set [] i old r x e = cc
count-set (y ∷ xs) zero old r x e = let same : y ≡ old = ground arith in rw same (ground arith)
count-set (y ∷ xs) (suc i) old r x e = ground (arith, count-set xs i old r x e)

pub Marked-set : (xs : List ℕ) (i r j : ℕ) → 0 < r → Marked j xs → Marked j (set xs i r)
Marked-set [] i r j lt m = m
Marked-set (x ∷ xs) zero r zero lt m = (r, lt, refl)
Marked-set (x ∷ xs) zero r (suc j) lt m = m
Marked-set (x ∷ xs) (suc i) r zero lt m = m
Marked-set (x ∷ xs) (suc i) r (suc j) lt m = Marked-set xs i r j lt m

pub Marked-set_self : (xs : List ℕ) (i r : ℕ) → 0 < r → i < length xs → Marked i (set xs i r)
Marked-set_self [] i r lt inside = absurd (omega arith)
Marked-set_self (x ∷ xs) zero r lt inside = (r, lt, refl)
Marked-set_self (x ∷ xs) (suc i) r lt inside = Marked-set_self xs i r lt (omega arith)

All-append_one :
    (n x : ℕ) (xs : List ℕ) → All (λ i. i < n) xs → x < n → All (λ i. i < n) (xs ++ x ∷ [])
All-append_one n x [] a lt = (lt, tt)
All-append_one n x (y ∷ xs) (b, a) lt = (b, All-append_one n x xs a lt)

-- One element more with a number: the numbering with the queue as it was.
pub IsNumbering-set :
    (n i : ℕ) (s : Numbering) (queue : List ℕ)
    → IsNumbering n s
    → at s.remap i ≡ done 0
    → All (λ index. index < n) queue
    → IsNumbering n
        (record { queue = queue; remap = set s.remap i s.renumber; renumber = suc s.renumber })
IsNumbering-set n i s queue k e q = record {
  sized = length-set s.remap i s.renumber ∙ k.sized;
  positive = omega arith;
  fresh = ground (arith, count-set s.remap i 0 s.renumber 0 e, k.fresh, k.positive);
  unused = λ x le. ground (arith, count-set s.remap i 0 s.renumber x e, k.unused x);
  once = λ x lt above. ground (arith, count-set s.remap i 0 s.renumber x e, k.unused x, k.once x);
  queued = q;
}

-- From `s` to `t`: `t` is a numbering, no number is lost, and each new one has its place in the queue.
pub record Grows (n : ℕ) (s t : Numbering) : Type 0 where
  pub is : IsNumbering n t
  pub keeps : (j : ℕ) → Marked j s.remap → Marked j t.remap
  pub balance : length t.queue + count 0 t.remap ≡ length s.queue + count 0 s.remap

enter-Grows :
    (n index old : ℕ) (s : Numbering)
    → IsNumbering n s
    → index < n
    → at s.remap index ≡ done old
    → Grows n s (enter index old s)
unfolding enter
enter-Grows n index zero s k lt e = record {
  is = IsNumbering-set n index s _ k e (All-append_one n index s.queue k.queued lt);
  keeps = λ j m. Marked-set s.remap index s.renumber j k.positive m;
  balance = ground (
    arith,
    count-set s.remap index 0 s.renumber 0 e,
    k.positive,
    length-append s.queue (index ∷ []),
  );
}
enter-Grows n index (suc old) s k lt e =
    let has_number : (suc old == 0) ≡ false = ground arith in
    rw has_number (record { is = k; keeps = λ j m. m; balance = refl })

visit-cons :
    (index old : ℕ) (row : List ℕ) (s : Numbering)
    → at s.remap index ≡ done old
    → visit (suc index ∷ row) s ≡ visit row (enter index old s)
unfolding visit
visit-cons index old row s e =
    let same : suc index - 1 ≡ index = omega arith in
    rw e (ap (λ i. visit row (enter i old s)) same)

pub visit_total :
    (n : ℕ) (row : List ℕ) (s : Numbering)
    → IsNumbering n s
    → All (λ id. (0 < id) × (id ≤ n)) row
    → (t : Numbering) × (visit row s ≡ done t) × Grows n s t
unfolding visit
visit_total n [] s k a = (s, refl, record { is = k; keeps = λ j m. m; balance = refl })
visit_total n (zero ∷ row) s k ((lt, le), a) = absurd (omega arith)
visit_total n (suc index ∷ row) s k ((lt, le), a) =
    let (old, e) = at_total s.remap index (omega (arith, k.sized)) in
    let g = enter-Grows n index old s k (omega arith) e in
    let (t, f, h) = visit_total n row (enter index old s) g.is a in
    (
      t,
      visit-cons index old row s e ∙ f,
      record { is = h.is; keeps = λ j m. h.keeps j (g.keeps j m); balance = h.balance ∙ g.balance },
    )
