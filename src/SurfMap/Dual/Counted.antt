-- ===== src/SurfMap/Dual/Counted.antt =====
-- What the first loop of `Pane_dual_connectivity` counts, and the arrays that are made for it.
use impact.Prelude.{
  ℕ, zero, suc, ◌+◌, ◌%◌, ◌<◌, ◌≡◌, refl, ap, ◌∙◌, ℤ, pos, +ℤ-pos, List, [], ◌∷◌, ◌++◌, length, set,
  length-set, arith, ◌==◌, if◌then◌else◌,
}
use impact.Prelude.Runs.{done, at, write_at-set}
use impact.SurfMap.Dual.{copies, as_char, count_node, offsets_from, last_of}
use impact.SurfMap.Dual.Buckets.{Buckets, taken, room, offs, cells}
use impact.SurfMap.Dual.Pairs.{each_pair, elems, Within}

abbrev pub entry : List ℕ → ℕ → ℕ
entry [] k = 0
entry (c ∷ cs) zero = c
entry (c ∷ cs) (suc k) = entry cs k

pub at-entry : (cs : List ℕ) (k : ℕ) → k < length cs → at cs k ≡ done (entry cs k)
at-entry [] k lt = absurd (omega arith)
at-entry (c ∷ cs) zero lt = refl
at-entry (c ∷ cs) (suc k) lt = at-entry cs k (omega arith)

pub entry-set :
    (cs : List ℕ) (k x j : ℕ)
    → k < length cs
    → entry (set cs k x) j ≡ (if j == k then x else entry cs j)
entry-set [] k x j lt = absurd (omega arith)
entry-set (c ∷ cs) zero x zero lt = ground arith
entry-set (c ∷ cs) zero x (suc j) lt = ground arith
entry-set (c ∷ cs) (suc k) x zero lt = ground arith
entry-set (c ∷ cs) (suc k) x (suc j) lt = ground (arith, entry-set cs k x j)

abbrev pub hits : ℕ → List (ℕ × ℕ) → ℕ
hits v ps = length (elems v ps)

pub count_node-set :
    (e k : ℕ) (cs : List ℕ)
    → k < length cs
    → entry cs k < 128
    → count_node e (suc k) cs ≡ done (set cs k (entry cs k + 1))
unfolding count_node
count_node-set e k cs lt small =
    let plain : (entry cs k + 1) % 256 ≡ entry cs k + 1 = omega arith in
    rw (at-entry cs k lt, plain) (write_at-set cs k (entry cs k + 1) lt)

pub counts :
    (ps : List (ℕ × ℕ)) (cs : List ℕ)
    → Within (length cs) ps
    → ((k : ℕ) → entry cs k + hits (suc k) ps < 128)
    → (cs' : List ℕ) × (each_pair count_node ps cs ≡ done cs')
      × (length cs' ≡ length cs)
      × ((k : ℕ) → entry cs' k ≡ entry cs k + hits (suc k) ps)
counts [] cs w small = (cs, refl, refl, λ k. omega arith)
counts ((zero, e) ∷ ps) cs ((h, g), w) small = absurd (omega arith)
counts ((suc k, e) ∷ ps) cs ((h, g), w) small =
    let cs1 = set cs k (entry cs k + 1) in
    let len : length cs1 ≡ length cs = length-set cs k (entry cs k + 1) in
    let step : (j : ℕ)
        → entry cs1 j + hits (suc j) ps ≡ entry cs j + hits (suc j) ((suc k, e) ∷ ps) =
      λ j. ground (arith, entry-set cs k (entry cs k + 1) j) in
    let (cs', f, l, each) = counts ps cs1 (rw len w) (λ j. rw (step j) (small j)) in
    (
      cs',
      rw (count_node-set e k cs (omega arith) (ground (arith, small k))) f,
      l ∙ len,
      λ j. each j ∙ step j,
    )

-- The buckets before any element is entered.
abbrev pub fresh : List ℕ → Buckets
fresh [] = []
fresh (c ∷ cs) = ([], copies c 0) ∷ fresh cs

pub length-copies : (n : ℕ) → length (copies {A = ℕ} n 0) ≡ n
length-copies zero = refl
length-copies (suc n) = ap suc (length-copies n)

pub length-fresh : (cs : List ℕ) → length (fresh cs) ≡ length cs
length-fresh [] = refl
length-fresh (c ∷ cs) = ap suc (length-fresh cs)

pub room-fresh : (cs : List ℕ) (k : ℕ) → room (fresh cs) k ≡ entry cs k
room-fresh [] k = refl
room-fresh (c ∷ cs) zero = length-copies c
room-fresh (c ∷ cs) (suc k) = room-fresh cs k

pub taken-fresh : (cs : List ℕ) (k : ℕ) → taken (fresh cs) k ≡ []
taken-fresh [] k = refl
taken-fresh (c ∷ cs) zero = refl
taken-fresh (c ∷ cs) (suc k) = taken-fresh cs k

pub offsets_from-fresh :
    (cs : List ℕ) (base : ℕ)
    → ((k : ℕ) → entry cs k < 128)
    → offsets_from (pos base) cs ≡ offs base (fresh cs)
unfolding offsets_from
offsets_from-fresh [] base small = refl
offsets_from-fresh (c ∷ cs) base small =
    let plain : as_char c ≡ pos c = ground (arith, small 0) in
    let nothing : base + 0 ≡ base = omega arith in
    rw (plain, +ℤ-pos base c, nothing, length-copies c)
      (ap (λ os. pos base ∷ os) (offsets_from-fresh cs (base + c) (λ k. small (suc k))))

pub copies-append : (m n : ℕ) → copies {A = ℕ} (m + n) 0 ≡ copies m 0 ++ copies n 0
copies-append zero n = ap (λ k. copies k 0) (omega arith)
copies-append (suc m) n =
    let next : suc m + n ≡ suc (m + n) = omega arith in rw (next, copies-append m n) refl

-- The last offset is the number of cells.
pub sized_eids-fresh :
    (cs : List ℕ) (base : ℕ) (x : ℤ)
    → (m : ℕ) × (last_of x (offs base (fresh cs)) ≡ pos (base + m))
      × (copies m 0 ≡ cells (fresh cs))
sized_eids-fresh [] base x = (0, ap pos (omega arith), refl)
sized_eids-fresh (c ∷ cs) base x =
    let (m, e, f) = sized_eids-fresh cs (base + 0 + length (copies {A = ℕ} c 0)) (pos (base + 0)) in
    (
      c + m,
      e ∙ ap pos (omega (arith, length-copies c)),
      copies-append c m ∙ ap (λ zs. copies c 0 ++ zs) f,
    )
