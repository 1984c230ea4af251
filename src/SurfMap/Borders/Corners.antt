-- ===== src/SurfMap/Borders/Corners.antt =====
-- The corners of faces in any order, told apart without sorting them.
use impact.Prelude.{
  ℕ, ◌+◌, ◌<◌, ◌≡◌, refl, ap, ◌∙◌, sym, subst, inl, inr, ◌⊎◌, ℤ, eq_ℤ, eq_ℤ_iff, ltb_ℤ, ◌≤ℤ◌, Bool,
  true, false, not, ◌&&◌, List, [], ◌∷◌, Bool-cases, arith, ◌==◌, if◌then◌else◌, eq_of_parts,
}
use impact.SurfMap.Borders.{FourTuple, four, ordered, sort_corners, equivalent}
use impact.SurfMap.Borders.Keyed.{one_if, equivalent→eq, equivalent_self}

abbrev pub corners : FourTuple → List ℤ
corners (four a b c d) = a ∷ b ∷ c ∷ d ∷ []

-- How often a number is among some numbers.
abbrev pub among : ℤ → List ℤ → ℕ
among x [] = 0
among x (y ∷ ys) = one_if (eq_ℤ x y) + among x ys

-- Each of the numbers is as often among `ys` as among `zs`.
abbrev pub agree : List ℤ → List ℤ → List ℤ → Bool
agree [] ys zs = true
agree (x ∷ xs) ys zs = among x ys == among x zs && agree xs ys zs

-- Two faces have the same corners, each as often, in whatever order.
abbrev pub same_corners : FourTuple → FourTuple → Bool
same_corners p q =
    agree (corners p) (corners p) (corners q) && agree (corners q) (corners p) (corners q)

abbrev pub in_order : List ℤ → Bool
in_order [] = true
in_order (x ∷ []) = true
in_order (x ∷ y ∷ zs) = not (ltb_ℤ y x) && in_order (y ∷ zs)

abbrev pub ascending : FourTuple → Bool
ascending p = in_order (corners p)

among-ordered :
    (x a b : ℤ)
    → one_if (eq_ℤ x (ordered a b).0) + one_if (eq_ℤ x (ordered a b).1)
      ≡ one_if (eq_ℤ x a) + one_if (eq_ℤ x b)
among-ordered x a b = elim (Bool-cases (ltb_ℤ b a)) [
  | inl swapped ↦ rw swapped (omega arith)
  | inr kept ↦ rw kept refl
]

among-sort_corners :
    (x : ℤ) (q : FourTuple) → among x (corners (sort_corners q)) ≡ among x (corners q)
unfolding sort_corners
among-sort_corners x (four a b c d) =
    let p = ordered a b in
    let r = ordered c d in
    let s = ordered p.0 r.0 in
    let t = ordered p.1 r.1 in
    omega (
      arith,
      among-ordered x a b,
      among-ordered x c d,
      among-ordered x p.0 r.0,
      among-ordered x p.1 r.1,
      among-ordered x t.0 s.1,
    )

ordered_cases :
    (a b : ℤ) → ((ordered a b ≡ (a, b)) × (a ≤ℤ b)) ⊎ ((ordered a b ≡ (b, a)) × (b ≤ℤ a))
ordered_cases a b = elim (Bool-cases (ltb_ℤ b a)) [
  | inl swapped ↦ inr (rw swapped refl, ground arith)
  | inr kept ↦ inl (rw kept refl, ground arith)
]

ordered_above : (z a b : ℤ) → z ≤ℤ a → z ≤ℤ b → z ≤ℤ (ordered a b).0
ordered_above z a b h k = elim (Bool-cases (ltb_ℤ b a)) [
  | inl swapped ↦ rw swapped k
  | inr kept ↦ rw kept h
]

ordered_below : (z a b : ℤ) → a ≤ℤ z → b ≤ℤ z → (ordered a b).1 ≤ℤ z
ordered_below z a b h k = elim (Bool-cases (ltb_ℤ b a)) [
  | inl swapped ↦ rw swapped h
  | inr kept ↦ rw kept k
]

-- The smaller of the two is below both, and the larger above both.
ordered_bounds :
    (a b : ℤ)
    → ((ordered a b).0 ≤ℤ a)
      × ((ordered a b).0 ≤ℤ b)
      × (a ≤ℤ (ordered a b).1)
      × (b ≤ℤ (ordered a b).1)
      × ((ordered a b).0 ≤ℤ (ordered a b).1)
ordered_bounds a b = elim (Bool-cases (ltb_ℤ b a)) [
  | inl swapped ↦ rw swapped (ground arith, omega arith, omega arith, ground arith, ground arith)
  | inr kept ↦ rw kept (omega arith, ground arith, ground arith, omega arith, ground arith)
]

in_order_four : (a b c d : ℤ) → a ≤ℤ b → b ≤ℤ c → c ≤ℤ d → ascending (four a b c d) ≡ true
in_order_four a b c d h k l =
    let p : ltb_ℤ b a ≡ false = ground arith in
    let q : ltb_ℤ c b ≡ false = ground arith in
    let r : ltb_ℤ d c ≡ false = ground arith in rw (p, q, r) refl

ascending-sort_corners : (q : FourTuple) → ascending (sort_corners q) ≡ true
unfolding sort_corners
ascending-sort_corners (four a b c d) =
    let p = ordered a b in
    let r = ordered c d in
    let s = ordered p.0 r.0 in
    let t = ordered p.1 r.1 in
    let u = ordered t.0 s.1 in
    let (p0, p1, p2, p3, p4) = ordered_bounds a b in
    let (r0, r1, r2, r3, r4) = ordered_bounds c d in
    let (s0, s1, s2, s3, s4) = ordered_bounds p.0 r.0 in
    let (t0, t1, t2, t3, t4) = ordered_bounds p.1 r.1 in
    let (u0, u1, u2, u3, u4) = ordered_bounds t.0 s.1 in
    let low : s.0 ≤ℤ u.0 =
      ordered_above s.0 t.0 s.1 (ordered_above s.0 p.1 r.1 (omega arith) (omega arith)) s4 in
    let high : u.1 ≤ℤ t.1 =
      ordered_below t.1 t.0 s.1 t4 (ordered_below t.1 p.0 r.0 (omega arith) (omega arith)) in
    in_order_four s.0 u.0 u.1 t.1 low u4 high

-- The first of some numbers in order is not above any of them.
first_least : (x y : ℤ) (xs : List ℤ) → in_order (x ∷ xs) ≡ true → 0 < among y (x ∷ xs) → x ≤ℤ y
first_least x y [] h l = elim (Bool-cases (eq_ℤ y x)) [
  | inl same ↦ let e = (eq_ℤ_iff y x).0 same in rw e (omega arith)
  | inr other ↦ absurd (let l' : 0 < 0 = rw other at l in omega arith)
]
first_least x y (z ∷ xs) h l = elim (Bool-cases (eq_ℤ y x)) [
  | inl same ↦ let e = (eq_ℤ_iff y x).0 same in rw e (omega arith)
  | inr other ↦ elim (Bool-cases (ltb_ℤ z x)) [
    | inl less ↦ cc (rw less at h)
    | inr more ↦
        let rec = first_least z y xs (rw more at h) (ground arith) in
        let le : x ≤ℤ z = ground arith in omega arith
  ]
]

in_order_rest : (x : ℤ) (xs : List ℤ) → in_order (x ∷ xs) ≡ true → in_order xs ≡ true
in_order_rest x [] h = refl
in_order_rest x (y ∷ xs) h = elim (Bool-cases (ltb_ℤ y x)) [
  | inl less ↦ cc (rw less at h)
  | inr more ↦ rw more at h
]

among_first : (x : ℤ) (xs : List ℤ) → 0 < among x (x ∷ xs)
among_first x xs = let e = (eq_ℤ_iff x x).1 refl in rw e (omega arith)

in_order_unique :
    (xs ys : List ℤ)
    → in_order xs ≡ true
    → in_order ys ≡ true
    → ((x : ℤ) → among x xs ≡ among x ys)
    → xs ≡ ys
in_order_unique [] [] h k e = refl
in_order_unique [] (y ∷ ys) h k e = absurd (omega (arith, among_first y ys, e y))
in_order_unique (x ∷ xs) [] h k e = absurd (omega (arith, among_first x xs, e x))
in_order_unique (x ∷ xs) (y ∷ ys) h k e =
    let p = first_least x y xs h (omega (arith, among_first y ys, e y)) in
    let q = first_least y x ys k (omega (arith, among_first x xs, e x)) in
    let same : x ≡ y = eq_of_parts x y (omega arith) in
    let tails : (z : ℤ) → among z xs ≡ among z ys = λ z.
      let f = e z in
      let g : one_if (eq_ℤ z x) ≡ one_if (eq_ℤ z y) = ap (λ w. one_if (eq_ℤ z w)) same in
      omega arith in
    let rec = in_order_unique xs ys (in_order_rest x xs h) (in_order_rest y ys k) tails in cc

agree_at :
    (x : ℤ) (xs ys zs : List ℤ) → agree xs ys zs ≡ true → 0 < among x xs → among x ys ≡ among x zs
agree_at x [] ys zs h l = absurd (omega arith)
agree_at x (y ∷ xs) ys zs h l = elim (Bool-cases (among y ys == among y zs)) [
  | inl here ↦ elim (Bool-cases (eq_ℤ x y)) [
    | inl same ↦ let e = (eq_ℤ_iff x y).0 same in rw e (ground arith)
    | inr other ↦
        agree_at x xs ys zs (rw here at h)
          (let l' : 0 < 0 + among x xs = rw other at l in omega arith)
  ]
  | inr apart ↦ cc (rw apart at h)
]

agree_all : (xs ys zs : List ℤ) → ((x : ℤ) → among x ys ≡ among x zs) → agree xs ys zs ≡ true
agree_all [] ys zs e = refl
agree_all (x ∷ xs) ys zs e =
    let h = e x in
    let t : (among x ys == among x zs) ≡ true = ground arith in rw t (agree_all xs ys zs e)

positive : (n : ℕ) → (0 == n) ≡ false → 0 < n
positive n h = ground arith

both_none : (m n : ℕ) → (0 == m) ≡ true → (0 == n) ≡ true → m ≡ n
both_none m n h k = ground arith

same_corners-among :
    (p q : FourTuple) (x : ℤ) → same_corners p q ≡ true → among x (corners p) ≡ among x (corners q)
same_corners-among p q x h = elim (Bool-cases (agree (corners p) (corners p) (corners q))) [
  | inr differ ↦ cc (rw differ at h)
  | inl first ↦
      let second : agree (corners q) (corners p) (corners q) ≡ true = rw first at h in
      elim (Bool-cases (0 == among x (corners p))) [
        | inr in_p ↦ agree_at x (corners p) (corners p) (corners q) first (positive _ in_p)
        | inl not_p ↦ elim (Bool-cases (0 == among x (corners q))) [
          | inr in_q ↦ agree_at x (corners q) (corners p) (corners q) second (positive _ in_q)
          | inl not_q ↦ both_none _ _ not_p not_q
        ]
      ]
]

corners_injective : (p q : FourTuple) → corners p ≡ corners q → p ≡ q
corners_injective (four a b c d) (four a' b' c' d') e = cc e

-- A key in ascending order is the sorted face just where the face has the same corners.
pub equivalent-sort_corners :
    (k q : FourTuple)
    → equivalent k (sort_corners q) ≡ (if ascending k then same_corners k q else false)
equivalent-sort_corners k q = elim (Bool-cases (equivalent k (sort_corners q))) [
  | inl found ↦
      let e = equivalent→eq k (sort_corners q) found in
      let up : ascending k ≡ true = ap ascending e ∙ ascending-sort_corners q in
      let each : (x : ℤ) → among x (corners k) ≡ among x (corners q) =
        λ x. ap (λ p. among x (corners p)) e ∙ among-sort_corners x q in
      let s = agree_all (corners k) (corners k) (corners q) each in
      let t = agree_all (corners q) (corners k) (corners q) each in rw (found, up, s, t) refl
  | inr apart ↦ elim (Bool-cases (ascending k)) [
    | inr down ↦ rw (apart, down) refl
    | inl up ↦ elim (Bool-cases (same_corners k q)) [
      | inr other ↦ rw (apart, up, other) refl
      | inl same ↦
          let e : k ≡ sort_corners q = corners_injective k (sort_corners q) (
            in_order_unique (corners k) (corners (sort_corners q)) up (ascending-sort_corners q)
              (λ x. same_corners-among k q x same ∙ sym (among-sort_corners x q))) in
          let found : equivalent k (sort_corners q) ≡ true =
            subst (λ p. equivalent k p ≡ true) e (equivalent_self k) in
          cc (found, apart)
    ]
  ]
]
