-- ===== src/Mesh/Neighbors/Unique.antt =====
-- `ElementsOn`: the sort and the removal of repeated entries.
use impact.Prelude.{
  ℕ, ◌<◌, ◌≤◌, ◌≡◌, refl, sym, ap, ◌∙◌, false, ◌||◌, List, [], ◌∷◌, ◌++◌, length, leb, ltb, arith,
  ◌==◌, if◌then◌else◌, Bool-cases, inl, inr, All,
}
use impact.Mesh.Table.{done, Connectivity}
use impact.Mesh.Dual.Counts.{count, row_at, AllIds}
use impact.Mesh.Neighbors.{insert_sorted, sort_ids, rows_of, unique_after, unique, elements_on}
use impact.Mesh.Neighbors.Gathered.{
  InRange, mem, mem-count, one_if, touches, count-sort_ids, dual_row,
}

abbrev pub IsSorted : List ℕ → Type 0
IsSorted [] = Unit {0}
IsSorted (x ∷ xs) = All (λ y. x ≤ y) xs × IsSorted xs

All-le : (x y : ℕ) (xs : List ℕ) → x ≤ y → All (λ z. y ≤ z) xs → All (λ z. x ≤ z) xs
All-le x y [] le a = tt
All-le x y (z ∷ xs) le (b, a) = (omega arith, All-le x y xs le a)

All-insert_sorted :
    (x v : ℕ) (xs : List ℕ) → x ≤ v → All (λ z. x ≤ z) xs → All (λ z. x ≤ z) (insert_sorted v xs)
unfolding insert_sorted
All-insert_sorted x v [] le a = (le, tt)
All-insert_sorted x v (y ∷ xs) le (b, a) = elim (Bool-cases (leb v y)) [
  | inl first ↦ rw first (le, (b, a))
  | inr later ↦ rw later (b, All-insert_sorted x v xs le a)
]

insert_sorted-IsSorted : (v : ℕ) (xs : List ℕ) → IsSorted xs → IsSorted (insert_sorted v xs)
unfolding insert_sorted
insert_sorted-IsSorted v [] s = (tt, tt)
insert_sorted-IsSorted v (x ∷ xs) (a, s) = elim (Bool-cases (leb v x)) [
  | inl first ↦ let le : v ≤ x = ground arith in rw first ((le, All-le v x xs le a), (a, s))
  | inr later ↦
      let le : x ≤ v = ground arith in
      rw later (All-insert_sorted x v xs le a, insert_sorted-IsSorted v xs s)
]

sort_ids-IsSorted : (xs : List ℕ) → IsSorted (sort_ids xs)
unfolding sort_ids
sort_ids-IsSorted [] = tt
sort_ids-IsSorted (x ∷ xs) = insert_sorted-IsSorted x (sort_ids xs) (sort_ids-IsSorted xs)

mem_below : (f y : ℕ) (ys : List ℕ) → f < y → All (λ z. y ≤ z) ys → mem f ys ≡ false
mem_below f y [] lt a = refl
mem_below f y (z ∷ ys) lt (b, a) = ground (arith, mem_below f y ys lt a)

count-unique_after :
    (f x : ℕ) (xs : List ℕ)
    → All (λ z. x ≤ z) xs
    → IsSorted xs
    → count f (unique_after x xs) ≡ (if f == x then 0 else one_if (mem f xs))
unfolding unique_after
count-unique_after f x [] a s = ground arith
count-unique_after f x (y ∷ ys) (le, a) (b, s) = elim (Bool-cases (x == y)) [
  | inl same ↦ rw same (ground (arith, count-unique_after f y ys b s))
  | inr apart ↦ elim (Bool-cases (f == x)) [
    | inl here ↦
        let gone : mem f ys ≡ false = mem_below f y ys (ground arith) b in
        rw apart (ground (arith, count-unique_after f y ys b s, gone))
    | inr there ↦ rw apart (ground (arith, count-unique_after f y ys b s))
  ]
]

unique_after-IsSorted :
    (x : ℕ) (xs : List ℕ)
    → All (λ z. x ≤ z) xs
    → IsSorted xs
    → All (λ z. x ≤ z) (unique_after x xs) × IsSorted (unique_after x xs)
unfolding unique_after
unique_after-IsSorted x [] a s = (tt, tt)
unique_after-IsSorted x (y ∷ ys) (le, a) (b, s) =
    let (c, t) = unique_after-IsSorted y ys b s in
    elim (Bool-cases (x == y)) [
      | inl same ↦ rw same (All-le x y (unique_after y ys) le c, t)
      | inr apart ↦ rw apart ((le, All-le x y (unique_after y ys) le c), (c, t))
    ]

unique_lem :
    (xs : List ℕ)
    → IsSorted xs
    → IsSorted (unique xs) × ((f : ℕ) → count f (unique xs) ≡ one_if (mem f xs))
unfolding unique
unique_lem [] s = (tt, λ f. refl)
unique_lem (x ∷ xs) (a, s) =
    (unique_after-IsSorted x xs a s, λ f. ground (arith, count-unique_after f x xs a s))

mem-append : (f : ℕ) (xs ys : List ℕ) → mem f (xs ++ ys) ≡ (mem f xs || mem f ys)
mem-append f [] ys = refl
mem-append f (x ∷ xs) ys = ground (arith, mem-append f xs ys)

rows_of_total :
    (n : ℕ) (nodes : List ℕ) (dc : List (List ℕ))
    → InRange (length dc) nodes
    → AllIds n dc
    → (alist : List ℕ) × (rows_of nodes dc ≡ done alist)
      × ((f : ℕ) → mem f alist ≡ touches f nodes dc)
unfolding rows_of
rows_of_total n [] dc a ids = ([], refl, λ f. refl)
rows_of_total n (v ∷ nodes) dc ((lt, le), a) ids =
    let (here, r) = dual_row n dc v lt le ids in
    let (rest, e, same) = rows_of_total n nodes dc a ids in
    (
      row_at dc v ++ rest,
      rw (here, e) refl,
      λ f. mem-append f (row_at dc v) rest ∙ ap (λ b. mem f (row_at dc v) || b) (same f),
    )

mem_of_count : (f : ℕ) (xs ys : List ℕ) → count f xs ≡ count f ys → mem f xs ≡ mem f ys
mem_of_count f xs ys e = mem-count f xs ∙ ap (λ k. ltb 0 k) e ∙ sym (mem-count f ys)

-- For nodes that the dual table has rows for, `ElementsOn` returns the elements that one of the nodes
-- belongs to, in order and each once.
pub count-elements_on :
    (n : ℕ) (nodes : List ℕ) (dc : Connectivity)
    → InRange (length dc.rows) nodes
    → AllIds n dc.rows
    → (subset : List ℕ) × (elements_on nodes dc ≡ done subset)
      × IsSorted subset
      × ((f : ℕ) → count f subset ≡ one_if (touches f nodes dc.rows))
unfolding elements_on
count-elements_on n nodes dc inside ids =
    let (alist, e, same) = rows_of_total n nodes dc.rows inside ids in
    let (s, c) = unique_lem (sort_ids alist) (sort_ids-IsSorted alist) in
    (
      unique (sort_ids alist),
      rw e refl,
      s,
      λ f.
          c f ∙ ap one_if (mem_of_count f (sort_ids alist) alist (count-sort_ids f alist) ∙ same f),
    )
