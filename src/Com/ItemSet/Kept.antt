-- ===== src/Com/ItemSet/Kept.antt =====
-- The entries of `_attr_set` that the operations on other items leave.
use impact.Prelude.{
  ℕ, zero, suc, ◌+◌, ◌<◌, ◌≤◌, ◌≡◌, ◌≢◌, refl, ◌∙◌, ◌⊎◌, inl, inr, Option, none, some, [], ◌∷◌,
  ◌++◌, length, get_elem?, set, ltb, ◌==◌, if◌then◌else◌, Bool-cases, arith,
}
use impact.Com.ItemSet.{Entry, AttrSet, resize, width, reset, delete_dataitem}

get_elem?_below : (s : AttrSet) (i : ℕ) (x : Option Entry) → get_elem? s i ≡ some x → i < length s
get_elem?_below [] i x h = cc h
get_elem?_below (y ∷ s) zero x h = omega arith
get_elem?_below (y ∷ s) (suc i) x h = omega (arith, get_elem?_below s i x h)

pub get_elem?-longer :
    (s t : AttrSet) (i : ℕ) (x : Option Entry)
    → get_elem? s i ≡ some x
    → get_elem? (s ++ t) i ≡ some x
get_elem?-longer [] t i x h = cc h
get_elem?-longer (y ∷ s) t zero x h = h
get_elem?-longer (y ∷ s) t (suc i) x h = get_elem?-longer s t i x h

get_elem?-set :
    (s : AttrSet) (k i : ℕ) (x : Option Entry) → k ≢ i → get_elem? (set s k x) i ≡ get_elem? s i
get_elem?-set [] k i x h = refl
get_elem?-set (y ∷ s) zero zero x h = absurd (h refl)
get_elem?-set (y ∷ s) zero (suc i) x h = refl
get_elem?-set (y ∷ s) (suc k) zero x h = refl
get_elem?-set (y ∷ s) (suc k) (suc i) x h = get_elem?-set s k i x (λ e. h (omega arith))

get_elem?-reset :
    (count id i : ℕ) (s : AttrSet)
    → (i < id) ⊎ (id + count < i)
    → get_elem? (reset count id s) i ≡ get_elem? s i
unfolding reset
get_elem?-reset zero id i s (inl h) = get_elem?-set s id i none (λ e. omega arith)
get_elem?-reset zero id i s (inr h) = get_elem?-set s id i none (λ e. omega arith)
get_elem?-reset (suc count) id i s (inl h) =
    get_elem?-reset count id i (set s (id + suc count) none) (inl h)
    ∙ get_elem?-set s (id + suc count) i none (λ e. omega arith)
get_elem?-reset (suc count) id i s (inr h) =
    get_elem?-reset count id i (set s (id + suc count) none) (inr (omega arith))
    ∙ get_elem?-set s (id + suc count) i none (λ e. omega arith)

get_elem?-resize :
    (s : AttrSet) (n i : ℕ) (x : Option Entry)
    → i < n
    → get_elem? s i ≡ some x
    → get_elem? (resize n s) i ≡ some x
unfolding resize
get_elem?-resize s zero i x l h = absurd (omega arith)
get_elem?-resize [] (suc n) i x l h = cc h
get_elem?-resize (y ∷ s) (suc n) zero x l h = h
get_elem?-resize (y ∷ s) (suc n) (suc i) x l h = get_elem?-resize s n i x (omega arith) h

length-set : (s : AttrSet) (k : ℕ) (x : Option Entry) → length (set s k x) ≡ length s
length-set [] k x = refl
length-set (y ∷ s) zero x = refl
length-set (y ∷ s) (suc k) x = omega (arith, length-set s k x)

length-reset : (count id : ℕ) (s : AttrSet) → length (reset count id s) ≡ length s
unfolding reset
length-reset zero id s = length-set s id none
length-reset (suc count) id s =
    length-reset count id (set s (id + suc count) none) ∙ length-set s (id + suc count) none

length-resize : (n : ℕ) (s : AttrSet) → length (resize n s) ≡ n
unfolding resize
length-resize zero s = refl
length-resize (suc n) [] = omega (arith, length-resize n [])
length-resize (suc n) (x ∷ s) = omega (arith, length-resize n s)

-- An item that is there is deleted, and each entry before it and behind its places stays.
pub delete_dataitem-keeps :
    (s : AttrSet) (id : ℕ) (b : Entry)
    → get_elem? s id ≡ some (some b)
    → 0 < b.ncomp
    → (s' : AttrSet) × (delete_dataitem id s ≡ some s')
      × ((i : ℕ) (x : Option Entry)
          → (i < id) ⊎ (id + width b.ncomp ≤ i)
          → get_elem? s i ≡ some x
          → get_elem? s' i ≡ some x)
      × (length s' ≡ (if id + width b.ncomp == length s then id else length s))
unfolding delete_dataitem
delete_dataitem-keeps s id b h z =
    let count : ℕ = if ltb 1 b.ncomp then b.ncomp else 0 in
    let places : width b.ncomp ≡ suc count = ground arith in
    let off : (i : ℕ) → (i < id) ⊎ (id + width b.ncomp ≤ i) → (i < id) ⊎ (id + count < i) =
      λ i o. elim o [ inl l ↦ inl l | inr l ↦ inr (omega arith) ] in
    elim (Bool-cases (id + width b.ncomp == length s)) [
      | inl last ↦ (
        resize id (reset count id s),
        rw (h, last) refl,
        λ i x o e. elim o [
          | inl l ↦
              get_elem?-resize (reset count id s) id i x l
                (get_elem?-reset count id i s (inl l) ∙ e)
          | inr l ↦
              let below = get_elem?_below s i x e in
              let size : id + width b.ncomp ≡ length s = ground arith in absurd (omega arith)
        ],
        rw last (length-resize id (reset count id s)),
      )
      | inr inside ↦ (
        reset count id s,
        rw (h, inside) refl,
        λ i x o e. get_elem?-reset count id i s (off i o) ∙ e,
        rw inside (length-reset count id s),
      )
    ]
