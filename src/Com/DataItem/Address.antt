-- ===== src/Com/DataItem/Address.antt =====
-- Where `get_addr` finds an item after `set_pointer`.
use impact.Prelude.{
  ℕ, zero, suc, ◌+◌, ◌*◌, ◌<◌, ◌≡◌, ◌≢◌, refl, sym, ap, ◌∙◌, ℤ, pos_part, Bool, true, false, not,
  ◌&&◌, Option, none, some, List, [], ◌∷◌, ◌++◌, map, length, get_elem?, ltb, ltb→lt, leb, ◌==◌,
  if◌then◌else◌, arith, ==_iff, Bool-cases, inl, inr,
}
use impact.Prelude.{some_injective}
use impact.Com.DataItem.{
  Error, Outcome, done, thrown, undefined, ◌>>=◌, Array, DataItem, size_of_items, resized, set_size,
  is_allocated, freed_block, has_components, cleared, deallocate, place, placed, refused, unless,
  set_components, spread, set_pointer, item_addr, get_addr,
}

-- An item of `n` entries with as many components as it says, of as many entries.
pub record IsSized (d : DataItem) (n : ℕ) : Type 0 where
  pub has_id : d.negative_id ≡ false
  pub own_size : size_of_items d.own ≡ n
  pub count : 1 < d.ncomp → length d.components ≡ d.ncomp
  pub sizes : (j : ℕ) (a : Array) → get_elem? d.components j ≡ some a → size_of_items a ≡ n

-- The entry `i` of component `j` as a number of elements from the start of the array.
abbrev pub slot : ℕ → ℕ → ℕ → ℕ → ℕ
slot strd cap i j = (if strd == 1 then j * cap else j) + i * strd

bound :
    {A B : Type 0} {m : Outcome A} {f : A → Outcome B} {b : B}
    → m >>= f ≡ done b
    → (a : A) × (m ≡ done a) × (f a ≡ done b)
bound {m = done a} e = (a, refl, e)
bound {m = thrown x} e = cc
bound {m = undefined} e = cc

unless-done : {A : Type 0} (o : Option Error) {a b : A} → unless o a ≡ done b → (o ≡ none) × (a ≡ b)
unless-done none e = (refl, cc)
unless-done (some x) e = cc

done_injective : {A : Type 0} {a b : A} → done a ≡ done b → a ≡ b
done_injective e = cc

length-map : {A B : Type 0} (f : A → B) (xs : List A) → length (map f xs) ≡ length xs
length-map f [] = refl
length-map f (x ∷ xs) = ap suc (length-map f xs)

get_elem?-map :
    {A B : Type 0} (f : A → B) (xs : List A) (j : ℕ) {b : B}
    → get_elem? (map f xs) j ≡ some b
    → (a : A) × (get_elem? xs j ≡ some a) × (f a ≡ b)
get_elem?-map f [] j e = cc
get_elem?-map f (x ∷ xs) zero e = (x, refl, cc)
get_elem?-map f (x ∷ xs) (suc j) e = get_elem?-map f xs j e

get_elem?_total :
    {A : Type 0} (xs : List A) (j : ℕ) → j < length xs → (a : A) × (get_elem? xs j ≡ some a)
get_elem?_total [] j h = elim h [ ]
get_elem?_total (x ∷ xs) zero h = (x, refl)
get_elem?_total (x ∷ xs) (suc j) h = get_elem?_total xs j (omega arith)

set_components-cons :
    (basesize p strd cap offset : ℕ) (is_const : Bool) (x : Array) (arrays : List Array)
    {rest : List Array × List ℕ}
    → set_components basesize p strd cap offset is_const (x ∷ arrays) ≡ done rest
    → (tail : List Array × List ℕ) × (set_components basesize p strd cap
          (suc offset)
          is_const
          arrays
        ≡ done tail)
      × (rest.0 ≡ placed basesize p strd cap offset is_const x ∷ tail.0)
unfolding set_components
set_components-cons basesize p strd cap offset is_const x arrays {rest} e =
    let (b, first, e1) = bound e in
    let (tail, others, e2) = bound e1 in
    let (accepted, here) = unless-done (refused 1 p strd cap x) first in
    let joined : ◌≡◌ {A = List Array × List ℕ}
        (b ∷ tail.0, (if is_allocated x.status then freed_block x.ptr else []) ++ tail.1) rest =
      done_injective e2 in
    (tail, others, sym (ap (λ r. r.0) joined) ∙ ap (λ y. y ∷ tail.0) (sym here))

set_components-nth :
    (basesize p strd cap offset : ℕ) (is_const : Bool) (arrays : List Array) (j : ℕ) {a : Array}
    {rest : List Array × List ℕ}
    → set_components basesize p strd cap offset is_const arrays ≡ done rest
    → get_elem? arrays j ≡ some a
    → get_elem? rest.0 j ≡ some (placed basesize p strd cap (j + offset) is_const a)
set_components-nth basesize p strd cap offset is_const [] j e at = cc
set_components-nth basesize p strd cap offset is_const (x ∷ arrays) zero e at =
    let (tail, others, heads) =
      set_components-cons basesize p strd cap offset is_const x arrays e in
    let first : 0 + offset ≡ offset = omega arith in
    rw (heads, first)
      (ap (λ y. some (placed basesize p strd cap offset is_const y)) (some_injective at))
set_components-nth basesize p strd cap offset is_const (x ∷ arrays) (suc j) {a} e at =
    let (tail, others, heads) =
      set_components-cons basesize p strd cap offset is_const x arrays e in
    let shifted : j + suc offset ≡ suc j + offset = omega arith in
    rw (heads, ← shifted)
      (set_components-nth basesize p strd cap (suc offset) is_const arrays j others at)

deallocate-IsSized : (d : DataItem) (n : ℕ) → IsSized d n → IsSized (deallocate d) n
unfolding deallocate
deallocate-IsSized d n s = elim (Bool-cases (is_allocated d.own.status)) [
  | inl allocated ↦ elim (Bool-cases (has_components d)) [
    | inl several ↦
        rw (allocated, several)
          (record {
            has_id = s.has_id;
            own_size = s.own_size;
            count = λ h. length-map cleared d.components ∙ s.count h;
            sizes = λ j a at.
                let (b, at_b, e) = get_elem?-map cleared d.components j at in
                rw (← e) (s.sizes j b at_b);
          })
    | inr one ↦
        rw (allocated, one)
          (record { has_id = s.has_id; own_size = s.own_size; count = s.count; sizes = s.sizes })
  ]
  | inr not_allocated ↦ rw not_allocated s
]

-- `set_size` gives the item and each of its components, where it has more than one, the number of
-- items that is set; what it had before was one number for all of them.
pub set_size-IsSized :
    (d : DataItem) (n g : ℤ) (m : ℕ)
    → IsSized d m
    → 1 < d.ncomp
    → IsSized (set_size n g d) (pos_part n)
unfolding set_size
set_size-IsSized d n g m s several =
    let e : ltb 1 d.ncomp ≡ true = ground arith in
    rw e (record {
      has_id = s.has_id;
      own_size = refl;
      count = λ h. length-map (resized n g) d.components ∙ s.count h;
      sizes = λ j a at.
          let (b, at_b, same) = get_elem?-map (resized n g) d.components j at in rw (← same) refl;
    })

-- The place of component `j`, and the address of its entry `i`.
place-column :
    (basesize p strd cap j : ℕ)
    → p ≢ 0
    → place basesize p strd cap j ≡ p + (if strd == 1 then j * cap else j) * basesize
unfolding place
place-column basesize p strd cap zero nonzero =
    let column : (if strd == 1 then 0 * cap else 0) ≡ 0 = ground arith in
    let first : not (p == 0) && not (0 == 0) ≡ false = ground arith in
    rw (first, column) (omega arith)
place-column basesize p strd cap (suc j) nonzero =
    let later : not (p == 0) && not (suc j == 0) ≡ true = ground arith in
    elim (Bool-cases (strd == 1)) [
      | inl one ↦ let unit : strd ≡ 1 = (==_iff strd 1).0 one in rw (later, one, unit) (grind arith)
      | inr many ↦ rw (later, many) refl
    ]

place-slot :
    (basesize p strd cap j i : ℕ)
    → p ≢ 0
    → place basesize p strd cap j + i * (basesize * strd) ≡ p + slot strd cap i j * basesize
place-slot basesize p strd cap j i nonzero =
    let start = if strd == 1 then j * cap else j in
    let spread_out : p + start * basesize + i * (basesize * strd)
        ≡ p + (start + i * strd) * basesize =
      grind arith in
    ap (λ q. q + i * (basesize * strd)) (place-column basesize p strd cap j nonzero) ∙ spread_out

place-nonzero : (basesize p strd cap j : ℕ) → p ≢ 0 → place basesize p strd cap j ≢ 0
place-nonzero basesize p strd cap j nonzero zero_place =
    absurd (omega (arith, place-column basesize p strd cap j nonzero))

deallocate-ncomp : (d : DataItem) → (deallocate d).ncomp ≡ d.ncomp
unfolding deallocate
deallocate-ncomp d = ground arith

deallocate-basesize : (d : DataItem) → (deallocate d).basesize ≡ d.basesize
unfolding deallocate
deallocate-basesize d = ground arith

item_addr-inside :
    (a : Array) (n i : ℕ)
    → size_of_items a ≡ n
    → i < n
    → item_addr a i ≡ done (a.ptr + i * a.nbytes_strd)
unfolding item_addr
item_addr-inside a n i e h = ground arith

get_addr-spread :
    (d d' : DataItem) (n p strd cap offset i j : ℕ) (is_const : Bool)
    → IsSized d n
    → p ≢ 0
    → spread strd cap is_const
        (record d { own = placed d.basesize p strd cap offset is_const d.own })
      ≡ done d'
    → i < n
    → j < d.ncomp
    → get_addr d' i j ≡ done (place d.basesize p strd cap offset + slot strd cap i j * d.basesize)
unfolding get_addr
get_addr-spread d d' n p strd cap offset i j is_const s nonzero e inside comp =
    let start : ℕ = place d.basesize p strd cap offset in
    let known : leb d.ncomp j ≡ false = ground arith in
    let o : DataItem = record d { own = placed d.basesize p strd cap offset is_const d.own } in
    elim (Bool-cases (ltb 1 d.ncomp)) [
      | inl several ↦
          let named : has_components o ≡ true =
            unfold has_components in rw (several, s.has_id) refl in
          let (parts, set, rest) = bound (rw named at e) in
          let (a, at) =
            get_elem?_total d.components j
              (omega (arith, comp, s.count (ltb→lt 1 d.ncomp several))) in
          let aligned : j + 0 ≡ j = omega arith in
          let moved : get_elem? parts.0 j ≡ some (placed d.basesize start strd cap j is_const a) =
            set_components-nth d.basesize start strd cap 0 is_const d.components j set at
            ∙ ap (λ c. some (placed d.basesize start strd cap c is_const a)) aligned in
          rw (← (done_injective rest)) (
            rw (known, several, moved)
              (item_addr-inside (placed d.basesize start strd cap j is_const a) n i (s.sizes j a at)
                  inside
                ∙ ap done (
                    place-slot d.basesize start strd cap j i
                      (place-nonzero d.basesize p strd cap offset nonzero))))
      | inr single ↦
          let none_named : has_components o ≡ false = unfold has_components in rw single refl in
          let same : o ≡ d' = done_injective (rw none_named at e) in
          let only : j ≡ 0 = ground arith in
          let column : (if strd == 1 then 0 * cap else 0) ≡ 0 = ground arith in
          rw (← same) (
            rw (known, single)
              (item_addr-inside o.own n i s.own_size inside
                ∙ ap done (rw (only, column) (grind arith))))
    ]

-- Where the sizes of the item are set to `n` and `set_pointer` accepts an array that is not NULL,
-- `get_addr` of an item `i` below `n` and a component `j` below `_ncomp` is the place given for
-- the array plus the bytes of the elements before it: `i * strd` and, before the component, `j`
-- or, where the stride is 1, `j * cap`.
pub get_addr-set_pointer :
    (d d' : DataItem) (n p strd cap offset i j : ℕ) (is_const : Bool)
    → IsSized d n
    → p ≢ 0
    → set_pointer p strd cap offset is_const d ≡ done d'
    → i < n
    → j < d.ncomp
    → get_addr d' i j ≡ done (place d.basesize p strd cap offset + slot strd cap i j * d.basesize)
unfolding set_pointer
get_addr-set_pointer d d' n p strd cap offset i j is_const s nonzero e inside comp =
    let (d1, first, rest) = bound e in
    let (accepted, here) = unless-done (refused d.ncomp p strd cap d.own) first in
    let reached : spread strd cap is_const (record (deallocate d) {
      own = placed (deallocate d).basesize p strd cap offset is_const (deallocate d).own;
    })
        ≡ done d' =
      rw here rest in
    rw (← (deallocate-basesize d)) (
      get_addr-spread (deallocate d) d' n p strd cap offset i j is_const (deallocate-IsSized d n s)
        nonzero reached inside (rw (deallocate-ncomp d) comp))
