-- ===== src/Com/ObjectMap/Consistent.antt =====
-- The invariant of a `COM_map` on its objects, its names and its indices, and the lemmas on lookups.
use impact.Prelude.{
  ℕ, zero, suc, ◌-◌, ◌<◌, ◌≤◌, ◌≡◌, ◌≢◌, refl, sym, ap, ◌∙◌, String, str_eq, str_eq_iff, Bool,
  Option, none, some, List, [], ◌∷◌, ◌++◌, length, get_elem?, erase_at, length-append, length-set,
  length-erase_at, lt_of_get_elem?, ltb, if◌then◌else◌, arith, Bool-cases, Option-cases,
  some_injective, inl, inr,
}
use mathlib.Core.Option
use impact.Com.ObjectMap.{
  Names, lookup, insert, without, lower_above, ObjectMap, stored_name, append_object, add_at,
  add_object, removed, remove_object,
}

-- A list at a position, after an append and after an erasure.
pub get_elem?-append_left :
    {A : Type 0} (xs ys : List A) (i : ℕ) {v : A}
    → get_elem? xs i ≡ some v
    → get_elem? (xs ++ ys) i ≡ some v
get_elem?-append_left [] ys i h = cc
get_elem?-append_left (x ∷ xs) ys zero h = h
get_elem?-append_left (x ∷ xs) ys (suc i) h = get_elem?-append_left xs ys i h

pub get_elem?-snoc :
    {A : Type 0} (xs : List A) (v : A) → get_elem? (xs ++ v ∷ []) (length xs) ≡ some v
get_elem?-snoc [] v = refl
get_elem?-snoc (x ∷ xs) v = get_elem?-snoc xs v

erase_below :
    {A : Type 0} (xs : List A) (i j : ℕ) → j < i → get_elem? (erase_at xs i) j ≡ get_elem? xs j
erase_below [] i j h = refl
erase_below (x ∷ xs) zero j h = elim h [ ]
erase_below (x ∷ xs) (suc i) zero h = refl
erase_below (x ∷ xs) (suc i) (suc j) h = erase_below xs i j (omega arith)

erase_above :
    {A : Type 0} (xs : List A) (i j : ℕ)
    → i ≤ j
    → get_elem? (erase_at xs i) j ≡ get_elem? xs (suc j)
erase_above [] i j h = refl
erase_above (x ∷ xs) zero j h = refl
erase_above (x ∷ xs) (suc i) zero h = absurd (omega arith)
erase_above (x ∷ xs) (suc i) (suc j) h = erase_above xs i j (omega arith)

pub get_elem?-erase_at :
    {A : Type 0} (xs : List A) (i j : ℕ)
    → i ≢ j
    → get_elem? (erase_at xs i) (if ltb i j then j - 1 else j) ≡ get_elem? xs j
get_elem?-erase_at xs i zero ne =
    let e : (if ltb i 0 then 0 - 1 else 0) ≡ 0 = ground arith in
    rw e (erase_below xs i zero (omega arith))
get_elem?-erase_at xs i (suc j) ne = elim (Bool-cases (ltb i (suc j))) [
  | inl above ↦
      let e : suc j - 1 ≡ j = omega arith in rw (above, e) (erase_above xs i j (ground arith))
  | inr below ↦ rw below (erase_below xs i (suc j) (ground arith))
]

-- The lookups of the association list.
pub lookup-insert :
    (k n : String) (i : ℕ) (m : Names)
    → lookup n (insert k i m) ≡ (if str_eq k n then some i else lookup n m)
unfolding lookup insert
lookup-insert k n i [] = refl
lookup-insert k n i ((x, j) ∷ m) =
    ground (arith, str_eq_iff k n, str_eq_iff x k, str_eq_iff x n, lookup-insert k n i m)

pub lookup-without :
    (k n : String) (m : Names) → lookup n (without k m) ≡ (if str_eq k n then none else lookup n m)
unfolding lookup without
lookup-without k n [] = ground arith
lookup-without k n ((x, j) ∷ m) =
    ground (arith, str_eq_iff k n, str_eq_iff x k, str_eq_iff x n, lookup-without k n m)

pub lookup-lower_above :
    (i : ℕ) (n : String) (m : Names)
    → lookup n (lower_above i m) ≡ Option.map (λ j. if ltb i j then j - 1 else j) (lookup n m)
unfolding lookup lower_above
lookup-lower_above i n [] = refl
lookup-lower_above i n ((x, j) ∷ m) = ground (arith, lookup-lower_above i n m)

-- Objects and names are as many, and each name has the index at which it stands.
pub record IsConsistent {A : Type 0} (m : ObjectMap A) : Type 0 where
  pub lengths : length m.i2o ≡ length m.names
  pub named : (k : String) (i : ℕ) → lookup k m.n2i ≡ some i → get_elem? m.names i ≡ some k

-- A name that is left after a removal had the index that it has now, or that plus one.
pub lookup-removed :
    (i : ℕ) (key k : String) (m : Names) (j : ℕ)
    → lookup k (lower_above i (without key m)) ≡ some j
    → (key ≢ k) × (l : ℕ) × (lookup k m ≡ some l) × (j ≡ (if ltb i l then l - 1 else l))
lookup-removed i key k m j e = elim (Bool-cases (str_eq key k)) [
  | inl same ↦
      let gone : lookup k (without key m) ≡ none = lookup-without key k m ∙ rw same refl in
      let none_left : lookup k (lower_above i (without key m)) ≡ none =
        lookup-lower_above i k (without key m) ∙ rw gone refl in
      cc (none_left, e)
  | inr other ↦
      let kept : lookup k (without key m) ≡ lookup k m = lookup-without key k m ∙ rw other refl in
      let lowered : lookup k (lower_above i (without key m))
          ≡ Option.map (λ j. if ltb i j then j - 1 else j) (lookup k m) =
        lookup-lower_above i k (without key m) ∙ rw kept refl in
      elim (Option-cases (lookup k m)) [
        | inl gone ↦
            let none_left : lookup k (lower_above i (without key m)) ≡ none =
              lowered ∙ rw gone refl in
            cc (none_left, e)
        | inr (l, at) ↦ (
          λ s. cc ((str_eq_iff key k).1 s),
          l,
          at,
          some_injective (sym e ∙ lowered ∙ ap (Option.map (λ j. if ltb i j then j - 1 else j)) at),
        )
      ]
]

module _ {A : Type 0} where
  append_object-IsConsistent :
      (name : String) (t : A) (m : ObjectMap A)
      → IsConsistent m
      → IsConsistent (append_object name t m).0
  append_object-IsConsistent name t m c = record {
    lengths =
        omega (arith, c.lengths, length-append m.i2o (t ∷ []), length-append m.names (name ∷ []));
    named = λ k i e. elim (Bool-cases (str_eq name k)) [
      | inl same ↦
          let here : lookup k (insert name (length m.i2o) m.n2i) ≡ some (length m.i2o) =
            lookup-insert name k (length m.i2o) m.n2i ∙ rw same refl in
          let at : i ≡ length m.names = cc (here, c.lengths) in
          let key : name ≡ k = (str_eq_iff name k).0 same in
          rw (at, ← key) (get_elem?-snoc m.names name)
      | inr other ↦
          get_elem?-append_left m.names (name ∷ []) i
            (c.named k i (ground (arith, lookup-insert name k (length m.i2o) m.n2i)))
    ];
  }

  add_at-IsConsistent :
      (o : Option ℕ) (name : String) (t : A) (m : ObjectMap A)
      → IsConsistent m
      → IsConsistent (add_at o name t m).0
  unfolding add_at
  add_at-IsConsistent none name t m c = append_object-IsConsistent name t m c
  add_at-IsConsistent (some zero) name t m c = append_object-IsConsistent name t m c
  add_at-IsConsistent (some (suc i)) name t m c = record {
    lengths = length-set m.i2o (suc i) t ∙ c.lengths;
    named = c.named;
  }

  -- Adding an object to a consistent map leaves it consistent: as many names as objects, and each
  -- name at the position that its handle says.
  pub add_object-IsConsistent :
      (name : String) (t : A) (is_const : Bool) (m : ObjectMap A)
      → IsConsistent m
      → IsConsistent (add_object name t is_const m).0
  unfolding add_object
  add_object-IsConsistent name t is_const m c =
      add_at-IsConsistent (lookup (stored_name name is_const) m.n2i) (stored_name name is_const) t m
        c

  removed-IsConsistent :
      (i : ℕ) (key : String) (m m' : ObjectMap A)
      → IsConsistent m
      → lookup key m.n2i ≡ some i
      → removed (some i) key m ≡ some m'
      → IsConsistent m'
  removed-IsConsistent i key m m' c at e = rw (← result) (record {
    lengths = omega (
      arith,
      c.lengths,
      length-erase_at m.i2o i
          (omega (arith, c.lengths, lt_of_get_elem? m.names i (c.named key i at))),
      length-erase_at m.names i (lt_of_get_elem? m.names i (c.named key i at)),
    );
    named = λ k j f.
        let (other, l, at_l, low) = lookup-removed i key k m.n2i j f in
        rw low (
          get_elem?-erase_at m.names i l (λ same. other (
            some_injective
              (sym (c.named key i at) ∙ ap (get_elem? m.names) same ∙ c.named k l at_l)))
          ∙ c.named k l at_l);
  })
    where
      result :
          record {
            i2o = erase_at m.i2o i;
            n2i = lower_above i (without key m.n2i);
            names = erase_at m.names i;
          }
          ≡ m'
      result = some_injective e

  -- Removing an object that is there from a consistent map leaves it consistent: as many names as
  -- objects, and each name at the position that its handle says.
  pub remove_object-IsConsistent :
      (name : String) (is_const : Bool) (m m' : ObjectMap A)
      → IsConsistent m
      → remove_object name is_const m ≡ some m'
      → IsConsistent m'
  unfolding remove_object
  remove_object-IsConsistent name is_const m m' c e =
      elim (Option-cases (lookup (stored_name name is_const) m.n2i)) [
        | inl absent ↦ cc (rw absent at e)
        | inr (i, at) ↦ removed-IsConsistent i (stored_name name is_const) m m' c at (rw at at e)
      ]
