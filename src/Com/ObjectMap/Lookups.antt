-- ===== src/Com/ObjectMap/Lookups.antt =====
-- What `find` returns after `add_object` and `remove_object`.
use Prim.Native.String.{◌++◌ as str_append}
use text.Mathlib.TextLemmas.{append_cancel_left}
use impact.Prelude.{
  ℕ, zero, suc, ◌-◌, ◌<◌, ◌≡◌, ◌≢◌, refl, sym, ap, ◌∙◌, String, str_eq, str_eq_iff, true, false,
  Option, none, some, List, [], ◌∷◌, ◌++◌, length, get_elem?, set, lt_of_get_elem?, ltb,
  if◌then◌else◌, arith, Bool-cases, Option-cases, some_injective, inl, inr,
}
use impact.Com.ObjectMap.{
  lookup, insert, without, lower_above, ObjectMap, append_object, add_at, add_object, removed,
  remove_object, find, empty_map,
}
use impact.Com.ObjectMap.Consistent.{
  get_elem?-snoc, get_elem?-erase_at, lookup-insert, lookup-without, lookup-lower_above,
  IsConsistent,
}

get_elem?-set_self :
    {A : Type 0} (xs : List A) (i : ℕ) (v : A) → i < length xs → get_elem? (set xs i v) i ≡ some v
get_elem?-set_self [] i v h = elim h [ ]
get_elem?-set_self (x ∷ xs) zero v h = refl
get_elem?-set_self (x ∷ xs) (suc i) v h = get_elem?-set_self xs i v (omega arith)

str_eq-≢ : {a b : String} → a ≢ b → str_eq a b ≡ false
str_eq-≢ {a} {b} ne = ground (arith, str_eq_iff a b)

module _ {A : Type 0} where
  find-append_object :
      (name : String) (t : A) (m : ObjectMap A)
      → find name false (append_object name t m).0 ≡ some (length m.i2o, some t)
  unfolding find
  find-append_object name t m =
      let here : lookup name (insert name (length m.i2o) m.n2i) ≡ some (length m.i2o) =
        lookup-insert name name (length m.i2o) m.n2i ∙ rw ((str_eq_iff name name).1 refl) refl in
      rw (here, get_elem?-snoc m.i2o t) refl

  find-add_at :
      (o : Option ℕ) (name : String) (t : A) (m : ObjectMap A)
      → IsConsistent m
      → lookup name m.n2i ≡ o
      → find name false (add_at o name t m).0 ≡ some ((add_at o name t m).1, some t)
  unfolding add_at
  find-add_at none name t m c e = find-append_object name t m
  find-add_at (some zero) name t m c e = find-append_object name t m
  find-add_at (some (suc i)) name t m c e =
      let inside : suc i < length m.i2o =
        omega (arith, c.lengths, lt_of_get_elem? m.names (suc i) (c.named name (suc i) e)) in
      unfold find in rw (e, get_elem?-set_self m.i2o (suc i) t inside) refl

  -- In a consistent map, an object that is not constant is found under its name after it is added,
  -- with the handle that `add_object` returned, whether the name was there before or not.
  pub find-add_object :
      (name : String) (t : A) (m : ObjectMap A)
      → IsConsistent m
      → find name false (add_object name t false m).0 ≡ some ((add_object name t false m).1, some t)
  unfolding add_object
  find-add_object name t m c = find-add_at (lookup name m.n2i) name t m c refl

  -- Adding again the name whose handle is 0 does not replace its object: another handle is
  -- returned, the old object stays at 0, and the name is listed once more.
  pub add_object-duplicates_first :
      (name : String) (t u : A) (rest : List A) (m : ObjectMap A)
      → m.i2o ≡ u ∷ rest
      → lookup name m.n2i ≡ some 0
      → ((add_object name t false m).1 ≢ 0)
        × (get_elem? (add_object name t false m).0.i2o 0 ≡ some u)
        × ((add_object name t false m).0.names ≡ m.names ++ name ∷ [])
  unfolding add_object add_at
  add_object-duplicates_first name t u rest m e f = rw f ((λ z. ground arith), rw e refl, refl)

  -- In a consistent map, after the removal of one name another name still finds the object that it
  -- found before, if at another handle.
  pub find-remove_object :
      (name other : String) (m m' : ObjectMap A) (i : ℕ) (o : Option A)
      → IsConsistent m
      → name ≢ other
      → remove_object name false m ≡ some m'
      → find other false m ≡ some (i, o)
      → (j : ℕ) × (find other false m' ≡ some (j, o))
  unfolding remove_object find
  find-remove_object name other m m' i o c ne e f = elim (Option-cases (lookup name m.n2i)) [
    | inl absent ↦ cc (rw absent at e)
    | inr (k, at) ↦ elim (Option-cases (lookup other m.n2i)) [
      | inl absent ↦ cc (rw absent at f)
      | inr (l, at_l) ↦
          let low = if ltb k l then l - 1 else l in
          let kept : lookup other (without name m.n2i) ≡ some l =
            lookup-without name other m.n2i ∙ rw (str_eq-≢ ne) at_l in
          let now : lookup other (lower_above k (without name m.n2i)) ≡ some low =
            lookup-lower_above k other (without name m.n2i) ∙ rw kept refl in
          let removal : removed (some k) name m ≡ some m' = rw at at e in
          let object : get_elem? m.i2o l ≡ o = cc (rw at_l at f) in
          let apart : k ≢ l = λ same. ne (
            some_injective
              (sym (c.named name k at) ∙ ap (get_elem? m.names) same ∙ c.named other l at_l)) in
          (
            low,
            rw (← (some_injective removal))
                (rw now (ap (λ x. some (low, x)) (get_elem?-erase_at m.i2o k l apart ∙ object))),
          )
    ]
  ]

  -- In a map with one constant object alone, `find` with the object's name and `is_const` does not
  -- find it.
  pub find-add_object_const :
      (name : String) (t : A) → find name true (add_object name t true empty_map).0 ≡ none
  unfolding find add_object add_at lookup insert
  find-add_object_const name t =
      elim (Bool-cases (str_eq (str_append name " (const)") (str_append name "(const)"))) [
        | inl same ↦
            let suffixes : ◌≡◌ {A = String} " (const)" "(const)" =
              append_cancel_left name " (const)" "(const)"
                ((str_eq_iff (str_append name " (const)") (str_append name "(const)")).0 same) in
            let bad : false ≡ true = (str_eq_iff " (const)" "(const)").1 suffixes in cc bad
        | inr other ↦ rw other refl
      ]
