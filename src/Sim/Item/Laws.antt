-- ===== src/Sim/Item/Laws.antt =====
-- Lemmas on the queries of an `ActionItem`.
use impact.Prelude.{
  ℕ, zero, suc, ◌<◌, ◌≡◌, ◌≢◌, refl, String, ℤ, true, Option, none, some, List, [], ◌∷◌, length,
  set, slot, is_some, get_elem?, arith, str_eq, eq_ℤ, ◌&&◌, Bool-cases, inl, inr, str_eq_iff,
  eq_ℤ_iff,
}
use impact.Sim.Item.{Abort, position, all_linked, Result, ok, err, ◌>>=◌}

-- A chain that succeeds has a first step that does.
pub >>=-eq-ok {ℓ κ} :
    {Value : Type ℓ} {Next : Type κ} (first : Result Value) (rest : Value → Result Next)
    {end : Next}
    → (first >>= rest) ≡ ok end
    → (value : Value) × (first ≡ ok value) × (rest value ≡ ok end)
>>=-eq-ok (err reason) rest e = cc
>>=-eq-ok (ok value) rest e = (value, refl, e)

pub ok_injective {ℓ} : {A : Type ℓ} {a b : A} → ok a ≡ ok b → a ≡ b
ok_injective h = cc

pub err≢ok {ℓ} : {A : Type ℓ} {e : Abort} {a : A} → err e ≢ ok a
err≢ok h = cc

-- What a hit of the search means.
pub position-get_elem? :
    (attr : String) (idx : ℤ) (attrs : List String) (ixs : List ℤ) (i : ℕ)
    → position attr idx attrs ixs ≡ some i
    → (get_elem? attrs i ≡ some attr) × (get_elem? ixs i ≡ some idx)
unfolding position
position-get_elem? attr idx [] ixs i h = cc
position-get_elem? attr idx (a ∷ attrs) [] i h = cc
position-get_elem? attr idx (a ∷ attrs) (x ∷ ixs) zero h =
    ground (arith, str_eq_iff attr a, eq_ℤ_iff idx x)
position-get_elem? attr idx (a ∷ attrs) (x ∷ ixs) (suc i) h =
    ground (arith, position-get_elem? attr idx attrs ixs i)

-- The search finds an entry where there is one.
pub position_total :
    (attr : String) (idx : ℤ) (attrs : List String) (ixs : List ℤ) (i : ℕ)
    → get_elem? attrs i ≡ some attr
    → get_elem? ixs i ≡ some idx
    → (j : ℕ) × (position attr idx attrs ixs ≡ some j)
unfolding position
position_total attr idx [] ixs i e f = cc
position_total attr idx (a ∷ attrs) [] i e f = cc
position_total attr idx (a ∷ attrs) (x ∷ ixs) zero e f =
    (zero, ground (arith, str_eq_iff attr a, eq_ℤ_iff idx x))
position_total attr idx (a ∷ attrs) (x ∷ ixs) (suc i) e f =
    let (j, at) = position_total attr idx attrs ixs i e f in
    elim (Bool-cases (str_eq attr a && eq_ℤ idx x)) [
      | inl here ↦ (zero, rw here refl)
      | inr there ↦ (suc j, rw (there, at) refl)
    ]

-- A linked vector stays linked when a slot is filled.
pub all_linked-set :
    (attrs : List String) (slots : List (Option ℕ)) (i q : ℕ)
    → all_linked attrs slots ≡ true
    → all_linked attrs (set slots i (some q)) ≡ true
unfolding all_linked
all_linked-set [] slots i q h = refl
all_linked-set (a ∷ attrs) [] i q h = cc
all_linked-set (a ∷ attrs) (none ∷ slots) i q h = cc
all_linked-set (a ∷ attrs) (some p ∷ slots) zero q h = h
all_linked-set (a ∷ attrs) (some p ∷ slots) (suc i) q h = all_linked-set attrs slots i q h

pub all_linked-slot :
    (attrs : List String) (slots : List (Option ℕ)) (i : ℕ)
    → all_linked attrs slots ≡ true
    → i < length attrs
    → is_some (slot slots i) ≡ true
unfolding all_linked
all_linked-slot [] slots i h lt = elim lt [ ]
all_linked-slot (a ∷ attrs) [] i h lt = cc
all_linked-slot (a ∷ attrs) (none ∷ slots) i h lt = cc
all_linked-slot (a ∷ attrs) (some p ∷ slots) zero h lt = refl
all_linked-slot (a ∷ attrs) (some p ∷ slots) (suc i) h lt =
    all_linked-slot attrs slots i h (omega arith)

pub slot-all_linked :
    (attrs : List String) (slots : List (Option ℕ))
    → ((i : ℕ) → i < length attrs → is_some (slot slots i) ≡ true)
    → all_linked attrs slots ≡ true
unfolding all_linked
slot-all_linked [] slots h = refl
slot-all_linked (a ∷ attrs) [] h = h zero (omega arith)
slot-all_linked (a ∷ attrs) (none ∷ slots) h = h zero (omega arith)
slot-all_linked (a ∷ attrs) (some p ∷ slots) h =
    slot-all_linked attrs slots (λ i lt. h (suc i) (omega arith))
