-- ===== src/SurfMap/Dual/Above.antt =====
-- The elements of the nodes above a number.
use impact.Prelude.{
  ℕ, suc, ◌<◌, ◌≤◌, ◌≡◌, refl, List, [], ◌∷◌, length, length-append, All, arith, true, false, ltb,
  ◌==◌, Bool-cases, inl, inr,
}
use impact.Com.UnstructuredNodes.{Element}
use impact.SurfMap.Dual.Pairs.{occurrences, incident_from, above_in, has_above, AllNodes}

above_in-occurrences :
    (e v : ℕ) (row : List ℕ)
    → above_in v row ≡ true
    → (w : ℕ) × (v < w) × (0 < length (occurrences e w row))
above_in-occurrences e v [] h = cc h
above_in-occurrences e v (x ∷ row) h = elim (Bool-cases (ltb v x)) [
  | inl here ↦ let same : (x == x) ≡ true = ground arith in (x, ground arith, rw same (omega arith))
  | inr apart ↦
      let (w, lt, l) = above_in-occurrences e v row (rw apart at h) in (w, lt, ground arith)
]

none_above_in :
    (e v w : ℕ) (row : List ℕ) → above_in v row ≡ false → v < w → length (occurrences e w row) ≡ 0
none_above_in e v w [] h lt = refl
none_above_in e v w (x ∷ row) h lt = elim (Bool-cases (ltb v x)) [
  | inl here ↦ cc (rw here at h)
  | inr apart ↦
      let other : (w == x) ≡ false = ground arith in
      rw other (none_above_in e v w row (rw apart at h) lt)
]

pub has_above-incident_from :
    (e v : ℕ) (rows : List Element)
    → has_above v rows ≡ true
    → (w : ℕ) × (v < w) × (0 < length (incident_from e w rows))
has_above-incident_from e v [] h = cc h
has_above-incident_from e v ((t, row) ∷ rows) h = elim (Bool-cases (above_in v row)) [
  | inl here ↦
      let (w, lt, l) = above_in-occurrences e v row here in
      (w, lt, omega (arith, length-append (occurrences e w row) (incident_from (suc e) w rows), l))
  | inr apart ↦
      let (w, lt, l) = has_above-incident_from (suc e) v rows (rw apart at h) in
      (w, lt, omega (arith, length-append (occurrences e w row) (incident_from (suc e) w rows), l))
]

pub none_above-incident_from :
    (e v w : ℕ) (rows : List Element)
    → has_above v rows ≡ false
    → v < w
    → length (incident_from e w rows) ≡ 0
none_above-incident_from e v w [] h lt = refl
none_above-incident_from e v w ((t, row) ∷ rows) h lt = elim (Bool-cases (above_in v row)) [
  | inl here ↦ cc (rw here at h)
  | inr apart ↦ omega (
    arith,
    length-append (occurrences e w row) (incident_from (suc e) w rows),
    none_above_in e v w row apart lt,
    none_above-incident_from (suc e) v w rows (rw apart at h) lt,
  )
]

none_in_row :
    (n v : ℕ) (row : List ℕ) → n ≤ v → All (λ w. (0 < w) × (w ≤ n)) row → above_in v row ≡ false
none_in_row n v [] le a = refl
none_in_row n v (x ∷ row) le ((p, q), a) =
    let apart : ltb v x ≡ false = ground arith in rw apart (none_in_row n v row le a)

-- No node is above the largest number.
pub none_above-AllNodes :
    (n v : ℕ) (rows : List Element) → n ≤ v → AllNodes n rows → has_above v rows ≡ false
none_above-AllNodes n v [] le a = refl
none_above-AllNodes n v ((t, row) ∷ rows) le (h, a) =
    rw (none_in_row n v row le h) (none_above-AllNodes n v rows le a)
