-- ===== src/Com/Pane/Numbered.antt =====
-- Which table `connectivity` finds once the offsets are set.
use impact.Prelude.{
  ℕ, zero, suc, ◌+◌, ◌-◌, ◌<◌, ◌≤◌, ◌≡◌, refl, ap, ◌∙◌, true, false, ◌&&◌, some, List, [], ◌∷◌,
  ◌++◌, ltb, leb, arith, Bool-cases, ◌⊎◌, inl, inr,
}
use impact.Com.Pane.{
  Table, refresh, refresh_connectivity, table_of, found, null, failed_assertion, of_option,
  connectivity,
}

-- The number of elements of all tables.
abbrev pub total : List Table → ℕ
total [] = 0
total (c ∷ cs) = c.elements + total cs

pub nelems-refresh : (n g : ℕ) (cs : List Table) → (refresh n g cs).nelems ≡ n + total cs
unfolding refresh
nelems-refresh n g [] = omega arith
nelems-refresh n g (c ∷ cs) = omega (arith, nelems-refresh (n + c.elements) (g + c.ghosts) cs)

pub total-append : (cs ds : List Table) → total (cs ++ ds) ≡ total cs + total ds
total-append [] ds = omega arith
total-append (c ∷ cs) ds = omega (arith, total-append cs ds)

-- A number is above all tables or in one of them.
split :
    (i : ℕ) (cs : List Table)
    → 0 < i
    → ((before : List Table) × (c : Table) × (after : List Table) × (cs ≡ before ++ c ∷ after)
        × (total before < i)
        × (i ≤ total before + c.elements))
      ⊎ (total cs < i)
split i [] positive = inr positive
split i (c ∷ cs) positive = elim (Bool-cases (leb i c.elements)) [
  | inl inside ↦ inl ([], c, cs, refl, positive, ground arith)
  | inr beyond ↦ elim (split (i - c.elements) cs (ground arith)) [
    | inl (before, d, after, e, low, high) ↦
        inl (c ∷ before, d, after, ap (λ ds. c ∷ ds) e, omega arith, omega arith)
    | inr above ↦ inr (omega arith)
  ]
]

table_of-refresh :
    (n g i : ℕ) (before after : List Table) (c : Table)
    → n + total before < i
    → i ≤ n + total before + c.elements
    → table_of i (refresh n g (before ++ c ∷ after)).cnct_set
      ≡ some (record c { offset = n + total before })
unfolding refresh table_of
table_of-refresh n g i [] after c low high =
    let here : ltb n i && leb i (n + c.elements) ≡ true = ground arith in
    let start : n ≡ n + 0 = omega arith in rw here (ap (λ m. some (record c { offset = m })) start)
table_of-refresh n g i (b ∷ before) after c low high =
    let passed : ltb n i && leb i (n + b.elements) ≡ false = ground arith in
    let start : n + b.elements + total before ≡ n + (b.elements + total before) = omega arith in
    rw passed (
      table_of-refresh (n + b.elements) (g + b.ghosts) i before after c (omega arith) (omega arith)
      ∙ ap (λ m. some (record c { offset = m })) start)

-- An element that is among those of one table is found in that table, whatever tables come before
-- and after it; the offset of the table is the number of elements before it.
pub connectivity-refresh :
    (i : ℕ) (before after : List Table) (c : Table)
    → total before < i
    → i ≤ total before + c.elements
    → connectivity i (refresh_connectivity (before ++ c ∷ after))
      ≡ found (record c { offset = total before })
unfolding connectivity
connectivity-refresh i before after c low high =
    let tables = before ++ c ∷ after in
    let within : ltb (refresh_connectivity tables).nelems i ≡ false =
      ground (arith, nelems-refresh 0 0 tables, total-append before (c ∷ after)) in
    let positive : ltb i 1 ≡ false = ground arith in
    let start : 0 + total before ≡ total before = omega arith in
    rw (within, positive)
      (ap of_option (
        table_of-refresh 0 0 i before after c (omega arith) (omega arith)
        ∙ ap (λ m. some (record c { offset = m })) start))

-- The number after all elements has no table.
pub connectivity-total :
    (cs : List Table) → connectivity (suc (total cs)) (refresh_connectivity cs) ≡ null
unfolding connectivity
connectivity-total cs =
    let over : ltb (refresh_connectivity cs).nelems (suc (total cs)) ≡ true =
      ground (arith, nelems-refresh 0 0 cs) in
    let next : leb (suc (total cs)) ((refresh_connectivity cs).nelems + 1) ≡ true =
      ground (arith, nelems-refresh 0 0 cs) in
    rw (over, next) refl

-- What `connectivity` answers for a number: one of four cases.
abbrev pub Answer : ℕ → List Table → Type 0
Answer i cs =
    ((i ≡ 0) × (connectivity i (refresh_connectivity cs) ≡ failed_assertion))
    ⊎ (((c : Table) × (connectivity i (refresh_connectivity cs) ≡ found c)
          × (c.offset < i)
          × (i ≤ c.offset + c.elements)
          × (i ≤ total cs))
        ⊎ (((i ≡ suc (total cs)) × (connectivity i (refresh_connectivity cs) ≡ null))
            ⊎ ((suc (total cs) < i)
                × (connectivity i (refresh_connectivity cs) ≡ failed_assertion))))

-- The element numbers of a pane are those from 1 to the number of elements of its tables: each of
-- them is found in a table, the next one gives NULL and those above fail the assertion, as 0 does.
pub connectivity_cases : (i : ℕ) (cs : List Table) → Answer i cs
unfolding connectivity
connectivity_cases zero cs = inl (refl, ground arith)
connectivity_cases (suc i) cs = elim (split (suc i) cs (omega arith)) [
  | inl (before, c, after, e, low, high) ↦ inr (
      inl (
        record c { offset = total before },
        rw e (connectivity-refresh (suc i) before after c low high),
        low,
        high,
        omega (arith, high, ap total e, total-append before (c ∷ after)),
      ))
  | inr above ↦
      let over : ltb (refresh_connectivity cs).nelems (suc i) ≡ true =
        ground (arith, nelems-refresh 0 0 cs) in
      elim (Bool-cases (leb (suc i) ((refresh_connectivity cs).nelems + 1))) [
        | inl next ↦ inr (inr (inl (ground (arith, nelems-refresh 0 0 cs), rw (over, next) refl)))
        | inr far ↦ inr (inr (inr (ground (arith, nelems-refresh 0 0 cs), rw (over, far) refl)))
      ]
]
