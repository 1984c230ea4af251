-- ===== src/Mesh/Neighbors/Shared.antt =====
-- `GetNeighborhood` and `GetAdjacent` on the inverse of a table: the elements that share a node.
use impact.Prelude.{
  ℕ, zero, suc, ◌+◌, ◌<◌, ◌≤◌, ◌≡◌, refl, sym, ap, ◌∙◌, Bool, true, false, not, ◌&&◌, ◌||◌, List,
  [], ◌∷◌, length, length-set, ltb, arith, ◌==◌, if◌then◌else◌, ◌⊎◌, inl, inr,
}
use impact.Mesh.Table.{done, Connectivity, new_connectivity, resize_to}
use impact.Mesh.Table.Cached.{IsSynced}
use impact.Mesh.Dual.{inverse}
use impact.Mesh.Dual.Counts.{count, row_at, AllIds}
use impact.Mesh.Dual.Inverse.{count-inverse, All-of_count}
use impact.Mesh.Neighbors.{
  Gathering, gather, clear_added, in_order, without_self, unmark_self, neighbor_rows,
  get_neighborhood, get_adjacent,
}
use impact.Mesh.Neighbors.Gathered.{
  InRange, mem, mem-count, one_if, flag, touches, flag-set, flag_in_range, IsGathering,
  gather_total, count-sort_ids, count-remove_id, clear_added_total,
}

-- No flag is set.
abbrev AllClear : ℕ → List Bool → Type 0
AllClear n added = (length added ≡ n) × ((f : ℕ) → flag f added ≡ false)

count-in_order : (f : ℕ) (sortit : Bool) (xs : List ℕ) → count f (in_order sortit xs) ≡ count f xs
count-in_order f true xs = count-sort_ids f xs
count-in_order f false xs = refl

count-without_self :
    (f : ℕ) (exclude : Bool) (i : ℕ) (xs : List ℕ)
    → count f (without_self exclude i xs) ≡ (if exclude && f == suc i then 0 else count f xs)
count-without_self f true i xs = count-remove_id f (suc i) xs
count-without_self f false i xs = refl

flag-unmark_self :
    (f : ℕ) (exclude : Bool) (i : ℕ) (added : List Bool)
    → (i < length added) ⊎ (exclude ≡ false)
    → flag f (unmark_self exclude i added) ≡ (if exclude && f == suc i then false else flag f added)
flag-unmark_self f true i added (inl lt) = flag-set added i f false lt
flag-unmark_self f true i added (inr e) = cc
flag-unmark_self f false i added lt = refl

length-unmark_self :
    (exclude : Bool) (i : ℕ) (added : List Bool)
    → length (unmark_self exclude i added) ≡ length added
length-unmark_self true i added = length-set added i false
length-unmark_self false i added = refl

module _ (exclude sortit : Bool) (dc : List (List ℕ)) (n : ℕ) (ids : AllIds n dc) where
  -- What is kept for one element, and that the flags are clear again.
  row_total :
      (i : ℕ) (nodes : List ℕ) (added : List Bool)
      → (i < n) ⊎ (exclude ≡ false)
      → InRange (length dc) nodes
      → AllClear n added
      → (s : Gathering) × (added' : List Bool) × (gather nodes dc
            (record { added = added; nbrs = [] })
          ≡ done s)
        × (clear_added
              (without_self exclude i (in_order sortit s.nbrs))
              (unmark_self exclude i s.added)
            ≡ done added')
        × AllClear n added'
        × ((f : ℕ)
            → count f (without_self exclude i (in_order sortit s.nbrs))
              ≡ one_if (touches f nodes dc && not (exclude && f == suc i)))
  row_total i nodes added lt a (len, clear) =
      let start : IsGathering n (record { added = added; nbrs = [] }) = record {
        sized = len;
        counted = λ f. rw (clear f) refl;
      } in
      let (s, e, g, flags) =
        gather_total n nodes dc (record { added = added; nbrs = [] }) start a ids in
      let kept = without_self exclude i (in_order sortit s.nbrs) in
      let inside : (i < length s.added) ⊎ (exclude ≡ false) = elim lt [
        | inl below ↦ inl (omega (arith, g.sized))
        | inr keeps ↦ inr keeps
      ] in
      let counted : (f : ℕ)
          → count f kept ≡ (if exclude && f == suc i then 0 else one_if (flag f s.added)) =
        λ f.
          count-without_self f exclude i (in_order sortit s.nbrs)
          ∙ ap (λ k. if exclude && f == suc i then 0 else k)
              (count-in_order f sortit s.nbrs ∙ g.counted f) in
      let range : InRange n kept = All-of_count n kept (λ f pos.
        let set_flag : flag f s.added ≡ true = ground (arith, counted f) in
        let (x, y) = flag_in_range s.added f set_flag in (x, omega (arith, g.sized))) in
      let (added', e', len', flags') =
        clear_added_total n kept (unmark_self exclude i s.added)
          (length-unmark_self exclude i s.added ∙ g.sized) range in
      (
        s,
        added',
        e,
        e',
        (
          len',
          λ f. ground (
            arith,
            flags' f,
            mem-count f kept,
            counted f,
            flag-unmark_self f exclude i s.added inside,
          ),
        ),
        λ f. ground (arith, counted f, flags f, clear f),
      )

  neighbor_rows_total :
      (m i : ℕ) (rows : List (List ℕ)) (added : List Bool)
      → m ≡ length rows
      → (i + m ≤ n) ⊎ (exclude ≡ false)
      → AllIds (length dc) rows
      → AllClear n added
      → (res : List (List ℕ)) × (neighbor_rows exclude sortit m i rows dc added ≡ done res)
        × (length res ≡ m)
        × ((k f : ℕ)
            → k < m
            → count f (row_at res (suc k))
              ≡ one_if (touches f (row_at rows (suc k)) dc && not (exclude && f == suc (i + k))))
  unfolding neighbor_rows
  neighbor_rows_total zero i rows added len le a clear =
      ([], refl, refl, λ k f lt. absurd (omega arith))
  neighbor_rows_total (suc m) i [] added len le a clear = absurd (omega arith)
  neighbor_rows_total (suc m) i (row ∷ rows) added len le (r, a) clear =
      let below : (i < n) ⊎ (exclude ≡ false) = elim le [
        | inl fits ↦ inl (omega arith)
        | inr keeps ↦ inr keeps
      ] in
      let left : (suc i + m ≤ n) ⊎ (exclude ≡ false) = elim le [
        | inl fits ↦ inl (omega arith)
        | inr keeps ↦ inr keeps
      ] in
      let (s, added', e, e', clear', counted) = row_total i row added below r clear in
      let (res, x, len', rest) =
        neighbor_rows_total m (suc i) rows added' (omega arith) left a clear' in
      (
        without_self exclude i (in_order sortit s.nbrs) ∷ res,
        rw (e, e', x) refl,
        omega arith,
        λ k f lt. each (without_self exclude i (in_order sortit s.nbrs)) res counted rest k f lt,
      )
    where
      each :
          (kept : List ℕ) (res : List (List ℕ))
          → ((f : ℕ) → count f kept ≡ one_if (touches f row dc && not (exclude && f == suc i)))
          → ((k f : ℕ)
              → k < m
              → count f (row_at res (suc k))
                ≡ one_if
                    (touches f (row_at rows (suc k)) dc && not (exclude && f == suc (suc i + k))))
          → (k f : ℕ) → k < suc m
          → count f (row_at (kept ∷ res) (suc k))
            ≡ one_if
                (touches f (row_at (row ∷ rows) (suc k)) dc && not (exclude && f == suc (i + k)))
      each kept res counted rest zero f lt = let e : i + 0 ≡ i = omega arith in rw e (counted f)
      each kept res counted rest (suc k) f lt =
          let e : i + suc k ≡ suc i + k = omega arith in rw e (rest k f (omega arith))

-- Two lists of nodes have one in common.
abbrev pub shares : List ℕ → List ℕ → Bool
shares [] ys = false
shares (v ∷ xs) ys = mem v ys || shares xs ys

touches-inverse :
    (f : ℕ) (nodes : List ℕ) (dc rows : List (List ℕ))
    → ((v e : ℕ) → count e (row_at dc v) ≡ count v (row_at rows e))
    → touches f nodes dc ≡ shares nodes (row_at rows f)
touches-inverse f [] dc rows same = refl
touches-inverse f (v ∷ nodes) dc rows same =
    let here : mem f (row_at dc v) ≡ mem v (row_at rows f) =
      mem-count f (row_at dc v)
      ∙ ap (λ k. ltb 0 k) (same v f)
      ∙ sym (mem-count v (row_at rows f)) in
    rw (here, touches-inverse f nodes dc rows same) refl

length_flags : (n : ℕ) → length (resize_to n false []) ≡ n
length_flags zero = refl
length_flags (suc n) = ap suc (length_flags n)

flag_flags : (n f : ℕ) → flag f (resize_to n false []) ≡ false
flag_flags zero zero = refl
flag_flags zero (suc f) = refl
flag_flags (suc n) zero = refl
flag_flags (suc n) (suc zero) = refl
flag_flags (suc n) (suc (suc f)) = flag_flags n (suc f)

-- For a table of elements whose count is right and whose nodes are numbered from 1 to `nnodes`,
-- `Inverse` and then `GetNeighborhood` return a table that lists for each element, once and whether
-- sorted or not, the elements that have a node in common with it, without itself where it is to be
-- excluded.
pub get_neighborhood-inverse :
    (exclude sortit : Bool) (fuel nnodes : ℕ) (c rl : Connectivity)
    → IsSynced c
    → 0 < nnodes
    → AllIds nnodes c.rows
    → (d : Connectivity) × (nbrs : Connectivity) × (inverse fuel nnodes c new_connectivity ≡ done d)
      × (get_neighborhood exclude sortit c d rl ≡ done nbrs)
      × (nbrs.nelem ≡ c.nelem)
      × ((e f : ℕ)
          → 0 < e
          → e ≤ c.nelem
          → count f (row_at nbrs.rows e)
            ≡ one_if (shares (row_at c.rows e) (row_at c.rows f) && not (exclude && f == e)))
unfolding get_neighborhood
get_neighborhood-inverse exclude sortit fuel nnodes c rl synced pos ids =
    let (d, x, s, n, back, same) = count-inverse fuel nnodes c synced pos ids in
    let in_dual : AllIds (length d.rows) c.rows = rw (sym s ∙ n) ids in
    let (rows, e, len, f) =
      neighbor_rows_total exclude sortit d.rows c.nelem back c.nelem 0 c.rows
        (resize_to c.nelem false []) synced (inl (omega arith)) in_dual
        (length_flags c.nelem, flag_flags c.nelem) in
    (d, record rl { nelem = c.nelem; rows = rows }, x, rw e refl, refl, each d rows same f)
  where
    each :
        (d : Connectivity) (rows : List (List ℕ))
        → ((v e : ℕ) → count e (row_at d.rows v) ≡ count v (row_at c.rows e))
        → ((k g : ℕ)
            → k < c.nelem
            → count g (row_at rows (suc k))
              ≡ one_if
                  (touches g (row_at c.rows (suc k)) d.rows && not (exclude && g == suc (0 + k))))
        → (e g : ℕ) → 0 < e
        → e ≤ c.nelem
        → count g (row_at rows e)
          ≡ one_if (shares (row_at c.rows e) (row_at c.rows g) && not (exclude && g == e))
    each d rows same f zero g lt le = absurd (omega arith)
    each d rows same f (suc k) g lt le =
        let shift : 0 + k ≡ k = omega arith in
        let t = touches-inverse g (row_at c.rows (suc k)) d.rows c.rows same in
        f k g (omega arith)
        ∙ ap (λ z. one_if (touches g (row_at c.rows (suc k)) d.rows && not (exclude && g == suc z)))
            shift
        ∙ ap (λ b. one_if (b && not (exclude && g == suc k))) t

-- For a table `c` whose count is right, a table `dc` that has a row for each of its entries, and `n`
-- at least every entry of `dc`, `GetAdjacent` returns a table that lists for each row of `c`, once and
-- whether sorted or not, the entries of the rows of `dc` that it names.
pub count-get_adjacent :
    (fuel n : ℕ) (sortit : Bool) (c dc rl : Connectivity)
    → IsSynced c
    → 0 < n
    → AllIds (length dc.rows) c.rows
    → AllIds n dc.rows
    → (adj : Connectivity) × (get_adjacent fuel n sortit c dc rl ≡ done adj)
      × (adj.nelem ≡ c.nelem)
      × ((k f : ℕ)
          → k < c.nelem
          → count f (row_at adj.rows (suc k)) ≡ one_if (touches f (row_at c.rows (suc k)) dc.rows))
unfolding get_adjacent
count-get_adjacent fuel zero sortit c dc rl synced pos inside ids = absurd (omega arith)
count-get_adjacent fuel (suc n) sortit c dc rl synced pos inside ids =
    let (rows, e, len, f) =
      neighbor_rows_total false sortit dc.rows (suc n) ids c.nelem 0 c.rows
        (resize_to (suc n) false []) synced (inr refl) inside
        (length_flags (suc n), flag_flags (suc n)) in
    (
      record rl { nelem = c.nelem; rows = rows },
      rw e refl,
      refl,
      λ k g lt. ground (arith, f k g lt),
    )
