-- ===== src/Sim/Ddg/Fill.antt =====
-- One round of `buildDDG` on actions that match: the links of one action.
use impact.Prelude.{
  ℕ, zero, suc, ◌+◌, ◌<◌, ◌≡◌, refl, ap, ◌∙◌, String, ℤ, true, false, Option, none, some, List, [],
  ◌∷◌, length, slot, is_some, lt_of_get_elem?, In, arith, Option-cases, Bool-cases, inl, inr, ltb,
}
use Prim.Native.Nat.add
use impact.Sim.Item.{
  Abort, no_matching_output, no_matching_input, Heap, n_read, n_write, fulfilled, fulfilled_input,
  all_linked, ok, ◌>>=◌,
}
use impact.Sim.Item.Laws.{all_linked-slot, slot-all_linked}
use impact.Sim.Ddg.{fill_read, fill_write, fill_reads, fill_writes, link_action, linked_or}
use impact.Sim.Ddg.Run.{
  Steps-shape, fill_read-Runs, fill_write-Runs, Suffix, Suffix-tail, fill_reads-Runs,
  fill_writes-Runs,
}
use impact.Sim.Ddg.Links.{Steps-input, Steps-output}
use impact.Sim.Ddg.Coverage.{IsCovered, IsCovered-Steps}
use impact.Sim.Ddg.Matched.{NoRepeat, Pairing, Good, Good-Steps}
use impact.Sim.Ddg.Search.{
  null_output, null_input, read_linked, write_linked, read_linked-input, write_linked-output,
  search_writers_total, search_readers_total,
}

linked_or_some : (e : Abort) (o : Option ℕ) (h : Heap) → is_some o ≡ true → linked_or e o h ≡ ok h
linked_or_some e none h x = cc
linked_or_some e (some p) h x = refl

module _ (actions : List ℕ) (h : Heap) (g : Good actions h) (attr : String) (idx : ℤ)
    (pr : Pairing h actions attr idx) where
  -- The partner of a null slot is not fulfilled, so it is still in the pool.
  writer_waits :
      (pool : List ℕ)
      → IsCovered actions pool h
      → slot (h pr.reader).input pr.read ≡ none
      → In pr.writer pool
  unfolding fulfilled
  writer_waits pool cov e = elim (cov pr.writer pr.writer_in) [
    | inl waits ↦ waits
    | inr full ↦
        let linked : all_linked (h pr.writer).write_attr (h pr.writer).output ≡ true =
          ground arith in
        let set : is_some (slot (h pr.writer).output pr.write) ≡ true =
          all_linked-slot _ _ pr.write linked
            (lt_of_get_elem? (h pr.writer).write_attr pr.write pr.writes.0) in
        cc (set, null_output actions h g attr idx pr e)
  ]

  reader_waits :
      (pool : List ℕ)
      → IsCovered actions pool h
      → slot (h pr.writer).output pr.write ≡ none
      → In pr.reader pool
  unfolding fulfilled
  reader_waits pool cov e = elim (cov pr.reader pr.reader_in) [
    | inl waits ↦ waits
    | inr full ↦
        let linked : all_linked (h pr.reader).read_attr (h pr.reader).input ≡ true = ground arith in
        let set : is_some (slot (h pr.reader).input pr.read) ≡ true =
          all_linked-slot _ _ pr.read linked
            (lt_of_get_elem? (h pr.reader).read_attr pr.read pr.reads.0) in
        cc (set, null_input actions h g attr idx pr e)
  ]

  fill_paired_read :
      (pool : List ℕ)
      → NoRepeat pool
      → IsCovered actions pool h
      → (h' : Heap) × (fill_read pr.reader pr.read attr idx pool h ≡ ok h')
        × (is_some (slot (h' pr.reader).input pr.read) ≡ true)
  unfolding fill_read
  fill_paired_read pool n cov = elim (Option-cases (slot (h pr.reader).input pr.read)) [
    | inl free ↦ (
      (read_linked actions h g attr idx pr),
      rw free (
          ap (λ m. m >>= λ h'. linked_or no_matching_output (slot (h' pr.reader).input pr.read) h')
            (search_writers_total actions h g attr idx pr pool n (writer_waits pool cov free) free)
          ∙ linked_or_some no_matching_output _ (read_linked actions h g attr idx pr)
              (read_linked-input actions h g attr idx pr)),
      (read_linked-input actions h g attr idx pr),
    )
    | inr (q, full) ↦ (h, rw full refl, rw full refl)
  ]

  fill_paired_write :
      (pool : List ℕ)
      → NoRepeat pool
      → IsCovered actions pool h
      → (h' : Heap) × (fill_write pr.writer pr.write attr idx pool h ≡ ok h')
        × (is_some (slot (h' pr.writer).output pr.write) ≡ true)
  unfolding fill_write
  fill_paired_write pool n cov = elim (Option-cases (slot (h pr.writer).output pr.write)) [
    | inl free ↦ (
      (write_linked actions h g attr idx pr),
      rw free (
          ap (λ m. m >>= λ h'. linked_or no_matching_input (slot (h' pr.writer).output pr.write) h')
            (search_readers_total actions h g attr idx pr pool n (reader_waits pool cov free) free)
          ∙ linked_or_some no_matching_input _ (write_linked actions h g attr idx pr)
              (write_linked-output actions h g attr idx pr)),
      (write_linked-output actions h g attr idx pr),
    )
    | inr (q, full) ↦ (h, rw full refl, rw full refl)
  ]

module _ (actions : List ℕ) (pool : List ℕ) (n : NoRepeat pool) (h : Heap) (act i : ℕ)
    (attr : String) (idx : ℤ) (pr : Pairing h actions attr idx) (g : Good actions h)
    (cov : IsCovered actions pool h) where
  fill_read_at :
      act ≡ pr.reader
      → i ≡ pr.read
      → (h' : Heap) × (fill_read act i attr idx pool h ≡ ok h')
        × (is_some (slot (h' act).input i) ≡ true)
  fill_read_at x y = rw (x, y) (fill_paired_read actions h g attr idx pr pool n cov)

  fill_write_at :
      act ≡ pr.writer
      → i ≡ pr.write
      → (h' : Heap) × (fill_write act i attr idx pool h ≡ ok h')
        × (is_some (slot (h' act).output i) ≡ true)
  fill_write_at x y = rw (x, y) (fill_paired_write actions h g attr idx pr pool n cov)

-- The slots from the first on, once it is set and so are the others.
abbrev AllSet : (ℕ → Option ℕ) → ℕ → ℕ → Type 0
AllSet slot_at i n = (k : ℕ) → k < n → is_some (slot_at (i + k)) ≡ true

AllSet-zero :
    (slot_at : ℕ → Option ℕ) (n : ℕ)
    → AllSet slot_at 0 n
    → (k : ℕ) → k < n
    → is_some (slot_at k) ≡ true
AllSet-zero slot_at n full k lt = let e : 0 + k ≡ k = omega arith in rw e at (full k lt)

AllSet-suc :
    (slot_at : ℕ → Option ℕ) (i n : ℕ)
    → is_some (slot_at i) ≡ true
    → AllSet slot_at (suc i) n
    → AllSet slot_at i (suc n)
AllSet-suc slot_at i n full rest zero lt = let e : i + 0 ≡ i = omega arith in rw e full
AllSet-suc slot_at i n full rest (suc k) lt =
    let e : i + suc k ≡ suc i + k = omega arith in rw e (rest k (omega arith))

module _ (actions : List ℕ) (act : ℕ) (pool : List ℕ) (n : NoRepeat pool) where
  fill_reads_total :
      (i : ℕ) (attrs : List String) (ixs : List ℤ) (h : Heap)
      → Good actions h
      → IsCovered actions pool h
      → length ixs ≡ length attrs
      → Suffix i attrs (h act).read_attr
      → Suffix i ixs (h act).read_idx
      → (h' : Heap) × (fill_reads act i attrs ixs pool h ≡ ok h')
        × AllSet (slot (h' act).input) i (length attrs)
  unfolding fill_reads
  fill_reads_total i [] ixs h g cov len sa si = (h, refl, λ k lt. absurd (omega arith))
  fill_reads_total i (a ∷ attrs) [] h g cov len sa si = absurd (omega arith)
  fill_reads_total i (a ∷ attrs) (x ∷ ixs) h g cov len sa si =
      let (ha, ta) = Suffix-tail i a attrs (h act).read_attr sa in
      let (hx, tx) = Suffix-tail i x ixs (h act).read_idx si in
      let pr = g.matched.of_read act i a x (ha, hx) in
      let (same_p, same_i) = pr.only_reader act i (ha, hx) in
      let (h1, e1, full) = fill_read_at actions pool n h act i a x pr g cov same_p same_i in
      let s = fill_read-Runs act i a x pool h g.wf (ha, hx) h1 e1 in
      let g1 = Good-Steps actions s g in
      let sa1 : Suffix (suc i) attrs (h1 act).read_attr = rw (Steps-shape s act).read_attr ta in
      let si1 : Suffix (suc i) ixs (h1 act).read_idx = rw (Steps-shape s act).read_idx tx in
      let (h2, e2, rest) =
        fill_reads_total (suc i) attrs ixs h1 g1 (IsCovered-Steps actions pool s cov) (omega arith)
          sa1 si1 in
      let later = fill_reads-Runs act pool (suc i) attrs ixs h1 g1.wf sa1 si1 h2 e2 in
      (
        h2,
        rw e1 e2,
        AllSet-suc (slot (h2 act).input) i (length attrs) (Steps-input later act i full) rest,
      )

  fill_writes_total :
      (i : ℕ) (attrs : List String) (ixs : List ℤ) (h : Heap)
      → Good actions h
      → IsCovered actions pool h
      → length ixs ≡ length attrs
      → Suffix i attrs (h act).write_attr
      → Suffix i ixs (h act).write_idx
      → (h' : Heap) × (fill_writes act i attrs ixs pool h ≡ ok h')
        × AllSet (slot (h' act).output) i (length attrs)
  unfolding fill_writes
  fill_writes_total i [] ixs h g cov len sa si = (h, refl, λ k lt. absurd (omega arith))
  fill_writes_total i (a ∷ attrs) [] h g cov len sa si = absurd (omega arith)
  fill_writes_total i (a ∷ attrs) (x ∷ ixs) h g cov len sa si =
      let (ha, ta) = Suffix-tail i a attrs (h act).write_attr sa in
      let (hx, tx) = Suffix-tail i x ixs (h act).write_idx si in
      let pr = g.matched.of_write act i a x (ha, hx) in
      let (same_p, same_i) = pr.only_writer act i (ha, hx) in
      let (h1, e1, full) = fill_write_at actions pool n h act i a x pr g cov same_p same_i in
      let s = fill_write-Runs act i a x pool h g.wf (ha, hx) h1 e1 in
      let g1 = Good-Steps actions s g in
      let sa1 : Suffix (suc i) attrs (h1 act).write_attr = rw (Steps-shape s act).write_attr ta in
      let si1 : Suffix (suc i) ixs (h1 act).write_idx = rw (Steps-shape s act).write_idx tx in
      let (h2, e2, rest) =
        fill_writes_total (suc i) attrs ixs h1 g1 (IsCovered-Steps actions pool s cov) (omega arith)
          sa1 si1 in
      let later = fill_writes-Runs act pool (suc i) attrs ixs h1 g1.wf sa1 si1 h2 e2 in
      (
        h2,
        rw e1 e2,
        AllSet-suc (slot (h2 act).output) i (length attrs) (Steps-output later act i full) rest,
      )

  -- A round returns, and the inputs of its action are all set.
  pub link_action_total :
      (h : Heap)
      → Good actions h
      → IsCovered actions pool h
      → (h' : Heap) × (link_action act pool h ≡ ok h') × (fulfilled_input (h' act) ≡ true)
  unfolding link_action fulfilled_input all_linked
  link_action_total h g cov = elim (Bool-cases (ltb 0 (n_read (h act)))) [
    | inl r ↦
        let (h1, e, full) =
          fill_reads_total 0 (h act).read_attr (h act).read_idx h g cov (g.wf act).read_idx
            (λ k. rw add.zero) (λ k. rw add.zero) in
        let s = fill_reads-Runs act pool 0 _ _ h g.wf (λ k. rw add.zero) (λ k. rw add.zero) h1 e in
        (
          h1,
          rw r e,
          rw (Steps-shape s act).read_attr
              (slot-all_linked _ _ (AllSet-zero (slot (h1 act).input) _ full)),
        )
    | inr nr ↦ elim (Bool-cases (ltb 0 (n_write (h act)))) [
      | inl w ↦
          let (h1, e, full) =
            fill_writes_total 0 (h act).write_attr (h act).write_idx h g cov (g.wf act).write_idx
              (λ k. rw add.zero) (λ k. rw add.zero) in
          let s =
            fill_writes-Runs act pool 0 _ _ h g.wf (λ k. rw add.zero) (λ k. rw add.zero) h1 e in
          (h1, rw (nr, w) e, rw ((Steps-shape s act).read_attr, none_read h nr) refl)
      | inr nw ↦ (h, rw (nr, nw) refl, rw (none_read h nr) refl)
    ]
  ]
    where
      none_read : (h : Heap) → ltb 0 (n_read (h act)) ≡ false → (h act).read_attr ≡ []
      none_read h e = empty (h act).read_attr e
        where
          empty : (xs : List String) → ltb 0 (length xs) ≡ false → xs ≡ []
          empty [] e = refl
          empty (x ∷ xs) e = ground arith
