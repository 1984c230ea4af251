-- ===== src/Sim/Lifecycle/Total.antt =====
-- `DDGScheduler::schedule` on actions that match: each datum has one reader and one writer.
use impact.Prelude.{
  ℕ, ◌*◌, ◌<◌, ◌≡◌, refl, String, ℤ, true, false, some, List, [], length, map, slot, In, arith,
}
use impact.Sim.Item.{Heap, fulfilled, fulfilled_input, ok}
use impact.Sim.Ddg.{build_ddg, sanity_check}
use impact.Sim.Ddg.Steps.{IsWf, SameShape}
use impact.Sim.Ddg.Run.{Reads, Writes}
use impact.Sim.Ddg.Links.{IsLinked}
use impact.Sim.Ddg.Coverage.{build_ddg-IsLinked, sanity_check-build_ddg}
use impact.Sim.Ddg.Matched.{IsMatched, Good, Reads-back, Writes-back}
use impact.Sim.Ddg.Total.{build_ddg_total}
use impact.Sim.Topo.{topological_sort}
use impact.Sim.Topo.Total.{IsClosed}
use impact.Sim.Topo.Cycle.{topological_sort_total}
use impact.Sim.Register.{Scheduler}
use impact.Sim.Lifecycle.{Call, actions_of, ddg_schedule}
use impact.Sim.Lifecycle.Reach.{Reach, Reach-IsOrderly}
use impact.Sim.Lifecycle.Scheduled.{IsValid-IsLinked, IsScheduled, ddg_schedule-IsScheduled}

module _ (actions : List ℕ) (h h' : Heap) (matched : IsMatched actions h) (linked : IsLinked h')
    (same : (r : ℕ) → SameShape (h r) (h' r)) where
  link_ends :
      (p i q : ℕ)
      → slot (h' p).input i ≡ some q
      → (j : ℕ) × (attr : String) × (idx : ℤ) × Reads h p i attr idx × Writes h q j attr idx
  link_ends p i q e =
      let (j, l) = linked.inputs p i q e in
      (
        j,
        l.same.attr,
        l.same.idx,
        Reads-back h h' same p i l.same.attr l.same.idx (l.same.read_attr, l.same.read_idx),
        Writes-back h h' same q j l.same.attr l.same.idx (l.same.write_attr, l.same.write_idx),
      )

  IsClosed-of_links : ((p : ℕ) → In p actions → fulfilled (h' p) ≡ true) → IsClosed h' actions
  unfolding fulfilled fulfilled_input
  IsClosed-of_links full = record {
    linked = λ p m. let e = full p m in ground arith;
    inside = λ p i q m e.
        let (j, attr, idx, r, w) = link_ends p i q e in
        let pr = matched.of_write q j attr idx w in rw (pr.only_writer q j w).0 pr.writer_in;
  }

-- A `schedule` all of whose steps return.
ddg_schedule_of :
    (Time : Type 0) (fuel : ℕ) (s : Scheduler) (h' : Heap) (roots' sorted : List ℕ)
    → s.scheduled ≡ false
    → build_ddg fuel s.actions s.roots s.heap ≡ ok (h', roots')
    → sanity_check h' s.actions ≡ ok tt
    → topological_sort h' s.actions [] ≡ ok sorted
    → s.sort ≡ []
    → ddg_schedule Time fuel s
      ≡ ok (
        record s { heap = h'; roots = roots'; sort = sorted; scheduled = true },
        map Call.schedule (actions_of s.heap s.actions),
      )
unfolding ddg_schedule
ddg_schedule_of Time fuel s h' roots' sorted un e sane t fresh = rw (un, e, sane, fresh, t) refl

-- In any state that the methods reach and that is not scheduled, where no item is twice among the
-- actions, each datum that an item reads or writes is read by one read and written by one write, both
-- of items among the actions, and `rank` puts the writer of a datum before its reader,
-- `DDGScheduler::schedule` returns, after at most twice as many rounds of `buildDDG` as there are
-- actions, with each read and write linked to its partner and each action sorted once, behind the
-- actions that it reads from.
pub ddg_schedule_total :
    {Time : Type 0} (s : Scheduler) (rank : ℕ → ℕ)
    → Reach Time s
    → s.scheduled ≡ false
    → IsMatched s.actions s.heap
    → ((p i q j : ℕ) (attr : String) (idx : ℤ)
        → Reads s.heap p i attr idx
        → Writes s.heap q j attr idx
        → rank q < rank p)
    → (s' : Scheduler) × (log : List (Call Time)) × (ddg_schedule Time (2 * length s.actions) s
        ≡ ok (s', log))
      × IsScheduled s s'
ddg_schedule_total {Time} s rank r un matched ranked =
    let o = Reach-IsOrderly r in
    let v = o.valid un in
    let wf : IsWf s.heap = λ p. (v.fresh p).wf in
    let g : Good s.actions s.heap = record {
      wf = wf;
      linked = IsValid-IsLinked s v;
      matched = matched;
    } in
    let ((h', roots'), e) = build_ddg_total s.actions s.roots s.heap g in
    let (linked, full, same) =
      build_ddg-IsLinked (2 * length s.actions) s.actions s.roots s.heap h' roots' wf g.linked e in
    let sane =
      sanity_check-build_ddg (2 * length s.actions) s.actions s.roots s.heap h' roots' wf e in
    let ends = link_ends s.actions s.heap h' matched linked same in
    let (sorted, t) =
      topological_sort_total h' s.actions rank
        (IsClosed-of_links s.actions s.heap h' matched linked same full)
        (λ p i q m lt at.
          let (j, attr, idx, rd, w) = ends p i q at in ranked p i q j attr idx rd w) in
    let run =
      ddg_schedule_of Time (2 * length s.actions) s h' roots' sorted un e sane t (o.unsorted un) in
    (_, _, run, ddg_schedule-IsScheduled {Time = Time} (2 * length s.actions) s _ _ r run)
