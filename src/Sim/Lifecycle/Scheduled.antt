-- ===== src/Sim/Lifecycle/Scheduled.antt =====
-- What `DDGScheduler::schedule` establishes.
use mathlib.Core.List.{Perm}
use impact.Prelude.{
  ℕ, zero, suc, ◌<◌, ◌≡◌, refl, sym, ap, ◌∙◌, Bool, true, false, Option, some, List, [], ◌∷◌,
  length, get_elem?, In, erase_at, length-erase_at, lt_of_get_elem?, arith, Option-cases, inl, inr,
}
use impact.Sim.Item.{Heap, fulfilled, ok}
use impact.Sim.Item.Laws.{>>=-eq-ok, ok_injective, err≢ok}
use impact.Sim.Ddg.{
  link_action, advance, ddg_round, ddg_loop, Exit, returned, emptied, collect_roots, roots_after,
  build_ddg,
}
use impact.Sim.Ddg.Steps.{SameShape}
use impact.Sim.Ddg.Links.{IsLinked}
use impact.Sim.Ddg.Coverage.{build_ddg-IsLinked}
use impact.Sim.Topo.Order.{IsSortedFrom, topological_sort-IsSortedFrom}
use impact.Sim.Register.{Scheduler}
use impact.Sim.Register.Valid.{IsValid}
use impact.Sim.Lifecycle.{Call, ddg_schedule}
use impact.Sim.Lifecycle.Reach.{Reach, Reach-IsOrderly, ddg_schedule-eq-ok}

-- No pointer is set in a valid scheduler, so each is half of a double link.
pub IsValid-IsLinked : (s : Scheduler) → IsValid s → IsLinked s.heap
IsValid-IsLinked s v = record {
  inputs = λ p i q e. cc ((v.fresh p).no_input i);
  outputs = λ q j p e. cc ((v.fresh q).no_output j);
}

-- The state that a successful `schedule` leaves.
pub record IsScheduled (s s' : Scheduler) : Type 0 where
  pub flag : s'.scheduled ≡ true
  pub actions : s'.actions ≡ s.actions
  pub linked : IsLinked s'.heap
  pub full : (p : ℕ) → In p s.actions → fulfilled (s'.heap p) ≡ true
  pub shape : (p : ℕ) → SameShape (s.heap p) (s'.heap p)
  pub same_items : Perm s'.sort s.actions
  pub sorted : IsSortedFrom s'.heap [] s'.sort

-- From any state that the methods reach, a `DDGScheduler::schedule` that returns has linked each
-- read and write of the actions to one write or read of the same data and back, has changed no
-- registered data, and has put each action once for each time it was added into `sort`, behind the
-- actions that it reads from.
pub ddg_schedule-IsScheduled :
    {Time : Type 0} (fuel : ℕ) (s s' : Scheduler) (log : List (Call Time))
    → Reach Time s
    → ddg_schedule Time fuel s ≡ ok (s', log)
    → IsScheduled s s'
ddg_schedule-IsScheduled {Time} fuel s s' log r e =
    let (un, (h', roots'), x, sorted, y, same) = ddg_schedule-eq-ok Time fuel s s' log e in
    let o = Reach-IsOrderly r in
    let v = o.valid un in
    let (k, f, sh) =
      build_ddg-IsLinked fuel s.actions s.roots s.heap h' roots' (λ p. (v.fresh p).wf)
        (IsValid-IsLinked s v) x in
    let (w, d) = topological_sort-IsSortedFrom h' s.actions sorted (rw (o.unsorted un) at y) in
    rw (← same) (record {
      flag = refl;
      actions = refl;
      linked = k;
      full = f;
      shape = sh;
      same_items = w;
      sorted = d;
    })

-- The loop of `buildDDG` leaves a pool that is not empty by `return` alone.
advance_nonempty :
    (pool : List ℕ) (k : ℕ) (b : Bool) (pool' : List ℕ) (k' : ℕ)
    → 0 < length pool
    → k < length pool
    → advance pool k b ≡ some (pool', k')
    → 0 < length pool'
unfolding advance
advance_nonempty pool k false pool' k' n lt e =
    let same : pool ≡ pool' = ground arith in rw (← same) n
advance_nonempty pool k true pool' k' n lt e =
    let same : erase_at pool k ≡ pool' = ground arith in
    rw (← same) (ground (arith, length-erase_at pool k lt))

ddg_round-eq-ok :
    (pool : List ℕ) (k : ℕ) (h : Heap) (done : Heap × Option (List ℕ × ℕ))
    → ddg_round pool k h ≡ ok done
    → (k < length pool) × (b : Bool) × (done.1 ≡ advance pool k b)
unfolding ddg_round
ddg_round-eq-ok pool k h done e = elim (Option-cases (get_elem? pool k)) [
  | inl absent ↦ absurd (err≢ok (rw (absent, ddg_round) at e))
  | inr (act, at_k) ↦
      let (h', x, y) = >>=-eq-ok (link_action act pool h) _ (rw (at_k, ddg_round) at e) in
      (lt_of_get_elem? pool k at_k, fulfilled (h' act), rw (← ok_injective y) refl)
]

ddg_loop_returned :
    (fuel : ℕ) (pool : List ℕ) (k : ℕ) (h : Heap) (done : Heap × Exit)
    → 0 < length pool
    → ddg_loop fuel pool k h ≡ ok done
    → done.1 ≡ returned
unfolding ddg_loop
ddg_loop_returned fuel [] k h done n e = elim n [ ]
ddg_loop_returned zero (p ∷ ps) k h done n e = cc
ddg_loop_returned (suc fuel) (p ∷ ps) k h done n e =
    let ((h', next), x, y) = >>=-eq-ok (ddg_round (p ∷ ps) k h) _ e in
    let (lt, b, adv) = ddg_round-eq-ok (p ∷ ps) k h (h', next) x in
    elim (Option-cases next) [
      | inl last ↦ rw (← ok_injective (rw last at y)) refl
      | inr ((pool', k'), more) ↦
          ddg_loop_returned fuel pool' k' h' done
            (advance_nonempty (p ∷ ps) k b pool' k' n lt (sym adv ∙ more)) (rw more at y)
    ]

-- A `buildDDG` that returns leaves `roots` as it was: no action is ever entered in it.
pub roots-build_ddg :
    (fuel : ℕ) (actions roots : List ℕ) (h h' : Heap) (roots' : List ℕ)
    → build_ddg fuel actions roots h ≡ ok (h', roots')
    → roots' ≡ roots
unfolding build_ddg collect_roots
roots-build_ddg fuel [] roots h h' roots' e =
    let (done, x, y) = >>=-eq-ok (ddg_loop fuel [] 0 h) _ e in
    let f = ap (λ (t : Heap × List ℕ). t.1) (ok_injective y) in sym f ∙ roots_after_nil done roots
  where
    roots_after_nil :
        (done : Heap × Exit) (roots : List ℕ) → roots_after done.1 [] roots done.0 ≡ roots
    roots_after_nil (g, returned) roots = refl
    roots_after_nil (g, emptied) roots = refl
roots-build_ddg fuel (p ∷ ps) roots h h' roots' e =
    let (done, x, y) = >>=-eq-ok (ddg_loop fuel (p ∷ ps) 0 h) _ e in
    let f = ap (λ (t : Heap × List ℕ). t.1) (ok_injective y) in
    sym f
    ∙ ap (λ z. roots_after z (p ∷ ps) roots done.0)
        (ddg_loop_returned fuel (p ∷ ps) 0 h done (omega arith) x)
