-- ===== src/Sim/Lifecycle/Reach.antt =====
-- The states that the methods of a scheduler reach, and what holds of them.
use impact.Prelude.{ℕ, ◌≡◌, refl, ap, ◌∙◌, true, false, List, [], ◌∷◌, arith, Bool-cases, inl, inr}
use impact.Sim.Item.{Heap, ok}
use impact.Sim.Item.Laws.{>>=-eq-ok, ok_injective, err≢ok}
use impact.Sim.Ddg.{build_ddg, sanity_check}
use impact.Sim.Topo.{topological_sort}
use impact.Sim.Register.{
  Action, Scheduler, new_scheduler, declare_item, declare, reads, writes, push_item, add_action,
  ActionData, ActionDataIntent, in_data, out_data,
}
use impact.Sim.Register.Valid.{IsValid, add_action-IsValid, new_scheduler-IsValid}
use impact.Sim.Lifecycle.{
  Call, ddg_schedule, user_schedule, init_actions, run_actions, finalize_actions, restarting,
}

-- What a `ddg_schedule` that returns went through.
pub ddg_schedule-eq-ok :
    (Time : Type 0) (fuel : ℕ) (s s' : Scheduler) (log : List (Call Time))
    → ddg_schedule Time fuel s ≡ ok (s', log)
    → (s.scheduled ≡ false)
      × (built : Heap × List ℕ) × (build_ddg fuel s.actions s.roots s.heap ≡ ok built)
      × (sorted : List ℕ) × (topological_sort built.0 s.actions s.sort ≡ ok sorted)
      × (record s { heap = built.0; roots = built.1; sort = sorted; scheduled = true } ≡ s')
unfolding ddg_schedule
ddg_schedule-eq-ok Time fuel s s' log e = elim (Bool-cases s.scheduled) [
  | inl sch ↦ absurd (err≢ok (rw sch at e))
  | inr un ↦
      let (built, x, y) = >>=-eq-ok (build_ddg fuel s.actions s.roots s.heap) _ (rw un at e) in
      let (u, x', y') = >>=-eq-ok (sanity_check built.0 s.actions) _ y in
      let (sorted, x'', y'') = >>=-eq-ok (topological_sort built.0 s.actions s.sort) _ y' in
      (un, built, x, sorted, x'', ap (λ (t : Scheduler × List (Call Time)). t.0) (ok_injective y''))
]

-- Until it is scheduled a scheduler is valid, has sorted nothing and has initialised nothing.
pub record IsOrderly (s : Scheduler) : Type 0 where
  pub valid : s.scheduled ≡ false → IsValid s
  pub unsorted : s.scheduled ≡ false → s.sort ≡ []
  pub uninited : s.scheduled ≡ false → s.inited ≡ false

-- One call of a public method that returns.
pub data Step (Time : Type 0) (s s' : Scheduler) : Type 0 where
  added : (a : Action) → s.scheduled ≡ false → add_action a s ≡ ok s' → Step Time s s'
  ddg_scheduled :
      (fuel : ℕ) (log : List (Call Time)) → ddg_schedule Time fuel s ≡ ok (s', log) → Step Time s s'
  user_scheduled : (log : List (Call Time)) → user_schedule Time s ≡ ok (s', log) → Step Time s s'
  initialised :
      (t : Time) (log : List (Call Time)) → init_actions Time t s ≡ ok (s', log) → Step Time s s'
  ran :
      (t dt alpha : Time) (log : List (Call Time))
      → run_actions Time t dt alpha s ≡ ok (s', log)
      → Step Time s s'
  finalized : (log : List (Call Time)) → finalize_actions Time s ≡ ok (s', log) → Step Time s s'
  restarted : s' ≡ restarting s → Step Time s s'

pub data Reach (Time : Type 0) : Scheduler → Type 0 where
  start : Reach Time new_scheduler
  next : {s s' : Scheduler} → Reach Time s → Step Time s s' → Reach Time s'

-- Registration touches no flag and no sort.
abbrev SameFlags : Scheduler → Scheduler → Type 0
SameFlags s s' = (s'.scheduled ≡ s.scheduled) × (s'.inited ≡ s.inited) × (s'.sort ≡ s.sort)

declare_item-SameFlags :
    (a : ℕ) (ad : ActionData) (io : ActionDataIntent) (s s' : Scheduler)
    → declare_item a io ad.attr ad.idx s ≡ ok s'
    → SameFlags s s'
unfolding declare_item reads writes
declare_item-SameFlags a ad in_data s s' e = (ground arith, ground arith, ground arith)
declare_item-SameFlags a ad out_data s s' e = (ground arith, ground arith, ground arith)

declare-SameFlags :
    (a : ℕ) (ads : List ActionData) (s s' : Scheduler) → declare a ads s ≡ ok s' → SameFlags s s'
unfolding declare
declare-SameFlags a [] s s' e = (cc, cc, cc)
declare-SameFlags a (ad ∷ ads) s s' e =
    let (t, x, y) = >>=-eq-ok (declare_item a ad.inout ad.attr ad.idx s) _ e in
    let f = declare_item-SameFlags a ad ad.inout s t x in
    let g = declare-SameFlags a ads t s' y in (g.0 ∙ f.0, g.1 ∙ f.1, g.2 ∙ f.2)

Step-IsOrderly : (Time : Type 0) (s s' : Scheduler) → Step Time s s' → IsOrderly s → IsOrderly s'
unfolding user_schedule init_actions run_actions finalize_actions restarting add_action
Step-IsOrderly Time s s' (added a un e) o =
    let f = declare-SameFlags a.address a.action_data (push_item a.address s) s' e in
    record {
      valid = λ un'. add_action-IsValid a s s' (o.valid un) e;
      unsorted = λ un'. f.2 ∙ o.unsorted un;
      uninited = λ un'. f.1 ∙ o.uninited un;
    }
Step-IsOrderly Time s s' (ddg_scheduled fuel log e) o =
    let (un, built, x, sorted, y, same) = ddg_schedule-eq-ok Time fuel s s' log e in
    let g : s'.scheduled ≡ true = rw (← same) refl in
    record { valid = λ un'. cc; unsorted = λ un'. cc; uninited = λ un'. cc }
Step-IsOrderly Time s s' (user_scheduled log e) o =
    let t : s'.scheduled ≡ true = ground arith in
    record { valid = λ un. cc; unsorted = λ un. cc; uninited = λ un. cc }
Step-IsOrderly Time s s' (initialised t log e) o = elim (Bool-cases s.scheduled) [
  | inl sch ↦
      let g : s'.scheduled ≡ true = ground arith in
      record { valid = λ un. cc; unsorted = λ un. cc; uninited = λ un. cc }
  | inr un ↦ cc (rw un at e)
]
Step-IsOrderly Time s s' (ran t dt alpha log e) o =
    let same : s ≡ s' = ground arith in rw (← same) o
Step-IsOrderly Time s s' (finalized log e) o = let same : s ≡ s' = ground arith in rw (← same) o
Step-IsOrderly Time s s' (restarted e) o = rw e (record {
  valid = λ un. record { fresh = (o.valid un).fresh; allocated = (o.valid un).allocated };
  unsorted = o.unsorted;
  uninited = λ un. refl;
})

pub Reach-IsOrderly : {Time : Type 0} {s : Scheduler} → Reach Time s → IsOrderly s
Reach-IsOrderly start = record {
  valid = λ un. new_scheduler-IsValid;
  unsorted = λ un. refl;
  uninited = λ un. refl;
}
Reach-IsOrderly {Time} (next {s} {s'} r st) = Step-IsOrderly Time s s' st (Reach-IsOrderly r)
