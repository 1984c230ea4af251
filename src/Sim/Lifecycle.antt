-- ===== src/Sim/Lifecycle.antt =====
-- SIM/src/Scheduler.C, SIM/src/DDGScheduler.C and SIM/src/UserScheduler.C: `schedule` of the two
-- kinds of scheduler, and `init_actions`, `run_actions`, `finalize_actions` and `restarting`.
-- What the virtual methods of an action do is not the scheduler's; the calls are recorded in order.
-- A `double` is of the parameter type `Time`. The verbose output is left out.
pub mod Sessions
pub mod Reach
pub mod Scheduled
pub mod Total
use impact.Prelude.{
  ℕ, Bool, true, false, Option, none, some, List, [], ◌∷◌, ◌++◌, map, reverse, if◌then◌else◌,
}
use impact.Sim.Item.{
  Heap, store, not_scheduled, not_initialized, already_scheduled, Result, ok, err, ◌>>=◌, ◌>>◌,
}
use impact.Sim.Register.{Scheduler}
use impact.Sim.Ddg.{build_ddg, sanity_check}
use impact.Sim.Topo.{topological_sort}

-- A call of a method of an `Action`.
pub data Call (Time : Type 0) : Type 0 where
  schedule : ℕ → Call Time
  init : ℕ → Time → Call Time
  run : ℕ → (t dt alpha : Time) → Call Time
  finalize : ℕ → Call Time

-- The `Action *` of each item, in order.
abbrev pub actions_of : Heap → List ℕ → List ℕ
actions_of h items = map (λ p. (h p).myaction) items

module _ (Time : Type 0) where
  -- The scheduler after a method, and the calls that it made.
  abbrev pub Outcome : Type 0
  Outcome = Result (Scheduler × List (Call Time))

  -- void DDGScheduler::schedule()
  unfoldable pub ddg_schedule : ℕ → Scheduler → Outcome
  ddg_schedule fuel s = if s.scheduled then err already_scheduled else do
    built ← build_ddg fuel s.actions s.roots s.heap
    sanity_check built.0 s.actions
    sorted ← topological_sort built.0 s.actions s.sort
    ok (
      record s { heap = built.0; roots = built.1; sort = sorted; scheduled = true },
      map Call.schedule (actions_of s.heap s.actions),
    )

  -- void init_actions(double t)
  unfoldable pub init_actions : Time → Scheduler → Outcome
  init_actions t s =
      if s.scheduled
      then (if s.inited
          then ok (s, [])
          else ok (record s { inited = true }, map (λ a. Call.init a t) (actions_of s.heap s.sort)))
      else err not_scheduled

  -- void run_actions(double t, double dt, double alpha)
  unfoldable pub run_actions : (t dt alpha : Time) → Scheduler → Outcome
  run_actions t dt alpha s =
      if s.inited
      then ok (s, map (λ a. Call.run a t dt alpha) (actions_of s.heap s.sort))
      else err not_initialized

  -- void finalize_actions()
  unfoldable pub finalize_actions : Scheduler → Outcome
  finalize_actions s =
      if s.inited
      then ok (s, map Call.finalize (actions_of s.heap (reverse s.sort)))
      else err not_initialized

-- void restarting(double t)
unfoldable pub restarting : Scheduler → Scheduler
restarting s = record s { inited = false }

-- output.push_back and input.push_back of UserScheduler::schedule
abbrev pub push_output : ℕ → ℕ → Heap → Heap
push_output p q h = store p (record (h p) { output = (h p).output ++ some q ∷ [] }) h

abbrev pub push_input : ℕ → ℕ → Heap → Heap
push_input p q h = store p (record (h p) { input = (h p).input ++ some q ∷ [] }) h

-- The loop over i: each action is linked to the one after it.
unfoldable pub chain : List ℕ → Heap → Heap
chain [] h = h
chain (p ∷ []) h = h
chain (p ∷ q ∷ ps) h = chain (q ∷ ps) (push_input q p (push_output p q h))

abbrev pub push_root : List ℕ → ℕ → List ℕ
push_root [] p = p ∷ []
push_root (r ∷ roots) p = r ∷ roots

-- The loop that appends to `sort` and fills empty `roots`.
unfoldable pub append_sorted : List ℕ → List ℕ → List ℕ → List ℕ × List ℕ
append_sorted [] sort roots = (sort, roots)
append_sorted (p ∷ ps) sort roots = append_sorted ps (sort ++ p ∷ []) (push_root roots p)

-- void UserScheduler::schedule()
unfoldable pub user_schedule : (Time : Type 0) → Scheduler → Outcome Time
user_schedule Time s =
    if s.scheduled
    then err already_scheduled
    else let filled = append_sorted s.actions s.sort s.roots in
      ok (
        record s {
          heap = chain s.actions s.heap;
          sort = filled.0;
          roots = filled.1;
          scheduled = true;
        },
        map Call.schedule (actions_of s.heap s.actions),
      )
