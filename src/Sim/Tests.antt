-- ===== src/Sim/Tests.antt =====
-- A producer, a middle action and a consumer, added in the order consumer, middle, producer: small
-- inputs for the scheduler, with each theorem applied to one of them.
mod Matched
mod Couplings
use impact.Prelude.{
  ℕ, zero, suc, ◌<◌, ◌≡◌, ◌≢◌, refl, pos, true, false, none, some, List, [], ◌∷◌, ◌++◌, map,
  is_some, slot, In, inl, inr, arith,
}
use impact.Sim.Item.{
  Heap, new_item, Result, ok, err, cycle_detected, n_read, fulfilled, out_of_fuel, position,
  has_input, has_output, all_linked,
}
use impact.Sim.Register.{
  Action, in_data, out_data, Scheduler, new_scheduler, add_action, declare, declare_item, reads,
  writes, find_item,
}
use impact.Sim.Register.Declared.{add_action-Declares}
use impact.Sim.Ddg.{
  link_read, link_write, offer, search_writers, search_readers, fill_read, fill_write, fill_reads,
  fill_writes, link_action, advance, ddg_round, ddg_loop, collect_roots, build_ddg, sanity_check,
}
use impact.Sim.Ddg.Hang.{ddg_loop-hangs}
use impact.Sim.Ddg.Coverage.{sanity_check-build_ddg}
use impact.Sim.Topo.{placed, inputs_placed, is_ready, find_ready, topo_loop, topological_sort}
use impact.Sim.Topo.Total.{IsClosed}
use impact.Sim.Topo.Cycle.{topological_sort_total, topological_sort-cycle}
use impact.Sim.Lifecycle.{Call, Outcome, ddg_schedule}
use impact.Sim.Lifecycle.Reach.{Reach, start, next, added, Reach-IsOrderly}
use impact.Sim.Lifecycle.Scheduled.{IsScheduled, ddg_schedule-IsScheduled, roots-build_ddg}
use impact.Sim.Lifecycle.Sessions.{user_session, user_session_calls}

abbrev producer : Action
producer = record {
  address = 10;
  action_data = record { attr = "x"; idx = pos 0; inout = out_data } ∷ [];
}

abbrev middle : Action
middle = record {
  address = 11;
  action_data =
      record { attr = "x"; idx = pos 0; inout = in_data }
      ∷ record { attr = "y"; idx = pos 2; inout = out_data }
      ∷ [];
}

abbrev consumer : Action
consumer = record {
  address = 12;
  action_data = record { attr = "y"; idx = pos 2; inout = in_data } ∷ [];
}

unfoldable registration : Unit {0}
unfolding add_action declare declare_item reads writes find_item
registration = tt

scheduling : Unit {0}
unfolding ddg_schedule build_ddg sanity_check collect_roots ddg_loop ddg_round advance link_action
    fill_reads fill_writes fill_read fill_write search_writers search_readers offer link_read
    link_write has_input has_output position fulfilled all_linked topological_sort topo_loop
    find_ready is_ready inputs_placed placed
scheduling = tt

abbrev or_new : Result Scheduler → Scheduler
or_new (ok s) = s
or_new (err e) = new_scheduler

abbrev one_action : Scheduler
one_action = or_new (add_action consumer new_scheduler)

abbrev pub two_actions : Scheduler
two_actions = or_new (add_action middle one_action)

abbrev pub three_actions : Scheduler
three_actions = or_new (add_action producer two_actions)

added_one : add_action consumer new_scheduler ≡ ok one_action
unfolding registration
added_one = refl

added_two : add_action middle one_action ≡ ok two_actions
unfolding registration
added_two = refl

added_three : add_action producer two_actions ≡ ok three_actions
unfolding registration
added_three = refl

abbrev scheduled_three : Outcome ℕ
scheduled_three = ddg_schedule ℕ 20 three_actions

abbrev state_of : Outcome ℕ → Scheduler
state_of (ok (s, log)) = s
state_of (err e) = new_scheduler

abbrev log_of : Outcome ℕ → List (Call ℕ)
log_of (ok (s, log)) = log
log_of (err e) = []

sorted_three : (state_of scheduled_three).sort ≡ 2 ∷ 1 ∷ 0 ∷ []
unfolding registration scheduling
sorted_three = refl

scheduled_three_ok :
    ddg_schedule ℕ 20 three_actions ≡ ok (state_of scheduled_three, log_of scheduled_three)
unfolding registration scheduling
scheduled_three_ok = refl

unscheduled_one : one_action.scheduled ≡ false
unfolding registration
unscheduled_one = refl

pub unscheduled_two : two_actions.scheduled ≡ false
unfolding registration
unscheduled_two = refl

pub reach_three : Reach ℕ three_actions
reach_three =
    next
      (next (next start (added consumer refl added_one)) (added middle unscheduled_one added_two))
      (added producer unscheduled_two added_three)

ddg_schedule-IsScheduled_example : IsScheduled three_actions (state_of scheduled_three)
ddg_schedule-IsScheduled_example =
    ddg_schedule-IsScheduled {Time = ℕ} 20 three_actions (state_of scheduled_three)
      (log_of scheduled_three) reach_three scheduled_three_ok

-- Two items by hand: 1 reads what 0 writes.
abbrev linked_pair : Heap
linked_pair zero = record {
  myaction = 10;
  read_attr = [];
  read_idx = [];
  input = [];
  write_attr = "x" ∷ [];
  write_idx = pos 0 ∷ [];
  output = some 1 ∷ [];
}
linked_pair (suc p) = record {
  myaction = 11;
  read_attr = "x" ∷ [];
  read_idx = pos 0 ∷ [];
  input = some 0 ∷ [];
  write_attr = [];
  write_idx = [];
  output = [];
}

pair-IsClosed : IsClosed linked_pair (1 ∷ 0 ∷ [])
unfolding all_linked
pair-IsClosed = record {
  linked = λ p m. elim m [
    | inl e ↦ rw e refl
    | inr (inl e) ↦ rw e refl
    | inr (inr no_more) ↦ absurd no_more
  ];
  inside = inside;
}
  where
    inside :
        (p i q : ℕ) → In p (1 ∷ 0 ∷ []) → slot (linked_pair p).input i ≡ some q → In q (1 ∷ 0 ∷ [])
    inside zero i q m e = cc
    inside (suc p) zero q m e = inr (inl (ground arith))
    inside (suc p) (suc i) q m e = cc

topological_sort_total_example :
    (s : List ℕ) × (topological_sort linked_pair (1 ∷ 0 ∷ []) [] ≡ ok s)
topological_sort_total_example =
    topological_sort_total linked_pair (1 ∷ 0 ∷ []) (λ p. p) pair-IsClosed ranked
  where
    ranked :
        (p i q : ℕ)
        → In p (1 ∷ 0 ∷ [])
        → i < n_read (linked_pair p)
        → slot (linked_pair p).input i ≡ some q
        → q < p
    ranked zero i q m lt e = cc
    ranked (suc p) zero q m lt e = ground arith
    ranked (suc p) (suc i) q m lt e = cc

-- An item that reads what it writes.
abbrev looped : Heap
looped p = record {
  myaction = 7;
  read_attr = "x" ∷ [];
  read_idx = pos 0 ∷ [];
  input = some 5 ∷ [];
  write_attr = "x" ∷ [];
  write_idx = pos 0 ∷ [];
  output = some 5 ∷ [];
}

looped-IsClosed : IsClosed looped (5 ∷ [])
unfolding all_linked
looped-IsClosed = record { linked = λ p m. refl; inside = inside }
  where
    inside : (p i q : ℕ) → In p (5 ∷ []) → slot (looped p).input i ≡ some q → In q (5 ∷ [])
    inside p zero q m e = inl (ground arith)
    inside p (suc i) q m e = cc

topological_sort-cycle_example : topological_sort looped (5 ∷ []) [] ≡ err cycle_detected
topological_sort-cycle_example =
    topological_sort-cycle looped (5 ∷ []) (7 ∷ []) 5 looped-IsClosed
      (λ p m w. (0, 5, omega arith, refl, inl refl)) (inl refl) (inl refl)

add_action-Declares_example :
    (s' : Scheduler) × (add_action middle new_scheduler ≡ ok s')
    × (s'.actions ≡ [] ++ 0 ∷ [])
    × ((s'.heap 0).myaction ≡ 11)
    × ((s'.heap 0).read_attr ≡ "x" ∷ [])
    × ((s'.heap 0).read_idx ≡ pos 0 ∷ [])
    × ((s'.heap 0).write_attr ≡ "y" ∷ [])
    × ((s'.heap 0).write_idx ≡ pos 2 ∷ [])
    × ((q : ℕ) → 0 ≢ q → s'.heap q ≡ new_item 0)
add_action-Declares_example =
    add_action-Declares middle new_scheduler (λ p m. absurd m) (λ p m. absurd m)

-- `middle` alone in the pool, its read linked and nobody to read "y".
abbrev dangling : Heap
dangling p = record {
  myaction = 11;
  read_attr = "x" ∷ [];
  read_idx = pos 0 ∷ [];
  input = some 0 ∷ [];
  write_attr = "y" ∷ [];
  write_idx = pos 2 ∷ [];
  output = none ∷ [];
}

ddg_loop-hangs_example : ddg_loop 1000 (1 ∷ []) 0 dangling ≡ err out_of_fuel
unfolding fulfilled all_linked
ddg_loop-hangs_example = ddg_loop-hangs 1000 1 dangling (omega arith) refl (λ k lt. first k lt) refl
  where
    first : (k : ℕ) → k < 1 → is_some (slot (some 0 ∷ []) k) ≡ true
    first zero lt = refl
    first (suc k) lt = absurd (omega arith)

-- The same from registration: a producer and a middle action, and the whole `buildDDG`.
hang_from_registration :
    build_ddg 60
      (0 ∷ 1 ∷ [])
      []
      (or_new (add_action middle (or_new (add_action producer new_scheduler)))).heap
    ≡ err out_of_fuel
unfolding registration scheduling
hang_from_registration = refl

abbrev built_three : Heap × List ℕ
built_three = ((state_of scheduled_three).heap, [])

roots_three : build_ddg 20 three_actions.actions [] three_actions.heap ≡ ok built_three
unfolding registration scheduling
roots_three = refl

roots-build_ddg_example : ◌≡◌ {A = List ℕ} [] []
roots-build_ddg_example =
    roots-build_ddg 20 three_actions.actions [] three_actions.heap built_three.0 [] roots_three

pub unscheduled_three : three_actions.scheduled ≡ false
unfolding registration
unscheduled_three = refl

sanity_check-build_ddg_example : sanity_check built_three.0 three_actions.actions ≡ ok tt
sanity_check-build_ddg_example =
    sanity_check-build_ddg 20 three_actions.actions [] three_actions.heap built_three.0 []
      (λ p. (((Reach-IsOrderly reach_three).valid unscheduled_three).fresh p).wf) roots_three

user_session_calls_example :
    (s' : Scheduler) × (user_session ℕ 1 2 3 two_actions
      ≡ ok (
        s',
        map Call.schedule (12 ∷ 11 ∷ [])
            ++ map (λ a. Call.init a 1) (12 ∷ 11 ∷ [])
            ++ map (λ a. Call.run a 1 2 3) (12 ∷ 11 ∷ [])
            ++ map Call.finalize (11 ∷ 12 ∷ []),
      ))
unfolding registration
user_session_calls_example = user_session_calls ℕ 1 2 3 two_actions refl refl refl
