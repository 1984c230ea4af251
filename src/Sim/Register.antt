-- ===== src/Sim/Register.antt =====
-- SIM/src/Scheduler.C: the state of a `Scheduler`, `add_action`, `reads` and `writes`; and
-- SIM/src/Action.C: `Action::declare`. `new ActionItem` takes the address `next`.
pub mod Valid
pub mod Declared
use impact.Prelude.{
  ℕ, suc, String, ℤ, Bool, true, false, Option, none, some, List, [], ◌∷◌, ◌++◌, ◌==◌,
  if◌then◌else◌,
}
use impact.Sim.Item.{
  ActionItem, Heap, new_item, store, Abort, not_registered, Result, ok, err, ◌>>=◌,
}

pub data ActionDataIntent : Type 0 where
  in_data out_data : ActionDataIntent

pub record ActionData : Type 0 where
  pub attr : String
  pub idx : ℤ
  pub inout : ActionDataIntent

-- An action, as far as the scheduler reads it: its address and its data.
pub record Action : Type 0 where
  pub address : ℕ
  pub action_data : List ActionData

pub record Scheduler : Type 0 where
  pub heap : Heap
  pub next : ℕ
  pub actions : List ℕ
  pub roots : List ℕ
  pub sort : List ℕ
  pub scheduled : Bool
  pub inited : Bool

-- Scheduler(bool verbose)
abbrev pub new_scheduler : Scheduler
new_scheduler = record {
  heap = λ p. new_item 0;
  next = 0;
  actions = [];
  roots = [];
  sort = [];
  scheduled = false;
  inited = false;
}

-- The linear search that `reads` and `writes` share.
unfoldable pub find_item : Heap → ℕ → List ℕ → Option ℕ
find_item h a [] = none
find_item h a (p ∷ ps) = if (h p).myaction == a then some p else find_item h a ps

abbrev pub push_read : ActionItem → String → ℤ → ActionItem
push_read it attr idx = record it {
  read_attr = it.read_attr ++ attr ∷ [];
  read_idx = it.read_idx ++ idx ∷ [];
  input = it.input ++ none ∷ [];
}

abbrev pub push_write : ActionItem → String → ℤ → ActionItem
push_write it attr idx = record it {
  write_attr = it.write_attr ++ attr ∷ [];
  write_idx = it.write_idx ++ idx ∷ [];
  output = it.output ++ none ∷ [];
}

abbrev pub at_found : Option ℕ → (ActionItem → ActionItem) → Scheduler → Result Scheduler
at_found none f s = err not_registered
at_found (some p) f s = ok (record s { heap = store p (f (s.heap p)) s.heap })

unfoldable pub reads : ℕ → String → ℤ → Scheduler → Result Scheduler
reads a attr idx s = at_found (find_item s.heap a s.actions) (λ it. push_read it attr idx) s

unfoldable pub writes : ℕ → String → ℤ → Scheduler → Result Scheduler
writes a attr idx s = at_found (find_item s.heap a s.actions) (λ it. push_write it attr idx) s

unfoldable pub declare_item : ℕ → ActionDataIntent → String → ℤ → Scheduler → Result Scheduler
declare_item a in_data attr idx s = reads a attr idx s
declare_item a out_data attr idx s = writes a attr idx s

-- `action->declare(*this)`: the loop over `action_data`.
unfoldable pub declare : ℕ → List ActionData → Scheduler → Result Scheduler
declare a [] s = ok s
declare a (ad ∷ rest) s = do s' ← declare_item a ad.inout ad.attr ad.idx s; declare a rest s'

abbrev pub push_item : ℕ → Scheduler → Scheduler
push_item a s = record s {
  heap = store s.next (new_item a) s.heap;
  next = suc s.next;
  actions = s.actions ++ s.next ∷ [];
}

unfoldable pub add_action : Action → Scheduler → Result Scheduler
add_action action s = declare action.address action.action_data (push_item action.address s)
