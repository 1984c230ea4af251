-- ===== src/Sim/Register/Valid.antt =====
-- The invariant of a scheduler on its items while actions are registered.
use impact.Prelude.{
  ℕ, zero, suc, ◌<◌, ◌≡◌, refl, String, ℤ, Option, none, some, List, [], ◌∷◌, ◌++◌, length-append,
  slot, In, In-append, arith, ◌==◌, Bool-cases, inl, inr,
}
use impact.Sim.Item.{ActionItem, Heap, new_item, store, ok}
use impact.Sim.Item.Laws.{>>=-eq-ok, ok_injective}
use impact.Sim.Ddg.Steps.{IsWfItem}
use impact.Sim.Register.{
  ActionDataIntent, in_data, out_data, ActionData, Action, Scheduler, new_scheduler, find_item,
  at_found, push_read, push_write, reads, writes, declare_item, declare, push_item, add_action,
}

-- Each attribute has an index and a null slot.
pub record IsFreshItem (it : ActionItem) : Type 0 where
  pub wf : IsWfItem it
  pub no_input : (i : ℕ) → slot it.input i ≡ none
  pub no_output : (i : ℕ) → slot it.output i ≡ none

-- Before scheduling: the items are fresh, and `next` is the address of none of them.
pub record IsValid (s : Scheduler) : Type 0 where
  pub fresh : (p : ℕ) → IsFreshItem (s.heap p)
  pub allocated : (p : ℕ) → In p s.actions → p < s.next

slot-snoc_none :
    (slots : List (Option ℕ))
    → ((i : ℕ) → slot slots i ≡ none)
    → (i : ℕ) → slot (slots ++ none ∷ []) i ≡ none
slot-snoc_none [] h zero = refl
slot-snoc_none [] h (suc i) = refl
slot-snoc_none (x ∷ slots) h zero = h zero
slot-snoc_none (x ∷ slots) h (suc i) = slot-snoc_none slots (λ k. h (suc k)) i

push_read-IsFreshItem :
    (it : ActionItem) (attr : String) (idx : ℤ)
    → IsFreshItem it
    → IsFreshItem (push_read it attr idx)
push_read-IsFreshItem it attr idx f = record {
  wf = record {
    read_idx = omega (
      arith,
      f.wf.read_idx,
      length-append it.read_idx (idx ∷ []),
      length-append it.read_attr (attr ∷ []),
    );
    input = omega (
      arith,
      f.wf.input,
      length-append it.input (none ∷ []),
      length-append it.read_attr (attr ∷ []),
    );
    write_idx = f.wf.write_idx;
    output = f.wf.output;
  };
  no_input = slot-snoc_none it.input f.no_input;
  no_output = f.no_output;
}

push_write-IsFreshItem :
    (it : ActionItem) (attr : String) (idx : ℤ)
    → IsFreshItem it
    → IsFreshItem (push_write it attr idx)
push_write-IsFreshItem it attr idx f = record {
  wf = record {
    write_idx = omega (
      arith,
      f.wf.write_idx,
      length-append it.write_idx (idx ∷ []),
      length-append it.write_attr (attr ∷ []),
    );
    output = omega (
      arith,
      f.wf.output,
      length-append it.output (none ∷ []),
      length-append it.write_attr (attr ∷ []),
    );
    read_idx = f.wf.read_idx;
    input = f.wf.input;
  };
  no_input = f.no_input;
  no_output = slot-snoc_none it.output f.no_output;
}

store-IsFreshItem :
    (h : Heap) (p : ℕ) (it : ActionItem)
    → ((q : ℕ) → IsFreshItem (h q))
    → IsFreshItem it
    → (q : ℕ) → IsFreshItem (store p it h q)
store-IsFreshItem h p it f new q = elim (Bool-cases (p == q)) [
  | inl same ↦ rw same new
  | inr other ↦ rw other (f q)
]

at_found-IsValid :
    (o : Option ℕ) (f : ActionItem → ActionItem) (s s' : Scheduler)
    → ((it : ActionItem) → IsFreshItem it → IsFreshItem (f it))
    → IsValid s
    → at_found o f s ≡ ok s'
    → IsValid s'
at_found-IsValid none f s s' keep v e = cc
at_found-IsValid (some p) f s s' keep v e = rw (← ok_injective e) (record {
  fresh = store-IsFreshItem s.heap p (f (s.heap p)) v.fresh (keep (s.heap p) (v.fresh p));
  allocated = v.allocated;
})

declare_item-IsValid :
    (a : ℕ) (io : ActionDataIntent) (attr : String) (idx : ℤ) (s s' : Scheduler)
    → IsValid s
    → declare_item a io attr idx s ≡ ok s'
    → IsValid s'
unfolding declare_item reads writes
declare_item-IsValid a in_data attr idx s s' v e =
    at_found-IsValid (find_item s.heap a s.actions) _ s s' (λ it. push_read-IsFreshItem it attr idx)
      v e
declare_item-IsValid a out_data attr idx s s' v e =
    at_found-IsValid (find_item s.heap a s.actions) _ s s'
      (λ it. push_write-IsFreshItem it attr idx) v e

declare-IsValid :
    (a : ℕ) (ads : List ActionData) (s s' : Scheduler)
    → IsValid s
    → declare a ads s ≡ ok s'
    → IsValid s'
unfolding declare
declare-IsValid a [] s s' v e = rw (← ok_injective e) v
declare-IsValid a (ad ∷ rest) s s' v e =
    let (t, x, y) = >>=-eq-ok (declare_item a ad.inout ad.attr ad.idx s) _ e in
    declare-IsValid a rest t s' (declare_item-IsValid a ad.inout ad.attr ad.idx s t v x) y

new_item-IsFreshItem : (a : ℕ) → IsFreshItem (new_item a)
new_item-IsFreshItem a = record {
  wf = record { read_idx = refl; input = refl; write_idx = refl; output = refl };
  no_input = λ i. refl;
  no_output = λ i. refl;
}

push_item-IsValid : (a : ℕ) (s : Scheduler) → IsValid s → IsValid (push_item a s)
push_item-IsValid a s v = record {
  fresh = store-IsFreshItem s.heap s.next (new_item a) v.fresh (new_item-IsFreshItem a);
  allocated = λ p m. elim (In-append p s.actions (s.next ∷ []) m) [
    | inl old ↦ let lt = v.allocated p old in omega arith
    | inr (inl new) ↦ omega arith
    | inr (inr no_more) ↦ absurd no_more
  ];
}

-- `add_action` keeps the scheduler valid: every read and write of every item has its attribute, its
-- index and a null slot, and `next` is free.
pub add_action-IsValid :
    (action : Action) (s s' : Scheduler) → IsValid s → add_action action s ≡ ok s' → IsValid s'
unfolding add_action
add_action-IsValid action s s' v e =
    declare-IsValid action.address action.action_data _ s' (push_item-IsValid action.address s v) e

pub new_scheduler-IsValid : IsValid new_scheduler
new_scheduler-IsValid = record { fresh = λ p. new_item-IsFreshItem 0; allocated = λ p m. absurd m }
