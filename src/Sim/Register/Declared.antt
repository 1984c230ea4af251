-- ===== src/Sim/Register/Declared.antt =====
-- What `add_action` registers for an action that is not there yet.
use impact.Prelude.{
  ℕ, ◌≡◌, ◌≢◌, refl, sym, ◌∙◌, String, ℤ, Bool, true, false, some, List, [], ◌∷◌, ◌++◌, In, arith,
  if◌then◌else◌, inl, inr, append_assoc, append-nil,
}
use impact.Sim.Item.{Heap, store, ok}
use impact.Sim.Register.{
  ActionDataIntent, in_data, out_data, ActionData, Action, Scheduler, find_item, push_read,
  push_write, reads, writes, declare_item, declare, push_item, add_action,
}

-- The attributes and the indices of the data with one intent, in order.
abbrev pub is_intent : ActionDataIntent → ActionDataIntent → Bool
is_intent in_data in_data = true
is_intent out_data out_data = true
is_intent in_data out_data = false
is_intent out_data in_data = false

abbrev pub attrs_of : ActionDataIntent → List ActionData → List String
attrs_of io [] = []
attrs_of io (ad ∷ ads) =
    if is_intent io ad.inout then ad.attr ∷ attrs_of io ads else attrs_of io ads

abbrev pub idxs_of : ActionDataIntent → List ActionData → List ℤ
idxs_of io [] = []
idxs_of io (ad ∷ ads) = if is_intent io ad.inout then ad.idx ∷ idxs_of io ads else idxs_of io ads

-- `s'` is `s` with the data `ads` entered in the item `p`, and with nothing else changed but the
-- slots of `p`.
pub record Declares (ads : List ActionData) (p : ℕ) (s s' : Scheduler) : Type 0 where
  pub actions : s'.actions ≡ s.actions
  pub next : s'.next ≡ s.next
  pub scheduled : s'.scheduled ≡ s.scheduled
  pub myaction : (q : ℕ) → (s'.heap q).myaction ≡ (s.heap q).myaction
  pub read_attr : (s'.heap p).read_attr ≡ (s.heap p).read_attr ++ attrs_of in_data ads
  pub read_idx : (s'.heap p).read_idx ≡ (s.heap p).read_idx ++ idxs_of in_data ads
  pub write_attr : (s'.heap p).write_attr ≡ (s.heap p).write_attr ++ attrs_of out_data ads
  pub write_idx : (s'.heap p).write_idx ≡ (s.heap p).write_idx ++ idxs_of out_data ads
  pub others : (q : ℕ) → p ≢ q → s'.heap q ≡ s.heap q

find_item_same :
    (h h' : Heap) (a : ℕ) (ps : List ℕ)
    → ((q : ℕ) → (h' q).myaction ≡ (h q).myaction)
    → find_item h' a ps ≡ find_item h a ps
unfolding find_item
find_item_same h h' a [] e = refl
find_item_same h h' a (p ∷ ps) e = rw (e p, find_item_same h h' a ps e) refl

-- The state after one entry.
abbrev entered : ActionDataIntent → String → ℤ → ℕ → Scheduler → Scheduler
entered in_data attr idx p s = record s { heap = store p (push_read (s.heap p) attr idx) s.heap }
entered out_data attr idx p s = record s { heap = store p (push_write (s.heap p) attr idx) s.heap }

module _ (a p : ℕ) where
  declare_item_found :
      (io : ActionDataIntent) (attr : String) (idx : ℤ) (s : Scheduler)
      → find_item s.heap a s.actions ≡ some p
      → declare_item a io attr idx s ≡ ok (entered io attr idx p s)
  unfolding declare_item reads writes
  declare_item_found in_data attr idx s f = rw f refl
  declare_item_found out_data attr idx s f = rw f refl

  entered-Declares :
      (ad : ActionData) (io : ActionDataIntent) (ads : List ActionData) (s s' : Scheduler)
      → ad.inout ≡ io
      → Declares ads p (entered io ad.attr ad.idx p s) s'
      → Declares (ad ∷ ads) p s s'
  entered-Declares ad in_data ads s s' e d = record {
    actions = d.actions;
    next = d.next;
    scheduled = d.scheduled;
    myaction = λ q. ground (arith, d.myaction q);
    read_attr = ground (
      arith,
      d.read_attr,
      append_assoc (s.heap p).read_attr (ad.attr ∷ []) (attrs_of in_data ads),
    );
    read_idx =
        ground
          (arith, d.read_idx, append_assoc (s.heap p).read_idx (ad.idx ∷ []) (idxs_of in_data ads));
    write_attr = ground (arith, d.write_attr);
    write_idx = ground (arith, d.write_idx);
    others = λ q ne. ground (arith, d.others q ne);
  }
  entered-Declares ad out_data ads s s' e d = record {
    actions = d.actions;
    next = d.next;
    scheduled = d.scheduled;
    myaction = λ q. ground (arith, d.myaction q);
    read_attr = ground (arith, d.read_attr);
    read_idx = ground (arith, d.read_idx);
    write_attr = ground (
      arith,
      d.write_attr,
      append_assoc (s.heap p).write_attr (ad.attr ∷ []) (attrs_of out_data ads),
    );
    write_idx = ground (
      arith,
      d.write_idx,
      append_assoc (s.heap p).write_idx (ad.idx ∷ []) (idxs_of out_data ads),
    );
    others = λ q ne. ground (arith, d.others q ne);
  }

  entered_found :
      (io : ActionDataIntent) (attr : String) (idx : ℤ) (s : Scheduler)
      → find_item s.heap a s.actions ≡ some p
      → find_item (entered io attr idx p s).heap a (entered io attr idx p s).actions ≡ some p
  entered_found in_data attr idx s f = find_item_same s.heap _ a s.actions (λ q. ground arith) ∙ f
  entered_found out_data attr idx s f = find_item_same s.heap _ a s.actions (λ q. ground arith) ∙ f

  declare-Declares :
      (ads : List ActionData) (s : Scheduler)
      → find_item s.heap a s.actions ≡ some p
      → (s' : Scheduler) × (declare a ads s ≡ ok s') × Declares ads p s s'
  unfolding declare
  declare-Declares [] s f = (
    s,
    refl,
    record {
      actions = refl;
      next = refl;
      scheduled = refl;
      myaction = λ q. refl;
      read_attr = sym (append-nil _);
      read_idx = sym (append-nil _);
      write_attr = sym (append-nil _);
      write_idx = sym (append-nil _);
      others = λ q ne. refl;
    },
  )
  declare-Declares (ad ∷ ads) s f =
      let (s', e, d) =
        declare-Declares ads (entered ad.inout ad.attr ad.idx p s)
          (entered_found ad.inout ad.attr ad.idx s f) in
      (
        s',
        rw (declare_item_found ad.inout ad.attr ad.idx s f) e,
        entered-Declares ad ad.inout ads s s' refl d,
      )

find_item_pushed :
    (h : Heap) (a n : ℕ) (ps : List ℕ)
    → ((p : ℕ) → In p ps → (h p).myaction ≢ a)
    → (h n).myaction ≡ a
    → find_item h a (ps ++ n ∷ []) ≡ some n
unfolding find_item
find_item_pushed h a n [] absent here = ground arith
find_item_pushed h a n (p ∷ ps) absent here =
    ground (arith, absent p (inl refl), find_item_pushed h a n ps (λ q m. absent q (inr m)) here)

-- An action that no item has yet is added without an error: it gets a new item at the end, with
-- its reads and writes in the order of its data, and every other item is left as it was.
pub add_action-Declares :
    (action : Action) (s : Scheduler)
    → ((p : ℕ) → In p s.actions → s.next ≢ p)
    → ((p : ℕ) → In p s.actions → (s.heap p).myaction ≢ action.address)
    → (s' : Scheduler) × (add_action action s ≡ ok s')
      × (s'.actions ≡ s.actions ++ s.next ∷ [])
      × ((s'.heap s.next).myaction ≡ action.address)
      × ((s'.heap s.next).read_attr ≡ attrs_of in_data action.action_data)
      × ((s'.heap s.next).read_idx ≡ idxs_of in_data action.action_data)
      × ((s'.heap s.next).write_attr ≡ attrs_of out_data action.action_data)
      × ((s'.heap s.next).write_idx ≡ idxs_of out_data action.action_data)
      × ((q : ℕ) → s.next ≢ q → s'.heap q ≡ s.heap q)
unfolding add_action
add_action-Declares action s new absent =
    let a = action.address in
    let t = push_item a s in
    let found : find_item t.heap a t.actions ≡ some s.next =
      find_item_pushed t.heap a s.next s.actions (λ p m. ground (arith, new p m, absent p m))
        (ground arith) in
    let (s', e, d) = declare-Declares a s.next action.action_data t found in
    (
      s',
      e,
      d.actions,
      ground (arith, d.myaction s.next),
      ground (arith, d.read_attr),
      ground (arith, d.read_idx),
      ground (arith, d.write_attr),
      ground (arith, d.write_idx),
      λ q ne. ground (arith, d.others q ne),
    )
