-- ===== src/Sim/Item.antt =====
-- SIM/include/Scheduler.h and SIM/src/Scheduler.C: `Scheduler::ActionItem` and its queries.
-- An `ActionItem *` is an address, a number, and the heap gives the item at each address. An
-- `Action *` is a number too. `nullptr` in `input` and `output` is `none`.
pub mod Laws
use impact.Prelude.{
  ℕ, zero, suc, String, ℤ, eq_ℤ, str_eq, Bool, true, false, ◌&&◌, Option, none, some, List, [], ◌∷◌,
  length, set, ◌==◌, if◌then◌else◌,
}
use mathlib.Core.Option

pub record ActionItem : Type 0 where
  pub myaction : ℕ
  pub read_attr : List String
  pub read_idx : List ℤ
  pub input : List (Option ℕ)
  pub write_attr : List String
  pub write_idx : List ℤ
  pub output : List (Option ℕ)

-- ActionItem(Action *a)
abbrev pub new_item : ℕ → ActionItem
new_item a = record {
  myaction = a;
  read_attr = [];
  read_idx = [];
  input = [];
  write_attr = [];
  write_idx = [];
  output = [];
}

abbrev pub Heap : Type 0
Heap = ℕ → ActionItem

-- `*p = item`
abbrev pub store : ℕ → ActionItem → Heap → Heap
store p item h q = if p == q then item else h q

abbrev pub n_read : ActionItem → ℕ
n_read it = length it.read_attr

abbrev pub n_write : ActionItem → ℕ
n_write it = length it.write_attr

-- The loop that `hasInput` and `hasOutput` share: the first entry with this attribute and index.
-- The C++ code returns -1 where this is `none`. The two vectors are read in step; an index vector
-- that is too short would be read out of bounds, and registration keeps them of one length.
unfoldable pub position : String → ℤ → List String → List ℤ → Option ℕ
position attr idx [] ixs = none
position attr idx (a ∷ attrs) [] = none
position attr idx (a ∷ attrs) (i ∷ ixs) =
    if str_eq attr a && eq_ℤ idx i then some zero else Option.map suc (position attr idx attrs ixs)

unfoldable pub has_input : ActionItem → String → ℤ → Option ℕ
has_input it attr idx = position attr idx it.read_attr it.read_idx

unfoldable pub has_output : ActionItem → String → ℤ → Option ℕ
has_output it attr idx = position attr idx it.write_attr it.write_idx

-- The loop that `fulfilledInput` and `fulfilledOutput` share: one slot for each attribute.
unfoldable pub all_linked : List String → List (Option ℕ) → Bool
all_linked [] slots = true
all_linked (a ∷ attrs) [] = false
all_linked (a ∷ attrs) (none ∷ slots) = false
all_linked (a ∷ attrs) (some p ∷ slots) = all_linked attrs slots

unfoldable pub fulfilled_input : ActionItem → Bool
fulfilled_input it = all_linked it.read_attr it.input

unfoldable pub fulfilled_output : ActionItem → Bool
fulfilled_output it = all_linked it.write_attr it.output

unfoldable pub fulfilled : ActionItem → Bool
unfolding fulfilled_input fulfilled_output
fulfilled it = fulfilled_input it && fulfilled_output it

-- `p->input[i] = q` and `p->output[i] = q`
abbrev pub set_input : ℕ → ℕ → ℕ → Heap → Heap
set_input p i q h = store p (record (h p) { input = set (h p).input i (some q) }) h

abbrev pub set_output : ℕ → ℕ → ℕ → Heap → Heap
set_output p i q h = store p (record (h p) { output = set (h p).output i (some q) }) h

-- How a method ends other than by returning: an `COM_abort_msg`, or an access that is undefined
-- behaviour. `out_of_fuel` is the model's own, for a loop that may not end.
pub data Abort : Type 0 where
  not_registered not_scheduled not_initialized already_scheduled : Abort
  duplicate_input duplicate_output no_matching_output no_matching_input : Abort
  sanity_check_failed cycle_detected bad_access out_of_fuel : Abort

pub data Result {ℓ} (Value : Type ℓ) : Type ℓ where
  err : Abort → Result Value
  ok : Value → Result Value

infixl 5 ◌>>=◌
abbrev pub ◌>>=◌ {ℓ κ} :
    {Value : Type ℓ} {Next : Type κ} → Result Value → (Value → Result Next) → Result Next
err reason >>= rest = err reason
ok value >>= rest = rest value

infixl 5 ◌>>◌
abbrev pub ◌>>◌ {ℓ} : {Next : Type ℓ} → Result (Unit {0}) → Result Next → Result Next
test >> rest = test >>= λ passed. rest
