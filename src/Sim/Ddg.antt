-- ===== src/Sim/Ddg.antt =====
-- SIM/src/DDGScheduler.C: `DDGScheduler::buildDDG` and `DDGScheduler::sanityCheck`.
-- The pool is a vector of item addresses and the iterator `act` a position in it. The test
-- `act < pool.begin()` at the end of the loop is never true of such an iterator, and is left out.
pub mod Steps
pub mod Run
pub mod Links
pub mod Coverage
pub mod Hang
pub mod Matched
pub mod Search
pub mod Fill
pub mod Pool
pub mod Total
use impact.Prelude.{
  ℕ, zero, suc, ◌+◌, String, ℤ, Bool, true, false, ◌&&◌, Option, none, some, List, [], ◌∷◌, length,
  slot, is_some, get_elem?, erase_at, ltb, ◌==◌, if◌then◌else◌,
}
use impact.Sim.Item.{
  ActionItem, Heap, n_read, n_write, has_input, has_output, fulfilled, set_input, set_output, Abort,
  duplicate_input, duplicate_output, no_matching_output, no_matching_input, sanity_check_failed,
  bad_access, out_of_fuel, Result, ok, err, ◌>>=◌, ◌>>◌,
}

-- The double link between the read `i` of `act` and the write `j` of `a`, with the two tests for
-- duplicates in the order of the reading branch.
unfoldable pub link_read : (act i a j : ℕ) → Heap → Result Heap
link_read act i a j h =
    if is_some (slot (h act).input i)
    then err duplicate_input
    else let h' = set_input act i a h in
      if is_some (slot (h' a).output j) then err duplicate_output else ok (set_output a j act h')

-- The same for the write `i` of `act` and the read `j` of `a`, as the writing branch does it.
unfoldable pub link_write : (act i a j : ℕ) → Heap → Result Heap
link_write act i a j h =
    if is_some (slot (h act).output i)
    then err duplicate_output
    else let h' = set_output act i a h in
      if is_some (slot (h' a).input j) then err duplicate_input else ok (set_input a j act h')

unfoldable pub offer : (link : ℕ → Heap → Result Heap) → Option ℕ → Heap → Result Heap
offer link none h = ok h
offer link (some j) h = link j h

-- for (const auto &a : pool): the outputs of the pool that match the read `i` of `act`
unfoldable pub search_writers : (act i : ℕ) → String → ℤ → List ℕ → Heap → Result Heap
search_writers act i attr idx [] h = ok h
search_writers act i attr idx (a ∷ pool) h = do
  h' ← offer (link_read act i a) (has_output (h a) attr idx) h
  search_writers act i attr idx pool h'

unfoldable pub search_readers : (act i : ℕ) → String → ℤ → List ℕ → Heap → Result Heap
search_readers act i attr idx [] h = ok h
search_readers act i attr idx (a ∷ pool) h = do
  h' ← offer (link_write act i a) (has_input (h a) attr idx) h
  search_readers act i attr idx pool h'

abbrev pub linked_or : Abort → Option ℕ → Heap → Result Heap
linked_or e none h = err e
linked_or e (some p) h = ok h

-- The body of the loop over the reads of `act`: search the pool unless the slot is filled.
unfoldable pub fill_read : (act i : ℕ) → String → ℤ → List ℕ → Heap → Result Heap
fill_read act i attr idx pool h = if is_some (slot (h act).input i) then ok h else do
  h' ← search_writers act i attr idx pool h
  linked_or no_matching_output (slot (h' act).input i) h'

unfoldable pub fill_write : (act i : ℕ) → String → ℤ → List ℕ → Heap → Result Heap
fill_write act i attr idx pool h = if is_some (slot (h act).output i) then ok h else do
  h' ← search_readers act i attr idx pool h
  linked_or no_matching_input (slot (h' act).output i) h'

-- The two loops over `i`; the vectors from position `i` on are walked in step.
unfoldable pub fill_reads : (act i : ℕ) → List String → List ℤ → List ℕ → Heap → Result Heap
fill_reads act i [] ixs pool h = ok h
fill_reads act i (a ∷ attrs) [] pool h = err bad_access
fill_reads act i (a ∷ attrs) (x ∷ ixs) pool h = do
  h' ← fill_read act i a x pool h
  fill_reads act (suc i) attrs ixs pool h'

unfoldable pub fill_writes : (act i : ℕ) → List String → List ℤ → List ℕ → Heap → Result Heap
fill_writes act i [] ixs pool h = ok h
fill_writes act i (a ∷ attrs) [] pool h = err bad_access
fill_writes act i (a ∷ attrs) (x ∷ ixs) pool h = do
  h' ← fill_write act i a x pool h
  fill_writes act (suc i) attrs ixs pool h'

-- An action that reads links its reads; one that only writes links its writes.
unfoldable pub link_action : ℕ → List ℕ → Heap → Result Heap
link_action act pool h =
    if ltb 0 (n_read (h act))
    then fill_reads act 0 (h act).read_attr (h act).read_idx pool h
    else if ltb 0 (n_write (h act))
    then fill_writes act 0 (h act).write_attr (h act).write_idx pool h
    else ok h

-- How the loop ended: by `return` at the last action, or by its test on an empty pool.
pub data Exit : Type 0 where
  returned emptied : Exit

-- How a round leaves the pool and `act`, given whether the action is fulfilled; `none` is `return`.
unfoldable pub advance : List ℕ → ℕ → Bool → Option (List ℕ × ℕ)
advance pool k true =
    if length pool == 1 then none else some (erase_at pool k, if k + 1 == length pool then 0 else k)
advance pool k false = some (pool, if k + 1 == length pool then 0 else k + 1)

-- The body of the loop, with `act` at position `k` of the pool.
unfoldable pub ddg_round : List ℕ → ℕ → Heap → Result (Heap × Option (List ℕ × ℕ))
ddg_round pool k h = elim (get_elem? pool k) [
  | none ↦ err bad_access
  | some act ↦ do h' ← link_action act pool h; ok (h', advance pool k (fulfilled (h' act)))
]

-- `while (!pool.empty())`, one round for each unit of fuel.
unfoldable pub ddg_loop : ℕ → List ℕ → ℕ → Heap → Result (Heap × Exit)
ddg_loop fuel [] k h = ok (h, emptied)
ddg_loop zero (p ∷ ps) k h = err out_of_fuel
ddg_loop (suc fuel) (p ∷ ps) k h = do
  done ← ddg_round (p ∷ ps) k h
  elim done.1 [ none ↦ ok (done.0, returned) | some (pool', k') ↦ ddg_loop fuel pool' k' done.0 ]

-- for (const auto &action : actions) if (action->n_read() == 0) roots.push_back(action);
unfoldable pub collect_roots : Heap → List ℕ → List ℕ → List ℕ
collect_roots h [] roots = roots
collect_roots h (p ∷ ps) roots =
    collect_roots h ps (if n_read (h p) == 0 then push roots p else roots)
  where
    push : List ℕ → ℕ → List ℕ
    push [] p = p ∷ []
    push (r ∷ rs) p = r ∷ push rs p

abbrev pub roots_after : Exit → List ℕ → List ℕ → Heap → List ℕ
roots_after returned actions roots h = roots
roots_after emptied actions roots h = collect_roots h actions roots

-- The heap and the roots after `buildDDG`.
unfoldable pub build_ddg : ℕ → List ℕ → List ℕ → Heap → Result (Heap × List ℕ)
build_ddg fuel actions roots h = do
  done ← ddg_loop fuel actions 0 h
  ok (done.0, roots_after done.1 actions roots done.0)

abbrev pub all_some : List (Option ℕ) → Bool
all_some [] = true
all_some (none ∷ slots) = false
all_some (some p ∷ slots) = all_some slots

-- The tests of `sanityCheck` on one item; each of them aborts where it fails.
abbrev pub sane_item : ActionItem → Bool
sane_item it =
    (n_read it == length it.input)
    && all_some it.input
    && (n_write it == length it.output)
    && all_some it.output

unfoldable pub sanity_check : Heap → List ℕ → Result (Unit {0})
sanity_check h [] = ok tt
sanity_check h (p ∷ ps) = if sane_item (h p) then sanity_check h ps else err sanity_check_failed
