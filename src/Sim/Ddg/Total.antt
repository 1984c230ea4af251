-- ===== src/Sim/Ddg/Total.antt =====
-- The end of the loop of `buildDDG` on actions that match.
use impact.Prelude.{
  ℕ, zero, suc, ◌+◌, ◌*◌, ◌<◌, ◌≤◌, ◌≡◌, refl, true, false, some, List, [], ◌∷◌, length,
  length-erase_at, get_elem?, get_elem?_total, In, In-get_elem?, drop-erase_at, drop-length,
  erase_at, arith, inl, inr, Bool-cases, ◌==◌, if◌then◌else◌,
}
use impact.Sim.Item.{Heap, fulfilled, fulfilled_input, ok}
use impact.Sim.Ddg.{
  link_action, advance, ddg_round, Exit, returned, emptied, collect_roots, ddg_loop, build_ddg,
  roots_after,
}
use impact.Sim.Ddg.Steps.{Steps}
use impact.Sim.Ddg.Run.{link_action-Runs}
use impact.Sim.Ddg.Links.{Steps-fulfilled}
use impact.Sim.Ddg.Matched.{Good}
use impact.Sim.Ddg.Fill.{link_action_total}
use impact.Sim.Ddg.Pool.{
  Steps-fulfilled_input, OnPool, IsRead, OnPool-Steps, OnPool-erase_at, IsRead-suc,
  fulfilled_of_inputs,
}

module _ (actions : List ℕ) where
  -- What a round on a pool does, with `act` at position `k`.
  record RoundOf (pool : List ℕ) (k : ℕ) (h : Heap) : Type 0 where
    act : ℕ
    heap : Heap
    at : get_elem? pool k ≡ some act
    round : ddg_round pool k h ≡ ok (heap, advance pool k (fulfilled (heap act)))
    steps : Steps h heap
    inputs : fulfilled_input (heap act) ≡ true

  ddg_round_of_link :
      (pool : List ℕ) (k : ℕ) (h : Heap) (act : ℕ) (h1 : Heap)
      → get_elem? pool k ≡ some act
      → link_action act pool h ≡ ok h1
      → ddg_round pool k h ≡ ok (h1, advance pool k (fulfilled (h1 act)))
  unfolding ddg_round
  ddg_round_of_link pool k h act h1 at e = rw (at, ddg_round, e) refl

  round_total :
      (pool : List ℕ) (k : ℕ) (h : Heap)
      → OnPool actions pool h
      → k < length pool
      → RoundOf pool k h
  round_total pool k h o lt =
      let (act, at) = get_elem?_total pool k lt in
      let (h1, e, full) = link_action_total actions act pool o.no_repeat h o.good o.covered in
      record {
        act = act;
        heap = h1;
        at = at;
        round = ddg_round_of_link pool k h act h1 at e;
        steps = link_action-Runs act pool h o.good.wf h1 e;
        inputs = full;
      }

  abbrev Returns : ℕ → List ℕ → ℕ → Heap → Type 0
  Returns fuel pool k h = (done : Heap × Exit) × (ddg_loop fuel pool k h ≡ ok done)

  abbrev next_at : List ℕ → ℕ → ℕ
  next_at pool k = if k + 1 == length pool then 0 else k

  Returns-last :
      (fuel : ℕ) (pool : List ℕ) (k : ℕ) (h : Heap) (r : RoundOf pool k h)
      → fulfilled (r.heap r.act) ≡ true
      → (length pool == 1) ≡ true
      → Returns (suc fuel) pool k h
  unfolding ddg_loop advance
  Returns-last fuel [] k h r full last = ((h, emptied), refl)
  Returns-last fuel (p ∷ ps) k h r full last =
      ((r.heap, returned), rw (r.round) (rw full (rw last refl)))

  Returns-erased :
      (fuel : ℕ) (pool : List ℕ) (k : ℕ) (h : Heap) (r : RoundOf pool k h)
      → fulfilled (r.heap r.act) ≡ true
      → (length pool == 1) ≡ false
      → Returns fuel (erase_at pool k) (next_at pool k) r.heap
      → Returns (suc fuel) pool k h
  unfolding ddg_loop advance
  Returns-erased fuel [] k h r full more (done, e) = ((h, emptied), refl)
  Returns-erased fuel (p ∷ ps) k h r full more (done, e) =
      (done, rw (r.round) (rw full (rw more e)))

  Returns-kept :
      (fuel : ℕ) (pool : List ℕ) (k : ℕ) (h : Heap) (r : RoundOf pool k h)
      → fulfilled (r.heap r.act) ≡ false
      → (k + 1 == length pool) ≡ false
      → Returns fuel pool (k + 1) r.heap
      → Returns (suc fuel) pool k h
  unfolding ddg_loop advance
  Returns-kept fuel [] k h r waits more (done, e) = ((h, emptied), refl)
  Returns-kept fuel (p ∷ ps) k h r waits more (done, e) =
      (done, rw (r.round) (rw waits (rw more e)))

  next_in_range :
      (pool : List ℕ) (k : ℕ)
      → k < length pool
      → (length pool == 1) ≡ false
      → next_at pool k < length (erase_at pool k)
  next_in_range pool k lt more =
      let n : suc (length (erase_at pool k)) ≡ length pool = length-erase_at pool k lt in
      ground arith

  -- Once all actions are fulfilled, each round takes one from the pool.
  Returns-fulfilled :
      (fuel : ℕ) (pool : List ℕ) (k : ℕ) (h : Heap)
      → OnPool actions pool h
      → ((p : ℕ) → In p actions → fulfilled (h p) ≡ true)
      → k < length pool
      → length pool ≤ fuel
      → Returns fuel pool k h
  Returns-fulfilled zero pool k h o full lt le = absurd (omega arith)
  Returns-fulfilled (suc fuel) pool k h o full lt le =
      let r = round_total pool k h o lt in
      let full1 : (p : ℕ) → In p actions → fulfilled (r.heap p) ≡ true =
        λ p m. Steps-fulfilled r.steps p (full p m) in
      let here : fulfilled (r.heap r.act) ≡ true =
        full1 r.act (o.within r.act (In-get_elem? pool k r.act r.at)) in
      elim (Bool-cases (length pool == 1)) [
        | inl last ↦ Returns-last fuel pool k h r here last
        | inr more ↦
            let n : suc (length (erase_at pool k)) ≡ length pool = length-erase_at pool k lt in
            Returns-erased fuel pool k h r here more (
              Returns-fulfilled fuel (erase_at pool k) (next_at pool k) r.heap
                (OnPool-erase_at actions pool k r.act r.heap r.at here
                  (OnPool-Steps actions pool r.steps o))
                full1 (next_in_range pool k lt more) (omega arith))
      ]

  inputs_at_end :
      (pool : List ℕ) (k : ℕ) (h : Heap)
      → k ≡ length pool
      → IsRead actions pool k h
      → (p : ℕ) → In p actions
      → fulfilled_input (h p) ≡ true
  inputs_at_end pool k h e r p m = elim (r p m) [
    | inr full ↦ full
    | inl waits ↦ absurd (rw (drop-length pool k e) at waits)
  ]

  -- The first pass over the pool reaches its end, and by then all actions are fulfilled.
  Returns-first_pass :
      (fuel : ℕ) (pool : List ℕ) (k : ℕ) (h : Heap)
      → OnPool actions pool h
      → IsRead actions pool k h
      → k < length pool
      → 2 * length pool ≤ fuel + k
      → Returns fuel pool k h
  Returns-first_pass zero pool k h o read lt le = absurd (omega arith)
  Returns-first_pass (suc fuel) pool k h o read lt le =
      let r = round_total pool k h o lt in
      let o1 = OnPool-Steps actions pool r.steps o in
      let read1 : IsRead actions pool (suc k) r.heap =
        IsRead-suc actions pool k r.act r.heap r.at r.inputs (λ p m. elim (read p m) [
          | inl waits ↦ inl waits
          | inr full ↦ inr (Steps-fulfilled_input r.steps p full)
        ]) in
      let all_full : suc k ≡ length pool → (p : ℕ) → In p actions → fulfilled (r.heap p) ≡ true =
        λ e.
          fulfilled_of_inputs actions r.heap o1.good (inputs_at_end pool (suc k) r.heap e read1) in
      elim (Bool-cases (fulfilled (r.heap r.act))) [
        | inr waits ↦ elim (Bool-cases (k + 1 == length pool)) [
          | inl end ↦ absurd (
              cc (
                all_full (ground arith) r.act (o.within r.act (In-get_elem? pool k r.act r.at)),
                waits,
              ))
          | inr more ↦
              let e : suc k ≡ k + 1 = omega arith in
              Returns-kept fuel pool k h r waits more (
                Returns-first_pass fuel pool (k + 1) r.heap o1 (rw (← e) read1) (ground arith)
                  (omega arith))
        ]
        | inl here ↦ elim (Bool-cases (length pool == 1)) [
          | inl last ↦ Returns-last fuel pool k h r here last
          | inr more ↦
              let n : suc (length (erase_at pool k)) ≡ length pool = length-erase_at pool k lt in
              let o2 = OnPool-erase_at actions pool k r.act r.heap r.at here o1 in
              Returns-erased fuel pool k h r here more (elim (Bool-cases (k + 1 == length pool)) [
                | inl end ↦
                    Returns-fulfilled fuel (erase_at pool k) (next_at pool k) r.heap o2
                      (all_full (ground arith)) (next_in_range pool k lt more) (ground arith)
                | inr on ↦
                    let stay : next_at pool k ≡ k = rw on refl in
                    rw stay (
                      Returns-first_pass fuel (erase_at pool k) k r.heap o2
                        (λ p m. rw (drop-erase_at pool k) (read1 p m)) (ground arith) (omega arith))
              ])
        ]
      ]

-- Where the actions match and no pointer contradicts another, `buildDDG` returns, after at most
-- twice as many rounds as there are actions.
pub build_ddg_total :
    (actions roots : List ℕ) (h : Heap)
    → Good actions h
    → (done : Heap × List ℕ) × (build_ddg (2 * length actions) actions roots h ≡ ok done)
unfolding build_ddg ddg_loop collect_roots
build_ddg_total [] roots h g = ((h, roots), refl)
build_ddg_total (a ∷ actions) roots h g =
    let o : OnPool (a ∷ actions) (a ∷ actions) h = record {
      good = g;
      no_repeat = g.matched.no_repeat;
      within = λ p m. m;
      covered = λ p m. inl m;
    } in
    let (done, e) =
      Returns-first_pass (a ∷ actions) (2 * length (a ∷ actions)) (a ∷ actions) 0 h o (λ p m. inl m)
        (omega arith) (omega arith) in
    ((done.0, roots_after done.1 (a ∷ actions) roots done.0), rw e refl)
