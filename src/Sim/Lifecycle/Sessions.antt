-- ===== src/Sim/Lifecycle/Sessions.antt =====
-- Whole sessions of a scheduler, and the guards of its methods.
use impact.Prelude.{
  ℕ, ◌≡◌, refl, sym, ap, ◌∙◌, true, false, List, [], ◌∷◌, ◌++◌, map, reverse, arith, append_assoc,
  append-nil,
}
use mathlib.Core.List.{reverse-append, map-append}
use impact.Sim.Item.{Heap, ok, ◌>>=◌}
use impact.Sim.Register.{Scheduler}
use impact.Sim.Lifecycle.{
  Call, actions_of, Outcome, init_actions, run_actions, finalize_actions, push_output, push_input,
  chain, push_root, append_sorted, user_schedule,
}

chain_actions : (ps : List ℕ) (h : Heap) (r : ℕ) → (chain ps h r).myaction ≡ (h r).myaction
unfolding chain
chain_actions [] h r = refl
chain_actions (p ∷ []) h r = refl
chain_actions (p ∷ q ∷ ps) h r =
    chain_actions (q ∷ ps) (push_input q p (push_output p q h)) r ∙ ground arith

actions_of-chain : (ps qs : List ℕ) (h : Heap) → actions_of (chain ps h) qs ≡ actions_of h qs
actions_of-chain ps [] h = refl
actions_of-chain ps (q ∷ qs) h = rw (chain_actions ps h q, actions_of-chain ps qs h) refl

actions_of-reverse :
    (h : Heap) (ps : List ℕ) → actions_of h (reverse ps) ≡ reverse (actions_of h ps)
actions_of-reverse h [] = refl
actions_of-reverse h (p ∷ ps) =
    ap (actions_of h) (reverse-append (p ∷ []) ps)
    ∙ map-append _ (reverse ps) (p ∷ [])
    ∙ ap (λ l. l ++ (h p).myaction ∷ []) (actions_of-reverse h ps)
    ∙ sym (reverse-append ((h p).myaction ∷ []) (actions_of h ps))

append_sorted_lem : (ps sort roots : List ℕ) → (append_sorted ps sort roots).0 ≡ sort ++ ps
unfolding append_sorted
append_sorted_lem [] sort roots = sym (append-nil sort)
append_sorted_lem (p ∷ ps) sort roots =
    append_sorted_lem ps (sort ++ p ∷ []) (push_root roots p) ∙ append_assoc sort (p ∷ []) ps

module _ (Time : Type 0) where
  -- A driver that schedules, initialises, runs once and finalizes, with all the calls in order.
  pub user_session : (t dt alpha : Time) → Scheduler → Outcome Time
  user_session t dt alpha s = do
    one ← user_schedule Time s
    two ← init_actions Time t one.0
    three ← run_actions Time t dt alpha two.0
    four ← finalize_actions Time three.0
    ok (four.0, one.1 ++ two.1 ++ three.1 ++ four.1)

  -- A session of a `UserScheduler` succeeds from a scheduler that is not scheduled: it schedules,
  -- initialises and runs the actions in the order of their registration, and finalizes them in
  -- reverse.
  pub user_session_calls :
      (t dt alpha : Time) (s : Scheduler)
      → s.scheduled ≡ false
      → s.inited ≡ false
      → s.sort ≡ []
      → let order = actions_of s.heap s.actions in
        (s' : Scheduler) × (user_session t dt alpha s
          ≡ ok (
            s',
            map Call.schedule order
                ++ map (λ a. Call.init a t) order
                ++ map (λ a. Call.run a t dt alpha) order
                ++ map Call.finalize (reverse order),
          ))
  unfolding user_session user_schedule init_actions run_actions finalize_actions
  user_session_calls t dt alpha s un ini srt =
      let sorted : (append_sorted s.actions s.sort s.roots).0 ≡ s.actions =
        append_sorted_lem s.actions s.sort s.roots ∙ ap (λ l. l ++ s.actions) srt in
      let last = record s {
        heap = chain s.actions s.heap;
        sort = (append_sorted s.actions s.sort s.roots).0;
        roots = (append_sorted s.actions s.sort s.roots).1;
        scheduled = true;
        inited = true;
      } in
      (last, rw (un, ini) (simp (sorted, actions_of-reverse, actions_of-chain)))

  -- Where `init_actions` and then `finalize_actions` succeed on a scheduler that was not
  -- initialised, the actions are finalized in the reverse of the order in which they were
  -- initialised.
  pub finalize_reverses_init :
      (t : Time) (s s1 s2 : Scheduler) (log1 log2 : List (Call Time))
      → s.inited ≡ false
      → init_actions Time t s ≡ ok (s1, log1)
      → finalize_actions Time s1 ≡ ok (s2, log2)
      → (order : List ℕ) × (log1 ≡ map (λ a. Call.init a t) order)
        × (log2 ≡ map Call.finalize (reverse order))
  unfolding init_actions finalize_actions
  finalize_reverses_init t s s1 s2 log1 log2 un e f =
      let log : log2 ≡ map (λ a. Call.finalize a) (actions_of s.heap (reverse s.sort)) =
        ground arith in
      (
        actions_of s.heap s.sort,
        ground arith,
        log
            ∙ ap {B = List (Call Time)} (λ l. map (λ a. Call.finalize a) l)
                (actions_of-reverse s.heap s.sort),
      )
