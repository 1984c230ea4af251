-- ===== src/Sim/Tests/Couplings.antt =====
-- A coupling of one agent, with the two actions of the scheduler tests in each of its own schedulers.
use impact.Prelude.{pos, ℕ, ◌≡◌, refl, [], ◌∷◌, true}
use impact.Sim.Item.{Result, ok, ◌>>=◌}
use impact.Sim.Register.{new_scheduler}
use impact.Sim.Lifecycle.{init_actions}
use impact.Sim.Coupling.{Agent, Coupling, Log}
use impact.Sim.Coupling.Stages.{
  Scheduled, Live, AllOf, AllBut, CouplingOf, Gives, init_actions_total,
}
use impact.Sim.Tests.{two_actions, unscheduled_two}
use impact.Sim.Coupling.Session.{coupling_session, coupling_session_total}

abbrev small_agent : Agent
small_agent = record {
  ic = two_actions;
  bc_init = new_scheduler;
  bc = (pos 1, two_actions) ∷ [];
  gm = new_scheduler;
}

abbrev small_coupling : Coupling
small_coupling = record {
  init_scheduler = two_actions;
  scheduler = two_actions;
  agents = small_agent ∷ [];
  init_started = true;
  init_remeshed = true;
  ipc = 0;
}

-- The module asks for its initial condition and does nothing else.
abbrev obtain : ℕ → ℕ → Agent → Result (Agent × Log ℕ)
obtain t dt a = do one ← init_actions ℕ t a.ic; ok (record a { ic = one.0 }, one.1)

obtain_total :
    (t dt : ℕ) (a : Agent)
    → AllOf Scheduled a
    → Gives (obtain t dt a) (λ r. AllBut Live Scheduled r.0)
obtain_total t dt a p =
    let (r, e, q) = init_actions_total ℕ t a.ic p.ic in
    (
      (record a { ic = r.0 }, r.1),
      rw e refl,
      record { ic = q; bc_init = p.bc_init; bc = p.bc; gm = p.gm },
    )

coupling_session_total_example :
    (r : Coupling × Log ℕ) × (coupling_session ℕ obtain
        (λ a b. b)
        (λ a t dt. dt)
        5
        1
        0
        7
        1
        true
        small_coupling
      ≡ ok r)
    × CouplingOf Live (AllOf Live) r.0
coupling_session_total_example =
    coupling_session_total ℕ obtain (λ a b. b) (λ a t dt. dt) 5 1 0 7 1 true small_coupling
      (obtain_total 5 1)
      (record {
        init_scheduler = unscheduled_two;
        scheduler = unscheduled_two;
        agents = (
          record { ic = unscheduled_two; bc_init = refl; bc = (unscheduled_two, tt); gm = refl },
          tt,
        );
      })
