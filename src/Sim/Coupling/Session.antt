-- ===== src/Sim/Coupling/Session.antt =====
-- A coupling from registration to its end.
use impact.Prelude.{ℕ, ◌≡◌, refl, Bool, true, false, List, [], ◌∷◌, All, if◌then◌else◌}
use impact.Sim.Item.{Result, ok, ◌>>=◌}
use impact.Sim.Register.{Scheduler}
use impact.Sim.Lifecycle.{user_schedule, init_actions, finalize_actions}
use impact.Sim.Coupling.{
  Agent, Coupling, Log, Method, agent_schedule, agent_finalize, agent_call_method, on_agents,
  Effect, coupling_schedule, coupling_call_method, restart, run_initactions, coupling_init,
  allowed_step, coupling_run, coupling_finalize,
}
use impact.Sim.Coupling.Stages.{
  Fresh, Scheduled, Live, AllOf, AllBut, CouplingOf, Gives, Gives-bind, Carries, CarriesAgent,
  user_schedule_total, init_actions_total, run_actions_total, finalize_actions_total, restart_total,
  on_all_schedulers_total, agent_call_method_total, on_agents_total,
}

module _ (Time : Type 0) where
  coupling_schedule_total :
      (c : Coupling)
      → CouplingOf Fresh (AllOf Fresh) c
      → Gives (coupling_schedule Time c) (λ r. CouplingOf Scheduled (AllOf Scheduled) r.0)
  unfolding coupling_schedule agent_schedule
  coupling_schedule_total c p =
      Gives-bind (user_schedule Time c.init_scheduler) _ (λ r. Scheduled r.0) _
        (user_schedule_total Time c.init_scheduler p.init_scheduler)
        λ one q1.
          Gives-bind (user_schedule Time c.scheduler) _ (λ r. Scheduled r.0) _
            (user_schedule_total Time c.scheduler p.scheduler)
            λ two q2.
              Gives-bind (on_agents Time (agent_schedule Time) c.agents) _
                (λ r. All (AllOf Scheduled) r.0) _
                (on_agents_total Time (AllOf Fresh) (AllOf Scheduled) (agent_schedule Time)
                  (on_all_schedulers_total Time Fresh Scheduled (user_schedule Time)
                    (user_schedule_total Time))
                  c.agents p.agents)
                λ three q3. (_, refl, record { init_scheduler = q1; scheduler = q2; agents = q3 })

  coupling_call_method_total :
      (P Q R : Scheduler → Type 0) (method : Method Time)
      → Carries Time P method Q
      → (c : Coupling) → CouplingOf P (AllBut R P) c
      → Gives (coupling_call_method Time method c) (λ r. CouplingOf Q (AllBut R Q) r.0)
  unfolding coupling_call_method
  coupling_call_method_total P Q R method carries c p =
      Gives-bind (method c.init_scheduler) _ (λ r. Q r.0) _
        (carries c.init_scheduler p.init_scheduler)
        λ one q1.
          Gives-bind (on_agents Time (agent_call_method Time method) c.agents) _
            (λ r. All (AllBut R Q) r.0) _
            (on_agents_total Time (AllBut R P) (AllBut R Q) (agent_call_method Time method)
              (agent_call_method_total Time P Q method carries R) c.agents p.agents)
            λ two q2.
              Gives-bind (method c.scheduler) _ (λ r. Q r.0) _ (carries c.scheduler p.scheduler)
                λ three q3. (_, refl, record { init_scheduler = q1; scheduler = q3; agents = q2 })

  restart_if_total :
      (reinit : Bool) (c : Coupling)
      → CouplingOf Scheduled (AllBut Live Scheduled) c
      → Gives
          (if reinit then coupling_call_method Time (restart Time) c else ok (c, []))
          (λ r. CouplingOf Scheduled (AllBut Live Scheduled) r.0)
  restart_if_total true c p =
      coupling_call_method_total Scheduled Scheduled Live (restart Time) (restart_total Time) c p
  restart_if_total false c p = ((c, []), refl, p)

  module _ (agent_init : Time → Time → Agent → Result (Agent × Log Time)) (t dt zero_alpha : Time)
      (inits : CarriesAgent Time (AllOf Scheduled) (agent_init t dt) (AllBut Live Scheduled)) where
    coupling_init_total :
        (reinit : Bool) (c : Coupling)
        → CouplingOf Fresh (AllOf Fresh) c
        → Gives
            (coupling_init Time agent_init t dt zero_alpha reinit c)
            (λ r. CouplingOf Live (AllBut Live Live) r.0)
    unfolding coupling_init run_initactions
    coupling_init_total reinit c p =
        Gives-bind (coupling_schedule Time c) _ (λ r. CouplingOf Scheduled (AllOf Scheduled) r.0) _
          (coupling_schedule_total c p)
          λ one q1.
            Gives-bind (on_agents Time (agent_init t dt) one.0.agents) _
              (λ r. All (AllBut Live Scheduled) r.0) _
              (on_agents_total Time (AllOf Scheduled) (AllBut Live Scheduled) (agent_init t dt)
                inits one.0.agents q1.agents)
              λ two q2.
                Gives-bind _ _ (λ r. CouplingOf Scheduled (AllBut Live Scheduled) r.0) _
                  (restart_if_total reinit (record one.0 { agents = two.0 })
                    (record {
                      init_scheduler = q1.init_scheduler;
                      scheduler = q1.scheduler;
                      agents = q2;
                    }))
                  λ three q3.
                    Gives-bind _ _ (λ r. CouplingOf Live (AllBut Live Live) r.0) _
                      (coupling_call_method_total Scheduled Live Live (init_actions Time t)
                        (init_actions_total Time t) three.0 q3)
                      λ four q4.
                        Gives-bind _ _ (λ r. CouplingOf Live (AllBut Live Live) r.0) _
                          (Gives-bind _ _ (λ r. Live r.0) _
                            (run_actions_total Time t dt zero_alpha four.0.init_scheduler
                              q4.init_scheduler)
                            λ run q5. (
                              _,
                              refl,
                              record {
                                init_scheduler = q5;
                                scheduler = q4.scheduler;
                                agents = q4.agents;
                              },
                            ))
                          λ five q6. (_, refl, q6)

  coupling_run_total :
      (min : Time → Time → Time) (max_timestep : Agent → Time → Time → Time) (t dt minus_one : Time)
      (pred : ℕ) (c : Coupling)
      → CouplingOf Live (AllOf Live) c
      → Gives
          (coupling_run Time min max_timestep t dt minus_one pred c)
          (λ r. CouplingOf Live (AllOf Live) r.0)
  unfolding coupling_run
  coupling_run_total min max_timestep t dt minus_one pred c p =
      Gives-bind _ _ (λ r. Live r.0) _
        (run_actions_total Time t (allowed_step Time min max_timestep t dt c.agents) minus_one
          c.scheduler p.scheduler)
        λ one q.
          (_, refl, record { init_scheduler = p.init_scheduler; scheduler = q; agents = p.agents })

  coupling_finalize_total :
      (c : Coupling)
      → CouplingOf Live (AllOf Live) c
      → Gives (coupling_finalize Time c) (λ r. CouplingOf Live (AllOf Live) r.0)
  unfolding coupling_finalize agent_finalize
  coupling_finalize_total c p =
      Gives-bind (finalize_actions Time c.init_scheduler) _ (λ r. Live r.0) _
        (finalize_actions_total Time c.init_scheduler p.init_scheduler)
        λ one q1.
          Gives-bind (finalize_actions Time c.scheduler) _ (λ r. Live r.0) _
            (finalize_actions_total Time c.scheduler p.scheduler)
            λ two q2.
              Gives-bind (on_agents Time (agent_finalize Time) c.agents) _
                (λ r. All (AllOf Live) r.0) _
                (on_agents_total Time (AllOf Live) (AllOf Live) (agent_finalize Time)
                  (on_all_schedulers_total Time Live Live (finalize_actions Time)
                    (finalize_actions_total Time))
                  c.agents p.agents)
                λ three q3. (_, refl, record { init_scheduler = q1; scheduler = q2; agents = q3 })

AllOf-Live : (agents : List Agent) → All (AllBut Live Live) agents → All (AllOf Live) agents
AllOf-Live [] a = tt
AllOf-Live (x ∷ agents) (p, a) =
    (record { ic = p.ic; bc_init = p.bc_init; bc = p.bc; gm = p.gm }, AllOf-Live agents a)

-- A driver that initialises a coupling, runs it once and finalizes it.
abbrev pub coupling_session :
    (Time : Type 0) (agent_init : Time → Time → Agent → Result (Agent × Log Time))
    (min : Time → Time → Time) (max_timestep : Agent → Time → Time → Time)
    (t dt zero_alpha minus_one : Time) (pred : ℕ) (reinit : Bool)
    → Coupling
    → Effect Time
coupling_session Time agent_init min max_timestep t dt zero_alpha minus_one pred reinit c = do
  one ← coupling_init Time agent_init t dt zero_alpha reinit c
  two ← coupling_run Time min max_timestep t dt minus_one pred one.0
  coupling_finalize Time two.0

-- A coupling none of whose schedulers has been scheduled goes through `init`, with or without
-- `reinit`, `run` and `finalize` without an abort, and leaves each scheduler of the coupling and of its
-- agents scheduled and initialised, provided that the initialisation of each agent returns, has
-- `init_actions` called on the scheduler of its initial condition, and leaves its other schedulers
-- scheduled.
pub coupling_session_total :
    (Time : Type 0) (agent_init : Time → Time → Agent → Result (Agent × Log Time))
    (min : Time → Time → Time) (max_timestep : Agent → Time → Time → Time)
    (t dt zero_alpha minus_one : Time) (pred : ℕ) (reinit : Bool) (c : Coupling)
    → ((a : Agent) → AllOf Scheduled a → Gives (agent_init t dt a) (λ r. AllBut Live Scheduled r.0))
    → CouplingOf Fresh (AllOf Fresh) c
    → (r : Coupling × Log Time) × (coupling_session Time agent_init min max_timestep t dt zero_alpha
          minus_one pred reinit c
        ≡ ok r)
      × CouplingOf Live (AllOf Live) r.0
coupling_session_total Time agent_init min max_timestep t dt zero_alpha minus_one pred reinit c
      inits p =
    Gives-bind _ _ (λ r. CouplingOf Live (AllBut Live Live) r.0) _
      (coupling_init_total Time agent_init t dt zero_alpha inits reinit c p)
      λ one q1.
        Gives-bind _ _ (λ r. CouplingOf Live (AllOf Live) r.0) _
          (coupling_run_total Time min max_timestep t dt minus_one pred one.0 (record {
            init_scheduler = q1.init_scheduler;
            scheduler = q1.scheduler;
            agents = AllOf-Live one.0.agents q1.agents;
          }))
          λ two q2. coupling_finalize_total Time two.0 q2
