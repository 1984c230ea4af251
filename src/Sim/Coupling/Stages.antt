-- ===== src/Sim/Coupling/Stages.antt =====
-- The stages that the schedulers of a coupling go through, one by one and in an agent.
use impact.Prelude.{
  Bool-cases, inl, inr, ap, ◌∙◌, ℤ, ◌≡◌, refl, true, false, List, [], ◌∷◌, All, map, reverse,
}
use impact.Sim.Item.{Result, ok, ◌>>=◌}
use impact.Sim.Register.{Scheduler}
use impact.Sim.Lifecycle.{
  Call, actions_of, user_schedule, init_actions, run_actions, finalize_actions, restarting,
}
use impact.Sim.Coupling.{
  Agent, Coupling, Log, Method, on_levels, on_all_schedulers, agent_call_method, on_agents, restart,
}

-- Before `schedule`, after it, and after `init_actions`.
abbrev pub Fresh : Scheduler → Type 0
Fresh s = s.scheduled ≡ false

abbrev pub Scheduled : Scheduler → Type 0
Scheduled s = s.scheduled ≡ true

abbrev pub Live : Scheduler → Type 0
Live s = (s.scheduled ≡ true) × (s.inited ≡ true)

pub record AllOf (P : Scheduler → Type 0) (a : Agent) : Type 0 where
  pub ic : P a.ic
  pub bc_init : P a.bc_init
  pub bc : All (λ (level : ℤ × Scheduler). P level.1) a.bc
  pub gm : P a.gm

-- The initial condition may be at another stage.
pub record AllBut (P Q : Scheduler → Type 0) (a : Agent) : Type 0 where
  pub ic : P a.ic
  pub bc_init : Q a.bc_init
  pub bc : All (λ (level : ℤ × Scheduler). Q level.1) a.bc
  pub gm : Q a.gm

pub record CouplingOf (P : Scheduler → Type 0) (Q : Agent → Type 0) (c : Coupling) : Type 0 where
  pub init_scheduler : P c.init_scheduler
  pub scheduler : P c.scheduler
  pub agents : All Q c.agents

-- The computation returns, with a result for which `Q` holds.
abbrev pub Gives : {A : Type 0} → Result A → (A → Type 0) → Type 0
Gives {A} m Q = (r : A) × (m ≡ ok r) × Q r

pub Gives-bind :
    {A B : Type 0} (m : Result A) (f : A → Result B) (Q : A → Type 0) (R : B → Type 0)
    → Gives m Q
    → ((r : A) → Q r → Gives (f r) R)
    → Gives (m >>= f) R
Gives-bind m f Q R (r, e, q) rest =
    let (r', e', q') = rest r q in (r', ap (λ n. n >>= f) e ∙ e', q')

module _ (Time : Type 0) where
  -- The method returns from each scheduler at stage `P`, and leaves it at stage `Q`.
  abbrev pub Carries : (Scheduler → Type 0) → Method Time → (Scheduler → Type 0) → Type 0
  Carries P method Q = (s : Scheduler) → P s → Gives (method s) (λ r. Q r.0)

  abbrev pub CarriesAgent :
      (Agent → Type 0) → (Agent → Result (Agent × Log Time)) → (Agent → Type 0) → Type 0
  CarriesAgent P f Q = (a : Agent) → P a → Gives (f a) (λ r. Q r.0)

  pub user_schedule_total : Carries Fresh (user_schedule Time) Scheduled
  unfolding user_schedule
  user_schedule_total s fresh = rw fresh (_, refl, refl)

  pub init_actions_total : (t : Time) → Carries Scheduled (init_actions Time t) Live
  unfolding init_actions
  init_actions_total t s ready = elim (Bool-cases s.inited) [
    | inl again ↦ ((s, []), rw (ready, again) refl, (ready, again))
    | inr first ↦ (
      (record s { inited = true }, map (λ a. Call.init a t) (actions_of s.heap s.sort)),
      rw (ready, first) refl,
      (ready, refl),
    )
  ]

  pub run_actions_total : (t dt alpha : Time) → Carries Live (run_actions Time t dt alpha) Live
  unfolding run_actions
  run_actions_total t dt alpha s live =
      ((s, map (λ a. Call.run a t dt alpha) (actions_of s.heap s.sort)), rw live.1 refl, live)

  pub finalize_actions_total : Carries Live (finalize_actions Time) Live
  unfolding finalize_actions
  finalize_actions_total s live =
      ((s, map Call.finalize (actions_of s.heap (reverse s.sort))), rw live.1 refl, live)

  pub restart_total : Carries Scheduled (restart Time) Scheduled
  unfolding restarting
  restart_total s ready = (_, refl, ready)

  module _ (P Q : Scheduler → Type 0) (method : Method Time) (carries : Carries P method Q) where
    on_levels_total :
        (levels : List (ℤ × Scheduler))
        → All (λ (level : ℤ × Scheduler). P level.1) levels
        → Gives (on_levels Time method levels) (λ r. All (λ (level : ℤ × Scheduler). Q level.1) r.0)
    unfolding on_levels
    on_levels_total [] a = (([], []), refl, tt)
    on_levels_total ((l, s) ∷ levels) (p, a) =
        Gives-bind (method s) _ (λ r. Q r.0) _ (carries s p)
          λ one q.
            Gives-bind (on_levels Time method levels) _ _ _ (on_levels_total levels a)
              λ more qs. (_, refl, (q, qs))

    pub on_all_schedulers_total : CarriesAgent (AllOf P) (on_all_schedulers Time method) (AllOf Q)
    unfolding on_all_schedulers
    on_all_schedulers_total a p =
        Gives-bind (method a.ic) _ (λ r. Q r.0) _ (carries a.ic p.ic)
          λ one q1.
            Gives-bind (method a.bc_init) _ (λ r. Q r.0) _ (carries a.bc_init p.bc_init)
              λ two q2.
                Gives-bind (on_levels Time method a.bc) _ _ _ (on_levels_total a.bc p.bc)
                  λ three q3.
                    Gives-bind (method a.gm) _ (λ r. Q r.0) _ (carries a.gm p.gm)
                      λ four q4. (_, refl, record { ic = q1; bc_init = q2; bc = q3; gm = q4 })

    pub agent_call_method_total :
        (R : Scheduler → Type 0)
        → CarriesAgent (AllBut R P) (agent_call_method Time method) (AllBut R Q)
    unfolding agent_call_method
    agent_call_method_total R a p =
        Gives-bind (method a.bc_init) _ (λ r. Q r.0) _ (carries a.bc_init p.bc_init)
          λ one q1.
            Gives-bind (on_levels Time method a.bc) _ _ _ (on_levels_total a.bc p.bc) λ two q2.
              Gives-bind (method a.gm) _ (λ r. Q r.0) _ (carries a.gm p.gm)
                λ three q3. (_, refl, record { ic = p.ic; bc_init = q1; bc = q2; gm = q3 })

  pub on_agents_total :
      (P Q : Agent → Type 0) (f : Agent → Result (Agent × Log Time))
      → CarriesAgent P f Q
      → (agents : List Agent) → All P agents
      → Gives (on_agents Time f agents) (λ r. All Q r.0)
  unfolding on_agents
  on_agents_total P Q f carries [] a = (([], []), refl, tt)
  on_agents_total P Q f carries (x ∷ agents) (p, a) =
      Gives-bind (f x) _ (λ r. Q r.0) _ (carries x p)
        λ one q.
          Gives-bind (on_agents Time f agents) _ _ _ (on_agents_total P Q f carries agents a)
            λ more qs. (_, refl, (q, qs))
