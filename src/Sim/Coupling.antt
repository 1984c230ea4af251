-- ===== src/Sim/Coupling.antt =====
-- SIM/src/Coupling.C, SIM/include/Coupling.h and SIM/src/Agent.C: a coupling with its two schedulers, and
-- the four kinds of scheduler of each agent, which are `UserScheduler`s. `bcSchedulers` is a map from
-- levels, in their order. What `Agent::init` does, the calls of the physics module with it, and
-- `max_timestep` are parameters, as is the arithmetic of `double`. The calls of COM in
-- `Agent::finalize` are left out.
pub mod Stages
pub mod Session
use impact.Prelude.{ℕ, ℤ, Bool, true, false, List, [], ◌∷◌, ◌++◌, if◌then◌else◌}
use impact.Sim.Item.{Result, ok, ◌>>=◌}
use impact.Sim.Register.{Scheduler}
use impact.Sim.Lifecycle.{
  Call, Outcome, user_schedule, init_actions, run_actions, finalize_actions, restarting,
}

pub record Agent : Type 0 where
  pub ic : Scheduler
  pub bc_init : Scheduler
  pub bc : List (ℤ × Scheduler)
  pub gm : Scheduler

pub record Coupling : Type 0 where
  pub init_scheduler : Scheduler
  pub scheduler : Scheduler
  pub agents : List Agent
  pub init_started : Bool
  pub init_remeshed : Bool
  pub ipc : ℕ

module _ (Time : Type 0) where
  abbrev pub Log : Type 0
  Log = List (Call Time)

  -- A method of a scheduler.
  abbrev pub Method : Type 0
  Method = Scheduler → Outcome Time

  -- for (auto &&bcScheduler : bcSchedulers) bcScheduler.second->method()
  unfoldable pub on_levels : Method → List (ℤ × Scheduler) → Result (List (ℤ × Scheduler) × Log)
  on_levels method [] = ok ([], [])
  on_levels method (level ∷ levels) = do
    one ← method level.1
    more ← on_levels method levels
    ok ((level.0, one.0) ∷ more.0, one.1 ++ more.1)

  -- void Agent::schedule() and the start of Agent::finalize()
  unfoldable pub on_all_schedulers : Method → Agent → Result (Agent × Log)
  on_all_schedulers method a = do
    one ← method a.ic
    two ← method a.bc_init
    three ← on_levels method a.bc
    four ← method a.gm
    ok (
      record { ic = one.0; bc_init = two.0; bc = three.0; gm = four.0 },
      one.1 ++ two.1 ++ three.1 ++ four.1,
    )

  unfoldable pub agent_schedule : Agent → Result (Agent × Log)
  agent_schedule a = on_all_schedulers (user_schedule Time) a

  unfoldable pub agent_finalize : Agent → Result (Agent × Log)
  agent_finalize a = on_all_schedulers (finalize_actions Time) a

  -- void Agent::callMethod(Scheduler_voidfn1_t fn, double t)
  unfoldable pub agent_call_method : Method → Agent → Result (Agent × Log)
  agent_call_method method a = do
    one ← method a.bc_init
    two ← on_levels method a.bc
    three ← method a.gm
    ok (record a { bc_init = one.0; bc = two.0; gm = three.0 }, one.1 ++ two.1 ++ three.1)

  -- for (auto &&agent : agents) agent->f()
  unfoldable pub on_agents : (Agent → Result (Agent × Log)) → List Agent → Result (List Agent × Log)
  on_agents f [] = ok ([], [])
  on_agents f (a ∷ agents) = do
    one ← f a
    more ← on_agents f agents
    ok (one.0 ∷ more.0, one.1 ++ more.1)

  -- The coupling after a method, and the calls that it made.
  abbrev pub Effect : Type 0
  Effect = Result (Coupling × Log)

  -- void Coupling::schedule()
  unfoldable pub coupling_schedule : Coupling → Effect
  coupling_schedule c = do
    one ← user_schedule Time c.init_scheduler
    two ← user_schedule Time c.scheduler
    three ← on_agents agent_schedule c.agents
    ok (
      record c { init_scheduler = one.0; scheduler = two.0; agents = three.0 },
      one.1 ++ two.1 ++ three.1,
    )

  -- void Coupling::callMethod(Scheduler_voidfn1_t fn, double t)
  unfoldable pub coupling_call_method : Method → Coupling → Effect
  coupling_call_method method c = do
    one ← method c.init_scheduler
    two ← on_agents (agent_call_method method) c.agents
    three ← method c.scheduler
    ok (
      record c { init_scheduler = one.0; scheduler = three.0; agents = two.0 },
      one.1 ++ two.1 ++ three.1,
    )

  abbrev pub restart : Method
  restart s = ok (restarting s, [])

  -- void Coupling::run_initactions(double t, double dt)
  unfoldable pub run_initactions : (t dt zero_alpha : Time) → Coupling → Effect
  run_initactions t dt zero_alpha c = do
    one ← run_actions Time t dt zero_alpha c.init_scheduler
    ok (record c { init_scheduler = one.0; init_started = false; init_remeshed = false }, one.1)

  -- void Coupling::init(double t, double dt, bool reinit)
  unfoldable pub coupling_init :
      (agent_init : Time → Time → Agent → Result (Agent × Log)) (t dt zero_alpha : Time)
      (reinit : Bool)
      → Coupling
      → Effect
  coupling_init agent_init t dt zero_alpha reinit c = do
    one ← coupling_schedule c
    two ← on_agents (agent_init t dt) one.0.agents
    three ←
        if reinit
        then coupling_call_method restart (record one.0 { agents = two.0 })
        else ok (record one.0 { agents = two.0 }, [])
    four ← coupling_call_method (init_actions Time t) three.0
    five ← run_initactions t dt zero_alpha four.0
    ok (five.0, one.1 ++ two.1 ++ three.1 ++ four.1 ++ five.1)

  -- The least of `dt` and the steps that the agents allow.
  unfoldable pub allowed_step :
      (min : Time → Time → Time) (max_timestep : Agent → Time → Time → Time) (t dt : Time)
      → List Agent
      → Time
  allowed_step min max_timestep t dt [] = dt
  allowed_step min max_timestep t dt (a ∷ agents) =
      allowed_step min max_timestep t (min dt (max_timestep a t dt)) agents

  -- double Coupling::run(double t, double dt, int pred, double zoom), but for the time that it returns
  unfoldable pub coupling_run :
      (min : Time → Time → Time) (max_timestep : Agent → Time → Time → Time) (t dt minus_one : Time)
      (pred : ℕ)
      → Coupling
      → Effect
  coupling_run min max_timestep t dt minus_one pred c = do
    one ← run_actions Time t (allowed_step min max_timestep t dt c.agents) minus_one c.scheduler
    ok (record c { ipc = pred; scheduler = one.0 }, one.1)

  -- void Coupling::finalize()
  unfoldable pub coupling_finalize : Coupling → Effect
  coupling_finalize c = do
    one ← finalize_actions Time c.init_scheduler
    two ← finalize_actions Time c.scheduler
    three ← on_agents agent_finalize c.agents
    ok (
      record c { init_scheduler = one.0; scheduler = two.0; agents = three.0 },
      one.1 ++ two.1 ++ three.1,
    )
