-- ===== src/Runtime/Started.antt =====
-- How `_start_pipeline` ends: what it leaves when it fails, and what runs when it succeeds.
use mathlib.Core.Bool.{decide_iff}
use locai_link.Base.{
  String, true, false, Option, some, ◌≡◌, refl, inl, inr, arith, Option-cases, Bool-cases, ◌&&◌,
  not, eq_iff, eq_refl, ◌==◌, if◌then◌else◌,
}
use locai_link.Config.{PipelineConfig, PipelineConfig-discrete}
use locai_link.Dict.{lookup, has}
use locai_link.Dict.Laws.{lookup-insert}
use locai_link.Runtime.{AgentRuntime, Env}
use locai_link.Runtime.Pipelines.{pipeline_of, unchanged, restart, start_pipeline}
use locai_link.Runtime.Frame.{SameRest, SameRest-refl, SameConfigs-refl}
use locai_link.Runtime.Starting.{
  Halted, Restarted, restart-Restarted, start_pipeline_cases, Restarted-false, Restarted-true,
}

-- What a start with the new configuration `new` leaves when it succeeds.
pub record Runs (pid : String) (new : PipelineConfig) (r r' : AgentRuntime) : Type 0 where
  pub rest : SameRest r r'
  pub agent : r'.agent_config ≡ r.agent_config
  pub runs : has pid r'.pipelines ≡ true
  pub stored :
      (j : String)
      → lookup j r'.pipeline_configs ≡ (if pid == j then some new else lookup j r.pipeline_configs)
  pub pipes :
      (j : String)
      → lookup j r'.pipelines ≡ (
          if pid == j && not (unchanged pid new r)
          then some (pipeline_of new)
          else lookup j r.pipelines)

unchanged_found :
    (pid : String) (new : PipelineConfig) (r : AgentRuntime)
    → unchanged pid new r ≡ true
    → (lookup pid r.pipeline_configs ≡ some new) × (has pid r.pipelines ≡ true)
unfolding unchanged
unchanged_found pid new r h = elim (Option-cases (lookup pid r.pipeline_configs)) [
  | inl e ↦ ground (arith, e, h)
  | inr (current, e) ↦ ground (arith, e, h, (decide_iff (PipelineConfig-discrete new current)).0)
]

unchanged-Runs :
    (pid : String) (new : PipelineConfig) (r : AgentRuntime)
    → unchanged pid new r ≡ true
    → Runs pid new r r
unchanged-Runs pid new r h = record {
  rest = SameRest-refl r;
  agent = refl;
  runs = (unchanged_found pid new r h).1;
  stored = λ j. ground (arith, eq_iff pid j, (unchanged_found pid new r h).0);
  pipes = λ j. ground (arith, h);
}

module _ (env : Env) where
  Restarted-Runs :
      (pid : String) (new : PipelineConfig) (r r' : AgentRuntime)
      → unchanged pid new r ≡ false
      → Restarted env pid (some new) new r (r', true)
      → Runs pid new r r'
  Restarted-Runs pid new r r' changed (rest, agent, configs, pipes) = record {
    rest = rest;
    agent = agent;
    runs = ground (arith, pipes pid, eq_refl pid);
    stored = λ j. ground (arith, configs, lookup-insert pid j new r.pipeline_configs);
    pipes = λ j. ground (arith, changed, pipes j);
  }

  -- A start that fails, with a new configuration or without one, leaves the configurations, the
  -- reports and all other pipelines as they were; the pipeline named still runs as before, or it
  -- was stopped and does not run.
  pub start_failed :
      (pid : String) (pending : Option PipelineConfig) (r : AgentRuntime)
      → (start_pipeline env pid pending r).1 ≡ false
      → Halted env pid r (start_pipeline env pid pending r).0
  start_failed pid pending r h = elim (start_pipeline_cases env pid pending r) [
    | inl (new, e, same, q) ↦ cc
    | inr (inl q) ↦ rw q (SameConfigs-refl r, λ j. inl refl)
    | inr (inr (c, chosen, q)) ↦ rw q (
        Restarted-false env pid pending c r (restart env pid pending c r)
          (restart-Restarted env pid pending c r) (rw q at h))
  ]

  -- A start with a new configuration that succeeds leaves that configuration stored and the
  -- pipeline running, rebuilt from it unless it was running with this very configuration; other
  -- pipelines, their configurations and the reports are as they were.
  pub start_succeeded :
      (pid : String) (new : PipelineConfig) (r : AgentRuntime)
      → (start_pipeline env pid (some new) r).1 ≡ true
      → Runs pid new r (start_pipeline env pid (some new) r).0
  unfolding start_pipeline
  start_succeeded pid new r h = elim (Bool-cases (unchanged pid new r)) [
    | inl same ↦ rw (same, start_pipeline) (unchanged-Runs pid new r same)
    | inr changed ↦
        let x = restart env pid (some new) new r in
        let q : start_pipeline env pid (some new) r ≡ x = rw (changed, start_pipeline) in
        rw q (
          Restarted-Runs pid new r x.0 changed (
            Restarted-true env pid (some new) new r x (restart-Restarted env pid (some new) new r)
              (rw q at h)))
  ]
