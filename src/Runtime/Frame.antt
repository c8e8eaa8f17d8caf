-- ===== src/Runtime/Frame.antt =====
-- What starting and stopping pipelines leaves alone.
use locai_link.Base.{String, ◌≡◌, arith, is_some}
use locai_link.Config.{PipelineConfig}
use locai_link.State.{StateManager, Outcome}
use locai_link.Runtime.{AgentRuntime, Env, persist}
use locai_link.Runtime.Pipelines.{create_component, build, stop_pipeline}

-- Everything but the pipelines, their configurations, the saved state and the clock.
pub record SameRest (r r' : AgentRuntime) : Type 0 where
  pub workers : r'.agent_workers ≡ r.agent_workers
  pub artifacts : r'.artifacts ≡ r.artifacts
  pub pending : r'.pending_uninstalls ≡ r.pending_uninstalls
  pub session : r'.zenoh_session ≡ r.zenoh_session
  pub running : r'.running ≡ r.running
  pub requested : r'.update_requested ≡ r.update_requested
  pub restart_requested : r'.config_restart_requested ≡ r.config_restart_requested
  pub served : r'.serving ≡ r.serving
  pub managed : is_some r'.state_manager ≡ is_some r.state_manager
  pub reports : r'.reports ≡ r.reports

pub SameRest-refl : (r : AgentRuntime) → SameRest r r
SameRest-refl r = ground arith

pub SameRest-trans : (a b c : AgentRuntime) → SameRest a b → SameRest b c → SameRest a c
SameRest-trans a b c h k = ground arith

-- The configurations as well.
pub record SameConfigs (r r' : AgentRuntime) : Type 0 where
  pub rest : SameRest r r'
  pub agent : r'.agent_config ≡ r.agent_config
  pub configs : r'.pipeline_configs ≡ r.pipeline_configs
  pub alias : r'.aliased ≡ r.aliased

pub SameConfigs-refl : (r : AgentRuntime) → SameConfigs r r
SameConfigs-refl r = ground arith

pub SameConfigs-trans : (a b c : AgentRuntime) → SameConfigs a b → SameConfigs b c → SameConfigs a c
SameConfigs-trans a b c h k = ground arith

module _ (env : Env) where
  pub persist-SameConfigs :
      (f : Outcome → StateManager → StateManager) (r : AgentRuntime)
      → SameConfigs r (persist env f r)
  unfolding persist
  persist-SameConfigs f r = ground arith

  pub pipelines-persist :
      (f : Outcome → StateManager → StateManager) (r : AgentRuntime)
      → (persist env f r).pipelines ≡ r.pipelines
  unfolding persist
  pipelines-persist f r = ground arith

  pub stop_pipeline-SameConfigs :
      (pid : String) (r : AgentRuntime) → SameConfigs r (stop_pipeline env pid r).0
  unfolding stop_pipeline
  stop_pipeline-SameConfigs pid r = ground arith

  pub create_component-SameConfigs :
      (c : _) (r : AgentRuntime) → SameConfigs r (create_component env c r).0
  unfolding create_component
  create_component-SameConfigs c r = ground arith

  pub pipelines-build :
      (c : PipelineConfig) (r : AgentRuntime) → (build env c r).0.pipelines ≡ r.pipelines
  unfolding build
  pipelines-build c r = ground arith

  pub build-SameConfigs : (c : PipelineConfig) (r : AgentRuntime) → SameConfigs r (build env c r).0
  unfolding build
  build-SameConfigs c r = ground arith
