-- ===== src/Runtime/Pipelines.antt =====
-- src/link/app/runtime.py: starting and stopping pipelines.
use text.Mathlib.Text.{starts_with}
use locai_link.Base.{
  String, Bool, true, false, not, ◌&&◌, Option, none, some, without, if◌then◌else◌,
}
use mathlib.Core.Bool.{decide}
use locai_link.Config.{GenericConfig, PipelineConfig, PipelineConfig-discrete}
use locai_link.Dict.{lookup, insert, erase, has}
use locai_link.State.{set_pipeline_status, update_pipeline_config}
use locai_link.Runtime.{AgentRuntime, Pipeline, Env, tick, persist}

abbrev pub pipeline_of : PipelineConfig → Pipeline
pipeline_of c = record { pipeline_id = c.id; source = c.source; sink = c.sink }

-- Running, with this very configuration stored.
unfoldable pub unchanged : String → PipelineConfig → AgentRuntime → Bool
unchanged pid new r = has pid r.pipelines && elim (lookup pid r.pipeline_configs) [
  | none ↦ false
  | some current ↦ decide (PipelineConfig-discrete new current)
]

module _ (env : Env) where
  -- `_create_component`: `false` if it raises.
  unfoldable pub create_component : GenericConfig → AgentRuntime → AgentRuntime × Bool
  unfolding tick
  create_component comp r =
      if starts_with comp.type "zenoh_" && not r.zenoh_session
      then (r, false)
      else (tick r, env.creates r.now comp)

  unfoldable pub create_sink : Option GenericConfig → AgentRuntime → AgentRuntime × Bool
  create_sink none r = (r, true)
  create_sink (some comp) r = create_component comp r

  -- The `try` block that builds the source, then the sink.
  unfoldable pub build : PipelineConfig → AgentRuntime → AgentRuntime × Bool
  unfolding create_component create_sink
  build c r =
      let (r', made) = create_component c.source r in
      if made then create_sink c.sink r' else (r', false)

  unfoldable pub stop_pipeline : String → AgentRuntime → AgentRuntime × Bool
  unfolding tick persist
  stop_pipeline pid r = elim (lookup pid r.pipelines) [
    | none ↦ (r, true)
    | some pipe ↦
        let stopped = tick r in
        if env.stops r.now pid
        then (
          persist env (λ o. set_pipeline_status o pid false)
              (record stopped { pipelines = erase pid r.pipelines }),
          true,
        )
        else (stopped, false)
  ]

  publish : String → Option PipelineConfig → PipelineConfig → AgentRuntime → AgentRuntime
  publish pid none c r = record r { pipelines = insert pid (pipeline_of c) r.pipelines }
  publish pid (some p) c r = record r {
    pipeline_configs = insert pid p r.pipeline_configs;
    aliased = without pid r.aliased;
    pipelines = insert pid (pipeline_of c) r.pipelines;
  }

  -- The two assignments under the lock, and the persistence that follows the start.
  unfoldable pub commit_start :
      String → Option PipelineConfig → PipelineConfig → AgentRuntime → AgentRuntime
  unfolding persist publish
  commit_start pid pending c r =
      persist env (λ o. set_pipeline_status o pid true)
        (persist env (λ o. update_pipeline_config o c) (publish pid pending c r))

  -- The pipeline is stopped first if it runs.
  unfoldable pub halt : String → AgentRuntime → AgentRuntime × Bool
  halt pid r = if has pid r.pipelines then stop_pipeline pid r else (r, true)

  unfoldable pub build_and_commit :
      String → Option PipelineConfig → PipelineConfig → AgentRuntime → AgentRuntime × Bool
  build_and_commit pid pending c r =
      let (r', built) = build c r in
      if built then (commit_start pid pending c r', true) else (r', false)

  unfoldable pub restart :
      String → Option PipelineConfig → PipelineConfig → AgentRuntime → AgentRuntime × Bool
  restart pid pending c r =
      let (r', stopped) = halt pid r in
      if stopped then build_and_commit pid pending c r' else (r', false)

  unfoldable pub start_pipeline :
      String → Option PipelineConfig → AgentRuntime → AgentRuntime × Bool
  start_pipeline pid (some new) r =
      if unchanged pid new r then (r, true) else restart pid (some new) new r
  start_pipeline pid none r = elim (lookup pid r.pipeline_configs) [
    | none ↦ (r, false)
    | some c ↦ restart pid none c r
  ]
