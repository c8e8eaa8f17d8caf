-- ===== src/Runtime/Reconfigure.antt =====
-- `apply_config` of src/link/app/runtime.py, and src/link/app/reconfigure.py, which applies a new
-- configuration and goes back to the old one when that fails.
use mathlib.Core.Bool.{decide}
use locai_link.Base.{
  ℕ, String, Bool, true, false, not, Option, none, some, List, [], ◌∷◌, map, ◌==◌, elem, length,
  if◌then◌else◌,
}
use locai_link.Config.{
  GenericConfig, GenericConfig-discrete, PipelineConfig, AgentConfig, schema_version,
}
use locai_link.Dict.{Dict, insert, has}
use locai_link.State.{Session, snapshot, restore, update_full_config}
use locai_link.Runtime.{AgentRuntime, Env, tick, persist}
use locai_link.Runtime.Pipelines.{start_pipeline, stop_pipeline}

-- {p.id: p for p in pipelines}
unfoldable pub configs_from : Dict PipelineConfig → List PipelineConfig → Dict PipelineConfig
configs_from d [] = d
configs_from d (p ∷ ps) = configs_from (insert p.id p d) ps

abbrev pub ids : List PipelineConfig → List String
ids ps = map (λ p. p.id) ps

-- old_ids - new_ids. A set has no order; the model goes by the old list.
unfoldable pub removed_ids : List PipelineConfig → List PipelineConfig → List String
removed_ids [] new = []
removed_ids (p ∷ ps) new =
    let rest = removed_ids ps new in if elem p.id (ids new) then rest else p.id ∷ rest

pub TransportConfig-discrete : Discrete (Option GenericConfig)
TransportConfig-discrete = hlevel GenericConfig-discrete

-- How `apply_agent_config` ends.
pub data ApplyResult : Type 0 where
  unsupported_version invalid_config identity_drift transport_change : ApplyResult
  applied : ℕ → ApplyResult
  reverted scheduled_restart : ApplyResult

abbrev pub is_ok : ApplyResult → Bool
is_ok (applied n) = true
is_ok _ = false

-- The session that a rollback goes back to.
unfoldable pub snapshot_state : AgentRuntime → Option Session
snapshot_state r = elim r.state_manager [ none ↦ none | some m ↦ snapshot m ]

request_restart : AgentRuntime → AgentRuntime
request_restart r = record r {
  config_restart_requested = true;
  running = false;
  shutdown_event = true;
}

module _ (env : Env) where
  -- `false` stands for the RuntimeError.
  unfoldable pub stop_all : List String → AgentRuntime → AgentRuntime × Bool
  stop_all [] r = (r, true)
  stop_all (pid ∷ pids) r =
      let (r', ok) = stop_pipeline env pid r in
      let rest = stop_all pids r' in if ok then rest else (r', false)

  unfoldable pub swap_one : PipelineConfig → AgentRuntime → AgentRuntime × Bool
  swap_one p r =
      if p.active
      then start_pipeline env p.id (some p) r
      else if has p.id r.pipelines
      then stop_pipeline env p.id r
      else (r, true)

  unfoldable pub swap_each : List PipelineConfig → AgentRuntime → AgentRuntime × Bool
  swap_each [] r = (r, true)
  swap_each (p ∷ ps) r =
      let (r', ok) = swap_one p r in let rest = swap_each ps r' in if ok then rest else (r', false)

  -- `_diff_and_swap_pipelines`
  unfoldable pub diff_and_swap_pipelines :
      AgentConfig → AgentConfig → AgentRuntime → AgentRuntime × Bool
  diff_and_swap_pipelines old new r =
      let (r', stopped) = stop_all (removed_ids old.pipelines new.pipelines) r in
      if stopped then swap_each new.pipelines r' else (r', false)

  publish_config : AgentConfig → AgentRuntime → AgentRuntime
  publish_config target r = record r {
    agent_config = target;
    pipeline_configs = configs_from [] target.pipelines;
    aliased = ids target.pipelines;
  }

  -- `rebuild_handlers` may raise; what was swapped then stays swapped.
  unfoldable pub apply_config : AgentConfig → AgentConfig → AgentRuntime → AgentRuntime × Bool
  unfolding publish_config tick
  apply_config target previous r =
      let (r', swapped) = diff_and_swap_pipelines previous target r in
      if not swapped
      then (r', false)
      else if env.rebuilds r'.now
      then (publish_config target (tick r'), true)
      else (tick r', false)

  -- The `except` branch: go back to the snapshot, or ask for a restart with the new configuration.
  unfoldable pub revert :
      AgentConfig → AgentConfig → Option Session → AgentRuntime → AgentRuntime × ApplyResult
  unfolding request_restart
  revert snapshot_cfg new_cfg saved r =
      let (r', back) = apply_config snapshot_cfg new_cfg r in
      if back
      then (persist env (λ o. restore o saved) r', reverted)
      else (request_restart (persist env (λ o. update_full_config o new_cfg) r'), scheduled_restart)

  -- Snapshot, apply, and persist. The report to Control changes nothing here.
  unfoldable pub hot_swap : AgentConfig → AgentRuntime → AgentRuntime × ApplyResult
  unfolding snapshot_state revert
  hot_swap new_cfg r =
      let (r', ok) = apply_config new_cfg r.agent_config r in
      if ok
      then (persist env (λ o. update_full_config o new_cfg) r', applied (length new_cfg.pipelines))
      else revert r.agent_config new_cfg (snapshot_state r) r'

  -- `resolved` is the `version` field with the placeholders resolved, and `AgentConfig(**resolved)`
  -- if that does not raise.
  unfoldable pub apply_agent_config :
      String → Option AgentConfig → AgentRuntime → AgentRuntime × ApplyResult
  apply_agent_config version resolved r =
      if not (version == schema_version) then (r, unsupported_version) else elim resolved [
        | none ↦ (r, invalid_config)
        | some new_cfg ↦
            if not (new_cfg.identity.device_id == r.agent_config.identity.device_id)
            then (r, identity_drift)
            else if not
                (decide (TransportConfig-discrete new_cfg.transport r.agent_config.transport))
            then (r, transport_change)
            else hot_swap new_cfg r
      ]
