-- ===== src/Runtime/Handle.antt =====
-- `handle_command` and `_snapshot_models` of src/link/app/runtime.py. Reports do not raise, and
-- neither does what they call, so the outer `except` is never entered.
use locai_link.Base.{
  ℕ, String, Bool, true, false, not, ◌&&◌, Option, none, some, elem, List, [], ◌∷◌, ◌==◌,
  if◌then◌else◌,
}
use locai_link.Json.{Json, text, number}
use locai_link.Config.{PipelineConfig, AgentConfig}
use locai_link.Dict.{Dict, lookup, insert, has}
use locai_link.State.{update_pipeline_config}
use locai_link.Runtime.{
  AgentRuntime, Command, deploy_model, cancel_deploy, start_model, start_model_inference,
  stop_model_inference, start_serving, stop_serving, uninstall_model, update_pipeline, status,
  update_agent, update_agent_config, Parsed, parsed, invalid, Env, completed, failed, command,
  model, report, tick, persist, truthy, Pipeline,
}
use locai_link.Runtime.Pipelines.{start_pipeline, stop_pipeline}
use locai_link.Runtime.Reconfigure.{
  ApplyResult, applied, scheduled_restart, apply_agent_config, ids,
}
use locai_link.Runtime.Models.{
  deploy, cancel, update, uninstall, is_safe_basename, is_safe_extension, refused, non_empty,
}

-- config.source.args.update({...})
unfoldable pub serve_args : ℕ → String → String → PipelineConfig → PipelineConfig
serve_args port host alias c = record c {
  source = record (c.source) {
    args = insert "alias" (text alias) (
        insert "host" (text host)
          (insert "port" (number port) (insert "mode" (text "serve") c.source.args)));
  };
}

-- The last pipeline with an id: the one that `pipeline_configs` was built from.
on_last : String → (PipelineConfig → PipelineConfig) → List PipelineConfig → List PipelineConfig
on_last pid f [] = []
on_last pid f (p ∷ ps) =
    if p.id == pid && not (elem pid (ids ps)) then f p ∷ ps else p ∷ on_last pid f ps

-- The change of the stored configuration, which reaches `agent_config` where it is the same object.
unfoldable pub change_stored :
    String → PipelineConfig → (PipelineConfig → PipelineConfig) → AgentRuntime → AgentRuntime
unfolding on_last
change_stored pid c f r =
    let stored = record r { pipeline_configs = insert pid (f c) r.pipeline_configs } in
    if elem pid r.aliased
    then record stored {
      agent_config = record (r.agent_config) { pipelines = on_last pid f r.agent_config.pipelines };
    }
    else stored

unfoldable pub finish : String → String → Bool → Bool → ℕ → AgentRuntime × Bool → AgentRuntime
finish cid pid running serving port (r, true) =
    report (model pid running serving port) (report (command cid completed) r)
finish cid pid running serving port (r, false) = report (command cid failed) r

unfoldable pub outcome : String → AgentRuntime × Bool → AgentRuntime
outcome cid (r, true) = report (command cid completed) r
outcome cid (r, false) = report (command cid failed) r

set_serving_if : Bool → Option String → AgentRuntime → AgentRuntime
set_serving_if true model_id r = record r { serving = model_id }
set_serving_if false model_id r = r

-- `self.health_state.model_id == cmd.pipeline_id`
is_served : String → Option String → Bool
is_served pid none = false
is_served pid (some m) = m == pid

module _ (env : Env) where
  unfoldable pub serve : String → String → ℕ → String → String → AgentRuntime → AgentRuntime
  unfolding finish set_serving_if serve_args change_stored
  serve cid pid port host alias r = elim (lookup pid r.pipeline_configs) [
    | none ↦ report (command cid failed) r
    | some c ↦
        let r' =
          persist env (λ o. update_pipeline_config o (serve_args port host alias c))
            (change_stored pid c (serve_args port host alias) r) in
        let started = start_pipeline env pid none r' in
        set_serving_if started.1 (some pid) (finish cid pid false true port started)
  ]

  unfoldable pub stop_serve : String → String → AgentRuntime → AgentRuntime
  unfolding finish set_serving_if is_served
  stop_serve cid pid r =
      let stopped = stop_pipeline env pid r in
      set_serving_if (stopped.1 && is_served pid stopped.0.serving) none
        (finish cid pid false false 0 stopped)

  request_update : String → AgentRuntime → AgentRuntime
  request_update cid r = record (report (command cid completed) r) {
    update_requested = true;
    running = false;
    shutdown_event = true;
  }

  unfoldable pub update_self : String → AgentRuntime → AgentRuntime
  unfolding tick request_update
  update_self cid r =
      if env.can_update r.now
      then request_update cid (tick r)
      else report (command cid failed) (tick r)

  abbrev accepted : ApplyResult → Bool
  accepted (applied n) = true
  accepted scheduled_restart = true
  accepted _ = false

  unfoldable pub update_config : String → AgentConfig → AgentRuntime → AgentRuntime
  update_config cid config r =
      let (r', result) = apply_agent_config env config.version (some config) r in
      report (command cid (if accepted result then completed else failed)) r'

  unfoldable pub uninstall_safely :
      String → String → Bool → Option String → Option String → AgentRuntime → AgentRuntime
  uninstall_safely cid pid force_stop filename ext r =
      if refused (is_safe_basename env.path_name) filename
      then report (command cid failed) r
      else if refused is_safe_extension ext
      then report (command cid failed) r
      else uninstall env cid pid force_stop (non_empty filename) (non_empty ext) r

  unfoldable pub dispatch : Command → AgentRuntime → AgentRuntime
  unfolding finish outcome
  dispatch (deploy_model cid pid model_name config) r = deploy env cid pid model_name config r
  dispatch (cancel_deploy cid pid) r = cancel env cid pid r
  dispatch (start_model cid pid config) r = outcome cid (start_pipeline env pid (some config) r)
  dispatch (start_model_inference cid pid) r =
      finish cid pid true false 0 (start_pipeline env pid none r)
  dispatch (stop_model_inference cid pid) r = finish cid pid false false 0 (stop_pipeline env pid r)
  dispatch (start_serving cid pid port host alias) r = serve cid pid port host alias r
  dispatch (stop_serving cid pid) r = stop_serve cid pid r
  dispatch (uninstall_model cid pid force_stop filename ext) r =
      uninstall_safely cid pid force_stop filename ext r
  dispatch (update_pipeline cid pid config) r = update env cid pid config r
  dispatch (status cid) r = r
  dispatch (update_agent cid) r = update_self cid r
  dispatch (update_agent_config cid config) r = update_config cid config r

  report_invalid : Option String → AgentRuntime → AgentRuntime
  report_invalid none r = r
  report_invalid (some cid) r = if cid == "" then r else report (command cid failed) r

  unfoldable pub handle_command : Parsed → AgentRuntime → AgentRuntime
  unfolding report_invalid
  handle_command (parsed cmd) r = dispatch cmd r
  handle_command (invalid cid) r = report_invalid cid r

-- An entry of `GET /models`.
pub record ModelEntry : Type 0 where
  pub id : String
  pub alias : Json
  pub port : Option Json
  pub host : Json
  pub is_serving : Bool

is_serve_mode : Option Json → Bool
is_serve_mode (some (text mode)) = mode == "serve"
is_serve_mode _ = false

or_text : Env → Option Json → String → Json
or_text env none pid = text pid
or_text env (some v) pid = if truthy env v then v else text pid

or_loopback : Option Json → Json
or_loopback none = text "127.0.0.1"
or_loopback (some v) = v

entry : Env → String → Dict Json → Bool → ModelEntry
entry env pid args active = record {
  id = pid;
  alias = or_text env (lookup "alias" args) pid;
  port = lookup "port" args;
  host = or_loopback (lookup "host" args);
  is_serving = active && is_serve_mode (lookup "mode" args);
}

snapshot_entries : Env → Dict Pipeline → Dict PipelineConfig → List ModelEntry
snapshot_entries env pipes [] = []
snapshot_entries env pipes ((pid, c) ∷ d) =
    let rest = snapshot_entries env pipes d in
    if has "model_path" c.source.args
    then entry env pid c.source.args (has pid pipes) ∷ rest
    else rest

unfoldable pub snapshot_models : Env → AgentRuntime → List ModelEntry
unfolding snapshot_entries entry or_text or_loopback is_serve_mode
snapshot_models env r = snapshot_entries env r.pipelines r.pipeline_configs
