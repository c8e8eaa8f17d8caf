-- ===== src/Runtime/Main.antt =====
-- src/link/app/runtime.py: `run` and `_shutdown`. The health server and the lifecycle reports are
-- left out.
use locai_link.Base.{
  ℕ, String, Bool, true, false, ◌&&◌, Option, none, some, List, [], ◌∷◌, without, if◌then◌else◌,
  ◌==◌,
}
use locai_link.Json.{Json, number, text}
use locai_link.Config.{PipelineConfig}
use locai_link.Dict.{Dict, lookup, insert, has}
use locai_link.State.{StateManager, Session, load_state}
use locai_link.Runtime.{AgentRuntime, AgentWorker, Env, model, report, truthy}
use locai_link.Runtime.Pipelines.{start_pipeline}
use locai_link.Runtime.Models.{flush_pending}

-- The configurations that were saved are new objects, which the agent's configuration does not
-- have.
unfoldable pub store_saved : List PipelineConfig → AgentRuntime → AgentRuntime
store_saved [] r = r
store_saved (p ∷ ps) r = store_saved ps (record r {
  pipeline_configs = insert p.id p r.pipeline_configs;
  aliased = without p.id r.aliased;
})

unfoldable pub to_start : List PipelineConfig → AgentRuntime → List String
to_start [] r = []
to_start (p ∷ ps) r =
    let rest = to_start ps r in
    if p.active && has p.id r.pipeline_configs then p.id ∷ rest else rest

-- A port that is no natural number is reported as it is in the program, and as 0 here.
abbrev port_of : Option Json → ℕ
port_of (some (number n)) = n
port_of _ = 0

abbrev in_serve_mode : Option Json → Bool
in_serve_mode (some (text s)) = s == "serve"
in_serve_mode _ = false

abbrev is_given : Env → Option Json → Bool
is_given env none = false
is_given env (some v) = truthy env v

module _ (env : Env) where
  -- The report of a pipeline that was started again; a report that raises is logged and no more.
  unfoldable pub announce_saved : String → Option PipelineConfig → AgentRuntime → AgentRuntime
  announce_saved pid none r = r
  announce_saved pid (some c) r =
      if in_serve_mode (lookup "mode" c.source.args)
      then record (report (model pid false true (port_of (lookup "port" c.source.args))) r) {
        serving = some pid;
      }
      else if is_given env (lookup "model_path" c.source.args)
      then report (model pid true false 0) r
      else r

  unfoldable pub start_saved : String → AgentRuntime → AgentRuntime
  start_saved pid r =
      let (r', started) = start_pipeline env pid none r in
      if started then announce_saved pid (lookup pid r'.pipeline_configs) r' else r'

  unfoldable pub start_all : List String → AgentRuntime → AgentRuntime
  start_all [] r = r
  start_all (pid ∷ pids) r = start_all pids (start_saved pid r)

  unfoldable pub recover_session : Option Session → AgentRuntime → AgentRuntime
  recover_session none r = r
  recover_session (some s) r =
      let stored = store_saved s.pipelines r in start_all (to_start s.pipelines stored) stored

  recover_managed : Option StateManager → AgentRuntime → AgentRuntime
  recover_managed none r = r
  recover_managed (some m) r =
      let (m', session) = load_state none m in
      recover_session session (record r { state_manager = some m' })

  -- `run`, up to the main loop
  unfoldable pub run_begin : AgentRuntime → AgentRuntime
  unfolding recover_managed
  run_begin r = flush_pending env (recover_managed r.state_manager r)

  -- The main loop, by its waits that end without the event: is it time for another flush?
  unfoldable pub run_loop : List Bool → AgentRuntime → AgentRuntime
  run_loop [] r = r
  run_loop (due ∷ dues) r = run_loop dues (if due then flush_pending env r else r)

abbrev cancel_running : AgentWorker → AgentWorker
cancel_running a = record a { cancelled = true }

unfoldable pub cancel_all : Dict AgentWorker → Dict AgentWorker
cancel_all [] = []
cancel_all ((cid, a) ∷ ws) = (cid, cancel_running a) ∷ cancel_all ws

-- `_signal_handler`
unfoldable pub signal_handler : AgentRuntime → AgentRuntime
signal_handler r = record r { running = false; shutdown_event = true }

unfoldable pub shutdown_runtime : AgentRuntime → AgentRuntime
shutdown_runtime r = record r { agent_workers = cancel_all r.agent_workers; pipelines = [] }
