-- ===== src/Runtime.antt =====
-- src/link/app/runtime.py: the state of `AgentRuntime`, its commands and its environment.
pub mod Pipelines
pub mod Reconfigure
pub mod Models
pub mod Main
pub mod Recovering
pub mod Handle
pub mod Deploys
pub mod Deploying
pub mod Workers
pub mod Cancelling
pub mod Completing
pub mod Frame
pub mod Starting
pub mod Swapping
pub mod Applied
pub mod Ends
pub mod Quiet
pub mod Answers
pub mod Uninstalling
pub mod Started
pub mod Pending
use locai_link.Base.{
  ℕ, zero, suc, ◌+◌, String, Bool, true, false, Option, none, some, List, [], ◌∷◌, ◌==◌,
  if◌then◌else◌,
}
use locai_link.Json.{Json, null, bool, number, decimal, text, arr, obj, nil, end}
use locai_link.Config.{GenericConfig, PipelineConfig, AgentConfig}
use locai_link.Dict.{Dict, lookup, insert, erase}
use locai_link.State.{StateManager, Outcome}

-- A pipeline thread, with the components that it was built from.
pub record Pipeline : Type 0 where
  pub pipeline_id : String
  pub source : GenericConfig
  pub sink : Option GenericConfig

-- `_AgentWorker`; `alive` is what its thread's `is_alive()` tells.
pub record AgentWorker : Type 0 where
  pub command_id : String
  pub cancelled : Bool
  pub alive : Bool

pub data Status : Type 0 where
  completed failed : Status

-- What the status logger is told. Message texts are left out.
pub data Report : Type 0 where
  command : String → Status → Report
  model : String → Bool → Bool → ℕ → Report
  uninstalled : String → Report
  progress : String → String → Report

-- The commands of src/link/config/commands.py, each with its `id` first.
pub data Command : Type 0 where
  deploy_model : String → String → String → PipelineConfig → Command
  cancel_deploy : String → String → Command
  start_model : String → String → PipelineConfig → Command
  start_model_inference : String → String → Command
  stop_model_inference : String → String → Command
  start_serving : String → String → ℕ → String → String → Command
  stop_serving : String → String → Command
  uninstall_model : String → String → Bool → Option String → Option String → Command
  update_pipeline : String → String → PipelineConfig → Command
  status : String → Command
  update_agent : String → Command
  update_agent_config : String → AgentConfig → Command

-- What `parse_command` gives: a command, or a refusal, with the `id` field if it is a text.
pub data Parsed : Type 0 where
  parsed : Command → Parsed
  invalid : Option String → Parsed

-- `now` counts the calls to the environment; reports are newest first. `aliased` names the entries
-- of `pipeline_configs` that are the very objects of `agent_config.pipelines`.
pub record AgentRuntime : Type 0 where
  pub agent_config : AgentConfig
  pub pipeline_configs : Dict PipelineConfig
  pub aliased : List String
  pub pipelines : Dict Pipeline
  pub agent_workers : Dict AgentWorker
  pub state_manager : Option StateManager
  pub zenoh_session : Bool
  pub serving : Option String
  pub deployments : Dict String
  pub artifacts : List String
  pub pending_uninstalls : List String
  pub running : Bool
  pub shutdown_event : Bool
  pub update_requested : Bool
  pub config_restart_requested : Bool
  pub reports : List Report
  pub now : ℕ

-- How a request to Control ends: with a status, or a `RequestException`.
pub data PostReply : Type 0 where
  answered : ℕ → PostReply
  post_failed : PostReply

-- What the runtime does not decide: each call's outcome at the time it is made. `as_path` is the
-- normal form of `Path(str(v))`, `path_name` is `Path(s).name`. `file_of` is the file that a
-- path names, as its absolute path: two paths may name one file.
pub record Env : Type 0 where
  pub creates : ℕ → GenericConfig → Bool
  pub stops : ℕ → String → Bool
  pub disk : ℕ → Outcome
  pub rebuilds : ℕ → Bool
  pub can_update : ℕ → Bool
  pub unlinks : ℕ → String → Bool
  pub posts : ℕ → String → PostReply
  pub saves : ℕ → Bool
  pub as_path : Json → String
  pub is_zero : String → Bool
  pub model_file : String → String
  pub file_of : String → String
  pub path_name : String → String

unfoldable pub report : Report → AgentRuntime → AgentRuntime
report x r = record r { reports = x ∷ r.reports }

unfoldable pub tick : AgentRuntime → AgentRuntime
tick r = record r { now = suc r.now }

-- The state manager may be absent; its failures are logged and go no further.
unfoldable pub persist : Env → (Outcome → StateManager → StateManager) → AgentRuntime → AgentRuntime
persist env f r = elim r.state_manager [
  | none ↦ r
  | some m ↦ record r { state_manager = some (f (env.disk r.now) m); now = suc r.now }
]

-- Python's truth value of a JSON value.
unfoldable pub truthy : Env → Json → Bool
truthy env null = false
truthy env (bool b) = b
truthy env (number zero) = false
truthy env (number (suc n)) = true
truthy env (decimal d) = if env.is_zero d then false else true
truthy env (text s) = if s == "" then false else true
truthy env (arr nil) = false
truthy env (obj end) = false
truthy env _ = true
