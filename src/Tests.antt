-- ===== src/Tests.antt =====
-- Concrete data, and the theorems applied to it.
mod Witnesses
mod Sessions
mod Deploys
mod Updates
mod Files
mod Artifacts
mod Swaps
mod Proxies
mod Restarts
mod Healths
mod Threads
mod Releases
mod Starts
mod Logs
use locai_link.Base.{
  ℕ, suc, String, Bool, true, false, Option, none, some, List, [], ◌∷◌, ◌≡◌, refl, ◌==◌,
  if◌then◌else◌,
}
use locai_link.Json.{null, bool, number, decimal, text, arr, obj}
use locai_link.Config.{GenericConfig, PipelineConfig, IdentityConfig, AgentConfig, schema_version}
use locai_link.Dict.{lookup}
use locai_link.State.{StateManager, Session, written, not_opened, truncated, model_dump, valid}
use locai_link.Runtime.{AgentRuntime, Env, Pipeline, answered}
use locai_link.Runtime.Pipelines.{pipeline_of}

abbrev pub component : String → GenericConfig
component kind = record { type = kind; args = [] }

abbrev pub chat : PipelineConfig
chat = record {
  id = "chat";
  active = true;
  source = record { type = "llama"; args = ("model_path", text "models/a.gguf") ∷ [] };
  sink = none;
}

abbrev pub chat_new : PipelineConfig
chat_new = record chat {
  source = record { type = "llama2"; args = ("model_path", text "models/b.gguf") ∷ [] };
}

abbrev pub camera : PipelineConfig
camera = record {
  id = "camera";
  active = false;
  source = component "webcam";
  sink = some (component "zenoh_sink");
}

abbrev pub deployed : PipelineConfig
deployed = record chat { id = "deployed"; source = component "whisper" }

abbrev pub welcome : PipelineConfig
welcome = record chat { id = "welcome"; source = component "wav" }

abbrev pub config_of : List PipelineConfig → AgentConfig
config_of ps = record {
  version = "2.1";
  identity = record {
    device_id = "dev";
    device_name = "Device";
    api_url = some "https://control";
    api_key = some "key";
  };
  transport = some (component "zenoh");
  logging = null;
  reporting = null;
  pipelines = ps;
}

abbrev pub old_config : AgentConfig
old_config = config_of (chat ∷ camera ∷ [])

abbrev pub new_config : AgentConfig
new_config = config_of (welcome ∷ [])

abbrev pub fresh : StateManager
fresh = record { cache = none; current_session_path = none; files = [] }

abbrev pub manager : StateManager
manager = record {
  cache = some (model_dump old_config);
  current_session_path = some "session_1.json";
  files = ("session_1.json", valid (model_dump old_config)) ∷ [];
}

-- `chat` and `deployed` run; `deployed` is in no configuration file.
abbrev pub agent : AgentRuntime
agent = record {
  agent_config = old_config;
  pipeline_configs = ("chat", chat) ∷ ("camera", camera) ∷ ("deployed", deployed) ∷ [];
  aliased = "chat" ∷ "camera" ∷ [];
  pipelines = ("chat", pipeline_of chat) ∷ ("deployed", pipeline_of deployed) ∷ [];
  agent_workers = [];
  state_manager = some manager;
  zenoh_session = true;
  serving = none;
  deployments = [];
  artifacts = "models/a.gguf" ∷ [];
  pending_uninstalls = [];
  running = true;
  shutdown_event = false;
  update_requested = false;
  config_restart_requested = false;
  reports = [];
  now = 0;
}

-- All goes well; `Path` leaves its texts as they are.
abbrev pub world : Env
world = record {
  creates = λ n c. true;
  stops = λ n pid. true;
  disk = λ n. written;
  rebuilds = λ n. true;
  can_update = λ n. true;
  unlinks = λ n path. true;
  posts = λ n pid. answered 503;
  saves = λ n. true;
  as_path = λ v. elim v [ text s ↦ s | _ ↦ "" ];
  is_zero = λ s. s == "0.0";
  model_file = λ s. s;
  file_of = λ s. s;
  path_name = λ s. s;
}

-- No component can be created.
abbrev pub broken : Env
broken = record world { creates = λ n c. false }
