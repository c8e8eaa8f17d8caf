-- ===== src/Health.antt =====
-- src/link/infra/health_server.py: `HealthState`, what the agent tells a program on its own
-- machine. The clock is in seconds.
pub mod Requests
pub mod Asked
pub mod Guarded
pub mod Queued
use locai_link.Base.{
  ℕ, ◌+◌, ◌-◌, String, Bool, true, false, not, ◌&&◌, Option, none, some, List, [], ◌∷◌, is_some,
  ltb, if◌then◌else◌, ◌==◌,
}
use locai_link.Json.{Json, decimal}
use locai_link.Dict.{Dict, lookup, insert, erase}

-- A row of `deployments`; the progress is only passed on.
pub record Row : Type 0 where
  pub model_name : Option String
  pub stage : String
  pub progress_pct : Json
  pub created_at : ℕ

pub record HealthState : Type 0 where
  pub version : String
  pub boot_time : ℕ
  pub currently_serving : Bool
  pub model_id : Option String
  pub transport_type : Option String
  pub transport_endpoint : Option String
  pub transport_connected : Bool
  pub update_available : Bool
  pub latest_version : Option String
  pub deployments : Dict Row

-- QUEUED_TTL_SECONDS
abbrev pub queued_ttl : ℕ
queued_ttl = 300

-- `now - created_at > QUEUED_TTL_SECONDS`
abbrev pub is_stale : ℕ → Row → Bool
is_stale now d = d.stage == "queued" && ltb (queued_ttl + d.created_at) now

abbrev pub aged : ℕ → Row → Row
aged now d =
    if is_stale now d then record d { stage = "failed"; progress_pct = decimal "0.0" } else d

-- The sweep of `snapshot`
unfoldable pub sweep : ℕ → Dict Row → Dict Row
sweep now [] = []
sweep now ((pid, d) ∷ ds) = (pid, aged now d) ∷ sweep now ds

-- The body of `GET /healthz`; the times of creation are for inside only.
pub record Snapshot : Type 0 where
  pub version : String
  pub uptime_seconds : ℕ
  pub currently_serving : Bool
  pub model_id : Option String
  pub transport : Option (String × Option String × Bool)
  pub deployments : List (String × Option String × String × Json)
  pub update_available : Bool
  pub latest_version : Option String

rows : Dict Row → List (String × Option String × String × Json)
rows [] = []
rows ((pid, d) ∷ ds) = (pid, d.model_name, d.stage, d.progress_pct) ∷ rows ds

transport_of : Option String → HealthState → Option (String × Option String × Bool)
transport_of none s = none
transport_of (some kind) s = some (kind, s.transport_endpoint, s.transport_connected)

unfoldable pub take_snapshot : ℕ → HealthState → HealthState × Snapshot
unfolding rows transport_of
take_snapshot now s =
    let ds = sweep now s.deployments in
    (
      record s { deployments = ds },
      record {
        version = s.version;
        uptime_seconds = now - s.boot_time;
        currently_serving = s.currently_serving;
        model_id = s.model_id;
        transport = transport_of s.transport_type s;
        deployments = rows ds;
        update_available = s.update_available;
        latest_version = s.latest_version;
      },
    )

unfoldable pub set_update : Bool → Option String → HealthState → HealthState
set_update available latest s = record s { update_available = available; latest_version = latest }

unfoldable pub set_serving : Option String → HealthState → HealthState
set_serving model_id s = record s { currently_serving = is_some model_id; model_id = model_id }

unfoldable pub set_transport : Option String → Option String → Bool → HealthState → HealthState
set_transport kind endpoint connected s = record s {
  transport_type = kind;
  transport_endpoint = endpoint;
  transport_connected = connected;
}

-- `model_name or existing.get("model_name")`
or_name : Option String → Option String → Option String
or_name none old = old
or_name (some n) old = if n == "" then old else some n

-- A row that is not queued any more is not queued again.
abbrev pub is_ahead : Option Row → Bool
is_ahead none = false
is_ahead (some d) = not (d.stage == "queued")

unfoldable pub new_row : ℕ → String → Json → Option String → Option Row → Row
unfolding or_name
new_row now stage pct name none = record {
  model_name = or_name name none;
  stage = stage;
  progress_pct = pct;
  created_at = now;
}
new_row now stage pct name (some d) = record {
  model_name = or_name name d.model_name;
  stage = stage;
  progress_pct = pct;
  created_at = d.created_at;
}

unfoldable pub set_deployment_progress :
    ℕ → String → String → Json → Option String → HealthState → HealthState
set_deployment_progress now pid stage pct name s =
    let existing = lookup pid s.deployments in
    if stage == "completed"
    then record s { deployments = erase pid s.deployments }
    else if stage == "queued" && is_ahead existing
    then s
    else record s { deployments = insert pid (new_row now stage pct name existing) s.deployments }
