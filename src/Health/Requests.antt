-- ===== src/Health/Requests.antt =====
-- src/link/infra/health_server.py: the requests that `HealthHandler` answers.
use Prim.Native.Char.{code}
use locai_link.Base.{
  ℕ, String, Bool, true, not, ◌&&◌, ◌||◌, Option, none, some, List, [], ◌∷◌, eqb, ltb, elem,
  if◌then◌else◌, ◌==◌,
}
use locai_link.Json.{Json, Fields, Items, null, text, obj, decimal, number, end, field}
use locai_link.Runtime.Handle.{ModelEntry}
use locai_link.Health.{HealthState, Snapshot, take_snapshot, set_deployment_progress}

-- `content_length` is none where the header is no number, and 0 where it is negative or missing.
pub record LocalRequest : Type 0 where
  pub path : String
  pub host : Option String
  pub origin : Option String
  pub content_length : Option ℕ
  pub body : String

-- A command, without its random id.
pub data LoopbackCommand : Type 0 where
  update_agent : LoopbackCommand
  cancel_deploy : String → LoopbackCommand
  start_serving : String → Json → Json → Json → LoopbackCommand
  stop_serving : String → LoopbackCommand
  uninstall_model : String → Bool → LoopbackCommand

-- What the handler meets: `str.lower`; the host of an origin, none where there is none or urlparse
-- raises; `json.loads` of a body, none where it raises; the truth of a decimal number; whether a
-- command handler is wired and raises; the preflight of an update, none where it raises or is not
-- wired; and the models of the runtime.
pub record LocalAgent : Type 0 where
  pub lower : String → String
  pub origin_host : String → Option String
  pub loads : String → Option Json
  pub is_zero : String → Bool
  pub wired : Bool
  pub raises : LoopbackCommand → Bool
  pub preflight : Option Bool
  pub models : List ModelEntry
  pub now : ℕ

-- The code of the answer, none where the handler raises and does not answer, and the command that
-- was dispatched.
pub record LocalReply : Type 0 where
  pub code : Option ℕ
  pub dispatched : Option LoopbackCommand

abbrev pub refuse : ℕ → LocalReply
refuse n = record { code = some n; dispatched = none }

-- `.split(":")[0]`
unfoldable pub before_colon : String → String
before_colon String.[] = String.[]
before_colon (String.◌∷◌ c s) =
    let rest = before_colon s in if eqb (code c) 58 then String.[] else String.◌∷◌ c rest

abbrev pub or_empty : Option String → String
or_empty none = ""
or_empty (some s) = s

abbrev pub loopback_hosts : List String
loopback_hosts = "127.0.0.1" ∷ "localhost" ∷ []

-- The text after the first one, if it begins with that.
unfoldable pub after_prefix : String → String → Option String
after_prefix String.[] s = some s
after_prefix (String.◌∷◌ p ps) String.[] = none
after_prefix (String.◌∷◌ p ps) (String.◌∷◌ c s) =
    let rest = after_prefix ps s in if eqb (code p) (code c) then rest else none

-- What stands before and after the first slash
unfoldable pub at_slash : String → Option (String × String)
at_slash String.[] = none
at_slash (String.◌∷◌ c s) =
    let rest = at_slash s in
    if eqb (code c) 47
    then some (String.[], s)
    else elim rest [ none ↦ none | some (a, b) ↦ some (String.◌∷◌ c a, b) ]

abbrev pub actions : List String
actions = "serve" ∷ "stop-serving" ∷ "cancel-deploy" ∷ "uninstall" ∷ []

unfoldable pub split_action : Option (String × String) → Option (String × String)
split_action none = none
split_action (some (pid, action)) =
    if pid == "" then none else if elem action actions then some (pid, action) else none

-- What stands behind the prefix, if the path has it
unfoldable pub split_rest : Option String → Option (String × String)
unfolding split_action
split_rest none = none
split_rest (some s) = split_action (at_slash s)

-- `_MODEL_ACTION_RE.match`, for a path without line breaks
unfoldable pub model_action : String → Option (String × String)
unfolding split_rest
model_action path = split_rest (after_prefix "/models/" path)

unfoldable pub find_model : String → List ModelEntry → Option ModelEntry
find_model pid [] = none
find_model pid (m ∷ ms) = if m.id == pid then some m else find_model pid ms

unfoldable pub get_field : String → Fields → Json
get_field k end = null
get_field k (field j v fs) = if j == k then v else get_field k fs

module _ (w : LocalAgent) where
  unfoldable pub check_loopback : LocalRequest → Bool
  check_loopback q =
      elem (before_colon (w.lower (or_empty q.host))) loopback_hosts && elim q.origin [
        | none ↦ true
        | some o ↦ elem (w.lower (or_empty (w.origin_host o))) loopback_hosts
      ]

  -- `v or default`
  unfoldable pub or_fallback : Json → Json → Json
  or_fallback null d = d
  or_fallback (Json.bool b) d = if b then Json.bool b else d
  or_fallback (number n) d = if eqb n 0 then d else number n
  or_fallback (decimal s) d = if w.is_zero s then d else decimal s
  or_fallback (text s) d = if s == "" then d else text s
  or_fallback (Json.arr Items.nil) d = d
  or_fallback (obj end) d = d
  or_fallback v d = v

  abbrev port_or : Option Json → Json
  port_or none = number 8100
  port_or (some v) = or_fallback v (number 8100)

  -- The command of an action on a model, `none` where the model is unknown.
  unfoldable pub command_of : String → String → Option ModelEntry → Option LoopbackCommand
  command_of pid action none = if action == "cancel-deploy" then some (cancel_deploy pid) else none
  command_of pid action (some m) =
      if action == "cancel-deploy"
      then some (cancel_deploy pid)
      else if action == "serve"
      then some (
          start_serving pid (port_or m.port) (or_fallback m.host (text "0.0.0.0"))
            (or_fallback m.alias (text pid)))
      else if action == "stop-serving"
      then some (stop_serving pid)
      else some (uninstall_model pid true)

  unfoldable pub send_command : LoopbackCommand → LocalReply
  send_command c = record { code = some (if w.raises c then 500 else 202); dispatched = some c }

  unfoldable pub may_update : Bool
  may_update = elim w.preflight [ none ↦ true | some b ↦ b ]

  unfoldable pub post_update : LocalReply
  post_update =
      if not w.wired
      then refuse 503
      else if not may_update
      then refuse 409
      else send_command update_agent

  unfoldable pub post_command : Option LoopbackCommand → LocalReply
  post_command none = refuse 404
  post_command (some c) = send_command c

  unfoldable pub post_action : Option (String × String) → LocalReply
  post_action none = refuse 404
  post_action (some (pid, action)) =
      if not w.wired
      then refuse 503
      else post_command (command_of pid action (find_model pid w.models))

  -- The check of the name, and the row.
  unfoldable pub queue_named : String → Json → HealthState → HealthState × LocalReply
  queue_named pid null s =
      (set_deployment_progress w.now pid "queued" (decimal "0.0") none s, refuse 202)
  queue_named pid (text n) s =
      (set_deployment_progress w.now pid "queued" (decimal "0.0") (some n) s, refuse 202)
  queue_named pid other s = (s, refuse 400)

  unfoldable pub queue_fields : Json → Json → HealthState → HealthState × LocalReply
  unfolding queue_named
  queue_fields (text pid) name s = if pid == "" then (s, refuse 400) else queue_named pid name s
  queue_fields other name s = (s, refuse 400)

  unfoldable pub queue_payload : Option Json → HealthState → HealthState × LocalReply
  unfolding get_field
  queue_payload none s = (s, refuse 400)
  queue_payload (some (obj fs)) s =
      queue_fields (get_field "pipeline_id" fs) (get_field "model_name" fs) s
  queue_payload (some other) s = (s, record { code = none; dispatched = none })

  -- `_handle_pending_deployment`
  unfoldable pub pending_deployment : Option ℕ → String → HealthState → HealthState × LocalReply
  pending_deployment none body s = (s, record { code = none; dispatched = none })
  pending_deployment (some n) body s =
      if eqb n 0 || ltb 4096 n then (s, refuse 400) else queue_payload (w.loads body) s

  unfoldable pub post_local : LocalRequest → HealthState → HealthState × LocalReply
  post_local q s =
      if not (check_loopback q)
      then (s, refuse 403)
      else if q.path == "/deployments/pending"
      then pending_deployment q.content_length q.body s
      else if q.path == "/update"
      then (s, post_update)
      else (s, post_action (model_action q.path))

-- The body of an answer, where it is no error page.
pub data LocalBody : Type 0 where
  healthz : Snapshot → LocalBody
  models : List ModelEntry → LocalBody
  page : LocalBody

module _ (w : LocalAgent) where
  -- `do_GET`
  unfoldable pub get_local : LocalRequest → HealthState → HealthState × ℕ × LocalBody
  get_local q s =
      if not (check_loopback w q)
      then (s, 403, page)
      else if q.path == "/healthz"
      then ((take_snapshot w.now s).0, 200, healthz (take_snapshot w.now s).1)
      else if q.path == "/models"
      then (s, 200, models w.models)
      else (s, 404, page)
