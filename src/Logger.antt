-- ===== src/Logger.antt =====
-- src/link/utils/logger.py: a log record, what `AsyncHandler.emit` makes of it, and the queue
-- that the handler's worker thread empties.
pub mod Reports
pub mod Sending
pub mod Threads
pub mod Events
pub mod Delivered
pub mod Flushed
pub mod Handlers
use locai_link.Base.{
  ℕ, suc, ◌%◌, String, Bool, true, false, ◌||◌, Option, none, some, List, [], ◌∷◌, ◌++◌, eqb, leb,
  ◌==◌, if◌then◌else◌, is_some, length,
}
use locai_link.Dict.{Dict, lookup}
use locai_link.Json.{Fields, end, field, text}
use locai_link.Health.Requests.{after_prefix}

-- A message: a dict, or what `getMessage` gives, `none` where it raises.
pub data Message : Type 0 where
  structured : Fields → Message
  plain : Option String → Message

-- What the handlers read of a `LogRecord`; an attribute may be missing.
pub record LogRecord : Type 0 where
  pub name : String
  pub levelname : String
  pub message : Message
  pub route_key : Option String
  pub context : Dict String
  pub category : Option String

-- What `str.format` makes of a template and a context.
pub data Formatted : Type 0 where
  formatted : String → Formatted
  missing_key : Formatted
  malformed : Formatted

-- `str.format`; and `json.dumps`, `none` where it raises.
pub record Formats : Type 0 where
  pub format : String → Dict String → Formatted
  pub dumps : Fields → Option String

-- An entry of the queue.
pub record Outgoing : Type 0 where
  pub target : String
  pub payload : String
  pub raw_payload : Fields
  pub route_key : String

-- Where the worker thread is: at the test of `_stop_event`, at the wait for the queue, in the
-- transport, and the same in the loop that drains the queue.
pub data Worker : Type 0 where
  testing getting draining ended : Worker
  sending finishing : Outgoing → Worker

-- A handler, with the oldest entry of its queue first.
pub record AsyncHandler : Type 0 where
  pub templates : Dict String
  pub queue : List Outgoing
  pub is_stopped : Bool
  pub dropped : ℕ
  pub worker : Worker

-- What is done, in order: an entry joins the queue, or is dropped with or without a line on
-- stderr; a record is turned away; an entry is handed to `_transport_emit`, whose exceptions are
-- caught.
pub data LogEvent : Type 0 where
  queued : Outgoing → LogEvent
  refused : Bool → LogEvent
  unrouted config_error handled_error : LogEvent
  sent : Outgoing → LogEvent

abbrev pub max_queue : ℕ
max_queue = 1000

-- `_SEVERITY_MAP`
abbrev pub severity_map : Dict String
severity_map =
    ("DEBUG", "info")
    ∷ ("INFO", "info")
    ∷ ("WARNING", "warning")
    ∷ ("ERROR", "error")
    ∷ ("CRITICAL", "critical")
    ∷ []

-- `_CATEGORY_BY_MODULE`
abbrev pub category_by_module : Dict String
category_by_module =
    ("link.app.onboarding", "authentication")
    ∷ ("link.app.updater", "deployment")
    ∷ ("link.app.reconfigure", "configuration")
    ∷ ("link.app.state", "configuration")
    ∷ ("link.config", "configuration")
    ∷ ("link.app.runtime", "execution")
    ∷ ("link.components", "execution")
    ∷ ("link.adapters", "health")
    ∷ ("link.infra", "system")
    ∷ ("link.utils", "system")
    ∷ ("link_language_model", "inference")
    ∷ ("link_audio_transcriber", "inference")
    ∷ ("link_image_classifier", "inference")
    ∷ ("link_audio_classifier", "inference")
    ∷ []

-- The category of the first prefix that the name of a logger has.
unfoldable pub category_of : Dict String → String → Option String
category_of [] name = none
category_of ((prefix, c) ∷ cs) name =
    let rest = category_of cs name in if is_some (after_prefix prefix name) then some c else rest

-- `x or y`, and `x if x is not None else y`
unfoldable pub or_other : Option String → Option String → Option String
or_other none y = y
or_other (some x) y = some x

unfoldable pub default : String → Option String → String
default d none = d
default d (some x) = x

-- `CategoryFilter.filter`
unfoldable pub filter : LogRecord → LogRecord
unfolding category_of or_other
filter r = record r { category = or_other r.category (category_of category_by_module r.name) }

-- A template that is empty counts as none.
unfoldable pub nonempty_template : Option String → Option String
nonempty_template none = none
nonempty_template (some t) = if t == "" then none else some t

-- The template of a route, with the fallback for standard logs.
unfoldable pub template_for : Dict String → String → Option String
unfolding nonempty_template or_other
template_for ts key = or_other (nonempty_template (lookup key ts)) (
    if key == "logs"
    then nonempty_template (or_other (nonempty_template (lookup "url" ts)) (lookup "topic" ts))
    else none)

-- The payload: a dict as it is, a text in the schema of Control.
unfoldable pub raw_payload : LogRecord → Message → Option Fields
unfolding default
raw_payload r (structured fs) = some fs
raw_payload r (plain none) = none
raw_payload r (plain (some message)) = some (
    field "message" (text message) (
      field "severity" (text (default "info" (lookup r.levelname severity_map)))
        (field "category" (text (default "other" r.category)) end)))

-- `queue.put_nowait`; an entry for which there is no room is dropped.
unfoldable pub put_nowait : Outgoing → AsyncHandler → AsyncHandler × List LogEvent
put_nowait x h =
    if leb max_queue (length h.queue)
    then (
      record h { dropped = suc h.dropped },
      refused (eqb (suc h.dropped) 1 || eqb (suc h.dropped % 100) 0) ∷ [],
    )
    else (record h { queue = h.queue ++ (x ∷ []) }, queued x ∷ [])

unfoldable pub put_dumped :
    String → String → Fields → Option String → AsyncHandler → AsyncHandler × List LogEvent
put_dumped key target raw none h = (h, handled_error ∷ [])
put_dumped key target raw (some payload) h =
    put_nowait (record { target = target; payload = payload; raw_payload = raw; route_key = key }) h

module _ (w : Formats) where
  unfoldable pub put_payload :
      String → String → Option Fields → AsyncHandler → AsyncHandler × List LogEvent
  unfolding put_dumped
  put_payload key target none h = (h, handled_error ∷ [])
  put_payload key target (some raw) h = put_dumped key target raw (w.dumps raw) h

  unfoldable pub put_formatted :
      String → LogRecord → Formatted → AsyncHandler → AsyncHandler × List LogEvent
  unfolding put_payload raw_payload
  put_formatted key r (formatted target) h = put_payload key target (raw_payload r r.message) h
  put_formatted key r missing_key h = (h, config_error ∷ [])
  put_formatted key r malformed h = (h, handled_error ∷ [])

  unfoldable pub put_routed :
      String → LogRecord → Option String → AsyncHandler → AsyncHandler × List LogEvent
  put_routed key r none h = (h, unrouted ∷ [])
  put_routed key r (some template) h = put_formatted key r (w.format template r.context) h

  -- `emit` after its look at `_stop_event`.
  unfoldable pub put : LogRecord → AsyncHandler → AsyncHandler × List LogEvent
  unfolding default
  put r h =
      let key = default "logs" r.route_key in put_routed key r (template_for h.templates key) h

-- One step of the worker thread. A wait for an empty queue times out.
unfoldable pub worker_step : Worker → List Outgoing → AsyncHandler → AsyncHandler × List LogEvent
worker_step testing q h = (record h { worker = if h.is_stopped then draining else getting }, [])
worker_step getting [] h = (record h { worker = testing }, [])
worker_step getting (x ∷ q) h = (record h { queue = q; worker = sending x }, [])
worker_step (sending x) q h = (record h { worker = testing }, sent x ∷ [])
worker_step draining [] h = (record h { worker = ended }, [])
worker_step draining (x ∷ q) h = (record h { queue = q; worker = finishing x }, [])
worker_step (finishing x) q h = (record h { worker = draining }, sent x ∷ [])
worker_step ended q h = (h, [])

-- `__init__`
unfoldable pub start : Dict String → AsyncHandler
start templates = record {
  templates = templates;
  queue = [];
  is_stopped = false;
  dropped = 0;
  worker = testing;
}

-- `close`; its wait for the worker are the steps that the worker makes then.
unfoldable pub close : AsyncHandler → AsyncHandler
close h = record h { is_stopped = true }
