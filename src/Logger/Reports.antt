-- ===== src/Logger/Reports.antt =====
-- src/link/utils/logger.py: the records that a `LinkReporter` makes. They are of the level INFO
-- and are made only where the reporter's level lets that pass.
use locai_link.Base.{ℕ, String, Option, none, some, [], ◌∷◌, ◌==◌, if◌then◌else◌}
use locai_link.Dict.{Dict}
use locai_link.Json.{Json, Fields, null, number, text, obj, end, field}
use locai_link.Logger.{LogRecord, structured}

unfoldable pub info : Fields → String → Dict String → LogRecord
info payload route_key context = record {
  name = "link.reporter";
  levelname = "INFO";
  message = structured payload;
  route_key = some route_key;
  context = context;
  category = none;
}

-- The metrics of a device that is offline.
unfoldable pub offline_metrics : String → Fields
offline_metrics status =
    if status == "offline"
    then field "metrics"
        (obj (
          field "cpu_usage" (number 0) (
            field "ram_usage" (number 0) (
              field "temperature_celsius" (number 0)
                (field "storage_available_gb" (number 0) end)))))
        end
    else end

-- The version, if one is known and not empty.
unfoldable pub with_version : Option String → Fields → Fields
with_version none fs = fs
with_version (some v) fs = if v == "" then fs else field "agent_version" (text v) fs

unfoldable pub report_lifecycle : Option String → String → LogRecord
unfolding info with_version offline_metrics
report_lifecycle version status =
    info (field "status" (text status) (with_version version (offline_metrics status)))
      "lifecycle_status" []

-- A report on a command; one without an id is not made.
unfoldable pub report_command : String → String → String → Option LogRecord
unfolding info
report_command cmd_id status output =
    if cmd_id == ""
    then none
    else some (
        info (field "status" (text status) (field "output" (text output) end)) "command_status"
          (("cid", cmd_id) ∷ []))

-- The entries that are not None.
unfoldable pub not_null : Fields → Fields
not_null end = end
not_null (field k null fs) = not_null fs
not_null (field k v fs) = field k v (not_null fs)

unfoldable pub model_record : String → Fields → Option LogRecord
unfolding info
model_record model_id end = none
model_record model_id (field k v fs) =
    some (info (field k v fs) "model_status" (("mid", model_id) ∷ []))

-- A report on a model; one without an id, or without an entry, is not made.
unfoldable pub report_model : String → Fields → Option LogRecord
unfolding model_record not_null
report_model model_id kwargs =
    if model_id == "" then none else model_record model_id (not_null kwargs)

unfoldable pub report_deployment_progress : String → String → Json → ℕ → ℕ → Option LogRecord
unfolding info
report_deployment_progress model_id stage progress_pct bytes_done total_bytes =
    if model_id == ""
    then none
    else some (
        info
          (field "stage" (text stage) (
            field "progress_pct" progress_pct (
              field "bytes_done" (number bytes_done)
                (field "total_bytes" (number total_bytes) end))))
          "deployment_progress" (("mid", model_id) ∷ []))
