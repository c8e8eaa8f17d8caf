-- ===== src/Runtime/Models.antt =====
-- src/link/app/runtime.py: deploying, updating and removing models, and the queue of removals
-- that Control has not heard of.
use Prim.Native.Char.{code}
use text.Mathlib.Text.{starts_with}
use locai_link.Base.{
  ℕ, String, Bool, true, false, not, ◌&&◌, ◌||◌, Option, none, some, List, [], ◌∷◌, ◌++◌, ◌==◌, eqb,
  if◌then◌else◌, elem, without,
}
use Prim.Native.String.{◌++◌ as str_append}
use locai_link.Json.{Json}
use locai_link.Config.{AgentConfig, PipelineConfig}
use locai_link.Dict.{Dict, lookup, insert, erase, has}
use locai_link.State.{update_pipeline_config, remove_pipeline}
use locai_link.Runtime.{
  AgentRuntime, AgentWorker, Env, PostReply, answered, post_failed, command, uninstalled, completed,
  failed, report, tick, persist, truthy,
}
use locai_link.Runtime.Pipelines.{start_pipeline, stop_pipeline}

-- `c in s` for the character with code `c`
unfoldable pub has_code : ℕ → String → Bool
has_code c String.[] = false
has_code c (String.◌∷◌ x s) = eqb (code x) c || has_code c s

-- A slash, a backslash or a zero.
unfoldable pub has_separator : String → Bool
unfolding has_code
has_separator s = has_code 47 s || has_code 92 s || has_code 0 s

unfoldable pub is_safe_basename : (String → String) → String → Bool
is_safe_basename path_name name =
    if name == "" || name == "." || name == ".."
    then false
    else if has_separator name
    then false
    else path_name name == name

unfoldable pub is_safe_extension : String → Bool
is_safe_extension ext =
    if ext == "" then false else not (has_separator ext || ext == "." || ext == "..")

-- `if x and not safe(x)`
abbrev pub refused : (String → Bool) → Option String → Bool
refused safe none = false
refused safe (some s) = if s == "" then false else not (safe s)

-- A field that is missing or empty is left out of the payload.
abbrev pub non_empty : Option String → Option String
non_empty none = none
non_empty (some s) = if s == "" then none else some s

-- url.rstrip("/")
unfoldable pub rstrip_slashes : String → String
rstrip_slashes String.[] = String.[]
rstrip_slashes (String.◌∷◌ c s) =
    let rest = rstrip_slashes s in
    if rest == "" && eqb (code c) 47 then String.[] else String.◌∷◌ c rest

unfoldable pub is_given : Option String → Bool
is_given none = false
is_given (some s) = not (s == "")

unfoldable pub is_https : Option String → Bool
unfolding rstrip_slashes
is_https none = false
is_https (some url) = starts_with (rstrip_slashes url) "https://"

-- Whether a report to Control can be sent at all.
unfoldable pub can_report : AgentConfig → Bool
unfolding is_given is_https
can_report c =
    is_given c.identity.api_url
    && is_given c.identity.api_key
    && not (c.identity.device_id == "")
    && is_https c.identity.api_url

-- The answers after which a report is not sent again.
unfoldable pub accepts : PostReply → Bool
accepts (answered status) = eqb status 200 || eqb status 404
accepts post_failed = false

unfoldable pub same_ids : List String → List String → Bool
same_ids [] [] = true
same_ids [] (y ∷ ys) = false
same_ids (x ∷ xs) [] = false
same_ids (x ∷ xs) (y ∷ ys) = x == y && same_ids xs ys

is_alive : Option AgentWorker → Bool
is_alive none = false
is_alive (some w) = w.alive

module _ (env : Env) where
  -- `_deploy_model`, up to the start of the worker thread.
  unfoldable pub deploy : String → String → String → PipelineConfig → AgentRuntime → AgentRuntime
  unfolding is_alive
  deploy cid pid model_name config r =
      if not (config.id == pid)
      then report (command cid failed) r
      else if not (model_name == "") && not (is_safe_basename env.path_name model_name)
      then report (command cid failed) r
      else if is_alive (lookup pid r.agent_workers)
      then report (command cid failed) r
      else record r {
        agent_workers =
            insert pid (record { command_id = cid; cancelled = false; alive = true })
              r.agent_workers;
      }

  cancel_worker : String → String → Option AgentWorker → AgentRuntime → AgentRuntime
  cancel_worker cid pid none r = r
  cancel_worker cid pid (some w) r =
      if w.alive
      then record r { agent_workers = insert pid (record w { cancelled = true }) r.agent_workers }
      else r

  -- `_cancel_deploy`; the command is reported as completed either way.
  unfoldable pub cancel : String → String → AgentRuntime → AgentRuntime
  unfolding cancel_worker
  cancel cid pid r =
      report (command cid completed) (cancel_worker cid pid (lookup pid r.agent_workers) r)

  -- `_update_pipeline`
  unfoldable pub update : String → String → PipelineConfig → AgentRuntime → AgentRuntime
  update cid pid config r =
      let (r', started) = start_pipeline env pid (some config) r in
      if not (config.id == pid)
      then report (command cid failed) r
      else if has pid r.pipelines
      then report (command cid (if started then completed else failed)) r'
      else report (command cid completed) (
          persist env (λ o. update_pipeline_config o config)
            (record r {
              pipeline_configs = insert pid config r.pipeline_configs;
              aliased = without pid r.aliased;
            }))

  -- The path of a model, as `Path(str(model_path))`, where the arguments name one.
  model_path_of : Option Json → Option String
  model_path_of none = none
  model_path_of (some v) = if truthy env v then some (env.as_path v) else none

  unfoldable pub config_path : Option PipelineConfig → Option String
  unfolding model_path_of
  config_path none = none
  config_path (some c) = model_path_of (lookup "model_path" c.source.args)

  dotted : Option String → String
  dotted none = ""
  dotted (some ext) = if starts_with ext "." then ext else str_append "." ext

  payload_path : Option String → Option String → Option String
  payload_path none ext = none
  payload_path (some filename) ext = some (env.model_file (str_append filename (dotted ext)))

  -- The artifact to delete: the one in the configuration, else the one in the payload.
  unfoldable pub artifact_path :
      String → Option String → Option String → AgentRuntime → Option String
  unfolding payload_path dotted
  artifact_path pid filename ext r = elim (config_path (lookup pid r.pipeline_configs)) [
    | some path ↦ some path
    | none ↦ payload_path filename ext
  ]

  unfoldable pub uses : String → PipelineConfig → Bool
  uses path c = elim (config_path (some c)) [ none ↦ false | some p ↦ p == path ]

  -- Whether another pipeline is configured with this artifact.
  unfoldable pub used_elsewhere : String → String → Dict PipelineConfig → Bool
  used_elsewhere pid path [] = false
  used_elsewhere pid path ((j, c) ∷ d) =
      (not (j == pid) && uses path c) || used_elsewhere pid path d

  unfoldable pub shared : String → Option String → AgentRuntime → Bool
  shared pid none r = false
  shared pid (some path) r = used_elsewhere pid path r.pipeline_configs

  unfoldable pub delete_artifact : Option String → AgentRuntime → AgentRuntime
  unfolding tick
  delete_artifact none r = r
  delete_artifact (some path) r =
      if elem (env.file_of path) r.artifacts
      then (if env.unlinks r.now path
          then record (tick r) { artifacts = without (env.file_of path) r.artifacts }
          else tick r)
      else r

  -- `_save_pending_uninstalls`; a failure is only logged.
  unfoldable pub save_pending : List String → AgentRuntime → AgentRuntime
  unfolding tick
  save_pending queued r =
      if env.saves r.now then record (tick r) { pending_uninstalls = queued } else tick r

  -- `_queue_pending_uninstall`
  unfoldable pub queue_pending : String → AgentRuntime → AgentRuntime
  unfolding save_pending
  queue_pending pid r =
      if elem pid r.pending_uninstalls then r else save_pending (r.pending_uninstalls ++ pid ∷ []) r

  -- `_post_uninstall_report`: a report that can never be sent counts as delivered.
  unfoldable pub post_uninstall_report : String → AgentRuntime → Bool
  unfolding accepts
  post_uninstall_report pid r =
      if can_report r.agent_config then accepts (env.posts r.now pid) else true

  -- `_report_model_uninstalled_to_control`, for removals that began on this device.
  unfoldable pub report_uninstalled : String → String → AgentRuntime → AgentRuntime
  unfolding tick queue_pending
  report_uninstalled cid pid r =
      if not (starts_with cid "loopback-")
      then r
      else if post_uninstall_report pid r
      then tick r
      else queue_pending pid (tick r)

  -- `_uninstall_model` once the pipeline is stopped.
  unfoldable pub uninstall_found :
      String → String → Option String → Option String → AgentRuntime → AgentRuntime
  unfolding shared delete_artifact report_uninstalled
  uninstall_found cid pid filename ext r =
      let path = artifact_path pid filename ext r in
      if shared pid path r
      then report (command cid failed) r
      else report_uninstalled cid pid (
          report (command cid completed) (
            report (uninstalled pid) (
              delete_artifact path (
                persist env (λ o. remove_pipeline o pid)
                  (record r {
                    pipeline_configs = erase pid r.pipeline_configs;
                    aliased = without pid r.aliased;
                  })))))

  -- `_uninstall_model`
  unfoldable pub uninstall :
      String → String → Bool → Option String → Option String → AgentRuntime → AgentRuntime
  uninstall cid pid force_stop filename ext r =
      let (r', stopped) = stop_pipeline env pid r in
      if not (has pid r.pipelines)
      then uninstall_found cid pid filename ext r
      else if not force_stop
      then report (command cid failed) r
      else if stopped
      then uninstall_found cid pid filename ext r'
      else report (command cid failed) r'

  -- The list comprehension: what was delivered is left out.
  unfoldable pub undelivered : List String → AgentRuntime → AgentRuntime × List String
  unfolding tick
  undelivered [] r = (r, [])
  undelivered (m ∷ ms) r =
      let (r', remaining) = undelivered ms (tick r) in
      (r', if post_uninstall_report m r then remaining else m ∷ remaining)

  unfoldable pub save_changed : Bool → List String → AgentRuntime → AgentRuntime
  unfolding save_pending
  save_changed true remaining r = r
  save_changed false remaining r = save_pending remaining r

  -- `_flush_pending_uninstall_reports`; the queue is saved if it has changed.
  unfoldable pub flush_pending : AgentRuntime → AgentRuntime
  unfolding save_changed
  flush_pending r =
      let (r', remaining) = undelivered r.pending_uninstalls r in
      save_changed (same_ids remaining r.pending_uninstalls) remaining r'
