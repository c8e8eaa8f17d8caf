-- ===== src/Runtime/Deploys.antt =====
-- src/link/app/runtime.py: the worker thread of a deploy, `_deploy_worker`, as a machine whose
-- steps are the stretches between two waits. Its cancel event is the `cancelled` flag of its entry
-- in `agent_workers`; rows of the health server are kept as the stage only, and the percentages of
-- a download are left out.
use locai_link.Base.{
  ℕ, zero, suc, ◌+◌, String, Bool, false, not, ◌&&◌, Option, none, some, ◌∷◌, ◌==◌, eqb, elem,
  without, if◌then◌else◌,
}
use locai_link.Config.{PipelineConfig}
use locai_link.Dict.{lookup, insert, erase}
use locai_link.State.{update_pipeline_config}
use locai_link.Runtime.{
  AgentRuntime, AgentWorker, Env, Status, completed, failed, command, progress, report, persist,
}

-- The deploy command that the worker was started for.
pub record Deploy : Type 0 where
  pub command_id : String
  pub pipeline_id : String
  pub model_name : String
  pub config : PipelineConfig

-- Where the worker waits: for the lock of its file, for the response, for the next chunk (with
-- the length that was announced and the bytes that came), for the locks of the commit, or, when
-- these are released, for its last reports.
pub data Phase : Type 0 where
  queued connecting : Phase
  downloading : ℕ → ℕ → Phase
  published committed : Phase
  finished : Status → Phase

-- What the worker meets: its wait ends, a response with a `content-length` (0 for none), a chunk,
-- the end of the stream (and whether the rename then works), or an exception.
pub data Event : Type 0 where
  ready : Event
  opened : ℕ → Event
  chunk : ℕ → Event
  ended : Bool → Event
  raised : Event

pub record System : Type 0 where
  pub runtime : AgentRuntime
  pub phase : Phase

flag_of : String → Option AgentWorker → Bool
flag_of cid none = false
flag_of cid (some w) = w.command_id == cid && w.cancelled

-- cancel_event.is_set()
unfoldable pub is_cancelled : Deploy → AgentRuntime → Bool
unfolding flag_of
is_cancelled d r = flag_of d.command_id (lookup d.pipeline_id r.agent_workers)

-- `set_deployment_progress`, and the report of the same stage.
unfoldable pub set_progress : String → String → AgentRuntime → AgentRuntime
set_progress pid stage r = record r { deployments = insert pid stage r.deployments }

unfoldable pub clear_progress : String → AgentRuntime → AgentRuntime
clear_progress pid r = record r { deployments = erase pid r.deployments }

drop_worker : String → String → Option AgentWorker → AgentRuntime → AgentRuntime
drop_worker cid pid none r = r
drop_worker cid pid (some w) r =
    if w.command_id == cid then record r { agent_workers = erase pid r.agent_workers } else r

-- The `finally` block.
unfoldable pub unregister : Deploy → AgentRuntime → AgentRuntime
unfolding drop_worker
unregister d r = drop_worker d.command_id d.pipeline_id (lookup d.pipeline_id r.agent_workers) r

unfoldable pub end_worker : Deploy → Status → AgentRuntime → System
end_worker d s r = record { runtime = unregister d r; phase = finished s }

-- `_report_cancelled`
unfoldable pub report_cancelled : Deploy → AgentRuntime → System
report_cancelled d r = end_worker d failed (
    report (command d.command_id failed)
      (clear_progress d.pipeline_id (report (progress d.pipeline_id "cancelled") r)))

-- Any other failure.
unfoldable pub report_failed : Deploy → AgentRuntime → System
report_failed d r =
    end_worker d failed (clear_progress d.pipeline_id (report (command d.command_id failed) r))

stay : Phase → AgentRuntime → System
stay p r = record { runtime = r; phase = p }

announce : Deploy → String → AgentRuntime → AgentRuntime
announce d stage r = set_progress d.pipeline_id stage (report (progress d.pipeline_id stage) r)

module _ (env : Env) where
  -- The file is there, or it is to be downloaded.
  unfoldable pub begin : Deploy → AgentRuntime → System
  unfolding stay
  begin d r =
      if is_cancelled d r
      then report_cancelled d r
      else if elem (env.model_file d.model_name) r.artifacts
      then stay published r
      else stay connecting r

  -- The `except` of the download.
  unfoldable pub interrupted : Deploy → AgentRuntime → System
  interrupted d r = if is_cancelled d r then report_cancelled d r else report_failed d r

  unfoldable pub is_short : ℕ → ℕ → Bool
  is_short zero done = false
  is_short (suc n) done = not (eqb done (suc n))

  -- The guards before the rename, and the rename.
  unfoldable pub publish_download : Deploy → ℕ → ℕ → Bool → AgentRuntime → System
  unfolding stay is_short
  publish_download d total done renamed r =
      if is_short total done
      then report_failed d r
      else if is_cancelled d r
      then report_cancelled d r
      else if renamed
      then stay published (record r { artifacts = env.model_file d.model_name ∷ r.artifacts })
      else report_failed d r

  unfoldable pub store : Deploy → AgentRuntime → AgentRuntime
  store d r =
      persist env (λ o. update_pipeline_config o d.config)
        (record r {
          pipeline_configs = insert d.pipeline_id d.config r.pipeline_configs;
          aliased = without d.pipeline_id r.aliased;
        })

  -- `_commit_deploy`, and what `_deploy_worker` does where a cancel came before.
  unfoldable pub commit_deploy : Deploy → AgentRuntime → System
  unfolding announce store stay
  commit_deploy d r =
      let r' = announce d "configuring" r in
      if is_cancelled d r' then report_cancelled d r' else stay committed (store d r')

  -- The end of a deploy that was committed; the cancel event is not looked at any more.
  unfoldable pub finish_deploy : Deploy → AgentRuntime → System
  finish_deploy d r = end_worker d completed (
      report (command d.command_id completed)
        (clear_progress d.pipeline_id (report (progress d.pipeline_id "completed") r)))

  -- One stretch of `_deploy_worker`. An event that a phase does not wait for changes nothing.
  unfoldable pub advance : Deploy → Phase → Event → AgentRuntime → System
  unfolding stay announce
  advance d queued ready r = begin d r
  advance d queued raised r = report_failed d r
  advance d connecting (opened total) r = stay (downloading total 0) (announce d "downloading" r)
  advance d connecting raised r = interrupted d r
  advance d (downloading total done) (chunk n) r =
      if is_cancelled d r then report_cancelled d r else stay (downloading total (done + n)) r
  advance d (downloading total done) (ended renamed) r = publish_download d total done renamed r
  advance d (downloading total done) raised r = interrupted d r
  advance d published ready r = commit_deploy d r
  advance d published raised r = report_failed d r
  advance d committed ready r = finish_deploy d r
  advance d phase event r = stay phase r
