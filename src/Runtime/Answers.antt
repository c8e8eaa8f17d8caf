-- ===== src/Runtime/Answers.antt =====
-- Each command that reaches `handle_command` is answered, once.
use locai_link.Base.{
  ℕ, String, Bool, true, false, Option, none, some, List, [], ◌∷◌, ◌≡◌, refl, inl, inr, ◌⊎◌, arith,
  Option-cases, without,
}
use locai_link.Config.{PipelineConfig, AgentConfig}
use locai_link.Dict.{lookup, insert, erase}
use locai_link.State.{update_pipeline_config, remove_pipeline}
use locai_link.Dict.Laws.{lookup-insert_self}
use locai_link.Runtime.{
  AgentWorker, AgentRuntime, Env, Report, command, model, uninstalled, progress, Status, completed,
  failed, report, persist, Command, deploy_model, cancel_deploy, start_model, start_model_inference,
  stop_model_inference, start_serving, stop_serving, uninstall_model, update_pipeline, status,
  update_agent, update_agent_config, parsed,
}
use locai_link.Runtime.Frame.{SameRest}
use locai_link.Runtime.Pipelines.{start_pipeline, stop_pipeline}
use locai_link.Runtime.Models.{
  artifact_path, non_empty, deploy, cancel, update, uninstall, uninstall_found, delete_artifact,
  report_uninstalled,
}
use locai_link.Runtime.Handle.{
  finish, outcome, serve_args, change_stored, serve, stop_serve, update_self, update_config,
  uninstall_safely, dispatch, handle_command,
}
use locai_link.Runtime.Quiet.{
  start_pipeline-SameRest, stop_pipeline-SameRest, persist-Quiet, apply_agent_config-Quiet,
  change_stored-Quiet,
}

-- The answers among the reports, newest first.
unfoldable pub answers : List Report → List (String × Status)
answers [] = []
answers (command cid s ∷ xs) = (cid, s) ∷ answers xs
answers (model pid running serving port ∷ xs) = answers xs
answers (uninstalled pid ∷ xs) = answers xs
answers (progress pid stage ∷ xs) = answers xs

-- The one command id of each command.
unfoldable pub command_id : Command → String
command_id (deploy_model cid pid name c) = cid
command_id (cancel_deploy cid pid) = cid
command_id (start_model cid pid c) = cid
command_id (start_model_inference cid pid) = cid
command_id (stop_model_inference cid pid) = cid
command_id (start_serving cid pid port host alias) = cid
command_id (stop_serving cid pid) = cid
command_id (uninstall_model cid pid force name ext) = cid
command_id (update_pipeline cid pid c) = cid
command_id (status cid) = cid
command_id (update_agent cid) = cid
command_id (update_agent_config cid c) = cid

abbrev worker : String → AgentWorker
worker cid = record { command_id = cid; cancelled = false; alive = true }

-- One answer more, with this id.
abbrev pub Answered : String → AgentRuntime → AgentRuntime → Type 0
Answered cid r r' =
    (answers r'.reports ≡ (cid, completed) ∷ answers r.reports)
    ⊎ (answers r'.reports ≡ (cid, failed) ∷ answers r.reports)

-- What each command promises: an answer; a deploy is answered, as failed, or its worker is
-- started and answers later; a status request changes nothing.
abbrev pub Answers : Command → AgentRuntime → AgentRuntime → Type 0
Answers (status cid) r r' = r' ≡ r
Answers (deploy_model cid pid name c) r r' =
    (answers r'.reports ≡ (cid, failed) ∷ answers r.reports)
    ⊎ ((r'.reports ≡ r.reports) × (lookup pid r'.agent_workers ≡ some (worker cid)))
Answers cmd r r' = Answered (command_id cmd) r r'

module _ (env : Env) where
  deploy-Answers :
      (cid pid name : String) (c : PipelineConfig) (r : AgentRuntime)
      → Answers (deploy_model cid pid name c) r (deploy env cid pid name c r)
  unfolding deploy answers report
  deploy-Answers cid pid name c r =
      ground (arith, lookup-insert_self pid (worker cid) r.agent_workers)

  cancel-Answered : (cid pid : String) (r : AgentRuntime) → Answered cid r (cancel env cid pid r)
  unfolding cancel answers report
  cancel-Answered cid pid r = ground arith

  update-Answered :
      (cid pid : String) (c : PipelineConfig) (r : AgentRuntime)
      → Answered cid r (update env cid pid c r)
  unfolding update answers report
  update-Answered cid pid c r =
      let stored = record r {
        pipeline_configs = insert pid c r.pipeline_configs;
        aliased = without pid r.aliased;
      } in
      ground (
        arith,
        start_pipeline-SameRest env pid (some c) r,
        persist-Quiet env (λ o. update_pipeline_config o c) stored,
      )

  -- The last steps of an uninstall tell nothing that is an answer.
  answers-report_uninstalled :
      (cid pid : String) (r : AgentRuntime) → (report_uninstalled env cid pid r).reports ≡ r.reports
  unfolding report_uninstalled
  answers-report_uninstalled cid pid r = ground arith

  reports-delete_artifact :
      (path : Option String) (r : AgentRuntime) → (delete_artifact env path r).reports ≡ r.reports
  unfolding delete_artifact
  reports-delete_artifact none r = refl
  reports-delete_artifact (some path) r = ground arith

  uninstall_found-Answered :
      (cid pid : String) (name ext : Option String) (r : AgentRuntime)
      → Answered cid r (uninstall_found env cid pid name ext r)
  unfolding uninstall_found answers report report_uninstalled
  uninstall_found-Answered cid pid name ext r =
      let dropped = record r {
        pipeline_configs = erase pid r.pipeline_configs;
        aliased = without pid r.aliased;
      } in
      let saved = persist env (λ o. remove_pipeline o pid) dropped in
      ground (
        arith,
        persist-Quiet env (λ o. remove_pipeline o pid) dropped,
        reports-delete_artifact (artifact_path env pid name ext r) saved,
      )

  uninstall-Answered :
      (cid pid : String) (force : Bool) (name ext : Option String) (r : AgentRuntime)
      → Answered cid r (uninstall env cid pid force name ext r)
  unfolding uninstall answers report
  uninstall-Answered cid pid force name ext r = ground (
    arith,
    stop_pipeline-SameRest env pid r,
    uninstall_found-Answered cid pid name ext r,
    uninstall_found-Answered cid pid name ext (stop_pipeline env pid r).0,
  )

  uninstall_safely-Answered :
      (cid pid : String) (force : Bool) (name ext : Option String) (r : AgentRuntime)
      → Answered cid r (uninstall_safely env cid pid force name ext r)
  unfolding uninstall_safely answers report
  uninstall_safely-Answered cid pid force name ext r =
      ground (arith, uninstall-Answered cid pid force (non_empty name) (non_empty ext) r)

  serve-Answered :
      (cid pid : String) (port : ℕ) (host alias : String) (r : AgentRuntime)
      → Answered cid r (serve env cid pid port host alias r)
  unfolding serve answers report
  serve-Answered cid pid port host alias r = elim (Option-cases (lookup pid r.pipeline_configs)) [
    | inl e ↦ rw (e, serve) (inr refl)
    | inr (c, e) ↦
        let changed = change_stored pid c (serve_args port host alias) r in
        let saved =
          persist env (λ o. update_pipeline_config o (serve_args port host alias c)) changed in
        ground (
          arith,
          e,
          change_stored-Quiet pid c (serve_args port host alias) r,
          persist-Quiet env (λ o. update_pipeline_config o (serve_args port host alias c)) changed,
          start_pipeline-SameRest env pid none saved,
        )
  ]

  stop_serve-Answered :
      (cid pid : String) (r : AgentRuntime) → Answered cid r (stop_serve env cid pid r)
  unfolding stop_serve answers report
  stop_serve-Answered cid pid r = ground (arith, stop_pipeline-SameRest env pid r)

  update_self-Answered : (cid : String) (r : AgentRuntime) → Answered cid r (update_self env cid r)
  unfolding update_self answers report
  update_self-Answered cid r = ground arith

  update_config-Answered :
      (cid : String) (c : AgentConfig) (r : AgentRuntime)
      → Answered cid r (update_config env cid c r)
  unfolding update_config answers report
  update_config-Answered cid c r = ground (arith, apply_agent_config-Quiet env c.version (some c) r)

  finish-Answered :
      (cid pid : String) (running serving : Bool) (port : ℕ) (r : AgentRuntime)
      (x : AgentRuntime × Bool)
      → SameRest r x.0
      → Answered cid r (finish cid pid running serving port x)
  unfolding finish answers report
  finish-Answered cid pid running serving port r (r', true) h = ground (arith, h)
  finish-Answered cid pid running serving port r (r', false) h = ground (arith, h)

  outcome-Answered :
      (cid : String) (r : AgentRuntime) (x : AgentRuntime × Bool)
      → SameRest r x.0
      → Answered cid r (outcome cid x)
  unfolding outcome answers report
  outcome-Answered cid r (r', true) h = ground (arith, h)
  outcome-Answered cid r (r', false) h = ground (arith, h)

  -- Handling a command adds exactly one answer, with the command's id, completed or failed, but
  -- for two kinds: a deploy is answered as failed, or its worker is started, which is to answer
  -- later; and a status request leaves the runtime as it is.
  pub handle_command-Answers :
      (cmd : Command) (r : AgentRuntime) → Answers cmd r (handle_command env (parsed cmd) r)
  unfolding handle_command dispatch command_id
  handle_command-Answers (deploy_model cid pid name c) r = deploy-Answers cid pid name c r
  handle_command-Answers (cancel_deploy cid pid) r = cancel-Answered cid pid r
  handle_command-Answers (start_model cid pid c) r =
      outcome-Answered cid r (start_pipeline env pid (some c) r)
        (start_pipeline-SameRest env pid (some c) r)
  handle_command-Answers (start_model_inference cid pid) r =
      finish-Answered cid pid true false 0 r (start_pipeline env pid none r)
        (start_pipeline-SameRest env pid none r)
  handle_command-Answers (stop_model_inference cid pid) r =
      finish-Answered cid pid false false 0 r (stop_pipeline env pid r)
        (stop_pipeline-SameRest env pid r)
  handle_command-Answers (start_serving cid pid port host alias) r =
      serve-Answered cid pid port host alias r
  handle_command-Answers (stop_serving cid pid) r = stop_serve-Answered cid pid r
  handle_command-Answers (uninstall_model cid pid force name ext) r =
      uninstall_safely-Answered cid pid force name ext r
  handle_command-Answers (update_pipeline cid pid c) r = update-Answered cid pid c r
  handle_command-Answers (status cid) r = refl
  handle_command-Answers (update_agent cid) r = update_self-Answered cid r
  handle_command-Answers (update_agent_config cid c) r = update_config-Answered cid c r
