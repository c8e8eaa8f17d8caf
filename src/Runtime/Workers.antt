-- ===== src/Runtime/Workers.antt =====
-- Which commands change the entry of a deploy worker in `agent_workers`, and how.
use locai_link.Base.{
  ℕ, String, Bool, true, false, Option, none, some, ◌≡◌, refl, arith, ◌∙◌, ap, eq_iff, Option-cases,
  without, inl, inr,
}
use locai_link.Config.{PipelineConfig}
use locai_link.Dict.{Dict, lookup, insert, erase}
use locai_link.Dict.Laws.{lookup-insert}
use locai_link.State.{update_pipeline_config, remove_pipeline}
use locai_link.Runtime.{
  AgentRuntime, AgentWorker, Env, Command, report, persist, parsed, deploy_model, cancel_deploy,
  start_model, start_model_inference, stop_model_inference, start_serving, stop_serving,
  uninstall_model, update_pipeline, status, update_agent, update_agent_config,
}
use locai_link.Runtime.Pipelines.{start_pipeline, stop_pipeline}
use locai_link.Runtime.Models.{
  artifact_path, deploy, cancel, update, uninstall, uninstall_found, delete_artifact,
  report_uninstalled, non_empty,
}
use locai_link.Runtime.Handle.{
  finish, outcome, change_stored, serve_args, serve, stop_serve, update_self, update_config,
  uninstall_safely, dispatch, handle_command,
}
use locai_link.Runtime.Quiet.{
  persist-Quiet, apply_agent_config-Quiet, change_stored-Quiet, start_pipeline-SameRest,
  stop_pipeline-SameRest,
}

-- The worker of the deploy `cid` is at work and was told to stop.
abbrev pub Marked : String → String → Dict AgentWorker → Type 0
Marked cid pid workers =
    lookup pid workers ≡ some (record { command_id = cid; cancelled = true; alive = true })

workers-finish :
    (cid pid : String) (running serving : Bool) (port : ℕ) (x : AgentRuntime × Bool)
    → (finish cid pid running serving port x).agent_workers ≡ x.0.agent_workers
unfolding finish report
workers-finish cid pid running serving port (r', true) = refl
workers-finish cid pid running serving port (r', false) = refl

workers-outcome :
    (cid : String) (x : AgentRuntime × Bool) → (outcome cid x).agent_workers ≡ x.0.agent_workers
unfolding outcome report
workers-outcome cid (r', true) = refl
workers-outcome cid (r', false) = refl

module _ (env : Env) where
  deploy-Marked :
      (cid pid : String) (c p name : String) (config : PipelineConfig) (r : AgentRuntime)
      → Marked cid pid r.agent_workers
      → Marked cid pid (deploy env c p name config r).agent_workers
  unfolding deploy report
  deploy-Marked cid pid c p name config r h =
      let w : AgentWorker = record { command_id = c; cancelled = false; alive = true } in
      ground (arith, h, lookup-insert p pid w r.agent_workers, eq_iff p pid)

  cancel-Marked :
      (cid pid c p : String) (r : AgentRuntime)
      → Marked cid pid r.agent_workers
      → Marked cid pid (cancel env c p r).agent_workers
  unfolding cancel report
  cancel-Marked cid pid c p r h = elim (Option-cases (lookup p r.agent_workers)) [
    | inl e ↦ ground (arith, h, e)
    | inr (w, e) ↦ ground (
      arith,
      h,
      e,
      lookup-insert p pid (record w { cancelled = true }) r.agent_workers,
      eq_iff p pid,
    )
  ]

  workers-update :
      (c p : String) (config : PipelineConfig) (r : AgentRuntime)
      → (update env c p config r).agent_workers ≡ r.agent_workers
  unfolding update report
  workers-update c p config r =
      let stored = record r {
        pipeline_configs = insert p config r.pipeline_configs;
        aliased = without p r.aliased;
      } in
      ground (
        arith,
        start_pipeline-SameRest env p (some config) r,
        persist-Quiet env (λ o. update_pipeline_config o config) stored,
      )

  workers-report_uninstalled :
      (cid pid : String) (r : AgentRuntime)
      → (report_uninstalled env cid pid r).agent_workers ≡ r.agent_workers
  unfolding report_uninstalled
  workers-report_uninstalled cid pid r = ground arith

  workers-delete_artifact :
      (path : Option String) (r : AgentRuntime)
      → (delete_artifact env path r).agent_workers ≡ r.agent_workers
  unfolding delete_artifact
  workers-delete_artifact none r = refl
  workers-delete_artifact (some path) r = ground arith

  workers-uninstall_found :
      (cid pid : String) (name ext : Option String) (r : AgentRuntime)
      → (uninstall_found env cid pid name ext r).agent_workers ≡ r.agent_workers
  unfolding uninstall_found report report_uninstalled
  workers-uninstall_found cid pid name ext r =
      let dropped = record r {
        pipeline_configs = erase pid r.pipeline_configs;
        aliased = without pid r.aliased;
      } in
      let saved = persist env (λ o. remove_pipeline o pid) dropped in
      ground (
        arith,
        persist-Quiet env (λ o. remove_pipeline o pid) dropped,
        workers-delete_artifact (artifact_path env pid name ext r) saved,
      )

  workers-uninstall_safely :
      (cid pid : String) (force : Bool) (name ext : Option String) (r : AgentRuntime)
      → (uninstall_safely env cid pid force name ext r).agent_workers ≡ r.agent_workers
  unfolding uninstall_safely uninstall report
  workers-uninstall_safely cid pid force name ext r = ground (
    arith,
    stop_pipeline-SameRest env pid r,
    workers-uninstall_found cid pid (non_empty name) (non_empty ext) r,
    workers-uninstall_found cid pid (non_empty name) (non_empty ext) (stop_pipeline env pid r).0,
  )

  workers-serve :
      (cid pid : String) (port : ℕ) (host alias : String) (r : AgentRuntime)
      → (serve env cid pid port host alias r).agent_workers ≡ r.agent_workers
  unfolding serve report
  workers-serve cid pid port host alias r = elim (Option-cases (lookup pid r.pipeline_configs)) [
    | inl e ↦ rw (e, serve) refl
    | inr (c, e) ↦
        let changed = change_stored pid c (serve_args port host alias) r in
        let saved =
          persist env (λ o. update_pipeline_config o (serve_args port host alias c)) changed in
        ground (
          arith,
          e,
          change_stored-Quiet pid c (serve_args port host alias) r,
          persist-Quiet env (λ o. update_pipeline_config o (serve_args port host alias c)) changed,
          workers-finish cid pid false true port (start_pipeline env pid none saved),
          start_pipeline-SameRest env pid none saved,
        )
  ]

  workers-stop_serve :
      (cid pid : String) (r : AgentRuntime)
      → (stop_serve env cid pid r).agent_workers ≡ r.agent_workers
  unfolding stop_serve
  workers-stop_serve cid pid r = ground (
    arith,
    stop_pipeline-SameRest env pid r,
    workers-finish cid pid false false 0 (stop_pipeline env pid r),
  )

  -- A deploy worker that was told to stop stays so, whatever command is handled.
  pub handle_command-Marked :
      (cid pid : String) (cmd : Command) (r : AgentRuntime)
      → Marked cid pid r.agent_workers
      → Marked cid pid (handle_command env (parsed cmd) r).agent_workers
  unfolding handle_command dispatch update_self update_config report
  handle_command-Marked cid pid (deploy_model c p name config) r h =
      deploy-Marked cid pid c p name config r h
  handle_command-Marked cid pid (cancel_deploy c p) r h = cancel-Marked cid pid c p r h
  handle_command-Marked cid pid (start_model c p config) r h =
      ap (lookup pid) (
        workers-outcome c (start_pipeline env p (some config) r)
        ∙ (start_pipeline-SameRest env p (some config) r).workers)
      ∙ h
  handle_command-Marked cid pid (start_model_inference c p) r h =
      ap (lookup pid) (
        workers-finish c p true false 0 (start_pipeline env p none r)
        ∙ (start_pipeline-SameRest env p none r).workers)
      ∙ h
  handle_command-Marked cid pid (stop_model_inference c p) r h =
      ap (lookup pid) (
        workers-finish c p false false 0 (stop_pipeline env p r)
        ∙ (stop_pipeline-SameRest env p r).workers)
      ∙ h
  handle_command-Marked cid pid (start_serving c p port host alias) r h =
      ap (lookup pid) (workers-serve c p port host alias r) ∙ h
  handle_command-Marked cid pid (stop_serving c p) r h =
      ap (lookup pid) (workers-stop_serve c p r) ∙ h
  handle_command-Marked cid pid (uninstall_model c p force name ext) r h =
      ap (lookup pid) (workers-uninstall_safely c p force name ext r) ∙ h
  handle_command-Marked cid pid (update_pipeline c p config) r h =
      ap (lookup pid) (workers-update c p config r) ∙ h
  handle_command-Marked cid pid (status c) r h = h
  handle_command-Marked cid pid (update_agent c) r h = ground (arith, h)
  handle_command-Marked cid pid (update_agent_config c config) r h =
      ap (lookup pid) (apply_agent_config-Quiet env config.version (some config) r).workers ∙ h
