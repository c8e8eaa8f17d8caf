-- ===== src/Runtime/Cancelling.antt =====
-- A deploy that is cancelled: src/link/app/runtime.py, `_cancel_deploy` and the worker's checks.
use locai_link.Base.{
  String, Bool, true, false, some, ◌≡◌, refl, arith, eq_refl, Option-cases, inl, inr,
}
use locai_link.Dict.{lookup}
use locai_link.Dict.Laws.{lookup-insert_self}
use locai_link.Runtime.{
  AgentRuntime, AgentWorker, Env, completed, failed, Command, cancel_deploy, parsed, report,
  command, progress,
}
use locai_link.Runtime.Models.{cancel}
use locai_link.Runtime.Handle.{handle_command, dispatch}
use locai_link.Runtime.Workers.{Marked, handle_command-Marked}
use locai_link.Runtime.Deploys.{
  Deploy, Phase, queued, connecting, downloading, published, committed, finished, Event, System,
  unregister, report_cancelled, report_failed, end_worker, set_progress, clear_progress, begin,
  interrupted, publish_download, commit_deploy, advance, is_cancelled,
}
use locai_link.Runtime.Deploying.{Run, work, handle, here, more}

-- Told to stop, or finished without success.
abbrev pub Doomed : Deploy → Phase → AgentRuntime → Type 0
Doomed d (finished st) r = st ≡ failed
Doomed d committed r = ⊥
Doomed d p r = Marked d.command_id d.pipeline_id r.agent_workers

abbrev pub is_completed : Phase → Bool
is_completed (finished completed) = true
is_completed _ = false

-- The worker has stored its configuration, or is finished.
abbrev pub is_past_commit : Phase → Bool
is_past_commit (finished st) = true
is_past_commit committed = true
is_past_commit _ = false

pub unregister_keeps :
    (d : Deploy) (r : AgentRuntime)
    → ((unregister d r).pipeline_configs ≡ r.pipeline_configs)
      × ((unregister d r).artifacts ≡ r.artifacts)
unfolding unregister
unregister_keeps d r = elim (Option-cases (lookup d.pipeline_id r.agent_workers)) [
  | inl e ↦ ground (arith, e)
  | inr (w, e) ↦ ground (arith, e)
]

is_cancelled-Marked :
    (d : Deploy) (r : AgentRuntime)
    → Marked d.command_id d.pipeline_id r.agent_workers
    → is_cancelled d r ≡ true
unfolding is_cancelled
is_cancelled-Marked d r h = ground (arith, h, eq_refl d.command_id)

-- The files and the configurations are as they were, and the worker is doomed.
abbrev pub Harmless : Deploy → AgentRuntime → System → Type 0
Harmless d r s =
    (s.runtime.pipeline_configs ≡ r.pipeline_configs)
    × (s.runtime.artifacts ≡ r.artifacts)
    × Doomed d s.phase s.runtime

report_cancelled-Harmless : (d : Deploy) (r : AgentRuntime) → Harmless d r (report_cancelled d r)
unfolding report_cancelled end_worker clear_progress report
report_cancelled-Harmless d r = ground (
  arith,
  unregister_keeps d (
      report (command d.command_id failed)
        (clear_progress d.pipeline_id (report (progress d.pipeline_id "cancelled") r))),
)

pub report_failed-Harmless : (d : Deploy) (r : AgentRuntime) → Harmless d r (report_failed d r)
unfolding report_failed end_worker clear_progress report
report_failed-Harmless d r = ground (
  arith,
  unregister_keeps d (clear_progress d.pipeline_id (report (command d.command_id failed) r)),
)

module _ (env : Env) where
  commit_deploy-Harmless :
      (d : Deploy) (r : AgentRuntime)
      → Marked d.command_id d.pipeline_id r.agent_workers
      → Harmless d r (commit_deploy env d r)
  unfolding commit_deploy set_progress report
  commit_deploy-Harmless d r h =
      let r' =
        set_progress d.pipeline_id "configuring"
          (report (progress d.pipeline_id "configuring") r) in
      ground (arith, is_cancelled-Marked d r' h, report_cancelled-Harmless d r')

  -- A worker that was told to stop, at whatever it meets next, neither publishes its file nor
  -- stores its configuration; it goes on unless it finishes, and then it failed.
  pub cancelled_worker :
      (d : Deploy) (p : Phase) (event : Event) (r : AgentRuntime)
      → Doomed d p r
      → Harmless d r (advance env d p event r)
  unfolding advance begin interrupted publish_download set_progress report
  cancelled_worker d queued event r h = ground (
    arith,
    h,
    is_cancelled-Marked d r h,
    report_cancelled-Harmless d r,
    report_failed-Harmless d r,
  )
  cancelled_worker d connecting event r h = ground (
    arith,
    h,
    is_cancelled-Marked d r h,
    report_cancelled-Harmless d r,
    report_failed-Harmless d r,
  )
  cancelled_worker d (downloading total done) event r h = ground (
    arith,
    h,
    is_cancelled-Marked d r h,
    report_cancelled-Harmless d r,
    report_failed-Harmless d r,
  )
  cancelled_worker d published event r h = ground (
    arith,
    h,
    is_cancelled-Marked d r h,
    commit_deploy-Harmless d r h,
    report_failed-Harmless d r,
  )
  cancelled_worker d committed event r h = absurd h
  cancelled_worker d (finished st) event r h = ground (arith, h)

  handle-Doomed :
      (d : Deploy) (p : Phase) (cmd : Command) (r : AgentRuntime)
      → Doomed d p r
      → Doomed d p (handle_command env (parsed cmd) r)
  handle-Doomed d queued cmd r h = handle_command-Marked env d.command_id d.pipeline_id cmd r h
  handle-Doomed d connecting cmd r h = handle_command-Marked env d.command_id d.pipeline_id cmd r h
  handle-Doomed d (downloading total done) cmd r h =
      handle_command-Marked env d.command_id d.pipeline_id cmd r h
  handle-Doomed d published cmd r h = handle_command-Marked env d.command_id d.pipeline_id cmd r h
  handle-Doomed d committed cmd r h = h
  handle-Doomed d (finished st) cmd r h = h

  Run-Doomed :
      (d : Deploy) (s t : System)
      → Run env d s t
      → Doomed d s.phase s.runtime
      → Doomed d t.phase t.runtime
  Run-Doomed d _ _ (here s) h = h
  Run-Doomed d _ _ (more s t u (work event r p) rest) h =
      Run-Doomed d t u rest (cancelled_worker d p event r h).2
  Run-Doomed d _ _ (more s t u (handle cmd r p other) rest) h =
      Run-Doomed d t u rest (handle-Doomed d p cmd r h)

  cancel-marks :
      (cid : String) (d : Deploy) (r : AgentRuntime) (flag : Bool)
      → lookup d.pipeline_id r.agent_workers
        ≡ some (record { command_id = d.command_id; cancelled = flag; alive = true })
      → Marked d.command_id d.pipeline_id
          (handle_command env (parsed (cancel_deploy cid d.pipeline_id)) r).agent_workers
  unfolding handle_command dispatch cancel report
  cancel-marks cid d r flag h =
      let w : AgentWorker = record { command_id = d.command_id; cancelled = true; alive = true } in
      ground (arith, h, lookup-insert_self d.pipeline_id w r.agent_workers)

  Doomed-phase :
      (d : Deploy) (p : Phase) (r : AgentRuntime)
      → is_past_commit p ≡ false
      → Marked d.command_id d.pipeline_id r.agent_workers
      → Doomed d p r
  Doomed-phase d queued r u h = h
  Doomed-phase d connecting r u h = h
  Doomed-phase d (downloading total done) r u h = h
  Doomed-phase d published r u h = h
  Doomed-phase d committed r u h = absurd cc
  Doomed-phase d (finished st) r u h = absurd cc

  not_completed :
      (d : Deploy) (p : Phase) (r : AgentRuntime) → Doomed d p r → is_completed p ≡ false
  not_completed d queued r h = refl
  not_completed d connecting r h = refl
  not_completed d (downloading total done) r h = refl
  not_completed d published r h = refl
  not_completed d committed r h = refl
  not_completed d (finished completed) r h = ground (arith, h)
  not_completed d (finished failed) r h = refl

  -- Once the cancel command for a deploy whose worker is at work, and has not stored its
  -- configuration yet, was handled, the deploy never completes, however its steps and further
  -- commands are interleaved.
  pub cancelled_deploy :
      (cid : String) (d : Deploy) (p : Phase) (r : AgentRuntime) (flag : Bool) (t : System)
      → is_past_commit p ≡ false
      → lookup d.pipeline_id r.agent_workers
        ≡ some (record { command_id = d.command_id; cancelled = flag; alive = true })
      → Run env d
          (record {
            runtime = handle_command env (parsed (cancel_deploy cid d.pipeline_id)) r;
            phase = p;
          })
          t
      → is_completed t.phase ≡ false
  cancelled_deploy cid d p r flag t u h run =
      let r' = handle_command env (parsed (cancel_deploy cid d.pipeline_id)) r in
      not_completed d t.phase t.runtime (
        Run-Doomed d (record { runtime = r'; phase = p }) t run
          (Doomed-phase d p r' u (cancel-marks cid d r flag h)))
