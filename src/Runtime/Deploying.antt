-- ===== src/Runtime/Deploying.antt =====
-- The deploy worker of src/link/app/runtime.py among the commands that are handled meanwhile.
use locai_link.Base.{
  ℕ, suc, ◌+◌, String, Bool, List, [], ◌∷◌, ◌≡◌, ◌≢◌, inl, inr, arith, ◌==◌, eq_iff, eq_refl,
  if◌then◌else◌, Option-cases, ◌∙◌, ap,
}
use locai_link.Dict.{lookup}
use locai_link.Runtime.{
  AgentRuntime, Env, Command, Status, completed, failed, command, progress, report, persist, parsed,
  deploy_model, status,
}
use locai_link.Runtime.Handle.{handle_command}
use locai_link.Runtime.Answers.{answers, command_id, Answered, handle_command-Answers}
use locai_link.Runtime.Deploys.{
  Deploy, Phase, queued, connecting, downloading, published, committed, finished, Event, ended,
  System, unregister, report_cancelled, report_failed, set_progress, clear_progress, begin,
  interrupted, publish_download, commit_deploy, finish_deploy, advance, end_worker, store,
}

module _ (env : Env) where
  -- The worker's steps, and the commands, of other ids, that are handled in between.
  pub data Step (d : Deploy) : System → System → Type 0 where
    work :
        (event : Event) (r : AgentRuntime) (p : Phase)
        → Step d (record { runtime = r; phase = p }) (advance env d p event r)
    handle :
        (cmd : Command) (r : AgentRuntime) (p : Phase)
        → command_id cmd ≢ d.command_id
        → Step d
            (record { runtime = r; phase = p })
            (record { runtime = handle_command env (parsed cmd) r; phase = p })

  pub data Run (d : Deploy) : System → System → Type 0 where
    here : (s : System) → Run d s s
    more : (s t u : System) → Step d s t → Run d t u → Run d s u

-- How many answers have this id.
unfoldable pub count : String → List (String × Status) → ℕ
count cid [] = 0
count cid ((c, s) ∷ xs) = if c == cid then suc (count cid xs) else count cid xs

abbrev pub answered : Phase → ℕ
answered (finished s) = 1
answered _ = 0

-- The answers to a deploy: those that there were, and one more once its worker is finished.
abbrev pub Counted : Deploy → ℕ → System → Type 0
Counted d n s = count d.command_id (answers s.runtime.reports) ≡ n + answered s.phase

reports-unregister : (d : Deploy) (r : AgentRuntime) → (unregister d r).reports ≡ r.reports
unfolding unregister
reports-unregister d r = elim (Option-cases (lookup d.pipeline_id r.agent_workers)) [
  | inl e ↦ ground (arith, e)
  | inr (w, e) ↦ ground (arith, e)
]

count-report_cancelled :
    (d : Deploy) (r : AgentRuntime) (n : ℕ)
    → count d.command_id (answers r.reports) ≡ n
    → Counted d n (report_cancelled d r)
unfolding report_cancelled end_worker report clear_progress answers count
count-report_cancelled d r n h = ground (
  arith,
  h,
  eq_refl d.command_id,
  reports-unregister d (
      report (command d.command_id failed)
        (clear_progress d.pipeline_id (report (progress d.pipeline_id "cancelled") r))),
)

count-report_failed :
    (d : Deploy) (r : AgentRuntime) (n : ℕ)
    → count d.command_id (answers r.reports) ≡ n
    → Counted d n (report_failed d r)
unfolding report_failed end_worker report clear_progress answers count
count-report_failed d r n h = ground (
  arith,
  h,
  eq_refl d.command_id,
  reports-unregister d (clear_progress d.pipeline_id (report (command d.command_id failed) r)),
)

module _ (env : Env) where
  count-begin :
      (d : Deploy) (r : AgentRuntime) (n : ℕ)
      → count d.command_id (answers r.reports) ≡ n
      → Counted d n (begin env d r)
  unfolding begin
  count-begin d r n h = ground (arith, h, count-report_cancelled d r n h)

  count-interrupted :
      (d : Deploy) (r : AgentRuntime) (n : ℕ)
      → count d.command_id (answers r.reports) ≡ n
      → Counted d n (interrupted env d r)
  unfolding interrupted
  count-interrupted d r n h =
      ground (arith, h, count-report_cancelled d r n h, count-report_failed d r n h)

  count-publish_download :
      (d : Deploy) (total done : ℕ) (renamed : Bool) (r : AgentRuntime) (n : ℕ)
      → count d.command_id (answers r.reports) ≡ n
      → Counted d n (publish_download env d total done renamed r)
  unfolding publish_download
  count-publish_download d total done renamed r n h =
      ground (arith, h, count-report_cancelled d r n h, count-report_failed d r n h)

  reports-store : (d : Deploy) (r : AgentRuntime) → (store env d r).reports ≡ r.reports
  unfolding store persist
  reports-store d r = ground arith

  count-commit_deploy :
      (d : Deploy) (r : AgentRuntime) (n : ℕ)
      → count d.command_id (answers r.reports) ≡ n
      → Counted d n (commit_deploy env d r)
  unfolding commit_deploy report set_progress answers
  count-commit_deploy d r n h =
      let r' =
        set_progress d.pipeline_id "configuring"
          (report (progress d.pipeline_id "configuring") r) in
      ground (arith, h, reports-store d r', count-report_cancelled d r' n)

  count-finish_deploy :
      (d : Deploy) (r : AgentRuntime) (n : ℕ)
      → count d.command_id (answers r.reports) ≡ n
      → Counted d n (finish_deploy env d r)
  unfolding finish_deploy end_worker report clear_progress answers count
  count-finish_deploy d r n h = ground (
    arith,
    h,
    eq_refl d.command_id,
    reports-unregister d (
        report (command d.command_id completed)
          (clear_progress d.pipeline_id (report (progress d.pipeline_id "completed") r))),
  )

  advance-Counted :
      (d : Deploy) (p : Phase) (event : Event) (r : AgentRuntime) (n : ℕ)
      → count d.command_id (answers r.reports) ≡ n + answered p
      → Counted d n (advance env d p event r)
  unfolding advance report set_progress answers
  advance-Counted d queued event r n h =
      ground (arith, h, count-begin d r n, count-report_failed d r n)
  advance-Counted d connecting event r n h = ground (arith, h, count-interrupted d r n)
  advance-Counted d (downloading total done) (ended renamed) r n h =
      ground (arith, h, count-publish_download d total done renamed r n)
  advance-Counted d (downloading total done) event r n h =
      ground (arith, h, count-interrupted d r n, count-report_cancelled d r n)
  advance-Counted d published event r n h =
      ground (arith, h, count-commit_deploy d r n, count-report_failed d r n)
  advance-Counted d committed event r n h = ground (arith, h, count-finish_deploy d r n)
  advance-Counted d (finished st) event r n h = ground (arith, h)

  count-other :
      (cid : String) (r r' : AgentRuntime) (other : String)
      → other ≢ cid
      → Answered other r r'
      → count cid (answers r'.reports) ≡ count cid (answers r.reports)
  unfolding count
  count-other cid r r' other n h = ground (arith, h, eq_iff other cid)

  count-handle :
      (cmd : Command) (cid : String) (r : AgentRuntime)
      → command_id cmd ≢ cid
      → count cid (answers (handle_command env (parsed cmd) r).reports)
        ≡ count cid (answers r.reports)
  unfolding command_id count
  count-handle (deploy_model c pid name config) cid r n =
      ground (arith, handle_command-Answers env (deploy_model c pid name config) r, eq_iff c cid)
  count-handle (status c) cid r n =
      ap (λ (x : AgentRuntime). count cid (answers x.reports))
        (handle_command-Answers env (status c) r)
  count-handle cmd cid r n =
      count-other cid r (handle_command env (parsed cmd) r) (command_id cmd) n
        (handle_command-Answers env cmd r)

  Step-Counted :
      (d : Deploy) (s t : System) (n : ℕ) → Step env d s t → Counted d n s → Counted d n t
  Step-Counted d _ _ n (work event r p) h = advance-Counted d p event r n h
  Step-Counted d _ _ n (handle cmd r p other) h = count-handle cmd d.command_id r other ∙ h

  Run-Counted : (d : Deploy) (s t : System) (n : ℕ) → Run env d s t → Counted d n s → Counted d n t
  Run-Counted d _ _ n (here s) h = h
  Run-Counted d _ _ n (more s t u one rest) h =
      Run-Counted d t u n rest (Step-Counted d s t n one h)

  -- However the steps of a deploy worker and the handling of commands with other ids are
  -- interleaved, the deploy has no answer until its worker is finished, and then exactly one.
  pub deploy_answered_once :
      (d : Deploy) (r : AgentRuntime) (s : System)
      → Run env d (record { runtime = r; phase = queued }) s
      → count d.command_id (answers s.runtime.reports)
        ≡ count d.command_id (answers r.reports) + answered s.phase
  deploy_answered_once d r s run =
      Run-Counted d (record { runtime = r; phase = queued }) s
        (count d.command_id (answers r.reports)) run (omega arith)
