-- ===== src/Tests/Deploys.antt =====
-- The theorems on the deploy worker, at concrete data.
use locai_link.Base.{
  ◌+◌, String, Bool, true, false, some, [], ◌∷◌, ◌++◌, map, ◌≡◌, ◌≢◌, refl, arith, eq_iff, elem,
}
use locai_link.Dict.{lookup}
use locai_link.Tests.{world, agent, deployed}
use locai_link.Runtime.{
  AgentRuntime, AgentWorker, cancel_deploy, parsed, completed, failed, stop_model_inference,
}
use locai_link.Runtime.Handle.{handle_command}
use locai_link.Runtime.Answers.{answers, command_id}
use locai_link.Runtime.Deploys.{
  Deploy, System, queued, downloading, finished, ready, chunk, ended, is_cancelled, advance,
}
use locai_link.Runtime.Deploying.{
  Run, work, handle, here, more, count, answered, deploy_answered_once,
}
use locai_link.Runtime.Cancelling.{is_completed, cancelled_deploy}
use locai_link.Runtime.Completing.{
  work_all, whole_download, sum, short_download_fails, deploy_completes,
}

abbrev job : Deploy
job = record {
  command_id = "c-7";
  pipeline_id = "deployed";
  model_name = "models/w.bin";
  config = deployed;
}

abbrev worker : Bool → AgentWorker
worker flag = record { command_id = "c-7"; cancelled = flag; alive = true }

abbrev at_work : AgentRuntime
at_work = record agent { agent_workers = ("deployed", worker false) ∷ [] }

abbrev told : AgentRuntime
told = record agent { agent_workers = ("deployed", worker true) ∷ [] }

abbrev start : System
start = record { runtime = at_work; phase = queued }

abbrev cancelled_runtime : AgentRuntime
cancelled_runtime = handle_command world (parsed (cancel_deploy "c-8" "deployed")) at_work

other_id : ◌≢◌ {A = String} "c-9" "c-7"
other_id e = ground (arith, (eq_iff "c-9" "c-7").1 e)

other_command : command_id (stop_model_inference "c-9" "chat") ≢ "c-7"
unfolding command_id
other_command = other_id

abbrev begun : System
begun = advance world job queued ready at_work

abbrev stopped : AgentRuntime
stopped = handle_command world (parsed (stop_model_inference "c-9" "chat")) begun.runtime

abbrev last : System
last = record { runtime = stopped; phase = begun.phase }

-- The worker begins, then a pipeline is stopped.
example-Run : Run world job start last
example-Run = more start begun last (work ready at_work queued) (
    more begun last last
      (handle (stop_model_inference "c-9" "chat") begun.runtime begun.phase other_command)
      (here last))

deploy_answered_once_example :
    count "c-7" (answers last.runtime.reports)
    ≡ count "c-7" (answers at_work.reports) + answered last.phase
deploy_answered_once_example = deploy_answered_once world job at_work last example-Run

flag_set : lookup "deployed" told.agent_workers ≡ some (worker true)
unfolding lookup
flag_set = refl

at_work_entry : lookup "deployed" at_work.agent_workers ≡ some (worker false)
unfolding lookup
at_work_entry = refl

abbrev after_cancel : System
after_cancel = advance world job (downloading 10 4) (ended true) cancelled_runtime

cancelled-Run :
    Run world job (record { runtime = cancelled_runtime; phase = downloading 10 4 }) after_cancel
cancelled-Run =
    more (record { runtime = cancelled_runtime; phase = downloading 10 4 }) after_cancel
      after_cancel (work (ended true) cancelled_runtime (downloading 10 4)) (here after_cancel)

cancelled_deploy_example : is_completed after_cancel.phase ≡ false
cancelled_deploy_example =
    cancelled_deploy world "c-8" job (downloading 10 4) at_work false after_cancel refl
      at_work_entry cancelled-Run

not_cancelled : is_cancelled job at_work ≡ false
unfolding is_cancelled lookup
not_cancelled = refl

not_there : elem "models/w.bin" at_work.artifacts ≡ false
not_there = refl

deploy_completes_example :
    let s = work_all world job (whole_download (4 ∷ 6 ∷ [])) start in
    (s.phase ≡ finished completed)
    × (lookup "deployed" s.runtime.pipeline_configs ≡ some deployed)
    × (elem "models/w.bin" s.runtime.artifacts ≡ true)
deploy_completes_example = deploy_completes world job at_work (4 ∷ 6 ∷ []) not_cancelled not_there

too_few : sum (4 ∷ 5 ∷ []) ≢ 10
too_few = λ e. omega (arith, e)

short_download_fails_example :
    let s =
      work_all world job
        (map chunk (4 ∷ 5 ∷ []) ++ ended true ∷ [])
        (record { runtime = at_work; phase = downloading 10 0 }) in
    (s.phase ≡ finished failed) × (s.runtime.artifacts ≡ at_work.artifacts)
short_download_fails_example =
    short_download_fails world job at_work 9 (4 ∷ 5 ∷ []) not_cancelled too_few
