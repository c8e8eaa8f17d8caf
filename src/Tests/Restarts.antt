-- ===== src/Tests/Restarts.antt =====
-- The theorems on a restarted runtime, at a session with one active pipeline.
use locai_link.Base.{some, true, [], ◌≡◌, refl, elem}
use locai_link.Dict.{has}
use locai_link.State.{model_dump}
use locai_link.Runtime.{AgentRuntime}
use locai_link.Runtime.Main.{recover_session}
use locai_link.Runtime.Recovering.{AllGoes, active_ids, recover_session-active}
use locai_link.Tests.{old_config, agent, world}

abbrev restarted : AgentRuntime
restarted = record agent { pipelines = []; pipeline_configs = [] }

recover_session-active_example :
    (has "chat" (recover_session world (some (model_dump old_config)) restarted).pipelines ≡ true
      → elem "chat" (active_ids (model_dump old_config).pipelines) ≡ true)
    × (AllGoes world restarted
        → elem "chat" (active_ids (model_dump old_config).pipelines) ≡ true
        → has "chat" (recover_session world (some (model_dump old_config)) restarted).pipelines
          ≡ true)
recover_session-active_example =
    recover_session-active world (model_dump old_config) restarted "chat" refl
