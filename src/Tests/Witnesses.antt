-- ===== src/Tests/Witnesses.antt =====
-- The theorems on the runtime, at concrete data.
use mathlib.Core.Bool.{decide_iff}
use text.Mathlib.Text.{starts_with}
use locai_link.Runtime.Models.{report_uninstalled, rstrip_slashes}
use locai_link.Runtime.Pending.{Accounted, Tells, flush_times, removal_not_lost}
use locai_link.Base.{
  String, true, false, none, some, [], ◌∷◌, ◌≡◌, ◌≢◌, refl, ap, arith, eq_iff, elem,
}
use locai_link.Config.{PipelineConfig, PipelineConfig-discrete}
use locai_link.Tests.{world, broken, agent, chat, chat_new, old_config, new_config}
use locai_link.Runtime.{AgentRuntime, tick, persist, truthy}
use locai_link.Dict.{lookup, erase}
use locai_link.Runtime.Pipelines.{
  start_pipeline, stop_pipeline, unchanged, restart, halt, build, build_and_commit, commit_start,
  create_component,
}
use locai_link.Runtime.{parsed, stop_model_inference}
use locai_link.Base.{◌⊎◌}
use locai_link.Runtime.Reconfigure.{
  removed_ids, stop_all, swap_each, swap_one, diff_and_swap_pipelines, apply_config,
  apply_agent_config,
}
use locai_link.Runtime.Swapping.{Distinct}
use locai_link.Runtime.Applied.{Swapped, apply_config-Swapped, apply_config_orphans}
use locai_link.Runtime.Ends.{Ends, Admitted, apply_agent_config-Ends}
use locai_link.Runtime.Handle.{handle_command}
use locai_link.Runtime.Answers.{Answers, handle_command-Answers}
use locai_link.Runtime.Models.{config_path, uninstall}
use locai_link.Runtime.Uninstalling.{uninstall_keeps}
use locai_link.Runtime.Starting.{Halted}
use locai_link.Runtime.Started.{Runs, start_failed, start_succeeded}

new_differs : chat_new ≢ chat
new_differs e =
    ground (arith, (eq_iff "llama2" "llama").1 (ap (λ (c : PipelineConfig). c.source.type) e))

changed : unchanged "chat" chat_new agent ≡ false
unfolding unchanged lookup
changed = ground (arith, new_differs, (decide_iff (PipelineConfig-discrete chat_new chat)).0)

start_fails : (start_pipeline broken "chat" (some chat_new) agent).1 ≡ false
unfolding start_pipeline restart halt build build_and_commit commit_start create_component
    stop_pipeline tick persist lookup erase
start_fails = rw (changed, start_pipeline) refl

start_failed_example :
    Halted broken "chat" agent (start_pipeline broken "chat" (some chat_new) agent).0
start_failed_example = start_failed broken "chat" (some chat_new) agent start_fails

start_works : (start_pipeline world "chat" (some chat_new) agent).1 ≡ true
unfolding start_pipeline restart halt build build_and_commit commit_start create_component
    stop_pipeline tick persist lookup erase
start_works = rw (changed, start_pipeline) refl

start_succeeded_example :
    Runs "chat" chat_new agent (start_pipeline world "chat" (some chat_new) agent).0
start_succeeded_example = start_succeeded world "chat" chat_new agent start_works

Distinct-new : Distinct new_config.pipelines
Distinct-new = (refl, tt)

Distinct-old : Distinct old_config.pipelines
Distinct-old = (refl, (refl, tt))

-- `chat` is stopped, `welcome` is started.
swap_works : (apply_config world new_config old_config agent).1 ≡ true
unfolding apply_config diff_and_swap_pipelines removed_ids stop_all swap_each swap_one
    start_pipeline unchanged restart halt build build_and_commit commit_start create_component
    stop_pipeline tick persist lookup erase
swap_works = refl

apply_config-Swapped_example :
    Swapped new_config old_config (apply_config world new_config old_config agent).0
apply_config-Swapped_example =
    apply_config-Swapped world new_config old_config agent Distinct-new swap_works

apply_config_orphans_example :
    let r' = (apply_config world new_config old_config agent).0 in
    (lookup "deployed" r'.pipelines ≡ lookup "deployed" agent.pipelines)
    × (lookup "deployed" r'.pipeline_configs ≡ none)
apply_config_orphans_example =
    apply_config_orphans world new_config old_config agent "deployed" swap_works refl refl

apply_agent_config-Ends_example :
    let (r', result) = apply_agent_config world "2.1" (some new_config) agent in
    Ends new_config agent r' result × ((r' ≡ agent) ⊎ Admitted "2.1" new_config agent)
apply_agent_config-Ends_example =
    apply_agent_config-Ends world "2.1" new_config agent Distinct-new Distinct-old

handle_command-Answers_example :
    Answers
      (stop_model_inference "c-1" "chat")
      agent
      (handle_command world (parsed (stop_model_inference "c-1" "chat")) agent)
handle_command-Answers_example =
    handle_command-Answers world (stop_model_inference "c-1" "chat") agent

abbrev twin : AgentRuntime
twin = record agent {
  pipeline_configs = ("chat", chat) ∷ ("twin", record chat { id = "twin" }) ∷ [];
}

chat_model : config_path world (lookup "chat" twin.pipeline_configs) ≡ some "models/a.gguf"
unfolding config_path truthy lookup
chat_model = refl

others : ◌≢◌ {A = String} "twin" "chat"
others e = ground (arith, (eq_iff "twin" "chat").1 e)

uninstall_keeps_example :
    elem "models/a.gguf" (uninstall world "c-2" "twin" true none none twin).artifacts
    ≡ elem "models/a.gguf" twin.artifacts
uninstall_keeps_example =
    uninstall_keeps world "c-2" "twin" true none none twin "chat" "models/a.gguf" others chat_model
      (λ p e same. same)

on_device : starts_with "loopback-1" "loopback-" ≡ true
on_device = refl

not_empty_url : ◌≢◌ {A = String} "https://control" ""
not_empty_url e = ground (arith, (eq_iff "https://control" "").1 e)

not_empty_key : ◌≢◌ {A = String} "key" ""
not_empty_key e = ground (arith, (eq_iff "key" "").1 e)

not_empty_id : ◌≢◌ {A = String} "dev" ""
not_empty_id e = ground (arith, (eq_iff "dev" "").1 e)

tells : Tells agent.agent_config
unfolding rstrip_slashes
tells = ("https://control", "key", refl, refl, not_empty_url, not_empty_key, not_empty_id, refl)

removal_not_lost_example :
    Accounted world "chat" agent
      (flush_times world 2 (report_uninstalled world "loopback-1" "chat" agent))
removal_not_lost_example = removal_not_lost world "loopback-1" "chat" 2 agent on_device tells
