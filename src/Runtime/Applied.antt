-- ===== src/Runtime/Applied.antt =====
-- `apply_config` and `apply_agent_config`: what holds after a hot swap, by how it ends.
use mathlib.Core.Path.{subst, sym}
use locai_link.Base.{
  String, Bool, true, false, none, List, [], ◌∷◌, ◌≡◌, refl, ◌∙◌, ap, arith, eq_refl, elem, All,
}
use locai_link.Config.{PipelineConfig, AgentConfig}
use locai_link.Dict.{Dict, lookup}
use locai_link.State.{find_last}
use locai_link.Runtime.{AgentRuntime, Env, Pipeline}
use locai_link.Runtime.Reconfigure.{
  configs_from, ids, removed_ids, stop_all, swap_each, diff_and_swap_pipelines, apply_config,
}
use locai_link.Runtime.Swapping.{
  Distinct, RunsActive, swap_each-RunsActive, swap_each-other, stop_all-gone, stop_all-other,
  removed_ids_iff, lookup-configs_from,
}

-- None of the pipelines named runs.
abbrev pub AllGone : List String → Dict Pipeline → Type 0
AllGone js pipes = All (λ j. lookup j pipes ≡ none) js

gone_each :
    (js : List String) (pipes : Dict Pipeline)
    → ((j : String) → elem j js ≡ true → lookup j pipes ≡ none)
    → AllGone js pipes
gone_each [] pipes h = tt
gone_each (j ∷ js) pipes h =
    (h j (ground (arith, eq_refl j)), gone_each js pipes (λ i m. h i (ground (arith, m))))

-- The runtime after a hot swap from `previous` to `target`.
pub record Swapped (target previous : AgentConfig) (r : AgentRuntime) : Type 0 where
  pub agent : r.agent_config ≡ target
  pub stored : (j : String) → lookup j r.pipeline_configs ≡ find_last j target.pipelines
  pub active : RunsActive target.pipelines r.pipelines
  pub removed : AllGone (removed_ids previous.pipelines target.pipelines) r.pipelines

module _ (env : Env) where
  diff_and_swap_parts :
      (old new : AgentConfig) (r : AgentRuntime)
      → (diff_and_swap_pipelines env old new r).1 ≡ true
      → let first = stop_all env (removed_ids old.pipelines new.pipelines) r in
        (first.1 ≡ true)
        × (diff_and_swap_pipelines env old new r ≡ swap_each env new.pipelines first.0)
  unfolding diff_and_swap_pipelines
  diff_and_swap_parts old new r h = ground (arith, h)

  apply_config_parts :
      (target previous : AgentConfig) (r : AgentRuntime)
      → (apply_config env target previous r).1 ≡ true
      → let (r', ok) = apply_config env target previous r in
        let (s, swapped) = diff_and_swap_pipelines env previous target r in
        (swapped ≡ true)
        × (r'.pipelines ≡ s.pipelines)
        × (r'.agent_config ≡ target)
        × (r'.pipeline_configs ≡ configs_from [] target.pipelines)
  unfolding apply_config
  apply_config_parts target previous r h = ground (arith, h)

  -- After a hot swap that succeeds, to a configuration in which no two pipelines have one id,
  -- that configuration is the agent's, the stored pipeline configurations are those that it
  -- lists, each pipeline that it lists runs exactly if it is active, and no pipeline of the
  -- previous configuration that it leaves out runs.
  pub apply_config-Swapped :
      (target previous : AgentConfig) (r : AgentRuntime)
      → Distinct target.pipelines
      → (apply_config env target previous r).1 ≡ true
      → Swapped target previous (apply_config env target previous r).0
  unfolding lookup
  apply_config-Swapped target previous r d h =
      let (swapped, pipes, agent, configs) = apply_config_parts target previous r h in
      let (stopped, step) = diff_and_swap_parts previous target r swapped in
      let first = (stop_all env (removed_ids previous.pipelines target.pipelines) r).0 in
      record {
        agent = agent;
        stored = λ j. ground (arith, configs, lookup-configs_from j [] target.pipelines);
        active =
            subst (RunsActive target.pipelines)
              (sym (pipes ∙ ap (λ (x : AgentRuntime × Bool). x.0.pipelines) step))
              (swap_each-RunsActive env target.pipelines first d (ground (arith, step, swapped)));
        removed =
            gone_each (removed_ids previous.pipelines target.pipelines)
              (apply_config env target previous r).0.pipelines
              (λ j m. ground (
                arith,
                pipes,
                step,
                swap_each-other env j target.pipelines first,
                stop_all-gone env j (removed_ids previous.pipelines target.pipelines) r stopped,
                removed_ids_iff j previous.pipelines target.pipelines,
                m,
              ));
      }

  find_last-none :
      (j : String) (ps : List PipelineConfig) → elem j (ids ps) ≡ false → find_last j ps ≡ none
  unfolding find_last
  find_last-none j [] h = refl
  find_last-none j (p ∷ ps) h = ground (arith, h, find_last-none j ps)

  -- A pipeline that neither the previous nor the new configuration lists, such as one that was
  -- deployed or started by a command, runs on after a hot swap that succeeds exactly if it ran
  -- before, and its stored configuration is gone.
  pub apply_config_orphans :
      (target previous : AgentConfig) (r : AgentRuntime) (j : String)
      → (apply_config env target previous r).1 ≡ true
      → elem j (ids previous.pipelines) ≡ false
      → elem j (ids target.pipelines) ≡ false
      → let r' = (apply_config env target previous r).0 in
        (lookup j r'.pipelines ≡ lookup j r.pipelines) × (lookup j r'.pipeline_configs ≡ none)
  unfolding lookup
  apply_config_orphans target previous r j h old new =
      let (swapped, pipes, agent, configs) = apply_config_parts target previous r h in
      let (stopped, step) = diff_and_swap_parts previous target r swapped in
      let removed = removed_ids previous.pipelines target.pipelines in
      (
        ground (
          arith,
          pipes,
          step,
          swap_each-other env j target.pipelines (stop_all env removed r).0 new,
          stop_all-other env j removed r,
          removed_ids_iff j previous.pipelines target.pipelines,
          old,
        ),
        ground (
          arith,
          configs,
          lookup-configs_from j [] target.pipelines,
          find_last-none j target.pipelines new,
        ),
      )
