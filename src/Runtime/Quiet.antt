-- ===== src/Runtime/Quiet.antt =====
-- What tells the status logger nothing, and leaves the deploy workers alone: starting, stopping,
-- persisting and reconfiguring.
use locai_link.Base.{
  String, Bool, true, false, Option, none, some, List, [], ◌∷◌, ◌≡◌, inl, inr, arith,
}
use locai_link.Config.{PipelineConfig, AgentConfig}
use locai_link.State.{StateManager, Session, Outcome, restore, update_full_config}
use locai_link.Runtime.{AgentRuntime, Env, persist}
use locai_link.Runtime.Frame.{
  SameRest, SameRest-refl, persist-SameConfigs, stop_pipeline-SameConfigs,
}
use locai_link.Runtime.Pipelines.{start_pipeline, stop_pipeline}
use locai_link.Runtime.Starting.{Restarted, restart-Restarted, start_pipeline_cases}
use locai_link.Runtime.Pipelines.{restart}
use locai_link.Runtime.Reconfigure.{
  snapshot_state, removed_ids, stop_all, swap_one, swap_each, diff_and_swap_pipelines, apply_config,
  revert, hot_swap, apply_agent_config,
}
use locai_link.Runtime.Handle.{change_stored}

pub record Quiet (r r' : AgentRuntime) : Type 0 where
  pub told : r'.reports ≡ r.reports
  pub workers : r'.agent_workers ≡ r.agent_workers

pub change_stored-Quiet :
    (pid : String) (c : PipelineConfig) (f : PipelineConfig → PipelineConfig) (r : AgentRuntime)
    → Quiet r (change_stored pid c f r)
unfolding change_stored
change_stored-Quiet pid c f r = ground arith

module _ (env : Env) where
  pub reports-restart :
      (pid : String) (pending : Option PipelineConfig) (c : PipelineConfig) (r : AgentRuntime)
      (x : AgentRuntime × Bool)
      → Restarted env pid pending c r x
      → SameRest r x.0
  reports-restart pid pending c r (r', true) h = h.0
  reports-restart pid pending c r (r', false) h = h.0.rest

  pub start_pipeline-SameRest :
      (pid : String) (pending : Option PipelineConfig) (r : AgentRuntime)
      → SameRest r (start_pipeline env pid pending r).0
  start_pipeline-SameRest pid pending r = elim (start_pipeline_cases env pid pending r) [
    | inl (new, e, same, q) ↦ rw q (SameRest-refl r)
    | inr (inl q) ↦ rw q (SameRest-refl r)
    | inr (inr (c, chosen, q)) ↦ rw q (
        reports-restart pid pending c r (restart env pid pending c r)
          (restart-Restarted env pid pending c r))
  ]

  pub stop_pipeline-SameRest :
      (pid : String) (r : AgentRuntime) → SameRest r (stop_pipeline env pid r).0
  stop_pipeline-SameRest pid r = (stop_pipeline-SameConfigs env pid r).rest

  pub swap_one-SameRest : (p : PipelineConfig) (r : AgentRuntime) → SameRest r (swap_one env p r).0
  unfolding swap_one
  swap_one-SameRest p r =
      ground (arith, start_pipeline-SameRest p.id (some p) r, stop_pipeline-SameRest p.id r)

  pub swap_each-SameRest :
      (ps : List PipelineConfig) (r : AgentRuntime) → SameRest r (swap_each env ps r).0
  unfolding swap_each
  swap_each-SameRest [] r = SameRest-refl r
  swap_each-SameRest (p ∷ ps) r =
      ground (arith, swap_one-SameRest p r, swap_each-SameRest ps (swap_one env p r).0)

  pub stop_all-SameRest :
      (pids : List String) (r : AgentRuntime) → SameRest r (stop_all env pids r).0
  unfolding stop_all
  stop_all-SameRest [] r = SameRest-refl r
  stop_all-SameRest (pid ∷ pids) r =
      ground
        (arith, stop_pipeline-SameRest pid r, stop_all-SameRest pids (stop_pipeline env pid r).0)

  pub apply_config-Quiet :
      (target previous : AgentConfig) (r : AgentRuntime)
      → Quiet r (apply_config env target previous r).0
  unfolding apply_config diff_and_swap_pipelines
  apply_config-Quiet target previous r =
      let gone = removed_ids previous.pipelines target.pipelines in
      ground (
        arith,
        stop_all-SameRest gone r,
        swap_each-SameRest target.pipelines (stop_all env gone r).0,
      )

  pub persist-Quiet :
      (f : Outcome → StateManager → StateManager) (r : AgentRuntime) → Quiet r (persist env f r)
  persist-Quiet f r = ground (arith, (persist-SameConfigs env f r).rest)

  pub revert-Quiet :
      (old new : AgentConfig) (saved : Option Session) (r : AgentRuntime)
      → Quiet r (revert env old new saved r).0
  unfolding revert
  revert-Quiet old new saved r =
      let r' = (apply_config env old new r).0 in
      ground (
        arith,
        apply_config-Quiet old new r,
        persist-Quiet (λ o. restore o saved) r',
        persist-Quiet (λ o. update_full_config o new) r',
      )

  pub hot_swap-Quiet : (new : AgentConfig) (r : AgentRuntime) → Quiet r (hot_swap env new r).0
  unfolding hot_swap
  hot_swap-Quiet new r =
      let r' = (apply_config env new r.agent_config r).0 in
      ground (
        arith,
        apply_config-Quiet new r.agent_config r,
        persist-Quiet (λ o. update_full_config o new) r',
        revert-Quiet r.agent_config new (snapshot_state r) r',
      )

  pub apply_agent_config-Quiet :
      (version : String) (resolved : Option AgentConfig) (r : AgentRuntime)
      → Quiet r (apply_agent_config env version resolved r).0
  unfolding apply_agent_config
  apply_agent_config-Quiet version none r = ground arith
  apply_agent_config-Quiet version (some new) r = ground (arith, hot_swap-Quiet new r)
