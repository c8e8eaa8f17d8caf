-- ===== src/Runtime/Ends.antt =====
-- src/link/app/reconfigure.py: what holds for each way in which `apply_agent_config` ends.
use mathlib.Core.Path.{subst, sym}
use mathlib.Core.Bool.{decide, decide_iff}
use locai_link.Base.{
  ◌⊎◌, length, String, Bool, true, false, Option, some, ◌≡◌, refl, ◌∙◌, inl, inr, arith, Bool-cases,
  eq_iff, ◌==◌,
}
use locai_link.Config.{AgentConfig, schema_version}
use locai_link.State.{StateManager, Session, Outcome, restore, update_full_config}
use locai_link.Runtime.{AgentRuntime, Env, persist}
use locai_link.Runtime.Frame.{persist-SameConfigs, pipelines-persist}
use locai_link.Runtime.Reconfigure.{
  TransportConfig-discrete, snapshot_state, removed_ids, apply_config, hot_swap, revert,
  apply_agent_config, ApplyResult, applied, reverted, scheduled_restart,
}
use locai_link.Runtime.Swapping.{Distinct, RunsActive}
use locai_link.Runtime.Applied.{AllGone, Swapped, apply_config-Swapped}

-- What each result promises of a runtime that was `r`, and is `r'` after `new` was to be applied.
abbrev pub Ends : AgentConfig → AgentRuntime → AgentRuntime → ApplyResult → Type 0
Ends new r r' (applied n) = Swapped new r.agent_config r'
Ends new r r' reverted = Swapped r.agent_config new r'
Ends new r r' scheduled_restart =
    (r'.config_restart_requested ≡ true) × (r'.running ≡ false) × (r'.shutdown_event ≡ true)
Ends new r r' _ = r' ≡ r

-- What passed the guards.
abbrev pub Admitted : String → AgentConfig → AgentRuntime → Type 0
Admitted version new r =
    (version ≡ schema_version)
    × (new.identity.device_id ≡ r.agent_config.identity.device_id)
    × (new.transport ≡ r.agent_config.transport)

module _ (env : Env) where
  persist-Swapped :
      (f : Outcome → StateManager → StateManager) (target previous : AgentConfig) (r : AgentRuntime)
      → Swapped target previous r
      → Swapped target previous (persist env f r)
  persist-Swapped f target previous r h =
      let same = persist-SameConfigs env f r in
      let pipes = pipelines-persist env f r in
      record {
        agent = same.agent ∙ h.agent;
        stored = λ j. ground (arith, same.configs, h.stored j);
        active = subst (RunsActive target.pipelines) (sym pipes) h.active;
        removed =
            subst (AllGone (removed_ids previous.pipelines target.pipelines)) (sym pipes) h.removed;
      }

  -- The end of a pair of runtime and result.
  abbrev EndsAt : AgentConfig → AgentRuntime → AgentRuntime × ApplyResult → Type 0
  EndsAt new r x = Ends new r x.0 x.1

  revert-Ends :
      (new : AgentConfig) (saved : Option Session) (r r1 : AgentRuntime)
      → Distinct r.agent_config.pipelines
      → EndsAt new r (revert env r.agent_config new saved r1)
  unfolding revert
  revert-Ends new saved r r1 d =
      let r2 = (apply_config env r.agent_config new r1).0 in
      elim (Bool-cases (apply_config env r.agent_config new r1).1) [
        | inl back ↦
            subst (EndsAt new r) {x = (persist env (λ o. restore o saved) r2, reverted)}
              (rw (back, revert))
              (persist-Swapped (λ o. restore o saved) r.agent_config new r2
                (apply_config-Swapped env r.agent_config new r1 d back))
        | inr bad ↦ rw (bad, revert) (refl, refl, refl)
      ]

  hot_swap-Ends :
      (new : AgentConfig) (r : AgentRuntime)
      → Distinct new.pipelines
      → Distinct r.agent_config.pipelines
      → EndsAt new r (hot_swap env new r)
  unfolding hot_swap
  hot_swap-Ends new r d old =
      let r1 = (apply_config env new r.agent_config r).0 in
      elim (Bool-cases (apply_config env new r.agent_config r).1) [
        | inl ok ↦
            subst (EndsAt new r)
              {x = (persist env (λ o. update_full_config o new) r1, applied (length new.pipelines))}
              (rw (ok, hot_swap))
              (persist-Swapped (λ o. update_full_config o new) new r.agent_config r1
                (apply_config-Swapped env new r.agent_config r d ok))
        | inr bad ↦
            subst (EndsAt new r) {x = revert env r.agent_config new (snapshot_state r) r1}
              (rw (bad, hot_swap)) (revert-Ends new (snapshot_state r) r r1 old)
      ]

  abbrev same_transport : AgentConfig → AgentRuntime → Bool
  same_transport new r = decide (TransportConfig-discrete new.transport r.agent_config.transport)

  -- Where neither the new configuration nor the agent's has two pipelines with one id, applying
  -- the new one ends in one of the refusals, which leave the runtime as it was;
  -- or it is applied, and then the runtime is swapped to it; or it is reverted, and then the
  -- runtime is swapped back to the configuration that it had; or a restart is requested, and
  -- the runtime stops.
  -- The runtime is as it was unless the schema version is the supported one and the device id
  -- and the transport are those that the agent has.
  pub apply_agent_config-Ends :
      (version : String) (new : AgentConfig) (r : AgentRuntime)
      → Distinct new.pipelines
      → Distinct r.agent_config.pipelines
      → let (r', result) = apply_agent_config env version (some new) r in
        Ends new r r' result × ((r' ≡ r) ⊎ Admitted version new r)
  unfolding apply_agent_config
  apply_agent_config-Ends version new r d old = elim (Bool-cases (version == schema_version)) [
    | inr e ↦ rw (e, apply_agent_config) (refl, inl refl)
    | inl v ↦ elim (Bool-cases (new.identity.device_id == r.agent_config.identity.device_id)) [
      | inr e ↦ rw (v, e, apply_agent_config) (refl, inl refl)
      | inl i ↦ elim (Bool-cases (same_transport new r)) [
        | inr e ↦ rw (v, i, e, apply_agent_config) (refl, inl refl)
        | inl t ↦
            rw (v, i, t, apply_agent_config)
              (
                hot_swap-Ends new r d old,
                inr (
                  (eq_iff version schema_version).0 v,
                  (eq_iff new.identity.device_id r.agent_config.identity.device_id).0 i,
                  (decide_iff (TransportConfig-discrete new.transport r.agent_config.transport)).0
                      t,
                ),
              )
      ]
    ]
  ]
