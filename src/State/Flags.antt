-- ===== src/State/Flags.antt =====
-- What the operations on a loaded session do to the pipeline that an id names, whether or not
-- the write to disk succeeds.
use locai_link.Base.{String, Bool, Option, none, some, ◌≡◌, ◌==◌, if◌then◌else◌, arith}
use locai_link.Config.{PipelineConfig, AgentConfig}
use locai_link.State.{
  StateManager, Session, Outcome, flush, ensure_loaded, load_state, update_full_config,
  update_pipeline_config, set_pipeline_status, remove_pipeline, find, find_last, model_dump,
}
use locai_link.State.Pipelines.{
  flag, activate, map_found, take_flag, find-set_active, find-replace_or_append, find-drop_id,
  find-keep_active,
}

-- The pipeline that `j` names in the cached session.
unfoldable pub cached_pipeline : String → StateManager → Option PipelineConfig
cached_pipeline j m = elim m.cache [ none ↦ none | some s ↦ find j s.pipelines ]

module _ (o : Outcome) (m : StateManager) {s : Session} (loaded : m.cache ≡ some s) where
  -- A hot swap of the whole configuration leaves a loaded session with the new pipelines, each
  -- with the active flag that the last old pipeline of its id had, or its own if there was none.
  pub update_full_config_flags :
      (c : AgentConfig) (j : String)
      → cached_pipeline j (update_full_config o c m)
        ≡ map_found (take_flag (find_last j s.pipelines)) (find j c.pipelines)
  unfolding cached_pipeline update_full_config flush ensure_loaded load_state model_dump
  update_full_config_flags c j = ground (arith, loaded, find-keep_active j s.pipelines c.pipelines)

  -- Of a loaded session, storing a pipeline replaces the one of its id and keeps that one's
  -- active flag (a new one is inactive), setting a status changes only the flag of the pipeline
  -- named, and removing an id leaves none of that id; pipelines of other ids stay as they were.
  pub session_operations :
      (p : PipelineConfig) (pid j : String) (a : Bool)
      → let old = find j s.pipelines in
        (cached_pipeline j (update_pipeline_config o p m)
          ≡ (if p.id == j then some (activate (flag old) p) else old))
        × (cached_pipeline j (set_pipeline_status o pid a m)
            ≡ (if pid == j then map_found (activate a) old else old))
        × (cached_pipeline j (remove_pipeline o pid m) ≡ (if pid == j then none else old))
  unfolding cached_pipeline update_pipeline_config set_pipeline_status remove_pipeline flush
      ensure_loaded load_state
  session_operations p pid j a = (
    ground (arith, loaded, find-replace_or_append j p s.pipelines),
    ground (arith, loaded, find-set_active pid j a s.pipelines),
    ground (arith, loaded, find-drop_id pid j s.pipelines),
  )
