-- ===== src/State/Recovery.antt =====
-- Crash recovery: what a restarted agent reads from the session file.
use locai_link.Base.{String, Bool, none, some, List, [], ◌∷◌, ◌≡◌, refl, arith, eq_refl, ap}
use locai_link.Config.{PipelineConfig, AgentConfig, schema_version}
use locai_link.Dict.{lookup}
use locai_link.Dict.Laws.{lookup-insert_self}
use locai_link.State.{
  StateManager, Session, written, valid, model_dump, flush, load_state, bootstrap, ensure_loaded,
  update_full_config, snapshot, restore, update_pipeline_config, set_pipeline_status,
  remove_pipeline, store_pipelines, keep_active, replace_or_append, set_active, drop_id,
}

-- The operations that change the session of a running agent.
pub data Change : Type 0 where
  full_config : AgentConfig → Change
  pipeline_config : PipelineConfig → Change
  pipeline_status : String → Bool → Change
  pipeline_removed : String → Change
  rolled_back : Session → Change

unfoldable pub apply : Change → StateManager → StateManager
apply (full_config c) m = update_full_config written c m
apply (pipeline_config p) m = update_pipeline_config written p m
apply (pipeline_status pid a) m = set_pipeline_status written pid a m
apply (pipeline_removed pid) m = remove_pipeline written pid m
apply (rolled_back s) m = restore written (some s) m

unfoldable pub apply_all : List Change → StateManager → StateManager
apply_all [] m = m
apply_all (c ∷ cs) m = apply_all cs (apply c m)

-- A configuration of another schema version is refused before it gets here.
abbrev pub IsCurrent : Change → Type 0
IsCurrent (full_config c) = c.version ≡ schema_version
IsCurrent (rolled_back s) = s.version ≡ some schema_version
IsCurrent _ = Unit

abbrev pub AllCurrent : List Change → Type 0
AllCurrent [] = Unit
AllCurrent (c ∷ cs) = IsCurrent c × AllCurrent cs

-- A new process: nothing is cached, and the files are as they were left.
abbrev pub restarted : StateManager → StateManager
restarted m = record { cache = none; current_session_path = none; files = m.files }

-- The file at `path` holds the cached session, which has the current schema version.
pub record IsDurable (path : String) (m : StateManager) (s : Session) : Type 0 where
  pub cached : m.cache ≡ some s
  pub at_path : m.current_session_path ≡ some path
  pub on_disk : lookup path m.files ≡ some (valid s)
  pub version : s.version ≡ some schema_version

abbrev pub Durable : String → StateManager → Type 0
Durable path m = (s : Session) × IsDurable path m s

flush-Durable :
    (path : String) (m : StateManager) (s : Session)
    → s.version ≡ some schema_version
    → m.current_session_path ≡ some path
    → Durable path (flush written (record m { cache = some s }))
unfolding flush
flush-Durable path m s v e = (
  s,
  record {
    cached = ground arith;
    at_path = ground (arith, e);
    on_disk = rw e (lookup-insert_self path (valid s) m.files);
    version = v;
  },
)

ensure_loaded_cached :
    (m : StateManager) (s : Session)
    → m.cache ≡ some s
    → ((ensure_loaded m).1 ≡ s)
      × ((ensure_loaded m).0.current_session_path ≡ m.current_session_path)
unfolding ensure_loaded load_state
ensure_loaded_cached m s e = ground (arith, e)

store_pipelines-Durable :
    (path : String) (f : List PipelineConfig → List PipelineConfig) (m : StateManager)
    → Durable path m
    → Durable path (store_pipelines written f m)
unfolding store_pipelines
store_pipelines-Durable path f m (s, d) =
    let loaded = ensure_loaded_cached m s d.cached in
    flush-Durable path (ensure_loaded m).0
      (record (ensure_loaded m).1 { pipelines = f (ensure_loaded m).1.pipelines })
      (ground (arith, loaded.0, d.version)) (ground (arith, loaded.1, d.at_path))

apply-Durable :
    (path : String) (c : Change) (m : StateManager)
    → IsCurrent c
    → Durable path m
    → Durable path (apply c m)
unfolding apply update_full_config update_pipeline_config set_pipeline_status remove_pipeline
    restore model_dump
apply-Durable path (full_config c) m v (s, d) =
    let loaded = ensure_loaded_cached m s d.cached in
    flush-Durable path (ensure_loaded m).0
      (record (model_dump c) { pipelines = keep_active (ensure_loaded m).1.pipelines c.pipelines })
      (ap some v) (ground (arith, loaded.1, d.at_path))
apply-Durable path (pipeline_config p) m v d =
    store_pipelines-Durable path (replace_or_append p) m d
apply-Durable path (pipeline_status pid a) m v d =
    store_pipelines-Durable path (set_active pid a) m d
apply-Durable path (pipeline_removed pid) m v d = store_pipelines-Durable path (drop_id pid) m d
apply-Durable path (rolled_back s') m v (s, d) = flush-Durable path m s' v d.at_path

apply_all-Durable :
    (path : String) (cs : List Change) (m : StateManager)
    → AllCurrent cs
    → Durable path m
    → Durable path (apply_all cs m)
unfolding apply_all
apply_all-Durable path [] m v d = d
apply_all-Durable path (c ∷ cs) m v d =
    apply_all-Durable path cs (apply c m) v.1 (apply-Durable path c m v.0 d)

load_state-Durable :
    (path : String) (m : StateManager)
    → Durable path m
    → (load_state (some path) (restarted m)).1 ≡ m.cache
unfolding load_state
load_state-Durable path m (s, d) =
    ground (arith, d.on_disk, d.version, d.cached, eq_refl schema_version)

-- After a session was started with a configuration of the current schema version, and any
-- changes of the same version whose writes all succeeded, a restarted agent that loads the
-- session file gets exactly the session that was cached.
pub recovery :
    (m : StateManager) (path : String) (c : AgentConfig) (cs : List Change)
    → c.version ≡ schema_version
    → AllCurrent cs
    → let last = apply_all cs (bootstrap written path c m) in
      (load_state (some path) (restarted last)).1 ≡ last.cache
unfolding bootstrap model_dump
recovery m path c cs v vs = load_state-Durable path (apply_all cs (bootstrap written path c m)) (
    apply_all-Durable path cs (bootstrap written path c m) vs (
      flush-Durable path (record m { current_session_path = some path }) (model_dump c) (ap some v)
        refl))

-- Rolling back, after any changes, to the snapshot of a loaded session brings back the cache
-- that was there, and on disk too, if the write succeeds.
pub restore-snapshot :
    (m : StateManager) (path : String) (cs : List Change) {s : Session}
    → IsDurable path m s
    → AllCurrent cs
    → let back = restore written (snapshot m) (apply_all cs m) in
      (back.cache ≡ m.cache) × (lookup path back.files ≡ some (valid s))
unfolding restore snapshot flush
restore-snapshot m path cs {s} d vs =
    let (last, kept) = apply_all-Durable path cs m vs (s, d) in
    ground (arith, d.cached, kept.at_path, lookup-insert_self path (valid s) (apply_all cs m).files)
