-- ===== src/State.antt =====
-- src/link/app/state.py: the session file that holds the agent's configuration and which
-- pipelines are active. Files are those that this class writes: each pipeline has its `id` and
-- its `active` flag.
pub mod Pipelines
pub mod Recovery
pub mod Flags
use Prim.Native.String.{compare}
use Prim.Native.Nat.{Ordering}
use locai_link.Base.{
  String, Bool, true, false, not, Option, none, some, List, [], ◌∷◌, ◌++◌, map, ◌==◌, if◌then◌else◌,
}
use locai_link.Json.{Json, null}
use locai_link.Config.{GenericConfig, PipelineConfig, IdentityConfig, AgentConfig, schema_version}
use locai_link.Dict.{Dict, lookup, insert, keys}

-- The cached dict. A section that it lacks is `none` or null.
pub record Session : Type 0 where
  pub version : Option String
  pub identity : Option IdentityConfig
  pub transport : Option GenericConfig
  pub logging : Json
  pub reporting : Json
  pub pipelines : List PipelineConfig

-- The content of a session file; a file may hold no JSON.
pub data Content : Type 0 where
  valid : Session → Content
  corrupt : Content

-- How a write ends: `os.open` may fail, and the write may fail after the file was truncated.
pub data Outcome : Type 0 where
  written not_opened truncated : Outcome

-- `files` is the folder STATE_DIR; a path is the file's name in it.
pub record StateManager : Type 0 where
  pub cache : Option Session
  pub current_session_path : Option String
  pub files : Dict Content

unfoldable pub model_dump : AgentConfig → Session
model_dump c = record {
  version = some c.version;
  identity = some c.identity;
  transport = c.transport;
  logging = c.logging;
  reporting = c.reporting;
  pipelines = c.pipelines;
}

abbrev pub bare_session : Session
bare_session = record {
  version = none;
  identity = none;
  transport = none;
  logging = null;
  reporting = null;
  pipelines = [];
}

write_file : Outcome → String → Session → Dict Content → Dict Content
write_file written path data_ files = insert path (valid data_) files
write_file not_opened path data_ files = files
write_file truncated path data_ files = insert path corrupt files

-- `_flush`; a failed write is only logged.
unfoldable pub flush : Outcome → StateManager → StateManager
unfolding write_file
flush o m = elim m.cache [
  | none ↦ m
  | some data_ ↦ elim m.current_session_path [
    | none ↦ m
    | some path ↦ record m { files = write_file o path data_ m.files }
  ]
]

text_lt : String → String → Bool
text_lt a b = elim (compare a b) [ Ordering.lt ↦ true | _ ↦ false ]

-- `sorted(files)[-1]`
last_sorted : List String → Option String
last_sorted [] = none
last_sorted (x ∷ xs) = elim (last_sorted xs) [
  | none ↦ some x
  | some y ↦ some (if text_lt x y then y else x)
]

unfoldable pub get_latest_session_file : StateManager → Option String
unfolding last_sorted text_lt
get_latest_session_file m = last_sorted (keys m.files)

-- The file to read: the explicit one if it exists, else the latest.
target_path : Option String → StateManager → Option String
target_path none m = get_latest_session_file m
target_path (some path) m = elim (lookup path m.files) [ none ↦ none | some c ↦ some path ]

has_schema : Option String → Bool
has_schema none = false
has_schema (some v) = v == schema_version

read_file : String → Option Content → StateManager → StateManager × Option Session
unfolding has_schema
read_file path (some (valid data_)) m =
    if has_schema data_.version
    then (record m { cache = some data_; current_session_path = some path }, some data_)
    else (m, none)
read_file path (some corrupt) m = (m, none)
read_file path none m = (m, none)

unfoldable pub load_state : Option String → StateManager → StateManager × Option Session
unfolding target_path read_file
load_state explicit_path m = elim m.cache [
  | some data_ ↦ (m, some data_)
  | none ↦ elim (target_path explicit_path m) [
    | none ↦ (m, none)
    | some path ↦ read_file path (lookup path m.files) m
  ]
]

-- `timestamp` is what the clock gives.
unfoldable pub bootstrap : Outcome → String → AgentConfig → StateManager → StateManager
bootstrap o filename config m =
    flush o (record m { current_session_path = some filename; cache = some (model_dump config) })

ensure_bare : Option Session → Session
ensure_bare none = bare_session
ensure_bare (some s) = s

-- `_ensure_loaded`, with the cache that it leaves.
unfoldable pub ensure_loaded : StateManager → StateManager × Session
unfolding ensure_bare
ensure_loaded m =
    let (m', loaded) = load_state none m in
    let s = ensure_bare loaded in (record m' { cache = some s }, s)

-- The pipeline that a loop over the list finds first.
unfoldable pub find : String → List PipelineConfig → Option PipelineConfig
find pid [] = none
find pid (p ∷ ps) = if p.id == pid then some p else find pid ps

with_active : Bool → PipelineConfig → PipelineConfig
with_active a p = record p { active = a }

-- The loop of `set_pipeline_status`.
unfoldable pub set_active : String → Bool → List PipelineConfig → List PipelineConfig
unfolding with_active
set_active pid a [] = []
set_active pid a (p ∷ ps) = if p.id == pid then with_active a p ∷ ps else p ∷ set_active pid a ps

-- The loop of `update_pipeline_config`.
unfoldable pub replace_or_append : PipelineConfig → List PipelineConfig → List PipelineConfig
unfolding with_active
replace_or_append new [] = with_active false new ∷ []
replace_or_append new (p ∷ ps) =
    if p.id == new.id then with_active p.active new ∷ ps else p ∷ replace_or_append new ps

unfoldable pub drop_id : String → List PipelineConfig → List PipelineConfig
drop_id pid [] = []
drop_id pid (p ∷ ps) = let rest = drop_id pid ps in if p.id == pid then rest else p ∷ rest

-- A dict comprehension keeps the last entry of a repeated key.
unfoldable pub find_last : String → List PipelineConfig → Option PipelineConfig
find_last pid [] = none
find_last pid (p ∷ ps) = elim (find_last pid ps) [
  | some q ↦ some q
  | none ↦ if p.id == pid then some p else none
]

keep_flag : Option PipelineConfig → PipelineConfig → PipelineConfig
unfolding with_active
keep_flag none p = p
keep_flag (some old) p = with_active old.active p

unfoldable pub keep_active : List PipelineConfig → List PipelineConfig → List PipelineConfig
unfolding keep_flag find_last
keep_active old [] = []
keep_active old (p ∷ ps) = keep_flag (find_last p.id old) p ∷ keep_active old ps

store_pipelines :
    Outcome → (List PipelineConfig → List PipelineConfig) → StateManager → StateManager
store_pipelines o f m =
    let (m', s) = ensure_loaded m in
    flush o (record m' { cache = some (record s { pipelines = f s.pipelines }) })

unfoldable pub update_full_config : Outcome → AgentConfig → StateManager → StateManager
update_full_config o config m =
    let (m', s) = ensure_loaded m in
    let new = model_dump config in
    flush o (record m' {
      cache = some (record new { pipelines = keep_active s.pipelines new.pipelines });
    })

unfoldable pub snapshot : StateManager → Option Session
snapshot m = m.cache

unfoldable pub restore : Outcome → Option Session → StateManager → StateManager
restore o none m = m
restore o (some s) m = flush o (record m { cache = some s })

unfoldable pub update_pipeline_config : Outcome → PipelineConfig → StateManager → StateManager
unfolding store_pipelines
update_pipeline_config o p = store_pipelines o (replace_or_append p)

unfoldable pub set_pipeline_status : Outcome → String → Bool → StateManager → StateManager
unfolding store_pipelines
set_pipeline_status o pid active = store_pipelines o (set_active pid active)

unfoldable pub remove_pipeline : Outcome → String → StateManager → StateManager
unfolding store_pipelines
remove_pipeline o pid = store_pipelines o (drop_id pid)
