-- ===== src/SwapManager.antt =====
-- plugins/language_model/swap_manager.py: the state of a `SwapManager`, its telemetry sinks and the
-- configuration that it writes for llama-swap. The child modules hold its processes and what is
-- proved.
pub mod Processes
pub mod Models
pub mod Kept
pub mod Spared
pub mod Synced
pub mod Serving
use Prim.Native.String.{◌++◌ as ◌+++◌}
use locai_link.Base.{
  ℕ, zero, suc, ◌+◌, String, Bool, true, false, not, Option, none, some, List, [], ◌∷◌, ◌++◌, map,
  eqb, if◌then◌else◌, ◌==◌,
}
use locai_link.Dict.{Dict}

-- An integer: `pos n` is n, `negsuc n` is -(n + 1).
pub data ℤ : Type 0 where
  pos : ℕ → ℤ
  negsuc : ℕ → ℤ

-- The argument `ttl`: None, an integer, or what is no integer for the check (a bool, a float, …).
pub data Ttl : Type 0 where
  unset : Ttl
  integer : ℤ → Ttl
  no_integer : Ttl

-- An entry of `_models`.
pub record Model : Type 0 where
  pub path : String
  pub args : List String
  pub env : Dict String
  pub ttl : ℤ

-- An entry of the configuration file; the words of its command are joined by the library.
pub record Entry : Type 0 where
  pub cmd : List String
  pub internal_port : ℕ
  pub ttl : ℤ
  pub env : List String

-- The configuration file, but for its two constants.
abbrev pub SwapConfig : Type 0
SwapConfig = Dict Entry

-- How the write of that file ends: it is written, or an exception leaves it so.
pub data ConfigWrite : Type 0 where
  config_written : ConfigWrite
  config_failed : Option SwapConfig → ConfigWrite

-- The manager and what it keeps on disk: `proc` is the process that it started last, and `proxy`
-- tells, once it has a serving proxy, whether that has a server. `registered` tells whether
-- `_instances` has the manager under its host and port.
pub record SwapManager : Type 0 where
  pub port : ℕ
  pub allowed_origins : List String
  pub models : Dict Model
  pub proc : Option ℕ
  pub proxy : Option Bool
  pub callbacks : List ℕ
  pub registered : Bool
  pub config : Option SwapConfig
  pub pidfile : Option ℕ

abbrev pub listen_port : SwapManager → ℕ
listen_port m = m.port + 50

abbrev pub model_ttl : ℤ
model_ttl = pos 300

unfoldable pub nonempty : List String → List String
nonempty [] = []
nonempty (o ∷ os) = let rest = nonempty os in if o == "" then rest else o ∷ rest

-- `__init__`; the files are as an earlier run left them.
unfoldable pub new_manager : ℕ → List String → Option SwapConfig → Option ℕ → SwapManager
unfolding nonempty
new_manager port allowed_origins config pidfile = record {
  port = port;
  allowed_origins = nonempty allowed_origins;
  models = [];
  proc = none;
  proxy = none;
  callbacks = [];
  registered = false;
  config = config;
  pidfile = pidfile;
}

-- `cb in callbacks`
abbrev pub has_callback : ℕ → List ℕ → Bool
has_callback cb [] = false
has_callback cb (c ∷ cs) = if eqb c cb then true else has_callback cb cs

unfoldable pub add_telemetry_callback : ℕ → SwapManager → SwapManager
add_telemetry_callback cb m =
    if has_callback cb m.callbacks then m else record m { callbacks = m.callbacks ++ cb ∷ [] }

-- `callbacks.remove(cb)`, which takes the first one out
unfoldable pub remove_first : ℕ → List ℕ → List ℕ
remove_first cb [] = []
remove_first cb (c ∷ cs) = if eqb c cb then cs else c ∷ remove_first cb cs

unfoldable pub remove_telemetry_callback : ℕ → SwapManager → SwapManager
remove_telemetry_callback cb m = record m { callbacks = remove_first cb m.callbacks }

-- `get_swap_manager`: the registered manager of the host and port, if there is one, or a new one.
unfoldable pub get_swap_manager : ℕ → List String → Option ℕ → SwapManager → SwapManager
get_swap_manager port allowed_origins on_telemetry m =
    let sm =
      if m.registered
      then m
      else record (new_manager port allowed_origins m.config m.pidfile) { registered = true } in
    elim on_telemetry [ none ↦ sm | some cb ↦ add_telemetry_callback cb sm ]

unfoldable pub env_words : Dict String → List String
env_words [] = []
env_words ((k, v) ∷ es) = (k +++ ("=" +++ v)) ∷ env_words es

-- `show` writes a number, `server_bin` is the path of llama-server.
module _ (show : ℕ → String) (server_bin : String) where
  unfoldable pub entry : ℕ → Model → Entry
  unfolding env_words
  entry internal_port m = record {
    cmd = (server_bin ∷ "--model" ∷ m.path ∷ "--port" ∷ show internal_port ∷ []) ++ m.args;
    internal_port = internal_port;
    ttl = m.ttl;
    env = env_words m.env;
  }

  -- The loop of `_write_config`, from a port on.
  unfoldable pub entries : ℕ → Dict Model → SwapConfig
  entries internal_port [] = []
  entries internal_port ((model_id, m) ∷ ms) =
      (model_id, entry internal_port m) ∷ entries (suc internal_port) ms

  unfoldable pub swap_config : SwapManager → SwapConfig
  swap_config m = entries (listen_port m + 100) m.models

  -- `_write_config`, and whether it returns.
  unfoldable pub write_config : ConfigWrite → SwapManager → SwapManager × Bool
  write_config config_written m = (record m { config = some (swap_config m) }, true)
  write_config (config_failed left) m = (record m { config = left }, false)
