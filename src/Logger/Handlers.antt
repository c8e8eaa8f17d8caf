-- ===== src/Logger/Handlers.antt =====
-- src/link/utils/logger.py: the handlers of the root logger and of `link.reporter`, as they are
-- set up and rebuilt.
pub mod Rebuilt
use Prim.Native.String.{◌++◌ as ◌<>◌}
use locai_link.Base.{
  ℕ, String, Bool, true, false, ◌&&◌, Option, none, some, List, [], ◌∷◌, ◌++◌, map, ◌==◌,
  if◌then◌else◌, is_some,
}
use locai_link.Dict.{Dict, lookup}
use locai_link.Json.{Json}
use locai_link.Config.{GenericConfig}
use locai_link.Health.Requests.{after_prefix}
use locai_link.Proxy.{Reader, truth}
use locai_link.Templating.{str_of}
use locai_link.Logger.{AsyncHandler, start, close}

-- How a handler sends: over Zenoh, or over HTTP with an Authorization header.
pub data Transport : Type 0 where
  zenoh : Transport
  http : Option String → Transport

pub data Handler : Type 0 where
  console : ℕ → Handler
  remote : Transport → ℕ → AsyncHandler → Handler

-- An attribute of the module `logging` in capitals: a level, or another constant, which `setLevel`
-- does not take.
pub data Attribute : Type 0 where
  level : ℕ → Attribute
  constant : Attribute

abbrev pub attributes : Dict Attribute
attributes =
    ("CRITICAL", level 50)
    ∷ ("FATAL", level 50)
    ∷ ("ERROR", level 40)
    ∷ ("WARN", level 30)
    ∷ ("WARNING", level 30)
    ∷ ("INFO", level 20)
    ∷ ("DEBUG", level 10)
    ∷ ("NOTSET", level 0)
    ∷ ("BASIC_FORMAT", constant)
    ∷ ("_STYLES", constant)
    ∷ []

-- `str.upper` and `str.lower`; `str` of a value that is no text; whether `float` takes a value;
-- whether Zenoh is installed and there is a session.
pub record Setup : Type 0 where
  pub upper : String → String
  pub lower : String → String
  pub str : Json → String
  pub takes_float : Json → Bool
  pub reader : Reader
  pub has_zenoh : Bool

-- What the set-up reads of a `LoggingConfig` or a `ReportingConfig`, which has no level.
pub record Section : Type 0 where
  pub level_name : Option String
  pub handlers : List GenericConfig

pub record LoggerState : Type 0 where
  pub handlers : List Handler
  pub level : ℕ

pub record Loggers : Type 0 where
  pub root : LoggerState
  pub reporter : LoggerState
  pub propagates : Bool

-- What comes of an entry of the configuration: an exception, nothing, or a handler.
pub data Built : Type 0 where
  raises skipped : Built
  added : Handler → Built

-- `getattr(logging, name, default)`
unfoldable pub attribute : String → ℕ → Attribute
attribute name default = elim (lookup name attributes) [ none ↦ level default | some a ↦ a ]

-- `setLevel` of a handler, and its addition.
unfoldable pub with_level : (ℕ → Handler) → Attribute → Built
with_level make (level n) = added (make n)
with_level make constant = raises

unfoldable pub add_built : Built → List Handler × Bool → List Handler × Bool
add_built raises rest = ([], true)
add_built skipped rest = rest
add_built (added h) (hs, failed) = (h ∷ hs, failed)

module _ (w : Setup) where
  -- {k: str(v) for k, v in args.items()}
  unfoldable pub templates_of : Dict Json → Dict String
  templates_of args = map (λ e. (e.0, str_of w.str e.1)) args

  unfoldable pub auth_header : Option Json → Option String
  auth_header none = none
  auth_header (some v) = if truth w.reader v then some ("Bearer " <> str_of w.str v) else none

  -- float(args.get("timeout", 10))
  unfoldable pub takes_timeout : Option Json → Bool
  takes_timeout none = true
  takes_timeout (some v) = w.takes_float v

  -- The level of a handler, which may have its own.
  unfoldable pub handler_level : ℕ → Option Json → Attribute
  unfolding attribute
  handler_level target none = level target
  handler_level target (some v) = attribute (w.upper (str_of w.str v)) target

  unfoldable pub build_as : String → Dict Json → Attribute → Built
  unfolding with_level templates_of auth_header takes_timeout
  build_as t args a =
      let async = start (templates_of args) in
      if t == "console"
      then with_level console a
      else if is_some (after_prefix "zenoh" t) && w.has_zenoh
      then with_level (λ n. remote zenoh n async) a
      else if t == "http"
      then if takes_timeout (lookup "timeout" args)
        then with_level (λ n. remote (http (auth_header (lookup "api_key" args))) n async) a
        else raises
      else skipped

  -- One turn of the loop of `_configure_logger`.
  unfoldable pub build_handler : ℕ → GenericConfig → Built
  unfolding build_as handler_level
  build_handler target c =
      build_as (w.lower c.type) c.args (handler_level target (lookup "level" c.args))

  -- The handlers that are added, and whether an exception ends the loop.
  unfoldable pub build_all : ℕ → List GenericConfig → List Handler × Bool
  unfolding build_handler add_built
  build_all target [] = ([], false)
  build_all target (c ∷ cs) = add_built (build_handler target c) (build_all target cs)

-- Without a handler the root logger gets the console; the reporter gets none.
abbrev pub console_config : GenericConfig
console_config = record { type = "console"; args = [] }

unfoldable pub or_console : Bool → List GenericConfig → List GenericConfig
or_console true [] = console_config ∷ []
or_console is_root cs = cs

unfoldable pub section_handlers : Option Section → List GenericConfig
section_handlers none = []
section_handlers (some c) = c.handlers

unfoldable pub section_level : Option Section → String
section_level none = "INFO"
section_level (some c) = elim c.level_name [ none ↦ "INFO" | some l ↦ l ]

-- The root logger is set up first; the reporter is left as it was if that raises.
unfoldable pub set_up_both : LoggerState × Bool → LoggerState × Bool → Loggers → Loggers × Bool
set_up_both (root, true) reporter s = (record s { root = root }, true)
set_up_both (root, false) (reporter, failed) s =
    (record { root = root; reporter = reporter; propagates = false }, failed)

module _ (w : Setup) where
  unfoldable pub configure_at :
      Bool → List GenericConfig → Attribute → LoggerState → LoggerState × Bool
  unfolding or_console
  configure_at is_root cs constant s = (record s { handlers = [] }, true)
  configure_at is_root cs (level n) s =
      let (hs, failed) = build_all w n (or_console is_root cs) in
      (record { handlers = hs; level = n }, failed)

  -- `_configure_logger`, and whether it raises; the handlers that were there are dropped.
  unfoldable pub configure_logger : Bool → Option Section → LoggerState → LoggerState × Bool
  unfolding configure_at section_handlers section_level
  configure_logger is_root c s =
      configure_at is_root (section_handlers c) (attribute (w.upper (section_level c)) 20) s

  -- `setup_logging`, and whether it raises.
  unfoldable pub setup_logging : Option Section → Option Section → Loggers → Loggers × Bool
  unfolding set_up_both
  setup_logging logging reporting s =
      set_up_both (configure_logger true logging s.root)
        (configure_logger false reporting s.reporter) s

unfoldable pub close_handler : Handler → Handler
close_handler (console n) = console n
close_handler (remote t n h) = remote t n (close h)

unfoldable pub without_handlers : LoggerState → LoggerState
without_handlers s = record s { handlers = [] }

-- What `rebuild_handlers` leaves: the loggers, the handlers that it closed and dropped, and whether
-- it raises.
pub record RebuildResult : Type 0 where
  pub loggers : Loggers
  pub closed_handlers : List Handler
  pub failed : Bool

unfoldable pub rebuild_handlers : Setup → Option Section → Option Section → Loggers → RebuildResult
unfolding without_handlers
rebuild_handlers w logging reporting s =
    let (loggers, failed) =
      setup_logging w logging reporting
        (record s { root = without_handlers s.root; reporter = without_handlers s.reporter }) in
    record {
      loggers = loggers;
      closed_handlers = map close_handler (s.root.handlers ++ s.reporter.handlers);
      failed = failed;
    }
