-- ===== src/Tests/Logs.antt =====
-- The theorems on logging, at concrete records and configurations.
use locai_link.Base.{
  ℕ, zero, suc, String, true, false, none, some, List, [], ◌∷◌, ◌++◌, refl, arith,
}
use locai_link.Dict.{Dict, lookup}
use locai_link.Json.{text}
use locai_link.Config.{GenericConfig}
use locai_link.Proxy.{malformed}
use locai_link.Logger.{
  LogRecord, plain, Formats, formatted, start, put, put_routed, put_formatted, put_payload,
  put_dumped, put_nowait, filter, worker_step, template_for,
}
use locai_link.Logger.Threads.{Act, emits, puts, works, closes, run, act, enter, put_call}
use locai_link.Logger.Reports.{report_lifecycle}
use locai_link.Logger.Delivered.{Keeps, IsValid, run-Keeps}
use locai_link.Logger.Flushed.{fresh, steps, SendsAll, close-SendsAll}
use locai_link.Logger.Sending.{HttpReply, answered, transport_error, http_emit}
use locai_link.Logger.Sending.Tried.{Tried, http_emit-Tried}
use locai_link.Logger.Handlers.{
  Setup, Section, Loggers, console, remote, zenoh, setup_logging, rebuild_handlers,
}
use locai_link.Logger.Handlers.Rebuilt.{Rebuilds, rebuild_handlers-Rebuilds}

abbrev formats : Formats
formats = record { format = λ t c. formatted t; dumps = λ fs. some "{}" }

abbrev templates : Dict String
templates = ("lifecycle_status", "https://control/status") ∷ ("url", "https://control/logs") ∷ []

abbrev line : LogRecord
line = record {
  name = "link.app.state";
  levelname = "WARNING";
  message = plain (some "disk is full");
  route_key = none;
  context = [];
  category = none;
}

abbrev acts : List Act
acts =
    emits (report_lifecycle (some "1.0") "online")
    ∷ puts
    ∷ works
    ∷ works
    ∷ emits line
    ∷ puts
    ∷ works
    ∷ []

run-Keeps_example :
    Keeps
      (start templates)
      ((run formats acts (fresh templates)).0.async, (run formats acts (fresh templates)).1)
unfolding start
run-Keeps_example =
    let v : IsValid (start templates) = (omega arith, λ e. tt) in
    run-Keeps formats acts (fresh templates) v

close-SendsAll_example : SendsAll (run formats (acts ++ (closes ∷ steps 2003)) (fresh templates))
unfolding run act enter put_call put put_routed put_formatted put_payload put_dumped put_nowait
    filter worker_step start template_for lookup report_lifecycle
close-SendsAll_example = close-SendsAll formats templates acts 2003 refl (omega arith)

abbrev replies : ℕ → HttpReply
replies zero = answered 503
replies (suc zero) = transport_error
replies n = answered 200

http_emit-Tried_example : Tried replies 0 2 (http_emit replies)
http_emit-Tried_example = http_emit-Tried replies

abbrev setup : Setup
setup = record {
  upper = λ s. s;
  lower = λ s. s;
  str = λ v. "?";
  takes_float = λ v. true;
  reader = record { loads = λ b. malformed; is_zero = λ s. false };
  has_zenoh = true;
}

abbrev to_http : GenericConfig
to_http = record {
  type = "http";
  args = ("url", text "https://control/logs") ∷ ("level", text "WARNING") ∷ [];
}

abbrev section : Section
section = record { level_name = some "INFO"; handlers = to_http ∷ [] }

abbrev before : Loggers
before = record {
  root = record { handlers = console 20 ∷ remote zenoh 20 (start templates) ∷ []; level = 20 };
  reporter = record { handlers = []; level = 0 };
  propagates = true;
}

abbrev blank : Loggers
blank = record {
  root = record { handlers = []; level = 30 };
  reporter = record { handlers = []; level = 0 };
  propagates = true;
}

rebuild_handlers-Rebuilds_example :
    Rebuilds before
      (setup_logging setup (some section) none blank)
      (rebuild_handlers setup (some section) none before)
rebuild_handlers-Rebuilds_example = rebuild_handlers-Rebuilds setup (some section) none before blank
