-- ===== src/Logger/Threads.antt =====
-- src/link/utils/logger.py: a handler of `AsyncHandler` as its threads use it.
use locai_link.Base.{Bool, true, false, Option, none, some, List, [], ◌∷◌, ◌++◌}
use locai_link.Logger.{LogRecord, Formats, AsyncHandler, LogEvent, filter, put, worker_step, close}

-- A handler and the call of `emit` that has passed the look at `_stop_event`: there is one at most,
-- since `logging` makes the calls under the lock of the handler.
pub record Shared : Type 0 where
  pub async : AsyncHandler
  pub in_flight : Option LogRecord

-- What a thread does next: it calls `emit`; the call goes on to its end; the worker makes a step;
-- or the handler is closed.
pub data Act : Type 0 where
  emits : LogRecord → Act
  puts works closes : Act

-- A call that meets another one waits, and is made later.
unfoldable pub enter : LogRecord → Bool → Option LogRecord → Option LogRecord
enter r stopped (some c) = some c
enter r true none = none
enter r false none = some r

module _ (w : Formats) where
  unfoldable pub put_call : Option LogRecord → AsyncHandler → AsyncHandler × List LogEvent
  put_call none h = (h, [])
  put_call (some r) h = put w (filter r) h

  unfoldable pub act : Act → Shared → Shared × List LogEvent
  unfolding close put_call enter
  act (emits r) s = (record s { in_flight = enter r s.async.is_stopped s.in_flight }, [])
  act puts s =
      let (h, es) = put_call s.in_flight s.async in (record { async = h; in_flight = none }, es)
  act works s =
      let (h, es) = worker_step s.async.worker s.async.queue s.async in (record s { async = h }, es)
  act closes s = (record s { async = close s.async }, [])

  -- What a sequence of acts comes to, and what is done in it.
  unfoldable pub run : List Act → Shared → Shared × List LogEvent
  run [] s = (s, [])
  run (a ∷ acts) s = let (s', es) = act a s in let (s'', rest) = run acts s' in (s'', es ++ rest)
