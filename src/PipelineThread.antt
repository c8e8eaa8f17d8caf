-- ===== src/PipelineThread.antt =====
-- src/link/components/pipeline.py: the loop of a `Pipeline`, which hands what its source gives to
-- its sink. Times are in milliseconds.
pub mod Delivery
use locai_link.Base.{ℕ, ◌*◌, String, Bool, true, false, List, [], ◌∷◌, ◌++◌, leb, if◌then◌else◌}

-- How a call of the sink ends: it returns, whatever it returns; it raises StopIteration; it raises
-- another exception.
pub data SinkEnd : Type 0 where
  returned exhausted raised : SinkEnd

-- What one turn of the loop meets: `running` is found false, at the top or after the wait; the wait
-- for `active_event` is woken; or else the source gives data, gives None, raises StopIteration or
-- raises another exception.
pub data Turn {ℓ} (D : Type ℓ) : Type ℓ where
  stopped : Turn D
  woken : Turn D
  gives : D → SinkEnd → Turn D
  gives_none : Turn D
  source_ends : Turn D
  source_fails : Turn D

-- How the source and the sink are released: by `stop`, by `close`, or neither has one of them.
pub data Release : Type 0 where
  by_stop by_close nothing : Release

-- What the loop does, in order.
pub data Effect {ℓ} (D : Type ℓ) : Type ℓ where
  deliver : D → Effect D
  sleep : ℕ → Effect D
  release_source : Release → Effect D
  release_sink : Release → Effect D

abbrev pub idle_sleep_min : ℕ
idle_sleep_min = 10

abbrev pub idle_sleep_max : ℕ
idle_sleep_max = 200

-- `hasattr(component, "stop")`, then `hasattr(component, "close")`
unfoldable pub release : Bool → Bool → Release
release true has_close = by_stop
release false true = by_close
release false false = nothing

-- min(idle_sleep * 2, _IDLE_SLEEP_MAX)
unfoldable pub back_off : ℕ → ℕ
back_off n = if leb (n * 2) idle_sleep_max then n * 2 else idle_sleep_max

-- Which of the methods the source and the sink have, and whether the call that releases the source
-- raises, if one is made.
pub record Ends : Type 0 where
  pub source_stop : Bool
  pub source_close : Bool
  pub sink_stop : Bool
  pub sink_close : Bool
  pub source_raises : Bool

unfoldable pub raises : Release → Bool → Bool
raises nothing fails = false
raises by_stop fails = fails
raises by_close fails = fails

-- Is the release of the source cut short?
unfoldable pub cut_short : Ends → Bool
cut_short w = raises (release w.source_stop w.source_close) w.source_raises

-- The sink is released after the source, unless that raised.
unfoldable pub sink_after {ℓ} : {D : Type ℓ} → Bool → Release → List (Effect D)
sink_after true r = []
sink_after false r = release_sink r ∷ []

module _ {ℓ} {D : Type ℓ} (w : Ends) where
  unfoldable pub teardown : List (Effect D)
  teardown =
      release_source (release w.source_stop w.source_close)
      ∷ sink_after (cut_short w) (release w.sink_stop w.sink_close)

  -- What follows a call of the sink: only an exception of its own kind ends the loop.
  unfoldable pub after_sink : SinkEnd → List (Effect D) → List (Effect D)
  after_sink returned rest = rest
  after_sink exhausted rest = teardown
  after_sink raised rest = sleep 1000 ∷ rest

  -- `run`, by the turns that were made; the loop has not ended if no turn ends it.
  unfoldable pub run : ℕ → List (Turn D) → List (Effect D)
  unfolding after_sink teardown
  run idle_sleep [] = []
  run idle_sleep (stopped ∷ ts) = teardown
  run idle_sleep (woken ∷ ts) = run idle_sleep ts
  run idle_sleep (gives d e ∷ ts) = deliver d ∷ after_sink e (run idle_sleep_min ts)
  run idle_sleep (gives_none ∷ ts) = sleep idle_sleep ∷ run (back_off idle_sleep) ts
  run idle_sleep (source_ends ∷ ts) = teardown
  run idle_sleep (source_fails ∷ ts) = sleep 1000 ∷ run idle_sleep ts
