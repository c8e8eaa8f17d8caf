-- ===== src/Tests/Threads.antt =====
-- The theorem on the loop of a pipeline, at concrete turns.
use locai_link.Base.{ℕ, true, false, List, [], ◌∷◌, arith}
use locai_link.PipelineThread.{Turn, gives, gives_none, source_ends, raised, Ends, run}
use locai_link.PipelineThread.Delivery.{Delivers, run-Delivers}

abbrev turns : List (Turn ℕ)
turns = gives 1 raised ∷ gives_none ∷ gives_none ∷ gives 2 raised ∷ source_ends ∷ []

abbrev both : Ends
both = record {
  source_stop = true;
  source_close = false;
  sink_stop = false;
  sink_close = true;
  source_raises = false;
}

run-Delivers_example : Delivers both turns (run both 10 turns)
run-Delivers_example = run-Delivers both turns 10 (omega arith)
