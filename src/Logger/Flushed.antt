-- ===== src/Logger/Flushed.antt =====
-- That a handler which is closed sends what it accepted: src/link/utils/logger.py, `AsyncHandler`.
use mathlib.Core.List.{append-nil}
use mathlib.Core.Path.{subst}
use locai_link.Base.{
  ℕ, zero, suc, ◌+◌, ◌*◌, ◌≤◌, String, true, false, Option, none, List, [], ◌∷◌, ◌++◌, ◌≡◌, refl,
  sym, ap, ◌∙◌, arith, length,
}
use locai_link.Dict.{Dict}
use locai_link.Logger.{
  LogRecord, Formats, Outgoing, Worker, testing, getting, draining, ended, sending, finishing,
  AsyncHandler, LogEvent, worker_step, start, close,
}
use locai_link.Logger.Threads.{Shared, Act, works, closes, act, run}
use locai_link.Logger.Delivered.{Loops, in_hand, held, IsValid, run-Keeps}
use locai_link.Logger.Events.{joined, delivered, refusals}

-- The worker's own steps, this many.
abbrev pub steps : ℕ → List Act
steps zero = []
steps (suc n) = works ∷ steps n

abbrev pub IsDone : AsyncHandler → Type 0
IsDone h = (h.worker ≡ ended) × (h.queue ≡ [])

abbrev pub fresh : Dict String → Shared
fresh templates = record { async = start templates; in_flight = none }

run-append :
    (w : Formats) (acts more : List Act) (s : Shared)
    → (run w (acts ++ more) s).0 ≡ (run w more (run w acts s).0).0
unfolding run
run-append w [] more s = refl
run-append w (a ∷ acts) more s = run-append w acts more (act w a s).0

module _ (w : Formats) (templates : Dict String) (dropped : ℕ) (call : Option LogRecord) where
  -- A handler that is closed, by its worker and its queue.
  abbrev closed_at : Worker → List Outgoing → Shared
  closed_at p q = record {
    async = record {
      templates = templates;
      queue = q;
      is_stopped = true;
      dropped = dropped;
      worker = p;
    };
    in_flight = call;
  }

  abbrev Flushes : ℕ → Worker → List Outgoing → Type 0
  Flushes n p q = IsDone (run w (steps n) (closed_at p q)).0.async

  ended-Flushes : (n : ℕ) → Flushes n ended []
  unfolding run act worker_step
  ended-Flushes zero = (refl, refl)
  ended-Flushes (suc n) = ended-Flushes n

  -- The loop that drains the queue takes two steps for an entry.
  draining-Flushes : (n : ℕ) (q : List Outgoing) → length q * 2 + 1 ≤ n → Flushes n draining q
  unfolding run act worker_step
  draining-Flushes zero q h = absurd (omega (arith, h))
  draining-Flushes (suc n) [] h = ended-Flushes n
  draining-Flushes (suc zero) (x ∷ q) h = absurd (omega (arith, h))
  draining-Flushes (suc (suc n)) (x ∷ q) h = draining-Flushes n q (omega (arith, h))

  testing-Flushes : (n : ℕ) (q : List Outgoing) → length q * 2 + 2 ≤ n → Flushes n testing q
  unfolding run act worker_step
  testing-Flushes zero q h = absurd (omega (arith, h))
  testing-Flushes (suc n) q h = draining-Flushes n q (omega (arith, h))

  sending-Flushes :
      (n : ℕ) (x : Outgoing) (q : List Outgoing) → length q * 2 + 3 ≤ n → Flushes n (sending x) q
  unfolding run act worker_step
  sending-Flushes zero x q h = absurd (omega (arith, h))
  sending-Flushes (suc n) x q h = testing-Flushes n q (omega (arith, h))

  -- From each place in the main loop.
  loop-Flushes :
      (n : ℕ) (p : Worker) (q : List Outgoing) → Loops p → length q * 2 + 3 ≤ n → Flushes n p q
  unfolding run act worker_step
  loop-Flushes n testing q l h = testing-Flushes n q (omega (arith, h))
  loop-Flushes zero getting q l h = absurd (omega (arith, h))
  loop-Flushes (suc n) getting [] l h = testing-Flushes n [] (omega (arith, h))
  loop-Flushes (suc n) getting (x ∷ q) l h = sending-Flushes n x q (omega (arith, h))
  loop-Flushes n (sending x) q l h = sending-Flushes n x q h
  loop-Flushes n draining q l h = absurd l
  loop-Flushes n (finishing x) q l h = absurd l
  loop-Flushes n ended q l h = absurd l

start-IsValid : (templates : Dict String) → IsValid (start templates)
unfolding start
start-IsValid templates = (omega arith, λ e. tt)

close-Flushes :
    (w : Formats) (s : Shared) (n : ℕ)
    → IsValid s.async
    → s.async.is_stopped ≡ false
    → 2003 ≤ n
    → IsDone (run w (closes ∷ steps n) s).0.async
unfolding run act close
close-Flushes w s n v e h =
    loop-Flushes w s.async.templates s.async.dropped s.in_flight n s.async.worker s.async.queue
      (v.1 e) (omega (arith, v.0, h))

-- What is claimed of a handler at its end.
abbrev pub SendsAll : Shared × List LogEvent → Type 0
SendsAll (s, es) = IsDone s.async × (delivered es ≡ joined es) × (s.async.dropped ≡ refusals es)

-- A handler that is done holds nothing.
done_holds : (h : AsyncHandler) (js ds : List Outgoing) → IsDone h → js ≡ ds ++ held h → ds ≡ js
done_holds h js ds (p, q) e =
    let nothing : held h ≡ [] = ap (λ v. in_hand v ++ h.queue) p ∙ q in
    sym (e ∙ ap (λ xs. ds ++ xs) nothing ∙ append-nil ds)

-- After any acts of the threads on a new handler that do not close it, the handler is closed, and
-- its worker makes 2003 steps or more: then the worker has ended, with nothing left in the queue;
-- all entries that joined the queue were handed to the transport, each once and in this order;
-- and the counter of the handler is the number of the entries that were dropped.
pub close-SendsAll :
    (w : Formats) (templates : Dict String) (acts : List Act) (n : ℕ)
    → (run w acts (fresh templates)).0.async.is_stopped ≡ false
    → 2003 ≤ n
    → SendsAll (run w (acts ++ (closes ∷ steps n)) (fresh templates))
unfolding start
close-SendsAll w templates acts n e h =
    let all = acts ++ (closes ∷ steps n) in
    let s = (run w acts (fresh templates)).0 in
    let v = (run-Keeps w acts (fresh templates) (start-IsValid templates)).2 in
    let done =
      subst (λ s. IsDone s.async) (sym (run-append w acts (closes ∷ steps n) (fresh templates)))
        (close-Flushes w s n v e h) in
    let (order, counted, valid) = run-Keeps w all (fresh templates) (start-IsValid templates) in
    (done, done_holds (run w all (fresh templates)).0.async _ _ done order, omega (arith, counted))
