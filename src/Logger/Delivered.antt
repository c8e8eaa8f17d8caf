-- ===== src/Logger/Delivered.antt =====
-- That no record which joins the queue of a handler is lost, and that the queue is bounded:
-- src/link/utils/logger.py, `AsyncHandler`.
use mathlib.Core.List.{append-nil, append_assoc}
use locai_link.Base.{
  ℕ, ◌+◌, ◌≤◌, String, Bool, true, false, Option, none, some, List, [], ◌∷◌, ◌++◌, ◌≡◌, refl, sym,
  ap, ◌∙◌, arith, leb, if-cases, length, length-append,
}
use locai_link.Dict.{Dict}
use locai_link.Json.{Fields}
use locai_link.Logger.{
  LogRecord, Formatted, formatted, missing_key, malformed, Formats, Outgoing, Worker, testing,
  getting, draining, ended, sending, finishing, AsyncHandler, LogEvent, default, filter,
  template_for, raw_payload, put_nowait, put_dumped, put_payload, put_formatted, put_routed, put,
  worker_step, close,
}
use locai_link.Logger.Events.{
  joined, delivered, refusals, joined-append, delivered-append, refusals-append,
}
use locai_link.Logger.Threads.{Shared, Act, emits, puts, works, closes, put_call, act, run}

abbrev pub in_hand : Worker → List Outgoing
in_hand (sending x) = x ∷ []
in_hand (finishing x) = x ∷ []
in_hand testing = []
in_hand getting = []
in_hand draining = []
in_hand ended = []

-- What the handler still has to send, the oldest first.
abbrev pub held : AsyncHandler → List Outgoing
held h = in_hand h.worker ++ h.queue

-- The worker is in its main loop.
abbrev pub Loops : Worker → Type 0
Loops testing = Unit
Loops getting = Unit
Loops (sending x) = Unit
Loops draining = ⊥
Loops (finishing x) = ⊥
Loops ended = ⊥

-- What is always so of a handler.
abbrev pub IsValid : AsyncHandler → Type 0
IsValid h = (length h.queue ≤ 1000) × (h.is_stopped ≡ false → Loops h.worker)

-- What is claimed of a handler and what becomes of it with some events.
abbrev pub Keeps : AsyncHandler → AsyncHandler × List LogEvent → Type 0
Keeps h (h', es) =
    (held h ++ joined es ≡ delivered es ++ held h')
    × (h'.dropped ≡ h.dropped + refusals es)
    × IsValid h'

-- Nothing is done.
same : (h : AsyncHandler) → IsValid h → Keeps h (h, [])
same h v = (append-nil (held h), omega arith, v)

Keeps-trans :
    (h h' : AsyncHandler) (es : List LogEvent) (r : AsyncHandler × List LogEvent)
    → Keeps h (h', es)
    → Keeps h' r
    → Keeps h (r.0, es ++ r.1)
Keeps-trans h h' es (h'', fs) (a, b, v) (c, d, v') =
    let order : held h ++ joined (es ++ fs) ≡ delivered (es ++ fs) ++ held h'' =
      ap (λ js. held h ++ js) (joined-append es fs)
      ∙ sym (append_assoc (held h) (joined es) (joined fs))
      ∙ ap (λ js. js ++ joined fs) a
      ∙ append_assoc (delivered es) (held h') (joined fs)
      ∙ ap (λ js. delivered es ++ js) c
      ∙ sym (append_assoc (delivered es) (delivered fs) (held h''))
      ∙ ap (λ js. js ++ held h'') (sym (delivered-append es fs)) in
    (order, omega (arith, refusals-append es fs, b, d), v')

put_nowait-Keeps : (x : Outgoing) (h : AsyncHandler) → IsValid h → Keeps h (put_nowait x h)
unfolding put_nowait
put_nowait-Keeps x h v =
    if-cases (Keeps h) (leb 1000 (length h.queue)) (λ full. (append-nil (held h), omega arith, v))
      (λ room. (
        append_assoc (in_hand h.worker) h.queue (x ∷ []),
        omega arith,
        (ground (arith, room, length-append h.queue (x ∷ [])), v.1),
      ))

put_dumped-Keeps :
    (key target : String) (raw : Fields) (payload : Option String) (h : AsyncHandler)
    → IsValid h
    → Keeps h (put_dumped key target raw payload h)
unfolding put_dumped
put_dumped-Keeps key target raw none h v = same h v
put_dumped-Keeps key target raw (some payload) h v = put_nowait-Keeps _ h v

put_payload-Keeps :
    (w : Formats) (key target : String) (raw : Option Fields) (h : AsyncHandler)
    → IsValid h
    → Keeps h (put_payload w key target raw h)
unfolding put_payload
put_payload-Keeps w key target none h v = same h v
put_payload-Keeps w key target (some raw) h v = put_dumped-Keeps key target raw (w.dumps raw) h v

put_formatted-Keeps :
    (w : Formats) (key : String) (r : LogRecord) (f : Formatted) (h : AsyncHandler)
    → IsValid h
    → Keeps h (put_formatted w key r f h)
unfolding put_formatted
put_formatted-Keeps w key r (formatted target) h v =
    put_payload-Keeps w key target (raw_payload r r.message) h v
put_formatted-Keeps w key r missing_key h v = same h v
put_formatted-Keeps w key r malformed h v = same h v

put_routed-Keeps :
    (w : Formats) (key : String) (r : LogRecord) (t : Option String) (h : AsyncHandler)
    → IsValid h
    → Keeps h (put_routed w key r t h)
unfolding put_routed
put_routed-Keeps w key r none h v = same h v
put_routed-Keeps w key r (some t) h v = put_formatted-Keeps w key r (w.format t r.context) h v

put_call-Keeps :
    (w : Formats) (call : Option LogRecord) (h : AsyncHandler)
    → IsValid h
    → Keeps h (put_call w call h)
unfolding put_call put
put_call-Keeps w none h v = same h v
put_call-Keeps w (some r) h v =
    let key = default "logs" (filter r).route_key in
    put_routed-Keeps w key (filter r) (template_for h.templates key) h v

module _ (templates : Dict String) (dropped : ℕ) where
  -- One step of the worker, from each place in its two loops.
  worker_step-Keeps :
      (p : Worker) (q : List Outgoing) (is_stopped : Bool)
      → let h : AsyncHandler = record {
        templates = templates;
        queue = q;
        is_stopped = is_stopped;
        dropped = dropped;
        worker = p;
      } in
        IsValid h → Keeps h (worker_step p q h)
  unfolding worker_step
  worker_step-Keeps testing q true v = (append-nil q, omega arith, (v.0, λ e. absurd cc))
  worker_step-Keeps testing q false v = (append-nil q, omega arith, (v.0, λ e. tt))
  worker_step-Keeps getting [] b v = (refl, omega arith, v)
  worker_step-Keeps getting (x ∷ q) b v =
      (append-nil (x ∷ q), omega arith, (omega (arith, v.0), v.1))
  worker_step-Keeps (sending x) q b v = (append-nil (x ∷ q), omega arith, v)
  worker_step-Keeps draining [] b v = (refl, omega arith, v)
  worker_step-Keeps draining (x ∷ q) b v =
      (append-nil (x ∷ q), omega arith, (omega (arith, v.0), v.1))
  worker_step-Keeps (finishing x) q b v = (append-nil (x ∷ q), omega arith, v)
  worker_step-Keeps ended q b v = (append-nil q, omega arith, v)

act-Keeps :
    (w : Formats) (a : Act) (s : Shared)
    → IsValid s.async
    → Keeps s.async ((act w a s).0.async, (act w a s).1)
unfolding act close
act-Keeps w (emits r) s v = same s.async v
act-Keeps w puts s v = put_call-Keeps w s.in_flight s.async v
act-Keeps w works s v =
    let h = s.async in worker_step-Keeps h.templates h.dropped h.worker h.queue h.is_stopped v
act-Keeps w closes s v = (append-nil (held s.async), omega arith, (v.0, λ e. absurd cc))

-- In any order of the acts of the threads, and also while a handler is closed: the entries that it
-- held and those that join its queue are, in this order, those that are handed to the transport and
-- those that it then holds, so none is lost, sent twice or overtaken; its queue has at most 1000
-- entries; its counter grows by the entries that are dropped; and its worker leaves the main loop
-- only after it was closed.
pub run-Keeps :
    (w : Formats) (acts : List Act) (s : Shared)
    → IsValid s.async
    → Keeps s.async ((run w acts s).0.async, (run w acts s).1)
unfolding run
run-Keeps w [] s v = same s.async v
run-Keeps w (a ∷ acts) s v =
    let (s', es) = act w a s in
    let first = act-Keeps w a s v in
    Keeps-trans s.async s'.async es ((run w acts s').0.async, (run w acts s').1) first
      (run-Keeps w acts s' first.2)
