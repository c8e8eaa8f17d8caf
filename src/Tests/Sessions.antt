-- ===== src/Tests/Sessions.antt =====
-- The theorems on the session file and on the command sink, at concrete data.
use locai_link.Base.{suc, ◌≤◌, String, true, false, some, List, [], ◌∷◌, ◌≡◌, refl, arith, elem}
use locai_link.Tests.{fresh, manager, welcome, old_config, new_config}
use locai_link.Dict.{lookup}
use locai_link.State.{written, load_state, bootstrap, model_dump}
use locai_link.State.Recovery.{
  Change, full_config, pipeline_config, pipeline_status, pipeline_removed, apply_all, restarted,
  AllCurrent, IsDurable, recovery,
}
use locai_link.CommandSink.{AgentCommand, RawCommand, init, dedup_key, dispatch, call, Callback}
use locai_link.CommandSink.Once.{runs, redelivery_dropped, call_runs_once}

abbrev changes : List Change
changes =
    pipeline_config welcome
    ∷ pipeline_status "welcome" true
    ∷ full_config new_config
    ∷ pipeline_removed "welcome"
    ∷ []

changes_current : AllCurrent changes
changes_current = (tt, (tt, (refl, (tt, tt))))

recovery_example :
    let last = apply_all changes (bootstrap written "session_1.json" old_config fresh) in
    (load_state (some "session_1.json") (restarted last)).1 ≡ last.cache
recovery_example = recovery fresh "session_1.json" old_config changes refl changes_current

manager-IsDurable : IsDurable "session_1.json" manager (model_dump old_config)
unfolding lookup model_dump
manager-IsDurable = record { cached = refl; at_path = refl; on_disk = refl; version = refl }

abbrev raw : String → RawCommand
raw key = record { id = some key; body = "{}" }

-- The callback raises at its second run.
abbrev flaky : Callback
flaky n c = elim n [ suc k ↦ elim k [ suc j ↦ true | _ ↦ false ] | _ ↦ true ]

abbrev sink : AgentCommand
sink = init 4

abbrev batch : List RawCommand
batch = raw "b" ∷ raw "c" ∷ []

batch_fits : suc 2 ≤ 4
batch_fits = omega arith

first_works : (dispatch flaky sink (raw "a")).1 ≡ true
unfolding dispatch init dedup_key
first_works = refl

key_a : dedup_key (raw "a").id ≡ some "a"
unfolding dedup_key
key_a = refl

new_a : elem "a" sink.seen ≡ false
unfolding init
new_a = refl

window : suc 2 ≤ sink.maxlen
unfolding init
window = omega arith

redelivery_dropped_example :
    let later = (call flaky (dispatch flaky sink (raw "a")).0 batch).0 in
    dispatch flaky later (raw "a") ≡ (later, true)
redelivery_dropped_example =
    redelivery_dropped flaky sink (raw "a") batch key_a new_a window first_works

call_runs_once_example : runs "b" (call flaky sink batch).0.calls ≤ suc (runs "b" sink.calls)
call_runs_once_example = call_runs_once flaky "b" sink batch (omega (arith, window))
