-- ===== src/CommandSink.antt =====
-- src/link/components/command.py: the sink that hands commands to the runtime and drops duplicates.
pub mod Once
use locai_link.Base.{
  ℕ, String, Bool, true, false, Option, none, some, List, [], ◌∷◌, ◌==◌, if◌then◌else◌, elem,
  length, take,
}

-- A command as the sink sees it: its `id` field, if there is one, and the rest.
pub record RawCommand : Type 0 where
  pub id : Option String
  pub body : String

-- `seen` is the deque, newest id first; `calls` records each run of the callback, newest first.
pub record AgentCommand : Type 0 where
  pub seen : List String
  pub maxlen : ℕ
  pub calls : List RawCommand

-- `if cmd_id`: neither a missing nor an empty id counts.
unfoldable pub dedup_key : Option String → Option String
dedup_key none = none
dedup_key (some k) = if k == "" then none else some k

-- `deque.append` with a `maxlen`: the oldest id falls out.
unfoldable pub append_bounded : ℕ → String → List String → List String
append_bounded maxlen k seen = take maxlen (k ∷ seen)

-- Whether the callback's n-th run returns; it may raise.
abbrev pub Callback : Type 0
Callback = ℕ → RawCommand → Bool

unfoldable pub init : ℕ → AgentCommand
init dedup_window = record { seen = []; maxlen = dedup_window; calls = [] }

remember : Option String → AgentCommand → AgentCommand
unfolding append_bounded
remember none s = s
remember (some k) s = record s { seen = append_bounded s.maxlen k s.seen }

is_duplicate : Option String → AgentCommand → Bool
is_duplicate none s = false
is_duplicate (some k) s = elem k s.seen

unfoldable pub dispatch : Callback → AgentCommand → RawCommand → AgentCommand × Bool
unfolding dedup_key remember is_duplicate
dispatch callback s cmd =
    let k = dedup_key cmd.id in
    let called = record s { calls = cmd ∷ s.calls } in
    if is_duplicate k s
    then (s, true)
    else if callback (length s.calls) cmd
    then (remember k called, true)
    else (called, false)

-- `all(...)` stops at the first command that fails.
unfoldable pub call : Callback → AgentCommand → List RawCommand → AgentCommand × Bool
call callback s [] = (s, true)
call callback s (cmd ∷ cmds) =
    let (s', done) = dispatch callback s cmd in
    let rest = call callback s' cmds in if done then rest else (s', false)

unfoldable pub mark_seen : AgentCommand → Option String → AgentCommand
unfolding dedup_key remember
mark_seen s cmd_id = remember (dedup_key cmd_id) s
