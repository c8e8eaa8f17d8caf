-- ===== src/SwapManager/Processes.antt =====
-- plugins/language_model/swap_manager.py: the processes. `_reclaim_previous_instance`, `_start`,
-- `_stop`, `_reload`, `ensure_proxy`.
use text.Mathlib.Text.{find?}
use locai_link.Base.{
  ℕ, ◌+◌, String, Bool, true, false, not, ◌&&◌, ◌||◌, Option, none, some, List, [], ◌∷◌, map, eqb,
  if◌then◌else◌, is_some, elem,
}
use locai_link.SwapManager.{SwapManager, ConfigWrite, listen_port}

-- A process of the machine, its name and its command line in lower case.
pub record Process : Type 0 where
  pub pid : ℕ
  pub name : String
  pub cmdline : List String

-- How the attempt to end a process ends: it stops, at once or when it is killed; it was gone
-- already; or it cannot be stopped.
pub data Ending : Type 0 where
  stopped gone not_stopped : Ending

pub data Fault : Type 0 where
  bad_ttl config_not_written missing_binary port_held popen_failed exited_at_once proxy_port_held :
      Fault

-- What a call leaves, with the exception that it raised, if any.
abbrev pub Outcome : Type 0
Outcome = SwapManager × List Process × Option Fault

-- The machine as the manager meets it. `readable` and `inspectable` are what psutil allows,
-- `in_use` tells whether something listens on a port, `next_pid` is the number that a new process
-- gets, `spawns` whether it comes into being and `survives` whether it still runs after a second;
-- `config_write` is how the file of models is written.
pub record Machine : Type 0 where
  pub is_windows : Bool
  pub swap_bin : String
  pub bin_exists : Bool
  pub config_path : ℕ → String
  pub bind : ℕ → String
  pub lower : String → String
  pub inspectable : Process → Bool
  pub readable : Process → Bool
  pub ending : Process → Ending
  pub in_use : ℕ → List Process → Bool
  pub next_pid : List Process → ℕ
  pub spawns : Bool
  pub survives : Bool
  pub config_write : ConfigWrite

abbrev pub find_pid : ℕ → List Process → Option Process
find_pid n [] = none
find_pid n (q ∷ qs) = if eqb q.pid n then some q else find_pid n qs

-- The processes without the one of a number.
unfoldable pub end_pid : ℕ → List Process → List Process
end_pid n [] = []
end_pid n (q ∷ qs) = if eqb q.pid n then qs else q ∷ end_pid n qs

-- `text in arg`, for some of the arguments
unfoldable pub any_contains : String → List String → Bool
any_contains t [] = false
any_contains t (x ∷ xs) = is_some (find? x t) || any_contains t xs

abbrev pub has_process : Option ℕ → List Process → Bool
has_process none qs = false
has_process (some n) qs = is_some (find_pid n qs)

unfoldable pub is_running : SwapManager → List Process → Bool
is_running m qs = has_process m.proc qs

unfoldable pub stop_proxy : SwapManager → SwapManager
stop_proxy m = record m { proxy = none }

-- `_stop`: a process of one's own always ends, since it is killed if need be.
unfoldable pub stop_pid : SwapManager → List Process → Option ℕ → SwapManager × List Process
stop_pid m qs none = (m, qs)
stop_pid m qs (some n) =
    if is_some (find_pid n qs)
    then (record m { proc = none; pidfile = none }, end_pid n qs)
    else (m, qs)

unfoldable pub stop : SwapManager → List Process → SwapManager × List Process
unfolding stop_pid
stop m qs = stop_pid m qs m.proc

-- `_clear_pid`
abbrev pub clear_pid : SwapManager → SwapManager
clear_pid m = record m { pidfile = none }

-- Where it cannot be ended, the file stays for the next attempt.
unfoldable pub end_process :
    SwapManager → List Process → Process → Ending → SwapManager × List Process
end_process m qs q stopped = (clear_pid m, end_pid q.pid qs)
end_process m qs q gone = (clear_pid m, end_pid q.pid qs)
end_process m qs q not_stopped = (m, qs)

module _ (w : Machine) where
  -- `ServingProxy.start`, of a proxy that is there: whether it then has a server, and the fault.
  unfoldable pub proxy_start : ℕ → List Process → Bool → Bool × Option Fault
  proxy_start port qs true = (true, none)
  proxy_start port qs false =
      if w.in_use port qs then (false, some proxy_port_held) else (true, none)

  unfoldable pub ensure_proxy : SwapManager → List Process → SwapManager × Option Fault
  ensure_proxy m qs =
      let (server, fault) =
        proxy_start m.port qs (elim m.proxy [ none ↦ false | some server ↦ server ]) in
      if is_running m qs then (record m { proxy = some server }, fault) else (m, none)

  unfoldable pub looks_like_our_llama_swap : ℕ → Process → Bool
  unfolding any_contains
  looks_like_our_llama_swap port q =
      w.readable q
      && ((is_some (find? q.name "llama-swap") || any_contains "llama-swap" q.cmdline)
          && (elem (w.lower (w.config_path port)) q.cmdline
              || any_contains (w.bind (port + 50)) q.cmdline))

  -- What follows the inspection: the process is ended, unless it is not this manager's.
  unfoldable pub reclaim : SwapManager → List Process → Process → SwapManager × List Process
  unfolding end_process
  reclaim m qs q =
      if not (w.inspectable q)
      then (clear_pid m, qs)
      else if not (looks_like_our_llama_swap m.port q)
      then (clear_pid m, qs)
      else end_process m qs q (w.ending q)

  unfoldable pub reclaim_found :
      SwapManager → List Process → Option Process → SwapManager × List Process
  reclaim_found m qs none = (clear_pid m, qs)
  reclaim_found m qs (some q) = reclaim m qs q

  unfoldable pub reclaim_pid : SwapManager → List Process → Option ℕ → SwapManager × List Process
  reclaim_pid m qs none = (m, qs)
  reclaim_pid m qs (some n) = reclaim_found m qs (find_pid n qs)

  unfoldable pub reclaim_previous_instance : SwapManager → List Process → SwapManager × List Process
  unfolding reclaim_pid reclaim_found
  reclaim_previous_instance m qs = reclaim_pid m qs m.pidfile

  abbrev pub swap_process : SwapManager → ℕ → Process
  swap_process m n = record {
    pid = n;
    name = w.lower w.swap_bin;
    cmdline =
        map w.lower (
          w.swap_bin
          ∷ "--config"
          ∷ w.config_path m.port
          ∷ "--listen"
          ∷ w.bind (listen_port m)
          ∷ []);
  }

  -- `Popen` and what follows it.
  unfoldable pub spawn : SwapManager → List Process → Outcome
  spawn m qs =
      let n = w.next_pid qs in
      let m' = record m { proc = some n; pidfile = some n } in
      let qs' = swap_process m n ∷ qs in
      if not w.spawns
      then (m, qs, some popen_failed)
      else if not w.survives
      then (clear_pid m', qs, some exited_at_once)
      else let (m'', fault) = ensure_proxy m' qs' in (m'', qs', fault)

  -- `_start`, once the binary is found and what an earlier run left is taken care of.
  unfoldable pub start_clear : SwapManager × List Process → Outcome
  start_clear (m, qs) = if w.in_use (listen_port m) qs then (m, qs, some port_held) else spawn m qs

  unfoldable pub start : SwapManager → List Process → Outcome
  start m qs =
      if not w.bin_exists
      then (m, qs, some missing_binary)
      else start_clear (reclaim_previous_instance m qs)

  -- `_reload`; a signal to the process changes nothing here.
  unfoldable pub reload : SwapManager → List Process → Outcome
  reload m qs = if w.is_windows then start (stop m qs).0 (stop m qs).1 else (m, qs, none)
