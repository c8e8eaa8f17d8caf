-- ===== src/Tests/Swaps.antt =====
-- The theorems on the swap manager, at a machine with a foreign process and an orphan.
use locai_link.Base.{
  ℕ, String, true, false, Option, none, some, List, [], ◌∷◌, ◌≡◌, ◌≢◌, ◌⊎◌, inl, inr, refl, eqb,
  if◌then◌else◌,
}
use locai_link.Dict.{lookup, erase, has}
use locai_link.SwapManager.{SwapManager, ℤ, pos, unset, integer, new_manager, config_written}
use locai_link.SwapManager.Processes.{
  Process, Machine, stopped, bad_ttl, looks_like_our_llama_swap, any_contains,
}
use locai_link.SwapManager.Models.{Op, add, perform, add_model}
use locai_link.SwapManager.Spared.{Has, IsForeign, perform-Has}
use locai_link.SwapManager.Synced.{run, EndsSynced, run-Synced}
use locai_link.SwapManager.Serving.{Serves, IsStored, IsBad, add_model-Serves}

-- Port 8150 is free, llama-swap is there and starts.
abbrev machine : Machine
machine = record {
  is_windows = false;
  swap_bin = "bin/llama-swap";
  bin_exists = true;
  config_path = λ p. "/agent/configs/swap_config_8100.json";
  bind = λ p. "127.0.0.1:8150";
  lower = λ s. s;
  inspectable = λ q. true;
  readable = λ q. true;
  ending = λ q. stopped;
  in_use = λ p qs. false;
  next_pid = λ qs. 50;
  spawns = true;
  survives = true;
  config_write = config_written;
}

-- Another llama-swap, on another port.
abbrev foreign : Process
foreign = record {
  pid = 7;
  name = "llama-swap";
  cmdline = "bin/llama-swap" ∷ "--listen" ∷ "127.0.0.1:9150" ∷ [];
}

abbrev orphan : Process
orphan = record {
  pid = 9;
  name = "llama-swap";
  cmdline = "bin/llama-swap" ∷ "--listen" ∷ "127.0.0.1:8150" ∷ [];
}

abbrev processes : List Process
processes = orphan ∷ foreign ∷ []

-- An earlier run left its number.
abbrev manager : SwapManager
manager = record {
  port = 8100;
  allowed_origins = [];
  models = [];
  proc = none;
  proxy = none;
  callbacks = [];
  registered = true;
  config = none;
  pidfile = some 9;
}

abbrev show : ℕ → String
show n = if eqb n 8250 then "8250" else "8251"

abbrev adds : Op
adds = add "m" "m.gguf" [] [] unset

is_foreign : IsForeign machine 8100 foreign
is_foreign = inr (inr (refl, (refl, (refl, (refl, tt)))))

is_orphan : looks_like_our_llama_swap machine 8100 orphan ≡ true
unfolding looks_like_our_llama_swap any_contains
is_orphan = refl

no_proc : ◌≢◌ {A = Option ℕ} none (some 7)
no_proc e = absurd cc

perform-Has_example : Has foreign (perform machine show "bin/llama-server" adds manager processes).1
perform-Has_example =
    perform-Has machine foreign show "bin/llama-server" adds manager processes is_foreign no_proc
      (inr (inl refl))

abbrev calls : List (Machine × List Process × Op)
calls = (machine, processes, adds) ∷ (machine, [], add "n" "n.gguf" [] [] (integer (pos 60))) ∷ []

run-Synced_example :
    EndsSynced show "bin/llama-server"
      (run show "bin/llama-server" calls (new_manager 8100 [] none none, false)).0
      (run show "bin/llama-server" calls (new_manager 8100 [] none none, false)).1
run-Synced_example = run-Synced show "bin/llama-server" calls 8100 [] none none

add_model-Serves_example :
    ((t : ℤ) × IsStored unset t
      × Serves
          (add_model machine show "bin/llama-server" "m" "m.gguf" [] [] unset manager processes)
      × (lookup "m"
            (add_model machine show "bin/llama-server" "m" "m.gguf" [] [] unset manager
              processes).0.models
          ≡ some (record { path = "m.gguf"; args = []; env = []; ttl = t })))
    ⊎ (IsBad unset
        × (add_model machine show "bin/llama-server" "m" "m.gguf" [] [] unset manager processes
            ≡ (manager, processes, some bad_ttl)))
add_model-Serves_example =
    add_model-Serves machine show "bin/llama-server" "m" "m.gguf" [] [] unset manager processes

-- The manager with one model, whose llama-swap is the orphan.
abbrev serving : SwapManager
serving = record manager {
  models = ("m", record { path = "m.gguf"; args = []; env = []; ttl = pos 300 }) ∷ [];
  proc = some 9;
}

has_m : has "m" serving.models ≡ true
unfolding lookup
has_m = refl

only_m : erase "m" serving.models ≡ []
unfolding erase
only_m = refl
