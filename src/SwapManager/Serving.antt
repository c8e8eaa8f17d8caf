-- ===== src/SwapManager/Serving.antt =====
-- When llama-swap runs: plugins/language_model/swap_manager.py, `add_model` and `remove_model`.
use locai_link.Base.{
  ℕ, zero, suc, ◌≤◌, String, true, false, not, ◌≡◌, refl, Option, none, some, List, [], ◌∷◌, ◌⊎◌,
  inl, inr, arith, ap, ◌∙◌, if-cases, is_some, eqb_iff,
}
use locai_link.Dict.{Dict, has, erase, lookup, insert}
use locai_link.Dict.Laws.{lookup-insert_self}
use locai_link.SwapManager.{
  SwapManager, Model, Ttl, ConfigWrite, config_written, config_failed, listen_port, write_config, ℤ,
  pos, negsuc, unset, integer, no_integer,
}
use locai_link.SwapManager.Processes.{
  Process, Machine, Outcome, find_pid, stop, stop_pid, stop_proxy, start, start_clear, spawn,
  reload, is_running, swap_process, ensure_proxy, has_process, Fault, bad_ttl,
  reclaim_previous_instance,
}
use locai_link.SwapManager.Kept.{stop-Keeps, start-Keeps, reload-Keeps}
use locai_link.SwapManager.Models.{
  add_model, add_checked, set_model, after_write, remove_model, remove_rest, checked_ttl,
}

-- The idle time that an argument stands for, and an argument that is none.
abbrev pub IsStored : Ttl → ℤ → Type 0
IsStored unset t = t ≡ pos 300
IsStored (integer (pos n)) t = t ≡ pos n
IsStored (integer (negsuc n)) t = (n ≡ 0) × (t ≡ negsuc n)
IsStored no_integer t = ⊥

abbrev pub IsBad : Ttl → Type 0
IsBad unset = ⊥
IsBad (integer (pos n)) = ⊥
IsBad (integer (negsuc n)) = 1 ≤ n
IsBad no_integer = Unit

abbrev Checks : Ttl → Option ℤ → Type 0
Checks ttl none = IsBad ttl
Checks ttl (some t) = IsStored ttl t

checked_ttl-Checks : (ttl : Ttl) → Checks ttl (checked_ttl ttl)
unfolding checked_ttl
checked_ttl-Checks unset = refl
checked_ttl-Checks (integer (pos n)) = refl
checked_ttl-Checks (integer (negsuc zero)) = (refl, refl)
checked_ttl-Checks (integer (negsuc (suc n))) = omega arith
checked_ttl-Checks no_integer = tt

-- A call that raises nothing leaves a running llama-swap.
abbrev pub Serves : Outcome → Type 0
Serves (m, qs, fault) = fault ≡ none → is_running m qs ≡ true

stop-stopped :
    (m : SwapManager) (qs : List Process) → is_running (stop m qs).0 (stop m qs).1 ≡ false
unfolding stop stop_pid is_running
stop-stopped m qs = go m.proc refl
  where
    go :
        (o : Option ℕ)
        → m.proc ≡ o
        → has_process (stop_pid m qs o).0.proc (stop_pid m qs o).1 ≡ false
    go none e = ap (λ o. has_process o qs) e
    go (some n) e =
        if-cases (λ (o : SwapManager × List Process). has_process o.0.proc o.1 ≡ false)
          (is_some (find_pid n qs)) (λ k. refl) (λ k. ap (λ o. has_process o qs) e ∙ k)

proxy-stop : (m : SwapManager) (qs : List Process) → (stop m qs).0.proxy ≡ m.proxy
unfolding stop stop_pid
proxy-stop m qs = go m.proc
  where
    go : (o : Option ℕ) → (stop_pid m qs o).0.proxy ≡ m.proxy
    go none = refl
    go (some n) =
        if-cases (λ (o : SwapManager × List Process). o.0.proxy ≡ m.proxy) (is_some (find_pid n qs))
          (λ k. refl) (λ k. refl)

-- Nothing runs, nothing is left and nothing was raised.
abbrev pub IsDown : Outcome → Type 0
IsDown (m, qs, fault) =
    (fault ≡ none)
    × (m.models ≡ [])
    × (is_running m qs ≡ false)
    × (m.proxy ≡ none)
    × (m.config ≡ none)
    × (m.registered ≡ false)

find_pid-new : (q : Process) (qs : List Process) → has_process (some q.pid) (q ∷ qs) ≡ true
find_pid-new q qs = rw ((eqb_iff q.pid q.pid).1 refl) refl

module _ (w : Machine) where
  spawn-Serves : (m : SwapManager) (qs : List Process) → Serves (spawn w m qs)
  unfolding spawn ensure_proxy is_running
  spawn-Serves m qs =
      if-cases Serves (not w.spawns) (λ k. λ f. absurd cc)
        (λ k.
          if-cases Serves (not w.survives) (λ k. λ f. absurd cc)
            (λ k. λ f.
              let q = swap_process w m (w.next_pid qs) in
              if-cases (λ (o : SwapManager × Option Fault). has_process o.0.proc (q ∷ qs) ≡ true)
                (has_process (some q.pid) (q ∷ qs)) (λ l. find_pid-new q qs)
                (λ l. find_pid-new q qs)))

  start-Serves : (m : SwapManager) (qs : List Process) → Serves (start w m qs)
  unfolding start start_clear
  start-Serves m qs =
      if-cases Serves (not w.bin_exists) (λ k. λ f. absurd cc)
        (λ k.
          let (m', qs') = reclaim_previous_instance w m qs in
          if-cases Serves (w.in_use (listen_port m') qs') (λ k. λ f. absurd cc)
            (λ k. spawn-Serves m' qs'))

  reload-Serves :
      (m : SwapManager) (qs : List Process) → is_running m qs ≡ true → Serves (reload w m qs)
  unfolding reload
  reload-Serves m qs h =
      if-cases Serves w.is_windows (λ k. start-Serves (stop m qs).0 (stop m qs).1) (λ k. λ f. h)

  module _ (show : ℕ → String) (server_bin : String) where
    after_write-Serves :
        (model_id : String) (model : Model) (e : ConfigWrite) (m : SwapManager) (qs : List Process)
        → let out =
            after_write w
              (write_config show server_bin e
                (record m { models = insert model_id model m.models }))
              qs in
          Serves out × (lookup model_id out.0.models ≡ some model)
    unfolding after_write write_config is_running
    after_write-Serves model_id model (config_failed left) m qs =
        (λ f. absurd cc, lookup-insert_self model_id model m.models)
    after_write-Serves model_id model config_written m qs =
        let m' =
          (write_config show server_bin config_written
            (record m { models = insert model_id model m.models })).0 in
        let there : lookup model_id m'.models ≡ some model =
          lookup-insert_self model_id model m.models in
        if-cases (λ (o : Outcome). Serves o × (lookup model_id o.0.models ≡ some model))
          (is_running m' qs)
          (λ k. (reload-Serves m' qs k, ap (lookup model_id) (reload-Keeps w m' qs).0 ∙ there))
          (λ k. (start-Serves m' qs, ap (lookup model_id) (start-Keeps w m' qs).0 ∙ there))

    set_model-Serves :
        (model_id : String) (model : Model) (m : SwapManager) (qs : List Process)
        → let out = set_model w show server_bin model_id model m qs in
          Serves out × (lookup model_id out.0.models ≡ some model)
    unfolding set_model
    set_model-Serves model_id model m qs = after_write-Serves model_id model w.config_write m qs

    -- An idle time that is no integer, or an integer below -1, is refused and nothing changes.
    -- Else the model is registered with the given one, or with 300 seconds where none is given,
    -- also where the file of models cannot be written or llama-swap then fails to start or to
    -- reload; and where the call raises nothing, llama-swap runs.
    pub add_model-Serves :
        (model_id path : String) (args : List String) (env : Dict String) (ttl : Ttl)
        (m : SwapManager) (qs : List Process)
        → let out = add_model w show server_bin model_id path args env ttl m qs in
          ((t : ℤ) × IsStored ttl t
            × Serves out
            × (lookup model_id out.0.models
                ≡ some (record { path = path; args = args; env = env; ttl = t })))
          ⊎ (IsBad ttl × (out ≡ (m, qs, some bad_ttl)))
    unfolding add_model add_checked
    add_model-Serves model_id path args env ttl m qs = go (checked_ttl ttl) (checked_ttl-Checks ttl)
      where
        go :
            (o : Option ℤ)
            → Checks ttl o
            → let out = add_checked w show server_bin model_id path args env o m qs in
              ((t : ℤ) × IsStored ttl t
                × Serves out
                × (lookup model_id out.0.models
                    ≡ some (record { path = path; args = args; env = env; ttl = t })))
              ⊎ (IsBad ttl × (out ≡ (m, qs, some bad_ttl)))
        go none e = inr (e, refl)
        go (some t) e =
            let (serves, there) =
              set_model-Serves model_id (record { path = path; args = args; env = env; ttl = t }) m
                qs in
            inl (t, e, serves, there)

    remove_rest-IsDown :
        (ms : Dict Model) (m : SwapManager) (qs : List Process)
        → ms ≡ []
        → m.models ≡ []
        → IsDown (remove_rest w show server_bin ms m qs)
    unfolding remove_rest stop_proxy is_running
    remove_rest-IsDown [] m qs e h = (
      refl,
      (stop-Keeps (stop_proxy m) qs).0 ∙ h,
      stop-stopped (stop_proxy m) qs,
      proxy-stop (stop_proxy m) qs,
      refl,
      refl,
    )
    remove_rest-IsDown (x ∷ xs) m qs e h = absurd cc

    -- The removal of the last model never fails and leaves nothing: no llama-swap, no proxy, no
    -- file of models, and the manager is no longer the one of its host and port.
    pub remove_model-last :
        (model_id : String) (m : SwapManager) (qs : List Process)
        → has model_id m.models ≡ true
        → erase model_id m.models ≡ []
        → IsDown (remove_model w show server_bin model_id m qs)
    unfolding remove_model
    remove_model-last model_id m qs h e =
        let ms = erase model_id m.models in
        if-cases IsDown (not (has model_id m.models)) (λ k. absurd (ground (arith, h, k)))
          (λ k. remove_rest-IsDown ms (record m { models = ms }) qs e e)
