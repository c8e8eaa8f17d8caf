-- ===== src/SwapManager/Synced.antt =====
-- What the configuration file says: plugins/language_model/swap_manager.py, `_write_config` through
-- any sequence of calls.
use locai_link.Base.{
  ℕ, zero, suc, ◌+◌, String, ◌≡◌, refl, Option, none, some, List, [], ◌∷◌, ◌⊎◌, inl, inr, arith, ap,
  sym, ◌∙◌, map, length, if-cases, Bool, true, false, Bool-cases, if◌then◌else◌,
}
use locai_link.Dict.{Dict, keys, has, erase}
use locai_link.SwapManager.{
  SwapManager, Model, SwapConfig, ConfigWrite, config_written, config_failed, ℤ, new_manager, entry,
  entries, swap_config, write_config, add_telemetry_callback, remove_telemetry_callback,
  has_callback,
}
use locai_link.SwapManager.Processes.{
  Process, Machine, Outcome, Fault, bad_ttl, config_not_written, stop, stop_proxy, start, reload,
  ensure_proxy, is_running,
}
use locai_link.SwapManager.Kept.{Keeps, stop-Keeps, start-Keeps, reload-Keeps, ensure_proxy-Keeps}
use locai_link.SwapManager.Models.{
  Op, add, remove, shut_down, front, subscribe, unsubscribe, perform, add_model, add_checked,
  set_model, after_write, after_rewrite, remove_model, remove_rest, shutdown, checked_ttl,
}

-- The numbers from `n` on, `k` of them.
abbrev pub upward : ℕ → ℕ → List ℕ
upward n zero = []
upward n (suc k) = n ∷ upward (suc n) k

abbrev pub ports : SwapConfig → List ℕ
ports c = map (λ e. e.1.internal_port) c

-- The exceptions of a write that failed, and of an idle time that is refused.
abbrev fails_write : Option Fault → Bool
fails_write (some config_not_written) = true
fails_write _ = false

abbrev refuses_ttl : Option Fault → Bool
refuses_ttl (some bad_ttl) = true
refuses_ttl _ = false

-- Whether an earlier write that failed is still the last one after a call that fails no write: it
-- is not after a model was added, or one that was there was removed.
abbrev left_stale : Op → SwapManager → Option Fault → Bool → Bool
left_stale (add model_id path args env ttl) m fault s = if refuses_ttl fault then s else false
left_stale (remove model_id) m fault s = if has model_id m.models then false else s
left_stale shut_down m fault s = s
left_stale front m fault s = s
left_stale (subscribe cb) m fault s = s
left_stale (unsubscribe cb) m fault s = s

module _ (show : ℕ → String) (server_bin : String) where
  -- With a model in it, the manager's file is the one of its models.
  abbrev pub IsSynced : SwapManager → Type 0
  IsSynced m = (m.models ≡ []) ⊎ (m.config ≡ some (swap_config show server_bin m))

  keys-entries : (n : ℕ) (ms : Dict Model) → keys (entries show server_bin n ms) ≡ keys ms
  unfolding entries
  keys-entries n [] = refl
  keys-entries n ((k, m) ∷ ms) = ap (◌∷◌ k) (keys-entries (suc n) ms)

  ports-entries :
      (n : ℕ) (ms : Dict Model) → ports (entries show server_bin n ms) ≡ upward n (length ms)
  unfolding entries entry
  ports-entries n [] = refl
  ports-entries n ((k, m) ∷ ms) = ap (◌∷◌ n) (ports-entries (suc n) ms)

  Keeps-IsSynced : (m m' : SwapManager) → Keeps m m' → IsSynced m → IsSynced m'
  unfolding swap_config
  Keeps-IsSynced m m' (a, b, c) (inl e) = inl (a ∙ e)
  Keeps-IsSynced m m' (a, b, c) (inr e) = inr (
      b
      ∙ e
      ∙ ap some (
          ap (λ p. entries show server_bin (p + 50 + 100) m.models) (sym c)
          ∙ ap (entries show server_bin (m'.port + 50 + 100)) (sym a)))

  -- Synced, unless the last write failed; and that after a call, by its exception.
  abbrev Holds : Bool → SwapManager → Type 0
  Holds s m = (s ≡ true) ⊎ IsSynced m

  abbrev Written : Bool → Outcome → Type 0
  Written s (m, qs, fault) = Holds (if fails_write fault then true else s) m

  Holds-Keeps : (s : Bool) (m m' : SwapManager) → Keeps m m' → Holds s m → Holds s m'
  Holds-Keeps s m m' k (inl e) = inl e
  Holds-Keeps s m m' k (inr h) = inr (Keeps-IsSynced m m' k h)

  Holds-Written : (s : Bool) (out : Outcome) → Holds s out.0 → Written s out
  Holds-Written s (m, qs, fault) h =
      if-cases (λ b. Holds b m) (fails_write fault) (λ k. inl refl) (λ k. h)

  module _ (w : Machine) where
    after_write-Written :
        (e : ConfigWrite) (s : Bool) (m : SwapManager) (qs : List Process)
        → Written s (after_write w (write_config show server_bin e m) qs)
    unfolding after_write write_config swap_config
    after_write-Written (config_failed left) s m qs = inl refl
    after_write-Written config_written s m qs =
        let m' = (write_config show server_bin config_written m).0 in
        if-cases (Written s) (is_running m' qs)
          (λ k. inr (Keeps-IsSynced m' (reload w m' qs).0 (reload-Keeps w m' qs) (inr refl)))
          (λ k. inr (Keeps-IsSynced m' (start w m' qs).0 (start-Keeps w m' qs) (inr refl)))

    after_rewrite-Written :
        (e : ConfigWrite) (s : Bool) (m : SwapManager) (qs : List Process)
        → Written s (after_rewrite w (write_config show server_bin e m) qs)
    unfolding after_rewrite write_config swap_config
    after_rewrite-Written (config_failed left) s m qs = inl refl
    after_rewrite-Written config_written s m qs =
        let m' = (write_config show server_bin config_written m).0 in
        if-cases (Written s) (is_running m' qs)
          (λ k. inr (Keeps-IsSynced m' (reload w m' qs).0 (reload-Keeps w m' qs) (inr refl)))
          (λ k. inr (inr refl))

    add_checked-Written :
        (model_id path : String) (args : List String) (env : Dict String) (t : Option ℤ) (s : Bool)
        (m : SwapManager) (qs : List Process)
        → Holds s m
        → let out = add_checked w show server_bin model_id path args env t m qs in
          Written (if refuses_ttl out.2 then s else false) out
    unfolding add_checked set_model
    add_checked-Written model_id path args env none s m qs h = h
    add_checked-Written model_id path args env (some t) s m qs h =
        after_write-Written w.config_write _ _ qs

    remove_rest-Written :
        (ms : Dict Model) (m : SwapManager) (qs : List Process)
        → m.models ≡ ms
        → Written false (remove_rest w show server_bin ms m qs)
    unfolding remove_rest stop_proxy
    remove_rest-Written [] m qs e = inr (inl ((stop-Keeps (stop_proxy m) qs).0 ∙ e))
    remove_rest-Written (x ∷ xs) m qs e = after_rewrite-Written w.config_write false m qs

    perform-Written :
        (op : Op) (s : Bool) (m : SwapManager) (qs : List Process)
        → Holds s m
        → let out = perform w show server_bin op m qs in Written (left_stale op m out.2 s) out
    unfolding perform add_model remove_model shutdown add_telemetry_callback
        remove_telemetry_callback swap_config stop_proxy
    perform-Written (add model_id path args env ttl) s m qs h =
        add_checked-Written model_id path args env (checked_ttl ttl) s m qs h
    perform-Written (remove model_id) s m qs h =
        let ms = erase model_id m.models in
        elim (Bool-cases (has model_id m.models)) [
          | inl there ↦ rw (there) (remove_rest-Written ms (record m { models = ms }) qs refl)
          | inr missing ↦ rw (missing) h
        ]
    perform-Written shut_down s m qs h =
        Holds-Keeps s (stop_proxy m) (stop (stop_proxy m) qs).0 (stop-Keeps (stop_proxy m) qs) h
    perform-Written front s m qs h =
        Holds-Written s (perform w show server_bin front m qs)
          (Holds-Keeps s m (ensure_proxy w m qs).0 (ensure_proxy-Keeps w m qs) h)
    perform-Written (subscribe cb) s m qs h =
        if-cases (Holds s) (has_callback cb m.callbacks) (λ k. h) (λ k. h)
    perform-Written (unsubscribe cb) s m qs h = h

  -- One call after the other, each on its own machine with its own processes, in any state; and
  -- whether the last write of the file failed.
  abbrev pub run : List (Machine × List Process × Op) → SwapManager × Bool → SwapManager × Bool
  run [] m = m
  run ((w, qs, op) ∷ es) (m, stale) =
      let out = perform w show server_bin op m qs in
      run es (out.0, if fails_write out.2 then true else left_stale op m out.2 stale)

  run-Holds :
      (es : List (Machine × List Process × Op)) (m : SwapManager) (s : Bool)
      → Holds s m
      → Holds (run es (m, s)).1 (run es (m, s)).0
  run-Holds [] m s h = h
  run-Holds ((w, qs, op) ∷ es) m s h = run-Holds es _ _ (perform-Written w op s m qs h)

  -- What is claimed at the end; the flag says that the last write failed.
  abbrev pub EndsSynced : SwapManager → Bool → Type 0
  EndsSynced m stale =
      (stale ≡ true)
      ⊎ ((m.models ≡ [])
          ⊎ ((c : SwapConfig) × (m.config ≡ some c)
              × (keys c ≡ keys m.models)
              × (ports c ≡ upward (m.port + 150) (length m.models))))

  -- After any calls, whatever they met, unless the last write of the file failed: a new manager
  -- that has a model has the file of exactly its models, in order, each on a port of its own, the
  -- numbers that begin at 150 above the public port. So it has also where a call failed in
  -- another way, and as soon as a write succeeds again.
  pub run-Synced :
      (es : List (Machine × List Process × Op)) (port : ℕ) (origins : List String)
      (config : Option SwapConfig) (pidfile : Option ℕ)
      → EndsSynced
          (run es (new_manager port origins config pidfile, false)).0
          (run es (new_manager port origins config pidfile, false)).1
  unfolding new_manager swap_config
  run-Synced es port origins config pidfile =
      let m = (run es (new_manager port origins config pidfile, false)).0 in
      elim (run-Holds es (new_manager port origins config pidfile) false (inr (inl refl))) [
        | inl e ↦ inl e
        | inr (inl e) ↦ inr (inl e)
        | inr (inr e) ↦ inr (
            inr (
              swap_config show server_bin m,
              e,
              keys-entries _ m.models,
              ports-entries _ m.models ∙ ap (λ n. upward n (length m.models)) (omega arith),
            ))
      ]
