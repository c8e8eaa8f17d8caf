-- ===== src/SwapManager/Spared.antt =====
-- Which processes are ended: plugins/language_model/swap_manager.py.
use text.Mathlib.Text.{find?}
use locai_link.Base.{
  ℕ, String, true, false, not, ◌≡◌, ◌≢◌, Option, none, some, List, [], ◌∷◌, ◌⊎◌, inl, inr, ap, sym,
  ◌∙◌, Bool-cases, if-cases, is_some, eqb, eqb_iff, All, elem, refl, arith, ◌+◌,
}
use locai_link.Dict.{Dict, has, erase, insert}
use locai_link.SwapManager.{
  SwapManager, Model, ConfigWrite, config_written, config_failed, listen_port, write_config, ℤ,
}
use locai_link.SwapManager.Processes.{
  Process, Machine, Outcome, find_pid, end_pid, stop, stop_pid, stop_proxy, start, start_clear,
  spawn, reload, reclaim_previous_instance, looks_like_our_llama_swap, is_running, any_contains,
}
use locai_link.SwapManager.Kept.{stop-Keeps, Reclaims, reclaim_previous_instance-Reclaims}
use locai_link.SwapManager.Models.{
  Op, add, remove, shut_down, front, subscribe, unsubscribe, perform, add_model, add_checked,
  set_model, after_write, after_rewrite, remove_model, remove_rest, shutdown, checked_ttl,
}

-- The process is among those.
abbrev pub Has : Process → List Process → Type 0
Has q [] = ⊥
Has q (p ∷ ps) = (q ≡ p) ⊎ Has q ps

end_pid-Has_ne :
    (n : ℕ) (q : Process) (qs : List Process) → q.pid ≢ n → Has q qs → Has q (end_pid n qs)
unfolding end_pid
end_pid-Has_ne n q [] ne h = absurd h
end_pid-Has_ne n q (p ∷ ps) ne h =
    if-cases (Has q) (eqb p.pid n)
      (λ same. elim h [
        | inl e ↦ absurd (ne (ap (λ x. x.pid) e ∙ (eqb_iff p.pid n).0 same))
        | inr rest ↦ rest
      ])
      (λ other. elim h [ inl e ↦ inl e | inr rest ↦ inr (end_pid-Has_ne n q ps ne rest) ])

end_pid-Has :
    (n : ℕ) (q r : Process) (qs : List Process)
    → find_pid n qs ≡ some r
    → Has q qs
    → (q ≡ r) ⊎ Has q (end_pid n qs)
unfolding end_pid
end_pid-Has n q r [] found h = absurd h
end_pid-Has n q r (p ∷ ps) found h = elim (Bool-cases (eqb p.pid n)) [
  | inl same ↦
      let e : some p ≡ some r = rw (same) at found in
      let first : p ≡ r = cc in
      elim h [ inl here ↦ inl (here ∙ first) | inr rest ↦ inr (rw (same) rest) ]
  | inr other ↦ elim h [
    | inl here ↦ inr (rw (other) (inl here))
    | inr rest ↦ elim (end_pid-Has n q r ps (rw (other) at found) rest) [
      | inl e ↦ inl e
      | inr stays ↦ inr (rw (other) (inr stays))
    ]
  ]
]

-- A process that is not, by what it shows, this manager's earlier llama-swap.
abbrev pub IsForeign : Machine → ℕ → Process → Type 0
IsForeign w port q =
    (w.readable q ≡ false)
    ⊎ ((is_some (find? q.name "llama-swap") ≡ false)
        × All (λ x. is_some (find? x "llama-swap") ≡ false) q.cmdline)
    ⊎ ((elem (w.lower (w.config_path port)) q.cmdline ≡ false)
        × All (λ x. is_some (find? x (w.bind (port + 50))) ≡ false) q.cmdline)

module _ (w : Machine) (q : Process) where
  stop-Has :
      (m : SwapManager) (qs : List Process) → m.proc ≢ some q.pid → Has q qs → Has q (stop m qs).1
  unfolding stop stop_pid
  stop-Has m qs ne h = go m.proc ne
    where
      go : (o : Option ℕ) → o ≢ some q.pid → Has q (stop_pid m qs o).1
      go none d = h
      go (some n) d =
          if-cases (λ (o : SwapManager × List Process). Has q o.1) (is_some (find_pid n qs))
            (λ k. end_pid-Has_ne n q qs (λ e. d (ap some (sym e))) h) (λ k. h)

  Reclaims-Has :
      (m : SwapManager) (qs : List Process) (out : SwapManager × List Process)
      → looks_like_our_llama_swap w m.port q ≡ false
      → Has q qs
      → Reclaims w m qs out
      → Has q out.1
  Reclaims-Has m qs out foreign h (inl e) = rw (e) h
  Reclaims-Has m qs out foreign h (inr (inl e)) = rw (e) h
  Reclaims-Has m qs out foreign h (inr (inr (n, r, found, ours, e))) =
      elim (end_pid-Has n q r qs found h) [
        | inl same ↦ absurd (let bad : false ≡ true = sym foreign ∙ (rw (same) ours) in absurd cc)
        | inr stays ↦ rw (e) stays
      ]

  start-Has :
      (m : SwapManager) (qs : List Process)
      → looks_like_our_llama_swap w m.port q ≡ false
      → Has q qs
      → Has q (start w m qs).1
  unfolding start start_clear spawn
  start-Has m qs foreign h =
      if-cases (λ (o : Outcome). Has q o.1) (not w.bin_exists) (λ k. h)
        (λ k.
          let (m', qs') = reclaim_previous_instance w m qs in
          let left : Has q qs' =
            Reclaims-Has m qs _ foreign h (reclaim_previous_instance-Reclaims w m qs) in
          if-cases (λ (o : Outcome). Has q o.1) (w.in_use (listen_port m') qs') (λ k. left)
            (λ k.
              if-cases (λ (o : Outcome). Has q o.1) (not w.spawns) (λ k. left)
                (λ k.
                  if-cases (λ (o : Outcome). Has q o.1) (not w.survives) (λ k. left)
                    (λ k. inr left))))

  reload-Has :
      (m : SwapManager) (qs : List Process)
      → looks_like_our_llama_swap w m.port q ≡ false
      → m.proc ≢ some q.pid
      → Has q qs
      → Has q (reload w m qs).1
  unfolding reload
  reload-Has m qs foreign ne h =
      if-cases (λ (o : Outcome). Has q o.1) w.is_windows
        (λ k.
          start-Has (stop m qs).0 (stop m qs).1
            (ap (λ p. looks_like_our_llama_swap w p q) (stop-Keeps m qs).2 ∙ foreign)
            (stop-Has m qs ne h))
        (λ k. h)

  module _ (show : ℕ → String) (server_bin : String) where
    after_write-Has :
        (e : ConfigWrite) (m : SwapManager) (qs : List Process)
        → looks_like_our_llama_swap w m.port q ≡ false
        → m.proc ≢ some q.pid
        → Has q qs
        → Has q (after_write w (write_config show server_bin e m) qs).1
    unfolding after_write write_config
    after_write-Has config_written m qs foreign ne h =
        let m' = (write_config show server_bin config_written m).0 in
        if-cases (λ (o : Outcome). Has q o.1) (is_running m' qs)
          (λ k. reload-Has m' qs foreign ne h) (λ k. start-Has m' qs foreign h)
    after_write-Has (config_failed left) m qs foreign ne h = h

    after_rewrite-Has :
        (e : ConfigWrite) (m : SwapManager) (qs : List Process)
        → looks_like_our_llama_swap w m.port q ≡ false
        → m.proc ≢ some q.pid
        → Has q qs
        → Has q (after_rewrite w (write_config show server_bin e m) qs).1
    unfolding after_rewrite write_config
    after_rewrite-Has config_written m qs foreign ne h =
        let m' = (write_config show server_bin config_written m).0 in
        if-cases (λ (o : Outcome). Has q o.1) (is_running m' qs)
          (λ k. reload-Has m' qs foreign ne h) (λ k. h)
    after_rewrite-Has (config_failed left) m qs foreign ne h = h

    set_model-Has :
        (model_id : String) (model : Model) (m : SwapManager) (qs : List Process)
        → looks_like_our_llama_swap w m.port q ≡ false
        → m.proc ≢ some q.pid
        → Has q qs
        → Has q (set_model w show server_bin model_id model m qs).1
    unfolding set_model
    set_model-Has model_id model m qs foreign ne h =
        after_write-Has w.config_write (record m { models = insert model_id model m.models }) qs
          foreign ne h

    add_checked-Has :
        (model_id path : String) (args : List String) (env : Dict String) (t : Option ℤ)
        (m : SwapManager) (qs : List Process)
        → looks_like_our_llama_swap w m.port q ≡ false
        → m.proc ≢ some q.pid
        → Has q qs
        → Has q (add_checked w show server_bin model_id path args env t m qs).1
    unfolding add_checked
    add_checked-Has model_id path args env none m qs foreign ne h = h
    add_checked-Has model_id path args env (some t) m qs foreign ne h =
        set_model-Has model_id _ m qs foreign ne h

    remove_rest-Has :
        (ms : Dict Model) (m : SwapManager) (qs : List Process)
        → looks_like_our_llama_swap w m.port q ≡ false
        → m.proc ≢ some q.pid
        → Has q qs
        → Has q (remove_rest w show server_bin ms m qs).1
    unfolding remove_rest stop_proxy
    remove_rest-Has [] m qs foreign ne h = stop-Has (stop_proxy m) qs ne h
    remove_rest-Has (e ∷ es) m qs foreign ne h = after_rewrite-Has w.config_write m qs foreign ne h

  any_contains-none :
      (t : String) (xs : List String)
      → All (λ x. is_some (find? x t) ≡ false) xs
      → any_contains t xs ≡ false
  unfolding any_contains
  any_contains-none t [] h = refl
  any_contains-none t (x ∷ xs) h = ground (arith, h.0, any_contains-none t xs h.1)

  IsForeign-looks : (port : ℕ) → IsForeign w port q → looks_like_our_llama_swap w port q ≡ false
  unfolding looks_like_our_llama_swap
  IsForeign-looks port (inl hidden) = rw (hidden) refl
  IsForeign-looks port (inr (inl (a, b))) =
      ground (arith, a, any_contains-none "llama-swap" q.cmdline b)
  IsForeign-looks port (inr (inr (a, b))) =
      ground (arith, a, any_contains-none (w.bind (port + 50)) q.cmdline b)

  -- Whatever is asked of a manager, it ends no process but the one that it started itself, as
  -- long as the process does not show its command line, or has `llama-swap` neither in its name
  -- nor in an argument, or has neither the path of this manager's file as an argument nor this
  -- manager's address in one. (A longer address that begins with it contains it.)
  pub perform-Has :
      (show : ℕ → String) (server_bin : String) (op : Op) (m : SwapManager) (qs : List Process)
      → IsForeign w m.port q
      → m.proc ≢ some q.pid
      → Has q qs
      → Has q (perform w show server_bin op m qs).1
  unfolding perform add_model remove_model shutdown stop_proxy
  perform-Has show bin (add model_id path args env ttl) m qs f ne h =
      let foreign = IsForeign-looks m.port f in
      add_checked-Has show bin model_id path args env (checked_ttl ttl) m qs foreign ne h
  perform-Has show bin (remove model_id) m qs f ne h =
      let foreign = IsForeign-looks m.port f in
      let ms = erase model_id m.models in
      if-cases (λ (o : Outcome). Has q o.1) (not (has model_id m.models)) (λ k. h)
        (λ k. remove_rest-Has show bin ms (record m { models = ms }) qs foreign ne h)
  perform-Has show bin shut_down m qs foreign ne h = stop-Has (stop_proxy m) qs ne h
  perform-Has show bin front m qs foreign ne h = h
  perform-Has show bin (subscribe cb) m qs foreign ne h = h
  perform-Has show bin (unsubscribe cb) m qs foreign ne h = h
