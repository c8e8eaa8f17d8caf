-- ===== src/SwapManager/Kept.antt =====
-- What starting and stopping leaves of a manager: plugins/language_model/swap_manager.py.
use locai_link.Base.{
  ℕ, true, not, ◌≡◌, refl, Option, none, some, List, arith, inl, inr, ◌⊎◌, ◌∙◌, [], ◌∷◌, ap, sym,
  eqb_iff, Bool-cases, if-cases, is_some, eqb,
}
use locai_link.SwapManager.{SwapManager, listen_port}
use locai_link.SwapManager.Processes.{
  Process, Machine, Ending, stopped, gone, not_stopped, Fault, Outcome, is_running, find_pid, stop,
  reclaim, reclaim_previous_instance, spawn, start, start_clear, reload, ensure_proxy, stop_pid,
  reclaim_found, reclaim_pid, looks_like_our_llama_swap, end_pid, end_process, clear_pid,
  swap_process,
}

-- The models, the file and the port are those of the other manager.
abbrev pub Keeps : SwapManager → SwapManager → Type 0
Keeps m m' = (m'.models ≡ m.models) × (m'.config ≡ m.config) × (m'.port ≡ m.port)

pub Keeps-trans : (l m n : SwapManager) → Keeps l m → Keeps m n → Keeps l n
Keeps-trans l m n (a, b, c) (d, e, f) = (d ∙ a, e ∙ b, f ∙ c)

pub stop-Keeps : (m : SwapManager) (qs : List Process) → Keeps m (stop m qs).0
unfolding stop stop_pid
stop-Keeps m qs = go m.proc
  where
    go : (o : Option ℕ) → Keeps m (stop_pid m qs o).0
    go none = (refl, refl, refl)
    go (some n) =
        if-cases (λ (o : SwapManager × List Process). Keeps m o.0) (is_some (find_pid n qs))
          (λ h. (refl, refl, refl)) (λ h. (refl, refl, refl))

-- What the reclaim of an earlier process may do.
abbrev pub Reclaims : Machine → SwapManager → List Process → SwapManager × List Process → Type 0
Reclaims w m qs out =
    (out ≡ (m, qs))
    ⊎ (out ≡ (clear_pid m, qs))
    ⊎ ((n : ℕ) × (q : Process) × (find_pid n qs ≡ some q)
        × (looks_like_our_llama_swap w m.port q ≡ true)
        × (out ≡ (clear_pid m, end_pid n qs)))

found_pid : (n : ℕ) (qs : List Process) (q : Process) → find_pid n qs ≡ some q → q.pid ≡ n
found_pid n [] q h = absurd cc
found_pid n (p ∷ ps) q h = elim (Bool-cases (eqb p.pid n)) [
  | inl here ↦
      let e : some p ≡ some q = rw (here) at h in
      let same : p ≡ q = cc in ap (λ x. x.pid) (sym same) ∙ (eqb_iff p.pid n).0 here
  | inr further ↦ found_pid n ps q (rw (further) at h)
]

module _ (w : Machine) where
  end_process-Reclaims :
      (m : SwapManager) (qs : List Process) (n : ℕ) (q : Process) (e : Ending)
      → find_pid n qs ≡ some q
      → looks_like_our_llama_swap w m.port q ≡ true
      → Reclaims w m qs (end_process m qs q e)
  unfolding end_process
  end_process-Reclaims m qs n q stopped found ours =
      inr (inr (n, q, found, ours, ap (λ k. (clear_pid m, end_pid k qs)) (found_pid n qs q found)))
  end_process-Reclaims m qs n q gone found ours =
      inr (inr (n, q, found, ours, ap (λ k. (clear_pid m, end_pid k qs)) (found_pid n qs q found)))
  end_process-Reclaims m qs n q not_stopped found ours = inl refl

  reclaim_found-Reclaims :
      (m : SwapManager) (qs : List Process) (n : ℕ) (o : Option Process)
      → find_pid n qs ≡ o
      → Reclaims w m qs (reclaim_found w m qs o)
  unfolding reclaim_found reclaim
  reclaim_found-Reclaims m qs n none found = inr (inl refl)
  reclaim_found-Reclaims m qs n (some q) found =
      if-cases (Reclaims w m qs) (not (w.inspectable q)) (λ h. inr (inl refl))
        (λ h.
          if-cases (Reclaims w m qs) (not (looks_like_our_llama_swap w m.port q))
            (λ k. inr (inl refl))
            (λ k. end_process-Reclaims m qs n q (w.ending q) found (ground (arith, k))))

  pub reclaim_previous_instance-Reclaims :
      (m : SwapManager) (qs : List Process) → Reclaims w m qs (reclaim_previous_instance w m qs)
  unfolding reclaim_previous_instance reclaim_pid
  reclaim_previous_instance-Reclaims m qs = go m.pidfile
    where
      go : (o : Option ℕ) → Reclaims w m qs (reclaim_pid w m qs o)
      go none = inl refl
      go (some n) = reclaim_found-Reclaims m qs n _ refl

  pub ensure_proxy-Keeps : (m : SwapManager) (qs : List Process) → Keeps m (ensure_proxy w m qs).0
  unfolding ensure_proxy
  ensure_proxy-Keeps m qs =
      if-cases (λ (o : SwapManager × Option Fault). Keeps m o.0) (is_running m qs)
        (λ h. (refl, refl, refl)) (λ h. (refl, refl, refl))

  spawn-Keeps : (m : SwapManager) (qs : List Process) → Keeps m (spawn w m qs).0
  unfolding spawn
  spawn-Keeps m qs =
      if-cases (λ (o : Outcome). Keeps m o.0) (not w.spawns) (λ h. (refl, refl, refl))
        (λ h.
          if-cases (λ (o : Outcome). Keeps m o.0) (not w.survives) (λ k. (refl, refl, refl))
            (λ k.
              ensure_proxy-Keeps
                (record m { proc = some (w.next_pid qs); pidfile = some (w.next_pid qs) })
                (swap_process w m (w.next_pid qs) ∷ qs)))

  Reclaims-Keeps :
      (m : SwapManager) (qs : List Process) (out : SwapManager × List Process)
      → Reclaims w m qs out
      → Keeps m out.0
  Reclaims-Keeps m qs out (inl e) = rw (e) (refl, refl, refl)
  Reclaims-Keeps m qs out (inr (inl e)) = rw (e) (refl, refl, refl)
  Reclaims-Keeps m qs out (inr (inr (n, q, found, ours, e))) = rw (e) (refl, refl, refl)

  start_clear-Keeps :
      (m : SwapManager) (out : SwapManager × List Process)
      → Keeps m out.0
      → Keeps m (start_clear w out).0
  unfolding start_clear
  start_clear-Keeps m (m', qs') kept =
      if-cases (λ (o : Outcome). Keeps m o.0) (w.in_use (listen_port m') qs') (λ h. kept)
        (λ h. Keeps-trans m m' (spawn w m' qs').0 kept (spawn-Keeps m' qs'))

  pub start-Keeps : (m : SwapManager) (qs : List Process) → Keeps m (start w m qs).0
  unfolding start
  start-Keeps m qs =
      if-cases (λ (o : Outcome). Keeps m o.0) (not w.bin_exists) (λ h. (refl, refl, refl))
        (λ h.
          start_clear-Keeps m _ (Reclaims-Keeps m qs _ (reclaim_previous_instance-Reclaims m qs)))

  pub reload-Keeps : (m : SwapManager) (qs : List Process) → Keeps m (reload w m qs).0
  unfolding reload
  reload-Keeps m qs =
      if-cases (λ (o : Outcome). Keeps m o.0) w.is_windows
        (λ h.
          Keeps-trans m (stop m qs).0 (start w (stop m qs).0 (stop m qs).1).0 (stop-Keeps m qs)
            (start-Keeps (stop m qs).0 (stop m qs).1))
        (λ h. (refl, refl, refl))
