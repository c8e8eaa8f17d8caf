-- ===== src/Runtime/Pending.antt =====
-- The removals that Control has not heard of: src/link/app/runtime.py, the queue that is flushed
-- by the main loop.
use mathlib.Core.Path.{subst}
use text.Mathlib.Text.{starts_with}
use locai_link.Base.{
  ℕ, zero, suc, ◌≤◌, ◌<◌, sym, String, Bool, true, false, some, ◌≢◌, eqb, List, [], ◌∷◌, ◌++◌, ◌≡◌,
  refl, arith, ◌⊎◌, inl, inr, elem, eq_iff, eq_refl, ◌==◌, Bool-cases, ap, ◌∙◌,
}
use locai_link.Config.{AgentConfig}
use locai_link.Runtime.{AgentRuntime, Env, PostReply, answered, post_failed, tick}
use locai_link.Runtime.Models.{
  save_pending, queue_pending, report_uninstalled, undelivered, flush_pending, save_changed,
  same_ids, post_uninstall_report, can_report, is_given, is_https, accepts, rstrip_slashes,
}

elem-append_last : (x : String) (xs : List String) → elem x (xs ++ x ∷ []) ≡ true
elem-append_last x [] = ground (arith, eq_refl x)
elem-append_last x (y ∷ ys) = ground (arith, elem-append_last x ys)

-- Control has the report, or has no such model.
abbrev pub Took : PostReply → Type 0
Took (answered status) = (status ≡ 200) ⊎ (status ≡ 404)
Took post_failed = ⊥

-- The device has an id and a key, and an address of Control that is an https one.
abbrev pub Tells : AgentConfig → Type 0
Tells c =
    (url : String) × (key : String) × (c.identity.api_url ≡ some url)
    × (c.identity.api_key ≡ some key)
    × (url ≢ "")
    × (key ≢ "")
    × (c.identity.device_id ≢ "")
    × (starts_with (rstrip_slashes url) "https://" ≡ true)

Tells-can_report : (c : AgentConfig) → Tells c → can_report c ≡ true
unfolding can_report is_given is_https
Tells-can_report c (url, key, u, k, a, b, d, https) =
    ground
      (arith, u, k, a, b, d, https, eq_iff url "", eq_iff key "", eq_iff c.identity.device_id "")

accepts-Took : (p : PostReply) → accepts p ≡ true → Took p
unfolding accepts
accepts-Took (answered status) h = elim (Bool-cases (eqb status 200)) [
  | inl e ↦ inl (ground (arith, e))
  | inr e ↦ inr (ground (arith, e, h))
]
accepts-Took post_failed h = absurd cc

module _ (env : Env) where
  post-Took :
      (m : String) (r : AgentRuntime)
      → Tells r.agent_config
      → post_uninstall_report env m r ≡ true
      → Took (env.posts r.now m)
  unfolding post_uninstall_report
  post-Took m r t h = accepts-Took (env.posts r.now m) (rw (Tells-can_report r.agent_config t) at h)

  -- Between these times, Control took the report of this model, or a save of the queue failed.
  abbrev pub Delivered : String → ℕ → ℕ → Type 0
  Delivered m from until = (n : ℕ) × (from ≤ n) × (n < until) × Took (env.posts n m)

  abbrev pub SaveFailed : ℕ → ℕ → Type 0
  SaveFailed from until = (n : ℕ) × (from ≤ n) × (n < until) × (env.saves n ≡ false)

  -- What may have become of a removal between two states.
  abbrev pub Accounted : String → AgentRuntime → AgentRuntime → Type 0
  Accounted m r r' =
      Delivered m r.now r'.now ⊎ ((elem m r'.pending_uninstalls ≡ true) ⊎ SaveFailed r.now r'.now)

  save_pending_ends :
      (queued : List String) (r : AgentRuntime)
      → ((save_pending env queued r).now ≡ suc r.now)
        × ((save_pending env queued r).agent_config ≡ r.agent_config)
        × (((save_pending env queued r).pending_uninstalls ≡ queued)
            ⊎ ((env.saves r.now ≡ false)
                × ((save_pending env queued r).pending_uninstalls ≡ r.pending_uninstalls)))
  unfolding save_pending tick
  save_pending_ends queued r = ground arith

  -- A removal that began on this device and is reported to Control was delivered, or it waits in
  -- the queue, or the queue could not be saved.
  report_uninstalled-Accounted :
      (cid pid : String) (r : AgentRuntime)
      → starts_with cid "loopback-" ≡ true
      → Tells r.agent_config
      → Accounted pid r (report_uninstalled env cid pid r)
  unfolding report_uninstalled queue_pending tick
  report_uninstalled-Accounted cid pid r h t =
      let queued = r.pending_uninstalls ++ pid ∷ [] in
      let (later, kept, saved) = save_pending_ends queued (tick r) in
      elim (Bool-cases (post_uninstall_report env pid r)) [
        | inl ok ↦ inl (rw (h, ok) (r.now, omega arith, omega arith, post-Took pid r t ok))
        | inr bad ↦ elim (Bool-cases (elem pid r.pending_uninstalls)) [
          | inl known ↦ inr (inl (rw (h, bad, known) known))
          | inr new ↦ elim saved [
            | inl done ↦ inr (
                inl (
                  rw (h, bad, new)
                    (ap (elem pid) done ∙ elem-append_last pid r.pending_uninstalls)))
            | inr (failed, same) ↦
                inr (inr (rw (h, bad, new) (suc r.now, omega arith, omega (arith, later), failed)))
          ]
        ]
      ]

  undelivered_quiet :
      (ms : List String) (r : AgentRuntime)
      → (r.now ≤ (undelivered env ms r).0.now)
        × ((undelivered env ms r).0.pending_uninstalls ≡ r.pending_uninstalls)
        × ((undelivered env ms r).0.agent_config ≡ r.agent_config)
  unfolding undelivered tick
  undelivered_quiet [] r = (omega arith, refl, refl)
  undelivered_quiet (m ∷ ms) r =
      let (later, same, config) = undelivered_quiet ms (tick r) in
      (omega (arith, later), same, config)

  undelivered_ends :
      (m : String) (ms : List String) (r : AgentRuntime)
      → elem m ms ≡ true
      → Tells r.agent_config
      → Delivered m r.now (undelivered env ms r).0.now ⊎ (elem m (undelivered env ms r).1 ≡ true)
  unfolding undelivered tick
  undelivered_ends m [] r h t = cc
  undelivered_ends m (x ∷ xs) r h t =
      let after = (undelivered_quiet xs (tick r)).0 in
      elim (Bool-cases (x == m)) [
        | inl same ↦ elim (Bool-cases (post_uninstall_report env x r)) [
          | inl ok ↦ inl (
            r.now,
            omega arith,
            omega (arith, after),
            subst (λ y. Took (env.posts r.now y)) ((eq_iff x m).0 same) (post-Took x r t ok),
          )
          | inr bad ↦ inr (rw bad (ground (arith, same)))
        ]
        | inr other ↦ elim (undelivered_ends m xs (tick r) (ground (arith, h, other)) t) [
          | inl (n, lo, hi, d) ↦ inl (n, omega (arith, lo), hi, d)
          | inr kept ↦ inr (ground (arith, kept))
        ]
      ]

  save_changed_ends :
      (b : Bool) (queued : List String) (r : AgentRuntime)
      → let out = save_changed env b queued r in
        (r.now ≤ out.now)
        × (out.agent_config ≡ r.agent_config)
        × ((out.pending_uninstalls ≡ queued) ⊎ (out.pending_uninstalls ≡ r.pending_uninstalls))
  unfolding save_changed
  save_changed_ends true queued r = (omega arith, refl, inr refl)
  save_changed_ends false queued r =
      let (later, config, saved) = save_pending_ends queued r in
      (
        omega (arith, later),
        config,
        elim saved [ inl done ↦ inl done | inr (failed, same) ↦ inr same ],
      )

  flush_pending-Accounted :
      (m : String) (r : AgentRuntime)
      → elem m r.pending_uninstalls ≡ true
      → Tells r.agent_config
      → Delivered m r.now (flush_pending env r).now
        ⊎ (elem m (flush_pending env r).pending_uninstalls ≡ true)
  unfolding flush_pending
  flush_pending-Accounted m r h t =
      let (r', remaining) = undelivered env r.pending_uninstalls r in
      let b = same_ids remaining r.pending_uninstalls in
      let (later, config, saved) = save_changed_ends b remaining r' in
      elim (undelivered_ends m r.pending_uninstalls r h t) [
        | inl (n, lo, hi, d) ↦ inl (n, lo, omega (arith, hi, later), d)
        | inr kept ↦ elim saved [
          | inl done ↦ inr (ap (elem m) done ∙ kept)
          | inr same ↦ inr (ap (elem m) (same ∙ (undelivered_quiet r.pending_uninstalls r).1) ∙ h)
        ]
      ]

  -- The main loop flushes the queue again and again.
  abbrev pub flush_times : ℕ → AgentRuntime → AgentRuntime
  flush_times zero r = r
  flush_times (suc k) r = flush_times k (flush_pending env r)

  flush_later :
      (r : AgentRuntime)
      → (r.now ≤ (flush_pending env r).now) × ((flush_pending env r).agent_config ≡ r.agent_config)
  unfolding flush_pending
  flush_later r =
      let (r', remaining) = undelivered env r.pending_uninstalls r in
      let (later, same, config) = undelivered_quiet r.pending_uninstalls r in
      let (after, config', saved) =
        save_changed_ends (same_ids remaining r.pending_uninstalls) remaining r' in
      (omega (arith, later, after), config' ∙ config)

  flush_times_later : (k : ℕ) (r : AgentRuntime) → r.now ≤ (flush_times k r).now
  flush_times_later zero r = omega arith
  flush_times_later (suc k) r =
      omega (arith, (flush_later r).0, flush_times_later k (flush_pending env r))

  flush_times-Delivered :
      (k : ℕ) (m : String) (r : AgentRuntime)
      → elem m r.pending_uninstalls ≡ true
      → Tells r.agent_config
      → Delivered m r.now (flush_times k r).now
        ⊎ (elem m (flush_times k r).pending_uninstalls ≡ true)
  flush_times-Delivered zero m r h t = inr h
  flush_times-Delivered (suc k) m r h t =
      let r' = flush_pending env r in
      let after = flush_times_later k r' in
      elim (flush_pending-Accounted m r h t) [
        | inl (n, lo, hi, d) ↦ inl (n, lo, omega (arith, hi, after), d)
        | inr kept ↦
            elim (flush_times-Delivered k m r' kept (subst Tells (sym (flush_later r).1) t)) [
              | inl (n, lo, hi, d) ↦ inl (n, omega (arith, lo, (flush_later r).0), hi, d)
              | inr still ↦ inr still
            ]
      ]

  report_later :
      (cid pid : String) (r : AgentRuntime)
      → (r.now ≤ (report_uninstalled env cid pid r).now)
        × ((report_uninstalled env cid pid r).agent_config ≡ r.agent_config)
  unfolding report_uninstalled queue_pending tick
  report_later cid pid r =
      ground (arith, save_pending_ends (r.pending_uninstalls ++ pid ∷ []) (tick r))

  -- On a device with an id, a key and an https address of Control: a removal that began on this
  -- device, once it is to be reported and after any number of flushes of the queue: Control
  -- answered its report with 200 or 404 at some call in between, or it still waits in the queue,
  -- or a save of the queue in between failed. (Without these data no report is ever sent.)
  pub removal_not_lost :
      (cid pid : String) (k : ℕ) (r : AgentRuntime)
      → starts_with cid "loopback-" ≡ true
      → Tells r.agent_config
      → Accounted pid r (flush_times k (report_uninstalled env cid pid r))
  removal_not_lost cid pid k r h t =
      let r' = report_uninstalled env cid pid r in
      let after = flush_times_later k r' in
      let (before, config) = report_later cid pid r in
      elim (report_uninstalled-Accounted cid pid r h t) [
        | inl (n, lo, hi, d) ↦ inl (n, lo, omega (arith, hi, after), d)
        | inr (inr (n, lo, hi, f)) ↦ inr (inr (n, lo, omega (arith, hi, after), f))
        | inr (inl queued) ↦
            elim (flush_times-Delivered k pid r' queued (subst Tells (sym config) t)) [
              | inl (n, lo, hi, d) ↦ inl (n, omega (arith, lo, before), hi, d)
              | inr still ↦ inr (inl still)
            ]
      ]
