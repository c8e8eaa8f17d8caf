-- ===== src/Health/Guarded.antt =====
-- What a request can do: src/link/infra/health_server.py, `HealthHandler.do_POST`.
use mathlib.Core.Path.{subst}
use locai_link.Base.{
  sym, Bool-cases, ℕ, String, true, false, not, ◌||◌, Option, none, some, ◌≡◌, ◌≢◌, ◌⊎◌, refl, inl,
  inr, arith, eqb, ltb, if◌then◌else◌, if-cases, ◌==◌, eq_iff,
}
use locai_link.Json.{Json, null, bool, number, decimal, text, arr, obj}
use locai_link.Health.{HealthState, set_deployment_progress}
use locai_link.Health.Asked.{
  IsLocal, Asks, check_loopback-IsLocal, model_action-path, command_of-Asks,
}
use locai_link.Health.Requests.{
  LocalRequest, LoopbackCommand, LocalAgent, LocalReply, refuse, check_loopback, command_of,
  send_command, may_update, post_update, post_command, post_action, queue_named, queue_fields,
  queue_payload, pending_deployment, post_local, model_action, find_model,
}

other_code : (n : ℕ) → eqb n 202 ≡ false → ◌≢◌ {A = Option ℕ} (some n) (some 202)
other_code n h e = let same : n ≡ 202 = cc in absurd (ground (arith, h, same))

module _ (w : LocalAgent) where
  -- The command that the path asks for was dispatched, and the answer tells whether that raised.
  abbrev pub Dispatches : String → LocalReply → Type 0
  Dispatches path r =
      (c : LoopbackCommand) × (r.dispatched ≡ some c)
      × Asks path c
      × (w.wired ≡ true)
      × (r.code ≡ some (if w.raises c then 500 else 202))

  -- Nothing was dispatched, nor accepted.
  abbrev pub Refuses : LocalReply → Type 0
  Refuses r = (r.dispatched ≡ none) × (r.code ≢ some 202)

  -- A deployment was queued.
  abbrev pub Queues : HealthState → HealthState × LocalReply → Type 0
  Queues s (s', r) =
      (pid : String) × (name : Option String) × (pid ≢ "")
      × (s' ≡ set_deployment_progress w.now pid "queued" (decimal "0.0") name s)
      × (r ≡ refuse 202)

  -- The end of a request that asks for a command.
  abbrev Answers : String → LocalReply → Type 0
  Answers path r = Dispatches path r ⊎ Refuses r

  -- The end of a request that asks for a place in the queue.
  abbrev Places : HealthState → HealthState × LocalReply → Type 0
  Places s (s', r) = ((s' ≡ s) × Refuses r) ⊎ Queues s (s', r)

  abbrev pub Ends : String → HealthState → HealthState × LocalReply → Type 0
  Ends path s (s', r) =
      ((s' ≡ s) × (Dispatches path r ⊎ Refuses r))
      ⊎ ((path ≡ "/deployments/pending") × Queues s (s', r))

  refuses : (n : ℕ) → eqb n 202 ≡ false → Refuses (refuse n)
  refuses n h = (refl, other_code n h)

  unanswered : Refuses (record { code = none; dispatched = none })
  unanswered = (refl, λ e. absurd cc)

  send_command-Dispatches :
      (path : String) (c : LoopbackCommand)
      → Asks path c
      → w.wired ≡ true
      → Dispatches path (send_command w c)
  unfolding send_command
  send_command-Dispatches path c e h = (c, refl, e, h, refl)

  post_update-Answers : Answers "/update" (post_update w)
  unfolding post_update
  post_update-Answers =
      if-cases (Answers "/update") (not w.wired) (λ h. inr (refuses 503 refl))
        (λ h.
          if-cases (Answers "/update") (not (may_update w)) (λ k. inr (refuses 409 refl))
            (λ k. inl (
              send_command-Dispatches "/update" LoopbackCommand.update_agent refl
                (ground (arith, h)))))

  post_command-Answers :
      (path : String) (o : Option LoopbackCommand)
      → ((c : LoopbackCommand) → o ≡ some c → Asks path c)
      → w.wired ≡ true
      → Answers path (post_command w o)
  unfolding post_command
  post_command-Answers path none e h = inr (refuses 404 refl)
  post_command-Answers path (some c) e h = inl (send_command-Dispatches path c (e c refl) h)

  post_action-Answers :
      (path : String) (o : Option (String × String))
      → model_action path ≡ o
      → Answers path (post_action w o)
  unfolding post_action
  post_action-Answers path none e = inr (refuses 404 refl)
  post_action-Answers path (some (pid, action)) e =
      let (same, known) = model_action-path path pid action e in
      let m = find_model pid w.models in
      if-cases (Answers path) (not w.wired) (λ h. inr (refuses 503 refl))
        (λ h.
          post_command-Answers path (command_of w pid action m)
            (λ c. command_of-Asks path pid action same w m c known) (ground (arith, h)))

  refused : (s : HealthState) → Places s (s, refuse 400)
  refused s = inl (refl, refuses 400 refl)

  queue_text-Places :
      (pid : String) (name : Json) (s : HealthState)
      → pid ≢ ""
      → Places s (queue_named w pid name s)
  unfolding queue_named
  queue_text-Places pid null s h = inr (pid, none, h, refl, refl)
  queue_text-Places pid (text n) s h = inr (pid, some n, h, refl, refl)
  queue_text-Places pid (bool b) s h = refused s
  queue_text-Places pid (number n) s h = refused s
  queue_text-Places pid (decimal d) s h = refused s
  queue_text-Places pid (arr vs) s h = refused s
  queue_text-Places pid (obj fs) s h = refused s

  queue_fields-Places : (pid name : Json) (s : HealthState) → Places s (queue_fields w pid name s)
  unfolding queue_fields
  queue_fields-Places (text pid) name s =
      if-cases (Places s) (pid == "") (λ h. refused s)
        (λ h. queue_text-Places pid name s (λ e. absurd (ground (arith, h, e, eq_iff pid ""))))
  queue_fields-Places null name s = refused s
  queue_fields-Places (bool b) name s = refused s
  queue_fields-Places (number n) name s = refused s
  queue_fields-Places (decimal d) name s = refused s
  queue_fields-Places (arr vs) name s = refused s
  queue_fields-Places (obj fs) name s = refused s

  queue_payload-Places : (o : Option Json) (s : HealthState) → Places s (queue_payload w o s)
  unfolding queue_payload
  queue_payload-Places none s = refused s
  queue_payload-Places (some (obj fs)) s = queue_fields-Places _ _ s
  queue_payload-Places (some null) s = inl (refl, unanswered)
  queue_payload-Places (some (bool b)) s = inl (refl, unanswered)
  queue_payload-Places (some (number n)) s = inl (refl, unanswered)
  queue_payload-Places (some (decimal d)) s = inl (refl, unanswered)
  queue_payload-Places (some (text t)) s = inl (refl, unanswered)
  queue_payload-Places (some (arr vs)) s = inl (refl, unanswered)

  pending_deployment-Places :
      (n : Option ℕ) (body : String) (s : HealthState) → Places s (pending_deployment w n body s)
  unfolding pending_deployment
  pending_deployment-Places none body s = inl (refl, unanswered)
  pending_deployment-Places (some n) body s =
      if-cases (Places s) (eqb n 0 || ltb 4096 n) (λ h. refused s)
        (λ h. queue_payload-Places (w.loads body) s)

  queued :
      (path : String) (p : HealthState × LocalReply) (s : HealthState)
      → path ≡ "/deployments/pending"
      → Places s p
      → Ends path s p
  queued path p s e (inl (same, r)) = inl (same, inr r)
  queued path p s e (inr r) = inr (e, r)

  updated : (path : String) (s : HealthState) → path ≡ "/update" → Ends path s (s, post_update w)
  updated path s e = inl (refl, subst (λ p. Answers p (post_update w)) (sym e) post_update-Answers)

  routed :
      (q : LocalRequest) (s : HealthState)
      → Ends q.path s (
          if q.path == "/deployments/pending"
          then pending_deployment w q.content_length q.body s
          else if q.path == "/update"
          then (s, post_update w)
          else (s, post_action w (model_action q.path)))
  routed q s =
      if-cases (Ends q.path s) (q.path == "/deployments/pending")
        (λ k.
          queued q.path _ s ((eq_iff q.path "/deployments/pending").0 k)
            (pending_deployment-Places q.content_length q.body s))
        (λ k.
          if-cases (Ends q.path s) (q.path == "/update")
            (λ l. updated q.path s ((eq_iff q.path "/update").0 l))
            (λ l. inl (refl, post_action-Answers q.path (model_action q.path) refl)))

  -- A request is refused with 403 and does nothing; or its Host is a loopback name, alone or
  -- before a port, and the host of its Origin, if it has one, is a loopback name, on any port.
  -- Then it hands the runtime, which must be wired, the one command that its path asks for, and
  -- answers 202, or 500 where that raised; or its path is that of the pending deployments, and it
  -- queues one that has a name, and answers 202; or it does nothing, and does not answer 202.
  pub do_post-Ends :
      (q : LocalRequest) (s : HealthState)
      → (post_local w q s ≡ (s, refuse 403)) ⊎ (IsLocal w q × Ends q.path s (post_local w q s))
  unfolding post_local
  do_post-Ends q s = elim (Bool-cases (check_loopback w q)) [
    | inr h ↦ inl (ground (arith, h))
    | inl h ↦ inr (check_loopback-IsLocal w q h, rw (h) (routed q s))
  ]
