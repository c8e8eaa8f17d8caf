-- ===== src/Onboarding/Attempts.antt =====
-- How often Control is asked, and for how long: src/link/app/onboarding.py, `_request_with_retry`.
use locai_link.Base.{
  ℕ, zero, suc, ◌+◌, ◌*◌, ◌^◌, ◌≤◌, ◌<◌, true, false, Option, ◌≡◌, refl, inl, inr, ◌⊎◌, arith, eqb,
  leb, Bool-cases, if-cases,
}
use locai_link.Json.{Json}
use locai_link.Onboarding.{
  RetryAfter, absent, unparseable, negative, not_a_number, infinite, milliseconds, Reply, answer,
  network_error, other_error, Final, accepted, rejected, raised, Requests, min_ℕ, ceiling, Delay,
  wait, invalid, retry_delay, is_transient, retried, settle, Control, backoff, attempt,
  request_from, request_with_retry,
}

-- A failure of the network, or an answer that the server is busy or failed.
abbrev pub IsTransient : Reply → Type 0
IsTransient network_error = Unit
IsTransient (answer status after body) = (status ≡ 429) ⊎ ((500 ≤ status) × (status < 600))
IsTransient other_error = ⊥

-- What the last request met.
abbrev pub Explains : Reply → Final → Type 0
Explains (answer status after body) (accepted b) = (status < 400) × (body ≡ b)
Explains network_error (accepted b) = ⊥
Explains other_error (accepted b) = ⊥
Explains (answer status after body) rejected = 400 ≤ status
Explains network_error rejected = Unit
Explains other_error rejected = ⊥
Explains (answer status after body) raised =
    ((status ≡ 429) ⊎ ((500 ≤ status) × (status < 600))) × (after ≡ not_a_number)
Explains network_error raised = ⊥
Explains other_error raised = Unit

transient_status :
    (status : ℕ)
    → is_transient status ≡ true
    → ((status ≡ 429) ⊎ ((500 ≤ status) × (status < 600))) × (400 ≤ status)
unfolding is_transient
transient_status status h = elim (Bool-cases (eqb status 429)) [
  | inl e ↦ (inl (ground (arith, e)), ground (arith, e))
  | inr e ↦ (inr (ground (arith, e, h), ground (arith, e, h)), ground (arith, e, h))
]

not_transient_status :
    (status : ℕ)
    → is_transient status ≡ false
    → (status ≡ 429) ⊎ ((500 ≤ status) × (status < 600))
    → ⊥
unfolding is_transient
not_transient_status status h (inl e) = ground (arith, h, e)
not_transient_status status h (inr e) = ground (arith, h, e.0, e.1)

module _ (w : Control) where
  -- What is claimed of the attempts from one on, with `left` attempts after it: how many there
  -- are, for how long they wait between them, that each but the last met a transient failure, and
  -- what the last one met.
  pub record Tried (before left : ℕ) (r : Requests) : Type 0 where
    pub last : ℕ
    pub counted : suc last ≡ before + r.attempts
    pub begun : before ≤ last
    pub bounded : r.attempts ≤ suc left
    pub slept : r.slept ≤ left * 300000
    pub transient : (i : ℕ) → before ≤ i → i < last → IsTransient (w.replies i)
    pub explained : Explains (w.replies last) r.final
    pub persistent : IsTransient (w.replies last) → r.final ≡ raised ⊎ (r.attempts ≡ suc left)

  -- An attempt that no other follows.
  stopped :
      (before left : ℕ) (f : Final)
      → Explains (w.replies before) f
      → (IsTransient (w.replies before) → (f ≡ raised) ⊎ (1 ≡ suc left))
      → Tried before left (record { final = f; attempts = 1; slept = 0 })
  stopped before left f e t = record {
    last = before;
    counted = omega arith;
    begun = omega arith;
    bounded = omega arith;
    slept = omega arith;
    transient = λ i low high. absurd (omega (arith, low, high));
    explained = e;
    persistent = t;
  }

  -- An attempt that others follow, after a wait.
  repeated :
      (before left n : ℕ) (rest : Requests)
      → n ≤ 300000
      → IsTransient (w.replies before)
      → Tried (suc before) left rest
      → Tried before
          (suc left)
          (record { final = rest.final; attempts = suc rest.attempts; slept = n + rest.slept })
  repeated before left n rest h t r = record {
    last = r.last;
    counted = omega (arith, r.counted);
    begun = omega (arith, r.begun);
    bounded = omega (arith, r.bounded);
    slept = omega (arith, r.slept, h);
    transient = λ i low high. elim (Bool-cases (eqb before i)) [
      | inl e ↦ let same : before ≡ i = ground (arith, e) in rw (← same) t
      | inr e ↦ r.transient i (ground (arith, e, low)) high
    ];
    explained = r.explained;
    persistent = λ l. elim (r.persistent l) [ inl f ↦ inl f | inr e ↦ inr (omega (arith, e)) ];
  }

  -- What holds of the rest after a transient failure holds of the whole.
  retried-Tried :
      (before left : ℕ) (d : Delay) (rest : Requests)
      → ((n : ℕ) → d ≡ wait n → n ≤ 300000)
      → IsTransient (w.replies before)
      → Explains (w.replies before) rejected
      → (d ≡ invalid → Explains (w.replies before) raised)
      → ((l : ℕ) → left ≡ suc l → Tried (suc before) l rest)
      → Tried before left (retried left d rest)
  retried-Tried before zero d rest b t e e' more = stopped before 0 rejected e (λ _. inr refl)
  retried-Tried before (suc left) (wait n) rest b t e e' more =
      repeated before left n rest (b n refl) t (more left refl)
  retried-Tried before (suc left) invalid rest b t e e' more =
      stopped before (suc left) raised (e' refl) (λ _. inl refl)

  settle-Tried :
      (before left status : ℕ) (after : RetryAfter) (body : Option Json)
      → is_transient status ≡ false
      → w.replies before ≡ answer status after body
      → Tried before left (settle status body)
  unfolding settle
  settle-Tried before left status after body h e = elim (Bool-cases (leb 400 status)) [
    | inl bad ↦ rw (bad) (
        stopped before left rejected (rw e (ground (arith, bad)))
          (rw e (λ t. absurd (not_transient_status status h t))))
    | inr good ↦ rw (good) (
        stopped before left (accepted body) (rw e (ground (arith, good), refl))
          (rw e (λ t. absurd (not_transient_status status h t))))
  ]

  module _ (fair : (n c : ℕ) → w.uniform n c ≤ c) where
    backoff_bounds : (n : ℕ) → backoff w n ≤ 300000
    unfolding backoff ceiling
    backoff_bounds n =
        let c = min_ℕ 60000 (2000 * 2 ^ n) in
        let h : c ≤ 60000 = ground arith in omega (arith, fair n c, h)

    delay_bounds :
        (after : RetryAfter) (own n : ℕ)
        → own ≤ 300000
        → retry_delay after own ≡ wait n
        → n ≤ 300000
    unfolding retry_delay
    delay_bounds (milliseconds m) own n h e = ground (arith, h, e)
    delay_bounds infinite own n h e = ground (arith, e)
    delay_bounds not_a_number own n h e = absurd cc
    delay_bounds absent own n h e = ground (arith, h, e)
    delay_bounds unparseable own n h e = ground (arith, h, e)
    delay_bounds negative own n h e = ground (arith, h, e)

    invalid_delay :
        (after : RetryAfter) (own : ℕ) → retry_delay after own ≡ invalid → after ≡ not_a_number
    unfolding retry_delay
    invalid_delay (milliseconds m) own e = absurd cc
    invalid_delay infinite own e = absurd cc
    invalid_delay not_a_number own e = refl
    invalid_delay absent own e = absurd cc
    invalid_delay unparseable own e = absurd cc
    invalid_delay negative own e = absurd cc

    attempt-Tried :
        (before left : ℕ) (reply : Reply) (rest : Requests)
        → w.replies before ≡ reply
        → ((l : ℕ) → left ≡ suc l → Tried (suc before) l rest)
        → Tried before left (attempt w before left reply rest)
    unfolding attempt
    attempt-Tried before left network_error rest e more =
        retried-Tried before left (wait (backoff w before)) rest
          (λ n h. ground (arith, h, backoff_bounds before)) (rw e tt) (rw e tt) (λ h. absurd cc)
          more
    attempt-Tried before left other_error rest e more =
        stopped before left raised (rw e tt) (λ t. inl refl)
    attempt-Tried before left (answer status after body) rest e more =
        if-cases (Tried before left) (is_transient status)
          (λ h.
            let (t, large) = transient_status status h in
            retried-Tried before left (retry_delay after (backoff w before)) rest
              (λ n d. delay_bounds after (backoff w before) n (backoff_bounds before) d) (rw e t)
              (rw e large) (λ d. rw e (t, invalid_delay after (backoff w before) d)) more)
          (λ h. settle-Tried before left status after body h e)

    request_from-Tried : (before left : ℕ) → Tried before left (request_from w before (suc left))
    unfolding request_from
    request_from-Tried before zero =
        attempt-Tried before 0 (w.replies before) _ refl (λ l e. absurd cc)
    request_from-Tried before (suc left) =
        attempt-Tried before (suc left) (w.replies before) _ refl (λ l e.
          let same : left ≡ l = ground (arith, e) in
          rw (← same) (request_from-Tried (suc before) left))

    -- Where a wait drawn at random is not longer than its bound: there are one to eight attempts,
    -- and no more than 2100 seconds of waits between them; each attempt but the last met a
    -- transient failure (the network's, status 429 or 5xx). The result is what the last one met:
    -- an answer below 400 is accepted, from 400 on rejected; an exception other than the two that
    -- the code names is that of a request, or follows a transient answer with NaN as the time to
    -- wait. Where the last one met a transient failure and no such exception ended the loop, it
    -- was the eighth.
    pub request_with_retry-Tried : Tried 0 7 (request_with_retry w)
    unfolding request_with_retry
    request_with_retry-Tried = request_from-Tried 0 7
