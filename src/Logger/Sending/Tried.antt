-- ===== src/Logger/Sending/Tried.antt =====
-- How often an entry is sent, and for how long: src/link/utils/logger.py,
-- `AsyncHTTPHandler._transport_emit`.
use locai_link.Base.{
  ℕ, zero, suc, ◌+◌, ◌*◌, ◌^◌, ◌≤◌, ◌<◌, ◌≡◌, refl, inl, inr, arith, eqb, leb, ltb, Bool-cases,
  if-cases,
}
use locai_link.Logger.Sending.{
  HttpReply, answered, transport_error, other_error, SendEnd, returned, raised, Attempts, retry,
  after_reply, attempt_from, http_emit,
}

-- A failure that may pass: a timeout, a connection that fails, or a status from 500 on.
abbrev pub MayPass : HttpReply → Type 0
MayPass (answered status) = 500 ≤ status
MayPass transport_error = Unit
MayPass other_error = ⊥

-- What the last request met; only a status below 400 is a success.
abbrev pub Explains : HttpReply → SendEnd → Type 0
Explains (answered status) returned = status < 400
Explains (answered status) raised = 400 ≤ status
Explains transport_error e = e ≡ raised
Explains other_error e = e ≡ raised

-- How long the waits of the loop may be from an attempt on: 0.5 and 1.5 seconds.
abbrev total : ℕ → ℕ → ℕ
total attempt zero = 0
total attempt (suc left) = 500 * 3 ^ attempt + total (suc attempt) left

module _ (replies : ℕ → HttpReply) where
  -- What is claimed of the attempts from one on, with `left` attempts after it: each but the last
  -- met a failure that may pass, the last one explains the result, and there is another one as
  -- long as there may be.
  pub record Tried (attempt left : ℕ) (r : Attempts) : Type 0 where
    pub last : ℕ
    pub counted : suc last ≡ attempt + r.attempts
    pub begun : attempt ≤ last
    pub bounded : r.attempts ≤ suc left
    pub slept : r.slept ≤ total attempt left
    pub passing : (i : ℕ) → attempt ≤ i → i < last → MayPass (replies i)
    pub explained : Explains (replies last) r.result
    pub persistent : MayPass (replies last) → r.attempts ≡ suc left

  stopped-Tried :
      (attempt left : ℕ) (e : SendEnd)
      → Explains (replies attempt) e
      → (MayPass (replies attempt) → left ≡ 0)
      → Tried attempt left (record { result = e; attempts = 1; slept = 0 })
  stopped-Tried attempt left e x p = record {
    last = attempt;
    counted = omega arith;
    begun = omega arith;
    bounded = omega arith;
    slept = omega arith;
    passing = λ i low high. absurd (omega (arith, low, high));
    explained = x;
    persistent = λ m. omega (arith, p m);
  }

  retry-Tried :
      (attempt left : ℕ) (rest : Attempts)
      → MayPass (replies attempt)
      → Explains (replies attempt) raised
      → ((l : ℕ) → left ≡ suc l → Tried (suc attempt) l rest)
      → Tried attempt left (retry attempt left rest)
  unfolding retry
  retry-Tried attempt zero rest m x more = stopped-Tried attempt 0 raised x (λ n. refl)
  retry-Tried attempt (suc left) rest m x more =
      let r = more left refl in
      record {
        last = r.last;
        counted = omega (arith, r.counted);
        begun = omega (arith, r.begun);
        bounded = omega (arith, r.bounded);
        slept = omega (arith, r.slept);
        passing = λ i low high. elim (Bool-cases (eqb attempt i)) [
          | inl e ↦ let here : attempt ≡ i = ground (arith, e) in rw (← here) m
          | inr e ↦ r.passing i (ground (arith, e, low)) high
        ];
        explained = r.explained;
        persistent = λ n. omega (arith, r.persistent n);
      }

  reply-Tried :
      (attempt left : ℕ) (reply : HttpReply) (rest : Attempts)
      → replies attempt ≡ reply
      → ((l : ℕ) → left ≡ suc l → Tried (suc attempt) l rest)
      → Tried attempt left (after_reply attempt left reply rest)
  unfolding after_reply
  reply-Tried attempt left (answered status) rest e more =
      if-cases (Tried attempt left) (ltb status 500)
        (λ ends.
          if-cases (λ r. Tried attempt left (record { result = r; attempts = 1; slept = 0 }))
            (leb 400 status)
            (λ bad.
              stopped-Tried attempt left raised (rw e (ground (arith, bad)))
                (rw e (λ m. absurd (ground (arith, ends, m)))))
            (λ good.
              stopped-Tried attempt left returned (rw e (ground (arith, good)))
                (rw e (λ m. absurd (ground (arith, ends, m))))))
        (λ fails.
          retry-Tried attempt left rest (rw e (ground (arith, fails)))
            (rw e (ground (arith, fails))) more)
  reply-Tried attempt left transport_error rest e more =
      retry-Tried attempt left rest (rw e tt) (rw e refl) more
  reply-Tried attempt left other_error rest e more =
      stopped-Tried attempt left raised (rw e refl) (rw e (λ m. absurd m))

  attempt_from-Tried : (attempt left : ℕ) → Tried attempt left (attempt_from replies attempt left)
  unfolding attempt_from
  attempt_from-Tried attempt zero =
      reply-Tried attempt 0 (replies attempt) _ refl (λ l e. absurd (omega (arith, e)))
  attempt_from-Tried attempt (suc left) =
      reply-Tried attempt (suc left) (replies attempt) _ refl (λ l e.
        let same : left ≡ l = omega (arith, e) in
        rw (← same) (attempt_from-Tried (suc attempt) left))

  -- There are at most three attempts, with waits of at most two seconds between them; each but
  -- the last met a timeout, a failed connection or a status from 500 on; the entry counts as sent
  -- only if the last one has a status below 400, and if not, the call raises; a failure that may
  -- pass is the end only at the third attempt.
  pub http_emit-Tried : Tried 0 2 (http_emit replies)
  unfolding http_emit
  http_emit-Tried = attempt_from-Tried 0 2
