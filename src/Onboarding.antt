-- ===== src/Onboarding.antt =====
-- src/link/app/onboarding.py: the requests to Control with their retries. Times are in
-- milliseconds.
pub mod Attempts
pub mod Enrolling
use locai_link.Base.{
  ℕ, zero, suc, ◌+◌, ◌*◌, ◌^◌, String, Bool, true, false, not, ◌&&◌, ◌||◌, Option, none, some, eqb,
  leb, ltb, if◌then◌else◌,
}
use locai_link.Json.{Json}

-- What `float` makes of a Retry-After header. Infinity is a time like others, and longer than the
-- cap.
pub data RetryAfter : Type 0 where
  absent unparseable negative not_a_number infinite : RetryAfter
  milliseconds : ℕ → RetryAfter

-- How one request ends: with an answer, whose body may be JSON; with a `RequestException`, or with
-- another exception.
pub data Reply : Type 0 where
  answer : ℕ → RetryAfter → Option Json → Reply
  network_error : Reply
  other_error : Reply

-- How the requests end: with an answer's body; with a `RuntimeError`; or with an exception that
-- is not one of the module's own.
pub data Final : Type 0 where
  accepted : Option Json → Final
  rejected : Final
  raised : Final

pub record Requests : Type 0 where
  pub final : Final
  pub attempts : ℕ
  pub slept : ℕ

abbrev pub max_attempts : ℕ
max_attempts = 8

abbrev pub retry_after_cap : ℕ
retry_after_cap = 300000

abbrev pub min_ℕ : ℕ → ℕ → ℕ
min_ℕ a b = if leb a b then a else b

-- min(cap, base * 2 ** (attempt - 1)), where `before` counts the attempts before this one
unfoldable pub ceiling : ℕ → ℕ
ceiling before = min_ℕ 60000 (2000 * 2 ^ before)

-- A wait before the next attempt, or one that `time.sleep` does not take.
pub data Delay : Type 0 where
  wait : ℕ → Delay
  invalid : Delay

-- `_retry_after_seconds`, with the wait that stands in for one that is not given; NaN passes `min`.
unfoldable pub retry_delay : RetryAfter → ℕ → Delay
retry_delay (milliseconds n) own = wait (min_ℕ n retry_after_cap)
retry_delay infinite own = wait retry_after_cap
retry_delay not_a_number own = invalid
retry_delay absent own = wait own
retry_delay unparseable own = wait own
retry_delay negative own = wait own

unfoldable pub is_transient : ℕ → Bool
is_transient status = eqb status 429 || (leb 500 status && ltb status 600)

abbrev pub again : ℕ → Requests → Requests
again n r = record { final = r.final; attempts = suc r.attempts; slept = n + r.slept }

abbrev pub once : Final → Requests
once f = record { final = f; attempts = 1; slept = 0 }

-- What follows a transient failure, where `rest` is what the further attempts come to.
abbrev pub retried : ℕ → Delay → Requests → Requests
retried zero d rest = once rejected
retried (suc left) (wait n) rest = again n rest
retried (suc left) invalid rest = once raised

unfoldable pub settle : ℕ → Option Json → Requests
settle status body = once (if leb 400 status then rejected else accepted body)

-- `random.uniform(0, ceiling)` at an attempt, and what the requests meet.
pub record Control : Type 0 where
  pub uniform : ℕ → ℕ → ℕ
  pub replies : ℕ → Reply

module _ (w : Control) where
  unfoldable pub backoff : ℕ → ℕ
  backoff before = w.uniform before (ceiling before)

  -- One attempt with `left` attempts after it.
  unfoldable pub attempt : ℕ → ℕ → Reply → Requests → Requests
  unfolding settle
  attempt before left network_error rest = retried left (wait (backoff before)) rest
  attempt before left other_error rest = once raised
  attempt before left (answer status after body) rest =
      if is_transient status
      then retried left (retry_delay after (backoff before)) rest
      else settle status body

  -- The loop, with `left` attempts to go; the fall from it is never reached from the start.
  unfoldable pub request_from : ℕ → ℕ → Requests
  request_from before zero = record { final = rejected; attempts = 0; slept = 0 }
  request_from before (suc left) =
      let rest = request_from (suc before) left in attempt before left (w.replies before) rest

  -- `_request_with_retry`; no caller passes a handler for permanent failures.
  unfoldable pub request_with_retry : Requests
  request_with_retry = request_from 0 max_attempts
