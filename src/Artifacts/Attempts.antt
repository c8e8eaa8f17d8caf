-- ===== src/Artifacts/Attempts.antt =====
-- How often the store is asked: src/link/infra/artifact_store.py, `_http_get`.
use locai_link.Base.{
  ℕ, zero, suc, ◌≤◌, ◌<◌, true, false, Option, ◌≡◌, refl, inl, inr, arith, leb, Bool-cases,
}
use locai_link.Artifacts.Fetch.{
  Response, body, status, unreachable, raised, retries, read_body, get_from, again, http_get,
}

-- A server error or a failure of the network.
abbrev pub IsTransient : Response → Type 0
IsTransient (status c) = 500 ≤ c
IsTransient unreachable = Unit
IsTransient _ = ⊥

retries-IsTransient : (left : ℕ) (r : Response) → retries left r ≡ true → IsTransient r × (0 < left)
unfolding retries
retries-IsTransient left (body d) h = absurd (ground (arith, h))
retries-IsTransient left (status c) h = (ground (arith, h), ground (arith, h))
retries-IsTransient left unreachable h = (tt, ground (arith, h))
retries-IsTransient left (raised d) h = absurd (ground (arith, h))

settled : (left : ℕ) (r : Response) → retries left r ≡ false → IsTransient r → left ≡ 0
unfolding retries
settled left (body d) h t = absurd t
settled left (status c) h t = ground (arith, h, t)
settled left unreachable h t = ground (arith, h)
settled left (raised d) h t = absurd t

no_retry_left : (r : Response) → retries 0 r ≡ false
unfolding retries
no_retry_left (body d) = refl
no_retry_left (status c) = ground arith
no_retry_left unreachable = refl
no_retry_left (raised d) = refl

-- The first `n` requests met transient failures.
abbrev Repeats : (ℕ → Response) → ℕ → Type 0
Repeats replies zero = Unit
Repeats replies (suc n) = Repeats replies n × IsTransient (replies (suc n))

before :
    (replies : ℕ → Response) (n i : ℕ) → Repeats replies n → 0 < i → i ≤ n → IsTransient (replies i)
before replies zero i t low high = absurd (omega arith)
before replies (suc n) i t low high = elim (Bool-cases (leb i n)) [
  | inl small ↦ before replies n i t.0 low (ground (arith, small))
  | inr large ↦ let e : suc n ≡ i = ground (arith, large, high) in rw (← e) t.1
]

-- A request is repeated only after a transient failure, and at most twice: with `n` requests made,
-- the result is what the last of them ended with, each one before it met a transient failure, a
-- transient failure is the result only if it was the third, and no more than six seconds pass
-- asleep.
pub http_get_requests :
    (replies : ℕ → Response) (limit : Option ℕ)
    → let run = http_get replies limit in
      (run.result ≡ read_body limit (replies run.requests))
      × ((i : ℕ) → 0 < i → i < run.requests → IsTransient (replies i))
      × (IsTransient (replies run.requests) → run.requests ≡ 3)
      × (run.requests ≤ 3)
      × (run.slept ≤ 6)
unfolding http_get get_from again
http_get_requests replies limit = elim (Bool-cases (retries 2 (replies 1))) [
  | inr stop ↦ rw (stop) (
    refl,
    λ i low high. absurd (omega (arith, low, high)),
    λ t. absurd (omega (arith, settled 2 (replies 1) stop t)),
    omega arith,
    omega arith,
  )
  | inl first ↦ elim (Bool-cases (retries 1 (replies 2))) [
    | inr stop ↦
        rw (first, stop)
          (
            refl,
            λ i low high.
                before replies 1 i (tt, (retries-IsTransient 2 (replies 1) first).0) low
                  (omega (arith, high)),
            λ t. absurd (omega (arith, settled 1 (replies 2) stop t)),
            omega arith,
            omega arith,
          )
    | inl second ↦
        rw (first, second, no_retry_left (replies 3))
          (
            refl,
            λ i low high.
                before replies 2 i
                  (
                    (tt, (retries-IsTransient 2 (replies 1) first).0),
                    (retries-IsTransient 1 (replies 2) second).0,
                  )
                  low (omega (arith, high)),
            λ t. refl,
            omega arith,
            omega arith,
          )
  ]
]
