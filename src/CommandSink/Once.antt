-- ===== src/CommandSink/Once.antt =====
-- A command with an id runs once as long as its id stays in the window of recent ids.
use locai_link.Base.{
  ℕ, suc, ◌+◌, ◌∙◌, ◌⊎◌, ◌≤◌, ◌<◌, String, ◌≡◌, refl, inl, inr, Bool, true, false, Option, none,
  some, List, [], ◌∷◌, ◌==◌, if◌then◌else◌, arith, eq_iff, eq_refl, elem, length, take, take-take,
  elem-take, elem-take-suc, Bool-cases, Option-cases,
}
use locai_link.CommandSink.{
  AgentCommand, RawCommand, Callback, dedup_key, append_bounded, remember, is_duplicate, dispatch,
  call, mark_seen,
}

-- `k` is among the newest `n` ids.
abbrev pub IsRecent : String → ℕ → AgentCommand → Type 0
IsRecent k n s = elem k (take n s.seen) ≡ true

abbrev has_key : String → Option String → Bool
has_key k none = false
has_key k (some j) = j == k

-- How often the callback was run on a command with the id `k`.
unfoldable pub runs : String → List RawCommand → ℕ
runs k [] = 0
runs k (c ∷ cs) = if has_key k (dedup_key c.id) then suc (runs k cs) else runs k cs

append_bounded-IsRecent :
    (k x : String) (n m : ℕ) (seen : List String)
    → suc n ≤ m
    → elem k (take n seen) ≡ true
    → elem k (take (suc n) (append_bounded m x seen)) ≡ true
unfolding append_bounded
append_bounded-IsRecent k x n m seen h r = rw (take-take (suc n) m (x ∷ seen) h) (ground (arith, r))

append_bounded-IsRecent_self :
    (k : String) (m : ℕ) (seen : List String)
    → 0 < m
    → elem k (take 1 (append_bounded m k seen)) ≡ true
unfolding append_bounded
append_bounded-IsRecent_self k m seen h =
    rw (take-take 1 m (k ∷ seen) h) (ground (arith, eq_refl k))

remember-IsRecent :
    (key : Option String) (k : String) (n : ℕ) (s : AgentCommand)
    → suc n ≤ s.maxlen
    → IsRecent k n s
    → IsRecent k (suc n) (remember key s)
unfolding remember
remember-IsRecent none k n s h r = elem-take-suc k n s.seen r
remember-IsRecent (some x) k n s h r = append_bounded-IsRecent k x n s.maxlen s.seen h r

maxlen-remember : (key : Option String) (s : AgentCommand) → (remember key s).maxlen ≡ s.maxlen
unfolding remember
maxlen-remember none s = refl
maxlen-remember (some x) s = refl

calls-remember : (key : Option String) (s : AgentCommand) → (remember key s).calls ≡ s.calls
unfolding remember
calls-remember none s = refl
calls-remember (some x) s = refl

module _ (cb : Callback) where
  pub maxlen-dispatch : (s : AgentCommand) (c : RawCommand) → (dispatch cb s c).0.maxlen ≡ s.maxlen
  unfolding dispatch
  maxlen-dispatch s c =
      ground (arith, maxlen-remember (dedup_key c.id) (record s { calls = c ∷ s.calls }))

  dispatch-IsRecent :
      (k : String) (n : ℕ) (s : AgentCommand) (c : RawCommand)
      → suc n ≤ s.maxlen
      → IsRecent k n s
      → IsRecent k (suc n) (dispatch cb s c).0
  unfolding dispatch
  dispatch-IsRecent k n s c h r = ground (
    arith,
    elem-take-suc k n s.seen r,
    remember-IsRecent (dedup_key c.id) k n (record s { calls = c ∷ s.calls }) h r,
  )

  call-IsRecent :
      (k : String) (n : ℕ) (s : AgentCommand) (cs : List RawCommand)
      → n + length cs ≤ s.maxlen
      → IsRecent k n s
      → elem k (call cb s cs).0.seen ≡ true
  unfolding call
  call-IsRecent k n s [] h r = elem-take k n s.seen r
  call-IsRecent k n s (c ∷ cs) h r =
      let step = dispatch-IsRecent k n s c (omega arith) r in
      let later =
        call-IsRecent k (suc n) (dispatch cb s c).0 cs (omega (arith, maxlen-dispatch s c)) step in
      elim (Bool-cases (dispatch cb s c).1) [
        | inl done ↦ rw done later
        | inr failed ↦ rw failed (elem-take k (suc n) (dispatch cb s c).0.seen step)
      ]

  -- The second and later deliveries of a run that succeeded.
  dispatch-IsRecent_self :
      (s : AgentCommand) (c : RawCommand) (k : String)
      → 0 < s.maxlen
      → dedup_key c.id ≡ some k
      → elem k s.seen ≡ false
      → (dispatch cb s c).1 ≡ true
      → IsRecent k 1 (dispatch cb s c).0
  unfolding dispatch remember is_duplicate
  dispatch-IsRecent_self s c k h e new done =
      rw e (ground (arith, done, append_bounded-IsRecent_self k s.maxlen s.seen h))

  dispatch-duplicate :
      (s : AgentCommand) (c : RawCommand) (k : String)
      → dedup_key c.id ≡ some k
      → elem k s.seen ≡ true
      → dispatch cb s c ≡ (s, true)
  unfolding dispatch is_duplicate
  dispatch-duplicate s c k e h = rw e (rw h)

  -- A command with a new id that ran without raising is acknowledged and not run again when it
  -- is delivered once more, if fewer other commands than the window is long came between, in
  -- one batch, whether or not some of them failed.
  pub redelivery_dropped :
      (s : AgentCommand) (c : RawCommand) (cs : List RawCommand) {k : String}
      → dedup_key c.id ≡ some k
      → elem k s.seen ≡ false
      → length cs < s.maxlen
      → (dispatch cb s c).1 ≡ true
      → let later = (call cb (dispatch cb s c).0 cs).0 in dispatch cb later c ≡ (later, true)
  redelivery_dropped s c cs {k} e new h done =
      dispatch-duplicate (call cb (dispatch cb s c).0 cs).0 c k e (
        call-IsRecent k 1 (dispatch cb s c).0 cs (omega (arith, maxlen-dispatch s c))
          (dispatch-IsRecent_self s c k (omega arith) e new done))

  -- A command whose id was marked as seen, as for one drained from the backlog, is acknowledged
  -- and not run when it arrives live, if fewer other commands than the window is long came
  -- between, in one batch.
  pub mark_seen_dropped :
      (s : AgentCommand) (c : RawCommand) (cs : List RawCommand) {k : String}
      → dedup_key c.id ≡ some k
      → length cs < s.maxlen
      → let later = (call cb (mark_seen s c.id) cs).0 in dispatch cb later c ≡ (later, true)
  unfolding mark_seen remember
  mark_seen_dropped s c cs {k} e h = dispatch-duplicate (call cb (mark_seen s c.id) cs).0 c k e (
      rw e (
        call-IsRecent k 1 (record s { seen = append_bounded s.maxlen k s.seen }) cs (omega arith)
          (append_bounded-IsRecent_self k s.maxlen s.seen (omega arith))))

  -- Runs of `k` do not change where `k` is a duplicate or another id is dispatched.
  runs-dispatch_known :
      (k : String) (s : AgentCommand) (c : RawCommand)
      → elem k s.seen ≡ true
      → runs k (dispatch cb s c).0.calls ≡ runs k s.calls
  unfolding dispatch is_duplicate runs
  runs-dispatch_known k s c h = elim (Option-cases (dedup_key c.id)) [
    | inl e ↦ rw e (ground (arith, e, calls-remember none (record s { calls = c ∷ s.calls })))
    | inr (j, e) ↦ rw e (
        ground
          (arith, e, h, eq_iff j k, calls-remember (some j) (record s { calls = c ∷ s.calls })))
  ]

  runs-dispatch_other :
      (k : String) (s : AgentCommand) (c : RawCommand)
      → has_key k (dedup_key c.id) ≡ false
      → runs k (dispatch cb s c).0.calls ≡ runs k s.calls
  unfolding dispatch is_duplicate runs
  runs-dispatch_other k s c h =
      ground (arith, h, calls-remember (dedup_key c.id) (record s { calls = c ∷ s.calls }))

  runs-dispatch_le :
      (k : String) (s : AgentCommand) (c : RawCommand)
      → runs k (dispatch cb s c).0.calls ≤ suc (runs k s.calls)
  unfolding dispatch is_duplicate runs
  runs-dispatch_le k s c =
      ground (arith, calls-remember (dedup_key c.id) (record s { calls = c ∷ s.calls }))

  runs-call_known :
      (k : String) (n : ℕ) (s : AgentCommand) (cs : List RawCommand)
      → n + length cs ≤ s.maxlen
      → IsRecent k n s
      → runs k (call cb s cs).0.calls ≡ runs k s.calls
  unfolding call
  runs-call_known k n s [] h r = refl
  runs-call_known k n s (c ∷ cs) h r =
      let same = runs-dispatch_known k s c (elem-take k n s.seen r) in
      let later =
        runs-call_known k (suc n) (dispatch cb s c).0 cs (omega (arith, maxlen-dispatch s c))
          (dispatch-IsRecent k n s c (omega arith) r) in
      elim (Bool-cases (dispatch cb s c).1) [
        | inl done ↦ rw done (later ∙ same)
        | inr failed ↦ rw failed same
      ]

  key_of : (k : String) (o : Option String) → has_key k o ≡ true → o ≡ some k
  key_of k none h = ground arith
  key_of k (some j) h = ground (arith, eq_iff j k)

  -- A dispatch that succeeds leaves the number of runs alone, or the id is the newest one.
  run_or_IsRecent :
      (k : String) (s : AgentCommand) (c : RawCommand)
      → 0 < s.maxlen
      → (dispatch cb s c).1 ≡ true
      → (runs k (dispatch cb s c).0.calls ≡ runs k s.calls) ⊎ IsRecent k 1 (dispatch cb s c).0
  run_or_IsRecent k s c h done = elim (Bool-cases (has_key k (dedup_key c.id))) [
    | inr other ↦ inl (runs-dispatch_other k s c other)
    | inl same ↦ elim (Bool-cases (elem k s.seen)) [
      | inl known ↦ inl (runs-dispatch_known k s c known)
      | inr new ↦ inr (dispatch-IsRecent_self s c k h (key_of k (dedup_key c.id) same) new done)
    ]
  ]

  -- In one batch that is no longer than the window, the callback is run at most once on
  -- commands with one id, whether or not runs fail.
  pub call_runs_once :
      (k : String) (s : AgentCommand) (cs : List RawCommand)
      → length cs ≤ s.maxlen
      → runs k (call cb s cs).0.calls ≤ suc (runs k s.calls)
  unfolding call
  call_runs_once k s [] h = omega arith
  call_runs_once k s (c ∷ cs) h =
      let s' = (dispatch cb s c).0 in
      let later = call_runs_once k s' cs (omega (arith, maxlen-dispatch s c)) in
      elim (Bool-cases (dispatch cb s c).1) [
        | inr failed ↦ rw failed (runs-dispatch_le k s c)
        | inl done ↦ elim (run_or_IsRecent k s c (omega arith) done) [
          | inl same ↦ rw done (omega (arith, later, same))
          | inr r ↦ rw done (
              omega (
                arith,
                runs-call_known k 1 s' cs (omega (arith, maxlen-dispatch s c)) r,
                runs-dispatch_le k s c,
              ))
        ]
      ]
