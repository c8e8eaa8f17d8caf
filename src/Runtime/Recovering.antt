-- ===== src/Runtime/Recovering.antt =====
-- What runs after a restart: src/link/app/runtime.py, `run`.
use locai_link.Base.{
  ℕ, suc, String, Bool, true, false, ◌&&◌, ◌≡◌, refl, sym, ap, ◌∙◌, ◌⊎◌, inl, inr, Option, none,
  some, List, [], ◌∷◌, arith, elem, All, if◌then◌else◌, ◌==◌, eq_iff, eq_refl, Bool-cases,
  Option-cases, if-cases,
}
use locai_link.Config.{GenericConfig, PipelineConfig}
use locai_link.Dict.{lookup, has}
use locai_link.Dict.Laws.{lookup-insert}
use locai_link.State.{Session}
use locai_link.Runtime.{AgentRuntime, Env, report}
use locai_link.Runtime.Pipelines.{
  start_pipeline, restart, halt, build, build_and_commit, stop_pipeline, create_component,
  create_sink,
}
use locai_link.Runtime.Starting.{
  Restarted, restart-Restarted, start_pipeline_cases, halt-SameConfigs,
}
use locai_link.Runtime.Main.{
  store_saved, to_start, announce_saved, start_saved, start_all, recover_session,
}

-- The pipelines and what a start goes by are those of the other runtime.
abbrev SameStarts : AgentRuntime → AgentRuntime → Type 0
SameStarts r r' =
    (r'.pipelines ≡ r.pipelines)
    × (r'.pipeline_configs ≡ r.pipeline_configs)
    × (r'.zenoh_session ≡ r.zenoh_session)

-- The ids of the pipelines that were saved as active.
abbrev pub active_ids : List PipelineConfig → List String
active_ids [] = []
active_ids (p ∷ ps) = if p.active then p.id ∷ active_ids ps else active_ids ps

module _ (env : Env) where
  announce_saved-SameStarts :
      (pid : String) (o : Option PipelineConfig) (r : AgentRuntime)
      → SameStarts r (announce_saved env pid o r)
  unfolding announce_saved report
  announce_saved-SameStarts pid none r = (refl, refl, refl)
  announce_saved-SameStarts pid (some c) r = ground arith

  build-made :
      (c : PipelineConfig) (r : AgentRuntime)
      → ((n : ℕ) (g : GenericConfig) → env.creates n g ≡ true)
      → r.zenoh_session ≡ true
      → (build env c r).1 ≡ true
  unfolding build create_component create_sink
  build-made c r creates up = go c.sink
    where
      go : (o : Option GenericConfig) → (build env (record c { sink = o }) r).1 ≡ true
      go none = ground (arith, up, creates r.now c.source)
      go (some g) = ground (arith, up, creates r.now c.source, creates (suc r.now) g)

  halt-stopped :
      (pid : String) (r : AgentRuntime)
      → ((n : ℕ) (j : String) → env.stops n j ≡ true)
      → (halt env pid r).1 ≡ true
  unfolding halt stop_pipeline
  halt-stopped pid r stops = elim (Option-cases (lookup pid r.pipelines)) [
    | inl e ↦ ground (arith, e)
    | inr (p, e) ↦ ground (arith, e, stops r.now pid)
  ]

  restart-made :
      (pid : String) (pending : Option PipelineConfig) (c : PipelineConfig) (r : AgentRuntime)
      → ((n : ℕ) (g : GenericConfig) → env.creates n g ≡ true)
      → ((n : ℕ) (j : String) → env.stops n j ≡ true)
      → r.zenoh_session ≡ true
      → (restart env pid pending c r).1 ≡ true
  unfolding restart build_and_commit
  restart-made pid pending c r creates stops up =
      let same = halt-SameConfigs env pid r in
      ground (
        arith,
        halt-stopped pid r stops,
        build-made c (halt env pid r).0 creates (same.rest.session ∙ up),
      )

  Restarted-only :
      (pid j : String) (c : PipelineConfig) (r : AgentRuntime) (x : AgentRuntime × Bool)
      → Restarted env pid none c r x
      → has j x.0.pipelines ≡ true
      → (has j r.pipelines ≡ true) ⊎ (pid ≡ j)
  Restarted-only pid j c r (r', true) (rest, agent, configs, pipes) h =
      elim (Bool-cases (pid == j)) [
        | inl e ↦ inr ((eq_iff pid j).0 e)
        | inr ne ↦ inl (ground (arith, pipes j, ne, h))
      ]
  Restarted-only pid j c r (r', false) (same, pipes) h = elim (pipes j) [
    | inl e ↦ inl (ground (arith, e, h))
    | inr (e, gone) ↦ inr e
  ]

  start_pipeline-only :
      (pid j : String) (r : AgentRuntime)
      → has j (start_pipeline env pid none r).0.pipelines ≡ true
      → (has j r.pipelines ≡ true) ⊎ (pid ≡ j)
  start_pipeline-only pid j r h = elim (start_pipeline_cases env pid none r) [
    | inl (new, e, same, q) ↦ absurd cc
    | inr (inl q) ↦ inl (rw (q) at h)
    | inr (inr (c, chosen, q)) ↦
        Restarted-only pid j c r (restart env pid none c r) (restart-Restarted env pid none c r)
          (rw (q) at h)
  ]

  start_saved-SameStarts :
      (pid : String) (r : AgentRuntime)
      → SameStarts (start_pipeline env pid none r).0 (start_saved env pid r)
  unfolding start_saved
  start_saved-SameStarts pid r =
      let r' = (start_pipeline env pid none r).0 in
      if-cases (SameStarts r') (start_pipeline env pid none r).1
        (λ h. announce_saved-SameStarts pid (lookup pid r'.pipeline_configs) r')
        (λ h. (refl, refl, refl))

  -- No start makes another pipeline run.
  start_saved-only :
      (pid j : String) (r : AgentRuntime)
      → has j (start_saved env pid r).pipelines ≡ true
      → (has j r.pipelines ≡ true) ⊎ (pid ≡ j)
  start_saved-only pid j r h =
      start_pipeline-only pid j r (sym (ap (has j) (start_saved-SameStarts pid r).0) ∙ h)

  start_all-only :
      (pids : List String) (j : String) (r : AgentRuntime)
      → has j (start_all env pids r).pipelines ≡ true
      → (has j r.pipelines ≡ true) ⊎ (elem j pids ≡ true)
  unfolding start_all
  start_all-only [] j r h = inl h
  start_all-only (pid ∷ pids) j r h = elim (start_all-only pids j (start_saved env pid r) h) [
    | inr later ↦ inr (ground (arith, later))
    | inl running ↦ elim (start_saved-only pid j r running) [
      | inl before ↦ inl before
      | inr e ↦ inr (ground (arith, e, eq_iff pid j))
    ]
  ]

  -- Nothing fails: every component can be built, every pipeline stops in time, and Zenoh is there.
  abbrev pub AllGoes : AgentRuntime → Type 0
  AllGoes r =
      ((n : ℕ) (g : GenericConfig) → env.creates n g ≡ true)
      × ((n : ℕ) (j : String) → env.stops n j ≡ true)
      × (r.zenoh_session ≡ true)

  -- What a start that succeeds leaves to the next one.
  abbrev Continues : String → AgentRuntime → AgentRuntime → Type 0
  Continues pid r r' =
      (has pid r'.pipelines ≡ true)
      × ((j : String) → has j r.pipelines ≡ true → has j r'.pipelines ≡ true)
      × (r'.pipeline_configs ≡ r.pipeline_configs)
      × (r'.zenoh_session ≡ r.zenoh_session)

  Restarted-Continues :
      (pid : String) (c : PipelineConfig) (r : AgentRuntime) (x : AgentRuntime × Bool)
      → Restarted env pid none c r x
      → x.1 ≡ true
      → Continues pid r x.0
  Restarted-Continues pid c r (r', false) h made = absurd cc
  Restarted-Continues pid c r (r', true) (rest, agent, configs, pipes) made = (
    ground (arith, pipes pid, eq_refl pid),
    λ j h. ground (arith, pipes j, h),
    configs,
    rest.session,
  )

  start_saved-Continues :
      (pid : String) (c : PipelineConfig) (r : AgentRuntime)
      → AllGoes r
      → lookup pid r.pipeline_configs ≡ some c
      → Continues pid r (start_saved env pid r)
  unfolding start_pipeline
  start_saved-Continues pid c r (creates, stops, up) stored =
      let q : start_pipeline env pid none r ≡ restart env pid none c r =
        rw (stored, start_pipeline) in
      let (runs, others, configs, session) : Continues pid r (start_pipeline env pid none r).0 =
        rw (q) (
          Restarted-Continues pid c r (restart env pid none c r)
            (restart-Restarted env pid none c r) (restart-made pid none c r creates stops up)) in
      let (pipes, configs', session') = start_saved-SameStarts pid r in
      (
        ap (has pid) pipes ∙ runs,
        λ j h. ap (has j) pipes ∙ others j h,
        configs' ∙ configs,
        session' ∙ session,
      )

  -- A configuration is stored for each id.
  abbrev AreStored : List String → AgentRuntime → Type 0
  AreStored pids r = All (λ pid. has pid r.pipeline_configs ≡ true) pids

  AreStored-same :
      (pids : List String) (r r' : AgentRuntime)
      → r'.pipeline_configs ≡ r.pipeline_configs
      → AreStored pids r
      → AreStored pids r'
  AreStored-same [] r r' e h = tt
  AreStored-same (pid ∷ pids) r r' e (h, hs) = (ap (has pid) e ∙ h, AreStored-same pids r r' e hs)

  start_all-runs :
      (pids : List String) (j : String) (r : AgentRuntime)
      → AllGoes r
      → AreStored pids r
      → (has j r.pipelines ≡ true) ⊎ (elem j pids ≡ true)
      → has j (start_all env pids r).pipelines ≡ true
  unfolding start_all
  start_all-runs [] j r goes stored (inl h) = h
  start_all-runs [] j r goes stored (inr h) = absurd cc
  start_all-runs (pid ∷ pids) j r (creates, stops, up) (here, stored) h =
      elim (Option-cases (lookup pid r.pipeline_configs)) [
        | inl missing ↦ absurd (ground (arith, here, missing))
        | inr (c, e) ↦
            let (runs, others, configs, session) =
              start_saved-Continues pid c r (creates, stops, up) e in
            let r' = start_saved env pid r in
            let next : (has j r'.pipelines ≡ true) ⊎ (elem j pids ≡ true) = elim h [
              | inl before ↦ inl (others j before)
              | inr known ↦ elim (Bool-cases (pid == j)) [
                | inl same ↦ inl (let p = (eq_iff pid j).0 same in rw (← p) runs)
                | inr other ↦ inr (ground (arith, known, other))
              ]
            ] in
            start_all-runs pids j r' (creates, stops, session ∙ up)
              (AreStored-same pids r r' configs stored) next
      ]

store_saved-has :
    (ps : List PipelineConfig) (j : String) (r : AgentRuntime)
    → has j r.pipeline_configs ≡ true
    → has j (store_saved ps r).pipeline_configs ≡ true
unfolding store_saved
store_saved-has [] j r h = h
store_saved-has (p ∷ ps) j r h =
    store_saved-has ps j _ (ground (arith, h, lookup-insert p.id j p r.pipeline_configs))

store_saved-SameRest :
    (ps : List PipelineConfig) (r : AgentRuntime)
    → ((store_saved ps r).pipelines ≡ r.pipelines)
      × ((store_saved ps r).zenoh_session ≡ r.zenoh_session)
unfolding store_saved
store_saved-SameRest [] r = (refl, refl)
store_saved-SameRest (p ∷ ps) r = store_saved-SameRest ps _

abbrev AllSaved : List PipelineConfig → AgentRuntime → Type 0
AllSaved ps r = All (λ p. has p.id r.pipeline_configs ≡ true) ps

store_saved-AllSaved :
    (ps : List PipelineConfig) (r : AgentRuntime) → AllSaved ps (store_saved ps r)
unfolding store_saved
store_saved-AllSaved [] r = tt
store_saved-AllSaved (p ∷ ps) r = (
  store_saved-has ps p.id _
      (ground (arith, eq_refl p.id, lookup-insert p.id p.id p r.pipeline_configs)),
  store_saved-AllSaved ps _,
)

elem-to_start :
    (ps : List PipelineConfig) (j : String) (r : AgentRuntime)
    → AllSaved ps r
    → elem j (to_start ps r) ≡ elem j (active_ids ps)
unfolding to_start
elem-to_start [] j r h = refl
elem-to_start (p ∷ ps) j r (h, hs) = ground (arith, h, elem-to_start ps j r hs)

to_start-stored :
    (env : Env) (ps : List PipelineConfig) (r : AgentRuntime) → AreStored env (to_start ps r) r
unfolding to_start
to_start-stored env [] r = tt
to_start-stored env (p ∷ ps) r =
    if-cases (λ pids. AreStored env pids r) (p.active && has p.id r.pipeline_configs)
      (λ h. (ground (arith, h), to_start-stored env ps r)) (λ h. to_start-stored env ps r)

-- A runtime that has begun with no pipeline recovers only pipelines that were saved as active; and
-- where nothing fails, it recovers all of them.
pub recover_session-active :
    (env : Env) (s : Session) (r : AgentRuntime) (j : String)
    → r.pipelines ≡ []
    → let r' = recover_session env (some s) r in
      (has j r'.pipelines ≡ true → elem j (active_ids s.pipelines) ≡ true)
      × (AllGoes env r → elem j (active_ids s.pipelines) ≡ true → has j r'.pipelines ≡ true)
unfolding recover_session lookup
recover_session-active env s r j empty =
    let stored = store_saved s.pipelines r in
    let ids = to_start s.pipelines stored in
    let known = elem-to_start s.pipelines j stored (store_saved-AllSaved s.pipelines r) in
    let (pipes, session) = store_saved-SameRest s.pipelines r in
    (
      λ h. elim (start_all-only env ids j stored h) [
        | inl before ↦
            absurd (let none_yet : false ≡ true = sym (ap (has j) (pipes ∙ empty)) ∙ before in cc)
        | inr saved ↦ sym known ∙ saved
      ],
      λ (creates, stops, up) h.
          start_all-runs env ids j stored (creates, stops, session ∙ up)
            (to_start-stored env s.pipelines stored) (inr (known ∙ h)),
    )
