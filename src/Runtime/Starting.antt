-- ===== src/Runtime/Starting.antt =====
-- What `_stop_pipeline` and `_start_pipeline` do to the pipelines and to their configurations.
use locai_link.Base.{
  String, Bool, true, false, Option, none, some, ◌≡◌, refl, ◌∙◌, ap, ◌⊎◌, inl, inr, arith,
  Bool-cases, Option-cases, ◌==◌, eq_iff, if◌then◌else◌,
}
use locai_link.Config.{PipelineConfig}
use locai_link.Dict.{Dict, lookup, insert}
use locai_link.Dict.Laws.{lookup-insert, lookup-erase}
use locai_link.Runtime.{AgentRuntime, Env}
use locai_link.Runtime.Pipelines.{
  pipeline_of, build, stop_pipeline, commit_start, halt, build_and_commit, restart, unchanged,
  start_pipeline,
}
use locai_link.Runtime.Frame.{
  SameRest, SameConfigs, SameRest-trans, SameConfigs-trans, stop_pipeline-SameConfigs,
  build-SameConfigs, pipelines-build,
}

-- The new configuration, where one was given.
abbrev pub pending_configs : String → Option PipelineConfig → AgentRuntime → Dict PipelineConfig
pending_configs pid none r = r.pipeline_configs
pending_configs pid (some p) r = insert pid p r.pipeline_configs

module _ (env : Env) where
  -- A stop that succeeds removes exactly the pipeline named, and one that fails removes none.
  pub lookup-stop_pipeline :
      (pid j : String) (r : AgentRuntime)
      → let (r', stopped) = stop_pipeline env pid r in
        lookup j r'.pipelines ≡ (
          if stopped then if pid == j then none else lookup j r.pipelines else lookup j r.pipelines)
  unfolding stop_pipeline
  lookup-stop_pipeline pid j r = elim (Option-cases (lookup pid r.pipelines)) [
    | inl e ↦ ground (arith, e, eq_iff pid j)
    | inr (p, e) ↦ ground (arith, e, lookup-erase pid j r.pipelines)
  ]

  commit_start-SameRest :
      (pid : String) (pending : Option PipelineConfig) (c : PipelineConfig) (r : AgentRuntime)
      → let r' = commit_start env pid pending c r in
        SameRest r r'
        × (r'.agent_config ≡ r.agent_config)
        × (r'.pipeline_configs ≡ pending_configs pid pending r)
        × (r'.pipelines ≡ insert pid (pipeline_of c) r.pipelines)
  unfolding commit_start
  commit_start-SameRest pid pending c r = ground arith

  same_pending :
      (pid : String) (pending : Option PipelineConfig) (r r' : AgentRuntime)
      → r'.pipeline_configs ≡ r.pipeline_configs
      → pending_configs pid pending r' ≡ pending_configs pid pending r
  same_pending pid none r r' h = h
  same_pending pid (some p) r r' h = ap (insert pid p) h

  -- What a restart leaves, by how it ends.
  abbrev pub Restarted :
      String → Option PipelineConfig → PipelineConfig → AgentRuntime → AgentRuntime × Bool → Type 0
  Restarted pid pending c r (r', true) =
      SameRest r r'
      × (r'.agent_config ≡ r.agent_config)
      × (r'.pipeline_configs ≡ pending_configs pid pending r)
      × ((j : String)
          → lookup j r'.pipelines
            ≡ (if pid == j then some (pipeline_of c) else lookup j r.pipelines))
  Restarted pid pending c r (r', false) =
      SameConfigs r r'
      × ((j : String)
          → (lookup j r'.pipelines ≡ lookup j r.pipelines)
            ⊎ ((pid ≡ j) × (lookup j r'.pipelines ≡ none)))

  lookup-halt :
      (pid j : String) (r : AgentRuntime)
      → let (r', stopped) = halt env pid r in
        lookup j r'.pipelines ≡ (
          if stopped then if pid == j then none else lookup j r.pipelines else lookup j r.pipelines)
  unfolding halt
  lookup-halt pid j r = elim (Option-cases (lookup pid r.pipelines)) [
    | inl e ↦ ground (arith, e, eq_iff pid j)
    | inr (p, e) ↦ ground (arith, e, lookup-stop_pipeline pid j r)
  ]

  pub halt-SameConfigs : (pid : String) (r : AgentRuntime) → SameConfigs r (halt env pid r).0
  unfolding halt
  halt-SameConfigs pid r = ground (arith, stop_pipeline-SameConfigs env pid r)

  build_and_commit-Restarted :
      (pid : String) (pending : Option PipelineConfig) (c : PipelineConfig) (r r1 : AgentRuntime)
      → SameConfigs r r1
      → ((j : String) → lookup j r1.pipelines ≡ (if pid == j then none else lookup j r.pipelines))
      → Restarted pid pending c r (build_and_commit env pid pending c r1)
  unfolding build_and_commit
  build_and_commit-Restarted pid pending c r r1 same gone =
      let r2 = (build env c r1).0 in
      let same2 = SameConfigs-trans r r1 r2 same (build-SameConfigs env c r1) in
      let pipes = pipelines-build env c r1 in
      let (rest, agent, configs, started) = commit_start-SameRest pid pending c r2 in
      elim (Bool-cases (build env c r1).1) [
        | inl built ↦ rw built (
          SameRest-trans r r2 (commit_start env pid pending c r2) same2.rest rest,
          ground (arith, agent, same2.agent),
          configs ∙ same_pending pid pending r r2 same2.configs,
          λ j.
              ground
                (arith, started, pipes, gone j, lookup-insert pid j (pipeline_of c) r2.pipelines),
        )
        | inr broken ↦ rw broken (same2, λ j. ground (arith, pipes, gone j, eq_iff pid j))
      ]

  pub restart-Restarted :
      (pid : String) (pending : Option PipelineConfig) (c : PipelineConfig) (r : AgentRuntime)
      → Restarted pid pending c r (restart env pid pending c r)
  unfolding restart
  restart-Restarted pid pending c r = elim (Bool-cases (halt env pid r).1) [
    | inl stopped ↦ rw stopped (
        build_and_commit-Restarted pid pending c r (halt env pid r).0 (halt-SameConfigs pid r)
          (λ j. ground (arith, lookup-halt pid j r, stopped)))
    | inr still ↦
        rw still (halt-SameConfigs pid r, λ j. inl (ground (arith, lookup-halt pid j r, still)))
  ]

  -- The configuration that a start takes: the new one, or else the stored one.
  abbrev pub Chosen : String → Option PipelineConfig → PipelineConfig → AgentRuntime → Type 0
  Chosen pid none c r = lookup pid r.pipeline_configs ≡ some c
  Chosen pid (some new) c r = new ≡ c

  -- A start keeps the running pipeline, has no configuration to start from, or restarts.
  abbrev pub Attempt : String → Option PipelineConfig → AgentRuntime → Type 0
  Attempt pid pending r =
      ((new : PipelineConfig) × (pending ≡ some new)
        × (unchanged pid new r ≡ true)
        × (start_pipeline env pid pending r ≡ (r, true)))
      ⊎ (start_pipeline env pid pending r ≡ (r, false))
      ⊎ ((c : PipelineConfig) × Chosen pid pending c r
          × (start_pipeline env pid pending r ≡ restart env pid pending c r))

  pub start_pipeline_cases :
      (pid : String) (pending : Option PipelineConfig) (r : AgentRuntime) → Attempt pid pending r
  unfolding start_pipeline
  start_pipeline_cases pid none r = elim (Option-cases (lookup pid r.pipeline_configs)) [
    | inl e ↦ inr (inl (rw (e, start_pipeline)))
    | inr (c, e) ↦ inr (inr (c, e, rw (e, start_pipeline)))
  ]
  start_pipeline_cases pid (some new) r = elim (Bool-cases (unchanged pid new r)) [
    | inl e ↦ inl (new, refl, e, rw (e, start_pipeline))
    | inr e ↦ inr (inr (new, refl, rw (e, start_pipeline)))
  ]

  -- The configurations as they were, and no pipeline but the one named changed: it is as it was,
  -- or it does not run.
  abbrev pub Halted : String → AgentRuntime → AgentRuntime → Type 0
  Halted pid r r' =
      SameConfigs r r'
      × ((j : String)
          → (lookup j r'.pipelines ≡ lookup j r.pipelines)
            ⊎ ((pid ≡ j) × (lookup j r'.pipelines ≡ none)))

  pub Restarted-false :
      (pid : String) (pending : Option PipelineConfig) (c : PipelineConfig) (r : AgentRuntime)
      (x : AgentRuntime × Bool)
      → Restarted pid pending c r x
      → x.1 ≡ false
      → Halted pid r x.0
  Restarted-false pid pending c r (r', true) h e = cc
  Restarted-false pid pending c r (r', false) h e = h

  pub Restarted-true :
      (pid : String) (pending : Option PipelineConfig) (c : PipelineConfig) (r : AgentRuntime)
      (x : AgentRuntime × Bool)
      → Restarted pid pending c r x
      → x.1 ≡ true
      → Restarted pid pending c r (x.0, true)
  Restarted-true pid pending c r (r', true) h e = h
  Restarted-true pid pending c r (r', false) h e = cc
