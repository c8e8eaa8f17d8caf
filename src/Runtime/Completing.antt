-- ===== src/Runtime/Completing.antt =====
-- A deploy that is not disturbed: src/link/app/runtime.py, `_deploy_worker` from start to end.
use locai_link.Base.{
  ℕ, zero, suc, ◌+◌, true, false, some, List, [], ◌∷◌, ◌++◌, map, ◌≡◌, ◌≢◌, refl, arith, ap, ◌∙◌,
  eq_refl, elem, without,
}
use locai_link.Dict.{lookup, insert}
use locai_link.Dict.Laws.{lookup-insert_self}
use locai_link.State.{update_pipeline_config}
use locai_link.Runtime.{AgentRuntime, Env, completed, failed, report, command, progress}
use locai_link.Runtime.Frame.{persist-SameConfigs}
use locai_link.Runtime.Deploys.{
  Deploy, queued, connecting, downloading, published, finished, Event, ready, opened, chunk, ended,
  System, report_failed, end_worker, set_progress, clear_progress, begin, publish_download,
  commit_deploy, finish_deploy, advance, is_cancelled, is_short, store,
}
use locai_link.Runtime.Cancelling.{unregister_keeps, report_failed-Harmless}

abbrev pub sum : List ℕ → ℕ
sum [] = 0
sum (n ∷ ns) = n + sum ns

-- The events of a deploy whose download is announced and arrives in these chunks.
abbrev pub whole_download : List ℕ → List Event
whole_download ns = ready ∷ opened (sum ns) ∷ (map chunk ns ++ ended true ∷ ready ∷ ready ∷ [])

module _ (env : Env) where
  -- The worker meets these events, and no command is handled meanwhile.
  unfoldable pub work_all : Deploy → List Event → System → System
  work_all d [] s = s
  work_all d (e ∷ es) s = work_all d es (advance env d s.phase e s.runtime)

  advance-chunk :
      (d : Deploy) (r : AgentRuntime) (total done n : ℕ)
      → is_cancelled d r ≡ false
      → advance env d (downloading total done) (chunk n) r
        ≡ record { runtime = r; phase = downloading total (done + n) }
  unfolding advance
  advance-chunk d r total done n h = rw h refl

  work_all-chunks :
      (d : Deploy) (r : AgentRuntime) (total done : ℕ) (ns : List ℕ) (es : List Event)
      → is_cancelled d r ≡ false
      → work_all d (map chunk ns ++ es) (record { runtime = r; phase = downloading total done })
        ≡ work_all d es (record { runtime = r; phase = downloading total (done + sum ns) })
  unfolding work_all advance
  work_all-chunks d r total done [] es h =
      ap (λ k. work_all d es (record { runtime = r; phase = downloading total k })) (omega arith)
  work_all-chunks d r total done (n ∷ ns) es h =
      ap (work_all d (map chunk ns ++ es)) (advance-chunk d r total done n h)
      ∙ (work_all-chunks d r total (done + n) ns es h
          ∙ ap (λ k. work_all d es (record { runtime = r; phase = downloading total k }))
              (omega arith))

  publish_complete :
      (d : Deploy) (total done : ℕ) (r : AgentRuntime)
      → is_cancelled d r ≡ false
      → done ≡ total
      → publish_download env d total done true r ≡ record {
        runtime = record r { artifacts = env.model_file d.model_name ∷ r.artifacts };
        phase = published;
      }
  unfolding publish_download is_short
  publish_complete d zero done r h e = rw h refl
  publish_complete d (suc n) done r h e = ground (arith, h, e)

  publish_short :
      (d : Deploy) (n done : ℕ) (r : AgentRuntime)
      → done ≢ suc n
      → publish_download env d (suc n) done true r ≡ report_failed d r
  unfolding publish_download is_short
  publish_short d n done r h = ground (arith, h)

  -- A stream that ends after another number of bytes than the one that was announced makes the
  -- deploy fail, and no file is published.
  pub short_download_fails :
      (d : Deploy) (r : AgentRuntime) (n : ℕ) (ns : List ℕ)
      → is_cancelled d r ≡ false
      → sum ns ≢ suc n
      → let s =
          work_all d
            (map chunk ns ++ ended true ∷ [])
            (record { runtime = r; phase = downloading (suc n) 0 }) in
        (s.phase ≡ finished failed) × (s.runtime.artifacts ≡ r.artifacts)
  unfolding work_all advance report_failed end_worker
  short_download_fails d r n ns h short =
      rw
        (
          work_all-chunks d r (suc n) 0 ns (ended true ∷ []) h,
          publish_short d n (0 + sum ns) r (λ e. short (omega (arith, e))),
        )
        (refl, (report_failed-Harmless d r).1)

  store_keeps :
      (d : Deploy) (r : AgentRuntime)
      → (lookup d.pipeline_id (store env d r).pipeline_configs ≡ some d.config)
        × ((store env d r).artifacts ≡ r.artifacts)
  unfolding store
  store_keeps d r =
      let stored = record r {
        pipeline_configs = insert d.pipeline_id d.config r.pipeline_configs;
        aliased = without d.pipeline_id r.aliased;
      } in
      let same = persist-SameConfigs env (λ o. update_pipeline_config o d.config) stored in
      ground (
        arith,
        same.rest.artifacts,
        same.configs,
        lookup-insert_self d.pipeline_id d.config r.pipeline_configs,
      )

  commit_completes :
      (d : Deploy) (r : AgentRuntime)
      → is_cancelled d r ≡ false
      → let s = commit_deploy env d r in
        let t = advance env d s.phase ready s.runtime in
        (t.phase ≡ finished completed)
        × (lookup d.pipeline_id t.runtime.pipeline_configs ≡ some d.config)
        × (t.runtime.artifacts ≡ r.artifacts)
  unfolding commit_deploy finish_deploy advance is_cancelled end_worker set_progress clear_progress
      report
  commit_completes d r h =
      let r1 =
        set_progress d.pipeline_id "configuring"
          (report (progress d.pipeline_id "configuring") r) in
      let r2 = report (command d.command_id completed) (
        clear_progress d.pipeline_id
          (report (progress d.pipeline_id "completed") (store env d r1))) in
      rw (h) (ground (arith, store_keeps d r1, unregister_keeps d r2))

  begin_downloads :
      (d : Deploy) (r : AgentRuntime)
      → is_cancelled d r ≡ false
      → elem (env.model_file d.model_name) r.artifacts ≡ false
      → begin env d r ≡ record { runtime = r; phase = connecting }
  unfolding begin
  begin_downloads d r h new = rw (h, new) refl

  -- The runtime when the file was renamed.
  abbrev with_file : Deploy → AgentRuntime → AgentRuntime
  with_file d r =
      let r' =
        set_progress d.pipeline_id "downloading"
          (report (progress d.pipeline_id "downloading") r) in
      record r' { artifacts = env.model_file d.model_name ∷ r'.artifacts }

  whole_download_lem :
      (d : Deploy) (r : AgentRuntime) (ns : List ℕ)
      → is_cancelled d r ≡ false
      → elem (env.model_file d.model_name) r.artifacts ≡ false
      → work_all d (whole_download ns) (record { runtime = r; phase = queued })
        ≡ (let s = commit_deploy env d (with_file d r) in advance env d s.phase ready s.runtime)
  unfolding work_all advance is_cancelled set_progress report
  whole_download_lem d r ns h new =
      let r1 =
        set_progress d.pipeline_id "downloading"
          (report (progress d.pipeline_id "downloading") r) in
      let rest = ended true ∷ ready ∷ ready ∷ [] in
      ap (work_all d (opened (sum ns) ∷ (map chunk ns ++ rest))) (begin_downloads d r h new)
      ∙ (work_all-chunks d r1 (sum ns) 0 ns rest h
          ∙ ap (work_all d (ready ∷ ready ∷ []))
              (publish_complete d (sum ns) (0 + sum ns) r1 h (omega arith)))

  -- A deploy that nobody cancels, of a file that is not there yet and arrives as announced, in
  -- any number of chunks, completes: its file is there and its configuration is stored.
  pub deploy_completes :
      (d : Deploy) (r : AgentRuntime) (ns : List ℕ)
      → is_cancelled d r ≡ false
      → elem (env.model_file d.model_name) r.artifacts ≡ false
      → let s = work_all d (whole_download ns) (record { runtime = r; phase = queued }) in
        (s.phase ≡ finished completed)
        × (lookup d.pipeline_id s.runtime.pipeline_configs ≡ some d.config)
        × (elem (env.model_file d.model_name) s.runtime.artifacts ≡ true)
  unfolding is_cancelled set_progress report
  deploy_completes d r ns h new =
      let target = env.model_file d.model_name in
      rw (whole_download_lem d r ns h new)
        (ground (arith, commit_completes d (with_file d r) h, eq_refl target))
