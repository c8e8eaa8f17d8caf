-- ===== src/Runtime/Swapping.antt =====
-- The hot swap of a configuration: which pipelines run when it succeeds.
use mathlib.Core.Path.{subst, sym}
use locai_link.Base.{
  String, Bool, true, false, not, ◌&&◌, Option, none, some, List, [], ◌∷◌, ◌≡◌, ◌≢◌, refl, inl, inr,
  arith, Bool-cases, eq_iff, eq_refl, elem, All,
}
use locai_link.Config.{PipelineConfig}
use locai_link.Dict.{Dict, lookup, insert, has}
use locai_link.Dict.Laws.{lookup-insert}
use locai_link.State.{find_last}
use locai_link.Runtime.{AgentRuntime, Env, Pipeline}
use locai_link.Runtime.Pipelines.{start_pipeline, stop_pipeline}
use locai_link.Runtime.Starting.{lookup-stop_pipeline}
use locai_link.Runtime.Started.{start_failed, start_succeeded}
use locai_link.Runtime.Reconfigure.{configs_from, ids, removed_ids, stop_all, swap_one, swap_each}

-- No two pipelines have one id.
abbrev pub Distinct : List PipelineConfig → Type 0
Distinct [] = Unit
Distinct (p ∷ ps) = (elem p.id (ids ps) ≡ false) × Distinct ps

-- Each pipeline of the list runs exactly if it is active.
abbrev pub RunsActive : List PipelineConfig → Dict Pipeline → Type 0
RunsActive ps pipes = All (λ p. has p.id pipes ≡ p.active) ps

not_elem :
    (x j : String) (xs : List String) → elem j (x ∷ xs) ≡ false → (x ≢ j) × (elem j xs ≡ false)
not_elem x j xs h = ground (arith, h, eq_iff x j)

module _ (env : Env) where
  start_runs :
      (pid : String) (new : PipelineConfig) (r : AgentRuntime)
      → (start_pipeline env pid (some new) r).1 ≡ true
      → has pid (start_pipeline env pid (some new) r).0.pipelines ≡ true
  start_runs pid new r h = (start_succeeded env pid new r h).runs

  stop_other :
      (pid j : String) (r : AgentRuntime)
      → pid ≢ j
      → lookup j (stop_pipeline env pid r).0.pipelines ≡ lookup j r.pipelines
  stop_other pid j r n = ground (arith, lookup-stop_pipeline env pid j r, eq_iff pid j)

  stop_named :
      (pid : String) (r : AgentRuntime)
      → (stop_pipeline env pid r).1 ≡ true
      → lookup pid (stop_pipeline env pid r).0.pipelines ≡ none
  stop_named pid r h = ground (arith, lookup-stop_pipeline env pid pid r, eq_refl pid)

  start_other :
      (pid j : String) (new : PipelineConfig) (r : AgentRuntime)
      → pid ≢ j
      → lookup j (start_pipeline env pid (some new) r).0.pipelines ≡ lookup j r.pipelines
  start_other pid j new r n = elim (Bool-cases (start_pipeline env pid (some new) r).1) [
    | inl ok ↦ ground (arith, (start_succeeded env pid new r ok).pipes j, eq_iff pid j)
    | inr bad ↦ elim ((start_failed env pid (some new) r bad).1 j) [
      | inl same ↦ same
      | inr (e, gone) ↦ absurd (n e)
    ]
  ]

  pub swap_one-other :
      (p : PipelineConfig) (j : String) (r : AgentRuntime)
      → p.id ≢ j
      → lookup j (swap_one env p r).0.pipelines ≡ lookup j r.pipelines
  unfolding swap_one
  swap_one-other p j r n = ground (arith, start_other p.id j p r n, stop_other p.id j r n)

  swap_one-runs :
      (p : PipelineConfig) (r : AgentRuntime)
      → (swap_one env p r).1 ≡ true
      → has p.id (swap_one env p r).0.pipelines ≡ p.active
  unfolding swap_one
  swap_one-runs p r h = ground (arith, start_runs p.id p r, stop_named p.id r)

  -- Pipelines that a list does not name are left alone.
  pub swap_each-other :
      (j : String) (ps : List PipelineConfig) (r : AgentRuntime)
      → elem j (ids ps) ≡ false
      → lookup j (swap_each env ps r).0.pipelines ≡ lookup j r.pipelines
  unfolding swap_each
  swap_each-other j [] r n = refl
  swap_each-other j (p ∷ ps) r n =
      let (p_ne, rest_ne) = not_elem p.id j (ids ps) n in
      ground (arith, swap_one-other p j r p_ne, swap_each-other j ps (swap_one env p r).0 rest_ne)

  pub stop_all-other :
      (j : String) (pids : List String) (r : AgentRuntime)
      → elem j pids ≡ false
      → lookup j (stop_all env pids r).0.pipelines ≡ lookup j r.pipelines
  unfolding stop_all
  stop_all-other j [] r n = refl
  stop_all-other j (pid ∷ pids) r n =
      let (pid_ne, rest_ne) = not_elem pid j pids n in
      ground (
        arith,
        stop_other pid j r pid_ne,
        stop_all-other j pids (stop_pipeline env pid r).0 rest_ne,
      )

  swap_each-cons :
      (p : PipelineConfig) (ps : List PipelineConfig) (r : AgentRuntime)
      → (swap_each env (p ∷ ps) r).1 ≡ true
      → ((swap_one env p r).1 ≡ true)
        × (swap_each env (p ∷ ps) r ≡ swap_each env ps (swap_one env p r).0)
  unfolding swap_each
  swap_each-cons p ps r h = ground (arith, h)

  stop_all-cons :
      (pid : String) (pids : List String) (r : AgentRuntime)
      → (stop_all env (pid ∷ pids) r).1 ≡ true
      → ((stop_pipeline env pid r).1 ≡ true)
        × (stop_all env (pid ∷ pids) r ≡ stop_all env pids (stop_pipeline env pid r).0)
  unfolding stop_all
  stop_all-cons pid pids r h = ground (arith, h)

  pub swap_each-RunsActive :
      (ps : List PipelineConfig) (r : AgentRuntime)
      → Distinct ps
      → (swap_each env ps r).1 ≡ true
      → RunsActive ps (swap_each env ps r).0.pipelines
  swap_each-RunsActive [] r d h = tt
  swap_each-RunsActive (p ∷ ps) r (new, d) h =
      let (ok, step) = swap_each-cons p ps r h in
      subst (λ (x : AgentRuntime × Bool). RunsActive (p ∷ ps) x.0.pipelines) (sym step)
        (
          ground (arith, swap_one-runs p r ok, swap_each-other p.id ps (swap_one env p r).0 new),
          swap_each-RunsActive ps (swap_one env p r).0 d (rw step at h),
        )

  pub stop_all-gone :
      (j : String) (pids : List String) (r : AgentRuntime)
      → (stop_all env pids r).1 ≡ true
      → elem j pids ≡ true
      → lookup j (stop_all env pids r).0.pipelines ≡ none
  stop_all-gone j [] r h m = cc
  stop_all-gone j (pid ∷ pids) r h m =
      let r' = (stop_pipeline env pid r).0 in
      let (ok, step) = stop_all-cons pid pids r h in
      rw step (elim (Bool-cases (elem j pids)) [
        | inl later ↦ stop_all-gone j pids r' (rw step at h) later
        | inr only ↦
            ground
              (arith, stop_all-other j pids r' only, stop_named pid r ok, eq_iff pid j, m, only)
      ])

-- The entry of an id in a dict built from a list is the last one of that id.
pub lookup-configs_from :
    (j : String) (d : Dict PipelineConfig) (ps : List PipelineConfig)
    → lookup j (configs_from d ps) ≡ elim (find_last j ps) as (λ _. Option PipelineConfig) [
      | some p ↦ some p
      | none ↦ lookup j d
    ]
unfolding configs_from find_last
lookup-configs_from j d [] = refl
lookup-configs_from j d (p ∷ ps) =
    ground (arith, lookup-configs_from j (insert p.id p d) ps, lookup-insert p.id j p d)

pub removed_ids_iff :
    (j : String) (old new : List PipelineConfig)
    → elem j (removed_ids old new) ≡ (elem j (ids old) && not (elem j (ids new)))
unfolding removed_ids
removed_ids_iff j [] new = refl
removed_ids_iff j (p ∷ ps) new = ground (arith, removed_ids_iff j ps new, eq_iff p.id j)
