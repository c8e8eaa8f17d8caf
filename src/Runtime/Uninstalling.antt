-- ===== src/Runtime/Uninstalling.antt =====
-- What removing a model deletes.
use locai_link.Base.{
  String, Bool, true, false, Option, none, some, [], ◌∷◌, ◌≡◌, ◌≢◌, refl, sym, ◌∙◌, arith, eq_iff,
  eq_refl, elem, without, elem-without_ne,
}
use locai_link.Config.{PipelineConfig}
use locai_link.Dict.{Dict, lookup, erase}
use locai_link.State.{remove_pipeline}
use locai_link.Runtime.{AgentRuntime, Env, report, persist}
use locai_link.Runtime.Frame.{persist-SameConfigs, stop_pipeline-SameConfigs}
use locai_link.Runtime.Pipelines.{stop_pipeline}
use locai_link.Runtime.Models.{
  config_path, uses, used_elsewhere, shared, artifact_path, delete_artifact, report_uninstalled,
  uninstall_found, uninstall,
}

module _ (env : Env) where
  config_path-none : config_path env none ≡ none
  unfolding config_path
  config_path-none = refl

  used_elsewhere_of :
      (pid j path : String) (d : Dict PipelineConfig)
      → pid ≢ j
      → config_path env (lookup j d) ≡ some path
      → used_elsewhere env pid path d ≡ true
  unfolding lookup used_elsewhere uses
  used_elsewhere_of pid j path [] n h = cc config_path-none
  used_elsewhere_of pid j path ((i, c) ∷ d) n h =
      ground (arith, h, n, used_elsewhere_of pid j path d n, eq_iff i j, eq_iff i pid, eq_refl path)

  delete_artifact-none :
      (q : String) (r : AgentRuntime)
      → elem q (delete_artifact env none r).artifacts ≡ elem q r.artifacts
  unfolding delete_artifact
  delete_artifact-none q r = refl

  -- The path names the same file as the other one only if it is the same path.
  abbrev pub OnlyName : Option String → String → Type 0
  OnlyName o q = (p : String) → o ≡ some p → env.file_of p ≡ env.file_of q → p ≡ q

  artifact_path-configs :
      (pid : String) (name ext : Option String) (r r' : AgentRuntime)
      → r'.pipeline_configs ≡ r.pipeline_configs
      → artifact_path env pid name ext r' ≡ artifact_path env pid name ext r
  unfolding artifact_path
  artifact_path-configs pid name ext r r' e = rw (e) refl

  delete_artifact-keeps :
      (path q : String) (r : AgentRuntime)
      → q ≢ env.file_of path
      → elem q (delete_artifact env (some path) r).artifacts ≡ elem q r.artifacts
  unfolding delete_artifact
  delete_artifact-keeps path q r n =
      ground (arith, elem-without_ne q (env.file_of path) r.artifacts n)

  delete_unshared :
      (pid j q : String) (path : Option String) (r r1 : AgentRuntime)
      → pid ≢ j
      → config_path env (lookup j r.pipeline_configs) ≡ some q
      → shared env pid path r ≡ false
      → OnlyName path q
      → elem (env.file_of q) (delete_artifact env path r1).artifacts
        ≡ elem (env.file_of q) r1.artifacts
  unfolding shared
  delete_unshared pid j q none r r1 n h s only = delete_artifact-none (env.file_of q) r1
  delete_unshared pid j q (some path) r r1 n h s only =
      delete_artifact-keeps path (env.file_of q) r1 (λ e.
        ground (arith, used_elsewhere_of pid j q r.pipeline_configs n h, s, only path refl (sym e)))

  uninstall_found-keeps :
      (cid pid : String) (name ext : Option String) (r : AgentRuntime) (j q : String)
      → pid ≢ j
      → config_path env (lookup j r.pipeline_configs) ≡ some q
      → OnlyName (artifact_path env pid name ext r) q
      → elem (env.file_of q) (uninstall_found env cid pid name ext r).artifacts
        ≡ elem (env.file_of q) r.artifacts
  unfolding uninstall_found report report_uninstalled
  uninstall_found-keeps cid pid name ext r j q n h only =
      let dropped = record r {
        pipeline_configs = erase pid r.pipeline_configs;
        aliased = without pid r.aliased;
      } in
      let saved = persist env (λ o. remove_pipeline o pid) dropped in
      let path = artifact_path env pid name ext r in
      ground (
        arith,
        λ (s : shared env pid path r ≡ false). delete_unshared pid j q path r saved n h s only,
        (persist-SameConfigs env (λ o. remove_pipeline o pid) dropped).rest.artifacts,
      )

  -- Removing a model, whether it succeeds or is refused, does not delete the file that the stored
  -- configuration of another pipeline names as its model, if the path that is to be removed,
  -- should it name this file, is the same path as the one in that configuration.
  pub uninstall_keeps :
      (cid pid : String) (force : Bool) (name ext : Option String) (r : AgentRuntime) (j q : String)
      → pid ≢ j
      → config_path env (lookup j r.pipeline_configs) ≡ some q
      → OnlyName (artifact_path env pid name ext r) q
      → elem (env.file_of q) (uninstall env cid pid force name ext r).artifacts
        ≡ elem (env.file_of q) r.artifacts
  unfolding uninstall report
  uninstall_keeps cid pid force name ext r j q n h only =
      let same = stop_pipeline-SameConfigs env pid r in
      let r' = (stop_pipeline env pid r).0 in
      ground (
        arith,
        same.rest.artifacts,
        uninstall_found-keeps cid pid name ext r j q n h only,
        uninstall_found-keeps cid pid name ext r' j q n (ground (arith, same.configs, h))
            (λ p e. only p (sym (artifact_path-configs pid name ext r r' same.configs) ∙ e)),
      )
