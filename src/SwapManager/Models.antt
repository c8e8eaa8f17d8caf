-- ===== src/SwapManager/Models.antt =====
-- plugins/language_model/swap_manager.py: `add_model`, `remove_model` and `shutdown`.
use locai_link.Base.{
  ℕ, String, Bool, true, false, not, Option, none, some, List, [], ◌∷◌, if◌then◌else◌,
}
use locai_link.Dict.{Dict, insert, erase, has}
use locai_link.SwapManager.{
  SwapManager, Model, Ttl, unset, integer, no_integer, ℤ, pos, negsuc, model_ttl, write_config,
  add_telemetry_callback, remove_telemetry_callback,
}
use locai_link.SwapManager.Processes.{
  Process, Machine, Outcome, bad_ttl, config_not_written, is_running, stop, stop_proxy, start,
  reload, ensure_proxy,
}

-- The check of `ttl`, and the value that is stored.
unfoldable pub checked_ttl : Ttl → Option ℤ
checked_ttl unset = some model_ttl
checked_ttl (integer (pos n)) = some (pos n)
checked_ttl (integer (negsuc ℕ.zero)) = some (negsuc 0)
checked_ttl (integer (negsuc (ℕ.suc n))) = none
checked_ttl no_integer = none

module _ (w : Machine) where
  -- What follows the write of the file, and what does where a model is removed.
  unfoldable pub after_write : SwapManager × Bool → List Process → Outcome
  after_write (m, false) qs = (m, qs, some config_not_written)
  after_write (m, true) qs = if is_running m qs then reload w m qs else start w m qs

  unfoldable pub after_rewrite : SwapManager × Bool → List Process → Outcome
  after_rewrite (m, false) qs = (m, qs, some config_not_written)
  after_rewrite (m, true) qs = if is_running m qs then reload w m qs else (m, qs, none)

module _ (w : Machine) (show : ℕ → String) (server_bin : String) where
  unfoldable pub set_model : String → Model → SwapManager → List Process → Outcome
  unfolding after_write
  set_model model_id model m qs =
      after_write w
        (write_config show server_bin w.config_write
          (record m { models = insert model_id model m.models }))
        qs

  unfoldable pub add_checked :
      String → String → List String → Dict String → Option ℤ → SwapManager → List Process → Outcome
  add_checked model_id model_path extra_args env none m qs = (m, qs, some bad_ttl)
  add_checked model_id model_path extra_args env (some t) m qs =
      set_model model_id (record { path = model_path; args = extra_args; env = env; ttl = t }) m qs

  unfoldable pub add_model :
      String → String → List String → Dict String → Ttl → SwapManager → List Process → Outcome
  unfolding add_checked
  add_model model_id model_path extra_args env ttl m qs =
      add_checked model_id model_path extra_args env (checked_ttl ttl) m qs

  -- What follows the removal of the entry, by the models that are left.
  unfoldable pub remove_rest : Dict Model → SwapManager → List Process → Outcome
  unfolding after_rewrite
  remove_rest [] m qs =
      let (m', qs') = stop (stop_proxy m) qs in
      (record m' { config = none; registered = false }, qs', none)
  remove_rest (e ∷ es) m qs = after_rewrite w (write_config show server_bin w.config_write m) qs

  unfoldable pub remove_model : String → SwapManager → List Process → Outcome
  unfolding remove_rest
  remove_model model_id m qs =
      if not (has model_id m.models)
      then (m, qs, none)
      else remove_rest (erase model_id m.models) (record m { models = erase model_id m.models }) qs

unfoldable pub shutdown : SwapManager → List Process → SwapManager × List Process
shutdown m qs = let (m', qs') = stop (stop_proxy m) qs in (record m' { registered = false }, qs')

-- A call from outside, on the lock.
pub data Op : Type 0 where
  add : String → String → List String → Dict String → Ttl → Op
  remove : String → Op
  shut_down : Op
  front : Op
  subscribe : ℕ → Op
  unsubscribe : ℕ → Op

module _ (w : Machine) (show : ℕ → String) (server_bin : String) where
  unfoldable pub perform : Op → SwapManager → List Process → Outcome
  perform (add model_id path args env ttl) m qs =
      add_model w show server_bin model_id path args env ttl m qs
  perform (remove model_id) m qs = remove_model w show server_bin model_id m qs
  perform shut_down m qs = ((shutdown m qs).0, (shutdown m qs).1, none)
  perform front m qs = ((ensure_proxy w m qs).0, qs, (ensure_proxy w m qs).1)
  perform (subscribe cb) m qs = (add_telemetry_callback cb m, qs, none)
  perform (unsubscribe cb) m qs = (remove_telemetry_callback cb m, qs, none)
