-- ===== src/Cli/Start.antt =====
-- src/link/main.py: `run` up to the runtime, `register`, `self_check`, and what follows a request
-- for an update. A session file that `--config` names is one in the folder of the sessions.
pub mod Resumed
use locai_link.Base.{
  ℕ, String, Bool, true, false, not, ◌&&◌, ◌||◌, Option, none, some, eqb, ◌==◌, if◌then◌else◌,
  is_some,
}
use locai_link.Json.{Json}
use locai_link.Config.{GenericConfig, AgentConfig}
use locai_link.Templating.{load_config}
use locai_link.Health.Requests.{after_prefix}
use locai_link.Onboarding.Enrolling.{Host, enroll_device, register_with_key}
use locai_link.State.{StateManager, Session, Outcome, load_state, bootstrap}
use locai_link.Updater.{
  InstallRoot, World, SwapResult, updated, up_to_date, failed, swap_bundle, read_manifest,
  resolve_pointer,
}

pub record Args : Type 0 where
  pub config : Option String
  pub registration_key : Option String
  pub fleet_key : Option String
  pub api_url : Option String

-- What a start meets: what onboarding does, the construction of an `AgentConfig` from a session,
-- the content of a configuration file (`none` where it is missing or holds no JSON), the name
-- that the clock gives to a new session file, the address of Control, the last part of a path,
-- how the write of a session file ends, and whether a Zenoh session opens.
pub record Boot : Type 0 where
  pub host : Host
  pub parse : Session → Option AgentConfig
  pub config_file : String → Option Json
  pub filename : String
  pub default_api_url : String
  pub file_name : String → String
  pub write : Outcome
  pub zenoh_opens : Bool

-- An argument or variable that is empty counts as missing.
unfoldable pub given : Option String → Option String
given none = none
given (some s) = if s == "" then none else some s

unfoldable pub api_url : String → Option String → String
unfolding given
api_url default o = elim (given o) [ none ↦ default | some url ↦ url ]

-- A state, whether the fleet marker is there, and a configuration, or `none` where the process
-- exits with status 1.
pub record Started : Type 0 where
  pub manager : StateManager
  pub marker : Bool
  pub config : Option AgentConfig

module _ (b : Boot) where
  -- What follows the attempt to get a configuration for a new session.
  unfoldable pub begin_session : StateManager → Bool → Option AgentConfig → Started
  begin_session m marker none = record { manager = m; marker = marker; config = none }
  begin_session m marker (some c) = record {
    manager = bootstrap b.write b.filename c m;
    marker = marker;
    config = some c;
  }

  unfoldable pub load_file : String → Option AgentConfig
  load_file path = load_config b.host.str b.host.validate (b.config_file path)

  -- C. the ladder of fallbacks
  unfoldable pub onboard : Option String → Option String → String → StateManager → Bool → Started
  onboard (some key) fleet url m marker = begin_session m marker (register_with_key b.host key url)
  onboard none (some key) url m marker =
      let (config, marker') = enroll_device b.host key url marker in begin_session m marker' config
  onboard none none url m true = record { manager = m; marker = true; config = none }
  onboard none none url m false = begin_session m false (load_file "configs/default_config.json")

  unfoldable pub parse_loaded : Option Session → Option AgentConfig
  parse_loaded none = none
  parse_loaded (some s) = b.parse s

  -- B. the latest session; one that does not parse is passed over.
  unfoldable pub resume : Option AgentConfig → Args → StateManager → Bool → Started
  unfolding given
  resume (some c) a m marker = record { manager = m; marker = marker; config = some c }
  resume none a m marker =
      onboard (given a.registration_key) (given a.fleet_key) (api_url b.default_api_url a.api_url) m
        marker

  is_session_file : String → Bool
  is_session_file path = is_some (after_prefix "session_" (b.file_name path))

  -- A. the file that the command line names
  unfoldable pub explicit : String → StateManager → Bool → Started
  unfolding is_session_file
  explicit path m marker =
      if is_session_file path
      then (let (m', loaded) = load_state (some (b.file_name path)) m in
          record { manager = m'; marker = marker; config = parse_loaded loaded })
      else begin_session m marker (load_file path)

  -- Phase 1 of `run`.
  unfoldable pub resolve_identity : Args → StateManager → Bool → Started
  unfolding given
  resolve_identity a m marker = elim (given a.config) [
    | some path ↦ explicit path m marker
    | none ↦ let (m', loaded) = load_state none m in resume (parse_loaded loaded) a m' marker
  ]

  uses_zenoh : Option GenericConfig → Bool
  uses_zenoh none = false
  uses_zenoh (some t) = t.type == "zenoh"

  -- Phase 2 up to the runtime: the configuration that the runtime is started with, if any.
  unfoldable pub start : Args → StateManager → Bool → Started
  unfolding uses_zenoh
  start a m marker =
      let s = resolve_identity a m marker in
      elim s.config [
        | none ↦ s
        | some c ↦
            if uses_zenoh c.transport && not b.zenoh_opens then record s { config = none } else s
      ]

  -- `register`: the variables stand in for keys that are not given; the result is the exit status.
  unfoldable pub register_keys :
      Option String → Option String → String → StateManager → Bool → Started × ℕ
  register_keys (some fleet) reg url m marker =
      let (config, marker') = enroll_device b.host fleet url marker in
      (begin_session m marker' config, if is_some config then 0 else 1)
  register_keys none (some key) url m marker =
      let config = register_with_key b.host key url in
      (begin_session m marker config, if is_some config then 0 else 1)
  register_keys none none url m marker = (record { manager = m; marker = marker; config = none }, 1)

  unfoldable pub or_env : Option String → Option String → Option String
  unfolding given
  or_env o env = elim (given o) [ some s ↦ some s | none ↦ given env ]

  -- What follows the look for a session.
  unfoldable pub register_new :
      Option String → Option String → Args → StateManager → Bool → Option Session → Started × ℕ
  unfolding or_env
  register_new env_fleet env_reg a m marker (some s) =
      (record { manager = m; marker = marker; config = none }, 0)
  register_new env_fleet env_reg a m marker none =
      register_keys (or_env a.fleet_key env_fleet) (or_env a.registration_key env_reg)
        (api_url b.default_api_url a.api_url) m marker

  unfoldable pub register : Option String → Option String → Args → StateManager → Bool → Started × ℕ
  unfolding register_new
  register env_fleet env_reg a m marker =
      let (m', loaded) = load_state none m in register_new env_fleet env_reg a m' marker loaded

  -- `self_check`: `plugins` says whether the plugins can be listed.
  unfoldable pub self_check : Bool → StateManager → ℕ
  unfolding uses_zenoh
  self_check plugins m = elim (load_state none m).1 [
    | none ↦ if plugins then 0 else 1
    | some s ↦ elim (b.parse s) [
      | none ↦ 1
      | some c ↦ if uses_zenoh c.transport && not b.zenoh_opens then 1 else if plugins then 0 else 1
    ]
  ]

-- How `_apply_update_and_reexec` ends: it returns, or exits with a status.
unfoldable pub swap_status : Bool → SwapResult → Option ℕ
swap_status found updated = some 42
swap_status found up_to_date = some 42
swap_status found failed = if found then some 1 else some 42

-- A release is looked up only for a version whose manifest is read.
unfoldable pub apply_update_and_reexec : Bool → World → InstallRoot → InstallRoot × Option ℕ
apply_update_and_reexec frozen w root =
    let found =
      is_some w.release
      || not (is_some (read_manifest w (resolve_pointer root.versions root.current))) in
    let (root', result) = swap_bundle w root in
    if frozen then (root', swap_status found result) else (root, none)

-- What the running service's health endpoint tells, if it answers; `update_available` as it counts.
pub data Health : Type 0 where
  not_running unreachable : Health
  healthy : Bool → Health

post_status : Option ℕ → ℕ
post_status none = 1
post_status (some status) = if eqb status 202 then 0 else if eqb status 409 then 0 else 1

-- `update`, by its exit status; `post` is the status that the service answers to the request.
unfoldable pub update : Health → Bool → Option ℕ → ℕ
unfolding post_status
update not_running force post = 1
update unreachable force post = 1
update (healthy available) force post = if not available && not force then 0 else post_status post
