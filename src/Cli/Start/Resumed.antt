-- ===== src/Cli/Start/Resumed.antt =====
-- A registration and the start that comes after it: src/link/main.py.
use locai_link.Base.{
  ℕ, String, Bool, true, Option, none, some, ◌≡◌, refl, ap, arith, is_some, eq_refl, if◌then◌else◌,
}
use locai_link.Config.{AgentConfig, schema_version}
use locai_link.Dict.{lookup}
use locai_link.Dict.Laws.{lookup-insert_self}
use locai_link.Onboarding.Enrolling.{enroll_device, register_with_key}
use locai_link.Onboarding.Enrolling.Current.{
  KeepsVersion, register_with_key_current, enroll_device_current,
}
use locai_link.State.{
  StateManager, Session, written, valid, model_dump, load_state, bootstrap, flush,
  get_latest_session_file,
}
use locai_link.State.Recovery.{restarted}
use locai_link.Cli.Start.{
  Args, Boot, api_url, Started, begin_session, parse_loaded, resume, resolve_identity,
  register_keys, or_env, register_new, register,
}

-- `run` with no arguments.
abbrev pub no_args : Args
no_args = record { config = none; registration_key = none; fleet_key = none; api_url = none }

-- A configuration that is written to a session and read again is the same.
abbrev pub Rereads : Boot → Type 0
Rereads b = (c : AgentConfig) → b.parse (model_dump c) ≡ some c

load_latest :
    (m : StateManager) (path : String) (s : Session)
    → m.cache ≡ none
    → get_latest_session_file m ≡ some path
    → lookup path m.files ≡ some (valid s)
    → s.version ≡ some schema_version
    → ((load_state none m).1 ≡ some s) × ((load_state none m).0.files ≡ m.files)
unfolding load_state
load_latest m path s empty latest found version =
    ground (arith, empty, latest, found, version, eq_refl schema_version)

-- A start that finds a session that parses.
resumes :
    (b : Boot) (m : StateManager) (marker : Bool) (s : Session) (c : AgentConfig)
    → (load_state none m).1 ≡ some s
    → (load_state none m).0.files ≡ m.files
    → b.parse s ≡ some c
    → let next = resolve_identity b no_args m marker in
      (next.config ≡ some c) × (next.manager.files ≡ m.files) × (next.marker ≡ marker)
unfolding resolve_identity resume parse_loaded
resumes b m marker s c loaded files parsed = rw (loaded, parsed) (refl, files, refl)

succeeded :
    {A : Type 0} (o : Option A) → ◌≡◌ {A = ℕ} (if is_some o then 0 else 1) 0 → is_some o ≡ true
succeeded none h = absurd (omega (arith, h))
succeeded (some c) h = refl

module _ (b : Boot) where
  -- What is claimed of a new session: the next start, whatever it meets, resumes it.
  abbrev pub Resumes : Started → Type 0
  Resumes s =
      (c : AgentConfig) × (s.config ≡ some c)
      × ((b' : Boot) (marker : Bool)
          → Rereads b'
          → get_latest_session_file (restarted s.manager) ≡ some b.filename
          → let next = resolve_identity b' no_args (restarted s.manager) marker in
            (next.config ≡ some c)
            × (next.manager.files ≡ s.manager.files)
            × (next.marker ≡ marker))

module _ (b : Boot) (saved : b.write ≡ written) where
  begin_session-stored :
      (m : StateManager) (marker : Bool) (c : AgentConfig)
      → lookup b.filename (begin_session b m marker (some c)).manager.files
        ≡ some (valid (model_dump c))
  unfolding begin_session bootstrap flush
  begin_session-stored m marker c =
      rw (saved) (lookup-insert_self b.filename (valid (model_dump c)) m.files)

  begin_session-Resumes :
      (m : StateManager) (marker : Bool) (o : Option AgentConfig)
      → is_some o ≡ true
      → ((c : AgentConfig) → o ≡ some c → c.version ≡ schema_version)
      → Resumes b (begin_session b m marker o)
  unfolding begin_session model_dump
  begin_session-Resumes m marker none h v = absurd cc
  begin_session-Resumes m marker (some c) h v = (
    c,
    refl,
    λ b' marker' rereads latest.
        let left = restarted (begin_session b m marker (some c)).manager in
        let (loaded, files) =
          load_latest left b.filename (model_dump c) refl latest (begin_session-stored m marker c)
            (ap some (v c refl)) in
        resumes b' left marker' (model_dump c) c loaded files (rereads c),
  )

  module _ (keeps : KeepsVersion b.host) where
    register_keys-Resumes :
        (fleet reg : Option String) (url : String) (m : StateManager) (marker : Bool)
        → (register_keys b fleet reg url m marker).1 ≡ 0
        → Resumes b (register_keys b fleet reg url m marker).0
    unfolding register_keys
    register_keys-Resumes (some fleet) reg url m marker h =
        begin_session-Resumes m (enroll_device b.host fleet url marker).1
          (enroll_device b.host fleet url marker).0 (succeeded _ h)
          (enroll_device_current b.host keeps fleet url marker)
    register_keys-Resumes none (some key) url m marker h =
        begin_session-Resumes m marker (register_with_key b.host key url) (succeeded _ h)
          (register_with_key_current b.host keeps key url)
    register_keys-Resumes none none url m marker h = absurd (omega (arith, h))

    register_new-Resumes :
        (env_fleet env_reg : Option String) (a : Args) (m : StateManager) (marker : Bool)
        (loaded : Option Session)
        → loaded ≡ none
        → (register_new b env_fleet env_reg a m marker loaded).1 ≡ 0
        → Resumes b (register_new b env_fleet env_reg a m marker loaded).0
    unfolding register_new
    register_new-Resumes env_fleet env_reg a m marker (some s) e h = absurd cc
    register_new-Resumes env_fleet env_reg a m marker none e h =
        register_keys-Resumes (or_env b a.fleet_key env_fleet) (or_env b a.registration_key env_reg)
          (api_url b.default_api_url a.api_url) m marker h

    -- Where a configuration that is constructed keeps a version that is the schema's: if a device
    -- has no session that loads, a registration that ends with status 0 and whose session file is
    -- written has a configuration; and the first phase of a later start without arguments, in
    -- which `run` resolves the identity before it opens any connection, gives on the files that
    -- it left exactly this configuration, whatever that phase meets, and changes no file, as long
    -- as a configuration that is written reads back the same and no other session file is later.
    pub register-Resumes :
        (env_fleet env_reg : Option String) (a : Args) (m : StateManager) (marker : Bool)
        → (load_state none m).1 ≡ none
        → (register b env_fleet env_reg a m marker).1 ≡ 0
        → Resumes b (register b env_fleet env_reg a m marker).0
    unfolding register
    register-Resumes env_fleet env_reg a m marker new h =
        let (m', loaded) = load_state none m in
        register_new-Resumes env_fleet env_reg a m' marker loaded new h
