-- ===== src/Onboarding/Enrolling/Identified.antt =====
-- Whose configuration an onboarding gives: src/link/app/onboarding.py.
use Prim.Native.String.{◌++◌}
use mathlib.Core.Path.{subst}
use locai_link.Base.{
  String, Bool, true, not, ◌||◌, Option, none, some, ◌≡◌, refl, sym, ap, ◌∙◌, arith, eq_refl,
  if-some, if-not_some, is_some, ◌&&◌,
}
use locai_link.Json.{Json, Fields, null, text, obj, end, field}
use locai_link.Config.{IdentityConfig, AgentConfig}
use locai_link.Templating.{resolve_fields, find_field}
use locai_link.Proxy.{get}
use locai_link.Onboarding.Enrolling.{
  Host, set_field, identity, validate_identity, identity_from, required_text, text_or_default,
  optional_text, bootstrap_config, resolve_fleet_key, is_version, apply_server_config, or_bootstrap,
  resolve_agent_config, redeem_device_key, configured, device_name, redeem_fleet_key,
  enroll_redeemed, enroll_device, default_name, register_redeemed, register_with_key,
}

-- A text that may be missing.
abbrev pub text_or_null : Option String → Json
text_or_null none = null
text_or_null (some s) = text s

-- The value is an object that gives this identity.
abbrev pub IsIdentity : Json → IdentityConfig → Type 0
IsIdentity (obj fs) i =
    (get "device_id" fs ≡ text i.device_id)
    × (get "device_name" fs ≡ text i.device_name)
    × (get "api_key" fs ≡ text_or_null i.api_key)
    × (get "api_url" fs ≡ text_or_null i.api_url)
IsIdentity _ i = ⊥

-- The validation of a configuration validates its identity as an `IdentityConfig`, and keeps the
-- result.
abbrev pub KeepsIdentity : (Json → Option AgentConfig) → Type 0
KeepsIdentity validate =
    (fs : Fields) (c : AgentConfig)
    → validate (obj fs) ≡ some c
    → validate_identity (find_field "identity" fs) ≡ some c.identity

find_field-set_field :
    (k : String) (v : Json) (fs : Fields) → find_field k (set_field k v fs) ≡ some v
unfolding find_field set_field
find_field-set_field k v end = ground (arith, eq_refl k)
find_field-set_field k v (field j u fs) = ground (arith, find_field-set_field k v fs)

validate_identity-IsIdentity :
    (id name key : Json) (url : String) (i : IdentityConfig)
    → validate_identity (some (identity id name key url)) ≡ some i
    → IsIdentity (identity id name key url) i
unfolding validate_identity identity find_field get identity_from required_text text_or_default
    optional_text
validate_identity-IsIdentity (text id) (text name) null url i h =
    subst (λ (j : IdentityConfig). IsIdentity (identity (text id) (text name) null url) j)
      (if-some true h).1 (refl, refl, refl, refl)
validate_identity-IsIdentity (text id) (text name) (text key) url i h =
    subst (λ (j : IdentityConfig). IsIdentity (identity (text id) (text name) (text key) url) j)
      (if-some true h).1 (refl, refl, refl, refl)
validate_identity-IsIdentity _ _ _ url i h = absurd cc

bootstrap_config-IsIdentity :
    (id name key : Json) (url : String) (c : AgentConfig)
    → bootstrap_config id name key url ≡ some c
    → IsIdentity (identity id name key url) c.identity
unfolding bootstrap_config identity get
bootstrap_config-IsIdentity (text id) (text name) (text key) url c h =
    subst
      (λ (i : AgentConfig). IsIdentity (identity (text id) (text name) (text key) url) i.identity)
      (if-some true h).1 (refl, refl, refl, refl)
bootstrap_config-IsIdentity _ _ _ url c h = absurd cc

bootstrap_config_texts :
    (id name key url : String)
    → (c : AgentConfig) × (bootstrap_config (text id) (text name) (text key) url ≡ some c)
unfolding bootstrap_config
bootstrap_config_texts id name key url = (_, refl)

abbrev context : Json → String → Json
context me url = obj (field "identity" me (field "api_url" (text url) end))

module _ (w : Host) where
  -- What is claimed of an onboarding: a configuration has the identity of the reply, and where the
  -- reply's identity consists of texts there is a configuration.
  abbrev pub Onboards : Option Fields → (Fields → Json) → String → Option AgentConfig → Type 0
  Onboards reply name url o =
      ((c : AgentConfig)
        → o ≡ some c
        → (fs : Fields) × (reply ≡ some fs)
          × IsIdentity
              (identity (get "device_id" fs) (device_name w (name fs) fs) (get "api_key" fs) url)
              c.identity)
      × ((fs : Fields) (id called key : String)
          → reply ≡ some fs
          → get "device_id" fs ≡ text id
          → device_name w (name fs) fs ≡ text called
          → get "api_key" fs ≡ text key
          → (c : AgentConfig) × (o ≡ some c))

module _ (w : Host) (keeps : KeepsIdentity w.validate) where
  apply_server_config-IsIdentity :
      (server id name key : Json) (url : String) (c : AgentConfig)
      → apply_server_config w server id name key url ≡ some c
      → IsIdentity (identity id name key url) c.identity
  unfolding apply_server_config
  apply_server_config-IsIdentity (obj fs) id name key url c h =
      let me = identity id name key url in
      let (current, h') = if-not_some (not (is_version w (get "version" fs))) h in
      let there = find_field-set_field "identity" me (resolve_fields w.str (context me url) fs) in
      validate_identity-IsIdentity id name key url c.identity
        (ap validate_identity (sym there) ∙ keeps _ c h')
  apply_server_config-IsIdentity _ id name key url c h = absurd cc

  or_bootstrap-IsIdentity :
      (me : Json) (o built_in : Option AgentConfig) (c : AgentConfig)
      → (o ≡ some c → IsIdentity me c.identity)
      → (built_in ≡ some c → IsIdentity me c.identity)
      → or_bootstrap w o built_in ≡ some c
      → IsIdentity me c.identity
  unfolding or_bootstrap
  or_bootstrap-IsIdentity me none built_in c p q h = q h
  or_bootstrap-IsIdentity me (some d) built_in c p q h = p h

  resolve_agent_config-IsIdentity :
      (server id name key : Json) (url : String) (c : AgentConfig)
      → resolve_agent_config w server id name key url ≡ some c
      → IsIdentity (identity id name key url) c.identity
  unfolding resolve_agent_config
  resolve_agent_config-IsIdentity null id name key url c h =
      bootstrap_config-IsIdentity id name key url c h
  resolve_agent_config-IsIdentity server id name key url c h =
      or_bootstrap-IsIdentity (identity id name key url)
        (apply_server_config w server id name key url) (bootstrap_config id name key url) c
        (apply_server_config-IsIdentity server id name key url c)
        (bootstrap_config-IsIdentity id name key url c) h

  or_bootstrap-some :
      (o : Option AgentConfig) (b : AgentConfig)
      → (c : AgentConfig) × (or_bootstrap w o (some b) ≡ some c)
  unfolding or_bootstrap
  or_bootstrap-some none b = (b, refl)
  or_bootstrap-some (some c) b = (c, refl)

  resolve_agent_config-some :
      (server id name key : Json) (url : String) (b : AgentConfig)
      → bootstrap_config id name key url ≡ some b
      → (c : AgentConfig) × (resolve_agent_config w server id name key url ≡ some c)
  unfolding resolve_agent_config
  resolve_agent_config-some null id name key url b h = (b, h)
  resolve_agent_config-some server id name key url b h =
      rw (h) (or_bootstrap-some (apply_server_config w server id name key url) b)

  configured-IsIdentity :
      (name : Json) (url : String) (fs : Fields) (c : AgentConfig)
      → configured w name url fs ≡ some c
      → IsIdentity
          (identity (get "device_id" fs) (device_name w name fs) (get "api_key" fs) url)
          c.identity
  unfolding configured
  configured-IsIdentity name url fs c h =
      resolve_agent_config-IsIdentity (get "config" fs) (get "device_id" fs) (device_name w name fs)
        (get "api_key" fs) url c h

  configured-some :
      (name : Json) (url : String) (fs : Fields) (id called key : String)
      → get "device_id" fs ≡ text id
      → device_name w name fs ≡ text called
      → get "api_key" fs ≡ text key
      → (c : AgentConfig) × (configured w name url fs ≡ some c)
  unfolding configured
  configured-some name url fs id called key i n k =
      let (b, same) = bootstrap_config_texts id called key url in
      rw (i, n, k)
        (resolve_agent_config-some (get "config" fs) (text id) (text called) (text key) url b same)

  configured-Onboards :
      (name : Fields → Json) (url : String) (fs : Fields)
      → Onboards w (some fs) name url (configured w (name fs) url fs)
  configured-Onboards name url fs = (
    λ c h. (fs, refl, configured-IsIdentity (name fs) url fs c h),
    λ gs id called key h.
        subst
          (λ (g : Fields).
            get "device_id" g ≡ text id
            → device_name w (name g) g ≡ text called
            → get "api_key" g ≡ text key
            → (c : AgentConfig) × (configured w (name fs) url fs ≡ some c))
          (if-some true h).1 (configured-some (name fs) url fs id called key),
  )

  nothing-Onboards : (name : Fields → Json) (url : String) → Onboards w none name url none
  nothing-Onboards name url = (λ c h. absurd cc, λ fs id called key h. absurd cc)

  enroll_redeemed-Onboards :
      (url : String) (marker : Bool) (reply : Option Fields)
      → Onboards w reply (get "device_id") url (enroll_redeemed w url marker reply).0
        × ((enroll_redeemed w url marker reply).1
            ≡ (marker || (is_some reply && w.marker_writable)))
  unfolding enroll_redeemed
  enroll_redeemed-Onboards url marker none = (nothing-Onboards (get "device_id") url, ground arith)
  enroll_redeemed-Onboards url marker (some fs) =
      (configured-Onboards (get "device_id") url fs, refl)

  register_redeemed-Onboards :
      (url : String) (reply : Option Fields)
      → Onboards w reply (default_name w) url (register_redeemed w url reply)
  unfolding register_redeemed
  register_redeemed-Onboards url none = nothing-Onboards (default_name w) url
  register_redeemed-Onboards url (some fs) = configured-Onboards (default_name w) url fs

  -- Where the validation of a configuration validates its identity as an `IdentityConfig` and
  -- keeps that: an enrollment with a fleet key, and a registration with a key, give only a
  -- configuration with the identity that the reply assigns and the address that was asked,
  -- whatever configuration the reply brings; and they give one whenever the reply's identity
  -- consists of texts. The fleet marker is there afterwards if it was there, or if there was such
  -- a reply and it can be written.
  pub onboarding-Onboards :
      (fleet_key reg_key url : String) (marker : Bool)
      → let reply = redeem_fleet_key w url (resolve_fleet_key w fleet_key) in
        Onboards w reply (get "device_id") url (enroll_device w fleet_key url marker).0
        × ((enroll_device w fleet_key url marker).1
            ≡ (marker || (is_some reply && w.marker_writable)))
        × Onboards w
            (redeem_device_key w (url ++ "/devices/headless/register-with-reg-key") reg_key)
            (default_name w)
            url
            (register_with_key w reg_key url)
  unfolding enroll_device register_with_key
  onboarding-Onboards fleet_key reg_key url marker =
      let (enrolls, marks) =
        enroll_redeemed-Onboards url marker
          (redeem_fleet_key w url (resolve_fleet_key w fleet_key)) in
      (
        enrolls,
        marks,
        register_redeemed-Onboards url
            (redeem_device_key w (url ++ "/devices/headless/register-with-reg-key") reg_key),
      )
