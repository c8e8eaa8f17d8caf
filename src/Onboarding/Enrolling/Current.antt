-- ===== src/Onboarding/Enrolling/Current.antt =====
-- The schema version of the configurations that an onboarding gives: src/link/app/onboarding.py.
use locai_link.Base.{
  String, Bool, true, false, not, Option, none, some, ◌≡◌, refl, ap, ◌∙◌, arith, ◌==◌, eq_iff,
  if-some, if-not_some, Bool-cases, inl, inr,
}
use mathlib.Core.Path.{subst}
use locai_link.Json.{Json, Fields, null, bool, number, decimal, text, arr, obj, end, field}
use locai_link.Config.{AgentConfig, schema_version}
use locai_link.Proxy.{get}
use locai_link.Templating.{resolve_templates, resolve_fields}
use locai_link.Onboarding.Enrolling.{
  Host, set_field, identity, bootstrap_config, is_version, apply_server_config, or_bootstrap,
  resolve_agent_config, configured, enroll_redeemed, enroll_device, register_redeemed,
  register_with_key,
}

-- A configuration that is constructed has the version that it was given, if that is the schema's.
abbrev pub KeepsVersion : Host → Type 0
KeepsVersion w =
    (fs : Fields) (c : AgentConfig)
    → w.validate (obj fs) ≡ some c
    → is_version w (get "version" fs) ≡ true
    → c.version ≡ schema_version

get-set_field_ne :
    (k j : String) (v : Json) (fs : Fields) → (j == k) ≡ false → get k (set_field j v fs) ≡ get k fs
unfolding get set_field
get-set_field_ne k j v end h = ground (arith, h)
get-set_field_ne k j v (field i u fs) h =
    ground (arith, h, eq_iff i j, eq_iff i k, eq_iff j k, get-set_field_ne k j v fs h)

get-resolve_fields :
    (str : Json → String) (context : Json) (k : String) (fs : Fields)
    → get k (resolve_fields str context fs) ≡ resolve_templates str context (get k fs)
unfolding get resolve_templates
get-resolve_fields str context k end = refl
get-resolve_fields str context k (field j v fs) = elim (Bool-cases (j == k)) [
  | inl e ↦ rw (e) refl
  | inr e ↦ rw (e) (get-resolve_fields str context k fs)
]

resolve_templates-is_version :
    (w : Host) (context v : Json)
    → is_version w (resolve_templates w.str context v) ≡ is_version w v
unfolding is_version resolve_templates
resolve_templates-is_version w context (text s) = refl
resolve_templates-is_version w context (obj fs) = refl
resolve_templates-is_version w context (arr xs) = refl
resolve_templates-is_version w context null = refl
resolve_templates-is_version w context (bool b) = refl
resolve_templates-is_version w context (number n) = refl
resolve_templates-is_version w context (decimal s) = refl

bootstrap_config_current :
    (id name key : Json) (url : String) (c : AgentConfig)
    → bootstrap_config id name key url ≡ some c
    → c.version ≡ schema_version
unfolding bootstrap_config
bootstrap_config_current (text id) (text name) (text key) url c h =
    subst (λ (i : AgentConfig). i.version ≡ schema_version) (if-some true h).1 refl
bootstrap_config_current _ _ _ url c h = absurd cc

module _ (w : Host) (keeps : KeepsVersion w) where
  apply_server_config_current :
      (server id name key : Json) (url : String) (c : AgentConfig)
      → apply_server_config w server id name key url ≡ some c
      → c.version ≡ schema_version
  unfolding apply_server_config
  apply_server_config_current (obj fs) id name key url c h =
      let me = identity id name key url in
      let context = obj (field "identity" me (field "api_url" (text url) end)) in
      let (current, h') = if-not_some (not (is_version w (get "version" fs))) h in
      let resolved = resolve_fields w.str context fs in
      keeps (set_field "identity" me resolved) c h' (
        ap (is_version w) (get-set_field_ne "version" "identity" me resolved refl)
        ∙ ap (is_version w) (get-resolve_fields w.str context "version" fs)
        ∙ resolve_templates-is_version w context (get "version" fs)
        ∙ ground (arith, current))
  apply_server_config_current _ id name key url c h = absurd cc

  or_bootstrap_current :
      (o built_in : Option AgentConfig) (c : AgentConfig)
      → (o ≡ some c → c.version ≡ schema_version)
      → (built_in ≡ some c → c.version ≡ schema_version)
      → or_bootstrap w o built_in ≡ some c
      → c.version ≡ schema_version
  unfolding or_bootstrap
  or_bootstrap_current none built_in c p q h = q h
  or_bootstrap_current (some d) built_in c p q h = p h

  configured_current :
      (server id name key : Json) (url : String) (c : AgentConfig)
      → resolve_agent_config w server id name key url ≡ some c
      → c.version ≡ schema_version
  unfolding resolve_agent_config
  configured_current null id name key url c h = bootstrap_config_current id name key url c h
  configured_current server id name key url c h =
      or_bootstrap_current (apply_server_config w server id name key url)
        (bootstrap_config id name key url) c (apply_server_config_current server id name key url c)
        (bootstrap_config_current id name key url c) h

  register_redeemed_current :
      (url : String) (reply : Option Fields) (c : AgentConfig)
      → register_redeemed w url reply ≡ some c
      → c.version ≡ schema_version
  unfolding register_redeemed configured
  register_redeemed_current url none c h = absurd cc
  register_redeemed_current url (some fs) c h = configured_current _ _ _ _ url c h

  enroll_redeemed_current :
      (url : String) (marker : Bool) (reply : Option Fields) (c : AgentConfig)
      → (enroll_redeemed w url marker reply).0 ≡ some c
      → c.version ≡ schema_version
  unfolding enroll_redeemed configured
  enroll_redeemed_current url marker none c h = absurd cc
  enroll_redeemed_current url marker (some fs) c h = configured_current _ _ _ _ url c h

  pub register_with_key_current :
      (key url : String) (c : AgentConfig)
      → register_with_key w key url ≡ some c
      → c.version ≡ schema_version
  unfolding register_with_key
  register_with_key_current key url c h = register_redeemed_current url _ c h

  pub enroll_device_current :
      (key url : String) (marker : Bool) (c : AgentConfig)
      → (enroll_device w key url marker).0 ≡ some c
      → c.version ≡ schema_version
  unfolding enroll_device
  enroll_device_current key url marker c h = enroll_redeemed_current url marker _ c h
