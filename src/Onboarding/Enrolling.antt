-- ===== src/Onboarding/Enrolling.antt =====
-- src/link/app/onboarding.py: the redemption of a key, and the configuration that comes of it.
pub mod Identified
pub mod Current
use Prim.Native.String.{◌++◌}
use locai_link.Base.{
  ℕ, String, Bool, true, false, not, ◌&&◌, ◌||◌, Option, none, some, List, [], ◌∷◌, ◌==◌,
  if◌then◌else◌,
}
use locai_link.Json.{
  Json, Items, Fields, null, bool, number, decimal, text, arr, obj, nil, cons, end, field,
}
use locai_link.Config.{GenericConfig, PipelineConfig, IdentityConfig, AgentConfig, schema_version}
use locai_link.Templating.{resolve_fields, find_field}
use locai_link.Proxy.{Reader, truth, get}
use locai_link.Health.Requests.{after_prefix}
use locai_link.Onboarding.{Final, accepted, rejected, raised, Control, Requests, request_with_retry}

-- What the module does not decide: the truth of values, `str` of one that is no text, which decimal
-- texts equal the schema version, the construction of an `AgentConfig`, the content of a key file
-- without the blanks around it (`none` where it is not read), whether the marker can be written,
-- the host's name, and what Control answers at an address to the bearer of a key.
pub record Host : Type 0 where
  pub reader : Reader
  pub str : Json → String
  pub is_schema : String → Bool
  pub validate : Json → Option AgentConfig
  pub key_file : String → Option String
  pub marker_writable : Bool
  pub node : String
  pub control : String → String → Control

-- data["identity"] = v
unfoldable pub set_field : String → Json → Fields → Fields
set_field k v end = field k v end
set_field k v (field j u fs) = if j == k then field j v fs else field j u (set_field k v fs)

unfoldable pub identity : Json → Json → Json → String → Json
identity id name key url = obj (
    field "device_id" id
      (field "device_name" name (field "api_key" key (field "api_url" (text url) end))))

-- The fields of an `IdentityConfig`: a text that is required, one with a default, and one that
-- may be missing or null.
unfoldable pub required_text : Option Json → Option String
required_text (some (text s)) = some s
required_text _ = none

unfoldable pub text_or_default : String → Option Json → Option String
text_or_default d none = some d
text_or_default d (some (text s)) = some s
text_or_default d (some _) = none

unfoldable pub optional_text : Option Json → Option (Option String)
optional_text none = some none
optional_text (some null) = some none
optional_text (some (text s)) = some (some s)
optional_text (some _) = none

unfoldable pub identity_from :
    Option String
    → Option String
    → Option (Option String)
    → Option (Option String)
    → Option IdentityConfig
identity_from (some id) (some name) (some url) (some key) =
    some (record { device_id = id; device_name = name; api_url = url; api_key = key })
identity_from _ _ _ _ = none

-- The validation of a value as an `IdentityConfig`.
unfoldable pub validate_identity : Option Json → Option IdentityConfig
unfolding identity_from required_text text_or_default optional_text
validate_identity (some (obj fs)) =
    identity_from (required_text (find_field "device_id" fs))
      (text_or_default "unknown" (find_field "device_name" fs))
      (optional_text (find_field "api_url" fs)) (optional_text (find_field "api_key" fs))
validate_identity _ = none

abbrev of_type : String → GenericConfig
of_type type = record { type = type; args = [] }

abbrev handler : String → Fields → Json
handler type args = obj (field "type" (text type) (field "args" (obj args) end))

-- The logging and reporting sections, with the fields that the code gives.
abbrev logging_config : String → Json
logging_config base = obj (
    field "level" (text "INFO") (
      field "handlers"
        (arr (
          cons (handler "console" end)
            (cons (handler "http" (field "url" (text (base ++ "/logs")) end)) nil)))
        end))

abbrev reporting_config : String → Json
reporting_config base =
    let routes = field "lifecycle_status" (text (base ++ "/status")) (
      field "command_status" (text (base ++ "/commands/{cid}/status"))
        (field "model_status" (text (base ++ "/models/{mid}/status")) end)) in
    obj (
      field "interval" (number 30) (
        field "handlers" (arr (cons (handler "console" end) (cons (handler "http" routes) nil)))
          end))

abbrev metrics : Json
metrics = arr (
    cons (text "cpu_usage") (
      cons (text "ram_usage")
        (cons (text "temperature_celsius") (cons (text "storage_available_gb") nil))))

abbrev command_center : String → String → PipelineConfig
command_center base key = record {
  id = "command_center";
  active = true;
  source = record {
    type = "http_poll";
    args =
        ("url", text (base ++ "/commands")) ∷ ("api_key", text key) ∷ ("interval", number 10) ∷ [];
  };
  sink = some (of_type "command");
}

abbrev system_metrics : String → String → PipelineConfig
system_metrics base key = record {
  id = "system_metrics";
  active = true;
  source = record {
    type = "system_monitor";
    args = ("interval", number 5) ∷ ("metrics", metrics) ∷ [];
  };
  sink = some (record {
    type = "http_post";
    args = ("url", text (base ++ "/metrics")) ∷ ("api_key", text key) ∷ ("timeout", number 30) ∷ [];
  });
}

-- `_bootstrap_config`, which raises where an identity is no text.
unfoldable pub bootstrap_config : Json → Json → Json → String → Option AgentConfig
bootstrap_config (text id) (text name) (text key) url =
    let base = url ++ "/agent/" ++ id in
    some (record {
      version = schema_version;
      identity = record {
        device_id = id;
        device_name = name;
        api_url = some url;
        api_key = some key;
      };
      transport = some (of_type "http");
      logging = logging_config base;
      reporting = reporting_config base;
      pipelines = command_center base key ∷ system_metrics base key ∷ [];
    })
bootstrap_config _ _ _ url = none

-- The first one that counts as true, else the second.
unfoldable pub value_or : Reader → Json → Json → Json
value_or r v d = if truth r v then v else d

module _ (w : Host) where
  -- `_resolve_fleet_key`
  unfoldable pub resolve_fleet_key : String → Option String
  resolve_fleet_key value = elim (after_prefix "file:" value) [
    | none ↦ some value
    | some path ↦ elim (w.key_file path) [
      | none ↦ none
      | some key ↦ if key == "" then none else some key
    ]
  ]

  unfoldable pub is_version : Json → Bool
  is_version (decimal s) = w.is_schema s
  is_version _ = false

  -- `_apply_server_config`, `none` where it raises.
  unfoldable pub apply_server_config : Json → Json → Json → Json → String → Option AgentConfig
  unfolding set_field identity is_version
  apply_server_config (obj fs) id name key url =
      let me = identity id name key url in
      let context = obj (field "identity" me (field "api_url" (text url) end)) in
      if not (is_version (get "version" fs))
      then none
      else w.validate (obj (set_field "identity" me (resolve_fields w.str context fs)))
  apply_server_config _ id name key url = none

  -- The fallback to the built-in configuration.
  unfoldable pub or_bootstrap : Option AgentConfig → Option AgentConfig → Option AgentConfig
  or_bootstrap none built_in = built_in
  or_bootstrap (some c) built_in = some c

  -- `_resolve_agent_config`; a configuration that is missing is null.
  unfoldable pub resolve_agent_config : Json → Json → Json → Json → String → Option AgentConfig
  unfolding or_bootstrap
  resolve_agent_config null id name key url = bootstrap_config id name key url
  resolve_agent_config server id name key url =
      or_bootstrap (apply_server_config server id name key url) (bootstrap_config id name key url)

  redeem_fields : Fields → Option Fields
  redeem_fields fs =
      if not (truth w.reader (get "device_id" fs)) || not (truth w.reader (get "api_key" fs))
      then none
      else some fs

  -- The fields of a reply that has `device_id` and `api_key`; `none` where the code raises.
  unfoldable pub redeem : Final → Option Fields
  unfolding redeem_fields
  redeem (accepted (some (obj fs))) = redeem_fields fs
  redeem _ = none

  unfoldable pub redeem_device_key : String → String → Option Fields
  redeem_device_key endpoint bearer_key =
      redeem (request_with_retry (w.control endpoint bearer_key)).final

  -- The name that a reply gives, or the default.
  unfoldable pub device_name : Json → Fields → Json
  device_name default_name fs = value_or w.reader (get "device_name" fs) default_name

  unfoldable pub configured : Json → String → Fields → Option AgentConfig
  configured default_name url fs =
      resolve_agent_config (get "config" fs) (get "device_id" fs) (device_name default_name fs)
        (get "api_key" fs) url

  unfoldable pub redeem_fleet_key : String → Option String → Option Fields
  redeem_fleet_key url none = none
  redeem_fleet_key url (some key) = redeem_device_key (url ++ "/devices/enroll") key

  unfoldable pub enroll_redeemed : String → Bool → Option Fields → Option AgentConfig × Bool
  enroll_redeemed url marker none = (none, marker)
  enroll_redeemed url marker (some fs) =
      (configured (get "device_id" fs) url fs, marker || w.marker_writable)

  -- `enroll_device`: the configuration, `none` where it raises, and whether the fleet marker is
  -- there.
  unfoldable pub enroll_device : String → String → Bool → Option AgentConfig × Bool
  unfolding enroll_redeemed
  enroll_device fleet_key url marker =
      enroll_redeemed url marker (redeem_fleet_key url (resolve_fleet_key fleet_key))

  unfoldable pub default_name : Fields → Json
  default_name fs = value_or w.reader (text w.node) (get "device_id" fs)

  unfoldable pub register_redeemed : String → Option Fields → Option AgentConfig
  register_redeemed url none = none
  register_redeemed url (some fs) = configured (default_name fs) url fs

  -- `register_with_key`
  unfoldable pub register_with_key : String → String → Option AgentConfig
  unfolding register_redeemed
  register_with_key reg_key url =
      register_redeemed url
        (redeem_device_key (url ++ "/devices/headless/register-with-reg-key") reg_key)
