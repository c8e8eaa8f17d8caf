-- ===== src/Tests/Starts.antt =====
-- The theorems on the command line and on onboarding, at concrete data.
use mathlib.Core.Path.{subst}
use Prim.Native.String.{◌++◌}
use locai_link.Base.{
  String, true, false, ◌||◌, ◌&&◌, Option, none, some, List, [], ◌∷◌, ◌≡◌, refl, eqb, arith, ◌==◌,
  if◌then◌else◌, is_some, if-some,
}
use locai_link.Tests.{fresh, config_of}
use locai_link.Json.{Json, Fields, decimal, text, arr, obj, nil, cons, end, field}
use locai_link.Config.{IdentityConfig, AgentConfig, schema_version}
use locai_link.Cli.Reset.{
  Entries, end as empty, file, dir, Disk, Candidate, missing, project, reset,
}
use locai_link.Cli.Reset.Spared.{Resets, reset-Resets}
use locai_link.Templating.{
  plain, substitute, lookup_path, resolve_templates, resolve_fields, find_field,
}
use locai_link.Templating.Placed.{substitute-placeholder}
use locai_link.Templating.Shape.{SameShape, resolve_templates-SameShape}
use locai_link.Onboarding.{
  Control, answer, network_error, absent, request_with_retry, request_from, attempt, is_transient,
}
use locai_link.Onboarding.Attempts.{Tried, request_with_retry-Tried}
use locai_link.Onboarding.Enrolling.{
  Host, device_name, default_name, resolve_fleet_key, redeem_fleet_key, redeem_device_key,
  enroll_device, register_with_key, redeem, configured, resolve_agent_config, apply_server_config,
  set_field, identity, value_or, validate_identity, identity_from, required_text, text_or_default,
  optional_text,
}
use locai_link.Onboarding.Enrolling.Identified.{KeepsIdentity, Onboards, onboarding-Onboards}
use locai_link.Onboarding.Enrolling.Current.{KeepsVersion}
use locai_link.Proxy.{get, malformed, truth}
use locai_link.State.{Session, written, load_state, get_latest_session_file}
use locai_link.Cli.Start.{Boot, register, register_keys}
use locai_link.Cli.Start.Resumed.{no_args, Resumes, register-Resumes}

abbrev disk : String → Disk
disk root = record { unlinks = λ p. true; rmtrees = λ p. true; survives = λ p. true }

abbrev tree : String → Entries
tree root =
    dir "dist" (file "a.whl" empty)
      (dir "docs" (dir "build" (file "page" empty) empty) (file "uv.lock" (file "README" empty)))

abbrev places : List Candidate
places =
    record { path = "/r/src"; pyproject = missing; has_src_link = false }
    ∷ record { path = "/r"; pyproject = project (some "locai-link"); has_src_link = true }
    ∷ []

reset-Resets_example : Resets disk tree true places (reset disk tree places true)
reset-Resets_example = reset-Resets disk tree places true

abbrev str : Json → String
str v = "?"

abbrev context : Json
context = obj (field "identity" (obj (field "device_id" (text "dev") end)) end)

substitute-placeholder_example :
    (substitute str context plain ("/agent/" ++ "${" ++ "identity.device_id" ++ "}" ++ "/logs")
      ≡ "/agent/"
        ++ lookup_path str context "identity.device_id"
        ++ substitute str context plain "/logs")
    × (substitute str context plain "/agent/" ≡ "/agent/")
substitute-placeholder_example =
    substitute-placeholder str context "/agent/" "identity.device_id" "/logs" refl refl refl

abbrev template : Json
template = obj (
    field "version" (decimal "2.1")
      (field "tags" (arr (cons (text "${identity.device_id}") nil)) end))

resolve_templates-SameShape_example : SameShape template (resolve_templates str context template)
resolve_templates-SameShape_example = resolve_templates-SameShape str context template

abbrev reply_fields : Fields
reply_fields = field "device_id" (text "dev") (
    field "device_name" (text "Device")
      (field "api_key" (text "secret") (field "config" template end)))

abbrev control : Control
control = record {
  uniform = λ n c. c;
  replies = λ n. if eqb n 0 then network_error else answer 200 absent (some (obj reply_fields));
}

request_with_retry-Tried_example : Tried control 0 7 (request_with_retry control)
request_with_retry-Tried_example = request_with_retry-Tried control (λ n c. omega arith)

abbrev configuration : Option IdentityConfig → Option AgentConfig
configuration none = none
configuration (some i) = some (record (config_of []) { identity = i })

abbrev validate : Json → Option AgentConfig
validate (obj fs) = configuration (validate_identity (find_field "identity" fs))
validate _ = none

abbrev host : Host
host = record {
  reader = record { loads = λ d. malformed; is_zero = λ s. s == "0.0" };
  str = str;
  is_schema = λ s. s == "2.1";
  validate = validate;
  key_file = λ path. none;
  marker_writable = true;
  node = "machine";
  control = λ endpoint key. control;
}

configuration-some :
    (o : Option IdentityConfig) (c : AgentConfig)
    → configuration o ≡ some c
    → (o ≡ some c.identity) × (c.version ≡ schema_version)
configuration-some none c h = absurd cc
configuration-some (some i) c h =
    subst (λ (d : AgentConfig). (some i ≡ some d.identity) × (d.version ≡ schema_version))
      (if-some true h).1 (refl, refl)

host-KeepsIdentity : KeepsIdentity validate
host-KeepsIdentity fs c h =
    (configuration-some (validate_identity (find_field "identity" fs)) c h).0

host-KeepsVersion : KeepsVersion host
host-KeepsVersion fs c h v =
    (configuration-some (validate_identity (find_field "identity" fs)) c h).1

abbrev boot : Boot
boot = record {
  host = host;
  parse = λ (s : Session). none;
  config_file = λ path. none;
  filename = "session_20260101_000000.json";
  default_api_url = "https://control";
  file_name = λ path. path;
  write = written;
  zenoh_opens = false;
}

onboarding-Onboards_example :
    let reply = redeem_fleet_key host "https://c" (resolve_fleet_key host "k") in
    Onboards host reply (get "device_id") "https://c" (enroll_device host "k" "https://c" false).0
    × ((enroll_device host "k" "https://c" false).1 ≡ (false || (is_some reply && true)))
    × Onboards host
        (redeem_device_key host ("https://c" ++ "/devices/headless/register-with-reg-key") "r")
        (default_name host)
        "https://c"
        (register_with_key host "r" "https://c")
onboarding-Onboards_example = onboarding-Onboards host host-KeepsIdentity "k" "r" "https://c" false

registered : (register boot none (some "key") no_args fresh false).1 ≡ 0
unfolding register register_with_key redeem_device_key request_with_retry load_state
    get_latest_session_file register_keys redeem request_from attempt is_transient truth get
    configured resolve_agent_config apply_server_config resolve_fields device_name value_or
    validate_identity identity_from required_text text_or_default optional_text find_field set_field
    identity
registered = refl

register-Resumes_example : Resumes boot (register boot none (some "key") no_args fresh false).0
unfolding load_state get_latest_session_file
register-Resumes_example =
    register-Resumes boot refl host-KeepsVersion none (some "key") no_args fresh false refl
      registered
