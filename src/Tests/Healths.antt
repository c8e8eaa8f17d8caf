-- ===== src/Tests/Healths.antt =====
-- The theorems on the health server, at a request from a page of another origin and at a row.
use locai_link.Base.{true, false, none, some, [], ◌≡◌, ◌⊎◌, refl, ◌==◌, if◌then◌else◌}
use locai_link.Json.{number}
use locai_link.Health.{HealthState, Row}
use locai_link.Health.Requests.{
  LocalRequest, LocalAgent, refuse, post_local, model_action, after_prefix, at_slash, split_action,
}
use locai_link.Health.Asked.{IsLocal}
use locai_link.Health.Guarded.{Ends, do_post-Ends}

abbrev health : HealthState
health = record {
  version = "1.0";
  boot_time = 0;
  currently_serving = false;
  model_id = none;
  transport_type = none;
  transport_endpoint = none;
  transport_connected = false;
  update_available = false;
  latest_version = none;
  deployments = [];
}

abbrev local_agent : LocalAgent
local_agent = record {
  lower = λ s. s;
  origin_host = λ o. if o == "https://evil.example" then some "evil.example" else some "localhost";
  loads = λ b. none;
  is_zero = λ s. false;
  wired = true;
  raises = λ c. false;
  preflight = none;
  models = [];
  now = 5;
}

abbrev from_page : LocalRequest
from_page = record {
  path = "/update";
  host = some "127.0.0.1:20505";
  origin = some "https://evil.example";
  content_length = some 0;
  body = "";
}

action : model_action "/models/m1/stop-serving" ≡ some ("m1", "stop-serving")
unfolding model_action after_prefix at_slash split_action
action = refl

do_post-Ends_example :
    (post_local local_agent from_page health ≡ (health, refuse 403))
    ⊎ (IsLocal local_agent from_page
        × Ends local_agent from_page.path health (post_local local_agent from_page health))
do_post-Ends_example = do_post-Ends local_agent from_page health

abbrev downloading : Row
downloading = record {
  model_name = none;
  stage = "downloading";
  progress_pct = number 5;
  created_at = 1;
}
