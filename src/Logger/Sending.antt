-- ===== src/Logger/Sending.antt =====
-- src/link/utils/logger.py: how a handler sends an entry of its queue, over HTTP and over Zenoh.
-- Times are in milliseconds.
pub mod Tried
use locai_link.Base.{
  ℕ, zero, suc, ◌+◌, ◌*◌, ◌^◌, String, Bool, true, false, Option, none, some, leb, ltb, ◌==◌,
  if◌then◌else◌,
}
use locai_link.Json.{Fields, end, field}
use locai_link.Logger.{Outgoing}

-- How a request ends: with an answer's status; with a timeout or a `ConnectionError`; or with
-- another exception.
pub data HttpReply : Type 0 where
  answered : ℕ → HttpReply
  transport_error : HttpReply
  other_error : HttpReply

pub data SendEnd : Type 0 where
  returned raised : SendEnd

pub record Attempts : Type 0 where
  pub result : SendEnd
  pub attempts : ℕ
  pub slept : ℕ

pub record HttpRequest : Type 0 where
  pub is_put : Bool
  pub target : String
  pub json : Fields
  pub data_text : Option String

abbrev pub max_retries : ℕ
max_retries = 2

unfoldable pub body : Fields → String → Option String
body end payload = some payload
body (field k v fs) payload = none

-- The request for an entry: its payload is a dict, which is sent as text too if it is empty.
unfoldable pub request : Outgoing → HttpRequest
unfolding body
request x = record {
  is_put = x.route_key == "lifecycle_status";
  target = x.target;
  json = x.raw_payload;
  data_text = body x.raw_payload x.payload;
}

abbrev pub one_attempt : SendEnd → Attempts
one_attempt r = record { result = r; attempts = 1; slept = 0 }

-- What follows a failure that may pass, with this many attempts left.
unfoldable pub retry : ℕ → ℕ → Attempts → Attempts
retry attempt zero rest = one_attempt raised
retry attempt (suc left) rest = record {
  result = rest.result;
  attempts = suc rest.attempts;
  slept = 500 * 3 ^ attempt + rest.slept;
}

unfoldable pub after_reply : ℕ → ℕ → HttpReply → Attempts → Attempts
unfolding retry
after_reply attempt left (answered status) rest =
    if ltb status 500
    then one_attempt (if leb 400 status then raised else returned)
    else retry attempt left rest
after_reply attempt left transport_error rest = retry attempt left rest
after_reply attempt left other_error rest = one_attempt raised

module _ (replies : ℕ → HttpReply) where
  -- The loop from an attempt on.
  unfoldable pub attempt_from : ℕ → ℕ → Attempts
  unfolding after_reply
  attempt_from attempt zero = after_reply attempt zero (replies attempt) (one_attempt raised)
  attempt_from attempt (suc left) =
      let rest = attempt_from (suc attempt) left in
      after_reply attempt (suc left) (replies attempt) rest

  -- `AsyncHTTPHandler._transport_emit`; the replies are those to its requests.
  unfoldable pub http_emit : Attempts
  unfolding attempt_from
  http_emit = attempt_from 0 max_retries

-- How `session.put` ends: it returns, raises an error that says "closed", or another one.
pub data PutEnd : Type 0 where
  was_put is_closed put_failed : PutEnd

-- `AsyncZenohHandler._transport_emit`, with or without a session.
unfoldable pub zenoh_emit : Bool → PutEnd → SendEnd
zenoh_emit false e = returned
zenoh_emit true was_put = returned
zenoh_emit true is_closed = returned
zenoh_emit true put_failed = raised
