-- ===== src/Proxy/Routes.antt =====
-- src/link/infra/serving_proxy.py: `_ProxyHandler`, what it answers and what it hands on. Texts of
-- headers are lists of their characters' codes.
use locai_link.Base.{
  ℕ, String, Bool, true, false, ◌&&◌, ◌||◌, Option, none, some, List, [], ◌∷◌, ◌++◌, eqb, length,
  if◌then◌else◌, ◌==◌,
}
use locai_link.Archive.{codes}
use locai_link.Proxy.{Bytes, starts}

abbrev pub Text : Type 0
Text = List ℕ

abbrev pub Headers : Type 0
Headers = List (Text × Text)

pub record Request : Type 0 where
  pub path : String
  pub origin : Option Text
  pub content_type : Option Text
  pub authorization : Option Text
  pub body : Bytes

-- What the server of a model answers.
pub record Upstream : Type 0 where
  pub status_code : ℕ
  pub content_type : Option Text
  pub content : Bytes

-- What the client gets: an error page, or a status with headers and a body.
pub data Answer : Type 0 where
  refused : ℕ → Answer
  answered : ℕ → Headers → Bytes → Answer

-- `str.strip`, `str` of a number, and the origins that are allowed.
pub record Proxy : Type 0 where
  pub strip : Text → Text
  pub show : ℕ → Text
  pub allowed_origins : List Text

abbrev same : Text → Text → Bool
same [] [] = true
same (x ∷ xs) (y ∷ ys) = eqb x y && same xs ys
same _ _ = false

abbrev pub is_allowed : Text → List Text → Bool
is_allowed o [] = false
is_allowed o (p ∷ ps) = same p o || is_allowed o ps

-- `.replace("\r", "").replace("\n", "")`
unfoldable pub without_breaks : Text → Text
without_breaks [] = []
without_breaks (x ∷ xs) =
    let rest = without_breaks xs in if eqb x 13 || eqb x 10 then rest else x ∷ rest

module _ (w : Proxy) where
  unfoldable pub sanitize_header_value : Option Text → Text
  sanitize_header_value none = []
  sanitize_header_value (some []) = []
  sanitize_header_value (some (x ∷ xs)) = w.strip (without_breaks (x ∷ xs))

  unfoldable pub allowed : Text → Option Text
  allowed [] = none
  allowed (x ∷ xs) = if is_allowed (x ∷ xs) w.allowed_origins then some (x ∷ xs) else none

  unfoldable pub resolve_echo_origin : Option Text → Option Text
  unfolding allowed
  resolve_echo_origin origin = allowed (sanitize_header_value origin)

  -- `sanitized or default`
  abbrev pub or_default : Text → Text → Text
  or_default [] d = d
  or_default (x ∷ xs) d = x ∷ xs

  unfoldable pub safe_content_type : Option Text → Text → Text
  safe_content_type none d = d
  safe_content_type (some []) d = d
  safe_content_type (some (x ∷ xs)) d = or_default (w.strip (without_breaks (x ∷ xs))) d

  unfoldable pub cors_response_headers : Option Text → Headers
  cors_response_headers none = (codes "Vary", codes "Origin") ∷ []
  cors_response_headers (some o) =
      (codes "Access-Control-Allow-Origin", o) ∷ (codes "Vary", codes "Origin") ∷ []

  -- A header that is there and not empty
  abbrev given : Text → Option Text → Headers
  given name none = []
  given name (some []) = []
  given name (some (x ∷ xs)) = (name, x ∷ xs) ∷ []

  -- The headers that are handed on.
  unfoldable pub forward_headers : Request → Headers
  forward_headers q =
      given (codes "Content-Type") q.content_type ++ given (codes "Authorization") q.authorization

  unfoldable pub do_options : Request → Answer
  do_options q =
      answered 204
        (cors_response_headers (resolve_echo_origin q.origin)
          ++ (codes "Access-Control-Allow-Methods", codes "GET, POST, OPTIONS")
            ∷ (codes "Access-Control-Allow-Headers", codes "content-type, authorization")
            ∷ (codes "Access-Control-Allow-Private-Network", codes "true")
            ∷ (codes "Access-Control-Max-Age", codes "86400")
            ∷ (codes "Content-Length", codes "0")
            ∷ [])
        []

  unfoldable pub get_answer : Request → Option Upstream → Answer
  get_answer q none = refused 502
  get_answer q (some u) =
      answered u.status_code
        ((codes "Content-Type", safe_content_type u.content_type (codes "application/json"))
          ∷ (codes "Content-Length", w.show (length u.content))
          ∷ cors_response_headers (resolve_echo_origin q.origin))
        u.content

  -- `upstream` is what a request with the forwarded headers meets, `none` where it fails.
  unfoldable pub do_get : (Request → Option Upstream) → Request → Answer
  unfolding get_answer
  do_get upstream q =
      if q.path == "/v1/models" || q.path == "/health"
      then get_answer q (upstream q)
      else refused 404

  abbrev pub text_of : Option Text → Text
  text_of none = []
  text_of (some t) = t

  -- `upstream_ct.startswith("text/event-stream")`
  unfoldable pub is_streaming : Upstream → Bool
  is_streaming u = starts (codes "text/event-stream") (text_of u.content_type)

  unfoldable pub post_answer : Request → Option Upstream → Answer
  post_answer q none = refused 502
  post_answer q (some u) =
      answered u.status_code
        ((
          codes "Content-Type",
          safe_content_type (some (text_of u.content_type))
              (if is_streaming u then codes "text/event-stream" else codes "application/json"),
        )
          ∷ (codes "Cache-Control", codes "no-cache")
          ∷ (codes "Connection", codes "close")
          ∷ (codes "X-Accel-Buffering", codes "no")
          ∷ cors_response_headers (resolve_echo_origin q.origin))
        u.content

  unfoldable pub do_post : (Request → Option Upstream) → Request → Answer
  unfolding post_answer
  do_post upstream q =
      if q.path == "/v1/chat/completions" then post_answer q (upstream q) else refused 404
