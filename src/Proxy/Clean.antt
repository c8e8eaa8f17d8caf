-- ===== src/Proxy/Clean.antt =====
-- No header can be split: src/link/infra/serving_proxy.py, `_ProxyHandler`.
use locai_link.Base.{
  ℕ, Bool, true, false, ◌||◌, Option, none, some, [], ◌∷◌, ◌++◌, ◌≡◌, ◌≢◌, refl, arith, eqb, All,
  if-cases, if◌then◌else◌, ◌==◌, length,
}
use locai_link.Archive.{codes}
use locai_link.Proxy.Routes.{
  Text, Headers, Request, Upstream, Answer, refused, answered, Proxy, without_breaks,
  sanitize_header_value, allowed, resolve_echo_origin, safe_content_type, cors_response_headers,
  do_options, do_get, do_post, get_answer, post_answer, is_allowed, is_streaming, text_of,
  or_default,
}

-- No carriage return and no line feed.
abbrev pub IsClean : Text → Type 0
IsClean t = All (λ c. (c ≢ 13) × (c ≢ 10)) t

abbrev pub AreClean : Headers → Type 0
AreClean hs = All (λ h. IsClean h.0 × IsClean h.1) hs

-- An error page's headers are the library's.
abbrev pub AnswersClean : Answer → Type 0
AnswersClean (refused code) = Unit
AnswersClean (answered code hs body) = AreClean hs

without_breaks-IsClean : (t : Text) → IsClean (without_breaks t)
unfolding without_breaks
without_breaks-IsClean [] = tt
without_breaks-IsClean (x ∷ xs) =
    if-cases IsClean (eqb x 13 || eqb x 10) (λ h. without_breaks-IsClean xs)
      (λ h. ((ground (arith, h), ground (arith, h)), without_breaks-IsClean xs))

clean_text : Text → Bool
clean_text [] = true
clean_text (c ∷ cs) = if eqb c 13 || eqb c 10 then false else clean_text cs

-- For the texts of the program itself.
clean_text-IsClean : (t : Text) → clean_text t ≡ true → IsClean t
unfolding clean_text
clean_text-IsClean [] h = tt
clean_text-IsClean (c ∷ cs) h =
    ((ground (arith, h), ground (arith, h)), clean_text-IsClean cs (ground (arith, h)))

AreClean-append : (hs ks : Headers) → AreClean hs → AreClean ks → AreClean (hs ++ ks)
AreClean-append [] ks h k = k
AreClean-append (x ∷ hs) ks (h, hs') k = (h, AreClean-append hs ks hs' k)

-- `str.strip` keeps what holds of every character.
abbrev pub KeepsChars : (Text → Text) → Type 1
KeepsChars strip = (P : ℕ → Type 0) (t : Text) → All P t → All P (strip t)

-- A header of the program itself.
fixed :
    (name text : Text)
    → clean_text name ≡ true
    → clean_text text ≡ true
    → IsClean name × IsClean text
fixed name text h k = (clean_text-IsClean name h, clean_text-IsClean text k)

module _ (w : Proxy) (keeps : KeepsChars w.strip) where
  sanitize_header_value-IsClean : (o : Option Text) → IsClean (sanitize_header_value w o)
  unfolding sanitize_header_value
  sanitize_header_value-IsClean none = tt
  sanitize_header_value-IsClean (some []) = tt
  sanitize_header_value-IsClean (some (x ∷ xs)) = keeps _ _ (without_breaks-IsClean (x ∷ xs))

  or_default-IsClean : (t d : Text) → IsClean t → IsClean d → IsClean (or_default w t d)
  or_default-IsClean [] d h k = k
  or_default-IsClean (x ∷ xs) d h k = h

  safe_content_type-IsClean :
      (o : Option Text) (d : Text) → IsClean d → IsClean (safe_content_type w o d)
  unfolding safe_content_type
  safe_content_type-IsClean none d h = h
  safe_content_type-IsClean (some []) d h = h
  safe_content_type-IsClean (some (x ∷ xs)) d h =
      or_default-IsClean _ d (keeps _ _ (without_breaks-IsClean (x ∷ xs))) h

  vary : IsClean (codes "Vary") × IsClean (codes "Origin")
  unfolding codes clean_text
  vary = fixed (codes "Vary") (codes "Origin") refl refl

  cors-AreClean : (t : Text) → IsClean t → AreClean (cors_response_headers w (allowed w t))
  unfolding cors_response_headers allowed codes clean_text
  cors-AreClean [] h = (vary, tt)
  cors-AreClean (x ∷ xs) h =
      if-cases (λ o. AreClean (cors_response_headers w o)) (is_allowed (x ∷ xs) w.allowed_origins)
        (λ k. ((clean_text-IsClean (codes "Access-Control-Allow-Origin") refl, h), (vary, tt)))
        (λ k. (vary, tt))

  echo-AreClean :
      (q : Request) → AreClean (cors_response_headers w (resolve_echo_origin w q.origin))
  unfolding resolve_echo_origin
  echo-AreClean q = cors-AreClean _ (sanitize_header_value-IsClean q.origin)

  get_answer-Clean :
      ((n : ℕ) → IsClean (w.show n))
      → (q : Request) (u : Option Upstream) → AnswersClean (get_answer w q u)
  unfolding get_answer codes clean_text
  get_answer-Clean digits q none = tt
  get_answer-Clean digits q (some u) = (
    (
      clean_text-IsClean (codes "Content-Type") refl,
      safe_content_type-IsClean u.content_type (codes "application/json")
          (clean_text-IsClean (codes "application/json") refl),
    ),
    (
      (clean_text-IsClean (codes "Content-Length") refl, digits (length u.content)),
      echo-AreClean q,
    ),
  )

  post_answer-Clean : (q : Request) (u : Option Upstream) → AnswersClean (post_answer w q u)
  unfolding post_answer codes clean_text
  post_answer-Clean q none = tt
  post_answer-Clean q (some u) = (
    (
      clean_text-IsClean (codes "Content-Type") refl,
      safe_content_type-IsClean (some (text_of w u.content_type)) _ (
          if-cases IsClean (is_streaming w u)
            (λ k. clean_text-IsClean (codes "text/event-stream") refl)
            (λ k. clean_text-IsClean (codes "application/json") refl)),
    ),
    (
      fixed (codes "Cache-Control") (codes "no-cache") refl refl,
      (
        fixed (codes "Connection") (codes "close") refl refl,
        (fixed (codes "X-Accel-Buffering") (codes "no") refl refl, echo-AreClean q),
      ),
    ),
  )

  -- Where stripping a text keeps what holds of its characters and a number is written without
  -- line breaks: no header of an answer holds a carriage return or a line feed, whatever the
  -- client sends as its origin and the server of the model as its content type, on each of the
  -- three methods.
  pub answers-Clean :
      ((n : ℕ) → IsClean (w.show n))
      → (upstream : Request → Option Upstream) (q : Request)
      → AnswersClean (do_options w q)
        × AnswersClean (do_get w upstream q)
        × AnswersClean (do_post w upstream q)
  unfolding do_options do_get do_post codes clean_text
  answers-Clean digits upstream q = (
    AreClean-append (cors_response_headers w (resolve_echo_origin w q.origin)) _ (echo-AreClean q) (
      fixed (codes "Access-Control-Allow-Methods") (codes "GET, POST, OPTIONS") refl refl,
      (
        fixed (codes "Access-Control-Allow-Headers") (codes "content-type, authorization") refl
            refl,
        (
          fixed (codes "Access-Control-Allow-Private-Network") (codes "true") refl refl,
          (
            fixed (codes "Access-Control-Max-Age") (codes "86400") refl refl,
            (fixed (codes "Content-Length") (codes "0") refl refl, tt),
          ),
        ),
      ),
    ),
    if-cases AnswersClean (q.path == "/v1/models" || q.path == "/health")
        (λ k. get_answer-Clean digits q (upstream q)) (λ k. tt),
    if-cases AnswersClean (q.path == "/v1/chat/completions") (λ k. post_answer-Clean q (upstream q))
        (λ k. tt),
  )
