-- ===== src/Tests/Proxies.antt =====
-- The theorems on the serving proxy, at a stream that is cut in the middle of a delimiter.
use locai_link.Base.{true, false, Option, none, some, [], ◌∷◌, ◌≡◌, refl, arith}
use locai_link.Json.{Json, nil, cons, end, field}
use locai_link.Proxy.{
  Bytes, Reader, value, ChatTelemetry, ingest_chunk, ingest_all, extend, drain, cut, find_bytes,
  starts, earliest, consume_event, consume_lines, consume_line, lines, strip_left, strip_right,
  is_idle, absorb_loaded, absorb, get, choices, count_content, has_content, truth,
}
use locai_link.Proxy.Chunks.{joined, ingest_all-joined}
use locai_link.Proxy.Routes.{Request, Upstream, Proxy, do_options, do_get, do_post}
use locai_link.Proxy.Clean.{AnswersClean, answers-Clean}

-- Every payload is read as a choice with text.
abbrev reader : Reader
reader = record {
  loads = λ b. value (
      Json.obj (
        field "choices"
          (Json.arr (
            cons (Json.obj (field "delta" (Json.obj (field "content" (Json.text "a") end)) end))
              nil))
          end));
  is_zero = λ s. false;
}

-- `data:x`, a line feed, and the second one in the next chunk, with the begin of another event.
abbrev first_chunk : Bytes
first_chunk = 100 ∷ 97 ∷ 116 ∷ 97 ∷ 58 ∷ 120 ∷ 10 ∷ []

abbrev second_chunk : Bytes
second_chunk = 10 ∷ 100 ∷ []

abbrev telemetry : ChatTelemetry
telemetry = record {
  sse_buf = some [];
  reading = record { content_chunks = 0; usage = none; model = Json.null; stream = true };
}

counted : (ingest_all reader (first_chunk ∷ second_chunk ∷ []) telemetry).reading.content_chunks ≡ 1
unfolding ingest_all ingest_chunk extend drain cut find_bytes starts earliest consume_event
    consume_lines consume_line lines strip_left strip_right is_idle absorb_loaded absorb get choices
    count_content has_content truth
counted = refl

ingest_all-joined_example :
    ingest_all reader (first_chunk ∷ second_chunk ∷ []) telemetry
    ≡ ingest_chunk reader (joined (first_chunk ∷ second_chunk ∷ [])) telemetry
ingest_all-joined_example = ingest_all-joined reader (first_chunk ∷ second_chunk ∷ []) telemetry

-- The origin `a`, with a line feed in it.
abbrev request : Request
request = record {
  path = "/v1/models";
  origin = some (97 ∷ 10 ∷ []);
  content_type = none;
  authorization = none;
  body = [];
}

abbrev proxy : Proxy
proxy = record { strip = λ t. t; show = λ n. 48 ∷ []; allowed_origins = (97 ∷ []) ∷ [] }

abbrev model_server : Request → Option Upstream
model_server q =
    some (record { status_code = 200; content_type = some (13 ∷ 98 ∷ []); content = [] })

answers-Clean_example :
    AnswersClean (do_options proxy request)
    × AnswersClean (do_get proxy model_server request)
    × AnswersClean (do_post proxy model_server request)
answers-Clean_example =
    answers-Clean proxy (λ P t h. h)
      (λ n. (((λ e. absurd (omega (arith, e))), (λ e. absurd (omega (arith, e)))), tt)) model_server
      request
