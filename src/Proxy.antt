-- ===== src/Proxy.antt =====
-- src/link/infra/serving_proxy.py: `_ChatTelemetry`, which reads what the model server answers on
-- its way to the client. Bytes are numbers.
pub mod Cuts
pub mod Chunks
pub mod Routes
pub mod Clean
use locai_link.Base.{
  ℕ, zero, suc, ◌+◌, String, Bool, true, false, not, ◌&&◌, ◌||◌, Option, none, some, List, [], ◌∷◌,
  ◌++◌, eqb, leb, ltb, length, take, if◌then◌else◌, ◌==◌,
}
use locai_link.Json.{Json, Items, Fields, nil, cons, end, field}

abbrev pub Bytes : Type 0
Bytes = List ℕ

-- What `json.loads` makes of bytes: a value; JSONDecodeError; or another exception, such as the one
-- on bytes that are no UTF-8, which the recorder does not catch.
pub data Loaded : Type 0 where
  value : Json → Loaded
  malformed : Loaded
  undecodable : Loaded

-- What the recorder does not decide: `json.loads`, and which decimal texts stand for zero.
pub record Reader : Type 0 where
  pub loads : Bytes → Loaded
  pub is_zero : String → Bool

-- What was read so far; `usage` is the object that was read last.
pub record Reading : Type 0 where
  pub content_chunks : ℕ
  pub usage : Option Fields
  pub model : Json
  pub stream : Bool

-- `sse_buf` is what waits for the end of an event; it is `none` once an exception left
-- `ingest_chunk`, after which no chunk is read.
pub record ChatTelemetry : Type 0 where
  pub sse_buf : Option Bytes
  pub reading : Reading

-- `xs.startswith(p)`
unfoldable pub starts : Bytes → Bytes → Bool
starts [] xs = true
starts (a ∷ p) [] = false
starts (a ∷ p) (x ∷ xs) = eqb x a && starts p xs

abbrev shifted : Option ℕ → Option ℕ
shifted none = none
shifted (some n) = some (suc n)

-- `xs.find(p)`, for a p that is not empty; `none` is -1.
unfoldable pub find_bytes : Bytes → Bytes → Option ℕ
find_bytes p [] = none
find_bytes p (x ∷ xs) =
    let rest = find_bytes p xs in if starts p (x ∷ xs) then some 0 else shifted rest

abbrev pub drop : ℕ → Bytes → Bytes
drop zero xs = xs
drop (suc n) [] = []
drop (suc n) (x ∷ xs) = drop n xs

abbrev pub lf : Bytes
lf = 10 ∷ 10 ∷ []

abbrev pub crlf : Bytes
crlf = 13 ∷ 10 ∷ 13 ∷ 10 ∷ []

-- The earliest delimiter and its length, by the two positions.
unfoldable pub earliest : Option ℕ → Option ℕ → Option (ℕ × ℕ)
earliest none none = none
earliest (some l) none = some (l, 2)
earliest none (some c) = some (c, 4)
earliest (some l) (some c) = if ltb l c then some (l, 2) else some (c, 4)

abbrev pub cut_at : Bytes → Option (ℕ × ℕ) → Option (Bytes × Bytes)
cut_at buf none = none
cut_at buf (some (sep, sep_len)) = some (take sep buf, drop sep_len (drop sep buf))

-- One turn of the loop: the event that is complete, and the buffer after it.
unfoldable pub cut : Bytes → Option (Bytes × Bytes)
cut buf = cut_at buf (earliest (find_bytes lf buf) (find_bytes crlf buf))

-- The white space of `bytes.strip`
abbrev is_space : ℕ → Bool
is_space c = eqb c 32 || (leb 9 c && leb c 13)

unfoldable pub strip_left : Bytes → Bytes
strip_left [] = []
strip_left (x ∷ xs) = let rest = strip_left xs in if is_space x then rest else x ∷ xs

unfoldable pub strip_right : Bytes → Bytes
strip_right [] = []
strip_right (x ∷ xs) = elim (strip_right xs) [
  | [] ↦ if is_space x then [] else x ∷ []
  | y ∷ ys ↦ x ∷ y ∷ ys
]

abbrev strip : Bytes → Bytes
strip xs = strip_right (strip_left xs)

-- `event.split(b"\n")`, with what stands before the next break.
unfoldable pub lines : Bytes → List Bytes
lines [] = [] ∷ []
lines (x ∷ xs) = elim (lines xs) [
  | [] ↦ []
  | l ∷ ls ↦ if eqb x 10 then [] ∷ l ∷ ls else (x ∷ l) ∷ ls
]

unfoldable pub get : String → Fields → Json
get k end = Json.null
get k (field j v fs) = if j == k then v else get k fs

module _ (w : Reader) where
  -- `bool(v)`
  unfoldable pub truth : Json → Bool
  truth Json.null = false
  truth (Json.bool b) = b
  truth (Json.number n) = not (eqb n 0)
  truth (Json.decimal s) = not (w.is_zero s)
  truth (Json.text s) = not (s == "")
  truth (Json.arr nil) = false
  truth (Json.obj end) = false
  truth _ = true

  -- Does the choice carry text?
  unfoldable pub has_content : Json → Bool
  has_content (Json.obj fs) = elim (get "delta" fs) [
    | Json.obj delta ↦ truth (get "content" delta)
    | other ↦ false
  ]
  has_content _ = false

  unfoldable pub count_content : Items → ℕ
  count_content nil = 0
  count_content (cons v vs) =
      let rest = count_content vs in if has_content v then suc rest else rest

  -- `obj.get("choices") or []` as it is walked: an object gives its keys and a text its characters,
  -- none of which is a choice; over a number or True no loop can go.
  unfoldable pub choices : Json → Option ℕ
  choices (Json.arr vs) = some (count_content vs)
  choices (Json.obj fs) = some 0
  choices (Json.text s) = some 0
  choices v = if truth v then none else some 0

  abbrev usage_of : Json → Option Fields → Option Fields
  usage_of (Json.obj fs) old = some fs
  usage_of _ old = old

  -- `_absorb`; the flag tells whether it went through.
  unfoldable pub absorb : Fields → Reading → Reading × Bool
  absorb fs t =
      let t' = record t { usage = usage_of (get "usage" fs) t.usage } in
      elim (choices (get "choices" fs)) [
        | none ↦ (t', false)
        | some n ↦ (record t' { content_chunks = n + t'.content_chunks }, true)
      ]

  unfoldable pub absorb_loaded : Loaded → Reading → Reading × Bool
  absorb_loaded (value (Json.obj fs)) t = absorb fs t
  absorb_loaded (value _) t = (t, true)
  absorb_loaded malformed t = (t, true)
  absorb_loaded undecodable t = (t, false)

  abbrev data_prefix : Bytes
  data_prefix = 100 ∷ 97 ∷ 116 ∷ 97 ∷ 58 ∷ []

  -- A payload that is empty or tells the end of the stream
  unfoldable pub is_idle : Bytes → Bool
  is_idle [] = true
  is_idle (x ∷ xs) = starts (91 ∷ 68 ∷ 79 ∷ 78 ∷ 69 ∷ 93 ∷ []) (x ∷ xs) && eqb (length (x ∷ xs)) 6

  -- The body of the loop of `_consume_event`.
  unfoldable pub consume_line : Bytes → Reading → Reading × Bool
  consume_line raw t =
      let line = strip raw in
      let payload = strip (drop 5 line) in
      if not (starts data_prefix line) || is_idle payload
      then (t, true)
      else absorb_loaded (w.loads payload) t

  unfoldable pub consume_lines : List Bytes → Reading → Reading × Bool
  consume_lines [] t = (t, true)
  consume_lines (l ∷ ls) t =
      let (t', passed) = consume_line l t in if passed then consume_lines ls t' else (t', false)

  unfoldable pub consume_event : Bytes → Reading → Reading × Bool
  unfolding consume_lines
  consume_event event t = consume_lines (lines event) t

  -- What follows an event: the rest of the buffer, unless the event raised.
  abbrev pub onward : Reading × Bool → (Reading → ChatTelemetry) → ChatTelemetry
  onward (r, true) loop = loop r
  onward (r, false) loop = record { sse_buf = none; reading = r }

  -- One turn of the `while`, with what is cut off the buffer.
  abbrev pub turn :
      Bytes → Reading → Option (Bytes × Bytes) → (Bytes → Reading → ChatTelemetry) → ChatTelemetry
  turn buf r none loop = record { sse_buf = some buf; reading = r }
  turn buf r (some (event, rest)) loop = onward (consume_event event r) (loop rest)

  -- The `while` of `ingest_chunk`, on fuel: each turn takes a byte at least out of the buffer.
  unfoldable pub drain : ℕ → Bytes → Reading → ChatTelemetry
  drain zero buf r = record { sse_buf = some buf; reading = r }
  drain (suc n) buf r = turn buf r (cut buf) (λ rest r'. drain n rest r')

  -- The chunk at the end of the buffer, and the loop.
  unfoldable pub extend : Bytes → Option Bytes → Reading → ChatTelemetry
  extend chunk none r = record { sse_buf = none; reading = r }
  extend chunk (some buf) r = drain (length (buf ++ chunk)) (buf ++ chunk) r

  unfoldable pub ingest_chunk : Bytes → ChatTelemetry → ChatTelemetry
  unfolding extend
  ingest_chunk [] t = t
  ingest_chunk (x ∷ xs) t = extend (x ∷ xs) t.sse_buf t.reading

  unfoldable pub ingest_full_response : Bytes → Reading → Reading × Bool
  ingest_full_response body r = absorb_loaded (w.loads body) r

  -- The loop of `do_POST` over the chunks of a stream.
  unfoldable pub ingest_all : List Bytes → ChatTelemetry → ChatTelemetry
  ingest_all [] t = t
  ingest_all (c ∷ cs) t = ingest_all cs (ingest_chunk c t)

  abbrev started : Json → Bool → ChatTelemetry
  started model stream = record {
    sse_buf = some [];
    reading = record { content_chunks = 0; usage = none; model = model; stream = stream };
  }

  -- `__init__`, without the two clocks; JSONDecodeError is all that it catches.
  unfoldable pub request_of : Loaded → Option ChatTelemetry
  request_of (value (Json.obj fs)) = some (started (get "model" fs) (truth (get "stream" fs)))
  request_of (value other) = some (started Json.null false)
  request_of malformed = some (started Json.null false)
  request_of undecodable = none

  unfoldable pub new_telemetry : Bytes → Option ChatTelemetry
  unfolding request_of
  new_telemetry [] = request_of (value (Json.obj end))
  new_telemetry (x ∷ xs) = request_of (w.loads (x ∷ xs))
