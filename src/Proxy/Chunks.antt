-- ===== src/Proxy/Chunks.antt =====
-- How a stream is cut into chunks does not matter: src/link/infra/serving_proxy.py,
-- `_ChatTelemetry.ingest_chunk`.
use mathlib.Core.List.{append-nil, append_assoc}
use locai_link.Base.{
  ℕ, zero, suc, ◌≤◌, Bool, true, false, Option, none, some, List, [], ◌∷◌, ◌++◌, ◌≡◌, refl, ap, sym,
  ◌∙◌, arith, inl, inr, length, length-append, Option-cases,
}
use locai_link.Proxy.{
  Bytes, Reader, Reading, ChatTelemetry, cut, consume_event, drain, extend, onward, ingest_chunk,
  ingest_all,
}
use locai_link.Proxy.Cuts.{cut-append, cut-shorter}

-- The chunks as one.
abbrev pub joined : List Bytes → Bytes
joined [] = []
joined (c ∷ cs) = c ++ joined cs

module _ (w : Reader) where
  drain-none :
      (n : ℕ) (buf : Bytes) (r : Reading)
      → cut buf ≡ none
      → drain w n buf r ≡ record { sse_buf = some buf; reading = r }
  unfolding drain
  drain-none zero buf r h = refl
  drain-none (suc n) buf r h = rw (h) refl

  drain-some :
      (n : ℕ) (buf event rest : Bytes) (r : Reading)
      → cut buf ≡ some (event, rest)
      → drain w (suc n) buf r ≡ onward w (consume_event w event r) (drain w n rest)
  unfolding drain
  drain-some n buf event rest r h = rw (h) refl

  onward-cong :
      (p : Reading × Bool) (f g : Reading → ChatTelemetry)
      → ((r : Reading) → f r ≡ g r)
      → onward w p f ≡ onward w p g
  onward-cong (r, true) f g h = h r
  onward-cong (r, false) f g h = refl

  drain-fuel :
      (n m : ℕ) (buf : Bytes) (r : Reading)
      → length buf ≤ n
      → length buf ≤ m
      → drain w n buf r ≡ drain w m buf r
  drain-fuel zero m buf r h k = elim (Option-cases (cut buf)) [
    | inl no_event ↦ drain-none zero buf r no_event ∙ sym (drain-none m buf r no_event)
    | inr ((event, rest), found) ↦ absurd (omega (arith, cut-shorter buf event rest found))
  ]
  drain-fuel (suc n) zero buf r h k = elim (Option-cases (cut buf)) [
    | inl no_event ↦ drain-none (suc n) buf r no_event ∙ sym (drain-none zero buf r no_event)
    | inr ((event, rest), found) ↦ absurd (omega (arith, cut-shorter buf event rest found))
  ]
  drain-fuel (suc n) (suc m) buf r h k = elim (Option-cases (cut buf)) [
    | inl no_event ↦ drain-none (suc n) buf r no_event ∙ sym (drain-none (suc m) buf r no_event)
    | inr ((event, rest), found) ↦
        let shorter = cut-shorter buf event rest found in
        drain-some n buf event rest r found
        ∙ onward-cong (consume_event w event r) (drain w n rest) (drain w m rest)
            (λ r'. drain-fuel n m rest r' (omega (arith, shorter)) (omega (arith, shorter)))
        ∙ sym (drain-some m buf event rest r found)
  ]

  -- More bytes, after the loop is through with a buffer.
  abbrev further : Bytes → ChatTelemetry → ChatTelemetry
  further ys t = extend w ys t.sse_buf t.reading

  further-onward :
      (ys : Bytes) (p : Reading × Bool) (f : Reading → ChatTelemetry)
      → further ys (onward w p f) ≡ onward w p (λ r. further ys (f r))
  unfolding extend
  further-onward ys (r, true) f = refl
  further-onward ys (r, false) f = refl

  further-none :
      (n m : ℕ) (xs ys : Bytes) (r : Reading)
      → cut xs ≡ none
      → length (xs ++ ys) ≤ m
      → drain w m (xs ++ ys) r ≡ further ys (drain w n xs r)
  unfolding extend
  further-none n m xs ys r no_event k =
      drain-fuel m (length (xs ++ ys)) (xs ++ ys) r k (omega arith)
      ∙ sym (ap (further ys) (drain-none n xs r no_event))

  drain-append :
      (n m : ℕ) (xs ys : Bytes) (r : Reading)
      → length xs ≤ n
      → length (xs ++ ys) ≤ m
      → drain w m (xs ++ ys) r ≡ further ys (drain w n xs r)
  drain-append zero m xs ys r h k = elim (Option-cases (cut xs)) [
    | inl no_event ↦ further-none zero m xs ys r no_event k
    | inr ((event, rest), found) ↦ absurd (omega (arith, cut-shorter xs event rest found))
  ]
  drain-append (suc n) zero xs ys r h k = elim (Option-cases (cut xs)) [
    | inl no_event ↦ further-none (suc n) zero xs ys r no_event k
    | inr ((event, rest), found) ↦
        absurd (omega (arith, cut-shorter xs event rest found, length-append xs ys))
  ]
  drain-append (suc n) (suc m) xs ys r h k = elim (Option-cases (cut xs)) [
    | inl no_event ↦ further-none (suc n) (suc m) xs ys r no_event k
    | inr ((event, rest), found) ↦
        let shorter = cut-shorter xs event rest found in
        let enough : length (rest ++ ys) ≤ m =
          omega (arith, shorter, length-append xs ys, length-append rest ys) in
        let p = consume_event w event r in
        drain-some m (xs ++ ys) event (rest ++ ys) r (cut-append xs ys event rest found)
        ∙ onward-cong p (drain w m (rest ++ ys)) (λ r'. further ys (drain w n rest r'))
            (λ r'. drain-append n m rest ys r' (omega (arith, shorter)) enough)
        ∙ sym (further-onward ys p (drain w n rest))
        ∙ sym (ap (further ys) (drain-some n xs event rest r found))
  ]

  extend-extend :
      (xs ys : Bytes) (o : Option Bytes) (r : Reading)
      → further ys (extend w xs o r) ≡ extend w (xs ++ ys) o r
  unfolding extend
  extend-extend xs ys none r = refl
  extend-extend xs ys (some buf) r =
      sym (
        drain-append (length (buf ++ xs)) (length ((buf ++ xs) ++ ys)) (buf ++ xs) ys r
          (omega arith) (omega arith))
      ∙ ap (λ b. drain w (length b) b r) (append_assoc buf xs ys)

  ingest_chunk-append :
      (xs ys : Bytes) (t : ChatTelemetry)
      → ingest_chunk w ys (ingest_chunk w xs t) ≡ ingest_chunk w (xs ++ ys) t
  unfolding ingest_chunk
  ingest_chunk-append [] ys t = refl
  ingest_chunk-append (x ∷ xs) [] t = ap (λ b. ingest_chunk w b t) (sym (append-nil (x ∷ xs)))
  ingest_chunk-append (x ∷ xs) (y ∷ ys) t = extend-extend (x ∷ xs) (y ∷ ys) t.sse_buf t.reading

  -- What a recorder has read of a stream, the bytes that wait in it and whether it stopped at an
  -- exception do not depend on how the stream came in chunks: it is as if all came in one.
  pub ingest_all-joined :
      (chunks : List Bytes) (t : ChatTelemetry)
      → ingest_all w chunks t ≡ ingest_chunk w (joined chunks) t
  unfolding ingest_all ingest_chunk
  ingest_all-joined [] t = refl
  ingest_all-joined (c ∷ cs) t =
      ingest_all-joined cs (ingest_chunk w c t) ∙ ingest_chunk-append c (joined cs) t
