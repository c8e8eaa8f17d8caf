-- ===== src/Updater/Download.antt =====
-- src/link/app/updater.py, `download`: a download with retries that goes on from a partial file. A
-- file is the list of its bytes; the progress callback is left out.
use mathlib.Core.List.{append_assoc}
use mathlib.Core.Path.{subst}
use locai_link.Base.{
  ℕ, zero, suc, Bool, true, false, not, ◌&&◌, ◌||◌, Option, none, some, List, [], ◌∷◌, ◌++◌, ◌≡◌,
  refl, eqb, sym, ap, ◌∙◌, arith, length, if◌then◌else◌, inl, inr, Bool-cases, Option-cases,
}

-- What the server does: no answer, or a status, the chunks that come, and whether the stream then
-- ends without an exception.
pub data Reply : Type 0 where
  no_answer : Reply
  answer : ℕ → List (List ℕ) → Bool → Reply

-- The partial file, if none it has no bytes; and the file, once it is complete.
pub record Files : Type 0 where
  pub partial : List ℕ
  pub dest : Option (List ℕ)

is_empty : List ℕ → Bool
is_empty [] = true
is_empty (b ∷ bs) = false

abbrev pub concat : List (List ℕ) → List ℕ
concat [] = []
concat (c ∷ cs) = c ++ concat cs

-- Whether the partial file is gone on with: the status is 206, and a range was asked for.
unfoldable pub appends : ℕ → List ℕ → Bool
unfolding is_empty
appends status partial = eqb status 206 && not (is_empty partial)

received : ℕ → List (List ℕ) → List ℕ → List ℕ
received status chunks partial = (if appends status partial then partial else []) ++ concat chunks

-- One attempt; the file is renamed when the stream ends.
unfoldable pub attempt_download : Reply → List ℕ → Files
unfolding received
attempt_download no_answer partial = record { partial = partial; dest = none }
attempt_download (answer status chunks complete) partial =
    if not (eqb status 200 || eqb status 206)
    then record { partial = partial; dest = none }
    else if complete
    then record { partial = []; dest = some (received status chunks partial) }
    else record { partial = received status chunks partial; dest = none }

-- The attempts, one for each reply; no file at the end stands for `DownloadFailed`.
unfoldable pub download : List Reply → List ℕ → Files
download [] partial = record { partial = partial; dest = none }
download (r ∷ rs) partial =
    let first = attempt_download r partial in
    let later = download rs first.partial in elim first.dest [ some file ↦ first | none ↦ later ]

-- `bytes` are the first bytes of the resource.
abbrev pub Begins : List ℕ → List ℕ → Type 0
Begins bytes resource = (rest : List ℕ) × (bytes ++ rest ≡ resource)

-- What is left of a resource behind its first bytes.
abbrev pub skip : ℕ → List ℕ → List ℕ
skip zero bs = bs
skip (suc n) [] = []
skip (suc n) (b ∷ bs) = skip n bs

-- A server that sends the resource: with 206 from the place that the request asks for, which is
-- behind the bytes that are there, and from its start with 200.
abbrev pub Sends : List ℕ → Reply → List ℕ → Type 0
Sends resource no_answer partial = Unit
Sends resource (answer status chunks complete) partial =
    (status ≡ 206 → Begins (concat chunks) (skip (length partial) resource))
    × (status ≡ 200 → Begins (concat chunks) resource)

skip-length : (bytes rest : List ℕ) → skip (length bytes) (bytes ++ rest) ≡ rest
skip-length [] rest = refl
skip-length (b ∷ bs) rest = skip-length bs rest

-- Bytes that go on behind the first ones.
Begins-append :
    (bytes more resource : List ℕ)
    → Begins bytes resource
    → Begins more (skip (length bytes) resource)
    → Begins (bytes ++ more) resource
Begins-append bytes more resource (rest, e) (left, f) =
    let behind : rest ≡ more ++ left =
      sym (skip-length bytes rest) ∙ ap (skip (length bytes)) e ∙ sym f in
    (left, append_assoc bytes more left ∙ ap (λ r. bytes ++ r) (sym behind) ∙ e)

received-Begins :
    (resource : List ℕ) (status : ℕ) (chunks : List (List ℕ)) (complete : Bool) (partial : List ℕ)
    → Begins partial resource
    → Sends resource (answer status chunks complete) partial
    → (eqb status 200 || eqb status 206) ≡ true
    → Begins (received status chunks partial) resource
unfolding received appends
received-Begins resource status chunks complete [] h s good = elim (Bool-cases (eqb status 206)) [
  | inl e ↦ rw (e) (s.0 (ground (arith, e)))
  | inr e ↦ rw (e) (s.1 (ground (arith, e, good)))
]
received-Begins resource status chunks complete (b ∷ bs) h s good =
    elim (Bool-cases (eqb status 206)) [
      | inl e ↦ rw (e) (Begins-append (b ∷ bs) (concat chunks) resource h (s.0 (ground (arith, e))))
      | inr e ↦ rw (e) (s.1 (ground (arith, e, good)))
    ]

abbrev pub AllSend : List ℕ → List Reply → List ℕ → Type 0
AllSend resource [] partial = Unit
AllSend resource (r ∷ rs) partial =
    Sends resource r partial × AllSend resource rs (attempt_download r partial).partial

abbrev pub FileBegins : List ℕ → Option (List ℕ) → Type 0
FileBegins resource none = Unit
FileBegins resource (some file) = Begins file resource

-- The files hold nothing but first bytes of the resource.
abbrev pub Holds : List ℕ → Files → Type 0
Holds resource f = Begins f.partial resource × FileBegins resource f.dest

attempt-Holds :
    (resource : List ℕ) (r : Reply) (partial : List ℕ)
    → Begins partial resource
    → Sends resource r partial
    → Holds resource (attempt_download r partial)
unfolding attempt_download
attempt-Holds resource no_answer partial h s = (h, tt)
attempt-Holds resource (answer status chunks complete) partial h s =
    elim (Bool-cases (eqb status 200 || eqb status 206)) [
      | inr bad ↦ simp (bad, attempt_download) (h, tt)
      | inl good ↦ elim (Bool-cases complete) [
        | inl e ↦
            simp (good, e, attempt_download)
              ((resource, refl), received-Begins resource status chunks complete partial h s good)
        | inr e ↦
            simp (good, e, attempt_download)
              (received-Begins resource status chunks complete partial h s good, tt)
      ]
    ]

-- Whatever the attempts meet, as long as each answer 206 sends the resource from behind the bytes
-- that were there, and each answer 200 from its start: the partial file that is left, from which
-- the next run goes on, and the file, if one is made, hold first bytes of the resource and
-- nothing else.
pub download-Holds :
    (resource : List ℕ) (rs : List Reply) (partial : List ℕ)
    → Begins partial resource
    → AllSend resource rs partial
    → Holds resource (download rs partial)
unfolding download
download-Holds resource [] partial h s = (h, tt)
download-Holds resource (r ∷ rs) partial h (s, later) =
    let first = attempt_download r partial in
    let one = attempt-Holds resource r partial h s in
    elim (Option-cases first.dest) [
      | inl e ↦ simp (e, download) (download-Holds resource rs first.partial one.0 later)
      | inr (file, e) ↦ simp (e, download) (one.0, subst (FileBegins resource) e one.1)
    ]
