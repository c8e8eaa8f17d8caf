-- ===== src/Artifacts/Fetch.antt =====
-- src/link/infra/artifact_store.py: the requests to the store, `_http_get`, `fetch_manifest`,
-- `_download_to` and `fetch_variant`.
use Prim.Native.String.{◌++◌}
use locai_link.Base.{
  ℕ, zero, suc, ◌+◌, ◌*◌, String, Bool, true, false, not, ◌&&◌, ◌||◌, Option, none, some, List, eqb,
  ltb, length, if◌then◌else◌, ◌==◌,
}
use locai_link.Json.{Json}
use locai_link.Dict.{Dict, lookup, insert, erase}
use locai_link.Artifacts.{
  Result, ok, err, store_error, manifest_error, verification_error, type_error, http_error,
  network_error, other_error, Variant, is_number, manifest,
}

abbrev pub Bytes : Type 0
Bytes = List ℕ

-- How one request ends: with a body; with a status that `urlopen` raises; with a failure of the
-- network, in between too; or with another exception, before or while the partial file is written.
pub data Response : Type 0 where
  body : Bytes → Response
  status : ℕ → Response
  unreachable : Response
  raised : Option Bytes → Response

-- The result of a call, the requests that it made and the seconds that it slept.
pub record Run (A : Type 0) : Type 0 where
  pub result : Result A
  pub requests : ℕ
  pub slept : ℕ

unfoldable pub again : {A : Type 0} → ℕ → Run A → Run A
again seconds r = record { result = r.result; requests = suc r.requests; slept = seconds + r.slept }

abbrev once : {A : Type 0} → Result A → Run A
once r = record { result = r; requests = 1; slept = 0 }

-- `if max_bytes and len(data) > max_bytes`
unfoldable pub too_long : Option ℕ → Bytes → Bool
too_long none d = false
too_long (some n) d = not (eqb n 0) && ltb n (length d)

-- Is it a failure that another request may cure, with `left` requests after this one?
unfoldable pub retries : ℕ → Response → Bool
retries left (status c) = not (ltb c 500 || eqb left 0)
retries left unreachable = not (eqb left 0)
retries left _ = false

-- What a request that is not made again ends with.
unfoldable pub read_body : Option ℕ → Response → Result Bytes
read_body cap (body d) = if too_long cap d then err store_error else ok d
read_body cap (status c) = err (http_error c)
read_body cap unreachable = err network_error
read_body cap (raised partial) = err other_error

-- The `for` of `_http_get`, at attempt `n` with `left` attempts to go; `replies n` is what the
-- `n`th request meets.
unfoldable pub get_from : (ℕ → Response) → Option ℕ → ℕ → ℕ → Run Bytes
unfolding again
get_from replies cap n zero = record { result = err store_error; requests = 0; slept = 0 }
get_from replies cap n (suc left) =
    let rest = get_from replies cap (suc n) left in
    if retries left (replies n) then again (2 * n) rest else once (read_body cap (replies n))

unfoldable pub http_get : (ℕ → Response) → Option ℕ → Run Bytes
http_get replies cap = get_from replies cap 1 3

-- `fetch_manifest`: `parse` is `json.loads`, `none` where it raises.
unfoldable pub fetch_manifest :
    (String → Option ℕ) → (Bytes → Option Json) → (ℕ → Response) → Result Json
fetch_manifest value parse replies = elim (http_get replies (some 8388608)).result [
  | err store_error ↦ err store_error
  | err other ↦ err manifest_error
  | ok d ↦ elim (parse d) [
    | none ↦ err manifest_error
    | some v ↦ elim (manifest value v) [ ok m ↦ ok m | err e ↦ err manifest_error ]
  ]
]

-- A download into a folder: the folder after it, and the run.
pub record Download : Type 0 where
  pub files : Dict Bytes
  pub run : Run String

abbrev partial_name : String → String
partial_name dest = dest ++ ".partial"

-- What one attempt leaves in the folder.
unfoldable pub written : Response → String → Dict Bytes → Dict Bytes
written (body d) dest files = erase (partial_name dest) (insert dest d files)
written (raised none) dest files = files
written (raised (some d)) dest files = insert (partial_name dest) d files
written _ dest files = erase (partial_name dest) files

abbrev pub download_result : Response → String → Result String
download_result (body d) dest = ok dest
download_result (status c) dest = err (http_error c)
download_result unreachable dest = err network_error
download_result (raised d) dest = err other_error

-- The `for` of `_download_to`, which a loop that is used up leaves without an exception.
unfoldable pub download_from : (ℕ → Response) → String → ℕ → ℕ → Dict Bytes → Download
unfolding again
download_from replies dest n zero files = record {
  files = files;
  run = record { result = ok dest; requests = 0; slept = 0 };
}
download_from replies dest n (suc left) files =
    let files' = written (replies n) dest files in
    let rest = download_from replies dest (suc n) left files' in
    if retries left (replies n)
    then record { files = rest.files; run = again (2 * n) rest.run }
    else record { files = files'; run = once (download_result (replies n) dest) }

unfoldable pub download_to : (ℕ → Response) → String → Dict Bytes → Download
download_to replies dest = download_from replies dest 1 3

-- `hash` is the hexadecimal SHA-256; `file_name` is `Path(…).name`; `value` is what a decimal
-- number of the manifest equals.
pub record Store : Type 0 where
  pub hash : Bytes → String
  pub file_name : String → String
  pub value : String → Option ℕ
  pub replies : ℕ → Response

-- `text == v`
unfoldable pub is_text : String → Json → Bool
is_text s (Json.text t) = s == t
is_text s _ = false

module _ (w : Store) where
  -- `variant.size is None or … == variant.size`
  unfoldable pub size_fits : Json → Bytes → Bool
  size_fits Json.null d = true
  size_fits v d = is_number w.value v (length d)

  unfoldable pub verified : Variant → Bytes → Bool
  verified v d = size_fits v.size d && is_text (w.hash d) v.sha256

  -- After the download: an archive that does not verify is discarded.
  unfoldable pub check_archive :
      Variant → String → Run String → Dict Bytes → Option Bytes → Download
  check_archive v archive run files none = record {
    files = files;
    run = record run { result = err other_error };
  }
  check_archive v archive run files (some d) =
      if verified v d then record { files = files; run = run } else record {
        files = erase archive files;
        run = record run { result = err verification_error };
      }

  unfoldable pub check_download : Variant → String → Download → Result String → Download
  check_download v archive got (err e) = got
  check_download v archive got (ok name) =
      check_archive v archive got.run got.files (lookup archive got.files)

  unfoldable pub fetch_new : Variant → String → Dict Bytes → Download
  fetch_new v archive files =
      let got = download_to w.replies archive files in check_download v archive got got.run.result

  abbrev pub is_cached : Variant → Option Bytes → Bool
  is_cached v none = false
  is_cached v (some d) = is_text (w.hash d) v.sha256

  -- `fetch_variant`, whose path must be a text for `Path` to take it.
  unfoldable pub fetch_path : Variant → Json → Dict Bytes → Download
  fetch_path v (Json.text p) files =
      let archive = w.file_name p in
      if is_cached v (lookup archive files)
      then record { files = files; run = record { result = ok archive; requests = 0; slept = 0 } }
      else fetch_new v archive files
  fetch_path v _ files = record {
    files = files;
    run = record { result = err type_error; requests = 0; slept = 0 };
  }

  unfoldable pub fetch_variant : Variant → Dict Bytes → Download
  unfolding fetch_path
  fetch_variant v files = fetch_path v v.path files
