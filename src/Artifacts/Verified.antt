-- ===== src/Artifacts/Verified.antt =====
-- What a fetched archive is: src/link/infra/artifact_store.py, `fetch_variant`.
use locai_link.Base.{
  ℕ, zero, suc, String, true, Option, none, some, ◌≡◌, sym, ◌≢◌, ◌∙◌, ◌⊎◌, refl, inl, inr, arith,
  Bool-cases, Option-cases,
}
use mathlib.Core.Path.{subst}
use locai_link.Json.{Json}
use locai_link.Dict.{Dict, lookup}
use locai_link.Dict.Laws.{lookup-erase_self}
use locai_link.Artifacts.{
  Result, Error, ok, err, verification_error, http_error, network_error, other_error, Variant,
}
use locai_link.Artifacts.Fetch.{
  Bytes, Response, body, status, unreachable, raised, again, retries, written, download_result,
  download_from, Run, Download, Store, download_to, is_text, verified, check_archive,
  check_download, fetch_new, fetch_path, fetch_variant,
}

-- The archive is there and has the hash of the manifest.
abbrev pub HasArchive : Store → Variant → Download → String → Type 0
HasArchive w v got archive =
    (d : Bytes) × (lookup archive got.files ≡ some d) × (is_text (w.hash d) v.sha256 ≡ true)

-- What a download is checked to be, by its end.
abbrev pub Checked : Store → Variant → String → Download → Type 0
Checked w v archive got =
    ((name : String) → got.run.result ≡ ok name → (name ≡ archive) × HasArchive w v got archive)
    × (got.run.result ≡ err verification_error → lookup archive got.files ≡ none)

-- How a download ends, as far as the check of its bytes goes.
abbrev Ends : String → Result String → Type 0
Ends dest r = (r ≡ ok dest) ⊎ ((e : Error) × (r ≡ err e) × (e ≢ verification_error))

download_result-Ends : (r : Response) (dest : String) → Ends dest (download_result r dest)
download_result-Ends (body d) dest = inl refl
download_result-Ends (status c) dest = inr (http_error c, refl, λ e. absurd cc)
download_result-Ends unreachable dest = inr (network_error, refl, λ e. absurd cc)
download_result-Ends (raised d) dest = inr (other_error, refl, λ e. absurd cc)

download_from-Ends :
    (replies : ℕ → Response) (dest : String) (n left : ℕ) (files : Dict Bytes)
    → Ends dest (download_from replies dest n left files).run.result
unfolding download_from again
download_from-Ends replies dest n zero files = inl refl
download_from-Ends replies dest n (suc left) files = elim (Bool-cases (retries left (replies n))) [
  | inl more ↦
      rw (more) (download_from-Ends replies dest (suc n) left (written (replies n) dest files))
  | inr last ↦ rw (last) (download_result-Ends (replies n) dest)
]

module _ (w : Store) where
  verified-is_text :
      (v : Variant) (d : Bytes) → verified w v d ≡ true → is_text (w.hash d) v.sha256 ≡ true
  unfolding verified
  verified-is_text v d h = ground (arith, h)

  check_archive-Checked :
      (v : Variant) (archive : String) (run : Run String) (files : Dict Bytes) (o : Option Bytes)
      → lookup archive files ≡ o
      → run.result ≡ ok archive
      → Checked w v archive (check_archive w v archive run files o)
  unfolding check_archive
  check_archive-Checked v archive run files none e r = (λ n h. absurd cc, λ h. e)
  check_archive-Checked v archive run files (some d) e r = elim (Bool-cases (verified w v d)) [
    | inl good ↦ rw (good) (λ n h. (cc, (d, e, verified-is_text v d good)), λ h. absurd cc)
    | inr bad ↦ rw (bad) (λ n h. absurd cc, λ h. lookup-erase_self archive files)
  ]

  check_download-Checked :
      (v : Variant) (archive : String) (got : Download) (r : Result String)
      → got.run.result ≡ r
      → Ends archive r
      → Checked w v archive (check_download w v archive got r)
  unfolding check_download
  check_download-Checked v archive got (err e) h (inl came) = absurd cc
  check_download-Checked v archive got (err e) h (inr (e', failed, other)) =
      (λ n k. absurd cc, λ k. absurd (other cc))
  check_download-Checked v archive got (ok name) h (inl came) =
      check_archive-Checked v archive got.run got.files _ refl (h ∙ came)
  check_download-Checked v archive got (ok name) h (inr (e', failed, other)) = absurd cc

  fetch_new-Checked :
      (v : Variant) (archive : String) (files : Dict Bytes)
      → Checked w v archive (fetch_new w v archive files)
  unfolding fetch_new download_to
  fetch_new-Checked v archive files =
      check_download-Checked v archive _ _ refl (download_from-Ends w.replies archive 1 3 files)

  fetch_path-Checked :
      (v : Variant) (p : String) (files : Dict Bytes)
      → Checked w v (w.file_name p) (fetch_path w v (Json.text p) files)
  unfolding fetch_path
  fetch_path-Checked v p files = elim (Option-cases (lookup (w.file_name p) files)) [
    | inl none_yet ↦ rw (none_yet) (fetch_new-Checked v (w.file_name p) files)
    | inr (d, there) ↦ elim (Bool-cases (is_text (w.hash d) v.sha256)) [
      | inl good ↦ rw (there, good) (λ n h. (cc, (d, there, good)), λ h. absurd cc)
      | inr bad ↦ rw (there, bad) (fetch_new-Checked v (w.file_name p) files)
    ]
  ]

  -- An archive that is returned, downloaded now or found in the cache, is there with the hash of
  -- the manifest; one that does not verify is not there any more.
  pub fetch_variant-Checked :
      (v : Variant) (p : String) (files : Dict Bytes)
      → v.path ≡ Json.text p
      → Checked w v (w.file_name p) (fetch_variant w v files)
  unfolding fetch_variant
  fetch_variant-Checked v p files named =
      subst (λ j. Checked w v (w.file_name p) (fetch_path w v j files)) (sym named)
        (fetch_path-Checked v p files)
