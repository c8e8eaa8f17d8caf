-- ===== src/Tests/Releases.antt =====
-- The theorems on the release of a bundle and its digest, at concrete data.
use Prim.Native.String.{◌++◌}
use locai_link.Base.{
  String, true, none, some, Option, List, [], ◌∷◌, ◌≡◌, refl, ◌==◌, without, if◌then◌else◌,
}
use locai_link.Updater.Verify.{
  Texts, ReleaseInfo, verify_release, verify, checksums_digest, sha256_from_checksums, find_digest,
  line_digest, first_of, lstrip, remove_dot_slash, hex_digits, has_char, same_digest,
}
use locai_link.Updater.Verify.Digests.{Accepted, verify_release-Accepted}
use locai_link.Updater.Releases.{Payload, Setting, latest_release_for}
use locai_link.Updater.Releases.Own.{IsSafe, latest_release_for-IsSafe}

abbrev put : String → List String → List String
put c [] = c ∷ []
put c (w ∷ ws) = (c ++ w) ∷ ws

abbrev split_at : String → String → List String
split_at sep String.[] = "" ∷ []
split_at sep (String.◌∷◌ c s) =
    let rest = split_at sep s in
    if (String.◌∷◌ c "") == sep then "" ∷ rest else put (String.◌∷◌ c "") rest

abbrev texts : Texts
texts = record {
  strip = λ s. s;
  split = λ s. without "" (split_at " " s);
  splitlines = split_at "\n";
  lower = λ s. s;
}

abbrev digest : String
digest = "0123456789abcdef0123456789abcdef0123456789abcdef0123456789abcdef"

abbrev release : ReleaseInfo
release = record {
  version = "1.2";
  tag = "v1.2";
  asset_name = "link-linux-x64.zip";
  download_url = "https://a/link";
  sha256_url = none;
  checksums_url = some "https://a/sums";
}

abbrev sums : String → Option String
sums url =
    if url == "https://a/sums"
    then some ("short\n" ++ digest ++ "  *./link-linux-x64.zip\n")
    else none

release_accepted : verify_release texts sums release digest ≡ true
unfolding verify_release verify checksums_digest sha256_from_checksums find_digest line_digest
    first_of lstrip remove_dot_slash hex_digits has_char same_digest without
release_accepted = refl

verify_release-Accepted_example :
    Accepted texts sums release.asset_name release.checksums_url release.sha256_url digest
verify_release-Accepted_example = verify_release-Accepted texts sums release digest release_accepted

abbrev locked : Setting
locked = record {
  frozen = true;
  allow_ota_overrides = none;
  releases_repo = some "other/fork";
  releases_api_base = some "http://evil";
  sys_platform = "linux";
  machine = "x86_64";
  lower = λ s. s;
  rstrip_slash = λ s. s;
}

abbrev published : String → Option Payload
published url = some record {
  tag_name = "v1.2";
  assets =
      record { name = "link-linux-x64.zip"; browser_download_url = some "https://a/link" } ∷ [];
}

latest_release_for-IsSafe_example :
    IsSafe locked "link" published (latest_release_for locked "link" published)
latest_release_for-IsSafe_example = latest_release_for-IsSafe locked "link" published
