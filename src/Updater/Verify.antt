-- ===== src/Updater/Verify.antt =====
-- src/link/app/updater.py: the digests that a release publishes, and `verify`.
pub mod Digests
use Prim.Native.String.{◌++◌}
use locai_link.Base.{
  ℕ, zero, suc, String, Bool, true, false, not, ◌&&◌, ◌||◌, Option, none, some, List, [], ◌∷◌, ◌==◌,
  elem, if◌then◌else◌,
}

-- What the code uses of Python's `str`: `strip`, `split`, `splitlines` and `lower`.
pub record Texts : Type 0 where
  pub strip : String → String
  pub split : String → List String
  pub splitlines : String → List String
  pub lower : String → String

pub record ReleaseInfo : Type 0 where
  pub version : String
  pub tag : String
  pub asset_name : String
  pub download_url : String
  pub sha256_url : Option String
  pub checksums_url : Option String

-- `lstrip` of one character.
unfoldable pub lstrip : String → String → String
lstrip c String.[] = ""
lstrip c (String.◌∷◌ d s) =
    let rest = lstrip c s in if (String.◌∷◌ d "") == c then rest else String.◌∷◌ d s

-- removeprefix("./")
unfoldable pub remove_dot_slash : String → String
remove_dot_slash (String.◌∷◌ c (String.◌∷◌ d s)) =
    if (String.◌∷◌ c (String.◌∷◌ d "")) == "./" then s else String.◌∷◌ c (String.◌∷◌ d s)
remove_dot_slash s = s

unfoldable pub has_char : String → String → Bool
has_char c String.[] = false
has_char c (String.◌∷◌ d s) = (String.◌∷◌ d "") == c || has_char c s

-- fullmatch(r"[0-9a-fA-F]{n}")
unfoldable pub hex_digits : ℕ → String → Bool
unfolding has_char
hex_digits zero String.[] = true
hex_digits zero (String.◌∷◌ c s) = false
hex_digits (suc n) String.[] = false
hex_digits (suc n) (String.◌∷◌ c s) =
    has_char (String.◌∷◌ c "") "0123456789abcdefABCDEF" && hex_digits n s

abbrev pub is_digest : String → Bool
is_digest d = hex_digits 64 d

abbrev pub last : String → List String → String
last x [] = x
last x (y ∷ ys) = last y ys

unfoldable pub first_of : Option String → Option String → Option String
first_of none rest = rest
first_of (some d) rest = some d

module _ (t : Texts) where
  -- The first word, if it is a digest.
  unfoldable pub first_token : List String → Option String
  first_token [] = none
  first_token (d ∷ ds) = if is_digest d then some d else none

  -- The text of a reply, `none` where the request failed; the digest, `none` where it raises.
  unfoldable pub fetch_sha256 : Option String → Option String
  unfolding first_token
  fetch_sha256 none = none
  fetch_sha256 (some text) =
      let body = t.strip text in if body == "" then none else first_token (t.split body)

  -- The digest that a line lists for an asset.
  unfoldable pub line_digest : String → List String → Option String
  line_digest asset_name [] = none
  line_digest asset_name (d ∷ []) = none
  line_digest asset_name (d ∷ x ∷ xs) =
      if remove_dot_slash (lstrip "*" (last x xs)) == asset_name && is_digest d
      then some d
      else none

  unfoldable pub find_digest : String → List String → Option String
  unfolding line_digest first_of
  find_digest asset_name [] = none
  find_digest asset_name (l ∷ ls) =
      first_of (line_digest asset_name (t.split l)) (find_digest asset_name ls)

  unfoldable pub sha256_from_checksums : String → Option String → Option String
  unfolding find_digest
  sha256_from_checksums asset_name none = none
  sha256_from_checksums asset_name (some text) = find_digest asset_name (t.splitlines text)

  unfoldable pub same_digest : String → Option String → Bool
  same_digest actual none = false
  same_digest actual (some expected) = t.lower actual == t.lower expected

  -- `verify`, `false` if it raises: `get` is what a request of an address meets, `actual` the hash
  -- of the file.
  unfoldable pub verify : (String → Option String) → String → Option String → Option String → Bool
  unfolding same_digest fetch_sha256
  verify get actual none none = false
  verify get actual none (some url) = same_digest actual (fetch_sha256 (get url))
  verify get actual (some expected) url = same_digest actual (some expected)

  unfoldable pub checksums_digest :
      (String → Option String) → String → Option String → Option String
  unfolding sha256_from_checksums
  checksums_digest get asset_name none = none
  checksums_digest get asset_name (some url) =
      if url == "" then none else sha256_from_checksums asset_name (get url)

  -- The check of a downloaded archive in `swap_bundle`. A digest is never empty.
  unfoldable pub verify_release : (String → Option String) → ReleaseInfo → String → Bool
  unfolding verify checksums_digest
  verify_release get r actual =
      verify get actual (checksums_digest get r.asset_name r.checksums_url) r.sha256_url
