-- ===== src/Updater/Releases.antt =====
-- src/link/app/updater.py: `latest_release_for`, with the choice of the assets in `_pick_assets`.
pub mod Own
use Prim.Native.String.{◌++◌}
use locai_link.Base.{
  String, Bool, true, false, not, ◌&&◌, ◌||◌, Option, none, some, List, [], ◌∷◌, ◌==◌, elem,
  if◌then◌else◌,
}
use locai_link.Updater.Verify.{ReleaseInfo, lstrip}

-- An asset of a release; a name that is missing or null is empty.
pub record Asset : Type 0 where
  pub name : String
  pub browser_download_url : Option String

-- What the release server answers; a tag that is missing or null is empty.
pub record Payload : Type 0 where
  pub tag_name : String
  pub assets : List Asset

-- The environment variables that override the source of releases, whether the program is a frozen
-- bundle, `sys.platform`, `platform.machine()`, and what `str` answers: `lower`, and `rstrip("/")`.
pub record Setting : Type 0 where
  pub frozen : Bool
  pub allow_ota_overrides : Option String
  pub releases_repo : Option String
  pub releases_api_base : Option String
  pub sys_platform : String
  pub machine : String
  pub lower : String → String
  pub rstrip_slash : String → String

-- `o or d`
unfoldable pub or_else : Option String → String → String
or_else none d = d
or_else (some s) d = if s == "" then d else s

unfoldable pub ota_overrides_allowed : Setting → Bool
unfolding or_else
ota_overrides_allowed w = not w.frozen || not (or_else w.allow_ota_overrides "" == "")

unfoldable pub os_tag : String → String
os_tag s =
    if s == "linux"
    then "linux"
    else if s == "darwin"
    then "macos"
    else if s == "win32"
    then "windows"
    else s

unfoldable pub arch_tag : String → String
arch_tag m =
    if m == "x86_64" || m == "amd64"
    then "x64"
    else if m == "arm64" || m == "aarch64"
    then "arm64"
    else m

unfoldable pub platform_tag : Setting → String
platform_tag w = os_tag w.sys_platform ++ "-" ++ arch_tag (w.lower w.machine)

unfoldable pub starts_with : String → String → Bool
starts_with String.[] s = true
starts_with (String.◌∷◌ c p) String.[] = false
starts_with (String.◌∷◌ c p) (String.◌∷◌ d s) =
    (String.◌∷◌ c "") == (String.◌∷◌ d "") && starts_with p s

abbrev pub default_releases_repo : String
default_releases_repo = "locai-co-uk/locai-link"

abbrev pub default_api_base : String
default_api_base = "https://api.github.com"

-- The names that the pattern of a bundle takes; `$` is also before a line feed at the end.
abbrev pub bundle_names : String → List String
bundle_names base = (base ++ ".tar.gz") ∷ (base ++ ".zip") ∷ []

abbrev pub with_line_feed : List String → List String
with_line_feed [] = []
with_line_feed (s ∷ ss) = s ∷ (s ++ "\n") ∷ with_line_feed ss

-- `<stem>-<platform_tag>`, with and without the version
unfoldable pub is_bundle : String → String → String → String → Bool
is_bundle stem version ptag name =
    let base = stem ++ "-" ++ ptag in
    elem name (with_line_feed (bundle_names base))
    || elem name (with_line_feed (bundle_names (base ++ "-v" ++ version)))

abbrev pub sidecar_names : String → List String
sidecar_names base = (base ++ ".tar.gz.sha256") ∷ (base ++ ".zip.sha256") ∷ []

unfoldable pub is_sidecar : String → String → String → String → Bool
is_sidecar stem version ptag name =
    let base = stem ++ "-" ++ ptag in
    elem name (with_line_feed (sidecar_names base))
    || elem name (with_line_feed (sidecar_names (base ++ "-v" ++ version)))

module _ (stem version ptag : String) where
  unfoldable pub keep_sidecar : Option Asset → Asset → Option Asset
  keep_sidecar none a = if is_sidecar stem version ptag a.name then some a else none
  keep_sidecar (some s) a = some s

  -- The loop of `_pick_assets`, with what it has found.
  unfoldable pub pick_from : Option Asset → Option Asset → List Asset → Option Asset × Option Asset
  unfolding keep_sidecar
  pick_from b s [] = (b, s)
  pick_from none s (a ∷ rest) =
      let found = is_bundle stem version ptag a.name in
      pick_from (if found then some a else none) (if found then s else keep_sidecar s a) rest
  pick_from (some b) s (a ∷ rest) = pick_from (some b) (keep_sidecar s a) rest

  unfoldable pub pick_assets : List Asset → Option Asset × Option Asset
  pick_assets assets = pick_from none none assets

-- The address of an asset that may be missing; `none` where the asset has no address, which raises.
unfoldable pub address : Option Asset → Option (Option String)
address none = some none
address (some a) = elim a.browser_download_url [ none ↦ none | some url ↦ some (some url) ]

unfoldable pub find_checksums : (String → String) → List Asset → Option Asset
find_checksums lower [] = none
find_checksums lower (a ∷ rest) =
    let later = find_checksums lower rest in
    if lower a.name == "checksums.txt" then some a else later

unfoldable pub info_of :
    String
    → Asset
    → Option String
    → Option (Option String)
    → Option (Option String)
    → Option ReleaseInfo
info_of tag a (some url) (some sidecar) (some checksums) = some record {
  version = lstrip "v" tag;
  tag = tag;
  asset_name = a.name;
  download_url = url;
  sha256_url = sidecar;
  checksums_url = checksums;
}
info_of tag a _ _ _ = none

module _ (w : Setting) (stem : String) where
  unfoldable pub chosen : Payload → Option Asset → Option Asset → Option ReleaseInfo
  unfolding info_of
  chosen p none s = none
  chosen p (some a) s =
      info_of p.tag_name a a.browser_download_url (address s)
        (address (find_checksums w.lower p.assets))

  unfoldable pub read_release : Option Payload → Option ReleaseInfo
  unfolding chosen
  read_release none = none
  read_release (some p) =
      let (bundle, sidecar) = pick_assets stem (lstrip "v" p.tag_name) (platform_tag w) p.assets in
      if p.tag_name == "" then none else chosen p bundle sidecar

  unfoldable pub override : Option String → Option String
  override o = if ota_overrides_allowed w then o else none

  abbrev pub release_url : String → String → String
  release_url base repo = w.rstrip_slash base ++ "/repos/" ++ repo ++ "/releases/latest"

  -- `latest_release_for` with the stem only: the address that it asks, if any, and what it returns,
  -- `none` where it raises; `get` is what the request of an address meets.
  unfoldable pub latest_release_for : (String → Option Payload) → Option String × Option ReleaseInfo
  unfolding override read_release
  latest_release_for get =
      let repo = or_else (override w.releases_repo) default_releases_repo in
      let base = or_else (override w.releases_api_base) default_api_base in
      let url = release_url base repo in
      if not (ota_overrides_allowed w) && not (starts_with "https://" base)
      then (none, none)
      else (some url, read_release (get url))
