-- ===== src/Updater/Releases/Own.antt =====
-- Which release is found, and where it is asked for: src/link/app/updater.py, `latest_release_for`.
use locai_link.Base.{
  String, Bool, true, false, Option, none, some, List, [], ◌∷◌, ◌≡◌, ◌⊎◌, inl, inr, refl, sym, ◌==◌,
  if◌then◌else◌, ap, if-some, if-not_some,
}
use locai_link.Updater.Verify.{ReleaseInfo, lstrip}
use locai_link.Updater.Releases.{
  Asset, Payload, Setting, or_else, platform_tag, ota_overrides_allowed, starts_with,
  default_releases_repo, default_api_base, is_bundle, keep_sidecar, pick_from, pick_assets, address,
  find_checksums, info_of, chosen, read_release, override, release_url, latest_release_for,
}

-- Is it one of the assets?
abbrev pub Among : Asset → List Asset → Type 0
Among a [] = ⊥
Among a (b ∷ bs) = (a ≡ b) ⊎ Among a bs

module _ (stem version ptag : String) where
  -- Found before, or an asset with a name of a bundle.
  abbrev Found : Option Asset → List Asset → Asset → Type 0
  Found b assets a = (b ≡ some a) ⊎ (Among a assets × (is_bundle stem version ptag a.name ≡ true))

  pick_from-Found :
      (assets : List Asset) (b s : Option Asset) (a : Asset)
      → (pick_from stem version ptag b s assets).0 ≡ some a
      → Found b assets a
  unfolding pick_from
  pick_from-Found [] b s a h = inl h
  pick_from-Found (c ∷ rest) (some b) s a h =
      elim (pick_from-Found rest (some b) (keep_sidecar stem version ptag s c) a h) [
        | inl was ↦ inl was
        | inr (at, fits) ↦ inr (inr at, fits)
      ]
  pick_from-Found (c ∷ rest) none s a h =
      let now = is_bundle stem version ptag c.name in
      let s' = if now then s else keep_sidecar stem version ptag s c in
      elim (pick_from-Found rest (if now then some c else none) s' a h) [
        | inl was ↦ let (fits, same) = if-some now was in inr (inl (sym same), rw (sym same) fits)
        | inr (at, fits) ↦ inr (inr at, fits)
      ]

  pick_assets-Found :
      (assets : List Asset) (a : Asset)
      → (pick_assets stem version ptag assets).0 ≡ some a
      → Among a assets × (is_bundle stem version ptag a.name ≡ true)
  unfolding pick_assets
  pick_assets-Found assets a h = elim (pick_from-Found assets none none a h) [
    | inl was ↦ absurd cc
    | inr found ↦ found
  ]

module _ (w : Setting) (stem : String) where
  -- The release is described by one of the assets, which is a bundle for this platform.
  abbrev pub IsOwn : Payload → ReleaseInfo → Type 0
  IsOwn p r =
      (r.tag ≡ p.tag_name)
      × (r.version ≡ lstrip "v" p.tag_name)
      × (is_bundle stem r.version (platform_tag w) r.asset_name ≡ true)
      × (a : Asset) × Among a p.assets
      × (a.name ≡ r.asset_name)
      × (a.browser_download_url ≡ some r.download_url)

  info_of-lem :
      (tag : String) (a : Asset) (url : Option String) (s c : Option (Option String))
      (r : ReleaseInfo)
      → info_of tag a url s c ≡ some r
      → (r.tag ≡ tag)
        × (r.version ≡ lstrip "v" tag)
        × (a.name ≡ r.asset_name)
        × (url ≡ some r.download_url)
  unfolding info_of
  info_of-lem tag a (some url) (some s) (some c) r h =
      let same = sym (if-some true h).1 in
      (
        ap (λ (i : ReleaseInfo). i.tag) same,
        ap (λ (i : ReleaseInfo). i.version) same,
        sym (ap (λ (i : ReleaseInfo). i.asset_name) same),
        sym (ap (λ (i : ReleaseInfo). some i.download_url) same),
      )
  info_of-lem tag a none s c r h = absurd cc
  info_of-lem tag a (some url) none c r h = absurd cc
  info_of-lem tag a (some url) (some s) none r h = absurd cc

  chosen-IsOwn :
      (p : Payload) (o s : Option Asset) (r : ReleaseInfo)
      → ((a : Asset)
          → o ≡ some a
          → Among a p.assets
            × (is_bundle stem (lstrip "v" p.tag_name) (platform_tag w) a.name ≡ true))
      → chosen w stem p o s ≡ some r
      → IsOwn p r
  unfolding chosen
  chosen-IsOwn p none s r found h = absurd cc
  chosen-IsOwn p (some a) s r found h =
      let (at, fits) = found a refl in
      let (tag, version, name, url) =
        info_of-lem p.tag_name a a.browser_download_url (address s)
          (address (find_checksums w.lower p.assets)) r h in
      (tag, version, rw (version) (rw (sym name) fits), a, at, name, url)

  read_release-IsOwn :
      (o : Option Payload) (r : ReleaseInfo)
      → read_release w stem o ≡ some r
      → (p : Payload) × (o ≡ some p) × ((p.tag_name == "") ≡ false) × IsOwn p r
  unfolding read_release
  read_release-IsOwn none r h = absurd cc
  read_release-IsOwn (some p) r h =
      let version = lstrip "v" p.tag_name in
      let (tagged, h') = if-not_some (p.tag_name == "") h in
      (
        p,
        refl,
        tagged,
        chosen-IsOwn p _ _ r (pick_assets-Found stem version (platform_tag w) p.assets) h',
      )

  -- What is claimed of a call: where it asks, and what it returns.
  abbrev pub IsSafe : (String → Option Payload) → Option String × Option ReleaseInfo → Type 0
  IsSafe get (asked, returned) =
      (ota_overrides_allowed w ≡ false
        → asked ≡ some (release_url w stem default_api_base default_releases_repo))
      × ((r : ReleaseInfo)
          → returned ≡ some r
          → (url : String) × (p : Payload) × (asked ≡ some url) × (get url ≡ some p) × IsOwn p r)

  returned-IsOwn :
      (get : String → Option Payload) (cut : Bool) (url : String) (r : ReleaseInfo)
      → let (asked, returned) =
          if◌then◌else◌ {A = Option String × Option ReleaseInfo} cut
            (none, none)
            (some url, read_release w stem (get url)) in
        returned ≡ some r
        → (u : String) × (p : Payload) × (asked ≡ some u) × (get u ≡ some p) × IsOwn p r
  returned-IsOwn get true url r h = absurd cc
  returned-IsOwn get false url r h =
      let (p, got, tagged, own) = read_release-IsOwn (get url) r h in (url, p, refl, got, own)

  asked_locked :
      (get : String → Option Payload)
      → ota_overrides_allowed w ≡ false
      → (latest_release_for w stem get).0
        ≡ some (release_url w stem default_api_base default_releases_repo)
  unfolding latest_release_for override or_else starts_with
  asked_locked get no_override = rw (no_override) refl

  -- Where the overrides are not allowed, the release is asked for at the default address,
  -- whatever the environment says. What is returned is of the release that was asked for: its
  -- version is the release's tag without the `v`s before it, and its asset is one of the
  -- release's, named as a bundle for the stem, the platform and that version.
  pub latest_release_for-IsSafe :
      (get : String → Option Payload) → IsSafe get (latest_release_for w stem get)
  unfolding latest_release_for
  latest_release_for-IsSafe get = (asked_locked get, returned-IsOwn get _ _)
