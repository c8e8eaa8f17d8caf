-- ===== src/Updater/Verify/Digests.antt =====
-- What an archive that is verified has: src/link/app/updater.py, `verify` and the digests.
use locai_link.Base.{
  String, Bool, true, false, ◌&&◌, Option, none, some, List, [], ◌∷◌, ◌≡◌, ◌⊎◌, inl, inr, refl,
  ◌==◌, ◌∙◌, sym, arith, if-some, if-not_some, elem, eq_refl,
}
use locai_link.Updater.Verify.{
  Texts, ReleaseInfo, is_digest, first_token, fetch_sha256, line_digest, find_digest, lstrip,
  remove_dot_slash, last, sha256_from_checksums, same_digest, verify, checksums_digest,
  verify_release, first_of,
}

both : (a : Bool) {b : Bool} → (a && b) ≡ true → (a ≡ true) × (b ≡ true)
both true h = (refl, h)
both false h = absurd cc

first_of-some :
    (o rest : Option String) {d : String}
    → first_of o rest ≡ some d
    → (o ≡ some d) ⊎ (rest ≡ some d)
unfolding first_of
first_of-some none rest h = inr h
first_of-some (some e) rest h = inl h

module _ (t : Texts) where
  -- The line's last word names the asset and its first word is the digest.
  abbrev pub Lists : String → String → String → Type 0
  Lists asset_name line d =
      (x : String) × (xs : List String) × (t.split line ≡ d ∷ x ∷ xs)
      × ((remove_dot_slash (lstrip "*" (last x xs)) == asset_name) ≡ true)

  -- The checksums of the release have such a line.
  abbrev pub InChecksums : (String → Option String) → String → Option String → String → Type 0
  InChecksums get asset_name checksums_url d =
      (url : String) × (text : String) × (line : String) × (checksums_url ≡ some url)
      × (get url ≡ some text)
      × (elem line (t.splitlines text) ≡ true)
      × Lists asset_name line d

  -- The text beside the asset begins with the digest.
  abbrev pub InSidecar : (String → Option String) → Option String → String → Type 0
  InSidecar get sha256_url d =
      (url : String) × (text : String) × (ws : List String) × (sha256_url ≡ some url)
      × (get url ≡ some text)
      × (t.split (t.strip text) ≡ d ∷ ws)

  first_token-digest :
      (ws : List String) (d : String)
      → first_token t ws ≡ some d
      → (is_digest d ≡ true) × (vs : List String) × (ws ≡ d ∷ vs)
  unfolding first_token
  first_token-digest [] d h = absurd cc
  first_token-digest (w ∷ ws) d h =
      let (good, same) = if-some (is_digest w) h in (rw (sym same) good, ws, cc)

  line_digest-Lists :
      (asset_name line d : String) (ws : List String)
      → t.split line ≡ ws
      → line_digest t asset_name ws ≡ some d
      → (is_digest d ≡ true) × Lists asset_name line d
  unfolding line_digest
  line_digest-Lists asset_name line d [] e h = absurd cc
  line_digest-Lists asset_name line d (w ∷ []) e h = absurd cc
  line_digest-Lists asset_name line d (w ∷ x ∷ xs) e h =
      let (good, same) =
        if-some (remove_dot_slash (lstrip "*" (last x xs)) == asset_name && is_digest w) h in
      let (named, hex) = both (remove_dot_slash (lstrip "*" (last x xs)) == asset_name) good in
      (rw (sym same) hex, (x, xs, cc, named))

  -- A line that lists a digest is one of the lines.
  find_digest-Lists :
      (asset_name d : String) (ls : List String)
      → find_digest t asset_name ls ≡ some d
      → (is_digest d ≡ true) × (line : String) × (elem line ls ≡ true) × Lists asset_name line d
  unfolding find_digest
  find_digest-Lists asset_name d [] h = absurd cc
  find_digest-Lists asset_name d (l ∷ ls) h =
      elim (first_of-some (line_digest t asset_name (t.split l)) (find_digest t asset_name ls) h) [
        | inl here ↦
            let (hex, lists) = line_digest-Lists asset_name l d (t.split l) refl here in
            (hex, l, ground (arith, eq_refl l), lists)
        | inr there ↦
            let (hex, line, at, lists) = find_digest-Lists asset_name d ls there in
            (hex, line, ground (arith, at), lists)
      ]

  fetch_sha256-InSidecar :
      (reply : Option String) (d : String)
      → fetch_sha256 t reply ≡ some d
      → (is_digest d ≡ true)
        × (text : String) × (ws : List String) × (reply ≡ some text)
        × (t.split (t.strip text) ≡ d ∷ ws)
  unfolding fetch_sha256
  fetch_sha256-InSidecar none d h = absurd cc
  fetch_sha256-InSidecar (some text) d h =
      let (hex, ws, same) =
        first_token-digest (t.split (t.strip text)) d (if-not_some (t.strip text == "") h).1 in
      (hex, text, ws, refl, same)

  sha256_from_checksums-Lists :
      (asset_name d : String) (reply : Option String)
      → sha256_from_checksums t asset_name reply ≡ some d
      → (is_digest d ≡ true)
        × (text : String) × (line : String) × (reply ≡ some text)
        × (elem line (t.splitlines text) ≡ true)
        × Lists asset_name line d
  unfolding sha256_from_checksums
  sha256_from_checksums-Lists asset_name d none h = absurd cc
  sha256_from_checksums-Lists asset_name d (some text) h =
      let (hex, line, at, lists) = find_digest-Lists asset_name d (t.splitlines text) h in
      (hex, text, line, refl, at, lists)

  checksums_digest-InChecksums :
      (get : String → Option String) (asset_name d : String) (url : Option String)
      → checksums_digest t get asset_name url ≡ some d
      → (is_digest d ≡ true) × InChecksums get asset_name url d
  unfolding checksums_digest
  checksums_digest-InChecksums get asset_name d none h = absurd cc
  checksums_digest-InChecksums get asset_name d (some url) h =
      let (hex, text, line, got, at, lists) =
        sha256_from_checksums-Lists asset_name d (get url) (if-not_some (url == "") h).1 in
      (hex, (url, text, line, refl, got, at, lists))

  -- What is claimed of an archive that is accepted.
  abbrev pub Accepted :
      (String → Option String) → String → Option String → Option String → String → Type 0
  Accepted get asset_name checksums_url sha256_url actual =
      (d : String) × (is_digest d ≡ true)
      × ((t.lower actual == t.lower d) ≡ true)
      × (InChecksums get asset_name checksums_url d
          ⊎ (checksums_digest t get asset_name checksums_url ≡ none) × InSidecar get sha256_url d)

  same_digest-some :
      (actual : String) (o : Option String)
      → same_digest t actual o ≡ true
      → (d : String) × (o ≡ some d) × ((t.lower actual == t.lower d) ≡ true)
  unfolding same_digest
  same_digest-some actual none h = absurd cc
  same_digest-some actual (some d) h = (d, refl, h)

  verify-Accepted :
      (get : String → Option String) (asset_name actual : String)
      (checksums_url expected sha256_url : Option String)
      → checksums_digest t get asset_name checksums_url ≡ expected
      → verify t get actual expected sha256_url ≡ true
      → Accepted get asset_name checksums_url sha256_url actual
  unfolding verify
  verify-Accepted get asset_name actual cs none none e h = absurd cc
  verify-Accepted get asset_name actual cs none (some url) e h =
      let (d, found, same) = same_digest-some actual (fetch_sha256 t (get url)) h in
      let (hex, text, ws, got, split) = fetch_sha256-InSidecar (get url) d found in
      (d, hex, same, inr (e, (url, text, ws, refl, got, split)))
  verify-Accepted get asset_name actual cs (some expected) sha256_url e h =
      let (d, found, same) = same_digest-some actual (some expected) h in
      let (hex, listed) = checksums_digest-InChecksums get asset_name d cs (e ∙ found) in
      (d, hex, same, inl listed)

  -- An archive is accepted only with a hash that is, but for case, a digest of 64 hexadecimal
  -- digits that was published for it: one that a line of the checksums lists for the asset's
  -- name, or, where no such digest is found there, the first word beside the asset.
  pub verify_release-Accepted :
      (get : String → Option String) (r : ReleaseInfo) (actual : String)
      → verify_release t get r actual ≡ true
      → Accepted get r.asset_name r.checksums_url r.sha256_url actual
  unfolding verify_release
  verify_release-Accepted get r actual h =
      verify-Accepted get r.asset_name actual r.checksums_url
        (checksums_digest t get r.asset_name r.checksums_url) r.sha256_url refl h
