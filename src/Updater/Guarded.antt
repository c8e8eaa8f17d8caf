-- ===== src/Updater/Guarded.antt =====
-- What must go well before an update flips the pointers: src/link/app/updater.py, `swap_bundle`.
use locai_link.Base.{String, false, ◌&&◌, Option, none, some, ◌≡◌, arith}
use locai_link.Updater.{
  InstallRoot, World, failed, resolve_pointer, attempt, read_manifest, install, swap_bundle,
}

module _ (w : World) where
  install_guarded :
      (version new : String) (root : InstallRoot)
      → (w.placed && (w.signed && w.healthy)) ≡ false
      → let (root', result) = install w version new root in
        (root'.current ≡ root.current) × (root'.previous ≡ root.previous) × (result ≡ failed)
  unfolding install
  install_guarded version new root h = ground (arith, h)

  attempt_guarded :
      (version release : Option String) (root : InstallRoot)
      → (w.fetched && (w.placed && (w.signed && w.healthy))) ≡ false
      → let (root', result) = attempt w version release root in
        (root'.current ≡ root.current) × (root'.previous ≡ root.previous)
  unfolding attempt
  attempt_guarded none release root h = ground (arith, h)
  attempt_guarded (some version) none root h = ground (arith, h)
  attempt_guarded (some version) (some new) root h =
      ground (arith, h, install_guarded version new root)

  -- An update in which the download and its verification, the move into place, the signature or
  -- the health check does not succeed leaves both pointers as they were.
  pub swap_bundle_guarded :
      (root : InstallRoot)
      → (w.fetched && (w.placed && (w.signed && w.healthy))) ≡ false
      → ((swap_bundle w root).0.current ≡ root.current)
        × ((swap_bundle w root).0.previous ≡ root.previous)
  unfolding swap_bundle
  swap_bundle_guarded root h =
      let (current, previous) =
        attempt_guarded (read_manifest w (resolve_pointer root.versions root.current)) w.release
          root h in
      (current, previous)
