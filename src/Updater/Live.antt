-- ===== src/Updater/Live.antt =====
-- An update never leaves the install root without a live version.
use locai_link.Base.{
  ℕ, String, Bool, true, false, not, ◌&&◌, Option, none, some, List, [], ◌∷◌, ◌≡◌, ◌≢◌, refl, ap,
  arith, inl, inr, ◌⊎◌, ◌∙◌, ◌==◌, eq_iff, eq_refl, elem, Bool-cases, without, elem-without_ne,
}
use locai_link.Updater.{
  Pointer, InstallRoot, Write, resolve_pointer, read_pointer_version, install_uses_symlink,
  write_pointer, demote, keepers, remaining, gc_old_versions, add_pinned, World, SwapResult,
  updated, up_to_date, failed, flip_current, activate_version, install, swap_bundle, attempt,
  read_manifest,
}

-- `current` names `v`, whose folder is there.
pub record IsLive (v : String) (root : InstallRoot) : Type 0 where
  pub named : read_pointer_version root.current ≡ some v
  pub there : elem v root.versions ≡ true

-- A live version is the one that `_resolve_current` finds.
pub resolve_pointer-IsLive :
    (v : String) (root : InstallRoot)
    → IsLive v root
    → resolve_pointer root.versions root.current ≡ some v
unfolding resolve_pointer read_pointer_version
resolve_pointer-IsLive v root h = ground (arith, h)

keepers-elem :
    (keep : ℕ) (k : String) (kept vs : List String)
    → elem k kept ≡ true
    → elem k (keepers keep kept vs) ≡ true
unfolding keepers
keepers-elem keep k kept [] h = h
keepers-elem keep k kept (v ∷ vs) h =
    ground (arith, h, keepers-elem keep k kept vs, keepers-elem keep k (v ∷ kept) vs)

remaining-elem :
    (removes : String → Bool) (kept vs : List String) (k : String)
    → elem k kept ≡ true
    → elem k (remaining removes kept vs) ≡ elem k vs
unfolding remaining
remaining-elem removes kept [] k h = refl
remaining-elem removes kept (v ∷ vs) k h =
    ground (arith, h, remaining-elem removes kept vs k h, eq_iff v k)

elem-add_pinned :
    (k : String) (o : Option String) (vs : List String)
    → elem k vs ≡ true
    → elem k (add_pinned o vs) ≡ true
unfolding add_pinned
elem-add_pinned k none vs h = h
elem-add_pinned k (some v) vs h = ground (arith, h)

elem-add_pinned_self :
    (k : String) (vs : List String) → k ≢ "" → elem k (add_pinned (some k) vs) ≡ true
unfolding add_pinned
elem-add_pinned_self k vs n = ground (arith, n, eq_iff k "", eq_refl k)

-- The removal of old versions keeps what `current` names.
gc_old_versions-IsLive :
    (removes : String → Bool) (keep : ℕ) (v : String) (root : InstallRoot)
    → v ≢ ""
    → IsLive v root
    → IsLive v (gc_old_versions removes keep root)
unfolding gc_old_versions
gc_old_versions-IsLive removes keep v root n h =
    let inner = add_pinned (read_pointer_version root.current) [] in
    let pinned = add_pinned (read_pointer_version root.previous) inner in
    let current_in : elem v inner ≡ true = rw h.named (elem-add_pinned_self v [] n) in
    let kept =
      keepers-elem keep v pinned root.versions
        (elem-add_pinned v (read_pointer_version root.previous) inner current_in) in
    record {
      named = h.named;
      there =
          remaining-elem removes (keepers keep pinned root.versions) root.versions v kept ∙ h.there;
    }

-- What `previous` names stays, too.
gc_old_versions_previous :
    (removes : String → Bool) (keep : ℕ) (v : String) (root : InstallRoot)
    → v ≢ ""
    → read_pointer_version root.previous ≡ some v
    → elem v (gc_old_versions removes keep root).versions ≡ elem v root.versions
unfolding gc_old_versions
gc_old_versions_previous removes keep v root n h =
    let inner = add_pinned (read_pointer_version root.current) [] in
    let pinned = add_pinned (read_pointer_version root.previous) inner in
    remaining-elem removes (keepers keep pinned root.versions) root.versions v
      (keepers-elem keep v pinned root.versions (rw h (elem-add_pinned_self v inner n)))

read-write_pointer :
    (o : Write) (v : String) (use_symlink : Bool) (p : Pointer)
    → v ≢ ""
    → let (p', ok) = write_pointer o v use_symlink p in
      ((ok ≡ false) × (read_pointer_version p' ≡ read_pointer_version p))
      ⊎ (read_pointer_version p' ≡ some v)
unfolding write_pointer read_pointer_version
read-write_pointer o v use_symlink p n = ground (arith, n, eq_iff v "")

module _ (w : World) where
  -- A flip to a version that is there raises with `current` as it was, or `current` names the
  -- new version; if it does not raise, `previous` names the old one. Folders stay as they are.
  flip_current_ends :
      (v new : String) (root : InstallRoot)
      → new ≢ ""
      → v ≢ ""
      → v ≢ new
      → IsLive v root
      → elem new root.versions ≡ true
      → let (root', ok) = flip_current w new root in
        (root'.versions ≡ root.versions)
        × (((ok ≡ false) × (IsLive v root' ⊎ IsLive new root'))
            ⊎ (IsLive new root' × (read_pointer_version root'.previous ≡ some v)))
  unfolding flip_current demote
  flip_current_ends v new root n vn ne h there =
      let s = install_uses_symlink w.posix root in
      ground (
        arith,
        h,
        there,
        n,
        vn,
        ne,
        eq_iff v "",
        eq_iff v new,
        read-write_pointer w.current_write new s root.current n,
        read-write_pointer w.previous_write v s root.previous vn,
      )

  -- What an update from `v` to `new` leaves, by how it ends.
  abbrev pub After : String → String → InstallRoot → InstallRoot → SwapResult → Type 0
  After v new root root' updated =
      IsLive new root'
      × (read_pointer_version root'.previous ≡ some v)
      × (elem v root'.versions ≡ true)
      × (root'.update_pending ≡ some v)
  After v new root root' up_to_date = root' ≡ root
  After v new root root' failed = IsLive v root' ⊎ IsLive new root'

  AfterOf : String → String → InstallRoot → InstallRoot × SwapResult → Type 0
  AfterOf v new root x = After v new root x.0 x.1

  activate_version-After :
      (v new : String) (first root : InstallRoot)
      → new ≢ ""
      → v ≢ ""
      → v ≢ new
      → IsLive v root
      → elem new root.versions ≡ true
      → After v new first (activate_version w v new root).0 (activate_version w v new root).1
  unfolding activate_version gc_old_versions flip_current
  activate_version-After v new first root n vn ne h there =
      let (versions, how) = flip_current_ends v new root n vn ne h there in
      let r1 = record (flip_current w new root).0 { update_pending = some v } in
      elim (Bool-cases (flip_current w new root).1) [
        | inr bad ↦ rw (bad, activate_version) (ground (arith, how))
        | inl ok ↦ elim (Bool-cases w.stamped) [
          | inr no_stamp ↦ rw (ok, no_stamp, activate_version) (ground (arith, how))
          | inl stamp ↦ elim how [
            | inl (bad, kept) ↦ cc
            | inr (live, previous) ↦
                let live1 : IsLive new r1 = record { named = live.named; there = live.there } in
                rw (ok, stamp, activate_version)
                  (
                    gc_old_versions-IsLive w.removes 2 new r1 n live1,
                    previous,
                    gc_old_versions_previous w.removes 2 v r1 vn previous
                        ∙ (ap (elem v) versions ∙ h.there),
                    refl,
                  )
          ]
        ]
      ]

  install-After :
      (v new : String) (root : InstallRoot)
      → new ≢ ""
      → v ≢ ""
      → v ≢ new
      → IsLive v root
      → After v new root (install w v new root).0 (install w v new root).1
  unfolding install
  install-After v new root n vn ne h =
      let others = without new root.versions in
      let emptied = record root { versions = others } in
      let filled = record root { versions = new ∷ others } in
      let kept = elem-without_ne v new root.versions ne in
      let live0 : IsLive v emptied = record { named = h.named; there = kept ∙ h.there } in
      let live1 : IsLive v filled = record {
        named = h.named;
        there = ground (arith, kept, h.there);
      } in
      let done =
        activate_version-After v new root filled n vn ne live1 (ground (arith, eq_refl new)) in
      elim (Bool-cases (elem new root.versions && not w.cleared)) [
        | inl e ↦ rw (e, install) (inl h)
        | inr e ↦ elim (Bool-cases w.placed) [
          | inr p ↦ rw (e, p, install) (inl live0)
          | inl p ↦ elim (Bool-cases w.signed) [
            | inr s ↦ rw (e, p, s, install) (inl live1)
            | inl s ↦ elim (Bool-cases w.healthy) [
              | inr k ↦ elim (Bool-cases w.discarded) [
                | inl x ↦ rw (e, p, s, k, x, install) (inl live0)
                | inr x ↦ rw (e, p, s, k, x, install) (inl live1)
              ]
              | inl k ↦ simp (e, p, s, k, install) done
            ]
          ]
        ]
      ]

  -- An update, from a live version whose manifest has its own name, to a release that has a
  -- name: when it reports success, the new version is live, `previous` names the old one, whose
  -- folder is still there, and the launcher's stamp names it as well; when there is nothing to
  -- do, the install root is as it was; and when it fails, at whatever step, the old or the new
  -- version is live.
  pub swap_bundle_ends :
      (v new : String) (root : InstallRoot)
      → new ≢ ""
      → v ≢ ""
      → IsLive v root
      → w.manifest_version v ≡ some v
      → w.release ≡ some new
      → After v new root (swap_bundle w root).0 (swap_bundle w root).1
  unfolding swap_bundle attempt read_manifest
  swap_bundle_ends v new root n vn h manifest release =
      let found = resolve_pointer-IsLive v root h in
      elim (Bool-cases (new == v)) [
        | inl same ↦ simp (found, manifest, release, same, swap_bundle) refl
        | inr other ↦
            let ne : v ≢ new = λ e. ground (arith, other, eq_iff new v, e) in
            elim (Bool-cases w.fetched) [
              | inr f ↦ simp (found, manifest, release, other, f, swap_bundle) (inl h)
              | inl f ↦
                  simp (found, manifest, release, other, f, swap_bundle)
                    (install-After v new root n vn ne h)
            ]
      ]
