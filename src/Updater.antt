-- ===== src/Updater.antt =====
-- src/link/app/updater.py: the install root with its `current` and `previous` pointers, the flip of
-- the pointers, the removal of old versions, and the update of the bundle. A link is one that
-- this program or the installer wrote, to `versions/<v>`; the text of a pointer file stands here
-- without the blanks around it, which every reader strips.
pub mod Live
pub mod Gc
pub mod Guarded
pub mod Download
pub mod Verify
pub mod Releases
use locai_link.Base.{
  ℕ, String, Bool, true, false, not, ◌&&◌, ◌||◌, Option, none, some, is_some, List, [], ◌∷◌, ◌==◌,
  elem, length, leb, without, if◌then◌else◌,
}

-- A pointer: a symbolic link, a pointer file, or both when one is left from another shape.
pub record Pointer : Type 0 where
  pub link : Option String
  pub file : Option String

-- `versions` names the folders of `versions/`, newest first; `update_pending` is the version that
-- the stamp of the launcher names.
pub record InstallRoot : Type 0 where
  pub current : Pointer
  pub previous : Pointer
  pub versions : List String
  pub update_pending : Option String

-- How a write of a pointer ends: done, with nothing replaced, or with the other shape left over.
pub data Write : Type 0 where
  replaced refused stale_kept : Write

-- target.is_dir()
existing : List String → Option String → Option String
existing versions none = none
existing versions (some v) = if elem v versions then some v else none

-- `_resolve_pointer`
unfoldable pub resolve_pointer : List String → Pointer → Option String
unfolding existing
resolve_pointer versions p = elim (existing versions p.link) [
  | some v ↦ some v
  | none ↦ existing versions p.file
]

or_none : Option String → Option String
or_none none = none
or_none (some v) = if v == "" then none else some v

-- `_read_pointer_version`
unfoldable pub read_pointer_version : Pointer → Option String
unfolding or_none
read_pointer_version p = elim p.link [ some v ↦ some v | none ↦ or_none p.file ]

-- `_install_uses_symlink`; `posix` is `sys.platform != "win32"`.
unfoldable pub install_uses_symlink : Bool → InstallRoot → Bool
install_uses_symlink posix root =
    if is_some root.current.link then true else if is_some root.current.file then false else posix

write_symlink : Write → String → Pointer → Pointer × Bool
write_symlink replaced v p = (record { link = some v; file = none }, true)
write_symlink refused v p = (p, false)
write_symlink stale_kept v p = (record p { link = some v }, not (is_some p.file))

write_pointer_file : Write → String → Pointer → Pointer × Bool
write_pointer_file replaced v p = (record { link = none; file = some v }, true)
write_pointer_file refused v p = (p, false)
write_pointer_file stale_kept v p = (record p { file = some v }, not (is_some p.link))

-- `_write_pointer`; `false` if it raises.
unfoldable pub write_pointer : Write → String → Bool → Pointer → Pointer × Bool
unfolding write_symlink write_pointer_file
write_pointer o v use_symlink p =
    if use_symlink then write_symlink o v p else write_pointer_file o v p

demote : Write → Option String → String → Bool → InstallRoot → InstallRoot × Bool
demote o none new_version use_symlink root = (root, true)
demote o (some old) new_version use_symlink root =
    let (p, ok) = write_pointer o old use_symlink root.previous in
    if old == "" || old == new_version then (root, true) else (record root { previous = p }, ok)

-- The outcomes of one update: what the manifest of a version says, what the release lookup finds,
-- whether the stages before the install root is touched succeed, and how each later step ends.
pub record World : Type 0 where
  pub manifest_version : String → Option String
  pub release : Option String
  pub fetched : Bool
  pub cleared : Bool
  pub placed : Bool
  pub signed : Bool
  pub healthy : Bool
  pub discarded : Bool
  pub current_write : Write
  pub previous_write : Write
  pub stamped : Bool
  pub removes : String → Bool
  pub posix : Bool

pub data SwapResult : Type 0 where
  updated up_to_date failed : SwapResult

unfoldable pub has_suffix : String → String → Bool
has_suffix t String.[] = t == ""
has_suffix t (String.◌∷◌ c s) = (String.◌∷◌ c s) == t || has_suffix t s

-- The set of the names that are not empty.
add_pinned : Option String → List String → List String
add_pinned none vs = vs
add_pinned (some v) vs = if v == "" || elem v vs then vs else v ∷ vs

-- The loop over the candidates, newest first, until `keep` are kept.
unfoldable pub keepers : ℕ → List String → List String → List String
unfolding has_suffix
keepers keep kept [] = kept
keepers keep kept (v ∷ vs) =
    let skipped = keepers keep kept vs in
    let added = keepers keep (if elem v kept then kept else v ∷ kept) vs in
    if has_suffix ".tmp" v then skipped else if leb keep (length kept) then kept else added

unfoldable pub remaining : (String → Bool) → List String → List String → List String
unfolding has_suffix
remaining removes kept [] = []
remaining removes kept (v ∷ vs) =
    let rest = remaining removes kept vs in
    if has_suffix ".tmp" v || elem v kept then v ∷ rest else if removes v then rest else v ∷ rest

unfoldable pub gc_old_versions : (String → Bool) → ℕ → InstallRoot → InstallRoot
unfolding add_pinned
gc_old_versions removes keep root =
    let pinned =
      add_pinned (read_pointer_version root.previous)
        (add_pinned (read_pointer_version root.current) []) in
    record root { versions = remaining removes (keepers keep pinned root.versions) root.versions }

module _ (w : World) where
  -- `flip_current`; `false` if it raises.
  unfoldable pub flip_current : String → InstallRoot → InstallRoot × Bool
  unfolding demote
  flip_current new_version root =
      let use_symlink = install_uses_symlink w.posix root in
      let old = read_pointer_version root.current in
      let (p, ok) = write_pointer w.current_write new_version use_symlink root.current in
      let flipped = record root { current = p } in
      if not (elem new_version root.versions)
      then (root, false)
      else if not ok
      then (flipped, false)
      else demote w.previous_write old new_version use_symlink flipped

  -- What follows the health check.
  unfoldable pub activate_version : String → String → InstallRoot → InstallRoot × SwapResult
  activate_version manifest_version new root =
      let (flipped, ok) = flip_current new root in
      if not ok then (flipped, failed) else if not w.stamped then (flipped, failed) else (
        gc_old_versions w.removes 2 (record flipped { update_pending = some manifest_version }),
        updated,
      )

  -- The new version is put in place and checked.
  unfoldable pub install : String → String → InstallRoot → InstallRoot × SwapResult
  install manifest_version new root =
      let emptied = record root { versions = without new root.versions } in
      let filled = record root { versions = new ∷ without new root.versions } in
      if elem new root.versions && not w.cleared
      then (root, failed)
      else if not w.placed
      then (emptied, failed)
      else if not w.signed
      then (filled, failed)
      else if not w.healthy
      then (if w.discarded then emptied else filled, failed)
      else activate_version manifest_version new filled

  attempt : Option String → Option String → InstallRoot → InstallRoot × SwapResult
  attempt none release root = (root, failed)
  attempt (some version) none root = (root, failed)
  attempt (some version) (some new) root =
      if new == version
      then (root, up_to_date)
      else if not w.fetched
      then (root, failed)
      else install version new root

  unfoldable pub read_manifest : Option String → Option String
  read_manifest none = none
  read_manifest (some v) = w.manifest_version v

  -- `failed` if it raises. What is done to the UI apps never is.
  unfoldable pub swap_bundle : InstallRoot → InstallRoot × SwapResult
  unfolding attempt read_manifest
  swap_bundle root =
      attempt (read_manifest (resolve_pointer root.versions root.current)) w.release root
