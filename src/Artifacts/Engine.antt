-- ===== src/Artifacts/Engine.antt =====
-- src/link/infra/artifact_store.py: `_extract`, `_atomic_swap` and `ensure_engine`.
use locai_link.Base.{
  String, Bool, true, false, not, ◌||◌, Option, none, some, List, [], ◌∷◌, if◌then◌else◌,
}
use locai_link.Json.{Json}
use locai_link.Dict.{Dict, lookup, insert, erase, has}
use locai_link.Updater.{has_suffix}
use locai_link.Artifacts.{
  Result, ok, err, store_error, other_error, Device, Variant, resolve_version, variant, ◌>>=◌,
}
use locai_link.Artifacts.Fetch.{Bytes, Store, is_text, fetch_variant}

pub data Entry : Type 0 where
  file : Bytes → Entry
  link : String → Entry

-- The files of a folder but for the marker `.artifact-sha256`, and what the marker says. An
-- archive with a member of that name is not modelled.
pub record Folder : Type 0 where
  pub files : Dict Entry
  pub marker : Option String

-- A member of an archive: a file, a symbolic link with its target, a folder or anything else.
pub data ArchiveItem : Type 0 where
  regular : String → Bytes → ArchiveItem
  symlink : String → String → ArchiveItem
  skipped : ArchiveItem

-- The engine's folder, the folders beside it and the folder of downloads.
pub record Disk : Type 0 where
  pub engine : Option Folder
  pub staging : Option Folder
  pub old : Option Folder
  pub cache : Dict Bytes

-- The steps of an installation that may raise: the marker is written, the folder that is there is
-- put aside, the new one is put in its place, the archive is removed.
pub data InstallStep : Type 0 where
  write_marker move_aside move_in_place remove_archive : InstallStep

-- What an archive library reads from an archive, or `none` where it raises; a text in lower case;
-- a text without white space at its ends; and what other processes do to the disk while this one
-- waits for the lock; and which steps of the file system succeed.
pub record Installer : Type 0 where
  pub artifacts : Store
  pub tar_members : Bytes → Option (List ArchiveItem)
  pub zip_members : Bytes → Option (List ArchiveItem)
  pub lower : String → String
  pub strip : String → String
  pub waited : Disk → Disk
  pub succeeds : InstallStep → Bool

module _ (w : Installer) where
  unfoldable pub write_files : List ArchiveItem → Dict Entry → Dict Entry
  write_files [] d = d
  write_files (regular name bytes ∷ ms) d =
      write_files ms (insert (w.artifacts.file_name name) (file bytes) d)
  write_files (symlink name target ∷ ms) d = write_files ms d
  write_files (skipped ∷ ms) d = write_files ms d

  -- A link is made where its name is free.
  unfoldable pub write_links : List ArchiveItem → Dict Entry → Dict Entry
  write_links [] d = d
  write_links (symlink name target ∷ ms) d =
      let here = w.artifacts.file_name name in
      write_links ms (if has here d then d else insert here (link (w.artifacts.file_name target)) d)
  write_links (regular name bytes ∷ ms) d = write_links ms d
  write_links (skipped ∷ ms) d = write_links ms d

  -- `_extract`, into a folder that was just removed.
  unfoldable pub extract : String → Bytes → Result (Dict Entry)
  unfolding write_files write_links
  extract archive bytes =
      let name = w.lower archive in
      if has_suffix ".tar.gz" name || has_suffix ".tgz" name
      then elim (w.tar_members bytes) [
        | none ↦ err other_error
        | some ms ↦ ok (write_links ms (write_files ms []))
      ]
      else if has_suffix ".zip" name
      then elim (w.zip_members bytes) [ none ↦ err other_error | some ms ↦ ok (write_files ms []) ]
      else err store_error

-- The renames of `_atomic_swap`, one by one.
unfoldable pub drop_old : Disk → Disk
drop_old d = record d { old = none }

unfoldable pub put_aside : Disk → Disk
put_aside d = elim d.engine [ none ↦ d | some f ↦ record d { engine = none; old = some f } ]

unfoldable pub put_in_place : Disk → Disk
put_in_place d = elim d.staging [ none ↦ d | some f ↦ record d { engine = some f; staging = none } ]

-- The second rename, and the removal of what the first one put aside.
unfoldable pub finish_swap : Bool → Disk → Disk × Bool
unfolding drop_old put_in_place
finish_swap true d = (drop_old (put_in_place d), true)
finish_swap false d = (d, false)

-- What follows once the old folder is removed: the first rename, if there is a folder, and the
-- rest.
unfoldable pub start_swap : Bool → Bool → Disk → Disk × Bool
unfolding put_aside finish_swap
start_swap aside in_place d = elim d.engine [
  | none ↦ finish_swap in_place d
  | some f ↦ if aside then finish_swap in_place (put_aside d) else (d, false)
]

-- `_atomic_swap`, and whether it returns; each of its two renames may raise.
unfoldable pub atomic_swap : Bool → Bool → Disk → Disk × Bool
unfolding drop_old start_swap
atomic_swap aside in_place d = start_swap aside in_place (drop_old d)

-- The hash of the manifest, which is a text once an archive was verified against it.
abbrev pub digest : Json → String
digest (Json.text s) = s
digest _ = ""

module _ (w : Installer) where
  -- `_installed`
  unfoldable pub installed : Variant → Option Folder → Bool
  installed v none = false
  installed v (some f) = elim f.marker [
    | none ↦ false
    | some text ↦ is_text (w.strip text) v.sha256
  ]

  -- What follows the swap: the archive is removed.
  unfoldable pub after_swap : String → Disk × Bool → Disk × Result Bool
  after_swap archive (d, false) = (d, err other_error)
  after_swap archive (d, true) =
      if w.succeeds remove_archive
      then (record d { cache = erase archive d.cache }, ok true)
      else (d, err other_error)

  -- What follows the extraction into the staging folder.
  unfoldable pub place : Variant → String → Disk → Result (Dict Entry) → Disk × Result Bool
  unfolding after_swap
  place v archive d (err e) =
      (record d { staging = some (record { files = []; marker = none }) }, err e)
  place v archive d (ok files) =
      let made : Folder = record { files = files; marker = some (digest v.sha256) } in
      let unmarked : Folder = record { files = files; marker = none } in
      if not (w.succeeds write_marker)
      then (record d { staging = some unmarked }, err other_error)
      else after_swap archive (
          atomic_swap (w.succeeds move_aside) (w.succeeds move_in_place)
            (record d { staging = some made }))

  unfoldable pub open_archive : Variant → String → Disk → Option Bytes → Disk × Result Bool
  open_archive v archive d none = (d, err other_error)
  open_archive v archive d (some bytes) = place v archive d (extract w archive bytes)

  -- What follows the download.
  unfoldable pub after_fetch : Variant → Disk → Result String → Disk × Result Bool
  after_fetch v d (err e) = (d, err e)
  after_fetch v d (ok archive) = open_archive v archive d (lookup archive d.cache)

  -- The body of the lock, where the engine is not there yet.
  unfoldable pub install_engine : Variant → Disk → Disk × Result Bool
  unfolding after_fetch open_archive place
  install_engine v d =
      let got = fetch_variant w.artifacts v d.cache in
      after_fetch v (record d { cache = got.files }) got.run.result

  unfoldable pub ensure_variant : Variant → Disk → Disk × Result Bool
  ensure_variant v d =
      if installed v d.engine
      then (d, ok false)
      else let d' = w.waited d in
        if installed v d'.engine then (d', ok false) else install_engine v d'

  -- `ensure_engine`, with a manifest that is at hand; on success the result tells whether this
  -- call installed the engine.
  unfoldable pub ensure_engine :
      Device → Json → String → Option String → Option String → Disk → Disk × Result Bool
  ensure_engine device root name version arch d =
      elim (do
        v ← resolve_version w.artifacts.value root "engines" name version
        variant w.artifacts.value device root "engines" name (some v) arch) [
          | err e ↦ (d, err e)
          | ok v ↦ ensure_variant v d
        ]
