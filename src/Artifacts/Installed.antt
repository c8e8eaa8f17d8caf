-- ===== src/Artifacts/Installed.antt =====
-- What is installed: src/link/infra/artifact_store.py, `ensure_engine` and `_atomic_swap`.
use locai_link.Base.{String, Bool, true, false, Option, none, some, ◌≡◌, ◌⊎◌}
use locai_link.Json.{Json}
use locai_link.Dict.{Dict}
use locai_link.Artifacts.{Result, ok, err, Error, Variant}
use locai_link.Artifacts.Fetch.{Bytes, is_text}
use locai_link.Artifacts.Engine.{
  Entry, Folder, Disk, Installer, extract, move_in_place, remove_archive, digest,
}

-- A folder that is made of an archive with the manifest's hash, whole, and marked with that hash.
abbrev pub IsMade : Installer → Variant → Option Folder → Type 0
IsMade w v f =
    (bytes : Bytes) × (archive : String) × (files : Dict Entry) × (is_text (w.artifacts.hash bytes)
        v.sha256
      ≡ true)
    × (extract w archive bytes ≡ ok files)
    × (f ≡ some (record { files = files; marker = some (digest v.sha256) }))

-- What may have become of the engine where the call fails: its folder is as it was; or the rename
-- that puts the new folder in place failed, and the earlier folder, which was put aside, is the
-- one beside it; or only the removal of the archive failed, and the new folder is in place.
abbrev pub Fails : Installer → Variant → Option Folder → Disk → Type 0
Fails w v before after =
    (after.engine ≡ before)
    ⊎ ((w.succeeds move_in_place ≡ false) × (after.engine ≡ none) × (after.old ≡ before))
    ⊎ ((w.succeeds remove_archive ≡ false) × IsMade w v after.engine)

-- Either a folder was made and is now the engine's, or the call failed.
abbrev pub Installs : Installer → Variant → Option Folder → Disk × Result Bool → Type 0
Installs w v before (after, r) =
    ((r ≡ ok true) × IsMade w v after.engine) ⊎ ((e : Error) × (r ≡ err e) × Fails w v before after)

-- What is claimed of the swap: the new folder is in place, or the earlier one is where it was or
-- aside.
abbrev Swaps : Bool → Option Folder → Folder → Disk × Bool → Type 0
Swaps in_place before made (after, done) =
    ((done ≡ true) × (after.engine ≡ some made))
    ⊎ ((done ≡ false)
        × ((after.engine ≡ before)
            ⊎ ((in_place ≡ false) × (after.engine ≡ none) × (after.old ≡ before))))
