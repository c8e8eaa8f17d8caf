-- ===== src/Cli/Reset.antt =====
-- src/link/main.py: `reset`, with the search for the repository's root in `_find_link_repo_root`.
-- File names are compared as on POSIX.
pub mod Spared
use locai_link.Base.{
  ℕ, zero, suc, ◌+◌, String, Bool, true, false, not, ◌&&◌, ◌||◌, Option, none, some, List, [], ◌∷◌,
  ◌==◌, elem, if◌then◌else◌,
}
use locai_link.Updater.{has_suffix}
use locai_link.Health.Requests.{after_prefix}

-- What a directory holds. `link` is a symbolic link to a directory; one to a file is a file.
pub data Entries : Type 0 where
  end : Entries
  file : String → Entries → Entries
  link : String → Entries → Entries
  dir : String → Entries → Entries → Entries

-- The names from a file up to the root.
abbrev pub FilePath : Type 0
FilePath = List String

-- How removals end: `unlink` and `rmtree` of a path return or raise, and where `rmtree` raised,
-- what is below it and is not gone survives.
pub record Disk : Type 0 where
  pub unlinks : FilePath → Bool
  pub rmtrees : FilePath → Bool
  pub survives : FilePath → Bool

abbrev exclude_dirs : List String
exclude_dirs = ".git" ∷ ".vscode" ∷ ".github" ∷ "docs" ∷ "node_modules" ∷ "target" ∷ []

abbrev target_dirs : List String
target_dirs =
    ".venv" ∷ ".zenoh" ∷ "__pycache__" ∷ "logs" ∷ "link_db" ∷ "dist" ∷ "build" ∷ ".pytest_cache"
    ∷ "site" ∷ ".benchmarks" ∷ ".ruff_cache" ∷ []

unfoldable pub is_excluded : String → Bool
is_excluded n = elem n exclude_dirs

unfoldable pub is_target_dir : String → Bool
is_target_dir n = elem n target_dirs

-- fnmatch(f, "session_*.json")
unfoldable pub is_session : String → Bool
unfolding has_suffix after_prefix
is_session n = elim (after_prefix "session_" n) [ none ↦ false | some t ↦ has_suffix ".json" t ]

unfoldable pub is_target_file : Bool → String → Bool
is_target_file hard n = n == "uv.lock" || n == ".coverage" || (hard && is_session n)

module _ (disk : Disk) where
  -- What an `rmtree` that raised has left.
  unfoldable pub survivors : FilePath → Entries → Entries
  survivors p end = end
  survivors p (file n rest) =
      let rest' = survivors p rest in if disk.survives (n ∷ p) then file n rest' else rest'
  survivors p (link n rest) =
      let rest' = survivors p rest in if disk.survives (n ∷ p) then link n rest' else rest'
  survivors p (dir n inner rest) =
      let rest' = survivors p rest in
      if disk.survives (n ∷ p) then dir n (survivors (n ∷ p) inner) rest' else rest'

  -- The entry is gone when the walk comes to it, since an `rmtree` above it got so far.
  unfoldable pub is_gone : Bool → FilePath → Bool
  is_gone broken p = broken && not (disk.survives p)

  -- The walk below `p`; `broken` says that an `rmtree` above has raised. `rmtree` of a link raises.
  unfoldable pub walk : Bool → Bool → FilePath → Entries → Entries
  unfolding is_gone
  walk hard broken p end = end
  walk hard broken p (file n rest) =
      let rest' = walk hard broken p rest in
      if is_gone broken (n ∷ p)
      then rest'
      else if is_target_file hard n && disk.unlinks (n ∷ p)
      then rest'
      else file n rest'
  walk hard broken p (link n rest) =
      let rest' = walk hard broken p rest in if is_gone broken (n ∷ p) then rest' else link n rest'
  walk hard broken p (dir n inner rest) =
      let rest' = walk hard broken p rest in
      let untouched = if broken then survivors (n ∷ p) inner else inner in
      let below = walk hard broken (n ∷ p) inner in
      let left = walk hard true (n ∷ p) inner in
      if is_gone broken (n ∷ p)
      then rest'
      else if is_excluded n
      then dir n untouched rest'
      else if not (is_target_dir n)
      then dir n below rest'
      else if disk.rmtrees (n ∷ p)
      then rest'
      else dir n left rest'

-- A directory at or above the working directory: its `pyproject.toml`, which may be missing or not
-- read, else has the name of the project, if it has one; and whether it has `src/link`.
pub data Pyproject : Type 0 where
  missing unreadable : Pyproject
  project : Option String → Pyproject

pub record Candidate : Type 0 where
  pub path : String
  pub pyproject : Pyproject
  pub has_src_link : Bool

unfoldable pub is_repo : Pyproject → Bool → Bool
is_repo missing src = false
is_repo unreadable src = false
is_repo (project none) src = src
is_repo (project (some n)) src = n == "locai-link" || src

unfoldable pub find_link_repo_root : List Candidate → Option String
unfolding is_repo
find_link_repo_root [] = none
find_link_repo_root (c ∷ cs) =
    let later = find_link_repo_root cs in
    if is_repo c.pyproject c.has_src_link then some c.path else later

-- How `reset` ends: it exits with status 1, or the tree of the root is left so.
pub data ResetResult : Type 0 where
  refused : ResetResult
  done : String → Entries → ResetResult

-- `disk` and `tree` are what the removals meet, and the files, below a root.
module _ (disk : String → Disk) (tree : String → Entries) where
  unfoldable pub reset_root : Bool → Option String → ResetResult
  reset_root hard none = refused
  reset_root hard (some root) = done root (walk (disk root) hard false [] (tree root))

  unfoldable pub reset : List Candidate → Bool → ResetResult
  unfolding reset_root
  reset candidates hard = reset_root hard (find_link_repo_root candidates)
