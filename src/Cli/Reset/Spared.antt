-- ===== src/Cli/Reset/Spared.antt =====
-- Which files a reset leaves: src/link/main.py, `reset`.
use locai_link.Base.{
  String, Bool, true, false, not, ◌&&◌, ◌||◌, Option, none, some, List, [], ◌∷◌, ◌++◌, ◌≡◌, ◌⊎◌,
  inl, inr, refl, ap, All, Bool-cases, ◌==◌, eq_iff, arith, if-cases,
}
use locai_link.Cli.Reset.{
  Entries, end, file, link, dir, FilePath, Disk, is_excluded, is_target_dir, is_target_file,
  is_gone, walk, Pyproject, missing, unreadable, project, Candidate, is_repo, find_link_repo_root,
  ResetResult, refused, done, reset, reset_root,
}

-- Is there a file at these names, from the root down?
abbrev pub has_file : List String → Entries → Bool
has_file [] t = false
has_file (m ∷ q) end = false
has_file (m ∷ []) (file n rest) = n == m || has_file (m ∷ []) rest
has_file (m ∷ k ∷ q) (file n rest) = has_file (m ∷ k ∷ q) rest
has_file (m ∷ q) (link n rest) = has_file (m ∷ q) rest
has_file (m ∷ []) (dir n inner rest) = has_file (m ∷ []) rest
has_file (m ∷ k ∷ q) (dir n inner rest) =
    (n == m && has_file (k ∷ q) inner) || has_file (m ∷ k ∷ q) rest

-- The first of its directories that is excluded or to be removed, if any, is an excluded one; and
-- without one, the file is none to be removed.
abbrev pub is_spared : Bool → List String → Bool
is_spared hard [] = true
is_spared hard (n ∷ []) = not (is_target_file hard n)
is_spared hard (n ∷ k ∷ q) = is_excluded n || (not (is_target_dir n) && is_spared hard (k ∷ q))

-- Removals that all succeed.
abbrev pub Works : Disk → Type 0
Works disk = (p : FilePath) → (disk.unlinks p ≡ true) × (disk.rmtrees p ≡ true)

same_name : (f : String → Bool) (n m : String) → (n == m) ≡ true → f n ≡ f m
same_name f n m h = ap f ((eq_iff n m).0 h)

here_or :
    (b : Bool) {x x' y y' : Bool}
    → (b ≡ true → x ≡ x')
    → y ≡ y'
    → ((b && x) || y) ≡ ((b && x') || y')
here_or true h e = ground (arith, h refl, e)
here_or false h e = e

elsewhere : (b x : Bool) {y y' : Bool} → b ≡ false → y ≡ y' → y ≡ ((b && x) || y')
elsewhere true x h e = absurd cc
elsewhere false x h e = e

not_both : {b : Bool} → b ≡ true → b ≡ false → ⊥
not_both h k = cc

module _ (disk : Disk) (hard : Bool) where
  -- A spared path whose first directory is to be walked is spared below it.
  spared_below :
      (n m k : String) (q : List String)
      → (n == m) ≡ true
      → is_excluded n ≡ false
      → is_spared hard (m ∷ k ∷ q) ≡ true
      → is_spared hard (k ∷ q) ≡ true
  spared_below n m k q e x h = ground (arith, h, x, same_name is_excluded n m e)

  other_name :
      (n m k : String) (q : List String)
      → is_excluded n ≡ false
      → not (is_target_dir n) ≡ false
      → is_spared hard (m ∷ k ∷ q) ≡ true
      → (n == m) ≡ false
  other_name n m k q x t h =
      ground (arith, h, x, t, same_name is_excluded n m, same_name is_target_dir n m)

  walk_keeps :
      (q : List String) (t : Entries) (p : FilePath)
      → is_spared hard q ≡ true
      → has_file q (walk disk hard false p t) ≡ has_file q t
  unfolding walk is_gone
  walk_keeps [] t p h = refl
  walk_keeps (m ∷ q) end p h = refl
  walk_keeps (m ∷ []) (file n rest) p h =
      ground (arith, h, walk_keeps (m ∷ []) rest p h, same_name (is_target_file hard) n m)
  walk_keeps (m ∷ k ∷ q) (file n rest) p h = ground (arith, walk_keeps (m ∷ k ∷ q) rest p h)
  walk_keeps (m ∷ q) (link n rest) p h = walk_keeps (m ∷ q) rest p h
  walk_keeps (m ∷ []) (dir n inner rest) p h = ground (arith, walk_keeps (m ∷ []) rest p h)
  walk_keeps (m ∷ k ∷ q) (dir n inner rest) p h =
      let ih = walk_keeps (m ∷ k ∷ q) rest p h in
      let Kept = λ (t : Entries).
        has_file (m ∷ k ∷ q) t
        ≡ ((n == m && has_file (k ∷ q) inner) || has_file (m ∷ k ∷ q) rest) in
      if-cases Kept (is_excluded n) (λ x. here_or (n == m) (λ e. refl) ih)
        (λ nx.
          if-cases Kept (not (is_target_dir n))
            (λ nt.
              here_or (n == m) (λ e. walk_keeps (k ∷ q) inner (n ∷ p) (spared_below n m k q e nx h))
                ih)
            (λ nt.
              if-cases Kept (disk.rmtrees (n ∷ p))
                (λ r. elsewhere (n == m) _ (other_name n m k q nx nt h) ih)
                (λ r. here_or (n == m) (λ e. absurd (not_both e (other_name n m k q nx nt h))) ih)))

  walk_removes :
      (q : List String) (t : Entries) (p : FilePath)
      → Works disk
      → is_spared hard q ≡ false
      → has_file q (walk disk hard false p t) ≡ false
  unfolding walk is_gone
  walk_removes [] t p works h = refl
  walk_removes (m ∷ q) end p works h = refl
  walk_removes (m ∷ []) (file n rest) p works h = ground (
    arith,
    h,
    works (n ∷ p),
    walk_removes (m ∷ []) rest p works h,
    same_name (is_target_file hard) n m,
  )
  walk_removes (m ∷ k ∷ q) (file n rest) p works h =
      ground (arith, walk_removes (m ∷ k ∷ q) rest p works h)
  walk_removes (m ∷ q) (link n rest) p works h = walk_removes (m ∷ q) rest p works h
  walk_removes (m ∷ []) (dir n inner rest) p works h =
      ground (arith, works (n ∷ p), walk_removes (m ∷ []) rest p works h)
  walk_removes (m ∷ k ∷ q) (dir n inner rest) p works h = ground (
    arith,
    h,
    works (n ∷ p),
    walk_removes (m ∷ k ∷ q) rest p works h,
    walk_removes (k ∷ q) inner (n ∷ p) works,
    same_name is_excluded n m,
    same_name is_target_dir n m,
  )

-- The directory has the project's file, with its name or with its sources beside it.
abbrev pub Names : Pyproject → Bool → Type 0
Names missing src = ⊥
Names unreadable src = ⊥
Names (project none) src = src ≡ true
Names (project (some n)) src = (n ≡ "locai-link") ⊎ (src ≡ true)

abbrev pub IsRoot : Candidate → Type 0
IsRoot c = Names c.pyproject c.has_src_link

-- The path of the first root of a list, before which there is none.
abbrev pub FirstRoot : List Candidate → String → Type 0
FirstRoot cs r =
    (before : List Candidate) × (c : Candidate) × (after : List Candidate) × (cs
      ≡ before ++ c ∷ after)
    × All (λ d. ¬ IsRoot d) before
    × IsRoot c
    × (c.path ≡ r)

abbrev Finds : List Candidate → Option String → Type 0
Finds cs none = All (λ c. ¬ IsRoot c) cs
Finds cs (some r) = FirstRoot cs r

is_repo-Names :
    (p : Pyproject) (src : Bool)
    → (is_repo p src ≡ true → Names p src) × (is_repo p src ≡ false → ¬ Names p src)
unfolding is_repo
is_repo-Names missing src = (λ h. absurd cc, λ h k. k)
is_repo-Names unreadable src = (λ h. absurd cc, λ h k. k)
is_repo-Names (project none) src = (λ h. h, λ h k. not_both k h)
is_repo-Names (project (some n)) src = elim (Bool-cases (n == "locai-link")) [
  | inl e ↦ (λ h. inl ((eq_iff n "locai-link").0 e), λ h. absurd (ground (arith, h, e)))
  | inr e ↦ (
    λ h. inr (ground (arith, h, e)),
    λ h k. elim k [
      | inl same ↦ not_both ((eq_iff n "locai-link").1 same) e
      | inr src_true ↦ ground (arith, h, e, src_true)
    ],
  )
]

Finds-later :
    (c : Candidate) (cs : List Candidate) (o : Option String)
    → ¬ IsRoot c
    → Finds cs o
    → Finds (c ∷ cs) o
Finds-later c cs none n f = (n, f)
Finds-later c cs (some r) n (before, d, after, e, none_before, root, path) =
    (c ∷ before, d, after, ap (◌∷◌ c) e, (n, none_before), root, path)

find_link_repo_root-Finds : (cs : List Candidate) → Finds cs (find_link_repo_root cs)
unfolding find_link_repo_root
find_link_repo_root-Finds [] = tt
find_link_repo_root-Finds (c ∷ cs) =
    let (yes_root, no_root) = is_repo-Names c.pyproject c.has_src_link in
    if-cases (Finds (c ∷ cs)) (is_repo c.pyproject c.has_src_link)
      (λ h. ([], c, cs, refl, tt, yes_root h, refl))
      (λ h. Finds-later c cs _ (no_root h) (find_link_repo_root-Finds cs))

module _ (disk : String → Disk) (tree : String → Entries) where
  -- What is claimed of a reset among these directories.
  abbrev pub Resets : Bool → List Candidate → ResetResult → Type 0
  Resets hard cs refused = All (λ c. ¬ IsRoot c) cs
  Resets hard cs (done r left) =
      FirstRoot cs r
      × ((q : List String) → is_spared hard q ≡ true → has_file q left ≡ has_file q (tree r))
      × (Works (disk r) → (q : List String) → is_spared hard q ≡ false → has_file q left ≡ false)

  reset_root-Resets :
      (hard : Bool) (cs : List Candidate) (root : Option String)
      → Finds cs root
      → Resets hard cs (reset_root disk tree hard root)
  unfolding reset_root
  reset_root-Resets hard cs none f = f
  reset_root-Resets hard cs (some r) f = (
    f,
    λ q h. walk_keeps (disk r) hard q (tree r) [] h,
    λ works q h. walk_removes (disk r) hard q (tree r) [] works h,
  )

  -- A directory is a repository's root if it has a `pyproject.toml` that can be read and that
  -- names the project locai-link, or beside which there is `src/link`. A reset is refused where
  -- no directory at or above is such a root; else it goes through the first one that is, from the
  -- working directory up. There, however removals end, a file is left as it was if it is spared,
  -- that is, if the first directory on its path that is excluded or to be removed is an excluded
  -- one, or there is none and the file itself is not to be removed; and where removals all
  -- succeed, no other file is left.
  pub reset-Resets :
      (candidates : List Candidate) (hard : Bool)
      → Resets hard candidates (reset disk tree candidates hard)
  unfolding reset
  reset-Resets candidates hard =
      reset_root-Resets hard candidates (find_link_repo_root candidates)
        (find_link_repo_root-Finds candidates)
