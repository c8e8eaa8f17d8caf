-- ===== src/Updater/Gc.antt =====
-- What the removal of old versions leaves: src/link/app/updater.py, `gc_old_versions`.
use locai_link.Base.{
  ℕ, String, Bool, true, false, some, List, [], ◌∷◌, ◌≡◌, ◌≢◌, refl, ap, arith, inl, inr, ◌⊎◌, ◌==◌,
  eq_iff, elem, leb, length, Bool-cases,
}
use locai_link.Updater.{
  InstallRoot, read_pointer_version, keepers, remaining, gc_old_versions, add_pinned, has_suffix,
}

keepers-full :
    (keep : ℕ) (kept vs : List String) → leb keep (length kept) ≡ true → keepers keep kept vs ≡ kept
unfolding keepers
keepers-full keep kept [] h = refl
keepers-full keep kept (v ∷ vs) h = ground (arith, h, keepers-full keep kept vs h)

remaining-only :
    (removes : String → Bool) (kept vs : List String) (k : String)
    → removes k ≡ true
    → has_suffix ".tmp" k ≡ false
    → elem k kept ≡ false
    → elem k (remaining removes kept vs) ≡ false
unfolding remaining
remaining-only removes kept [] k r s n = refl
remaining-only removes kept (v ∷ vs) k r s n = elim (Bool-cases (v == k)) [
  | inl same ↦
      let e = (eq_iff v k).0 same in
      ground (
        arith,
        remaining-only removes kept vs k r s n,
        e,
        ap removes e,
        ap (has_suffix ".tmp") e,
        ap (λ x. elem x kept) e,
        r,
        s,
        n,
      )
  | inr other ↦ ground (arith, remaining-only removes kept vs k r s n, other)
]

pinned_two :
    (a b : String)
    → a ≢ ""
    → b ≢ ""
    → a ≢ b
    → add_pinned (some b) (add_pinned (some a) []) ≡ b ∷ a ∷ []
unfolding add_pinned
pinned_two a b an bn ne = ground (arith, an, bn, ne, eq_iff a "", eq_iff b "", eq_iff a b)

-- Where `current` and `previous` name two versions, the removal with the default bound of two
-- leaves, of the versions that can be removed and are not staging folders, only these two.
pub gc_old_versions_only :
    (removes : String → Bool) (root : InstallRoot) (a b k : String)
    → a ≢ ""
    → b ≢ ""
    → a ≢ b
    → read_pointer_version root.current ≡ some a
    → read_pointer_version root.previous ≡ some b
    → removes k ≡ true
    → has_suffix ".tmp" k ≡ false
    → elem k (gc_old_versions removes 2 root).versions ≡ true
    → (k ≡ a) ⊎ (k ≡ b)
unfolding gc_old_versions
gc_old_versions_only removes root a b k an bn ne current previous r s h =
    let two = b ∷ a ∷ [] in
    let kept : keepers 2 two root.versions ≡ two = keepers-full 2 two root.versions refl in
    let left = rw (current, previous, pinned_two a b an bn ne, kept) at h in
    elim (Bool-cases (elem k two)) [
      | inl known ↦ ground (arith, known, eq_iff b k, eq_iff a k)
      | inr unknown ↦ ground (arith, left, remaining-only removes two root.versions k r s unknown)
    ]
