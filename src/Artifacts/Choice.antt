-- ===== src/Artifacts/Choice.antt =====
-- Which entry of the manifest a device takes: src/link/infra/artifact_store.py,
-- `Manifest.variant`, `variant_candidates` and `accel_suffixes`.
use Prim.Native.String.{◌++◌ as ◌+++◌}
use Prim.Native.String.append.{cons}
use mathlib.Core.List.{map-append}
use locai_link.Base.{
  ℕ, String, Bool, true, false, Option, none, some, List, [], ◌∷◌, ◌++◌, map, All, ◌≡◌, ◌≢◌, refl,
  ap, ◌∙◌, arith, inl, inr, ◌==◌, eq_iff, Bool-cases, Option-cases, eqb, leb, if◌then◌else◌,
}
use locai_link.Json.{Json}
use locai_link.Artifacts.{
  Device, ok, accel_suffixes, cuda_suffix, cuda_major, has_gpu, platform_arch, variant_candidates,
  walk, read_entry, first_present, resolve_version, candidates, variant,
}

append-empty : (s : String) → s +++ "" ≡ s
append-empty String.[] = refl
append-empty (String.◌∷◌ c s) = cons c s "" ∙ ap (String.◌∷◌ c) (append-empty s)

-- The list ends with `x`.
abbrev EndsWith : String → List String → Type 0
EndsWith x xs = (rest : List String) × (xs ≡ rest ++ x ∷ [])

cuda_suffix-EndsWith :
    (n : Option ℕ) (x : String) (xs : List String) → EndsWith x xs → EndsWith x (cuda_suffix n xs)
unfolding cuda_suffix
cuda_suffix-EndsWith none x xs h = h
cuda_suffix-EndsWith (some n) x xs (rest, e) = elim (Bool-cases (eqb n 0)) [
  | inl zero_version ↦ rw (zero_version) (rest, e)
  | inr other ↦ rw (other) (
    (if leb 13 n then "-cuda-13.3" else "-cuda-12.4") ∷ rest,
    ap (λ ys. (if leb 13 n then "-cuda-13.3" else "-cuda-12.4") ∷ ys) e,
  )
]

if-EndsWith :
    (b : Bool) (x : String) (xs ys : List String)
    → EndsWith x xs
    → EndsWith x ys
    → EndsWith x (if b then xs else ys)
if-EndsWith true x xs ys h k = h
if-EndsWith false x xs ys h k = k

-- The portable baseline is always the last resort.
accel_suffixes-EndsWith : (d : Device) → EndsWith "" (accel_suffixes d)
unfolding accel_suffixes
accel_suffixes-EndsWith d =
    let one : EndsWith "" ("" ∷ []) = ([], refl) in
    let two : EndsWith "" ("-vulkan" ∷ "" ∷ []) = ("-vulkan" ∷ [], refl) in
    let vulkan = if-EndsWith (has_gpu d) "" _ _ two one in
    if-EndsWith _ "" _ _ one (
      if-EndsWith _ "" _ _ (cuda_suffix-EndsWith (cuda_major d) "" _ vulkan)
        (if-EndsWith _ "" _ _ vulkan one))

-- A candidate that is tried, after others that the manifest does not have.
abbrev pub FirstOf : (String → Option Json) → List String → String → Json → Type 0
FirstOf entry cs c rec =
    (before : List String) × (after : List String) × (cs ≡ before ++ c ∷ after)
    × All (λ b. entry b ≡ none) before
    × (entry c ≡ some rec)

module _ (value : String → Option ℕ) (entry : String → Option Json) where
  first_present-found :
      (pre : List String) (x : String) (r : Json)
      → entry x ≡ some r
      → (c : String) × (rec : Json) × FirstOf entry (pre ++ x ∷ []) c rec
        × (first_present value entry (pre ++ x ∷ []) ≡ read_entry value rec)
  unfolding first_present
  first_present-found [] x r h = (x, r, ([], [], refl, tt, h), rw (h) refl)
  first_present-found (p ∷ pre) x r h = elim (Option-cases (entry p)) [
    | inr (rec, here) ↦ (p, rec, ([], pre ++ x ∷ [], refl, tt, here), rw (here) refl)
    | inl missing ↦
        let (c, rec, (before, after, e, earlier, found), same) = first_present-found pre x r h in
        (c, rec, (p ∷ before, after, ap (◌∷◌ p) e, (missing, earlier), found), rw (missing) same)
  ]

map-EndsWith :
    (f : String → String) (x : String) (xs : List String)
    → EndsWith x xs
    → EndsWith (f x) (map f xs)
map-EndsWith f x xs (rest, e) = rw (e) (map f rest, map-append f rest (x ∷ []))

named_version : (v : String) → v ≢ "" → (v == "") ≡ false
named_version v named = ground (arith, named, eq_iff v "")

-- A device of a known platform, for a version whose portable build is in the manifest, takes the
-- first of its candidates that the manifest has: it never fails for want of a variant.
pub variant-FirstOf :
    (value : String → Option ℕ) (d : Device) (root : Json) (capability name version base : String)
    (r : Json)
    → version ≢ ""
    → platform_arch d ≡ ok base
    → walk (capability ∷ name ∷ version ∷ base ∷ []) root ≡ some r
    → (cs : List String) × (c : String) × (rec : Json) × (variant_candidates d ≡ ok cs)
      × FirstOf (λ k. walk (capability ∷ name ∷ version ∷ k ∷ []) root) cs c rec
      × (variant value d root capability name (some version) none ≡ read_entry value rec)
unfolding variant resolve_version candidates variant_candidates
variant-FirstOf value d root capability name version base r named arch published =
    let whole = map-EndsWith (λ s. base +++ s) "" (accel_suffixes d) (accel_suffixes-EndsWith d) in
    let (pre, ends) : EndsWith base (map (λ s. base +++ s) (accel_suffixes d)) =
      rw (append-empty base) at whole in
    let (c, rec, first, same) =
      first_present-found value (λ k. walk (capability ∷ name ∷ version ∷ k ∷ []) root) pre base r
        published in
    (
      pre ++ base ∷ [],
      c,
      rec,
      rw (arch) (ap ok ends),
      first,
      rw (named_version version named, arch) (rw (ends) same),
    )
