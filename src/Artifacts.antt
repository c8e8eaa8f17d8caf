-- ===== src/Artifacts.antt =====
-- src/link/infra/artifact_store.py: which artifact of the store a device takes. The child modules
-- fetch it and install it.
pub mod Fetch
pub mod Engine
pub mod Choice
pub mod Attempts
pub mod Verified
pub mod Installed
use Prim.Native.String.{◌++◌}
use text.Mathlib.Text.{starts_with}
use locai_link.Base.{
  ℕ, String, Bool, true, false, not, ◌&&◌, ◌||◌, Option, none, some, List, [], ◌∷◌, map, eqb, leb,
  if◌then◌else◌, ◌==◌, elem,
}
use locai_link.Json.{Json, Items, Fields, end, field}

-- The exceptions: four of the module, two of Python's, and what a request ends with.
pub data Error : Type 0 where
  store_error manifest_error variant_not_found verification_error : Error
  attribute_error type_error other_error network_error : Error
  http_error : ℕ → Error

pub data Result {ℓ} (A : Type ℓ) : Type ℓ where
  ok : A → Result A
  err : Error → Result A

infixl 5 ◌>>=◌
abbrev pub ◌>>=◌ {ℓ κ} : {A : Type ℓ} {B : Type κ} → Result A → (A → Result B) → Result B
ok a >>= f = f a
err e >>= f = err e

-- What the program asks its machine: `sys.platform`, `platform.machine().lower()`, the version
-- that each of the two commands prints (if it is there, runs and prints one), and which of the two
-- tools are on the path.
pub record Device : Type 0 where
  pub platform : String
  pub machine : String
  pub nvcc_release : Option ℕ
  pub smi_release : Option ℕ
  pub has_nvidia_smi : Bool
  pub has_rocm_smi : Bool

-- `sys.platform in ("win32", "cygwin")`
abbrev is_windows : Device → Bool
is_windows d = elem d.platform ("win32" ∷ "cygwin" ∷ [])

abbrev is_arm : Device → Bool
is_arm d = elem d.machine ("arm64" ∷ "aarch64" ∷ [])

unfoldable pub platform_name : Device → Result String
platform_name d =
    if starts_with d.platform "linux"
    then ok "linux"
    else if d.platform == "darwin"
    then ok "macos"
    else if is_windows d
    then ok "windows"
    else err store_error

unfoldable pub platform_arch : Device → Result String
unfolding platform_name
platform_arch d = do
  system ← platform_name d
  if elem d.machine ("x86_64" ∷ "amd64" ∷ "x64" ∷ [])
      then ok (system ++ ("-" ++ "x64"))
      else if is_arm d
      then ok (system ++ ("-" ++ "arm64"))
      else err store_error

unfoldable pub cuda_major : Device → Option ℕ
cuda_major d = elim d.nvcc_release [ some n ↦ some n | none ↦ d.smi_release ]

unfoldable pub has_gpu : Device → Bool
has_gpu d = d.has_nvidia_smi || d.has_rocm_smi

-- `if cu:`, which is false for 0 too
unfoldable pub cuda_suffix : Option ℕ → List String → List String
cuda_suffix none rest = rest
cuda_suffix (some n) rest =
    if eqb n 0 then rest else (if leb 13 n then "-cuda-13.3" else "-cuda-12.4") ∷ rest

unfoldable pub accel_suffixes : Device → List String
unfolding cuda_suffix has_gpu cuda_major
accel_suffixes d =
    let baseline = "" ∷ [] in
    let vulkan = if has_gpu d then "-vulkan" ∷ baseline else baseline in
    if d.platform == "darwin"
    then baseline
    else if is_windows d
    then cuda_suffix (cuda_major d) vulkan
    else if starts_with d.platform "linux" && not (is_arm d)
    then vulkan
    else baseline

unfoldable pub variant_candidates : Device → Result (List String)
variant_candidates d = do base ← platform_arch d; ok (map (λ s. base ++ s) (accel_suffixes d))

-- `fields.get(key)`
unfoldable pub get : String → Fields → Option Json
get k end = none
get k (field j v fs) = if j == k then some v else get k fs

-- `value[key]`, where `none` is the KeyError or the TypeError that the callers catch.
unfoldable pub subscript : String → Json → Option Json
subscript k (Json.obj fs) = get k fs
subscript k _ = none

-- `value[k1][k2]…`
unfoldable pub walk : List String → Json → Option Json
walk [] v = some v
walk (k ∷ ks) v = elim (subscript k v) [ none ↦ none | some u ↦ walk ks u ]

-- What an entry of the manifest says: where the artifact is, its hash and, unless it is null, its
-- size. They are the values of the manifest, whose types nothing checks.
pub record Variant : Type 0 where
  pub path : Json
  pub sha256 : Json
  pub size : Json

abbrev or_null : Option Json → Json
or_null none = Json.null
or_null (some v) = v

-- `value` gives the natural number that equals a decimal number with this text, if one does.
module _ (value : String → Option ℕ) where
  abbrev equals : Option ℕ → ℕ → Bool
  equals none n = false
  equals (some m) n = eqb m n

  -- `bool(v)`
  unfoldable pub is_truthy : Json → Bool
  is_truthy Json.null = false
  is_truthy (Json.bool b) = b
  is_truthy (Json.number n) = not (eqb n 0)
  is_truthy (Json.decimal s) = not (equals (value s) 0)
  is_truthy (Json.text s) = not (s == "")
  is_truthy (Json.arr Items.nil) = false
  is_truthy (Json.arr (Items.cons v vs)) = true
  is_truthy (Json.obj end) = false
  is_truthy (Json.obj (field k v fs)) = true

  -- `v == n`, where True is 1 and False is 0
  unfoldable pub is_number : Json → ℕ → Bool
  is_number (Json.number m) n = eqb m n
  is_number (Json.bool true) n = eqb 1 n
  is_number (Json.bool false) n = eqb 0 n
  is_number (Json.decimal s) n = equals (value s) n
  is_number _ n = false

  -- The constructor of `Manifest`: the data that is kept.
  unfoldable pub manifest : Json → Result Json
  manifest (Json.obj fs) =
      if is_number (or_null (get "schema" fs)) 1 then ok (Json.obj fs) else err manifest_error
  manifest _ = err attribute_error

  unfoldable pub read_entry : Json → Result Variant
  read_entry (Json.obj fs) =
      let path = or_null (get "path" fs) in
      let sha = or_null (get "sha256" fs) in
      if not (is_truthy path) || not (is_truthy sha)
      then err manifest_error
      else ok (record { path = path; sha256 = sha; size = or_null (get "size" fs) })
  read_entry _ = err attribute_error

  -- The loop over the candidates; `entry` is the entry of a candidate, if it has one.
  unfoldable pub first_present : (String → Option Json) → List String → Result Variant
  first_present entry [] = err variant_not_found
  first_present entry (c ∷ cs) = elim (entry c) [
    | none ↦ first_present entry cs
    | some rec ↦ read_entry rec
  ]

  -- A default that is no text is not found here; in the program it is no key of the manifest, and
  -- the same error follows.
  unfoldable pub default_version : Json → String → String → Result String
  default_version root capability name = elim (walk ("defaults" ∷ capability ∷ name ∷ []) root) [
    | some (Json.text v) ↦ ok v
    | some other ↦ err variant_not_found
    | none ↦ err variant_not_found
  ]

  -- `version or self.default_version(…)`
  unfoldable pub resolve_version : Json → String → String → Option String → Result String
  resolve_version root capability name none = default_version root capability name
  resolve_version root capability name (some v) =
      if v == "" then default_version root capability name else ok v

  -- `[arch] if arch else variant_candidates()`
  unfoldable pub candidates : Device → Option String → Result (List String)
  candidates d none = variant_candidates d
  candidates d (some a) = if a == "" then variant_candidates d else ok (a ∷ [])

  unfoldable pub variant :
      Device → Json → String → String → Option String → Option String → Result Variant
  variant d root capability name version arch = do
    v ← resolve_version root capability name version
    cs ← candidates d arch
    first_present (λ c. walk (capability ∷ name ∷ v ∷ c ∷ []) root) cs
