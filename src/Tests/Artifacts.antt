-- ===== src/Tests/Artifacts.antt =====
-- The theorems on the artifact store, at a small store and manifest.
use locai_link.Base.{
  ℕ, String, true, false, Option, none, some, [], ◌∷◌, ◌≡◌, ◌≤◌, ◌<◌, refl, eqb, length, ◌==◌,
  if◌then◌else◌, ◌≢◌,
}
use locai_link.Json.{Json, end, field}
use locai_link.Artifacts.{
  Device, Variant, ok, platform_arch, platform_name, accel_suffixes, cuda_suffix, has_gpu,
  variant_candidates, walk, subscript, get, read_entry, is_truthy, variant, first_present,
  resolve_version, candidates,
}
use locai_link.Artifacts.Fetch.{
  Response, body, status, Store, http_get, get_from, again, retries, read_body,
}
use locai_link.Artifacts.Attempts.{IsTransient, http_get_requests}
use locai_link.Artifacts.Engine.{Folder, Disk, Installer, regular, symlink, file}

abbrev device : Device
device = record {
  platform = "linux";
  machine = "x86_64";
  nvcc_release = none;
  smi_release = none;
  has_nvidia_smi = true;
  has_rocm_smi = false;
}

abbrev entry : Json
entry =
    Json.obj (field "path" (Json.text "engines/x.tar.gz") (field "sha256" (Json.text "abc") end))

-- Only the portable build is published.
abbrev index : Json
index = Json.obj (
    field "engines"
      (Json.obj
        (field "llama" (Json.obj (field "b1" (Json.obj (field "linux-x64" entry end)) end)) end))
      end)

abbrev no_floats : String → Option ℕ
no_floats s = none

candidates_of : variant_candidates device ≡ ok ("linux-x64-vulkan" ∷ "linux-x64" ∷ [])
unfolding variant_candidates platform_arch platform_name accel_suffixes has_gpu cuda_suffix
candidates_of = refl

abbrev engine : Variant
engine = record {
  path = Json.text "engines/x.tar.gz";
  sha256 = Json.text "abc";
  size = Json.number 3;
}

chosen :
    variant no_floats device index "engines" "llama" (some "b1") none
    ≡ ok
        (record { path = Json.text "engines/x.tar.gz"; sha256 = Json.text "abc"; size = Json.null })
unfolding variant resolve_version candidates variant_candidates platform_arch platform_name
    accel_suffixes has_gpu cuda_suffix first_present walk subscript get read_entry is_truthy
chosen = refl

named : ◌≢◌ {A = String} "b1" ""
named e = absurd cc

arch_of : platform_arch device ≡ ok "linux-x64"
unfolding platform_arch platform_name
arch_of = refl

published : walk ("engines" ∷ "llama" ∷ "b1" ∷ "linux-x64" ∷ []) index ≡ some entry
unfolding walk subscript get
published = refl

-- The first answer is a server error, the next one the artifact.
abbrev replies : ℕ → Response
replies n = if eqb n 1 then status 503 else body (1 ∷ 2 ∷ 3 ∷ [])

asked : (http_get replies (some 10)).requests ≡ 2
unfolding http_get get_from again retries
asked = refl

http_get_requests_example :
    ((http_get replies (some 10)).result
      ≡ read_body (some 10) (replies (http_get replies (some 10)).requests))
    × ((i : ℕ) → 0 < i → i < (http_get replies (some 10)).requests → IsTransient (replies i))
    × (IsTransient (replies (http_get replies (some 10)).requests)
        → (http_get replies (some 10)).requests ≡ 3)
    × ((http_get replies (some 10)).requests ≤ 3)
    × ((http_get replies (some 10)).slept ≤ 6)
http_get_requests_example = http_get_requests replies (some 10)

abbrev small_store : Store
small_store = record {
  hash = λ b. if eqb (length b) 3 then "abc" else "other";
  file_name = λ p. if p == "engines/x.tar.gz" then "x.tar.gz" else p;
  value = no_floats;
  replies = replies;
}

abbrev installer : Installer
installer = record {
  artifacts = small_store;
  tar_members = λ b. some (regular "bin/llama-server" (7 ∷ []) ∷ symlink "lib.so" "lib.so.1" ∷ []);
  zip_members = λ b. none;
  lower = λ s. s;
  strip = λ s. s;
  waited = λ d. d;
  succeeds = λ s. true;
}

abbrev outdated : Folder
outdated = record { files = ("old", file []) ∷ []; marker = some "older" }

abbrev fresh : Disk
fresh = record { engine = some outdated; staging = none; old = none; cache = [] }
