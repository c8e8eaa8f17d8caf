-- ===== src/Tests/Updates.antt =====
-- The theorems on the update of the bundle, at concrete data.
use locai_link.Base.{
  String, true, false, none, some, [], ◌∷◌, ◌≡◌, ◌≢◌, refl, arith, eq_iff, ◌⊎◌, elem,
}
use locai_link.Updater.{
  InstallRoot, replaced, read_pointer_version, gc_old_versions, keepers, remaining, World,
  swap_bundle, has_suffix,
}
use locai_link.Updater.Live.{IsLive, After, swap_bundle_ends}
use locai_link.Updater.Guarded.{swap_bundle_guarded}
use locai_link.Updater.Gc.{gc_old_versions_only}

abbrev root : InstallRoot
root = record {
  current = record { link = some "1.1"; file = none };
  previous = record { link = some "1.0"; file = none };
  versions = "1.1" ∷ "1.0" ∷ "0.9" ∷ [];
  update_pending = none;
}

abbrev good : World
good = record {
  manifest_version = λ v. some v;
  release = some "1.2";
  fetched = true;
  cleared = true;
  placed = true;
  signed = true;
  healthy = true;
  discarded = true;
  current_write = replaced;
  previous_write = replaced;
  stamped = true;
  removes = λ v. true;
  posix = true;
}

root-IsLive : IsLive "1.1" root
unfolding read_pointer_version
root-IsLive = record { named = refl; there = refl }

new_named : ◌≢◌ {A = String} "1.2" ""
new_named e = ground (arith, (eq_iff "1.2" "").1 e)

old_named : ◌≢◌ {A = String} "1.1" ""
old_named e = ground (arith, (eq_iff "1.1" "").1 e)

previous_named : ◌≢◌ {A = String} "1.0" ""
previous_named e = ground (arith, (eq_iff "1.0" "").1 e)

two_versions : ◌≢◌ {A = String} "1.1" "1.0"
two_versions e = ground (arith, (eq_iff "1.1" "1.0").1 e)

swap_bundle_ends_example :
    After good "1.1" "1.2" root (swap_bundle good root).0 (swap_bundle good root).1
swap_bundle_ends_example =
    swap_bundle_ends good "1.1" "1.2" root new_named old_named root-IsLive refl refl

current_read : read_pointer_version root.current ≡ some "1.1"
unfolding read_pointer_version
current_read = refl

previous_read : read_pointer_version root.previous ≡ some "1.0"
unfolding read_pointer_version
previous_read = refl

kept_one : elem "1.0" (gc_old_versions (λ v. true) 2 root).versions ≡ true
unfolding gc_old_versions read_pointer_version has_suffix remaining keepers
kept_one = refl

no_staging : has_suffix ".tmp" "1.0" ≡ false
unfolding has_suffix
no_staging = refl

gc_old_versions_only_example : ◌⊎◌ (◌≡◌ {A = String} "1.0" "1.1") (◌≡◌ {A = String} "1.0" "1.0")
gc_old_versions_only_example =
    gc_old_versions_only (λ v. true) root "1.1" "1.0" "1.0" old_named previous_named two_versions
      current_read previous_read refl no_staging kept_one

-- The new runtime does not pass its self-check.
abbrev unhealthy : World
unhealthy = record good { healthy = false }

swap_bundle_guarded_example :
    ((swap_bundle unhealthy root).0.current ≡ root.current)
    × ((swap_bundle unhealthy root).0.previous ≡ root.previous)
swap_bundle_guarded_example = swap_bundle_guarded unhealthy root refl
