-- ===== src/Registry/Once.antt =====
-- When a plugin is installed: src/link/components/registry.py.
use locai_link.Base.{
  String, Bool, true, false, Option, none, some, [], ◌≡◌, refl, ap, arith, elem, eq_refl,
  Bool-cases, inl, inr,
}
use locai_link.Registry.{
  PluginDir, Place, ComponentRegistry, Installation, nothing_left, find_plugin_dir, install_in,
  note_installed, install_plugin_dependencies, install_if, load_installed, load_plugin,
}

module _ (w : Place) where
  note_installed-elem :
      (b : Bool) (name : String) (r : ComponentRegistry)
      → b ≡ true
      → elem name (note_installed w b name r).installed_plugins ≡ true
  unfolding note_installed
  note_installed-elem true name r e = ground (arith, eq_refl name)
  note_installed-elem false name r e = absurd cc

  -- Only an installation that succeeds is noted.
  install-noted :
      (name : String) (d : PluginDir) (r : ComponentRegistry)
      → (install_plugin_dependencies w name d r).1.succeeds ≡ true
      → elem name (install_plugin_dependencies w name d r).0.installed_plugins ≡ true
  unfolding install_plugin_dependencies
  install-noted name d r = elim (Bool-cases (elem name r.installed_plugins)) [
    | inl here ↦ λ e. rw (here) here
    | inr new ↦ rw (new) (λ e. note_installed-elem (install_in w d).succeeds name r e)
  ]

  -- A plugin that is noted is not installed again.
  install_if-noted :
      (b : Bool) (name : String) (d : Option PluginDir) (r : ComponentRegistry)
      → elem name r.installed_plugins ≡ true
      → install_if w b name d r ≡ (r, nothing_left)
  unfolding install_if install_plugin_dependencies
  install_if-noted b name none r h = refl
  install_if-noted true name (some d) r h = refl
  install_if-noted false name (some d) r h = rw (h) refl

  load_installed-succeeds :
      (name : String) (i : ComponentRegistry × Installation) (c : String)
      → (load_installed w name i).class ≡ some c
      → i.1.succeeds ≡ true
  unfolding load_installed
  load_installed-succeeds name (r, i) c = elim (Bool-cases i.succeeds) [
    | inl e ↦ λ _. e
    | inr e ↦ rw (e) (λ none_is_some. absurd cc)
  ]

  load_plugin-noted :
      (name c : String) (d : PluginDir) (r : ComponentRegistry)
      → w.frozen ≡ false
      → find_plugin_dir w name ≡ some d
      → (load_plugin w name r).class ≡ some c
      → elem name (load_plugin w name r).registry.installed_plugins ≡ true
  unfolding load_plugin load_installed install_if install_plugin_dependencies
  load_plugin-noted name c d r live found =
      rw (live, found)
        (λ e.
          install-noted name d r
            (load_installed-succeeds name (install_plugin_dependencies w name d r) c e))

-- A program that is no frozen bundle installs a plugin for which it finds a directory once: when
-- it got an instance, then the next load, whatever it meets, runs no command and leaves the
-- registry as it is.
pub load_plugin_once :
    (w later : Place) (name c : String) (d : PluginDir) (r : ComponentRegistry)
    → w.frozen ≡ false
    → find_plugin_dir w name ≡ some d
    → (load_plugin w name r).class ≡ some c
    → let r' = (load_plugin w name r).registry in
      ((load_plugin later name r').commands ≡ []) × ((load_plugin later name r').registry ≡ r')
unfolding load_plugin load_installed
load_plugin_once w later name c d r live found e =
    let r' = (load_plugin w name r).registry in
    let again =
      install_if-noted later later.frozen name (find_plugin_dir later name) r'
        (load_plugin-noted w name c d r live found e) in
    (ap (λ i. i.1.commands) again, ap (λ i. i.0) again)
